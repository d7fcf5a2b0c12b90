-- ===== src/Gpu/Contention/Kfd/Users.antt =====
-- What KfdSource says of a device, in terms of the processes that have a queue on it.
use loadmaster.Prelude.{
  ℕ, ◌≤◌, ◌<◌, ◌≡◌, refl, ◌∙◌, ◌⊎◌, inl, inr, Bool, true, false, not, ◌&&◌, Option, none, some,
  List, [], ◌∷◌, Text, All, arith,
}
use loadmaster.Gpu.Contention.Monitor.{Verdict, unknown, idle, busy, Observation}
use loadmaster.Gpu.Contention.LinuxFs.{Files, is_empty}
use loadmaster.Gpu.Contention.Kfd.{
  DeviceLocator, find_gpus, without_function, union_of, judge, observe_on, observe, observe_all,
  measure, measure_all, measure_busy, busy_pcis, find_share, sample,
}
use loadmaster.Gpu.Contention.Kfd.Owners.{
  contains, IsIncreasing, contains-union_of, union_of-IsIncreasing, owners_now, is_user, self_seen,
  owns_any-is_user,
}

-- What a source may say of a device with these users: it is busy if there is one, or, when one
-- entry may be our own, if there are two; the process named is one of them; else it is idle.
pub record Judged {Share : Type 0} (discount : Bool) (user : ℕ → Bool) (o : Observation Share)
    : Type 0 where
  pub named : o.verdict ≡ busy → user o.pid ≡ true
  pub another : o.verdict ≡ busy → discount ≡ true → (n : ℕ) × (o.pid < n) × (user n ≡ true)
  pub found : (n : ℕ) → user n ≡ true → discount ≡ false → o.verdict ≡ busy
  pub found_two : (m n : ℕ) → m < n → user m ≡ true → user n ≡ true → o.verdict ≡ busy
  pub known : (o.verdict ≡ busy) ⊎ (o.verdict ≡ idle)

not_below : (n x : ℕ) (xs : List ℕ) → n ≤ x → All (λ y. x < y) xs → contains n xs ≡ false
not_below n x [] h a = refl
not_below n x (y ∷ ys) h a = ground (arith, a.0, h, not_below n x ys h a.1)

module _ {Share : Type 0} (o : Observation Share) (user : ℕ → Bool) where
  judge-Judged :
      (discount : Bool) (pids : List ℕ)
      → IsIncreasing pids
      → ((n : ℕ) → contains n pids ≡ user n)
      → Judged discount user (judge discount pids o)
  judge-Judged true [] s same = record {
    named = λ b. cc;
    another = λ b d. cc;
    found = λ n h d. cc;
    found_two = λ m n l h k. absurd (ground (arith, same m, h));
    known = inr refl;
  }
  judge-Judged false [] s same = record {
    named = λ b. cc;
    another = λ b d. cc;
    found = λ n h d. absurd (ground (arith, same n, h));
    found_two = λ m n l h k. absurd (ground (arith, same m, h));
    known = inr refl;
  }
  judge-Judged true (p ∷ []) s same = record {
    named = λ b. cc;
    another = λ b d. cc;
    found = λ n h d. cc;
    found_two = λ m n l h k. absurd (ground (arith, same m, same n, h, k, l));
    known = inr refl;
  }
  judge-Judged false (p ∷ ps) s same = record {
    named = λ b. ground (arith, same p);
    another = λ b d. cc;
    found = λ n h d. refl;
    found_two = λ m n l h k. refl;
    known = inl refl;
  }
  judge-Judged true (p ∷ q ∷ ps) s same = record {
    named = λ b. ground (arith, same p);
    another = λ b d. (q, s.0.0, ground (arith, same q));
    found = λ n h d. cc;
    found_two = λ m n l h k. refl;
    known = inl refl;
  }

module _ {Share : Type 0} where
  -- The percent of the whole device changes no verdict.
  measured-Judged :
      (discount : Bool) (user : ℕ → Bool) (v : Verdict) (percent : Option Share)
      (o : Observation Share)
      → Judged discount user o
      → Judged discount user (measure v percent o)
  measured-Judged discount user unknown percent o j = j
  measured-Judged discount user idle percent o j = j
  measured-Judged discount user busy none o j = j
  measured-Judged discount user busy (some percent) o j = record {
    named = j.named;
    another = j.another;
    found = j.found;
    found_two = j.found_two;
    known = j.known;
  }

  measured-verdict :
      (v : Verdict) (percent : Option Share) (o : Observation Share)
      → (measure v percent o).verdict ≡ o.verdict
  measured-verdict unknown percent o = refl
  measured-verdict idle percent o = refl
  measured-verdict busy none o = refl
  measured-verdict busy (some percent) o = refl

module _ {Share : Type 0} (files : Files) (root : Text) (self_pid : ℕ)
    (ids : List (Text × List ℕ)) where
  -- What a sample makes of an observation `o` of a device, on the ids that the driver has for it.
  abbrev pub Result :
      Option (List ℕ) → DeviceLocator → Observation Share → Observation Share → Type 0
  Result none d o r = r.verdict ≡ o.verdict
  Result (some gpus) d o r =
      is_empty d.pci_bus_id ≡ false
      → Judged (not (self_seen files root self_pid) && d.kfd_client)
          (is_user files root self_pid gpus) r

  abbrev pub Results :
      List DeviceLocator → List (Observation Share) → List (Observation Share) → Type 0
  Results [] os rs = Unit
  Results (d ∷ ds) [] rs = Unit
  Results (d ∷ ds) (o ∷ os) [] = ⊥
  Results (d ∷ ds) (o ∷ os) (r ∷ rs) =
      Result (find_gpus (without_function d.pci_bus_id) ids) d o r × Results ds os rs

  observe_on-Result :
      (gpus : Option (List ℕ)) (d : DeviceLocator) (o : Observation Share)
      → Result gpus d o
          (observe_on gpus (self_seen files root self_pid) d (owners_now files root self_pid) o)
  observe_on-Result none d o = refl
  observe_on-Result (some gpus) d o = λ e. rw e (
      judge-Judged o (is_user files root self_pid gpus)
        (not (self_seen files root self_pid) && d.kfd_client)
        (union_of gpus (owners_now files root self_pid) [])
        (union_of-IsIncreasing gpus (owners_now files root self_pid) [] tt)
        (λ n. ground (
          arith,
          contains-union_of n gpus (owners_now files root self_pid) [],
          owns_any-is_user files root self_pid gpus n,
        )))

  measure-Result :
      (gpus : Option (List ℕ)) (d : DeviceLocator) (o r : Observation Share) (v : Verdict)
      (percent : Option Share)
      → Result gpus d o r
      → Result gpus d o (measure v percent r)
  measure-Result none d o r v percent h = measured-verdict v percent r ∙ h
  measure-Result (some gpus) d o r v percent h = λ e.
      measured-Judged (not (self_seen files root self_pid) && d.kfd_client)
        (is_user files root self_pid gpus) v percent r (h e)

  observe_all-Results :
      (ds : List DeviceLocator) (os : List (Observation Share))
      → Results ds os
          (observe_all ids (self_seen files root self_pid) (owners_now files root self_pid) ds os)
  unfolding observe
  observe_all-Results [] os = tt
  observe_all-Results (d ∷ ds) [] = tt
  observe_all-Results (d ∷ ds) (o ∷ os) = (
    observe_on-Result (find_gpus (without_function d.pci_bus_id) ids) d o,
    observe_all-Results ds os,
  )

  measure_all-Results :
      (averages : List (Text × Share)) (ds : List DeviceLocator) (os rs : List (Observation Share))
      → Results ds os rs
      → Results ds os (measure_all averages ds rs)
  measure_all-Results averages [] os rs h = tt
  measure_all-Results averages (d ∷ ds) [] rs h = tt
  measure_all-Results averages (d ∷ ds) (o ∷ os) [] h = absurd h
  measure_all-Results averages (d ∷ ds) (o ∷ os) (r ∷ rs) h = (
    measure-Result (find_gpus (without_function d.pci_bus_id) ids) d o r r.verdict
        (find_share d.pci_bus_id averages) h.0,
    measure_all-Results averages ds os rs h.1,
  )

  measure_busy-Results :
      (average : List Text → List (Text × Share)) (pcis : List Text) (ds : List DeviceLocator)
      (os rs : List (Observation Share))
      → Results ds os rs
      → Results ds os (measure_busy average pcis ds rs)
  measure_busy-Results average [] ds os rs h = h
  measure_busy-Results average (pci ∷ pcis) ds os rs h =
      measure_all-Results (average (pci ∷ pcis)) ds os rs h

-- Whatever the files say: a device that the driver knows is busy exactly if another process is
-- listed with a queue on it, and then one of those is named; when our own process is not listed
-- under its number though it has a queue, two are needed. Other devices keep their verdicts.
pub sample-Results :
    {Share : Type 0} (average : List Text → List (Text × Share)) (files : Files) (root : Text)
    (self_pid : ℕ) (ids : List (Text × List ℕ)) (ds : List DeviceLocator)
    (os : List (Observation Share))
    → Results files root self_pid ids ds os (sample average files root self_pid ids ds os)
unfolding sample
sample-Results average files root self_pid ids ds os =
    measure_busy-Results files root self_pid ids average
      (busy_pcis ids (self_seen files root self_pid) (owners_now files root self_pid) ds) ds os
      (observe_all ids (self_seen files root self_pid) (owners_now files root self_pid) ds os)
      (observe_all-Results files root self_pid ids ds os)
