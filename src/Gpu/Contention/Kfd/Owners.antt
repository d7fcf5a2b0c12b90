-- ===== src/Gpu/Contention/Kfd/Owners.antt =====
-- Who is in the sets that KfdSource builds.
use loadmaster.Prelude.{
  ℕ, ◌%◌, ◌^◌, ◌<◌, ◌≡◌, refl, inl, inr, Bool, false, not, ◌&&◌, ◌||◌, Option, none, some, List, [],
  ◌∷◌, Text, All, All-weaken, arith, ltb, ◌==◌, Bool-cases, ltb→lt,
}
use loadmaster.Gpu.Contention.LinuxFs.{Files, list_numeric_dir, strtoul}
use loadmaster.Gpu.Contention.Kfd.{
  insert_number, insert_all, add_owner, owners_of, queues_dir, queue_file, procs, on_queue,
  scan_queues, scan_pids, is_listed, union_of,
}

abbrev pub contains : ℕ → List ℕ → Bool
contains n [] = false
contains n (x ∷ xs) = (x == n) || contains n xs

abbrev pub IsIncreasing : List ℕ → Type 0
IsIncreasing [] = Unit
IsIncreasing (x ∷ xs) = All (λ y. x < y) xs × IsIncreasing xs

contains-insert_number :
    (n m : ℕ) (xs : List ℕ) → contains n (insert_number m xs) ≡ ((m == n) || contains n xs)
contains-insert_number n m [] = refl
contains-insert_number n m (x ∷ xs) = ground (arith, contains-insert_number n m xs)

All-insert_number :
    (b m : ℕ) (xs : List ℕ) → b < m → All (λ y. b < y) xs → All (λ y. b < y) (insert_number m xs)
All-insert_number b m [] h a = (h, tt)
All-insert_number b m (x ∷ xs) h a = elim (Bool-cases (m == x)) [
  | inl same ↦ rw same a
  | inr other ↦ rw other (elim (Bool-cases (ltb m x)) [
    | inl before ↦ rw before (h, a)
    | inr behind ↦ rw behind (a.0, All-insert_number b m xs h a.1)
  ])
]

insert_number-IsIncreasing :
    (m : ℕ) (xs : List ℕ) → IsIncreasing xs → IsIncreasing (insert_number m xs)
insert_number-IsIncreasing m [] s = (tt, tt)
insert_number-IsIncreasing m (x ∷ xs) s = elim (Bool-cases (m == x)) [
  | inl same ↦ rw same s
  | inr other ↦ rw other (elim (Bool-cases (ltb m x)) [
    | inl before ↦ rw before (
      (
        ltb→lt m x before,
        All-weaken (λ y. x < y) (λ y. m < y) xs (λ y k. omega (arith, ltb→lt m x before)) s.0,
      ),
      s,
    )
    | inr behind ↦
        rw behind (All-insert_number x m xs (ground arith) s.0, insert_number-IsIncreasing m xs s.1)
  ])
]

contains-insert_all :
    (n : ℕ) (ms xs : List ℕ) → contains n (insert_all ms xs) ≡ (contains n ms || contains n xs)
contains-insert_all n [] xs = refl
contains-insert_all n (m ∷ ms) xs =
    ground (arith, contains-insert_all n ms (insert_number m xs), contains-insert_number n m xs)

insert_all-IsIncreasing : (ms xs : List ℕ) → IsIncreasing xs → IsIncreasing (insert_all ms xs)
insert_all-IsIncreasing [] xs s = s
insert_all-IsIncreasing (m ∷ ms) xs s =
    insert_all-IsIncreasing ms (insert_number m xs) (insert_number-IsIncreasing m xs s)

-- A process is on one of the devices.
abbrev owns_any : ℕ → List ℕ → List (ℕ × List ℕ) → Bool
owns_any n [] owners = false
owns_any n (gpu ∷ gpus) owners = contains n (owners_of gpu owners) || owns_any n gpus owners

pub contains-union_of :
    (n : ℕ) (gpus : List ℕ) (owners : List (ℕ × List ℕ)) (set : List ℕ)
    → contains n (union_of gpus owners set) ≡ (owns_any n gpus owners || contains n set)
contains-union_of n [] owners set = refl
contains-union_of n (gpu ∷ gpus) owners set = ground (
  arith,
  contains-union_of n gpus owners (insert_all (owners_of gpu owners) set),
  contains-insert_all n (owners_of gpu owners) set,
)

pub union_of-IsIncreasing :
    (gpus : List ℕ) (owners : List (ℕ × List ℕ)) (set : List ℕ)
    → IsIncreasing set
    → IsIncreasing (union_of gpus owners set)
union_of-IsIncreasing [] owners set s = s
union_of-IsIncreasing (gpu ∷ gpus) owners set s =
    union_of-IsIncreasing gpus owners (insert_all (owners_of gpu owners) set)
      (insert_all-IsIncreasing (owners_of gpu owners) set s)

owners_of-add_owner :
    (n g gpu pid : ℕ) (owners : List (ℕ × List ℕ))
    → contains n (owners_of g (add_owner gpu pid owners))
      ≡ (((gpu == g) && (pid == n)) || contains n (owners_of g owners))
owners_of-add_owner n g gpu pid [] = ground arith
owners_of-add_owner n g gpu pid ((h, pids) ∷ more) =
    ground (arith, owners_of-add_owner n g gpu pid more, contains-insert_number n pid pids)

-- The text of a queue names the device.
abbrev names : ℕ → Option Text → Bool
names gpu none = false
names gpu (some text) = strtoul text % 2 ^ 32 == gpu

module _ (files : Files) (root : Text) (self_pid : ℕ) where
  abbrev has_queue : ℕ → ℕ → List ℕ → Bool
  has_queue gpu pid [] = false
  has_queue gpu pid (q ∷ qs) =
      names gpu (files.read_file (queue_file files root self_pid pid q)) || has_queue gpu pid qs

  on_queue-contains :
      (n gpu pid : ℕ) (text : Option Text) (owners : List (ℕ × List ℕ))
      → contains n (owners_of gpu (on_queue files root self_pid text pid owners))
        ≡ ((names gpu text && (pid == n)) || contains n (owners_of gpu owners))
  on_queue-contains n gpu pid none owners = refl
  on_queue-contains n gpu pid (some text) owners =
      owners_of-add_owner n gpu (strtoul text % 2 ^ 32) pid owners

  scan_queues-contains :
      (n gpu pid : ℕ) (qs : List ℕ) (owners : List (ℕ × List ℕ))
      → contains n (owners_of gpu (scan_queues files root self_pid qs pid owners))
        ≡ ((has_queue gpu pid qs && (pid == n)) || contains n (owners_of gpu owners))
  scan_queues-contains n gpu pid [] owners = refl
  scan_queues-contains n gpu pid (q ∷ qs) owners =
      let text = files.read_file (queue_file files root self_pid pid q) in
      ground (
        arith,
        scan_queues-contains n gpu pid qs (on_queue files root self_pid text pid owners),
        on_queue-contains n gpu pid text owners,
      )

  -- Another process of the list, with a queue on the device.
  abbrev uses : ℕ → ℕ → List ℕ → Bool
  uses gpu n [] = false
  uses gpu n (pid ∷ pids) =
      (not (pid == self_pid)
        && (pid == n)
        && has_queue gpu pid (list_numeric_dir files (queues_dir files root self_pid pid)))
      || uses gpu n pids

  scan_pids-contains :
      (n gpu : ℕ) (pids : List ℕ) (owners : List (ℕ × List ℕ))
      → contains n (owners_of gpu (scan_pids files root self_pid pids owners))
        ≡ (uses gpu n pids || contains n (owners_of gpu owners))
  scan_pids-contains n gpu [] owners = refl
  scan_pids-contains n gpu (pid ∷ pids) owners = elim (Bool-cases (pid == self_pid)) [
    | inl ours ↦ rw ours (scan_pids-contains n gpu pids owners)
    | inr other ↦
        let queues = list_numeric_dir files (queues_dir files root self_pid pid) in
        rw other (
          ground (
            arith,
            scan_pids-contains n gpu pids (scan_queues files root self_pid queues pid owners),
            scan_queues-contains n gpu pid queues owners,
          ))
  ]

  -- A process other than ours is listed with a queue on one of the devices.
  abbrev pub is_user : List ℕ → ℕ → Bool
  is_user [] n = false
  is_user (gpu ∷ gpus) n =
      uses gpu n (list_numeric_dir files (procs files root self_pid)) || is_user gpus n

  abbrev pub owners_now : List (ℕ × List ℕ)
  owners_now = scan_pids files root self_pid (list_numeric_dir files (procs files root self_pid)) []

  abbrev pub self_seen : Bool
  self_seen = is_listed files root self_pid (list_numeric_dir files (procs files root self_pid))

  pub owns_any-is_user : (gpus : List ℕ) (n : ℕ) → owns_any n gpus owners_now ≡ is_user gpus n
  owns_any-is_user [] n = refl
  owns_any-is_user (gpu ∷ gpus) n = ground (
    arith,
    owns_any-is_user gpus n,
    scan_pids-contains n gpu (list_numeric_dir files (procs files root self_pid)) [],
  )
