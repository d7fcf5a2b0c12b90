-- ===== src/Memory/Manager/Spacing.antt =====
-- Allocations are apart in time, whatever the background thread does.
use loadmaster.Prelude.{
  ℕ, suc, ◌+◌, ◌≤◌, ◌≡◌, refl, subst, ◌∙◌, ◌⊎◌, inl, inr, Bool, true, false, Bool-cases, List, [],
  ◌∷◌, arith, ltb, leb, if◌then◌else◌,
}
use loadmaster.Memory.Manager.{
  Manager, initial, Thread, not_joinable, allocating, finished, Draw, Event, tick, background, step,
  will_schedule, schedule_idle, schedule_on, schedule, finish_on, finish, aligned, threshold_bytes,
}

-- Over 45 whole seconds.
abbrev pub gap_ms : ℕ
gap_ms = 46000

-- What a step does to the count of allocations and the time of the last.
record Kept (m n : Manager) : Type 0 where
  pub has : n.has_scheduled ≡ m.has_scheduled
  pub count : n.scheduled_allocations ≡ m.scheduled_allocations
  pub last : n.last_scheduling ≡ m.last_scheduling

record Started (m n : Manager) : Type 0 where
  pub has : n.has_scheduled ≡ true
  pub count : n.scheduled_allocations ≡ suc m.scheduled_allocations
  pub apart : m.has_scheduled ≡ true → m.last_scheduling + gap_ms ≤ n.last_scheduling

kept : (m : Manager) → Kept m m
kept m = record { has = refl; count = refl; last = refl }

due-apart :
    (m : Manager) (now : ℕ)
    → will_schedule m now ≡ true
    → m.has_scheduled ≡ true
    → m.last_scheduling + gap_ms ≤ now
due-apart m now due has = ground arith

schedule_idle-cases :
    (m : Manager) (now : ℕ) (d : Draw)
    → Kept m (schedule_idle m now d) ⊎ Started m (schedule_idle m now d)
unfolding schedule_idle
schedule_idle-cases m now d = elim (Bool-cases (will_schedule m now)) [
  | inl due ↦ rw due (
      inr (elim (Bool-cases (leb threshold_bytes (aligned d.raw_bytes))) [
        | inl large ↦ rw large (record { has = refl; count = refl; apart = due-apart m now due })
        | inr small ↦ rw small (record { has = refl; count = refl; apart = due-apart m now due })
      ]))
  | inr early ↦ rw early (inl (kept m))
]

schedule_on-cases :
    (t : Thread) (m : Manager) (now : ℕ) (d : Draw)
    → Kept m (schedule_on t m now d) ⊎ Started m (schedule_on t m now d)
unfolding schedule_on
schedule_on-cases not_joinable m now d = schedule_idle-cases m now d
schedule_on-cases (allocating byte_count seed) m now d = inl (kept m)
schedule_on-cases finished m now d =
    again (schedule_idle-cases (record m { thread = not_joinable }) now d)
  where
    again :
        {n : Manager}
        → Kept (record m { thread = not_joinable }) n
          ⊎ Started (record m { thread = not_joinable }) n
        → Kept m n ⊎ Started m n
    again (inl k) = inl (record { has = k.has; count = k.count; last = k.last })
    again (inr s) = inr (record { has = s.has; count = s.count; apart = s.apart })

finish_on-Kept :
    (t : Thread) (m : Manager) (fits : Bool) (stops : List Bool) → Kept m (finish_on t m fits stops)
unfolding finish_on
finish_on-Kept not_joinable m fits stops = kept m
finish_on-Kept (allocating byte_count seed) m fits stops = record {
  has = refl;
  count = refl;
  last = refl;
}
finish_on-Kept finished m fits stops = kept m

step-cases : (m : Manager) (e : Event) → Kept m (step m e) ⊎ Started m (step m e)
unfolding schedule finish
step-cases m (tick now d) = schedule_on-cases m.thread m now d
step-cases m (background fits stops) = inl (finish_on-Kept m.thread m fits stops)

-- The times of the allocations that a run starts.
unfoldable pub starts : Manager → List Event → List ℕ
starts m [] = []
starts m (e ∷ es) =
    let rest = starts (step m e) es in
    if ltb m.scheduled_allocations (step m e).scheduled_allocations
    then (step m e).last_scheduling ∷ rest
    else rest

-- Each is far enough behind the one before.
abbrev pub Apart : ℕ → List ℕ → Type 0
Apart last [] = Unit
Apart last (t ∷ ts) = (last + gap_ms ≤ t) × Apart t ts

abbrev pub AllApart : List ℕ → Type 0
AllApart [] = Unit
AllApart (t ∷ ts) = Apart t ts

starts-Kept :
    (m : Manager) (e : Event) (es : List Event)
    → Kept m (step m e)
    → starts m (e ∷ es) ≡ starts (step m e) es
unfolding starts
starts-Kept m e es k =
    let same : ltb m.scheduled_allocations (step m e).scheduled_allocations ≡ false =
      ground (arith, k.count) in
    rw same refl

starts-Started :
    (m : Manager) (e : Event) (es : List Event)
    → Started m (step m e)
    → starts m (e ∷ es) ≡ (step m e).last_scheduling ∷ starts (step m e) es
unfolding starts
starts-Started m e es s =
    let more : ltb m.scheduled_allocations (step m e).scheduled_allocations ≡ true =
      ground (arith, s.count) in
    rw more refl

starts-Apart :
    (m : Manager) (es : List Event)
    → (m.has_scheduled ≡ true → Apart m.last_scheduling (starts m es))
      × (m.has_scheduled ≡ false → AllApart (starts m es))
unfolding starts
starts-Apart m [] = (λ h. tt, λ h. tt)
starts-Apart m (e ∷ es) =
    let ih = starts-Apart (step m e) es in
    elim (step-cases m e) [
      | inl k ↦ (
        λ h.
            rw (starts-Kept m e es k)
              (subst (λ l. Apart l (starts (step m e) es)) k.last (ih.0 (k.has ∙ h))),
        λ h. rw (starts-Kept m e es k) (ih.1 (k.has ∙ h)),
      )
      | inr s ↦ (
        λ h. rw (starts-Started m e es s) (s.apart h, ih.0 s.has),
        λ h. rw (starts-Started m e es s) (ih.0 s.has),
      )
    ]

-- From the start of the program, over any ticks at any times with the background thread finishing
-- at any point between them, two allocations are never less than 46 s apart: also a failed one
-- is not tried again before.
pub starts-AllApart : (es : List Event) → AllApart (starts initial es)
starts-AllApart es = (starts-Apart initial es).1 refl
