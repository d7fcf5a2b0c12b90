-- ===== src/Gpu/Manager/Kept.antt =====
-- The workers that GpuResourceManager starts, and those that CalibrateWorkers keeps.
use loadmaster.Prelude.{
  ℕ, ◌≡◌, refl, sym, ap, ◌∙◌, ◌≤◌, arith, Bool, true, false, ◌||◌, Option, none, some, List, [],
  ◌∷◌, ◌++◌, if◌then◌else◌, length, All, All-append,
}
use mathlib.Core.List.{append-nil, append_assoc, map-append}
use loadmaster.Gpu.Contention.Monitor.{Change}
use loadmaster.Gpu.Manager.{
  Context, Starting, has, new_context, sharing, emplace, keep_on, start_devices, keep_usable,
}
use loadmaster.Gpu.Manager.Settings.{devices_of, HasSettings, cons_some}

module _ {Device : Type 0} (start : ℕ → Device → Option Device) (calibrate : Device → Option ℕ)
    (poll : ℕ → List Device → List Change) where
  -- The pending devices that could be started, in order.
  unfoldable pub started : List (ℕ × Device) → List Device
  started [] = []
  started ((idx, d) ∷ more) = cons_some (start idx d) (started more)

  -- The devices that are shared or can be calibrated.
  unfoldable pub usable : List (Context Device) → List Device
  usable [] = []
  usable (w ∷ ws) =
      let rest = usable ws in
      if sharing w || has (calibrate w.device) then w.device ∷ rest else rest

  emplace-devices_of :
      (bytes : ℕ) (d : Option Device) (s : Starting Device)
      → devices_of (emplace bytes d s).workers ≡ devices_of s.workers ++ cons_some d []
  emplace-devices_of bytes none s = sym (append-nil (devices_of s.workers))
  emplace-devices_of bytes (some d) s = map-append _ s.workers (new_context s.next_id bytes d ∷ [])

  cons_some-append : (d : Option Device) (ds : List Device) → cons_some d [] ++ ds ≡ cons_some d ds
  cons_some-append none ds = refl
  cons_some-append (some d) ds = refl

  pub start_devices-devices_of :
      (bytes : ℕ) (ps : List (ℕ × Device)) (s : Starting Device)
      → devices_of (start_devices start calibrate poll bytes ps s).workers
        ≡ devices_of s.workers ++ started ps
  unfolding started
  start_devices-devices_of bytes [] s = sym (append-nil (devices_of s.workers))
  start_devices-devices_of bytes ((idx, d) ∷ more) s =
      start_devices-devices_of bytes more (emplace bytes (start idx d) s)
      ∙ ap (λ ds. ds ++ started more) (emplace-devices_of bytes (start idx d) s)
      ∙ append_assoc (devices_of s.workers) (cons_some (start idx d) []) (started more)
      ∙ ap (λ ds. devices_of s.workers ++ ds) (cons_some-append (start idx d) (started more))

  emplace-HasSettings :
      (bytes : ℕ) (d : Option Device) (s : Starting Device)
      → All (HasSettings bytes 0) s.workers
      → All (HasSettings bytes 0) (emplace bytes d s).workers
  emplace-HasSettings bytes none s a = a
  emplace-HasSettings bytes (some d) s a =
      All-append (HasSettings bytes 0) s.workers (new_context s.next_id bytes d ∷ []) a
        ((refl, refl), tt)

  pub start_devices-HasSettings :
      (bytes : ℕ) (ps : List (ℕ × Device)) (s : Starting Device)
      → All (HasSettings bytes 0) s.workers
      → All (HasSettings bytes 0) (start_devices start calibrate poll bytes ps s).workers
  start_devices-HasSettings bytes [] s a = a
  start_devices-HasSettings bytes ((idx, d) ∷ more) s a =
      start_devices-HasSettings bytes more (emplace bytes (start idx d) s)
        (emplace-HasSettings bytes (start idx d) s a)

  keep_on-devices_of :
      (shared : Bool) (count : Option ℕ) (w : Context Device) (rest : List (Context Device))
      (ds : List Device)
      → devices_of rest ≡ ds
      → devices_of (keep_on shared count w rest)
        ≡ (if shared || has count then w.device ∷ ds else ds)
  keep_on-devices_of true count w rest ds e = ap (λ xs. w.device ∷ xs) e
  keep_on-devices_of false none w rest ds e = e
  keep_on-devices_of false (some count) w rest ds e = ap (λ xs. w.device ∷ xs) e

  pub keep_usable-devices_of :
      (ws : List (Context Device)) → devices_of (keep_usable start calibrate poll ws) ≡ usable ws
  unfolding usable
  keep_usable-devices_of [] = refl
  keep_usable-devices_of (w ∷ ws) =
      keep_on-devices_of (sharing w) (calibrate w.device) w (keep_usable start calibrate poll ws)
        (usable ws) (keep_usable-devices_of ws)

  keep_on-HasSettings :
      (bytes load : ℕ) (shared : Bool) (count : Option ℕ) (w : Context Device)
      (rest : List (Context Device))
      → HasSettings bytes load w
      → All (HasSettings bytes load) rest
      → All (HasSettings bytes load) (keep_on shared count w rest)
  keep_on-HasSettings bytes load true count w rest s a = (s, a)
  keep_on-HasSettings bytes load false none w rest s a = a
  keep_on-HasSettings bytes load false (some count) w rest s a = (s, a)

  pub keep_usable-HasSettings :
      (bytes load : ℕ) (ws : List (Context Device))
      → All (HasSettings bytes load) ws
      → All (HasSettings bytes load) (keep_usable start calibrate poll ws)
  keep_usable-HasSettings bytes load [] a = tt
  keep_usable-HasSettings bytes load (w ∷ ws) a =
      keep_on-HasSettings bytes load (sharing w) (calibrate w.device) w
        (keep_usable start calibrate poll ws) a.0 (keep_usable-HasSettings bytes load ws a.1)

  -- As many workers as before are the same workers.
  abbrev Kept : List (Context Device) → List (Context Device) → Type 0
  Kept rest ws =
      (length rest ≤ length ws) × (length rest ≡ length ws → devices_of rest ≡ devices_of ws)

  keep_on-Kept :
      (shared : Bool) (count : Option ℕ) (w : Context Device) (rest ws : List (Context Device))
      → Kept rest ws
      → Kept (keep_on shared count w rest) (w ∷ ws)
  keep_on-Kept true count w rest ws (le, same) =
      (omega arith, λ e. ap (λ xs. w.device ∷ xs) (same (omega arith)))
  keep_on-Kept false none w rest ws (le, same) = (omega arith, λ e. absurd (omega arith))
  keep_on-Kept false (some count) w rest ws (le, same) =
      (omega arith, λ e. ap (λ xs. w.device ∷ xs) (same (omega arith)))

  pub keep_usable-Kept :
      (ws : List (Context Device)) → Kept (keep_usable start calibrate poll ws) ws
  keep_usable-Kept [] = (omega arith, λ e. refl)
  keep_usable-Kept (w ∷ ws) =
      keep_on-Kept (sharing w) (calibrate w.device) w (keep_usable start calibrate poll ws) ws
        (keep_usable-Kept ws)
