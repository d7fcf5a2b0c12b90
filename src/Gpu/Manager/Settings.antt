-- ===== src/Gpu/Manager/Settings.antt =====
-- What sharing and the load leave alone of the workers of GpuResourceManager.
use loadmaster.Prelude.{
  ℕ, zero, suc, ◌≡◌, refl, ap, ◌∙◌, Option, none, some, List, [], ◌∷◌, map, All,
}
use loadmaster.Gpu.Contention.Monitor.{Change}
use loadmaster.Gpu.Manager.{Context, set_others, set_load, set_others_at, on_changes}

module _ {Device : Type 0} where
  abbrev pub devices_of : List (Context Device) → List Device
  devices_of ws = map (λ (w : Context Device). w.device) ws

  -- The bytes and the load that every worker is given.
  abbrev pub HasSettings : ℕ → ℕ → Context Device → Type 0
  HasSettings bytes load w = (w.memory_bytes ≡ bytes) × (w.load_set ≡ load)

  abbrev pub cons_some : Option Device → List Device → List Device
  cons_some none ds = ds
  cons_some (some d) ds = d ∷ ds

  -- The first without a load, the second with one.
  abbrev pub by_load : ℕ → List Device → List Device → List Device
  by_load zero ds es = ds
  by_load (suc load) ds es = es

  set_others_device : (o : Option ℕ) (w : Context Device) → (set_others o w).device ≡ w.device
  set_others_device none w = refl
  set_others_device (some p) w = refl

  set_others-HasSettings :
      (bytes load : ℕ) (o : Option ℕ) (w : Context Device)
      → HasSettings bytes load w
      → HasSettings bytes load (set_others o w)
  set_others-HasSettings bytes load none w s = s
  set_others-HasSettings bytes load (some p) w s = s

  set_others_at-devices_of :
      (i : ℕ) (o : Option ℕ) (ws : List (Context Device))
      → devices_of (set_others_at i o ws) ≡ devices_of ws
  set_others_at-devices_of i o [] = refl
  set_others_at-devices_of zero o (w ∷ ws) = ap (λ d. d ∷ devices_of ws) (set_others_device o w)
  set_others_at-devices_of (suc i) o (w ∷ ws) =
      ap (λ ds. w.device ∷ ds) (set_others_at-devices_of i o ws)

  pub on_changes-devices_of :
      (cs : List Change) (ws : List (Context Device))
      → devices_of (on_changes cs ws) ≡ devices_of ws
  on_changes-devices_of [] ws = refl
  on_changes-devices_of (c ∷ cs) ws =
      on_changes-devices_of cs (set_others_at c.device c.report ws)
      ∙ set_others_at-devices_of c.device c.report ws

  pub nothing-on_changes : (cs : List Change) → on_changes {Device = Device} cs [] ≡ []
  nothing-on_changes [] = refl
  nothing-on_changes (c ∷ cs) = nothing-on_changes cs

  pub cleared-devices_of :
      (ws : List (Context Device)) → devices_of (map (set_others none) ws) ≡ devices_of ws
  cleared-devices_of [] = refl
  cleared-devices_of (w ∷ ws) = ap (λ ds. w.device ∷ ds) (cleared-devices_of ws)

  pub loaded-devices_of :
      (load : ℕ) (ws : List (Context Device)) → devices_of (map (set_load load) ws) ≡ devices_of ws
  loaded-devices_of load [] = refl
  loaded-devices_of load (w ∷ ws) = ap (λ ds. w.device ∷ ds) (loaded-devices_of load ws)

  module _ (bytes load : ℕ) where
    set_others_at-HasSettings :
        (i : ℕ) (o : Option ℕ) (ws : List (Context Device))
        → All (HasSettings bytes load) ws
        → All (HasSettings bytes load) (set_others_at i o ws)
    set_others_at-HasSettings i o [] a = tt
    set_others_at-HasSettings zero o (w ∷ ws) a = (set_others-HasSettings bytes load o w a.0, a.1)
    set_others_at-HasSettings (suc i) o (w ∷ ws) a = (a.0, set_others_at-HasSettings i o ws a.1)

    pub on_changes-HasSettings :
        (cs : List Change) (ws : List (Context Device))
        → All (HasSettings bytes load) ws
        → All (HasSettings bytes load) (on_changes cs ws)
    on_changes-HasSettings [] ws a = a
    on_changes-HasSettings (c ∷ cs) ws a =
        on_changes-HasSettings cs (set_others_at c.device c.report ws)
          (set_others_at-HasSettings c.device c.report ws a)

    pub cleared-HasSettings :
        (ws : List (Context Device))
        → All (HasSettings bytes load) ws
        → All (HasSettings bytes load) (map (set_others none) ws)
    cleared-HasSettings [] a = tt
    cleared-HasSettings (w ∷ ws) a = (a.0, cleared-HasSettings ws a.1)

    pub loaded-HasSettings :
        (to : ℕ) (ws : List (Context Device))
        → All (HasSettings bytes load) ws
        → All (HasSettings bytes to) (map (set_load to) ws)
    loaded-HasSettings to [] a = tt
    loaded-HasSettings to (w ∷ ws) a = ((a.0.0, refl), loaded-HasSettings to ws a.1)
