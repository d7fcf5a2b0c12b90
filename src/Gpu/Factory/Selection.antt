-- ===== src/Gpu/Factory/Selection.antt =====
-- The devices that a run uses are those asked for, of one backend.
use loadmaster.Prelude.{ℕ, ◌<◌, ◌≡◌, ◌⊎◌, true, List, [], ◌∷◌, ◌++◌, All}
use loadmaster.Core.Options.{GpuVendor, auto, nvidia, amd, intel, opencl}
use loadmaster.Gpu.Factory.{Backends, Enumeration, device_wanted, enumerate}

abbrev pub Device : Type 0
Device = GpuVendor × ℕ

-- A device is among those of a list.
abbrev pub Has : Device → List Device → Type 0
Has d [] = ⊥
Has d (x ∷ xs) = (d ≡ x) ⊎ Has d xs

-- The devices of an enumeration are those of the backend that the user wants, all of them.
pub record Selects (vendor : GpuVendor) (indices : List ℕ) (e : Enumeration) : Type 0 where
  pub sound :
      All (λ d. (d.0 ≡ vendor) × (d.1 < e.total) × (device_wanted indices d.1 ≡ true)) e.devices
  pub complete : (j : ℕ) → j < e.total → device_wanted indices j ≡ true → Has (vendor, j) e.devices

-- The backend `v` of the order is the one to use: those before it have no device at all.
pub record IsFirst (b : Backends) (indices : List ℕ) (order : List GpuVendor) (v : GpuVendor)
    : Type 0 where
  pub before : List GpuVendor
  pub after : List GpuVendor
  pub split : order ≡ before ++ v ∷ after
  pub empty : All (λ u. (enumerate b indices u).total ≡ 0) before

-- Which backends a choice of the user stands for, in order.
abbrev pub order_of : GpuVendor → List GpuVendor
order_of auto = nvidia ∷ amd ∷ intel ∷ opencl ∷ []
order_of v = v ∷ []
