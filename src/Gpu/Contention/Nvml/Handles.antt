-- ===== src/Gpu/Contention/Nvml/Handles.antt =====
-- What NvmlSource says of the devices of a poll, in terms of what the library answers.
use loadmaster.Prelude.{ℕ, ◌≡◌, false, Option, none, some, List, [], ◌∷◌, Text}
use loadmaster.Gpu.Contention.Monitor.{Observation}
use loadmaster.Gpu.Contention.LinuxFs.{is_empty}
use loadmaster.Gpu.Contention.Nvml.{Nvml, find_handle, compute_pids, settle}
use loadmaster.Gpu.Contention.Nvml.Counting.{Counts}

module _ {Share : Type 0} (o : Observation Share) where
  -- A device, on the handle that is known of it in the end, and on the pids that are listed for it.
  abbrev pub OnPids : ℕ → Option (List ℕ) → Observation Share → Type 0
  OnPids self_pid none r = r ≡ o
  OnPids self_pid (some pids) r = Counts self_pid pids r

module _ {Share : Type 0} (zero_share : Share) (add : Share → Share → Share)
    (divide : Share → ℕ → Share) (api : Nvml Share) (self_pid : ℕ) where
  abbrev pub OnHandle : Option (Option ℕ) → Observation Share → Observation Share → Type 0
  OnHandle none o r = r ≡ o
  OnHandle (some none) o r = r ≡ o
  OnHandle (some (some device)) o r =
      OnPids o self_pid (compute_pids zero_share add divide api device) r

  -- What is known of an address during a poll: what is remembered, or what the library answers now.
  abbrev pub known_or : Option (Option ℕ) → Text → Option (Option ℕ)
  known_or none pci = settle zero_share add divide api (api.lookup pci)
  known_or (some handle) pci = some handle

  abbrev pub handle_now : List (Text × Option ℕ) → Text → Option (Option ℕ)
  handle_now handles pci = known_or (find_handle pci handles) pci

  abbrev pub Results :
      List (Text × Option ℕ)
      → List Text
      → List (Observation Share)
      → List (Observation Share)
      → Type 0
  Results handles [] os rs = Unit
  Results handles (pci ∷ pcis) [] rs = Unit
  Results handles (pci ∷ pcis) (o ∷ os) [] = ⊥
  Results handles (pci ∷ pcis) (o ∷ os) (r ∷ rs) =
      (is_empty pci ≡ false → OnHandle (handle_now handles pci) o r) × Results handles pcis os rs

  abbrev Same : List (Text × Option ℕ) → List (Text × Option ℕ) → Type 0
  Same handles others = (pci : Text) → handle_now others pci ≡ handle_now handles pci
