-- ===== src/Gpu/Contention/Kfd/Tests.antt =====
-- A sample of KfdSource over two processes, ours under another number.
use loadmaster.Prelude.{
  ℕ, ◌≡◌, refl, ◌||◌, true, none, some, List, [], ◌∷◌, map, Text, codes, text_eq, if◌then◌else◌,
}
use loadmaster.Gpu.Contention.Monitor.{unknown, busy, Observation, nothing_seen}
use loadmaster.Gpu.Contention.LinuxFs.{Files, numeric_names, strtoul}
use loadmaster.Prelude.Digits.{to_digits}
use loadmaster.Gpu.Contention.Kfd.{DeviceLocator, sample, observe}
use loadmaster.Gpu.Contention.Kfd.Users.{Results, sample-Results}

abbrev proc_files : Files
proc_files = record {
  read_file = λ path.
      if text_eq path (codes "/sys/class/kfd/kfd/proc/41/queues/0/gpuid")
        || text_eq path (codes "/sys/class/kfd/kfd/proc/42/queues/3/gpuid")
      then some (codes "7")
      else none;
  read_link = λ path. [];
  list_dir = λ path.
      if text_eq path (codes "/sys/class/kfd/kfd/proc")
      then codes "42" ∷ codes "self" ∷ codes "41" ∷ []
      else if text_eq path (codes "/sys/class/kfd/kfd/proc/41/queues")
      then codes "0" ∷ []
      else codes "3" ∷ [];
}

abbrev ids : List (Text × List ℕ)
ids = (codes "0000:03:00.0", 7 ∷ []) ∷ []

abbrev devices : List DeviceLocator
devices =
    record { pci_bus_id = codes "0000:03:00.1"; kfd_client = true }
    ∷ record { pci_bus_id = codes "0000:04:00.0"; kfd_client = true }
    ∷ []

abbrev nothing : List (Observation ℕ)
nothing = nothing_seen ∷ nothing_seen ∷ []

abbrev shares : List Text → List (Text × ℕ)
shares pcis = map (λ pci. (pci, 60)) pcis

sample-Results_example :
    Results proc_files [] 1 ids devices nothing (sample shares proc_files [] 1 ids devices nothing)
sample-Results_example = sample-Results shares proc_files [] 1 ids devices nothing

verdicts_seen :
    map (λ (o : Observation ℕ). o.verdict) (sample shares proc_files [] 1 ids devices nothing)
    ≡ busy ∷ unknown ∷ []
unfolding sample numeric_names to_digits strtoul observe
verdicts_seen = refl
