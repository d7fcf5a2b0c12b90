-- ===== src/Gpu/Contention/Nvml/Tests.antt =====
-- A poll of NvmlSource over a device that another process uses and one that NVML does not know.
use loadmaster.Prelude.{
  ℕ, ◌+◌, ◌/◌, ◌≡◌, refl, none, some, List, [], ◌∷◌, Text, codes, text_eq, ltb, if◌then◌else◌,
}
use loadmaster.Gpu.Contention.Monitor.{busy, Observation, nothing_seen}
use loadmaster.Gpu.Contention.Nvml.{
  handle_found, not_nvidia, insufficient_size, listed, Nvml, NvmlSource, compute_pids,
  device_busy_of, observe_device, sample_devices,
}

abbrev share_of : ℕ → ℕ → ℕ
share_of total n = total / n

-- The first try is too small.
abbrev one_gpu : Nvml ℕ
one_gpu = record {
  lookup = λ pci. if text_eq pci (codes "0000:01:00.0") then handle_found 5 else not_nvidia;
  under_wddm = none;
  processes = λ device count. if ltb count 40 then insufficient_size 40 else listed (1 ∷ 77 ∷ []);
  sample_count = some (λ device last. some 2);
  samples = λ device last. some ((10, some 40) ∷ (20, some 60) ∷ []);
  utilization = none;
}

abbrev fresh : NvmlSource
fresh = record { handles = []; last_sample_us = [] }

abbrev addresses : List Text
addresses = codes "0000:01:00.0" ∷ codes "0000:02:00.0" ∷ []

abbrev unseen : List (Observation ℕ)
unseen = nothing_seen ∷ nothing_seen ∷ []

sample_seen :
    (sample_devices 0 (λ a b. a + b) share_of one_gpu 1 addresses fresh unseen).0
    ≡ record { verdict = busy; pid = 77; device_busy = some 50 } ∷ nothing_seen ∷ []
unfolding observe_device compute_pids device_busy_of
sample_seen = refl
