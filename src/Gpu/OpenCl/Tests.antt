-- ===== src/Gpu/OpenCl/Tests.antt =====
-- Runs of the enumeration of OpenCL devices, and of one device.
use loadmaster.Prelude.{
  ℕ, ◌≡◌, refl, Option, none, some, List, [], ◌∷◌, ◌==◌, if◌then◌else◌, length,
}
use loadmaster.Gpu.OpenCl.{ClApi, collect_gpu_devices, device_identity, push_device}
use loadmaster.Prelude.Int.{pos}
use loadmaster.Gpu.Driver.{Entry, Request, allocate, release, run, memory}
use loadmaster.Gpu.OpenCl.Device.{ClCall, cl_get_max_alloc, ClSession}
use loadmaster.Gpu.OpenCl.Start.{init}
use loadmaster.Gpu.OpenCl.Ownership.{held}
use loadmaster.Gpu.OpenCl.Ownership.Life.{new_session, lifetime, lifetime-releases_each}
use loadmaster.Gpu.Contention.Pci.{format_pci_bus_id}
use loadmaster.Gpu.Contention.Scan.Hex.{hex_text}
use loadmaster.Prelude.Digits.{to_digits}
use loadmaster.Gpu.OpenCl.Distinct.{Merged, all_listed, collect_gpu_devices-Merged}

abbrev address : ℕ → ℕ × ℕ × ℕ × ℕ
address n = if n == 8 then (0, 2, 0, 0) else (0, 1, 0, 0)

-- Two platforms: the first has the device 7, the second has 8 and, under the number 9, the device
-- of the first one.
abbrev ids : ℕ → Option (List ℕ)
ids p = some (if p == 1 then 7 ∷ [] else 8 ∷ 9 ∷ [])

abbrev two_platforms : ClApi
two_platforms = record {
  platform_count = some 2;
  platform_ids = λ n. some (1 ∷ 2 ∷ []);
  device_count = λ p. some p;
  device_ids = λ p n. ids p;
  pci_bus_info = λ d. some (address d);
  device_uuid = λ d. none;
}

collect-two_platforms : collect_gpu_devices (some two_platforms) ≡ (1, 7) ∷ (2, 8) ∷ []
unfolding device_identity push_device format_pci_bus_id hex_text to_digits
collect-two_platforms = refl

collect_gpu_devices-Merged_example :
    Merged two_platforms (all_listed two_platforms) (collect_gpu_devices (some two_platforms))
collect_gpu_devices-Merged_example = collect_gpu_devices-Merged two_platforms

-- A device at a library whose calls succeed and number what they hand out, and whose buffers have
-- at most 100 bytes.
abbrev number_of : ClCall → ℕ → ℕ
number_of (cl_get_max_alloc d) n = 100
number_of _ n = n

abbrev numbering : List (Entry ClCall (Option ℕ)) → ClCall → Option ℕ
numbering log c = some (number_of c (length log))

abbrev opened : ClSession
opened = (init numbering (some two_platforms) (pos 1) new_session).session

opened_device : opened.gpu.device ≡ 8
unfolding init device_identity push_device format_pci_bus_id hex_text to_digits
opened_device = refl

abbrev work : List Request
work = allocate 250 ∷ run 10 64 ∷ release ∷ allocate 120 ∷ []

lifetime-releases_each_example :
    held
      (record { kind = memory; handle = 9 })
      (lifetime numbering (some two_platforms) (pos 1) work)
    ≡ some 0
lifetime-releases_each_example =
    lifetime-releases_each numbering (some two_platforms) (pos 1) work
      (record { kind = memory; handle = 9 })
