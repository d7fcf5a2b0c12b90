-- ===== src/Gpu/Factory.antt =====
-- The choice of devices, src/gpu/factory.cc, as built for Linux and Windows. What the drivers of
-- the vendors report is a parameter.
pub mod Selection
mod Tests
use loadmaster.Prelude.{
  ℕ, zero, suc, ◌+◌, Bool, true, false, ◌&&◌, ◌||◌, List, [], ◌∷◌, Option, none, some, ◌==◌,
  if◌then◌else◌,
}
use loadmaster.Prelude.Int.{ℤ, pos, negsuc, leb_ℤ}
use loadmaster.Core.Options.{
  Options, GpuVendor, auto, nvidia, amd, apple, intel, opencl, GpuAlgorithm,
}

-- A device of Level Zero: `none` if its properties cannot be read, else whether it is a GPU.
abbrev pub ZeDevice : Type 0
ZeDevice = Option Bool

-- What the backends report. For NVIDIA and AMD `none` is a driver that is missing or fails; for
-- Level Zero it is that of the list of drivers, and for each driver that of its devices.
pub record Backends : Type 0 where
  pub cuda_devices : Option ℤ
  pub hip_devices : Option ℤ
  pub spirv_available : Bool
  pub ze_drivers : Option (List (Option (List ZeDevice)))
  pub opencl_devices : ℤ

pub record Enumeration : Type 0 where
  pub total : ℕ
  pub devices : List (GpuVendor × ℕ)

abbrev pub nothing : Enumeration
nothing = record { total = 0; devices = [] }

abbrev pub is_listed : ℕ → List ℕ → Bool
is_listed i [] = false
is_listed i (x ∷ xs) = x == i || is_listed i xs

-- `DeviceWanted`: no selection means every device.
abbrev pub device_wanted : List ℕ → ℕ → Bool
device_wanted [] i = true
device_wanted (x ∷ xs) i = is_listed i (x ∷ xs)

-- The loop over the devices, from number `i` on, with `left` to go.
pub collect : GpuVendor → List ℕ → ℕ → ℕ → List (GpuVendor × ℕ)
collect vendor indices i zero = []
collect vendor indices i (suc left) =
    let rest = collect vendor indices (suc i) left in
    if device_wanted indices i then (vendor, i) ∷ rest else rest

-- `count <= 0` is no device.
abbrev pub enumerate_count : GpuVendor → List ℕ → ℤ → Enumeration
enumerate_count vendor indices (pos zero) = nothing
enumerate_count vendor indices (pos (suc n)) = record {
  total = suc n;
  devices = collect vendor indices 0 (suc n);
}
enumerate_count vendor indices (negsuc n) = nothing

abbrev pub enumerate_if : GpuVendor → List ℕ → Option ℤ → Enumeration
enumerate_if vendor indices none = nothing
enumerate_if vendor indices (some count) = enumerate_count vendor indices count

-- The GPUs of a driver of Level Zero, and of all drivers.
abbrev pub count_gpus : List ZeDevice → ℕ
count_gpus [] = 0
count_gpus (none ∷ ds) = count_gpus ds
count_gpus (some is_gpu ∷ ds) = if is_gpu then suc (count_gpus ds) else count_gpus ds

abbrev pub count_drivers : List (Option (List ZeDevice)) → ℕ
count_drivers [] = 0
count_drivers (none ∷ ds) = count_drivers ds
count_drivers (some devices ∷ ds) = count_gpus devices + count_drivers ds

abbrev pub ze_count : Backends → Option ℤ
ze_count b =
    if b.spirv_available
    then elim b.ze_drivers [ none ↦ none | some ds ↦ some (pos (count_drivers ds)) ]
    else none

-- One backend. Apple's is not in this build.
unfoldable pub enumerate : Backends → List ℕ → GpuVendor → Enumeration
unfolding collect
enumerate b indices auto = nothing
enumerate b indices nvidia = enumerate_if nvidia indices b.cuda_devices
enumerate b indices amd = enumerate_if amd indices b.hip_devices
enumerate b indices apple = nothing
enumerate b indices intel = enumerate_if intel indices (ze_count b)
enumerate b indices opencl = enumerate_count opencl indices b.opencl_devices

-- `kAuto`: the first backend that has any device, the last one if none has.
abbrev pub probe : Backends → List ℕ → GpuVendor → List GpuVendor → Enumeration
probe b indices vendor [] = enumerate b indices vendor
probe b indices vendor (next ∷ more) =
    let later = probe b indices next more in
    if (enumerate b indices vendor).total == 0 then later else enumerate b indices vendor

unfoldable pub find_devices : Backends → List ℕ → GpuVendor → Enumeration
unfolding enumerate
find_devices b indices auto = probe b indices nvidia (amd ∷ intel ∷ opencl ∷ [])
find_devices b indices nvidia = enumerate b indices nvidia
find_devices b indices amd = enumerate b indices amd
find_devices b indices apple = enumerate b indices apple
find_devices b indices intel = enumerate b indices intel
find_devices b indices opencl = enumerate b indices opencl

-- The manager that `-ga` names, with its devices.
abbrev pub make_manager :
    GpuAlgorithm → List (GpuVendor × ℕ) → Option (GpuAlgorithm × List (GpuVendor × ℕ))
make_manager algorithm [] = none
make_manager algorithm (d ∷ ds) = some (algorithm, d ∷ ds)

unfoldable pub create_resource_manager :
    Backends → Options → Option (GpuAlgorithm × List (GpuVendor × ℕ))
unfolding find_devices
create_resource_manager b o =
    if leb_ℤ o.gpu_load (pos 0) && leb_ℤ o.gpu_memory_bytes (pos 0)
    then none
    else make_manager o.gpu_algorithm (find_devices b o.gpu_indices o.gpu_vendor).devices
