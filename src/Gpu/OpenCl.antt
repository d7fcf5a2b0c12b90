-- ===== src/Gpu/OpenCl.antt =====
-- The enumeration of OpenCL devices, src/gpu/opencl/opencl_device.cc: DeviceIdentity,
-- CollectGpuDevices and DeviceCount. What the OpenCL library answers is a record of functions, with
-- `none` for every status but CL_SUCCESS.
pub mod Distinct
pub mod Device
pub mod Start
pub mod Launch
pub mod Ownership
mod Tests
use loadmaster.Prelude.{
  ℕ, zero, suc, Bool, true, false, ◌||◌, Option, none, some, List, [], ◌∷◌, ◌++◌, Text, codes,
  text_eq, length,
}
use loadmaster.Gpu.Contention.Scan.Hex.{hex_text}
use loadmaster.Gpu.Contention.Pci.{format_pci_bus_id}

-- ClApi, as far as the enumeration calls it: clGetPlatformIDs and clGetDeviceIDs for the count and
-- for the list, and clGetDeviceInfo for the bus address and for the UUID.
pub record ClApi : Type 0 where
  pub platform_count : Option ℕ
  pub platform_ids : ℕ → Option (List ℕ)
  pub device_count : ℕ → Option ℕ
  pub device_ids : ℕ → ℕ → Option (List ℕ)
  pub pci_bus_info : ℕ → Option (ℕ × ℕ × ℕ × ℕ)
  pub device_uuid : ℕ → Option (List ℕ)

abbrev pub uuid_text : List ℕ → Text
uuid_text [] = []
uuid_text (b ∷ bytes) = hex_text 2 b ++ uuid_text bytes

abbrev pub uuid_identity : Option (List ℕ) → Text
uuid_identity none = []
uuid_identity (some uuid) = codes "uuid:" ++ uuid_text uuid

abbrev pub identity_on : Option (List ℕ) → Option (ℕ × ℕ × ℕ × ℕ) → Text
identity_on uuid none = uuid_identity uuid
identity_on uuid (some (domain, bus, device, function)) =
    codes "pci:" ++ format_pci_bus_id domain bus device function

unfoldable pub device_identity : ClApi → ℕ → Text
device_identity api device = identity_on (api.device_uuid device) (api.pci_bus_info device)

-- `id.empty()`, and `std::find` in `seen`.
abbrev pub is_empty : Text → Bool
is_empty [] = true
is_empty (c ∷ cs) = false

abbrev pub is_seen : Text → List Text → Bool
is_seen id [] = false
is_seen id (x ∷ xs) = text_eq x id || is_seen id xs

-- A platform with one of its devices.
abbrev pub Found : Type 0
Found = ℕ × ℕ

-- The local variables of the loops.
pub record Collected : Type 0 where
  pub seen : List Text
  pub out : List Found

-- On whether the identity is empty, and on whether it was seen.
abbrev pub push_on : Bool → Bool → Text → Found → Collected → Collected
push_on true known id x c = record c { out = c.out ++ x ∷ [] }
push_on false true id x c = c
push_on false false id x c = record { seen = c.seen ++ id ∷ []; out = c.out ++ x ∷ [] }

module _ (api : ClApi) where
  unfoldable pub push_device : Found → Collected → Collected
  push_device x c =
      let id = device_identity api x.1 in push_on (is_empty id) (is_seen id c.seen) id x c

  abbrev pub push_devices : ℕ → List ℕ → Collected → Collected
  push_devices p [] c = c
  push_devices p (d ∷ ds) c = push_devices p ds (push_device (p, d) c)

  abbrev pub push_ids : ℕ → Option (List ℕ) → Collected → Collected
  push_ids p none c = c
  push_ids p (some ds) c = push_devices p ds c

  -- On the count of the platform's devices.
  abbrev pub push_count : ℕ → Option ℕ → Collected → Collected
  push_count p none c = c
  push_count p (some zero) c = c
  push_count p (some (suc n)) c = push_ids p (api.device_ids p (suc n)) c

  abbrev pub push_platforms : List ℕ → Collected → Collected
  push_platforms [] c = c
  push_platforms (p ∷ ps) c = push_platforms ps (push_count p (api.device_count p) c)

  abbrev pub collect_ids : Option (List ℕ) → List Found
  collect_ids none = []
  collect_ids (some ps) = (push_platforms ps (record { seen = []; out = [] })).out

  abbrev pub collect_count : Option ℕ → List Found
  collect_count none = []
  collect_count (some zero) = []
  collect_count (some (suc n)) = collect_ids (api.platform_ids (suc n))

-- CollectGpuDevices; the library may be missing.
abbrev pub collect_gpu_devices : Option ClApi → List Found
collect_gpu_devices none = []
collect_gpu_devices (some api) = collect_count api api.platform_count

-- DeviceCount
abbrev pub device_count_of : Option ClApi → ℕ
device_count_of api = length (collect_gpu_devices api)
