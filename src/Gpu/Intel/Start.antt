-- ===== src/Gpu/Intel/Start.antt =====
-- The start of an Intel device, src/gpu/intel/intel_device.cc: CollectGpuDevices and Init.
use loadmaster.Prelude.{
  ℕ, ◌*◌, Bool, true, false, Option, none, some, List, [], ◌∷◌, ◌++◌, get_elem?,
}
use loadmaster.Prelude.Int.{ℤ, pos, negsuc}
use loadmaster.Gpu.Driver.{Entry, is_some, fails, succeeds, with_gpu, answer, logged}
use loadmaster.Gpu.Intel.{
  ZeCall, ze_device_get_properties, ze_context_create, ze_command_queue_create,
  ze_command_list_create, ze_module_create, ze_module_build_log_get_string,
  ze_module_build_log_destroy, ze_kernel_create, ze_kernel_set_group_size,
  ze_kernel_set_argument_pointer, ze_mem_alloc_device, ZeAnswer, ZeSession, ZeOutcome, IntelDevice,
  attempt, destroy,
}

-- A device that a driver lists, with what zeDeviceGetProperties says of its type: `none` if it fails.
pub record Listed : Type 0 where
  pub device : ℕ
  pub is_gpu : Option Bool

-- A driver, with the devices that zeDeviceGet lists: `none` if it fails.
pub record ZeDriver : Type 0 where
  pub driver : ℕ
  pub devices : Option (List Listed)

pub record DriverDevicePair : Type 0 where
  pub driver : ℕ
  pub device : ℕ

-- On the answers for one device.
abbrev pub gpu_or_none : ℕ → ℕ → Option Bool → List DriverDevicePair
gpu_or_none d v none = []
gpu_or_none d v (some false) = []
gpu_or_none d v (some true) = record { driver = d; device = v } ∷ []

abbrev pub gpus_of : ℕ → List Listed → List DriverDevicePair
gpus_of d [] = []
gpus_of d (l ∷ more) = gpu_or_none d l.device l.is_gpu ++ gpus_of d more

abbrev pub driver_gpus : ℕ → Option (List Listed) → List DriverDevicePair
driver_gpus d none = []
driver_gpus d (some devices) = gpus_of d devices

-- The loop over the drivers; a driver or device that fails is skipped.
abbrev pub collect_drivers : List ZeDriver → List DriverDevicePair
collect_drivers [] = []
collect_drivers (z ∷ more) = driver_gpus z.driver z.devices ++ collect_drivers more

-- On what zeDriverGet lists: `none` if it fails.
abbrev pub collect_gpu_devices : Option (List ZeDriver) → List DriverDevicePair
collect_gpu_devices none = []
collect_gpu_devices (some drivers) = collect_drivers drivers

-- The pair at a device index; a negative one is out of range.
abbrev pub pair_at : List DriverDevicePair → ℤ → Option DriverDevicePair
pair_at pairs (pos i) = get_elem? pairs i
pair_at pairs (negsuc i) = none

module _ (driver : List (Entry ZeCall ZeAnswer) → ZeCall → ZeAnswer) where
  -- The stages of `Init`, each on the answer to the call before it, from the last to the first.
  abbrev pub finish : Bool → ZeSession → ZeOutcome
  finish false s = fails (destroy driver s)
  finish true s = succeeds s

  abbrev pub init_scratch : ℕ → Option ℕ → ZeSession → ZeOutcome
  init_scratch k none s = fails (destroy driver s)
  init_scratch k (some p) s =
      let t = with_gpu (record s.gpu { out_ptr = some p }) s in
      let bound = attempt driver (ze_kernel_set_argument_pointer k 0 t.gpu.out_ptr) t in
      finish bound.ok bound.session

  abbrev pub init_group : ℕ → ℕ → Bool → ZeSession → ZeOutcome
  init_group c k false s = fails (destroy driver s)
  init_group c k true s =
      let out_bytes = 1024 * 256 * 4 in
      let t = with_gpu (record s.gpu { out_bytes = out_bytes }) s in
      let m = ze_mem_alloc_device c out_bytes in
      init_scratch k (answer driver m t).handle (logged driver m t)

  abbrev pub init_kernel : ℕ → Option ℕ → ZeSession → ZeOutcome
  init_kernel c none s = fails (destroy driver s)
  init_kernel c (some k) s =
      let grouped =
        attempt driver (ze_kernel_set_group_size k)
          (with_gpu (record s.gpu { kernel = some k }) s) in
      init_group c k grouped.ok grouped.session

  -- The second read of a build log, on whether the first found a text.
  abbrev pub read_text : ℕ → Bool → ZeSession → ZeSession
  read_text b false s = s
  read_text b true s = logged driver (ze_module_build_log_get_string b) s

  abbrev pub read_build_log : Option ℕ → ZeSession → ZeSession
  read_build_log none s = s
  read_build_log (some b) s =
      let m = ze_module_build_log_get_string b in
      logged driver (ze_module_build_log_destroy b)
        (read_text b (is_some (answer driver m s).handle) (logged driver m s))

  abbrev pub drop_build_log : Option ℕ → ZeSession → ZeSession
  drop_build_log none s = s
  drop_build_log (some b) s = logged driver (ze_module_build_log_destroy b) s

  abbrev pub init_module : ℕ → Option ℕ → Option ℕ → ZeSession → ZeOutcome
  init_module c none log s = fails (destroy driver (read_build_log log s))
  init_module c (some m) log s =
      let t = drop_build_log log (with_gpu (record s.gpu { code_module = some m }) s) in
      let k = ze_kernel_create m in init_kernel c (answer driver k t).handle (logged driver k t)

  abbrev pub init_list : ℕ → Option ℕ → ZeSession → ZeOutcome
  init_list c none s = fails (destroy driver s)
  init_list c (some l) s =
      let t = with_gpu (record s.gpu { cmd_list = some l }) s in
      let m = ze_module_create c in
      init_module c (answer driver m t).handle (answer driver m t).build_log (logged driver m t)

  abbrev pub init_queue : ℕ → Option ℕ → ZeSession → ZeOutcome
  init_queue c none s = fails (destroy driver s)
  init_queue c (some q) s =
      let t = with_gpu (record s.gpu { queue = some q }) s in
      let m = ze_command_list_create c in init_list c (answer driver m t).handle (logged driver m t)

  abbrev pub init_context : Option ℕ → ZeSession → ZeOutcome
  init_context none s = fails s
  init_context (some c) s =
      let t = with_gpu (record s.gpu { context = some c }) s in
      let m = ze_command_queue_create c in
      init_queue c (answer driver m t).handle (logged driver m t)

  -- What zeDeviceGetProperties reads is the largest allocation; it is left at 0 if it fails.
  abbrev pub read_max_alloc : Option ℕ → IntelDevice → IntelDevice
  read_max_alloc none g = g
  read_max_alloc (some n) g = record g { max_alloc_bytes = n }

  abbrev pub init_pair : Option DriverDevicePair → ZeSession → ZeOutcome
  init_pair none s = fails s
  init_pair (some p) s =
      let t = with_gpu (record s.gpu { device = p.device }) s in
      let m = ze_device_get_properties p.device in
      let u = with_gpu (read_max_alloc (answer driver m t).handle t.gpu) (logged driver m t) in
      let c = ze_context_create p.driver in
      init_context (answer driver c u).handle (logged driver c u)

  -- `available` is kBusyKernelSpirvAvailable, `loaded` whether the loader's library could be loaded,
  -- `reported` what the drivers list.
  unfoldable pub init : Bool → Bool → Option (List ZeDriver) → ℤ → ZeSession → ZeOutcome
  init false loaded reported device_index s = fails s
  init true false reported device_index s = fails s
  init true true reported device_index s =
      init_pair (pair_at (collect_gpu_devices reported) device_index)
        (with_gpu (record s.gpu { has_api = true }) s)
