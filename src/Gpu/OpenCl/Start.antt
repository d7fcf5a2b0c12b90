-- ===== src/Gpu/OpenCl/Start.antt =====
-- OpenClDevice::Init, src/gpu/opencl/opencl_device.cc.
use loadmaster.Prelude.{
  ℕ, zero, suc, ◌*◌, min, Bool, true, false, Option, none, some, List, get_elem?,
}
use loadmaster.Prelude.Int.{ℤ, pos, negsuc}
use loadmaster.Gpu.Driver.{Entry, is_some, fails, succeeds, with_gpu, answer, logged}
use loadmaster.Gpu.OpenCl.{ClApi, Found, collect_gpu_devices}
use loadmaster.Gpu.OpenCl.Device.{
  ClCall, cl_get_device_name, cl_get_platform_name, cl_create_context, cl_create_command_queue,
  cl_create_program_with_source, cl_build_program, cl_get_build_log_size, cl_get_build_log,
  cl_create_kernel, cl_get_work_group_size, cl_set_kernel_arg_buffer, cl_create_buffer,
  cl_enqueue_fill_buffer, cl_finish, OpenClDevice, ClSession, ClOutcome, destroy,
}

-- The device at an index; a negative one is out of range.
abbrev pub found_at : List Found → ℤ → Option Found
found_at pairs (pos i) = get_elem? pairs i
found_at pairs (negsuc i) = none

-- On what CL_KERNEL_WORK_GROUP_SIZE reads.
abbrev pub limit_group : Option ℕ → OpenClDevice → OpenClDevice
limit_group none g = g
limit_group (some zero) g = g
limit_group (some (suc n)) g = record g { local_size = min g.local_size (suc n) }

module _ (driver : List (Entry ClCall (Option ℕ)) → ClCall → Option ℕ) where
  -- The stages of `Init`, each on the answer to the call before it, from the last to the first.
  -- Whether the device could be touched is noted, and no failure.
  abbrev pub touched : ℕ → Bool → ClSession → ClOutcome
  touched q false s = succeeds (with_gpu (record s.gpu { queue_created = false }) s)
  touched q true s =
      let m = cl_finish q in
      succeeds (
        with_gpu (record s.gpu { queue_created = is_some (answer driver m s) }) (logged driver m s))

  abbrev pub touch : ℕ → ℕ → ClSession → ClOutcome
  touch q b s =
      let m = cl_enqueue_fill_buffer q b s.gpu.out_bytes in
      touched q (is_some (answer driver m s)) (logged driver m s)

  abbrev pub init_bound : ℕ → ℕ → ℕ → Bool → ClSession → ClOutcome
  init_bound q k b false s = fails (destroy driver s)
  init_bound q k b true s =
      let m = cl_get_work_group_size k in
      touch q b (with_gpu (limit_group (answer driver m s) s.gpu) (logged driver m s))

  abbrev pub init_scratch : ℕ → ℕ → Option ℕ → ClSession → ClOutcome
  init_scratch q k none s = fails (destroy driver s)
  init_scratch q k (some b) s =
      let t = with_gpu (record s.gpu { out_buf = some b }) s in
      let m = cl_set_kernel_arg_buffer k 0 (some b) in
      init_bound q k b (is_some (answer driver m t)) (logged driver m t)

  abbrev pub init_kernel : ℕ → ℕ → Option ℕ → ClSession → ClOutcome
  init_kernel c q none s = fails (destroy driver s)
  init_kernel c q (some k) s =
      let out_bytes = 1024 * 256 * 4 in
      let t = with_gpu (record s.gpu { kernel = some k; out_bytes = out_bytes }) s in
      let m = cl_create_buffer c out_bytes in
      init_scratch q k (answer driver m t) (logged driver m t)

  -- The text of the build log, on its size.
  abbrev pub read_text : ℕ → Option ℕ → ClSession → ClSession
  read_text p none s = s
  read_text p (some zero) s = s
  read_text p (some (suc zero)) s = s
  read_text p (some (suc (suc n))) s = logged driver (cl_get_build_log p) s

  abbrev pub read_build_log : ℕ → ClSession → ClSession
  read_build_log p s =
      let m = cl_get_build_log_size p in read_text p (answer driver m s) (logged driver m s)

  abbrev pub init_built : ℕ → ℕ → ℕ → Bool → ClSession → ClOutcome
  init_built c q p false s = fails (destroy driver (read_build_log p s))
  init_built c q p true s =
      let m = cl_create_kernel p in init_kernel c q (answer driver m s) (logged driver m s)

  abbrev pub init_program : ℕ → ℕ → Option ℕ → ClSession → ClOutcome
  init_program c q none s = fails (destroy driver s)
  init_program c q (some p) s =
      let t = with_gpu (record s.gpu { program = some p }) s in
      let m = cl_build_program p in
      init_built c q p (is_some (answer driver m t)) (logged driver m t)

  abbrev pub init_queue : ℕ → Option ℕ → ClSession → ClOutcome
  init_queue c none s = fails (destroy driver s)
  init_queue c (some q) s =
      let t = with_gpu (record s.gpu { queue = some q }) s in
      let m = cl_create_program_with_source c in
      init_program c q (answer driver m t) (logged driver m t)

  abbrev pub init_context : Option ℕ → ClSession → ClOutcome
  init_context none s = fails s
  init_context (some c) s =
      let t = with_gpu (record s.gpu { context = some c }) s in
      let m = cl_create_command_queue c t.gpu.device in
      init_queue c (answer driver m t) (logged driver m t)

  abbrev pub init_pair : Option Found → ClSession → ClOutcome
  init_pair none s = fails s
  init_pair (some (p, d)) s =
      let t = with_gpu (record s.gpu { platform = p; device = d }) s in
      let u = logged driver (cl_get_platform_name p) (logged driver (cl_get_device_name d) t) in
      let m = cl_create_context d in init_context (answer driver m u) (logged driver m u)

  -- The library, which may be missing, answers the enumeration.
  unfoldable pub init : Option ClApi → ℤ → ClSession → ClOutcome
  init none device_index s = fails s
  init (some api) device_index s =
      init_pair (found_at (collect_gpu_devices (some api)) device_index)
        (with_gpu (record s.gpu { has_api = true }) s)
