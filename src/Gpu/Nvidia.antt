-- ===== src/Gpu/Nvidia.antt =====
-- NvidiaDevice, src/gpu/nvidia/nvidia_device.cc: Init, Destroy, AllocateMemory, ReleaseMemory and
-- RunKernel, as functions on the device and the log of its driver calls. A null pointer is `none`.
-- The name of the device, which is only printed, is left out.
pub mod Ownership
mod Tests
use loadmaster.Prelude.{
  ℕ, ◌*◌, max, Bool, true, false, ◌&&◌, Option, none, some, List, [], ◌∷◌, ◌++◌, ◌==◌,
  if◌then◌else◌,
}
use loadmaster.Gpu.Driver.{
  Entry, Effect, context, code, memory, acquired, released, used, is_some, Session, Outcome, fails,
  succeeds, with_gpu, answer, logged,
}
use loadmaster.Gpu.Sweep.{MemSweep, SweepArgs, cleared, clear, reset, next}

-- kGpuKernelGridSize * kGpuKernelBlockSize
abbrev pub kernel_threads : ℕ
kernel_threads = 1024 * 256

-- The functions of the CUDA driver that the backend calls, with the arguments that matter here.
pub data CudaCall : Type 0 where
  cu_device_get cu_device_get_name cu_ctx_create cu_ctx_set_current cu_ctx_destroy : ℕ → CudaCall
  cu_module_load_data : CudaCall
  cu_module_get_function : ℕ → CudaCall
  cu_module_unload cu_mem_alloc cu_mem_free : ℕ → CudaCall
  cu_memset : ℕ → ℕ → CudaCall
  cu_launch_kernel : Option ℕ → Option ℕ → Option ℕ → ℕ → SweepArgs → CudaCall
  cu_ctx_synchronize : CudaCall

-- What each call does with the driver's resources; one that fails hands out none.
abbrev pub cuda_effects : CudaCall → Option ℕ → List Effect
cuda_effects (cu_device_get i) a = []
cuda_effects (cu_device_get_name d) a = []
cuda_effects (cu_ctx_create d) a = acquired context a
cuda_effects (cu_ctx_set_current c) a = used context (some c)
cuda_effects (cu_ctx_destroy c) a = released context c
cuda_effects cu_module_load_data a = acquired code a
cuda_effects (cu_module_get_function m) a = used code (some m)
cuda_effects (cu_module_unload m) a = released code m
cuda_effects (cu_mem_alloc n) a = acquired memory a
cuda_effects (cu_mem_free p) a = released memory p
cuda_effects (cu_memset p n) a = used memory (some p)
cuda_effects (cu_launch_kernel f out mem loops args) a = used memory out ++ used memory mem
cuda_effects cu_ctx_synchronize a = []

pub record NvidiaDevice : Type 0 where
  pub has_api : Bool
  pub device : ℕ
  pub context : Option ℕ
  pub code_module : Option ℕ
  pub busy_func : Option ℕ
  pub out_ptr : Option ℕ
  pub out_bytes : ℕ
  pub mem_load_ptr : Option ℕ
  pub mem_load_bytes : ℕ
  pub sweep : MemSweep

abbrev pub new_device : NvidiaDevice
new_device = record {
  has_api = false;
  device = 0;
  context = none;
  code_module = none;
  busy_func = none;
  out_ptr = none;
  out_bytes = 0;
  mem_load_ptr = none;
  mem_load_bytes = 0;
  sweep = cleared;
}

abbrev pub CudaSession : Type 0
CudaSession = Session CudaCall (Option ℕ) NvidiaDevice

abbrev pub CudaOutcome : Type 0
CudaOutcome = Outcome CudaCall (Option ℕ) NvidiaDevice

module _ (driver : List (Entry CudaCall (Option ℕ)) → CudaCall → Option ℕ) where
  abbrev pub no_block : NvidiaDevice → NvidiaDevice
  no_block g = record g { mem_load_ptr = none; mem_load_bytes = 0; sweep = clear g.sweep }

  -- The parts of `Destroy`, each on the pointer that it tests.
  abbrev pub select_context : Option ℕ → CudaSession → CudaSession
  select_context none s = s
  select_context (some c) s = logged driver (cu_ctx_set_current c) s

  abbrev pub free_block : Option ℕ → CudaSession → CudaSession
  free_block none s = s
  free_block (some p) s = with_gpu (no_block s.gpu) (logged driver (cu_mem_free p) s)

  abbrev pub free_out : Option ℕ → CudaSession → CudaSession
  free_out none s = s
  free_out (some p) s =
      with_gpu (record s.gpu { out_ptr = none; out_bytes = 0 }) (logged driver (cu_mem_free p) s)

  abbrev pub unload_module : Option ℕ → CudaSession → CudaSession
  unload_module none s = s
  unload_module (some m) s =
      with_gpu (record s.gpu { code_module = none }) (logged driver (cu_module_unload m) s)

  abbrev pub destroy_context : Option ℕ → CudaSession → CudaSession
  destroy_context none s = s
  destroy_context (some c) s =
      with_gpu (record s.gpu { context = none }) (logged driver (cu_ctx_destroy c) s)

  abbrev pub destroy_all : CudaSession → CudaSession
  destroy_all s =
      let a = select_context s.gpu.context s in
      let b = free_block a.gpu.mem_load_ptr a in
      let c = free_out b.gpu.out_ptr b in
      let d = unload_module c.gpu.code_module c in destroy_context d.gpu.context d

  -- On `api_ == nullptr`.
  abbrev pub destroy_on : Bool → CudaSession → CudaSession
  destroy_on false s = s
  destroy_on true s = destroy_all s

  unfoldable pub destroy : CudaSession → CudaSession
  destroy s = destroy_on s.gpu.has_api s

  -- The stages of `Init`, each on the answer to the call before it.
  abbrev pub init_scratch : Option ℕ → CudaSession → CudaOutcome
  init_scratch none s = fails (destroy s)
  init_scratch (some p) s =
      succeeds (
        logged driver (cu_memset p s.gpu.out_bytes)
          (with_gpu (record s.gpu { out_ptr = some p }) s))

  abbrev pub init_function : Option ℕ → CudaSession → CudaOutcome
  init_function none s = fails (destroy s)
  init_function (some f) s =
      let g = record s.gpu { busy_func = some f; out_bytes = kernel_threads * 4 } in
      let t = with_gpu g s in
      init_scratch (answer driver (cu_mem_alloc g.out_bytes) t)
        (logged driver (cu_mem_alloc g.out_bytes) t)

  abbrev pub init_module : Option ℕ → CudaSession → CudaOutcome
  init_module none s = fails (destroy s)
  init_module (some m) s =
      let t = with_gpu (record s.gpu { code_module = some m }) s in
      init_function (answer driver (cu_module_get_function m) t)
        (logged driver (cu_module_get_function m) t)

  abbrev pub init_context : Option ℕ → CudaSession → CudaOutcome
  init_context none s = fails s
  init_context (some c) s =
      let t = with_gpu (record s.gpu { context = some c }) s in
      init_module (answer driver cu_module_load_data t) (logged driver cu_module_load_data t)

  abbrev pub init_device : Option ℕ → CudaSession → CudaOutcome
  init_device none s = fails s
  init_device (some d) s =
      let t = logged driver (cu_device_get_name d) (with_gpu (record s.gpu { device = d }) s) in
      init_context (answer driver (cu_ctx_create d) t) (logged driver (cu_ctx_create d) t)

  -- Whether the driver's library can be loaded is a parameter.
  unfoldable pub init : Bool → ℕ → CudaSession → CudaOutcome
  init false device_index s = fails s
  init true device_index s =
      let t = with_gpu (record s.gpu { has_api = true }) s in
      init_device (answer driver (cu_device_get device_index) t)
        (logged driver (cu_device_get device_index) t)

  -- MakeCurrent: the session after it, and whether the context is current.
  abbrev pub select : Option ℕ → CudaSession → CudaOutcome
  select none s = fails s
  select (some c) s = record {
    session = logged driver (cu_ctx_set_current c) s;
    ok = is_some (answer driver (cu_ctx_set_current c) s);
  }

  abbrev pub make_current : CudaSession → CudaOutcome
  make_current s = if s.gpu.has_api then select s.gpu.context s else fails s

  -- The end of AllocateMemory, on the answer to cuCtxSynchronize.
  abbrev pub commit_block : Option ℕ → ℕ → ℕ → CudaSession → CudaOutcome
  commit_block none p bytes s =
      fails (with_gpu (record s.gpu { mem_load_ptr = none }) (logged driver (cu_mem_free p) s))
  commit_block (some a) p bytes s =
      succeeds (
        with_gpu (record s.gpu { mem_load_bytes = bytes; sweep = reset s.gpu.sweep (bytes ∷ []) })
          s)

  abbrev pub take_block : Option ℕ → ℕ → CudaSession → CudaOutcome
  take_block none bytes s = fails (with_gpu (record s.gpu { mem_load_ptr = none }) s)
  take_block (some p) bytes s =
      let t =
        logged driver (cu_memset p bytes) (with_gpu (record s.gpu { mem_load_ptr = some p }) s) in
      commit_block (answer driver cu_ctx_synchronize t) p bytes (logged driver cu_ctx_synchronize t)

  abbrev pub allocate_on : Bool → ℕ → CudaSession → CudaOutcome
  allocate_on false bytes s = fails s
  allocate_on true bytes s =
      let t = free_block s.gpu.mem_load_ptr s in
      take_block (answer driver (cu_mem_alloc bytes) t) bytes (logged driver (cu_mem_alloc bytes) t)

  unfoldable pub allocate_memory : ℕ → CudaSession → CudaOutcome
  allocate_memory bytes s =
      let current = make_current s in allocate_on current.ok bytes current.session

  abbrev pub free_current : Bool → ℕ → CudaSession → CudaSession
  free_current false p s = s
  free_current true p s = logged driver (cu_mem_free p) s

  abbrev pub release_on : Option ℕ → CudaSession → CudaSession
  release_on none s = s
  release_on (some p) s =
      let current = make_current s in
      let t = free_current current.ok p current.session in with_gpu (no_block t.gpu) t

  -- On `api_ == nullptr`.
  abbrev pub release_with : Bool → CudaSession → CudaSession
  release_with false s = s
  release_with true s = release_on s.gpu.mem_load_ptr s

  unfoldable pub release_memory : CudaSession → CudaSession
  release_memory s = release_with s.gpu.has_api s

  -- On the answer to cuLaunchKernel.
  abbrev pub synchronize : Option ℕ → CudaSession → CudaOutcome
  synchronize none s = fails s
  synchronize (some a) s = record {
    session = logged driver cu_ctx_synchronize s;
    ok = is_some (answer driver cu_ctx_synchronize s);
  }

  -- The launch: `mem` is the block if there is traffic, and the scratch buffer else.
  abbrev pub launch_on : Bool → Option ℕ → ℕ → ℕ → CudaSession → CudaOutcome
  launch_on false f loop_count traffic s = fails s
  launch_on true f loop_count traffic s =
      let loops = max loop_count 1 in
      let n = next s.gpu.sweep loops traffic kernel_threads in
      let t = with_gpu (record s.gpu { sweep = n.sweep }) s in
      let mem = if n.args.words == 0 then s.gpu.out_ptr else s.gpu.mem_load_ptr in
      let c = cu_launch_kernel f s.gpu.out_ptr mem loops n.args in
      synchronize (answer driver c t) (logged driver c t)

  -- On the tests of `api_` and `busy_func_`.
  abbrev pub run_with : Bool → ℕ → ℕ → CudaSession → CudaOutcome
  run_with false loop_count traffic s = fails s
  run_with true loop_count traffic s =
      let current = make_current s in
      launch_on current.ok s.gpu.busy_func loop_count traffic current.session

  unfoldable pub run_kernel : ℕ → ℕ → CudaSession → CudaOutcome
  run_kernel loop_count traffic s =
      run_with (s.gpu.has_api && is_some s.gpu.busy_func) loop_count traffic s
