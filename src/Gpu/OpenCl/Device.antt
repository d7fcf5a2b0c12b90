-- ===== src/Gpu/OpenCl/Device.antt =====
-- OpenClDevice, src/gpu/opencl/opencl_device.cc: the device, Destroy, ReleaseMemory and
-- AllocateMemory. A null pointer is `none`; what is only printed is left out. A call that hands out
-- an object gives `none` for a status other than CL_SUCCESS as for a null object.
use loadmaster.Prelude.{
  ℕ, zero, suc, ◌+◌, ◌-◌, min, Bool, true, false, Option, none, some, List, [], ◌∷◌, ◌++◌,
}
use loadmaster.Gpu.Driver.{
  Entry, Effect, Session, Outcome, context, kernel, program, memory, queue, acquired, released,
  used, fails, succeeds, with_gpu, answer, logged,
}
use loadmaster.Gpu.Sweep.{MemSweep, cleared, clear, reset}

-- The OpenCL functions that a device calls, with the arguments that matter here.
pub data ClCall : Type 0 where
  cl_get_device_name cl_get_platform_name cl_get_max_alloc : ℕ → ClCall
  cl_create_context cl_release_context : ℕ → ClCall
  cl_create_command_queue : ℕ → ℕ → ClCall
  cl_release_command_queue : ℕ → ClCall
  cl_create_program_with_source cl_release_program cl_build_program : ℕ → ClCall
  cl_get_build_log_size cl_get_build_log : ℕ → ClCall
  cl_create_kernel cl_release_kernel cl_get_work_group_size : ℕ → ClCall
  cl_set_kernel_arg : ℕ → ℕ → ℕ → ClCall
  cl_set_kernel_arg_buffer : ℕ → ℕ → Option ℕ → ClCall
  cl_create_buffer : ℕ → ℕ → ClCall
  cl_release_mem_object : ℕ → ClCall
  cl_enqueue_fill_buffer : ℕ → ℕ → ℕ → ClCall
  cl_enqueue_nd_range_kernel : ℕ → ℕ → ℕ → ℕ → ClCall
  cl_finish : ℕ → ClCall

-- What each call does with the library's objects; one that fails hands out none.
abbrev pub cl_effects : ClCall → Option ℕ → List Effect
cl_effects (cl_get_device_name d) a = []
cl_effects (cl_get_platform_name p) a = []
cl_effects (cl_get_max_alloc d) a = []
cl_effects (cl_create_context d) a = acquired context a
cl_effects (cl_release_context c) a = released context c
cl_effects (cl_create_command_queue c d) a = used context (some c) ++ acquired queue a
cl_effects (cl_release_command_queue q) a = released queue q
cl_effects (cl_create_program_with_source c) a = used context (some c) ++ acquired program a
cl_effects (cl_release_program p) a = released program p
cl_effects (cl_build_program p) a = used program (some p)
cl_effects (cl_get_build_log_size p) a = used program (some p)
cl_effects (cl_get_build_log p) a = used program (some p)
cl_effects (cl_create_kernel p) a = used program (some p) ++ acquired kernel a
cl_effects (cl_release_kernel k) a = released kernel k
cl_effects (cl_get_work_group_size k) a = used kernel (some k)
cl_effects (cl_set_kernel_arg k i v) a = used kernel (some k)
cl_effects (cl_set_kernel_arg_buffer k i m) a = used kernel (some k) ++ used memory m
cl_effects (cl_create_buffer c n) a = used context (some c) ++ acquired memory a
cl_effects (cl_release_mem_object m) a = released memory m
cl_effects (cl_enqueue_fill_buffer q m n) a = used queue (some q) ++ used memory (some m)
cl_effects (cl_enqueue_nd_range_kernel q k size group) a =
    used queue (some q) ++ used kernel (some k)
cl_effects (cl_finish q) a = used queue (some q)

pub record OpenClDevice : Type 0 where
  pub has_api : Bool
  pub platform : ℕ
  pub device : ℕ
  pub context : Option ℕ
  pub queue : Option ℕ
  pub program : Option ℕ
  pub kernel : Option ℕ
  pub out_buf : Option ℕ
  pub out_bytes : ℕ
  pub queue_created : Bool
  pub local_size : ℕ
  pub mem_load_bufs : List ℕ
  pub mem_load_bytes : ℕ
  pub sweep : MemSweep

abbrev pub new_device : OpenClDevice
new_device = record {
  has_api = false;
  platform = 0;
  device = 0;
  context = none;
  queue = none;
  program = none;
  kernel = none;
  out_buf = none;
  out_bytes = 0;
  queue_created = false;
  local_size = 256;
  mem_load_bufs = [];
  mem_load_bytes = 0;
  sweep = cleared;
}

abbrev pub ClSession : Type 0
ClSession = Session ClCall (Option ℕ) OpenClDevice

abbrev pub ClOutcome : Type 0
ClOutcome = Outcome ClCall (Option ℕ) OpenClDevice

-- The chunks allocated so far.
pub record Chunked : Type 0 where
  pub session : ClSession
  pub chunk_bytes : List ℕ
  pub ok : Bool

abbrev pub no_chunks : OpenClDevice → OpenClDevice
no_chunks g = record g { mem_load_bufs = []; mem_load_bytes = 0; sweep = clear g.sweep }

abbrev pub push_chunk : ℕ → ℕ → OpenClDevice → OpenClDevice
push_chunk p chunk g = record g {
  mem_load_bufs = g.mem_load_bufs ++ p ∷ [];
  mem_load_bytes = g.mem_load_bytes + chunk;
}

-- The largest chunk: all the bytes, if the device does not tell.
abbrev pub max_chunk_of : Option ℕ → ℕ → ℕ
max_chunk_of none bytes = bytes
max_chunk_of (some zero) bytes = bytes
max_chunk_of (some (suc n)) bytes = suc n

module _ (driver : List (Entry ClCall (Option ℕ)) → ClCall → Option ℕ) where
  abbrev pub release_bufs : List ℕ → ClSession → ClSession
  release_bufs [] s = s
  release_bufs (p ∷ ps) s = release_bufs ps (logged driver (cl_release_mem_object p) s)

  -- On `api_ == nullptr`.
  abbrev pub release_with : Bool → ClSession → ClSession
  release_with false s = s
  release_with true s = with_gpu (no_chunks s.gpu) (release_bufs s.gpu.mem_load_bufs s)

  unfoldable pub release_memory : ClSession → ClSession
  release_memory s = release_with s.gpu.has_api s

  -- The parts of `Destroy`, each on the pointer that it tests.
  abbrev pub release_out : Option ℕ → ClSession → ClSession
  release_out none s = s
  release_out (some p) s =
      with_gpu (record s.gpu { out_buf = none; out_bytes = 0 })
        (logged driver (cl_release_mem_object p) s)

  abbrev pub release_kernel : Option ℕ → ClSession → ClSession
  release_kernel none s = s
  release_kernel (some k) s =
      with_gpu (record s.gpu { kernel = none }) (logged driver (cl_release_kernel k) s)

  abbrev pub release_program : Option ℕ → ClSession → ClSession
  release_program none s = s
  release_program (some p) s =
      with_gpu (record s.gpu { program = none }) (logged driver (cl_release_program p) s)

  abbrev pub release_queue : Option ℕ → ClSession → ClSession
  release_queue none s = s
  release_queue (some q) s =
      with_gpu (record s.gpu { queue = none }) (logged driver (cl_release_command_queue q) s)

  abbrev pub release_context : Option ℕ → ClSession → ClSession
  release_context none s = s
  release_context (some c) s =
      with_gpu (record s.gpu { context = none }) (logged driver (cl_release_context c) s)

  -- `Destroy` behind ReleaseMemory.
  abbrev pub destroy_rest : ClSession → ClSession
  destroy_rest a =
      let b = release_out a.gpu.out_buf a in
      let c = release_kernel b.gpu.kernel b in
      let d = release_program c.gpu.program c in
      let e = release_queue d.gpu.queue d in release_context e.gpu.context e

  -- On `api_ == nullptr`.
  abbrev pub destroy_on : Bool → ClSession → ClSession
  destroy_on false s = s
  destroy_on true s = destroy_rest (release_memory s)

  unfoldable pub destroy : ClSession → ClSession
  destroy s = destroy_on s.gpu.has_api s

  -- A round of the allocation loop, on the answer to its call; `next_round` is what follows.
  abbrev pub chunk_step :
      (ℕ → List ℕ → ClSession → Chunked) → Option ℕ → ℕ → ℕ → ℕ → List ℕ → ClSession → Chunked
  chunk_step next_round none q chunk remaining chunks s = record {
    session = release_memory s;
    chunk_bytes = chunks;
    ok = false;
  }
  chunk_step next_round (some p) q chunk remaining chunks s =
      next_round (remaining - chunk) (chunks ++ chunk ∷ [])
        (logged driver (cl_enqueue_fill_buffer q p chunk) (with_gpu (push_chunk p chunk s.gpu) s))

  -- The allocation loop in the context `c` and the queue `q`. Each round takes a byte at least, so
  -- the bytes that remain are fuel enough.
  unfoldable pub chunk_loop : ℕ → ℕ → ℕ → ℕ → ℕ → List ℕ → ClSession → Chunked
  chunk_loop zero c q max_alloc remaining chunks s = record {
    session = s;
    chunk_bytes = chunks;
    ok = true;
  }
  chunk_loop (suc fuel) c q max_alloc zero chunks s = record {
    session = s;
    chunk_bytes = chunks;
    ok = true;
  }
  chunk_loop (suc fuel) c q max_alloc (suc n) chunks s =
      let chunk = min (suc n) max_alloc in
      let m = cl_create_buffer c chunk in
      chunk_step (chunk_loop fuel c q max_alloc) (answer driver m s) q chunk (suc n) chunks
        (logged driver m s)

  -- The rest of AllocateMemory, on the result of the allocation loop.
  abbrev pub commit_chunks : Bool → ℕ → List ℕ → ClSession → ClOutcome
  commit_chunks false q chunks s = fails s
  commit_chunks true q chunks s =
      succeeds (
        with_gpu (record s.gpu { sweep = reset s.gpu.sweep chunks })
          (logged driver (cl_finish q) s))

  -- On `context_` and `queue_`.
  abbrev pub allocate_on : Option ℕ → Option ℕ → ℕ → ClSession → ClOutcome
  allocate_on none q bytes s = fails s
  allocate_on (some c) none bytes s = fails s
  allocate_on (some c) (some q) bytes s =
      let t = release_memory s in
      let m = cl_get_max_alloc t.gpu.device in
      let l =
        chunk_loop bytes c q (max_chunk_of (answer driver m t) bytes) bytes []
          (logged driver m t) in
      commit_chunks l.ok q l.chunk_bytes l.session

  abbrev pub allocate_with : Bool → ℕ → ClSession → ClOutcome
  allocate_with false bytes s = fails s
  allocate_with true bytes s = allocate_on s.gpu.context s.gpu.queue bytes s

  unfoldable pub allocate_memory : ℕ → ClSession → ClOutcome
  allocate_memory bytes s = allocate_with s.gpu.has_api bytes s
