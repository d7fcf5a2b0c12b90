-- ===== src/Gpu/Intel.antt =====
-- IntelDevice, src/gpu/intel/intel_device.cc: the device, Destroy, ReleaseMemory and
-- AllocateMemory. Init and RunKernel are in the child modules. A null pointer is `none`; the name
-- of the device, which is only printed, is left out.
pub mod Allocate
pub mod Start
pub mod Launch
pub mod Ownership
pub mod Chunking
mod Tests
use loadmaster.Prelude.{
  ℕ, zero, suc, ◌+◌, ◌-◌, min, Bool, true, false, ◌&&◌, not, Option, none, some, List, [], ◌∷◌,
  ◌++◌, ltb, ◌==◌, if◌then◌else◌,
}
use loadmaster.Gpu.Driver.{
  Entry, Effect, Session, Outcome, context, code, kernel, memory, queue, command_list, build_log,
  acquired, released, used, is_some, fails, succeeds, with_gpu, answer, logged,
}
use loadmaster.Gpu.Sweep.{MemSweep, SweepArgs, cleared, clear, reset}

-- The Level Zero functions that the backend calls, with the arguments that matter here.
pub data ZeCall : Type 0 where
  ze_device_get_properties ze_context_create ze_context_destroy : ℕ → ZeCall
  ze_command_queue_create ze_command_queue_destroy : ℕ → ZeCall
  ze_command_list_create ze_command_list_destroy ze_command_list_reset : ℕ → ZeCall
  ze_command_list_close : ℕ → ZeCall
  ze_module_create ze_module_destroy : ℕ → ZeCall
  ze_module_build_log_get_string ze_module_build_log_destroy : ℕ → ZeCall
  ze_kernel_create ze_kernel_destroy ze_kernel_set_group_size : ℕ → ZeCall
  ze_kernel_set_argument_value : ℕ → ℕ → ZeCall
  ze_kernel_set_argument_pointer : ℕ → ℕ → Option ℕ → ZeCall
  ze_mem_alloc_device ze_mem_free : ℕ → ℕ → ZeCall
  ze_command_list_append_memory_fill : ℕ → ℕ → ℕ → ZeCall
  ze_command_list_append_launch_kernel : ℕ → ℕ → ZeCall
  ze_command_queue_execute_command_lists : ℕ → ℕ → ZeCall
  ze_command_queue_synchronize : ℕ → ZeCall

-- `handle` is what the call hands out or reads, `none` if it fails; `build_log` comes with a module.
pub record ZeAnswer : Type 0 where
  pub handle : Option ℕ
  pub build_log : Option ℕ

-- What each call does with the driver's resources; one that fails hands out none.
abbrev pub ze_effects : ZeCall → ZeAnswer → List Effect
ze_effects (ze_device_get_properties d) a = []
ze_effects (ze_context_create d) a = acquired context a.handle
ze_effects (ze_context_destroy c) a = released context c
ze_effects (ze_command_queue_create c) a = used context (some c) ++ acquired queue a.handle
ze_effects (ze_command_queue_destroy q) a = released queue q
ze_effects (ze_command_list_create c) a = used context (some c) ++ acquired command_list a.handle
ze_effects (ze_command_list_destroy l) a = released command_list l
ze_effects (ze_command_list_reset l) a = used command_list (some l)
ze_effects (ze_command_list_close l) a = used command_list (some l)
ze_effects (ze_module_create c) a =
    used context (some c) ++ (acquired code a.handle ++ acquired build_log a.build_log)
ze_effects (ze_module_destroy m) a = released code m
ze_effects (ze_module_build_log_get_string b) a = used build_log (some b)
ze_effects (ze_module_build_log_destroy b) a = released build_log b
ze_effects (ze_kernel_create m) a = used code (some m) ++ acquired kernel a.handle
ze_effects (ze_kernel_destroy k) a = released kernel k
ze_effects (ze_kernel_set_group_size k) a = used kernel (some k)
ze_effects (ze_kernel_set_argument_value k i) a = used kernel (some k)
ze_effects (ze_kernel_set_argument_pointer k i p) a = used kernel (some k) ++ used memory p
ze_effects (ze_mem_alloc_device c n) a = used context (some c) ++ acquired memory a.handle
ze_effects (ze_mem_free c p) a = used context (some c) ++ released memory p
ze_effects (ze_command_list_append_memory_fill l p n) a =
    used command_list (some l) ++ used memory (some p)
ze_effects (ze_command_list_append_launch_kernel l k) a =
    used command_list (some l) ++ used kernel (some k)
ze_effects (ze_command_queue_execute_command_lists q l) a =
    used queue (some q) ++ used command_list (some l)
ze_effects (ze_command_queue_synchronize q) a = used queue (some q)

pub record IntelDevice : Type 0 where
  pub has_api : Bool
  pub device : ℕ
  pub context : Option ℕ
  pub queue : Option ℕ
  pub cmd_list : Option ℕ
  pub code_module : Option ℕ
  pub kernel : Option ℕ
  pub out_ptr : Option ℕ
  pub out_bytes : ℕ
  pub mem_load_ptrs : List ℕ
  pub mem_load_bytes : ℕ
  pub max_alloc_bytes : ℕ
  pub sweep : MemSweep

abbrev pub new_device : IntelDevice
new_device = record {
  has_api = false;
  device = 0;
  context = none;
  queue = none;
  cmd_list = none;
  code_module = none;
  kernel = none;
  out_ptr = none;
  out_bytes = 0;
  mem_load_ptrs = [];
  mem_load_bytes = 0;
  max_alloc_bytes = 0;
  sweep = cleared;
}

abbrev pub ZeSession : Type 0
ZeSession = Session ZeCall ZeAnswer IntelDevice

abbrev pub ZeOutcome : Type 0
ZeOutcome = Outcome ZeCall ZeAnswer IntelDevice

-- The chunks allocated so far.
pub record Chunked : Type 0 where
  pub session : ZeSession
  pub chunk_bytes : List ℕ
  pub ok : Bool

module _ (driver : List (Entry ZeCall ZeAnswer) → ZeCall → ZeAnswer) where
  -- A call whose answer matters only as success or failure.
  abbrev pub attempt : ZeCall → ZeSession → ZeOutcome
  attempt c s = record { session = logged driver c s; ok = is_some (answer driver c s).handle }

  -- Calls in order, up to the first that fails.
  abbrev pub attempt_all : List ZeCall → ZeSession → ZeOutcome
  attempt_all [] s = succeeds s
  attempt_all (c ∷ cs) s =
      let rest = attempt_all cs (logged driver c s) in
      if is_some (answer driver c s).handle then rest else fails (logged driver c s)

  abbrev pub free_chunks : ℕ → List ℕ → ZeSession → ZeSession
  free_chunks c [] s = s
  free_chunks c (p ∷ ps) s = free_chunks c ps (logged driver (ze_mem_free c p) s)

  abbrev pub no_chunks : IntelDevice → IntelDevice
  no_chunks g = record g { mem_load_ptrs = []; mem_load_bytes = 0; sweep = clear g.sweep }

  -- ReleaseMemory, on `context_`.
  abbrev pub release_on : Option ℕ → ZeSession → ZeSession
  release_on none s = s
  release_on (some c) s =
      let t = free_chunks c s.gpu.mem_load_ptrs s in with_gpu (no_chunks s.gpu) t

  abbrev pub release_with : Bool → ZeSession → ZeSession
  release_with false s = s
  release_with true s = release_on s.gpu.context s

  unfoldable pub release_memory : ZeSession → ZeSession
  release_memory s = release_with s.gpu.has_api s

  -- The parts of `Destroy`, each on the pointers that it tests.
  abbrev pub free_out : Option ℕ → Option ℕ → ZeSession → ZeSession
  free_out none c s = s
  free_out (some p) none s = s
  free_out (some p) (some c) s =
      with_gpu (record s.gpu { out_ptr = none; out_bytes = 0 }) (logged driver (ze_mem_free c p) s)

  abbrev pub destroy_kernel : Option ℕ → ZeSession → ZeSession
  destroy_kernel none s = s
  destroy_kernel (some k) s =
      with_gpu (record s.gpu { kernel = none }) (logged driver (ze_kernel_destroy k) s)

  abbrev pub destroy_module : Option ℕ → ZeSession → ZeSession
  destroy_module none s = s
  destroy_module (some m) s =
      with_gpu (record s.gpu { code_module = none }) (logged driver (ze_module_destroy m) s)

  abbrev pub destroy_list : Option ℕ → ZeSession → ZeSession
  destroy_list none s = s
  destroy_list (some l) s =
      with_gpu (record s.gpu { cmd_list = none }) (logged driver (ze_command_list_destroy l) s)

  abbrev pub destroy_queue : Option ℕ → ZeSession → ZeSession
  destroy_queue none s = s
  destroy_queue (some q) s =
      with_gpu (record s.gpu { queue = none }) (logged driver (ze_command_queue_destroy q) s)

  abbrev pub destroy_context : Option ℕ → ZeSession → ZeSession
  destroy_context none s = s
  destroy_context (some c) s =
      with_gpu (record s.gpu { context = none }) (logged driver (ze_context_destroy c) s)

  -- `Destroy` behind ReleaseMemory.
  abbrev pub destroy_rest : ZeSession → ZeSession
  destroy_rest a =
      let b = free_out a.gpu.out_ptr a.gpu.context a in
      let c = destroy_kernel b.gpu.kernel b in
      let d = destroy_module c.gpu.code_module c in
      let e = destroy_list d.gpu.cmd_list d in
      let f = destroy_queue e.gpu.queue e in destroy_context f.gpu.context f

  -- On `api_ == nullptr`.
  abbrev pub destroy_on : Bool → ZeSession → ZeSession
  destroy_on false s = s
  destroy_on true s = destroy_rest (release_memory s)

  unfoldable pub destroy : ZeSession → ZeSession
  destroy s = destroy_on s.gpu.has_api s

  abbrev pub push_chunk : ℕ → ℕ → IntelDevice → IntelDevice
  push_chunk p chunk g = record g {
    mem_load_ptrs = g.mem_load_ptrs ++ p ∷ [];
    mem_load_bytes = g.mem_load_bytes + chunk;
  }

  -- A round of the allocation loop, on the answer to its call; `next_round` is what follows.
  abbrev pub chunk_step :
      (ℕ → List ℕ → ZeSession → Chunked) → Option ℕ → ℕ → ℕ → List ℕ → ZeSession → Chunked
  chunk_step next_round none chunk remaining chunks s = record {
    session = release_memory s;
    chunk_bytes = chunks;
    ok = false;
  }
  chunk_step next_round (some p) chunk remaining chunks s =
      next_round (remaining - chunk) (chunks ++ chunk ∷ []) (with_gpu (push_chunk p chunk s.gpu) s)

  -- The allocation loop in the context `c`. Each round takes a byte at least, so the bytes that
  -- remain are fuel enough.
  unfoldable pub chunk_loop : ℕ → ℕ → ℕ → ℕ → List ℕ → ZeSession → Chunked
  chunk_loop zero c max_chunk remaining chunks s = record {
    session = s;
    chunk_bytes = chunks;
    ok = true;
  }
  chunk_loop (suc fuel) c max_chunk zero chunks s = record {
    session = s;
    chunk_bytes = chunks;
    ok = true;
  }
  chunk_loop (suc fuel) c max_chunk (suc n) chunks s =
      let chunk = min (suc n) max_chunk in
      let m = ze_mem_alloc_device c chunk in
      chunk_step (chunk_loop fuel c max_chunk) (answer driver m s).handle chunk (suc n) chunks
        (logged driver m s)
