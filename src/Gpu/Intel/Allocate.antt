-- ===== src/Gpu/Intel/Allocate.antt =====
-- IntelDevice::AllocateMemory, src/gpu/intel/intel_device.cc.
use loadmaster.Prelude.{ℕ, Bool, true, false, Option, none, some, List, [], ◌∷◌, ltb, if◌then◌else◌}
use loadmaster.Gpu.Driver.{Entry, fails, succeeds, with_gpu, answer, logged}
use loadmaster.Gpu.Sweep.{reset}
use loadmaster.Gpu.Intel.{
  ZeCall, ze_command_list_create, ze_command_list_destroy, ze_command_list_close,
  ze_command_list_append_memory_fill, ze_command_queue_execute_command_lists,
  ze_command_queue_synchronize, ZeAnswer, ZeSession, ZeOutcome, attempt, attempt_all,
  release_memory, chunk_loop,
}

-- The queue is never null where it is used; a null one would be passed on as 0.
abbrev pub handle_or_null : Option ℕ → ℕ
handle_or_null none = 0
handle_or_null (some h) = h

-- One fill for each chunk, with its size.
abbrev pub fill_calls : ℕ → List ℕ → List ℕ → List ZeCall
fill_calls tmp [] chunks = []
fill_calls tmp (p ∷ ps) [] = []
fill_calls tmp (p ∷ ps) (n ∷ ns) = ze_command_list_append_memory_fill tmp p n ∷ fill_calls tmp ps ns

-- Running the transient list, and waiting for it.
abbrev pub run_calls : ℕ → ℕ → List ZeCall
run_calls q tmp = ze_command_queue_execute_command_lists q tmp ∷ ze_command_queue_synchronize q ∷ []

module _ (driver : List (Entry ZeCall ZeAnswer) → ZeCall → ZeAnswer) where
  -- Running the transient list, on whether it could be closed.
  abbrev pub run_list : Bool → ℕ → ℕ → ZeSession → ZeSession
  run_list false tmp q s = s
  run_list true tmp q s = (attempt_all driver (run_calls q tmp) s).session

  -- Closing it, on whether every fill could be appended.
  abbrev pub close_list : Bool → ℕ → ℕ → ZeSession → ZeSession
  close_list false tmp q s = s
  close_list true tmp q s =
      let closed = attempt driver (ze_command_list_close tmp) s in
      run_list closed.ok tmp q closed.session

  abbrev pub run_fill : ℕ → ℕ → List ZeCall → ZeSession → ZeSession
  run_fill tmp q fills s =
      let filled = attempt_all driver fills s in close_list filled.ok tmp q filled.session

  -- The commit, on the transient command list.
  abbrev pub commit : Option ℕ → List ℕ → ZeSession → ZeSession
  commit none chunks s = s
  commit (some tmp) chunks s =
      logged driver (ze_command_list_destroy tmp)
        (run_fill tmp (handle_or_null s.gpu.queue) (fill_calls tmp s.gpu.mem_load_ptrs chunks) s)

  -- The rest of AllocateMemory, on the result of the allocation loop.
  abbrev pub commit_chunks : Bool → ℕ → List ℕ → ZeSession → ZeOutcome
  commit_chunks false c chunks s = fails s
  commit_chunks true c chunks s =
      let m = ze_command_list_create c in
      let t = commit (answer driver m s).handle chunks (logged driver m s) in
      succeeds (with_gpu (record t.gpu { sweep = reset t.gpu.sweep chunks }) t)

  abbrev pub max_chunk_of : ℕ → ℕ → ℕ
  max_chunk_of max_alloc bytes = if ltb 0 max_alloc then max_alloc else bytes

  abbrev pub allocate_on : Option ℕ → ℕ → ZeSession → ZeOutcome
  allocate_on none bytes s = fails s
  allocate_on (some c) bytes s =
      let t = release_memory driver s in
      let l = chunk_loop driver bytes c (max_chunk_of t.gpu.max_alloc_bytes bytes) bytes [] t in
      commit_chunks l.ok c l.chunk_bytes l.session

  abbrev pub allocate_with : Bool → ℕ → ZeSession → ZeOutcome
  allocate_with false bytes s = fails s
  allocate_with true bytes s = allocate_on s.gpu.context bytes s

  unfoldable pub allocate_memory : ℕ → ZeSession → ZeOutcome
  allocate_memory bytes s = allocate_with s.gpu.has_api bytes s
