-- ===== src/Gpu/OpenCl/Launch.antt =====
-- OpenClDevice::RunKernel, src/gpu/opencl/opencl_device.cc.
use loadmaster.Prelude.{
  ℕ, ◌*◌, ◌%◌, ◌^◌, max, Bool, true, false, Option, none, some, List, [], ◌∷◌, ◌==◌, if◌then◌else◌,
  get_elem?,
}
use loadmaster.Gpu.Driver.{Entry, is_some, fails, succeeds, with_gpu, answer, logged}
use loadmaster.Gpu.Sweep.{SweepArgs, next}
use loadmaster.Gpu.OpenCl.Device.{
  ClCall, cl_set_kernel_arg, cl_set_kernel_arg_buffer, cl_enqueue_nd_range_kernel, cl_finish,
  ClSession, ClOutcome,
}

-- kGpuKernelGridSize work-groups
abbrev pub global_size : ℕ → ℕ
global_size local_size = 1024 * local_size

-- The calls of a launch, in order; `mem` is what argument 2 is set to.
abbrev pub launch_calls : ℕ → ℕ → ℕ → ℕ → Option ℕ → SweepArgs → List ClCall
launch_calls k q group loops mem args =
    cl_set_kernel_arg k 1 loops
    ∷ cl_set_kernel_arg_buffer k 2 mem
    ∷ cl_set_kernel_arg k 3 args.offset_words
    ∷ cl_set_kernel_arg k 4 args.words
    ∷ cl_set_kernel_arg k 5 args.base
    ∷ cl_set_kernel_arg k 6 args.stride
    ∷ cl_enqueue_nd_range_kernel q k (global_size group) group
    ∷ cl_finish q
    ∷ []

module _ (driver : List (Entry ClCall (Option ℕ)) → ClCall → Option ℕ) where
  -- Calls in order, up to the first that fails.
  abbrev pub attempt_all : List ClCall → ClSession → ClOutcome
  attempt_all [] s = succeeds s
  attempt_all (c ∷ cs) s =
      let rest = attempt_all cs (logged driver c s) in
      if is_some (answer driver c s) then rest else fails (logged driver c s)

  -- On `kernel_` and `queue_`. The block's segment is read only if there is traffic.
  abbrev pub launch_on : Option ℕ → Option ℕ → ℕ → ℕ → ClSession → ClOutcome
  launch_on none q loop_count traffic s = fails s
  launch_on (some k) none loop_count traffic s = fails s
  launch_on (some k) (some q) loop_count traffic s =
      let loops = max loop_count 1 in
      let threads = global_size s.gpu.local_size % 2 ^ 32 in
      let n = next s.gpu.sweep loops traffic threads in
      let mem =
        if n.args.words == 0 then s.gpu.out_buf else get_elem? s.gpu.mem_load_bufs n.args.segment in
      attempt_all (launch_calls k q s.gpu.local_size loops mem n.args)
        (with_gpu (record s.gpu { sweep = n.sweep }) s)

  abbrev pub launch_with : Bool → ℕ → ℕ → ClSession → ClOutcome
  launch_with false loop_count traffic s = fails s
  launch_with true loop_count traffic s = launch_on s.gpu.kernel s.gpu.queue loop_count traffic s

  unfoldable pub run_kernel : ℕ → ℕ → ClSession → ClOutcome
  run_kernel loop_count traffic s = launch_with s.gpu.has_api loop_count traffic s
