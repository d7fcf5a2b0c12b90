-- ===== src/Gpu/Intel/Launch.antt =====
-- IntelDevice::RunKernel, src/gpu/intel/intel_device.cc.
use loadmaster.Prelude.{
  ℕ, ◌*◌, max, Bool, true, false, Option, none, some, List, [], ◌∷◌, ◌==◌, if◌then◌else◌, get_elem?,
}
use loadmaster.Gpu.Driver.{Entry, fails, with_gpu}
use loadmaster.Gpu.Sweep.{next}
use loadmaster.Gpu.Intel.{
  ZeCall, ze_kernel_set_argument_value, ze_kernel_set_argument_pointer, ze_command_list_reset,
  ze_command_list_append_launch_kernel, ze_command_list_close,
  ze_command_queue_execute_command_lists, ze_command_queue_synchronize, ZeAnswer, ZeSession,
  ZeOutcome, attempt_all,
}

-- kGpuKernelGridSize * kGpuKernelBlockSize
abbrev pub kernel_threads : ℕ
kernel_threads = 1024 * 256

-- The calls of a launch, in order; `mem` is what argument 2 is set to.
abbrev pub launch_calls : ℕ → ℕ → ℕ → Option ℕ → List ZeCall
launch_calls k l q mem =
    ze_kernel_set_argument_value k 1
    ∷ ze_kernel_set_argument_pointer k 2 mem
    ∷ ze_kernel_set_argument_value k 3
    ∷ ze_kernel_set_argument_value k 4
    ∷ ze_kernel_set_argument_value k 5
    ∷ ze_kernel_set_argument_value k 6
    ∷ ze_command_list_reset l
    ∷ ze_command_list_append_launch_kernel l k
    ∷ ze_command_list_close l
    ∷ ze_command_queue_execute_command_lists q l
    ∷ ze_command_queue_synchronize q
    ∷ []

module _ (driver : List (Entry ZeCall ZeAnswer) → ZeCall → ZeAnswer) where
  -- On `kernel_`, `cmd_list_` and `queue_`. The block's segment is read only if there is traffic.
  abbrev pub launch_on : Option ℕ → Option ℕ → Option ℕ → ℕ → ℕ → ZeSession → ZeOutcome
  launch_on none l q loop_count traffic s = fails s
  launch_on (some k) none q loop_count traffic s = fails s
  launch_on (some k) (some l) none loop_count traffic s = fails s
  launch_on (some k) (some l) (some q) loop_count traffic s =
      let n = next s.gpu.sweep (max loop_count 1) traffic kernel_threads in
      let mem =
        if n.args.words == 0 then s.gpu.out_ptr else get_elem? s.gpu.mem_load_ptrs n.args.segment in
      attempt_all driver (launch_calls k l q mem) (with_gpu (record s.gpu { sweep = n.sweep }) s)

  abbrev pub launch_with : Bool → ℕ → ℕ → ZeSession → ZeOutcome
  launch_with false loop_count traffic s = fails s
  launch_with true loop_count traffic s =
      launch_on s.gpu.kernel s.gpu.cmd_list s.gpu.queue loop_count traffic s

  unfoldable pub run_kernel : ℕ → ℕ → ZeSession → ZeOutcome
  run_kernel loop_count traffic s = launch_with s.gpu.has_api loop_count traffic s
