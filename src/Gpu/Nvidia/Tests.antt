-- ===== src/Gpu/Nvidia/Tests.antt =====
-- A CUDA device at a driver whose calls succeed and number what they hand out.
use loadmaster.Prelude.{
  ℕ, ◌≡◌, refl, true, Option, none, some, List, [], ◌∷◌, length, ◌==◌, if◌then◌else◌,
}
use loadmaster.Gpu.Driver.{Request, allocate, release, run, Entry, memory, tally}
use loadmaster.Gpu.Nvidia.{
  CudaCall, cu_ctx_set_current, CudaSession, init, allocate_memory, release_memory, run_kernel,
}
use loadmaster.Gpu.Nvidia.Ownership.{held}
use loadmaster.Gpu.Nvidia.Ownership.Life.{
  lifetime, new_session, serve_all, dropped_over, lifetime-releases_all,
}

abbrev numbering : List (Entry CudaCall (Option ℕ)) → CudaCall → Option ℕ
numbering log c = some (length log)

abbrev work : List Request
work = allocate 4096 ∷ run 10 64 ∷ release ∷ allocate 8192 ∷ []

abbrev opened : CudaSession
opened = (init numbering true 0 new_session).session

block_held : (serve_all numbering work opened).gpu.mem_load_ptr ≡ some 17
unfolding init allocate_memory release_memory run_kernel
block_held = refl

-- A driver that cannot make a context current while the first block is released.
abbrev busy : List (Entry CudaCall (Option ℕ)) → CudaCall → Option ℕ
busy log (cu_ctx_set_current c) = if length log == 14 then none else some (length log)
busy log c = some (length log)

abbrev busy_opened : CudaSession
busy_opened = (init busy true 0 new_session).session

-- The first block is then never freed.
block_dropped : dropped_over busy work busy_opened (record { kind = memory; handle = 8 }) ≡ 1
unfolding init allocate_memory release_memory run_kernel tally
block_dropped = refl

lifetime-releases_all_example :
    held (record { kind = memory; handle = 8 }) (lifetime busy true 0 work)
    ≡ some (dropped_over busy work busy_opened (record { kind = memory; handle = 8 }))
lifetime-releases_all_example =
    lifetime-releases_all busy true 0 work (record { kind = memory; handle = 8 })
