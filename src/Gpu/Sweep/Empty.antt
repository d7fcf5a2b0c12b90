-- ===== src/Gpu/Sweep/Empty.antt =====
-- A sweep without windows: no block is held, or only short ones.
use loadmaster.Prelude.{ℕ, ◌≡◌, [], arith}
use loadmaster.Gpu.Sweep.{MemSweep, next}

-- Nothing to walk over: the launch carries no traffic and leaves the sweep alone.
pub next_empty :
    (s : MemSweep) (loop_count traffic threads : ℕ)
    → s.windows ≡ []
    → ((next s loop_count traffic threads).sweep ≡ s)
      × ((next s loop_count traffic threads).args.words ≡ 0)
unfolding next
next_empty s loop_count traffic threads e = ground (arith, e)
