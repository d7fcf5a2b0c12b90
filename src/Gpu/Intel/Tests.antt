-- ===== src/Gpu/Intel/Tests.antt =====
-- A Level Zero device at a driver whose calls succeed and number what they hand out, and whose
-- allocations are at most 100 bytes.
use loadmaster.Prelude.{ℕ, ◌≡◌, refl, true, false, Option, none, some, List, [], ◌∷◌, length}
use loadmaster.Prelude.Int.{pos}
use loadmaster.Gpu.Driver.{Request, allocate, release, run, Entry, memory}
use loadmaster.Gpu.Intel.{
  ZeCall, ze_device_get_properties, ZeAnswer, ZeSession, chunk_loop, release_memory,
}
use loadmaster.Gpu.Intel.Allocate.{allocate_memory}
use loadmaster.Gpu.Intel.Start.{ZeDriver, init}
use loadmaster.Gpu.Intel.Ownership.{held}
use loadmaster.Gpu.Intel.Ownership.Life.{lifetime, new_session, lifetime-gives_all_back}

abbrev number_of : ZeCall → ℕ → ℕ
number_of (ze_device_get_properties d) n = 100
number_of _ n = n

abbrev numbering : List (Entry ZeCall ZeAnswer) → ZeCall → ZeAnswer
numbering log c = record { handle = some (number_of c (length log)); build_log = none }

-- Two drivers: the first fails to list its devices, the second has a CPU and a GPU.
abbrev reported : Option (List ZeDriver)
reported = some (
    record { driver = 1; devices = none }
    ∷ record {
      driver = 2;
      devices = some (
          record { device = 20; is_gpu = some false }
          ∷ record { device = 21; is_gpu = some true }
          ∷ []);
    }
    ∷ [])

abbrev opened : ZeSession
opened = (init numbering true true reported (pos 0) new_session).session

opened_device : opened.gpu.device ≡ 21
unfolding init
opened_device = refl

-- 250 bytes take three chunks.
three_chunks : length (allocate_memory numbering 250 opened).session.gpu.mem_load_ptrs ≡ 3
unfolding init allocate_memory release_memory chunk_loop
three_chunks = refl

allocated : (allocate_memory numbering 250 opened).ok ≡ true
unfolding init allocate_memory release_memory chunk_loop
allocated = refl

abbrev work : List Request
work = allocate 250 ∷ run 10 64 ∷ release ∷ allocate 120 ∷ []

lifetime-gives_all_back_example :
    held (record { kind = memory; handle = 9 }) (lifetime numbering true true reported (pos 0) work)
    ≡ some 0
lifetime-gives_all_back_example =
    lifetime-gives_all_back numbering true true reported (pos 0) work
      (record { kind = memory; handle = 9 })
