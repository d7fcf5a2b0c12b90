-- ===== src/Memory/Manager/Owner.antt =====
-- The block belongs to the background thread while it works, and what it does is the same.
use loadmaster.Prelude.{ℕ, ◌≡◌, refl, sym, ap, ◌∙◌, true, false, List, [], ◌∷◌, leb}
use loadmaster.Memory.Manager.{
  Manager, not_joinable, allocating, Draw, will_schedule, note_scheduled, schedule_idle,
  schedule_on, schedule, finish_on, finish, aligned, threshold_bytes, allocate_and_fill,
  allocate_on, join,
}

-- A tick.
pub record Tick : Type 0 where
  pub now : ℕ
  pub draw : Draw

pub ticks : Manager → List Tick → Manager
ticks m [] = m
ticks m (t ∷ ts) = ticks (schedule m t.now t.draw) ts

schedule_in_flight :
    (m : Manager) (byte_count seed : ℕ) (now : ℕ) (d : Draw)
    → m.thread ≡ allocating byte_count seed
    → schedule m now d ≡ m
unfolding schedule schedule_on
schedule_in_flight m byte_count seed now d e = ap (λ t. schedule_on t m now d) e

ticks_in_flight :
    (m : Manager) (byte_count seed : ℕ) (ts : List Tick)
    → m.thread ≡ allocating byte_count seed
    → ticks m ts ≡ m
unfolding ticks
ticks_in_flight m byte_count seed [] e = refl
ticks_in_flight m byte_count seed (t ∷ ts) e =
    ap (λ n. ticks n ts) (schedule_in_flight m byte_count seed t.now t.draw e)
    ∙ ticks_in_flight m byte_count seed ts e

schedule_large :
    (m : Manager) (now : ℕ) (d : Draw)
    → m.thread ≡ not_joinable
    → will_schedule m now ≡ true
    → leb threshold_bytes (aligned d.raw_bytes) ≡ true
    → schedule m now d
      ≡ note_scheduled (record m { thread = allocating (aligned d.raw_bytes) d.seed }) now
unfolding schedule schedule_on schedule_idle
schedule_large m now d idle due large =
    ap (λ t. schedule_on t m now d) idle ∙ rw due (rw large refl)

-- A large allocation is left to the thread. However many ticks come before it is done, once the
-- thread is joined the manager is in just the state in which it would be if the tick that started
-- it had done the same allocation itself, on the path of the small ones; that is, if the thread is
-- not asked to stop, which only the manager's end does.
pub background-inline :
    (m : Manager) (now : ℕ) (d : Draw) (ts : List Tick)
    → m.thread ≡ not_joinable
    → will_schedule m now ≡ true
    → leb threshold_bytes (aligned d.raw_bytes) ≡ true
    → join (finish (ticks (schedule m now d) ts) d.fits [])
      ≡ note_scheduled (allocate_on false (aligned d.raw_bytes) d m) now
unfolding finish finish_on
background-inline m now d ts idle due large =
    let started = note_scheduled (allocate_on true (aligned d.raw_bytes) d m) now in
    ap (λ n. join (finish (ticks n ts) d.fits [])) (schedule_large m now d idle due large)
    ∙ ap (λ n. join (finish n d.fits []))
        (ticks_in_flight started (aligned d.raw_bytes) d.seed ts refl)
    ∙ ap
        (λ t.
          note_scheduled
            (record m {
              thread = t;
              block = allocate_and_fill (aligned d.raw_bytes) d.seed d.fits [] m.block;
            })
            now)
        (sym idle)
