-- ===== src/Gpu/Worker/Loop/Memory.antt =====
-- The memory calls of a worker's loop.
use loadmaster.Prelude.{
  suc, ◌≡◌, refl, ap, Bool, true, false, ◌&&◌, List, [], ◌∷◌, ◌++◌, map, ltb, leb,
}
use loadmaster.Gpu.Worker.{Worker, DeviceCall, sync_memory}
use loadmaster.Gpu.Worker.Pairing.{
  WellPaired, IsHolder, sync_memory-Leads, sync_memory-IsHolder, sync_memory-frees,
}
use mathlib.Core.List.{append_assoc, append-nil}
use loadmaster.Gpu.Worker.Loop.{
  max_consecutive_failures, Tick, LoopState, Event, memory_call, calibration, launch, Verdict,
  goes_on, stopped, gave_up, Ticked, is_some, target_ms, memory_events, give_up, calibrate_on,
  fail_on, launch_on, work_on, tick_on, tick, then_on, loop,
}

-- The memory calls among the events.
abbrev pub memory_calls : List Event → List DeviceCall
memory_calls [] = []
memory_calls (memory_call c ∷ es) = c ∷ memory_calls es
memory_calls (calibration ok ∷ es) = memory_calls es
memory_calls (launch ok ∷ es) = memory_calls es

memory_calls-append :
    (xs ys : List Event) → memory_calls (xs ++ ys) ≡ memory_calls xs ++ memory_calls ys
memory_calls-append [] ys = refl
memory_calls-append (memory_call c ∷ xs) ys = ap (λ l. c ∷ l) (memory_calls-append xs ys)
memory_calls-append (calibration ok ∷ xs) ys = memory_calls-append xs ys
memory_calls-append (launch ok ∷ xs) ys = memory_calls-append xs ys

memory_calls-memory_call : (cs : List DeviceCall) → memory_calls (map memory_call cs) ≡ cs
memory_calls-memory_call [] = refl
memory_calls-memory_call (c ∷ cs) = ap (λ l. c ∷ l) (memory_calls-memory_call cs)

-- Between a device that holds a block or not before, and one after, the events fit.
abbrev Chain : Bool → List Event → Bool → Type 0
Chain before es after =
    (more : List DeviceCall) → WellPaired after more → WellPaired before (memory_calls es ++ more)

Chain-append :
    (a b c : Bool) (es fs : List Event) → Chain a es b → Chain b fs c → Chain a (es ++ fs) c
Chain-append a b c es fs p q = λ more w.
    rw (memory_calls-append es fs, append_assoc (memory_calls es) (memory_calls fs) more)
      (p (memory_calls fs ++ more) (q more w))

Chain-memory_events :
    (w : Worker) (sharing has_room : Bool)
    → Chain w.memory_held
        (memory_events (sync_memory w sharing has_room))
        (sync_memory w sharing has_room).worker.memory_held
Chain-memory_events w sharing has_room = λ more p.
    rw (memory_calls-memory_call (sync_memory w sharing has_room).calls)
      (sync_memory-Leads w sharing has_room more p)

-- What holds of every tick: the calls fit, and a device that is given up holds no block.
record Sound (held : Bool) (r : Ticked) : Type 0 where
  chain : Chain held r.events r.state.worker.memory_held
  holder : IsHolder r.state.worker
  released : r.verdict ≡ gave_up → r.state.worker.memory_held ≡ false

give_up-Sound :
    (held : Bool) (before : List Event) (s : LoopState)
    → IsHolder s.worker
    → Chain held before s.worker.memory_held
    → Sound held (give_up before s)
give_up-Sound held before s h c = record {
  chain =
      Chain-append held s.worker.memory_held (sync_memory s.worker true false).worker.memory_held
        before (memory_events (sync_memory s.worker true false)) c
        (Chain-memory_events s.worker true false);
  holder = sync_memory-IsHolder s.worker true false h;
  released = λ _. sync_memory-frees s.worker false h;
}

module _ (held : Bool) (before : List Event) (s : LoopState) (h : IsHolder s.worker)
    (c : Chain held before s.worker.memory_held) where
  and_then :
      (e : Event) → memory_calls (e ∷ []) ≡ [] → Chain held (before ++ e ∷ []) s.worker.memory_held
  and_then e silent =
      Chain-append held s.worker.memory_held s.worker.memory_held before (e ∷ []) c
        (λ more p. rw silent p)

  calibrate_on-Sound : (ok : Bool) → Sound held (calibrate_on ok before s)
  calibrate_on-Sound true = record {
    chain = and_then (calibration true) refl;
    holder = h;
    released = λ e. cc;
  }
  calibrate_on-Sound false =
      give_up-Sound held (before ++ calibration false ∷ []) s h (and_then (calibration false) refl)

module _ (held : Bool) (before : List Event) where
  fail_on-Sound :
      (too_many : Bool) (s : LoopState)
      → IsHolder s.worker
      → Chain held before s.worker.memory_held
      → Sound held (fail_on too_many before s)
  fail_on-Sound true s h c = give_up-Sound held before s h c
  fail_on-Sound false s h c = record { chain = c; holder = h; released = λ e. cc }

module _ (held : Bool) (before : List Event) (s : LoopState) (h : IsHolder s.worker)
    (c : Chain held before s.worker.memory_held) where
  launch_on-Sound : (ok : Bool) → Sound held (launch_on ok before s)
  launch_on-Sound true = record {
    chain = and_then held before s h c (launch true) refl;
    holder = h;
    released = λ e. cc;
  }
  launch_on-Sound false =
      fail_on-Sound held (before ++ launch false ∷ [])
        (leb max_consecutive_failures (suc s.consecutive_failures))
        (record s { consecutive_failures = suc s.consecutive_failures }) h
        (and_then held before s h c (launch false) refl)

  work_on-Sound :
      (busy calibrated : Bool) (t : Tick) → Sound held (work_on busy calibrated t before s)
  work_on-Sound false calibrated t = record { chain = c; holder = h; released = λ e. cc }
  work_on-Sound true false t = calibrate_on-Sound held before s h c t.calibrates
  work_on-Sound true true t = launch_on-Sound t.launches

tick_on-Sound :
    (stop : Bool) (t : Tick) (s : LoopState)
    → IsHolder s.worker
    → Sound s.worker.memory_held (tick_on stop t s)
tick_on-Sound true t s h = record { chain = λ more p. p; holder = h; released = λ e. cc }
tick_on-Sound false t s h =
    let synced = sync_memory s.worker (is_some t.others) t.has_room in
    work_on-Sound s.worker.memory_held (memory_events synced) (record s { worker = synced.worker })
      (sync_memory-IsHolder s.worker (is_some t.others) t.has_room h)
      (Chain-memory_events s.worker (is_some t.others) t.has_room)
      (ltb 0 (target_ms t) && s.worker.has_device) s.calibrated t

then_on-Sound :
    (held : Bool) (v : Verdict) (first rest : Ticked)
    → first.verdict ≡ v
    → Sound held first
    → Sound first.state.worker.memory_held rest
    → Sound held (then_on v first rest)
then_on-Sound held goes_on first rest e a b = record {
  chain =
      Chain-append held first.state.worker.memory_held rest.state.worker.memory_held first.events
        rest.events a.chain b.chain;
  holder = b.holder;
  released = b.released;
}
then_on-Sound held stopped first rest e a b = a
then_on-Sound held gave_up first rest e a b = a

loop-Sound :
    (s : LoopState) (ts : List Tick) → IsHolder s.worker → Sound s.worker.memory_held (loop s ts)
unfolding loop tick
loop-Sound s [] h = record { chain = λ more p. p; holder = h; released = λ e. cc }
loop-Sound s (t ∷ ts) h =
    let first : Sound s.worker.memory_held (tick t s) = tick_on-Sound t.stop t s h in
    then_on-Sound s.worker.memory_held (tick t s).verdict (tick t s) (loop (tick t s).state ts) refl
      first (loop-Sound (tick t s).state ts first.holder)

-- Whatever the ticks of a worker bring (others that come and go, a device that is full, calibrations
-- and launches that fail), its block is never allocated twice without a release between nor
-- released without being held, and when the loop gives the device up, no block is left on it.
pub loop-WellPaired :
    (s : LoopState) (ts : List Tick)
    → IsHolder s.worker
    → WellPaired s.worker.memory_held (memory_calls (loop s ts).events)
      × ((loop s ts).verdict ≡ gave_up → (loop s ts).state.worker.memory_held ≡ false)
loop-WellPaired s ts h =
    let v = loop-Sound s ts h in
    (rw (append-nil (memory_calls (loop s ts).events)) at (v.chain [] tt), v.released)
