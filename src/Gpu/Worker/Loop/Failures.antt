-- ===== src/Gpu/Worker/Loop/Failures.antt =====
-- A worker's device whose launches fail.
use loadmaster.Prelude.{
  ℕ, suc, ◌+◌, ◌≤◌, ◌<◌, ◌≡◌, refl, sym, subst, ◌∙◌, leb→le, leb→lt, ltb→lt, ltb→le, length, Bool,
  true, false, ◌&&◌, List, [], ◌∷◌, ◌++◌, map, ltb, leb, arith, Bool-cases, inl, inr, All,
}
use loadmaster.Gpu.Worker.{Worker, DeviceCall, Synced, sync_memory}
use loadmaster.Gpu.Worker.Pairing.{sync_memory-has_device}
use loadmaster.Gpu.Worker.Loop.{
  max_consecutive_failures, Tick, LoopState, Event, memory_call, calibration, launch, Verdict,
  goes_on, stopped, gave_up, Ticked, is_some, target_ms, memory_events, fail_on, launch_on, work_on,
  tick_on, tick, then_on, loop,
}

-- The launches that failed.
abbrev pub failed_launches : List Event → ℕ
failed_launches [] = 0
failed_launches (memory_call c ∷ es) = failed_launches es
failed_launches (calibration ok ∷ es) = failed_launches es
failed_launches (launch true ∷ es) = failed_launches es
failed_launches (launch false ∷ es) = suc (failed_launches es)

-- A tick that finds work for the device, and whose launch fails.
abbrev pub Fails : Tick → Type 0
Fails t = (t.stop ≡ false) × (0 < target_ms t) × (t.launches ≡ false)

failed_launches-append :
    (xs ys : List Event) → failed_launches (xs ++ ys) ≡ failed_launches xs + failed_launches ys
failed_launches-append [] ys = omega arith
failed_launches-append (memory_call c ∷ xs) ys = failed_launches-append xs ys
failed_launches-append (calibration ok ∷ xs) ys = failed_launches-append xs ys
failed_launches-append (launch true ∷ xs) ys = failed_launches-append xs ys
failed_launches-append (launch false ∷ xs) ys = omega (arith, failed_launches-append xs ys)

failed_launches-memory_call : (cs : List DeviceCall) → failed_launches (map memory_call cs) ≡ 0
failed_launches-memory_call [] = refl
failed_launches-memory_call (c ∷ cs) = failed_launches-memory_call cs

-- What a failing tick does.
record Failed (s : LoopState) (r : Ticked) : Type 0 where
  one : failed_launches r.events ≡ 1
  goes :
      suc s.consecutive_failures < max_consecutive_failures
      → (r.verdict ≡ goes_on)
        × (r.state.consecutive_failures ≡ suc s.consecutive_failures)
        × (r.state.calibrated ≡ true)
        × (r.state.worker.has_device ≡ true)
  ends : max_consecutive_failures ≤ suc s.consecutive_failures → r.verdict ≡ gave_up

failing-busy :
    (t : Tick) (w : Worker)
    → Fails t
    → w.has_device ≡ true
    → (ltb 0 (target_ms t) && w.has_device) ≡ true
failing-busy t w h d = ground (arith, h, d)

one_failure : (cs : List DeviceCall) → failed_launches (map memory_call cs ++ launch false ∷ []) ≡ 1
one_failure cs = omega (
  arith,
  failed_launches-append (map memory_call cs) (launch false ∷ []),
  failed_launches-memory_call cs,
)

refused-Failed :
    (s : LoopState) (too_many : Bool) (synced : Synced)
    → leb max_consecutive_failures (suc s.consecutive_failures) ≡ too_many
    → s.calibrated ≡ true
    → synced.worker.has_device ≡ true
    → Failed s (
        fail_on too_many
          (memory_events synced ++ launch false ∷ [])
          (record s { worker = synced.worker; consecutive_failures = suc s.consecutive_failures }))
refused-Failed s true synced e c d =
    let u = record s {
      worker = synced.worker;
      consecutive_failures = suc s.consecutive_failures;
    } in
    let freed = sync_memory u.worker true false in
    let before = memory_events synced ++ launch false ∷ [] in
    record {
      one = omega (
        arith,
        failed_launches-append before (memory_events freed),
        one_failure synced.calls,
        failed_launches-memory_call freed.calls,
      );
      goes = λ h.
          absurd (omega (arith, h, leb→le max_consecutive_failures (suc s.consecutive_failures) e));
      ends = λ h. refl;
    }
refused-Failed s false synced e c d = record {
  one = one_failure synced.calls;
  goes = λ h. (refl, refl, c, d);
  ends = λ h.
      absurd (omega (arith, h, leb→lt max_consecutive_failures (suc s.consecutive_failures) e));
}

tick-Failed :
    (t : Tick) (s : LoopState)
    → Fails t
    → s.calibrated ≡ true
    → s.worker.has_device ≡ true
    → Failed s (tick t s)
unfolding tick
tick-Failed t s (runs, busy, broken) c d =
    let synced = sync_memory s.worker (is_some t.others) t.has_room in
    let before = memory_events synced in
    let u = record s { worker = synced.worker } in
    let has_device : synced.worker.has_device ≡ true =
      sync_memory-has_device s.worker (is_some t.others) t.has_room ∙ d in
    let failed : Failed s (launch_on false before u) =
      refused-Failed s (leb max_consecutive_failures (suc s.consecutive_failures)) synced refl c
        has_device in
    subst (λ b. Failed s (tick_on b t s)) (sym runs)
      (subst (λ b. Failed s (work_on b s.calibrated t before u))
        (sym (failing-busy t s.worker (runs, busy, broken) d))
        (subst (λ b. Failed s (work_on true b t before u)) (sym c)
          (subst (λ b. Failed s (launch_on b before u)) (sym broken) failed)))

-- What a run over failing ticks comes to.
pub record Ends (s : LoopState) (r : Ticked) : Type 0 where
  pub gives_up : r.verdict ≡ gave_up
  pub failures : failed_launches r.events + s.consecutive_failures ≡ max_consecutive_failures

then_on-Ends :
    (v : Verdict) (s : LoopState) (first rest : Ticked)
    → first.verdict ≡ v
    → Failed s first
    → suc s.consecutive_failures ≤ max_consecutive_failures
    → (suc s.consecutive_failures < max_consecutive_failures → Ends first.state rest)
    → Ends s (then_on v first rest)
then_on-Ends goes_on s first rest e f le next =
    elim (Bool-cases (ltb (suc s.consecutive_failures) max_consecutive_failures)) [
      | inl more ↦
          let lt : suc s.consecutive_failures < max_consecutive_failures = ltb→lt _ _ more in
          let r = next lt in
          record {
            gives_up = r.gives_up;
            failures = omega (
              arith,
              failed_launches-append first.events rest.events,
              f.one,
              (f.goes lt).1,
              r.failures,
            );
          }
      | inr last ↦ absurd (cc (e, f.ends (ltb→le _ _ last)))
    ]
then_on-Ends stopped s first rest e f le next =
    elim (Bool-cases (ltb (suc s.consecutive_failures) max_consecutive_failures)) [
      | inl more ↦ absurd (cc (e, (f.goes (ltb→lt _ _ more)).0))
      | inr last ↦ absurd (cc (e, f.ends (ltb→le _ _ last)))
    ]
then_on-Ends gave_up s first rest e f le next =
    elim (Bool-cases (ltb (suc s.consecutive_failures) max_consecutive_failures)) [
      | inl more ↦ absurd (cc (e, (f.goes (ltb→lt _ _ more)).0))
      | inr last ↦ record {
        gives_up = e;
        failures =
            let reached : max_consecutive_failures ≤ suc s.consecutive_failures = ltb→le _ _ last in
            omega (arith, f.one, reached);
      }
    ]

-- A calibrated device whose launches all fail is given up once 50 launches in a row have failed,
-- not earlier and not later, if the loop is not stopped before and there is work at every tick.
pub loop-Ends :
    (s : LoopState) (ts : List Tick)
    → s.calibrated ≡ true
    → s.worker.has_device ≡ true
    → s.consecutive_failures < max_consecutive_failures
    → max_consecutive_failures ≤ s.consecutive_failures + length ts
    → All Fails ts
    → Ends s (loop s ts)
unfolding loop
loop-Ends s [] c d lt enough a = absurd (omega (arith, lt, enough))
loop-Ends s (t ∷ ts) c d lt enough a =
    let f : Failed s (tick t s) = tick-Failed t s a.0 c d in
    then_on-Ends (tick t s).verdict s (tick t s) (loop (tick t s).state ts) refl f lt
      (λ (more : suc s.consecutive_failures < max_consecutive_failures).
        let (on, counted, still, there) = f.goes more in
        loop-Ends (tick t s).state ts still there (omega (arith, counted, more))
          (omega (arith, counted, enough)) a.1)
