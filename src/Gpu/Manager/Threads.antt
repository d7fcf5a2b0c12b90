-- ===== src/Gpu/Manager/Threads.antt =====
-- The orders that GpuResourceManager gives its threads.
use loadmaster.Prelude.{
  ℕ, ◌≡◌, refl, sym, ap, ◌∙◌, Bool, true, false, Option, none, some, List, [], ◌∷◌, ◌++◌, map, ◌==◌,
  if◌then◌else◌, arith,
}
use mathlib.Core.List.{append-nil, append_assoc}
use loadmaster.Gpu.Manager.{
  Context, Manager, Order, start_worker, stop_worker, join_worker, start_monitor, stop_monitor,
  join_monitor, for_monitor, for_workers, create_worker_threads, request_worker_threads_stop,
  join_orders, joined, has,
}

-- The threads that run: workers in the order of their start, and the monitor.
pub record Running : Type 0 where
  pub workers : List ℕ
  pub monitor : Bool

abbrev pub none_running : Running
none_running = record { workers = []; monitor = false }

-- A worker is joined; `none` if it does not run.
abbrev pub without : ℕ → List ℕ → Option (List ℕ)
without i [] = none
without i (j ∷ js) =
    let rest = without i js in
    if i == j then some js else (elim rest [ none ↦ none | some ks ↦ some (j ∷ ks) ])

abbrev pub with_workers : Option (List ℕ) → Option Running
with_workers none = none
with_workers (some ids) = some (record { workers = ids; monitor = false })

-- An order; `none` is a fault. The monitor calls into the workers, so none may go while it runs,
-- nor may it start twice.
abbrev pub obey : Order → Running → Option Running
obey (start_worker i) r = some (record r { workers = r.workers ++ i ∷ [] })
obey (stop_worker i) r = some r
obey (join_worker i) r = if r.monitor then none else with_workers (without i r.workers)
obey start_monitor r = if r.monitor then none else some (record r { monitor = true })
obey stop_monitor r = some r
obey join_monitor r = if r.monitor then some (record r { monitor = false }) else none

abbrev pub and_then : Option Running → (Running → Option Running) → Option Running
and_then none f = none
and_then (some r) f = f r

unfoldable pub obey_all : List Order → Running → Option Running
obey_all [] r = some r
obey_all (o ∷ os) r = and_then (obey o r) (obey_all os)

-- Orders in two parts, on what the first part comes to.
module _ (os ps : List Order)
    (h : (r : Running) → obey_all (os ++ ps) r ≡ and_then (obey_all os r) (obey_all ps)) where
  after_part :
      (x : Option Running)
      → and_then x (obey_all (os ++ ps)) ≡ and_then (and_then x (obey_all os)) (obey_all ps)
  after_part none = refl
  after_part (some r) = h r

obey_all-append :
    (os ps : List Order) (r : Running)
    → obey_all (os ++ ps) r ≡ and_then (obey_all os r) (obey_all ps)
unfolding obey_all
obey_all-append [] ps r = refl
obey_all-append (o ∷ os) ps r = after_part os ps (λ x. obey_all-append os ps x) (obey o r)

obey_all-then :
    (os ps : List Order) (r t : Running)
    → obey_all os r ≡ some t
    → obey_all (os ++ ps) r ≡ obey_all ps t
obey_all-then os ps r t e = obey_all-append os ps r ∙ ap (λ x. and_then x (obey_all ps)) e

without-first : (i : ℕ) (js : List ℕ) → without i (i ∷ js) ≡ some js
without-first i js = ground arith

module _ {Device : Type 0} where
  abbrev pub ids : List (Context Device) → List ℕ
  ids ws = map (λ (w : Context Device). w.id) ws

  start-workers :
      (ws : List (Context Device)) (r : Running)
      → obey_all (for_workers start_worker ws) r ≡ some (record r { workers = r.workers ++ ids ws })
  unfolding obey_all
  start-workers [] r =
      ap (λ xs. some (record { workers = xs; monitor = r.monitor })) (sym (append-nil r.workers))
  start-workers (w ∷ ws) r =
      start-workers ws (record r { workers = r.workers ++ w.id ∷ [] })
      ∙ ap (λ xs. some (record { workers = xs; monitor = r.monitor }))
          (append_assoc r.workers (w.id ∷ []) (ids ws))

  stop-workers :
      (ws : List (Context Device)) (r : Running) → obey_all (for_workers stop_worker ws) r ≡ some r
  unfolding obey_all
  stop-workers [] r = refl
  stop-workers (w ∷ ws) r = stop-workers ws r

  join-workers :
      (ws : List (Context Device))
      → obey_all (for_workers join_worker ws) (record { workers = ids ws; monitor = false })
        ≡ some none_running
  unfolding obey_all
  join-workers [] = refl
  join-workers (w ∷ ws) =
      ap (λ x. and_then (with_workers x) (obey_all (for_workers join_worker ws)))
        (without-first w.id (ids ws))
      ∙ join-workers ws

  start-monitor :
      (m : Option (List Device)) (js : List ℕ)
      → obey_all (for_monitor start_monitor m) (record { workers = js; monitor = false })
        ≡ some (record { workers = js; monitor = has m })
  unfolding obey_all
  start-monitor none js = refl
  start-monitor (some ds) js = refl

  stop-monitor :
      (m : Option (List Device)) (r : Running) → obey_all (for_monitor stop_monitor m) r ≡ some r
  unfolding obey_all
  stop-monitor none r = refl
  stop-monitor (some ds) r = refl

  join-monitor :
      (m : Option (List Device)) (js : List ℕ)
      → obey_all (for_monitor join_monitor m) (record { workers = js; monitor = has m })
        ≡ some (record { workers = js; monitor = false })
  unfolding obey_all
  join-monitor none js = refl
  join-monitor (some ds) js = refl

  -- All that a manager orders, from the creation of its threads to their end.
  abbrev pub all_orders : Manager Device → List Order
  all_orders m = create_worker_threads m ++ (request_worker_threads_stop m ++ join_orders m)

  created :
      (m : Manager Device)
      → obey_all (create_worker_threads m) none_running
        ≡ some (record { workers = ids m.workers; monitor = has m.monitor })
  created m =
      obey_all-then (for_workers start_worker m.workers) (for_monitor start_monitor m.monitor)
        none_running (record { workers = ids m.workers; monitor = false })
        (start-workers m.workers none_running)
      ∙ start-monitor m.monitor (ids m.workers)

  stopped : (m : Manager Device) (r : Running) → obey_all (request_worker_threads_stop m) r ≡ some r
  stopped m r =
      obey_all-then (for_monitor stop_monitor m.monitor) (for_workers stop_worker m.workers) r r
        (stop-monitor m.monitor r)
      ∙ stop-workers m.workers r

  all_joined :
      (m : Manager Device)
      → obey_all (join_orders m) (record { workers = ids m.workers; monitor = has m.monitor })
        ≡ some none_running
  all_joined m =
      obey_all-then (for_monitor join_monitor m.monitor) (for_workers join_worker m.workers) _
        (record { workers = ids m.workers; monitor = false })
        (join-monitor m.monitor (ids m.workers))
      ∙ join-workers m.workers

  -- From CreateWorkerThreads over RequestWorkerThreadsStop to JoinWorkerThreads, every worker and
  -- the monitor, if there is one, is started and joined once, and no worker is joined while the
  -- monitor, which calls into the workers, may still run; afterwards the manager has nothing left
  -- to start, stop or join.
  pub all_orders-obeyed :
      (m : Manager Device)
      → (obey_all (all_orders m) none_running ≡ some none_running) × (all_orders (joined m) ≡ [])
  all_orders-obeyed m =
      let r : Running = record { workers = ids m.workers; monitor = has m.monitor } in
      (
        obey_all-then (create_worker_threads m) (request_worker_threads_stop m ++ join_orders m)
              none_running r (created m)
            ∙ (obey_all-then (request_worker_threads_stop m) (join_orders m) r r (stopped m r)
                ∙ all_joined m),
        refl,
      )
