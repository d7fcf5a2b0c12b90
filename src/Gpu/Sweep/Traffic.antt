-- ===== src/Gpu/Sweep/Traffic.antt =====
-- How much traffic the launches move, against what was asked for.
use native.Mathlib.Nat.{div-lt_iff_lt-mul, div-mul-le_self, le-div_iff_mul-le, lt-div-mul-add}
use loadmaster.Prelude.{
  ℕ, ◌+◌, ◌-◌, ◌*◌, ◌/◌, ◌%◌, ◌≤◌, ◌<◌, min, max, ◌≡◌, refl, inl, inr, List, [], ◌∷◌, ◌⊎◌, leb,
  ==_iff, ap, arith, ◌==◌, if◌then◌else◌, Bool-cases, get_or,
}
use loadmaster.Gpu.Sweep.{
  Window, MemSweep, SweepArgs, Launch, no_window, u64_mod, bytes_per_access, accesses_of, stride_of,
  touched_of, launch, charge, next,
}
use loadmaster.Gpu.Sweep.Bounds.{IsValid, next_cases, next-IsValid}

-- Bytes that the kernel moves for these arguments: one access per thread and chunk.
abbrev pub moved_bytes : ℕ → ℕ → SweepArgs → ℕ
moved_bytes loops threads a =
    if a.words == 0 then 0 else touched_of loops a.stride threads * bytes_per_access

mul_mono_left : (a b c : ℕ) → a ≤ b → a * c ≤ b * c
mul_mono_left a b c h = grind arith

ceil-le : (loops a stride : ℕ) → 0 < stride → loops ≤ stride * a → (loops + stride - 1) / stride ≤ a
ceil-le loops a stride s h =
    let room : loops + stride - 1 < (a + 1) * stride = grind arith in
    let below : (loops + stride - 1) / stride < a + 1 = (div-lt_iff_lt-mul s).1 room in
    omega (arith, below)

stride_covers : (loops a : ℕ) → 1 ≤ a → loops ≤ stride_of loops a * a
stride_covers loops a h =
    let spread : loops + a - 1 < stride_of loops a * a + a = lt-div-mul-add h in
    omega (arith, spread)

-- No more chunks than accesses.
chunks-le :
    (loops a : ℕ) → 1 ≤ a → 1 ≤ loops → (loops + stride_of loops a - 1) / stride_of loops a ≤ a
chunks-le loops a h l =
    ceil-le loops a (stride_of loops a) ((le-div_iff_mul-le h).1 (omega arith))
      (stride_covers loops a h)

touched-le :
    (pending loops threads : ℕ)
    → 1 ≤ loops
    → 0 < pending / bytes_per_access / threads
    → touched_of loops
          (stride_of loops (accesses_of (pending / bytes_per_access / threads) loops))
          threads
        * bytes_per_access
      ≤ pending
touched-le pending loops threads l p =
    let per_thread = pending / bytes_per_access / threads in
    let a = accesses_of per_thread loops in
    let chunks = (loops + stride_of loops a - 1) / stride_of loops a in
    omega (
      arith,
      chunks-le loops a (omega arith) l,
      mul_mono_left chunks per_thread threads (omega (arith, chunks-le loops a (omega arith) l)),
      div-mul-le_self (pending / bytes_per_access) threads,
    )

-- Less than one access per thread is pending.
abbrev pub Carried : MemSweep → ℕ → Type 0
Carried s threads = s.pending_bytes < threads * bytes_per_access

-- The pending amount after a launch, whichever window comes next.
launch_pending :
    (s : MemSweep) (w : Window) (loops threads per_thread : ℕ)
    → let touched = touched_of loops (stride_of loops (accesses_of per_thread loops)) threads in
      (launch s w loops threads per_thread).sweep.pending_bytes
      ≡ min
          (s.pending_bytes - min s.pending_bytes ((touched * bytes_per_access) % u64_mod))
          (threads * bytes_per_access - 1)
unfolding launch
launch_pending s w loops threads per_thread =
    elim (Bool-cases (
      leb (w.words - s.cursor)
        (touched_of loops (stride_of loops (accesses_of per_thread loops)) threads))) [
          | inl last ↦ rw last
          | inr within ↦ rw within
        ]

launch_moves :
    (s : MemSweep) (w : Window) (loops threads per_thread : ℕ)
    → moved_bytes loops threads (launch s w loops threads per_thread).args
      ≤ touched_of loops (stride_of loops (accesses_of per_thread loops)) threads * bytes_per_access
unfolding launch
launch_moves s w loops threads per_thread = elim (Bool-cases (w.words == 0)) [
  | inl nothing ↦ rw nothing (omega arith)
  | inr something ↦ rw something (omega arith)
]

below_one_each : (n threads : ℕ) → 0 < threads → n / 8 / threads ≡ 0 → n < threads * 8
below_one_each n threads t h =
    let spread : n / 8 < n / 8 / threads * threads + threads = lt-div-mul-add t in
    omega (arith, spread, ap (λ q. q * threads) h)

-- What the traffic of a launch and what it carries over add up to.
abbrev Accounts : MemSweep → ℕ → ℕ → Launch → Type 0
Accounts s loops threads l =
    (l.sweep.pending_bytes + moved_bytes loops threads l.args ≤ s.pending_bytes)
    × Carried l.sweep threads

launch-Accounts :
    (s : MemSweep) (w : Window) (loops threads : ℕ)
    → 1 ≤ loops
    → 0 < threads
    → s.pending_bytes < u64_mod
    → 0 < s.pending_bytes / bytes_per_access / threads
    → Accounts s loops threads
        (launch s w loops threads (s.pending_bytes / bytes_per_access / threads))
launch-Accounts s w loops threads l t p q =
    let per_thread = s.pending_bytes / bytes_per_access / threads in
    let fits = touched-le s.pending_bytes loops threads l q in
    (
      omega (
        arith,
        fits,
        launch_pending s w loops threads per_thread,
        launch_moves s w loops threads per_thread,
      ),
      omega (arith, launch_pending s w loops threads per_thread),
    )

charge-Accounts :
    (s : MemSweep) (loops threads : ℕ)
    → 1 ≤ loops
    → 0 < threads
    → s.pending_bytes < u64_mod
    → Accounts s loops threads (charge s loops threads)
unfolding charge
charge-Accounts s loops threads l t p =
    elim (Bool-cases (s.pending_bytes / bytes_per_access / threads == 0)) [
      | inl carried ↦
          rw carried
            (omega arith, below_one_each s.pending_bytes threads t ((==_iff _ _).0 carried))
      | inr pays ↦ rw pays (
          launch-Accounts s (get_or s.windows s.window no_window) loops threads l t p
            (ground arith))
    ]

-- A launch never moves more bytes than are pending and asked for; what it does not move is
-- carried over, but for the part beyond one access per thread, which is dropped. `traffic` and
-- the pending bytes together stay below 2^64.
pub next_traffic :
    (s : MemSweep) (loop_count traffic threads : ℕ)
    → IsValid s
    → s.pending_bytes + traffic < u64_mod
    → let l = next s loop_count traffic threads in
      (l.sweep.pending_bytes + moved_bytes (max loop_count 1) threads l.args
        ≤ s.pending_bytes + traffic)
      × ((l.sweep.pending_bytes ≡ s.pending_bytes) ⊎ Carried l.sweep threads)
next_traffic s loop_count traffic threads v room =
    next_cases
      (λ l.
        (l.sweep.pending_bytes + moved_bytes (max loop_count 1) threads l.args
          ≤ s.pending_bytes + traffic)
        × ((l.sweep.pending_bytes ≡ s.pending_bytes) ⊎ Carried l.sweep threads))
      s loop_count traffic threads v (omega arith, inl refl)
      (λ p some_windows e. (omega arith, inl refl))
      (λ p some_windows some_threads e hit.
        let a =
          charge-Accounts
            (record s {
              window = p.window;
              cursor = p.cursor;
              pending_bytes = (s.pending_bytes + traffic) % u64_mod;
            })
            (max loop_count 1) threads (omega arith) some_threads (omega arith) in
        (omega (arith, a.0), inr a.1))

-- One call of `Next`.
pub record Request : Type 0 where
  pub loop_count : ℕ
  pub traffic : ℕ
  pub threads : ℕ

-- The bytes that a run of launches moves.
pub run_moves : MemSweep → List Request → ℕ
run_moves s [] = 0
run_moves s (r ∷ rs) =
    moved_bytes (max r.loop_count 1) r.threads (next s r.loop_count r.traffic r.threads).args
    + run_moves (next s r.loop_count r.traffic r.threads).sweep rs

abbrev pub asked : List Request → ℕ
asked [] = 0
asked (r ∷ rs) = r.traffic + asked rs

-- Over any run of launches, with any loop counts and grid sizes, no more bytes are moved than
-- were pending and asked for, while these stay below 2^64 together.
pub run_moves-le-asked :
    (s : MemSweep) (rs : List Request)
    → IsValid s
    → s.pending_bytes + asked rs < u64_mod
    → run_moves s rs ≤ s.pending_bytes + asked rs
unfolding run_moves
run_moves-le-asked s [] v room = omega arith
run_moves-le-asked s (r ∷ rs) v room =
    let step = next_traffic s r.loop_count r.traffic r.threads v (omega arith) in
    omega (
      arith,
      step.0,
      run_moves-le-asked (next s r.loop_count r.traffic r.threads).sweep rs
          (next-IsValid s r.loop_count r.traffic r.threads v) (omega (arith, step.0)),
    )
