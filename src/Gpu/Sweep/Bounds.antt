-- ===== src/Gpu/Sweep/Bounds.antt =====
-- The kernel stays inside the `-gm` block.
use native.Mathlib.Nat.{le-div_iff_mul-le, div-le_of_le-mul}
use loadmaster.Prelude.{
  ℕ, zero, suc, ◌+◌, ◌-◌, ◌*◌, ◌/◌, ◌%◌, ◌^◌, ◌≤◌, ◌<◌, max, ◌≡◌, refl, inl, inr, true, List, [],
  ◌∷◌, ◌||◌, arith, leb→lt, leb, ◌==◌, Bool-cases, length, get_or, All, All-get_or,
}
use loadmaster.Gpu.Sweep.{
  Window, MemSweep, SweepArgs, Launch, Position, no_window, u32_mod, u64_mod, bytes_per_access,
  accesses_of, stride_of, touched_of, skip, launch, charge, next, idle_args,
}
use loadmaster.Gpu.Sweep.Search.{Ends, skip-Ends}
use loadmaster.Gpu.Sweep.Layout.{Fits}
use loadmaster.Gpu.Sweep.Kernel.{touched_word, index-lt}

-- A window that `Reset` may have laid out.
abbrev pub IsUsable : Window → Type 0
IsUsable w = (0 < w.words) × (w.words ≤ 2 ^ 28)

pub record IsValid (s : MemSweep) : Type 0 where
  pub usable : All IsUsable s.windows
  pub current : 0 < length s.windows → s.window < length s.windows
  pub cursor : 0 < length s.windows → s.cursor < (get_or s.windows s.window no_window).words
  pub pending : s.pending_bytes < u64_mod

-- What the arguments of a launch promise the kernel.
pub record IsSafe (ws : List Window) (loops threads : ℕ) (a : SweepArgs) : Type 0 where
  pub chunk : (1 ≤ a.stride) × (a.stride ≤ loops)
  pub from_window :
      0 < a.words
      → (i : ℕ) × (i < length ws)
        × (a.segment ≡ (get_or ws i no_window).segment)
        × (a.offset_words ≡ (get_or ws i no_window).offset_words)
        × (a.words ≡ (get_or ws i no_window).words)
  pub wraps : 0 < a.words → (threads ≤ a.words) × (a.base < a.words)

abbrev HasRoom : MemSweep → ℕ → Type 0
HasRoom s threads =
    (s.window < length s.windows)
    × (s.cursor < (get_or s.windows s.window no_window).words)
    × (threads ≤ (get_or s.windows s.window no_window).words)

idle_args-IsSafe :
    (ws : List Window) (loops threads : ℕ) → 1 ≤ loops → IsSafe ws loops threads (idle_args loops)
idle_args-IsSafe ws loops threads h = record {
  chunk = (h, omega arith);
  from_window = λ t. absurd (omega arith);
  wraps = λ t. absurd (omega arith);
}

IsUsable-at :
    (ws : List Window) (i : ℕ) → All IsUsable ws → i < length ws → IsUsable (get_or ws i no_window)
IsUsable-at ws i all lt = All-get_or IsUsable ws i no_window all lt

le_loops : (loops b : ℕ) → 1 ≤ loops → loops + suc b - 1 ≤ suc b * loops
le_loops zero b h = elim h [ ]
le_loops (suc n) b h = grind arith

stride_bounds :
    (loops a : ℕ) → 1 ≤ a → a ≤ loops → (1 ≤ stride_of loops a) × (stride_of loops a ≤ loops)
stride_bounds loops zero h k = absurd (omega arith)
stride_bounds loops (suc b) h k = (
  (le-div_iff_mul-le h).1 (omega arith),
  div-le_of_le-mul (suc b) (le_loops loops b (omega arith)),
)

module _ (s : MemSweep) (v : IsValid s) where
  after_last_word :
      (kept : ℕ)
      → kept < u64_mod
      → s.window < length s.windows
      → IsValid (record s {
        window = (s.window + 1) % length s.windows;
        cursor = 0;
        pending_bytes = kept;
      })
  after_last_word kept k lt = record {
    usable = v.usable;
    current = λ _. omega arith;
    cursor =
        λ _. (IsUsable-at s.windows ((s.window + 1) % length s.windows) v.usable (omega arith)).0;
    pending = k;
  }

  within_window :
      (kept touched : ℕ)
      → kept < u64_mod
      → s.window < length s.windows
      → touched < (get_or s.windows s.window no_window).words - s.cursor
      → IsValid
          (record s { cursor = (s.cursor + touched % u32_mod) % u32_mod; pending_bytes = kept })
  within_window kept touched k lt t = record {
    usable = v.usable;
    current = v.current;
    cursor = λ _. omega (arith, IsUsable-at s.windows s.window v.usable lt);
    pending = k;
  }

  launch-IsValid :
      (loops threads per_thread : ℕ)
      → s.window < length s.windows
      → IsValid (launch s (get_or s.windows s.window no_window) loops threads per_thread).sweep
  unfolding launch
  launch-IsValid loops threads per_thread lt =
      elim (Bool-cases (
        leb ((get_or s.windows s.window no_window).words - s.cursor)
          (touched_of loops (stride_of loops (accesses_of per_thread loops)) threads))) [
            | inl last ↦ rw last (after_last_word _ (omega (arith, v.pending)) lt)
            | inr within ↦
                rw within (within_window _ _ (omega (arith, v.pending)) lt (leb→lt _ _ within))
          ]

  charge-IsValid :
      (loops threads : ℕ) → s.window < length s.windows → IsValid (charge s loops threads).sweep
  unfolding charge
  charge-IsValid loops threads lt =
      elim (Bool-cases (s.pending_bytes / bytes_per_access / threads == 0)) [
        | inl carried ↦ rw carried v
        | inr pays ↦
            rw pays (launch-IsValid loops threads (s.pending_bytes / bytes_per_access / threads) lt)
      ]

-- Where the search ends is a valid place to go on from.
moved-IsValid :
    (s : MemSweep) (p : Position) (threads pending : ℕ)
    → IsValid s
    → 0 < length s.windows
    → pending < u64_mod
    → Ends s.windows threads s.window s.cursor (length s.windows) p
    → IsValid (record s { window = p.window; cursor = p.cursor; pending_bytes = pending })
moved-IsValid s p threads pending v some_windows k e = record {
  usable = v.usable;
  current = λ _. e.in_range;
  cursor = λ _. elim e.cursor_kept [
    | inl (same, kept) ↦ rw (same, kept) (v.cursor some_windows)
    | inr fresh ↦ rw fresh ((IsUsable-at s.windows p.window v.usable e.in_range).0)
  ];
  pending = k;
}

-- The three ways through `Next`: nothing to do, no window for the launch, or a window found.
pub next_cases {ℓ} :
    (P : Launch → Type ℓ) (s : MemSweep) (loop_count traffic threads : ℕ)
    → IsValid s
    → P (record { sweep = s; args = idle_args (max loop_count 1) })
    → ((p : Position)
        → 0 < length s.windows
        → Ends s.windows threads s.window s.cursor (length s.windows) p
        → P (record {
          sweep = record s { window = p.window; cursor = p.cursor };
          args = idle_args (max loop_count 1);
        }))
    → ((p : Position)
        → 0 < length s.windows
        → 0 < threads
        → Ends s.windows threads s.window s.cursor (length s.windows) p
        → p.found ≡ true
        → P (
            charge
              (record s {
                window = p.window;
                cursor = p.cursor;
                pending_bytes = (s.pending_bytes + traffic) % u64_mod;
              })
              (max loop_count 1)
              threads))
    → P (next s loop_count traffic threads)
unfolding next
next_cases P s loop_count traffic threads v idle missed charged =
    elim (Bool-cases (length s.windows == 0 || threads == 0)) [
      | inl nothing ↦ rw nothing idle
      | inr busy ↦
          let some_windows : 0 < length s.windows = ground arith in
          let some_threads : 0 < threads = ground arith in
          let p = skip (length s.windows) s.windows threads s.window s.cursor in
          let e =
            skip-Ends (length s.windows) s.windows threads s.window s.cursor some_windows
              (v.current some_windows) in
          rw busy (elim (Bool-cases p.found) [
            | inl hit ↦ rw hit (charged p some_windows some_threads e hit)
            | inr miss ↦ rw miss (missed p some_windows e)
          ])
    ]

-- `Next` keeps the walk inside its windows: a position in range, a cursor inside the current
-- window, and a pending amount that fits its 64 bits.
pub next-IsValid :
    (s : MemSweep) (loop_count traffic threads : ℕ)
    → IsValid s
    → IsValid (next s loop_count traffic threads).sweep
unfolding next
next-IsValid s loop_count traffic threads v =
    next_cases (λ l. IsValid l.sweep) s loop_count traffic threads v v
      (λ p some_windows e. moved-IsValid s p threads s.pending_bytes v some_windows v.pending e)
      (λ p some_windows some_threads e hit.
        charge-IsValid _ (moved-IsValid s p threads _ v some_windows (omega arith) e)
          (max loop_count 1) threads e.in_range)

charge-IsSafe :
    (s : MemSweep) (loops threads : ℕ)
    → HasRoom s threads
    → 0 < threads
    → 1 ≤ loops
    → IsSafe s.windows loops threads (charge s loops threads).args
unfolding charge launch
charge-IsSafe s loops threads r t l =
    elim (Bool-cases (s.pending_bytes / bytes_per_access / threads == 0)) [
      | inl carried ↦ rw carried (idle_args-IsSafe s.windows loops threads l)
      | inr pays ↦ rw pays (record {
        chunk = stride_bounds loops _ (ground arith) (omega arith);
        from_window = λ _. (s.window, r.0, refl, refl, refl);
        wraps = λ _. (r.2, r.1);
      })
    ]

-- What `Next` hands the kernel of a launch is safe, in every case: at least one iteration between
-- two accesses and no more than the launch has; and, where it asks for traffic, a window of the
-- block with at least one word per thread and a first word inside it.
pub next-IsSafe :
    (s : MemSweep) (loop_count traffic threads : ℕ)
    → IsValid s
    → IsSafe s.windows (max loop_count 1) threads (next s loop_count traffic threads).args
next-IsSafe s loop_count traffic threads v =
    let idle = idle_args-IsSafe s.windows (max loop_count 1) threads (omega arith) in
    next_cases (λ l. IsSafe s.windows (max loop_count 1) threads l.args) s loop_count traffic
      threads v idle (λ p some_windows e. idle)
      (λ p some_windows some_threads e hit.
        let m =
          moved-IsValid s p threads ((s.pending_bytes + traffic) % u64_mod) v some_windows
            (omega arith) e in
        charge-IsSafe _ (max loop_count 1) threads (e.in_range, m.cursor some_windows, e.fits hit)
          some_threads (omega arith))

Fits-IsUsable : (segments : List ℕ) (ws : List Window) → All (Fits segments) ws → All IsUsable ws
Fits-IsUsable segments [] f = tt
Fits-IsUsable segments (w ∷ ws) f = ((f.0.nonempty, f.0.short), Fits-IsUsable segments ws f.1)

-- Every word that any thread of a launch with traffic touches, by the kernel's own walk, which goes
-- back by the window's length at most once per step, lies with its four bytes inside the segment
-- that the launch names, when the windows are inside their segments.
pub next-touches_inside :
    (s : MemSweep) (segments : List ℕ) (loop_count traffic threads tid k : ℕ)
    → IsValid s
    → All (Fits segments) s.windows
    → 0 < (next s loop_count traffic threads).args.words
    → tid < threads
    → let a = (next s loop_count traffic threads).args in
      touched_word a threads tid k * 4 + 4 ≤ get_or segments a.segment 0
next-touches_inside s segments loop_count traffic threads tid k v f t lt =
    let a = (next s loop_count traffic threads).args in
    let safe = next-IsSafe s loop_count traffic threads v in
    let (i, in_range, seg, off, words) = safe.from_window t in
    let fit = All-get_or (Fits segments) s.windows i no_window f in_range in
    let short : a.words ≤ 2 ^ 28 = rw words fit.short in
    let (room, first) = safe.wraps t in
    let inside = index-lt a threads tid k short first room lt in
    rw seg (omega (arith, fit.inside, off, words, inside))
