-- ===== src/Gpu/Sweep/Kernel.antt =====
-- The words that a thread of the busy kernel walks: src/gpu/opencl/cl_kernel.h and
-- src/gpu/intel/busy_kernel.cl, the same program.
use loadmaster.Prelude.{
  ℕ, zero, suc, ◌+◌, ◌-◌, ◌%◌, ◌^◌, ◌≤◌, ◌<◌, inl, inr, arith, leb, if◌then◌else◌, Bool-cases,
}
use loadmaster.Gpu.Sweep.{SweepArgs, u32_mod}

-- `if (idx >= mem_words) idx -= mem_words;`
abbrev pub wrap : ℕ → ℕ → ℕ
wrap mem_words idx = if leb mem_words idx then idx - mem_words else idx

-- `idx` of thread `tid` after its `k`-th chunk, in 32 bits.
pub index : SweepArgs → ℕ → ℕ → ℕ → ℕ
index a threads tid zero = wrap a.words ((a.base + tid) % u32_mod)
index a threads tid (suc k) = wrap a.words ((index a threads tid k + threads) % u32_mod)

-- Word of the segment that `win[idx]` is, both loaded and stored.
abbrev pub touched_word : SweepArgs → ℕ → ℕ → ℕ → ℕ
touched_word a threads tid k = a.offset_words + index a threads tid k

-- One subtraction is enough for a step no longer than the window.
wrap-lt :
    (words i step : ℕ)
    → words ≤ 2 ^ 28
    → i < words
    → step ≤ words
    → wrap words ((i + step) % u32_mod) < words
wrap-lt words i step short lt le = elim (Bool-cases (leb words ((i + step) % u32_mod))) [
  | inl over ↦ rw over (omega arith)
  | inr within ↦ ground arith
]

-- A thread of a launch with no more threads than the window has words stays inside the window.
pub index-lt :
    (a : SweepArgs) (threads tid k : ℕ)
    → a.words ≤ 2 ^ 28
    → a.base < a.words
    → threads ≤ a.words
    → tid < threads
    → index a threads tid k < a.words
unfolding index
index-lt a threads tid zero short lt le t = wrap-lt a.words a.base tid short lt (omega arith)
index-lt a threads tid (suc k) short lt le t =
    wrap-lt a.words (index a threads tid k) threads short (index-lt a threads tid k short lt le t)
      le
