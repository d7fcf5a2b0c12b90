-- ===== src/Gpu/Sweep.antt =====
-- MemSweep, src/gpu/mem_sweep.h and mem_sweep.cc: the walk of the busy kernel over the `-gm` block.
pub mod Layout
pub mod Search
pub mod Kernel
pub mod Bounds
pub mod Traffic
pub mod Empty
pub mod Windows
mod Tests
use loadmaster.Prelude.{
  ℕ, zero, suc, ◌+◌, ◌-◌, ◌*◌, ◌/◌, ◌%◌, ◌^◌, min, max, Bool, true, false, ◌||◌, List, [], ◌∷◌,
  ◌++◌, ltb, leb, ◌==◌, if◌then◌else◌, length, get_or,
}

abbrev pub u32_mod : ℕ
u32_mod = 2 ^ 32

abbrev pub u64_mod : ℕ
u64_mod = 2 ^ 64

-- kGpuMemSweepWindowMaxBytes
abbrev pub window_max_bytes : ℕ
window_max_bytes = 2 ^ 30

-- kGpuMemTrafficBytesPerAccess
abbrev pub bytes_per_access : ℕ
bytes_per_access = 8

-- sizeof(std::uint32_t)
abbrev pub word_bytes : ℕ
word_bytes = 4

pub record SweepArgs : Type 0 where
  pub segment : ℕ
  pub offset_words : ℕ
  pub words : ℕ
  pub base : ℕ
  pub stride : ℕ

pub record Window : Type 0 where
  pub segment : ℕ
  pub offset_words : ℕ
  pub words : ℕ

pub record MemSweep : Type 0 where
  pub windows : List Window
  pub window : ℕ
  pub cursor : ℕ
  pub pending_bytes : ℕ

abbrev pub no_window : Window
no_window = record { segment = 0; offset_words = 0; words = 0 }

abbrev pub cleared : MemSweep
cleared = record { windows = []; window = 0; cursor = 0; pending_bytes = 0 }

unfoldable pub clear : MemSweep → MemSweep
clear s = record s { windows = []; window = 0; cursor = 0; pending_bytes = 0 }

-- `if (words > 0) windows_.push_back(...)`, in front of what the later rounds push.
abbrev pub push_window : ℕ → ℕ → ℕ → List Window → List Window
push_window seg offset_words words rest =
    if ltb 0 words
    then record { segment = seg; offset_words = offset_words; words = words } ∷ rest
    else rest

-- The inner loop of `Reset` from `offset` on; `bytes` is `segment_bytes[seg]`.
pub segment_windows : ℕ → ℕ → ℕ → ℕ → List Window
segment_windows zero seg bytes offset = []
segment_windows (suc fuel) seg bytes offset =
    let rest = segment_windows fuel seg bytes ((offset + window_max_bytes) % u64_mod) in
    let words = (min (bytes - offset) window_max_bytes / word_bytes) % u32_mod in
    if ltb offset bytes then push_window seg (offset / word_bytes) words rest else []

-- The outer loop of `Reset`. A segment of `bytes` bytes takes `bytes / 2^30 + 1` rounds at most.
pub all_windows : ℕ → List ℕ → List Window
all_windows seg [] = []
all_windows seg (bytes ∷ more) =
    segment_windows (bytes / window_max_bytes + 2) seg bytes 0 ++ all_windows (suc seg) more

unfoldable pub reset : MemSweep → List ℕ → MemSweep
unfolding clear
reset s segment_bytes = record (clear s) { windows = all_windows 0 segment_bytes }

-- Where the search for a window that can take the launch ends, and whether it found one.
pub record Position : Type 0 where
  pub window : ℕ
  pub cursor : ℕ
  pub found : Bool

-- `while (windows_[window_].words < threads)`: `left` is `windows_.size() - tries`.
pub skip : ℕ → List Window → ℕ → ℕ → ℕ → Position
skip zero ws threads window cursor = record { window = window; cursor = cursor; found = false }
skip (suc left) ws threads window cursor =
    let next = skip left ws threads ((window + 1) % length ws) 0 in
    if leb threads (get_or ws window no_window).words
    then record { window = window; cursor = cursor; found = true }
    else if left == 0
    then record { window = window; cursor = cursor; found = false }
    else next

-- What `Next` returns beside the new state.
pub record Launch : Type 0 where
  pub sweep : MemSweep
  pub args : SweepArgs

-- `SweepArgs args;` with its stride set.
abbrev pub idle_args : ℕ → SweepArgs
idle_args stride = record { segment = 0; offset_words = 0; words = 0; base = 0; stride = stride }

-- At most one access per iteration.
abbrev pub accesses_of : ℕ → ℕ → ℕ
accesses_of per_thread loops = min per_thread loops

abbrev pub stride_of : ℕ → ℕ → ℕ
stride_of loops accesses = (loops + accesses - 1) / accesses

-- Words of the window that a launch touches.
abbrev pub touched_of : ℕ → ℕ → ℕ → ℕ
touched_of loops stride threads = (loops + stride - 1) / stride * threads

-- The last part of `Next`, for a launch of `per_thread > 0` accesses on window `w`.
unfoldable pub launch : MemSweep → Window → ℕ → ℕ → ℕ → Launch
launch s w loops threads per_thread =
    let stride = stride_of loops (accesses_of per_thread loops) in
    let touched = touched_of loops stride threads in
    let paid = s.pending_bytes - min s.pending_bytes ((touched * bytes_per_access) % u64_mod) in
    let kept = min paid (threads * bytes_per_access - 1) in
    record {
      sweep =
          if leb (w.words - s.cursor) touched
          then record s {
            window = (s.window + 1) % length s.windows;
            cursor = 0;
            pending_bytes = kept;
          }
          else record s { cursor = (s.cursor + touched % u32_mod) % u32_mod; pending_bytes = kept };
      args = record {
        segment = w.segment;
        offset_words = w.offset_words;
        words = w.words;
        base = s.cursor;
        stride = stride;
      };
    }

-- `Next` once a window has been found, with the traffic asked for added to `pending_bytes_`.
unfoldable pub charge : MemSweep → ℕ → ℕ → Launch
unfolding launch
charge s loops threads =
    let per_thread = s.pending_bytes / bytes_per_access / threads in
    if per_thread == 0
    then record { sweep = s; args = idle_args loops }
    else launch s (get_or s.windows s.window no_window) loops threads per_thread

-- `loop_count` is an `int`; what the code uses of a negative one is `max(loop_count, 1)`.
unfoldable pub next : MemSweep → ℕ → ℕ → ℕ → Launch
unfolding charge
next s loop_count traffic_bytes threads =
    let loops = max loop_count 1 in
    if length s.windows == 0 || threads == 0
    then record { sweep = s; args = idle_args loops }
    else (let p = skip (length s.windows) s.windows threads s.window s.cursor in
        let moved = record s { window = p.window; cursor = p.cursor } in
        if p.found
        then charge (record moved { pending_bytes = (s.pending_bytes + traffic_bytes) % u64_mod })
            loops threads
        else record { sweep = moved; args = idle_args loops })
