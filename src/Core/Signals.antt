-- ===== src/Core/Signals.antt =====
-- The latch of pending signals: AtomicBitmap, src/util/atomic_bitmap.h, over 64 bits, and SignalFlag,
-- src/core/signal_flag.h. A signal is a number below 64, as its assertions demand; each function is
-- one atomic operation. Then the main loop of src/core/runtime.cc with DealSignals; the numbers of
-- the signals are the operating system's, so they are parameters.
pub mod Latch
pub mod Handling
mod Tests
use Prim.Native.Nat.{bit_and, bit_or}
use loadmaster.Prelude.{ℕ, zero, suc, ◌-◌, Bool, true, false, List, [], ◌∷◌, ◌==◌}
use loadmaster.Prelude.Bits.{power}

-- The largest `uint64_t`.
abbrev pub all_ones : ℕ
all_ones = power 64 - 1

-- AtomicBitmap: the constructor, `Test`, `Set`, `Reset` and `Clear`.
abbrev pub empty_bitmap : ℕ
empty_bitmap = 0

abbrev pub test_bits : ℕ → ℕ → Bool
test_bits bitmap bits = bit_and bitmap bits == bits

abbrev pub set_bits : ℕ → ℕ → ℕ
set_bits bitmap bits = bit_or bitmap bits

abbrev pub reset_bits : ℕ → ℕ → ℕ
reset_bits bitmap bits = bit_and bitmap (all_ones - bits)

-- SignalFlag
abbrev pub mask_of : ℕ → ℕ
mask_of signal = power signal

unfoldable pub has : ℕ → ℕ → Bool
has signal bitmap = test_bits bitmap (mask_of signal)

unfoldable pub set_signal : ℕ → ℕ → ℕ
set_signal signal bitmap = set_bits bitmap (mask_of signal)

unfoldable pub reset_signal : ℕ → ℕ → ℕ
reset_signal signal bitmap = reset_bits bitmap (mask_of signal)

-- What the loop and the signal handlers share: the pending signals and `running_flag_`.
pub record Signalled : Type 0 where
  pub pending : ℕ
  pub running : Bool

-- SigIntTerm, and SigUsr1 and SigUsr2, which do nothing.
pub data Reaction : Type 0 where
  stop ignore : Reaction

pub record Handler : Type 0 where
  pub signal : ℕ
  pub reaction : Reaction

abbrev pub react : Reaction → Bool → Bool
react stop running = false
react ignore running = running

-- On whether the handler's signal is pending.
abbrev pub handle_on : Bool → Handler → Signalled → Signalled
handle_on true h s = record {
  pending = reset_signal h.signal s.pending;
  running = react h.reaction s.running;
}
handle_on false h s = s

unfoldable pub handle : Handler → Signalled → Signalled
handle h s = handle_on (has h.signal s.pending) h s

-- DealSignals, for the handlers in order.
abbrev pub deal_signals : List Handler → Signalled → Signalled
deal_signals [] s = s
deal_signals (h ∷ hs) s = deal_signals hs (handle h s)

-- The signals that come in, each set by the process's handler.
abbrev pub arrive : List ℕ → Signalled → Signalled
arrive [] s = s
arrive (n ∷ ns) s = arrive ns (record s { pending = set_signal n s.pending })

-- MainLoop: how often it schedules, for the signals that come in before each tick.
abbrev pub ticks_on : Bool → ℕ → ℕ
ticks_on true more = suc more
ticks_on false more = zero

unfoldable pub main_loop : List Handler → Signalled → List (List ℕ) → ℕ
main_loop hs s [] = zero
main_loop hs s (ns ∷ rest) = ticks_on s.running (main_loop hs (deal_signals hs (arrive ns s)) rest)

module _ (sigint sigterm sigusr1 sigusr2 : ℕ) where
  -- `meta_signal_handlers_`, as built where it is not Windows.
  abbrev pub handlers : List Handler
  handlers =
      record { signal = sigint; reaction = stop }
      ∷ record { signal = sigterm; reaction = stop }
      ∷ record { signal = sigusr1; reaction = ignore }
      ∷ record { signal = sigusr2; reaction = ignore }
      ∷ []
