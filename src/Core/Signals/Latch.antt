-- ===== src/Core/Signals/Latch.antt =====
-- The latch is a set of signals.
use Prim.Native.Nat.{bit_and, bit_or}
use loadmaster.Prelude.{
  ℕ, zero, suc, ◌-◌, ◌*◌, ◌/◌, ◌≤◌, ◌<◌, ◌≡◌, ap, ◌∙◌, Bool, false, not, ◌&&◌, ◌||◌, ◌==◌, arith,
  List, [], ◌∷◌, All,
}
use loadmaster.Prelude.Bits.{
  bit, power, power_pos, bit-bit_and, bit-bit_or, bit-power, bit_zero, bit-complement,
  bit_and-power,
}
use loadmaster.Core.Signals.{all_ones, empty_bitmap, has, set_signal, reset_signal}

bit-le-one : (x place : ℕ) → bit x place ≤ 1
bit-le-one x zero = omega arith
bit-le-one x (suc place) = bit-le-one (x / 2) place

has_one : (b p : ℕ) → b ≤ 1 → 1 ≤ p → (b * p == p) ≡ (b == 1)
has_one zero p h k = ground arith
has_one (suc zero) p h k = ground arith
has_one (suc (suc b)) p h k = absurd (omega (arith, h))

-- A signal is pending if its digit is set.
has-bit : (signal bitmap : ℕ) → has signal bitmap ≡ (bit bitmap signal == 1)
unfolding has
has-bit signal bitmap =
    ap (λ t. t == power signal) (bit_and-power signal bitmap)
    ∙ has_one (bit bitmap signal) (power signal) (bit-le-one bitmap signal) (power_pos signal)

power-lt : (k n : ℕ) → k < n → power k < power n
power-lt k zero h = absurd (omega (arith, h))
power-lt zero (suc n) h = omega (arith, power_pos n)
power-lt (suc k) (suc n) h = omega (arith, power-lt k n (omega (arith, h)))

pub has-set :
    (signal other bitmap : ℕ)
    → has other (set_signal signal bitmap) ≡ ((signal == other) || has other bitmap)
unfolding set_signal
has-set signal other bitmap =
    rw
      (
        has-bit other (bit_or bitmap (power signal)),
        has-bit other bitmap,
        bit-bit_or other bitmap (power signal),
        bit-power signal other,
      )
      (ground (arith, bit-le-one bitmap other))

pub has-reset :
    (signal other bitmap : ℕ)
    → signal < 64
    → other < 64
    → has other (reset_signal signal bitmap) ≡ (not (signal == other) && has other bitmap)
unfolding reset_signal
has-reset signal other bitmap h k =
    let turned = bit-complement 64 other (power signal) k (power-lt signal 64 h) in
    rw
      (
        has-bit other (bit_and bitmap (all_ones - power signal)),
        has-bit other bitmap,
        bit-bit_and other bitmap (all_ones - power signal),
      )
      (ground (arith, turned, bit-power signal other, bit-le-one bitmap other))

-- Operations on the latch.
pub data Operation : Type 0 where
  sets resets : ℕ → Operation

abbrev pub operate : List Operation → ℕ
operate [] = empty_bitmap
operate (sets n ∷ earlier) = set_signal n (operate earlier)
operate (resets n ∷ earlier) = reset_signal n (operate earlier)

abbrev pub signal_of : Operation → ℕ
signal_of (sets n) = n
signal_of (resets n) = n

-- The last operation on a signal, if any, set it; the latest operation stands first.
abbrev pub last_sets : ℕ → List Operation → Bool
last_sets other [] = false
last_sets other (sets n ∷ earlier) = (n == other) || last_sets other earlier
last_sets other (resets n ∷ earlier) = not (n == other) && last_sets other earlier

-- After any operations on signals below 64, in whatever order the threads and the signal handlers
-- make them, a signal is pending exactly if the last operation on it set it.
pub operate-has :
    (other : ℕ) (operations : List Operation)
    → other < 64
    → All (λ o. signal_of o < 64) operations
    → has other (operate operations) ≡ last_sets other operations
operate-has other [] k a = has-bit other 0 ∙ rw (bit_zero other) (ground arith)
operate-has other (sets n ∷ earlier) k a =
    has-set n other (operate earlier)
    ∙ ap (λ b. (n == other) || b) (operate-has other earlier k a.1)
operate-has other (resets n ∷ earlier) k a =
    has-reset n other (operate earlier) a.0 k
    ∙ ap (λ b. not (n == other) && b) (operate-has other earlier k a.1)
