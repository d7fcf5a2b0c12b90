-- ===== src/Util/Obfuscate.antt =====
-- The masking of embedded texts, src/util/obfuscate.h. A byte is a number below 256, an array the
-- list of its elements; `enabled` is LOADMASTER_OBFUSCATE. A write beyond a buffer gives `none`.
pub mod RoundTrip
mod Tests
use Prim.Native.Nat.{bit_xor}
use loadmaster.Prelude.{
  ℕ, zero, suc, ◌*◌, ◌/◌, ◌%◌, ◌^◌, Bool, Option, none, some, List, [], ◌∷◌, map, length,
  if◌then◌else◌,
}

-- The byte of the key and the byte of the index that go onto a byte.
abbrev pub key_byte : ℕ → ℕ → ℕ
key_byte key index = key / 2 ^ (8 * (index % 4)) % 256

abbrev pub index_byte : ℕ → ℕ
index_byte index = index % 256

-- An element written in front of what the rest of a loop writes.
abbrev pub written : ℕ → Option (List ℕ) → Option (List ℕ)
written b none = none
written b (some rest) = some (b ∷ rest)

abbrev pub zeros : ℕ → List ℕ
zeros zero = []
zeros (suc n) = 0 ∷ zeros n

-- Holder
pub record Holder : Type 0 where
  pub data_bytes : List ℕ
  pub key : ℕ

module _ (enabled : Bool) where
  unfoldable pub mix_byte : ℕ → ℕ → ℕ → ℕ
  mix_byte plain key index =
      if enabled then bit_xor (bit_xor plain (key_byte key index)) (index_byte index) else plain

  -- The byte `src[i] ^ k ^ idx` of the decoders.
  unfoldable pub unmix_byte : ℕ → ℕ → ℕ → ℕ
  unmix_byte masked key index =
      if enabled then bit_xor (bit_xor masked (key_byte key index)) (index_byte index) else masked

  -- Encode from the index `i` on, up to the terminating NUL, which is dropped.
  abbrev pub encode_from : ℕ → List ℕ → ℕ → List ℕ
  encode_from i [] key = []
  encode_from i (last ∷ []) key = []
  encode_from i (b ∷ c ∷ rest) key = mix_byte b key i ∷ encode_from (suc i) (c ∷ rest) key

  abbrev pub encode : List ℕ → ℕ → List ℕ
  encode literal key = encode_from 0 literal key

  -- Decode from the index `i` on, with the NUL behind the last byte.
  abbrev pub decode_from : ℕ → List ℕ → ℕ → List ℕ → Option (List ℕ)
  decode_from i [] key [] = none
  decode_from i [] key (d ∷ dst) = some (0 ∷ dst)
  decode_from i (b ∷ src) key [] = none
  decode_from i (b ∷ src) key (d ∷ dst) =
      written (unmix_byte b key i) (decode_from (suc i) src key dst)

  abbrev pub decode : List ℕ → ℕ → List ℕ → Option (List ℕ)
  decode src key dst = decode_from 0 src key dst

  -- DecodeBytes, which writes no NUL.
  abbrev pub decode_bytes_from : ℕ → List ℕ → ℕ → List ℕ → Option (List ℕ)
  decode_bytes_from i [] key dst = some dst
  decode_bytes_from i (b ∷ src) key [] = none
  decode_bytes_from i (b ∷ src) key (d ∷ dst) =
      written (unmix_byte b key i) (decode_bytes_from (suc i) src key dst)

  abbrev pub decode_bytes : List ℕ → ℕ → List ℕ → Option (List ℕ)
  decode_bytes src key dst = decode_bytes_from 0 src key dst

  -- Make
  abbrev pub make : List ℕ → ℕ → Holder
  make literal key = record { data_bytes = encode literal key; key = key }

  -- The buffer of a Scoped, and of a ScopedHolder.
  abbrev pub scoped : List ℕ → ℕ → Option (List ℕ)
  scoped src key = decode src key (zeros (suc (length src)))

  abbrev pub scoped_holder : Holder → Option (List ℕ)
  scoped_holder h = scoped h.data_bytes h.key

-- The buffer after the destructor.
abbrev pub wiped : List ℕ → List ℕ
wiped buffer = map (λ b. 0) buffer
