-- ===== src/Util/Obfuscate/RoundTrip.antt =====
-- A masked text is read back as it was.
use Prim.Native.Nat.{bit_xor}
use loadmaster.Prelude.{
  ℕ, zero, suc, ◌<◌, ◌≡◌, refl, ap, ◌∙◌, Bool, true, false, some, List, [], ◌∷◌, ◌++◌, length,
  length-append, All, arith,
}
use loadmaster.Prelude.Bits.{bit_xor-lt, bit_xor-swap, bit_xor-undoes}
use loadmaster.Util.Obfuscate.{
  key_byte, index_byte, written, zeros, mix_byte, unmix_byte, encode_from, encode, decode_from,
  decode_bytes_from, decode_bytes, make, scoped_holder, wiped,
}

-- Two masks put on and taken off in the same order.
masks-undo :
    (p k i : ℕ) → p < 256 → k < 256 → i < 256 → bit_xor (bit_xor (bit_xor (bit_xor p k) i) k) i ≡ p
masks-undo p k i hp hk hi =
    let pk : bit_xor p k < 256 = bit_xor-lt 8 p k hp hk in
    ap (λ t. bit_xor t i) (bit_xor-swap 8 (bit_xor p k) i k pk hi hk)
    ∙ bit_xor-undoes 8 (bit_xor (bit_xor p k) k) i (bit_xor-lt 8 (bit_xor p k) k pk hk) hi
    ∙ bit_xor-undoes 8 p k hp hk

unmix-mix :
    (enabled : Bool) (key index b : ℕ)
    → b < 256
    → unmix_byte enabled (mix_byte enabled b key index) key index ≡ b
unfolding unmix_byte mix_byte
unmix-mix true key index b h =
    masks-undo b (key_byte key index) (index_byte index) h (omega arith) (omega arith)
unmix-mix false key index b h = refl

module _ (enabled : Bool) (key : ℕ) where
  -- A byte in front of a terminated text.
  encode_before :
      (i b : ℕ) (text : List ℕ)
      → encode_from enabled i (b ∷ (text ++ 0 ∷ [])) key
        ≡ mix_byte enabled b key i ∷ encode_from enabled (suc i) (text ++ 0 ∷ []) key
  encode_before i b [] = refl
  encode_before i b (c ∷ text) = refl

  length-encode :
      (i : ℕ) (text : List ℕ) → length (encode_from enabled i (text ++ 0 ∷ []) key) ≡ length text
  length-encode i [] = refl
  length-encode i (b ∷ text) =
      ap length (encode_before i b text) ∙ ap suc (length-encode (suc i) text)

  -- Decode over what Encode made of a terminated text, into a buffer with a place more.
  decode-encode :
      (i : ℕ) (text dst : List ℕ)
      → All (λ b. b < 256) text
      → length dst ≡ suc (length text)
      → decode_from enabled i (encode_from enabled i (text ++ 0 ∷ []) key) key dst
        ≡ some (text ++ 0 ∷ [])
  decode-encode i [] [] a e = absurd (omega (arith, e))
  decode-encode i [] (d ∷ []) a e = refl
  decode-encode i [] (d ∷ c ∷ dst) a e = absurd (omega (arith, e))
  decode-encode i (b ∷ text) [] a e = absurd (omega (arith, e))
  decode-encode i (b ∷ text) (d ∷ dst) a e =
      ap (λ src. decode_from enabled i src key (d ∷ dst)) (encode_before i b text)
      ∙ ap (written (unmix_byte enabled (mix_byte enabled b key i) key i))
          (decode-encode (suc i) text dst a.1 (omega (arith, e)))
      ∙ ap (λ c. some (c ∷ (text ++ 0 ∷ []))) (unmix-mix enabled key i b a.0)

  decode_bytes-encode :
      (i : ℕ) (text dst : List ℕ)
      → All (λ b. b < 256) text
      → length dst ≡ length text
      → decode_bytes_from enabled i (encode_from enabled i (text ++ 0 ∷ []) key) key dst ≡ some text
  decode_bytes-encode i [] [] a e = refl
  decode_bytes-encode i [] (d ∷ dst) a e = absurd (omega (arith, e))
  decode_bytes-encode i (b ∷ text) [] a e = absurd (omega (arith, e))
  decode_bytes-encode i (b ∷ text) (d ∷ dst) a e =
      ap (λ src. decode_bytes_from enabled i src key (d ∷ dst)) (encode_before i b text)
      ∙ ap (written (unmix_byte enabled (mix_byte enabled b key i) key i))
          (decode_bytes-encode (suc i) text dst a.1 (omega (arith, e)))
      ∙ ap (λ c. some (c ∷ text)) (unmix-mix enabled key i b a.0)

  length-zeros : (n : ℕ) → length (zeros n) ≡ n
  length-zeros zero = refl
  length-zeros (suc n) = ap suc (length-zeros n)

  wiped-zeros : (buffer : List ℕ) → wiped buffer ≡ zeros (length buffer)
  wiped-zeros [] = refl
  wiped-zeros (b ∷ buffer) = ap (λ rest. 0 ∷ rest) (wiped-zeros buffer)

  -- Whatever the key and whether masking is on, a text of bytes is read back from what is embedded
  -- of it: the buffer of a ScopedHolder is exactly the text with its terminating NUL, which
  -- the destructor leaves full of zeros, and DecodeBytes writes exactly the text into a buffer of its
  -- size.
  pub decoders-make :
      (text dst : List ℕ)
      → All (λ b. b < 256) text
      → length dst ≡ length text
      → (scoped_holder enabled (make enabled (text ++ 0 ∷ []) key) ≡ some (text ++ 0 ∷ []))
        × (wiped (text ++ 0 ∷ []) ≡ zeros (suc (length text)))
        × (decode_bytes enabled (encode enabled (text ++ 0 ∷ []) key) key dst ≡ some text)
  decoders-make text dst a e =
      let total : length (text ++ 0 ∷ []) ≡ suc (length text) =
        omega (arith, length-append text (0 ∷ [])) in
      let room = length-zeros (length (encode enabled (text ++ 0 ∷ []) key)) in
      (
        decode-encode 0 text (zeros (suc (length (encode enabled (text ++ 0 ∷ []) key)))) a
            (omega (arith, room, length-encode 0 text)),
        wiped-zeros (text ++ 0 ∷ []) ∙ ap zeros total,
        decode_bytes-encode 0 text dst a e,
      )
