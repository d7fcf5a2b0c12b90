-- ===== src/Util/Obfuscate/Tests.antt =====
-- Runs of the masking.
use loadmaster.Prelude.{◌≡◌, refl, true, some, [], ◌∷◌, arith}
use loadmaster.Util.Obfuscate.{mix_byte, decode_bytes, encode, make, scoped_holder, wiped, zeros}
use loadmaster.Util.Obfuscate.RoundTrip.{decoders-make}

-- The masked bytes of `a`, `a`, `b` under the key 0x5BD49E03.
encode-aab : encode true (97 ∷ 97 ∷ 98 ∷ 0 ∷ []) 1540660739 ≡ 98 ∷ 254 ∷ 180 ∷ []
unfolding mix_byte
encode-aab = refl

decoders-make_example :
    (scoped_holder true (make true (97 ∷ 97 ∷ 98 ∷ 0 ∷ []) 1540660739)
      ≡ some (97 ∷ 97 ∷ 98 ∷ 0 ∷ []))
    × (wiped (97 ∷ 97 ∷ 98 ∷ 0 ∷ []) ≡ zeros 4)
    × (decode_bytes true
          (encode true (97 ∷ 97 ∷ 98 ∷ 0 ∷ []) 1540660739)
          1540660739
          (1 ∷ 2 ∷ 3 ∷ [])
        ≡ some (97 ∷ 97 ∷ 98 ∷ []))
decoders-make_example =
    decoders-make true 1540660739 (97 ∷ 97 ∷ 98 ∷ []) (1 ∷ 2 ∷ 3 ∷ [])
      (omega arith, (omega arith, (omega arith, tt))) refl
