-- ===== src/Gpu/Contention/Records/Sound.antt =====
-- Records of the operating systems, spelled and read back.
use loadmaster.Prelude.{
  ℕ, ◌+◌, ◌*◌, ◌^◌, ◌≤◌, ◌<◌, ◌≡◌, refl, ap, ◌∙◌, Bool, true, false, [], ◌∷◌, ◌++◌, some, Text,
  codes, arith, ◌==◌,
}
use loadmaster.Prelude.Numbers.{int_max, decimal, is_digit}
use loadmaster.Core.Options.{◌>>=◌}
use loadmaster.Gpu.Contention.Scan.{take_hex, take_prefix}
use loadmaster.Gpu.Contention.Scan.Hex.{StopsHex, hex_text, pow16, take_hex-hex_text}
use loadmaster.Gpu.Contention.Scan.Decimal.{take_decimal-decimal}
use loadmaster.Gpu.Contention.Records.{
  after_first, parse_gpu_engine_instance, skip_blanks, parse_user_client_creator,
}

-- The names of the counter set, for engine 0 of a device.
pub engine_name : ℕ → ℕ → ℕ → Text → Text
engine_name pid high low engine_type =
    codes "pid_"
    ++ (decimal pid
        ++ (codes "_luid_0x"
            ++ (hex_text 8 high
                ++ (codes "_0x"
                    ++ (hex_text 8 low
                        ++ (codes "_phys_0_eng_0" ++ (codes "_engtype_" ++ engine_type)))))))

take_prefix-append : (p s : Text) → take_prefix p (p ++ s) ≡ some s
take_prefix-append [] s = refl
take_prefix-append (c ∷ p) s = rw (same c) (take_prefix-append p s)
  where
    same : (n : ℕ) → (n == n) ≡ true
    same n = ground arith

underscore_ends : is_digit b'_' ≡ false
unfolding is_digit
underscore_ends = refl

comma_ends : is_digit b',' ≡ false
unfolding is_digit
comma_ends = refl

engtype_found :
    (t : Text)
    → after_first (codes "_engtype_") (codes "_phys_0_eng_0" ++ (codes "_engtype_" ++ t)) ≡ some t
unfolding after_first
engtype_found t = refl

pow16_8 : (n : ℕ) → n < 2 ^ 32 → n < pow16 7
pow16_8 n h = omega arith

take_hex_part :
    (n : ℕ) (rest : Text)
    → n < 2 ^ 32
    → StopsHex rest
    → take_hex 8 (hex_text 8 n ++ rest) ≡ some (n, rest)
take_hex_part n rest small stop =
    take_hex-hex_text 8 8 7 n rest (pow16_8 n small) (omega arith) (omega arith) stop
    ∙ ap (λ m. some (m, rest)) (omega arith)

-- The name of an engine instance is read back: the process, the device's LUID from its halves,
-- and the type of the engine, behind whatever the adapter is called in between.
pub parse-engine_name :
    (pid high low : ℕ) (engine_type : Text)
    → pid ≤ int_max
    → high < 2 ^ 32
    → low < 2 ^ 32
    → parse_gpu_engine_instance (engine_name pid high low engine_type)
      ≡ some (record { pid = pid; luid = high * 2 ^ 32 + low; engine_type = engine_type })
unfolding parse_gpu_engine_instance engine_name
parse-engine_name pid high low engine_type p h l =
    let tail = codes "_phys_0_eng_0" ++ (codes "_engtype_" ++ engine_type) in
    let after_high = codes "_0x" ++ (hex_text 8 low ++ tail) in
    let after_pid = codes "_luid_0x" ++ (hex_text 8 high ++ after_high) in
    rw (take_decimal-decimal pid after_pid p underscore_ends) (
      rw (take_hex_part high after_high h refl) (
        rw (take_hex_part low tail l refl) (
          ap
            (λ r.
              r >>= (λ t. some (record { pid = pid; luid = high * 2 ^ 32 + low; engine_type = t })))
            (engtype_found engine_type))))

-- `pid 123, WindowServer`
pub creator_text : ℕ → Text → Text
creator_text pid name = codes "pid " ++ (decimal pid ++ (b',' ∷ (b' ' ∷ name)))

abbrev pub starts_blank : Text → Bool
starts_blank [] = false
starts_blank (c ∷ s) = c == b' '

skip_one : (name : Text) → starts_blank name ≡ false → skip_blanks (b' ' ∷ name) ≡ name
unfolding skip_blanks
skip_one [] b = refl
skip_one (c ∷ name) b = rw b refl

-- A creator is read back: the process, and its name if that does not begin with a blank.
pub parse-creator_text :
    (pid : ℕ) (name : Text)
    → pid ≤ int_max
    → starts_blank name ≡ false
    → parse_user_client_creator (creator_text pid name) ≡ some (record { pid = pid; name = name })
unfolding parse_user_client_creator creator_text
parse-creator_text pid name p b =
    rw (take_decimal-decimal pid (b',' ∷ b' ' ∷ name) p comma_ends)
      (ap (λ t. some (record { pid = pid; name = t })) (skip_one name b))
