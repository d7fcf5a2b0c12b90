-- ===== src/Gpu/Contention/Pci/Canonical.antt =====
-- The canonical form of an address.
use mathlib.Core.List.{append-nil}
use loadmaster.Prelude.{
  ℕ, suc, ◌+◌, ◌*◌, ◌/◌, ◌%◌, ◌^◌, ◌≤◌, ◌<◌, ◌≡◌, refl, sym, ap, ◌∙◌, inl, inr, ◌⊎◌, false, ◌||◌,
  Bool-cases, List, [], ◌∷◌, ◌++◌, Option, none, some, Text, ltb, arith,
}
use loadmaster.Gpu.Contention.Scan.{take_hex, take_char}
use loadmaster.Gpu.Contention.Scan.Hex.{hex_text, pow16, take_hex-hex_text, StopsHex}
use loadmaster.Gpu.Contention.Pci.{
  format_pci_bus_id, on_hex, read_fields, on_address, on_function, on_dot, on_fields,
  canonical_pci_bus_id, kfd_pci_bus_id,
}

-- The addresses there are.
pub record IsAddress (domain bus device function : ℕ) : Type 0 where
  pub domain_16 : domain ≤ 0xffff
  pub bus_8 : bus ≤ 0xff
  pub device_5 : device ≤ 0x1f
  pub function_3 : function ≤ 7

-- Reading a field that fits four digits.
take_field :
    (left width k n : ℕ) (rest : Text)
    → n < pow16 k
    → k ≤ 3
    → suc k ≤ left
    → width ≤ left
    → n < 2 ^ 32
    → StopsHex rest
    → take_hex left (hex_text width n ++ rest) ≡ some (n, rest)
take_field left width k n rest small digits room wide word stop =
    take_hex-hex_text left width k n rest small room wide stop
    ∙ ap (λ m. some (m, rest)) (omega arith)

module _ (room width n : ℕ) (rest : Text) (fields : List ℕ) (small : n ≤ 0xffff)
    (wide : width ≤ 4) where
  read_fields-colon :
      read_fields (suc room) (hex_text width n ++ (b':' ∷ rest)) fields
      ≡ read_fields room rest (fields ++ n ∷ [])
  unfolding read_fields
  read_fields-colon = ap (on_hex (read_fields room) fields) (
      take_field 8 width 3 n (b':' ∷ rest) (omega arith) (omega arith) (omega arith) (omega arith)
        (omega arith) refl)

  read_fields-dot :
      read_fields (suc room) (hex_text width n ++ (b'.' ∷ rest)) fields
      ≡ some (fields ++ n ∷ [], b'.' ∷ rest)
  unfolding read_fields
  read_fields-dot = ap (on_hex (read_fields room) fields) (
      take_field 8 width 3 n (b'.' ∷ rest) (omega arith) (omega arith) (omega arith) (omega arith)
        (omega arith) refl)

on_address_lem :
    (domain bus device function : ℕ)
    → IsAddress domain bus device function
    → on_address domain bus device function ≡ format_pci_bus_id domain bus device function
unfolding on_address
on_address_lem domain bus device function a =
    let no : (x y : ℕ) → y ≤ x → ltb x y ≡ false = λ x y h. ground arith in
    rw (no _ _ a.domain_16, no _ _ a.bus_8, no _ _ a.device_5, no _ _ a.function_3) refl

function_read :
    (domain bus device function : ℕ)
    → IsAddress domain bus device function
    → on_function domain bus device (take_hex 1 (hex_text 0 function))
      ≡ format_pci_bus_id domain bus device function
function_read domain bus device function a =
    ap (λ t. on_function domain bus device (take_hex 1 t)) (sym (append-nil (hex_text 0 function)))
    ∙ ap (on_function domain bus device) (
        take_field 1 0 0 function [] (omega (arith, a.function_3)) (omega arith) (omega arith)
          (omega arith) (omega (arith, a.function_3)) tt)
    ∙ on_address_lem domain bus device function a

-- An address that there is, formatted, is its own canonical form.
pub canonical-format :
    (domain bus device function : ℕ)
    → IsAddress domain bus device function
    → canonical_pci_bus_id (format_pci_bus_id domain bus device function)
      ≡ format_pci_bus_id domain bus device function
unfolding canonical_pci_bus_id format_pci_bus_id
canonical-format domain bus device function a =
    let last = b'.' ∷ hex_text 0 function in
    ap on_fields (
      read_fields-colon 2 4 domain (hex_text 2 bus ++ (b':' ∷ (hex_text 2 device ++ last))) []
        a.domain_16 (omega arith)
      ∙ read_fields-colon 1 2 bus (hex_text 2 device ++ last) (domain ∷ []) (omega (arith, a.bus_8))
          (omega arith)
      ∙ read_fields-dot 0 2 device (hex_text 0 function) (domain ∷ bus ∷ [])
          (omega (arith, a.device_5)) (omega arith))
    ∙ function_read domain bus device function a

-- The short form, without a domain, stands for domain 0.
pub canonical_short :
    (bus device function : ℕ)
    → IsAddress 0 bus device function
    → canonical_pci_bus_id
        (hex_text 2 bus ++ (b':' ∷ (hex_text 2 device ++ (b'.' ∷ hex_text 0 function))))
      ≡ format_pci_bus_id 0 bus device function
unfolding canonical_pci_bus_id
canonical_short bus device function a =
    let last = b'.' ∷ hex_text 0 function in
    ap on_fields (
      read_fields-colon 2 2 bus (hex_text 2 device ++ last) [] (omega (arith, a.bus_8))
        (omega arith)
      ∙ read_fields-dot 1 2 device (hex_text 0 function) (bus ∷ []) (omega (arith, a.device_5))
          (omega arith))
    ∙ function_read 0 bus device function a

-- What the result can be: nothing, or an address that there is, formatted.
IsCanonical : Text → Type 0
IsCanonical t =
    (t ≡ [])
    ⊎ ((domain : ℕ) × (bus : ℕ) × (device : ℕ) × (function : ℕ) × IsAddress domain bus device
          function
        × (t ≡ format_pci_bus_id domain bus device function))

on_address-IsCanonical :
    (domain bus device function : ℕ) → IsCanonical (on_address domain bus device function)
unfolding on_address IsCanonical
on_address-IsCanonical domain bus device function =
    elim (Bool-cases (ltb 0xffff domain || ltb 0xff bus || ltb 0x1f device || ltb 7 function)) [
      | inl bad ↦ rw bad (inl refl)
      | inr fine ↦ rw fine (
          inr (
            domain,
            bus,
            device,
            function,
            record {
              domain_16 = ground arith;
              bus_8 = ground arith;
              device_5 = ground arith;
              function_3 = ground arith;
            },
            refl,
          ))
    ]

on_function-IsCanonical :
    (domain bus device : ℕ) (r : Option (ℕ × Text)) → IsCanonical (on_function domain bus device r)
unfolding IsCanonical
on_function-IsCanonical domain bus device none = inl refl
on_function-IsCanonical domain bus device (some (function, c ∷ rest)) = inl refl
on_function-IsCanonical domain bus device (some (function, [])) =
    on_address-IsCanonical domain bus device function

on_dot-IsCanonical :
    (domain bus device : ℕ) (r : Option Text) → IsCanonical (on_dot domain bus device r)
unfolding IsCanonical
on_dot-IsCanonical domain bus device none = inl refl
on_dot-IsCanonical domain bus device (some rest) =
    on_function-IsCanonical domain bus device (take_hex 1 rest)

on_fields-IsCanonical : (r : Option (List ℕ × Text)) → IsCanonical (on_fields r)
unfolding IsCanonical
on_fields-IsCanonical none = inl refl
on_fields-IsCanonical (some ([], rest)) = inl refl
on_fields-IsCanonical (some (a ∷ [], rest)) = inl refl
on_fields-IsCanonical (some (a ∷ b ∷ [], rest)) = on_dot-IsCanonical 0 a b (take_char b'.' rest)
on_fields-IsCanonical (some (a ∷ b ∷ c ∷ [], rest)) = on_dot-IsCanonical a b c (take_char b'.' rest)
on_fields-IsCanonical (some (a ∷ b ∷ c ∷ d ∷ more, rest)) = inl refl

-- Whatever the text, its canonical form is its own: nothing for what is no address, and else one
-- spelling for each address.
pub canonical_idempotent :
    (text : Text) → canonical_pci_bus_id (canonical_pci_bus_id text) ≡ canonical_pci_bus_id text
unfolding canonical_pci_bus_id IsCanonical take_hex
canonical_idempotent text = elim (on_fields-IsCanonical (read_fields 3 text [])) [
  | inl nothing ↦ rw nothing refl
  | inr (domain, bus, device, function, a, same) ↦
      ap canonical_pci_bus_id same ∙ canonical-format domain bus device function a ∙ sym same
]

kfd_unpacked :
    (domain bus device function : ℕ)
    → IsAddress domain bus device function
    → kfd_pci_bus_id domain (bus * 2 ^ 8 + device * 2 ^ 3 + function)
      ≡ format_pci_bus_id domain bus device function
unfolding kfd_pci_bus_id
kfd_unpacked domain bus device function a =
    let id = bus * 256 + device * 8 + function in
    let b : id / 256 % 256 ≡ bus = omega (arith, a.bus_8, a.device_5, a.function_3) in
    let d : id / 8 % 32 ≡ device = omega (arith, a.bus_8, a.device_5, a.function_3) in
    let f : id % 8 ≡ function = omega (arith, a.bus_8, a.device_5, a.function_3) in
    ap (λ x. format_pci_bus_id domain x (id / 8 % 32) (id % 8)) b
    ∙ ap (λ x. format_pci_bus_id domain bus x (id % 8)) d
    ∙ ap (λ x. format_pci_bus_id domain bus device x) f

-- The location that the kernel packs for a device, unpacked by the KFD source, is the canonical
-- text of the device's own address: the two sides of a comparison meet.
pub kfd-canonical :
    (domain bus device function : ℕ)
    → IsAddress domain bus device function
    → kfd_pci_bus_id domain (bus * 2 ^ 8 + device * 2 ^ 3 + function)
      ≡ canonical_pci_bus_id (format_pci_bus_id domain bus device function)
kfd-canonical domain bus device function a =
    kfd_unpacked domain bus device function a ∙ sym (canonical-format domain bus device function a)
