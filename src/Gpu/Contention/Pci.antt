-- ===== src/Gpu/Contention/Pci.antt =====
-- FormatPciBusId, CanonicalPciBusId and KfdPciBusId, src/gpu/contention/parse.cc.
pub mod Canonical
use loadmaster.Prelude.{
  ℕ, zero, suc, ◌+◌, ◌-◌, ◌*◌, ◌/◌, ◌%◌, ◌^◌, Bool, true, false, ◌||◌, List, [], ◌∷◌, ◌++◌, Option,
  none, some, Text, ltb, if◌then◌else◌,
}
use loadmaster.Gpu.Contention.Scan.{take_hex, take_char}
use loadmaster.Gpu.Contention.Scan.Hex.{hex_text}

-- `"%04x:%02x:%02x.%x"`
unfoldable pub format_pci_bus_id : ℕ → ℕ → ℕ → ℕ → Text
format_pci_bus_id domain bus device function =
    hex_text 4 domain
    ++ (b':' ∷ (hex_text 2 bus ++ (b':' ∷ (hex_text 2 device ++ (b'.' ∷ hex_text 0 function)))))

-- What is left of the loop after a field: with no colon it ends.
abbrev pub on_field :
    (Text → List ℕ → Option (List ℕ × Text))
    → List ℕ
    → ℕ
    → Text
    → Option Text
    → Option (List ℕ × Text)
on_field again fields value rest none = some (fields ++ value ∷ [], rest)
on_field again fields value rest (some more) = again more (fields ++ value ∷ [])

abbrev pub on_hex :
    (Text → List ℕ → Option (List ℕ × Text)) → List ℕ → Option (ℕ × Text) → Option (List ℕ × Text)
on_hex again fields none = none
on_hex again fields (some (value, rest)) = on_field again fields value rest (take_char b':' rest)

-- The loop over the fields: `room` is `fields.size() - count`.
pub read_fields : ℕ → Text → List ℕ → Option (List ℕ × Text)
read_fields zero s fields = none
read_fields (suc room) s fields = on_hex (read_fields room) fields (take_hex 8 s)

-- The range checks; the empty text is a failure.
unfoldable pub on_address : ℕ → ℕ → ℕ → ℕ → Text
unfolding format_pci_bus_id
on_address domain bus device function =
    if ltb 0xffff domain || ltb 0xff bus || ltb 0x1f device || ltb 7 function
    then []
    else format_pci_bus_id domain bus device function

-- `TakeHex(s, 1, function)` and nothing behind it.
abbrev pub on_function : ℕ → ℕ → ℕ → Option (ℕ × Text) → Text
on_function domain bus device none = []
on_function domain bus device (some (function, c ∷ rest)) = []
on_function domain bus device (some (function, [])) = on_address domain bus device function

abbrev pub on_dot : ℕ → ℕ → ℕ → Option Text → Text
on_dot domain bus device none = []
on_dot domain bus device (some rest) = on_function domain bus device (take_hex 1 rest)

-- With two fields the domain is 0, with three it is the first; one is too few.
abbrev pub on_fields : Option (List ℕ × Text) → Text
on_fields none = []
on_fields (some (bus ∷ device ∷ [], rest)) = on_dot 0 bus device (take_char b'.' rest)
on_fields (some (domain ∷ bus ∷ device ∷ [], rest)) = on_dot domain bus device (take_char b'.' rest)
on_fields (some (fields, rest)) = []

unfoldable pub canonical_pci_bus_id : Text → Text
unfolding read_fields
canonical_pci_bus_id text = on_fields (read_fields 3 text [])

-- `(location_id >> 8) & 0xff`, `(location_id >> 3) & 0x1f` and `location_id & 0x7`
unfoldable pub kfd_pci_bus_id : ℕ → ℕ → Text
unfolding format_pci_bus_id
kfd_pci_bus_id domain location_id =
    format_pci_bus_id domain (location_id / 2 ^ 8 % 2 ^ 8) (location_id / 2 ^ 3 % 2 ^ 5)
      (location_id % 2 ^ 3)
