-- ===== src/Parsers/S7comm/Bounds.antt =====
-- The texts that app/parsers/s7comm.py takes from records are no longer than their fields, so
-- they pass the validation of the fingerprint.
use ot_asset_discovery.Parsers.S7comm.Results.{
  under, latest, earliest, name_or_extra, module_records_lem, component_fields,
  component_records_lem, copyright_version, firmware_records_lem,
}
use ot_asset_discovery.Parsers.S7comm.Identity.{
  Identity, no_fields, or_else, field, module_records, parse_szl_0011, component_records,
  looks_like_version, version_of, firmware_records, parse_szl_001c, parse_szl_identity,
}
use ot_asset_discovery.Parsers.S7comm.Records.{
  records_of, before_null, decode_ascii_replace, nonempty, decode_null_padded,
}
use ot_asset_discovery.Parsers.{Bytes, be16}
use ot_asset_discovery.Prelude.{
  ℕ, ◌≤◌, ◌≡◌, refl, inl, inr, Option, none, some, List, [], ◌∷◌, arith, nat_eq, Bool-cases, length,
  take, drop, length-take, length-drop, Text,
}
use ot_asset_discovery.Prelude.Strings.{length-strip}

-- Within the shortest length that the model allows.
abbrev pub Short : Option Text → Type 0
Short none = Unit
Short (some s) = length s ≤ 64

pub record IsShort (i : Identity) : Type 0 where
  pub plc_type : Short i.plc_type
  pub module_name : Short i.module_name
  pub firmware_version : Short i.firmware_version
  pub serial_number : Short i.serial_number

length-before_null : (bs : Bytes) → length (before_null bs) ≤ length bs
length-before_null [] = omega arith
length-before_null (b ∷ bs) = ground (arith, length-before_null bs)

length-decode : (bs : Bytes) → length (decode_ascii_replace bs) ≡ length bs
length-decode [] = refl
length-decode (b ∷ bs) = omega (arith, length-decode bs)

nonempty-Short : (s : Text) → length s ≤ 64 → Short (nonempty s)
nonempty-Short [] h = tt
nonempty-Short (c ∷ s) h = h

field-Short : (first last : ℕ) (part : Bytes) → last ≤ 64 → Short (field first last part)
unfolding decode_null_padded
field-Short first last part h =
    let bs = drop first (take last part) in
    nonempty-Short _ (
      omega (
        arith,
        h,
        length-strip (decode_ascii_replace (before_null bs)),
        length-decode (before_null bs),
        length-before_null bs,
        length-drop first (take last part),
        length-take last part,
      ))

or_else-Short : (a b : Option Text) → Short a → Short b → Short (or_else a b)
or_else-Short none b g h = h
or_else-Short (some s) b g h = g

version_of-Short : (o : Option Text) → Short o → Short (version_of o)
version_of-Short none h = tt
version_of-Short (some s) h = elim (Bool-cases (looks_like_version s)) [
  | inl e ↦ rw e h
  | inr e ↦ rw e tt
]

-- A field that is short in every record is short where it is taken from.
AllShort : (Bytes → Option Text) → Type 0
AllShort f = (part : Bytes) → Short (f part)

under-Short : (index : ℕ) (f : Bytes → Option Text) → AllShort f → AllShort (under index f)
unfolding AllShort
under-Short index f h part = elim (Bool-cases (nat_eq (be16 part 0) index)) [
  | inl e ↦ rw e (h part)
  | inr e ↦ rw e tt
]

latest-Short : (f : Bytes → Option Text) (parts : List Bytes) → AllShort f → Short (latest f parts)
unfolding AllShort
latest-Short f [] h = tt
latest-Short f (part ∷ parts) h =
    or_else-Short (latest f parts) (f part) (latest-Short f parts h) (h part)

earliest-Short :
    (f : Bytes → Option Text) (parts : List Bytes) → AllShort f → Short (earliest f parts)
unfolding AllShort
earliest-Short f [] h = tt
earliest-Short f (part ∷ parts) h =
    or_else-Short (f part) (earliest f parts) (h part) (earliest-Short f parts h)

module _ (index first last : ℕ) (h : last ≤ 64) where
  field-AllShort : AllShort (under index (field first last))
  unfolding AllShort
  field-AllShort = under-Short index (field first last) (λ part. field-Short first last part h)

  pair-AllShort :
      (middle : ℕ)
      → middle ≤ 64
      → AllShort (under index (name_or_extra (field first middle) (field middle last)))
  unfolding AllShort
  pair-AllShort middle g =
      under-Short index (name_or_extra (field first middle) (field middle last)) (λ part.
        or_else-Short (field first middle part) (field middle last part)
          (field-Short first middle part g) (field-Short middle last part h))

copyright-AllShort : AllShort (under 4 copyright_version)
unfolding AllShort
copyright-AllShort =
    under-Short 4 copyright_version
      (λ part. version_of-Short (field 2 26 part) (field-Short 2 26 part (omega arith)))

module_records-IsShort : (parts : List Bytes) → IsShort (module_records parts no_fields)
module_records-IsShort parts = rw (module_records_lem parts no_fields) (record {
  plc_type = or_else-Short _ none (latest-Short _ parts (field-AllShort 1 2 22 (omega arith))) tt;
  module_name =
      or_else-Short _ none (latest-Short _ parts (field-AllShort 2 2 22 (omega arith))) tt;
  firmware_version =
      or_else-Short _ none
        (latest-Short _ parts (pair-AllShort 3 2 28 (omega arith) 22 (omega arith))) tt;
  serial_number =
      or_else-Short _ none (latest-Short _ parts (field-AllShort 1 22 28 (omega arith))) tt;
})

component_fields-IsShort : (parts : List Bytes) → IsShort (component_fields parts no_fields)
component_fields-IsShort parts = record {
  plc_type =
      or_else-Short _ _ (latest-Short _ parts (field-AllShort 1 2 26 (omega arith)))
        (earliest-Short _ parts (field-AllShort 7 2 26 (omega arith)));
  module_name =
      or_else-Short _ none (latest-Short _ parts (field-AllShort 2 2 26 (omega arith))) tt;
  firmware_version = tt;
  serial_number =
      or_else-Short _ _ (latest-Short _ parts (pair-AllShort 5 2 34 (omega arith) 26 (omega arith)))
        (earliest-Short _ parts (pair-AllShort 9 2 34 (omega arith) 26 (omega arith)));
}

component_records-IsShort :
    (parts : List Bytes) → IsShort (firmware_records parts (component_records parts no_fields))
component_records-IsShort parts =
    let h = component_fields-IsShort parts in
    rw
      (
        component_records_lem parts no_fields,
        firmware_records_lem parts (component_fields parts no_fields),
      )
      (record {
        plc_type = h.plc_type;
        module_name = h.module_name;
        firmware_version =
            or_else-Short _ _ (earliest-Short _ parts (field-AllShort 2 26 34 (omega arith)))
              (earliest-Short _ parts copyright-AllShort);
        serial_number = h.serial_number;
      })

pub parse_szl_identity-IsShort :
    (szl_id : ℕ) (records : Bytes) → IsShort (parse_szl_identity szl_id records)
unfolding parse_szl_identity parse_szl_0011 parse_szl_001c
parse_szl_identity-IsShort szl_id records = elim (Bool-cases (nat_eq szl_id 0x0011)) [
  | inl e ↦ rw e (module_records-IsShort (records_of 28 records))
  | inr e ↦ rw e (elim (Bool-cases (nat_eq szl_id 0x001c)) [
    | inl f ↦ rw f (component_records-IsShort (records_of 34 records))
    | inr f ↦
        rw f (record { plc_type = tt; module_name = tt; firmware_version = tt; serial_number = tt })
  ])
]
