-- ===== src/Parsers/S7comm/Results.antt =====
-- What app/parsers/s7comm.py finds in the records of a system status list.
use ot_asset_discovery.Parsers.S7comm.Identity.{
  Identity, no_fields, with_firmware, or_else, field, module_record, module_records, parse_szl_0011,
  component_record, component_records, version_of, firmware_records, parse_szl_001c,
  parse_szl_identity,
}
use ot_asset_discovery.Parsers.S7comm.Records.{laid, records_of-laid}
use ot_asset_discovery.Parsers.{Bytes, be16}
use ot_asset_discovery.Prelude.{
  ℕ, ◌<◌, ◌≡◌, refl, sym, inl, inr, false, Option, none, some, List, [], ◌∷◌, arith, nat_eq,
  if◌then◌else◌, Bool-cases, Option-cases, length, All, Text,
}

-- The field of the records of one index, or None.
abbrev pub under : ℕ → (Bytes → Option Text) → Bytes → Option Text
under index f part = if nat_eq (be16 part 0) index then f part else none

-- the field of the last record that has it, and of the first one
abbrev pub latest : (Bytes → Option Text) → List Bytes → Option Text
latest f [] = none
latest f (part ∷ parts) = or_else (latest f parts) (f part)

abbrev pub earliest : (Bytes → Option Text) → List Bytes → Option Text
earliest f [] = none
earliest f (part ∷ parts) = or_else (f part) (earliest f parts)

or_else_assoc : (a b c : Option Text) → or_else (or_else a b) c ≡ or_else a (or_else b c)
or_else_assoc none b c = refl
or_else_assoc (some s) b c = refl

abbrev module_step : Bytes → Identity → Identity
module_step part i = record {
  plc_type = or_else (under 1 (field 2 22) part) i.plc_type;
  module_name = or_else (under 2 (field 2 22) part) i.module_name;
  firmware_version =
      or_else (under 3 (λ p. or_else (field 2 22 p) (field 22 28 p)) part) i.firmware_version;
  serial_number = or_else (under 1 (field 22 28) part) i.serial_number;
}

module_record_lem : (part : Bytes) (i : Identity) → module_record part i ≡ module_step part i
unfolding module_record
module_record_lem part i = ground arith

-- The name of a record, and else the rest of it.
abbrev pub name_or_extra : (name extra : Bytes → Option Text) → Bytes → Option Text
name_or_extra name extra part = or_else (name part) (extra part)

pub module_records_lem :
    (parts : List Bytes) (i : Identity)
    → module_records parts i ≡ record {
      plc_type = or_else (latest (under 1 (field 2 22)) parts) i.plc_type;
      module_name = or_else (latest (under 2 (field 2 22)) parts) i.module_name;
      firmware_version =
          or_else
            (latest (under 3 (name_or_extra (field 2 22) (field 22 28))) parts)
            i.firmware_version;
      serial_number = or_else (latest (under 1 (field 22 28)) parts) i.serial_number;
    }
unfolding module_records
module_records_lem [] i = refl
module_records_lem (part ∷ parts) i =
    rw (module_record_lem part i, module_records_lem parts (module_step part i))
      (simp or_else_assoc)

-- The fields that the first loop over component records leaves, from those it starts with: the
-- later records of index 1, of 2 and of 5 win, and the first ones of 7 and of 9, which give way.
abbrev pub component_fields : List Bytes → Identity → Identity
component_fields parts i = record {
  plc_type =
      or_else (latest (under 1 (field 2 26)) parts)
        (or_else i.plc_type (earliest (under 7 (field 2 26)) parts));
  module_name = or_else (latest (under 2 (field 2 26)) parts) i.module_name;
  firmware_version = i.firmware_version;
  serial_number = or_else (latest (under 5 (name_or_extra (field 2 26) (field 26 34))) parts) (
      or_else i.serial_number
        (earliest (under 9 (name_or_extra (field 2 26) (field 26 34))) parts));
}

abbrev component_step : Bytes → Identity → Identity
component_step part i = record {
  plc_type = or_else (under 1 (field 2 26) part) (or_else i.plc_type (under 7 (field 2 26) part));
  module_name = or_else (under 2 (field 2 26) part) i.module_name;
  firmware_version = i.firmware_version;
  serial_number =
      or_else (under 5 (name_or_extra (field 2 26) (field 26 34)) part)
        (or_else i.serial_number (under 9 (name_or_extra (field 2 26) (field 26 34)) part));
}

pub or_else-none : (a : Option Text) → or_else a none ≡ a
or_else-none none = refl
or_else-none (some s) = refl

component_record_lem :
    (part : Bytes) (i : Identity) → component_record part i ≡ component_step part i
unfolding component_record
component_record_lem part i = ground (arith, or_else-none i.plc_type, or_else-none i.serial_number)

pub component_records_lem :
    (parts : List Bytes) (i : Identity) → component_records parts i ≡ component_fields parts i
unfolding component_records
component_records_lem [] i = simp or_else-none
component_records_lem (part ∷ parts) i =
    rw (component_record_lem part i, component_records_lem parts (component_step part i))
      (simp or_else_assoc)

-- The firmware version of the second loop: that of the first record of index 2 that has one, and
-- else the first copyright that looks like a version.
abbrev pub copyright_version : Bytes → Option Text
copyright_version part = version_of (field 2 26 part)

pub firmware_records_lem :
    (parts : List Bytes) (i : Identity)
    → firmware_records parts i
      ≡ with_firmware
          (or_else
            (earliest (under 2 (field 26 34)) parts)
            (or_else i.firmware_version (earliest (under 4 copyright_version) parts)))
          i
unfolding firmware_records
firmware_records_lem [] i = rw or_else-none refl
firmware_records_lem (part ∷ parts) i =
    let next = firmware_records_lem parts i in
    let next' =
      firmware_records_lem parts
        (with_firmware (or_else i.firmware_version (version_of (field 2 26 part))) i) in
    elim (Bool-cases (nat_eq (be16 part 0) 2)) [
      | inl e ↦ elim (Option-cases (field 26 34 part)) [
        | inl n ↦ (let g : nat_eq (be16 part 0) 4 ≡ false = ground (arith, e) in rw (e, n, g) next)
        | inr (s, n) ↦ rw (e, n) refl
      ]
      | inr e ↦ elim (Bool-cases (nat_eq (be16 part 0) 4)) [
        | inl f ↦
            rw
              (
                e,
                f,
                sym (
                    or_else_assoc i.firmware_version (copyright_version part)
                      (earliest (under 4 copyright_version) parts)),
              )
              next'
        | inr f ↦ rw (e, f) next
      ]
    ]

-- What a list of identification records says of a device: the last order number and serial number
-- of index 1, the last hardware of index 2 and the last firmware of index 3.
abbrev module_identity : List Bytes → Identity
module_identity parts = record {
  plc_type = latest (under 1 (field 2 22)) parts;
  module_name = latest (under 2 (field 2 22)) parts;
  firmware_version = latest (under 3 (name_or_extra (field 2 22) (field 22 28))) parts;
  serial_number = latest (under 1 (field 22 28)) parts;
}

-- The same for component records: names of index 1 come before those of 7, serial numbers of
-- index 5 before those of 9, and the extra fields of index 2 before the copyrights.
abbrev component_identity : List Bytes → Identity
component_identity parts = record {
  plc_type = or_else (latest (under 1 (field 2 26)) parts) (earliest (under 7 (field 2 26)) parts);
  module_name = latest (under 2 (field 2 26)) parts;
  firmware_version =
      or_else (earliest (under 2 (field 26 34)) parts) (earliest (under 4 copyright_version) parts);
  serial_number =
      or_else (latest (under 5 (name_or_extra (field 2 26) (field 26 34))) parts)
        (earliest (under 9 (name_or_extra (field 2 26) (field 26 34))) parts);
}

-- The two lists that identify a device: modules and components.
pub data IdentityList : Type 0 where
  modules components : IdentityList

abbrev pub list_id : IdentityList → ℕ
list_id modules = 0x0011
list_id components = 0x001c

abbrev pub record_size : IdentityList → ℕ
record_size modules = 28
record_size components = 34

abbrev pub identity_of : IdentityList → List Bytes → Identity
identity_of modules parts = module_identity parts
identity_of components parts = component_identity parts

-- For records of the list's size one behind the other, and a shorter rest, which is ignored, the
-- loops over either list find what the list says of the device.
pub parse_szl_identity-laid :
    (l : IdentityList) (parts : List Bytes) (rest : Bytes)
    → All (λ part. length part ≡ record_size l) parts
    → length rest < record_size l
    → parse_szl_identity (list_id l) (laid parts rest) ≡ identity_of l parts
unfolding parse_szl_identity parse_szl_0011 parse_szl_001c
parse_szl_identity-laid modules parts rest whole short =
    rw (records_of-laid 28 parts rest whole short, module_records_lem parts no_fields)
      (simp or_else-none)
parse_szl_identity-laid components parts rest whole short =
    rw
      (
        records_of-laid 34 parts rest whole short,
        component_records_lem parts no_fields,
        firmware_records_lem parts (component_fields parts no_fields),
      )
      (simp or_else-none)
