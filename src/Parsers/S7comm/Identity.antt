-- ===== src/Parsers/S7comm/Identity.antt =====
-- The identity fields that app/parsers/s7comm.py takes from the records of a system status list.
use ot_asset_discovery.Prelude.Strings.{lstrip_if, split}
use ot_asset_discovery.Parsers.{Bytes, be16}
use ot_asset_discovery.Parsers.S7comm.Records.{records_of, decode_null_padded}
use ot_asset_discovery.Prelude.{
  ℕ, Bool, false, ◌&&◌, ◌||◌, Option, none, some, List, [], ◌∷◌, leb, nat_eq, if◌then◌else◌,
  is_some, take, drop, all, Text,
}

-- The dict of `_parse_szl_identity`, whose four keys are fixed.
pub record Identity : Type 0 where
  pub plc_type : Option Text
  pub module_name : Option Text
  pub firmware_version : Option Text
  pub serial_number : Option Text

abbrev pub no_fields : Identity
no_fields = record {
  plc_type = none;
  module_name = none;
  firmware_version = none;
  serial_number = none;
}

abbrev pub with_plc_type : Option Text → Identity → Identity
with_plc_type o i = record {
  plc_type = o;
  module_name = i.module_name;
  firmware_version = i.firmware_version;
  serial_number = i.serial_number;
}

abbrev pub with_module_name : Option Text → Identity → Identity
with_module_name o i = record {
  plc_type = i.plc_type;
  module_name = o;
  firmware_version = i.firmware_version;
  serial_number = i.serial_number;
}

abbrev pub with_firmware : Option Text → Identity → Identity
with_firmware o i = record {
  plc_type = i.plc_type;
  module_name = i.module_name;
  firmware_version = o;
  serial_number = i.serial_number;
}

abbrev pub with_serial : Option Text → Identity → Identity
with_serial o i = record {
  plc_type = i.plc_type;
  module_name = i.module_name;
  firmware_version = i.firmware_version;
  serial_number = o;
}

-- the second where the first is None
abbrev pub or_else : Option Text → Option Text → Option Text
or_else none p = p
or_else (some s) p = some s

-- `records[offset + first : offset + last]`, decoded
abbrev pub field : (first last : ℕ) → Bytes → Option Text
field first last part = decode_null_padded (drop first (take last part))

-- One round of the loop of `_parse_szl_0011`.
unfoldable pub module_record : Bytes → Identity → Identity
module_record part i =
    let name = field 2 22 part in
    let extra = field 22 28 part in
    if nat_eq (be16 part 0) 1
    then with_serial (or_else extra i.serial_number) (with_plc_type (or_else name i.plc_type) i)
    else if nat_eq (be16 part 0) 2
    then with_module_name (or_else name i.module_name) i
    else if nat_eq (be16 part 0) 3
    then with_firmware (or_else (or_else name extra) i.firmware_version) i
    else i

unfoldable pub module_records : List Bytes → Identity → Identity
module_records [] i = i
module_records (part ∷ parts) i = module_records parts (module_record part i)

unfoldable pub parse_szl_0011 : Bytes → Identity → Identity
parse_szl_0011 records i = module_records (records_of 28 records) i

-- One round of the first loop of `_parse_szl_001c`.
unfoldable pub component_record : Bytes → Identity → Identity
component_record part i =
    let name = field 2 26 part in
    let extra = field 26 34 part in
    if nat_eq (be16 part 0) 1
    then with_plc_type (or_else name i.plc_type) i
    else if nat_eq (be16 part 0) 2
    then with_module_name (or_else name i.module_name) i
    else if nat_eq (be16 part 0) 5
    then with_serial (or_else (or_else name extra) i.serial_number) i
    else if nat_eq (be16 part 0) 7
    then with_plc_type (or_else i.plc_type name) i
    else if nat_eq (be16 part 0) 9
    then with_serial (or_else i.serial_number (or_else name extra)) i
    else i

unfoldable pub component_records : List Bytes → Identity → Identity
component_records [] i = i
component_records (part ∷ parts) i = component_records parts (component_record part i)

-- `p.isdigit()`, of texts that were decoded from ASCII
abbrev pub is_digits : Text → Bool
is_digits [] = false
is_digits (c ∷ s) = all (λ k. leb 48 k && leb k 57) (c ∷ s)

abbrev pub two_numbers : List Text → Bool
two_numbers [] = false
two_numbers (p ∷ []) = false
two_numbers (p ∷ q ∷ parts) = is_digits p && is_digits q

unfoldable pub looks_like_version : Text → Bool
looks_like_version text =
    two_numbers
      (split b'.' (lstrip_if (λ c. nat_eq c b'V' || (nat_eq c b'v' || nat_eq c b' ')) text))

abbrev pub version_of : Option Text → Option Text
version_of none = none
version_of (some name) = if looks_like_version name then some name else none

-- The second loop of `_parse_szl_001c`, which a firmware version in a record of index 2 ends.
unfoldable pub firmware_records : List Bytes → Identity → Identity
firmware_records [] i = i
firmware_records (part ∷ parts) i =
    let extra = field 26 34 part in
    let copyright = version_of (field 2 26 part) in
    let found = with_firmware extra i in
    let next = firmware_records parts i in
    let next' = firmware_records parts (with_firmware (or_else i.firmware_version copyright) i) in
    if nat_eq (be16 part 0) 2 && is_some extra
    then found
    else if nat_eq (be16 part 0) 4
    then next'
    else next

unfoldable pub parse_szl_001c : Bytes → Identity → Identity
parse_szl_001c records i =
    firmware_records (records_of 34 records) (component_records (records_of 34 records) i)

unfoldable pub parse_szl_identity : (szl_id : ℕ) → Bytes → Identity
parse_szl_identity szl_id records =
    if nat_eq szl_id 0x0011
    then parse_szl_0011 records no_fields
    else if nat_eq szl_id 0x001c
    then parse_szl_001c records no_fields
    else no_fields
