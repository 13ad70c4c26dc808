-- ===== src/Parsers/Modbus.antt =====
-- app/parsers/modbus.py: Read Device Identification responses over Modbus TCP. The parser's
-- `none` is an exception that leaves it. Sources and destinations are the texts that the caller
-- gives.
pub mod Objects
pub mod Results
mod Tests
use ot_asset_discovery.Prelude.{
  ℕ, zero, suc, ◌+◌, Bool, true, false, not, Option, none, some, List, [], ◌∷◌, ◌++◌, ltb, leb,
  nat_eq, if◌then◌else◌, length, get_elem?, take, drop, Eq, nat_keys, Text, codes, text_keys,
}
use ot_asset_discovery.Parsers.{Bytes, byte_at, reading, be16, hex4}
use ot_asset_discovery.Domain.{
  Protocol, modbus_tcp, DeviceType, plc, ParsingStatus, complete, partial, no_identity, Value, num,
  str, DeviceFingerprint, validate_fingerprint, ParseResult,
}
use ot_asset_discovery.Parsers.Utf8.{decode}
use ot_asset_discovery.Prelude.Dict.{Dict, lookup, insert}
use ot_asset_discovery.Prelude.Strings.{lstrip_if, rstrip_if, strip}

-- OBJECT_ID_NAMES
abbrev pub object_names : List Text
object_names =
    codes "VendorName"
    ∷ codes "ProductCode"
    ∷ codes "MajorMinorRevision"
    ∷ codes "VendorUrl"
    ∷ codes "ProductName"
    ∷ codes "ModelName"
    ∷ codes "UserApplicationName"
    ∷ []

abbrev pub object_name : ℕ → Option Text
object_name id = get_elem? object_names id

-- `value.decode("utf-8", errors="replace").strip("\x00").strip()`
pub object_text : Bytes → Text
object_text value = strip (rstrip_if (nat_eq 0) (lstrip_if (nat_eq 0) (decode value)))

-- Only the standard objects are kept.
abbrev pub store_object : ℕ → Bytes → Dict ℕ Text → Dict ℕ Text
store_object id value objects = if leb id 6 then insert id (object_text value) objects else objects

-- The loop over the declared objects; the bytes are those from the current offset on.
pub parse_objects : (num_objects : ℕ) → Bytes → Dict ℕ Text → Dict ℕ Text
parse_objects zero bs objects = objects
parse_objects (suc n) [] objects = objects
parse_objects (suc n) (id ∷ []) objects = objects
parse_objects (suc n) (id ∷ len ∷ bs) objects =
    let rest = parse_objects n (drop len bs) (store_object id (take len bs) objects) in
    if ltb (length bs) len then objects else rest

abbrev pub is_present : Option Text → Bool
is_present none = false
is_present (some []) = false
is_present (some (c ∷ s)) = true

-- `value[:n]` for a value longer than n
abbrev pub truncate : ℕ → Option Text → Option Text
truncate n none = none
truncate n (some s) = some (if ltb n (length s) then take n s else s)

abbrev pub count_present : List (Option Text) → ℕ
count_present [] = 0
count_present (o ∷ os) = (if is_present o then 1 else 0) + count_present os

abbrev pub status_of : List (Option Text) → ParsingStatus
status_of key_fields =
    if nat_eq (count_present key_fields) 3 then ParsingStatus.complete else ParsingStatus.partial

-- `protocol_data[OBJECT_ID_NAMES[obj_id]] = obj_value` for every object
abbrev pub named : Option Text → Text → Dict Text Value → Dict Text Value
named none value fields = fields
named (some name) value fields = insert name (str value) fields

pub add_objects : Dict ℕ Text → Dict Text Value → Dict Text Value
add_objects [] fields = fields
add_objects ((id, value) ∷ objects) fields =
    add_objects objects (named (object_name id) value fields)

pub record Meta : Type 0 where
  pub unit_id : ℕ
  pub function_code : ℕ
  pub device_id_code : ℕ
  pub conformity_level : ℕ
  pub source_address : Text
  pub destination_address : Text

abbrev pub no_identity_result : (src dst : Text) → Option Text → ParseResult
no_identity_result src dst error = record {
  fingerprint = none;
  parsing_status = ParsingStatus.no_identity;
  protocol = Protocol.modbus_tcp;
  source_address = src;
  destination_address = dst;
  error = error;
}

-- ModelName if it is there and not empty, else ProductCode
abbrev pub model_of : Dict ℕ Text → Option Text
model_of objects = if is_present (lookup 5 objects) then lookup 5 objects else lookup 1 objects

abbrev pub fingerprint_of : Dict ℕ Text → Meta → DeviceFingerprint
fingerprint_of objects m =
    let vendor = truncate 128 (lookup 0 objects) in
    let model = truncate 128 (model_of objects) in
    let firmware = truncate 64 (lookup 2 objects) in
    record {
      schema_version = codes "1.0.0";
      protocol = Protocol.modbus_tcp;
      source_address = m.source_address;
      destination_address = m.destination_address;
      mac_address = none;
      ip_address = none;
      vendor = vendor;
      model = model;
      firmware_version = firmware;
      device_type = some DeviceType.plc;
      serial_number = none;
      protocol_data = add_objects objects (
          (codes "unit_id", num m.unit_id)
          ∷ (codes "function_code", num m.function_code)
          ∷ (codes "device_id_code", num m.device_id_code)
          ∷ (codes "conformity_level", num m.conformity_level)
          ∷ []);
      parsing_status = status_of (vendor ∷ model ∷ firmware ∷ []);
      binary_fields = [];
    }

abbrev pub result_of : Meta → DeviceFingerprint → ParseResult
result_of m f = record {
  fingerprint = some f;
  parsing_status = f.parsing_status;
  protocol = Protocol.modbus_tcp;
  source_address = m.source_address;
  destination_address = m.destination_address;
  error = none;
}

abbrev pub validated_result : Meta → Option DeviceFingerprint → Option ParseResult
validated_result m none = none
validated_result m (some f) = some (result_of m f)

pub build_parse_result : Dict ℕ Text → Meta → Option ParseResult
build_parse_result [] m = some (no_identity_result m.source_address m.destination_address none)
build_parse_result (o ∷ objects) m =
    validated_result m (validate_fingerprint (fingerprint_of (o ∷ objects) m))

abbrev pub identify : (src dst : Text) → Bytes → Option ParseResult
identify src dst bs = build_parse_result (parse_objects (byte_at bs 13) (drop 14 bs) []) (record {
  unit_id = byte_at bs 6;
  function_code = byte_at bs 7;
  device_id_code = byte_at bs 9;
  conformity_level = byte_at bs 10;
  source_address = src;
  destination_address = dst;
})

pub parse_modbus : (src dst : Text) → Bytes → Option ParseResult
parse_modbus src dst bs =
    let refuse : Option Text → Option ParseResult = λ e. some (no_identity_result src dst e) in
    if ltb (length bs) 9
    then refuse (some (codes "Packet too short for Modbus TCP frame"))
    else if not (nat_eq (be16 bs 2) 0)
    then refuse
        (some (codes "Invalid protocol ID: 0x" ++ (hex4 (be16 bs 2) ++ codes ", expected 0x0000")))
    else reading 8 bs (
        if not (nat_eq (byte_at bs 7) 0x2b)
        then refuse none
        else reading 9 bs (
            if not (nat_eq (byte_at bs 8) 0x0e)
            then refuse none
            else if ltb (length bs) 14
            then refuse (some (codes "Packet too short for Device Identification response header"))
            else reading 14 bs (identify src dst bs)))
