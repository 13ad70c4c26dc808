-- ===== src/Parsers/Dnp3/Packets.antt =====
-- `parse_dnp3` of app/parsers/dnp3.py. The inner function's `none` is an exception that it raises,
-- which the outer one catches; its text is a parameter.
pub mod Results
use ot_asset_discovery.Prelude.{
  ℕ, ◌+◌, ◌/◌, ◌%◌, not, ◌&&◌, Option, none, some, List, [], ◌∷◌, ◌++◌, ltb, nat_eq, if◌then◌else◌,
  is_some, length, drop, Eq, nat_keys, Text, codes, text_keys,
}
use ot_asset_discovery.Parsers.{Bytes, byte_at, reading}
use ot_asset_discovery.Domain.{
  Protocol, dnp3, ParsingStatus, complete, partial, no_identity, Value, num, str, DeviceFingerprint,
  validate_fingerprint, ParseResult,
}
use ot_asset_discovery.Parsers.Modbus.{truncate}
use ot_asset_discovery.Parsers.Dnp3.{
  min_frame_length, extract_user_data, le16, Decoder, Attributes, parse_device_attributes,
}
use ot_asset_discovery.Prelude.Dict.{Dict, lookup, insert}
use ot_asset_discovery.Prelude.Strings.{lstrip_if}

-- `str` of a number below 2 ^ 16
abbrev pub show_u16 : ℕ → Text
show_u16 n =
    lstrip_if (nat_eq b'0')
      ((48 + n / 10000) ∷ (48 + n / 1000 % 10) ∷ (48 + n / 100 % 10) ∷ (48 + n / 10 % 10) ∷ [])
    ++ (48 + n % 10) ∷ []

-- `bytes.hex` of one byte
abbrev pub hex_lower : ℕ → ℕ
hex_lower d = if ltb d 10 then 48 + d else 87 + d

abbrev pub hex2 : ℕ → Text
hex2 b = hex_lower (b / 16) ∷ hex_lower (b % 16) ∷ []

abbrev pub refused : (src dst : Text) → Option Text → ParseResult
refused src dst error = record {
  fingerprint = none;
  parsing_status = ParsingStatus.no_identity;
  protocol = Protocol.dnp3;
  source_address = src;
  destination_address = dst;
  error = error;
}

abbrev pub count_some : List (Option Text) → ℕ
count_some [] = 0
count_some (o ∷ os) = (if is_some o then 1 else 0) + count_some os

-- the four identity fields
abbrev pub identity_fields : Attributes → List (Option Text)
identity_fields attributes =
    lookup (codes "manufacturer") attributes
    ∷ lookup (codes "model") attributes
    ∷ lookup (codes "firmware_version") attributes
    ∷ lookup (codes "serial_number") attributes
    ∷ []

abbrev pub identity_status : ℕ → ParsingStatus
identity_status count =
    if nat_eq count 0
    then ParsingStatus.no_identity
    else if ltb count 4
    then ParsingStatus.partial
    else ParsingStatus.complete

-- `protocol_data[f"attr_{key}"] = value` for every attribute
pub attribute_data : Attributes → Dict Text Value → Dict Text Value
attribute_data [] fields = fields
attribute_data ((key, value) ∷ attributes) fields =
    attribute_data attributes (insert (codes "attr_" ++ key) (str value) fields)

abbrev pub dnp3_fingerprint : Attributes → (src dst : Text) → DeviceFingerprint
dnp3_fingerprint attributes src dst = record {
  schema_version = codes "1.0.0";
  protocol = Protocol.dnp3;
  source_address = src;
  destination_address = dst;
  mac_address = none;
  ip_address = none;
  vendor = truncate 128 (lookup (codes "manufacturer") attributes);
  model = truncate 128 (lookup (codes "model") attributes);
  firmware_version = truncate 64 (lookup (codes "firmware_version") attributes);
  device_type = none;
  serial_number = lookup (codes "serial_number") attributes;
  protocol_data =
      attribute_data attributes
        ((codes "function_code", num 129) ∷ (codes "object_group", num 0) ∷ []);
  parsing_status = identity_status (count_some (identity_fields attributes));
  binary_fields = [];
}

abbrev pub identified : (src dst : Text) → DeviceFingerprint → ParseResult
identified src dst f = record {
  fingerprint = some f;
  parsing_status = f.parsing_status;
  protocol = Protocol.dnp3;
  source_address = src;
  destination_address = dst;
  error = none;
}

abbrev pub validated : (src dst : Text) → Option DeviceFingerprint → Option ParseResult
validated src dst none = none
validated src dst (some f) = some (identified src dst f)

-- No attributes have no identity fields either.
unfoldable pub identity_result : Attributes → (src dst : Text) → Option ParseResult
identity_result attributes src dst =
    if nat_eq (count_some (identity_fields attributes)) 0
    then some (refused src dst none)
    else validated src dst (validate_fingerprint (dnp3_fingerprint attributes src dst))

-- The transport header, the application header and the two indication bytes are left out.
unfoldable pub parse_user_data : Decoder → (src dst : Text) → Option Bytes → Option ParseResult
parse_user_data decode_value src dst none = some (refused src dst none)
parse_user_data decode_value src dst (some bs) =
    if ltb (length bs) 3
    then some (refused src dst none)
    else reading 3 bs (
        if not (nat_eq (byte_at bs 2) 129)
        then some (refused src dst none)
        else if ltb (length bs) 5
        then some (refused src dst none)
        else identity_result (parse_device_attributes decode_value (drop 5 bs)) src dst)

unfoldable pub parse_dnp3_internal : Decoder → Bytes → Option ParseResult
parse_dnp3_internal decode_value raw =
    let unknown = codes "unknown" in
    if ltb (length raw) min_frame_length
    then some (
        refused unknown unknown
          (some (codes "Packet too short for DNP3 frame: " ++ (48 + length raw) ∷ codes " bytes")))
    else reading 2 raw (
        if not (nat_eq (byte_at raw 0) 0x05 && nat_eq (byte_at raw 1) 0x64)
        then some (
            refused unknown unknown (
              some (
                codes "Invalid DNP3 start bytes: "
                ++ (hex2 (byte_at raw 0) ++ hex2 (byte_at raw 1)))))
        else reading 8 raw (
            parse_user_data decode_value (show_u16 (le16 (byte_at raw 6) (byte_at raw 7)))
              (show_u16 (le16 (byte_at raw 4) (byte_at raw 5))) (extract_user_data raw)))

abbrev pub caught : (message : Text) → Option ParseResult → ParseResult
caught message none =
    refused (codes "unknown") (codes "unknown")
      (some (codes "Failed to parse DNP3 packet: " ++ message))
caught message (some r) = r

unfoldable pub parse_dnp3 : Decoder → (message : Text) → Bytes → ParseResult
parse_dnp3 decode_value message raw = caught message (parse_dnp3_internal decode_value raw)
