-- ===== src/Parsers/S7comm/Packets.antt =====
-- `parse_s7comm` of app/parsers/s7comm.py. The body's `none` is an exception, which the function
-- catches, with the addresses that it has; its text is a parameter.
use ot_asset_discovery.Parsers.S7comm.{
  Addressed, extract_addresses, parse_tpkt, parse_cotp, S7Header, parse_s7comm_header,
  extract_szl_data,
}
use ot_asset_discovery.Parsers.{Bytes}
use ot_asset_discovery.Domain.{
  Protocol, DeviceType, ParsingStatus, Value, num, str, null, DeviceFingerprint,
  validate_fingerprint, ParseResult,
}
use ot_asset_discovery.Parsers.S7comm.Identity.{Identity, parse_szl_identity}
use ot_asset_discovery.Parsers.Dnp3.Values.{show_number}
use ot_asset_discovery.Parsers.Dnp3.Packets.{hex_lower, count_some}
use ot_asset_discovery.Prelude.{
  ℕ, ◌/◌, ◌%◌, ◌||◌, Option, none, some, List, [], ◌∷◌, ◌++◌, nat_eq, if◌then◌else◌, drop, Text,
  codes,
}
use ot_asset_discovery.Prelude.Strings.{lstrip_if}

abbrev pub no_identity_found : (src dst : Text) → Option Text → ParseResult
no_identity_found src dst error = record {
  fingerprint = none;
  parsing_status = ParsingStatus.no_identity;
  protocol = Protocol.s7comm;
  source_address = src;
  destination_address = dst;
  error = error;
}

-- `hex(n)`, of a 16-bit number
abbrev pub nonzero_hex : Text → Text
nonzero_hex [] = codes "0"
nonzero_hex (c ∷ s) = c ∷ s

abbrev pub hex_text : ℕ → Text
hex_text n =
    codes "0x"
    ++ nonzero_hex (
        lstrip_if (nat_eq b'0') (
          hex_lower (n / 4096)
          ∷ hex_lower (n / 256 % 16)
          ∷ hex_lower (n / 16 % 16)
          ∷ hex_lower (n % 16)
          ∷ []))

abbrev pub null_or : Option Text → Value
null_or none = null
null_or (some s) = str s

abbrev pub fields_of : Identity → List (Option Text)
fields_of i = i.plc_type ∷ i.module_name ∷ i.firmware_version ∷ i.serial_number ∷ []

abbrev pub s7_status : ℕ → ParsingStatus
s7_status non_null_count =
    if nat_eq non_null_count 4 then ParsingStatus.complete else ParsingStatus.partial

abbrev pub szl_fingerprint : Identity → (szl_id pdu_ref : ℕ) → (src dst : Text) → DeviceFingerprint
szl_fingerprint i szl_id pdu_ref src dst = record {
  schema_version = codes "1.0.0";
  protocol = Protocol.s7comm;
  source_address = src;
  destination_address = dst;
  mac_address = none;
  ip_address = none;
  vendor = some (codes "Siemens");
  model = i.plc_type;
  firmware_version = i.firmware_version;
  device_type = some DeviceType.plc;
  serial_number = i.serial_number;
  protocol_data =
      (codes "module_name", null_or i.module_name)
      ∷ (codes "szl_id", str (hex_text szl_id))
      ∷ (codes "pdu_reference", num pdu_ref)
      ∷ [];
  parsing_status = s7_status (count_some (fields_of i));
  binary_fields = [];
}

abbrev pub s7_found : (src dst : Text) → DeviceFingerprint → ParseResult
s7_found src dst f = record {
  fingerprint = some f;
  parsing_status = f.parsing_status;
  protocol = Protocol.s7comm;
  source_address = src;
  destination_address = dst;
  error = none;
}

abbrev pub validated_s7 : (src dst : Text) → Option DeviceFingerprint → Option ParseResult
validated_s7 src dst none = none
validated_s7 src dst (some f) = some (s7_found src dst f)

-- The dict of the fields has four keys always, so it is never empty.
unfoldable pub of_identity : (szl_id pdu_ref : ℕ) → (src dst : Text) → Identity → Option ParseResult
of_identity szl_id pdu_ref src dst i =
    if nat_eq (count_some (fields_of i)) 0
    then some (no_identity_found src dst none)
    else validated_s7 src dst (validate_fingerprint (szl_fingerprint i szl_id pdu_ref src dst))

abbrev pub of_szl :
    (pdu_ref : ℕ) → (src dst : Text) → Option (Option (ℕ × Bytes)) → Option ParseResult
of_szl pdu_ref src dst none = none
of_szl pdu_ref src dst (some none) = some (no_identity_found src dst none)
of_szl pdu_ref src dst (some (some (szl_id, records))) =
    of_identity szl_id pdu_ref src dst (parse_szl_identity szl_id records)

abbrev pub of_header : (src dst : Text) → Bytes → Option (Option S7Header) → Option ParseResult
of_header src dst bs none = none
of_header src dst bs (some none) =
    some (no_identity_found src dst (some (codes "Invalid S7comm header")))
of_header src dst bs (some (some h)) =
    if nat_eq h.msg_type 0x07 || nat_eq h.msg_type 0x03
    then of_szl h.pdu_ref src dst (extract_szl_data (drop 10 bs) h.param_length)
    else some (no_identity_found src dst none)

abbrev pub of_cotp : (src dst : Text) → Option (Option Bytes) → Option ParseResult
of_cotp src dst none = none
of_cotp src dst (some none) =
    some (no_identity_found src dst (some (codes "Invalid COTP header or non-data PDU")))
of_cotp src dst (some (some bs)) = of_header src dst bs (parse_s7comm_header bs)

abbrev pub of_tpkt : (src dst : Text) → Option (Option Bytes) → Option ParseResult
of_tpkt src dst none = none
of_tpkt src dst (some none) = some (no_identity_found src dst (some (codes "Invalid TPKT header")))
of_tpkt src dst (some (some bs)) = of_cotp src dst (parse_cotp bs)

abbrev pub caught_s7 : (message src dst : Text) → Option ParseResult → ParseResult
caught_s7 message src dst none = no_identity_found src dst (some (codes "Parse error: " ++ message))
caught_s7 message src dst (some r) = r

-- Both addresses are empty until they are extracted.
abbrev pub of_addresses : (message : Text) → Option Addressed → ParseResult
of_addresses message none = caught_s7 message [] [] none
of_addresses message (some a) =
    caught_s7 message a.source a.destination (of_tpkt a.source a.destination (parse_tpkt a.payload))

unfoldable pub parse_s7comm : (message : Text) → Bytes → ParseResult
parse_s7comm message bs = of_addresses message (extract_addresses show_number bs)
