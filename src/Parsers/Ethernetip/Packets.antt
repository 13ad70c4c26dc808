-- ===== src/Parsers/Ethernetip/Packets.antt =====
-- `parse_ethernetip` of app/parsers/ethernetip.py. A result of `none` is an exception that leaves
-- the parser, the ValidationError of the fingerprint; the text of a caught exception is a
-- parameter.
use ot_asset_discovery.Domain.{
  Protocol, DeviceType, ParsingStatus, Value, num, null, DeviceFingerprint, validate_fingerprint,
  ParseResult,
}
use ot_asset_discovery.Parsers.{Bytes, hex4}
use ot_asset_discovery.Parsers.Ethernetip.{
  le16_at, le32_at, CipItem, Reading, going, stopped, failed, finished, read_cip_item,
}
use ot_asset_discovery.Parsers.Dnp3.Values.{hex, show_number}
use ot_asset_discovery.Prelude.{
  ℕ, zero, suc, ◌+◌, ◌-◌, ◌/◌, ◌%◌, Bool, not, Option, none, some, [], ◌∷◌, ◌++◌, ltb, leb, nat_eq,
  if◌then◌else◌, length, take, drop, all, nat_keys, Text, codes, text_keys, contains,
}
use ot_asset_discovery.Prelude.Dict.{Dict}

abbrev pub no_identity_item : (src dst : Text) → Option Text → ParseResult
no_identity_item src dst error = record {
  fingerprint = none;
  parsing_status = ParsingStatus.no_identity;
  protocol = Protocol.ethernetip;
  source_address = src;
  destination_address = dst;
  error = error;
}

abbrev pub map_device_code : ℕ → Option DeviceType
map_device_code c =
    if contains c (0x0e ∷ 0x0f ∷ 0x10 ∷ [])
    then some DeviceType.plc
    else if contains c (0x12 ∷ 0x18 ∷ [])
    then some DeviceType.hmi
    else if contains c (0x21 ∷ 0x07 ∷ 0x09 ∷ [])
    then some DeviceType.rtu
    else if contains c (0x2b ∷ 0x2c ∷ [])
    then some DeviceType.ied
    else none

abbrev pub map_device_type : Option ℕ → Option DeviceType
map_device_type none = none
map_device_type (some c) = map_device_code c

abbrev pub firmware_text : (major minor : Option ℕ) → Option Text
firmware_text (some m) (some n) = some (show_number m ++ b'.' ∷ show_number n)
firmware_text (some m) none = none
firmware_text none n = none

abbrev pub vendor_text : Option ℕ → Option Text
vendor_text none = none
vendor_text (some v) = some (codes "VendorID:" ++ show_number v)

-- `f"{serial_number:08X}"`, of a 32-bit number
abbrev pub serial_text : Option ℕ → Option Text
serial_text none = none
serial_text (some n) = some (hex4 (n / 65536) ++ hex4 (n % 65536))

abbrev pub number_or_null : Option ℕ → Value
number_or_null none = null
number_or_null (some n) = num n

abbrev pub complete_data : CipItem → Dict Text Value
complete_data i =
    (codes "vendor_id", number_or_null i.vendor_id)
    ∷ (codes "device_type_code", number_or_null i.device_type)
    ∷ (codes "product_code", number_or_null i.product_code)
    ∷ (codes "revision_major", number_or_null i.revision_major)
    ∷ (codes "revision_minor", number_or_null i.revision_minor)
    ∷ (codes "serial_number_raw", number_or_null i.serial_number)
    ∷ []

abbrev pub entry_if : Text → Option ℕ → Dict Text Value → Dict Text Value
entry_if k none rest = rest
entry_if k (some n) rest = (k, num n) ∷ rest

abbrev pub partial_data : CipItem → Dict Text Value
partial_data i = entry_if (codes "vendor_id") i.vendor_id (
    entry_if (codes "device_type_code") i.device_type (
      entry_if (codes "product_code") i.product_code (
        entry_if (codes "revision_major") i.revision_major (
          entry_if (codes "revision_minor") i.revision_minor
            (entry_if (codes "serial_number_raw") i.serial_number [])))))

abbrev pub item_fingerprint :
    CipItem → (dst : Text) → Dict Text Value → ParsingStatus → DeviceFingerprint
item_fingerprint i dst fields status = record {
  schema_version = codes "1.0.0";
  protocol = Protocol.ethernetip;
  source_address = i.source_address;
  destination_address = dst;
  mac_address = none;
  ip_address = i.device_ip;
  vendor = vendor_text i.vendor_id;
  model = i.product_name;
  firmware_version = firmware_text i.revision_major i.revision_minor;
  device_type = map_device_type i.device_type;
  serial_number = serial_text i.serial_number;
  protocol_data = fields;
  parsing_status = status;
  binary_fields = [];
}

abbrev pub item_found : DeviceFingerprint → ParseResult
item_found f = record {
  fingerprint = some f;
  parsing_status = f.parsing_status;
  protocol = Protocol.ethernetip;
  source_address = f.source_address;
  destination_address = f.destination_address;
  error = none;
}

abbrev pub item_result : Option DeviceFingerprint → Option ParseResult
item_result none = none
item_result (some f) = some (item_found f)

unfoldable pub build_complete_result : CipItem → (dst : Text) → Option ParseResult
build_complete_result i dst =
    item_result
      (validate_fingerprint (item_fingerprint i dst (complete_data i) ParsingStatus.complete))

unfoldable pub build_partial_result : CipItem → (dst : Text) → Option ParseResult
build_partial_result i dst =
    if i.has_any_field
    then item_result
        (validate_fingerprint (item_fingerprint i dst (partial_data i) ParsingStatus.partial))
    else some (no_identity_item i.source_address dst none)

unfoldable pub item_outcome : (message dst : Text) → Reading → Option ParseResult
item_outcome message dst (finished i) = build_complete_result i dst
item_outcome message dst (stopped i) = build_partial_result i dst
item_outcome message dst (failed i) =
    if i.has_any_field
    then build_partial_result i dst
    else some (
        no_identity_item i.source_address dst
          (some (codes "Error parsing CIP Identity item: " ++ message)))
item_outcome message dst (going i left bs) = build_complete_result i dst

unfoldable pub parse_cip_identity_item :
    (message src dst : Text) → (item_length : ℕ) → Bytes → Option ParseResult
parse_cip_identity_item message src dst item_length bs =
    item_outcome message dst (read_cip_item show_number src item_length bs)

-- The loop over the items, which goes on to the end of the packet.
unfoldable pub parse_items :
    (message src dst : Text) → (item_count : ℕ) → Bytes → Option ParseResult
parse_items message src dst zero bs = some (no_identity_item src dst none)
parse_items message src dst (suc n) bs =
    let rest = parse_items message src dst n (drop (4 + le16_at (drop 2 bs)) bs) in
    if ltb (length bs) 4
    then some (no_identity_item src dst none)
    else if nat_eq (le16_at bs) 0x000c
    then parse_cip_identity_item message src dst (le16_at (drop 2 bs)) (drop 4 bs)
    else rest

unfoldable pub parse_list_identity_response :
    (message src dst : Text) → (data_length : ℕ) → Bytes → Option ParseResult
parse_list_identity_response message src dst data_length bs =
    if ltb data_length 2
    then some
        (no_identity_item src dst (some (codes "List Identity response too short for item count")))
    else if nat_eq (le16_at bs) 0
    then some (no_identity_item src dst none)
    else parse_items message src dst (le16_at bs) (drop 2 bs)

abbrev pub all_zero : Bytes → Bool
all_zero bs = all (nat_eq 0) bs

unfoldable pub extract_source_address : Bytes → Text
extract_source_address bs =
    let context = take 8 (drop 12 bs) in
    if leb 20 (length bs) then if all_zero context then codes "0.0.0.0" else hex context else []

unfoldable pub extract_destination_address : Bytes → Text
extract_destination_address bs =
    if leb 8 (length bs) then codes "session:" ++ show_number (le32_at (drop 4 bs)) else []

unfoldable pub parse_ethernetip : (message : Text) → Bytes → Option ParseResult
parse_ethernetip message bs =
    let src = extract_source_address bs in
    let dst = extract_destination_address bs in
    let length_field = le16_at (drop 2 bs) in
    if ltb (length bs) 24
    then some (
        no_identity_item [] [] (
          some (
            codes "Packet too short for EtherNet/IP header: "
            ++ (show_number (length bs) ++ codes " bytes, need 24"))))
    else if not (nat_eq (le16_at bs) 0x0063)
    then some (no_identity_item src dst none)
    else if ltb (length bs) (24 + length_field)
    then some (
        no_identity_item src dst (
          some (
            codes "Declared data length "
            ++ (show_number length_field
                ++ (codes " exceeds available bytes " ++ show_number (length bs - 24))))))
    else parse_list_identity_response message src dst length_field (drop 24 bs)
