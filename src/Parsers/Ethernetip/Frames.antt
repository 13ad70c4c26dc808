-- ===== src/Parsers/Ethernetip/Frames.antt =====
-- Whole packets of app/parsers/ethernetip.py, against an encoder of List Identity responses.
use ot_asset_discovery.Prelude.{
  ℕ, suc, ◌+◌, ◌*◌, ◌/◌, ◌%◌, ◌≤◌, ◌<◌, ◌≡◌, refl, sym, ap, ◌∙◌, inl, inr, false, Option, none,
  some, List, [], ◌∷◌, ◌++◌, arith, ltb, leb, nat_eq, if◌then◌else◌, Bool-cases, length, drop, All,
  length-append, drop-append_length, nat_keys, Text, codes, text_keys,
}
use ot_asset_discovery.Prelude.Dict.{Dict, lookup}
use ot_asset_discovery.Domain.{
  Protocol, DeviceType, ParsingStatus, num, DeviceFingerprint, within, validate_fingerprint,
  ParseResult,
}
use ot_asset_discovery.Parsers.{Bytes, hex4}
use ot_asset_discovery.Parsers.Dnp3.Values.{show_number}
use ot_asset_discovery.Parsers.Ethernetip.Items.{
  CipIdentity, le16_field, cip_fields, address_text, name_option, identity_item, le16_split,
  read_cip_item_lem,
}
use ot_asset_discovery.Parsers.Ethernetip.Packets.{
  map_device_code, build_complete_result, item_outcome, parse_cip_identity_item, parse_items,
  parse_list_identity_response, extract_source_address, extract_destination_address,
  parse_ethernetip,
}
use ot_asset_discovery.Parsers.Ethernetip.Results.{vendor-within, firmware-within}

-- Items of other types in front.
abbrev pub other_items : List (ℕ × Bytes) → Bytes → Bytes
other_items [] rest = rest
other_items ((t, content) ∷ items) rest =
    le16_field t (le16_field (length content) (content ++ other_items items rest))

parse_items-other_items :
    (message src dst : Text) (items : List (ℕ × Bytes)) (n : ℕ) (rest : Bytes)
    → All (λ item. nat_eq item.0 0x000c ≡ false) items
    → parse_items message src dst (length items + n) (other_items items rest)
      ≡ parse_items message src dst n rest
unfolding parse_items
parse_items-other_items message src dst [] n rest h = let e : 0 + n ≡ n = omega arith in rw e refl
parse_items-other_items message src dst ((t, content) ∷ items) n rest h =
    let e : suc (length items) + n ≡ suc (length items + n) = omega arith in
    let bs = other_items ((t, content) ∷ items) rest in
    let long : ltb (length bs) 4 ≡ false = ground arith in
    let past : 4 + length content ≡ suc (suc (suc (suc (length content)))) = omega arith in
    rw
      (
        e,
        long,
        le16_split t,
        h.0,
        le16_split (length content),
        past,
        drop-append_length content (other_items items rest),
      )
      (parse_items-other_items message src dst items n rest h.1)

-- A List Identity response: its first four bytes, the other twenty of its header, and its data.
abbrev pub list_identity : (header : Bytes) → (count : ℕ) → Bytes → Bytes
list_identity header count items =
    le16_field 0x0063 (le16_field (2 + length items) (header ++ le16_field count items))

-- The CIP device types of each kind of device.
abbrev pub device_types : Dict ℕ DeviceType
device_types =
    (0x0e, DeviceType.plc)
    ∷ (0x0f, DeviceType.plc)
    ∷ (0x10, DeviceType.plc)
    ∷ (0x12, DeviceType.hmi)
    ∷ (0x18, DeviceType.hmi)
    ∷ (0x21, DeviceType.rtu)
    ∷ (0x07, DeviceType.rtu)
    ∷ (0x09, DeviceType.rtu)
    ∷ (0x2b, DeviceType.ied)
    ∷ (0x2c, DeviceType.ied)
    ∷ []

map_device_code_lem : (n : ℕ) → map_device_code n ≡ lookup n device_types
map_device_code_lem n = ground arith

abbrev pub expected_fingerprint : CipIdentity → (dst : Text) → DeviceFingerprint
expected_fingerprint c dst =
    let serial = c.serial_low + 65536 * c.serial_high in
    record {
      schema_version = codes "1.0.0";
      protocol = Protocol.ethernetip;
      source_address = address_text c;
      destination_address = dst;
      mac_address = none;
      ip_address = some (address_text c);
      vendor = some (codes "VendorID:" ++ show_number c.vendor_id);
      model = name_option c.product_name;
      firmware_version = some (show_number c.major ++ b'.' ∷ show_number c.minor);
      device_type = lookup c.device_type device_types;
      serial_number = some (hex4 (serial / 65536) ++ hex4 (serial % 65536));
      protocol_data =
          (codes "vendor_id", num c.vendor_id)
          ∷ (codes "device_type_code", num c.device_type)
          ∷ (codes "product_code", num c.product_code)
          ∷ (codes "revision_major", num c.major)
          ∷ (codes "revision_minor", num c.minor)
          ∷ (codes "serial_number_raw", num serial)
          ∷ [];
      parsing_status = ParsingStatus.complete;
      binary_fields = [];
    }

-- What is returned for an identity: a complete result, or an exception if the name is longer than
-- the model allows.
abbrev pub reported_identity : CipIdentity → (dst : Text) → Option ParseResult
reported_identity c dst =
    if leb (length c.product_name) 128
    then some (record {
      fingerprint = some (expected_fingerprint c dst);
      parsing_status = ParsingStatus.complete;
      protocol = Protocol.ethernetip;
      source_address = address_text c;
      destination_address = dst;
      error = none;
    })
    else none

complete_result_lem :
    (c : CipIdentity) (dst : Text)
    → c.vendor_id < 65536
    → c.major < 256
    → c.minor < 256
    → build_complete_result (identity_item c) dst ≡ reported_identity c dst
unfolding build_complete_result validate_fingerprint
complete_result_lem c dst v m n =
    let a = vendor-within (some c.vendor_id) v in
    let b = firmware-within (some c.major) (some c.minor) m n in
    let e = name_within c.product_name in
    elim (Bool-cases (leb (length c.product_name) 128)) [
      | inl f ↦ rw (a, b, e, f, ← map_device_code_lem c.device_type) refl
      | inr f ↦ rw (a, b, e, f) refl
    ]
  where
    name_within : (s : Text) → within 128 (name_option s) ≡ leb (length s) 128
    name_within [] = refl
    name_within (k ∷ s) = refl

parsed :
    (message src dst : Text) (n version family port zero_a zero_b zero_c zero_d : ℕ)
    (c : CipIdentity) (status : ℕ) (tail : Bytes) (more : ℕ)
    → 33 + length c.product_name ≤ n
    → All (λ k. k < 128) c.product_name
    → c.vendor_id < 65536
    → c.major < 256
    → c.minor < 256
    → parse_items message src dst (suc more) (
        le16_field 0x000c
          (le16_field n (cip_fields version family port zero_a zero_b zero_c zero_d c status tail)))
      ≡ reported_identity c dst
unfolding parse_items parse_cip_identity_item item_outcome
parsed message src dst n version family port zero_a zero_b zero_c zero_d c status tail more fits
      ascii v m k =
    let fields = cip_fields version family port zero_a zero_b zero_c zero_d c status tail in
    let long : ltb (length (le16_field 0x000c (le16_field n fields))) 4 ≡ false = ground arith in
    rw
      (
        long,
        le16_split n,
        read_cip_item_lem src n version family port zero_a zero_b zero_c zero_d c status tail fits
            ascii,
      )
      (complete_result_lem c dst v m k)

-- A List Identity response that declares at least its items, with any items of other types in front
-- of the identity and anything behind it, gives back every field of the identity, as a complete
-- result, if the name has 128 characters at most; for a longer name, which the protocol allows, an
-- exception leaves the parser.
pub parse_ethernetip-list_identity :
    (message : Text) (header : Bytes) (items : List (ℕ × Bytes)) (more n : ℕ)
    (version family port zero_a zero_b zero_c zero_d : ℕ) (c : CipIdentity) (status : ℕ)
    (tail : Bytes)
    → length header ≡ 20
    → All (λ item. nat_eq item.0 0x000c ≡ false) items
    → 33 + length c.product_name ≤ n
    → All (λ k. k < 128) c.product_name
    → c.vendor_id < 65536
    → c.major < 256
    → c.minor < 256
    → let packet = list_identity header (length items + suc more) (
        other_items items (
          le16_field 0x000c (
            le16_field n
              (cip_fields version family port zero_a zero_b zero_c zero_d c status tail)))) in
      parse_ethernetip message packet ≡ reported_identity c (extract_destination_address packet)
unfolding parse_ethernetip parse_list_identity_response
parse_ethernetip-list_identity message header items more n version family port zero_a zero_b zero_c
      zero_d c status tail hh other fits ascii v m k =
    let fields = cip_fields version family port zero_a zero_b zero_c zero_d c status tail in
    let identity = le16_field 0x000c (le16_field n fields) in
    let rest = other_items items identity in
    let count = length items + suc more in
    let body = le16_field count rest in
    let packet = list_identity header count rest in
    let src = extract_source_address packet in
    let dst = extract_destination_address packet in
    let total : length packet ≡ 4 + (20 + length body) =
      omega (arith, hh, length-append header body) in
    let a : ltb (length packet) 24 ≡ false = ground (arith, total) in
    let b : ltb (length packet) (24 + (2 + length rest)) ≡ false = ground (arith, total) in
    let past : drop 20 (header ++ body) ≡ body =
      ap (λ j. drop j (header ++ body)) (sym hh) ∙ drop-append_length header body in
    let d : ltb (2 + length rest) 2 ≡ false = ground arith in
    let e : nat_eq count 0 ≡ false = ground arith in
    rw
      (
        a,
        le16_split (2 + length rest),
        b,
        past,
        d,
        le16_split count,
        e,
        parse_items-other_items message src dst items (suc more) identity other,
      )
      (parsed message src dst n version family port zero_a zero_b zero_c zero_d c status tail more
        fits ascii v m k)
