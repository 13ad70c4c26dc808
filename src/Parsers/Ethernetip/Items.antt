-- ===== src/Parsers/Ethernetip/Items.antt =====
-- CIP identity items of app/parsers/ethernetip.py, against an encoder.
use ot_asset_discovery.Parsers.{Bytes}
use ot_asset_discovery.Parsers.Ethernetip.{
  CipItem, empty_item, going, finished, read_field, skip, set_address, set_vendor, set_device_type,
  set_product_code, set_revision, set_serial, read_revision, named_if, read_name, read_cip_item,
}
use ot_asset_discovery.Parsers.Dnp3.Values.{show_number}
use ot_asset_discovery.Parsers.S7comm.Records.{decode_ascii_replace}
use ot_asset_discovery.Prelude.{
  ℕ, ◌+◌, ◌-◌, ◌*◌, ◌/◌, ◌%◌, ◌≤◌, ◌<◌, ◌≡◌, refl, ap, true, false, Option, none, some, [], ◌∷◌,
  ◌++◌, arith, ltb, length, drop, All, take-append_length, Text,
}

-- The identity of a device; the serial number is the number of its two halves.
pub record CipIdentity : Type 0 where
  pub ip_a : ℕ
  pub ip_b : ℕ
  pub ip_c : ℕ
  pub ip_d : ℕ
  pub vendor_id : ℕ
  pub device_type : ℕ
  pub product_code : ℕ
  pub major : ℕ
  pub minor : ℕ
  pub serial_low : ℕ
  pub serial_high : ℕ
  pub product_name : Text

-- A little-endian 16-bit field in front of the rest.
abbrev pub le16_field : ℕ → Bytes → Bytes
le16_field n rest = n % 256 ∷ n / 256 ∷ rest

abbrev name_part : CipIdentity → Bytes → Bytes
name_part c tail = length c.product_name ∷ (c.product_name ++ tail)

abbrev serial_part : CipIdentity → Bytes → Bytes
serial_part c tail = le16_field c.serial_low (le16_field c.serial_high (name_part c tail))

abbrev revision_part : CipIdentity → (status : ℕ) → Bytes → Bytes
revision_part c status tail = c.major ∷ c.minor ∷ le16_field status (serial_part c tail)

abbrev codes_part : CipIdentity → (status : ℕ) → Bytes → Bytes
codes_part c status tail =
    le16_field c.vendor_id
      (le16_field c.device_type (le16_field c.product_code (revision_part c status tail)))

-- The fields of a CIP identity item, with the bytes that are not read: the protocol version, the
-- family and port of the socket, and the eight bytes behind its address.
abbrev pub cip_fields :
    (version family port : ℕ)
    → (zero_a zero_b zero_c zero_d : ℕ) → CipIdentity
    → (status : ℕ) → Bytes
    → Bytes
cip_fields version family port zero_a zero_b zero_c zero_d c status tail = le16_field version (
    le16_field family (
      le16_field port (
        c.ip_a
        ∷ c.ip_b
        ∷ c.ip_c
        ∷ c.ip_d
        ∷ le16_field zero_a (
            le16_field zero_b (le16_field zero_c (le16_field zero_d (codes_part c status tail)))))))

abbrev pub address_text : CipIdentity → Text
address_text c =
    show_number c.ip_a
    ++ b'.' ∷ (show_number c.ip_b ++ b'.' ∷ (show_number c.ip_c ++ b'.' ∷ show_number c.ip_d))

abbrev pub name_option : Text → Option Text
name_option [] = none
name_option (k ∷ s) = some (k ∷ s)

-- What is to be read.
abbrev pub identity_item : CipIdentity → CipItem
identity_item c = record {
  source_address = address_text c;
  device_ip = some (address_text c);
  vendor_id = some c.vendor_id;
  device_type = some c.device_type;
  product_code = some c.product_code;
  revision_major = some c.major;
  revision_minor = some c.minor;
  serial_number = some (c.serial_low + 65536 * c.serial_high);
  product_name = name_option c.product_name;
  has_any_field = true;
}

read_field-going :
    (size needed : ℕ) (set : Bytes → CipItem → CipItem) (i : CipItem) (left : ℕ) (bs : Bytes)
    → size ≤ left
    → needed ≤ length bs
    → read_field size needed set (going i left bs) ≡ going (set bs i) (left - size) (drop size bs)
unfolding read_field
read_field-going size needed set i left bs h g =
    let a : ltb left size ≡ false = ground (arith, h) in
    let b : ltb (length bs) needed ≡ false = ground (arith, g) in rw (a, b) refl

pub le16_split : (n : ℕ) → n % 256 + 256 * (n / 256) ≡ n
le16_split n = omega arith

decode_plain : (s : Text) → All (λ k. k < 128) s → decode_ascii_replace s ≡ s
decode_plain [] h = refl
decode_plain (k ∷ s) h =
    let e : ltb k 128 ≡ true = ground (arith, h.0) in rw (e, decode_plain s h.1) refl

abbrev before_name : CipIdentity → CipItem
before_name c = record (identity_item c) { product_name = none }

named_if_lem :
    (c : CipIdentity) (s : Text) (tail : Bytes)
    → All (λ k. k < 128) s
    → named_if (length s) (s ++ tail) (before_name c)
      ≡ record (identity_item c) { product_name = name_option s }
named_if_lem c [] tail h = refl
named_if_lem c (k ∷ s) tail h =
    let e : ltb 0 (length (k ∷ s)) ≡ true = ground arith in
    let f : ltb k 128 ≡ true = ground (arith, h.0) in
    rw (e, f, take-append_length s tail, decode_plain s h.1) refl

read_name_lem :
    (c : CipIdentity) (left : ℕ) (tail : Bytes)
    → 1 + length c.product_name ≤ left
    → All (λ k. k < 128) c.product_name
    → read_name (going (before_name c) left (name_part c tail)) ≡ finished (identity_item c)
unfolding read_name
read_name_lem c left tail h g =
    let a : ltb left 1 ≡ false = ground (arith, h) in
    let b : ltb (length (name_part c tail)) 1 ≡ false = ground arith in
    let d : ltb (left - 1) (length c.product_name) ≡ false = ground (arith, h) in
    rw (a, b, d) (ap finished (named_if_lem c c.product_name tail g))

-- Every field of an item is read where the item declares at least its size.
pub read_cip_item_lem :
    (src : Text) (n version family port zero_a zero_b zero_c zero_d : ℕ) (c : CipIdentity)
    (status : ℕ) (tail : Bytes)
    → 33 + length c.product_name ≤ n
    → All (λ k. k < 128) c.product_name
    → read_cip_item show_number src n
        (cip_fields version family port zero_a zero_b zero_c zero_d c status tail)
      ≡ finished (identity_item c)
unfolding read_cip_item read_revision
read_cip_item_lem src n version family port zero_a zero_b zero_c zero_d c status tail h g =
    let bs = cip_fields version family port zero_a zero_b zero_c zero_d c status tail in
    let i = empty_item src in
    let i1 = set_address show_number (drop 2 bs) i in
    let b1 = codes_part c status tail in
    let i2 = set_vendor b1 i1 in
    let b2 = le16_field c.device_type (le16_field c.product_code (revision_part c status tail)) in
    let i3 = set_device_type b2 i2 in
    let b3 = le16_field c.product_code (revision_part c status tail) in
    let i4 = set_product_code b3 i3 in
    let b4 = revision_part c status tail in
    let i5 = set_revision (some c.major) (some c.minor) i4 in
    let b5 = le16_field status (serial_part c tail) in
    let b6 = serial_part c tail in
    let m = n - 2 - 16 - 2 - 2 - 2 in
    let r1 : ltb m 2 ≡ false = ground (arith, h) in
    let r2 : ltb (length b4) 1 ≡ false = ground arith in
    let r3 : ltb (length b4) 2 ≡ false = ground arith in
    rw
      (
        read_field-going 2 0 skip i n bs (omega (arith, h)) (omega arith),
        read_field-going 16 8 (set_address show_number) i (n - 2) (drop 2 bs) (omega (arith, h))
            (omega arith),
        read_field-going 2 2 set_vendor i1 (n - 2 - 16) b1 (omega (arith, h)) (omega arith),
        read_field-going 2 2 set_device_type i2 (n - 2 - 16 - 2) b2 (omega (arith, h))
            (omega arith),
        read_field-going 2 2 set_product_code i3 (n - 2 - 16 - 2 - 2) b3 (omega (arith, h))
            (omega arith),
        r1,
        r2,
        r3,
        read_field-going 2 0 skip i5 (m - 2) b5 (omega (arith, h)) (omega arith),
        read_field-going 4 4 set_serial i5 (m - 2 - 2) b6 (omega (arith, h)) (omega arith),
        le16_split c.vendor_id,
        le16_split c.device_type,
        le16_split c.product_code,
        le16_split c.serial_low,
        le16_split c.serial_high,
      )
      (read_name_lem c (m - 2 - 2 - 4) tail (omega (arith, h)) g)
