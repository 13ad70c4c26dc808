-- ===== src/Parsers/Ethernetip.antt =====
-- The fields of a CIP identity item in app/parsers/ethernetip.py. A reader stands at the bytes
-- from the current offset on, with the number of bytes that the item still declares; the packet
-- may end before the item does.
pub mod Packets
pub mod Bounds
pub mod Numbers
pub mod Results
pub mod Items
pub mod Frames
mod Tests
use ot_asset_discovery.Parsers.{Bytes, byte_at}
use ot_asset_discovery.Parsers.S7comm.{dotted}
use ot_asset_discovery.Parsers.S7comm.Records.{decode_ascii_replace}
use ot_asset_discovery.Prelude.{
  ℕ, ◌+◌, ◌-◌, ◌*◌, Bool, true, false, Option, none, some, ltb, if◌then◌else◌, length, take, drop,
  Text,
}

abbrev pub le16_at : Bytes → ℕ
le16_at bs = byte_at bs 0 + 256 * byte_at bs 1

abbrev pub le32_at : Bytes → ℕ
le32_at bs = le16_at bs + 65536 * le16_at (drop 2 bs)

-- The local variables of the function; `has_any_field` says whether one of those behind the
-- address is there.
pub record CipItem : Type 0 where
  pub source_address : Text
  pub device_ip : Option Text
  pub vendor_id : Option ℕ
  pub device_type : Option ℕ
  pub product_code : Option ℕ
  pub revision_major : Option ℕ
  pub revision_minor : Option ℕ
  pub serial_number : Option ℕ
  pub product_name : Option Text
  pub has_any_field : Bool

abbrev pub empty_item : Text → CipItem
empty_item src = record {
  source_address = src;
  device_ip = none;
  vendor_id = none;
  device_type = none;
  product_code = none;
  revision_major = none;
  revision_minor = none;
  serial_number = none;
  product_name = none;
  has_any_field = false;
}

-- Reading on, or out by the end of the item, by the end of the packet (a struct.error or an
-- IndexError), or with all fields read.
pub data Reading : Type 0 where
  going : CipItem → (left : ℕ) → Bytes → Reading
  stopped failed finished : CipItem → Reading

-- A field of `size` bytes, of which the first `needed` are read.
unfoldable pub read_field : (size needed : ℕ) → (Bytes → CipItem → CipItem) → Reading → Reading
read_field size needed set (going i left bs) =
    if ltb left size
    then stopped i
    else if ltb (length bs) needed
    then failed i
    else going (set bs i) (left - size) (drop size bs)
read_field size needed set (stopped i) = stopped i
read_field size needed set (failed i) = failed i
read_field size needed set (finished i) = finished i

abbrev pub skip : Bytes → CipItem → CipItem
skip bs i = i

abbrev pub set_address : (show_byte : ℕ → Text) → Bytes → CipItem → CipItem
set_address show_byte bs i = record {
  source_address = dotted show_byte bs 4;
  device_ip = some (dotted show_byte bs 4);
  vendor_id = i.vendor_id;
  device_type = i.device_type;
  product_code = i.product_code;
  revision_major = i.revision_major;
  revision_minor = i.revision_minor;
  serial_number = i.serial_number;
  product_name = i.product_name;
  has_any_field = i.has_any_field;
}

abbrev pub set_vendor : Bytes → CipItem → CipItem
set_vendor bs i = record {
  source_address = i.source_address;
  device_ip = i.device_ip;
  vendor_id = some (le16_at bs);
  device_type = i.device_type;
  product_code = i.product_code;
  revision_major = i.revision_major;
  revision_minor = i.revision_minor;
  serial_number = i.serial_number;
  product_name = i.product_name;
  has_any_field = true;
}

abbrev pub set_device_type : Bytes → CipItem → CipItem
set_device_type bs i = record {
  source_address = i.source_address;
  device_ip = i.device_ip;
  vendor_id = i.vendor_id;
  device_type = some (le16_at bs);
  product_code = i.product_code;
  revision_major = i.revision_major;
  revision_minor = i.revision_minor;
  serial_number = i.serial_number;
  product_name = i.product_name;
  has_any_field = true;
}

abbrev pub set_product_code : Bytes → CipItem → CipItem
set_product_code bs i = record {
  source_address = i.source_address;
  device_ip = i.device_ip;
  vendor_id = i.vendor_id;
  device_type = i.device_type;
  product_code = some (le16_at bs);
  revision_major = i.revision_major;
  revision_minor = i.revision_minor;
  serial_number = i.serial_number;
  product_name = i.product_name;
  has_any_field = true;
}

abbrev pub set_revision : (major minor : Option ℕ) → CipItem → CipItem
set_revision major minor i = record {
  source_address = i.source_address;
  device_ip = i.device_ip;
  vendor_id = i.vendor_id;
  device_type = i.device_type;
  product_code = i.product_code;
  revision_major = major;
  revision_minor = minor;
  serial_number = i.serial_number;
  product_name = i.product_name;
  has_any_field = i.has_any_field;
}

abbrev pub set_serial : Bytes → CipItem → CipItem
set_serial bs i = record {
  source_address = i.source_address;
  device_ip = i.device_ip;
  vendor_id = i.vendor_id;
  device_type = i.device_type;
  product_code = i.product_code;
  revision_major = i.revision_major;
  revision_minor = i.revision_minor;
  serial_number = some (le32_at bs);
  product_name = i.product_name;
  has_any_field = true;
}

abbrev pub set_name : Text → CipItem → CipItem
set_name name i = record {
  source_address = i.source_address;
  device_ip = i.device_ip;
  vendor_id = i.vendor_id;
  device_type = i.device_type;
  product_code = i.product_code;
  revision_major = i.revision_major;
  revision_minor = i.revision_minor;
  serial_number = i.serial_number;
  product_name = some name;
  has_any_field = true;
}

-- The two bytes are read one after the other; some field stands before them.
unfoldable pub read_revision : Reading → Reading
read_revision (going i left bs) =
    if ltb left 2
    then stopped i
    else if ltb (length bs) 1
    then failed i
    else if ltb (length bs) 2
    then failed (set_revision (some (byte_at bs 0)) i.revision_minor i)
    else going (set_revision (some (byte_at bs 0)) (some (byte_at bs 1)) i) (left - 2) (drop 2 bs)
read_revision (stopped i) = stopped i
read_revision (failed i) = failed i
read_revision (finished i) = finished i

-- `raw_bytes[offset : offset + size]` as a name, where the size is not 0.
abbrev pub named_if : (size : ℕ) → Bytes → CipItem → CipItem
named_if size bs i = if ltb 0 size then set_name (decode_ascii_replace (take size bs)) i else i

-- The length of the name, and then the name or what the item still has of it.
unfoldable pub read_name : Reading → Reading
read_name (going i left bs) =
    let size = byte_at bs 0 in
    if ltb left 1
    then stopped i
    else if ltb (length bs) 1
    then failed i
    else if ltb (left - 1) size
    then stopped (named_if (left - 1) (drop 1 bs) i)
    else finished (named_if size (drop 1 bs) i)
read_name (stopped i) = stopped i
read_name (failed i) = failed i
read_name (finished i) = finished i

-- Protocol version, socket address, vendor, device type, product code, revision, status, serial
-- number and name.
unfoldable pub read_cip_item :
    (show_byte : ℕ → Text) → (src : Text) → (item_length : ℕ) → Bytes → Reading
read_cip_item show_byte src item_length bs =
    let address =
      read_field 16 8 (set_address show_byte)
        (read_field 2 0 skip (going (empty_item src) item_length bs)) in
    let codes_read =
      read_field 2 2 set_product_code
        (read_field 2 2 set_device_type (read_field 2 2 set_vendor address)) in
    read_name (read_field 4 4 set_serial (read_field 2 0 skip (read_revision codes_read)))
