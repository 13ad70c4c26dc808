-- ===== src/Parsers/Dnp3.antt =====
-- The link layer of app/parsers/dnp3.py and its loop over the device attributes. How a value is
-- written as text is an argument, a decoder, which gets the data type and the bytes. The bytes
-- are those from the current offset on.
pub mod Link
pub mod Loop
pub mod Packets
pub mod Values
mod Tests
use ot_asset_discovery.Parsers.{Bytes, byte_at}
use ot_asset_discovery.Prelude.{
  ℕ, zero, suc, ◌+◌, ◌-◌, ◌*◌, min, Bool, true, false, Option, none, some, [], ◌∷◌, ◌++◌, ltb, leb,
  nat_eq, if◌then◌else◌, length, take, drop, Eq, nat_keys, Text, codes, text_keys,
}
use ot_asset_discovery.Prelude.Dict.{Dict, insert}

abbrev pub min_frame_length : ℕ
min_frame_length = 10

-- The blocks of up to 16 bytes behind the header, each with its two CRC bytes left out. Where
-- the packet ends early, the last block is what there is.
unfoldable pub strip_blocks : (fuel remaining : ℕ) → Bytes → Bytes
strip_blocks zero remaining bs = []
strip_blocks (suc fuel) remaining [] = []
strip_blocks (suc fuel) remaining (b ∷ bs) =
    let size : ℕ = min (min 16 remaining) (length (b ∷ bs)) in
    let rest = strip_blocks fuel (remaining - size) (drop (size + 2) (b ∷ bs)) in
    if nat_eq remaining 0 then [] else take size (b ∷ bs) ++ rest

abbrev pub some_bytes : Bytes → Option Bytes
some_bytes [] = none
some_bytes (b ∷ bs) = some (b ∷ bs)

-- Every round takes at least one byte, so the packet's length is enough fuel.
unfoldable pub extract_user_data : Bytes → Option Bytes
extract_user_data raw =
    if leb (length raw) min_frame_length
    then none
    else if leb (byte_at raw 2) 5
    then none
    else some_bytes (strip_blocks (length raw) (byte_at raw 2 - 5) (drop 10 raw))

-- a little-endian unsigned 16-bit field
abbrev pub le16 : ℕ → ℕ → ℕ
le16 lo hi = lo + hi * 256

-- What one round of an inner loop leaves: whether the loop is left, the value that it read, and
-- the bytes behind it.
pub record Item : Type 0 where
  pub stopped : Bool
  pub value : Option Text
  pub rest : Bytes

-- How the bytes of a value are written, by its data type; `none` for no bytes.
abbrev pub Decoder : Type 0
Decoder = ℕ → Bytes → Option Text

-- `_read_device_attribute_value`
pub read_value : Decoder → Bytes → Option Text × Bytes
read_value decode_value [] = (none, [])
read_value decode_value (t ∷ []) = (none, t ∷ [])
read_value decode_value (t ∷ len ∷ bs) =
    if ltb (length bs) len then (none, bs) else (decode_value t (take len bs), drop len bs)

-- `_parse_attribute_object_data`
pub parse_object_data : Decoder → Bytes → Option Text
parse_object_data decode_value [] = none
parse_object_data decode_value (t ∷ []) = none
parse_object_data decode_value (t ∷ len ∷ bs) =
    if ltb (length bs) len then none else decode_value t (take len bs)

abbrev pub going : Option Text × Bytes → Item
going (value, bs) = record { stopped = false; value = value; rest = bs }

-- a break, with the bytes from the offset that it leaves
abbrev pub left_at : Bytes → Item
left_at bs = record { stopped = true; value = none; rest = bs }

-- The inner loops' rounds: without an index, with one of one byte, with one of two, and with a
-- length in front.
pub data Qualifier : Type 0 where
  plain indexed wide sized : Qualifier

pub read_item : Decoder → Qualifier → Bytes → Item
read_item decode_value plain bs = going (read_value decode_value bs)
read_item decode_value indexed [] = left_at []
read_item decode_value indexed (i ∷ bs) = going (read_value decode_value bs)
read_item decode_value wide [] = left_at []
read_item decode_value wide (i ∷ []) = left_at (i ∷ [])
read_item decode_value wide (i ∷ k ∷ bs) = going (read_value decode_value bs)
read_item decode_value sized [] = left_at []
read_item decode_value sized (i ∷ []) = left_at (i ∷ [])
read_item decode_value sized (lo ∷ hi ∷ bs) =
    if ltb (length bs) (le16 lo hi)
    then left_at bs
    else going (parse_object_data decode_value (take (le16 lo hi) bs), drop (le16 lo hi) bs)

-- `_variation_to_attribute_name`
abbrev pub attribute_name : ℕ → Option Text
attribute_name v =
    if nat_eq v 252
    then some (codes "manufacturer")
    else if nat_eq v 253
    then some (codes "model")
    else if nat_eq v 254
    then some (codes "firmware_version")
    else if nat_eq v 246
    then some (codes "serial_number")
    else if nat_eq v 245
    then some (codes "device_id")
    else if nat_eq v 251
    then some (codes "hardware_version")
    else if nat_eq v 250
    then some (codes "location")
    else none

abbrev pub Attributes : Type 0
Attributes = Dict Text Text

abbrev pub set_named : Option Text → Text → Attributes → Attributes
set_named none value attributes = attributes
set_named (some name) value attributes = insert name value attributes

abbrev pub set_attribute : (variation : ℕ) → Option Text → Attributes → Attributes
set_attribute variation none attributes = attributes
set_attribute variation (some value) attributes =
    set_named (attribute_name variation) value attributes

-- An inner loop.
pub read_items :
    Decoder → Qualifier → (count variation : ℕ) → Bytes → Attributes → Bytes × Attributes
read_items decode_value q zero variation bs attributes = (bs, attributes)
read_items decode_value q (suc n) variation bs attributes =
    let item = read_item decode_value q bs in
    let rest =
      read_items decode_value q n variation item.rest
        (set_attribute variation item.value attributes) in
    if item.stopped then (item.rest, attributes) else rest

-- The loop's qualifier, its count and the bytes behind the range; `none` leaves the outer loop.
pub read_range : (qualifier : ℕ) → Bytes → Option (Qualifier × (ℕ × Bytes))
read_range q [] = none
read_range q (a ∷ []) =
    if nat_eq q 0x17
    then some (indexed, (a, []))
    else if nat_eq q 0x5b
    then some (sized, (a, []))
    else none
read_range q (a ∷ b ∷ bs) =
    if nat_eq q 0
    then some (plain, (b + 1 - a, bs))
    else if nat_eq q 0x17
    then some (indexed, (a, b ∷ bs))
    else if nat_eq q 0x5b
    then some (sized, (a, b ∷ bs))
    else if nat_eq q 0x28
    then some (wide, (le16 a b, bs))
    else none

-- `_parse_device_attributes`, on fuel
pub parse_from : Decoder → (fuel : ℕ) → Bytes → Attributes → Attributes
parse_from decode_value zero bs attributes = attributes
parse_from decode_value (suc fuel) [] attributes = attributes
parse_from decode_value (suc fuel) (g ∷ []) attributes = attributes
parse_from decode_value (suc fuel) (g ∷ v ∷ []) attributes = attributes
parse_from decode_value (suc fuel) (g ∷ v ∷ q ∷ bs) attributes =
    if nat_eq g 0
    then elim (read_range q bs) [
      | none ↦ attributes
      | some (kind, (count, range)) ↦
          let (rest, attributes') = read_items decode_value kind count v range attributes in
          parse_from decode_value fuel rest attributes'
    ]
    else attributes

pub parse_device_attributes : Decoder → Bytes → Attributes
parse_device_attributes decode_value bs = parse_from decode_value (length bs) bs []
