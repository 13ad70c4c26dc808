-- ===== src/Parsers/Ethernetip/Numbers.antt =====
-- How large the numbers are that app/parsers/ethernetip.py prints.
use ot_asset_discovery.Parsers.{Bytes, byte_at}
use ot_asset_discovery.Parsers.Ethernetip.{
  CipItem, empty_item, Reading, going, stopped, failed, finished, read_field, skip, set_address,
  set_vendor, set_device_type, set_product_code, set_serial, set_name, read_revision, named_if,
  read_name, read_cip_item,
}
use ot_asset_discovery.Parsers.Ethernetip.Bounds.{item_of}
use ot_asset_discovery.Parsers.S7comm.Records.{decode_ascii_replace}
use ot_asset_discovery.Prelude.{
  ℕ, zero, suc, ◌-◌, ◌<◌, ◌≡◌, refl, inl, inr, Option, none, some, [], ◌∷◌, arith, ltb, Bool-cases,
  length, take, drop, All, Text,
}

abbrev pub AreBytes : Bytes → Type 0
AreBytes bs = All (λ b. b < 256) bs

pub drop-AreBytes : (n : ℕ) (bs : Bytes) → AreBytes bs → AreBytes (drop n bs)
drop-AreBytes zero bs h = h
drop-AreBytes (suc n) [] h = tt
drop-AreBytes (suc n) (b ∷ bs) h = drop-AreBytes n bs h.1

byte_at_bound : (i : ℕ) (bs : Bytes) → AreBytes bs → byte_at bs i < 256
byte_at_bound i [] h = omega arith
byte_at_bound zero (b ∷ bs) h = h.0
byte_at_bound (suc i) (b ∷ bs) h = byte_at_bound i bs h.1

abbrev pub Below : ℕ → Option ℕ → Type 0
Below n none = Unit
Below n (some v) = v < n

-- The numbers that are printed are as small as their fields.
pub record IsSmall (i : CipItem) : Type 0 where
  pub vendor : Below 65536 i.vendor_id
  pub major : Below 256 i.revision_major
  pub minor : Below 256 i.revision_minor

abbrev SmallReading : Reading → Type 0
SmallReading (going i left bs) = IsSmall i × AreBytes bs
SmallReading (stopped i) = IsSmall i
SmallReading (failed i) = IsSmall i
SmallReading (finished i) = IsSmall i

read_field-IsSmall :
    (size needed : ℕ) (set : Bytes → CipItem → CipItem) (r : Reading)
    → ((bs : Bytes) (i : CipItem) → AreBytes bs → IsSmall i → IsSmall (set bs i))
    → SmallReading r
    → SmallReading (read_field size needed set r)
unfolding read_field
read_field-IsSmall size needed set (going i left bs) keeps h = elim (Bool-cases (ltb left size)) [
  | inl a ↦ rw a h.0
  | inr a ↦ rw a (elim (Bool-cases (ltb (length bs) needed)) [
    | inl b ↦ rw b h.0
    | inr b ↦ rw b (keeps bs i h.1 h.0, drop-AreBytes size bs h.1)
  ])
]
read_field-IsSmall size needed set (stopped i) keeps h = h
read_field-IsSmall size needed set (failed i) keeps h = h
read_field-IsSmall size needed set (finished i) keeps h = h

kept-IsSmall :
    (i j : CipItem)
    → (j.vendor_id ≡ i.vendor_id)
      × (j.revision_major ≡ i.revision_major)
      × (j.revision_minor ≡ i.revision_minor)
    → IsSmall i
    → IsSmall j
kept-IsSmall i j e h = record {
  vendor = rw e.0 h.vendor;
  major = rw e.1 h.major;
  minor = rw e.2 h.minor;
}

set_vendor-IsSmall :
    (bs : Bytes) (i : CipItem) → AreBytes bs → IsSmall i → IsSmall (set_vendor bs i)
set_vendor-IsSmall bs i b h = record {
  vendor = omega (arith, byte_at_bound 0 bs b, byte_at_bound 1 bs b);
  major = h.major;
  minor = h.minor;
}

read_revision-IsSmall : (r : Reading) → SmallReading r → SmallReading (read_revision r)
unfolding read_revision
read_revision-IsSmall (going i left bs) h = elim (Bool-cases (ltb left 2)) [
  | inl a ↦ rw a h.0
  | inr a ↦ rw a (elim (Bool-cases (ltb (length bs) 1)) [
    | inl b ↦ rw b h.0
    | inr b ↦ rw b (elim (Bool-cases (ltb (length bs) 2)) [
      | inl c ↦
          rw c (record { vendor = h.0.vendor; major = byte_at_bound 0 bs h.1; minor = h.0.minor })
      | inr c ↦ rw c (
        record {
          vendor = h.0.vendor;
          major = byte_at_bound 0 bs h.1;
          minor = byte_at_bound 1 bs h.1;
        },
        drop-AreBytes 2 bs h.1,
      )
    ])
  ])
]
read_revision-IsSmall (stopped i) h = h
read_revision-IsSmall (failed i) h = h
read_revision-IsSmall (finished i) h = h

named_if-IsSmall : (size : ℕ) (bs : Bytes) (i : CipItem) → IsSmall i → IsSmall (named_if size bs i)
named_if-IsSmall size bs i h = elim (Bool-cases (ltb 0 size)) [
  | inl a ↦
      rw a (kept-IsSmall i (set_name (decode_ascii_replace (take size bs)) i) (refl, refl, refl) h)
  | inr a ↦ rw a h
]

read_name-IsSmall : (r : Reading) → SmallReading r → IsSmall (item_of (read_name r))
unfolding read_name
read_name-IsSmall (going i left bs) h = elim (Bool-cases (ltb left 1)) [
  | inl a ↦ rw a h.0
  | inr a ↦ rw a (elim (Bool-cases (ltb (length bs) 1)) [
    | inl b ↦ rw b h.0
    | inr b ↦ rw b (elim (Bool-cases (ltb (left - 1) (byte_at bs 0))) [
      | inl c ↦ rw c (named_if-IsSmall (left - 1) (drop 1 bs) i h.0)
      | inr c ↦ rw c (named_if-IsSmall (byte_at bs 0) (drop 1 bs) i h.0)
    ])
  ])
]
read_name-IsSmall (stopped i) h = h
read_name-IsSmall (failed i) h = h
read_name-IsSmall (finished i) h = h

pub read_cip_item-IsSmall :
    (show_byte : ℕ → Text) (src : Text) (item_length : ℕ) (bs : Bytes)
    → AreBytes bs
    → IsSmall (item_of (read_cip_item show_byte src item_length bs))
unfolding read_cip_item
read_cip_item-IsSmall show_byte src item_length bs h =
    let start : SmallReading (going (empty_item src) item_length bs) =
      (record { vendor = tt; major = tt; minor = tt }, h) in
    let version = read_field-IsSmall 2 0 skip _ (λ b i c g. g) start in
    let address =
      read_field-IsSmall 16 8 (set_address show_byte) _
        (λ b i c g. kept-IsSmall i (set_address show_byte b i) (refl, refl, refl) g) version in
    let vendor = read_field-IsSmall 2 2 set_vendor _ set_vendor-IsSmall address in
    let device_type =
      read_field-IsSmall 2 2 set_device_type _
        (λ b i c g. kept-IsSmall i (set_device_type b i) (refl, refl, refl) g) vendor in
    let product =
      read_field-IsSmall 2 2 set_product_code _
        (λ b i c g. kept-IsSmall i (set_product_code b i) (refl, refl, refl) g) device_type in
    let revision = read_revision-IsSmall _ product in
    let status = read_field-IsSmall 2 0 skip _ (λ b i c g. g) revision in
    let serial =
      read_field-IsSmall 4 4 set_serial _
        (λ b i c g. kept-IsSmall i (set_serial b i) (refl, refl, refl) g) status in
    read_name-IsSmall _ serial
