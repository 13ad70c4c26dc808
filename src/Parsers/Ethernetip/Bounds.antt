-- ===== src/Parsers/Ethernetip/Bounds.antt =====
-- How long the product name of app/parsers/ethernetip.py can be: no longer than what a packet
-- holds behind the fields in front of it.
use ot_asset_discovery.Parsers.{Bytes, byte_at}
use ot_asset_discovery.Parsers.Ethernetip.{
  CipItem, empty_item, Reading, going, stopped, failed, finished, read_field, skip, set_address,
  set_vendor, set_device_type, set_product_code, set_serial, read_revision, named_if, read_name,
  read_cip_item,
}
use ot_asset_discovery.Parsers.S7comm.Records.{decode_ascii_replace}
use ot_asset_discovery.Prelude.{
  ℕ, ◌-◌, ◌≤◌, ◌≡◌, refl, ◌∙◌, inl, inr, Option, none, some, [], ◌∷◌, arith, ltb, Bool-cases,
  length, take, drop, length-take, length-drop, Text,
}

-- No name has been read, and at most so many bytes are left of the packet.
abbrev IsUnnamed : ℕ → Reading → Type 0
IsUnnamed n (going i left bs) = (i.product_name ≡ none) × (length bs ≤ n)
IsUnnamed n (stopped i) = i.product_name ≡ none
IsUnnamed n (failed i) = i.product_name ≡ none
IsUnnamed n (finished i) = i.product_name ≡ none

abbrev pub NameWithin : ℕ → Option Text → Type 0
NameWithin n none = Unit
NameWithin n (some s) = length s ≤ n

-- The item at which a reading ends.
abbrev pub item_of : Reading → CipItem
item_of (going i left bs) = i
item_of (stopped i) = i
item_of (failed i) = i
item_of (finished i) = i

read_field-IsUnnamed :
    (size needed : ℕ) (set : Bytes → CipItem → CipItem) (n : ℕ) (r : Reading)
    → ((bs : Bytes) (i : CipItem) → (set bs i).product_name ≡ i.product_name)
    → IsUnnamed n r
    → IsUnnamed (n - size) (read_field size needed set r)
unfolding read_field
read_field-IsUnnamed size needed set n (going i left bs) keeps h =
    elim (Bool-cases (ltb left size)) [
      | inl a ↦ rw a h.0
      | inr a ↦ rw a (elim (Bool-cases (ltb (length bs) needed)) [
        | inl b ↦ rw b h.0
        | inr b ↦ rw b (keeps bs i ∙ h.0, omega (arith, length-drop size bs, h.1))
      ])
    ]
read_field-IsUnnamed size needed set n (stopped i) keeps h = h
read_field-IsUnnamed size needed set n (failed i) keeps h = h
read_field-IsUnnamed size needed set n (finished i) keeps h = h

read_revision-IsUnnamed :
    (n : ℕ) (r : Reading) → IsUnnamed n r → IsUnnamed (n - 2) (read_revision r)
unfolding read_revision
read_revision-IsUnnamed n (going i left bs) h = elim (Bool-cases (ltb left 2)) [
  | inl a ↦ rw a h.0
  | inr a ↦ rw a (elim (Bool-cases (ltb (length bs) 1)) [
    | inl b ↦ rw b h.0
    | inr b ↦ rw b (elim (Bool-cases (ltb (length bs) 2)) [
      | inl c ↦ rw c h.0
      | inr c ↦ rw c (h.0, omega (arith, length-drop 2 bs, h.1))
    ])
  ])
]
read_revision-IsUnnamed n (stopped i) h = h
read_revision-IsUnnamed n (failed i) h = h
read_revision-IsUnnamed n (finished i) h = h

length-decode_ascii_replace : (bs : Bytes) → length (decode_ascii_replace bs) ≡ length bs
length-decode_ascii_replace [] = refl
length-decode_ascii_replace (b ∷ bs) = omega (arith, length-decode_ascii_replace bs)

unnamed : (n : ℕ) (o : Option Text) → o ≡ none → NameWithin n o
unnamed n o h = rw h tt

named_if-NameWithin :
    (size n : ℕ) (bs : Bytes) (i : CipItem)
    → i.product_name ≡ none
    → length bs ≤ n
    → NameWithin n (named_if size bs i).product_name
named_if-NameWithin size n bs i h g = elim (Bool-cases (ltb 0 size)) [
  | inl a ↦ rw a (omega (arith, length-decode_ascii_replace (take size bs), length-take size bs, g))
  | inr a ↦ rw a (unnamed n i.product_name h)
]

read_name-NameWithin :
    (n : ℕ) (r : Reading) → IsUnnamed n r → NameWithin (n - 1) (item_of (read_name r)).product_name
unfolding read_name
read_name-NameWithin n (going i left bs) h =
    let size = byte_at bs 0 in
    let g : length (drop 1 bs) ≤ n - 1 = omega (arith, length-drop 1 bs, h.1) in
    elim (Bool-cases (ltb left 1)) [
      | inl a ↦ rw a (unnamed (n - 1) i.product_name h.0)
      | inr a ↦ rw a (elim (Bool-cases (ltb (length bs) 1)) [
        | inl b ↦ rw b (unnamed (n - 1) i.product_name h.0)
        | inr b ↦ rw b (elim (Bool-cases (ltb (left - 1) size)) [
          | inl c ↦ rw c (named_if-NameWithin (left - 1) (n - 1) (drop 1 bs) i h.0 g)
          | inr c ↦ rw c (named_if-NameWithin size (n - 1) (drop 1 bs) i h.0 g)
        ])
      ])
    ]
read_name-NameWithin n (stopped i) h = unnamed (n - 1) i.product_name h
read_name-NameWithin n (failed i) h = unnamed (n - 1) i.product_name h
read_name-NameWithin n (finished i) h = unnamed (n - 1) i.product_name h

NameWithin-mono : (m n : ℕ) (o : Option Text) → m ≤ n → NameWithin m o → NameWithin n o
NameWithin-mono m n none h g = tt
NameWithin-mono m n (some s) h g = omega (arith, h, g)

-- The name is at least 33 bytes shorter than the item's part of the packet.
pub read_cip_item-NameWithin :
    (show_byte : ℕ → Text) (src : Text) (item_length : ℕ) (bs : Bytes)
    → NameWithin
        (length bs - 33)
        (item_of (read_cip_item show_byte src item_length bs)).product_name
unfolding read_cip_item
read_cip_item-NameWithin show_byte src item_length bs =
    let n = length bs in
    let start : IsUnnamed n (going (empty_item src) item_length bs) = (refl, omega arith) in
    let version = read_field-IsUnnamed 2 0 skip n _ (λ b i. refl) start in
    let address =
      read_field-IsUnnamed 16 8 (set_address show_byte) (n - 2) _ (λ b i. refl) version in
    let vendor = read_field-IsUnnamed 2 2 set_vendor (n - 2 - 16) _ (λ b i. refl) address in
    let device_type =
      read_field-IsUnnamed 2 2 set_device_type (n - 2 - 16 - 2) _ (λ b i. refl) vendor in
    let product =
      read_field-IsUnnamed 2 2 set_product_code (n - 2 - 16 - 2 - 2) _ (λ b i. refl) device_type in
    let revision = read_revision-IsUnnamed (n - 2 - 16 - 2 - 2 - 2) _ product in
    let status =
      read_field-IsUnnamed 2 0 skip (n - 2 - 16 - 2 - 2 - 2 - 2) _ (λ b i. refl) revision in
    let serial =
      read_field-IsUnnamed 4 4 set_serial (n - 2 - 16 - 2 - 2 - 2 - 2 - 2) _ (λ b i. refl) status in
    NameWithin-mono (n - 2 - 16 - 2 - 2 - 2 - 2 - 2 - 4 - 1) (n - 33) _ (omega arith)
      (read_name-NameWithin (n - 2 - 16 - 2 - 2 - 2 - 2 - 2 - 4) _ serial)
