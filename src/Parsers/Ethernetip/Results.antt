-- ===== src/Parsers/Ethernetip/Results.antt =====
-- What app/parsers/ethernetip.py returns for any bytes.
use ot_asset_discovery.Domain.{
  Protocol, ParsingStatus, Value, DeviceFingerprint, within, validate_fingerprint, ParseResult,
}
use ot_asset_discovery.Parsers.{Bytes}
use ot_asset_discovery.Parsers.Ethernetip.{
  le16_at, CipItem, Reading, going, stopped, failed, finished,
}
use ot_asset_discovery.Parsers.Ethernetip.Bounds.{NameWithin, item_of, read_cip_item-NameWithin}
use ot_asset_discovery.Parsers.Ethernetip.Numbers.{
  AreBytes, drop-AreBytes, Below, IsSmall, read_cip_item-IsSmall,
}
use ot_asset_discovery.Parsers.Ethernetip.Packets.{
  firmware_text, vendor_text, complete_data, partial_data, item_fingerprint, item_result,
  build_complete_result, build_partial_result, item_outcome, parse_cip_identity_item, parse_items,
  parse_list_identity_response, parse_ethernetip,
}
use ot_asset_discovery.Parsers.Dnp3.Values.{digits, show_number}
use ot_asset_discovery.Prelude.{
  ℕ, zero, suc, ◌+◌, ◌-◌, ◌*◌, ◌/◌, ◌%◌, ◌≤◌, ◌<◌, ◌≡◌, refl, ◌≢◌, inl, inr, Bool, true, false,
  Option, none, some, [], ◌∷◌, arith, ltb, nat_eq, if◌then◌else◌, Bool-cases, length, drop,
  length-append, length-drop, Text, codes,
}
use ot_asset_discovery.Prelude.Dict.{Dict}

-- `10 ** k`
power_10 : ℕ → ℕ
power_10 zero = 1
power_10 (suc k) = 10 * power_10 k

-- A number below a power of ten has so many digits at most.
length-digits : (fuel k n : ℕ) → n < power_10 (suc k) → length (digits fuel n) ≤ suc k
unfolding digits power_10
length-digits zero k n h = omega arith
length-digits (suc fuel) zero n h =
    let e : ltb n 10 ≡ true = ground (arith, h) in rw (digits, e) (omega arith)
length-digits (suc fuel) (suc k) n h = elim (Bool-cases (ltb n 10)) [
  | inl e ↦ rw (digits, e) (omega arith)
  | inr e ↦
      rw (digits, e)
        (omega (
          arith,
          length-append (digits fuel (n / 10)) ((48 + n % 10) ∷ []),
          length-digits fuel k (n / 10) (omega (arith, h)),
        ))
]

pub length-show_vendor : (n : ℕ) → n < 65536 → length (show_number n) ≤ 5
unfolding power_10
length-show_vendor n h = length-digits (suc n) 4 n (omega (arith, h))

pub length-show_byte : (n : ℕ) → n < 256 → length (show_number n) ≤ 3
unfolding power_10
length-show_byte n h = length-digits (suc n) 2 n (omega (arith, h))

pub vendor-within : (o : Option ℕ) → Below 65536 o → within 128 (vendor_text o) ≡ true
vendor-within none h = refl
vendor-within (some v) h =
    ground (arith, length-append (codes "VendorID:") (show_number v), length-show_vendor v h)

pub firmware-within :
    (major minor : Option ℕ)
    → Below 256 major
    → Below 256 minor
    → within 64 (firmware_text major minor) ≡ true
firmware-within none minor h g = refl
firmware-within (some m) none h g = refl
firmware-within (some m) (some n) h g = ground (
  arith,
  length-append (show_number m) (b'.' ∷ show_number n),
  length-show_byte m h,
  length-show_byte n g,
)

-- A result says what it found: without a fingerprint it is no_identity; with one it has no error,
-- the fingerprint's status, which is not no_identity, and its addresses, and key fields that fit.
abbrev pub FindingFits : ParseResult → Option DeviceFingerprint → Type 0
FindingFits r none = r.parsing_status ≡ ParsingStatus.no_identity
FindingFits r (some f) =
    (r.error ≡ none)
    × (f.parsing_status ≡ r.parsing_status)
    × (r.parsing_status ≢ ParsingStatus.no_identity)
    × (f.source_address ≡ r.source_address)
    × (f.destination_address ≡ r.destination_address)
    × (validate_fingerprint f ≡ some f)

-- A result of the parser, or an exception over at least so many bytes.
abbrev pub IsReturnedBelow : ℕ → ℕ → Option ParseResult → Type 0
IsReturnedBelow bound n none = bound ≤ n
IsReturnedBelow bound n (some r) = (r.protocol ≡ Protocol.ethernetip) × FindingFits r r.fingerprint

complete≢no_identity : ParsingStatus.complete ≢ ParsingStatus.no_identity
complete≢no_identity h = cc

partial≢no_identity : ParsingStatus.partial ≢ ParsingStatus.no_identity
partial≢no_identity h = cc

item_result_fits :
    (i : CipItem) (dst : Text) (fields : Dict Text Value) (status : ParsingStatus) (n : ℕ)
    → status ≢ ParsingStatus.no_identity
    → IsSmall i
    → NameWithin n i.product_name
    → IsReturnedBelow 129 n
        (item_result (validate_fingerprint (item_fingerprint i dst fields status)))
unfolding validate_fingerprint
item_result_fits i dst fields status n s h g =
    let v = vendor-within i.vendor_id h.vendor in
    let f = firmware-within i.revision_major i.revision_minor h.major h.minor in
    elim (Bool-cases (within 128 i.product_name)) [
      | inl e ↦ rw (v, e, f) (refl, (refl, refl, s, refl, refl, rw (v, e, f) refl))
      | inr e ↦ rw (v, e) (too_long_name i.product_name g e)
    ]
  where
    too_long_name : (o : Option Text) → NameWithin n o → within 128 o ≡ false → 129 ≤ n
    too_long_name none a b = absurd (ground (arith, b))
    too_long_name (some t) a b = ground (arith, a, b)

partial_fits :
    (i : CipItem) (dst : Text) (n : ℕ)
    → IsSmall i
    → NameWithin n i.product_name
    → IsReturnedBelow 129 n (build_partial_result i dst)
unfolding build_partial_result
partial_fits i dst n h g = elim (Bool-cases i.has_any_field) [
  | inl e ↦
      rw e (item_result_fits i dst (partial_data i) ParsingStatus.partial n partial≢no_identity h g)
  | inr e ↦ rw e (refl, refl)
]

either_branch :
    (n : ℕ) (b : Bool) (o p : Option ParseResult)
    → IsReturnedBelow 129 n o
    → IsReturnedBelow 129 n p
    → IsReturnedBelow 129 n (if b then o else p)
either_branch n true o p h g = h
either_branch n false o p h g = g

outcome_fits :
    (message dst : Text) (r : Reading) (n : ℕ)
    → IsSmall (item_of r)
    → NameWithin n (item_of r).product_name
    → IsReturnedBelow 129 n (item_outcome message dst r)
unfolding item_outcome build_complete_result
outcome_fits message dst (going i left bs) n h g =
    item_result_fits i dst (complete_data i) ParsingStatus.complete n complete≢no_identity h g
outcome_fits message dst (finished i) n h g =
    item_result_fits i dst (complete_data i) ParsingStatus.complete n complete≢no_identity h g
outcome_fits message dst (stopped i) n h g = partial_fits i dst n h g
outcome_fits message dst (failed i) n h g =
    either_branch n i.has_any_field (build_partial_result i dst) _ (partial_fits i dst n h g)
      (refl, refl)

-- More bytes in front keep the bound.
more_bytes :
    (a b m n : ℕ) (o : Option ParseResult)
    → (a ≤ m → b ≤ n)
    → IsReturnedBelow a m o
    → IsReturnedBelow b n o
more_bytes a b m n none f h = f h
more_bytes a b m n (some r) f h = h

items_fit :
    (message src dst : Text) (count : ℕ) (bs : Bytes)
    → AreBytes bs
    → IsReturnedBelow 166 (length bs) (parse_items message src dst count bs)
unfolding parse_items parse_cip_identity_item
items_fit message src dst zero bs h = (refl, refl)
items_fit message src dst (suc n) bs h =
    let size = le16_at (drop 2 bs) in
    let rest = drop (4 + size) bs in
    elim (Bool-cases (ltb (length bs) 4)) [
      | inl a ↦ rw a (refl, refl)
      | inr a ↦ rw a (elim (Bool-cases (nat_eq (le16_at bs) 0x000c)) [
        | inl b ↦ rw b (
            more_bytes 129 166 (length (drop 4 bs) - 33) (length bs) _
              (λ k. omega (arith, k, length-drop 4 bs))
              (outcome_fits message dst _ (length (drop 4 bs) - 33)
                (read_cip_item-IsSmall show_number src size (drop 4 bs) (drop-AreBytes 4 bs h))
                (read_cip_item-NameWithin show_number src size (drop 4 bs))))
        | inr b ↦ rw b (
            more_bytes 166 166 (length rest) (length bs) _
              (λ k. omega (arith, k, length-drop (4 + size) bs))
              (items_fit message src dst n rest (drop-AreBytes (4 + size) bs h)))
      ])
    ]

identity_fits :
    (message src dst : Text) (data_length : ℕ) (bs : Bytes)
    → AreBytes bs
    → IsReturnedBelow 168 (length bs) (parse_list_identity_response message src dst data_length bs)
unfolding parse_list_identity_response
identity_fits message src dst data_length bs h = elim (Bool-cases (ltb data_length 2)) [
  | inl a ↦ rw a (refl, refl)
  | inr a ↦ rw a (elim (Bool-cases (nat_eq (le16_at bs) 0)) [
    | inl b ↦ rw b (refl, refl)
    | inr b ↦ rw b (
        more_bytes 166 168 (length (drop 2 bs)) (length bs) _
          (λ k. omega (arith, k, length-drop 2 bs))
          (items_fit message src dst (le16_at bs) (drop 2 bs) (drop-AreBytes 2 bs h)))
  ])
]

-- For any bytes the parser returns, unless there are 192 or more of them, which leave room for a
-- product name that the model refuses. What it returns is no_identity without a fingerprint, and
-- with one it has no error, the status and the addresses of the fingerprint, another status than
-- no_identity, and fields that fit the lengths of the model.
pub parse_ethernetip_returns :
    (message : Text) (bs : Bytes)
    → AreBytes bs
    → IsReturnedBelow 192 (length bs) (parse_ethernetip message bs)
unfolding parse_ethernetip
parse_ethernetip_returns message bs h =
    let size = le16_at (drop 2 bs) in
    elim (Bool-cases (ltb (length bs) 24)) [
      | inl a ↦ rw a (refl, refl)
      | inr a ↦ rw a (elim (Bool-cases (nat_eq (le16_at bs) 0x0063)) [
        | inr b ↦ rw b (refl, refl)
        | inl b ↦ rw b (elim (Bool-cases (ltb (length bs) (24 + size))) [
          | inl c ↦ rw c (refl, refl)
          | inr c ↦ rw c (
              more_bytes 168 192 (length (drop 24 bs)) (length bs) _
                (λ k. omega (arith, k, length-drop 24 bs))
                (identity_fits message _ _ size (drop 24 bs) (drop-AreBytes 24 bs h)))
        ])
      ])
    ]
