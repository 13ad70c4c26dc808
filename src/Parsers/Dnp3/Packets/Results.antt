-- ===== src/Parsers/Dnp3/Packets/Results.antt =====
-- What `parse_dnp3` of app/parsers/dnp3.py returns for any bytes.
use ot_asset_discovery.Prelude.{
  ℕ, ◌≡◌, refl, inl, inr, true, false, ◌&&◌, Option, none, some, [], ◌∷◌, arith, ltb, nat_eq,
  if◌then◌else◌, Bool-cases, is_some, length, nat_keys, Text, codes, text_keys,
}
use ot_asset_discovery.Parsers.{Bytes, byte_at}
use ot_asset_discovery.Domain.{
  Protocol, ParsingStatus, DeviceFingerprint, within, validate_fingerprint, ParseResult,
}
use ot_asset_discovery.Parsers.Modbus.{truncate}
use ot_asset_discovery.Parsers.Modbus.Results.{within-truncate}
use ot_asset_discovery.Parsers.Dnp3.{min_frame_length, extract_user_data, Decoder, Attributes}
use ot_asset_discovery.Parsers.Dnp3.Packets.{
  refused, count_some, identity_fields, identity_status, dnp3_fingerprint, identified,
  identity_result, parse_user_data, parse_dnp3_internal, parse_dnp3,
}
use ot_asset_discovery.Prelude.Dict.{lookup}

abbrev pub Fits : ParsingStatus → Option Text → Option DeviceFingerprint → Type 0
Fits status error none = status ≡ ParsingStatus.no_identity
Fits status error (some f) =
    (error ≡ none)
    × (f.parsing_status ≡ status)
    × (within 128 f.vendor ≡ true)
    × (within 128 f.model ≡ true)
    × (within 64 f.firmware_version ≡ true)
    × (status ≡ (
        if is_some f.vendor
          && (is_some f.model && (is_some f.firmware_version && is_some f.serial_number))
        then ParsingStatus.complete
        else ParsingStatus.partial))

abbrev pub IsReturned : Option ParseResult → Type 0
IsReturned o =
    (r : ParseResult) × (o ≡ some r)
    × (r.protocol ≡ Protocol.dnp3)
    × Fits r.parsing_status r.error r.fingerprint

is_some-truncate : (n : ℕ) (o : Option Text) → is_some (truncate n o) ≡ is_some o
is_some-truncate n none = refl
is_some-truncate n (some s) = refl

status-fields :
    (a b c d : Option Text)
    → nat_eq (count_some (a ∷ b ∷ c ∷ d ∷ [])) 0 ≡ false
    → identity_status (count_some (a ∷ b ∷ c ∷ d ∷ [])) ≡ (
        if is_some a && (is_some b && (is_some c && is_some d))
        then ParsingStatus.complete
        else ParsingStatus.partial)
status-fields a b c d h = ground (arith, h)

identity_result-IsReturned :
    (attributes : Attributes) (src dst : Text) → IsReturned (identity_result attributes src dst)
unfolding identity_result validate_fingerprint
identity_result-IsReturned attributes src dst =
    let vendor = lookup (codes "manufacturer") attributes in
    let model = lookup (codes "model") attributes in
    let firmware = lookup (codes "firmware_version") attributes in
    let serial = lookup (codes "serial_number") attributes in
    let v = within-truncate 128 vendor in
    let m = within-truncate 128 model in
    let f = within-truncate 64 firmware in
    elim (Bool-cases (nat_eq (count_some (identity_fields attributes)) 0)) [
      | inl e ↦ rw e (refused src dst none, refl, refl, refl)
      | inr e ↦ (
        identified src dst (dnp3_fingerprint attributes src dst),
        rw (e, v, m, f) refl,
        refl,
        (
          refl,
          refl,
          v,
          m,
          f,
          rw (is_some-truncate 128 vendor, is_some-truncate 128 model, is_some-truncate 64 firmware)
              (status-fields vendor model firmware serial e),
        ),
      )
    ]

refused-IsReturned : (src dst : Text) (e : Option Text) → IsReturned (some (refused src dst e))
refused-IsReturned src dst e = (_, refl, refl, refl)

parse_user_data-IsReturned :
    (decode_value : Decoder) (src dst : Text) (o : Option Bytes)
    → IsReturned (parse_user_data decode_value src dst o)
unfolding parse_user_data
parse_user_data-IsReturned decode_value src dst none = refused-IsReturned src dst none
parse_user_data-IsReturned decode_value src dst (some bs) = elim (Bool-cases (ltb (length bs) 3)) [
  | inl a ↦ rw a (refused-IsReturned src dst none)
  | inr a ↦ rw a (elim (Bool-cases (nat_eq (byte_at bs 2) 129)) [
    | inr b ↦ rw b (refused-IsReturned src dst none)
    | inl b ↦ rw b (elim (Bool-cases (ltb (length bs) 5)) [
      | inl c ↦ rw c (refused-IsReturned src dst none)
      | inr c ↦ rw c (identity_result-IsReturned _ src dst)
    ])
  ])
]

internal-IsReturned :
    (decode_value : Decoder) (raw : Bytes) → IsReturned (parse_dnp3_internal decode_value raw)
unfolding parse_dnp3_internal
internal-IsReturned decode_value raw = elim (Bool-cases (ltb (length raw) min_frame_length)) [
  | inl a ↦ rw a (refused-IsReturned _ _ _)
  | inr a ↦
      let read_2 : ltb (length raw) 2 ≡ false = ground (arith, a) in
      let read_8 : ltb (length raw) 8 ≡ false = ground (arith, a) in
      rw (a, read_2)
        (elim (Bool-cases (nat_eq (byte_at raw 0) 0x05 && nat_eq (byte_at raw 1) 0x64)) [
          | inr b ↦ rw b (refused-IsReturned _ _ _)
          | inl b ↦
              rw (b, read_8) (parse_user_data-IsReturned decode_value _ _ (extract_user_data raw))
        ])
]

-- For any bytes, and however values are written, the headers are never read beyond their end and
-- the model's validation passes, so that the inner parser gives a result, which the outer one
-- returns. A result with a fingerprint has no error, the status of the fingerprint and key fields
-- that fit their lengths, and is complete exactly if vendor, model, firmware version and serial
-- number are all there, and else partial; a result without one is no_identity.
pub parse_dnp3-IsReturned :
    (decode_value : Decoder) (message : Text) (raw : Bytes)
    → IsReturned (parse_dnp3_internal decode_value raw)
      × (parse_dnp3_internal decode_value raw ≡ some (parse_dnp3 decode_value message raw))
unfolding parse_dnp3
parse_dnp3-IsReturned decode_value message raw =
    let returned = internal-IsReturned decode_value raw in (returned, rw (returned.1) refl)
