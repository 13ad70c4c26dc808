-- ===== src/Parsers/Modbus/Results.antt =====
-- What app/parsers/modbus.py returns for any bytes.
use ot_asset_discovery.Prelude.{
  ℕ, ◌≡◌, refl, inl, inr, true, false, ◌&&◌, Option, none, some, [], ◌∷◌, arith, ltb, nat_eq,
  if◌then◌else◌, Bool-cases, length, drop, length-take, nat_keys, Text, text_keys,
}
use ot_asset_discovery.Parsers.{Bytes, byte_at, be16}
use ot_asset_discovery.Domain.{
  ParsingStatus, DeviceFingerprint, within, validate_fingerprint, ParseResult,
}
use ot_asset_discovery.Parsers.Modbus.{
  parse_objects, is_present, truncate, status_of, Meta, no_identity_result, model_of,
  fingerprint_of, result_of, build_parse_result, parse_modbus,
}
use ot_asset_discovery.Prelude.Dict.{Dict, lookup}

-- With a fingerprint, the result has its status and no error, the three key fields fit, and the
-- status is complete exactly if none of them is missing or empty, and else partial; without one,
-- the status is no_identity.
abbrev pub FingerprintFits : ParsingStatus → Option Text → Option DeviceFingerprint → Type 0
FingerprintFits status error none = status ≡ ParsingStatus.no_identity
FingerprintFits status error (some f) =
    (error ≡ none)
    × (f.parsing_status ≡ status)
    × (within 128 f.vendor ≡ true)
    × (within 128 f.model ≡ true)
    × (within 64 f.firmware_version ≡ true)
    × (status ≡ (
        if is_present f.vendor && (is_present f.model && is_present f.firmware_version)
        then ParsingStatus.complete
        else ParsingStatus.partial))

pub record IsSound (src dst : Text) (r : ParseResult) : Type 0 where
  pub from : r.source_address ≡ src
  pub to : r.destination_address ≡ dst
  pub fits : FingerprintFits r.parsing_status r.error r.fingerprint

pub within-truncate : (n : ℕ) (o : Option Text) → within n (truncate n o) ≡ true
within-truncate n none = refl
within-truncate n (some s) = ground (arith, length-take n s)

status-present :
    (a b c : Option Text)
    → status_of (a ∷ b ∷ c ∷ []) ≡ (
        if is_present a && (is_present b && is_present c)
        then ParsingStatus.complete
        else ParsingStatus.partial)
status-present a b c = ground arith

-- The fields are cut to their lengths, so the model's validation passes.
pub build-result_of :
    (o : ℕ × Text) (objects : Dict ℕ Text) (m : Meta)
    → build_parse_result (o ∷ objects) m ≡ some (result_of m (fingerprint_of (o ∷ objects) m))
unfolding build_parse_result validate_fingerprint
build-result_of o objects m =
    rw
      (
        within-truncate 128 (lookup 0 (o ∷ objects)),
        within-truncate 128 (model_of (o ∷ objects)),
        within-truncate 64 (lookup 2 (o ∷ objects)),
      )
      refl

-- It is a sound result.
abbrev Sound : Text → Text → Option ParseResult → Type 0
Sound src dst o = (r : ParseResult) × (o ≡ some r) × IsSound src dst r

built :
    (objects : Dict ℕ Text) (m : Meta)
    → Sound m.source_address m.destination_address (build_parse_result objects m)
unfolding build_parse_result
built [] m = (_, refl, record { from = refl; to = refl; fits = refl })
built (o ∷ objects) m = (
  result_of m (fingerprint_of (o ∷ objects) m),
  build-result_of o objects m,
  record {
    from = refl;
    to = refl;
    fits = (
      refl,
      refl,
      within-truncate 128 (lookup 0 (o ∷ objects)),
      within-truncate 128 (model_of (o ∷ objects)),
      within-truncate 64 (lookup 2 (o ∷ objects)),
      status-present (truncate 128 (lookup 0 (o ∷ objects))) (truncate 128 (model_of (o ∷ objects)))
          (truncate 64 (lookup 2 (o ∷ objects))),
    );
  },
)

refused : (src dst : Text) (e : Option Text) → Sound src dst (some (no_identity_result src dst e))
refused src dst e = (_, refl, record { from = refl; to = refl; fits = refl })

-- For any bytes no byte is indexed that is not there and no exception leaves the parser: it
-- returns, with the given addresses. A result with a fingerprint has no error, the status of the
-- fingerprint and key fields that fit their lengths, and is complete exactly if vendor, model and
-- firmware version are all there and not empty, and else partial; a result without one is
-- no_identity.
pub parse_modbus_total :
    (src dst : Text) (bs : Bytes)
    → (r : ParseResult) × (parse_modbus src dst bs ≡ some r) × IsSound src dst r
unfolding parse_modbus
parse_modbus_total src dst bs = elim (Bool-cases (ltb (length bs) 9)) [
  | inl a ↦ rw a (refused src dst _)
  | inr a ↦
      let read_8 : ltb (length bs) 8 ≡ false = ground (arith, a) in
      rw a (elim (Bool-cases (nat_eq (be16 bs 2) 0)) [
        | inr b ↦ rw b (refused src dst _)
        | inl b ↦
            rw (b, read_8)
              (elim (Bool-cases (nat_eq (byte_at bs 7) 0x2b)) [
                | inr c ↦ rw c (refused src dst _)
                | inl c ↦ rw c (elim (Bool-cases (nat_eq (byte_at bs 8) 0x0e)) [
                  | inr d ↦ rw d (refused src dst _)
                  | inl d ↦ rw d (elim (Bool-cases (ltb (length bs) 14)) [
                    | inl e ↦ rw e (refused src dst _)
                    | inr e ↦ rw e (built (parse_objects (byte_at bs 13) (drop 14 bs) []) _)
                  ])
                ])
              ])
      ])
]
