-- ===== src/Parsers/S7comm/Records.antt =====
-- The records of a system status list in app/parsers/s7comm.py: how the loops step through them,
-- and the texts of their fields.
use ot_asset_discovery.Parsers.{Bytes}
use ot_asset_discovery.Prelude.{
  ℕ, zero, suc, ◌≤◌, ◌<◌, ◌≡◌, refl, sym, ap, ◌∙◌, true, Option, none, some, List, [], ◌∷◌, ◌++◌,
  arith, ltb, leb, nat_eq, if◌then◌else◌, length, take, drop, All, length-append,
  take-append_length, drop-append_length, Text,
}
use ot_asset_discovery.Prelude.Strings.{strip}

-- The slices on which `while offset + record_size <= len(records)` stands, for a record size that
-- is not 0; the bytes are those from the offset on.
unfoldable pub records_from : (fuel size : ℕ) → Bytes → List Bytes
records_from zero size bs = []
records_from (suc fuel) size bs =
    let rest = records_from fuel size (drop size bs) in
    if leb size (length bs) then take size bs ∷ rest else []

abbrev pub records_of : (size : ℕ) → Bytes → List Bytes
records_of size bs = records_from (length bs) size bs

-- `data.split(b"\x00")[0]`
abbrev pub before_null : Bytes → Bytes
before_null [] = []
before_null (b ∷ bs) = let rest = before_null bs in if nat_eq b 0 then [] else b ∷ rest

-- `decode("ascii", errors="replace")`: each byte outside ASCII gives U+FFFD.
abbrev pub decode_ascii_replace : Bytes → Text
decode_ascii_replace [] = []
decode_ascii_replace (b ∷ bs) = (if ltb b 128 then b else 0xfffd) ∷ decode_ascii_replace bs

abbrev pub nonempty : Text → Option Text
nonempty [] = none
nonempty (c ∷ s) = some (c ∷ s)

unfoldable pub decode_null_padded : Bytes → Option Text
decode_null_padded bs = nonempty (strip (decode_ascii_replace (before_null bs)))

-- Parts one after the other, in front of the tail.
abbrev pub laid : List Bytes → Bytes → Bytes
laid [] tail = tail
laid (part ∷ parts) tail = part ++ laid parts tail

records_from-append :
    (fuel size : ℕ) (part rest : Bytes)
    → length part ≡ size
    → records_from (suc fuel) size (part ++ rest) ≡ part ∷ records_from fuel size rest
unfolding records_from
records_from-append fuel size part rest h =
    let fits : leb (length part) (length (part ++ rest)) ≡ true =
      ground (arith, length-append part rest) in
    rw (sym h, fits, take-append_length part rest, drop-append_length part rest) refl

records_from_short :
    (fuel size : ℕ) (rest : Bytes) → length rest < size → records_from fuel size rest ≡ []
unfolding records_from
records_from_short zero size rest h = refl
records_from_short (suc fuel) size rest h = ground (arith, h)

records_from-laid :
    (fuel size : ℕ) (parts : List Bytes) (rest : Bytes)
    → All (λ part. length part ≡ size) parts
    → length rest < size
    → length parts ≤ fuel
    → records_from fuel size (laid parts rest) ≡ parts
records_from-laid fuel size [] rest whole short enough = records_from_short fuel size rest short
records_from-laid zero size (part ∷ parts) rest whole short enough = ground (arith, enough)
records_from-laid (suc fuel) size (part ∷ parts) rest whole short enough =
    records_from-append fuel size part (laid parts rest) whole.0
    ∙ ap (λ ps. part ∷ ps)
        (records_from-laid fuel size parts rest whole.1 short (omega (arith, enough)))

length-laid :
    (size : ℕ) (parts : List Bytes) (rest : Bytes)
    → All (λ part. length part ≡ size) parts
    → 1 ≤ size
    → length parts ≤ length (laid parts rest)
length-laid size [] rest whole h = omega arith
length-laid size (part ∷ parts) rest whole h =
    omega (
      arith,
      h,
      whole.0,
      length-append part (laid parts rest),
      length-laid size parts rest whole.1 h,
    )

-- The loops stand on the whole records, in order, and ignore a shorter rest.
pub records_of-laid :
    (size : ℕ) (parts : List Bytes) (rest : Bytes)
    → All (λ part. length part ≡ size) parts
    → length rest < size
    → records_of size (laid parts rest) ≡ parts
records_of-laid size parts rest whole short =
    records_from-laid (length (laid parts rest)) size parts rest whole short
      (length-laid size parts rest whole (omega (arith, short)))
