-- ===== src/Parsers/Modbus/Objects.antt =====
-- The object loop and whole frames of app/parsers/modbus.py, against an encoder of the responses
-- that the protocol describes.
use ot_asset_discovery.Prelude.{
  ℕ, zero, suc, ◌+◌, ◌/◌, ◌%◌, ◌≤◌, ◌<◌, ◌≡◌, refl, ap, ◌∙◌, true, false, some, List, [], ◌∷◌, ◌++◌,
  arith, ltb, length, All, length-append, take-append_length, drop-append_length, Text,
}
use ot_asset_discovery.Parsers.{Bytes}
use ot_asset_discovery.Domain.{ParsingStatus, DeviceFingerprint, ParseResult}
use ot_asset_discovery.Parsers.Modbus.{
  object_text, store_object, parse_objects, is_present, truncate, Meta, fingerprint_of, result_of,
  build_parse_result, parse_modbus,
}
use ot_asset_discovery.Parsers.Modbus.Results.{build-result_of}
use ot_asset_discovery.Prelude.Dict.{Dict}

-- An object id with its value.
abbrev pub Object : Type 0
Object = ℕ × Bytes

-- The objects one after the other, in front of the tail.
abbrev pub encode_objects : List Object → Bytes → Bytes
encode_objects [] tail = tail
encode_objects ((id, value) ∷ objects) tail =
    id ∷ length value ∷ (value ++ encode_objects objects tail)

-- What is left of a packet behind the last whole object: nothing, half a header, or a value
-- that is shorter than declared.
abbrev pub IsCut : Bytes → Type 0
IsCut [] = Unit
IsCut (id ∷ []) = Unit
IsCut (id ∷ len ∷ bs) = length bs < len

-- Every object stored, in order.
abbrev pub store_all : List Object → Dict ℕ Text → Dict ℕ Text
store_all [] kept = kept
store_all ((id, value) ∷ objects) kept = store_all objects (store_object id value kept)

cut_stops :
    (n : ℕ) (tail : Bytes) (kept : Dict ℕ Text) → IsCut tail → parse_objects n tail kept ≡ kept
unfolding parse_objects
cut_stops zero tail kept h = refl
cut_stops (suc n) [] kept h = refl
cut_stops (suc n) (id ∷ []) kept h = refl
cut_stops (suc n) (id ∷ len ∷ bs) kept h = ground (arith, h)

-- Where a response holds some whole objects and then ends early, or after them all, and declares
-- any number of objects from those on, exactly the whole ones are read.
pub parse_objects-encode_objects :
    (objects : List Object) (missing : ℕ) (tail : Bytes) (kept : Dict ℕ Text)
    → IsCut tail
    → parse_objects (length objects + missing) (encode_objects objects tail) kept
      ≡ store_all objects kept
unfolding parse_objects
parse_objects-encode_objects [] missing tail kept h =
    let e : 0 + missing ≡ missing = omega arith in rw e (cut_stops missing tail kept h)
parse_objects-encode_objects ((id, value) ∷ objects) missing tail kept h =
    let rest = encode_objects objects tail in
    let e : suc (length objects) + missing ≡ suc (length objects + missing) = omega arith in
    let fits : ltb (length (value ++ rest)) (length value) ≡ false =
      ground (arith, length-append value rest) in
    rw (e, fits, drop-append_length value rest, take-append_length value rest)
      (parse_objects-encode_objects objects missing tail (store_object id value kept) h)

-- A Read Device Identification response with its header, over bytes.
abbrev pub frame :
    (transaction length_high length_low unit code conformity declared : ℕ) → Bytes → Bytes
frame transaction length_high length_low unit code conformity declared body =
    transaction / 256
    ∷ transaction % 256
    ∷ 0
    ∷ 0
    ∷ length_high
    ∷ length_low
    ∷ unit
    ∷ 0x2b
    ∷ 0x0e
    ∷ code
    ∷ conformity
    ∷ 0
    ∷ 0
    ∷ declared
    ∷ body

framed :
    (src dst : Text) (transaction length_high length_low unit code conformity declared : ℕ)
    (body : Bytes)
    → parse_modbus src dst
        (frame transaction length_high length_low unit code conformity declared body)
      ≡ build_parse_result (parse_objects declared body []) (record {
        unit_id = unit;
        function_code = 0x2b;
        device_id_code = code;
        conformity_level = conformity;
        source_address = src;
        destination_address = dst;
      })
unfolding parse_modbus
framed src dst transaction length_high length_low unit code conformity declared body =
    let bs = frame transaction length_high length_low unit code conformity declared body in
    let read_8 : ltb (length bs) 8 ≡ false = ground arith in
    let long : ltb (length bs) 9 ≡ false = ground arith in
    let longer : ltb (length bs) 14 ≡ false = ground arith in rw (long, longer, read_8) refl

truncate_short : (n : ℕ) (s : Text) → length s ≤ n → truncate n (some s) ≡ some s
truncate_short n s h = ground (arith, h)

-- The parser gives back a vendor, a product code and a revision that a response holds, if they are
-- not empty, not too long, and text that decoding and stripping leaves alone; such a response
-- counts as complete, also where its packet is cut behind them.
pub parse_modbus-frame :
    (src dst : Text) (transaction length_high length_low unit code conformity missing : ℕ)
    (vendor product revision : Text) (tail : Bytes)
    → All
        (λ s. (object_text s ≡ s) × (is_present (some s) ≡ true))
        (vendor ∷ product ∷ revision ∷ [])
    → length vendor ≤ 128
    → length product ≤ 128
    → length revision ≤ 64
    → IsCut tail
    → let objects : List Object = (0, vendor) ∷ (1, product) ∷ (2, revision) ∷ [] in
      (r : ParseResult) × (f : DeviceFingerprint) × (parse_modbus src dst (
          frame transaction length_high length_low unit code conformity
            (3 + missing)
            (encode_objects objects tail))
        ≡ some r)
      × (r.fingerprint ≡ some f)
      × (f.vendor ≡ some vendor)
      × (f.model ≡ some product)
      × (f.firmware_version ≡ some revision)
      × (r.parsing_status ≡ ParsingStatus.complete)
parse_modbus-frame src dst transaction length_high length_low unit code conformity missing vendor
      product revision tail clean hv hp hr cut =
    let objects : List Object = (0, vendor) ∷ (1, product) ∷ (2, revision) ∷ [] in
    let m : Meta = record {
      unit_id = unit;
      function_code = 0x2b;
      device_id_code = code;
      conformity_level = conformity;
      source_address = src;
      destination_address = dst;
    } in
    let texts : Dict ℕ Text = (0, vendor) ∷ (1, product) ∷ (2, revision) ∷ [] in
    let f = fingerprint_of texts m in
    let kept : store_all objects [] ≡ texts = rw (clean.0.0, clean.1.0.0, clean.1.1.0.0) refl in
    let v = truncate_short 128 vendor hv in
    let p = truncate_short 128 product hp in
    let w = truncate_short 64 revision hr in
    (
      result_of m f,
      f,
      framed src dst transaction length_high length_low unit code conformity (3 + missing)
            (encode_objects objects tail)
          ∙ ap (λ os. build_parse_result os m)
              (parse_objects-encode_objects objects missing tail [] cut ∙ kept)
          ∙ build-result_of (0, vendor) ((1, product) ∷ (2, revision) ∷ []) m,
      refl,
      v,
      p,
      w,
      rw (v, p, w, clean.0.1, clean.1.0.1, clean.1.1.0.1) refl,
    )
