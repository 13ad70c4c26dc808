-- ===== src/Parsers/Modbus/Tests.antt =====
-- The Modbus parser at a concrete response.
use ot_asset_discovery.Domain.{ParsingStatus, DeviceFingerprint, ParseResult}
use ot_asset_discovery.Parsers.{Bytes}
use ot_asset_discovery.Parsers.Utf8.{decode_from, decode}
use ot_asset_discovery.Parsers.Modbus.{object_text, parse_modbus}
use ot_asset_discovery.Parsers.Modbus.Objects.{Object, encode_objects, frame, parse_modbus-frame}
use ot_asset_discovery.Parsers.Modbus.Results.{IsSound, parse_modbus_total}
use ot_asset_discovery.Prelude.{◌+◌, ◌≡◌, refl, some, List, [], ◌∷◌, arith, Text, codes}
use ot_asset_discovery.Prelude.Strings.{lstrip_if, rstrip_if, strip}

abbrev vendor : Text
vendor = codes "Acme"

abbrev product : Text
product = codes "PX-1"

abbrev revision : Text
revision = codes "v2.1"

vendor-clean : object_text vendor ≡ vendor
unfolding object_text decode decode_from strip lstrip_if rstrip_if
vendor-clean = refl

product-clean : object_text product ≡ product
unfolding object_text decode decode_from strip lstrip_if rstrip_if
product-clean = refl

revision-clean : object_text revision ≡ revision
unfolding object_text decode decode_from strip lstrip_if rstrip_if
revision-clean = refl

-- three whole objects and half a header behind them; six are declared
abbrev packet : Bytes
packet =
    frame 7 0 30 1 1 0x81 6
      (encode_objects ((0, vendor) ∷ (1, product) ∷ (2, revision) ∷ []) (3 ∷ []))

parse_modbus_total_example :
    (r : ParseResult) × (parse_modbus (codes "a") (codes "b") packet ≡ some r)
    × IsSound (codes "a") (codes "b") r
parse_modbus_total_example = parse_modbus_total (codes "a") (codes "b") packet

parse_modbus-frame_example :
    let objects : List Object = (0, vendor) ∷ (1, product) ∷ (2, revision) ∷ [] in
    (r : ParseResult) × (f : DeviceFingerprint) × (parse_modbus
        (codes "a")
        (codes "b")
        (frame 7 0 30 1 1 0x81 (3 + 3) (encode_objects objects (3 ∷ [])))
      ≡ some r)
    × (r.fingerprint ≡ some f)
    × (f.vendor ≡ some vendor)
    × (f.model ≡ some product)
    × (f.firmware_version ≡ some revision)
    × (r.parsing_status ≡ ParsingStatus.complete)
parse_modbus-frame_example =
    parse_modbus-frame (codes "a") (codes "b") 7 0 30 1 1 0x81 3 vendor product revision (3 ∷ [])
      ((vendor-clean, refl), ((product-clean, refl), ((revision-clean, refl), tt))) (ground arith)
      (ground arith) (ground arith) tt

-- An overlong form, a lone continuation byte and a cut sequence each give one U+FFFD.
replaced : decode (0x41 ∷ 0xc0 ∷ 0x80 ∷ 0xe2 ∷ 0x82 ∷ []) ≡ 0x41 ∷ 0xfffd ∷ 0xfffd ∷ 0xfffd ∷ []
unfolding decode decode_from
replaced = refl

euro : decode (0xe2 ∷ 0x82 ∷ 0xac ∷ []) ≡ 0x20ac ∷ []
unfolding decode decode_from
euro = refl
