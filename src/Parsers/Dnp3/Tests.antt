-- ===== src/Parsers/Dnp3/Tests.antt =====
-- The DNP3 link layer and attribute loop at a concrete frame.
use ot_asset_discovery.Domain.{ParsingStatus, validate_fingerprint}
use ot_asset_discovery.Parsers.{Bytes}
use ot_asset_discovery.Parsers.Dnp3.{
  strip_blocks, extract_user_data, Decoder, read_value, read_item, read_items, read_range,
  parse_from, parse_device_attributes,
}
use ot_asset_discovery.Parsers.Dnp3.Link.{
  encode_blocks, link_header, extract_user_data-encode_blocks,
}
use ot_asset_discovery.Parsers.Dnp3.Loop.{parse_from_enough}
use ot_asset_discovery.Parsers.Dnp3.Packets.{
  identity_result, parse_user_data, parse_dnp3_internal, parse_dnp3,
}
use ot_asset_discovery.Parsers.Dnp3.Packets.Results.{IsReturned, parse_dnp3-IsReturned}
use ot_asset_discovery.Parsers.Dnp3.Values.{hex, le_number, digits, show_signed, show_value}
use ot_asset_discovery.Prelude.{
  ℕ, ◌+◌, ◌≡◌, refl, none, some, [], ◌∷◌, ◌++◌, arith, length, Text, codes,
}
use ot_asset_discovery.Prelude.Strings.{lstrip_if}

abbrev shown : Decoder
shown t [] = none
shown t (b ∷ bs) = some (b ∷ bs)

abbrev no_crc : Bytes → ℕ × ℕ
no_crc bs = (0, length bs)

-- eighteen bytes: two blocks
abbrev data_bytes : Bytes
data_bytes = codes "abcdefghijklmnopqr"

extract_user_data-encode_blocks_example :
    extract_user_data (
      link_header (length data_bytes + 5) 0x44 1 0 2 0 9 9
      ++ encode_blocks no_crc (length data_bytes) data_bytes (7 ∷ []))
    ≡ some data_bytes
extract_user_data-encode_blocks_example =
    extract_user_data-encode_blocks no_crc 0x44 1 0 2 0 9 9 b'a' (codes "bcdefghijklmnopqr")
      (7 ∷ []) (ground arith)

-- a manufacturer and a model, each with a one-byte index
abbrev attributes_bytes : Bytes
attributes_bytes =
    (0 ∷ 252 ∷ 0x17 ∷ 1 ∷ 0 ∷ 1 ∷ 4 ∷ codes "Acme") ++ (0 ∷ 253 ∷ 0x17 ∷ 1 ∷ 0 ∷ 1 ∷ 2 ∷ codes "X1")

both-read :
    parse_device_attributes shown attributes_bytes
    ≡ (codes "manufacturer", codes "Acme") ∷ (codes "model", codes "X1") ∷ []
unfolding parse_device_attributes parse_from read_items read_range read_item read_value
both-read = refl

parse_from_enough_example :
    parse_from shown 30 attributes_bytes [] ≡ parse_from shown 40 attributes_bytes []
parse_from_enough_example =
    parse_from_enough shown 30 40 attributes_bytes [] (ground arith) (ground arith)

abbrev packet : Bytes
packet =
    link_header (length data_bytes + 5) 0x44 1 0 2 0 9 9
    ++ encode_blocks no_crc (length data_bytes) data_bytes []

parse_dnp3-IsReturned_example :
    IsReturned (parse_dnp3_internal shown packet)
    × (parse_dnp3_internal shown packet ≡ some (parse_dnp3 shown (codes "x") packet))
parse_dnp3-IsReturned_example = parse_dnp3-IsReturned shown (codes "x") packet

-- a response with a manufacturer and a model, over two blocks
abbrev response : Bytes
response = 0xc0 ∷ 0xc0 ∷ 129 ∷ 0 ∷ 0 ∷ attributes_bytes

abbrev response_packet : Bytes
response_packet =
    link_header (length response + 5) 0x44 1 0 2 1 9 9
    ++ encode_blocks no_crc (length response) response []

response-partial :
    let r = parse_dnp3 shown (codes "x") response_packet in
    (r.parsing_status ≡ ParsingStatus.partial) × (r.source_address ≡ codes "258")
unfolding parse_dnp3 parse_dnp3_internal parse_user_data identity_result parse_device_attributes
    parse_from read_items read_range read_item read_value extract_user_data strip_blocks
    validate_fingerprint lstrip_if
response-partial = (refl, refl)

abbrev no_float : Bytes → Text
no_float bs = codes "nan"

minus-two : show_value no_float 3 (0xfe ∷ 0xff ∷ []) ≡ codes "-2"
unfolding show_value show_signed digits le_number
minus-two = refl

unprintable : show_value no_float 9 (0x1f ∷ 0xab ∷ []) ≡ codes "1fab"
unfolding show_value hex
unprintable = refl
