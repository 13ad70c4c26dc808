-- ===== src/Parsers/S7comm/Tests.antt =====
-- The S7comm parser at concrete packets.
use ot_asset_discovery.Parsers.S7comm.{
  dotted, Addressed, extract_addresses, parse_tpkt, parse_cotp, parse_s7comm_header,
  extract_szl_data,
}
use ot_asset_discovery.Parsers.{Bytes}
use ot_asset_discovery.Domain.{ParsingStatus, validate_fingerprint}
use ot_asset_discovery.Parsers.S7comm.Headers.{IsIpv4, IsTcp}
use ot_asset_discovery.Parsers.S7comm.Frames.{
  IsReadSzl, Loose, szl_data, reported, s7_packet, parse_s7comm-packet,
}
use ot_asset_discovery.Parsers.S7comm.Results.{IdentityList, identity_of, parse_szl_identity-laid}
use ot_asset_discovery.Parsers.S7comm.Packets.{of_identity, of_tpkt, parse_s7comm}
use ot_asset_discovery.Parsers.S7comm.Totals.{IsSoundS7, parse_s7comm_total}
use ot_asset_discovery.Parsers.S7comm.Identity.{
  module_record, module_records, parse_szl_0011, parse_szl_identity,
}
use ot_asset_discovery.Parsers.Dnp3.Values.{show_number}
use ot_asset_discovery.Parsers.S7comm.Records.{records_from, decode_null_padded, laid}
use ot_asset_discovery.Prelude.{
  ℕ, zero, suc, ◌≡◌, refl, some, List, [], ◌∷◌, ◌++◌, arith, Text, codes,
}
use ot_asset_discovery.Prelude.Strings.{strip}

-- zeros behind a text
abbrev padded : (n : ℕ) → Text → Bytes
padded zero s = []
padded (suc n) [] = 0 ∷ padded n []
padded (suc n) (c ∷ s) = c ∷ padded n s

abbrev part : (index name_size extra_size : ℕ) → (name extra : Text) → Bytes
part index name_size extra_size name extra =
    0 ∷ index ∷ (padded name_size name ++ padded extra_size extra)

abbrev module_parts : List Bytes
module_parts =
    part 1 20 6 (codes "6ES7 315-2AG10") (codes "S123")
    ∷ part 2 20 6 (codes "CPU 315") []
    ∷ part 3 20 6 [] (codes "V3.3")
    ∷ []

abbrev front : Bytes
front = 0x45 ∷ 0 ∷ 0 ∷ 200 ∷ 0 ∷ 1 ∷ 0 ∷ 0 ∷ 64 ∷ 6 ∷ 0 ∷ 0 ∷ 10 ∷ 0 ∷ 0 ∷ 12 ∷ 10 ∷ 0 ∷ 0 ∷ 7 ∷ []

abbrev tcp : Bytes
tcp = 0 ∷ 102 ∷ 4 ∷ 0 ∷ 0 ∷ 0 ∷ 0 ∷ 1 ∷ 0 ∷ 0 ∷ 0 ∷ 1 ∷ 0x50 ∷ 0x18 ∷ 2 ∷ 0 ∷ 0 ∷ 0 ∷ 0 ∷ 0 ∷ []

abbrev params : Bytes
params = 0 ∷ 1 ∷ 0x12 ∷ 8 ∷ 0x12 ∷ 0x84 ∷ 1 ∷ 2 ∷ 0 ∷ 0 ∷ 0 ∷ 0 ∷ []

abbrev loose : Loose
loose = record {
  reserved_high = 0;
  reserved_low = 0;
  length_high = 0;
  length_low = 96;
  transport_size = 9;
  size_high = 0;
  size_low = 92;
  index = 0 ∷ 0 ∷ 0 ∷ 28 ∷ 0 ∷ 3 ∷ [];
}

front-IsIpv4 : IsIpv4 front
front-IsIpv4 = record { long = ground arith; version = refl; ihl = refl }

tcp-IsTcp : IsTcp tcp
tcp-IsTcp = record { long = ground arith; offset = refl }

params-IsReadSzl : IsReadSzl params
params-IsReadSzl = record { long = ground arith; response = refl }

abbrev packet : Bytes
packet =
    front
    ++ (tcp
        ++ (s7_packet 7 258 0 (0x80 ∷ []) loose params
              (szl_data IdentityList.modules loose (laid module_parts (0 ∷ [])))
            ++ 9 ∷ []))

parse_s7comm-packet_example :
    parse_s7comm [] packet
    ≡ reported IdentityList.modules 258
        (dotted show_number front 12)
        (dotted show_number front 16)
        module_parts
parse_s7comm-packet_example =
    parse_s7comm-packet [] IdentityList.modules front tcp 7 258 0 0x80 [] loose params module_parts
      (0 ∷ []) (9 ∷ []) front-IsIpv4 tcp-IsTcp refl refl params-IsReadSzl (refl, (refl, (refl, tt)))
      (ground arith)

parse_s7comm_total_example :
    (a : Addressed) × (extract_addresses show_number packet ≡ some a)
    × (let body = of_tpkt a.source a.destination (parse_tpkt a.payload) in
        IsSoundS7 a.source a.destination body × (body ≡ some (parse_s7comm [] packet)))
parse_s7comm_total_example = parse_s7comm_total [] packet

parse_szl_identity-laid_example :
    parse_szl_identity 0x1c (
      laid (part 7 24 8 (codes "CPU 412") [] ∷ part 2 24 8 (codes "PN/CPU") (codes "V6.0") ∷ []) [])
    ≡ identity_of IdentityList.components
        (part 7 24 8 (codes "CPU 412") [] ∷ part 2 24 8 (codes "PN/CPU") (codes "V6.0") ∷ [])
parse_szl_identity-laid_example =
    parse_szl_identity-laid IdentityList.components
      (part 7 24 8 (codes "CPU 412") [] ∷ part 2 24 8 (codes "PN/CPU") (codes "V6.0") ∷ []) []
      (refl, (refl, tt)) (ground arith)

-- The three records give all four fields.
full : (parse_s7comm [] packet).parsing_status ≡ ParsingStatus.complete
unfolding parse_s7comm decode_null_padded parse_tpkt strip extract_addresses parse_cotp
    parse_s7comm_header extract_szl_data of_identity parse_szl_identity parse_szl_0011
    module_records records_from module_record validate_fingerprint
full = refl
