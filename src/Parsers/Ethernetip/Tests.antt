-- ===== src/Parsers/Ethernetip/Tests.antt =====
-- The EtherNet/IP parser at concrete packets.
use ot_asset_discovery.Parsers.{Bytes}
use ot_asset_discovery.Parsers.Ethernetip.Items.{CipIdentity, le16_field, cip_fields}
use ot_asset_discovery.Parsers.Ethernetip.Frames.{
  other_items, list_identity, reported_identity, parse_ethernetip-list_identity,
}
use ot_asset_discovery.Parsers.Ethernetip.Packets.{extract_destination_address, parse_ethernetip}
use ot_asset_discovery.Parsers.Ethernetip.Results.{IsReturnedBelow, parse_ethernetip_returns}
use ot_asset_discovery.Prelude.{◌≡◌, refl, [], ◌∷◌, arith, length, codes}

abbrev controller : CipIdentity
controller = record {
  ip_a = 192;
  ip_b = 168;
  ip_c = 1;
  ip_d = 20;
  vendor_id = 1;
  device_type = 14;
  product_code = 55;
  major = 20;
  minor = 11;
  serial_low = 0xbeef;
  serial_high = 0x00c0;
  product_name = codes "1756-L61";
}

abbrev header : Bytes
header = 1 ∷ 0 ∷ 0 ∷ 0 ∷ 0 ∷ 0 ∷ 0 ∷ 0 ∷ 0 ∷ 0 ∷ 0 ∷ 0 ∷ 0 ∷ 0 ∷ 0 ∷ 0 ∷ 0 ∷ 0 ∷ 0 ∷ 0 ∷ []

-- one other item in front, and the state byte behind
abbrev packet : Bytes
packet = list_identity header 2 (
    other_items ((0x8000, 1 ∷ 2 ∷ []) ∷ [])
      (le16_field 0x000c (le16_field 42 (cip_fields 1 2 44818 0 0 0 0 controller 0 (3 ∷ [])))))

parse_ethernetip-list_identity_example :
    parse_ethernetip [] packet ≡ reported_identity controller (extract_destination_address packet)
parse_ethernetip-list_identity_example =
    parse_ethernetip-list_identity [] header ((0x8000, 1 ∷ 2 ∷ []) ∷ []) 0 42 1 2 44818 0 0 0 0
      controller 0 (3 ∷ []) refl (refl, tt) (ground arith) (ground arith) (ground arith)
      (ground arith) (ground arith)

parse_ethernetip_returns_example : IsReturnedBelow 192 (length packet) (parse_ethernetip [] packet)
parse_ethernetip_returns_example = parse_ethernetip_returns [] packet (ground arith)
