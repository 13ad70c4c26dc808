-- ===== src/Capture.antt =====
-- How app/capture/sniffer.py takes an Ethernet frame apart and finds the parser of its payload.
-- The parsers get the printer of floats and the texts of caught exceptions, as in their models;
-- `none` is an exception that leaves a parser.
pub mod Routing
pub mod Sniffer
pub mod Requests
pub mod Prober
use ot_asset_discovery.Domain.{Protocol, modbus_tcp, ethernetip, s7comm, dnp3, ParseResult}
use ot_asset_discovery.Parsers.{Bytes, byte_at, be16}
use ot_asset_discovery.Parsers.Modbus.{parse_modbus}
use ot_asset_discovery.Parsers.Ethernetip.Packets.{parse_ethernetip}
use ot_asset_discovery.Parsers.S7comm.{high_bits, low_bits, dotted}
use ot_asset_discovery.Parsers.S7comm.Packets.{parse_s7comm}
use ot_asset_discovery.Parsers.Dnp3.Packets.{parse_dnp3}
use ot_asset_discovery.Parsers.Dnp3.Values.{show_number, decode_attribute_value}
use ot_asset_discovery.Prelude.{
  ℕ, ◌+◌, ◌*◌, Bool, not, ◌||◌, Option, none, some, ltb, leb, nat_eq, if◌then◌else◌, length, drop,
  Text,
}

-- `int.from_bytes(raw_bytes[12:14], "big")` is IPv4.
abbrev pub is_ipv4 : Bytes → Bool
is_ipv4 raw = nat_eq (be16 raw 12) 0x0800

-- where the transport header starts: behind 14 bytes of Ethernet and the IP header
abbrev pub transport_start : Bytes → ℕ
transport_start raw = 14 + low_bits (byte_at raw 14) * 4

abbrev pub either_port : (src_port dst_port port : ℕ) → Bool
either_port src_port dst_port port = nat_eq src_port port || nat_eq dst_port port

abbrev pub protocol_of_ports : (src_port dst_port : ℕ) → Option Protocol
protocol_of_ports src_port dst_port =
    if either_port src_port dst_port 502
    then some Protocol.modbus_tcp
    else if either_port src_port dst_port 44818 || either_port src_port dst_port 2222
    then some Protocol.ethernetip
    else if either_port src_port dst_port 102
    then some Protocol.s7comm
    else if either_port src_port dst_port 20000
    then some Protocol.dnp3
    else none

unfoldable pub identify_protocol : Bytes → Option Protocol
identify_protocol raw =
    let start = transport_start raw in
    if ltb (length raw) 34
    then none
    else if not (is_ipv4 raw)
    then none
    else if not (nat_eq (byte_at raw 23) 6 || nat_eq (byte_at raw 23) 17)
    then none
    else if ltb (length raw) (start + 4)
    then none
    else protocol_of_ports (be16 (drop start raw) 0) (be16 (drop start raw) 2)

abbrev pub payload_from : (payload_start : ℕ) → Bytes → Option Bytes
payload_from payload_start raw =
    if leb (length raw) payload_start then none else some (drop payload_start raw)

unfoldable pub extract_payload : Bytes → Option Bytes
extract_payload raw =
    let start = transport_start raw in
    if ltb (length raw) 34
    then none
    else if nat_eq (byte_at raw 23) 6
    then if ltb (length raw) (start + 13)
      then none
      else payload_from (start + high_bits (byte_at (drop start raw) 12) * 4) raw
    else if nat_eq (byte_at raw 23) 17
    then payload_from (start + 8) raw
    else none

abbrev pub extract_src_ip : Bytes → Option Text
extract_src_ip raw =
    if ltb (length raw) 30
    then none
    else if is_ipv4 raw
    then some (dotted show_number raw 26)
    else none

abbrev pub extract_dst_ip : Bytes → Option Text
extract_dst_ip raw =
    if ltb (length raw) 34
    then none
    else if is_ipv4 raw
    then some (dotted show_number raw 30)
    else none

-- `src_ip or src_mac`; an address that is there is not empty.
abbrev pub address_or : Option Text → Text → Text
address_or none mac = mac
address_or (some ip) mac = ip

-- Whether a parser returned, and then what the sniffer goes on with.
pub data Routed : Type 0 where
  parsed : ParseResult → Routed
  not_routed parser_raised : Routed

abbrev pub returned : Option ParseResult → Routed
returned none = parser_raised
returned (some r) = parsed r

module _ (show_float : Bytes → Text) (message : Text) where
  abbrev pub run_parser : Protocol → (src_addr dst_addr : Text) → Bytes → Routed
  run_parser Protocol.modbus_tcp src_addr dst_addr payload =
      returned (parse_modbus src_addr dst_addr payload)
  run_parser Protocol.ethernetip src_addr dst_addr payload =
      returned (parse_ethernetip message payload)
  run_parser Protocol.s7comm src_addr dst_addr payload = parsed (parse_s7comm message payload)
  run_parser Protocol.dnp3 src_addr dst_addr payload =
      parsed (parse_dnp3 (decode_attribute_value show_float) message payload)

  abbrev pub route_payload : Option Protocol → Option Bytes → (src_addr dst_addr : Text) → Routed
  route_payload (some p) (some payload) src_addr dst_addr = run_parser p src_addr dst_addr payload
  route_payload (some p) none src_addr dst_addr = not_routed
  route_payload none payload src_addr dst_addr = not_routed

  unfoldable pub route_to_parser : Bytes → (src_mac dst_mac : Text) → Routed
  route_to_parser raw src_mac dst_mac =
      route_payload (identify_protocol raw) (extract_payload raw)
        (address_or (extract_src_ip raw) src_mac) (address_or (extract_dst_ip raw) dst_mac)
