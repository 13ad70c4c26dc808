-- ===== src/Capture/Routing.antt =====
-- Whole Ethernet frames of app/capture/sniffer.py, against an encoder of them.
use ot_asset_discovery.Prelude.{
  ℕ, ◌≡◌, ◌⊎◌, ◌||◌, Option, none, some, List, [], ◌∷◌, ◌++◌, if◌then◌else◌, length, nat_keys,
  text_keys, contains,
}
use ot_asset_discovery.Domain.{Protocol}
use ot_asset_discovery.Parsers.{Bytes}
use ot_asset_discovery.Parsers.S7comm.Headers.{IsTcp}

-- Addresses, the EtherType of IPv4, an IP header, a transport header and a payload.
abbrev pub ethernet : (macs front transport payload : Bytes) → Bytes
ethernet macs front transport payload = macs ++ 0x08 ∷ 0 ∷ (front ++ (transport ++ payload))

-- A TCP header with its options, or a UDP header.
abbrev pub IsTransport : (ip_protocol : ℕ) → Bytes → Type 0
IsTransport ip_protocol transport =
    ((ip_protocol ≡ 6) × IsTcp transport) ⊎ ((ip_protocol ≡ 17) × (length transport ≡ 8))

-- The ports of each protocol, in the order in which the protocols are tried.
abbrev pub known_ports : List (Protocol × List ℕ)
known_ports =
    (Protocol.modbus_tcp, 502 ∷ [])
    ∷ (Protocol.ethernetip, 44818 ∷ 2222 ∷ [])
    ∷ (Protocol.s7comm, 102 ∷ [])
    ∷ (Protocol.dnp3, 20000 ∷ [])
    ∷ []

-- The first protocol one of whose ports is the one or the other.
abbrev pub protocol_at : (src_port dst_port : ℕ) → List (Protocol × List ℕ) → Option Protocol
protocol_at src_port dst_port [] = none
protocol_at src_port dst_port ((p, ports) ∷ rest) =
    if contains src_port ports || contains dst_port ports
    then some p
    else protocol_at src_port dst_port rest
