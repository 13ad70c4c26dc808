-- ===== src/Capture/Requests.antt =====
-- The identity requests that app/capture/prober.py sends.
use ot_asset_discovery.Domain.{Protocol}
use ot_asset_discovery.Parsers.{Bytes}
use ot_asset_discovery.Prelude.{
  ℕ, zero, suc, ◌+◌, ◌-◌, ◌/◌, ◌%◌, [], ◌∷◌, ◌++◌, nat_eq, if◌then◌else◌, length,
}
use Prim.Native.Nat.{bit_xor}

-- a 16-bit field, the high byte first, or the low one
abbrev pub be16_bytes : ℕ → Bytes
be16_bytes n = n / 256 ∷ n % 256 ∷ []

abbrev pub le16_bytes : ℕ → Bytes
le16_bytes n = n % 256 ∷ n / 256 ∷ []

unfoldable pub build_modbus_device_id_request : Bytes
build_modbus_device_id_request =
    let pdu : Bytes = 0x2b ∷ 0x0e ∷ 0x01 ∷ 0x00 ∷ [] in
    be16_bytes 0x0001 ++ (be16_bytes 0x0000 ++ (be16_bytes (length pdu + 1) ++ 0x01 ∷ pdu))

abbrev pub zeros : ℕ → Bytes
zeros zero = []
zeros (suc n) = 0 ∷ zeros n

-- The header alone: command, length, session handle, status, sender context and options.
unfoldable pub build_ethernetip_list_identity_request : Bytes
build_ethernetip_list_identity_request =
    le16_bytes 0x0063 ++ (le16_bytes 0 ++ (zeros 4 ++ (zeros 4 ++ (zeros 8 ++ zeros 4))))

abbrev pub szl_parameters : Bytes
szl_parameters = 0x00 ∷ 0x01 ∷ 0x12 ∷ 0x04 ∷ 0x11 ∷ 0x44 ∷ 0x01 ∷ 0x00 ∷ []

abbrev pub szl_request_data : Bytes
szl_request_data = 0x0a ∷ 0x00 ∷ (be16_bytes 0x04 ++ (be16_bytes 0x001c ++ be16_bytes 0x0000))

unfoldable pub build_s7comm_szl_request : Bytes
build_s7comm_szl_request =
    let s7_header =
      0x32
      ∷ 0x07
      ∷ (be16_bytes 0
          ++ (be16_bytes 0x0100
              ++ (be16_bytes (length szl_parameters) ++ be16_bytes (length szl_request_data)))) in
    let s7_payload = s7_header ++ (szl_parameters ++ szl_request_data) in
    let cotp_header : Bytes = 0x02 ∷ 0xf0 ∷ 0x80 ∷ [] in
    0x03
    ∷ 0x00
    ∷ (be16_bytes (4 + length cotp_header + length s7_payload) ++ (cotp_header ++ s7_payload))

-- One bit of the CRC: the lowest bits of both decide.
unfoldable pub crc_bits : (bits crc byte : ℕ) → ℕ
crc_bits zero crc byte = crc
crc_bits (suc n) crc byte =
    let shifted = crc / 2 in
    crc_bits n (if nat_eq (crc % 2) (byte % 2) then shifted else bit_xor shifted 0xa6bc) (byte / 2)

unfoldable pub crc_of : (crc : ℕ) → Bytes → ℕ
crc_of crc [] = crc
crc_of crc (b ∷ bs) = crc_of (crc_bits 8 crc b) bs

-- The complement within 16 bits, the low byte first.
unfoldable pub compute_dnp3_crc : Bytes → Bytes
compute_dnp3_crc bs = le16_bytes (0xffff - crc_of 0 bs)

unfoldable pub build_dnp3_device_attributes_request : Bytes
build_dnp3_device_attributes_request =
    let user_data : Bytes = 0xc0 ∷ 0xc0 ∷ 0x01 ∷ 0x00 ∷ 0xfe ∷ 0x06 ∷ [] in
    let header = 0x05 ∷ 0x64 ∷ (5 + length user_data) ∷ 0xc4 ∷ (le16_bytes 1 ++ le16_bytes 3) in
    header ++ (compute_dnp3_crc header ++ (user_data ++ compute_dnp3_crc user_data))

unfoldable pub build_probe_request : Protocol → Bytes
build_probe_request Protocol.modbus_tcp = build_modbus_device_id_request
build_probe_request Protocol.ethernetip = build_ethernetip_list_identity_request
build_probe_request Protocol.s7comm = build_s7comm_szl_request
build_probe_request Protocol.dnp3 = build_dnp3_device_attributes_request
