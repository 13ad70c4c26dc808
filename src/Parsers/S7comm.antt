-- ===== src/Parsers/S7comm.antt =====
-- The headers that app/parsers/s7comm.py takes off a packet, one after the other: IPv4 and TCP,
-- TPKT, COTP, the S7comm header, and the parameters and the data header of a system status list
-- (SZL). A function's `none` is an exception.
pub mod Records
pub mod Identity
pub mod Packets
pub mod Headers
pub mod Frames
pub mod Results
pub mod Bounds
pub mod Totals
mod Tests
use ot_asset_discovery.Parsers.{Bytes, byte_at, reading, be16}
use ot_asset_discovery.Prelude.{
  ℕ, ◌+◌, ◌*◌, ◌/◌, ◌%◌, Bool, not, ◌&&◌, ◌||◌, Option, none, some, [], ◌∷◌, ◌++◌, ltb, nat_eq,
  if◌then◌else◌, length, take, drop, Text,
}

-- the four high bits of a byte, and the four low ones
abbrev pub high_bits : ℕ → ℕ
high_bits b = b / 16 % 16

abbrev pub low_bits : ℕ → ℕ
low_bits b = b % 16

-- `raw_bytes[i:]` as an IPv4 address, by a printer of its bytes
abbrev pub dotted : (show_byte : ℕ → Text) → Bytes → ℕ → Text
dotted show_byte bs i =
    show_byte (byte_at bs i)
    ++ b'.'
      ∷ (show_byte (byte_at bs (i + 1))
          ++ b'.' ∷ (show_byte (byte_at bs (i + 2)) ++ b'.' ∷ show_byte (byte_at bs (i + 3))))

pub record Addressed : Type 0 where
  pub source : Text
  pub destination : Text
  pub payload : Bytes

abbrev pub unaddressed : Bytes → Addressed
unaddressed bs = record { source = []; destination = []; payload = bs }

-- Behind an IPv4 header of `ihl` bytes stands a TCP header with a length of its own.
abbrev pub past_tcp : (ihl : ℕ) → Bytes → Option Bytes
past_tcp ihl bs =
    if ltb (length bs) (ihl + 20)
    then some (drop ihl bs)
    else reading (ihl + 13) bs (some (drop (ihl + high_bits (byte_at bs (ihl + 12)) * 4) bs))

abbrev pub addressed : (src dst : Text) → Option Bytes → Option Addressed
addressed src dst none = none
addressed src dst (some bs) = some (record { source = src; destination = dst; payload = bs })

unfoldable pub extract_addresses : (show_byte : ℕ → Text) → Bytes → Option Addressed
extract_addresses show_byte bs =
    let ihl = low_bits (byte_at bs 0) * 4 in
    if ltb (length bs) 20
    then some (unaddressed bs)
    else reading 1 bs (
        if not (nat_eq (high_bits (byte_at bs 0)) 4) || ltb (length bs) ihl
        then some (unaddressed bs)
        else reading 20 bs
            (addressed (dotted show_byte bs 12) (dotted show_byte bs 16) (past_tcp ihl bs)))

-- In the functions below: `some none` is None.
unfoldable pub parse_tpkt : Bytes → Option (Option Bytes)
parse_tpkt bs =
    if ltb (length bs) 4
    then some none
    else reading 4 bs (
        if not (nat_eq (byte_at bs 0) 0x03)
        then some none
        else if ltb (be16 bs 2) 4 || ltb (length bs) (be16 bs 2)
        then some none
        else some (some (drop 4 (take (be16 bs 2) bs))))

unfoldable pub parse_cotp : Bytes → Option (Option Bytes)
parse_cotp bs =
    if ltb (length bs) 3
    then some none
    else reading 2 bs (
        if not (nat_eq (byte_at bs 1) 0xf0)
        then some none
        else if ltb (length bs) (1 + byte_at bs 0)
        then some none
        else some (some (drop (1 + byte_at bs 0) bs)))

pub record S7Header : Type 0 where
  pub msg_type : ℕ
  pub pdu_ref : ℕ
  pub param_length : ℕ
  pub data_length : ℕ

unfoldable pub parse_s7comm_header : Bytes → Option (Option S7Header)
parse_s7comm_header bs =
    if ltb (length bs) 10
    then some none
    else reading 1 bs (
        if not (nat_eq (byte_at bs 0) 0x32)
        then some none
        else reading 10 bs (
            some (
              some (record {
                msg_type = byte_at bs 1;
                pdu_ref = be16 bs 4;
                param_length = be16 bs 6;
                data_length = be16 bs 8;
              }))))

-- A successful response to a read of one of the two lists that identify a device.
abbrev pub is_szl_response : Bytes → Bool
is_szl_response body =
    nat_eq (byte_at body 4) 0x12
    && ((nat_eq (high_bits (byte_at body 5)) 0x08 && nat_eq (low_bits (byte_at body 5)) 0x04)
        && nat_eq (byte_at body 6) 0x01)

abbrev pub szl_records : (data_section : Bytes) → Option (Option (ℕ × Bytes))
szl_records data_section =
    if ltb (length data_section) 12
    then some none
    else reading 1 data_section (
        if not (nat_eq (byte_at data_section 0) 0xff)
        then some none
        else reading 6 data_section (
            if nat_eq (be16 data_section 4) 0x0011 || nat_eq (be16 data_section 4) 0x001c
            then some (some (be16 data_section 4, drop 12 data_section))
            else some none))

-- The data length of the header is not read.
unfoldable pub extract_szl_data : (body : Bytes) → (param_length : ℕ) → Option (Option (ℕ × Bytes))
extract_szl_data body param_length =
    if ltb param_length 12
    then some none
    else if ltb (length body) param_length
    then some none
    else if ltb (length body) 8
    then some none
    else if not (is_szl_response body)
    then some none
    else szl_records (drop param_length body)
