-- ===== src/Parsers/S7comm/Frames.antt =====
-- Whole packets of app/parsers/s7comm.py, against an encoder of responses to a read of a system
-- status list.
use ot_asset_discovery.Parsers.{Bytes, byte_at}
use ot_asset_discovery.Parsers.S7comm.{
  dotted, parse_s7comm_header, is_szl_response, szl_records, extract_szl_data,
}
use ot_asset_discovery.Domain.{validate_fingerprint, ParseResult}
use ot_asset_discovery.Parsers.S7comm.Headers.{
  byte_at-append_left, IsIpv4, IsTcp, extract_addresses-headers, be16_split, tpkt, parse_tpkt-tpkt,
  cotp, parse_cotp-cotp,
}
use ot_asset_discovery.Parsers.S7comm.Results.{
  IdentityList, modules, components, list_id, record_size, identity_of, parse_szl_identity-laid,
}
use ot_asset_discovery.Parsers.S7comm.Packets.{
  no_identity_found, fields_of, szl_fingerprint, s7_found, of_identity, parse_s7comm,
}
use ot_asset_discovery.Parsers.S7comm.Bounds.{IsShort, parse_szl_identity-IsShort}
use ot_asset_discovery.Parsers.S7comm.Totals.{Short-within}
use ot_asset_discovery.Parsers.S7comm.Identity.{Identity}
use ot_asset_discovery.Parsers.Dnp3.Packets.{count_some}
use ot_asset_discovery.Parsers.Dnp3.Values.{show_number}
use ot_asset_discovery.Parsers.S7comm.Records.{laid}
use ot_asset_discovery.Prelude.{
  ℕ, ◌+◌, ◌*◌, ◌/◌, ◌%◌, ◌≤◌, ◌<◌, ◌≡◌, refl, sym, ap, ◌∙◌, inl, inr, true, false, ◌||◌, none, some,
  List, ◌∷◌, ◌++◌, arith, ltb, nat_eq, if◌then◌else◌, Bool-cases, length, drop, All, length-append,
  drop-append_length, Text,
}

-- The parameters of a successful read of a list.
pub record IsReadSzl (params : Bytes) : Type 0 where
  pub long : 12 ≤ length params
  pub response : is_szl_response params ≡ true

-- The bytes that the parser does not look at.
pub record Loose : Type 0 where
  pub reserved_high : ℕ
  pub reserved_low : ℕ
  pub length_high : ℕ
  pub length_low : ℕ
  pub transport_size : ℕ
  pub size_high : ℕ
  pub size_low : ℕ
  pub index : Bytes

abbrev pub szl_data : IdentityList → Loose → (records : Bytes) → Bytes
szl_data l s records =
    0xff ∷ s.transport_size ∷ s.size_high ∷ s.size_low ∷ 0 ∷ list_id l ∷ (s.index ++ records)

abbrev pub s7_pdu : (msg_type pdu_ref : ℕ) → Loose → (params section : Bytes) → Bytes
s7_pdu msg_type pdu_ref s params section =
    0x32
    ∷ msg_type
    ∷ s.reserved_high
    ∷ s.reserved_low
    ∷ pdu_ref / 256
    ∷ pdu_ref % 256
    ∷ length params / 256
    ∷ length params % 256
    ∷ s.length_high
    ∷ s.length_low
    ∷ (params ++ section)

list_id_known : (l : IdentityList) → (nat_eq (list_id l) 17 || nat_eq (list_id l) 28) ≡ true
list_id_known modules = refl
list_id_known components = refl

szl_records_lem :
    (l : IdentityList) (s : Loose) (records : Bytes)
    → length s.index ≡ 6
    → szl_records (szl_data l s records) ≡ some (some (list_id l, records))
szl_records_lem l s records h =
    let read_1 : ltb (length (szl_data l s records)) 1 ≡ false = ground arith in
    let read_6 : ltb (length (szl_data l s records)) 6 ≡ false = ground arith in
    let long : ltb (length (szl_data l s records)) 12 ≡ false =
      ground (arith, h, length-append s.index records) in
    let past : drop 6 (s.index ++ records) ≡ records =
      ap (λ n. drop n (s.index ++ records)) (sym h) ∙ drop-append_length s.index records in
    let e : 0 + list_id l ≡ list_id l = omega arith in
    rw (long, read_1, read_6, past, e, list_id_known l) refl

extract_szl_data_lem :
    (l : IdentityList) (s : Loose) (params records : Bytes)
    → IsReadSzl params
    → length s.index ≡ 6
    → extract_szl_data (params ++ szl_data l s records) (length params)
      ≡ some (some (list_id l, records))
unfolding extract_szl_data
extract_szl_data_lem l s params records h g =
    let section = szl_data l s records in
    let body = params ++ section in
    let at : (i : ℕ) → i < 12 → byte_at body i ≡ byte_at params i =
      λ i k. byte_at-append_left params section i (omega (arith, h.long, k)) in
    let enough : ltb (length params) 12 ≡ false = ground (arith, h.long) in
    let fits : ltb (length body) (length params) ≡ false =
      ground (arith, length-append params section) in
    let long : ltb (length body) 8 ≡ false = ground (arith, h.long, length-append params section) in
    rw
      (
        enough,
        fits,
        long,
        at 4 (omega arith),
        at 5 (omega arith),
        at 6 (omega arith),
        h.response,
        drop-append_length params section,
      )
      (szl_records_lem l s records g)

-- What a packet with the given records is reported as.
abbrev pub reported : IdentityList → (pdu_ref : ℕ) → (src dst : Text) → List Bytes → ParseResult
reported l pdu_ref src dst parts =
    let i = identity_of l parts in
    if nat_eq (count_some (fields_of i)) 0
    then no_identity_found src dst none
    else s7_found src dst (szl_fingerprint i (list_id l) pdu_ref src dst)

of_identity_lem :
    (szl_id pdu_ref : ℕ) (src dst : Text) (i : Identity)
    → IsShort i
    → of_identity szl_id pdu_ref src dst i
      ≡ some (
          if nat_eq (count_some (fields_of i)) 0
          then no_identity_found src dst none
          else s7_found src dst (szl_fingerprint i szl_id pdu_ref src dst))
unfolding of_identity validate_fingerprint
of_identity_lem szl_id pdu_ref src dst i h =
    let m = Short-within 128 i.plc_type (omega arith) h.plc_type in
    let f = Short-within 64 i.firmware_version (omega arith) h.firmware_version in
    elim (Bool-cases (nat_eq (count_some (fields_of i)) 0)) [
      | inl e ↦ rw e refl
      | inr e ↦ rw (e, m, f) refl
    ]

header_lem :
    (msg_type pdu_ref : ℕ) (s : Loose) (params section : Bytes)
    → parse_s7comm_header (s7_pdu msg_type pdu_ref s params section)
      ≡ some (
          some (record {
            msg_type = msg_type;
            pdu_ref = pdu_ref;
            param_length = length params;
            data_length = s.length_high * 256 + s.length_low;
          }))
unfolding parse_s7comm_header
header_lem msg_type pdu_ref s params section =
    let long : ltb (length (s7_pdu msg_type pdu_ref s params section)) 10 ≡ false = ground arith in
    let read_1 : ltb (length (s7_pdu msg_type pdu_ref s params section)) 1 ≡ false = ground arith in
    rw (long, read_1, be16_split pdu_ref, be16_split (length params)) refl

abbrev pub s7_packet :
    (msg_type pdu_ref reserved : ℕ) → (head : Bytes) → Loose → (params section : Bytes) → Bytes
s7_packet msg_type pdu_ref reserved head s params section =
    tpkt reserved (cotp head (s7_pdu msg_type pdu_ref s params section))

-- Behind any IPv4 and TCP headers, and with anything behind it, the packet of a successful read of
-- one of the two lists, over whole records and a shorter rest, is reported with what the records
-- say: as no identity if they say nothing, and else with the four fields, the list and the PDU
-- reference.
pub parse_s7comm-packet :
    (message : Text) (l : IdentityList) (front tcp : Bytes) (msg_type pdu_ref reserved b : ℕ)
    (head : Bytes) (s : Loose) (params : Bytes) (parts : List Bytes) (rest trailing : Bytes)
    → IsIpv4 front
    → IsTcp tcp
    → (nat_eq msg_type 0x07 || nat_eq msg_type 0x03) ≡ true
    → length s.index ≡ 6
    → IsReadSzl params
    → All (λ part. length part ≡ record_size l) parts
    → length rest < record_size l
    → parse_s7comm message (
        front
        ++ (tcp
            ++ (s7_packet msg_type pdu_ref reserved
                  (b ∷ head)
                  s
                  params
                  (szl_data l s (laid parts rest))
                ++ trailing)))
      ≡ reported l pdu_ref (dotted show_number front 12) (dotted show_number front 16) parts
unfolding parse_s7comm
parse_s7comm-packet message l front tcp msg_type pdu_ref reserved b head s params parts rest
      trailing ip t msg index read whole short =
    let src = dotted show_number front 12 in
    let dst = dotted show_number front 16 in
    let section = szl_data l s (laid parts rest) in
    let pdu = s7_pdu msg_type pdu_ref s params section in
    let found = parse_szl_identity-laid l parts rest whole short in
    let h : IsShort (identity_of l parts) =
      rw (sym found) (parse_szl_identity-IsShort (list_id l) (laid parts rest)) in
    rw
      (
        extract_addresses-headers show_number front tcp
            (s7_packet msg_type pdu_ref reserved (b ∷ head) s params section ++ trailing) ip t,
        parse_tpkt-tpkt reserved (cotp (b ∷ head) pdu) trailing,
        parse_cotp-cotp b head pdu,
        header_lem msg_type pdu_ref s params section,
        msg,
        extract_szl_data_lem l s params (laid parts rest) read index,
        found,
        of_identity_lem (list_id l) pdu_ref src dst (identity_of l parts) h,
      )
      refl
