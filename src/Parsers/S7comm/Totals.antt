-- ===== src/Parsers/S7comm/Totals.antt =====
-- What `parse_s7comm` of app/parsers/s7comm.py returns for any bytes.
use ot_asset_discovery.Parsers.S7comm.{
  high_bits, low_bits, Addressed, past_tcp, extract_addresses, parse_tpkt, parse_cotp, S7Header,
  parse_s7comm_header, is_szl_response, szl_records, extract_szl_data,
}
use ot_asset_discovery.Parsers.{Bytes, byte_at, be16}
use ot_asset_discovery.Domain.{
  Protocol, ParsingStatus, DeviceFingerprint, within, validate_fingerprint, ParseResult,
}
use ot_asset_discovery.Parsers.S7comm.Packets.{
  no_identity_found, null_or, fields_of, s7_status, szl_fingerprint, s7_found, of_identity, of_szl,
  of_header, of_cotp, of_tpkt, parse_s7comm,
}
use ot_asset_discovery.Parsers.S7comm.Bounds.{Short, IsShort, parse_szl_identity-IsShort}
use ot_asset_discovery.Parsers.S7comm.Identity.{Identity, parse_szl_identity}
use ot_asset_discovery.Parsers.Dnp3.Packets.{count_some}
use ot_asset_discovery.Parsers.Dnp3.Values.{show_number}
use ot_asset_discovery.Prelude.{
  ℕ, ◌+◌, ◌*◌, ◌≤◌, ◌≡◌, refl, inl, inr, true, false, not, ◌&&◌, ◌||◌, Option, none, some, [], ◌∷◌,
  arith, ltb, nat_eq, if◌then◌else◌, Bool-cases, is_some, length, drop, nat_keys, Text, codes,
  text_keys,
}
use ot_asset_discovery.Prelude.Dict.{lookup}

-- With a fingerprint, the result has its status and no error, the vendor is Siemens, the key fields
-- fit, and the status is complete exactly if the model, the firmware version, the serial number and
-- the module name of the protocol data are all there, and else partial; without one, the status is
-- no_identity.
abbrev pub FieldsFit : ParsingStatus → Option Text → Option DeviceFingerprint → Type 0
FieldsFit status error none = status ≡ ParsingStatus.no_identity
FieldsFit status error (some f) =
    (error ≡ none)
    × (f.parsing_status ≡ status)
    × (f.vendor ≡ some (codes "Siemens"))
    × (within 128 f.model ≡ true)
    × (within 64 f.firmware_version ≡ true)
    × ((module_name : Option Text) × (lookup (codes "module_name") f.protocol_data
          ≡ some (null_or module_name))
        × (status ≡ (
            if is_some f.model
              && (is_some module_name && (is_some f.firmware_version && is_some f.serial_number))
            then ParsingStatus.complete
            else ParsingStatus.partial)))

-- A result of the body with the given addresses.
abbrev pub IsSoundS7 : (src dst : Text) → Option ParseResult → Type 0
IsSoundS7 src dst o =
    (r : ParseResult) × (o ≡ some r)
    × (r.protocol ≡ Protocol.s7comm)
    × (r.source_address ≡ src)
    × (r.destination_address ≡ dst)
    × FieldsFit r.parsing_status r.error r.fingerprint

pub Short-within : (n : ℕ) (o : Option Text) → 64 ≤ n → Short o → within n o ≡ true
Short-within n none g h = refl
Short-within n (some s) g h = ground (arith, g, h)

status-fields :
    (a b c d : Option Text)
    → s7_status (count_some (a ∷ b ∷ c ∷ d ∷ [])) ≡ (
        if is_some a && (is_some b && (is_some c && is_some d))
        then ParsingStatus.complete
        else ParsingStatus.partial)
status-fields a b c d = ground arith

of_identity-IsSoundS7 :
    (szl_id pdu_ref : ℕ) (src dst : Text) (i : Identity)
    → IsShort i
    → IsSoundS7 src dst (of_identity szl_id pdu_ref src dst i)
unfolding of_identity validate_fingerprint
of_identity-IsSoundS7 szl_id pdu_ref src dst i h =
    let m = Short-within 128 i.plc_type (omega arith) h.plc_type in
    let f = Short-within 64 i.firmware_version (omega arith) h.firmware_version in
    elim (Bool-cases (nat_eq (count_some (fields_of i)) 0)) [
      | inl e ↦ rw e (_, refl, refl, refl, refl, refl)
      | inr e ↦ (
        s7_found src dst (szl_fingerprint i szl_id pdu_ref src dst),
        rw (e, m, f) refl,
        refl,
        refl,
        refl,
        (
          refl,
          refl,
          refl,
          m,
          f,
          (
            i.module_name,
            refl,
            status-fields i.plc_type i.module_name i.firmware_version i.serial_number,
          ),
        ),
      )
    ]

refused-IsSoundS7 :
    (src dst : Text) (e : Option Text) → IsSoundS7 src dst (some (no_identity_found src dst e))
refused-IsSoundS7 src dst e = (_, refl, refl, refl, refl, refl)

-- It returned, whatever it returned.
abbrev Returns {ℓ} : {A : Type ℓ} → Option A → Type ℓ
Returns {A = A} o = (x : A) × (o ≡ some x)

past_tcp-Returns : (ihl : ℕ) (bs : Bytes) → Returns (past_tcp ihl bs)
past_tcp-Returns ihl bs = elim (Bool-cases (ltb (length bs) (ihl + 20))) [
  | inl e ↦ rw e (_, refl)
  | inr e ↦
      let there : ltb (length bs) (ihl + 13) ≡ false = ground (arith, e) in rw (e, there) (_, refl)
]

extract_addresses-Returns :
    (show_byte : ℕ → Text) (bs : Bytes) → Returns (extract_addresses show_byte bs)
unfolding extract_addresses
extract_addresses-Returns show_byte bs = elim (Bool-cases (ltb (length bs) 20)) [
  | inl e ↦ rw e (_, refl)
  | inr e ↦
      let there : ltb (length bs) 1 ≡ false = ground (arith, e) in
      let ihl = low_bits (byte_at bs 0) * 4 in
      rw (e, there)
        (elim (Bool-cases (not (nat_eq (high_bits (byte_at bs 0)) 4) || ltb (length bs) ihl)) [
          | inl v ↦ rw v (_, refl)
          | inr v ↦ rw (v, (past_tcp-Returns ihl bs).1) (_, refl)
        ])
]

parse_tpkt-Returns : (bs : Bytes) → Returns (parse_tpkt bs)
unfolding parse_tpkt
parse_tpkt-Returns bs = elim (Bool-cases (ltb (length bs) 4)) [
  | inl e ↦ rw e (none, refl)
  | inr e ↦ rw e (elim (Bool-cases (nat_eq (byte_at bs 0) 0x03)) [
    | inr q ↦ rw q (none, refl)
    | inl q ↦ rw q (elim (Bool-cases (ltb (be16 bs 2) 4 || ltb (length bs) (be16 bs 2))) [
      | inl r ↦ rw r (none, refl)
      | inr r ↦ rw r (_, refl)
    ])
  ])
]

parse_cotp-Returns : (bs : Bytes) → Returns (parse_cotp bs)
unfolding parse_cotp
parse_cotp-Returns bs = elim (Bool-cases (ltb (length bs) 3)) [
  | inl e ↦ rw e (none, refl)
  | inr e ↦
      let read_2 : ltb (length bs) 2 ≡ false = ground (arith, e) in
      rw (e, read_2)
        (elim (Bool-cases (nat_eq (byte_at bs 1) 0xf0)) [
          | inr q ↦ rw q (none, refl)
          | inl q ↦ rw q (elim (Bool-cases (ltb (length bs) (1 + byte_at bs 0))) [
            | inl r ↦ rw r (none, refl)
            | inr r ↦ rw r (_, refl)
          ])
        ])
]

header-Returns : (bs : Bytes) → Returns (parse_s7comm_header bs)
unfolding parse_s7comm_header
header-Returns bs = elim (Bool-cases (ltb (length bs) 10)) [
  | inl e ↦ rw e (none, refl)
  | inr e ↦
      let read_1 : ltb (length bs) 1 ≡ false = ground (arith, e) in
      rw (e, read_1)
        (elim (Bool-cases (nat_eq (byte_at bs 0) 0x32)) [
          | inr q ↦ rw q (none, refl)
          | inl q ↦ rw q (_, refl)
        ])
]

szl_records-Returns : (bs : Bytes) → Returns (szl_records bs)
szl_records-Returns bs = elim (Bool-cases (ltb (length bs) 12)) [
  | inl e ↦ rw e (none, refl)
  | inr e ↦
      let read_1 : ltb (length bs) 1 ≡ false = ground (arith, e) in
      let read_6 : ltb (length bs) 6 ≡ false = ground (arith, e) in
      rw (e, read_1)
        (elim (Bool-cases (nat_eq (byte_at bs 0) 0xff)) [
          | inr q ↦ rw q (none, refl)
          | inl q ↦
              rw (q, read_6)
                (elim (Bool-cases (nat_eq (be16 bs 4) 0x0011 || nat_eq (be16 bs 4) 0x001c)) [
                  | inl r ↦ rw r (_, refl)
                  | inr r ↦ rw r (none, refl)
                ])
        ])
]

szl-Returns : (body : Bytes) (n : ℕ) → Returns (extract_szl_data body n)
unfolding extract_szl_data
szl-Returns body n = elim (Bool-cases (ltb n 12)) [
  | inl e ↦ rw e (none, refl)
  | inr e ↦ rw e (elim (Bool-cases (ltb (length body) n)) [
    | inl q ↦ rw q (none, refl)
    | inr q ↦ rw q (elim (Bool-cases (ltb (length body) 8)) [
      | inl r ↦ rw r (none, refl)
      | inr r ↦ rw r (elim (Bool-cases (is_szl_response body)) [
        | inr u ↦ rw u (none, refl)
        | inl u ↦ rw u (szl_records-Returns (drop n body))
      ])
    ])
  ])
]

of_szl-IsSoundS7 :
    (pdu_ref : ℕ) (src dst : Text) (o : Option (Option (ℕ × Bytes)))
    → Returns o
    → IsSoundS7 src dst (of_szl pdu_ref src dst o)
of_szl-IsSoundS7 pdu_ref src dst none h = absurd (ground (arith, h.1))
of_szl-IsSoundS7 pdu_ref src dst (some none) h = refused-IsSoundS7 src dst none
of_szl-IsSoundS7 pdu_ref src dst (some (some (szl_id, records))) h =
    of_identity-IsSoundS7 szl_id pdu_ref src dst (parse_szl_identity szl_id records)
      (parse_szl_identity-IsShort szl_id records)

of_header-IsSoundS7 :
    (src dst : Text) (bs : Bytes) (o : Option (Option S7Header))
    → Returns o
    → IsSoundS7 src dst (of_header src dst bs o)
of_header-IsSoundS7 src dst bs none h = absurd (ground (arith, h.1))
of_header-IsSoundS7 src dst bs (some none) h = refused-IsSoundS7 src dst _
of_header-IsSoundS7 src dst bs (some (some header)) h =
    elim (Bool-cases (nat_eq header.msg_type 0x07 || nat_eq header.msg_type 0x03)) [
      | inl e ↦ rw e (
          of_szl-IsSoundS7 header.pdu_ref src dst
            (extract_szl_data (drop 10 bs) header.param_length)
            (szl-Returns (drop 10 bs) header.param_length))
      | inr e ↦ rw e (refused-IsSoundS7 src dst none)
    ]

of_cotp-IsSoundS7 :
    (src dst : Text) (o : Option (Option Bytes)) → Returns o → IsSoundS7 src dst (of_cotp src dst o)
of_cotp-IsSoundS7 src dst none h = absurd (ground (arith, h.1))
of_cotp-IsSoundS7 src dst (some none) h = refused-IsSoundS7 src dst _
of_cotp-IsSoundS7 src dst (some (some bs)) h =
    of_header-IsSoundS7 src dst bs (parse_s7comm_header bs) (header-Returns bs)

of_tpkt-IsSoundS7 :
    (src dst : Text) (o : Option (Option Bytes)) → Returns o → IsSoundS7 src dst (of_tpkt src dst o)
of_tpkt-IsSoundS7 src dst none h = absurd (ground (arith, h.1))
of_tpkt-IsSoundS7 src dst (some none) h = refused-IsSoundS7 src dst _
of_tpkt-IsSoundS7 src dst (some (some bs)) h =
    of_cotp-IsSoundS7 src dst (parse_cotp bs) (parse_cotp-Returns bs)

-- For any bytes the headers are never read beyond their end and the model's validation passes, so
-- that the body of the parser gives a result, which is the one returned, and it has the addresses
-- that stand in front of the payload. A result with a fingerprint has no error, the status of the
-- fingerprint, Siemens as its vendor and key fields that fit their lengths, and is complete
-- exactly if model, module name, firmware version and serial number are all there, and else
-- partial; a result without one is no_identity.
pub parse_s7comm_total :
    (message : Text) (bs : Bytes)
    → (a : Addressed) × (extract_addresses show_number bs ≡ some a)
      × (let body = of_tpkt a.source a.destination (parse_tpkt a.payload) in
          IsSoundS7 a.source a.destination body × (body ≡ some (parse_s7comm message bs)))
unfolding parse_s7comm
parse_s7comm_total message bs =
    let (a, e) = extract_addresses-Returns show_number bs in
    let s =
      of_tpkt-IsSoundS7 a.source a.destination (parse_tpkt a.payload)
        (parse_tpkt-Returns a.payload) in
    (a, e, (s, rw (e, s.1) refl))
