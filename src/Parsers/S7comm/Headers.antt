-- ===== src/Parsers/S7comm/Headers.antt =====
-- The headers in front of an S7comm message in app/parsers/s7comm.py, against an encoder of them:
-- IPv4 and TCP, TPKT, COTP.
use ot_asset_discovery.Parsers.S7comm.{
  high_bits, low_bits, dotted, past_tcp, extract_addresses, parse_tpkt, parse_cotp,
}
use ot_asset_discovery.Parsers.{Bytes, byte_at}
use ot_asset_discovery.Prelude.{
  ℕ, zero, suc, ◌+◌, ◌*◌, ◌/◌, ◌%◌, ◌≤◌, ◌<◌, ◌≡◌, refl, ap, ◌∙◌, false, some, [], ◌∷◌, ◌++◌, arith,
  ltb, length, drop, length-append, take-append_length, drop-append_length, Text,
}

pub byte_at-append_left :
    (xs ys : Bytes) (i : ℕ) → i < length xs → byte_at (xs ++ ys) i ≡ byte_at xs i
byte_at-append_left [] ys i h = ground (arith, h)
byte_at-append_left (x ∷ xs) ys zero h = refl
byte_at-append_left (x ∷ xs) ys (suc i) h = byte_at-append_left xs ys i (omega (arith, h))

pub byte_at-append_right :
    (xs ys : Bytes) (i : ℕ) → byte_at (xs ++ ys) (length xs + i) ≡ byte_at ys i
byte_at-append_right [] ys i = let e : 0 + i ≡ i = omega arith in rw e refl
byte_at-append_right (x ∷ xs) ys i =
    let e : suc (length xs) + i ≡ suc (length xs + i) = omega arith in
    rw e (byte_at-append_right xs ys i)

pub drop-append_right : (xs ys : Bytes) (n : ℕ) → drop (length xs + n) (xs ++ ys) ≡ drop n ys
drop-append_right [] ys n = let e : 0 + n ≡ n = omega arith in rw e refl
drop-append_right (x ∷ xs) ys n =
    let e : suc (length xs) + n ≡ suc (length xs + n) = omega arith in
    rw e (drop-append_right xs ys n)

-- An IPv4 header with its options, and a TCP header with its options.
pub record IsIpv4 (front : Bytes) : Type 0 where
  pub long : 20 ≤ length front
  pub version : high_bits (byte_at front 0) ≡ 4
  pub ihl : low_bits (byte_at front 0) * 4 ≡ length front

pub record IsTcp (tcp : Bytes) : Type 0 where
  pub long : 20 ≤ length tcp
  pub offset : high_bits (byte_at tcp 12) * 4 ≡ length tcp

past_tcp_lem :
    (front tcp payload : Bytes)
    → IsTcp tcp
    → past_tcp (length front) (front ++ (tcp ++ payload)) ≡ some payload
past_tcp_lem front tcp payload h =
    let bs = front ++ (tcp ++ payload) in
    let long : ltb (length bs) (length front + 20) ≡ false =
      ground (arith, h.long, length-append front (tcp ++ payload), length-append tcp payload) in
    let there : ltb (length bs) (length front + 13) ≡ false = ground (arith, long) in
    let at : byte_at bs (length front + 12) ≡ byte_at tcp 12 =
      byte_at-append_right front (tcp ++ payload) 12
      ∙ byte_at-append_left tcp payload 12 (omega (arith, h.long)) in
    rw (long, there, at, h.offset)
      (ap some
        (drop-append_right front (tcp ++ payload) (length tcp) ∙ drop-append_length tcp payload))

-- Headers of IPv4 and TCP, with any options, are taken off, and give the two addresses.
pub extract_addresses-headers :
    (show_byte : ℕ → Text) (front tcp payload : Bytes)
    → IsIpv4 front
    → IsTcp tcp
    → extract_addresses show_byte (front ++ (tcp ++ payload))
      ≡ some (record {
        source = dotted show_byte front 12;
        destination = dotted show_byte front 16;
        payload = payload;
      })
unfolding extract_addresses
extract_addresses-headers show_byte front tcp payload h g =
    let bs = front ++ (tcp ++ payload) in
    let at : (i : ℕ) → i < 20 → byte_at bs i ≡ byte_at front i =
      λ i k. byte_at-append_left front (tcp ++ payload) i (omega (arith, h.long, k)) in
    let long : ltb (length bs) 20 ≡ false =
      ground (arith, h.long, length-append front (tcp ++ payload)) in
    let there : ltb (length bs) 1 ≡ false = ground (arith, long) in
    let longer : ltb (length bs) (length front) ≡ false =
      ground (arith, length-append front (tcp ++ payload)) in
    rw
      (
        long,
        there,
        at 0 (omega arith),
        at 12 (omega arith),
        at 13 (omega arith),
        at 14 (omega arith),
        at 15 (omega arith),
        at 16 (omega arith),
        at 17 (omega arith),
        at 18 (omega arith),
        at 19 (omega arith),
        h.version,
        h.ihl,
        longer,
        past_tcp_lem front tcp payload g,
      )
      refl

pub be16_split : (n : ℕ) → n / 256 * 256 + n % 256 ≡ n
be16_split n = omega arith

-- TPKT around a payload, with its length.
abbrev pub tpkt : (reserved : ℕ) → Bytes → Bytes
tpkt reserved payload =
    0x03 ∷ reserved ∷ (4 + length payload) / 256 ∷ (4 + length payload) % 256 ∷ payload

pub parse_tpkt-tpkt :
    (reserved : ℕ) (payload trailing : Bytes)
    → parse_tpkt (tpkt reserved payload ++ trailing) ≡ some (some payload)
unfolding parse_tpkt
parse_tpkt-tpkt reserved payload trailing =
    let bs = tpkt reserved payload ++ trailing in
    let long : ltb (length bs) 4 ≡ false = ground arith in
    let size : (4 + length payload) / 256 * 256 + (4 + length payload) % 256
        ≡ suc (suc (suc (suc (length payload)))) =
      be16_split (4 + length payload) ∙ omega arith in
    let enough : ltb (suc (suc (suc (suc (length payload))))) 4 ≡ false = ground arith in
    let fits : ltb (length bs) (suc (suc (suc (suc (length payload))))) ≡ false =
      ground (arith, length-append payload trailing) in
    rw (long, size, enough, fits, take-append_length payload trailing) refl

-- A data PDU with a header of the declared length.
abbrev pub cotp : (head : Bytes) → Bytes → Bytes
cotp head payload = suc (length head) ∷ 0xf0 ∷ (head ++ payload)

pub parse_cotp-cotp :
    (b : ℕ) (head payload : Bytes) → parse_cotp (cotp (b ∷ head) payload) ≡ some (some payload)
unfolding parse_cotp
parse_cotp-cotp b head payload =
    let bs = cotp (b ∷ head) payload in
    let long : ltb (length bs) 3 ≡ false = ground arith in
    let read_2 : ltb (length bs) 2 ≡ false = ground arith in
    let fits : ltb (length bs) (1 + suc (suc (length head))) ≡ false =
      ground (arith, length-append head payload) in
    let past : 1 + suc (suc (length head)) ≡ suc (suc (suc (length head))) = omega arith in
    rw (long, read_2, fits, past, drop-append_length head payload) refl
