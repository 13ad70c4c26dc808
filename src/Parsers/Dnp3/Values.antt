-- ===== src/Parsers/Dnp3/Values.antt =====
-- `_decode_attribute_value` of app/parsers/dnp3.py, the decoder of the attribute loop. How a
-- float is printed is a parameter, which gets its bytes.
use ot_asset_discovery.Prelude.Strings.{rstrip_if, strip}
use ot_asset_discovery.Parsers.{Bytes}
use ot_asset_discovery.Parsers.Dnp3.{Decoder}
use ot_asset_discovery.Parsers.Dnp3.Packets.{hex2}
use ot_asset_discovery.Prelude.{
  ℕ, zero, suc, ◌+◌, ◌-◌, ◌*◌, ◌/◌, ◌%◌, ◌<◌, ◌≡◌, refl, ap, ◌∙◌, inl, inr, Bool, true, false, ◌&&◌,
  ◌||◌, Option, none, some, [], ◌∷◌, ◌++◌, arith, ltb, leb, nat_eq, if◌then◌else◌, Bool-cases,
  length, all, All, Text,
}

-- `value_bytes.hex()`
unfoldable pub hex : Bytes → Text
hex [] = []
hex (b ∷ bs) = hex2 b ++ hex bs

-- `int.from_bytes(value_bytes, byteorder="little")`
unfoldable pub le_number : Bytes → ℕ
le_number [] = 0
le_number (b ∷ bs) = b + 256 * le_number bs

abbrev pub power_256 : Bytes → ℕ
power_256 [] = 1
power_256 (b ∷ bs) = 256 * power_256 bs

-- `str` of a number, on fuel: every round takes a digit.
unfoldable pub digits : (fuel n : ℕ) → Text
digits zero n = []
digits (suc fuel) n = elim (ltb n 10) [
  | true ↦ (48 + n) ∷ []
  | false ↦ digits fuel (n / 10) ++ (48 + n % 10) ∷ []
]

abbrev pub show_number : ℕ → Text
show_number n = digits (suc n) n

-- the sign bit is in the last byte
abbrev pub is_negative : Bytes → Bool
is_negative [] = false
is_negative (b ∷ []) = leb 128 b
is_negative (b ∷ c ∷ bs) = is_negative (c ∷ bs)

unfoldable pub show_signed : Bytes → Text
show_signed bs =
    if is_negative bs
    then b'-' ∷ show_number (power_256 bs - le_number bs)
    else show_number (le_number bs)

-- `value_bytes.decode("ascii").rstrip("\x00").strip()`, which raises on a byte from 128 on
abbrev pub ascii_text : Bytes → Option Text
ascii_text bs = if all (λ c. ltb c 128) bs then some (strip (rstrip_if (nat_eq 0) bs)) else none

abbrev pub or_hex : Option Text → Bytes → Text
or_hex none bs = hex bs
or_hex (some s) bs = s

abbrev pub is_printable : Text → Bool
is_printable [] = false
is_printable (c ∷ s) = all (λ k. leb 32 k && ltb k 127) (c ∷ s)

-- for other data types
abbrev pub printable_or_hex : Option Text → Bytes → Text
printable_or_hex none bs = hex bs
printable_or_hex (some s) bs = if is_printable s then s else hex bs

unfoldable pub show_value : (show_float : Bytes → Text) → (data_type : ℕ) → Bytes → Text
show_value show_float data_type bs =
    if nat_eq data_type 1
    then or_hex (ascii_text bs) bs
    else if nat_eq data_type 2
    then show_number (le_number bs)
    else if nat_eq data_type 3
    then show_signed bs
    else if nat_eq data_type 4
    then if nat_eq (length bs) 4 || nat_eq (length bs) 8 then show_float bs else hex bs
    else if nat_eq data_type 5 || nat_eq data_type 6
    then hex bs
    else printable_or_hex (ascii_text bs) bs

pub decode_attribute_value : (show_float : Bytes → Text) → Decoder
decode_attribute_value show_float data_type [] = none
decode_attribute_value show_float data_type (b ∷ bs) =
    some (show_value show_float data_type (b ∷ bs))

-- The number that a decimal text stands for.
abbrev pub read_digits : (before : ℕ) → Text → ℕ
read_digits before [] = before
read_digits before (c ∷ s) = read_digits (before * 10 + (c - 48)) s

read_digits-append_one :
    (before c : ℕ) (s : Text)
    → read_digits before (s ++ c ∷ []) ≡ read_digits before s * 10 + (c - 48)
read_digits-append_one before c [] = refl
read_digits-append_one before c (d ∷ s) = read_digits-append_one (before * 10 + (d - 48)) c s

-- Enough fuel writes the number.
digits_enough : (fuel n : ℕ) → n < fuel → read_digits 0 (digits fuel n) ≡ n
unfolding digits
digits_enough zero n h = ground (arith, h)
digits_enough (suc fuel) n h = elim (Bool-cases (ltb n 10)) [
  | inl e ↦
      let last : digits (suc fuel) n ≡ (48 + n) ∷ [] = rw (digits, e) refl in
      ap (read_digits 0) last ∙ omega arith
  | inr e ↦
      let more : digits (suc fuel) n ≡ digits fuel (n / 10) ++ (48 + n % 10) ∷ [] =
        rw (digits, e) refl in
      let rest : read_digits 0 (digits fuel (n / 10)) ≡ n / 10 =
        digits_enough fuel (n / 10) (ground (arith, h, e)) in
      ap (read_digits 0) more
      ∙ read_digits-append_one 0 (48 + n % 10) (digits fuel (n / 10))
      ∙ rw rest (omega arith)
]

read_digits-show_number : (n : ℕ) → read_digits 0 (show_number n) ≡ n
read_digits-show_number n = digits_enough (suc n) n (omega arith)

le_number_bound : (bs : Bytes) → All (λ b. b < 256) bs → le_number bs < power_256 bs
unfolding le_number
le_number_bound [] h = omega arith
le_number_bound (b ∷ bs) h = omega (arith, h.0, le_number_bound bs h.1)

-- The text of an unsigned attribute, of any length, stands for the little-endian number of its
-- bytes. The text of a signed one does too, if the sign bit is not set, and else it is a minus sign
-- in front of what the number lacks to the next power of 256.
pub show_value-number :
    (show_float : Bytes → Text) (bs : Bytes)
    → All (λ b. b < 256) bs
    → (read_digits 0 (show_value show_float 2 bs) ≡ le_number bs)
      × (if is_negative bs
          then ((t : Text) × (show_value show_float 3 bs ≡ b'-' ∷ t)
              × (read_digits 0 t + le_number bs ≡ power_256 bs))
          else read_digits 0 (show_value show_float 3 bs) ≡ le_number bs)
unfolding show_value show_signed
show_value-number show_float bs h = (
  read_digits-show_number (le_number bs),
  elim (Bool-cases (is_negative bs)) [
    | inl e ↦ rw e (
      show_number (power_256 bs - le_number bs),
      refl,
      rw (read_digits-show_number (power_256 bs - le_number bs))
          (omega (arith, le_number_bound bs h)),
    )
    | inr e ↦ rw e (read_digits-show_number (le_number bs))
  ],
)
