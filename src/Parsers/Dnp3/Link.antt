-- ===== src/Parsers/Dnp3/Link.antt =====
-- The link layer of app/parsers/dnp3.py, against an encoder that puts two CRC bytes behind each
-- block of 16.
use ot_asset_discovery.Parsers.{Bytes}
use ot_asset_discovery.Parsers.Dnp3.{strip_blocks, some_bytes, extract_user_data}
use ot_asset_discovery.Prelude.{
  ℕ, zero, suc, ◌+◌, ◌-◌, ◌≤◌, min, ◌≡◌, refl, ap, ◌∙◌, false, some, [], ◌∷◌, ◌++◌, arith, leb,
  nat_eq, length, take, drop, length-append, length-take, length-drop, take-append_length,
}

-- The data in blocks of up to 16 bytes, each with the CRC bytes that a function gives, in front
-- of the tail.
abbrev pub encode_blocks : (Bytes → ℕ × ℕ) → (fuel : ℕ) → Bytes → Bytes → Bytes
encode_blocks crc zero bs tail = tail
encode_blocks crc (suc fuel) [] tail = tail
encode_blocks crc (suc fuel) (b ∷ bs) tail =
    let block = take 16 (b ∷ bs) in
    block ++ (crc block).0 ∷ (crc block).1 ∷ encode_blocks crc fuel (drop 16 (b ∷ bs)) tail

drop-append_crc : (xs rest : Bytes) (c d : ℕ) → drop (length xs + 2) (xs ++ c ∷ d ∷ rest) ≡ rest
drop-append_crc [] rest c d = refl
drop-append_crc (x ∷ xs) rest c d =
    let e : suc (length xs) + 2 ≡ suc (length xs + 2) = omega arith in
    rw e (drop-append_crc xs rest c d)

take-drop : (n : ℕ) (xs : Bytes) → take n xs ++ drop n xs ≡ xs
take-drop zero xs = refl
take-drop (suc n) [] = refl
take-drop (suc n) (x ∷ xs) = ap (λ r. x ∷ r) (take-drop n xs)

-- A whole block is taken, and its CRC bytes are left out.
strip_round :
    (fuel remaining x c d : ℕ) (xs rest : Bytes)
    → length (x ∷ xs) ≡ min 16 remaining
    → strip_blocks (suc fuel) remaining ((x ∷ xs) ++ c ∷ d ∷ rest)
      ≡ (x ∷ xs) ++ strip_blocks fuel (remaining - length (x ∷ xs)) rest
unfolding strip_blocks
strip_round fuel remaining x c d xs rest h =
    let size : min (min 16 remaining) (length ((x ∷ xs) ++ c ∷ d ∷ rest)) ≡ length (x ∷ xs) =
      omega (arith, h, length-append (x ∷ xs) (c ∷ d ∷ rest)) in
    let more : nat_eq remaining 0 ≡ false = ground (arith, h) in
    rw (size, more, drop-append_crc (x ∷ xs) rest c d, take-append_length xs (c ∷ d ∷ rest)) refl

strip_none : (fuel : ℕ) (bs : Bytes) → strip_blocks fuel 0 bs ≡ []
unfolding strip_blocks
strip_none zero bs = refl
strip_none (suc fuel) [] = refl
strip_none (suc fuel) (b ∷ bs) = refl

strip_blocks-encode_blocks :
    (crc : Bytes → ℕ × ℕ) (fuel n : ℕ) (bs tail : Bytes)
    → length bs ≤ fuel
    → length bs ≤ n
    → strip_blocks fuel (length bs) (encode_blocks crc n bs tail) ≡ bs
strip_blocks-encode_blocks crc fuel n [] tail h k = strip_none fuel (encode_blocks crc n [] tail)
strip_blocks-encode_blocks crc zero n (b ∷ bs) tail h k = ground (arith, h)
strip_blocks-encode_blocks crc (suc fuel) zero (b ∷ bs) tail h k = ground (arith, k)
strip_blocks-encode_blocks crc (suc fuel) (suc n) (b ∷ bs) tail h k =
    let block = take 16 (b ∷ bs) in
    let left : length (b ∷ bs) - length block ≡ length (drop 16 (b ∷ bs)) =
      omega (arith, length-take 16 (b ∷ bs), length-drop 16 (b ∷ bs)) in
    strip_round fuel (length (b ∷ bs)) b (crc block).0 (crc block).1 (take 15 bs)
      (encode_blocks crc n (drop 15 bs) tail) (omega (arith, length-take 15 bs))
    ∙ rw left (
        ap (λ r. block ++ r)
          (strip_blocks-encode_blocks crc fuel n (drop 15 bs) tail
            (omega (arith, h, length-drop 15 bs)) (omega (arith, k, length-drop 15 bs)))
        ∙ take-drop 16 (b ∷ bs))

length-encode_blocks :
    (crc : Bytes → ℕ × ℕ) (n : ℕ) (bs tail : Bytes)
    → length bs ≤ n
    → length bs ≤ length (encode_blocks crc n bs tail)
length-encode_blocks crc n [] tail h = omega arith
length-encode_blocks crc zero (b ∷ bs) tail h = ground (arith, h)
length-encode_blocks crc (suc n) (b ∷ bs) tail h =
    let rest = encode_blocks crc n (drop 15 bs) tail in
    let block = take 16 (b ∷ bs) in
    omega (
      arith,
      h,
      length-append (take 15 bs) ((crc block).0 ∷ (crc block).1 ∷ rest),
      length-take 15 bs,
      length-drop 15 bs,
      length-encode_blocks crc n (drop 15 bs) tail (omega (arith, h, length-drop 15 bs)),
    )

-- A link-layer header: the start bytes, the length, the control byte, the two addresses and the
-- CRC.
abbrev pub link_header : (len control to_lo to_hi from_lo from_hi crc_lo crc_hi : ℕ) → Bytes
link_header len control to_lo to_hi from_lo from_hi crc_lo crc_hi =
    0x05 ∷ 0x64 ∷ len ∷ control ∷ to_lo ∷ to_hi ∷ from_lo ∷ from_hi ∷ crc_lo ∷ crc_hi ∷ []

-- The user data of a frame come back without the CRC bytes, whatever these are and whatever
-- follows the frame: for up to 250 bytes of data, of which there is one, and a length byte that
-- counts them and the five bytes from the control byte to the addresses.
pub extract_user_data-encode_blocks :
    (crc : Bytes → ℕ × ℕ) (control to_lo to_hi from_lo from_hi crc_lo crc_hi b : ℕ)
    (bs tail : Bytes)
    → length (b ∷ bs) ≤ 250
    → extract_user_data (
        link_header (length (b ∷ bs) + 5) control to_lo to_hi from_lo from_hi crc_lo crc_hi
        ++ encode_blocks crc (length (b ∷ bs)) (b ∷ bs) tail)
      ≡ some (b ∷ bs)
unfolding extract_user_data
extract_user_data-encode_blocks crc control to_lo to_hi from_lo from_hi crc_lo crc_hi b bs tail
      fits =
    let body = encode_blocks crc (length (b ∷ bs)) (b ∷ bs) tail in
    let raw =
      link_header (length (b ∷ bs) + 5) control to_lo to_hi from_lo from_hi crc_lo crc_hi ++ body in
    let holds : length (b ∷ bs) ≤ length body =
      length-encode_blocks crc (length (b ∷ bs)) (b ∷ bs) tail (omega arith) in
    let long : leb (length raw) 10 ≡ false = ground (arith, holds) in
    let some_data : leb (length (b ∷ bs) + 5) 5 ≡ false = ground arith in
    let count : length (b ∷ bs) + 5 - 5 ≡ length (b ∷ bs) = omega arith in
    let enough : length (b ∷ bs) ≤ length raw = omega (arith, holds) in
    rw (long, some_data, count)
      (ap some_bytes (
        strip_blocks-encode_blocks crc (length raw) (length (b ∷ bs)) (b ∷ bs) tail enough
          (omega arith)))
