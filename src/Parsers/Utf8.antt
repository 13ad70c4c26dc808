-- ===== src/Parsers/Utf8.antt =====
-- `bytes.decode("utf-8", errors="replace")`: each longest prefix of a sequence that cannot go on
-- gives one U+FFFD.
use ot_asset_discovery.Parsers.{Bytes}
use ot_asset_discovery.Prelude.{
  ℕ, ◌+◌, ◌-◌, ◌*◌, ◌<◌, ◌≡◌, refl, ap, true, ◌&&◌, [], ◌∷◌, ◌++◌, arith, ltb, leb, nat_eq,
  if◌then◌else◌, All, Text,
}

-- Between sequences, or within one: how many bytes are left, the range of the next one, and
-- the bits so far.
pub data Pending : Type 0 where
  idle : Pending
  more : (left low high bits : ℕ) → Pending

abbrev pub replacement : ℕ
replacement = 0xfffd

-- A byte that begins a sequence: what it puts out, and the state after it.
abbrev pub begin : ℕ → Text × Pending
begin b =
    if ltb b 0x80
    then (b ∷ [], idle)
    else if ltb b 0xc2
    then (replacement ∷ [], idle)
    else if ltb b 0xe0
    then ([], more 1 0x80 0xbf (b - 0xc0))
    else if ltb b 0xf0
    then (
      [],
      more 2 (if nat_eq b 0xe0 then 0xa0 else 0x80) (if nat_eq b 0xed then 0x9f else 0xbf)
          (b - 0xe0),
    )
    else if ltb b 0xf5
    then (
      [],
      more 3 (if nat_eq b 0xf0 then 0x90 else 0x80) (if nat_eq b 0xf4 then 0x8f else 0xbf)
          (b - 0xf0),
    )
    else (replacement ∷ [], idle)

abbrev pub advance : Pending → ℕ → Text × Pending
advance idle b = begin b
advance (more left low high bits) b =
    if leb low b && leb b high
    then (let bits' = bits * 64 + (b - 0x80) in
        if leb left 1 then (bits' ∷ [], idle) else ([], more (left - 1) 0x80 0xbf bits'))
    else (let (out, st) = begin b in (replacement ∷ out, st))

unfoldable pub decode_from : Pending → Bytes → Text
decode_from idle [] = []
decode_from (more left low high bits) [] = replacement ∷ []
decode_from st (b ∷ bs) = let (out, st') = advance st b in out ++ decode_from st' bs

unfoldable pub decode : Bytes → Text
decode bs = decode_from idle bs

-- ASCII text decodes to itself.
pub decode_ascii : (s : Text) → All (λ c. c < 0x80) s → decode s ≡ s
unfolding decode decode_from
decode_ascii [] h = refl
decode_ascii (c ∷ s) h =
    let ascii : ltb c 0x80 ≡ true = ground (arith, h.0) in
    rw ascii (ap (λ r. c ∷ r) (decode_ascii s h.1))
