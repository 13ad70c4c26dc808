-- ===== src/Prelude/Strings.antt =====
-- Python's `str` methods on the lists of code points of texts.
use Prim.Native.Nat.{ℕ, ◌≤◌}
use mathlib.Core.Bool.{Bool, false, ◌&&◌, ◌||◌}
use native.Mathlib.Omega.{arith}
use ot_asset_discovery.Prelude.Lists.{length, All, length-append}
use mathlib.Core.Path.{◌≡◌, refl, ◌∙◌, ap}
use mathlib.Core.List.{List, [], ◌∷◌, ◌++◌, reverse, reverse-cons}
use ot_asset_discovery.Prelude.Tests.{leb, nat_eq, if◌then◌else◌}
use ot_asset_discovery.Prelude.Keys.{Text}

-- `str.isspace` of one character
abbrev pub is_space : ℕ → Bool
is_space c =
    (leb 9 c && leb c 13)
    || ((leb 28 c && leb c 32)
        || (nat_eq c 0x85
            || (nat_eq c 0xa0
                || (nat_eq c 0x1680
                    || ((leb 0x2000 c && leb c 0x200a)
                        || (nat_eq c 0x2028
                            || (nat_eq c 0x2029
                                || (nat_eq c 0x202f || (nat_eq c 0x205f || nat_eq c 0x3000)))))))))

-- `s.lstrip()` for the characters that the test names
unfoldable pub lstrip_if : (ℕ → Bool) → Text → Text
lstrip_if p [] = []
lstrip_if p (c ∷ s) = let rest = lstrip_if p s in if p c then rest else c ∷ s

unfoldable pub rstrip_if : (ℕ → Bool) → Text → Text
unfolding lstrip_if
rstrip_if p s = reverse (lstrip_if p (reverse s))

-- `s.strip()`
unfoldable pub strip : Text → Text
unfolding lstrip_if rstrip_if
strip s = rstrip_if is_space (lstrip_if is_space s)

-- Stripping makes a text no longer.
length-lstrip_if : (p : ℕ → Bool) (s : Text) → length (lstrip_if p s) ≤ length s
unfolding lstrip_if
length-lstrip_if p [] = omega arith
length-lstrip_if p (c ∷ s) = ground (arith, length-lstrip_if p s)

length-reverse : (s : Text) → length (reverse s) ≡ length s
length-reverse [] = refl
length-reverse (c ∷ s) =
    ap length (reverse-cons c s)
    ∙ omega (arith, length-append (reverse s) (c ∷ []), length-reverse s)

pub length-strip : (s : Text) → length (strip s) ≤ length s
unfolding strip rstrip_if
length-strip s =
    let t = lstrip_if is_space s in
    omega (
      arith,
      length-reverse (lstrip_if is_space (reverse t)),
      length-lstrip_if is_space (reverse t),
      length-reverse t,
      length-lstrip_if is_space s,
    )

-- A character in front of the first part.
abbrev pub on_first : ℕ → List Text → List Text
on_first c [] = (c ∷ []) ∷ []
on_first c (part ∷ parts) = (c ∷ part) ∷ parts

-- `s.split(sep)` by one character
unfoldable pub split : ℕ → Text → List Text
split sep [] = [] ∷ []
split sep (c ∷ s) = let rest = split sep s in if nat_eq c sep then [] ∷ rest else on_first c rest

-- `sep.join(parts)`
unfoldable pub join : Text → List Text → Text
join sep [] = []
join sep (p ∷ []) = p
join sep (p ∷ q ∷ parts) = p ++ (sep ++ join sep (q ∷ parts))

-- The character is not in the text.
abbrev pub Free : ℕ → Text → Type 0
Free sep [] = Unit
Free sep (c ∷ s) = (nat_eq c sep ≡ false) × Free sep s

split-Free : (sep : ℕ) (p : Text) → Free sep p → split sep p ≡ p ∷ []
unfolding split
split-Free sep [] h = refl
split-Free sep (c ∷ p) h = rw (h.0, split-Free sep p h.1)

split-append : (sep : ℕ) (p s : Text) → Free sep p → split sep (p ++ sep ∷ s) ≡ p ∷ split sep s
unfolding split
split-append sep [] s h = ground arith
split-append sep (c ∷ p) s h = rw (h.0, split-append sep p s h.1)

-- Parts that hold no separator come back from their joined text.
pub split-join :
    (sep : ℕ) (p : Text) (parts : List Text)
    → All (Free sep) (p ∷ parts)
    → split sep (join (sep ∷ []) (p ∷ parts)) ≡ p ∷ parts
unfolding join
split-join sep p [] h = split-Free sep p h.0
split-join sep p (q ∷ parts) h =
    split-append sep p (join (sep ∷ []) (q ∷ parts)) h.0
    ∙ ap (λ r. p ∷ r) (split-join sep q parts h.1)
