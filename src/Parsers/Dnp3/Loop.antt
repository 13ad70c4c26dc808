-- ===== src/Parsers/Dnp3/Loop.antt =====
-- The loop over the device attributes of app/parsers/dnp3.py ends: every round takes three bytes
-- or more, and no inner loop puts any back.
use ot_asset_discovery.Parsers.{Bytes}
use ot_asset_discovery.Parsers.Dnp3.{
  le16, Decoder, read_value, Qualifier, plain, indexed, wide, sized, read_item, Attributes,
  set_attribute, read_items, read_range, parse_from,
}
use ot_asset_discovery.Prelude.{
  ℕ, zero, suc, ◌≤◌, ◌≡◌, refl, sym, ◌∙◌, inl, inr, some, [], ◌∷◌, arith, nat_eq, Bool-cases,
  Option-cases, length, length-drop,
}

read_value_shorter :
    (decode_value : Decoder) (bs : Bytes) → length (read_value decode_value bs).1 ≤ length bs
unfolding read_value
read_value_shorter decode_value [] = omega arith
read_value_shorter decode_value (t ∷ []) = omega arith
read_value_shorter decode_value (t ∷ len ∷ bs) = ground (arith, length-drop len bs)

read_item_shorter :
    (decode_value : Decoder) (q : Qualifier) (bs : Bytes)
    → length (read_item decode_value q bs).rest ≤ length bs
unfolding read_item
read_item_shorter decode_value plain bs = read_value_shorter decode_value bs
read_item_shorter decode_value indexed [] = omega arith
read_item_shorter decode_value indexed (i ∷ bs) = omega (arith, read_value_shorter decode_value bs)
read_item_shorter decode_value wide [] = omega arith
read_item_shorter decode_value wide (i ∷ []) = omega arith
read_item_shorter decode_value wide (i ∷ k ∷ bs) = omega (arith, read_value_shorter decode_value bs)
read_item_shorter decode_value sized [] = omega arith
read_item_shorter decode_value sized (i ∷ []) = omega arith
read_item_shorter decode_value sized (lo ∷ hi ∷ bs) = ground (arith, length-drop (le16 lo hi) bs)

read_items_shorter :
    (decode_value : Decoder) (q : Qualifier) (count variation : ℕ) (bs : Bytes)
    (attributes : Attributes)
    → length (read_items decode_value q count variation bs attributes).0 ≤ length bs
unfolding read_items
read_items_shorter decode_value q zero variation bs attributes = omega arith
read_items_shorter decode_value q (suc n) variation bs attributes =
    let item = read_item decode_value q bs in
    let first = read_item_shorter decode_value q bs in
    let later =
      read_items_shorter decode_value q n variation item.rest
        (set_attribute variation item.value attributes) in
    elim (Bool-cases item.stopped) [
      | inl e ↦ rw e first
      | inr e ↦ rw e (omega (arith, first, later))
    ]

read_range_shorter :
    (q : ℕ) (bs : Bytes) (kind : Qualifier) (count : ℕ) (range : Bytes)
    → read_range q bs ≡ some (kind, (count, range))
    → length range ≤ length bs
unfolding read_range
read_range_shorter q [] kind count range h = cc
read_range_shorter q (a ∷ []) kind count range h = ground arith
read_range_shorter q (a ∷ b ∷ bs) kind count range h = ground arith

stops :
    (decode_value : Decoder) (fuel : ℕ) (bs : Bytes) (attributes : Attributes)
    → length bs ≤ 2
    → parse_from decode_value fuel bs attributes ≡ attributes
unfolding parse_from
stops decode_value zero bs attributes h = refl
stops decode_value (suc fuel) [] attributes h = refl
stops decode_value (suc fuel) (g ∷ []) attributes h = refl
stops decode_value (suc fuel) (g ∷ v ∷ []) attributes h = refl
stops decode_value (suc fuel) (g ∷ v ∷ q ∷ bs) attributes h = ground (arith, h)

-- Any two amounts of fuel that are not below the number of bytes give the same attributes: the
-- loop never runs out of it.
pub parse_from_enough :
    (decode_value : Decoder) (fuel more : ℕ) (bs : Bytes) (attributes : Attributes)
    → length bs ≤ fuel
    → length bs ≤ more
    → parse_from decode_value fuel bs attributes ≡ parse_from decode_value more bs attributes
unfolding parse_from
parse_from_enough decode_value fuel more [] attributes h k =
    stops decode_value fuel [] attributes (omega arith)
    ∙ sym (stops decode_value more [] attributes (omega arith))
parse_from_enough decode_value fuel more (g ∷ []) attributes h k =
    stops decode_value fuel (g ∷ []) attributes (omega arith)
    ∙ sym (stops decode_value more (g ∷ []) attributes (omega arith))
parse_from_enough decode_value fuel more (g ∷ v ∷ []) attributes h k =
    stops decode_value fuel (g ∷ v ∷ []) attributes (omega arith)
    ∙ sym (stops decode_value more (g ∷ v ∷ []) attributes (omega arith))
parse_from_enough decode_value zero more (g ∷ v ∷ q ∷ bs) attributes h k = ground (arith, h)
parse_from_enough decode_value (suc fuel) zero (g ∷ v ∷ q ∷ bs) attributes h k = ground (arith, k)
parse_from_enough decode_value (suc fuel) (suc more) (g ∷ v ∷ q ∷ bs) attributes h k =
    elim (Bool-cases (nat_eq g 0)) [
      | inr e ↦ rw e refl
      | inl e ↦ elim (Option-cases (read_range q bs)) [
        | inl r ↦ rw (e, r) refl
        | inr ((kind, (count, range)), r) ↦
            let items = read_items decode_value kind count v range attributes in
            let less = read_range_shorter q bs kind count range r in
            let lesser = read_items_shorter decode_value kind count v range attributes in
            rw (e, r)
              (parse_from_enough decode_value fuel more items.0 items.1
                (omega (arith, h, less, lesser)) (omega (arith, k, less, lesser)))
      ]
    ]
