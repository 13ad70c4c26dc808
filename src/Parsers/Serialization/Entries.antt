-- ===== src/Parsers/Serialization/Entries.antt =====
-- The values that the schema of app/parsers/serialization.py accepts for a field.
use ot_asset_discovery.Domain.{
  Protocol, DeviceType, ParsingStatus, Value, str, null, object, Fields, within,
}
use ot_asset_discovery.Parsers.Serialization.{
  string_type, object_type, one, object_of, Violation, not_allowed, object_entries,
  check_single_type, check_type, unless, in_enum, each_entry, validate_field, plain_schema,
  nullable, bounded, address, protocol_schema, type_schema, status_schema,
}
use ot_asset_discovery.Parsers.Serialization.Codec.{
  optional, named_protocol, named_type, as_type, named_status, as_texts,
}
use ot_asset_discovery.Prelude.{
  ℕ, ◌≤◌, ◌≡◌, refl, inl, inr, Bool, true, false, Option, none, some, List, [], ◌∷◌, ◌++◌, arith,
  Bool-cases, length, ◌==◌, nat_keys, Text, text_eq_iff, text_keys,
}
use ot_asset_discovery.Prelude.Dict.{Dict, lookup}

pub append_empty : (xs ys : List Violation) → xs ++ ys ≡ [] → (xs ≡ []) × (ys ≡ [])
append_empty [] ys h = (refl, h)
append_empty (x ∷ xs) ys h = ground (arith, h)

pub unless_empty : (b : Bool) (e : Violation) → unless b e ≡ [] → b ≡ true
unless_empty b e h = ground (arith, h)

-- A check that finds nothing wrong with all object_entries finds nothing wrong with one.
pub each_entry-lookup :
    (check : Text → Value → List Violation) (fs : Dict Text Value) (k : Text) (v : Value)
    → each_entry check fs ≡ []
    → lookup k fs ≡ some v
    → check k v ≡ []
each_entry-lookup check [] k v h g = cc
each_entry-lookup check ((j, w) ∷ fs) k v h g =
    let parts = append_empty (check j w) (each_entry check fs) h in
    elim (Bool-cases (k == j)) [
      | inl e ↦
          let same : k ≡ j = (text_eq_iff k j).0 e in
          let value : some w ≡ some v = ground (arith, e, g) in let first = parts.0 in cc
      | inr e ↦ each_entry-lookup check fs k v parts.1 (ground (arith, e, g))
    ]

cons_not_empty : (e : Violation) (es : List Violation) → e ∷ es ≡ [] → ⊥
cons_not_empty e es h = cc

-- A violation is none.
pub one_violation {ℓ} : {A : Type ℓ} (e : Violation) (es : List Violation) → e ∷ es ≡ [] → A
one_violation e es h = absurd (cons_not_empty e es h)

pub address_accepts :
    (k : Text) (v : Value)
    → validate_field address k v ≡ []
    → (s : Text) × (v ≡ str s) × (1 ≤ length s)
unfolding validate_field check_type check_single_type
address_accepts k (str s) h = (s, refl, ground (arith, h))
address_accepts k v h = one_violation _ _ h

pub bounded_accepts :
    (k : Text) (n : ℕ) (v : Value)
    → validate_field (bounded n) k v ≡ []
    → (o : Option Text) × (v ≡ optional o) × (within n o ≡ true)
unfolding validate_field check_type check_single_type
bounded_accepts k n null h = (none, refl, refl)
bounded_accepts k n (str s) h = (some s, refl, ground (arith, h))
bounded_accepts k n v h = one_violation _ _ h

pub plain_accepts :
    (k : Text) (v : Value)
    → validate_field (plain_schema nullable) k v ≡ []
    → (o : Option Text) × (v ≡ optional o)
unfolding validate_field check_type check_single_type
plain_accepts k null h = (none, refl)
plain_accepts k (str s) h = (some s, refl)
plain_accepts k v h = one_violation _ _ h

pub object_accepts :
    (k : Text) (v : Value)
    → validate_field (plain_schema (one object_type)) k v ≡ []
    → (fs : Fields) × (v ≡ object fs)
unfolding validate_field check_type check_single_type
object_accepts k (object fs) h = (fs, refl)
object_accepts k v h = one_violation _ _ h

string_entry :
    (k : Text) (v : Value)
    → validate_field (plain_schema (one string_type)) k v ≡ []
    → (s : Text) × (v ≡ str s)
unfolding validate_field check_type check_single_type
string_entry k (str s) h = (s, refl)
string_entry k v h = one_violation _ _ h

texts_accepted :
    (k : Text) (fs : Dict Text Value)
    → each_entry (λ j v. validate_field (plain_schema (one string_type)) (k ++ b'.' ∷ j) v) fs ≡ []
    → (d : Dict Text Text) × (as_texts fs ≡ some d)
unfolding as_texts
texts_accepted k [] h = ([], refl)
texts_accepted k ((j, v) ∷ fs) h =
    let parts = append_empty _ _ h in
    let rest = texts_accepted k fs parts.1 in
    let head = string_entry _ v parts.0 in ((j, head.0) ∷ rest.0, rw (head.1, rest.1) refl)

pub binary_accepts :
    (k : Text) (v : Value)
    → validate_field (object_of (plain_schema (one string_type))) k v ≡ []
    → (fs : Fields) × (d : Dict Text Text) × (v ≡ object fs)
      × (as_texts (object_entries fs) ≡ some d)
unfolding validate_field check_type check_single_type
binary_accepts k (object fs) h =
    let r = texts_accepted k (object_entries fs) h in (fs, r.0, refl, r.1)
binary_accepts k v h = one_violation _ _ h

-- The texts of a literal, in front of other options.
abbrev names {ℓ} : {A : Type ℓ} → Dict Text A → List (Option Text) → List (Option Text)
names [] rest = rest
names ((k, a) ∷ table) rest = some k ∷ names table rest

named_value {ℓ} :
    {A : Type ℓ} (s : Text) (table : Dict Text A) (rest : List (Option Text))
    → in_enum (str s) rest ≡ false
    → in_enum (str s) (names table rest) ≡ true
    → (a : A) × (lookup s table ≡ some a)
named_value s [] rest h g = absurd (ground (arith, h, g))
named_value s ((k, a) ∷ table) rest h g = elim (Bool-cases (s == k)) [
  | inl e ↦ (a, rw e refl)
  | inr e ↦ let r = named_value s table rest h (ground (arith, e, g)) in (r.0, rw e r.1)
]

allowed_value :
    (k s : Text) (options : List (Option Text))
    → unless (in_enum (str s) options) (not_allowed k) ++ [] ≡ []
    → in_enum (str s) options ≡ true
allowed_value k s options h = unless_empty _ _ (append_empty _ _ h).0

pub protocol_accepts :
    (k : Text) (v : Value)
    → validate_field protocol_schema k v ≡ []
    → (s : Text) × (p : Protocol) × (v ≡ str s) × (lookup s named_protocol ≡ some p)
unfolding validate_field check_type check_single_type
protocol_accepts k (str s) h =
    let r = named_value s named_protocol [] refl (allowed_value k s (names named_protocol []) h) in
    (s, r.0, refl, r.1)
protocol_accepts k v h = one_violation _ _ h

pub type_accepts :
    (k : Text) (v : Value)
    → validate_field type_schema k v ≡ []
    → (o : Option Text) × (t : Option DeviceType) × (v ≡ optional o) × (as_type o ≡ some t)
unfolding validate_field check_type check_single_type
type_accepts k null h = (none, none, refl, refl)
type_accepts k (str s) h =
    let r =
      named_value s named_type (none ∷ []) refl
        (allowed_value k s (names named_type (none ∷ [])) h) in
    (some s, some r.0, refl, rw r.1 refl)
type_accepts k v h = one_violation _ _ h

pub status_accepts :
    (k : Text) (v : Value)
    → validate_field status_schema k v ≡ []
    → (s : Text) × (p : ParsingStatus) × (v ≡ str s) × (lookup s named_status ≡ some p)
unfolding validate_field check_type check_single_type
status_accepts k (str s) h =
    let r = named_value s named_status [] refl (allowed_value k s (names named_status []) h) in
    (s, r.0, refl, r.1)
status_accepts k v h = one_violation _ _ h
