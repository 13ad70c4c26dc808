-- ===== src/Parsers/Serialization.antt =====
-- The JSON schema of app/parsers/serialization.py and its validator. An error is kept as the data
-- that its message is built from.
pub mod Codec
pub mod Entries
pub mod Accepted
pub mod Outcomes
pub mod RoundTrip
mod Tests
use ot_asset_discovery.Domain.{Value, str, null, object, Fields, no_entries, entry_then}
use ot_asset_discovery.Prelude.{
  ℕ, Bool, true, false, not, ◌&&◌, ◌||◌, Option, none, some, List, [], ◌∷◌, ◌++◌, leb, nat_eq,
  if◌then◌else◌, is_some, length, any, all, Eq, ◌==◌, nat_keys, Text, codes, text_keys,
}
use ot_asset_discovery.Prelude.Dict.{Dict, lookup}
use ot_asset_discovery.Prelude.Strings.{split}

pub data JsonType : Type 0 where
  string_type null_type object_type : JsonType

-- `"type": t` or `"type": [t, …]`
pub data TypeSpec : Type 0 where
  one : JsonType → TypeSpec
  either : List JsonType → TypeSpec

-- The schema of a field; the last part is `additionalProperties`, where it is a schema.
pub data FieldSchema : Type 0 where
  field_schema :
      (type_spec : TypeSpec) (allowed : Option (List (Option Text)))
      (max_length min_length : Option ℕ) (versioned : Bool)
      → FieldSchema
  object_of : FieldSchema → FieldSchema

pub data Violation : Type 0 where
  missing_field : Text → Violation
  extra_properties : List Text → Violation
  wrong_type not_allowed no_match : Text → Violation
  too_long too_short : (field : Text) (bound : ℕ) → Violation

-- The object_entries of a JSON object.
abbrev pub object_entries : Fields → Dict Text Value
object_entries no_entries = []
object_entries (entry_then k v fs) = (k, v) ∷ object_entries fs

unfoldable pub check_single_type : Value → JsonType → Bool
check_single_type null null_type = true
check_single_type (str s) string_type = true
check_single_type (object fs) object_type = true
check_single_type v t = false

unfoldable pub check_type : Value → TypeSpec → Bool
check_type v (one t) = check_single_type v t
check_type v (either ts) = any (check_single_type v) ts

-- `^\d+\.\d+\.\d+$`, where `$` also stands before a last newline. The pattern is only tried on
-- the supported version, so ASCII digits are enough.
abbrev pub is_numeral : Text → Bool
is_numeral [] = false
is_numeral (c ∷ s) = all (λ k. leb 48 k && leb k 57) (c ∷ s)

abbrev pub without_newline : Text → Text
without_newline [] = []
without_newline (c ∷ []) = if nat_eq c 10 then [] else c ∷ []
without_newline (c ∷ d ∷ s) = c ∷ without_newline (d ∷ s)

abbrev pub three_numerals : List Text → Bool
three_numerals (a ∷ b ∷ c ∷ []) = is_numeral a && (is_numeral b && is_numeral c)
three_numerals parts = false

unfoldable pub matches_version : Text → Bool
matches_version s = three_numerals (split b'.' (without_newline s))

-- A violation where the test says so.
abbrev pub unless : Bool → Violation → List Violation
unless ok e = if ok then [] else e ∷ []

-- `value in field_schema["enum"]`
abbrev pub in_enum : Value → List (Option Text) → Bool
in_enum null options = any (λ o. not (is_some o)) options
in_enum (str s) [] = false
in_enum (str s) (none ∷ options) = in_enum (str s) options
in_enum (str s) (some t ∷ options) = s == t || in_enum (str s) options
in_enum v options = false

abbrev pub is_null : Value → Bool
is_null null = true
is_null v = false

abbrev pub enum_violations : Text → Value → Option (List (Option Text)) → List Violation
enum_violations name v none = []
enum_violations name v (some options) = unless (is_null v || in_enum v options) (not_allowed name)

abbrev pub max_violations : Text → Value → Option ℕ → List Violation
max_violations name (str s) (some n) = unless (leb (length s) n) (too_long name n)
max_violations name v o = []

abbrev pub min_violations : Text → Value → Option ℕ → List Violation
min_violations name (str s) (some n) = unless (leb n (length s)) (too_short name n)
min_violations name v o = []

abbrev pub pattern_violations : Text → Value → Bool → List Violation
pattern_violations name (str s) true = unless (matches_version s) (no_match name)
pattern_violations name v versioned = []

-- The errors of every entry, in order.
abbrev pub each_entry : (Text → Value → List Violation) → Dict Text Value → List Violation
each_entry check [] = []
each_entry check ((k, v) ∷ fs) = check k v ++ each_entry check fs

abbrev pub nested : (Text → Value → List Violation) → Text → Value → List Violation
nested check name (object fs) = each_entry (λ k v. check (name ++ b'.' ∷ k) v) (object_entries fs)
nested check name v = []

unfoldable pub validate_field : FieldSchema → Text → Value → List Violation
validate_field (field_schema type_spec allowed max_length min_length versioned) name v =
    if check_type v type_spec
    then enum_violations name v allowed
      ++ (max_violations name v max_length
          ++ (min_violations name v min_length ++ pattern_violations name v versioned))
    else wrong_type name ∷ []
validate_field (object_of s) name v =
    let inner = nested (λ k w. validate_field s k w) name v in
    if check_type v (one object_type) then inner else wrong_type name ∷ []

-- DEVICE_FINGERPRINT_SCHEMA_V1
abbrev pub plain_schema : TypeSpec → FieldSchema
plain_schema t = field_schema t none none none false

abbrev pub nullable : TypeSpec
nullable = either (string_type ∷ null_type ∷ [])

abbrev pub bounded : ℕ → FieldSchema
bounded n = field_schema nullable none (some n) none false

abbrev pub address : FieldSchema
address = field_schema (one string_type) none none (some 1) false

abbrev pub one_of : TypeSpec → List (Option Text) → FieldSchema
one_of t options = field_schema t (some options) none none false

abbrev pub protocol_schema : FieldSchema
protocol_schema = one_of (one string_type) (
    some (codes "modbus_tcp")
    ∷ some (codes "ethernetip")
    ∷ some (codes "s7comm")
    ∷ some (codes "dnp3")
    ∷ [])

abbrev pub type_schema : FieldSchema
type_schema =
    one_of nullable (
      some (codes "PLC") ∷ some (codes "RTU") ∷ some (codes "HMI") ∷ some (codes "IED") ∷ none ∷ [])

abbrev pub status_schema : FieldSchema
status_schema =
    one_of (one string_type)
      (some (codes "complete") ∷ some (codes "partial") ∷ some (codes "no_identity") ∷ [])

abbrev pub properties : Dict Text FieldSchema
properties =
    (codes "schema_version", field_schema (one string_type) none none none true)
    ∷ (codes "protocol", protocol_schema)
    ∷ (codes "source_address", address)
    ∷ (codes "destination_address", address)
    ∷ (codes "mac_address", plain_schema nullable)
    ∷ (codes "ip_address", plain_schema nullable)
    ∷ (codes "vendor", bounded 128)
    ∷ (codes "model", bounded 128)
    ∷ (codes "firmware_version", bounded 64)
    ∷ (codes "device_type", type_schema)
    ∷ (codes "serial_number", plain_schema nullable)
    ∷ (codes "protocol_data", plain_schema (one object_type))
    ∷ (codes "parsing_status", status_schema)
    ∷ (codes "binary_fields", object_of (plain_schema (one string_type)))
    ∷ []

abbrev pub required : List Text
required =
    codes "schema_version"
    ∷ codes "protocol"
    ∷ codes "source_address"
    ∷ codes "destination_address"
    ∷ []

abbrev pub missing_fields : Dict Text Value → List Text → List Violation
missing_fields data_fields [] = []
missing_fields data_fields (f ∷ fs) =
    unless (is_some (lookup f data_fields)) (missing_field f) ++ missing_fields data_fields fs

-- The keys that no property has; the code sorts them in its message.
abbrev pub extra_keys : Dict Text Value → List Text
extra_keys [] = []
extra_keys ((k, v) ∷ fs) =
    let rest = extra_keys fs in if is_some (lookup k properties) then rest else k ∷ rest

abbrev pub extra_violations : List Text → List Violation
extra_violations [] = []
extra_violations (k ∷ ks) = extra_properties (k ∷ ks) ∷ []

abbrev pub property_violations : Text → Value → Option FieldSchema → List Violation
property_violations k v none = []
property_violations k v (some s) = validate_field s k v

abbrev pub validate_property : Text → Value → List Violation
validate_property k v = property_violations k v (lookup k properties)

abbrev pub with_required : List Violation → Dict Text Value → List Violation
with_required (e ∷ es) data_fields = e ∷ es
with_required [] data_fields =
    extra_violations (extra_keys data_fields) ++ each_entry validate_property data_fields

unfoldable pub validate_against_schema : Dict Text Value → List Violation
validate_against_schema data_fields =
    with_required (missing_fields data_fields required) data_fields
