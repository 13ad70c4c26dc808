-- ===== src/Parsers/Serialization/Outcomes.antt =====
-- What app/parsers/serialization.py makes of any JSON, and of what it has written itself.
use ot_asset_discovery.Prelude.{
  ◌≤◌, ◌≡◌, Bool, true, false, Option, none, some, [], length, nat_keys, Text, codes, text_keys,
}
use ot_asset_discovery.Prelude.Dict.{Dict, lookup}
use ot_asset_discovery.Parsers.Serialization.{object_entries, validate_against_schema}
use ot_asset_discovery.Parsers.Serialization.Codec.{
  any_surrogate, valid_json, json_object, required_field, supported_version, schema_validation,
  model_validation, Deserialized, restored, refused_by, raised_type_error,
}
use ot_asset_discovery.Domain.{Value, array, object}
use ot_asset_discovery.Parsers.Serialization.Accepted.{IsSerializable}

-- The schema version is a list or an object.
abbrev pub is_unhashable : Option Value → Bool
is_unhashable (some (array vs)) = true
is_unhashable (some (object fs)) = true
is_unhashable _ = false

-- For the entries of an object: a fingerprint is one of the supported version, within the model's
-- lengths and with both addresses; a schema error names a violation; an error of the model comes
-- only of a lone surrogate in data that the schema accepts; the other errors name no violation; and
-- a TypeError comes of a version that is a list or an object.
abbrev pub IsSoundOutcome : Dict Text Value → Deserialized → Type 0
IsSoundOutcome d (restored f) = IsSerializable f × (any_surrogate d ≡ false)
IsSoundOutcome d (refused_by model_validation es) =
    (any_surrogate d ≡ true) × (validate_against_schema d ≡ [])
IsSoundOutcome d (refused_by schema_validation es) =
    (1 ≤ length es) × (es ≡ validate_against_schema d)
IsSoundOutcome d (refused_by valid_json es) = ⊥
IsSoundOutcome d (refused_by json_object es) = ⊥
IsSoundOutcome d (refused_by required_field es) = lookup (codes "schema_version") d ≡ none
IsSoundOutcome d (refused_by supported_version es) =
    is_unhashable (lookup (codes "schema_version") d) ≡ false
IsSoundOutcome d raised_type_error = is_unhashable (lookup (codes "schema_version") d) ≡ true

-- For any text: `none` is one that is no JSON.
abbrev pub IsSound : Option Value → Deserialized → Type 0
IsSound none outcome = outcome ≡ refused_by valid_json []
IsSound (some (object fs)) outcome = IsSoundOutcome (object_entries fs) outcome
IsSound (some v) outcome = outcome ≡ refused_by json_object []
