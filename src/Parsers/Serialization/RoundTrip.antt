-- ===== src/Parsers/Serialization/RoundTrip.antt =====
-- What app/parsers/serialization.py reads back of the fingerprints that it has written.
use ot_asset_discovery.Prelude.{
  ℕ, ◌≡◌, refl, ap, ◌∙◌, inl, inr, true, false, ◌&&◌, Option, none, some, List, [], ◌∷◌, ◌++◌,
  append-nil, leb, if◌then◌else◌, Bool-cases, length, nat_keys, Text, codes, text_keys,
}
use ot_asset_discovery.Prelude.Dict.{Dict, lookup}
use ot_asset_discovery.Parsers.Serialization.{
  string_type, object_type, one, field_schema, object_of, Violation, too_short, object_entries,
  check_single_type, check_type, matches_version, unless, each_entry, validate_field, plain_schema,
  nullable, bounded, address, protocol_schema, type_schema, status_schema, validate_against_schema,
}
use ot_asset_discovery.Parsers.Serialization.Codec.{
  type_name, status_name, optional, optional_type, packed, texts_as_values, model_dump,
  serialize_fingerprint, as_optional, named_protocol, as_type, named_status, as_texts,
  any_surrogate, construct_fields, construct, schema_validation, restored, refused_by,
  validated_data, of_version, of_data, deserialize_fingerprint,
}
use ot_asset_discovery.Domain.{
  Protocol, protocol_name, DeviceType, ParsingStatus, Value, str, object, Fields, DeviceFingerprint,
  within, validate_fingerprint,
}
use ot_asset_discovery.Parsers.Serialization.Accepted.{optional_read}
use ot_asset_discovery.Prelude.Strings.{split}

object_entries-packed : (d : Dict Text Value) → object_entries (packed d) ≡ d
object_entries-packed [] = refl
object_entries-packed ((k, v) ∷ d) = ap (λ r. (k, v) ∷ r) (object_entries-packed d)

as_texts-values : (d : Dict Text Text) → as_texts (texts_as_values d) ≡ some d
unfolding as_texts
as_texts-values [] = refl
as_texts-values ((k, s) ∷ d) = rw (as_texts-values d) refl

texts_valid :
    (name : Text) (d : Dict Text Text)
    → each_entry
        (λ k v. validate_field (plain_schema (one string_type)) (name ++ b'.' ∷ k) v)
        (texts_as_values d)
      ≡ []
unfolding validate_field check_type check_single_type
texts_valid name [] = refl
texts_valid name ((k, s) ∷ d) = texts_valid name d

protocol_valid :
    (k : Text) (p : Protocol) → validate_field protocol_schema k (str (protocol_name p)) ≡ []
unfolding validate_field check_type check_single_type
protocol_valid k Protocol.modbus_tcp = refl
protocol_valid k Protocol.ethernetip = refl
protocol_valid k Protocol.s7comm = refl
protocol_valid k Protocol.dnp3 = refl

status_valid :
    (k : Text) (p : ParsingStatus) → validate_field status_schema k (str (status_name p)) ≡ []
unfolding validate_field check_type check_single_type
status_valid k ParsingStatus.complete = refl
status_valid k ParsingStatus.partial = refl
status_valid k ParsingStatus.no_identity = refl

type_valid :
    (k : Text) (o : Option DeviceType) → validate_field type_schema k (optional_type o) ≡ []
unfolding validate_field check_type check_single_type
type_valid k none = refl
type_valid k (some DeviceType.plc) = refl
type_valid k (some DeviceType.rtu) = refl
type_valid k (some DeviceType.hmi) = refl
type_valid k (some DeviceType.ied) = refl

plain_valid :
    (k : Text) (o : Option Text) → validate_field (plain_schema nullable) k (optional o) ≡ []
unfolding validate_field check_type check_single_type
plain_valid k none = refl
plain_valid k (some s) = refl

bounded_valid :
    (k : Text) (n : ℕ) (o : Option Text)
    → within n o ≡ true
    → validate_field (bounded n) k (optional o) ≡ []
unfolding validate_field check_type check_single_type
bounded_valid k n none h = refl
bounded_valid k n (some s) h = rw h refl

-- The addresses of a fingerprint that are empty.
abbrev pub empty_addresses : DeviceFingerprint → List Violation
empty_addresses f =
    unless (leb 1 (length f.source_address)) (too_short (codes "source_address") 1)
    ++ unless (leb 1 (length f.destination_address)) (too_short (codes "destination_address") 1)

address_checked :
    (k s : Text) → validate_field address k (str s) ≡ unless (leb 1 (length s)) (too_short k 1)
unfolding validate_field check_type check_single_type
address_checked k s = append-nil _

pub record IsModel (f : DeviceFingerprint) : Type 0 where
  pub version : f.schema_version ≡ codes "1.0.0"
  pub vendor : within 128 f.vendor ≡ true
  pub model : within 128 f.model ≡ true
  pub firmware_version : within 64 f.firmware_version ≡ true
  -- the model takes no text with a lone surrogate
  pub unicode : any_surrogate (model_dump f) ≡ false

version_valid :
    (k s : Text)
    → s ≡ codes "1.0.0"
    → validate_field (field_schema (one string_type) none none none true) k (str s) ≡ []
unfolding validate_field check_type check_single_type matches_version split
version_valid k s h = rw h refl

object_valid :
    (k : Text) (fs : Fields) → validate_field (plain_schema (one object_type)) k (object fs) ≡ []
unfolding validate_field check_type check_single_type
object_valid k fs = refl

binary_valid :
    (k : Text) (d : Dict Text Text)
    → validate_field
        (object_of (plain_schema (one string_type)))
        k
        (object (packed (texts_as_values d)))
      ≡ []
unfolding validate_field check_type check_single_type
binary_valid k d = rw (object_entries-packed (texts_as_values d)) (texts_valid k d)

dump_checked :
    (f : DeviceFingerprint) → IsModel f → validate_against_schema (model_dump f) ≡ empty_addresses f
unfolding validate_against_schema model_dump
dump_checked f h =
    rw
      (
        version_valid (codes "schema_version") f.schema_version h.version,
        protocol_valid (codes "protocol") f.protocol,
        address_checked (codes "source_address") f.source_address,
        address_checked (codes "destination_address") f.destination_address,
        plain_valid (codes "mac_address") f.mac_address,
        plain_valid (codes "ip_address") f.ip_address,
        bounded_valid (codes "vendor") 128 f.vendor h.vendor,
        bounded_valid (codes "model") 128 f.model h.model,
        bounded_valid (codes "firmware_version") 64 f.firmware_version h.firmware_version,
        type_valid (codes "device_type") f.device_type,
        plain_valid (codes "serial_number") f.serial_number,
        object_valid (codes "protocol_data") (packed f.protocol_data),
        status_valid (codes "parsing_status") f.parsing_status,
        binary_valid (codes "binary_fields") f.binary_fields,
      )
      (ap
        (λ r. unless (leb 1 (length f.source_address)) (too_short (codes "source_address") 1) ++ r)
        (append-nil _))

protocol_named : (p : Protocol) → lookup (protocol_name p) named_protocol ≡ some p
protocol_named Protocol.modbus_tcp = refl
protocol_named Protocol.ethernetip = refl
protocol_named Protocol.s7comm = refl
protocol_named Protocol.dnp3 = refl

status_named : (p : ParsingStatus) → lookup (status_name p) named_status ≡ some p
status_named ParsingStatus.complete = refl
status_named ParsingStatus.partial = refl
status_named ParsingStatus.no_identity = refl

type_text : Option DeviceType → Option Text
type_text none = none
type_text (some t) = some (type_name t)

type_read : (o : Option DeviceType) → as_optional (some (optional_type o)) ≡ some (type_text o)
unfolding type_text
type_read none = refl
type_read (some t) = refl

type_named : (o : Option DeviceType) → as_type (type_text o) ≡ some o
unfolding type_text
type_named none = refl
type_named (some DeviceType.plc) = refl
type_named (some DeviceType.rtu) = refl
type_named (some DeviceType.hmi) = refl
type_named (some DeviceType.ied) = refl

fields-model_dump : (f : DeviceFingerprint) → IsModel f → construct_fields (model_dump f) ≡ some f
unfolding construct_fields model_dump validate_fingerprint matches_version split
fields-model_dump f h =
    rw
      (
        protocol_named f.protocol,
        optional_read f.mac_address,
        optional_read f.ip_address,
        optional_read f.vendor,
        optional_read f.model,
        optional_read f.firmware_version,
        type_read f.device_type,
        type_named f.device_type,
        optional_read f.serial_number,
        object_entries-packed f.protocol_data,
        status_named f.parsing_status,
        object_entries-packed (texts_as_values f.binary_fields),
        as_texts-values f.binary_fields,
        h.version,
        h.vendor,
        h.model,
        h.firmware_version,
      )
      refl

construct-model_dump : (f : DeviceFingerprint) → IsModel f → construct (model_dump f) ≡ some f
unfolding construct
construct-model_dump f h = rw h.unicode (fields-model_dump f h)

dumped_version :
    (f : DeviceFingerprint)
    → IsModel f
    → lookup (codes "schema_version") (model_dump f) ≡ some (str (codes "1.0.0"))
unfolding model_dump
dumped_version f h = rw h.version refl

validated_dump :
    (f : DeviceFingerprint)
    → IsModel f
    → validated_data (empty_addresses f) (model_dump f) ≡ (
        if leb 1 (length f.source_address) && leb 1 (length f.destination_address)
        then restored f
        else refused_by schema_validation (empty_addresses f))
validated_dump f h = elim (Bool-cases (leb 1 (length f.source_address))) [
  | inl a ↦ elim (Bool-cases (leb 1 (length f.destination_address))) [
    | inl b ↦ rw (a, b, construct-model_dump f h) refl
    | inr b ↦ rw (a, b) refl
  ]
  | inr a ↦ rw a refl
]

-- A fingerprint of the supported version within the model's lengths, and without a lone surrogate,
-- which the model does not take either, comes back as it was from its
-- serialized form if neither address is empty; else deserialization refuses it, by the schema, for
-- exactly the addresses that are empty.
pub deserialize-serialize :
    (f : DeviceFingerprint)
    → IsModel f
    → deserialize_fingerprint (some (serialize_fingerprint f)) ≡ (
        if leb 1 (length f.source_address) && leb 1 (length f.destination_address)
        then restored f
        else refused_by schema_validation (empty_addresses f))
unfolding deserialize_fingerprint serialize_fingerprint
deserialize-serialize f h =
    let d = model_dump f in
    ap of_data (object_entries-packed d)
    ∙ ap (λ o. of_version o d) (dumped_version f h)
    ∙ ap (λ es. validated_data es d) (dump_checked f h)
    ∙ validated_dump f h
