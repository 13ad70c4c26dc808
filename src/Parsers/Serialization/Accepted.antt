-- ===== src/Parsers/Serialization/Accepted.antt =====
-- The schema of app/parsers/serialization.py against the model: what the schema accepts is a
-- fingerprint.
use ot_asset_discovery.Prelude.{
  ℕ, ◌≤◌, ◌≡◌, refl, sym, ap, ◌∙◌, inl, inr, true, Option, none, some, List, [], ◌∷◌, arith,
  Bool-cases, Option-cases, is_some, length, ◌==◌, nat_keys, Text, codes, text_eq_iff, text_keys,
  contains,
}
use ot_asset_discovery.Prelude.Dict.{Dict, lookup}
use ot_asset_discovery.Topology.{triple_keys}
use ot_asset_discovery.Parsers.Serialization.{
  string_type, object_type, one, FieldSchema, object_of, Violation, missing_field, object_entries,
  matches_version, unless, each_entry, validate_field, plain_schema, nullable, bounded, address,
  protocol_schema, type_schema, status_schema, properties, required, missing_fields, extra_keys,
  extra_violations, property_violations, validate_property, with_required, validate_against_schema,
}
use ot_asset_discovery.Parsers.Serialization.Codec.{
  optional, as_text, as_optional, named_protocol, as_type, as_status, as_object, as_texts,
  construct_fields,
}
use ot_asset_discovery.Domain.{
  Protocol, DeviceType, ParsingStatus, Value, str, DeviceFingerprint, within, validate_fingerprint,
}
use ot_asset_discovery.Parsers.Serialization.Entries.{
  append_empty, unless_empty, each_entry-lookup, one_violation, address_accepts, bounded_accepts,
  plain_accepts, object_accepts, binary_accepts, protocol_accepts, type_accepts, status_accepts,
}
use ot_asset_discovery.Prelude.Strings.{split}

-- A fingerprint of the supported version within the model's lengths, both of whose addresses are
-- there.
pub record IsSerializable (f : DeviceFingerprint) : Type 0 where
  pub version : f.schema_version ≡ codes "1.0.0"
  pub lengths : validate_fingerprint f ≡ some f
  pub source : 1 ≤ length f.source_address
  pub destination : 1 ≤ length f.destination_address

accepted_parts :
    (data_fields : Dict Text Value)
    → validate_against_schema data_fields ≡ []
    → (missing_fields data_fields required ≡ []) × (each_entry validate_property data_fields ≡ [])
unfolding validate_against_schema
accepted_parts data_fields h = go (missing_fields data_fields required) h
  where
    go :
        (es : List Violation)
        → with_required es data_fields ≡ []
        → (es ≡ []) × (each_entry validate_property data_fields ≡ [])
    go [] g = (refl, (append_empty (extra_violations (extra_keys data_fields)) _ g).1)
    go (e ∷ es) g = one_violation _ _ g

pub optional_read : (o : Option Text) → as_optional (some (optional o)) ≡ some o
optional_read none = refl
optional_read (some s) = refl

found_required :
    (data_fields : Dict Text Value) (ks : List Text) (k : Text)
    → missing_fields data_fields ks ≡ []
    → contains k ks ≡ true
    → (v : Value) × (lookup k data_fields ≡ some v)
found_required data_fields [] k m c = absurd (ground (arith, c))
found_required data_fields (j ∷ ks) k m c =
    let parts = append_empty (unless (is_some (lookup j data_fields)) (missing_field j)) _ m in
    elim (Bool-cases (k == j)) [
      | inl e ↦
          let same : j ≡ k = sym ((text_eq_iff k j).0 e) in
          let there = unless_empty _ _ parts.0 in
          some_value (lookup k data_fields)
            (ap (λ i. is_some (lookup i data_fields)) (sym same) ∙ there)
      | inr e ↦ found_required data_fields ks k parts.1 (ground (arith, e, c))
    ]
  where
    some_value : (o : Option Value) → is_some o ≡ true → (v : Value) × (o ≡ some v)
    some_value none g = absurd (ground (arith, g))
    some_value (some v) g = (v, refl)

-- What the model reads under a key, of data that the schema accepts.
module _ (data_fields : Dict Text Value) (h : each_entry validate_property data_fields ≡ []) where
  accepted_field :
      (k : Text) (s : FieldSchema) (v : Value)
      → lookup k properties ≡ some s
      → lookup k data_fields ≡ some v
      → validate_field s k v ≡ []
  accepted_field k s v p e =
      let found = each_entry-lookup validate_property data_fields k v h e in
      ap (property_violations k v) (sym p) ∙ found

  read_plain :
      (k : Text)
      → lookup k properties ≡ some (plain_schema nullable)
      → (o : Option Text) × (as_optional (lookup k data_fields) ≡ some o)
  read_plain k p = elim (Option-cases (lookup k data_fields)) [
    | inl e ↦ (none, ap as_optional e)
    | inr r ↦
        let a = plain_accepts k r.0 (accepted_field k (plain_schema nullable) r.0 p r.1) in
        (a.0, ap as_optional (r.1 ∙ ap some a.1) ∙ optional_read a.0)
  ]

  read_bounded :
      (k : Text) (n : ℕ)
      → lookup k properties ≡ some (bounded n)
      → (o : Option Text) × (as_optional (lookup k data_fields) ≡ some o) × (within n o ≡ true)
  read_bounded k n p = elim (Option-cases (lookup k data_fields)) [
    | inl e ↦ (none, ap as_optional e, refl)
    | inr r ↦
        let a = bounded_accepts k n r.0 (accepted_field k (bounded n) r.0 p r.1) in
        (a.0, ap as_optional (r.1 ∙ ap some a.1) ∙ optional_read a.0, a.2)
  ]

  read_type :
      (o : Option Text) × (t : Option DeviceType) × (as_optional
          (lookup (codes "device_type") data_fields)
        ≡ some o)
      × (as_type o ≡ some t)
  read_type = elim (Option-cases (lookup (codes "device_type") data_fields)) [
    | inl e ↦ (none, none, ap as_optional e, refl)
    | inr r ↦
        let a =
          type_accepts (codes "device_type") r.0
            (accepted_field (codes "device_type") type_schema r.0 refl r.1) in
        (a.0, a.1, ap as_optional (r.1 ∙ ap some a.2) ∙ optional_read a.0, a.3)
  ]

  read_status :
      (p : ParsingStatus) × (as_status (lookup (codes "parsing_status") data_fields) ≡ some p)
  read_status = elim (Option-cases (lookup (codes "parsing_status") data_fields)) [
    | inl e ↦ (ParsingStatus.complete, ap as_status e)
    | inr r ↦
        let a =
          status_accepts (codes "parsing_status") r.0
            (accepted_field (codes "parsing_status") status_schema r.0 refl r.1) in
        (a.1, ap as_status (r.1 ∙ ap some a.2) ∙ a.3)
  ]

  read_protocol_data :
      (fs : Dict Text Value) × (as_object (lookup (codes "protocol_data") data_fields) ≡ some fs)
  read_protocol_data = elim (Option-cases (lookup (codes "protocol_data") data_fields)) [
    | inl e ↦ ([], ap as_object e)
    | inr r ↦
        let a =
          object_accepts (codes "protocol_data") r.0 (
            accepted_field (codes "protocol_data") (plain_schema (one object_type)) r.0 refl r.1) in
        (object_entries a.0, ap as_object (r.1 ∙ ap some a.1))
  ]

  read_binary_fields :
      (fs : Dict Text Value) × (d : Dict Text Text) × (as_object
          (lookup (codes "binary_fields") data_fields)
        ≡ some fs)
      × (as_texts fs ≡ some d)
  unfolding as_texts
  read_binary_fields = elim (Option-cases (lookup (codes "binary_fields") data_fields)) [
    | inl e ↦ ([], [], ap as_object e, refl)
    | inr r ↦
        let a = binary_accepts (codes "binary_fields") r.0 (
          accepted_field (codes "binary_fields") (object_of (plain_schema (one string_type))) r.0
            refl r.1) in
        (object_entries a.0, a.1, ap as_object (r.1 ∙ ap some a.2), a.3)
  ]

  -- The required keys are there.
  module _ (m : missing_fields data_fields required ≡ []) where
    present :
        (k : Text) → contains k required ≡ true → (v : Value) × (lookup k data_fields ≡ some v)
    present k c = found_required data_fields required k m c

    read_address :
        (k : Text)
        → lookup k properties ≡ some address
        → contains k required ≡ true
        → (s : Text) × (as_text (lookup k data_fields) ≡ some s) × (1 ≤ length s)
    read_address k p c =
        let r = present k c in
        let a = address_accepts k r.0 (accepted_field k address r.0 p r.1) in
        (a.0, ap as_text (r.1 ∙ ap some a.1), a.2)

    read_protocol :
        (s : Text) × (p : Protocol) × (as_text (lookup (codes "protocol") data_fields) ≡ some s)
        × (lookup s named_protocol ≡ some p)
    read_protocol =
        let r = present (codes "protocol") refl in
        let a =
          protocol_accepts (codes "protocol") r.0
            (accepted_field (codes "protocol") protocol_schema r.0 refl r.1) in
        (a.0, a.1, ap as_text (r.1 ∙ ap some a.2), a.3)

pub constructed_fingerprint :
    (data_fields : Dict Text Value)
    → lookup (codes "schema_version") data_fields ≡ some (str (codes "1.0.0"))
    → validate_against_schema data_fields ≡ []
    → (f : DeviceFingerprint) × (construct_fields data_fields ≡ some f) × IsSerializable f
unfolding construct_fields validate_fingerprint matches_version split
constructed_fingerprint data_fields version valid =
    let (m, h) = accepted_parts data_fields valid in
    let protocol = read_protocol data_fields h m in
    let source = read_address data_fields h m (codes "source_address") refl refl in
    let destination = read_address data_fields h m (codes "destination_address") refl refl in
    let mac = read_plain data_fields h (codes "mac_address") refl in
    let ip = read_plain data_fields h (codes "ip_address") refl in
    let vendor = read_bounded data_fields h (codes "vendor") 128 refl in
    let model = read_bounded data_fields h (codes "model") 128 refl in
    let firmware = read_bounded data_fields h (codes "firmware_version") 64 refl in
    let device_type = read_type data_fields h in
    let serial = read_plain data_fields h (codes "serial_number") refl in
    let protocol_data = read_protocol_data data_fields h in
    let status = read_status data_fields h in
    let binary = read_binary_fields data_fields h in
    (
      record {
        schema_version = codes "1.0.0";
        protocol = protocol.1;
        source_address = source.0;
        destination_address = destination.0;
        mac_address = mac.0;
        ip_address = ip.0;
        vendor = vendor.0;
        model = model.0;
        firmware_version = firmware.0;
        device_type = device_type.1;
        serial_number = serial.0;
        protocol_data = protocol_data.0;
        parsing_status = status.0;
        binary_fields = binary.1;
      },
      rw
          (
            version, protocol.2, protocol.3, source.1, destination.1, mac.1, ip.1, vendor.1,
            model.1, firmware.1, device_type.2, device_type.3, serial.1, protocol_data.1, status.1,
            binary.2, binary.3, vendor.2, model.2, firmware.2,
          )
          refl,
      record {
        version = refl;
        lengths = rw (vendor.2, model.2, firmware.2) refl;
        source = source.2;
        destination = destination.2;
      },
    )
