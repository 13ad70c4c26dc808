-- ===== src/Parsers/Serialization/Tests.antt =====
-- Serialization at concrete fingerprints and JSON values.
use ot_asset_discovery.Prelude.{◌≡◌, refl, false, Option, none, some, [], ◌∷◌, Text, codes}
use ot_asset_discovery.Parsers.Serialization.{too_short}
use ot_asset_discovery.Parsers.Serialization.Codec.{
  model_dump, serialize_fingerprint, has_surrogate, schema_validation, restored, refused_by,
  raised_type_error, deserialize_fingerprint,
}
use ot_asset_discovery.Domain.{
  Protocol, DeviceType, ParsingStatus, Value, num, str, null, array, object, no_values, no_entries,
  entry_then, DeviceFingerprint,
}
use ot_asset_discovery.Parsers.Serialization.RoundTrip.{IsModel, deserialize-serialize}

abbrev fingerprint : Text → DeviceFingerprint
fingerprint source = record {
  schema_version = codes "1.0.0";
  protocol = Protocol.s7comm;
  source_address = source;
  destination_address = codes "10.0.0.7";
  mac_address = none;
  ip_address = none;
  vendor = some (codes "Siemens");
  model = some (codes "CPU 315");
  firmware_version = none;
  device_type = some DeviceType.plc;
  serial_number = none;
  protocol_data = (codes "module_name", null) ∷ (codes "pdu_reference", num 7) ∷ [];
  parsing_status = ParsingStatus.partial;
  binary_fields = (codes "raw", codes "AwA=") ∷ [];
}

fingerprint-IsModel : (source : Text) → has_surrogate source ≡ false → IsModel (fingerprint source)
unfolding model_dump
fingerprint-IsModel source plain = record {
  version = refl;
  vendor = refl;
  model = refl;
  firmware_version = refl;
  unicode = rw plain refl;
}

deserialize-serialize_example :
    deserialize_fingerprint (some (serialize_fingerprint (fingerprint (codes "10.0.0.1"))))
    ≡ restored (fingerprint (codes "10.0.0.1"))
deserialize-serialize_example =
    deserialize-serialize (fingerprint (codes "10.0.0.1"))
      (fingerprint-IsModel (codes "10.0.0.1") refl)

-- A packet without an IP header gives a fingerprint with an empty address, which cannot be read
-- back.
unread :
    deserialize_fingerprint (some (serialize_fingerprint (fingerprint [])))
    ≡ refused_by schema_validation (too_short (codes "source_address") 1 ∷ [])
unread = deserialize-serialize (fingerprint []) (fingerprint-IsModel [] refl)

abbrev only_version : Option Value
only_version = some (object (entry_then (codes "schema_version") (str (codes "1.0.0")) no_entries))

-- A list as the version leaves the function by a TypeError.
unhashable :
    deserialize_fingerprint
      (some (object (entry_then (codes "schema_version") (array no_values) no_entries)))
    ≡ raised_type_error
unfolding deserialize_fingerprint
unhashable = refl
