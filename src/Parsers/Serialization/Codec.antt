-- ===== src/Parsers/Serialization/Codec.antt =====
-- `serialize_fingerprint` and `deserialize_fingerprint` of app/parsers/serialization.py, up to the
-- text: the first gives the value that `json.dumps` prints, the second takes what `json.loads`
-- makes of the text, where `none` is its JSONDecodeError. An object's keys differ, as those of a
-- dict do, and texts hold no lone surrogates, which pydantic refuses.
use ot_asset_discovery.Prelude.{
  Bool, false, ◌&&◌, ◌||◌, Option, none, some, List, [], ◌∷◌, leb, if◌then◌else◌, ◌==◌, nat_keys,
  Text, codes, text_keys, ◌>>=◌,
}
use ot_asset_discovery.Prelude.Dict.{Dict, lookup}
use ot_asset_discovery.Topology.{triple_keys}
use ot_asset_discovery.Parsers.Serialization.{
  Violation, object_entries, matches_version, validate_against_schema,
}
use ot_asset_discovery.Domain.{
  Protocol, protocol_name, DeviceType, ParsingStatus, Value, str, null, array, object, Fields,
  no_entries, entry_then, DeviceFingerprint, validate_fingerprint,
}

abbrev pub type_name : DeviceType → Text
type_name DeviceType.plc = codes "PLC"
type_name DeviceType.rtu = codes "RTU"
type_name DeviceType.hmi = codes "HMI"
type_name DeviceType.ied = codes "IED"

abbrev pub status_name : ParsingStatus → Text
status_name ParsingStatus.complete = codes "complete"
status_name ParsingStatus.partial = codes "partial"
status_name ParsingStatus.no_identity = codes "no_identity"

abbrev pub optional : Option Text → Value
optional none = null
optional (some s) = str s

abbrev pub optional_type : Option DeviceType → Value
optional_type none = null
optional_type (some t) = str (type_name t)

abbrev pub packed : Dict Text Value → Fields
packed [] = no_entries
packed ((k, v) ∷ fs) = entry_then k v (packed fs)

abbrev pub texts_as_values : Dict Text Text → Dict Text Value
texts_as_values [] = []
texts_as_values ((k, s) ∷ fs) = (k, str s) ∷ texts_as_values fs

-- `fp.model_dump()`. The binary fields of a fingerprint are texts already, never bytes.
unfoldable pub model_dump : DeviceFingerprint → Dict Text Value
model_dump f =
    (codes "schema_version", str f.schema_version)
    ∷ (codes "protocol", str (protocol_name f.protocol))
    ∷ (codes "source_address", str f.source_address)
    ∷ (codes "destination_address", str f.destination_address)
    ∷ (codes "mac_address", optional f.mac_address)
    ∷ (codes "ip_address", optional f.ip_address)
    ∷ (codes "vendor", optional f.vendor)
    ∷ (codes "model", optional f.model)
    ∷ (codes "firmware_version", optional f.firmware_version)
    ∷ (codes "device_type", optional_type f.device_type)
    ∷ (codes "serial_number", optional f.serial_number)
    ∷ (codes "protocol_data", object (packed f.protocol_data))
    ∷ (codes "parsing_status", str (status_name f.parsing_status))
    ∷ (codes "binary_fields", object (packed (texts_as_values f.binary_fields)))
    ∷ []

unfoldable pub serialize_fingerprint : DeviceFingerprint → Value
serialize_fingerprint f = object (packed (model_dump f))

-- Pydantic's reading of the fields: of a text, of one that may be None or left out, of the
-- closed literals, and of the two dicts.
abbrev pub as_text : Option Value → Option Text
as_text (some (str s)) = some s
as_text o = none

-- A version has a default.
abbrev pub as_version : Option Value → Option Text
as_version none = some (codes "1.0.0")
as_version (some v) = as_text (some v)

abbrev pub as_optional : Option Value → Option (Option Text)
as_optional none = some none
as_optional (some null) = some none
as_optional (some (str s)) = some (some s)
as_optional (some v) = none

abbrev pub named_protocol : Dict Text Protocol
named_protocol =
    (codes "modbus_tcp", Protocol.modbus_tcp)
    ∷ (codes "ethernetip", Protocol.ethernetip)
    ∷ (codes "s7comm", Protocol.s7comm)
    ∷ (codes "dnp3", Protocol.dnp3)
    ∷ []

abbrev pub named_type : Dict Text DeviceType
named_type =
    (codes "PLC", DeviceType.plc)
    ∷ (codes "RTU", DeviceType.rtu)
    ∷ (codes "HMI", DeviceType.hmi)
    ∷ (codes "IED", DeviceType.ied)
    ∷ []

abbrev pub as_type : Option Text → Option (Option DeviceType)
as_type none = some none
as_type (some s) = do t ← lookup s named_type; some (some t)

abbrev pub named_status : Dict Text ParsingStatus
named_status =
    (codes "complete", ParsingStatus.complete)
    ∷ (codes "partial", ParsingStatus.partial)
    ∷ (codes "no_identity", ParsingStatus.no_identity)
    ∷ []

abbrev pub as_status : Option Value → Option ParsingStatus
as_status none = some ParsingStatus.complete
as_status (some (str s)) = lookup s named_status
as_status (some v) = none

abbrev pub as_object : Option Value → Option (Dict Text Value)
as_object none = some []
as_object (some (object fs)) = some (object_entries fs)
as_object (some v) = none

unfoldable pub as_texts : Dict Text Value → Option (Dict Text Text)
as_texts [] = some []
as_texts ((k, str s) ∷ fs) = do rest ← as_texts fs; some ((k, s) ∷ rest)
as_texts ((k, v) ∷ fs) = none

-- The pattern of the version and the lengths.
abbrev pub validated_model : DeviceFingerprint → Option DeviceFingerprint
validated_model f = if matches_version f.schema_version then validate_fingerprint f else none

-- A lone surrogate: json.loads passes it on, and pydantic takes no text with one.
abbrev pub has_surrogate : Text → Bool
has_surrogate [] = false
has_surrogate (c ∷ s) = (leb 0xd800 c && leb c 0xdfff) || has_surrogate s

-- The keys of an object, and its texts where they are checked as well.
abbrev pub entry_surrogates : (texts : Bool) → Dict Text Value → Bool
entry_surrogates texts [] = false
entry_surrogates texts ((k, str s) ∷ fs) =
    (has_surrogate k || (texts && has_surrogate s)) || entry_surrogates texts fs
entry_surrogates texts ((k, v) ∷ fs) = has_surrogate k || entry_surrogates texts fs

-- `protocol_data` may hold anything under its keys.
abbrev pub field_surrogates : Text → Value → Bool
field_surrogates name (str s) = has_surrogate s
field_surrogates name (object fs) =
    entry_surrogates (name == codes "binary_fields") (object_entries fs)
field_surrogates name v = false

abbrev pub any_surrogate : Dict Text Value → Bool
any_surrogate [] = false
any_surrogate ((name, v) ∷ fields) = field_surrogates name v || any_surrogate fields

-- The fields of the model, where no text has a lone surrogate.
unfoldable pub construct_fields : Dict Text Value → Option DeviceFingerprint
construct_fields data_fields = do
  schema_version ← as_version (lookup (codes "schema_version") data_fields)
  protocol_text ← as_text (lookup (codes "protocol") data_fields)
  protocol ← lookup protocol_text named_protocol
  source ← as_text (lookup (codes "source_address") data_fields)
  destination ← as_text (lookup (codes "destination_address") data_fields)
  mac ← as_optional (lookup (codes "mac_address") data_fields)
  ip ← as_optional (lookup (codes "ip_address") data_fields)
  vendor ← as_optional (lookup (codes "vendor") data_fields)
  model ← as_optional (lookup (codes "model") data_fields)
  firmware ← as_optional (lookup (codes "firmware_version") data_fields)
  type_text ← as_optional (lookup (codes "device_type") data_fields)
  device_type ← as_type type_text
  serial ← as_optional (lookup (codes "serial_number") data_fields)
  protocol_data ← as_object (lookup (codes "protocol_data") data_fields)
  status ← as_status (lookup (codes "parsing_status") data_fields)
  binary ← as_object (lookup (codes "binary_fields") data_fields)
  binary_fields ← as_texts binary
  validated_model (record {
    schema_version = schema_version;
    protocol = protocol;
    source_address = source;
    destination_address = destination;
    mac_address = mac;
    ip_address = ip;
    vendor = vendor;
    model = model;
    firmware_version = firmware;
    device_type = device_type;
    serial_number = serial;
    protocol_data = protocol_data;
    parsing_status = status;
    binary_fields = binary_fields;
  })

-- `DeviceFingerprint(**data)`; `none` is pydantic's ValidationError.
unfoldable pub construct : Dict Text Value → Option DeviceFingerprint
construct data_fields = if any_surrogate data_fields then none else construct_fields data_fields

-- The constraint that a DeserializationError names.
pub data Constraint : Type 0 where
  valid_json json_object required_field supported_version : Constraint
  schema_validation model_validation : Constraint

-- A fingerprint, a DeserializationError with the violations in its message, or a TypeError, by a
-- version that cannot be looked up in a set.
pub data Deserialized : Type 0 where
  restored : DeviceFingerprint → Deserialized
  refused_by : Constraint → List Violation → Deserialized
  raised_type_error : Deserialized

abbrev pub constructed : Option DeviceFingerprint → Deserialized
constructed none = refused_by model_validation []
constructed (some f) = restored f

abbrev pub validated_data : List Violation → Dict Text Value → Deserialized
validated_data (e ∷ es) data_fields = refused_by schema_validation (e ∷ es)
validated_data [] data_fields = constructed (construct data_fields)

abbrev pub of_version : Option Value → Dict Text Value → Deserialized
of_version none data_fields = refused_by required_field []
of_version (some (array vs)) data_fields = raised_type_error
of_version (some (object fs)) data_fields = raised_type_error
of_version (some (str s)) data_fields =
    if s == codes "1.0.0"
    then validated_data (validate_against_schema data_fields) data_fields
    else refused_by supported_version []
of_version (some v) data_fields = refused_by supported_version []

abbrev pub of_data : Dict Text Value → Deserialized
of_data data_fields = of_version (lookup (codes "schema_version") data_fields) data_fields

unfoldable pub deserialize_fingerprint : Option Value → Deserialized
deserialize_fingerprint none = refused_by valid_json []
deserialize_fingerprint (some (object fs)) = of_data (object_entries fs)
deserialize_fingerprint (some v) = refused_by json_object []
