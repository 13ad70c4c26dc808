-- ===== src/Domain.antt =====
-- The domain models of app/models/domain.py. Identifiers are numbers, which the code only
-- compares; a time is a number of microseconds; a text is the list of its code points. The
-- closed `Literal` types are enumerations, and the `details` of an alert, a dict whose keys
-- the alert's creator fixes, is one constructor for each creator.
use ot_asset_discovery.Prelude.{
  ℕ, Bool, ◌&&◌, Option, none, some, List, leb, if◌then◌else◌, length, Text, codes,
}
use ot_asset_discovery.Prelude.Int.{ℤ}

pub data Protocol : Type 0 where
  modbus_tcp ethernetip s7comm dnp3 : Protocol

-- The string of the literal.
abbrev pub protocol_name : Protocol → Text
protocol_name Protocol.modbus_tcp = codes "modbus_tcp"
protocol_name Protocol.ethernetip = codes "ethernetip"
protocol_name Protocol.s7comm = codes "s7comm"
protocol_name Protocol.dnp3 = codes "dnp3"

pub data DeviceType : Type 0 where
  plc rtu hmi ied : DeviceType

pub data ParsingStatus : Type 0 where
  complete partial no_identity : ParsingStatus

-- A value of `protocol_data`: what JSON can hold. A number is a natural number, an integer below 0
-- by the number before its opposite, or a float by its printed form; `null` is Python's None.
mutual
  pub data Value : Type 0 where
    num : ℕ → Value
    negative : ℕ → Value
    real : Text → Value
    str : Text → Value
    boolean : Bool → Value
    null : Value
    array : Values → Value
    object : Fields → Value

  pub data Values : Type 0 where
    no_values : Values
    value_then : Value → Values → Values

  pub data Fields : Type 0 where
    no_entries : Fields
    entry_then : Text → Value → Fields → Fields

pub record DeviceFingerprint : Type 0 where
  pub schema_version : Text
  pub protocol : Protocol
  pub source_address : Text
  pub destination_address : Text
  pub mac_address : Option Text
  pub ip_address : Option Text
  pub vendor : Option Text
  pub model : Option Text
  pub firmware_version : Option Text
  pub device_type : Option DeviceType
  pub serial_number : Option Text
  pub protocol_data : List (Text × Value)
  pub parsing_status : ParsingStatus
  pub binary_fields : List (Text × Text)

-- `Field(None, max_length=n)`
abbrev pub within : ℕ → Option Text → Bool
within n o = elim o [ none ↦ Bool.true | some s ↦ leb (length s) n ]

-- Constructing the model validates the lengths; `none` is pydantic's ValidationError.
unfoldable pub validate_fingerprint : DeviceFingerprint → Option DeviceFingerprint
validate_fingerprint f =
    if within 128 f.vendor && (within 128 f.model && within 64 f.firmware_version)
    then some f
    else none

pub data Severity : Type 0 where
  low medium high critical : Severity

pub data AlertType : Type 0 where
  new_device device_disappeared firmware_change new_protocol : AlertType
  risk_score_change scan_failed : AlertType

pub data Details : Type 0 where
  new_device_details :
      (ip_address mac_address : Text) (protocols : List Text) (discovery_timestamp : ℕ) → Details
  disappeared_details : (ip_address mac_address : Text) (last_seen timeout : ℕ) → Details
  firmware_details : (previous_version new_version device_ip device_mac : Text) → Details
  protocol_details :
      (device_id : ℕ) (protocol : Text) (existing_protocols : List Text) (device_ip : Text)
      → Details
  score_details : (previous_score : ℤ) (new_score : ℕ) (change : ℤ) → Details
  scan_failed_details :
      (job_id : ℕ) (job_name failure_reason : Text) (target_subnet : Option Text) → Details

pub record Alert : Type 0 where
  pub id : ℕ
  pub alert_type : AlertType
  pub severity : Severity
  pub device_id : Option ℕ
  pub details : Details
  pub generated_at : ℕ

pub record Device : Type 0 where
  pub id : ℕ
  pub mac_address : Text
  pub ip_address : Text
  pub vendor : Option Text
  pub model : Option Text
  pub firmware_version : Option Text
  pub device_type : Option Text
  pub protocols : List Text
  pub risk_score : ℕ
  pub fingerprint : Option DeviceFingerprint
  pub first_seen : ℕ
  pub last_seen : ℕ

pub record ParseResult : Type 0 where
  pub fingerprint : Option DeviceFingerprint
  pub parsing_status : ParsingStatus
  pub protocol : Protocol
  pub source_address : Text
  pub destination_address : Text
  pub error : Option Text

pub record TopologyNode : Type 0 where
  pub device_id : ℕ
  pub name : Text
  pub ip_address : Text
  pub device_type : Option Text

pub record TopologyEdge : Type 0 where
  pub source_device_id : ℕ
  pub dest_device_id : ℕ
  pub protocol : Text
  pub packet_count : ℕ
  pub last_seen : ℕ

pub record TopologyGraph : Type 0 where
  pub nodes : List TopologyNode
  pub edges : List TopologyEdge
  pub stale : Bool
  pub last_updated : Option ℕ
