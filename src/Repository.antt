-- ===== src/Repository.antt =====
-- app/db/device_repository.py. The store is what the session sees of the tables `devices` and
-- `device_history`, in insertion order; MAC and IP addresses are the texts that the database
-- compares. A method gives its result and the store that the session is left with, on an
-- error too; where the database itself refuses a flush, its transaction is rolled back. The
-- addresses are ones that the columns take.
pub mod Merging
pub mod History
pub mod Rows
pub mod Limits
pub mod Merge
pub mod Update
pub mod Invariant
pub mod Found
mod Tests
use ot_asset_discovery.Domain.{DeviceFingerprint}
use ot_asset_discovery.Prelude.{
  ℕ, zero, suc, ◌+◌, ◌-◌, min, Bool, ◌&&◌, Option, none, some, List, [], ◌∷◌, ◌++◌, ltb, nat_eq,
  if◌then◌else◌, is_some, length, Text, text_eq,
}

-- MAX_PROTOCOLS_PER_DEVICE, MAX_HISTORY_ENTRIES_PER_DEVICE
abbrev pub max_protocols : ℕ
max_protocols = 20

abbrev pub max_history : ℕ
max_history = 1000

pub record DeviceRow : Type 0 where
  pub id : ℕ
  pub mac_address : Text
  pub ip_address : Text
  pub vendor : Option Text
  pub model : Option Text
  pub firmware_version : Option Text
  pub device_type : Option Text
  pub protocols : List Text
  pub risk_score : ℕ
  pub fingerprint : Option DeviceFingerprint
  pub first_seen : ℕ
  pub last_seen : ℕ
  pub created_at : ℕ
  pub updated_at : ℕ

-- The attributes of which a history is kept.
pub data Field : Type 0 where
  firmware_version protocols ip_address vendor model device_type : Field

pub record HistoryRow : Type 0 where
  pub device_id : ℕ
  pub field_name : Field
  pub old_value : Option Text
  pub new_value : Option Text
  pub changed_at : ℕ

pub record Store : Type 0 where
  pub devices : List DeviceRow
  pub history : List HistoryRow

-- DuplicateDeviceError, ProtocolLimitExceededError, the two ValueErrors, and the database's
-- IntegrityError.
pub data Error : Type 0 where
  duplicate protocol_limit not_found not_tracked integrity : Error

pub data Result (A : Type 0) : Type 0 where
  ok : A → Result A
  err : Error → Result A

pub record DeviceArgs : Type 0 where
  pub mac_address : Text
  pub ip_address : Text
  pub vendor : Option Text
  pub model : Option Text
  pub firmware_version : Option Text
  pub device_type : Option Text
  pub protocols : Option (List Text)
  pub fingerprint : Option DeviceFingerprint
  pub first_seen : Option ℕ
  pub last_seen : Option ℕ

abbrev pub has_address : Text → Text → DeviceRow → Bool
has_address mac ip d = text_eq d.mac_address mac && text_eq d.ip_address ip

-- the first row that passes; `scalar_one_or_none`, where at most one does
abbrev pub find : (DeviceRow → Bool) → List DeviceRow → Option DeviceRow
find p [] = none
find p (d ∷ devices) = if p d then some d else find p devices

abbrev pub get_device_by_mac_ip : Text → Text → Store → Option DeviceRow
get_device_by_mac_ip mac ip s = find (has_address mac ip) s.devices

abbrev pub get_device_by_id : ℕ → Store → Option DeviceRow
get_device_by_id id s = find (λ d. nat_eq d.id id) s.devices

abbrev pub or_list : Option (List Text) → List Text
or_list none = []
or_list (some l) = l

abbrev pub or_time : Option ℕ → ℕ → ℕ
or_time none now = now
or_time (some t) now = t

abbrev pub new_row : (id now : ℕ) → DeviceArgs → DeviceRow
new_row id now a = record {
  id = id;
  mac_address = a.mac_address;
  ip_address = a.ip_address;
  vendor = a.vendor;
  model = a.model;
  firmware_version = a.firmware_version;
  device_type = a.device_type;
  protocols = or_list a.protocols;
  risk_score = 0;
  fingerprint = a.fingerprint;
  first_seen = or_time a.first_seen now;
  last_seen = or_time a.last_seen now;
  created_at = now;
  updated_at = now;
}

unfoldable pub create_device : (id now : ℕ) → DeviceArgs → Store → Result DeviceRow × Store
create_device id now a s =
    if ltb max_protocols (length (or_list a.protocols))
    then (err protocol_limit, s)
    else if is_some (get_device_by_mac_ip a.mac_address a.ip_address s)
    then (err duplicate, s)
    else (ok (new_row id now a), record s { devices = s.devices ++ new_row id now a ∷ [] })

-- How many history rows the device has.
abbrev pub history_count : ℕ → List HistoryRow → ℕ
history_count id [] = 0
history_count id (h ∷ rows) = (if nat_eq h.device_id id then 1 else 0) + history_count id rows

-- the least `changed_at` among the device's rows
pub oldest : ℕ → List HistoryRow → Option ℕ
oldest id [] = none
oldest id (h ∷ rows) =
    if nat_eq h.device_id id
    then some (elim (oldest id rows) [ none ↦ h.changed_at | some t ↦ min h.changed_at t ])
    else oldest id rows

-- the first row of the device at that time is deleted
pub delete_at : ℕ → ℕ → List HistoryRow → List HistoryRow
delete_at id t [] = []
delete_at id t (h ∷ rows) =
    let rest = delete_at id t rows in
    if nat_eq h.device_id id && nat_eq h.changed_at t then rows else h ∷ rest

abbrev pub delete_found : Option ℕ → ℕ → List HistoryRow → List HistoryRow
delete_found none id rows = rows
delete_found (some t) id rows = delete_at id t rows

pub delete_oldest : ℕ → List HistoryRow → List HistoryRow
delete_oldest id rows = delete_found (oldest id rows) id rows

-- `ORDER BY changed_at ASC LIMIT n`, deleted
pub delete_oldest_n : ℕ → ℕ → List HistoryRow → List HistoryRow
delete_oldest_n zero id rows = rows
delete_oldest_n (suc n) id rows = delete_oldest_n n id (delete_oldest id rows)

pub enforce_history_limit : ℕ → List HistoryRow → List HistoryRow
enforce_history_limit id rows =
    let count = history_count id rows in
    if ltb max_history count then delete_oldest_n (count - max_history) id rows else rows

pub record_history : ℕ → Field → Option Text → Option Text → ℕ → List HistoryRow → List HistoryRow
record_history id field old new now rows = enforce_history_limit id (
    rows
    ++ record {
      device_id = id;
      field_name = field;
      old_value = old;
      new_value = new;
      changed_at = now;
    }
      ∷ [])
