-- ===== src/Detection.antt =====
-- app/detection/change_detector.py. The state of a detector is a record; its handlers are
-- functions that say whether they return or raise, and what a call did to the outside is the
-- list of its events. A fresh id and a reading of the clock are taken from a `Supply`. The
-- state changes of a call stand before its first `await`, so a call is one step. The timeout
-- is a number of microseconds, as are all times.
pub mod Delivery
pub mod Disappearance
pub mod Fingerprints
pub mod History
pub mod Wired
mod Tests
use ot_asset_discovery.Domain.{
  protocol_name, DeviceFingerprint, Severity, medium, high, AlertType, new_device,
  device_disappeared, firmware_change, new_protocol, Details, new_device_details,
  disappeared_details, firmware_details, protocol_details, Alert,
}
use ot_asset_discovery.Prelude.{
  ℕ, ◌+◌, ◌*◌, Bool, true, false, not, ◌&&◌, Option, none, some, List, [], ◌∷◌, ◌++◌, ltb, leb,
  if◌then◌else◌, Eq, ◌==◌, nat_keys, Text, codes, text_keys, contains, set_add, set_discard,
}

-- `uuid.uuid4()` and `datetime.now(timezone.utc)`: the k-th of each that a call draws.
pub record Supply : Type 0 where
  pub uuid : ℕ → ℕ
  pub clock : ℕ → ℕ

pub record ChangeDetector : Type 0 where
  pub disappearance_timeout : ℕ
  -- a set of device ids
  pub disappeared_alerted : List ℕ
  -- whether the callback returns; a raise is swallowed
  pub alert_callbacks : List (Alert → Bool)
  -- whether the handler returns; a raise is not caught
  pub persist_alert : Option (Alert → Bool)

-- MIN_DISAPPEARANCE_TIMEOUT_HOURS, MAX_DISAPPEARANCE_TIMEOUT_HOURS
abbrev pub min_timeout : ℕ
min_timeout = 1 * 3_600_000_000

abbrev pub max_timeout : ℕ
max_timeout = 720 * 3_600_000_000

-- `none` is ValueError.
pub init : ℕ → Option ChangeDetector
init timeout =
    if leb min_timeout timeout && leb timeout max_timeout
    then some (record {
      disappearance_timeout = timeout;
      disappeared_alerted = [];
      alert_callbacks = [];
      persist_alert = none;
    })
    else none

-- the setter: the new state, and whether it returned
pub set_timeout : ℕ → ChangeDetector → ChangeDetector × Bool
set_timeout value d =
    if leb min_timeout value && leb value max_timeout
    then (record d { disappearance_timeout = value }, true)
    else (d, false)

unfoldable pub on_alert : (Alert → Bool) → ChangeDetector → ChangeDetector
on_alert callback d = record d { alert_callbacks = d.alert_callbacks ++ callback ∷ [] }

unfoldable pub set_persist_handler : (Alert → Bool) → ChangeDetector → ChangeDetector
set_persist_handler handler d = record d { persist_alert = some handler }

pub clear_disappeared_state : ℕ → ChangeDetector → ChangeDetector
clear_disappeared_state device_id d = record d {
  disappeared_alerted = set_discard device_id d.disappeared_alerted;
}

pub data Event : Type 0 where
  -- the persist handler was given the alert and returned
  persisted : Alert → Event
  -- the callback of that index was given the alert
  dispatched : ℕ → Alert → Event

-- `try: await callback(alert)`, `except Exception: pass`
pub dispatch : ℕ → List (Alert → Bool) → Alert → List Event
dispatch k [] alert = []
dispatch k (callback ∷ rest) alert =
    let later = dispatch (k + 1) rest alert in
    if callback alert then dispatched k alert ∷ later else dispatched k alert ∷ later

-- Whether the call returned, and its events.
pub persist_and_dispatch : ChangeDetector → Alert → Bool × List Event
persist_and_dispatch d alert = elim d.persist_alert [
  | none ↦ (true, dispatch 0 d.alert_callbacks alert)
  | some handler ↦
      if handler alert
      then (true, persisted alert ∷ dispatch 0 d.alert_callbacks alert)
      else (false, [])
]

-- `for alert in alerts: await self._persist_and_dispatch(alert)`
pub deliver : ChangeDetector → List Alert → Bool × List Event
deliver d [] = (true, [])
deliver d (alert ∷ alerts) =
    let (returned, events) = persist_and_dispatch d alert in
    let (all_returned, later) = deliver d alerts in
    if returned then (all_returned, events ++ later) else (false, events)

-- `value or default` on a text that may be None
abbrev pub or_default : Option Text → Text → Text
or_default none t = t
or_default (some []) t = t
or_default (some (c ∷ s)) t = c ∷ s

-- `d.get(key, "unknown")`
abbrev pub get_or_unknown : Option Text → Text
get_or_unknown none = codes "unknown"
get_or_unknown (some s) = s

-- The dict that describes a device of the inventory; an absent key is `none`.
pub record ExistingDevice : Type 0 where
  pub id : ℕ
  pub mac_address : Option Text
  pub ip_address : Option Text
  pub firmware_version : Option Text
  pub protocols : List Text
  pub last_seen : ℕ

pub create_new_device_alert : Supply → DeviceFingerprint → Alert
create_new_device_alert s fingerprint = record {
  id = s.uuid 0;
  alert_type = AlertType.new_device;
  severity = Severity.high;
  device_id = none;
  details =
      Details.new_device_details (or_default fingerprint.ip_address fingerprint.source_address)
        (or_default fingerprint.mac_address (codes "unknown"))
        (protocol_name fingerprint.protocol ∷ []) (s.clock 0);
  generated_at = s.clock 0;
}

pub create_disappeared_alert : Supply → ℕ → ChangeDetector → ExistingDevice → Alert
create_disappeared_alert s k d device = record {
  id = s.uuid k;
  alert_type = AlertType.device_disappeared;
  severity = Severity.medium;
  device_id = some device.id;
  details =
      Details.disappeared_details (get_or_unknown device.ip_address)
        (get_or_unknown device.mac_address) device.last_seen d.disappearance_timeout;
  generated_at = s.clock k;
}

pub firmware_alert : Supply → ExistingDevice → Text → Text → Alert
firmware_alert s device old new = record {
  id = s.uuid 0;
  alert_type = AlertType.firmware_change;
  severity = Severity.high;
  device_id = some device.id;
  details =
      Details.firmware_details old new (get_or_unknown device.ip_address)
        (get_or_unknown device.mac_address);
  generated_at = s.clock 0;
}

-- both versions are known, and they differ
pub firmware_change_of : Supply → ExistingDevice → Option Text → Option Text → Option Alert
firmware_change_of s device (some new) (some old) =
    if new == old then none else some (firmware_alert s device old new)
firmware_change_of s device _ _ = none

pub check_firmware_change : Supply → DeviceFingerprint → ExistingDevice → Option Alert
unfolding firmware_change_of
check_firmware_change s fingerprint device =
    firmware_change_of s device fingerprint.firmware_version device.firmware_version

pub check_new_protocol : Supply → DeviceFingerprint → ExistingDevice → Option Alert
check_new_protocol s fingerprint device =
    let protocol = protocol_name fingerprint.protocol in
    if contains protocol device.protocols
    then none
    else some (record {
      id = s.uuid 1;
      alert_type = AlertType.new_protocol;
      severity = Severity.medium;
      device_id = some device.id;
      details =
          Details.protocol_details device.id protocol device.protocols
            (get_or_unknown device.ip_address);
      generated_at = s.clock 1;
    })

-- `if alert is not None: alerts.append(alert)`
abbrev pub appended : List Alert → Option Alert → List Alert
appended alerts none = alerts
appended alerts (some alert) = alerts ++ alert ∷ []

-- The state after a call, its result (`none` where it raised) and its events.
pub record Called : Type 0 where
  pub state : ChangeDetector
  pub alerts : Option (List Alert)
  pub events : List Event

-- persists and dispatches the alerts, and returns them
abbrev pub finish : ChangeDetector → List Alert → Called
finish d alerts =
    let (returned, events) = deliver d alerts in
    record { state = d; alerts = if returned then some alerts else none; events = events }

pub process_fingerprint :
    Supply → DeviceFingerprint → Option ExistingDevice → ChangeDetector → Called
process_fingerprint s fingerprint none d = finish d (create_new_device_alert s fingerprint ∷ [])
process_fingerprint s fingerprint (some device) d =
    finish (record d { disappeared_alerted = set_discard device.id d.disappeared_alerted })
      (appended (appended [] (check_firmware_change s fingerprint device))
        (check_new_protocol s fingerprint device))

-- `elapsed > timeout_seconds`
abbrev pub is_overdue : ChangeDetector → ℕ → ExistingDevice → Bool
is_overdue d current_time device = ltb (device.last_seen + d.disappearance_timeout) current_time

-- the loop over the devices: the ids alerted so far, and the new alerts
pub scan_devices :
    Supply → ℕ → ChangeDetector → ℕ → List ExistingDevice → List ℕ → List ℕ × List Alert
scan_devices s k d current_time [] ids = (ids, [])
scan_devices s k d current_time (device ∷ devices) ids =
    let skipped = scan_devices s k d current_time devices ids in
    let (ids', alerts) = scan_devices s (k + 1) d current_time devices (set_add device.id ids) in
    if is_overdue d current_time device && not (contains device.id ids)
    then (ids', create_disappeared_alert s k d device ∷ alerts)
    else skipped

pub check_disappeared_devices : Supply → List ExistingDevice → ℕ → ChangeDetector → Called
check_disappeared_devices s devices current_time d =
    let (ids, alerts) = scan_devices s 0 d current_time devices d.disappeared_alerted in
    finish (record d { disappeared_alerted = ids }) alerts
