-- ===== src/Detection/Tests.antt =====
-- The change detector at concrete devices.
use ot_asset_discovery.Prelude.{
  ℕ, ◌+◌, ◌*◌, ◌≡◌, refl, true, false, none, some, List, [], ◌∷◌, nat_keys, codes, text_keys,
  contains, Distinct,
}
use ot_asset_discovery.Detection.{
  Supply, ChangeDetector, set_persist_handler, dispatch, persist_and_dispatch, deliver,
  ExistingDevice, create_disappeared_alert, firmware_alert, check_firmware_change,
  check_new_protocol, process_fingerprint, scan_devices, check_disappeared_devices,
}
use ot_asset_discovery.Domain.{
  Protocol, ParsingStatus, DeviceFingerprint, Severity, AlertType, Details, Alert,
}
use ot_asset_discovery.Detection.History.{
  Call, fingerprint_call, check_call, persist_call, lost, seen, history, Alternates,
  history-Alternates, never_lost, failed_check_loses,
}
use ot_asset_discovery.Detection.Fingerprints.{expected, Reports, process_fingerprint-expected}
use ot_asset_discovery.Detection.Disappearance.{subjects, check_disappeared_devices-exact}
use ot_asset_discovery.Detection.Delivery.{PersistedFirst, calls-PersistedFirst}

abbrev supply : Supply
supply = record { uuid = λ k. 100 + k; clock = λ k. 5 + k }

abbrev hour : ℕ
hour = 3_600_000_000

-- seen at the start; the timeout is one hour
abbrev pump : ExistingDevice
pump = record {
  id = 7;
  mac_address = none;
  ip_address = some (codes "10.0.0.7");
  firmware_version = some (codes "1.0");
  protocols = codes "modbus_tcp" ∷ [];
  last_seen = 0;
}

abbrev fresh_pump : ExistingDevice
fresh_pump = record pump { id = 8; last_seen = 2 * hour }

abbrev detector : ChangeDetector
detector = record {
  disappearance_timeout = hour;
  disappeared_alerted = [];
  alert_callbacks = (λ a. false) ∷ (λ a. true) ∷ [];
  persist_alert = some (λ a. true);
}

abbrev s7_fingerprint : DeviceFingerprint
s7_fingerprint = record {
  schema_version = codes "1.0.0";
  protocol = Protocol.s7comm;
  source_address = codes "10.0.0.7";
  destination_address = codes "10.0.0.1";
  mac_address = none;
  ip_address = none;
  vendor = none;
  model = none;
  firmware_version = some (codes "1.1");
  device_type = none;
  serial_number = none;
  protocol_data = [];
  parsing_status = ParsingStatus.partial;
  binary_fields = [];
}

abbrev lost_alerts : List Alert
lost_alerts = create_disappeared_alert supply 0 detector pump ∷ []

check_once :
    (check_disappeared_devices supply (pump ∷ fresh_pump ∷ pump ∷ []) (2 * hour) detector).alerts
    ≡ some lost_alerts
unfolding check_disappeared_devices scan_devices deliver persist_and_dispatch dispatch
check_once = refl

changes : List Alert
changes =
    firmware_alert supply pump (codes "1.0") (codes "1.1")
    ∷ record {
      id = 101;
      alert_type = AlertType.new_protocol;
      severity = Severity.medium;
      device_id = some 7;
      details =
          Details.protocol_details 7 (codes "s7comm") (codes "modbus_tcp" ∷ []) (codes "10.0.0.7");
      generated_at = 6;
    }
    ∷ []

changes_found :
    (process_fingerprint supply s7_fingerprint (some pump) detector).alerts ≡ some changes
unfolding changes process_fingerprint check_firmware_change check_new_protocol deliver
    persist_and_dispatch dispatch
changes_found = refl

calls-PersistedFirst_example :
    PersistedFirst [] (process_fingerprint supply s7_fingerprint (some pump) detector).events
    × PersistedFirst [] (check_disappeared_devices supply (pump ∷ []) (2 * hour) detector).events
calls-PersistedFirst_example =
    calls-PersistedFirst supply detector (λ a. true) s7_fingerprint (some pump) (pump ∷ [])
      (2 * hour) refl

check_disappeared_devices-exact_example :
    (contains {A = ℕ} 8 (subjects lost_alerts) ≡ false)
    × Distinct (subjects lost_alerts)
    × (contains {A = ℕ} 8
          (check_disappeared_devices supply
            (pump ∷ fresh_pump ∷ pump ∷ [])
            (2 * hour)
            detector).state.disappeared_alerted
        ≡ false)
check_disappeared_devices-exact_example =
    check_disappeared_devices-exact supply (pump ∷ fresh_pump ∷ pump ∷ []) (2 * hour) detector
      lost_alerts 8 check_once

process_fingerprint-expected_example :
    Reports
      (expected s7_fingerprint (some pump))
      (process_fingerprint supply s7_fingerprint (some pump) detector).alerts
    × (contains 7
          (process_fingerprint supply s7_fingerprint (some pump) detector).state.disappeared_alerted
        ≡ false)
process_fingerprint-expected_example =
    process_fingerprint-expected supply s7_fingerprint (some pump) detector 7

abbrev day : List Call
day =
    check_call supply (pump ∷ []) (2 * hour)
    ∷ check_call supply (pump ∷ []) (3 * hour)
    ∷ fingerprint_call supply s7_fingerprint (some pump)
    ∷ check_call supply (pump ∷ []) (4 * hour)
    ∷ []

history-day : history day detector ≡ lost 7 ∷ seen 7 ∷ lost 7 ∷ []
unfolding history check_disappeared_devices scan_devices process_fingerprint check_firmware_change
    check_new_protocol deliver persist_and_dispatch dispatch create_disappeared_alert
history-day = refl

history-Alternates_example : Alternates [] (history day detector)
history-Alternates_example = history-Alternates day detector

abbrev broken : ChangeDetector
broken = record detector { persist_alert = some (λ a. false) }

retry_alerts_nobody :
    (check_disappeared_devices supply (pump ∷ []) (3 * hour) (
      set_persist_handler
        (λ a. true)
        (check_disappeared_devices supply (pump ∷ []) (2 * hour) broken).state)).alerts
    ≡ some []
unfolding check_disappeared_devices scan_devices deliver persist_and_dispatch dispatch
    set_persist_handler
retry_alerts_nobody = refl

-- two more checks with a repaired handler, and no detection
abbrev later : List Call
later =
    check_call supply (pump ∷ []) (3 * hour)
    ∷ persist_call (λ a. true)
    ∷ check_call supply (pump ∷ []) (4 * hour)
    ∷ []

failed_check_loses_example :
    ((check_disappeared_devices supply (pump ∷ []) (2 * hour) broken).alerts ≡ none)
    × ((check_disappeared_devices supply (pump ∷ []) (2 * hour) broken).events ≡ [])
    × (never_lost 7
          (history later (check_disappeared_devices supply (pump ∷ []) (2 * hour) broken).state)
        ≡ true)
failed_check_loses_example =
    failed_check_loses supply (pump ∷ []) (2 * hour) broken (λ a. false) 7 later refl (λ a. refl)
      refl refl refl
