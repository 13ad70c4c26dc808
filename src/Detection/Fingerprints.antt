-- ===== src/Detection/Fingerprints.antt =====
-- What `process_fingerprint` of app/detection/change_detector.py alerts, on every branch.
use ot_asset_discovery.Prelude.{
  ℕ, ◌≡◌, refl, sym, ap, ◌∙◌, Bool, false, not, ◌&&◌, Option, none, some, List, [], ◌∷◌, ◌++◌,
  arith, nat_eq, if◌then◌else◌, nat_keys, Text, text_eq, text_keys, contains, set_discard,
  contains-set_discard,
}
use ot_asset_discovery.Detection.{
  Supply, ChangeDetector, ExistingDevice, create_new_device_alert, firmware_alert,
  firmware_change_of, check_firmware_change, check_new_protocol, appended, process_fingerprint,
}
use ot_asset_discovery.Domain.{protocol_name, DeviceFingerprint, Severity, AlertType, Alert}
use ot_asset_discovery.Topology.{triple_keys}
use ot_asset_discovery.Detection.Disappearance.{alerts-finish}

-- The kinds, severities and subjects of alerts.
abbrev pub summary : List Alert → List (AlertType × Severity × Option ℕ)
summary [] = []
summary (a ∷ alerts) = (a.alert_type, a.severity, a.device_id) ∷ summary alerts

-- Both versions are known and they differ.
abbrev pub firmware_differs : Option Text → Option Text → Bool
firmware_differs (some new) (some old) = not (text_eq new old)
firmware_differs (some new) none = false
firmware_differs none old = false

-- The alerts that a fingerprint calls for.
abbrev pub expected :
    DeviceFingerprint → Option ExistingDevice → List (AlertType × Severity × Option ℕ)
expected f none = (AlertType.new_device, Severity.high, none) ∷ []
expected f (some e) =
    (if firmware_differs f.firmware_version e.firmware_version
      then (AlertType.firmware_change, Severity.high, some e.id) ∷ []
      else [])
    ++ (if contains (protocol_name f.protocol) e.protocols
        then []
        else (AlertType.new_protocol, Severity.medium, some e.id) ∷ [])

-- The ids that count as alerted afterwards.
abbrev pub cleared : Option ExistingDevice → ℕ → Bool → Bool
cleared none id before = before
cleared (some e) id before = not (nat_eq e.id id) && before

summary-appended :
    (s : Supply) (f : DeviceFingerprint) (e : ExistingDevice) (new old : Option Text)
    → summary (appended (appended [] (firmware_change_of s e new old)) (check_new_protocol s f e))
      ≡ (if firmware_differs new old
          then (AlertType.firmware_change, Severity.high, some e.id) ∷ []
          else [])
        ++ (if contains (protocol_name f.protocol) e.protocols
            then []
            else (AlertType.new_protocol, Severity.medium, some e.id) ∷ [])
unfolding firmware_change_of check_new_protocol firmware_alert
summary-appended s f e (some new) (some old) = ground arith
summary-appended s f e (some new) none = ground arith
summary-appended s f e none old = ground arith

-- The alerts of a call that returned are of these kinds.
abbrev pub Reports : List (AlertType × Severity × Option ℕ) → Option (List Alert) → Type 0
Reports kinds none = Unit
Reports kinds (some alerts) = summary alerts ≡ kinds

Reports-cases :
    (kinds : List (AlertType × Severity × Option ℕ)) (o : Option (List Alert))
    → ((alerts : List Alert) → o ≡ some alerts → summary alerts ≡ kinds)
    → Reports kinds o
Reports-cases kinds none h = tt
Reports-cases kinds (some alerts) h = h alerts refl

-- Where the call returns, its alerts are: one HIGH `new_device` without an id for an unknown
-- device; for a known one a HIGH `firmware_change` exactly if both versions are known and
-- differ, then a MEDIUM `new_protocol` exactly if the protocol is not listed. Whether it
-- returns or raises, a known device no longer counts as alerted, and no other one changes.
pub process_fingerprint-expected :
    (s : Supply) (f : DeviceFingerprint) (existing : Option ExistingDevice) (d : ChangeDetector)
    (id : ℕ)
    → Reports (expected f existing) (process_fingerprint s f existing d).alerts
      × (contains id (process_fingerprint s f existing d).state.disappeared_alerted
          ≡ cleared existing id (contains id d.disappeared_alerted))
unfolding process_fingerprint check_firmware_change
process_fingerprint-expected s f none d id = (
  Reports-cases (expected f none) _ (λ alerts h.
      ap summary (sym (alerts-finish d (create_new_device_alert s f ∷ []) alerts h))
      ∙ unfold create_new_device_alert in refl),
  refl,
)
process_fingerprint-expected s f (some e) d id =
    let d' = record d { disappeared_alerted = set_discard e.id d.disappeared_alerted } in
    let changes = appended (appended [] (check_firmware_change s f e)) (check_new_protocol s f e) in
    (
      Reports-cases (expected f (some e)) _ (λ alerts h.
          ap summary (sym (alerts-finish d' changes alerts h))
          ∙ summary-appended s f e f.firmware_version e.firmware_version),
      contains-set_discard e.id id d.disappeared_alerted,
    )
