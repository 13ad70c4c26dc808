-- ===== src/Detection/Wired.antt =====
-- A detector of app/detection/change_detector.py whose handlers are those of the engine: which of
-- its calls announce a new device.
use ot_asset_discovery.Detection.{
  Supply, ChangeDetector, Event, persisted, dispatched, dispatch, persist_and_dispatch, deliver,
  ExistingDevice, create_new_device_alert, firmware_alert, firmware_change_of,
  check_firmware_change, check_new_protocol, appended, Called, finish, process_fingerprint,
}
use ot_asset_discovery.Domain.{protocol_name, DeviceFingerprint, AlertType, Alert}
use ot_asset_discovery.Prelude.{
  ℕ, ◌+◌, ◌≡◌, refl, ◌∙◌, inl, inr, Bool, true, false, Option, none, some, List, [], ◌∷◌, ◌++◌,
  arith, if◌then◌else◌, Bool-cases, is_some, nat_keys, Text, text_keys, contains, set_discard,
}

abbrev pub is_new_device : AlertType → Bool
is_new_device AlertType.new_device = true
is_new_device _ = false

-- How many alerts are of a new device.
abbrev count_new : List Alert → ℕ
count_new [] = 0
count_new (a ∷ alerts) = (if is_new_device a.alert_type then 1 else 0) + count_new alerts

-- How often the callbacks are given the alert of a new device.
abbrev pub announced : List Event → ℕ
announced [] = 0
announced (dispatched k a ∷ events) =
    (if is_new_device a.alert_type then 1 else 0) + announced events
announced (persisted a ∷ events) = announced events

-- The detector's handlers are the engine's two, and no others.
abbrev pub IsWired : ChangeDetector → Type 0
IsWired d = (d.persist_alert ≡ some (λ a. true)) × (d.alert_callbacks ≡ (λ a. true) ∷ [])

persist_and_dispatch-wired :
    (d : ChangeDetector) (a : Alert)
    → IsWired d
    → persist_and_dispatch d a ≡ (true, persisted a ∷ dispatched 0 a ∷ [])
unfolding persist_and_dispatch dispatch
persist_and_dispatch-wired d a h = rw (h.0, h.1) refl

-- Every alert is delivered.
abbrev Delivers : ChangeDetector → List Alert → Type 0
Delivers d alerts =
    ((deliver d alerts).0 ≡ true) × (announced (deliver d alerts).1 ≡ count_new alerts)

deliver-wired : (d : ChangeDetector) (alerts : List Alert) → IsWired d → Delivers d alerts
unfolding deliver
deliver-wired d [] h = (refl, refl)
deliver-wired d (a ∷ alerts) h =
    let ih = deliver-wired d alerts h in rw (persist_and_dispatch-wired d a h) (ih.0, rw ih.1 refl)

-- The detector returns, it stays wired, and it announces a new device exactly if the fingerprint
-- is of none that is stored.
abbrev pub Detects : Option ExistingDevice → Called → Type 0
Detects existing called =
    (is_some called.alerts ≡ true)
    × IsWired called.state
    × (announced called.events ≡ (if is_some existing then 0 else 1))

finish-Detects :
    (d : ChangeDetector) (alerts : List Alert) (existing : Option ExistingDevice)
    → IsWired d
    → count_new alerts ≡ (if is_some existing then 0 else 1)
    → Detects existing (finish d alerts)
finish-Detects d alerts existing h n =
    let all = deliver-wired d alerts h in (rw all.0 refl, h, all.1 ∙ n)

check_firmware-old :
    (s : Supply) (e : ExistingDevice) (new old : Option Text)
    → count_new (appended [] (firmware_change_of s e new old)) ≡ 0
unfolding firmware_change_of firmware_alert
check_firmware-old s e (some new) (some old) = ground arith
check_firmware-old s e (some new) none = refl
check_firmware-old s e none old = refl

check_protocol-old :
    (s : Supply) (f : DeviceFingerprint) (e : ExistingDevice) (alerts : List Alert)
    → count_new (appended alerts (check_new_protocol s f e)) ≡ count_new alerts
unfolding check_new_protocol
check_protocol-old s f e alerts =
    elim (Bool-cases (contains (protocol_name f.protocol) e.protocols)) [
      | inl q ↦ rw q refl
      | inr q ↦ rw q (count_new-last alerts _ refl)
    ]
  where
    count_new-last :
        (xs : List Alert) (a : Alert)
        → is_new_device a.alert_type ≡ false
        → count_new (xs ++ a ∷ []) ≡ count_new xs
    count_new-last [] a h = rw h refl
    count_new-last (x ∷ xs) a h = rw (count_new-last xs a h) refl

pub process_fingerprint-Detects :
    (s : Supply) (f : DeviceFingerprint) (existing : Option ExistingDevice) (d : ChangeDetector)
    → IsWired d
    → Detects existing (process_fingerprint s f existing d)
unfolding process_fingerprint create_new_device_alert check_firmware_change
process_fingerprint-Detects s f none d h = finish-Detects d _ none h refl
process_fingerprint-Detects s f (some e) d h =
    finish-Detects (record d { disappeared_alerted = set_discard e.id d.disappeared_alerted })
      (appended (appended [] (firmware_change_of s e f.firmware_version e.firmware_version))
        (check_new_protocol s f e))
      (some e) h
      (check_protocol-old s f e _ ∙ check_firmware-old s e f.firmware_version e.firmware_version)
