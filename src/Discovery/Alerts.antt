-- ===== src/Discovery/Alerts.antt =====
-- Which fingerprints app/discovery_engine.py announces as new devices.
use ot_asset_discovery.Risk.{RiskScoreResult, Outcome}
use ot_asset_discovery.Risk.Score.{kind, calculate_score-kind}
use ot_asset_discovery.Domain.{DeviceFingerprint, AlertType, Alert, Device}
use ot_asset_discovery.Discovery.{
  Draws, Engine, Signal, detected, score_callback, persisted_score, broadcast_score, broadcast_path,
  find_device, existing_device, get_peer_count, to_device, callback_signals, alert_signals,
  apply_score, score_device, recalculate_row, recalculate_risk_score, detections, Progress,
  after_upsert, upsert, after_detection, discover, announce_path, record_topology_communication,
  record_if, handle_passive_discovery,
}
use ot_asset_discovery.Detection.{Event, persisted, dispatched, Called, process_fingerprint}
use ot_asset_discovery.Detection.Wired.{
  is_new_device, announced, IsWired, process_fingerprint-Detects,
}
use ot_asset_discovery.Repository.{DeviceRow, Store, Result, ok, err, get_device_by_id}
use ot_asset_discovery.Topology.{NewCommunicationEvent}
use ot_asset_discovery.Prelude.{
  ℕ, ◌+◌, ◌≡◌, refl, ap, ◌∙◌, inl, inr, Bool, true, false, Option, none, some, List, [], ◌∷◌, ◌++◌,
  arith, if◌then◌else◌, Option-cases, is_some,
}
use ot_asset_discovery.Prelude.Int.{pos}

-- How often the broadcast is given the alert of a new device.
abbrev pub new_devices : List Signal → ℕ
new_devices [] = 0
new_devices (detected (dispatched k a) ∷ signals) =
    (if is_new_device a.alert_type then 1 else 0) + new_devices signals
new_devices (detected (persisted a) ∷ signals) = new_devices signals
new_devices (score_callback a ∷ signals) = new_devices signals
new_devices (persisted_score a ∷ signals) = new_devices signals
new_devices (broadcast_score a ∷ signals) =
    (if is_new_device a.alert_type then 1 else 0) + new_devices signals
new_devices (broadcast_path p ∷ signals) = new_devices signals

new_devices-append :
    (xs ys : List Signal) → new_devices (xs ++ ys) ≡ new_devices xs + new_devices ys
new_devices-append [] ys = omega arith
new_devices-append (detected (dispatched k a) ∷ xs) ys = rw (new_devices-append xs ys) (omega arith)
new_devices-append (detected (persisted a) ∷ xs) ys = new_devices-append xs ys
new_devices-append (score_callback a ∷ xs) ys = new_devices-append xs ys
new_devices-append (persisted_score a ∷ xs) ys = new_devices-append xs ys
new_devices-append (broadcast_score a ∷ xs) ys = rw (new_devices-append xs ys) (omega arith)
new_devices-append (broadcast_path p ∷ xs) ys = new_devices-append xs ys

new_devices-detections : (events : List Event) → new_devices (detections events) ≡ announced events
new_devices-detections [] = refl
new_devices-detections (dispatched k a ∷ events) = rw (new_devices-detections events) refl
new_devices-detections (persisted a ∷ events) = new_devices-detections events

new_devices-callbacks : (alerts : List Alert) → new_devices (callback_signals alerts) ≡ 0
new_devices-callbacks [] = refl
new_devices-callbacks (a ∷ alerts) = new_devices-callbacks alerts

new_devices-score :
    (alert : Option Alert)
    → kind alert ≡ AlertType.risk_score_change
    → new_devices (alert_signals alert) ≡ 0
new_devices-score none h = refl
new_devices-score (some a) h = rw h refl

apply_score-quiet :
    (d : DeviceRow) (outcome : Outcome) (e : Engine) (s : Store)
    → ((r : RiskScoreResult) → outcome.result ≡ some r → kind r.alert ≡ AlertType.risk_score_change)
    → new_devices (apply_score d outcome e s).1 ≡ 0
unfolding apply_score
apply_score-quiet d outcome e s h = elim (Option-cases outcome.result) [
  | inl q ↦ rw q (new_devices-callbacks outcome.calls)
  | inr (r, q) ↦
      rw
        (
          q,
          new_devices-append (callback_signals outcome.calls) (alert_signals r.alert),
          new_devices-callbacks outcome.calls,
          new_devices-score r.alert (h r q),
        )
        refl
]

score_device-quiet :
    (id now : ℕ) (d : DeviceRow) (device : Option Device) (e : Engine) (s : Store)
    → new_devices (score_device id now d device e s).1 ≡ 0
score_device-quiet id now d none e s = refl
score_device-quiet id now d (some device) e s = apply_score-quiet d _ e s (
    calculate_score-kind e.scorer id now device (pos (get_peer_count d.id e))
      (some (pos d.risk_score)))

recalculate_row-quiet :
    (id now : ℕ) (d : Option DeviceRow) (e : Engine) (s : Store)
    → new_devices (recalculate_row id now d e s).1 ≡ 0
recalculate_row-quiet id now none e s = refl
recalculate_row-quiet id now (some d) e s = score_device-quiet id now d (to_device d) e s

recalculate-quiet :
    (id now device_id : ℕ) (store : Option Store) (e : Engine)
    → new_devices (recalculate_risk_score id now device_id store e).1 ≡ 0
unfolding recalculate_risk_score
recalculate-quiet id now device_id none e = refl
recalculate-quiet id now device_id (some s) e =
    recalculate_row-quiet id now (get_device_by_id device_id s) e s

-- More signals that announce nothing.
quiet-append : (xs ys : List Signal) → new_devices ys ≡ 0 → new_devices (xs ++ ys) ≡ new_devices xs
quiet-append xs ys h = rw (new_devices-append xs ys, h) (omega arith)

after_upsert-quiet :
    (w : Draws) (e : Engine) (signals : List Signal) (result : Result (DeviceRow × Bool))
    → new_devices (after_upsert w e signals result).signals ≡ new_devices signals
after_upsert-quiet w e signals (err error) = refl
after_upsert-quiet w e signals (ok (d, new)) =
    quiet-append signals _ (recalculate-quiet w.score_id w.score_now d.id e.store e)

upsert-quiet :
    (w : Draws) (f : DeviceFingerprint) (e : Engine) (signals : List Signal) (store : Option Store)
    → new_devices (upsert w f e signals store).signals ≡ new_devices signals
upsert-quiet w f e signals none = refl
upsert-quiet w f e signals (some s) = after_upsert-quiet w _ signals _

after_detection-quiet :
    (w : Draws) (f : DeviceFingerprint) (e : Engine) (called : Called)
    → new_devices (after_detection w f e called).signals ≡ announced called.events
after_detection-quiet w f e called = elim (Option-cases called.alerts) [
  | inl q ↦ rw q (new_devices-detections called.events)
  | inr (alerts, q) ↦
      rw q (
        upsert-quiet w f _ (detections called.events) e.store
        ∙ new_devices-detections called.events)
]

announce_path-quiet :
    (w : Draws) (id : ℕ) (path : Option NewCommunicationEvent) (e : Engine) (signals : List Signal)
    → new_devices (announce_path w id path e signals).1 ≡ new_devices signals
announce_path-quiet w id none e signals = refl
announce_path-quiet w id (some path) e signals =
    quiet-append signals _ (recalculate-quiet w.rescore_id w.rescore_now id e.store e)

record_if-quiet :
    (test : Bool) (w : Draws) (f : DeviceFingerprint) (p : Progress) (device : Option ℕ)
    → new_devices (record_if test w f p device).1 ≡ new_devices p.signals
unfolding record_topology_communication
record_if-quiet true w f p (some id) = announce_path-quiet w id _ _ p.signals
record_if-quiet true w f p none = refl
record_if-quiet false w f p device = refl

is_some-existing : (d : Option DeviceRow) → is_some (existing_device d) ≡ is_some d
is_some-existing none = refl
is_some-existing (some d) = refl

-- The broadcast is given one alert of a new device, or none if the device is stored.
pub handle_passive-announced :
    (w : Draws) (f : DeviceFingerprint) (e : Engine)
    → IsWired e.detector
    → new_devices (handle_passive_discovery w f e).1
      ≡ (if is_some (find_device f e.store) then 0 else 1)
unfolding handle_passive_discovery discover
handle_passive-announced w f e h =
    let found = find_device f e.store in
    let detects = process_fingerprint-Detects w.supply f (existing_device found) e.detector h in
    record_if-quiet _ w f (discover w f e) (discover w f e).device
    ∙ after_detection-quiet w f e
        (process_fingerprint w.supply f (existing_device found) e.detector)
    ∙ detects.2
    ∙ ap (λ b. if b then 0 else 1) (is_some-existing found)
