-- ===== src/Discovery/Inventory.antt =====
-- The inventory that the two pipelines of app/discovery_engine.py leave.
use ot_asset_discovery.Discovery.{
  Draws, Engine, Signal, to_device, set_score, with_score, apply_score, score_device,
  recalculate_row, recalculate_risk_score, Progress, discover, handle_active_probe_result,
  announce_path, record_topology_communication, record_if, handle_passive_discovery,
  handle_topology_update,
}
use ot_asset_discovery.Repository.{DeviceRow, HistoryRow, Store, get_device_by_id}
use ot_asset_discovery.Topology.{NewCommunicationEvent, record_communication}
use ot_asset_discovery.Risk.{Outcome}
use ot_asset_discovery.Domain.{DeviceFingerprint, Device}
use ot_asset_discovery.Prelude.{
  ℕ, ◌≡◌, refl, ◌∙◌, inl, inr, Bool, true, false, Option, none, some, List, [], ◌∷◌, nat_eq,
  if◌then◌else◌, Bool-cases, Option-cases, Text,
}

-- The rows without their scores.
abbrev pub unscored : List DeviceRow → List DeviceRow
unscored [] = []
unscored (d ∷ devices) = record d { risk_score = 0 } ∷ unscored devices

-- The devices without their scores, and the history.
abbrev pub inventory : Option Store → Option (List DeviceRow × List HistoryRow)
inventory none = none
inventory (some s) = some (unscored s.devices, s.history)

unscored-set_score :
    (id score : ℕ) (devices : List DeviceRow)
    → unscored (set_score id score devices) ≡ unscored devices
unfolding set_score
unscored-set_score id score [] = refl
unscored-set_score id score (d ∷ devices) = elim (Bool-cases (nat_eq d.id id)) [
  | inl e ↦ rw (e, unscored-set_score id score devices) refl
  | inr e ↦ rw (e, unscored-set_score id score devices) refl
]

-- A call leaves the detector and the inventory as they are, but for the scores.
abbrev pub Keeps : Engine → Engine → Type 0
Keeps e e' = (inventory e'.store ≡ inventory e.store) × (e'.detector ≡ e.detector)

Keeps-with_score :
    (id score : ℕ) (e : Engine) (s : Store) → e.store ≡ some s → Keeps e (with_score id score e s)
Keeps-with_score id score e s h = (rw (h, unscored-set_score id score s.devices) refl, refl)

Keeps-either :
    (test : Bool) (e e1 e2 : Engine) → Keeps e e1 → Keeps e e2 → Keeps e (if test then e1 else e2)
Keeps-either true e e1 e2 h g = h
Keeps-either false e e1 e2 h g = g

apply_score-Keeps :
    (d : DeviceRow) (outcome : Outcome) (e : Engine) (s : Store)
    → e.store ≡ some s
    → Keeps e (apply_score d outcome e s).0
unfolding apply_score
apply_score-Keeps d outcome e s h = elim (Option-cases outcome.result) [
  | inl q ↦ rw q (refl, refl)
  | inr (r, q) ↦ rw q (
      Keeps-either (nat_eq r.score d.risk_score) e e (with_score d.id r.score e s) (refl, refl)
        (Keeps-with_score d.id r.score e s h))
]

score_device-Keeps :
    (id now : ℕ) (d : DeviceRow) (device : Option Device) (e : Engine) (s : Store)
    → e.store ≡ some s
    → Keeps e (score_device id now d device e s).0
score_device-Keeps id now d none e s h = (refl, refl)
score_device-Keeps id now d (some device) e s h = apply_score-Keeps d _ e s h

recalculate_row-Keeps :
    (id now : ℕ) (d : Option DeviceRow) (e : Engine) (s : Store)
    → e.store ≡ some s
    → Keeps e (recalculate_row id now d e s).0
recalculate_row-Keeps id now none e s h = (refl, refl)
recalculate_row-Keeps id now (some d) e s h = score_device-Keeps id now d (to_device d) e s h

pub recalculate-Keeps :
    (id now device_id : ℕ) (store : Option Store) (e : Engine)
    → e.store ≡ store
    → Keeps e (recalculate_risk_score id now device_id store e).0
unfolding recalculate_risk_score
recalculate-Keeps id now device_id none e h = (refl, refl)
recalculate-Keeps id now device_id (some s) e h =
    recalculate_row-Keeps id now (get_device_by_id device_id s) e s h

announce_path-Keeps :
    (w : Draws) (id : ℕ) (path : Option NewCommunicationEvent) (e : Engine) (signals : List Signal)
    → Keeps e (announce_path w id path e signals).0
announce_path-Keeps w id none e signals = (refl, refl)
announce_path-Keeps w id (some path) e signals =
    recalculate-Keeps w.rescore_id w.rescore_now id e.store e refl

record_topology-Keeps :
    (w : Draws) (f : DeviceFingerprint) (id : ℕ) (e : Engine) (signals : List Signal)
    → Keeps e (record_topology_communication w f id e signals).0
unfolding record_topology_communication
record_topology-Keeps w f id e signals = announce_path-Keeps w id _ _ signals

pub record_if-Keeps :
    (test : Bool) (w : Draws) (f : DeviceFingerprint) (p : Progress) (device : Option ℕ)
    → Keeps p.engine (record_if test w f p device).0
record_if-Keeps true w f p (some id) = record_topology-Keeps w f id p.engine p.signals
record_if-Keeps true w f p none = (refl, refl)
record_if-Keeps false w f p device = (refl, refl)

-- The two pipelines leave the same detector, and the same devices and history in the inventory,
-- but for the risk scores.
pub handle_passive-active :
    (w : Draws) (f : DeviceFingerprint) (e : Engine)
    → (inventory (handle_passive_discovery w f e).0.store
        ≡ inventory (handle_active_probe_result w f e).0.store)
      × ((handle_passive_discovery w f e).0.detector
          ≡ (handle_active_probe_result w f e).0.detector)
unfolding handle_passive_discovery handle_active_probe_result
handle_passive-active w f e = record_if-Keeps _ w f (discover w f e) (discover w f e).device

module _ (w : Draws) (source dest : ℕ) (protocol : Text) (e : Engine) where
  -- A topology update leaves the detector, and the devices and the history in the inventory, but
  -- for the risk scores.
  pub handle_topology_update-Keeps : Keeps e (handle_topology_update w source dest protocol e).0
  unfolding handle_topology_update
  handle_topology_update-Keeps =
      let m = (record_communication (source, dest, protocol) w.packet_now e.mapper).0 in
      let e1 = record e { mapper = m } in
      let e2 = (recalculate_risk_score w.score_id w.score_now source e1.store e1).0 in
      let first = recalculate-Keeps w.score_id w.score_now source e1.store e1 refl in
      let second = recalculate-Keeps w.rescore_id w.rescore_now dest e2.store e2 refl in
      (second.0 ∙ first.0, second.1 ∙ first.1)
