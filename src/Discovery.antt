-- ===== src/Discovery.antt =====
-- app/discovery_engine.py: what the engine does with a fingerprint, from the change detector over
-- the inventory to the risk score and the topology. The parts are the ones of the other modules.
-- The ids and the readings of the clock that one call draws are an argument; what it did to the
-- outside is the list of its signals. A call runs to its end before the next one.
pub mod Peers
pub mod Inventory
pub mod Alerts
pub mod Repeats
pub mod Lifecycle
mod Tests
use ot_asset_discovery.Detection.{
  Supply, ChangeDetector, on_alert, set_persist_handler, Event, or_default, ExistingDevice, Called,
  process_fingerprint,
}
use ot_asset_discovery.Repository.{
  DeviceRow, Store, Result, ok, err, DeviceArgs, get_device_by_mac_ip, get_device_by_id,
}
use ot_asset_discovery.Repository.Merging.{upsert_device}
use ot_asset_discovery.Risk.{RiskScorer, Outcome, calculate_score}
use ot_asset_discovery.Topology.{
  NewCommunicationEvent, Edges, TopologyMapper, record_communication, get_topology,
}
use ot_asset_discovery.Domain.{
  protocol_name, DeviceType, DeviceFingerprint, within, Alert, Device, TopologyEdge,
}
use ot_asset_discovery.Parsers.Serialization.Codec.{type_name}
use ot_asset_discovery.Prelude.Int.{pos}
use ot_asset_discovery.Prelude.{
  ℕ, Bool, true, false, ◌&&◌, Option, none, some, List, [], ◌∷◌, ◌++◌, leb, nat_eq, if◌then◌else◌,
  is_some, length, nat_keys, Text, codes, set_add,
}

-- What one call draws: the detector's ids and times, the id and the time of a device that is
-- stored, those of two scorings, and the time of a packet.
pub record Draws : Type 0 where
  pub supply : Supply
  pub device_id : ℕ
  pub now : ℕ
  pub score_id : ℕ
  pub score_now : ℕ
  pub rescore_id : ℕ
  pub rescore_now : ℕ
  pub packet_now : ℕ

pub record Engine : Type 0 where
  pub detector : ChangeDetector
  pub scorer : RiskScorer
  pub mapper : TopologyMapper
  -- the table `topology_edges`
  pub edges : Edges
  -- what `device_repository` stores; `none` where there is no repository
  pub store : Option Store

pub data Signal : Type 0 where
  -- the detector persisted an alert, or gave it to a callback
  detected : Event → Signal
  -- the scorer's own callback was given the alert
  score_callback : Alert → Signal
  -- the engine persisted the alert of a score, and broadcast it
  persisted_score broadcast_score : Alert → Signal
  broadcast_path : NewCommunicationEvent → Signal

abbrev pub Handled : Type 0
Handled = Engine × List Signal

-- `_wire_components`, at the detector: both handlers of the engine return, since the one only
-- logs and the other catches what it meets.
pub wire_detector : ChangeDetector → ChangeDetector
wire_detector d = set_persist_handler (λ alert. true) (on_alert (λ alert. true) d)

-- `fingerprint.mac_address or "unknown"`. "unknown" is no address that the database's column
-- takes: there the lookup and the upsert raise, which this model leaves out.
abbrev pub mac_of : DeviceFingerprint → Text
mac_of f = or_default f.mac_address (codes "unknown")

-- `fingerprint.ip_address or fingerprint.source_address`
abbrev pub ip_of : DeviceFingerprint → Text
ip_of f = or_default f.ip_address f.source_address

abbrev pub find_device : DeviceFingerprint → Option Store → Option DeviceRow
find_device f none = none
find_device f (some s) = get_device_by_mac_ip (mac_of f) (ip_of f) s

-- The dict has no `last_seen`, which `process_fingerprint` does not read.
abbrev pub existing_device : Option DeviceRow → Option ExistingDevice
existing_device none = none
existing_device (some d) = some (record {
  id = d.id;
  mac_address = some d.mac_address;
  ip_address = some d.ip_address;
  firmware_version = d.firmware_version;
  protocols = d.protocols;
  last_seen = d.last_seen;
})

abbrev pub type_text : Option DeviceType → Option Text
type_text none = none
type_text (some t) = some (type_name t)

-- the arguments of `upsert_device`
abbrev pub args_of : DeviceFingerprint → DeviceArgs
args_of f = record {
  mac_address = mac_of f;
  ip_address = ip_of f;
  vendor = f.vendor;
  model = f.model;
  firmware_version = f.firmware_version;
  device_type = type_text f.device_type;
  protocols = some (protocol_name f.protocol ∷ []);
  fingerprint = some f;
  first_seen = none;
  last_seen = none;
}

-- the loop of `_get_peer_count`; a set, in no order
pub peers : ℕ → List TopologyEdge → List ℕ
peers id [] = []
peers id (e ∷ edges) =
    let rest = peers id edges in
    if nat_eq e.source_device_id id
    then set_add e.dest_device_id rest
    else if nat_eq e.dest_device_id id
    then set_add e.source_device_id rest
    else rest

-- The edges of the graph do not depend on the names of its nodes, nor on the devices.
pub get_peer_count : ℕ → Engine → ℕ
get_peer_count id e = length (peers id (get_topology (λ n. []) e.mapper e.edges []).edges)

-- `Device(...)`; `none` is pydantic's ValidationError.
pub to_device : DeviceRow → Option Device
to_device d =
    if within 128 d.vendor
      && (within 128 d.model
          && (within 64 d.firmware_version
              && (leb (length d.protocols) 20 && leb d.risk_score 100)))
    then some (record {
      id = d.id;
      mac_address = d.mac_address;
      ip_address = d.ip_address;
      vendor = d.vendor;
      model = d.model;
      firmware_version = d.firmware_version;
      device_type = d.device_type;
      protocols = d.protocols;
      risk_score = d.risk_score;
      fingerprint = none;
      first_seen = d.first_seen;
      last_seen = d.last_seen;
    })
    else none

-- The score of the device's row; the id is the primary key.
pub set_score : ℕ → ℕ → List DeviceRow → List DeviceRow
set_score id score [] = []
set_score id score (d ∷ devices) =
    (if nat_eq d.id id then record d { risk_score = score } else d) ∷ set_score id score devices

-- `device_record.risk_score = result.score`
abbrev pub with_score : ℕ → ℕ → Engine → Store → Engine
with_score id score e s = record e {
  store = some (record s { devices = set_score id score s.devices });
}

abbrev pub callback_signals : List Alert → List Signal
callback_signals [] = []
callback_signals (a ∷ alerts) = score_callback a ∷ callback_signals alerts

abbrev pub alert_signals : Option Alert → List Signal
alert_signals none = []
alert_signals (some a) = persisted_score a ∷ broadcast_score a ∷ []

-- the rest of `_recalculate_risk_score`, after the scorer has returned or raised
pub apply_score : DeviceRow → Outcome → Engine → Store → Handled
apply_score d outcome e s = elim outcome.result [
  | none ↦ (e, callback_signals outcome.calls)
  | some r ↦ (
    if nat_eq r.score d.risk_score then e else with_score d.id r.score e s,
    callback_signals outcome.calls ++ alert_signals r.alert,
  )
]

abbrev pub score_device : (id now : ℕ) → DeviceRow → Option Device → Engine → Store → Handled
score_device id now d none e s = (e, [])
score_device id now d (some device) e s =
    apply_score d
      (calculate_score e.scorer id now device (pos (get_peer_count d.id e))
        (some (pos d.risk_score)))
      e s

abbrev pub recalculate_row : (id now : ℕ) → Option DeviceRow → Engine → Store → Handled
recalculate_row id now none e s = (e, [])
recalculate_row id now (some d) e s = score_device id now d (to_device d) e s

-- `_recalculate_risk_score`, of the row with that id: the session has one object for a row.
pub recalculate_risk_score : (id now : ℕ) → ℕ → Option Store → Engine → Handled
recalculate_risk_score id now device_id none e = (e, [])
recalculate_risk_score id now device_id (some s) e =
    recalculate_row id now (get_device_by_id device_id s) e s

abbrev pub detections : List Event → List Signal
detections [] = []
detections (event ∷ events) = detected event ∷ detections events

-- A call so far: the engine, its signals, and the row of the device if the call goes on.
pub record Progress : Type 0 where
  pub engine : Engine
  pub signals : List Signal
  pub device : Option ℕ

-- what follows `upsert_device`
abbrev pub after_upsert : Draws → Engine → List Signal → Result (DeviceRow × Bool) → Progress
after_upsert w e signals (err error) = record { engine = e; signals = signals; device = none }
after_upsert w e signals (ok (d, new)) =
    let (e', later) = recalculate_risk_score w.score_id w.score_now d.id e.store e in
    record { engine = e'; signals = signals ++ later; device = some d.id }

abbrev pub upsert : Draws → DeviceFingerprint → Engine → List Signal → Option Store → Progress
upsert w f e signals none = record { engine = e; signals = signals; device = none }
upsert w f e signals (some s) =
    let (result, s') = upsert_device w.device_id w.now (args_of f) s in
    after_upsert w (record e { store = some s' }) signals result

-- what follows `process_fingerprint`, which may have raised
abbrev pub after_detection : Draws → DeviceFingerprint → Engine → Called → Progress
after_detection w f e called =
    let e' = record e { detector = called.state } in
    let signals = detections called.events in
    elim called.alerts [
      | none ↦ record { engine = e'; signals = signals; device = none }
      | some alerts ↦ upsert w f e' signals e.store
    ]

-- What the handlers of both pipelines have in common, up to the risk score.
pub discover : Draws → DeviceFingerprint → Engine → Progress
discover w f e =
    after_detection w f e
      (process_fingerprint w.supply f (existing_device (find_device f e.store)) e.detector)

pub handle_active_probe_result : Draws → DeviceFingerprint → Engine → Handled
handle_active_probe_result w f e = let p = discover w f e in (p.engine, p.signals)

-- a new path is broadcast, and its device is scored again
abbrev pub announce_path : Draws → ℕ → Option NewCommunicationEvent → Engine → List Signal → Handled
announce_path w device_id none e signals = (e, signals)
announce_path w device_id (some path) e signals =
    let (e', later) = recalculate_risk_score w.rescore_id w.rescore_now device_id e.store e in
    (e', signals ++ broadcast_path path ∷ later)

-- `_record_topology_communication`, where the device stands for its destination as well
pub record_topology_communication : Draws → DeviceFingerprint → ℕ → Engine → List Signal → Handled
record_topology_communication w f id e signals =
    let (m, path) = record_communication (id, id, protocol_name f.protocol) w.packet_now e.mapper in
    announce_path w id path (record e { mapper = m }) signals

abbrev pub is_text : Text → Bool
is_text [] = false
is_text (c ∷ s) = true

abbrev pub record_if : Bool → Draws → DeviceFingerprint → Progress → Option ℕ → Handled
record_if true w f p (some id) = record_topology_communication w f id p.engine p.signals
record_if true w f p none = (p.engine, p.signals)
record_if false w f p device = (p.engine, p.signals)

pub handle_passive_discovery : Draws → DeviceFingerprint → Engine → Handled
handle_passive_discovery w f e =
    let p = discover w f e in
    record_if (is_some (find_device f e.store) && is_text f.destination_address) w f p p.device

-- `handle_topology_update`: both devices are scored where they are stored.
pub handle_topology_update : Draws → (source dest : ℕ) (protocol : Text) → Engine → Handled
handle_topology_update w source dest protocol e =
    let (m, path) = record_communication (source, dest, protocol) w.packet_now e.mapper in
    let e1 = record e { mapper = m } in
    let (e2, first) = recalculate_risk_score w.score_id w.score_now source e1.store e1 in
    let (e3, second) = recalculate_risk_score w.rescore_id w.rescore_now dest e2.store e2 in
    (e3, elim path [ none ↦ first ++ second | some p ↦ broadcast_path p ∷ first ++ second ])
