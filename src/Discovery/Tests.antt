-- ===== src/Discovery/Tests.antt =====
-- Runs of the engine of app/discovery_engine.py at concrete inputs.
use ot_asset_discovery.Domain.{Protocol, ParsingStatus, DeviceFingerprint, TopologyEdge}
use ot_asset_discovery.Discovery.{
  Draws, Engine, wire_detector, args_of, peers, handle_active_probe_result,
  handle_passive_discovery,
}
use ot_asset_discovery.Discovery.Inventory.{inventory, handle_passive-active}
use ot_asset_discovery.Discovery.Alerts.{new_devices}
use ot_asset_discovery.Discovery.Repeats.{handle_passive-repeated}
use ot_asset_discovery.Repository.{DeviceRow, Store, ok, new_row, create_device}
use ot_asset_discovery.Repository.Merging.{upsert_found, upsert_device}
use ot_asset_discovery.Detection.{Supply, ChangeDetector, on_alert, set_persist_handler}
use ot_asset_discovery.Topology.{TopologyMapper}
use ot_asset_discovery.Prelude.{◌+◌, ◌≡◌, refl, true, false, none, some, [], ◌∷◌, codes}

abbrev supply : Supply
supply = record { uuid = λ k. 40 + k; clock = λ k. 50 + k }

abbrev draws : Draws
draws = record {
  supply = supply;
  device_id = 1;
  now = 60;
  score_id = 2;
  score_now = 61;
  rescore_id = 3;
  rescore_now = 62;
  packet_now = 63;
}

abbrev detector : ChangeDetector
detector = record {
  disappearance_timeout = 3_600_000_000;
  disappeared_alerted = [];
  alert_callbacks = [];
  persist_alert = none;
}

abbrev wired : ChangeDetector
wired = record detector { alert_callbacks = (λ a. true) ∷ []; persist_alert = some (λ a. true) }

wired-wire_detector : wire_detector detector ≡ wired
unfolding wire_detector set_persist_handler on_alert
wired-wire_detector = refl

abbrev mapper : TopologyMapper
mapper = record {
  has_session = false;
  buffer = [];
  observed_triples = [];
  sniffer_running = true;
  last_flush = none;
  last_updated = none;
}

abbrev engine : Engine
engine = record {
  detector = wired;
  scorer = record { vulnerability_db = none; alert_callback = none };
  mapper = mapper;
  edges = [];
  store = some (record { devices = []; history = [] });
}

abbrev sighting : DeviceFingerprint
sighting = record {
  schema_version = codes "1.0";
  protocol = Protocol.s7comm;
  source_address = codes "10.0.0.7";
  destination_address = codes "10.0.0.9";
  mac_address = none;
  ip_address = none;
  vendor = some (codes "Siemens");
  model = none;
  firmware_version = none;
  device_type = none;
  serial_number = none;
  protocol_data = [];
  parsing_status = ParsingStatus.partial;
  binary_fields = [];
}

abbrev empty : Store
empty = record { devices = []; history = [] }

abbrev found : DeviceRow
found = new_row 1 60 (args_of sighting)

sighting-stored : (upsert_device 1 60 (args_of sighting) empty).0 ≡ ok (found, true)
unfolding upsert_device upsert_found create_device
sighting-stored = refl

handle_passive-repeated_example :
    (new_devices (handle_passive_discovery draws sighting engine).1 ≡ 1)
    × (new_devices
          (handle_passive_discovery draws sighting
            (handle_passive_discovery draws sighting engine).0).1
        ≡ 0)
handle_passive-repeated_example =
    handle_passive-repeated draws sighting engine empty found true refl sighting-stored draws
      sighting (refl, refl) refl refl

handle_passive-active_example :
    (inventory (handle_passive_discovery draws sighting engine).0.store
      ≡ inventory (handle_active_probe_result draws sighting engine).0.store)
    × ((handle_passive_discovery draws sighting engine).0.detector
        ≡ (handle_active_probe_result draws sighting engine).0.detector)
handle_passive-active_example = handle_passive-active draws sighting engine

-- from the device to itself, which is what a passive fingerprint records
abbrev loop : TopologyEdge
loop = record {
  source_device_id = 1;
  dest_device_id = 1;
  protocol = codes "s7comm";
  packet_count = 1;
  last_seen = 63;
}

abbrev link : TopologyEdge
link = record loop { dest_device_id = 4 }

peers-loop : peers 1 (loop ∷ link ∷ []) ≡ 1 ∷ 4 ∷ []
unfolding peers
peers-loop = refl
