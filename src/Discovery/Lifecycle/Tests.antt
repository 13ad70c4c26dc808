-- ===== src/Discovery/Lifecycle/Tests.antt =====
-- The start and the stop of the engine in app/discovery_engine.py at concrete states.
use ot_asset_discovery.Prelude.{
  ◌≡◌, refl, true, false, Option, none, some, List, [], ◌∷◌, Text, codes,
}
use ot_asset_discovery.Topology.{committed}
use ot_asset_discovery.Discovery.Lifecycle.{
  Lifecycle, start_engine, flush_topology, periodic_flush, set_active_probing, run_active_probe,
  EngineAction, start_call, flush_round, probing_call, engine_run,
}
use ot_asset_discovery.Capture.Sniffer.{validate_interface, start_capture}
use ot_asset_discovery.Prelude.Strings.{lstrip_if, rstrip_if, strip}

abbrev interfaces : Option (List Text)
interfaces = some (codes "eth0" ∷ [])

abbrev idle : Lifecycle
idle = record {
  interface = some (codes "eth0");
  active_probing_enabled = false;
  is_running = false;
  flush_task = false;
  sniffer = record {
    interface = none;
    is_running = false;
    packet_callbacks = [];
    buffer = [];
    commit_callback = some 1;
    started_at = none;
  };
  mapper = record {
    has_session = true;
    buffer = [];
    observed_triples = [];
    sniffer_running = false;
    last_flush = none;
    last_updated = none;
  };
  edges = [];
}

abbrev shift : List EngineAction
shift =
    start_call interfaces false 10
    ∷ start_call interfaces true 20
    ∷ flush_round committed 80
    ∷ probing_call true
    ∷ []

shift-running : (engine_run shift idle).is_running ≡ true
unfolding start_engine flush_topology periodic_flush set_active_probing start_capture
    validate_interface strip lstrip_if rstrip_if
shift-running = refl

-- A disabled prober is not called.
probing-off : run_active_probe 0 [] idle ≡ none
unfolding run_active_probe
probing-off = refl
