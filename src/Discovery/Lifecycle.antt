-- ===== src/Discovery/Lifecycle.antt =====
-- The start and the stop of the engine in app/discovery_engine.py, with the periodic flush and the
-- switch for active probing. How the capture, the ending of the sniffer and the sessions of the
-- mapper end is an argument; nothing else runs while a call waits for them.
pub mod Synced
mod Tests
use ot_asset_discovery.Prelude.{
  ℕ, Bool, true, false, Option, none, some, List, [], ◌∷◌, if◌then◌else◌, Text,
}
use ot_asset_discovery.Topology.{
  Edges, TopologyMapper, set_sniffer_running, begin_flush, Ending, end_flush,
}
use ot_asset_discovery.Capture.Prober.{ProbeTarget}
use ot_asset_discovery.Capture.Sniffer.{
  Reply, PassiveSniffer, Started, started, already_running, interface_error, start_capture,
  stop_capture,
}
use ot_asset_discovery.Capture.Prober.Batch.{Batch, start_batch}

pub record Lifecycle : Type 0 where
  -- of the configuration
  pub interface : Option Text
  pub active_probing_enabled : Bool
  pub is_running : Bool
  -- `_topology_flush_task is not None`
  pub flush_task : Bool
  pub sniffer : PassiveSniffer
  pub mapper : TopologyMapper
  -- the table `topology_edges`
  pub edges : Edges

-- RuntimeError, ValueError, and what the sniffer's start raises
pub data StartResult : Type 0 where
  engine_started engine_running no_interface sniffer_failed : StartResult

-- RuntimeError of the engine, and the one of the sniffer
pub data StopResult : Type 0 where
  engine_stopped engine_not_running sniffer_not_running : StopResult

-- what follows the sniffer's `start`
abbrev pub after_start : Started → PassiveSniffer → Lifecycle → StartResult × Lifecycle
after_start started sniffer e = (
  engine_started,
  record e {
    sniffer = sniffer;
    mapper = set_sniffer_running true e.mapper;
    flush_task = true;
    is_running = true;
  },
)
after_start already_running sniffer e = (sniffer_failed, record e { sniffer = sniffer })
after_start interface_error sniffer e = (sniffer_failed, record e { sniffer = sniffer })

abbrev pub start_on_interface :
    Option Text
    → (available : Option (List Text)) → (captures : Bool) → (now : ℕ) → Lifecycle
    → StartResult × Lifecycle
start_on_interface none available captures now e = (no_interface, e)
start_on_interface (some interface) available captures now e =
    let (result, (effects, sniffer)) = start_capture interface available captures now e.sniffer in
    after_start result sniffer e

pub start_engine :
    (available : Option (List Text))
    → (captures : Bool) → (now : ℕ) → Lifecycle
    → StartResult × Lifecycle
start_engine available captures now e =
    if e.is_running
    then (engine_running, e)
    else start_on_interface e.interface available captures now e

-- the session of a flush, if there is something to persist
abbrev pub end_session :
    Option Edges → (ending : Ending) → (now : ℕ) → TopologyMapper → Edges → TopologyMapper × Edges
end_session none ending now m edges = (m, edges)
end_session (some snapshot) ending now m edges = end_flush ending snapshot now m edges

-- `flush_updates` of the mapper, whose exceptions are logged
pub flush_topology : (ending : Ending) → (now : ℕ) → Lifecycle → Lifecycle
flush_topology ending now e =
    let (m, snapshot) = begin_flush now e.mapper in
    let (m', edges) = end_session snapshot ending now m e.edges in
    record e { mapper = m'; edges = edges }

-- what follows the sniffer's `stop`
abbrev pub after_stop :
    Bool → (ending : Ending) → (now : ℕ) → PassiveSniffer → Lifecycle → StopResult × Lifecycle
after_stop false ending now sniffer e = (sniffer_not_running, record e { sniffer = sniffer })
after_stop true ending now sniffer e =
    let stopped = record e { sniffer = sniffer; mapper = set_sniffer_running false e.mapper } in
    (engine_stopped, record (flush_topology ending now stopped) { is_running = false })

pub stop_engine :
    (answer : ℕ → Reply) → (ending : Ending) → (now : ℕ) → Lifecycle → StopResult × Lifecycle
stop_engine answer ending now e =
    let (was_running, (effects, sniffer)) = stop_capture answer e.sniffer in
    if e.is_running
    then after_stop was_running ending now sniffer (record e { flush_task = false })
    else (engine_not_running, e)

-- one round of `_periodic_topology_flush`, while its task is there
pub periodic_flush : (ending : Ending) → (now : ℕ) → Lifecycle → Lifecycle
periodic_flush ending now e = if e.flush_task then flush_topology ending now e else e

pub set_active_probing : Bool → Lifecycle → Lifecycle
set_active_probing enabled e = record e { active_probing_enabled = enabled }

-- The batch that the prober starts; `none` is the empty list that is returned without one.
pub run_active_probe : (held : ℕ) → List ProbeTarget → Lifecycle → Option Batch
run_active_probe held targets e =
    if e.active_probing_enabled then some (start_batch held targets) else none

-- The calls of the engine and the rounds of its task.
pub data EngineAction : Type 0 where
  start_call : (available : Option (List Text)) (captures : Bool) (now : ℕ) → EngineAction
  stop_call : (answer : ℕ → Reply) (ending : Ending) (now : ℕ) → EngineAction
  flush_round : (ending : Ending) (now : ℕ) → EngineAction
  probing_call : Bool → EngineAction

abbrev pub engine_step : EngineAction → Lifecycle → Lifecycle
engine_step (start_call available captures now) e = (start_engine available captures now e).1
engine_step (stop_call answer ending now) e = (stop_engine answer ending now e).1
engine_step (flush_round ending now) e = periodic_flush ending now e
engine_step (probing_call enabled) e = set_active_probing enabled e

abbrev pub engine_run : List EngineAction → Lifecycle → Lifecycle
engine_run [] e = e
engine_run (a ∷ actions) e = engine_run actions (engine_step a e)
