-- ===== src/Discovery/Lifecycle/Synced.antt =====
-- The switches of the engine in app/discovery_engine.py and of the parts that it starts and stops.
use ot_asset_discovery.Prelude.{◌≡◌, Bool, true, false, if◌then◌else◌}
use ot_asset_discovery.Discovery.Lifecycle.{
  Lifecycle, StopResult, engine_stopped, engine_not_running,
}
use ot_asset_discovery.Capture.Sniffer.{
  PassiveSniffer, Started, started, already_running, interface_error, Effects,
}

-- The engine runs exactly while the sniffer captures, while the mapper takes the sniffer to run,
-- and while there is a task for the periodic flush.
abbrev pub IsSynced : Lifecycle → Type 0
IsSynced e =
    (e.sniffer.is_running ≡ e.is_running)
    × (e.mapper.sniffer_running ≡ e.is_running)
    × (e.flush_task ≡ e.is_running)

-- What the sniffer's `start` leaves of its switch.
abbrev Switches : Started → PassiveSniffer → PassiveSniffer → Type 0
Switches started s s' = s'.is_running ≡ true
Switches already_running s s' = s'.is_running ≡ s.is_running
Switches interface_error s s' = s'.is_running ≡ s.is_running

abbrev HasSwitched : PassiveSniffer → Started × (Effects × PassiveSniffer) → Type 0
HasSwitched s (r, (effects, s')) = Switches r s s'

-- A stop does what it is for: `before` says whether the engine ran, `r` is what it left.
abbrev pub HasStopped : (before : Bool) → StopResult × Lifecycle → Type 0
HasStopped before r =
    (r.0 ≡ (if before then engine_stopped else engine_not_running))
    × IsSynced r.1
    × (r.1.is_running ≡ false)
