-- ===== src/EventBus/Tests.antt =====
-- The event bus with three handlers, the second of which raises.
use ot_asset_discovery.EventBus.{all_event_types, emit}
use ot_asset_discovery.EventBus.Runs.{
  Operation, subscribing, unsubscribing, run, run_one, raised, called, emit-run,
}
use ot_asset_discovery.Prelude.{
  ℕ, ◌≡◌, refl, Option, none, some, List, [], ◌∷◌, nat_eq, if◌then◌else◌, nat_keys, Text, codes,
  text_keys, contains,
}

abbrev answers : ℕ → Text → Option Text
answers h payload = if nat_eq h 2 then some (codes "boom") else none

abbrev alerts : Text
alerts = codes "alert_generated"

abbrev ops : List Operation
ops =
    subscribing alerts 1
    ∷ subscribing alerts 2
    ∷ subscribing (codes "nonsense") 4
    ∷ subscribing alerts 3
    ∷ unsubscribing alerts 1
    ∷ []

two-called : run_one alerts ops [] ≡ 2 ∷ 3 ∷ []
two-called = refl

emit-run_example : emit answers alerts (codes "p") (run ops []) ≡ (
    if contains alerts all_event_types
    then some (
      called answers (codes "p") (run_one alerts ops []),
      raised answers (codes "p") (run_one alerts ops []),
    )
    else none)
emit-run_example = emit-run answers alerts (codes "p") ops
