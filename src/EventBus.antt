-- ===== src/EventBus.antt =====
-- app/event_bus.py. An event type is a text. Handlers are told apart by a number; what a handler
-- does with a payload is a parameter: `none` where it returns, and the exception where it raises.
-- The lock and the logging are left out: nothing reads them.
pub mod Runs
mod Tests
use ot_asset_discovery.Prelude.{
  ℕ, Bool, true, false, Option, none, some, List, [], ◌∷◌, ◌++◌, nat_eq, if◌then◌else◌, length, Eq,
  nat_keys, Text, codes, text_keys, contains,
}
use ot_asset_discovery.Prelude.Dict.{Dict, lookup, insert}

-- ALL_EVENT_TYPES
abbrev pub all_event_types : List Text
all_event_types =
    codes "device_updated"
    ∷ codes "topology_updated"
    ∷ codes "alert_generated"
    ∷ codes "scan_completed"
    ∷ []

-- `_subscribers`
abbrev pub EventBus : Type 0
EventBus = Dict Text (List ℕ)

-- `self._subscribers.get(event_type, [])`
abbrev pub handlers_of : Text → EventBus → List ℕ
handlers_of e bus = elim (lookup e bus) [ none ↦ [] | some hs ↦ hs ]

-- `none` is the ValueError for an unknown event type.
pub subscribe : Text → ℕ → EventBus → Option EventBus
subscribe e h bus =
    if contains e all_event_types then some (insert e (handlers_of e bus ++ h ∷ []) bus) else none

-- `list.remove`: the first occurrence
abbrev pub remove_first : ℕ → List ℕ → List ℕ
remove_first h [] = []
remove_first h (x ∷ xs) = let rest = remove_first h xs in if nat_eq x h then xs else x ∷ rest

-- Whether the handler was found, and the bus; `remove` raises where it is not in the list.
pub unsubscribe : Text → ℕ → EventBus → Bool × EventBus
unsubscribe e h bus = elim (lookup e bus) [
  | none ↦ (false, bus)
  | some hs ↦ if contains h hs then (true, insert e (remove_first h hs) bus) else (false, bus)
]

pub get_subscriber_count : Text → EventBus → ℕ
get_subscriber_count e bus = length (handlers_of e bus)

abbrev pub clear : EventBus → EventBus
clear bus = []

-- the results that are exceptions
pub exceptions {ℓ} : {E : Type ℓ} → List (Option E) → List E
exceptions [] = []
exceptions (none ∷ results) = exceptions results
exceptions (some x ∷ results) = x ∷ exceptions results

module _ {P E : Type 0} (invoke : ℕ → P → Option E) where
  -- `_invoke_handler` for each handler: the calls that are made, and their results in order.
  -- The gather waits for all, whichever of them raise.
  pub gather : List ℕ → P → List (ℕ × P) × List (Option E)
  gather [] payload = ([], [])
  gather (h ∷ handlers) payload =
      let (calls, results) = gather handlers payload in
      ((h, payload) ∷ calls, invoke h payload ∷ results)

  -- The calls and the list that is returned; `none` is the ValueError.
  pub emit : Text → P → EventBus → Option (List (ℕ × P) × List E)
  emit e payload bus =
      if contains e all_event_types
      then (let (calls, results) = gather (handlers_of e bus) payload in
          some (calls, exceptions results))
      else none
