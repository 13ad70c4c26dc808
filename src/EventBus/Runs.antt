-- ===== src/EventBus/Runs.antt =====
-- Any sequence of calls of app/event_bus.py, against a bus that is a list of handlers for each
-- event type.
use ot_asset_discovery.EventBus.{
  all_event_types, EventBus, handlers_of, subscribe, remove_first, unsubscribe, clear, exceptions,
  gather, emit,
}
use ot_asset_discovery.Prelude.{
  ℕ, ◌≡◌, refl, ap, ◌∙◌, inl, inr, true, false, Option, none, some, List, [], ◌∷◌, ◌++◌, arith,
  if◌then◌else◌, Bool-cases, Option-cases, ◌==◌, nat_keys, Text, text_eq_iff, text_keys, contains,
}
use ot_asset_discovery.Prelude.Dict.{lookup, insert, lookup-insert}

pub data Operation : Type 0 where
  subscribing unsubscribing : Text → ℕ → Operation
  clearing : Operation

abbrev pub or_bus : Option EventBus → EventBus → EventBus
or_bus none bus = bus
or_bus (some bus') bus = bus'

-- A call that raises leaves the bus as it is.
abbrev pub step : Operation → EventBus → EventBus
step (subscribing e h) bus = or_bus (subscribe e h bus) bus
step (unsubscribing e h) bus = (unsubscribe e h bus).1
step clearing bus = clear bus

abbrev pub run : List Operation → EventBus → EventBus
run [] bus = bus
run (o ∷ ops) bus = run ops (step o bus)

-- The handlers of one event type alone.
abbrev pub step_one : Text → Operation → List ℕ → List ℕ
step_one e (subscribing f h) hs = if f == e then hs ++ h ∷ [] else hs
step_one e (unsubscribing f h) hs = if f == e then remove_first h hs else hs
step_one e clearing hs = []

abbrev pub run_one : Text → List Operation → List ℕ → List ℕ
run_one e [] hs = hs
run_one e (o ∷ ops) hs = run_one e ops (step_one e o hs)

handlers_of-insert :
    (e f : Text) (hs : List ℕ) (bus : EventBus)
    → handlers_of e (insert f hs bus) ≡ (if f == e then hs else handlers_of e bus)
handlers_of-insert e f hs bus =
    ground (arith, lookup-insert f e hs bus, text_eq_iff f e, text_eq_iff e f)

at_key :
    (e f : Text) (bus : EventBus) (step : List ℕ → List ℕ)
    → (if f == e then step (handlers_of f bus) else handlers_of e bus)
      ≡ (if f == e then step (handlers_of e bus) else handlers_of e bus)
at_key e f bus step = elim (Bool-cases (f == e)) [
  | inl q ↦ rw (q, (text_eq_iff f e).0 q) refl
  | inr q ↦ rw q refl
]

unsupported :
    (e f : Text)
    → contains e all_event_types ≡ true
    → contains f all_event_types ≡ false
    → (f == e) ≡ false
unsupported e f known k = elim (Bool-cases (f == e)) [
  | inl q ↦ cc (known, k, (text_eq_iff f e).0 q)
  | inr q ↦ q
]

unchanged :
    (e f : Text) (bus : EventBus) (step : List ℕ → List ℕ)
    → step (handlers_of f bus) ≡ handlers_of f bus
    → handlers_of e bus ≡ (if f == e then step (handlers_of f bus) else handlers_of e bus)
unchanged e f bus step k = elim (Bool-cases (f == e)) [
  | inl q ↦ rw (q, k, (text_eq_iff f e).0 q) refl
  | inr q ↦ rw q refl
]

remove_first_absent : (h : ℕ) (hs : List ℕ) → contains h hs ≡ false → remove_first h hs ≡ hs
remove_first_absent h [] k = refl
remove_first_absent h (x ∷ hs) k = ground (arith, remove_first_absent h hs)

handlers_of-unsubscribe :
    (e f : Text) (h : ℕ) (bus : EventBus)
    → handlers_of e (unsubscribe f h bus).1
      ≡ (if f == e then remove_first h (handlers_of f bus) else handlers_of e bus)
unfolding unsubscribe
handlers_of-unsubscribe e f h bus = elim (Option-cases (lookup f bus)) [
  | inl q ↦
      let s : (unsubscribe f h bus).1 ≡ bus = rw (unsubscribe, q) refl in
      let empty : handlers_of f bus ≡ [] = rw (handlers_of, q) refl in
      ap (handlers_of e) s ∙ unchanged e f bus (remove_first h) (rw empty refl)
  | inr (hs, q) ↦
      let these : handlers_of f bus ≡ hs = rw (handlers_of, q) refl in
      elim (Bool-cases (contains h hs)) [
        | inl k ↦
            let s : (unsubscribe f h bus).1 ≡ insert f (remove_first h hs) bus =
              rw (unsubscribe, q, k) refl in
            rw these (ap (handlers_of e) s ∙ handlers_of-insert e f (remove_first h hs) bus)
        | inr k ↦
            let s : (unsubscribe f h bus).1 ≡ bus = rw (unsubscribe, q, k) refl in
            ap (handlers_of e) s
            ∙ unchanged e f bus (remove_first h) (rw these (remove_first_absent h hs k))
      ]
]

step-one :
    (e : Text) (o : Operation) (bus : EventBus)
    → contains e all_event_types ≡ true
    → handlers_of e (step o bus) ≡ step_one e o (handlers_of e bus)
unfolding subscribe unsubscribe
step-one e (subscribing f h) bus known = elim (Bool-cases (contains f all_event_types)) [
  | inl k ↦
      let s : step (subscribing f h) bus ≡ insert f (handlers_of f bus ++ h ∷ []) bus = rw k refl in
      ap (handlers_of e) s
      ∙ handlers_of-insert e f (handlers_of f bus ++ h ∷ []) bus
      ∙ at_key e f bus (λ hs. hs ++ h ∷ [])
  | inr k ↦
      let s : step (subscribing f h) bus ≡ bus = rw k refl in
      ap (handlers_of e) s ∙ rw (unsupported e f known k) refl
]
step-one e (unsubscribing f h) bus known =
    handlers_of-unsubscribe e f h bus ∙ at_key e f bus (remove_first h)
step-one e clearing bus known = refl

-- After any calls, the handlers of a supported event type are those subscribed to it, in order,
-- less the first one of each that was unsubscribed from it, since the bus was last cleared.
run-run_one :
    (e : Text) (ops : List Operation) (bus : EventBus)
    → contains e all_event_types ≡ true
    → handlers_of e (run ops bus) ≡ run_one e ops (handlers_of e bus)
run-run_one e [] bus known = refl
run-run_one e (o ∷ ops) bus known =
    rw (run-run_one e ops (step o bus) known, step-one e o bus known) refl

abbrev pub or_skip {ℓ} : {E : Type ℓ} → Option E → List E → List E
or_skip none l = l
or_skip (some x) l = x ∷ l

exceptions-or_skip {ℓ} :
    {E : Type ℓ} (o : Option E) (results : List (Option E))
    → exceptions (o ∷ results) ≡ or_skip o (exceptions results)
unfolding exceptions
exceptions-or_skip none results = refl
exceptions-or_skip (some x) results = refl

module _ {P E : Type 0} (invoke : ℕ → P → Option E) where
  -- the exceptions of the handlers that raise
  abbrev pub raised : P → List ℕ → List E
  raised payload [] = []
  raised payload (h ∷ hs) = or_skip (invoke h payload) (raised payload hs)

  abbrev pub called : P → List ℕ → List (ℕ × P)
  called payload [] = []
  called payload (h ∷ hs) = (h, payload) ∷ called payload hs

  gather-called : (payload : P) (hs : List ℕ) → (gather invoke hs payload).0 ≡ called payload hs
  unfolding gather
  gather-called payload [] = refl
  gather-called payload (h ∷ hs) = rw (gather-called payload hs) refl

  gather-raised :
      (payload : P) (hs : List ℕ) → exceptions (gather invoke hs payload).1 ≡ raised payload hs
  unfolding gather exceptions
  gather-raised payload [] = refl
  gather-raised payload (h ∷ hs) =
      exceptions-or_skip (invoke h payload) (gather invoke hs payload).1
      ∙ ap (or_skip (invoke h payload)) (gather-raised payload hs)

  -- Emitting a supported event after any calls on an empty bus gives the payload to each of the
  -- handlers that are then subscribed, in order, whichever of them raise, and returns exactly
  -- the exceptions of those that do; emitting any other event raises.
  pub emit-run :
      (e : Text) (payload : P) (ops : List Operation)
      → emit invoke e payload (run ops []) ≡ (
          if contains e all_event_types
          then some (called payload (run_one e ops []), raised payload (run_one e ops []))
          else none)
  unfolding emit
  emit-run e payload ops = elim (Bool-cases (contains e all_event_types)) [
    | inl known ↦ rw (known, gather-called, gather-raised, run-run_one e ops [] known) refl
    | inr unknown ↦ rw unknown refl
  ]
