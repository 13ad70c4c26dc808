-- ===== src/Detection/Delivery.antt =====
-- Persisting and dispatching, app/detection/change_detector.py `_persist_and_dispatch`: an
-- alert is stored before any callback sees it, and a failing callback holds up no other.
use ot_asset_discovery.Domain.{DeviceFingerprint, Alert}
use ot_asset_discovery.Detection.{
  Supply, ChangeDetector, Event, persisted, dispatched, dispatch, persist_and_dispatch, deliver,
  ExistingDevice, process_fingerprint, check_disappeared_devices,
}
use ot_asset_discovery.Prelude.{
  ℕ, ◌+◌, ◌≡◌, refl, ◌⊎◌, inl, inr, Bool, true, Option, none, some, List, [], ◌∷◌, ◌++◌, Bool-cases,
  All,
}

-- The alert is among the stored ones.
abbrev IsStored : Alert → List Alert → Type 0
IsStored a [] = ⊥
IsStored a (b ∷ stored) = (a ≡ b) ⊎ IsStored a stored

-- Every dispatched alert is stored before, in `stored` or earlier among the events.
abbrev pub PersistedFirst : List Alert → List Event → Type 0
PersistedFirst stored [] = Unit
PersistedFirst stored (persisted a ∷ events) = PersistedFirst (a ∷ stored) events
PersistedFirst stored (dispatched k a ∷ events) = IsStored a stored × PersistedFirst stored events

-- What `events` stores, in front of `stored`.
abbrev after : List Alert → List Event → List Alert
after stored [] = stored
after stored (persisted a ∷ events) = after (a ∷ stored) events
after stored (dispatched k a ∷ events) = after stored events

PersistedFirst-append :
    (stored : List Alert) (xs ys : List Event)
    → PersistedFirst stored xs
    → PersistedFirst (after stored xs) ys
    → PersistedFirst stored (xs ++ ys)
PersistedFirst-append stored [] ys h g = g
PersistedFirst-append stored (persisted a ∷ xs) ys h g =
    PersistedFirst-append (a ∷ stored) xs ys h g
PersistedFirst-append stored (dispatched k a ∷ xs) ys h g =
    (h.0, PersistedFirst-append stored xs ys h.1 g)

dispatch-PersistedFirst :
    (k : ℕ) (callbacks : List (Alert → Bool)) (a : Alert) (stored : List Alert)
    → IsStored a stored
    → PersistedFirst stored (dispatch k callbacks a)
unfolding dispatch
dispatch-PersistedFirst k [] a stored h = tt
dispatch-PersistedFirst k (f ∷ fs) a stored h = elim (Bool-cases (f a)) [
  | inl e ↦ rw e (h, dispatch-PersistedFirst (k + 1) fs a stored h)
  | inr e ↦ rw e (h, dispatch-PersistedFirst (k + 1) fs a stored h)
]

module _ (d : ChangeDetector) (handler : Alert → Bool) (set : d.persist_alert ≡ some handler) where
  persist_and_dispatch-PersistedFirst :
      (a : Alert) (stored : List Alert) → PersistedFirst stored (persist_and_dispatch d a).1
  unfolding persist_and_dispatch
  persist_and_dispatch-PersistedFirst a stored = rw set (elim (Bool-cases (handler a)) [
    | inl e ↦ rw e (dispatch-PersistedFirst 0 d.alert_callbacks a (a ∷ stored) (inl refl))
    | inr e ↦ rw e tt
  ])

  deliver-PersistedFirst :
      (alerts : List Alert) (stored : List Alert) → PersistedFirst stored (deliver d alerts).1
  unfolding deliver
  deliver-PersistedFirst [] stored = tt
  deliver-PersistedFirst (a ∷ alerts) stored = elim (Bool-cases (persist_and_dispatch d a).0) [
    | inl e ↦ rw e (
        PersistedFirst-append stored (persist_and_dispatch d a).1 _
          (persist_and_dispatch-PersistedFirst a stored)
          (deliver-PersistedFirst alerts (after stored (persist_and_dispatch d a).1)))
    | inr e ↦ rw e (persist_and_dispatch-PersistedFirst a stored)
  ]

-- Whatever the handlers and callbacks do, no callback is given an alert that the persist
-- handler has not stored before, neither by a fingerprint nor by a disappearance check.
pub calls-PersistedFirst :
    (s : Supply) (d : ChangeDetector) (handler : Alert → Bool) (fingerprint : DeviceFingerprint)
    (existing : Option ExistingDevice) (devices : List ExistingDevice) (now : ℕ)
    → d.persist_alert ≡ some handler
    → PersistedFirst [] (process_fingerprint s fingerprint existing d).events
      × PersistedFirst [] (check_disappeared_devices s devices now d).events
unfolding process_fingerprint check_disappeared_devices
calls-PersistedFirst s d handler fingerprint none devices now set = (
  deliver-PersistedFirst d handler set _ [],
  deliver-PersistedFirst (record d { disappeared_alerted = _ }) handler set _ [],
)
calls-PersistedFirst s d handler fingerprint (some device) devices now set = (
  deliver-PersistedFirst (record d { disappeared_alerted = _ }) handler set _ [],
  deliver-PersistedFirst (record d { disappeared_alerted = _ }) handler set _ [],
)

-- The indices from k on, one for each callback.
abbrev pub notices : ℕ → List (Alert → Bool) → Alert → List Event
notices k [] a = []
notices k (f ∷ fs) a = dispatched k a ∷ notices (k + 1) fs a

-- Every alert stored, then given to every callback in order, and so on with the next alert.
abbrev pub deliveries : List (Alert → Bool) → List Alert → List Event
deliveries callbacks [] = []
deliveries callbacks (a ∷ alerts) =
    (persisted a ∷ notices 0 callbacks a) ++ deliveries callbacks alerts

dispatch-eq-notices :
    (k : ℕ) (callbacks : List (Alert → Bool)) (a : Alert)
    → dispatch k callbacks a ≡ notices k callbacks a
unfolding dispatch
dispatch-eq-notices k [] a = refl
dispatch-eq-notices k (f ∷ fs) a = elim (Bool-cases (f a)) [
  | inl e ↦ rw (e, dispatch-eq-notices (k + 1) fs a)
  | inr e ↦ rw (e, dispatch-eq-notices (k + 1) fs a)
]

-- If the persist handler returns for each of the alerts, the call returns too, and each alert
-- is stored and then given to every callback, whichever of the callbacks raise.
pub deliver-eq-deliveries :
    (d : ChangeDetector) (handler : Alert → Bool) (alerts : List Alert)
    → d.persist_alert ≡ some handler
    → All (λ a. handler a ≡ true) alerts
    → deliver d alerts ≡ (true, deliveries d.alert_callbacks alerts)
unfolding deliver persist_and_dispatch
deliver-eq-deliveries d handler [] set h = refl
deliver-eq-deliveries d handler (a ∷ alerts) set h =
    rw
      (
        set,
        h.0,
        deliver-eq-deliveries d handler alerts set h.1,
        dispatch-eq-notices 0 d.alert_callbacks a,
      )
      refl
