-- ===== src/Detection/History.antt =====
-- Runs of a detector, app/detection/change_detector.py: across any calls, a device is alerted
-- as disappeared again only after it has been detected in between.
use ot_asset_discovery.Prelude.{
  ℕ, ◌≡◌, refl, ap, inl, inr, Bool, true, false, not, ◌&&◌, ◌||◌, Option, none, some, List, [], ◌∷◌,
  ◌++◌, arith, nat_eq, nat_eq→eq, Bool-cases, Option-cases, nat_keys, text_keys, eq_refl, contains,
  Distinct, set_discard, contains-set_discard,
}
use ot_asset_discovery.Topology.{triple_keys}
use ot_asset_discovery.Domain.{DeviceFingerprint, Alert}
use ot_asset_discovery.Detection.{
  Supply, ChangeDetector, set_timeout, on_alert, set_persist_handler, clear_disappeared_state,
  persist_and_dispatch, deliver, ExistingDevice, process_fingerprint, scan_devices,
  check_disappeared_devices,
}
use ot_asset_discovery.Detection.Disappearance.{
  subjects, overdue_entry, scan_devices-subjects, alerts_of, check_disappeared_devices-exact,
  check_disappeared_devices-ids,
}

-- The calls of a detector's methods, with their arguments and their supply.
pub data Call : Type 0 where
  fingerprint_call : Supply → DeviceFingerprint → Option ExistingDevice → Call
  check_call : Supply → List ExistingDevice → ℕ → Call
  clear_call : ℕ → Call
  timeout_call : ℕ → Call
  on_alert_call : (Alert → Bool) → Call
  persist_call : (Alert → Bool) → Call

-- What the calls show of the devices.
pub data Entry : Type 0 where
  lost : ℕ → Entry
  seen : ℕ → Entry

abbrev losses : List ℕ → List Entry
losses [] = []
losses (id ∷ ids) = lost id ∷ losses ids

abbrev next_state : Call → ChangeDetector → ChangeDetector
next_state (fingerprint_call s f existing) d = (process_fingerprint s f existing d).state
next_state (check_call s devices now) d = (check_disappeared_devices s devices now d).state
next_state (clear_call id) d = clear_disappeared_state id d
next_state (timeout_call t) d = (set_timeout t d).0
next_state (on_alert_call f) d = on_alert f d
next_state (persist_call f) d = set_persist_handler f d

abbrev entries : Call → ChangeDetector → List Entry
entries (fingerprint_call s f none) d = []
entries (fingerprint_call s f (some device)) d = seen device.id ∷ []
entries (check_call s devices now) d =
    losses (subjects (alerts_of (check_disappeared_devices s devices now d)))
entries (clear_call id) d = seen id ∷ []
entries _ d = []

unfoldable pub history : List Call → ChangeDetector → List Entry
history [] d = []
history (c ∷ calls) d = entries c d ++ history calls (next_state c d)

-- No device is lost while it counts as lost; a detection ends that.
abbrev pub Alternates : List ℕ → List Entry → Type 0
Alternates gone [] = Unit
Alternates gone (lost id ∷ es) = (contains id gone ≡ false) × Alternates (id ∷ gone) es
Alternates gone (seen id ∷ es) = Alternates (set_discard id gone) es

abbrev Within : List ℕ → List ℕ → Type 0
Within xs ys = (j : ℕ) → contains j ys ≡ false → contains j xs ≡ false

Alternates-mono :
    (xs ys : List ℕ) (es : List Entry) → Within xs ys → Alternates ys es → Alternates xs es
Alternates-mono xs ys [] w h = tt
Alternates-mono xs ys (lost id ∷ es) w h =
    (w id h.0, Alternates-mono (id ∷ xs) (id ∷ ys) es (λ j e. ground (arith, w j)) h.1)
Alternates-mono xs ys (seen id ∷ es) w h =
    Alternates-mono (set_discard id xs) (set_discard id ys) es
      (λ j e. ground (arith, w j, contains-set_discard id j xs, contains-set_discard id j ys)) h

Alternates-losses :
    (gone : List ℕ) (ids : List ℕ) (later : List ℕ) (es : List Entry)
    → ((j : ℕ) → contains j ids ≡ true → contains j gone ≡ false)
    → Distinct ids
    → ((j : ℕ) → contains j later ≡ false → (contains j gone || contains j ids) ≡ false)
    → Alternates later es
    → Alternates gone (losses ids ++ es)
Alternates-losses gone [] later es fresh dist w h =
    Alternates-mono gone later es (λ j e. ground (arith, w j)) h
Alternates-losses gone (id ∷ ids) later es fresh dist w h = (
  fresh id (rw eq_refl),
  Alternates-losses (id ∷ gone) ids later es (λ j e. ground (arith, fresh j, not_head j e)) dist.1
      (λ j e. ground (arith, w j)) h,
)
  where
    not_head : (j : ℕ) → contains j ids ≡ true → nat_eq j id ≡ false
    not_head j e = elim (Bool-cases (nat_eq j id)) [
      | inl q ↦ cc (ap (λ i. contains i ids) (nat_eq→eq j id q), dist.0)
      | inr q ↦ q
    ]

check-Alternates :
    (s : Supply) (devices : List ExistingDevice) (now : ℕ) (d : ChangeDetector) (es : List Entry)
    → Alternates (check_disappeared_devices s devices now d).state.disappeared_alerted es
    → Alternates d.disappeared_alerted
        (losses (subjects (alerts_of (check_disappeared_devices s devices now d))) ++ es)
check-Alternates s devices now d es h =
    elim (Option-cases (check_disappeared_devices s devices now d).alerts) [
      | inl e ↦ rw e (
          Alternates-mono _ _ es
            (λ j q. ground (arith, q, check_disappeared_devices-ids s devices now d j)) h)
      | inr (alerts, e) ↦ rw e (
          Alternates-losses d.disappeared_alerted (subjects alerts) _ es
            (λ j q. ground (arith, q, check_disappeared_devices-exact s devices now d alerts j e))
            (check_disappeared_devices-exact s devices now d alerts 0 e).1
            (λ j q. ground (arith, q, check_disappeared_devices-exact s devices now d alerts j e))
            h)
    ]

set_timeout-alerted :
    (t : ℕ) (d : ChangeDetector) → (set_timeout t d).0.disappeared_alerted ≡ d.disappeared_alerted
unfolding set_timeout
set_timeout-alerted t d = ground arith

entries-Alternates :
    (c : Call) (d : ChangeDetector) (es : List Entry)
    → Alternates (next_state c d).disappeared_alerted es
    → Alternates d.disappeared_alerted (entries c d ++ es)
unfolding process_fingerprint clear_disappeared_state on_alert set_persist_handler
entries-Alternates (fingerprint_call s f none) d es h = h
entries-Alternates (fingerprint_call s f (some device)) d es h = h
entries-Alternates (check_call s devices now) d es h = check-Alternates s devices now d es h
entries-Alternates (clear_call id) d es h = h
entries-Alternates (timeout_call t) d es h = rw (← set_timeout-alerted t d) h
entries-Alternates (on_alert_call f) d es h = h
entries-Alternates (persist_call f) d es h = h

-- Whatever the calls, their order, the times and the handlers: a device that does not count as
-- alerted at the start is reported lost at most once before it is detected again, and so on.
pub history-Alternates :
    (calls : List Call) (d : ChangeDetector) → Alternates d.disappeared_alerted (history calls d)
unfolding history
history-Alternates [] d = tt
history-Alternates (c ∷ calls) d =
    entries-Alternates c d (history calls (next_state c d))
      (history-Alternates calls (next_state c d))

deliver-broken :
    (d : ChangeDetector) (broken : Alert → Bool) (alerts : List Alert) (id : ℕ)
    → d.persist_alert ≡ some broken
    → ((a : Alert) → broken a ≡ false)
    → contains id (subjects alerts) ≡ true
    → deliver d alerts ≡ (false, [])
unfolding deliver persist_and_dispatch
deliver-broken d broken [] id set fails h = cc
deliver-broken d broken (a ∷ alerts) id set fails h = rw (set, fails a)

failed_check :
    (s : Supply) (devices : List ExistingDevice) (now : ℕ) (d : ChangeDetector)
    (broken : Alert → Bool) (id : ℕ)
    → d.persist_alert ≡ some broken
    → ((a : Alert) → broken a ≡ false)
    → contains id d.disappeared_alerted ≡ false
    → overdue_entry d now id devices ≡ true
    → ((check_disappeared_devices s devices now d).alerts ≡ none)
      × ((check_disappeared_devices s devices now d).events ≡ [])
unfolding check_disappeared_devices
failed_check s devices now d broken id set fails fresh overdue =
    rw
      (deliver-broken
        (record d {
          disappeared_alerted = (scan_devices s 0 d now devices d.disappeared_alerted).0;
        })
        broken (scan_devices s 0 d now devices d.disappeared_alerted).1 id set fails
        (rw (scan_devices-subjects s d now 0 devices d.disappeared_alerted id, fresh, overdue)))
      (refl, refl)

-- The device is detected, or cleared, by none of the calls.
abbrev pub undetected : ℕ → List Call → Bool
undetected id [] = true
undetected id (fingerprint_call s f none ∷ calls) = undetected id calls
undetected id (fingerprint_call s f (some device) ∷ calls) =
    not (nat_eq device.id id) && undetected id calls
undetected id (check_call s devices now ∷ calls) = undetected id calls
undetected id (clear_call k ∷ calls) = not (nat_eq k id) && undetected id calls
undetected id (timeout_call t ∷ calls) = undetected id calls
undetected id (on_alert_call f ∷ calls) = undetected id calls
undetected id (persist_call f ∷ calls) = undetected id calls

-- No check reports the device lost.
abbrev pub never_lost : ℕ → List Entry → Bool
never_lost id [] = true
never_lost id (lost k ∷ es) = not (nat_eq k id) && never_lost id es
never_lost id (seen k ∷ es) = never_lost id es

never_lost-append :
    (id : ℕ) (xs ys : List Entry)
    → never_lost id (xs ++ ys) ≡ (never_lost id xs && never_lost id ys)
never_lost-append id [] ys = refl
never_lost-append id (lost k ∷ xs) ys = ground (arith, never_lost-append id xs ys)
never_lost-append id (seen k ∷ xs) ys = never_lost-append id xs ys

never_lost-losses : (id : ℕ) (ids : List ℕ) → never_lost id (losses ids) ≡ not (contains id ids)
never_lost-losses id [] = refl
never_lost-losses id (k ∷ ids) = ground (arith, never_lost-losses id ids)

-- A call that does not detect a device which counts as alerted leaves it so and does not report it.
abbrev Silent : ℕ → Call → ChangeDetector → Type 0
Silent id c d =
    (contains id (next_state c d).disappeared_alerted ≡ true) × (never_lost id (entries c d) ≡ true)

call-Silent :
    (id : ℕ) (c : Call) (d : ChangeDetector)
    → undetected id (c ∷ []) ≡ true
    → contains id d.disappeared_alerted ≡ true
    → Silent id c d
unfolding process_fingerprint clear_disappeared_state on_alert set_persist_handler
call-Silent id (fingerprint_call s f none) d u h = (h, refl)
call-Silent id (fingerprint_call s f (some device)) d u h =
    (ground (arith, u, h, contains-set_discard device.id id d.disappeared_alerted), refl)
call-Silent id (check_call s devices now) d u h = (
  rw (check_disappeared_devices-ids s devices now d id) (ground (arith, h)),
  elim (Option-cases (check_disappeared_devices s devices now d).alerts) [
    | inl e ↦ rw e refl
    | inr (alerts, e) ↦
        rw (e, never_lost-losses id (subjects alerts))
          (ground (arith, h, check_disappeared_devices-exact s devices now d alerts id e))
  ],
)
call-Silent id (clear_call k) d u h =
    (ground (arith, u, h, contains-set_discard k id d.disappeared_alerted), refl)
call-Silent id (timeout_call t) d u h = (rw (set_timeout-alerted t d) h, refl)
call-Silent id (on_alert_call f) d u h = (h, refl)
call-Silent id (persist_call f) d u h = (h, refl)

undetected-cons :
    (id : ℕ) (c : Call) (calls : List Call)
    → undetected id (c ∷ calls) ≡ (undetected id (c ∷ []) && undetected id calls)
undetected-cons id (fingerprint_call s f none) calls = refl
undetected-cons id (fingerprint_call s f (some device)) calls = ground arith
undetected-cons id (check_call s devices now) calls = refl
undetected-cons id (clear_call k) calls = ground arith
undetected-cons id (timeout_call t) calls = refl
undetected-cons id (on_alert_call f) calls = refl
undetected-cons id (persist_call f) calls = refl

history-silent :
    (id : ℕ) (calls : List Call) (d : ChangeDetector)
    → undetected id calls ≡ true
    → contains id d.disappeared_alerted ≡ true
    → never_lost id (history calls d) ≡ true
unfolding history
history-silent id [] d u h = refl
history-silent id (c ∷ calls) d u h =
    let both = undetected-cons id c calls in
    let now = call-Silent id c d (ground (arith, both, u)) h in
    let later = history-silent id calls (next_state c d) (ground (arith, both, u)) now.0 in
    ground
      (arith, now.1, later, never_lost-append id (entries c d) (history calls (next_state c d)))

-- Where the persist handler raises on every alert, a check that finds a device overdue which does
-- not count as alerted raises, and stores and dispatches nothing; and whatever calls come later, in
-- any order, with any devices, times and handlers, no check that returns reports that device lost
-- as long as none of the calls detects or clears it.
pub failed_check_loses :
    (s : Supply) (devices : List ExistingDevice) (now : ℕ) (d : ChangeDetector)
    (broken : Alert → Bool) (id : ℕ) (calls : List Call)
    → d.persist_alert ≡ some broken
    → ((a : Alert) → broken a ≡ false)
    → contains id d.disappeared_alerted ≡ false
    → overdue_entry d now id devices ≡ true
    → undetected id calls ≡ true
    → ((check_disappeared_devices s devices now d).alerts ≡ none)
      × ((check_disappeared_devices s devices now d).events ≡ [])
      × (never_lost id (history calls (check_disappeared_devices s devices now d).state) ≡ true)
failed_check_loses s devices now d broken id calls set fails fresh overdue quiet =
    let failed = failed_check s devices now d broken id set fails fresh overdue in
    (
      failed.0,
      failed.1,
      history-silent id calls (check_disappeared_devices s devices now d).state quiet
          (rw (check_disappeared_devices-ids s devices now d id, overdue) (ground arith)),
    )
