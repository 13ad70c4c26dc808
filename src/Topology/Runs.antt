-- ===== src/Topology/Runs.antt =====
-- Interleaved runs of the mapper of app/topology/mapper.py: any order of recorded packets,
-- sniffer switches, flushes that begin, and flushes that commit, fail or are cancelled later.
use ot_asset_discovery.Prelude.{
  ℕ, zero, suc, ◌+◌, ◌≡◌, refl, ap, Bool, true, Option, none, some, List, [], ◌∷◌, arith,
  if◌then◌else◌, get_elem?, All, ◌==◌, nat_keys, text_keys,
}
use ot_asset_discovery.Topology.{
  Triple, triple_keys, NewCommunicationEvent, Edges, TopologyMapper, set_sniffer_running,
  record_communication, begin_flush, Ending, committed, failed, cancelled, end_flush,
}
use ot_asset_discovery.Topology.Counts.{
  packets, IsKeyed, packets-observe, packets-persist_edges, packets-restore_edges, observe-IsKeyed,
  restore_edges-IsKeyed, persist_edges-IsKeyed,
}

pub record System : Type 0 where
  pub mapper : TopologyMapper
  pub db : Edges
  -- the snapshots of the flushes that have begun and not ended
  pub in_flight : List Edges
  -- the snapshots of the flushes that have been cancelled, which nothing holds any more
  pub lost : List Edges

pub data Action : Type 0 where
  record_packet : Triple → ℕ → Action
  switch_sniffer : Bool → Action
  start_flush : ℕ → Action
  -- the flush at that place ends at that time
  finish_flush : ℕ → Ending → ℕ → Action

-- The event of the call, if it is a recorded packet of a new path.
abbrev pub event_of : Action → System → Option NewCommunicationEvent
event_of (record_packet t now) s = (record_communication t now s.mapper).1
event_of _ s = none

abbrev pushed : Option Edges → List Edges → List Edges
pushed none flights = flights
pushed (some snapshot) flights = snapshot ∷ flights

abbrev pub remove_at : ℕ → List Edges → List Edges
remove_at i [] = []
remove_at zero (x ∷ xs) = xs
remove_at (suc i) (x ∷ xs) = x ∷ remove_at i xs

-- The snapshots that are lost by an ending.
abbrev dropped : Ending → Edges → List Edges → List Edges
dropped committed snapshot lost = lost
dropped failed snapshot lost = lost
dropped cancelled snapshot lost = snapshot ∷ lost

finish : Option Edges → ℕ → Ending → ℕ → System → System
finish none i ending now s = s
finish (some snapshot) i ending now s =
    let (m, db) = end_flush ending snapshot now s.mapper s.db in
    record {
      mapper = m;
      db = db;
      in_flight = remove_at i s.in_flight;
      lost = dropped ending snapshot s.lost;
    }

unfoldable pub step : Action → System → System
unfolding finish
step (record_packet t now) s = record s { mapper = (record_communication t now s.mapper).0 }
step (switch_sniffer value) s = record s { mapper = set_sniffer_running value s.mapper }
step (start_flush now) s =
    let (m, snapshot) = begin_flush now s.mapper in
    record s { mapper = m; in_flight = pushed snapshot s.in_flight }
step (finish_flush i ending now) s = finish (get_elem? s.in_flight i) i ending now s

unfoldable pub run : List Action → System → System
run [] s = s
run (a ∷ actions) s = run actions (step a s)

abbrev pub in_flights : Triple → List Edges → ℕ
in_flights t [] = 0
in_flights t (snapshot ∷ flights) = packets t snapshot + in_flights t flights

-- The packets of the triple, wherever they are kept.
abbrev pub total : Triple → System → ℕ
total t s = packets t s.db + packets t s.mapper.buffer + in_flights t s.in_flight

-- The packets of the triple that cancelled flushes have lost.
abbrev pub losses : Triple → System → ℕ
losses t s = in_flights t s.lost

-- How often the actions record the triple.
abbrev pub records : Triple → List Action → ℕ
records t [] = 0
records t (record_packet u now ∷ actions) = (if t == u then 1 else 0) + records t actions
records t (switch_sniffer v ∷ actions) = records t actions
records t (start_flush now ∷ actions) = records t actions
records t (finish_flush i c now ∷ actions) = records t actions

pub record IsSound (s : System) : Type 0 where
  pub session : s.mapper.has_session ≡ true
  pub buffer_keyed : IsKeyed s.mapper.buffer
  pub flights_keyed : All IsKeyed s.in_flight
  pub db_keyed : IsKeyed s.db

in_flights-remove_at :
    (t : Triple) (i : ℕ) (flights : List Edges) (snapshot : Edges)
    → get_elem? flights i ≡ some snapshot
    → in_flights t (remove_at i flights) + packets t snapshot ≡ in_flights t flights
in_flights-remove_at t i [] snapshot h = cc
in_flights-remove_at t zero (x ∷ xs) snapshot h = ground arith
in_flights-remove_at t (suc i) (x ∷ xs) snapshot h =
    omega (arith, in_flights-remove_at t i xs snapshot h)

IsKeyed-get_elem :
    (i : ℕ) (flights : List Edges) (snapshot : Edges)
    → All IsKeyed flights
    → get_elem? flights i ≡ some snapshot
    → IsKeyed snapshot × All IsKeyed (remove_at i flights)
IsKeyed-get_elem i [] snapshot h e = cc
IsKeyed-get_elem zero (x ∷ xs) snapshot h e = ground arith
IsKeyed-get_elem (suc i) (x ∷ xs) snapshot h e =
    let r = IsKeyed-get_elem i xs snapshot h.1 e in (r.0, (h.0, r.1))

set_sniffer-kept :
    (v : Bool) (m : TopologyMapper)
    → ((set_sniffer_running v m).buffer ≡ m.buffer)
      × ((set_sniffer_running v m).has_session ≡ m.has_session)
unfolding set_sniffer_running
set_sniffer-kept v m = (ground arith, ground arith)

-- What one action does: it keeps the system sound, and adds just what it records.
abbrev Keeps : Action → System → Type 0
Keeps a s =
    IsSound (step a s)
    × ((t : Triple)
        → total t (step a s) + losses t (step a s) ≡ total t s + losses t s + records t (a ∷ []))

start-Keeps : (now : ℕ) (s : System) → IsSound s → Keeps (start_flush now) s
unfolding step begin_flush
start-Keeps now s h = at_buffer s.mapper.buffer refl
  where
    at_buffer : (b : Edges) → s.mapper.buffer ≡ b → Keeps (start_flush now) s
    at_buffer [] e =
        rw (h.session, e)
          (
            record {
              session = h.session;
              buffer_keyed = h.buffer_keyed;
              flights_keyed = h.flights_keyed;
              db_keyed = h.db_keyed;
            },
            λ t. omega (arith, ap (packets t) e),
          )
    at_buffer (x ∷ xs) e =
        rw (h.session, e)
          (
            record {
              session = h.session;
              buffer_keyed = tt;
              flights_keyed = (rw e at h.buffer_keyed, h.flights_keyed);
              db_keyed = h.db_keyed;
            },
            λ t. omega arith,
          )

record-Keeps : (u : Triple) (now : ℕ) (s : System) → IsSound s → Keeps (record_packet u now) s
unfolding step record_communication
record-Keeps u now s h = (
  record {
    session = h.session;
    buffer_keyed = observe-IsKeyed u now s.mapper.buffer h.buffer_keyed;
    flights_keyed = h.flights_keyed;
    db_keyed = h.db_keyed;
  },
  λ t. omega (arith, packets-observe t u now s.mapper.buffer),
)

switch-Keeps : (v : Bool) (s : System) → IsSound s → Keeps (switch_sniffer v) s
unfolding step
switch-Keeps v s h =
    let kept = set_sniffer-kept v s.mapper in
    (
      record {
        session = rw kept.1 h.session;
        buffer_keyed = rw kept.0 h.buffer_keyed;
        flights_keyed = h.flights_keyed;
        db_keyed = h.db_keyed;
      },
      λ t. omega (arith, ap (packets t) kept.0),
    )

finish-Keeps :
    (i : ℕ) (ending : Ending) (now : ℕ) (s : System)
    → IsSound s
    → Keeps (finish_flush i ending now) s
unfolding step end_flush
finish-Keeps i ending now s h = at_flight (get_elem? s.in_flight i) refl ending
  where
    at_flight :
        (o : Option Edges)
        → get_elem? s.in_flight i ≡ o
        → (c : Ending) → Keeps (finish_flush i c now) s
    at_flight none e c = rw e (h, λ t. omega arith)
    at_flight (some snapshot) e committed =
        let keyed = IsKeyed-get_elem i s.in_flight snapshot h.flights_keyed e in
        rw e (
          record {
            session = h.session;
            buffer_keyed = h.buffer_keyed;
            flights_keyed = keyed.1;
            db_keyed = persist_edges-IsKeyed snapshot s.db h.db_keyed;
          },
          λ t. omega (
            arith,
            packets-persist_edges t snapshot s.db keyed.0,
            in_flights-remove_at t i s.in_flight snapshot e,
          ),
        )
    at_flight (some snapshot) e failed =
        let keyed = IsKeyed-get_elem i s.in_flight snapshot h.flights_keyed e in
        rw e (
          record {
            session = h.session;
            buffer_keyed = restore_edges-IsKeyed snapshot s.mapper.buffer keyed.0 h.buffer_keyed;
            flights_keyed = keyed.1;
            db_keyed = h.db_keyed;
          },
          λ t. omega (
            arith,
            packets-restore_edges t snapshot s.mapper.buffer,
            in_flights-remove_at t i s.in_flight snapshot e,
          ),
        )
    at_flight (some snapshot) e cancelled =
        let keyed = IsKeyed-get_elem i s.in_flight snapshot h.flights_keyed e in
        rw e (
          record {
            session = h.session;
            buffer_keyed = h.buffer_keyed;
            flights_keyed = keyed.1;
            db_keyed = h.db_keyed;
          },
          λ t. omega (arith, in_flights-remove_at t i s.in_flight snapshot e),
        )

step-Keeps : (a : Action) (s : System) → IsSound s → Keeps a s
step-Keeps (record_packet u now) s h = record-Keeps u now s h
step-Keeps (switch_sniffer v) s h = switch-Keeps v s h
step-Keeps (start_flush now) s h = start-Keeps now s h
step-Keeps (finish_flush i c now) s h = finish-Keeps i c now s h

records-cons :
    (t : Triple) (a : Action) (actions : List Action)
    → records t (a ∷ actions) ≡ records t (a ∷ []) + records t actions
records-cons t (record_packet u now) actions = omega arith
records-cons t (switch_sniffer v) actions = omega arith
records-cons t (start_flush now) actions = omega arith
records-cons t (finish_flush i c now) actions = omega arith

-- From a system that has a database and keeps its entries under their triples, whatever the order
-- of packets, sniffer switches and flushes that overlap with them, commit, fail or are cancelled:
-- the table, the buffer, the open snapshots and the snapshots of the cancelled flushes hold
-- together as many packets of each triple as before plus those recorded, so that no packet is
-- counted twice and none is lost but by a cancelled flush; and the system stays such a one.
pub run-total :
    (actions : List Action) (s : System) (t : Triple)
    → IsSound s
    → (total t (run actions s) + losses t (run actions s)
        ≡ total t s + losses t s + records t actions)
      × IsSound (run actions s)
unfolding run
run-total [] s t h = (omega arith, h)
run-total (a ∷ actions) s t h =
    let kept = step-Keeps a s h in
    let later = run-total actions (step a s) t kept.0 in
    (omega (arith, later.0, kept.1 t, records-cons t a actions), later.1)
