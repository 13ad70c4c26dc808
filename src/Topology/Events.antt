-- ===== src/Topology/Events.antt =====
-- Which calls of `record_communication` of app/topology/mapper.py give an event: the first of
-- each path after the sniffer has started.
use ot_asset_discovery.Prelude.{
  ℕ, ◌≡◌, refl, ap, Bool, true, false, not, ◌&&◌, ◌||◌, Option, none, some, List, [], ◌∷◌, arith,
  if◌then◌else◌, is_some, get_elem?, ◌==◌, nat_keys, text_keys, contains,
}
use ot_asset_discovery.Topology.{
  Triple, triple_eq_iff, triple_keys, Edges, TopologyMapper, set_sniffer_running,
  record_communication, begin_flush, Ending, committed, failed, cancelled, end_flush,
}
use ot_asset_discovery.Topology.Runs.{
  System, Action, record_packet, switch_sniffer, start_flush, finish_flush, event_of, step, run,
}

-- Whether a packet of the triple has been recorded since the sniffer last started: whether the
-- sniffer runs and whether there was one at the start, then the actions in order.
abbrev pub seen_since : Triple → Bool → Bool → List Action → Bool
seen_since t running seen [] = seen
seen_since t running seen (record_packet u now ∷ actions) =
    seen_since t running (t == u || seen) actions
seen_since t running seen (switch_sniffer v ∷ actions) =
    seen_since t v (if v && not running then false else seen) actions
seen_since t running seen (start_flush now ∷ actions) = seen_since t running seen actions
seen_since t running seen (finish_flush i c now ∷ actions) = seen_since t running seen actions

pub begin_flush-observed :
    (now : ℕ) (m : TopologyMapper)
    → ((begin_flush now m).0.observed_triples ≡ m.observed_triples)
      × ((begin_flush now m).0.sniffer_running ≡ m.sniffer_running)
unfolding begin_flush
begin_flush-observed now m = (ground arith, ground arith)

pub end_flush-running :
    (ending : Ending) (snapshot : Edges) (now : ℕ) (m : TopologyMapper) (db : Edges)
    → (end_flush ending snapshot now m db).0.sniffer_running ≡ m.sniffer_running
unfolding end_flush
end_flush-running committed snapshot now m db = refl
end_flush-running failed snapshot now m db = refl
end_flush-running cancelled snapshot now m db = refl

pub set_sniffer-observed :
    (v : Bool) (m : TopologyMapper) (t : Triple)
    → (contains t (set_sniffer_running v m).observed_triples
        ≡ (if v && not m.sniffer_running then false else contains t m.observed_triples))
      × ((set_sniffer_running v m).sniffer_running ≡ v)
unfolding set_sniffer_running
set_sniffer-observed v m t = (ground arith, ground arith)

record-observed :
    (u : Triple) (now : ℕ) (m : TopologyMapper) (t : Triple)
    → (contains t (record_communication u now m).0.observed_triples
        ≡ (t == u || contains t m.observed_triples))
      × ((record_communication u now m).0.sniffer_running ≡ m.sniffer_running)
unfolding record_communication
record-observed u now m t = (ground (arith, triple_eq_iff t u, same), refl)
  where
    same : (t == u) ≡ true → contains t m.observed_triples ≡ contains u m.observed_triples
    same e = ap (λ x. contains x m.observed_triples) ((triple_eq_iff t u).0 e)

-- After the actions the triple is among the observed ones, and the sniffer runs, as
-- `seen_since` says.
abbrev Agrees : Triple → List Action → System → Type 0
Agrees t actions s =
    contains t (run actions s).mapper.observed_triples
    ≡ seen_since t s.mapper.sniffer_running (contains t s.mapper.observed_triples) actions

-- `a` leaves the observed triples and the switch alone.
abbrev Leaves : Action → System → Type 0
Leaves a s =
    ((step a s).mapper.observed_triples ≡ s.mapper.observed_triples)
    × ((step a s).mapper.sniffer_running ≡ s.mapper.sniffer_running)

start-Leaves : (now : ℕ) (s : System) → Leaves (start_flush now) s
unfolding step
start-Leaves now s = begin_flush-observed now s.mapper

finish-Leaves : (i : ℕ) (c : Ending) (now : ℕ) (s : System) → Leaves (finish_flush i c now) s
unfolding step end_flush
finish-Leaves i c now s = at_flight (get_elem? s.in_flight i) refl c
  where
    at_flight :
        (o : Option Edges)
        → get_elem? s.in_flight i ≡ o
        → (c : Ending) → Leaves (finish_flush i c now) s
    at_flight none e c = rw e (refl, refl)
    at_flight (some snapshot) e committed = rw e (refl, refl)
    at_flight (some snapshot) e failed = rw e (refl, refl)
    at_flight (some snapshot) e cancelled = rw e (refl, refl)

at_state :
    (t : Triple) (actions : List Action) (s : System) (running seen : Bool)
    → contains t s.mapper.observed_triples ≡ seen
    → s.mapper.sniffer_running ≡ running
    → Agrees t actions s
    → contains t (run actions s).mapper.observed_triples ≡ seen_since t running seen actions
at_state t actions s running seen p q later = cc

run-Agrees : (t : Triple) (actions : List Action) (s : System) → Agrees t actions s
unfolding run
run-Agrees t [] s = refl
run-Agrees t (record_packet u now ∷ actions) s =
    let r = record-observed u now s.mapper t in
    at_state t actions (step (record_packet u now) s) _ _ (unfold step in r.0) (unfold step in r.1)
      (run-Agrees t actions _)
run-Agrees t (switch_sniffer v ∷ actions) s =
    let r = set_sniffer-observed v s.mapper t in
    at_state t actions (step (switch_sniffer v) s) _ _ (unfold step in r.0) (unfold step in r.1)
      (run-Agrees t actions _)
run-Agrees t (start_flush now ∷ actions) s =
    let r = start-Leaves now s in
    at_state t actions (step (start_flush now) s) _ _ (ap (contains t) r.0) r.1
      (run-Agrees t actions _)
run-Agrees t (finish_flush i c now ∷ actions) s =
    let r = finish-Leaves i c now s in
    at_state t actions (step (finish_flush i c now) s) _ _ (ap (contains t) r.0) r.1
      (run-Agrees t actions _)

-- After any actions, a recorded packet gives an event exactly if no packet of its path has
-- been recorded since the sniffer last started (or since the beginning, where the path is
-- among the observed ones of the first state or not).
pub run-event :
    (actions : List Action) (s : System) (t : Triple) (now : ℕ)
    → is_some (event_of (record_packet t now) (run actions s))
      ≡ not (seen_since t s.mapper.sniffer_running (contains t s.mapper.observed_triples) actions)
unfolding record_communication
run-event actions s t now = rw (run-Agrees t actions s) (ground arith)
