-- ===== src/Topology/Tests.antt =====
-- The topology mapper on a short run.
use ot_asset_discovery.Prelude.{
  ◌+◌, ◌≤◌, ◌≡◌, refl, true, false, not, ◌&&◌, none, List, [], ◌∷◌, arith, is_some, nat_keys, codes,
  text_keys, contains,
}
use ot_asset_discovery.Topology.{
  Triple, triple_keys, set_sniffer_running, counted_edge, observe, record_communication,
  persisted_edge, persist_edge, persist_edges, restored_edge, restore_edge, restore_edges,
  begin_flush, committed, failed, cancelled, end_flush, get_topology,
}
use ot_asset_discovery.Topology.Runs.{
  System, Action, record_packet, switch_sniffer, start_flush, finish_flush, event_of, step, run,
  total, losses, records, IsSound, run-total,
}
use ot_asset_discovery.Topology.View.{
  shown, is_end, node_ids, is_device, edge_count, get_topology-shown,
}
use ot_asset_discovery.Topology.Counts.{packets}
use ot_asset_discovery.Topology.Events.{seen_since, run-event}

abbrev path : Triple
path = (1, 2, codes "dnp3")

abbrev back : Triple
back = (2, 1, codes "dnp3")

abbrev initial : System
initial = record {
  mapper = record {
    has_session = true;
    buffer = [];
    observed_triples = [];
    sniffer_running = false;
    last_flush = none;
    last_updated = none;
  };
  db = [];
  in_flight = [];
  lost = [];
}

initial-IsSound : IsSound initial
initial-IsSound = record { session = refl; buffer_keyed = tt; flights_keyed = tt; db_keyed = tt }

-- A flush fails after two more packets have come in; the next one commits.
abbrev actions : List Action
actions =
    switch_sniffer true
    ∷ record_packet path 10
    ∷ start_flush 11
    ∷ record_packet path 12
    ∷ record_packet back 13
    ∷ finish_flush 0 failed 14
    ∷ start_flush 15
    ∷ finish_flush 0 committed 16
    ∷ []

table_after :
    (run actions initial).db
    ≡ (
      path,
      record {
        source_device_id = 1;
        dest_device_id = 2;
        protocol = codes "dnp3";
        packet_count = 2;
        last_seen = 12;
        first_seen = 10;
      },
    )
      ∷ (
        back,
        record {
          source_device_id = 2;
          dest_device_id = 1;
          protocol = codes "dnp3";
          packet_count = 1;
          last_seen = 13;
          first_seen = 13;
        },
      )
      ∷ []
unfolding run step record_communication observe counted_edge set_sniffer_running begin_flush
    end_flush restore_edges restore_edge restored_edge persist_edges persist_edge persisted_edge
table_after = refl

all_landed : (run actions initial).in_flight ≡ []
unfolding run step record_communication observe counted_edge set_sniffer_running begin_flush
    end_flush restore_edges restore_edge restored_edge
all_landed = refl

-- A flush that is cancelled loses its packet.
abbrev cut : List Action
cut = record_packet path 10 ∷ start_flush 11 ∷ finish_flush 0 cancelled 12 ∷ []

cut_loses : (total path (run cut initial) ≡ 0) × (losses path (run cut initial) ≡ 1)
unfolding run step record_communication observe counted_edge begin_flush end_flush
cut_loses = (refl, refl)

run-total_example :
    (total path (run cut initial) + losses path (run cut initial)
      ≡ total path initial + losses path initial + records path cut)
    × IsSound (run cut initial)
run-total_example = run-total cut initial path initial-IsSound

get_topology-shown_example :
    let g = get_topology (λ n. []) (run actions initial).mapper (run actions initial).db [] in
    (shown path g.edges
      ≡ packets path (run actions initial).db + packets path (run actions initial).mapper.buffer)
    × (edge_count path g.edges ≤ 1)
    × (contains 1 (node_ids g.nodes) ≡ (is_end 1 g.edges && is_device 1 []))
    × (g.stale ≡ not (run actions initial).mapper.sniffer_running)
get_topology-shown_example =
    get_topology-shown (λ n. []) (run actions initial) [] path 1
      (run-total actions initial path initial-IsSound).1 (rw table_after (ground arith))

run-event_example :
    is_some (event_of (record_packet path 17) (run actions initial))
    ≡ not (seen_since path false false actions)
run-event_example = run-event actions initial path 17
