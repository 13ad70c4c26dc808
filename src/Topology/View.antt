-- ===== src/Topology/View.antt =====
-- What `get_topology` of app/topology/mapper.py shows: the packets of each path, the devices,
-- and the stale flag.
use ot_asset_discovery.Prelude.{
  ℕ, ◌+◌, ◌≤◌, ◌≡◌, refl, ap, Bool, true, false, not, ◌&&◌, ◌||◌, List, [], ◌∷◌, arith, nat_eq,
  if◌then◌else◌, nat_eq→eq, ◌==◌, nat_keys, Text, text_keys, contains, set_add, contains-set_add,
}
use ot_asset_discovery.Topology.{
  Triple, triple_eq_iff, triple_keys, BufferedEdge, Edges, triple_of, edge_triple, all_edges,
  merge_edge, merge_edges, device_ids, device_node, nodes_of, get_topology,
}
use ot_asset_discovery.Domain.{Device, TopologyNode, TopologyEdge}
use ot_asset_discovery.Topology.Counts.{packets, IsKeyed}
use ot_asset_discovery.Topology.Runs.{
  System, Action, run, in_flights, total, losses, records, IsSound, run-total,
}

abbrev pub shown : Triple → List TopologyEdge → ℕ
shown t [] = 0
shown t (e ∷ edges) = (if t == edge_triple e then e.packet_count else 0) + shown t edges

shown-all_edges :
    (t : Triple) (edges : Edges) → IsKeyed edges → shown t (all_edges edges) ≡ packets t edges
unfolding all_edges
shown-all_edges t [] h = refl
shown-all_edges t ((u, e) ∷ edges) h = rw (h.0, shown-all_edges t edges h.1)

shown-merge_edge :
    (t : Triple) (b : BufferedEdge) (edges : List TopologyEdge)
    → shown t (merge_edge b edges)
      ≡ shown t edges + (if t == triple_of b then b.packet_count else 0)
unfolding merge_edge
shown-merge_edge t b [] = omega arith
shown-merge_edge t b (e ∷ edges) = ground (
  arith,
  triple_eq_iff (triple_of b) (edge_triple e),
  triple_eq_iff t (triple_of b),
  triple_eq_iff t (edge_triple e),
  shown-merge_edge t b edges,
)

shown-merge_edges :
    (t : Triple) (buffer : Edges) (edges : List TopologyEdge)
    → IsKeyed buffer
    → shown t (merge_edges buffer edges) ≡ shown t edges + packets t buffer
unfolding merge_edges
shown-merge_edges t [] edges h = omega arith
shown-merge_edges t ((u, b) ∷ buffer) edges h =
    rw (shown-merge_edges t buffer (merge_edge b edges) h.1, shown-merge_edge t b edges, h.0)
      (omega arith)

-- The device is at an end of one of the edges.
abbrev pub is_end : ℕ → List TopologyEdge → Bool
is_end id [] = false
is_end id (e ∷ edges) =
    (nat_eq id e.source_device_id || nat_eq id e.dest_device_id) || is_end id edges

contains-device_ids :
    (id : ℕ) (edges : List TopologyEdge) → contains id (device_ids edges) ≡ is_end id edges
unfolding device_ids
contains-device_ids id [] = refl
contains-device_ids id (e ∷ edges) =
    rw
      (
        contains-set_add e.source_device_id id (set_add e.dest_device_id (device_ids edges)),
        contains-set_add e.dest_device_id id (device_ids edges),
        contains-device_ids id edges,
      )
      (ground arith)

abbrev pub node_ids : List TopologyNode → List ℕ
node_ids [] = []
node_ids (n ∷ nodes) = n.device_id ∷ node_ids nodes

-- The inventory has the device.
abbrev pub is_device : ℕ → List Device → Bool
is_device id [] = false
is_device id (d ∷ devices) = nat_eq id d.id || is_device id devices

contains-nodes_of :
    (id : ℕ) (ids : List ℕ) (devices : List Device)
    → contains id (node_ids (nodes_of ids devices)) ≡ (contains id ids && is_device id devices)
unfolding nodes_of device_node
contains-nodes_of id ids [] = ground arith
contains-nodes_of id ids (d ∷ devices) = ground (arith, contains-nodes_of id ids devices, same)
  where
    same : nat_eq id d.id ≡ true → contains id ids ≡ contains d.id ids
    same e = ap (λ i. contains i ids) (nat_eq→eq id d.id e)

-- How many edges of the graph, and how many entries, are of the path.
abbrev pub edge_count : Triple → List TopologyEdge → ℕ
edge_count t [] = 0
edge_count t (e ∷ edges) = (if t == edge_triple e then 1 else 0) + edge_count t edges

abbrev pub entry_count : Triple → Edges → ℕ
entry_count t [] = 0
entry_count t ((u, e) ∷ edges) = (if t == u then 1 else 0) + entry_count t edges

edge_count-all_edges :
    (t : Triple) (edges : Edges)
    → IsKeyed edges
    → edge_count t (all_edges edges) ≡ entry_count t edges
unfolding all_edges
edge_count-all_edges t [] h = refl
edge_count-all_edges t ((u, e) ∷ edges) h = rw (h.0, edge_count-all_edges t edges h.1)

edge_count-merge_edge :
    (t : Triple) (b : BufferedEdge) (edges : List TopologyEdge)
    → edge_count t (merge_edge b edges)
      ≡ edge_count t edges + (if t == triple_of b && nat_eq (edge_count t edges) 0 then 1 else 0)
unfolding merge_edge
edge_count-merge_edge t b [] = ground arith
edge_count-merge_edge t b (e ∷ edges) = ground (
  arith,
  triple_eq_iff (triple_of b) (edge_triple e),
  triple_eq_iff t (triple_of b),
  triple_eq_iff t (edge_triple e),
  edge_count-merge_edge t b edges,
)

edge_count-merge_edges :
    (t : Triple) (buffer : Edges) (edges : List TopologyEdge)
    → edge_count t edges ≤ 1
    → edge_count t (merge_edges buffer edges) ≤ 1
unfolding merge_edges
edge_count-merge_edges t [] edges h = h
edge_count-merge_edges t ((u, b) ∷ buffer) edges h =
    edge_count-merge_edges t buffer (merge_edge b edges)
      (ground (arith, h, edge_count-merge_edge t b edges))

-- With a database the graph shows, for each path, the packets of the table and of the buffer
-- together, on one edge at most, where the table has one row at most for the path; its nodes are
-- the inventory's devices that are an end of some edge of the graph; and it is marked stale
-- exactly while the sniffer is not running.
pub get_topology-shown :
    (str_id : ℕ → Text) (s : System) (devices : List Device) (t : Triple) (id : ℕ)
    → IsSound s
    → entry_count t s.db ≤ 1
    → let g = get_topology str_id s.mapper s.db devices in
      (shown t g.edges ≡ packets t s.db + packets t s.mapper.buffer)
      × (edge_count t g.edges ≤ 1)
      × (contains id (node_ids g.nodes) ≡ (is_end id g.edges && is_device id devices))
      × (g.stale ≡ not s.mapper.sniffer_running)
unfolding get_topology
get_topology-shown str_id s devices t id h one = rw h.session (
  rw
      (
        shown-merge_edges t s.mapper.buffer (all_edges s.db) h.buffer_keyed,
        shown-all_edges t s.db h.db_keyed,
      )
      refl,
  edge_count-merge_edges t s.mapper.buffer (all_edges s.db)
      (rw (edge_count-all_edges t s.db h.db_keyed) one),
  rw
      (
        contains-nodes_of id (device_ids (merge_edges s.mapper.buffer (all_edges s.db))) devices,
        contains-device_ids id (merge_edges s.mapper.buffer (all_edges s.db)),
      )
      refl,
  refl,
)

-- Once every flush has ended, and none by being cancelled, the graph shows every packet that was
-- ever recorded.
pub get_topology-run :
    (str_id : ℕ → Text) (actions : List Action) (s : System) (devices : List Device) (t : Triple)
    → IsSound s
    → entry_count t (run actions s).db ≤ 1
    → (run actions s).in_flight ≡ []
    → (run actions s).lost ≡ []
    → shown t (get_topology str_id (run actions s).mapper (run actions s).db devices).edges
      ≡ total t s + losses t s + records t actions
get_topology-run str_id actions s devices t h one ended kept =
    let after = run-total actions s t h in
    omega (
      arith,
      after.0,
      (get_topology-shown str_id (run actions s) devices t 0 after.1 one).0,
      ap (in_flights t) ended,
      ap (in_flights t) kept,
    )
