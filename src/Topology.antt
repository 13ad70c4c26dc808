-- ===== src/Topology.antt =====
-- app/topology/mapper.py. A device id is a number, a time a number of microseconds. The two
-- dicts are association lists in insertion order. The database is the list of its edges, which
-- the table's unique constraint keeps to one for each triple.
--
-- `flush_updates` awaits the database between taking the buffer and the end of its
-- transaction, and other calls run in between: it is two steps here, `begin_flush`, which
-- takes the snapshot, and `end_flush`, which commits it or, if the session raised, merges it
-- back. A transaction applies all of its edges or none.
pub mod Counts
pub mod Runs
pub mod View
pub mod Events
mod Tests
use ot_asset_discovery.Prelude.{
  ℕ, ◌+◌, ◌≡◌, ◌↔◌, Bool, true, not, ◌&&◌, Option, none, some, List, [], ◌∷◌, ◌++◌, arith, ltb,
  nat_eq, if◌then◌else◌, Eq, ◌==◌, nat_keys, Text, codes, text_eq, text_eq_iff, text_keys, contains,
  set_add,
}
use ot_asset_discovery.Domain.{Device, TopologyNode, TopologyEdge, TopologyGraph}
use ot_asset_discovery.Prelude.Dict.{Dict, lookup, insert}

abbrev pub Triple : Type 0
Triple = ℕ × ℕ × Text

abbrev triple_eq : Triple → Triple → Bool
triple_eq (a, b, p) (c, d, q) = nat_eq a c && (nat_eq b d && text_eq p q)

pub triple_eq_iff : (s t : Triple) → (triple_eq s t ≡ true) ↔ (s ≡ t)
triple_eq_iff (a, b, p) (c, d, q) =
    (λ h. ground (arith, text_eq_iff p q), λ h. ground (arith, text_eq_iff p q))

instance abbrev pub triple_keys : Eq Triple
triple_keys = record { eqb = triple_eq; eqb_iff = triple_eq_iff }

-- `_BufferedEdge`; a row of `topology_edges` has the same columns.
pub record BufferedEdge : Type 0 where
  pub source_device_id : ℕ
  pub dest_device_id : ℕ
  pub protocol : Text
  pub packet_count : ℕ
  pub last_seen : ℕ
  pub first_seen : ℕ

pub record NewCommunicationEvent : Type 0 where
  pub source_device_id : ℕ
  pub dest_device_id : ℕ
  pub protocol : Text
  pub timestamp : ℕ

abbrev pub Edges : Type 0
Edges = Dict Triple BufferedEdge

pub record TopologyMapper : Type 0 where
  -- `session_factory is not None`
  pub has_session : Bool
  pub buffer : Edges
  pub observed_triples : List Triple
  pub sniffer_running : Bool
  pub last_flush : Option ℕ
  pub last_updated : Option ℕ

-- the setter of `sniffer_running`
pub set_sniffer_running : Bool → TopologyMapper → TopologyMapper
set_sniffer_running value m =
    if value && not m.sniffer_running
    then record m { observed_triples = []; sniffer_running = value }
    else record m { sniffer_running = value }

-- The entry of the triple after one more packet: the old one, counted up, or a new one.
pub counted_edge : Triple → ℕ → Option BufferedEdge → BufferedEdge
counted_edge t now (some edge) = record edge {
  packet_count = edge.packet_count + 1;
  last_seen = now;
}
counted_edge t now none = record {
  source_device_id = t.0;
  dest_device_id = t.1;
  protocol = t.2;
  packet_count = 1;
  last_seen = now;
  first_seen = now;
}

pub observe : Triple → ℕ → Edges → Edges
observe t now buffer = insert t (counted_edge t now (lookup t buffer)) buffer

pub record_communication :
    Triple → ℕ → TopologyMapper → TopologyMapper × Option NewCommunicationEvent
record_communication t now m =
    let is_new = not (contains t m.observed_triples) in
    (
      record m {
        observed_triples = if is_new then t ∷ m.observed_triples else m.observed_triples;
        buffer = observe t now m.buffer;
        last_updated = some now;
      },
      if is_new
          then some (record {
            source_device_id = t.0;
            dest_device_id = t.1;
            protocol = t.2;
            timestamp = now;
          })
          else none,
    )

abbrev pub triple_of : BufferedEdge → Triple
triple_of e = (e.source_device_id, e.dest_device_id, e.protocol)

-- The row of the edge: the existing one, updated, or a new one.
pub persisted_edge : BufferedEdge → Option BufferedEdge → BufferedEdge
persisted_edge edge (some existing) = record existing {
  packet_count = existing.packet_count + edge.packet_count;
  last_seen = if ltb existing.last_seen edge.last_seen then edge.last_seen else existing.last_seen;
}
persisted_edge edge none = edge

pub persist_edge : BufferedEdge → Edges → Edges
persist_edge edge db = insert (triple_of edge) (persisted_edge edge (lookup (triple_of edge) db)) db

-- the loop of the transaction
pub persist_edges : Edges → Edges → Edges
persist_edges [] db = db
persist_edges ((t, edge) ∷ edges) db = persist_edges edges (persist_edge edge db)

-- One edge goes back into the buffer, merged with what came in since.
pub restored_edge : BufferedEdge → Option BufferedEdge → BufferedEdge
restored_edge edge (some existing) = record existing {
  packet_count = existing.packet_count + edge.packet_count;
  first_seen =
      if ltb edge.first_seen existing.first_seen then edge.first_seen else existing.first_seen;
}
restored_edge edge none = edge

pub restore_edge : Triple → BufferedEdge → Edges → Edges
restore_edge t edge buffer = insert t (restored_edge edge (lookup t buffer)) buffer

-- the loop of the `except` clause
pub restore_edges : Edges → Edges → Edges
restore_edges [] buffer = buffer
restore_edges ((t, edge) ∷ edges) buffer = restore_edges edges (restore_edge t edge buffer)

-- `flush_updates` up to the session: the mapper, and the snapshot if there is one to persist.
pub begin_flush : ℕ → TopologyMapper → TopologyMapper × Option Edges
begin_flush now m =
    if m.has_session
    then (elim m.buffer [
      | [] ↦ (record m { last_flush = some now }, none)
      | e ∷ rest ↦ (record m { buffer = [] }, some (e ∷ rest))
    ])
    else (record m { buffer = []; last_flush = some now }, none)

-- How the transaction ends: it commits, it raises, or the task that waits for it is cancelled,
-- which no `except Exception` catches.
pub data Ending : Type 0 where
  committed failed cancelled : Ending

-- the rest of `flush_updates`
pub end_flush : Ending → Edges → ℕ → TopologyMapper → Edges → TopologyMapper × Edges
end_flush committed snapshot now m db =
    (record m { last_flush = some now }, persist_edges snapshot db)
end_flush failed snapshot now m db = (record m { buffer = restore_edges snapshot m.buffer }, db)
end_flush cancelled snapshot now m db = (m, db)

abbrev pub to_edge : BufferedEdge → TopologyEdge
to_edge e = record {
  source_device_id = e.source_device_id;
  dest_device_id = e.dest_device_id;
  protocol = e.protocol;
  packet_count = e.packet_count;
  last_seen = e.last_seen;
}

abbrev pub edge_triple : TopologyEdge → Triple
edge_triple e = (e.source_device_id, e.dest_device_id, e.protocol)

pub all_edges : Edges → List TopologyEdge
all_edges [] = []
all_edges ((t, e) ∷ edges) = to_edge e ∷ all_edges edges

-- A buffered edge is merged into the first edge of its triple, or put at the end.
pub merge_edge : BufferedEdge → List TopologyEdge → List TopologyEdge
merge_edge b [] = to_edge b ∷ []
merge_edge b (e ∷ edges) =
    let rest = merge_edge b edges in
    if triple_of b == edge_triple e
    then record e {
      packet_count = e.packet_count + b.packet_count;
      last_seen = if ltb e.last_seen b.last_seen then b.last_seen else e.last_seen;
    }
      ∷ edges
    else e ∷ rest

pub merge_edges : Edges → List TopologyEdge → List TopologyEdge
merge_edges [] edges = edges
merge_edges ((t, b) ∷ buffer) edges = merge_edges buffer (merge_edge b edges)

-- `device_ids`, a set; its order is not modelled further
pub device_ids : List TopologyEdge → List ℕ
device_ids [] = []
device_ids (e ∷ edges) = set_add e.source_device_id (set_add e.dest_device_id (device_ids edges))

-- `f"{device.ip_address} - {device.vendor}" if device.vendor else str(device.ip_address)`
pub node_name : Text → Option Text → Text
node_name ip none = ip
node_name ip (some []) = ip
node_name ip (some (c ∷ s)) = ip ++ (codes " - " ++ (c ∷ s))

pub device_node : Device → TopologyNode
device_node d = record {
  device_id = d.id;
  name = node_name d.ip_address d.vendor;
  ip_address = d.ip_address;
  device_type = d.device_type;
}

-- `Device.id.in_(list(device_ids))`
pub nodes_of : List ℕ → List Device → List TopologyNode
nodes_of ids [] = []
nodes_of ids (d ∷ devices) =
    let rest = nodes_of ids devices in if contains d.id ids then device_node d ∷ rest else rest

-- The nodes of memory-only mode; `str` of an id is a parameter.
pub bare_nodes : (ℕ → Text) → List ℕ → List TopologyNode
bare_nodes str_id [] = []
bare_nodes str_id (id ∷ ids) =
    record { device_id = id; name = str_id id; ip_address = codes "unknown"; device_type = none }
    ∷ bare_nodes str_id ids

pub get_topology : (ℕ → Text) → TopologyMapper → Edges → List Device → TopologyGraph
get_topology str_id m db devices =
    let edges = if m.has_session then merge_edges m.buffer (all_edges db) else all_edges m.buffer in
    record {
      nodes =
          if m.has_session
          then nodes_of (device_ids edges) devices
          else bare_nodes str_id (device_ids edges);
      edges = edges;
      stale = not m.sniffer_running;
      last_updated = m.last_updated;
    }
