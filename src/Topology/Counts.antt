-- ===== src/Topology/Counts.antt =====
-- The packets that the buffer and the table of app/topology/mapper.py account for, under each
-- operation.
use ot_asset_discovery.Topology.{
  Triple, triple_eq_iff, triple_keys, BufferedEdge, Edges, counted_edge, observe, triple_of,
  persisted_edge, persist_edge, persist_edges, restored_edge, restore_edge, restore_edges,
}
use ot_asset_discovery.Prelude.{
  ℕ, ◌+◌, ◌≡◌, refl, inl, inr, Option, none, some, [], ◌∷◌, arith, if◌then◌else◌, Option-cases,
  ◌==◌, nat_keys, text_keys,
}
use ot_asset_discovery.Prelude.Dict.{lookup, insert}

-- The packets of the triple in the entries.
abbrev pub packets : Triple → Edges → ℕ
packets t [] = 0
packets t ((u, e) ∷ edges) = (if t == u then e.packet_count else 0) + packets t edges

abbrev pub old_count : Option BufferedEdge → ℕ
old_count none = 0
old_count (some e) = e.packet_count

packets-insert :
    (t u : Triple) (e : BufferedEdge) (edges : Edges)
    → packets t (insert u e edges) + (if t == u then old_count (lookup u edges) else 0)
      ≡ packets t edges + (if t == u then e.packet_count else 0)
packets-insert t u e [] = ground arith
packets-insert t u e ((v, f) ∷ edges) =
    ground
      (arith, triple_eq_iff t u, triple_eq_iff u v, triple_eq_iff t v, packets-insert t u e edges)

-- Every entry is stored under the triple of its edge.
abbrev pub IsKeyed : Edges → Type 0
IsKeyed [] = Unit
IsKeyed ((t, e) ∷ edges) = (t ≡ triple_of e) × IsKeyed edges

counted_edge-count :
    (t : Triple) (now : ℕ) (o : Option BufferedEdge)
    → (counted_edge t now o).packet_count ≡ old_count o + 1
unfolding counted_edge
counted_edge-count t now none = omega arith
counted_edge-count t now (some e) = refl

persisted_edge-count :
    (e : BufferedEdge) (o : Option BufferedEdge)
    → (persisted_edge e o).packet_count ≡ old_count o + e.packet_count
unfolding persisted_edge
persisted_edge-count e none = omega arith
persisted_edge-count e (some f) = refl

restored_edge-count :
    (e : BufferedEdge) (o : Option BufferedEdge)
    → (restored_edge e o).packet_count ≡ old_count o + e.packet_count
unfolding restored_edge
restored_edge-count e none = omega arith
restored_edge-count e (some f) = refl

-- A recorded packet is in the buffer.
pub packets-observe :
    (t u : Triple) (now : ℕ) (buffer : Edges)
    → packets t (observe u now buffer) ≡ packets t buffer + (if t == u then 1 else 0)
unfolding observe
packets-observe t u now buffer = ground (
  arith,
  counted_edge-count u now (lookup u buffer),
  packets-insert t u (counted_edge u now (lookup u buffer)) buffer,
)

packets-persist_edge :
    (t : Triple) (e : BufferedEdge) (db : Edges)
    → packets t (persist_edge e db)
      ≡ packets t db + (if t == triple_of e then e.packet_count else 0)
unfolding persist_edge
packets-persist_edge t e db = ground (
  arith,
  persisted_edge-count e (lookup (triple_of e) db),
  packets-insert t (triple_of e) (persisted_edge e (lookup (triple_of e) db)) db,
)

packets-restore_edge :
    (t u : Triple) (e : BufferedEdge) (buffer : Edges)
    → packets t (restore_edge u e buffer)
      ≡ packets t buffer + (if t == u then e.packet_count else 0)
unfolding restore_edge
packets-restore_edge t u e buffer = ground (
  arith,
  restored_edge-count e (lookup u buffer),
  packets-insert t u (restored_edge e (lookup u buffer)) buffer,
)

-- A committed snapshot is in the table.
pub packets-persist_edges :
    (t : Triple) (snapshot db : Edges)
    → IsKeyed snapshot
    → packets t (persist_edges snapshot db) ≡ packets t db + packets t snapshot
unfolding persist_edges
packets-persist_edges t [] db h = omega arith
packets-persist_edges t ((u, e) ∷ edges) db h =
    rw (packets-persist_edges t edges (persist_edge e db) h.1, packets-persist_edge t e db, h.0)
      (omega arith)

-- After a failed flush the snapshot is in the buffer.
pub packets-restore_edges :
    (t : Triple) (snapshot buffer : Edges)
    → packets t (restore_edges snapshot buffer) ≡ packets t buffer + packets t snapshot
unfolding restore_edges
packets-restore_edges t [] buffer = omega arith
packets-restore_edges t ((u, e) ∷ edges) buffer =
    rw (packets-restore_edges t edges (restore_edge u e buffer), packets-restore_edge t u e buffer)
      (omega arith)

insert-IsKeyed :
    (t : Triple) (e : BufferedEdge) (edges : Edges)
    → t ≡ triple_of e
    → IsKeyed edges
    → IsKeyed (insert t e edges)
insert-IsKeyed t e [] p h = (p, tt)
insert-IsKeyed t e ((u, f) ∷ edges) p h =
    ground (arith, triple_eq_iff t u, insert-IsKeyed t e edges p h.1)

lookup-IsKeyed :
    (t : Triple) (e : BufferedEdge) (edges : Edges)
    → IsKeyed edges
    → lookup t edges ≡ some e
    → t ≡ triple_of e
lookup-IsKeyed t e [] h q = cc
lookup-IsKeyed t e ((u, f) ∷ edges) h q =
    ground (arith, triple_eq_iff t u, lookup-IsKeyed t e edges h.1)

pub observe-IsKeyed :
    (t : Triple) (now : ℕ) (buffer : Edges) → IsKeyed buffer → IsKeyed (observe t now buffer)
unfolding observe
observe-IsKeyed t now buffer h =
    insert-IsKeyed t (counted_edge t now (lookup t buffer)) buffer
      (elim (Option-cases (lookup t buffer)) [
        | inl e ↦ rw e (unfold counted_edge in refl)
        | inr (f, e) ↦ rw e (unfold counted_edge in lookup-IsKeyed t f buffer h e)
      ])
      h

pub restore_edges-IsKeyed :
    (snapshot buffer : Edges)
    → IsKeyed snapshot
    → IsKeyed buffer
    → IsKeyed (restore_edges snapshot buffer)
unfolding restore_edges restore_edge
restore_edges-IsKeyed [] buffer hs hb = hb
restore_edges-IsKeyed ((u, e) ∷ edges) buffer hs hb =
    restore_edges-IsKeyed edges (restore_edge u e buffer) hs.1 (
      insert-IsKeyed u (restored_edge e (lookup u buffer)) buffer
        (elim (Option-cases (lookup u buffer)) [
          | inl q ↦ rw q (unfold restored_edge in hs.0)
          | inr (f, q) ↦ rw q (unfold restored_edge in lookup-IsKeyed u f buffer hb q)
        ])
        hb)

pub persist_edges-IsKeyed : (snapshot db : Edges) → IsKeyed db → IsKeyed (persist_edges snapshot db)
unfolding persist_edges persist_edge
persist_edges-IsKeyed [] db h = h
persist_edges-IsKeyed ((u, e) ∷ edges) db h = persist_edges-IsKeyed edges (persist_edge e db) (
    insert-IsKeyed (triple_of e) (persisted_edge e (lookup (triple_of e) db)) db
      (elim (Option-cases (lookup (triple_of e) db)) [
        | inl q ↦ rw q (unfold persisted_edge in refl)
        | inr (f, q) ↦ rw q (unfold persisted_edge in lookup-IsKeyed (triple_of e) f db h q)
      ])
      h)
