-- ===== src/Discovery/Peers.antt =====
-- The communication peers that app/discovery_engine.py counts for the exposure of a device.
use ot_asset_discovery.Discovery.{peers}
use ot_asset_discovery.Domain.{TopologyEdge}
use ot_asset_discovery.Prelude.{
  ℕ, ◌≡◌, refl, inl, inr, Bool, false, ◌&&◌, ◌||◌, List, [], ◌∷◌, arith, nat_eq, Bool-cases,
  nat_keys, text_keys, contains, set_add, contains-set_add,
}

-- An edge joins the two devices, in one direction or the other.
abbrev pub joins : ℕ → ℕ → List TopologyEdge → Bool
joins a b [] = false
joins a b (e ∷ edges) =
    ((nat_eq e.source_device_id a && nat_eq e.dest_device_id b)
      || (nat_eq e.source_device_id b && nat_eq e.dest_device_id a))
    || joins a b edges

-- Each number stands once in the list.
abbrev pub IsDistinct : List ℕ → Type 0
IsDistinct [] = Unit
IsDistinct (n ∷ ns) = (contains n ns ≡ false) × IsDistinct ns

set_add-IsDistinct : (n : ℕ) (ns : List ℕ) → IsDistinct ns → IsDistinct (set_add n ns)
set_add-IsDistinct n ns h = elim (Bool-cases (contains n ns)) [
  | inl e ↦ rw e h
  | inr e ↦ rw e (e, h)
]

peers-IsDistinct : (id : ℕ) (edges : List TopologyEdge) → IsDistinct (peers id edges)
unfolding peers
peers-IsDistinct id [] = tt
peers-IsDistinct id (e ∷ edges) =
    let ih = peers-IsDistinct id edges in
    elim (Bool-cases (nat_eq e.source_device_id id)) [
      | inl p ↦ rw p (set_add-IsDistinct e.dest_device_id (peers id edges) ih)
      | inr p ↦ elim (Bool-cases (nat_eq e.dest_device_id id)) [
        | inl q ↦ rw (p, q) (set_add-IsDistinct e.source_device_id (peers id edges) ih)
        | inr q ↦ rw (p, q) ih
      ]
    ]

contains-peers :
    (id other : ℕ) (edges : List TopologyEdge)
    → contains other (peers id edges) ≡ joins id other edges
unfolding peers
contains-peers id other [] = refl
contains-peers id other (e ∷ edges) = ground (
  arith,
  contains-peers id other edges,
  contains-set_add e.dest_device_id other (peers id edges),
  contains-set_add e.source_device_id other (peers id edges),
)

-- The peers of a device are the devices that an edge joins to it, in one direction or the other,
-- and each is counted once, so two devices are peers of each other or neither is.
pub peers_lem :
    (id other : ℕ) (edges : List TopologyEdge)
    → (contains other (peers id edges) ≡ joins id other edges)
      × IsDistinct (peers id edges)
      × (contains other (peers id edges) ≡ contains id (peers other edges))
peers_lem id other edges = (
  contains-peers id other edges,
  peers-IsDistinct id edges,
  rw (contains-peers id other edges, contains-peers other id edges) (joins_swap edges),
)
  where
    joins_swap : (es : List TopologyEdge) → joins id other es ≡ joins other id es
    joins_swap [] = refl
    joins_swap (e ∷ es) = ground (arith, joins_swap es)
