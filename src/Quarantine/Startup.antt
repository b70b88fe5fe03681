-- ===== src/Quarantine/Startup.antt =====
-- network/quarantine.rs: what `load_from_qdrant` restores.
use pagi_digital_twin.Base.{
  suc, String, Bool, ◌&&◌, ◌||◌, ◌≡◌, ◌∙◌, List, [], ◌∷◌, Option, none, some, arith, is_some, any,
}
use pagi_digital_twin.Base.HashMap.{get-insert}
use pagi_digital_twin.Bus.{Stamps}
use pagi_digital_twin.Quarantine.{
  QuarantineManager, Qdrant, Payload, get_str, is_quarantined, is_ip_quarantined, load_point,
  load_points, load_reply, load_client, load_from_qdrant,
}
use pagi_digital_twin.Quarantine.Lookup.{holds, get-block_ip}

-- The points that the one scroll hands back, at most 1000 of those in the store: none without a client
-- or on a failed scroll.
abbrev pub scrolled : Option Qdrant → List Payload
scrolled none = []
scrolled (some q) = elim (q.scroll 1000) [ none ↦ [] | some points ↦ points ]

-- The point names this node.
abbrev pub names_node : String → Payload → Bool
names_node j p = holds (get_str p "node_id") j

-- The point names some node and this address.
abbrev pub names_ip : String → Payload → Bool
names_ip a p = is_some (get_str p "node_id") && holds (get_str p "ip_address") a

load_point_lookups :
    (m : QuarantineManager) (p : Payload) (n : Option String) (now : String) (j a : String)
    → (is_quarantined (load_point m p n now) j ≡ (is_quarantined m j || holds n j))
      × (is_ip_quarantined (load_point m p n now) a
          ≡ (is_ip_quarantined m a || (is_some n && holds (get_str p "ip_address") a)))
unfolding load_point is_quarantined is_ip_quarantined
load_point_lookups m p none now j a = (ground arith, ground arith)
load_point_lookups m p (some n) now j a =
    (rw get-insert (ground arith), rw get-block_ip (ground arith))

load_points_lookups :
    (m : QuarantineManager) (ps : List Payload) (now : Stamps) (j a : String)
    → (is_quarantined (load_points m ps now) j ≡ (is_quarantined m j || any (names_node j) ps))
      × (is_ip_quarantined (load_points m ps now) a
          ≡ (is_ip_quarantined m a || any (names_ip a) ps))
unfolding load_points
load_points_lookups m [] now j a = (ground arith, ground arith)
load_points_lookups m (p ∷ ps) now j a =
    let m' = load_point m p (get_str p "node_id") (now 0) in
    let first = load_point_lookups m p (get_str p "node_id") (now 0) j a in
    let rest = load_points_lookups m' ps (λ i. now (suc i)) j a in
    (rest.0 ∙ rw first.0 (ground arith), rest.1 ∙ rw first.1 (ground arith))

-- After start-up a node is quarantined exactly if it was before or a point that the scroll handed back
-- names it, and an address exactly if it was before or such a point with a node names it. The scroll
-- is one, with a limit of 1000 and no further page, and a failed one hands nothing back: a point that
-- it leaves out restores nothing.
pub load_from_qdrant-lookups :
    (m : QuarantineManager) (now : Stamps) (j a : String)
    → (is_quarantined (load_from_qdrant m now) j
        ≡ (is_quarantined m j || any (names_node j) (scrolled m.qdrant_client)))
      × (is_ip_quarantined (load_from_qdrant m now) a
          ≡ (is_ip_quarantined m a || any (names_ip a) (scrolled m.qdrant_client)))
unfolding load_from_qdrant load_points
load_from_qdrant-lookups m now j a = by_client m.qdrant_client
  where
    by_reply :
        (r : Option (List Payload))
        → (is_quarantined (load_reply m r now) j
            ≡ (is_quarantined m j || any (names_node j) (elim r [ none ↦ [] | some ps ↦ ps ])))
          × (is_ip_quarantined (load_reply m r now) a
              ≡ (is_ip_quarantined m a || any (names_ip a) (elim r [ none ↦ [] | some ps ↦ ps ])))
    by_reply none = (ground arith, ground arith)
    by_reply (some ps) = load_points_lookups m ps now j a

    by_client :
        (c : Option Qdrant)
        → (is_quarantined (load_client m c now) j
            ≡ (is_quarantined m j || any (names_node j) (scrolled c)))
          × (is_ip_quarantined (load_client m c now) a
              ≡ (is_ip_quarantined m a || any (names_ip a) (scrolled c)))
    by_client none = (ground arith, ground arith)
    by_client (some q) = by_reply (q.scroll 1000)
