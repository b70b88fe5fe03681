-- ===== src/Quarantine/Invariant.antt =====
-- network/quarantine.rs: what holds of the two maps after any calls.
use pagi_digital_twin.Base.{
  Bool, false, not, ◌&&◌, ◌||◌, ◌∙◌, suc, String, ◌≡◌, refl, List, [], ◌∷◌, Option, none, some,
  arith, ◌==◌, eq_iff, any,
}
use pagi_digital_twin.Base.HashMap
use pagi_digital_twin.Base.HashMap.{HashMap, IsMap, insert-IsMap, remove-IsMap}
use pagi_digital_twin.Bus.{Stamps}
use pagi_digital_twin.Quarantine.Lookup.{quarantine_node-lookups, reintegrate_node-lookups}
use pagi_digital_twin.Quarantine.Startup.{scrolled, names_node, load_from_qdrant-lookups}
use pagi_digital_twin.Quarantine.{
  QuarantineManager, QuarantineEntry, Qdrant, Payload, get_str, new, is_quarantined,
  list_quarantined, quarantine_node, reintegrate_node, recorded_ip, block_ip, unblock_ip,
  load_point, load_points, load_reply, load_client, load_from_qdrant,
}

-- Each entry stands under its own node.
abbrev pub Keyed : HashMap QuarantineEntry → Type 0
Keyed [] = Unit
Keyed ((k, e) ∷ m) = (e.node_id ≡ k) × Keyed m

pub record Inv (m : QuarantineManager) : Type 0 where
  pub nodes_distinct : IsMap m.quarantined_nodes
  pub ips_distinct : IsMap m.quarantined_ips
  pub keyed : Keyed m.quarantined_nodes

insert-Keyed :
    (k : String) (e : QuarantineEntry) (m : HashMap QuarantineEntry)
    → e.node_id ≡ k
    → Keyed m
    → Keyed (HashMap.insert k e m)
unfolding HashMap.insert
insert-Keyed k e [] p h = (p, tt)
insert-Keyed k e ((i, w) ∷ m) p h = ground (arith, eq_iff i k, insert-Keyed k e m p h.1)

remove-Keyed : (k : String) (m : HashMap QuarantineEntry) → Keyed m → Keyed (HashMap.remove k m)
unfolding HashMap.remove
remove-Keyed k [] h = tt
remove-Keyed k ((i, w) ∷ m) h = ground (arith, remove-Keyed k m h.1)

block_ip-IsMap :
    (a : Option String) (n : String) (ips : HashMap String) → IsMap ips → IsMap (block_ip a n ips)
block_ip-IsMap none n ips h = h
block_ip-IsMap (some a) n ips h = insert-IsMap a n ips h

unblock_ip-IsMap : (a : Option String) (ips : HashMap String) → IsMap ips → IsMap (unblock_ip a ips)
unblock_ip-IsMap none ips h = h
unblock_ip-IsMap (some a) ips h = remove-IsMap a ips h

load_point-Inv :
    (m : QuarantineManager) (p : Payload) (n : Option String) (now : String)
    → Inv m
    → Inv (load_point m p n now)
unfolding load_point
load_point-Inv m p none now v = v
load_point-Inv m p (some n) now v = record {
  nodes_distinct = insert-IsMap n _ m.quarantined_nodes v.nodes_distinct;
  ips_distinct = block_ip-IsMap (get_str p "ip_address") n m.quarantined_ips v.ips_distinct;
  keyed = insert-Keyed n _ m.quarantined_nodes refl v.keyed;
}

load_points-Inv :
    (m : QuarantineManager) (ps : List Payload) (now : Stamps) → Inv m → Inv (load_points m ps now)
unfolding load_points
load_points-Inv m [] now v = v
load_points-Inv m (p ∷ ps) now v =
    load_points-Inv (load_point m p (get_str p "node_id") (now 0)) ps (λ i. now (suc i))
      (load_point-Inv m p (get_str p "node_id") (now 0) v)

pub data Call : Type 0 where
  quarantines : (node_id : String) (ip : Option String) (reason by : String) (now : Stamps) → Call
  reintegrates : (node_id : String) (now : Stamps) → Call
  loads : (now : Stamps) → Call

abbrev pub step : QuarantineManager → Call → QuarantineManager
step m (quarantines node_id ip reason by now) = (quarantine_node m node_id ip reason by now).0
step m (reintegrates node_id now) = (reintegrate_node m node_id now).0
step m (loads now) = load_from_qdrant m now

abbrev pub run : QuarantineManager → List Call → QuarantineManager
run m [] = m
run m (c ∷ cs) = run (step m c) cs

load-Inv : (m : QuarantineManager) (now : Stamps) → Inv m → Inv (load_from_qdrant m now)
unfolding load_from_qdrant load_points
load-Inv m now v = by_client m.qdrant_client
  where
    by_reply : (r : Option (List Payload)) → Inv (load_reply m r now)
    by_reply none = v
    by_reply (some ps) = load_points-Inv m ps now v

    by_client : (c : Option Qdrant) → Inv (load_client m c now)
    by_client none = v
    by_client (some q) = by_reply (q.scroll 1000)

step-Inv : (m : QuarantineManager) (c : Call) → Inv m → Inv (step m c)
unfolding quarantine_node reintegrate_node
step-Inv m (quarantines node_id ip reason by now) v = record {
  nodes_distinct = insert-IsMap node_id _ m.quarantined_nodes v.nodes_distinct;
  ips_distinct = block_ip-IsMap ip node_id m.quarantined_ips v.ips_distinct;
  keyed = insert-Keyed node_id _ m.quarantined_nodes refl v.keyed;
}
step-Inv m (reintegrates node_id now) v = record {
  nodes_distinct = remove-IsMap node_id m.quarantined_nodes v.nodes_distinct;
  ips_distinct =
      unblock_ip-IsMap (recorded_ip (HashMap.get node_id m.quarantined_nodes)) m.quarantined_ips
        v.ips_distinct;
  keyed = remove-Keyed node_id m.quarantined_nodes v.keyed;
}
step-Inv m (loads now) v = load-Inv m now v

run-Inv : (m : QuarantineManager) (cs : List Call) → Inv m → Inv (run m cs)
run-Inv m [] v = v
run-Inv m (c ∷ cs) v = run-Inv (step m c) cs (step-Inv m c v)

pub run-new-Inv : (q : Option Qdrant) (cs : List Call) → Inv (run (new q) cs)
unfolding new
run-new-Inv q cs = run-Inv _ cs (record { nodes_distinct = tt; ips_distinct = tt; keyed = tt })

any-Keyed :
    (n : String) (m : HashMap QuarantineEntry)
    → Keyed m
    → any (λ e. e.node_id == n) (HashMap.values m) ≡ HashMap.contains_key n m
unfolding HashMap.get
any-Keyed n [] h = refl
any-Keyed n ((k, e) ∷ m) h = ground (arith, any-Keyed n m h.1)

-- In a manager in which no entry stands twice and each stands under its node, a walk over the
-- listed entries finds a node exactly if it is quarantined.
pub any-list_quarantined :
    (m : QuarantineManager) (n : String)
    → Inv m
    → any (λ e. e.node_id == n) (list_quarantined m) ≡ is_quarantined m n
unfolding list_quarantined is_quarantined
any-list_quarantined m n v = any-Keyed n m.quarantined_nodes v.keyed

-- Whether the node is in quarantine after the calls, from the calls and the points of the scroll.
abbrev pub recount : List Payload → String → Bool → List Call → Bool
recount points n b [] = b
recount points n b (quarantines node_id ip reason by now ∷ cs) =
    recount points n (node_id == n || b) cs
recount points n b (reintegrates node_id now ∷ cs) = recount points n (not (node_id == n) && b) cs
recount points n b (loads now ∷ cs) = recount points n (b || any (names_node n) points) cs

load_point-client :
    (m : QuarantineManager) (p : Payload) (o : Option String) (now : String)
    → (load_point m p o now).qdrant_client ≡ m.qdrant_client
unfolding load_point
load_point-client m p none now = refl
load_point-client m p (some n) now = refl

load_points-client :
    (m : QuarantineManager) (ps : List Payload) (now : Stamps)
    → (load_points m ps now).qdrant_client ≡ m.qdrant_client
unfolding load_points
load_points-client m [] now = refl
load_points-client m (p ∷ ps) now =
    load_points-client (load_point m p (get_str p "node_id") (now 0)) ps (λ i. now (suc i))
    ∙ load_point-client m p (get_str p "node_id") (now 0)

load-client :
    (m : QuarantineManager) (now : Stamps)
    → (load_from_qdrant m now).qdrant_client ≡ m.qdrant_client
unfolding load_from_qdrant load_points
load-client m now = by_client m.qdrant_client
  where
    by_reply : (r : Option (List Payload)) → (load_reply m r now).qdrant_client ≡ m.qdrant_client
    by_reply none = refl
    by_reply (some ps) = load_points-client m ps now

    by_client : (c : Option Qdrant) → (load_client m c now).qdrant_client ≡ m.qdrant_client
    by_client none = refl
    by_client (some q) = by_reply (q.scroll 1000)

run-is_quarantined :
    (m : QuarantineManager) (cs : List Call) (n : String)
    → is_quarantined (run m cs) n ≡ recount (scrolled m.qdrant_client) n (is_quarantined m n) cs
run-is_quarantined m [] n = refl
run-is_quarantined m (quarantines node_id ip reason by now ∷ cs) n =
    run-is_quarantined (quarantine_node m node_id ip reason by now).0 cs n
    ∙ rw ((quarantine_node-lookups m node_id ip reason by now n "").0)
        (unfold quarantine_node in refl)
run-is_quarantined m (reintegrates node_id now ∷ cs) n =
    run-is_quarantined (reintegrate_node m node_id now).0 cs n
    ∙ rw ((reintegrate_node-lookups m node_id now n "").0) (unfold reintegrate_node in refl)
run-is_quarantined m (loads now ∷ cs) n =
    run-is_quarantined (load_from_qdrant m now) cs n
    ∙ rw ((load_from_qdrant-lookups m now n "").0, load-client m now) refl

-- After any calls on a new manager, a node is in quarantine exactly if the calls say so: the last
-- that concerns it is a quarantine, or a load whose scroll hands back a point that names it, and no
-- reintegration. A walk over the listed entries finds the node in just the same cases.
pub run-new_quarantined :
    (q : Option Qdrant) (cs : List Call) (n : String)
    → (is_quarantined (run (new q) cs) n ≡ recount (scrolled q) n false cs)
      × (any (λ e. e.node_id == n) (list_quarantined (run (new q) cs))
          ≡ recount (scrolled q) n false cs)
unfolding new is_quarantined HashMap.get
run-new_quarantined q cs n =
    let counted : is_quarantined (run (new q) cs) n ≡ recount (scrolled q) n false cs =
      run-is_quarantined (new q) cs n in
    (counted, any-list_quarantined (run (new q) cs) n (run-new-Inv q cs) ∙ counted)
