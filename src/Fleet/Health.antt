-- ===== src/Fleet/Health.antt =====
-- network/fleet.rs: the health summary and the clean-up of stale nodes.
use pagi_digital_twin.Base.{
  ℕ, suc, ◌+◌, ◌*◌, ◌<◌, String, Bool, true, not, ◌≡◌, ◌∙◌, ap, refl, List, [], ◌∷◌, none, some,
  arith, length, count_if, if◌then◌else◌, ◌↔◌, ltb,
}
use pagi_digital_twin.Base.HashMap
use pagi_digital_twin.Base.HashMap.{HashMap, IsMap, get-retain, get-retain-none}
use pagi_digital_twin.Fleet.{
  NodeStatus, nominal, in_drift, in_repair, stale, offline, Node, FleetState, FleetHealth, is_late,
  effective_status, count_status, count_nodes, get_fleet_health, cleanup_stale_nodes, get_node,
}

-- A node is late exactly when more than the limit has passed since its heartbeat, and never when
-- its heartbeat is later than the clock.
is_late_iff : (now last limit : ℕ) → (is_late now last limit ≡ true) ↔ (last + limit < now)
unfolding is_late
is_late_iff now last limit = ground arith

abbrev counted : FleetHealth → ℕ
counted h = h.nominal + h.in_drift + h.in_repair + h.stale + h.offline

count_status-counted :
    (x : NodeStatus) (h : FleetHealth)
    → (counted (count_status x h) ≡ suc (counted h))
      × ((count_status x h).total_nodes ≡ h.total_nodes)
count_status-counted nominal h = omega arith
count_status-counted in_drift h = omega arith
count_status-counted in_repair h = omega arith
count_status-counted stale h = omega arith
count_status-counted offline h = omega arith

count_nodes-counted :
    (now limit : ℕ) (ns : List Node) (h : FleetHealth)
    → (counted (count_nodes now limit ns h) ≡ counted h + length ns)
      × ((count_nodes now limit ns h).total_nodes ≡ h.total_nodes)
unfolding count_nodes
count_nodes-counted now limit [] h = omega arith
count_nodes-counted now limit (n ∷ ns) h =
    let (a, b) = count_status-counted (effective_status now limit n) h in
    let (a', b') =
      count_nodes-counted now limit ns (count_status (effective_status now limit n) h) in
    (omega arith, b' ∙ b)

length-values : (m : HashMap Node) → length (HashMap.values m) ≡ length m
length-values [] = refl
length-values ((k, v) ∷ m) = ap suc (length-values m)

-- Every node is counted once: the five counts of the summary add up to the total, which is the
-- number of nodes.
pub get_fleet_health_total :
    (unit : ℕ) (s : FleetState) (now : ℕ)
    → let h = get_fleet_health unit s now in
      (h.nominal + h.in_drift + h.in_repair + h.stale + h.offline ≡ h.total_nodes)
      × (h.total_nodes ≡ length s.nodes)
unfolding get_fleet_health
get_fleet_health_total unit s now =
    let (a, b) =
      count_nodes-counted now (s.heartbeat_timeout_secs * unit) (HashMap.values s.nodes) (record {
        total_nodes = length s.nodes;
        nominal = 0;
        in_drift = 0;
        in_repair = 0;
        stale = 0;
        offline = 0;
      }) in
    (omega (arith, length-values s.nodes), b)

retain-length :
    (p : Node → Bool) (m : HashMap Node)
    → length (HashMap.retain (λ n. not (p n)) m) + count_if p (HashMap.values m) ≡ length m
unfolding HashMap.retain
retain-length p [] = omega arith
retain-length p ((k, n) ∷ m) = ground (arith, retain-length p m)

-- In a registry where no node stands twice, a clean-up removes exactly the nodes whose heartbeat is
-- older than the age given, keeps the others as they were, and returns how many it removed.
pub cleanup_stale_nodes-get_node :
    (unit : ℕ) (s : FleetState) (max_age_secs now : ℕ) (node_id : String) (n : Node)
    → IsMap s.nodes
    → get_node s node_id ≡ some n
    → let (s', removed) = cleanup_stale_nodes unit s max_age_secs now in
      (get_node s' node_id
        ≡ (if ltb (n.last_heartbeat + max_age_secs * unit) now then none else some n))
      × (length s'.nodes + removed ≡ length s.nodes)
unfolding cleanup_stale_nodes get_node
cleanup_stale_nodes-get_node unit s max_age_secs now node_id n distinct e = (
  get-retain (λ n. not (is_late now n.last_heartbeat (max_age_secs * unit))) node_id s.nodes n
        distinct e
      ∙ ground (arith, is_late_iff now n.last_heartbeat (max_age_secs * unit)),
  retain-length (λ n. is_late now n.last_heartbeat (max_age_secs * unit)) s.nodes,
)
