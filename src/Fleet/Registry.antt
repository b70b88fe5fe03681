-- ===== src/Fleet/Registry.antt =====
-- network/fleet.rs: what the registry knows of a node after heartbeats and updates.
use pagi_digital_twin.Base.{
  is_some, ℕ, ◌+◌, ◌≤◌, String, Bool, true, false, ◌≡◌, refl, Option, none, some, arith,
  if◌then◌else◌, ◌==◌, eq_iff, eq_refl,
}
use pagi_digital_twin.Base.HashMap
use pagi_digital_twin.Base.HashMap.{
  HashMap, IsMap, get-insert, get-insert_self, insert-IsMap, retain-IsMap,
}
use pagi_digital_twin.Fleet.{
  modify, update_audit_timestamp, Result, ok, err, NodeStatus, nominal, Node, FleetState, Result,
  ok, err, is_lost, is_late, or_version, entry_or_new, refresh, heartbeat, modify,
  update_node_status, update_audit_timestamp, get_node, effective_status,
}
use mathlib.Core.Option

-- A heartbeat makes a lost node nominal and keeps a node in drift or in repair as it is; it stamps
-- the node, never unsets its version, keeps its registration and its audit, and touches no other.
pub heartbeat-get_node :
    (s : FleetState) (node_id hostname ip : String) (version : Option String) (now : ℕ) (j : String)
    → let old = entry_or_new (HashMap.get node_id s.nodes) node_id hostname ip version now in
      let s' = heartbeat s node_id hostname ip version now in
      get_node s' j ≡ (
        if node_id == j
        then some (record {
          node_id = old.node_id;
          hostname = hostname;
          ip_address = ip;
          status = if is_lost old.status then nominal else old.status;
          last_heartbeat = now;
          last_audit_timestamp = old.last_audit_timestamp;
          software_version = or_version version old.software_version;
          registered_at = old.registered_at;
        })
        else get_node s j)
unfolding heartbeat get_node refresh
heartbeat-get_node s node_id hostname ip version now j = get-insert node_id j _ s.nodes

-- Right after a heartbeat, and until the timeout has passed, the node does not count as stale or
-- offline in the summary.
pub heartbeat_fresh :
    (s : FleetState) (node_id hostname ip : String) (version : Option String) (now later limit : ℕ)
    (n : Node)
    → get_node (heartbeat s node_id hostname ip version now) node_id ≡ some n
    → later ≤ now + limit
    → is_lost (effective_status later limit n) ≡ false
unfolding effective_status is_late
heartbeat_fresh s node_id hostname ip version now later limit n e soon =
    ground (arith, heartbeat-get_node s node_id hostname ip version now node_id, eq_refl node_id)

abbrev pub with_status : NodeStatus → Node → Node
with_status status n = record n { status = status }

abbrev pub with_audit : ℕ → Node → Node
with_audit t n = record n { last_audit_timestamp = some t }

abbrev pub is_ok : Result → Bool
is_ok ok = true
is_ok (err e) = false

modify_lookup :
    (s : FleetState) (node_id : String) (f : Node → Node) (o : Option Node) (j : String)
    → HashMap.get node_id s.nodes ≡ o
    → (is_ok (modify s node_id f o).1 ≡ is_some o)
      × (HashMap.get j (modify s node_id f o).0.nodes
          ≡ (if node_id == j then Option.map f o else HashMap.get j s.nodes))
unfolding modify
modify_lookup s node_id f (some n) j e = (refl, get-insert node_id j (f n) s.nodes)
modify_lookup s node_id f none j e = (refl, ground (arith, eq_iff node_id j))

-- The two updates succeed exactly on a registered node; they write their one field, and leave every
-- other node, or on an unknown node all of them, as they were.
pub update-get_node :
    (s : FleetState) (node_id : String) (status : NodeStatus) (t : ℕ) (j : String)
    → let (s₁, r₁) = update_node_status s node_id status in
      let (s₂, r₂) = update_audit_timestamp s node_id t in
      (is_ok r₁ ≡ is_some (get_node s node_id))
      × (get_node s₁ j ≡ (
          if node_id == j
          then Option.map (with_status status) (get_node s node_id)
          else get_node s j))
      × (is_ok r₂ ≡ is_some (get_node s node_id))
      × (get_node s₂ j
          ≡ (if node_id == j then Option.map (with_audit t) (get_node s node_id) else get_node s j))
unfolding update_node_status update_audit_timestamp get_node
update-get_node s node_id status t j =
    let o = HashMap.get node_id s.nodes in
    let (a, b) = modify_lookup s node_id (with_status status) o j refl in
    let (c, d) = modify_lookup s node_id (with_audit t) o j refl in (a, b, c, d)
