-- ===== src/Tests/Fleets.antt =====
-- network/fleet.rs and analytics/mesh_health.rs at concrete calls.
use pagi_digital_twin.Base.{◌≡◌, ◌+◌, ◌*◌, refl, [], ◌∷◌, none, some, length, ltb, if◌then◌else◌}
use pagi_digital_twin.Base.HashMap
use pagi_digital_twin.Fleet.{FleetState, Node, stale, get_node, cleanup_stale_nodes}
use pagi_digital_twin.Fleet.Health.{cleanup_stale_nodes-get_node}

abbrev node : Node
node = record {
  node_id = "n1";
  hostname = "one";
  ip_address = "10.0.0.1";
  status = stale;
  last_heartbeat = 100;
  last_audit_timestamp = none;
  software_version = some "1";
  registered_at = 50;
}

abbrev fleet : FleetState
fleet = record { nodes = ("n1", node) ∷ []; heartbeat_timeout_secs = 60 }

cleanup_stale_nodes-get_node_example :
    let (s', removed) = cleanup_stale_nodes 1 fleet 60 200 in
    (get_node s' "n1" ≡ (if ltb (100 + 60 * 1) 200 then none else some node))
    × (length s'.nodes + removed ≡ length fleet.nodes)
unfolding get_node HashMap.get
cleanup_stale_nodes-get_node_example =
    cleanup_stale_nodes-get_node 1 fleet 60 200 "n1" node (refl, tt) refl
