-- ===== src/Fleet.antt =====
-- backend-rust-orchestrator/src/network/fleet.rs: the registry of nodes with their heartbeats. Times
-- are counts of one unit since the epoch, `unit` of them to a second, and differences are signed.
pub mod Health
pub mod Registry
use pagi_digital_twin.Base.{
  count_if, not, ℕ, suc, ◌*◌, String, Bool, true, false, ◌||◌, List, [], ◌∷◌, ◌++◌, Option, none,
  some, unwrap_or, length, if◌then◌else◌,
}
use pagi_digital_twin.Base.HashMap
use pagi_digital_twin.Base.HashMap.{HashMap}
use pagi_digital_twin.Base.Int.{ℤ, pos, sub_ℕ, ltb_ℤ}
use pagi_digital_twin.Host.{◌<>◌}
use text.Mathlib.Text.{is_lt}
use Prim.Native.String.{compare}

pub data NodeStatus : Type 0 where
  nominal in_drift in_repair stale offline : NodeStatus

pub record Node : Type 0 where
  pub node_id : String
  pub hostname : String
  pub ip_address : String
  pub status : NodeStatus
  pub last_heartbeat : ℕ
  pub last_audit_timestamp : Option ℕ
  pub software_version : Option String
  pub registered_at : ℕ

pub record FleetState : Type 0 where
  pub nodes : HashMap Node
  pub heartbeat_timeout_secs : ℕ

unfoldable pub new : Option ℕ → FleetState
new heartbeat_timeout_secs = record {
  nodes = [];
  heartbeat_timeout_secs = unwrap_or heartbeat_timeout_secs 60;
}

-- `node.status == Offline || node.status == Stale`
abbrev pub is_lost : NodeStatus → Bool
is_lost offline = true
is_lost stale = true
is_lost _ = false

abbrev pub or_version : Option String → Option String → Option String
or_version none old = old
or_version (some v) old = some v

-- The entry of the map, or the new node of `or_insert_with`.
abbrev pub entry_or_new : Option Node → String → String → String → Option String → ℕ → Node
entry_or_new (some n) node_id hostname ip_address software_version now = n
entry_or_new none node_id hostname ip_address software_version now = record {
  node_id = node_id;
  hostname = hostname;
  ip_address = ip_address;
  status = nominal;
  last_heartbeat = now;
  last_audit_timestamp = none;
  software_version = software_version;
  registered_at = now;
}

-- What a heartbeat makes of an entry.
unfoldable pub refresh : Node → String → String → Option String → ℕ → Node
refresh n hostname ip_address software_version now = record n {
  last_heartbeat = now;
  hostname = hostname;
  ip_address = ip_address;
  software_version = or_version software_version n.software_version;
  status = if is_lost n.status then nominal else n.status;
}

unfoldable pub heartbeat : FleetState → String → String → String → Option String → ℕ → FleetState
heartbeat s node_id hostname ip_address software_version now = record s {
  nodes =
      HashMap.insert node_id
        (refresh
          (entry_or_new (HashMap.get node_id s.nodes) node_id hostname ip_address software_version
            now)
          hostname ip_address software_version now)
        s.nodes;
}

-- `Result<(), String>`
pub data Result : Type 0 where
  ok : Result
  err : String → Result

-- `get_mut` and a write, or the error.
modify : FleetState → String → (Node → Node) → Option Node → FleetState × Result
modify s node_id f (some n) = (record s { nodes = HashMap.insert node_id (f n) s.nodes }, ok)
modify s node_id f none = (s, err ("Node " <> node_id <> " not found in fleet"))

unfoldable pub update_node_status : FleetState → String → NodeStatus → FleetState × Result
unfolding modify
update_node_status s node_id status =
    modify s node_id (λ n. record n { status = status }) (HashMap.get node_id s.nodes)

unfoldable pub update_audit_timestamp : FleetState → String → ℕ → FleetState × Result
unfolding modify
update_audit_timestamp s node_id timestamp =
    modify s node_id (λ n. record n { last_audit_timestamp = some timestamp })
      (HashMap.get node_id s.nodes)

unfoldable pub get_node : FleetState → String → Option Node
get_node s node_id = HashMap.get node_id s.nodes

-- A stable insertion by hostname, as `sort_by` with `cmp` orders them.
abbrev pub host_lt : Node → Node → Bool
host_lt a b = is_lt (compare a.hostname b.hostname)

unfoldable pub insert_sorted : Node → List Node → List Node
insert_sorted n [] = n ∷ []
insert_sorted n (m ∷ ms) = if host_lt m n then m ∷ insert_sorted n ms else n ∷ m ∷ ms

unfoldable pub sort_by_hostname : List Node → List Node
sort_by_hostname [] = []
sort_by_hostname (n ∷ ns) = insert_sorted n (sort_by_hostname ns)

unfoldable pub list_nodes : FleetState → List Node
list_nodes s = sort_by_hostname (HashMap.values s.nodes)

pub record FleetHealth : Type 0 where
  pub total_nodes : ℕ
  pub nominal : ℕ
  pub in_drift : ℕ
  pub in_repair : ℕ
  pub stale : ℕ
  pub offline : ℕ

-- `now - last_heartbeat > limit`
unfoldable pub is_late : ℕ → ℕ → ℕ → Bool
is_late now last limit = ltb_ℤ (pos limit) (sub_ℕ now last)

abbrev pub late_status : NodeStatus → NodeStatus
late_status offline = offline
late_status _ = stale

unfoldable pub effective_status : ℕ → ℕ → Node → NodeStatus
effective_status now limit n =
    if is_late now n.last_heartbeat limit then late_status n.status else n.status

abbrev pub count_status : NodeStatus → FleetHealth → FleetHealth
count_status nominal h = record h { nominal = suc h.nominal }
count_status in_drift h = record h { in_drift = suc h.in_drift }
count_status in_repair h = record h { in_repair = suc h.in_repair }
count_status stale h = record h { stale = suc h.stale }
count_status offline h = record h { offline = suc h.offline }

-- The loop over the values.
unfoldable pub count_nodes : ℕ → ℕ → List Node → FleetHealth → FleetHealth
count_nodes now limit [] h = h
count_nodes now limit (n ∷ ns) h =
    count_nodes now limit ns (count_status (effective_status now limit n) h)

module _ (unit : ℕ) where
  unfoldable pub get_fleet_health : FleetState → ℕ → FleetHealth
  get_fleet_health s now =
      count_nodes now (s.heartbeat_timeout_secs * unit) (HashMap.values s.nodes) (record {
        total_nodes = length s.nodes;
        nominal = 0;
        in_drift = 0;
        in_repair = 0;
        stale = 0;
        offline = 0;
      })

  -- The state afterwards, and how many nodes were removed.
  unfoldable pub cleanup_stale_nodes : FleetState → ℕ → ℕ → FleetState × ℕ
  cleanup_stale_nodes s max_age_secs now = (
    record s {
      nodes =
          HashMap.retain (λ n. not (is_late now n.last_heartbeat (max_age_secs * unit))) s.nodes;
    },
    count_if (λ n. is_late now n.last_heartbeat (max_age_secs * unit)) (HashMap.values s.nodes),
  )
