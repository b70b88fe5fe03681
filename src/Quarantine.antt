-- ===== src/Quarantine.antt =====
-- backend-rust-orchestrator/src/network/quarantine.rs: the quarantine list of nodes and addresses.
-- Locks are taken one after the other and not held across calls, so an operation is a function on
-- the two maps. Qdrant is known by its reply to the start-up scroll; what it stores on a quarantine
-- is not read back before a restart, and its errors are only logged.
pub mod Lookup
pub mod History
pub mod Startup
pub mod Invariant
use pagi_digital_twin.Base.{ℕ, suc, String, Bool, List, [], ◌∷◌, Option, none, some, unwrap_or}
use pagi_digital_twin.Base.HashMap
use pagi_digital_twin.Base.HashMap.{HashMap}
use pagi_digital_twin.Bus.{node_isolated, node_reintegrated, Events, Stamps}

pub record QuarantineEntry : Type 0 where
  pub node_id : String
  pub ip_address : Option String
  pub reason : String
  pub timestamp : String
  pub quarantined_by : String

-- The `kind` of a Qdrant value: a text, or one of the kinds that the loader skips.
pub data Kind : Type 0 where
  string_value : String → Kind
  other_kind : Kind

abbrev pub Payload : Type 0
Payload = HashMap (Option Kind)

-- The reply to a scroll with a limit on the points; `none` is a failed one.
pub record Qdrant : Type 0 where
  pub scroll : (limit : ℕ) → Option (List Payload)

pub record QuarantineManager : Type 0 where
  pub quarantined_nodes : HashMap QuarantineEntry
  pub quarantined_ips : HashMap String
  pub qdrant_client : Option Qdrant

unfoldable pub new : Option Qdrant → QuarantineManager
new qdrant = record { quarantined_nodes = []; quarantined_ips = []; qdrant_client = qdrant }

unfoldable pub is_quarantined : QuarantineManager → String → Bool
is_quarantined m node_id = HashMap.contains_key node_id m.quarantined_nodes

unfoldable pub get_node_id_for_ip : QuarantineManager → String → Option String
get_node_id_for_ip m ip = HashMap.get ip m.quarantined_ips

unfoldable pub is_ip_quarantined : QuarantineManager → String → Bool
is_ip_quarantined m ip = HashMap.contains_key ip m.quarantined_ips

unfoldable pub get_entry : QuarantineManager → String → Option QuarantineEntry
get_entry m node_id = HashMap.get node_id m.quarantined_nodes

unfoldable pub list_quarantined : QuarantineManager → List QuarantineEntry
list_quarantined m = HashMap.values m.quarantined_nodes

-- `if let Some(ip)`: the write to the map of addresses.
abbrev pub block_ip : Option String → String → HashMap String → HashMap String
block_ip none node_id ips = ips
block_ip (some ip) node_id ips = HashMap.insert ip node_id ips

abbrev pub unblock_ip : Option String → HashMap String → HashMap String
unblock_ip none ips = ips
unblock_ip (some ip) ips = HashMap.remove ip ips

unfoldable pub quarantine_node :
    QuarantineManager
    → String
    → Option String
    → String
    → String
    → Stamps
    → QuarantineManager × Events
quarantine_node m node_id ip_address reason quarantined_by now = (
  record m {
    quarantined_nodes = HashMap.insert node_id entry m.quarantined_nodes;
    quarantined_ips = block_ip ip_address node_id m.quarantined_ips;
  },
  node_isolated node_id reason (now 1) ∷ [],
)
  where
    entry : QuarantineEntry
    entry = record {
      node_id = node_id;
      ip_address = ip_address;
      reason = reason;
      timestamp = now 0;
      quarantined_by = quarantined_by;
    }

-- `nodes.get(node_id).and_then(|e| e.ip_address.clone())`
abbrev pub recorded_ip : Option QuarantineEntry → Option String
recorded_ip none = none
recorded_ip (some e) = e.ip_address

unfoldable pub reintegrate_node : QuarantineManager → String → Stamps → QuarantineManager × Events
reintegrate_node m node_id now = (
  record m {
    quarantined_nodes = HashMap.remove node_id m.quarantined_nodes;
    quarantined_ips =
        unblock_ip (recorded_ip (HashMap.get node_id m.quarantined_nodes)) m.quarantined_ips;
  },
  node_reintegrated node_id (now 0) ∷ [],
)

abbrev pub string_of : Option (Option Kind) → Option String
string_of (some (some (string_value s))) = some s
string_of (some (some other_kind)) = none
string_of (some none) = none
string_of none = none

abbrev pub get_str : Payload → String → Option String
get_str payload k = string_of (HashMap.get k payload)

-- One round of the loop over the points; `now` is the clock of that round.
load_point : QuarantineManager → Payload → Option String → String → QuarantineManager
load_point m payload none now = m
load_point m payload (some node_id) now = record m {
  quarantined_nodes = HashMap.insert node_id entry m.quarantined_nodes;
  quarantined_ips = block_ip (get_str payload "ip_address") node_id m.quarantined_ips;
}
  where
    entry : QuarantineEntry
    entry = record {
      node_id = node_id;
      ip_address = get_str payload "ip_address";
      reason = unwrap_or (get_str payload "reason") "unknown";
      timestamp = unwrap_or (get_str payload "timestamp") now;
      quarantined_by = unwrap_or (get_str payload "quarantined_by") "system";
    }

load_points : QuarantineManager → List Payload → Stamps → QuarantineManager
load_points m [] now = m
load_points m (p ∷ ps) now =
    load_points (load_point m p (get_str p "node_id") (now 0)) ps (λ i. now (suc i))

load_reply : QuarantineManager → Option (List Payload) → Stamps → QuarantineManager
load_reply m none now = m
load_reply m (some points) now = load_points m points now

load_client : QuarantineManager → Option Qdrant → Stamps → QuarantineManager
load_client m none now = m
load_client m (some q) now = load_reply m (q.scroll 1000) now

unfoldable pub load_from_qdrant : QuarantineManager → Stamps → QuarantineManager
unfolding load_point load_points load_reply load_client
load_from_qdrant m now = load_client m m.qdrant_client now
