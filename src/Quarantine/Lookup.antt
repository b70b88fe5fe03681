-- ===== src/Quarantine/Lookup.antt =====
-- network/quarantine.rs: what the look-ups answer after `quarantine_node` and `reintegrate_node`.
use pagi_digital_twin.Base.{
  String, Bool, false, not, ◌&&◌, ◌||◌, ◌≡◌, refl, Option, none, some, arith, ◌==◌, if◌then◌else◌,
}
use pagi_digital_twin.Base.HashMap
use pagi_digital_twin.Base.HashMap.{HashMap, get-insert, get-remove}
use pagi_digital_twin.Bus.{Stamps}
use pagi_digital_twin.Quarantine.{
  QuarantineManager, is_quarantined, get_node_id_for_ip, get_entry, quarantine_node,
  reintegrate_node, block_ip, unblock_ip, recorded_ip,
}

-- The option holds this text.
abbrev pub holds : Option String → String → Bool
holds none s = false
holds (some a) s = a == s

pub get-block_ip :
    (a : Option String) (node_id : String) (ips : HashMap String) (ip : String)
    → HashMap.get ip (block_ip a node_id ips)
      ≡ (if holds a ip then some node_id else HashMap.get ip ips)
get-block_ip none node_id ips ip = refl
get-block_ip (some a) node_id ips ip = get-insert a ip node_id ips

get-unblock_ip :
    (a : Option String) (ips : HashMap String) (ip : String)
    → HashMap.get ip (unblock_ip a ips) ≡ (if holds a ip then none else HashMap.get ip ips)
get-unblock_ip none ips ip = refl
get-unblock_ip (some a) ips ip = get-remove a ip ips

-- After a quarantine exactly the given node is quarantined besides those before, and exactly the
-- given address, if any, leads to that node; every other address leads where it led before.
pub quarantine_node-lookups :
    (m : QuarantineManager) (node_id : String) (ip_address : Option String)
    (reason quarantined_by : String) (now : Stamps) (j ip : String)
    → let m' = (quarantine_node m node_id ip_address reason quarantined_by now).0 in
      (is_quarantined m' j ≡ (node_id == j || is_quarantined m j))
      × (get_node_id_for_ip m' ip
          ≡ (if holds ip_address ip then some node_id else get_node_id_for_ip m ip))
unfolding quarantine_node is_quarantined get_node_id_for_ip
quarantine_node-lookups m node_id ip_address reason by now j ip =
    (rw get-insert (ground arith), get-block_ip ip_address node_id m.quarantined_ips ip)

-- After a reintegration the node is not quarantined, every other node is as before, and of the
-- addresses only the one that the node's entry records is freed; the others lead where they led.
pub reintegrate_node-lookups :
    (m : QuarantineManager) (node_id : String) (now : Stamps) (j ip : String)
    → let m' = (reintegrate_node m node_id now).0 in
      (is_quarantined m' j ≡ (not (node_id == j) && is_quarantined m j))
      × (get_node_id_for_ip m' ip ≡ (
          if holds (recorded_ip (get_entry m node_id)) ip then none else get_node_id_for_ip m ip))
unfolding reintegrate_node is_quarantined get_node_id_for_ip get_entry
reintegrate_node-lookups m node_id now j ip = (
  rw get-remove (ground arith),
  get-unblock_ip (recorded_ip (HashMap.get node_id m.quarantined_nodes)) m.quarantined_ips ip,
)
