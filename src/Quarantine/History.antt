-- ===== src/Quarantine/History.antt =====
-- network/quarantine.rs: quarantines and reintegrations one after the other.
use pagi_digital_twin.Base.{String, true, false, ◌≡◌, ◌≢◌, none, some, arith, eq_iff, eq_refl}
use pagi_digital_twin.Base.HashMap.{get-insert, get-remove}
use pagi_digital_twin.Bus.{Stamps}
use pagi_digital_twin.Quarantine.{
  QuarantineManager, is_quarantined, is_ip_quarantined, get_node_id_for_ip, get_entry,
  quarantine_node, reintegrate_node, recorded_ip,
}

-- A node and an address that were free are free again after a quarantine and a reintegration, and
-- every entry and every address is looked up as before.
pub reintegrate_node-quarantine_node :
    (m : QuarantineManager) (node_id ip reason by : String) (now later : Stamps)
    → is_quarantined m node_id ≡ false
    → is_ip_quarantined m ip ≡ false
    → (j a : String)
    → let m' =
        (reintegrate_node (quarantine_node m node_id (some ip) reason by now).0 node_id later).0 in
      (get_entry m' j ≡ get_entry m j) × (get_node_id_for_ip m' a ≡ get_node_id_for_ip m a)
unfolding quarantine_node reintegrate_node is_quarantined is_ip_quarantined get_entry
    get_node_id_for_ip
reintegrate_node-quarantine_node m node_id ip reason by now later free free_ip j a = (
  rw (get-remove, get-insert) (ground (arith, eq_iff node_id j)),
  rw (get-insert, eq_refl) (rw (get-remove, get-insert) (ground (arith, eq_iff ip a))),
)

-- A node that was quarantined at one address and then at another leaves the first address blocked
-- after its reintegration, which frees the second only.
pub reintegrate_node_stale_ip :
    (m : QuarantineManager) (node_id ip ip' reason by reason' by' : String)
    (now then' later : Stamps)
    → ip ≢ ip'
    → let m₁ = (quarantine_node m node_id (some ip) reason by now).0 in
      let m₂ = (quarantine_node m₁ node_id (some ip') reason' by' then').0 in
      let m₃ = (reintegrate_node m₂ node_id later).0 in
      (is_quarantined m₃ node_id ≡ false)
      × (get_node_id_for_ip m₃ ip ≡ some node_id)
      × (get_node_id_for_ip m₃ ip' ≡ none)
unfolding quarantine_node reintegrate_node is_quarantined get_node_id_for_ip
reintegrate_node_stale_ip m node_id ip ip' reason by reason' by' now then' later apart = (
  rw (get-remove, eq_refl),
  rw (get-insert, eq_refl)
      (rw get-remove
        (rw get-insert (rw get-insert (ground (arith, eq_iff ip ip', eq_iff ip' ip, eq_refl ip))))),
  rw (get-insert, eq_refl) (rw (get-remove, eq_refl)),
)

-- Two nodes quarantined at one address: reintegrating the second frees the address, though the
-- first is still quarantined with that address in its entry.
pub reintegrate_node_shared_ip :
    (m : QuarantineManager) (a b ip reason by reason' by' : String) (now then' later : Stamps)
    → a ≢ b
    → let m₁ = (quarantine_node m a (some ip) reason by now).0 in
      let m₂ = (quarantine_node m₁ b (some ip) reason' by' then').0 in
      let m₃ = (reintegrate_node m₂ b later).0 in
      (is_quarantined m₃ a ≡ true)
      × (recorded_ip (get_entry m₃ a) ≡ some ip)
      × (is_ip_quarantined m₃ ip ≡ false)
unfolding quarantine_node reintegrate_node is_quarantined is_ip_quarantined get_entry
reintegrate_node_shared_ip m a b ip reason by reason' by' now then' later apart = (
  rw (get-remove, get-insert, get-insert) (ground (arith, eq_iff a b, eq_iff b a, eq_refl a)),
  rw (get-remove, get-insert, get-insert) (ground (arith, eq_iff a b, eq_iff b a, eq_refl a)),
  rw (get-insert, eq_refl) (rw (get-remove, eq_refl)),
)
