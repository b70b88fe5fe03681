-- ===== src/Tests/Quarantines.antt =====
-- network/quarantine.rs and network/immune_system.rs at concrete calls.
use pagi_digital_twin.Base.{
  false, not, ◌&&◌, ◌||◌, ◌≡◌, refl, List, [], ◌∷◌, none, some, ◌==◌, any, if◌then◌else◌,
}
use pagi_digital_twin.Base.HashMap
use pagi_digital_twin.Base.Float.{bits}
use pagi_digital_twin.Quarantine.{
  QuarantineManager, Payload, string_value, new, quarantine_node, reintegrate_node, is_quarantined,
  is_ip_quarantined, get_node_id_for_ip, get_entry, recorded_ip, load_from_qdrant, list_quarantined,
}
use pagi_digital_twin.Quarantine.Lookup.{holds, quarantine_node-lookups, reintegrate_node-lookups}
use pagi_digital_twin.Quarantine.History.{reintegrate_node-quarantine_node}
use pagi_digital_twin.Quarantine.Startup.{names_node, names_ip, scrolled, load_from_qdrant-lookups}
use pagi_digital_twin.Quarantine.Invariant.{
  Call, quarantines, reintegrates, loads, run, recount, run-new_quarantined,
}
use pagi_digital_twin.Immune.{
  trusted, untrusted, new as new_immune, is_manifest_trusted, is_agent_manifest_trusted,
}
use pagi_digital_twin.Immune.Trust.{
  Alert, local, peer, agent_of, hash_of, run as run_alerts, run-new_trust,
}
use package.pagi_digital_twin.Tests.Data.{clock, host}

-- One node in quarantine with its address.
abbrev one_node : QuarantineManager
one_node = record {
  quarantined_nodes =
      (
        "n1",
        record {
          node_id = "n1";
          ip_address = some "10.0.0.1";
          reason = "drift";
          timestamp = "t";
          quarantined_by = "admin";
        },
      )
      ∷ [];
  quarantined_ips = ("10.0.0.1", "n1") ∷ [];
  qdrant_client = some (record { scroll = λ limit. some (point ∷ []) });
}
  where
    point : Payload
    point =
        ("node_id", some (string_value "n2")) ∷ ("ip_address", some (string_value "10.0.0.2")) ∷ []

quarantine_node-lookups_example :
    let m' = (quarantine_node one_node "n2" (some "10.0.0.2") "drift" "admin" clock).0 in
    (is_quarantined m' "n1" ≡ ("n2" == "n1" || is_quarantined one_node "n1"))
    × (get_node_id_for_ip m' "10.0.0.2" ≡ (
        if holds (some "10.0.0.2") "10.0.0.2"
        then some "n2"
        else get_node_id_for_ip one_node "10.0.0.2"))
quarantine_node-lookups_example =
    quarantine_node-lookups one_node "n2" (some "10.0.0.2") "drift" "admin" clock "n1" "10.0.0.2"

reintegrate_node-lookups_example :
    let m' = (reintegrate_node one_node "n1" clock).0 in
    (is_quarantined m' "n1" ≡ (not ("n1" == "n1") && is_quarantined one_node "n1"))
    × (get_node_id_for_ip m' "10.0.0.1" ≡ (
        if holds (recorded_ip (get_entry one_node "n1")) "10.0.0.1"
        then none
        else get_node_id_for_ip one_node "10.0.0.1"))
reintegrate_node-lookups_example = reintegrate_node-lookups one_node "n1" clock "n1" "10.0.0.1"

reintegrate_node-quarantine_node_example :
    let m' =
      (reintegrate_node
        (quarantine_node one_node "n2" (some "10.0.0.2") "drift" "admin" clock).0
        "n2"
        clock).0 in
    (get_entry m' "n1" ≡ get_entry one_node "n1")
    × (get_node_id_for_ip m' "10.0.0.1" ≡ get_node_id_for_ip one_node "10.0.0.1")
unfolding is_quarantined is_ip_quarantined HashMap.get
reintegrate_node-quarantine_node_example =
    reintegrate_node-quarantine_node one_node "n2" "10.0.0.2" "drift" "admin" clock clock refl refl
      "n1" "10.0.0.1"

load_from_qdrant-lookups_example :
    (is_quarantined (load_from_qdrant one_node clock) "n2"
      ≡ (is_quarantined one_node "n2" || any (names_node "n2") (scrolled one_node.qdrant_client)))
    × (is_ip_quarantined (load_from_qdrant one_node clock) "10.0.0.2" ≡ (
        is_ip_quarantined one_node "10.0.0.2"
        || any (names_ip "10.0.0.2") (scrolled one_node.qdrant_client)))
load_from_qdrant-lookups_example = load_from_qdrant-lookups one_node clock "n2" "10.0.0.2"

abbrev calls : List Call
calls =
    quarantines "n1" (some "10.0.0.1") "drift" "admin" clock
    ∷ loads clock
    ∷ reintegrates "n1" clock
    ∷ []

run-new_quarantined_example :
    (is_quarantined (run (new one_node.qdrant_client) calls) "n2"
      ≡ recount (scrolled one_node.qdrant_client) "n2" false calls)
    × (any (λ e. e.node_id == "n2") (list_quarantined (run (new one_node.qdrant_client) calls))
        ≡ recount (scrolled one_node.qdrant_client) "n2" false calls)
run-new_quarantined_example = run-new_quarantined one_node.qdrant_client calls "n2"

abbrev alerts : List Alert
alerts =
    local "agent" "" (bits 33) "local" clock ∷ peer "sha256:x" "other" "peer" (bits 0) clock ∷ []

run-new_trust_example :
    (is_manifest_trusted (run_alerts host new_immune alerts) "sha256:x"
      ≡ (if any (λ x. hash_of host x == "sha256:x") alerts then untrusted else trusted))
    × (is_agent_manifest_trusted (run_alerts host new_immune alerts) "agent"
        ≡ (if any (λ x. agent_of x == "agent") alerts then untrusted else trusted))
run-new_trust_example = run-new_trust host alerts "sha256:x" "agent"
