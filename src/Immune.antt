-- ===== src/Immune.antt =====
-- backend-rust-orchestrator/src/network/immune_system.rs: manifests that a compliance alert made
-- untrusted. The propagation to peers only writes a log line for each, so it has no effect here.
pub mod Trust
use pagi_digital_twin.Base.{
  ℕ, String, Bool, true, false, ◌&&◌, List, [], ◌∷◌, Option, none, some, unwrap_or, is_empty,
  if◌then◌else◌,
}
use pagi_digital_twin.Base.HashMap
use pagi_digital_twin.Base.HashMap.{HashMap}
use pagi_digital_twin.Base.Float.{F64}
use pagi_digital_twin.Host.{Host, Read, content, failed, ◌<>◌}
use pagi_digital_twin.Bus.{PhoenixEvent, compliance_alert, Events, Stamps}

pub data ManifestTrustStatus : Type 0 where
  trusted untrusted quarantined : ManifestTrustStatus

pub record QuarantinedManifest : Type 0 where
  pub manifest_hash : String
  pub agent_id : String
  pub quarantined_by : String
  pub reason : String
  pub compliance_score : F64
  pub timestamp : String

pub record GlobalImmuneResponse : Type 0 where
  pub quarantined_manifests : HashMap QuarantinedManifest
  pub agent_manifest_map : HashMap String

unfoldable pub new : GlobalImmuneResponse
new = record { quarantined_manifests = []; agent_manifest_map = [] }

-- The content that goes into the hash: a file that cannot be read adds nothing.
abbrev pub hashed : Read → String
hashed (content s) = s
hashed (failed e) = ""

-- The loop over `possible_paths`.
hash_in : Host → List String → Option String
hash_in host [] = none
hash_in host (agent_dir ∷ dirs) =
    let manifest_path = host.join agent_dir "manifest.yaml" in
    let prompt_path = host.join agent_dir "prompt.txt" in
    if host.exists manifest_path && host.exists prompt_path
    then some (host.sha256_hex (hashed (host.read manifest_path) <> hashed (host.read prompt_path)))
    else hash_in host dirs

unfoldable pub compute_agent_manifest_hash : Host → String → Option String
unfolding hash_in
compute_agent_manifest_hash host agent_id =
    hash_in host
      (host.join "agents" agent_id ∷ host.join (host.join "test-agent-repo" "agents") agent_id ∷ [])

-- The hash that an alert is filed under.
unfoldable pub final_manifest_hash : Host → String → String → String
final_manifest_hash host agent_id manifest_hash =
    if is_empty manifest_hash
    then unwrap_or (compute_agent_manifest_hash host agent_id) ("agent_" <> agent_id)
    else manifest_hash

unfoldable pub handle_compliance_alert :
    Host
    → GlobalImmuneResponse
    → String
    → String
    → F64
    → String
    → Stamps
    → GlobalImmuneResponse × Events
handle_compliance_alert host g agent_id manifest_hash compliance_score node_id now = (
  record g {
    quarantined_manifests = HashMap.insert final quarantine g.quarantined_manifests;
    agent_manifest_map = HashMap.insert agent_id final g.agent_manifest_map;
  },
  compliance_alert agent_id final compliance_score node_id (now 1) ∷ [],
)
  where
    final : String
    final = final_manifest_hash host agent_id manifest_hash

    quarantine : QuarantinedManifest
    quarantine = record {
      manifest_hash = final;
      agent_id = agent_id;
      quarantined_by = node_id;
      reason = "Compliance score " <> host.show_f64 compliance_score <> " below threshold (70%)";
      compliance_score = compliance_score;
      timestamp = now 0;
    }

unfoldable pub handle_peer_quarantine :
    Host
    → GlobalImmuneResponse
    → String
    → String
    → String
    → F64
    → Stamps
    → GlobalImmuneResponse × Events
handle_peer_quarantine host g manifest_hash agent_id quarantined_by compliance_score now = (
  record g {
    quarantined_manifests = HashMap.insert manifest_hash quarantine g.quarantined_manifests;
    agent_manifest_map = HashMap.insert agent_id manifest_hash g.agent_manifest_map;
  },
  compliance_alert agent_id manifest_hash compliance_score quarantined_by (now 1) ∷ [],
)
  where
    quarantine : QuarantinedManifest
    quarantine = record {
      manifest_hash = manifest_hash;
      agent_id = agent_id;
      quarantined_by = quarantined_by;
      reason =
          "Quarantined by peer "
          <> quarantined_by
          <> " (compliance score: "
          <> host.show_f64 compliance_score
          <> ")";
      compliance_score = compliance_score;
      timestamp = now 0;
    }

unfoldable pub is_manifest_trusted : GlobalImmuneResponse → String → ManifestTrustStatus
is_manifest_trusted g manifest_hash =
    if HashMap.contains_key manifest_hash g.quarantined_manifests then untrusted else trusted

-- The agent's manifest, if one is on file.
abbrev mapped_trust : GlobalImmuneResponse → Option String → ManifestTrustStatus
mapped_trust g none = trusted
mapped_trust g (some manifest_hash) =
    if HashMap.contains_key manifest_hash g.quarantined_manifests then untrusted else trusted

unfoldable pub is_agent_manifest_trusted : GlobalImmuneResponse → String → ManifestTrustStatus
is_agent_manifest_trusted g agent_id = mapped_trust g (HashMap.get agent_id g.agent_manifest_map)

unfoldable pub get_quarantined_manifests : GlobalImmuneResponse → List QuarantinedManifest
get_quarantined_manifests g = HashMap.values g.quarantined_manifests
