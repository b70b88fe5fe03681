-- ===== src/Bus.antt =====
-- backend-rust-orchestrator/src/bus/mod.rs: the events of the global message bus. A call that
-- publishes returns its events in order; delivery to the subscribers is tokio's broadcast channel.
use pagi_digital_twin.Base.{ℕ, String, Bool, List, Option}
use pagi_digital_twin.Base.Float.{F64}

pub data PhoenixEvent : Type 0 where
  task_update : (agent_id task status timestamp : String) → PhoenixEvent
  resource_warning :
      (agent_id agent_name resource_type current_value threshold timestamp : String) → PhoenixEvent
  agent_handshake : (agent_id agent_name mission timestamp : String) → PhoenixEvent
  broadcast_discovery : (source discovery_type details timestamp : String) → PhoenixEvent
  maintenance_started : (operation timestamp : String) → PhoenixEvent
  indexing_complete : (collections : List String) (timestamp : String) → PhoenixEvent
  unauthorized_node_detected : (node_id reason remote_address timestamp : String) → PhoenixEvent
  node_isolated : (node_id reason timestamp : String) → PhoenixEvent
  node_reintegrated : (node_id timestamp : String) → PhoenixEvent
  peer_verified :
      (node_id software_version manifest_hash remote_address timestamp : String) → PhoenixEvent
  node_discovered : (ip node_id timestamp : String) → PhoenixEvent
  compliance_alert :
      (agent_id manifest_hash : String) (compliance_score : F64) (quarantined_by timestamp : String)
      → PhoenixEvent
  consensus_request : (commit_hash requesting_node timestamp : String) → PhoenixEvent
  consensus_vote :
      (commit_hash voting_node : String) (compliance_score : F64) (approved : Bool)
      (timestamp : String)
      → PhoenixEvent
  consensus_result :
      (commit_hash : String) (approved : Bool) (average_score approval_percentage : F64)
      (total_votes : ℕ) (timestamp : String)
      → PhoenixEvent
  memory_exchange_request : (requesting_node topic namespace timestamp : String) → PhoenixEvent
  memory_transfer :
      (source_node destination_node topic : String)
      (fragments_count bytes_transferred redacted_entities_count : ℕ) (timestamp : String)
      → PhoenixEvent
  quarantine_alert : (entity_type entity_id reason quarantined_by timestamp : String) → PhoenixEvent
  memory_prune : (topic : String) (deleted_count : ℕ) (timestamp : String) → PhoenixEvent
  update_config : (rule_id rule_type config_data applied_by timestamp : String) → PhoenixEvent
  tool_proposal_created : (proposal_id agent_name tool_name : String) → PhoenixEvent
  tool_proposal_approved : (proposal_id tool_name installation_command : String) → PhoenixEvent
  tool_proposal_rejected : (proposal_id tool_name : String) → PhoenixEvent
  peer_review_request :
      (review_id requesting_agent_id requesting_agent_name expert_agent_id
        expert_agent_name : String)
      (tool_proposal_id tool_name github_url reasoning timestamp : String)
      → PhoenixEvent
  peer_review_response :
      (review_id expert_agent_id expert_agent_name decision reasoning : String)
      (alternative_playbook_id : Option String) (timestamp : String)
      → PhoenixEvent
  peer_review_consensus :
      (review_id tool_proposal_id consensus requesting_agent_id expert_agent_id timestamp : String)
      → PhoenixEvent
  post_mortem_retrospective :
      (retrospective_id playbook_id tool_name agent_id agent_name root_cause error_pattern : String)
      (suggested_patch : Option String) (reliability_impact : F64) (timestamp : String)
      → PhoenixEvent

-- The events that a call publishes, in order.
abbrev pub Events : Type 0
Events = List PhoenixEvent

-- The texts that successive readings of the clock in one call give.
abbrev pub Stamps : Type 0
Stamps = ℕ → String
