-- ===== src/Tests/Memory.antt =====
-- network/memory_exchange.rs at concrete calls: two fragments for a verified peer, a tick of the decay
-- and a failed round of snapshots.
use pagi_digital_twin.Base.Results.{err, ok}
use pagi_digital_twin.Base.{
  ◌-◌, leb, ◌&&◌, ◌||◌, if◌then◌else◌, String, true, false, ◌≡◌, ◌≢◌, refl, List, [], ◌∷◌, none,
  some, arith,
}
use pagi_digital_twin.Base.HashMap
use pagi_digital_twin.Base.Float.{bits}
use pagi_digital_twin.Quarantine.{string_value}
use pagi_digital_twin.Handshake.{
  ok as accepted_with, get_peer, quarantine_check, compute_alignment_token, compute_manifest_hash,
  validate_nonce_timestamp,
}
use pagi_digital_twin.Handshake.Handlers.{initiate_handshake, complete_handshake}
use pagi_digital_twin.Handshake.History.{run}
use pagi_digital_twin.Handshake.Provenance.{Proved}
use pagi_digital_twin.MemoryExchange.{
  decayed_count, Service, hours, decay_topics, verify_alignment_token,
}
use pagi_digital_twin.MemoryExchange.Stream.{
  Scrubber, json, ScoredPoint, ExchangeMemoryRequest, stream_vectors, exchange_memory,
  search_and_redact, transfer,
}
use pagi_digital_twin.MemoryExchange.Transfer.{exchange_memory_provenance}
use pagi_digital_twin.MemoryExchange.Decay.{idle_over, decay_topics_idle}
use pagi_digital_twin.MemoryExchange.Snapshots.{
  Qdrant, not_sent, unavailable, unreachable, create_collection_snapshot, read_created,
  create_mesh_snapshot, has_recent_snapshot,
}
use pagi_digital_twin.MemoryExchange.Recovery.{create_mesh_snapshot_failed}
use package.pagi_digital_twin.Tests.Data.{clock, host, float}
use package.pagi_digital_twin.Tests.Handshakes.{start, calls}

abbrev scrubber : Scrubber
scrubber = record {
  script_exists = true;
  temp_written = true;
  run = λ s. json (some "[REDACTED]") (some 1);
  scrub_playbook = λ s. s;
}

abbrev point : ScoredPoint
point = record {
  id = some "1";
  vector = none;
  payload = ("content", some (string_value "secret")) ∷ [];
  score = bits 0;
}

abbrev node : Service
node = record {
  handshake_service = run host start calls;
  node_id = "blue";
  topic_frequencies = ("topic", record { count = 3; last_accessed = 0 }) ∷ [];
  node_volumes = [];
  last_snapshot = none;
  maintenance_mode = false;
}

abbrev two : List ScoredPoint
two = point ∷ point ∷ []

abbrev request : ExchangeMemoryRequest
request = record {
  requesting_node_id = "peer";
  topic = "topic";
  namespace = "ns";
  top_k = 5;
  alignment_token = "any";
}

served : (exchange_memory scrubber (λ i. true) node request 5 clock).0 ≡ accepted_with []
unfolding exchange_memory verify_alignment_token get_peer search_and_redact stream_vectors transfer
    initiate_handshake complete_handshake quarantine_check compute_manifest_hash
    compute_alignment_token validate_nonce_timestamp HashMap.get HashMap.insert HashMap.remove
served = refl

exchange_memory_provenance_example : Proved host "peer" [] start calls
exchange_memory_provenance_example =
    exchange_memory_provenance host start calls scrubber (λ i. true) node request 5 clock [] refl
      refl refl served

decay_topics_idle_example :
    HashMap.get "topic" (decay_topics float (hours 13) node).topic_frequencies
    ≡ elim (HashMap.get "topic" node.topic_frequencies) [
      | none ↦ none
      | some freq ↦
          if idle_over 24 (hours 13) freq
            || (idle_over 12 (hours 13) freq
                && leb (decayed_count float freq.count (hours 13 - freq.last_accessed)) 0)
          then none
          else some freq
    ]
unfolding HashMap.get
decay_topics_idle_example = decay_topics_idle float (hours 13) node "topic" (refl, tt)

abbrev down : Qdrant
down = record {
  delete = λ c t. none;
  create = λ c. not_sent "down";
  list = λ c. unavailable;
  recover = λ c i. unreachable "down";
}

never : (c path : String) → create_collection_snapshot down c ≢ ok path
unfolding create_collection_snapshot read_created
never c path e = cc

create_mesh_snapshot_failed_example :
    ((create_mesh_snapshot down node 100).0 ≡ err "Failed to create any snapshots")
    × (has_recent_snapshot (create_mesh_snapshot down node 100).1 200 ≡ true)
create_mesh_snapshot_failed_example =
    create_mesh_snapshot_failed down node 100 200
      (never "agent_logs", (never "telemetry", (never "playbooks", (never "quarantine_list", tt))))
      (omega arith) (omega arith)
