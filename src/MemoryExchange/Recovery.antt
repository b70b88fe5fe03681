-- ===== src/MemoryExchange/Recovery.antt =====
-- network/memory_exchange.rs: what a recovery, a failed snapshot and a pruning leave.
use pagi_digital_twin.Base.Results.{Result, err, ok}
use pagi_digital_twin.MemoryExchange.Snapshots.{push_path, report_paths, deleted}
use pagi_digital_twin.Base.{
  sym, ◌∙◌, ap, ℕ, ◌+◌, ◌≤◌, ◌<◌, String, Bool, true, false, List, [], ◌∷◌, any, Option, none, some,
  ◌≡◌, ◌≢◌, refl, if◌then◌else◌, arith, Bool-cases, inl, inr, All,
}
use pagi_digital_twin.Base.HashMap
use pagi_digital_twin.Base.HashMap.{get-remove_self}
use pagi_digital_twin.Base.Float.{Float}
use pagi_digital_twin.Bus.{Stamps, maintenance_started, memory_prune}
use pagi_digital_twin.MemoryExchange.{Service, hours}
use pagi_digital_twin.MemoryExchange.Snapshots.{
  Qdrant, RecoverReply, recovered, failed, unreachable, read_deleted, delete_topic_from_collection,
  delete_topic, prune_topic, create_collection_snapshot, create_snapshots, mesh_collections,
  create_mesh_snapshot, has_recent_snapshot, enable_maintenance_mode, disable_maintenance_mode,
  is_maintenance_mode, list_snapshots, is_snapshot, read_recovered, restore_from_snapshot,
}

read_recovered_ok : (r : RecoverReply) → read_recovered r ≡ ok tt → r ≡ recovered
unfolding read_recovered
read_recovered_ok recovered h = refl
read_recovered_ok (failed status error_text) h = cc
read_recovered_ok (unreachable e) h = cc

module _ (fl : Float) (cmp_lt : String → String → Bool) (q : Qdrant) (s : Service)
    (snapshot_id collection_name : String) (now : Stamps) where
  -- A recovery reports success only if the snapshot is in the listing and Qdrant has recovered it;
  -- then the start of the maintenance was announced.
  pub restore_from_snapshot-ok :
      (restore_from_snapshot fl cmp_lt q s snapshot_id collection_name now).0 ≡ ok tt
      → (any (is_snapshot snapshot_id collection_name) (list_snapshots fl cmp_lt q (now 0)) ≡ true)
        × (q.recover collection_name snapshot_id ≡ recovered)
        × ((restore_from_snapshot fl cmp_lt q s snapshot_id collection_name now).2
            ≡ maintenance_started "memory_restore" (now 0) ∷ [])
  unfolding restore_from_snapshot enable_maintenance_mode
  restore_from_snapshot-ok h =
      elim (Bool-cases
        (any (is_snapshot snapshot_id collection_name) (list_snapshots fl cmp_lt q (now 0)))) [
          | inl b ↦ (
            b,
            read_recovered_ok (q.recover collection_name snapshot_id) (ground (arith, b, h)),
            rw (b, if◌then◌else◌) refl,
          )
          | inr b ↦ ground (arith, b, h)
        ]

  -- Maintenance never outlives a recovery: whatever the listing and Qdrant's answer, a service that
  -- was not in maintenance is not afterwards, and nothing else of it has changed.
  pub restore_from_snapshot_mode :
      is_maintenance_mode s ≡ false
      → (restore_from_snapshot fl cmp_lt q s snapshot_id collection_name now).1 ≡ s
  unfolding restore_from_snapshot is_maintenance_mode enable_maintenance_mode
      disable_maintenance_mode
  restore_from_snapshot_mode h =
      elim (Bool-cases
        (any (is_snapshot snapshot_id collection_name) (list_snapshots fl cmp_lt q (now 0)))) [
          | inl b ↦
              rw (b, if◌then◌else◌) (ap (λ mode. record s { maintenance_mode = mode }) (sym h))
          | inr b ↦ rw (b, if◌then◌else◌) refl
        ]

push_path_failed :
    (r : Result String) (paths : List String)
    → ((path : String) → r ≢ ok path)
    → push_path r paths ≡ paths
push_path_failed (ok path) paths h = absurd (h path refl)
push_path_failed (err e) paths h = refl

create_snapshots_failed :
    (q : Qdrant) (collections : List String)
    → All (λ c. (path : String) → create_collection_snapshot q c ≢ ok path) collections
    → create_snapshots q collections ≡ []
unfolding create_snapshots
create_snapshots_failed q [] h = refl
create_snapshots_failed q (c ∷ cs) h =
    push_path_failed (create_collection_snapshot q c) (create_snapshots q cs) h.0
    ∙ create_snapshots_failed q cs h.1

deleted_zero :
    (q : Qdrant) (collection_name topic : String)
    → deleted (delete_topic_from_collection q collection_name topic) ≡ 0
unfolding delete_topic_from_collection read_deleted
deleted_zero q collection_name topic = deleted_read (q.delete collection_name topic)
  where
    deleted_read : (o : Option String) → deleted (read_deleted o) ≡ 0
    deleted_read none = refl
    deleted_read (some e) = refl

delete_topic_zero :
    (q : Qdrant) (topic : String) (collections : List String) → delete_topic q topic collections ≡ 0
unfolding delete_topic
delete_topic_zero q topic [] = refl
delete_topic_zero q topic (c ∷ cs) =
    omega (arith, deleted_zero q c topic, delete_topic_zero q topic cs)

-- A round of snapshots in which every collection fails reports an error, and yet for the next hour
-- the service has a recent snapshot.
pub create_mesh_snapshot_failed :
    (q : Qdrant) (s : Service) (time later : ℕ)
    → All (λ c. (path : String) → create_collection_snapshot q c ≢ ok path) mesh_collections
    → time ≤ later
    → later < time + hours 1
    → ((create_mesh_snapshot q s time).0 ≡ err "Failed to create any snapshots")
      × (has_recent_snapshot (create_mesh_snapshot q s time).1 later ≡ true)
unfolding create_mesh_snapshot has_recent_snapshot
create_mesh_snapshot_failed q s time later h le lt =
    (ap report_paths (create_snapshots_failed q mesh_collections h), ground (arith, le, lt))

-- A pruning reports and announces 0 deleted vectors, whatever Qdrant deletes or refuses; the topic is
-- no longer counted.
pub prune_topic_zero :
    (q : Qdrant) (s : Service) (topic : String) (now : Stamps)
    → ((prune_topic q s topic now).0 ≡ ok 0)
      × ((prune_topic q s topic now).2 ≡ memory_prune topic 0 (now 0) ∷ [])
      × (HashMap.get topic (prune_topic q s topic now).1.topic_frequencies ≡ none)
unfolding prune_topic
prune_topic_zero q s topic now =
    let zero_deleted = delete_topic_zero q topic ("agent_logs" ∷ "telemetry" ∷ "playbooks" ∷ []) in
    (
      ap ok zero_deleted,
      ap (λ n. memory_prune topic n (now 0) ∷ []) zero_deleted,
      get-remove_self topic s.topic_frequencies,
    )
