-- ===== src/MemoryExchange/Snapshots.antt =====
-- network/memory_exchange.rs: pruning of a topic, the snapshots of the collections, and recovery from
-- one. Qdrant's answers are the parameter `Qdrant`; the error texts that come with them are kept
-- whole. The 2 s pause of a recovery is left out.
use pagi_digital_twin.Base.Results.{Result, err, ok}
use pagi_digital_twin.Base.{
  ℕ, ◌+◌, ◌-◌, ◌/◌, String, Bool, true, false, ◌&&◌, List, [], ◌∷◌, ◌++◌, map, any, Option, none,
  some, unwrap_or, ltb, leb, ◌==◌, if◌then◌else◌,
}
use pagi_digital_twin.Base.HashMap
use pagi_digital_twin.Base.Float.{F64, Float}
use pagi_digital_twin.Bus.{maintenance_started, memory_prune, Events, Stamps}
use pagi_digital_twin.Host.{◌<>◌}
use pagi_digital_twin.MemoryExchange.{Service, nanoseconds}

-- A reply to the creation of a snapshot: none, a status that is no success with the body, a body
-- that is not JSON, or an object with or without `result.name`.
pub data CreateReply : Type 0 where
  not_sent : String → CreateReply
  refused : (status body : String) → CreateReply
  not_json : String → CreateReply
  created : (name : Option String) → CreateReply

-- An item of the listing.
pub record SnapshotJson : Type 0 where
  pub name : Option String
  pub size : Option ℕ
  pub creation_time : Option String

-- `listed` is `none` without the array `result.snapshots`.
pub data ListReply : Type 0 where
  unavailable : ListReply
  listed : Option (List SnapshotJson) → ListReply

pub data RecoverReply : Type 0 where
  recovered : RecoverReply
  failed : (status error_text : String) → RecoverReply
  unreachable : String → RecoverReply

pub record Qdrant : Type 0 where
  pub delete : (collection_name topic : String) → Option String  -- an error
  pub create : String → CreateReply
  pub list : String → ListReply
  pub recover : (collection_name snapshot_id : String) → RecoverReply

pub record SnapshotInfo : Type 0 where
  pub snapshot_id : String
  pub collection_name : String
  pub creation_time : String
  pub size : ℕ
  pub compliance_score : Option F64
  pub is_recommended : Bool
  pub is_blessed : Bool

unfoldable pub read_deleted : Option String → Result ℕ
read_deleted none = ok 0
read_deleted (some e) = err ("Failed to delete points from Qdrant: " <> e)

unfoldable pub delete_topic_from_collection : Qdrant → String → String → Result ℕ
delete_topic_from_collection q collection_name topic = read_deleted (q.delete collection_name topic)

abbrev pub deleted : Result ℕ → ℕ
deleted (ok count) = count
deleted (err e) = 0

unfoldable pub delete_topic : Qdrant → String → List String → ℕ
delete_topic q topic [] = 0
delete_topic q topic (collection_name ∷ collections) =
    deleted (delete_topic_from_collection q collection_name topic)
    + delete_topic q topic collections

unfoldable pub prune_topic : Qdrant → Service → String → Stamps → Result ℕ × Service × Events
prune_topic q s topic now =
    let total = delete_topic q topic ("agent_logs" ∷ "telemetry" ∷ "playbooks" ∷ []) in
    (
      ok total,
      record s { topic_frequencies = HashMap.remove topic s.topic_frequencies },
      memory_prune topic total (now 0) ∷ [],
    )

abbrev read_name : String → Option String → Result String
read_name collection_name none =
    err ("Snapshot create response missing result.name for " <> collection_name)
read_name collection_name (some name) = ok (collection_name <> ("/snapshots/" <> name))

unfoldable pub read_created : String → CreateReply → Result String
read_created collection_name (not_sent e) =
    err ("Failed to create snapshot via REST for " <> (collection_name <> (": " <> e)))
read_created collection_name (refused status body) = err (
    "Qdrant snapshot create failed for "
    <> (collection_name <> (" (status=" <> (status <> ("): " <> body)))))
read_created collection_name (not_json e) =
    err ("Failed to parse snapshot create response for " <> (collection_name <> (": " <> e)))
read_created collection_name (created name) = read_name collection_name name

unfoldable pub create_collection_snapshot : Qdrant → String → Result String
create_collection_snapshot q collection_name =
    read_created collection_name (q.create collection_name)

abbrev pub push_path : Result String → List String → List String
push_path (ok path) paths = path ∷ paths
push_path (err e) paths = paths

unfoldable pub create_snapshots : Qdrant → List String → List String
create_snapshots q [] = []
create_snapshots q (collection_name ∷ collections) =
    push_path (create_collection_snapshot q collection_name) (create_snapshots q collections)

abbrev pub mesh_collections : List String
mesh_collections = "agent_logs" ∷ "telemetry" ∷ "playbooks" ∷ "quarantine_list" ∷ []

abbrev pub report_paths : List String → Result (List String)
report_paths [] = err "Failed to create any snapshots"
report_paths (path ∷ paths) = ok (path ∷ paths)

-- `time` is the clock after the last collection.
unfoldable pub create_mesh_snapshot : Qdrant → Service → ℕ → Result (List String) × Service
create_mesh_snapshot q s time =
    (report_paths (create_snapshots q mesh_collections), record s { last_snapshot = some time })

abbrev recent : Option ℕ → ℕ → Bool
recent none time = false
recent (some snapshot_time) time =
    leb snapshot_time time && ltb ((time - snapshot_time) / nanoseconds) 3600

unfoldable pub has_recent_snapshot : Service → ℕ → Bool
has_recent_snapshot s time = recent s.last_snapshot time

unfoldable pub enable_maintenance_mode : Service → Stamps → Service × Events
enable_maintenance_mode s now =
    (record s { maintenance_mode = true }, maintenance_started "memory_restore" (now 0) ∷ [])

unfoldable pub disable_maintenance_mode : Service → Service
disable_maintenance_mode s = record s { maintenance_mode = false }

unfoldable pub is_maintenance_mode : Service → Bool
is_maintenance_mode s = s.maintenance_mode

-- No compliance record is consulted yet.
unfoldable pub calculate_snapshot_metadata : Option F64 × Bool × Bool
calculate_snapshot_metadata = (none, false, false)

abbrev listed_snapshot :
    String → String → Option String → Option ℕ → Option String → List SnapshotInfo
listed_snapshot collection_name now (some name) (some size) creation_time =
    record {
      snapshot_id = name;
      collection_name = collection_name;
      creation_time = unwrap_or creation_time now;
      size = size;
      compliance_score = calculate_snapshot_metadata.0;
      is_recommended = calculate_snapshot_metadata.1;
      is_blessed = calculate_snapshot_metadata.2;
    }
    ∷ []
listed_snapshot collection_name now _ _ creation_time = []

-- An item without a name or a size is left out.
unfoldable pub list_items : String → String → List SnapshotJson → List SnapshotInfo
list_items collection_name now [] = []
list_items collection_name now (item ∷ items) =
    listed_snapshot collection_name now item.name item.size item.creation_time
    ++ list_items collection_name now items

unfoldable pub list_reply : String → String → ListReply → List SnapshotInfo
list_reply collection_name now unavailable = []
list_reply collection_name now (listed none) = []
list_reply collection_name now (listed (some items)) = list_items collection_name now items

unfoldable pub list_collections : Qdrant → String → List String → List SnapshotInfo
list_collections q now [] = []
list_collections q now (collection_name ∷ collections) =
    list_reply collection_name now (q.list collection_name) ++ list_collections q now collections

-- `sort_by`, stable, newest first; `cmp_lt` is `<` on texts.
unfoldable pub insert_snapshot :
    (String → String → Bool) → SnapshotInfo → List SnapshotInfo → List SnapshotInfo
insert_snapshot cmp_lt a [] = a ∷ []
insert_snapshot cmp_lt a (b ∷ bs) =
    if cmp_lt a.creation_time b.creation_time then b ∷ insert_snapshot cmp_lt a bs else a ∷ b ∷ bs

unfoldable pub sort_snapshots : (String → String → Bool) → List SnapshotInfo → List SnapshotInfo
sort_snapshots cmp_lt [] = []
sort_snapshots cmp_lt (a ∷ bs) = insert_snapshot cmp_lt a (sort_snapshots cmp_lt bs)

abbrev mark_score : Float → SnapshotInfo → Option F64 → SnapshotInfo
mark_score fl snapshot none = snapshot
mark_score fl snapshot (some score) =
    if fl.ge score (fl.lit 95)
    then record snapshot { is_blessed = true; is_recommended = true }
    else if fl.ge score (fl.lit 80)
    then record snapshot { is_recommended = true }
    else snapshot

unfoldable pub mark_recommended_recovery_points : Float → List SnapshotInfo → List SnapshotInfo
mark_recommended_recovery_points fl snapshots =
    map (λ snapshot. mark_score fl snapshot snapshot.compliance_score) snapshots

unfoldable pub list_snapshots :
    Float → (String → String → Bool) → Qdrant → String → List SnapshotInfo
list_snapshots fl cmp_lt q now =
    mark_recommended_recovery_points fl
      (sort_snapshots cmp_lt (list_collections q now mesh_collections))

unfoldable pub is_snapshot : String → String → SnapshotInfo → Bool
is_snapshot snapshot_id collection_name s =
    (s.snapshot_id == snapshot_id) && (s.collection_name == collection_name)

unfoldable pub read_recovered : RecoverReply → Result Unit
read_recovered recovered = ok tt
read_recovered (failed status error_text) =
    err ("Qdrant restore failed: " <> (status <> (" - " <> error_text)))
read_recovered (unreachable e) = err ("Failed to connect to Qdrant: " <> e)

unfoldable pub restore_from_snapshot :
    Float
    → (String → String → Bool)
    → Qdrant
    → Service
    → String
    → String
    → Stamps
    → Result Unit × Service × Events
restore_from_snapshot fl cmp_lt q s snapshot_id collection_name now =
    if any (is_snapshot snapshot_id collection_name) (list_snapshots fl cmp_lt q (now 0))
    then (let enabled = enable_maintenance_mode s now in
        (
          read_recovered (q.recover collection_name snapshot_id),
          disable_maintenance_mode enabled.0,
          enabled.1,
        ))
    else (
      err ("Snapshot " <> (snapshot_id <> (" not found for collection " <> collection_name))),
      s,
      [],
    )
