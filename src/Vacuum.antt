-- ===== src/Vacuum.antt =====
-- backend-rust-orchestrator/src/memory/vacuum.rs and optimizer.rs: the daily pruning of two
-- collections, and the reindexing after it. Qdrant is known by its answers: `Scrolls` are those to the
-- successive scrolls and deletions of one pruning. Times, `parse` of a number and the conversion of an
-- integer to `f64` are parameters.
pub mod Pruning
use pagi_digital_twin.Base.{
  ℕ, ◌+◌, String, Bool, true, false, not, ◌&&◌, List, [], ◌∷◌, ◌++◌, length, Option, none, some,
  unwrap_or, ltb, ◌==◌, if◌then◌else◌,
}
use pagi_digital_twin.Base.HashMap
use pagi_digital_twin.Base.Results.{Result, ok, err}
use pagi_digital_twin.Base.Int.{ℤ, ltb_ℤ}
use pagi_digital_twin.Base.Float.{F64, Float}
use pagi_digital_twin.Bus.{maintenance_started, indexing_complete, Events, Stamps}
use pagi_digital_twin.Values.{
  Value, string_value, double_value, integer_value, other_value, Payload, flatten, get_text,
}

pub record Reading : Type 0 where
  pub parse_from_rfc3339 : String → Option ℤ
  pub parse_f64 : String → Option F64
  pub of_int : ℤ → F64

-- `importance_threshold` is 0.8 by default; `cutoff_time` is now less the days of retention.
pub record PruningConfig : Type 0 where
  pub collections : List String
  pub cutoff_time : ℤ
  pub importance_threshold : F64

pub record Point : Type 0 where
  pub id : Option String
  pub payload : Payload

abbrev pub before : ℤ → Option ℤ → Bool
before cutoff none = false
before cutoff (some ts) = ltb_ℤ ts cutoff

abbrev pub parsed : Reading → Option String → Option ℤ
parsed r none = none
parsed r (some text) = r.parse_from_rfc3339 text

-- A timestamp that is missing or cannot be read is not old.
unfoldable pub is_old : Reading → PruningConfig → Payload → Bool
is_old r c payload = before c.cutoff_time (parsed r (get_text payload "timestamp"))

abbrev number : Reading → Option Value → Option F64
number r none = none
number r (some (double_value d)) = some d
number r (some (integer_value i)) = some (r.of_int i)
number r (some (string_value s)) = r.parse_f64 s
number r (some other_value) = none

unfoldable pub importance_score : Float → Reading → Payload → F64
importance_score fl r payload =
    unwrap_or (number r (flatten (HashMap.get "importance_score" payload))) (fl.lit 0)

unfoldable pub should_preserve : Float → Reading → PruningConfig → Payload → Bool
should_preserve fl r c payload =
    fl.lt c.importance_threshold (importance_score fl r payload)
    && (unwrap_or (get_text payload "status") "" == "essential")

abbrev pub doomed : Float → Reading → PruningConfig → Payload → Bool
doomed fl r c payload = is_old r c payload && not (should_preserve fl r c payload)

abbrev pub id_of : Bool → Option String → List String
id_of true (some id) = id ∷ []
id_of _ _ = []

unfoldable pub points_to_delete : Float → Reading → PruningConfig → List Point → List String
points_to_delete fl r c [] = []
points_to_delete fl r c (p ∷ ps) =
    id_of (doomed fl r c p.payload) p.id ++ points_to_delete fl r c ps

-- A scroll that fails, or a page with the answer to the deletion of its points, if it is asked for.
pub data Scrolls : Type 0 where
  broken : String → Scrolls
  page : List Point → (refused : Option String) → Scrolls → Scrolls

abbrev pub batch : ℕ
batch = 10000

abbrev none_left : List String → Bool
none_left [] = true
none_left (id ∷ ids) = false

-- The reply and the points deleted.
abbrev pub Pruned : Type 0
Pruned = Result ℕ × List String

-- The end of the loop's body, after a deletion: `rest` is the rest of the loop.
unfoldable pub after_delete : (is_last : Bool) → ℕ → List String → Option String → Pruned → Pruned
after_delete is_last total ids (some e) rest = (err e, [])
after_delete is_last total ids none rest =
    if is_last then (ok (total + length ids), ids) else (rest.0, ids ++ rest.1)

unfoldable pub prune_page : (is_last : Bool) → ℕ → List String → Option String → Pruned → Pruned
prune_page is_last total ids refused rest =
    if none_left ids
    then (if is_last then (ok total, []) else rest)
    else after_delete is_last total ids refused rest

-- The loop over the pages; it ends at an empty page, a page that is not full, or a failure.
unfoldable pub prune_pages : Float → Reading → PruningConfig → ℕ → Scrolls → Pruned
prune_pages fl r c total (broken e) = (err e, [])
prune_pages fl r c total (page [] refused scrolls) = (ok total, [])
prune_pages fl r c total (page (p ∷ ps) refused scrolls) =
    let ids = points_to_delete fl r c (p ∷ ps) in
    let rest = prune_pages fl r c (total + length ids) scrolls in
    prune_page (ltb (length (p ∷ ps)) batch) total ids refused rest

unfoldable pub prune_collection : Float → Reading → PruningConfig → Scrolls → Pruned
prune_collection fl r c scrolls = prune_pages fl r c 0 scrolls

abbrev pub count_of : Result ℕ → ℕ
count_of (ok count) = count
count_of (err e) = 0

-- The loop over the collections: a failed one counts nothing.
unfoldable pub prune_collections :
    Float → Reading → PruningConfig → (String → Scrolls) → List String → ℕ
prune_collections fl r c scrolls [] = 0
prune_collections fl r c scrolls (collection ∷ collections) =
    count_of (prune_collection fl r c (scrolls collection)).0
    + prune_collections fl r c scrolls collections

-- `update` is the answer to the update of a collection: an error, or none.
unfoldable pub split_collections :
    (update : String → Option String) → List String → List String × List String
split_collections update [] = ([], [])
split_collections update (collection ∷ collections) =
    let rest = split_collections update collections in
    elim (update collection) [
      | none ↦ (collection ∷ rest.0, rest.1)
      | some e ↦ (rest.0, collection ∷ rest.1)
    ]

abbrev completed : List String → Stamps → Events
completed [] now = []
completed (collection ∷ collections) now = indexing_complete (collection ∷ collections) (now 1) ∷ []

-- The error carries the collections that failed.
abbrev pub Reindexed : Type 0
Reindexed = Option (List String)

abbrev failures : List String → Reindexed
failures [] = none
failures (collection ∷ collections) = some (collection ∷ collections)

unfoldable pub run_reindexing :
    (update : String → Option String) → List String → Stamps → Reindexed × Events
run_reindexing update collections now =
    let parts = split_collections update collections in
    (failures parts.1, maintenance_started "memory_reindexing" (now 0) ∷ completed parts.0 now)

-- A failed reindexing does not fail the pruning.
unfoldable pub run_pruning :
    Float
    → Reading
    → PruningConfig
    → (String → Scrolls)
    → (update : String → Option String) → Stamps
    → ℕ × Events
run_pruning fl r c scrolls update now = (
  prune_collections fl r c scrolls c.collections,
  maintenance_started "memory_pruning" (now 0)
      ∷ (run_reindexing update ("agent_logs" ∷ "long_term_memory" ∷ []) now).1,
)
