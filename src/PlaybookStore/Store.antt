-- ===== src/PlaybookStore/Store.antt =====
-- tools/playbook_store.rs: the searches, the upserts and the statistics of the playbooks. Qdrant's
-- answers are parameters; an operation returns the point that it upserts, if it does. The embedding
-- vectors are left out.
use pagi_digital_twin.Base.{
  ℕ, suc, ◌-◌, ◌*◌, ◌/◌, ◌%◌, String, Bool, ◌&&◌, List, [], ◌∷◌, Option, none, some, unwrap_or, ltb,
  ◌==◌, if◌then◌else◌,
}
use pagi_digital_twin.Base.Results.{Result, ok, err}
use pagi_digital_twin.Base.Float.{F64, Float}
use pagi_digital_twin.Values.{Payload}
use pagi_digital_twin.Host.{◌<>◌}
use pagi_digital_twin.PlaybookStore.{Playbook, Json, u32, payload_of, point_to_playbook}

pub record PlaybookSearchResult : Type 0 where
  pub playbook : Playbook
  pub relevance_score : F64

pub record ScoredPoint : Type 0 where
  pub payload : Payload
  pub score : F64

-- Qdrant as a call finds it: the collection is there or can be made, a search answers for a tool, a
-- scroll with up to so many points, and an upsert is done or not.
pub record Qdrant : Type 0 where
  pub ensure : Result Unit
  pub search : (tool_name : String) → (limit : ℕ) → Result (List ScoredPoint)
  pub scroll : (limit : ℕ) → Result (List Payload)
  pub upsert : Option String  -- an error

pub record Upsert : Type 0 where
  pub point_id : String
  pub payload : Payload

unfoldable pub read_points : Float → Json → List ScoredPoint → List PlaybookSearchResult
read_points fl json [] = []
read_points fl json (point ∷ points) =
    let rest = read_points fl json points in
    elim (point_to_playbook fl json point.payload) [
      | none ↦ rest
      | some p ↦ record { playbook = p; relevance_score = point.score } ∷ rest
    ]

unfoldable pub read_payloads : Float → Json → List Payload → List Playbook
read_payloads fl json [] = []
read_payloads fl json (payload ∷ payloads) =
    let rest = read_payloads fl json payloads in
    elim (point_to_playbook fl json payload) [ none ↦ rest | some p ↦ p ∷ rest ]

abbrev pub map_ok : {A B : Type 0} → (A → B) → Result A → Result B
map_ok f (ok a) = ok (f a)
map_ok f (err e) = err e

abbrev pub ensured : {A : Type 0} → Result Unit → Result A → Result A
ensured (ok _) r = r
ensured (err e) r = err e

unfoldable pub search_playbooks_by_tool :
    Float → Json → Qdrant → String → Option ℕ → Result (List PlaybookSearchResult)
search_playbooks_by_tool fl json q tool_name limit =
    ensured q.ensure (map_ok (read_points fl json) (q.search tool_name (unwrap_or limit 5)))

-- The second filter; the first is Qdrant's.
unfoldable pub reliable : Float → Option F64 → List PlaybookSearchResult → List PlaybookSearchResult
reliable fl none results = results
reliable fl (some min_reliability) [] = []
reliable fl (some min_reliability) (r ∷ rs) =
    let rest = reliable fl (some min_reliability) rs in
    if fl.lt r.playbook.reliability_score min_reliability then rest else r ∷ rest

-- `search` is the answer to the query, with the filter on the score.
unfoldable pub search_playbooks_by_query :
    Float
    → Json
    → Qdrant
    → (search : Option F64 → ℕ → Result (List ScoredPoint)) → Option F64
    → Option ℕ
    → Result (List PlaybookSearchResult)
search_playbooks_by_query fl json q search min_reliability limit = ensured q.ensure (
    map_ok (λ points. reliable fl min_reliability (read_points fl json points))
      (search min_reliability (unwrap_or limit 10)))

unfoldable pub get_all_playbooks : Float → Json → Qdrant → Option ℕ → Result (List Playbook)
get_all_playbooks fl json q limit =
    ensured q.ensure (map_ok (read_payloads fl json) (q.scroll (unwrap_or limit 100)))

-- The point to write: that of the first result, by its playbook's identifier, if its command is the
-- same, and else a new one.
unfoldable pub choose_point : Playbook → (uuid : String) → List PlaybookSearchResult → String
choose_point p uuid [] = uuid
choose_point p uuid (r ∷ rs) =
    if r.playbook.installation_command == p.installation_command then r.playbook.id else uuid

abbrev pub Saved : Type 0
Saved = Result Unit × Option Upsert

abbrev pub upserted : Option String → Upsert → Saved
upserted none point = (ok tt, some point)
upserted (some e) point = (err ("Failed to save playbook to Qdrant: " <> e), none)

abbrev pub save_found :
    Json → Qdrant → Playbook → String → Result (List PlaybookSearchResult) → Saved
save_found json q p uuid (err e) = (err e, none)
save_found json q p uuid (ok found) =
    upserted q.upsert (record { point_id = choose_point p uuid found; payload = payload_of json p })

abbrev pub save_ensured : Float → Json → Qdrant → Playbook → String → Result Unit → Saved
save_ensured fl json q p uuid (err e) = (err e, none)
save_ensured fl json q p uuid (ok _) =
    save_found json q p uuid (search_playbooks_by_tool fl json q p.tool_name (some 1))

unfoldable pub save_playbook : Float → Json → Qdrant → Playbook → (uuid : String) → Saved
save_playbook fl json q p uuid = save_ensured fl json q p uuid q.ensure

-- The literals of the decay, as `f64`.
pub record Rates : Type 0 where
  pub cap : F64  -- 0.99
  pub raise : F64  -- 0.01
  pub decay : F64  -- 0.05
  pub min : F64 → F64 → F64

unfoldable pub rate : Float → Playbook → F64
rate fl p =
    if ltb 0 p.total_attempts
    then fl.div (fl.lit p.success_count) (fl.lit p.total_attempts)
    else fl.lit 0

unfoldable pub on_success : Float → Rates → Playbook → Playbook
on_success fl rates p =
    if ltb ((p.success_count - 1) / 10 * 10) (p.success_count / 10 * 10)
      && fl.lt p.reliability_score rates.cap
    then record p {
      reliability_score = rates.min (fl.add p.reliability_score rates.raise) rates.cap;
    }
    else record p { reliability_score = rate fl p }

unfoldable pub on_failure : Float → Rates → Playbook → Playbook
on_failure fl rates p = record p {
  reliability_score =
      fl.max (fl.sub p.reliability_score (fl.mul p.reliability_score rates.decay)) (rate fl p);
}

-- The counts wrap at 2^32.
unfoldable pub count_attempt : Bool → Playbook → Playbook
count_attempt success p = record p {
  success_count = if success then suc p.success_count % u32 else p.success_count;
  total_attempts = suc p.total_attempts % u32;
}

unfoldable pub updated_playbook : Float → Rates → Bool → (now : String) → Playbook → Playbook
updated_playbook fl rates success now p =
    let counted = count_attempt success p in
    record (if success then on_success fl rates counted else on_failure fl rates counted) {
      last_used_at = some now;
    }

unfoldable pub find_playbook : String → List Playbook → Option Playbook
find_playbook playbook_id [] = none
find_playbook playbook_id (p ∷ ps) =
    if p.id == playbook_id then some p else find_playbook playbook_id ps

abbrev pub save_update :
    Float → Json → Rates → Qdrant → Bool → (now uuid : String) → Option Playbook → Saved
save_update fl json rates q success now uuid none = (ok tt, none)
save_update fl json rates q success now uuid (some p) =
    save_playbook fl json q (updated_playbook fl rates success now p) uuid

abbrev pub update_found :
    Float
    → Json
    → Rates
    → Qdrant
    → String
    → Bool
    → (now uuid : String) → Result (List Playbook)
    → Saved
update_found fl json rates q playbook_id success now uuid (err e) = (err e, none)
update_found fl json rates q playbook_id success now uuid (ok playbooks) =
    save_update fl json rates q success now uuid (find_playbook playbook_id playbooks)

-- Only the first 1000 playbooks are looked at.
unfoldable pub update_playbook_stats :
    Float → Json → Rates → Qdrant → (playbook_id : String) → Bool → (now uuid : String) → Saved
update_playbook_stats fl json rates q playbook_id success now uuid =
    update_found fl json rates q playbook_id success now uuid
      (get_all_playbooks fl json q (some 1000))
