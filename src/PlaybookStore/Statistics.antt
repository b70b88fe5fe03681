-- ===== src/PlaybookStore/Statistics.antt =====
-- tools/playbook_store.rs: the counts that an update of the statistics writes.
use pagi_digital_twin.Base.{
  suc, ◌≤◌, ◌<◌, String, Bool, true, false, List, [], ◌∷◌, Option, none, some, ◌≡◌, refl, sym, ap,
  ◌∙◌, if◌then◌else◌, arith, eq_iff,
}
use pagi_digital_twin.Base.Results.{Result, ok, err}
use pagi_digital_twin.Base.Float.{Float}
use pagi_digital_twin.PlaybookStore.{Payload, Playbook, Json, u32, payload_of, point_to_playbook}
use pagi_digital_twin.PlaybookStore.Payloads.{point_to_playbook-payload_of}
use pagi_digital_twin.Base.{◌-◌, ◌*◌, ◌/◌, ltb, ◌&&◌}
use pagi_digital_twin.Base.Float.{F64}
use pagi_digital_twin.PlaybookStore.Store.{
  rate, PlaybookSearchResult, Qdrant, Upsert, get_all_playbooks, upserted, save_found, save_ensured,
  save_playbook, Rates, on_success, on_failure, count_attempt, updated_playbook, find_playbook,
  save_update, update_playbook_stats, search_playbooks_by_tool, choose_point,
}

module _ (json : Json) (p : Playbook) where
  upserted-payload :
      (answer : Option String) (point_id : String) (u : Upsert)
      → (upserted answer (record { point_id = point_id; payload = payload_of json p })).1 ≡ some u
      → u.payload ≡ payload_of json p
  upserted-payload none point_id u h = ap payload_at (sym h)
    where
      payload_at : Option Upsert → Payload
      payload_at none = payload_of json p
      payload_at (some v) = v.payload
  upserted-payload (some e) point_id u h = cc

  save_found-payload :
      (q : Qdrant) (uuid : String) (found : Result (List PlaybookSearchResult)) (u : Upsert)
      → (save_found json q p uuid found).1 ≡ some u
      → u.payload ≡ payload_of json p
  save_found-payload q uuid (err e) u h = cc
  save_found-payload q uuid (ok found) u h =
      upserted-payload q.upsert (choose_point p uuid found) u h

  save_ensured-payload :
      (fl : Float) (q : Qdrant) (uuid : String) (r : Result Unit) (u : Upsert)
      → (save_ensured fl json q p uuid r).1 ≡ some u
      → u.payload ≡ payload_of json p
  save_ensured-payload fl q uuid (err e) u h = cc
  save_ensured-payload fl q uuid (ok _) u h =
      save_found-payload q uuid (search_playbooks_by_tool fl json q p.tool_name (some 1)) u h

  pub save_playbook-payload :
      (fl : Float) (q : Qdrant) (uuid : String) (u : Upsert)
      → (save_playbook fl json q p uuid).1 ≡ some u
      → u.payload ≡ payload_of json p
  unfolding save_playbook
  save_playbook-payload fl q uuid u h = save_ensured-payload fl q uuid q.ensure u h

find_playbook-id :
    (playbook_id : String) (ps : List Playbook) (p : Playbook)
    → find_playbook playbook_id ps ≡ some p
    → p.id ≡ playbook_id
unfolding find_playbook
find_playbook-id playbook_id [] p h = cc
find_playbook-id playbook_id (x ∷ xs) p h =
    ground (arith, eq_iff x.id playbook_id, h, find_playbook-id playbook_id xs p)

-- One more attempt, one more success if it was one, and all else but the score and the last use kept.
pub record Counted (p p' : Playbook) (success : Bool) : Type 0 where
  pub same_id : p'.id ≡ p.id
  pub same_environment : p'.environment_config ≡ p.environment_config
  pub attempts : p'.total_attempts ≡ suc p.total_attempts
  pub successes : p'.success_count ≡ (if success then suc p.success_count else p.success_count)

-- The score alone changes.
abbrev Kept : Playbook → Playbook → Type 0
Kept p p' =
    (p'.id ≡ p.id)
    × (p'.environment_config ≡ p.environment_config)
    × (p'.total_attempts ≡ p.total_attempts)
    × (p'.success_count ≡ p.success_count)

scored_if-Kept :
    (b : Bool) (p : Playbook) (x y : F64)
    → Kept p (if b then record p { reliability_score = x } else record p { reliability_score = y })
scored_if-Kept true p x y = (refl, refl, refl, refl)
scored_if-Kept false p x y = (refl, refl, refl, refl)

on_success-Kept : (fl : Float) (rates : Rates) (p : Playbook) → Kept p (on_success fl rates p)
unfolding on_success
on_success-Kept fl rates p =
    scored_if-Kept
      (ltb ((p.success_count - 1) / 10 * 10) (p.success_count / 10 * 10)
        && fl.lt p.reliability_score rates.cap)
      p (rates.min (fl.add p.reliability_score rates.raise) rates.cap) (rate fl p)

updated_playbook-Counted :
    (fl : Float) (rates : Rates) (success : Bool) (now : String) (p : Playbook)
    → p.success_count ≤ p.total_attempts
    → suc p.total_attempts < u32
    → Counted p (updated_playbook fl rates success now p) success
unfolding updated_playbook count_attempt on_failure
updated_playbook-Counted fl rates true now p le lt =
    let kept = on_success-Kept fl rates (count_attempt true p) in
    record {
      same_id = kept.0;
      same_environment = kept.1;
      attempts = omega (arith, lt, kept.2);
      successes = omega (arith, le, lt, kept.3);
    }
updated_playbook-Counted fl rates false now p le lt = record {
  same_id = refl;
  same_environment = refl;
  attempts = omega (arith, lt);
  successes = refl;
}

save_update-payload :
    (fl : Float) (json : Json) (rates : Rates) (q : Qdrant) (success : Bool) (now uuid : String)
    (o : Option Playbook) (p : Playbook) (u : Upsert)
    → o ≡ some p
    → (save_update fl json rates q success now uuid o).1 ≡ some u
    → u.payload ≡ payload_of json (updated_playbook fl rates success now p)
save_update-payload fl json rates q success now uuid o p u e h =
    save_playbook-payload json (updated_playbook fl rates success now p) fl q uuid u (rw e at h)

counts_in_order :
    (p p' : Playbook) (success : Bool)
    → p.success_count ≤ p.total_attempts
    → Counted p p' success
    → p'.success_count ≤ p'.total_attempts
counts_in_order p p' true le c = omega (arith, le, c.attempts, c.successes)
counts_in_order p p' false le c = omega (arith, le, c.attempts, c.successes)

-- An update that writes a point: when the playbook found by the identifier, among the first 1000, has no
-- more successes than attempts, fewer than 2^32 - 1 attempts, and an environment that serde_json prints
-- and reads back, then the point reads back as a playbook with the same identifier, one more attempt,
-- one more success exactly if it was one, and still no more successes than attempts.
pub update_playbook_stats-point_to_playbook :
    (fl : Float) (json : Json) (rates : Rates) (q : Qdrant) (playbook_id : String) (success : Bool)
    (now uuid raw : String) (ps : List Playbook) (p : Playbook) (u : Upsert)
    → get_all_playbooks fl json q (some 1000) ≡ ok ps
    → find_playbook playbook_id ps ≡ some p
    → p.success_count ≤ p.total_attempts
    → suc p.total_attempts < u32
    → json.to_string p.environment_config ≡ some raw
    → json.from_str raw ≡ some p.environment_config
    → (update_playbook_stats fl json rates q playbook_id success now uuid).1 ≡ some u
    → (p' : Playbook) × (point_to_playbook fl json u.payload ≡ some p')
      × (p'.id ≡ playbook_id)
      × (p'.total_attempts ≡ suc p.total_attempts)
      × (p'.success_count ≡ (if success then suc p.success_count else p.success_count))
      × (p'.success_count ≤ p'.total_attempts)
unfolding update_playbook_stats
update_playbook_stats-point_to_playbook fl json rates q playbook_id success now uuid raw ps p u all
      found le lt prints reads h =
    let p' = updated_playbook fl rates success now p in
    let c = updated_playbook-Counted fl rates success now p le lt in
    let in_order = counts_in_order p p' success le c in
    (
      p',
      ap (point_to_playbook fl json) (
            save_update-payload fl json rates q success now uuid (find_playbook playbook_id ps) p u
              found (rw all at h))
          ∙ point_to_playbook-payload_of fl json p' raw (omega (arith, in_order, c.attempts, lt))
              (omega (arith, c.attempts, lt)) (ap json.to_string c.same_environment ∙ prints)
              (reads ∙ ap some (sym c.same_environment)),
      c.same_id ∙ find_playbook-id playbook_id ps p found,
      c.attempts,
      c.successes,
      in_order,
    )
