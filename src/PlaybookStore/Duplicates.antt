-- ===== src/PlaybookStore/Duplicates.antt =====
-- tools/playbook_store.rs: the second point that saving a playbook again makes.
use pagi_digital_twin.Base.{◌<◌, String, List, [], ◌∷◌, none, some, ◌≡◌, refl, ap, eq_refl}
use pagi_digital_twin.Base.Results.{ok}
use pagi_digital_twin.Base.Float.{F64, Float}
use pagi_digital_twin.PlaybookStore.{Payload, Playbook, Json, u32, payload_of, point_to_playbook}
use pagi_digital_twin.PlaybookStore.Payloads.{point_to_playbook-payload_of}
use pagi_digital_twin.PlaybookStore.Store.{
  PlaybookSearchResult, Qdrant, read_points, search_playbooks_by_tool, choose_point, save_playbook,
}

read_one :
    (fl : Float) (json : Json) (payload : Payload) (score : F64) (p : Playbook)
    → point_to_playbook fl json payload ≡ some p
    → read_points fl json (record { payload = payload; score = score } ∷ [])
      ≡ record { playbook = p; relevance_score = score } ∷ []
unfolding read_points
read_one fl json payload score p e =
    ap
      (λ o. elim o as (λ x. List PlaybookSearchResult) [
        | none ↦ []
        | some p' ↦ record { playbook = p'; relevance_score = score } ∷ []
      ])
      e

-- A playbook saved for the first time, and saved again when the search gives the point just stored: the
-- first save writes a point with the new identifier, the second one a point with the playbook's own.
-- Unless the two are the same the store then holds the playbook twice. The counts are within `u32`,
-- and serde_json prints the environment and reads it back.
pub save_playbook_twice :
    (fl : Float) (json : Json) (first second : Qdrant) (p : Playbook) (uuid uuid' raw : String)
    (score : F64)
    → p.success_count < u32
    → p.total_attempts < u32
    → json.to_string p.environment_config ≡ some raw
    → json.from_str raw ≡ some p.environment_config
    → first.ensure ≡ ok tt
    → first.search p.tool_name 1 ≡ ok []
    → first.upsert ≡ none
    → second.ensure ≡ ok tt
    → second.search p.tool_name 1 ≡ ok (record { payload = payload_of json p; score = score } ∷ [])
    → second.upsert ≡ none
    → (save_playbook fl json first p uuid
        ≡ (ok tt, some (record { point_id = uuid; payload = payload_of json p })))
      × (save_playbook fl json second p uuid'
          ≡ (ok tt, some (record { point_id = p.id; payload = payload_of json p })))
unfolding save_playbook search_playbooks_by_tool choose_point read_points
save_playbook_twice fl json first second p uuid uuid' raw score s t prints reads e f g e' f' g' = (
  rw (e, f, g) refl,
  rw
      (
        e',
        f',
        g',
        read_one fl json (payload_of json p) score p
            (point_to_playbook-payload_of fl json p raw s t prints reads),
        eq_refl p.installation_command,
      )
      refl,
)
