-- ===== src/PlaybookStore/Payloads.antt =====
-- tools/playbook_store.rs: a playbook that is stored reads back as it was.
use pagi_digital_twin.Base.{
  unwrap_or, ℕ, ◌<◌, String, List, [], ◌∷◌, Option, none, some, ◌≡◌, refl, ap, ◌∙◌, ◌==◌,
  if◌then◌else◌, arith,
}
use pagi_digital_twin.Base.HashMap
use pagi_digital_twin.Base.HashMap.{HashMap, get-insert}
use pagi_digital_twin.Base.Int.{pos}
use pagi_digital_twin.Base.Float.{F64, Float}
use pagi_digital_twin.Values.{
  Value, string_value, double_value, integer_value, Payload, as_text, get_text,
}
use pagi_digital_twin.PlaybookStore.{
  Playbook, Json, u32, option_value, fields, put, insert_fields, payload_of, as_double, as_integer,
  as_u32, get_value, read_environment, point_to_playbook,
}

abbrev or_else : Option Value → Option Value → Option Value
or_else none b = b
or_else (some a) b = some a

-- The last field of a key.
abbrev last_field : String → List (String × Option Value) → Option Value
last_field key [] = none
last_field key ((k, v) ∷ fs) = or_else (last_field key fs) (if k == key then v else none)

get_value-put :
    (key k : String) (v : Option Value) (payload : Payload)
    → get_value (put k v payload) key
      ≡ or_else (if k == key then v else none) (get_value payload key)
get_value-put key k none payload = ground arith
get_value-put key k (some v) payload = ground (arith, get-insert k key (some v) payload)

or_else_assoc : (a b c : Option Value) → or_else a (or_else b c) ≡ or_else (or_else a b) c
or_else_assoc none b c = refl
or_else_assoc (some a) b c = refl

get_value-insert_fields :
    (key : String) (fs : List (String × Option Value)) (payload : Payload)
    → get_value (insert_fields fs payload) key ≡ or_else (last_field key fs) (get_value payload key)
unfolding insert_fields
get_value-insert_fields key [] payload = refl
get_value-insert_fields key ((k, v) ∷ fs) payload =
    get_value-insert_fields key fs (put k v payload)
    ∙ ap (or_else (last_field key fs)) (get_value-put key k v payload)
    ∙ or_else_assoc (last_field key fs) (if k == key then v else none) (get_value payload key)

or_else-none : (a : Option Value) → or_else a none ≡ a
or_else-none none = refl
or_else-none (some a) = refl

get_value-payload_of :
    (json : Json) (p : Playbook) (key : String)
    → get_value (payload_of json p) key ≡ last_field key (fields json p)
unfolding payload_of HashMap.get
get_value-payload_of json p key =
    get_value-insert_fields key (fields json p) [] ∙ or_else-none (last_field key (fields json p))

get_text-payload_of :
    (json : Json) (p : Playbook) (key : String)
    → get_text (payload_of json p) key ≡ as_text (last_field key (fields json p))
unfolding get_text
get_text-payload_of json p key = ap as_text (get_value-payload_of json p key)

as_text-option_value : (o : Option String) → as_text (option_value o) ≡ o
as_text-option_value none = refl
as_text-option_value (some s) = refl

module _ (json : Json) (p : Playbook) where
  required :
      (key s : String)
      → last_field key (fields json p) ≡ some (string_value s)
      → get_text (payload_of json p) key ≡ some s
  required key s e = get_text-payload_of json p key ∙ ap as_text e

  optional :
      (key : String) (o : Option String)
      → last_field key (fields json p) ≡ option_value o
      → get_text (payload_of json p) key ≡ o
  optional key o e = get_text-payload_of json p key ∙ ap as_text e ∙ as_text-option_value o

  counted :
      (key : String) (n : ℕ)
      → last_field key (fields json p) ≡ some (integer_value (pos n))
      → n < u32
      → as_u32 (unwrap_or (as_integer (get_value (payload_of json p) key)) (pos 0)) ≡ n
  unfolding as_u32
  counted key n e l =
      ap (λ v. as_u32 (unwrap_or (as_integer v) (pos 0))) (get_value-payload_of json p key ∙ e)
      ∙ omega (arith, l)

  scored :
      (key : String) (d default : F64)
      → last_field key (fields json p) ≡ some (double_value d)
      → unwrap_or (as_double (get_value (payload_of json p) key)) default ≡ d
  scored key d default e =
      ap (λ v. unwrap_or (as_double v) default) (get_value-payload_of json p key ∙ e)

-- A playbook whose counts are within `u32`, and whose environment serde_json prints and reads back,
-- reads back from its payload as it was.
pub point_to_playbook-payload_of :
    (fl : Float) (json : Json) (p : Playbook) (raw : String)
    → p.success_count < u32
    → p.total_attempts < u32
    → json.to_string p.environment_config ≡ some raw
    → json.from_str raw ≡ some p.environment_config
    → point_to_playbook fl json (payload_of json p) ≡ some p
unfolding point_to_playbook fields
point_to_playbook-payload_of fl json p raw s t e r =
    rw
      (
        required json p "id" p.id refl,
        required json p "tool_name" p.tool_name refl,
        required json p "installation_command" p.installation_command refl,
        required json p "installation_type" p.installation_type refl,
        required json p "verified_at" p.verified_at refl,
      )
      (λ i. some (record {
        id = p.id;
        tool_name = p.tool_name;
        repository = optional json p "repository" p.repository (simp or_else-none) i;
        language = optional json p "language" p.language (simp or_else-none) i;
        installation_command = p.installation_command;
        installation_type = p.installation_type;
        verification_command =
            optional json p "verification_command" p.verification_command (simp or_else-none) i;
        environment_config = environment i;
        reliability_score = scored json p "reliability_score" p.reliability_score (fl.lit 0) refl i;
        success_count = counted json p "success_count" p.success_count refl s i;
        total_attempts = counted json p "total_attempts" p.total_attempts refl t i;
        verified_by_agent =
            optional json p "verified_by_agent" p.verified_by_agent (simp or_else-none) i;
        verified_at = p.verified_at;
        last_used_at = optional json p "last_used_at" p.last_used_at (simp or_else-none) i;
        description = optional json p "description" p.description (simp or_else-none) i;
        github_url = optional json p "github_url" p.github_url (simp or_else-none) i;
      }))
  where
    environment :
        read_environment json (get_text (payload_of json p) "environment_config")
        ≡ p.environment_config
    environment =
        ap (read_environment json) (required json p "environment_config" raw (rw e refl))
        ∙ ap (λ o. unwrap_or o []) r
