-- ===== src/PlaybookStore.antt =====
-- backend-rust-orchestrator/src/tools/playbook_store.rs: a playbook and its payload in Qdrant. serde_json
-- is a parameter.
pub mod Store
pub mod Payloads
pub mod Statistics
pub mod Duplicates
use pagi_digital_twin.Base.{
  ℕ, suc, ◌+◌, ◌-◌, ◌*◌, ◌/◌, ◌%◌, String, Bool, true, false, not, ◌&&◌, List, [], ◌∷◌, ◌++◌, take,
  Option, none, some, unwrap_or, ltb, leb, ◌==◌, if◌then◌else◌,
}
use pagi_digital_twin.Base.HashMap
use pagi_digital_twin.Base.HashMap.{HashMap}
use pagi_digital_twin.Base.Results.{Result, ok, err}
use pagi_digital_twin.Base.Int.{ℤ, pos, negsuc}
use pagi_digital_twin.Base.Float.{F64, Float}
use pagi_digital_twin.Values.{
  Value, string_value, double_value, integer_value, Payload, flatten, get_text,
}
use pagi_digital_twin.Host.{◌<>◌}

-- The two counts are `u32`.
pub record Playbook : Type 0 where
  pub id : String
  pub tool_name : String
  pub repository : Option String
  pub language : Option String
  pub installation_command : String
  pub installation_type : String
  pub verification_command : Option String
  pub environment_config : HashMap String
  pub reliability_score : F64
  pub success_count : ℕ
  pub total_attempts : ℕ
  pub verified_by_agent : Option String
  pub verified_at : String
  pub last_used_at : Option String
  pub description : Option String
  pub github_url : Option String

-- serde_json on the environment: `to_string` and `from_str`, `none` for an error.
pub record Json : Type 0 where
  pub to_string : HashMap String → Option String
  pub from_str : String → Option (HashMap String)

abbrev pub u32 : ℕ
u32 = 4294967296

abbrev text_field : String → String → String × Option Value
text_field key s = (key, some (string_value s))

abbrev pub option_value : Option String → Option Value
option_value none = none
option_value (some s) = some (string_value s)

-- The insertions in their order; `none` is one that is left out.
unfoldable pub fields : Json → Playbook → List (String × Option Value)
fields json p =
    text_field "id" p.id
    ∷ text_field "tool_name" p.tool_name
    ∷ ("repository", option_value p.repository)
    ∷ ("language", option_value p.language)
    ∷ text_field "installation_command" p.installation_command
    ∷ text_field "installation_type" p.installation_type
    ∷ ("verification_command", option_value p.verification_command)
    ∷ ("reliability_score", some (double_value p.reliability_score))
    ∷ ("success_count", some (integer_value (pos p.success_count)))
    ∷ ("total_attempts", some (integer_value (pos p.total_attempts)))
    ∷ ("verified_by_agent", option_value p.verified_by_agent)
    ∷ text_field "verified_at" p.verified_at
    ∷ ("last_used_at", option_value p.last_used_at)
    ∷ ("description", option_value p.description)
    ∷ ("github_url", option_value p.github_url)
    ∷ ("environment_config", option_value (json.to_string p.environment_config))
    ∷ []

abbrev pub put : String → Option Value → Payload → Payload
put key none payload = payload
put key (some v) payload = HashMap.insert key (some v) payload

unfoldable pub insert_fields : List (String × Option Value) → Payload → Payload
insert_fields [] payload = payload
insert_fields ((key, v) ∷ fs) payload = insert_fields fs (put key v payload)

unfoldable pub payload_of : Json → Playbook → Payload
payload_of json p = insert_fields (fields json p) []

abbrev pub as_double : Option Value → Option F64
as_double (some (double_value d)) = some d
as_double _ = none

abbrev pub as_integer : Option Value → Option ℤ
as_integer (some (integer_value i)) = some i
as_integer _ = none

-- `as u32` of an `i64`
unfoldable pub as_u32 : ℤ → ℕ
as_u32 (pos n) = n % u32
as_u32 (negsuc n) = u32 - 1 - n % u32

abbrev pub get_value : Payload → String → Option Value
get_value payload key = flatten (HashMap.get key payload)

abbrev pub read_environment : Json → Option String → HashMap String
read_environment json none = []
read_environment json (some s) = unwrap_or (json.from_str s) []

-- The five texts that a point must have, and the rest with their defaults.
abbrev pub read_fields :
    Float
    → Json
    → Payload
    → (id tool_name installation_command installation_type verified_at : Option String)
    → Option Playbook
read_fields fl json payload (some id) (some tool_name) (some command) (some kind)
      (some verified_at) =
    some (record {
      id = id;
      tool_name = tool_name;
      repository = get_text payload "repository";
      language = get_text payload "language";
      installation_command = command;
      installation_type = kind;
      verification_command = get_text payload "verification_command";
      environment_config = read_environment json (get_text payload "environment_config");
      reliability_score = unwrap_or (as_double (get_value payload "reliability_score")) (fl.lit 0);
      success_count = as_u32 (unwrap_or (as_integer (get_value payload "success_count")) (pos 0));
      total_attempts = as_u32 (unwrap_or (as_integer (get_value payload "total_attempts")) (pos 0));
      verified_by_agent = get_text payload "verified_by_agent";
      verified_at = verified_at;
      last_used_at = get_text payload "last_used_at";
      description = get_text payload "description";
      github_url = get_text payload "github_url";
    })
read_fields fl json payload _ _ _ _ _ = none

unfoldable pub point_to_playbook : Float → Json → Payload → Option Playbook
point_to_playbook fl json payload =
    read_fields fl json payload (get_text payload "id") (get_text payload "tool_name")
      (get_text payload "installation_command") (get_text payload "installation_type")
      (get_text payload "verified_at")
