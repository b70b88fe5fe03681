-- ===== src/Compliance.antt =====
-- backend-rust-orchestrator/src/foundry/compliance_monitor.rs: the history of compliance tests and
-- the rollback that failing ones trigger. `Repo` is what libgit2 answers.
pub mod Monitor
pub mod Rollback
pub mod Record
pub mod Stats
use mathlib.Core.List.{reverse}
use pagi_digital_twin.Base.{
  ℕ, zero, suc, ◌-◌, String, Bool, true, false, List, [], ◌∷◌, ◌++◌, Option, none, some, ◌==◌, leb,
  length, take, any, count_if, if◌then◌else◌, unwrap_or,
}
use pagi_digital_twin.Base.HashMap
use pagi_digital_twin.Base.HashMap.{HashMap}
use pagi_digital_twin.Base.Float.{Float, F64}
use pagi_digital_twin.Host.{Host, ◌<>◌}
use pagi_digital_twin.Bus.{PhoenixEvent, compliance_alert, Events, Stamps}
use pagi_digital_twin.Immune.{GlobalImmuneResponse, handle_compliance_alert, hashed}

pub record AutoRollbackConfig : Type 0 where
  pub enabled : Bool
  pub threshold : F64
  pub min_failures : ℕ

unfoldable pub default_config : Float → AutoRollbackConfig
default_config fl = record { enabled = true; threshold = fl.lit 70; min_failures = 1 }

pub record ComplianceCheck : Type 0 where
  pub passed : Bool
  pub details : String

pub record ComplianceResult : Type 0 where
  pub privacy : ComplianceCheck
  pub efficiency : ComplianceCheck
  pub tone : ComplianceCheck

-- `timestamp` is left as the text of its reading.
pub record ComplianceTestRecord : Type 0 where
  pub agent_id : String
  pub test_id : String
  pub timestamp : String
  pub compliance : ComplianceResult
  pub score : F64
  pub mission : String
  pub rolled_back : Bool

pub record ComplianceMonitor : Type 0 where
  pub config : AutoRollbackConfig
  pub test_history : HashMap (List ComplianceTestRecord)
  pub agents_repo_path : String
  pub message_bus : Bool  -- whether a bus is set
  pub immune_response : Option GlobalImmuneResponse
  pub node_id : String

unfoldable pub new : Float → String → ComplianceMonitor
unfolding default_config
new fl agents_repo_path = record {
  config = default_config fl;
  test_history = [];
  agents_repo_path = agents_repo_path;
  message_bus = false;
  immune_response = none;
  node_id = "local";
}

-- How many of the three checks passed.
abbrev pub passed_checks : ComplianceResult → ℕ
passed_checks c = count_if (λ b. b) (c.privacy.passed ∷ c.efficiency.passed ∷ c.tone.passed ∷ [])

unfoldable pub calculate_score : Float → ComplianceResult → F64
calculate_score fl c = fl.mul (fl.div (fl.lit (passed_checks c)) (fl.lit 3)) (fl.lit 100)

abbrev pub records_of : Option (List ComplianceTestRecord) → List ComplianceTestRecord
records_of none = []
records_of (some records) = records

unfoldable pub get_agent_history : ComplianceMonitor → String → List ComplianceTestRecord
get_agent_history m agent_id = records_of (HashMap.get agent_id m.test_history)

-- The failures among the last ten tests.
unfoldable pub count_recent_failures : Float → ComplianceMonitor → String → ℕ
count_recent_failures fl m agent_id =
    count_if (λ r. fl.lt r.score m.config.threshold)
      (take 10 (reverse (get_agent_history m agent_id)))

-- `commits` are the commits of the walk from HEAD, newest first, and `walk_error` what stops it
-- before the end, if anything does; the rest of the operations either work or give an error.
pub record Repo : Type 0 where
  pub opens : Option String  -- the error, if the walk cannot be set up
  pub commits : List String
  pub walk_error : Option String
  pub head : Option String
  pub head_parent : Option String
  pub checkout : String → String → Option String  -- the error of the steps from `Oid::from_str` on

-- The loop over the walk: the first commit, if any record of the agent passes.
unfoldable pub find_good : Bool → List String → Option String → Option (Option String)
find_good has_passing [] none = some none
find_good has_passing [] (some e) = none
find_good has_passing (c ∷ cs) e =
    let rest = find_good has_passing cs e in if has_passing then some (some c) else rest

-- `unwrap_or_else`: the parent of HEAD, else HEAD, else the text "HEAD".
abbrev pub fallback : Repo → String
fallback repo = unwrap_or repo.head_parent (unwrap_or repo.head "HEAD")
