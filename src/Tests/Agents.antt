-- ===== src/Tests/Agents.antt =====
-- foundry/compliance_monitor.rs and analytics/mesh_health.rs at concrete calls.
use pagi_digital_twin.Base.{
  ◌++◌, ◌==◌, Bool, true, false, ◌≡◌, refl, [], ◌∷◌, none, some, if◌then◌else◌,
}
use pagi_digital_twin.Base.HashMap
use pagi_digital_twin.Base.Float.{bits}
use pagi_digital_twin.Immune.{new as new_immune}
use pagi_digital_twin.Compliance.{
  ComplianceCheck, ComplianceResult, ComplianceTestRecord, ComplianceMonitor, Repo,
  get_agent_history,
}
use pagi_digital_twin.Compliance.Monitor.{record_test, trigger_rollback, record_of}
use pagi_digital_twin.Compliance.Rollback.{ever_passed, reply_from, trigger_rollback-target}
use pagi_digital_twin.Compliance.Record.{is_rolled, record_test-get_agent_history}
use package.pagi_digital_twin.Tests.Data.{clock, host, float}

abbrev check : Bool → ComplianceCheck
check b = record { passed = b; details = "" }

abbrev result : Bool → ComplianceResult
result b = record { privacy = check b; efficiency = check b; tone = check b }

abbrev tested : ComplianceTestRecord
tested = record {
  agent_id = "agent";
  test_id = "test_1";
  timestamp = "t";
  compliance = result true;
  score = bits 100;
  mission = "m";
  rolled_back = false;
}

abbrev monitor : ComplianceMonitor
monitor = record {
  config = record { enabled = true; threshold = bits 70; min_failures = 1 };
  test_history = ("agent", tested ∷ []) ∷ [];
  agents_repo_path = "repo";
  message_bus = true;
  immune_response = some new_immune;
  node_id = "local";
}

abbrev repo : Repo
repo = record {
  opens = none;
  commits = "c2" ∷ "c1" ∷ [];
  walk_error = none;
  head = some "c2";
  head_parent = some "c1";
  checkout = λ agent_id commit. none;
}

trigger_rollback-target_example :
    (trigger_rollback float host repo monitor "agent" (bits 0) clock).2
    ≡ reply_from repo "agent" (ever_passed float monitor "agent") "c2" "c1"
trigger_rollback-target_example =
    trigger_rollback-target float host repo monitor "agent" (bits 0) clock "c2" "c1" ("c1" ∷ [])
      refl refl refl

record_test-get_agent_history_example :
    let (m', events, reply) =
      record_test float host repo monitor "agent" "m" (result false) "2" clock clock in
    get_agent_history m' "agent" ≡ (
      if "agent" == "agent"
      then get_agent_history monitor "agent"
        ++ record (record_of float "agent" "m" (result false) "2" clock) {
          rolled_back = is_rolled reply;
        }
          ∷ []
      else get_agent_history monitor "agent")
unfolding get_agent_history HashMap.get
record_test-get_agent_history_example =
    record_test-get_agent_history float host repo monitor "agent" "m" (result false) "2" clock clock
      "agent" refl
