-- ===== src/Compliance/Monitor.antt =====
-- foundry/compliance_monitor.rs: `record_test`, `trigger_rollback`, and the statistics.
use pagi_digital_twin.Base.{
  ◌&&◌, ℕ, ◌-◌, String, Bool, true, false, List, [], ◌∷◌, ◌++◌, Option, none, some, ◌==◌, leb,
  length, any, count_if, if◌then◌else◌, unwrap_or,
}
use pagi_digital_twin.Base.HashMap
use pagi_digital_twin.Base.HashMap.{HashMap}
use pagi_digital_twin.Base.Float.{Float, F64}
use pagi_digital_twin.Host.{Host, ◌<>◌}
use pagi_digital_twin.Bus.{compliance_alert, Events, Stamps}
use pagi_digital_twin.Immune.{GlobalImmuneResponse, handle_compliance_alert, hashed}
use pagi_digital_twin.Compliance.{
  ComplianceResult, ComplianceTestRecord, ComplianceMonitor, calculate_score, get_agent_history,
  count_recent_failures, Repo, find_good, fallback,
}

-- `Result<Option<String>, String>`; `trigger_rollback` answers with `rolled` or `failed` only.
pub data Reply : Type 0 where
  unneeded : Reply
  rolled : (commit_hash : String) → Reply
  failed : String → Reply

-- `iter_mut().find(..)` and the mark.
unfoldable pub mark_rolled_back : String → List ComplianceTestRecord → List ComplianceTestRecord
mark_rolled_back test_id [] = []
mark_rolled_back test_id (r ∷ rs) =
    if r.test_id == test_id
    then record r { rolled_back = true } ∷ rs
    else r ∷ mark_rolled_back test_id rs

-- The history with the agent's records marked.
unfoldable pub mark :
    ComplianceMonitor → String → String → Option (List ComplianceTestRecord) → ComplianceMonitor
mark m agent_id test_id none = m
mark m agent_id test_id (some records) = record m {
  test_history = HashMap.insert agent_id (mark_rolled_back test_id records) m.test_history;
}

unfoldable pub finish :
    String → String → ComplianceMonitor × Events × Reply → ComplianceMonitor × Events × Reply
unfolding mark
finish agent_id test_id (m, events, rolled commit_hash) =
    (mark m agent_id test_id (HashMap.get agent_id m.test_history), events, rolled commit_hash)
finish agent_id test_id (m, events, failed e) = (m, events, failed ("Auto-rollback failed: " <> e))
finish agent_id test_id (m, events, unneeded) = (m, events, unneeded)

-- The record is stored whatever the verdict.
unfoldable pub store : ComplianceMonitor → ComplianceTestRecord → ComplianceMonitor
store m r = record m {
  test_history =
      HashMap.insert r.agent_id (get_agent_history m r.agent_id ++ r ∷ []) m.test_history;
}

module _ (fl : Float) where
  -- `records.iter().any(|r| r.score >= config.threshold)`
  unfoldable pub has_passing : ComplianceMonitor → String → Bool
  has_passing m agent_id =
      any (λ r. fl.ge r.score m.config.threshold) (get_agent_history m agent_id)

  -- Whether the stored record calls for a rollback.
  unfoldable pub needs_rollback : ComplianceMonitor → String → F64 → Bool
  needs_rollback m agent_id score =
      m.config.enabled
      && (fl.lt score m.config.threshold
          && leb m.config.min_failures (count_recent_failures fl m agent_id))

  -- `millis` is the text of the clock in milliseconds.
  abbrev pub record_of : String → String → ComplianceResult → String → Stamps → ComplianceTestRecord
  record_of agent_id mission compliance millis now = record {
    agent_id = agent_id;
    test_id = "test_" <> millis;
    timestamp = now 0;
    compliance = compliance;
    score = calculate_score fl compliance;
    mission = mission;
    rolled_back = false;
  }

module _ (fl : Float) (host : Host) (repo : Repo) where
  agent_dir : ComplianceMonitor → String → String
  agent_dir m agent_id = host.join (host.join m.agents_repo_path "agents") agent_id

  unfoldable pub rollback_manifest_hash : ComplianceMonitor → String → String
  unfolding agent_dir
  rollback_manifest_hash m agent_id = host.sha256_hex (
      hashed (host.read (host.join (agent_dir m agent_id) "manifest.yaml"))
      <> hashed (host.read (host.join (agent_dir m agent_id) "prompt.txt")))

  -- The alert after a rollback: to the immune system, else to the bus, else to nobody.
  unfoldable pub alert :
      ComplianceMonitor
      → Option GlobalImmuneResponse
      → String
      → F64
      → Stamps
      → ComplianceMonitor × Events
  alert m (some g) agent_id score now =
      let (g', events) =
        handle_compliance_alert host g agent_id (rollback_manifest_hash m agent_id) score m.node_id
          now in
      (record m { immune_response = some g' }, events)
  alert m none agent_id score now = (
    m,
    if m.message_bus
        then compliance_alert agent_id (rollback_manifest_hash m agent_id) score m.node_id (now 0)
          ∷ []
        else [],
  )

  unfoldable pub roll_back_to :
      ComplianceMonitor
      → String
      → F64
      → Stamps
      → String
      → Option String
      → ComplianceMonitor × Events × Reply
  roll_back_to m agent_id score now target (some e) = (m, [], failed e)
  roll_back_to m agent_id score now target none =
      let (m', events) = alert m m.immune_response agent_id score now in (m', events, rolled target)

  -- What the walk found: an error, or a commit or none.
  unfoldable pub walked :
      ComplianceMonitor
      → String
      → F64
      → Stamps
      → Option (Option String)
      → ComplianceMonitor × Events × Reply
  walked m agent_id score now none = (m, [], failed (unwrap_or repo.walk_error ""))
  walked m agent_id score now (some found) =
      let target = unwrap_or found (fallback repo) in
      roll_back_to m agent_id score now target (repo.checkout agent_id target)

  unfoldable pub opened :
      ComplianceMonitor → String → F64 → Stamps → Option String → ComplianceMonitor × Events × Reply
  opened m agent_id score now (some e) = (m, [], failed e)
  opened m agent_id score now none =
      walked m agent_id score now
        (find_good (has_passing fl m agent_id) repo.commits repo.walk_error)

  unfoldable pub trigger_rollback :
      ComplianceMonitor → String → F64 → Stamps → ComplianceMonitor × Events × Reply
  unfolding roll_back_to walked opened
  trigger_rollback m agent_id score now = opened m agent_id score now repo.opens

  unfoldable pub record_test :
      ComplianceMonitor
      → String
      → String
      → ComplianceResult
      → String
      → Stamps
      → Stamps
      → ComplianceMonitor × Events × Reply
  unfolding finish
  record_test m agent_id mission compliance millis now later =
      let r = record_of fl agent_id mission compliance millis now in
      let m' = store m r in
      if needs_rollback fl m' agent_id r.score
      then finish agent_id r.test_id (trigger_rollback m' agent_id r.score later)
      else (m', [], unneeded)

pub record ComplianceStats : Type 0 where
  pub total_tests : ℕ
  pub passed_tests : ℕ
  pub failed_tests : ℕ
  pub avg_score : F64
  pub recent_score : F64
  pub rollbacks : ℕ

abbrev sum_scores : Float → F64 → List ComplianceTestRecord → F64
sum_scores fl acc [] = acc
sum_scores fl acc (r ∷ rs) = sum_scores fl (fl.add acc r.score) rs

-- `records.last()`, with the first record for a start.
abbrev last_score : F64 → List ComplianceTestRecord → F64
last_score s [] = s
last_score s (r ∷ rs) = last_score r.score rs

-- The threshold is the literal 70, not the configured one.
abbrev pub stats_of : Float → List ComplianceTestRecord → Option ComplianceStats
stats_of fl [] = none
stats_of fl (r ∷ rs) =
    let records = r ∷ rs in
    let passed = count_if (λ r. fl.ge r.score (fl.lit 70)) records in
    some (record {
      total_tests = length records;
      passed_tests = passed;
      failed_tests = length records - passed;
      avg_score = fl.div (sum_scores fl (fl.lit 0) records) (fl.lit (length records));
      recent_score = last_score (fl.lit 0) records;
      rollbacks = count_if (λ r. r.rolled_back) records;
    })

unfoldable pub get_agent_stats : Float → ComplianceMonitor → String → Option ComplianceStats
get_agent_stats fl m agent_id = stats_of fl (get_agent_history m agent_id)
