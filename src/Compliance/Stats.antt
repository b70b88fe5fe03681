-- ===== src/Compliance/Stats.antt =====
-- foundry/compliance_monitor.rs: the scores, the history and the statistics of an agent.
use pagi_digital_twin.Base.{
  if◌then◌else◌, Bool, ◌+◌, ◌≤◌, String, true, false, ◌≡◌, List, [], ◌∷◌, some, length,
  count_if-le-length, arith,
}
use pagi_digital_twin.Base.Float.{Float, IsIeee}
use pagi_digital_twin.Compliance.{
  ComplianceResult, ComplianceTestRecord, ComplianceMonitor, calculate_score, passed_checks,
  get_agent_history,
}
use pagi_digital_twin.Compliance.Monitor.{ComplianceStats, stats_of, get_agent_stats}

-- With IEEE arithmetic, when all three checks come out alike the score is exactly 100 if they
-- passed and 0 if not.
pub calculate_score_extremes :
    (fl : Float) (c : ComplianceResult) (b : Bool)
    → IsIeee fl
    → c.privacy.passed ≡ b
    → c.efficiency.passed ≡ b
    → c.tone.passed ≡ b
    → calculate_score fl c ≡ fl.lit (if b then 100 else 0)
unfolding calculate_score
calculate_score_extremes fl c b ieee p e t = by_count b checks
  where
    checks : passed_checks c ≡ (if b then 3 else 0)
    checks = ground arith

    by_count :
        (b : Bool)
        → passed_checks c ≡ (if b then 3 else 0)
        → calculate_score fl c ≡ fl.lit (if b then 100 else 0)
    by_count true n =
        rw (calculate_score, n)
          (rw (ieee.div_self 3 (omega arith) (omega arith)) (ieee.mul_lit 1 100 (omega arith)))
    by_count false n =
        rw (calculate_score, n)
          (rw (ieee.zero_div 3 (omega arith) (omega arith)) (ieee.mul_lit 0 100 (omega arith)))

-- The statistics count every test once: passed and failed add up to the total, which is the length
-- of the history, and there are at most as many rollbacks.
pub get_agent_stats_total :
    (fl : Float) (m : ComplianceMonitor) (agent_id : String) (s : ComplianceStats)
    → get_agent_stats fl m agent_id ≡ some s
    → (s.passed_tests + s.failed_tests ≡ s.total_tests)
      × (s.total_tests ≡ length (get_agent_history m agent_id))
      × (s.rollbacks ≤ s.total_tests)
unfolding get_agent_stats
get_agent_stats_total fl m agent_id s e = by_history (get_agent_history m agent_id) e
  where
    by_history :
        (rs : List ComplianceTestRecord)
        → stats_of fl rs ≡ some s
        → (s.passed_tests + s.failed_tests ≡ s.total_tests)
          × (s.total_tests ≡ length rs)
          × (s.rollbacks ≤ s.total_tests)
    by_history [] h = cc
    by_history (r ∷ rs) h = ground (
      arith,
      count_if-le-length (λ r. fl.ge r.score (fl.lit 70)) (r ∷ rs),
      count_if-le-length (λ (r : ComplianceTestRecord). r.rolled_back) (r ∷ rs),
    )
