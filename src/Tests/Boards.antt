-- ===== src/Tests/Boards.antt =====
-- analytics/leaderboard.rs at two pages of points and two commits.
use pagi_digital_twin.Base.{String, ◌≡◌, [], ◌∷◌, none, some, ◌==◌, count_if, All, if◌then◌else◌}
use pagi_digital_twin.Quarantine.{Payload, string_value}
use pagi_digital_twin.Leaderboard.{Sources, next, last, fetch_leaderboard_data}
use pagi_digital_twin.Leaderboard.Sorting.{IsRanked}
use pagi_digital_twin.Leaderboard.Ranking.{is_listed, earned, fetch_leaderboard_data-agents}

abbrev point : String → Payload
point agent = ("agent_id", some (string_value agent)) ∷ []

abbrev sources : Sources
sources = record {
  successes = next (point "a" ∷ point "b" ∷ []) (last (point "a" ∷ []));
  warnings = some (point "b" ∷ []);
  commits = some (
      record { author = some "c"; lower = some "add playbook" }
      ∷ record { author = none; lower = some "fix" }
      ∷ []);
}

fetch_leaderboard_data-agents_example :
    let agents = (fetch_leaderboard_data sources "now").agents in
    (count_if (λ e. e.agent_id == "c") agents ≡ (if is_listed sources "c" then 1 else 0))
    × All (λ e. e ≡ earned sources e.agent_id) agents
    × IsRanked agents
fetch_leaderboard_data-agents_example = fetch_leaderboard_data-agents sources "now" "c"
