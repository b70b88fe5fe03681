-- ===== src/Leaderboard/Ranking.antt =====
-- analytics/leaderboard.rs: the whole board, from the answers of the sources.
use pagi_digital_twin.Base.{
  ℕ, String, Bool, ◌||◌, ◌≡◌, refl, ap, ◌∙◌, List, [], ◌∷◌, map, Option, none, some, unwrap_or,
  is_some, count_if, any, All, ◌==◌, if◌then◌else◌, arith,
}
use pagi_digital_twin.Base.HashMap
use pagi_digital_twin.Base.HashMap.{HashMap, IsMap}
use pagi_digital_twin.Leaderboard.{
  AgentLeaderboardEntry, new_entry, add_tasks, Sources, agent_map, query_qdrant_successful_tasks,
  query_qdrant_resource_warnings, query_git_commits, points_of, commits_of, scored, sort_scored,
  fetch_leaderboard_data,
}
use pagi_digital_twin.Leaderboard.Counts.{
  get_count, names, playbook_by, read_points, Grows, count_pages-Grows, count_points-Grows,
  count_commits-Grows,
}
use pagi_digital_twin.Leaderboard.Sorting.{
  IsRanked, sort_scored-All, count_if-sort_scored, sort_scored-IsRanked,
}
use pagi_digital_twin.Leaderboard.Agents.{
  get-add_tasks, get-add_commits, add_tasks-IsMap, add_commits-IsMap, values-All, count_values,
}

-- What the sources say of an agent.
abbrev pub tasks_of : Sources → String → ℕ
tasks_of s a = count_if (names a) (read_points s.successes)

abbrev pub playbooks_of : Sources → String → ℕ
playbooks_of s a = count_if (playbook_by a) (commits_of s.commits)

abbrev pub warnings_of : Sources → String → ℕ
warnings_of s a = count_if (names a) (points_of s.warnings)

abbrev pub is_listed : Sources → String → Bool
is_listed s a =
    any (names a) (read_points s.successes) || any (playbook_by a) (commits_of s.commits)

-- The agent's line on the board.
abbrev pub earned : Sources → String → AgentLeaderboardEntry
earned s a = scored (new_entry a (tasks_of s a) (playbooks_of s a) (warnings_of s a))

task_counts :
    (s : Sources) → Grows names (read_points s.successes) [] (query_qdrant_successful_tasks s)
unfolding query_qdrant_successful_tasks
task_counts s = count_pages-Grows s.successes []

warning_counts :
    (s : Sources) → Grows names (points_of s.warnings) [] (query_qdrant_resource_warnings s)
unfolding query_qdrant_resource_warnings
warning_counts s = count_points-Grows (points_of s.warnings) []

commit_counts : (s : Sources) → Grows playbook_by (commits_of s.commits) [] (query_git_commits s)
unfolding query_git_commits
commit_counts s = count_commits-Grows (commits_of s.commits) []

-- The two loops, on what they look up.
both_loops :
    (j : String) (t c : Option ℕ) (w : ℕ)
    → (let o = if is_some t then some (new_entry j (unwrap_or t 0) 0 w) else none in
        if is_some c
        then some (record (unwrap_or o (new_entry j 0 0 w)) {
          agent_name = j;
          playbooks_committed = unwrap_or c 0;
        })
        else o)
      ≡ (if is_some t || is_some c
          then some (new_entry j (unwrap_or t 0) (unwrap_or c 0) w)
          else none)
both_loops j none none w = refl
both_loops j none (some c) w = refl
both_loops j (some t) none w = refl
both_loops j (some t) (some c) w = refl

get-agent_map :
    (s : Sources) (j : String)
    → HashMap.get j (agent_map s) ≡ (
        if is_listed s j
        then some (new_entry j (tasks_of s j) (playbooks_of s j) (warnings_of s j))
        else none)
unfolding agent_map HashMap.get
get-agent_map s j =
    get-add_commits w (add_tasks w [] (query_qdrant_successful_tasks s)) (query_git_commits s) j
      ((commit_counts s).distinct tt)
    ∙ rw (get-add_tasks w [] (query_qdrant_successful_tasks s) j ((task_counts s).distinct tt)) (
        both_loops j (HashMap.get j (query_qdrant_successful_tasks s))
          (HashMap.get j (query_git_commits s)) (get_count j w)
        ∙ rw ((task_counts s).keys j, (commit_counts s).keys j, task, commit, warning) refl)
  where
    w : HashMap ℕ
    w = query_qdrant_resource_warnings s

    task : get_count j (query_qdrant_successful_tasks s) ≡ tasks_of s j
    task = omega (arith, (task_counts s).counts j)

    commit : get_count j (query_git_commits s) ≡ playbooks_of s j
    commit = omega (arith, (commit_counts s).counts j)

    warning : get_count j w ≡ warnings_of s j
    warning = omega (arith, (warning_counts s).counts j)

agent_map-IsMap : (s : Sources) → IsMap (agent_map s)
unfolding agent_map
agent_map-IsMap s =
    add_commits-IsMap _ _ (query_git_commits s)
      (add_tasks-IsMap _ [] (query_qdrant_successful_tasks s) tt)

map-scored-All :
    (P : AgentLeaderboardEntry → Type 0) (es : List AgentLeaderboardEntry)
    → All (λ e. P (scored e)) es
    → All P (map scored es)
map-scored-All P [] h = tt
map-scored-All P (e ∷ es) h = (h.0, map-scored-All P es h.1)

count_map-scored :
    (a : String) (es : List AgentLeaderboardEntry)
    → count_if (λ e. e.agent_id == a) (map scored es) ≡ count_if (λ e. e.agent_id == a) es
unfolding scored
count_map-scored a [] = refl
count_map-scored a (e ∷ es) = ground (arith, count_map-scored a es)

entry_of :
    (s : Sources) (k : String) (e : AgentLeaderboardEntry)
    → HashMap.get k (agent_map s) ≡ some e
    → e ≡ new_entry k (tasks_of s k) (playbooks_of s k) (warnings_of s k)
entry_of s k e h = ground (arith, h, get-agent_map s k)

-- The board lists once each agent that a success point or a playbook commit names, and no other;
-- each line has the numbers of points and commits that name the agent, with the score and the badges
-- that they give; and no line stands above one with a higher score.
pub fetch_leaderboard_data-agents :
    (s : Sources) (now a : String)
    → let agents = (fetch_leaderboard_data s now).agents in
      (count_if (λ e. e.agent_id == a) agents ≡ (if is_listed s a then 1 else 0))
      × All (λ e. e ≡ earned s e.agent_id) agents
      × IsRanked agents
unfolding fetch_leaderboard_data scored
fetch_leaderboard_data-agents s now a = (once, as_earned, sort_scored-IsRanked _)
  where
    entries : List AgentLeaderboardEntry
    entries = HashMap.values (agent_map s)

    once :
        count_if (λ e. e.agent_id == a) (sort_scored (map scored entries))
        ≡ (if is_listed s a then 1 else 0)
    once =
        count_if-sort_scored (λ e. e.agent_id == a) (map scored entries)
        ∙ count_map-scored a entries
        ∙ count_values (agent_map s) a (agent_map-IsMap s)
            (λ k e h. ap (λ (x : AgentLeaderboardEntry). x.agent_id) (entry_of s k e h))
        ∙ rw (get-agent_map s a) (ground arith)

    as_earned : All (λ e. e ≡ earned s e.agent_id) (sort_scored (map scored entries))
    as_earned =
        sort_scored-All (λ e. e ≡ earned s e.agent_id) (map scored entries)
          (map-scored-All (λ e. e ≡ earned s e.agent_id) entries
            (values-All (agent_map s) (agent_map-IsMap s) (λ k e h. rw (entry_of s k e h) refl)))
