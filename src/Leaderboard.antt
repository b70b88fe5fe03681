-- ===== src/Leaderboard.antt =====
-- backend-rust-orchestrator/src/analytics/leaderboard.rs: the scores of the agents, and their cache.
-- Qdrant and libgit2 are known by their answers. Counts are `u64` and scores `i64` in the source:
-- they are taken within 2^53. `Instant` is a count of nanoseconds that only grows.
pub mod Counts
pub mod Agents
pub mod Sorting
pub mod Ranking
use pagi_digital_twin.Base.{
  ℕ, suc, ◌-◌, ◌*◌, ◌/◌, String, Bool, true, false, not, ◌&&◌, List, [], ◌∷◌, ◌++◌, map, Option,
  none, some, unwrap_or, is_some, ltb, leb, if◌then◌else◌,
}
use pagi_digital_twin.Base.HashMap
use pagi_digital_twin.Base.HashMap.{HashMap}
use pagi_digital_twin.Base.Int.{ℤ, pos, ◌+ℤ◌, ◌-ℤ◌, leb_ℤ, ltb_ℤ}
use pagi_digital_twin.Quarantine.{Payload, get_str}
use text.Mathlib.Text.{find?}

pub record AgentLeaderboardEntry : Type 0 where
  pub agent_id : String
  pub agent_name : String
  pub sovereign_score : ℤ
  pub successful_tasks : ℕ
  pub playbooks_committed : ℕ
  pub resource_warnings : ℕ
  pub badges : List String

pub record LeaderboardData : Type 0 where
  pub agents : List AgentLeaderboardEntry
  pub generated_at : String

-- The answers to the successive scrolls: a failure, a last page, or a page with an offset for more.
pub data Scroll : Type 0 where
  broken : Scroll
  last : List Payload → Scroll
  next : List Payload → Scroll → Scroll

-- Author's name and message, where they are valid texts; `lower` is the message in lower case.
pub record Commit : Type 0 where
  pub author : Option String
  pub lower : Option String

-- `commits` is `none` if any step of the walk fails.
pub record Sources : Type 0 where
  pub successes : Scroll
  pub warnings : Option (List Payload)
  pub commits : Option (List Commit)

-- `*counts.entry(k).or_insert(0) += 1`
unfoldable pub bump : String → HashMap ℕ → HashMap ℕ
bump k m = HashMap.insert k (suc (unwrap_or (HashMap.get k m) 0)) m

unfoldable pub count_point : HashMap ℕ → Option String → HashMap ℕ
count_point m none = m
count_point m (some agent_id) = bump agent_id m

unfoldable pub count_points : HashMap ℕ → List Payload → HashMap ℕ
count_points m [] = m
count_points m (p ∷ ps) = count_points (count_point m (get_str p "agent_id")) ps

-- The loop over the pages: it also ends at an empty page, and on a failure keeps what it has.
unfoldable pub count_pages : HashMap ℕ → Scroll → HashMap ℕ
count_pages m broken = m
count_pages m (last ps) = count_points m ps
count_pages m (next [] rest) = m
count_pages m (next (p ∷ ps) rest) = count_pages (count_points m (p ∷ ps)) rest

unfoldable pub query_qdrant_successful_tasks : Sources → HashMap ℕ
query_qdrant_successful_tasks s = count_pages [] s.successes

abbrev pub points_of : Option (List Payload) → List Payload
points_of none = []
points_of (some ps) = ps

unfoldable pub query_qdrant_resource_warnings : Sources → HashMap ℕ
query_qdrant_resource_warnings s = count_points [] (points_of s.warnings)

abbrev pub is_playbook : Commit → Bool
is_playbook c = is_some (find? (unwrap_or c.lower "") "playbook")

abbrev pub author_of : Commit → String
author_of c = unwrap_or c.author "unknown"

unfoldable pub count_commits : HashMap ℕ → List Commit → HashMap ℕ
count_commits m [] = m
count_commits m (c ∷ cs) = count_commits (if is_playbook c then bump (author_of c) m else m) cs

abbrev pub commits_of : Option (List Commit) → List Commit
commits_of none = []
commits_of (some cs) = cs

unfoldable pub query_git_commits : Sources → HashMap ℕ
query_git_commits s = count_commits [] (commits_of s.commits)

-- The entry before scores and badges.
abbrev pub new_entry : String → ℕ → ℕ → ℕ → AgentLeaderboardEntry
new_entry agent tasks playbooks warnings = record {
  agent_id = agent;
  agent_name = agent;
  sovereign_score = pos 0;
  successful_tasks = tasks;
  playbooks_committed = playbooks;
  resource_warnings = warnings;
  badges = [];
}

abbrev pub AgentMap : Type 0
AgentMap = HashMap AgentLeaderboardEntry

-- The first loop; `w` are the warnings.
unfoldable pub add_tasks : HashMap ℕ → AgentMap → HashMap ℕ → AgentMap
add_tasks w m [] = m
add_tasks w m ((agent, count) ∷ tasks) =
    add_tasks w
      (HashMap.insert agent (new_entry agent count 0 (unwrap_or (HashMap.get agent w) 0)) m) tasks

-- The second loop, whose agents are authors.
unfoldable pub add_commits : HashMap ℕ → AgentMap → HashMap ℕ → AgentMap
add_commits w m [] = m
add_commits w m ((agent, count) ∷ commits) =
    let e =
      unwrap_or (HashMap.get agent m) (new_entry agent 0 0 (unwrap_or (HashMap.get agent w) 0)) in
    add_commits w
      (HashMap.insert agent (record e { agent_name = agent; playbooks_committed = count }) m)
      commits

abbrev pub sovereign : AgentLeaderboardEntry → ℤ
sovereign e =
    (pos (e.successful_tasks * 10) +ℤ pos (e.playbooks_committed * 50))
    -ℤ pos (e.resource_warnings * 5)

abbrev badge : Bool → String → List String
badge b name = if b then name ∷ [] else []

unfoldable pub calculate_badges : AgentLeaderboardEntry → List String
calculate_badges e =
    badge (leb 10 e.playbooks_committed) "Top Architect"
    ++ badge (leb e.resource_warnings 0 && ltb 0 e.successful_tasks) "Security First"
    ++ badge (leb_ℤ (pos 500) e.sovereign_score) "High Performer"
    ++ badge (leb 50 e.successful_tasks && ltb e.resource_warnings 5) "Efficiency Master"

unfoldable pub scored : AgentLeaderboardEntry → AgentLeaderboardEntry
scored e =
    let e' = record e { sovereign_score = sovereign e } in
    record e' { badges = calculate_badges e' }

-- A stable insertion, highest score first.
unfoldable pub insert_scored :
    AgentLeaderboardEntry → List AgentLeaderboardEntry → List AgentLeaderboardEntry
insert_scored e [] = e ∷ []
insert_scored e (f ∷ fs) =
    if ltb_ℤ e.sovereign_score f.sovereign_score then f ∷ insert_scored e fs else e ∷ f ∷ fs

unfoldable pub sort_scored : List AgentLeaderboardEntry → List AgentLeaderboardEntry
sort_scored [] = []
sort_scored (e ∷ es) = insert_scored e (sort_scored es)

unfoldable pub agent_map : Sources → AgentMap
agent_map s =
    let w = query_qdrant_resource_warnings s in
    add_commits w (add_tasks w [] (query_qdrant_successful_tasks s)) (query_git_commits s)

unfoldable pub fetch_leaderboard_data : Sources → String → LeaderboardData
fetch_leaderboard_data s now = record {
  agents = sort_scored (map scored (HashMap.values (agent_map s)));
  generated_at = now;
}

abbrev nanoseconds : ℕ
nanoseconds = 1000000000

-- The cache is one for the whole process. `instant` is read before the fetch, `later` after it.
unfoldable pub get_leaderboard :
    Option (LeaderboardData × ℕ)
    → Sources
    → ℕ
    → ℕ
    → String
    → LeaderboardData × Option (LeaderboardData × ℕ)
get_leaderboard none s instant later now =
    let data' = fetch_leaderboard_data s now in (data', some (data', later))
get_leaderboard (some (data', timestamp)) s instant later now =
    if ltb ((instant - timestamp) / nanoseconds) 300
    then (data', some (data', timestamp))
    else let fresh = fetch_leaderboard_data s now in (fresh, some (fresh, later))
