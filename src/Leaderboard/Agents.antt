-- ===== src/Leaderboard/Agents.antt =====
-- analytics/leaderboard.rs: the map that the two loops build from the counts.
use pagi_digital_twin.Base.{
  ℕ, String, false, ◌≡◌, refl, ◌∙◌, [], ◌∷◌, Option, some, unwrap_or, count_if, All, ◌==◌,
  if◌then◌else◌, arith, eq_iff, eq_refl,
}
use pagi_digital_twin.Base.HashMap
use pagi_digital_twin.Base.HashMap.{HashMap, IsMap, get-insert, insert-IsMap}
use pagi_digital_twin.Leaderboard.{
  AgentLeaderboardEntry, AgentMap, new_entry, add_tasks, add_commits,
}
use pagi_digital_twin.Leaderboard.Counts.{get_count}

pub get-add_tasks :
    (w : HashMap ℕ) (m : AgentMap) (tasks : HashMap ℕ) (j : String)
    → IsMap tasks
    → HashMap.get j (add_tasks w m tasks) ≡ (
        if HashMap.contains_key j tasks
        then some (new_entry j (get_count j tasks) 0 (get_count j w))
        else HashMap.get j m)
unfolding add_tasks HashMap.get
get-add_tasks w m [] j h = refl
get-add_tasks w m ((k, c) ∷ tasks) j h =
    get-add_tasks w (HashMap.insert k (new_entry k c 0 (unwrap_or (HashMap.get k w) 0)) m) tasks j
      h.1
    ∙ rw get-insert (ground (arith, eq_iff k j, h.0))

-- An agent's entry with its commits.
abbrev with_commits :
    HashMap ℕ → HashMap ℕ → String → Option AgentLeaderboardEntry → AgentLeaderboardEntry
with_commits w commits j o = record (unwrap_or o (new_entry j 0 0 (get_count j w))) {
  agent_name = j;
  playbooks_committed = get_count j commits;
}

pub get-add_commits :
    (w : HashMap ℕ) (m : AgentMap) (commits : HashMap ℕ) (j : String)
    → IsMap commits
    → HashMap.get j (add_commits w m commits) ≡ (
        if HashMap.contains_key j commits
        then some (with_commits w commits j (HashMap.get j m))
        else HashMap.get j m)
unfolding add_commits HashMap.get
get-add_commits w m [] j h = refl
get-add_commits w m ((k, c) ∷ commits) j h =
    get-add_commits w
      (HashMap.insert k
        (record (unwrap_or (HashMap.get k m) (new_entry k 0 0 (unwrap_or (HashMap.get k w) 0))) {
          agent_name = k;
          playbooks_committed = c;
        })
        m)
      commits j h.1
    ∙ rw get-insert (ground (arith, eq_iff k j, h.0))

pub add_tasks-IsMap :
    (w : HashMap ℕ) (m : AgentMap) (tasks : HashMap ℕ) → IsMap m → IsMap (add_tasks w m tasks)
unfolding add_tasks
add_tasks-IsMap w m [] h = h
add_tasks-IsMap w m ((k, c) ∷ tasks) h =
    add_tasks-IsMap w (HashMap.insert k (new_entry k c 0 (unwrap_or (HashMap.get k w) 0)) m) tasks
      (insert-IsMap k (new_entry k c 0 (unwrap_or (HashMap.get k w) 0)) m h)

pub add_commits-IsMap :
    (w : HashMap ℕ) (m : AgentMap) (commits : HashMap ℕ) → IsMap m → IsMap (add_commits w m commits)
unfolding add_commits
add_commits-IsMap w m [] h = h
add_commits-IsMap w m ((k, c) ∷ commits) h =
    let e = record (unwrap_or (HashMap.get k m) (new_entry k 0 0 (unwrap_or (HashMap.get k w) 0))) {
      agent_name = k;
      playbooks_committed = c;
    } in
    add_commits-IsMap w (HashMap.insert k e m) commits (insert-IsMap k e m h)

get-tail :
    (k j : String) (e v : AgentLeaderboardEntry) (m : AgentMap)
    → HashMap.contains_key k m ≡ false
    → HashMap.get j m ≡ some v
    → HashMap.get j ((k, e) ∷ m) ≡ some v
unfolding HashMap.get
get-tail k j e v m new got = ground (arith, eq_iff k j, new, got)

-- The values of a map whose entries satisfy a predicate.
pub values-All :
    {P : AgentLeaderboardEntry → Type 0} (m : AgentMap)
    → IsMap m
    → ((k : String) (e : AgentLeaderboardEntry) → HashMap.get k m ≡ some e → P e)
    → All P (HashMap.values m)
unfolding HashMap.get
values-All [] h p = tt
values-All ((k, e) ∷ m) h p =
    (p k e (simp eq_refl), values-All m h.1 (λ j v g. p j v (get-tail k j e v m h.0 g)))

-- In a map that is keyed by the agents each one stands once.
pub count_values :
    (m : AgentMap) (a : String)
    → IsMap m
    → ((k : String) (e : AgentLeaderboardEntry) → HashMap.get k m ≡ some e → e.agent_id ≡ k)
    → count_if (λ e. e.agent_id == a) (HashMap.values m)
      ≡ (if HashMap.contains_key a m then 1 else 0)
unfolding HashMap.get
count_values [] a h keyed = refl
count_values ((k, e) ∷ m) a h keyed = ground (
  arith,
  keyed k e (simp eq_refl),
  count_values m a h.1 (λ j v g. keyed j v (get-tail k j e v m h.0 g)),
  h.0,
  eq_iff k a,
)
