-- ===== src/Consensus/Handlers.antt =====
-- network/consensus.rs: the operations that change the sessions and the mesh quarantine.
use pagi_digital_twin.Base.{
  String, Bool, true, false, List, [], ◌∷◌, ◌++◌, Option, none, some, ◌==◌, leb, length,
  if◌then◌else◌,
}
use pagi_digital_twin.Base.HashMap
use pagi_digital_twin.Base.HashMap.{HashMap}
use pagi_digital_twin.Base.Float.{Float, F64}
use pagi_digital_twin.Host.{Host, ◌<>◌}
use pagi_digital_twin.Bus.{
  PhoenixEvent, broadcast_discovery, consensus_request, consensus_vote, consensus_result, Events,
  Stamps,
}
use pagi_digital_twin.Consensus.{
  Vote, ConsensusSession, PhoenixConsensus, is_quarantined, Git, Done, done, fails, adopt_commit,
  create_override_commit, total_expected, approval_percentage, average_score, approves,
}

-- `panicked` is the `unwrap` of a session that is not there.
pub data Run : Type 0 where
  panicked : Run
  ran : PhoenixConsensus → Events → Run

-- What a task goes on with after it has released the locks.
pub data Rest : Type 0 where
  finished : Rest
  evaluates : (commit_hash : String) → Rest

-- `commit` is the hash; the score is a placeholder in the source, with or without a monitor.
unfoldable pub handle_consensus_request : Float → String → String → Stamps → Events
handle_consensus_request fl commit_hash node_id now =
    consensus_vote commit_hash node_id (fl.lit 75) (fl.ge (fl.lit 75) (fl.lit 70)) (now 0) ∷ []

-- `entry(..).or_insert_with(..)`
abbrev pub session_or_new :
    PhoenixConsensus → String → Option ConsensusSession → Stamps → ConsensusSession
session_or_new c commit_hash (some s) now = s
session_or_new c commit_hash none now = record {
  commit_hash = commit_hash;
  requesting_node = c.node_id;
  votes = [];
  started_at = now 1;
  config = c.config;
}

-- The vote is pushed to its session.
unfoldable pub record_vote : PhoenixConsensus → String → Vote → Stamps → PhoenixConsensus
record_vote c commit_hash vote now =
    let s = session_or_new c commit_hash (HashMap.get commit_hash c.active_sessions) now in
    record c {
      active_sessions =
          HashMap.insert commit_hash (record s { votes = s.votes ++ vote ∷ [] }) c.active_sessions;
    }

abbrev pub votes_in : Option ConsensusSession → List Vote
votes_in none = []
votes_in (some s) = s.votes

-- `session.votes.len() >= total_expected`
unfoldable pub should_evaluate : PhoenixConsensus → String → Bool
should_evaluate c commit_hash =
    leb (total_expected c) (length (votes_in (HashMap.get commit_hash c.active_sessions)))

-- Up to the end of the block that holds the lock of the sessions; an evaluation that is due is the rest
-- of the task.
unfoldable pub handle_consensus_vote :
    PhoenixConsensus → String → String → F64 → Bool → Stamps → PhoenixConsensus × Rest
handle_consensus_vote c commit_hash voting_node compliance_score approved now =
    let c' = record_vote c commit_hash vote now in
    (c', if should_evaluate c' commit_hash then evaluates commit_hash else finished)
  where
    vote : Vote
    vote = record {
      node_id = voting_node;
      compliance_score = compliance_score;
      approved = approved;
      timestamp = now 0;
    }

-- What the listener does with an event of the bus, up to the rest of its task.
unfoldable pub on_event :
    Float → PhoenixConsensus → PhoenixEvent → Stamps → PhoenixConsensus × Events × Rest
on_event fl c (consensus_request commit_hash requesting_node t) now =
    if requesting_node == c.node_id
    then (c, [], finished)
    else (c, handle_consensus_request fl commit_hash c.node_id now, finished)
on_event fl c (consensus_vote commit_hash voting_node score approved t) now =
    if voting_node == c.node_id
    then (c, [], finished)
    else (let (c', rest) = handle_consensus_vote c commit_hash voting_node score approved now in
        (c', [], rest))
on_event fl c _ now = (c, [], finished)

-- The flag says that a timeout task was started.
unfoldable pub request_consensus :
    PhoenixConsensus → String → Stamps → PhoenixConsensus × Events × Bool
request_consensus c commit_hash now =
    if is_quarantined c commit_hash
    then (c, [], false)
    else if HashMap.contains_key commit_hash c.active_sessions
    then (c, [], false)
    else (
      record c { active_sessions = HashMap.insert commit_hash session c.active_sessions },
      consensus_request commit_hash c.node_id (now 1) ∷ [],
      true,
    )
  where
    session : ConsensusSession
    session = record {
      commit_hash = commit_hash;
      requesting_node = c.node_id;
      votes = [];
      started_at = now 0;
      config = c.config;
    }

-- The test that the timeout task makes when its sleep is over.
unfoldable pub timeout_due : PhoenixConsensus → String → Bool
timeout_due c commit_hash = HashMap.contains_key commit_hash c.active_sessions

-- The timeout task after its sleep: the lock of the test is released before the evaluation.
unfoldable pub on_timeout : PhoenixConsensus → String → Rest
on_timeout c commit_hash = if timeout_due c commit_hash then evaluates commit_hash else finished

-- The discovery event after a pull that worked.
unfoldable pub adopted : String → Done → Stamps → Events
adopted commit_hash done now =
    broadcast_discovery "phoenix_consensus" "agent_library_sync"
      ("Auto-adopted commit " <> commit_hash <> " via consensus") (now 1)
    ∷ []
adopted commit_hash (fails e) now = []

unfoldable pub rejection : Float → Host → List Vote → String
rejection fl host votes =
    "Rejected by consensus: avg_score="
    <> host.show_f64_2 (average_score fl votes)
    <> ", approval="
    <> host.show_f64_2 (approval_percentage fl votes)
    <> "%"

unfoldable pub result_event : Float → PhoenixConsensus → String → List Vote → Stamps → PhoenixEvent
result_event fl c commit_hash votes now =
    consensus_result commit_hash (approves fl c.config votes) (average_score fl votes)
      (approval_percentage fl votes) (length votes) (now 0)

module _ (fl : Float) (host : Host) (git : Git) where
  -- The verdict on votes that are not empty; `c` no longer has the session.
  unfoldable pub settle : PhoenixConsensus → String → List Vote → Stamps → Run
  settle c commit_hash votes now =
      if approves fl c.config votes
      then ran c (
          result_event fl c commit_hash votes now
          ∷ adopted commit_hash (adopt_commit host git c.config.agents_repo_path) now)
      else ran
          (record c {
            mesh_quarantine =
                HashMap.insert commit_hash (rejection fl host votes) c.mesh_quarantine;
          })
          (result_event fl c commit_hash votes now ∷ [])

  unfoldable pub evaluate_votes : PhoenixConsensus → String → List Vote → Stamps → Run
  evaluate_votes c commit_hash [] now = ran c []
  evaluate_votes c commit_hash (v ∷ vs) now = settle c commit_hash (v ∷ vs) now

  -- `sessions.remove(commit_hash).unwrap()`
  unfoldable pub evaluate_session :
      PhoenixConsensus → String → Option ConsensusSession → Stamps → Run
  evaluate_session c commit_hash none now = panicked
  evaluate_session c commit_hash (some s) now =
      evaluate_votes (record c { active_sessions = HashMap.remove commit_hash c.active_sessions })
        commit_hash s.votes now

  unfoldable pub evaluate_consensus : PhoenixConsensus → String → Stamps → Run
  unfolding evaluate_session evaluate_votes
  evaluate_consensus c commit_hash now =
      evaluate_session c commit_hash (HashMap.get commit_hash c.active_sessions) now

  -- The rest of a task, in the state that it then finds.
  unfoldable pub resume : Rest → PhoenixConsensus → Stamps → Run
  resume finished c now = ran c []
  resume (evaluates commit_hash) c now = evaluate_consensus c commit_hash now

  overridden : String → Done → Stamps → Events × Done
  overridden commit_hash done now = (
    broadcast_discovery "phoenix_consensus_override" "agent_library_sync"
          ("Strategic override applied to commit " <> commit_hash) (now 1)
        ∷ [],
    done,
  )
  overridden commit_hash (fails e) now = ([], fails ("Failed to create override commit: " <> e))

  unfoldable pub strategic_override :
      PhoenixConsensus → String → String → Stamps → PhoenixConsensus × Events × Done
  unfolding overridden
  strategic_override c commit_hash rationale now =
      let message =
        "[PHOENIX-OVERRIDE] Strategic override for commit " <> commit_hash <> "\n\nRationale: "
        <> rationale in
      let (events, result) =
        overridden commit_hash (create_override_commit host git c.config.agents_repo_path message)
          now in
      (
        record c { mesh_quarantine = HashMap.remove commit_hash c.mesh_quarantine },
        consensus_result commit_hash true (fl.lit 100) (fl.lit 100) 1 (now 0) ∷ events,
        result,
      )
