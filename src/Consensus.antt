-- ===== src/Consensus.antt =====
-- backend-rust-orchestrator/src/network/consensus.rs: voting on commits of the agent library. Each
-- function below is one stretch of code that runs without releasing the lock of the sessions, and a
-- task that goes on after releasing it says with what (`Rest`); `Git` is the `git` command, known by
-- the outputs of its runs.
pub mod Handlers
pub mod Verdict
pub mod Votes
pub mod Quorum
pub mod History
pub mod Race
use pagi_digital_twin.Base.{
  ℕ, suc, max, String, Bool, true, false, ◌&&◌, List, [], ◌∷◌, ◌++◌, Option, none, some, ◌==◌, leb,
  not, is_some, length, count_if, if◌then◌else◌,
}
use pagi_digital_twin.Base.HashMap
use pagi_digital_twin.Base.HashMap.{HashMap}
use pagi_digital_twin.Base.Float.{Float, F64}
use pagi_digital_twin.Host.{Host, ◌<>◌}
use pagi_digital_twin.Bus.{Events, Stamps}
use pagi_digital_twin.Handshake.{Service, get_verified_peers}
use text.Mathlib.Text.{find?}

pub record ConsensusConfig : Type 0 where
  pub min_average_score : F64
  pub min_approval_percentage : F64
  pub vote_timeout_seconds : ℕ
  pub agents_repo_path : String

-- `ConsensusConfig::default`, with the path that `new` sets.
unfoldable pub default_config : Float → String → ConsensusConfig
default_config fl agents_repo_path = record {
  min_average_score = fl.lit 70;
  min_approval_percentage = fl.lit 50;
  vote_timeout_seconds = 30;
  agents_repo_path = agents_repo_path;
}

pub record Vote : Type 0 where
  pub node_id : String
  pub compliance_score : F64
  pub approved : Bool
  pub timestamp : String

pub record ConsensusSession : Type 0 where
  pub commit_hash : String
  pub requesting_node : String
  pub votes : List Vote
  pub started_at : String
  pub config : ConsensusConfig

pub record PhoenixConsensus : Type 0 where
  pub config : ConsensusConfig
  pub active_sessions : HashMap ConsensusSession
  pub handshake_service : Option Service
  pub node_id : String
  pub mesh_quarantine : HashMap String

unfoldable pub new : Float → String → String → PhoenixConsensus
unfolding default_config
new fl node_id agents_repo_path = record {
  config = default_config fl agents_repo_path;
  active_sessions = [];
  handshake_service = none;
  node_id = node_id;
  mesh_quarantine = [];
}

unfoldable pub is_quarantined : PhoenixConsensus → String → Bool
is_quarantined c commit_hash = HashMap.contains_key commit_hash c.mesh_quarantine

-- `votes_for_commit`
abbrev votes_of : Option ConsensusSession → Option (List Vote)
votes_of none = none
votes_of (some s) = some s.votes

unfoldable pub get_votes_for_commit : PhoenixConsensus → String → Option (List Vote)
get_votes_for_commit c commit_hash = votes_of (HashMap.get commit_hash c.active_sessions)

-- A run of `git`: it could not be started, or it ended with a status and its two outputs.
pub data GitOutput : Type 0 where
  unstarted : (error : String) → GitOutput
  exited : (success : Bool) (stdout stderr : String) → GitOutput

pub record Git : Type 0 where
  pub pull : String → GitOutput
  pub add_all : String → GitOutput
  pub commit : String → String → GitOutput

pub data Done : Type 0 where
  done : Done
  fails : String → Done

-- The checks at the head of `adopt_commit` and `create_override_commit`.
abbrev with_repo : Host → String → Done → Done
with_repo host path next =
    if not (host.exists path)
    then fails ("Repository path does not exist: " <> path)
    else if not (host.exists (host.join path ".git"))
    then fails ("Path is not a git repository: " <> path)
    else next

pulled : GitOutput → Done
pulled (unstarted e) = fails ("Failed to execute git pull: " <> e)
pulled (exited true stdout stderr) = done
pulled (exited false stdout stderr) =
    fails ("Git pull failed: stdout=" <> stdout <> ", stderr=" <> stderr)

unfoldable pub adopt_commit : Host → Git → String → Done
unfolding pulled
adopt_commit host git path = with_repo host path (pulled (git.pull path))

-- A commit that failed because there was nothing to commit counts as done.
committed : GitOutput → Done
committed (unstarted e) = fails ("Failed to execute git commit: " <> e)
committed (exited true stdout stderr) = done
committed (exited false stdout stderr) =
    if is_some (find? stderr "nothing to commit")
    then done
    else fails ("Git commit failed: " <> stderr)

staged : GitOutput → Done → Done
staged (unstarted e) next = fails ("Failed to execute git add: " <> e)
staged (exited true stdout stderr) next = next
staged (exited false stdout stderr) next = fails ("Git add failed: " <> stderr)

unfoldable pub create_override_commit : Host → Git → String → String → Done
unfolding committed staged
create_override_commit host git path message =
    with_repo host path (staged (git.add_all path) (committed (git.commit path message)))

-- `hs.get_verified_peers().await.len()`, or 0 without the service.
abbrev pub peer_count : Option Service → ℕ
peer_count none = 0
peer_count (some hs) = length (get_verified_peers hs)

-- How many votes close a session.
unfoldable pub total_expected : PhoenixConsensus → ℕ
total_expected c = max (peer_count c.handshake_service) 1

-- `sum::<f64>()`, from the left.
abbrev pub sum_scores : Float → F64 → List Vote → F64
sum_scores fl acc [] = acc
sum_scores fl acc (v ∷ vs) = sum_scores fl (fl.add acc v.compliance_score) vs

unfoldable pub approval_percentage : Float → List Vote → F64
approval_percentage fl votes =
    fl.mul (fl.div (fl.lit (count_if (λ v. v.approved) votes)) (fl.lit (length votes))) (fl.lit 100)

unfoldable pub average_score : Float → List Vote → F64
average_score fl votes = fl.div (sum_scores fl (fl.lit 0) votes) (fl.lit (length votes))

-- The verdict on a closed session.
unfoldable pub approves : Float → ConsensusConfig → List Vote → Bool
approves fl cfg votes =
    fl.ge (average_score fl votes) cfg.min_average_score
    && fl.ge (approval_percentage fl votes) cfg.min_approval_percentage
