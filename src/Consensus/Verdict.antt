-- ===== src/Consensus/Verdict.antt =====
-- network/consensus.rs: what a vote does, and what an evaluation decides.
use pagi_digital_twin.Base.{
  ◌<◌, not, String, ◌&&◌, ◌||◌, ◌≡◌, ◌≢◌, refl, ap, ◌∙◌, List, [], ◌∷◌, ◌++◌, Option, none, some,
  arith, ◌==◌, length, if◌then◌else◌, eq_iff, inl, inr, Bool-cases,
}
use pagi_digital_twin.Base.HashMap
use pagi_digital_twin.Base.HashMap.{
  HashMap, get-insert, get-remove, get-insert_self, get-remove_self,
}
use pagi_digital_twin.Base.Float.{Float}
use pagi_digital_twin.Host.{Host}
use pagi_digital_twin.Bus.{Events, Stamps}
use pagi_digital_twin.Consensus.{
  adopt_commit, Vote, ConsensusSession, PhoenixConsensus, is_quarantined, Git, approves,
}
use pagi_digital_twin.Consensus.Handlers.{
  rejection, adopted, Run, ran, result_event, settle, evaluate_session, evaluate_consensus,
  session_or_new, record_vote, votes_in,
}

abbrev pub votes_on : PhoenixConsensus → String → List Vote
votes_on c commit_hash = votes_in (HashMap.get commit_hash c.active_sessions)

-- A run that came to an end with this commit decided: its session is closed, the result is published
-- first, and the commit is quarantined besides those before exactly if the votes do not approve it.
pub record Decided (fl : Float) (c : PhoenixConsensus) (commit_hash : String) (votes : List Vote)
    (now : Stamps) (r : Run) : Type 0 where
  pub after : PhoenixConsensus
  pub rest : Events
  pub ends : r ≡ ran after (result_event fl c commit_hash votes now ∷ rest)
  pub closed :
      (j : String)
      → HashMap.get j after.active_sessions
        ≡ (if commit_hash == j then none else HashMap.get j c.active_sessions)
  pub judged :
      (j : String)
      → is_quarantined after j
        ≡ (((commit_hash == j) && not (approves fl c.config votes)) || is_quarantined c j)
  pub same_config : after.config ≡ c.config

module _ (fl : Float) (host : Host) (git : Git) where
  settle-Decided :
      (c : PhoenixConsensus) (commit_hash : String) (votes : List Vote) (now : Stamps)
      → let c' = record c { active_sessions = HashMap.remove commit_hash c.active_sessions } in
        Decided fl c commit_hash votes now (settle fl host git c' commit_hash votes now)
  unfolding settle is_quarantined result_event
  settle-Decided c commit_hash votes now = elim (Bool-cases (approves fl c.config votes)) [
    | inl yes' ↦ record {
      after = record c { active_sessions = HashMap.remove commit_hash c.active_sessions };
      rest = adopted commit_hash (adopt_commit host git c.config.agents_repo_path) now;
      ends = rw yes';
      closed = λ j. get-remove commit_hash j c.active_sessions;
      judged = λ j. rw yes' (ground arith);
      same_config = refl;
    }
    | inr no' ↦ record {
      after = record c {
        active_sessions = HashMap.remove commit_hash c.active_sessions;
        mesh_quarantine = HashMap.insert commit_hash (rejection fl host votes) c.mesh_quarantine;
      };
      rest = [];
      ends = rw no';
      closed = λ j. get-remove commit_hash j c.active_sessions;
      judged = λ j. rw (no', get-insert) (ground arith);
      same_config = refl;
    }
  ]

  -- An evaluation of a session with votes publishes the result on exactly these votes, closes this
  -- session and no other, and puts the commit, and no other, in quarantine exactly if they do not
  -- reach the thresholds.
  pub evaluate_consensus-Decided :
      (c : PhoenixConsensus) (commit_hash : String) (votes : List Vote) (now : Stamps)
      → votes_on c commit_hash ≡ votes
      → 0 < length votes
      → Decided fl c commit_hash votes now (evaluate_consensus fl host git c commit_hash now)
  unfolding evaluate_consensus
  evaluate_consensus-Decided c commit_hash votes now e some_votes =
      by_session (HashMap.get commit_hash c.active_sessions) votes e some_votes
    where
      by_session :
          (o : Option ConsensusSession) (vs : List Vote)
          → votes_in o ≡ vs
          → 0 < length vs
          → Decided fl c commit_hash vs now (evaluate_session fl host git c commit_hash o now)
      by_session none [] p h = absurd (omega arith)
      by_session none (v ∷ vs) p h = cc
      by_session (some s) [] p h = absurd (omega arith)
      by_session (some s) (v ∷ vs) p h =
          rw (p, evaluate_session) (settle-Decided c commit_hash (v ∷ vs) now)

-- The session after one more vote, when it stays open: its votes are those given, and nothing else
-- has changed.
pub record Counted (c : PhoenixConsensus) (commit_hash : String) (votes : List Vote)
    (after : PhoenixConsensus) : Type 0 where
  pub votes_now : votes_on after commit_hash ≡ votes
  pub others :
      (j : String)
      → j ≢ commit_hash
      → HashMap.get j after.active_sessions ≡ HashMap.get j c.active_sessions
  pub quarantine_kept : after.mesh_quarantine ≡ c.mesh_quarantine
  pub config_kept : after.config ≡ c.config
  pub peers_kept : after.handshake_service ≡ c.handshake_service

pub record_vote-Counted :
    (c : PhoenixConsensus) (commit_hash : String) (v : Vote) (now : Stamps)
    → Counted c commit_hash (votes_on c commit_hash ++ v ∷ []) (record_vote c commit_hash v now)
unfolding record_vote
record_vote-Counted c commit_hash v now = record {
  votes_now =
      ap votes_in (get-insert_self commit_hash _ c.active_sessions)
      ∙ by_session (HashMap.get commit_hash c.active_sessions);
  others = λ j apart. rw get-insert (ground (arith, eq_iff commit_hash j));
  quarantine_kept = refl;
  config_kept = refl;
  peers_kept = refl;
}
  where
    by_session :
        (o : Option ConsensusSession)
        → (session_or_new c commit_hash o now).votes ++ v ∷ [] ≡ votes_in o ++ v ∷ []
    by_session none = refl
    by_session (some s) = refl

pub Counted-Decided :
    (fl : Float) {c after : PhoenixConsensus} {commit_hash : String} {votes vs : List Vote}
    {now : Stamps} {r : Run}
    → Counted c commit_hash vs after
    → Decided fl after commit_hash votes now r
    → Decided fl c commit_hash votes now r
unfolding result_event is_quarantined
Counted-Decided fl {c} {after} {commit_hash} k d = record {
  after = d.after;
  rest = d.rest;
  ends = rw (← k.config_kept) d.ends;
  closed = λ j. d.closed j ∙ ground (arith, k.others j, eq_iff commit_hash j);
  judged = λ j. rw (← k.config_kept, ← k.quarantine_kept) (d.judged j);
  same_config = d.same_config ∙ k.config_kept;
}
