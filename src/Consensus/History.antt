-- ===== src/Consensus/History.antt =====
-- network/consensus.rs: calls one after the other: events of the bus, requests, timeouts, overrides.
use pagi_digital_twin.Base.{
  ℕ, zero, suc, none, some, Option, ◌==◌, Bool, false, any, String, true, ◌≡◌, List, [], ◌∷◌, arith,
  if◌then◌else◌, inl, inr, Bool-cases,
}
use pagi_digital_twin.Base.HashMap
use pagi_digital_twin.Base.HashMap.{get-remove, get-insert}
use pagi_digital_twin.Base.Float.{Float}
use pagi_digital_twin.Host.{Host}
use pagi_digital_twin.Bus.{consensus_request, consensus_vote, PhoenixEvent, Stamps}
use pagi_digital_twin.Consensus.{
  ConsensusSession, Vote, PhoenixConsensus, is_quarantined, Git, approves,
}
use pagi_digital_twin.Consensus.Handlers.{
  Rest, finished, evaluates, resume, evaluate_session, panicked, ran, strategic_override,
  on_timeout, record_vote, request_consensus, Run, handle_consensus_vote, on_event,
  evaluate_consensus, settle, evaluate_votes,
}
use pagi_digital_twin.Consensus.Quorum.{after_run}

-- Every commit quarantined before is quarantined after.
abbrev pub Keeps : PhoenixConsensus → PhoenixConsensus → Type 0
Keeps c c' = (h : String) → is_quarantined c h ≡ true → is_quarantined c' h ≡ true

module _ (fl : Float) (host : Host) (git : Git) where
  settle-Keeps :
      (c : PhoenixConsensus) (commit_hash : String) (votes : List Vote) (now : Stamps)
      → Keeps c (after_run c (settle fl host git c commit_hash votes now))
  unfolding settle is_quarantined
  settle-Keeps c commit_hash votes now h q = elim (Bool-cases (approves fl c.config votes)) [
    | inl yes' ↦ rw (yes', if◌then◌else◌) q
    | inr no' ↦ rw (no', if◌then◌else◌) (rw get-insert (ground arith))
  ]

  evaluate_votes-Keeps :
      (c : PhoenixConsensus) (commit_hash : String) (votes : List Vote) (now : Stamps)
      → Keeps c (after_run c (evaluate_votes fl host git c commit_hash votes now))
  unfolding evaluate_votes
  evaluate_votes-Keeps c commit_hash [] now h q = q
  evaluate_votes-Keeps c commit_hash (v ∷ vs) now h q = settle-Keeps c commit_hash (v ∷ vs) now h q

  evaluate_consensus-Keeps :
      (c : PhoenixConsensus) (commit_hash : String) (now : Stamps)
      → Keeps c (after_run c (evaluate_consensus fl host git c commit_hash now))
  unfolding evaluate_consensus
  evaluate_consensus-Keeps c commit_hash now =
      by_session (HashMap.get commit_hash c.active_sessions)
    where
      closed : PhoenixConsensus
      closed = record c { active_sessions = HashMap.remove commit_hash c.active_sessions }

      from_closed : (r : Run) → Keeps closed (after_run closed r) → Keeps c (after_run c r)
      from_closed panicked k = λ h q. q
      from_closed (ran c' events) k = λ h q. k h (unfold is_quarantined in q)

      by_session :
          (o : Option ConsensusSession)
          → Keeps c (after_run c (evaluate_session fl host git c commit_hash o now))
      by_session none = λ h q. q
      by_session (some s) =
          from_closed (evaluate_votes fl host git closed commit_hash s.votes now)
            (evaluate_votes-Keeps closed commit_hash s.votes now)

pub data Call : Type 0 where
  hears : PhoenixEvent → (now : Stamps) → Call
  requests : (commit_hash : String) (now : Stamps) → Call
  times_out : (commit_hash : String) → Call
  goes_on : (task : ℕ) (now : Stamps) → Call
  overrides : (commit_hash rationale : String) (now : Stamps) → Call

-- The service and what its tasks have still to do; a task goes on at any later time.
pub record System : Type 0 where
  pub consensus : PhoenixConsensus
  pub tasks : List Rest

abbrev pub task_at : ℕ → List Rest → Rest
task_at n [] = finished
task_at zero (t ∷ ts) = t
task_at (suc n) (t ∷ ts) = task_at n ts

abbrev pub without : ℕ → List Rest → List Rest
without n [] = []
without zero (t ∷ ts) = ts
without (suc n) (t ∷ ts) = t ∷ without n ts

-- The state after a call.
abbrev pub step : Float → Host → Git → System → Call → System
step fl host git s (hears e now) =
    let (c, events, rest) = on_event fl s.consensus e now in
    record { consensus = c; tasks = rest ∷ s.tasks }
step fl host git s (requests commit_hash now) = record s {
  consensus = (request_consensus s.consensus commit_hash now).0;
}
step fl host git s (times_out commit_hash) = record s {
  tasks = on_timeout s.consensus commit_hash ∷ s.tasks;
}
step fl host git s (goes_on task now) = record {
  consensus = after_run s.consensus (resume fl host git (task_at task s.tasks) s.consensus now);
  tasks = without task s.tasks;
}
step fl host git s (overrides commit_hash rationale now) = record s {
  consensus = (strategic_override fl host git s.consensus commit_hash rationale now).0;
}

abbrev pub run : Float → Host → Git → System → List Call → System
run fl host git s [] = s
run fl host git s (x ∷ xs) = run fl host git (step fl host git s x) xs

-- The call is an override of this commit.
abbrev pub lifts : String → Call → Bool
lifts h (overrides commit_hash rationale now) = commit_hash == h
lifts h _ = false

module _ (fl : Float) (host : Host) (git : Git) where
  resume-Keeps :
      (c : PhoenixConsensus) (rest : Rest) (now : Stamps)
      → Keeps c (after_run c (resume fl host git rest c now))
  unfolding resume
  resume-Keeps c finished now h q = q
  resume-Keeps c (evaluates commit_hash) now h q =
      evaluate_consensus-Keeps fl host git c commit_hash now h q

  heard-Keeps :
      (c : PhoenixConsensus) (e : PhoenixEvent) (now : Stamps) → Keeps c (on_event fl c e now).0
  unfolding on_event
  heard-Keeps c (consensus_request commit_hash node t) now h q =
      elim (Bool-cases (node == c.node_id)) [
        | inl own ↦ rw (own, if◌then◌else◌) q
        | inr other ↦ rw (other, if◌then◌else◌) q
      ]
  heard-Keeps c (consensus_vote commit_hash node score approved t) now h q =
      elim (Bool-cases (node == c.node_id)) [
        | inl own ↦ rw (own, if◌then◌else◌) q
        | inr other ↦
            rw (other, if◌then◌else◌) (unfold handle_consensus_vote record_vote is_quarantined in q)
      ]
  heard-Keeps c _ now h q = q

  step-quarantined :
      (s : System) (x : Call) (h : String)
      → lifts h x ≡ false
      → is_quarantined s.consensus h ≡ true
      → is_quarantined (step fl host git s x).consensus h ≡ true
  step-quarantined s (hears e now) h l q = heard-Keeps s.consensus e now h q
  step-quarantined s (requests commit_hash now) h l q =
      unfold request_consensus is_quarantined in ground arith
  step-quarantined s (times_out commit_hash) h l q = q
  step-quarantined s (goes_on task now) h l q =
      resume-Keeps s.consensus (task_at task s.tasks) now h q
  step-quarantined s (overrides commit_hash rationale now) h l q =
      unfold strategic_override is_quarantined in rw get-remove (ground arith)

  -- Only an override lifts a commit's quarantine: over any other calls it stays, however the tasks
  -- that they leave are interleaved with them.
  pub run-quarantined :
      (s : System) (xs : List Call) (h : String)
      → any (lifts h) xs ≡ false
      → is_quarantined s.consensus h ≡ true
      → is_quarantined (run fl host git s xs).consensus h ≡ true
  run-quarantined s [] h l q = q
  run-quarantined s (x ∷ xs) h l q =
      run-quarantined (step fl host git s x) xs h (ground arith)
        (step-quarantined s x h (ground arith) q)
