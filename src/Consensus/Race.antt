-- ===== src/Consensus/Race.antt =====
-- network/consensus.rs: the timeout task looks for the session, and evaluates it in a second step.
use pagi_digital_twin.Base.{
  suc, if◌then◌else◌, ◌≤◌, String, Bool, true, ◌≡◌, refl, ◌∙◌, [], ◌∷◌, ◌++◌, none, arith, inl, inr,
  length, length-append, eq_refl,
}
use pagi_digital_twin.Base.HashMap
use pagi_digital_twin.Base.Float.{Float, F64}
use pagi_digital_twin.Host.{Host}
use pagi_digital_twin.Bus.{Events, Stamps}
use pagi_digital_twin.Consensus.{PhoenixConsensus, Git, total_expected}
use pagi_digital_twin.Consensus.Handlers.{
  result_event, finished, evaluates, resume, on_timeout, ran, panicked, evaluate_consensus,
  evaluate_session, handle_consensus_vote, timeout_due,
}
use pagi_digital_twin.Consensus.Verdict.{votes_on}
use pagi_digital_twin.Consensus.Votes.{filed, handle_consensus_vote-Voted}

evaluate_closed :
    (fl : Float) (host : Host) (git : Git) (c : PhoenixConsensus) (commit_hash : String)
    (now : Stamps)
    → HashMap.get commit_hash c.active_sessions ≡ none
    → evaluate_consensus fl host git c commit_hash now ≡ panicked
unfolding evaluate_consensus
evaluate_closed fl host git c commit_hash now e = rw (e, evaluate_session) refl

-- A vote that completes the quorum after the timeout task has seen the session, and before the task
-- evaluates it, leaves two evaluations of the commit to be run, that of the vote and that of the
-- timeout: whichever runs first closes the session, and the other one panics.
pub evaluate_consensus_race :
    (fl : Float) (host : Host) (git : Git) (c : PhoenixConsensus) (commit_hash voting_node : String)
    (score : F64) (approved : Bool) (now later again : Stamps)
    → timeout_due c commit_hash ≡ true
    → total_expected c ≤ suc (length (votes_on c commit_hash))
    → let (c', rest) = handle_consensus_vote c commit_hash voting_node score approved now in
      (on_timeout c commit_hash ≡ evaluates commit_hash)
      × (rest ≡ evaluates commit_hash)
      × (after : PhoenixConsensus) × (events : Events) × (resume fl host git rest c' later
          ≡ ran after events)
      × (resume fl host git (on_timeout c commit_hash) after again ≡ panicked)
unfolding on_timeout resume total_expected
evaluate_consensus_race fl host git c commit_hash voting_node score approved now later again due
      full =
    let timeout : (if timeout_due c commit_hash then evaluates commit_hash else finished)
        ≡ evaluates commit_hash =
      rw (due, if◌then◌else◌) refl in
    elim (handle_consensus_vote-Voted fl host git c commit_hash voting_node score approved now
      later).1 [
        | inl (_, follows, d) ↦ (
          timeout,
          follows,
          d.after,
          result_event fl c commit_hash
                (votes_on c commit_hash ++ filed voting_node score approved now ∷ []) later
              ∷ d.rest,
          rw follows d.ends,
          rw timeout (
              evaluate_closed fl host git d.after commit_hash again
                (d.closed commit_hash ∙ simp eq_refl)),
        )
        | inr (short, _) ↦ absurd (
            omega (
              arith,
              short,
              full,
              length-append (votes_on c commit_hash) (filed voting_node score approved now ∷ []),
            ))
      ]
