-- ===== src/Consensus/Votes.antt =====
-- network/consensus.rs: what a vote does to its session, and what follows it.
use pagi_digital_twin.Base.{
  ◌<◌, max, ◌≤◌, String, Bool, true, false, ◌≡◌, refl, List, [], ◌∷◌, ◌++◌, arith, length,
  length-append, if◌then◌else◌, ◌⊎◌, inl, inr, Bool-cases,
}
use pagi_digital_twin.Base.Float.{Float, F64}
use pagi_digital_twin.Host.{Host}
use pagi_digital_twin.Bus.{Stamps}
use pagi_digital_twin.Consensus.{Vote, PhoenixConsensus, Git, total_expected, peer_count}
use pagi_digital_twin.Consensus.Handlers.{
  Rest, evaluates, finished, resume, Run, ran, evaluate_consensus, record_vote, should_evaluate,
  handle_consensus_vote,
}
use pagi_digital_twin.Consensus.Verdict.{
  votes_on, Decided, evaluate_consensus-Decided, Counted, record_vote-Counted, Counted-Decided,
}

-- The vote as `handle_consensus_vote` files it.
abbrev pub filed : String → F64 → Bool → Stamps → Vote
filed voting_node score approved now = record {
  node_id = voting_node;
  compliance_score = score;
  approved = approved;
  timestamp = now 0;
}

-- A vote and the evaluation that is due, with nothing in between.
abbrev pub vote_alone :
    Float → Host → Git → PhoenixConsensus → String → String → F64 → Bool → Stamps → Stamps → Run
vote_alone fl host git c commit_hash voting_node score approved now later =
    let (c', rest) = handle_consensus_vote c commit_hash voting_node score approved now in
    resume fl host git rest c' later

-- The vote joins the votes of its session, and then an evaluation follows or not.
abbrev pub Voted :
    Float
    → Host
    → Git
    → PhoenixConsensus
    → String
    → List Vote
    → Stamps
    → PhoenixConsensus × Rest
    → Type 0
Voted fl host git c commit_hash votes later out =
    Counted c commit_hash votes out.0
    × (((max (peer_count c.handshake_service) 1 ≤ length votes)
          × (out.1 ≡ evaluates commit_hash)
          × Decided fl c commit_hash votes later
              (evaluate_consensus fl host git out.0 commit_hash later))
        ⊎ ((length votes < max (peer_count c.handshake_service) 1) × (out.1 ≡ finished)))

module _ (fl : Float) (host : Host) (git : Git) (c : PhoenixConsensus)
    (commit_hash voting_node : String) (score : F64) (approved : Bool) (now later : Stamps) where
  c' : PhoenixConsensus
  c' = record_vote c commit_hash (filed voting_node score approved now) now

  abbrev all_votes : List Vote
  all_votes = votes_on c commit_hash ++ filed voting_node score approved now ∷ []

  counted : Counted c commit_hash all_votes c'
  unfolding c'
  counted = record_vote-Counted c commit_hash (filed voting_node score approved now) now

  enough_votes :
      should_evaluate c' commit_hash ≡ true
      → max (peer_count c.handshake_service) 1 ≤ length all_votes
  enough_votes h =
      rw (← counted.votes_now)
        (unfold should_evaluate record_vote total_expected c' in ground arith)

  too_few :
      should_evaluate c' commit_hash ≡ false
      → length all_votes < max (peer_count c.handshake_service) 1
  too_few h =
      rw (← counted.votes_now)
        (unfold should_evaluate record_vote total_expected c' in ground arith)

  -- A vote is appended to the votes of its session, a new one if there is none, and neither another
  -- session nor the quarantine changes. With it the votes either reach the number of peers on file
  -- (at least one), and an evaluation follows, which, if nothing comes in between, decides the commit
  -- on all of them; or they do not, and none follows.
  pub handle_consensus_vote-Voted :
      Voted fl host git c commit_hash all_votes later
        (handle_consensus_vote c commit_hash voting_node score approved now)
  unfolding handle_consensus_vote c'
  handle_consensus_vote-Voted = (
    counted,
    elim (Bool-cases (should_evaluate c' commit_hash)) [
      | inl enough ↦ inl (
        enough_votes enough,
        rw (enough, if◌then◌else◌) refl,
        Counted-Decided fl counted (
            evaluate_consensus-Decided fl host git c' commit_hash _ later counted.votes_now (
              omega (
                arith,
                length-append (votes_on c commit_hash) (filed voting_node score approved now ∷ []),
              ))),
      )
      | inr few ↦ inr (too_few few, rw (few, if◌then◌else◌) refl)
    ],
  )

  -- The same with nothing in between: the commit is decided, or the vote is counted and the session
  -- stays open.
  pub vote_alone_lem :
      ((max (peer_count c.handshake_service) 1 ≤ length all_votes)
        × Decided fl c commit_hash all_votes later
            (vote_alone fl host git c commit_hash voting_node score approved now later))
      ⊎ ((length all_votes < max (peer_count c.handshake_service) 1)
          × (after : PhoenixConsensus) × (vote_alone fl host git c commit_hash voting_node score
                approved now later
              ≡ ran after [])
          × Counted c commit_hash all_votes after)
  unfolding resume
  vote_alone_lem =
      let (kept, next) = handle_consensus_vote-Voted in
      elim next [
        | inl (enough, due, decided) ↦ inl (enough, rw due decided)
        | inr (few, over) ↦ inr (few, _, rw over refl, kept)
      ]
