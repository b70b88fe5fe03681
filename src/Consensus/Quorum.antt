-- ===== src/Consensus/Quorum.antt =====
-- network/consensus.rs: who can close a session, and what a closed session can decide.
use pagi_digital_twin.Base.{
  subst, max, ℕ, zero, suc, ◌<◌, String, Bool, true, false, ◌≡◌, refl, ap, ◌∙◌, List, [], ◌∷◌, ◌++◌,
  arith, length, eq_refl, inl, inr, All, count_if_none, replicate, replicate-append,
  length-replicate,
}
use pagi_digital_twin.Base.Float.{Float, F64, IsIeee, exact_limit}
use pagi_digital_twin.Host.{Host}
use pagi_digital_twin.Bus.{Events, Stamps}
use pagi_digital_twin.Consensus.{
  Vote, PhoenixConsensus, peer_count, is_quarantined, Git, total_expected, approval_percentage,
  approves, default_config,
}
use pagi_digital_twin.Consensus.Handlers.{Run, panicked, ran, result_event, evaluate_consensus}
use pagi_digital_twin.Consensus.Verdict.{votes_on, Decided, evaluate_consensus-Decided}
use pagi_digital_twin.Consensus.Votes.{filed, vote_alone, vote_alone_lem}

-- The state that a run leaves; a panic ends its task and leaves the maps as they were.
abbrev pub after_run : PhoenixConsensus → Run → PhoenixConsensus
after_run c panicked = c
after_run c (ran c' events) = c'

expected :
    (c c' : PhoenixConsensus)
    → c'.handshake_service ≡ c.handshake_service
    → max (peer_count c'.handshake_service) 1 ≡ total_expected c
unfolding total_expected
expected c c' p = rw p

module _ (fl : Float) (host : Host) (git : Git) (commit_hash voting_node : String) (score : F64)
    (approved : Bool) (now later : Stamps) where
  -- The same vote so many times.
  abbrev pub vote_times : ℕ → PhoenixConsensus → PhoenixConsensus
  vote_times zero c = c
  vote_times (suc n) c =
      let c' = vote_times n c in
      after_run c' (vote_alone fl host git c' commit_hash voting_node score approved now later)

  voted_length :
      (n : ℕ) (c : PhoenixConsensus)
      → votes_on (vote_times n c) commit_hash ≡ replicate n (filed voting_node score approved now)
      → length (votes_on (vote_times n c) commit_hash ++ filed voting_node score approved now ∷ [])
        ≡ suc n
  voted_length n c e = rw e (
      rw (replicate-append n (filed voting_node score approved now))
        (ap suc (length-replicate n (filed voting_node score approved now))))

  open_after :
      (n : ℕ) (c : PhoenixConsensus)
      → votes_on c commit_hash ≡ []
      → n < total_expected c
      → (votes_on (vote_times n c) commit_hash ≡ replicate n (filed voting_node score approved now))
        × ((vote_times n c).handshake_service ≡ c.handshake_service)
  open_after zero c e h = (e, refl)
  open_after (suc n) c e h =
      let (v, p) = open_after n c e (omega arith) in
      elim (vote_alone_lem fl host git (vote_times n c) commit_hash voting_node score approved now
        later) [
          | inl (enough, _) ↦
              absurd (omega (arith, expected c (vote_times n c) p, voted_length n c v))
          | inr (_, after, e', k) ↦ (
            rw e' (k.votes_now ∙ rw v (replicate-append n (filed voting_node score approved now))),
            rw e' (k.peers_kept ∙ p),
          )
        ]

  -- One peer alone fills a quorum of any size by repeating its vote: a session that waits for n + 1
  -- votes is decided by the (n + 1)-st vote of one and the same node, if nothing comes between a vote
  -- and its evaluation.
  pub one_voter_decides :
      (n : ℕ) (c : PhoenixConsensus)
      → votes_on c commit_hash ≡ []
      → total_expected c ≡ suc n
      → Decided fl
          (vote_times n c)
          commit_hash
          (replicate (suc n) (filed voting_node score approved now))
          later
          (vote_alone fl host git (vote_times n c) commit_hash voting_node score approved now later)
  one_voter_decides n c e h =
      let (v, p) = open_after n c e (omega arith) in
      elim (vote_alone_lem fl host git (vote_times n c) commit_hash voting_node score approved now
        later) [
          | inl (_, d) ↦
              subst
                (λ vs. Decided fl (vote_times n c) commit_hash vs later (
                  vote_alone fl host git (vote_times n c) commit_hash voting_node score approved now
                    later))
                (rw v (replicate-append n (filed voting_node score approved now))) d
          | inr (few, after, e', k) ↦
              absurd (omega (arith, expected c (vote_times n c) p, voted_length n c v))
        ]

no_approval :
    (fl : Float) (votes : List Vote)
    → IsIeee fl
    → All (λ v. v.approved ≡ false) votes
    → 0 < length votes
    → length votes < exact_limit
    → approval_percentage fl votes ≡ fl.lit 0
unfolding approval_percentage
no_approval fl votes ieee against some_votes few =
    rw (approval_percentage, count_if_none (λ v. v.approved) votes against)
      (rw (ieee.zero_div (length votes) some_votes few) (ieee.mul_lit 0 100 (omega arith)))

nobody_approves :
    (fl : Float) (path : String) (votes : List Vote)
    → IsIeee fl
    → All (λ v. v.approved ≡ false) votes
    → 0 < length votes
    → length votes < exact_limit
    → approves fl (default_config fl path) votes ≡ false
unfolding approves default_config
nobody_approves fl path votes ieee against some_votes few =
    rw
      (
        no_approval fl votes ieee against some_votes few,
        ieee.ge_lit 0 50 (omega arith) (omega arith),
      )
      (ground arith)

-- With IEEE arithmetic and the default thresholds, a session with votes, fewer than 2^53, of which
-- none approves ends with its commit in quarantine.
pub evaluate_consensus_rejected :
    (fl : Float) (host : Host) (git : Git) (c : PhoenixConsensus) (commit_hash path : String)
    (now : Stamps)
    → IsIeee fl
    → c.config ≡ default_config fl path
    → All (λ v. v.approved ≡ false) (votes_on c commit_hash)
    → 0 < length (votes_on c commit_hash)
    → length (votes_on c commit_hash) < exact_limit
    → (after : PhoenixConsensus) × (events : Events) × (evaluate_consensus fl host git c commit_hash
          now
        ≡ ran after events)
      × (is_quarantined after commit_hash ≡ true)
evaluate_consensus_rejected fl host git c commit_hash path now ieee standard against some_votes
      few =
    let d =
      evaluate_consensus-Decided fl host git c commit_hash (votes_on c commit_hash) now refl
        some_votes in
    let lost : approves fl c.config (votes_on c commit_hash) ≡ false =
      rw standard (nobody_approves fl path (votes_on c commit_hash) ieee against some_votes few) in
    (
      d.after,
      result_event fl c commit_hash (votes_on c commit_hash) now ∷ d.rest,
      d.ends,
      d.judged commit_hash ∙ ground (arith, eq_refl commit_hash),
    )
