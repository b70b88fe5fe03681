-- ===== src/Tests/Votes.antt =====
-- network/consensus.rs at a service without peers, which one vote decides, and at one with two.
use pagi_digital_twin.Base.{true, false, ◌≡◌, refl, List, [], ◌∷◌, ◌++◌, none, arith}
use pagi_digital_twin.Base.HashMap
use pagi_digital_twin.Base.Float.{bits}
use pagi_digital_twin.Bus.{Events, consensus_vote}
use pagi_digital_twin.Consensus.{
  total_expected, Git, exited, PhoenixConsensus, Vote, is_quarantined,
}
use pagi_digital_twin.Consensus.Handlers.{
  panicked, timeout_due, ran, evaluates, resume, on_timeout, handle_consensus_vote,
}
use pagi_digital_twin.Consensus.Verdict.{votes_on}
use pagi_digital_twin.Consensus.Votes.{Voted, filed, handle_consensus_vote-Voted}
use pagi_digital_twin.Consensus.History.{
  System, Call, hears, requests, times_out, goes_on, overrides, run, run-quarantined,
}
use pagi_digital_twin.Consensus.Race.{evaluate_consensus_race}
use package.pagi_digital_twin.Tests.Data.{clock, host, float}

abbrev git : Git
git = record {
  pull = λ path. exited true "" "";
  add_all = λ path. exited true "" "";
  commit = λ path message. exited true "" "";
}

abbrev alone : PhoenixConsensus
alone = record {
  config = record {
    min_average_score = bits 70;
    min_approval_percentage = bits 50;
    vote_timeout_seconds = 30;
    agents_repo_path = "agents";
  };
  active_sessions = [];
  handshake_service = none;
  node_id = "blue";
  mesh_quarantine = ("c0", "bad") ∷ [];
}

abbrev refusal : Vote
refusal = filed "red" (bits 20) false clock

abbrev waiting : PhoenixConsensus
waiting = record alone {
  active_sessions =
      (
        "c1",
        record {
          commit_hash = "c1";
          requesting_node = "blue";
          votes = refusal ∷ [];
          started_at = "t";
          config = alone.config;
        },
      )
      ∷ [];
}

handle_consensus_vote-Voted_example :
    Voted float host git waiting "c1"
      (votes_on waiting "c1" ++ filed "green" (bits 80) true clock ∷ [])
      clock
      (handle_consensus_vote waiting "c1" "green" (bits 80) true clock)
handle_consensus_vote-Voted_example =
    handle_consensus_vote-Voted float host git waiting "c1" "green" (bits 80) true clock clock

abbrev calls : List Call
calls =
    hears (consensus_vote "c0" "red" (bits 99) true "t") clock
    ∷ requests "c0" clock
    ∷ times_out "c0"
    ∷ goes_on 1 clock
    ∷ goes_on 0 clock
    ∷ overrides "c9" "why" clock
    ∷ []

abbrev system : System
system = record { consensus = alone; tasks = [] }

run-quarantined_example : is_quarantined (run float host git system calls).consensus "c0" ≡ true
unfolding is_quarantined HashMap.get
run-quarantined_example = run-quarantined float host git system calls "c0" refl refl

evaluate_consensus_race_example :
    let (c', rest) = handle_consensus_vote waiting "c1" "green" (bits 80) true clock in
    (on_timeout waiting "c1" ≡ evaluates "c1")
    × (rest ≡ evaluates "c1")
    × (after : PhoenixConsensus) × (events : Events) × (resume float host git rest c' clock
        ≡ ran after events)
    × (resume float host git (on_timeout waiting "c1") after clock ≡ panicked)
unfolding timeout_due total_expected HashMap.get
evaluate_consensus_race_example =
    evaluate_consensus_race float host git waiting "c1" "green" (bits 80) true clock clock clock
      refl (omega arith)
