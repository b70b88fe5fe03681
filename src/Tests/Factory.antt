-- ===== src/Tests/Factory.antt =====
-- agents/factory.rs at concrete calls: a factory with room for one agent or two.
use pagi_digital_twin.Base.Results.{ok}
use pagi_digital_twin.Base.{refl, true, false, ◌≡◌, ◌⊎◌, List, [], ◌∷◌, ◌++◌, none, some, arith}
use pagi_digital_twin.Bus.{Stamps}
use pagi_digital_twin.Base.HashMap
use pagi_digital_twin.Base.Text.{trim, trim_end, trim_start, is_whitespace}
use pagi_digital_twin.AgentFactory.{
  kill_agent, AgentFactory, AgentHandle, Spawning, new, spawn_agent, handle_of, waiting,
}
use pagi_digital_twin.AgentFactory.WorkerLoop.{Format, Answer, request_failed, choice}
use pagi_digital_twin.AgentFactory.Calls.{Call, spawns, posts, works, run}
use pagi_digital_twin.AgentFactory.Quota.{Inv, run_within_quota}
use pagi_digital_twin.AgentFactory.Queue.{
  Happening, sends, runs, after, taken, ended, pending, all_runs, queue_in_order, worker_drains,
}
use pagi_digital_twin.AgentFactory.Spawn.{
  Spawned, Refused, spawn_agent-Spawned, kill_agent-spawn_agent,
}
use package.pagi_digital_twin.Tests.Data.{clock}

abbrev fmt : Format
fmt = record { debug_list = λ l. "[]"; show_len = λ s. "2" }

abbrev reply : Answer
reply = choice (some "{}") none none "{}"

abbrev spawning : Spawning
spawning = record { agent_id = "a1"; now = clock; show = λ n. "1" }

abbrev calls : List Call
calls =
    spawns spawning " scout " "look" [] "base"
    ∷ works "a1" clock reply
    ∷ posts "a1" " first "
    ∷ works "a1" clock reply
    ∷ spawns spawning "second" "look" [] "base"
    ∷ works "a1" clock (request_failed "down")
    ∷ []

run_within_quota_example : Inv (run fmt (new 1 true) calls)
run_within_quota_example = run_within_quota fmt 1 true calls

abbrev agent : AgentHandle
agent = record (handle_of spawning "scout" "look" [] "base") {
  tasks = "first" ∷ "second" ∷ [];
  worker = waiting;
}

abbrev happenings : List Happening
happenings = runs clock reply ∷ sends "third" ∷ runs clock (request_failed "down") ∷ []

queue_in_order_example :
    ended fmt agent happenings ++ pending (after fmt agent happenings)
    ≡ pending agent ++ taken fmt agent happenings
queue_in_order_example = queue_in_order fmt agent happenings

abbrev four : List (Stamps × Answer)
four = (clock, reply) ∷ (clock, reply) ∷ (clock, request_failed "down") ∷ (clock, reply) ∷ []

worker_drains_example : ended fmt agent (all_runs four) ≡ "first" ∷ "second" ∷ []
worker_drains_example = worker_drains fmt agent four (omega arith)

abbrev factory : AgentFactory
factory = record { agents = ("a0", agent) ∷ []; max_agents = 1; has_memory_client = false }

abbrev roomy : AgentFactory
roomy = record factory { max_agents = 2 }

spawn_agent-Spawned_example :
    let out = spawn_agent roomy spawning "scout" "look" [] "base" in
    ((out.0 ≡ ok (record { agent_id = "a1"; status = "spawned" }))
      × Spawned roomy spawning "scout" "look" [] "base" out.1.agents out.2)
    ⊎ Refused roomy "scout" "look" out
spawn_agent-Spawned_example = spawn_agent-Spawned roomy spawning "scout" "look" [] "base"

kill_agent-spawn_agent_example :
    (spawn_agent (kill_agent factory "a0").1 spawning "scout" "look" [] "base").0
    ≡ ok (record { agent_id = "a1"; status = "spawned" })
unfolding HashMap.get trim trim_end trim_start is_whitespace
kill_agent-spawn_agent_example =
    kill_agent-spawn_agent factory "a0" spawning "scout" "look" [] "base" (omega arith) refl refl
      refl
