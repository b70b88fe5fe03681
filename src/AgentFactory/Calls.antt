-- ===== src/AgentFactory/Calls.antt =====
-- agents/factory.rs: histories of calls of the factory and steps of its workers, in any order.
use pagi_digital_twin.Base.{String, List, [], ◌∷◌}
use pagi_digital_twin.Bus.{Stamps}
use pagi_digital_twin.AgentFactory.{AgentFactory, Spawning, spawn_agent, post_task, kill_agent}
use pagi_digital_twin.AgentFactory.WorkerLoop.{Format, Answer, run_worker}

pub data Call : Type 0 where
  spawns : Spawning → (name mission : String) → List String → (prompt : String) → Call
  posts : (agent_id task : String) → Call
  kills : (agent_id : String) → Call
  works : (agent_id : String) → Stamps → Answer → Call

abbrev pub step : Format → AgentFactory → Call → AgentFactory
step fmt f (spawns env name mission permissions prompt) =
    (spawn_agent f env name mission permissions prompt).1
step fmt f (posts agent_id task) = (post_task f agent_id task).1
step fmt f (kills agent_id) = (kill_agent f agent_id).1
step fmt f (works agent_id now answer) = (run_worker fmt f agent_id now answer).0

abbrev pub run : Format → AgentFactory → List Call → AgentFactory
run fmt f [] = f
run fmt f (x ∷ xs) = run fmt (step fmt f x) xs
