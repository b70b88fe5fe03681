-- ===== src/AgentFactory.antt =====
-- backend-rust-orchestrator/src/agents/factory.rs: the registry of sub-agents and their quota. Every
-- worker is a tokio task: its three steps (start, next task, reply of the model) are functions on the
-- agent's handle, and a history is a list of calls and steps. The model's reply is a parameter. A
-- worker ends only with its handle, so its channel is never closed under a caller.
pub mod WorkerLoop
pub mod Quota
pub mod Queue
pub mod Spawn
pub mod Calls
use pagi_digital_twin.Base.Results.{Result, err, ok}
use pagi_digital_twin.Base.{
  ℕ, ◌/◌, String, Bool, true, false, ◌&&◌, ◌||◌, List, [], ◌∷◌, ◌++◌, map, Option, none, some, ltb,
  leb, length, is_empty, if◌then◌else◌,
}
use pagi_digital_twin.Base.HashMap
use pagi_digital_twin.Base.HashMap.{HashMap}
use pagi_digital_twin.Base.Float.{F64, Float}
use pagi_digital_twin.Base.Text.{trim}
use pagi_digital_twin.Bus.{agent_handshake, resource_warning, Events, Stamps}
use pagi_digital_twin.Host.{◌<>◌}

pub record AgentInfo : Type 0 where
  pub agent_id : String
  pub name : String
  pub mission : String
  pub permissions : List String
  pub status : String
  pub created_at : String

pub record AgentReport : Type 0 where
  pub agent_id : String
  pub task : String
  pub report : String
  pub created_at : String

pub record AgentSpawnResult : Type 0 where
  pub agent_id : String
  pub status : String

-- Where the worker stands: not yet run, waiting for a task, or waiting for the model on one.
pub data Worker : Type 0 where
  starting waiting : Worker
  busy : String → Worker

-- `tasks` is the channel, oldest first; `prompt` and `worker` belong to the spawned task.
pub record AgentHandle : Type 0 where
  pub info : AgentInfo
  pub tasks : List String
  pub last_report : Option AgentReport
  pub logs : List String
  pub last_activity : String
  pub prompt : String
  pub worker : Worker

pub record AgentFactory : Type 0 where
  pub agents : HashMap AgentHandle
  pub max_agents : ℕ
  pub has_memory_client : Bool

unfoldable pub new : ℕ → Bool → AgentFactory
new max_agents has_memory_client = record {
  agents = [];
  max_agents = max_agents;
  has_memory_client = has_memory_client;
}

unfoldable pub list_agents : AgentFactory → List AgentInfo
list_agents f = map (λ h. h.info) (HashMap.values f.agents)

abbrev logs_of : Option AgentHandle → Result (List String)
logs_of none = err "agent_id not found"
logs_of (some h) = ok h.logs

unfoldable pub get_logs : AgentFactory → String → Result (List String)
get_logs f agent_id = logs_of (HashMap.get agent_id f.agents)

abbrev report_of : Option AgentHandle → Result (Option AgentReport)
report_of none = err "agent_id not found"
report_of (some h) = ok h.last_report

unfoldable pub get_report : AgentFactory → String → Result (Option AgentReport)
get_report f agent_id = report_of (HashMap.get agent_id f.agents)

-- What a call to `spawn_agent` reads from outside: the new identifier, two readings of the clock and
-- the printing of a number.
pub record Spawning : Type 0 where
  pub agent_id : String
  pub now : Stamps
  pub show : ℕ → String

unfoldable pub handle_of :
    Spawning
    → (name mission : String) → List String
    → (inherited_system_prompt : String) → AgentHandle
handle_of env name mission permissions inherited_system_prompt = record {
  info = record {
    agent_id = env.agent_id;
    name = name;
    mission = mission;
    permissions = permissions;
    status = "idle";
    created_at = env.now 0;
  };
  tasks = [];
  last_report = none;
  logs = [];
  last_activity = env.now 1;
  prompt = inherited_system_prompt;
  worker = starting;
}

-- The part under the write lock.
unfoldable pub admit :
    AgentFactory
    → Spawning
    → (name mission : String) → List String
    → (inherited_system_prompt : String) → Result AgentSpawnResult × AgentFactory × Events
admit f env name mission permissions inherited_system_prompt =
    if leb f.max_agents (length f.agents)
    then (
      err ("agent quota exceeded (max_agents=" <> (env.show f.max_agents <> "); refuse spawn")),
      f,
      [],
    )
    else (
      ok (record { agent_id = env.agent_id; status = "spawned" }),
      record f {
        agents =
            HashMap.insert env.agent_id
              (handle_of env name mission permissions inherited_system_prompt) f.agents;
      },
      agent_handshake env.agent_id name mission (env.now 0) ∷ [],
    )

unfoldable pub spawn_agent :
    AgentFactory
    → Spawning
    → (name mission : String) → List String
    → (inherited_system_prompt : String) → Result AgentSpawnResult × AgentFactory × Events
spawn_agent f env name mission permissions inherited_system_prompt =
    if is_empty (trim name)
    then (err "name must not be empty", f, [])
    else if is_empty (trim mission)
    then (err "mission must not be empty", f, [])
    else admit f env (trim name) (trim mission) permissions inherited_system_prompt

-- A full channel keeps the caller waiting, with the read lock held.
pub data Posted : Type 0 where
  posted : Posted
  refused : String → Posted
  blocked : Posted

abbrev pub capacity : ℕ
capacity = 32

unfoldable pub send_task : AgentHandle → String → Posted × AgentHandle
send_task h task =
    if ltb (length h.tasks) capacity
    then (posted, record h { tasks = h.tasks ++ task ∷ [] })
    else (blocked, h)

unfoldable pub post_to : AgentFactory → String → String → Option AgentHandle → Posted × AgentFactory
post_to f agent_id task none = (refused "agent_id not found", f)
post_to f agent_id task (some h) =
    let sent = send_task h task in
    (sent.0, record f { agents = HashMap.insert agent_id sent.1 f.agents })

unfoldable pub post_task : AgentFactory → String → String → Posted × AgentFactory
post_task f agent_id data' =
    if is_empty (trim data')
    then (refused "task data must not be empty", f)
    else post_to f agent_id (trim data') (HashMap.get agent_id f.agents)

unfoldable pub kill_agent : AgentFactory → String → Result Unit × AgentFactory
kill_agent f agent_id =
    if HashMap.contains_key agent_id f.agents
    then (ok tt, record f { agents = HashMap.remove agent_id f.agents })
    else (err "agent_id not found", f)

-- The process as the monitor sees it, with its prints: `{}` of the megabytes, `{:.1}` of the share.
pub record Usage : Type 0 where
  pub memory_bytes : ℕ
  pub cpu_percent : F64
  pub memory_text : String
  pub cpu_text : String

-- Resource type, value and threshold of a warning.
unfoldable pub warning_texts :
    (memory_exceeded cpu_exceeded : Bool) → Usage → String × String × String
warning_texts true true u = (
  "memory_and_cpu",
  u.memory_text <> ("MB RAM, " <> (u.cpu_text <> "% CPU")),
  "500MB RAM, 20% CPU",
)
warning_texts true false u = ("memory", u.memory_text <> "MB", "500MB")
warning_texts false cpu_exceeded u = ("cpu", u.cpu_text <> "%", "20%")

unfoldable pub warn_all : String × String × String → Stamps → HashMap AgentHandle → Events
warn_all texts now [] = []
warn_all texts now ((agent_id, h) ∷ agents) =
    resource_warning agent_id h.info.name texts.0 texts.1 texts.2 (now 0)
    ∷ warn_all texts now agents

abbrev pub mebibytes : ℕ → ℕ
mebibytes bytes = bytes / 1024 / 1024

-- One tick of the monitor; `none` is a process that is not found.
unfoldable pub check_resources : Float → AgentFactory → Option Usage → Stamps → Events
check_resources fl f none now = []
check_resources fl f (some u) now =
    let memory_exceeded = ltb 500 (mebibytes u.memory_bytes) in
    let cpu_exceeded = fl.lt (fl.lit 20) u.cpu_percent in
    if memory_exceeded || cpu_exceeded
    then warn_all (warning_texts memory_exceeded cpu_exceeded u) now f.agents
    else []
