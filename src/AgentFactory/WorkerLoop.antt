-- ===== src/AgentFactory/WorkerLoop.antt =====
-- agents/factory.rs: the loop of a sub-agent's worker, the call of the model and what is remembered of
-- a task. `Debug` and number prints, `str::len` and the model's reply are parameters.
use pagi_digital_twin.Base.Results.{Result, err, ok}
use pagi_digital_twin.Base.{
  String, Bool, List, [], ◌∷◌, ◌++◌, Option, none, some, ◌==◌, if◌then◌else◌,
}
use pagi_digital_twin.Base.HashMap
use pagi_digital_twin.Base.HashMap.{HashMap}
use pagi_digital_twin.Bus.{task_update, Events, Stamps}
use pagi_digital_twin.Host.{◌<>◌}
use pagi_digital_twin.AgentFactory.{
  AgentInfo, Worker, starting, waiting, busy, AgentHandle, AgentFactory,
}

pub record Format : Type 0 where
  pub debug_list : List String → String  -- `{:?}` of the permissions
  pub show_len : String → String  -- the number of bytes, printed

-- The shape of the model's answer: no answer, a status that is no success, a body that is not JSON, an
-- error member, or the texts of the first choice, with the whole answer printed.
pub data Answer : Type 0 where
  request_failed : String → Answer
  bad_status : (status error_text : String) → Answer
  not_json : String → Answer
  error_object : String → Answer
  choice : (message_content text delta_content : Option String) (raw : String) → Answer

abbrev first_of : Option String → Option String → Option String → String → Result String
first_of (some message_content) text delta_content raw = ok message_content
first_of none (some text) delta_content raw = ok text
first_of none none (some delta_content) raw = ok delta_content
first_of none none none raw =
    err ("Failed to extract content from OpenRouter response. Raw JSON: " <> raw)

unfoldable pub openrouter_chat : Answer → Result String
openrouter_chat (request_failed e) = err ("OpenRouter API request failed: " <> e)
openrouter_chat (bad_status status error_text) =
    err ("OpenRouter API returned error status " <> (status <> (": " <> error_text)))
openrouter_chat (not_json e) = err ("Failed to parse OpenRouter response: " <> e)
openrouter_chat (error_object e) = err ("OpenRouter returned an error object: " <> e)
openrouter_chat (choice message_content text delta_content raw) =
    first_of message_content text delta_content raw

unfoldable pub build_subagent_system_prompt : Format → String → AgentInfo → String
build_subagent_system_prompt fmt inherited_system_prompt info =
    inherited_system_prompt
    <> ("\n\n"
        <> ("[SUB-AGENT MODE]\n"
            <> ("You are an EPHEMERAL WORKER spawned by the Phoenix Orchestrator.\n"
                <> ("You MUST stay within your mission. Do not expand scope.\n"
                    <> ("You MUST respect permissions: if a task would require unavailable permissions, say so.\n\n"
                        <> ("AgentName: "
                            <> (info.name
                                <> ("\nAgentId: "
                                    <> (info.agent_id
                                        <> ("\nMission: "
                                            <> (info.mission
                                                <> ("\nPermissions: "
                                                    <> (fmt.debug_list info.permissions
                                                        <> ("\n\nOutput STRICT JSON only with the following structure:\n{\n\"status\": \"ok\" | \"blocked\" | \"error\",\n\"report\": \"...\",\n\"evidence\": [\"...\"],\n\"next_steps\": [\"...\"]\n}\n\n"))))))))))))))

pub record CommitMemoryRequest : Type 0 where
  pub content : String
  pub namespace : String
  pub twin_id : String
  pub memory_type : String
  pub risk_level : String
  pub metadata : HashMap String

-- The request to the memory service; its answer is ignored.
unfoldable pub log_episodic_memory :
    (agent_id agent_name task result outcome : String) → CommitMemoryRequest
log_episodic_memory agent_id agent_name task result outcome = record {
  content =
      "Agent: "
      <> (agent_name
          <> ("\nTask: " <> (task <> ("\nOutcome: " <> (outcome <> ("\nResult: " <> result))))));
  namespace = "episodic_memory";
  twin_id = "orchestrator";
  memory_type = "Episodic";
  risk_level = if outcome == "Failure" then "Medium" else "Low";
  metadata = HashMap.insert "task" task (
      HashMap.insert "outcome" outcome
        (HashMap.insert "agent_name" agent_name (HashMap.insert "agent_id" agent_id [])));
}

unfoldable pub push_log : String → AgentHandle → AgentHandle
push_log line h = record h { logs = h.logs ++ line ∷ [] }

-- The first lines of the worker, before its loop.
unfoldable pub boot : Format → AgentHandle → AgentHandle
boot fmt h =
    let i = h.info in
    let booted = record h {
      logs =
          h.logs
          ++ ("agent_boot: id="
              <> (i.agent_id <> (" name=" <> (i.name <> (" created_at=" <> i.created_at)))))
            ∷ ("mission: " <> i.mission)
            ∷ ("permissions: " <> fmt.debug_list i.permissions)
            ∷ [];
      worker = waiting;
    } in
    booted

-- The head of the loop: the oldest task leaves the channel.
unfoldable pub receive : AgentHandle → Stamps → List String → AgentHandle × Events
receive h now [] = (h, [])
receive h now (task ∷ tasks) = (
  record (push_log ("task_received: " <> task) h) {
    tasks = tasks;
    last_activity = now 0;
    worker = busy task;
  },
  task_update h.info.agent_id task "in_progress" (now 1) ∷ [],
)

-- The end of the loop's body, with the model's reply to the task.
unfoldable pub finish :
    Format
    → AgentHandle
    → Stamps
    → String
    → Result String
    → AgentHandle × Events × List CommitMemoryRequest
finish fmt h now task (ok raw) = (
  record (push_log ("task_completed: bytes=" <> fmt.show_len raw) h) {
    last_report =
        some (record { agent_id = h.info.agent_id; task = task; report = raw; created_at = now 0 });
    worker = waiting;
  },
  task_update h.info.agent_id task "completed" (now 0) ∷ [],
  log_episodic_memory h.info.agent_id h.info.name task raw "Success" ∷ [],
)
finish fmt h now task (err e) = (
  record (push_log ("task_failed: " <> e) h) {
    last_report = some (record {
      agent_id = h.info.agent_id;
      task = task;
      report = "ERROR: " <> e;
      created_at = now 0;
    });
    worker = waiting;
  },
  [],
  log_episodic_memory h.info.agent_id h.info.name task ("ERROR: " <> e) "Failure" ∷ [],
)

-- What the worker does when it runs next; `answer` is the model's, for a worker that waits for it.
unfoldable pub work :
    Format
    → AgentHandle
    → Stamps
    → Answer
    → Worker
    → AgentHandle × Events × List CommitMemoryRequest
work fmt h now answer starting = (boot fmt h, [], [])
work fmt h now answer waiting = let r = receive h now h.tasks in (r.0, r.1, [])
work fmt h now answer (busy task) = finish fmt h now task (openrouter_chat answer)

unfoldable pub keep : Bool → List CommitMemoryRequest → List CommitMemoryRequest
keep has_memory_client requests = if has_memory_client then requests else []

unfoldable pub work_of :
    Format
    → AgentFactory
    → String
    → Stamps
    → Answer
    → Option AgentHandle
    → AgentFactory × Events × List CommitMemoryRequest
work_of fmt f agent_id now answer none = (f, [], [])
work_of fmt f agent_id now answer (some h) =
    let done = work fmt h now answer h.worker in
    (
      record f { agents = HashMap.insert agent_id done.0 f.agents },
      done.1,
      keep f.has_memory_client done.2,
    )

-- A step of the agent's worker in the registry; a killed one takes none.
unfoldable pub run_worker :
    Format
    → AgentFactory
    → String
    → Stamps
    → Answer
    → AgentFactory × Events × List CommitMemoryRequest
run_worker fmt f agent_id now answer =
    work_of fmt f agent_id now answer (HashMap.get agent_id f.agents)
