-- ===== src/AgentFactory/Quota.antt =====
-- agents/factory.rs: the quota, and what holds of every agent on file.
use pagi_digital_twin.Base.Results.{Result, err, ok}
use pagi_digital_twin.Base.{
  ℕ, ◌≤◌, ◌<◌, String, Bool, true, List, [], ◌∷◌, length, Option, none, some, ◌≡◌, refl, ap, ◌⊎◌,
  if◌then◌else◌, arith, Bool-cases, inl, inr, is_empty, eq_iff, is_some, length-append, ◌==◌, leb,
  subst,
}
use pagi_digital_twin.Base.HashMap
use pagi_digital_twin.Base.HashMap.{HashMap, get-insert, get-remove, length-insert, length-remove}
use pagi_digital_twin.Base.Text.{trim}
use pagi_digital_twin.Bus.{Stamps}
use pagi_digital_twin.AgentFactory.{
  Worker, starting, waiting, busy, AgentHandle, AgentFactory, new, Spawning, handle_of, admit,
  spawn_agent, send_task, post_to, post_task, capacity, kill_agent,
}
use pagi_digital_twin.AgentFactory.WorkerLoop.{
  Format, Answer, push_log, boot, receive, finish, work, work_of, run_worker, openrouter_chat,
}
use pagi_digital_twin.AgentFactory.Calls.{Call, spawns, posts, kills, works, step, run}

-- The handle stands under its own identifier, says "idle", and its channel is within its capacity.
abbrev pub IsSound : String → AgentHandle → Type 0
IsSound agent_id h =
    (h.info.agent_id ≡ agent_id) × (h.info.status ≡ "idle") × (length h.tasks ≤ capacity)

pub record Inv (f : AgentFactory) : Type 0 where
  pub quota : length f.agents ≤ f.max_agents
  pub sound :
      (agent_id : String) (h : AgentHandle)
      → HashMap.get agent_id f.agents ≡ some h
      → IsSound agent_id h

-- A handle is put on file, new under the quota or in place of one.
insert-Inv :
    (f : AgentFactory) (agent_id : String) (h : AgentHandle)
    → Inv f
    → IsSound agent_id h
    → (HashMap.contains_key agent_id f.agents ≡ true) ⊎ (length f.agents < f.max_agents)
    → Inv (record f { agents = HashMap.insert agent_id h f.agents })
insert-Inv f agent_id h inv hs room = record {
  quota = ground (arith, inv.quota, length-insert agent_id h f.agents, room);
  sound = λ j g e. elim (Bool-cases (agent_id == j)) [
    | inl b ↦
        subst (λ x. IsSound x g) ((eq_iff agent_id j).0 b)
          (subst (IsSound agent_id) {x = h} {y = g}
            (ground (arith, get-insert agent_id j h f.agents, b, e)) hs)
    | inr b ↦ inv.sound j g (ground (arith, get-insert agent_id j h f.agents, b, e))
  ];
}

remove-Inv :
    (f : AgentFactory) (agent_id : String)
    → Inv f
    → Inv (record f { agents = HashMap.remove agent_id f.agents })
remove-Inv f agent_id inv = record {
  quota = omega (arith, inv.quota, (length-remove agent_id f.agents).0);
  sound = λ j g e. inv.sound j g (ground (arith, get-remove agent_id j f.agents, e));
}

admit-Inv :
    (f : AgentFactory) (env : Spawning) (name mission : String) (permissions : List String)
    (prompt : String)
    → Inv f
    → Inv (admit f env name mission permissions prompt).1
unfolding admit handle_of
admit-Inv f env name mission permissions prompt inv =
    elim (Bool-cases (leb f.max_agents (length f.agents))) [
      | inl d ↦ rw (d, if◌then◌else◌) inv
      | inr d ↦
          rw (d, if◌then◌else◌)
            (insert-Inv f env.agent_id (handle_of env name mission permissions prompt) inv
              (refl, refl, omega arith) (inr (ground (arith, d))))
    ]

spawn_agent-Inv :
    (f : AgentFactory) (env : Spawning) (name mission : String) (permissions : List String)
    (prompt : String)
    → Inv f
    → Inv (spawn_agent f env name mission permissions prompt).1
unfolding spawn_agent
spawn_agent-Inv f env name mission permissions prompt inv =
    elim (Bool-cases (is_empty (trim name))) [
      | inl b ↦ rw (b, if◌then◌else◌) inv
      | inr b ↦ elim (Bool-cases (is_empty (trim mission))) [
        | inl c ↦ rw (b, c, if◌then◌else◌) inv
        | inr c ↦
            rw (b, c, if◌then◌else◌)
              (admit-Inv f env (trim name) (trim mission) permissions prompt inv)
      ]
    ]

send_task-IsSound :
    (agent_id : String) (h : AgentHandle) (task : String)
    → IsSound agent_id h
    → IsSound agent_id (send_task h task).1
unfolding send_task
send_task-IsSound agent_id h task hs = ground (arith, hs, length-append h.tasks (task ∷ []))

post_to-Inv :
    (f : AgentFactory) (agent_id task : String) (o : Option AgentHandle)
    → HashMap.get agent_id f.agents ≡ o
    → Inv f
    → Inv (post_to f agent_id task o).1
unfolding post_to
post_to-Inv f agent_id task none e inv = inv
post_to-Inv f agent_id task (some h) e inv =
    insert-Inv f agent_id (send_task h task).1 inv
      (send_task-IsSound agent_id h task (inv.sound agent_id h e)) (inl (ap is_some e))

receive-IsSound :
    (agent_id : String) (h : AgentHandle) (now : Stamps) (tasks : List String)
    → IsSound agent_id h
    → length tasks ≤ capacity
    → IsSound agent_id (receive h now tasks).0
unfolding receive push_log
receive-IsSound agent_id h now [] hs l = hs
receive-IsSound agent_id h now (t ∷ ts) hs l = (hs.0, hs.1, omega (arith, l))

finish-IsSound :
    (fmt : Format) (agent_id : String) (h : AgentHandle) (now : Stamps) (task : String)
    (r : Result String)
    → IsSound agent_id h
    → IsSound agent_id (finish fmt h now task r).0
unfolding finish push_log
finish-IsSound fmt agent_id h now task (ok raw) hs = hs
finish-IsSound fmt agent_id h now task (err e) hs = hs

work-IsSound :
    (fmt : Format) (agent_id : String) (h : AgentHandle) (now : Stamps) (answer : Answer)
    (w : Worker)
    → IsSound agent_id h
    → IsSound agent_id (work fmt h now answer w).0
unfolding work boot
work-IsSound fmt agent_id h now answer starting hs = hs
work-IsSound fmt agent_id h now answer waiting hs = receive-IsSound agent_id h now h.tasks hs hs.2
work-IsSound fmt agent_id h now answer (busy task) hs =
    finish-IsSound fmt agent_id h now task (openrouter_chat answer) hs

work_of-Inv :
    (fmt : Format) (f : AgentFactory) (agent_id : String) (now : Stamps) (answer : Answer)
    (o : Option AgentHandle)
    → HashMap.get agent_id f.agents ≡ o
    → Inv f
    → Inv (work_of fmt f agent_id now answer o).0
unfolding work_of
work_of-Inv fmt f agent_id now answer none e inv = inv
work_of-Inv fmt f agent_id now answer (some h) e inv =
    insert-Inv f agent_id (work fmt h now answer h.worker).0 inv
      (work-IsSound fmt agent_id h now answer h.worker (inv.sound agent_id h e))
      (inl (ap is_some e))

post_task-Inv :
    (f : AgentFactory) (agent_id task : String) → Inv f → Inv (post_task f agent_id task).1
unfolding post_task
post_task-Inv f agent_id task inv = elim (Bool-cases (is_empty (trim task))) [
  | inl b ↦ rw (b, if◌then◌else◌) inv
  | inr b ↦
      rw (b, if◌then◌else◌)
        (post_to-Inv f agent_id (trim task) (HashMap.get agent_id f.agents) refl inv)
]

kill_agent-Inv : (f : AgentFactory) (agent_id : String) → Inv f → Inv (kill_agent f agent_id).1
unfolding kill_agent
kill_agent-Inv f agent_id inv = elim (Bool-cases (HashMap.contains_key agent_id f.agents)) [
  | inl b ↦ rw (b, if◌then◌else◌) (remove-Inv f agent_id inv)
  | inr b ↦ rw (b, if◌then◌else◌) inv
]

step-Inv : (fmt : Format) (f : AgentFactory) (x : Call) → Inv f → Inv (step fmt f x)
unfolding run_worker
step-Inv fmt f (spawns env name mission permissions prompt) inv =
    spawn_agent-Inv f env name mission permissions prompt inv
step-Inv fmt f (posts agent_id task) inv = post_task-Inv f agent_id task inv
step-Inv fmt f (kills agent_id) inv = kill_agent-Inv f agent_id inv
step-Inv fmt f (works agent_id now answer) inv =
    work_of-Inv fmt f agent_id now answer (HashMap.get agent_id f.agents) refl inv

run-Inv : (fmt : Format) (f : AgentFactory) (xs : List Call) → Inv f → Inv (run fmt f xs)
run-Inv fmt f [] inv = inv
run-Inv fmt f (x ∷ xs) inv = run-Inv fmt (step fmt f x) xs (step-Inv fmt f x inv)

-- Whatever the calls, in whatever order, with whatever identifiers and replies of the model: a new
-- factory never has more agents than its quota, and every agent on file has its own identifier,
-- reports the status "idle" (also while it works), and has at most 32 tasks waiting.
pub run_within_quota :
    (fmt : Format) (max_agents : ℕ) (has_memory_client : Bool) (xs : List Call)
    → Inv (run fmt (new max_agents has_memory_client) xs)
unfolding new HashMap.get
run_within_quota fmt max_agents has_memory_client xs =
    run-Inv fmt (new max_agents has_memory_client) xs
      (record { quota = omega arith; sound = λ j g e. cc })
