-- ===== src/AgentFactory/Spawn.antt =====
-- agents/factory.rs: which spawns are admitted, and that a kill makes room for one.
use pagi_digital_twin.Base.Results.{Result, err, ok}
use pagi_digital_twin.Base.{
  ◌≢◌, none, eq_iff, ◌≤◌, ◌<◌, String, true, false, List, [], ◌∷◌, length, some, ◌≡◌, refl,
  if◌then◌else◌, arith, Bool-cases, inl, inr, is_empty, leb, ◌⊎◌,
}
use pagi_digital_twin.Base.HashMap
use pagi_digital_twin.Base.HashMap.{HashMap, get-insert, get-insert_self, length-remove}
use pagi_digital_twin.Base.Text.{trim}
use pagi_digital_twin.Bus.{Events, agent_handshake}
use pagi_digital_twin.AgentFactory.{
  ◌<>◌, AgentHandle, starting, AgentSpawnResult, AgentFactory, Spawning, handle_of, admit,
  spawn_agent, kill_agent,
}

-- What an admitted spawn needs and does: the new agent is on file with the trimmed texts, idle, its
-- worker not yet running, no task waiting, nothing reported and nothing logged.
pub record Spawned (f : AgentFactory) (env : Spawning) (name mission : String)
    (permissions : List String) (prompt : String) (agents : HashMap AgentHandle) (events : Events)
    : Type 0 where
  pub named : trim name ≢ ""
  pub tasked : trim mission ≢ ""
  pub room : length f.agents < f.max_agents
  pub filed :
      (h : AgentHandle) × (HashMap.get env.agent_id agents ≡ some h)
      × (h.info.agent_id ≡ env.agent_id)
      × (h.info.name ≡ trim name)
      × (h.info.mission ≡ trim mission)
      × (h.info.permissions ≡ permissions)
      × (h.info.status ≡ "idle")
      × (h.tasks ≡ [])
      × (h.worker ≡ starting)
      × (h.last_report ≡ none)
      × (h.logs ≡ [])
      × (h.prompt ≡ prompt)
  pub others :
      (agent_id : String)
      → agent_id ≢ env.agent_id
      → HashMap.get agent_id agents ≡ HashMap.get agent_id f.agents
  pub announced : events ≡ agent_handshake env.agent_id (trim name) (trim mission) (env.now 0) ∷ []

-- A text is blank or there is no room; nothing changes and nothing is announced.
pub record Refused (f : AgentFactory) (name mission : String)
    (out : Result AgentSpawnResult × AgentFactory × Events) : Type 0 where
  pub reason : (trim name ≡ "") ⊎ (trim mission ≡ "") ⊎ (f.max_agents ≤ length f.agents)
  pub answer : (e : String) × (out.0 ≡ err e)
  pub unchanged : out.1 ≡ f
  pub silent : out.2 ≡ []

not_blank : (t : String) → is_empty t ≡ false → t ≢ ""
not_blank t h e = cc (h, (eq_iff t "").1 e)

module _ (f : AgentFactory) (env : Spawning) (name mission : String) (permissions : List String)
    (prompt : String) where
  -- Every spawn is one of two: admitted, where name and mission are not blank and there is room under
  -- the quota, and then the new agent is on file, idle and without tasks, no other entry changes, and it
  -- is announced; or refused with an error, where one of these fails, and then nothing changes.
  pub spawn_agent-Spawned :
      let out = spawn_agent f env name mission permissions prompt in
      ((out.0 ≡ ok (record { agent_id = env.agent_id; status = "spawned" }))
        × Spawned f env name mission permissions prompt out.1.agents out.2)
      ⊎ Refused f name mission out
  unfolding spawn_agent admit handle_of
  spawn_agent-Spawned = elim (Bool-cases (is_empty (trim name))) [
    | inl b ↦
        rw (b, if◌then◌else◌)
          (inr (record {
            reason = inl ((eq_iff (trim name) "").0 b);
            answer = ("name must not be empty", refl);
            unchanged = refl;
            silent = refl;
          }))
    | inr b ↦ elim (Bool-cases (is_empty (trim mission))) [
      | inl c ↦
          rw (b, c, if◌then◌else◌)
            (inr (record {
              reason = inr (inl ((eq_iff (trim mission) "").0 c));
              answer = ("mission must not be empty", refl);
              unchanged = refl;
              silent = refl;
            }))
      | inr c ↦ elim (Bool-cases (leb f.max_agents (length f.agents))) [
        | inl d ↦
            rw (b, c, d, if◌then◌else◌)
              (inr (record {
                reason = inr (inr (ground (arith, d)));
                answer = (
                  "agent quota exceeded (max_agents="
                      <> (env.show f.max_agents <> "); refuse spawn"),
                  refl,
                );
                unchanged = refl;
                silent = refl;
              }))
        | inr d ↦
            rw (b, c, d, if◌then◌else◌)
              (inl (
                refl,
                record {
                  named = not_blank (trim name) b;
                  tasked = not_blank (trim mission) c;
                  room = ground (arith, d);
                  filed = (
                    handle_of env (trim name) (trim mission) permissions prompt,
                    get-insert_self env.agent_id _ f.agents,
                    refl,
                    refl,
                    refl,
                    refl,
                    refl,
                    refl,
                    refl,
                    refl,
                    refl,
                    refl,
                  );
                  others = λ j apart. rw get-insert (ground (arith, eq_iff env.agent_id j, apart));
                  announced = refl;
                },
              ))
      ]
    ]
  ]

-- A kill makes room: from a factory within its quota, once an agent on file is killed, a spawn with a
-- name and a mission that are not blank is admitted.
pub kill_agent-spawn_agent :
    (f : AgentFactory) (killed : String) (env : Spawning) (name mission : String)
    (permissions : List String) (prompt : String)
    → length f.agents ≤ f.max_agents
    → HashMap.contains_key killed f.agents ≡ true
    → is_empty (trim name) ≡ false
    → is_empty (trim mission) ≡ false
    → (spawn_agent (kill_agent f killed).1 env name mission permissions prompt).0
      ≡ ok (record { agent_id = env.agent_id; status = "spawned" })
unfolding spawn_agent admit kill_agent
kill_agent-spawn_agent f killed env name mission permissions prompt quota on_file n m =
    ground (arith, quota, on_file, n, m, (length-remove killed f.agents).1 on_file)
