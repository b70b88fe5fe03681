-- ===== src/Immune/Trust.antt =====
-- network/immune_system.rs: who is trusted after a history of alerts.
use pagi_digital_twin.Base.{
  String, true, ◌||◌, ◌≡◌, ◌∙◌, ap, refl, List, [], ◌∷◌, Option, none, some, arith, ◌==◌, any,
  if◌then◌else◌, eq_iff, eq_refl,
}
use pagi_digital_twin.Base.HashMap
use pagi_digital_twin.Base.HashMap.{HashMap, get-insert}
use pagi_digital_twin.Base.Float.{F64}
use pagi_digital_twin.Host.{Host}
use pagi_digital_twin.Bus.{Stamps}
use pagi_digital_twin.Immune.{
  GlobalImmuneResponse, trusted, untrusted, new, final_manifest_hash, handle_compliance_alert,
  handle_peer_quarantine, is_manifest_trusted, is_agent_manifest_trusted, mapped_trust,
}

-- An alert of this node's monitor, or one that a peer sent.
pub data Alert : Type 0 where
  local : (agent_id manifest_hash : String) (score : F64) (node_id : String) (now : Stamps) → Alert
  peer : (manifest_hash agent_id quarantined_by : String) (score : F64) (now : Stamps) → Alert

abbrev pub agent_of : Alert → String
agent_of (local agent_id manifest_hash score node_id now) = agent_id
agent_of (peer manifest_hash agent_id by score now) = agent_id

abbrev pub hash_of : Host → Alert → String
hash_of host (local agent_id manifest_hash score node_id now) =
    final_manifest_hash host agent_id manifest_hash
hash_of host (peer manifest_hash agent_id by score now) = manifest_hash

abbrev pub step : Host → GlobalImmuneResponse → Alert → GlobalImmuneResponse
step host g (local agent_id manifest_hash score node_id now) =
    (handle_compliance_alert host g agent_id manifest_hash score node_id now).0
step host g (peer manifest_hash agent_id by score now) =
    (handle_peer_quarantine host g manifest_hash agent_id by score now).0

abbrev pub run : Host → GlobalImmuneResponse → List Alert → GlobalImmuneResponse
run host g [] = g
run host g (a ∷ as') = run host (step host g a) as'

-- Every manifest that an agent is mapped to is quarantined.
abbrev pub Mapped : GlobalImmuneResponse → Type 0
Mapped g =
    (a h : String)
    → HashMap.get a g.agent_manifest_map ≡ some h
    → HashMap.contains_key h g.quarantined_manifests ≡ true

-- What both kinds of alert do to the two maps, as the look-ups see it.
module _ (host : Host) (g : GlobalImmuneResponse) (x : Alert) where
  manifest-step :
      (h : String)
      → HashMap.contains_key h (step host g x).quarantined_manifests
        ≡ (hash_of host x == h || HashMap.contains_key h g.quarantined_manifests)
  unfolding handle_compliance_alert handle_peer_quarantine
  manifest-step h =
      elim x
        as (λ x.
          HashMap.contains_key h (step host g x).quarantined_manifests
          ≡ (hash_of host x == h || HashMap.contains_key h g.quarantined_manifests)) [
            | local agent_id manifest_hash score node_id now ↦ rw get-insert (ground arith)
            | peer manifest_hash agent_id by score now ↦ rw get-insert (ground arith)
          ]

  agent-step :
      (a : String)
      → HashMap.get a (step host g x).agent_manifest_map
        ≡ (if agent_of x == a then some (hash_of host x) else HashMap.get a g.agent_manifest_map)
  unfolding handle_compliance_alert handle_peer_quarantine
  agent-step a =
      elim x
        as (λ x. HashMap.get a (step host g x).agent_manifest_map ≡ (
          if agent_of x == a then some (hash_of host x) else HashMap.get a g.agent_manifest_map)) [
            | local agent_id manifest_hash score node_id now ↦
                get-insert agent_id a _ g.agent_manifest_map
            | peer manifest_hash agent_id by score now ↦
                get-insert agent_id a _ g.agent_manifest_map
          ]

  step-Mapped : Mapped g → Mapped (step host g x)
  step-Mapped v a h e =
      rw manifest-step (ground (arith, agent-step a, v a h, eq_iff (hash_of host x) h))

  step_trust :
      (h a : String)
      → Mapped g
      → (is_manifest_trusted (step host g x) h
          ≡ (if hash_of host x == h then untrusted else is_manifest_trusted g h))
        × (is_agent_manifest_trusted (step host g x) a
            ≡ (if agent_of x == a then untrusted else is_agent_manifest_trusted g a))
  unfolding is_manifest_trusted is_agent_manifest_trusted
  step_trust h a v = (
    rw manifest-step (ground arith),
    ap (mapped_trust (step host g x)) (agent-step a)
        ∙ by_map (HashMap.get a g.agent_manifest_map) refl,
  )
    where
      by_map :
          (o : Option String)
          → HashMap.get a g.agent_manifest_map ≡ o
          → mapped_trust (step host g x) (if agent_of x == a then some (hash_of host x) else o)
            ≡ (if agent_of x == a then untrusted else mapped_trust g o)
      by_map none e = ground (arith, manifest-step (hash_of host x), eq_refl (hash_of host x))
      by_map (some k) e = ground (
        arith,
        manifest-step (hash_of host x),
        eq_refl (hash_of host x),
        manifest-step k,
        v a k e,
      )

-- The agent that an alert names is untrusted right after it, whatever came before.
pub alerted_untrusted :
    (host : Host) (g : GlobalImmuneResponse) (x : Alert)
    → is_agent_manifest_trusted (step host g x) (agent_of x) ≡ untrusted
unfolding is_agent_manifest_trusted
alerted_untrusted host g x =
    ap (mapped_trust (step host g x)) (agent-step host g x (agent_of x))
    ∙ ground (
      arith,
      eq_refl (agent_of x),
      manifest-step host g x (hash_of host x),
      eq_refl (hash_of host x),
    )

-- The status is decided by the history alone.
module _ (host : Host) where
  run_trust :
      (g : GlobalImmuneResponse) (xs : List Alert) (h a : String)
      → Mapped g
      → (is_manifest_trusted (run host g xs) h
          ≡ (if any (λ x. hash_of host x == h) xs then untrusted else is_manifest_trusted g h))
        × (is_agent_manifest_trusted (run host g xs) a
            ≡ (if any (λ x. agent_of x == a) xs then untrusted else is_agent_manifest_trusted g a))
  run_trust g [] h a v = (refl, refl)
  run_trust g (x ∷ xs) h a v =
      let (m, n) = run_trust (step host g x) xs h a (step-Mapped host g x v) in
      let (m', n') = step_trust host g x h a v in
      (m ∙ rw m' (ground arith), n ∙ rw n' (ground arith))

  -- After any history of alerts, local or from peers, a manifest is untrusted exactly if some alert
  -- was filed under its hash, and an agent exactly if some alert named it; trust never comes back.
  pub run-new_trust :
      (xs : List Alert) (h a : String)
      → (is_manifest_trusted (run host new xs) h
          ≡ (if any (λ x. hash_of host x == h) xs then untrusted else trusted))
        × (is_agent_manifest_trusted (run host new xs) a
            ≡ (if any (λ x. agent_of x == a) xs then untrusted else trusted))
  unfolding new is_manifest_trusted is_agent_manifest_trusted HashMap.get
  run-new_trust xs h a = run_trust new xs h a (λ b k e. ground arith)
