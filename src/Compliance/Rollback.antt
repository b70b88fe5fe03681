-- ===== src/Compliance/Rollback.antt =====
-- foundry/compliance_monitor.rs: when a test leads to a rollback, and to what.
use mathlib.Core.List.{reverse-append}
use pagi_digital_twin.Base.{
  ◌∙◌, ap, any, ◌≤◌, String, Bool, true, false, ◌≡◌, refl, List, [], ◌∷◌, ◌++◌, Option, none, some,
  if◌then◌else◌, unwrap_or, arith,
}
use pagi_digital_twin.Base.HashMap.{get-insert_self}
use pagi_digital_twin.Base.Float.{Float, F64}
use pagi_digital_twin.Host.{Host}
use pagi_digital_twin.Bus.{Events, Stamps}
use pagi_digital_twin.Immune.{
  GlobalImmuneResponse, untrusted, is_agent_manifest_trusted, handle_compliance_alert,
}
use pagi_digital_twin.Immune.Trust.{alerted_untrusted, local}
use pagi_digital_twin.Compliance.{
  ComplianceResult, ComplianceTestRecord, ComplianceMonitor, calculate_score, default_config,
  get_agent_history, count_recent_failures, Repo, find_good, fallback,
}
use pagi_digital_twin.Compliance.Monitor.{
  failed, Reply, rolled, has_passing, alert, trigger_rollback, roll_back_to, walked, opened, store,
  needs_rollback, record_of, rollback_manifest_hash,
}

get_agent_history-store :
    (m : ComplianceMonitor) (r : ComplianceTestRecord)
    → get_agent_history (store m r) r.agent_id ≡ get_agent_history m r.agent_id ++ r ∷ []
unfolding get_agent_history store
get_agent_history-store m r = rw get-insert_self

count_recent-store :
    (fl : Float) (m : ComplianceMonitor) (r : ComplianceTestRecord)
    → fl.lt r.score m.config.threshold ≡ true
    → 1 ≤ count_recent_failures fl (store m r) r.agent_id
unfolding count_recent_failures
count_recent-store fl m r low =
    rw (get_agent_history-store m r, reverse-append (get_agent_history m r.agent_id) (r ∷ []))
      (unfold store in ground (arith, low))

-- With the default configuration a rollback is tried exactly when the new test's score is below 70,
-- whatever the earlier tests.
pub needs_rollback_default :
    (fl : Float) (m : ComplianceMonitor) (agent_id mission : String) (c : ComplianceResult)
    (millis : String) (now : Stamps)
    → m.config ≡ default_config fl
    → needs_rollback fl
        (store m (record_of fl agent_id mission c millis now))
        agent_id
        (calculate_score fl c)
      ≡ fl.lt (calculate_score fl c) (fl.lit 70)
unfolding needs_rollback
needs_rollback_default fl m agent_id mission c millis now standard =
    unfold store default_config in
    ground (arith, count_recent-store fl m (record_of fl agent_id mission c millis now))

find_good_lem :
    (b : Bool) (c : String) (cs : List String)
    → find_good b (c ∷ cs) none ≡ some (if b then some c else none)
unfolding find_good
find_good_lem true c cs = refl
find_good_lem false c [] = refl
find_good_lem false c (d ∷ ds) = find_good_lem false d ds

-- A test of the agent ever reached the threshold.
abbrev pub ever_passed : Float → ComplianceMonitor → String → Bool
ever_passed fl m agent_id =
    any (λ r. fl.ge r.score m.config.threshold) (get_agent_history m agent_id)

-- The reply once the target is chosen.
abbrev pub checked_out : Repo → String → String → Reply
checked_out repo agent_id target = elim (repo.checkout agent_id target) [
  | none ↦ rolled target
  | some e ↦ failed e
]

-- The reply for a history of commits from `newest`, with HEAD's parent `parent`.
abbrev pub reply_from : Repo → String → (passed : Bool) → (newest parent : String) → Reply
reply_from repo agent_id true newest parent = checked_out repo agent_id newest
reply_from repo agent_id false newest parent = elim repo.walk_error [
  | none ↦ checked_out repo agent_id parent
  | some e ↦ failed e
]

find_good-none : (c : String) (cs : List String) → find_good false (c ∷ cs) none ≡ some none
find_good-none c cs = find_good_lem false c cs

find_good-failed : (e : String) (cs : List String) → find_good false cs (some e) ≡ none
unfolding find_good
find_good-failed e [] = refl
find_good-failed e (c ∷ cs) = find_good-failed e cs

find_good-passed :
    (c : String) (cs : List String) (e : Option String) → find_good true (c ∷ cs) e ≡ some (some c)
unfolding find_good
find_good-passed c cs e = refl

module _ (fl : Float) (host : Host) (repo : Repo) (m : ComplianceMonitor) (agent_id : String)
    (score : F64) (now : Stamps) where
  roll_back_to_lem :
      (t : String) (x : Option String)
      → (roll_back_to fl host repo m agent_id score now t x).2
        ≡ elim x [ none ↦ rolled t | some e ↦ failed e ]
  unfolding roll_back_to
  roll_back_to_lem t none = refl
  roll_back_to_lem t (some e) = refl

  walked_lem :
      (newest parent : String) (older : List String)
      → repo.head_parent ≡ some parent
      → (b : Bool) (e : Option String) → repo.walk_error ≡ e
      → (walked fl host repo m agent_id score now (find_good b (newest ∷ older) repo.walk_error)).2
        ≡ reply_from repo agent_id b newest parent
  unfolding walked roll_back_to alert rollback_manifest_hash
  walked_lem newest parent older head true e k =
      rw (find_good-passed newest older repo.walk_error)
        (roll_back_to_lem newest (repo.checkout agent_id newest))
  walked_lem newest parent older head false none k =
      rw (k, find_good-none newest older, head)
        (roll_back_to_lem parent (repo.checkout agent_id parent))
  walked_lem newest parent older head false (some e) k =
      rw (k, find_good-failed e (newest ∷ older)) refl

-- Where the walk can be set up, with a newest commit and a parent of HEAD: the target is the newest
-- commit itself if any test of the agent ever reached the threshold, whatever stops the walk after it; else, if nothing stops the
-- walk, the parent of HEAD. The reply is the error that met the walk or the check-out, if any, and
-- else the target.
pub trigger_rollback-target :
    (fl : Float) (host : Host) (repo : Repo) (m : ComplianceMonitor) (agent_id : String)
    (score : F64) (now : Stamps) (newest parent : String) (older : List String)
    → repo.opens ≡ none
    → repo.commits ≡ newest ∷ older
    → repo.head_parent ≡ some parent
    → (trigger_rollback fl host repo m agent_id score now).2
      ≡ reply_from repo agent_id (ever_passed fl m agent_id) newest parent
unfolding trigger_rollback has_passing
trigger_rollback-target fl host repo m agent_id score now newest parent older o w head =
    let passed = ever_passed fl m agent_id in
    let opened' = ap (λ x. (opened fl host repo m agent_id score now x).2) o in
    let walks =
      ap (λ l. (walked fl host repo m agent_id score now (find_good passed l repo.walk_error)).2)
        w in
    opened'
    ∙ walks
    ∙ walked_lem fl host repo m agent_id score now newest parent older head passed repo.walk_error
        refl

-- After a rollback that worked, with an immune system set, the agent is untrusted.
pub trigger_rollback_untrusted :
    (fl : Float) (host : Host) (repo : Repo) (m : ComplianceMonitor) (agent_id : String)
    (score : F64) (now : Stamps) (g : GlobalImmuneResponse) (t : String)
    → m.immune_response ≡ some g
    → (trigger_rollback fl host repo m agent_id score now).2 ≡ rolled t
    → (g' : GlobalImmuneResponse) × ((trigger_rollback fl host repo m agent_id score
          now).0.immune_response
        ≡ some g')
      × (is_agent_manifest_trusted g' agent_id ≡ untrusted)
unfolding trigger_rollback alert
trigger_rollback_untrusted fl host repo m agent_id score now g t e h = by_open repo.opens h
  where
    Goal : ComplianceMonitor × Events × Reply → Type 0
    Goal out =
        (g' : GlobalImmuneResponse) × (out.0.immune_response ≡ some g')
        × (is_agent_manifest_trusted g' agent_id ≡ untrusted)

    by_alert :
        (target : String) (o : Option GlobalImmuneResponse)
        → o ≡ some g
        → Goal (
            let (m', events) = alert fl host repo m o agent_id score now in
            (m', events, rolled target))
    by_alert target none k = cc
    by_alert target (some g₀) k =
        let hash = rollback_manifest_hash fl host repo m agent_id in
        (
          (handle_compliance_alert host g₀ agent_id hash score m.node_id now).0,
          refl,
          alerted_untrusted host g₀ (local agent_id hash score m.node_id now),
        )

    by_target :
        (target : String) (x : Option String)
        → (roll_back_to fl host repo m agent_id score now target x).2 ≡ rolled t
        → Goal (roll_back_to fl host repo m agent_id score now target x)
    by_target target (some err) k = cc
    by_target target none k = by_alert target m.immune_response e

    by_walk :
        (w : Option (Option String))
        → (walked fl host repo m agent_id score now w).2 ≡ rolled t
        → Goal (walked fl host repo m agent_id score now w)
    by_walk none k = cc
    by_walk (some found) k =
        by_target (unwrap_or found (fallback repo))
          (repo.checkout agent_id (unwrap_or found (fallback repo))) k

    by_open :
        (o : Option String)
        → (opened fl host repo m agent_id score now o).2 ≡ rolled t
        → Goal (opened fl host repo m agent_id score now o)
    by_open (some err) k = cc
    by_open none k = by_walk (find_good (has_passing fl m agent_id) repo.commits repo.walk_error) k
