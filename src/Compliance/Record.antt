-- ===== src/Compliance/Record.antt =====
-- foundry/compliance_monitor.rs: what `record_test` leaves in the histories, on every branch.
use pagi_digital_twin.Base.{
  String, Bool, true, false, ◌≡◌, refl, ap, ◌∙◌, List, [], ◌∷◌, ◌++◌, Option, none, some, any, ◌==◌,
  if◌then◌else◌, arith, Bool-cases, inl, inr, eq_refl,
}
use pagi_digital_twin.Base.HashMap
use pagi_digital_twin.Base.HashMap.{HashMap, get-insert, get-insert_self}
use pagi_digital_twin.Base.Float.{Float, F64}
use pagi_digital_twin.Host.{Host, ◌<>◌}
use pagi_digital_twin.Bus.{Events, Stamps}
use pagi_digital_twin.Immune.{GlobalImmuneResponse}
use pagi_digital_twin.Compliance.{
  ComplianceResult, ComplianceTestRecord, ComplianceMonitor, get_agent_history, Repo, records_of,
}
use pagi_digital_twin.Compliance.Monitor.{
  Reply, rolled, unneeded, failed, trigger_rollback, roll_back_to, walked, opened, store, mark,
  mark_rolled_back, finish, record_test, needs_rollback, record_of, alert,
}

abbrev pub is_rolled : Reply → Bool
is_rolled (rolled commit_hash) = true
is_rolled _ = false

-- Whether a test with the identifier is in the history.
abbrev pub has_test : String → List ComplianceTestRecord → Bool
has_test test_id rs = any (λ r. r.test_id == test_id) rs

mark_rolled_back-append :
    (r : ComplianceTestRecord) (rs : List ComplianceTestRecord)
    → has_test r.test_id rs ≡ false
    → mark_rolled_back r.test_id (rs ++ r ∷ []) ≡ rs ++ record r { rolled_back = true } ∷ []
unfolding mark_rolled_back
mark_rolled_back-append r [] h = simp eq_refl
mark_rolled_back-append r (x ∷ rs) h = elim (Bool-cases (x.test_id == r.test_id)) [
  | inl e ↦ ground (arith, e, h)
  | inr e ↦ rw (e, if◌then◌else◌) (ap (◌∷◌ x) (mark_rolled_back-append r rs (ground (arith, e, h))))
]

get_agent_history-store :
    (m : ComplianceMonitor) (r : ComplianceTestRecord) (j : String)
    → get_agent_history (store m r) j ≡ (
        if r.agent_id == j then get_agent_history m r.agent_id ++ r ∷ [] else get_agent_history m j)
unfolding get_agent_history store
get_agent_history-store m r j = rw get-insert (ground arith)

-- A rollback, whatever becomes of it, leaves the histories alone.
module _ (fl : Float) (host : Host) (repo : Repo) (agent_id : String) (score : F64)
    (now : Stamps) where
  alert-test_history :
      (m : ComplianceMonitor) (o : Option GlobalImmuneResponse)
      → (alert fl host repo m o agent_id score now).0.test_history ≡ m.test_history
  unfolding alert
  alert-test_history m none = refl
  alert-test_history m (some g) = refl

  trigger_rollback-test_history :
      (m : ComplianceMonitor)
      → (trigger_rollback fl host repo m agent_id score now).0.test_history ≡ m.test_history
  unfolding trigger_rollback
  trigger_rollback-test_history m = by_open repo.opens
    where
      by_target :
          (target : String) (x : Option String)
          → (roll_back_to fl host repo m agent_id score now target x).0.test_history
            ≡ m.test_history
      by_target target (some e) = refl
      by_target target none = alert-test_history m m.immune_response

      by_walk :
          (w : Option (Option String))
          → (walked fl host repo m agent_id score now w).0.test_history ≡ m.test_history
      by_walk none = refl
      by_walk (some found) = by_target _ _

      by_open :
          (o : Option String)
          → (opened fl host repo m agent_id score now o).0.test_history ≡ m.test_history
      by_open (some e) = refl
      by_open none = by_walk _

same_history :
    (m n : ComplianceMonitor) (j : String)
    → m.test_history ≡ n.test_history
    → get_agent_history m j ≡ get_agent_history n j
unfolding get_agent_history
same_history m n j e = ap (λ h. records_of (HashMap.get j h)) e

-- A stored record that is not marked.
stored_unmarked :
    (m : ComplianceMonitor) (r : ComplianceTestRecord) (j : String)
    → r.rolled_back ≡ false
    → get_agent_history (store m r) j ≡ (
        if r.agent_id == j
        then get_agent_history m r.agent_id ++ record r { rolled_back = false } ∷ []
        else get_agent_history m j)
stored_unmarked m r j e =
    get_agent_history-store m r j
    ∙ ap
        (λ b.
          if r.agent_id == j
          then get_agent_history m r.agent_id ++ record r { rolled_back = b } ∷ []
          else get_agent_history m j)
        e

marked :
    (m m' : ComplianceMonitor) (r : ComplianceTestRecord) (j : String)
    → m'.test_history ≡ (store m r).test_history
    → has_test r.test_id (get_agent_history m r.agent_id) ≡ false
    → get_agent_history (mark m' r.agent_id r.test_id (HashMap.get r.agent_id m'.test_history)) j
      ≡ (if r.agent_id == j
          then get_agent_history m r.agent_id ++ record r { rolled_back = true } ∷ []
          else get_agent_history m j)
unfolding get_agent_history mark store
marked m m' r j kept new = rw stored (
    rw get-insert (elim (Bool-cases (r.agent_id == j)) [
      | inl e ↦
          rw (e, if◌then◌else◌) (mark_rolled_back-append r (get_agent_history m r.agent_id) new)
      | inr e ↦
          rw (e, if◌then◌else◌)
            (same_history m' (store m r) j kept
              ∙ get_agent_history-store m r j
              ∙ rw (e, if◌then◌else◌) refl)
    ]))
  where
    stored :
        HashMap.get r.agent_id m'.test_history ≡ some (get_agent_history m r.agent_id ++ r ∷ [])
    stored = ap (HashMap.get r.agent_id) kept ∙ get-insert_self _ _ _

-- The histories after a rollback that was tried: the record of the test is marked if it worked.
finish-get_agent_history :
    (m m' : ComplianceMonitor) (r : ComplianceTestRecord) (events : Events) (reply : Reply)
    (j : String)
    → m'.test_history ≡ (store m r).test_history
    → has_test r.test_id (get_agent_history m r.agent_id) ≡ false
    → r.rolled_back ≡ false
    → let (m'', events', reply') = finish r.agent_id r.test_id (m', events, reply) in
      get_agent_history m'' j ≡ (
        if r.agent_id == j
        then get_agent_history m r.agent_id ++ record r { rolled_back = is_rolled reply' } ∷ []
        else get_agent_history m j)
unfolding finish
finish-get_agent_history m m' r events (rolled t) j kept new unmarked = marked m m' r j kept new
finish-get_agent_history m m' r events (failed e) j kept new unmarked =
    same_history m' (store m r) j kept ∙ stored_unmarked m r j unmarked
finish-get_agent_history m m' r events unneeded j kept new unmarked =
    same_history m' (store m r) j kept ∙ stored_unmarked m r j unmarked

-- A test with a fresh identifier is appended to its agent's history on every branch, and marked as
-- rolled back exactly if the reply names a commit; no other record and no other agent changes.
pub record_test-get_agent_history :
    (fl : Float) (host : Host) (repo : Repo) (m : ComplianceMonitor) (agent_id mission : String)
    (c : ComplianceResult) (millis : String) (now later : Stamps) (j : String)
    → has_test ("test_" <> millis) (get_agent_history m agent_id) ≡ false
    → let (m', events, reply) = record_test fl host repo m agent_id mission c millis now later in
      get_agent_history m' j ≡ (
        if agent_id == j
        then get_agent_history m agent_id
          ++ record (record_of fl agent_id mission c millis now) { rolled_back = is_rolled reply }
            ∷ []
        else get_agent_history m j)
unfolding record_test
record_test-get_agent_history fl host repo m agent_id mission c millis now later j new =
    elim (Bool-cases (needs_rollback fl (store m r) agent_id r.score)) [
      | inl e ↦
          rw (e, if◌then◌else◌)
            (finish-get_agent_history m tried.0 r tried.1 tried.2 j
              (trigger_rollback-test_history fl host repo agent_id r.score later (store m r)) new
              refl)
      | inr e ↦ rw (e, if◌then◌else◌) (stored_unmarked m r j refl)
    ]
  where
    r : ComplianceTestRecord
    r = record_of fl agent_id mission c millis now

    tried : ComplianceMonitor × Events × Reply
    tried = trigger_rollback fl host repo (store m r) agent_id r.score later
