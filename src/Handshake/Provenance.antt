-- ===== src/Handshake/Provenance.antt =====
-- network/handshake.rs: where the challenge that a verified peer has answered came from.
use pagi_digital_twin.Base.{
  String, ◌≡◌, refl, sym, ◌∙◌, List, [], ◌∷◌, Option, none, some, arith, ◌⊎◌, inl, inr, Bool-cases,
  eq_iff, ◌==◌, if◌then◌else◌, ap,
}
use pagi_digital_twin.Base.HashMap
use pagi_digital_twin.Base.HashMap.{HashMap, get-insert, get-remove}
use pagi_digital_twin.Host.{Host, Read, content, failed}
use pagi_digital_twin.Handshake.{
  Status, HandshakeRequest, PendingChallenge, Service, Env, remote_address, quarantine_check,
  compute_alignment_token, compute_manifest_hash,
}
use pagi_digital_twin.Handshake.Handlers.{
  initiate_handshake, complete_handshake, issue, mismatch, check_manifest, admit, receive,
  propagate, propagate_quarantine,
}
use pagi_digital_twin.Immune.{GlobalImmuneResponse}
use pagi_digital_twin.Handshake.Complete.{Accepts, complete_handshake_takes}
use pagi_digital_twin.Handshake.History.{
  AdmitsNow, Call, initiates, completes, propagates, manages, step, run, Admitted, IsVerified,
  run-IsVerified,
}

-- The call is an initiation of the node, at the challenge's time and with its nonce.
abbrev pub InvitesNow : String → PendingChallenge → Call → Type 0
InvitesNow j c (initiates req env) =
    (j ≡ req.node_id) × (c.nonce ≡ env.fresh_nonce) × (c.timestamp ≡ env.secs)
InvitesNow j c (completes req env) = ⊥
InvitesNow j c (propagates req env) = ⊥
InvitesNow j c (manages q) = ⊥

-- Some call of the past is; the latest call comes first.
abbrev pub Invited : String → PendingChallenge → List Call → Type 0
Invited j c [] = ⊥
Invited j c (x ∷ past) = InvitesNow j c x ⊎ Invited j c past

-- The call is an accepted response of the node, to a challenge that the past gave it.
abbrev pub ProvesNow : Host → String → List Call → Service → Call → Type 0
ProvesNow host j past s (initiates req env) = ⊥
ProvesNow host j past s (completes req env) =
    (c : PendingChallenge) × (j ≡ req.node_id) × Accepts host s req env c × Invited j c past
ProvesNow host j past s (propagates req env) = ⊥
ProvesNow host j past s (manages q) = ⊥

-- Some call from here on is.
abbrev pub Proved : Host → String → List Call → Service → List Call → Type 0
Proved host j past s [] = ⊥
Proved host j past s (x ∷ xs) =
    ProvesNow host j past s x ⊎ Proved host j (x ∷ past) (step host s x) xs

-- A challenge on file after the call was there before, or the call put it there.
abbrev FromHere : Service → Service → Call → Type 0
FromHere s s' x =
    (j : String) (c : PendingChallenge)
    → HashMap.get j s'.pending_challenges ≡ some c
    → (HashMap.get j s.pending_challenges ≡ some c) ⊎ InvitesNow j c x

module _ (host : Host) (s : Service) (req : HandshakeRequest) (env : Env) where
  issue-FromHere : (r : Read) → FromHere s (issue s req env r).1 (initiates req env)
  unfolding issue
  issue-FromHere (failed e) j c h = inl h
  issue-FromHere (content t) j c h = elim (Bool-cases (req.node_id == j)) [
    | inl same ↦ inr (
      sym ((eq_iff req.node_id j).0 same),
      ground (arith, rw (get-insert, same) at h),
      ground (arith, rw (get-insert, same) at h),
    )
    | inr other ↦ inl (rw (get-insert, other) at h)
  ]

  manifest-FromHere :
      (r : Read) → FromHere s (check_manifest host s req env r).1 (initiates req env)
  unfolding check_manifest
  manifest-FromHere (failed e) j c h = inl h
  manifest-FromHere (content expected) j c h =
      elim (Bool-cases (mismatch expected req.manifest_hash)) [
        | inl bad ↦ inl (rw (bad, if◌then◌else◌) at h)
        | inr good ↦
            issue-FromHere (compute_alignment_token host s) j c (rw (good, if◌then◌else◌) at h)
      ]

  admit-FromHere : (q : Option Status) → FromHere s (admit host s req env q).1 (initiates req env)
  unfolding admit
  admit-FromHere (some r) j c h = inl h
  admit-FromHere none j c h = manifest-FromHere (compute_manifest_hash host s) j c h

step-FromHere : (host : Host) (s : Service) (x : Call) → FromHere s (step host s x) x
unfolding initiate_handshake complete_handshake propagate_quarantine
step-FromHere host s (initiates req env) j c h =
    admit-FromHere host s req env
      (quarantine_check s.quarantine_manager req.node_id (remote_address env)) j c h
step-FromHere host s (completes req env) j c h =
    by_check (quarantine_check s.quarantine_manager req.node_id (remote_address env)) refl
  where
    left :
        (if req.node_id == j then none else HashMap.get j s.pending_challenges) ≡ some c
        → HashMap.get j s.pending_challenges ≡ some c
    left k = ground (arith, k)

    by_check :
        (q : Option Status)
        → quarantine_check s.quarantine_manager req.node_id (remote_address env) ≡ q
        → (HashMap.get j s.pending_challenges ≡ some c) ⊎ ⊥
    by_check (some r) e = inl (rw (step, e, receive) at h)
    by_check none e = inl (
        left (
          rw get-remove at
            (ap (HashMap.get j) (sym (complete_handshake_takes host s req env e)) ∙ h)))
step-FromHere host s (propagates req env) j c h = by_immune s.immune_response h
  where
    by_immune :
        (g : Option GlobalImmuneResponse)
        → HashMap.get j (propagate host s req env g).1.pending_challenges ≡ some c
        → (HashMap.get j s.pending_challenges ≡ some c) ⊎ ⊥
    by_immune none k = inl k
    by_immune (some g) k = inl k
step-FromHere host s (manages q) j c h = inl h

proved :
    (host : Host) (j : String) (xs past : List Call) (s : Service)
    → ((c : PendingChallenge) → HashMap.get j s.pending_challenges ≡ some c → Invited j c past)
    → Admitted host j s xs
    → Proved host j past s xs
proved host j [] past s backed a = a
proved host j (x ∷ xs) past s backed (inl now) = inl (here x now)
  where
    here : (x : Call) → AdmitsNow host j s x → ProvesNow host j past s x
    here (completes req env) (c, e, v) = (c, e, v, backed c (rw e v.challenged))
    here (initiates req env) a = absurd a
    here (propagates req env) a = absurd a
    here (manages q) a = absurd a
proved host j (x ∷ xs) past s backed (inr after) =
    inr (proved host j xs (x ∷ past) (step host s x) still after)
  where
    still :
        (c : PendingChallenge)
        → HashMap.get j (step host s x).pending_challenges ≡ some c
        → Invited j c (x ∷ past)
    still c h = elim (step-FromHere host s x j c h) [
      | inl before ↦ inr (backed c before)
      | inr now ↦ inl now
    ]

-- From a service without challenges on file, and whatever the calls: a peer that is verified at the
-- end was so at the start, or it has answered, meeting every condition, a challenge that an earlier
-- initiation in its own name gave out, with that initiation's nonce and time.
pub run_provenance :
    (host : Host) (s : Service) (xs : List Call) (j : String)
    → s.pending_challenges ≡ []
    → IsVerified j (run host s xs)
    → IsVerified j s ⊎ Proved host j [] s xs
unfolding HashMap.get
run_provenance host s xs j empty v = elim (run-IsVerified host s xs j v) [
  | inl before ↦ inl before
  | inr a ↦ inr (proved host j xs [] s (λ c h. absurd (nothing c (rw empty at h))) a)
]
  where
    nothing : (c : PendingChallenge) → ◌≡◌ {A = Option PendingChallenge} none (some c) → ⊥
    nothing c e = cc
