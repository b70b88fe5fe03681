-- ===== src/Handshake/History.antt =====
-- network/handshake.rs: calls one after the other, while other parts of the node change the shared
-- quarantine list.
use pagi_digital_twin.Base.{
  eq_refl, ◌&&◌, any, subst, ◌+◌, ◌≤◌, String, Bool, true, false, ◌≡◌, ◌≢◌, sym, ◌∙◌, List, [], ◌∷◌,
  Option, some, arith, ◌⊎◌, inl, inr, Bool-cases, eq_iff, ◌==◌, length, take,
}
use pagi_digital_twin.Base.HashMap
use pagi_digital_twin.Base.HashMap.{any-values, HashMap}
use pagi_digital_twin.Host.{Host}
use pagi_digital_twin.Quarantine.{QuarantineManager}
use pagi_digital_twin.Handshake.{
  ok, HandshakeRequest, HandshakeChallenge, HandshakeResponse, PendingChallenge, PeerStatus,
  verified, pending, Service, Env, remote_address, get_verified_peers,
}
use pagi_digital_twin.Handshake.Handlers.{
  initiate_handshake, complete_handshake, PropagateQuarantineRequest, propagate_quarantine,
}
use pagi_digital_twin.Handshake.Unlisted.{quarantine_check_iff}
use pagi_digital_twin.Handshake.Complete.{Accepts, accepted, complete_handshake-ok_iff}
use pagi_digital_twin.Handshake.Initiate.{recorded, initiate_handshake-Issued}
use pagi_digital_twin.Handshake.Peers.{
  status_of, complete_handshake-Settles, initiate_handshake-Enlists, propagate_quarantine_peers,
}

pub data Call : Type 0 where
  initiates : HandshakeRequest → Env → Call
  completes : HandshakeResponse → Env → Call
  propagates : PropagateQuarantineRequest → Env → Call
  manages : Option QuarantineManager → Call

abbrev pub step : Host → Service → Call → Service
step host s (initiates req env) = (initiate_handshake host s req env).1
step host s (completes req env) = (complete_handshake host s req env).1
step host s (propagates req env) = (propagate_quarantine host s req env).1
step host s (manages q) = record s { quarantine_manager = q }

abbrev pub run : Host → Service → List Call → Service
run host s [] = s
run host s (x ∷ xs) = run host (step host s x) xs

-- This call is a completed handshake of node `j`.
abbrev pub AdmitsNow : Host → String → Service → Call → Type 0
AdmitsNow host j s (initiates req env) = ⊥
AdmitsNow host j s (completes req env) =
    (c : PendingChallenge) × (j ≡ req.node_id) × Accepts host s req env c
AdmitsNow host j s (propagates req env) = ⊥
AdmitsNow host j s (manages q) = ⊥

-- Some call of the history is.
abbrev pub Admitted : Host → String → Service → List Call → Type 0
Admitted host j s [] = ⊥
Admitted host j s (x ∷ xs) = AdmitsNow host j s x ⊎ Admitted host j (step host s x) xs

abbrev pub IsVerified : String → Service → Type 0
IsVerified j s = status_of (HashMap.get j s.verified_peers) ≡ some verified

step-IsVerified :
    (host : Host) (s : Service) (x : Call) (j : String)
    → IsVerified j (step host s x)
    → IsVerified j s ⊎ AdmitsNow host j s x
step-IsVerified host s (initiates req env) j v =
    elim (initiate_handshake-Enlists host s req env j) [
      | inl same ↦ inl (rw same at v)
      | inr (_, waiting) ↦ absurd (pending_is_not (sym waiting ∙ v))
    ]
  where
    pending_is_not : ◌≢◌ {A = Option PeerStatus} (some pending) (some verified)
    pending_is_not e = cc
step-IsVerified host s (completes req env) j v = elim (complete_handshake-Settles host s req env) [
  | inl (good, _, others) ↦ elim (Bool-cases (j == req.node_id)) [
    | inl same ↦
        let (c, a) = (complete_handshake-ok_iff host s req env).0 good in
        inr (c, (eq_iff j req.node_id).0 same, a)
    | inr apart ↦ inl (rw (others j (λ e. ground (arith, eq_iff j req.node_id))) at v)
  ]
  | inr (_, same) ↦ inl (rw same at v)
]
step-IsVerified host s (propagates req env) j v =
    inl (rw (propagate_quarantine_peers host s req env) at v)
step-IsVerified host s (manages q) j v = inl v

-- Whatever the calls, a peer that is verified at the end was verified at the start, or completed a
-- handshake that met every condition when it was made.
pub run-IsVerified :
    (host : Host) (s : Service) (xs : List Call) (j : String)
    → IsVerified j (run host s xs)
    → IsVerified j s ⊎ Admitted host j s xs
run-IsVerified host s [] j v = inl v
run-IsVerified host s (x ∷ xs) j v = elim (run-IsVerified host (step host s x) xs j v) [
  | inl at_start ↦ elim (step-IsVerified host s x j at_start) [
    | inl before ↦ inl before
    | inr here ↦ inr (inl here)
  ]
  | inr after ↦ inr (inr after)
]

abbrev pub is_pending : PeerStatus → Bool
is_pending pending = true
is_pending _ = false

-- A node that is given a challenge and returns, within 30 seconds and from the same address, its
-- signature of the nonce under a valid key and the token that it was given, is accepted and
-- verified.
pub complete_handshake-initiate_handshake :
    (host : Host) (s : Service) (req : HandshakeRequest) (env env' : Env) (ch : HandshakeChallenge)
    (res : HandshakeResponse)
    → (initiate_handshake host s req env).0 ≡ ok ch
    → res.node_id ≡ req.node_id
    → remote_address env' ≡ remote_address env
    → env.secs ≤ env'.secs
    → env'.secs ≤ env.secs + 30
    → 32 ≤ length res.public_key
    → host.valid_key (take 32 res.public_key) ≡ true
    → 64 ≤ length res.signed_nonce
    → host.valid_signature (take 64 res.signed_nonce) ≡ true
    → host.verify (take 32 res.public_key) ch.nonce (take 64 res.signed_nonce) ≡ true
    → res.alignment_token ≡ ch.alignment_token
    → let s' = (initiate_handshake host s req env).1 in
      ((complete_handshake host s' res env').0 ≡ ok (accepted s'))
      × IsVerified req.node_id (complete_handshake host s' res env').1
complete_handshake-initiate_handshake host s req env env' ch res given same here started in_time k
      kv g gv signed token =
    let s' = (initiate_handshake host s req env).1 in
    let i = initiate_handshake-Issued host s req env given in
    let good : (complete_handshake host s' res env').0 ≡ ok (accepted s') =
      (complete_handshake-ok_iff host s' res env').1 (
        recorded req env ch,
        record {
          not_listed =
              (quarantine_check_iff s'.quarantine_manager res.node_id (remote_address env')).0
                (rw (same, here) i.not_quarantined);
          challenged = rw same i.kept;
          started = started;
          in_time = in_time;
          key_sized = k;
          key_valid = kv;
          signature_sized = g;
          signature_valid = gv;
          signed = signed;
          aligned = rw token i.aligned;
        },
      ) in
    (
      good,
      elim (complete_handshake-Settles host s' res env') [
        | inl (_, v, _) ↦ subst (λ n. IsVerified n (complete_handshake host s' res env').1) same v
        | inr (bad, _) ↦ absurd (bad good)
      ],
    )

-- An answered initiation sends the node's own entry back to pending, also if it was verified, and
-- the entry is among those that `get_verified_peers` returns.
pub initiate_handshake_demotes :
    (host : Host) (s : Service) (req : HandshakeRequest) (env : Env) (ch : HandshakeChallenge)
    → (initiate_handshake host s req env).0 ≡ ok ch
    → let s' = (initiate_handshake host s req env).1 in
      (¬ IsVerified req.node_id s')
      × (any (λ p. p.node_id == req.node_id && is_pending p.status) (get_verified_peers s') ≡ true)
unfolding get_verified_peers
initiate_handshake_demotes host s req env ch h =
    let i = initiate_handshake-Issued host s req env h in
    (
      λ v. cc (i.listed, v),
      any-values (λ p. p.node_id == req.node_id && is_pending p.status) req.node_id _
          (initiate_handshake host s req env).1.verified_peers i.listed (simp eq_refl),
    )
