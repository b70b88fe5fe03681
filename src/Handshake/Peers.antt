-- ===== src/Handshake/Peers.antt =====
-- network/handshake.rs: the list of peers. A peer becomes verified by a completed handshake only.
use pagi_digital_twin.Base.{
  take, length, sym, ltb, String, Bool, true, false, not, ◌≡◌, ◌≢◌, refl, Option, none, some, arith,
  ◌==◌, if◌then◌else◌, eq_iff, ◌⊎◌, inl, inr, Bool-cases,
}
use pagi_digital_twin.Base.HashMap
use pagi_digital_twin.Base.HashMap.{HashMap, get-insert, get-insert_self}
use pagi_digital_twin.Host.{Host, Read, content, failed}
use pagi_digital_twin.Handshake.{
  compute_manifest_hash, validate_nonce_timestamp, GlobalImmuneResponse, Status, ok,
  HandshakeRequest, HandshakeChallenge, HandshakeResponse, HandshakeResult, PendingChallenge,
  PeerStatus, verified, pending, PeerNode, Service, Env, Outcome, compute_alignment_token,
  remote_address, quarantine_check,
}
use pagi_digital_twin.Handshake.Handlers.{
  mismatch, issue, check_manifest, admit, initiate_handshake, taken, complete_handshake, receive,
  check_challenge, check_signature, check_token, succeed, verified_peer, PropagateQuarantineRequest,
  propagate, propagate_quarantine,
}
use pagi_digital_twin.Handshake.Complete.{accepted}

-- The node's peer after a completed handshake.
abbrev pub status_of : Option PeerNode → Option PeerStatus
status_of none = none
status_of (some p) = some p.status

-- What a reply may do to the peers and the events: a positive one verifies the node and says so, any
-- other leaves the peers alone.
abbrev pub Settles : Service → HandshakeResponse → Outcome HandshakeResult → Type 0
Settles s req out =
    ((out.0 ≡ ok (accepted s))
      × (status_of (HashMap.get req.node_id out.1.verified_peers) ≡ some verified)
      × ((j : String)
          → j ≢ req.node_id
          → HashMap.get j out.1.verified_peers ≡ HashMap.get j s.verified_peers))
    ⊎ ((out.0 ≢ ok (accepted s)) × (out.1.verified_peers ≡ s.verified_peers))

module _ (host : Host) (s : Service) (req : HandshakeResponse) (env : Env) where
  succeed-Settles : (c : PendingChallenge) → Settles s req (succeed (taken s req.node_id) req c env)
  unfolding succeed
  succeed-Settles c = inl (
    refl,
    rw get-insert_self (by_peer (HashMap.get req.node_id s.verified_peers)),
    λ j apart. rw get-insert (ground (arith, eq_iff req.node_id j)),
  )
    where
      by_peer : (o : Option PeerNode) → status_of (some (verified_peer req c env o)) ≡ some verified
      by_peer none = refl
      by_peer (some p) = refl

  branch-Settles :
      (b : Bool) (x y : Outcome HandshakeResult)
      → Settles s req x
      → Settles s req y
      → Settles s req (if b then x else y)
  branch-Settles true x y p q = p
  branch-Settles false x y p q = q

  token-Settles :
      (c : PendingChallenge) (r : Read)
      → Settles s req (check_token (taken s req.node_id) req c env r)
  unfolding check_token
  token-Settles c (failed e) = inr (λ h. cc, refl)
  token-Settles c (content t) =
      branch-Settles (req.alignment_token == t) _ _ (succeed-Settles c) (inr (λ h. cc, refl))

  signature-Settles :
      (c : PendingChallenge) → Settles s req (check_signature host (taken s req.node_id) req c env)
  unfolding check_signature
  signature-Settles c = branch-Settles (ltb (length req.public_key) 32) _ _ (inr (λ h. cc, refl)) (
      branch-Settles (not (host.valid_key (take 32 req.public_key))) _ _ (inr (λ h. cc, refl)) (
        branch-Settles (ltb (length req.signed_nonce) 64) _ _ (inr (λ h. cc, refl)) (
          branch-Settles (not (host.valid_signature (take 64 req.signed_nonce))) _ _
            (inr (λ h. cc, refl))
            (branch-Settles
              (host.verify (take 32 req.public_key) c.nonce (take 64 req.signed_nonce)) _ _
              (token-Settles c (compute_alignment_token host (taken s req.node_id)))
              (inr (λ h. cc, refl))))))

  challenge-Settles :
      (o : Option PendingChallenge)
      → Settles s req (check_challenge host (taken s req.node_id) req env o)
  unfolding check_challenge
  challenge-Settles none = inr (λ h. cc, refl)
  challenge-Settles (some c) =
      branch-Settles (validate_nonce_timestamp env.secs c.timestamp) _ _ (signature-Settles c)
        (inr (λ h. cc, refl))

  receive-Settles : (q : Option Status) → Settles s req (receive host s req env q)
  unfolding receive
  receive-Settles (some r) = inr (λ h. cc, refl)
  receive-Settles none = challenge-Settles (HashMap.get req.node_id s.pending_challenges)

  -- Either the reply is positive, the node is verified and every other peer is as before, or no
  -- peer at all has changed: no refusal and no panic touches the list of peers.
  pub complete_handshake-Settles : Settles s req (complete_handshake host s req env)
  unfolding complete_handshake
  complete_handshake-Settles =
      receive-Settles (quarantine_check s.quarantine_manager req.node_id (remote_address env))

-- Which peer an initiation may touch, and how: the node's own entry, set to pending.
abbrev pub Enlists : Service → HandshakeRequest → Outcome HandshakeChallenge → Type 0
Enlists s req out =
    (j : String)
    → (HashMap.get j out.1.verified_peers ≡ HashMap.get j s.verified_peers)
      ⊎ ((j ≡ req.node_id) × (status_of (HashMap.get j out.1.verified_peers) ≡ some pending))

module _ (host : Host) (s : Service) (req : HandshakeRequest) (env : Env) where
  issue-Enlists : (r : Read) → Enlists s req (issue s req env r)
  unfolding issue
  issue-Enlists (failed e) j = inl refl
  issue-Enlists (content t) j = elim (Bool-cases (req.node_id == j)) [
    | inl same ↦ inr (sym ((eq_iff req.node_id j).0 same), rw get-insert (rw same))
    | inr other ↦ inl (rw get-insert (rw other))
  ]

  manifest-Enlists : (r : Read) → Enlists s req (check_manifest host s req env r)
  unfolding check_manifest
  manifest-Enlists (failed e) j = inl refl
  manifest-Enlists (content expected) j = elim (Bool-cases (mismatch expected req.manifest_hash)) [
    | inl bad ↦ rw (bad, if◌then◌else◌) (inl refl)
    | inr good ↦ rw (good, if◌then◌else◌) (issue-Enlists (compute_alignment_token host s) j)
  ]

  admit-Enlists : (q : Option Status) → Enlists s req (admit host s req env q)
  unfolding admit
  admit-Enlists (some r) j = inl refl
  admit-Enlists none j = manifest-Enlists (compute_manifest_hash host s) j

  -- An initiation leaves every peer as it was, or sets the requesting node to pending.
  pub initiate_handshake-Enlists : Enlists s req (initiate_handshake host s req env)
  unfolding initiate_handshake
  initiate_handshake-Enlists =
      admit-Enlists (quarantine_check s.quarantine_manager req.node_id (remote_address env))

pub propagate_quarantine_peers :
    (host : Host) (s : Service) (p : PropagateQuarantineRequest) (env : Env)
    → (propagate_quarantine host s p env).1.verified_peers ≡ s.verified_peers
unfolding propagate_quarantine
propagate_quarantine_peers host s p env = by_immune s.immune_response
  where
    by_immune :
        (g : Option GlobalImmuneResponse)
        → (propagate host s p env g).1.verified_peers ≡ s.verified_peers
    by_immune none = refl
    by_immune (some g) = refl
