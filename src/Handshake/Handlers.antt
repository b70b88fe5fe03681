-- ===== src/Handshake/Handlers.antt =====
-- network/handshake.rs: the three remote calls, stage by stage in the order of the source. A stage
-- takes what the earlier ones computed, and either answers or goes on to the next.
use pagi_digital_twin.Base.{
  String, Bool, true, not, ◌&&◌, [], ◌∷◌, Option, none, some, is_empty, ◌==◌, length, take, ltb,
  if◌then◌else◌,
}
use pagi_digital_twin.Base.HashMap
use pagi_digital_twin.Base.HashMap.{HashMap}
use pagi_digital_twin.Base.Float.{F64}
use pagi_digital_twin.Host.{Host, Read, content, failed, ◌<>◌}
use pagi_digital_twin.Bus.{peer_verified, compliance_alert}
use pagi_digital_twin.Immune.{GlobalImmuneResponse, handle_peer_quarantine}
use pagi_digital_twin.Handshake.{
  Status, permission_denied, internal, failed_precondition, deadline_exceeded, invalid_argument, ok,
  err, panicked, HandshakeRequest, HandshakeChallenge, HandshakeResponse, HandshakeResult,
  PendingChallenge, verified, pending, PeerNode, Service, Env, Outcome, compute_alignment_token,
  compute_manifest_hash, validate_nonce_timestamp, remote_address, quarantine_check, unauthorized,
}

-- Register the challenge and the peer as pending, and answer.
unfoldable pub issue : Service → HandshakeRequest → Env → Read → Outcome HandshakeChallenge
issue s req env (failed e) = (err (internal ("Failed to compute alignment token: " <> e)), s, [])
issue s req env (content token) = (
  ok (record { nonce = env.fresh_nonce; timestamp = env.secs; alignment_token = token }),
  record s {
    pending_challenges = HashMap.insert req.node_id challenge s.pending_challenges;
    verified_peers = HashMap.insert req.node_id peer s.verified_peers;
  },
  [],
)
  where
    challenge : PendingChallenge
    challenge = record {
      nonce = env.fresh_nonce;
      timestamp = env.secs;
      node_id = req.node_id;
      software_version = req.software_version;
      manifest_hash = req.manifest_hash;
    }

    peer : PeerNode
    peer = record {
      node_id = req.node_id;
      software_version = req.software_version;
      manifest_hash = req.manifest_hash;
      remote_address = remote_address env;
      status = pending;
      last_seen = env.now 0;
    }

-- Both hashes are present and differ.
abbrev pub mismatch : String → String → Bool
mismatch expected received =
    not (is_empty expected) && (not (is_empty received) && not (received == expected))

unfoldable pub check_manifest :
    Host → Service → HandshakeRequest → Env → Read → Outcome HandshakeChallenge
check_manifest host s req env (failed e) =
    (err (internal ("Failed to compute manifest hash: " <> e)), s, [])
check_manifest host s req env (content expected) =
    if mismatch expected req.manifest_hash
    then (
      err (permission_denied "Manifest hash mismatch"),
      s,
      unauthorized req.node_id "manifest_mismatch" env ∷ [],
    )
    else issue s req env (compute_alignment_token host s)

unfoldable pub admit :
    Host → Service → HandshakeRequest → Env → Option Status → Outcome HandshakeChallenge
admit host s req env (some refusal) = (err refusal, s, [])
admit host s req env none = check_manifest host s req env (compute_manifest_hash host s)

unfoldable pub initiate_handshake :
    Host → Service → HandshakeRequest → Env → Outcome HandshakeChallenge
unfolding issue check_manifest admit
initiate_handshake host s req env =
    admit host s req env (quarantine_check s.quarantine_manager req.node_id (remote_address env))

-- `peers.get_mut(..)`: the entry updated, or a new one.
abbrev pub verified_peer : HandshakeResponse → PendingChallenge → Env → Option PeerNode → PeerNode
verified_peer req c env (some p) = record p { status = verified; last_seen = env.now 0 }
verified_peer req c env none = record {
  node_id = req.node_id;
  software_version = c.software_version;
  manifest_hash = c.manifest_hash;
  remote_address = remote_address env;
  status = verified;
  last_seen = env.now 0;
}

unfoldable pub succeed :
    Service → HandshakeResponse → PendingChallenge → Env → Outcome HandshakeResult
succeed s req c env = (
  ok (record { success = true; message = "Handshake successful"; node_id = s.node_id }),
  record s {
    verified_peers =
        HashMap.insert req.node_id
          (verified_peer req c env (HashMap.get req.node_id s.verified_peers)) s.verified_peers;
  },
  peer_verified req.node_id c.software_version c.manifest_hash (remote_address env) (env.now 1)
      ∷ [],
)

unfoldable pub check_token :
    Service → HandshakeResponse → PendingChallenge → Env → Read → Outcome HandshakeResult
check_token s req c env (failed e) =
    (err (internal ("Failed to compute alignment token: " <> e)), s, [])
check_token s req c env (content expected) =
    if req.alignment_token == expected then succeed s req c env else (
      err (permission_denied "Alignment token mismatch"),
      s,
      unauthorized req.node_id "alignment_token_mismatch" env ∷ [],
    )

-- The slices `[..32]` and `[..64]` panic on a shorter text.
unfoldable pub check_signature :
    Host → Service → HandshakeResponse → PendingChallenge → Env → Outcome HandshakeResult
check_signature host s req c env =
    if ltb (length req.public_key) 32
    then (panicked, s, [])
    else if not (host.valid_key (take 32 req.public_key))
    then (err (invalid_argument "Invalid public key format"), s, [])
    else if ltb (length req.signed_nonce) 64
    then (panicked, s, [])
    else if not (host.valid_signature (take 64 req.signed_nonce))
    then (err (invalid_argument "Invalid signature format"), s, [])
    else if host.verify (take 32 req.public_key) c.nonce (take 64 req.signed_nonce)
    then check_token s req c env (compute_alignment_token host s)
    else (
      err (permission_denied "Signature verification failed"),
      s,
      unauthorized req.node_id "signature_invalid" env ∷ [],
    )

-- `s` is the service with the challenge already removed.
unfoldable pub check_challenge :
    Host → Service → HandshakeResponse → Env → Option PendingChallenge → Outcome HandshakeResult
check_challenge host s req env none =
    (err (failed_precondition "No pending challenge found"), s, [])
check_challenge host s req env (some c) =
    if validate_nonce_timestamp env.secs c.timestamp then check_signature host s req c env else (
      err (deadline_exceeded "Nonce expired"),
      s,
      unauthorized req.node_id "nonce_expired" env ∷ [],
    )

-- The service without the node's challenge.
abbrev pub taken : Service → String → Service
taken s node_id = record s { pending_challenges = HashMap.remove node_id s.pending_challenges }

unfoldable pub receive :
    Host → Service → HandshakeResponse → Env → Option Status → Outcome HandshakeResult
receive host s req env (some refusal) = (err refusal, s, [])
receive host s req env none =
    check_challenge host (taken s req.node_id) req env
      (HashMap.get req.node_id s.pending_challenges)

unfoldable pub complete_handshake :
    Host → Service → HandshakeResponse → Env → Outcome HandshakeResult
unfolding succeed check_token check_signature check_challenge receive
complete_handshake host s req env =
    receive host s req env (quarantine_check s.quarantine_manager req.node_id (remote_address env))

pub record PropagateQuarantineRequest : Type 0 where
  pub manifest_hash : String
  pub agent_id : String
  pub quarantined_by : String
  pub compliance_score : F64

pub record PropagateQuarantineResponse : Type 0 where
  pub success : Bool
  pub message : String

-- Without an immune system the alert is only published.
unfoldable pub propagate :
    Host
    → Service
    → PropagateQuarantineRequest
    → Env
    → Option GlobalImmuneResponse
    → Outcome PropagateQuarantineResponse
propagate host s req env none = (
  ok (record { success = true; message = "Quarantine alert processed" }),
  s,
  compliance_alert req.agent_id req.manifest_hash req.compliance_score req.quarantined_by
        (env.now 0)
      ∷ [],
)
propagate host s req env (some g) =
    let (g', events) =
      handle_peer_quarantine host g req.manifest_hash req.agent_id req.quarantined_by
        req.compliance_score env.now in
    (
      ok (record { success = true; message = "Quarantine alert processed" }),
      record s { immune_response = some g' },
      events,
    )

unfoldable pub propagate_quarantine :
    Host → Service → PropagateQuarantineRequest → Env → Outcome PropagateQuarantineResponse
unfolding propagate
propagate_quarantine host s req env = propagate host s req env s.immune_response
