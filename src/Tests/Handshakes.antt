-- ===== src/Tests/Handshakes.antt =====
-- network/handshake.rs at concrete calls: one node that asks, answers, and asks again.
use pagi_digital_twin.Base.{◌↔◌, ◌⊎◌, arith, ℕ, ◌≡◌, refl, List, [], ◌∷◌, none, some, replicate}
use pagi_digital_twin.Base.HashMap
use pagi_digital_twin.Quarantine.{new as new_quarantine, quarantine_node}
use pagi_digital_twin.Handshake
use pagi_digital_twin.Handshake.{
  compute_manifest_hash, Service, HandshakeRequest, HandshakeResponse, HandshakeChallenge,
  PendingChallenge, Env, Status, permission_denied, failed_precondition, ok, err, verified,
  quarantine_check, remote_address, compute_alignment_token, validate_nonce_timestamp,
  get_verified_peers,
}
use pagi_digital_twin.Handshake.Handlers.{initiate_handshake, complete_handshake}
use pagi_digital_twin.Handshake.Complete.{
  Accepts, accepted, complete_handshake-ok_iff, complete_handshake_once,
}
use pagi_digital_twin.Handshake.Initiate.{handshake_of_quarantined}
use pagi_digital_twin.Handshake.Peers.{Settles, complete_handshake-Settles}
use pagi_digital_twin.Handshake.History.{
  Call, initiates, completes, run, IsVerified, complete_handshake-initiate_handshake,
}
use pagi_digital_twin.Handshake.Provenance.{Proved, run_provenance}
use package.pagi_digital_twin.Tests.Data.{clock, host, service}

abbrev pub start : Service
start = service none

abbrev env : ℕ → Env
env secs = record {
  remote_addr = some "10.0.0.7:4000";
  secs = secs;
  fresh_nonce = 7 ∷ 1 ∷ 2 ∷ [];
  now = clock;
}

abbrev request : HandshakeRequest
request = record {
  node_id = "peer";
  software_version = "0.1.0";
  manifest_hash = "sha256:<manifest.yaml>";
}

abbrev response : HandshakeResponse
response = record {
  node_id = "peer";
  public_key = replicate 32 7;
  signed_nonce = replicate 64 7;
  alignment_token = "sha256:<prompt.txt>";
  guardrail_version = "v1";
}

abbrev challenge : HandshakeChallenge
challenge = record {
  nonce = 7 ∷ 1 ∷ 2 ∷ [];
  timestamp = 100;
  alignment_token = "sha256:<prompt.txt>";
}

abbrev challenged : Service
challenged = (initiate_handshake host start request (env 100)).1

initiated : (initiate_handshake host start request (env 100)).0 ≡ ok challenge
unfolding initiate_handshake quarantine_check Handshake.compute_manifest_hash
    compute_alignment_token
initiated = refl

complete_handshake-ok_iff_example :
    ((complete_handshake host challenged response (env 110)).0 ≡ ok (accepted challenged))
    ↔ ((c : PendingChallenge) × Accepts host challenged response (env 110) c)
complete_handshake-ok_iff_example = complete_handshake-ok_iff host challenged response (env 110)

complete_handshake-initiate_handshake_example :
    ((complete_handshake host challenged response (env 110)).0 ≡ ok (accepted challenged))
    × IsVerified "peer" (complete_handshake host challenged response (env 110)).1
complete_handshake-initiate_handshake_example =
    complete_handshake-initiate_handshake host start request (env 100) (env 110) challenge response
      initiated refl refl (omega arith) (omega arith) (omega arith) refl (omega arith) refl refl
      refl

abbrev pub calls : List Call
calls = initiates request (env 100) ∷ completes response (env 110) ∷ []

completed : IsVerified "peer" (run host start calls)
completed = complete_handshake-initiate_handshake_example.1

complete_handshake_once_example :
    (complete_handshake host
      (complete_handshake host challenged response (env 110)).1
      response
      (env 120)).0
    ≡ err (failed_precondition "No pending challenge found")
unfolding initiate_handshake complete_handshake quarantine_check compute_manifest_hash
    compute_alignment_token validate_nonce_timestamp HashMap.get HashMap.insert HashMap.remove
complete_handshake_once_example =
    complete_handshake_once host challenged
      (complete_handshake host challenged response (env 110)).1 response response (env 110)
      (env 120) refl refl refl refl

handshake_of_quarantined_example :
    let s =
      service (some (quarantine_node (new_quarantine none) "peer" none "drift" "admin" clock).0) in
    (initiate_handshake host s request (env 100)
      ≡ (err (permission_denied "Node is quarantined"), s, []))
    × (complete_handshake host s response (env 100)
        ≡ (err (permission_denied "Node is quarantined"), s, []))
handshake_of_quarantined_example =
    handshake_of_quarantined host
      (service (some (quarantine_node (new_quarantine none) "peer" none "drift" "admin" clock).0))
      (new_quarantine none) "peer" none "drift" "admin" clock request response (env 100) refl refl
      refl

complete_handshake-Settles_example :
    Settles challenged response (complete_handshake host challenged response (env 110))
complete_handshake-Settles_example = complete_handshake-Settles host challenged response (env 110)

-- A second challenge for the node that is already verified.
abbrev again : Service
again = (complete_handshake host challenged response (env 110)).1

run_provenance_example : IsVerified "peer" start ⊎ Proved host "peer" [] start calls
run_provenance_example = run_provenance host start calls "peer" refl completed
