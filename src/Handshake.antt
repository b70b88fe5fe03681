-- ===== src/Handshake.antt =====
-- backend-rust-orchestrator/src/network/handshake.rs: the handshake service. A remote call is a
-- function from the service to its reply, the service afterwards and the events it published; what
-- the call reads from outside (clock, random nonce, remote address) is in `Env`.
pub mod Handlers
pub mod Unlisted
pub mod Complete
pub mod Initiate
pub mod Peers
pub mod History
pub mod Provenance
use Prim.Native.String
use pagi_digital_twin.Base.{
  ℕ, String, Bool, true, false, not, ◌&&◌, ◌||◌, List, [], ◌∷◌, ◌++◌, Option, none, some, unwrap_or,
  is_empty, ◌==◌, length, take, ltb, if◌then◌else◌,
}
use pagi_digital_twin.Base.HashMap
use pagi_digital_twin.Base.HashMap.{HashMap}
use pagi_digital_twin.Base.Int.{ℤ, pos, sub_ℕ, leb_ℤ}
use pagi_digital_twin.Base.Float.{F64}
use pagi_digital_twin.Host.{Host, Read, content, failed, ◌<>◌}
use pagi_digital_twin.Bus.{
  PhoenixEvent, unauthorized_node_detected, peer_verified, compliance_alert, Events, Stamps,
}
use pagi_digital_twin.Quarantine.{QuarantineManager, is_quarantined, is_ip_quarantined}
use pagi_digital_twin.Immune.{GlobalImmuneResponse, handle_peer_quarantine}

-- tonic's `Status`, with the codes that the service uses.
pub data Status : Type 0 where
  permission_denied internal failed_precondition deadline_exceeded invalid_argument :
      String → Status

-- `panicked` is a slice out of range.
pub data Reply (A : Type 0) : Type 0 where
  ok : A → Reply A
  err : Status → Reply A
  panicked : Reply A

pub record HandshakeRequest : Type 0 where
  pub node_id : String
  pub software_version : String
  pub manifest_hash : String

pub record HandshakeChallenge : Type 0 where
  pub nonce : List ℕ
  pub timestamp : ℕ
  pub alignment_token : String

pub record HandshakeResponse : Type 0 where
  pub node_id : String
  pub public_key : List ℕ
  pub signed_nonce : List ℕ
  pub alignment_token : String
  pub guardrail_version : String

pub record HandshakeResult : Type 0 where
  pub success : Bool
  pub message : String
  pub node_id : String

pub record PendingChallenge : Type 0 where
  pub nonce : List ℕ
  pub timestamp : ℕ
  pub node_id : String
  pub software_version : String
  pub manifest_hash : String

pub data PeerStatus : Type 0 where
  verified pending quarantined : PeerStatus

pub record PeerNode : Type 0 where
  pub node_id : String
  pub software_version : String
  pub manifest_hash : String
  pub remote_address : String
  pub status : PeerStatus
  pub last_seen : String

-- The two clients that only write the audit log are left out.
pub record Service : Type 0 where
  pub node_id : String
  pub system_prompt_path : String
  pub leadership_kb_path : Option String
  pub manifest_path : Option String
  pub software_version : String
  pub guardrail_version : String
  pub pending_challenges : HashMap PendingChallenge
  pub verified_peers : HashMap PeerNode
  pub quarantine_manager : Option QuarantineManager
  pub immune_response : Option GlobalImmuneResponse

-- `secs` is the Unix time, below 2^63; `fresh_nonce` is what the system's generator gives.
pub record Env : Type 0 where
  pub remote_addr : Option String
  pub secs : ℕ
  pub fresh_nonce : List ℕ
  pub now : Stamps

-- The reply, the service afterwards, and the events published.
abbrev pub Outcome : Type 0 → Type 0
Outcome A = Reply A × Service × Events

unfoldable pub get_verified_peers : Service → List PeerNode
get_verified_peers s = HashMap.values s.verified_peers

unfoldable pub get_peer : Service → String → Option PeerNode
get_peer s node_id = HashMap.get node_id s.verified_peers

-- `self.leadership_kb_path`, if set and present: its content, nothing, or the error.
abbrev read_kb : Host → Option String → Read
read_kb host none = content ""
read_kb host (some kb_path) = if host.exists kb_path then host.read kb_path else content ""

abbrev token_of : Host → Read → Read → Read
token_of host (failed e) kb = failed ("Failed to read system prompt: " <> e)
token_of host (content prompt) (failed e) = failed ("Failed to read leadership KB: " <> e)
token_of host (content prompt) (content kb) = content (host.sha256_hex (prompt <> kb))

-- The hash of the system prompt followed by the leadership knowledge base.
unfoldable pub compute_alignment_token : Host → Service → Read
compute_alignment_token host s =
    token_of host (host.read s.system_prompt_path) (read_kb host s.leadership_kb_path)

abbrev manifest_hash_of : Host → Read → Read
manifest_hash_of host (failed e) = failed ("Failed to read manifest: " <> e)
manifest_hash_of host (content manifest) = content (host.sha256_hex manifest)

abbrev manifest_hash_at : Host → Option String → Read
manifest_hash_at host none = content ""
manifest_hash_at host (some path) =
    if host.exists path then manifest_hash_of host (host.read path) else content ""

unfoldable pub compute_manifest_hash : Host → Service → Read
compute_manifest_hash host s = manifest_hash_at host s.manifest_path

-- A challenge is good for 30 seconds.
unfoldable pub validate_nonce_timestamp : ℕ → ℕ → Bool
validate_nonce_timestamp now timestamp =
    let age = sub_ℕ now timestamp in leb_ℤ (pos 0) age && leb_ℤ age (pos 30)

-- `remote_address.split(':').next()`: the text before the first colon.
unfoldable pub before_colon : String → String
before_colon String.[] = ""
before_colon (String.◌∷◌ c rest) =
    if String.◌∷◌ c "" == ":" then "" else String.◌∷◌ c (before_colon rest)

abbrev pub remote_address : Env → String
remote_address env = unwrap_or env.remote_addr "unknown"

-- The check at the head of both handlers.
unfoldable pub quarantine_check : Option QuarantineManager → String → String → Option Status
quarantine_check none node_id address = none
quarantine_check (some qm) node_id address =
    if is_quarantined qm node_id
    then some (permission_denied "Node is quarantined")
    else if is_ip_quarantined qm (before_colon address)
    then some (permission_denied "IP address is quarantined")
    else none

abbrev pub unauthorized : String → String → Env → PhoenixEvent
unauthorized node_id reason env =
    unauthorized_node_detected node_id reason (remote_address env) (env.now 0)
