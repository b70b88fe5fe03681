-- ===== src/MemoryExchange.antt =====
-- backend-rust-orchestrator/src/network/memory_exchange.rs: the service that gives memory fragments
-- to peers, the check of a peer, and the counts of topics with their decay. `SystemTime` is a count
-- of nanoseconds.
pub mod Stream
pub mod Snapshots
pub mod Decay
pub mod Transfer
pub mod Recovery
use pagi_digital_twin.Base.{
  ℕ, suc, ◌+◌, ◌-◌, ◌*◌, ◌/◌, String, Bool, true, false, not, ◌&&◌, List, [], ◌∷◌, map, Option,
  none, some, unwrap_or, ltb, leb, length, if◌then◌else◌,
}
use pagi_digital_twin.Base.HashMap
use pagi_digital_twin.Base.HashMap.{HashMap}
use pagi_digital_twin.Base.Float.{F64, Float}
use pagi_digital_twin.Bus.{memory_transfer, Events, Stamps}
use pagi_digital_twin.Quarantine.{Payload, get_str}
use pagi_digital_twin.Handshake
use pagi_digital_twin.Handshake.{
  Reply, ok, err, permission_denied, PeerStatus, verified, PeerNode, get_peer, get_verified_peers,
}

pub record TopicFrequency : Type 0 where
  pub count : ℕ
  pub last_accessed : ℕ

pub record Service : Type 0 where
  pub handshake_service : Handshake.Service
  pub node_id : String
  pub topic_frequencies : HashMap TopicFrequency
  pub node_volumes : HashMap ℕ
  pub last_snapshot : Option ℕ
  pub maintenance_mode : Bool

unfoldable pub new : Handshake.Service → String → Service
new handshake node_id = record {
  handshake_service = handshake;
  node_id = node_id;
  topic_frequencies = [];
  node_volumes = [];
  last_snapshot = none;
  maintenance_mode = false;
}

abbrev pub nanoseconds : ℕ
nanoseconds = 1000000000

abbrev pub hours : ℕ → ℕ
hours n = n * 3600 * nanoseconds

-- The count after the linear decay over 24 hours.
unfoldable pub decayed_count : Float → ℕ → ℕ → ℕ
decayed_count fl count elapsed =
    let factor = fl.sub (fl.lit 1) (fl.div (fl.lit (elapsed / nanoseconds)) (fl.lit 86400)) in
    fl.to_usize (fl.mul (fl.lit count) (fl.max factor (fl.lit 0)))

-- The test of the hourly task; a last access that lies ahead of the clock passes.
unfoldable pub is_stale : Float → ℕ → TopicFrequency → Bool
is_stale fl now freq =
    if leb freq.last_accessed now
    then (let elapsed = now - freq.last_accessed in
        if ltb (hours 24) elapsed
        then true
        else leb (decayed_count fl freq.count elapsed) 0 && ltb (hours 12) elapsed)
    else false

unfoldable pub stale_topics : Float → ℕ → HashMap TopicFrequency → List String
stale_topics fl now [] = []
stale_topics fl now ((topic, freq) ∷ m) =
    if is_stale fl now freq then topic ∷ stale_topics fl now m else stale_topics fl now m

unfoldable pub remove_topics : List String → HashMap TopicFrequency → HashMap TopicFrequency
remove_topics [] m = m
remove_topics (topic ∷ topics) m = remove_topics topics (HashMap.remove topic m)

-- One tick of the hourly task.
unfoldable pub decay_topics : Float → ℕ → Service → Service
decay_topics fl now s = record s {
  topic_frequencies = remove_topics (stale_topics fl now s.topic_frequencies) s.topic_frequencies;
}

abbrev pub is_verified : PeerStatus → Bool
is_verified verified = true
is_verified _ = false

abbrev pub peer_verified : Option PeerNode → Bool
peer_verified none = false
peer_verified (some peer) = is_verified peer.status

-- The token is not looked at.
unfoldable pub verify_alignment_token : Service → String → String → Bool
verify_alignment_token s node_id alignment_token =
    peer_verified (get_peer s.handshake_service node_id)

unfoldable pub verify_alignment : Service → String → String → Bool × String
verify_alignment s node_id alignment_token =
    if verify_alignment_token s node_id alignment_token
    then (true, "Alignment token verified")
    else (false, "Alignment token verification failed")

unfoldable pub get_verified_peers_count : Service → ℕ
get_verified_peers_count s = length (get_verified_peers s.handshake_service)

unfoldable pub get_topic_frequencies : Service → HashMap ℕ
get_topic_frequencies s = map (λ entry. (entry.0, entry.1.count)) s.topic_frequencies
