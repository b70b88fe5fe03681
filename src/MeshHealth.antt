-- ===== src/MeshHealth.antt =====
-- backend-rust-orchestrator/src/analytics/mesh_health.rs: the report on the mesh, and its cache.
-- `Instant` is a count that only grows; the cache lasts `cache_ttl` of it.
pub mod Report
use pagi_digital_twin.Base.{
  ◌%◌, ℕ, ◌-◌, String, Bool, true, false, not, ◌&&◌, List, Option, none, some, ◌==◌, ltb, is_empty,
  length, any, count_if, if◌then◌else◌,
}
use pagi_digital_twin.Base.Float.{Float, F64}
use pagi_digital_twin.Quarantine.{QuarantineManager, QuarantineEntry, list_quarantined}
use pagi_digital_twin.Handshake.{PeerNode, PeerStatus, verified, Service, get_verified_peers}

-- The counts are `u32` in the source: they are taken below 2^32.
pub record MeshHealthReport : Type 0 where
  pub total_nodes : ℕ
  pub aligned_nodes : ℕ
  pub quarantined_nodes : ℕ
  pub alignment_drift_percentage : F64
  pub last_updated_utc : String

abbrev pub u32 : ℕ → ℕ
u32 n = n % 4294967296

pub record MeshHealthService : Type 0 where
  pub handshake_service : Service
  pub quarantine_manager : QuarantineManager
  pub local_manifest_hash : String
  pub cached_report : Option (MeshHealthReport × ℕ)
  pub cache_ttl : ℕ

abbrev pub is_verified : PeerStatus → Bool
is_verified verified = true
is_verified _ = false

-- Verified, and no entry of the quarantine list names the peer.
unfoldable pub is_aligned : List QuarantineEntry → PeerNode → Bool
is_aligned quarantined p =
    is_verified p.status && not (any (λ q. q.node_id == p.node_id) quarantined)

unfoldable pub is_outdated : String → List QuarantineEntry → PeerNode → Bool
is_outdated local_manifest_hash quarantined p =
    is_aligned quarantined p
    && (not (is_empty local_manifest_hash) && not (p.manifest_hash == local_manifest_hash))

module _ (fl : Float) where
  unfoldable pub drift : ℕ → ℕ → F64
  drift outdated aligned =
      if ltb 0 aligned
      then fl.mul (fl.div (fl.lit outdated) (fl.lit aligned)) (fl.lit 100)
      else fl.lit 0

  unfoldable pub generate_report : MeshHealthService → String → MeshHealthReport
  unfolding drift
  generate_report s now = record {
    total_nodes = u32 (length peers);
    aligned_nodes = u32 (count_if (is_aligned quarantined) peers);
    quarantined_nodes = u32 (length quarantined);
    alignment_drift_percentage =
        drift (count_if (is_outdated s.local_manifest_hash quarantined) peers)
          (u32 (count_if (is_aligned quarantined) peers));
    last_updated_utc = now;
  }
    where
      peers : List PeerNode
      peers = get_verified_peers s.handshake_service

      quarantined : List QuarantineEntry
      quarantined = list_quarantined s.quarantine_manager

  fresh : MeshHealthService → ℕ → String → MeshHealthReport × MeshHealthService
  fresh s instant now =
      let report = generate_report s now in
      (report, record s { cached_report = some (report, instant) })

  cached :
      MeshHealthService
      → ℕ
      → String
      → Option (MeshHealthReport × ℕ)
      → MeshHealthReport × MeshHealthService
  unfolding fresh
  cached s instant now none = fresh s instant now
  cached s instant now (some (report, timestamp)) =
      if ltb (instant - timestamp) s.cache_ttl then (report, s) else fresh s instant now

  unfoldable pub get_report : MeshHealthService → ℕ → String → MeshHealthReport × MeshHealthService
  unfolding cached
  get_report s instant now = cached s instant now s.cached_report

unfoldable pub invalidate_cache : MeshHealthService → MeshHealthService
invalidate_cache s = record s { cached_report = none }
