-- ===== src/MeshHealth/Report.antt =====
-- analytics/mesh_health.rs: what the report counts, and how long it is kept.
use pagi_digital_twin.Base.{
  ℕ, ◌+◌, ◌-◌, ◌≤◌, ◌<◌, String, Bool, true, not, ◌&&◌, ◌≡◌, refl, ap, ◌∙◌, List, none, length,
  count_if, count_if-le-length, count_if-eq, arith, ltb,
}
use pagi_digital_twin.Base.Float.{Float}
use pagi_digital_twin.Quarantine.{QuarantineManager, list_quarantined, is_quarantined}
use pagi_digital_twin.Quarantine.Invariant.{Inv, any-list_quarantined}
use pagi_digital_twin.Handshake.{PeerNode, Service, get_verified_peers}
use pagi_digital_twin.MeshHealth.{
  u32, MeshHealthService, is_verified, is_aligned, generate_report, get_report, invalidate_cache,
  fresh, cached,
}

-- With fewer than 2^32 peers, and a quarantine list in which each entry stands once and under its
-- node, the report counts as aligned exactly the peers of status verified that are not quarantined,
-- and they are at most the total, which is the number of peers.
pub generate_report_aligned :
    (fl : Float) (s : MeshHealthService) (now : String)
    → Inv s.quarantine_manager
    → length (get_verified_peers s.handshake_service) < 4294967296
    → let r = generate_report fl s now in
      (r.aligned_nodes
        ≡ count_if
            (λ p. is_verified p.status && not (is_quarantined s.quarantine_manager p.node_id))
            (get_verified_peers s.handshake_service))
      × (r.aligned_nodes ≤ r.total_nodes)
      × (r.total_nodes ≡ length (get_verified_peers s.handshake_service))
unfolding generate_report is_aligned
generate_report_aligned fl s now v few = (
  exact,
  rw exact (omega (arith, count_if-le-length (trusted s) peers)),
  small_u32 (length peers) few,
)
  where
    peers : List PeerNode
    peers = get_verified_peers s.handshake_service

    trusted : MeshHealthService → PeerNode → Bool
    trusted s p = is_verified p.status && not (is_quarantined s.quarantine_manager p.node_id)

    small_u32 : (n : ℕ) → n < 4294967296 → u32 n ≡ n
    small_u32 n h = omega arith

    tests :
        count_if (is_aligned (list_quarantined s.quarantine_manager)) peers
        ≡ count_if (trusted s) peers
    tests = count_if-eq (is_aligned (list_quarantined s.quarantine_manager)) (trusted s) peers (λ p.
        ap (λ b. is_verified p.status && not b)
          (any-list_quarantined s.quarantine_manager p.node_id v))

    exact :
        u32 (count_if (is_aligned (list_quarantined s.quarantine_manager)) peers)
        ≡ count_if (trusted s) peers
    exact =
        ap u32 tests
        ∙ small_u32 (count_if (trusted s) peers)
            (omega (arith, count_if-le-length (trusted s) peers))

-- Without a report in the cache one is generated, and for the length of the cache a second request
-- gets the same one, whatever the peers and the quarantine list are by then; after an invalidation
-- the second request generates its own.
pub get_report_kept :
    (fl : Float) (s : MeshHealthService) (instant instant' : ℕ) (now now' : String)
    (service : Service) (qm : QuarantineManager)
    → s.cached_report ≡ none
    → instant ≤ instant'
    → instant' < instant + s.cache_ttl
    → let (r, s') = get_report fl s instant now in
      let t = record s' { handshake_service = service; quarantine_manager = qm } in
      (r ≡ generate_report fl s now)
      × ((get_report fl t instant' now').0 ≡ r)
      × ((get_report fl (invalidate_cache t) instant' now').0 ≡ generate_report fl t now')
unfolding get_report invalidate_cache cached fresh generate_report
get_report_kept fl s instant instant' now now' service qm e later soon =
    rw e (refl, rw (within) refl, refl)
  where
    within : ltb (instant' - instant) s.cache_ttl ≡ true
    within = ground arith
