-- ===== src/MemoryExchange/Transfer.antt =====
-- network/memory_exchange.rs: who is served, and what the counts say of a transfer.
use Prim.Native.String.{len}
use pagi_digital_twin.Base.{
  zero, inl, inr, unwrap_or, none, some, Option, ◌≢◌, ◌<◌, ap, if◌then◌else◌, map, false, String, ℕ,
  suc, ◌+◌, ◌≤◌, Bool, true, List, [], ◌∷◌, length, ◌≡◌, refl, arith, subst,
}
use pagi_digital_twin.Base.HashMap
use pagi_digital_twin.Base.HashMap.{get-insert_self, HashMap}
use pagi_digital_twin.Bus.{memory_transfer, Stamps}
use pagi_digital_twin.Handshake
use pagi_digital_twin.Handshake.{
  get_peer, PeerStatus, PeerNode, verified, pending, quarantined, ok, err, permission_denied,
}
use pagi_digital_twin.Host.{Host}
use pagi_digital_twin.Handshake.History.{Call, run, IsVerified}
use pagi_digital_twin.Handshake.Peers.{status_of}
use pagi_digital_twin.Handshake.Provenance.{Proved, run_provenance}
use pagi_digital_twin.MemoryExchange.{Service, verify_alignment_token, is_verified, peer_verified}
use pagi_digital_twin.MemoryExchange.Stream.{
  no_totals, exchange_memory, ExchangeMemoryRequest, ExchangeMemoryResponse, touch, record_transfer,
  text_of, scrub, stream_vectors, response, Scrubber, ScoredPoint, Totals, add_totals, transfer,
  search_and_redact,
}

-- The flags of a run of fragments: the last one and no other.
abbrev pub marks : ℕ → List Bool
marks zero = []
marks (suc zero) = true ∷ []
marks (suc (suc n)) = false ∷ marks (suc n)

abbrev pub sum_by {ℓ} : {A : Type ℓ} → (A → ℕ) → List A → ℕ
sum_by f [] = 0
sum_by f (x ∷ xs) = f x + sum_by f xs

abbrev pub clean : Scrubber → ScoredPoint → String
clean sc point = (scrub sc (text_of point "content")).0

abbrev pub redactions : Scrubber → ScoredPoint → ℕ
redactions sc point = (scrub sc (text_of point "content")).1

-- The totals after all of these points.
abbrev pub totals : Scrubber → List ScoredPoint → Totals → Totals
totals sc [] t = t
totals sc (p ∷ ps) t = totals sc ps (add_totals sc p t)

module _ (sc : Scrubber) where
  -- Everything accepted, from `idx` on: one response a point, the last of the run marked.
  transfer-marks :
      (accepts : ℕ → Bool) (len idx : ℕ) (points : List ScoredPoint) (t : Totals)
      → ((i : ℕ) → accepts i ≡ true)
      → idx + length points ≡ len
      → map (λ r. r.is_complete) (transfer sc accepts len idx points t).0 ≡ marks (length points)
  unfolding transfer response
  transfer-marks accepts len idx [] t h e = refl
  transfer-marks accepts len idx (p ∷ []) t h e = ground (arith, h idx)
  transfer-marks accepts len idx (p ∷ q ∷ ps) t h e = ground (
    arith,
    h idx,
    transfer-marks accepts len (suc idx) (q ∷ ps) (add_totals sc p t) h (omega (arith, e)),
  )

  transfer_contents :
      (accepts : ℕ → Bool) (len idx : ℕ) (points : List ScoredPoint) (t : Totals)
      → ((i : ℕ) → accepts i ≡ true)
      → map (λ r. r.redacted_content) (transfer sc accepts len idx points t).0
        ≡ map (clean sc) points
  unfolding transfer response
  transfer_contents accepts len idx [] t h = refl
  transfer_contents accepts len idx (p ∷ ps) t h =
      ground (arith, h idx, transfer_contents accepts len (suc idx) ps (add_totals sc p t) h)

  transfer-totals :
      (accepts : ℕ → Bool) (len idx : ℕ) (points : List ScoredPoint) (t : Totals)
      → ((i : ℕ) → accepts i ≡ true)
      → (transfer sc accepts len idx points t).1 ≡ totals sc points t
  unfolding transfer
  transfer-totals accepts len idx [] t h = refl
  transfer-totals accepts len idx (p ∷ ps) t h =
      ground (arith, h idx, transfer-totals accepts len (suc idx) ps (add_totals sc p t) h)

  totals_sum :
      (points : List ScoredPoint) (t : Totals)
      → totals sc points t ≡ record {
        redacted_count = t.redacted_count + sum_by (redactions sc) points;
        bytes = t.bytes + sum_by (λ p. len (clean sc p)) points;
        fragment_count = t.fragment_count + length points;
      }
  unfolding add_totals
  totals_sum [] t = ground arith
  totals_sum (p ∷ ps) t = ground (arith, totals_sum ps (add_totals sc p t))

  -- The count covers what is delivered, and the fragment whose sending failed.
  transfer_counts :
      (accepts : ℕ → Bool) (len idx : ℕ) (points : List ScoredPoint) (t : Totals)
      → (t.fragment_count + length (transfer sc accepts len idx points t).0
          ≤ (transfer sc accepts len idx points t).1.fragment_count)
        × ((transfer sc accepts len idx points t).1.fragment_count
            ≤ suc (t.fragment_count + length (transfer sc accepts len idx points t).0))
        × ((transfer sc accepts len idx points t).1.fragment_count
            ≤ t.fragment_count + length points)
  unfolding transfer add_totals
  transfer_counts accepts len idx [] t = (omega arith, omega arith, omega arith)
  transfer_counts accepts len idx (p ∷ ps) t =
      ground (arith, transfer_counts accepts len (suc idx) ps (add_totals sc p t))

transfer_positive :
    (sc : Scrubber) (accepts : ℕ → Bool) (len idx : ℕ) (points : List ScoredPoint) (t : Totals)
    → 0 < length points
    → t.fragment_count < (transfer sc accepts len idx points t).1.fragment_count
unfolding transfer add_totals
transfer_positive sc accepts len idx [] t h = omega (arith, h)
transfer_positive sc accepts len idx (p ∷ ps) t h =
    ground (arith, transfer_counts sc accepts len (suc idx) ps (add_totals sc p t))

-- When the receiver takes everything: one response for each point, with its redacted content and only
-- the last marked complete; and, with a point at all, the one event carries the number of points and
-- the sums of their redacted bytes and redaction counts.
pub stream_vectors_complete :
    (sc : Scrubber) (accepts : ℕ → Bool) (s : Service) (destination topic : String) (time : ℕ)
    (now : Stamps) (points : List ScoredPoint)
    → ((i : ℕ) → accepts i ≡ true)
    → (map (λ r. r.is_complete) (stream_vectors sc accepts s destination topic time now points).0
        ≡ marks (length points))
      × (map
            (λ r. r.redacted_content)
            (stream_vectors sc accepts s destination topic time now points).0
          ≡ map (clean sc) points)
      × (0 < length points
          → (stream_vectors sc accepts s destination topic time now points).2
            ≡ memory_transfer s.node_id destination topic
                (length points)
                (sum_by (λ p. len (clean sc p)) points)
                (sum_by (redactions sc) points)
                (now 0)
              ∷ [])
unfolding stream_vectors record_transfer
stream_vectors_complete sc accepts s destination topic time now points h = (
  transfer-marks sc accepts (length points) 0 points no_totals h (omega arith),
  transfer_contents sc accepts (length points) 0 points no_totals h,
  λ some_point.
      rw
        (
          transfer-totals sc accepts (length points) 0 points no_totals h,
          totals_sum sc points no_totals,
        )
        (ground (arith, some_point)),
)

recorded :
    (s : Service) (destination topic : String) (time : ℕ) (now : Stamps) (t : Totals)
    → 0 < t.fragment_count
    → (HashMap.get s.node_id (record_transfer s destination topic time now t).0.node_volumes
        ≡ some (unwrap_or (HashMap.get s.node_id s.node_volumes) 0 + t.fragment_count))
      × (HashMap.get topic (record_transfer s destination topic time now t).0.topic_frequencies
          ≡ some (touch time (HashMap.get topic s.topic_frequencies)))
unfolding record_transfer
recorded s destination topic time now t h = (
  ground (
    arith,
    h,
    get-insert_self s.node_id
        (unwrap_or (HashMap.get s.node_id s.node_volumes) 0 + t.fragment_count) s.node_volumes,
  ),
  ground (
    arith,
    h,
    get-insert_self topic (touch time (HashMap.get topic s.topic_frequencies)) s.topic_frequencies,
  ),
)

-- With a receiver that may leave at any point, and a point at all: some `n` fragments are counted,
-- from 1 up to the number of points, as many as are delivered or one more; the node's own volume
-- grows by `n`, and the topic is on file with the time of the transfer.
pub stream_vectors_counts :
    (sc : Scrubber) (accepts : ℕ → Bool) (s : Service) (destination topic : String) (time : ℕ)
    (now : Stamps) (points : List ScoredPoint)
    → 0 < length points
    → (n : ℕ) × (0 < n)
      × (n ≤ length points)
      × (length (stream_vectors sc accepts s destination topic time now points).0 ≤ n)
      × (n ≤ suc (length (stream_vectors sc accepts s destination topic time now points).0))
      × (HashMap.get s.node_id
            (stream_vectors sc accepts s destination topic time now points).1.node_volumes
          ≡ some (unwrap_or (HashMap.get s.node_id s.node_volumes) 0 + n))
      × (HashMap.get topic
            (stream_vectors sc accepts s destination topic time now points).1.topic_frequencies
          ≡ some (touch time (HashMap.get topic s.topic_frequencies)))
unfolding stream_vectors
stream_vectors_counts sc accepts s destination topic time now points h =
    let done = transfer sc accepts (length points) 0 points no_totals in
    let counts = transfer_counts sc accepts (length points) 0 points no_totals in
    let positive = transfer_positive sc accepts (length points) 0 points no_totals h in
    (
      (transfer sc accepts (length points) 0 points no_totals).1.fragment_count,
      omega (arith, positive),
      omega (arith, counts.2),
      omega (arith, counts.0),
      omega (arith, counts.1),
      (recorded s destination topic time now done.1 positive).0,
      (recorded s destination topic time now done.1 positive).1,
    )

is_verified_lem : (status : PeerStatus) → is_verified status ≡ true → status ≡ verified
is_verified_lem verified h = refl
is_verified_lem pending h = cc
is_verified_lem quarantined h = cc

status_of-peer_verified :
    (o : Option PeerNode) → peer_verified o ≡ true → status_of o ≡ some verified
status_of-peer_verified none h = cc
status_of-peer_verified (some peer) h = ap some (is_verified_lem peer.status h)

exchange_memory-IsVerified :
    (sc : Scrubber) (accepts : ℕ → Bool) (s : Service) (req : ExchangeMemoryRequest) (time : ℕ)
    (now : Stamps) (delivered : List ExchangeMemoryResponse)
    → (exchange_memory sc accepts s req time now).0 ≡ ok delivered
    → IsVerified req.requesting_node_id s.handshake_service
unfolding exchange_memory verify_alignment_token get_peer
exchange_memory-IsVerified sc accepts s req time now delivered h =
    status_of-peer_verified (HashMap.get req.requesting_node_id s.handshake_service.verified_peers)
      (ground (arith, h))

nobody : (j : String) → status_of (HashMap.get j []) ≢ some verified
unfolding HashMap.get
nobody j e = cc

-- The fragments only go to verified peers: from a handshake service that started without peers and
-- challenges, a requester that is not refused has, before, answered a challenge given out in its own
-- name, and the response met every condition of the handshake.
pub exchange_memory_provenance :
    (host : Host) (start : Handshake.Service) (calls : List Call) (sc : Scrubber)
    (accepts : ℕ → Bool) (s : Service) (req : ExchangeMemoryRequest) (time : ℕ) (now : Stamps)
    (delivered : List ExchangeMemoryResponse)
    → start.pending_challenges ≡ []
    → start.verified_peers ≡ []
    → s.handshake_service ≡ run host start calls
    → (exchange_memory sc accepts s req time now).0 ≡ ok delivered
    → Proved host req.requesting_node_id [] start calls
exchange_memory_provenance host start calls sc accepts s req time now delivered c p r h =
    elim (run_provenance host start calls req.requesting_node_id c
      (subst (IsVerified req.requesting_node_id) r served)) [
        | inl at_start ↦ absurd (
            nobody req.requesting_node_id (
              subst (λ m. status_of (HashMap.get req.requesting_node_id m) ≡ some verified) p
                at_start))
        | inr proved ↦ proved
      ]
  where
    served : IsVerified req.requesting_node_id s.handshake_service
    served = exchange_memory-IsVerified sc accepts s req time now delivered h

-- The service as it stands transfers nothing: whatever the request, no counts change and no event is
-- published, and the reply is an empty stream to a peer on file as verified, or a refusal.
pub exchange_memory_idle :
    (sc : Scrubber) (accepts : ℕ → Bool) (s : Service) (req : ExchangeMemoryRequest) (time : ℕ)
    (now : Stamps)
    → ((exchange_memory sc accepts s req time now).1 ≡ s)
      × ((exchange_memory sc accepts s req time now).2 ≡ [])
      × ((exchange_memory sc accepts s req time now).0 ≡ (
          if peer_verified (get_peer s.handshake_service req.requesting_node_id)
          then ok []
          else err (permission_denied "Alignment token verification failed")))
unfolding exchange_memory verify_alignment_token stream_vectors search_and_redact transfer
    record_transfer
exchange_memory_idle sc accepts s req time now = (ground arith, ground arith, ground arith)
