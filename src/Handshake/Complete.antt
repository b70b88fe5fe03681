-- ===== src/Handshake/Complete.antt =====
-- network/handshake.rs: when `complete_handshake` accepts, and what it leaves behind.
use pagi_digital_twin.Base.{
  ap, false, if◌then◌else◌, ◌∙◌, ◌≢◌, sym, not, Bool, ltb, ℕ, ◌+◌, ◌≤◌, true, ◌≡◌, ◌↔◌, refl,
  Option, none, some, arith, length, take, eq_iff, eq_refl,
}
use pagi_digital_twin.Base.HashMap
use pagi_digital_twin.Base.HashMap.{HashMap, get-insert, get-remove}
use pagi_digital_twin.Host.{Host, Read, content, failed}
use pagi_digital_twin.Handshake.{
  Status, failed_precondition, ok, err, HandshakeResponse, HandshakeResult, PendingChallenge,
  Service, Env, Outcome, compute_alignment_token, validate_nonce_timestamp, remote_address,
  quarantine_check,
}
use pagi_digital_twin.Handshake.Unlisted.{Unlisted, quarantine_check_iff}
use pagi_digital_twin.Handshake.Handlers.{
  taken, complete_handshake, receive, check_challenge, check_signature, check_token,
}

-- The window is closed at both ends and never reaches into the future.
validate_nonce_timestamp_iff :
    (now timestamp : ℕ)
    → (validate_nonce_timestamp now timestamp ≡ true) ↔ ((timestamp ≤ now) × (now ≤ timestamp + 30))
unfolding validate_nonce_timestamp
validate_nonce_timestamp_iff now timestamp = ground arith

-- A guard that refuses is behind every positive reply.
past :
    {A : Type 0} (b : Bool) (x y : Outcome A) {a : A}
    → x.0 ≢ ok a
    → (if b then x else y).0 ≡ ok a
    → (b ≡ false) × (y.0 ≡ ok a)
past true x y no' h = absurd (no' h)
past false x y no' h = (refl, h)

past_test :
    {A : Type 0} (b : Bool) (x y : Outcome A) {a : A}
    → y.0 ≢ ok a
    → (if b then x else y).0 ≡ ok a
    → (b ≡ true) × (x.0 ≡ ok a)
past_test true x y no' h = (refl, h)
past_test false x y no' h = absurd (no' h)

-- All that a response must meet against the challenge `c`.
pub record Accepts (host : Host) (s : Service) (req : HandshakeResponse) (env : Env)
    (c : PendingChallenge) : Type 0 where
  pub not_listed : Unlisted s.quarantine_manager req.node_id (remote_address env)
  pub challenged : HashMap.get req.node_id s.pending_challenges ≡ some c
  pub started : c.timestamp ≤ env.secs
  pub in_time : env.secs ≤ c.timestamp + 30
  pub key_sized : 32 ≤ length req.public_key
  pub key_valid : host.valid_key (take 32 req.public_key) ≡ true
  pub signature_sized : 64 ≤ length req.signed_nonce
  pub signature_valid : host.valid_signature (take 64 req.signed_nonce) ≡ true
  pub signed : host.verify (take 32 req.public_key) c.nonce (take 64 req.signed_nonce) ≡ true
  pub aligned : compute_alignment_token host s ≡ content req.alignment_token

abbrev pub accepted : Service → HandshakeResult
accepted s = record { success = true; message = "Handshake successful"; node_id = s.node_id }

module _ (host : Host) (s : Service) (req : HandshakeResponse) (env : Env) where
  token-ok :
      (s' : Service) (c : PendingChallenge) (r : Read) {a : HandshakeResult}
      → (check_token s' req c env r).0 ≡ ok a
      → r ≡ content req.alignment_token
  unfolding check_token
  token-ok s' c (failed e) h = cc
  token-ok s' c (content t) h = ground (arith, eq_iff req.alignment_token t)

  -- What a positive answer of the signature stage shows.
  record Signed (c : PendingChallenge) : Type 0 where
    key_sized : 32 ≤ length req.public_key
    key_valid : host.valid_key (take 32 req.public_key) ≡ true
    signature_sized : 64 ≤ length req.signed_nonce
    signature_valid : host.valid_signature (take 64 req.signed_nonce) ≡ true
    signed : host.verify (take 32 req.public_key) c.nonce (take 64 req.signed_nonce) ≡ true
    aligned : compute_alignment_token host s ≡ content req.alignment_token

  signature-ok :
      (s' : Service) (c : PendingChallenge) {a : HandshakeResult}
      → compute_alignment_token host s' ≡ compute_alignment_token host s
      → (check_signature host s' req c env).0 ≡ ok a
      → Signed c
  unfolding check_signature
  signature-ok s' c {a} same h =
      let (sized, h₁) = past (ltb (length req.public_key) 32) _ _ (λ e. cc) h in
      let (valid, h₂) = past (not (host.valid_key (take 32 req.public_key))) _ _ (λ e. cc) h₁ in
      let (sized', h₃) = past (ltb (length req.signed_nonce) 64) _ _ (λ e. cc) h₂ in
      let (valid', h₄) =
        past (not (host.valid_signature (take 64 req.signed_nonce))) _ _ (λ e. cc) h₃ in
      let (signed, h₅) =
        past_test (host.verify (take 32 req.public_key) c.nonce (take 64 req.signed_nonce)) _ _
          (λ e. cc) h₄ in
      record {
        key_sized = ground arith;
        key_valid = ground arith;
        signature_sized = ground arith;
        signature_valid = ground arith;
        signed = signed;
        aligned = sym same ∙ token-ok s' c (compute_alignment_token host s') h₅;
      }

  challenge-ok :
      (s' : Service) (c : PendingChallenge) {a : HandshakeResult}
      → (check_challenge host s' req env (some c)).0 ≡ ok a
      → (c.timestamp ≤ env.secs)
        × (env.secs ≤ c.timestamp + 30)
        × ((check_signature host s' req c env).0 ≡ ok a)
  unfolding check_challenge
  challenge-ok s' c {a} h = ground (arith, validate_nonce_timestamp_iff env.secs c.timestamp)

  complete-ok→Accepts :
      {a : HandshakeResult}
      → (complete_handshake host s req env).0 ≡ ok a
      → (c : PendingChallenge) × Accepts host s req env c
  unfolding complete_handshake compute_alignment_token
  complete-ok→Accepts {a} h =
      by_check (quarantine_check s.quarantine_manager req.node_id (remote_address env)) refl h
    where
      by_challenge :
          (o : Option PendingChallenge)
          → quarantine_check s.quarantine_manager req.node_id (remote_address env) ≡ none
          → HashMap.get req.node_id s.pending_challenges ≡ o
          → (check_challenge host (taken s req.node_id) req env o).0 ≡ ok a
          → (c : PendingChallenge) × Accepts host s req env c
      by_challenge none q e k = cc
      by_challenge (some c) q e k =
          let (started, in_time, rest) = challenge-ok (taken s req.node_id) c k in
          let v = signature-ok (taken s req.node_id) c refl rest in
          (
            c,
            record {
              not_listed =
                  (quarantine_check_iff s.quarantine_manager req.node_id (remote_address env)).0 q;
              challenged = e;
              started = started;
              in_time = in_time;
              key_sized = v.key_sized;
              key_valid = v.key_valid;
              signature_sized = v.signature_sized;
              signature_valid = v.signature_valid;
              signed = v.signed;
              aligned = v.aligned;
            },
          )

      by_check :
          (q : Option Status)
          → quarantine_check s.quarantine_manager req.node_id (remote_address env) ≡ q
          → (receive host s req env q).0 ≡ ok a
          → (c : PendingChallenge) × Accepts host s req env c
      by_check (some r) e k = cc
      by_check none e k = by_challenge (HashMap.get req.node_id s.pending_challenges) e refl k

  Accepts→complete-ok :
      (c : PendingChallenge)
      → Accepts host s req env c
      → (complete_handshake host s req env).0 ≡ ok (accepted s)
  unfolding complete_handshake compute_alignment_token
  Accepts→complete-ok c v =
      rw
        (
          (quarantine_check_iff s.quarantine_manager req.node_id (remote_address env)).1
              v.not_listed,
          receive,
        )
        (rw (v.challenged, check_challenge)
          (ground (
            arith,
            validate_nonce_timestamp_iff env.secs c.timestamp,
            v.aligned,
            eq_refl req.alignment_token,
          )))

  -- A response is accepted exactly if neither the node nor the text of its address before the first
  -- colon (which is not the address where that is IPv6) is on the quarantine list, if there is one, the node has
  -- a challenge that is at most 30 seconds old, it signs the nonce under a valid key, and it
  -- returns this service's alignment token.
  pub complete_handshake-ok_iff :
      ((complete_handshake host s req env).0 ≡ ok (accepted s))
      ↔ ((c : PendingChallenge) × Accepts host s req env c)
  complete_handshake-ok_iff = (complete-ok→Accepts, λ p. Accepts→complete-ok p.0 p.1)

  -- Whatever the reply, a response that gets past the quarantine check uses the challenge up.
  pub complete_handshake_takes :
      quarantine_check s.quarantine_manager req.node_id (remote_address env) ≡ none
      → (complete_handshake host s req env).1.pending_challenges
        ≡ HashMap.remove req.node_id s.pending_challenges
  unfolding complete_handshake compute_alignment_token
  complete_handshake_takes q =
      rw (q, receive) (by_challenge (HashMap.get req.node_id s.pending_challenges))
    where
      by_token :
          (c : PendingChallenge) (r : Read)
          → (check_token (taken s req.node_id) req c env r).1.pending_challenges
            ≡ HashMap.remove req.node_id s.pending_challenges
      by_token c (failed e) = refl
      by_token c (content t) = ground arith

      by_challenge :
          (o : Option PendingChallenge)
          → (check_challenge host (taken s req.node_id) req env o).1.pending_challenges
            ≡ HashMap.remove req.node_id s.pending_challenges
      by_challenge none = refl
      by_challenge (some c) =
          ground (arith, by_token c (compute_alignment_token host (taken s req.node_id)))

missing_challenge :
    (host : Host) (s : Service) (req : HandshakeResponse) (env : Env)
    → quarantine_check s.quarantine_manager req.node_id (remote_address env) ≡ none
    → HashMap.get req.node_id s.pending_challenges ≡ none
    → (complete_handshake host s req env).0 ≡ err (failed_precondition "No pending challenge found")
unfolding complete_handshake
missing_challenge host s req env q e = rw (q, receive) (rw (e, check_challenge))

-- A challenge is good for one response: once a node's response got past the quarantine check, be
-- it accepted or refused, a second one of the node without a new challenge, if it gets past the
-- check too, is answered with "No pending challenge found".
pub complete_handshake_once :
    (host : Host) (s s' : Service) (req req' : HandshakeResponse) (env env' : Env)
    → quarantine_check s.quarantine_manager req.node_id (remote_address env) ≡ none
    → req'.node_id ≡ req.node_id
    → (complete_handshake host s req env).1 ≡ s'
    → quarantine_check s'.quarantine_manager req'.node_id (remote_address env') ≡ none
    → (complete_handshake host s' req' env').0
      ≡ err (failed_precondition "No pending challenge found")
complete_handshake_once host s s' req req' env env' q same e q' =
    missing_challenge host s' req' env' q' (
      rw (same, ap (λ t. t.pending_challenges) (sym e) ∙ complete_handshake_takes host s req env q)
        (rw get-remove (simp eq_refl)))
