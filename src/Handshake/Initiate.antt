-- ===== src/Handshake/Initiate.antt =====
-- network/handshake.rs: `initiate_handshake`, the quarantine check at the head of both handlers, and
-- a whole handshake.
use pagi_digital_twin.Base.{
  ◌||◌, ◌==◌, ap, false, Bool, ◌∙◌, Bool-cases, String, true, ◌≡◌, refl, [], Option, none, some,
  arith, if◌then◌else◌, eq_refl, inl, inr,
}
use pagi_digital_twin.Base.HashMap
use pagi_digital_twin.Base.HashMap.{get-insert_self, HashMap, get-insert, get-remove}
use pagi_digital_twin.Host.{Host, Read, content, failed}
use pagi_digital_twin.Bus.{Stamps}
use pagi_digital_twin.Quarantine.{QuarantineManager, quarantine_node, is_quarantined}
use pagi_digital_twin.Quarantine.Lookup.{quarantine_node-lookups}
use pagi_digital_twin.Handshake.{
  is_ip_quarantined, before_colon, Status, permission_denied, ok, err, HandshakeRequest,
  HandshakeChallenge, HandshakeResponse, PendingChallenge, pending, PeerNode, Service, Env,
  compute_alignment_token, compute_manifest_hash, remote_address, quarantine_check,
}
use pagi_digital_twin.Handshake.Handlers.{
  mismatch, issue, check_manifest, admit, initiate_handshake, complete_handshake, receive,
}

-- A node that the service's manager has just quarantined gets neither a challenge nor an
-- acceptance: both calls are denied, change nothing and publish nothing.
pub handshake_of_quarantined :
    (host : Host) (s : Service) (m : QuarantineManager) (node_id : String) (ip : Option String)
    (reason by : String) (now : Stamps) (req : HandshakeRequest) (res : HandshakeResponse)
    (env : Env)
    → s.quarantine_manager ≡ some (quarantine_node m node_id ip reason by now).0
    → req.node_id ≡ node_id
    → res.node_id ≡ node_id
    → (initiate_handshake host s req env ≡ (err (permission_denied "Node is quarantined"), s, []))
      × (complete_handshake host s res env ≡ (err (permission_denied "Node is quarantined"), s, []))
unfolding initiate_handshake complete_handshake quarantine_check
handshake_of_quarantined host s m node_id ip reason by now req res env e same same' =
    let hit = (quarantine_node-lookups m node_id ip reason by now node_id "").0 in
    let known : is_quarantined (quarantine_node m node_id ip reason by now).0 node_id ≡ true =
      rw hit (simp eq_refl) in
    (
      rw (e, same, quarantine_check) (rw (known, admit)),
      rw (e, same', quarantine_check) (rw (known, receive)),
    )

abbrev pub recorded : HandshakeRequest → Env → HandshakeChallenge → PendingChallenge
recorded req env ch = record {
  nonce = ch.nonce;
  timestamp = env.secs;
  node_id = req.node_id;
  software_version = req.software_version;
  manifest_hash = req.manifest_hash;
}

abbrev pub pending_peer : HandshakeRequest → Env → PeerNode
pending_peer req env = record {
  node_id = req.node_id;
  software_version = req.software_version;
  manifest_hash = req.manifest_hash;
  remote_address = remote_address env;
  status = pending;
  last_seen = env.now 0;
}

-- What a challenge that was given out shows, of the service before and after.
pub record Issued (host : Host) (s s' : Service) (req : HandshakeRequest) (env : Env)
    (ch : HandshakeChallenge) : Type 0 where
  pub not_quarantined :
      quarantine_check s'.quarantine_manager req.node_id (remote_address env) ≡ none
  pub kept : HashMap.get req.node_id s'.pending_challenges ≡ some (recorded req env ch)
  pub listed : HashMap.get req.node_id s'.verified_peers ≡ some (pending_peer req env)
  pub aligned : compute_alignment_token host s' ≡ content ch.alignment_token

module _ (host : Host) (s : Service) (req : HandshakeRequest) (env : Env) where
  issue-Issued :
      (r : Read) {ch : HandshakeChallenge}
      → compute_alignment_token host s ≡ r
      → quarantine_check s.quarantine_manager req.node_id (remote_address env) ≡ none
      → (issue s req env r).0 ≡ ok ch
      → Issued host s (issue s req env r).1 req env ch
  unfolding issue compute_alignment_token
  issue-Issued (failed e) t q h = cc
  issue-Issued (content t) {ch} t' q h = record {
    not_quarantined = q;
    kept = rw get-insert_self (ground arith);
    listed = rw get-insert_self;
    aligned = t' ∙ ground arith;
  }

  check_manifest-Issued :
      (r : Read) {ch : HandshakeChallenge}
      → quarantine_check s.quarantine_manager req.node_id (remote_address env) ≡ none
      → (check_manifest host s req env r).0 ≡ ok ch
      → Issued host s (check_manifest host s req env r).1 req env ch
  unfolding check_manifest
  check_manifest-Issued (failed e) q h = cc
  check_manifest-Issued (content expected) {ch} q h =
      elim (Bool-cases (mismatch expected req.manifest_hash)) [
        | inl bad ↦ absurd (refused bad)
        | inr good ↦
            rw (good, if◌then◌else◌)
              (issue-Issued (compute_alignment_token host s) refl q (rw (good, if◌then◌else◌) at h))
      ]
    where
      refused : mismatch expected req.manifest_hash ≡ true → ⊥
      refused bad = ground arith

  -- A challenge is given out only to a node that is not quarantined; it is on file with the nonce and
  -- the time, the peer is listed as pending, and it carries the service's alignment token.
  pub initiate_handshake-Issued :
      {ch : HandshakeChallenge}
      → (initiate_handshake host s req env).0 ≡ ok ch
      → Issued host s (initiate_handshake host s req env).1 req env ch
  unfolding initiate_handshake
  initiate_handshake-Issued {ch} h =
      by_check (quarantine_check s.quarantine_manager req.node_id (remote_address env)) refl h
    where
      by_check :
          (q : Option Status)
          → quarantine_check s.quarantine_manager req.node_id (remote_address env) ≡ q
          → (admit host s req env q).0 ≡ ok ch
          → Issued host s (admit host s req env q).1 req env ch
      by_check (some r) e k = cc
      by_check none e k = check_manifest-Issued (compute_manifest_hash host s) e k

-- The text has a colon, as every IPv6 address does.
abbrev pub has_colon : String → Bool
has_colon String.[] = false
has_colon (String.◌∷◌ c rest) = String.◌∷◌ c "" == ":" || has_colon rest

before_colon-has_colon : (address : String) → has_colon (before_colon address) ≡ false
unfolding before_colon
before_colon-has_colon String.[] = refl
before_colon-has_colon (String.◌∷◌ c rest) = elim (Bool-cases (String.◌∷◌ c "" == ":")) [
  | inl colon ↦ rw (colon, if◌then◌else◌)
  | inr other ↦ rw (other, if◌then◌else◌) (rw (other, before_colon-has_colon rest))
]

-- When the one quarantined address has a colon in it, as any IPv6 address does, a node that is not
-- quarantined itself is stopped at no address.
pub quarantine_check_colon :
    (qm : QuarantineManager) (node_id address ip : String)
    → has_colon ip ≡ true
    → is_quarantined qm node_id ≡ false
    → ((a : String) → is_ip_quarantined qm a ≡ true → a ≡ ip)
    → quarantine_check (some qm) node_id address ≡ none
unfolding quarantine_check
quarantine_check_colon qm node_id address ip colon free only =
    elim (Bool-cases (is_ip_quarantined qm (before_colon address))) [
      | inl hit ↦ absurd (
          cc
            (colon, before_colon-has_colon address, ap has_colon (only (before_colon address) hit)))
      | inr miss ↦ rw (free, miss)
    ]
