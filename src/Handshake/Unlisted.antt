-- ===== src/Handshake/Unlisted.antt =====
-- network/handshake.rs: the quarantine check lets through whom the two maps do not list.
use pagi_digital_twin.Base.{String, is_some, if◌then◌else◌, ◌≡◌, ◌↔◌, refl, Option, none, some}
use pagi_digital_twin.Base.HashMap
use pagi_digital_twin.Base.HashMap.{HashMap, get-insert, get-remove}
use pagi_digital_twin.Quarantine.{
  QuarantineManager, QuarantineEntry, is_quarantined, is_ip_quarantined,
}
use pagi_digital_twin.Handshake.{quarantine_check, before_colon, permission_denied}

-- Neither the node nor the text before the first colon of the address stands in the quarantine list.
abbrev pub Unlisted : Option QuarantineManager → String → String → Type 0
Unlisted none node_id address = Unit
Unlisted (some qm) node_id address =
    (HashMap.get node_id qm.quarantined_nodes ≡ none)
    × (HashMap.get (before_colon address) qm.quarantined_ips ≡ none)

pub quarantine_check_iff :
    (o : Option QuarantineManager) (node_id address : String)
    → (quarantine_check o node_id address ≡ none) ↔ Unlisted o node_id address
unfolding quarantine_check is_quarantined is_ip_quarantined
quarantine_check_iff none node_id address = (λ e. tt, λ u. refl)
quarantine_check_iff (some qm) node_id address = (
  λ e.
      by_entries (HashMap.get node_id qm.quarantined_nodes)
        (HashMap.get (before_colon address) qm.quarantined_ips) e,
  λ u. rw (u.0, u.1) refl,
)
  where
    by_entries :
        (n : Option QuarantineEntry) (i : Option String)
        → (if is_some n
            then some (permission_denied "Node is quarantined")
            else if is_some i
            then some (permission_denied "IP address is quarantined")
            else none)
          ≡ none
        → (n ≡ none) × (i ≡ none)
    by_entries none none e = (refl, refl)
    by_entries none (some a) e = cc
    by_entries (some a) i e = cc
