-- ===== src/Tests/Data.antt =====
-- The host, the arithmetic, the node and the clock of the runs.
use pagi_digital_twin.Base.{
  ◌-◌, [], Option, none, some, ℕ, ◌+◌, ◌*◌, ◌/◌, Bool, true, false, not, ◌&&◌, List, ◌∷◌, ◌==◌, ltb,
  leb, if◌then◌else◌,
}
use pagi_digital_twin.Base.Float.{Float, F64, bits}
use pagi_digital_twin.Host.{Host, content, ◌<>◌}
use pagi_digital_twin.Quarantine.{QuarantineManager}
use pagi_digital_twin.Handshake.{Service}
use pagi_digital_twin.Bus.{Stamps}

abbrev pub clock : Stamps
clock i = "2025-01-01T00:00:00Z"

abbrev same_first : List ℕ → List ℕ → Bool
same_first (a ∷ as') (b ∷ bs) = leb a b && leb b a
same_first _ _ = false

-- Every file but the knowledge base is there; a signature is valid if it starts as the key does.
abbrev pub host : Host
host = record {
  exists = λ p. not (p == "kb.md");
  read = λ p. content ("<" <> p <> ">");
  join = λ a b. a <> "/" <> b;
  sha256_hex = λ s. "sha256:" <> s;
  valid_key = λ k. true;
  valid_signature = λ k. true;
  verify = λ key nonce signature. same_first key signature;
  show_f64 = λ x. "f64";
  show_f64_2 = λ x. "f64.00";
}

-- A quotient below one is 0 here, and every other is rounded down: exact where IEEE 754 is.
abbrev quotient : ℕ → ℕ → ℕ
quotient a b = if leb a b then if leb b a then 1 else 0 else a / b

abbrev value : F64 → ℕ
value (bits n) = n

abbrev pub float : Float
float = record {
  lit = bits;
  add = λ a b. bits (value a + value b);
  mul = λ a b. bits (value a * value b);
  div = λ a b. bits (quotient (value a) (value b));
  ge = λ a b. leb (value b) (value a);
  lt = λ a b. ltb (value a) (value b);
  sub = λ a b. bits (value a - value b);
  max = λ a b. if leb (value a) (value b) then b else a;
  to_usize = value;
}

-- The service, with or without a quarantine manager.
abbrev pub service : Option QuarantineManager → Service
service q = record {
  node_id = "blue";
  system_prompt_path = "prompt.txt";
  leadership_kb_path = some "kb.md";
  manifest_path = some "manifest.yaml";
  software_version = "0.1.0";
  guardrail_version = "v1";
  pending_challenges = [];
  verified_peers = [];
  quarantine_manager = q;
  immune_response = none;
}
