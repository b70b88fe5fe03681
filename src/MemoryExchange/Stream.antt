-- ===== src/MemoryExchange/Stream.antt =====
-- network/memory_exchange.rs: the redaction of a fragment and the stream of fragments to a peer. Byte
-- and redaction totals are taken below 2^64. The scrubber script, the Rust filter, and
-- the printing of identifiers are parameters. The task that streams the fragments is a function of
-- the points found and of which sends the receiver accepts.
use Prim.Native.String.{len}
use pagi_digital_twin.Base.{
  ℕ, suc, ◌+◌, ◌-◌, String, Bool, ◌&&◌, List, [], ◌∷◌, Option, none, some, unwrap_or, ltb, leb,
  length, if◌then◌else◌,
}
use pagi_digital_twin.Base.HashMap
use pagi_digital_twin.Base.HashMap.{HashMap}
use pagi_digital_twin.Base.Float.{F64}
use pagi_digital_twin.Bus.{memory_transfer, Events, Stamps}
use pagi_digital_twin.Quarantine.{Payload, get_str}
use pagi_digital_twin.Handshake.{Reply, ok, err, permission_denied}
use pagi_digital_twin.MemoryExchange.{Service, TopicFrequency, verify_alignment_token}

-- What the scrubber's process gives: it does not run, exits with an error, prints what is not JSON,
-- or prints an object with or without the two members.
pub data Scrubbed : Type 0 where
  not_run failed_exit not_json : Scrubbed
  json : (clean_text : Option String) (redaction_count : Option ℕ) → Scrubbed

pub record Scrubber : Type 0 where
  pub script_exists : Bool
  pub temp_written : Bool
  pub run : String → Scrubbed
  pub scrub_playbook : String → String  -- `PrivacyFilter::scrub_playbook`

-- `none` is the error that the caller turns into the Rust filter.
unfoldable pub read_scrubbed : Scrubber → String → Scrubbed → Option (String × ℕ)
read_scrubbed sc text not_run = none
read_scrubbed sc text failed_exit = some (sc.scrub_playbook text, 0)
read_scrubbed sc text not_json = some (sc.scrub_playbook text, 0)
read_scrubbed sc text (json clean_text redaction_count) =
    some (unwrap_or clean_text text, unwrap_or redaction_count 0)

unfoldable pub scrub_with_ferrellgas_scrubber : Scrubber → String → Option (String × ℕ)
scrub_with_ferrellgas_scrubber sc text =
    if sc.script_exists
    then (if sc.temp_written then read_scrubbed sc text (sc.run text) else none)
    else some (sc.scrub_playbook text, 0)

-- With the fallback of the stream.
unfoldable pub scrub : Scrubber → String → String × ℕ
scrub sc text = unwrap_or (scrub_with_ferrellgas_scrubber sc text) (sc.scrub_playbook text, 0)

-- `id` is printed; `vector` is `none` for every other kind of vectors.
pub record ScoredPoint : Type 0 where
  pub id : Option String
  pub vector : Option (List F64)
  pub payload : Payload
  pub score : F64

pub record ExchangeMemoryResponse : Type 0 where
  pub memory_id : String
  pub vector : List F64
  pub redacted_content : String
  pub memory_type : String
  pub timestamp : String
  pub similarity_score : F64
  pub is_complete : Bool

pub record ExchangeMemoryRequest : Type 0 where
  pub requesting_node_id : String
  pub topic : String
  pub namespace : String
  pub top_k : ℕ  -- an `i32`, negative ones as 0: both are raised to 1
  pub alignment_token : String

pub record Totals : Type 0 where
  pub redacted_count : ℕ
  pub bytes : ℕ
  pub fragment_count : ℕ

abbrev pub no_totals : Totals
no_totals = record { redacted_count = 0; bytes = 0; fragment_count = 0 }

abbrev pub text_of : ScoredPoint → String → String
text_of point key = unwrap_or (get_str point.payload key) ""

unfoldable pub response : Scrubber → ScoredPoint → Bool → ExchangeMemoryResponse
response sc point is_complete = record {
  memory_id = unwrap_or point.id "";
  vector = unwrap_or point.vector [];
  redacted_content = (scrub sc (text_of point "content")).0;
  memory_type = text_of point "memory_type";
  timestamp = text_of point "timestamp";
  similarity_score = point.score;
  is_complete = is_complete;
}

unfoldable pub add_totals : Scrubber → ScoredPoint → Totals → Totals
add_totals sc point t = record {
  redacted_count = t.redacted_count + (scrub sc (text_of point "content")).1;
  bytes = t.bytes + len (scrub sc (text_of point "content")).0;
  fragment_count = suc t.fragment_count;
}

abbrev pub equal : ℕ → ℕ → Bool
equal a b = leb a b && leb b a

-- The loop from the point at `idx` of `total`: the responses delivered and the totals.
unfoldable pub transfer :
    Scrubber → (ℕ → Bool) → ℕ → ℕ → List ScoredPoint → Totals → List ExchangeMemoryResponse × Totals
transfer sc accepts total idx [] t = ([], t)
transfer sc accepts total idx (point ∷ points) t =
    let rest = transfer sc accepts total (suc idx) points (add_totals sc point t) in
    if accepts idx
    then (response sc point (equal idx (total - 1)) ∷ rest.0, rest.1)
    else ([], add_totals sc point t)

abbrev pub touch : ℕ → Option TopicFrequency → TopicFrequency
touch time none = record { count = 1; last_accessed = time }
touch time (some freq) = record { count = suc freq.count; last_accessed = time }

-- After the loop: the counts and the event.
unfoldable pub record_transfer : Service → String → String → ℕ → Stamps → Totals → Service × Events
record_transfer s destination topic time now t =
    if ltb 0 t.fragment_count
    then (
      record s {
        topic_frequencies =
            HashMap.insert topic (touch time (HashMap.get topic s.topic_frequencies))
              s.topic_frequencies;
        node_volumes =
            HashMap.insert s.node_id
              (unwrap_or (HashMap.get s.node_id s.node_volumes) 0 + t.fragment_count)
              s.node_volumes;
      },
      memory_transfer s.node_id destination topic t.fragment_count t.bytes t.redacted_count (now 0)
          ∷ [],
    )
    else (s, [])

-- The spawned task: what is delivered, the service afterwards and the events.
unfoldable pub stream_vectors :
    Scrubber
    → (ℕ → Bool)
    → Service
    → String
    → String
    → ℕ
    → Stamps
    → List ScoredPoint
    → List ExchangeMemoryResponse × Service × Events
stream_vectors sc accepts s destination topic time now points =
    let done = transfer sc accepts (length points) 0 points no_totals in
    (let recorded = record_transfer s destination topic time now done.1 in
      (done.0, recorded.0, recorded.1))

-- No collection is searched yet.
unfoldable pub search_and_redact : String → String → ℕ → List ScoredPoint
search_and_redact topic namespace top_k = []

abbrev clamp : ℕ → ℕ
clamp top_k = if ltb 100 top_k then 100 else if leb top_k 0 then 1 else top_k

-- The reply carries what the stream delivers.
unfoldable pub exchange_memory :
    Scrubber
    → (ℕ → Bool)
    → Service
    → ExchangeMemoryRequest
    → ℕ
    → Stamps
    → Reply (List ExchangeMemoryResponse) × Service × Events
exchange_memory sc accepts s req time now =
    if verify_alignment_token s req.requesting_node_id req.alignment_token
    then (let done =
          stream_vectors sc accepts s req.requesting_node_id req.topic time now
            (search_and_redact req.topic req.namespace (clamp req.top_k)) in
        (ok done.0, done.1, done.2))
    else (err (permission_denied "Alignment token verification failed"), s, [])
