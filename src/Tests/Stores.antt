-- ===== src/Tests/Stores.antt =====
-- memory/vacuum.rs, tools/playbook_store.rs and knowledge/domain_router.rs at concrete points.
use pagi_digital_twin.Base.{
  ◌≤◌, String, true, ◌≡◌, refl, List, [], ◌∷◌, length, count_if, any, ◌==◌, none, some,
  if◌then◌else◌, arith,
}
use pagi_digital_twin.Base.HashMap
use pagi_digital_twin.Base.Results.{ok}
use pagi_digital_twin.Base.Int.{pos}
use pagi_digital_twin.Base.Float.{bits}
use pagi_digital_twin.Values.{string_value, integer_value, get_text}
use pagi_digital_twin.Vacuum.{
  Reading, PruningConfig, Point, Scrolls, broken, page, prune_collection, prune_pages, prune_page,
  after_delete, points_to_delete, is_old, should_preserve, importance_score,
}
use pagi_digital_twin.Vacuum.Pruning.{pages_read, Deletes, prune_collection-Deletes}
use pagi_digital_twin.PlaybookStore.{
  Playbook, Json, payload_of, point_to_playbook, insert_fields, fields, as_u32,
}
use pagi_digital_twin.PlaybookStore.Store.{
  ScoredPoint, Qdrant, Upsert, Rates, save_playbook, find_playbook, get_all_playbooks,
  read_payloads, read_points, choose_point, search_playbooks_by_tool, update_playbook_stats,
  updated_playbook,
}
use pagi_digital_twin.PlaybookStore.Payloads.{point_to_playbook-payload_of}
use pagi_digital_twin.PlaybookStore.Statistics.{update_playbook_stats-point_to_playbook}
use pagi_digital_twin.PlaybookStore.Duplicates.{save_playbook_twice}
use pagi_digital_twin.DomainRouter.{
  mind, body, heart, soul, get_namespaces, get_collections, get_namespaces_for_domains,
  get_collections_for_domains, synthesize_context,
}
use pagi_digital_twin.DomainRouter.Namespaces.{has, once, names_for_domains_once}
use pagi_digital_twin.DomainRouter.Query.{synthesize_context-swap}
use package.pagi_digital_twin.Tests.Data.{float}

abbrev reading : Reading
reading = record {
  parse_from_rfc3339 = λ s. some (pos 5);
  parse_f64 = λ s. none;
  of_int = λ i. bits 1;
}

abbrev config : PruningConfig
config = record {
  collections = "telemetry" ∷ [];
  cutoff_time = pos 10;
  importance_threshold = bits 0;
}

abbrev old : String → Point
old id = record { id = some id; payload = ("timestamp", some (string_value "t")) ∷ [] }

abbrev essential : Point
essential = record {
  id = some "kept";
  payload =
      ("timestamp", some (string_value "t"))
      ∷ ("importance_score", some (integer_value (pos 1)))
      ∷ ("status", some (string_value "essential"))
      ∷ [];
}

abbrev answers : Scrolls
answers = page (old "a" ∷ essential ∷ old "b" ∷ []) none (broken "gone")

pruned : (prune_collection float reading config answers).0 ≡ ok 2
unfolding prune_collection prune_pages prune_page after_delete points_to_delete is_old
    should_preserve importance_score get_text HashMap.get
pruned = refl

prune_collection-Deletes_example :
    Deletes float reading config
      (pages_read answers)
      (prune_collection float reading config answers).1
    × (2 ≡ length (prune_collection float reading config answers).1)
prune_collection-Deletes_example = prune_collection-Deletes float reading config 2 answers pruned

abbrev json : Json
json = record { to_string = λ m. some "{}"; from_str = λ s. some [] }

abbrev playbook : Playbook
playbook = record {
  id = "p1";
  tool_name = "ripgrep";
  repository = some "r";
  language = none;
  installation_command = "cargo install ripgrep";
  installation_type = "cargo";
  verification_command = none;
  environment_config = [];
  reliability_score = bits 1;
  success_count = 9;
  total_attempts = 9;
  verified_by_agent = none;
  verified_at = "t0";
  last_used_at = none;
  description = none;
  github_url = none;
}

point_to_playbook-payload_of_example :
    point_to_playbook float json (payload_of json playbook) ≡ some playbook
point_to_playbook-payload_of_example =
    point_to_playbook-payload_of float json playbook "{}" (omega arith) (omega arith) refl refl

abbrev rates : Rates
rates = record { cap = bits 99; raise = bits 1; decay = bits 5; min = λ a b. a }

abbrev qdrant : List ScoredPoint → Qdrant
qdrant found = record {
  ensure = ok tt;
  search = λ t l. ok found;
  scroll = λ l. ok (payload_of json playbook ∷ []);
  upsert = none;
}

all : get_all_playbooks float json (qdrant []) (some 1000) ≡ ok (playbook ∷ [])
unfolding get_all_playbooks read_payloads point_to_playbook payload_of insert_fields fields as_u32
    get_text HashMap.get HashMap.insert
all = refl

found : find_playbook "p1" (playbook ∷ []) ≡ some playbook
unfolding find_playbook
found = refl

abbrev written : Upsert
written = record {
  point_id = "u1";
  payload = payload_of json (updated_playbook float rates true "now" playbook);
}

writes : (update_playbook_stats float json rates (qdrant []) "p1" true "now" "u1").1 ≡ some written
unfolding update_playbook_stats save_playbook search_playbooks_by_tool read_points choose_point
    find_playbook
writes = rw all refl

update_playbook_stats-point_to_playbook_example :
    (p' : Playbook) × (point_to_playbook float json written.payload ≡ some p')
    × (p'.id ≡ "p1")
    × (p'.total_attempts ≡ 10)
    × (p'.success_count ≡ (if true then 10 else 9))
    × (p'.success_count ≤ p'.total_attempts)
update_playbook_stats-point_to_playbook_example =
    update_playbook_stats-point_to_playbook float json rates (qdrant []) "p1" true "now" "u1" "{}"
      (playbook ∷ []) playbook written all found (omega arith) (omega arith) refl refl writes

abbrev stored : ScoredPoint
stored = record { payload = payload_of json playbook; score = bits 1 }

save_playbook_twice_example :
    (save_playbook float json (qdrant []) playbook "u1"
      ≡ (ok tt, some (record { point_id = "u1"; payload = payload_of json playbook })))
    × (save_playbook float json (qdrant (stored ∷ [])) playbook "u2"
        ≡ (ok tt, some (record { point_id = "p1"; payload = payload_of json playbook })))
save_playbook_twice_example =
    save_playbook_twice float json (qdrant []) (qdrant (stored ∷ [])) playbook "u1" "u2" "{}"
      (bits 1) (omega arith) (omega arith) refl refl refl refl refl refl refl refl

names_for_domains_once_example :
    (count_if (λ n. n == "default") (get_namespaces_for_domains (mind ∷ soul ∷ mind ∷ []))
      ≡ once (any (λ d. has "default" (get_namespaces d)) (mind ∷ soul ∷ mind ∷ [])))
    × (count_if (λ n. n == "default") (get_collections_for_domains (mind ∷ soul ∷ mind ∷ []))
        ≡ once (any (λ d. has "default" (get_collections d)) (mind ∷ soul ∷ mind ∷ [])))
names_for_domains_once_example = names_for_domains_once (mind ∷ soul ∷ mind ∷ []) "default"

synthesize_context-swap_example :
    synthesize_context ((heart, "tea") ∷ (soul, "rule") ∷ (body, "cpu") ∷ (soul, "audit") ∷ [])
    ≡ synthesize_context ((heart, "tea") ∷ (body, "cpu") ∷ (soul, "rule") ∷ (soul, "audit") ∷ [])
synthesize_context-swap_example =
    synthesize_context-swap soul body "rule" "cpu" ((heart, "tea") ∷ []) ((soul, "audit") ∷ []) refl
