-- ===== src/DomainRouter.antt =====
-- backend-rust-orchestrator/src/knowledge/domain_router.rs: the four knowledge domains, what they map
-- to, the domains of a query, and the merged context. The two maps are filled once for every domain, so
-- they are functions. `to_lowercase` and the literals of the weights, in tenths, are parameters.
pub mod Namespaces
pub mod Query
use pagi_digital_twin.Base.{
  ℕ, String, Bool, true, false, ◌||◌, List, [], ◌∷◌, ◌++◌, any, is_some, Option, none, some, ◌==◌,
  if◌then◌else◌,
}
use pagi_digital_twin.Base.Float.{F64}
use pagi_digital_twin.Base.Text.{trim}
use pagi_digital_twin.Host.{◌<>◌}
use text.Mathlib.Text.{find?}

pub data KnowledgeDomain : Type 0 where
  mind body heart soul : KnowledgeDomain

abbrev pub all_domains : List KnowledgeDomain
all_domains = mind ∷ body ∷ heart ∷ soul ∷ []

abbrev pub display_name : KnowledgeDomain → String
display_name mind = "Mind"
display_name body = "Body"
display_name heart = "Heart"
display_name soul = "Soul"

abbrev pub ui_label : KnowledgeDomain → String
ui_label mind = "Intellectual"
ui_label body = "Physical"
ui_label heart = "Emotional"
ui_label soul = "Ethical"

abbrev pub get_namespaces : KnowledgeDomain → List String
get_namespaces mind = "system_config" ∷ "default" ∷ []
get_namespaces body = "incident_response" ∷ []
get_namespaces heart = "user_preferences" ∷ []
get_namespaces soul = "corporate_context" ∷ []

abbrev pub get_collections : KnowledgeDomain → List String
get_collections mind = "global_playbooks" ∷ []
get_collections body = "telemetry" ∷ "agent_logs" ∷ []
get_collections heart = "agent_identities" ∷ []
get_collections soul = "quarantine_list" ∷ []

unfoldable pub collect : (KnowledgeDomain → List String) → List KnowledgeDomain → List String
collect names [] = []
collect names (d ∷ ds) = names d ++ collect names ds

-- `retain(|ns| seen.insert(ns.clone()))`
unfoldable pub retain_first : (seen names : List String) → List String
retain_first seen [] = []
retain_first seen (n ∷ ns) =
    let kept = retain_first seen ns in
    let first = retain_first (n ∷ seen) ns in if any (λ s. s == n) seen then kept else n ∷ first

unfoldable pub get_namespaces_for_domains : List KnowledgeDomain → List String
get_namespaces_for_domains domains = retain_first [] (collect get_namespaces domains)

unfoldable pub get_collections_for_domains : List KnowledgeDomain → List String
get_collections_for_domains domains = retain_first [] (collect get_collections domains)

abbrev pub keywords : KnowledgeDomain → List String
keywords mind = "how" ∷ "procedure" ∷ "playbook" ∷ "tool" ∷ "spec" ∷ "technical" ∷ []
keywords body =
    "system" ∷ "hardware" ∷ "telemetry" ∷ "log" ∷ "state" ∷ "performance" ∷ "cpu" ∷ "memory" ∷ []
keywords heart = "user" ∷ "persona" ∷ "preference" ∷ "personal" ∷ "interaction" ∷ []
keywords soul =
    "safety" ∷ "ethics" ∷ "governance" ∷ "policy" ∷ "guardrail" ∷ "audit" ∷ "compliance" ∷ "risk"
    ∷ "security" ∷ "danger" ∷ "threat" ∷ "breach" ∷ "vulnerability" ∷ "attack" ∷ []

-- The query, in lower case, contains a keyword of the domain.
unfoldable pub speaks_of : String → KnowledgeDomain → Bool
speaks_of query_lower d = any (λ k. is_some (find? query_lower k)) (keywords d)

unfoldable pub matching : String → List KnowledgeDomain → List KnowledgeDomain
matching query_lower [] = []
matching query_lower (d ∷ ds) =
    if speaks_of query_lower d then d ∷ matching query_lower ds else matching query_lower ds

abbrev pub or_all : List KnowledgeDomain → List KnowledgeDomain
or_all [] = all_domains
or_all (d ∷ ds) = d ∷ ds

unfoldable pub infer_domains_from_query : (lower : String → String) → String → List KnowledgeDomain
infer_domains_from_query lower query = or_all (matching (lower query) all_domains)

abbrev pub same_domain : KnowledgeDomain → KnowledgeDomain → Bool
same_domain mind mind = true
same_domain body body = true
same_domain heart heart = true
same_domain soul soul = true
same_domain _ _ = false

abbrev domain_label : KnowledgeDomain → String
domain_label mind = "### Mind (Intellectual) ###"
domain_label body = "### Body (Physical) ###"
domain_label heart = "### Heart (Emotional) ###"
domain_label soul = "### Soul (Ethical) ###"

abbrev label_content : KnowledgeDomain → String → String
label_content d content = domain_label d <> ("\n" <> content)

-- The contents of one domain, in order.
unfoldable pub contents_of : KnowledgeDomain → List (KnowledgeDomain × String) → List String
contents_of d [] = []
contents_of d ((e, content) ∷ results) =
    if same_domain e d then content ∷ contents_of d results else contents_of d results

abbrev join_contents : List String → String
join_contents [] = ""
join_contents (c ∷ []) = c
join_contents (c ∷ next ∷ cs) = c <> ("\n\n" <> join_contents (next ∷ cs))

-- A domain without a result has no section.
abbrev section : KnowledgeDomain → List String → String
section d [] = ""
section d (c ∷ cs) = label_content d (join_contents (c ∷ cs)) <> "\n\n"

unfoldable pub sections : List (KnowledgeDomain × String) → List KnowledgeDomain → String
sections results [] = ""
sections results (d ∷ ds) = section d (contents_of d results) <> sections results ds

unfoldable pub synthesize_context : List (KnowledgeDomain × String) → String
synthesize_context results = trim (sections results all_domains)

abbrev pub Weights : Type 0
Weights = KnowledgeDomain → F64

abbrev weigh : (tenths : ℕ → F64) → (m b h s : ℕ) → Weights
weigh tenths m b h s mind = tenths m
weigh tenths m b h s body = tenths b
weigh tenths m b h s heart = tenths h
weigh tenths m b h s soul = tenths s

abbrev contains : String → String → Bool
contains text part = is_some (find? text part)

-- A later persona of the name overrides an earlier one.
unfoldable pub weights_of_name : (tenths : ℕ → F64) → (name_lower : String) → Weights
weights_of_name tenths name =
    if contains name "speedster"
    then weigh tenths 13 15 7 8
    else if contains name "architect"
    then weigh tenths 15 9 8 12
    else if contains name "skeptic"
    then weigh tenths 8 13 7 15
    else weigh tenths 10 10 10 10

unfoldable pub get_persona_domain_weights :
    (tenths : ℕ → F64) → (lower : String → String) → Option String → Weights
get_persona_domain_weights tenths lower none = weigh tenths 10 10 10 10
get_persona_domain_weights tenths lower (some name) = weights_of_name tenths (lower name)
