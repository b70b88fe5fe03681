-- ===== src/DomainRouter/Query.antt =====
-- knowledge/domain_router.rs: the domains of a query, and the grouping of the context by domain.
use pagi_digital_twin.Base.{
  String, Bool, true, false, ◌||◌, List, [], ◌∷◌, ◌++◌, any, not, ◌≡◌, refl, ap, ◌∙◌, arith,
}
use pagi_digital_twin.Base.Text.{trim}
use pagi_digital_twin.Host.{◌<>◌}
use pagi_digital_twin.DomainRouter.{
  KnowledgeDomain, mind, body, heart, soul, all_domains, speaks_of, matching,
  infer_domains_from_query, same_domain, contents_of, section, sections, synthesize_context,
}

abbrev pub among : KnowledgeDomain → List KnowledgeDomain → Bool
among d ds = any (same_domain d) ds

-- A query is routed to a domain when it speaks of it, or when it speaks of none of the four.
pub infer_domains_from_query_lem :
    (lower : String → String) (query : String) (d : KnowledgeDomain)
    → among d (infer_domains_from_query lower query)
      ≡ (speaks_of (lower query) d || not (any (speaks_of (lower query)) all_domains))
unfolding infer_domains_from_query matching
infer_domains_from_query_lem lower query mind = ground arith
infer_domains_from_query_lem lower query body = ground arith
infer_domains_from_query_lem lower query heart = ground arith
infer_domains_from_query_lem lower query soul = ground arith

same_domain-≡ : (d e : KnowledgeDomain) → same_domain d e ≡ true → d ≡ e
same_domain-≡ mind mind h = refl
same_domain-≡ body body h = refl
same_domain-≡ heart heart h = refl
same_domain-≡ soul soul h = refl
same_domain-≡ mind body h = ground arith
same_domain-≡ mind heart h = ground arith
same_domain-≡ mind soul h = ground arith
same_domain-≡ body mind h = ground arith
same_domain-≡ body heart h = ground arith
same_domain-≡ body soul h = ground arith
same_domain-≡ heart mind h = ground arith
same_domain-≡ heart body h = ground arith
same_domain-≡ heart soul h = ground arith
same_domain-≡ soul mind h = ground arith
same_domain-≡ soul body h = ground arith
same_domain-≡ soul heart h = ground arith

contents_of-swap :
    (f d e : KnowledgeDomain) (a b : String) (before after : List (KnowledgeDomain × String))
    → same_domain d e ≡ false
    → contents_of f (before ++ (d, a) ∷ (e, b) ∷ after)
      ≡ contents_of f (before ++ (e, b) ∷ (d, a) ∷ after)
unfolding contents_of
contents_of-swap f d e a b [] after apart = grind (arith, same_domain-≡ d f, same_domain-≡ e f)
contents_of-swap f d e a b ((g, c) ∷ before) after apart =
    ground (arith, contents_of-swap f d e a b before after apart)

sections_same :
    (rs ss : List (KnowledgeDomain × String)) (ds : List KnowledgeDomain)
    → ((f : KnowledgeDomain) → contents_of f rs ≡ contents_of f ss)
    → sections rs ds ≡ sections ss ds
unfolding sections
sections_same rs ss [] same = refl
sections_same rs ss (d ∷ ds) same =
    ap (λ cs. section d cs <> sections rs ds) (same d)
    ∙ ap (λ t. section d (contents_of d ss) <> t) (sections_same rs ss ds same)

-- The order in which the results of two different domains arrive does not change the context: two
-- neighbouring results of different domains can be swapped.
pub synthesize_context-swap :
    (d e : KnowledgeDomain) (a b : String) (before after : List (KnowledgeDomain × String))
    → same_domain d e ≡ false
    → synthesize_context (before ++ (d, a) ∷ (e, b) ∷ after)
      ≡ synthesize_context (before ++ (e, b) ∷ (d, a) ∷ after)
unfolding synthesize_context
synthesize_context-swap d e a b before after apart =
    ap trim (sections_same _ _ all_domains (λ f. contents_of-swap f d e a b before after apart))
