-- ===== src/DomainRouter/Namespaces.antt =====
-- knowledge/domain_router.rs: the names of several domains, without repetitions.
use pagi_digital_twin.Base.{
  ℕ, String, Bool, true, false, ◌||◌, List, [], ◌∷◌, ◌++◌, any, count_if, ◌≡◌, refl, ap, ◌∙◌, ◌==◌,
  if◌then◌else◌, arith, eq_iff,
}
use pagi_digital_twin.DomainRouter.{
  KnowledgeDomain, get_namespaces, get_collections, collect, retain_first,
  get_namespaces_for_domains, get_collections_for_domains,
}

abbrev pub has : String → List String → Bool
has name names = any (λ n. n == name) names

-- One if the name is there, and else none.
abbrev pub once : Bool → ℕ
once true = 1
once false = 0

has-append : (x : String) (ns ms : List String) → has x (ns ++ ms) ≡ (has x ns || has x ms)
has-append x [] ms = refl
has-append x (n ∷ ns) ms = ground (arith, has-append x ns ms)

has-collect :
    (x : String) (names : KnowledgeDomain → List String) (ds : List KnowledgeDomain)
    → has x (collect names ds) ≡ any (λ d. has x (names d)) ds
unfolding collect
has-collect x names [] = refl
has-collect x names (d ∷ ds) =
    has-append x (names d) (collect names ds)
    ∙ ap (λ b. has x (names d) || b) (has-collect x names ds)

has_same : (n x : String) (names : List String) → (n == x) ≡ true → has n names ≡ has x names
has_same n x names e = ap (λ y. has y names) ((eq_iff n x).0 e)

count_if-retain_first :
    (x : String) (seen ns : List String)
    → count_if (λ n. n == x) (retain_first seen ns) ≡ (if has x seen then 0 else once (has x ns))
unfolding retain_first
count_if-retain_first x seen [] = ground arith
count_if-retain_first x seen (n ∷ ns) = ground (
  arith,
  has_same n x seen,
  count_if-retain_first x seen ns,
  count_if-retain_first x (n ∷ seen) ns,
)

-- Every namespace that a domain of the list has is in the result once, whatever the repetitions, and
-- no other is in it; and so for the collections.
pub names_for_domains_once :
    (ds : List KnowledgeDomain) (x : String)
    → (count_if (λ n. n == x) (get_namespaces_for_domains ds)
        ≡ once (any (λ d. has x (get_namespaces d)) ds))
      × (count_if (λ n. n == x) (get_collections_for_domains ds)
          ≡ once (any (λ d. has x (get_collections d)) ds))
unfolding get_namespaces_for_domains get_collections_for_domains
names_for_domains_once ds x = (
  count_if-retain_first x [] (collect get_namespaces ds)
      ∙ ap once (has-collect x get_namespaces ds),
  count_if-retain_first x [] (collect get_collections ds)
      ∙ ap once (has-collect x get_collections ds),
)
