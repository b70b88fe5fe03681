-- ===== src/Pathfinding/Hops.antt =====
-- api/knowledge_pathfinding.rs: the metadata of a hop comes from an edge of the input, and a number of
-- a node names it.
use pagi_digital_twin.Base.{
  ℕ, zero, suc, ◌+◌, ◌≤◌, String, Bool, true, false, List, [], ◌∷◌, Option, some, none, ◌≡◌, refl,
  ap, ◌∙◌, sym, ◌⊎◌, inl, inr, if◌then◌else◌, arith, eq_iff,
}
use pagi_digital_twin.Base.HashMap
use pagi_digital_twin.Base.HashMap.{HashMap, get-insert}
use pagi_digital_twin.Base.Float.{Float}
use pagi_digital_twin.Pathfinding.{
  EdgeInput, EdgeMeta, Scores, Metas, Ords, meta_of, number_nodes, eq_ord, eq_ords, lookup, cheaper,
  add_meta, add_known, add_edge, edge_meta, place, sort_metas, name_of,
}

lookup-place :
    (j k : Ords) (m : EdgeMeta) (ms : Metas)
    → lookup k (place (j, m) ms) ≡ (if eq_ords j k then some m else lookup k ms)
unfolding lookup place
lookup-place j k m [] = refl
lookup-place j k m ((i, w) ∷ ms) = grind (arith, lookup-place j k m ms)

pub lookup-sort_metas : (k : Ords) (ms : Metas) → lookup k (sort_metas ms) ≡ lookup k ms
unfolding lookup sort_metas
lookup-sort_metas k [] = refl
lookup-sort_metas k ((j, m) ∷ ms) =
    ground (arith, lookup-place j k m (sort_metas ms), lookup-sort_metas k ms)

eq_ords-≡ : (i j : Ords) → eq_ords i j ≡ true → i ≡ j
eq_ords-≡ (x, y) (z, w) h = ground arith

-- What an entry met by an update shows, for any tests and metadata.
entry_read :
    (p q r : Bool) (c new w m : EdgeMeta) (rest more : Option EdgeMeta)
    → (p ≡ true → q ≡ r)
    → (c ≡ new) ⊎ (c ≡ w)
    → (more ≡ some m → ((r ≡ true) × (m ≡ new)) ⊎ (rest ≡ some m))
    → (if p then (if q then some c else rest) else (if q then some w else more)) ≡ some m
    → ((r ≡ true) × (m ≡ new)) ⊎ ((if q then some w else rest) ≡ some m)
entry_read true true r c new w m rest more same picked later h = grind (arith, same refl)
entry_read true false r c new w m rest more same picked later h = inr h
entry_read false true r c new w m rest more same picked later h = inr h
entry_read false false r c new w m rest more same picked later h = later h

lookup-if :
    (k : Ords) (p : Bool) (ms more : Metas)
    → lookup k (if p then ms else more) ≡ (if p then lookup k ms else lookup k more)
lookup-if k true ms more = refl
lookup-if k false ms more = refl

module _ (fl : Float) (sc : Scores) where
  cheaper_picks : (new w : EdgeMeta) → (cheaper fl sc new w ≡ new) ⊎ (cheaper fl sc new w ≡ w)
  cheaper_picks new w = ground arith

  lookup-add_meta :
      (j k : Ords) (new m : EdgeMeta) (ms : Metas)
      → lookup k (add_meta fl sc j new ms) ≡ some m
      → ((eq_ords j k ≡ true) × (m ≡ new)) ⊎ (lookup k ms ≡ some m)
  unfolding lookup add_meta
  lookup-add_meta j k new m [] h = ground arith
  lookup-add_meta j k new m ((i, w) ∷ ms) h =
      entry_read (eq_ords i j) (eq_ords i k) (eq_ords j k) (cheaper fl sc new w) new w m
        (lookup k ms) (lookup k (add_meta fl sc j new ms))
        (λ e. ap (λ x. eq_ords x k) (eq_ords-≡ i j e)) (cheaper_picks new w)
        (lookup-add_meta j k new m ms) (sym (lookup-if k (eq_ords i j) _ _) ∙ h)

  lookup-add_known :
      (a b : Option ℕ) (new m : EdgeMeta) (u v : ℕ) (ms : Metas)
      → lookup (u, v) (add_known fl sc a b new ms) ≡ some m
      → ((a ≡ some u) × (b ≡ some v) × (m ≡ new)) ⊎ (lookup (u, v) ms ≡ some m)
  lookup-add_known (some x) (some y) new m u v ms h =
      grind (arith, lookup-add_meta (x, y) (u, v) new m ms h)
  lookup-add_known (some x) none new m u v ms h = inr h
  lookup-add_known none b new m u v ms h = inr h

  module _ (node_ord : HashMap ℕ) where
    -- The edge joins the two numbers, and the metadata is that of its score.
    pub record IsOf (e : EdgeInput) (u v : ℕ) (m : EdgeMeta) : Type 0 where
      pub source : HashMap.get e.source_id node_ord ≡ some u
      pub target : HashMap.get e.target_id node_ord ≡ some v
      pub measured : m ≡ meta_of fl sc e.cross_encoder_score

    abbrev pub From : List EdgeInput → ℕ → ℕ → EdgeMeta → Type 0
    From [] u v m = false ≡ true
    From (e ∷ es) u v m = IsOf e u v m ⊎ From es u v m

    lookup-add_edge :
        (e : EdgeInput) (u v : ℕ) (m : EdgeMeta) (ms : Metas)
        → lookup (u, v) (add_edge fl sc node_ord e ms) ≡ some m
        → IsOf e u v m ⊎ (lookup (u, v) ms ≡ some m)
    unfolding add_edge
    lookup-add_edge e u v m ms h =
        elim (lookup-add_known (HashMap.get e.source_id node_ord) (HashMap.get e.target_id node_ord)
          (meta_of fl sc e.cross_encoder_score) m u v ms h) [
            | inl (a, b, c) ↦ inl (record { source = a; target = b; measured = c })
            | inr k ↦ inr k
          ]

    pub lookup-edge_meta :
        (es : List EdgeInput) (u v : ℕ) (m : EdgeMeta) (ms : Metas)
        → lookup (u, v) (edge_meta fl sc node_ord es ms) ≡ some m
        → From es u v m ⊎ (lookup (u, v) ms ≡ some m)
    unfolding edge_meta
    lookup-edge_meta [] u v m ms h = inr h
    lookup-edge_meta (e ∷ es) u v m ms h =
        elim (lookup-edge_meta es u v m (add_edge fl sc node_ord e ms) h) [
          | inl f ↦ inl (inr f)
          | inr g ↦ elim (lookup-add_edge e u v m ms g) [ inl o ↦ inl (inl o) | inr k ↦ inr k ]
        ]

-- The names numbered from `i`.
unfoldable name_from : ℕ → List String → ℕ → Option String
name_from i [] u = none
name_from i (id ∷ ids) u = if eq_ord i u then some id else name_from (suc i) ids u

name_from_after :
    (i : ℕ) (ids : List String) (u : ℕ) (id : String) → name_from i ids u ≡ some id → i ≤ u
unfolding name_from
name_from_after i [] u id h = ground arith
name_from_after i (x ∷ ids) u id h = grind (arith, name_from_after (suc i) ids u id)

name_from-name_of : (i k : ℕ) (ids : List String) → name_from i ids (i + k) ≡ name_of ids k
unfolding name_from name_of
name_from-name_of i k [] = refl
name_from-name_of i zero (x ∷ ids) = ground arith
name_from-name_of i (suc k) (x ∷ ids) = grind (arith, name_from-name_of (suc i) k ids)

name_from-number_nodes :
    (i : ℕ) (ids : List String) (node_ord : HashMap ℕ) (id : String) (u : ℕ)
    → HashMap.get id (number_nodes i ids node_ord) ≡ some u
    → (name_from i ids u ≡ some id) ⊎ (HashMap.get id node_ord ≡ some u)
unfolding number_nodes name_from
name_from-number_nodes i [] node_ord id u h = inr h
name_from-number_nodes i (x ∷ ids) node_ord id u h = grind (
  arith,
  eq_iff x id,
  get-insert x id i node_ord,
  name_from_after (suc i) ids u id,
  name_from-number_nodes (suc i) ids (HashMap.insert x i node_ord) id u,
)

pub name_of-number_nodes :
    (nodes : List String) (id : String) (u : ℕ)
    → HashMap.get id (number_nodes 0 nodes []) ≡ some u
    → name_of nodes u ≡ some id
unfolding HashMap.get
name_of-number_nodes nodes id u h =
    grind (arith, name_from-name_of 0 u nodes, name_from-number_nodes 0 nodes [] id u)
