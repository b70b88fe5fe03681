-- ===== src/Pathfinding/Paths.antt =====
-- api/knowledge_pathfinding.rs: what a path that is found consists of.
use pagi_digital_twin.Base.{
  ◌+◌, ℕ, suc, ◌≤◌, String, Bool, true, false, ◌&&◌, List, [], ◌∷◌, Option, some, none, is_some,
  length, ◌≡◌, refl, ap, ◌∙◌, sym, subst, ◌⊎◌, inl, inr, arith,
}
use pagi_digital_twin.Base.HashMap
use pagi_digital_twin.Base.HashMap.{HashMap}
use pagi_digital_twin.Base.Float.{Float}
use pagi_digital_twin.Pathfinding.{
  EdgeInput, PathEdge, EdgeMeta, Scores, Metas, sanitize_score, score_to_weight, meta_of, eq_ord,
  lookup, name_of, or_default, cons_name, names_of, cons_edge, edges_of,
}
use pagi_digital_twin.Pathfinding.Layers.{is_route}
use pagi_digital_twin.Pathfinding.Hops.{From}

pub no_case : false ≡ true → ⊥
no_case h = ground arith

pub at_most : (d k n : ℕ) → d + k ≤ n → k ≤ n
at_most d k n h = ground arith

pub both_true : (p q : Bool) → (p && q) ≡ true → (p ≡ true) × (q ≡ true)
both_true p q h = ground arith

module _ (fl : Float) (sc : Scores) where
  -- An edge of the input joins the two names, and its score, made a number from 0 to 1, is the hop's.
  abbrev pub HopOf : List EdgeInput → PathEdge → Type 0
  HopOf [] p = false ≡ true
  HopOf (e ∷ es) p =
      ((e.source_id ≡ p.source_id)
        × (e.target_id ≡ p.target_id)
        × (sanitize_score fl sc e.cross_encoder_score ≡ p.cross_encoder_score)
        × (score_to_weight fl sc p.cross_encoder_score ≡ p.weight))
      ⊎ HopOf es p

  -- The names lead from the first to the last over the hops.
  abbrev pub IsPath : List EdgeInput → String → String → List String → List PathEdge → Type 0
  IsPath edges a target (x ∷ []) [] = (x ≡ a) × (a ≡ target)
  IsPath edges a target (x ∷ y ∷ ids) (p ∷ ps) =
      (x ≡ a)
      × (p.source_id ≡ a)
      × (p.target_id ≡ y)
      × HopOf edges p
      × IsPath edges y target (y ∷ ids) ps
  IsPath edges a target _ _ = false ≡ true

  abbrev pub Built :
      List EdgeInput → String → String → ℕ → Option (List String) → Option (List PathEdge) → Type 0
  Built edges a target n (some ids) (some es) = IsPath edges a target ids es × (suc (length es) ≡ n)
  Built edges a target n (some ids) none = false ≡ true
  Built edges a target n none es = false ≡ true

  hop :
      (edges : List EdgeInput) (node_ord : HashMap ℕ) (nodes : List String) (u v : ℕ) (m : EdgeMeta)
      (a b : String)
      → ((id : String) (x : ℕ) → HashMap.get id node_ord ≡ some x → name_of nodes x ≡ some id)
      → name_of nodes u ≡ some a
      → name_of nodes v ≡ some b
      → From fl sc node_ord edges u v m
      → HopOf edges (record {
        source_id = a;
        target_id = b;
        cross_encoder_score = m.score;
        weight = m.weight;
      })
  unfolding meta_of
  hop [] node_ord nodes u v m a b named ua vb h = h
  hop (e ∷ es) node_ord nodes u v m a b named ua vb (inl o) = inl (
    grind (arith, named e.source_id u o.source),
    grind (arith, named e.target_id v o.target),
    sym (ap (λ x. x.score) o.measured),
    ap (λ x. score_to_weight fl sc x.score) o.measured ∙ sym (ap (λ x. x.weight) o.measured),
  )
  hop (e ∷ es) node_ord nodes u v m a b named ua vb (inr h) =
      inr (hop es node_ord nodes u v m a b named ua vb h)

  extend :
      (edges : List EdgeInput) (a b target : String) (n : ℕ) (m : EdgeMeta)
      (ids : Option (List String)) (es : Option (List PathEdge))
      → HopOf edges (record {
        source_id = a;
        target_id = b;
        cross_encoder_score = m.score;
        weight = m.weight;
      })
      → Built edges b target n ids es
      → Built edges a target (suc n) (cons_name (some a) ids) (cons_edge (some a) (some b) m es)
  extend edges a b target n m none es h bad = ground arith
  extend edges a b target n m (some []) none h bad = ground arith
  extend edges a b target n m (some []) (some es) h bad = ground arith
  extend edges a b target n m (some (y ∷ [])) none h bad = ground arith
  extend edges a b target n m (some (y ∷ [])) (some (p ∷ ps)) h bad = ground arith
  extend edges a b target n m (some (y ∷ z ∷ ids)) none h bad = ground arith
  extend edges a b target n m (some (y ∷ z ∷ ids)) (some []) h bad = ground arith
  extend edges a b target n m (some (y ∷ [])) (some []) h ((y_b, end), len) =
      ((refl, refl, sym y_b, h, (refl, y_b ∙ end)), ap suc len)
  extend edges a b target n m (some (y ∷ z ∷ ids)) (some (p ∷ ps)) h
        ((y_b, starts, stops, joined, rest), len) =
      ((refl, refl, sym y_b, h, (refl, starts ∙ sym y_b, stops, joined, rest)), ap suc len)

  extend_known :
      (edges : List EdgeInput) (a b target : String) (n : ℕ) (m : EdgeMeta) (oa ob : Option String)
      (om : Option EdgeMeta) (ids : Option (List String)) (es : Option (List PathEdge))
      → oa ≡ some a
      → ob ≡ some b
      → om ≡ some m
      → HopOf edges (record {
        source_id = a;
        target_id = b;
        cross_encoder_score = m.score;
        weight = m.weight;
      })
      → Built edges b target n ids es
      → Built edges a target (suc n) (cons_name oa ids) (cons_edge oa ob (or_default fl sc om) es)
  extend_known edges a b target n m oa ob om ids es ea eb em h rest =
      subst
        (λ t.
          Built edges a target (suc n) (cons_name t ids) (cons_edge t ob (or_default fl sc om) es))
        (sym ea)
        (subst
          (λ t.
            Built edges a target (suc n) (cons_name (some a) ids)
              (cons_edge (some a) t (or_default fl sc om) es))
          (sym eb)
          (subst
            (λ t.
              Built edges a target (suc n) (cons_name (some a) ids)
                (cons_edge (some a) (some b) (or_default fl sc t) es))
            (sym em) (extend edges a b target n m ids es h rest)))

  pub ord_≡ : (x u : ℕ) → eq_ord x u ≡ true → x ≡ u
  ord_≡ x u h = ground arith

  module _ (edges : List EdgeInput) (node_ord : HashMap ℕ) (nodes : List String) (ms : Metas)
      (target : String) (dst : ℕ)
      (named : (id : String) (x : ℕ) → HashMap.get id node_ord ≡ some x → name_of nodes x ≡ some id)
      (known : (u v : ℕ) (m : EdgeMeta)
        → lookup (u, v) ms ≡ some m
        → From fl sc node_ord edges u v m)
      (dst_named : name_of nodes dst ≡ some target) where
    target_named :
        (es : List EdgeInput) (u v : ℕ) (m : EdgeMeta)
        → From fl sc node_ord es u v m
        → (b : String) × (name_of nodes v ≡ some b)
    target_named [] u v m bad = absurd (no_case bad)
    target_named (e ∷ es) u v m (inl o) = (e.target_id, named e.target_id v o.target)
    target_named (e ∷ es) u v m (inr h) = target_named es u v m h

    meta_known : (o : Option EdgeMeta) → is_some o ≡ true → (m : EdgeMeta) × (o ≡ some m)
    meta_known none h = absurd (no_case h)
    meta_known (some m) h = (m, refl)

    same_name : (u : ℕ) (a : String) → eq_ord u dst ≡ true → name_of nodes u ≡ some a → a ≡ target
    same_name u a same ua = grind (arith, dst_named, ap (name_of nodes) (ord_≡ u dst same))

    pub built :
        (u : ℕ) (ords : List ℕ) (a : String)
        → is_route dst ms (u ∷ ords) ≡ true
        → name_of nodes u ≡ some a
        → Built edges a target
            (length (u ∷ ords))
            (names_of nodes (u ∷ ords))
            (edges_of fl sc nodes ms (u ∷ ords))
    unfolding is_route names_of edges_of
    built u [] a route ua =
        subst (λ t. Built edges a target 1 (cons_name t (some [])) (some [])) (sym ua)
          ((refl, same_name u a route ua), refl)
    built u (v ∷ ords) a route ua =
        let (is_known, rest) = both_true (is_some (lookup (u, v) ms)) _ route in
        let (m, at_m) = meta_known (lookup (u, v) ms) is_known in
        let (b, vb) = target_named edges u v m (known u v m at_m) in
        extend_known edges a b target _ m (name_of nodes u) (name_of nodes v) (lookup (u, v) ms) _ _
          ua vb at_m (hop edges node_ord nodes u v m a b named ua vb (known u v m at_m))
          (built v ords b rest vb)
