-- ===== src/Pathfinding/Answers.antt =====
-- api/knowledge_pathfinding.rs: the answer is a path within the limit, and when there is none.
use pagi_digital_twin.Base.{
  ltb, leb, eq_iff, ◌==◌, if◌then◌else◌, ℕ, suc, ◌≤◌, String, Bool, true, false, ◌&&◌, List, [],
  ◌∷◌, Option, some, none, is_some, length, ◌≡◌, refl, ap, ◌∙◌, sym, inl, inr, arith,
}
use pagi_digital_twin.Base.HashMap
use pagi_digital_twin.Base.HashMap.{HashMap}
use pagi_digital_twin.Base.Float.{F64, Float}
use pagi_digital_twin.Pathfinding.{
  super_goal, last_is, super_goal, at, layered, LayerNode, edge_meta, ord_path, search_hops,
  sort_metas, rebuild, number_nodes, find_path_with_max_depth, search_known, Astar, result_of,
  EdgeInput, PathEdge, EdgeMeta, Scores, Metas, Arc, Outcome, no_path, out_of_range, found, eq_ord,
  lookup, name_of, names_of, edges_of, sum_weights,
}
use pagi_digital_twin.Pathfinding.Layers.{
  walk-ord_path, same_node, is_walk, is_walk, starts_at, FindsWalks, is_route,
}
use pagi_digital_twin.Pathfinding.Hops.{
  name_of-number_nodes, lookup-sort_metas, lookup-edge_meta, From,
}
use pagi_digital_twin.Pathfinding.Paths.{IsPath, Built, built, no_case, at_most, both_true, ord_≡}

walk_is_long :
    (arcs : List Arc) (u d : ℕ) (path : List LayerNode)
    → is_walk arcs super_goal (at u d ∷ path) ≡ true
    → ltb (length (at u d ∷ path)) 2 ≡ false
unfolding is_walk
walk_is_long arcs u d [] h = absurd (no_case h)
walk_is_long arcs u d (x ∷ path) h = ground arith

route_ends :
    (dst : ℕ) (ms : Metas) (ords : List ℕ) → is_route dst ms ords ≡ true → last_is dst ords ≡ true
unfolding is_route
route_ends dst ms [] h = h
route_ends dst ms (u ∷ []) h = h
route_ends dst ms (u ∷ v ∷ ords) h =
    route_ends dst ms (v ∷ ords) ((both_true (is_some (lookup (u, v) ms)) _ h).1)

module _ (fl : Float) (sc : Scores) where
  -- The answer is a path of at most so many hops, with the sum of their weights, or there is none for
  -- the reason given.
  abbrev pub IsAnswer : Type 0 → List EdgeInput → String → String → ℕ → Outcome → Type 0
  IsAnswer Q edges source target n no_path = Q
  IsAnswer Q edges source target n out_of_range = false ≡ true
  IsAnswer Q edges source target n (found r) =
      IsPath fl sc edges source target r.node_ids r.edges
      × (length r.edges ≤ n)
      × (r.total_weight ≡ sum_weights fl (fl.lit 0) r.edges)

  either_ends :
      (Q : Type 0) (edges : List EdgeInput) (source target : String) (n : ℕ) (b : Bool)
      (x y : Outcome)
      → (b ≡ true → IsAnswer Q edges source target n x)
      → IsAnswer Q edges source target n y
      → IsAnswer Q edges source target n (if b then x else y)
  either_ends Q edges source target n true x y one other = one refl
  either_ends Q edges source target n false x y one other = other

  result_ends :
      (Q : Type 0) (edges : List EdgeInput) (source target : String) (n k : ℕ)
      (ids : Option (List String)) (es : Option (List PathEdge))
      → Built fl sc edges source target k ids es
      → k ≤ suc n
      → IsAnswer Q edges source target n (result_of fl ids es)
  result_ends Q edges source target n k none es bad short = absurd (no_case bad)
  result_ends Q edges source target n k (some ids) none bad short = absurd (no_case bad)
  result_ends Q edges source target n k (some ids) (some es) (path, len) short =
      (path, ground arith, refl)

  only_result :
      (Q : Type 0) (edges : List EdgeInput) (source target : String) (n : ℕ) (b c : Bool)
      (o : Outcome)
      → b ≡ false
      → c ≡ true
      → IsAnswer Q edges source target n o
      → IsAnswer Q edges source target n (if b then no_path else if c then o else no_path)
  only_result Q edges source target n true c o bad h answer = absurd (no_case (sym bad))
  only_result Q edges source target n false true o e h answer = answer
  only_result Q edges source target n false false o e bad answer = absurd (no_case bad)

  module _ (astar : Astar) (nodes : List String) (edges : List EdgeInput)
      (source_id target_id : String) (n : ℕ) (walks : FindsWalks astar) where
    abbrev ords : HashMap ℕ
    ords = number_nodes 0 nodes []

    abbrev sorted : Metas
    sorted = sort_metas (edge_meta fl sc ords edges [])

    -- Why there is no path: no hop is allowed, a node is missing, or the search of the graph finds nothing.
    pub data Unreached : Type 0 where
      no_hops : n ≡ 0 → Unreached
      no_source : HashMap.get source_id ords ≡ none → Unreached
      no_target : HashMap.get target_id ords ≡ none → Unreached
      no_walk :
          (src dst : ℕ)
          → HashMap.get source_id ords ≡ some src
          → HashMap.get target_id ords ≡ some dst
          → astar (layered fl dst n sorted) (at src 0) super_goal ≡ none
          → Unreached

    input_has :
        (u v : ℕ) (m : EdgeMeta) → lookup (u, v) sorted ≡ some m → From fl sc ords edges u v m
    unfolding lookup
    input_has u v m h =
        elim (lookup-edge_meta fl sc ords edges u v m []
          (sym (lookup-sort_metas (u, v) (edge_meta fl sc ords edges [])) ∙ h)) [
            | inl f ↦ f
            | inr bad ↦ absurd (no_case (ap is_some bad))
          ]

    rebuilt :
        (src dst : ℕ) (cost : F64) (path : List LayerNode)
        → HashMap.get source_id ords ≡ some src
        → HashMap.get target_id ords ≡ some dst
        → (starts_at (at src 0) path && is_walk (layered fl dst n sorted) super_goal path) ≡ true
        → IsAnswer Unreached edges source_id target_id n
            (rebuild fl sc nodes sorted dst (some (cost, path)))
    unfolding rebuild ord_path
    rebuilt src dst cost [] s t walk = absurd (no_case walk)
    rebuilt src dst cost (super_goal ∷ path) s t walk = absurd (no_case walk)
    rebuilt src dst cost (at u d ∷ path) s t walk =
        let (start, walked) = both_true (same_node (at u d) (at src 0)) _ walk in
        let (route, short) = walk-ord_path fl dst n sorted u d path walked in
        let (same_ord, at_0) = both_true (eq_ord u src) _ start in
        let named = name_of-number_nodes nodes in
        let ids = names_of nodes (u ∷ ord_path path) in
        let es = edges_of fl sc nodes sorted (u ∷ ord_path path) in
        let good =
          result_ends Unreached edges source_id target_id n (length (u ∷ ord_path path)) ids es
            (built fl sc edges ords nodes sorted target_id dst named input_has
              (named target_id dst t) u (ord_path path) source_id route
              (ap (name_of nodes) (ord_≡ fl sc u src same_ord) ∙ named source_id src s))
            (at_most d (length (u ∷ ord_path path)) (suc n) short) in
        only_result Unreached edges source_id target_id n (ltb (length (at u d ∷ path)) 2)
          (last_is dst (u ∷ ord_path path)) (result_of fl ids es)
          (walk_is_long (layered fl dst n sorted) u d path walked)
          (route_ends dst sorted (u ∷ ord_path path) route) good

    rebuilt_search :
        (src dst : ℕ) (r : Option (F64 × List LayerNode))
        → HashMap.get source_id ords ≡ some src
        → HashMap.get target_id ords ≡ some dst
        → astar (layered fl dst n sorted) (at src 0) super_goal ≡ r
        → IsAnswer Unreached edges source_id target_id n (rebuild fl sc nodes sorted dst r)
    unfolding rebuild
    rebuilt_search src dst none s t e = no_walk src dst s t e
    rebuilt_search src dst (some (cost, path)) s t e =
        rebuilt src dst cost path s t (walks _ _ _ cost path e)

    searched :
        (src dst : Option ℕ)
        → HashMap.get source_id ords ≡ src
        → HashMap.get target_id ords ≡ dst
        → IsAnswer Unreached edges source_id target_id n
            (search_known fl sc astar nodes sorted n src dst)
    unfolding search_known
    searched none dst s t = no_source s
    searched (some src) none s t = no_target t
    searched (some src) (some dst) s t = rebuilt_search src dst _ s t refl

    -- If the search returns walks of its graph, the answer is a path from the source to the target, of
    -- at most `max_depth` hops, whose every hop is an edge of the input with its score and weight, and
    -- the total is the sum of the weights. There is none only if `max_depth` is 0, the source or the
    -- target is not a node, or the search finds nothing; no index is out of range.
    pub find_path_with_max_depth-IsAnswer :
        IsAnswer Unreached edges source_id target_id n
          (find_path_with_max_depth fl sc astar nodes edges source_id target_id n)
    unfolding find_path_with_max_depth search_hops sum_weights
    find_path_with_max_depth-IsAnswer =
        either_ends Unreached edges source_id target_id n (source_id == target_id)
          (found (record { node_ids = source_id ∷ []; edges = []; total_weight = fl.lit 0 }))
          (if leb n 0 then no_path else search_hops fl sc astar nodes edges source_id target_id n)
          (λ e. ((refl, (eq_iff source_id target_id).0 e), ground arith, refl))
          (either_ends Unreached edges source_id target_id n (leb n 0) no_path
            (search_hops fl sc astar nodes edges source_id target_id n)
            (λ e. no_hops (ground arith)) (searched _ _ refl refl))
