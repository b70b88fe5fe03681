-- ===== src/Pathfinding/Layers.antt =====
-- api/knowledge_pathfinding.rs: the layered graph. A walk through it to the goal is a route of known hops
-- that ends at the target, no longer than the number of layers.
use pagi_digital_twin.Base.{
  ℕ, zero, suc, ◌+◌, ◌≤◌, Bool, true, false, ◌||◌, ◌&&◌, List, [], ◌∷◌, ◌++◌, some, any, is_some,
  length, ltb, leb, ◌≡◌, refl, arith,
}
use pagi_digital_twin.Base.Float.{Float, F64}
use pagi_digital_twin.Pathfinding.{
  LayerNode, at, super_goal, Arc, Astar, Metas, Ords, EdgeMeta, eq_ord, eq_ords, lookup, goal_arcs,
  hop_arcs, all_hops, layered, ord_path,
}

abbrev pub same_node : LayerNode → LayerNode → Bool
same_node (at u d) (at v e) = eq_ord u v && eq_ord d e
same_node super_goal super_goal = true
same_node (at u d) super_goal = false
same_node super_goal (at v e) = false

abbrev pub has_arc : LayerNode → LayerNode → List Arc → Bool
has_arc s t arcs = any (λ a. same_node a.from s && same_node a.to t) arcs

-- Every node of the list has an arc to the next, and the last is the goal.
unfoldable pub is_walk : List Arc → LayerNode → List LayerNode → Bool
is_walk arcs goal [] = false
is_walk arcs goal (x ∷ []) = same_node x goal
is_walk arcs goal (x ∷ y ∷ path) = has_arc x y arcs && is_walk arcs goal (y ∷ path)

abbrev pub starts_at : LayerNode → List LayerNode → Bool
starts_at s [] = false
starts_at s (x ∷ path) = same_node x s

-- What the search promises: the path it returns is a walk from the start to the goal.
abbrev pub FindsWalks : Astar → Type 0
FindsWalks astar =
    (arcs : List Arc) (s t : LayerNode) (cost : F64) (path : List LayerNode)
    → astar arcs s t ≡ some (cost, path)
    → (starts_at s path && is_walk arcs t path) ≡ true

-- The known hops end at the target.
unfoldable pub is_route : ℕ → Metas → List ℕ → Bool
is_route dst ms [] = false
is_route dst ms (u ∷ []) = eq_ord u dst
is_route dst ms (u ∷ v ∷ ords) = is_some (lookup (u, v) ms) && is_route dst ms (v ∷ ords)

has_arc-append :
    (s t : LayerNode) (as' bs : List Arc)
    → has_arc s t (as' ++ bs) ≡ (has_arc s t as' || has_arc s t bs)
has_arc-append s t [] bs = refl
has_arc-append s t (a ∷ as') bs = ground (arith, has_arc-append s t as' bs)

abbrev goal_allowed : (dst max_depth : ℕ) → LayerNode → LayerNode → Bool
goal_allowed dst n (at u d) super_goal = eq_ord dst u && leb d n
goal_allowed dst n (at u d) (at v e) = false
goal_allowed dst n super_goal t = false

has_arc-goal_arcs :
    (fl : Float) (dst n : ℕ) (s t : LayerNode)
    → has_arc s t (goal_arcs fl dst n) ≡ goal_allowed dst n s t
unfolding goal_arcs
has_arc-goal_arcs fl dst zero (at u d) super_goal = ground arith
has_arc-goal_arcs fl dst zero (at u d) (at v e) = ground arith
has_arc-goal_arcs fl dst zero super_goal t = ground arith
has_arc-goal_arcs fl dst (suc n) (at u d) super_goal = grind (
  arith,
  has_arc-append (at u d) super_goal (goal_arcs fl dst n),
  has_arc-goal_arcs fl dst n (at u d) super_goal,
)
has_arc-goal_arcs fl dst (suc n) (at u d) (at v e) = grind (
  arith,
  has_arc-append (at u d) (at v e) (goal_arcs fl dst n),
  has_arc-goal_arcs fl dst n (at u d) (at v e),
)
has_arc-goal_arcs fl dst (suc n) super_goal t = grind (
  arith,
  has_arc-append super_goal t (goal_arcs fl dst n),
  has_arc-goal_arcs fl dst n super_goal t,
)

abbrev hop_allowed : Bool → (max_depth : ℕ) → (d e : ℕ) → Bool
hop_allowed known n d e = known && (eq_ord e (suc d) && ltb d n)

has_arc-hop_arcs :
    (k : Ords) (m : EdgeMeta) (n u d v e : ℕ)
    → has_arc (at u d) (at v e) (hop_arcs (k, m) n) ≡ hop_allowed (eq_ords k (u, v)) n d e
unfolding hop_arcs
has_arc-hop_arcs (x, y) m zero u d v e = ground arith
has_arc-hop_arcs (x, y) m (suc n) u d v e = grind (
  arith,
  has_arc-append (at u d) (at v e) (hop_arcs ((x, y), m) n),
  has_arc-hop_arcs (x, y) m n u d v e,
)

has_arc-all_hops :
    (ms : Metas) (n u d v e : ℕ)
    → has_arc (at u d) (at v e) (all_hops ms n) ≡ hop_allowed (is_some (lookup (u, v) ms)) n d e
unfolding all_hops lookup
has_arc-all_hops [] n u d v e = refl
has_arc-all_hops ((k, m) ∷ ms) n u d v e = grind (
  arith,
  has_arc-append (at u d) (at v e) (hop_arcs (k, m) n) (all_hops ms n),
  has_arc-hop_arcs k m n u d v e,
  has_arc-all_hops ms n u d v e,
)

no_goal-hop_arcs :
    (k : Ords) (m : EdgeMeta) (n : ℕ) (s : LayerNode)
    → has_arc s super_goal (hop_arcs (k, m) n) ≡ false
unfolding hop_arcs
no_goal-hop_arcs k m zero s = refl
no_goal-hop_arcs k m (suc n) s =
    grind (arith, has_arc-append s super_goal (hop_arcs (k, m) n), no_goal-hop_arcs k m n s)

no_goal-all_hops :
    (ms : Metas) (n : ℕ) (s : LayerNode) → has_arc s super_goal (all_hops ms n) ≡ false
unfolding all_hops
no_goal-all_hops [] n s = refl
no_goal-all_hops ((k, m) ∷ ms) n s = grind (
  arith,
  has_arc-append s super_goal (hop_arcs (k, m) n) (all_hops ms n),
  no_goal-hop_arcs k m n s,
  no_goal-all_hops ms n s,
)

module _ (fl : Float) (dst n : ℕ) (ms : Metas) where
  arc_to_goal :
      (u d : ℕ) → has_arc (at u d) super_goal (layered fl dst n ms) ≡ (eq_ord dst u && leb d n)
  unfolding layered
  arc_to_goal u d = grind (
    arith,
    has_arc-append (at u d) super_goal (goal_arcs fl dst n) (all_hops ms n),
    has_arc-goal_arcs fl dst n (at u d) super_goal,
    no_goal-all_hops ms n (at u d),
  )

  arc_of_hop :
      (u d v e : ℕ)
      → has_arc (at u d) (at v e) (layered fl dst n ms)
        ≡ hop_allowed (is_some (lookup (u, v) ms)) n d e
  unfolding layered
  arc_of_hop u d v e = grind (
    arith,
    has_arc-append (at u d) (at v e) (goal_arcs fl dst n) (all_hops ms n),
    has_arc-goal_arcs fl dst n (at u d) (at v e),
    has_arc-all_hops ms n u d v e,
  )

  pub walk-ord_path :
      (u d : ℕ) (path : List LayerNode)
      → is_walk (layered fl dst n ms) super_goal (at u d ∷ path) ≡ true
      → (is_route dst ms (ord_path (at u d ∷ path)) ≡ true)
        × (d + length (ord_path (at u d ∷ path)) ≤ suc n)
  unfolding is_walk is_route ord_path
  walk-ord_path u d [] walk = ground arith
  walk-ord_path u d (super_goal ∷ path) walk = grind (arith, arc_to_goal u d)
  walk-ord_path u d (at v e ∷ path) walk = grind (arith, arc_of_hop u d v e, walk-ord_path v e path)
