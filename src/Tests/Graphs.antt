-- ===== src/Tests/Graphs.antt =====
-- api/knowledge_pathfinding.rs at a graph of three nodes.
use pagi_digital_twin.Base.{
  Bool, true, false, ◌&&◌, Option, none, some, ◌≡◌, refl, subst, List, [], ◌∷◌, arith,
}
use pagi_digital_twin.Base.Float.{bits, F64}
use pagi_digital_twin.Pathfinding.{
  EdgeInput, Scores, Astar, LayerNode, at, super_goal, find_path_with_max_depth,
}
use pagi_digital_twin.Pathfinding.Layers.{FindsWalks, starts_at, is_walk}
use pagi_digital_twin.Pathfinding.Answers.{Unreached, IsAnswer, find_path_with_max_depth-IsAnswer}
use package.pagi_digital_twin.Tests.Data.{float}

abbrev scores : Scores
scores = record { is_finite = λ x. true; clamp = λ x. x; eq = λ x y. false }

abbrev links : List EdgeInput
links =
    record { source_id = "A"; target_id = "B"; cross_encoder_score = some (bits 0) }
    ∷ record { source_id = "B"; target_id = "C"; cross_encoder_score = none }
    ∷ []

abbrev two_hops : List LayerNode
two_hops = at 0 0 ∷ at 1 1 ∷ at 2 2 ∷ super_goal ∷ []

abbrev offer_if : Bool → Option (F64 × List LayerNode)
offer_if true = some (bits 0, two_hops)
offer_if false = none

-- A search that offers one path, and only where it is a walk.
abbrev offer : Astar
offer arcs s t = offer_if (starts_at s two_hops && is_walk arcs t two_hops)

offered :
    (b : Bool) (cost : F64) (path : List LayerNode)
    → offer_if b ≡ some (cost, path)
    → (b ≡ true) × (two_hops ≡ path)
offered true cost path h = (refl, grind arith)
offered false cost path h = ground arith

offer-FindsWalks : FindsWalks offer
offer-FindsWalks arcs s t cost path h =
    let (walks, same) = offered (starts_at s two_hops && is_walk arcs t two_hops) cost path h in
    subst (λ p. (starts_at s p && is_walk arcs t p) ≡ true) same walks

find_path_with_max_depth-IsAnswer_example :
    IsAnswer float scores
      (Unreached float scores offer ("A" ∷ "B" ∷ "C" ∷ []) links "A" "C" 2 offer-FindsWalks)
      links
      "A"
      "C"
      2
      (find_path_with_max_depth float scores offer ("A" ∷ "B" ∷ "C" ∷ []) links "A" "C" 2)
find_path_with_max_depth-IsAnswer_example =
    find_path_with_max_depth-IsAnswer float scores offer ("A" ∷ "B" ∷ "C" ∷ []) links "A" "C" 2
      offer-FindsWalks
