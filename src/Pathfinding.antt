-- ===== src/Pathfinding.antt =====
-- backend-rust-orchestrator/src/api/knowledge_pathfinding.rs: the path between two nodes of the
-- knowledge graph within a number of hops. petgraph's `astar` is a parameter; a node of the layered graph
-- stands for its index.
pub mod Layers
pub mod Hops
pub mod Paths
pub mod Answers
use pagi_digital_twin.Base.{
  ℕ, zero, suc, ◌+◌, ◌-◌, String, Bool, true, false, ◌||◌, ◌&&◌, List, [], ◌∷◌, ◌++◌, Option, none,
  some, length, ltb, leb, ◌==◌, if◌then◌else◌,
}
use pagi_digital_twin.Base.HashMap
use pagi_digital_twin.Base.HashMap.{HashMap}
use pagi_digital_twin.Base.Float.{Float, F64}

pub record EdgeInput : Type 0 where
  pub source_id : String
  pub target_id : String
  pub cross_encoder_score : Option F64

pub record PathEdge : Type 0 where
  pub source_id : String
  pub target_id : String
  pub cross_encoder_score : F64
  pub weight : F64

pub record PathResult : Type 0 where
  pub node_ids : List String
  pub edges : List PathEdge
  pub total_weight : F64

pub record EdgeMeta : Type 0 where
  pub score : F64
  pub weight : F64

-- What the code does with scores besides arithmetic; `clamp` is to the bounds 0.0 and 1.0.
pub record Scores : Type 0 where
  pub is_finite : F64 → Bool
  pub clamp : F64 → F64
  pub eq : F64 → F64 → Bool

unfoldable pub sanitize_score : Float → Scores → Option F64 → F64
sanitize_score fl sc none = fl.lit 0
sanitize_score fl sc (some s) = if sc.is_finite s then sc.clamp s else fl.lit 0

unfoldable pub score_to_weight : Float → Scores → F64 → F64
score_to_weight fl sc score = sc.clamp (fl.sub (fl.lit 1) score)

unfoldable pub meta_of : Float → Scores → Option F64 → EdgeMeta
meta_of fl sc score = record {
  score = sanitize_score fl sc score;
  weight = score_to_weight fl sc (sanitize_score fl sc score);
}

-- A later node of the same name takes the name over.
unfoldable pub number_nodes : ℕ → List String → HashMap ℕ → HashMap ℕ
number_nodes i [] node_ord = node_ord
number_nodes i (id ∷ ids) node_ord = number_nodes (suc i) ids (HashMap.insert id i node_ord)

abbrev pub Ords : Type 0
Ords = ℕ × ℕ

abbrev pub eq_ord : ℕ → ℕ → Bool
eq_ord a b = leb a b && leb b a

abbrev pub eq_ords : Ords → Ords → Bool
eq_ords (u, v) (x, y) = eq_ord u x && eq_ord v y

-- `Ord` of pairs.
abbrev pub le_ords : Ords → Ords → Bool
le_ords (u, v) (x, y) = ltb u x || (eq_ord u x && leb v y)

abbrev pub Metas : Type 0
Metas = List (Ords × EdgeMeta)

unfoldable pub lookup : Ords → Metas → Option EdgeMeta
lookup k [] = none
lookup k ((j, m) ∷ ms) = if eq_ords j k then some m else lookup k ms

abbrev pub cheaper : Float → Scores → EdgeMeta → EdgeMeta → EdgeMeta
cheaper fl sc new prev =
    if fl.lt new.weight prev.weight || (sc.eq new.weight prev.weight && fl.lt prev.score new.score)
    then new
    else prev

-- `entry((u, v)).and_modify(..).or_insert(meta)`
unfoldable pub add_meta : Float → Scores → Ords → EdgeMeta → Metas → Metas
add_meta fl sc k new [] = (k, new) ∷ []
add_meta fl sc k new ((j, m) ∷ ms) =
    if eq_ords j k then (j, cheaper fl sc new m) ∷ ms else (j, m) ∷ add_meta fl sc k new ms

abbrev pub add_known : Float → Scores → Option ℕ → Option ℕ → EdgeMeta → Metas → Metas
add_known fl sc (some u) (some v) new ms = add_meta fl sc (u, v) new ms
add_known fl sc none v new ms = ms
add_known fl sc (some u) none new ms = ms

unfoldable pub add_edge : Float → Scores → HashMap ℕ → EdgeInput → Metas → Metas
add_edge fl sc node_ord e ms =
    add_known fl sc (HashMap.get e.source_id node_ord) (HashMap.get e.target_id node_ord)
      (meta_of fl sc e.cross_encoder_score) ms

unfoldable pub edge_meta : Float → Scores → HashMap ℕ → List EdgeInput → Metas → Metas
edge_meta fl sc node_ord [] ms = ms
edge_meta fl sc node_ord (e ∷ es) ms = edge_meta fl sc node_ord es (add_edge fl sc node_ord e ms)

-- `sort_by(|a, b| a.0.cmp(&b.0))`
unfoldable pub place : Ords × EdgeMeta → Metas → Metas
place e [] = e ∷ []
place e (f ∷ ms) = if le_ords e.0 f.0 then e ∷ f ∷ ms else f ∷ place e ms

unfoldable pub sort_metas : Metas → Metas
sort_metas [] = []
sort_metas (e ∷ ms) = place e (sort_metas ms)

-- A node of the layered graph: `(ord, depth)`, or the goal behind every depth of the target.
pub data LayerNode : Type 0 where
  at : (ord depth : ℕ) → LayerNode
  super_goal : LayerNode

pub record Arc : Type 0 where
  pub from : LayerNode
  pub to : LayerNode
  pub weight : F64

-- The arcs to the goal, for `d in 0..=max_depth`.
unfoldable pub goal_arcs : Float → (dst max_depth : ℕ) → List Arc
goal_arcs fl dst zero = record { from = at dst 0; to = super_goal; weight = fl.lit 0 } ∷ []
goal_arcs fl dst (suc d) =
    goal_arcs fl dst d ++ record { from = at dst (suc d); to = super_goal; weight = fl.lit 0 } ∷ []

-- The arcs of one edge, for `d in 0..max_depth`.
unfoldable pub hop_arcs : Ords × EdgeMeta → (max_depth : ℕ) → List Arc
hop_arcs e zero = []
hop_arcs e (suc d) =
    hop_arcs e d
    ++ record { from = at (e.0).0 d; to = at (e.0).1 (suc d); weight = (e.1).weight } ∷ []

unfoldable pub all_hops : Metas → (max_depth : ℕ) → List Arc
all_hops [] max_depth = []
all_hops (e ∷ ms) max_depth = hop_arcs e max_depth ++ all_hops ms max_depth

unfoldable pub layered : Float → (dst max_depth : ℕ) → Metas → List Arc
layered fl dst max_depth edge_list = goal_arcs fl dst max_depth ++ all_hops edge_list max_depth

-- petgraph's search with no heuristic: from a node to a node, the cost and the nodes of the path.
abbrev pub Astar : Type 0
Astar = List Arc → LayerNode → LayerNode → Option (F64 × List LayerNode)

-- The ordinals before the goal.
unfoldable pub ord_path : List LayerNode → List ℕ
ord_path [] = []
ord_path (super_goal ∷ path) = []
ord_path (at ord depth ∷ path) = ord ∷ ord_path path

-- `nodes[ord]`; out of range the code panics.
unfoldable pub name_of : List String → ℕ → Option String
name_of [] i = none
name_of (id ∷ ids) zero = some id
name_of (id ∷ ids) (suc i) = name_of ids i

abbrev pub last_is : ℕ → List ℕ → Bool
last_is dst [] = false
last_is dst (u ∷ []) = eq_ord u dst
last_is dst (u ∷ v ∷ ords) = last_is dst (v ∷ ords)

abbrev pub or_default : Float → Scores → Option EdgeMeta → EdgeMeta
or_default fl sc none = record { score = fl.lit 0; weight = score_to_weight fl sc (fl.lit 0) }
or_default fl sc (some m) = m

pub data Outcome : Type 0 where
  no_path : Outcome
  out_of_range : Outcome  -- a panic
  found : PathResult → Outcome

abbrev pub cons_name : Option String → Option (List String) → Option (List String)
cons_name none ids = none
cons_name (some id) none = none
cons_name (some id) (some ids) = some (id ∷ ids)

unfoldable pub names_of : List String → List ℕ → Option (List String)
names_of nodes [] = some []
names_of nodes (u ∷ ords) = cons_name (name_of nodes u) (names_of nodes ords)

abbrev pub cons_edge :
    Option String → Option String → EdgeMeta → Option (List PathEdge) → Option (List PathEdge)
cons_edge (some a) (some b) m (some es) =
    some (
      record { source_id = a; target_id = b; cross_encoder_score = m.score; weight = m.weight }
      ∷ es)
cons_edge (some a) (some b) m none = none
cons_edge (some a) none m es = none
cons_edge none b m es = none

-- `windows(2)`: an edge for every hop.
unfoldable pub edges_of : Float → Scores → List String → Metas → List ℕ → Option (List PathEdge)
edges_of fl sc nodes ms [] = some []
edges_of fl sc nodes ms (u ∷ []) = some []
edges_of fl sc nodes ms (u ∷ v ∷ ords) =
    cons_edge (name_of nodes u) (name_of nodes v) (or_default fl sc (lookup (u, v) ms))
      (edges_of fl sc nodes ms (v ∷ ords))

unfoldable pub sum_weights : Float → F64 → List PathEdge → F64
sum_weights fl total [] = total
sum_weights fl total (e ∷ es) = sum_weights fl (fl.add total e.weight) es

abbrev pub result_of : Float → Option (List String) → Option (List PathEdge) → Outcome
result_of fl (some ids) (some es) =
    found (record { node_ids = ids; edges = es; total_weight = sum_weights fl (fl.lit 0) es })
result_of fl (some ids) none = out_of_range
result_of fl none es = out_of_range

unfoldable pub rebuild :
    Float → Scores → List String → Metas → ℕ → Option (F64 × List LayerNode) → Outcome
rebuild fl sc nodes ms dst none = no_path
rebuild fl sc nodes ms dst (some (cost, path)) =
    if ltb (length path) 2
    then no_path
    else if last_is dst (ord_path path)
    then result_of fl (names_of nodes (ord_path path)) (edges_of fl sc nodes ms (ord_path path))
    else no_path

unfoldable pub search_known :
    Float → Scores → Astar → List String → Metas → ℕ → Option ℕ → Option ℕ → Outcome
search_known fl sc astar nodes edge_list max_depth (some src) (some dst) =
    rebuild fl sc nodes edge_list dst
      (astar (layered fl dst max_depth edge_list) (at src 0) super_goal)
search_known fl sc astar nodes edge_list max_depth none dst = no_path
search_known fl sc astar nodes edge_list max_depth (some src) none = no_path

unfoldable pub search_hops :
    Float → Scores → Astar → List String → List EdgeInput → String → String → ℕ → Outcome
search_hops fl sc astar nodes edges source_id target_id max_depth =
    let node_ord = number_nodes 0 nodes [] in
    search_known fl sc astar nodes (sort_metas (edge_meta fl sc node_ord edges [])) max_depth
      (HashMap.get source_id node_ord) (HashMap.get target_id node_ord)

unfoldable pub find_path_with_max_depth :
    Float → Scores → Astar → List String → List EdgeInput → String → String → ℕ → Outcome
find_path_with_max_depth fl sc astar nodes edges source_id target_id max_depth =
    if source_id == target_id
    then found (record { node_ids = source_id ∷ []; edges = []; total_weight = fl.lit 0 })
    else if leb max_depth 0
    then no_path
    else search_hops fl sc astar nodes edges source_id target_id max_depth
