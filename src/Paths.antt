-- ===== src/Paths.antt =====
-- path.go: the shortest path by breadth-first search. The nodes and edges come from the two reads of
-- the database that the search makes, `getNode` and `getEdgesForNode` at outgoing edges.
pub mod Growth
pub mod Layers
pub mod Shortest
mod Tests
use goraphdb.Common.{
  ℕ, zero, suc, Bool, true, false, not, ◌&&◌, ◌||◌, Option, none, some, List, [], ◌∷◌, ◌++◌, map,
  ◌==◌, if◌then◌else◌, length, same_bytes,
}
use goraphdb.Common.Results.{Error, Result, ok, err, ◌>>=◌, database_closed}
use goraphdb.Types.{Bytes, NodeId, Node, Edge}

pub record Graph : Type 0 where
  pub closed : Bool
  pub get_node : NodeId → Result Node
  pub edges_of : NodeId → Result (List Edge)

-- `Cost` is the number of edges.
pub record PathResult : Type 0 where
  pub nodes : List Node
  pub edges : List Edge
  pub cost : ℕ

-- `visited`: the keys of the map, each of which has the value true.
abbrev pub Visited : Type 0
Visited = NodeId → Bool

unfoldable pub visit : NodeId → Visited → Visited
visit id visited = λ x. if x == id then true else visited x

-- `bfsEntry`
abbrev pub Entry : Type 0
Entry = NodeId × List Edge

-- The negation of `label != "" && edge.Label != label`.
unfoldable pub follows : Bytes → Edge → Bool
follows [] e = true
follows (c ∷ label) e = same_bytes e.label (c ∷ label)

-- The loop over the edges of one node: it returns a path to the target, or goes on with the map and
-- the queue.
pub data Expansion : Type 0 where
  arrived : List Edge → Expansion
  queued : Visited → List Entry → Expansion

unfoldable pub expand : Bytes → NodeId → List Edge → List Edge → Visited → List Entry → Expansion
expand label to path [] visited queue = queued visited queue
expand label to path (e ∷ es) visited queue = elim (follows label e && not (visited e.to)) [
  | false ↦ expand label to path es visited queue
  | true ↦ elim (e.to == to) [
    | true ↦ arrived (path ++ e ∷ [])
    | false ↦ expand label to path es (visit e.to visited) (queue ++ (e.to, path ++ e ∷ []) ∷ [])
  ]
]

-- How the search ends; `out_of_fuel` is no outcome of the code.
pub data Outcome : Type 0 where
  found : List Edge → Outcome
  absent : Outcome
  failed : Error → Outcome
  out_of_fuel : Outcome

unfoldable pub proceed : (Visited → List Entry → Outcome) → Expansion → Outcome
proceed go (arrived path) = found path
proceed go (queued visited queue) = go visited queue

unfoldable pub with_edges : Result (List Edge) → (List Edge → Outcome) → Outcome
with_edges (ok es) k = k es
with_edges (err e) k = failed e

module _ (graph : Graph) where
  -- The loop over the queue, on fuel: a round takes one entry, and a node is entered once.
  unfoldable pub search : ℕ → Bytes → NodeId → Visited → List Entry → Outcome
  search zero label to visited queue = out_of_fuel
  search (suc fuel) label to visited [] = absent
  search (suc fuel) label to visited ((id, path) ∷ queue) =
      with_edges (graph.edges_of id)
        (λ es. proceed (λ v q. search fuel label to v q) (expand label to path es visited queue))

  collect : List NodeId → Result (List Node)
  collect [] = ok []
  collect (id ∷ ids) = do node ← graph.get_node id; nodes ← collect ids; ok (node ∷ nodes)

  unfoldable pub build_path_result : NodeId → List Edge → Result PathResult
  unfolding collect
  build_path_result from path = do
    nodes ← collect (from ∷ map (λ e. e.to) path)
    ok (record { nodes = nodes; edges = path; cost = length path })

  -- The result of the search: none where the code returns nil, and no result without fuel.
  finish : NodeId → Outcome → Option (Result (Option PathResult))
  finish from (found path) = some (do result ← build_path_result from path; ok (some result))
  finish from absent = some (ok none)
  finish from (failed e) = some (err e)
  finish from out_of_fuel = none

  unfoldable pub shortest_path_labeled :
      ℕ → NodeId → NodeId → Bytes → Option (Result (Option PathResult))
  unfolding finish
  shortest_path_labeled fuel from to label =
      if graph.closed
      then some (err database_closed)
      else if from == to
      then some (do
        node ← graph.get_node from
        ok (some (record { nodes = node ∷ []; edges = []; cost = 0 })))
      else finish from (search fuel label to (visit from (λ x. false)) ((from, []) ∷ []))

  unfoldable pub shortest_path : ℕ → NodeId → NodeId → Option (Result (Option PathResult))
  shortest_path fuel from to = shortest_path_labeled fuel from to []

  unfoldable pub has_path : ℕ → NodeId → NodeId → Option (Result Bool)
  has_path fuel from to = elim (shortest_path fuel from to) [
    | none ↦ none
    | some (err e) ↦ some (err e)
    | some (ok none) ↦ some (ok false)
    | some (ok (some path)) ↦ some (ok true)
  ]
