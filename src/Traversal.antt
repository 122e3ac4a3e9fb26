-- ===== src/Traversal.antt =====
-- traversal.go: breadth-first and depth-first search with a visitor. `Reads` holds the two reads of the
-- database, at one direction. The visitor decides from the results it was called with before, the
-- last one first, and the result at hand; the results of a run are listed in the same order.
pub mod Once
pub mod Depth
mod Tests
use goraphdb.Common.{
  ℕ, zero, suc, ◌+◌, Bool, true, false, not, ◌&&◌, ◌||◌, Option, none, some, List, [], ◌∷◌, ◌++◌,
  leb, ◌==◌, if◌then◌else◌,
}
use goraphdb.Common.Results.{Error, Result, ok, err, database_closed}
use goraphdb.Types.{NodeId, Node, Edge, Direction, outgoing, incoming, both}
use goraphdb.Paths.{Visited, visit}

pub record TraversalResult : Type 0 where
  pub node : Node
  pub depth : ℕ
  pub path : List Edge

pub record Reads : Type 0 where
  pub closed : Bool
  pub direction : Direction
  pub get_node : NodeId → Result Node
  pub edges_of : NodeId → Result (List Edge)

abbrev pub Visitor : Type 0
Visitor = List TraversalResult → TraversalResult → Bool

-- `maxDepth`, none for a negative one.
unfoldable pub at_limit : Option ℕ → ℕ → Bool
at_limit none depth = false
at_limit (some max_depth) depth = leb max_depth depth

unfoldable pub target_of : Direction → NodeId → Edge → NodeId
target_of outgoing id e = e.to
target_of incoming id e = e.from
target_of both id e = if e.to == id then e.from else e.to

-- How a run ends: the queue is empty, the visitor stops it, an edge cannot be read.
pub data Ending : Type 0 where
  complete halted : Ending
  refused : Error → Ending
  out_of_fuel : Ending

pub record Walked : Type 0 where
  pub visited : Visited
  pub path_to : NodeId → List Edge
  pub queue : List (NodeId × ℕ)
  pub calls : List TraversalResult

module _ (db : Reads) (max_depth : Option ℕ) (edge_filter : Edge → Bool) (visitor : Visitor) where
  -- `visited[targetID] = true` and `pathTo[targetID] = edgePath`
  enter : NodeId → List Edge → Walked → Walked
  enter target path s = record s {
    visited = visit target s.visited;
    path_to = λ x. if x == target then path else s.path_to x;
  }

  -- The call of the visitor, and whether the search goes on.
  call_visitor : NodeId → TraversalResult → Walked → Bool × Walked
  call_visitor target r s =
      let called = record s { calls = r ∷ s.calls } in
      if visitor s.calls r
      then (true, record called { queue = s.queue ++ (target, r.depth) ∷ [] })
      else (false, called)

  -- The body of the loop over the edges of an entry.
  bfs_edge : NodeId → ℕ → Edge → Walked → Bool × Walked
  unfolding enter call_visitor
  bfs_edge id depth e s =
      let target = target_of db.direction id e in
      if not (edge_filter e) || s.visited target
      then (true, s)
      else let path = s.path_to id ++ e ∷ [] in
        elim (db.get_node target) [
          | err x ↦ (true, enter target path s)
          | ok node ↦
              call_visitor target (record { node = node; depth = suc depth; path = path })
                (enter target path s)
        ]

  bfs_edges : NodeId → ℕ → List Edge → Walked → Bool × Walked
  unfolding bfs_edge
  bfs_edges id depth [] s = (true, s)
  bfs_edges id depth (e ∷ es) s =
      let r = bfs_edge id depth e s in elim (r.0) [ false ↦ r | true ↦ bfs_edges id depth es (r.1) ]

  after_edges : (Walked → Ending × Walked) → Bool × Walked → Ending × Walked
  after_edges go (true, s) = go s
  after_edges go (false, s) = (halted, s)

  bfs_expand :
      (Walked → Ending × Walked) → NodeId → ℕ → Result (List Edge) → Walked → Ending × Walked
  unfolding after_edges bfs_edges
  bfs_expand go id depth (err x) s = (refused x, s)
  bfs_expand go id depth (ok es) s = after_edges go (bfs_edges id depth es s)

  -- The loop over the queue, on fuel: a round takes one entry.
  bfs_round : (Walked → Ending × Walked) → List (NodeId × ℕ) → Walked → Ending × Walked
  unfolding bfs_expand
  bfs_round go [] s = (complete, s)
  bfs_round go ((id, depth) ∷ queue) s =
      let s' = record s { queue = queue } in
      elim (at_limit max_depth depth) [
        | true ↦ go s'
        | false ↦ bfs_expand go id depth (db.edges_of id) s'
      ]

  bfs_loop : ℕ → Walked → Ending × Walked
  unfolding bfs_round
  bfs_loop zero s = (out_of_fuel, s)
  bfs_loop (suc fuel) s = bfs_round (λ t. bfs_loop fuel t) s.queue s

  start_from : NodeId → Node → Walked
  start_from start_id node = record {
    visited = visit start_id (λ x. false);
    path_to = λ x. [];
    queue = (start_id, 0) ∷ [];
    calls = record { node = node; depth = 0; path = [] } ∷ [];
  }

  results_of : Ending × Walked → Ending × List TraversalResult
  results_of (e, s) = (e, s.calls)

  -- `BFS`: how it ends and the results that the visitor was called with.
  unfoldable pub bfs : ℕ → NodeId → Ending × List TraversalResult
  unfolding bfs_loop start_from results_of
  bfs fuel start_id =
      if db.closed then (refused database_closed, []) else elim (db.get_node start_id) [
        | err x ↦ (refused x, [])
        | ok node ↦
            let s = start_from start_id node in
            if visitor [] (record { node = node; depth = 0; path = [] })
            then results_of (bfs_loop fuel s)
            else (halted, s.calls)
      ]
