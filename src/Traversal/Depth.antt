-- ===== src/Traversal/Depth.antt =====
-- `DFS`, and the wrappers that collect the results of both searches (traversal.go).
use goraphdb.Common.{
  ℕ, zero, suc, Bool, true, false, not, ◌||◌, Option, List, [], ◌∷◌, ◌++◌, if◌then◌else◌,
}
use goraphdb.Common.Results.{Result, ok, err, database_closed}
use goraphdb.Types.{NodeId, Node, Edge}
use goraphdb.Paths.{Visited, visit}
use goraphdb.Traversal.{
  Reads, TraversalResult, Visitor, Ending, complete, halted, refused, out_of_fuel, at_limit,
  target_of, bfs,
}

-- `stackEntry`, the top of the stack first.
pub record StackEntry : Type 0 where
  pub node_id : NodeId
  pub depth : ℕ
  pub path : List Edge

pub record Stacked : Type 0 where
  pub visited : Visited
  pub stack : List StackEntry
  pub calls : List TraversalResult

abbrev reversed {ℓ} : {A : Type ℓ} → List A → List A
reversed [] = []
reversed (x ∷ xs) = reversed xs ++ x ∷ []

module _ (db : Reads) (max_depth : Option ℕ) (edge_filter : Edge → Bool) (visitor : Visitor) where
  dfs_call : NodeId → TraversalResult → Stacked → Bool × Stacked
  dfs_call target r s =
      let called = record s { calls = r ∷ s.calls } in
      let top : StackEntry = record { node_id = target; depth = r.depth; path = r.path } in
      if visitor s.calls r then (true, record called { stack = top ∷ s.stack }) else (false, called)

  dfs_edge : StackEntry → Edge → Stacked → Bool × Stacked
  unfolding dfs_call
  dfs_edge top e s =
      let target = target_of db.direction top.node_id e in
      if not (edge_filter e) || s.visited target
      then (true, s)
      else let s' = record s { visited = visit target s.visited } in
        elim (db.get_node target) [
          | err x ↦ (true, s')
          | ok node ↦
              dfs_call target
                (record { node = node; depth = suc top.depth; path = top.path ++ e ∷ [] }) s'
        ]

  dfs_edges : StackEntry → List Edge → Stacked → Bool × Stacked
  unfolding dfs_edge
  dfs_edges top [] s = (true, s)
  dfs_edges top (e ∷ es) s =
      let r = dfs_edge top e s in elim (r.0) [ false ↦ r | true ↦ dfs_edges top es (r.1) ]

  dfs_after : (Stacked → Ending × Stacked) → Bool × Stacked → Ending × Stacked
  dfs_after go (true, s) = go s
  dfs_after go (false, s) = (halted, s)

  -- The edges of an entry are taken from the last to the first.
  dfs_expand :
      (Stacked → Ending × Stacked) → StackEntry → Result (List Edge) → Stacked → Ending × Stacked
  unfolding dfs_after dfs_edges
  dfs_expand go top (err x) s = (refused x, s)
  dfs_expand go top (ok es) s = dfs_after go (dfs_edges top (reversed es) s)

  dfs_round : (Stacked → Ending × Stacked) → List StackEntry → Stacked → Ending × Stacked
  unfolding dfs_expand
  dfs_round go [] s = (complete, s)
  dfs_round go (top ∷ stack) s =
      let s' = record s { stack = stack } in
      elim (at_limit max_depth top.depth) [
        | true ↦ go s'
        | false ↦ dfs_expand go top (db.edges_of top.node_id) s'
      ]

  -- The loop over the stack, on fuel.
  dfs_loop : ℕ → Stacked → Ending × Stacked
  unfolding dfs_round
  dfs_loop zero s = (out_of_fuel, s)
  dfs_loop (suc fuel) s = dfs_round (λ t. dfs_loop fuel t) s.stack s

  dfs_start : NodeId → Node → Stacked
  dfs_start start_id node = record {
    visited = visit start_id (λ x. false);
    stack = record { node_id = start_id; depth = 0; path = [] } ∷ [];
    calls = record { node = node; depth = 0; path = [] } ∷ [];
  }

  dfs_results : Ending × Stacked → Ending × List TraversalResult
  dfs_results (e, s) = (e, s.calls)

  unfoldable pub dfs : ℕ → NodeId → Ending × List TraversalResult
  unfolding dfs_loop dfs_start dfs_results
  dfs fuel start_id =
      if db.closed then (refused database_closed, []) else elim (db.get_node start_id) [
        | err x ↦ (refused x, [])
        | ok node ↦
            let s = dfs_start start_id node in
            if visitor [] (record { node = node; depth = 0; path = [] })
            then dfs_results (dfs_loop fuel s)
            else (halted, s.calls)
      ]

-- The calls of a visitor that always goes on, the first one first, and those of them that a filter on
-- nodes lets through.
abbrev kept : (Node → Bool) → List TraversalResult → List TraversalResult
kept f [] = []
kept f (r ∷ rs) = let rest = kept f rs in if f r.node then rest ++ r ∷ [] else rest

abbrev collected : (Node → Bool) → Ending × List TraversalResult → Ending × List TraversalResult
collected f (e, calls) = (e, kept f calls)

module _ (db : Reads) (max_depth : Option ℕ) (fuel : ℕ) (start_id : NodeId) where
  unfoldable pub bfs_filtered : (Edge → Bool) → (Node → Bool) → Ending × List TraversalResult
  bfs_filtered edge_filter node_filter =
      collected node_filter (bfs db max_depth edge_filter (λ before r. true) fuel start_id)

  unfoldable pub dfs_filtered : (Edge → Bool) → (Node → Bool) → Ending × List TraversalResult
  dfs_filtered edge_filter node_filter =
      collected node_filter (dfs db max_depth edge_filter (λ before r. true) fuel start_id)

  unfoldable pub bfs_collect : Ending × List TraversalResult
  bfs_collect =
      collected (λ n. true) (bfs db max_depth (λ e. true) (λ before r. true) fuel start_id)

  unfoldable pub dfs_collect : Ending × List TraversalResult
  dfs_collect =
      collected (λ n. true) (dfs db max_depth (λ e. true) (λ before r. true) fuel start_id)
