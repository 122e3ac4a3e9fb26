-- ===== src/Paths/Shortest.antt =====
-- What the search returns, over a graph whose reads succeed: the fuel suffices, a path is a walk that
-- no other undercuts, and nil means that there is none.
use mathlib.Core.List.{Memᴰ}
use mathlib.Core.List.Memᴰ
use goraphdb.Common.{
  ℕ, zero, suc, ◌+◌, ◌≤◌, ◌<◌, ◌≡◌, ◌≢◌, ◌↔◌, refl, sym, ap, subst, ◌∙◌, ◌⊎◌, inl, inr, Bool, true,
  false, none, some, List, [], ◌∷◌, ◌++◌, arith, ◌==◌, ==_iff, length, length-append, append_assoc,
  append-nil, map, Bool-cases,
}
use goraphdb.Common.Results.{ok, ◌>>=◌}
use goraphdb.Types.{Bytes, NodeId, Node, Edge}
use goraphdb.Paths.{
  Graph, PathResult, Visited, visit, Entry, Expansion, arrived, queued, expand, Outcome, found,
  absent, failed, out_of_fuel, proceed, with_edges, search, collect, build_path_result, finish,
  shortest_path_labeled, shortest_path, has_path,
}
use goraphdb.Paths.Growth.{left_in, Expanded, expand_lem, visit_cases, visit_self, visit_other}
use goraphdb.Paths.Layers.{
  Walk, nothing, onward, Among, Settled, Frontier, IsAnswer, none_left, shift, arrives, grows,
}

left_le : (all : List NodeId) (v : Visited) → left_in all v ≤ length all
left_le [] v = omega arith
left_le (x ∷ all) v = ground (arith, left_le all v)

module _ (graph : Graph) (out : NodeId → List Edge)
    (reads : (id : NodeId) → graph.edges_of id ≡ ok (out id)) (label : Bytes) (from to : NodeId)
    (all : List NodeId) (ends : (x : NodeId) (e : Edge) → Memᴰ e (out x) → Memᴰ e.to all) where
  -- What the search does from the frontiers of one fuel.
  abbrev Searches : ℕ → Type 0
  Searches fuel =
      (d : ℕ) (near far : List Entry) (v : Visited)
      → Frontier out label from to d near far v
      → left_in all v + length (near ++ far) < fuel
      → IsAnswer out label from to (search graph fuel label to v (near ++ far))

  module _ (fuel : ℕ) (rest : Searches fuel) (d : ℕ) (id : NodeId) (path : List Edge)
      (near far : List Entry) (v : Visited)
      (f : Frontier out label from to d ((id, path) ∷ near) far v)
      (bound : left_in all v + length (near ++ far) < fuel) where
    after_expansion :
        (x : Expansion)
        → Expanded label to path (out id) v (near ++ far) x
        → IsAnswer out label from to (proceed (λ v q. search graph fuel label to v q) x)
    unfolding proceed
    after_expansion (arrived p) h = arrives out label from to d id path near far v f p h
    after_expansion (queued v' q) g =
        let back = far ++ map (λ e. (e.to, path ++ e ∷ [])) g.added in
        let same : q ≡ near ++ back =
          g.behind ∙ append_assoc near far (map (λ e. (e.to, path ++ e ∷ [])) g.added) in
        subst (λ q. IsAnswer out label from to (search graph fuel label to v' q)) (sym same)
          (rest d near back v' (grows out label from to d id path near far v f v' q g)
            (omega (arith, bound, ap length same, g.counts all (ends id))))

    round :
        IsAnswer out label from to (search graph (suc fuel) label to v ((id, path) ∷ (near ++ far)))
    unfolding search with_edges
    round = rw (reads id) (
        after_expansion (expand label to path (out id) v (near ++ far))
          (expand_lem label to path (out id) v (near ++ far)))

  search_lem : (fuel : ℕ) → Searches fuel
  unfolding search
  search_lem zero d near far v f bound = absurd (omega (arith, bound))
  search_lem (suc fuel) d [] [] v f bound = none_left out label from to d v f
  search_lem (suc fuel) d ((id, path) ∷ near) far v f bound =
      round fuel (search_lem fuel) d id path near far v f (omega (arith, bound))
  search_lem (suc fuel) d [] ((id, path) ∷ far) v f bound =
      subst (λ q. IsAnswer out label from to (search graph (suc fuel) label to v ((id, path) ∷ q)))
        (append-nil far)
        (round fuel (search_lem fuel) (suc d) id path far [] v
          (shift out label from to d ((id, path) ∷ far) v f)
          (omega (arith, bound, ap length (append-nil far))))

  at_start :
      (x : NodeId) → visit from (λ x. false) x ≡ true → Among out label from to x ((from, []) ∷ [])
  at_start x h = elim (visit_cases from x (λ x. false) h) [
    | inl same ↦ ([], Memᴰ.head (ap (λ y. (y, [])) (sym same)))
    | inr never ↦ absurd (ground (arith, never))
  ]

  reached_at_start :
      (x : NodeId) (p : List Edge)
      → Walk out label from x p
      → length p ≤ 0
      → (visit from (λ x. false) x ≡ true)
        × (Among out label from to x ((from, []) ∷ [])
            ⊎ Settled out label from to x (visit from (λ x. false)))
  reached_at_start x p nothing le = (visit_self from (λ x. false), inl ([], Memᴰ.head refl))
  reached_at_start x p (onward {p = r} w e m g) le =
      absurd (omega (arith, le, length-append r (e ∷ [])))

  started : from ≢ to → Frontier out label from to 0 ((from, []) ∷ []) [] (visit from (λ x. false))
  started other = record {
    fronts = λ x p m. elim (Memᴰ.cases_cons m) [
      | inl same ↦
          subst (λ (s : Entry). Walk out label from (s.0) (s.1) × (length (s.1) ≡ 0)) (sym same)
            (nothing, refl)
      | inr in_empty ↦ elim in_empty [ ]
    ];
    backs = λ x p m. elim m [ ];
    settled = λ x h. inl (at_start x h);
    reached = λ x p w le. reached_at_start x p w le;
    missed = visit_other from to (λ x. false) other refl;
  }

  -- The two ways to end.
  abbrev Ends : Outcome → Type 0
  Ends o =
      ((p : List Edge) × (o ≡ found p) × IsAnswer out label from to (found p))
      ⊎ (o ≡ absent) × IsAnswer out label from to absent

  Ends-of : (o : Outcome) → IsAnswer out label from to o → Ends o
  Ends-of (found p) h = inl (p, refl, h)
  Ends-of absent h = inr (refl, h)
  Ends-of (failed e) h = absurd h
  Ends-of out_of_fuel h = absurd h

  searched :
      (fuel : ℕ)
      → from ≢ to
      → length all + 1 < fuel
      → Ends (search graph fuel label to (visit from (λ x. false)) ((from, []) ∷ []))
  searched fuel other enough =
      Ends-of (search graph fuel label to (visit from (λ x. false)) ((from, []) ∷ [])) (
        search_lem fuel 0 ((from, []) ∷ []) [] (visit from (λ x. false)) (started other)
          (omega (arith, enough, left_le all (visit from (λ x. false)))))

  runs :
      (fuel : ℕ)
      → graph.closed ≡ false
      → from ≢ to
      → shortest_path_labeled graph fuel from to label
        ≡ finish graph from (search graph fuel label to (visit from (λ x. false)) ((from, []) ∷ []))
  unfolding shortest_path_labeled
  runs fuel is_open other = ground (arith, is_open, (==_iff from to).0, other)

  -- On an open database whose edges can be read, all of them ending in a list of nodes, and between two
  -- different nodes, the search with fuel above the length of that list and one ends: with the result
  -- built from a walk along the allowed edges that is no longer than any other, or with nil, and then
  -- there is no such walk.
  pub shortest_path_lem :
      (fuel : ℕ)
      → graph.closed ≡ false
      → from ≢ to
      → length all + 1 < fuel
      → ((p : List Edge) × Walk out label from to p
          × ((r : List Edge) → Walk out label from to r → length p ≤ length r)
          × (shortest_path_labeled graph fuel from to label
              ≡ some (build_path_result graph from p >>= λ result. ok (some result))))
        ⊎ ((r : List Edge) → ¬ Walk out label from to r)
          × (shortest_path_labeled graph fuel from to label ≡ some (ok none))
  unfolding finish
  shortest_path_lem fuel is_open other enough = elim (searched fuel other enough) [
    | inl (p, e, (w, least)) ↦ inl (p, w, least, runs fuel is_open other ∙ ap (finish graph from) e)
    | inr (e, no_walk) ↦ inr (no_walk, runs fuel is_open other ∙ ap (finish graph from) e)
  ]

module _ (graph : Graph) (out : NodeId → List Edge)
    (reads : (id : NodeId) → graph.edges_of id ≡ ok (out id)) (all : List NodeId)
    (ends : (x : NodeId) (e : Edge) → Memᴰ e (out x) → Memᴰ e.to all) (from : NodeId)
    (start : (n : Node) × (graph.get_node from ≡ ok n))
    (targets : (x : NodeId) (e : Edge)
      → Memᴰ e (out x)
      → (n : Node) × (graph.get_node e.to ≡ ok n)) where
  abbrev Readable : List Edge → Type 0
  Readable p = (e : Edge) → Memᴰ e p → (n : Node) × (graph.get_node e.to ≡ ok n)

  Walk-Readable : (x : NodeId) (p : List Edge) → Walk out [] from x p → Readable p
  Walk-Readable x p nothing = λ e m. elim m [ ]
  Walk-Readable x p (onward {x = y} {p = q} w e m g) = λ d k. elim (Memᴰ.append_cases q k) [
    | inl old ↦ Walk-Readable y q w d old
    | inr last ↦ elim (Memᴰ.cases_cons last) [
      | inl same ↦
          subst (λ (c : Edge). (n : Node) × (graph.get_node c.to ≡ ok n)) (sym same) (targets y e m)
      | inr in_empty ↦ elim in_empty [ ]
    ]
  ]

  collected :
      (p : List Edge) → Readable p → (ns : List Node) × (collect graph (map (λ d. d.to) p) ≡ ok ns)
  unfolding collect
  collected [] nodes = ([], refl)
  collected (d ∷ p) nodes =
      let (n, e) = nodes d (Memᴰ.head refl) in
      let (ns, es) = collected p (λ c m. nodes c (Memᴰ.tail m)) in (n ∷ ns, rw (e, es) refl)

  built : (p : List Edge) → Readable p → (r : PathResult) × (build_path_result graph from p ≡ ok r)
  unfolding build_path_result collect
  built p nodes =
      let (n, here) = start in
      let (ns, e) = collected p nodes in
      (record { nodes = n ∷ ns; edges = p; cost = length p }, rw (here, e) refl)

  same_node :
      (to : NodeId) (fuel : ℕ)
      → graph.closed ≡ false
      → from ≡ to
      → (r : PathResult) × (shortest_path graph fuel from to ≡ some (ok (some r)))
  unfolding shortest_path shortest_path_labeled
  same_node to fuel is_open same =
      let (n, e) = start in
      let equal : (from == to) ≡ true = (==_iff from to).1 same in
      (record { nodes = n ∷ []; edges = []; cost = 0 }, rw (is_open, equal, e) refl)

  path_of :
      (fuel : ℕ) (to : NodeId) (p : List Edge)
      → Readable p
      → shortest_path_labeled graph fuel from to []
        ≡ some (build_path_result graph from p >>= λ result. ok (some result))
      → (r : PathResult) × (shortest_path graph fuel from to ≡ some (ok (some r)))
  unfolding shortest_path
  path_of fuel to p nodes h = let (r, e) = built p nodes in (r, h ∙ rw e refl)

  no_path :
      (fuel : ℕ) (to : NodeId)
      → shortest_path_labeled graph fuel from to [] ≡ some (ok none)
      → has_path graph fuel from to ≡ some (ok false)
  unfolding shortest_path has_path
  no_path fuel to h = rw (h, has_path) refl

  some_path :
      (fuel : ℕ) (to : NodeId) (r : PathResult)
      → shortest_path graph fuel from to ≡ some (ok (some r))
      → has_path graph fuel from to ≡ some (ok true)
  unfolding has_path
  some_path fuel to r h = rw (h, has_path) refl

  -- On an open database whose edges can be read, all of them ending in a list of nodes, where the first
  -- node and the targets of the edges can be read, and with fuel above the length of that list and one,
  -- the test for a path returns true exactly if there is a walk along outgoing edges.
  pub has_path_lem :
      (to : NodeId) (fuel : ℕ)
      → graph.closed ≡ false
      → length all + 1 < fuel
      → (b : Bool) × (has_path graph fuel from to ≡ some (ok b))
        × ((b ≡ true) ↔ ((p : List Edge) × Walk out [] from to p))
  has_path_lem to fuel is_open enough = elim (Bool-cases (from == to)) [
    | inl equal ↦
        let same = (==_iff from to).0 equal in
        let (r, e) = same_node to fuel is_open same in
        (
          true,
          some_path fuel to r e,
          (λ _. ([], subst (λ x. Walk out [] from x []) same nothing), λ _. refl),
        )
    | inr differ ↦
        let other : from ≢ to = λ same. ground (arith, differ, (==_iff from to).1 same) in
        elim (shortest_path_lem graph out reads [] from to all ends fuel is_open other enough) [
          | inl (p, w, least, h) ↦
              let (r, e) = path_of fuel to p (Walk-Readable to p w) h in
              (true, some_path fuel to r e, (λ _. (p, w), λ _. refl))
          | inr (none_there, h) ↦ (
            false,
            no_path fuel to h,
            (λ e. ground (arith, e), λ (p, w). absurd (none_there p w)),
          )
        ]
  ]
