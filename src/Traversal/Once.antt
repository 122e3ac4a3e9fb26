-- ===== src/Traversal/Once.antt =====
-- What every call of the visitor has in common, and that no node is visited twice.
use mathlib.Core.List.{Memᴰ}
use mathlib.Core.List.Memᴰ
use goraphdb.Common.{
  ℕ, zero, suc, ◌≤◌, ◌≡◌, ◌≢◌, refl, sym, ap, subst, ◌∙◌, ◌⊎◌, inl, inr, Bool, true, false, not,
  ◌||◌, Option, none, some, List, [], ◌∷◌, ◌++◌, arith, ==_iff, if◌then◌else◌, length,
  length-append, Bool-cases, mem_either,
}
use goraphdb.Common.Results.{Error, Result, ok, err}
use goraphdb.Types.{NodeId, Node, Edge}
use goraphdb.Paths.{visit}
use goraphdb.Paths.Growth.{visit_self, visit_keeps}
use goraphdb.Traversal.{
  Reads, TraversalResult, Visitor, Walked, Ending, halted, refused, at_limit, target_of, enter,
  call_visitor, bfs_edge, bfs_edges, after_edges, bfs_expand, bfs_round, bfs_loop, start_from,
  results_of, bfs,
}

abbrev pub Within : Option ℕ → ℕ → Type 0
Within none depth = Unit
Within (some max_depth) depth = depth ≤ max_depth

-- No two results have one node.
abbrev pub IsOnce : List TraversalResult → Type 0
IsOnce [] = Unit
IsOnce (r ∷ rs) = ((q : TraversalResult) → Memᴰ q rs → q.node.id ≢ r.node.id) × IsOnce rs

Result-cases {ℓ} :
    {A : Type ℓ} (r : Result A) → ((a : A) × (r ≡ ok a)) ⊎ ((e : Error) × (r ≡ err e))
Result-cases (ok a) = inl (a, refl)
Result-cases (err e) = inr (e, refl)

next_of : (m : Option ℕ) (depth : ℕ) → at_limit m depth ≡ false → Within m (suc depth)
unfolding at_limit
next_of none depth h = tt
next_of (some max_depth) depth h = ground (arith, h)

only {ℓ} : {A : Type ℓ} {a b : A} → Memᴰ a (b ∷ []) → a ≡ b
only m = elim (Memᴰ.cases_cons m) [ inl e ↦ e | inr in_empty ↦ elim in_empty [ ] ]

Within-zero : (m : Option ℕ) → Within m 0
Within-zero none = tt
Within-zero (some max_depth) = omega arith

module _ (db : Reads) (max_depth : Option ℕ) (edge_filter : Edge → Bool) (visitor : Visitor)
    (ids : (id : NodeId) (n : Node) → db.get_node id ≡ ok n → n.id ≡ id) where
  abbrev pub Measured : TraversalResult → Type 0
  Measured r = (length r.path ≡ r.depth) × Within max_depth r.depth

  -- An entry of the queue: it is visited, and its path has its depth.
  abbrev Held : Walked → NodeId → ℕ → Type 0
  Held s x d = (s.visited x ≡ true) × (length (s.path_to x) ≡ d)

  record Sane (s : Walked) : Type 0 where
    once : IsOnce s.calls
    seen : (q : TraversalResult) → Memᴰ q s.calls → s.visited q.node.id ≡ true
    measured : (q : TraversalResult) → Memᴰ q s.calls → Measured q
    held : (x : NodeId) (d : ℕ) → Memᴰ {A = NodeId × ℕ} (x, d) s.queue → Held s x d

  record Later (s t : Walked) : Type 0 where
    sane : Sane t
    keeps : (x : NodeId) (d : ℕ) → Held s x d → Held t x d

  enter_keeps :
      (target x : NodeId) (path : List Edge) (s : Walked) (d : ℕ)
      → s.visited target ≡ false
      → Held s x d
      → Held (enter db max_depth edge_filter visitor target path s) x d
  unfolding enter visit
  enter_keeps target x path s d new (v, len) =
      ground (arith, v, new, len, ==_iff x target, ap s.visited)

  entered :
      (target : NodeId) (path : List Edge) (s : Walked)
      → s.visited target ≡ false
      → Sane s
      → Later s (enter db max_depth edge_filter visitor target path s)
  unfolding enter
  entered target path s new h = record {
    sane = record {
      once = h.once;
      seen = λ q m. visit_keeps target q.node.id s.visited (h.seen q m);
      measured = h.measured;
      held = λ x d m. enter_keeps target x path s d new (h.held x d m);
    };
    keeps = λ x d k. enter_keeps target x path s d new k;
  }

  own_entry :
      (target : NodeId) (path : List Edge) (s : Walked)
      → Held (enter db max_depth edge_filter visitor target path s) target (length path)
  unfolding enter
  own_entry target path s = (visit_self target s.visited, ground (arith, ==_iff target target))

  -- A result of a node that was not visited stands beside the others.
  recorded :
      (target : NodeId) (path : List Edge) (s : Walked) (r : TraversalResult)
      → s.visited target ≡ false
      → Sane s
      → r.node.id ≡ target
      → Measured r
      → (queue : List (NodeId × ℕ))
      → ((x : NodeId) (d : ℕ)
          → Memᴰ {A = NodeId × ℕ} (x, d) queue
          → Held (enter db max_depth edge_filter visitor target path s) x d)
      → Sane (record (enter db max_depth edge_filter visitor target path s) {
        calls = r ∷ s.calls;
        queue = queue;
      })
  unfolding enter
  recorded target path s r new h same fits queue held = record {
    once = (λ q m e. absurd (ground (arith, new, h.seen q m, ap s.visited (e ∙ same))), h.once);
    seen = λ q m. elim (Memᴰ.cases_cons m) [
      | inl e ↦
          subst (λ y. visit target s.visited y ≡ true)
            (sym (ap (λ (t : TraversalResult). t.node.id) e ∙ same)) (visit_self target s.visited)
      | inr m' ↦ visit_keeps target q.node.id s.visited (h.seen q m')
    ];
    measured = λ q m. elim (Memᴰ.cases_cons m) [
      | inl e ↦ subst Measured (sym e) fits
      | inr m' ↦ h.measured q m'
    ];
    held = held;
  }

  called :
      (target : NodeId) (path : List Edge) (s : Walked) (r : TraversalResult)
      → s.visited target ≡ false
      → Sane s
      → r.node.id ≡ target
      → Measured r
      → length path ≡ r.depth
      → Later s
          (call_visitor db max_depth edge_filter visitor target r
            (enter db max_depth edge_filter visitor target path s)).1
  unfolding call_visitor enter
  called target path s r new h same fits len = elim (Bool-cases (visitor s.calls r)) [
    | inr stop ↦ rw stop (record {
      sane =
          recorded target path s r new h same fits s.queue
            (λ x d m. enter_keeps target x path s d new (h.held x d m));
      keeps = λ x d k. enter_keeps target x path s d new k;
    })
    | inl go ↦ rw go (record {
      sane = recorded target path s r new h same fits (s.queue ++ (target, r.depth) ∷ []) (λ x d m.
          elim (mem_either s.queue ((target, r.depth) ∷ []) m) [
            | inl old ↦ enter_keeps target x path s d new (h.held x d old)
            | inr fresh ↦ elim (Memᴰ.cases_cons fresh) [
              | inl e ↦
                  subst
                    (λ (p : NodeId × ℕ).
                      Held (enter db max_depth edge_filter visitor target path s) (p.0) (p.1))
                    (sym e)
                    (subst (Held (enter db max_depth edge_filter visitor target path s) target) len
                      (own_entry target path s))
              | inr in_empty ↦ elim in_empty [ ]
            ]
          ]);
      keeps = λ x d k. enter_keeps target x path s d new k;
    })
  ]

  unchanged : (s : Walked) → Sane s → Later s s
  unchanged s h = record { sane = h; keeps = λ x d k. k }

  afterwards : (s t u : Walked) → Later s t → Later t u → Later s u
  afterwards s t u a b = record { sane = b.sane; keeps = λ x d k. b.keeps x d (a.keeps x d k) }

  edge_lem :
      (id : NodeId) (depth : ℕ) (e : Edge) (s : Walked)
      → Sane s
      → Held s id depth
      → Within max_depth (suc depth)
      → Later s (bfs_edge db max_depth edge_filter visitor id depth e s).1
  unfolding bfs_edge
  edge_lem id depth e s h parent within =
      let target = target_of db.direction id e in
      let path = s.path_to id ++ e ∷ [] in
      let len : length path ≡ suc depth =
        omega (arith, length-append (s.path_to id) (e ∷ []), parent.1) in
      elim (Bool-cases (not (edge_filter e) || s.visited target)) [
        | inl skip ↦ rw skip (unchanged s h)
        | inr take ↦
            let new : s.visited target ≡ false = ground (arith, take) in
            elim (Result-cases (db.get_node target)) [
              | inl (node, found) ↦
                  rw (take, found)
                    (called target path s (record { node = node; depth = suc depth; path = path })
                      new h (ids target node found) (len, within) len)
              | inr (x, lost) ↦ rw (take, lost) (entered target path s new h)
            ]
      ]

  edges_stop :
      (id : NodeId) (depth : ℕ) (e : Edge) (es : List Edge) (s : Walked)
      → (bfs_edge db max_depth edge_filter visitor id depth e s).0 ≡ false
      → bfs_edges db max_depth edge_filter visitor id depth (e ∷ es) s
        ≡ bfs_edge db max_depth edge_filter visitor id depth e s
  unfolding bfs_edges
  edges_stop id depth e es s h = rw (h, bfs_edges) refl

  edges_go :
      (id : NodeId) (depth : ℕ) (e : Edge) (es : List Edge) (s : Walked)
      → (bfs_edge db max_depth edge_filter visitor id depth e s).0 ≡ true
      → bfs_edges db max_depth edge_filter visitor id depth (e ∷ es) s
        ≡ bfs_edges db max_depth edge_filter visitor id depth es
            (bfs_edge db max_depth edge_filter visitor id depth e s).1
  unfolding bfs_edges
  edges_go id depth e es s h = rw (h, bfs_edges) refl

  edges_lem :
      (id : NodeId) (depth : ℕ) (es : List Edge) (s : Walked)
      → Sane s
      → Held s id depth
      → Within max_depth (suc depth)
      → Later s (bfs_edges db max_depth edge_filter visitor id depth es s).1
  unfolding bfs_edges
  edges_lem id depth [] s h parent within = unchanged s h
  edges_lem id depth (e ∷ es) s h parent within =
      let t = (bfs_edge db max_depth edge_filter visitor id depth e s).1 in
      let one = edge_lem id depth e s h parent within in
      elim (Bool-cases (bfs_edge db max_depth edge_filter visitor id depth e s).0) [
        | inr stop ↦
            subst (λ (r : Bool × Walked). Later s r.1) (sym (edges_stop id depth e es s stop)) one
        | inl go ↦
            subst (λ (r : Bool × Walked). Later s r.1) (sym (edges_go id depth e es s go))
              (afterwards s t (bfs_edges db max_depth edge_filter visitor id depth es t).1 one
                (edges_lem id depth es t one.sane (one.keeps id depth parent) within))
      ]

  after_lem :
      (go : Walked → Ending × Walked) (r : Bool × Walked)
      → ((s : Walked) → Sane s → Sane (go s).1)
      → Sane r.1
      → Sane (after_edges db max_depth edge_filter visitor go r).1
  unfolding after_edges
  after_lem go (true, s) rest h = rest s h
  after_lem go (false, s) rest h = h

  Within-next : (depth : ℕ) → at_limit max_depth depth ≡ false → Within max_depth (suc depth)
  Within-next depth h = next_of max_depth depth h

  expand_lem :
      (go : Walked → Ending × Walked) (id : NodeId) (depth : ℕ) (r : Result (List Edge))
      (s : Walked)
      → ((s : Walked) → Sane s → Sane (go s).1)
      → Sane s
      → Held s id depth
      → Within max_depth (suc depth)
      → Sane (bfs_expand db max_depth edge_filter visitor go id depth r s).1
  unfolding bfs_expand
  expand_lem go id depth (err x) s rest h parent within = h
  expand_lem go id depth (ok es) s rest h parent within =
      after_lem go (bfs_edges db max_depth edge_filter visitor id depth es s) rest
        (edges_lem id depth es s h parent within).sane

  module _ (go : Walked → Ending × Walked) (id : NodeId) (depth : ℕ) (queue : List (NodeId × ℕ))
      (s : Walked) where
    round_skips :
        at_limit max_depth depth ≡ true
        → bfs_round db max_depth edge_filter visitor go ((id, depth) ∷ queue) s
          ≡ go (record s { queue = queue })
    unfolding bfs_round
    round_skips h = rw (h, bfs_round) refl

    round_expands :
        at_limit max_depth depth ≡ false
        → bfs_round db max_depth edge_filter visitor go ((id, depth) ∷ queue) s
          ≡ bfs_expand db max_depth edge_filter visitor go id depth
              (db.edges_of id)
              (record s { queue = queue })
    unfolding bfs_round
    round_expands h = rw (h, bfs_round) refl

  round_lem :
      (go : Walked → Ending × Walked) (queue : List (NodeId × ℕ)) (s : Walked)
      → ((s : Walked) → Sane s → Sane (go s).1)
      → Sane s
      → s.queue ≡ queue
      → Sane (bfs_round db max_depth edge_filter visitor go queue s).1
  unfolding bfs_round
  round_lem go [] s rest h e = h
  round_lem go ((id, depth) ∷ queue) s rest h e =
      let t = record s { queue = queue } in
      let at_front : (x : NodeId) (d : ℕ)
          → Memᴰ {A = NodeId × ℕ} (x, d) ((id, depth) ∷ queue)
          → Held s x d =
        λ x d m. h.held x d (subst (Memᴰ {A = NodeId × ℕ} (x, d)) (sym e) m) in
      let popped : Sane t = record {
        once = h.once;
        seen = h.seen;
        measured = h.measured;
        held = λ x d m. at_front x d (Memᴰ.tail m);
      } in
      elim (Bool-cases (at_limit max_depth depth)) [
        | inl limit ↦
            subst (λ (r : Ending × Walked). Sane r.1) (sym (round_skips go id depth queue s limit))
              (rest t popped)
        | inr below ↦
            subst (λ (r : Ending × Walked). Sane r.1)
              (sym (round_expands go id depth queue s below))
              (expand_lem go id depth (db.edges_of id) t rest popped
                (at_front id depth (Memᴰ.head refl)) (Within-next depth below))
      ]

  loop_lem :
      (fuel : ℕ) (s : Walked) → Sane s → Sane (bfs_loop db max_depth edge_filter visitor fuel s).1
  unfolding bfs_loop
  loop_lem zero s h = h
  loop_lem (suc fuel) s h =
      round_lem (λ t. bfs_loop db max_depth edge_filter visitor fuel t) s.queue s (loop_lem fuel) h
        refl

  Sane-at_start :
      (start_id : NodeId) (node : Node)
      → db.get_node start_id ≡ ok node
      → Sane (start_from db max_depth edge_filter visitor start_id node)
  unfolding start_from
  Sane-at_start start_id node found = record {
    once = ((λ q m. elim m [ ]), tt);
    seen = λ q m.
        subst (λ y. visit start_id (λ x. false) y ≡ true)
          (sym (ap (λ (t : TraversalResult). t.node.id) (only m) ∙ ids start_id node found))
          (visit_self start_id (λ x. false));
    measured = λ q m. subst Measured (sym (only m)) (refl, Within-zero max_depth);
    held = λ x d m.
        subst (λ (p : NodeId × ℕ). (visit start_id (λ y. false) (p.0) ≡ true) × (0 ≡ p.1))
          (sym (only m)) (visit_self start_id (λ x. false), refl);
  }

  abbrev Listed : List TraversalResult → Type 0
  Listed rs =
      IsOnce rs
      × ((q : TraversalResult) → Memᴰ q rs → (length q.path ≡ q.depth) × Within max_depth q.depth)

  Listed-nothing : Listed []
  Listed-nothing = (tt, λ q m. elim m [ ])

  Listed-results :
      (r : Ending × Walked) → Sane r.1 → Listed (results_of db max_depth edge_filter visitor r).1
  unfolding results_of
  Listed-results (e, s) h = (h.once, h.measured)

  module _ (fuel : ℕ) (start_id : NodeId) (is_open : db.closed ≡ false) where
    bfs_lost :
        (x : Error)
        → db.get_node start_id ≡ err x
        → bfs db max_depth edge_filter visitor fuel start_id ≡ (refused x, [])
    unfolding bfs
    bfs_lost x h = rw (is_open, h) refl

    bfs_found :
        (node : Node)
        → db.get_node start_id ≡ ok node
        → bfs db max_depth edge_filter visitor fuel start_id ≡ (
            if visitor [] (record { node = node; depth = 0; path = [] })
            then results_of db max_depth edge_filter visitor (
                bfs_loop db max_depth edge_filter visitor fuel
                  (start_from db max_depth edge_filter visitor start_id node))
            else (halted, (start_from db max_depth edge_filter visitor start_id node).calls))
    unfolding bfs
    bfs_found node h = rw (is_open, h) refl

  Listed-found :
      (b : Bool) (fuel : ℕ) (s : Walked)
      → Sane s
      → Listed
          (if b
            then results_of db max_depth edge_filter visitor
                (bfs_loop db max_depth edge_filter visitor fuel s)
            else (halted, s.calls)).1
  Listed-found true fuel s h =
      Listed-results (bfs_loop db max_depth edge_filter visitor fuel s) (loop_lem fuel s h)
  Listed-found false fuel s h = (h.once, h.measured)

  -- In a run of the breadth-first search on an open database whose reads return the node that was asked
  -- for, with any visitor, no node is visited twice, every result has the depth of its path, and no depth
  -- is above the limit.
  pub bfs-IsOnce :
      (fuel : ℕ) (start_id : NodeId)
      → db.closed ≡ false
      → IsOnce (bfs db max_depth edge_filter visitor fuel start_id).1
        × ((q : TraversalResult)
            → Memᴰ q (bfs db max_depth edge_filter visitor fuel start_id).1
            → (length q.path ≡ q.depth) × Within max_depth q.depth)
  bfs-IsOnce fuel start_id is_open = elim (Result-cases (db.get_node start_id)) [
    | inr (x, lost) ↦
        subst (λ (r : Ending × List TraversalResult). Listed r.1)
          (sym (bfs_lost fuel start_id is_open x lost)) Listed-nothing
    | inl (node, found) ↦
        subst (λ (r : Ending × List TraversalResult). Listed r.1)
          (sym (bfs_found fuel start_id is_open node found))
          (Listed-found (visitor [] (record { node = node; depth = 0; path = [] })) fuel
            (start_from db max_depth edge_filter visitor start_id node)
            (Sane-at_start start_id node found))
  ]
