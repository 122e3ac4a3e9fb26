-- ===== src/Paths/Growth.antt =====
-- What the expansion of one node adds to the map and the queue.
use mathlib.Core.List.{Memᴰ}
use mathlib.Core.List.Memᴰ
use goraphdb.Common.{
  ℕ, suc, ◌+◌, ◌≤◌, ◌<◌, ◌≡◌, ◌≢◌, refl, sym, ap, subst, ◌∙◌, ◌⊎◌, inl, inr, true, false, not, ◌&&◌,
  List, [], ◌∷◌, ◌++◌, arith, ◌==◌, ==_iff, if◌then◌else◌, length, length-append, append_assoc,
  append-nil, map, Bool-cases,
}
use goraphdb.Types.{Bytes, NodeId, Edge}
use goraphdb.Paths.{Visited, visit, Entry, follows, Expansion, arrived, queued, expand}

pub visit_self : (id : NodeId) (v : Visited) → visit id v id ≡ true
unfolding visit
visit_self id v = ground (arith, ==_iff id id)

pub visit_keeps : (id x : NodeId) (v : Visited) → v x ≡ true → visit id v x ≡ true
unfolding visit
visit_keeps id x v h = ground (arith, h)

visit_same : (x id : NodeId) (v : Visited) → x ≡ id → visit id v x ≡ true
visit_same x id v e = rw e (visit_self id v)

pub visit_other : (id x : NodeId) (v : Visited) → id ≢ x → v x ≡ false → visit id v x ≡ false
unfolding visit
visit_other id x v other h = ground (arith, h, (==_iff x id).0, λ (e : x ≡ id). other (sym e))

pub visit_cases : (id x : NodeId) (v : Visited) → visit id v x ≡ true → (id ≡ x) ⊎ (v x ≡ true)
unfolding visit
visit_cases id x v h = ground (arith, h, ==_iff x id)

-- How many nodes of a list are not visited.
abbrev pub left_in : List NodeId → Visited → ℕ
left_in [] v = 0
left_in (x ∷ xs) v = if v x then left_in xs v else suc (left_in xs v)

visit_le :
    (all : List NodeId) (id : NodeId) (v : Visited) → left_in all (visit id v) ≤ left_in all v
unfolding visit
visit_le [] id v = omega arith
visit_le (x ∷ xs) id v = ground (arith, visit_le xs id v)

pub visit_lt :
    (all : List NodeId) (id : NodeId) (v : Visited)
    → Memᴰ id all
    → v id ≡ false
    → left_in all (visit id v) < left_in all v
unfolding visit
visit_lt [] id v m h = elim m [ ]
visit_lt (x ∷ xs) id v m h = elim (Memᴰ.cases_cons m) [
  | inl e ↦ ground (arith, e, h, ==_iff x id, visit_le xs id v, ap v e)
  | inr rest ↦ ground (arith, visit_lt xs id v rest h, ==_iff x id, ap v)
]

module _ (label : Bytes) (to : NodeId) (path : List Edge) where
  -- What holds of an expansion over `es` from a map and a queue.
  pub record Grown (es : List Edge) (v : Visited) (q : List Entry) (v' : Visited) (q' : List Entry)
      : Type 0 where
    pub keeps : (x : NodeId) → v x ≡ true → v' x ≡ true
    pub enters : (e : Edge) → Memᴰ e es → follows label e ≡ true → v' e.to ≡ true
    pub misses : v to ≡ false → v' to ≡ false
    pub added : List Edge
    pub behind : q' ≡ q ++ map (λ e. (e.to, path ++ e ∷ [])) added
    pub follow : (e : Edge) → Memᴰ e added → Memᴰ e es × (follows label e ≡ true)
    pub new : (x : NodeId) → v' x ≡ true → (v x ≡ true) ⊎ ((e : Edge) × Memᴰ e added × (e.to ≡ x))
    pub counts :
        (all : List NodeId)
        → ((e : Edge) → Memᴰ e es → Memᴰ e.to all)
        → left_in all v' + length q' ≤ left_in all v + length q

  abbrev pub Expanded : List Edge → Visited → List Entry → Expansion → Type 0
  Expanded es v q (arrived p) =
      (e : Edge) × Memᴰ e es × (follows label e ≡ true) × (e.to ≡ to) × (p ≡ path ++ e ∷ [])
  Expanded es v q (queued v' q') = Grown es v q v' q'

  passed_seen :
      (e d : Edge) (v : Visited)
      → (follows label e && not (v e.to)) ≡ false
      → follows label d ≡ true
      → d ≡ e
      → v d.to ≡ true
  passed_seen e d v skip f same = rw same (ground (arith, skip, ap (follows label) same ∙ refl, f))

  -- An edge that is not taken: its label does not fit, or its end is visited.
  passed :
      (e : Edge) (es : List Edge) (v v' : Visited) (q q' : List Entry)
      → (follows label e && not (v e.to)) ≡ false
      → Grown es v q v' q'
      → Grown (e ∷ es) v q v' q'
  passed e es v v' q q' skip g = record {
    keeps = g.keeps;
    enters = λ d m f. elim (Memᴰ.cases_cons m) [
      | inl same ↦ g.keeps d.to (passed_seen e d v skip f same)
      | inr m' ↦ g.enters d m' f
    ];
    misses = g.misses;
    added = g.added;
    behind = g.behind;
    follow = λ d m. let (m', f) = g.follow d m in (Memᴰ.tail m', f);
    new = g.new;
    counts = λ all h. g.counts all (λ d m. h d (Memᴰ.tail m));
  }

  taken :
      (e : Edge) (es : List Edge) (v v' : Visited) (q q' : List Entry)
      → (follows label e && not (v e.to)) ≡ true
      → e.to ≢ to
      → Grown es (visit e.to v) (q ++ (e.to, path ++ e ∷ []) ∷ []) v' q'
      → Grown (e ∷ es) v q v' q'
  taken e es v v' q q' take other g = record {
    keeps = λ x h. g.keeps x (visit_keeps e.to x v h);
    enters = λ d m f. elim (Memᴰ.cases_cons m) [
      | inl same ↦ g.keeps d.to (visit_same d.to e.to v (ap (λ (b : Edge). b.to) same))
      | inr m' ↦ g.enters d m' f
    ];
    misses = λ h. g.misses (visit_other e.to to v other h);
    added = e ∷ g.added;
    behind =
        g.behind
        ∙ append_assoc q ((e.to, path ++ e ∷ []) ∷ []) (map (λ d. (d.to, path ++ d ∷ [])) g.added);
    follow = λ d m. elim (Memᴰ.cases_cons m) [
      | inl same ↦ (Memᴰ.head same, ap (follows label) same ∙ ground (arith, take))
      | inr m' ↦ let (m'', f) = g.follow d m' in (Memᴰ.tail m'', f)
    ];
    new = λ x h. elim (g.new x h) [
      | inl seen ↦ elim (visit_cases e.to x v seen) [
        | inl same ↦ inr (e, Memᴰ.head refl, same)
        | inr before ↦ inl before
      ]
      | inr (d, m, same) ↦ inr (d, Memᴰ.tail m, same)
    ];
    counts = λ all h.
        let one = visit_lt all e.to v (h e (Memᴰ.head refl)) (ground (arith, take)) in
        omega (
          arith,
          one,
          g.counts all (λ d m. h d (Memᴰ.tail m)),
          length-append q ((e.to, path ++ e ∷ []) ∷ []),
        );
  }

  skipped :
      (e : Edge) (es : List Edge) (v : Visited) (q : List Entry) (x : Expansion)
      → (follows label e && not (v e.to)) ≡ false
      → Expanded es v q x
      → Expanded (e ∷ es) v q x
  skipped e es v q (arrived p) skip (d, m, f, t, u) = (d, Memᴰ.tail m, f, t, u)
  skipped e es v q (queued v' q') skip g = passed e es v v' q q' skip g

  first_passes :
      (e : Edge) (es : List Edge) (v : Visited) (q : List Entry) (x : Expansion)
      → (follows label e && not (v e.to)) ≡ true
      → e.to ≢ to
      → Expanded es (visit e.to v) (q ++ (e.to, path ++ e ∷ []) ∷ []) x
      → Expanded (e ∷ es) v q x
  first_passes e es v q (arrived p) take other (d, m, f, t, u) = (d, Memᴰ.tail m, f, t, u)
  first_passes e es v q (queued v' q') take other g = taken e es v v' q q' take other g

  module _ (e : Edge) (es : List Edge) (v : Visited) (q : List Entry) where
    expand_skip :
        (follows label e && not (v e.to)) ≡ false
        → expand label to path (e ∷ es) v q ≡ expand label to path es v q
    unfolding expand
    expand_skip h = rw (h, expand) refl

    expand_arrive :
        (follows label e && not (v e.to)) ≡ true
        → (e.to == to) ≡ true
        → expand label to path (e ∷ es) v q ≡ arrived (path ++ e ∷ [])
    unfolding expand
    expand_arrive h t = rw (h, expand, t) refl

    expand_push :
        (follows label e && not (v e.to)) ≡ true
        → (e.to == to) ≡ false
        → expand label to path (e ∷ es) v q
          ≡ expand label to path es (visit e.to v) (q ++ (e.to, path ++ e ∷ []) ∷ [])
    unfolding expand
    expand_push h t = rw (h, expand, t) refl

  pub expand_lem :
      (es : List Edge) (v : Visited) (q : List Entry)
      → Expanded es v q (expand label to path es v q)
  unfolding expand
  expand_lem [] v q = record {
    keeps = λ x h. h;
    enters = λ e m f. elim m [ ];
    misses = λ h. h;
    added = [];
    behind = sym (append-nil q);
    follow = λ e m. elim m [ ];
    new = λ x h. inl h;
    counts = λ all h. omega arith;
  }
  expand_lem (e ∷ es) v q = elim (Bool-cases (follows label e && not (v e.to))) [
    | inr skip ↦
        subst (Expanded (e ∷ es) v q) (sym (expand_skip e es v q skip))
          (skipped e es v q (expand label to path es v q) skip (expand_lem es v q))
    | inl take ↦ elim (Bool-cases (e.to == to)) [
      | inl here ↦
          subst (Expanded (e ∷ es) v q) (sym (expand_arrive e es v q take here))
            (e, Memᴰ.head refl, ground (arith, take), (==_iff e.to to).0 here, refl)
      | inr on ↦
          let q' = q ++ (e.to, path ++ e ∷ []) ∷ [] in
          subst (Expanded (e ∷ es) v q) (sym (expand_push e es v q take on)) (
            first_passes e es v q (expand label to path es (visit e.to v) q') take
              (λ same. ground (arith, on, ==_iff e.to to, same)) (expand_lem es (visit e.to v) q'))
    ]
  ]
