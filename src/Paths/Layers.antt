-- ===== src/Paths/Layers.antt =====
-- The search in layers: the front of the queue holds paths of one length, its back paths of one more.
use mathlib.Core.List.{Memᴰ}
use mathlib.Core.List.Memᴰ
use goraphdb.Common.{
  ℕ, suc, ◌≤◌, ◌≡◌, refl, sym, ap, subst, ◌⊎◌, inl, inr, true, false, List, [], ◌∷◌, ◌++◌, arith,
  length, length-append, map, dec_lt, mem_either, mem_left, mem_right, mem_mapped, mem_of_map,
}
use goraphdb.Types.{Bytes, NodeId, Edge}
use goraphdb.Paths.{Visited, Entry, follows, arrived, Outcome, found, absent, failed, out_of_fuel}
use goraphdb.Paths.Growth.{Grown, Expanded}

-- A walk from a node along the outgoing edges that the label allows.
pub data Walk (out : NodeId → List Edge) (label : Bytes) (from : NodeId)
    : NodeId → List Edge → Type 0 where
  nothing : Walk out label from from []
  onward :
      {x : NodeId} {p : List Edge}
      → Walk out label from x p
      → (e : Edge) → Memᴰ e (out x)
      → follows label e ≡ true
      → Walk out label from e.to (p ++ e ∷ [])

module _ (out : NodeId → List Edge) (label : Bytes) (from to : NodeId) where
  -- The nodes of a part of the queue.
  abbrev pub Among : NodeId → List Entry → Type 0
  Among x q = (p : List Edge) × Memᴰ (x, p) q

  abbrev pub Settled : NodeId → Visited → Type 0
  Settled x v = (e : Edge) → Memᴰ e (out x) → follows label e ≡ true → v e.to ≡ true

  abbrev pub Layered : ℕ → List Entry → Type 0
  Layered d q =
      (x : NodeId) (p : List Edge) → Memᴰ (x, p) q → Walk out label from x p × (length p ≡ d)

  pub record Frontier (d : ℕ) (near far : List Entry) (v : Visited) : Type 0 where
    pub fronts : Layered d near
    pub backs : Layered (suc d) far
    pub settled : (x : NodeId) → v x ≡ true → Among x near ⊎ Among x far ⊎ Settled x v
    pub reached :
        (x : NodeId) (p : List Edge)
        → Walk out label from x p
        → length p ≤ d
        → (v x ≡ true) × (Among x near ⊎ Settled x v)
    pub missed : v to ≡ false

  -- What an outcome tells of the walks.
  abbrev pub IsAnswer : Outcome → Type 0
  IsAnswer (found p) =
      Walk out label from to p × ((r : List Edge) → Walk out label from to r → length p ≤ length r)
  IsAnswer absent = (r : List Edge) → ¬ Walk out label from to r
  IsAnswer (failed e) = ⊥
  IsAnswer out_of_fuel = ⊥

  -- With an empty queue the map is closed.
  closed_under :
      (d : ℕ) (v : Visited)
      → Frontier d [] [] v
      → (x : NodeId) (p : List Edge) → Walk out label from x p
      → v x ≡ true
  closed_under d v f x p nothing = (f.reached from [] nothing (omega arith)).0
  closed_under d v f x p (onward {x = y} {p = r} w e m g) =
      elim (f.settled y (closed_under d v f y r w)) [
        | inl (q, in_empty) ↦ elim in_empty [ ]
        | inr (inl (q, in_empty)) ↦ elim in_empty [ ]
        | inr (inr all) ↦ all e m g
      ]

  pub none_left : (d : ℕ) (v : Visited) → Frontier d [] [] v → IsAnswer absent
  none_left d v f r w = absurd (ground (arith, f.missed, closed_under d v f to r w))

  Settled-in_layer :
      (d : ℕ) (far : List Entry) (v : Visited) (x : NodeId)
      → Frontier d [] far v
      → v x ≡ true
      → Among x far ⊎ Settled x v
  Settled-in_layer d far v x f h = elim (f.settled x h) [
    | inl (q, in_empty) ↦ elim in_empty [ ]
    | inr rest ↦ rest
  ]

  next_reached :
      (d : ℕ) (far : List Entry) (v : Visited) (x : NodeId) (p : List Edge)
      → Frontier d [] far v
      → Walk out label from x p
      → length p ≤ suc d
      → v x ≡ true
  next_reached d far v x p f nothing le = (f.reached from [] nothing (omega arith)).0
  next_reached d far v x p f (onward {x = y} {p = r} w e m g) le =
      elim (f.reached y r w (omega (arith, length-append r (e ∷ [])))).1 [
        | inl (q, in_empty) ↦ elim in_empty [ ]
        | inr all ↦ all e m g
      ]

  -- An empty front: the back is the next layer.
  pub shift :
      (d : ℕ) (far : List Entry) (v : Visited) → Frontier d [] far v → Frontier (suc d) far [] v
  shift d far v f = record {
    fronts = f.backs;
    backs = λ x p m. elim m [ ];
    settled =
        λ x h. elim (Settled-in_layer d far v x f h) [ inl a ↦ inl a | inr all ↦ inr (inr all) ];
    reached =
        λ x p w le. let h = next_reached d far v x p f w le in (h, Settled-in_layer d far v x f h);
    missed = f.missed;
  }

  -- One entry expanded.
  module _ (d : ℕ) (id : NodeId) (path : List Edge) (near far : List Entry) (v : Visited)
      (f : Frontier d ((id, path) ∷ near) far v) where
    pub arrives :
        (p : List Edge)
        → Expanded label to path (out id) v (near ++ far) (arrived p)
        → IsAnswer (found p)
    arrives p (e, m, g, t, same) =
        let (w, len) = f.fronts id path (Memᴰ.head refl) in
        let walk : Walk out label from to (path ++ e ∷ []) =
          subst (λ y. Walk out label from y (path ++ e ∷ [])) t (onward w e m g) in
        (
          subst (Walk out label from to) (sym same) walk,
          λ r other. elim (dec_lt (length r) (length p)) [
            | no far_enough ↦ omega (arith, far_enough)
            | yes short ↦ absurd (
                ground (
                  arith,
                  f.missed,
                  (f.reached to r other
                      (omega (arith, short, len, ap length same, length-append path (e ∷ [])))).0,
                ))
          ],
        )

    pushed-Walk :
        (added : List Edge) (x : NodeId) (p : List Edge)
        → ((e : Edge) → Memᴰ e added → Memᴰ e (out id) × (follows label e ≡ true))
        → Memᴰ {A = Entry} (x, p) (map (λ (e : Edge). (e.to, path ++ e ∷ [])) added)
        → Walk out label from x p × (length p ≡ suc d)
    pushed-Walk added x p from_out m =
        let (e, m', same) = mem_of_map (λ (e : Edge). (e.to, path ++ e ∷ [])) added m in
        let (w, len) = f.fronts id path (Memᴰ.head refl) in
        let (o, g) = from_out e m' in
        subst (λ (s : Entry). Walk out label from (s.0) (s.1) × (length (s.1) ≡ suc d)) (sym same)
          (onward w e o g, omega (arith, len, length-append path (e ∷ [])))

    -- The entry that left the front is settled.
    leaves :
        (v' : Visited)
        → ((x : NodeId) → v x ≡ true → v' x ≡ true)
        → Settled id v'
        → (x : NodeId) → Among x ((id, path) ∷ near) ⊎ Settled x v
        → Among x near ⊎ Settled x v'
    leaves v' keeps own x (inl (p, m)) = elim (Memᴰ.cases_cons m) [
      | inl same ↦ inr (subst (λ y. Settled y v') (sym (ap (λ (s : Entry). s.0) same)) own)
      | inr m' ↦ inl (p, m')
    ]
    leaves v' keeps own x (inr all) = inr (λ e m g. keeps e.to (all e m g))

    pub grows :
        (v' : Visited) (q : List Entry)
        → (g : Grown label to path (out id) v (near ++ far) v' q)
        → Frontier d near (far ++ map (λ e. (e.to, path ++ e ∷ [])) g.added) v'
    grows v' q g =
        let pushed = map (λ e. (e.to, path ++ e ∷ [])) g.added in
        record {
          fronts = λ x p m. f.fronts x p (Memᴰ.tail m);
          backs = λ x p m. elim (mem_either far pushed m) [
            | inl old ↦ f.backs x p old
            | inr new ↦ pushed-Walk g.added x p (λ e m. g.follow e m) new
          ];
          settled = λ x h. elim (g.new x h) [
            | inl before ↦ elim (f.settled x before) [
              | inl a ↦ elim (leaves v' g.keeps g.enters x (inl a)) [
                | inl a' ↦ inl a'
                | inr all ↦ inr (inr all)
              ]
              | inr (inl (p, m)) ↦ inr (inl (p, mem_left far pushed m))
              | inr (inr all) ↦ inr (inr (λ e m l. g.keeps e.to (all e m l)))
            ]
            | inr (e, m, same) ↦ inr (
                inl (
                  path ++ e ∷ [],
                  mem_right far pushed (
                      subst (λ y. Memᴰ (y, path ++ e ∷ []) pushed) same
                        (mem_mapped (λ e. (e.to, path ++ e ∷ [])) m)),
                ))
          ];
          reached = λ x p w le.
              let (seen, rest) = f.reached x p w le in
              (g.keeps x seen, leaves v' g.keeps g.enters x rest);
          missed = g.misses f.missed;
        }
