-- ===== src/Paths/Tests.antt =====
-- The search on a graph of two nodes and one edge between them.
use mathlib.Core.List.{Memᴰ}
use mathlib.Core.List.Memᴰ
use goraphdb.Common.{
  ◌≤◌, ◌≡◌, ◌↔◌, refl, ap, subst, ◌⊎◌, ◌||◌, inl, inr, Bool, true, false, none, some, List, [], ◌∷◌,
  arith, ◌==◌, if◌then◌else◌, length, Bool-cases,
}
use goraphdb.Common.Results.{Result, err, node_not_found, ok, ◌>>=◌}
use goraphdb.Types.{NodeId, Node, Edge}
use goraphdb.Paths.{
  Graph, build_path_result, shortest_path_labeled, shortest_path, has_path, search, with_edges,
  proceed, expand, visit, follows,
}
use goraphdb.Paths.Layers.{Walk}
use goraphdb.Paths.Shortest.{shortest_path_lem, has_path_lem}

abbrev one_to_two : Edge
one_to_two = record { id = 7; from = 1; to = 2; label = 5 ∷ []; props = none }

abbrev out : NodeId → List Edge
out x = if x == 1 then one_to_two ∷ [] else []

abbrev node_of : NodeId → Node
node_of i = record { id = i; labels = []; props = none }

abbrev get_node : NodeId → Result Node
get_node id = if id == 1 || id == 2 then ok (node_of id) else err node_not_found

abbrev graph : Graph
graph = record { closed = false; get_node = get_node; edges_of = λ id. ok (out id) }

ends_in_two : (x : NodeId) (e : Edge) → Memᴰ e (out x) → Memᴰ e.to (2 ∷ [])
ends_in_two x e m = elim (Bool-cases (x == 1)) [
  | inl first ↦
      elim (Memᴰ.cases_cons
        (subst (λ (b : Bool). Memᴰ e (if b then one_to_two ∷ [] else [])) first m)) [
          | inl same ↦ Memᴰ.head (ap (λ (d : Edge). d.to) same)
          | inr in_empty ↦ elim in_empty [ ]
        ]
  | inr other ↦ elim (subst (λ (b : Bool). Memᴰ e (if b then one_to_two ∷ [] else [])) other m) [ ]
]

-- An edge ends in the node 2, which is there.
target_there : (x : NodeId) (e : Edge) → Memᴰ e (out x) → (n : Node) × (graph.get_node e.to ≡ ok n)
target_there x e m = elim (Memᴰ.cases_cons (ends_in_two x e m)) [
  | inl same ↦ (node_of 2, ap get_node same)
  | inr in_empty ↦ elim in_empty [ ]
]

shortest_path_lem_example :
    ((p : List Edge) × Walk out (5 ∷ []) 1 2 p
      × ((r : List Edge) → Walk out (5 ∷ []) 1 2 r → length p ≤ length r)
      × (shortest_path_labeled graph 4 1 2 (5 ∷ [])
          ≡ some (build_path_result graph 1 p >>= λ result. ok (some result))))
    ⊎ ((r : List Edge) → ¬ Walk out (5 ∷ []) 1 2 r)
      × (shortest_path_labeled graph 4 1 2 (5 ∷ []) ≡ some (ok none))
shortest_path_lem_example =
    shortest_path_lem graph out (λ id. refl) (5 ∷ []) 1 2 (2 ∷ []) ends_in_two 4 refl
      (λ e. omega (arith, e)) (omega arith)

has_path_lem_example :
    (b : Bool) × (has_path graph 4 1 2 ≡ some (ok b))
    × ((b ≡ true) ↔ ((p : List Edge) × Walk out [] 1 2 p))
has_path_lem_example =
    has_path_lem graph out (λ id. refl) (2 ∷ []) ends_in_two 1 (node_of 1, refl) target_there 2 4
      refl (omega arith)

-- The path is found, and there is none back.
there : has_path graph 4 1 2 ≡ some (ok true)
unfolding has_path shortest_path shortest_path_labeled search with_edges proceed expand follows
    visit build_path_result
there = refl

back : has_path graph 4 2 1 ≡ some (ok false)
unfolding has_path shortest_path shortest_path_labeled search with_edges proceed expand follows
    visit build_path_result
back = refl
