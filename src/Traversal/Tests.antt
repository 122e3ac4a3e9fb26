-- ===== src/Traversal/Tests.antt =====
-- The traversal of two nodes with an edge in each direction.
use mathlib.Core.List.{Memᴰ}
use goraphdb.Common.{
  ◌≡◌, refl, sym, ap, true, false, none, some, [], ◌∷◌, ◌==◌, if◌then◌else◌, length,
}
use goraphdb.Common.Results.{Result, ok, err}
use goraphdb.Types.{NodeId, Node, Edge, outgoing}
use goraphdb.Traversal.{Reads, TraversalResult, bfs}
use goraphdb.Traversal.Once.{IsOnce, Within, bfs-IsOnce}

abbrev edge_between : NodeId → NodeId → Edge
edge_between a b = record { id = 7; from = a; to = b; label = []; props = none }

abbrev node_of : NodeId → Node
node_of i = record { id = i; labels = []; props = none }

abbrev cycle : Reads
cycle = record {
  closed = false;
  direction = outgoing;
  get_node = λ id. ok (node_of id);
  edges_of = λ id. ok (if id == 1 then edge_between 1 2 ∷ [] else edge_between 2 1 ∷ []);
}

read_id : NodeId → Result Node → NodeId
read_id id (ok n) = n.id
read_id id (err e) = id

node_of_read : (id : NodeId) (n : Node) → ok (node_of id) ≡ ok n → n.id ≡ id
unfolding read_id
node_of_read id n e = ap (read_id id) (sym e)

bfs-IsOnce_example :
    IsOnce (bfs cycle (some 3) (λ e. true) (λ before r. true) 5 1).1
    × ((q : TraversalResult)
        → Memᴰ q (bfs cycle (some 3) (λ e. true) (λ before r. true) 5 1).1
        → (length q.path ≡ q.depth) × Within (some 3) q.depth)
bfs-IsOnce_example = bfs-IsOnce cycle (some 3) (λ e. true) (λ before r. true) node_of_read 5 1 refl
