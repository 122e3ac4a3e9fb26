-- ===== src/Edges/Reading.antt =====
-- The reads of edge.go. `order` is the order in which the code meets the shards of the map that groups
-- incoming edges, which Go leaves open. `views` answers for bbolt: with nothing where the read
-- transaction of a shard runs, or with the error of `View`, as on a database that is not open.
use goraphdb.Common.{
  ℕ, zero, suc, ◌+◌, ◌%◌, ◌^◌, Bool, true, false, ◌||◌, Option, none, some, List, [], ◌∷◌, ◌++◌,
  ltb, ◌==◌, if◌then◌else◌, length, drop, same_bytes,
}
use goraphdb.Common.Results.{Error, Result, ok, err, ◌>>=◌, require, panic}
use goraphdb.Types.{Bytes, NodeId, EdgeId, Edge, Node, Direction, outgoing, incoming, both}
use goraphdb.Encoding.Keys.{
  encode_node_id, encode_edge_id, decode_edge_id, decode_adj_key, decode_adj_value,
  encode_index_prefix,
}
use goraphdb.Encoding.Frames.{Codec, decode_edge}
use goraphdb.Bloom
use goraphdb.Bloom.{BloomFilter}
use goraphdb.Store.{Bolt, Db, shard_for}
use goraphdb.Store.Prefix.{scan}
use goraphdb.Paths.{Visited, visit}

-- The answers of bbolt to `View`, by the shard.
abbrev pub Views : Type 0
Views = ℕ → Option Error

-- A read transaction, whose own errors are passed on.
abbrev pub view : {A : Type 0} → Option Error → Result A → Result A
view none r = r
view (some e) r = err e

module _ {Bucket : Type 0} (bolt : Bolt Bucket) (codec : Codec) where
  open bolt use {fetch}

  -- An edge that is missing or does not decode is passed over.
  unfoldable pub keep_edge : Option Bytes → List Edge → List Edge
  keep_edge none rest = rest
  keep_edge (some stored) rest = elim (decode_edge codec stored) [ err x ↦ rest | ok e ↦ e ∷ rest ]

  -- `collectLocal`: adjacency entries and edges of one shard. A key that is too short panics.
  unfoldable pub collect_local : Bucket → List (Bytes × Bytes) → Result (List Edge)
  unfolding keep_edge
  collect_local edges [] = ok []
  collect_local edges ((k, v) ∷ xs) = do
    (node, id) ← require panic (decode_adj_key k)
    rest ← collect_local edges xs
    ok (keep_edge (fetch (encode_edge_id id) edges) rest)

  -- The first step of `collectIncoming`: identifiers of edges with those of their sources.
  unfoldable pub adj_entries : List (Bytes × Bytes) → Result (List (EdgeId × NodeId))
  adj_entries [] = ok []
  adj_entries ((k, v) ∷ xs) = do
    (node, id) ← require panic (decode_adj_key k)
    (source, label) ← require panic (decode_adj_value v)
    rest ← adj_entries xs
    ok ((id, source) ∷ rest)

  -- The entries of one group, whose sources lie in shard `i`.
  unfoldable pub fetch_group : ℕ → ℕ → Bucket → List (EdgeId × NodeId) → List Edge
  unfolding keep_edge
  fetch_group count i edges [] = []
  fetch_group count i edges ((id, source) ∷ xs) =
      let rest = fetch_group count i edges xs in
      if shard_for count source == i then keep_edge (fetch (encode_edge_id id) edges) rest else rest

  unfoldable pub collect_groups :
      Views → List ℕ → List (EdgeId × NodeId) → Db Bucket → Result (List Edge)
  unfolding fetch_group
  collect_groups views [] entries db = ok []
  collect_groups views (i ∷ order) entries db = do
    es ← view (views i) (ok (fetch_group db.count i (db.shard i).buckets.edges entries))
    rest ← collect_groups views order entries db
    ok (es ++ rest)

  unfoldable pub outgoing_edges : Views → NodeId → Db Bucket → Result (List Edge)
  unfolding collect_local
  outgoing_edges views id db =
      let own = shard_for db.count id in
      let b = (db.shard own).buckets in
      view (views own) (collect_local b.edges (scan bolt (encode_node_id id) b.adj_out))

  unfoldable pub incoming_edges : Views → List ℕ → NodeId → Db Bucket → Result (List Edge)
  unfolding collect_local adj_entries collect_groups
  incoming_edges views order id db =
      let own = shard_for db.count id in
      let b = (db.shard own).buckets in
      let entries = scan bolt (encode_node_id id) b.adj_in in
      if db.count == 1
      then view (views own) (collect_local b.edges entries)
      else (do found ← view (views own) (adj_entries entries); collect_groups views order found db)

  unfoldable pub get_edges_for_node :
      Views → List ℕ → NodeId → Direction → Db Bucket → Result (List Edge)
  unfolding outgoing_edges incoming_edges
  get_edges_for_node views order id outgoing db = outgoing_edges views id db
  get_edges_for_node views order id incoming db = incoming_edges views order id db
  get_edges_for_node views order id both db = do
    out ← outgoing_edges views id db
    inn ← incoming_edges views order id db
    ok (out ++ inn)

  unfoldable pub with_label : Bytes → List Edge → List Edge
  with_label label [] = []
  with_label label (e ∷ es) =
      let rest = with_label label es in if same_bytes e.label label then e ∷ rest else rest

  unfoldable pub out_edges_labeled :
      Views → List ℕ → NodeId → Bytes → Db Bucket → Result (List Edge)
  out_edges_labeled views order id label db = do
    es ← get_edges_for_node views order id outgoing db
    ok (with_label label es)

  unfoldable pub in_edges_labeled : Views → List ℕ → NodeId → Bytes → Db Bucket → Result (List Edge)
  in_edges_labeled views order id label db = do
    es ← get_edges_for_node views order id incoming db
    ok (with_label label es)

  unfoldable pub degree : Views → List ℕ → NodeId → Direction → Db Bucket → Result ℕ
  degree views order id dir db = do es ← get_edges_for_node views order id dir db; ok (length es)

  unfoldable pub edge_count : ℕ → Db Bucket → ℕ
  edge_count zero db = 0
  edge_count (suc n) db = (edge_count n db + (db.shard n).edge_count) % 2 ^ 64

  -- The loop that looks for the target.
  unfoldable pub ends_at : NodeId → List Edge → Bool
  ends_at to [] = false
  ends_at to (e ∷ es) = e.to == to || ends_at to es

  -- The filter before the read of the disk: a negative answer is returned at once.
  unfoldable pub ask_filter : Option BloomFilter → NodeId → NodeId → Result Bool → Result Bool
  ask_filter none from to disk = disk
  ask_filter (some bf) from to disk = if Bloom.test bf from to then disk else ok false

  unfoldable pub has_edge : Views → List ℕ → NodeId → NodeId → Db Bucket → Result Bool
  unfolding ask_filter
  has_edge views order from to db =
      let disk = (do es ← get_edges_for_node views order from outgoing db; ok (ends_at to es)) in
      ask_filter db.edge_bloom from to disk

  unfoldable pub has_edge_labeled :
      Views → List ℕ → NodeId → NodeId → Bytes → Db Bucket → Result Bool
  has_edge_labeled views order from to label db = do
    es ← out_edges_labeled views order from label db
    ok (ends_at to es)

  -- The entries of the type index of one shard; a key that is too short is passed over.
  unfoldable pub indexed_edges : ℕ → Bucket → List (Bytes × Bytes) → List Edge
  unfolding keep_edge
  indexed_edges prefix_len edges [] = []
  indexed_edges prefix_len edges ((k, v) ∷ xs) =
      let rest = indexed_edges prefix_len edges xs in
      let id_bytes = drop prefix_len k in
      if ltb (length id_bytes) 8 then rest else elim (decode_edge_id id_bytes) [
        | none ↦ rest
        | some id ↦ keep_edge (fetch (encode_edge_id id) edges) rest
      ]

  unfoldable pub label_loop : Views → ℕ → ℕ → Bytes → Db Bucket → Result (List Edge)
  unfolding indexed_edges
  label_loop views zero i label db = ok []
  label_loop views (suc n) i label db = do
    let b = (db.shard i).buckets
    let prefix = encode_index_prefix label
    es ←
        view (views i)
          (ok (indexed_edges (length prefix) b.edges (scan bolt prefix b.idx_edge_type)))
    rest ← label_loop views n (suc i) label db
    ok (es ++ rest)

  unfoldable pub edges_by_label : Views → Bytes → Db Bucket → Result (List Edge)
  unfolding label_loop
  edges_by_label views label db =
      if db.closed then err Error.database_closed else label_loop views db.count 0 label db

  -- `NeighborsDirection`; the read of a node is an argument.
  unfoldable pub neighbor_loop :
      (NodeId → Result Node) → Direction → List Edge → Visited → List Node
  neighbor_loop get_node dir [] seen = []
  neighbor_loop get_node dir (e ∷ es) seen =
      let target : NodeId = elim dir [ outgoing ↦ e.to | incoming ↦ e.from | both ↦ e.to ] in
      elim (seen target) [
        | true ↦ neighbor_loop get_node dir es seen
        | false ↦ elim (get_node target) [
          | err x ↦ neighbor_loop get_node dir es (visit target seen)
          | ok n ↦ n ∷ neighbor_loop get_node dir es (visit target seen)
        ]
      ]

  unfoldable pub neighbors_direction :
      Views → List ℕ → (NodeId → Result Node) → NodeId → Direction → Db Bucket → Result (List Node)
  unfolding neighbor_loop
  neighbors_direction views order get_node id dir db = do
    es ← get_edges_for_node views order id dir db
    ok (neighbor_loop get_node dir es (λ x. false))

  -- `NeighborsLabeled`, which keeps a node once for each edge.
  unfoldable pub target_nodes : (NodeId → Result Node) → List Edge → List Node
  target_nodes get_node [] = []
  target_nodes get_node (e ∷ es) =
      let rest = target_nodes get_node es in elim (get_node e.to) [ err x ↦ rest | ok n ↦ n ∷ rest ]

  unfoldable pub neighbors_labeled :
      Views → List ℕ → (NodeId → Result Node) → NodeId → Bytes → Db Bucket → Result (List Node)
  unfolding target_nodes
  neighbors_labeled views order get_node id label db = do
    es ← out_edges_labeled views order id label db
    ok (target_nodes get_node es)
