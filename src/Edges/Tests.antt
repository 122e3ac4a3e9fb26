-- ===== src/Edges/Tests.antt =====
-- A database of two shards with the nodes 1 and 2 over sorted buckets, runs of the edge operations
-- on it, and the theorems about them there.
use mathlib.Core.List.{Memᴰ}
use mathlib.Core.List.Memᴰ
use goraphdb.Common.{
  ℕ, zero, suc, ◌-◌, ◌^◌, ◌≤◌, ◌<◌, ◌≡◌, ◌↔◌, ◌⊎◌, inl, inr, refl, sym, subst, Bool, true, false,
  Option, none, some, List, [], ◌∷◌, arith, length,
}
use goraphdb.Common.Results.{Error, Result, ok, err, io_failed, not_open}
use goraphdb.Types.{NodeId, Node, both, Bytes, Edge, PropMap, Props, int}
use goraphdb.Encoding.Keys.{encode_node_id, has_prefix}
use goraphdb.Store.Prefix.{scan, scan_lem}
use goraphdb.Encoding.Frames.{Codec, encode_edge, encode_props}
use goraphdb.Encoding.Ints.{put_be, lex_lt}
use goraphdb.Store.{
  Shard, Db, proceeds, commit_fails, write_update, write_guard, set_shard, wal_append, shard_for,
  alloc_edge_id,
}
use goraphdb.Store.Sorted.{SortedBucket, empty_bucket, inserted, sorted_bolt, sorted_bolt-BoltLaws}
use goraphdb.Edges.{
  verify_node_exists, add_to_shards, add_to_target, announce, put_edge_source, put_adj_in, add_edge,
  add_checked, add_to_shard, put_edge, edge_guards, get_edge_unlocked, delete_edge,
}
use goraphdb.Edges.Merging.{value_of, updated_or}
use goraphdb.Edges.Reading.{Views, neighbor_loop, has_edge, outgoing_edges, incoming_edges}
use goraphdb.Edges.Lookup.{get_edge_unlocked_lem}
use goraphdb.Edges.Delete.{delete_edge_lem}
use goraphdb.Edges.Adjacency.{outgoing_edges_lem}
use goraphdb.Edges.Incoming.{incoming_edges_lem}
use goraphdb.Edges.Membership.{Filters, has_edge_lem}
use goraphdb.Edges.Presence.{add_edge-Filters, has_edge-add_edge}
use goraphdb.Bloom.{new_bloom_filter}
use goraphdb.Bloom.Sound.{new_bloom_filter-IsValid}
use goraphdb.Edges.Writing.{merge_props, update_edge}
use goraphdb.Edges.Merge.{update_edge_lem}
use goraphdb.Edges.Index.{Table, Indexes, insert_edge, remove_edge}
use goraphdb.Edges.Table.{Represents, Represents-same, shard_for-lt}
use goraphdb.Edges.Insert.{IsStorable}
use goraphdb.Edges.Written.{new_edge}
use goraphdb.Edges.Add.{add_edge_lem, add_edge_fails}

-- A serialisation of maps with at most one number in them.
marshal_one : PropMap → Option Bytes
marshal_one [] = some (0x80 ∷ [])
marshal_one ((k, int n) ∷ []) = some (0x81 ∷ n ∷ k)
marshal_one _ = none

unmarshal_one : Bytes → Option Props
unmarshal_one [] = none
unmarshal_one (tag ∷ []) = some (some [])
unmarshal_one (tag ∷ n ∷ k) = some (some ((k, int n) ∷ []))

abbrev one_codec : Codec
one_codec = record { marshal = marshal_one; unmarshal = unmarshal_one; json_unmarshal = λ b. none }

two_nodes : SortedBucket
two_nodes = inserted (encode_node_id 1) [] (inserted (encode_node_id 2) [] empty_bucket)

abbrev shard_of_nodes : Shard SortedBucket
shard_of_nodes = record {
  buckets = record {
    nodes = two_nodes;
    edges = empty_bucket;
    adj_out = empty_bucket;
    adj_in = empty_bucket;
    idx_edge_type = empty_bucket;
  };
  next_node_id = 2;
  next_edge_id = 0;
  node_count = 1;
  edge_count = 0;
}

abbrev two_shards : Db SortedBucket
two_shards = record {
  count = 2;
  shard = λ i. shard_of_nodes;
  closed = false;
  follower = false;
  edge_bloom = none;
  log = none;
}

abbrev no_edges : Table
no_edges = λ id. none

no_entries :
    (Belongs : Edge → Type 0) (key : Edge → Bytes) (Holds : Edge → Bytes → Type 0)
    → Indexes sorted_bolt Belongs key Holds no_edges empty_bucket
unfolding sorted_bolt
no_entries Belongs key Holds = record { sound = λ k v f. cc; complete = λ e h p. cc }

two_shards-Represents : Represents sorted_bolt one_codec two_shards no_edges
two_shards-Represents = record {
  some_shards = omega arith;
  shards = λ i h. record {
    edges = no_entries _ _ _;
    adj_out = no_entries _ _ _;
    adj_in = no_entries _ _ _;
    types = no_entries _ _ _;
  };
  named = λ id e h. absurd cc;
  allocated = λ id e h. absurd cc;
}

abbrev Fits : Result Bytes → Type 0
Fits (ok v) = length v ≤ 2 ^ 31 - 2
Fits (err e) = Unit

-- An edge from the node 1 to the node 2, which lie in different shards.
follows-IsStorable : IsStorable one_codec (new_edge 1 2 (0x6b ∷ []) none two_shards)
unfolding marshal_one unmarshal_one alloc_edge_id encode_edge encode_props put_be
follows-IsStorable = record {
  word = omega arith;
  from_word = omega arith;
  to_word = omega arith;
  label_fits = omega arith;
  raw = 0x80 ∷ [];
  survives = (refl, refl);
  frame_fits = λ v h. subst Fits h (omega arith);
}

node_1_there : sorted_bolt.fetch (encode_node_id 1) two_nodes ≡ some []
unfolding sorted_bolt two_nodes inserted encode_node_id put_be lex_lt
node_1_there = refl

node_2_there : sorted_bolt.fetch (encode_node_id 2) two_nodes ≡ some []
unfolding sorted_bolt two_nodes inserted encode_node_id put_be lex_lt
node_2_there = refl

abbrev added : Db SortedBucket
added = (add_edge sorted_bolt one_codec proceeds proceeds 1 2 (0x6b ∷ []) none two_shards).0

abbrev follows : Edge
follows = record { id = 1; from = 1; to = 2; label = 0x6b ∷ []; props = some [] }

add_edge_lem_example :
    ((add_edge sorted_bolt one_codec proceeds proceeds 1 2 (0x6b ∷ []) none two_shards).1 ≡ ok 1)
    × (no_edges 1 ≡ none)
    × Represents sorted_bolt one_codec added (insert_edge follows no_edges)
unfolding alloc_edge_id
add_edge_lem_example =
    add_edge_lem sorted_bolt sorted_bolt-BoltLaws one_codec two_shards 1 2 (0x6b ∷ []) none no_edges
      two_shards-Represents (omega arith) [] [] refl refl node_1_there node_2_there
      follows-IsStorable

-- A loop at the node 1 whose commit fails.
add_edge_fails_example :
    Represents sorted_bolt one_codec
      (add_edge sorted_bolt one_codec commit_fails proceeds 1 1 (0x6b ∷ []) none two_shards).0
      no_edges
unfolding add_edge add_checked add_to_shard write_update put_edge edge_guards sorted_bolt two_nodes
    inserted encode_node_id put_be lex_lt write_guard verify_node_exists shard_for encode_edge
    encode_props marshal_one unmarshal_one
add_edge_fails_example =
    add_edge_fails sorted_bolt sorted_bolt-BoltLaws one_codec two_shards 1 1 (0x6b ∷ []) none
      no_edges two_shards-Represents (omega arith) commit_fails proceeds io_failed refl refl

-- What the operations ask of the database with the edge.
added_head :
    (added.count ≡ 2)
    × (added.closed ≡ false)
    × (added.follower ≡ false)
    × (added.edge_bloom ≡ none)
unfolding add_edge add_checked add_to_shards add_to_target announce wal_append set_shard
    write_update put_edge_source put_adj_in edge_guards sorted_bolt two_nodes inserted
    encode_node_id put_be lex_lt write_guard verify_node_exists shard_for encode_edge encode_props
    marshal_one unmarshal_one
added_head = (refl, refl, refl, refl)

added-Represents : Represents sorted_bolt one_codec added (insert_edge follows no_edges)
added-Represents = add_edge_lem_example.2

get_edge_unlocked_lem_example : get_edge_unlocked sorted_bolt one_codec 1 added ≡ ok follows
get_edge_unlocked_lem_example =
    get_edge_unlocked_lem sorted_bolt one_codec added (insert_edge follows no_edges)
      added-Represents 1 (omega arith)

delete_edge_lem_example :
    let (db', r) = delete_edge sorted_bolt one_codec proceeds proceeds 1 added in
    Represents sorted_bolt one_codec db' (remove_edge 1 (insert_edge follows no_edges))
    × (r ≡ ok tt)
delete_edge_lem_example =
    delete_edge_lem sorted_bolt sorted_bolt-BoltLaws one_codec added (insert_edge follows no_edges)
      added-Represents 1 (omega arith) added_head.1 added_head.2

-- Every read transaction runs.
abbrev all_run : Views
all_run i = none

outgoing_edges_lem_example :
    ((x : Error) × (all_run (shard_for added.count 1) ≡ some x)
      × (outgoing_edges sorted_bolt one_codec all_run 1 added ≡ err x))
    ⊎ (all_run (shard_for added.count 1) ≡ none)
      × ((es : List Edge) × (outgoing_edges sorted_bolt one_codec all_run 1 added ≡ ok es)
          × ((e : Edge) → Memᴰ e es ↔ (insert_edge follows no_edges e.id ≡ some e) × (e.from ≡ 1)))
outgoing_edges_lem_example =
    outgoing_edges_lem sorted_bolt sorted_bolt-BoltLaws one_codec added
      (insert_edge follows no_edges) added-Represents 1 (omega arith) all_run

-- A shard that is not open.
not_open_read :
    outgoing_edges sorted_bolt one_codec (λ i. some not_open) 1 two_shards ≡ err not_open
unfolding outgoing_edges
not_open_read = refl

one_of_two : (n : ℕ) → n < 2 → Memᴰ n (0 ∷ 1 ∷ [])
one_of_two zero h = Memᴰ.head refl
one_of_two (suc zero) h = Memᴰ.tail (Memᴰ.head refl)
one_of_two (suc (suc n)) h = absurd (omega arith)

below_two : (n : ℕ) → Memᴰ n (0 ∷ 1 ∷ []) → n < 2
below_two n m = elim (Memᴰ.cases_cons m) [
  | inl same ↦ omega (arith, same)
  | inr later ↦ elim (Memᴰ.cases_cons later) [
    | inl same ↦ omega (arith, same)
    | inr none_left ↦ elim none_left [ ]
  ]
]

incoming_edges_lem_example :
    ((i : ℕ) × (x : Error) × (all_run i ≡ some x)
      × (incoming_edges sorted_bolt one_codec all_run (0 ∷ 1 ∷ []) 2 added ≡ err x))
    ⊎ ((es : List Edge) × (incoming_edges sorted_bolt one_codec all_run (0 ∷ 1 ∷ []) 2 added
          ≡ ok es)
        × ((e : Edge) → Memᴰ e es ↔ (insert_edge follows no_edges e.id ≡ some e) × (e.to ≡ 2)))
incoming_edges_lem_example =
    incoming_edges_lem sorted_bolt sorted_bolt-BoltLaws one_codec added
      (insert_edge follows no_edges) added-Represents 2 (omega arith) all_run (0 ∷ 1 ∷ [])
      (λ i m. subst (λ n. i < n) (sym added_head.0) (below_two i m))
      (λ e h to. one_of_two (shard_for added.count e.from) (
        subst (λ n. shard_for added.count e.from < n) added_head.0
          (shard_for-lt added.count e.from (omega (arith, added_head.0)))))

has_edge_lem_example :
    ((x : Error) × (all_run (shard_for added.count 1) ≡ some x)
      × (has_edge sorted_bolt one_codec all_run [] 1 2 added ≡ err x))
    ⊎ ((b : Bool) × (has_edge sorted_bolt one_codec all_run [] 1 2 added ≡ ok b)
        × ((b ≡ true) ↔ (
            (e : Edge) × (insert_edge follows no_edges e.id ≡ some e) × (e.from ≡ 1) × (e.to ≡ 2))))
has_edge_lem_example =
    has_edge_lem sorted_bolt one_codec sorted_bolt-BoltLaws added (insert_edge follows no_edges)
      added-Represents [] 1 2 (omega arith) all_run
      (subst (λ o. Filters o (insert_edge follows no_edges)) (sym added_head.3) tt)

-- The same database with a small filter.
abbrev filtered : Db SortedBucket
filtered = record two_shards { edge_bloom = some (new_bloom_filter 6) }

filtered-Represents : Represents sorted_bolt one_codec filtered no_edges
filtered-Represents =
    Represents-same sorted_bolt one_codec two_shards filtered no_edges two_shards-Represents refl
      (λ i. refl) (omega arith)

filtered-Filters : Filters filtered.edge_bloom no_edges
filtered-Filters = (new_bloom_filter-IsValid 6 (omega arith), λ e h. absurd cc)

has_edge-add_edge_example :
    has_edge sorted_bolt one_codec all_run [] 1 2
      (add_edge sorted_bolt one_codec proceeds proceeds 1 2 (0x6b ∷ []) none filtered).0
    ≡ ok true
has_edge-add_edge_example =
    has_edge-add_edge sorted_bolt one_codec filtered no_edges 1 2 (0x6b ∷ []) none
      sorted_bolt-BoltLaws filtered-Represents filtered-Filters (omega arith) [] [] refl refl
      node_1_there node_2_there follows-IsStorable all_run [] (λ i. refl)

add_edge-Filters_example :
    Filters
      (add_edge sorted_bolt one_codec proceeds proceeds 1 2 (0x6b ∷ []) none filtered).0.edge_bloom
      (insert_edge follows no_edges)
unfolding alloc_edge_id
add_edge-Filters_example =
    add_edge-Filters sorted_bolt one_codec filtered no_edges 1 2 (0x6b ∷ []) none proceeds proceeds
      1 filtered-Filters
      (add_edge_lem sorted_bolt sorted_bolt-BoltLaws one_codec filtered 1 2 (0x6b ∷ []) none
        no_edges filtered-Represents (omega arith) [] [] refl refl node_1_there node_2_there
        follows-IsStorable).0

scan_lem_example :
    Memᴰ {A = Bytes × Bytes} (encode_node_id 2, []) (scan sorted_bolt (encode_node_id 2) two_nodes)
    ↔ (sorted_bolt.fetch (encode_node_id 2) two_nodes ≡ some [])
      × (has_prefix (encode_node_id 2) (encode_node_id 2) ≡ true)
scan_lem_example =
    scan_lem sorted_bolt sorted_bolt-BoltLaws (encode_node_id 2) (encode_node_id 2) [] two_nodes

abbrev since : Props
since = some ((0x73 ∷ [], int 7) ∷ [])

merged-IsStorable : IsStorable one_codec (merge_props since follows)
unfolding merge_props marshal_one unmarshal_one encode_edge encode_props put_be
merged-IsStorable = record {
  word = omega arith;
  from_word = omega arith;
  to_word = omega arith;
  label_fits = omega arith;
  raw = 0x81 ∷ 7 ∷ 0x73 ∷ [];
  survives = (refl, refl);
  frame_fits = λ v h. subst Fits h (omega arith);
}

-- The edge with a new property.
update_edge_lem_example :
    let (db', r) = update_edge sorted_bolt one_codec proceeds 1 since added in
    (r ≡ ok tt)
    × ((d : Edge) × (d.id ≡ 1)
        × (d.from ≡ 1)
        × (d.to ≡ 2)
        × (d.label ≡ 0x6b ∷ [])
        × ((k : Bytes) → value_of k d.props ≡ updated_or k since (value_of k (some [])))
        × Represents sorted_bolt one_codec db' (insert_edge d (insert_edge follows no_edges)))
unfolding merge_props
update_edge_lem_example =
    update_edge_lem sorted_bolt sorted_bolt-BoltLaws one_codec added (insert_edge follows no_edges)
      added-Represents follows refl since added_head.1 added_head.2 merged-IsStorable

abbrev any_node : NodeId → Result Node
any_node id = ok (record { id = id; labels = []; props = none })

-- In both directions the node 2 is met as its own neighbour, in place of the node 1.
both_directions_of_target :
    neighbor_loop sorted_bolt one_codec any_node both (follows ∷ []) (λ x. false)
    ≡ record { id = 2; labels = []; props = none } ∷ []
unfolding neighbor_loop
both_directions_of_target = refl
