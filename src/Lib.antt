-- ===== src/Lib.antt =====
-- goraphdb: a graph database on bbolt with a write-ahead log for replication, modelled from its Go
-- sources. The development follows the code from the bytes up.
--
-- The parts, and the files that model them (paths are from the root of the repository):
--
-- * Types.antt (types.go): identifiers, property values as a recursive data type, nodes and edges.
--   Bytes are natural numbers; where a statement needs them below 256 it says so.
-- * Encoding.antt (encoding.go, label.go): big-endian integers (Encoding/Ints), the keys and values
--   of the buckets (Encoding/Keys), their order and their prefix scans (Encoding/Scan), and the
--   frames of properties and edges with their CRC32C (Encoding/Frames, Encoding/Frames/Crc). The CRC
--   is computed; MessagePack and JSON are parameters.
-- * Bloom.antt (bloom.go): the filter that `HasEdge` asks before it reads a bucket, with FNV-128a
--   over the native numbers, its bits in 64-bit words, and its construction from the adj_out buckets
--   of all shards. A filter that missed an edge would hide it, so what is shown is that none is missed.
-- * Replication.antt (replication/client.go): the follower. Replication/Tracker is `lsnTracker`,
--   Replication/Pipeline the reader and the workers of `streamOnce` as a step relation: a step is one
--   action of one goroutine (a receive, a take from the channel, an apply, `MarkDone`,
--   `SetAppliedLSN`), so every interleaving is a sequence of steps.
-- * Wal.antt (wal.go, wal_entry.go): the leader's log. Wal/Frame has the frames and the scan of a
--   segment, Wal/Log the methods of `WAL` on a directory of segments, with the answers of the
--   operating system (a failed or partial write, a failed sync, close or create) as an argument.
--   Wal/Reader is `WALReader`, which tails the segments; its fuel is an argument, and what is shown of
--   `Next` holds of any but none.
--   Wal/Recovery, Wal/Tailing, Wal/Draining and Wal/Pruning state what the log promises over crashes,
--   reopening, reading and pruning.
-- * Lru.antt (node_cache.go, cypher_cache.go): the two least-recently-used caches. Lru/Chain has the
--   linked list that both use, Lru/NodeCache the sharded cache of nodes under a byte budget, and
--   Lru/QueryCache the bounded cache of parsed queries, each with the proofs in its child modules.
-- * Paths.antt (path.go): `ShortestPathLabeled`, `ShortestPath`, `HasPath` and `buildPathResult` over
--   the record `Graph` of the two reads that they make, `getNode` and `getEdgesForNode`. Paths/Growth
--   follows the loop over the edges of a node, Paths/Layers the queue, Paths/Shortest the search.
-- * Traversal.antt (traversal.go): `BFS` over the record `Reads`, with a visitor that decides from the
--   calls before; Traversal/Once follows its loop. Traversal/Depth has `DFS` and the collecting wrappers.
-- * Store.antt (storage.go, graphdb.go): shards with their buckets and counters, the database over
--   them, and a transaction of a shard. bbolt is not in the sources: the record `Bolt` has the
--   operations of a bucket that the code calls, `BoltLaws` their documented behaviour, and Store/Sorted
--   fills both with the sorted lists of Store/Entries. Store/Prefix is the cursor loop over a prefix.
-- * Edges.antt (edge.go): `AddEdge`, `GetEdge`, `DeleteEdge`, and in Edges/Reading the reads of
--   a node's edges, `HasEdge`, `EdgesByLabel` and `NeighborsDirection`. The abstract view is a
--   table from identifiers to edges (Edges/Index): Edges/Table says when the buckets of all
--   shards represent one. Edges/Insert, Edges/Written and Edges/Add follow an addition,
--   Edges/Delete a deletion, Edges/Writing is `UpdateEdge`, which Edges/Merging (the properties),
--   Edges/Update and Edges/Merge follow, Edges/Lookup, Edges/Adjacency, Edges/Groups and
--   Edges/Incoming the reads,
--   Edges/Membership and Edges/Presence the filter before `HasEdge`.
-- * Cypher.antt (cypher_lexer.go, cypher_ast.go, cypher_parser.go): the lexer and the parser of the
--   query language. Cypher/Tokens has the kinds of tokens, the keywords and the classes of bytes,
--   Cypher/Lexer the scanner, whose state is the position and the bytes from there on; Cypher/Readers
--   and Cypher/Streams follow its positions, Cypher/Escapes string literals. Cypher/Ast has the
--   syntax trees. In Cypher/Parser a parser takes the tokens ahead of `p.pos` and returns what it
--   read with the tokens left, or the error: Parser/Expressions, Parser/Patterns, Parser/Clauses and
--   Parser/Queries have one definition for each method and each of its loops and optional parts.
--   Parser/Steps, Steady, Shrinking and Fuel follow how many tokens are left, Parser/Shape the trees.
--   Cypher/Grammar has a grammar of expressions as derivations, to which its children relate the
--   parser; it says where it goes beyond the comment of cypher_parser.go. Cypher/Params and Cypher/Eval are of cypher_exec.go: the first is `CypherWithParams` up
--   to the call of `executeCypher`, on the cache of Lru/QueryCache; a run returns the cache with the
--   query that it left there, since the resolved query shares its parts with the cached one. The
--   second is the evaluation of expressions, and in Eval/Where the equality an index is asked for.
--
-- How they meet: the leader commits to bbolt and then appends to the log; the follower's pipeline
-- applies the entries and stores the watermark that it will ask to resume from. Edges are kept as
-- the frames and keys of Encoding, and the filter is built from those keys. The caches stand in front
-- of the node bucket and of the parser.
--
-- Machine integers keep their wrap-around: identifiers and LSNs modulo 2^64, lengths of frames and
-- labels modulo 2^32, the hash modulo 2^128. Byte counts of the caches, which the code keeps in int64,
-- are natural numbers. `int` lengths are taken not to overflow.
--
-- Loops on fuel: the tracker's loop has one round more than there are marked numbers, each round
-- removing one; the scan of a segment has one round more than there are bytes, each frame taking
-- eight at least; an eviction has as many rounds as there are entries, each removing one; the search
-- for a path takes its fuel as an argument, and two rounds more than there are nodes are enough. The
-- lexer has one round more than there are bytes, each round reading one. The parser has two units more
-- than there are tokens, for its loops and for calls inside calls, each taking a token. That the fuel is enough is
-- part of what is shown of each of these. The fuel of `BFS`, `DFS` and `Next` is
-- an argument; what is shown of the calls of `BFS` holds of any.
--
-- Each method that holds a mutex for its whole body is one step, and locks are left out. Log lines,
-- metrics and timers are left out. Where a transaction goes through or not is an argument of the
-- writes of edges and of the reads in Edges/Reading (`Views`); `getEdge` and `verifyNodeExists` are
-- called behind a check that the database is open only, and their read transactions are taken to
-- run. `strconv.ParseFloat` is an argument of the parser, the order of floats and `fmt.Sprint` of the
-- evaluation, and the text of an error is one constructor for each message.
--
-- Not modelled: `AddEdgeBatch`; the operations on nodes, labels,
-- indexes, constraints and transactions; the other searches of path.go; the
-- strategies of the Cypher executor, its rows and iterators; the closing of the reader's file; the gRPC, HTTP and Raft servers, whose libraries are not in the
-- sources; the Go client, the command line, the deployment and the user interface.
pub mod Common
pub mod Types
pub mod Encoding
pub mod Bloom
pub mod Replication
pub mod Wal
pub mod Lru
pub mod Paths
pub mod Traversal
pub mod Store
pub mod Edges
pub mod Cypher
