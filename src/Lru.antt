-- ===== src/Lru.antt =====
-- The two least-recently-used caches (node_cache.go, cypher_cache.go). A doubly linked list with its
-- map of entries is one list of entries, the most recently used first: `head` is its first, `tail`
-- its last, and the map finds the entry of a key in it. The entries are known by their keys.
pub mod Chain
pub mod Keys
pub mod NodeCache
pub mod QueryCache
mod Tests
