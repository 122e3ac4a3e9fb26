-- ===== src/Lru/Keys.antt =====
-- Node identifiers and query strings as keys.
use goraphdb.Common.{ℕ, ◌==◌, ==_iff, same_bytes, same_bytes_iff}
use goraphdb.Types.{Bytes}
use goraphdb.Lru.Chain.{KeyEq}

instance abbrev pub id_key : KeyEq ℕ
id_key = record { same = ◌==◌; same_iff = ==_iff }

instance abbrev pub query_key : KeyEq Bytes
query_key = record { same = same_bytes; same_iff = same_bytes_iff }
