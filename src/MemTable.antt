-- ===== src/MemTable.antt =====
-- core/MemTable.h and core/MemTable.cpp: the table of the pairs that are not yet in a file.
pub mod Laws
use quarkkv_compaction.Base.{ℕ, ◌/◌, Bool, Option, [], Result, ok, ◌>>=◌, ◌==◌, length}
use quarkkv_compaction.Std.Text.{Bytes}
use quarkkv_compaction.Std.Map
use quarkkv_compaction.Std.Map.{Map}
use quarkkv_compaction.Config.{Config, value_size, kv_size}
use quarkkv_compaction.KvPair
use quarkkv_compaction.KvPair.{KvPair}

pub record MemTable : Type 0 where
  pub table : Map KvPair
  pub limit : ℕ

unfoldable pub new : Config → Result MemTable
new c = do kv ← kv_size c; ok (record { table = []; limit = c.sst_file_size / kv })

unfoldable pub get : Bytes → MemTable → Option KvPair
get key m = Map.find key m.table

-- `insert` of the map, so a key that is there keeps its pair. The value is not stored.
unfoldable pub put : Config → Bytes → ℕ → Bytes → MemTable → Result MemTable
put c key ts val m = do
  v ← value_size c
  ok (record m { table = Map.insert key (KvPair.new key ts v) m.table })

unfoldable pub full : MemTable → Bool
full m = length m.table == m.limit

unfoldable pub flush : MemTable → MemTable
flush m = record m { table = [] }
