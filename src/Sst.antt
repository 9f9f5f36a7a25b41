-- ===== src/Sst.antt =====
-- core/SST.h and core/SST.cpp: the state of a sorted table and the methods that stay in memory.
-- The storage is a parameter of the others: Sst/Write.antt builds a file, Sst/Read.antt reads one.
pub mod Write
pub mod Read
pub mod Layout
pub mod Building
pub mod Lookup
pub mod Persisted
pub mod Reopened
pub mod Partial
use quarkkv_compaction.Base.{
  ℕ, ◌/◌, ◌%◌, ◌^◌, Bool, true, false, not, Option, none, some, [], ◌∷◌, Ordering, Result, ok, err,
  require, aborted, undefined, ◌>>=◌, ◌>>◌, ltb, ◌==◌, u32, if◌then◌else◌,
}
use quarkkv_compaction.Std.Text.{Bytes, compare_text, text_lt}
use quarkkv_compaction.Std.Map
use quarkkv_compaction.Std.Map.{Map}
use quarkkv_compaction.Config.{Config, kv_size}

-- `ts` is the time of `Persist`, and -1 for a size or an offset is `none`
pub record Sst : Type 0 where
  pub handler : ℕ
  pub id : ℕ
  pub smallest_key : Bytes
  pub largest_key : Bytes
  pub index_table : Map ℕ
  pub ts : ℕ
  pub entries : ℕ
  pub level : ℕ
  pub persisted : Bool
  pub marked_for_compaction : Bool
  pub index_block_size : Option ℕ
  pub data_block_offset : Option ℕ
  pub index_block_offset : Option ℕ
  pub number_of_entries_offset : Option ℕ

-- the constructor; it leaves `ts_` unset, and `unset` is what that memory holds
unfoldable pub new : ℕ → ℕ → ℕ → Sst
new unset handler id = record {
  handler = handler;
  id = id;
  smallest_key = [];
  largest_key = [];
  index_table = [];
  ts = unset;
  entries = 0;
  level = 0;
  persisted = false;
  marked_for_compaction = false;
  index_block_size = none;
  data_block_offset = none;
  index_block_offset = none;
  number_of_entries_offset = none;
}

-- SSTComparator
unfoldable pub less : Sst → Sst → Bool
less a b = elim (compare_text a.smallest_key b.smallest_key) [
  | Ordering.eq ↦ ltb a.id b.id
  | Ordering.lt ↦ true
  | Ordering.gt ↦ false
]

-- operator>
unfoldable pub gt : Sst → Sst → Bool
gt a b = text_lt b.smallest_key a.smallest_key

unfoldable pub set_level : ℕ → Sst → Sst
set_level level s = record s { level = level }

unfoldable pub mark_for_compaction : Sst → Result Sst
mark_for_compaction s = do
  require (not s.marked_for_compaction) aborted
  ok (record s { marked_for_compaction = true })

unfoldable pub unmark_for_compaction : Sst → Result Sst
unmark_for_compaction s = do
  require s.marked_for_compaction aborted
  ok (record s { marked_for_compaction = false })

unfoldable pub is_full : Config → Sst → Result Bool
is_full c s = do kv ← kv_size c; ok (s.entries == c.sst_file_size / kv)

-- The cast to `int` keeps 32 bits, and the division takes them as unsigned; -1 is `none`.
unfoldable pub search_closest : Config → Bytes → Sst → Result (Option ℕ)
search_closest c key s = elim (Map.lower_bound key s.index_table) [
  | [] ↦ ok none
  | e ∷ _ ↦ do kv ← kv_size c; ok (some (u32 e.1 / kv))
]
