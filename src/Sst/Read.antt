-- ===== src/Sst/Read.antt =====
-- core/SST.cpp: `readKV`, `Lookup`, `GetKVAtIndex`, and `Parse` with what it calls.
use quarkkv_compaction.Base.{
  ℕ, zero, suc, ◌+◌, ◌-◌, ◌*◌, ◌/◌, ◌%◌, true, ◌||◌, Option, none, some, [], ◌∷◌, ◌++◌, Result, ok,
  err, require, failed, aborted, undefined, ◌>>=◌, ◌>>◌, ltb, leb, ◌==◌, u32, if◌then◌else◌, length,
  take, drop, replicate,
}
use quarkkv_compaction.Std.Text.{Bytes, text_lt}
use quarkkv_compaction.Std.Map
use quarkkv_compaction.Std.Map.{Map}
use quarkkv_compaction.Config.{
  Config, block_size, ts_size, value_size, kv_size, index_block_entry_size,
}
use quarkkv_compaction.KvPair
use quarkkv_compaction.KvPair.{KvPair}
use quarkkv_compaction.Device.{Device}
use quarkkv_compaction.Sst.{Sst}
use quarkkv_compaction.Sst.Write.{last_key}

-- `memcpy` into an integer, lowest byte first
unfoldable pub of_le_bytes : Bytes → ℕ
of_le_bytes [] = 0
of_le_bytes (b ∷ bs) = b + 256 * of_le_bytes bs

-- `strncpy`: the bytes before the first zero
unfoldable pub c_string : Bytes → Bytes
c_string [] = []
c_string (zero ∷ bs) = []
c_string (suc b ∷ bs) = suc b ∷ c_string bs

-- how `readKV` takes a block apart; `size` is `kv_size` and `v` is `value_size`
unfoldable pub decode_kv : Config → ℕ → ℕ → Bytes → ℕ → ℕ → Result KvPair
decode_kv c size v buf handler offset = do
  ts ← KvPair.stoull (c_string (take 16 (drop (size - (ts_size - 2)) buf)))
  ok (record {
    key = take c.key_size buf;
    ts = ts;
    value_size = v;
    handler = some handler;
    offset = some offset;
  })

-- the loop of `readIndexBlock`: `n` entries from the front of the buffer
unfoldable pub read_entries : Config → ℕ → Bytes → Map ℕ → Result (Map ℕ)
read_entries c zero buf table = ok table
read_entries c (suc n) buf table = do
  require (leb (c.key_size + 8) (length buf)) undefined
  read_entries c n (drop (index_block_entry_size c) buf)
      (Map.insert (take c.key_size buf) (of_le_bytes (take 8 (drop c.key_size buf))) table)

unfoldable pub first_key : Map ℕ → Result Bytes
first_key [] = err undefined
first_key (e ∷ rest) = ok e.0

module _ (d : Device) (c : Config) where
  open d use {World}

  -- A read that is short leaves the end of the buffer unset, which is then used.
  unfoldable pub read_kv : ℕ → Sst → World → Result KvPair
  read_kv offset s w = do
    require (offset % block_size == 0) aborted
    size ← kv_size c
    buf ← d.read s.handler size offset w
    require (length buf == size) undefined
    v ← value_size c
    decode_kv c size v buf s.handler offset

  unfoldable pub lookup : Bytes → Sst → World → Result (Option KvPair)
  lookup key s w =
      if text_lt s.largest_key key || text_lt key s.smallest_key
      then ok none
      else elim (Map.find key s.index_table) [
        | none ↦ ok none
        | some offset ↦ do kv ← read_kv offset s w; ok (some kv)
      ]

  unfoldable pub get_kv_at_index : ℕ → Sst → World → Result KvPair
  get_kv_at_index index s w = do
    require (ltb index s.entries) aborted
    size ← kv_size c
    read_kv (u32 (index * size)) s w

  -- The buffer is cleared first, so a short read counts as zeros.
  unfoldable pub read_number_of_entries : Sst → World → Result Sst
  read_number_of_entries s w = elim s.number_of_entries_offset [
    | none ↦ err failed
    | some offset ↦ do
      buf ← d.read s.handler block_size offset w
      ok (record s { entries = of_le_bytes (take 4 (buf ++ replicate 4 0)) })
  ]

  read_index : ℕ → ℕ → Sst → World → Result Sst
  read_index offset size s w = do
    buf ← d.read s.handler size offset w
    require (length buf == size) undefined
    table ← read_entries c s.entries buf s.index_table
    require (length table == s.entries) aborted
    smallest ← first_key table
    largest ← last_key table
    ok (record s { index_table = table; smallest_key = smallest; largest_key = largest })

  unfoldable pub read_index_block : Sst → World → Result Sst
  unfolding read_index
  read_index_block s w = elim s.index_block_offset [
    | none ↦ err aborted
    | some offset ↦ elim s.index_block_size [
      | none ↦ err aborted
      | some size ↦ read_index offset size s w
    ]
  ]

  -- The offsets are those of a file that is full, whatever the number of entries.
  unfoldable pub parse_offsets : Sst → Result Sst
  parse_offsets s = do
    kv ← kv_size c
    let size = u32 (index_block_entry_size c * (c.sst_file_size / kv))
    ok (record s {
      index_block_size = some size;
      data_block_offset = some 0;
      index_block_offset = some c.sst_file_size;
      number_of_entries_offset = some (c.sst_file_size + size);
    })

  unfoldable pub parse : Sst → World → Result Sst
  parse s w = do
    s₁ ← parse_offsets s
    s₂ ← read_number_of_entries s₁ w
    s₃ ← read_index_block s₂ w
    largest ← last_key s₃.index_table
    ok (record s₃ { largest_key = largest; persisted = true })
