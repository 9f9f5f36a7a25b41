-- ===== src/Sst/Write.antt =====
-- core/SST.cpp: `AddKV`, `AddKey`, `Persist` and what they call.
use quarkkv_compaction.Base.{
  ℕ, zero, suc, ◌+◌, ◌-◌, ◌*◌, ◌/◌, ◌%◌, true, none, some, [], ◌∷◌, ◌++◌, Result, ok, err, require,
  aborted, undefined, ◌>>=◌, ◌>>◌, ltb, leb, ◌==◌, u32, if◌then◌else◌, length, take, drop,
  replicate,
}
use quarkkv_compaction.Std.Text.{Bytes}
use quarkkv_compaction.Std.Map
use quarkkv_compaction.Std.Map.{Map}
use quarkkv_compaction.Config.{Config, block_size, value_size, kv_size, index_block_entry_size}
use quarkkv_compaction.KvPair
use quarkkv_compaction.KvPair.{KvPair}
use quarkkv_compaction.Device.{Device}
use quarkkv_compaction.Sst.{Sst}

-- `memcpy` of an integer of `width` bytes, lowest first
unfoldable pub le_bytes : ℕ → ℕ → Bytes
le_bytes zero n = []
le_bytes (suc width) n = (n % 256) ∷ le_bytes width (n / 256)

-- the loop of `writeIndexBlock` over the table
unfoldable pub index_bytes : Config → Map ℕ → Result Bytes
unfolding le_bytes
index_bytes c [] = ok []
index_bytes c ((key, offset) ∷ rest) = do
  require (length key == c.key_size) aborted
  tail ← index_bytes c rest
  ok ((key ++ le_bytes 8 offset) ++ tail)

-- `largestKey_ = indexTable_.rbegin()->first`: undefined on an empty table
unfoldable pub last_key : Map ℕ → Result Bytes
last_key [] = err undefined
last_key (e ∷ []) = ok e.0
last_key (e ∷ f ∷ rest) = last_key (f ∷ rest)

-- the part of `AddKV` behind the write, which `MoveAndAddKV` repeats
unfoldable pub count_kv : KvPair → ℕ → Sst → Sst
count_kv kv size s = record s {
  smallest_key = if s.entries == 0 then kv.key else s.smallest_key;
  index_table = Map.insert kv.key (u32 (s.entries * size)) s.index_table;
  entries = u32 (s.entries + 1);
}

module _ (d : Device) (c : Config) where
  open d use {World}

  -- `memcpy` reads the bytes of the string and its final zero, and no more.
  unfoldable pub append_kv : KvPair → Sst → World → Result World
  append_kv kv s w = do
    size ← kv_size c
    image ← KvPair.to_binary kv
    require (leb size (length image + 1)) undefined
    d.append s.handler (take size (image ++ 0 ∷ [])) w

  unfoldable pub add_kv : KvPair → Sst → World → Result (Sst × World)
  unfolding append_kv count_kv
  add_kv kv s w = do w' ← append_kv kv s w; size ← kv_size c; ok (count_kv kv size s, w')

  unfoldable pub add_key : Bytes → ℕ → Sst → World → Result (Sst × World)
  unfolding add_kv
  add_key key ts s w = do v ← value_size c; add_kv (KvPair.new key ts v) s w

  -- The buffer is not cleared: what stands behind the entries goes to the file.
  unfoldable pub write_index_block : Sst → World → Result (Sst × World)
  unfolding index_bytes
  write_index_block s w = do
    let entry = index_block_entry_size c
    require (ltb 0 entry) undefined
    let per_block = block_size / entry
    require (ltb 0 per_block) undefined
    let blocks =
        if s.entries % per_block == 0 then s.entries / per_block else s.entries / per_block + 1
    let size = u32 (blocks * block_size)
    bytes ← index_bytes c s.index_table
    require (leb (length bytes) size) undefined
    w' ← d.append s.handler (bytes ++ drop (length bytes) (d.uninitialised w size)) w
    kv ← kv_size c
    ok (
      record s { index_block_offset = some (u32 (s.entries * kv)); index_block_size = some size },
      w',
    )

  unfoldable pub write_number_of_entries : Sst → World → Result (Sst × World)
  unfolding le_bytes replicate
  write_number_of_entries s w = elim s.index_block_offset [
    | none ↦ err aborted
    | some offset ↦ elim s.index_block_size [
      | none ↦ err aborted
      | some size ↦ do
        w' ← d.append s.handler (le_bytes 4 s.entries ++ replicate (block_size - 4) 0) w
        ok (record s { number_of_entries_offset = some (offset + size) }, w')
    ]
  ]

  unfoldable pub persist : ℕ → Sst → World → Result (Sst × World)
  persist ts s w = do
    largest ← last_key s.index_table
    (s₁, w₁) ← write_index_block (record s { largest_key = largest }) w
    (s₂, w₂) ← write_number_of_entries s₁ w₁
    ok (record s₂ { persisted = true; ts = ts }, w₂)
