-- ===== src/Db/Memory.antt =====
-- `Put` and `Get` of a key while the table in memory has room.
use quarkkv_compaction.Base.{
  ℕ, suc, ◌-◌, ◌<◌, ◌≤◌, ◌≡◌, refl, ◌∙◌, true, false, some, ◌++◌, arith, ok, Returns, length,
  replicate, leb,
}
use quarkkv_compaction.Std.Text.{Bytes, text_eq_refl}
use quarkkv_compaction.Std.Map.{keep_or}
use quarkkv_compaction.Config.{Config}
use quarkkv_compaction.Config.Sizes.{IsVerified}
use quarkkv_compaction.KvPair
use quarkkv_compaction.MemTable
use quarkkv_compaction.MemTable.{full}
use quarkkv_compaction.MemTable.Laws.{IsTable, get-put, put-grows}
use quarkkv_compaction.Device.{Device}
use quarkkv_compaction.SstManager
use quarkkv_compaction.Db.{Catalog, Db, pad_key, put, get}

-- the key as it is stored
abbrev pub padded : Bytes → Bytes
padded key = key ++ replicate (56 - length key) b'_'

pad_key-padded :
    (c : Config) (key : Bytes) → IsVerified c → length key ≤ 56 → pad_key c key ≡ ok (padded key)
unfolding pad_key
pad_key-padded c key v short =
    let fits : leb (length key) 56 ≡ true = ground arith in rw (v.key_size, fits) refl

not_full : (m : MemTable.MemTable) → length m.table < m.limit → full m ≡ false
unfolding full
not_full m h = ground arith

module _ (d : Device) (c : Config) (k : Catalog d) (v : IsVerified c) where
  -- A key in the table in memory is not searched for in the files.
  get-found :
      (address : ℕ → ℕ) (key name : Bytes) (kv : KvPair.KvPair) (db : Db d)
      → pad_key c key ≡ ok name
      → MemTable.get name db.mem_table ≡ some kv
      → get d c k address key db ≡ ok (some (KvPair.to_string kv))
  unfolding get
  get-found address key name kv db pad found = ground (arith, pad, found)

  -- A `Put` of a key of at most 56 bytes, under a verified configuration, into a table in memory with
  -- room for two pairs more returns 0, keeps that table in order, and leaves the levels, the manifest
  -- and the storage as they are. A `Get` of the key then gives the pair that the table had of it, if it
  -- had one, and else the pair with the time of this call.
  pub get-put_memory :
      (tries fuel : ℕ) (address : ℕ → ℕ) (key val : Bytes) (db : Db d)
      → length key ≤ 56
      → IsTable db.mem_table
      → suc (length db.mem_table.table) < db.mem_table.limit
      → Returns (put d c k tries fuel key val db) λ db'.
        IsTable db'.mem_table
        × (get d c k address key db'
            ≡ ok (
                some (
                  KvPair.to_string (
                    keep_or
                      (MemTable.get (padded key) db.mem_table)
                      (KvPair.new (padded key) db.state.manager.clock 4040)))))
        × (db'.state.levels ≡ db.state.levels)
        × (db'.files ≡ db.files)
        × (db'.state.world ≡ db.state.world)
  unfolding put get SstManager.tick
  get-put_memory tries fuel address key val db short t room =
      let name = padded key in
      let clock = db.state.manager.clock in
      let (m', run, (t', reads)) = get-put c name clock val db.mem_table v t in
      let (grown, limit) = put-grows c name clock val db.mem_table m' v run in
      let open_table : full m' ≡ false = not_full m' (omega arith) in
      let pad = pad_key-padded c key v short in
      let found = reads name in
      let db' : Db d = record db {
        state = record db.state { manager = SstManager.tick db.state.manager };
        mem_table = m';
      } in
      (
        db',
        rw (pad, run, open_table) refl,
        (
          t',
          get-found address key name _ db' pad (found ∙ rw (text_eq_refl name) refl),
          refl,
          refl,
          refl,
        ),
      )
