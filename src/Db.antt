-- ===== src/Db.antt =====
-- core/DBImpl.h and core/DBImpl.cpp, which core/DB.cpp forwards to. The manifest's file and the
-- opening of a table by its identifier belong to the storage and are parameters. Times are left out.
pub mod Memory
pub mod Mirrored
pub mod Runs
use quarkkv_compaction.Base.{
  ℕ, zero, suc, ◌+◌, ◌-◌, Bool, true, false, Option, none, some, List, [], ◌∷◌, ◌++◌, Result, ok,
  err, require, failed, aborted, undefined, diverges, ◌>>=◌, ◌>>◌, ltb, leb, ◌==◌, u32,
  if◌then◌else◌, length, replicate, set,
}
use quarkkv_compaction.Std.Text.{Bytes, text_lt}
use quarkkv_compaction.Std.Ordered
use quarkkv_compaction.Std.Map.{Map}
use quarkkv_compaction.Config.{Config, StorageEngine, fs}
use quarkkv_compaction.KvPair
use quarkkv_compaction.KvPair.{KvPair}
use quarkkv_compaction.MemTable
use quarkkv_compaction.MemTable.{MemTable}
use quarkkv_compaction.Device.{Device}
use quarkkv_compaction.Sst.{Sst, less, set_level}
use quarkkv_compaction.Sst.Read.{
  lookup, parse, parse_offsets, read_number_of_entries, read_index_block,
}
use quarkkv_compaction.SstManager
use quarkkv_compaction.SstManager.{wrap, flush_to_sst}
use quarkkv_compaction.Manifest
use quarkkv_compaction.Manifest.{Levels, add_to_level}
use quarkkv_compaction.Iterators.{LevelIterator, new_level, next_level, seek_level, deref}
use quarkkv_compaction.Compacter.{State, cleared, level_at}
use quarkkv_compaction.Compacter.Select.{compact}

-- `key_size - key.size()` wraps for a longer key, and the string is then too long to be made
unfoldable pub pad_key : Config → Bytes → Result Bytes
pad_key c key =
    if leb (length key) c.key_size
    then ok (key ++ replicate (c.key_size - length key) b'_')
    else err aborted

-- `lower_bound` of a map and what stands from there on
unfoldable pub from_key : Bytes → Map KvPair → Map KvPair
from_key key [] = []
from_key key (e ∷ es) = let rest = from_key key es in if text_lt e.0 key then rest else e ∷ es

-- std::priority_queue of pairs with `KVPairComparator`: the least pair is on top
unfoldable pub push_pair : KvPair → List KvPair → List KvPair
push_pair kv [] = kv ∷ []
push_pair kv (top ∷ rest) =
    let behind = push_pair kv rest in if KvPair.gt kv top then top ∷ behind else kv ∷ top ∷ rest

-- the loop of `Scan` over the table in memory
unfoldable pub scan_table : ℕ → Map KvPair → List KvPair → List KvPair
scan_table len [] pairs = pairs
scan_table len (e ∷ es) pairs =
    let pairs' = push_pair e.1 pairs in
    let rest = scan_table len es pairs' in if length pairs' == len then pairs' else rest

module _ (d : Device) where
  open d use {World}

  -- what the storage adds for a whole database
  pub record Catalog : Type 0 where
    pub open_file : ℕ → World → Option (ℕ × ℕ × World)
    pub open_manifest : Levels → World → Result (Levels × World)
    pub persist_manifest : Levels → World → Result World
    -- what `ToString` of the manifest, which is printed, does to the storage
    pub print_manifest : World → World

  pub record Db : Type 0 where
    pub state : State d
    pub files : Levels
    pub mem_table : MemTable
    pub flushes : ℕ

  -- the constructor
  unfoldable pub new : Config → World → Result Db
  new c w = do
    table ← MemTable.new c
    ok (record {
      state = record {
        levels = replicate c.n_levels [];
        manager = SstManager.new c;
        world = w;
        stats = cleared;
        total = cleared;
      };
      files = Manifest.new c;
      mem_table = table;
      flushes = 0;
    })

  module _ (c : Config) (k : Catalog) where
    -- what `Parse` has made of a table when its result -1 is dropped
    unfoldable pub parse_anyway : Sst → World → Result Sst
    parse_anyway s w = do
      s₁ ← parse_offsets d c s
      elim (read_number_of_entries d c s₁ w) [
        | err failed ↦ ok s₁
        | err aborted ↦ err aborted
        | err undefined ↦ err undefined
        | err diverges ↦ err diverges
        | ok s₂ ↦ elim (read_index_block d c s₂ w) [
          | err failed ↦ ok s₂
          | err aborted ↦ err aborted
          | err undefined ↦ err undefined
          | err diverges ↦ err diverges
          | ok s₃ ↦ parse d c s w
        ]
      ]

    -- SSTManager::ReadSST of an identifier below 2 ^ 31; on QuarkStore the next identifier is above
    -- every one that is read
    unfoldable pub read_sst :
        ℕ → SstManager.SstManager → World → Result (Sst × SstManager.SstManager × World)
    read_sst id m w =
        let m' : SstManager.SstManager = elim c.engine [
          | fs ↦ m
          | _ ↦ if leb m.ctr id then record m { ctr = u32 (id + 1) } else m
        ] in
        elim (k.open_file id w) [
          | none ↦ err failed
          | some (handler, id', w') ↦ do
            let s = wrap d c handler id' w'
            s' ← elim c.engine [ fs ↦ parse_anyway s w' | _ ↦ parse d c s w' ]
            ok (s', m', w')
        ]

    unfoldable pub open_tables : ℕ → List ℕ → State d → Result (State d)
    open_tables level [] st = ok st
    open_tables level (id ∷ ids) st = do
      (s, m, w) ← read_sst id st.manager st.world
      ssts ← level_at level st.levels
      open_tables level ids (record st {
        levels = set st.levels level (Ordered.insert less (set_level level s) ssts);
        manager = m;
        world = w;
      })

    unfoldable pub open_levels : ℕ → Levels → State d → Result (State d)
    open_levels level [] st = ok st
    open_levels level (ids ∷ files) st = do
      st' ← open_tables level ids st
      open_levels (level + 1) files st'

    -- Open
    unfoldable pub open_db : Db → Result Db
    open_db db = do
      (files, w) ← k.open_manifest db.files db.state.world
      let st = db.state
      st' ← open_levels 0 files (record st { world = w })
      ok (record db { state = record st' { world = k.print_manifest st'.world }; files = files })

    -- Close: it ends the manifest's life, and nothing that uses the manifest may be called after it, so
    -- the files are all that is left.
    unfoldable pub close_db : Db → Result World
    close_db db = k.persist_manifest db.files db.state.world

    -- The search of level 0: `i` tables have been searched. What is compared is the address of the
    -- pair that was read from the table with number `i`, against that of the latest so far.
    unfoldable pub get_level0 :
        (ℕ → ℕ) → Bytes → ℕ → List Sst → Option (ℕ × KvPair) → World → Result (Option (ℕ × KvPair))
    get_level0 address key i [] latest w = ok latest
    get_level0 address key i (s ∷ ssts) latest w = do
      found ← lookup d c key s w
      let latest' : Option (ℕ × KvPair) = elim found [
        | none ↦ latest
        | some kv ↦ elim latest [
          | none ↦ some (i, kv)
          | some (j, old) ↦ if ltb (address j) (address i) then some (i, kv) else some (j, old)
        ]
      ]
      get_level0 address key (i + 1) ssts latest' w

    unfoldable pub get_level : Bytes → List Sst → World → Result (Option KvPair)
    get_level key [] w = ok none
    get_level key (s ∷ ssts) w = do
      found ← lookup d c key s w
      let rest = get_level key ssts w
      elim found [ none ↦ rest | some kv ↦ ok (some kv) ]

    unfoldable pub get_levels : Bytes → List (List Sst) → World → Result (Option KvPair)
    get_levels key [] w = ok none
    get_levels key (ssts ∷ levels) w = do
      found ← get_level key ssts w
      let rest = get_levels key levels w
      elim found [ none ↦ rest | some kv ↦ ok (some kv) ]

    -- Get; `none` where the destination is left as it is
    unfoldable pub get : (ℕ → ℕ) → Bytes → Db → Result (Option Bytes)
    get address key db = do
      key' ← pad_key c key
      let search : Result (Option Bytes) = elim db.state.levels [
        | [] ↦ err aborted
        | level0 ∷ levels ↦ do
          latest ← get_level0 address key' 0 level0 none db.state.world
          let rest = get_levels key' levels db.state.world
          elim latest [
            | some (i, kv) ↦ ok (some (KvPair.to_string kv))
            | none ↦ do
              found ← rest
              elim found [ none ↦ ok none | some kv ↦ ok (some (KvPair.to_string kv)) ]
          ]
      ]
      elim (MemTable.get key' db.mem_table) [
        | some kv ↦ ok (some (KvPair.to_string kv))
        | none ↦ search
      ]

    -- compact
    unfoldable pub compact_db : ℕ → ℕ → Db → Result Db
    compact_db tries fuel db = do
      st ← compact d c tries fuel db.state
      let files = Manifest.update st.levels db.files
      w ← k.persist_manifest files st.world
      ok (record db { state = record st { world = k.print_manifest w }; files = files })

    -- flush
    unfoldable pub flush : ℕ → ℕ → Db → Result Db
    flush tries fuel db = do
      let st = db.state
      (s, m, w) ← flush_to_sst d c tries db.mem_table st.manager st.world
      files ← add_to_level 0 s.id db.files
      level0 ← level_at 0 st.levels
      let level0' = Ordered.insert less s level0
      let db' = record db {
        state = record st { levels = set st.levels 0 level0'; manager = m; world = w };
        files = files;
        mem_table = MemTable.flush db.mem_table;
      }
      db'' ← if ltb c.level0_max_size (length level0') then compact_db tries fuel db' else ok db'
      ok (record db'' { flushes = u32 (db''.flushes + 1) })

    -- Put
    unfoldable pub put : ℕ → ℕ → Bytes → Bytes → Db → Result Db
    put tries fuel key val db = do
      key' ← pad_key c key
      let st = db.state
      table ← MemTable.put c key' st.manager.clock val db.mem_table
      let db' = record db {
        state = record st { manager = SstManager.tick st.manager };
        mem_table = table;
      }
      if MemTable.full table then flush tries fuel db' else ok db'

    -- the loop of `Scan` over a level, for at most `fuel` rounds
    unfoldable pub scan_level : ℕ → ℕ → LevelIterator → List KvPair → World → Result (List KvPair)
    scan_level zero len it pairs w = err diverges
    scan_level (suc fuel) len it pairs w = elim it.ptr [
      | none ↦ ok pairs
      | some e ↦ do
        it' ← next_level d c it w
        let more = scan_level fuel len it' (push_pair e pairs) w
        let replace : Result (List KvPair) = elim pairs [
          | [] ↦ err undefined
          | top ∷ rest ↦
              let on = scan_level fuel len it' (push_pair e rest) w in
              if KvPair.gt e top then ok (top ∷ rest) else on
        ]
        if ltb (length pairs) len then more else replace
    ]

    unfoldable pub scan_levels :
        ℕ → ℕ → Bytes → List (List Sst) → List KvPair → World → Result (List KvPair)
    scan_levels fuel len start [] pairs w = ok pairs
    scan_levels fuel len start (ssts ∷ levels) pairs w =
        let skip = scan_levels fuel len start levels pairs w in
        let scan = (do
          it ← new_level d c ssts w
          it' ← seek_level d c start it w
          pairs' ← scan_level fuel len it' pairs w
          scan_levels fuel len start levels pairs' w) in
        if length ssts == 0 then skip else scan

    -- Scan; the queue is what it has gathered, and the destination is left as it is
    unfoldable pub scan : ℕ → Bytes → ℕ → Db → Result (List KvPair)
    scan fuel start len db = do
      start' ← pad_key c start
      scan_levels fuel len start' db.state.levels
          (scan_table len (from_key start' db.mem_table.table) []) db.state.world
