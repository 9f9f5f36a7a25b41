-- ===== src/Compacter.antt =====
-- core/Compacter.h and core/Compacter.cpp, with the three `merge` methods of fs/CompacterFS.cpp,
-- quark/CopyCompacterQuark.cpp and quark/CompacterQuark.cpp. The compacter works on the levels of
-- the database; a table that it marks through a pointer is written back to its level.
pub mod Dedup
pub mod Oldest
pub mod Tables
pub mod Extends
pub mod Steps
pub mod Merge
pub mod Removal
pub mod Compaction
pub mod Levels
pub mod Select
pub mod Numbered
pub mod Picked
pub mod Counted
pub mod Counts
use quarkkv_compaction.Base.{
  ℕ, zero, suc, ◌+◌, ◌%◌, ◌^◌, Bool, false, Option, none, some, List, [], ◌∷◌, Result, ok, err,
  require, failed, aborted, diverges, ◌>>=◌, ◌>>◌, ltb, leb, u32, if◌then◌else◌, length, get_elem?,
  set,
}
use quarkkv_compaction.Std.Text.{text_eq}
use quarkkv_compaction.Std.Ordered
use quarkkv_compaction.Config.{Config, fs, quarkstore, quarkstore_append, kv_size}
use quarkkv_compaction.KvPair.{KvPair}
use quarkkv_compaction.Device.{Device}
use quarkkv_compaction.Sst.{Sst, less, is_full, set_level}
use quarkkv_compaction.Sst.Write.{add_kv, count_kv, persist}
use quarkkv_compaction.SstManager
use quarkkv_compaction.SstManager.{SstManager, new_empty_sst}
use quarkkv_compaction.Iterators.{CompactionIterator, next_compaction, deref}

-- CompactionStats without the times
pub record Stats : Type 0 where
  pub compactions : ℕ
  pub new_ssts : ℕ
  pub duplicate : ℕ
  pub deleted : ℕ
  pub write_amplification_kvs : ℕ
  pub write_amplification_bytes : ℕ

abbrev pub cleared : Stats
cleared = record {
  compactions = 0;
  new_ssts = 0;
  duplicate = 0;
  deleted = 0;
  write_amplification_kvs = 0;
  write_amplification_bytes = 0;
}

-- CompactionStats::Add
unfoldable pub add_stats : Stats → Stats → Stats
add_stats a b = record {
  compactions = u32 (a.compactions + b.compactions);
  new_ssts = u32 (a.new_ssts + b.new_ssts);
  duplicate = u32 (a.duplicate + b.duplicate);
  deleted = u32 (a.deleted + b.deleted);
  write_amplification_kvs = u32 (a.write_amplification_kvs + b.write_amplification_kvs);
  write_amplification_bytes = (a.write_amplification_bytes + b.write_amplification_bytes) % 2 ^ 64;
}

-- `ssts_->at(level)` and a change of that level
unfoldable pub level_at : ℕ → List (List Sst) → Result (List Sst)
level_at level levels = elim (get_elem? levels level) [ none ↦ err aborted | some ssts ↦ ok ssts ]

-- the tests of the pair before, which is a null pointer at first
abbrev pub same_key : Option KvPair → KvPair → Bool
same_key none pair = false
same_key (some prev) pair = text_eq prev.key pair.key

abbrev pub ts_before : Option KvPair → KvPair → Bool
ts_before none pair = false
ts_before (some prev) pair = ltb prev.ts pair.ts

module _ (d : Device) where
  -- The state that a compaction works on.
  pub record State : Type 0 where
    pub levels : List (List Sst)
    pub manager : SstManager
    pub world : d.World
    pub stats : Stats
    pub total : Stats

  -- MoveAndAddKV of quark/SSTQuark.cpp; a pair that was not read from an atom has no handler
  unfoldable pub move_and_add_kv : Config → KvPair → Sst → d.World → Result (Sst × d.World)
  move_and_add_kv c kv s w = elim kv.handler [
    | none ↦ err failed
    | some source ↦ elim kv.offset [
      | none ↦ err failed
      | some offset ↦ do
        size ← kv_size c
        w' ← d.move_append s.handler source size offset w
        ok (count_kv kv size s, w')
    ]
  ]

  -- `merge` of CompacterFS and of CopyCompacterQuark
  unfoldable pub copy_merge : Config → KvPair → Sst → State → Result (Sst × State)
  copy_merge c kv s st = do
    (s', w') ← add_kv d c kv s st.world
    size ← kv_size c
    let stats = st.stats
    ok (
      s',
      record st {
        world = w';
        stats = record stats {
          write_amplification_kvs = u32 (stats.write_amplification_kvs + 1);
          write_amplification_bytes = (stats.write_amplification_bytes + size) % 2 ^ 64;
        };
      },
    )

  -- the virtual `merge`, by the class that `DBImpl` chooses for the engine
  unfoldable pub merge : Config → KvPair → Sst → State → Result (Sst × State)
  merge c kv s st = elim c.engine [
    | fs ↦ copy_merge c kv s st
    | quarkstore ↦ copy_merge c kv s st
    | quarkstore_append ↦ do
      (s', w') ← move_and_add_kv c kv s st.world
      ok (s', record st { world = w' })
  ]

  unfoldable pub finish_sst_file : Config → Sst → ℕ → State → Result State
  finish_sst_file c s level st = do
    (s', w') ← persist d c st.manager.clock s st.world
    ssts ← level_at level st.levels
    let stats = st.stats
    ok (record st {
      levels = set st.levels level (Ordered.insert less (set_level level s') ssts);
      manager = SstManager.tick st.manager;
      world = w';
      stats = record stats { new_ssts = u32 (stats.new_ssts + 1) };
    })

  -- a new table; `IsFull` and `AddKV` go through its pointer
  unfoldable pub new_sst : Config → ℕ → State → Result (Sst × State)
  new_sst c tries st = do
    (made, m, w) ← new_empty_sst d c tries st.manager st.world
    s ← deref made
    ok (s, record st { manager = m; world = w })

  -- the table that the next pair goes to
  unfoldable pub room_for_pair : Config → ℕ → ℕ → Sst → State → Result (Sst × State)
  room_for_pair c tries level s st = do
    full ← is_full c s
    let next = (do st' ← finish_sst_file c s level st; new_sst c tries st')
    if full then next else ok (s, st)

  -- The `while` of `doCompaction`, for at most `fuel` rounds. A pair with the key of the one before
  -- is passed over.
  unfoldable pub merge_loop :
      Config → ℕ → ℕ → ℕ → CompactionIterator → Option KvPair → Sst → State → Result (Sst × State)
  merge_loop c tries level zero ci prev s st = err diverges
  merge_loop c tries level (suc fuel) ci prev s st = elim ci.ptr [
    | none ↦ ok (s, st)
    | some pair ↦
        let stats = st.stats in
        let skip = (do
          require (ts_before prev pair) aborted
          ci' ← next_compaction d c ci st.world
          merge_loop c tries level fuel ci' (some pair) s
              (record st { stats = record stats { duplicate = u32 (stats.duplicate + 1) } })) in
        let add = (do
          (s₁, st₁) ← room_for_pair c tries level s st
          (s₂, st₂) ← merge c pair s₁ st₁
          ci' ← next_compaction d c ci st₂.world
          merge_loop c tries level fuel ci' (some pair) s₂ st₂) in
        if same_key prev pair then skip else add
  ]

  unfoldable pub remove_compacted : List Sst → State → Result State
  remove_compacted [] st = ok st
  remove_compacted (s ∷ ssts) st = do
    level ← level_at s.level st.levels
    w' ← d.remove s.handler s.id st.world
    let stats = st.stats
    remove_compacted ssts (record st {
      levels = set st.levels s.level (Ordered.erase less s level);
      world = w';
      stats = record stats { deleted = u32 (stats.deleted + 1) };
    })

  unfoldable pub do_compaction :
      Config → ℕ → ℕ → CompactionIterator → List Sst → ℕ → State → Result State
  do_compaction c tries fuel ci to_compact level st = do
    (s₀, st₀) ← new_sst c tries st
    (s₁, st₁) ← merge_loop c tries level fuel ci none s₀ st₀
    st₂ ← finish_sst_file c s₁ level st₁
    st₃ ← remove_compacted to_compact st₂
    require (leb st₃.stats.new_ssts (length to_compact)) aborted
    ok st₃
