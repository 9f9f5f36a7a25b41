-- ===== src/Config.antt =====
-- core/config.h: the configuration, its derived sizes, and `verify_config` of main.cpp.
pub mod Sizes
use quarkkv_compaction.Base.{
  ℕ, ◌+◌, ◌-◌, ◌*◌, ◌%◌, ◌^◌, Bool, true, Result, ok, err, require, aborted, undefined, ◌>>=◌, ◌>>◌,
  ltb, leb, ◌==◌, u32, [], if◌then◌else◌,
}
use quarkkv_compaction.Std.Text.{Bytes}

pub data Mode : Type 0 where
  manual ycsb : Mode

pub data StorageEngine : Type 0 where
  fs quarkstore quarkstore_append : StorageEngine

pub data CompactionPicker : Type 0 where
  all one : CompactionPicker

pub data Distribution : Type 0 where
  uniform zipfian : Distribution

pub record Config : Type 0 where
  pub engine : StorageEngine
  pub mode : Mode
  pub ycsb_workload_path : Bytes
  pub fs_dbdir : Bytes
  pub distribution : Distribution
  pub prepopulate_size : ℕ
  pub read_size : ℕ
  pub write_size : ℕ
  pub cp : CompactionPicker
  pub n_levels : ℕ
  pub fanout : ℕ
  pub key_size : ℕ
  pub practical_key_size : ℕ
  pub level0_max_size : ℕ
  pub sst_file_size : ℕ
  pub quarkstore_current_aid : ℕ
  pub quarkstore_manifest_aid_start : ℕ
  pub quarkstore_sst_aid_start : ℕ

-- a member that nothing assigns
abbrev pub ts_size : ℕ
ts_size = 18

abbrev pub block_size : ℕ
block_size = 4096

-- the initialisers of the members; the engine has none
abbrev pub default_config : StorageEngine → Config
default_config e = record {
  engine = e;
  mode = manual;
  ycsb_workload_path = [];
  fs_dbdir = [];
  distribution = uniform;
  prepopulate_size = 262144;
  read_size = 0;
  write_size = 0;
  cp = one;
  n_levels = 7;
  fanout = 10;
  key_size = 56;
  practical_key_size = 56;
  level0_max_size = 1;
  sst_file_size = 67108864;
  quarkstore_current_aid = 100000;
  quarkstore_manifest_aid_start = 100001;
  quarkstore_sst_aid_start = 1000000;
}

unfoldable pub value_size : Config → Result ℕ
value_size c = do require (ltb c.key_size block_size) aborted; ok (block_size - c.key_size)

unfoldable pub kv_size : Config → Result ℕ
unfolding value_size
kv_size c = do v ← value_size c; ok (u32 (v + c.key_size))

-- `sizeof(size_t)` is 8
unfoldable pub index_block_entry_size : Config → ℕ
index_block_entry_size c = u32 (c.key_size + 8)

-- The product of doubles is exact below 2 ^ 32, and its conversion to `uint32_t` is undefined above.
unfoldable pub max_size_of_level : Config → ℕ → Result ℕ
max_size_of_level c level =
    let size = c.fanout ^ level * c.level0_max_size in
    if ltb size (2 ^ 32) then ok size else err undefined

-- main.cpp. The tests that an enumeration has one of its values hold of every value of the types
-- here. A remainder by zero is undefined.
unfoldable pub verify_config : Config → Result (Unit {0})
unfolding kv_size value_size index_block_entry_size
verify_config c = do
  require (c.key_size == 56) aborted
  require (leb c.practical_key_size c.key_size) aborted
  kv ← kv_size c
  require (ltb 0 kv) undefined
  require (c.sst_file_size % kv == 0) aborted
  require (ltb 0 (index_block_entry_size c)) undefined
  require (block_size % index_block_entry_size c == 0) aborted
  kv' ← kv_size c
  require (block_size == kv') aborted
