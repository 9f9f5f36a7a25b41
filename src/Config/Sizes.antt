-- ===== src/Config/Sizes.antt =====
-- The sizes under a configuration that `verify_config` accepts.
use quarkkv_compaction.Base.{◌≡◌, ◌≤◌, ◌*◌, ◌/◌, arith, ok}
use quarkkv_compaction.Config.{Config, value_size, kv_size, index_block_entry_size, verify_config}

-- What a verified configuration fixes.
pub record IsVerified (c : Config) : Type 0 where
  pub key_size : c.key_size ≡ 56
  pub practical : c.practical_key_size ≤ 56
  pub value : value_size c ≡ ok 4040
  pub kv : kv_size c ≡ ok 4096
  pub entry : index_block_entry_size c ≡ 64
  pub whole : (c.sst_file_size / 4096) * 4096 ≡ c.sst_file_size

-- A configuration that `verify_config` accepts has 56-byte keys and 4040-byte values; a pair takes
-- one block, an index entry 64 bytes, and an SST file is a whole number of pairs.
pub verify_config-IsVerified : (c : Config) → verify_config c ≡ ok tt → IsVerified c
unfolding verify_config
verify_config-IsVerified c h = ground arith
