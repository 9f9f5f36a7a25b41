-- ===== src/Tests.antt =====
-- A small configuration and tables of numbered pairs.
pub mod Tables
pub mod Compactions
pub mod Merges
pub mod Atoms
pub mod Counters
pub mod Disks
pub mod DiskLaws
pub mod DiskCalls
pub mod Storage
pub mod Storages
pub mod Values
pub mod Databases
pub mod Runs
use quarkkv_compaction.Base.{
  ℕ, zero, suc, ◌+◌, ◌*◌, ◌^◌, ◌≡◌, ◌≢◌, ◌<◌, ◌≤◌, refl, ap, Bool, true, false, some, List, [], ◌∷◌,
  ◌++◌, arith, Result, ok, length, take, drop, replicate, length-replicate, length-take,
  length-drop, if◌then◌else◌, ltb, ◌==◌, >>=-eq-ok, ◌>>=◌,
}
use quarkkv_compaction.Std.Text.{Bytes, text_lt, compare_text}
use quarkkv_compaction.Std.Ordered.{All}
use quarkkv_compaction.Config.{
  Config, default_config, fs, value_size, kv_size, index_block_entry_size, verify_config,
}
use quarkkv_compaction.Config.Sizes.{IsVerified, verify_config-IsVerified}
use quarkkv_compaction.KvPair
use quarkkv_compaction.KvPair.{KvPair}
use quarkkv_compaction.Device.{Device, IsDevice, IsReliable}
use quarkkv_compaction.Sst.Layout.{IsPair, IsAscending, key_less}

-- SST files of a number of pairs
abbrev pub config : ℕ → Config
config pairs = record (default_config fs) { sst_file_size = pairs * 4096 }

pub verified : (pairs : ℕ) → verify_config (config pairs) ≡ ok tt
unfolding verify_config
verified pairs = ground arith

-- a key of 56 bytes that begins with the byte `n`
abbrev pub key : ℕ → Bytes
key n = n ∷ replicate 55 0

abbrev pub pair : ℕ → KvPair
pair n = KvPair.new (key n) n 4040

abbrev pub numbered : ℕ → ℕ → List KvPair
numbered i zero = []
numbered i (suc n) = pair i ∷ numbered (suc i) n

pub pair-IsPair : (n : ℕ) → n < 2 ^ 64 → IsPair (pair n)
pair-IsPair n h = record {
  key = omega (arith, length-replicate {0} {A = ℕ} 55 0);
  value = refl;
  ts = h;
}

pub key_lt : (i j : ℕ) → i < j → text_lt (key i) (key j) ≡ true
unfolding compare_text
key_lt i j h = ground arith

numbered-above : (i j n : ℕ) → i < j → All (λ y. key_less (pair i) y ≡ true) (numbered j n)
numbered-above i j zero h = tt
numbered-above i j (suc n) h = (key_lt i j h, numbered-above i (suc j) n (omega arith))

pub numbered-IsAscending : (i n : ℕ) → IsAscending (numbered i n)
numbered-IsAscending i zero = tt
numbered-IsAscending i (suc n) =
    (numbered-above i (suc i) n (omega arith), numbered-IsAscending (suc i) n)

pub numbered-IsPair : (i n : ℕ) → i + n ≤ 2 ^ 64 → All IsPair (numbered i n)
numbered-IsPair i zero h = tt
numbered-IsPair i (suc n) h = (pair-IsPair i (omega arith), numbered-IsPair (suc i) n (omega arith))

pub accepted : (pairs : ℕ) → IsVerified (config pairs)
accepted pairs = verify_config-IsVerified (config pairs) (verified pairs)

pub length-numbered : (i n : ℕ) → length (numbered i n) ≡ n
length-numbered i zero = refl
length-numbered i (suc n) = ap suc (length-numbered (suc i) n)
