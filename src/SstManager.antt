-- ===== src/SstManager.antt =====
-- core/SSTManager.h and core/SSTManager.cpp: the counter of identifiers, the clock, and the tables
-- that they make. The random keys of `PopulateSST` are not modelled: it is not called.
pub mod Free
pub mod Ids
use quarkkv_compaction.Base.{
  ℕ, zero, suc, ◌+◌, ◌/◌, ◌%◌, ◌^◌, Option, none, some, [], ◌∷◌, Result, ok, err, require, aborted,
  diverges, ◌>>=◌, ◌>>◌, true, false, ltb, ◌==◌, length,
}
use quarkkv_compaction.Std.Text.{Bytes}
use quarkkv_compaction.Std.Map.{Map}
use quarkkv_compaction.Config.{Config, fs, kv_size}
use quarkkv_compaction.KvPair.{KvPair}
use quarkkv_compaction.MemTable.{MemTable}
use quarkkv_compaction.Device.{Device}
use quarkkv_compaction.Sst
use quarkkv_compaction.Sst.{Sst}
use quarkkv_compaction.Sst.Write.{add_kv, persist}
use quarkkv_compaction.Sst.Read.{of_le_bytes, lookup}

-- `ctr` is an `int`: from 2 ^ 31 on it stands for a negative one
pub record SstManager : Type 0 where
  pub ctr : ℕ
  pub clock : ℕ

unfoldable pub new : Config → SstManager
new c = record { ctr = elim c.engine [ fs ↦ 0 | _ ↦ c.quarkstore_sst_aid_start ]; clock = 0 }

-- ClockGetAndIncrement
unfoldable pub tick : SstManager → SstManager
tick m = record m { clock = (m.clock + 1) % 2 ^ 64 }

module _ (d : Device) (c : Config) where
  open d use {World}

  -- the object that CreateNewEmpty makes around a new file
  unfoldable pub wrap : ℕ → ℕ → World → Sst
  wrap handler id w = Sst.new (of_le_bytes (d.uninitialised w 8)) handler id

  -- The loop of `NewEmptySST`, for at most `tries` rounds. On a file system a name that is taken
  -- leads to the next one; QuarkStore is asked once, and the null pointer is passed on.
  unfoldable pub new_file : ℕ → SstManager → World → Result (Option Sst × SstManager × World)
  new_file zero m w = err diverges
  new_file (suc tries) m w =
      let (made, w') = d.create m.ctr w in
      let m' = record m { ctr = (m.ctr + 1) % 2 ^ 32 } in
      let again = new_file tries m' w' in
      elim made [
        | some (handler, id) ↦ ok (some (wrap handler id w'), m', w')
        | none ↦ elim c.engine [ fs ↦ again | _ ↦ ok (none, m', w') ]
      ]

  unfoldable pub new_empty_sst : ℕ → SstManager → World → Result (Option Sst × SstManager × World)
  new_empty_sst tries m w = do require (ltb m.ctr (2 ^ 31)) aborted; new_file tries m w

  -- Get
  unfoldable pub get : Bytes → Sst → World → Result (Option KvPair)
  get key s w = lookup d c key s w

  unfoldable pub add_kvs : Map KvPair → Sst → World → Result (Sst × World)
  add_kvs [] s w = ok (s, w)
  add_kvs (e ∷ es) s w = do (s', w') ← add_kv d c e.1 s w; add_kvs es s' w'

  -- what `FlushToSST` does with the new table
  unfoldable pub fill_new :
      MemTable → Option Sst → SstManager → World → Result (Sst × SstManager × World)
  fill_new t made m w = elim made [
    | none ↦ err aborted
    | some s ↦ do
      kv ← kv_size c
      require (length t.table == c.sst_file_size / kv) aborted
      (s₂, w₂) ← add_kvs t.table s w
      (s₃, w₃) ← persist d c m.clock s₂ w₂
      ok (s₃, tick m, w₃)
  ]

  unfoldable pub flush_to_sst :
      ℕ → MemTable → SstManager → World → Result (Sst × SstManager × World)
  unfolding fill_new
  flush_to_sst tries t m w = do (made, m', w₁) ← new_empty_sst tries m w; fill_new t made m' w₁

  unfoldable pub remove_sst : Sst → World → Result World
  remove_sst s w = elim s.persisted [ false ↦ ok w | true ↦ d.remove s.handler s.id w ]
