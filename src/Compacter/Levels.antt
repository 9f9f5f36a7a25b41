-- ===== src/Compacter/Levels.antt =====
-- The compaction of marked tables: a new iterator over the levels, and `doCompaction` with it.
use quarkkv_compaction.Base.{
  ℕ, suc, ◌+◌, ◌*◌, ◌^◌, ◌<◌, ◌≤◌, ◌≡◌, ◌≢◌, sym, subst, none, List, [], ◌∷◌, arith, map, length,
  concat, Returns, ok, >>=-eq-ok, ◌>>=◌,
}
use quarkkv_compaction.Std.Ordered.{All, All-append}
use quarkkv_compaction.Config.{Config, quarkstore_append}
use quarkkv_compaction.Config.Sizes.{IsVerified}
use quarkkv_compaction.KvPair.{KvPair}
use quarkkv_compaction.Device.{Device, IsReliable}
use quarkkv_compaction.Sst.{Sst}
use quarkkv_compaction.Sst.Layout.{IsPair}
use quarkkv_compaction.Iterators.{
  CompactionIterator, marked, next_compaction, new_compaction, seek_compaction_to_first,
}
use quarkkv_compaction.Iterators.Kv.{Yields, locateds}
use quarkkv_compaction.Iterators.Runs.{IsRun, AreApart}
use quarkkv_compaction.Iterators.Placed.{merged, length-merged, All-merged, All-unmerged}
use quarkkv_compaction.Iterators.Opened.{
  Stored, ssts_of, run_of, level_run, runs_of, IsStored, AreLevels,
}
use quarkkv_compaction.Iterators.Merge.{new_compaction-Yields}
use quarkkv_compaction.Compacter.{State, level_at, do_compaction}
use quarkkv_compaction.Compacter.Dedup.{first_of_runs, IsMerged, file_all, drop_all}
use quarkkv_compaction.Compacter.Oldest.{HasOlder}
use quarkkv_compaction.Compacter.Removal.{AreRemovable}
use quarkkv_compaction.Compacter.Tables.{IsIntact, IsReady}
use quarkkv_compaction.Compacter.Extends.{Chunk, tables, contents}
use quarkkv_compaction.Compacter.Compaction.{Holding, do_compaction-Holding}
use quarkkv_compaction.Compacter.Select.{compact_marked, insert_all}

-- the tables that `Compact` hands to `doCompaction`
abbrev pub chosen : List Sst → List Sst → List Sst
chosen upper lower = insert_all (marked lower) (insert_all (marked upper) [])

locateds-IsPair : (h i : ℕ) (kvs : List KvPair) → All IsPair kvs → All IsPair (locateds h i kvs)
unfolding locateds
locateds-IsPair h i [] p = tt
locateds-IsPair h i (x ∷ xs) p =
    (record { key = p.0.key; value = p.0.value; ts = p.0.ts }, locateds-IsPair h (suc i) xs p.1)

module _ (d : Device) (P : d.World → Type 0) (w : d.World) (here : P w) where
  runs-IsPair : (ts : List Stored) → All (IsStored d P) ts → All (All IsPair) (map run_of ts)
  runs-IsPair [] h = tt
  runs-IsPair (t ∷ ts) h =
      (locateds-IsPair t.0.handler 0 t.1 (h.0.readable w here).pairs, runs-IsPair ts h.1)

  level_run-IsPair : (ts : List Stored) → All (IsStored d P) ts → All IsPair (level_run ts)
  unfolding concat
  level_run-IsPair [] h = tt
  level_run-IsPair (t ∷ ts) h =
      All-append IsPair (run_of t) (level_run ts)
        (locateds-IsPair t.0.handler 0 t.1 (h.0.readable w here).pairs) (level_run-IsPair ts h.1)

  level_runs-IsPair :
      (rest : List (List Sst)) (levels : List (List Stored))
      → AreLevels d P rest levels
      → All (All IsPair) (map level_run levels)
  level_runs-IsPair [] [] a = tt
  level_runs-IsPair [] (ts ∷ levels) a = elim a [ ]
  level_runs-IsPair (ssts ∷ rest) [] a = elim a [ ]
  level_runs-IsPair (ssts ∷ rest) (ts ∷ levels) a =
      (level_run-IsPair ts a.1, level_runs-IsPair rest levels a.3)

module _ (d : Device) (w₀ : d.World) (IsSource : ℕ → Type 0) (level cap : ℕ) (c : Config)
    (v : IsVerified c) (rel : IsReliable d) where
  -- the same for any list with a pair
  do_compaction-some :
      (tries fuel : ℕ) (ci : CompactionIterator) (to_compact : List Sst) (st : State d)
      (all : List KvPair) (n : ℕ)
      → c.engine ≢ quarkstore_append
      → c.sst_file_size ≡ cap * 4096
      → 0 < cap
      → cap * 4096 < 2 ^ 32
      → length all ≡ n
      → 0 < n
      → Yields (next_compaction d c) (λ i. i.ptr) (IsIntact d w₀ IsSource) ci all
      → n < fuel
      → IsReady d w₀ IsSource st
      → level + 1 < length st.levels
      → suc st.manager.ctr + n ≤ 2 ^ 31
      → All IsPair all
      → IsMerged all
      → AreRemovable d w₀ to_compact
      → All (λ t. IsSource t.handler × (t.level < length st.levels)) to_compact
      → st.stats.new_ssts ≡ 0
      → n ≤ length to_compact * cap
      → Returns (do_compaction d c (suc tries) fuel ci to_compact (level + 1) st) λ st'.
        (chunks : List Chunk) × Holding d w₀ IsSource
          (level + 1)
          cap
          st'.world
          (first_of_runs none all)
          chunks
        × All (HasOlder (contents chunks)) all
        × (st'.levels ≡ drop_all to_compact (file_all (level + 1) (tables chunks) st.levels))
  do_compaction-some tries fuel ci to_compact st [] n copies capacity some_room small size some_pair
        y enough ready there low p m removable sources none_new fits =
      absurd (omega arith)
  do_compaction-some tries fuel ci to_compact st (kv ∷ kvs) n copies capacity some_room small size
        some_pair y enough ready there low p m removable sources none_new fits =
      do_compaction-Holding d w₀ IsSource (level + 1) cap c v rel tries fuel ci to_compact st kv kvs
        copies capacity some_room small y (omega arith) ready there (omega arith) p m removable
        sources none_new (omega arith)

  -- Compacting the marked tables of the levels, on storage without errors, under a verified
  -- configuration and with a compacter that copies, into a level that is there. The marked tables
  -- have pairs and can be read while their files stay as they are. Each marked table of the first
  -- level is a run of pairs, and so are those of each other level one behind the other, fewer than
  -- 2 ^ 32 of them; every run is in the order of `operator>`, no pair of a run has the key and the time
  -- of a pair of another, and the runs have a pair. The pairs are no more than the marked tables of
  -- the two levels have room for. The names from the counter on are free and the identifiers that are
  -- needed stay below 2 ^ 31. The files of the marked tables of the two levels are open, are among
  -- those that are read, are named by identifiers below 2 ^ 31 that are there, and no two of them have
  -- one handler or one identifier; the levels of these tables are there, and there are as many levels as
  -- the configuration has. An SST file is a whole number of blocks, at least one and below 2 ^ 32 bytes.
  -- No new table has been counted, and there is fuel for one more round than there are pairs. Then the
  -- call returns 0.
  -- New tables of the level below, none with more pairs than fit a file, hold the first pair of each
  -- key in the merge of the runs, so every pair of every run has among them a pair of its key that is
  -- not later. The levels are as before, but that the new tables are added to that level and the
  -- marked tables of the two levels are erased from theirs.
  pub compact_marked-Holding :
      (tries fuel : ℕ) (st : State d) (level0 upper lower : List Sst) (rest : List (List Sst))
      (ts : List Stored) (levels : List (List Stored))
      → c.engine ≢ quarkstore_append
      → c.sst_file_size ≡ cap * 4096
      → 0 < cap
      → cap * 4096 < 2 ^ 32
      → st.levels ≡ level0 ∷ rest
      → length st.levels ≡ c.n_levels
      → level_at level st.levels ≡ ok upper
      → level_at (level + 1) st.levels ≡ ok lower
      → marked level0 ≡ ssts_of ts
      → All (IsStored d (IsIntact d w₀ IsSource)) ts
      → AreLevels d (IsIntact d w₀ IsSource) rest levels
      → All IsRun (runs_of ts levels)
      → AreApart (runs_of ts levels)
      → 0 < length (concat (runs_of ts levels))
      → length (concat (runs_of ts levels)) < fuel
      → IsReady d w₀ IsSource st
      → level + 1 < length st.levels
      → suc st.manager.ctr + length (concat (runs_of ts levels)) ≤ 2 ^ 31
      → AreRemovable d w₀ (chosen upper lower)
      → All (λ t. IsSource t.handler × (t.level < length st.levels)) (chosen upper lower)
      → st.stats.new_ssts ≡ 0
      → length (concat (runs_of ts levels)) ≤ length (chosen upper lower) * cap
      → Returns (compact_marked d c (suc tries) fuel level st) λ st'.
        (chunks : List Chunk) × Holding d w₀ IsSource
          (level + 1)
          cap
          st'.world
          (first_of_runs none (merged (runs_of ts levels)))
          chunks
        × All (All (HasOlder (contents chunks))) (runs_of ts levels)
        × (st'.levels
            ≡ drop_all (chosen upper lower) (file_all (level + 1) (tables chunks) st.levels))
  unfolding compact_marked
  compact_marked-Holding tries fuel st level0 upper lower rest ts levels copies capacity some_room
        small same size at_upper at_lower e h a m apart some_pair enough ready there low removable
        sources none_new fits =
      let P = IsIntact d w₀ IsSource in
      let runs = runs_of ts levels in
      let (ci, opened, yields, ordered, perm) =
        new_compaction-Yields d c v rel P level0 rest ts levels
          (subst (λ l. length l ≡ c.n_levels) same size) e h a m apart some_pair in
      let pairs : All (All IsPair) runs =
        All-append (All IsPair) (map run_of ts) (map level_run levels)
          (runs-IsPair d P st.world ready.intact ts h)
          (level_runs-IsPair d P st.world ready.intact rest levels a) in
      let (st', run, (chunks, holding, older, changed)) =
        do_compaction-some tries fuel ci (chosen upper lower) st (merged runs)
          (length (concat runs)) copies capacity some_room small (length-merged runs) some_pair
          yields enough ready there low (All-merged IsPair runs pairs) ordered removable sources
          none_new fits in
      let opened' : (new_compaction d c st.levels st.world >>= λ i. seek_compaction_to_first d c i)
          ≡ ok ci =
        subst (λ l. (new_compaction d c l st.world >>= λ i. seek_compaction_to_first d c i) ≡ ok ci)
          (sym same) (opened st.world ready.intact) in
      let (ci₀, sought, made) =
        >>=-eq-ok (new_compaction d c st.levels st.world) (λ i. seek_compaction_to_first d c i)
          opened' in
      (
        st',
        rw (made, sought, at_upper, at_lower) run,
        (chunks, holding, All-unmerged (HasOlder (contents chunks)) runs older, changed),
      )
