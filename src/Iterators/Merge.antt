-- ===== src/Iterators/Merge.antt =====
-- The `CompactionIterator` as a whole: it gives the merge of the marked tables.
use quarkkv_compaction.Base.{
  ◌<◌, ◌≡◌, refl, sym, subst, none, List, [], ◌∷◌, ◌++◌, arith, map, length, concat, ==_iff, ok,
  ◌>>=◌,
}
use mathlib.Core.List.{Perm}
use quarkkv_compaction.Std.Ordered.{All}
use quarkkv_compaction.Config.{Config}
use quarkkv_compaction.Config.Sizes.{IsVerified}
use quarkkv_compaction.KvPair.{KvPair}
use quarkkv_compaction.Device.{Device, IsReliable}
use quarkkv_compaction.Sst.{Sst}
use quarkkv_compaction.Iterators.{
  CompactionIterator, Source, marked, next_compaction, new_compaction, seek_compaction_to_first,
}
use quarkkv_compaction.Iterators.Kv.{Yields}
use quarkkv_compaction.Iterators.Runs.{IsRun, AreApart, IsHeap}
use quarkkv_compaction.Iterators.Placed.{
  place_all, place_all-append, placed-IsHeap, merged, merged-perm, merged-IsRun, size_placed,
}
use quarkkv_compaction.Iterators.Heap.{Feeds, heap-Yields, front}
use quarkkv_compaction.Iterators.Opened.{
  Stored, ssts_of, run_of, level_run, runs_of, IsStored, AreLevels, add_level0_sst-Feeds,
  add_levels-Feeds,
}

All-back : (P : List KvPair → Type 0) (xs ys : List (List KvPair)) → All P (xs ++ ys) → All P ys
All-back P [] ys h = h
All-back P (x ∷ xs) ys h = All-back P xs ys h.1

module _ (d : Device) (c : Config) (v : IsVerified c) (rel : IsReliable d)
    (P : d.World → Type 0) where
  open d use {World}

  -- at the front of the heap
  first_of :
      (heap : List Source) (runs : List (List KvPair))
      → Feeds d c P heap runs
      → IsHeap runs
      → 0 < length (concat runs)
      → seek_compaction_to_first d c (record { heap = heap; ptr = none; iterations = 0 })
        ≡ ok (record { heap = heap; ptr = front runs; iterations = 0 })
  unfolding seek_compaction_to_first concat
  first_of heap [] f h some_left = absurd (omega arith)
  first_of heap ([] ∷ runs) f h some_left = elim h [ ]
  first_of [] ((x ∷ xs) ∷ runs) f h some_left = elim f [ ]
  first_of (s ∷ heap) ((x ∷ xs) ∷ runs) f h some_left = rw f.0.0 refl

  -- Under a verified configuration and on storage that has no errors, take levels of which the marked
  -- tables have pairs and stay readable whatever happens within `P`. Each marked table of the first
  -- level is a run of pairs, and so are the marked tables of each other level one behind the other,
  -- fewer than 2 ^ 32 of them. Where there is a pair, every run is in the order of `operator>`, and no
  -- pair of a run has the key and the time of a pair of another, a new `CompactionIterator` that has
  -- sought its first pair gives the merge of the runs, one pair for each `Next`, and then ends: the
  -- pairs of all the runs, each as often, in the order of `operator>`.
  pub new_compaction-Yields :
      (level0 : List Sst) (rest : List (List Sst)) (ts : List Stored) (levels : List (List Stored))
      → length (level0 ∷ rest) ≡ c.n_levels
      → marked level0 ≡ ssts_of ts
      → All (IsStored d P) ts
      → AreLevels d P rest levels
      → All IsRun (runs_of ts levels)
      → AreApart (runs_of ts levels)
      → 0 < length (concat (runs_of ts levels))
      → (ci : CompactionIterator) × ((w : World)
          → P w
          → (new_compaction d c (level0 ∷ rest) w >>= λ i. seek_compaction_to_first d c i) ≡ ok ci)
        × Yields (next_compaction d c) (λ i. i.ptr) P ci (merged (runs_of ts levels))
        × IsRun (merged (runs_of ts levels))
        × Perm (merged (runs_of ts levels)) (concat (runs_of ts levels))
  unfolding new_compaction merged
  new_compaction-Yields level0 rest ts levels size e h a m apart some_pair =
      let runs = runs_of ts levels in
      let upper = map run_of ts in
      let lower = map level_run levels in
      let (heap₁, run₁, f₁) = add_level0_sst-Feeds d c v rel P level0 ts [] [] e h tt in
      let (heap₂, run₂, f₂) =
        add_levels-Feeds d c v rel P rest levels heap₁ (place_all upper []) a
          (All-back IsRun upper lower m) f₁ in
      let f : Feeds d c P heap₂ (place_all runs []) =
        subst (Feeds d c P heap₂) (sym (place_all-append upper lower [])) f₂ in
      let ordered = placed-IsHeap runs m apart in
      let fits = (==_iff (length (level0 ∷ rest)) c.n_levels).1 size in
      (
        record { heap = heap₂; ptr = front (place_all runs []); iterations = 0 },
        λ w p.
            rw (fits, run₁ w p, run₂ w p)
              (first_of heap₂ (place_all runs []) f ordered.0 (omega (arith, size_placed runs))),
        heap-Yields d c P (length (concat runs)) heap₂ (place_all runs []) 0 f ordered.0 ordered.1
            (size_placed runs),
        merged-IsRun runs m apart,
        merged-perm runs,
      )
