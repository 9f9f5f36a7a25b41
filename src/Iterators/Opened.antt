-- ===== src/Iterators/Opened.antt =====
-- What a new `CompactionIterator` over the marked tables of the levels gives.
use quarkkv_compaction.Base.{
  suc, ◌<◌, ◌^◌, ◌≡◌, refl, >>=-eq-ok, ap, subst, some, List, [], ◌∷◌, ◌++◌, arith, map, length,
  concat, ok, ◌>>=◌, Bool-cases, inl, inr,
}
use quarkkv_compaction.Std.Ordered.{All}
use quarkkv_compaction.Config.{Config}
use quarkkv_compaction.Config.Sizes.{IsVerified}
use quarkkv_compaction.KvPair.{KvPair}
use quarkkv_compaction.Device.{Device, IsReliable}
use quarkkv_compaction.Sst.{Sst}
use quarkkv_compaction.Sst.Layout.{IsReadable, located}
use quarkkv_compaction.Iterators.{
  KvIterator, LevelIterator, Source, marked, push, new_kv, new_kvs, new_level, seek_level_to_first,
  add_level0_sst, add_leveln_sst, add_levels,
}
use quarkkv_compaction.Iterators.Kv.{Starts, locateds, new_kv-Starts}
use quarkkv_compaction.Iterators.Runs.{IsRun, place}
use quarkkv_compaction.Iterators.Level.{
  Waiting, LevelYields, level_from, level-Yields, table-Yields,
}
use quarkkv_compaction.Iterators.Heap.{Feeds, push-Feeds}
use quarkkv_compaction.Iterators.Placed.{place_all}

-- a table with the pairs that its file holds
abbrev pub Stored : Type 0
Stored = Sst × List KvPair

abbrev pub ssts_of : List Stored → List Sst
ssts_of ts = map (λ t. t.0) ts

-- the pairs of a table as they are read, and those of several tables one behind the other
abbrev pub run_of : Stored → List KvPair
run_of t = locateds t.0.handler 0 t.1

abbrev pub level_run : List Stored → List KvPair
level_run ts = concat (map run_of ts)

-- One run for each table of the first level, and one for each of the other levels.
abbrev pub runs_of : List Stored → List (List Stored) → List (List KvPair)
runs_of level0 levels = map run_of level0 ++ map level_run levels

module _ (d : Device) (P : d.World → Type 0) where
  -- Whatever happens within `P`, the table can be read and has a pair.
  pub record IsStored (t : Stored) : Type 0 where
    pub some_pair : 0 < length t.1
    pub readable : (w : d.World) → P w → IsReadable d w t.0 t.1

  -- what is known of the levels below the first
  abbrev pub AreLevels : List (List Sst) → List (List Stored) → Type 0
  AreLevels [] [] = Unit
  AreLevels [] (ts ∷ levels) = ⊥
  AreLevels (ssts ∷ rest) [] = ⊥
  AreLevels (ssts ∷ rest) (ts ∷ levels) =
      (marked ssts ≡ ssts_of ts) × All IsStored ts × (length ts < 2 ^ 32) × AreLevels rest levels

module _ (d : Device) (c : Config) (v : IsVerified c) (rel : IsReliable d)
    (P : d.World → Type 0) where
  open d use {World}

  starts :
      (t : Stored)
      → IsStored d P t
      → (it : KvIterator) × ((w : World) → P w → new_kv d c t.0 w ≡ ok it)
        × Starts d c P it (run_of t)
  starts (s, []) h = absurd (omega (arith, h.some_pair))
  starts (s, x ∷ xs) h = new_kv-Starts d c v rel P s x xs h.readable

  -- The constructor of a `LevelIterator` makes an iterator for each table.
  new_kvs-Waiting :
      (ts : List Stored)
      → All (IsStored d P) ts
      → (its : List KvIterator) × ((w : World) → P w → new_kvs d c (ssts_of ts) w ≡ ok its)
        × Waiting d c P its (map run_of ts)
        × (length its ≡ length ts)
  unfolding new_kvs locateds
  new_kvs-Waiting [] h = ([], λ w p. refl, tt, refl)
  new_kvs-Waiting ((s, []) ∷ ts) h = absurd (omega (arith, h.0.some_pair))
  new_kvs-Waiting ((s, x ∷ xs) ∷ ts) h =
      let (it, made, y) = new_kv-Starts d c v rel P s x xs h.0.readable in
      let (its, rest, waiting, size) = new_kvs-Waiting ts h.1 in
      (it ∷ its, λ w p. rw (made w p, rest w p) refl, (y, waiting), ap suc size)

  -- A new iterator over a level gives the pairs of its tables.
  pub new_level-Yields :
      (t : Stored) (ts : List Stored)
      → All (IsStored d P) (t ∷ ts)
      → IsRun (level_run (t ∷ ts))
      → length (t ∷ ts) < 2 ^ 32
      → (it : LevelIterator) × ((w : World)
          → P w
          → (new_level d c (ssts_of (t ∷ ts)) w >>= λ i. seek_level_to_first d c i w) ≡ ok it)
        × LevelYields d c P it (level_run (t ∷ ts))
  unfolding new_level seek_level_to_first locateds concat
  new_level-Yields (s, []) ts h m room = absurd (omega (arith, h.0.some_pair))
  new_level-Yields (s, x ∷ xs) ts h m room =
      let (it, made, (it', sought, y)) = new_kv-Starts d c v rel P s x xs h.0.readable in
      let (its, rest, waiting, size) = new_kvs-Waiting ts h.1 in
      (
        record {
          iterators = it' ∷ its;
          level = s.level;
          ptr = some (located s.handler 0 x);
          index = 0;
          iterations = 1;
        },
        λ w p. ground (arith, made w p, rest w p, sought w p),
        level_from d c P (map run_of ts) (locateds s.handler 1 xs) [] its it' _ s.level 0 1 y
            waiting m refl (omega (arith, size)),
      )

  -- The marked tables of the first level go to the heap one by one.
  pub add_level0_sst-Feeds :
      (ssts : List Sst) (ts : List Stored) (heap : List Source) (runs : List (List KvPair))
      → marked ssts ≡ ssts_of ts
      → All (IsStored d P) ts
      → Feeds d c P heap runs
      → (heap' : List Source) × ((w : World) → P w → add_level0_sst d c ssts w heap ≡ ok heap')
        × Feeds d c P heap' (place_all (map run_of ts) runs)
  unfolding add_level0_sst marked place_all locateds
  add_level0_sst-Feeds [] [] heap runs e h f = (heap, λ w p. refl, f)
  add_level0_sst-Feeds [] (t ∷ ts) heap runs e h f = cc
  add_level0_sst-Feeds (s ∷ ssts) [] heap runs e h f = elim (Bool-cases s.marked_for_compaction) [
    | inl is ↦ absurd (ground arith)
    | inr not ↦
        let (heap', run, f') = add_level0_sst-Feeds ssts [] heap runs (ground arith) h f in
        (heap', λ w p. rw not (run w p), f')
  ]
  add_level0_sst-Feeds (s ∷ ssts) ((t, []) ∷ ts) heap runs e h f =
      absurd (omega (arith, h.0.some_pair))
  add_level0_sst-Feeds (s ∷ ssts) ((t, x ∷ xs) ∷ ts) heap runs e h f =
      elim (Bool-cases s.marked_for_compaction) [
        | inl is ↦
            let same : t ≡ s = ground arith in
            let (it, made, (it', sought, y)) = new_kv-Starts d c v rel P t x xs h.0.readable in
            let (heap', run, f') =
              add_level0_sst-Feeds ssts ts (push (Source.table it') heap)
                (place (run_of (t, x ∷ xs)) runs) (ground arith) h.1
                (push-Feeds d c P (Source.table it') (located t.handler 0 x)
                  (locateds t.handler 1 xs) heap runs
                  (table-Yields d c P it' (run_of (t, x ∷ xs)) y) f) in
            (
              heap',
              λ w p.
                  let made' : new_kv d c s w ≡ ok it =
                    subst (λ u. new_kv d c u w ≡ ok it) same (made w p) in
                  ground (arith, made', sought w p, run w p),
              f',
            )
        | inr not ↦
            let (heap', run, f') =
              add_level0_sst-Feeds ssts ((t, x ∷ xs) ∷ ts) heap runs (ground arith) h f in
            (heap', λ w p. rw not (run w p), f')
      ]

  -- The marked tables of another level go to the heap as one iterator.
  add_leveln_sst-Feeds :
      (ssts : List Sst) (ts : List Stored) (heap : List Source) (runs : List (List KvPair))
      → marked ssts ≡ ssts_of ts
      → All (IsStored d P) ts
      → IsRun (level_run ts)
      → length ts < 2 ^ 32
      → Feeds d c P heap runs
      → (heap' : List Source) × ((w : World) → P w → add_leveln_sst d c ssts w heap ≡ ok heap')
        × Feeds d c P heap' (place (level_run ts) runs)
  unfolding add_leveln_sst place concat locateds
  add_leveln_sst-Feeds ssts [] heap runs e h m room f =
      (heap, λ w p. rw (e, add_leveln_sst) refl, f)
  add_leveln_sst-Feeds ssts ((s, []) ∷ ts) heap runs e h m room f =
      absurd (omega (arith, h.0.some_pair))
  add_leveln_sst-Feeds ssts ((s, x ∷ xs) ∷ ts) heap runs e h m room f =
      let (it, made, y) = new_level-Yields (s, x ∷ xs) ts h m room in
      (
        push (Source.level it) heap,
        λ w p.
            let (it₀, next, first) =
              >>=-eq-ok (new_level d c (ssts_of ((s, x ∷ xs) ∷ ts)) w)
                (λ i. seek_level_to_first d c i w) (made w p) in
            rw (e, add_leveln_sst) (rw (first, next) refl),
        push-Feeds d c P (Source.level it) _ _ heap runs
            (level-Yields d c P it (level_run ((s, x ∷ xs) ∷ ts)) y) f,
      )

  pub add_levels-Feeds :
      (rest : List (List Sst)) (levels : List (List Stored)) (heap : List Source)
      (runs : List (List KvPair))
      → AreLevels d P rest levels
      → All IsRun (map level_run levels)
      → Feeds d c P heap runs
      → (heap' : List Source) × ((w : World) → P w → add_levels d c rest w heap ≡ ok heap')
        × Feeds d c P heap' (place_all (map level_run levels) runs)
  unfolding add_levels place_all
  add_levels-Feeds [] [] heap runs a m f = (heap, λ w p. refl, f)
  add_levels-Feeds [] (ts ∷ levels) heap runs a m f = elim a [ ]
  add_levels-Feeds (ssts ∷ rest) [] heap runs a m f = elim a [ ]
  add_levels-Feeds (ssts ∷ rest) (ts ∷ levels) heap runs a m f =
      let (heap₁, run₁, f₁) = add_leveln_sst-Feeds ssts ts heap runs a.0 a.1 m.0 a.2 f in
      let (heap₂, run₂, f₂) =
        add_levels-Feeds rest levels heap₁ (place (level_run ts) runs) a.3 m.1 f₁ in
      (heap₂, λ w p. rw (run₁ w p) (run₂ w p), f₂)
