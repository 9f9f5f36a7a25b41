-- ===== src/Iterators/Level.antt =====
-- A `LevelIterator` gives the pairs of its tables, one table behind the other.
use quarkkv_compaction.Base.{
  ℕ, suc, ◌+◌, ◌<◌, ◌^◌, ◌≡◌, refl, subst, true, none, some, List, [], ◌∷◌, ◌++◌, append_assoc,
  arith, length, length-append, concat, get_elem?, set, get_elem?-append_right, get_elem?-none,
  set-append_right, ok, u32,
}
use quarkkv_compaction.Config.{Config}
use quarkkv_compaction.KvPair.{KvPair, gt}
use quarkkv_compaction.Device.{Device}
use quarkkv_compaction.Iterators.{
  KvIterator, LevelIterator, Source, head, next_kv, next_level, next_table, next_source, take_head,
  seek_kv_to_first,
}
use quarkkv_compaction.Iterators.Kv.{Yields, Starts}
use quarkkv_compaction.Iterators.Runs.{IsRun}
use quarkkv_compaction.Iterators.Heap.{SourceYields}

module _ (d : Device) (c : Config) (P : d.World → Type 0) where
  open d use {World}

  abbrev KvYields : KvIterator → List KvPair → Type 0
  KvYields = Yields (next_kv d c) (λ it. it.ptr) P

  abbrev pub LevelYields : LevelIterator → List KvPair → Type 0
  LevelYields = Yields (next_level d c) (λ it. it.ptr) P

  -- On the heap an iterator gives what it gives by itself.
  pub table-Yields :
      (it : KvIterator) (kvs : List KvPair)
      → KvYields it kvs
      → SourceYields d c P (Source.table it) kvs
  unfolding head next_source
  table-Yields it [] y = y
  table-Yields it (x ∷ xs) (at, (it', step, rest)) =
      (at, (Source.table it', λ w p. rw (step w p) refl, table-Yields it' xs rest))

  pub level-Yields :
      (it : LevelIterator) (kvs : List KvPair)
      → LevelYields it kvs
      → SourceYields d c P (Source.level it) kvs
  unfolding head next_source
  level-Yields it [] y = y
  level-Yields it (x ∷ xs) (at, (it', step, rest)) =
      (at, (Source.level it', λ w p. rw (step w p) refl, level-Yields it' xs rest))

  -- each iterator gives the pairs of the run in its place, once it has sought its first pair
  abbrev pub Waiting : List KvIterator → List (List KvPair) → Type 0
  Waiting [] [] = Unit
  Waiting [] (run ∷ runs) = ⊥
  Waiting (it ∷ its) [] = ⊥
  Waiting (it ∷ its) ([] ∷ runs) = ⊥
  Waiting (it ∷ its) ((x ∷ xs) ∷ runs) = Starts d c P it (x ∷ xs) × Waiting its runs

  abbrev at : List KvIterator → KvPair → ℕ → ℕ → ℕ → LevelIterator
  at its x l i t = record { iterators = its; level = l; ptr = some x; index = i; iterations = t }

  -- `Next` inside a table
  next_inside :
      (pre its : List KvIterator) (cur cur' : KvIterator) (x y : KvPair) (l i t : ℕ) (w : World)
      → i ≡ length pre
      → next_kv d c cur w ≡ ok cur'
      → cur'.ptr ≡ some y
      → gt y x ≡ true
      → next_level d c (at (pre ++ cur ∷ its) x l i t) w
        ≡ ok (at (pre ++ cur' ∷ its) y l i (u32 (t + 1)))
  unfolding next_level take_head
  next_inside pre its cur cur' x y l i t w e step found above =
      ground (arith, get_elem?-append_right pre its cur i e, set-append_right pre its cur cur' i e)

  -- `Next` behind the last pair of the last table
  next_end :
      (pre : List KvIterator) (cur cur' : KvIterator) (x : KvPair) (l i t : ℕ) (w : World)
      → i ≡ length pre
      → length pre + 1 < 2 ^ 32
      → next_kv d c cur w ≡ ok cur'
      → cur'.ptr ≡ none
      → next_level d c (at (pre ++ cur ∷ []) x l i t) w
        ≡ ok (record {
          iterators = pre ++ cur' ∷ [];
          level = l;
          ptr = none;
          index = u32 (i + 1);
          iterations = t;
        })
  unfolding next_level next_table
  next_end pre cur cur' x l i t w e room step end =
      let beyond : get_elem? (pre ++ cur' ∷ []) (u32 (i + 1)) ≡ none =
        get_elem?-none (pre ++ cur' ∷ []) (u32 (i + 1))
          (omega (arith, length-append pre (cur' ∷ []))) in
      ground (arith, get_elem?-append_right pre [] cur i e, set-append_right pre [] cur cur' i e)

  -- `Next` behind the last pair of a table before another
  next_over :
      (pre its : List KvIterator) (cur cur' it it' : KvIterator) (x y : KvPair) (l i t : ℕ)
      (w : World)
      → i ≡ length pre
      → length pre + 1 < 2 ^ 32
      → next_kv d c cur w ≡ ok cur'
      → cur'.ptr ≡ none
      → seek_kv_to_first d c it w ≡ ok it'
      → it'.ptr ≡ some y
      → gt y x ≡ true
      → next_level d c (at (pre ++ cur ∷ it ∷ its) x l i t) w
        ≡ ok (at ((pre ++ cur' ∷ []) ++ it' ∷ its) y l (u32 (i + 1)) (u32 (t + 1)))
  unfolding next_level next_table take_head
  next_over pre its cur cur' it it' x y l i t w e room step end sought found above =
      let i' : u32 (i + 1) ≡ length (pre ++ cur' ∷ []) =
        omega (arith, length-append pre (cur' ∷ [])) in
      let there : get_elem? (pre ++ cur' ∷ it ∷ its) (u32 (i + 1)) ≡ some it =
        subst (λ l. get_elem? l (u32 (i + 1)) ≡ some it) (append_assoc pre (cur' ∷ []) (it ∷ its))
          (get_elem?-append_right (pre ++ cur' ∷ []) its it (u32 (i + 1)) i') in
      let put : set (pre ++ cur' ∷ it ∷ its) (u32 (i + 1)) it' ≡ (pre ++ cur' ∷ []) ++ it' ∷ its =
        subst (λ l. set l (u32 (i + 1)) it' ≡ (pre ++ cur' ∷ []) ++ it' ∷ its)
          (append_assoc pre (cur' ∷ []) (it ∷ its))
          (set-append_right (pre ++ cur' ∷ []) its it it' (u32 (i + 1)) i') in
      ground (
        arith,
        get_elem?-append_right pre (it ∷ its) cur i e,
        set-append_right pre (it ∷ its) cur cur' i e,
      )

  -- The pairs of the table that the iterator is in are followed by those of the later tables.
  pub level_from :
      (runs : List (List KvPair)) (xs : List KvPair) (pre its : List KvIterator) (cur : KvIterator)
      (x : KvPair) (l i t : ℕ)
      → KvYields cur (x ∷ xs)
      → Waiting its runs
      → IsRun (x ∷ (xs ++ concat runs))
      → i ≡ length pre
      → length pre + suc (length its) < 2 ^ 32
      → LevelYields (at (pre ++ cur ∷ its) x l i t) (x ∷ (xs ++ concat runs))
  unfolding concat
  level_from runs (y ∷ ys) pre its cur x l i t (e, (cur', step, rest)) f m e' room = (
    refl,
    (
      at (pre ++ cur' ∷ its) y l i (u32 (t + 1)),
      λ w p. next_inside pre its cur cur' x y l i t w e' (step w p) rest.0 m.0.0,
      level_from runs ys pre its cur' y l i (u32 (t + 1)) rest f m.1 e' room,
    ),
  )
  level_from [] [] pre [] cur x l i t (e, (cur', step, rest)) f m e' room = (
    refl,
    (
      record {
        iterators = pre ++ cur' ∷ [];
        level = l;
        ptr = none;
        index = u32 (i + 1);
        iterations = t;
      },
      λ w p. next_end pre cur cur' x l i t w e' (omega arith) (step w p) rest,
      refl,
    ),
  )
  level_from [] [] pre (it ∷ its) cur x l i t y f m e' room = elim f [ ]
  level_from (run ∷ runs) [] pre [] cur x l i t y f m e' room = elim f [ ]
  level_from ([] ∷ runs) [] pre (it ∷ its) cur x l i t y f m e' room = elim f [ ]
  level_from ((y ∷ ys) ∷ runs) [] pre (it ∷ its) cur x l i t (e, (cur', step, rest)) f m e' room =
      let (it', sought, yields) = f.0 in
      (
        refl,
        (
          at ((pre ++ cur' ∷ []) ++ it' ∷ its) y l (u32 (i + 1)) (u32 (t + 1)),
          λ w p.
              next_over pre its cur cur' it it' x y l i t w e' (omega arith) (step w p) rest
                (sought w p) yields.0 m.0.0,
          level_from runs ys (pre ++ cur' ∷ []) its it' y l (u32 (i + 1)) (u32 (t + 1)) yields f.1
              m.1 (omega (arith, length-append pre (cur' ∷ [])))
              (omega (arith, length-append pre (cur' ∷ []))),
        ),
      )
