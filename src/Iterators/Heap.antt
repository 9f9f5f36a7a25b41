-- ===== src/Iterators/Heap.antt =====
-- A `CompactionIterator` over any number of tables and levels gives the merge of what they give.
use quarkkv_compaction.Base.{
  ℕ, zero, suc, ◌+◌, ◌≡◌, refl, inl, inr, true, Option, none, some, List, [], ◌∷◌, arith, length,
  length-append, concat, ok, u32, Bool-cases,
}
use quarkkv_compaction.Std.Ordered.{All}
use quarkkv_compaction.Config.{Config}
use quarkkv_compaction.KvPair.{KvPair, gt}
use quarkkv_compaction.Device.{Device}
use quarkkv_compaction.Iterators.{
  Source, CompactionIterator, head, next_source, push_back, push, settle, source_gt,
  next_compaction,
}
use quarkkv_compaction.Iterators.Kv.{Yields}
use quarkkv_compaction.Iterators.Runs.{AreApart, IsHeap, place, merge_runs}
use quarkkv_compaction.Iterators.Merging.{rest-IsHeap, length-place, All-place_rest}

-- what `Get` gives at the front of a heap
abbrev pub front : List (List KvPair) → Option KvPair
front [] = none
front ([] ∷ runs) = none
front ((x ∷ xs) ∷ runs) = some x

module _ (d : Device) (c : Config) (P : d.World → Type 0) where
  abbrev pub SourceYields : Source → List KvPair → Type 0
  SourceYields = Yields (next_source d c) head P

  -- each iterator on the heap gives the pairs of the run in its place
  abbrev pub Feeds : List Source → List (List KvPair) → Type 0
  Feeds [] [] = Unit
  Feeds [] (run ∷ runs) = ⊥
  Feeds (s ∷ heap) [] = ⊥
  Feeds (s ∷ heap) ([] ∷ runs) = ⊥
  Feeds (s ∷ heap) ((x ∷ xs) ∷ runs) = SourceYields s (x ∷ xs) × Feeds heap runs

  source_gt-eq :
      (a b : Source) (x y : KvPair) → head a ≡ some x → head b ≡ some y → source_gt a b ≡ gt x y
  unfolding source_gt
  source_gt-eq a b x y p q = rw (p, q, source_gt) refl

  pub push-Feeds :
      (s : Source) (x : KvPair) (xs : List KvPair) (heap : List Source) (runs : List (List KvPair))
      → SourceYields s (x ∷ xs)
      → Feeds heap runs
      → Feeds (push s heap) (place (x ∷ xs) runs)
  unfolding push place
  push-Feeds s x xs [] [] y f = (y, tt)
  push-Feeds s x xs [] (run ∷ runs) y f = elim f [ ]
  push-Feeds s x xs (t ∷ heap) [] y f = elim f [ ]
  push-Feeds s x xs (t ∷ heap) ([] ∷ runs) y f = elim f [ ]
  push-Feeds s x xs (t ∷ heap) ((z ∷ zs) ∷ runs) y f =
      let e = source_gt-eq t s z x f.0.0 y.0 in
      elim (Bool-cases (gt z x)) [
        | inl above ↦ rw (e, above) (y, f)
        | inr below ↦ rw (e, below) (f.0, push-Feeds s x xs heap runs y f.1)
      ]

  pub push_back-Feeds :
      (s : Source) (xs : List KvPair) (heap : List Source) (runs : List (List KvPair))
      → SourceYields s xs
      → Feeds heap runs
      → Feeds (push_back d c s heap) (place xs runs)
  unfolding push_back place
  push_back-Feeds s [] heap runs y f = rw (y, push_back) f
  push_back-Feeds s (x ∷ xs) heap runs y f = rw (y.0, push_back) (push-Feeds s x xs heap runs y f)

  abbrev at : List Source → List (List KvPair) → ℕ → CompactionIterator
  at heap runs n = record { heap = heap; ptr = front runs; iterations = n }

  -- `settle` goes on with the front of the heap, above the pair before.
  settled :
      (m : ℕ) (old heap : List Source) (runs : List (List KvPair)) (x : KvPair) (k : ℕ)
      → Feeds heap runs
      → IsHeap runs
      → All (All (λ y. gt y x ≡ true)) runs
      → ((k' : ℕ)
          → Yields (next_compaction d c) (λ i. i.ptr) P (at heap runs k') (merge_runs m runs))
      → (ci : CompactionIterator) × (settle d c
            (record { heap = old; ptr = some x; iterations = k })
            heap
          ≡ ok ci)
        × Yields (next_compaction d c) (λ i. i.ptr) P ci (merge_runs m runs)
  unfolding settle
  settled m old [] [] x k f h above more = (at [] [] k, refl, more k)
  settled m old [] (run ∷ runs) x k f h above more = elim f [ ]
  settled m old (s ∷ heap) [] x k f h above more = elim f [ ]
  settled m old (s ∷ heap) ([] ∷ runs) x k f h above more = elim f [ ]
  settled m old (s ∷ heap) ((y ∷ ys) ∷ runs) x k f h above more = (
    at (s ∷ heap) ((y ∷ ys) ∷ runs) (u32 (k + 1)),
    rw (f.0.0, above.0.0) refl,
    more (u32 (k + 1)),
  )

  -- A heap of iterators gives the merge of their runs.
  pub heap-Yields :
      (n : ℕ) (heap : List Source) (runs : List (List KvPair)) (k : ℕ)
      → Feeds heap runs
      → IsHeap runs
      → AreApart runs
      → n ≡ length (concat runs)
      → Yields (next_compaction d c) (λ i. i.ptr) P (at heap runs k) (merge_runs n runs)
  unfolding merge_runs next_compaction concat
  heap-Yields zero heap [] k f h a e = refl
  heap-Yields n heap ([] ∷ runs) k f h a e = elim h [ ]
  heap-Yields zero heap ((x ∷ xs) ∷ runs) k f h a e = absurd (omega arith)
  heap-Yields (suc n) heap [] k f h a e = absurd (omega arith)
  heap-Yields (suc n) [] ((x ∷ xs) ∷ runs) k f h a e = elim f [ ]
  heap-Yields (suc n) (s ∷ heap) ((x ∷ xs) ∷ runs) k f h a e =
      let (s', step, rest) = f.0.1 in
      let next = rest-IsHeap x xs runs h a in
      let feeds = push_back-Feeds s' xs heap runs rest f.1 in
      let (ci, run, more) =
        settled n (s ∷ heap) (push_back d c s' heap) (place xs runs) x k feeds next.0
          (All-place_rest (λ y. gt y x ≡ true) xs runs h.0.0 h.1)
          (λ k'.
            heap-Yields n (push_back d c s' heap) (place xs runs) k' feeds next.0 next.1
              (omega (arith, length-place xs runs, length-append xs (concat runs)))) in
      (refl, (ci, λ w p. rw (step w p) run, more))
