-- ===== src/Tests/Compactions.antt =====
-- The compaction of one table in a file on the file system in memory.
use quarkkv_compaction.Base.{
  ℕ, ◌≡◌, refl, ◌∙◌, none, some, concat, List, [], ◌∷◌, arith, Returns, length, length-replicate,
  replicate,
}
use quarkkv_compaction.Std.Text.{compare_text}
use quarkkv_compaction.Std.Ordered.{All}
use quarkkv_compaction.KvPair.{KvPair, gt}
use quarkkv_compaction.Sst.{Sst}
use quarkkv_compaction.Sst.Layout.{IsPair, located, IsReadable}
use quarkkv_compaction.Iterators.{KvIterator, CompactionIterator, Source, next_kv, next_compaction}
use quarkkv_compaction.Iterators.Kv.{Yields, locateds, new_kv-Yields}
use quarkkv_compaction.Iterators.Runs.{place, merge_runs}
use quarkkv_compaction.Iterators.Heap.{heap-Yields}
use quarkkv_compaction.Iterators.Level.{table-Yields}
use quarkkv_compaction.Compacter.{State, cleared, do_compaction}
use quarkkv_compaction.Compacter.Removal.{AreRemovable}
use quarkkv_compaction.Compacter.Dedup.{first_of_runs, IsMerged, file_all, drop_all}
use quarkkv_compaction.Compacter.Tables.{IsIntact, IsReady}
use quarkkv_compaction.Compacter.Extends.{Chunk, tables, contents}
use quarkkv_compaction.Compacter.Oldest.{HasOlder}
use quarkkv_compaction.Compacter.Compaction.{Holding, do_compaction-Holding}
use quarkkv_compaction.Tests.Disks.{Disk}
use quarkkv_compaction.Tests.Storage.{storage, reliable, open-Sole, free-disk, taken-disk}
use quarkkv_compaction.Tests.{config, accepted, pair}
use quarkkv_compaction.Tests.Tables.{table, pairs, finished_file, finished_bytes, readable}

abbrev begun : Disk
begun = finished_file 2

abbrev source : Sst
source = table (pairs 2)

abbrev IsSource : ℕ → Type 0
IsSource h = h ≡ 0

abbrev Intact : Disk → Type 0
Intact = IsIntact storage begun IsSource

abbrev before : State storage
before = record {
  levels = (source ∷ []) ∷ [] ∷ [];
  manager = record { ctr = 6; clock = 9 };
  world = begun;
  stats = cleared;
  total = cleared;
}

abbrev one : KvPair
one = located 0 0 (pair 1)

abbrev two : KvPair
two = located 0 1 (pair 2)

-- the table stays readable while its file is as it was
still-IsReadable : (w : Disk) → Intact w → IsReadable storage w source (pairs 2)
still-IsReadable w intact =
    let r = readable 2 (omega arith) in
    record {
      opened = (intact 0 refl).0;
      tail = r.tail;
      bytes = (intact 0 refl).1 ∙ r.bytes;
      index = r.index;
      entries = r.entries;
      pairs = r.pairs;
      ascending = r.ascending;
      smallest = r.smallest;
      largest = r.largest;
      room = r.room;
    }

reading :
    (it : KvIterator) × Yields (next_kv storage (config 2)) (λ i. i.ptr) Intact it (one ∷ two ∷ [])
unfolding locateds
reading =
    let (it, made, yields) =
      new_kv-Yields storage (config 2) (accepted 2) reliable Intact source (pair 1) (pair 2 ∷ [])
        still-IsReadable in
    (it, yields)

in_order : IsMerged (one ∷ two ∷ [])
unfolding gt compare_text
in_order = ((refl, tt), (tt, tt))

-- the iterator with one source, at its first pair
abbrev single : CompactionIterator
single = record { heap = Source.table reading.0 ∷ []; ptr = some one; iterations = 0 }

single-Yields :
    Yields (next_compaction storage (config 2)) (λ i. i.ptr) Intact single (one ∷ two ∷ [])
unfolding merge_runs place concat gt compare_text
single-Yields =
    heap-Yields storage (config 2) Intact 2 (Source.table reading.0 ∷ []) ((one ∷ two ∷ []) ∷ []) 0
      (table-Yields storage (config 2) Intact reading.0 (one ∷ two ∷ []) reading.1, tt)
      (in_order, tt, tt) (tt, tt) refl

well_formed : All IsPair (one ∷ two ∷ [])
well_formed =
    let size : length (replicate {A = ℕ} 55 0) ≡ 55 = length-replicate {0} {A = ℕ} 55 0 in
    (
      record { key = omega (arith, size); value = refl; ts = omega arith },
      (record { key = omega (arith, size); value = refl; ts = omega arith }, tt),
    )

opened : (h : ℕ) → IsSource h → storage.IsOpen begun h
opened h e = open-Sole (5 ∷ []) (λ j. finished_bytes 2) h (omega (arith, e))

-- the identifiers from 6 on are free
ready : IsReady storage begun IsSource before
ready = record {
  intact = λ h e. (opened h e, refl);
  free = λ i low high.
      free-disk (5 ∷ []) (λ j. finished_bytes 2) i ((omega arith, omega (arith, low)), tt) high;
  taken = λ i free. free;
}

removable : AreRemovable storage begun (source ∷ [])
removable = (opened 0 refl, taken-disk 5 [] (λ j. finished_bytes 2), omega arith, tt, tt)

do_compaction-Holding_example :
    Returns (do_compaction storage (config 2) 1 3 single (source ∷ []) 1 before) λ st'.
      (chunks : List Chunk) × Holding storage begun IsSource 1 2 st'.world
        (first_of_runs none (one ∷ two ∷ []))
        chunks
      × All (HasOlder (contents chunks)) (one ∷ two ∷ [])
      × (st'.levels ≡ drop_all (source ∷ []) (file_all 1 (tables chunks) ((source ∷ []) ∷ [] ∷ [])))
do_compaction-Holding_example =
    do_compaction-Holding storage begun IsSource 1 2 (config 2) (accepted 2) reliable 0 3 single
      (source ∷ []) before one (two ∷ []) (ground arith) refl (omega arith) (omega arith)
      single-Yields (omega arith) ready (omega arith) (omega arith) well_formed in_order removable
      ((refl, omega arith), tt) refl (omega arith)
