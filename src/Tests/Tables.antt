-- ===== src/Tests/Tables.antt =====
-- Tables in files on the file system in memory.
use quarkkv_compaction.Base.{
  ℕ, ◌-◌, ◌*◌, ◌^◌, ◌≡◌, ◌≢◌, ◌<◌, refl, sym, subst, true, false, none, some, List, [], ◌∷◌, ◌++◌,
  arith, ok, Returns, length, length-replicate, replicate, ◌>>=◌,
}
use quarkkv_compaction.Std.Text.{Bytes, compare_text}
use quarkkv_compaction.KvPair.{KvPair}
use quarkkv_compaction.Device.{Preserves, SameNames}
use quarkkv_compaction.Sst
use quarkkv_compaction.Sst.{Sst}
use quarkkv_compaction.Sst.Write.{add_kv, persist}
use quarkkv_compaction.Sst.Read.{lookup, get_kv_at_index, parse}
use quarkkv_compaction.Sst.Layout.{
  images, offsets, first, last, located, find_pair, Holds, IsReadable,
}
use quarkkv_compaction.Sst.Building.{add_kv-Holds}
use quarkkv_compaction.Sst.Lookup.{lookup-find_pair, get_kv_at_index-located}
use quarkkv_compaction.Sst.Persisted.{
  index_image, count_image, index_size, IsPersisted, persist-IsPersisted, IsPersisted-IsReadable,
  index_size_fits,
}
use quarkkv_compaction.Sst.Reopened.{parse-IsPersisted}
use quarkkv_compaction.Sst.Partial.{parse-partial}
use quarkkv_compaction.Iterators.{KvIterator, new_kv, next_kv, seek_kv_to_first}
use quarkkv_compaction.Iterators.Kv.{Yields, locateds, new_kv-Yields}
use quarkkv_compaction.Tests.Disks.{Disk}
use quarkkv_compaction.Tests.Storage.{storage, lawful, reliable, disk, open-Sole}
use quarkkv_compaction.Tests.{
  config, key, pair, numbered, pair-IsPair, accepted, key_lt, numbered-IsPair, numbered-IsAscending,
  length-numbered,
}

abbrev pub one_file : Bytes → Disk
one_file b = disk (5 ∷ []) (λ j. b)

abbrev pub table : List KvPair → Sst
table kvs = record {
  handler = 0;
  id = 5;
  smallest_key = first kvs;
  largest_key = last kvs;
  index_table = offsets 0 kvs;
  ts = 9;
  entries = length kvs;
  level = 0;
  persisted = true;
  marked_for_compaction = false;
  index_block_size = none;
  data_block_offset = none;
  index_block_offset = none;
  number_of_entries_offset = none;
}

-- a table of the pairs 1, 2, …, n
abbrev pub pairs : ℕ → List KvPair
pairs n = numbered 1 n

here : (b : Bytes) → storage.IsOpen (one_file b) 0
here b = open-Sole (5 ∷ []) (λ j. b) 0 (omega arith)

building :
    (n : ℕ)
    → n * 4096 < 2 ^ 32
    → Holds storage (one_file (images (pairs n))) (table (pairs n)) (pairs n)
building n h = record {
  bytes = refl;
  index = refl;
  entries = refl;
  pairs = numbered-IsPair 1 n (omega arith);
  ascending = numbered-IsAscending 1 n;
  smallest = refl;
  room = omega (arith, length-numbered 1 n);
}

abbrev pub finished_bytes : ℕ → Bytes
finished_bytes n =
    images (pairs n)
    ++ ((index_image 0 (pairs n) ++ replicate (index_size n - n * 64) 0)
        ++ count_image (length (pairs n)))

abbrev pub finished_file : ℕ → Disk
finished_file n = one_file (finished_bytes n)

finished :
    (n : ℕ) → n * 4096 < 2 ^ 32 → IsPersisted storage (finished_file n) (table (pairs n)) (pairs n)
finished n h =
    let size = length-numbered 1 n in
    let pad : ℕ = index_size n - n * 64 in
    record {
      pad = replicate pad 0;
      blocks = refl;
      padding = rw size (omega (arith, index_size_fits n h, length-replicate {0} {A = ℕ} pad 0));
      index = refl;
      entries = refl;
      pairs = numbered-IsPair 1 n (omega arith);
      ascending = numbered-IsAscending 1 n;
      smallest = refl;
      largest = refl;
      room = omega (arith, size);
      persisted = refl;
    }

pub readable :
    (n : ℕ) → n * 4096 < 2 ^ 32 → IsReadable storage (finished_file n) (table (pairs n)) (pairs n)
readable n h =
    IsPersisted-IsReadable storage (finished_file n) (table (pairs n)) (pairs n) (finished n h)
      (here (finished_bytes n))

add_kv-Holds_example :
    Returns
      (add_kv storage (config 64) (pair 2) (table (pairs 1)) (one_file (images (pairs 1))))
      λ r.
        Holds storage r.1 r.0 (pairs 1 ++ pair 2 ∷ [])
        × (r.0.handler ≡ 0)
        × storage.IsOpen r.1 0
        × Preserves storage 0 (one_file (images (pairs 1))) r.1
        × SameNames storage (one_file (images (pairs 1))) r.1
add_kv-Holds_example =
    add_kv-Holds storage (config 64) (accepted 64) (pair 2) (pairs 1) (table (pairs 1))
      (one_file (images (pairs 1))) reliable (pair-IsPair 2 (omega arith))
      (key_lt 1 2 (omega arith), tt) (omega arith) (building 1 (omega arith))
      (here (images (pairs 1)))

persist-IsPersisted_example :
    Returns (persist storage (config 64) 7 (table (pairs 2)) (one_file (images (pairs 2)))) λ r.
      IsPersisted storage r.1 r.0 (pairs 2)
      × (r.0.handler ≡ 0)
      × (r.0.ts ≡ 7)
      × storage.IsOpen r.1 0
      × Preserves storage 0 (one_file (images (pairs 2))) r.1
      × SameNames storage (one_file (images (pairs 2))) r.1
persist-IsPersisted_example =
    persist-IsPersisted storage (config 64) (accepted 64) 7 (table (pairs 2))
      (one_file (images (pairs 2))) (pair 1) (numbered 2 1) reliable (building 2 (omega arith))
      (here (images (pairs 2)))

parse-IsPersisted_example :
    Returns (parse storage (config 64) (Sst.new 3 0 8) (finished_file 64)) λ r.
      IsPersisted storage (finished_file 64) r (pairs 64)
      × (r.handler ≡ 0)
      × (r.id ≡ 8)
      × (r.ts ≡ 3)
parse-IsPersisted_example =
    parse-IsPersisted storage (config 64) (accepted 64) reliable (table (pairs 64))
      (finished_file 64) (pair 1) (numbered 2 63) 3 8 (finished 64 (omega arith))
      (here (finished_bytes 64)) refl refl

parse-partial_example :
    parse storage (config 2) (Sst.new 3 0 8) (finished_file 1) ≢ ok (table (pairs 1))
parse-partial_example =
    parse-partial storage (config 2) (accepted 2) lawful (table (pairs 1)) (finished_file 1)
      (pairs 1) 3 8 (table (pairs 1)) (finished 1 (omega arith)) (omega arith) (omega arith)

lookup-find_pair_example :
    lookup storage (config 64) (key 2) (table (pairs 3)) (finished_file 3)
    ≡ ok (some (located 0 1 (pair 2)))
unfolding find_pair compare_text replicate
lookup-find_pair_example =
    lookup-find_pair storage (config 64) (accepted 64) reliable (table (pairs 3)) (finished_file 3)
      (pairs 3) (readable 3 (omega arith)) (key 2)

get_kv_at_index-located_example :
    get_kv_at_index storage (config 64) 1 (table (pairs 3)) (finished_file 3)
    ≡ ok (located 0 1 (pair 2))
get_kv_at_index-located_example =
    get_kv_at_index-located storage (config 64) (accepted 64) reliable (table (pairs 3))
      (finished_file 3) (pairs 3) (readable 3 (omega arith)) 1 (pair 2) refl

new_kv-Yields_example :
    (it : KvIterator) × ((w : Disk)
      → (w ≡ finished_file 3)
      → (new_kv storage (config 64) (table (pairs 3)) w >>= λ i.
          seek_kv_to_first storage (config 64) i w)
        ≡ ok it)
    × Yields
        (next_kv storage (config 64))
        (λ i. i.ptr)
        (λ w. w ≡ finished_file 3)
        it
        (locateds 0 0 (pairs 3))
new_kv-Yields_example =
    new_kv-Yields storage (config 64) (accepted 64) reliable (λ w. w ≡ finished_file 3)
      (table (pairs 3)) (pair 1) (numbered 2 2)
      (λ w e.
        subst (λ t. IsReadable storage t (table (pairs 3)) (pairs 3)) (sym e)
          (readable 3 (omega arith)))
