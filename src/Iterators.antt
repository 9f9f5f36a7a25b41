-- ===== src/Iterators.antt =====
-- iterators/*.h and iterators/*.cpp: iterators over the pairs of one table, of a level of tables
-- with disjoint key ranges, and of the tables that are marked for compaction. A null `ptr_` is
-- `none`.
pub mod Kv
pub mod Merge
pub mod Runs
pub mod Opened
pub mod Placed
pub mod Level
pub mod Heap
pub mod Merging
use quarkkv_compaction.Base.{
  ℕ, zero, suc, ◌+◌, ◌-◌, ◌*◌, ◌%◌, ◌^◌, Bool, true, false, ◌||◌, Option, none, some, List, [], ◌∷◌,
  Result, ok, err, require, assert_ok, failed, aborted, undefined, diverges, ◌>>=◌, ◌>>◌, ltb, ◌==◌,
  u32, if◌then◌else◌, length, get_elem?, set,
}
use quarkkv_compaction.Std.Text.{Bytes, text_lt, text_eq}
use quarkkv_compaction.Config.{Config}
use quarkkv_compaction.KvPair
use quarkkv_compaction.KvPair.{KvPair}
use quarkkv_compaction.Device.{Device}
use quarkkv_compaction.Sst
use quarkkv_compaction.Sst.{Sst, search_closest}
use quarkkv_compaction.Sst.Read.{get_kv_at_index}

-- KVIterator; an `end` that the constructor could not read is `none`
pub record KvIterator : Type 0 where
  pub sst : Sst
  pub end : Option KvPair
  pub ptr : Option KvPair
  pub index : ℕ
  pub iterations : ℕ

pub record LevelIterator : Type 0 where
  pub iterators : List KvIterator
  pub level : ℕ
  pub ptr : Option KvPair
  pub index : ℕ
  pub iterations : ℕ

-- what the heap of a `CompactionIterator` points to
pub data Source : Type 0 where
  table : KvIterator → Source
  level : LevelIterator → Source

pub record CompactionIterator : Type 0 where
  pub heap : List Source
  pub ptr : Option KvPair
  pub iterations : ℕ

unfoldable pub head : Source → Option KvPair
head (table it) = it.ptr
head (level it) = it.ptr

-- a pointer that is dereferenced
abbrev pub deref {ℓ} : {A : Type ℓ} → Option A → Result A
deref none = err undefined
deref (some a) = ok a

-- The constructor drops the result -1 of the read.
abbrev pub unless_failed {ℓ} : {A : Type ℓ} → Result A → Result (Option A)
unless_failed (ok a) = ok (some a)
unless_failed (err failed) = ok none
unless_failed (err aborted) = err aborted
unless_failed (err undefined) = err undefined
unless_failed (err diverges) = err diverges

-- Iterator::Comparator. Only iterators that are at a pair are put on the heap.
unfoldable pub source_gt : Source → Source → Bool
source_gt a b = elim (head a) [
  | none ↦ false
  | some x ↦ elim (head b) [ none ↦ false | some y ↦ KvPair.gt x y ]
]

-- `std::priority_queue` as the sequence in which its elements come to the top
unfoldable pub push : Source → List Source → List Source
push it [] = it ∷ []
push it (top ∷ rest) = if source_gt top it then it ∷ top ∷ rest else top ∷ push it rest

-- the tables that are marked for compaction
unfoldable pub marked : List Sst → List Sst
marked [] = []
marked (s ∷ ssts) = let rest = marked ssts in if s.marked_for_compaction then s ∷ rest else rest

module _ (d : Device) (c : Config) where
  open d use {World}

  unfoldable pub new_kv : Sst → World → Result KvIterator
  new_kv s w = do
    end ← unless_failed (get_kv_at_index d c (u32 (s.entries + 2 ^ 32 - 1)) s w)
    ok (record { sst = s; end = end; ptr = none; index = 0; iterations = 0 })

  unfoldable pub next_kv : KvIterator → World → Result KvIterator
  next_kv it w = elim it.ptr [
    | none ↦ err aborted
    | some prev ↦ do
      end ← deref it.end
      let index = u32 (it.index + 1)
      let move = (do
        kv ← assert_ok (get_kv_at_index d c index it.sst w)
        require (KvPair.gt kv prev) aborted
        ok (record it { ptr = some kv; index = index; iterations = u32 (it.iterations + 1) }))
      if text_eq prev.key end.key then ok (record it { ptr = none }) else move
  ]

  unfoldable pub seek_kv_to_first : KvIterator → World → Result KvIterator
  seek_kv_to_first it w = do
    require (it.index == 0) aborted
    kv ← get_kv_at_index d c it.index it.sst w
    ok (record it { ptr = some kv; iterations = u32 (it.iterations + 1) })

  seek_inside : Bytes → KvIterator → World → Result KvIterator
  seek_inside key it w = do
    closest ← search_closest c key it.sst
    elim closest [
      | none ↦ ok (record it { ptr = none })
      | some index ↦ do
        kv ← get_kv_at_index d c index it.sst w
        ok (record it { ptr = some kv; index = index })
    ]

  unfoldable pub seek_kv : Bytes → KvIterator → World → Result KvIterator
  unfolding seek_inside
  seek_kv key it w = do
    require (it.index == 0) aborted
    let outside = text_lt key it.sst.smallest_key || text_lt it.sst.largest_key key
    if outside then ok (record it { ptr = none }) else seek_inside key it w

  unfoldable pub new_kvs : List Sst → World → Result (List KvIterator)
  new_kvs [] w = ok []
  new_kvs (s ∷ ssts) w = do it ← new_kv s w; rest ← new_kvs ssts w; ok (it ∷ rest)

  unfoldable pub new_level : List Sst → World → Result LevelIterator
  unfolding new_kvs
  new_level [] w = err aborted
  new_level (s ∷ ssts) w = do
    its ← new_kvs (s ∷ ssts) w
    ok (record { iterators = its; level = s.level; ptr = none; index = 0; iterations = 0 })

  -- `ptr_ = iter->Get()` and what follows it in `Next`
  unfoldable pub take_head : Option KvPair → KvIterator → LevelIterator → Result LevelIterator
  take_head prev iter it = do
    elim iter.ptr [
      | none ↦ ok tt
      | some kv ↦ do old ← deref prev; require (KvPair.gt kv old) aborted
    ]
    ok (record it { ptr = iter.ptr; iterations = u32 (it.iterations + 1) })

  -- the iterator of the next table, when that of a table is exhausted
  unfoldable pub next_table : Option KvPair → LevelIterator → World → Result LevelIterator
  next_table prev it w =
      let index = u32 (it.index + 1) in
      elim (get_elem? it.iterators index) [
        | none ↦ ok (record it { index = index; ptr = none })
        | some iter ↦ do
          iter' ← assert_ok (seek_kv_to_first iter w)
          take_head prev iter'
              (record it { iterators = set it.iterators index iter'; index = index })
      ]

  unfoldable pub next_level : LevelIterator → World → Result LevelIterator
  next_level it w = elim (get_elem? it.iterators it.index) [
    | none ↦ err aborted
    | some iter ↦ do
      iter' ← next_kv iter w
      let it' = record it { iterators = set it.iterators it.index iter' }
      elim iter'.ptr [ none ↦ next_table it.ptr it' w | some _ ↦ take_head it.ptr iter' it' ]
  ]

  unfoldable pub seek_level_to_first : LevelIterator → World → Result LevelIterator
  seek_level_to_first it w = do
    require (it.index == 0) aborted
    iter ← deref (get_elem? it.iterators 0)
    iter' ← seek_kv_to_first iter w
    ok (record it {
      iterators = set it.iterators 0 iter';
      ptr = iter'.ptr;
      iterations = u32 (it.iterations + 1);
    })

  seek_tables : Bytes → List KvIterator → LevelIterator → World → Result LevelIterator
  seek_tables key [] it w = ok it
  seek_tables key (iter ∷ rest) it w = do
    iter' ← seek_kv key iter w
    let it' = record it { iterators = set it.iterators it.index iter' }
    elim iter'.ptr [
      | none ↦ seek_tables key rest (record it' { index = u32 (it.index + 1) }) w
      | some kv ↦ ok (record it' { ptr = some kv })
    ]

  unfoldable pub seek_level : Bytes → LevelIterator → World → Result LevelIterator
  unfolding seek_tables
  seek_level key it w = do require (it.index == 0) aborted; seek_tables key it.iterators it w

  unfoldable pub next_source : Source → World → Result Source
  next_source (table it) w = do it' ← next_kv it w; ok (table it')
  next_source (level it) w = do it' ← next_level it w; ok (level it')

  -- the end of `CompactionIterator::Next`, with the heap as it is by then
  unfoldable pub settle : CompactionIterator → List Source → Result CompactionIterator
  settle it [] = ok (record it { heap = []; ptr = none })
  settle it (top ∷ rest) = do
    kv ← deref (head top)
    prev ← deref it.ptr
    require (KvPair.gt kv prev) aborted
    ok (record it { heap = top ∷ rest; ptr = some kv; iterations = u32 (it.iterations + 1) })

  -- an iterator that is exhausted does not come back
  unfoldable pub push_back : Source → List Source → List Source
  push_back it heap = elim (head it) [ none ↦ heap | some _ ↦ push it heap ]

  unfoldable pub next_compaction : CompactionIterator → World → Result CompactionIterator
  next_compaction it w = elim it.heap [
    | [] ↦ ok (record it { ptr = none })
    | top ∷ rest ↦ do top' ← next_source top w; settle it (push_back top' rest)
  ]

  unfoldable pub seek_compaction_to_first : CompactionIterator → Result CompactionIterator
  seek_compaction_to_first it = elim it.heap [
    | [] ↦ err undefined
    | top ∷ rest ↦ ok (record it { ptr = head top })
  ]

  unfoldable pub add_level0_sst : List Sst → World → List Source → Result (List Source)
  add_level0_sst [] w heap = ok heap
  add_level0_sst (s ∷ ssts) w heap =
      let add = (do
        it ← new_kv s w
        it' ← assert_ok (seek_kv_to_first it w)
        add_level0_sst ssts w (push (table it') heap)) in
      let skip = add_level0_sst ssts w heap in if s.marked_for_compaction then add else skip

  unfoldable pub add_leveln_sst : List Sst → World → List Source → Result (List Source)
  add_leveln_sst ssts w heap = elim (marked ssts) [
    | [] ↦ ok heap
    | s ∷ rest ↦ do
      it ← new_level (s ∷ rest) w
      it' ← assert_ok (seek_level_to_first it w)
      ok (push (level it') heap)
  ]

  unfoldable pub add_levels : List (List Sst) → World → List Source → Result (List Source)
  add_levels [] w heap = ok heap
  add_levels (ssts ∷ levels) w heap = do
    heap' ← add_leveln_sst ssts w heap
    add_levels levels w heap'

  -- the constructor of a `CompactionIterator`
  unfoldable pub new_compaction : List (List Sst) → World → Result CompactionIterator
  unfolding add_levels
  new_compaction levels w = do
    require (length levels == c.n_levels) aborted
    heap ← elim levels [
      | [] ↦ ok []
      | level0 ∷ rest ↦ do heap ← add_level0_sst level0 w []; add_levels rest w heap
    ]
    ok (record { heap = heap; ptr = none; iterations = 0 })
