-- ===== src/Tests/Merges.antt =====
-- The compaction of two tables with a key in common, on the storage in storage.
use quarkkv_compaction.Base.{
  ℕ, zero, suc, ◌<◌, ◌≡◌, refl, ◌∙◌, inl, inr, none, true, List, [], ◌∷◌, append-nil, sym, arith,
  Returns, length, length-replicate, replicate, concat, ok, ◌>>=◌,
}
use mathlib.Core.List.{Perm}
use quarkkv_compaction.Std.Text.{compare_text}
use quarkkv_compaction.Std.Ordered
use quarkkv_compaction.Std.Ordered.{All}
use quarkkv_compaction.KvPair
use quarkkv_compaction.KvPair.{KvPair, gt}
use quarkkv_compaction.Sst.{Sst, less}
use quarkkv_compaction.Sst.Layout.{IsPair, images, offsets, first, last}
use quarkkv_compaction.Iterators.{
  CompactionIterator, marked, next_compaction, new_compaction, seek_compaction_to_first,
}
use quarkkv_compaction.Iterators.Kv.{Yields, locateds}
use quarkkv_compaction.Iterators.Runs.{IsRun, AreApart}
use quarkkv_compaction.Iterators.Placed.{merged}
use quarkkv_compaction.Iterators.Opened.{Stored, runs_of, IsStored, AreLevels}
use quarkkv_compaction.Iterators.Merge.{new_compaction-Yields}
use quarkkv_compaction.Compacter.{State, cleared, level_at}
use quarkkv_compaction.Compacter.Dedup.{first_of_runs, file_all, drop_all}
use quarkkv_compaction.Compacter.Oldest.{HasOlder}
use quarkkv_compaction.Compacter.Tables.{IsIntact, IsReady}
use quarkkv_compaction.Compacter.Extends.{Chunk, tables, contents}
use quarkkv_compaction.Compacter.Compaction.{Holding}
use quarkkv_compaction.Compacter.Select.{compact_marked, insert_all}
use quarkkv_compaction.Compacter.Levels.{chosen, compact_marked-Holding}
use quarkkv_compaction.Tests.Disks.{Disk}
use quarkkv_compaction.Tests.Storage.{
  storage, reliable, disk, open-Sole, free-disk, taken-disk, taken-second,
}
use quarkkv_compaction.Std.Text.{Bytes}
use quarkkv_compaction.Compacter.Removal.{AreRemovable}
use quarkkv_compaction.Tests.{config, key, accepted, pair, pair-IsPair, key_lt}

-- a second pair of the key 2, with an earlier time
abbrev older : KvPair
older = KvPair.new (key 2) 1 4040

older-IsPair : IsPair older
older-IsPair = record {
  key = omega (arith, length-replicate {0} {A = ℕ} 55 0);
  value = refl;
  ts = omega arith;
}

abbrev upper_pairs : List KvPair
upper_pairs = pair 1 ∷ pair 2 ∷ []

abbrev lower_pairs : List KvPair
lower_pairs = older ∷ []

abbrev contents_of : ℕ → Bytes
contents_of h = elim h [ zero ↦ images upper_pairs | suc i ↦ images lower_pairs ]

abbrev begun : Disk
begun = disk (0 ∷ 1 ∷ []) contents_of

abbrev table : ℕ → List KvPair → Sst
table h kvs = record {
  handler = h;
  id = h;
  smallest_key = first kvs;
  largest_key = last kvs;
  index_table = offsets 0 kvs;
  ts = 9;
  entries = length kvs;
  level = h;
  persisted = true;
  marked_for_compaction = true;
  index_block_size = none;
  data_block_offset = none;
  index_block_offset = none;
  number_of_entries_offset = none;
}

abbrev upper : Stored
upper = (table 0 upper_pairs, upper_pairs)

abbrev lower : Stored
lower = (table 1 lower_pairs, lower_pairs)

abbrev IsSource : ℕ → Type 0
IsSource h = h < 2

abbrev Intact : Disk → Type 0
Intact = IsIntact storage begun IsSource

upper-IsStored : IsStored storage Intact upper
upper-IsStored = record {
  some_pair = omega arith;
  readable = λ w intact. record {
    opened = (intact 0 (omega arith)).0;
    tail = [];
    bytes = (intact 0 (omega arith)).1 ∙ sym (append-nil (images upper_pairs));
    index = refl;
    entries = refl;
    pairs = (pair-IsPair 1 (omega arith), (pair-IsPair 2 (omega arith), tt));
    ascending = ((key_lt 1 2 (omega arith), tt), (tt, tt));
    smallest = refl;
    largest = refl;
    room = omega arith;
  };
}

lower-IsStored : IsStored storage Intact lower
lower-IsStored = record {
  some_pair = omega arith;
  readable = λ w intact. record {
    opened = (intact 1 (omega arith)).0;
    tail = [];
    bytes = (intact 1 (omega arith)).1 ∙ sym (append-nil (images lower_pairs));
    index = refl;
    entries = refl;
    pairs = (older-IsPair, tt);
    ascending = (tt, tt);
    smallest = refl;
    largest = refl;
    room = omega arith;
  };
}

-- the other levels are empty
abbrev none_stored : List (List Stored)
none_stored = [] ∷ [] ∷ [] ∷ [] ∷ [] ∷ []

abbrev below : List (List Sst)
below = (lower.0 ∷ []) ∷ [] ∷ [] ∷ [] ∷ [] ∷ [] ∷ []

abbrev before : State storage
before = record {
  levels = (upper.0 ∷ []) ∷ below;
  manager = record { ctr = 6; clock = 9 };
  world = begun;
  stats = cleared;
  total = cleared;
}

abbrev stored : List (List Stored)
stored = (lower ∷ []) ∷ none_stored

abbrev runs : List (List KvPair)
runs = runs_of (upper ∷ []) stored

in_order : All IsRun runs
unfolding gt compare_text locateds concat
in_order = (((refl, tt), (tt, tt)), ((tt, tt), (tt, (tt, (tt, (tt, (tt, tt)))))))

apart : AreApart runs
unfolding gt compare_text locateds concat replicate
apart = (
  (
    ((inr refl, tt), ((inl refl, tt), tt)),
    ((tt, (tt, tt)), ((tt, (tt, tt)), ((tt, (tt, tt)), ((tt, (tt, tt)), ((tt, (tt, tt)), tt))))),
  ),
  (
    ((tt, tt), ((tt, tt), ((tt, tt), ((tt, tt), ((tt, tt), tt))))),
    ((tt, (tt, (tt, (tt, tt)))), ((tt, (tt, (tt, tt))), ((tt, (tt, tt)), ((tt, tt), (tt, tt))))),
  ),
)

levels_marked : AreLevels storage Intact below stored
unfolding marked
levels_marked = (
  refl,
  (lower-IsStored, tt),
  omega arith,
  (
    refl,
    tt,
    omega arith,
    (
      refl,
      tt,
      omega arith,
      (refl, tt, omega arith, (refl, tt, omega arith, (refl, tt, omega arith, tt))),
    ),
  ),
)

size : length (concat runs) ≡ 3
unfolding concat locateds
size = refl

new_compaction-Yields_example :
    (ci : CompactionIterator) × ((w : Disk)
      → Intact w
      → (new_compaction storage (config 2) before.levels w >>= λ i.
          seek_compaction_to_first storage (config 2) i)
        ≡ ok ci)
    × Yields (next_compaction storage (config 2)) (λ i. i.ptr) Intact ci (merged runs)
    × IsRun (merged runs)
    × Perm (merged runs) (concat runs)
unfolding marked
new_compaction-Yields_example =
    new_compaction-Yields storage (config 2) (accepted 2) reliable Intact (upper.0 ∷ []) below
      (upper ∷ []) stored refl refl (upper-IsStored, tt) levels_marked in_order apart
      (omega (arith, size))

ready : IsReady storage begun IsSource before
ready = record {
  intact = λ h q. (open-Sole (0 ∷ 1 ∷ []) contents_of h q, refl);
  free = λ i low high.
      free-disk (0 ∷ 1 ∷ []) contents_of i
        ((omega arith, omega (arith, low)), ((omega arith, omega (arith, low)), tt)) high;
  taken = λ i free. free;
}

removable : AreRemovable storage begun (upper.0 ∷ lower.0 ∷ [])
removable = (
  open-Sole (0 ∷ 1 ∷ []) contents_of 0 (omega arith),
  taken-disk 0 (1 ∷ []) contents_of,
  omega arith,
  ((omega arith, omega arith), tt),
  (
    open-Sole (0 ∷ 1 ∷ []) contents_of 1 (omega arith),
    taken-second 0 1 contents_of,
    omega arith,
    tt,
    tt,
  ),
)

compact_marked-Holding_example : Returns (compact_marked storage (config 2) 1 4 0 before) λ st'.
    (chunks : List Chunk) × Holding storage begun IsSource 1 2 st'.world
      (first_of_runs none (merged runs))
      chunks
    × All (All (HasOlder (contents chunks))) runs
    × (st'.levels
        ≡ drop_all
            (chosen (upper.0 ∷ []) (lower.0 ∷ []))
            (file_all 1 (tables chunks) before.levels))
unfolding marked insert_all less compare_text level_at replicate Ordered.insert
compact_marked-Holding_example =
    compact_marked-Holding storage begun IsSource 0 2 (config 2) (accepted 2) reliable 0 4 before
      (upper.0 ∷ []) (upper.0 ∷ []) (lower.0 ∷ []) below (upper ∷ []) stored (ground arith) refl
      (omega arith) (omega arith) refl refl refl refl refl (upper-IsStored, tt) levels_marked
      in_order apart (omega (arith, size)) (omega (arith, size)) ready (omega arith)
      (omega (arith, size)) removable ((omega arith, omega arith), ((omega arith, omega arith), tt))
      refl (omega (arith, size))
