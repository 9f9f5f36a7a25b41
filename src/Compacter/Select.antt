-- ===== src/Compacter/Select.antt =====
-- core/Compacter.cpp: the choice of the tables, the test of a level, and the loop over the levels.
use quarkkv_compaction.Base.{
  ℕ, zero, suc, ◌+◌, ◌-◌, ◌%◌, Bool, true, false, ◌&&◌, Option, none, some, List, [], ◌∷◌, Result,
  ok, err, require, failed, aborted, undefined, ◌>>=◌, ◌>>◌, ltb, leb, ◌==◌, u32, if◌then◌else◌,
  length, set,
}
use quarkkv_compaction.Std.Text.{Bytes, text_lt}
use quarkkv_compaction.Std.Ordered
use quarkkv_compaction.Config.{Config, all, one, max_size_of_level}
use quarkkv_compaction.Device.{Device}
use quarkkv_compaction.Sst.{Sst, less, set_level, mark_for_compaction, unmark_for_compaction}
use quarkkv_compaction.SstManager
use quarkkv_compaction.Iterators.{new_compaction, seek_compaction_to_first, marked}
use quarkkv_compaction.Compacter.{State, cleared, add_stats, level_at, do_compaction}

unfoldable pub mark_tables : List Sst → Result (List Sst)
mark_tables [] = ok []
mark_tables (s ∷ ssts) = do s' ← mark_for_compaction s; rest ← mark_tables ssts; ok (s' ∷ rest)

-- markLevelForCompaction
unfoldable pub mark_level : ℕ → List (List Sst) → Result (List (List Sst))
mark_level level levels = do
  ssts ← level_at level levels
  ssts' ← mark_tables ssts
  ok (set levels level ssts')

-- the table that `std::advance` leads to
unfoldable pub mark_table : ℕ → List Sst → Result (List Sst)
mark_table i [] = err undefined
mark_table zero (s ∷ ssts) = do s' ← mark_for_compaction s; ok (s' ∷ ssts)
mark_table (suc i) (s ∷ ssts) = do rest ← mark_table i ssts; ok (s ∷ rest)

-- The loop for level 0: the number of the first table with the least time below `oldest`; `i` is
-- the number of the next table.
unfoldable pub oldest_table : ℕ → Option ℕ → ℕ → List Sst → Result (Option ℕ)
oldest_table oldest found i [] = ok found
oldest_table oldest found i (s ∷ ssts) =
    let older = oldest_table s.ts (some i) (suc i) ssts in
    let not_older = oldest_table oldest found (suc i) ssts in
    require s.persisted aborted >> (if ltb s.ts oldest then older else not_older)

-- the first table whose smallest key is not below the largest of the one before fails the test
unfoldable pub verify_tables : Bytes → List Sst → Bool
verify_tables smallest [] = true
verify_tables smallest (s ∷ []) = true
verify_tables smallest (s ∷ next ∷ ssts) =
    text_lt smallest s.largest_key
    && text_lt s.largest_key next.smallest_key
    && verify_tables next.smallest_key (next ∷ ssts)

unfoldable pub verify : ℕ → List (List Sst) → Result Bool
verify level levels = do
  ssts ← level_at level levels
  elim ssts [ [] ↦ err undefined | s ∷ rest ↦ ok (verify_tables s.smallest_key (s ∷ rest)) ]

-- The loop of `initEmptyLevel` over the level above: what it makes of the level, and the tables
-- that it moves.
unfoldable pub move_marked : ℕ → List Sst → List Sst → List Sst → Result (List Sst × List Sst)
move_marked level [] dest moved = ok (dest, moved)
move_marked level (s ∷ ssts) dest moved =
    let move = (do
      s' ← unmark_for_compaction (set_level level s)
      move_marked level ssts (Ordered.insert less s' dest) (Ordered.insert less s' moved)) in
    let leave = move_marked level ssts dest moved in if s.marked_for_compaction then move else leave

unfoldable pub erase_all : List Sst → List Sst → List Sst
erase_all [] level = level
erase_all (s ∷ ssts) level = erase_all ssts (Ordered.erase less s level)

-- initEmptyLevel of the level below `level`
unfoldable pub init_empty_level : ℕ → List (List Sst) → Result (List (List Sst))
init_empty_level level levels = do
  upper ← level_at level levels
  lower ← level_at (level + 1) levels
  require (length lower == 0) aborted
  (lower', moved) ← move_marked (level + 1) upper lower []
  ok (set (set levels (level + 1) lower') level (erase_all moved upper))

unfoldable pub insert_all : List Sst → List Sst → List Sst
insert_all [] into = into
insert_all (s ∷ ssts) into = insert_all ssts (Ordered.insert less s into)

module _ (d : Device) (c : Config) where
  open d use {random}

  -- markUpperLevelForCompaction; `rand` is nonnegative
  unfoldable pub mark_upper_level : ℕ → State d → Result (State d)
  mark_upper_level level st = do
    ssts ← level_at level st.levels
    elim c.cp [
      | all ↦ do levels ← mark_level level st.levels; ok (record st { levels = levels })
      | one ↦
          let some_range = (do
            require (ltb 0 (length ssts)) undefined
            ssts' ← mark_table (d.random st.world % length ssts) ssts
            ok (record st { levels = set st.levels level ssts' })) in
          let oldest = (do
            found ← oldest_table st.manager.clock none 0 ssts
            elim found [
              | none ↦ err aborted
              | some i ↦ do
                ssts' ← mark_table i ssts
                ok (record st {
                  levels = set st.levels level ssts';
                  manager = SstManager.tick st.manager;
                })
            ]) in
          if ltb 0 level then some_range else oldest
    ]

  -- What the loop of `Compact` does behind the marks: the iterator over the levels, the tables of two
  -- levels that are marked, and `doCompaction` with both.
  unfoldable pub compact_marked : ℕ → ℕ → ℕ → State d → Result (State d)
  compact_marked tries fuel level st = do
    ci₀ ← new_compaction d c st.levels st.world
    ci ← seek_compaction_to_first d c ci₀
    upper ← level_at level st.levels
    lower ← level_at (level + 1) st.levels
    do_compaction d c tries fuel ci (insert_all (marked lower) (insert_all (marked upper) []))
        (level + 1) st

  -- One level of the loop of `Compact`, and whether the loop goes on.
  unfoldable pub compact_level : ℕ → ℕ → ℕ → State d → Result (Bool × State d)
  compact_level tries fuel level st = do
    l1 ← level_at level st.levels
    l2 ← level_at (level + 1) st.levels
    size ← max_size_of_level c level
    let move = (do
      st₁ ← mark_upper_level level st
      levels ← init_empty_level level st₁.levels
      ok (false, record st₁ { levels = levels }))
    let merge_levels = (do
      st₁ ← mark_upper_level level st
      levels ← mark_level (level + 1) st₁.levels
      let st₂ = record st₁ { levels = levels }
      st₃ ← compact_marked tries fuel level st₂
      verified ← verify (level + 1) st₃.levels
      require verified failed
      let stats = record st₃.stats { compactions = u32 (st₃.stats.compactions + 1) }
      ok (true, record st₃ { stats = cleared; total = add_stats st₃.total stats }))
    let go_on = if ltb 0 level && (length l2 == 0) then move else merge_levels
    if leb (length l1) size then ok (false, st) else go_on

  -- the loop, with a number of levels left
  unfoldable pub compact_levels : ℕ → ℕ → ℕ → ℕ → State d → Result (State d)
  compact_levels tries fuel zero level st = ok st
  compact_levels tries fuel (suc left) level st = do
    (on, st') ← compact_level tries fuel level st
    let rest = compact_levels tries fuel left (level + 1) st'
    if on then rest else ok st'

  -- Compact
  unfoldable pub compact : ℕ → ℕ → State d → Result (State d)
  compact tries fuel st = do
    require (length st.levels == c.n_levels) aborted
    level0 ← level_at 0 st.levels
    require (ltb 1 (length level0)) aborted
    compact_levels tries fuel (length st.levels - 1) 0 (record st { stats = cleared })
