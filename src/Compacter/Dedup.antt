-- ===== src/Compacter/Dedup.antt =====
-- Which pairs a compaction keeps, stated apart from the code.
use quarkkv_compaction.Base.{
  subst, sym, length-append, ℕ, zero, suc, ◌<◌, ◌≤◌, ◌≡◌, refl, ◌∙◌, ◌++◌, ltb, ap, true, false,
  Option, none, some, List, [], ◌∷◌, arith, if◌then◌else◌, length,
}
use quarkkv_compaction.Std.Text.{
  Bytes, text_lt, text_eq, compare_refl, eq_of_compare, lt_of_gt, gt_of_lt, compare_trans,
  compare_cases, text_eq→eq,
}
use quarkkv_compaction.Std.Ordered.{All, All-map, IsSorted}
use quarkkv_compaction.Std.Ordered
use quarkkv_compaction.KvPair.{KvPair, gt}
use quarkkv_compaction.Sst
use quarkkv_compaction.Sst.{Sst}
use quarkkv_compaction.Compacter.{same_key, ts_before}

-- of each run of pairs with one key the first; `prev` is the pair before the list
unfoldable pub first_of_runs : Option KvPair → List KvPair → List KvPair
first_of_runs prev [] = []
first_of_runs prev (kv ∷ kvs) =
    let rest = first_of_runs (some kv) kvs in if same_key prev kv then rest else kv ∷ rest

-- in the order that `operator>` gives, above the pair before
abbrev pub IsMerged : List KvPair → Type 0
IsMerged kvs = IsSorted (λ a b. gt b a) kvs

abbrev pub IsAfter : Option KvPair → List KvPair → Type 0
IsAfter none kvs = Unit
IsAfter (some prev) kvs = All (λ kv. gt kv prev ≡ true) kvs

-- the levels with a table added to one of them
unfoldable pub file_in : ℕ → Sst → List (List Sst) → List (List Sst)
file_in level s [] = []
file_in zero s (ssts ∷ levels) = Ordered.insert Sst.less s ssts ∷ levels
file_in (suc level) s (ssts ∷ levels) = ssts ∷ file_in level s levels

unfoldable pub file_all : ℕ → List Sst → List (List Sst) → List (List Sst)
file_all level [] levels = levels
file_all level (s ∷ ssts) levels = file_all level ssts (file_in level s levels)

pub file_all-append :
    (level : ℕ) (xs ys : List Sst) (levels : List (List Sst))
    → file_all level (xs ++ ys) levels ≡ file_all level ys (file_all level xs levels)
unfolding file_all
file_all-append level [] ys levels = refl
file_all-append level (x ∷ xs) ys levels = file_all-append level xs ys (file_in level x levels)

pub length-file_in :
    (level : ℕ) (s : Sst) (levels : List (List Sst))
    → length (file_in level s levels) ≡ length levels
unfolding file_in
length-file_in level s [] = refl
length-file_in zero s (ssts ∷ levels) = refl
length-file_in (suc level) s (ssts ∷ levels) = ap suc (length-file_in level s levels)

pub length-file_all :
    (level : ℕ) (ssts : List Sst) (levels : List (List Sst))
    → length (file_all level ssts levels) ≡ length levels
unfolding file_all
length-file_all level [] levels = refl
length-file_all level (s ∷ ssts) levels =
    length-file_all level ssts (file_in level s levels) ∙ length-file_in level s levels

above_one :
    (prev kv x : KvPair)
    → gt kv prev ≡ true
    → text_eq prev.key kv.key ≡ false
    → text_lt prev.key x.key ≡ false
    → text_lt x.key kv.key ≡ true
unfolding gt
above_one prev kv x after other under = ground (
  arith,
  lt_of_gt kv.key prev.key,
  lt_of_gt prev.key x.key,
  eq_of_compare prev.key x.key,
  compare_refl prev.key,
  eq_of_compare kv.key prev.key,
  compare_trans x.key prev.key kv.key,
  compare_cases prev.key x.key,
)

-- A pair that comes after another in the merge and has another key is above the keys that are not
-- above that one.
pub above_run :
    (prev kv : KvPair) (kvs : List KvPair)
    → gt kv prev ≡ true
    → text_eq prev.key kv.key ≡ false
    → All (λ x. text_lt prev.key x.key ≡ false) kvs
    → All (λ x. text_lt x.key kv.key ≡ true) kvs
above_run prev kv kvs after other below =
    All-map _ _ kvs (λ x under. above_one prev kv x after other under) below

-- Of two pairs in the merge with one key the later has the later time.
pub later_of_run :
    (prev kv : KvPair)
    → gt kv prev ≡ true
    → text_eq prev.key kv.key ≡ true
    → ltb prev.ts kv.ts ≡ true
unfolding gt
later_of_run prev kv after same = ground (arith, eq_of_compare prev.key kv.key, compare_refl kv.key)

-- what is known of the table under construction: nothing has been merged, or it has a pair and no
-- key above that of the pair before
abbrev pub IsBelow : Option KvPair → List KvPair → Type 0
IsBelow none cur = cur ≡ []
IsBelow (some prev) cur = (0 < length cur) × All (λ x. text_lt prev.key x.key ≡ false) cur

not_below : (a b : Bytes) → text_lt a b ≡ true → text_lt b a ≡ false
not_below a b h = ground (arith, lt_of_gt b a, gt_of_lt a b)

pub IsBelow-snoc :
    (kv : KvPair) (kvs : List KvPair)
    → All (λ x. text_lt x.key kv.key ≡ true) kvs
    → IsBelow (some kv) (kvs ++ kv ∷ [])
IsBelow-snoc kv kvs above = (omega (arith, length-append kvs (kv ∷ [])), not_above kv kvs above)
  where
    not_above :
        (kv : KvPair) (kvs : List KvPair)
        → All (λ x. text_lt x.key kv.key ≡ true) kvs
        → All (λ x. text_lt kv.key x.key ≡ false) (kvs ++ kv ∷ [])
    not_above kv [] above = (ground (arith, compare_refl kv.key), tt)
    not_above kv (x ∷ xs) above = (not_below x.key kv.key above.0, not_above kv xs above.1)

-- A pair that is passed over has the key of the pair before.
pub IsBelow-same :
    (prev kv : KvPair) (cur : List KvPair)
    → text_eq prev.key kv.key ≡ true
    → IsBelow (some prev) cur
    → IsBelow (some kv) cur
IsBelow-same prev kv cur same below =
    subst (λ k. (0 < length cur) × All (λ x. text_lt k x.key ≡ false) cur)
      (text_eq→eq prev.key kv.key same) below

-- A pair that is passed over is later than the one before.
pub passed_over :
    (prev : Option KvPair) (kv : KvPair) (kvs cur : List KvPair)
    → same_key prev kv ≡ true
    → IsAfter prev (kv ∷ kvs)
    → IsBelow prev cur
    → (ts_before prev kv ≡ true) × IsBelow (some kv) cur
passed_over none kv kvs cur same after below = ground arith
passed_over (some prev) kv kvs cur same after below =
    (later_of_run prev kv after.0 same, IsBelow-same prev kv cur same below)

-- A pair with another key than the one before is above the table under construction.
pub above_prev :
    (prev : Option KvPair) (kv : KvPair) (kvs cur : List KvPair)
    → same_key prev kv ≡ false
    → IsAfter prev (kv ∷ kvs)
    → IsBelow prev cur
    → All (λ x. text_lt x.key kv.key ≡ true) cur
above_prev none kv kvs cur other after below =
    subst (All (λ x. text_lt x.key kv.key ≡ true)) (sym below) tt
above_prev (some prev) kv kvs cur other after below = above_run prev kv cur after.0 other below.1

-- the levels with a table taken out of one of them
unfoldable pub drop_from : ℕ → Sst → List (List Sst) → List (List Sst)
drop_from level s [] = []
drop_from zero s (ssts ∷ levels) = Ordered.erase Sst.less s ssts ∷ levels
drop_from (suc level) s (ssts ∷ levels) = ssts ∷ drop_from level s levels

-- every table out of the level that it says it is on
unfoldable pub drop_all : List Sst → List (List Sst) → List (List Sst)
drop_all [] levels = levels
drop_all (s ∷ ssts) levels = drop_all ssts (drop_from s.level s levels)

pub length-drop_from :
    (level : ℕ) (s : Sst) (levels : List (List Sst))
    → length (drop_from level s levels) ≡ length levels
unfolding drop_from
length-drop_from level s [] = refl
length-drop_from zero s (ssts ∷ levels) = refl
length-drop_from (suc level) s (ssts ∷ levels) = ap suc (length-drop_from level s levels)

pub length-first_of_runs :
    (prev : Option KvPair) (kvs : List KvPair) → length (first_of_runs prev kvs) ≤ length kvs
unfolding first_of_runs
length-first_of_runs prev [] = omega arith
length-first_of_runs prev (kv ∷ kvs) = ground (arith, length-first_of_runs (some kv) kvs)
