-- ===== src/Db/Mirrored.antt =====
-- The manifest of a database and its tables in memory, over `Put`, `flush` and `compact`.
use mathlib.Core.List.{Perm, perm_append_comm}
use mathlib.Core.List.Perm
use quarkkv_compaction.Base.{
  Ordering, ℕ, ◌<◌, ◌≤◌, ◌≡◌, ◌≢◌, sym, subst, inl, inr, false, Bool-cases, List, [], ◌∷◌, ◌++◌,
  map, arith, ok, replicate, set, zero, suc,
}
use quarkkv_compaction.Std.Text.{
  Bytes, compare_text, compare_cases, lt_of_gt, compare_refl, eq_of_compare,
}
use quarkkv_compaction.Std.Ordered
use quarkkv_compaction.Std.Ordered.{All, All-map, insert_here, insert_past, insert_kept}
use quarkkv_compaction.Sst.{Sst, less}
use quarkkv_compaction.Manifest
use quarkkv_compaction.Manifest.{Levels, add_to_level}
use quarkkv_compaction.Compacter.{level_at}
use quarkkv_compaction.Compacter.Numbered.{AreBelow}

-- The manifest lists, level by level and in whatever order, the identifiers of the tables.
pub data Mirrors : List (List Sst) → Levels → Type 0 where
  nil : Mirrors [] []
  listed :
      {ssts : List Sst} {ids : List ℕ} {levels : List (List Sst)} {files : Levels}
      → Perm (map (λ s. s.id) ssts) ids
      → Mirrors levels files
      → Mirrors (ssts ∷ levels) (ids ∷ files)

equivalent-id : (a b : Sst) → less a b ≡ false → less b a ≡ false → a.id ≡ b.id
unfolding less
equivalent-id a b p q = elim (compare_cases a.smallest_key b.smallest_key) [
  | inl below ↦ absurd (ground arith)
  | inr (inl same) ↦
      let back : compare_text b.smallest_key a.smallest_key ≡ Ordering.eq =
        subst (λ (k : Bytes). compare_text b.smallest_key k ≡ Ordering.eq)
          (sym (eq_of_compare a.smallest_key b.smallest_key same)) (compare_refl b.smallest_key) in
      ground arith
  | inr (inr above) ↦
      let back = lt_of_gt a.smallest_key b.smallest_key above in absurd (ground arith)
]

insert-perm :
    (s : Sst) (ssts : List Sst)
    → All (λ t. t.id ≢ s.id) ssts
    → Perm (map (λ t. t.id) (Ordered.insert less s ssts)) (s.id ∷ map (λ t. t.id) ssts)
insert-perm s [] h = rw (Ordered.insert_nil less s) (Perm.refl _)
insert-perm s (t ∷ ssts) h = elim (Bool-cases (less s t)) [
  | inl below ↦ rw (insert_here less s t ssts below) (Perm.refl _)
  | inr p ↦ elim (Bool-cases (less t s)) [
    | inl above ↦ rw (insert_past less s t ssts p above) (
        Perm.trans (Perm.cons t.id (insert-perm s ssts h.1))
          (Perm.swap s.id t.id (map (λ t. t.id) ssts)))
    | inr q ↦ absurd (h.0 (equivalent-id t s q p))
  ]
]

pub update-Mirrors :
    (levels : List (List Sst)) (files : Levels) → Mirrors levels (Manifest.update levels files)
unfolding Manifest.update
update-Mirrors [] files = nil
update-Mirrors (ssts ∷ levels) files = listed (Perm.refl _) (update-Mirrors levels files)

pub flushed-Mirrors :
    (s : Sst) (ssts : List Sst) (levels : List (List Sst)) (files files' : Levels)
    → Mirrors levels files
    → level_at 0 levels ≡ ok ssts
    → add_to_level 0 s.id files ≡ ok files'
    → All (λ t. t.id ≢ s.id) ssts
    → Mirrors (set levels 0 (Ordered.insert less s ssts)) files'
unfolding level_at add_to_level
flushed-Mirrors s ssts levels files files' nil at added new = absurd (ground arith)
flushed-Mirrors s ssts levels files files'
      (listed {ssts = ssts₀} {ids = ids} {levels = rest} {files = others} p m) at added new =
    let here : ssts₀ ≡ ssts = ground arith in
    let there : (ids ++ s.id ∷ []) ∷ others ≡ files' = ground arith in
    let wider : Perm (map (λ t. t.id) (Ordered.insert less s ssts)) (ids ++ s.id ∷ []) =
      Perm.trans (insert-perm s ssts new) (
        Perm.trans (Perm.cons s.id (subst (λ l. Perm (map (λ t. t.id) l) ids) here p))
          (perm_append_comm (s.id ∷ []) ids)) in
    subst (Mirrors (Ordered.insert less s ssts ∷ rest)) there (listed wider m)

pub fresh :
    (ctr id : ℕ) (ssts : List Sst)
    → All (λ t. t.id < ctr) ssts
    → ctr ≤ id
    → All (λ t. t.id ≢ id) ssts
fresh ctr id ssts h low = All-map _ _ ssts (λ t below same. omega (arith, below, same)) h

pub replicate-Mirrors : (n : ℕ) → Mirrors (replicate n []) (replicate n [])
unfolding replicate
replicate-Mirrors zero = nil
replicate-Mirrors (suc n) = listed Perm.nil (replicate-Mirrors n)

pub none-AreBelow : (ctr n : ℕ) → AreBelow ctr (replicate n [])
unfolding replicate
none-AreBelow ctr zero = tt
none-AreBelow ctr (suc n) = (tt, none-AreBelow ctr n)
