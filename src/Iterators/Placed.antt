-- ===== src/Iterators/Placed.antt =====
-- Runs that are placed one after another make a heap of all of them.
use quarkkv_compaction.Base.{
  ◌+◌, ◌≡◌, refl, List, [], ◌∷◌, ◌++◌, append_assoc, append-nil, subst, concat, length,
  length-append, arith,
}
use mathlib.Core.List.{Perm, perm_append_comm}
use mathlib.Core.List.Perm
use quarkkv_compaction.Std.Ordered.{All, All-map₂}
use quarkkv_compaction.KvPair.{KvPair}
use quarkkv_compaction.Iterators.Runs.{
  IsRun, Apart, Apart-sym, AreApart, IsHeap, place, merge_runs, All-place, place-AreApart,
  place-IsHeap,
}
use quarkkv_compaction.Iterators.Merging.{
  All-place_rest, place-perm, All-unplace, length-place, merge_runs-perm, merge_runs-IsRun,
  length-merge_runs, All-merge_runs, All-unmerge_runs,
}

unfoldable pub place_all : List (List KvPair) → List (List KvPair) → List (List KvPair)
place_all [] runs = runs
place_all (run ∷ rest) runs = place_all rest (place run runs)

pub All-place_all :
    (P : KvPair → Type 0) (rest runs : List (List KvPair))
    → All (All P) rest
    → All (All P) runs
    → All (All P) (place_all rest runs)
unfolding place_all
All-place_all P [] runs p h = h
All-place_all P (run ∷ rest) runs p h =
    All-place_all P rest (place run runs) p.1 (All-place_rest P run runs p.0 h)

pub place_all-IsHeap :
    (rest runs : List (List KvPair))
    → All IsRun rest
    → AreApart rest
    → All (λ run. All (Apart run) runs) rest
    → IsHeap runs
    → AreApart runs
    → IsHeap (place_all rest runs) × AreApart (place_all rest runs)
unfolding place_all place
place_all-IsHeap [] runs m a b h k = (h, k)
place_all-IsHeap ([] ∷ rest) runs m a b h k = place_all-IsHeap rest runs m.1 a.1 b.1 h k
place_all-IsHeap ((x ∷ xs) ∷ rest) runs m a b h k =
    place_all-IsHeap rest (place (x ∷ xs) runs) m.1 a.1
      (All-map₂ (Apart (x ∷ xs)) (λ run. All (Apart run) runs) _ rest
        (λ run p q. All-place (Apart run) x xs runs (Apart-sym (x ∷ xs) run p) q) a.0 b.1)
      (place-IsHeap x xs runs m.0 b.0 h) (place-AreApart x xs runs b.0 k)

pub place_all-perm :
    (rest runs : List (List KvPair))
    → Perm (concat (place_all rest runs)) (concat rest ++ concat runs)
unfolding place_all concat
place_all-perm [] runs = Perm.refl (concat runs)
place_all-perm (run ∷ rest) runs = Perm.trans (place_all-perm rest (place run runs)) (
    Perm.trans (Perm.append_left (concat rest) (place-perm run runs)) (
      subst (λ l. Perm l ((run ++ concat rest) ++ concat runs))
        (append_assoc (concat rest) run (concat runs))
        (Perm.append_right (concat runs) (perm_append_comm (concat rest) run))))

pub place_all-append :
    (xs ys runs : List (List KvPair)) → place_all (xs ++ ys) runs ≡ place_all ys (place_all xs runs)
unfolding place_all
place_all-append [] ys runs = refl
place_all-append (x ∷ xs) ys runs = place_all-append xs ys (place x runs)

pub All-unplace_all :
    (P : KvPair → Type 0) (rest runs : List (List KvPair))
    → All (All P) (place_all rest runs)
    → All (All P) rest × All (All P) runs
unfolding place_all
All-unplace_all P [] runs h = (tt, h)
All-unplace_all P (run ∷ rest) runs h =
    let later = All-unplace_all P rest (place run runs) h in
    let here = All-unplace P run runs later.1 in ((here.0, later.0), here.1)

pub length-place_all :
    (rest runs : List (List KvPair))
    → length (concat (place_all rest runs)) ≡ length (concat rest) + length (concat runs)
unfolding place_all concat
length-place_all [] runs = omega arith
length-place_all (run ∷ rest) runs = omega (
  arith,
  length-place_all rest (place run runs),
  length-place run runs,
  length-append run (concat rest),
)

-- the merge of runs that are placed one after another
unfoldable pub merged : List (List KvPair) → List KvPair
merged runs = merge_runs (length (concat runs)) (place_all runs [])

pub size_placed :
    (runs : List (List KvPair)) → length (concat runs) ≡ length (concat (place_all runs []))
unfolding concat
size_placed runs = omega (arith, length-place_all runs [])

All-none : (rest : List (List KvPair)) → All (λ run. All (Apart run) []) rest
All-none [] = tt
All-none (run ∷ rest) = (tt, All-none rest)

-- Runs that are apart make a heap, and their merge is in order.
pub placed-IsHeap :
    (runs : List (List KvPair))
    → All IsRun runs
    → AreApart runs
    → IsHeap (place_all runs []) × AreApart (place_all runs [])
placed-IsHeap runs m a = place_all-IsHeap runs [] m a (All-none runs) tt tt

pub merged-IsRun :
    (runs : List (List KvPair)) → All IsRun runs → AreApart runs → IsRun (merged runs)
unfolding merged
merged-IsRun runs m a =
    let h = placed-IsHeap runs m a in
    merge_runs-IsRun (length (concat runs)) (place_all runs []) h.0 h.1

pub merged-perm : (runs : List (List KvPair)) → Perm (merged runs) (concat runs)
unfolding merged concat
merged-perm runs =
    Perm.trans (merge_runs-perm (length (concat runs)) (place_all runs []) (size_placed runs)) (
      subst (Perm (concat (place_all runs []))) (append-nil (concat runs)) (place_all-perm runs []))

pub length-merged : (runs : List (List KvPair)) → length (merged runs) ≡ length (concat runs)
unfolding merged
length-merged runs = length-merge_runs (length (concat runs)) (place_all runs []) (size_placed runs)

pub All-merged :
    (P : KvPair → Type 0) (runs : List (List KvPair)) → All (All P) runs → All P (merged runs)
unfolding merged
All-merged P runs h =
    All-merge_runs P (length (concat runs)) (place_all runs []) (All-place_all P runs [] h tt)

pub All-unmerged :
    (P : KvPair → Type 0) (runs : List (List KvPair)) → All P (merged runs) → All (All P) runs
unfolding merged
All-unmerged P runs h =
    (All-unplace_all P runs []
      (All-unmerge_runs P (length (concat runs)) (place_all runs []) (size_placed runs) h)).0
