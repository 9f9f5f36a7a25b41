-- ===== src/Iterators/Merging.antt =====
-- What the merge of ordered runs is: their pairs, each as often, in order.
use quarkkv_compaction.Base.{
  ℕ, zero, suc, ◌+◌, ◌≡◌, refl, ap, subst, inl, inr, true, List, [], ◌∷◌, ◌++◌, arith, append_assoc,
  length, length-append, concat, Bool-cases,
}
use mathlib.Core.List.{Perm, perm_append_comm}
use mathlib.Core.List.Perm
use quarkkv_compaction.Std.Ordered.{All, All-map}
use quarkkv_compaction.KvPair.{KvPair, gt}
use quarkkv_compaction.Iterators.Runs.{
  IsRun, Apart, AreApart, IsHeap, place, merge_runs, place_here, place_past, All-place,
  place-AreApart, place-IsHeap,
}

-- The heap that is left when the first pair is taken.
pub rest-IsHeap :
    (x : KvPair) (xs : List KvPair) (runs : List (List KvPair))
    → IsHeap ((x ∷ xs) ∷ runs)
    → AreApart ((x ∷ xs) ∷ runs)
    → IsHeap (place xs runs) × AreApart (place xs runs)
unfolding place
rest-IsHeap x [] runs h k = (h.2, k.1)
rest-IsHeap x (y ∷ ys) runs h k =
    let apart = All-map _ (Apart (y ∷ ys)) runs (λ run q. q.1) k.0 in
    (place-IsHeap y ys runs h.0.1 apart h.2, place-AreApart y ys runs apart k.1)

pub All-place_rest :
    (P : KvPair → Type 0) (xs : List KvPair) (runs : List (List KvPair))
    → All P xs
    → All (All P) runs
    → All (All P) (place xs runs)
unfolding place
All-place_rest P [] runs p h = h
All-place_rest P (x ∷ xs) runs p h = All-place (All P) x xs runs p h

pub All-merge_runs :
    (P : KvPair → Type 0) (n : ℕ) (runs : List (List KvPair))
    → All (All P) runs
    → All P (merge_runs n runs)
unfolding merge_runs
All-merge_runs P zero runs h = tt
All-merge_runs P (suc n) [] h = tt
All-merge_runs P (suc n) ([] ∷ runs) h = All-merge_runs P (suc n) runs h.1
All-merge_runs P (suc n) ((x ∷ xs) ∷ runs) h =
    (h.0.0, All-merge_runs P n (place xs runs) (All-place_rest P xs runs h.0.1 h.1))

-- The merge is in order.
pub merge_runs-IsRun :
    (n : ℕ) (runs : List (List KvPair)) → IsHeap runs → AreApart runs → IsRun (merge_runs n runs)
unfolding merge_runs
merge_runs-IsRun zero runs h k = tt
merge_runs-IsRun (suc n) [] h k = tt
merge_runs-IsRun (suc n) ([] ∷ runs) h k = elim h [ ]
merge_runs-IsRun (suc n) ((x ∷ xs) ∷ runs) h k =
    let next = rest-IsHeap x xs runs h k in
    (
      All-merge_runs (λ y. gt y x ≡ true) n (place xs runs) (All-place_rest _ xs runs h.0.0 h.1),
      merge_runs-IsRun n (place xs runs) next.0 next.1,
    )

pub place-perm :
    (xs : List KvPair) (runs : List (List KvPair))
    → Perm (concat (place xs runs)) (xs ++ concat runs)
unfolding place concat
place-perm [] runs = Perm.refl (concat runs)
place-perm (x ∷ xs) [] = Perm.refl ((x ∷ xs) ++ [])
place-perm (x ∷ xs) ([] ∷ runs) = Perm.refl ((x ∷ xs) ++ concat runs)
place-perm (x ∷ xs) ((y ∷ ys) ∷ runs) = elim (Bool-cases (gt y x)) [
  | inl above ↦ rw above (Perm.refl _)
  | inr below ↦ rw below (
      Perm.trans (Perm.append_left (y ∷ ys) (place-perm (x ∷ xs) runs)) (
        subst (λ l. Perm l ((x ∷ xs) ++ ((y ∷ ys) ++ concat runs)))
          (append_assoc (y ∷ ys) (x ∷ xs) (concat runs))
          (subst (λ l. Perm (((y ∷ ys) ++ (x ∷ xs)) ++ concat runs) l)
            (append_assoc (x ∷ xs) (y ∷ ys) (concat runs))
            (Perm.append_right (concat runs) (perm_append_comm (y ∷ ys) (x ∷ xs))))))
]

pub length-place :
    (xs : List KvPair) (runs : List (List KvPair))
    → length (concat (place xs runs)) ≡ length xs + length (concat runs)
unfolding place concat
length-place [] runs = omega arith
length-place (x ∷ xs) [] = omega (arith, length-append xs [])
length-place (x ∷ xs) ([] ∷ runs) = omega (arith, length-append xs (concat runs))
length-place (x ∷ xs) ((y ∷ ys) ∷ runs) = elim (Bool-cases (gt y x)) [
  | inl above ↦ rw above (omega (arith, length-append xs ((y ∷ ys) ++ concat runs)))
  | inr below ↦ rw below (
      omega (
        arith,
        length-append ys (concat (place (x ∷ xs) runs)),
        length-place (x ∷ xs) runs,
        length-append ys (concat runs),
      ))
]

-- The merge has the pairs of the runs, each as often as they have it.
pub merge_runs-perm :
    (n : ℕ) (runs : List (List KvPair))
    → n ≡ length (concat runs)
    → Perm (merge_runs n runs) (concat runs)
unfolding merge_runs concat
merge_runs-perm zero [] e = Perm.nil
merge_runs-perm zero ([] ∷ runs) e = merge_runs-perm zero runs e
merge_runs-perm zero ((x ∷ xs) ∷ runs) e = absurd (omega arith)
merge_runs-perm (suc n) [] e = absurd (omega arith)
merge_runs-perm (suc n) ([] ∷ runs) e = merge_runs-perm (suc n) runs e
merge_runs-perm (suc n) ((x ∷ xs) ∷ runs) e = Perm.cons x (
    Perm.trans
      (merge_runs-perm n (place xs runs)
        (omega (arith, length-place xs runs, length-append xs (concat runs))))
      (place-perm xs runs))

pub All-unplace :
    (P : KvPair → Type 0) (xs : List KvPair) (runs : List (List KvPair))
    → All (All P) (place xs runs)
    → All P xs × All (All P) runs
unfolding place
All-unplace P [] runs h = (tt, h)
All-unplace P (x ∷ xs) [] h = (h.0, tt)
All-unplace P (x ∷ xs) ([] ∷ runs) h = (h.0, h.1)
All-unplace P (x ∷ xs) ((y ∷ ys) ∷ runs) h = elim (Bool-cases (gt y x)) [
  | inl above ↦ let h' = subst (All (All P)) (place_here x y xs ys runs above) h in (h'.0, h'.1)
  | inr below ↦
      let h' = subst (All (All P)) (place_past x y xs ys runs below) h in
      let more = All-unplace P (x ∷ xs) runs h'.1 in (more.0, (h'.0, more.1))
]

-- What holds of the merge holds of every pair of the runs.
pub All-unmerge_runs :
    (P : KvPair → Type 0) (n : ℕ) (runs : List (List KvPair))
    → n ≡ length (concat runs)
    → All P (merge_runs n runs)
    → All (All P) runs
unfolding merge_runs concat
All-unmerge_runs P n [] e h = tt
All-unmerge_runs P zero ([] ∷ runs) e h = (tt, All-unmerge_runs P zero runs e h)
All-unmerge_runs P zero ((x ∷ xs) ∷ runs) e h = absurd (omega arith)
All-unmerge_runs P (suc n) ([] ∷ runs) e h = (tt, All-unmerge_runs P (suc n) runs e h)
All-unmerge_runs P (suc n) ((x ∷ xs) ∷ runs) e h =
    let more = All-unplace P xs runs (
      All-unmerge_runs P n (place xs runs)
        (omega (arith, length-place xs runs, length-append xs (concat runs))) h.1) in
    ((h.0, more.0), more.1)

pub length-merge_runs :
    (n : ℕ) (runs : List (List KvPair)) → n ≡ length (concat runs) → length (merge_runs n runs) ≡ n
unfolding merge_runs concat
length-merge_runs zero runs e = refl
length-merge_runs (suc n) [] e = absurd (omega arith)
length-merge_runs (suc n) ([] ∷ runs) e = length-merge_runs (suc n) runs e
length-merge_runs (suc n) ((x ∷ xs) ∷ runs) e = ap suc (
    length-merge_runs n (place xs runs)
      (omega (arith, length-place xs runs, length-append xs (concat runs))))
