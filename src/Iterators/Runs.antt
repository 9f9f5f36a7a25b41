-- ===== src/Iterators/Runs.antt =====
-- The merge of several ordered runs of pairs, stated apart from the code: the runs stand in the order
-- of their first pairs, as the heap of a `CompactionIterator` holds its iterators.
use quarkkv_compaction.Base.{
  ℕ, zero, suc, ◌≡◌, refl, ◌⊎◌, inl, inr, true, false, List, [], ◌∷◌, arith, if◌then◌else◌,
  Bool-cases,
}
use quarkkv_compaction.Std.Ordered.{All, All-map, IsSorted}
use quarkkv_compaction.KvPair.{KvPair, gt}
use quarkkv_compaction.KvPair.Order.{gt_trans}

-- a run in the order of `operator>`
abbrev pub IsRun : List KvPair → Type 0
IsRun kvs = IsSorted (λ a b. gt b a) kvs

-- Of two pairs one is above the other: they differ in their key or their time.
abbrev pub Differ : KvPair → KvPair → Type 0
Differ a b = (gt a b ≡ true) ⊎ (gt b a ≡ true)

abbrev pub Apart : List KvPair → List KvPair → Type 0
Apart xs ys = All (λ x. All (λ y. Differ x y) ys) xs

-- every pair of a run differs from every pair of another
abbrev pub AreApart : List (List KvPair) → Type 0
AreApart [] = Unit
AreApart (run ∷ runs) = All (Apart run) runs × AreApart runs

-- no run is empty, each is in order, and its first pair is below the pairs of the later runs
abbrev pub IsHeap : List (List KvPair) → Type 0
IsHeap [] = Unit
IsHeap ([] ∷ runs) = ⊥
IsHeap ((x ∷ xs) ∷ runs) =
    IsRun (x ∷ xs) × All (λ run. All (λ y. gt y x ≡ true) run) runs × IsHeap runs

-- a run takes its place by its first pair
unfoldable pub place : List KvPair → List (List KvPair) → List (List KvPair)
place [] runs = runs
place (x ∷ xs) [] = (x ∷ xs) ∷ []
place (x ∷ xs) ([] ∷ runs) = (x ∷ xs) ∷ [] ∷ runs
place (x ∷ xs) ((y ∷ ys) ∷ runs) =
    let behind = place (x ∷ xs) runs in
    if gt y x then (x ∷ xs) ∷ (y ∷ ys) ∷ runs else (y ∷ ys) ∷ behind

-- the first `n` pairs of the merge
unfoldable pub merge_runs : ℕ → List (List KvPair) → List KvPair
merge_runs zero runs = []
merge_runs (suc n) [] = []
merge_runs (suc n) ([] ∷ runs) = merge_runs (suc n) runs
merge_runs (suc n) ((x ∷ xs) ∷ runs) = x ∷ merge_runs n (place xs runs)

pub place_past :
    (x y : KvPair) (xs ys : List KvPair) (runs : List (List KvPair))
    → gt y x ≡ false
    → place (x ∷ xs) ((y ∷ ys) ∷ runs) ≡ (y ∷ ys) ∷ place (x ∷ xs) runs
unfolding place
place_past x y xs ys runs h = rw h refl

pub place_here :
    (x y : KvPair) (xs ys : List KvPair) (runs : List (List KvPair))
    → gt y x ≡ true
    → place (x ∷ xs) ((y ∷ ys) ∷ runs) ≡ (x ∷ xs) ∷ (y ∷ ys) ∷ runs
unfolding place
place_here x y xs ys runs h = rw h refl

pub place_nil : (xs : List KvPair) (runs : List (List KvPair)) → place [] runs ≡ runs
unfolding place
place_nil xs runs = refl

-- What holds of every run of a heap and of one that is placed holds of the new heap.
pub All-place :
    (P : List KvPair → Type 0) (x : KvPair) (xs : List KvPair) (runs : List (List KvPair))
    → P (x ∷ xs)
    → All P runs
    → All P (place (x ∷ xs) runs)
unfolding place
All-place P x xs [] p h = (p, tt)
All-place P x xs ([] ∷ runs) p h = (p, h)
All-place P x xs ((y ∷ ys) ∷ runs) p h = elim (Bool-cases (gt y x)) [
  | inl above ↦ rw above (p, h)
  | inr below ↦ rw below (h.0, All-place P x xs runs p h.1)
]

Differ-sym : (x y : KvPair) → Differ x y → Differ y x
Differ-sym x y (inl h) = inr h
Differ-sym x y (inr h) = inl h

Apart-nil : (ys : List KvPair) → All (λ y. All (λ x. Differ y x) []) ys
Apart-nil [] = tt
Apart-nil (y ∷ ys) = (tt, Apart-nil ys)

Apart-cons :
    (x : KvPair) (xs ys : List KvPair) → All (Differ x) ys → Apart ys xs → Apart ys (x ∷ xs)
Apart-cons x xs [] h k = tt
Apart-cons x xs (y ∷ ys) h k = ((Differ-sym x y h.0, k.0), Apart-cons x xs ys h.1 k.1)

pub Apart-sym : (xs ys : List KvPair) → Apart xs ys → Apart ys xs
Apart-sym [] ys h = Apart-nil ys
Apart-sym (x ∷ xs) ys h = Apart-cons x xs ys h.0 (Apart-sym xs ys h.1)

pub place-AreApart :
    (x : KvPair) (xs : List KvPair) (runs : List (List KvPair))
    → All (Apart (x ∷ xs)) runs
    → AreApart runs
    → AreApart (place (x ∷ xs) runs)
unfolding place
place-AreApart x xs [] h k = (tt, tt)
place-AreApart x xs ([] ∷ runs) h k = (h, k)
place-AreApart x xs ((y ∷ ys) ∷ runs) h k = elim (Bool-cases (gt y x)) [
  | inl above ↦ rw above (h, k)
  | inr below ↦ rw below (
    All-place (Apart (y ∷ ys)) x xs runs (Apart-sym (x ∷ xs) (y ∷ ys) h.0) k.0,
    place-AreApart x xs runs h.1 k.1,
  )
]

below_run :
    (x y : KvPair) (ys : List KvPair)
    → gt y x ≡ true
    → All (λ z. gt z y ≡ true) ys
    → All (λ z. gt z x ≡ true) ys
below_run x y ys h k = All-map _ _ ys (λ z q. gt_trans z y x q h) k

pub place-IsHeap :
    (x : KvPair) (xs : List KvPair) (runs : List (List KvPair))
    → IsRun (x ∷ xs)
    → All (Apart (x ∷ xs)) runs
    → IsHeap runs
    → IsHeap (place (x ∷ xs) runs)
unfolding place
place-IsHeap x xs [] m apart h = (m, tt, tt)
place-IsHeap x xs ([] ∷ runs) m apart h = elim h [ ]
place-IsHeap x xs ((y ∷ ys) ∷ runs) m apart h = elim (Bool-cases (gt y x)) [
  | inl above ↦ rw above (
    m,
    (
      (above, below_run x y ys above h.0.0),
      All-map _ _ runs (λ run q. below_run x y run above q) h.1,
    ),
    h,
  )
  | inr below ↦
      let under : gt x y ≡ true = elim apart.0.0.0 [ inl q ↦ q | inr q ↦ absurd (ground arith) ] in
      rw below (
        h.0,
        All-place (λ run. All (λ z. gt z y ≡ true) run) x xs runs
            (under, below_run y x xs under m.0) h.1,
        place-IsHeap x xs runs m apart.1 h.2,
      )
]
