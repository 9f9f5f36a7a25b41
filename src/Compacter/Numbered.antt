-- ===== src/Compacter/Numbered.antt =====
-- The identifiers of the tables stay below the counter, over the choice of the tables.
use quarkkv_compaction.Base.{
  ℕ, zero, suc, ◌+◌, ◌<◌, ◌≤◌, ◌≡◌, subst, inl, inr, Bool-cases, List, [], ◌∷◌, arith, ok, require,
  aborted, ◌==◌, length, set, ◌>>=◌, >>=-eq-ok,
}
use quarkkv_compaction.Std.Ordered
use quarkkv_compaction.Std.Ordered.{All, All-map, All-insert}
use quarkkv_compaction.Device.{Device}
use quarkkv_compaction.Sst.{Sst, less, set_level, mark_for_compaction, unmark_for_compaction}
use quarkkv_compaction.Compacter.{State, level_at}
use quarkkv_compaction.Compacter.Select.{
  mark_tables, mark_level, mark_table, move_marked, erase_all, init_empty_level,
}

-- The identifiers of all tables are below `n`.
abbrev pub IsBelow : ℕ → List Sst → Type 0
IsBelow n ssts = All (λ s. s.id < n) ssts

abbrev pub AreBelow : ℕ → List (List Sst) → Type 0
AreBelow n levels = All (IsBelow n) levels

abbrev pub IsCounted : (d : Device) → State d → Type 0
IsCounted d st = AreBelow st.manager.ctr st.levels

pub AreBelow-mono :
    (n m : ℕ) (levels : List (List Sst)) → n ≤ m → AreBelow n levels → AreBelow m levels
AreBelow-mono n m levels h below =
    All-map _ _ levels (λ ssts. All-map _ _ ssts (λ s low. omega (arith, h, low))) below

pub level_at-IsBelow :
    (n level : ℕ) (levels : List (List Sst)) (ssts : List Sst)
    → AreBelow n levels
    → level_at level levels ≡ ok ssts
    → IsBelow n ssts
unfolding level_at
level_at-IsBelow n level [] ssts h e = absurd (ground arith)
level_at-IsBelow n zero (ssts₀ ∷ levels) ssts h e =
    let same : ssts₀ ≡ ssts = ground arith in subst (IsBelow n) same h.0
level_at-IsBelow n (suc level) (ssts₀ ∷ levels) ssts h e =
    level_at-IsBelow n level levels ssts h.1 e

pub set-AreBelow :
    (n level : ℕ) (levels : List (List Sst)) (ssts : List Sst)
    → AreBelow n levels
    → IsBelow n ssts
    → AreBelow n (set levels level ssts)
set-AreBelow n level [] ssts h k = tt
set-AreBelow n zero (ssts₀ ∷ levels) ssts h k = (k, h.1)
set-AreBelow n (suc level) (ssts₀ ∷ levels) ssts h k = (h.0, set-AreBelow n level levels ssts h.1 k)

pub erase-IsBelow :
    (n : ℕ) (s : Sst) (ssts : List Sst) → IsBelow n ssts → IsBelow n (Ordered.erase less s ssts)
unfolding Ordered.erase
erase-IsBelow n s [] h = tt
erase-IsBelow n s (t ∷ ssts) h =
    let rest = erase-IsBelow n s ssts h.1 in
    elim (Bool-cases (less s t)) [
      | inl before ↦ rw before h
      | inr p ↦ elim (Bool-cases (less t s)) [
        | inl behind ↦ rw (p, behind) (h.0, rest)
        | inr q ↦ rw (p, q) h.1
      ]
    ]

pub insert-IsBelow :
    (n : ℕ) (s : Sst) (ssts : List Sst)
    → s.id < n
    → IsBelow n ssts
    → IsBelow n (Ordered.insert less s ssts)
insert-IsBelow n s ssts = All-insert less (λ t. t.id < n) s ssts

erase_all-IsBelow :
    (n : ℕ) (gone ssts : List Sst) → IsBelow n ssts → IsBelow n (erase_all gone ssts)
unfolding erase_all
erase_all-IsBelow n [] ssts h = h
erase_all-IsBelow n (s ∷ gone) ssts h = erase_all-IsBelow n gone _ (erase-IsBelow n s ssts h)

mark_for_compaction-id : (s s' : Sst) → mark_for_compaction s ≡ ok s' → s'.id ≡ s.id
unfolding mark_for_compaction
mark_for_compaction-id s s' e = ground arith

unmark_for_compaction-id : (s s' : Sst) → unmark_for_compaction s ≡ ok s' → s'.id ≡ s.id
unfolding unmark_for_compaction
unmark_for_compaction-id s s' e = ground arith

mark_tables-IsBelow :
    (n : ℕ) (ssts ssts' : List Sst) → IsBelow n ssts → mark_tables ssts ≡ ok ssts' → IsBelow n ssts'
unfolding mark_tables
mark_tables-IsBelow n [] ssts' h e =
    let same : [] ≡ ssts' = ground arith in subst (IsBelow n) same tt
mark_tables-IsBelow n (s ∷ ssts) ssts' h e =
    let (s', e₁, marked) = >>=-eq-ok (mark_for_compaction s) _ e in
    let (rest, e₂, others) = >>=-eq-ok (mark_tables ssts) _ e₁ in
    let same : s' ∷ rest ≡ ssts' = ground arith in
    subst (IsBelow n) same (
      omega (arith, h.0, mark_for_compaction-id s s' marked),
      mark_tables-IsBelow n ssts rest h.1 others,
    )

pub mark_table-IsBelow :
    (n i : ℕ) (ssts ssts' : List Sst)
    → IsBelow n ssts
    → mark_table i ssts ≡ ok ssts'
    → IsBelow n ssts'
unfolding mark_table
mark_table-IsBelow n i [] ssts' h e = absurd (ground arith)
mark_table-IsBelow n zero (s ∷ ssts) ssts' h e =
    let (s', e₁, marked) = >>=-eq-ok (mark_for_compaction s) _ e in
    let same : s' ∷ ssts ≡ ssts' = ground arith in
    subst (IsBelow n) same (omega (arith, h.0, mark_for_compaction-id s s' marked), h.1)
mark_table-IsBelow n (suc i) (s ∷ ssts) ssts' h e =
    let (rest, e₁, others) = >>=-eq-ok (mark_table i ssts) _ e in
    let same : s ∷ rest ≡ ssts' = ground arith in
    subst (IsBelow n) same (h.0, mark_table-IsBelow n i ssts rest h.1 others)

pub mark_level-AreBelow :
    (n level : ℕ) (levels levels' : List (List Sst))
    → AreBelow n levels
    → mark_level level levels ≡ ok levels'
    → AreBelow n levels'
unfolding mark_level
mark_level-AreBelow n level levels levels' h e =
    let (ssts, e₁, at) = >>=-eq-ok (level_at level levels) _ e in
    let (ssts', e₂, marked) = >>=-eq-ok (mark_tables ssts) _ e₁ in
    let same : set levels level ssts' ≡ levels' = ground arith in
    subst (AreBelow n) same (
      set-AreBelow n level levels ssts' h
        (mark_tables-IsBelow n ssts ssts' (level_at-IsBelow n level levels ssts h at) marked))

move_marked-IsBelow :
    (n level : ℕ) (ssts dest moved : List Sst) (r : List Sst × List Sst)
    → IsBelow n ssts
    → IsBelow n dest
    → move_marked level ssts dest moved ≡ ok r
    → IsBelow n r.0
unfolding move_marked set_level
move_marked-IsBelow n level [] dest moved r h k e =
    let same : dest ≡ r.0 = ground arith in subst (IsBelow n) same k
move_marked-IsBelow n level (s ∷ ssts) dest moved r h k e =
    elim (Bool-cases s.marked_for_compaction) [
      | inl marked ↦
          let e₀ : (do
            s' ← unmark_for_compaction (set_level level s)
            move_marked level ssts (Ordered.insert less s' dest) (Ordered.insert less s' moved))
              ≡ ok r =
            ground arith in
          let (s', e₁, cleared) = >>=-eq-ok (unmark_for_compaction (set_level level s)) _ e₀ in
          let low : s'.id < n =
            omega (arith, h.0, unmark_for_compaction-id (set_level level s) s' cleared) in
          move_marked-IsBelow n level ssts _ _ r h.1 (insert-IsBelow n s' dest low k) e₁
      | inr left ↦ move_marked-IsBelow n level ssts dest moved r h.1 k (ground arith)
    ]

pub init_empty_level-AreBelow :
    (n level : ℕ) (levels levels' : List (List Sst))
    → AreBelow n levels
    → init_empty_level level levels ≡ ok levels'
    → AreBelow n levels'
unfolding init_empty_level
init_empty_level-AreBelow n level levels levels' h e =
    let (upper, e₁, at) = >>=-eq-ok (level_at level levels) _ e in
    let (lower, e₂, below) = >>=-eq-ok (level_at (level + 1) levels) _ e₁ in
    let (u, e₃, empty) = >>=-eq-ok (require (length lower == 0) aborted) _ e₂ in
    let ((lower', moved), e₄, ran) = >>=-eq-ok (move_marked (level + 1) upper lower []) _ e₃ in
    let same : set (set levels (level + 1) lower') level (erase_all moved upper) ≡ levels' =
      ground arith in
    let high = level_at-IsBelow n level levels upper h at in
    let low = level_at-IsBelow n (level + 1) levels lower h below in
    subst (AreBelow n) same (
      set-AreBelow n level _ _
        (set-AreBelow n (level + 1) levels lower' h
          (move_marked-IsBelow n (level + 1) upper lower [] (lower', moved) high low ran))
        (erase_all-IsBelow n moved upper high))
