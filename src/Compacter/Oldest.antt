-- ===== src/Compacter/Oldest.antt =====
-- The first pair of each run of the merge is the oldest pair of its key.
use quarkkv_compaction.Base.{
  ℕ, suc, ◌≤◌, ◌≡◌, refl, subst, ◌⊎◌, inl, inr, true, Option, none, some, List, [], ◌∷◌, arith,
  get_elem?, Bool-cases,
}
use quarkkv_compaction.Std.Text.{text_eq, text_eq→eq, text_eq_refl}
use quarkkv_compaction.Std.Ordered.{All, All-map, All-map₂}
use quarkkv_compaction.KvPair.{KvPair}
use quarkkv_compaction.Compacter.{same_key}
use quarkkv_compaction.Compacter.Dedup.{first_of_runs, IsMerged, later_of_run}

-- the list has a pair with the key of `kv` that is not later
pub record HasOlder (kvs : List KvPair) (kv : KvPair) : Type 0 where
  pub index : ℕ
  pub found : KvPair
  pub there : get_elem? kvs index ≡ some found
  pub key : text_eq found.key kv.key ≡ true
  pub older : found.ts ≤ kv.ts

HasOlder-behind :
    (x : KvPair) (kvs : List KvPair) (kv : KvPair) → HasOlder kvs kv → HasOlder (x ∷ kvs) kv
HasOlder-behind x kvs kv o = record {
  index = suc o.index;
  found = o.found;
  there = o.there;
  key = o.key;
  older = o.older;
}

HasOlder-front :
    (x : KvPair) (kvs : List KvPair) (kv : KvPair)
    → text_eq x.key kv.key ≡ true
    → x.ts ≤ kv.ts
    → HasOlder (x ∷ kvs) kv
HasOlder-front x kvs kv same older = record {
  index = 0;
  found = x;
  there = refl;
  key = same;
  older = older;
}

same_key_trans :
    (prev : Option KvPair) (x y : KvPair)
    → same_key prev x ≡ true
    → text_eq x.key y.key ≡ true
    → same_key prev y ≡ true
same_key_trans none x y h k = ground arith
same_key_trans (some prev) x y h k = rw (← text_eq→eq x.key y.key k) h

first_of_runs-HasOlder :
    (prev : Option KvPair) (kvs : List KvPair)
    → IsMerged kvs
    → All (λ x. (same_key prev x ≡ true) ⊎ HasOlder (first_of_runs prev kvs) x) kvs
unfolding first_of_runs
first_of_runs-HasOlder prev [] m = tt
first_of_runs-HasOlder prev (kv ∷ kvs) m =
    let rest = first_of_runs (some kv) kvs in
    let P : List KvPair → Type 0 =
      λ out. All (λ x. (same_key prev x ≡ true) ⊎ HasOlder out x) (kv ∷ kvs) in
    let later = first_of_runs-HasOlder (some kv) kvs m.1 in
    elim (Bool-cases (same_key prev kv)) [
      | inl same ↦
          let skipped : rest ≡ first_of_runs prev (kv ∷ kvs) = rw same refl in
          subst P skipped (
            inl same,
            All-map _ _ kvs
                (λ x h. elim h [
                  | inl run ↦ inl (same_key_trans prev kv x same run)
                  | inr older ↦ inr older
                ])
                later,
          )
      | inr other ↦
          let added : kv ∷ rest ≡ first_of_runs prev (kv ∷ kvs) = rw other refl in
          subst P added (
            inr (HasOlder-front kv rest kv (text_eq_refl kv.key) (omega arith)),
            All-map₂ _ _ _ kvs
                (λ x after h. elim h [
                  | inl run ↦
                      let time = later_of_run kv x after run in
                      inr (HasOlder-front kv rest x run (ground arith))
                  | inr older ↦ inr (HasOlder-behind kv rest x older)
                ])
                m.0 later,
          )
    ]

-- Every pair of a merge has a pair of its key among the firsts of the runs that is not later.
pub first_of_runs-oldest :
    (kvs : List KvPair) → IsMerged kvs → All (HasOlder (first_of_runs none kvs)) kvs
first_of_runs-oldest kvs m =
    All-map _ _ kvs (λ x h. elim h [ inl run ↦ absurd (ground arith) | inr older ↦ older ])
      (first_of_runs-HasOlder none kvs m)
