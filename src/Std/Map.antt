-- ===== src/Std/Map.antt =====
-- `std::map` with `std::string` keys, as the sequence of its entries in key order.
use quarkkv_compaction.Base.{
  ℕ, ◌+◌, length, ◌≡◌, refl, inl, inr, Bool, true, Option, none, some, List, [], ◌∷◌, arith,
  if◌then◌else◌,
}
use quarkkv_compaction.Std.Text.{
  Bytes, text_lt, text_eq, compare_refl, eq_of_compare, gt_of_lt, lt_of_gt, compare_trans,
  compare_cases, text_lt_trans,
}
use quarkkv_compaction.Std.Ordered
use quarkkv_compaction.Std.Ordered.{
  IsWeakOrder, IsSorted, All, All-map, insert-IsSorted, insert_here, insert_kept, insert_nil,
  insert_past,
}

abbrev pub Map {ℓ} : Type ℓ → Type ℓ
Map V = List (Bytes × V)

module _ {ℓ} {V : Type ℓ} where
  abbrev pub entry_less : Bytes × V → Bytes × V → Bool
  entry_less a b = text_lt a.0 b.0

  abbrev pub IsMap : Map V → Type 0
  IsMap m = IsSorted entry_less m

  -- m.insert({k, v}): the value that a present key has stays
  unfoldable pub insert : Bytes → V → Map V → Map V
  insert k v m = Ordered.insert entry_less (k, v) m

  -- m.find(k)
  unfoldable pub find : Bytes → Map V → Option V
  find k [] = none
  find k ((j, v) ∷ m) = if text_eq j k then some v else find k m

  -- the entries from m.lower_bound(k) on
  unfoldable pub lower_bound : Bytes → Map V → Map V
  lower_bound k [] = []
  lower_bound k ((j, v) ∷ m) = if text_lt j k then lower_bound k m else (j, v) ∷ m

  abbrev pub keep_or : Option V → V → V
  keep_or none v = v
  keep_or (some w) v = w

  entry_less-IsWeakOrder : IsWeakOrder entry_less
  entry_less-IsWeakOrder = record {
    asym = λ a b h. ground (arith, gt_of_lt a.0 b.0);
    cotrans = λ a b c h k. ground (
      arith,
      eq_of_compare a.0 b.0,
      eq_of_compare b.0 c.0,
      lt_of_gt a.0 b.0,
      lt_of_gt b.0 c.0,
      gt_of_lt a.0 c.0,
      compare_trans c.0 b.0 a.0,
      compare_refl a.0,
    );
  }

  pub insert-IsMap : (k : Bytes) (v : V) (m : Map V) → IsMap m → IsMap (insert k v m)
  unfolding insert
  insert-IsMap k v m h = insert-IsSorted entry_less-IsWeakOrder (k, v) m h

  -- A key below every entry is not there.
  find-above :
      (k : Bytes) (v : V) (m : Map V) → All (λ e. entry_less (k, v) e ≡ true) m → find k m ≡ none
  unfolding find
  find-above k v [] h = refl
  find-above k v ((j, w) ∷ m) h =
      ground (arith, find-above k v m, eq_of_compare j k, compare_refl k)

  pub find-insert :
      (k j : Bytes) (v : V) (m : Map V)
      → IsMap m
      → find j (insert k v m) ≡ (if text_eq k j then some (keep_or (find k m) v) else find j m)
  unfolding insert find
  find-insert k j v [] h = rw insert_nil refl
  find-insert k j v ((i, w) ∷ m) h = elim (compare_cases k i) [
    | inl below ↦
        let gone =
          find-above k v m (All-map _ _ m (λ e. text_lt_trans k i e.0 (ground arith)) h.0) in
        rw (insert_here entry_less (k, v) (i, w) m (ground arith))
          (ground (arith, gone, eq_of_compare i k, eq_of_compare k j, compare_refl k, below))
    | inr (inl same) ↦
        let back = eq_of_compare k i same in
        rw
          (insert_kept entry_less (k, v) (i, w) m (ground arith)
            (rw back (ground (arith, compare_refl i))))
          (ground (arith, back, compare_refl k))
    | inr (inr above) ↦
        let flip = lt_of_gt k i above in
        rw (insert_past entry_less (k, v) (i, w) m (ground arith) (ground arith))
          (ground (arith, find-insert k j v m, eq_of_compare i j, eq_of_compare k j, flip))
  ]

  -- what an entry for a key adds where the key had the value, or none
  abbrev pub added : Option V → ℕ
  added none = 1
  added (some w) = 0

  pub length-insert_lem :
      (k : Bytes) (v : V) (m : Map V)
      → IsMap m
      → length (insert k v m) ≡ length m + added (find k m)
  unfolding insert find
  length-insert_lem k v [] h = rw insert_nil refl
  length-insert_lem k v ((i, w) ∷ m) h = elim (compare_cases k i) [
    | inl below ↦
        let gone =
          find-above k v m (All-map _ _ m (λ e. text_lt_trans k i e.0 (ground arith)) h.0) in
        rw (insert_here entry_less (k, v) (i, w) m (ground arith))
          (ground (arith, gone, eq_of_compare i k, compare_refl k, below))
    | inr (inl same) ↦
        let back = eq_of_compare k i same in
        rw
          (insert_kept entry_less (k, v) (i, w) m (ground arith)
            (rw back (ground (arith, compare_refl i))))
          (ground (arith, back, compare_refl k))
    | inr (inr above) ↦
        let flip = lt_of_gt k i above in
        rw (insert_past entry_less (k, v) (i, w) m (ground arith) (ground arith))
          (ground (arith, length-insert_lem k v m h.1, eq_of_compare i k, flip))
  ]
