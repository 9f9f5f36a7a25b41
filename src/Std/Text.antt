-- ===== src/Std/Text.antt =====
-- `std::string` as its bytes, compared as `std::string::compare` does.
use quarkkv_compaction.Base.{
  ℕ, ◌≡◌, refl, ◌⊎◌, inl, inr, Bool, true, false, List, [], ◌∷◌, arith, compare, Ordering,
}
use Prim.Native.Nat.Ordering.{lt, eq, gt}

abbrev pub Bytes : Type 0
Bytes = List ℕ

abbrev then : Ordering → Ordering → Ordering
then eq second = second
then first _ = first

-- a.compare(b): below, at or above zero
unfoldable pub compare_text : Bytes → Bytes → Ordering
compare_text [] [] = eq
compare_text [] (b ∷ y) = lt
compare_text (a ∷ x) [] = gt
compare_text (a ∷ x) (b ∷ y) = then (compare a b) (compare_text x y)

-- a < b, a == b
abbrev pub text_lt : Bytes → Bytes → Bool
text_lt a b = elim (compare_text a b) [ Ordering.lt ↦ true | _ ↦ false ]

abbrev pub text_eq : Bytes → Bytes → Bool
text_eq a b = elim (compare_text a b) [ Ordering.eq ↦ true | _ ↦ false ]

pub compare_refl : (a : Bytes) → compare_text a a ≡ eq
unfolding compare_text
compare_refl [] = refl
compare_refl (a ∷ x) = ground (arith, compare_refl x)

pub eq_of_compare : (a b : Bytes) → compare_text a b ≡ eq → a ≡ b
unfolding compare_text
eq_of_compare [] [] h = refl
eq_of_compare [] (b ∷ y) h = ground arith
eq_of_compare (a ∷ x) [] h = ground arith
eq_of_compare (a ∷ x) (b ∷ y) h = ground (arith, eq_of_compare x y)

pub gt_of_lt : (a b : Bytes) → compare_text a b ≡ lt → compare_text b a ≡ gt
unfolding compare_text
gt_of_lt [] [] h = ground arith
gt_of_lt [] (b ∷ y) h = refl
gt_of_lt (a ∷ x) [] h = ground arith
gt_of_lt (a ∷ x) (b ∷ y) h = ground (arith, gt_of_lt x y)

pub lt_of_gt : (a b : Bytes) → compare_text a b ≡ gt → compare_text b a ≡ lt
unfolding compare_text
lt_of_gt [] [] h = ground arith
lt_of_gt [] (b ∷ y) h = ground arith
lt_of_gt (a ∷ x) [] h = refl
lt_of_gt (a ∷ x) (b ∷ y) h = ground (arith, lt_of_gt x y)

pub compare_trans :
    (a b c : Bytes) → compare_text a b ≡ lt → compare_text b c ≡ lt → compare_text a c ≡ lt
unfolding compare_text
compare_trans [] [] c h k = ground arith
compare_trans [] (b ∷ y) [] h k = ground arith
compare_trans [] (b ∷ y) (c ∷ z) h k = refl
compare_trans (a ∷ x) [] c h k = ground arith
compare_trans (a ∷ x) (b ∷ y) [] h k = ground arith
compare_trans (a ∷ x) (b ∷ y) (c ∷ z) h k = ground (arith, compare_trans x y z)

pub compare_cases :
    (a b : Bytes) → (compare_text a b ≡ lt) ⊎ (compare_text a b ≡ eq) ⊎ (compare_text a b ≡ gt)
compare_cases a b = split (compare_text a b)
  where
    split : (o : Ordering) → (o ≡ lt) ⊎ (o ≡ eq) ⊎ (o ≡ gt)
    split lt = inl refl
    split eq = inr (inl refl)
    split gt = inr (inr refl)

pub text_eq→eq : (a b : Bytes) → text_eq a b ≡ true → a ≡ b
text_eq→eq a b h = ground (arith, eq_of_compare a b)

pub text_lt_trans : (a b c : Bytes) → text_lt a b ≡ true → text_lt b c ≡ true → text_lt a c ≡ true
text_lt_trans a b c h k = ground (arith, compare_trans a b c)

-- Of two texts in order neither equals the other.
pub text_ne_of_lt :
    (a b : Bytes) → text_lt a b ≡ true → (text_eq a b ≡ false) × (text_eq b a ≡ false)
text_ne_of_lt a b h = ground (arith, gt_of_lt a b)

pub text_eq_refl : (a : Bytes) → text_eq a a ≡ true
text_eq_refl a = ground (arith, compare_refl a)
