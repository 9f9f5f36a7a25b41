-- ===== src/Std/Ordered.antt =====
-- `std::set` as the sequence of its elements in order. `less` is the container's comparator.
use quarkkv_compaction.Base.{
  suc, ◌≤◌, ◌≡◌, refl, inl, inr, Bool, true, false, List, [], ◌∷◌, ◌++◌, arith, length,
  if◌then◌else◌, Bool-cases,
}

-- What the containers ask of a comparator: a strict weak order.
pub record IsWeakOrder {ℓ} {A : Type ℓ} (less : A → A → Bool) : Type ℓ where
  pub asym : (a b : A) → less a b ≡ true → less b a ≡ false
  pub cotrans : (a b c : A) → less a b ≡ false → less b c ≡ false → less a c ≡ false

abbrev pub All {ℓ κ} : {A : Type ℓ} → (A → Type κ) → List A → Type κ
All P [] = Unit
All P (x ∷ xs) = P x × All P xs

pub All-map {ℓ κ μ} :
    {A : Type ℓ} (P : A → Type κ) (Q : A → Type μ) (xs : List A)
    → ((a : A) → P a → Q a)
    → All P xs
    → All Q xs
All-map P Q [] f h = tt
All-map P Q (x ∷ xs) f h = (f x h.0, All-map P Q xs f h.1)

pub All-map₂ {ℓ κ μ ν} :
    {A : Type ℓ} (P : A → Type κ) (Q : A → Type μ) (R : A → Type ν) (xs : List A)
    → ((a : A) → P a → Q a → R a)
    → All P xs
    → All Q xs
    → All R xs
All-map₂ P Q R [] f h k = tt
All-map₂ P Q R (x ∷ xs) f h k = (f x h.0 k.0, All-map₂ P Q R xs f h.1 k.1)

pub All-append {ℓ κ} :
    {A : Type ℓ} (P : A → Type κ) (xs ys : List A) → All P xs → All P ys → All P (xs ++ ys)
All-append P [] ys p q = q
All-append P (x ∷ xs) ys p q = (p.0, All-append P xs ys p.1 q)

module _ {ℓ} {A : Type ℓ} (less : A → A → Bool) where
  -- s.insert(x): an element equivalent to `x` stays, and `x` is dropped
  unfoldable pub insert : A → List A → List A
  insert x [] = x ∷ []
  insert x (y ∷ ys) =
      let rest = insert x ys in
      if less x y then x ∷ y ∷ ys else if less y x then y ∷ rest else y ∷ ys

  -- s.erase(x)
  unfoldable pub erase : A → List A → List A
  erase x [] = []
  erase x (y ∷ ys) =
      let rest = erase x ys in if less x y then y ∷ ys else if less y x then y ∷ rest else ys

  pub insert_nil : (x : A) → insert x [] ≡ x ∷ []
  unfolding insert
  insert_nil x = refl

  pub insert_here : (x y : A) (ys : List A) → less x y ≡ true → insert x (y ∷ ys) ≡ x ∷ y ∷ ys
  unfolding insert
  insert_here x y ys h = rw h

  pub insert_past :
      (x y : A) (ys : List A)
      → less x y ≡ false
      → less y x ≡ true
      → insert x (y ∷ ys) ≡ y ∷ insert x ys
  unfolding insert
  insert_past x y ys h k = rw (h, k)

  pub insert_kept :
      (x y : A) (ys : List A) → less x y ≡ false → less y x ≡ false → insert x (y ∷ ys) ≡ y ∷ ys
  unfolding insert
  insert_kept x y ys h k = rw (h, k)

  pub All-insert {κ} : (P : A → Type κ) (x : A) (ys : List A) → P x → All P ys → All P (insert x ys)
  All-insert P x [] p h = rw (insert_nil x) (p, tt)
  All-insert P x (y ∷ ys) p h = elim (Bool-cases (less x y)) [
    | inl below ↦ rw (insert_here x y ys below) (p, h)
    | inr q ↦ elim (Bool-cases (less y x)) [
      | inl above ↦ rw (insert_past x y ys q above) (h.0, All-insert P x ys p h.1)
      | inr r ↦ rw (insert_kept x y ys q r) h
    ]
  ]

  pub length-insert :
      (x : A) (ys : List A)
      → (length ys ≤ length (insert x ys)) × (length (insert x ys) ≤ suc (length ys))
  unfolding insert
  length-insert x [] = omega arith
  length-insert x (y ∷ ys) = ground (arith, length-insert x ys)

  abbrev pub IsSorted : List A → Type 0
  IsSorted [] = Unit
  IsSorted (x ∷ xs) = All (λ y. less x y ≡ true) xs × IsSorted xs

module _ {ℓ} {A : Type ℓ} {less : A → A → Bool} (w : IsWeakOrder less) where
  less_trans : (a b c : A) → less a b ≡ true → less b c ≡ true → less a c ≡ true
  less_trans a b c h k = ground (arith, w.asym a b, w.asym b c, w.cotrans a c b, w.asym a c)

  insert-above :
      (x y : A) (ys : List A)
      → less x y ≡ true
      → All (λ z. less x z ≡ true) ys
      → All (λ z. less x z ≡ true) (insert less y ys)
  unfolding insert
  insert-above x y [] h k = (h, tt)
  insert-above x y (z ∷ zs) h k = ground (arith, insert-above x y zs)

  -- An insertion keeps the container in order.
  pub insert-IsSorted : (x : A) (xs : List A) → IsSorted less xs → IsSorted less (insert less x xs)
  unfolding insert
  insert-IsSorted x [] h = (tt, tt)
  insert-IsSorted x (y ∷ ys) h = elim (Bool-cases (less x y)) [
    | inl below ↦ rw below ((below, All-map _ _ ys (λ z. less_trans x y z below) h.0), h)
    | inr p ↦ rw p (elim (Bool-cases (less y x)) [
      | inl above ↦ rw above (insert-above y x ys above h.0, insert-IsSorted x ys h.1)
      | inr q ↦ rw q h
    ])
  ]
