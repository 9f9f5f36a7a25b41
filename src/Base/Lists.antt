-- ===== src/Base/Lists.antt =====
-- Sequences measured and indexed by native numbers, under the library's names.
use Prim.Native.Nat.{ℕ, zero, suc, ◌+◌, ◌-◌, ◌≤◌, min}
use mathlib.Core.Path.{◌≡◌, refl, ap, ◌∙◌}
use mathlib.Core.List.{List, [], ◌∷◌, ◌++◌, append-nil}
use mathlib.Core.Option.{Option, none, some}
use native.Mathlib.Omega.{arith}

module _ {ℓ} {A : Type ℓ} where
  abbrev pub length : List A → ℕ
  length [] = 0
  length (x ∷ xs) = suc (length xs)

  abbrev pub get_elem? : List A → ℕ → Option A
  get_elem? [] i = none
  get_elem? (x ∷ xs) zero = some x
  get_elem? (x ∷ xs) (suc i) = get_elem? xs i

  -- A write out of bounds changes nothing.
  abbrev pub set : List A → ℕ → A → List A
  set [] i v = []
  set (x ∷ xs) zero v = v ∷ xs
  set (x ∷ xs) (suc i) v = x ∷ set xs i v

  unfoldable pub take : ℕ → List A → List A
  take zero xs = []
  take (suc n) [] = []
  take (suc n) (x ∷ xs) = x ∷ take n xs

  unfoldable pub drop : ℕ → List A → List A
  drop zero xs = xs
  drop (suc n) [] = []
  drop (suc n) (x ∷ xs) = drop n xs

  unfoldable pub replicate : ℕ → A → List A
  replicate zero a = []
  replicate (suc n) a = a ∷ replicate n a

  unfoldable pub concat : List (List A) → List A
  concat [] = []
  concat (l ∷ ls) = l ++ concat ls

  pub length-append : (xs ys : List A) → length (xs ++ ys) ≡ length xs + length ys
  length-append [] ys = omega arith
  length-append (x ∷ xs) ys = omega (arith, length-append xs ys)

  pub length-replicate : (n : ℕ) (a : A) → length (replicate n a) ≡ n
  unfolding replicate
  length-replicate zero a = refl
  length-replicate (suc n) a = ap suc (length-replicate n a)

  pub length-take : (n : ℕ) (xs : List A) → length (take n xs) ≡ min n (length xs)
  unfolding take
  length-take zero xs = omega arith
  length-take (suc n) [] = omega arith
  length-take (suc n) (x ∷ xs) = omega (arith, length-take n xs)

  -- The first part of a concatenation, and what is behind it.
  pub take-append_left : (xs ys : List A) (n : ℕ) → n ≡ length xs → take n (xs ++ ys) ≡ xs
  unfolding take
  take-append_left [] ys zero h = refl
  take-append_left [] ys (suc n) h = absurd (omega arith)
  take-append_left (x ∷ xs) ys zero h = absurd (omega arith)
  take-append_left (x ∷ xs) ys (suc n) h = ap (◌∷◌ x) (take-append_left xs ys n (omega arith))

  pub drop-append_left : (xs ys : List A) (n : ℕ) → n ≡ length xs → drop n (xs ++ ys) ≡ ys
  unfolding drop
  drop-append_left [] ys zero h = refl
  drop-append_left [] ys (suc n) h = absurd (omega arith)
  drop-append_left (x ∷ xs) ys zero h = absurd (omega arith)
  drop-append_left (x ∷ xs) ys (suc n) h = drop-append_left xs ys n (omega arith)

  pub take-length : (xs : List A) (n : ℕ) → n ≡ length xs → take n xs ≡ xs
  unfolding take
  take-length [] zero h = refl
  take-length [] (suc n) h = refl
  take-length (x ∷ xs) zero h = absurd (omega arith)
  take-length (x ∷ xs) (suc n) h = ap (◌∷◌ x) (take-length xs n (omega arith))

  pub length-drop : (n : ℕ) (xs : List A) → length (drop n xs) ≡ length xs - n
  unfolding drop
  length-drop zero xs = omega arith
  length-drop (suc n) [] = omega arith
  length-drop (suc n) (x ∷ xs) = omega (arith, length-drop n xs)

  -- A prefix that is dropped whole.
  pub drop-append : (xs ys : List A) (m n : ℕ) → m ≡ length xs + n → drop m (xs ++ ys) ≡ drop n ys
  unfolding drop
  drop-append [] ys m n h = ap (λ (t : ℕ). drop t ys) (omega arith)
  drop-append (x ∷ xs) ys zero n h = absurd (omega arith)
  drop-append (x ∷ xs) ys (suc m) n h = drop-append xs ys m n (omega arith)

  pub take-append :
      (xs ys : List A) (m n : ℕ) → m ≡ length xs + n → take m (xs ++ ys) ≡ xs ++ take n ys
  unfolding take
  take-append [] ys m n h = ap (λ (t : ℕ). take t ys) (omega arith)
  take-append (x ∷ xs) ys zero n h = absurd (omega arith)
  take-append (x ∷ xs) ys (suc m) n h = ap (◌∷◌ x) (take-append xs ys m n (omega arith))

  -- The element behind a prefix, and a write to it.
  pub get_elem?-append_right :
      (pre xs : List A) (x : A) (i : ℕ) → i ≡ length pre → get_elem? (pre ++ x ∷ xs) i ≡ some x
  get_elem?-append_right [] xs x zero e = refl
  get_elem?-append_right [] xs x (suc i) e = absurd (omega arith)
  get_elem?-append_right (y ∷ pre) xs x zero e = absurd (omega arith)
  get_elem?-append_right (y ∷ pre) xs x (suc i) e = get_elem?-append_right pre xs x i (omega arith)

  pub get_elem?-none : (xs : List A) (i : ℕ) → length xs ≤ i → get_elem? xs i ≡ none
  get_elem?-none [] i h = refl
  get_elem?-none (x ∷ xs) zero h = absurd (omega arith)
  get_elem?-none (x ∷ xs) (suc i) h = get_elem?-none xs i (omega arith)

  pub set-append_right :
      (pre xs : List A) (x y : A) (i : ℕ) → i ≡ length pre → set (pre ++ x ∷ xs) i y ≡ pre ++ y ∷ xs
  set-append_right [] xs x y zero e = refl
  set-append_right [] xs x y (suc i) e = absurd (omega arith)
  set-append_right (z ∷ pre) xs x y zero e = absurd (omega arith)
  set-append_right (z ∷ pre) xs x y (suc i) e =
      ap (◌∷◌ z) (set-append_right pre xs x y i (omega arith))

  pub drop-beyond : (n : ℕ) (xs : List A) → length xs ≤ n → drop n xs ≡ []
  unfolding drop
  drop-beyond zero [] h = refl
  drop-beyond zero (x ∷ xs) h = absurd (omega arith)
  drop-beyond (suc n) [] h = refl
  drop-beyond (suc n) (x ∷ xs) h = drop-beyond n xs (omega arith)

  -- What is written over the end of a sequence is appended.
  pub overwrite_end :
      (n : ℕ) (new old : List A)
      → n ≡ length old
      → take n old ++ (new ++ drop (n + length new) old) ≡ old ++ new
  overwrite_end n new old e =
      ap (λ l. l ++ (new ++ drop (n + length new) old)) (take-length old n e)
      ∙ ap (λ l. old ++ (new ++ l)) (drop-beyond (n + length new) old (omega arith))
      ∙ ap (◌++◌ old) (append-nil new)
