-- ===== src/Std/Decimal.antt =====
-- Decimal digits, as `std::decimal` and a stream with a fill write them, and that they tell numbers
-- apart.
use quarkkv_compaction.Base.{
  ℕ, zero, suc, ◌+◌, ◌-◌, ◌*◌, ◌/◌, ◌%◌, ◌^◌, ◌<◌, ◌≤◌, ◌≡◌, refl, ap, ◌∙◌, false, [], ◌∷◌, ◌++◌,
  append_assoc, arith, ltb, ◌==◌, if◌then◌else◌, length, length-append, replicate, Bool-cases, inl,
  inr,
}
use quarkkv_compaction.Std.Text.{Bytes}
use quarkkv_compaction.Std.Ordered.{All, All-append}

-- at most `fuel` digits; 20 of them write any number of 64 bits
unfoldable pub digits : ℕ → ℕ → Bytes
digits zero n = []
digits (suc fuel) n =
    let higher = digits fuel (n / 10) in (if ltb n 10 then [] else higher) ++ (b'0' + n % 10) ∷ []

unfoldable pub decimal : ℕ → Bytes
decimal n = digits 20 n

-- std::setw(width) << std::setfill('0')
unfoldable pub zero_padded : ℕ → ℕ → Bytes
zero_padded width n = replicate (width - length (decimal n)) b'0' ++ decimal n

-- the number that stands before a full stop
unfoldable pub number_before : ℕ → Bytes → ℕ
number_before n [] = n
number_before n (b ∷ bs) =
    let more = number_before (n * 10 + (b - b'0')) bs in if b == b'.' then n else more

tens : ℕ → ℕ
tens zero = 1
tens (suc k) = 10 * tens k

number_before-digit :
    (n d : ℕ) (rest : Bytes)
    → d < 10
    → number_before n ((b'0' + d) ∷ rest) ≡ number_before (n * 10 + d) rest
unfolding number_before
number_before-digit n d rest h =
    let other : ((b'0' + d) == b'.') ≡ false = ground arith in
    rw other (ap (λ (t : ℕ). number_before t rest) (omega arith))

number_before-digits :
    (fuel n : ℕ) (rest : Bytes)
    → n < tens fuel
    → number_before 0 (digits fuel n ++ rest) ≡ number_before n rest
unfolding digits tens
number_before-digits zero n rest h = ap (λ (t : ℕ). number_before t rest) (omega arith)
number_before-digits (suc fuel) n rest h =
    let d : ℕ = n % 10 in
    elim (Bool-cases (ltb n 10)) [
      | inl one ↦ rw one (
          number_before-digit 0 d rest (omega arith)
          ∙ ap (λ (t : ℕ). number_before t rest) (ground arith))
      | inr more ↦ rw more (
          ap (number_before 0) (append_assoc (digits fuel (n / 10)) ((b'0' + d) ∷ []) rest)
          ∙ number_before-digits fuel (n / 10) ((b'0' + d) ∷ rest) (omega arith)
          ∙ number_before-digit (n / 10) d rest (omega arith)
          ∙ ap (λ (t : ℕ). number_before t rest) (omega arith))
    ]

number_before-zeros :
    (k : ℕ) (rest : Bytes) → number_before 0 (replicate k b'0' ++ rest) ≡ number_before 0 rest
unfolding replicate
number_before-zeros zero rest = refl
number_before-zeros (suc k) rest =
    number_before-digit 0 0 (replicate k b'0' ++ rest) (omega arith) ∙ number_before-zeros k rest

pub number_before-decimal :
    (n : ℕ) (rest : Bytes) → n < 2 ^ 32 → number_before 0 (decimal n ++ rest) ≡ number_before n rest
unfolding decimal tens
number_before-decimal n rest h = number_before-digits 20 n rest (omega arith)

-- What is written with a fill is read back.
pub number_before-zero_padded :
    (width n : ℕ) (rest : Bytes)
    → n < 2 ^ 32
    → number_before 0 (zero_padded width n ++ (b'.' ∷ rest)) ≡ n
unfolding zero_padded number_before
number_before-zero_padded width n rest h =
    let zeros : Bytes = replicate (width - length (decimal n)) b'0' in
    ap (number_before 0) (append_assoc zeros (decimal n) (b'.' ∷ rest))
    ∙ number_before-zeros (width - length (decimal n)) (decimal n ++ (b'.' ∷ rest))
    ∙ number_before-decimal n (b'.' ∷ rest) h

length-digits : (fuel n : ℕ) → length (digits fuel n) ≤ fuel
unfolding digits
length-digits zero n = omega arith
length-digits (suc fuel) n = elim (Bool-cases (ltb n 10)) [
  | inl one ↦ rw one (omega arith)
  | inr more ↦ rw more (
      omega (
        arith,
        length-append (digits fuel (n / 10)) ((b'0' + n % 10) ∷ []),
        length-digits fuel (n / 10),
      ))
]

pub length-decimal : (n : ℕ) → length (decimal n) ≤ 20
unfolding decimal
length-decimal n = length-digits 20 n

digits_pos : (fuel n : ℕ) → All (λ (b : ℕ). 0 < b) (digits fuel n)
unfolding digits
digits_pos zero n = tt
digits_pos (suc fuel) n = elim (Bool-cases (ltb n 10)) [
  | inl one ↦ rw one (omega arith, tt)
  | inr more ↦
      rw more (All-append _ (digits fuel (n / 10)) _ (digits_pos fuel (n / 10)) (omega arith, tt))
]

-- No digit is the byte that ends a string.
pub decimal_pos : (n : ℕ) → All (λ (b : ℕ). 0 < b) (decimal n)
unfolding decimal
decimal_pos n = digits_pos 20 n
