-- ===== src/KvPair/Hex.antt =====
-- The hexadecimal time stamp that ends a pair's block can be read back.
use quarkkv_compaction.Base.{
  ℕ, zero, suc, ◌+◌, ◌*◌, ◌/◌, ◌%◌, ◌^◌, ◌<◌, ◌≡◌, refl, some, List, [], ◌∷◌, ◌++◌, arith, ok,
  length, length-append, append_assoc, append-nil, ap, sym, lt→ltb, ◌∙◌,
}
use native.Mathlib.Nat.{pow-suc}
use quarkkv_compaction.KvPair.{hex_digit, hex_text, digit_value, scan_hex, to_64_bits, stoull}

digit_value-hex_digit : (d : ℕ) → d < 16 → digit_value (hex_digit d) ≡ some d
unfolding digit_value hex_digit
digit_value-hex_digit d h = ground arith

pub length-hex_text : (w n : ℕ) → length (hex_text w n) ≡ w
unfolding hex_text
length-hex_text zero n = refl
length-hex_text (suc w) n = omega (arith, length-hex_text w (n / 16), length-append {0})

scan_hex_step :
    (n c : ℕ) (cs : List ℕ) (d : ℕ)
    → digit_value c ≡ some d
    → scan_hex n (c ∷ cs) ≡ scan_hex (n * 16 + d) cs
unfolding scan_hex
scan_hex_step n c cs d h = rw (h, scan_hex)

scan_hex-hex_text :
    (w n a : ℕ) (rest : List ℕ)
    → n < 16 ^ w
    → scan_hex a (hex_text w n ++ rest) ≡ scan_hex (a * 16 ^ w + n) rest
unfolding hex_text scan_hex
scan_hex-hex_text zero n a rest h = ap (λ (t : ℕ). scan_hex t rest) (omega arith)
scan_hex-hex_text (suc w) n a rest h =
    let digit = hex_digit (n % 16) in
    let fits : n < 16 ^ w * 16 = rw pow-suc at h in
    rw append_assoc (
      rw (scan_hex-hex_text w (n / 16) a (digit ∷ rest) (omega arith)) (
        scan_hex_step (a * 16 ^ w + n / 16) digit rest _
          (digit_value-hex_digit (n % 16) (omega arith))
        ∙ ap (λ (t : ℕ). scan_hex t rest) (rw pow-suc (omega arith))))

stoull_scan :
    (c : ℕ) (cs : List ℕ) (d : ℕ)
    → digit_value c ≡ some d
    → stoull (c ∷ cs) ≡ to_64_bits (scan_hex d cs)
unfolding stoull
stoull_scan c cs d h = rw (h, stoull)

-- What starts with a digit is scanned from zero.
stoull-scan_hex :
    (x : ℕ) (w : ℕ) (rest : List ℕ)
    → stoull (hex_text (suc w) x ++ rest) ≡ to_64_bits (scan_hex 0 (hex_text (suc w) x ++ rest))
unfolding hex_text
stoull-scan_hex x zero rest =
    let digit = digit_value-hex_digit (x % 16) (omega arith) in
    stoull_scan (hex_digit (x % 16)) rest (x % 16) digit
    ∙ ap to_64_bits (
        ap (λ (t : ℕ). scan_hex t rest) (omega arith)
        ∙ sym (scan_hex_step 0 (hex_digit (x % 16)) rest (x % 16) digit))
stoull-scan_hex x (suc w) rest =
    rw append_assoc (stoull-scan_hex (x / 16) w (hex_digit (x % 16) ∷ rest))

-- The digits of a number below 2 ^ 64, at a width that holds it, are read back as that number.
pub stoull-hex_text : (w n : ℕ) → n < 16 ^ suc w → n < 2 ^ 64 → stoull (hex_text (suc w) n) ≡ ok n
unfolding scan_hex
stoull-hex_text w n h fits = rw (← append-nil (hex_text (suc w) n)) (
    stoull-scan_hex n w []
    ∙ ap to_64_bits {y = n} (scan_hex-hex_text (suc w) n 0 [] h ∙ omega arith)
    ∙ rw (lt→ltb n (2 ^ 64) fits) refl)
