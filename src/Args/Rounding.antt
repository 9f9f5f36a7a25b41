-- ===== src/Args/Rounding.antt =====
-- The sizes of the workload are rounded to whole SST files.
use quarkkv_compaction.Base.{
  ℕ, ◌+◌, ◌-◌, ◌*◌, ◌/◌, ◌%◌, ◌^◌, ◌<◌, ◌≤◌, ◌≡◌, refl, true, Returns, arith, ltb, lt→ltb,
}
use native.Mathlib.Nat.{lt-div-mul-add, div-mul-le_self, mul-mod_left}
use quarkkv_compaction.Args.{round_up}

-- Rounding a number up to a positive unit, while their sum is at most 2 ^ 31, gives a multiple of the
-- unit that is not below the number and less than one unit above it.
pub round_up_bounds :
    (from to : ℕ)
    → 0 < to
    → from + to ≤ 2 ^ 31
    → Returns (round_up from to) λ n. (from ≤ n) × (n < from + to) × (n % to ≡ 0)
unfolding round_up
round_up_bounds from to positive small =
    let q = (from + to - 1) / to * to in
    let lower = lt-div-mul-add {a = from + to - 1} {b = to} positive in
    let upper = div-mul-le_self (from + to - 1) to in
    let wrapped : (from + to + 2 ^ 64 - 1) % 2 ^ 64 ≡ from + to - 1 = omega arith in
    let low : q % 2 ^ 32 ≡ q = omega arith in
    let positive_int : ltb q (2 ^ 31) ≡ true = ground arith in
    (
      q,
      rw (lt→ltb 0 to positive, wrapped, low, positive_int) refl,
      (omega (arith, lower), omega (arith, upper), mul-mod_left ((from + to - 1) / to) to),
    )
