-- ===== src/KvPair/Order.antt =====
-- `operator>` orders pairs by key, then by time stamp.
use quarkkv_compaction.Base.{◌≡◌, true, false, arith}
use quarkkv_compaction.Std.Text.{
  compare_refl, eq_of_compare, gt_of_lt, lt_of_gt, compare_trans, compare_cases,
}
use quarkkv_compaction.Std.Ordered.{IsWeakOrder}
use quarkkv_compaction.KvPair.{KvPair, gt}

pub gt_asym : (a b : KvPair) → gt a b ≡ true → gt b a ≡ false
unfolding gt
gt_asym a b h = ground (arith, lt_of_gt a.key b.key, eq_of_compare a.key b.key, compare_refl a.key)

pub gt_trans : (a b c : KvPair) → gt a b ≡ true → gt b c ≡ true → gt a c ≡ true
unfolding gt
gt_trans a b c h k = ground (
  arith,
  lt_of_gt a.key b.key,
  lt_of_gt b.key c.key,
  eq_of_compare a.key b.key,
  eq_of_compare b.key c.key,
  compare_trans c.key b.key a.key,
  gt_of_lt c.key a.key,
)

gt_cotrans : (a b c : KvPair) → gt a b ≡ false → gt b c ≡ false → gt a c ≡ false
unfolding gt
gt_cotrans a b c h k = ground (
  arith,
  gt_of_lt a.key b.key,
  gt_of_lt b.key c.key,
  lt_of_gt b.key a.key,
  lt_of_gt c.key b.key,
  eq_of_compare a.key b.key,
  eq_of_compare b.key c.key,
  compare_refl a.key,
  compare_trans a.key b.key c.key,
  compare_cases a.key b.key,
  compare_cases b.key c.key,
)

-- `operator>` is a strict weak order, as the heap of the iterators asks of its comparison: of two
-- pairs at most one is above the other, and where no pair is above the next one in a row of three
-- the first is not above the third.
pub gt-IsWeakOrder : IsWeakOrder gt
gt-IsWeakOrder = record { asym = gt_asym; cotrans = gt_cotrans }
