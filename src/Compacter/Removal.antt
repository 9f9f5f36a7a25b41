-- ===== src/Compacter/Removal.antt =====
-- `removeCompacted`: the tables that were merged leave their levels, and no other file changes.
use quarkkv_compaction.Base.{
  ℕ, zero, suc, ◌+◌, ◌<◌, ◌≢◌, ◌^◌, ◌≡◌, refl, ap, subst, ◌∙◌, List, [], ◌∷◌, arith, length, set,
  ok, Returns, u32,
}
use quarkkv_compaction.Std.Ordered
use quarkkv_compaction.Std.Ordered.{All, All-map}
use quarkkv_compaction.Device.{Device, IsReliable}
use quarkkv_compaction.Sst
use quarkkv_compaction.Sst.{Sst}
use quarkkv_compaction.Compacter.{State, level_at, remove_compacted}
use quarkkv_compaction.Compacter.Dedup.{drop_from, drop_all, length-drop_from}

set-drop_from :
    (level : ℕ) (s : Sst) (levels : List (List Sst))
    → level < length levels
    → (ssts : List Sst) × (level_at level levels ≡ ok ssts)
      × (set levels level (Ordered.erase Sst.less s ssts) ≡ drop_from level s levels)
unfolding level_at drop_from
set-drop_from level s [] h = absurd (omega arith)
set-drop_from zero s (ssts ∷ levels) h = (ssts, refl, refl)
set-drop_from (suc level) s (ssts ∷ levels) h =
    let (found, at, same) = set-drop_from level s levels (omega arith) in
    (found, at, ap (◌∷◌ ssts) same)

-- What is promised of the files that are not read by a compaction.
abbrev pub KeepsOthers : (d : Device) → (ℕ → Type 0) → d.World → d.World → Type 0
KeepsOthers d IsSource w w' =
    (j : ℕ) → ¬ IsSource j → d.IsOpen w j → d.IsOpen w' j × (d.content w' j ≡ d.content w j)

-- The files of the tables are open, and so are the names of their identifiers taken; no two tables have
-- one file or one identifier.
abbrev pub AreRemovable : (d : Device) → d.World → List Sst → Type 0
AreRemovable d w [] = Unit
AreRemovable d w (s ∷ ssts) =
    d.IsOpen w s.handler
    × (¬ d.IsFree w s.id)
    × (s.id < 2 ^ 31)
    × All (λ t. (s.handler ≢ t.handler) × (t.id ≢ s.id)) ssts
    × AreRemovable d w ssts

-- Removing one table leaves the others to be removed.
removed-AreRemovable :
    (d : Device) (s : Sst) (ssts : List Sst) (w w' : d.World)
    → IsReliable d
    → d.remove s.handler s.id w ≡ ok w'
    → s.id < 2 ^ 31
    → All (λ t. (s.handler ≢ t.handler) × (t.id ≢ s.id)) ssts
    → AreRemovable d w ssts
    → AreRemovable d w' ssts
removed-AreRemovable d s [] w w' rel gone low apart h = tt
removed-AreRemovable d s (t ∷ ssts) w w' rel gone low apart h =
    let (here, taken, small, others, rest) = h in
    (
      (rel.preserves-remove s.handler s.id w w' gone t.handler here apart.0.0).0,
      λ free. taken (rel.taken-remove s.handler s.id t.id w w' gone low small apart.0.1 free),
      small,
      others,
      removed-AreRemovable d s ssts w w' rel gone low apart.1 rest,
    )

pub remove_compacted-drops :
    (d : Device) (IsSource : ℕ → Type 0) (ssts : List Sst) (st : State d)
    → IsReliable d
    → AreRemovable d st.world ssts
    → All (λ t. IsSource t.handler × (t.level < length st.levels)) ssts
    → Returns (remove_compacted d ssts st) λ st'.
      (st'.levels ≡ drop_all ssts st.levels)
      × (st'.stats.new_ssts ≡ st.stats.new_ssts)
      × KeepsOthers d IsSource st.world st'.world
unfolding remove_compacted drop_all
remove_compacted-drops d IsSource [] st rel there h = (st, refl, (refl, refl, λ j no o. (o, refl)))
remove_compacted-drops d IsSource (s ∷ ssts) st rel there h =
    let (here, taken, small, apart, rest) = there in
    let (w', gone) = rel.remove_ok s.handler s.id st.world here taken in
    let (level, at, same) = set-drop_from s.level s st.levels h.0.1 in
    let next : State d = record st {
      levels = set st.levels s.level (Ordered.erase Sst.less s level);
      world = w';
      stats = record st.stats { deleted = u32 (st.stats.deleted + 1) };
    } in
    let long : length next.levels ≡ length st.levels =
      ap length same ∙ length-drop_from s.level s st.levels in
    let (st', run, (levels, count, keeps)) =
      remove_compacted-drops d IsSource ssts next rel
        (removed-AreRemovable d s ssts st.world w' rel gone small apart rest)
        (All-map _ _ ssts (λ t p. (p.0, omega (arith, p.1))) h.1) in
    (
      st',
      rw (at, gone) run,
      (
        levels ∙ ap (drop_all ssts) same,
        count,
        λ j no o.
            let (opened, equal) =
              rel.preserves-remove s.handler s.id st.world w' gone j o
                (λ e. no (subst IsSource e h.0.0)) in
            let (opened', equal') = keeps j no opened in (opened', equal' ∙ equal),
      ),
    )
