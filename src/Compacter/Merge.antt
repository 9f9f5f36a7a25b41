-- ===== src/Compacter/Merge.antt =====
-- The loop of `doCompaction`: what has been written when it ends.
use quarkkv_compaction.Base.{
  ℕ, zero, suc, ◌+◌, ◌*◌, ◌^◌, ◌<◌, ◌≤◌, ◌≡◌, ◌≢◌, refl, ap, ◌∙◌, inl, inr, true, false, Option,
  some, List, [], ◌∷◌, arith, length, Result, ok, Returns, u32, Bool-cases, >>=-eq-ok,
}
use quarkkv_compaction.Std.Ordered.{All}
use quarkkv_compaction.Config.{Config, quarkstore_append}
use quarkkv_compaction.Config.Sizes.{IsVerified}
use quarkkv_compaction.KvPair.{KvPair}
use quarkkv_compaction.Device.{Device, IsReliable}
use quarkkv_compaction.Sst.{Sst}
use quarkkv_compaction.Sst.Layout.{IsPair}
use quarkkv_compaction.Iterators.{CompactionIterator, next_compaction}
use quarkkv_compaction.Iterators.Kv.{Yields}
use quarkkv_compaction.Compacter.{State, room_for_pair, merge, merge_loop, same_key, ts_before}
use quarkkv_compaction.Compacter.Dedup.{
  first_of_runs, IsBelow, IsMerged, IsAfter, length-file_all, above_prev, passed_over,
}
use quarkkv_compaction.Compacter.Tables.{IsIntact, IsReady, IsBuilding}
use quarkkv_compaction.Compacter.Extends.{tables, Extends, Extends-trans, stay}
use quarkkv_compaction.Compacter.Steps.{add-Extends}

abbrev count_duplicate : {d : Device} → State d → State d
count_duplicate st = record st {
  stats = record st.stats { duplicate = u32 (st.stats.duplicate + 1) };
}

-- one round of the loop, on each of its branches
module _ (d : Device) (c : Config) (tries level fuel : ℕ) (ci ci' : CompactionIterator)
    (prev : Option KvPair) (kv : KvPair) (at : ci.ptr ≡ some kv) where
  merge_loop-skip :
      (s : Sst) (st : State d)
      → same_key prev kv ≡ true
      → ts_before prev kv ≡ true
      → next_compaction d c ci st.world ≡ ok ci'
      → merge_loop d c tries level (suc fuel) ci prev s st
        ≡ merge_loop d c tries level fuel ci' (some kv) s (count_duplicate st)
  unfolding merge_loop
  merge_loop-skip s st same later step = rw (at, merge_loop, same, later, step) refl

  merge_loop-add :
      (s s₁ s₂ : Sst) (st st₁ st₂ : State d)
      → same_key prev kv ≡ false
      → room_for_pair d c tries level s st ≡ ok (s₁, st₁)
      → merge d c kv s₁ st₁ ≡ ok (s₂, st₂)
      → next_compaction d c ci st₂.world ≡ ok ci'
      → merge_loop d c tries level (suc fuel) ci prev s st
        ≡ merge_loop d c tries level fuel ci' (some kv) s₂ st₂
  unfolding merge_loop
  merge_loop-add s s₁ s₂ st st₁ st₂ other found added step =
      rw (at, merge_loop, other, found, added, step) refl

module _ (d : Device) (w₀ : d.World) (IsSource : ℕ → Type 0) (level cap : ℕ) where
  open d use {World}

  module _ (c : Config) (v : IsVerified c) (rel : IsReliable d)
      (copies : c.engine ≢ quarkstore_append) (capacity : c.sst_file_size ≡ cap * 4096)
      (some_room : 0 < cap) (offsets : cap * 4096 < 2 ^ 32) where
    -- A pair that is passed over leaves the tables as they are.
    skip-Extends :
        (st : State d) (s : Sst) (cur out : List KvPair) (n : ℕ) (r : Sst × State d)
        → (e : Extends d w₀ IsSource level cap (count_duplicate st) s cur out n r)
        → (e' : Extends d w₀ IsSource level cap st s cur out (suc n) r) × (e'.rest ≡ e.rest)
    skip-Extends st s cur out n r e = (
      record {
        done = e.done;
        rest = e.rest;
        building = e.building;
        ready = e.ready;
        full = e.full;
        apart = e.apart;
        pairs = e.pairs;
        filed = e.filed;
        made = omega (arith, e.made);
        counted = e.counted;
        room = e.room;
        kept = e.kept;
        new = e.new;
      },
      refl,
    )

    -- What the loop returns: `kvs` is what the iterator still gives, and `prev` the pair before.
    abbrev pub Merges :
        Option KvPair → List KvPair → State d → Sst → List KvPair → Result (Sst × State d) → Type 0
    Merges prev kvs st s cur result = Returns result λ r.
        (e : Extends d w₀ IsSource level cap st s cur (first_of_runs prev kvs) (length kvs) r) × (0
            < length cur + length kvs
          → 0 < length e.rest)

    pub merge_loop-Merges :
        (tries fuel : ℕ) (kvs : List KvPair) (ci : CompactionIterator) (prev : Option KvPair)
        (s : Sst) (st : State d) (cur : List KvPair)
        → Yields (next_compaction d c) (λ i. i.ptr) (IsIntact d w₀ IsSource) ci kvs
        → length kvs < fuel
        → IsBuilding d w₀ IsSource st.world s cur
        → IsReady d w₀ IsSource st
        → length cur ≤ cap
        → level < length st.levels
        → st.manager.ctr + length kvs ≤ 2 ^ 31
        → All IsPair kvs
        → IsMerged kvs
        → IsAfter prev kvs
        → IsBelow prev cur
        → Merges prev kvs st s cur (merge_loop d c (suc tries) level fuel ci prev s st)
    unfolding merge_loop first_of_runs stay Extends-trans
    merge_loop-Merges tries zero kvs ci prev s st cur y enough b ready room there low p m after
          below =
        absurd (omega arith)
    merge_loop-Merges tries (suc fuel) [] ci prev s st cur y enough b ready room there low p m after
          below =
        (
          (s, st),
          rw y refl,
          (stay d w₀ IsSource level cap 0 st s cur b ready room, λ h. omega arith),
        )
    merge_loop-Merges tries (suc fuel) (kv ∷ kvs) ci prev s st cur y enough b ready room there low p
          m after below =
        let (at, (ci', step, rest)) = y in
        elim (Bool-cases (same_key prev kv)) [
          | inl same ↦
              let (later, below') = passed_over prev kv kvs cur same after below in
              let (r, run, (e, left)) =
                merge_loop-Merges tries fuel kvs ci' (some kv) s (count_duplicate st) cur rest
                  (omega arith) b ready room there (omega arith) p.1 m.1 m.0 below' in
              let (e', kept) =
                skip-Extends st s cur (first_of_runs (some kv) kvs) (length kvs) r e in
              (
                r,
                merge_loop-skip d c (suc tries) level fuel ci ci' prev kv at s st same later
                      (step st.world ready.intact)
                    ∙ run,
                rw same (e', λ h. omega (arith, left (omega (arith, below'.0)), ap length kept)),
              )
          | inr other ↦
              let (r₂, run₂, (e₂, fits, below₂)) =
                add-Extends d w₀ IsSource level cap c v rel copies capacity some_room offsets tries
                  kv s st cur b ready p.0 (above_prev prev kv kvs cur other after below) room there
                  (omega arith) in
              let (r₁, added, found) =
                >>=-eq-ok (room_for_pair d c (suc tries) level s st) _ run₂ in
              let there₂ : level < length r₂.1.levels =
                omega
                  (arith, ap length e₂.filed, length-file_all level (tables e₂.done) st.levels) in
              let (r, run, (e, left)) =
                merge_loop-Merges tries fuel kvs ci' (some kv) r₂.0 r₂.1 e₂.rest rest (omega arith)
                  e₂.building e₂.ready fits there₂ (omega (arith, e₂.made)) p.1 m.1 m.0 below₂ in
              (
                r,
                merge_loop-add d c (suc tries) level fuel ci ci' prev kv at s r₁.0 r₂.0 st r₁.1 r₂.1
                      other found added (step r₂.1.world e₂.ready.intact)
                    ∙ run,
                rw other (
                  Extends-trans d w₀ IsSource level cap st r₂.1 s r₂.0 cur (kv ∷ [])
                      (first_of_runs (some kv) kvs) 1 (length kvs) (suc (length kvs)) r
                      (omega arith) e₂ e,
                  λ h. left (omega (arith, below₂.0)),
                ),
              )
        ]
