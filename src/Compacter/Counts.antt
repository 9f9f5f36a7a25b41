-- ===== src/Compacter/Counts.antt =====
-- The identifiers of the tables stay below the counter, over `doCompaction` and `Compact`.
use quarkkv_compaction.Base.{
  ℕ, zero, suc, ◌+◌, ◌-◌, ◌^◌, ◌<◌, ◌≤◌, ◌≡◌, sym, subst, inl, inr, Bool, true, false, ◌&&◌,
  Bool-cases, Option, none, some, Option-cases, List, arith, Result, ok, require, failed, aborted,
  ltb, leb, ◌==◌, u32, length, ◌>>=◌, ◌>>◌, >>=-eq-ok,
}
use quarkkv_compaction.Config.{Config, max_size_of_level}
use quarkkv_compaction.KvPair.{KvPair}
use quarkkv_compaction.Device.{Device, KeepsIds}
use quarkkv_compaction.Sst.{Sst}
use quarkkv_compaction.SstManager.{SstManager}
use quarkkv_compaction.Iterators.{
  CompactionIterator, new_compaction, seek_compaction_to_first, next_compaction, marked,
}
use quarkkv_compaction.Compacter.{
  State, cleared, add_stats, level_at, same_key, ts_before, merge, finish_sst_file, new_sst,
  room_for_pair, merge_loop, remove_compacted, do_compaction,
}
use quarkkv_compaction.Compacter.Select.{
  mark_level, mark_upper_level, init_empty_level, verify, compact_marked, compact_level,
  compact_levels, compact,
}
use quarkkv_compaction.Compacter.Picked.{mark_upper_level-AreBelow}
use quarkkv_compaction.Compacter.Numbered.{
  IsCounted, AreBelow, mark_level-AreBelow, init_empty_level-AreBelow,
}
use quarkkv_compaction.Compacter.Counted.{
  merge-Counted, new_sst-Counted, finish_sst_file-Counted, room_for_pair-Counted,
  remove_compacted-Counted,
}

module _ (d : Device) (keeps : KeepsIds d) (c : Config) (tries : ℕ) (few : tries ≤ 2 ^ 31) where
  -- a round of the loop that passes over a pair, and one that adds it
  abbrev skip_pair :
      ℕ → ℕ → CompactionIterator → Option KvPair → KvPair → Sst → State d → Result (Sst × State d)
  skip_pair level fuel ci prev pair s st = do
    require (ts_before prev pair) aborted
    ci' ← next_compaction d c ci st.world
    let stats = st.stats
    merge_loop d c tries level fuel ci' (some pair) s
        (record st { stats = record stats { duplicate = u32 (stats.duplicate + 1) } })

  abbrev add_pair : ℕ → ℕ → CompactionIterator → KvPair → Sst → State d → Result (Sst × State d)
  add_pair level fuel ci pair s st = do
    (s₁, st₁) ← room_for_pair d c tries level s st
    (s₂, st₂) ← merge d c pair s₁ st₁
    ci' ← next_compaction d c ci st₂.world
    merge_loop d c tries level fuel ci' (some pair) s₂ st₂

  merge_loop-Counted :
      (level fuel : ℕ) (ci : CompactionIterator) (prev : Option KvPair) (s s' : Sst)
      (st st' : State d)
      → merge_loop d c tries level fuel ci prev s st ≡ ok (s', st')
      → IsCounted d st
      → s.id < st.manager.ctr
      → IsCounted d st' × (s'.id < st'.manager.ctr)
  unfolding merge_loop
  merge_loop-Counted level zero ci prev s s' st st' e h low = absurd (ground arith)
  merge_loop-Counted level (suc fuel) ci prev s s' st st' e h low = elim (Option-cases ci.ptr) [
    | inl end ↦
        let same : (let r : Sst × State d = (s, st) in r) ≡ (s', st') = ground arith in
        subst (λ r. IsCounted d r.1 × (r.0.id < r.1.manager.ctr)) same (h, low)
    | inr (pair, at) ↦ elim (Bool-cases (same_key prev pair)) [
      | inl again ↦
          let e₀ : skip_pair level fuel ci prev pair s st ≡ ok (s', st') = ground arith in
          let (u, e₁, later) = >>=-eq-ok (require (ts_before prev pair) aborted) _ e₀ in
          let (ci', e₂, moved) = >>=-eq-ok (next_compaction d c ci st.world) _ e₁ in
          merge_loop-Counted level fuel ci' (some pair) s s' _ st' e₂ h low
      | inr new ↦
          let e₀ : add_pair level fuel ci pair s st ≡ ok (s', st') = ground arith in
          let ((s₁, st₁), e₁, room) = >>=-eq-ok (room_for_pair d c tries level s st) _ e₀ in
          let (h₁, low₁) = room_for_pair-Counted d keeps c tries few level s s₁ st st₁ room h low in
          let ((s₂, st₂), e₂, merged) = >>=-eq-ok (merge d c pair s₁ st₁) _ e₁ in
          let (id, levels, manager) = merge-Counted d keeps c tries few pair s₁ s₂ st₁ st₂ merged in
          let (ci', e₃, moved) = >>=-eq-ok (next_compaction d c ci st₂.world) _ e₂ in
          let h₂ : IsCounted d st₂ =
            subst (λ l. AreBelow st₂.manager.ctr l) (sym levels)
              (subst (λ (m : SstManager). AreBelow m.ctr st₁.levels) (sym manager) h₁) in
          let low₂ : s₂.id < st₂.manager.ctr =
            subst (λ (m : SstManager). s₂.id < m.ctr) (sym manager)
              (subst (λ n. n < st₁.manager.ctr) (sym id) low₁) in
          merge_loop-Counted level fuel ci' (some pair) s₂ s' st₂ st' e₃ h₂ low₂
    ]
  ]

  pub do_compaction-Counted :
      (fuel level : ℕ) (ci : CompactionIterator) (to_compact : List Sst) (st st' : State d)
      → do_compaction d c tries fuel ci to_compact level st ≡ ok st'
      → IsCounted d st
      → IsCounted d st'
  unfolding do_compaction
  do_compaction-Counted fuel level ci to_compact st st' e h =
      let ((s₀, st₀), e₁, made) = >>=-eq-ok (new_sst d c tries st) _ e in
      let (h₀, low₀) = new_sst-Counted d keeps c tries few s₀ st st₀ made h in
      let ((s₁, st₁), e₂, merged) =
        >>=-eq-ok (merge_loop d c tries level fuel ci none s₀ st₀) _ e₁ in
      let (h₁, low₁) = merge_loop-Counted level fuel ci none s₀ s₁ st₀ st₁ merged h₀ low₀ in
      let (st₂, e₃, finished) = >>=-eq-ok (finish_sst_file d c s₁ level st₁) _ e₂ in
      let h₂ = finish_sst_file-Counted d keeps c tries few s₁ level st₁ st₂ finished h₁ low₁ in
      let (st₃, e₄, removed) = >>=-eq-ok (remove_compacted d to_compact st₂) _ e₃ in
      let (u, e₅, few_new) =
        >>=-eq-ok (require (leb st₃.stats.new_ssts (length to_compact)) aborted) _ e₄ in
      let same : st₃ ≡ st' = ground arith in
      subst (IsCounted d) same
        (remove_compacted-Counted d keeps c tries few to_compact st₂ st₃ removed h₂)

  compact_marked-Counted :
      (fuel level : ℕ) (st st' : State d)
      → compact_marked d c tries fuel level st ≡ ok st'
      → IsCounted d st
      → IsCounted d st'
  unfolding compact_marked
  compact_marked-Counted fuel level st st' e h =
      let (ci₀, e₁, made) = >>=-eq-ok (new_compaction d c st.levels st.world) _ e in
      let (ci, e₂, sought) = >>=-eq-ok (seek_compaction_to_first d c ci₀) _ e₁ in
      let (upper, e₃, at) = >>=-eq-ok (level_at level st.levels) _ e₂ in
      let (lower, e₄, below) = >>=-eq-ok (level_at (level + 1) st.levels) _ e₃ in
      do_compaction-Counted fuel (level + 1) ci _ st st' e₄ h

  -- the two ways to go on from a level that is too large
  abbrev move_level : ℕ → State d → Result (Bool × State d)
  move_level level st = do
    st₁ ← mark_upper_level d c level st
    levels ← init_empty_level level st₁.levels
    ok (false, record st₁ { levels = levels })

  abbrev merge_levels : ℕ → ℕ → State d → Result (Bool × State d)
  merge_levels fuel level st = do
    st₁ ← mark_upper_level d c level st
    levels ← mark_level (level + 1) st₁.levels
    let st₂ = record st₁ { levels = levels }
    st₃ ← compact_marked d c tries fuel level st₂
    verified ← verify (level + 1) st₃.levels
    require verified failed
    let stats = record st₃.stats { compactions = u32 (st₃.stats.compactions + 1) }
    ok (true, record st₃ { stats = cleared; total = add_stats st₃.total stats })

  move_level-Counted :
      (level : ℕ) (on : Bool) (st st' : State d)
      → move_level level st ≡ ok (on, st')
      → IsCounted d st
      → IsCounted d st'
  move_level-Counted level on st st' e h =
      let (st₁, e₁, marked) = >>=-eq-ok (mark_upper_level d c level st) _ e in
      let (h₁, count) = mark_upper_level-AreBelow d c st.manager.ctr level st st₁ h marked in
      let (levels, e₂, moved) = >>=-eq-ok (init_empty_level level st₁.levels) _ e₁ in
      let same : (let r : State d = record st₁ { levels = levels } in r) ≡ st' = ground arith in
      subst (IsCounted d) same (
        subst (λ n. AreBelow n levels) (sym count)
          (init_empty_level-AreBelow st.manager.ctr level st₁.levels levels h₁ moved))

  merge_levels-Counted :
      (fuel level : ℕ) (on : Bool) (st st' : State d)
      → merge_levels fuel level st ≡ ok (on, st')
      → IsCounted d st
      → IsCounted d st'
  merge_levels-Counted fuel level on st st' e h =
      let (st₁, e₁, marked) = >>=-eq-ok (mark_upper_level d c level st) _ e in
      let (h₁, count) = mark_upper_level-AreBelow d c st.manager.ctr level st st₁ h marked in
      let (levels, e₂, all_marked) = >>=-eq-ok (mark_level (level + 1) st₁.levels) _ e₁ in
      let st₂ : State d = record st₁ { levels = levels } in
      let h₂ : IsCounted d st₂ =
        subst (λ n. AreBelow n levels) (sym count)
          (mark_level-AreBelow st.manager.ctr (level + 1) st₁.levels levels h₁ all_marked) in
      let (st₃, e₃, compacted) = >>=-eq-ok (compact_marked d c tries fuel level st₂) _ e₂ in
      let h₃ = compact_marked-Counted fuel level st₂ st₃ compacted h₂ in
      let (verified, e₄, looked) = >>=-eq-ok (verify (level + 1) st₃.levels) _ e₃ in
      let (u, e₅, sound) = >>=-eq-ok (require verified failed) _ e₄ in
      let same : (st₃.levels ≡ st'.levels) × (st₃.manager ≡ st'.manager) = ground arith in
      subst (λ (m : SstManager). AreBelow m.ctr st'.levels) same.1
        (subst (AreBelow st₃.manager.ctr) same.0 h₃)

  compact_level-Counted :
      (fuel level : ℕ) (on : Bool) (st st' : State d)
      → compact_level d c tries fuel level st ≡ ok (on, st')
      → IsCounted d st
      → IsCounted d st'
  unfolding compact_level
  compact_level-Counted fuel level on st st' e h =
      let (l1, e₁, at) = >>=-eq-ok (level_at level st.levels) _ e in
      let (l2, e₂, below) = >>=-eq-ok (level_at (level + 1) st.levels) _ e₁ in
      let (size, e₃, limit) = >>=-eq-ok (max_size_of_level c level) _ e₂ in
      elim (Bool-cases (leb (length l1) size)) [
        | inl small ↦ let same : st ≡ st' = ground arith in subst (IsCounted d) same h
        | inr large ↦ elim (Bool-cases (ltb 0 level && (length l2 == 0))) [
          | inl empty ↦ move_level-Counted level on st st' (ground arith) h
          | inr there ↦ merge_levels-Counted fuel level on st st' (ground arith) h
        ]
      ]

  compact_levels-Counted :
      (fuel left level : ℕ) (st st' : State d)
      → compact_levels d c tries fuel left level st ≡ ok st'
      → IsCounted d st
      → IsCounted d st'
  unfolding compact_levels
  compact_levels-Counted fuel zero level st st' e h =
      let same : st ≡ st' = ground arith in subst (IsCounted d) same h
  compact_levels-Counted fuel (suc left) level st st' e h =
      let ((on, st₁), e₁, ran) = >>=-eq-ok (compact_level d c tries fuel level st) _ e in
      let h₁ = compact_level-Counted fuel level on st st₁ ran h in
      elim (Bool-cases on) [
        | inl more ↦ compact_levels-Counted fuel left (level + 1) st₁ st' (ground arith) h₁
        | inr stop ↦ let same : st₁ ≡ st' = ground arith in subst (IsCounted d) same h₁
      ]

  pub compact-Counted :
      (fuel : ℕ) (st st' : State d)
      → compact d c tries fuel st ≡ ok st'
      → IsCounted d st
      → IsCounted d st'
  unfolding compact
  compact-Counted fuel st st' e h =
      let (u, e₁, sized) = >>=-eq-ok (require (length st.levels == c.n_levels) aborted) _ e in
      let (level0, e₂, at) = >>=-eq-ok (level_at 0 st.levels) _ e₁ in
      let (v, e₃, several) = >>=-eq-ok (require (ltb 1 (length level0)) aborted) _ e₂ in
      compact_levels-Counted fuel (length st.levels - 1) 0 _ st' e₃ h
