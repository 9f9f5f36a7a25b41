-- ===== src/Compacter/Picked.antt =====
-- `markUpperLevelForCompaction` keeps the identifiers of the tables below the counter.
use quarkkv_compaction.Base.{
  ℕ, ◌%◌, ◌≡◌, refl, subst, ◌⊎◌, inl, inr, Bool-cases, Option, none, some, List, arith, Result, ok,
  err, require, aborted, undefined, ltb, length, set, ◌>>=◌, >>=-eq-ok,
}
use quarkkv_compaction.Config.{Config, CompactionPicker, all, one}
use quarkkv_compaction.Device.{Device}
use quarkkv_compaction.Sst.{Sst}
use quarkkv_compaction.SstManager
use quarkkv_compaction.Compacter.{State, level_at}
use quarkkv_compaction.Compacter.Select.{mark_level, mark_table, oldest_table, mark_upper_level}
use quarkkv_compaction.Compacter.Numbered.{
  IsBelow, AreBelow, level_at-IsBelow, set-AreBelow, mark_table-IsBelow, mark_level-AreBelow,
}

picker_cases : (p : CompactionPicker) → (p ≡ all) ⊎ (p ≡ one)
picker_cases all = inl refl
picker_cases one = inr refl

module _ (d : Device) (c : Config) where
  -- the end of `markUpperLevelForCompaction` for level 0
  abbrev mark_oldest : ℕ → List Sst → State d → Option ℕ → Result (State d)
  mark_oldest level ssts st none = err aborted
  mark_oldest level ssts st (some i) = do
    ssts' ← mark_table i ssts
    ok (record st { levels = set st.levels level ssts'; manager = SstManager.tick st.manager })

  mark_oldest-AreBelow :
      (n level : ℕ) (ssts : List Sst) (st st' : State d) (found : Option ℕ)
      → AreBelow n st.levels
      → IsBelow n ssts
      → mark_oldest level ssts st found ≡ ok st'
      → AreBelow n st'.levels × (st'.manager.ctr ≡ st.manager.ctr)
  unfolding SstManager.tick
  mark_oldest-AreBelow n level ssts st st' none h below e = absurd (ground arith)
  mark_oldest-AreBelow n level ssts st st' (some i) h below e =
      let (ssts', e₁, marked) = >>=-eq-ok (mark_table i ssts) _ e in
      let next : State d = record st {
        levels = set st.levels level ssts';
        manager = SstManager.tick st.manager;
      } in
      let same : next ≡ st' = ground arith in
      subst (λ (r : State d). AreBelow n r.levels × (r.manager.ctr ≡ st.manager.ctr)) same
        (
          set-AreBelow n level st.levels ssts' h (mark_table-IsBelow n i ssts ssts' below marked),
          refl,
        )

  pub mark_upper_level-AreBelow :
      (n level : ℕ) (st st' : State d)
      → AreBelow n st.levels
      → mark_upper_level d c level st ≡ ok st'
      → AreBelow n st'.levels × (st'.manager.ctr ≡ st.manager.ctr)
  unfolding mark_upper_level SstManager.tick
  mark_upper_level-AreBelow n level st st' h e =
      let (ssts, e₁, at) = >>=-eq-ok (level_at level st.levels) _ e in
      let below = level_at-IsBelow n level st.levels ssts h at in
      elim (picker_cases c.cp) [
        | inl every ↦
            let e₂ : (mark_level level st.levels >>= λ levels. ok (record st { levels = levels }))
                ≡ ok st' =
              ground arith in
            let (levels, e₃, marked) = >>=-eq-ok (mark_level level st.levels) _ e₂ in
            let same : (let r : State d = record st { levels = levels } in r) ≡ st' =
              ground arith in
            subst (λ (r : State d). AreBelow n r.levels × (r.manager.ctr ≡ st.manager.ctr)) same
              (mark_level-AreBelow n level st.levels levels h marked, refl)
        | inr single ↦ elim (Bool-cases (ltb 0 level)) [
          | inl lower ↦
              let e₂ : (require (ltb 0 (length ssts)) undefined >>= λ _.
              mark_table (d.random st.world % length ssts) ssts >>= λ ssts'.
              ok (record st { levels = set st.levels level ssts' }))
                  ≡ ok st' =
                ground arith in
              let (u, e₃, inhabited) = >>=-eq-ok (require (ltb 0 (length ssts)) undefined) _ e₂ in
              let (ssts', e₄, marked) =
                >>=-eq-ok (mark_table (d.random st.world % length ssts) ssts) _ e₃ in
              let same : (let r : State d = record st { levels = set st.levels level ssts' } in r)
                  ≡ st' =
                ground arith in
              subst (λ (r : State d). AreBelow n r.levels × (r.manager.ctr ≡ st.manager.ctr)) same
                (
                  set-AreBelow n level st.levels ssts' h (
                      mark_table-IsBelow n (d.random st.world % length ssts) ssts ssts' below
                        marked),
                  refl,
                )
          | inr first ↦
              let e₂ : (oldest_table st.manager.clock none 0 ssts >>= mark_oldest level ssts st)
                  ≡ ok st' =
                ground arith in
              let (found, e₃, searched) =
                >>=-eq-ok (oldest_table st.manager.clock none 0 ssts) _ e₂ in
              mark_oldest-AreBelow n level ssts st st' found h below e₃
        ]
      ]
