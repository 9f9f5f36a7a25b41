-- ===== src/Compacter/Counted.antt =====
-- The identifiers of the tables stay below the counter, over `doCompaction` and `Compact`.
use quarkkv_compaction.Base.{
  ℕ, ◌^◌, ◌<◌, ◌≤◌, ◌≡◌, subst, ap, ◌∙◌, inl, inr, Bool-cases, some, List, [], ◌∷◌, arith, Result,
  ok, set, ◌>>=◌, >>=-eq-ok,
}
use quarkkv_compaction.Std.Ordered
use quarkkv_compaction.Config.{Config, kv_size}
use quarkkv_compaction.KvPair.{KvPair}
use quarkkv_compaction.Device.{Device, KeepsIds}
use quarkkv_compaction.Sst.{Sst, less, set_level, is_full}
use quarkkv_compaction.Sst.Write.{add_kv, count_kv, persist}
use quarkkv_compaction.SstManager
use quarkkv_compaction.SstManager.{SstManager, new_empty_sst}
use quarkkv_compaction.SstManager.Ids.{engine_cases, add_kv-id, persist-id, new_empty_sst-id}
use quarkkv_compaction.Iterators.{deref}
use quarkkv_compaction.Compacter.{
  State, level_at, move_and_add_kv, copy_merge, merge, finish_sst_file, new_sst, room_for_pair,
  remove_compacted,
}
use quarkkv_compaction.Compacter.Numbered.{
  IsCounted, AreBelow, AreBelow-mono, level_at-IsBelow, set-AreBelow, erase-IsBelow, insert-IsBelow,
}

module _ (d : Device) (keeps : KeepsIds d) (c : Config) (tries : ℕ) (few : tries ≤ 2 ^ 31) where
  copy_merge-Counted :
      (kv : KvPair) (s s' : Sst) (st st' : State d)
      → copy_merge d c kv s st ≡ ok (s', st')
      → (s'.id ≡ s.id) × (st'.levels ≡ st.levels) × (st'.manager ≡ st.manager)
  unfolding copy_merge
  copy_merge-Counted kv s s' st st' e =
      let ((s₁, w₁), e₁, added) = >>=-eq-ok (add_kv d c kv s st.world) _ e in
      let (size, e₂, sized) = >>=-eq-ok (kv_size c) _ e₁ in
      let same : s₁ ≡ s' = ground arith in
      (
        subst (λ (t : Sst). t.id ≡ s.id) same (add_kv-id d c kv s s₁ st.world w₁ added),
        ground arith,
        ground arith,
      )

  move_and_add_kv-id :
      (kv : KvPair) (s s' : Sst) (w w' : d.World)
      → move_and_add_kv d c kv s w ≡ ok (s', w')
      → s'.id ≡ s.id
  unfolding move_and_add_kv count_kv
  move_and_add_kv-id kv s s' w w' e = ground arith

  -- `merge` of CompacterQuark
  abbrev move_merge : KvPair → Sst → State d → Result (Sst × State d)
  move_merge kv s st = do
    (s', w') ← move_and_add_kv d c kv s st.world
    ok (s', record st { world = w' })

  move_merge-Counted :
      (kv : KvPair) (s s' : Sst) (st st' : State d)
      → move_merge kv s st ≡ ok (s', st')
      → (s'.id ≡ s.id) × (st'.levels ≡ st.levels) × (st'.manager ≡ st.manager)
  move_merge-Counted kv s s' st st' e =
      let ((s₁, w₁), e₁, moved) = >>=-eq-ok (move_and_add_kv d c kv s st.world) _ e in
      let same : s₁ ≡ s' = ground arith in
      (
        subst (λ (t : Sst). t.id ≡ s.id) same (move_and_add_kv-id kv s s₁ st.world w₁ moved),
        ground arith,
        ground arith,
      )

  pub merge-Counted :
      (kv : KvPair) (s s' : Sst) (st st' : State d)
      → merge d c kv s st ≡ ok (s', st')
      → (s'.id ≡ s.id) × (st'.levels ≡ st.levels) × (st'.manager ≡ st.manager)
  unfolding merge
  merge-Counted kv s s' st st' e = elim (engine_cases c.engine) [
    | inl files ↦ copy_merge-Counted kv s s' st st' (ground arith)
    | inr (inl atoms) ↦ copy_merge-Counted kv s s' st st' (ground arith)
    | inr (inr moves) ↦ move_merge-Counted kv s s' st st' (ground arith)
  ]

  pub new_sst-Counted :
      (s : Sst) (st st' : State d)
      → new_sst d c tries st ≡ ok (s, st')
      → IsCounted d st
      → IsCounted d st' × (s.id < st'.manager.ctr)
  unfolding new_sst
  new_sst-Counted s st st' e h =
      let ((made, m, w), e₁, ran) = >>=-eq-ok (new_empty_sst d c tries st.manager st.world) _ e in
      let (s₁, e₂, there) = >>=-eq-ok (deref made) _ e₁ in
      let found : made ≡ some s₁ = ground arith in
      let (low, high) =
        new_empty_sst-id d c keeps tries st.manager m s₁ st.world w few
          (ran ∙ ap (λ o. ok (o, m, w)) found) in
      let same : (let r : Sst × State d = (s₁, record st { manager = m; world = w }) in r)
          ≡ (s, st') =
        ground arith in
      subst (λ r. IsCounted d r.1 × (r.0.id < r.1.manager.ctr)) same
        (AreBelow-mono st.manager.ctr m.ctr st.levels (omega (arith, low, high)) h, high)

  pub finish_sst_file-Counted :
      (s : Sst) (level : ℕ) (st st' : State d)
      → finish_sst_file d c s level st ≡ ok st'
      → IsCounted d st
      → s.id < st.manager.ctr
      → IsCounted d st'
  unfolding finish_sst_file set_level SstManager.tick
  finish_sst_file-Counted s level st st' e h low =
      let ((s₁, w₁), e₁, written) = >>=-eq-ok (persist d c st.manager.clock s st.world) _ e in
      let (ssts, e₂, at) = >>=-eq-ok (level_at level st.levels) _ e₁ in
      let levels = set st.levels level (Ordered.insert less (set_level level s₁) ssts) in
      let same : (levels ≡ st'.levels) × (st.manager.ctr ≡ st'.manager.ctr) = ground arith in
      let below : s₁.id < st.manager.ctr =
        omega (arith, low, persist-id d c st.manager.clock s s₁ st.world w₁ written) in
      subst (λ l. AreBelow st'.manager.ctr l) same.0
        (subst (λ n. AreBelow n levels) same.1
          (set-AreBelow st.manager.ctr level st.levels _ h (
            insert-IsBelow st.manager.ctr (set_level level s₁) ssts below
              (level_at-IsBelow st.manager.ctr level st.levels ssts h at))))

  pub room_for_pair-Counted :
      (level : ℕ) (s s' : Sst) (st st' : State d)
      → room_for_pair d c tries level s st ≡ ok (s', st')
      → IsCounted d st
      → s.id < st.manager.ctr
      → IsCounted d st' × (s'.id < st'.manager.ctr)
  unfolding room_for_pair
  room_for_pair-Counted level s s' st st' e h low =
      let (full, e₁, tested) = >>=-eq-ok (is_full c s) _ e in
      elim (Bool-cases full) [
        | inl there ↦
            let e₂ : (finish_sst_file d c s level st >>= new_sst d c tries) ≡ ok (s', st') =
              ground arith in
            let (st₁, e₃, finished) = >>=-eq-ok (finish_sst_file d c s level st) _ e₂ in
            new_sst-Counted s' st₁ st' e₃ (finish_sst_file-Counted s level st st₁ finished h low)
        | inr room ↦
            let same : (let r : Sst × State d = (s, st) in r) ≡ (s', st') = ground arith in
            subst (λ r. IsCounted d r.1 × (r.0.id < r.1.manager.ctr)) same (h, low)
      ]

  pub remove_compacted-Counted :
      (ssts : List Sst) (st st' : State d)
      → remove_compacted d ssts st ≡ ok st'
      → IsCounted d st
      → IsCounted d st'
  unfolding remove_compacted
  remove_compacted-Counted [] st st' e h =
      let same : st ≡ st' = ground arith in subst (IsCounted d) same h
  remove_compacted-Counted (s ∷ ssts) st st' e h =
      let (level, e₁, at) = >>=-eq-ok (level_at s.level st.levels) _ e in
      let (w, e₂, gone) = >>=-eq-ok (d.remove s.handler s.id st.world) _ e₁ in
      remove_compacted-Counted ssts _ st' e₂ (
        set-AreBelow st.manager.ctr s.level st.levels _ h (
          erase-IsBelow st.manager.ctr s level
            (level_at-IsBelow st.manager.ctr s.level st.levels level h at)))
