-- ===== src/SstManager/Ids.antt =====
-- The identifier of the table that a full table in memory is flushed to.
use quarkkv_compaction.Base.{
  ℕ, zero, suc, ◌+◌, ◌/◌, ◌%◌, ◌⊎◌, ◌*◌, ◌++◌, drop, u32, leb, ◌==◌, if◌then◌else◌, ltb, require,
  undefined, ◌^◌, ◌<◌, ◌≤◌, ◌≡◌, refl, sym, ap, ◌∙◌, Option, none, some, [], ◌∷◌, inl, inr,
  Option-cases, arith, ok, aborted, >>=-eq-ok, length,
}
use quarkkv_compaction.Std.Map.{Map}
use quarkkv_compaction.Config.{
  Config, StorageEngine, fs, quarkstore, quarkstore_append, kv_size, block_size,
  index_block_entry_size,
}
use quarkkv_compaction.KvPair.{KvPair}
use quarkkv_compaction.MemTable.{MemTable}
use quarkkv_compaction.Device.{Device, KeepsIds}
use quarkkv_compaction.Sst
use quarkkv_compaction.Sst.{Sst}
use quarkkv_compaction.Sst.Write.{
  append_kv, add_kv, count_kv, persist, last_key, index_bytes, write_index_block,
  write_number_of_entries,
}
use quarkkv_compaction.SstManager.Free.{new_file-taken}
use quarkkv_compaction.SstManager.{
  SstManager, wrap, tick, new_file, new_empty_sst, add_kvs, fill_new, flush_to_sst,
}

pub engine_cases : (e : StorageEngine) → (e ≡ fs) ⊎ ((e ≡ quarkstore) ⊎ (e ≡ quarkstore_append))
engine_cases fs = inl refl
engine_cases quarkstore = inr (inl refl)
engine_cases quarkstore_append = inr (inr refl)

module _ (d : Device) (c : Config) where
  open d use {World}

  pub add_kv-id :
      (kv : KvPair) (s s' : Sst) (w w' : World) → add_kv d c kv s w ≡ ok (s', w') → s'.id ≡ s.id
  unfolding add_kv count_kv
  add_kv-id kv s s' w w' e =
      let (w₁, e₁, ran) = >>=-eq-ok (append_kv d c kv s w) _ e in
      let (size, e₂, sized) = >>=-eq-ok (kv_size c) _ e₁ in ground arith

  add_kvs-id :
      (es : Map KvPair) (s s' : Sst) (w w' : World)
      → add_kvs d c es s w ≡ ok (s', w')
      → s'.id ≡ s.id
  unfolding add_kvs
  add_kvs-id [] s s' w w' e = ground arith
  add_kvs-id (x ∷ es) s s' w w' e =
      let ((s₁, w₁), rest, ran) = >>=-eq-ok (add_kv d c x.1 s w) _ e in
      add_kvs-id es s₁ s' w₁ w' rest ∙ add_kv-id x.1 s s₁ w w₁ ran

  write_index_block-id :
      (s s' : Sst) (w w' : World) → write_index_block d c s w ≡ ok (s', w') → s'.id ≡ s.id
  unfolding write_index_block
  write_index_block-id s s' w w' e =
      let entry = index_block_entry_size c in
      let (t, e₁, wide) = >>=-eq-ok (require (ltb 0 entry) undefined) _ e in
      let (u, e₂, some_fit) = >>=-eq-ok (require (ltb 0 (block_size / entry)) undefined) _ e₁ in
      let (bytes, e₃, listed) = >>=-eq-ok (index_bytes c s.index_table) _ e₂ in
      let per_block = block_size / entry in
      let blocks =
        if s.entries % per_block == 0 then s.entries / per_block else s.entries / per_block + 1 in
      let size = u32 (blocks * block_size) in
      let (v, e₄, room) = >>=-eq-ok (require (leb (length bytes) size) undefined) _ e₃ in
      let (w₁, e₅, written) =
        >>=-eq-ok (d.append s.handler (bytes ++ drop (length bytes) (d.uninitialised w size)) w) _
          e₄ in
      let (kv, e₆, sized) = >>=-eq-ok (kv_size c) _ e₅ in ground arith

  write_number_of_entries-id :
      (s s' : Sst) (w w' : World) → write_number_of_entries d c s w ≡ ok (s', w') → s'.id ≡ s.id
  unfolding write_number_of_entries
  write_number_of_entries-id s s' w w' e = ground arith

  pub persist-id :
      (ts : ℕ) (s s' : Sst) (w w' : World) → persist d c ts s w ≡ ok (s', w') → s'.id ≡ s.id
  unfolding persist
  persist-id ts s s' w w' e =
      let (largest, e₁, some_key) = >>=-eq-ok (last_key s.index_table) _ e in
      let ((s₁, w₁), e₂, indexed) =
        >>=-eq-ok (write_index_block d c (record s { largest_key = largest }) w) _ e₁ in
      let ((s₂, w₂), e₃, counted) = >>=-eq-ok (write_number_of_entries d c s₁ w₁) _ e₂ in
      let last : s'.id ≡ s₂.id = ground arith in
      last
      ∙ write_number_of_entries-id s₁ s₂ w₁ w₂ counted
      ∙ write_index_block-id (record s { largest_key = largest }) s₁ w w₁ indexed

  -- On QuarkStore an identifier that is taken leads to no table.
  asked_once :
      (tries : ℕ) (m m' : SstManager) (s : Sst) (w w' : World)
      → (c.engine ≡ quarkstore) ⊎ (c.engine ≡ quarkstore_append)
      → (d.create m.ctr w).0 ≡ none
      → ¬ (new_file d c (suc tries) m w ≡ ok (some s, m', w'))
  unfolding new_file
  asked_once tries m m' s w w' (inl copies) taken e = ground (arith, copies, taken, e)
  asked_once tries m m' s w w' (inr moves) taken e = ground (arith, moves, taken, e)

  new_file-id :
      KeepsIds d
      → (tries : ℕ) (m m' : SstManager) (s : Sst) (w w' : World)
      → new_file d c tries m w ≡ ok (some s, m', w')
      → m.ctr + tries < 2 ^ 32
      → (m.ctr ≤ s.id) × (s.id < m'.ctr)
  unfolding new_file wrap Sst.new
  new_file-id keeps zero m m' s w w' e small = absurd (ground arith)
  new_file-id keeps (suc tries) m m' s w w' e small =
      let later = (d.create m.ctr w).1 in
      let again : SstManager = record m { ctr = (m.ctr + 1) % 2 ^ 32 } in
      let next : again.ctr ≡ m.ctr + 1 = omega arith in
      elim (Option-cases (d.create m.ctr w).0) [
        | inl taken ↦ elim (engine_cases c.engine) [
          | inl on_files ↦
              let e₁ : new_file d c tries again later ≡ ok (some s, m', w') =
                sym (new_file-taken d c on_files tries m w taken) ∙ e in
              let (low, high) = new_file-id keeps tries again m' s later w' e₁ (omega arith) in
              (omega arith, high)
          | inr once ↦ absurd (asked_once tries m m' s w w' once taken e)
        ]
        | inr ((h, id), made) ↦
            let kept : id ≡ m.ctr = keeps m.ctr h id w later (λ i. (made i, later)) in
            let same : s.id ≡ m.ctr = ground arith in
            let after : m'.ctr ≡ again.ctr = ground arith in (omega arith, omega arith)
      ]

  -- The new identifier is not below the counter, which goes past it.
  pub new_empty_sst-id :
      KeepsIds d
      → (tries : ℕ) (m m' : SstManager) (s : Sst) (w w' : World) → tries ≤ 2 ^ 31
      → new_empty_sst d c tries m w ≡ ok (some s, m', w')
      → (m.ctr ≤ s.id) × (s.id < m'.ctr)
  unfolding new_empty_sst
  new_empty_sst-id keeps tries m m' s w w' few e =
      let (u, looked, low) = >>=-eq-ok (require (ltb m.ctr (2 ^ 31)) aborted) _ e in
      let small : m.ctr < 2 ^ 31 = ground arith in
      new_file-id keeps tries m m' s w w' looked (omega arith)

  fill_new-id :
      (t : MemTable) (made : Option Sst) (m m' : SstManager) (s : Sst) (w w' : World)
      → fill_new d c t made m w ≡ ok (s, m', w')
      → (s₁ : Sst) × (made ≡ some s₁) × (s.id ≡ s₁.id) × (m'.ctr ≡ m.ctr)
  unfolding fill_new tick
  fill_new-id t none m m' s w w' e = absurd (ground arith)
  fill_new-id t (some s₁) m m' s w w' e =
      let (kv, e₁, sized) = >>=-eq-ok (kv_size c) _ e in
      let (u, e₂, full) =
        >>=-eq-ok (require (length t.table == c.sst_file_size / kv) aborted) _ e₁ in
      let ((s₂, w₂), e₃, added) = >>=-eq-ok (add_kvs d c t.table s₁ w) _ e₂ in
      let ((s₃, w₃), e₄, written) = >>=-eq-ok (persist d c m.clock s₂ w₂) _ e₃ in
      let last : s.id ≡ s₃.id = ground arith in
      (
        s₁,
        refl,
        last ∙ persist-id m.clock s₂ s₃ w₂ w₃ written ∙ add_kvs-id t.table s₁ s₂ w w₂ added,
        ground arith,
      )

  pub flush_to_sst-id :
      KeepsIds d
      → (tries : ℕ) (t : MemTable) (m m' : SstManager) (s : Sst) (w w' : World) → tries ≤ 2 ^ 31
      → flush_to_sst d c tries t m w ≡ ok (s, m', w')
      → (m.ctr ≤ s.id) × (s.id < m'.ctr)
  unfolding flush_to_sst
  flush_to_sst-id keeps tries t m m' s w w' few e =
      let ((made, m₁, w₁), e₁, ran) = >>=-eq-ok (new_empty_sst d c tries m w) _ e in
      let (s₁, found, same, count) = fill_new-id t made m₁ m' s w₁ w' e₁ in
      let (low, high) =
        new_empty_sst-id keeps tries m m₁ s₁ w w₁ few (ran ∙ ap (λ o. ok (o, m₁, w₁)) found) in
      (omega arith, omega arith)
