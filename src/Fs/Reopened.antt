-- ===== src/Fs/Reopened.antt =====
-- A manifest that was persisted is what the next `Open` reads.
use quarkkv_compaction.Base.{
  ℕ, ◌≤◌, ◌≡◌, ◌≢◌, refl, sym, ap, subst, ◌∙◌, true, false, some, [], ◌++◌, append-nil, arith, inl,
  inr, Option-cases, ==_iff, ◌==◌, length, drop-beyond, length-replicate, drop, ok, >>=-eq-ok, ltb,
}
use quarkkv_compaction.Std.Text.{Bytes, text_eq, text_eq_refl}
use quarkkv_compaction.Config.{Config, block_size}
use quarkkv_compaction.Sst.Read.{c_string}
use quarkkv_compaction.Manifest.{Levels, serialize_levels, deserialize_levels}
use quarkkv_compaction.Posix.{
  Posix, Files, IsPosix, OpensThere, IsWorking, IsUnused, append_create, append_only, write_create,
  with_open, with_file, with_write, with_close,
}
use quarkkv_compaction.Fs.{open_path, open_for_write, close, full_path}
use quarkkv_compaction.Fs.Manifests.{
  ManifestFs, current_name, manifest_name, cleared_block, open_current, create_new_manifest,
  get_current_manifest_path, read_manifest, write_current, persist_manifest,
}
use quarkkv_compaction.Fs.Writing.{SameFiles, close_view, create_new_manifest_effect}
use quarkkv_compaction.Fs.Current.{Contains, write_view, write_current_effect, reads_back}
use quarkkv_compaction.Fs.Blocks.{
  name_block, length-name_block, c_string-name_block, length-manifest_name, paths_differ,
  current_differs,
}

-- what `Persist` leaves: a manifest with the levels, and the file that names it
abbrev pub IsCurrent : Config → ℕ → Bytes → Files → Type 0
IsCurrent c k buf v =
    Contains (full_path c (manifest_name k)) buf v
    × Contains (full_path c current_name) (name_block k) v

module _ (p : Posix) (l : IsPosix p) (c : Config) where
  open p use {World}

  -- The file that names the current manifest is no longer than the block that goes over it.
  abbrev pub HasRoom : Files → Type 0
  HasRoom v =
      (i : ℕ) → v.entry (full_path c current_name) ≡ some i → length (v.bytes i) ≤ block_size

  -- A manifest that is written and closed, under a name of its own.
  written_effect :
      (path buf : Bytes) (v : Files) (i fd n : ℕ) (w₁ w₃ : World)
      → IsUnused i v
      → p.view w₁ ≡ with_open fd i append_create (with_file path i v)
      → (p.write fd buf w₁).0 ≡ some n
      → close p fd (p.write fd buf w₁).1 ≡ ok w₃
      → ((p.view w₃).entry path ≡ some i)
        × ((p.view w₃).bytes i ≡ buf)
        × ((q : Bytes) → text_eq q path ≡ false → (p.view w₃).entry q ≡ v.entry q)
        × ((k : ℕ) → k ≢ i → (p.view w₃).bytes k ≡ v.bytes k)
  written_effect path buf v i fd n w₁ w₃ unused made written shut =
      let at : (p.view w₁).file_of fd ≡ some i =
        ap (λ v. v.file_of fd) made ∙ rw ((==_iff fd fd).1 refl) refl in
      let view : p.view w₃
          ≡ with_close fd
              (with_write fd i buf (with_open fd i append_create (with_file path i v))) =
        close_view p l fd (p.write fd buf w₁).1 w₃ shut
        ∙ ap (with_close fd)
            (write_view p l fd n i buf w₁ at written ∙ ap (with_write fd i buf) made) in
      (
        ap (λ v. v.entry path) view ∙ rw (text_eq_refl path) refl,
        ap (λ v. v.bytes i) view ∙ rw ((==_iff i i).1 refl, (==_iff fd fd).1 refl) refl,
        λ q differ. ap (λ v. v.entry q) view ∙ rw differ refl,
        λ k other. ap (λ v. v.bytes k) view ∙ ground arith,
      )

  named_effect :
      (k : ℕ) (buf : Bytes) (w w₁ w₃ w' : World) (v : Files) (i fd n : ℕ)
      → SameFiles (p.view w) v
      → IsUnused i v
      → p.view w₁ ≡ with_open fd i append_create (with_file (full_path c (manifest_name k)) i v)
      → (p.write fd buf w₁).0 ≡ some n
      → close p fd (p.write fd buf w₁).1 ≡ ok w₃
      → write_current p c (name_block k) w₃ ≡ ok w'
      → HasRoom (p.view w)
      → IsCurrent c k buf (p.view w')
  named_effect k buf w w₁ w₃ w' v i fd n same unused made written shut run room =
      let path = full_path c (manifest_name k) in
      let current = full_path c current_name in
      let (at, is, others, bytes) =
        written_effect path buf v i fd n w₁ w₃ unused made written shut in
      let apart : (p.view w₃).entry current ≢ some i =
        λ q. unused.1 current (sym (others current (current_differs c k)) ∙ q) in
      let (current_is, keeps) =
        write_current_effect p l c (name_block k) w₃ w'
          (λ j at_current.
            let before : v.entry current ≡ some j =
              sym (others current (current_differs c k)) ∙ at_current in
            let other : j ≢ i = λ q. unused.1 current (before ∙ ap some q) in
            subst (λ (b : Bytes). length b ≤ length (name_block k)) (sym (bytes j other ∙ same.1 j))
              (omega (arith, room j (sym (same.0 current) ∙ before), length-name_block k)))
          run in
      (keeps path buf i (paths_differ c k) at apart is, current_is)

  -- What `Persist` has done when it returns.
  pub persist_effect :
      (there : OpensThere p) (tries : ℕ) (m m' : ManifestFs) (w w' : World)
      → persist_manifest p c tries m w ≡ ok (m', w')
      → HasRoom (p.view w)
      → (k : ℕ) × ((buf : Bytes) × (serialize_levels m.files ≡ ok buf)
          × IsCurrent c k buf (p.view w'))
  unfolding persist_manifest
  persist_effect there tries m m' w w' e room =
      let ((fd, name, ctr, w₁), e₁, made) =
        >>=-eq-ok (create_new_manifest p c tries m.ctr cleared_block w) _ e in
      let (buf, e₂, serialized) = >>=-eq-ok (serialize_levels m.files) _ e₁ in
      let (w₃, e₃, shut) = >>=-eq-ok (close p fd (p.write fd buf w₁).1) _ e₂ in
      let (k, named, (v, same, (i, unused, view))) =
        create_new_manifest_effect p l there c tries m.ctr cleared_block name w w₁ fd ctr made in
      elim (Option-cases (p.write fd buf w₁).0) [
        | inl stuck ↦ absurd (ground arith)
        | inr (n, written) ↦
            let run : write_current p c name w₃ ≡ ok w' = ground arith in
            (
              k,
              (
                buf,
                serialized,
                named_effect k buf w w₁ w₃ w' v i fd n same unused view written shut
                    (subst (λ b. write_current p c b w₃ ≡ ok w') named run) room,
              ),
            )
      ]

  pub current_path :
      (k : IsWorking p) (tries n ctr : ℕ) (w : World)
      → Contains (full_path c current_name) (name_block n) (p.view w)
      → (w₃ : World) × (get_current_manifest_path p c tries ctr w
          ≡ ok (false, name_block n, ctr, w₃))
        × SameFiles (p.view w) (p.view w₃)
  unfolding get_current_manifest_path open_current open_for_write
  current_path k tries n ctr w named =
      let (h, opened, got, (w₃, shut, same)) =
        reads_back p l k write_create (full_path c current_name) (name_block n) w named
          (length-name_block n) in
      let some_name : (length (name_block n) == 0) ≡ false = ground (arith, length-name_block n) in
      let beyond : drop (length (name_block n)) cleared_block ≡ [] =
        drop-beyond (length (name_block n)) cleared_block
          (omega (arith, length-name_block n, length-replicate {0} {A = ℕ} 4096 0)) in
      let whole : name_block n ++ drop (length (name_block n)) cleared_block ≡ name_block n =
        ap (◌++◌ (name_block n)) beyond ∙ append-nil (name_block n) in
      let run : get_current_manifest_path p c tries ctr w
          ≡ ok (false, name_block n ++ drop (length (name_block n)) cleared_block, ctr, w₃) =
        rw (get_current_manifest_path, opened) (rw (got, shut, some_name) refl) in
      (w₃, run ∙ ap (λ b. ok (false, b, ctr, w₃)) whole, same)

  pub read_manifest-eq :
      (k : IsWorking p) (n : ℕ) (buf : Bytes) (m : ManifestFs) (files : Levels) (w : World)
      → Contains (full_path c (manifest_name n)) buf (p.view w)
      → length buf ≡ block_size
      → deserialize_levels buf m.files ≡ ok files
      → (w' : World) × (read_manifest p c (name_block n) m w ≡ ok (record m { files = files }, w'))
  unfolding read_manifest open_path
  read_manifest-eq k n buf m files w there size parsed =
      let name = c_string (name_block n) in
      let there' : Contains (full_path c name) buf (p.view w) =
        subst (λ b. Contains (full_path c b) buf (p.view w)) (sym (c_string-name_block n)) there in
      let ends : ltb (length name) block_size ≡ true =
        ground (arith, length-manifest_name n, ap length (c_string-name_block n)) in
      let (h, opened, got, (w₃, shut, same)) =
        reads_back p l k append_only (full_path c name) buf w there' size in
      let whole : (length buf == block_size) ≡ true = (==_iff (length buf) block_size).1 size in
      (w₃, rw (ends, opened) (rw (got, shut, whole, parsed) refl))
