-- ===== src/Fs/Faultless.antt =====
-- The tables in files where no system call fails that a program may expect to succeed.
use quarkkv_compaction.Base.{
  ℕ, ◌<◌, ◌^◌, ◌≡◌, ◌≢◌, refl, sym, ap, ◌∙◌, false, none, some, arith, inl, inr, Option-cases,
  Bool-cases, length, ok,
}
use quarkkv_compaction.Std.Text.{Bytes, text_eq, text_eq→eq}
use quarkkv_compaction.Config.{Config}
use quarkkv_compaction.Device.{IsNaming, IsReliable}
use quarkkv_compaction.Posix.{
  Posix, IsPosix, IsFaultless, OpensThere, read_only, append_create, from_start, from_end,
}
use quarkkv_compaction.Fs.{
  Sole, open_unmasked, create, close, create_new_empty, create_name_from_id, full_path, append,
  read, read_at, remove, fs_device,
}
use quarkkv_compaction.Fs.Names.{create_name_from_id-injective}
use quarkkv_compaction.Fs.Blocks.{tail-eq}
use quarkkv_compaction.Fs.Storage.{append_view}
use quarkkv_compaction.Fs.Refines.{create-new_lem, remove_view, fs_device-IsDevice}

-- Two identifiers of 31 bits have different paths.
pub paths-Differ :
    (c : Config) (i j : ℕ)
    → i < 2 ^ 31
    → j < 2 ^ 31
    → j ≢ i
    → text_eq (full_path c (create_name_from_id j)) (full_path c (create_name_from_id i)) ≡ false
unfolding full_path
paths-Differ c i j hi hj ne =
    elim (Bool-cases
      (text_eq (full_path c (create_name_from_id j)) (full_path c (create_name_from_id i)))) [
        | inl same ↦
            let e = tail-eq c.fs_dbdir _ _ (text_eq→eq _ _ same) in
            absurd (ne (create_name_from_id-injective j i (omega arith) (omega arith) (cc e)))
        | inr other ↦ other
      ]

module _ (p : Posix) (l : IsPosix p) (f : IsFaultless p) (c : Config) where
  open p use {World}

  abbrev path : ℕ → Bytes
  path id = full_path c (create_name_from_id id)

  there : OpensThere p
  there q w i at = f.opens read_only q w i at

  append_entry :
      (h : ℕ) (b : Bytes) (w w' : World)
      → append p h b w ≡ ok w'
      → (q : Bytes) → (p.view w').entry q ≡ (p.view w).entry q
  append_entry h b w w' e q = let (i, at, v) = append_view p l h b w w' e in ap (λ v. v.entry q) v

  append_ok :
      (h : ℕ) (b : Bytes) (w : World) → Sole (p.view w) h → (w' : World) × (append p h b w ≡ ok w')
  unfolding append
  append_ok h b w (i, at, others) =
      let w₁ = (p.lseek h 0 from_end w).1 in
      let (r, sought) = f.seeks h 0 i from_end w at in
      let (j, at', v) = l.seek_end h r w sought in
      let (n, written) = f.writes h i b w₁ (ap (λ v. v.file_of h) v ∙ at) in
      ((p.write h b w₁).1, rw (sought, append) (rw (written, append) refl))

  read_ok : (h n o : ℕ) (w : World) → Sole (p.view w) h → (b : Bytes) × (read p h n o w ≡ ok b)
  unfolding read read_at
  read_ok h n o w (i, at, others) =
      let w₁ = (p.lseek h o from_start w).1 in
      let (r, sought) = f.seeks h o i from_start w at in
      let v = l.seek_start h o r w sought in
      let (b, got) = f.reads h n i w₁ (ap (λ v. v.file_of h) v ∙ at) in
      (b, rw (sought, read, read_at) (rw (got, read, read_at) refl))

  created :
      (q : Bytes) (w : World) → (p.view w).entry q ≡ none → (fd : ℕ) × ((create p q w).0 ≡ some fd)
  unfolding create open_unmasked
  created q w free =
      let w₁ = (p.open_file read_only q w).1 in
      let wa = (p.umask 0 w₁).1 in
      elim (Option-cases (p.open_file read_only q w).0) [
        | inr (fd, opened) ↦ absurd (l.open_absent read_only q w fd free refl opened)
        | inl refused ↦
            let same = l.view-umask 0 w₁ ∙ l.open_failed read_only q w refused in
            let (fd, made) = f.makes append_create q wa (ap (λ v. v.entry q) same ∙ free) refl in
            (fd, rw (refused, create) made)
      ]

  create_ok :
      (id : ℕ) (w : World)
      → (p.view w).entry (path id) ≡ none
      → (h : ℕ) × ((w' : World) × (create_new_empty p c id w ≡ (some (h, id), w')))
  unfolding create_new_empty
  create_ok id w free =
      let (fd, made) = created (path id) w free in
      (fd, ((create p (path id) w).1, rw (made, create_new_empty) refl))

  remove_ok :
      (h id : ℕ) (w : World)
      → Sole (p.view w) h
      → ¬ ((p.view w).entry (path id) ≡ none)
      → (w' : World) × (remove p c h id w ≡ ok w')
  unfolding remove close
  remove_ok h id w (i, at, others) taken =
      let w₁ = (p.close h w).1 in
      let closed = f.closes h i w at in
      elim (Option-cases ((p.view w).entry (path id))) [
        | inl free ↦ absurd (taken free)
        | inr (j, named) ↦
            let v = l.close_file h w closed in
            let gone = f.unlinks (path id) w₁ j (ap (λ v. v.entry (path id)) v ∙ named) in
            ((p.unlink (path id) w₁).1, ground (arith, closed, gone))
      ]

  fs_device-IsNaming :
      (uninitialised : World → ℕ → Bytes) (random : World → ℕ)
      → IsNaming (fs_device p c uninitialised random)
  fs_device-IsNaming uninitialised random = record {
    names-append = λ h b w w' e j. (
      λ free. append_entry h b w w' e (path j) ∙ free,
      λ free. sym (append_entry h b w w' e (path j)) ∙ free,
    );
    free-create = λ id j made w w' e low small ne free.
        let (kept, closed, (i, unused, v)) = create-new_lem p l there c id made.0 made.1 w w' e in
        let other = paths-Differ c id j low small ne in
        ap (λ v. v.entry (path j)) v ∙ rw other free;
    taken-create = λ id j made w w' e free.
        let (kept, closed, (i, unused, v)) = create-new_lem p l there c id made.0 made.1 w w' e in
        let seen = sym (ap (λ v. v.entry (path j)) v) ∙ free in ground arith;
    taken-remove = λ h id j w w' e low small ne free.
        let other = paths-Differ c id j low small ne in
        let seen = sym (ap (λ v. v.entry (path j)) (remove_view p l c h id w w' e)) ∙ free in
        ground arith;
  }

  pub fs_device-IsReliable :
      (uninitialised : World → ℕ → Bytes) (random : World → ℕ)
      → ((w : World) (n : ℕ) → length (uninitialised w n) ≡ n)
      → IsReliable (fs_device p c uninitialised random)
  fs_device-IsReliable uninitialised random sized = record {
    lawful = fs_device-IsDevice p l there c uninitialised random sized;
    naming = fs_device-IsNaming uninitialised random;
    append_ok = append_ok;
    read_ok = λ h n o w sole fits. read_ok h n o w sole;
    create_ok = create_ok;
    remove_ok = remove_ok;
  }
