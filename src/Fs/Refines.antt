-- ===== src/Fs/Refines.antt =====
-- Making and removing tables in files, and the storage as a whole.
use quarkkv_compaction.Base.{
  ℕ, ◌≡◌, ◌≢◌, refl, sym, ap, subst, ◌∙◌, true, none, some, [], arith, inl, inr, Option-cases,
  ==_iff, length, ok,
}
use quarkkv_compaction.Std.Text.{Bytes}
use quarkkv_compaction.Config.{Config}
use quarkkv_compaction.Device.{IsDevice}
use quarkkv_compaction.Posix.{
  Posix, Files, IsPosix, IsUnused, OpenFlags, OpensThere, read_only, append_create, with_open,
  with_file, with_close, with_unlink,
}
use quarkkv_compaction.Fs.{
  content_of, Sole, open_unmasked, create, close, create_new_empty, create_name_from_id, full_path,
  remove, fs_device,
}
use quarkkv_compaction.Fs.Storage.{
  content-eq, content-append_lem, preserves-append_lem, read-content_lem,
}

-- a descriptor with a new file, and the others beside it
new-Sole :
    (v v' : Files) (path : Bytes) (h i : ℕ)
    → IsUnused i v
    → v' ≡ with_open h i append_create (with_file path i v)
    → Sole v' h × (content_of v' h ≡ [])
new-Sole v v' path h i unused e =
    let here : v'.file_of h ≡ some i = ap (λ v. v.file_of h) e ∙ rw ((==_iff h h).1 refl) refl in
    (
      (i, here, λ j ne q. unused.0 j (ground (arith, sym (ap (λ v. v.file_of j) e)))),
      content-eq v' h i here ∙ ap (λ v. v.bytes i) e ∙ rw ((==_iff i i).1 refl) refl,
    )

beside_new :
    (v v' : Files) (path : Bytes) (h i j : ℕ)
    → IsUnused i v
    → v' ≡ with_open h i append_create (with_file path i v)
    → Sole v j
    → h ≢ j
    → Sole v' j × (content_of v' j ≡ content_of v j)
beside_new v v' path h i j unused e (k, at, others) ne =
    let other : k ≢ i = λ q. unused.0 j (at ∙ ap some q) in
    let at' : v'.file_of j ≡ some k = ap (λ v. v.file_of j) e ∙ ground arith in
    (
      (
        k,
        at',
        λ m apart q. let old = others m apart in ground (arith, sym (ap (λ v. v.file_of m) e)),
      ),
      content-eq v' j k at' ∙ ap (λ v. v.bytes k) e ∙ ground arith ∙ sym (content-eq v j k at),
    )

module _ (p : Posix) (l : IsPosix p) where
  open p use {World}

  -- A file that is opened where there was none is new.
  pub open_unmasked-new :
      (flags : OpenFlags) (path : Bytes) (w : World) (fd : ℕ)
      → (p.view w).entry path ≡ none
      → (open_unmasked p flags path w).0 ≡ some fd
      → ((p.view w).file_of fd ≡ none)
        × ((i : ℕ) × IsUnused i (p.view w)
            × (p.view (open_unmasked p flags path w).1
                ≡ with_open fd i flags (with_file path i (p.view w))))
  unfolding open_unmasked
  open_unmasked-new flags path w fd absent e =
      let wa = (p.umask 0 w).1 in
      let masked : p.view wa ≡ p.view w = l.view-umask 0 w in
      let (closed, (i, unused, v)) =
        l.open_new flags path wa fd (ap (λ v. v.entry path) masked ∙ absent) e in
      (
        sym (ap (λ v. v.file_of fd) masked) ∙ closed,
        (
          i,
          subst (IsUnused i) masked unused,
          l.view-umask (p.umask 0 w).0 (p.open_file flags path wa).1
              ∙ v
              ∙ ap (λ v. with_open fd i flags (with_file path i v)) masked,
        ),
      )

  pub create_view :
      OpensThere p
      → (path : Bytes) (w : World) (fd : ℕ) → (create p path w).0 ≡ some fd
      → ((p.view w).file_of fd ≡ none)
        × ((i : ℕ) × IsUnused i (p.view w)
            × (p.view (create p path w).1
                ≡ with_open fd i append_create (with_file path i (p.view w))))
  unfolding create
  create_view there path w fd e =
      let w₁ = (p.open_file read_only path w).1 in
      elim (Option-cases (p.open_file read_only path w).0) [
        | inr (old, taken) ↦ absurd (ground arith)
        | inl free ↦
            let same : p.view w₁ ≡ p.view w = l.open_failed read_only path w free in
            let absent : (p.view w).entry path ≡ none =
              elim (Option-cases ((p.view w).entry path)) [
                | inl none_there ↦ none_there
                | inr (i, at) ↦
                    let (old, opened) = there path w i at in absurd (cc (sym free ∙ opened))
              ] in
            let run : create p path w ≡ open_unmasked p append_create path w₁ =
              rw (free, create) refl in
            let made : (open_unmasked p append_create path w₁).0 ≡ some fd =
              sym (ap (λ t. t.0) run) ∙ e in
            let (closed, (i, unused, v)) =
              open_unmasked-new append_create path w₁ fd (ap (λ v. v.entry path) same ∙ absent)
                made in
            (
              sym (ap (λ v. v.file_of fd) same) ∙ closed,
              (
                i,
                subst (IsUnused i) same unused,
                ap (λ t. p.view t.1) run
                    ∙ v
                    ∙ ap (λ v. with_open fd i append_create (with_file path i v)) same,
              ),
            )
      ]

  pub create-new_lem :
      (there : OpensThere p) (c : Config) (id h id' : ℕ) (w w' : World)
      → create_new_empty p c id w ≡ (some (h, id'), w')
      → (id' ≡ id)
        × ((p.view w).file_of h ≡ none)
        × ((i : ℕ) × IsUnused i (p.view w)
            × (p.view w'
                ≡ with_open h i append_create
                    (with_file (full_path c (create_name_from_id id)) i (p.view w))))
  unfolding create_new_empty
  create-new_lem there c id h id' w w' e =
      let path = full_path c (create_name_from_id id) in
      elim (Option-cases (create p path w).0) [
        | inl failed ↦ absurd (ground arith)
        | inr (fd, made) ↦
            let same : fd ≡ h = ground arith in
            let end : w' ≡ (create p path w).1 = ap (λ r. r.1) (sym e) in
            let kept : id' ≡ id = ground arith in
            let (closed, (i, unused, v)) = create_view there path w h (made ∙ ap some same) in
            (kept, closed, (i, unused, ap p.view end ∙ v))
      ]

  pub remove_view :
      (c : Config) (h id : ℕ) (w w' : World)
      → remove p c h id w ≡ ok w'
      → p.view w' ≡ with_unlink (full_path c (create_name_from_id id)) (with_close h (p.view w))
  unfolding remove close
  remove_view c h id w w' e =
      let path = full_path c (create_name_from_id id) in
      let w₁ = (p.close h w).1 in
      let closed : (p.close h w).0 ≡ true = ground arith in
      let gone : (p.unlink path w₁).0 ≡ true = ground arith in
      let end : w' ≡ (p.unlink path w₁).1 = ground arith in
      ap p.view end ∙ l.unlink_file path w₁ gone ∙ ap (with_unlink path) (l.close_file h w closed)

  preserves-remove_lem :
      (c : Config) (h id : ℕ) (w w' : World)
      → remove p c h id w ≡ ok w'
      → (j : ℕ) → Sole (p.view w) j
      → h ≢ j
      → Sole (p.view w') j × (content_of (p.view w') j ≡ content_of (p.view w) j)
  preserves-remove_lem c h id w w' e j (k, at, others) ne =
      let v = remove_view c h id w w' e in
      let at' : (p.view w').file_of j ≡ some k = ap (λ v. v.file_of j) v ∙ ground arith in
      (
        (
          k,
          at',
          λ m apart q. let old = others m apart in ground (arith, sym (ap (λ v. v.file_of m) v)),
        ),
        content-eq (p.view w') j k at' ∙ ap (λ v. v.bytes k) v ∙ sym (content-eq (p.view w) j k at),
      )

  -- Tables in files are a storage as the tables ask for it, whatever fails but the opening of a file
  -- that is there for reading, from which `Create` learns that a name is taken: an append that succeeds
  -- makes the file longer by what was given, a read gives the bytes that stand at the offset, a new
  -- file is empty, has the identifier that it was asked for and a descriptor that was not open before,
  -- and no call changes what a descriptor shows that is the only one on its file, other than the one
  -- that it is given. The system calls behave as documented on regular files, with whole writes, and
  -- what is given out of memory has its size.
  pub fs_device-IsDevice :
      OpensThere p
      → (c : Config) (uninitialised : World → ℕ → Bytes) (random : World → ℕ)
      → ((w : World) (n : ℕ) → length (uninitialised w n) ≡ n)
      → IsDevice (fs_device p c uninitialised random)
  fs_device-IsDevice there c uninitialised random sized = record {
    length-uninitialised = sized;
    read-content = read-content_lem p l;
    content-append = content-append_lem p l;
    preserves-append = λ h b w w' e j o ne. preserves-append_lem p l h b w w' e j o ne;
    create-new = λ id h id' w w' e.
        let path = full_path c (create_name_from_id id) in
        let (kept, closed, (i, unused, v)) = create-new_lem there c id h id' w w' e in
        let made = new-Sole (p.view w) (p.view w') path h i unused v in
        (
          kept,
          λ sole. cc (sym closed ∙ sole.1),
          made.0,
          made.1,
          λ j o ne. beside_new (p.view w) (p.view w') path h i j unused v o ne,
        );
    preserves-remove = λ h id w w' e j o ne. preserves-remove_lem c h id w w' e j o ne;
  }
