-- ===== src/Fs/Writing.antt =====
-- What the making of a manifest leaves in the files.
use quarkkv_compaction.Base.{
  ℕ, zero, suc, ◌+◌, ◌≡◌, refl, sym, ap, ◌∙◌, true, none, some, ◌++◌, arith, inl, inr, Option-cases,
  length, drop, ok, u32,
}
use quarkkv_compaction.Std.Text.{Bytes}
use quarkkv_compaction.Config.{Config}
use quarkkv_compaction.Posix.{
  OpensThere, Posix, Files, IsPosix, IsUnused, read_only, append_create, with_open, with_file,
  with_close,
}
use quarkkv_compaction.Fs.{open_unmasked, create, close, full_path}
use quarkkv_compaction.Fs.Refines.{create_view}
use quarkkv_compaction.Fs.Manifests.{manifest_name, create_new_manifest}

-- no path leads elsewhere, and no file has other bytes
abbrev pub SameFiles : Files → Files → Type 0
SameFiles v v' = ((q : Bytes) → v'.entry q ≡ v.entry q) × ((k : ℕ) → v'.bytes k ≡ v.bytes k)

pub SameFiles-trans : (u v w : Files) → SameFiles u v → SameFiles v w → SameFiles u w
SameFiles-trans u v w a b = (λ q. b.0 q ∙ a.0 q, λ k. b.1 k ∙ a.1 k)

pub SameFiles-eq : (v v' : Files) → v' ≡ v → SameFiles v v'
SameFiles-eq v v' e = (λ q. ap (λ v. v.entry q) e, λ k. ap (λ v. v.bytes k) e)

module _ (p : Posix) (l : IsPosix p) where
  open p use {World}

  pub close_view :
      (fd : ℕ) (w w' : World) → close p fd w ≡ ok w' → p.view w' ≡ with_close fd (p.view w)
  unfolding close
  close_view fd w w' e =
      let closed : (p.close fd w).0 ≡ true = ground arith in
      let end : w' ≡ (p.close fd w).1 = ground arith in ap p.view end ∙ l.close_file fd w closed

  -- A path that is taken, or cannot be made, leaves the files as they were.
  create-failed :
      (path : Bytes) (w : World)
      → (create p path w).0 ≡ none
      → SameFiles (p.view w) (p.view (create p path w).1)
  unfolding create open_unmasked
  create-failed path w e =
      let w₁ = (p.open_file read_only path w).1 in
      elim (Option-cases (p.open_file read_only path w).0) [
        | inr (fd, taken) ↦
            let run : create p path w ≡ (none, w₁) = rw (taken, create) refl in
            elim (Option-cases ((p.view w).entry path)) [
              | inl absent ↦ absurd (l.open_absent read_only path w fd absent refl taken)
              | inr (i, at) ↦
                  let v =
                    ap (λ t. p.view t.1) run ∙ (l.open_old read_only path w fd i at taken).1 in
                  (λ q. ap (λ v. v.entry q) v, λ k. ap (λ v. v.bytes k) v)
            ]
        | inl free ↦
            let run : create p path w ≡ open_unmasked p append_create path w₁ =
              rw (free, create) refl in
            let wa = (p.umask 0 w₁).1 in
            let stuck : (p.open_file append_create path wa).0 ≡ none =
              sym (ap (λ t. t.0) run) ∙ e in
            SameFiles-eq (p.view w) (p.view (create p path w).1) (
              ap (λ t. p.view t.1) run
              ∙ l.view-umask (p.umask 0 w₁).0 (p.open_file append_create path wa).1
              ∙ l.open_failed append_create path wa stuck
              ∙ l.view-umask 0 w₁
              ∙ l.open_failed read_only path w free)
      ]

  -- The loop makes a manifest under the name that it gives, in files that are otherwise as before.
  pub create_new_manifest_effect :
      (there : OpensThere p) (c : Config) (tries ctr : ℕ) (dest name : Bytes) (w w' : World)
      (fd ctr' : ℕ)
      → create_new_manifest p c tries ctr dest w ≡ ok (fd, name, ctr', w')
      → (k : ℕ) × (name ≡ manifest_name k ++ drop (length (manifest_name k)) dest)
        × ((v : Files) × SameFiles (p.view w) v
            × ((i : ℕ) × IsUnused i v
                × (p.view w'
                    ≡ with_open fd i append_create
                        (with_file (full_path c (manifest_name k)) i v))))
  unfolding create_new_manifest
  create_new_manifest_effect there c zero ctr dest name w w' fd ctr' e = absurd (ground arith)
  create_new_manifest_effect there c (suc tries) ctr dest name w w' fd ctr' e =
      let path = full_path c (manifest_name ctr) in
      let w₁ = (create p path w).1 in
      elim (Option-cases (create p path w).0) [
        | inl taken ↦
            let more : create_new_manifest p c tries (u32 (ctr + 1)) dest w₁
                ≡ ok (fd, name, ctr', w') =
              ground arith in
            let (k, named, (v, same, made)) =
              create_new_manifest_effect there c tries (u32 (ctr + 1)) dest name w₁ w' fd ctr'
                more in
            (
              k,
              named,
              (v, SameFiles-trans (p.view w) (p.view w₁) v (create-failed path w taken) same, made),
            )
        | inr (h, found) ↦
            let same : h ≡ fd = ground arith in
            let end : w' ≡ w₁ = ground arith in
            let named : name ≡ manifest_name ctr ++ drop (length (manifest_name ctr)) dest =
              ground arith in
            let (closed, (i, unused, view)) =
              create_view p l there path w fd (found ∙ ap some same) in
            (ctr, named, (p.view w, (λ q. refl, λ k. refl), (i, unused, ap p.view end ∙ view)))
      ]
