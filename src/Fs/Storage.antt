-- ===== src/Fs/Storage.antt =====
-- The tables in files are one of the storages that Device.antt speaks of.
use quarkkv_compaction.Base.{
  ℕ, ◌≡◌, ◌≢◌, refl, sym, ap, subst, ◌∙◌, Bool, true, false, some, ◌++◌, arith, inl, inr,
  Option-cases, ==_iff, length, take, drop, overwrite_end, ok,
}
use quarkkv_compaction.Std.Text.{Bytes}
use quarkkv_compaction.Posix.{
  Posix, Files, IsPosix, from_start, from_end, overwritten, with_position, with_write,
}
use quarkkv_compaction.Fs.{content_of, Sole, append, read_at, read}

-- A write at the end of a file appends, with the flag and without.
pub overwritten_end :
    (a : Bool) (n : ℕ) (b old : Bytes) → n ≡ length old → overwritten a n b old ≡ old ++ b
overwritten_end true n b old e = refl
overwritten_end false n b old e = overwrite_end n b old e

pub content-eq : (v : Files) (h i : ℕ) → v.file_of h ≡ some i → content_of v h ≡ v.bytes i
content-eq v h i at = rw (at, content_of) refl

-- Where a descriptor and the files of all are as they were, it is the only one on its file as before.
pub Sole-same :
    (v v' : Files) (h : ℕ) → ((j : ℕ) → v'.file_of j ≡ v.file_of j) → Sole v h → Sole v' h
Sole-same v v' h same (i, at, others) = (i, same h ∙ at, λ j ne q. others j ne (sym (same j) ∙ q))

module _ (p : Posix) (l : IsPosix p) where
  open p use {World}

  -- What an append that succeeds has done.
  pub append_view :
      (h : ℕ) (b : Bytes) (w w' : World)
      → append p h b w ≡ ok w'
      → (i : ℕ) × ((p.view w).file_of h ≡ some i)
        × (p.view w' ≡ with_write h i b (with_position h (length ((p.view w).bytes i)) (p.view w)))
  unfolding append
  append_view h b w w' e =
      let w₁ = (p.lseek h 0 from_end w).1 in
      elim (Option-cases (p.lseek h 0 from_end w).0) [
        | inl stuck ↦ absurd (ground arith)
        | inr (r, sought) ↦ elim (Option-cases (p.write h b w₁).0) [
          | inl stuck ↦ absurd (ground arith)
          | inr (n, written) ↦
              let (i, at, v₁) = l.seek_end h r w sought in
              let (j, at', v₂) = l.write_file h n b w₁ written in
              let same : j ≡ i = cc (sym at' ∙ ap (λ v. v.file_of h) v₁ ∙ at) in
              let end : w' ≡ (p.write h b w₁).1 = ground arith in
              (
                i,
                at,
                ap p.view end
                    ∙ subst (λ k. p.view (p.write h b w₁).1 ≡ with_write h k b (p.view w₁)) same v₂
                    ∙ ap (with_write h i b) v₁,
              )
        ]
      ]

  -- The file of the descriptor is longer by what was appended, and nothing else has changed.
  pub append_effect :
      (h : ℕ) (b : Bytes) (w w' : World)
      → append p h b w ≡ ok w'
      → (i : ℕ) × ((p.view w).file_of h ≡ some i)
        × ((j : ℕ) → (p.view w').file_of j ≡ (p.view w).file_of j)
        × ((p.view w').bytes i ≡ (p.view w).bytes i ++ b)
        × ((k : ℕ) → k ≢ i → (p.view w').bytes k ≡ (p.view w).bytes k)
  append_effect h b w w' e =
      let v = p.view w in
      let (i, at, view) = append_view h b w w' e in
      (
        i,
        at,
        λ j. ap (λ v. v.file_of j) view,
        ap (λ v. v.bytes i) view
            ∙ rw ((==_iff i i).1 refl, (==_iff h h).1 refl)
                (overwritten_end (v.appends h) (length (v.bytes i)) b (v.bytes i) refl),
        λ k ne. ap (λ v. v.bytes k) view ∙ ground arith,
      )

  pub content-append_lem :
      (h : ℕ) (b : Bytes) (w w' : World)
      → append p h b w ≡ ok w'
      → (content_of (p.view w') h ≡ content_of (p.view w) h ++ b)
        × (Sole (p.view w) h → Sole (p.view w') h)
  content-append_lem h b w w' e =
      let (i, at, same, longer, rest) = append_effect h b w w' e in
      (
        content-eq (p.view w') h i (same h ∙ at)
            ∙ longer
            ∙ ap (λ t. t ++ b) (sym (content-eq (p.view w) h i at)),
        Sole-same (p.view w) (p.view w') h same,
      )

  pub preserves-append_lem :
      (h : ℕ) (b : Bytes) (w w' : World)
      → append p h b w ≡ ok w'
      → (j : ℕ) → Sole (p.view w) j
      → h ≢ j
      → Sole (p.view w') j × (content_of (p.view w') j ≡ content_of (p.view w) j)
  preserves-append_lem h b w w' e j sole ne =
      let (i, at, same, longer, rest) = append_effect h b w w' e in
      let (k, at', others) = sole in
      let other : k ≢ i = λ q. others h (λ r. ne (sym r)) (at ∙ ap some (sym q)) in
      (
        Sole-same (p.view w) (p.view w') j same sole,
        content-eq (p.view w') j k (same j ∙ at')
            ∙ rest k other
            ∙ sym (content-eq (p.view w) j k at'),
      )

  pub read-content_lem :
      (h n o : ℕ) (w : World) (b : Bytes)
      → read p h n o w ≡ ok b
      → b ≡ take n (drop o (content_of (p.view w) h))
  unfolding read read_at
  read-content_lem h n o w b e =
      let w₁ = (p.lseek h o from_start w).1 in
      elim (Option-cases (p.lseek h o from_start w).0) [
        | inl stuck ↦ absurd (ground arith)
        | inr (r, sought) ↦ elim (Option-cases (p.read h n w₁).0) [
          | inl stuck ↦ absurd (ground arith)
          | inr (b', got) ↦
              let v₁ = l.seek_start h o r w sought in
              let (i, at, is, v₂) = l.read_file h n w₁ b' got in
              let place : (p.view w₁).position h ≡ o =
                ap (λ v. v.position h) v₁ ∙ rw ((==_iff h h).1 refl) refl in
              let same : b ≡ b' = ground arith in
              same
              ∙ is
              ∙ ap (λ t. take n (drop t ((p.view w₁).bytes i))) place
              ∙ ap (λ v. take n (drop o (v.bytes i))) v₁
              ∙ ap (λ t. take n (drop o t))
                  (sym (content-eq (p.view w) h i (sym (ap (λ v. v.file_of h) v₁) ∙ at)))
        ]
      ]
