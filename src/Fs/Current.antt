-- ===== src/Fs/Current.antt =====
-- What stands in a file after it was written from its start, and that it is read back.
use quarkkv_compaction.Base.{
  ℕ, ◌+◌, ◌≤◌, ◌≡◌, ◌≢◌, refl, sym, ap, subst, ◌∙◌, Bool, false, some, [], ◌++◌, append-nil, arith,
  inl, inr, Option-cases, ==_iff, length, drop-beyond, take, drop, take-length, ok,
}
use quarkkv_compaction.Std.Text.{Bytes, text_eq, text_eq_refl}
use quarkkv_compaction.Config.{Config, block_size}
use quarkkv_compaction.Posix.{
  Posix, Files, IsPosix, IsWorking, OpenFlags, write_create, from_start, overwritten, with_open,
  with_position, with_write,
}
use quarkkv_compaction.Fs.{open_unmasked, open_for_write, close, full_path}
use quarkkv_compaction.Fs.Refines.{open_unmasked-new}
use quarkkv_compaction.Fs.Writing.{SameFiles}
use quarkkv_compaction.Fs.Manifests.{current_name, open_current, write_current}

-- the file of the path has these bytes
abbrev pub Contains : Bytes → Bytes → Files → Type 0
Contains path b v = (i : ℕ) × (v.entry path ≡ some i) × (v.bytes i ≡ b)

pub Contains-same :
    (path b : Bytes) (v v' : Files) → SameFiles v v' → Contains path b v → Contains path b v'
Contains-same path b v v' s (i, at, is) = (i, s.0 path ∙ at, s.1 i ∙ is)

module _ (p : Posix) (l : IsPosix p) where
  open p use {World}

  pub open_unmasked-old :
      (flags : OpenFlags) (path : Bytes) (w : World) (fd i : ℕ)
      → (p.view w).entry path ≡ some i
      → (open_unmasked p flags path w).0 ≡ some fd
      → p.view (open_unmasked p flags path w).1 ≡ with_open fd i flags (p.view w)
  unfolding open_unmasked
  open_unmasked-old flags path w fd i at e =
      let wa = (p.umask 0 w).1 in
      let masked : p.view wa ≡ p.view w = l.view-umask 0 w in
      l.view-umask (p.umask 0 w).0 (p.open_file flags path wa).1
      ∙ (l.open_old flags path wa fd i (ap (λ v. v.entry path) masked ∙ at) e).1
      ∙ ap (with_open fd i flags) masked

  pub write_view :
      (fd n i : ℕ) (b : Bytes) (w : World)
      → (p.view w).file_of fd ≡ some i
      → (p.write fd b w).0 ≡ some n
      → p.view (p.write fd b w).1 ≡ with_write fd i b (p.view w)
  write_view fd n i b w at e =
      let (j, at', v) = l.write_file fd n b w e in
      let same : j ≡ i = cc (sym at' ∙ at) in
      subst (λ k. p.view (p.write fd b w).1 ≡ with_write fd k b (p.view w)) same v

  -- The file that `OpenForWrite` opens, which it makes where there is none.
  record IsOpened (path : Bytes) (room : ℕ) (v v' : Files) (h : ℕ) : Type 0 where
    pub file : ℕ
    pub at : v'.file_of h ≡ some file
    pub overwrites : v'.appends h ≡ false
    pub named : v'.entry path ≡ some file
    pub short : length (v'.bytes file) ≤ room
    pub others :
        (q : Bytes) (j : ℕ)
        → text_eq q path ≡ false
        → v.entry q ≡ some j
        → v.entry path ≢ some j
        → (v'.entry q ≡ some j) × (v'.bytes j ≡ v.bytes j) × (j ≢ file)

  open_for_write-IsOpened :
      (path : Bytes) (room : ℕ) (w : World) (h : ℕ)
      → ((i : ℕ) → (p.view w).entry path ≡ some i → length ((p.view w).bytes i) ≤ room)
      → (open_for_write p path w).0 ≡ some h
      → IsOpened path room (p.view w) (p.view (open_for_write p path w).1) h
  unfolding open_for_write
  open_for_write-IsOpened path room w h short e = elim (Option-cases ((p.view w).entry path)) [
    | inr (i, old) ↦
        let v = open_unmasked-old write_create path w h i old e in
        record {
          file = i;
          at = ap (λ v. v.file_of h) v ∙ rw ((==_iff h h).1 refl) refl;
          overwrites = ap (λ v. v.appends h) v ∙ rw ((==_iff h h).1 refl) refl;
          named = ap (λ v. v.entry path) v ∙ old;
          short = subst (λ b. length b ≤ room) (sym (ap (λ v. v.bytes i) v)) (short i old);
          others = λ q j differ at apart. (
            ap (λ v. v.entry q) v ∙ at,
            ap (λ v. v.bytes j) v,
            λ same. apart (old ∙ ap some (sym same)),
          );
        }
    | inl absent ↦
        let (closed, (i, unused, v)) = open_unmasked-new p l write_create path w h absent e in
        let made = (open_for_write p path w).1 in
        let empty : (p.view made).bytes i ≡ [] =
          ap (λ v. v.bytes i) v ∙ rw ((==_iff i i).1 refl) refl in
        record {
          file = i;
          at = ap (λ v. v.file_of h) v ∙ rw ((==_iff h h).1 refl) refl;
          overwrites = ap (λ v. v.appends h) v ∙ rw ((==_iff h h).1 refl) refl;
          named = ap (λ v. v.entry path) v ∙ rw (text_eq_refl path) refl;
          short = subst (λ (b : Bytes). length b ≤ room) (sym empty) (omega arith);
          others = λ q j differ at apart.
              let other : j ≢ i = λ same. unused.1 q (at ∙ ap some same) in
              (ap (λ v. v.entry q) v ∙ rw differ at, ap (λ v. v.bytes j) v ∙ ground arith, other);
        }
  ]

  overwritten_start :
      (a : Bool) (n : ℕ) (b old : Bytes)
      → a ≡ false
      → n ≡ 0
      → length old ≤ length b
      → overwritten a n b old ≡ b
  unfolding take
  overwritten_start a n b old f z h =
      rw (f, z) (ap (λ t. b ++ t) (drop-beyond (0 + length b) old (omega arith)) ∙ append-nil b)

  -- After the end of `Persist` the file that names the current manifest has the name, where it was not
  -- longer before; another file that no path of the same shares is as it was.
  pub write_current_effect :
      (c : Config) (name : Bytes) (w w' : World)
      → ((i : ℕ)
          → (p.view w).entry (full_path c current_name) ≡ some i
          → length ((p.view w).bytes i) ≤ length name)
      → write_current p c name w ≡ ok w'
      → Contains (full_path c current_name) name (p.view w')
        × ((q b : Bytes) (j : ℕ)
            → text_eq q (full_path c current_name) ≡ false
            → (p.view w).entry q ≡ some j
            → (p.view w).entry (full_path c current_name) ≢ some j
            → (p.view w).bytes j ≡ b
            → Contains q b (p.view w'))
  unfolding write_current open_current
  write_current_effect c name w w' short e =
      let path = full_path c current_name in
      let w₁ = (open_for_write p path w).1 in
      elim (Option-cases (open_for_write p path w).0) [
        | inl stuck ↦ absurd (ground arith)
        | inr (h, opened) ↦
            let w₂ = (p.lseek h 0 from_start w₁).1 in
            elim (Option-cases (p.lseek h 0 from_start w₁).0) [
              | inl stuck ↦ absurd (ground arith)
              | inr (r, sought) ↦ elim (Option-cases (p.write h name w₂).0) [
                | inl stuck ↦ absurd (ground arith)
                | inr (n, written) ↦
                    let o = open_for_write-IsOpened path (length name) w h short opened in
                    let v₂ = l.seek_start h 0 r w₁ sought in
                    let v₃ =
                      write_view h n o.file name w₂ (ap (λ v. v.file_of h) v₂ ∙ o.at) written in
                    let end : w' ≡ (p.write h name w₂).1 = ground arith in
                    let v₄ : p.view w' ≡ with_write h o.file name (with_position h 0 (p.view w₁)) =
                      ap p.view end ∙ v₃ ∙ ap (with_write h o.file name) v₂ in
                    (
                      (
                        o.file,
                        ap (λ v. v.entry path) v₄ ∙ o.named,
                        ap (λ v. v.bytes o.file) v₄
                            ∙ rw ((==_iff o.file o.file).1 refl, (==_iff h h).1 refl)
                                (overwritten_start ((p.view w₁).appends h) 0 name
                                  ((p.view w₁).bytes o.file) o.overwrites refl o.short),
                      ),
                      λ q b j differ at apart is.
                          let (at', same, other) = o.others q j differ at apart in
                          (
                            j,
                            ap (λ v. v.entry q) v₄ ∙ at',
                            ap (λ v. v.bytes j) v₄ ∙ ground arith ∙ same ∙ is,
                          ),
                    )
              ]
            ]
      ]

  -- A file that holds a block is read back through a new descriptor.
  pub reads_back :
      (k : IsWorking p) (flags : OpenFlags) (path b : Bytes) (w : World)
      → Contains path b (p.view w)
      → length b ≡ block_size
      → (h : ℕ) × ((open_unmasked p flags path w).0 ≡ some h)
        × ((p.read h block_size (open_unmasked p flags path w).1).0 ≡ some b)
        × ((w₃ : World) × (close p h (p.read h block_size (open_unmasked p flags path w).1).1
              ≡ ok w₃)
            × SameFiles (p.view w) (p.view w₃))
  unfolding open_unmasked close drop
  reads_back k flags path b w (i, at, is) size =
      let wa = (p.umask 0 w).1 in
      let (h, opened) = k.opens flags path wa i (ap (λ v. v.entry path) (l.view-umask 0 w) ∙ at) in
      let w₁ = (open_unmasked p flags path w).1 in
      let v₁ = open_unmasked-old flags path w h i at opened in
      let open_now : (p.view w₁).file_of h ≡ some i =
        ap (λ v. v.file_of h) v₁ ∙ rw ((==_iff h h).1 refl) refl in
      let (b', got) = k.reads h block_size i w₁ open_now in
      let (j, at', content, v₂) = l.read_file h block_size w₁ b' got in
      let w₂ = (p.read h block_size w₁).1 in
      let closed = k.closes h i w₂ (ap (λ v. v.file_of h) v₂ ∙ open_now) in
      let v₃ = l.close_file h w₂ closed in
      let same_file : j ≡ i = cc (sym at' ∙ open_now) in
      let place : (p.view w₁).position h ≡ 0 =
        ap (λ v. v.position h) v₁ ∙ rw ((==_iff h h).1 refl) refl in
      let same : b' ≡ b =
        content
        ∙ ap (λ t. take block_size (drop t ((p.view w₁).bytes j))) place
        ∙ ap (λ t. take block_size ((p.view w₁).bytes t)) same_file
        ∙ ap (λ v. take block_size (v.bytes i)) v₁
        ∙ ap (take block_size) is
        ∙ take-length b block_size (sym size) in
      (
        h,
        opened,
        got ∙ ap some same,
        (
          (p.close h w₂).1,
          rw (closed, close) refl,
          (
            λ q. ap (λ v. v.entry q) v₃ ∙ ap (λ v. v.entry q) v₂ ∙ ap (λ v. v.entry q) v₁,
            λ f. ap (λ v. v.bytes f) v₃ ∙ ap (λ v. v.bytes f) v₂ ∙ ap (λ v. v.bytes f) v₁,
          ),
        ),
      )
