-- ===== src/Quark/Growth.antt =====
-- A table in an atom grows at its end, by blocks that are written and blocks that are moved.
use quarkkv_compaction.Base.{
  ℕ, ◌+◌, ◌≤◌, ◌≡◌, refl, sym, ap, subst, ◌∙◌, some, [], ◌++◌, append_assoc, append-nil, arith, inl,
  inr, Option-cases, Bool-cases, length, length-append, take, drop, overwrite_end, length-take,
  length-drop, ok, ◌>>=◌, >>=-eq-ok,
}
use quarkkv_compaction.Std.Text.{Bytes}
use quarkkv_compaction.Config.{Config, kv_size}
use quarkkv_compaction.KvPair.{KvPair}
use quarkkv_compaction.Sst.Write.{count_kv}
use quarkkv_compaction.Quark.{
  Quarklib, SstQuark, atom_write, atom_move_append, append, move_and_add_kv,
}
use quarkkv_compaction.Quark.Atoms.{IsQuarklib}

module _ (q : Quarklib) (c : Config) where
  open q use {World}

  -- What was given to a table since it was in the state `t₀`: by writes, and by moves of blocks that
  -- are all there.
  pub data Grows (t₀ : SstQuark) (w₀ : World) : Bytes → SstQuark → World → Type 0 where
    start : Grows t₀ w₀ [] t₀ w₀
    wrote :
        {given given' : Bytes} {t t' : SstQuark} {w w' : World} (buf : Bytes)
        → Grows t₀ w₀ given t w
        → append q buf t w ≡ ok (t', w')
        → given' ≡ given ++ buf
        → Grows t₀ w₀ given' t' w'
    moved :
        {given given' : Bytes} {t t' : SstQuark} {w w' : World} (kv : KvPair)
        (source offset size b : ℕ)
        → Grows t₀ w₀ given t w
        → kv.handler ≡ some source
        → kv.offset ≡ some offset
        → kv_size c ≡ ok size
        → q.atom_of w source ≡ some b
        → offset + size ≤ length (q.bytes w b)
        → move_and_add_kv q c kv t w ≡ ok (t', w')
        → given' ≡ given ++ take size (drop offset (q.bytes w b))
        → Grows t₀ w₀ given' t' w'

  -- the table's atom, what it holds, and that the next block goes behind it
  pub record IsAtEnd (aid : ℕ) (all : Bytes) (t : SstQuark) (w : World) : Type 0 where
    pub atom : q.atom_of w t.sst.handler ≡ some aid
    pub bytes : q.bytes w aid ≡ all
    pub size : t.atom_size ≡ length all

  module _ (l : IsQuarklib q) where
    wrote_atom :
        (ah off : ℕ) (buf : Bytes) (w w' : World)
        → atom_write q ah buf off w ≡ ok w'
        → (n : ℕ) × ((q.atom_write ah buf off w).0 ≡ some n) × (w' ≡ (q.atom_write ah buf off w).1)
    unfolding atom_write
    wrote_atom ah off buf w w' e = elim (Option-cases (q.atom_write ah buf off w).0) [
      | inl stuck ↦ absurd (ground arith)
      | inr (n, written) ↦ (n, written, ground arith)
    ]

    append-IsAtEnd :
        (aid : ℕ) (all buf : Bytes) (t t' : SstQuark) (w w' : World)
        → IsAtEnd aid all t w
        → append q buf t w ≡ ok (t', w')
        → IsAtEnd aid (all ++ buf) t' w'
    unfolding append
    append-IsAtEnd aid all buf t t' w w' h e =
        let (w₁, e₁, run) = >>=-eq-ok (atom_write q t.sst.handler buf t.atom_size w) _ e in
        let (n, written, end) = wrote_atom t.sst.handler t.atom_size buf w w₁ run in
        let longer : SstQuark = record t { atom_size = t.atom_size + length buf } in
        let same : (let r : SstQuark × World = (longer, w₁) in r) ≡ (t', w') = cc e₁ in
        let place : t.atom_size ≡ length (q.bytes w aid) = h.size ∙ ap length (sym h.bytes) in
        subst (λ r. IsAtEnd aid (all ++ buf) r.0 r.1) same
          (record {
            atom =
                ap (λ w. q.atom_of w t.sst.handler) end
                ∙ l.atom_of-write t.sst.handler t.atom_size buf w t.sst.handler
                ∙ h.atom;
            bytes =
                ap (λ w. q.bytes w aid) end
                ∙ l.bytes-write t.sst.handler aid t.atom_size n buf w h.atom written
                    (omega (arith, place))
                ∙ overwrite_end t.atom_size buf (q.bytes w aid) place
                ∙ ap (λ b. b ++ buf) h.bytes;
            size = omega (arith, h.size, length-append all buf);
          })

    move-IsAtEnd :
        (aid source offset size b : ℕ) (all : Bytes) (kv : KvPair) (t t' : SstQuark) (w w' : World)
        → IsAtEnd aid all t w
        → kv.handler ≡ some source
        → kv.offset ≡ some offset
        → kv_size c ≡ ok size
        → q.atom_of w source ≡ some b
        → offset + size ≤ length (q.bytes w b)
        → move_and_add_kv q c kv t w ≡ ok (t', w')
        → IsAtEnd aid (all ++ take size (drop offset (q.bytes w b))) t' w'
    unfolding move_and_add_kv atom_move_append count_kv
    move-IsAtEnd aid source offset size b all kv t t' w w' h at place sized from there e =
        let moving = q.atom_move_append t.sst.handler source size offset w in
        let block = take size (drop offset (q.bytes w b)) in
        elim (Bool-cases moving.0) [
          | inr failed ↦ absurd (ground arith)
          | inl done ↦
              let longer : SstQuark = record {
                sst = count_kv kv size t.sst;
                atom_size = t.atom_size + size;
              } in
              let gone : atom_move_append q t.sst.handler source size offset w ≡ ok moving.1 =
                rw (done, atom_move_append) refl in
              let run : move_and_add_kv q c kv t w ≡ ok (longer, moving.1) =
                rw (at, place, move_and_add_kv) (rw (sized, ◌>>=◌, gone) refl) in
              let same : (let r : SstQuark × World = (longer, moving.1) in r) ≡ (t', w') =
                cc (sym run ∙ e) in
              subst (λ r. IsAtEnd aid (all ++ block) r.0 r.1) same
                (record {
                  atom = l.atom_of-move t.sst.handler source size offset w t.sst.handler ∙ h.atom;
                  bytes =
                      l.bytes-move t.sst.handler source aid b size offset w h.atom from done
                      ∙ ap (λ x. x ++ block) h.bytes;
                  size = omega (
                    arith,
                    h.size,
                    length-append all block,
                    length-take size (drop offset (q.bytes w b)),
                    length-drop offset (q.bytes w b),
                  );
                })
        ]

    -- A table whose next block goes behind what its atom holds keeps to that, however blocks are
    -- written and moved to it: its atom then holds what it held at first and behind it all that was
    -- given, in that order, and the next block goes behind this. The calls of quarklibio behave as
    -- documented, and the blocks that are moved are all there.
    pub Grows-IsAtEnd :
        (aid : ℕ) (all : Bytes) (t₀ : SstQuark) (w₀ : World) (given : Bytes) (t : SstQuark)
        (w : World)
        → IsAtEnd aid all t₀ w₀
        → Grows t₀ w₀ given t w
        → IsAtEnd aid (all ++ given) t w
    Grows-IsAtEnd aid all t₀ w₀ given t w h start =
        subst (λ b. IsAtEnd aid b t₀ w₀) (sym (append-nil all)) h
    Grows-IsAtEnd aid all t₀ w₀ given t w h (wrote {given = before} {t = s} {w = v} buf g run e) =
        subst (λ b. IsAtEnd aid b t w) (append_assoc all before buf ∙ ap (◌++◌ all) (sym e))
          (append-IsAtEnd aid (all ++ before) buf s t v w
            (Grows-IsAtEnd aid all t₀ w₀ before s v h g) run)
    Grows-IsAtEnd aid all t₀ w₀ given t w h
          (moved {given = before} {t = s} {w = v} kv source offset size b g at place sized from
            there run e) =
        subst (λ b. IsAtEnd aid b t w)
          (append_assoc all before (take size (drop offset (q.bytes v b))) ∙ ap (◌++◌ all) (sym e))
          (move-IsAtEnd aid source offset size b (all ++ before) kv s t v w
            (Grows-IsAtEnd aid all t₀ w₀ before s v h g) at place sized from there run)
