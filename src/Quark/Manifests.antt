-- ===== src/Quark/Manifests.antt =====
-- quark/ManifestQuark.cpp: the manifests of a database in atoms, and the atom that names the current one.
use quarkkv_compaction.Base.{
  ℕ, ◌+◌, ◌-◌, ◌^◌, Option, none, some, ◌++◌, Result, ok, err, require, failed, ◌>>=◌, ◌>>◌, ltb,
  ◌==◌, if◌then◌else◌, length, take, replicate, u32,
}
use quarkkv_compaction.Std.Text.{Bytes}
use quarkkv_compaction.Config.{Config, block_size}
use quarkkv_compaction.Sst.Write.{le_bytes}
use quarkkv_compaction.Sst.Read.{of_le_bytes}
use quarkkv_compaction.Manifest
use quarkkv_compaction.Manifest.{Levels, serialize_levels}
use quarkkv_compaction.Quark.{Quarklib, init, atom_get, atom_write}

-- ManifestQuark; a handle that is -1 is `none`, and `current_aid` is the configuration's, to which
-- `AtomGet` is given the address
pub record ManifestQuark : Type 0 where
  pub files : Levels
  pub ctr : ℕ
  pub current : Option ℕ
  pub handler : Option ℕ
  pub current_aid : ℕ

-- the constructor
unfoldable pub new : Config → ManifestQuark
new c = record {
  files = Manifest.new c;
  ctr = u32 c.quarkstore_manifest_aid_start;
  current = none;
  handler = none;
  current_aid = c.quarkstore_current_aid;
}

-- the handle 2 ^ 32 - 1 is what the library is given for -1
abbrev pub handle : Option ℕ → ℕ
handle none = 2 ^ 32 - 1
handle (some ah) = ah

module _ (q : Quarklib) where
  open q use {World}

  release_some : Option ℕ → World → World
  release_some none w = w
  release_some (some ah) w = (q.atom_release ah w).1

  -- the destructor
  unfoldable pub destroy : ManifestQuark → World → World
  unfolding release_some
  destroy m w = release_some m.handler (release_some m.current w)

  -- openCurrent
  unfoldable pub open_current : ManifestQuark → World → Result (ManifestQuark × World)
  open_current m w = do
    (ah, aid, w') ← atom_get q m.current_aid w
    ok (record m { current = some ah; current_aid = aid }, w')

  -- getCurrentManifest: a read that fails or is short counts as no manifest, and so does -1 for
  -- `Open`. The result is not used beyond its being 0.
  unfoldable pub get_current_manifest : ManifestQuark → World → Result (ManifestQuark × World)
  get_current_manifest m w =
      let (buf, w₁) = q.atom_read (handle m.current) block_size 0 w in
      elim buf [
        | none ↦ ok (m, w₁)
        | some b ↦
            let aid = of_le_bytes (take 8 b) in
            let m₁ = record m { ctr = u32 (aid + 1) } in
            let (ah, aid', w₂) = q.atom_get aid w₁ in
            let named : ManifestQuark × World = elim ah [
              | none ↦ (m₁, w₂)
              | some h ↦ (record m₁ { handler = some h }, w₂)
            ] in
            if length b == block_size then ok named else ok (m, w₁)
      ]

  -- Open returns before the levels are read.
  unfoldable pub open_manifest : ManifestQuark → World → Result (ManifestQuark × World)
  open_manifest m w = do w₁ ← init q w; (m₁, w₂) ← open_current m w₁; get_current_manifest m₁ w₂

  -- createNewManifest: the identifier that `AtomGet` leaves, as an `int`
  unfoldable pub create_new_manifest : ManifestQuark → World → Result (ℕ × ManifestQuark × World)
  create_new_manifest m w =
      let m₁ = record m { ctr = u32 (m.ctr + 1) } in
      let (ah, aid, w') = q.atom_get m.ctr w in
      elim ah [ none ↦ err failed | some h ↦ ok (u32 aid, record m₁ { handler = some h }, w') ]

  -- The last write of `Persist`: `AtomWrite` gives -1 for a negative handle, and otherwise the result of
  -- the library, of which the callers take none but -1 for an error.
  unfoldable pub write_aid : ℕ → Bytes → World → Result World
  write_aid ah buf w =
      let (count, w') = q.atom_write ah buf 0 w in
      let result : Result World = elim count [
        | none ↦ if q.is_minus_one w' then err failed else ok w'
        | some _ ↦ ok w'
      ] in
      if ltb ah (2 ^ 31) then result else err failed

  -- Persist; an identifier that is negative as an `int` counts as an error.
  unfoldable pub persist_manifest : ManifestQuark → World → Result (ManifestQuark × World)
  persist_manifest m w = do
    (aid, m₁, w₁) ← create_new_manifest m w
    require (ltb aid (2 ^ 31)) failed
    buf ← serialize_levels m₁.files
    w₂ ← atom_write q (handle m₁.handler) buf 0 w₁
    w₃ ← write_aid (handle m₁.current) (le_bytes 4 aid ++ replicate (block_size - 4) 0) w₂
    ok (m₁, w₃)
