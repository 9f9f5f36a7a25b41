-- ===== src/Fs/Manifests.antt =====
-- fs/ManifestFS.cpp: the manifests of a database in files, and the file that names the current one.
use quarkkv_compaction.Base.{
  ℕ, zero, suc, ◌+◌, ◌-◌, ◌^◌, Bool, true, false, Option, none, some, [], ◌∷◌, ◌++◌, Result, ok,
  err, require, failed, undefined, diverges, ◌>>=◌, ◌>>◌, ltb, ◌==◌, if◌then◌else◌, length, drop,
  replicate, u32,
}
use quarkkv_compaction.Std.Text.{Bytes}
use quarkkv_compaction.Std.Decimal.{decimal}
use quarkkv_compaction.Config.{Config, block_size}
use quarkkv_compaction.Sst.Read.{c_string}
use quarkkv_compaction.Manifest
use quarkkv_compaction.Manifest.{Levels, serialize_levels, deserialize_levels}
use quarkkv_compaction.Posix.{Posix, from_start}
use quarkkv_compaction.Fs.{
  full_path, create, open_for_write, open_path, close, read_fd, seek, write_fd,
}

-- ManifestFS: the levels, and `ctr_` from the constructor's 0 on
pub record ManifestFs : Type 0 where
  pub files : Levels
  pub ctr : ℕ

unfoldable pub new : Config → ManifestFs
new c = record { files = Manifest.new c; ctr = 0 }

abbrev pub current_name : Bytes
current_name = b'C' ∷ b'U' ∷ b'R' ∷ b'R' ∷ b'E' ∷ b'N' ∷ b'T' ∷ []

-- the counter goes into an `int`
unfoldable pub manifest_name : ℕ → Bytes
manifest_name ctr =
    (b'M' ∷ b'A' ∷ b'N' ∷ b'I' ∷ b'F' ∷ b'E' ∷ b'S' ∷ b'T' ∷ b'-' ∷ [])
    ++ (if ltb ctr (2 ^ 31) then decimal ctr else b'-' ∷ decimal (2 ^ 32 - ctr))

-- the buffers for a name, which the callers have cleared
abbrev pub cleared_block : Bytes
cleared_block = replicate block_size 0

module _ (p : Posix) (c : Config) where
  open p use {World}

  -- openCurrent
  unfoldable pub open_current : World → Option ℕ × World
  open_current w = open_for_write p (full_path c current_name) w

  -- The loop of `createNewManifest`, for at most `tries` rounds: the descriptor, the buffer with the
  -- name in front, and the counter.
  unfoldable pub create_new_manifest : ℕ → ℕ → Bytes → World → Result (ℕ × Bytes × ℕ × World)
  create_new_manifest zero ctr dest w = err diverges
  create_new_manifest (suc tries) ctr dest w =
      let name = manifest_name ctr in
      let (fd, w') = create p (full_path c name) w in
      let again = create_new_manifest tries (u32 (ctr + 1)) dest w' in
      elim fd [ none ↦ again | some h ↦ ok (h, name ++ drop (length name) dest, u32 (ctr + 1), w') ]

  -- getCurrentManifestPath: whether a manifest was made, the name, and the counter. The descriptor of
  -- a manifest that was made stays open.
  unfoldable pub get_current_manifest_path : ℕ → ℕ → World → Result (Bool × Bytes × ℕ × World)
  get_current_manifest_path tries ctr w =
      let (fd, w₁) = open_current w in
      elim fd [
        | none ↦ err failed
        | some h ↦
            let (buf, w₂) = read_fd p h block_size w₁ in
            elim buf [
              | none ↦ err failed
              | some b ↦ do
                w₃ ← close p h w₂
                let make = (do
                  (made, name, ctr', w₄) ← create_new_manifest tries ctr cleared_block w₃
                  ok (true, name, ctr', w₄))
                let use_it = ok (false, b ++ drop (length b) cleared_block, ctr, w₃)
                if length b == 0 then make else use_it
            ]
      ]

  -- `Open` behind the name: a name that fills the buffer has no end, and a manifest that is short
  -- leaves the buffer unset.
  unfoldable pub read_manifest : Bytes → ManifestFs → World → Result (ManifestFs × World)
  read_manifest name m w = do
    require (ltb (length (c_string name)) block_size) undefined
    let (fd, w₁) = open_path p (full_path c (c_string name)) w
    elim fd [
      | none ↦ err failed
      | some h ↦ do
        let (buf, w₂) = read_fd p h block_size w₁
        w₃ ← close p h w₂
        elim buf [
          | none ↦ err failed
          | some b ↦ do
            require (length b == block_size) undefined
            files ← deserialize_levels b m.files
            ok (record m { files = files }, w₃)
        ]
    ]

  -- Open
  unfoldable pub open_manifest : ℕ → ManifestFs → World → Result (ManifestFs × World)
  open_manifest tries m w = do
    (made, name, ctr, w₁) ← get_current_manifest_path tries m.ctr w
    let parse = read_manifest name (record m { ctr = ctr }) w₁
    if made then ok (record m { ctr = ctr }, w₁) else parse

  -- The end of `Persist`: the file that names the current manifest is written from its start and is
  -- left open.
  unfoldable pub write_current : Bytes → World → Result World
  write_current name w =
      let (fd, w₁) = open_current w in
      elim fd [
        | none ↦ err failed
        | some h ↦
            let (place, w₂) = seek p h 0 from_start w₁ in
            let (count, w₃) = write_fd p h name w₂ in
            elim place [
              | none ↦ err failed
              | some _ ↦ elim count [ none ↦ err failed | some _ ↦ ok w₃ ]
            ]
      ]

  -- Persist
  unfoldable pub persist_manifest : ℕ → ManifestFs → World → Result (ManifestFs × World)
  persist_manifest tries m w = do
    (fd, name, ctr, w₁) ← create_new_manifest tries m.ctr cleared_block w
    buf ← serialize_levels m.files
    let (count, w₂) = write_fd p fd buf w₁
    w₃ ← close p fd w₂
    w₄ ← elim count [ none ↦ err failed | some _ ↦ write_current name w₃ ]
    ok (record m { ctr = ctr }, w₄)
