-- ===== src/Fs.antt =====
-- fs/io_fs.cpp, the system calls with their messages left out, and fs/SSTFS.cpp, the tables in files.
-- `Stat` is not called.
pub mod Storage
pub mod Refines
pub mod Names
pub mod Faultless
pub mod Manifests
pub mod Writing
pub mod RoundTrip
pub mod Reopened
pub mod Blocks
pub mod Current
use quarkkv_compaction.Base.{
  ℕ, ◌+◌, Bool, true, false, Option, none, some, ◌≡◌, ◌≢◌, [], ◌∷◌, ◌++◌, Result, ok, err, failed,
  aborted, undefined, ◌>>=◌,
}
use quarkkv_compaction.Std.Text.{Bytes}
use quarkkv_compaction.Std.Decimal.{zero_padded}
use quarkkv_compaction.Config.{Config}
use quarkkv_compaction.Posix.{
  Posix, Files, OpenFlags, read_only, append_create, write_create, append_only, Whence, from_start,
  from_end,
}
use quarkkv_compaction.Device.{Device}

-- SST::createNameFromID
unfoldable pub create_name_from_id : ℕ → Bytes
create_name_from_id id = zero_padded 6 id ++ b'.' ∷ b's' ∷ b's' ∷ b't' ∷ []

-- Manifest::getFullPath, and what the methods of SSTFS write for it
unfoldable pub full_path : Config → Bytes → Bytes
full_path c name = c.fs_dbdir ++ (b'/' ∷ name)

-- the bytes of the file that a descriptor is open on
abbrev pub content_of : Files → ℕ → Bytes
content_of v h = elim (v.file_of h) [ none ↦ [] | some i ↦ v.bytes i ]

-- the descriptor is open, and no other is open on its file
abbrev pub Sole : Files → ℕ → Type 0
Sole v h = (i : ℕ) × (v.file_of h ≡ some i) × ((j : ℕ) → h ≢ j → v.file_of j ≢ some i)

module _ (p : Posix) where
  open p use {World}

  -- `open` between two calls of `umask`
  unfoldable pub open_unmasked : OpenFlags → Bytes → World → Option ℕ × World
  open_unmasked flags path w =
      let (old, w₁) = p.umask 0 w in
      let (fd, w₂) = p.open_file flags path w₁ in let (zeroed, w₃) = p.umask old w₂ in (fd, w₃)

  -- Create: the descriptor that shows that the path is taken stays open.
  unfoldable pub create : Bytes → World → Option ℕ × World
  unfolding open_unmasked
  create path w =
      let (taken, w₁) = p.open_file read_only path w in
      elim taken [ some fd ↦ (none, w₁) | none ↦ open_unmasked append_create path w₁ ]

  unfoldable pub open_for_write : Bytes → World → Option ℕ × World
  open_for_write path w = open_unmasked write_create path w

  -- Open
  unfoldable pub open_path : Bytes → World → Option ℕ × World
  open_path path w = open_unmasked append_only path w

  -- `Close` ends the program when the call fails.
  unfoldable pub close : ℕ → World → Result World
  close fd w = let (closed, w') = p.close fd w in elim closed [ true ↦ ok w' | false ↦ err aborted ]

  -- Read, Seek, Write and Unlink hand the call on.
  abbrev pub read_fd : ℕ → ℕ → World → Option Bytes × World
  read_fd fd length w = p.read fd length w

  abbrev pub seek : ℕ → ℕ → Whence → World → Option ℕ × World
  seek fd offset whence w = p.lseek fd offset whence w

  abbrev pub write_fd : ℕ → Bytes → World → Option ℕ × World
  write_fd fd src w = p.write fd src w

  abbrev pub unlink_path : Bytes → World → Bool × World
  unlink_path path w = p.unlink path w

  -- CreateNewEmpty: the descriptor and the identifier of the new object, or a null pointer
  unfoldable pub create_new_empty : Config → ℕ → World → Option (ℕ × ℕ) × World
  create_new_empty c id w =
      let (fd, w') = create (full_path c (create_name_from_id id)) w in
      (elim fd [ none ↦ none | some h ↦ some (h, id) ], w')

  -- OpenWithID without the call of `Parse`
  unfoldable pub open_with_id : Config → ℕ → World → Option (ℕ × World)
  open_with_id c id w =
      let (fd, w') = open_path (full_path c (create_name_from_id id)) w in
      elim fd [ none ↦ none | some h ↦ some (h, w') ]

  -- Remove; `fullName_` is the path that the object was made with.
  unfoldable pub remove : Config → ℕ → ℕ → World → Result World
  remove c handler id w = do
    w₁ ← close handler w
    let (done, w₂) = unlink_path (full_path c (create_name_from_id id)) w₁
    elim done [ true ↦ ok w₂ | false ↦ err failed ]

  unfoldable pub append : ℕ → Bytes → World → Result World
  append handler buf w =
      let (place, w₁) = seek handler 0 from_end w in
      let (count, w₂) = write_fd handler buf w₁ in
      elim place [ none ↦ err failed | some _ ↦ elim count [ none ↦ err failed | some _ ↦ ok w₂ ] ]

  -- The state that a read leaves differs from the one before in the place of the descriptor alone.
  unfoldable pub read_at : ℕ → ℕ → ℕ → World → Result (Bytes × World)
  read_at handler size offset w =
      let (place, w₁) = seek handler offset from_start w in
      let (buf, w₂) = read_fd handler size w₁ in
      elim place [
        | none ↦ err failed
        | some _ ↦ elim buf [ none ↦ err failed | some b ↦ ok (b, w₂) ]
      ]

  unfoldable pub read : ℕ → ℕ → ℕ → World → Result Bytes
  read handler size offset w = do (b, w') ← read_at handler size offset w; ok b

  -- The storage of the tables, with what is in memory that has just been given out, and `rand`.
  abbrev pub fs_device : Config → (World → ℕ → Bytes) → (World → ℕ) → Device
  fs_device c uninitialised random = record {
    World = World;
    IsOpen = λ w h. Sole (p.view w) h;
    content = λ w h. content_of (p.view w) h;
    IsFree = λ w id. (p.view w).entry (full_path c (create_name_from_id id)) ≡ none;
    append = append;
    read = read;
    create = create_new_empty c;
    remove = remove c;
    move_append = λ h source size offset w. err undefined;
    uninitialised = uninitialised;
    random = random;
  }
