-- ===== src/Posix.antt =====
-- The system calls that fs/io_fs.cpp makes, as parameters, and what is documented of them. A result -1
-- is `none`, and so is a result that is not 0 of `close` and `unlink`.
use quarkkv_compaction.Base.{
  ℕ, ◌+◌, ◌≡◌, ◌≢◌, Bool, true, false, Option, none, some, [], ◌++◌, if◌then◌else◌, ◌==◌, length,
  take, drop,
}
use quarkkv_compaction.Std.Text.{Bytes, text_eq}

-- the flags of `open`: O_RDONLY; O_APPEND with O_CREAT; O_CREAT alone; O_APPEND alone
pub data OpenFlags : Type 0 where
  read_only append_create write_create append_only : OpenFlags

abbrev pub creates : OpenFlags → Bool
creates read_only = false
creates append_create = true
creates write_create = true
creates append_only = false

abbrev pub appends_with : OpenFlags → Bool
appends_with read_only = false
appends_with append_create = true
appends_with write_create = false
appends_with append_only = true

-- SEEK_SET and SEEK_END
pub data Whence : Type 0 where
  from_start from_end : Whence

-- What a program sees of the files: which file a descriptor is open on, the bytes of a file, the file
-- of a path, and the place and the append flag of a descriptor.
pub record Files : Type 0 where
  pub file_of : ℕ → Option ℕ
  pub bytes : ℕ → Bytes
  pub entry : Bytes → Option ℕ
  pub position : ℕ → ℕ
  pub appends : ℕ → Bool

abbrev pub with_open : ℕ → ℕ → OpenFlags → Files → Files
with_open fd i flags v = record v {
  file_of = λ j. if j == fd then some i else v.file_of j;
  position = λ j. if j == fd then 0 else v.position j;
  appends = λ j. if j == fd then appends_with flags else v.appends j;
}

abbrev pub with_file : Bytes → ℕ → Files → Files
with_file path i v = record v {
  entry = λ q. if text_eq q path then some i else v.entry q;
  bytes = λ k. if k == i then [] else v.bytes k;
}

abbrev pub with_position : ℕ → ℕ → Files → Files
with_position fd p v = record v { position = λ j. if j == fd then p else v.position j }

-- the bytes of a file after a write
abbrev pub overwritten : Bool → ℕ → Bytes → Bytes → Bytes
overwritten append p b old =
    if append then old ++ b else take p old ++ (b ++ drop (p + length b) old)

abbrev pub with_write : ℕ → ℕ → Bytes → Files → Files
with_write fd i b v = record v {
  bytes =
      λ k. if k == i then overwritten (v.appends fd) (v.position fd) b (v.bytes i) else v.bytes k;
  position = λ j.
      if j == fd
      then length (if v.appends fd then v.bytes i else take (v.position fd) (v.bytes i)) + length b
      else v.position j;
}

abbrev pub with_close : ℕ → Files → Files
with_close fd v = record v { file_of = λ j. if j == fd then none else v.file_of j }

abbrev pub with_unlink : Bytes → Files → Files
with_unlink path v = record v { entry = λ q. if text_eq q path then none else v.entry q }

pub record Posix : Type 1 where
  pub World : Type 0
  pub view : World → Files
  pub umask : ℕ → World → ℕ × World
  pub open_file : OpenFlags → Bytes → World → Option ℕ × World
  pub read : ℕ → ℕ → World → Option Bytes × World
  pub lseek : ℕ → ℕ → Whence → World → Option ℕ × World
  pub write : ℕ → Bytes → World → Option ℕ × World
  pub close : ℕ → World → Bool × World
  pub unlink : Bytes → World → Bool × World

-- no path and no descriptor leads to the file
abbrev pub IsUnused : ℕ → Files → Type 0
IsUnused i v = ((j : ℕ) → v.file_of j ≢ some i) × ((q : Bytes) → v.entry q ≢ some i)

-- The documented behaviour of the calls that succeed, on regular files, whose reads give what is there
-- and whose writes are whole.
pub record IsPosix (p : Posix) : Type 0 where
  pub view-umask : (m : ℕ) (w : p.World) → p.view (p.umask m w).1 ≡ p.view w
  pub open_old :
      (flags : OpenFlags) (path : Bytes) (w : p.World) (fd i : ℕ)
      → (p.view w).entry path ≡ some i
      → (p.open_file flags path w).0 ≡ some fd
      → ((p.view w).file_of fd ≡ none)
        × (p.view (p.open_file flags path w).1 ≡ with_open fd i flags (p.view w))
  pub open_absent :
      (flags : OpenFlags) (path : Bytes) (w : p.World) (fd : ℕ)
      → (p.view w).entry path ≡ none
      → creates flags ≡ false
      → (p.open_file flags path w).0 ≢ some fd
  pub open_new :
      (flags : OpenFlags) (path : Bytes) (w : p.World) (fd : ℕ)
      → (p.view w).entry path ≡ none
      → (p.open_file flags path w).0 ≡ some fd
      → ((p.view w).file_of fd ≡ none)
        × ((i : ℕ) × IsUnused i (p.view w)
            × (p.view (p.open_file flags path w).1
                ≡ with_open fd i flags (with_file path i (p.view w))))
  pub open_failed :
      (flags : OpenFlags) (path : Bytes) (w : p.World)
      → (p.open_file flags path w).0 ≡ none
      → p.view (p.open_file flags path w).1 ≡ p.view w
  pub read_file :
      (fd n : ℕ) (w : p.World) (b : Bytes)
      → (p.read fd n w).0 ≡ some b
      → (i : ℕ) × ((p.view w).file_of fd ≡ some i)
        × (b ≡ take n (drop ((p.view w).position fd) ((p.view w).bytes i)))
        × (p.view (p.read fd n w).1
            ≡ with_position fd ((p.view w).position fd + length b) (p.view w))
  pub seek_start :
      (fd o r : ℕ) (w : p.World)
      → (p.lseek fd o from_start w).0 ≡ some r
      → p.view (p.lseek fd o from_start w).1 ≡ with_position fd o (p.view w)
  pub seek_end :
      (fd r : ℕ) (w : p.World)
      → (p.lseek fd 0 from_end w).0 ≡ some r
      → (i : ℕ) × ((p.view w).file_of fd ≡ some i)
        × (p.view (p.lseek fd 0 from_end w).1
            ≡ with_position fd (length ((p.view w).bytes i)) (p.view w))
  pub write_file :
      (fd n : ℕ) (b : Bytes) (w : p.World)
      → (p.write fd b w).0 ≡ some n
      → (i : ℕ) × ((p.view w).file_of fd ≡ some i)
        × (p.view (p.write fd b w).1 ≡ with_write fd i b (p.view w))
  pub close_file :
      (fd : ℕ) (w : p.World)
      → (p.close fd w).0 ≡ true
      → p.view (p.close fd w).1 ≡ with_close fd (p.view w)
  pub unlink_file :
      (path : Bytes) (w : p.World)
      → (p.unlink path w).0 ≡ true
      → p.view (p.unlink path w).1 ≡ with_unlink path (p.view w)

-- A file that is there can be opened for reading: the program may read it, and has descriptors left.
abbrev pub OpensThere : Posix → Type 0
OpensThere p =
    (path : Bytes) (w : p.World) (i : ℕ)
    → (p.view w).entry path ≡ some i
    → (fd : ℕ) × ((p.open_file read_only path w).0 ≡ some fd)

-- Storage on which the calls succeed that a program may expect to: a file that is there can be opened,
-- and an open one read and closed.
pub record IsWorking (p : Posix) : Type 0 where
  pub opens :
      (flags : OpenFlags) (path : Bytes) (w : p.World) (i : ℕ)
      → (p.view w).entry path ≡ some i
      → (fd : ℕ) × ((p.open_file flags path w).0 ≡ some fd)
  pub reads :
      (fd n i : ℕ) (w : p.World)
      → (p.view w).file_of fd ≡ some i
      → (b : Bytes) × ((p.read fd n w).0 ≡ some b)
  pub closes : (fd i : ℕ) (w : p.World) → (p.view w).file_of fd ≡ some i → (p.close fd w).0 ≡ true

-- Storage on which all calls succeed that a program may expect to: besides, an open file can be sought
-- and written, a file that is not there made, and one that is there unlinked.
pub record IsFaultless (p : Posix) : Type 0 where
  pub working : IsWorking p
  pub open working use *
  pub seeks :
      (fd o i : ℕ) (whence : Whence) (w : p.World)
      → (p.view w).file_of fd ≡ some i
      → (r : ℕ) × ((p.lseek fd o whence w).0 ≡ some r)
  pub writes :
      (fd i : ℕ) (b : Bytes) (w : p.World)
      → (p.view w).file_of fd ≡ some i
      → (n : ℕ) × ((p.write fd b w).0 ≡ some n)
  pub makes :
      (flags : OpenFlags) (path : Bytes) (w : p.World)
      → (p.view w).entry path ≡ none
      → creates flags ≡ true
      → (fd : ℕ) × ((p.open_file flags path w).0 ≡ some fd)
  pub unlinks :
      (path : Bytes) (w : p.World) (i : ℕ)
      → (p.view w).entry path ≡ some i
      → (p.unlink path w).0 ≡ true
