-- ===== src/Tests/Disks.antt =====
-- A file system in memory.
use quarkkv_compaction.Base.{
  ℕ, suc, ◌+◌, ◌≡◌, refl, Bool, true, false, Option, none, some, arith, if◌then◌else◌, ltb, length,
  take, drop,
}
use quarkkv_compaction.Std.Text.{Bytes}
use quarkkv_compaction.Posix.{
  Posix, Files, OpenFlags, creates, Whence, from_start, from_end, with_open, with_file,
  with_position, with_write, with_close, with_unlink,
}

-- the files with the next descriptor and the next file; what is beyond them counts as absent
pub record Disk : Type 0 where
  pub raw : Files
  pub descriptors : ℕ
  pub files : ℕ

abbrev pub below : ℕ → Option ℕ → Option ℕ
below n none = none
below n (some i) = if ltb i n then some i else none

abbrev pub view : Disk → Files
view w = record (w.raw) {
  file_of = λ j. if ltb j w.descriptors then below w.files (w.raw.file_of j) else none;
  entry = λ q. below w.files (w.raw.entry q);
}

abbrev pub keep : Files → Disk → Disk
keep v w = record w { raw = v }

pub below_twice : (n : ℕ) (o : Option ℕ) → below n (below n o) ≡ below n o
below_twice n none = refl
below_twice n (some i) = ground arith

pub clipped :
    (n m j : ℕ) (o : Option ℕ)
    → (if ltb j n then below m (if ltb j n then below m o else none) else none)
      ≡ (if ltb j n then below m o else none)
clipped n m j none = ground arith
clipped n m j (some i) = ground arith

-- what is kept is what is seen, where it is within the bounds
pub seen :
    (v : Files) (n m : ℕ)
    → ((j : ℕ) → (if ltb j n then below m (v.file_of j) else none) ≡ v.file_of j)
    → ((q : Bytes) → below m (v.entry q) ≡ v.entry q)
    → view (record { raw = v; descriptors = n; files = m }) ≡ v
seen v n m f g = λ i. record v { file_of = λ j. f j i; entry = λ q. g q i }

pub seen_same :
    (w : Disk) (v : Files)
    → ((j : ℕ) → v.file_of j ≡ (view w).file_of j)
    → ((q : Bytes) → v.entry q ≡ (view w).entry q)
    → view (keep v w) ≡ v
seen_same w v f g =
    seen v w.descriptors w.files (λ j. rw (f j) (clipped w.descriptors w.files j (w.raw.file_of j)))
      (λ q. rw (g q) (below_twice w.files (w.raw.entry q)))

unfoldable pub open_disk : OpenFlags → Bytes → Disk → Option ℕ × Disk
open_disk flags path w =
    let make : Option ℕ × Disk = (
      some w.descriptors,
      record {
        raw = with_open w.descriptors w.files flags (with_file path w.files (view w));
        descriptors = suc w.descriptors;
        files = suc w.files;
      },
    ) in
    elim ((view w).entry path) [
      | none ↦ if creates flags then make else (none, w)
      | some i ↦ (
        some w.descriptors,
        record {
          raw = with_open w.descriptors i flags (view w);
          descriptors = suc w.descriptors;
          files = w.files;
        },
      )
    ]

unfoldable pub read_disk : ℕ → ℕ → Disk → Option Bytes × Disk
read_disk fd n w =
    let v = view w in
    elim (v.file_of fd) [
      | none ↦ (none, w)
      | some i ↦
          let b = take n (drop (v.position fd) (v.bytes i)) in
          (some b, keep (with_position fd (v.position fd + length b) v) w)
    ]

unfoldable pub seek_disk : ℕ → ℕ → Whence → Disk → Option ℕ × Disk
seek_disk fd o whence w =
    let v = view w in
    elim (v.file_of fd) [
      | none ↦ (none, w)
      | some i ↦
          let place : ℕ = elim whence [ from_start ↦ o | from_end ↦ length (v.bytes i) + o ] in
          (some place, keep (with_position fd place v) w)
    ]

unfoldable pub write_disk : ℕ → Bytes → Disk → Option ℕ × Disk
write_disk fd b w =
    let v = view w in
    elim (v.file_of fd) [
      | none ↦ (none, w)
      | some i ↦ (some (length b), keep (with_write fd i b v) w)
    ]

unfoldable pub close_disk : ℕ → Disk → Bool × Disk
close_disk fd w =
    let v = view w in
    elim (v.file_of fd) [ none ↦ (false, w) | some i ↦ (true, keep (with_close fd v) w) ]

unfoldable pub unlink_disk : Bytes → Disk → Bool × Disk
unlink_disk path w =
    let v = view w in
    elim (v.entry path) [ none ↦ (false, w) | some i ↦ (true, keep (with_unlink path v) w) ]

abbrev pub disks : Posix
disks = record {
  World = Disk;
  view = λ w. view w;
  umask = λ m w. (0, w);
  open_file = open_disk;
  read = read_disk;
  lseek = seek_disk;
  write = write_disk;
  close = close_disk;
  unlink = unlink_disk;
}
