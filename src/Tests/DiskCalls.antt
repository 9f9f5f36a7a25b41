-- ===== src/Tests/DiskCalls.antt =====
-- The calls of the file system in memory that succeed.
use quarkkv_compaction.Base.{ℕ, ◌+◌, ◌≡◌, refl, true, none, some, take, drop, length}
use quarkkv_compaction.Std.Text.{Bytes}
use quarkkv_compaction.Posix.{
  IsWorking, IsFaultless, OpenFlags, creates, Whence, from_start, from_end,
}
use quarkkv_compaction.Tests.Disks.{
  Disk, view, open_disk, read_disk, seek_disk, write_disk, close_disk, unlink_disk, disks,
}

opens_lem :
    (flags : OpenFlags) (path : Bytes) (w : Disk) (i : ℕ)
    → (view w).entry path ≡ some i
    → (fd : ℕ) × ((open_disk flags path w).0 ≡ some fd)
unfolding open_disk
opens_lem flags path w i at = (w.descriptors, rw (at, open_disk) refl)

reads_lem :
    (fd n i : ℕ) (w : Disk)
    → (view w).file_of fd ≡ some i
    → (b : Bytes) × ((read_disk fd n w).0 ≡ some b)
unfolding read_disk
reads_lem fd n i w at = (take n (drop (w.raw.position fd) (w.raw.bytes i)), rw (at, read_disk) refl)

closes_lem : (fd i : ℕ) (w : Disk) → (view w).file_of fd ≡ some i → (close_disk fd w).0 ≡ true
unfolding close_disk
closes_lem fd i w at = rw (at, close_disk) refl

seeks_lem :
    (fd o i : ℕ) (whence : Whence) (w : Disk)
    → (view w).file_of fd ≡ some i
    → (r : ℕ) × ((seek_disk fd o whence w).0 ≡ some r)
unfolding seek_disk
seeks_lem fd o i from_start w at = (o, rw (at, seek_disk) refl)
seeks_lem fd o i from_end w at = (length ((view w).bytes i) + o, rw (at, seek_disk) refl)

writes_lem :
    (fd i : ℕ) (b : Bytes) (w : Disk)
    → (view w).file_of fd ≡ some i
    → (n : ℕ) × ((write_disk fd b w).0 ≡ some n)
unfolding write_disk
writes_lem fd i b w at = (length b, rw (at, write_disk) refl)

makes_lem :
    (flags : OpenFlags) (path : Bytes) (w : Disk)
    → (view w).entry path ≡ none
    → creates flags ≡ true
    → (fd : ℕ) × ((open_disk flags path w).0 ≡ some fd)
unfolding open_disk
makes_lem flags path w free is = (w.descriptors, rw (free, open_disk) (rw is refl))

unlinks_lem :
    (path : Bytes) (w : Disk) (i : ℕ) → (view w).entry path ≡ some i → (unlink_disk path w).0 ≡ true
unfolding unlink_disk
unlinks_lem path w i at = rw (at, unlink_disk) refl

pub working_disks : IsWorking disks
working_disks = record { opens = opens_lem; reads = reads_lem; closes = closes_lem }

pub faultless_disks : IsFaultless disks
faultless_disks = record {
  working = working_disks;
  seeks = seeks_lem;
  writes = writes_lem;
  makes = makes_lem;
  unlinks = unlinks_lem;
}
