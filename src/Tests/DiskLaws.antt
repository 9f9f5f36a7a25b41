-- ===== src/Tests/DiskLaws.antt =====
-- The file system in memory behaves as documented.
use quarkkv_compaction.Base.{
  ℕ, suc, ◌+◌, ◌≡◌, ◌≢◌, refl, sym, ap, ◌∙◌, Bool, true, false, Option, none, some, arith,
  if◌then◌else◌, ltb, ◌==◌, length, take, drop, inl, inr, Option-cases, Bool-cases,
}
use quarkkv_compaction.Std.Text.{Bytes, text_eq}
use quarkkv_compaction.Posix.{
  Files, IsPosix, IsUnused, OpenFlags, creates, from_start, from_end, with_open, with_file,
  with_position, with_write, with_close, with_unlink,
}
use quarkkv_compaction.Tests.Disks.{
  Disk, below, view, keep, below_twice, clipped, seen, seen_same, open_disk, read_disk, seek_disk,
  write_disk, close_disk, unlink_disk, disks,
}

read_disk_lem :
    (fd n : ℕ) (w : Disk) (b : Bytes)
    → (read_disk fd n w).0 ≡ some b
    → (i : ℕ) × ((view w).file_of fd ≡ some i)
      × (b ≡ take n (drop ((view w).position fd) ((view w).bytes i)))
      × (view (read_disk fd n w).1 ≡ with_position fd ((view w).position fd + length b) (view w))
unfolding read_disk
read_disk_lem fd n w b e = elim (Option-cases ((view w).file_of fd)) [
  | inl shut ↦ absurd (ground arith)
  | inr (i, at) ↦
      let is : b ≡ take n (drop (w.raw.position fd) (w.raw.bytes i)) = ground arith in
      let run : read_disk fd n w
          ≡ (some b, keep (with_position fd (w.raw.position fd + length b) (view w)) w) =
        rw (at, read_disk, is) refl in
      (i, at, is, ap (λ t. view t.1) run ∙ seen_same w _ (λ j. refl) (λ q. refl))
]

below-some : (n : ℕ) (o : Option ℕ) (i : ℕ) → below n o ≡ some i → ltb i n ≡ true
below-some n none i e = cc
below-some n (some k) i e = ground arith

within_open :
    (n m i j : ℕ) (o : Option ℕ)
    → ltb i m ≡ true
    → (if ltb j (suc n)
        then below m (if j == n then some i else (if ltb j n then below m o else none))
        else none)
      ≡ (if j == n then some i else (if ltb j n then below m o else none))
within_open n m i j none h = ground arith
within_open n m i j (some k) h = ground arith

within_new :
    (n m j : ℕ) (o : Option ℕ)
    → (if ltb j (suc n)
        then below (suc m) (if j == n then some m else (if ltb j n then below m o else none))
        else none)
      ≡ (if j == n then some m else (if ltb j n then below m o else none))
within_new n m j none = ground arith
within_new n m j (some k) = ground arith

within_entry :
    (m : ℕ) (o : Option ℕ) (b : Bool)
    → below (suc m) (if b then some m else below m o) ≡ (if b then some m else below m o)
within_entry m none b = ground arith
within_entry m (some k) b = ground arith

unused_below : (n : ℕ) (o : Option ℕ) → below n o ≢ some n
unused_below n none e = cc
unused_below n (some k) e = ground arith

unused_open : (n m j : ℕ) (o : Option ℕ) → (if ltb j n then below m o else none) ≢ some m
unused_open n m j none e = ground arith
unused_open n m j (some k) e = ground arith

closed_next : (w : Disk) → (view w).file_of w.descriptors ≡ none
closed_next w = ground arith

open_old_lem :
    (flags : OpenFlags) (path : Bytes) (w : Disk) (fd i : ℕ)
    → (view w).entry path ≡ some i
    → (open_disk flags path w).0 ≡ some fd
    → ((view w).file_of fd ≡ none)
      × (view (open_disk flags path w).1 ≡ with_open fd i flags (view w))
unfolding open_disk
open_old_lem flags path w fd i at e =
    let v : Files = with_open w.descriptors i flags (view w) in
    let run : open_disk flags path w ≡ (
      some w.descriptors,
      record { raw = v; descriptors = suc w.descriptors; files = w.files },
    ) =
      rw (at, open_disk) refl in
    let same : w.descriptors ≡ fd = cc (sym (ap (λ t. t.0) run) ∙ e) in
    (
      ap (view w).file_of (sym same) ∙ closed_next w,
      ap (λ t. view t.1) run
          ∙ seen v (suc w.descriptors) w.files
              (λ j.
                within_open w.descriptors w.files i j (w.raw.file_of j)
                  (below-some w.files (w.raw.entry path) i at))
              (λ q. below_twice w.files (w.raw.entry q))
          ∙ ap (λ k. with_open k i flags (view w)) same,
    )

open_absent_lem :
    (flags : OpenFlags) (path : Bytes) (w : Disk) (fd : ℕ)
    → (view w).entry path ≡ none
    → creates flags ≡ false
    → (open_disk flags path w).0 ≢ some fd
unfolding open_disk
open_absent_lem flags path w fd at not e =
    let run : open_disk flags path w ≡ (none, w) = rw (at, open_disk, not) refl in
    cc (sym (ap (λ t. t.0) run) ∙ e)

open_new_lem :
    (flags : OpenFlags) (path : Bytes) (w : Disk) (fd : ℕ)
    → (view w).entry path ≡ none
    → (open_disk flags path w).0 ≡ some fd
    → ((view w).file_of fd ≡ none)
      × ((i : ℕ) × IsUnused i (view w)
          × (view (open_disk flags path w).1 ≡ with_open fd i flags (with_file path i (view w))))
unfolding open_disk
open_new_lem flags path w fd at e = elim (Bool-cases (creates flags)) [
  | inr not ↦ absurd (open_absent_lem flags path w fd at not e)
  | inl makes ↦
      let v : Files = with_open w.descriptors w.files flags (with_file path w.files (view w)) in
      let run : open_disk flags path w ≡ (
        some w.descriptors,
        record { raw = v; descriptors = suc w.descriptors; files = suc w.files },
      ) =
        rw (at, open_disk, makes) refl in
      let same : w.descriptors ≡ fd = cc (sym (ap (λ t. t.0) run) ∙ e) in
      (
        ap (view w).file_of (sym same) ∙ closed_next w,
        (
          w.files,
          (
            λ j q. unused_open w.descriptors w.files j (w.raw.file_of j) q,
            λ q r. unused_below w.files (w.raw.entry q) r,
          ),
          ap (λ t. view t.1) run
              ∙ seen v (suc w.descriptors) (suc w.files)
                  (λ j. within_new w.descriptors w.files j (w.raw.file_of j))
                  (λ q. within_entry w.files (w.raw.entry q) (text_eq q path))
              ∙ ap (λ k. with_open k w.files flags (with_file path w.files (view w))) same,
        ),
      )
]

open_failed_lem :
    (flags : OpenFlags) (path : Bytes) (w : Disk)
    → (open_disk flags path w).0 ≡ none
    → view (open_disk flags path w).1 ≡ view w
unfolding open_disk
open_failed_lem flags path w e = elim (Option-cases ((view w).entry path)) [
  | inr (i, at) ↦ absurd (ground arith)
  | inl at ↦ elim (Bool-cases (creates flags)) [
    | inl makes ↦ absurd (ground arith)
    | inr not ↦
        let run : open_disk flags path w ≡ (none, w) = rw (at, open_disk, not) refl in
        ap (λ t. view t.1) run
  ]
]

seek_start_lem :
    (fd o r : ℕ) (w : Disk)
    → (seek_disk fd o from_start w).0 ≡ some r
    → view (seek_disk fd o from_start w).1 ≡ with_position fd o (view w)
unfolding seek_disk
seek_start_lem fd o r w e = elim (Option-cases ((view w).file_of fd)) [
  | inl shut ↦ absurd (ground arith)
  | inr (i, at) ↦
      let run : seek_disk fd o from_start w ≡ (some o, keep (with_position fd o (view w)) w) =
        rw (at, seek_disk) refl in
      ap (λ t. view t.1) run ∙ seen_same w _ (λ j. refl) (λ q. refl)
]

seek_end_lem :
    (fd r : ℕ) (w : Disk)
    → (seek_disk fd 0 from_end w).0 ≡ some r
    → (i : ℕ) × ((view w).file_of fd ≡ some i)
      × (view (seek_disk fd 0 from_end w).1 ≡ with_position fd (length ((view w).bytes i)) (view w))
unfolding seek_disk
seek_end_lem fd r w e = elim (Option-cases ((view w).file_of fd)) [
  | inl shut ↦ absurd (ground arith)
  | inr (i, at) ↦
      let end : ℕ = length (w.raw.bytes i) + 0 in
      let run : seek_disk fd 0 from_end w ≡ (some end, keep (with_position fd end (view w)) w) =
        rw (at, seek_disk) refl in
      (
        i,
        at,
        ap (λ t. view t.1) run
            ∙ seen_same w _ (λ j. refl) (λ q. refl)
            ∙ ap (λ (t : ℕ). with_position fd t (view w)) (omega arith),
      )
]

write_lem :
    (fd n : ℕ) (b : Bytes) (w : Disk)
    → (write_disk fd b w).0 ≡ some n
    → (i : ℕ) × ((view w).file_of fd ≡ some i)
      × (view (write_disk fd b w).1 ≡ with_write fd i b (view w))
unfolding write_disk
write_lem fd n b w e = elim (Option-cases ((view w).file_of fd)) [
  | inl shut ↦ absurd (ground arith)
  | inr (i, at) ↦
      let run : write_disk fd b w ≡ (some (length b), keep (with_write fd i b (view w)) w) =
        rw (at, write_disk) refl in
      (i, at, ap (λ t. view t.1) run ∙ seen_same w _ (λ j. refl) (λ q. refl))
]

within_close :
    (n m j fd : ℕ) (o : Option ℕ)
    → (if ltb j n
        then below m (if j == fd then none else (if ltb j n then below m o else none))
        else none)
      ≡ (if j == fd then none else (if ltb j n then below m o else none))
within_close n m j fd none = ground arith
within_close n m j fd (some k) = ground arith

close_lem :
    (fd : ℕ) (w : Disk)
    → (close_disk fd w).0 ≡ true
    → view (close_disk fd w).1 ≡ with_close fd (view w)
unfolding close_disk
close_lem fd w e = elim (Option-cases ((view w).file_of fd)) [
  | inl shut ↦ absurd (ground arith)
  | inr (i, at) ↦
      let v : Files = with_close fd (view w) in
      let run : close_disk fd w ≡ (true, keep v w) = rw (at, close_disk) refl in
      ap (λ t. view t.1) run
      ∙ seen v w.descriptors w.files
          (λ j. within_close w.descriptors w.files j fd (w.raw.file_of j))
          (λ q. below_twice w.files (w.raw.entry q))
]

within_unlink :
    (m : ℕ) (o : Option ℕ) (b : Bool)
    → below m (if b then none else below m o) ≡ (if b then none else below m o)
within_unlink m none b = ground arith
within_unlink m (some k) b = ground arith

unlink_lem :
    (path : Bytes) (w : Disk)
    → (unlink_disk path w).0 ≡ true
    → view (unlink_disk path w).1 ≡ with_unlink path (view w)
unfolding unlink_disk
unlink_lem path w e = elim (Option-cases ((view w).entry path)) [
  | inl absent ↦ absurd (ground arith)
  | inr (i, at) ↦
      let v : Files = with_unlink path (view w) in
      let run : unlink_disk path w ≡ (true, keep v w) = rw (at, unlink_disk) refl in
      ap (λ t. view t.1) run
      ∙ seen v w.descriptors w.files (λ j. clipped w.descriptors w.files j (w.raw.file_of j))
          (λ q. within_unlink w.files (w.raw.entry q) (text_eq q path))
]

pub lawful_disks : IsPosix disks
lawful_disks = record {
  view-umask = λ m w. refl;
  open_old = open_old_lem;
  open_absent = open_absent_lem;
  open_new = open_new_lem;
  open_failed = open_failed_lem;
  read_file = read_disk_lem;
  seek_start = seek_start_lem;
  seek_end = seek_end_lem;
  write_file = write_lem;
  close_file = close_lem;
  unlink_file = unlink_lem;
}
