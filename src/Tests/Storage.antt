-- ===== src/Tests/Storage.antt =====
-- The tables in files over the file system in memory.
use quarkkv_compaction.Base.{
  ℕ, suc, ◌<◌, ◌^◌, ◌≡◌, ◌≢◌, refl, true, Option, none, some, List, [], ◌∷◌, arith, length,
  length-replicate, replicate, if◌then◌else◌, inl, inr, Bool-cases,
}
use quarkkv_compaction.Std.Text.{Bytes, text_eq, text_eq_refl}
use quarkkv_compaction.Std.Ordered.{All}
use quarkkv_compaction.Device.{Device, IsDevice, IsReliable}
use quarkkv_compaction.Fs.{fs_device, Sole, full_path, create_name_from_id}
use quarkkv_compaction.Fs.Refines.{fs_device-IsDevice}
use quarkkv_compaction.Fs.Faultless.{paths-Differ, fs_device-IsReliable}
use quarkkv_compaction.Posix.{read_only}
use quarkkv_compaction.Tests.{config}
use quarkkv_compaction.Tests.Disks.{Disk, view, disks}
use quarkkv_compaction.Tests.DiskLaws.{lawful_disks}
use quarkkv_compaction.Tests.DiskCalls.{working_disks, faultless_disks}

abbrev pub storage : Device
storage = fs_device disks (config 0) (λ w n. replicate n 0) (λ w. w.descriptors)

pub lawful : IsDevice storage
lawful =
    fs_device-IsDevice disks lawful_disks (λ path w i at. working_disks.opens read_only path w i at)
      (config 0) (λ w n. replicate n 0) (λ w. w.descriptors) (λ w n. length-replicate n 0)

pub reliable : IsReliable storage
reliable =
    fs_device-IsReliable disks lawful_disks faultless_disks (config 0) (λ w n. replicate n 0)
      (λ w. w.descriptors) (λ w n. length-replicate n 0)

abbrev path : ℕ → Bytes
path id = full_path (config 0) (create_name_from_id id)

-- files of tables with the identifiers of a list
abbrev named : List ℕ → ℕ → Bytes → Option ℕ
named [] i q = none
named (id ∷ ids) i q = if text_eq q (path id) then some i else named ids (suc i) q

-- descriptor `j` is open on the file of the table with number `j` in the list
abbrev pub disk : List ℕ → (ℕ → Bytes) → Disk
disk ids bytes = record {
  raw = record {
    file_of = λ j. some j;
    bytes = bytes;
    entry = named ids 0;
    position = λ j. 0;
    appends = λ j. true;
  };
  descriptors = length ids;
  files = length ids;
}

pub open-Sole :
    (ids : List ℕ) (bytes : ℕ → Bytes) (h : ℕ) → h < length ids → Sole (view (disk ids bytes)) h
open-Sole ids bytes h low = (h, ground arith, λ j ne q. ground arith)

named-none :
    (ids : List ℕ) (i j : ℕ)
    → All (λ id. (id < 2 ^ 31) × (j ≢ id)) ids
    → j < 2 ^ 31
    → named ids i (path j) ≡ none
named-none [] i j h low = refl
named-none (id ∷ ids) i j h low =
    rw (paths-Differ (config 0) id j h.0.0 low h.0.1) (named-none ids (suc i) j h.1 low)

pub free-disk :
    (ids : List ℕ) (bytes : ℕ → Bytes) (j : ℕ)
    → All (λ id. (id < 2 ^ 31) × (j ≢ id)) ids
    → j < 2 ^ 31
    → storage.IsFree (disk ids bytes) j
free-disk ids bytes j h low = rw (named-none ids 0 j h low) refl

pub taken-disk :
    (id : ℕ) (ids : List ℕ) (bytes : ℕ → Bytes) → ¬ storage.IsFree (disk (id ∷ ids) bytes) id
taken-disk id ids bytes free = ground (arith, text_eq_refl (path id), free)

pub taken-second : (a b : ℕ) (bytes : ℕ → Bytes) → ¬ storage.IsFree (disk (a ∷ b ∷ []) bytes) b
taken-second a b bytes free = elim (Bool-cases (text_eq (path b) (path a))) [
  | inl same ↦ ground (arith, same, free)
  | inr other ↦ ground (arith, other, text_eq_refl (path b), free)
]
