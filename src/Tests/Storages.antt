-- ===== src/Tests/Storages.antt =====
-- The storages at work on the file system in memory.
use quarkkv_compaction.Base.{
  ℕ, ◌≡◌, refl, arith, none, [], ◌∷◌, false, Result, ok, err, Returns, length-replicate, replicate,
}
use quarkkv_compaction.Std.Text.{compare_text}
use quarkkv_compaction.Device.{IsDevice}
use quarkkv_compaction.Posix.{read_only}
use quarkkv_compaction.Fs.{fs_device}
use quarkkv_compaction.Fs.Refines.{fs_device-IsDevice}
use quarkkv_compaction.Manifest.{serialize_levels, word_bytes, level_bytes, get_number_of_live_ssts}
use quarkkv_compaction.Sst.Write.{le_bytes}
use quarkkv_compaction.Fs.{create, full_path, close, open_for_write}
use quarkkv_compaction.Fs.Manifests
use quarkkv_compaction.Fs.Manifests.{
  ManifestFs, create_new_manifest, manifest_name, open_current, write_current, persist_manifest,
  open_manifest,
}
use quarkkv_compaction.Fs.RoundTrip.{open-persist}
use quarkkv_compaction.Fs.Names.{create_name_from_id-injective}
use quarkkv_compaction.Tests.{config}
use quarkkv_compaction.Tests.Disks.{Disk, disks, open_disk, write_disk, seek_disk, close_disk}
use quarkkv_compaction.Tests.DiskLaws.{lawful_disks}
use quarkkv_compaction.Tests.DiskCalls.{working_disks}

fs_device-IsDevice_example :
    IsDevice (fs_device disks (config 2) (λ w n. replicate n 0) (λ w. w.descriptors))
fs_device-IsDevice_example =
    fs_device-IsDevice disks lawful_disks (λ path w i at. working_disks.opens read_only path w i at)
      (config 2) (λ w n. replicate n 0) (λ w. w.descriptors) (λ w n. length-replicate n 0)

create_name_from_id-injective_example : ◌≡◌ {A = ℕ} 1000000 1000000
create_name_from_id-injective_example =
    create_name_from_id-injective 1000000 1000000 (omega arith) (omega arith) refl

abbrev blank : Disk
blank = record {
  raw = record {
    file_of = λ j. none;
    bytes = λ i. [];
    entry = λ q. none;
    position = λ j. 0;
    appends = λ j. false;
  };
  descriptors = 0;
  files = 0;
}

abbrev manifest : ManifestFs
manifest = record { files = (7 ∷ 8 ∷ []) ∷ (9 ∷ []) ∷ [] ∷ [] ∷ [] ∷ [] ∷ [] ∷ []; ctr = 0 }

abbrev persisted : Result (ManifestFs × Disk)
persisted = persist_manifest disks (config 2) 1 manifest blank

abbrev kept : Result (ManifestFs × Disk) → ManifestFs × Disk
kept (ok r) = r
kept (err fault) = (manifest, blank)

abbrev after : ManifestFs × Disk
after = kept persisted

persisted_lem : persisted ≡ ok (after.0, after.1)
unfolding persist_manifest create_new_manifest write_current create full_path manifest_name
    serialize_levels open_disk write_disk seek_disk close_disk close open_current open_for_write
    word_bytes le_bytes level_bytes get_number_of_live_ssts compare_text
persisted_lem = refl

open-persist_example :
    Returns
      (open_manifest disks (config 2) 3 (Manifests.new (config 2)) after.1)
      λ r. r.0.files ≡ manifest.files
open-persist_example =
    open-persist disks lawful_disks working_disks (config 2) 1 3 manifest after.0 blank after.1
      persisted_lem (λ i e. cc) refl
      ((omega arith, (omega arith, tt)), ((omega arith, tt), (tt, (tt, (tt, (tt, (tt, tt)))))))
      (omega arith)
