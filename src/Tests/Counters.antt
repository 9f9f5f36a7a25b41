-- ===== src/Tests/Counters.antt =====
-- The counter of identifiers where the first names are taken.
use quarkkv_compaction.Base.{◌≡◌, refl, [], ◌∷◌, some, arith, ok}
use quarkkv_compaction.Fs.{create, create_new_empty, open_unmasked, create_name_from_id, full_path}
use quarkkv_compaction.SstManager.{wrap, new_empty_sst}
use quarkkv_compaction.SstManager.Free.{new_empty_sst-free}
use quarkkv_compaction.Tests.{config}
use quarkkv_compaction.Tests.Disks.{Disk, open_disk}
use quarkkv_compaction.Tests.Storage.{storage, disk}

-- the names of 1 and 2 are taken
abbrev crowded : Disk
crowded = disk (1 ∷ 2 ∷ []) (λ j. [])

-- Each of them has cost a descriptor.
abbrev refused : Disk
refused = (storage.create 2 (storage.create 1 crowded).1).1

abbrev found : Disk
found = (storage.create 3 refused).1

new_empty_sst-free_example :
    new_empty_sst storage (config 2) 4 (record { ctr = 1; clock = 0 }) crowded
    ≡ ok (some (wrap storage (config 2) 4 3 found), record { ctr = 4; clock = 0 }, found)
unfolding create_new_empty create open_unmasked open_disk create_name_from_id full_path
    quarkkv_compaction.Std.Text.compare_text quarkkv_compaction.Std.Decimal.zero_padded
    quarkkv_compaction.Base.replicate quarkkv_compaction.Std.Decimal.decimal
    quarkkv_compaction.Std.Decimal.digits
new_empty_sst-free_example =
    new_empty_sst-free storage (config 2) refl 2 4 1 3 0 4 crowded refused found refl (omega arith)
      (refl, (refl, refl)) refl (omega arith)
