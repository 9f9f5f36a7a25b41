-- ===== src/Tests/Runs.antt =====
-- A database in files on the file system in memory that is opened, takes a pair and flushes it.
use quarkkv_compaction.Base.{◌≡◌, refl, [], ◌∷◌, Result, ok, err, arith, replicate}
use quarkkv_compaction.Manifest
use quarkkv_compaction.MemTable
use quarkkv_compaction.SstManager
use quarkkv_compaction.Config.{kv_size}
use quarkkv_compaction.Compacter.{cleared}
use quarkkv_compaction.Compacter.Numbered.{AreBelow}
use quarkkv_compaction.Db
use quarkkv_compaction.Db.{Db, open_db, put, open_levels, open_tables}
use quarkkv_compaction.Db.Mirrored.{Mirrors}
use quarkkv_compaction.Db.Runs.{Runs, Runs-Mirrors}
use quarkkv_compaction.Device.{KeepsIds}
use quarkkv_compaction.Fs.{create, create_new_empty, open_unmasked, append}
use quarkkv_compaction.Tests.{config}
use quarkkv_compaction.Tests.Disks.{Disk, open_disk, seek_disk, write_disk}
use quarkkv_compaction.Tests.Storage.{storage, lawful, disk}
use quarkkv_compaction.Tests.Databases.{catalog}

abbrev blank : Disk
blank = disk [] (λ j. [])

-- seven levels, which is what the configuration has
abbrev first : Db storage
first = record {
  state = record {
    levels = [] ∷ [] ∷ [] ∷ [] ∷ [] ∷ [] ∷ [] ∷ [];
    manager = record { ctr = 0; clock = 0 };
    world = blank;
    stats = cleared;
    total = cleared;
  };
  files = [] ∷ [] ∷ [] ∷ [] ∷ [] ∷ [] ∷ [] ∷ [];
  mem_table = record { table = []; limit = 1 };
  flushes = 0;
}

made : Db.new storage (config 1) blank ≡ ok first
unfolding Db.new MemTable.new kv_size replicate SstManager.new Manifest.new
made = refl

opened_lem : open_db storage (config 1) catalog first ≡ ok first
unfolding open_db open_levels open_tables
opened_lem = refl

abbrev result : (r : Result (Db storage)) → Db storage
result (ok db) = db
result (err fault) = first

-- a pair fills the table in memory, which is flushed
abbrev full : Db storage
full = result (put storage (config 1) catalog 1 100 (7 ∷ []) [] first)

stored_lem : put storage (config 1) catalog 1 100 (7 ∷ []) [] first ≡ ok full
unfolding put create create_new_empty open_unmasked append open_disk seek_disk write_disk Db.pad_key
    MemTable.put quarkkv_compaction.Config.value_size MemTable.full
    quarkkv_compaction.Std.Map.insert quarkkv_compaction.Std.Ordered.insert Db.flush
    SstManager.flush_to_sst SstManager.fill_new SstManager.new_empty_sst SstManager.tick
    SstManager.new_file kv_size SstManager.add_kvs quarkkv_compaction.Sst.Write.add_kv
    quarkkv_compaction.KvPair.to_binary replicate quarkkv_compaction.Sst.Write.append_kv
    quarkkv_compaction.Sst.Write.persist quarkkv_compaction.Sst.Write.write_index_block
    quarkkv_compaction.Sst.Write.write_number_of_entries quarkkv_compaction.Sst.Write.index_bytes
    quarkkv_compaction.Sst.Write.last_key quarkkv_compaction.Config.index_block_entry_size
    Manifest.add_to_level quarkkv_compaction.Compacter.level_at SstManager.wrap
    quarkkv_compaction.Sst.new
stored_lem = refl

keeps_ids : KeepsIds storage
keeps_ids id h id' w w' e = (lawful.create-new id h id' w w' e).0

Runs-Mirrors_example :
    Mirrors full.state.levels full.files × AreBelow full.state.manager.ctr full.state.levels
unfolding Manifest.new replicate
Runs-Mirrors_example = Runs-Mirrors storage keeps_ids (config 1) catalog full (
    Runs.stored 1 100 (7 ∷ []) [] (Runs.opened blank blank first made refl opened_lem) (omega arith)
      stored_lem)
