-- ===== src/Tests/Databases.antt =====
-- A database on the storage in memory.
use quarkkv_compaction.Base.{◌≡◌, some, none, [], ◌∷◌, ok, Returns, arith}
use quarkkv_compaction.Std.Map.{keep_or}
use quarkkv_compaction.KvPair
use quarkkv_compaction.MemTable
use quarkkv_compaction.MemTable.Laws.{IsTable}
use quarkkv_compaction.Compacter.{cleared}
use quarkkv_compaction.Db.{Catalog, Db, put, get}
use quarkkv_compaction.Db.Memory.{padded, get-put_memory}
use quarkkv_compaction.Tests.{config, accepted}
use quarkkv_compaction.Tests.Storage.{storage, disk}

abbrev pub catalog : Catalog storage
catalog = record {
  open_file = λ id w. none;
  open_manifest = λ files w. ok (files, w);
  persist_manifest = λ files w. ok w;
  print_manifest = λ w. w;
}

abbrev empty : Db storage
empty = record {
  state = record {
    levels = [] ∷ [] ∷ [];
    manager = record { ctr = 0; clock = 4 };
    world = disk [] (λ j. []);
    stats = cleared;
    total = cleared;
  };
  files = [] ∷ [] ∷ [];
  mem_table = record { table = []; limit = 64 };
  flushes = 0;
}

empty-IsTable : IsTable empty.mem_table
empty-IsTable = record { sorted = tt; keyed = tt }

get-put_memory_example :
    Returns (put storage (config 64) catalog 1 100 (7 ∷ 8 ∷ []) [] empty) λ db'.
      IsTable db'.mem_table
      × (get storage (config 64) catalog (λ i. i) (7 ∷ 8 ∷ []) db'
          ≡ ok (
              some (
                KvPair.to_string (
                  keep_or
                    (MemTable.get (padded (7 ∷ 8 ∷ [])) empty.mem_table)
                    (KvPair.new (padded (7 ∷ 8 ∷ [])) 4 4040)))))
      × (db'.state.levels ≡ [] ∷ [] ∷ [])
      × (db'.files ≡ [] ∷ [] ∷ [])
      × (db'.state.world ≡ empty.state.world)
get-put_memory_example =
    get-put_memory storage (config 64) catalog (accepted 64) 1 100 (λ i. i) (7 ∷ 8 ∷ []) [] empty
      (omega arith) empty-IsTable (omega arith)
