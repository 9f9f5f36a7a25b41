-- ===== src/Lib.antt =====
-- A log-structured merge tree: a key-value store whose values are fillers of a fixed size, written to
-- measure compaction on a file system and on QuarkStore.
--
-- A write goes to the memory table (core/MemTable.cpp). A full table is flushed to a sorted table in a
-- file, an SST (core/SSTManager.cpp, core/SST.cpp), at level 0; the compacter (core/Compacter.cpp)
-- merges tables of a level into the next through iterators (iterators/*.cpp), and the manifest
-- (core/Manifest.cpp) records the live files of each level. The storage is a file or an atom of
-- QuarkStore, behind the virtual methods of core/SST.h.
--
-- Base.antt has the tests on numbers, the lists and the results of fallible code. A call that returns
-- -1 is `err failed`, a failed assertion or an exception `err aborted`, undefined behaviour
-- `err undefined`, and a loop that has used its fuel `err diverges`. The state that a failed call
-- leaves is not modelled, since every caller gives up, but for a table that can not be made: there
-- `NewEmptySST` goes on, with what the failed call has left.
-- Std.antt has std::string as bytes, and std::set and std::map as sorted lists.
-- Args.antt is utils/argparser.h, Config.antt core/config.h with verify_config of main.cpp, KvPair.antt core/KVPair.h, and
-- MemTable.antt core/MemTable.cpp.
-- Device.antt is the storage: its operations are parameters. IsDevice says what is documented of the
-- bytes of files whatever fails, IsNaming what is documented of their names, IsReliable which calls
-- succeed on storage without errors, and KeepsIds that a table gets the identifier that it is made for.
-- The world that the storage works on stands for all files. Fs/Refines.antt and Fs/Faultless.antt
-- relate the tables in files to these records. A table in an atom of QuarkStore keeps the end of its
-- atom in its own object, so it is not a Device; Quark.antt models it apart.
-- Sst.antt is core/SST.cpp: the fields are those of the class, Sst/Write.antt has AddKV and Persist,
-- Sst/Read.antt Lookup, GetKVAtIndex and Parse. Sst/Layout.antt says what a file holds, apart from the
-- code, and the other modules below Sst.antt relate the two.
-- Manifest.antt is core/Manifest.cpp, SstManager.antt core/SSTManager.cpp, Iterators.antt the three
-- iterators, and Compacter.antt the compaction of a set of tables. Compacter/Dedup.antt says which pairs
-- a compaction keeps, and Compacter/Tables.antt, Extends.antt, Steps.antt, Merge.antt, Removal.antt and
-- Compaction.antt follow it from one table to the whole call. Iterators/Runs.antt, Merging.antt and
-- Placed.antt are the merge of ordered runs, apart from the code; Iterators/Kv.antt, Level.antt,
-- Heap.antt, Opened.antt and Merge.antt relate the three iterators to it, and Compacter/Levels.antt
-- takes both to the compaction of the marked tables.
-- The modules below Tests.antt run the program on tables in files, over a file system in memory
-- (Tests/Disks.antt, Tests/Storage.antt).
--
-- Numbers are natural numbers, with the remainder written out where the source has 32 or 64 bits and
-- can wrap. A loop that depends on the storage has fuel: `new_file` has a number of tries for a free
-- identifier, `merge_loop` a number of rounds, and `scan_level` a number of pairs.
--
-- Db.antt is core/DBImpl.cpp, with the opening of a table's file, the manifest's own file and what printing
-- the manifest does to the storage as parameters, and with the addresses of the pairs that `Get` compares as a parameter. Db/Memory.antt is about the
-- table in memory; Db/Mirrored.antt and Db/Runs.antt follow the manifest over the calls, and
-- Compacter/Numbered.antt, Picked.antt, Counted.antt, Counts.antt and SstManager/Ids.antt the identifiers.
--
-- Fs.antt is fs/io_fs.cpp and fs/SSTFS.cpp over the system calls of Posix.antt, and Fs/Manifests.antt
-- fs/ManifestFS.cpp; its loop for a free name has a number of tries as fuel. Quark.antt is
-- quark/io_quark.cpp and quark/SSTQuark.cpp over the calls of quarklibio, and Quark/Manifests.antt
-- quark/ManifestQuark.cpp. What is documented of the two libraries is in Posix.antt and Quark/Atoms.antt.
-- Fs/Writing.antt, Current.antt, Blocks.antt, Reopened.antt and RoundTrip.antt follow the manifest from
-- `Persist` to `Open`, and Quark/Growth.antt the atom of a table. Std/Decimal.antt writes numbers in decimal.
--
-- `Close` destroys the manifest, so a closed database has no model but its storage.
--
-- Not modelled: DB, which forwards to DBImpl, the ToString of the manifests and other printing, time measurement, the
-- splitting of the command line into options, the random keys and the benchmark client in ycsb.
pub mod Base
pub mod Std
pub mod Config
pub mod KvPair
pub mod MemTable
pub mod Device
pub mod Posix
pub mod Fs
pub mod Quark
pub mod Sst
pub mod Manifest
pub mod SstManager
pub mod Iterators
pub mod Compacter
pub mod Tests
pub mod Db
pub mod Args
