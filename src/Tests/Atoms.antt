-- ===== src/Tests/Atoms.antt =====
-- Atoms in memory, and a table in one of them.
use quarkkv_compaction.Base.{
  ℕ, ◌+◌, ◌≡◌, refl, true, some, [], ◌++◌, ◌≤◌, arith, if◌then◌else◌, ◌==◌, length,
  length-replicate, replicate, take, drop, ok,
}
use quarkkv_compaction.Std.Text.{Bytes}
use quarkkv_compaction.Config.{kv_size}
use quarkkv_compaction.KvPair.{KvPair}
use quarkkv_compaction.Sst
use quarkkv_compaction.Sst.Write.{count_kv}
use quarkkv_compaction.Sst.Layout.{located}
use quarkkv_compaction.Quark.{Quarklib, SstQuark, append, move_and_add_kv}
use quarkkv_compaction.Quark.Atoms.{IsQuarklib}
use quarkkv_compaction.Quark.Growth.{Grows, IsAtEnd, Grows-IsAtEnd}
use quarkkv_compaction.Tests.{config, pair}

abbrev Shelf : Type 0
Shelf = ℕ → Bytes

abbrev put : ℕ → Bytes → Shelf → Shelf
put k b w = λ j. if j == k then b else w j

-- a handle is the identifier of its atom
abbrev pub shelf : Quarklib
shelf = record {
  World = Shelf;
  atom_of = λ w h. some h;
  bytes = λ w k. w k;
  client_init = λ w. (true, w);
  task_ctx_reg = λ w. (true, w);
  atom_get = λ aid w. (some aid, aid, w);
  atom_release = λ ah w. (true, w);
  atom_read = λ ah n off w. (some (take n (drop off (w ah))), w);
  atom_write = λ ah buf off w.
      (some (length buf), put ah (take off (w ah) ++ (buf ++ drop (off + length buf) (w ah))) w);
  is_minus_one = λ w. true;
  atom_move_append = λ dst src len off w. (true, put dst (w dst ++ take len (drop off (w src))) w);
}

pub lawful_shelf : IsQuarklib shelf
lawful_shelf = record {
  bytes-write = λ ah aid off n buf w at e fits. ground arith;
  others-write = λ ah aid off buf w k at ne. ground arith;
  atom_of-write = λ ah off buf w j. refl;
  bytes-move = λ dst src a b len off w at from e. ground arith;
  atom_of-move = λ dst src len off w j. refl;
  read_atom = λ ah aid n off b w at e. ground arith;
  get_atom = λ aid ah w e. (refl, ground arith, λ k. refl, λ k o. ground arith, λ j ne. refl);
}

abbrev block : Bytes
block = replicate 4096 7

abbrev shelved : Shelf
shelved j = if j == 5 then replicate 8192 9 else []

abbrev table : SstQuark
table = record { sst = Sst.new 0 3 1000000; atom_size = 0 }

abbrev wrote_to : Shelf
wrote_to = put 3 (take 0 [] ++ (block ++ drop (0 + length block) [])) shelved

abbrev wrote_table : SstQuark
wrote_table = record table { atom_size = 0 + length block }

wrote_lem : append shelf block table shelved ≡ ok (wrote_table, wrote_to)
unfolding append Sst.new
wrote_lem = refl

-- the second block of the atom 5
abbrev far : KvPair
far = located 5 1 (pair 2)

abbrev moved_to : Shelf
moved_to = put 3 (wrote_to 3 ++ take 4096 (drop 4096 (wrote_to 5))) wrote_to

abbrev moved_table : SstQuark
moved_table = record { sst = count_kv far 4096 table.sst; atom_size = (0 + length block) + 4096 }

moved_lem : move_and_add_kv shelf (config 2) far wrote_table wrote_to ≡ ok (moved_table, moved_to)
unfolding move_and_add_kv kv_size Sst.new
moved_lem = refl

sized : kv_size (config 2) ≡ ok 4096
unfolding kv_size
sized = refl

all_there : 4096 + 4096 ≤ length (wrote_to 5)
all_there = omega (arith, length-replicate {0} {A = ℕ} 8192 9)

grown :
    Grows shelf
      (config 2)
      table
      shelved
      (block ++ take 4096 (drop 4096 (wrote_to 5)))
      moved_table
      moved_to
grown =
    Grows.moved far 5 4096 4096 5 (Grows.wrote block Grows.start wrote_lem refl) refl refl sized
      refl all_there moved_lem refl

Grows-IsAtEnd_example :
    IsAtEnd shelf (config 2) 3 (block ++ take 4096 (drop 4096 (wrote_to 5))) moved_table moved_to
unfolding Sst.new
Grows-IsAtEnd_example =
    Grows-IsAtEnd shelf (config 2) lawful_shelf 3 [] table shelved
      (block ++ take 4096 (drop 4096 (wrote_to 5))) moved_table moved_to
      (record { atom = refl; bytes = refl; size = refl }) grown
