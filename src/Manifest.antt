-- ===== src/Manifest.antt =====
-- core/Manifest.h and core/Manifest.cpp: the identifiers of the live SST files by level, and the
-- block that they are written to.
pub mod RoundTrip
use quarkkv_compaction.Base.{
  ℕ, zero, suc, ◌+◌, ◌-◌, ◌*◌, List, [], ◌∷◌, ◌++◌, map, Result, ok, err, require, aborted,
  undefined, ◌>>=◌, ◌>>◌, leb, ◌==◌, u32, length, take, drop, replicate, concat,
}
use quarkkv_compaction.Std.Text.{Bytes}
use quarkkv_compaction.Config.{Config, block_size}
use quarkkv_compaction.Sst.{Sst}
use quarkkv_compaction.Sst.Write.{le_bytes}
use quarkkv_compaction.Sst.Read.{of_le_bytes}

-- `sst_files_`
abbrev pub Levels : Type 0
Levels = List (List ℕ)

-- the constructor: `n_levels` empty levels
unfoldable pub new : Config → Levels
new c = replicate c.n_levels []

-- AddToLevel; `at` throws `std::out_of_range`
unfoldable pub add_to_level : ℕ → ℕ → Levels → Result Levels
add_to_level level id [] = err aborted
add_to_level zero id (ids ∷ rest) = ok ((ids ++ id ∷ []) ∷ rest)
add_to_level (suc level) id (ids ∷ rest) = do rest' ← add_to_level level id rest; ok (ids ∷ rest')

-- Update: the identifiers of the tables, level by level and in the order of each set
unfoldable pub update : List (List Sst) → Levels → Levels
update ssts files = map (map (λ s. s.id)) ssts

unfoldable pub flatten_ssts : Levels → List ℕ
flatten_ssts files = concat files

get_live : ℕ → Levels → ℕ
get_live count [] = count
get_live count (ids ∷ rest) = get_live (u32 (count + length ids)) rest

unfoldable pub get_number_of_live_ssts : Levels → ℕ
unfolding get_live
get_number_of_live_ssts files = get_live 0 files

-- the `memcpy` of 32 bits in the loops of `serializeLevels`
unfoldable pub word_bytes : List ℕ → Bytes
word_bytes [] = []
word_bytes (n ∷ ns) = le_bytes 4 (u32 n) ++ word_bytes ns

unfoldable pub level_bytes : Levels → Bytes
level_bytes [] = []
level_bytes (ids ∷ rest) = word_bytes (length ids ∷ ids) ++ level_bytes rest

-- The callers give a buffer of one block, and no bound is tested: writing past it is undefined.
unfoldable pub serialize_levels : Levels → Result Bytes
serialize_levels files = do
  let bytes = word_bytes (length files ∷ []) ++ level_bytes files
  require (leb (length bytes) block_size) undefined
  require (u32 (length bytes) == u32 (4 + length files * 4 + get_number_of_live_ssts files * 4))
      aborted
  ok (bytes ++ replicate (block_size - length bytes) 0)

-- the `memcpy` of 32 bits at the front of what is left of the buffer
unfoldable pub read_word : Bytes → Result ℕ
read_word buf = do require (leb 4 (length buf)) undefined; ok (of_le_bytes (take 4 buf))

-- the inner loop of `deserializeLevels`: `n` rounds are left
unfoldable pub read_ids : ℕ → ℕ → Bytes → Levels → Result (Bytes × Levels)
read_ids zero level buf files = ok (buf, files)
read_ids (suc n) level buf files = do
  id ← read_word buf
  files' ← add_to_level level id files
  read_ids n level (drop 4 buf) files'

-- the outer loop
unfoldable pub read_levels : ℕ → ℕ → Bytes → Levels → Result Levels
read_levels zero level buf files = ok files
read_levels (suc n) level buf files = do
  entries ← read_word buf
  (buf', files') ← read_ids entries level (drop 4 buf) files
  read_levels n (suc level) buf' files'

unfoldable pub deserialize_levels : Bytes → Levels → Result Levels
deserialize_levels buf files = do levels ← read_word buf; read_levels levels 0 (drop 4 buf) files
