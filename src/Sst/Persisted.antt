-- ===== src/Sst/Persisted.antt =====
-- `Persist` on a table under construction.
use quarkkv_compaction.Base.{
  ℕ, zero, suc, ◌+◌, ◌*◌, ◌/◌, ◌%◌, ◌^◌, ◌<◌, ◌≤◌, ◌≡◌, refl, ap, ◌∙◌, true, some, List, [], ◌∷◌,
  ◌++◌, append_assoc, arith, length, drop, replicate, length-append, length-drop, if◌then◌else◌, ok,
  Returns, u32, leb, ◌==◌, ◌>>=◌,
}
use quarkkv_compaction.Std.Text.{Bytes}
use quarkkv_compaction.Std.Ordered.{All}
use quarkkv_compaction.Config.{Config}
use quarkkv_compaction.Config.Sizes.{IsVerified}
use quarkkv_compaction.KvPair.{KvPair}
use quarkkv_compaction.Device.{
  Device, Preserves, Preserves-trans, SameNames, SameNames-trans, IsReliable,
}
use quarkkv_compaction.Sst.{Sst}
use quarkkv_compaction.Sst.Write.{
  le_bytes, index_bytes, last_key, write_index_block, write_number_of_entries, persist,
}
use quarkkv_compaction.Sst.Layout.{
  images, offsets, IsPair, IsAscending, first, last, Holds, IsReadable,
}

-- the index entries of a file whose first pair has number `i`
unfoldable pub index_image : ℕ → List KvPair → Bytes
index_image i [] = []
index_image i (kv ∷ kvs) = (kv.key ++ le_bytes 8 (i * 4096)) ++ index_image (suc i) kvs

-- the last block, with the number of entries
unfoldable pub count_image : ℕ → Bytes
count_image n = le_bytes 4 n ++ replicate 4092 0

-- the bytes of the index blocks of `n` entries of 64 bytes
abbrev pub index_size : ℕ → ℕ
index_size n = u32 ((if n % 64 == 0 then n / 64 else n / 64 + 1) * 4096)

pub index_size_fits : (n : ℕ) → n * 4096 < 2 ^ 32 → n * 64 ≤ index_size n
index_size_fits n h = ground arith

-- The file of a table after `Persist`: the pairs, the index blocks and the number of pairs.
pub record IsPersisted (d : Device) (w : d.World) (s : Sst) (kvs : List KvPair) : Type 0 where
  pub pad : Bytes
  pub blocks :
      d.content w s.handler ≡ images kvs ++ ((index_image 0 kvs ++ pad) ++ count_image (length kvs))
  pub padding : length kvs * 64 + length pad ≡ index_size (length kvs)
  pub index : s.index_table ≡ offsets 0 kvs
  pub entries : s.entries ≡ length kvs
  pub pairs : All IsPair kvs
  pub ascending : IsAscending kvs
  pub smallest : s.smallest_key ≡ first kvs
  pub largest : s.largest_key ≡ last kvs
  pub room : length kvs * 4096 < 2 ^ 32
  pub persisted : s.persisted ≡ true

pub IsPersisted-IsReadable :
    (d : Device) (w : d.World) (s : Sst) (kvs : List KvPair)
    → IsPersisted d w s kvs
    → d.IsOpen w s.handler
    → IsReadable d w s kvs
IsPersisted-IsReadable d w s kvs p here = record {
  opened = here;
  tail = (index_image 0 kvs ++ p.pad) ++ count_image (length kvs);
  bytes = p.blocks;
  index = p.index;
  entries = p.entries;
  pairs = p.pairs;
  ascending = p.ascending;
  smallest = p.smallest;
  largest = p.largest;
  room = p.room;
}

pub length-le_bytes : (w n : ℕ) → length (le_bytes w n) ≡ w
unfolding le_bytes
length-le_bytes zero n = refl
length-le_bytes (suc w) n = ap suc (length-le_bytes w (n / 256))

pub length-index_image :
    (i : ℕ) (kvs : List KvPair) → All IsPair kvs → length (index_image i kvs) ≡ length kvs * 64
unfolding index_image
length-index_image i [] p = refl
length-index_image i (kv ∷ kvs) p = omega (
  arith,
  p.0.key,
  length-append (kv.key ++ le_bytes 8 (i * 4096)) (index_image (suc i) kvs),
  length-append kv.key (le_bytes 8 (i * 4096)),
  length-le_bytes 8 (i * 4096),
  length-index_image (suc i) kvs p.1,
)

pub last_key-offsets :
    (i : ℕ) (kv : KvPair) (kvs : List KvPair)
    → last_key (offsets i (kv ∷ kvs)) ≡ ok (last (kv ∷ kvs))
unfolding last_key offsets
last_key-offsets i kv [] = refl
last_key-offsets i kv (next ∷ kvs) = last_key-offsets (suc i) next kvs

module _ (d : Device) (c : Config) (v : IsVerified c) where
  open d use {World}

  index_bytes-offsets :
      (i : ℕ) (kvs : List KvPair)
      → All IsPair kvs
      → index_bytes c (offsets i kvs) ≡ ok (index_image i kvs)
  unfolding index_bytes offsets index_image
  index_bytes-offsets i [] p = refl
  index_bytes-offsets i (kv ∷ kvs) p =
      rw (p.0.key, v.key_size, index_bytes-offsets (suc i) kvs p.1) refl

  write_index_block-image :
      (s : Sst) (w : World) (kvs : List KvPair)
      → s.index_table ≡ offsets 0 kvs
      → s.entries ≡ length kvs
      → All IsPair kvs
      → length kvs * 4096 < 2 ^ 32
      → write_index_block d c s w ≡ (
          d.append s.handler
            (index_image 0 kvs
              ++ drop (length (index_image 0 kvs)) (d.uninitialised w (index_size s.entries)))
            w
          >>= λ w'. ok (
            record s {
              index_block_offset = some (u32 (s.entries * 4096));
              index_block_size = some (index_size s.entries);
            },
            w',
          ))
  unfolding write_index_block
  write_index_block-image s w kvs it en p room =
      let fits : leb (length (index_image 0 kvs)) (index_size s.entries) ≡ true =
        ground (arith, length-index_image 0 kvs p, index_size_fits (length kvs) room) in
      rw (v.entry, it, index_bytes-offsets 0 kvs p, fits, v.kv) refl

  -- Persisting a table that has a pair: under a verified configuration and on storage without errors
  -- it succeeds where the file of the table is open. The file then holds the pairs, the index and their
  -- number and is still open, the largest key is the last one, the time is the one given, and neither
  -- another open file nor a name changes.
  pub persist-IsPersisted :
      (ts : ℕ) (s : Sst) (w : World) (kv : KvPair) (kvs : List KvPair)
      → IsReliable d
      → Holds d w s (kv ∷ kvs)
      → d.IsOpen w s.handler
      → Returns (persist d c ts s w) λ r.
        IsPersisted d r.1 r.0 (kv ∷ kvs)
        × (r.0.handler ≡ s.handler)
        × (r.0.ts ≡ ts)
        × d.IsOpen r.1 s.handler
        × Preserves d s.handler w r.1
        × SameNames d w r.1
  unfolding persist write_number_of_entries count_image
  persist-IsPersisted ts s w kv kvs rel h here =
      let all = kv ∷ kvs in
      let largest = ap last_key h.index ∙ last_key-offsets 0 kv kvs in
      let s' = record s { largest_key = last all } in
      let rest = drop (length (index_image 0 all)) (d.uninitialised w (index_size s.entries)) in
      let (w₁, run₁) = rel.append_ok s.handler (index_image 0 all ++ rest) w here in
      let (wrote₁, opened₁) = rel.content-append s.handler (index_image 0 all ++ rest) w w₁ run₁ in
      let (w₂, run₂) = rel.append_ok s.handler (count_image s.entries) w₁ (opened₁ here) in
      let (wrote₂, opened₂) = rel.content-append s.handler (count_image s.entries) w₁ w₂ run₂ in
      let index = length-index_image 0 all h.pairs in
      (
        (
          record s {
            largest_key = last all;
            index_block_offset = some (u32 (s.entries * 4096));
            index_block_size = some (index_size s.entries);
            number_of_entries_offset = some (u32 (s.entries * 4096) + index_size s.entries);
            persisted = true;
            ts = ts;
          },
          w₂,
        ),
        rw (largest, write_index_block-image s' w all h.index h.entries h.pairs h.room, run₁, run₂),
        (
          record {
            pad = rest;
            blocks =
                wrote₂
                ∙ ap (λ b. b ++ count_image s.entries)
                    (wrote₁ ∙ ap (λ b. b ++ (index_image 0 all ++ rest)) h.bytes)
                ∙ append_assoc (images all) (index_image 0 all ++ rest) (count_image s.entries)
                ∙ ap (λ n. images all ++ ((index_image 0 all ++ rest) ++ count_image n)) h.entries;
            padding = omega (
              arith,
              index,
              ap index_size h.entries,
              index_size_fits (length all) h.room,
              length-drop (length (index_image 0 all)) (d.uninitialised w (index_size s.entries)),
              rel.length-uninitialised w (index_size s.entries),
            );
            index = h.index;
            entries = h.entries;
            pairs = h.pairs;
            ascending = h.ascending;
            smallest = h.smallest;
            largest = refl;
            room = h.room;
            persisted = refl;
          },
          refl,
          refl,
          opened₂ (opened₁ here),
          Preserves-trans d s.handler w w₁ w₂
              (rel.preserves-append s.handler (index_image 0 all ++ rest) w w₁ run₁)
              (rel.preserves-append s.handler (count_image s.entries) w₁ w₂ run₂),
          SameNames-trans d w w₁ w₂
              (rel.names-append s.handler (index_image 0 all ++ rest) w w₁ run₁)
              (rel.names-append s.handler (count_image s.entries) w₁ w₂ run₂),
        ),
      )
