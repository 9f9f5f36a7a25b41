-- ===== src/Sst/Reopened.antt =====
-- `Parse` on the file of a full table.
use quarkkv_compaction.Base.{
  ℕ, zero, suc, ◌+◌, ◌*◌, ◌/◌, ◌%◌, ◌^◌, ◌<◌, ◌≡◌, refl, sym, ap, ap₂, ◌∙◌, true, false, some, List,
  [], ◌∷◌, ◌++◌, append_assoc, append-nil, arith, length, take, drop, replicate, length-append,
  length-replicate, take-append_left, drop-append_left, take-length, drop-append, ok, Returns, u32,
  leb, ◌==◌,
}
use native.Mathlib.Nat.{pow-suc}
use quarkkv_compaction.Std.Text.{Bytes, text_lt}
use quarkkv_compaction.Std.Ordered.{All, All-map₂}
use quarkkv_compaction.Std.Map
use quarkkv_compaction.Std.Map.{Map}
use quarkkv_compaction.Config.{Config}
use quarkkv_compaction.Config.Sizes.{IsVerified}
use quarkkv_compaction.KvPair.{KvPair}
use quarkkv_compaction.Device.{Device, IsReliable, read-eq}
use quarkkv_compaction.Sst.{Sst, new}
use quarkkv_compaction.Sst.Write.{le_bytes}
use quarkkv_compaction.Sst.Read.{
  of_le_bytes, read_entries, first_key, parse_offsets, read_number_of_entries, read_index_block,
  parse,
}
use quarkkv_compaction.Sst.Building.{insert-last, All-snoc}
use quarkkv_compaction.Sst.Layout.{images, offsets, IsPair, IsAscending, last, length-images}
use quarkkv_compaction.Sst.Persisted.{
  index_image, count_image, IsPersisted, length-le_bytes, length-index_image, last_key-offsets,
}

-- An integer is read back from its bytes.
pub of_le_bytes-le_bytes : (w n : ℕ) → n < 256 ^ w → of_le_bytes (le_bytes w n) ≡ n
unfolding of_le_bytes le_bytes
of_le_bytes-le_bytes zero n h = omega arith
of_le_bytes-le_bytes (suc w) n h =
    let fits : n < 256 ^ w * 256 = rw pow-suc at h in
    omega (arith, of_le_bytes-le_bytes w (n / 256) (omega arith))

module _ (c : Config) (v : IsVerified c) where
  read_entry :
      (key : Bytes) (offset n : ℕ) (rest : Bytes) (table : Map ℕ)
      → length key ≡ 56
      → offset < 2 ^ 64
      → read_entries c (suc n) ((key ++ le_bytes 8 offset) ++ rest) table
        ≡ read_entries c n rest (Map.insert key offset table)
  unfolding read_entries
  read_entry key offset n rest table k o =
      let buf = (key ++ le_bytes 8 offset) ++ rest in
      let entry : length (key ++ le_bytes 8 offset) ≡ 64 =
        omega (arith, length-append key (le_bytes 8 offset), length-le_bytes 8 offset) in
      let long : leb (c.key_size + 8) (length buf) ≡ true =
        ground (arith, v.key_size, length-append (key ++ le_bytes 8 offset) rest) in
      let regroup = append_assoc key (le_bytes 8 offset) rest in
      let front : take c.key_size buf ≡ key =
        rw regroup (
          take-append_left key (le_bytes 8 offset ++ rest) c.key_size
            (omega (arith, v.key_size))) in
      let middle : take 8 (drop c.key_size buf) ≡ le_bytes 8 offset =
        rw
          (
            regroup,
            drop-append_left key (le_bytes 8 offset ++ rest) c.key_size (omega (arith, v.key_size)),
          )
          (take-append_left (le_bytes 8 offset) rest 8 (sym (length-le_bytes 8 offset))) in
      let behind : drop 64 buf ≡ rest =
        drop-append_left (key ++ le_bytes 8 offset) rest 64 (sym entry) in
      rw (long, v.entry, front, middle, behind, of_le_bytes-le_bytes 8 offset (omega arith)) refl

  -- The entries are inserted one behind the other.
  read_entries-offsets :
      (i : ℕ) (kvs : List KvPair) (table : Map ℕ)
      → All IsPair kvs
      → IsAscending kvs
      → All (λ (x : KvPair). All (λ e. text_lt e.0 x.key ≡ true) table) kvs
      → (i + length kvs) * 4096 < 2 ^ 32
      → read_entries c (length kvs) (index_image i kvs) table ≡ ok (table ++ offsets i kvs)
  unfolding index_image offsets
  read_entries-offsets i [] table p a b room = unfold read_entries in ap ok (sym (append-nil table))
  read_entries-offsets i (kv ∷ kvs) table p a b room =
      let next = table ++ (kv.key, i * 4096) ∷ [] in
      let below =
        All-map₂ (λ (x : KvPair). All (λ (e : Bytes × ℕ). text_lt e.0 x.key ≡ true) table)
          (λ (x : KvPair). text_lt kv.key x.key ≡ true)
          (λ (x : KvPair). All (λ (e : Bytes × ℕ). text_lt e.0 x.key ≡ true) next) kvs
          (λ x t u. All-snoc (λ (e : Bytes × ℕ). text_lt e.0 x.key ≡ true) table _ t u) b.1 a.0 in
      read_entry kv.key (i * 4096) (length kvs) (index_image (suc i) kvs) table p.0.key
        (omega arith)
      ∙ ap (read_entries c (length kvs) (index_image (suc i) kvs))
          (insert-last kv.key (i * 4096) table b.0)
      ∙ read_entries-offsets (suc i) kvs next p.1 a.1 below (omega arith)
      ∙ ap ok (append_assoc table ((kv.key, i * 4096) ∷ []) (offsets (suc i) kvs))

-- The parts of a file behind the pairs, where the index fills its blocks.
module _ (kvs : List KvPair) (pad : Bytes) (p : All IsPair kvs) (e : length pad ≡ 0) where
  file : Bytes
  file = images kvs ++ ((index_image 0 kvs ++ pad) ++ count_image (length kvs))

  length-count_image : (n : ℕ) → length (count_image n) ≡ 4096
  unfolding count_image
  length-count_image n = omega (
    arith,
    length-append (le_bytes 4 n) (replicate 4092 0),
    length-le_bytes 4 n,
    length-replicate {0} {A = ℕ} 4092 0,
  )

  index_part : take (length kvs * 64) (drop (length kvs * 4096) file) ≡ index_image 0 kvs
  unfolding file
  index_part =
      let index = index_image 0 kvs in
      rw
        (
          drop-append_left (images kvs) ((index ++ pad) ++ count_image (length kvs))
              (length kvs * 4096) (sym (length-images kvs p)),
          append_assoc index pad (count_image (length kvs)),
        )
        (take-append_left index (pad ++ count_image (length kvs)) (length kvs * 64)
          (sym (length-index_image 0 kvs p)))

  count_part :
      take 4096 (drop (length kvs * 4096 + length kvs * 64) file) ≡ count_image (length kvs)
  unfolding file
  count_part =
      let index = index_image 0 kvs in
      let count = count_image (length kvs) in
      rw
        (
          drop-append (images kvs) ((index ++ pad) ++ count) (length kvs * 4096 + length kvs * 64)
              (length kvs * 64) (omega (arith, length-images kvs p)),
          drop-append_left (index ++ pad) count (length kvs * 64)
              (omega (arith, e, length-append index pad, length-index_image 0 kvs p)),
        )
        (take-length count 4096 (sym (length-count_image (length kvs))))

  length-file : length file ≡ length kvs * 4096 + length kvs * 64 + 4096
  unfolding file
  length-file = omega (
    arith,
    e,
    length-images kvs p,
    length-index_image 0 kvs p,
    length-count_image (length kvs),
    length-append (images kvs) ((index_image 0 kvs ++ pad) ++ count_image (length kvs)),
    length-append (index_image 0 kvs ++ pad) (count_image (length kvs)),
    length-append (index_image 0 kvs) pad,
  )

count_image-read : (n : ℕ) → n < 2 ^ 32 → of_le_bytes (take 4 (count_image n ++ replicate 4 0)) ≡ n
unfolding count_image
count_image-read n h = rw (append_assoc (le_bytes 4 n) (replicate 4092 0) (replicate 4 0)) (
    ap of_le_bytes (
      take-append_left (le_bytes 4 n) (replicate 4092 0 ++ replicate 4 0) 4
        (sym (length-le_bytes 4 n)))
    ∙ of_le_bytes-le_bytes 4 n h)

All-always :
    (kvs : List KvPair)
    → All (λ (x : KvPair). All {A = Bytes × ℕ} (λ e. text_lt e.0 x.key ≡ true) []) kvs
All-always [] = tt
All-always (kv ∷ kvs) = (tt, All-always kvs)

same : (n : ℕ) → (n == n) ≡ true
same n = ground arith

first_key-offsets :
    (i : ℕ) (kv : KvPair) (kvs : List KvPair) → first_key (offsets i (kv ∷ kvs)) ≡ ok kv.key
unfolding first_key offsets
first_key-offsets i kv kvs = refl

length-offsets : (i : ℕ) (kvs : List KvPair) → length (offsets i kvs) ≡ length kvs
unfolding offsets
length-offsets i [] = refl
length-offsets i (kv ∷ kvs) = ap suc (length-offsets (suc i) kvs)

module _ (d : Device) (c : Config) (v : IsVerified c) (rel : IsReliable d) where
  open d use {World}

  -- Parsing the file of a full table whose index fills its blocks and whose file is open: under a
  -- verified configuration and on storage without errors it succeeds, and gives back the table that was
  -- persisted, but for the time of persisting, which is whatever the memory of the new object held.
  pub parse-IsPersisted :
      (s : Sst) (w : World) (kv : KvPair) (kvs : List KvPair) (unset id : ℕ)
      → IsPersisted d w s (kv ∷ kvs)
      → d.IsOpen w s.handler
      → suc (length kvs) * 4096 ≡ c.sst_file_size
      → suc (length kvs) % 64 ≡ 0
      → Returns
          (parse d c (new unset s.handler id) w)
          λ r. IsPersisted d w r (kv ∷ kvs) × (r.handler ≡ s.handler) × (r.id ≡ id) × (r.ts ≡ unset)
  unfolding parse parse_offsets read_number_of_entries read_index_block new
  parse-IsPersisted s w kv kvs unset id h here full even =
      let all = kv ∷ kvs in
      let n = suc (length kvs) in
      let none_left : length h.pad ≡ 0 = ground (arith, h.padding, h.room) in
      let bytes : d.content w s.handler ≡ file all h.pad h.pairs none_left =
        unfold file in h.blocks in
      let long = ap length bytes ∙ length-file all h.pad h.pairs none_left in
      let size : u32 (64 * (c.sst_file_size / 4096)) ≡ n * 64 = omega (arith, h.room) in
      let read_count =
        read-eq d s.handler 4096 (c.sst_file_size + n * 64) w (count_image n) rel here (omega arith)
          (ap₂ (λ (o : ℕ) (b : Bytes). take 4096 (drop (o + n * 64) b)) (sym full) bytes
            ∙ count_part all h.pad h.pairs none_left) in
      let read_index =
        read-eq d s.handler (n * 64) c.sst_file_size w (index_image 0 all) rel here (omega arith) (
          ap₂ (λ (o : ℕ) (b : Bytes). take (n * 64) (drop o b)) (sym full) bytes
          ∙ index_part all h.pad h.pairs none_left) in
      (
        record {
          handler = s.handler;
          id = id;
          smallest_key = kv.key;
          largest_key = last all;
          index_table = offsets 0 all;
          ts = unset;
          entries = n;
          level = 0;
          persisted = true;
          marked_for_compaction = false;
          index_block_size = some (n * 64);
          data_block_offset = some 0;
          index_block_offset = some c.sst_file_size;
          number_of_entries_offset = some (c.sst_file_size + n * 64);
        },
        rw
            (
              v.kv,
              v.entry,
              size,
              read_count,
              count_image-read n (omega (arith, h.room)),
              read_index,
              length-index_image 0 all h.pairs,
              same (n * 64),
              read_entries-offsets c v 0 all [] h.pairs h.ascending (All-always all)
                  (omega (arith, h.room)),
              length-offsets 0 all,
              same n,
              first_key-offsets 0 kv kvs,
              last_key-offsets 0 kv kvs,
            )
            (rw (last_key-offsets 0 kv kvs)),
        (
          record {
            pad = h.pad;
            blocks = h.blocks;
            padding = h.padding;
            index = refl;
            entries = refl;
            pairs = h.pairs;
            ascending = h.ascending;
            smallest = refl;
            largest = refl;
            room = h.room;
            persisted = refl;
          },
          refl,
          refl,
          refl,
        ),
      )
