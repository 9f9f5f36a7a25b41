-- ===== src/Sst/Partial.antt =====
-- `Parse` on the file of a table that is not full.
use quarkkv_compaction.Base.{
  ℕ, zero, suc, ◌+◌, ◌-◌, ◌*◌, ◌/◌, ◌^◌, ◌<◌, ◌≤◌, ◌≡◌, ◌≢◌, refl, sym, ap, subst, ◌∙◌, List, [],
  ◌∷◌, ◌++◌, append_assoc, arith, length, take, drop, replicate, length-append, drop-append, ok,
  u32, >>=-eq-ok,
}
use quarkkv_compaction.Std.Text.{Bytes}
use quarkkv_compaction.Std.Ordered.{All}
use quarkkv_compaction.Config.{Config}
use quarkkv_compaction.Config.Sizes.{IsVerified}
use quarkkv_compaction.KvPair.{KvPair}
use quarkkv_compaction.Device.{Device, IsDevice}
use quarkkv_compaction.Sst.{Sst, new}
use quarkkv_compaction.Sst.Write.{le_bytes}
use quarkkv_compaction.Sst.Read.{
  of_le_bytes, read_entries, first_key, parse_offsets, read_number_of_entries, read_index_block,
  parse,
}
use quarkkv_compaction.Sst.Layout.{images, length-images}
use quarkkv_compaction.Sst.Persisted.{
  index_image, count_image, index_size, IsPersisted, length-le_bytes, length-index_image,
}

abbrev IsZeros : Bytes → Type 0
IsZeros bs = All (λ (b : ℕ). b ≡ 0) bs

IsZeros-replicate : (n : ℕ) → IsZeros (replicate n 0)
unfolding replicate
IsZeros-replicate zero = tt
IsZeros-replicate (suc n) = (refl, IsZeros-replicate n)

IsZeros-drop : (n : ℕ) (bs : Bytes) → IsZeros bs → IsZeros (drop n bs)
unfolding drop
IsZeros-drop zero bs h = h
IsZeros-drop (suc n) [] h = tt
IsZeros-drop (suc n) (b ∷ bs) h = IsZeros-drop n bs h.1

IsZeros-take : (n : ℕ) (bs : Bytes) → IsZeros bs → IsZeros (take n bs)
unfolding take
IsZeros-take zero bs h = tt
IsZeros-take (suc n) [] h = tt
IsZeros-take (suc n) (b ∷ bs) h = (h.0, IsZeros-take n bs h.1)

IsZeros-append : (xs ys : Bytes) → IsZeros xs → IsZeros ys → IsZeros (xs ++ ys)
IsZeros-append [] ys h k = k
IsZeros-append (x ∷ xs) ys h k = (h.0, IsZeros-append xs ys h.1 k)

of_le_bytes-zeros : (bs : Bytes) → IsZeros bs → of_le_bytes bs ≡ 0
unfolding of_le_bytes
of_le_bytes-zeros [] h = refl
of_le_bytes-zeros (b ∷ bs) h = omega (arith, h.0, of_le_bytes-zeros bs h.1)

-- Behind the count there are only zeros, and then the file ends.
IsZeros-behind :
    (kvs : List KvPair) (front : Bytes) (o : ℕ)
    → length front + 4 ≤ o
    → IsZeros (drop o (front ++ count_image (length kvs)))
unfolding count_image
IsZeros-behind kvs front o h =
    let count = le_bytes 4 (length kvs) in
    let past = o - (length front + 4) in
    rw
      (
        ← append_assoc front count (replicate 4092 0),
        drop-append (front ++ count) (replicate 4092 0) o past
            (omega (arith, length-append front count, length-le_bytes 4 (length kvs))),
      )
      (IsZeros-drop past _ (IsZeros-replicate 4092))

index_size_near : (n : ℕ) → index_size n ≤ n * 64 + 4032
index_size_near n = ground arith

-- A count of zero is refused, whatever the rest of the file.
no_entries :
    (d : Device) (c : Config) (s : Sst) (w : d.World) (r : Sst)
    → s.entries ≡ 0
    → s.index_table ≡ []
    → read_index_block d c s w ≢ ok r
unfolding read_index_block read_entries first_key
no_entries d c s w r e i = ground arith

module _ (d : Device) (c : Config) (v : IsVerified c) (law : IsDevice d) where
  open d use {World}

  -- Under a verified configuration with SST files below 2 ^ 32 bytes, the file of a persisted table
  -- with fewer pairs than an SST file has room for can not be opened again: `Parse` does not return 0
  -- on it, whatever the storage fails to do.
  pub parse-partial :
      (s : Sst) (w : World) (kvs : List KvPair) (unset id : ℕ) (r : Sst)
      → IsPersisted d w s kvs
      → length kvs * 4096 < c.sst_file_size
      → c.sst_file_size < 2 ^ 32
      → parse d c (new unset s.handler id) w ≢ ok r
  unfolding parse parse_offsets read_number_of_entries new
  parse-partial s w kvs unset id r h small fits run =
      let n = length kvs in
      let offset = c.sst_file_size + u32 (64 * (c.sst_file_size / 4096)) in
      let run' = rw (v.kv, v.entry) at run in
      let (s₂, indexed, numbered) = >>=-eq-ok _ _ run' in
      let (buf, e, got) = >>=-eq-ok (d.read s.handler 4096 offset w) _ numbered in
      let (s₃, _, read) = >>=-eq-ok (read_index_block d c s₂ w) _ indexed in
      let front = images kvs ++ (index_image 0 kvs ++ h.pad) in
      let size : length front + 4 ≤ offset = omega (
        arith,
        length-append (images kvs) (index_image 0 kvs ++ h.pad),
        length-append (index_image 0 kvs) h.pad,
        length-images kvs h.pairs,
        length-index_image 0 kvs h.pairs,
        index_size_near n,
        h.padding,
        v.whole,
      ) in
      let zeros : IsZeros buf =
        subst IsZeros
          (sym (
            law.read-content s.handler 4096 offset w buf got
            ∙ ap (λ b. take 4096 (drop offset b))
                (h.blocks
                  ∙ sym (append_assoc (images kvs) (index_image 0 kvs ++ h.pad) (count_image n)))))
          (IsZeros-take 4096 _ (IsZeros-behind kvs front offset size)) in
      let none_counted : of_le_bytes (take 4 (buf ++ replicate 4 0)) ≡ 0 =
        of_le_bytes-zeros _
          (IsZeros-take 4 _ (IsZeros-append buf (replicate 4 0) zeros (IsZeros-replicate 4))) in
      no_entries d c s₂ w s₃ (ground arith) (ground arith) read
