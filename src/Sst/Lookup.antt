-- ===== src/Sst/Lookup.antt =====
-- `readKV`, `GetKVAtIndex` and `Lookup` on a finished table.
use quarkkv_compaction.Base.{
  ℕ, zero, suc, ◌+◌, ◌*◌, ◌/◌, ◌%◌, ◌^◌, ◌<◌, ◌≡◌, refl, sym, ap, ◌∙◌, true, false, ◌||◌, none,
  some, List, [], ◌∷◌, ◌++◌, append_assoc, append-nil, arith, length, get_elem?, take, drop,
  replicate, length-append, length-replicate, take-append_left, drop-append, take-length, ok, u32,
  inl, inr, Bool-cases, ◌>>=◌, lt→ltb, Option-cases, subst,
}
use mathlib.Core.Option
use quarkkv_compaction.Std.Text.{Bytes, text_lt, text_eq, text_lt_trans, text_ne_of_lt}
use quarkkv_compaction.Std.Ordered.{All, All-map}
use quarkkv_compaction.Std.Map
use quarkkv_compaction.Config.{Config}
use quarkkv_compaction.Config.Sizes.{IsVerified}
use quarkkv_compaction.KvPair.{KvPair, hex_text, hex_digit, ts_to_string}
use quarkkv_compaction.KvPair.Hex.{length-hex_text, stoull-hex_text}
use quarkkv_compaction.Device.{Device, IsReliable}
use quarkkv_compaction.Sst.{Sst}
use quarkkv_compaction.Sst.Read.{c_string, decode_kv, read_kv, get_kv_at_index, lookup}
use quarkkv_compaction.Sst.Layout.{
  image, images, offsets, IsPair, IsAscending, first, last, located, find_pair, IsReadable,
  length-image, length-images, slice-images,
}

c_string-cons : (b : ℕ) (bs : Bytes) → 0 < b → c_string (b ∷ bs) ≡ b ∷ c_string bs
unfolding c_string
c_string-cons zero bs h = absurd (omega arith)
c_string-cons (suc b) bs h = refl

hex_digit_pos : (d : ℕ) → 0 < hex_digit d
unfolding hex_digit
hex_digit_pos d = ground arith

c_string-append_digits :
    (w n : ℕ) (rest : Bytes) → c_string (hex_text w n ++ rest) ≡ hex_text w n ++ c_string rest
unfolding hex_text
c_string-append_digits zero n rest = refl
c_string-append_digits (suc w) n rest =
    let digit = hex_digit (n % 16) in
    rw (append_assoc (hex_text w (n / 16)) (digit ∷ []) rest) (
      rw (append_assoc (hex_text w (n / 16)) (digit ∷ []) (c_string rest)) (
        c_string-append_digits w (n / 16) (digit ∷ rest)
        ∙ ap (λ b. hex_text w (n / 16) ++ b) (c_string-cons digit rest (hex_digit_pos (n % 16)))))

drop-image : (kv : KvPair) → IsPair kv → drop 4080 (image kv) ≡ hex_text 16 (kv.ts % 2 ^ 64)
unfolding image drop ts_to_string
drop-image kv p =
    let digits = hex_text 16 (kv.ts % 2 ^ 64) in
    drop-append kv.key (replicate 4022 b'V' ++ ts_to_string kv.ts) 4080 4024 (omega (arith, p.key))
    ∙ drop-append (replicate 4022 b'V') (ts_to_string kv.ts) 4024 2
        (omega (arith, length-replicate {0} {A = ℕ} 4022 b'V'))

stamp-image :
    (kv : KvPair)
    → IsPair kv
    → c_string (take 16 (drop 4080 (image kv))) ≡ hex_text 16 (kv.ts % 2 ^ 64)
unfolding c_string
stamp-image kv p =
    let digits = hex_text 16 (kv.ts % 2 ^ 64) in
    rw (drop-image kv p, take-length digits 16 (sym (length-hex_text 16 (kv.ts % 2 ^ 64))))
      (ap c_string (sym (append-nil digits))
        ∙ c_string-append_digits 16 (kv.ts % 2 ^ 64) []
        ∙ append-nil digits)

-- A block is taken apart into the pair that it was made of.
decode_kv-image :
    (c : Config) (kv : KvPair) (h i : ℕ)
    → IsVerified c
    → IsPair kv
    → decode_kv c 4096 4040 (image kv) h (i * 4096) ≡ ok (located h i kv)
unfolding decode_kv image
decode_kv-image c kv h i v p =
    let front =
      ap (λ (n : ℕ). take n (image kv)) (v.key_size ∙ sym p.key)
      ∙ take-append_left kv.key (replicate 4022 b'V' ++ ts_to_string kv.ts) _ refl in
    let time : kv.ts % 2 ^ 64 ≡ kv.ts = omega (arith, p.ts) in
    rw (stamp-image kv p, stoull-hex_text 15 (kv.ts % 2 ^ 64) (omega arith) (omega arith))
      (cc (front, time, p.value))

find-offsets :
    (key : Bytes) (i : ℕ) (kvs : List KvPair)
    → Map.find key (offsets i kvs) ≡ Option.map (λ p. p.0 * 4096) (find_pair i key kvs)
unfolding Map.find offsets find_pair
find-offsets key i [] = refl
find-offsets key i (x ∷ xs) = ground (arith, find-offsets key (suc i) xs)

find_pair-get :
    (key : Bytes) (i : ℕ) (kvs : List KvPair) (j : ℕ) (kv : KvPair)
    → find_pair i key kvs ≡ some (j, kv)
    → (k : ℕ) × (j ≡ i + k) × (get_elem? kvs k ≡ some kv)
unfolding find_pair
find_pair-get key i [] j kv h = cc
find_pair-get key i (x ∷ xs) j kv h = elim (Bool-cases (text_eq x.key key)) [
  | inl same ↦ (0, ground arith, ground arith)
  | inr other ↦
      let (k, e, at) = find_pair-get key (suc i) xs j kv (ground arith) in (suc k, omega arith, at)
]

-- Keys beyond either end of a table are not in it.
find_pair-none :
    (key : Bytes) (i : ℕ) (kvs : List KvPair)
    → All (λ x. text_eq x.key key ≡ false) kvs
    → find_pair i key kvs ≡ none
unfolding find_pair
find_pair-none key i [] h = refl
find_pair-none key i (x ∷ xs) h = rw h.0 (find_pair-none key (suc i) xs h.1)

above_last :
    (key : Bytes) (kvs : List KvPair)
    → IsAscending kvs
    → text_lt (last kvs) key ≡ true
    → All (λ x. text_lt x.key key ≡ true) kvs
above_last key [] a h = tt
above_last key (x ∷ []) a h = (h, tt)
above_last key (x ∷ y ∷ ys) a h =
    let rest = above_last key (y ∷ ys) a.1 h in (text_lt_trans x.key y.key key a.0.0 rest.0, rest)

below_first :
    (key : Bytes) (kvs : List KvPair)
    → IsAscending kvs
    → text_lt key (first kvs) ≡ true
    → All (λ x. text_lt key x.key ≡ true) kvs
below_first key [] a h = tt
below_first key (x ∷ xs) a h = (h, All-map _ _ xs (λ y. text_lt_trans key x.key y.key h) a.0)

get_elem?-lt : (i : ℕ) (kv : KvPair) (xs : List KvPair) → get_elem? xs i ≡ some kv → i < length xs
get_elem?-lt i kv [] h = cc
get_elem?-lt zero kv (x ∷ xs) h = omega arith
get_elem?-lt (suc i) kv (x ∷ xs) h = omega (arith, get_elem?-lt i kv xs h)

pub All-get :
    (P : KvPair → Type 0) (i : ℕ) (kv : KvPair) (xs : List KvPair)
    → All P xs
    → get_elem? xs i ≡ some kv
    → P kv
All-get P i kv [] a h = cc
All-get P zero kv (x ∷ xs) a h = let e : x ≡ kv = cc in subst P e a.0
All-get P (suc i) kv (x ∷ xs) a h = All-get P i kv xs a.1 h

module _ (d : Device) (c : Config) (v : IsVerified c) (rel : IsReliable d) where
  open d use {World}

  module _ (s : Sst) (w : World) (kvs : List KvPair) (r : IsReadable d w s kvs) where
    read_kv-located :
        (i : ℕ) (kv : KvPair)
        → get_elem? kvs i ≡ some kv
        → read_kv d c (i * 4096) s w ≡ ok (located s.handler i kv)
    unfolding read_kv
    read_kv-located i kv h =
        let p = All-get IsPair i kv kvs r.pairs h in
        let size : length (d.content w s.handler) ≡ length (images kvs) + length r.tail =
          ap length r.bytes ∙ length-append (images kvs) r.tail in
        let inside = get_elem?-lt i kv kvs h in
        let (b, run) =
          rel.read_ok s.handler 4096 (i * 4096) w r.opened
            (omega (arith, length-images kvs r.pairs)) in
        let same =
          rel.read-content s.handler 4096 (i * 4096) w b run
          ∙ ap (λ t. take 4096 (drop (i * 4096) t)) r.bytes
          ∙ slice-images kvs i kv r.tail r.pairs h in
        let aligned : i * 4096 % 4096 ≡ 0 = omega arith in
        rw (aligned, v.kv, run, same, length-image kv p, v.value)
          (decode_kv-image c kv s.handler i v p)

    -- Under a verified configuration and on storage without errors, reading the pair of a number
    -- below the count of a readable table gives that pair, with its handler and its offset.
    pub get_kv_at_index-located :
        (i : ℕ) (kv : KvPair)
        → get_elem? kvs i ≡ some kv
        → get_kv_at_index d c i s w ≡ ok (located s.handler i kv)
    unfolding get_kv_at_index
    get_kv_at_index-located i kv h =
        let inside = get_elem?-lt i kv kvs h in
        let within : i < s.entries = omega (arith, r.entries) in
        let place : u32 (i * 4096) ≡ i * 4096 = omega (arith, r.room) in
        rw (lt→ltb _ _ within, v.kv, place) (read_kv-located i kv h)

    -- The keys that the range test turns away are not in the table.
    beyond :
        (key : Bytes)
        → (text_lt s.largest_key key || text_lt key s.smallest_key) ≡ true
        → All (λ x. text_eq x.key key ≡ false) kvs
    beyond key h = elim (Bool-cases (text_lt s.largest_key key)) [
      | inl over ↦
          All-map _ _ kvs (λ x t. (text_ne_of_lt x.key key t).0)
            (above_last key kvs r.ascending (rw r.largest at over))
      | inr fits ↦
          let under : text_lt key s.smallest_key ≡ true = ground arith in
          All-map _ _ kvs (λ x t. (text_ne_of_lt key x.key t).1)
            (below_first key kvs r.ascending (rw r.smallest at under))
    ]

    -- what the search of the table leads to
    read_found :
        (key : Bytes)
        → (elim (Option.map (λ (p : ℕ × KvPair). p.0 * 4096) (find_pair 0 key kvs)) [
          | none ↦ ok none
          | some offset ↦ do kv ← read_kv d c offset s w; ok (some kv)
        ])
          ≡ ok (Option.map (λ p. located s.handler p.0 p.1) (find_pair 0 key kvs))
    read_found key = elim (Option-cases (find_pair 0 key kvs)) [
      | inl absent ↦ rw absent refl
      | inr ((j, kv), found) ↦
          let (k, e, at) = find_pair-get key 0 kvs j kv found in
          let same : k ≡ j = omega arith in rw (found, read_kv-located j kv (rw same at at)) refl
    ]

    -- Under a verified configuration and on storage that has no errors, a lookup in a readable table
    -- finds the pair of the key, with its handler and its offset, where the table has one, and nothing
    -- otherwise.
    pub lookup-find_pair :
        (key : Bytes)
        → lookup d c key s w
          ≡ ok (Option.map (λ p. located s.handler p.0 p.1) (find_pair 0 key kvs))
    unfolding lookup
    lookup-find_pair key =
        elim (Bool-cases (text_lt s.largest_key key || text_lt key s.smallest_key)) [
          | inl outside ↦ rw (outside, find_pair-none key 0 kvs (beyond key outside)) refl
          | inr inside ↦ rw (inside, r.index, find-offsets key 0 kvs) (read_found key)
        ]
