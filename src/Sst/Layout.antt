-- ===== src/Sst/Layout.antt =====
-- What an SST file holds, stated apart from the code: one block for each pair, in key order, and
-- the table of where each key's block begins.
use quarkkv_compaction.Base.{
  ℕ, zero, suc, ◌+◌, ◌*◌, ◌%◌, ◌^◌, ◌<◌, ◌≡◌, refl, sym, ap, ◌∙◌, Bool, Option, none, some, List,
  [], ◌∷◌, ◌++◌, append_assoc, append-nil, arith, length, get_elem?, take, drop, replicate,
  length-append, length-replicate, take-append_left, drop-append, if◌then◌else◌,
}
use quarkkv_compaction.Std.Text.{Bytes, text_lt, text_eq}
use quarkkv_compaction.Std.Map.{Map}
use quarkkv_compaction.Std.Ordered.{All, IsSorted}
use quarkkv_compaction.KvPair.{KvPair, ts_to_string}
use quarkkv_compaction.KvPair.Hex.{length-hex_text}
use quarkkv_compaction.Device.{Device}
use quarkkv_compaction.Sst.{Sst}

-- the block of a pair
unfoldable pub image : KvPair → Bytes
image kv = kv.key ++ (replicate 4022 b'V' ++ ts_to_string kv.ts)

unfoldable pub images : List KvPair → Bytes
images [] = []
images (kv ∷ kvs) = image kv ++ images kvs

-- the table of a file whose first pair has number `i`
unfoldable pub offsets : ℕ → List KvPair → Map ℕ
offsets i [] = []
offsets i (kv ∷ kvs) = (kv.key, i * 4096) ∷ offsets (suc i) kvs

-- a pair whose block has the size that a verified configuration fixes
pub record IsPair (kv : KvPair) : Type 0 where
  pub key : length kv.key ≡ 56
  pub value : kv.value_size ≡ 4040
  pub ts : kv.ts < 2 ^ 64

abbrev pub key_less : KvPair → KvPair → Bool
key_less a b = text_lt a.key b.key

abbrev pub IsAscending : List KvPair → Type 0
IsAscending kvs = IsSorted key_less kvs

abbrev pub first : List KvPair → Bytes
first [] = []
first (kv ∷ kvs) = kv.key

abbrev pub last : List KvPair → Bytes
last [] = []
last (kv ∷ []) = kv.key
last (kv ∷ next ∷ kvs) = last (next ∷ kvs)

-- the pair as it is read back: it also knows its file and the place in it
abbrev pub located : ℕ → ℕ → KvPair → KvPair
located handler i kv = record kv { handler = some handler; offset = some (i * 4096) }

-- The pair of a key, and its number; the search begins at number `i`.
unfoldable pub find_pair : ℕ → Bytes → List KvPair → Option (ℕ × KvPair)
find_pair i key [] = none
find_pair i key (kv ∷ kvs) = if text_eq kv.key key then some (i, kv) else find_pair (suc i) key kvs

-- An SST under construction whose file holds exactly `kvs`.
pub record Holds (d : Device) (w : d.World) (s : Sst) (kvs : List KvPair) : Type 0 where
  pub bytes : d.content w s.handler ≡ images kvs
  pub index : s.index_table ≡ offsets 0 kvs
  pub entries : s.entries ≡ length kvs
  pub pairs : All IsPair kvs
  pub ascending : IsAscending kvs
  pub smallest : s.smallest_key ≡ first kvs
  pub room : length kvs * 4096 < 2 ^ 32

-- A finished SST whose file is open and begins with `kvs`.
pub record IsReadable (d : Device) (w : d.World) (s : Sst) (kvs : List KvPair) : Type 0 where
  pub tail : Bytes
  pub opened : d.IsOpen w s.handler
  pub bytes : d.content w s.handler ≡ images kvs ++ tail
  pub index : s.index_table ≡ offsets 0 kvs
  pub entries : s.entries ≡ length kvs
  pub pairs : All IsPair kvs
  pub ascending : IsAscending kvs
  pub smallest : s.smallest_key ≡ first kvs
  pub largest : s.largest_key ≡ last kvs
  pub room : length kvs * 4096 < 2 ^ 32

pub length-ts_to_string : (ts : ℕ) → length (ts_to_string ts) ≡ 18
unfolding ts_to_string
length-ts_to_string ts = omega (arith, length-hex_text 16 (ts % 2 ^ 64))

pub length-image : (kv : KvPair) → IsPair kv → length (image kv) ≡ 4096
unfolding image
length-image kv p = omega (
  arith,
  p.key,
  length-append kv.key (replicate 4022 b'V' ++ ts_to_string kv.ts),
  length-append {0} {A = ℕ} (replicate 4022 b'V') (ts_to_string kv.ts),
  length-replicate {0} {A = ℕ} 4022 b'V',
  length-ts_to_string kv.ts,
)

pub length-images : (kvs : List KvPair) → All IsPair kvs → length (images kvs) ≡ length kvs * 4096
unfolding images
length-images [] p = refl
length-images (kv ∷ kvs) p =
    omega (arith, length-append (image kv) (images kvs), length-image kv p.0, length-images kvs p.1)

pub images-append :
    (xs : List KvPair) (kv : KvPair) → images (xs ++ kv ∷ []) ≡ images xs ++ image kv
unfolding images
images-append [] kv = append-nil (image kv)
images-append (x ∷ xs) kv = rw (images-append xs kv, append_assoc)

pub offsets-append :
    (i : ℕ) (xs : List KvPair) (kv : KvPair)
    → offsets i (xs ++ kv ∷ []) ≡ offsets i xs ++ (kv.key, (i + length xs) * 4096) ∷ []
unfolding offsets
offsets-append i [] kv = ap (λ (t : ℕ). (kv.key, t * 4096) ∷ []) (omega arith)
offsets-append i (x ∷ xs) kv = ap (◌∷◌ (x.key, i * 4096)) (
    offsets-append (suc i) xs kv
    ∙ ap (λ (t : ℕ). offsets (suc i) xs ++ (kv.key, t * 4096) ∷ []) (omega arith))

-- The block of the pair with number `i`, wherever it stands in the file.
pub slice-images :
    (kvs : List KvPair) (i : ℕ) (kv : KvPair) (rest : Bytes)
    → All IsPair kvs
    → get_elem? kvs i ≡ some kv
    → take 4096 (drop (i * 4096) (images kvs ++ rest)) ≡ image kv
unfolding images drop
slice-images [] i kv rest p h = cc
slice-images (x ∷ xs) zero kv rest p h =
    let same : x ≡ kv = cc in
    rw append_assoc (
      take-append_left (image x) (images xs ++ rest) 4096 (sym (length-image x p.0))
      ∙ ap image same)
slice-images (x ∷ xs) (suc i) kv rest p h =
    let size = length-image x p.0 in
    let next = drop-append (image x) (images xs ++ rest) (suc i * 4096) (i * 4096) (omega arith) in
    rw append_assoc (rw next (slice-images xs i kv rest p.1 h))
