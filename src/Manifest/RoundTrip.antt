-- ===== src/Manifest/RoundTrip.antt =====
-- What is written of the levels is read back, as long as it fits the block.
use quarkkv_compaction.Base.{
  ℕ, suc, ◌+◌, ◌-◌, ◌*◌, ◌^◌, ◌<◌, ◌≤◌, ◌≡◌, refl, sym, ap, ap₂, ◌∙◌, true, false, List, [], ◌∷◌,
  ◌++◌, append_assoc, append-nil, arith, ok, err, undefined, length, length-append, drop, replicate,
  take-append_left, drop-append_left, leb, ◌==◌, u32, ◌>>=◌,
}
use quarkkv_compaction.Std.Text.{Bytes}
use quarkkv_compaction.Std.Ordered.{All}
use quarkkv_compaction.Sst.Write.{le_bytes}
use quarkkv_compaction.Sst.Persisted.{length-le_bytes}
use quarkkv_compaction.Sst.Reopened.{of_le_bytes-le_bytes}
use quarkkv_compaction.Manifest.{
  Levels, add_to_level, get_live, get_number_of_live_ssts, word_bytes, level_bytes,
  serialize_levels, read_word, read_ids, read_levels, deserialize_levels,
}

-- the number of live tables, counted without wrapping
abbrev pub live : Levels → ℕ
live [] = 0
live (ids ∷ rest) = length ids + live rest

-- Identifiers are values of `uint32_t`.
abbrev pub IsWords : Levels → Type 0
IsWords files = All (λ (ids : List ℕ). All (λ (id : ℕ). id < 2 ^ 32) ids) files

length-word_bytes : (ns : List ℕ) → length (word_bytes ns) ≡ length ns * 4
unfolding word_bytes
length-word_bytes [] = refl
length-word_bytes (n ∷ ns) = omega (
  arith,
  length-append (le_bytes 4 (u32 n)) (word_bytes ns),
  length-le_bytes 4 (u32 n),
  length-word_bytes ns,
)

length-level_bytes :
    (files : Levels) → length (level_bytes files) ≡ length files * 4 + live files * 4
unfolding level_bytes
length-level_bytes [] = refl
length-level_bytes (ids ∷ rest) = omega (
  arith,
  length-append (word_bytes (length ids ∷ ids)) (level_bytes rest),
  length-word_bytes (length ids ∷ ids),
  length-level_bytes rest,
)

length-image :
    (files : Levels)
    → length (word_bytes (length files ∷ []) ++ level_bytes files)
      ≡ 4 + length files * 4 + live files * 4
length-image files = omega (
  arith,
  length-append (word_bytes (length files ∷ [])) (level_bytes files),
  length-word_bytes (length files ∷ []),
  length-level_bytes files,
)

get_live-eq : (n : ℕ) (files : Levels) → n + live files < 2 ^ 32 → get_live n files ≡ n + live files
unfolding get_live
get_live-eq n [] h = omega arith
get_live-eq n (ids ∷ rest) h = get_live-eq (u32 (n + length ids)) rest (omega arith) ∙ omega arith

read_word-word_bytes :
    (n : ℕ) (ns : List ℕ) (tail : Bytes)
    → n < 2 ^ 32
    → (read_word (word_bytes (n ∷ ns) ++ tail) ≡ ok n)
      × (drop 4 (word_bytes (n ∷ ns) ++ tail) ≡ word_bytes ns ++ tail)
unfolding read_word word_bytes
read_word-word_bytes n ns tail h =
    let word = le_bytes 4 (u32 n) in
    let rest = word_bytes ns ++ tail in
    let size = length-le_bytes 4 (u32 n) in
    let long : leb 4 (length (word ++ rest)) ≡ true =
      ground (arith, size, length-append word rest) in
    (
      rw (append_assoc word (word_bytes ns) tail, long, take-append_left word rest 4 (sym size))
          (ap ok (of_le_bytes-le_bytes 4 (u32 n) (omega arith) ∙ omega arith)),
      rw (append_assoc word (word_bytes ns) tail) (drop-append_left word rest 4 (sym size)),
    )

add_to_level-at :
    (done : Levels) (ids : List ℕ) (rest : Levels) (id : ℕ)
    → add_to_level (length done) id (done ++ ids ∷ rest) ≡ ok (done ++ (ids ++ id ∷ []) ∷ rest)
unfolding add_to_level
add_to_level-at [] ids rest id = refl
add_to_level-at (x ∷ done) ids rest id = rw (add_to_level-at done ids rest id) refl

read_ids-word_bytes :
    (new ids : List ℕ) (done rest : Levels) (tail : Bytes)
    → All (λ (id : ℕ). id < 2 ^ 32) new
    → read_ids (length new) (length done) (word_bytes new ++ tail) (done ++ ids ∷ rest)
      ≡ ok (tail, done ++ (ids ++ new) ∷ rest)
unfolding read_ids word_bytes
read_ids-word_bytes [] ids done rest tail h =
    ap (λ (front : List ℕ). ok (tail, done ++ front ∷ rest)) (sym (append-nil ids))
read_ids-word_bytes (n ∷ new) ids done rest tail h =
    let (read, left) = read_word-word_bytes n new tail h.0 in
    rw (read, add_to_level-at done ids rest n, left)
      (read_ids-word_bytes new (ids ++ n ∷ []) done rest tail h.1
        ∙ ap (λ (front : List ℕ). ok (tail, done ++ front ∷ rest)) (append_assoc ids (n ∷ []) new))

read_levels-level_bytes :
    (files done : Levels) (tail : Bytes)
    → IsWords files
    → live files < 2 ^ 32
    → read_levels
        (length files)
        (length done)
        (level_bytes files ++ tail)
        (done ++ replicate (length files) [])
      ≡ ok (done ++ files)
unfolding read_levels level_bytes replicate
read_levels-level_bytes [] done tail w h = refl
read_levels-level_bytes (ids ∷ rest) done tail w h =
    let behind = level_bytes rest ++ tail in
    let empty : Levels = replicate (length rest) [] in
    let (read, left) = read_word-word_bytes (length ids) ids behind (omega arith) in
    rw
      (
        append_assoc (word_bytes (length ids ∷ ids)) (level_bytes rest) tail,
        read,
        left,
        read_ids-word_bytes ids [] done empty behind w.0,
      )
      (ap₂ (λ (n : ℕ) (files : Levels). read_levels (length rest) n behind files) (next done ids)
          (sym (append_assoc done (ids ∷ []) empty))
        ∙ read_levels-level_bytes rest (done ++ ids ∷ []) tail w.1 (omega arith)
        ∙ ap ok (append_assoc done (ids ∷ []) rest))
  where
    next : (done : Levels) (ids : List ℕ) → suc (length done) ≡ length (done ++ ids ∷ [])
    next done ids = omega (arith, length-append done (ids ∷ []))

-- Levels whose words fit one block are written, and reading the block into as many empty levels
-- gives them back.
pub deserialize-serialize :
    (files : Levels)
    → IsWords files
    → 4 + length files * 4 + live files * 4 ≤ 4096
    → (serialize_levels files >>= λ buf. deserialize_levels buf (replicate (length files) []))
      ≡ ok files
unfolding serialize_levels deserialize_levels get_number_of_live_ssts word_bytes level_bytes
deserialize-serialize files w h =
    let bytes = word_bytes (length files ∷ []) ++ level_bytes files in
    let pad : Bytes = replicate (4096 - length bytes) 0 in
    let size = length-image files in
    let fits : leb (length bytes) 4096 ≡ true = ground arith in
    let count = get_live-eq 0 files (omega arith) in
    let agrees : (u32 (length bytes) == u32 (4 + length files * 4 + get_live 0 files * 4)) ≡ true =
      ground arith in
    let (read, left) =
      read_word-word_bytes (length files) [] (level_bytes files ++ pad) (omega arith) in
    rw
      (
        fits,
        agrees,
        append_assoc (word_bytes (length files ∷ [])) (level_bytes files) pad,
        read,
        left,
      )
      (read_levels-level_bytes files [] pad w (omega arith))

-- Levels whose words do not fit one block are written past the end of the buffer.
pub serialize-overflow :
    (files : Levels)
    → 4096 < 4 + length files * 4 + live files * 4
    → serialize_levels files ≡ err undefined
unfolding serialize_levels
serialize-overflow files h =
    let long : leb (length (word_bytes (length files ∷ []) ++ level_bytes files)) 4096 ≡ false =
      ground (arith, length-image files) in
    rw long
