-- ===== src/Fs/Blocks.antt =====
-- The block with a manifest's name, and the name in it.
use quarkkv_compaction.Base.{
  ℕ, zero, suc, ◌+◌, ◌-◌, ◌*◌, ◌^◌, ◌<◌, ◌≤◌, ◌≡◌, refl, sym, ap, ◌∙◌, false, [], ◌∷◌, ◌++◌, arith,
  inl, inr, Bool-cases, ltb, leb, ◌==◌, u32, length, length-append, length-replicate, replicate,
  drop, ok,
}
use quarkkv_compaction.Std.Text.{Bytes, text_eq, text_eq→eq}
use quarkkv_compaction.Std.Ordered.{All, All-append}
use quarkkv_compaction.Std.Decimal.{decimal, length-decimal, decimal_pos}
use quarkkv_compaction.Config.{Config, block_size}
use quarkkv_compaction.Sst.Read.{c_string}
use quarkkv_compaction.Manifest.{
  Levels, serialize_levels, word_bytes, level_bytes, get_number_of_live_ssts,
}
use quarkkv_compaction.Fs.{full_path}
use quarkkv_compaction.Fs.Manifests.{current_name, manifest_name, cleared_block}

drop-replicate : (n m : ℕ) (b : ℕ) → drop n (replicate m b) ≡ replicate (m - n) b
unfolding drop replicate
drop-replicate zero m b = ap (λ (t : ℕ). replicate t b) (omega arith)
drop-replicate (suc n) zero b =
    let left : 0 ≡ zero - suc n = omega arith in ap (λ (t : ℕ). replicate t b) left
drop-replicate (suc n) (suc m) b =
    let left : m - n ≡ suc m - suc n = omega arith in
    drop-replicate n m b ∙ ap (λ (t : ℕ). replicate t b) left

c_string-eq : (name rest : Bytes) → All (λ (b : ℕ). 0 < b) name → c_string (name ++ 0 ∷ rest) ≡ name
unfolding c_string
c_string-eq [] rest h = refl
c_string-eq (zero ∷ bs) rest h = absurd (omega (arith, h.0))
c_string-eq (suc b ∷ bs) rest h = ap (◌∷◌ (suc b)) (c_string-eq bs rest h.1)

pub length-manifest_name : (k : ℕ) → length (manifest_name k) ≤ 30
unfolding manifest_name
length-manifest_name k = elim (Bool-cases (ltb k (2 ^ 31))) [
  | inl below ↦ rw below (omega (arith, length-decimal k))
  | inr above ↦ rw above (omega (arith, length-decimal (2 ^ 32 - k)))
]

manifest_name_pos : (k : ℕ) → All (λ (b : ℕ). 0 < b) (manifest_name k)
unfolding manifest_name
manifest_name_pos k = elim (Bool-cases (ltb k (2 ^ 31))) [
  | inl below ↦ rw below (
      All-append {A = ℕ} (λ (b : ℕ). 0 < b)
        (b'M' ∷ b'A' ∷ b'N' ∷ b'I' ∷ b'F' ∷ b'E' ∷ b'S' ∷ b'T' ∷ b'-' ∷ []) _ (omega arith)
        (decimal_pos k))
  | inr above ↦ rw above (
      All-append {A = ℕ} (λ (b : ℕ). 0 < b)
        (b'M' ∷ b'A' ∷ b'N' ∷ b'I' ∷ b'F' ∷ b'E' ∷ b'S' ∷ b'T' ∷ b'-' ∷ [])
        (b'-' ∷ decimal (2 ^ 32 - k)) (omega arith) (omega arith, decimal_pos (2 ^ 32 - k)))
]

-- the block that `Persist` writes to the file that names the manifest
abbrev pub name_block : ℕ → Bytes
name_block k = manifest_name k ++ drop (length (manifest_name k)) cleared_block

pub length-name_block : (k : ℕ) → length (name_block k) ≡ 4096
length-name_block k =
    let n : ℕ = length (manifest_name k) in
    rw (drop-replicate n 4096 0) (
      omega (
        arith,
        length-append (manifest_name k) (replicate (4096 - n) 0),
        length-replicate {0} {A = ℕ} (4096 - n) 0,
        length-manifest_name k,
      ))

pub c_string-name_block : (k : ℕ) → c_string (name_block k) ≡ manifest_name k
unfolding replicate
c_string-name_block k =
    let n : ℕ = length (manifest_name k) in
    let one_more : 4096 - n ≡ suc (4095 - n) = omega (arith, length-manifest_name k) in
    let zeros : drop n cleared_block ≡ 0 ∷ replicate (4095 - n) 0 =
      drop-replicate n 4096 0 ∙ ap (λ (t : ℕ). replicate t 0) one_more in
    ap (λ t. c_string (manifest_name k ++ t)) zeros
    ∙ c_string-eq (manifest_name k) (replicate (4095 - n) 0) (manifest_name_pos k)

pub tail-eq : (d x y : Bytes) → d ++ x ≡ d ++ y → x ≡ y
tail-eq [] x y e = e
tail-eq (b ∷ d) x y e = tail-eq d x y (cc)

-- A manifest's file is not the one that names it.
pub paths_differ :
    (c : Config) (k : ℕ)
    → text_eq (full_path c (manifest_name k)) (full_path c current_name) ≡ false
unfolding full_path manifest_name
paths_differ c k =
    elim (Bool-cases (text_eq (full_path c (manifest_name k)) (full_path c current_name))) [
      | inl same ↦ let e = tail-eq c.fs_dbdir _ _ (text_eq→eq _ _ same) in absurd (ground arith)
      | inr other ↦ other
    ]

pub current_differs :
    (c : Config) (k : ℕ)
    → text_eq (full_path c current_name) (full_path c (manifest_name k)) ≡ false
unfolding full_path manifest_name
current_differs c k =
    elim (Bool-cases (text_eq (full_path c current_name) (full_path c (manifest_name k)))) [
      | inl same ↦ let e = tail-eq c.fs_dbdir _ _ (text_eq→eq _ _ same) in absurd (ground arith)
      | inr other ↦ other
    ]

pub length-serialize_levels :
    (files : Levels) (buf : Bytes) → serialize_levels files ≡ ok buf → length buf ≡ 4096
unfolding serialize_levels
length-serialize_levels files buf e =
    let bytes = word_bytes (length files ∷ []) ++ level_bytes files in
    elim (Bool-cases (leb (length bytes) block_size)) [
      | inr long ↦ absurd (ground arith)
      | inl fits ↦
          elim (Bool-cases (
            u32 (length bytes) == u32 (4 + length files * 4 + get_number_of_live_ssts files * 4))) [
              | inr other ↦ absurd (ground arith)
              | inl counted ↦
                  let run : serialize_levels files
                      ≡ ok (bytes ++ replicate (block_size - length bytes) 0) =
                    rw (fits, counted) refl in
                  let is : bytes ++ replicate (block_size - length bytes) 0 ≡ buf =
                    cc (sym run ∙ e) in
                  ap length (sym is)
                  ∙ ground (
                    arith,
                    length-append bytes (replicate (block_size - length bytes) 0),
                    length-replicate {0} {A = ℕ} (block_size - length bytes) 0,
                  )
            ]
    ]
