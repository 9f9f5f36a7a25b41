-- ===== src/Tests/Values.antt =====
-- The memory table, the manifest, the configuration and the digits.
use quarkkv_compaction.Base.{
  ◌+◌, ◌<◌, ◌%◌, ℕ, ◌≡◌, ◌≤◌, refl, some, [], ◌∷◌, arith, ok, err, undefined, Returns, length,
  replicate, length-replicate, ◌>>=◌, if◌then◌else◌,
}
use quarkkv_compaction.Std.Text.{Bytes, text_eq}
use quarkkv_compaction.Std.Map.{added, keep_or}
use quarkkv_compaction.Config.Sizes.{IsVerified, verify_config-IsVerified}
use quarkkv_compaction.Args.{round_up}
use quarkkv_compaction.Args.Rounding.{round_up_bounds}
use quarkkv_compaction.KvPair
use quarkkv_compaction.KvPair.{KvPair, gt, hex_text, stoull}
use quarkkv_compaction.KvPair.Hex.{stoull-hex_text}
use quarkkv_compaction.MemTable.{MemTable, get, put}
use quarkkv_compaction.MemTable.Laws.{IsTable, get-put, length-put}
use quarkkv_compaction.Manifest.{Levels, serialize_levels, deserialize_levels}
use quarkkv_compaction.Manifest.RoundTrip.{deserialize-serialize, serialize-overflow}
use quarkkv_compaction.Tests.{config, verified, accepted, key, pair}

verify_config-IsVerified_example : IsVerified (config 64)
verify_config-IsVerified_example = verify_config-IsVerified (config 64) (verified 64)

stoull-hex_text_example : stoull (hex_text 4 43981) ≡ ok 43981
stoull-hex_text_example = stoull-hex_text 3 43981 (omega arith) (omega arith)

abbrev one : MemTable
one = record { table = (key 1, pair 1) ∷ []; limit = 64 }

one-IsTable : IsTable one
one-IsTable = record { sorted = (tt, tt); keyed = (refl, tt) }

get-put_example : Returns (put (config 64) (key 1) 9 [] one) λ m'.
    IsTable m'
    × ((j : Bytes)
        → get j m' ≡ (
            if text_eq (key 1) j
            then some (keep_or (get (key 1) one) (KvPair.new (key 1) 9 4040))
            else get j one))
get-put_example = get-put (config 64) (key 1) 9 [] one (accepted 64) one-IsTable

length-put_example :
    Returns
      (put (config 64) (key 2) 9 [] one)
      λ m'. (length m'.table ≡ 1 + added (get (key 2) one)) × (length m'.table ≤ m'.limit)
length-put_example = length-put (config 64) (key 2) 9 [] one (accepted 64) one-IsTable (omega arith)

deserialize-serialize_example :
    (serialize_levels ((7 ∷ 8 ∷ []) ∷ (9 ∷ []) ∷ []) >>= λ buf.
    deserialize_levels buf ([] ∷ [] ∷ []))
    ≡ ok ((7 ∷ 8 ∷ []) ∷ (9 ∷ []) ∷ [])
unfolding replicate
deserialize-serialize_example =
    deserialize-serialize ((7 ∷ 8 ∷ []) ∷ (9 ∷ []) ∷ [])
      ((omega arith, (omega arith, tt)), ((omega arith, tt), tt)) (omega arith)

abbrev crowded : Levels
crowded = replicate 1100 3 ∷ [] ∷ []

serialize-overflow_example : serialize_levels crowded ≡ err undefined
serialize-overflow_example =
    serialize-overflow crowded (omega (arith, length-replicate {0} {A = ℕ} 1100 3))

round_up_bounds_example :
    Returns (round_up 5000 1024) λ n. (5000 ≤ n) × (n < 5000 + 1024) × (n % 1024 ≡ 0)
round_up_bounds_example = round_up_bounds 5000 1024 (omega arith) (omega arith)
