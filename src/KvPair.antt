-- ===== src/KvPair.antt =====
-- core/KVPair.h: a key with the time of its insertion. The value is filler and is not stored.
pub mod Hex
pub mod Order
use quarkkv_compaction.Base.{
  ℕ, zero, suc, ◌+◌, ◌-◌, ◌*◌, ◌/◌, ◌%◌, ◌^◌, Bool, true, false, ◌&&◌, Option, none, some, List, [],
  ◌∷◌, ◌++◌, Ordering, Result, ok, err, aborted, ltb, leb, if◌then◌else◌, replicate,
}
use quarkkv_compaction.Std.Text.{Bytes, compare_text}

-- -1 for no handler and no offset is `none`
pub record KvPair : Type 0 where
  pub key : Bytes
  pub ts : ℕ
  pub value_size : ℕ
  pub handler : Option ℕ
  pub offset : Option ℕ

abbrev pub new : Bytes → ℕ → ℕ → KvPair
new key ts value_size = record {
  key = key;
  ts = ts;
  value_size = value_size;
  handler = none;
  offset = none;
}

-- operator>
unfoldable pub gt : KvPair → KvPair → Bool
gt a b = elim (compare_text a.key b.key) [
  | Ordering.gt ↦ true
  | Ordering.lt ↦ false
  | Ordering.eq ↦ ltb b.ts a.ts
]

unfoldable pub hex_digit : ℕ → ℕ
hex_digit d = if ltb d 10 then b'0' + d else b'a' + (d - 10)

-- the low `width` hexadecimal digits; 16 of them write any `uint64_t`
unfoldable pub hex_text : ℕ → ℕ → Bytes
unfolding hex_digit
hex_text zero n = []
hex_text (suc width) n = hex_text width (n / 16) ++ hex_digit (n % 16) ∷ []

unfoldable pub ts_to_string : ℕ → Bytes
unfolding hex_text
ts_to_string ts = b'0' ∷ b'x' ∷ hex_text 16 (ts % 2 ^ 64)

-- `std::string(n, 'V')` throws `std::length_error` when the size_t difference wraps
unfoldable pub to_binary : KvPair → Result Bytes
unfolding ts_to_string
to_binary kv =
    if ltb kv.value_size 18
    then err aborted
    else ok (kv.key ++ (replicate (kv.value_size - 18) b'V' ++ ts_to_string kv.ts))

unfoldable pub to_string : KvPair → Bytes
unfolding ts_to_string
to_string kv =
    kv.key ++ (b' ' ∷ b'(' ∷ b'v' ∷ b'a' ∷ b'l' ∷ b'u' ∷ b'e' ∷ b')' ∷ b' ' ∷ ts_to_string kv.ts)

unfoldable pub digit_value : ℕ → Option ℕ
digit_value c =
    if leb b'0' c && leb c b'9'
    then some (c - b'0')
    else if leb b'a' c && leb c b'f'
    then some (c - b'a' + 10)
    else if leb b'A' c && leb c b'F'
    then some (c - b'A' + 10)
    else none

scan_hex : ℕ → Bytes → ℕ
scan_hex n [] = n
scan_hex n (c ∷ cs) = elim (digit_value c) [ none ↦ n | some d ↦ scan_hex (n * 16 + d) cs ]

-- what does not fit 64 bits throws `std::out_of_range`
abbrev pub to_64_bits : ℕ → Result ℕ
to_64_bits n = if ltb n (2 ^ 64) then ok n else err aborted

-- std::stoull(text, nullptr, 16) on at most 16 characters: a text with no leading digit throws.
-- The white space, sign and 0x that it skips are not modelled: `to_binary` writes digits alone.
unfoldable pub stoull : Bytes → Result ℕ
unfolding digit_value scan_hex
stoull [] = err aborted
stoull (c ∷ cs) = elim (digit_value c) [ none ↦ err aborted | some d ↦ to_64_bits (scan_hex d cs) ]
