-- ===== src/Args.antt =====
-- utils/argparser.h, and the rounding of utils/utils.h. `getopt_long` is not read here: the options
-- that it gives, each with its letter and its argument, are a parameter. The program's exit is
-- `err failed`.
pub mod Rounding
use quarkkv_compaction.Base.{
  ℕ, zero, suc, ◌+◌, ◌-◌, ◌*◌, ◌/◌, ◌%◌, ◌^◌, Bool, true, false, ◌&&◌, ◌||◌, List, [], ◌∷◌, Result,
  ok, err, require, failed, undefined, ◌>>=◌, ◌>>◌, ltb, leb, ◌==◌, if◌then◌else◌,
}
use quarkkv_compaction.Std.Text.{Bytes, text_eq}
use quarkkv_compaction.Config.{
  Config, block_size, Mode, manual, ycsb, StorageEngine, fs, quarkstore, quarkstore_append,
  Distribution, uniform, zipfian, CompactionPicker, all, one,
}

-- The sum and the product are of 64 bits; the result is an `int`, and goes back to 64 bits with its
-- sign.
unfoldable pub round_up : ℕ → ℕ → Result ℕ
round_up from to = do
  require (ltb 0 to) undefined
  let rounded = ((from + to + 2 ^ 64 - 1) % 2 ^ 64) / to * to
  let low = rounded % 2 ^ 32
  ok (if ltb low (2 ^ 31) then low else low + (2 ^ 64 - 2 ^ 32))

-- what `atoi` has read: its sign and its digits
pub record Number : Type 0 where
  pub negative : Bool
  pub digits : ℕ

unfoldable pub is_digit : ℕ → Bool
is_digit c = leb b'0' c && leb c b'9'

unfoldable pub scan_digits : ℕ → Bytes → ℕ
scan_digits n [] = n
scan_digits n (c ∷ cs) =
    let rest = scan_digits (n * 10 + (c - b'0')) cs in if is_digit c then rest else n

unfoldable pub scan_sign : Bytes → Number
scan_sign [] = record { negative = false; digits = 0 }
scan_sign (c ∷ cs) =
    if c == b'-'
    then record { negative = true; digits = scan_digits 0 cs }
    else record { negative = false; digits = scan_digits 0 (if c == b'+' then cs else c ∷ cs) }

-- the blank and the five control characters of `isspace`
unfoldable pub skip_space : Bytes → Bytes
skip_space [] = []
skip_space (c ∷ cs) =
    let rest = skip_space cs in if c == 32 || (leb 9 c && leb c 13) then rest else c ∷ cs

-- A value that is no `int` is undefined.
unfoldable pub atoi : Bytes → Result Number
atoi text = do
  let n = scan_sign (skip_space text)
  require (ltb n.digits (2 ^ 31) || (n.negative && (n.digits == 2 ^ 31))) undefined
  ok n

-- the conversion to an unsigned type of `bits` bits
unfoldable pub to_unsigned : ℕ → Number → ℕ
to_unsigned bits n = if n.negative then (2 ^ bits - n.digits) % 2 ^ bits else n.digits

unfoldable pub number : ℕ → Bytes → Result ℕ
number bits text = do n ← atoi text; ok (to_unsigned bits n)

unfoldable pub read_engine : Bytes → Result StorageEngine
read_engine text =
    if text_eq text (b'f' ∷ b's' ∷ [])
    then ok fs
    else if text_eq text (b'q' ∷ b'u' ∷ b'a' ∷ b'r' ∷ b'k' ∷ b's' ∷ b't' ∷ b'o' ∷ b'r' ∷ b'e' ∷ [])
    then ok quarkstore
    else if text_eq text (
        b'q' ∷ b'u' ∷ b'a' ∷ b'r' ∷ b'k' ∷ b's' ∷ b't' ∷ b'o' ∷ b'r' ∷ b'e' ∷ b'_' ∷ b'a' ∷ b'p'
        ∷ b'p' ∷ b'e' ∷ b'n' ∷ b'd' ∷ [])
    then ok quarkstore_append
    else err failed

unfoldable pub read_mode : Bytes → Result Mode
read_mode text =
    if text_eq text (b'm' ∷ b'a' ∷ b'n' ∷ b'u' ∷ b'a' ∷ b'l' ∷ [])
    then ok manual
    else if text_eq text (b'y' ∷ b'c' ∷ b's' ∷ b'b' ∷ [])
    then ok ycsb
    else err failed

unfoldable pub read_distribution : Bytes → Result Distribution
read_distribution text =
    if text_eq text (b'u' ∷ b'n' ∷ b'i' ∷ b'f' ∷ b'o' ∷ b'r' ∷ b'm' ∷ [])
    then ok uniform
    else if text_eq text (b'z' ∷ b'i' ∷ b'p' ∷ b'f' ∷ b'i' ∷ b'a' ∷ b'n' ∷ [])
    then ok zipfian
    else err failed

unfoldable pub read_picker : Bytes → Result CompactionPicker
read_picker text =
    if text_eq text (b'a' ∷ b'l' ∷ b'l' ∷ [])
    then ok all
    else if text_eq text (b'o' ∷ b'n' ∷ b'e' ∷ [])
    then ok one
    else err failed

-- the local variables of `parse_args` and its destination
pub record Args : Type 0 where
  pub engine : Bool
  pub ycsb_workload : Bool
  pub fs_dbdir : Bool
  pub config : Config

-- the letters of the options, with every other letter
pub data Letter : Type 0 where
  engine mode workload directory prepopulate read write distribution picker levels fanout key_size
        level0_max file_size other :
      Letter

-- the `switch`
unfoldable pub parse_option : Letter → Bytes → Args → Result Args
parse_option engine text a = do
  e ← read_engine text
  ok (record a { engine = true; config = record a.config { engine = e } })
parse_option mode text a = do
  m ← read_mode text
  ok (record a { config = record a.config { mode = m } })
parse_option workload text a =
    ok (record a { ycsb_workload = true; config = record a.config { ycsb_workload_path = text } })
parse_option directory text a =
    ok (record a { fs_dbdir = true; config = record a.config { fs_dbdir = text } })
parse_option prepopulate text a = do
  n ← number 64 text
  ok (record a { config = record a.config { prepopulate_size = n } })
parse_option read text a = do
  n ← number 64 text
  ok (record a { config = record a.config { read_size = n } })
parse_option write text a = do
  n ← number 64 text
  ok (record a { config = record a.config { write_size = n } })
parse_option distribution text a = do
  t ← read_distribution text
  ok (record a { config = record a.config { distribution = t } })
parse_option picker text a = do
  p ← read_picker text
  ok (record a { config = record a.config { cp = p } })
parse_option levels text a = do
  n ← number 32 text
  ok (record a { config = record a.config { n_levels = n } })
parse_option fanout text a = do
  n ← number 32 text
  ok (record a { config = record a.config { fanout = n } })
parse_option key_size text a = do
  n ← number 32 text
  ok (record a { config = record a.config { practical_key_size = n } })
parse_option level0_max text a = do
  n ← number 32 text
  ok (record a { config = record a.config { level0_max_size = n } })
parse_option file_size text a = do
  n ← number 64 text
  ok (record a { config = record a.config { sst_file_size = n } })
parse_option other text a = err failed

unfoldable pub parse_options : List (Letter × Bytes) → Args → Result Args
parse_options [] a = ok a
parse_options (o ∷ options) a = do a' ← parse_option o.0 o.1 a; parse_options options a'

-- what the options must have given
unfoldable pub is_complete : Args → Bool
is_complete a =
    a.engine
    && ((elim a.config.mode [ manual ↦ true | ycsb ↦ false ]) || a.ycsb_workload)
    && ((elim a.config.engine [ fs ↦ false | quarkstore ↦ true | quarkstore_append ↦ true ])
        || a.fs_dbdir)

unfoldable pub parse_args : List (Letter × Bytes) → Config → Result Config
parse_args options c = do
  a ←
      parse_options options
        (record { engine = false; ycsb_workload = false; fs_dbdir = false; config = c })
  require (is_complete a) failed
  populated ← round_up a.config.prepopulate_size (a.config.sst_file_size / block_size)
  written ← round_up a.config.write_size (a.config.sst_file_size / block_size)
  ok (record a.config { prepopulate_size = populated; write_size = written })
