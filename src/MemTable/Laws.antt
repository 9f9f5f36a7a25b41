-- ===== src/MemTable/Laws.antt =====
-- What `Put` does to the table, and when it is full.
use quarkkv_compaction.Base.{
  ℕ, suc, ◌+◌, Option, none, subst, ok, ◌≤◌, ◌<◌, ◌≡◌, refl, some, arith, Returns, length,
  if◌then◌else◌,
}
use quarkkv_compaction.Std.Text.{Bytes, text_eq}
use quarkkv_compaction.Std.Map
use quarkkv_compaction.Std.Ordered.{All, All-insert, length-insert}
use quarkkv_compaction.Std.Map.{
  Map, IsMap, keep_or, insert-IsMap, find-insert, added, length-insert_lem,
}
use quarkkv_compaction.Config.{Config}
use quarkkv_compaction.Config.Sizes.{IsVerified}
use quarkkv_compaction.KvPair
use quarkkv_compaction.KvPair.{KvPair}
use quarkkv_compaction.MemTable.{MemTable, get, put}

-- Entries in key order, each under the key of its pair.
pub record IsTable (m : MemTable) : Type 0 where
  pub sorted : IsMap m.table
  pub keyed : All (λ (e : Bytes × KvPair). e.1.key ≡ e.0) m.table

-- `Put` succeeds under a verified configuration and keeps the table in order. Every key then reads
-- as before, but for the key that is put: if it was absent it has the new pair, and if it was
-- present it keeps the pair that it had.
pub get-put :
    (c : Config) (key : Bytes) (ts : ℕ) (val : Bytes) (m : MemTable)
    → IsVerified c
    → IsTable m
    → Returns (put c key ts val m) λ m'.
      IsTable m'
      × ((j : Bytes)
          → get j m' ≡ (
              if text_eq key j
              then some (keep_or (get key m) (KvPair.new key ts 4040))
              else get j m))
unfolding put get
get-put c key ts val m v t = (
  record m { table = Map.insert key (KvPair.new key ts 4040) m.table },
  rw v.value,
  (
    record {
      sorted = insert-IsMap key _ m.table t.sorted;
      keyed =
          unfold Map.insert in
          All-insert Map.entry_less _ (key, KvPair.new key ts 4040) m.table refl t.keyed;
    },
    λ j. find-insert key j _ m.table t.sorted,
  ),
)

added_few {ℓ} : {V : Type ℓ} (o : Option V) → added o ≤ 1
added_few none = omega arith
added_few (some w) = omega arith

-- Under a verified configuration `Put` returns; it adds one entry for a key that is new and none for a
-- key that is there, so a table in key order that is below its limit does not pass it.
pub length-put :
    (c : Config) (key : Bytes) (ts : ℕ) (val : Bytes) (m : MemTable)
    → IsVerified c
    → IsTable m
    → length m.table < m.limit
    → Returns
        (put c key ts val m)
        λ m'. (length m'.table ≡ length m.table + added (get key m)) × (length m'.table ≤ m'.limit)
unfolding put get
length-put c key ts val m v t h =
    let grown = length-insert_lem key (KvPair.new key ts 4040) m.table t.sorted in
    let few : added (Map.find key m.table) ≤ 1 = added_few (Map.find key m.table) in
    (
      record m { table = Map.insert key (KvPair.new key ts 4040) m.table },
      rw v.value,
      (grown, omega arith),
    )

pub put-grows :
    (c : Config) (key : Bytes) (ts : ℕ) (val : Bytes) (m m' : MemTable)
    → IsVerified c
    → put c key ts val m ≡ ok m'
    → (length m'.table ≤ suc (length m.table)) × (m'.limit ≡ m.limit)
unfolding put Map.insert
put-grows c key ts val m m' v run =
    let made : MemTable = record m { table = Map.insert key (KvPair.new key ts 4040) m.table } in
    let run' : ok made ≡ ok m' = rw v.value at run in
    let same : made ≡ m' = cc in
    let grown = length-insert Map.entry_less (key, KvPair.new key ts 4040) m.table in
    subst (λ (t : MemTable). (length t.table ≤ suc (length m.table)) × (t.limit ≡ m.limit)) same
      (omega arith, refl)
