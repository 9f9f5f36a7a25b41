-- ===== src/Quark.antt =====
-- quark/io_quark.cpp, the calls of quarklibio, which are parameters, and quark/SSTQuark.cpp, the tables
-- in atoms. The buffers that the callers write from stand at multiples of 4096, as `AtomWrite` asserts.
pub mod Manifests
pub mod Atoms
pub mod Growth
use quarkkv_compaction.Base.{
  ℕ, ◌+◌, ◌%◌, ◌^◌, Bool, true, false, Option, none, some, [], ◌++◌, Result, ok, err, require,
  failed, aborted, ◌>>=◌, ◌>>◌, ◌==◌, if◌then◌else◌, length, take, drop,
}
use quarkkv_compaction.Std.Text.{Bytes}
use quarkkv_compaction.Config.{Config, block_size, kv_size}
use quarkkv_compaction.KvPair.{KvPair}
use quarkkv_compaction.Sst
use quarkkv_compaction.Sst.{Sst}
use quarkkv_compaction.Sst.Write.{count_kv}

-- A negative result is `none`. `atom_get` is given the address of an identifier and may change it.
pub record Quarklib : Type 1 where
  pub World : Type 0
  -- the atom that a handle stands for, and what an atom holds
  pub atom_of : World → ℕ → Option ℕ
  pub bytes : World → ℕ → Bytes
  pub client_init : World → Bool × World
  pub task_ctx_reg : World → Bool × World
  pub atom_get : ℕ → World → Option ℕ × ℕ × World
  pub atom_release : ℕ → World → Bool × World
  pub atom_read : ℕ → ℕ → ℕ → World → Option Bytes × World
  pub atom_write : ℕ → Bytes → ℕ → World → Option ℕ × World
  pub atom_move_append : ℕ → ℕ → ℕ → ℕ → World → Bool × World
  -- whether the last result that was negative is -1
  pub is_minus_one : World → Bool

-- SSTQuark: a table and `atomSize_`, where the next block goes
pub record SstQuark : Type 0 where
  pub sst : Sst
  pub atom_size : ℕ

module _ (q : Quarklib) where
  open q use {World}

  -- Init
  unfoldable pub init : World → Result World
  init w =
      let (started, w₁) = q.client_init w in
      let (registered, w₂) = q.task_ctx_reg w₁ in
      elim started [
        | false ↦ err failed
        | true ↦ elim registered [ false ↦ err failed | true ↦ ok w₂ ]
      ]

  -- AtomGet, with the identifier that it leaves
  unfoldable pub atom_get : ℕ → World → Result (ℕ × ℕ × World)
  atom_get aid w =
      let (ah, aid', w') = q.atom_get aid w in
      elim ah [ none ↦ err failed | some h ↦ ok (h, aid', w') ]

  -- AtomRelease; the test of the handle in place of the result only leaves a message out.
  unfoldable pub atom_release : ℕ → World → Result World
  atom_release ah w =
      let (done, w') = q.atom_release ah w in elim done [ true ↦ ok w' | false ↦ err failed ]

  unfoldable pub atom_read : ℕ → ℕ → ℕ → World → Result (Bytes × World)
  atom_read ah len off w = do
    require (off % block_size == 0) aborted
    let (buf, w') = q.atom_read ah len off w
    elim buf [ none ↦ err failed | some b ↦ ok (b, w') ]

  unfoldable pub atom_write : ℕ → Bytes → ℕ → World → Result World
  atom_write ah buf off w = do
    require (off % block_size == 0) aborted
    let (count, w') = q.atom_write ah buf off w
    elim count [ none ↦ err failed | some _ ↦ ok w' ]

  -- AtomRemove returns before the call of the library.
  unfoldable pub atom_remove : ℕ → World → Result World
  atom_remove aid w = ok w

  unfoldable pub atom_move_append : ℕ → ℕ → ℕ → ℕ → World → Result World
  atom_move_append dst src len off w =
      let (done, w') = q.atom_move_append dst src len off w in
      elim done [ true ↦ ok w' | false ↦ err failed ]

  -- CreateNewEmpty: the table, or a null pointer; the address is that of the caller's identifier.
  unfoldable pub create_new_empty : ℕ → ℕ → World → Option SstQuark × World
  create_new_empty unset aid w =
      let (handle, aid', w') = q.atom_get aid w in
      (
        elim handle [
          | none ↦ none
          | some ah ↦ some (record { sst = Sst.new unset ah aid'; atom_size = 0 })
        ],
        w',
      )

  -- OpenWithID, with what `Parse` makes of the table; -1 leads to a null pointer
  unfoldable pub open_with_id :
      (Sst → World → Result Sst) → ℕ → ℕ → World → Result (Option (SstQuark × World))
  unfolding atom_get
  open_with_id parse unset aid w = elim (atom_get aid w) [
    | err fault ↦ ok none
    | ok (ah, aid', w') ↦ elim (parse (Sst.new unset ah aid') w') [
      | ok s ↦ ok (some (record { sst = s; atom_size = 0 }, w'))
      | err failed ↦ ok none
      | err fault ↦ err fault
    ]
  ]

  -- Remove
  unfoldable pub remove : SstQuark → World → Result World
  unfolding atom_release atom_remove
  remove t w = do w₁ ← atom_release t.sst.handler w; atom_remove t.sst.id w₁

  unfoldable pub append : Bytes → SstQuark → World → Result (SstQuark × World)
  unfolding atom_write
  append buf t w = do
    w' ← atom_write t.sst.handler buf t.atom_size w
    ok (record t { atom_size = t.atom_size + length buf }, w')

  unfoldable pub read : ℕ → ℕ → SstQuark → World → Result Bytes
  unfolding atom_read
  read size offset t w = do (b, w') ← atom_read t.sst.handler size offset w; ok b

  -- MoveAndAddKV
  unfoldable pub move_and_add_kv : Config → KvPair → SstQuark → World → Result (SstQuark × World)
  unfolding atom_move_append
  move_and_add_kv c kv t w = elim kv.handler [
    | none ↦ err failed
    | some source ↦ elim kv.offset [
      | none ↦ err failed
      | some offset ↦ do
        size ← kv_size c
        w' ← atom_move_append t.sst.handler source size offset w
        ok (record { sst = count_kv kv size t.sst; atom_size = t.atom_size + size }, w')
    ]
  ]
