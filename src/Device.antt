-- ===== src/Device.antt =====
-- The storage behind SST files: what core/SST.h leaves virtual, and what fs/SSTFS.cpp and
-- quark/SSTQuark.cpp provide. A handler names an open file or atom.
use quarkkv_compaction.Base.{
  ℕ, ◌+◌, ◌≤◌, ◌<◌, ◌^◌, ◌≡◌, ◌≢◌, ap, ◌∙◌, ◌++◌, Option, some, [], Result, ok, length, take, drop,
}
use quarkkv_compaction.Std.Text.{Bytes}

pub record Device : Type 1 where
  pub World : Type 0
  pub IsOpen : World → ℕ → Type 0
  -- the bytes that a handler's file holds
  pub content : World → ℕ → Bytes
  -- no file is named for the identifier
  pub IsFree : World → ℕ → Type 0
  -- the write at the end of a file, and the read of a size at an offset
  pub append : ℕ → Bytes → World → Result World
  pub read : ℕ → ℕ → ℕ → World → Result Bytes
  -- CreateNewEmpty, with the identifier: the handler and the identifier of the new object, or a null
  -- pointer, and what either leaves
  pub create : ℕ → World → Option (ℕ × ℕ) × World
  -- Remove, with the handler and the identifier
  pub remove : ℕ → ℕ → World → Result World
  -- AtomMoveAppend: a size at an offset of the second handler's atom goes to the end of the first's
  pub move_append : ℕ → ℕ → ℕ → ℕ → World → Result World
  -- what is in memory of a size that has just been given out, and what `rand()` gives
  pub uninitialised : World → ℕ → Bytes
  pub random : World → ℕ

-- What is promised of the files that a call is not about.
abbrev pub Preserves : (d : Device) → ℕ → d.World → d.World → Type 0
Preserves d h w w' =
    (j : ℕ) → d.IsOpen w j → h ≢ j → d.IsOpen w' j × (d.content w' j ≡ d.content w j)

pub Preserves-trans :
    (d : Device) (h : ℕ) (u v w : d.World)
    → Preserves d h u v
    → Preserves d h v w
    → Preserves d h u w
Preserves-trans d h u v w p q j o ne =
    let (o', e) = p j o ne in let (o'', e') = q j o' ne in (o'', e' ∙ e)

-- What is made for an identifier has it.
abbrev pub KeepsIds : Device → Type 0
KeepsIds d = (id h id' : ℕ) (w w' : d.World) → d.create id w ≡ (some (h, id'), w') → id' ≡ id

-- The documented behaviour of the storage, whatever fails.
pub record IsDevice (d : Device) : Type 0 where
  pub length-uninitialised : (w : d.World) (n : ℕ) → length (d.uninitialised w n) ≡ n
  pub read-content :
      (h n o : ℕ) (w : d.World) (b : Bytes)
      → d.read h n o w ≡ ok b
      → b ≡ take n (drop o (d.content w h))
  pub content-append :
      (h : ℕ) (b : Bytes) (w w' : d.World)
      → d.append h b w ≡ ok w'
      → (d.content w' h ≡ d.content w h ++ b) × (d.IsOpen w h → d.IsOpen w' h)
  pub preserves-append :
      (h : ℕ) (b : Bytes) (w w' : d.World) → d.append h b w ≡ ok w' → Preserves d h w w'
  pub create-new :
      (id h id' : ℕ) (w w' : d.World)
      → d.create id w ≡ (some (h, id'), w')
      → (id' ≡ id) × (¬ d.IsOpen w h) × d.IsOpen w' h × (d.content w' h ≡ []) × Preserves d h w w'
  pub preserves-remove : (h id : ℕ) (w w' : d.World) → d.remove h id w ≡ ok w' → Preserves d h w w'

-- What is promised of the names when a call has no identifier.
abbrev pub SameNames : (d : Device) → d.World → d.World → Type 0
SameNames d w w' = (j : ℕ) → (d.IsFree w j → d.IsFree w' j) × (d.IsFree w' j → d.IsFree w j)

pub SameNames-trans :
    (d : Device) (u v w : d.World) → SameNames d u v → SameNames d v w → SameNames d u w
SameNames-trans d u v w p q j = (λ free. (q j).0 ((p j).0 free), λ free. (p j).1 ((q j).1 free))

-- The documented behaviour of the names, whatever fails; identifiers from 2 ^ 31 on are not used.
pub record IsNaming (d : Device) : Type 0 where
  pub names-append :
      (h : ℕ) (b : Bytes) (w w' : d.World) → d.append h b w ≡ ok w' → SameNames d w w'
  pub free-create :
      (id j : ℕ) (made : ℕ × ℕ) (w w' : d.World)
      → d.create id w ≡ (some made, w')
      → id < 2 ^ 31
      → j < 2 ^ 31
      → j ≢ id
      → d.IsFree w j
      → d.IsFree w' j
  pub taken-create :
      (id j : ℕ) (made : ℕ × ℕ) (w w' : d.World)
      → d.create id w ≡ (some made, w')
      → d.IsFree w' j
      → d.IsFree w j
  pub taken-remove :
      (h id j : ℕ) (w w' : d.World)
      → d.remove h id w ≡ ok w'
      → id < 2 ^ 31
      → j < 2 ^ 31
      → j ≢ id
      → d.IsFree w' j
      → d.IsFree w j

-- Storage without errors: an open file can be appended to, read where it has bytes, and removed by the
-- name that it has, and a file can be made under a name that is free.
pub record IsReliable (d : Device) : Type 0 where
  pub lawful : IsDevice d
  pub open lawful use *
  pub naming : IsNaming d
  pub open naming use *
  pub append_ok :
      (h : ℕ) (b : Bytes) (w : d.World) → d.IsOpen w h → (w' : d.World) × (d.append h b w ≡ ok w')
  pub read_ok :
      (h n o : ℕ) (w : d.World)
      → d.IsOpen w h
      → o + n ≤ length (d.content w h)
      → (b : Bytes) × (d.read h n o w ≡ ok b)
  pub create_ok :
      (id : ℕ) (w : d.World)
      → d.IsFree w id
      → (h : ℕ) × ((w' : d.World) × (d.create id w ≡ (some (h, id), w')))
  pub remove_ok :
      (h id : ℕ) (w : d.World)
      → d.IsOpen w h
      → ¬ d.IsFree w id
      → (w' : d.World) × (d.remove h id w ≡ ok w')

-- On such storage a read of an open file gives the bytes that are there.
pub read-eq :
    (d : Device) (h n o : ℕ) (w : d.World) (b : Bytes)
    → IsReliable d
    → d.IsOpen w h
    → o + n ≤ length (d.content w h)
    → take n (drop o (d.content w h)) ≡ b
    → d.read h n o w ≡ ok b
read-eq d h n o w b rel opened fits e =
    let (x, run) = rel.read_ok h n o w opened fits in
    run ∙ ap ok (rel.read-content h n o w x run ∙ e)
