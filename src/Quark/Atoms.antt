-- ===== src/Quark/Atoms.antt =====
-- What is documented of the calls of quarklibio that succeed.
use quarkkv_compaction.Base.{ℕ, ◌+◌, ◌≤◌, ◌≡◌, ◌≢◌, true, some, ◌++◌, length, take, drop}
use quarkkv_compaction.Std.Text.{Bytes}
use quarkkv_compaction.Quark.{Quarklib}

pub record IsQuarklib (q : Quarklib) : Type 0 where
  -- a write goes over what stands at the offset
  pub bytes-write :
      (ah aid off n : ℕ) (buf : Bytes) (w : q.World)
      → q.atom_of w ah ≡ some aid
      → (q.atom_write ah buf off w).0 ≡ some n
      → off ≤ length (q.bytes w aid)
      → q.bytes (q.atom_write ah buf off w).1 aid
        ≡ take off (q.bytes w aid) ++ (buf ++ drop (off + length buf) (q.bytes w aid))
  pub others-write :
      (ah aid off : ℕ) (buf : Bytes) (w : q.World) (k : ℕ)
      → q.atom_of w ah ≡ some aid
      → k ≢ aid
      → q.bytes (q.atom_write ah buf off w).1 k ≡ q.bytes w k
  pub atom_of-write :
      (ah off : ℕ) (buf : Bytes) (w : q.World) (j : ℕ)
      → q.atom_of (q.atom_write ah buf off w).1 j ≡ q.atom_of w j
  -- what is moved goes to the end of the atom
  pub bytes-move :
      (dst src a b len off : ℕ) (w : q.World)
      → q.atom_of w dst ≡ some a
      → q.atom_of w src ≡ some b
      → (q.atom_move_append dst src len off w).0 ≡ true
      → q.bytes (q.atom_move_append dst src len off w).1 a
        ≡ q.bytes w a ++ take len (drop off (q.bytes w b))
  pub atom_of-move :
      (dst src len off : ℕ) (w : q.World) (j : ℕ)
      → q.atom_of (q.atom_move_append dst src len off w).1 j ≡ q.atom_of w j
  pub read_atom :
      (ah aid n off : ℕ) (b : Bytes) (w : q.World)
      → q.atom_of w ah ≡ some aid
      → (q.atom_read ah n off w).0 ≡ some b
      → b ≡ take n (drop off (q.bytes w aid))
  -- the handle is a new one, or one of the atom
  pub get_atom :
      (aid ah : ℕ) (w : q.World)
      → (q.atom_get aid w).0 ≡ some ah
      → ((q.atom_get aid w).1 ≡ aid)
        × (q.atom_of (q.atom_get aid w).2 ah ≡ some aid)
        × ((k : ℕ) → q.bytes (q.atom_get aid w).2 k ≡ q.bytes w k)
        × ((k : ℕ) → q.atom_of w ah ≡ some k → k ≡ aid)
        × ((j : ℕ) → j ≢ ah → q.atom_of (q.atom_get aid w).2 j ≡ q.atom_of w j)
