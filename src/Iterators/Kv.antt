-- ===== src/Iterators/Kv.antt =====
-- A `KVIterator` goes through the pairs of its table in order, as long as the table is readable.
use quarkkv_compaction.Base.{
  ℕ, suc, ◌+◌, ◌-◌, ◌^◌, ◌≡◌, refl, sym, ap, subst, ◌∙◌, true, false, Option, none, some, List, [],
  ◌∷◌, ◌++◌, append_assoc, arith, length, length-append, get_elem?, get_elem?-append_right, Result,
  ok, u32, ◌>>=◌,
}
use quarkkv_compaction.Std.Text.{Bytes, text_lt, text_eq, text_ne_of_lt, text_eq_refl, gt_of_lt}
use quarkkv_compaction.Std.Ordered.{All}
use quarkkv_compaction.Config.{Config}
use quarkkv_compaction.Config.Sizes.{IsVerified}
use quarkkv_compaction.KvPair.{KvPair, gt}
use quarkkv_compaction.Device.{Device, IsReliable}
use quarkkv_compaction.Sst.{Sst}
use quarkkv_compaction.Sst.Layout.{IsAscending, key_less, last, located, IsReadable}
use quarkkv_compaction.Sst.Lookup.{get_kv_at_index-located}
use quarkkv_compaction.Iterators.{KvIterator, new_kv, next_kv, seek_kv_to_first}

-- An iterator that gives the pairs of a list, one for each `Next`, and is then at its end. The
-- storage may change in between, within `P`.
module _ {W S : Type 0} (next : S → W → Result S) (get : S → Option KvPair) (P : W → Type 0) where
  abbrev pub Yields : S → List KvPair → Type 0
  Yields s [] = get s ≡ none
  Yields s (x ∷ xs) =
      (get s ≡ some x) × ((s' : S) × ((w : W) → P w → next s w ≡ ok s') × Yields s' xs)

-- an iterator that gives these pairs once it has sought its first pair
abbrev pub Starts : (d : Device) → Config → (d.World → Type 0) → KvIterator → List KvPair → Type 0
Starts d c P it kvs =
    (it' : KvIterator) × ((w : d.World) → P w → seek_kv_to_first d c it w ≡ ok it')
    × Yields (next_kv d c) (λ i. i.ptr) P it' kvs

-- the pairs as they are read from a file, the first of them with number `i`
unfoldable pub locateds : ℕ → ℕ → List KvPair → List KvPair
locateds h i [] = []
locateds h i (x ∷ xs) = located h i x ∷ locateds h (suc i) xs

last-append : (pre xs : List KvPair) (x : KvPair) → last (pre ++ x ∷ xs) ≡ last (x ∷ xs)
last-append [] xs x = refl
last-append (y ∷ []) xs x = refl
last-append (y ∷ z ∷ pre) xs x = last-append (z ∷ pre) xs x

IsAscending-suffix : (pre xs : List KvPair) → IsAscending (pre ++ xs) → IsAscending xs
IsAscending-suffix [] xs a = a
IsAscending-suffix (y ∷ pre) xs a = IsAscending-suffix pre xs a.1

All-last :
    (k : Bytes) (x : KvPair) (xs : List KvPair)
    → All (λ y. text_lt k y.key ≡ true) (x ∷ xs)
    → text_lt k (last (x ∷ xs)) ≡ true
All-last k x [] a = a.0
All-last k x (y ∷ ys) a = All-last k y ys a.1

gt_of_key_less :
    (x y : KvPair) (h i j : ℕ) → key_less x y ≡ true → gt (located h j y) (located h i x) ≡ true
unfolding gt
gt_of_key_less x y h i j l = ground (arith, gt_of_lt x.key y.key)

last_pair :
    (x : KvPair) (xs : List KvPair)
    → (z : KvPair) × (get_elem? (x ∷ xs) (length xs) ≡ some z) × (z.key ≡ last (x ∷ xs))
last_pair x [] = (x, refl, refl)
last_pair x (y ∷ ys) = last_pair y ys

module _ (d : Device) (c : Config) (v : IsVerified c) (rel : IsReliable d) where
  open d use {World}

  module _ (P : World → Type 0) (s : Sst) (kvs : List KvPair)
      (readable : (w : World) → P w → IsReadable d w s kvs) where
    abbrev pub KvYields : KvIterator → List KvPair → Type 0
    KvYields = Yields (next_kv d c) (λ it. it.ptr) P

    abbrev at : KvPair → ℕ → KvPair → ℕ → KvIterator
    at end i x t = record {
      sst = s;
      end = some end;
      ptr = some (located s.handler i x);
      index = i;
      iterations = t;
    }

    yields_from :
        (xs pre : List KvPair) (x end : KvPair) (i t : ℕ)
        → kvs ≡ pre ++ x ∷ xs
        → i ≡ length pre
        → end.key ≡ last kvs
        → KvYields (at end i x t) (locateds s.handler i (x ∷ xs))
    unfolding locateds next_kv
    yields_from [] pre x end i t e at_i ends = (
      refl,
      (
        record (at end i x t) { ptr = none },
        λ w p.
            let same : end.key ≡ x.key = ends ∙ ap last e ∙ last-append pre [] x in
            let found : text_eq x.key end.key ≡ true =
              subst (λ k. text_eq x.key k ≡ true) (sym same) (text_eq_refl x.key) in
            rw found refl,
        refl,
      ),
    )
    yields_from (y ∷ ys) pre x end i t e at_i ends = (
      refl,
      (
        at end (suc i) y (u32 (t + 1)),
        λ w p.
            let r = readable w p in
            let a = IsAscending-suffix pre (x ∷ y ∷ ys) (subst IsAscending e r.ascending) in
            let final : end.key ≡ last (y ∷ ys) = ends ∙ ap last e ∙ last-append pre (y ∷ ys) x in
            let differs = (text_ne_of_lt x.key (last (y ∷ ys)) (All-last x.key y ys a.0)).0 in
            let size = length-append pre (x ∷ y ∷ ys) in
            let place : u32 (i + 1) ≡ suc i = omega (arith, r.room, ap length e, size) in
            let there : get_elem? kvs (suc i) ≡ some y =
              rw (e, ← append_assoc pre (x ∷ []) (y ∷ ys))
                (get_elem?-append_right (pre ++ x ∷ []) ys y (suc i)
                  (omega (arith, length-append pre (x ∷ [])))) in
            let other : text_eq x.key end.key ≡ false =
              subst (λ k. text_eq x.key k ≡ false) (sym final) differs in
            rw
              (
                other,
                place,
                get_kv_at_index-located d c v rel s w kvs r (suc i) y there,
                gt_of_key_less x y s.handler i (suc i) a.0.0,
              )
              refl,
        yields_from ys (pre ++ x ∷ []) y end (suc i) (u32 (t + 1))
            (e ∙ sym (append_assoc pre (x ∷ []) (y ∷ ys)))
            (omega (arith, length-append pre (x ∷ []))) ends,
      ),
    )

  -- A new iterator over a table that is readable within `P`, and the same iterator at the first pair.
  pub new_kv-Starts :
      (P : World → Type 0) (s : Sst) (x : KvPair) (xs : List KvPair)
      → ((w : World) → P w → IsReadable d w s (x ∷ xs))
      → (it : KvIterator) × ((w : World) → P w → new_kv d c s w ≡ ok it)
        × Starts d c P it (locateds s.handler 0 (x ∷ xs))
  unfolding new_kv seek_kv_to_first
  new_kv-Starts P s x xs readable =
      let (z, there, ends) = last_pair x xs in
      let end = located s.handler (length xs) z in
      (
        record { sst = s; end = some end; ptr = none; index = 0; iterations = 0 },
        λ w p.
            let r = readable w p in
            let place : u32 (s.entries + 2 ^ 32 - 1) ≡ length xs =
              omega (arith, r.entries, r.room) in
            rw (place, get_kv_at_index-located d c v rel s w (x ∷ xs) r (length xs) z there) refl,
        (
          record {
            sst = s;
            end = some end;
            ptr = some (located s.handler 0 x);
            index = 0;
            iterations = 1;
          },
          λ w p. rw (get_kv_at_index-located d c v rel s w (x ∷ xs) (readable w p) 0 x refl) refl,
          yields_from P s (x ∷ xs) readable xs [] x end 0 1 refl refl ends,
        ),
      )

  -- Under a verified configuration and on storage that has no errors, an iterator over a table that has
  -- a pair and that is readable whatever happens within `P`, once it has sought its first pair, gives
  -- the pairs of the table in key order, each with its place in the file, and then ends; the storage
  -- may change within `P` from one call to the next.
  pub new_kv-Yields :
      (P : World → Type 0) (s : Sst) (x : KvPair) (xs : List KvPair)
      → ((w : World) → P w → IsReadable d w s (x ∷ xs))
      → (it : KvIterator) × ((w : World)
          → P w
          → (new_kv d c s w >>= λ i. seek_kv_to_first d c i w) ≡ ok it)
        × Yields (next_kv d c) (λ i. i.ptr) P it (locateds s.handler 0 (x ∷ xs))
  new_kv-Yields P s x xs readable =
      let (it, made, (it', sought, yields)) = new_kv-Starts P s x xs readable in
      (it', λ w p. rw (made w p) (sought w p), yields)
