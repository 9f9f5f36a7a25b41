-- ===== src/Sst/Building.antt =====
-- `AddKV` on a table under construction.
use quarkkv_compaction.Base.{
  ℕ, suc, ◌+◌, ◌*◌, ◌^◌, ◌<◌, ◌≡◌, refl, sym, ap, ◌∙◌, Bool, true, List, [], ◌∷◌, ◌++◌, arith,
  length, length-append, take-append_left, ◌==◌, if◌then◌else◌, ok, Returns, u32,
}
use quarkkv_compaction.Std.Text.{Bytes, text_lt, gt_of_lt}
use quarkkv_compaction.Std.Ordered.{All, IsSorted, insert_past, insert_nil}
use quarkkv_compaction.Std.Map
use quarkkv_compaction.Std.Map.{Map, entry_less}
use quarkkv_compaction.Config.{Config}
use quarkkv_compaction.Config.Sizes.{IsVerified}
use quarkkv_compaction.KvPair.{KvPair, to_binary}
use quarkkv_compaction.Device.{Device, Preserves, SameNames, IsReliable}
use quarkkv_compaction.Sst.{Sst}
use quarkkv_compaction.Sst.Write.{append_kv, count_kv, add_kv}
use quarkkv_compaction.Sst.Layout.{
  image, offsets, IsPair, key_less, first, Holds, length-image, images-append, offsets-append,
}

-- An entry above the others is inserted at the end.
pub insert-last :
    (k : Bytes) (v : ℕ) (m : Map ℕ)
    → All (λ e. text_lt e.0 k ≡ true) m
    → Map.insert k v m ≡ m ++ (k, v) ∷ []
unfolding Map.insert
insert-last k v [] h = insert_nil entry_less (k, v)
insert-last k v (e ∷ m) h =
    insert_past entry_less (k, v) e m (ground (arith, gt_of_lt e.0 k)) h.0
    ∙ ap (◌∷◌ e) (insert-last k v m h.1)

offsets-below :
    (i : ℕ) (kvs : List KvPair) (k : Bytes)
    → All (λ x. text_lt x.key k ≡ true) kvs
    → All (λ e. text_lt e.0 k ≡ true) (offsets i kvs)
unfolding offsets
offsets-below i [] k h = tt
offsets-below i (x ∷ xs) k h = (h.0, offsets-below (suc i) xs k h.1)

pub All-snoc {ℓ κ} :
    {A : Type ℓ} (P : A → Type κ) (xs : List A) (x : A) → All P xs → P x → All P (xs ++ x ∷ [])
All-snoc P [] x h p = (p, tt)
All-snoc P (y ∷ ys) x h p = (h.0, All-snoc P ys x h.1 p)

pub IsSorted-snoc {ℓ} :
    {A : Type ℓ} (less : A → A → Bool) (xs : List A) (x : A)
    → IsSorted less xs
    → All (λ y. less y x ≡ true) xs
    → IsSorted less (xs ++ x ∷ [])
IsSorted-snoc less [] x s h = (tt, tt)
IsSorted-snoc less (y ∷ ys) x s h =
    (All-snoc (λ z. less y z ≡ true) ys x s.0 h.0, IsSorted-snoc less ys x s.1 h.1)

-- What the table has first after one more pair.
first-snoc :
    (xs : List KvPair) (kv : KvPair) (e : ℕ) (k : Bytes)
    → e ≡ length xs
    → k ≡ first xs
    → (if e == 0 then kv.key else k) ≡ first (xs ++ kv ∷ [])
first-snoc [] kv e k h p = ground arith
first-snoc (x ∷ xs) kv e k h p = ground arith

-- The image that `ToBinary` writes, and that `memcpy` takes whole.
pub to_binary-image : (kv : KvPair) → IsPair kv → to_binary kv ≡ ok (image kv)
unfolding to_binary image
to_binary-image kv p = simp p.value

module _ (d : Device) (c : Config) (v : IsVerified c) where
  open d use {World}

  pub append_kv-image :
      (kv : KvPair) (s : Sst) (w : World)
      → IsPair kv
      → append_kv d c kv s w ≡ d.append s.handler (image kv) w
  unfolding append_kv
  append_kv-image kv s w p =
      rw (v.kv, to_binary-image kv p, length-image kv p)
        (ap (λ (b : Bytes). d.append s.handler b w)
          (take-append_left (image kv) (0 ∷ []) 4096 (sym (length-image kv p))))

  -- Adding a well-formed pair whose key is above the keys of the table, while the offsets stay below
  -- 2 ^ 32: under a verified configuration and on storage without errors it succeeds where the file of
  -- the table is open; the table then holds that pair behind the others, its file is still open, and
  -- neither another open file nor a name changes.
  pub add_kv-Holds :
      (kv : KvPair) (kvs : List KvPair) (s : Sst) (w : World)
      → IsReliable d
      → IsPair kv
      → All (λ x. text_lt x.key kv.key ≡ true) kvs
      → suc (length kvs) * 4096 < 2 ^ 32
      → Holds d w s kvs
      → d.IsOpen w s.handler
      → Returns (add_kv d c kv s w) λ r.
        Holds d r.1 r.0 (kvs ++ kv ∷ [])
        × (r.0.handler ≡ s.handler)
        × d.IsOpen r.1 s.handler
        × Preserves d s.handler w r.1
        × SameNames d w r.1
  unfolding add_kv count_kv
  add_kv-Holds kv kvs s w rel p above room h here =
      let (w', run) = rel.append_ok s.handler (image kv) w here in
      let (wrote, opened) = rel.content-append s.handler (image kv) w w' run in
      let place : u32 (s.entries * 4096) ≡ (0 + length kvs) * 4096 = omega arith in
      (
        (count_kv kv 4096 s, w'),
        rw (append_kv-image kv s w p, run, v.kv),
        (
          record {
            bytes = wrote ∙ ap (λ b. b ++ image kv) h.bytes ∙ sym (images-append kvs kv);
            index =
                rw (h.index, place, offsets-append 0 kvs kv)
                  (insert-last kv.key _ (offsets 0 kvs) (offsets-below 0 kvs kv.key above));
            entries = omega (arith, length-append kvs (kv ∷ []));
            pairs = All-snoc IsPair kvs kv h.pairs p;
            ascending = IsSorted-snoc key_less kvs kv h.ascending above;
            smallest = first-snoc kvs kv s.entries s.smallest_key h.entries h.smallest;
            room = omega (arith, length-append kvs (kv ∷ []));
          },
          refl,
          opened here,
          rel.preserves-append s.handler (image kv) w w' run,
          rel.names-append s.handler (image kv) w w' run,
        ),
      )
