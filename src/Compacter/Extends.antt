-- ===== src/Compacter/Extends.antt =====
-- What a stretch of a compaction adds to the tables, and that stretches compose.
use quarkkv_compaction.Base.{
  ℕ, ◌+◌, ◌≤◌, ◌≡◌, ◌≢◌, refl, sym, ap, ◌∙◌, List, [], ◌∷◌, ◌++◌, map, append_assoc, append-nil,
  arith, length, length-append, concat,
}
use quarkkv_compaction.Std.Ordered.{All, All-append, All-map₂}
use quarkkv_compaction.KvPair.{KvPair}
use quarkkv_compaction.Device.{Device, Preserves}
use quarkkv_compaction.Sst.{Sst}
use quarkkv_compaction.Compacter.{State}
use quarkkv_compaction.Compacter.Dedup.{file_all, file_all-append}
use quarkkv_compaction.Compacter.Tables.{IsReady, IsBuilding, IsDone, Preserves-IsDone}

abbrev pub Chunk : Type 0
Chunk = Sst × List KvPair

abbrev pub tables : List Chunk → List Sst
tables chunks = map (λ t. t.0) chunks

abbrev pub contents : List Chunk → List KvPair
contents chunks = concat (map (λ t. t.1) chunks)

map-append {ℓ κ} :
    {A : Type ℓ} {B : Type κ} (f : A → B) (xs ys : List A) → map f (xs ++ ys) ≡ map f xs ++ map f ys
map-append f [] ys = refl
map-append f (x ∷ xs) ys = ap (◌∷◌ (f x)) (map-append f xs ys)

concat-append {ℓ} :
    {A : Type ℓ} (xs ys : List (List A)) → concat (xs ++ ys) ≡ concat xs ++ concat ys
unfolding concat
concat-append [] ys = refl
concat-append (x ∷ xs) ys =
    ap (◌++◌ x) (concat-append xs ys) ∙ sym (append_assoc x (concat xs) (concat ys))

pub joined_pairs :
    (done₁ done₂ : List Chunk) (cur out₁ out₂ rest₁ rest₂ : List KvPair)
    → cur ++ out₁ ≡ contents done₁ ++ rest₁
    → rest₁ ++ out₂ ≡ contents done₂ ++ rest₂
    → cur ++ (out₁ ++ out₂) ≡ contents (done₁ ++ done₂) ++ rest₂
joined_pairs done₁ done₂ cur out₁ out₂ rest₁ rest₂ e₁ e₂ =
    sym (append_assoc cur out₁ out₂)
    ∙ ap (λ l. l ++ out₂) e₁
    ∙ append_assoc (contents done₁) rest₁ out₂
    ∙ ap (◌++◌ (contents done₁)) e₂
    ∙ sym (append_assoc (contents done₁) (contents done₂) rest₂)
    ∙ ap (λ l. l ++ rest₂)
        (sym (
          ap concat (map-append (λ (t : Chunk). t.1) done₁ done₂)
          ∙ concat-append (map (λ (t : Chunk). t.1) done₁) (map (λ (t : Chunk). t.1) done₂)))

pub joined_files :
    (level : ℕ) (done₁ done₂ : List Chunk) (levels₁ levels₂ levels₃ : List (List Sst))
    → levels₂ ≡ file_all level (tables done₁) levels₁
    → levels₃ ≡ file_all level (tables done₂) levels₂
    → levels₃ ≡ file_all level (tables (done₁ ++ done₂)) levels₁
joined_files level done₁ done₂ levels₁ levels₂ levels₃ e₁ e₂ =
    e₂
    ∙ ap (file_all level (tables done₂)) e₁
    ∙ sym (
        ap (λ l. file_all level l levels₁) (map-append (λ (t : Chunk). t.0) done₁ done₂)
        ∙ file_all-append level (tables done₁) (tables done₂) levels₁)

module _ (d : Device) (w₀ : d.World) (IsSource : ℕ → Type 0) (level cap : ℕ) where
  open d use {World}

  -- `out` has been added behind the pairs of the table under construction: full tables are done and
  -- the rest is in the table that is now under construction. At most `n` tables were made.
  pub record Extends (st : State d) (s : Sst) (cur out : List KvPair) (n : ℕ) (r : Sst × State d)
      : Type 0 where
    pub done : List Chunk
    pub rest : List KvPair
    pub building : IsBuilding d w₀ IsSource r.1.world r.0 rest
    pub ready : IsReady d w₀ IsSource r.1
    pub full :
        All (λ (t : Chunk). (length t.1 ≡ cap) × IsDone d w₀ IsSource level r.1.world t.0 t.1) done
    pub apart : All (λ (t : Chunk). t.0.handler ≢ r.0.handler) done
    pub pairs : cur ++ out ≡ contents done ++ rest
    pub filed : r.1.levels ≡ file_all level (tables done) st.levels
    pub made : r.1.manager.ctr ≤ st.manager.ctr + n
    pub counted : r.1.stats.new_ssts ≤ st.stats.new_ssts + length done
    pub room : length rest ≤ cap
    pub kept : Preserves d s.handler st.world r.1.world
    pub new : (j : ℕ) → d.IsOpen st.world j → s.handler ≢ j → j ≢ r.0.handler

  unfoldable pub Extends-trans :
      (st₁ st₂ : State d) (s₁ s₂ : Sst) (cur out₁ out₂ : List KvPair) (n₁ n₂ n : ℕ)
      (r : Sst × State d)
      → n₁ + n₂ ≤ n
      → (a : Extends st₁ s₁ cur out₁ n₁ (s₂, st₂)) → Extends st₂ s₂ a.rest out₂ n₂ r
      → Extends st₁ s₁ cur (out₁ ++ out₂) n r
  Extends-trans st₁ st₂ s₁ s₂ cur out₁ out₂ n₁ n₂ n r enough a b = record {
    done = a.done ++ b.done;
    rest = b.rest;
    building = b.building;
    ready = b.ready;
    full =
        All-append _ a.done b.done
          (All-map₂ _ _ _ a.done
            (λ t full apart. (
              full.0,
              Preserves-IsDone d w₀ IsSource level s₂.handler st₂.world r.1.world t.0 t.1 b.kept
                  (λ e. apart (sym e)) full.1,
            ))
            a.full a.apart)
          b.full;
    apart =
        All-append _ a.done b.done
          (All-map₂ _ _ _ a.done
            (λ t full apart. b.new t.0.handler full.1.opened (λ e. apart (sym e))) a.full a.apart)
          b.apart;
    pairs = joined_pairs a.done b.done cur out₁ out₂ a.rest b.rest a.pairs b.pairs;
    filed = joined_files level a.done b.done st₁.levels st₂.levels r.1.levels a.filed b.filed;
    made = omega (arith, a.made, b.made);
    counted = omega (arith, a.counted, b.counted, length-append a.done b.done);
    room = b.room;
    kept = λ j o ne.
        let (opened, same) = a.kept j o ne in
        let (opened', same') = b.kept j opened (λ e. a.new j o ne (sym e)) in
        (opened', same' ∙ same);
    new = λ j o ne. b.new j (a.kept j o ne).0 (λ e. a.new j o ne (sym e));
  }

  -- Nothing is added.
  unfoldable pub stay :
      (n : ℕ) (st : State d) (s : Sst) (cur : List KvPair)
      → IsBuilding d w₀ IsSource st.world s cur
      → IsReady d w₀ IsSource st
      → length cur ≤ cap
      → Extends st s cur [] n (s, st)
  unfolding file_all concat
  stay n st s cur b ready room = record {
    done = [];
    rest = cur;
    building = b;
    ready = ready;
    full = tt;
    apart = tt;
    pairs = append-nil cur;
    filed = refl;
    made = omega arith;
    counted = omega arith;
    room = room;
    kept = λ j o ne. (o, refl);
    new = λ j o ne e. ne (sym e);
  }
