-- ===== src/Compacter/Steps.antt =====
-- The steps of `doCompaction` for a pair that is added.
use quarkkv_compaction.Base.{
  ℕ, suc, ◌*◌, ◌/◌, ◌^◌, ◌<◌, ◌≤◌, ◌≡◌, ◌≢◌, refl, sym, ap, subst, ◌∙◌, ◌⊎◌, inl, inr, true, some,
  List, [], ◌∷◌, ◌++◌, append-nil, arith, length, length-append, concat, Returns, ◌>>=◌, ◌==◌,
  Bool-cases,
}
use quarkkv_compaction.Std.Text.{text_lt}
use quarkkv_compaction.Std.Ordered.{All}
use quarkkv_compaction.Config.{Config, quarkstore_append}
use quarkkv_compaction.Config.Sizes.{IsVerified}
use quarkkv_compaction.KvPair.{KvPair}
use quarkkv_compaction.Device.{Device, IsReliable}
use quarkkv_compaction.Sst.{Sst, is_full}
use quarkkv_compaction.Sst.Layout.{IsPair}
use quarkkv_compaction.Compacter.{State, room_for_pair, merge, finish_sst_file, new_sst}
use quarkkv_compaction.Compacter.Dedup.{IsBelow, IsBelow-snoc, file_all}
use quarkkv_compaction.Compacter.Tables.{
  IsReady, IsBuilding, Preserves-IsDone, new_sst-IsBuilding, finish_sst_file-IsDone,
  merge-IsBuilding,
}
use quarkkv_compaction.Compacter.Extends.{Extends, Extends-trans, stay}

module _ (d : Device) (w₀ : d.World) (IsSource : ℕ → Type 0) (level cap : ℕ) where
  open d use {World}

  module _ (c : Config) (v : IsVerified c) (rel : IsReliable d)
      (copies : c.engine ≢ quarkstore_append) (capacity : c.sst_file_size ≡ cap * 4096)
      (some_room : 0 < cap) (offsets : cap * 4096 < 2 ^ 32) where
    -- One pair is added to the table under construction.
    merge-Extends :
        (kv : KvPair) (s : Sst) (st : State d) (cur : List KvPair)
        → IsBuilding d w₀ IsSource st.world s cur
        → IsReady d w₀ IsSource st
        → IsPair kv
        → All (λ x. text_lt x.key kv.key ≡ true) cur
        → length cur < cap
        → Returns (merge d c kv s st) λ r.
          (e : Extends d w₀ IsSource level cap st s cur (kv ∷ []) 0 r) × (e.rest ≡ cur ++ kv ∷ [])
    unfolding file_all concat
    merge-Extends kv s st cur b ready p above room =
        let (r, run, (b', handler, ready', levels, ctr, keeps, count)) =
          merge-IsBuilding d w₀ IsSource c v rel kv s st cur copies b ready p above (omega arith) in
        (
          r,
          run,
          (
            record {
              done = [];
              rest = cur ++ kv ∷ [];
              building = b';
              ready = ready';
              full = tt;
              apart = tt;
              pairs = refl;
              filed = levels;
              made = omega arith;
              counted = omega arith;
              room = omega (arith, length-append cur (kv ∷ []));
              kept = keeps;
              new = λ j o ne e. ne (sym (e ∙ handler));
            },
            refl,
          ),
        )

    -- The table under construction is done, and the next one is begun.
    next_table-Extends :
        (tries : ℕ) (s : Sst) (st : State d) (cur : List KvPair)
        → IsBuilding d w₀ IsSource st.world s cur
        → IsReady d w₀ IsSource st
        → length cur ≡ cap
        → level < length st.levels
        → st.manager.ctr < 2 ^ 31
        → Returns
            (finish_sst_file d c s level st >>= λ st'. new_sst d c (suc tries) st')
            λ r. (e : Extends d w₀ IsSource level cap st s cur [] 1 r) × (e.rest ≡ [])
    unfolding file_all concat
    next_table-Extends tries s st [] b ready full there low = absurd (omega arith)
    next_table-Extends tries s st (x ∷ xs) b ready full there low =
        let (st', done, (t, t-IsDone, handler, ready', levels, ctr, keeps, count)) =
          finish_sst_file-IsDone d w₀ IsSource c v rel s level st x xs b ready there in
        let (r, made, (b', ready'', levels', ctr', new, keeps', count')) =
          new_sst-IsBuilding d w₀ IsSource c v rel tries st' ready' (omega arith) in
        let other : r.0.handler ≢ t.handler =
          λ e. new (subst (d.IsOpen st'.world) (sym e) t-IsDone.opened) in
        (
          r,
          rw (done, made) refl,
          (
            record {
              done = (t, x ∷ xs) ∷ [];
              rest = [];
              building = b';
              ready = ready'';
              full = (
                (
                  full,
                  Preserves-IsDone d w₀ IsSource level r.0.handler st'.world r.1.world t (x ∷ xs)
                      keeps' other t-IsDone,
                ),
                tt,
              );
              apart = ((λ e. other (sym e)), tt);
              pairs = sym (append-nil ((x ∷ xs) ++ []));
              filed = levels' ∙ levels;
              made = omega arith;
              counted = omega arith;
              room = omega arith;
              kept = λ j o ne.
                  let (opened, same) = keeps j o ne in
                  let (opened', same') =
                    keeps' j opened (λ e. new (subst (d.IsOpen st'.world) (sym e) opened)) in
                  (opened', same' ∙ same);
              new = λ j o ne e. new (subst (d.IsOpen st'.world) e (keeps j o ne).0);
            },
            refl,
          ),
        )

    -- There is room for one more pair, in the table under construction or in a new one.
    room_for_pair-Extends :
        (tries : ℕ) (s : Sst) (st : State d) (cur : List KvPair)
        → IsBuilding d w₀ IsSource st.world s cur
        → IsReady d w₀ IsSource st
        → length cur ≤ cap
        → level < length st.levels
        → st.manager.ctr < 2 ^ 31
        → Returns (room_for_pair d c (suc tries) level s st) λ r.
          (e : Extends d w₀ IsSource level cap st s cur [] 1 r) × (length e.rest < cap)
          × ((e.rest ≡ cur) ⊎ (e.rest ≡ []))
    unfolding room_for_pair is_full stay
    room_for_pair-Extends tries s st cur b ready room there low =
        let size : c.sst_file_size / 4096 ≡ cap = omega arith in
        elim (Bool-cases (s.entries == cap)) [
          | inl full ↦
              let (r, run, (e, empty)) =
                next_table-Extends tries s st cur b ready (ground arith) there low in
              (r, rw (v.kv, size, full) run, (e, omega (arith, ap length empty), inr empty))
          | inr below ↦ (
            (s, st),
            rw (v.kv, size, below) refl,
            (stay d w₀ IsSource level cap 1 st s cur b ready room, ground arith, inl refl),
          )
        ]

    -- A pair whose key is new is added, in the table under construction or in a new one.
    pub add-Extends :
        (tries : ℕ) (kv : KvPair) (s : Sst) (st : State d) (cur : List KvPair)
        → IsBuilding d w₀ IsSource st.world s cur
        → IsReady d w₀ IsSource st
        → IsPair kv
        → All (λ x. text_lt x.key kv.key ≡ true) cur
        → length cur ≤ cap
        → level < length st.levels
        → st.manager.ctr < 2 ^ 31
        → Returns (room_for_pair d c (suc tries) level s st >>= λ r. merge d c kv r.0 r.1) λ r.
          (e : Extends d w₀ IsSource level cap st s cur (kv ∷ []) 1 r) × (length e.rest ≤ cap)
          × IsBelow (some kv) e.rest
    unfolding Extends-trans
    add-Extends tries kv s st cur b ready p above room there low =
        let (r₁, run₁, (e₁, fits, kind)) =
          room_for_pair-Extends tries s st cur b ready room there low in
        let above₁ : All (λ x. text_lt x.key kv.key ≡ true) e₁.rest = elim kind [
          | inl same ↦ subst (All (λ x. text_lt x.key kv.key ≡ true)) (sym same) above
          | inr none_left ↦ subst (All (λ x. text_lt x.key kv.key ≡ true)) (sym none_left) tt
        ] in
        let (r₂, run₂, (e₂, grown)) =
          merge-Extends kv r₁.0 r₁.1 e₁.rest e₁.building e₁.ready p above₁ fits in
        (
          r₂,
          rw run₁ run₂,
          (
            Extends-trans d w₀ IsSource level cap st r₁.1 s r₁.0 cur [] (kv ∷ []) 1 0 1 r₂
                (omega arith) e₁ e₂,
            omega (arith, ap length grown, length-append e₁.rest (kv ∷ [])),
            subst (IsBelow (some kv)) (sym grown) (IsBelow-snoc kv e₁.rest above₁),
          ),
        )
