-- ===== src/Compacter/Compaction.antt =====
-- `doCompaction` as a whole.
use quarkkv_compaction.Base.{
  ℕ, zero, suc, ◌+◌, ◌*◌, ◌^◌, ◌<◌, ◌≤◌, ◌≡◌, ◌≢◌, refl, sym, ap, subst, ◌∙◌, true, none, List, [],
  ◌∷◌, ◌++◌, append-nil, arith, length, length-append, concat, Returns, leb,
}
use quarkkv_compaction.Std.Ordered.{All, All-append, All-map, All-map₂}
use quarkkv_compaction.Config.{Config, quarkstore_append}
use quarkkv_compaction.Config.Sizes.{IsVerified}
use quarkkv_compaction.KvPair.{KvPair}
use quarkkv_compaction.Device.{Device, IsReliable}
use quarkkv_compaction.Sst.{Sst}
use quarkkv_compaction.Sst.Layout.{IsPair}
use quarkkv_compaction.Iterators.{CompactionIterator, next_compaction}
use quarkkv_compaction.Iterators.Kv.{Yields}
use quarkkv_compaction.Compacter.{State, do_compaction, finish_sst_file}
use quarkkv_compaction.Compacter.Dedup.{
  first_of_runs, length-first_of_runs, IsMerged, file_all, length-file_all, drop_all,
}
use quarkkv_compaction.Compacter.Oldest.{HasOlder, first_of_runs-oldest}
use quarkkv_compaction.Compacter.Tables.{
  IsIntact, IsReady, Stands, IsBuilding, IsDone, IsDone-same, Preserves-IsDone, new_sst-IsBuilding,
  finish_sst_file-IsDone,
}
use quarkkv_compaction.Compacter.Extends.{
  Chunk, tables, contents, Extends, joined_pairs, joined_files,
}
use quarkkv_compaction.Compacter.Merge.{merge_loop-Merges}
use quarkkv_compaction.Compacter.Removal.{AreRemovable, remove_compacted-drops}

cancel : (a b size : ℕ) → a * size < b * size + size → a ≤ b
cancel zero b size h = omega arith
cancel (suc a) zero size h = absurd (omega arith)
cancel (suc a) (suc b) size h = omega (arith, cancel a b size (omega arith))

length-contents :
    (size : ℕ) (chunks : List Chunk)
    → All (λ (t : Chunk). length t.1 ≡ size) chunks
    → length (contents chunks) ≡ length chunks * size
unfolding concat
length-contents size [] full = omega arith
length-contents size (t ∷ chunks) full =
    omega (arith, full.0, length-append t.1 (contents chunks), length-contents size chunks full.1)

module _ (d : Device) (w₀ : d.World) (IsSource : ℕ → Type 0) (level cap : ℕ) where
  -- tables that are done and hold the pairs of `out`, none with more than fit a file
  pub record Holding (w : d.World) (out : List KvPair) (chunks : List Chunk) : Type 0 where
    pub done : All (λ (t : Chunk). (length t.1 ≤ cap) × IsDone d w₀ IsSource level w t.0 t.1) chunks
    pub pairs : contents chunks ≡ out

module _ (d : Device) (w₀ : d.World) (IsSource : ℕ → Type 0) (level cap : ℕ) (c : Config)
    (v : IsVerified c) (rel : IsReliable d) where
  open d use {World}

  Stands-AreRemovable :
      (ctr : ℕ) (w : World) (ssts : List Sst)
      → Stands d w₀ IsSource ctr w
      → All (λ t. IsSource t.handler) ssts
      → AreRemovable d w₀ ssts
      → AreRemovable d w ssts
  Stands-AreRemovable ctr w [] ready sources h = tt
  Stands-AreRemovable ctr w (s ∷ ssts) ready sources h =
      let (here, taken, small, apart, rest) = h in
      (
        (ready.intact s.handler sources.0).0,
        λ free. taken (ready.taken s.id free),
        small,
        apart,
        Stands-AreRemovable ctr w ssts ready sources.1 rest,
      )

  finish-Holding :
      (st₀ : State d) (s₀ : Sst) (out rest : List KvPair) (n : ℕ) (r : Sst × State d)
      → (e : Extends d w₀ IsSource level cap st₀ s₀ [] out n r) → rest ≡ e.rest
      → 0 < length rest
      → level < length st₀.levels
      → Returns (finish_sst_file d c r.0 level r.1) λ st'.
        (chunks : List Chunk) × Holding d w₀ IsSource level cap st'.world out chunks
        × IsReady d w₀ IsSource st'
        × (st'.levels ≡ file_all level (tables chunks) st₀.levels)
        × (st'.stats.new_ssts ≤ st₀.stats.new_ssts + length chunks)
        × (length chunks * cap < length out + cap)
  unfolding file_all concat
  finish-Holding st₀ s₀ out [] n r e same some_left there = absurd (omega arith)
  finish-Holding st₀ s₀ out (x ∷ xs) n r e same some_left there =
      let there' : level < length r.1.levels =
        omega (arith, ap length e.filed, length-file_all level (tables e.done) st₀.levels) in
      let (st', run, (t, t-IsDone, handler, ready, levels, ctr, keeps, count)) =
        finish_sst_file-IsDone d w₀ IsSource c v rel r.0 level r.1 x xs
          (subst (IsBuilding d w₀ IsSource r.1.world r.0) (sym same) e.building) e.ready there' in
      let last : List Chunk = (t, x ∷ xs) ∷ [] in
      let size = length-contents cap e.done (All-map _ _ e.done (λ t p. p.0) e.full) in
      (
        st',
        run,
        (
          e.done ++ last,
          record {
            done =
                All-append _ e.done last
                  (All-map₂ _ _ _ e.done
                    (λ u full apart. (
                      omega (arith, full.0),
                      Preserves-IsDone d w₀ IsSource level r.0.handler r.1.world st'.world u.0 u.1
                          keeps (λ q. apart (sym q)) full.1,
                    ))
                    e.full e.apart)
                  ((omega (arith, e.room, ap length same), t-IsDone), tt);
            pairs =
                sym (append-nil (contents (e.done ++ last)))
                ∙ sym (
                    joined_pairs e.done last [] out [] e.rest [] e.pairs
                      (ap (λ l. l ++ []) (sym same) ∙ sym (append-nil ((x ∷ xs) ++ []))))
                ∙ append-nil out;
          },
          ready,
          joined_files level e.done last st₀.levels r.1.levels st'.levels e.filed levels,
          omega (arith, e.counted, length-append e.done last),
          omega (
            arith,
            ap (λ k. k * cap) (length-append e.done last),
            size,
            ap length e.pairs,
            ap length same,
            length-append (contents e.done) e.rest,
          ),
        ),
      )

  -- Compacting tables that are read through an iterator, on storage without errors, under a verified
  -- configuration and with a compacter that copies, into a level that is there. The iterator gives at
  -- least one pair while the files that are read stay as they are; its pairs are well-formed, in the
  -- order of `operator>` and no more than the tables have room for. The names from the counter on are
  -- free and the identifiers that are needed stay below 2 ^ 31. The files of the tables to compact are
  -- open, are among those that are read, are named by identifiers below 2 ^ 31 that are there, and no
  -- two of them have one handler or one identifier; the levels of these tables are there. An SST file
  -- is a whole number of blocks, at least one and below 2 ^ 32 bytes. No new table has been counted, and
  -- there is fuel for one more round than there are pairs. Then the call returns 0. New tables of the level, none with more pairs than fit a file,
  -- hold the first pair of each run with one key, so every pair that was read has among them a pair of
  -- its key that is not later. The levels are as before, but that the new tables are added to theirs
  -- and the tables that were compacted are erased from theirs.
  pub do_compaction-Holding :
      (tries fuel : ℕ) (ci : CompactionIterator) (to_compact : List Sst) (st : State d)
      (kv : KvPair) (kvs : List KvPair)
      → c.engine ≢ quarkstore_append
      → c.sst_file_size ≡ cap * 4096
      → 0 < cap
      → cap * 4096 < 2 ^ 32
      → Yields (next_compaction d c) (λ i. i.ptr) (IsIntact d w₀ IsSource) ci (kv ∷ kvs)
      → suc (length kvs) < fuel
      → IsReady d w₀ IsSource st
      → level < length st.levels
      → suc st.manager.ctr + suc (length kvs) ≤ 2 ^ 31
      → All IsPair (kv ∷ kvs)
      → IsMerged (kv ∷ kvs)
      → AreRemovable d w₀ to_compact
      → All (λ t. IsSource t.handler × (t.level < length st.levels)) to_compact
      → st.stats.new_ssts ≡ 0
      → suc (length kvs) ≤ length to_compact * cap
      → Returns (do_compaction d c (suc tries) fuel ci to_compact level st) λ st'.
        (chunks : List Chunk) × Holding d w₀ IsSource level cap st'.world
          (first_of_runs none (kv ∷ kvs))
          chunks
        × All (HasOlder (contents chunks)) (kv ∷ kvs)
        × (st'.levels ≡ drop_all to_compact (file_all level (tables chunks) st.levels))
  unfolding do_compaction
  do_compaction-Holding tries fuel ci to_compact st kv kvs copies capacity some_room small y enough
        ready there low p m removable sources none_new fits =
      let all = kv ∷ kvs in
      let out = first_of_runs none all in
      let ((s₀, st₀), run₀, (b, ready₀, levels₀, ctr₀, new, keeps₀, count₀)) =
        new_sst-IsBuilding d w₀ IsSource c v rel tries st ready (omega arith) in
      let there₀ : level < length st₀.levels = omega (arith, ap length levels₀) in
      let (r, run₁, (e, left)) =
        merge_loop-Merges d w₀ IsSource level cap c v rel copies capacity some_room small tries fuel
          all ci none s₀ st₀ [] y enough b ready₀ (omega arith) there₀ (omega arith) p m tt refl in
      let (st₂, run₂, (chunks, h, ready₂, levels₂, count₂, size)) =
        finish-Holding st₀ s₀ out e.rest (length all) r e refl (left (omega arith)) there₀ in
      let long : length st₂.levels ≡ length st.levels = omega (
        arith,
        ap length levels₂,
        length-file_all level (tables chunks) st₀.levels,
        ap length levels₀,
      ) in
      let (st₃, run₃, (levels₃, count₃, keeps)) =
        remove_compacted-drops d IsSource to_compact st₂ rel
          (Stands-AreRemovable st₂.manager.ctr st₂.world to_compact ready₂
            (All-map _ _ to_compact (λ t q. q.0) sources) removable)
          (All-map _ _ to_compact (λ t q. (q.0, omega (arith, q.1, long))) sources) in
      let few : length chunks ≤ length to_compact =
        cancel (length chunks) (length to_compact) cap
          (omega (arith, size, fits, length-first_of_runs none all)) in
      let bound : leb st₃.stats.new_ssts (length to_compact) ≡ true = ground arith in
      (
        st₃,
        rw (run₀, run₁, run₂, run₃, bound) refl,
        (
          chunks,
          record {
            done =
                All-map _ _ chunks
                  (λ t q.
                    let (opened, same) = keeps t.0.handler q.1.fresh q.1.opened in
                    (
                      q.0,
                      IsDone-same d w₀ IsSource level st₂.world st₃.world t.0 t.1 opened same q.1,
                    ))
                  h.done;
            pairs = h.pairs;
          },
          subst (λ l. All (HasOlder l) all) (sym h.pairs) (first_of_runs-oldest all m),
          levels₃
              ∙ ap (drop_all to_compact) (levels₂ ∙ ap (file_all level (tables chunks)) levels₀),
        ),
      )
