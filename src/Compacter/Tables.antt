-- ===== src/Compacter/Tables.antt =====
-- The tables of a compaction: the one that is being built, those that are done, and the files that
-- the pairs are read from.
use quarkkv_compaction.Base.{
  ℕ, zero, suc, ◌+◌, ◌*◌, ◌%◌, ◌^◌, ◌<◌, ◌≤◌, ◌≡◌, ◌≢◌, refl, sym, ap, subst, ◌∙◌, true, List, [],
  ◌∷◌, ◌++◌, arith, length, set, ok, Returns, u32, lt→ltb,
}
use quarkkv_compaction.Std.Text.{text_lt}
use quarkkv_compaction.Std.Ordered
use quarkkv_compaction.Std.Ordered.{All}
use quarkkv_compaction.Config.{Config, quarkstore_append}
use quarkkv_compaction.Config.Sizes.{IsVerified}
use quarkkv_compaction.KvPair.{KvPair}
use quarkkv_compaction.Device.{Device, Preserves, SameNames, IsReliable}
use quarkkv_compaction.Sst
use quarkkv_compaction.Sst.{Sst, set_level}
use quarkkv_compaction.Sst.Layout.{IsPair, Holds, images, offsets}
use quarkkv_compaction.Sst.Building.{add_kv-Holds}
use quarkkv_compaction.Sst.Persisted.{IsPersisted, persist-IsPersisted}
use quarkkv_compaction.SstManager
use quarkkv_compaction.SstManager.Free.{new_file-create}
use quarkkv_compaction.SstManager.{SstManager, new_file, new_empty_sst, wrap}
use quarkkv_compaction.Compacter.{State, level_at, copy_merge, merge, finish_sst_file, new_sst}
use quarkkv_compaction.Compacter.Dedup.{file_in}

set-file_in :
    (level : ℕ) (s : Sst) (levels : List (List Sst))
    → level < length levels
    → (ssts : List Sst) × (level_at level levels ≡ ok ssts)
      × (set levels level (Ordered.insert Sst.less s ssts) ≡ file_in level s levels)
unfolding level_at file_in
set-file_in level s [] h = absurd (omega arith)
set-file_in zero s (ssts ∷ levels) h = (ssts, refl, refl)
set-file_in (suc level) s (ssts ∷ levels) h =
    let (found, at, same) = set-file_in level s levels (omega arith) in
    (found, at, ap (◌∷◌ ssts) same)

merge-copies :
    (d : Device) (c : Config) (kv : KvPair) (s : Sst) (st : State d)
    → c.engine ≢ quarkstore_append
    → merge d c kv s st ≡ copy_merge d c kv s st
unfolding merge
merge-copies d c kv s st copies = ground arith

module _ (d : Device) (w₀ : d.World) (IsSource : ℕ → Type 0) where
  open d use {World}

  -- The files that are read are open and as they were.
  abbrev pub IsIntact : World → Type 0
  IsIntact w = (h : ℕ) → IsSource h → d.IsOpen w h × (d.content w h ≡ d.content w₀ h)

  pub Preserves-IsIntact :
      (h : ℕ) (w w' : World) → Preserves d h w w' → ¬ IsSource h → IsIntact w → IsIntact w'
  Preserves-IsIntact h w w' keeps fresh intact j source =
      let (open_before, same) = intact j source in
      let (opened, equal) = keeps j open_before (λ e. fresh (subst IsSource (sym e) source)) in
      (opened, equal ∙ same)

  -- The files that are read are as they were, the names from the counter on are free, and none that was
  -- taken has become free.
  pub record Stands (ctr : ℕ) (w : World) : Type 0 where
    pub intact : IsIntact w
    pub free : (i : ℕ) → ctr ≤ i → i < 2 ^ 31 → d.IsFree w i
    pub taken : (i : ℕ) → d.IsFree w i → d.IsFree w₀ i

  abbrev pub IsReady : State d → Type 0
  IsReady st = Stands st.manager.ctr st.world

  -- A step that writes to another file and no name keeps to that.
  same-Stands :
      (h ctr : ℕ) (w w' : World)
      → Preserves d h w w'
      → SameNames d w w'
      → ¬ IsSource h
      → Stands ctr w
      → Stands ctr w'
  same-Stands h ctr w w' keeps names fresh ready = record {
    intact = Preserves-IsIntact h w w' keeps fresh ready.intact;
    free = λ i low high. (names i).0 (ready.free i low high);
    taken = λ i free. ready.taken i ((names i).1 free);
  }

  -- a table that holds `kvs` and is being built
  pub record IsBuilding (w : World) (s : Sst) (kvs : List KvPair) : Type 0 where
    pub holds : Holds d w s kvs
    pub opened : d.IsOpen w s.handler
    pub fresh : ¬ IsSource s.handler

  -- a table of the level that holds `kvs` and is done
  pub record IsDone (level : ℕ) (w : World) (s : Sst) (kvs : List KvPair) : Type 0 where
    pub persisted : IsPersisted d w s kvs
    pub opened : d.IsOpen w s.handler
    pub fresh : ¬ IsSource s.handler
    pub at_level : s.level ≡ level

  -- A table is as it was when its file is open and as it was.
  pub IsDone-same :
      (level : ℕ) (w w' : World) (s : Sst) (kvs : List KvPair)
      → d.IsOpen w' s.handler
      → d.content w' s.handler ≡ d.content w s.handler
      → IsDone level w s kvs
      → IsDone level w' s kvs
  IsDone-same level w w' s kvs opened same t =
      let p = t.persisted in
      record {
        persisted = record {
          pad = p.pad;
          blocks = same ∙ p.blocks;
          padding = p.padding;
          index = p.index;
          entries = p.entries;
          pairs = p.pairs;
          ascending = p.ascending;
          smallest = p.smallest;
          largest = p.largest;
          room = p.room;
          persisted = p.persisted;
        };
        opened = opened;
        fresh = t.fresh;
        at_level = t.at_level;
      }

  -- A write to another file leaves a table as it is.
  pub Preserves-IsDone :
      (level h : ℕ) (w w' : World) (s : Sst) (kvs : List KvPair)
      → Preserves d h w w'
      → h ≢ s.handler
      → IsDone level w s kvs
      → IsDone level w' s kvs
  Preserves-IsDone level h w w' s kvs keeps other t =
      let (opened, same) = keeps s.handler t.opened other in
      IsDone-same level w w' s kvs opened same t

  module _ (c : Config) (v : IsVerified c) (rel : IsReliable d) where
    -- A new table has a file of its own.
    pub new_sst-IsBuilding :
        (tries : ℕ) (st : State d)
        → IsReady st
        → st.manager.ctr < 2 ^ 31
        → Returns (new_sst d c (suc tries) st) λ r.
          IsBuilding r.1.world r.0 []
          × IsReady r.1
          × (r.1.levels ≡ st.levels)
          × (r.1.manager.ctr ≡ suc st.manager.ctr)
          × (¬ d.IsOpen st.world r.0.handler)
          × Preserves d r.0.handler st.world r.1.world
          × (r.1.stats.new_ssts ≡ st.stats.new_ssts)
    unfolding new_sst new_empty_sst wrap Sst.new images offsets
    new_sst-IsBuilding tries st ready low =
        let ctr = st.manager.ctr in
        let (h, (w', run)) = rel.create_ok ctr st.world (ready.free ctr (omega arith) low) in
        let (id, new, opened, empty, keeps) = rel.create-new ctr h ctr st.world w' run in
        let fresh : ¬ IsSource h = λ source. new (ready.intact h source).0 in
        let place : (st.manager.ctr + 1) % 2 ^ 32 ≡ suc st.manager.ctr = omega arith in
        (
          (
            wrap d c h st.manager.ctr w',
            record st {
              manager = record st.manager { ctr = (st.manager.ctr + 1) % 2 ^ 32 };
              world = w';
            },
          ),
          rw (lt→ltb _ _ low, new_file-create d c tries h st.manager st.world w' run) refl,
          (
            record {
              holds = record {
                bytes = empty;
                index = refl;
                entries = refl;
                pairs = tt;
                ascending = tt;
                smallest = refl;
                room = omega arith;
              };
              opened = opened;
              fresh = fresh;
            },
            record {
              intact = Preserves-IsIntact h st.world w' keeps fresh ready.intact;
              free = λ i from high.
                  rel.free-create ctr i (h, ctr) st.world w' run low high (omega arith)
                    (ready.free i (omega arith) high);
              taken =
                  λ i free. ready.taken i (rel.taken-create ctr i (h, ctr) st.world w' run free);
            },
            refl,
            place,
            new,
            keeps,
            refl,
          ),
        )

    -- A table with a pair is persisted and added to its level.
    pub finish_sst_file-IsDone :
        (s : Sst) (level : ℕ) (st : State d) (kv : KvPair) (kvs : List KvPair)
        → IsBuilding st.world s (kv ∷ kvs)
        → IsReady st
        → level < length st.levels
        → Returns (finish_sst_file d c s level st) λ st'.
          (t : Sst) × IsDone level st'.world t (kv ∷ kvs)
          × (t.handler ≡ s.handler)
          × IsReady st'
          × (st'.levels ≡ file_in level t st.levels)
          × (st'.manager.ctr ≡ st.manager.ctr)
          × Preserves d s.handler st.world st'.world
          × (st'.stats.new_ssts ≤ suc st.stats.new_ssts)
    unfolding finish_sst_file SstManager.tick set_level
    finish_sst_file-IsDone s level st kv kvs b ready there =
        let ((s', w'), run, (p, handler, time, opened, keeps, names)) =
          persist-IsPersisted d c v st.manager.clock s st.world kv kvs rel b.holds b.opened in
        let t = set_level level s' in
        let (ssts, at, same) = set-file_in level t st.levels there in
        (
          record st {
            levels = set st.levels level (Ordered.insert Sst.less t ssts);
            manager = SstManager.tick st.manager;
            world = w';
            stats = record st.stats { new_ssts = u32 (st.stats.new_ssts + 1) };
          },
          rw (run, at) refl,
          (
            t,
            record {
              persisted = record {
                pad = p.pad;
                blocks = p.blocks;
                padding = p.padding;
                index = p.index;
                entries = p.entries;
                pairs = p.pairs;
                ascending = p.ascending;
                smallest = p.smallest;
                largest = p.largest;
                room = p.room;
                persisted = p.persisted;
              };
              opened = rw handler opened;
              fresh = rw handler b.fresh;
              at_level = refl;
            },
            handler,
            same-Stands s.handler st.manager.ctr st.world w' keeps names b.fresh ready,
            same,
            refl,
            keeps,
            omega arith,
          ),
        )

    -- The two compacters that copy add the pair to the table.
    pub merge-IsBuilding :
        (kv : KvPair) (s : Sst) (st : State d) (kvs : List KvPair)
        → c.engine ≢ quarkstore_append
        → IsBuilding st.world s kvs
        → IsReady st
        → IsPair kv
        → All (λ x. text_lt x.key kv.key ≡ true) kvs
        → suc (length kvs) * 4096 < 2 ^ 32
        → Returns (merge d c kv s st) λ r.
          IsBuilding r.1.world r.0 (kvs ++ kv ∷ [])
          × (r.0.handler ≡ s.handler)
          × IsReady r.1
          × (r.1.levels ≡ st.levels)
          × (r.1.manager.ctr ≡ st.manager.ctr)
          × Preserves d s.handler st.world r.1.world
          × (r.1.stats.new_ssts ≡ st.stats.new_ssts)
    unfolding copy_merge
    merge-IsBuilding kv s st kvs copies b ready p above room =
        let ((s', w'), run, (holds, handler, opened, keeps, names)) =
          add_kv-Holds d c v kv kvs s st.world rel p above room b.holds b.opened in
        (
          (
            s',
            record st {
              world = w';
              stats = record st.stats {
                write_amplification_kvs = u32 (st.stats.write_amplification_kvs + 1);
                write_amplification_bytes = (st.stats.write_amplification_bytes + 4096) % 2 ^ 64;
              };
            },
          ),
          rw (merge-copies d c kv s st copies, run, v.kv) refl,
          (
            record { holds = holds; opened = rw handler opened; fresh = rw handler b.fresh },
            handler,
            same-Stands s.handler st.manager.ctr st.world w' keeps names b.fresh ready,
            refl,
            refl,
            keeps,
            refl,
          ),
        )
