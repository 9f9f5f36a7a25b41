-- ===== src/Db/Runs.antt =====
-- The manifest and the tables over the runs of a database: `Open`, `Put`, `flush`, `compact`, `Close`.
use quarkkv_compaction.Base.{
  ℕ, ◌+◌, ◌^◌, ◌≤◌, ◌≡◌, refl, subst, ◌∙◌, inl, inr, Bool-cases, List, [], arith, ok, ltb, u32,
  if◌then◌else◌, length, replicate, set, zero, suc, >>=-eq-ok,
}
use quarkkv_compaction.Std.Text.{Bytes}
use quarkkv_compaction.Std.Ordered
use quarkkv_compaction.Std.Ordered.{All, All-map, insert_here, insert_past, insert_kept}
use quarkkv_compaction.Config.{Config}
use quarkkv_compaction.MemTable
use quarkkv_compaction.Device.{Device, KeepsIds}
use quarkkv_compaction.Sst.{Sst, less}
use quarkkv_compaction.SstManager
use quarkkv_compaction.SstManager.{flush_to_sst}
use quarkkv_compaction.SstManager.Ids.{flush_to_sst-id}
use quarkkv_compaction.Manifest
use quarkkv_compaction.Manifest.{Levels, add_to_level}
use quarkkv_compaction.Compacter.{State, level_at}
use quarkkv_compaction.Compacter.Select.{compact}
use quarkkv_compaction.Compacter.Numbered.{
  AreBelow, AreBelow-mono, IsCounted, level_at-IsBelow, set-AreBelow, insert-IsBelow,
}
use quarkkv_compaction.Compacter.Counts.{compact-Counted}
use quarkkv_compaction.Db
use quarkkv_compaction.Db.{
  Catalog, Db, pad_key, open_tables, open_levels, open_db, close_db, compact_db, flush, put,
}
use quarkkv_compaction.Db.Mirrored.{
  Mirrors, update-Mirrors, flushed-Mirrors, fresh, replicate-Mirrors, none-AreBelow,
}

module _ (d : Device) (keeps : KeepsIds d) (c : Config) (k : Catalog d) where
  -- The manifest lists the tables, and their identifiers are below the counter.
  pub record IsMirrored (db : Db d) : Type 0 where
    pub mirrors : Mirrors db.state.levels db.files
    pub counted : IsCounted d db.state

  new-IsMirrored : (w : d.World) (db : Db d) → Db.new d c w ≡ ok db → IsMirrored db
  unfolding Db.new Manifest.new
  new-IsMirrored w db e =
      let (table, e₁, made) = >>=-eq-ok (MemTable.new c) _ e in
      let levels : replicate c.n_levels [] ≡ db.state.levels = ground arith in
      let files : replicate c.n_levels [] ≡ db.files = ground arith in
      record {
        mirrors =
            subst (λ (l : List (List Sst)). Mirrors l db.files) levels
              (subst (λ (f : Levels). Mirrors (replicate c.n_levels []) f) files
                (replicate-Mirrors c.n_levels));
        counted = subst (AreBelow db.state.manager.ctr) levels (none-AreBelow _ c.n_levels);
      }

  new-files : (w : d.World) (db : Db d) → Db.new d c w ≡ ok db → db.files ≡ Manifest.new c
  unfolding Db.new
  new-files w db e = let (table, e₁, made) = >>=-eq-ok (MemTable.new c) _ e in ground arith

  -- A manifest without tables leads to none.
  open_levels-none :
      (n level : ℕ) (st : State d) → open_levels d c k level (replicate n []) st ≡ ok st
  unfolding open_levels open_tables replicate
  open_levels-none zero level st = refl
  open_levels-none (suc n) level st = open_levels-none n (level + 1) st

  module _ (tries fuel : ℕ) (few : tries ≤ 2 ^ 31) where
    compact_db-IsMirrored :
        (db db' : Db d)
        → compact_db d c k tries fuel db ≡ ok db'
        → IsCounted d db.state
        → IsMirrored db'
    unfolding compact_db
    compact_db-IsMirrored db db' e h =
        let (st, e₁, compacted) = >>=-eq-ok (compact d c tries fuel db.state) _ e in
        let files = Manifest.update st.levels db.files in
        let (w, e₂, written) = >>=-eq-ok (k.persist_manifest files st.world) _ e₁ in
        let last : (let r : Db d = record db {
          state = record st { world = k.print_manifest w };
          files = files;
        } in
              r)
            ≡ db' =
          ground arith in
        subst IsMirrored last (record {
          mirrors = update-Mirrors st.levels db.files;
          counted = compact-Counted d keeps c tries few fuel db.state st compacted h;
        })

    flush-IsMirrored :
        (db db' : Db d) → flush d c k tries fuel db ≡ ok db' → IsMirrored db → IsMirrored db'
    unfolding flush
    flush-IsMirrored db db' e h =
        let st = db.state in
        let ctr = st.manager.ctr in
        let ((s, sm, w), e₁, flushed) =
          >>=-eq-ok (flush_to_sst d c tries db.mem_table st.manager st.world) _ e in
        let (low, high) =
          flush_to_sst-id d c keeps tries db.mem_table st.manager sm s st.world w few flushed in
        let (files, e₂, added) = >>=-eq-ok (add_to_level 0 s.id db.files) _ e₁ in
        let (level0, e₃, at) = >>=-eq-ok (level_at 0 st.levels) _ e₂ in
        let level0' = Ordered.insert less s level0 in
        let grown : Db d = record db {
          state = record st { levels = set st.levels 0 level0'; manager = sm; world = w };
          files = files;
          mem_table = MemTable.flush db.mem_table;
        } in
        let wider : AreBelow sm.ctr st.levels =
          AreBelow-mono ctr sm.ctr st.levels (omega arith) h.counted in
        let grown-IsMirrored : IsMirrored grown = record {
          mirrors =
              flushed-Mirrors s level0 st.levels db.files files h.mirrors at added
                (fresh ctr s.id level0 (level_at-IsBelow ctr 0 st.levels level0 h.counted at) low);
          counted = set-AreBelow sm.ctr 0 st.levels level0' wider (
              insert-IsBelow sm.ctr s level0 high
                (level_at-IsBelow sm.ctr 0 st.levels level0 wider at));
        } in
        let (db₁, e₄, grew) =
          >>=-eq-ok
            (if ltb c.level0_max_size (length level0')
              then compact_db d c k tries fuel grown
              else ok grown)
            _ e₃ in
        let last : (let r : Db d = record db₁ { flushes = u32 (db₁.flushes + 1) } in r) ≡ db' =
          ground arith in
        let whole : IsMirrored db₁ = elim (Bool-cases (ltb c.level0_max_size (length level0'))) [
          | inl large ↦ compact_db-IsMirrored grown db₁ (ground arith) grown-IsMirrored.counted
          | inr small ↦
              let same : grown ≡ db₁ = ground arith in subst IsMirrored same grown-IsMirrored
        ] in
        subst IsMirrored last (record { mirrors = whole.mirrors; counted = whole.counted })

    put-IsMirrored :
        (key val : Bytes) (db db' : Db d)
        → put d c k tries fuel key val db ≡ ok db'
        → IsMirrored db
        → IsMirrored db'
    unfolding put SstManager.tick
    put-IsMirrored key val db db' e h =
        let st = db.state in
        let (key', e₁, padded) = >>=-eq-ok (pad_key c key) _ e in
        let (table, e₂, stored) =
          >>=-eq-ok (MemTable.put c key' st.manager.clock val db.mem_table) _ e₁ in
        let next : Db d = record db {
          state = record st { manager = SstManager.tick st.manager };
          mem_table = table;
        } in
        let next-IsMirrored : IsMirrored next = record {
          mirrors = h.mirrors;
          counted = h.counted;
        } in
        elim (Bool-cases (MemTable.full table)) [
          | inl full ↦ flush-IsMirrored next db' (ground arith) next-IsMirrored
          | inr room ↦ let last : next ≡ db' = ground arith in subst IsMirrored last next-IsMirrored
        ]

  -- What a database can become: it is new and opened where the manifest has no tables, and from then
  -- on pairs are put.
  pub data Runs : Db d → Type 0 where
    opened :
        {db : Db d} (w w' : d.World) (db₀ : Db d)
        → Db.new d c w ≡ ok db₀
        → k.open_manifest db₀.files db₀.state.world ≡ ok (Manifest.new c, w')
        → open_db d c k db₀ ≡ ok db
        → Runs db
    stored :
        {db db' : Db d} (tries fuel : ℕ) (key val : Bytes)
        → Runs db
        → tries ≤ 2 ^ 31
        → put d c k tries fuel key val db ≡ ok db'
        → Runs db'

  open_db-IsMirrored :
      (w w' : d.World) (db₀ db : Db d)
      → Db.new d c w ≡ ok db₀
      → k.open_manifest db₀.files db₀.state.world ≡ ok (Manifest.new c, w')
      → open_db d c k db₀ ≡ ok db
      → IsMirrored db
  unfolding open_db Db.new Manifest.new
  open_db-IsMirrored w w' db₀ db made first e =
      let h = new-IsMirrored w db₀ made in
      let ((files, w₁), e₁, read) = >>=-eq-ok (k.open_manifest db₀.files db₀.state.world) _ e in
      let same : Manifest.new c ≡ files = ground arith in
      let before : State d = record db₀.state { world = w₁ } in
      let (st', e₂, parsed) = >>=-eq-ok (open_levels d c k 0 files before) _ e₁ in
      let stays : before ≡ st' =
        ground (arith, open_levels-none c.n_levels 0 before, parsed, same) in
      let last : (let r : Db d = record db₀ {
        state = record st' { world = k.print_manifest st'.world };
        files = files;
      } in
            r)
          ≡ db =
        ground arith in
      let mirrored : IsMirrored (record db₀ {
        state = record before { world = k.print_manifest before.world };
        files = files;
      }) =
        record {
          mirrors =
              subst (λ (f : Levels). Mirrors db₀.state.levels f) (new-files w db₀ made ∙ same)
                h.mirrors;
          counted = h.counted;
        } in
      subst IsMirrored last (
        subst
          (λ (t : State d).
            IsMirrored
              (record db₀ { state = record t { world = k.print_manifest t.world }; files = files }))
          stays mirrored)

  Runs-IsMirrored : (db : Db d) → Runs db → IsMirrored db
  Runs-IsMirrored db (opened w w' db₀ made first e) = open_db-IsMirrored w w' db₀ db made first e
  Runs-IsMirrored db' (stored {db = db} tries fuel key val r few e) =
      put-IsMirrored tries fuel few key val db db' e (Runs-IsMirrored db r)

  -- In a database that was opened on a manifest without tables and has since taken calls of `Put`
  -- that returned, with no more than 2 ^ 31 tries for a name and on storage that makes a table with the
  -- identifier that it is given, the manifest lists level by level the identifiers of the tables of that
  -- level, each as often, and all of them are below the counter.
  pub Runs-Mirrors :
      (db : Db d)
      → Runs db
      → Mirrors db.state.levels db.files × AreBelow db.state.manager.ctr db.state.levels
  Runs-Mirrors db r = let h = Runs-IsMirrored db r in (h.mirrors, h.counted)
