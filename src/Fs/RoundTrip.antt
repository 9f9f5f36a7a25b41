-- ===== src/Fs/RoundTrip.antt =====
-- `Persist` of a manifest in files and the `Open` of the next run.
use quarkkv_compaction.Base.{
  ℕ, ◌+◌, ◌*◌, ◌≤◌, ◌≡◌, refl, subst, [], length, replicate, ok, ◌>>=◌, Returns,
}
use quarkkv_compaction.Config.{Config}
use quarkkv_compaction.Manifest
use quarkkv_compaction.Manifest.{serialize_levels, deserialize_levels}
use quarkkv_compaction.Manifest.RoundTrip.{IsWords, live, deserialize-serialize}
use quarkkv_compaction.Posix.{Posix, IsPosix, IsWorking, read_only}
use quarkkv_compaction.Fs.Manifests
use quarkkv_compaction.Fs.Manifests.{
  ManifestFs, get_current_manifest_path, read_manifest, open_manifest, persist_manifest,
}
use quarkkv_compaction.Fs.Blocks.{length-serialize_levels}
use quarkkv_compaction.Fs.Current.{Contains-same}
use quarkkv_compaction.Fs.Reopened.{HasRoom, persist_effect, current_path, read_manifest-eq}

module _ (p : Posix) (l : IsPosix p) (k : IsWorking p) (c : Config) where
  open p use {World}

  -- Where `Persist` returns, after which system calls succeed that open, read and close a file that is
  -- there, a manifest that is new and of the same configuration opens with the levels that were
  -- persisted. They are as many as the configuration has, their identifiers are of 32 bits and fit the
  -- block, and the file that names the current manifest was no longer than a block before.
  pub open-persist :
      (tries tries' : ℕ) (m m' : ManifestFs) (w w' : World)
      → persist_manifest p c tries m w ≡ ok (m', w')
      → HasRoom p l c (p.view w)
      → length m.files ≡ c.n_levels
      → IsWords m.files
      → 4 + length m.files * 4 + live m.files * 4 ≤ 4096
      → Returns (open_manifest p c tries' (Manifests.new c) w') λ r. r.0.files ≡ m.files
  unfolding open_manifest Manifests.new Manifest.new
  open-persist tries tries' m m' w w' e room size words fits =
      let (n, (buf, serialized, (there, named))) =
        persist_effect p l c (λ path w i at. k.opens read_only path w i at) tries m m' w w' e
          room in
      let (w₃, path_run, same) = current_path p l c k tries' n 0 w' named in
      let parsed : deserialize_levels buf (Manifest.new c) ≡ ok m.files =
        subst (λ (t : ℕ). deserialize_levels buf (replicate t []) ≡ ok m.files) size
          (subst
            (λ r. (r >>= λ b. deserialize_levels b (replicate (length m.files) [])) ≡ ok m.files)
            serialized (deserialize-serialize m.files words fits)) in
      let (w₄, run) =
        read_manifest-eq p l c k n buf (Manifests.new c) m.files w₃
          (Contains-same _ buf (p.view w') (p.view w₃) same there)
          (length-serialize_levels m.files buf serialized) parsed in
      ((record { files = m.files; ctr = 0 }, w₄), rw path_run run, refl)
