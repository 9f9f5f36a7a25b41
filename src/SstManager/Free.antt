-- ===== src/SstManager/Free.antt =====
-- The loop of `NewEmptySST` ends at the first identifier that is free.
use quarkkv_compaction.Base.{
  ℕ, zero, suc, ◌+◌, ◌%◌, ◌^◌, ◌<◌, ◌≡◌, refl, sym, ap, subst, ◌∙◌, true, none, some, arith, ok,
  ltb, lt→ltb,
}
use quarkkv_compaction.Config.{Config, fs}
use quarkkv_compaction.Device.{Device}
use quarkkv_compaction.SstManager.{SstManager, wrap, new_file, new_empty_sst}

-- `n` identifiers are refused one after the other, and each refusal leaves what it leaves.
abbrev pub Refused : (d : Device) → ℕ → ℕ → d.World → d.World → Type 0
Refused d zero ctr w w' = w ≡ w'
Refused d (suc n) ctr w w' =
    ((d.create ctr w).0 ≡ none) × Refused d n (ctr + 1) (d.create ctr w).1 w'

-- the first try of a storage that makes the file
pub new_file-create :
    (d : Device) (c : Config) (tries h : ℕ) (m : SstManager) (w w' : d.World)
    → d.create m.ctr w ≡ (some (h, m.ctr), w')
    → new_file d c (suc tries) m w
      ≡ ok (some (wrap d c h m.ctr w'), record m { ctr = (m.ctr + 1) % 2 ^ 32 }, w')
unfolding new_file
new_file-create d c tries h m w w' run =
    let made : (d.create m.ctr w).0 ≡ some (h, m.ctr) = ap (λ r. r.0) run in
    let end : (d.create m.ctr w).1 ≡ w' = ap (λ r. r.1) run in
    rw (made, new_file)
      (ap (λ x. ok (some (wrap d c h m.ctr x), record m { ctr = (m.ctr + 1) % 2 ^ 32 }, x)) end)

module _ (d : Device) (c : Config) (on_files : c.engine ≡ fs) where
  open d use {World}

  pub new_file-taken :
      (tries : ℕ) (m : SstManager) (w : World)
      → (d.create m.ctr w).0 ≡ none
      → new_file d c (suc tries) m w
        ≡ new_file d c tries (record m { ctr = (m.ctr + 1) % 2 ^ 32 }) (d.create m.ctr w).1
  unfolding new_file
  new_file-taken tries m w taken = rw (taken, on_files, new_file) refl

  new_file-free :
      (n tries ctr id clock h : ℕ) (w w₁ w' : World)
      → ctr + n ≡ id
      → id < 2 ^ 31
      → Refused d n ctr w w₁
      → d.create id w₁ ≡ (some (h, id), w')
      → n < tries
      → new_file d c tries (record { ctr = ctr; clock = clock }) w
        ≡ ok (some (wrap d c h id w'), record { ctr = id + 1; clock = clock }, w')
  new_file-free n zero ctr id clock h w w₁ w' e low taken free enough = absurd (omega arith)
  new_file-free zero (suc tries) ctr id clock h w w₁ w' e low taken free enough =
      let same : ctr ≡ id = omega arith in
      let next : (id + 1) % 2 ^ 32 ≡ id + 1 = omega arith in
      subst
        (λ (t : ℕ).
          new_file d c (suc tries) (record { ctr = t; clock = clock }) w
          ≡ ok (some (wrap d c h id w'), record { ctr = id + 1; clock = clock }, w'))
        (sym same)
        (new_file-create d c tries h (record { ctr = id; clock = clock }) w w'
            (ap (λ x. d.create id x) taken ∙ free)
          ∙ ap (λ (t : ℕ). ok (some (wrap d c h id w'), record { ctr = t; clock = clock }, w'))
              next)
  new_file-free (suc n) (suc tries) ctr id clock h w w₁ w' e low taken free enough =
      let next : (ctr + 1) % 2 ^ 32 ≡ ctr + 1 = omega arith in
      let later = (d.create ctr w).1 in
      new_file-taken tries (record { ctr = ctr; clock = clock }) w taken.0
      ∙ ap (λ (t : ℕ). new_file d c tries (record { ctr = t; clock = clock }) later) next
      ∙ new_file-free n tries (ctr + 1) id clock h later w₁ w' (omega arith) low taken.1 free
          (omega arith)

  -- On a file system, where the `n` identifiers from the counter on are refused one after the other,
  -- each refusal leaving what it leaves, and a table is then made for the next one, which is below
  -- 2 ^ 31, `NewEmptySST` ends within one more round than those, with that table, and the counter
  -- stands behind its identifier.
  pub new_empty_sst-free :
      (n tries ctr id clock h : ℕ) (w w₁ w' : World)
      → ctr + n ≡ id
      → id < 2 ^ 31
      → Refused d n ctr w w₁
      → d.create id w₁ ≡ (some (h, id), w')
      → n < tries
      → new_empty_sst d c tries (record { ctr = ctr; clock = clock }) w
        ≡ ok (some (wrap d c h id w'), record { ctr = id + 1; clock = clock }, w')
  unfolding new_empty_sst
  new_empty_sst-free n tries ctr id clock h w w₁ w' e low taken free enough =
      let small : ltb ctr (2 ^ 31) ≡ true = lt→ltb ctr (2 ^ 31) (omega arith) in
      rw small (new_file-free n tries ctr id clock h w w₁ w' e low taken free enough)
