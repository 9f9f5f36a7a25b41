-- ===== src/Fs/Names.antt =====
-- The names of the files.
use quarkkv_compaction.Base.{ℕ, ◌^◌, ◌<◌, ◌≡◌, sym, ap, ◌∙◌, [], ◌∷◌}
use quarkkv_compaction.Std.Decimal.{number_before, number_before-zero_padded}
use quarkkv_compaction.Fs.{create_name_from_id}

-- Two identifiers of 32 bits whose files have one name are the same.
pub create_name_from_id-injective :
    (m n : ℕ) → m < 2 ^ 32 → n < 2 ^ 32 → create_name_from_id m ≡ create_name_from_id n → m ≡ n
unfolding create_name_from_id
create_name_from_id-injective m n hm hn e =
    sym (number_before-zero_padded 6 m (b's' ∷ b's' ∷ b't' ∷ []) hm)
    ∙ ap (number_before 0) e
    ∙ number_before-zero_padded 6 n (b's' ∷ b's' ∷ b't' ∷ []) hn
