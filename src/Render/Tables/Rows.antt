-- ===== src/Render/Tables/Rows.antt =====
-- What a table prints, over a stream that takes every write.
use hush_hush_cli.Prelude.{String, ◌≡◌, refl, List, [], ◌∷◌, map, ok}
use hush_hush_cli.Render.{Out, row_text, write_rows, table}

-- A stream after several texts, from what it does with one.
unfoldable pub keep_all {ℓ} : {W : Type ℓ} → (String → W → W) → List String → W → W
keep_all keep [] w = w
keep_all keep (text ∷ texts) w = keep_all keep texts (keep text w)

module _ {ℓ} {W : Type ℓ} (out : Out W) (keep : String → W → W)
    (takes : (text : String) (w : W) → out.tab_write text w ≡ (ok tt, keep text w))
    (flushes : (w : W) → out.tab_flush w ≡ (ok tt, w)) where
  rows_kept :
      (failure : String) (rows : List (List String)) (w : W)
      → write_rows out failure rows w ≡ (ok tt, keep_all keep (map row_text rows) w)
  unfolding write_rows keep_all
  rows_kept failure [] w = refl
  rows_kept failure (cells ∷ rows) w =
      rw (takes (row_text cells) w) (rows_kept failure rows (keep (row_text cells) w))

  -- Over a stream that takes every write, a table sends its header and then every row once, in order, and goes
  -- well.
  pub table-rows :
      (header_failure row_failure flush_failure : String) (header : List String)
      (rows : List (List String)) (w : W)
      → table out header_failure row_failure flush_failure header rows w
        ≡ (ok tt, keep_all keep (map row_text (header ∷ rows)) w)
  unfolding table keep_all
  table-rows header_failure row_failure flush_failure header rows w =
      rw
        (
          takes (row_text header) w,
          rows_kept row_failure rows (keep (row_text header) w),
          flushes (keep_all keep (map row_text rows) (keep (row_text header) w)),
        )
        refl
