-- ===== src/Mininet/Csv.antt =====
-- experiments/mininet/mininet_tests_123.py: the CSV files of the results.
pub mod Columns
use zk_arche_compare.Base.{
  ℕ, Bool, true, false, ◌&&◌, ◌||◌, Option, none, some, List, [], ◌∷◌, ◌++◌, Text, map, Result, ok,
  raised, value_error, ◌==◌, if◌then◌else◌,
}
use zk_arche_compare.Strings.{show_nat}
use zk_arche_compare.World.{FilePath}
use zk_arche_compare.World.Files.{mkdirs, write_text, parent}
use zk_arche_compare.Mininet.Lab.{Kit, M, lift, files, ◌>>=◌, ◌>>◌}
use zk_arche_compare.Mininet.Profiles.{find}
use zk_arche_compare.Mininet.Prepare.{member}
use zk_arche_compare.Mininet.Rows.{Cell, absent, number, real, word, Cells}

-- `csv.writer` quotes a field that holds a comma, a quote or a line break, and doubles its quotes.
unfoldable pub needs_quotes : Text → Bool
needs_quotes [] = false
needs_quotes (c ∷ s) = c == b',' || c == 34 || c == 13 || c == 10 || needs_quotes s

unfoldable pub doubled : Text → Text
doubled [] = 34 ∷ []
doubled (c ∷ s) = let rest = doubled s in if c == 34 then 34 ∷ 34 ∷ rest else c ∷ rest

unfoldable pub csv_field : Text → Text
unfolding needs_quotes doubled
csv_field t = if needs_quotes t then 34 ∷ doubled t else t

unfoldable pub csv_line : List Text → Text
unfolding csv_field
csv_line [] = 13 ∷ 10 ∷ []
csv_line (t ∷ []) = csv_field t ++ (13 ∷ 10 ∷ [])
csv_line (t ∷ u ∷ ts) = csv_field t ++ (b',' ∷ csv_line (u ∷ ts))

abbrev pub keys : {F : Type 0} → Cells F → List Text
keys row = map (λ kv. kv.0) row

-- Each key of the row is a column.
unfoldable pub covered : List Text → List Text → Bool
unfolding member
covered columns [] = true
covered columns (k ∷ ks) = member k columns && covered columns ks

module _ (kit : Kit) where
  open kit use {fl, show_float}
  open fl use {F}

  unfoldable pub cell_text : Cell F → Text
  unfolding show_nat
  cell_text absent = []
  cell_text (number n) = show_nat n
  cell_text (real x) = show_float x
  cell_text (word t) = t

  abbrev cell_or : Option (Cell F) → Text
  unfolding cell_text
  cell_or none = []
  cell_or (some c) = cell_text c

  -- The row under the header; a missing key is an empty field.
  unfoldable pub row_fields : List Text → Cells F → List Text
  unfolding find cell_text
  row_fields columns row = map (λ k. cell_or (find k row)) columns

  -- `writer.writerows(rows)`: what is written, and how it ends. A row with a key that is no column
  -- raises, after the rows before it are written.
  unfoldable pub write_rows : List Text → List (Cells F) → Text × Result (Unit {0})
  unfolding covered csv_line row_fields
  write_rows columns [] = ([], ok tt)
  write_rows columns (row ∷ rows) =
      let rest = write_rows columns rows in
      if covered columns (keys row)
      then (csv_line (row_fields columns row) ++ rest.0, rest.1)
      else ([], raised value_error)

  unfoldable pub write_csv : FilePath → List (Cells F) → M (Unit {0})
  write_csv path [] = files (mkdirs (parent path))
  write_csv path (row ∷ rows) = do
    files (mkdirs (parent path))
    files (write_text path (csv_line (keys row) ++ (write_rows (keys row) (row ∷ rows)).0))
    lift (write_rows (keys row) (row ∷ rows)).1
