-- ===== src/Plot.antt =====
-- benchmarks/plot.py: reading the rows of a CSV file back. The `csv` module splits the file into rows,
-- the header first; each row is as long as the header.
pub mod Reload
use zk_arche_compare.Base.{
  ℕ, Bool, true, false, not, Option, none, some, List, [], ◌∷◌, Text, codes, text_eq, keep_some,
  length, ◌==◌, if◌then◌else◌,
}
use zk_arche_compare.Floats.{Floats, sum_from, max_from}
use zk_arche_compare.Strings.{int_of}

pub record IterRow (F : Type 0) : Type 0 where
  pub iter : ℕ
  pub client_id : ℕ
  pub success : Bool
  pub duration_ms : Option F
  pub sent_bytes : Option ℕ
  pub recv_bytes : Option ℕ
  pub wall_s : F

-- `row[name]`
unfoldable pub column : Text → List Text → List Text → Option Text
unfolding text_eq
column name (key ∷ header) (value ∷ row) =
    let rest = column name header row in if text_eq key name then some value else rest
column name _ _ = none

module _ {A : Type 0} where
  -- A conversion of a field that may be missing.
  unfoldable pub converted : (Text → Option A) → Option Text → Option A
  converted f none = none
  converted f (some t) = f t

  -- `f(t) if t else None`
  unfoldable pub optional : (Text → Option A) → Text → Option (Option A)
  unfolding text_eq
  optional f t =
      if text_eq t [] then some none else elim (f t) [ none ↦ none | some a ↦ some (some a) ]

module _ (fl : Floats) where
  open fl use {F, of_text, of_nat, div, nan}

  abbrev row_of :
      Option ℕ
      → Option ℕ
      → Option ℕ
      → Option (Option F)
      → Option (Option ℕ)
      → Option (Option ℕ)
      → Option F
      → Option (IterRow F)
  row_of (some i) (some c) (some s) (some d) (some b) (some r) (some w) = some (record {
    iter = i;
    client_id = c;
    success = not (s == 0);
    duration_ms = d;
    sent_bytes = b;
    recv_bytes = r;
    wall_s = w;
  })
  row_of _ _ _ _ _ _ _ = none

  -- A row, `none` where a `KeyError` or a `ValueError` skips it.
  unfoldable pub load_row : List Text → List Text → Option (IterRow F)
  unfolding column converted optional
  load_row header row =
      row_of (converted int_of (column (codes "iter") header row))
        (converted int_of (column (codes "client_id") header row))
        (converted int_of (column (codes "success") header row))
        (converted (optional of_text) (column (codes "duration_ms") header row))
        (converted (optional int_of) (column (codes "sent_bytes") header row))
        (converted (optional int_of) (column (codes "recv_bytes") header row))
        (converted of_text (column (codes "wall_s") header row))

  -- `load_csv` of a file that exists.
  unfoldable pub load_rows : List (List Text) → List (IterRow F)
  unfolding load_row
  load_rows [] = []
  load_rows (header ∷ rows) = keep_some (load_row header) rows

  unfoldable pub successful_durations : List (IterRow F) → List F
  successful_durations rows = keep_some (λ r. if r.success then r.duration_ms else none) rows

  unfoldable pub mean : List F → F
  mean [] = nan
  mean (x ∷ xs) = div (sum_from fl (of_nat 0) (x ∷ xs)) (of_nat (length (x ∷ xs)))
