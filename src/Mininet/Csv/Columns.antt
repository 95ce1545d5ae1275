-- ===== src/Mininet/Csv/Columns.antt =====
-- The rows of a result have the same columns, so that none is refused.
use zk_arche_compare.Base.{
  ◌≡◌, refl, true, List, [], ◌∷◌, Text, codes, text_eq, ok, map, All, none, some, Bool-cases, inl,
  inr,
}
use zk_arche_compare.Mininet.Lab.{Kit}
use zk_arche_compare.Mininet.Prepare.{member}
use zk_arche_compare.Mininet.ServerLog.{ServerRow}
use zk_arche_compare.Mininet.Clients.{Assignment}
use zk_arche_compare.Mininet.Rows.{
  AuthRow, Columns, server_columns_of, Cells, auth_cells, repeat_cells, server_cells,
  server_results, base_cells, session_cells, cert_cell, request_cells, outcome_cells,
  server_row_cells, server_column_cells,
}
use zk_arche_compare.Mininet.Csv.{keys, covered, write_rows}

module _ (kit : Kit) where
  open kit use {fl}
  open fl use {F}

  write_rows-covered :
      (columns : List Text) (rows : List (Cells F))
      → All (λ r. covered columns (keys r) ≡ true) rows
      → (write_rows kit columns rows).1 ≡ ok tt
  unfolding write_rows
  write_rows-covered columns [] h = refl
  write_rows-covered columns (r ∷ rows) (h, hs) = rw h (write_rows-covered columns rows hs)

  auth-covered :
      (r : AuthRow F) (rows : List (AuthRow F))
      → All (λ s. covered (keys (auth_cells r)) (keys s) ≡ true) (map auth_cells rows)
  unfolding covered member text_eq codes auth_cells base_cells session_cells cert_cell request_cells
      outcome_cells
  auth-covered r [] = tt
  auth-covered r (s ∷ rows) = (refl, auth-covered r rows)

  repeat-covered :
      (r : AuthRow F) (rows : List (AuthRow F))
      → All (λ s. covered (keys (repeat_cells r)) (keys s) ≡ true) (map repeat_cells rows)
  unfolding covered member text_eq codes repeat_cells base_cells session_cells cert_cell
      request_cells outcome_cells
  repeat-covered r [] = tt
  repeat-covered r (s ∷ rows) = (refl, repeat-covered r rows)

  plain-covered :
      (r : ServerRow F) (rows : List (ServerRow F))
      → All
          (λ s. covered (keys (server_cells (record { row = r; columns = none }))) (keys s) ≡ true)
          (map server_cells (map (λ q. record { row = q; columns = none }) rows))
  unfolding covered member text_eq codes server_cells server_row_cells server_column_cells
  plain-covered r [] = tt
  plain-covered r (s ∷ rows) = (refl, plain-covered r rows)

  full-covered :
      (f : ServerRow F → Columns F) (r : ServerRow F) (rows : List (ServerRow F))
      → All
          (λ s.
            covered (keys (server_cells (record { row = r; columns = some (f r) }))) (keys s)
            ≡ true)
          (map server_cells (map (λ q. record { row = q; columns = some (f q) }) rows))
  unfolding covered member text_eq codes server_cells server_row_cells server_column_cells
  full-covered f r [] = tt
  full-covered f r (s ∷ rows) = (refl, full-covered f r rows)

  -- The header that `write_csv` takes: the keys of the first row.
  abbrev pub header : List (Cells F) → List Text
  header [] = []
  header (row ∷ rows) = keys row

  abbrev pub Accepted : List (Cells F) → Type 0
  Accepted rows = (write_rows kit (header rows) rows).1 ≡ ok tt

  auth-Accepted : (rows : List (AuthRow F)) → Accepted (map auth_cells rows)
  unfolding write_rows
  auth-Accepted [] = refl
  auth-Accepted (r ∷ rows) =
      write_rows-covered (keys (auth_cells r)) (map auth_cells (r ∷ rows))
        (auth-covered r (r ∷ rows))

  repeat-Accepted : (rows : List (AuthRow F)) → Accepted (map repeat_cells rows)
  unfolding write_rows
  repeat-Accepted [] = refl
  repeat-Accepted (r ∷ rows) =
      write_rows-covered (keys (repeat_cells r)) (map repeat_cells (r ∷ rows))
        (repeat-covered r (r ∷ rows))

  plain-Accepted :
      (rows : List (ServerRow F))
      → Accepted (map server_cells (map (λ q. record { row = q; columns = none }) rows))
  unfolding write_rows
  plain-Accepted [] = refl
  plain-Accepted (r ∷ rows) =
      write_rows-covered (keys (server_cells (record { row = r; columns = none })))
        (map server_cells (map (λ q. record { row = q; columns = none }) (r ∷ rows)))
        (plain-covered r (r ∷ rows))

  full-Accepted :
      (f : ServerRow F → Columns F) (rows : List (ServerRow F))
      → Accepted (map server_cells (map (λ q. record { row = q; columns = some (f q) }) rows))
  unfolding write_rows
  full-Accepted f [] = refl
  full-Accepted f (r ∷ rows) =
      write_rows-covered (keys (server_cells (record { row = r; columns = some (f r) })))
        (map server_cells (map (λ q. record { row = q; columns = some (f q) }) (r ∷ rows)))
        (full-covered f r (r ∷ rows))

  server-Accepted :
      (protocol : Text) (assignments : List (Assignment F)) (rows : List (ServerRow F))
      → Accepted (map server_cells (server_results kit protocol assignments rows))
  unfolding server_results
  server-Accepted protocol assignments rows =
      elim (Bool-cases (text_eq protocol (codes "zkarche"))) [
        | inl e ↦ rw e (full-Accepted (server_columns_of kit assignments) rows)
        | inr e ↦ rw e (plain-Accepted rows)
      ]

  -- Neither the rows of the clients, with or without `--repeat`, nor those of the server, for every
  -- protocol, make the CSV writer raise for a key that is no column of its header.
  pub result_rows-Accepted :
      (protocol : Text) (assignments : List (Assignment F)) (clients : List (AuthRow F))
      (servers : List (ServerRow F))
      → Accepted (map auth_cells clients)
        × Accepted (map repeat_cells clients)
        × Accepted (map server_cells (server_results kit protocol assignments servers))
  result_rows-Accepted protocol assignments clients servers =
      (auth-Accepted clients, repeat-Accepted clients, server-Accepted protocol assignments servers)
