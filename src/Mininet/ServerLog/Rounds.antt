-- ===== src/Mininet/ServerLog/Rounds.antt =====
-- The log of a server is read on from where the last reading ended.
use zk_arche_compare.Base.{
  ℕ, ◌≡◌, refl, ap, ◌∙◌, Result, ok, raised, List, [], ◌∷◌, ◌++◌, Text, codes, length, drop,
}
use zk_arche_compare.Strings.{splitlines}
use zk_arche_compare.Strings.Lines.{splitlines-append, drop-length-append}
use zk_arche_compare.Mininet.Lab.{Kit, Lab, sleep, host_cmd, attempt, ran}
use zk_arche_compare.Mininet.Lab.Returns.{Quiet}
use zk_arche_compare.Mininet.ServerLog.{
  Reading, ServerRow, server_rows, parse_server_metrics_log, collect_server_metrics, cat_log,
}

module _ (kit : Kit) where
  open kit use {fl}
  open fl use {F}

  -- The rows of some lines, and an offset.
  abbrev pub with_offset : ℕ → Result (List (ServerRow F)) → Result (List (ServerRow F) × ℕ)
  with_offset n (ok rows) = ok (rows, n)
  with_offset n (raised e) = raised e

  parse_server_metrics_log-with_offset :
      (reading : Reading) (log : Text) (n : ℕ)
      → parse_server_metrics_log kit reading log n
        ≡ with_offset (length (splitlines log)) (server_rows kit reading (drop n (splitlines log)))
  unfolding parse_server_metrics_log
  parse_server_metrics_log-with_offset reading log n =
      cases (server_rows kit reading (drop n (splitlines log)))
    where
      cases :
          (r : Result (List (ServerRow F)))
          → elim r [ raised e ↦ raised e | ok rows ↦ ok (rows, length (splitlines log)) ]
            ≡ with_offset (length (splitlines log)) r
      cases (ok rows) = refl
      cases (raised e) = refl

  parse_server_metrics_log-append :
      (reading : Reading) (before after : Text)
      → parse_server_metrics_log kit reading
          (before ++ (10 ∷ after))
          (length (splitlines (before ++ (10 ∷ []))))
        ≡ with_offset
            (length (splitlines (before ++ (10 ∷ after))))
            (server_rows kit reading (splitlines after))
  parse_server_metrics_log-append reading before after =
      parse_server_metrics_log-with_offset reading (before ++ (10 ∷ after))
        (length (splitlines (before ++ (10 ∷ []))))
      ∙ ap
          (λ lines.
            with_offset (length (splitlines (before ++ (10 ∷ after))))
              (server_rows kit reading lines))
          (ap (drop (length (splitlines (before ++ (10 ∷ []))))) (splitlines-append before after)
            ∙ drop-length-append (splitlines (before ++ (10 ∷ []))) (splitlines after))

  -- A reading of the server's log gives the rows of exactly the lines that were added since the last
  -- one, as if they were the whole log, and its offset is the number of lines that are there now. This
  -- holds where the offset counts the lines up to the last line break that was there at the last
  -- reading, and no act of Mininet raises.
  pub collect_server_metrics_new_lines :
      Quiet kit
      → (reading : Reading) (before after : Text) (lab : Lab)
      → kit.answers (sleep kit 200_000_000 lab) (codes "server") (cat_log reading.protocol)
        ≡ before ++ (10 ∷ after)
      → (collect_server_metrics kit reading (length (splitlines (before ++ (10 ∷ [])))) lab).0
        ≡ with_offset
            (length (splitlines (before ++ (10 ∷ after))))
            (server_rows kit reading (splitlines after))
  unfolding collect_server_metrics host_cmd attempt
  collect_server_metrics_new_lines quiet reading before after lab e =
      rw (quiet (sleep kit 200_000_000 lab) (ran (codes "server") (cat_log reading.protocol)), e)
        (parse_server_metrics_log-append reading before after)
