-- ===== src/Mininet/Batch/Iterations.antt =====
-- One row for each iteration of the sequential test, with `--repeat` and without.
use zk_arche_compare.Base.{ℕ, zero, suc, refl, sym, List, [], ◌∷◌, Text, Bool-cases, inl, inr}
use mathlib.Core.Path.{subst}
use zk_arche_compare.Strings.{strip}
use zk_arche_compare.Mininet.Lab.{Kit, Lab, host_cmd}
use zk_arche_compare.Mininet.Lab.Returns.{Returns, Returns-continue, Quiet, host_cmd-Returns}
use zk_arche_compare.Mininet.Profiles.{config_of}
use zk_arche_compare.Mininet.Shell.{
  parse_rc_output, wrapped_shell_cmd, host_cmd_with_status, server_addr,
}
use zk_arche_compare.Mininet.Metrics.{ClientMetrics, parse_client_metrics, parse_all_client_metrics}
use zk_arche_compare.Mininet.Clients.{Assignment}
use zk_arche_compare.Mininet.Rows.{AuthRow, base_row}
use zk_arche_compare.Mininet.Batch.{
  Run, sequential_run, auth_command, auth_row, repeat_rows, repeat_command, run_repeated,
  run_single, run_singles, repeats, execute_sequential,
}
use zk_arche_compare.Mininet.Batch.Numbered.{IsRow, HasCommand}

module _ (kit : Kit) where
  open kit use {fl}
  open fl use {F}

  -- The rows of so many iterations, counted from the given one.
  abbrev pub AreIterations : Run → Assignment F → ℕ → ℕ → List (AuthRow F) → Type 0
  AreIterations run a i zero [] = Unit
  AreIterations run a i zero (r ∷ rows) = ⊥
  AreIterations run a i (suc n) [] = ⊥
  AreIterations run a i (suc n) (r ∷ rows) =
      IsRow kit run i a r × AreIterations run a (suc i) n rows

  abbrev Clean : ℕ × Text → Type 0
  Clean out =
      Returns (λ m. Unit {0}) (parse_client_metrics kit out.1)
      × Returns (λ m. Unit {0}) (parse_all_client_metrics kit out.1)

  -- Every output of a command can be read: no line has a duration that is no number.
  abbrev pub AnswersReadable : Type 0
  AnswersReadable =
      (lab : Lab) (host command : Text)
      → Clean (parse_rc_output (strip (kit.answers lab host command)))

  command-Clean :
      Quiet kit
      → AnswersReadable
      → (host cmd : Text) (lab : Lab) → Returns Clean (host_cmd_with_status kit host cmd lab).0
  unfolding host_cmd_with_status
  command-Clean quiet readable host cmd lab =
      Returns-continue _ _ (host_cmd kit host (wrapped_shell_cmd cmd) lab).0 _ _
        (host_cmd-Returns kit quiet host (wrapped_shell_cmd cmd) lab)
        λ out e.
          subst (λ t. Clean (parse_rc_output (strip t))) (sym e)
            (readable lab host (wrapped_shell_cmd cmd))

  repeat_rows-AreIterations :
      (protocol : Text) (a : Assignment F) (ms : List (ClientMetrics F)) (out : ℕ × Text)
      (elapsed : F) (n i : ℕ)
      → AreIterations
          (sequential_run kit protocol)
          a
          i
          n
          (repeat_rows kit protocol a ms out elapsed n i)
  unfolding repeat_rows auth_row base_row
  repeat_rows-AreIterations protocol a ms out elapsed zero i = tt
  repeat_rows-AreIterations protocol a ms out elapsed (suc n) i = (
    record { numbered = (refl, refl); of_round = refl; of_client = refl; judged = refl },
    repeat_rows-AreIterations protocol a ms out elapsed n (suc i),
  )

  run_repeated-AreIterations :
      Quiet kit
      → AnswersReadable
      → (protocol client_bin client : Text) (a : Assignment F) (n : ℕ) (lab : Lab)
      → Returns (λ cfg. Unit {0}) (config_of protocol)
      → Returns
          (AreIterations (sequential_run kit protocol) a 1 n)
          (run_repeated kit protocol client_bin client a n lab).0
  unfolding run_repeated
  run_repeated-AreIterations quiet readable protocol client_bin client a n lab known =
      Returns-continue _ _ (config_of protocol) _ lab known λ cfg _.
        Returns-continue _ _
          (host_cmd_with_status kit client (repeat_command kit (server_addr cfg) client_bin a n)
            lab).0
          _ _
          (command-Clean quiet readable client (repeat_command kit (server_addr cfg) client_bin a n)
            lab)
          λ out clean.
            Returns-continue _ _ (parse_all_client_metrics kit out.1) _ _ clean.1
              λ ms _. repeat_rows-AreIterations protocol a ms out _ n 1

  run_single-IsRow :
      Quiet kit
      → AnswersReadable
      → (protocol client_bin client : Text) (a : Assignment F) (i : ℕ) (lab : Lab)
      → HasCommand kit protocol client_bin
      → Returns
          (IsRow kit (sequential_run kit protocol) i a)
          (run_single kit protocol client_bin client a i lab).0
  unfolding run_single auth_row base_row
  run_single-IsRow quiet readable protocol client_bin client a i lab known =
      Returns-continue _ _ (auth_command kit protocol client_bin a) _ lab (known a) λ cmd _.
        Returns-continue _ _ (host_cmd_with_status kit client cmd lab).0 _ _
          (command-Clean quiet readable client cmd lab)
          λ out clean. Returns-continue _ _ (parse_client_metrics kit out.1) _ _ clean.0 λ m _.
            record { numbered = (refl, refl); of_round = refl; of_client = refl; judged = refl }

  run_singles-AreIterations :
      Quiet kit
      → AnswersReadable
      → (protocol client_bin client : Text) (a : Assignment F) (n i : ℕ) (lab : Lab)
      → HasCommand kit protocol client_bin
      → Returns
          (AreIterations (sequential_run kit protocol) a i n)
          (run_singles kit protocol client_bin client a n i lab).0
  unfolding run_singles
  run_singles-AreIterations quiet readable protocol client_bin client a zero i lab known = tt
  run_singles-AreIterations quiet readable protocol client_bin client a (suc n) i lab known =
      Returns-continue _ _ (run_single kit protocol client_bin client a i lab).0 _ _
        (run_single-IsRow quiet readable protocol client_bin client a i lab known)
        λ r h.
          Returns-continue _ _
            (run_singles kit protocol client_bin client a n (suc i)
              (run_single kit protocol client_bin client a i lab).1).0
            _ _
            (run_singles-AreIterations quiet readable protocol client_bin client a n (suc i) _
              known)
            λ rows hs. (h, hs)

  -- The sequential test returns one row for each iteration, numbered from 1, of the one client, in
  -- round 1, with the status for the exit status and the metrics of the row, whether the client is run
  -- once with `--repeat` or once for each iteration. This holds where no act of Mininet raises, no
  -- output has a duration that is no number, and the protocol is known and has a command for each
  -- client.
  pub execute_sequential-AreIterations :
      Quiet kit
      → AnswersReadable
      → (protocol client_bin client : Text) (a : Assignment F) (n : ℕ) (lab : Lab)
      → HasCommand kit protocol client_bin
      → Returns (λ cfg. Unit {0}) (config_of protocol)
      → Returns
          (AreIterations (sequential_run kit protocol) a 1 n)
          (execute_sequential kit protocol client_bin client a n lab).0
  unfolding execute_sequential
  execute_sequential-AreIterations quiet readable protocol client_bin client a n lab known cfg =
      elim (Bool-cases (repeats kit protocol lab)) [
        | inl e ↦
            rw e (run_repeated-AreIterations quiet readable protocol client_bin client a n lab cfg)
        | inr e ↦
            rw e
              (run_singles-AreIterations quiet readable protocol client_bin client a n 1 lab known)
      ]
