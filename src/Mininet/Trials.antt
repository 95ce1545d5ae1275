-- ===== src/Mininet/Trials.antt =====
-- experiments/mininet/mininet_tests_123.py: the three tests of a protocol over a network that runs.
pub mod Keeps
use zk_arche_compare.Base.{
  ℕ, zero, suc, Bool, true, false, List, [], ◌∷◌, ◌++◌, Text, codes, map, Result, ok, raised,
  index_error, if◌then◌else◌,
}
use zk_arche_compare.World.{FilePath}
use zk_arche_compare.Mininet.Lab.{Kit, M, pure, lift, ◌>>=◌, ◌>>◌}
use zk_arche_compare.Mininet.ServerLog.{Reading, collect_server_metrics}
use zk_arche_compare.Mininet.Clients.{Assignment}
use zk_arche_compare.Mininet.Prepare.{member}
use zk_arche_compare.Mininet.Rows.{
  AuthRow, ServerResult, auth_cells, repeat_cells, server_cells, server_results, Cells,
}
use zk_arche_compare.Mininet.Csv.{write_csv}
use zk_arche_compare.Mininet.Batch.{Run, execute_concurrent_batch, execute_sequential, repeats}

-- What every test of a protocol is given.
pub record Bench (F : Type 0) : Type 0 where
  pub protocol : Text
  pub client_bin : Text
  pub clients : List Text
  pub assignments : List (Assignment F)
  pub iterations : ℕ
  pub results_dir : FilePath

module _ (kit : Kit) where
  open kit use {fl}
  open fl use {F}

  unfoldable pub reading_of : Run → Reading
  reading_of run = record {
    protocol = run.protocol;
    test_id = run.test_id;
    workload = run.workload;
    round_index = run.round_index;
  }

  -- The rows of the server since the last reading, with the offset for the next.
  unfoldable pub collect : Bench F → Run → ℕ → M (List (ServerResult F) × ℕ)
  collect b run offset = do
    read ← collect_server_metrics kit (reading_of run) offset
    pure (server_results kit run.protocol b.assignments read.0, read.1)

  -- `{protocol}_{name}.csv` in the directory of the results
  unfoldable pub result_path : Bench F → Text → FilePath
  result_path b name = (b.protocol ++ codes "_" ++ name ++ codes ".csv") ∷ b.results_dir

  -- A test takes and gives the offset in the log of the server.
  unfoldable pub run_test1 : Bench F → ℕ → M ℕ
  run_test1 b offset = do
    let run : Run = record {
      protocol = b.protocol;
      test_id = codes "1";
      workload = codes "concurrent";
      round_index = 1;
    }
    rows ← execute_concurrent_batch kit run b.client_bin b.clients b.assignments
    write_csv kit (result_path b (codes "test1_concurrent")) (map auth_cells rows)
    read ← collect b run offset
    write_csv kit (result_path b (codes "test1_concurrent_server")) (map server_cells read.0)
    pure read.1

  -- `clients[0]` and `assignments[0]`
  unfoldable pub first_client : List Text → List (Assignment F) → Result (Text × Assignment F)
  first_client [] assignments = raised index_error
  first_client (client ∷ clients) [] = raised index_error
  first_client (client ∷ clients) (a ∷ assignments) = ok (client, a)

  -- The order of the columns with `--repeat`, and without.
  unfoldable pub sequential_cells : Bool → AuthRow F → Cells F
  unfolding repeat_cells auth_cells
  sequential_cells true r = repeat_cells r
  sequential_cells false r = auth_cells r

  unfoldable pub run_test2 : Bench F → ℕ → M ℕ
  run_test2 b offset = do
    let run : Run = record {
      protocol = b.protocol;
      test_id = codes "2";
      workload = codes "sequential";
      round_index = 1;
    }
    one ← lift (first_client b.clients b.assignments)
    rows ← execute_sequential kit b.protocol b.client_bin one.0 one.1 b.iterations
    repeated ← λ lab. (ok (repeats kit b.protocol lab), lab)
    write_csv kit (result_path b (codes "test2_sequential")) (map (sequential_cells repeated) rows)
    read ← collect b run offset
    write_csv kit (result_path b (codes "test2_sequential_server")) (map server_cells read.0)
    pure read.1

  abbrev round_run : Text → ℕ → Run
  round_run protocol i = record {
    protocol = protocol;
    test_id = codes "3";
    workload = codes "high_load";
    round_index = i;
  }

  -- So many rounds are left: the rows of the clients and of the server, and the offset.
  unfoldable pub round_loop : Bench F → ℕ → ℕ → ℕ → M (List (AuthRow F) × List (ServerResult F) × ℕ)
  round_loop b zero i offset = pure ([], [], offset)
  round_loop b (suc n) i offset = do
    rows ←
        execute_concurrent_batch kit (round_run b.protocol i) b.client_bin b.clients b.assignments
    read ← collect b (round_run b.protocol i) offset
    rest ← round_loop b n (suc i) read.1
    pure (rows ++ rest.0, read.0 ++ rest.1, rest.2)

  unfoldable pub run_test3 : Bench F → ℕ → M ℕ
  run_test3 b offset = do
    all ← round_loop b b.iterations 1 offset
    write_csv kit (result_path b (codes "test3_high_load")) (map auth_cells all.0)
    write_csv kit (result_path b (codes "test3_high_load_server")) (map server_cells all.1)
    pure all.2

  -- The test runs if it is selected.
  abbrev if_selected : Text → List Text → (ℕ → M ℕ) → ℕ → M ℕ
  if_selected test tests run offset = if member test tests then run offset else pure offset

  unfoldable pub run_tests : List Text → Bench F → ℕ → M ℕ
  run_tests tests b offset = do
    offset1 ← if_selected (codes "1") tests (run_test1 b) offset
    offset2 ← if_selected (codes "2") tests (run_test2 b) offset1
    if_selected (codes "3") tests (run_test3 b) offset2
