-- ===== src/Mininet/Trials/Keeps.antt =====
-- The tests neither start nor stop a network.
use zk_arche_compare.Base.{ℕ, zero, suc, refl, List, [], ◌∷◌, Text, ok}
use zk_arche_compare.World.{FilePath}
use zk_arche_compare.Mininet.Lab.{Kit, communicated}
use zk_arche_compare.Mininet.Lab.Keeps.{
  Keeps, Keeps-pure, Keeps-lift, Keeps-each, Keeps-if, Keeps-test, keeps, running, sleep-Keeps,
  host_cmd-Keeps, host_open-Keeps, answer-Keeps,
}
use zk_arche_compare.Mininet.Shell.{host_popen}
use zk_arche_compare.Mininet.ServerLog.{collect_server_metrics}
use zk_arche_compare.Mininet.Clients.{Assignment}
use zk_arche_compare.Mininet.Enrol.Keeps.{perf_counter-Keeps, host_cmd_with_status-Keeps}
use zk_arche_compare.Mininet.Rows.{Cells}
use zk_arche_compare.Mininet.Csv.{write_csv}
use zk_arche_compare.Mininet.Batch.{
  Run, Launched, launch, communicate, finish, execute_concurrent_batch, run_repeated, run_single,
  run_singles, repeats, execute_sequential,
}
use zk_arche_compare.Mininet.Trials.{
  Bench, collect, run_test1, run_test2, run_test3, round_loop, run_tests,
}

module _ (kit : Kit) where
  host_popen-Keeps : (host cmd : Text) → Keeps (host_popen kit host cmd)
  unfolding host_popen
  host_popen-Keeps host cmd = search (keeps, host_open-Keeps)

  launch-Keeps :
      (protocol client_bin : Text) (i : ℕ) (clients : List Text) (rows : List (Assignment kit.fl.F))
      → Keeps (launch kit protocol client_bin i clients rows)
  unfolding launch
  launch-Keeps protocol client_bin i [] rows = Keeps-pure []
  launch-Keeps protocol client_bin i (c ∷ clients) [] = Keeps-lift _
  launch-Keeps protocol client_bin i (c ∷ clients) (a ∷ rows) =
      search
        (
          keeps,
          host_popen-Keeps,
          perf_counter-Keeps,
          launch-Keeps protocol client_bin (suc i) clients rows,
        )
        depth 12

  communicate-Keeps : (p : ℕ) → Keeps (communicate kit p)
  unfolding communicate running
  communicate-Keeps p = answer-Keeps kit (communicated p) (λ lab. kit.prints lab p) λ acts. refl

  finish-Keeps : (run : Run) (start : ℕ) (l : Launched kit.fl.F) → Keeps (finish kit run start l)
  unfolding finish
  finish-Keeps run start l = search (keeps, communicate-Keeps, perf_counter-Keeps) depth 12

  batch-Keeps :
      (run : Run) (client_bin : Text) (clients : List Text) (rows : List (Assignment kit.fl.F))
      → Keeps (execute_concurrent_batch kit run client_bin clients rows)
  unfolding execute_concurrent_batch
  batch-Keeps run client_bin clients rows =
      search (keeps, Keeps-each, launch-Keeps, finish-Keeps, perf_counter-Keeps) depth 12

  run_repeated-Keeps :
      (protocol client_bin client : Text) (a : Assignment kit.fl.F) (n : ℕ)
      → Keeps (run_repeated kit protocol client_bin client a n)
  unfolding run_repeated
  run_repeated-Keeps protocol client_bin client a n =
      search (keeps, host_cmd_with_status-Keeps, perf_counter-Keeps) depth 12

  run_single-Keeps :
      (protocol client_bin client : Text) (a : Assignment kit.fl.F) (i : ℕ)
      → Keeps (run_single kit protocol client_bin client a i)
  unfolding run_single
  run_single-Keeps protocol client_bin client a i =
      search (keeps, host_cmd_with_status-Keeps, perf_counter-Keeps) depth 12

  run_singles-Keeps :
      (protocol client_bin client : Text) (a : Assignment kit.fl.F) (n i : ℕ)
      → Keeps (run_singles kit protocol client_bin client a n i)
  unfolding run_singles
  run_singles-Keeps protocol client_bin client a zero i = Keeps-pure []
  run_singles-Keeps protocol client_bin client a (suc n) i =
      search (keeps, run_single-Keeps, run_singles-Keeps protocol client_bin client a n (suc i))
        depth 8

  sequential-Keeps :
      (protocol client_bin client : Text) (a : Assignment kit.fl.F) (n : ℕ)
      → Keeps (execute_sequential kit protocol client_bin client a n)
  unfolding execute_sequential
  sequential-Keeps protocol client_bin client a n =
      Keeps-test (repeats kit protocol) (run_repeated kit protocol client_bin client a n)
        (run_singles kit protocol client_bin client a n 1)
        (run_repeated-Keeps protocol client_bin client a n)
        (run_singles-Keeps protocol client_bin client a n 1)

  collect-Keeps : (b : Bench kit.fl.F) (run : Run) (offset : ℕ) → Keeps (collect kit b run offset)
  unfolding collect collect_server_metrics
  collect-Keeps b run offset = search (keeps, sleep-Keeps, host_cmd-Keeps) depth 12

  write_csv-Keeps :
      (path : FilePath) (rows : List (Cells kit.fl.F)) → Keeps (write_csv kit path rows)
  unfolding write_csv
  write_csv-Keeps path [] = search keeps
  write_csv-Keeps path (row ∷ rows) = search keeps depth 8

  run_test1-Keeps : (b : Bench kit.fl.F) (offset : ℕ) → Keeps (run_test1 kit b offset)
  unfolding run_test1
  run_test1-Keeps b offset = search (keeps, batch-Keeps, collect-Keeps, write_csv-Keeps) depth 14

  repeats-Keeps : (protocol : Text) → Keeps (λ lab. (ok (repeats kit protocol lab), lab))
  unfolding Keeps
  repeats-Keeps protocol lab = refl

  run_test2-Keeps : (b : Bench kit.fl.F) (offset : ℕ) → Keeps (run_test2 kit b offset)
  unfolding run_test2
  run_test2-Keeps b offset =
      search (keeps, sequential-Keeps, repeats-Keeps, collect-Keeps, write_csv-Keeps) depth 16

  round_loop-Keeps : (b : Bench kit.fl.F) (n i offset : ℕ) → Keeps (round_loop kit b n i offset)
  unfolding round_loop
  round_loop-Keeps b zero i offset = Keeps-pure _
  round_loop-Keeps b (suc n) i offset =
      search (keeps, batch-Keeps, collect-Keeps, round_loop-Keeps b n (suc i)) depth 12

  run_test3-Keeps : (b : Bench kit.fl.F) (offset : ℕ) → Keeps (run_test3 kit b offset)
  unfolding run_test3
  run_test3-Keeps b offset = search (keeps, round_loop-Keeps, write_csv-Keeps) depth 12

  pub run_tests-Keeps :
      (tests : List Text) (b : Bench kit.fl.F) (offset : ℕ) → Keeps (run_tests kit tests b offset)
  unfolding run_tests
  run_tests-Keeps tests b offset =
      search (keeps, Keeps-if, run_test1-Keeps, run_test2-Keeps, run_test3-Keeps) depth 12
