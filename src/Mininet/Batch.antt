-- ===== src/Mininet/Batch.antt =====
-- experiments/mininet/mininet_tests_123.py: the authentications of a concurrent batch and of the
-- sequential test.
pub mod Numbered
pub mod Iterations
use zk_arche_compare.Base.{
  ℕ, zero, suc, ◌+◌, ◌-◌, Bool, true, false, ◌&&◌, not, Option, none, some, List, [], ◌∷◌, ◌++◌,
  Text, codes, text_eq, Result, ok, raised, index_error, ◌==◌, get_elem?, if◌then◌else◌,
}
use zk_arche_compare.Strings.{show_nat}
use zk_arche_compare.World.{FilePath}
use zk_arche_compare.Mininet.Lab.{
  Kit, Lab, M, pure, raise, lift, ◌>>=◌, ◌>>◌, each, perf_counter, attempt, communicated,
}
use zk_arche_compare.Mininet.Profiles.{find, config_of}
use zk_arche_compare.Mininet.Shell.{
  quote, in_dir, zkenv, server_addr, client_auth_cmd, host_popen, host_cmd_with_status,
  parse_rc_output,
}
use zk_arche_compare.Mininet.Metrics.{
  ClientMetrics, no_metrics, parse_client_metrics, parse_all_client_metrics,
}
use zk_arche_compare.Mininet.ServerLog.{tail_of}
use zk_arche_compare.Mininet.Clients.{Assignment}
use zk_arche_compare.Mininet.Rows.{AuthRow, base_row, session_of, status_of, elapsed_ms}

-- Which rows a run of clients gives.
pub record Run : Type 0 where
  pub protocol : Text
  pub test_id : Text
  pub workload : Text
  pub round_index : ℕ

-- A client that has been started: its place in the batch, its process and the time.
pub record Launched (F : Type 0) : Type 0 where
  pub position : ℕ
  pub assignment : Assignment F
  pub process : ℕ
  pub start_time : ℕ

-- `Path(client_workdir).name`
abbrev pub last_name : FilePath → Text
last_name [] = []
last_name (name ∷ dir) = name

module _ (kit : Kit) where
  open kit use {fl, show_path}
  open fl use {F}

  unfoldable pub auth_command : Text → Text → Assignment F → Result Text
  unfolding client_auth_cmd
  auth_command protocol client_bin a =
      client_auth_cmd protocol client_bin (show_path a.client_workdir) (last_name a.client_workdir)

  unfoldable pub auth_row :
      Run → Assignment F → ℕ → ℕ × Text → ClientMetrics F → Option F → Option F → AuthRow F
  unfolding base_row session_of status_of tail_of
  auth_row run a iteration (rc, cleaned) metrics wall batch = record {
    base = base_row run.protocol run.test_id run.workload a iteration run.round_index iteration;
    session = session_of kit run.protocol a metrics;
    metrics = metrics;
    auth_wall_elapsed_ms = wall;
    batch_elapsed_ms = batch;
    status = status_of kit rc metrics;
    return_code = rc;
    stdout_tail = tail_of cleaned;
  }

  -- Every client is started before any is waited for.
  unfoldable pub launch : Text → Text → ℕ → List Text → List (Assignment F) → M (List (Launched F))
  launch protocol client_bin i [] assignments = pure []
  launch protocol client_bin i (client ∷ clients) [] = raise index_error
  launch protocol client_bin i (client ∷ clients) (a ∷ assignments) = do
    cmd ← lift (auth_command protocol client_bin a)
    p ← host_popen kit client cmd
    now ← perf_counter
    rest ← launch protocol client_bin (suc i) clients assignments
    pure (record { position = i; assignment = a; process = p; start_time = now } ∷ rest)

  -- `proc.communicate()`
  unfoldable pub communicate : ℕ → M Text
  communicate p lab = (attempt kit (communicated p) >>= λ _. pure (kit.prints lab p)) lab

  unfoldable pub finish : Run → ℕ → Launched F → M (AuthRow F)
  finish run batch_start l = do
    output ← communicate l.process
    now ← perf_counter
    metrics ← lift (parse_client_metrics kit (parse_rc_output output).1)
    pure (
        auth_row run l.assignment (l.position + 1) (parse_rc_output output) metrics
          (some (elapsed_ms kit l.start_time now)) (some (elapsed_ms kit batch_start now)))

  unfoldable pub execute_concurrent_batch :
      Run → Text → List Text → List (Assignment F) → M (List (AuthRow F))
  execute_concurrent_batch run client_bin clients assignments = do
    batch_start ← perf_counter
    launched ← launch run.protocol client_bin 0 clients assignments
    each (finish run batch_start) launched

  abbrev pub sequential_run : Text → Run
  sequential_run protocol = record {
    protocol = protocol;
    test_id = codes "2";
    workload = codes "sequential";
    round_index = 1;
  }

  -- The client runs once and authenticates so many times.
  unfoldable pub repeat_command : Text → Text → Assignment F → ℕ → Text
  unfolding in_dir quote show_nat
  repeat_command addr client_bin a iterations = in_dir (show_path a.client_workdir) (
      zkenv
      ++ quote client_bin
      ++ codes " --server "
      ++ addr
      ++ codes " --repeat "
      ++ show_nat iterations)

  unfoldable pub metrics_or : Option (ClientMetrics F) → ClientMetrics F
  unfolding no_metrics
  metrics_or none = no_metrics
  metrics_or (some m) = m

  -- So many rows are left; the time of the whole run is in the last one.
  unfoldable pub repeat_rows :
      Text → Assignment F → List (ClientMetrics F) → ℕ × Text → F → ℕ → ℕ → List (AuthRow F)
  unfolding metrics_or auth_row
  repeat_rows protocol a metric_rows out elapsed zero iteration = []
  repeat_rows protocol a metric_rows out elapsed (suc n) iteration =
      let time : Option F = if n == 0 then some elapsed else none in
      auth_row (sequential_run protocol) a iteration out
        (metrics_or (get_elem? metric_rows (iteration - 1))) time time
      ∷ repeat_rows protocol a metric_rows out elapsed n (suc iteration)

  unfoldable pub run_repeated : Text → Text → Text → Assignment F → ℕ → M (List (AuthRow F))
  run_repeated protocol client_bin client a iterations = do
    cfg ← lift (config_of protocol)
    start ← perf_counter
    out ← host_cmd_with_status kit client (repeat_command (server_addr cfg) client_bin a iterations)
    now ← perf_counter
    metric_rows ← lift (parse_all_client_metrics kit out.1)
    pure (repeat_rows protocol a metric_rows out (elapsed_ms kit start now) iterations 1)

  unfoldable pub run_single : Text → Text → Text → Assignment F → ℕ → M (AuthRow F)
  run_single protocol client_bin client a iteration = do
    cmd ← lift (auth_command protocol client_bin a)
    start ← perf_counter
    out ← host_cmd_with_status kit client cmd
    now ← perf_counter
    metrics ← lift (parse_client_metrics kit out.1)
    pure (
        auth_row (sequential_run protocol) a iteration out metrics (some (elapsed_ms kit start now))
          (some (elapsed_ms kit start now)))

  unfoldable pub run_singles : Text → Text → Text → Assignment F → ℕ → ℕ → M (List (AuthRow F))
  run_singles protocol client_bin client a zero iteration = pure []
  run_singles protocol client_bin client a (suc n) iteration = do
    row ← run_single protocol client_bin client a iteration
    rest ← run_singles protocol client_bin client a n (suc iteration)
    pure (row ∷ rest)

  -- `os.environ.get("ZKARCHE_CLIENT_REPEAT", "1") != "0"`
  abbrev is_not_off : Option Text → Bool
  is_not_off none = true
  is_not_off (some v) = not (text_eq v (codes "0"))

  unfoldable pub repeats : Text → Lab → Bool
  unfolding find text_eq
  repeats protocol lab =
      text_eq protocol (codes "zkarche")
      && is_not_off (find (codes "ZKARCHE_CLIENT_REPEAT") lab.environ)

  unfoldable pub execute_sequential : Text → Text → Text → Assignment F → ℕ → M (List (AuthRow F))
  execute_sequential protocol client_bin client a iterations lab =
      if repeats protocol lab
      then run_repeated protocol client_bin client a iterations lab
      else run_singles protocol client_bin client a iterations 1 lab
