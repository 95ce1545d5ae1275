-- ===== src/Runner/Client.antt =====
-- benchmarks/lib/runner.py: one run of a client.
pub mod Outcome
use zk_arche_compare.Base.{
  ℕ, ◌+◌, ◌-◌, ◌*◌, ◌/◌, ◌%◌, Bool, true, false, ◌||◌, not, Option, none, some, List, [], ◌∷◌, ◌++◌,
  Text, codes, text_eq, Result, ok, raised, ◌==◌, is_some, if◌then◌else◌,
}
use zk_arche_compare.Floats.{Floats}
use zk_arche_compare.Strings.{show_nat, last_chars}
use zk_arche_compare.Parse.{MetricsLine, first_client_metrics}
use zk_arche_compare.World.{
  FilePath, World, Io, Os, pure, ◌>>=◌, ◌>>◌, monotonic, run_process, Command, Completion,
  timed_out, completed, update_env,
}
use zk_arche_compare.World.Files.{mkdirs}
use zk_arche_compare.Runner.Server.{ms}

-- `elapsed_wall_s` is counted in nanoseconds.
pub record ClientResult (F : Type 0) : Type 0 where
  pub iteration : ℕ
  pub client_id : ℕ
  pub success : Bool
  pub duration_ms : Option F
  pub sent_bytes : Option ℕ
  pub recv_bytes : Option ℕ
  pub stderr_tail : Text
  pub elapsed_ns : ℕ

module _ {F : Type 0} where
  -- A result with no metrics.
  abbrev pub failure : ℕ → ℕ → Text → ℕ → ClientResult F
  failure iteration client_id tail elapsed = record {
    iteration = iteration;
    client_id = client_id;
    success = false;
    duration_ms = none;
    sent_bytes = none;
    recv_bytes = none;
    stderr_tail = tail;
    elapsed_ns = elapsed;
  }

  -- The exit status was not 0, or there is no metric line: what was read is kept.
  unfoldable pub failed_with : ℕ → ℕ → Text → ℕ → Option (MetricsLine F) → ClientResult F
  failed_with iteration client_id tail elapsed none = failure iteration client_id tail elapsed
  failed_with iteration client_id tail elapsed (some m) = record {
    iteration = iteration;
    client_id = client_id;
    success = false;
    duration_ms = some m.duration_ms;
    sent_bytes = some m.sent_bytes;
    recv_bytes = some m.recv_bytes;
    stderr_tail = tail;
    elapsed_ns = elapsed;
  }

  unfoldable pub succeeded_with : ℕ → ℕ → ℕ → MetricsLine F → ClientResult F
  succeeded_with iteration client_id elapsed m = record {
    iteration = iteration;
    client_id = client_id;
    success = true;
    duration_ms = some m.duration_ms;
    sent_bytes = some m.sent_bytes;
    recv_bytes = some m.recv_bytes;
    stderr_tail = [];
    elapsed_ns = elapsed;
  }

module _ (fl : Floats) where
  open fl use {F}

  unfoldable pub judge : ℕ → ℕ → ℕ → Text → Text → ℕ → Option (MetricsLine F) → ClientResult F
  unfolding failed_with succeeded_with
  judge iteration client_id status stdout stderr elapsed none =
      failed_with iteration client_id
        (last_chars 500 (if text_eq stderr [] then stdout else stderr)) elapsed none
  judge iteration client_id status stdout stderr elapsed (some m) =
      if not (status == 0)
      then failed_with iteration client_id
          (last_chars 500 (if text_eq stderr [] then stdout else stderr)) elapsed (some m)
      else succeeded_with iteration client_id elapsed m

  unfoldable pub client_result : ℕ → ℕ → Text → ℕ → Completion → ClientResult F
  unfolding judge
  client_result iteration client_id limit elapsed timed_out =
      failure iteration client_id (codes "TIMEOUT after " ++ limit ++ codes "s") elapsed
  client_result iteration client_id limit elapsed (completed status stdout stderr) =
      judge iteration client_id status stdout stderr elapsed (first_client_metrics fl stdout)

  module _ (os : Os) where
    -- `timeout_s` is a whole number of seconds and prints as Python prints the float, `30.0`.
    unfoldable pub run_client_once :
        FilePath → List Text → FilePath → ℕ → ℕ → ℕ → List (Text × Text) → Io (ClientResult F)
    unfolding run_process update_env
    run_client_once binary args workdir timeout_s iteration client_id env = do
      mkdirs workdir
      t0 ← monotonic
      cp ←
          run_process os
            (record {
              binary = binary;
              args = args;
              cwd = workdir;
              env = update_env os.environ env;
            })
            (timeout_s * 1000 * ms)
      now ← monotonic
      pure (client_result iteration client_id (show_nat timeout_s ++ codes ".0") (now - t0) cp)
