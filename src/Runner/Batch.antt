-- ===== src/Runner/Batch.antt =====
-- benchmarks/lib/runner.py: many client runs, in parallel or one after the other.
pub mod Order
pub mod Numbered
use Prim.Native.Nat.{min}
use zk_arche_compare.Base.{
  ℕ, zero, suc, ◌+◌, Bool, true, false, Option, none, some, List, [], ◌∷◌, ◌++◌, Text, codes,
  Result, ok, raised, Error, value_error, set, replicate, ◌==◌, if◌then◌else◌,
}
use zk_arche_compare.Floats.{Floats}
use zk_arche_compare.World.{FilePath, World, Io, Os, pure, lift, ◌>>=◌}
use zk_arche_compare.Runner.Client.{ClientResult, failure, run_client_once}

-- How a pool of threads ran its tasks: the world from which each task started, the order in which
-- `as_completed` gave the futures, and the world in the end.
pub record Schedule : Type 0 where
  pub starts : ℕ → World
  pub order : List ℕ
  pub after : World

-- `max_workers or min(n, 64)`
unfoldable pub pool_size : Option ℕ → ℕ → ℕ
pool_size none n = min n 64
pool_size (some zero) n = min n 64
pool_size (some (suc k)) n = suc k

-- `factory(i)`: the binary, the arguments and the working directory of client `i`.
abbrev pub Factory : Type 0
Factory = ℕ → Result (FilePath × List Text × FilePath)

module _ (fl : Floats) (show_error : Error → Text) where
  open fl use {F}

  -- The result of a future, or the record of its exception. The factories of the program and the runs
  -- of clients raise no `SystemExit`, which `except Exception` would let pass.
  unfoldable pub settle : ℕ → Result (ClientResult F) → ClientResult F
  settle i (ok r) = r
  settle i (raised e) = failure 0 i (codes "runner exception: " ++ show_error e) 0

  -- The loop over `as_completed(futs)`.
  unfoldable pub gather :
      (ℕ → Result (ClientResult F))
      → List ℕ
      → List (Option (ClientResult F))
      → List (Option (ClientResult F))
  unfolding settle
  gather outcome [] results = results
  gather outcome (i ∷ order) results =
      gather outcome order (set results i (some (settle i (outcome i))))

  module _ (os : Os) where
    -- `_run(i)`
    unfoldable pub run_task : Factory → ℕ → ℕ → Io (ClientResult F)
    run_task factory timeout_s i = do
      job ← lift (factory i)
      run_client_once fl os job.0 job.1 job.2 timeout_s 0 i []

    abbrev pub task_outcome : Factory → ℕ → Schedule → ℕ → Result (ClientResult F)
    task_outcome factory timeout_s s i = (run_task factory timeout_s i (s.starts i)).0

    -- A pool of no threads is a `ValueError`.
    unfoldable pub run_clients_concurrent :
        Factory → ℕ → ℕ → Option ℕ → Schedule → Io (List (Option (ClientResult F)))
    unfolding pool_size
    run_clients_concurrent factory n_clients timeout_s max_workers s w =
        if pool_size max_workers n_clients == 0 then (raised value_error, w) else (
          ok (gather (task_outcome factory timeout_s s) s.order (replicate n_clients none)),
          s.after,
        )

module _ (fl : Floats) (os : Os) where
  open fl use {F}

  -- `for i in range(runs)`: the runs left, and the number of the next.
  unfoldable pub sequential_loop :
      FilePath → List Text → FilePath → ℕ → ℕ → ℕ → ℕ → Io (List (ClientResult F))
  sequential_loop binary args workdir timeout_s client_id zero i = pure []
  sequential_loop binary args workdir timeout_s client_id (suc left) i = do
    r ← run_client_once fl os binary args workdir timeout_s i client_id []
    out ← sequential_loop binary args workdir timeout_s client_id left (i + 1)
    pure (r ∷ out)

  unfoldable pub run_clients_sequential :
      FilePath → List Text → FilePath → ℕ → ℕ → ℕ → Io (List (ClientResult F))
  unfolding sequential_loop
  run_clients_sequential binary args workdir runs timeout_s client_id =
      sequential_loop binary args workdir timeout_s client_id runs 0
