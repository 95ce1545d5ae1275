-- ===== src/Workloads.antt =====
-- benchmarks/tests: the workloads of tests 1 to 3, and what each test runs.
pub mod Clean
pub mod Tagged
use Prim.Native.Nat.{min}
use zk_arche_compare.Base.{
  ℕ, zero, suc, ◌+◌, ◌*◌, Bool, true, false, Option, none, some, List, [], ◌∷◌, ◌++◌, Text, codes,
  text_eq, Result, ok, raised, Error, attribute_error, value_error, get_elem?, ◌==◌, if◌then◌else◌,
}
use zk_arche_compare.Floats.{Floats}
use zk_arche_compare.Strings.{lower, show_nat}
use zk_arche_compare.World.{FilePath, World, Io, Os, lift, pure, ◌>>=◌}
use zk_arche_compare.Runner.Server.{ms}
use zk_arche_compare.Runner.Client.{ClientResult, failure}
use zk_arche_compare.Runner.Batch.{
  Schedule, Factory, run_clients_concurrent, run_clients_sequential,
}
use zk_arche_compare.Results.{DevicePowerProfile, index}
use zk_arche_compare.Results.Summary.{SummaryRecord}
use zk_arche_compare.Protocols.{Config}
use zk_arche_compare.Driver.{TestContext, run_test}

-- The protocols that `main` runs, `none` where it prints its usage and returns 2.
unfoldable pub targets : List Text → Option (List Text)
unfolding text_eq lower
targets (program ∷ target ∷ more) = some (
    if text_eq (lower target) (codes "all")
    then codes "zkarche" ∷ codes "edhoc" ∷ codes "mtls" ∷ []
    else lower target ∷ [])
targets _ = none

module _ {F : Type 0} where
  -- `r.iteration = 0` and `r.client_id = i`, of which `None` has neither
  unfoldable pub tag : ℕ → List (Option (ClientResult F)) → Result (List (ClientResult F))
  tag i [] = ok []
  tag i (none ∷ results) = raised attribute_error
  tag i (some r ∷ results) = elim (tag (suc i) results) [
    | raised e ↦ raised e
    | ok out ↦ ok (record r { iteration = 0; client_id = i } ∷ out)
  ]

module _ (fl : Floats) (os : Os) (show_error : Error → Text) where
  open fl use {F}

  -- The directory of client `i`, its arguments and the program.
  unfoldable pub client_factory : TestContext → Factory
  client_factory ctx i = elim (index (get_elem? ctx.client_workdirs i)) [
    | raised e ↦ raised e
    | ok wd ↦ ok (ctx.protocol.client_bin, ctx.protocol.client_args wd, wd)
  ]

  -- Test 1: one authentication of each client, for the schedule of the pool from any world.
  unfoldable pub test1_workload : ℕ → (World → Schedule) → TestContext → Io (List (ClientResult F))
  unfolding tag client_factory
  test1_workload n schedule ctx w =
      (run_clients_concurrent fl show_error os (client_factory ctx) n 60 (some (min n 64))
            (schedule w)
          >>= λ results. lift (tag 0 results))
        w

  -- Test 2: authentications of one client.
  unfoldable pub test2_workload : ℕ → TestContext → Io (List (ClientResult F))
  test2_workload runs ctx = do
    wd ← lift (index (get_elem? ctx.client_workdirs 0))
    run_clients_sequential fl os ctx.protocol.client_bin (ctx.protocol.client_args wd) wd runs 30 0

  -- Test 3: the session of client `i`.
  unfoldable pub session : ℕ → TestContext → ℕ → Io (List (ClientResult F))
  unfolding client_factory
  session runs ctx i = do
    job ← lift (client_factory ctx i)
    run_clients_sequential fl os job.0 job.1 job.2 runs 60 i

  -- The results of a session, or the record of its exception.
  unfoldable pub settle_session : ℕ → Result (List (ClientResult F)) → List (ClientResult F)
  unfolding show_nat
  settle_session i (ok out) = out
  settle_session i (raised e) =
      failure 0 i (codes "session " ++ show_nat i ++ codes " crashed: " ++ show_error e) 0 ∷ []

  -- `for fut in as_completed(futs)`
  unfoldable pub gather_sessions :
      (ℕ → Result (List (ClientResult F))) → List ℕ → List (ClientResult F)
  unfolding settle_session
  gather_sessions outcome [] = []
  gather_sessions outcome (i ∷ order) =
      settle_session i (outcome i) ++ gather_sessions outcome order

  unfoldable pub test3_workload :
      ℕ → ℕ → (World → Schedule) → TestContext → Io (List (ClientResult F))
  unfolding session gather_sessions
  test3_workload n runs schedule ctx w =
      let s = schedule w in
      if min n 64 == 0
      then (raised value_error, w)
      else (ok (gather_sessions (λ i. (session runs ctx i (s.starts i)).0) s.order), s.after)

  -- `run_for_protocol` of the three tests, with the numbers of clients and runs of the configuration.
  module _ (config : Config) (host : Text) (profile : DevicePowerProfile F)
      (json_text : SummaryRecord F → Text) where
    unfoldable pub run_test1 : ℕ → (World → Schedule) → Text → Io (SummaryRecord F)
    unfolding test1_workload
    run_test1 n schedule protocol =
        run_test config fl os host profile json_text (codes "test1_concurrent") protocol n
          (test1_workload n schedule) (500 * ms)

    unfoldable pub run_test2 : ℕ → Text → Io (SummaryRecord F)
    run_test2 runs protocol =
        run_test config fl os host profile json_text (codes "test2_sequential") protocol 1
          (test2_workload runs) (500 * ms)

    unfoldable pub run_test3 : ℕ → ℕ → (World → Schedule) → Text → Io (SummaryRecord F)
    unfolding test3_workload
    run_test3 n runs schedule protocol =
        run_test config fl os host profile json_text (codes "test3_highload") protocol n
          (test3_workload n runs schedule) (500 * ms)
