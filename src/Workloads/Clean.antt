-- ===== src/Workloads/Clean.antt =====
-- Test 2 leaves no server process behind, and sessions lose no result.
use zk_arche_compare.Base.{
  ℕ, zero, suc, ◌+◌, ◌*◌, ◌≡◌, refl, ap, List, [], Text, codes, Error, get_elem?,
}
use zk_arche_compare.Floats.{Floats}
use zk_arche_compare.World.{FilePath, World, Os, lift}
use zk_arche_compare.World.Live.{live}
use zk_arche_compare.World.Keeps.{Keeps, Keeps-bind, log_of}
use zk_arche_compare.Runner.Server.{ms}
use zk_arche_compare.Runner.Client.{run_client_once}
use zk_arche_compare.Runner.Batch.{sequential_loop, run_clients_sequential}
use zk_arche_compare.Results.{DevicePowerProfile, index}
use zk_arche_compare.Results.Summary.{SummaryRecord}
use zk_arche_compare.Protocols.{Config}
use zk_arche_compare.Protocols.Enrolled.{run_client_once-Keeps-log}
use zk_arche_compare.Driver.{TestContext}
use zk_arche_compare.Driver.Clean.{run_test-leaves_no_server}
use zk_arche_compare.Workloads.{test2_workload, run_test2}

module _ (fl : Floats) (os : Os) where
  open fl use {F}

  sequential_loop-Keeps-log :
      (binary : FilePath) (args : List Text) (workdir : FilePath) (timeout_s client_id left i : ℕ)
      → Keeps log_of (sequential_loop fl os binary args workdir timeout_s client_id left i)
  unfolding sequential_loop
  sequential_loop-Keeps-log binary args workdir timeout_s client_id zero i = λ w. refl
  sequential_loop-Keeps-log binary args workdir timeout_s client_id (suc left) i =
      Keeps-bind log_of (run_client_once fl os binary args workdir timeout_s i client_id []) _
        (run_client_once-Keeps-log fl os binary args workdir timeout_s i client_id [])
        λ r.
          Keeps-bind log_of
            (sequential_loop fl os binary args workdir timeout_s client_id left (i + 1)) _
            (sequential_loop-Keeps-log binary args workdir timeout_s client_id left (i + 1))
            λ _ w. refl

  sequential-Keeps-log :
      (binary : FilePath) (args : List Text) (workdir : FilePath) (runs timeout_s client_id : ℕ)
      → Keeps log_of (run_clients_sequential fl os binary args workdir runs timeout_s client_id)
  unfolding run_clients_sequential
  sequential-Keeps-log binary args workdir runs timeout_s client_id =
      sequential_loop-Keeps-log binary args workdir timeout_s client_id runs 0

  module _ (show_error : Error → Text) where
    test2_workload-Keeps-log :
        (runs : ℕ) (ctx : TestContext) → Keeps log_of (test2_workload fl os show_error runs ctx)
    unfolding test2_workload
    test2_workload-Keeps-log runs ctx =
        Keeps-bind log_of (lift (index (get_elem? ctx.client_workdirs 0))) _ (λ w. refl)
          λ wd.
            sequential-Keeps-log ctx.protocol.client_bin (ctx.protocol.client_args wd) wd runs 30 0

    module _ (config : Config) (host : Text) (profile : DevicePowerProfile F)
        (json_text : SummaryRecord F → Text) where
      -- Whatever the machine answers and however it ends, test 2 of any protocol leaves running
      -- exactly the processes that ran before it.
      pub run_test2-leaves_no_server :
          (runs : ℕ) (protocol : Text) (w : World)
          → live (run_test2 fl os show_error config host profile json_text runs protocol w).1.log
            ≡ live w.log
      unfolding run_test2
      run_test2-leaves_no_server runs protocol w =
          run_test-leaves_no_server config fl os host profile json_text (codes "test2_sequential")
            protocol 1 (test2_workload fl os show_error runs) (500 * ms) w
            λ ctx v. ap live (test2_workload-Keeps-log runs ctx v)
