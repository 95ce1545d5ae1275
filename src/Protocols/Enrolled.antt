-- ===== src/Protocols/Enrolled.antt =====
-- What the calls that prepare a run leave as it was.
use zk_arche_compare.Base.{ℕ, refl, Bool, ◌||◌, not, List, [], ◌∷◌, Text, codes, arith}
use zk_arche_compare.Floats.{Floats}
use zk_arche_compare.World.{FilePath, Os, run_process, Command}
use zk_arche_compare.World.Files.{mkdirs, exists}
use zk_arche_compare.World.Keeps.{Keeps, Keeps-bind, log_of, mkdirs-Keeps-log, rmtree-Keeps-log}
use zk_arche_compare.Runner.Server.{ServerHandle}
use zk_arche_compare.Runner.Client.{run_client_once}
use zk_arche_compare.Protocols.{
  Config, wipe, insist, ensure_mtls_certs, enroll_one, enroll_zkarche_clients,
}

run_process-Keeps-log : (os : Os) (c : Command) (limit : ℕ) → Keeps log_of (run_process os c limit)
unfolding run_process
run_process-Keeps-log os c limit w = ground arith

module _ (fl : Floats) (os : Os) where
  pub run_client_once-Keeps-log :
      (binary : FilePath) (args : List Text) (workdir : FilePath)
      (timeout_s iteration client_id : ℕ) (env : List (Text × Text))
      → Keeps log_of (run_client_once fl os binary args workdir timeout_s iteration client_id env)
  unfolding run_client_once
  run_client_once-Keeps-log binary args workdir timeout_s iteration client_id env =
      Keeps-bind log_of (mkdirs workdir) _ (mkdirs-Keeps-log workdir) λ _ w.
        Keeps-bind log_of (run_process os _ _) _ (run_process-Keeps-log os _ _) (λ _ w. refl) w

module _ (config : Config) (os : Os) where
  pub ensure_mtls_certs-Keeps-log :
      (root : FilePath) → Keeps log_of (ensure_mtls_certs config os root)
  unfolding ensure_mtls_certs run_process
  ensure_mtls_certs-Keeps-log root w = ground arith

  module _ (fl : Floats) where
    wipe-Keeps-log : (p : FilePath) → Keeps log_of (wipe config os fl p)
    unfolding exists
    wipe-Keeps-log p w = ground (arith, rmtree-Keeps-log p w)

    insist-Keeps-log : (b : Bool) → Keeps log_of (insist config os fl b)
    insist-Keeps-log b w = ground arith

    enroll_one-Keeps-log :
        (server : ServerHandle) (token : Text) (wd : FilePath)
        → Keeps log_of (enroll_one config os fl server token wd)
    unfolding enroll_one
    enroll_one-Keeps-log server token wd =
        Keeps-bind log_of (wipe config os fl (codes "state" ∷ wd)) _
          (wipe-Keeps-log (codes "state" ∷ wd))
          λ _.
            Keeps-bind log_of (run_client_once fl os config.zkarche_client _ wd 30 0 0 []) _
              (run_client_once-Keeps-log fl os config.zkarche_client _ wd 30 0 0 []) λ _ w. refl

    pub enroll-Keeps-log :
        (server : ServerHandle) (wds : List FilePath) (token : Text) (strict : Bool) (done : ℕ)
        → Keeps log_of (enroll_zkarche_clients config os fl server wds token strict done)
    unfolding enroll_zkarche_clients
    enroll-Keeps-log server [] token strict done = λ w. refl
    enroll-Keeps-log server (wd ∷ wds) token strict done =
        Keeps-bind log_of (enroll_one config os fl server token wd) _
          (enroll_one-Keeps-log server token wd)
          λ enrolled.
            Keeps-bind log_of (insist config os fl (enrolled || not strict)) _
              (insist-Keeps-log (enrolled || not strict))
              (λ _. enroll-Keeps-log server wds token strict _)
