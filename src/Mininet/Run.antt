-- ===== src/Mininet/Run.antt =====
-- experiments/mininet/mininet_tests_123.py: the tests of a protocol over its network, and the program.
pub mod Down
pub mod Ended
use zk_arche_compare.Base.{
  ℕ, zero, suc, ◌+◌, Bool, true, false, Option, none, some, List, [], ◌∷◌, ◌++◌, Text, codes,
  text_eq, map, Result, ok, raised, index_error, key_error, length, if◌then◌else◌,
}
use zk_arche_compare.Strings.{splitlines}
use zk_arche_compare.World.{FilePath}
use zk_arche_compare.World.Files.{exists, mkdirs, rmtree}
use zk_arche_compare.Mininet.Lab.{
  Kit, Lab, M, pure, raise, lift, files, act, when, ignored, ◌>>=◌, ◌>>◌, perform, attempt, started,
  stopped, seeded, host_cmd, set_environ,
}
use zk_arche_compare.Mininet.Profiles.{
  config_of, ProtocolConfig, find, found, default_clients, default_iterations, default_workdir,
  default_results_dir,
}
use zk_arche_compare.Mininet.Shell.{quote}
use zk_arche_compare.Mininet.ServerLog.{Reading, ServerRow, server_log_path, collect_server_metrics}
use zk_arche_compare.Mininet.Clients.{Assignment, make_assignments}
use zk_arche_compare.Mininet.Topology.{Net, NetworkArgs, build_network}
use zk_arche_compare.Mininet.Traffic.{start_background_traffic, stop_background_traffic}
use zk_arche_compare.Mininet.Prepare.{
  prepare_project, copy_certs_if_needed, prepare_mtls_authorized_clients, start_server, member,
}
use zk_arche_compare.Mininet.Enrol.{prepare_zkarche_state}
use zk_arche_compare.Mininet.Rows.{
  AuthRow, ServerResult, auth_cells, repeat_cells, server_cells, server_results, Cells,
}
use zk_arche_compare.Mininet.Csv.{write_csv}
use zk_arche_compare.Mininet.Trials.{run_tests}
use zk_arche_compare.Mininet.Batch.{Run, execute_concurrent_batch, execute_sequential, repeats}

-- The command line; the defaults are those of `parse_args`.
pub record Args : Type 0 where
  pub project : FilePath
  pub protocol : Text
  pub test : Text
  pub clients : ℕ
  pub iterations : ℕ
  pub workdir : FilePath
  pub results_dir : FilePath
  pub seed : Option ℕ
  pub network : NetworkArgs
  pub device_mix : Text
  pub background_traffic : Text
  pub zkarche_device_only : Bool
  pub zkarche_full : Bool

-- What a command line with nothing but `--project` gives. A path is what `Path` makes of its text.
unfoldable pub default_args : (Text → FilePath) → FilePath → Args
default_args path project = record {
  project = project;
  protocol = codes "zkarche";
  test = codes "all";
  clients = default_clients;
  iterations = default_iterations;
  workdir = path default_workdir;
  results_dir = path default_results_dir;
  seed = none;
  network = record { network_model = codes "multi-tier"; gateway_count = 4; background_hosts = 16 };
  device_mix = codes "heterogeneous-iot";
  background_traffic = codes "medium";
  zkarche_device_only = false;
  zkarche_full = false;
}

-- `["1", "2", "3"] if args.test == "all" else [args.test]`
unfoldable pub selected_tests : Text → List Text
unfolding text_eq
selected_tests test =
    if text_eq test (codes "all") then codes "1" ∷ codes "2" ∷ codes "3" ∷ [] else test ∷ []

unfoldable pub selected_protocols : Text → List Text
unfolding text_eq
selected_protocols protocol =
    if text_eq protocol (codes "all")
    then codes "zkarche" ∷ codes "mtls" ∷ codes "edhoc" ∷ []
    else protocol ∷ []

module _ (kit : Kit) where
  open kit use {fl}
  open fl use {F}

  -- The log of the enrolment is no part of the tests.
  unfoldable pub enrolled :
      Text → Text → Text → FilePath → List (Assignment F) → List Text → M (List (Assignment F) × ℕ)
  enrolled protocol server_bin client_bin workdir assignments clients = do
    done ← prepare_zkarche_state kit server_bin client_bin workdir assignments clients
    log ←
        host_cmd kit (codes "server")
          (codes "cat " ++ server_log_path protocol ++ codes " 2>/dev/null || true")
    pure (done, length (splitlines log))

  unfoldable pub ready_clients :
      Text → Text → Text → FilePath → List (Assignment F) → List Text → M (List (Assignment F) × ℕ)
  ready_clients protocol server_bin client_bin workdir assignments clients =
      if text_eq protocol (codes "zkarche")
      then enrolled protocol server_bin client_bin workdir assignments clients
      else pure (assignments, 0)

  -- What follows the start of the background traffic.
  unfoldable pub serve :
      Text → Text × Text → Args → FilePath → List (Assignment F) → List Text → M ℕ
  serve protocol (server_bin, client_bin) args workdir assignments clients = do
    start_server kit protocol server_bin workdir
    ready ← ready_clients protocol server_bin client_bin workdir assignments clients
    run_tests kit (selected_tests args.test)
        (record {
          protocol = protocol;
          client_bin = client_bin;
          clients = clients;
          assignments = ready.0;
          iterations = args.iterations;
          results_dir = args.results_dir;
        })
        ready.1

  -- The `finally` block: `procs` are the processes of the background traffic that it can see.
  unfoldable pub clean_up : ProtocolConfig → List ℕ → Lab → Lab
  clean_up cfg procs lab = perform kit stopped (
      ignored
        (host_cmd kit (codes "server")
            (codes "pkill -f " ++ quote cfg.server_bin ++ codes " || true")
          >>= λ out. pure tt)
        (stop_background_traffic kit procs lab))

  -- The body once the background traffic is there or has failed to start; the clean-up follows.
  unfoldable pub after_traffic : ProtocolConfig → (List ℕ → M ℕ) → Result (List ℕ) → M ℕ
  after_traffic cfg body (raised e) lab = (raised e, clean_up cfg [] lab)
  after_traffic cfg body (ok procs) lab =
      ((body procs lab).0, clean_up cfg procs (body procs lab).1)

  abbrev pub start_traffic : List Text → Args → M (List ℕ)
  start_traffic hosts args =
      attempt kit started >> start_background_traffic kit hosts args.background_traffic

  -- `try: ... finally: ...`, from the start of the network on.
  unfoldable pub over_network :
      ProtocolConfig
      → Text
      → Text × Text
      → Args
      → FilePath
      → List (Assignment F)
      → Net F × List Text
      → M ℕ
  over_network cfg protocol bins args workdir assignments (net, clients) lab =
      after_traffic cfg (λ procs. serve protocol bins args workdir assignments clients)
        (start_traffic net.background_hosts args lab).0
        (start_traffic net.background_hosts args lab).1

  -- The directories of the protocol are made anew.
  unfoldable pub fresh_workdir : FilePath → M (Unit {0})
  fresh_workdir workdir = do
    λ lab. if exists workdir lab.world then files (rmtree workdir) lab else (ok tt, lab)
    files (mkdirs (codes "server" ∷ workdir))

  unfoldable pub allow_clients : Text → FilePath → FilePath → M (Unit {0})
  allow_clients protocol project_root workdir =
      when (text_eq protocol (codes "mtls"))
        (prepare_mtls_authorized_clients kit project_root workdir >>= λ fp. pure tt)

  unfoldable pub run_protocol_tests : FilePath → Text → Text × Text → Args → M ℕ
  run_protocol_tests project_root protocol bins args = do
    cfg ← lift (config_of protocol)
    fresh_workdir (protocol ∷ args.workdir)
    assignments ←
        make_assignments kit args.clients (codes "clients" ∷ protocol ∷ args.workdir)
          args.device_mix args.network.gateway_count
    copy_certs_if_needed kit project_root protocol (protocol ∷ args.workdir) assignments
    allow_clients protocol project_root (protocol ∷ args.workdir)
    net ← build_network kit assignments args.network
    over_network cfg protocol bins args (protocol ∷ args.workdir) assignments net

  unfoldable pub run_all : FilePath → List Text → List (Text × (Text × Text)) → Args → M (Unit {0})
  run_all project_root [] bins args = pure tt
  run_all project_root (protocol ∷ protocols) bins args = do
    own ← lift (found (find protocol bins))
    offset ← run_protocol_tests project_root protocol own args
    run_all project_root protocols bins args

  -- `os.environ.setdefault(k, v)`
  unfoldable pub default_environ : Text → Text → Lab → Lab
  default_environ k v lab = elim (find k lab.environ) [ none ↦ set_environ k v lab | some u ↦ lab ]

  abbrev pub set_when : Bool → Text → Text → Lab → Lab
  set_when b k v lab = if b then set_environ k v lab else lab

  unfoldable pub seed_random : Option ℕ → Lab → Lab
  seed_random none lab = lab
  seed_random (some n) lab = perform kit (seeded n) lab

  unfoldable pub set_mode : Args → Lab → Lab
  set_mode args lab = default_environ (codes "ZKARCHE_ALLOW_DEVICE_ONLY") (codes "1") (
      default_environ (codes "ZKARCHE_BENCH_MODE") (codes "1") (
        default_environ (codes "ZKARCHE_FAST_LOOKUP") (codes "1") (
          set_when args.zkarche_full (codes "ZKARCHE_DEVICE_ONLY") (codes "0")
            (set_when args.zkarche_device_only (codes "ZKARCHE_DEVICE_ONLY") (codes "1") lab))))

  -- The exit status.
  unfoldable pub main : Args → M ℕ
  main args = do
    act (seed_random args.seed)
    act (set_mode args)
    bins ← prepare_project kit args.project (selected_protocols args.protocol)
    run_all args.project (selected_protocols args.protocol) bins args
    pure 0
