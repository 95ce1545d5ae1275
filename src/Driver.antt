-- ===== src/Driver.antt =====
-- benchmarks/lib/driver.py: one benchmark test of one protocol, without resource sampling
-- (`sample_resources=False`, the way tests 1 to 3 call it).
pub mod Clean
use zk_arche_compare.Base.{
  ℕ, ◌+◌, ◌*◌, ◌/◌, Bool, true, false, ◌||◌, ◌&&◌, not, Option, none, some, List, [], ◌∷◌, ◌++◌,
  Text, codes, text_eq, Result, ok, raised, Error, value_error, system_exit, ◌==◌, keep,
  if◌then◌else◌,
}
use zk_arche_compare.Floats.{Floats}
use zk_arche_compare.World.{
  FilePath, World, Io, Os, act, finally, pure, raise, lift, ◌>>=◌, ◌>>◌, sleep,
}
use zk_arche_compare.World.Files.{exists, rmtree, mkdirs, mkdir, write_text, parent}
use zk_arche_compare.Runner.Server.{ServerHandle, ms, start_server_default, stop_server}
use zk_arche_compare.Runner.Client.{ClientResult}
use zk_arche_compare.Runner.Workdirs.{stamp_workdirs}
use zk_arche_compare.Results.{DevicePowerProfile, iteration_rows}
use zk_arche_compare.Results.Summary.{SummaryRecord, summarise}
use zk_arche_compare.Protocols.{
  Config, Protocol, pairing_token, protocols, find_protocol, ensure_mtls_certs,
  enroll_zkarche_clients,
}

pub record TestContext : Type 0 where
  pub protocol : Protocol
  pub server : ServerHandle
  pub server_workdir : FilePath
  pub client_workdirs : List FilePath

-- /tmp/zkb-{test}-{protocol}
unfoldable pub bench_workdir : Text → Text → FilePath
bench_workdir test protocol = (codes "zkb-" ++ test ++ codes "-" ++ protocol) ∷ codes "tmp" ∷ []

-- `csv.writer`: no field holds a comma, a quote or a line break.
unfoldable pub csv_row : List Text → Text
csv_row [] = 13 ∷ 10 ∷ []
csv_row (x ∷ []) = x ++ (13 ∷ 10 ∷ [])
csv_row (x ∷ y ∷ row) = x ++ (b',' ∷ csv_row (y ∷ row))

unfoldable pub csv_text : List (List Text) → Text
unfolding csv_row
csv_text [] = []
csv_text (row ∷ rows) = csv_row row ++ csv_text rows

-- `p.parent.mkdir(parents=True, exist_ok=True)` and a write of the whole file
unfoldable pub write_file : FilePath → Text → Io (Unit {0})
write_file path text = do mkdirs (parent path); write_text path text

module _ (config : Config) where
  all_binaries : List FilePath
  all_binaries =
      config.zkarche_server ∷ config.zkarche_client ∷ config.edhoc_server ∷ config.edhoc_client
      ∷ config.mtls_server ∷ config.mtls_client ∷ []

  -- `require_binaries` of benchmarks/lib/config.py
  unfoldable pub require_binaries : Io (Unit {0})
  unfolding all_binaries exists
  require_binaries w = elim (keep (λ p. not (exists p w)) all_binaries) [
    | [] ↦ (ok tt, w)
    | _ ∷ _ ↦ (raised system_exit, w)
  ]

  abbrev results_dir : FilePath
  results_dir = codes "results" ∷ codes "benchmarks" ∷ config.repo_root

  abbrev pub csv_path : Text → Text → FilePath
  csv_path test protocol =
      (test ++ codes "_" ++ protocol ++ codes ".csv") ∷ codes "raw" ∷ results_dir

  abbrev pub json_path : Text → Text → FilePath
  json_path test protocol =
      (test ++ codes "_" ++ protocol ++ codes ".json") ∷ codes "summary" ∷ results_dir

  -- The log of the timed server, and that of the server in pairing mode.
  abbrev pub log_path : Text → Text → FilePath
  log_path test protocol =
      (test ++ codes "_" ++ protocol ++ codes "_server.log") ∷ codes "logs" ∷ results_dir

  abbrev pub pairing_log_path : Text → Text → FilePath
  pairing_log_path test protocol =
      (test ++ codes "_" ++ protocol ++ codes "_server.pairing.log") ∷ codes "logs" ∷ results_dir

  module _ (fl : Floats) (os : Os) where
    open fl use {F}

    -- `server = start_server(...)`, then `try: body  finally: stop_server(server)`
    unfoldable pub with_server :
        {A : Type 0}
        → FilePath
        → List Text
        → Text
        → FilePath
        → FilePath
        → (ServerHandle → Io A)
        → Io A
    with_server binary args addr workdir log_path body =
        start_server_default os binary args addr workdir log_path >>= λ h.
        finally (body h) (stop_server os h)

    -- The working area is made anew.
    unfoldable pub fresh_workdir : FilePath → Io (Unit {0})
    unfolding exists
    fresh_workdir work = do
      λ w. if exists work w then rmtree work w else (ok tt, w)
      mkdirs work
      mkdir (codes "server" ∷ work)

    unfoldable pub ensure_certs : Protocol → Io (Unit {0})
    ensure_certs p w =
        if text_eq p.name (codes "mtls")
        then ensure_mtls_certs config os config.repo_root w
        else (ok tt, w)

    unfoldable pub stamp_clients : FilePath → ℕ → Io (List FilePath)
    stamp_clients work n = stamp_workdirs none (codes "clients" ∷ work) n (codes "c")

    unfoldable pub stamp_and_enroll : FilePath → ℕ → ServerHandle → Io (List FilePath)
    stamp_and_enroll work n server = do
      dirs ← stamp_clients work n
      done ← enroll_zkarche_clients config os fl server dirs pairing_token true 0
      pure dirs

    -- The directories of the clients; ZK-ARCHE enrols each one with a server in pairing mode.
    unfoldable pub prepare_clients : Protocol → FilePath → FilePath → ℕ → Io (List FilePath)
    prepare_clients p work pairing_log n w =
        let server_workdir = codes "server" ∷ work in
        let enrolled =
          with_server p.server_bin (p.server_args server_workdir true) p.bind_addr server_workdir
            pairing_log (stamp_and_enroll work n) in
        if text_eq p.name (codes "zkarche") then enrolled w else stamp_clients work n w

    -- The timed part: a warm-up, then the workload.
    unfoldable pub timed_run :
        Protocol
        → FilePath
        → FilePath
        → List FilePath
        → ℕ
        → (TestContext → Io (List (ClientResult F)))
        → Io (List (ClientResult F))
    timed_run p work log_path dirs warmup_ns workload =
        let server_workdir = codes "server" ∷ work in
        with_server p.server_bin (p.server_args server_workdir false) p.bind_addr server_workdir
          log_path
          λ server. do
            act (sleep os warmup_ns)
            workload (record {
              protocol = p;
              server = server;
              server_workdir = server_workdir;
              client_workdirs = dirs;
            })

    -- The text of a summary is the `json` module's.
    module _ (host : Text) (profile : DevicePowerProfile F)
        (json_text : SummaryRecord F → Text) where
      -- The summary, and the two files.
      unfoldable pub write_results : Text → Text → List (ClientResult F) → Io (SummaryRecord F)
      unfolding write_file csv_text iteration_rows
      write_results test protocol results =
          lift (summarise fl host test protocol results none none profile) >>= λ summary. do
            write_file (csv_path test protocol) (csv_text (iteration_rows fl results))
            write_file (json_path test protocol) (json_text summary)
            pure summary

      unfoldable pub run_protocol :
          Text
          → Text
          → ℕ
          → (TestContext → Io (List (ClientResult F)))
          → ℕ
          → Protocol
          → Io (SummaryRecord F)
      run_protocol test protocol n workload warmup_ns p =
          let work = bench_workdir test protocol in
          do
            require_binaries
            ensure_certs p
            fresh_workdir work
            dirs ← prepare_clients p work (pairing_log_path test protocol) n
            results ← timed_run p work (log_path test protocol) dirs warmup_ns workload
            write_results test protocol results

      -- `if protocol_name not in PROTOCOLS`
      unfoldable pub run_found :
          Text
          → Text
          → ℕ
          → (TestContext → Io (List (ClientResult F)))
          → ℕ
          → Option Protocol
          → Io (SummaryRecord F)
      run_found test protocol n workload warmup_ns none = raise value_error
      run_found test protocol n workload warmup_ns (some p) =
          run_protocol test protocol n workload warmup_ns p

      unfoldable pub run_test :
          Text → Text → ℕ → (TestContext → Io (List (ClientResult F))) → ℕ → Io (SummaryRecord F)
      unfolding run_found
      run_test test protocol n workload warmup_ns =
          run_found test protocol n workload warmup_ns
            (find_protocol config protocol (protocols config))
