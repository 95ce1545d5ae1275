-- ===== src/Driver/Clean.antt =====
-- A test leaves no server process behind.
use zk_arche_compare.Base.{
  ℕ, zero, suc, ◌*◌, ◌≡◌, refl, ◌∙◌, ap, true, Option, none, some, List, [], ◌∷◌, Text, codes,
  text_eq, Result, ok, raised, arith, Bool-cases, inl, inr,
}
use zk_arche_compare.Floats.{Floats}
use zk_arche_compare.World.{FilePath, World, Io, Os, finally, lift, continue, sleep}
use zk_arche_compare.World.Live.{live, erase-head}
use zk_arche_compare.World.Files.{exists, mkdirs, mkdir, parent, copytree}
use zk_arche_compare.World.Keeps.{
  Keeps, Keeps-bind, log_of, mkdirs-Keeps-log, rmtree-Keeps-log, write_text-Keeps-log,
}
use zk_arche_compare.Runner.Server.{ServerHandle, start_server_default, stop_server, ms}
use zk_arche_compare.Runner.Server.Stopped.{serving, live-start_server, live-stop_server}
use zk_arche_compare.Runner.Client.{ClientResult}
use zk_arche_compare.Runner.Workdirs.{
  fill, remove_old, client_dir, stamp_one, stamp_loop, stamp_workdirs,
}
use zk_arche_compare.Results.{DevicePowerProfile, iteration_rows}
use zk_arche_compare.Results.Summary.{SummaryRecord, summarise}
use zk_arche_compare.Protocols.{
  Config, Protocol, pairing_token, protocols, find_protocol, enroll_zkarche_clients,
}
use zk_arche_compare.Protocols.Enrolled.{ensure_mtls_certs-Keeps-log, enroll-Keeps-log}
use zk_arche_compare.Driver.{
  TestContext, write_file, csv_path, json_path, csv_text, log_path, pairing_log_path, bench_workdir,
  stamp_clients, stamp_and_enroll, require_binaries, with_server, fresh_workdir, ensure_certs,
  prepare_clients, timed_run, write_results, run_protocol, run_found, run_test,
}

-- The processes that were started and not seen to end.
abbrev pub live_of : World → List ℕ
live_of w = live w.log

Keeps-live {κ} : {A : Type κ} (m : Io A) → Keeps log_of m → Keeps live_of m
Keeps-live m k w = ap live (k w)

mkdir-Keeps-log : (p : FilePath) → Keeps log_of (mkdir p)
unfolding mkdir
mkdir-Keeps-log [] w = refl
mkdir-Keeps-log (x ∷ p) w = ground arith

copytree-Keeps-log : (from to : FilePath) → Keeps log_of (copytree from to)
unfolding copytree
copytree-Keeps-log from to w = ground arith

remove_old-Keeps-log : (d : FilePath) → Keeps log_of (remove_old d)
unfolding exists
remove_old-Keeps-log d w = ground (arith, rmtree-Keeps-log d w)

fill-Keeps-log : (t : Option FilePath) (d : FilePath) → Keeps log_of (fill t d)
fill-Keeps-log none d = mkdirs-Keeps-log d
fill-Keeps-log (some t) d = copytree-Keeps-log t d

stamp_one-Keeps-log : (t : Option FilePath) (d : FilePath) → Keeps log_of (stamp_one t d)
unfolding stamp_one
stamp_one-Keeps-log t d =
    Keeps-bind log_of (remove_old d) _ (remove_old-Keeps-log d) λ _. fill-Keeps-log t d

stamp_loop-Keeps-log :
    (t : Option FilePath) (root : FilePath) (prefix : Text) (left i : ℕ)
    → Keeps log_of (stamp_loop t root prefix left i)
unfolding stamp_loop
stamp_loop-Keeps-log t root prefix zero i = λ w. refl
stamp_loop-Keeps-log t root prefix (suc left) i =
    Keeps-bind log_of (stamp_one t (client_dir root prefix i)) _
      (stamp_one-Keeps-log t (client_dir root prefix i))
      λ _.
        Keeps-bind log_of (stamp_loop t root prefix left (suc i)) _
          (stamp_loop-Keeps-log t root prefix left (suc i)) λ _ w. refl

stamp_workdirs-Keeps-log :
    (t : Option FilePath) (root : FilePath) (n : ℕ) (prefix : Text)
    → Keeps log_of (stamp_workdirs t root n prefix)
unfolding stamp_workdirs
stamp_workdirs-Keeps-log t root n prefix =
    Keeps-bind log_of (mkdirs root) _ (mkdirs-Keeps-log root)
      λ _ w. stamp_loop-Keeps-log _ root prefix n 0 w

write_file-Keeps-log : (p : FilePath) (t : Text) → Keeps log_of (write_file p t)
unfolding write_file
write_file-Keeps-log p t =
    Keeps-bind log_of (mkdirs (parent p)) _ (mkdirs-Keeps-log (parent p))
      λ _. write_text-Keeps-log p t

module _ (config : Config) (fl : Floats) (os : Os) where
  open fl use {F}

  stopped :
      {A : Type 0} (r : Result ServerHandle) (body : ServerHandle → Io A) (w : World) (ps : List ℕ)
      → live w.log ≡ serving os r ps
      → ((h : ServerHandle) → Keeps live_of (body h))
      → live (continue r (λ h. finally (body h) (stop_server os h)) w).1.log ≡ ps
  stopped (ok h) body w ps e k =
      live-stop_server os h (body h w).1 ∙ rw (k h w, e) (erase-head h.pid ps)
  stopped (raised x) body w ps e k = e

  with_server-Keeps-live :
      {A : Type 0} (binary : FilePath) (args : List Text) (addr : Text)
      (workdir log_path : FilePath) (body : ServerHandle → Io A)
      → ((h : ServerHandle) → Keeps live_of (body h))
      → Keeps live_of (with_server config fl os binary args addr workdir log_path body)
  unfolding with_server
  with_server-Keeps-live binary args addr workdir log_path body k w =
      stopped (start_server_default os binary args addr workdir log_path w).0 body
        (start_server_default os binary args addr workdir log_path w).1 (live w.log)
        (live-start_server os binary args addr workdir log_path 6 (1000 * ms) w) k

  fresh_workdir-Keeps-log : (work : FilePath) → Keeps log_of (fresh_workdir config fl os work)
  unfolding fresh_workdir
  fresh_workdir-Keeps-log work =
      Keeps-bind log_of (remove_old work) _ (remove_old-Keeps-log work) λ _.
        Keeps-bind log_of (mkdirs work) _ (mkdirs-Keeps-log work)
          λ _. mkdir-Keeps-log (codes "server" ∷ work)

  require_binaries-Keeps-log : Keeps log_of (require_binaries config)
  unfolding require_binaries
  require_binaries-Keeps-log w = ground arith

  ensure_certs-Keeps-log : (p : Protocol) → Keeps log_of (ensure_certs config fl os p)
  unfolding ensure_certs
  ensure_certs-Keeps-log p w =
      ground (arith, ensure_mtls_certs-Keeps-log config os config.repo_root w)

  stamp_clients-Keeps-log :
      (work : FilePath) (n : ℕ) → Keeps log_of (stamp_clients config fl os work n)
  unfolding stamp_clients
  stamp_clients-Keeps-log work n =
      stamp_workdirs-Keeps-log none (codes "clients" ∷ work) n (codes "c")

  stamp_and_enroll-Keeps-log :
      (work : FilePath) (n : ℕ) (h : ServerHandle)
      → Keeps log_of (stamp_and_enroll config fl os work n h)
  unfolding stamp_and_enroll
  stamp_and_enroll-Keeps-log work n h =
      Keeps-bind log_of (stamp_clients config fl os work n) _ (stamp_clients-Keeps-log work n)
        λ dirs.
          Keeps-bind log_of (enroll_zkarche_clients config os fl h dirs pairing_token true 0) _
            (enroll-Keeps-log config os fl h dirs pairing_token true 0) λ _ v. refl

  prepare_clients-Keeps-live :
      (p : Protocol) (work pairing_log : FilePath) (n : ℕ)
      → Keeps live_of (prepare_clients config fl os p work pairing_log n)
  unfolding prepare_clients
  prepare_clients-Keeps-live p work pairing_log n w =
      elim (Bool-cases (text_eq p.name (codes "zkarche"))) [
        | inl e ↦ rw e (
            with_server-Keeps-live p.server_bin _ p.bind_addr _ pairing_log
              (stamp_and_enroll config fl os work n)
              (λ h.
                Keeps-live (stamp_and_enroll config fl os work n h)
                  (stamp_and_enroll-Keeps-log work n h))
              w)
        | inr e ↦
            rw e (Keeps-live (stamp_clients config fl os work n) (stamp_clients-Keeps-log work n) w)
      ]

  timed_run-Keeps-live :
      (p : Protocol) (work log_path : FilePath) (dirs : List FilePath) (warmup_ns : ℕ)
      (workload : TestContext → Io (List (ClientResult F)))
      → ((c : TestContext) → Keeps live_of (workload c))
      → Keeps live_of (timed_run config fl os p work log_path dirs warmup_ns workload)
  unfolding timed_run sleep
  timed_run-Keeps-live p work log_path dirs warmup_ns workload k =
      with_server-Keeps-live p.server_bin _ p.bind_addr _ log_path _ λ h v.
        k
          (record {
            protocol = p;
            server = h;
            server_workdir = codes "server" ∷ work;
            client_workdirs = dirs;
          })
          (sleep os warmup_ns v)

  module _ (host : Text) (profile : DevicePowerProfile F) (json_text : SummaryRecord F → Text) where
    write_results-Keeps-log :
        (test protocol : Text) (results : List (ClientResult F))
        → Keeps log_of (write_results config fl os host profile json_text test protocol results)
    unfolding write_results
    write_results-Keeps-log test protocol results =
        Keeps-bind log_of (lift (summarise fl host test protocol results none none profile)) _
          (λ w. refl)
          λ summary.
            Keeps-bind log_of (write_file csv csv_body) _ (write_file-Keeps-log csv csv_body) λ _.
              Keeps-bind log_of (write_file json (json_text summary)) _
                (write_file-Keeps-log json (json_text summary)) λ _ w. refl
      where
        csv : FilePath
        csv = csv_path config test protocol

        csv_body : Text
        csv_body = csv_text (iteration_rows fl results)

        json : FilePath
        json = json_path config test protocol

    run_protocol-Keeps-live :
        (test protocol : Text) (n : ℕ) (workload : TestContext → Io (List (ClientResult F)))
        (warmup_ns : ℕ) (p : Protocol)
        → ((c : TestContext) → Keeps live_of (workload c))
        → Keeps live_of
            (run_protocol config fl os host profile json_text test protocol n workload warmup_ns p)
    unfolding run_protocol
    run_protocol-Keeps-live test protocol n workload warmup_ns p k =
        Keeps-bind live_of (require_binaries config) _
          (Keeps-live (require_binaries config) require_binaries-Keeps-log)
          λ _.
            Keeps-bind live_of (ensure_certs config fl os p) _
              (Keeps-live (ensure_certs config fl os p) (ensure_certs-Keeps-log p))
              λ _.
                Keeps-bind live_of (fresh_workdir config fl os work) _
                  (Keeps-live (fresh_workdir config fl os work) (fresh_workdir-Keeps-log work))
                  λ _.
                    Keeps-bind live_of
                      (prepare_clients config fl os p work (pairing_log_path config test protocol)
                        n)
                      _
                      (prepare_clients-Keeps-live p work (pairing_log_path config test protocol) n)
                      λ dirs.
                        Keeps-bind live_of
                          (timed_run config fl os p work (log_path config test protocol) dirs
                            warmup_ns workload)
                          _
                          (timed_run-Keeps-live p work (log_path config test protocol) dirs
                            warmup_ns workload k)
                          λ results.
                            Keeps-live
                              (write_results config fl os host profile json_text test protocol
                                results)
                              (write_results-Keeps-log test protocol results)
      where
        work : FilePath
        work = bench_workdir test protocol

    run_found-Keeps-live :
        (test protocol : Text) (n : ℕ) (workload : TestContext → Io (List (ClientResult F)))
        (warmup_ns : ℕ) (p : Option Protocol)
        → ((c : TestContext) → Keeps live_of (workload c))
        → Keeps live_of
            (run_found config fl os host profile json_text test protocol n workload warmup_ns p)
    unfolding run_found
    run_found-Keeps-live test protocol n workload warmup_ns none k = λ w. refl
    run_found-Keeps-live test protocol n workload warmup_ns (some p) k =
        run_protocol-Keeps-live test protocol n workload warmup_ns p k

    -- If the workload leaves every process of its own ended, then so does the whole test, on each
    -- outcome: an unknown protocol, missing binaries, a server that does not start, an enrolment
    -- that fails, a workload that raises, or a result.
    pub run_test-leaves_no_server :
        (test protocol : Text) (n : ℕ) (workload : TestContext → Io (List (ClientResult F)))
        (warmup_ns : ℕ) (w : World)
        → ((c : TestContext) → Keeps live_of (workload c))
        → live
            (run_test config fl os host profile json_text test protocol n workload warmup_ns
              w).1.log
          ≡ live w.log
    unfolding run_test
    run_test-leaves_no_server test protocol n workload warmup_ns w k =
        run_found-Keeps-live test protocol n workload warmup_ns
          (find_protocol config protocol (protocols config)) k w
