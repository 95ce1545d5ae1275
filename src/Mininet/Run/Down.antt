-- ===== src/Mininet/Run/Down.antt =====
-- However the program ends, each network that it started is stopped.
use zk_arche_compare.Base.{
  ℕ, suc, ◌++◌, ◌≡◌, refl, Bool, true, false, Option, none, some, List, [], ◌∷◌, Text, codes,
  Result, ok, raised, Bool-cases, inl, inr, Option-cases, ap, ◌∙◌,
}
use zk_arche_compare.World.{FilePath}
use zk_arche_compare.World.Files.{exists, rmtree, mkdirs}
use zk_arche_compare.Mininet.Lab.{
  Kit, Lab, M, perform, attempt, started, ignored, host_cmd, continue, act, set_environ, pure,
  files, ◌>>=◌,
}
use zk_arche_compare.Mininet.Shell.{quote}
use zk_arche_compare.Mininet.Traffic.{start_background_traffic, stop_background_traffic}
use zk_arche_compare.Mininet.Traffic.Keeps.{
  start_background_traffic-Keeps, stop_background_traffic-Keeps,
}
use zk_arche_compare.Mininet.Enrol.Keeps.{run_local-Keeps, prepare_zkarche_state-Keeps}
use zk_arche_compare.Mininet.Trials.Keeps.{run_tests-Keeps}
use zk_arche_compare.Mininet.Lab.Keeps.{
  one_less, host_cmd-Keeps, sleep-Keeps, ignored-Keeps, Keeps-if, Keeps, Keeps-files, Keeps-test,
  keeps, running, Keeps-pure, Keeps-bind,
}
use zk_arche_compare.Mininet.Profiles.{ProtocolConfig, find}
use zk_arche_compare.Mininet.Clients.{Assignment}
use zk_arche_compare.Mininet.Topology.{Net}
use zk_arche_compare.Mininet.Topology.Keeps.{make_assignments-Keeps, build_network-Keeps}
use zk_arche_compare.Mininet.Prepare.{
  start_server, prepare_project, run_local, require_file, ensure_certs, find_bins,
  copy_certs_if_needed, copy_certs, copy_to_clients, prepare_mtls_authorized_clients,
  cert_fingerprint_sha256_pem,
}
use zk_arche_compare.Mininet.Run.{
  Args, ready_clients, enrolled, serve, start_traffic, clean_up, after_traffic, over_network,
  fresh_workdir, allow_clients, run_protocol_tests, run_all, seed_random, set_mode, set_when,
  default_environ, main,
}

module _ (kit : Kit) where
  cert_fingerprint-Keeps : (p : FilePath) → Keeps (cert_fingerprint_sha256_pem kit p)
  unfolding cert_fingerprint_sha256_pem perform running Keeps
  cert_fingerprint-Keeps p lab = refl

  require_file-Keeps : (p : FilePath) → Keeps (require_file kit p)
  unfolding require_file Keeps
  require_file-Keeps p lab = elim (Bool-cases (exists p lab.world)) [
    | inl e ↦ rw e refl
    | inr e ↦ rw e refl
  ]

  copy_to_clients-Keeps :
      (src : FilePath) (rows : List (Assignment kit.fl.F)) → Keeps (copy_to_clients kit src rows)
  unfolding copy_to_clients
  copy_to_clients-Keeps src [] = search keeps
  copy_to_clients-Keeps src (a ∷ rows) = search (keeps, copy_to_clients-Keeps src rows)

  copy_certs_if_needed-Keeps :
      (root : FilePath) (protocol : Text) (dir : FilePath) (rows : List (Assignment kit.fl.F))
      → Keeps (copy_certs_if_needed kit root protocol dir rows)
  unfolding copy_certs_if_needed copy_certs
  copy_certs_if_needed-Keeps root protocol dir rows = search (keeps, copy_to_clients-Keeps) depth 12

  allow_clients-Keeps :
      (protocol : Text) (root dir : FilePath) → Keeps (allow_clients kit protocol root dir)
  unfolding allow_clients prepare_mtls_authorized_clients
  allow_clients-Keeps protocol root dir = search (keeps, cert_fingerprint-Keeps) depth 12

  find_bins-Keeps : (root : FilePath) (ps : List Text) → Keeps (find_bins kit root ps)
  unfolding find_bins
  find_bins-Keeps root [] = search keeps
  find_bins-Keeps root (p ∷ ps) =
      search (keeps, require_file-Keeps, find_bins-Keeps root ps) depth 12

  ensure_certs-Keeps : (root : FilePath) (ps : List Text) → Keeps (ensure_certs kit root ps)
  unfolding ensure_certs
  ensure_certs-Keeps root ps =
      Keeps-test _
        (run_local kit true (codes "bash scripts/gen_certs.sh") (some root) >>= λ out. pure tt)
        (pure tt) (search (keeps, run_local-Keeps)) (Keeps-pure tt)

  prepare_project-Keeps : (root : FilePath) (ps : List Text) → Keeps (prepare_project kit root ps)
  unfolding prepare_project
  prepare_project-Keeps root ps =
      search (keeps, require_file-Keeps, ensure_certs-Keeps, run_local-Keeps, find_bins-Keeps) depth
        12

  fresh_workdir-Keeps : (dir : FilePath) → Keeps (fresh_workdir kit dir)
  unfolding fresh_workdir
  fresh_workdir-Keeps dir =
      Keeps-bind _ _
        (Keeps-test (λ lab. exists dir lab.world) (files (rmtree dir)) (pure tt)
          (Keeps-files (rmtree dir)) (Keeps-pure tt))
        λ u. Keeps-files (mkdirs (codes "server" ∷ dir))

  start_server-Keeps :
      (protocol server_bin : Text) (dir : FilePath)
      → Keeps (start_server kit protocol server_bin dir)
  unfolding start_server
  start_server-Keeps protocol server_bin dir = search (keeps, host_cmd-Keeps, sleep-Keeps) depth 14

  ready_clients-Keeps :
      (protocol server_bin client_bin : Text) (dir : FilePath) (rows : List (Assignment kit.fl.F))
      (clients : List Text)
      → Keeps (ready_clients kit protocol server_bin client_bin dir rows clients)
  unfolding ready_clients enrolled
  ready_clients-Keeps protocol server_bin client_bin dir rows clients =
      search (keeps, Keeps-if, prepare_zkarche_state-Keeps, host_cmd-Keeps) depth 12

  serve-Keeps :
      (protocol : Text) (bins : Text × Text) (args : Args) (dir : FilePath)
      (rows : List (Assignment kit.fl.F)) (clients : List Text)
      → Keeps (serve kit protocol bins args dir rows clients)
  unfolding serve
  serve-Keeps protocol (server_bin, client_bin) args dir rows clients =
      search (keeps, start_server-Keeps, ready_clients-Keeps, run_tests-Keeps) depth 12

  abbrev pkill : ProtocolConfig → M (Unit {0})
  pkill cfg =
      host_cmd kit (codes "server") (codes "pkill -f " ++ quote cfg.server_bin ++ codes " || true")
      >>= λ out. pure tt

  pkill-Keeps : (cfg : ProtocolConfig) → Keeps (act (ignored (pkill cfg)))
  pkill-Keeps cfg = ignored-Keeps kit (pkill cfg) (search (keeps, host_cmd-Keeps))

  clean_up-stops :
      (cfg : ProtocolConfig) (procs : List ℕ) (lab : Lab)
      → running (clean_up kit cfg procs lab).acts ≡ one_less (running lab.acts)
  unfolding clean_up perform running Keeps
  clean_up-stops cfg procs lab = ap one_less (
      pkill-Keeps cfg (stop_background_traffic kit procs lab)
      ∙ stop_background_traffic-Keeps kit procs lab)

  after_traffic-stops :
      (cfg : ProtocolConfig) (body : List ℕ → M ℕ) (r : Result (List ℕ)) (lab : Lab)
      → ((procs : List ℕ) → Keeps (body procs))
      → running (after_traffic kit cfg body r lab).1.acts ≡ one_less (running lab.acts)
  unfolding after_traffic Keeps
  after_traffic-stops cfg body (ok procs) lab k =
      clean_up-stops cfg procs (body procs lab).1 ∙ ap one_less (k procs lab)
  after_traffic-stops cfg body (raised e) lab k = clean_up-stops cfg [] lab

  start_rest :
      (r : Result (Unit {0})) (m : M (List ℕ)) (lab : Lab)
      → Keeps m
      → running (continue r (λ _. m) lab).1.acts ≡ running lab.acts
  unfolding Keeps
  start_rest (ok u) m lab k = k lab
  start_rest (raised e) m lab k = refl

  start_traffic-starts :
      (hosts : List Text) (args : Args) (lab : Lab)
      → running (start_traffic kit hosts args lab).1.acts ≡ suc (running lab.acts)
  unfolding attempt perform running
  start_traffic-starts hosts args lab =
      start_rest (attempt kit started lab).0
        (start_background_traffic kit hosts args.background_traffic) (attempt kit started lab).1
        (start_background_traffic-Keeps kit hosts args.background_traffic)

  over_network-Keeps :
      (cfg : ProtocolConfig) (protocol : Text) (bins : Text × Text) (args : Args) (dir : FilePath)
      (rows : List (Assignment kit.fl.F)) (net : Net kit.fl.F × List Text)
      → Keeps (over_network kit cfg protocol bins args dir rows net)
  unfolding over_network Keeps
  over_network-Keeps cfg protocol bins args dir rows (net, clients) lab =
      after_traffic-stops cfg (λ procs. serve kit protocol bins args dir rows clients) _ _
        (λ procs. serve-Keeps protocol bins args dir rows clients)
      ∙ ap one_less (start_traffic-starts net.background_hosts args lab)

  run_protocol_tests-Keeps :
      (root : FilePath) (protocol : Text) (bins : Text × Text) (args : Args)
      → Keeps (run_protocol_tests kit root protocol bins args)
  unfolding run_protocol_tests
  run_protocol_tests-Keeps root protocol bins args =
      search
        (
          keeps, fresh_workdir-Keeps, make_assignments-Keeps, copy_certs_if_needed-Keeps,
          allow_clients-Keeps, build_network-Keeps, over_network-Keeps,
        )
        depth 16

  run_all-Keeps :
      (root : FilePath) (ps : List Text) (bins : List (Text × (Text × Text))) (args : Args)
      → Keeps (run_all kit root ps bins args)
  unfolding run_all
  run_all-Keeps root [] bins args = Keeps-pure tt
  run_all-Keeps root (p ∷ ps) bins args =
      search (keeps, run_protocol_tests-Keeps, run_all-Keeps root ps bins args) depth 10

  seed_random-Keeps : (seed : Option ℕ) → Keeps (act (seed_random kit seed))
  unfolding seed_random perform running Keeps
  seed_random-Keeps none lab = refl
  seed_random-Keeps (some n) lab = refl

  default_environ-acts : (k v : Text) (lab : Lab) → (default_environ kit k v lab).acts ≡ lab.acts
  unfolding default_environ set_environ
  default_environ-acts k v lab = elim (Option-cases (find k lab.environ)) [
    | inl e ↦ rw (e, default_environ) refl
    | inr (u, e) ↦ rw (e, default_environ) refl
  ]

  set_when-acts : (b : Bool) (k v : Text) (lab : Lab) → (set_when kit b k v lab).acts ≡ lab.acts
  unfolding set_environ
  set_when-acts true k v lab = refl
  set_when-acts false k v lab = refl

  set_mode-Keeps : (args : Args) → Keeps (act (set_mode kit args))
  unfolding set_mode Keeps
  set_mode-Keeps args lab = ap running (
      default_environ-acts _ _ _
      ∙ default_environ-acts _ _ _
      ∙ default_environ-acts _ _ _
      ∙ set_when-acts args.zkarche_full _ _ _
      ∙ set_when-acts args.zkarche_device_only _ _ lab)

  main-Keeps : (args : Args) → Keeps (main kit args)
  unfolding main
  main-Keeps args =
      search (keeps, seed_random-Keeps, set_mode-Keeps, prepare_project-Keeps, run_all-Keeps) depth
        16

  -- Whatever the lab answers and whether the program returns or raises, after it there are as many
  -- networks that were started and not yet stopped as before. Where there were none, each start was
  -- thus followed by a stop of its own.
  pub main-network_down :
      (args : Args) (lab : Lab) → running (main kit args lab).1.acts ≡ running lab.acts
  unfolding Keeps
  main-network_down args lab = main-Keeps args lab
