-- ===== src/Mininet/Enrol/Keeps.antt =====
-- The enrolment neither starts nor stops a network.
use zk_arche_compare.Base.{ℕ, zero, suc, refl, List, [], ◌∷◌, Text, true, false, Bool, Option}
use zk_arche_compare.World.{FilePath}
use zk_arche_compare.Mininet.Lab.{Kit, M, perform, perf_counter}
use zk_arche_compare.Mininet.Lab.Keeps.{
  Keeps, Keeps-pure, Keeps-lift, keeps, running, sleep-Keeps, host_cmd-Keeps,
}
use zk_arche_compare.Mininet.Shell.{host_cmd_with_status}
use zk_arche_compare.Mininet.ServerLog.{ServerRow}
use zk_arche_compare.Mininet.Clients.{Assignment}
use zk_arche_compare.Mininet.Prepare.{run_local}
use zk_arche_compare.Mininet.Enrol.{
  server_key, enrol_client, enrol_clients, stop_if, setup_rows, prepare_zkarche_state,
}

pub perf_counter-Keeps : Keeps perf_counter
unfolding Keeps
perf_counter-Keeps lab = refl

module _ (kit : Kit) where
  pub run_local-Keeps :
      (check : Bool) (cmd : Text) (cwd : Option FilePath) → Keeps (run_local kit check cmd cwd)
  unfolding run_local perform running Keeps
  run_local-Keeps check cmd cwd lab = refl

  pub host_cmd_with_status-Keeps : (host cmd : Text) → Keeps (host_cmd_with_status kit host cmd)
  unfolding host_cmd_with_status
  host_cmd_with_status-Keeps host cmd = search (keeps, host_cmd-Keeps)

  server_key-Keeps : (server_bin : Text) (dir : FilePath) → Keeps (server_key kit server_bin dir)
  unfolding server_key
  server_key-Keeps server_bin dir = search (keeps, run_local-Keeps)

  enrol_client-Keeps :
      (client_bin server_pub client : Text) (a : Assignment kit.fl.F)
      → Keeps (enrol_client kit client_bin server_pub client a)
  unfolding enrol_client
  enrol_client-Keeps client_bin server_pub client a =
      search (keeps, host_cmd_with_status-Keeps, perf_counter-Keeps) depth 20

  enrol_clients-Keeps :
      (client_bin server_pub : Text) (clients : List Text) (rows : List (Assignment kit.fl.F))
      → Keeps (enrol_clients kit client_bin server_pub clients rows)
  unfolding enrol_clients
  enrol_clients-Keeps client_bin server_pub [] rows = Keeps-pure rows
  enrol_clients-Keeps client_bin server_pub (c ∷ clients) [] = Keeps-lift _
  enrol_clients-Keeps client_bin server_pub (c ∷ clients) (a ∷ rows) =
      search (keeps, enrol_client-Keeps, enrol_clients-Keeps client_bin server_pub clients rows)
        depth 8

  stop_if-Keeps :
      (b : Bool) (rows : List (ServerRow kit.fl.F)) (m : M (List (ServerRow kit.fl.F)))
      → Keeps m
      → Keeps (stop_if kit b rows m)
  unfolding stop_if
  stop_if-Keeps true rows m k = Keeps-pure rows
  stop_if-Keeps false rows m k = k

  setup_rows-Keeps :
      (n start_line expected : ℕ) (rows : List (ServerRow kit.fl.F))
      → Keeps (setup_rows kit n start_line expected rows)
  unfolding setup_rows
  setup_rows-Keeps zero start_line expected rows = Keeps-pure rows
  setup_rows-Keeps (suc n) start_line expected rows =
      search
        (keeps, sleep-Keeps, host_cmd-Keeps, stop_if-Keeps, setup_rows-Keeps n start_line expected)
        depth 12

  pub prepare_zkarche_state-Keeps :
      (server_bin client_bin : Text) (dir : FilePath) (rows : List (Assignment kit.fl.F))
      (clients : List Text)
      → Keeps (prepare_zkarche_state kit server_bin client_bin dir rows clients)
  unfolding prepare_zkarche_state
  prepare_zkarche_state-Keeps server_bin client_bin dir rows clients =
      search (keeps, server_key-Keeps, host_cmd-Keeps, enrol_clients-Keeps, setup_rows-Keeps) depth
        12
