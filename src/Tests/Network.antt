-- ===== src/Tests/Network.antt =====
-- The theorems on the Mininet experiment, at concrete inputs.
use zk_arche_compare.Base.{
  ℕ, ◌+◌, ◌≤◌, ◌≡◌, refl, true, false, none, some, List, [], ◌∷◌, ◌++◌, Text, codes, text_eq,
  raised, All, map, is_space, length, arith, index_error,
}
use zk_arche_compare.Regex.{strip_lit}
use zk_arche_compare.Floats.Thousandths.{thousandths}
use zk_arche_compare.Strings.{show_nat, splitlines, strip, partition, int_of}
use zk_arche_compare.World.{dir, Files}
use zk_arche_compare.World.Files.{blocked}
use zk_arche_compare.Sessions.{Figures}
use zk_arche_compare.Mininet.Lab.{Kit, Lab, sleep, attempt, perform, host_open, draw_index}
use zk_arche_compare.Mininet.Lab.Keeps.{running}
use zk_arche_compare.Mininet.Lab.Returns.{Returns, IsRandom}
use zk_arche_compare.Mininet.Profiles.{config_of, ProtocolConfig, background_intensity_profile}
use zk_arche_compare.Mininet.Shell.{wrapped_shell_cmd, in_dir, parse_rc_output, client_auth_cmd}
use zk_arche_compare.Mininet.Shell.Quoted.{argument_after, shell_commands_are_words}
use zk_arche_compare.Mininet.Shell.Status.{marker, parse_rc_output-marker}
use zk_arche_compare.Mininet.Metrics.{
  no_metrics, number_char, read_client_line, parse_client_metrics, parse_all_client_metrics,
}
use zk_arche_compare.Mininet.Metrics.Lines.{client_line, read_as, read_client_line-client_line}
use zk_arche_compare.Mininet.ServerLog.{Reading, ServerRow, server_rows, collect_server_metrics}
use zk_arche_compare.Mininet.ServerLog.Rounds.{with_offset, collect_server_metrics_new_lines}
use zk_arche_compare.Mininet.Clients.{Assignment, pi_name, edge_name, address, make_assignments}
use zk_arche_compare.Mininet.Topology.{Net, NetworkArgs, build_network, draw_choice}
use zk_arche_compare.Mininet.Clients.Assigned.{
  AreAssigned, IsAssigned, make_assignments-AreAssigned,
}
use zk_arche_compare.Mininet.Topology.Wired.{
  IsWired, build_network-IsWired, build_network-no_gateway,
}
use zk_arche_compare.Mininet.Traffic.{
  over_tcp, over_udp, sinks, tcp_flows, udp_flows, total_sinks, start_background_traffic,
  start_flows, start_sink, start_ping, start_tcp, start_udp,
}
use zk_arche_compare.Mininet.Traffic.Ended.{was_terminated}
use zk_arche_compare.Mininet.Traffic.Ports.{has_sink, flows-have_sinks}
use zk_arche_compare.Mininet.Rows.{AuthRow, auth_cells, repeat_cells, server_cells, server_results}
use zk_arche_compare.Mininet.Csv.Columns.{Accepted, result_rows-Accepted}
use zk_arche_compare.Mininet.Batch.{
  Run, sequential_run, auth_command, auth_row, execute_concurrent_batch, execute_sequential,
}
use zk_arche_compare.Mininet.Batch.Numbered.{AreRows, execute_concurrent_batch-AreRows}
use zk_arche_compare.Mininet.Batch.Iterations.{AreIterations, execute_sequential-AreIterations}
use zk_arche_compare.Mininet.Enrol.{give_setups}
use zk_arche_compare.Mininet.Enrol.Setups.{with_latest, give_setups-latest}
use zk_arche_compare.Mininet.Run.{default_args, main, Args, over_network}
use zk_arche_compare.Mininet.Enrol.Unmatched.{option_text, give_setups-option_peers}
use zk_arche_compare.Mininet.Run.Down.{main-network_down}
use zk_arche_compare.Mininet.Run.Ended.{over_network-terminates}

-- Every act takes a millisecond, every path is a directory, and each program prints the same.
abbrev output : Text
output = codes "CLIENT METRICS -> Duration: 1.5ms, Sent: 320 bytes, Received: 240 bytes\n__RC_0__"

abbrev kit : Kit
kit = record {
  fl = thousandths;
  round_to = λ n x. x;
  show_float = show_nat;
  uniform = λ lab lo hi. lo;
  weighted = λ lab ws. 0;
  choice = λ lab n. 0;
  randint = λ lab lo hi. lo;
  takes = λ lab a. 1_000_000;
  leaves = λ lab a. lab.world.files;
  fails = λ lab a. none;
  answers = λ lab host command. output;
  prints = λ lab p. output;
  runs_on = λ lab p. true;
  local_output = λ lab command cwd. (0, codes "");
  der = λ lab p. some (48 ∷ []);
  sha256_hex = λ bytes. codes "00ff";
  show_path = λ p. elim p [ [] ↦ [] | x ∷ q ↦ x ];
}

abbrev all_dirs : Files
all_dirs p = some dir

abbrev lab : Lab
lab = record { world = record { files = all_dirs; clock = 0; log = [] }; environ = []; acts = [] }

abbrev args : Args
unfolding default_args
args = default_args (λ t. t ∷ []) (codes "repo" ∷ [])

main-network_down_example : running (main kit args lab).1.acts ≡ running lab.acts
main-network_down_example = main-network_down kit args lab

shell_commands_are_words_example :
    (argument_after (codes "bash -lc ") (wrapped_shell_cmd (codes "echo 'a b'"))
      ≡ some (codes "(" ++ codes "echo 'a b'" ++ codes ") 2>&1; rc=$?; echo __RC_${rc}__", []))
    × (argument_after (codes "cd ") (in_dir (codes "/tmp/it's $HOME") (codes "echo 'a b'"))
        ≡ some (codes "/tmp/it's $HOME", codes " && " ++ codes "echo 'a b'"))
shell_commands_are_words_example =
    shell_commands_are_words (codes "/tmp/it's $HOME") (codes "echo 'a b'")

parse_rc_output-marker_example :
    parse_rc_output (codes "done\n" ++ marker (show_nat 17)) ≡ (17, strip (codes "done\n"))
unfolding codes show_nat strip_lit
parse_rc_output-marker_example =
    parse_rc_output-marker (codes "done\n") 17 (refl, (refl, (refl, (refl, (refl, tt)))))

read_client_line-client_line_example :
    read_client_line kit
      (client_line (some (codes "mTLS/TCP")) (codes "1.5ms") (show_nat 417) (show_nat 192) [])
      no_metrics
    ≡ read_as kit
        (client_line (some (codes "mTLS/TCP")) (codes "1.5ms") (show_nat 417) (show_nat 192) [])
        (codes "1.5ms")
        417
        192
        no_metrics
unfolding codes is_space
read_client_line-client_line_example =
    read_client_line-client_line kit (some (codes "mTLS/TCP")) (codes "1.5ms") 417 192 [] no_metrics
      (refl, (refl, (refl, (refl, (refl, (refl, (refl, (refl, (refl, tt)))))))))
      (refl, (refl, (refl, (refl, (refl, (refl, tt))))))

abbrev cfg : ProtocolConfig
cfg = record {
  server_bin = codes "mtls_server";
  client_bin = codes "mtls_client";
  port = 7443;
  title = codes "mTLS";
  needs_certs = true;
  needs_setup = false;
}

abbrev mtls_run : Run
mtls_run = record {
  protocol = codes "mtls";
  test_id = codes "1";
  workload = codes "concurrent";
  round_index = 1;
}

abbrev no_figures : Figures ℕ
no_figures = record { duration_ms = none; sent_bytes = none; received_bytes = none }

abbrev client : ℕ → Assignment ℕ
client i = record {
  client_index = i;
  client_host = pi_name i;
  client_ip = address (i + 1);
  client_type = codes "Raspberry Pi 4";
  traffic_role = codes "edge_node";
  gateway_index = i;
  gateway_name = edge_name i;
  bw_mbps = 100;
  network_delay_ms = 8000;
  network_jitter_ms = 1000;
  packet_loss_percent = 0;
  client_workdir = pi_name i ∷ codes "clients" ∷ [];
  setup = record { figures = no_figures; wall_elapsed_ms = none };
  server_setup = no_figures;
}

abbrev two_clients : List (Assignment ℕ)
two_clients = client 1 ∷ client 2 ∷ []

abbrev hosts : List Text
hosts = pi_name 1 ∷ pi_name 2 ∷ []

abbrev net : Net ℕ
net = record { hosts = []; switches = []; links = []; background_hosts = codes "bg1" ∷ [] }

abbrev light_args : Args
light_args = record args { background_traffic = codes "light" }

over_network-terminates_example :
    All
      (λ p.
        was_terminated p
          (over_network kit cfg
            (codes "mtls")
            (codes "server", codes "client")
            light_args
            []
            two_clients
            (net, hosts)
            lab).1.acts
        ≡ true)
      (1 ∷ 2 ∷ 6 ∷ 8 ∷ [])
unfolding codes text_eq start_background_traffic start_flows start_sink start_ping start_tcp
    start_udp draw_index draw_choice host_open attempt perform sleep sinks tcp_flows udp_flows
    background_intensity_profile total_sinks
over_network-terminates_example =
    over_network-terminates kit cfg (codes "mtls") (codes "server", codes "client") light_args []
      two_clients net hosts lab (1 ∷ 2 ∷ 6 ∷ 8 ∷ []) refl

execute_concurrent_batch-AreRows_example :
    Returns
      (AreRows kit mtls_run 0 two_clients)
      (execute_concurrent_batch kit mtls_run (codes "mtls_client") hosts two_clients lab).0
unfolding codes parse_client_metrics parse_rc_output number_char partition int_of auth_command
    client_auth_cmd
execute_concurrent_batch-AreRows_example =
    execute_concurrent_batch-AreRows kit (λ x a. refl) (λ x p. tt) mtls_run (codes "mtls_client")
      hosts two_clients lab (λ a. tt) refl

execute_sequential-AreIterations_example :
    Returns
      (AreIterations kit (sequential_run kit (codes "mtls")) (client 1) 1 3)
      (execute_sequential kit (codes "mtls") (codes "mtls_client") (pi_name 1) (client 1) 3 lab).0
unfolding codes parse_client_metrics parse_all_client_metrics parse_rc_output strip number_char
    partition int_of auth_command client_auth_cmd config_of
execute_sequential-AreIterations_example =
    execute_sequential-AreIterations kit (λ x a. refl) (λ x h c. (tt, tt)) (codes "mtls")
      (codes "mtls_client") (pi_name 1) (client 1) 3 lab (λ a. tt) tt

abbrev reading : Reading
reading = record {
  protocol = codes "mtls";
  test_id = codes "3";
  workload = codes "high_load";
  round_index = 2;
}

abbrev log_kit : Kit
log_kit = record kit {
  answers = λ x host command.
      codes "first\nSERVER METRICS -> 10.0.0.2:4 Duration: 2ms, Sent: 1 bytes, Received: 2 bytes";
}

collect_server_metrics_new_lines_example :
    (collect_server_metrics log_kit reading
      (length (splitlines (codes "first" ++ (10 ∷ []))))
      lab).0
    ≡ with_offset log_kit
        (length (
          splitlines (
            codes "first"
            ++ (10
                ∷ codes
                    "SERVER METRICS -> 10.0.0.2:4 Duration: 2ms, Sent: 1 bytes, Received: 2 bytes"))))
        (server_rows log_kit reading (
          splitlines
            (codes "SERVER METRICS -> 10.0.0.2:4 Duration: 2ms, Sent: 1 bytes, Received: 2 bytes")))
unfolding codes
collect_server_metrics_new_lines_example =
    collect_server_metrics_new_lines log_kit (λ x a. refl) reading (codes "first")
      (codes "SERVER METRICS -> 10.0.0.2:4 Duration: 2ms, Sent: 1 bytes, Received: 2 bytes") lab
      refl

kit-IsRandom : IsRandom kit
kit-IsRandom = record {
  weighted_in_range = λ x w ws. omega arith;
  choice_in_range = λ x n. omega arith;
}

make_assignments-AreAssigned_example :
    Returns
      (AreAssigned kit 4 1 2)
      (make_assignments kit 2 (codes "clients" ∷ []) (codes "raspberry-pi") 4 lab).0
unfolding blocked
make_assignments-AreAssigned_example =
    make_assignments-AreAssigned kit kit-IsRandom 2 (codes "clients" ∷ []) (codes "raspberry-pi") 4
      lab (record { above = (refl, refl); children = λ i. refl })

client-IsAssigned : (i : ℕ) → 1 ≤ i → i ≤ 4 → IsAssigned kit 4 i (client i)
client-IsAssigned i h k = record {
  numbered = refl;
  named = refl;
  addressed = refl;
  behind = (h, k);
}

build_network-IsWired_example :
    Returns
      (λ r. IsWired kit 4 two_clients r.0 × (r.1 ≡ map (λ a. a.client_host) two_clients))
      (build_network kit two_clients args.network lab).0
unfolding codes text_eq args
build_network-IsWired_example =
    build_network-IsWired kit kit-IsRandom 2 two_clients args.network lab
      (
        client-IsAssigned 1 (omega arith) (omega arith),
        (client-IsAssigned 2 (omega arith) (omega arith), tt),
      )
      refl (omega arith)

abbrev no_gateways : NetworkArgs
no_gateways = record { network_model = codes "multi-tier"; gateway_count = 0; background_hosts = 0 }

build_network-no_gateway_example :
    (build_network kit (client 1 ∷ []) no_gateways lab).0 ≡ raised index_error
unfolding codes text_eq
build_network-no_gateway_example =
    build_network-no_gateway kit (client 1) [] no_gateways lab refl refl

flows-have_sinks_example :
    let p = background_intensity_profile (codes "heavy") in
    All (λ f. has_sink over_tcp f.0 (sinks p) ≡ true) (tcp_flows p hosts)
    × All (λ f. has_sink over_tcp f.0 (sinks p) ≡ true) (udp_flows p hosts)
    × All (λ f. has_sink over_udp f.0 (sinks p) ≡ false) (udp_flows p hosts)
flows-have_sinks_example = flows-have_sinks (background_intensity_profile (codes "heavy")) hosts

abbrev server_line : ServerRow ℕ
server_line = record {
  reading = reading;
  server_peer = some (codes "10.0.0.3:50412");
  auth = record { duration_ms = some 2000; sent_bytes = some 1; received_bytes = some 2 };
  server_device_id = none;
  server_client_cert_sha256 = none;
  server_request_bytes = none;
  server_response_bytes = none;
  server_payload_bytes = none;
  server_timestamp_ms = none;
  server_status = codes "SERVER_METRIC";
  server_stdout_tail = none;
}

-- The row of a client whose output had no metrics.
abbrev failed_rows : List (AuthRow ℕ)
failed_rows = auth_row kit mtls_run (client 1) 1 (1, codes "refused") no_metrics none none ∷ []

result_rows-Accepted_example :
    Accepted kit (map auth_cells failed_rows)
    × Accepted kit (map repeat_cells failed_rows)
    × Accepted kit (
        map server_cells
          (server_results kit (codes "zkarche") two_clients (server_line ∷ server_line ∷ [])))
result_rows-Accepted_example =
    result_rows-Accepted kit (codes "zkarche") two_clients failed_rows
      (server_line ∷ server_line ∷ [])

give_setups-latest_example :
    give_setups kit (server_line ∷ []) two_clients
    ≡ map (with_latest kit (server_line ∷ [])) two_clients
unfolding address show_nat codes text_eq
give_setups-latest_example =
    give_setups-latest kit (server_line ∷ []) two_clients ((refl, tt), (tt, tt))

abbrev printed_line : ServerRow ℕ
printed_line = record server_line { server_peer = some (option_text (codes "10.0.0.3:50412")) }

give_setups-option_peers_example : give_setups kit (printed_line ∷ []) two_clients ≡ two_clients
unfolding address
give_setups-option_peers_example =
    give_setups-option_peers kit (printed_line ∷ []) two_clients
      ((codes "10.0.0.3:50412", refl), tt) ((2, refl), ((3, refl), tt))
