-- ===== src/Mininet/Rows.antt =====
-- experiments/mininet/mininet_tests_123.py: the rows of the results. A row is a record;
-- its cells are the keys and values of the dictionary, in the order of their insertion.
use zk_arche_compare.Base.{
  ℕ, ◌-◌, ◌&&◌, Option, none, some, List, [], ◌∷◌, ◌++◌, Text, codes, text_eq, map, ◌==◌, is_some,
  if◌then◌else◌,
}
use zk_arche_compare.Sessions.{Figures, SessionRow, add_full_session_metrics, add_server_fields}
use zk_arche_compare.Mininet.Lab.{Kit}
use zk_arche_compare.Mininet.Profiles.{server_cpu}
use zk_arche_compare.Mininet.Metrics.{ClientMetrics}
use zk_arche_compare.Mininet.ServerLog.{ServerRow}
use zk_arche_compare.Mininet.Clients.{Assignment}

pub data Cell (F : Type 0) : Type 0 where
  absent : Cell F
  number : ℕ → Cell F
  real : F → Cell F
  word : Text → Cell F

abbrev pub Cells : Type 0 → Type 0
Cells F = List (Text × Cell F)

module _ {F : Type 0} where
  abbrev pub opt_number : Option ℕ → Cell F
  opt_number none = absent
  opt_number (some n) = number n

  abbrev pub opt_real : Option F → Cell F
  opt_real none = absent
  opt_real (some x) = real x

  abbrev pub opt_word : Option Text → Cell F
  opt_word none = absent
  opt_word (some t) = word t

pub record BaseRow (F : Type 0) : Type 0 where
  pub protocol : Text
  pub test_id : Text
  pub workload : Text
  pub run_index : ℕ
  pub round_index : ℕ
  pub iteration : ℕ
  pub client_host : Text
  pub client_ip : Text
  pub client_type : Text
  pub server_cpu : Text
  pub network_delay_ms : F
  pub network_jitter_ms : F
  pub packet_loss_percent : F
  pub gateway_name : Text
  pub gateway_index : ℕ
  pub traffic_role : Text

unfoldable pub base_row : {F : Type 0} → Text → Text → Text → Assignment F → ℕ → ℕ → ℕ → BaseRow F
base_row protocol test_id workload a run_index round_index iteration = record {
  protocol = protocol;
  test_id = test_id;
  workload = workload;
  run_index = run_index;
  round_index = round_index;
  iteration = iteration;
  client_host = a.client_host;
  client_ip = a.client_ip;
  client_type = a.client_type;
  server_cpu = server_cpu;
  network_delay_ms = a.network_delay_ms;
  network_jitter_ms = a.network_jitter_ms;
  packet_loss_percent = a.packet_loss_percent;
  gateway_name = a.gateway_name;
  gateway_index = a.gateway_index;
  traffic_role = a.traffic_role;
}

pub record AuthRow (F : Type 0) : Type 0 where
  pub base : BaseRow F
  pub session : SessionRow F
  pub metrics : ClientMetrics F
  pub auth_wall_elapsed_ms : Option F
  pub batch_elapsed_ms : Option F
  pub status : Text
  pub return_code : ℕ
  pub stdout_tail : Text

-- Setup, full session and total of a server row.
abbrev pub Columns : Type 0 → Type 0
Columns F = Figures F × Figures F × Option ℕ

-- A server row, to which ZK-ARCHE adds the columns of the full session.
pub record ServerResult (F : Type 0) : Type 0 where
  pub row : ServerRow F
  pub columns : Option (Columns F)

module _ {F : Type 0} where
  unfoldable pub base_cells : BaseRow F → Cells F
  base_cells b =
      (codes "protocol", word b.protocol)
      ∷ (codes "test_id", word b.test_id)
      ∷ (codes "workload", word b.workload)
      ∷ (codes "run_index", number b.run_index)
      ∷ (codes "round_index", number b.round_index)
      ∷ (codes "iteration", number b.iteration)
      ∷ (codes "client_host", word b.client_host)
      ∷ (codes "client_ip", word b.client_ip)
      ∷ (codes "client_type", word b.client_type)
      ∷ (codes "server_cpu", word b.server_cpu)
      ∷ (codes "network_delay_ms", real b.network_delay_ms)
      ∷ (codes "network_jitter_ms", real b.network_jitter_ms)
      ∷ (codes "packet_loss_percent", real b.packet_loss_percent)
      ∷ (codes "gateway_name", word b.gateway_name)
      ∷ (codes "gateway_index", number b.gateway_index)
      ∷ (codes "traffic_role", word b.traffic_role)
      ∷ []

  unfoldable pub session_cells : SessionRow F → Cells F
  session_cells s =
      (codes "setup_duration_ms", opt_real s.setup.figures.duration_ms)
      ∷ (codes "setup_sent_bytes", opt_number s.setup.figures.sent_bytes)
      ∷ (codes "setup_received_bytes", opt_number s.setup.figures.received_bytes)
      ∷ (codes "setup_wall_elapsed_ms", opt_real s.setup.wall_elapsed_ms)
      ∷ (codes "auth_duration_ms", opt_real s.auth.duration_ms)
      ∷ (codes "auth_sent_bytes", opt_number s.auth.sent_bytes)
      ∷ (codes "auth_received_bytes", opt_number s.auth.received_bytes)
      ∷ (codes "full_session_duration_ms", opt_real s.full_session.duration_ms)
      ∷ (codes "full_session_sent_bytes", opt_number s.full_session.sent_bytes)
      ∷ (codes "full_session_received_bytes", opt_number s.full_session.received_bytes)
      ∷ (codes "full_session_total_bytes", opt_number s.full_session_total_bytes)
      ∷ []

  unfoldable pub cert_cell : ClientMetrics F → Text × Cell F
  cert_cell m = (codes "client_cert_sha256", opt_word m.client_cert_sha256)

  unfoldable pub request_cells : ClientMetrics F → Cells F
  request_cells m =
      (codes "request_bytes", opt_number m.request_bytes)
      ∷ (codes "response_bytes", opt_number m.response_bytes)
      ∷ (codes "device_id", opt_word m.device_id)
      ∷ []

  unfoldable pub outcome_cells : AuthRow F → Cells F
  outcome_cells r =
      (codes "auth_wall_elapsed_ms", opt_real r.auth_wall_elapsed_ms)
      ∷ (codes "batch_elapsed_ms", opt_real r.batch_elapsed_ms)
      ∷ (codes "status", word r.status)
      ∷ (codes "return_code", number r.return_code)
      ∷ (codes "stdout_tail", word r.stdout_tail)
      ∷ []

  unfoldable pub auth_cells : AuthRow F → Cells F
  unfolding base_cells session_cells cert_cell request_cells outcome_cells
  auth_cells r =
      base_cells r.base
      ++ session_cells r.session
      ++ (cert_cell r.metrics ∷ request_cells r.metrics)
      ++ outcome_cells r

  -- With `--repeat` the certificate comes last of its group.
  unfoldable pub repeat_cells : AuthRow F → Cells F
  unfolding base_cells session_cells cert_cell request_cells outcome_cells
  repeat_cells r =
      base_cells r.base
      ++ session_cells r.session
      ++ (request_cells r.metrics ++ (cert_cell r.metrics ∷ []))
      ++ outcome_cells r

  unfoldable pub server_row_cells : ServerRow F → Cells F
  server_row_cells r =
      (codes "protocol", word r.reading.protocol)
      ∷ (codes "test_id", word r.reading.test_id)
      ∷ (codes "workload", word r.reading.workload)
      ∷ (codes "round_index", number r.reading.round_index)
      ∷ (codes "server_peer", opt_word r.server_peer)
      ∷ (codes "server_auth_duration_ms", opt_real r.auth.duration_ms)
      ∷ (codes "server_sent_bytes", opt_number r.auth.sent_bytes)
      ∷ (codes "server_received_bytes", opt_number r.auth.received_bytes)
      ∷ (codes "server_device_id", opt_word r.server_device_id)
      ∷ (codes "server_client_cert_sha256", opt_word r.server_client_cert_sha256)
      ∷ (codes "server_request_bytes", opt_number r.server_request_bytes)
      ∷ (codes "server_response_bytes", opt_number r.server_response_bytes)
      ∷ (codes "server_payload_bytes", opt_number r.server_payload_bytes)
      ∷ (codes "server_timestamp_ms", opt_number r.server_timestamp_ms)
      ∷ (codes "server_status", word r.server_status)
      ∷ (codes "server_stdout_tail", opt_word r.server_stdout_tail)
      ∷ []

  unfoldable pub server_column_cells : Option (Columns F) → Cells F
  server_column_cells none = []
  server_column_cells (some (setup, full, total)) =
      (codes "server_setup_duration_ms", opt_real setup.duration_ms)
      ∷ (codes "server_setup_sent_bytes", opt_number setup.sent_bytes)
      ∷ (codes "server_setup_received_bytes", opt_number setup.received_bytes)
      ∷ (codes "server_full_session_duration_ms", opt_real full.duration_ms)
      ∷ (codes "server_full_session_sent_bytes", opt_number full.sent_bytes)
      ∷ (codes "server_full_session_received_bytes", opt_number full.received_bytes)
      ∷ (codes "server_full_session_total_bytes", opt_number total)
      ∷ []

  unfoldable pub server_cells : ServerResult F → Cells F
  unfolding server_row_cells server_column_cells
  server_cells r = server_row_cells r.row ++ server_column_cells r.columns

module _ (kit : Kit) where
  open kit use {fl}
  open fl use {F}

  unfoldable pub round4 : F → F
  round4 x = kit.round_to 4 x

  -- `round((end - start) * 1000.0, 4)`
  unfoldable pub elapsed_ms : ℕ → ℕ → F
  unfolding round4
  elapsed_ms start end = round4 (fl.mul (fl.ratio (end - start) 1_000_000_000) (fl.of_nat 1000))

  unfoldable pub status_of : ℕ → ClientMetrics F → Text
  status_of rc metrics =
      if rc == 0 && is_some metrics.auth.duration_ms
      then codes "AUTH_SUCCESS"
      else codes "AUTH_FAILED"

  unfoldable pub session_of : Text → Assignment F → ClientMetrics F → SessionRow F
  unfolding add_full_session_metrics round4
  session_of protocol a metrics = add_full_session_metrics fl round4 protocol a.setup metrics.auth

  -- `add_zkarche_server_full_session_fields` for one row
  unfoldable pub server_columns_of : List (Assignment F) → ServerRow F → Columns F
  unfolding add_server_fields round4
  server_columns_of assignments r =
      add_server_fields fl (round4) (map (λ a. (a.client_ip, a.server_setup)) assignments)
        r.server_peer r.auth

  -- The columns of the full session for each row of ZK-ARCHE.
  unfoldable pub server_results :
      Text → List (Assignment F) → List (ServerRow F) → List (ServerResult F)
  unfolding server_columns_of text_eq
  server_results protocol assignments rows =
      if text_eq protocol (codes "zkarche")
      then map (λ r. record { row = r; columns = some (server_columns_of assignments r) }) rows
      else map (λ r. record { row = r; columns = none }) rows
