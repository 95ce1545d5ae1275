-- ===== src/Mininet/Enrol.antt =====
-- experiments/mininet/mininet_tests_123.py: the enrolment of the ZK-ARCHE clients, with the figures of the
-- client and of the server for each.
pub mod Setups
pub mod Unmatched
pub mod Keeps
use zk_arche_compare.Base.{
  ℕ, zero, suc, ◌+◌, Bool, true, false, ◌&&◌, ◌||◌, not, Option, none, some, List, [], ◌∷◌, ◌++◌,
  Text, codes, text_eq, is_digit, Result, ok, raised, index_error, runtime_error, ◌==◌, leb, length,
  if◌then◌else◌,
}
use zk_arche_compare.Strings.{splitlines, strip}
use zk_arche_compare.World.{FilePath}
use zk_arche_compare.Sessions.{Figures, peer_ip}
use zk_arche_compare.Mininet.Lab.{
  Kit, M, pure, raise, lift, act, when, ◌>>=◌, ◌>>◌, perf_counter, sleep, host_cmd,
}
use zk_arche_compare.Mininet.Profiles.{config_of, pairing_token}
use zk_arche_compare.Mininet.Shell.{quote, in_dir, server_addr, host_cmd_with_status}
use zk_arche_compare.Mininet.Metrics.{ClientMetrics, parse_client_metrics}
use zk_arche_compare.Mininet.ServerLog.{Reading, ServerRow, cat_log, parse_server_metrics_log}
use zk_arche_compare.Mininet.Clients.{Assignment}
use zk_arche_compare.Mininet.Prepare.{run_local}
use zk_arche_compare.Mininet.Rows.{elapsed_ms}

unfoldable pub is_hex : ℕ → Bool
unfolding is_digit
is_hex c = is_digit c || (leb b'a' c && leb c b'f') || (leb b'A' c && leb c b'F')

unfoldable pub all_hex : Text → Bool
unfolding is_hex
all_hex [] = true
all_hex (c ∷ s) = is_hex c && all_hex s

-- `re.fullmatch(r"[0-9a-fA-F]{64}", s)`
unfoldable pub is_public_key : Text → Bool
unfolding all_hex
is_public_key s = length s == 64 && all_hex s

-- `lines[-1]`
unfoldable pub last_line : List Text → Result Text
last_line [] = raised index_error
last_line (l ∷ []) = ok l
last_line (l ∷ m ∷ ls) = last_line (m ∷ ls)

unfoldable pub key_of : Result Text → Result Text
unfolding strip is_public_key
key_of (raised e) = raised e
key_of (ok line) = if is_public_key (strip line) then ok (strip line) else raised runtime_error

abbrev pub setup_reading : Reading
setup_reading = record {
  protocol = codes "zkarche";
  test_id = codes "setup";
  workload = codes "setup";
  round_index = 0;
}

module _ (kit : Kit) where
  open kit use {fl, show_path}
  open fl use {F}

  -- `print_pubkey` of the server, in its directory.
  unfoldable pub server_key : Text → FilePath → M Text
  server_key server_bin workdir = do
    out ←
        run_local kit true (quote server_bin ++ codes " --print-pubkey")
          (some (codes "server" ∷ workdir))
    lift (key_of (last_line (splitlines out)))

  unfoldable pub pin_command : Text → Text → Text → Text
  unfolding in_dir quote
  pin_command dir client_bin server_pub =
      in_dir dir (quote client_bin ++ codes " --pin-server-pub " ++ server_pub)

  unfoldable pub setup_command : Text → Text → Text → Text
  unfolding in_dir quote
  setup_command dir client_bin addr = in_dir dir (
      quote client_bin
      ++ codes " --server "
      ++ addr
      ++ codes " --setup --pairing-token "
      ++ quote pairing_token)

  unfoldable pub with_setup : Assignment F → Figures F → F → Assignment F
  with_setup a figures wall = record a {
    setup = record { figures = figures; wall_elapsed_ms = some wall };
    server_setup = record { duration_ms = none; sent_bytes = none; received_bytes = none };
  }

  -- A status other than 0 ends the runner.
  abbrev succeed : ℕ → M (Unit {0})
  succeed rc = when (not (rc == 0)) (raise runtime_error)

  unfoldable pub enrol_client : Text → Text → Text → Assignment F → M (Assignment F)
  enrol_client client_bin server_pub client a = do
    pinned ←
        host_cmd_with_status kit client
          (pin_command (show_path a.client_workdir) client_bin server_pub)
    succeed pinned.0
    cfg ← lift (config_of (codes "zkarche"))
    start ← perf_counter
    out ←
        host_cmd_with_status kit client
          (setup_command (show_path a.client_workdir) client_bin (server_addr cfg))
    now ← perf_counter
    succeed out.0
    metrics ← lift (parse_client_metrics kit out.1)
    pure (with_setup a metrics.auth (elapsed_ms kit start now))

  unfoldable pub enrol_clients :
      Text → Text → List Text → List (Assignment F) → M (List (Assignment F))
  enrol_clients client_bin server_pub [] assignments = pure assignments
  enrol_clients client_bin server_pub (client ∷ clients) [] = raise index_error
  enrol_clients client_bin server_pub (client ∷ clients) (a ∷ assignments) = do
    enrolled ← enrol_client client_bin server_pub client a
    rest ← enrol_clients client_bin server_pub clients assignments
    pure (enrolled ∷ rest)

  -- `if len(setup_rows) >= expected: break`
  unfoldable pub stop_if :
      Bool → List (ServerRow F) → M (List (ServerRow F)) → M (List (ServerRow F))
  stop_if true rows m = pure rows
  stop_if false rows m = m

  -- The log is read until it has a row for each client, at most so many times.
  unfoldable pub setup_rows : ℕ → ℕ → ℕ → List (ServerRow F) → M (List (ServerRow F))
  setup_rows zero start_line expected rows = pure rows
  setup_rows (suc n) start_line expected rows = do
    act (sleep kit 100_000_000)
    log ← host_cmd kit (codes "server") (cat_log (codes "zkarche"))
    read ← lift (parse_server_metrics_log kit setup_reading log start_line)
    stop_if (leb expected (length read.0)) read.0 (setup_rows n start_line expected read.0)

  -- `by_ip[ip]` is the last assignment with the address; `none` where there is none.
  unfoldable pub give_last : Text → Figures F → List (Assignment F) → Option (List (Assignment F))
  unfolding text_eq
  give_last ip figures [] = none
  give_last ip figures (a ∷ assignments) = elim (give_last ip figures assignments) [
    | some rest ↦ some (a ∷ rest)
    | none ↦
        if text_eq a.client_ip ip
        then some (record a { server_setup = figures } ∷ assignments)
        else none
  ]

  abbrev pub kept_or {ℓ} : {A : Type ℓ} → Option A → A → A
  kept_or none a = a
  kept_or (some b) a = b

  unfoldable pub give_setups : List (ServerRow F) → List (Assignment F) → List (Assignment F)
  unfolding give_last peer_ip
  give_setups [] assignments = assignments
  give_setups (row ∷ rows) assignments =
      give_setups rows
        (kept_or (give_last (peer_ip row.server_peer) row.auth assignments) assignments)

  unfoldable pub prepare_zkarche_state :
      Text → Text → FilePath → List (Assignment F) → List Text → M (List (Assignment F))
  prepare_zkarche_state server_bin client_bin workdir assignments clients = do
    server_pub ← server_key server_bin workdir
    before ← host_cmd kit (codes "server") (cat_log (codes "zkarche"))
    enrolled ← enrol_clients client_bin server_pub clients assignments
    rows ← setup_rows 20 (length (splitlines before)) (length clients) []
    pure (give_setups rows enrolled)
