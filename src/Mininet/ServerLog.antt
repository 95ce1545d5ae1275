-- ===== src/Mininet/ServerLog.antt =====
-- experiments/mininet/mininet_tests_123.py: the metric lines in the log of a server, which is read from
-- where the last reading ended.
pub mod Rounds
use zk_arche_compare.Base.{
  ℕ, ◌+◌, Bool, true, false, Option, none, some, List, [], ◌∷◌, ◌++◌, Text, codes, Result, ok,
  raised, ◌==◌, is_some, length, drop, if◌then◌else◌,
}
use zk_arche_compare.Regex.{Re, lit, one, lazy, seq, group, many1, Captures, search_in, capture}
use zk_arche_compare.Strings.{splitlines, contains, strip, lstrip, rstrip, last_chars}
use zk_arche_compare.Parse.{spaces, spaces1, no_comma}
use zk_arche_compare.Sessions.{Figures}
use zk_arche_compare.Mininet.Lab.{Kit, M, pure, lift, act, ◌>>=◌, ◌>>◌, host_cmd, sleep}
use zk_arche_compare.Mininet.Shell.{quote}
use zk_arche_compare.Mininet.Metrics.{
  arrow, comma, protocol_part, figures_from, figures_of, key_value, text_or, int_or,
}

-- Peer:\s*([^,]+),\s*Protocol:\s*[^,]+,\s* and the figures
abbrev pub full_re : Re
full_re = arrow (codes "SERVER") (
    seq (lit (codes "Peer:"))
      (seq spaces (seq (group 1 (many1 no_comma)) (comma (protocol_part (figures_from 2))))))

-- ([^,]+?)\s+ and the figures
abbrev pub compact_re : Re
compact_re =
    arrow (codes "SERVER")
      (seq (group 1 (seq (one no_comma) (lazy no_comma))) (seq spaces1 (figures_from 2)))

-- The dictionary of a server row: which reading it belongs to, and what the line says.
pub record Reading : Type 0 where
  pub protocol : Text
  pub test_id : Text
  pub workload : Text
  pub round_index : ℕ

pub record ServerRow (F : Type 0) : Type 0 where
  pub reading : Reading
  pub server_peer : Option Text
  pub auth : Figures F
  pub server_device_id : Option Text
  pub server_client_cert_sha256 : Option Text
  pub server_request_bytes : Option ℕ
  pub server_response_bytes : Option ℕ
  pub server_payload_bytes : Option ℕ
  pub server_timestamp_ms : Option ℕ
  pub server_status : Text
  pub server_stdout_tail : Option Text

unfoldable pub empty_server_metric_row : {F : Type 0} → Reading → ServerRow F
empty_server_metric_row reading = record {
  reading = reading;
  server_peer = none;
  auth = record { duration_ms = none; sent_bytes = none; received_bytes = none };
  server_device_id = none;
  server_client_cert_sha256 = none;
  server_request_bytes = none;
  server_response_bytes = none;
  server_payload_bytes = none;
  server_timestamp_ms = none;
  server_status = codes "SERVER_METRIC";
  server_stdout_tail = none;
}

-- `s.replace("\n", " | ")`
unfoldable pub on_one_line : Text → Text
on_one_line [] = []
on_one_line (c ∷ s) = let rest = on_one_line s in if c == 10 then codes " | " ++ rest else c ∷ rest

-- `s[-300:].replace("\n", " | ")`
unfoldable pub tail_of : Text → Text
unfolding last_chars on_one_line
tail_of s = on_one_line (last_chars 300 s)

-- `s.strip().strip('"')`
unfoldable pub unquoted : Text → Text
unfolding strip lstrip rstrip
unquoted s = rstrip (λ c. c == 34) (lstrip (λ c. c == 34) (strip s))

-- The pattern of the upgraded lines comes first.
unfoldable pub server_match : Text → Option Captures
unfolding search_in
server_match line = elim (search_in full_re line) [
  | some m ↦ some m
  | none ↦ search_in compact_re line
]

-- `/tmp/{protocol}_tests123_server.log`
unfoldable pub server_log_path : Text → Text
server_log_path protocol = codes "/tmp/" ++ protocol ++ codes "_tests123_server.log"

unfoldable pub cat_log : Text → Text
unfolding quote server_log_path
cat_log protocol = codes "cat " ++ quote (server_log_path protocol) ++ codes " 2>/dev/null || true"

module _ (kit : Kit) where
  open kit use {fl}
  open fl use {F}

  unfoldable pub server_row : Reading → Text → Captures → Figures F → ServerRow F
  unfolding empty_server_metric_row unquoted capture key_value text_or int_or tail_of
  server_row reading line m auth = record (empty_server_metric_row reading) {
    server_peer = some (unquoted (capture 1 m));
    auth = auth;
    server_device_id = text_or (key_value (codes "DeviceID") line) none;
    server_client_cert_sha256 = text_or (key_value (codes "ClientCertSHA256") line) none;
    server_request_bytes = int_or (key_value (codes "RequestBytes") line) none;
    server_response_bytes = int_or (key_value (codes "ResponseBytes") line) none;
    server_payload_bytes = int_or (key_value (codes "PayloadBytes") line) none;
    server_timestamp_ms = int_or (key_value (codes "TimestampMs") line) none;
    server_stdout_tail = some (tail_of line);
  }

  abbrev read_match : Reading → Text → Option Captures → Result (Option (ServerRow F))
  read_match reading line none = ok none
  read_match reading line (some m) = elim (figures_of kit 2 m) [
    | raised e ↦ raised e
    | ok auth ↦ ok (some (server_row reading line m auth))
  ]

  unfoldable pub parse_server_metrics_line : Reading → Text → Result (Option (ServerRow F))
  unfolding contains server_match server_row figures_of
  parse_server_metrics_line reading line =
      if contains (codes "SERVER METRICS ->") line
      then read_match reading line (server_match line)
      else ok none

  -- A row counts if its duration was read.
  abbrev pub timed : Option (ServerRow F) → List (ServerRow F) → List (ServerRow F)
  timed none rows = rows
  timed (some row) rows = if is_some row.auth.duration_ms then row ∷ rows else rows

  unfoldable pub server_rows : Reading → List Text → Result (List (ServerRow F))
  unfolding parse_server_metrics_line
  server_rows reading [] = ok []
  server_rows reading (line ∷ lines) = elim (parse_server_metrics_line reading line) [
    | raised e ↦ raised e
    | ok row ↦ elim (server_rows reading lines) [
      | raised e ↦ raised e
      | ok rows ↦ ok (timed row rows)
    ]
  ]

  unfoldable pub parse_server_metrics_log : Reading → Text → ℕ → Result (List (ServerRow F) × ℕ)
  unfolding splitlines server_rows
  parse_server_metrics_log reading log_text start_line =
      elim (server_rows reading (drop start_line (splitlines log_text))) [
        | raised e ↦ raised e
        | ok rows ↦ ok (rows, length (splitlines log_text))
      ]

  -- The rows, and the offset for the next reading.
  unfoldable pub collect_server_metrics : Reading → ℕ → M (List (ServerRow F) × ℕ)
  collect_server_metrics reading offset = do
    act (sleep kit 200_000_000)
    output ← host_cmd kit (codes "server") (cat_log reading.protocol)
    lift (parse_server_metrics_log reading output offset)
