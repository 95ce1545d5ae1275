-- ===== src/Mininet/Metrics.antt =====
-- experiments/mininet/mininet_tests_123.py: the metric lines of the clients. A duration whose digits and
-- points are no number, such as `1.2.3ms`, raises a `ValueError`.
pub mod Pieces
pub mod Lines
use zk_arche_compare.Base.{
  ℕ, ◌+◌, Bool, true, false, ◌||◌, Option, none, some, List, [], ◌∷◌, ◌++◌, Text, codes, text_eq,
  is_digit, ◌==◌, Result, ok, raised, value_error, is_some, if◌then◌else◌,
}
use zk_arche_compare.Floats.{Floats}
use zk_arche_compare.Regex.{
  Re, lit, seq, alt, opt, group, many1, Captures, match_at, search_in, capture,
}
use zk_arche_compare.Strings.{splitlines, contains, strip, int_of, digits_value}
use zk_arche_compare.Parse.{spaces, no_comma, bytes_re}
use zk_arche_compare.Sessions.{Figures}
use zk_arche_compare.Mininet.Lab.{Kit}

unfoldable pub number_char : ℕ → Bool
unfolding is_digit
number_char c = is_digit c || c == b'.'

-- ([0-9.]+)\s*(ns|µs|us|ms|s)
abbrev pub duration_re : Re
duration_re = seq (group 1 (many1 number_char)) (
    seq spaces (
      group 2 (
        alt (lit (codes "ns")) (
          alt (lit (codes "µs"))
            (alt (lit (codes "us")) (alt (lit (codes "ms")) (lit (codes "s"))))))))

-- ,\s*
abbrev pub comma : Re → Re
comma e = seq (lit (codes ",")) (seq spaces e)

-- Duration:\s*([^,]+),\s*Sent:\s*(\d+)\s*bytes,\s*Received:\s*(\d+)\s*bytes
abbrev pub figures_from : ℕ → Re
figures_from i = seq (lit (codes "Duration:")) (
    seq spaces (
      seq (group i (many1 no_comma)) (
        comma
          (seq (bytes_re (i + 1) (codes "Sent:")) (comma (bytes_re (i + 2) (codes "Received:")))))))

-- Protocol:\s*[^,]+,\s*
abbrev pub protocol_part : Re → Re
protocol_part e = seq (lit (codes "Protocol:")) (seq spaces (seq (many1 no_comma) (comma e)))

-- label METRICS\s*->\s*
abbrev pub arrow : Text → Re → Re
arrow label e =
    seq (lit (label ++ codes " METRICS")) (seq spaces (seq (lit (codes "->")) (seq spaces e)))

abbrev pub client_re : Re
client_re = arrow (codes "CLIENT") (seq (opt (protocol_part (lit []))) (figures_from 1))

-- {key}:\s*([^,]+)
abbrev pub key_re : Text → Re
key_re key = seq (lit (key ++ codes ":")) (seq spaces (group 1 (many1 no_comma)))

-- `km.group(1).strip()` where the key is found on the line
unfoldable pub key_value : Text → Text → Option Text
unfolding search_in capture strip
key_value key line = elim (search_in (key_re key) line) [
  | none ↦ none
  | some m ↦ some (strip (capture 1 m))
]

-- What the key had before stays where the line does not name it.
unfoldable pub text_or : Option Text → Option Text → Option Text
text_or none old = old
text_or (some v) old = some v

unfoldable pub int_or : Option Text → Option ℕ → Option ℕ
unfolding int_of
int_or none old = old
int_or (some v) old = int_of v

-- The dictionary of `parse_client_metrics`.
pub record ClientMetrics (F : Type 0) : Type 0 where
  pub auth : Figures F
  pub client_cert_sha256 : Option Text
  pub request_bytes : Option ℕ
  pub response_bytes : Option ℕ
  pub device_id : Option Text

unfoldable pub no_metrics : {F : Type 0} → ClientMetrics F
no_metrics = record {
  auth = record { duration_ms = none; sent_bytes = none; received_bytes = none };
  client_cert_sha256 = none;
  request_bytes = none;
  response_bytes = none;
  device_id = none;
}

module _ (kit : Kit) where
  open kit use {fl, round_to}
  open fl use {F, of_text, of_nat, div, mul}

  -- `unit` is one of those of the pattern.
  unfoldable pub in_ms : Text → F → F
  unfolding text_eq
  in_ms unit value =
      if text_eq unit (codes "ns")
      then div value (of_nat 1_000_000)
      else if text_eq unit (codes "µs") || text_eq unit (codes "us")
      then div value (of_nat 1000)
      else if text_eq unit (codes "ms")
      then value
      else mul value (of_nat 1000)

  unfoldable pub scaled : Text → Option F → Result (Option F)
  unfolding in_ms
  scaled unit none = raised value_error
  scaled unit (some value) = ok (some (in_ms unit value))

  unfoldable pub duration_of : Option Captures → Result (Option F)
  unfolding scaled capture
  duration_of none = ok none
  duration_of (some m) = scaled (capture 2 m) (of_text (capture 1 m))

  unfoldable pub parse_duration_to_ms : Text → Result (Option F)
  unfolding duration_of match_at strip text_eq
  parse_duration_to_ms text =
      if text_eq text [] then ok none else duration_of (match_at duration_re (strip text))

  -- `round(parsed, 4) if parsed is not None else None`
  unfoldable pub rounded : Option F → Option F
  rounded none = none
  rounded (some x) = some (round_to 4 x)

  -- The figures in the groups i, i + 1 and i + 2.
  unfoldable pub figures_of : ℕ → Captures → Result (Figures F)
  unfolding parse_duration_to_ms capture rounded digits_value
  figures_of i m = elim (parse_duration_to_ms (capture i m)) [
    | raised e ↦ raised e
    | ok parsed ↦ ok (record {
      duration_ms = rounded parsed;
      sent_bytes = some (digits_value 0 (capture (i + 1) m));
      received_bytes = some (digits_value 0 (capture (i + 2) m));
    })
  ]

  unfoldable pub with_keys : Text → ClientMetrics F → Figures F → ClientMetrics F
  unfolding key_value text_or int_or
  with_keys line metrics auth = record {
    auth = auth;
    client_cert_sha256 =
        text_or (key_value (codes "ClientCertSHA256") line) metrics.client_cert_sha256;
    request_bytes = int_or (key_value (codes "RequestBytes") line) metrics.request_bytes;
    response_bytes = int_or (key_value (codes "ResponseBytes") line) metrics.response_bytes;
    device_id = text_or (key_value (codes "DeviceID") line) metrics.device_id;
  }

  -- One round of the loop over the lines.
  unfoldable pub read_client_line : Text → ClientMetrics F → Result (ClientMetrics F)
  unfolding search_in figures_of with_keys
  read_client_line line metrics = elim (search_in client_re line) [
    | none ↦ ok metrics
    | some m ↦ elim (figures_of 1 m) [
      | raised e ↦ raised e
      | ok auth ↦ ok (with_keys line metrics auth)
    ]
  ]

  unfoldable pub read_client_lines : List Text → ClientMetrics F → Result (ClientMetrics F)
  unfolding read_client_line
  read_client_lines [] metrics = ok metrics
  read_client_lines (line ∷ lines) metrics = elim (read_client_line line metrics) [
    | raised e ↦ raised e
    | ok more ↦ read_client_lines lines more
  ]

  unfoldable pub parse_client_metrics : Text → Result (ClientMetrics F)
  unfolding read_client_lines splitlines no_metrics
  parse_client_metrics output = read_client_lines (splitlines output) no_metrics

  unfoldable pub is_measured : ClientMetrics F → Bool
  is_measured m = is_some m.auth.duration_ms

  abbrev keep_measured : ClientMetrics F → List (ClientMetrics F) → List (ClientMetrics F)
  keep_measured m rest = if is_measured m then m ∷ rest else rest

  unfoldable pub all_client_lines : List Text → Result (List (ClientMetrics F))
  unfolding contains parse_client_metrics is_measured
  all_client_lines [] = ok []
  all_client_lines (line ∷ lines) =
      let rest = all_client_lines lines in
      if contains (codes "CLIENT METRICS ->") line
      then elim (parse_client_metrics line) [
        | raised e ↦ raised e
        | ok m ↦ elim rest [ raised e ↦ raised e | ok ms ↦ ok (keep_measured m ms) ]
      ]
      else rest

  unfoldable pub parse_all_client_metrics : Text → Result (List (ClientMetrics F))
  unfolding all_client_lines splitlines
  parse_all_client_metrics output = all_client_lines (splitlines output)
