-- ===== src/Parse.antt =====
-- benchmarks/lib/parse.py: the metric lines of the clients and servers.
pub mod Stream
pub mod Pieces
pub mod Figures
pub mod RoundTrip
pub mod Tests
use zk_arche_compare.Base.{
  ℕ, ◌+◌, Bool, true, false, ◌||◌, not, Option, none, some, List, [], ◌∷◌, Text, codes, is_digit,
  is_space, ◌==◌, text_eq, if◌then◌else◌,
}
use zk_arche_compare.Floats.{Floats}
use zk_arche_compare.Regex.{
  Re, lit, one, many, lazy, seq, alt, opt, group, Captures, search_in, capture, many1,
}
use zk_arche_compare.Strings.{splitlines, digits_value}

abbrev pub spaces : Re
spaces = many is_space

-- `\s+`
abbrev pub spaces1 : Re
spaces1 = many1 is_space

abbrev pub no_comma : ℕ → Bool
no_comma c = not (c == b',')

-- (?P<role>CLIENT|SERVER)
abbrev pub role_re : Re
role_re = group 1 (alt (lit (codes "CLIENT")) (lit (codes "SERVER")))

-- (?P<dur>\d+(?:\.\d+)?)
abbrev pub dur_re : Re
dur_re = group 2 (seq (many1 is_digit) (opt (seq (lit (codes ".")) (many1 is_digit))))

-- (?P<unit>ns|µs|us|ms|s)
abbrev pub unit_re : Re
unit_re = group 3 (
    alt (lit (codes "ns"))
      (alt (lit (codes "µs")) (alt (lit (codes "us")) (alt (lit (codes "ms")) (lit (codes "s"))))))

-- \s*,\s*
abbrev pub comma_re : Re
comma_re = seq spaces (seq (lit (codes ",")) spaces)

-- label\s*(\d+)\s*bytes
abbrev pub bytes_re : ℕ → Text → Re
bytes_re i label =
    seq (lit label) (seq spaces (seq (group i (many1 is_digit)) (seq spaces (lit (codes "bytes")))))

-- From `Duration:` to the end of the pattern.
abbrev pub figures_re : Re
figures_re = seq spaces (
    seq (lit (codes "Duration:")) (
      seq spaces (
        seq dur_re (
          seq unit_re (
            seq comma_re (
              seq (bytes_re 4 (codes "Sent:")) (seq comma_re (bytes_re 5 (codes "Received:")))))))))

-- (?:\s*[^,]*?)?
abbrev pub peer_re : Re
peer_re = opt (seq spaces (lazy no_comma))

-- `_METRICS_RE`; the groups role, dur, unit, sent, recv have the numbers 1 to 5.
abbrev pub metrics_re : Re
metrics_re = seq role_re (
    seq spaces1
      (seq (lit (codes "METRICS")) (seq spaces (seq (lit (codes "->")) (seq peer_re figures_re)))))

pub record MetricsLine (F : Type 0) : Type 0 where
  pub role : Text
  pub duration_ms : F
  pub sent_bytes : ℕ
  pub recv_bytes : ℕ

unfoldable pub total_bytes : {F : Type 0} → MetricsLine F → ℕ
total_bytes m = m.sent_bytes + m.recv_bytes

module _ (fl : Floats) where
  open fl use {F, of_text, ratio, mul}

  -- `_UNIT_TO_MS[unit]`; the pattern lets no other unit through.
  unfoldable pub unit_to_ms : Text → F
  unfolding text_eq codes
  unit_to_ms unit =
      if text_eq unit (codes "ns")
      then ratio 1 1_000_000
      else if text_eq unit (codes "µs") || text_eq unit (codes "us")
      then ratio 1 1000
      else if text_eq unit (codes "ms")
      then ratio 1 1
      else ratio 1000 1

  -- The text of the group `dur` is a decimal number, which `float` accepts.
  abbrev pub float_of : Text → F
  float_of t = elim (of_text t) [ some x ↦ x | none ↦ fl.nan ]

  unfoldable pub metrics_of : Captures → MetricsLine F
  unfolding capture unit_to_ms digits_value
  metrics_of m = record {
    role = capture 1 m;
    duration_ms = mul (float_of (capture 2 m)) (unit_to_ms (capture 3 m));
    sent_bytes = digits_value 0 (capture 4 m);
    recv_bytes = digits_value 0 (capture 5 m);
  }

  unfoldable pub parse_line : Text → Option (MetricsLine F)
  unfolding metrics_of
  parse_line line = elim (search_in metrics_re line) [ none ↦ none | some m ↦ some (metrics_of m) ]

  unfoldable pub parse_stream : List Text → List (MetricsLine F)
  parse_stream [] = []
  parse_stream (ln ∷ lines) = elim (parse_line ln) [
    | some m ↦ m ∷ parse_stream lines
    | none ↦ parse_stream lines
  ]

  abbrev pub is_client : MetricsLine F → Bool
  is_client m = text_eq m.role (codes "CLIENT")

  -- The loop of `first_client_metrics` over the lines.
  unfoldable pub first_client : List Text → Option (MetricsLine F)
  first_client [] = none
  first_client (ln ∷ lines) = elim (parse_line ln) [
    | some m ↦ let rest = first_client lines in if is_client m then some m else rest
    | none ↦ first_client lines
  ]

  unfoldable pub first_client_metrics : Text → Option (MetricsLine F)
  unfolding first_client splitlines
  first_client_metrics text = first_client (splitlines text)
