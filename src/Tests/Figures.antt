-- ===== src/Tests/Figures.antt =====
-- Figures that are read, summed up and sampled, and a whole test.
use zk_arche_compare.Base.{
  ℕ, ◌*◌, ◌/◌, ◌≡◌, refl, Bool, true, none, some, List, [], ◌∷◌, ◌++◌, Text, codes, keep, keep_some,
  arith, is_digit, not, ◌&&◌, ◌==◌,
}
use mathlib.Core.Option
use zk_arche_compare.Floats.Thousandths.{thousandths}
use zk_arche_compare.Strings.{show_nat, splitlines, words}
use zk_arche_compare.World.{completed, pure}
use zk_arche_compare.World.Live.{live}
use zk_arche_compare.Parse.{
  parse_line, parse_stream, first_client_metrics, is_client, unit_to_ms, float_of,
}
use zk_arche_compare.Parse.Pieces.{Decimal, IsDecimal, decimal_text, unit_text, millis}
use zk_arche_compare.Parse.RoundTrip.{client, line_text, role_text, parse_line-line_text}
use zk_arche_compare.Parse.Stream.{head?, first_client_metrics-eq-head?}
use zk_arche_compare.Runner.Client.{client_result}
use zk_arche_compare.Runner.Client.Outcome.{IsAuthenticated, stdout_metrics, client_result_lem}
use zk_arche_compare.Sampler.{Machine, Reading, new_sampler, sample_all, read_stat, stat_fields}
use zk_arche_compare.Sampler.Fields.{Without, read_stat-after_paren}
use zk_arche_compare.Sampler.Peak.{IsPeak, rss_of, sample_all-IsPeak}
use zk_arche_compare.Driver.{run_test}
use zk_arche_compare.Driver.Clean.{run_test-leaves_no_server}
use zk_arche_compare.Tests.Machine.{pi4, config, installed, open_machine, metric_line}

abbrev two_and_a_half : Decimal
two_and_a_half = record { first = b'2'; more = []; fraction = some (b'5', []) }

two_and_a_half-IsDecimal : IsDecimal two_and_a_half
unfolding is_digit
two_and_a_half-IsDecimal = record {
  first_digit = refl;
  more_digits = tt;
  fraction_digits = (refl, tt);
}

parse_line-line_text_example :
    parse_line thousandths
      (line_text client two_and_a_half millis (show_nat 240) (show_nat 320) (codes " "))
    ≡ some (record {
      role = role_text client;
      duration_ms =
          float_of thousandths (decimal_text two_and_a_half)
          * unit_to_ms thousandths (unit_text millis)
          / 1000;
      sent_bytes = 240;
      recv_bytes = 320;
    })
parse_line-line_text_example =
    parse_line-line_text thousandths client two_and_a_half millis 240 320 (codes " ") tt
      two_and_a_half-IsDecimal

first_client_metrics-eq-head?_example :
    first_client_metrics thousandths metric_line
    ≡ head? (keep (is_client thousandths) (parse_stream thousandths (splitlines metric_line)))
first_client_metrics-eq-head?_example = first_client_metrics-eq-head? thousandths metric_line

client_result_lem_example :
    let cp = completed 0 metric_line [] in
    let r = client_result thousandths 2 5 (codes "30.0") 1000 cp in
    (((r.success ≡ true) → IsAuthenticated thousandths cp (stdout_metrics thousandths cp))
      × (IsAuthenticated thousandths cp (stdout_metrics thousandths cp) → r.success ≡ true))
    × (r.duration_ms ≡ Option.map (λ l. l.duration_ms) (stdout_metrics thousandths cp))
    × (r.sent_bytes ≡ Option.map (λ l. l.sent_bytes) (stdout_metrics thousandths cp))
    × (r.recv_bytes ≡ Option.map (λ l. l.recv_bytes) (stdout_metrics thousandths cp))
    × (r.iteration ≡ 2)
    × (r.client_id ≡ 5)
client_result_lem_example =
    client_result_lem thousandths 2 5 (codes "30.0") 1000 (completed 0 metric_line [])

abbrev absent : ℕ → Text → Bool
absent c [] = true
absent c (x ∷ s) = not (x == c) && absent c s

absent-Without : (c : ℕ) (s : Text) → absent c s ≡ true → Without c s
absent-Without c [] h = tt
absent-Without c (x ∷ s) h = (ground arith, absent-Without c s (ground arith))

abbrev stat_text : Text
stat_text = codes "S 1 1 1 0 1 0 0 0 0 0 7 5 0 0 20 0 1 0 100 0 2048 0"

stat_text-Without : Without b')' stat_text
unfolding codes
stat_text-Without = absent-Without b')' stat_text refl

read_stat-after_paren_example :
    read_stat (some (codes "41 (a) b" ++ (b')' ∷ 32 ∷ stat_text))) ≡ stat_fields (words stat_text)
read_stat-after_paren_example = read_stat-after_paren (codes "41 (a) b") stat_text stat_text-Without

abbrev board : Machine
board = record { page_size = 4096; clk_tck = 100; ncpu = 4 }

abbrev polls : List Reading
polls =
    record {
      stat = some (record { utime = 1; stime = 2; rss_pages = 10 });
      kb = none;
      now = 1_000_000;
    }
    ∷ record {
      stat = some (record { utime = 2; stime = 2; rss_pages = 1 });
      kb = some 80;
      now = 51_000_000;
    }
    ∷ record { stat = none; kb = none; now = 101_000_000 }
    ∷ []

sample_all-IsPeak_example :
    IsPeak
      (sample_all thousandths board new_sampler polls).peak_rss_bytes
      0
      (keep_some (rss_of board) polls)
sample_all-IsPeak_example = sample_all-IsPeak thousandths board new_sampler polls

run_test-leaves_no_server_example :
    live
      (run_test config thousandths open_machine
        (codes "host")
        pi4
        (λ s. [])
        (codes "test2")
        (codes "edhoc")
        1
        (λ c. pure [])
        500_000_000
        installed).1.log
    ≡ []
run_test-leaves_no_server_example =
    run_test-leaves_no_server config thousandths open_machine (codes "host") pi4 (λ s. [])
      (codes "test2") (codes "edhoc") 1 (λ c. pure []) 500_000_000 installed (λ c w. refl)
