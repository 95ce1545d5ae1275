-- ===== src/Tests/Reload.antt =====
-- Results written as rows and read back, with floats that print as one mark for each unit.
use zk_arche_compare.Base.{
  ℕ, suc, ◌≡◌, refl, false, true, none, some, List, [], ◌∷◌, map, codes, replicate, length,
  length-replicate, ap, text_eq,
}
use zk_arche_compare.Floats.{Floats}
use zk_arche_compare.Floats.Thousandths.{thousandths}
use zk_arche_compare.Runner.Client.{ClientResult}
use zk_arche_compare.Results.{iteration_rows}
use zk_arche_compare.Plot.{load_rows}
use zk_arche_compare.Plot.Reload.{as_row, load_rows-iteration_rows}

abbrev tally : Floats
tally = record thousandths {
  of_text = λ t. some (length t);
  show_six = λ x. replicate (suc x) b'x';
}

tally_shown : (x : ℕ) → text_eq (tally.show_six x) [] ≡ false
unfolding text_eq
tally_shown x = refl

tally_reads : (x : ℕ) → tally.of_text (tally.show_six x) ≡ some (suc x)
tally_reads x = ap some (length-replicate (suc x) b'x')

abbrev written : List (ClientResult ℕ)
written =
    record {
      iteration = 3;
      client_id = 12;
      success = true;
      duration_ms = some 25;
      sent_bytes = some 240;
      recv_bytes = some 320;
      stderr_tail = [];
      elapsed_ns = 4_000_000;
    }
    ∷ record {
      iteration = 4;
      client_id = 12;
      success = false;
      duration_ms = none;
      sent_bytes = none;
      recv_bytes = none;
      stderr_tail = codes "TIMEOUT";
      elapsed_ns = 30;
    }
    ∷ []

load_rows-iteration_rows_example :
    load_rows tally (iteration_rows tally written) ≡ map (as_row tally suc) written
load_rows-iteration_rows_example =
    load_rows-iteration_rows tally suc tally_shown tally_reads written
