-- ===== src/Mininet/Shell/Status.antt =====
-- The exit status that a wrapped command prints is read back.
use mathlib.Core.List.{append-nil}
use zk_arche_compare.Base.{
  ℕ, ◌≡◌, refl, sym, ap, ◌∙◌, none, some, [], ◌∷◌, ◌++◌, Text, codes, is_digit, length,
}
use zk_arche_compare.Regex.{
  Re, lit, seq, group, many1, Captures, Next, run, accept, match_at, search_in, capture, strip_lit,
  consumed,
}
use zk_arche_compare.Regex.Laws.{seq-lit, seq-group_many1, consumed-append, match_at-search_in}
use zk_arche_compare.Strings.{show_nat, strip}
use zk_arche_compare.Strings.Numbers.{IsNumber, show_nat-IsNumber, digits_value-show_nat}
use zk_arche_compare.Mininet.Shell.{rc_re, rc_of, remove_from, parse_rc_output}

-- `__RC_7__`, for the digits of the status
abbrev pub marker : Text → Text
marker digits = codes "__RC_" ++ (digits ++ codes "__")

-- In the text, followed by the other, the marker's `__RC_` starts nowhere.
abbrev pub Unmarked : Text → Text → Type 0
Unmarked [] m = Unit
Unmarked (c ∷ s) m = (strip_lit (codes "__RC_") (c ∷ (s ++ m)) ≡ none) × Unmarked s m

run-marker :
    (k : Next) (digits : Text) (r : Captures)
    → IsNumber digits
    → k [] ((1, digits) ∷ []) ≡ some r
    → run rc_re k (marker digits) [] ≡ some r
unfolding run strip_lit codes is_digit
run-marker k [] r v h = absurd v
run-marker k (d ∷ ds) r v h =
    seq-lit (seq (group 1 (many1 is_digit)) (lit (codes "__"))) k (codes "__RC_")
      ((d ∷ ds) ++ codes "__") [] r
      (seq-group_many1 (lit (codes "__")) k 1 is_digit d ds (codes "__") [] r v.0 v.1 refl h)

no_marker :
    (k : Next) (s : Text) (c : Captures)
    → strip_lit (codes "__RC_") s ≡ none
    → run rc_re k s c ≡ none
unfolding run
no_marker k s c e = rw e refl

no_group : (s : Text) → strip_lit (codes "__RC_") s ≡ none → match_at (group 0 rc_re) s ≡ none
unfolding match_at run
no_group s e = rw e refl

search-Unmarked :
    (out digits : Text)
    → IsNumber digits
    → Unmarked out (marker digits)
    → search_in rc_re (out ++ marker digits) ≡ some ((1, digits) ∷ [])
unfolding search_in match_at
search-Unmarked [] digits v u =
    match_at-search_in rc_re (marker digits) _ (run-marker accept digits _ v refl)
search-Unmarked (c ∷ s) digits v (u, us) =
    rw (no_marker accept (c ∷ (s ++ marker digits)) [] u, search_in) (search-Unmarked s digits v us)

remove_all : (e : Re) (s : Text) → remove_from e (length s) s ≡ []
unfolding remove_from
remove_all e [] = refl
remove_all e (c ∷ s) = remove_all e s

consumed_all : (s : Text) → consumed s [] ≡ s
consumed_all s = ap (λ t. consumed t []) (sym (append-nil s)) ∙ consumed-append s []

remove-marker : (digits : Text) → IsNumber digits → remove_from rc_re 0 (marker digits) ≡ []
unfolding remove_from match_at run capture codes
remove-marker digits v =
    let k : Next = λ s' c'. accept s' ((0, consumed (marker digits) s') ∷ c') in
    let m =
      run-marker k digits ((0, marker digits) ∷ (1, digits) ∷ []) v
        (ap (λ t. some ((0, t) ∷ (1, digits) ∷ [])) (consumed_all (marker digits))) in
    rw (m, remove_from) (remove_all rc_re (codes "_RC_" ++ (digits ++ codes "__")))

remove-Unmarked :
    (out digits : Text)
    → IsNumber digits
    → Unmarked out (marker digits)
    → remove_from rc_re 0 (out ++ marker digits) ≡ out
unfolding remove_from
remove-Unmarked [] digits v u = remove-marker digits v
remove-Unmarked (c ∷ s) digits v (u, us) =
    rw (no_group (c ∷ (s ++ marker digits)) u, remove_from)
      (ap (λ t. c ∷ t) (remove-Unmarked s digits v us))

-- What a wrapped command prints, its own output and then the marker with its exit status, is split
-- into that status and the output without spaces around it, if the start of a marker does not occur
-- in the output.
pub parse_rc_output-marker :
    (out : Text) (rc : ℕ)
    → Unmarked out (marker (show_nat rc))
    → parse_rc_output (out ++ marker (show_nat rc)) ≡ (rc, strip out)
unfolding parse_rc_output rc_of capture
parse_rc_output-marker out rc u =
    rw
      (
        search-Unmarked out (show_nat rc) (show_nat-IsNumber rc) u,
        remove-Unmarked out (show_nat rc) (show_nat-IsNumber rc) u,
        digits_value-show_nat rc,
      )
      refl
