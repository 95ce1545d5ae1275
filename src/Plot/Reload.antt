-- ===== src/Plot/Reload.antt =====
-- What the plots read is what a run wrote.
use mathlib.Core.Option
use zk_arche_compare.Base.{
  ℕ, ◌≡◌, refl, ap, ◌∙◌, Bool, true, false, Option, none, some, List, [], ◌∷◌, map, Text, codes,
  text_eq, keep_some, not, ◌==◌, if◌then◌else◌, is_space, is_digit,
}
use zk_arche_compare.Floats.{Floats}
use zk_arche_compare.Strings.{int_of, show_nat}
use zk_arche_compare.Strings.Integers.{int_of-show_nat, text_eq-IsNumber}
use zk_arche_compare.Strings.Numbers.{show_nat-IsNumber}
use zk_arche_compare.Runner.Client.{ClientResult}
use zk_arche_compare.Results.{iteration_row, iteration_rows}
use zk_arche_compare.Plot.{IterRow, column, converted, optional, load_row, load_rows}

keep_some-some {ℓ κ} :
    {A : Type ℓ} {B : Type κ} (f : A → Option B) (x : A) (xs : List A) (y : B)
    → f x ≡ some y
    → keep_some f (x ∷ xs) ≡ y ∷ keep_some f xs
keep_some-some f x xs y e = rw (e, keep_some) refl

optional-show_nat : (n : ℕ) → optional int_of (show_nat n) ≡ some (some n)
unfolding optional
optional-show_nat n =
    rw (text_eq-IsNumber (show_nat n) (show_nat-IsNumber n), int_of-show_nat n, optional) refl

optional-bytes :
    (o : Option ℕ)
    → optional int_of (elim o as (λ _. Text) [ none ↦ [] | some n ↦ show_nat n ]) ≡ some o
unfolding optional text_eq
optional-bytes none = refl
optional-bytes (some n) = optional-show_nat n

module _ (fl : Floats) (six : fl.F → fl.F) where
  open fl use {F}

  -- The row of a result, its times as they read back from six decimals.
  abbrev pub as_row : ClientResult F → IterRow F
  as_row r = record {
    iter = r.iteration;
    client_id = r.client_id;
    success = r.success;
    duration_ms = Option.map six r.duration_ms;
    sent_bytes = r.sent_bytes;
    recv_bytes = r.recv_bytes;
    wall_s = six (fl.ratio r.elapsed_ns 1_000_000_000);
  }

  module _ (shown : (x : F) → text_eq (fl.show_six x) [] ≡ false)
      (reads : (x : F) → fl.of_text (fl.show_six x) ≡ some (six x)) where
    optional-duration :
        (o : Option F)
        → optional fl.of_text (elim o as (λ _. Text) [ none ↦ [] | some d ↦ fl.show_six d ])
          ≡ some (Option.map six o)
    unfolding optional text_eq
    optional-duration none = refl
    optional-duration (some d) = rw (shown d, reads d, optional) refl

    success_digit : (b : Bool) → int_of (codes (if b then "1" else "0")) ≡ some (if b then 1 else 0)
    unfolding int_of codes text_eq is_space is_digit
    success_digit true = refl
    success_digit false = refl

    success_back : (b : Bool) → not ((if b then 1 else 0) == 0) ≡ b
    success_back true = refl
    success_back false = refl

    header : List Text
    header = map codes (
        "iter" ∷ "client_id" ∷ "success" ∷ "duration_ms" ∷ "sent_bytes" ∷ "recv_bytes" ∷ "wall_s"
        ∷ [])

    load_row-iteration_row :
        (r : ClientResult F) → load_row fl header (iteration_row fl r) ≡ some (as_row r)
    unfolding load_row iteration_row column converted codes text_eq header
    load_row-iteration_row r =
        rw
          (
            int_of-show_nat r.iteration,
            int_of-show_nat r.client_id,
            success_digit r.success,
            optional-duration r.duration_ms,
            optional-bytes r.sent_bytes,
            optional-bytes r.recv_bytes,
            reads (fl.ratio r.elapsed_ns 1_000_000_000),
          )
          (ap (λ b. some (record (as_row r) { success = b })) (success_back r.success))

    load_rows-map :
        (results : List (ClientResult F))
        → keep_some (load_row fl header) (map (iteration_row fl) results) ≡ map as_row results
    load_rows-map [] = refl
    load_rows-map (r ∷ results) =
        keep_some-some (load_row fl header) (iteration_row fl r) (map (iteration_row fl) results)
          (as_row r) (load_row-iteration_row r)
        ∙ ap (λ l. as_row r ∷ l) (load_rows-map results)

    -- The rows that a run writes read back as its results, one for each and in the same order: the
    -- numbers, the success and the bytes exactly, a missing figure as missing, and the times as they
    -- read back from the six decimals that are written, if that text is never empty.
    pub load_rows-iteration_rows :
        (results : List (ClientResult F))
        → load_rows fl (iteration_rows fl results) ≡ map as_row results
    unfolding load_rows iteration_rows header
    load_rows-iteration_rows results = load_rows-map results
