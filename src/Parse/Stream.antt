-- ===== src/Parse/Stream.antt =====
-- `first_client_metrics` against `parse_stream`.
use zk_arche_compare.Base.{◌≡◌, refl, Option, none, some, List, [], ◌∷◌, Text, arith, keep}
use zk_arche_compare.Floats.{Floats}
use zk_arche_compare.Strings.{splitlines}
use zk_arche_compare.Parse.{parse_stream, is_client, first_client, first_client_metrics}

abbrev pub head? {ℓ} : {A : Type ℓ} → List A → Option A
head? [] = none
head? (x ∷ xs) = some x

module _ (fl : Floats) where
  first_client-eq-head? :
      (lines : List Text)
      → first_client fl lines ≡ head? (keep (is_client fl) (parse_stream fl lines))
  unfolding first_client parse_stream
  first_client-eq-head? [] = refl
  first_client-eq-head? (ln ∷ lines) = ground (arith, first_client-eq-head? lines)

  -- The line that `first_client_metrics` returns is the first client line among all the metric
  -- lines that `parse_stream` finds in the same text, and it returns none only if there is none.
  pub first_client_metrics-eq-head? :
      (text : Text)
      → first_client_metrics fl text
        ≡ head? (keep (is_client fl) (parse_stream fl (splitlines text)))
  unfolding first_client_metrics
  first_client_metrics-eq-head? text = first_client-eq-head? (splitlines text)
