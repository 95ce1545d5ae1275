-- ===== src/Results/Total.antt =====
-- A summary counts the results, and what it may raise.
use zk_arche_compare.Base.{ℕ, ◌≤◌, ◌≡◌, List, Error, Result, ok, raised, ◌⊎◌, length, count_if}
use zk_arche_compare.Floats.{Floats, IsIeee}
use zk_arche_compare.Runner.Client.{ClientResult}
use zk_arche_compare.Results.Summary.{is_successful, SummaryRecord}

module _ (fl : Floats) (ieee : IsIeee fl) where
  open fl use {F, le, of_nat}

  -- Where an exception comes from: a sum, a deviation or a conversion of the standard library.
  abbrev pub IsArithmetic : Error → Type 0
  IsArithmetic e =
      ((xs : List F) × (fl.fsum xs ≡ raised e))
      ⊎ (((xs : List F) × (fl.stdev xs ≡ raised e)) ⊎ ((n : ℕ) × (fl.float_of_int n ≡ raised e)))

  abbrev pub OrArithmetic {ℓ} : {A : Type ℓ} → (A → Type 0) → Result A → Type 0
  OrArithmetic P (ok a) = P a
  OrArithmetic P (raised e) = IsArithmetic e

  abbrev Any {ℓ} : {A : Type ℓ} → A → Type 0
  Any a = Unit

  -- What a summary counts: the results and those that succeeded, which are no more.
  abbrev pub CountsOf : List (ClientResult F) → SummaryRecord F → Type 0
  CountsOf results r =
      (r.n ≡ length results)
      × (r.n_success ≡ count_if (is_successful fl) results)
      × (r.n_success ≤ r.n)
