-- ===== src/Results/Percentile.antt =====
-- Percentiles stay within the list and at or above its least value.
use zk_arche_compare.Base.{ℕ, ◌-◌, ◌≤◌, ◌≡◌, true, Result, ok, arith}
use zk_arche_compare.Floats.{Floats, IsIeee}
use zk_arche_compare.Results.{rank}

module _ (fl : Floats) (ieee : IsIeee fl) where
  open fl use {F, le, lt, of_nat, sub, mul, add}
  open ieee use {
    Finite, le_trans, le_refl, floor_le, mul_unit, div_unit, sub_nonneg, frac_pos, mul_nonneg,
    add_nonneg,
  }

  -- A result that did not raise and lies at or above `m`.
  abbrev pub AtLeast : F → Result F → Type 0
  AtLeast m r = (x : F) × (r ≡ ok x) × (le m x ≡ true)

  pub rank_lem :
      (n p : ℕ)
      → p ≤ 100
      → Finite (rank fl n (of_nat p))
        × (le (of_nat 0) (rank fl n (of_nat p)) ≡ true)
        × (le (rank fl n (of_nat p)) (of_nat (n - 1)) ≡ true)
  unfolding rank
  rank_lem n p h =
      let (lo, hi) = div_unit p 100 h (omega arith) in
      mul_unit (n - 1) (fl.div (of_nat p) (of_nat 100)) lo hi
