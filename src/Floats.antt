-- ===== src/Floats.antt =====
-- Python's `float`, as the operations that the program applies to it, over an unknown type.
-- Time stamps of the monotonic clock are counted in whole nanoseconds instead.
pub mod Sorting
pub mod Thousandths
use zk_arche_compare.Base.{
  ℕ, zero, suc, Text, Bool, true, false, not, ◌||◌, ◌≡◌, ◌⊎◌, ◌≢◌, ◌≤◌, ◌<◌, ◌*◌, ◌^◌, Option,
  Result, List, [], ◌∷◌, arith, if◌then◌else◌,
}

pub record Floats : Type 1 where
  pub F : Type 0
  -- `float(text)`, `none` for a `ValueError`
  pub of_text : Text → Option F
  pub of_nat : ℕ → F
  -- the double nearest to the quotient: the literals of the source
  pub ratio : ℕ → ℕ → F
  pub add : F → F → F
  pub sub : F → F → F
  pub mul : F → F → F
  pub div : F → F → F
  pub sqrt : F → F
  pub abs : F → F
  pub le : F → F → Bool
  pub lt : F → F → Bool
  pub nan : F
  -- `math.floor` and `math.ceil`, for values that are not negative
  pub floor : F → ℕ
  pub ceil : F → ℕ
  -- `float(n)` for any number, `math.fsum` and `statistics.stdev`, each of which may raise
  pub float_of_int : ℕ → Result F
  pub fsum : List F → Result F
  pub stdev : List F → Result F
  -- `f"{x:.6f}"`
  pub show_six : F → Text

-- IEEE 754: the order, and what monotone rounding gives. Nothing is assumed of NaN or overflow.
pub record IsIeee (fl : Floats) : Type 1 where
  pub Finite : fl.F → Type 0
  pub finite_nat : (n : ℕ) → Finite (fl.of_nat n)
  pub le_refl : (x : fl.F) → Finite x → fl.le x x ≡ true
  pub le_trans : (x y z : fl.F) → fl.le x y ≡ true → fl.le y z ≡ true → fl.le x z ≡ true
  pub le_total : (x y : fl.F) → Finite x → Finite y → (fl.le x y ≡ true) ⊎ (fl.le y x ≡ true)
  pub lt-eq-not-le : (x y : fl.F) → Finite x → Finite y → fl.lt x y ≡ not (fl.le y x)
  pub of_nat_mono : (m n : ℕ) → m ≤ n → fl.le (fl.of_nat m) (fl.of_nat n) ≡ true
  pub div_unit :
      (p q : ℕ)
      → p ≤ q
      → 0 < q
      → (fl.le (fl.of_nat 0) (fl.div (fl.of_nat p) (fl.of_nat q)) ≡ true)
        × (fl.le (fl.div (fl.of_nat p) (fl.of_nat q)) (fl.of_nat 1) ≡ true)
  pub mul_unit :
      (n : ℕ) (t : fl.F)
      → fl.le (fl.of_nat 0) t ≡ true
      → fl.le t (fl.of_nat 1) ≡ true
      → Finite (fl.mul (fl.of_nat n) t)
        × (fl.le (fl.of_nat 0) (fl.mul (fl.of_nat n) t) ≡ true)
        × (fl.le (fl.mul (fl.of_nat n) t) (fl.of_nat n) ≡ true)
  pub floor_le :
      (k : fl.F) (n : ℕ)
      → fl.le (fl.of_nat 0) k ≡ true
      → fl.le k (fl.of_nat n) ≡ true
      → (fl.floor k ≤ fl.ceil k) × (fl.ceil k ≤ n)
  pub sub_nonneg :
      (x y : fl.F)
      → Finite x
      → Finite y
      → fl.le x y ≡ true
      → fl.le (fl.of_nat 0) (fl.sub y x) ≡ true
  pub frac_pos :
      (k : fl.F)
      → Finite k
      → fl.le (fl.of_nat 0) k ≡ true
      → fl.floor k ≢ fl.ceil k
      → fl.lt (fl.of_nat 0) (fl.sub k (fl.of_nat (fl.floor k))) ≡ true
  pub mul_nonneg :
      (x t : fl.F)
      → fl.le (fl.of_nat 0) x ≡ true
      → fl.lt (fl.of_nat 0) t ≡ true
      → fl.le (fl.of_nat 0) (fl.mul x t) ≡ true
  pub add_nonneg :
      (x d : fl.F) → Finite x → fl.le (fl.of_nat 0) d ≡ true → fl.le x (fl.add x d) ≡ true

module _ (fl : Floats) where
  open fl use {F, le, lt, nan, of_nat}

  -- `x == x`
  unfoldable pub is_number : F → Bool
  is_number x = le x x

  -- `min(x, y)` and `max(x, y)`: the first argument wins a tie and a NaN
  unfoldable pub min2 : F → F → F
  min2 x y = if lt y x then y else x

  unfoldable pub max2 : F → F → F
  max2 x y = if lt x y then y else x

  -- `min(xs)` and `max(xs)` of a list that starts with `x`
  unfoldable pub min_from : F → List F → F
  unfolding min2
  min_from x [] = x
  min_from x (y ∷ ys) = min_from (min2 x y) ys

  unfoldable pub max_from : F → List F → F
  unfolding max2
  max_from x [] = x
  max_from x (y ∷ ys) = max_from (max2 x y) ys

  -- `sum(xs)`, from the left
  unfoldable pub sum_from : F → List F → F
  sum_from acc [] = acc
  sum_from acc (x ∷ xs) = sum_from (fl.add acc x) xs

  -- `sorted(xs)`: stable
  unfoldable pub insert_sorted : F → List F → List F
  insert_sorted x [] = x ∷ []
  insert_sorted x (y ∷ ys) =
      let rest = insert_sorted x ys in if lt y x then y ∷ rest else x ∷ y ∷ ys

  unfoldable pub sorted : List F → List F
  unfolding insert_sorted
  sorted [] = []
  sorted (x ∷ xs) = insert_sorted x (sorted xs)
