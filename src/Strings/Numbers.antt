-- ===== src/Strings/Numbers.antt =====
-- `str(n)` is a run of digits that reads back as `n`.
use zk_arche_compare.Base.{
  ℕ, zero, suc, ◌+◌, ◌/◌, ◌%◌, ◌<◌, ◌≡◌, true, [], ◌∷◌, ◌∙◌, Text, is_digit, IsDigits, ap, inl, inr,
  arith, ◌==◌, Bool-cases,
}
use zk_arche_compare.Strings.{digits_value, show_fuel, show_nat}

-- A non-empty run of digits.
abbrev pub IsNumber : Text → Type 0
IsNumber [] = ⊥
IsNumber (d ∷ ds) = (is_digit d ≡ true) × IsDigits ds

IsNumber-cons : (d : ℕ) (t : Text) → is_digit d ≡ true → IsNumber t → IsNumber (d ∷ t)
IsNumber-cons d [] h v = absurd v
IsNumber-cons d (x ∷ xs) h v = (h, v)

last_digit : (n : ℕ) → is_digit (48 + n % 10) ≡ true
unfolding is_digit
last_digit n = ground arith

show_fuel-IsNumber : (f n : ℕ) (t : Text) → IsNumber t → IsNumber (show_fuel f n t)
unfolding show_fuel
show_fuel-IsNumber zero n t v = v
show_fuel-IsNumber (suc f) n t v = elim (Bool-cases (n / 10 == 0)) [
  | inl done ↦ rw done (IsNumber-cons _ t (last_digit n) v)
  | inr more ↦ rw more (show_fuel-IsNumber f (n / 10) _ (IsNumber-cons _ t (last_digit n) v))
]

pub show_nat-IsNumber : (n : ℕ) → IsNumber (show_nat n)
unfolding show_nat show_fuel
show_nat-IsNumber n = elim (Bool-cases (n / 10 == 0)) [
  | inl done ↦ rw done (last_digit n, tt)
  | inr more ↦ rw more (show_fuel-IsNumber n (n / 10) _ (last_digit n, tt))
]

digits_value-show_fuel :
    (f n : ℕ) (t : Text) → n < f → digits_value 0 (show_fuel f n t) ≡ digits_value n t
unfolding show_fuel digits_value
digits_value-show_fuel zero n t h = elim h [ ]
digits_value-show_fuel (suc f) n t h = elim (Bool-cases (n / 10 == 0)) [
  | inl done ↦ rw done (ap (λ k. digits_value k t) (ground arith))
  | inr more ↦ rw more (
      digits_value-show_fuel f (n / 10) _ (ground arith) ∙ ap (λ k. digits_value k t) (omega arith))
]

pub digits_value-show_nat : (n : ℕ) → digits_value 0 (show_nat n) ≡ n
unfolding show_nat digits_value
digits_value-show_nat n = digits_value-show_fuel (suc n) n [] (omega arith)
