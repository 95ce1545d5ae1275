-- ===== src/Floats/Thousandths.antt =====
-- Floats as thousandths, which cannot be negative: a small instance of the operations and of the
-- laws on which runs are computed. Roots and deviations are not needed there.
use zk_arche_compare.Base.{
  ℕ, ◌+◌, ◌-◌, ◌*◌, ◌/◌, ◌%◌, ◌≤◌, ◌<◌, ◌≡◌, true, Option, none, some, ok, List, [], ◌∷◌, ◌++◌,
  Text, codes, arith, ltb, leb, take,
}
use native.Mathlib.Nat.{div-le_of_le-mul, mul-le-mul_left}
use zk_arche_compare.Floats.{Floats, IsIeee}
use zk_arche_compare.Strings.{int_of, partition, show_nat, show_padded}

abbrev pub join : Option ℕ → Option ℕ → Option ℕ
join (some whole) (some frac) = some (whole * 1000 + frac)
join _ _ = none

abbrev pub thousandths_of : Text → Option ℕ
unfolding partition int_of
thousandths_of t =
    let (whole, dot, frac) = partition b'.' t in
    join (int_of whole) (int_of (take 3 (frac ++ codes "000")))

abbrev pub quotient : ℕ → ℕ → ℕ
quotient x y = x * 1000 / y

abbrev pub total : List ℕ → ℕ
total [] = 0
total (x ∷ xs) = x + total xs

abbrev pub thousandths : Floats
thousandths = record {
  F = ℕ;
  of_text = thousandths_of;
  of_nat = λ n. n * 1000;
  ratio = quotient;
  add = λ x y. x + y;
  sub = λ x y. x - y;
  mul = λ x y. x * y / 1000;
  div = quotient;
  sqrt = λ x. x;
  abs = λ x. x;
  le = leb;
  lt = ltb;
  nan = 0;
  floor = λ x. x / 1000;
  ceil = λ x. (x + 999) / 1000;
  float_of_int = λ n. ok (n * 1000);
  fsum = λ xs. ok (total xs);
  stdev = λ xs. ok 0;
  show_six = λ x. show_nat (x / 1000) ++ (b'.' ∷ (show_padded 3 (x % 1000) ++ codes "000"));
}

quotient_one : (p q : ℕ) → p ≤ q → 0 < q → quotient (p * 1000) (q * 1000) ≤ 1000
quotient_one p q h k = div-le_of_le-mul (q * 1000) (omega arith)

leb→le : (a b : ℕ) → leb a b ≡ true → a ≤ b
leb→le a b h = ground arith

scaled : (n t : ℕ) → leb t 1000 ≡ true → n * 1000 * t ≤ 1000 * (n * 1000)
scaled n t h = omega (arith, mul-le-mul_left (n * 1000) (leb→le t 1000 h))

le→leb : (a b : ℕ) → a ≤ b → leb a b ≡ true
le→leb a b h = ground arith

pub thousandths-IsIeee : IsIeee thousandths
thousandths-IsIeee = record {
  Finite = λ x. Unit {0};
  finite_nat = λ n. tt;
  le_refl = λ x _. ground arith;
  le_trans = λ x y z p q. ground arith;
  le_total = λ x y _ _. ground arith;
  lt-eq-not-le = λ x y _ _. ground arith;
  of_nat_mono = λ m n h. ground arith;
  div_unit = λ p q h k. (ground arith, ground (arith, quotient_one p q h k));
  mul_unit = λ n t p q. (
    tt,
    ground arith,
    le→leb (n * 1000 * t / 1000) (n * 1000) (div-le_of_le-mul 1000 (scaled n t q)),
  );
  floor_le = λ k n p q. (ground arith, ground arith);
  sub_nonneg = λ x y _ _ h. ground arith;
  frac_pos = λ k _ h d. ground arith;
  mul_nonneg = λ x t p q. ground arith;
  add_nonneg = λ x d _ h. ground arith;
}
