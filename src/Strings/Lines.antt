-- ===== src/Strings/Lines.antt =====
-- `splitlines` of a text that goes on after a line break.
use zk_arche_compare.Base.{
  ◌≡◌, refl, ap, Bool, true, false, ◌&&◌, List, [], ◌∷◌, ◌++◌, Text, ◌==◌, Bool-cases, inl, inr,
  length, drop,
}
use mathlib.Core.List.{reverse}
use zk_arche_compare.Strings.{lines_from, splitlines, is_break}

lines_from-append :
    (cr : Bool) (cur a b : Text)
    → lines_from cr cur (a ++ (10 ∷ b))
      ≡ lines_from cr cur (a ++ (10 ∷ [])) ++ lines_from false [] b
unfolding lines_from is_break
lines_from-append true cur [] b = refl
lines_from-append false cur [] b = refl
lines_from-append cr cur (c ∷ a) b = elim (Bool-cases (cr && c == 10)) [
  | inl e ↦ rw e (lines_from-append false [] a b)
  | inr e ↦ elim (Bool-cases (is_break c)) [
    | inl k ↦ rw (e, k) (ap (λ x. reverse cur ∷ x) (lines_from-append (c == 13) [] a b))
    | inr k ↦ rw (e, k) (lines_from-append false (c ∷ cur) a b)
  ]
]

pub splitlines-append :
    (a b : Text) → splitlines (a ++ (10 ∷ b)) ≡ splitlines (a ++ (10 ∷ [])) ++ splitlines b
unfolding splitlines
splitlines-append a b = lines_from-append false [] a b

pub drop-length-append {ℓ} : {A : Type ℓ} (xs ys : List A) → drop (length xs) (xs ++ ys) ≡ ys
drop-length-append [] ys = refl
drop-length-append (x ∷ xs) ys = drop-length-append xs ys
