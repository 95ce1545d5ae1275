-- ===== src/Strings/Integers.antt =====
-- `int(str(n))` is `n`.
use mathlib.Core.List.{reverse, reverse_aux, reverse-reverse}
use zk_arche_compare.Base.{
  ℕ, ◌≡◌, true, false, some, [], ◌∷◌, ◌∙◌, ap, refl, Text, is_digit, is_space, text_eq, IsDigits,
  arith,
}
use zk_arche_compare.Strings.{lstrip, rstrip, strip, all_digits, digits_value, int_of, show_nat}
use zk_arche_compare.Strings.Numbers.{IsNumber, show_nat-IsNumber, digits_value-show_nat}

digit-no_space : (c : ℕ) → is_digit c ≡ true → is_space c ≡ false
unfolding is_digit is_space
digit-no_space c h = ground arith

lstrip-IsDigits : (s : Text) → IsDigits s → lstrip is_space s ≡ s
unfolding lstrip
lstrip-IsDigits [] h = refl
lstrip-IsDigits (c ∷ s) (d, h) = rw (digit-no_space c d, lstrip) refl

IsDigits-reverse_aux : (s acc : Text) → IsDigits s → IsDigits acc → IsDigits (reverse_aux s acc)
IsDigits-reverse_aux [] acc h k = k
IsDigits-reverse_aux (c ∷ s) acc (d, h) k = IsDigits-reverse_aux s (c ∷ acc) h (d, k)

strip-IsDigits : (s : Text) → IsDigits s → strip s ≡ s
unfolding strip rstrip
strip-IsDigits s h =
    ap (rstrip is_space) (lstrip-IsDigits s h)
    ∙ ap reverse (lstrip-IsDigits (reverse s) (IsDigits-reverse_aux s [] h tt))
    ∙ reverse-reverse s

all_digits-IsDigits : (s : Text) → IsDigits s → all_digits s ≡ true
unfolding all_digits
all_digits-IsDigits [] h = refl
all_digits-IsDigits (c ∷ s) (d, h) = rw (d, all_digits-IsDigits s h) refl

pub IsNumber-IsDigits : (s : Text) → IsNumber s → IsDigits s
IsNumber-IsDigits [] v = tt
IsNumber-IsDigits (c ∷ s) v = v

pub text_eq-IsNumber : (s : Text) → IsNumber s → text_eq s [] ≡ false
unfolding text_eq
text_eq-IsNumber [] v = absurd v
text_eq-IsNumber (c ∷ s) v = refl

int_of-IsNumber : (s : Text) → IsNumber s → int_of s ≡ some (digits_value 0 s)
unfolding int_of
int_of-IsNumber s v =
    rw
      (
        strip-IsDigits s (IsNumber-IsDigits s v),
        text_eq-IsNumber s v,
        all_digits-IsDigits s (IsNumber-IsDigits s v),
        int_of,
      )
      refl

pub int_of-show_nat : (n : ℕ) → int_of (show_nat n) ≡ some n
int_of-show_nat n =
    int_of-IsNumber (show_nat n) (show_nat-IsNumber n) ∙ ap some (digits_value-show_nat n)
