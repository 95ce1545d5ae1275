-- ===== src/Strings.antt =====
-- The methods of Python's `str` that the program calls, over code points.
pub mod Numbers
pub mod Integers
pub mod Lines
use mathlib.Core.List.{reverse}
use zk_arche_compare.Base.{
  ℕ, zero, suc, ◌+◌, ◌-◌, ◌*◌, ◌/◌, ◌%◌, Bool, true, false, not, ◌&&◌, ◌||◌, Option, none, some,
  List, [], ◌∷◌, ◌++◌, map, Text, codes, is_digit, is_space, text_eq, length, drop, ◌==◌, leb,
  if◌then◌else◌,
}
use zk_arche_compare.Regex.{strip_lit}

-- The characters at which `str.splitlines` ends a line.
is_break : ℕ → Bool
is_break c =
    (leb 10 c && leb c 13) || (leb 28 c && leb c 30) || c == 0x85 || c == 0x2028 || c == 0x2029

-- The line so far is kept reversed; the flag says that a "\r" has just ended a line.
unfoldable pub lines_from : Bool → Text → Text → List Text
unfolding is_break
lines_from cr [] [] = []
lines_from cr (x ∷ cur) [] = reverse (x ∷ cur) ∷ []
lines_from cr cur (c ∷ s) =
    let joined = lines_from false [] s in
    let closed = reverse cur ∷ lines_from (c == 13) [] s in
    let longer = lines_from false (c ∷ cur) s in
    if cr && c == 10 then joined else if is_break c then closed else longer

unfoldable pub splitlines : Text → List Text
unfolding lines_from
splitlines s = lines_from false [] s

-- `t in s`
unfoldable pub contains : Text → Text → Bool
unfolding strip_lit
contains t [] = text_eq t []
contains t (c ∷ s) = elim (strip_lit t (c ∷ s)) [ some rest ↦ true | none ↦ contains t s ]

-- `s.startswith(t)`
unfoldable pub starts_with : Text → Text → Bool
unfolding strip_lit
starts_with s t = elim (strip_lit t s) [ some rest ↦ true | none ↦ false ]

unfoldable pub lstrip : (ℕ → Bool) → Text → Text
lstrip p [] = []
lstrip p (c ∷ s) = elim (p c) [ true ↦ lstrip p s | false ↦ c ∷ s ]

unfoldable pub rstrip : (ℕ → Bool) → Text → Text
unfolding lstrip
rstrip p s = reverse (lstrip p (reverse s))

-- `s.strip()`
unfoldable pub strip : Text → Text
unfolding rstrip is_space
strip s = rstrip is_space (lstrip is_space s)

-- `s.partition(c)` for one character: the text before, whether `c` was found, the text after.
unfoldable pub partition : ℕ → Text → Text × Bool × Text
partition c [] = ([], false, [])
partition c (x ∷ s) =
    let (before, found, after) = partition c s in
    if x == c then ([], true, s) else (x ∷ before, found, after)

-- `s.rpartition(c)`: the last occurrence; where there is none, the whole text comes last.
unfoldable pub rpartition : ℕ → Text → Text × Bool × Text
rpartition c [] = ([], false, [])
rpartition c (x ∷ s) =
    let (before, found, after) = rpartition c s in
    if found
    then (x ∷ before, true, after)
    else if x == c
    then ([], true, s)
    else ([], false, x ∷ s)

-- `s.split()`: the runs of characters that are no spaces. The word so far is kept reversed.
unfoldable pub words_from : Text → Text → List Text
unfolding is_space
words_from [] [] = []
words_from (x ∷ cur) [] = reverse (x ∷ cur) ∷ []
words_from [] (c ∷ s) = if is_space c then words_from [] s else words_from (c ∷ []) s
words_from (x ∷ cur) (c ∷ s) =
    let closed = reverse (x ∷ cur) ∷ words_from [] s in
    let longer = words_from (c ∷ x ∷ cur) s in if is_space c then closed else longer

unfoldable pub words : Text → List Text
unfolding words_from
words s = words_from [] s

-- The ASCII part of `s.lower()`.
unfoldable pub lower : Text → Text
lower s = map (λ c. if leb b'A' c && leb c b'Z' then c + 32 else c) s

-- The value of a run of decimal digits, and `int(s)` of a text that holds nothing else.
unfoldable pub digits_value : ℕ → Text → ℕ
digits_value acc [] = acc
digits_value acc (c ∷ s) = digits_value (acc * 10 + (c - 48)) s

unfoldable pub all_digits : Text → Bool
unfolding is_digit
all_digits [] = true
all_digits (c ∷ s) = is_digit c && all_digits s

-- `int(s)` for texts with no sign and no `_`: spaces are stripped, and `none` is a `ValueError`.
unfoldable pub int_of : Text → Option ℕ
unfolding strip all_digits digits_value
int_of s =
    let t = strip s in
    if text_eq t [] then none else if all_digits t then some (digits_value 0 t) else none

-- `str(n)`; one more digit than `n` has is fuel enough.
unfoldable pub show_fuel : ℕ → ℕ → Text → Text
show_fuel zero n acc = acc
show_fuel (suc f) n acc =
    let d = (48 + n % 10) ∷ acc in
    let more = show_fuel f (n / 10) d in if n / 10 == 0 then d else more

unfoldable pub show_nat : ℕ → Text
unfolding show_fuel
show_nat n = show_fuel (suc n) n []

-- `f"{n:0wd}"`: zeros on the left up to the width.
unfoldable pub pad_left : ℕ → Text → Text
pad_left zero s = s
pad_left (suc k) s = b'0' ∷ pad_left k s

unfoldable pub show_padded : ℕ → ℕ → Text
unfolding show_nat pad_left
show_padded w n = let s = show_nat n in pad_left (w - length s) s

-- `s[-n:]`
unfoldable pub last_chars : ℕ → Text → Text
last_chars n s = drop (length s - n) s
