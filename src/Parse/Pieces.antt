-- ===== src/Parse/Pieces.antt =====
-- How each piece of the metric pattern reads the piece of a printed line that has its shape.
use mathlib.Core.List.{append_assoc}
use mathlib.Core.Path.{subst}
use zk_arche_compare.Base.{
  ℕ, ◌≡◌, refl, sym, false, true, Option, none, some, [], ◌∷◌, ◌++◌, Text, codes, is_digit,
  is_space, IsDigits, arith,
}
use zk_arche_compare.Regex.{
  Re, lit, opt, strip_lit, run_many, seq, group, many1, consumed, Captures, Next, run,
}
use zk_arche_compare.Regex.Laws.{
  Stops, run-opt, run-opt_skip, run_many-block, consumed-append, seq-lit, seq-many, seq-group_many1,
}
use zk_arche_compare.Parse.{bytes_re, dur_re, unit_re, spaces}

pub space-is_space : is_space 32 ≡ true
unfolding is_space
space-is_space = refl

pub digit-not_space : (d : ℕ) → is_digit d ≡ true → is_space d ≡ false
unfolding is_digit is_space
digit-not_space d h = ground arith

space-not_digit : is_digit 32 ≡ false
unfolding is_digit
space-not_digit = refl

letter-not_space : is_space b'b' ≡ false
unfolding is_space
letter-not_space = refl

-- `label: 123 bytes`
abbrev pub bytes_text : Text → Text → Text → Text
bytes_text label digits tail = label ++ (32 ∷ (digits ++ (32 ∷ (codes "bytes" ++ tail))))

module _ (e : Re) (k : Next) where
  pub seq-bytes_re :
      (i : ℕ) (label tail : Text) (d : ℕ) (ds : Text) (c r : Captures)
      → is_digit d ≡ true
      → IsDigits ds
      → run e k tail ((i, d ∷ ds) ∷ c) ≡ some r
      → run (seq (bytes_re i label) e) k (bytes_text label (d ∷ ds) tail) c ≡ some r
  unfolding codes run
  seq-bytes_re i label tail d ds c r hd hds h =
      let end : Re = seq (lit (codes "bytes")) e in
      let after : Text = codes "bytes" ++ tail in
      let last =
        seq-many end k is_space (32 ∷ []) after ((i, d ∷ ds) ∷ c) r (space-is_space, tt)
          letter-not_space h in
      let number =
        seq-group_many1 (seq spaces end) k i is_digit d ds (32 ∷ after) c r hd hds space-not_digit
          last in
      let spaced =
        seq-many (seq (group i (many1 is_digit)) (seq spaces end)) k is_space (32 ∷ [])
          (d ∷ (ds ++ 32 ∷ after)) c r (space-is_space, tt) (digit-not_space d hd) number in
      seq-lit (seq spaces (seq (group i (many1 is_digit)) (seq spaces end))) k label
        (32 ∷ (d ∷ (ds ++ 32 ∷ after))) c r spaced

-- The units of Rust's `Duration` and the ASCII spelling.
pub data TimeUnit : Type 0 where
  nanos micros micros_ascii millis secs : TimeUnit

abbrev pub unit_text : TimeUnit → Text
unit_text nanos = codes "ns"
unit_text micros = codes "µs"
unit_text micros_ascii = codes "us"
unit_text millis = codes "ms"
unit_text secs = codes "s"

-- A decimal number: one digit or more, and perhaps a point with one digit or more.
pub record Decimal : Type 0 where
  pub first : ℕ
  pub more : Text
  pub fraction : Option (ℕ × Text)

abbrev pub fraction_text : Option (ℕ × Text) → Text
fraction_text none = []
fraction_text (some (f, fs)) = b'.' ∷ (f ∷ fs)

abbrev pub decimal_text : Decimal → Text
decimal_text n = n.first ∷ (n.more ++ fraction_text n.fraction)

abbrev pub FractionIsDigits : Option (ℕ × Text) → Type 0
FractionIsDigits none = Unit
FractionIsDigits (some (f, fs)) = (is_digit f ≡ true) × IsDigits fs

pub record IsDecimal (n : Decimal) : Type 0 where
  pub first_digit : is_digit n.first ≡ true
  pub more_digits : IsDigits n.more
  pub fraction_digits : FractionIsDigits n.fraction

fraction-Stops :
    (fr : Option (ℕ × Text)) (u : ℕ) (tail : Text)
    → is_digit u ≡ false
    → Stops is_digit (fraction_text fr ++ u ∷ tail)
unfolding is_digit
fraction-Stops none u tail h = h
fraction-Stops (some (f, fs)) u tail h = refl

module _ (e : Re) (k : Next) where
  -- Every unit is followed by the comma, on which no unit goes on.
  pub seq-unit_re :
      (u : TimeUnit) (tail : Text) (c r : Captures)
      → run e k (44 ∷ tail) ((3, unit_text u) ∷ c) ≡ some r
      → run (seq unit_re e) k (unit_text u ++ 44 ∷ tail) c ≡ some r
  unfolding run codes
  seq-unit_re nanos tail c r h = rw (consumed-append (unit_text nanos) (44 ∷ tail), h)
  seq-unit_re micros tail c r h = rw (consumed-append (unit_text micros) (44 ∷ tail), h)
  seq-unit_re micros_ascii tail c r h = rw (consumed-append (unit_text micros_ascii) (44 ∷ tail), h)
  seq-unit_re millis tail c r h = rw (consumed-append (unit_text millis) (44 ∷ tail), h)
  seq-unit_re secs tail c r h = rw (consumed-append (unit_text secs) (44 ∷ tail)) h

  -- What follows the digits of the whole part: the fraction, if there is one, and the rest.
  run-fraction :
      (whole : Text) (fr : Option (ℕ × Text)) (u : ℕ) (tail : Text) (c r : Captures)
      → FractionIsDigits fr
      → is_digit u ≡ false
      → strip_lit (codes ".") (u ∷ tail) ≡ none
      → run e k (u ∷ tail) ((2, consumed whole (u ∷ tail)) ∷ c) ≡ some r
      → run
          (opt (seq (lit (codes ".")) (many1 is_digit)))
          (λ s' c'. run e k s' ((2, consumed whole s') ∷ c'))
          (fraction_text fr ++ u ∷ tail)
          c
        ≡ some r
  unfolding run codes
  run-fraction whole none u tail c r d hu point h =
      run-opt_skip (seq (lit (codes ".")) (many1 is_digit))
        (λ s' c'. run e k s' ((2, consumed whole s') ∷ c')) (u ∷ tail) c r (rw point) h
  run-fraction whole (some (f, fs)) u tail c r (df, ds) hu point h =
      let next : Next = λ s' c'. run e k s' ((2, consumed whole s') ∷ c') in
      let digits : run (many1 is_digit) next (f ∷ (fs ++ u ∷ tail)) c ≡ some r =
        rw df (run_many-block is_digit next fs (u ∷ tail) c r ds hu h) in
      run-opt (seq (lit (codes ".")) (many1 is_digit)) next (46 ∷ (f ∷ (fs ++ u ∷ tail))) c r
        (seq-lit (many1 is_digit) next (codes ".") (f ∷ (fs ++ u ∷ tail)) c r digits)

  -- After the digits stands a unit, whose first letter is no digit and no point.
  pub seq-dur_re :
      (n : Decimal) (u : ℕ) (tail : Text) (c r : Captures)
      → IsDecimal n
      → is_digit u ≡ false
      → strip_lit (codes ".") (u ∷ tail) ≡ none
      → run e k (u ∷ tail) ((2, decimal_text n) ∷ c) ≡ some r
      → run (seq dur_re e) k (decimal_text n ++ u ∷ tail) c ≡ some r
  unfolding run
  seq-dur_re n u tail c r d hu point h =
      let whole : Text = decimal_text n ++ u ∷ tail in
      let next : Next = λ s' c'. run e k s' ((2, consumed whole s') ∷ c') in
      let decimals : Text = fraction_text n.fraction ++ u ∷ tail in
      let h' : next (u ∷ tail) c ≡ some r = rw (consumed-append (decimal_text n) (u ∷ tail)) h in
      let point_on : run (opt (seq (lit (codes ".")) (many1 is_digit))) next decimals c ≡ some r =
        run-fraction whole n.fraction u tail c r d.fraction_digits hu point h' in
      let after_digits : Next =
        λ s' c'. run (opt (seq (lit (codes ".")) (many1 is_digit))) next s' c' in
      rw d.first_digit (
        subst (λ x. run_many is_digit after_digits x c ≡ some r)
          (sym (append_assoc n.more (fraction_text n.fraction) (u ∷ tail)))
          (run_many-block is_digit after_digits n.more decimals c r d.more_digits
            (fraction-Stops n.fraction u tail hu) point_on))
