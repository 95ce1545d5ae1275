-- ===== src/Regex.antt =====
-- The part of Python's `re` that the metric parsers use: backtracking, greedy and lazy runs of a
-- character class, alternatives from left to right, captured groups.
pub mod Laws
use zk_arche_compare.Base.{
  ℕ, ◌-◌, Bool, true, false, Option, none, some, List, [], ◌∷◌, Text, length, take, ◌==◌,
  if◌then◌else◌,
}

pub data Re : Type 0 where
  -- the text itself
  lit : Text → Re
  -- `x`, `x*`, `x*?` for a class x
  one many lazy : (ℕ → Bool) → Re
  seq alt : Re → Re → Re
  -- `(?:e)?`
  opt : Re → Re
  -- `(e)`, under its number
  group : ℕ → Re → Re

abbrev pub Captures : Type 0
Captures = List (ℕ × Text)

-- What follows in the pattern: it gets the rest of the input.
abbrev pub Next : Type 0
Next = Text → Captures → Option Captures

unfoldable pub strip_lit : Text → Text → Option Text
strip_lit [] s = some s
strip_lit (x ∷ xs) [] = none
strip_lit (x ∷ xs) (y ∷ s) = let rest = strip_lit xs s in if x == y then rest else none

run_lit : Option Text → Next → Next
run_lit none k s c = none
run_lit (some rest) k s c = k rest c

run_one : (ℕ → Bool) → Next → Next
run_one p k [] c = none
run_one p k (x ∷ s) c = if p x then k s c else none

unfoldable pub run_many : (ℕ → Bool) → Next → Next
run_many p k [] c = k [] c
run_many p k (x ∷ s) c = elim (p x) [
  | true ↦ elim (run_many p k s c) [ some r ↦ some r | none ↦ k (x ∷ s) c ]
  | false ↦ k (x ∷ s) c
]

unfoldable pub run_lazy : (ℕ → Bool) → Next → Next
run_lazy p k [] c = k [] c
run_lazy p k (x ∷ s) c = elim (k (x ∷ s) c) [
  | some r ↦ some r
  | none ↦ elim (p x) [ true ↦ run_lazy p k s c | false ↦ none ]
]

-- The text that was read when `rest` is left of `s`.
unfoldable pub consumed : Text → Text → Text
consumed s rest = take (length s - length rest) s

unfoldable pub run : Re → Next → Next
unfolding strip_lit run_lit run_one run_many run_lazy
run (lit t) k s c = run_lit (strip_lit t s) k s c
run (one p) k s c = run_one p k s c
run (many p) k s c = run_many p k s c
run (lazy p) k s c = run_lazy p k s c
run (seq a b) k s c = run a (λ s' c'. run b k s' c') s c
run (alt a b) k s c = elim (run a k s c) [ some r ↦ some r | none ↦ run b k s c ]
run (opt a) k s c = elim (run a k s c) [ some r ↦ some r | none ↦ k s c ]
run (group i a) k s c = run a (λ s' c'. k s' ((i, consumed s s') ∷ c')) s c

abbrev pub accept : Next
accept s c = some c

-- `re.match(e, s)`
unfoldable pub match_at : Re → Text → Option Captures
unfolding run consumed
match_at e s = run e accept s []

-- `re.search(e, s)`: the leftmost position at which the pattern matches
unfoldable pub search_in : Re → Text → Option Captures
search_in e [] = match_at e []
search_in e (x ∷ s) = elim (match_at e (x ∷ s)) [ some r ↦ some r | none ↦ search_in e s ]

-- `m.group(i)`
unfoldable pub capture : ℕ → Captures → Text
capture i [] = []
capture i ((j, t) ∷ c) = if i == j then t else capture i c

-- `(?:x)+`
abbrev pub many1 : (ℕ → Bool) → Re
many1 p = seq (one p) (many p)
