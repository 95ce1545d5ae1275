-- ===== src/Regex/Laws.antt =====
-- How a pattern reads a text that has its shape: one rule for each construct.
use zk_arche_compare.Base.{
  ℕ, ◌-◌, ◌≡◌, refl, Bool, true, false, none, some, [], ◌∷◌, ◌++◌, Text, length, take, All,
  length-append, ◌==◌, arith,
}
use zk_arche_compare.Regex.{
  Re, lit, many, seq, alt, opt, group, Captures, Next, run, run_many, run_lazy, many1, strip_lit,
  consumed, match_at, search_in,
}

-- The next character, if there is one, is outside the class.
abbrev pub Stops : (ℕ → Bool) → Text → Type 0
Stops p [] = Unit
Stops p (y ∷ s) = p y ≡ false

-- A greedy run takes the whole block of its class, if what follows the block succeeds.
pub run_many-block :
    (p : ℕ → Bool) (k : Next) (xs ys : Text) (c r : Captures)
    → All (λ x. p x ≡ true) xs
    → Stops p ys
    → k ys c ≡ some r
    → run_many p k (xs ++ ys) c ≡ some r
unfolding run_many
run_many-block p k [] [] c r a b h = h
run_many-block p k [] (y ∷ ys) c r a b h = rw b h
run_many-block p k (x ∷ xs) ys c r (px, a) b h = rw px (rw (run_many-block p k xs ys c r a b h))

-- A lazy run passes over a block at each point of which what follows fails.
pub run_lazy-block :
    (p : ℕ → Bool) (k : Next) (xs ys : Text) (c r : Captures)
    → All (λ x. (p x ≡ true) × ((s : Text) → k (x ∷ s) c ≡ none)) xs
    → k ys c ≡ some r
    → run_lazy p k (xs ++ ys) c ≡ some r
unfolding run_lazy
run_lazy-block p k [] [] c r a h = h
run_lazy-block p k [] (y ∷ ys) c r a h = rw h
run_lazy-block p k (x ∷ xs) ys c r (px, a) h =
    rw (px.1 (xs ++ ys)) (rw px.0 (run_lazy-block p k xs ys c r a h))

pub match_at-search_in :
    (e : Re) (s : Text) (r : Captures) → match_at e s ≡ some r → search_in e s ≡ some r
unfolding search_in
match_at-search_in e [] r h = h
match_at-search_in e (x ∷ s) r h = rw (h, search_in)

pub run-opt :
    (e : Re) (k : Next) (s : Text) (c r : Captures)
    → run e k s c ≡ some r
    → run (opt e) k s c ≡ some r
unfolding run
run-opt e k s c r h = rw h

pub run-opt_skip :
    (e : Re) (k : Next) (s : Text) (c r : Captures)
    → run e k s c ≡ none
    → k s c ≡ some r
    → run (opt e) k s c ≡ some r
unfolding run
run-opt_skip e k s c r h h' = rw h h'

take-append : (xs ys : Text) → take (length xs) (xs ++ ys) ≡ xs
take-append [] ys = refl
take-append (x ∷ xs) ys = rw (take-append xs ys)

pub consumed-append : (xs ys : Text) → consumed (xs ++ ys) ys ≡ xs
unfolding consumed
consumed-append xs ys =
    let e : length (xs ++ ys) - length ys ≡ length xs = omega (arith, length-append xs ys) in
    rw e (take-append xs ys)

pub strip_lit-append : (t s : Text) → strip_lit t (t ++ s) ≡ some s
unfolding strip_lit
strip_lit-append [] s = refl
strip_lit-append (x ∷ t) s = ground (arith, strip_lit-append t s)

-- How a pattern goes on after its first part. In each rule `e` is the rest of the pattern, and `k`
-- what follows the pattern.
module _ (e : Re) (k : Next) where
  pub seq-many :
      (p : ℕ → Bool) (xs ys : Text) (c r : Captures)
      → All (λ x. p x ≡ true) xs
      → Stops p ys
      → run e k ys c ≡ some r
      → run (seq (many p) e) k (xs ++ ys) c ≡ some r
  unfolding run
  seq-many p xs ys c r a b h = run_many-block p (λ s' c'. run e k s' c') xs ys c r a b h

  pub seq-many1 :
      (p : ℕ → Bool) (x : ℕ) (xs ys : Text) (c r : Captures)
      → p x ≡ true
      → All (λ y. p y ≡ true) xs
      → Stops p ys
      → run e k ys c ≡ some r
      → run (seq (many1 p) e) k (x ∷ (xs ++ ys)) c ≡ some r
  unfolding run
  seq-many1 p x xs ys c r px a b h = rw px (seq-many p xs ys c r a b h)

  pub seq-lit :
      (t s : Text) (c r : Captures)
      → run e k s c ≡ some r
      → run (seq (lit t) e) k (t ++ s) c ≡ some r
  unfolding run
  seq-lit t s c r h = rw (strip_lit-append t s) h

  pub seq-group_many1 :
      (i : ℕ) (p : ℕ → Bool) (x : ℕ) (xs ys : Text) (c r : Captures)
      → p x ≡ true
      → All (λ y. p y ≡ true) xs
      → Stops p ys
      → run e k ys ((i, x ∷ xs) ∷ c) ≡ some r
      → run (seq (group i (many1 p)) e) k (x ∷ (xs ++ ys)) c ≡ some r
  unfolding run
  seq-group_many1 i p x xs ys c r px a b h =
      let next : Next = λ s' c'. run e k s' ((i, consumed (x ∷ (xs ++ ys)) s') ∷ c') in
      rw px (run_many-block p next xs ys c r a b (rw (consumed-append (x ∷ xs) ys) h))

  pub seq-alt_left :
      (a b : Re) (s : Text) (c r : Captures)
      → run (seq a e) k s c ≡ some r
      → run (seq (alt a b) e) k s c ≡ some r
  unfolding run
  seq-alt_left a b s c r h = rw h

  pub seq-group_alt_left :
      (i : ℕ) (a b : Re) (s : Text) (c r : Captures)
      → run a (λ s' c'. run e k s' ((i, consumed s s') ∷ c')) s c ≡ some r
      → run (seq (group i (alt a b)) e) k s c ≡ some r
  unfolding run
  seq-group_alt_left i a b s c r h = rw h

  pub seq-alt_right :
      (a b : Re) (s : Text) (c r : Captures)
      → run (seq a e) k s c ≡ none
      → run (seq b e) k s c ≡ some r
      → run (seq (alt a b) e) k s c ≡ some r
  unfolding run
  seq-alt_right a b s c r h h' = rw h h'

  pub seq-opt :
      (a : Re) (s : Text) (c r : Captures)
      → run (seq a e) k s c ≡ some r
      → run (seq (opt a) e) k s c ≡ some r
  unfolding run
  seq-opt a s c r h = rw h

  pub seq-opt_skip :
      (a : Re) (s : Text) (c r : Captures)
      → run (seq a e) k s c ≡ none
      → run e k s c ≡ some r
      → run (seq (opt a) e) k s c ≡ some r
  unfolding run
  seq-opt_skip a s c r h h' = rw h h'

  pub seq_assoc :
      (a b : Re) (s : Text) (c : Captures)
      → run (seq (seq a b) e) k s c ≡ run (seq a (seq b e)) k s c
  unfolding run
  seq_assoc a b s c = refl

pub strip_lit_ne : (y x : ℕ) (t s : Text) → (y == x) ≡ false → strip_lit (y ∷ t) (x ∷ s) ≡ none
unfolding strip_lit
strip_lit_ne y x t s h = rw h
