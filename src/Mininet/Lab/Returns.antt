-- ===== src/Mininet/Lab/Returns.antt =====
-- An action that returns, and what holds of the value that it returns.
use zk_arche_compare.Base.{
  ◌≡◌, refl, Result, ok, raised, none, some, List, [], ◌∷◌, ℕ, zero, suc, ◌<◌, Text, length,
  get_elem?, arith,
}
use zk_arche_compare.Mininet.Lab.{
  Act, Kit, Lab, M, continue, each, host_open, host_cmd, attempt, opened, ran,
}

abbrev pub Returns {ℓ} : {A : Type ℓ} → (A → Type 0) → Result A → Type 0
Returns P (ok a) = P a
Returns P (raised e) = ⊥

module _ {ℓ κ} {A : Type ℓ} {B : Type κ} where
  pub Returns-continue :
      (P : A → Type 0) (Q : B → Type 0) (r : Result A) (f : A → M B) (lab : Lab)
      → Returns P r
      → ((a : A) → P a → Returns Q (f a lab).0)
      → Returns Q (continue r f lab).0
  Returns-continue P Q (ok a) f lab h k = k a h
  Returns-continue P Q (raised e) f lab h k = absurd h

-- The same with the lab that is left.
abbrev pub Yields {ℓ} : {A : Type ℓ} → (A → Lab → Type 0) → Result A → Lab → Type 0
Yields P (ok a) lab = P a lab
Yields P (raised e) lab = ⊥

module _ {ℓ κ} {A : Type ℓ} {B : Type κ} where
  pub Yields-continue :
      (P : A → Lab → Type 0) (Q : B → Lab → Type 0) (r : Result A) (f : A → M B) (lab : Lab)
      → Yields P r lab
      → ((a : A) → P a lab → Yields Q (f a lab).0 (f a lab).1)
      → Yields Q (continue r f lab).0 (continue r f lab).1
  Yields-continue P Q (ok a) f lab h k = k a h
  Yields-continue P Q (raised e) f lab h k = absurd h

  pub Yields-then :
      (P : A → Lab → Type 0) (Q : B → Type 0) (r : Result A) (f : A → M B) (lab : Lab)
      → Yields P r lab
      → ((a : A) → P a lab → Returns Q (f a lab).0)
      → Returns Q (continue r f lab).0
  Yields-then P Q (ok a) f lab h k = k a h
  Yields-then P Q (raised e) f lab h k = absurd h

module _ {ℓ} {A : Type ℓ} where
  pub Yields-Returns :
      (P : A → Lab → Type 0) (Q : A → Type 0) (r : Result A) (lab : Lab)
      → ((a : A) → P a lab → Q a)
      → Yields P r lab
      → Returns Q r
  Yields-Returns P Q (ok a) lab k h = k a h
  Yields-Returns P Q (raised e) lab k h = absurd h

module _ {ℓ} {A : Type ℓ} where
  pub Returns-weaken :
      (P Q : A → Type 0) (r : Result A) → ((a : A) → P a → Q a) → Returns P r → Returns Q r
  Returns-weaken P Q (ok a) k h = k a h
  Returns-weaken P Q (raised e) k h = absurd h

module _ {ℓ κ} {A : Type ℓ} {B : Type κ} where
  -- The relation holds between the elements at the same places, and the lists are equally long.
  abbrev pub Pairs : (A → B → Type 0) → List A → List B → Type 0
  Pairs R [] [] = Unit
  Pairs R [] (y ∷ ys) = ⊥
  Pairs R (x ∷ xs) [] = ⊥
  Pairs R (x ∷ xs) (y ∷ ys) = R x y × Pairs R xs ys

  pub Returns-each :
      (R : A → B → Type 0) (f : A → M B)
      → ((x : A) (lab : Lab) → Returns (R x) (f x lab).0)
      → (xs : List A) (lab : Lab) → Returns (Pairs R xs) (each f xs lab).0
  Returns-each R f k [] lab = tt
  Returns-each R f k (x ∷ xs) lab = Returns-continue _ _ (f x lab).0 _ (f x lab).1 (k x lab) λ y h.
      Returns-continue _ _ (each f xs (f x lab).1).0 _ _ (Returns-each R f k xs (f x lab).1)
        λ ys hs. (h, hs)

module _ (kit : Kit) where
  -- No act of Mininet raises.
  abbrev pub Quiet : Type 0
  Quiet = (lab : Lab) (a : Act) → kit.fails lab a ≡ none

  pub Quiet-attempt : Quiet → (a : Act) (lab : Lab) → (attempt kit a lab).0 ≡ ok tt
  unfolding attempt
  Quiet-attempt quiet a lab = rw (quiet lab a) refl

  pub host_open-Returns :
      Quiet
      → (host command : Text) (lab : Lab)
      → Returns (λ p. p ≡ length lab.acts) (host_open kit host command lab).0
  unfolding host_open attempt
  host_open-Returns quiet host command lab =
      rw (quiet lab (opened (length lab.acts) host command)) refl

  pub host_cmd-Returns :
      Quiet
      → (host command : Text) (lab : Lab)
      → Returns (λ t. t ≡ kit.answers lab host command) (host_cmd kit host command lab).0
  unfolding host_cmd attempt
  host_cmd-Returns quiet host command lab = rw (quiet lab (ran host command)) refl

  -- `random` picks one of the options that there are.
  pub record IsRandom : Type 0 where
    pub weighted_in_range :
        (lab : Lab) (w : kit.fl.F) (ws : List kit.fl.F)
        → kit.weighted lab (w ∷ ws) < length (w ∷ ws)
    pub choice_in_range : (lab : Lab) (n : ℕ) → kit.choice lab (suc n) < suc n

pub get_elem?-some {ℓ} :
    {A : Type ℓ} (xs : List A) (i : ℕ) → i < length xs → (a : A) × (get_elem? xs i ≡ some a)
get_elem?-some [] i h = elim h [ ]
get_elem?-some (x ∷ xs) zero h = (x, refl)
get_elem?-some (x ∷ xs) (suc i) h = get_elem?-some xs i (omega (arith, h))
