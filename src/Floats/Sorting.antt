-- ===== src/Floats/Sorting.antt =====
-- Sorting values that are finite: the length stays, and the list is in order.
use zk_arche_compare.Base.{
  ℕ, zero, suc, ◌≤◌, ◌<◌, ◌≡◌, refl, ap, ◌∙◌, true, false, some, List, [], ◌∷◌, All, length,
  get_elem?, arith, Bool-cases, inl, inr,
}
use mathlib.Core.Path.{subst}
use zk_arche_compare.Floats.{Floats, IsIeee, insert_sorted, sorted}

pub get_elem?-some {ℓ} :
    {A : Type ℓ} (xs : List A) (i : ℕ) → i < length xs → (a : A) × (get_elem? xs i ≡ some a)
get_elem?-some [] i h = elim h [ ]
get_elem?-some (x ∷ xs) zero h = (x, refl)
get_elem?-some (x ∷ xs) (suc i) h = get_elem?-some xs i (omega arith)

some-injective {ℓ} : {A : Type ℓ} (x y : A) → some x ≡ some y → x ≡ y
some-injective x y e = cc

pub All-get_elem? {ℓ κ} :
    {A : Type ℓ} (P : A → Type κ) (xs : List A) (i : ℕ) (a : A)
    → All P xs
    → get_elem? xs i ≡ some a
    → P a
All-get_elem? P [] i a h e = cc
All-get_elem? P (x ∷ xs) zero a (p, h) e = subst P (some-injective x a e) p
All-get_elem? P (x ∷ xs) (suc i) a (p, h) e = All-get_elem? P xs i a h e

module _ (fl : Floats) where
  open fl use {F, le, lt}

  length-insert_sorted : (x : F) (xs : List F) → length (insert_sorted fl x xs) ≡ suc (length xs)
  unfolding insert_sorted
  length-insert_sorted x [] = refl
  length-insert_sorted x (y ∷ ys) = ground (arith, length-insert_sorted x ys)

  pub length-sorted : (xs : List F) → length (sorted fl xs) ≡ length xs
  unfolding sorted
  length-sorted [] = refl
  length-sorted (x ∷ xs) = length-insert_sorted x (sorted fl xs) ∙ ap suc (length-sorted xs)

  module _ {κ} (P : F → Type κ) where
    All-insert_sorted : (x : F) (xs : List F) → P x → All P xs → All P (insert_sorted fl x xs)
    unfolding insert_sorted
    All-insert_sorted x [] p h = (p, tt)
    All-insert_sorted x (y ∷ ys) p (q, h) = elim (Bool-cases (lt y x)) [
      | inl e ↦ rw e (q, All-insert_sorted x ys p h)
      | inr e ↦ rw e (p, (q, h))
    ]

    pub All-sorted : (xs : List F) → All P xs → All P (sorted fl xs)
    unfolding sorted
    All-sorted [] h = tt
    All-sorted (x ∷ xs) (p, h) = All-insert_sorted x (sorted fl xs) p (All-sorted xs h)

  abbrev pub IsSorted : List F → Type 0
  IsSorted [] = Unit
  IsSorted (x ∷ xs) = All (λ y. le x y ≡ true) xs × IsSorted xs

  module _ (ieee : IsIeee fl) where
    open ieee use {Finite, le_trans, le_total, lt-eq-not-le, le_refl}

    lt→le : (x y : F) → Finite x → Finite y → lt x y ≡ true → le x y ≡ true
    lt→le x y f g h = elim (le_total x y f g) [
      | inl e ↦ e
      | inr e ↦ ground (arith, lt-eq-not-le x y f g)
    ]

    not-lt→le : (x y : F) → Finite x → Finite y → lt y x ≡ false → le x y ≡ true
    not-lt→le x y f g h = ground (arith, lt-eq-not-le y x g f)

    All-le :
        (x y : F) (ys : List F)
        → le x y ≡ true
        → All (λ z. le y z ≡ true) ys
        → All (λ z. le x z ≡ true) ys
    All-le x y [] h _ = tt
    All-le x y (z ∷ zs) h (k, ks) = (le_trans x y z h k, All-le x y zs h ks)

    insert_sorted-IsSorted :
        (x : F) (xs : List F)
        → Finite x
        → All Finite xs
        → IsSorted xs
        → IsSorted (insert_sorted fl x xs)
    unfolding insert_sorted
    insert_sorted-IsSorted x [] f fs s = (tt, tt)
    insert_sorted-IsSorted x (y ∷ ys) f (g, fs) (first, s) = elim (Bool-cases (lt y x)) [
      | inl e ↦ rw e (
        All-insert_sorted (λ z. le y z ≡ true) x ys (lt→le y x g f e) first,
        insert_sorted-IsSorted x ys f fs s,
      )
      | inr e ↦ rw e ((not-lt→le x y f g e, All-le x y ys (not-lt→le x y f g e) first), (first, s))
    ]

    pub sorted-IsSorted : (xs : List F) → All Finite xs → IsSorted (sorted fl xs)
    unfolding sorted
    sorted-IsSorted [] h = tt
    sorted-IsSorted (x ∷ xs) (f, fs) =
        insert_sorted-IsSorted x (sorted fl xs) f (All-sorted Finite xs fs) (sorted-IsSorted xs fs)

    pub IsSorted-le :
        (xs : List F) (i j : ℕ) (a b : F)
        → All Finite xs
        → IsSorted xs
        → i ≤ j
        → get_elem? xs i ≡ some a
        → get_elem? xs j ≡ some b
        → le a b ≡ true
    IsSorted-le [] i j a b fs s h p q = cc
    IsSorted-le (x ∷ xs) zero zero a b (f, fs) s h p q =
        subst (λ t. le t b ≡ true) (some-injective x a p)
          (subst (λ t. le x t ≡ true) (some-injective x b q) (le_refl x f))
    IsSorted-le (x ∷ xs) zero (suc j) a b (f, fs) (first, s) h p q =
        subst (λ t. le t b ≡ true) (some-injective x a p)
          (All-get_elem? (λ t. le x t ≡ true) xs j b first q)
    IsSorted-le (x ∷ xs) (suc i) zero a b fs s h p q = elim h [ ]
    IsSorted-le (x ∷ xs) (suc i) (suc j) a b (f, fs) (first, s) h p q =
        IsSorted-le xs i j a b fs s (omega arith) p q
