-- ===== src/World/Files/Tree.antt =====
-- The order of paths, and the file trees in which every entry has a parent.
use mathlib.Core.Path.{subst}
use zk_arche_compare.Base.{
  ◌≤◌, ◌≡◌, refl, sym, ap, true, false, none, [], ◌∷◌, Text, text_eq, text_eq_iff, length, arith,
  Bool-cases, inl, inr,
}
use zk_arche_compare.World.{FilePath, Files}
use zk_arche_compare.World.Files.{under, path_eq, with_dirs, without_tree, under_refl}

pub eq_of_path_eq : (p q : FilePath) → path_eq p q ≡ true → p ≡ q
unfolding path_eq
eq_of_path_eq [] [] h = refl
eq_of_path_eq [] (y ∷ q) h = cc
eq_of_path_eq (x ∷ p) [] h = cc
eq_of_path_eq (x ∷ p) (y ∷ q) h = ground (arith, text_eq_iff x y, eq_of_path_eq p q)

pub length-under : (p q : FilePath) → under p q ≡ true → length p ≤ length q
unfolding under
length-under p [] h = ground (arith, ap (λ (r : FilePath). length r) (eq_of_path_eq [] p h))
length-under p (x ∷ q) h = elim (Bool-cases (path_eq (x ∷ q) p)) [
  | inl same ↦ omega (arith, ap (λ (r : FilePath). length r) (eq_of_path_eq (x ∷ q) p same))
  | inr other ↦ omega (arith, length-under p q (ground arith))
]

-- An ancestor of an ancestor.
pub under-parent : (x : Text) (p q : FilePath) → under (x ∷ p) q ≡ true → under p q ≡ true
unfolding under
under-parent x p [] h = absurd (omega (arith, length-under (x ∷ p) [] h))
under-parent x p (y ∷ q) h = elim (Bool-cases (path_eq (y ∷ q) (x ∷ p))) [
  | inl same ↦
      subst (λ r. under p r ≡ true) (sym (eq_of_path_eq (y ∷ q) (x ∷ p) same))
        (ground (arith, under_refl p))
  | inr other ↦ ground (arith, under-parent x p q)
]

pub under_trans : (p q r : FilePath) → under p q ≡ true → under q r ≡ true → under p r ≡ true
unfolding under
under_trans p q [] h k = subst (λ s. under p s ≡ true) (sym (eq_of_path_eq [] q k)) h
under_trans p q (z ∷ r) h k = elim (Bool-cases (path_eq (z ∷ r) q)) [
  | inl same ↦ subst (λ s. under p s ≡ true) (sym (eq_of_path_eq (z ∷ r) q same)) h
  | inr other ↦ ground (arith, under_trans p q r h)
]

pub under-antisym : (p q : FilePath) → under p q ≡ true → under q p ≡ true → path_eq q p ≡ true
unfolding under
under-antisym p [] h k = h
under-antisym p (y ∷ q) h k = elim (Bool-cases (path_eq (y ∷ q) p)) [
  | inl same ↦ same
  | inr other ↦ absurd (omega (arith, length-under p q (ground arith), length-under (y ∷ q) p k))
]

-- Two entries of one directory lie apart.
pub sibling_apart :
    (x y : Text) (p : FilePath) → text_eq y x ≡ false → under (x ∷ p) (y ∷ p) ≡ false
sibling_apart x y p h = elim (Bool-cases (under (x ∷ p) (y ∷ p))) [
  | inr apart ↦ apart
  | inl below ↦
      unfold under path_eq in
      elim (Bool-cases (under (x ∷ p) p)) [
        | inl deep ↦ absurd (omega (arith, length-under (x ∷ p) p deep))
        | inr shallow ↦ ground arith
      ]
]

pub record IsTree (fs : Files) : Type 0 where
  pub none_below : (x : Text) (p : FilePath) → fs p ≡ none → fs (x ∷ p) ≡ none

-- Below an entry that is not there, nothing is.
pub none-under :
    (fs : Files) (p q : FilePath) → IsTree fs → fs p ≡ none → under p q ≡ true → fs q ≡ none
unfolding under
none-under fs p [] t e h = subst (λ s. fs s ≡ none) (sym (eq_of_path_eq [] p h)) e
none-under fs p (x ∷ q) t e h = elim (Bool-cases (path_eq (x ∷ q) p)) [
  | inl same ↦ subst (λ s. fs s ≡ none) (sym (eq_of_path_eq (x ∷ q) p same)) e
  | inr other ↦ t.none_below x q (none-under fs p q t e (ground arith))
]

pub with_dirs-IsTree : (p : FilePath) (fs : Files) → IsTree fs → IsTree (with_dirs p fs)
with_dirs-IsTree p fs t = record {
  none_below = λ x q h. ground (arith, t.none_below x q, under-parent x q p);
}

pub without_tree-IsTree : (p : FilePath) (fs : Files) → IsTree fs → IsTree (without_tree p fs)
unfolding under
without_tree-IsTree p fs t = record { none_below = λ x q h. ground (arith, t.none_below x q) }
