-- ===== src/Runner/Workdirs/Fresh.antt =====
-- Every client starts in an empty directory of its own.
use mathlib.Core.Path.{subst}
use zk_arche_compare.Base.{
  All, ℕ, zero, suc, ◌≤◌, ◌≡◌, ◌≢◌, refl, sym, ◌∙◌, ap, true, false, not, ◌&&◌, ◌||◌, none, some,
  List, [], ◌∷◌, ◌++◌, map, Text, text_eq, text_eq_iff, os_error, is_some, range_from, arith,
  Bool-cases, inl, inr, if◌then◌else◌,
}
use zk_arche_compare.Strings.{show_padded, show_nat, pad_left, digits_value}
use zk_arche_compare.Strings.Numbers.{digits_value-show_nat}
use zk_arche_compare.World.{FilePath, World, dir, Files}
use zk_arche_compare.World.Ends.{Ends, Ends-continue, Ends-weaken}
use zk_arche_compare.World.Files.{
  mkdirs, rmtree, exists, is_dir, blocked, under, path_eq, under_refl,
}
use zk_arche_compare.World.Files.{with_dirs, without_tree}
use zk_arche_compare.World.Files.Tree.{
  IsTree, none-under, under_trans, under-antisym, sibling_apart, with_dirs-IsTree,
  without_tree-IsTree,
}
use zk_arche_compare.Runner.Workdirs.{client_dir, remove_old, stamp_one, stamp_loop, stamp_workdirs}

-- A directory with nothing in it.
pub record IsEmptyDir (p : FilePath) (fs : Files) : Type 0 where
  pub there : fs p ≡ some dir
  pub nothing_below : (q : FilePath) → under p q ≡ true → path_eq q p ≡ false → fs q ≡ none

-- The directory is made on a tree that has nothing at its place.
with_dirs-IsEmptyDir :
    (d : FilePath) (fs : Files) → IsTree fs → fs d ≡ none → IsEmptyDir d (with_dirs d fs)
with_dirs-IsEmptyDir d fs t e = record {
  there = ground (arith, under_refl d);
  nothing_below = λ q h ne. ground (arith, none-under fs d q t e h, under-antisym d q h);
}

-- An empty directory stays so when directories are made, or a tree removed, apart from it.
with_dirs-keeps_empty :
    (e d : FilePath) (fs : Files)
    → under e d ≡ false
    → IsEmptyDir e fs
    → IsEmptyDir e (with_dirs d fs)
with_dirs-keeps_empty e d fs apart v = record {
  there = ground (arith, v.there);
  nothing_below = λ q h ne. ground (arith, v.nothing_below q h ne, under_trans e q d h);
}

without_tree-keeps_empty :
    (e d : FilePath) (fs : Files)
    → under d e ≡ false
    → IsEmptyDir e fs
    → IsEmptyDir e (without_tree d fs)
without_tree-keeps_empty e d fs apart v = record {
  there = ground (arith, v.there);
  nothing_below = λ q h ne. ground (arith, v.nothing_below q h ne);
}

digits_value-pad_left : (k : ℕ) (s : Text) → digits_value 0 (pad_left k s) ≡ digits_value 0 s
unfolding pad_left digits_value
digits_value-pad_left zero s = refl
digits_value-pad_left (suc k) s = digits_value-pad_left k s

digits_value-show_padded : (w n : ℕ) → digits_value 0 (show_padded w n) ≡ n
unfolding show_padded
digits_value-show_padded w n = digits_value-pad_left _ (show_nat n) ∙ digits_value-show_nat n

text_eq-append : (t x y : Text) → text_eq (t ++ x) (t ++ y) ≡ text_eq x y
unfolding text_eq
text_eq-append [] x y = refl
text_eq-append (c ∷ t) x y = ground (arith, text_eq-append t x y)

-- Two clients have two directories.
client_dirs_apart :
    (parent : FilePath) (prefix : Text) (i j : ℕ)
    → i ≢ j
    → under (client_dir parent prefix i) (client_dir parent prefix j) ≡ false
unfolding client_dir text_eq
client_dirs_apart parent prefix i j ne =
    let a : Text = show_padded 3 i in
    let b : Text = show_padded 3 j in
    sibling_apart (prefix ++ (b'_' ∷ a)) (prefix ++ (b'_' ∷ b)) parent
      (elim (Bool-cases (text_eq (prefix ++ (b'_' ∷ b)) (prefix ++ (b'_' ∷ a)))) [
        | inr other ↦ other
        | inl same ↦ absurd (
            ne (
              sym (digits_value-show_padded 3 i)
              ∙ ap (digits_value 0) (sym ((text_eq_iff b a).0 (rw text_eq-append at same)))
              ∙ digits_value-show_padded 3 j))
      ])

-- The tree after the old directory is gone.
abbrev cleared : FilePath → Files → Files
cleared d fs = if is_some (fs d) then without_tree d fs else fs

cleared-IsTree : (d : FilePath) (fs : Files) → IsTree fs → IsTree (cleared d fs)
cleared-IsTree d fs t = elim (Bool-cases (is_some (fs d))) [
  | inl old ↦ rw old (without_tree-IsTree d fs t)
  | inr new ↦ rw new t
]

cleared-none : (d : FilePath) (fs : Files) → cleared d fs d ≡ none
cleared-none d fs = ground (arith, under_refl d)

cleared-keeps_empty :
    (e d : FilePath) (fs : Files)
    → under d e ≡ false
    → IsEmptyDir e fs
    → IsEmptyDir e (cleared d fs)
cleared-keeps_empty e d fs apart v = elim (Bool-cases (is_some (fs d))) [
  | inl old ↦ rw old (without_tree-keeps_empty e d fs apart v)
  | inr new ↦ rw new v
]

-- Making a fresh directory returns with this tree, or raises an `OSError`.
abbrev StampedOn : FilePath → Files → Unit {0} → World → Type 0
StampedOn d fs u w' = w'.files ≡ with_dirs d fs

abbrev Stamped : FilePath → Files → Unit {0} → World → Type 0
Stamped d fs = StampedOn d (cleared d fs)

Ends-remove_old :
    (d : FilePath) (w : World)
    → Ends os_error
        (λ (u : Unit {0}) w'. w'.files ≡ cleared d w.files)
        (remove_old d w).0
        (remove_old d w).1
unfolding exists rmtree
Ends-remove_old d w = elim (Bool-cases (is_some (w.files d))) [
  | inr new ↦ rw new refl
  | inl old ↦ rw old (elim (Bool-cases (is_dir d w)) [
    | inl yes_dir ↦ rw yes_dir refl
    | inr is_file ↦ rw is_file refl
  ])
]

Ends-mkdirs :
    (d : FilePath) (w : World)
    → Ends os_error
        (λ (u : Unit {0}) w'. w'.files ≡ with_dirs d w.files)
        (mkdirs d w).0
        (mkdirs d w).1
unfolding mkdirs
Ends-mkdirs d w = elim (Bool-cases (blocked w.files d || (exists d w && not (is_dir d w)))) [
  | inl bad ↦ rw bad refl
  | inr good ↦ rw good refl
]

Ends-stamp_one :
    (d : FilePath) (w : World)
    → Ends os_error (Stamped d w.files) (stamp_one none d w).0 (stamp_one none d w).1
unfolding stamp_one
Ends-stamp_one d w =
    let r = remove_old d w in
    Ends-continue os_error (λ (u : Unit {0}) w'. w'.files ≡ cleared d w.files) (Stamped d w.files)
      r.0 (λ u. mkdirs d) r.1 (Ends-remove_old d w)
      λ u e.
        subst (λ fs. Ends os_error (StampedOn d fs) (mkdirs d r.1).0 (mkdirs d r.1).1) e
          (Ends-mkdirs d r.1)

module _ (parent : FilePath) (prefix : Text) where
  abbrev dirs : ℕ → ℕ → List FilePath
  dirs i left = map (client_dir parent prefix) (range_from i left)

  -- The path is none of the directories from number `i` on, nor above or below one.
  abbrev Apart : ℕ → FilePath → Type 0
  Apart i e =
      (j : ℕ)
      → i ≤ j
      → (under e (client_dir parent prefix j) ≡ false)
        × (under (client_dir parent prefix j) e ≡ false)

  record LoopDone (fs : Files) (i left : ℕ) (out : List FilePath) (w' : World) : Type 0 where
    tree : IsTree w'.files
    named : out ≡ dirs i left
    empty : All (λ d. IsEmptyDir d w'.files) (dirs i left)
    others : (e : FilePath) → Apart i e → IsEmptyDir e fs → IsEmptyDir e w'.files

  module _ (i : ℕ) (fs : Files) (tree : IsTree fs) where
    abbrev d : FilePath
    d = client_dir parent prefix i

    abbrev stamped : Files
    stamped = with_dirs d (cleared d fs)

    stamped-IsTree : IsTree stamped
    stamped-IsTree = with_dirs-IsTree d (cleared d fs) (cleared-IsTree d fs tree)

    stamped-IsEmptyDir : IsEmptyDir d stamped
    stamped-IsEmptyDir =
        with_dirs-IsEmptyDir d (cleared d fs) (cleared-IsTree d fs tree) (cleared-none d fs)

    stamped-keeps_empty : (e : FilePath) → Apart i e → IsEmptyDir e fs → IsEmptyDir e stamped
    stamped-keeps_empty e apart v =
        with_dirs-keeps_empty e d (cleared d fs) (apart i (omega arith)).0
          (cleared-keeps_empty e d fs (apart i (omega arith)).1 v)

    next-Apart : Apart (suc i) d
    next-Apart j h = (
      client_dirs_apart parent prefix i j (omega arith),
      client_dirs_apart parent prefix j i (omega arith),
    )

    later-Apart : (e : FilePath) → Apart i e → Apart (suc i) e
    later-Apart e apart j h = apart j (omega arith)

  stamp_loop-LoopDone :
      (left i : ℕ) (w : World)
      → IsTree w.files
      → let (r, w') = stamp_loop none parent prefix left i w in
        Ends os_error (LoopDone w.files i left) r w'
  unfolding stamp_loop
  stamp_loop-LoopDone zero i w t = record {
    tree = t;
    named = refl;
    empty = tt;
    others = λ e apart v. v;
  }
  stamp_loop-LoopDone (suc left) i w t =
      let here : FilePath = client_dir parent prefix i in
      let one = stamp_one none here w in
      Ends-continue os_error (Stamped here w.files) (LoopDone w.files i (suc left)) one.0 _ one.1
        (Ends-stamp_one here w)
        λ u e.
          let rest = stamp_loop none parent prefix left (suc i) one.1 in
          let t' : IsTree one.1.files = subst IsTree (sym e) (stamped-IsTree i w.files t) in
          Ends-continue os_error (LoopDone one.1.files (suc i) left) (LoopDone w.files i (suc left))
            rest.0 _ rest.1 (stamp_loop-LoopDone left (suc i) one.1 t')
            λ out done. record {
              tree = done.tree;
              named = ap (λ ds. here ∷ ds) done.named;
              empty = (
                done.others here (next-Apart i w.files t)
                    (subst (IsEmptyDir here) (sym e) (stamped-IsEmptyDir i w.files t)),
                done.empty,
              );
              others = λ p apart v.
                  done.others p (later-Apart i w.files t p apart)
                    (subst (IsEmptyDir p) (sym e) (stamped-keeps_empty i w.files t p apart v));
            }

  -- What `stamp_workdirs` gives with no template: the paths of the clients 0 to n - 1 in order, and
  -- at each of them an empty directory.
  pub record AllFresh (n : ℕ) (out : List FilePath) (w' : World) : Type 0 where
    pub named : out ≡ dirs 0 n
    pub empty : All (λ d. IsEmptyDir d w'.files) (dirs 0 n)

  -- On any tree of files, `stamp_workdirs` with no template that returns gives the paths of the
  -- clients in order, each of them an empty directory in the final tree, whatever lay there before;
  -- the only exception it raises is an `OSError`.
  pub stamp_workdirs-AllFresh :
      (n : ℕ) (w : World)
      → IsTree w.files
      → let (r, w') = stamp_workdirs none parent n prefix w in Ends os_error (AllFresh n) r w'
  unfolding stamp_workdirs
  stamp_workdirs-AllFresh n w t =
      let made = mkdirs parent w in
      Ends-continue os_error (StampedOn parent w.files) (AllFresh n) made.0 _ made.1
        (Ends-mkdirs parent w)
        λ u e.
          let loop = stamp_loop none parent prefix n 0 made.1 in
          Ends-weaken os_error (LoopDone made.1.files 0 n) (AllFresh n) loop.0 loop.1
            (λ out done. record { named = done.named; empty = done.empty })
            (stamp_loop-LoopDone n 0 made.1
              (subst IsTree (sym e) (with_dirs-IsTree parent w.files t)))
