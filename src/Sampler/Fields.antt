-- ===== src/Sampler/Fields.antt =====
-- The fields of /proc/pid/stat are found whatever the name of the command is.
use zk_arche_compare.Base.{ℕ, ◌≡◌, refl, true, false, some, [], ◌∷◌, ◌++◌, Text, All, arith, ◌==◌}
use zk_arche_compare.Strings.{rpartition, words}
use zk_arche_compare.Sampler.{stat_fields, read_stat}

-- A text without the character.
abbrev pub Without : ℕ → Text → Type 0
Without c = All (λ x. (x == c) ≡ false)

rpartition-absent : (c : ℕ) (s : Text) → Without c s → rpartition c s ≡ ([], false, s)
unfolding rpartition
rpartition-absent c [] h = refl
rpartition-absent c (x ∷ s) (hx, h) = rw (rpartition-absent c s h, hx)

rpartition-last :
    (c : ℕ) (before s : Text) → Without c s → rpartition c (before ++ (c ∷ s)) ≡ (before, true, s)
unfolding rpartition
rpartition-last c [] s h = rw (rpartition-absent c s h) (ground arith)
rpartition-last c (x ∷ before) s h = rw (rpartition-last c before s h)

-- A stat file is read from what follows the last ")" and a space, if no field holds a ")": no
-- command name, with spaces or brackets of its own, moves the fields.
pub read_stat-after_paren :
    (before fields : Text)
    → Without b')' fields
    → read_stat (some (before ++ (b')' ∷ 32 ∷ fields))) ≡ stat_fields (words fields)
unfolding read_stat
read_stat-after_paren before fields h =
    rw (rpartition-last b')' before (32 ∷ fields) (refl, h), read_stat)
