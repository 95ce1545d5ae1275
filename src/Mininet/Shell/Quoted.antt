-- ===== src/Mininet/Shell/Quoted.antt =====
-- A shell reads a quoted text back as one word.
use zk_arche_compare.Base.{
  ℕ, ◌≡◌, ap, ◌∙◌, refl, Bool, true, false, ◌&&◌, ◌||◌, Option, none, some, [], ◌∷◌, ◌++◌, Text,
  codes, ◌==◌, leb, is_digit, is_space, Bool-cases, inl, inr, ◌⊎◌, sym, ==_iff, arith,
  if◌then◌else◌,
}
use mathlib.Core.List.{append-nil, append_assoc}
use mathlib.Core.Path.{subst}
use zk_arche_compare.Regex.{strip_lit}
use zk_arche_compare.Regex.Laws.{strip_lit-append}
use zk_arche_compare.Mininet.Shell.{quote, quoted_end, all_safe, is_safe, wrapped_shell_cmd, in_dir}

-- Where the shell stands in a word.
pub data Quoting : Type 0 where
  bare single double : Quoting

-- What a character does there.
pub data Step : Type 0 where
  take_it stop fail : Step
  go_on : Quoting → Step

-- | & ; < > ( ) $ ` \ * ? [ ] { } ! # ~ ^
is_special : ℕ → Bool
is_special c =
    c == b'|'
    || c == b'&'
    || c == b';'
    || c == b'<'
    || c == b'>'
    || c == b'('
    || c == b')'
    || c == b'$'
    || c == b'`'
    || c == 92
    || c == b'*'
    || c == b'?'
    || c == 91
    || c == 93
    || c == 123
    || c == 125
    || c == b'!'
    || c == b'#'
    || c == b'~'
    || c == b'^'

-- In double quotes the shell acts on $ ` \
is_active : ℕ → Bool
is_active c = c == b'$' || c == b'`' || c == 92

step : Quoting → ℕ → Step
unfolding is_special is_active is_space
step bare c =
    if c == 39
    then go_on single
    else if c == 34
    then go_on double
    else if is_space c
    then stop
    else if is_special c
    then fail
    else take_it
step single c = if c == 39 then go_on bare else take_it
step double c = if c == 34 then go_on bare else if is_active c then fail else take_it

with_char : ℕ → Option (Text × Text) → Option (Text × Text)
with_char c none = none
with_char c (some (word, rest)) = some (c ∷ word, rest)

at_end : Quoting → Option (Text × Text)
at_end bare = some ([], [])
at_end single = none
at_end double = none

-- The word at the front of a command and what is left of it, where the shell only takes quotes off.
unfoldable pub read_word : Quoting → Text → Option (Text × Text)
unfolding step with_char at_end
read_word q [] = at_end q
read_word q (c ∷ s) = elim (step q c) [
  | take_it ↦ with_char c (read_word q s)
  | stop ↦ some ([], c ∷ s)
  | fail ↦ none
  | go_on r ↦ read_word r s
]

-- The command ends, or a space follows.
abbrev pub WordEnds : Text → Type 0
WordEnds [] = Unit
WordEnds (c ∷ s) = c ≡ 32

read_end : (rest : Text) → WordEnds rest → read_word bare rest ≡ some ([], rest)
unfolding read_word is_space
read_end [] h = refl
read_end (c ∷ s) h = rw h refl

take_char :
    (q : Quoting) (c : ℕ) (s : Text)
    → step q c ≡ take_it
    → read_word q (c ∷ s) ≡ with_char c (read_word q s)
unfolding read_word
take_char q c s e = rw (e, read_word) refl

single_step : (c : ℕ) → (c == 39) ≡ false → step single c ≡ take_it
unfolding step
single_step c h = rw h refl

quoted_end-read :
    (s rest : Text) → WordEnds rest → read_word single (quoted_end s ++ rest) ≡ some (s, rest)
unfolding read_word quoted_end with_char
quoted_end-read [] rest h = read_end rest h
quoted_end-read (c ∷ s) rest h = elim (Bool-cases (c == 39)) [
  | inl e ↦ rw e (
      ap (with_char 39) (quoted_end-read s rest h)
      ∙ ap (λ x. some (x ∷ s, rest)) (sym ((==_iff c 39).0 e)))
  | inr e ↦ rw e (
      take_char single c (quoted_end s ++ rest) (single_step c e)
      ∙ ap (with_char c) (quoted_end-read s rest h))
]

digit_step : (c : ℕ) → (leb b'0' c && leb c b'9') ≡ true → step bare c ≡ take_it
unfolding step is_space is_special
digit_step c h = ground arith

upper_step : (c : ℕ) → (leb b'A' c && leb c b'Z') ≡ true → step bare c ≡ take_it
unfolding step is_space is_special
upper_step c h = ground arith

lower_step : (c : ℕ) → (leb b'a' c && leb c b'z') ≡ true → step bare c ≡ take_it
unfolding step is_space is_special
lower_step c h = ground arith

sign_step : (c : ℕ) → (leb b',' c && leb c b'/') ≡ true → step bare c ≡ take_it
unfolding step is_space is_special
sign_step c h = ground arith

same_step : (c d : ℕ) → (c == d) ≡ true → step bare d ≡ take_it → step bare c ≡ take_it
same_step c d h k = subst (λ x. step bare x ≡ take_it) (sym ((==_iff c d).0 h)) k

or-cases : (a b : Bool) → (a || b) ≡ true → (a ≡ true) ⊎ (b ≡ true)
or-cases true b h = inl refl
or-cases false b h = inr h

-- The characters that are left bare stand for themselves.
safe_step : (c : ℕ) → is_safe c ≡ true → step bare c ≡ take_it
unfolding is_safe is_digit step is_space is_special
safe_step c h = elim (or-cases _ _ h) [
  | inr e ↦ same_step c b':' e refl
  | inl h ↦ elim (or-cases _ _ h) [
    | inr e ↦ sign_step c e
    | inl h ↦ elim (or-cases _ _ h) [
      | inr e ↦ same_step c b'=' e refl
      | inl h ↦ elim (or-cases _ _ h) [
        | inr e ↦ same_step c b'+' e refl
        | inl h ↦ elim (or-cases _ _ h) [
          | inr e ↦ same_step c b'%' e refl
          | inl h ↦ elim (or-cases _ _ h) [
            | inr e ↦ same_step c b'@' e refl
            | inl h ↦ elim (or-cases _ _ h) [
              | inr e ↦ same_step c b'_' e refl
              | inl h ↦ elim (or-cases _ _ h) [
                | inr e ↦ lower_step c e
                | inl h ↦ elim (or-cases _ _ h) [ inr e ↦ upper_step c e | inl e ↦ digit_step c e ]
              ]
            ]
          ]
        ]
      ]
    ]
  ]
]

safe-read :
    (s rest : Text)
    → all_safe s ≡ true
    → WordEnds rest
    → read_word bare (s ++ rest) ≡ some (s, rest)
unfolding all_safe with_char
safe-read [] rest e h = read_end rest h
safe-read (c ∷ s) rest e h =
    let first : is_safe c ≡ true = ground arith in
    let others : all_safe s ≡ true = ground arith in
    take_char bare c (s ++ rest) (safe_step c first) ∙ ap (with_char c) (safe-read s rest others h)

-- A quoted text is one word, which is the text itself.
read_word-quote :
    (s rest : Text) → WordEnds rest → read_word bare (quote s ++ rest) ≡ some (s, rest)
unfolding quote read_word quoted_end
read_word-quote [] rest h = quoted_end-read [] rest h
read_word-quote (c ∷ s) rest h = elim (Bool-cases (all_safe (c ∷ s))) [
  | inl e ↦ rw e (safe-read (c ∷ s) rest e h)
  | inr e ↦ rw e (quoted_end-read (c ∷ s) rest h)
]

-- The first argument of a command with such a start, and what follows it.
abbrev pub argument_after : Text → Text → Option (Text × Text)
argument_after start s = elim (strip_lit start s) [ none ↦ none | some rest ↦ read_word bare rest ]

quote-argument :
    (start s rest : Text)
    → WordEnds rest
    → argument_after start (start ++ (quote s ++ rest)) ≡ some (s, rest)
quote-argument start s rest h =
    rw (strip_lit-append start (quote s ++ rest), argument_after) (read_word-quote s rest h)

-- Whatever characters the directory and the command have, a shell that runs a wrapped command hands
-- its script to `bash -lc` as one argument and nothing else, and `cd` gets the directory as one
-- argument, with the command following it.
pub shell_commands_are_words :
    (directory cmd : Text)
    → (argument_after (codes "bash -lc ") (wrapped_shell_cmd cmd)
        ≡ some (codes "(" ++ cmd ++ codes ") 2>&1; rc=$?; echo __RC_${rc}__", []))
      × (argument_after (codes "cd ") (in_dir directory cmd)
          ≡ some (directory, codes " && " ++ cmd))
unfolding wrapped_shell_cmd in_dir codes
shell_commands_are_words directory cmd =
    let script = codes "(" ++ cmd ++ codes ") 2>&1; rc=$?; echo __RC_${rc}__" in
    (
      subst (λ t. argument_after (codes "bash -lc ") (codes "bash -lc " ++ t) ≡ some (script, []))
          (append-nil (quote script)) (quote-argument (codes "bash -lc ") script [] tt),
      subst
          (λ t.
            argument_after (codes "cd ") (codes "cd " ++ t) ≡ some (directory, codes " && " ++ cmd))
          (sym (append_assoc (quote directory) (codes " && ") cmd))
          (quote-argument (codes "cd ") directory (codes " && " ++ cmd) refl),
    )
