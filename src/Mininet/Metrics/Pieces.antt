-- ===== src/Mininet/Metrics/Pieces.antt =====
-- The figures of a metric line of a client or a server are read back.
use zk_arche_compare.Base.{
  ℕ, ◌+◌, ◌≡◌, refl, true, false, some, [], ◌∷◌, ◌++◌, Text, codes, is_space, All,
}
use zk_arche_compare.Regex.{Re, lit, seq, group, many1, Captures, Next, run, accept, strip_lit}
use zk_arche_compare.Regex.Laws.{seq-lit, seq-many, seq-group_many1}
use zk_arche_compare.Strings.Numbers.{IsNumber}
use zk_arche_compare.Parse.{spaces, no_comma, bytes_re}
use zk_arche_compare.Parse.Pieces.{bytes_text, seq-bytes_re}
use zk_arche_compare.Mininet.Metrics.{comma, figures_from}

-- A text of one character or more that starts with no space and has no comma.
abbrev pub IsField : Text → Type 0
IsField [] = ⊥
IsField (c ∷ s) = (is_space c ≡ false) × All (λ x. no_comma x ≡ true) (c ∷ s)

module _ (e : Re) (k : Next) where
  -- `, ` and what does not start with a space
  pub run-comma :
      (x : ℕ) (s : Text) (c r : Captures)
      → is_space x ≡ false
      → run e k (x ∷ s) c ≡ some r
      → run (comma e) k (44 ∷ 32 ∷ x ∷ s) c ≡ some r
  unfolding run codes is_space strip_lit
  run-comma x s c r hx h = seq-many e k is_space (32 ∷ []) (x ∷ s) c r (refl, tt) hx h

-- `Duration: 1.25ms, Sent: 320 bytes, Received: 240 bytes` and a rest
abbrev pub figures_text : Text → Text → Text → Text → Text
figures_text duration sent recv tail =
    codes "Duration:"
    ++ (32
        ∷ (duration
            ++ (44
                ∷ 32
                ∷ bytes_text (codes "Sent:") sent
                    (44 ∷ 32 ∷ bytes_text (codes "Received:") recv tail))))

abbrev sent_part : ℕ → Re
sent_part i = seq (bytes_re (i + 1) (codes "Sent:")) (comma (bytes_re (i + 2) (codes "Received:")))

run-received :
    (i : ℕ) (recv tail : Text) (c : Captures)
    → IsNumber recv
    → run (bytes_re i (codes "Received:")) accept (bytes_text (codes "Received:") recv tail) c
      ≡ some ((i, recv) ∷ c)
unfolding run
run-received i [] tail c v = absurd v
run-received i (d ∷ ds) tail c v =
    seq-bytes_re (lit []) accept i (codes "Received:") tail d ds c ((i, d ∷ ds) ∷ c) v.0 v.1 refl

run-sent :
    (i : ℕ) (sent recv tail : Text) (c : Captures)
    → IsNumber sent
    → IsNumber recv
    → run
        (sent_part i)
        accept
        (bytes_text (codes "Sent:") sent (44 ∷ 32 ∷ bytes_text (codes "Received:") recv tail))
        c
      ≡ some ((i + 2, recv) ∷ (i + 1, sent) ∷ c)
unfolding codes is_space
run-sent i [] recv tail c v w = absurd v
run-sent i (d ∷ ds) recv tail c v w =
    seq-bytes_re (comma (bytes_re (i + 2) (codes "Received:"))) accept (i + 1) (codes "Sent:") _ d
      ds c _ v.0 v.1
      (run-comma (bytes_re (i + 2) (codes "Received:")) accept b'R'
        (codes "eceived:" ++ (32 ∷ (recv ++ (32 ∷ (codes "bytes" ++ tail))))) _ _ refl
        (run-received (i + 2) recv tail ((i + 1, d ∷ ds) ∷ c) w))

pub run-figures_from :
    (i : ℕ) (duration sent recv tail : Text) (c : Captures)
    → IsField duration
    → IsNumber sent
    → IsNumber recv
    → run (figures_from i) accept (figures_text duration sent recv tail) c
      ≡ some ((i + 2, recv) ∷ (i + 1, sent) ∷ (i, duration) ∷ c)
unfolding codes is_space
run-figures_from i [] sent recv tail c f v w = absurd f
run-figures_from i (d ∷ ds) sent recv tail c (space, (hd, hds)) v w =
    let after : Re = comma (sent_part i) in
    let rest : Text =
      bytes_text (codes "Sent:") sent (44 ∷ 32 ∷ bytes_text (codes "Received:") recv tail) in
    let read =
      run-comma (sent_part i) accept b'S'
        (codes "ent:"
          ++ (32
              ∷ (sent
                  ++ (32
                      ∷ (codes "bytes" ++ (44 ∷ 32 ∷ bytes_text (codes "Received:") recv tail))))))
        ((i, d ∷ ds) ∷ c) _ refl (run-sent i sent recv tail ((i, d ∷ ds) ∷ c) v w) in
    seq-lit (seq spaces (seq (group i (many1 no_comma)) after)) accept (codes "Duration:") _ c _ (
      seq-many (seq (group i (many1 no_comma)) after) accept is_space (32 ∷ []) _ c _ (refl, tt)
        space (seq-group_many1 after accept i no_comma d ds (44 ∷ 32 ∷ rest) c _ hd hds refl read))
