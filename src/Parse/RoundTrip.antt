-- ===== src/Parse/RoundTrip.antt =====
-- A printed metric line is read back.
use zk_arche_compare.Base.{
  ℕ, ◌≡◌, refl, false, true, Bool, none, some, [], ◌∷◌, ◌++◌, ◌&&◌, Text, codes, is_space, All, not,
  ◌==◌, arith,
}
use zk_arche_compare.Floats.{Floats}
use zk_arche_compare.Regex.{
  Re, lit, seq, lazy, Captures, run, run_many, accept, match_at, search_in,
}
use zk_arche_compare.Regex.Laws.{
  strip_lit_ne, consumed-append, seq-group_alt_left, run_lazy-block, seq-lit, seq-many, seq-many1,
  seq-opt, match_at-search_in,
}
use zk_arche_compare.Strings.{show_nat}
use zk_arche_compare.Strings.Numbers.{IsNumber, show_nat-IsNumber, digits_value-show_nat}
use zk_arche_compare.Parse.{
  parse_line, metrics_of, metrics_re, figures_re, spaces, spaces1, peer_re, no_comma, float_of,
  unit_to_ms,
}
use zk_arche_compare.Parse.Pieces.{TimeUnit, unit_text, Decimal, IsDecimal, decimal_text}
use zk_arche_compare.Parse.Figures.{figures_text, figures_captures, run-figures_re}

-- Who printed the line: a server also names its peer.
pub data Sender : Type 0 where
  client : Sender
  server : Text → Sender

abbrev pub role_text : Sender → Text
role_text client = codes "CLIENT"
role_text (server peer) = codes "SERVER"

abbrev peer_text : Sender → Text → Text
peer_text client tail = tail
peer_text (server peer) tail = peer ++ (32 ∷ tail)

-- A character of an address such as `Some(127.0.0.1:53412)`: no space, no comma, no `D`.
abbrev pub peer_char : ℕ → Bool
peer_char x = no_comma x && not (is_space x) && not (x == b'D')

abbrev pub IsSender : Sender → Type 0
IsSender client = Unit
IsSender (server []) = ⊥
IsSender (server (x ∷ xs)) = All (λ y. peer_char y ≡ true) (x ∷ xs)

abbrev pub line_text : Sender → Decimal → TimeUnit → Text → Text → Text → Text
line_text who n u sent recv tail =
    role_text who
    ++ (32
        ∷ (codes "METRICS"
            ++ (32 ∷ (codes "->" ++ (32 ∷ peer_text who (figures_text n u sent recv tail))))))

-- The pattern cannot start its figures inside the peer's address.
figures_re-peer :
    (x : ℕ) (s : Text) (c : Captures) → peer_char x ≡ true → run figures_re accept (x ∷ s) c ≡ none
unfolding run codes
figures_re-peer x s c h =
    let no_space : is_space x ≡ false = ground arith in
    let no_d : (68 == x) ≡ false = ground arith in
    rw (no_space, run_many) (rw (strip_lit_ne 68 x (codes "uration:") s no_d))

peer_char-passed :
    (xs : Text) (c : Captures)
    → All (λ y. peer_char y ≡ true) xs
    → All (λ x. (no_comma x ≡ true) × ((s : Text) → run figures_re accept (x ∷ s) c ≡ none)) xs
peer_char-passed [] c h = tt
peer_char-passed (x ∷ xs) c (hx, h) =
    ((ground arith, λ s. figures_re-peer x s c hx), peer_char-passed xs c h)

peer-no_space : (x : ℕ) → peer_char x ≡ true → is_space x ≡ false
peer-no_space x h = ground arith

abbrev after_role : Re
after_role =
    seq spaces1
      (seq (lit (codes "METRICS")) (seq spaces (seq (lit (codes "->")) (seq peer_re figures_re))))

module _ (n : Decimal) (u : TimeUnit) (sent recv tail : Text) (d : IsDecimal n) (hs : IsNumber sent)
    (hr : IsNumber recv) (c : Captures) where
  abbrev figures : Text
  figures = figures_text n u sent recv tail

  run-peer_re :
      (who : Sender)
      → IsSender who
      → run (seq peer_re figures_re) accept (32 ∷ peer_text who figures) c
        ≡ some (figures_captures n u sent recv c)
  unfolding run codes is_space
  run-peer_re client v =
      let r = figures_captures n u sent recv c in
      seq-opt figures_re accept (seq spaces (lazy no_comma)) (32 ∷ figures) c r (
        seq-many (seq (lazy no_comma) figures_re) accept is_space (32 ∷ []) figures c r (refl, tt)
          refl
          (run_lazy-block no_comma (λ s' c'. run figures_re accept s' c') [] figures c r tt
            (run-figures_re [] n u sent recv tail c tt d hs hr)))
  run-peer_re (server []) v = absurd v
  run-peer_re (server (x ∷ xs)) v =
      let r = figures_captures n u sent recv c in
      let rest : Text = 32 ∷ figures in
      seq-opt figures_re accept (seq spaces (lazy no_comma)) (32 ∷ ((x ∷ xs) ++ rest)) c r (
        seq-many (seq (lazy no_comma) figures_re) accept is_space (32 ∷ []) ((x ∷ xs) ++ rest) c r
          (refl, tt) (peer-no_space x v.0)
          (run_lazy-block no_comma (λ s' c'. run figures_re accept s' c') (x ∷ xs) rest c r
            (peer_char-passed (x ∷ xs) c v)
            (run-figures_re (32 ∷ []) n u sent recv tail c (refl, tt) d hs hr)))

  run-after_role :
      (who : Sender)
      → IsSender who
      → run after_role accept
          (32 ∷ (codes "METRICS" ++ (32 ∷ (codes "->" ++ (32 ∷ peer_text who figures)))))
          c
        ≡ some (figures_captures n u sent recv c)
  unfolding codes is_space
  run-after_role who v =
      let r = figures_captures n u sent recv c in
      let peer_and : Re = seq peer_re figures_re in
      let arrow : Re = seq (lit (codes "->")) peer_and in
      let tail' : Text = 32 ∷ peer_text who figures in
      seq-many1 (seq (lit (codes "METRICS")) (seq spaces arrow)) accept is_space 32 []
        (codes "METRICS" ++ (32 ∷ (codes "->" ++ tail'))) c r refl tt refl
        (seq-lit (seq spaces arrow) accept (codes "METRICS") (32 ∷ (codes "->" ++ tail')) c r (
          seq-many arrow accept is_space (32 ∷ []) (codes "->" ++ tail') c r (refl, tt) refl
            (seq-lit peer_and accept (codes "->") tail' c r (run-peer_re who v))))

abbrev line_captures : Sender → Decimal → TimeUnit → Text → Text → Captures
line_captures who n u sent recv = figures_captures n u sent recv ((1, role_text who) ∷ [])

run-line_text :
    (who : Sender) (n : Decimal) (u : TimeUnit) (sent recv tail : Text)
    → IsSender who
    → IsDecimal n
    → IsNumber sent
    → IsNumber recv
    → run metrics_re accept (line_text who n u sent recv tail) []
      ≡ some (line_captures who n u sent recv)
unfolding run codes
run-line_text client n u sent recv tail v d hs hr =
    let rest : Text =
      32 ∷ (codes "METRICS" ++ (32 ∷ (codes "->" ++ (32 ∷ figures_text n u sent recv tail)))) in
    seq-group_alt_left after_role accept 1 (lit (codes "CLIENT")) (lit (codes "SERVER"))
      (line_text client n u sent recv tail) [] (line_captures client n u sent recv)
      (rw (consumed-append (codes "CLIENT") rest)
        (run-after_role n u sent recv tail d hs hr ((1, codes "CLIENT") ∷ []) client v))
run-line_text (server peer) n u sent recv tail v d hs hr =
    let rest : Text =
      32
      ∷ (codes "METRICS"
          ++ (32 ∷ (codes "->" ++ (32 ∷ (peer ++ (32 ∷ figures_text n u sent recv tail)))))) in
    rw (consumed-append (codes "SERVER") rest)
      (run-after_role n u sent recv tail d hs hr ((1, codes "SERVER") ∷ []) (server peer) v)

match-line_text :
    (who : Sender) (n : Decimal) (u : TimeUnit) (sent recv tail : Text)
    → IsSender who
    → IsDecimal n
    → IsNumber sent
    → IsNumber recv
    → search_in metrics_re (line_text who n u sent recv tail)
      ≡ some (line_captures who n u sent recv)
unfolding match_at
match-line_text who n u sent recv tail v d hs hr =
    match_at-search_in metrics_re _ _ (run-line_text who n u sent recv tail v d hs hr)

module _ (fl : Floats) where
  open fl use {mul}

  -- What the harness reads off a printed metric line with no `Protocol` part, of a client, or of a
  -- server that names its peer by characters other than spaces, commas and `D`: the role of the sender, the decimal number
  -- scaled by its unit, and both byte counts, whatever follows on the line.
  pub parse_line-line_text :
      (who : Sender) (n : Decimal) (u : TimeUnit) (sent recv : ℕ) (tail : Text)
      → IsSender who
      → IsDecimal n
      → parse_line fl (line_text who n u (show_nat sent) (show_nat recv) tail)
        ≡ some (record {
          role = role_text who;
          duration_ms = mul (float_of fl (decimal_text n)) (unit_to_ms fl (unit_text u));
          sent_bytes = sent;
          recv_bytes = recv;
        })
  unfolding parse_line metrics_of
  parse_line-line_text who n u sent recv tail v d =
      let m =
        match-line_text who n u (show_nat sent) (show_nat recv) tail v d (show_nat-IsNumber sent)
          (show_nat-IsNumber recv) in
      rw (m, parse_line, digits_value-show_nat sent, digits_value-show_nat recv)
