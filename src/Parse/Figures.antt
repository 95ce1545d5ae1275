-- ===== src/Parse/Figures.antt =====
-- The part of the metric pattern from `Duration:` on reads a printed line.
use zk_arche_compare.Base.{
  ℕ, ◌≡◌, refl, false, true, some, [], ◌∷◌, ◌++◌, Text, codes, is_digit, is_space, All,
}
use zk_arche_compare.Regex.{Re, lit, seq, Captures, Next, run, strip_lit, accept}
use zk_arche_compare.Regex.Laws.{Stops, seq-lit, seq-many}
use zk_arche_compare.Strings.Numbers.{IsNumber}
use zk_arche_compare.Parse.{figures_re, bytes_re, dur_re, unit_re, spaces, comma_re}
use zk_arche_compare.Parse.Pieces.{
  TimeUnit, nanos, micros, micros_ascii, millis, secs, unit_text, Decimal, IsDecimal, decimal_text,
  bytes_text, seq-bytes_re, seq-dur_re, seq-unit_re, space-is_space, digit-not_space,
}

-- `1.25ms,` and what follows
pub duration_text : Decimal → TimeUnit → Text → Text
duration_text n u tail = decimal_text n ++ (unit_text u ++ (44 ∷ tail))

module _ (e : Re) (k : Next) where
  seq-duration :
      (n : Decimal) (u : TimeUnit) (tail : Text) (c r : Captures)
      → IsDecimal n
      → run e k (44 ∷ tail) ((3, unit_text u) ∷ (2, decimal_text n) ∷ c) ≡ some r
      → run (seq dur_re (seq unit_re e)) k (duration_text n u tail) c ≡ some r
  unfolding codes is_digit duration_text strip_lit
  seq-duration n nanos tail c r d h =
      seq-dur_re (seq unit_re e) k n 110 (115 ∷ 44 ∷ tail) c r d refl refl
        (seq-unit_re e k nanos tail _ r h)
  seq-duration n micros tail c r d h =
      seq-dur_re (seq unit_re e) k n 181 (115 ∷ 44 ∷ tail) c r d refl refl
        (seq-unit_re e k micros tail _ r h)
  seq-duration n micros_ascii tail c r d h =
      seq-dur_re (seq unit_re e) k n 117 (115 ∷ 44 ∷ tail) c r d refl refl
        (seq-unit_re e k micros_ascii tail _ r h)
  seq-duration n millis tail c r d h =
      seq-dur_re (seq unit_re e) k n 109 (115 ∷ 44 ∷ tail) c r d refl refl
        (seq-unit_re e k millis tail _ r h)
  seq-duration n secs tail c r d h =
      seq-dur_re (seq unit_re e) k n 115 (44 ∷ tail) c r d refl refl
        (seq-unit_re e k secs tail _ r h)

  -- `, ` before a word
  seq-comma_re :
      (x : ℕ) (s : Text) (c r : Captures)
      → is_space x ≡ false
      → run e k (x ∷ s) c ≡ some r
      → run (seq comma_re e) k (44 ∷ 32 ∷ x ∷ s) c ≡ some r
  unfolding run codes is_space strip_lit
  seq-comma_re x s c r hx h = seq-many e k is_space (32 ∷ []) (x ∷ s) c r (refl, tt) hx h

-- `Duration: 1.25ms, Sent: 320 bytes, Received: 240 bytes` and a rest
abbrev pub figures_text : Decimal → TimeUnit → Text → Text → Text → Text
figures_text n u sent recv tail =
    codes "Duration:"
    ++ (32
        ∷ duration_text n u (
            32
            ∷ bytes_text (codes "Sent:") sent
                (44 ∷ (32 ∷ bytes_text (codes "Received:") recv tail))))

abbrev pub figures_captures : Decimal → TimeUnit → Text → Text → Captures → Captures
figures_captures n u sent recv c =
    (5, recv) ∷ (4, sent) ∷ (3, unit_text u) ∷ (2, decimal_text n) ∷ c

run-bytes_end :
    (recv tail : Text) (c : Captures)
    → IsNumber recv
    → run (bytes_re 5 (codes "Received:")) accept (bytes_text (codes "Received:") recv tail) c
      ≡ some ((5, recv) ∷ c)
unfolding run
run-bytes_end [] tail c v = absurd v
run-bytes_end (d ∷ ds) tail c v =
    seq-bytes_re (lit []) accept 5 (codes "Received:") tail d ds c ((5, d ∷ ds) ∷ c) v.0 v.1 refl

abbrev received_re : Re
received_re = bytes_re 5 (codes "Received:")

run-after_duration :
    (sent recv tail : Text) (c : Captures)
    → IsNumber sent
    → IsNumber recv
    → run
        (seq comma_re (seq (bytes_re 4 (codes "Sent:")) (seq comma_re received_re)))
        accept
        (44
          ∷ (32
              ∷ bytes_text
                  (codes "Sent:")
                  sent
                  (44 ∷ (32 ∷ bytes_text (codes "Received:") recv tail))))
        c
      ≡ some ((5, recv) ∷ (4, sent) ∷ c)
unfolding codes is_space
run-after_duration [] recv tail c hs hr = absurd hs
run-after_duration (d ∷ ds) recv tail c hs hr =
    let c' : Captures = (4, d ∷ ds) ∷ c in
    let rest : Text = codes "eceived:" ++ (32 ∷ (recv ++ (32 ∷ (codes "bytes" ++ tail)))) in
    seq-comma_re (seq (bytes_re 4 (codes "Sent:")) (seq comma_re received_re)) accept b'S'
      (codes "ent:" ++ (32 ∷ ((d ∷ ds) ++ (32 ∷ (codes "bytes" ++ (44 ∷ (32 ∷ (b'R' ∷ rest)))))))) c
      _ refl
      (seq-bytes_re (seq comma_re received_re) accept 4 (codes "Sent:") (44 ∷ (32 ∷ (b'R' ∷ rest)))
        d ds c _ hs.0 hs.1
        (seq-comma_re received_re accept b'R' rest c' _ refl (run-bytes_end recv tail c' hr)))

duration-Stops :
    (n : Decimal) (u : TimeUnit) (tail : Text)
    → IsDecimal n
    → Stops is_space (duration_text n u tail)
unfolding duration_text
duration-Stops n u tail d = digit-not_space n.first d.first_digit

pub run-figures_re :
    (sp : Text) (n : Decimal) (u : TimeUnit) (sent recv tail : Text) (c : Captures)
    → All (λ x. is_space x ≡ true) sp
    → IsDecimal n
    → IsNumber sent
    → IsNumber recv
    → run figures_re accept (sp ++ figures_text n u sent recv tail) c
      ≡ some (figures_captures n u sent recv c)
unfolding codes is_space
run-figures_re sp n u sent recv tail c hsp d hs hr =
    let after : Re = seq comma_re (seq (bytes_re 4 (codes "Sent:")) (seq comma_re received_re)) in
    let timed : Re = seq dur_re (seq unit_re after) in
    let rest : Text =
      32 ∷ bytes_text (codes "Sent:") sent (44 ∷ (32 ∷ bytes_text (codes "Received:") recv tail)) in
    let figures = duration_text n u rest in
    let r : Captures = figures_captures n u sent recv c in
    let read : run timed accept figures c ≡ some r =
      seq-duration after accept n u rest c r d
        (run-after_duration sent recv tail ((3, unit_text u) ∷ (2, decimal_text n) ∷ c) hs hr) in
    seq-many (seq (lit (codes "Duration:")) (seq spaces timed)) accept is_space sp
      (figures_text n u sent recv tail) c r hsp refl
      (seq-lit (seq spaces timed) accept (codes "Duration:") (32 ∷ figures) c r (
        seq-many timed accept is_space (32 ∷ []) figures c r (space-is_space, tt)
          (duration-Stops n u rest d) read))
