-- ===== src/Mininet/Metrics/Lines.antt =====
-- A metric line of a client is read back, with a `Protocol` part and without.
use zk_arche_compare.Base.{
  ℕ, ◌≡◌, ap, ◌∙◌, refl, false, Option, none, some, [], ◌∷◌, ◌++◌, Text, codes, is_space, Result,
  ok, raised,
}
use zk_arche_compare.Regex.{
  Re, lit, seq, opt, many1, Captures, Next, run, accept, match_at, search_in, strip_lit, capture,
}
use zk_arche_compare.Regex.Laws.{
  Stops, seq-lit, seq-many, seq-many1, seq-opt, seq-opt_skip, match_at-search_in,
}
use zk_arche_compare.Strings.{show_nat, digits_value}
use zk_arche_compare.Strings.Numbers.{IsNumber, show_nat-IsNumber, digits_value-show_nat}
use zk_arche_compare.Parse.{spaces, no_comma}
use zk_arche_compare.Sessions.{Figures}
use zk_arche_compare.Mininet.Lab.{Kit}
use zk_arche_compare.Mininet.Metrics.Pieces.{IsField, run-comma, figures_text, run-figures_from}
use zk_arche_compare.Mininet.Metrics.{
  comma, figures_from, protocol_part, client_re, ClientMetrics, figures_of, parse_duration_to_ms,
  rounded, with_keys, read_client_line,
}

-- `Protocol: mTLS/TCP, `, where the client names its protocol
abbrev pub protocol_text : Option Text → Text → Text
protocol_text none tail = tail
protocol_text (some p) tail = codes "Protocol:" ++ (32 ∷ (p ++ (44 ∷ 32 ∷ tail)))

abbrev pub IsProtocol : Option Text → Type 0
IsProtocol none = Unit
IsProtocol (some p) = IsField p

run-protocol :
    (e : Re) (k : Next) (p : Text) (x : ℕ) (s : Text) (c r : Captures)
    → IsField p
    → is_space x ≡ false
    → run e k (x ∷ s) c ≡ some r
    → run (seq (protocol_part (lit [])) e) k (protocol_text (some p) (x ∷ s)) c ≡ some r
unfolding run codes is_space strip_lit
run-protocol e k [] x s c r f hx h = absurd f
run-protocol e k (d ∷ ds) x s c r (space, (hd, hds)) hx h =
    let k' : Next = λ s' c'. run e k s' c' in
    seq-many (seq (many1 no_comma) (comma (lit []))) k' is_space (32 ∷ [])
      ((d ∷ ds) ++ (44 ∷ 32 ∷ x ∷ s)) c r (refl, tt) space
      (seq-many1 (comma (lit [])) k' no_comma d ds (44 ∷ 32 ∷ x ∷ s) c r hd hds refl
        (run-comma (lit []) k' x s c r hx h))

no_protocol :
    (duration sent recv tail : Text)
    → run
        (seq (protocol_part (lit [])) (figures_from 1))
        accept
        (figures_text duration sent recv tail)
        []
      ≡ none
unfolding run codes strip_lit
no_protocol duration sent recv tail = refl

-- What follows the arrow: the part that names the protocol, or at once the figures.
run-body :
    (protocol : Option Text) (duration sent recv tail : Text) (r : Captures)
    → IsProtocol protocol
    → run (figures_from 1) accept (figures_text duration sent recv tail) [] ≡ some r
    → run
        (seq (opt (protocol_part (lit []))) (figures_from 1))
        accept
        (protocol_text protocol (figures_text duration sent recv tail))
        []
      ≡ some r
unfolding codes is_space
run-body none duration sent recv tail r f h =
    seq-opt_skip (figures_from 1) accept (protocol_part (lit []))
      (figures_text duration sent recv tail) [] r (no_protocol duration sent recv tail) h
run-body (some p) duration sent recv tail r f h =
    seq-opt (figures_from 1) accept (protocol_part (lit [])) _ [] r
      (run-protocol (figures_from 1) accept p b'D' _ [] r f refl h)

-- `CLIENT METRICS -> Protocol: mTLS/TCP, Duration: 1.25ms, Sent: 320 bytes, ...`
abbrev pub client_line : Option Text → Text → Text → Text → Text → Text
client_line protocol duration sent recv tail =
    codes "CLIENT METRICS"
    ++ (32 ∷ (codes "->" ++ (32 ∷ protocol_text protocol (figures_text duration sent recv tail))))

line_starts :
    (protocol : Option Text) (tail : Text)
    → Stops is_space (protocol_text protocol (codes "Duration:" ++ tail))
unfolding codes is_space
line_starts none tail = refl
line_starts (some p) tail = refl

search-client_line :
    (protocol : Option Text) (duration sent recv tail : Text)
    → IsProtocol protocol
    → IsField duration
    → IsNumber sent
    → IsNumber recv
    → search_in client_re (client_line protocol duration sent recv tail)
      ≡ some ((3, recv) ∷ (2, sent) ∷ (1, duration) ∷ [])
unfolding match_at codes is_space
search-client_line protocol duration sent recv tail p f v w =
    let body : Re = seq (opt (protocol_part (lit []))) (figures_from 1) in
    let text : Text = protocol_text protocol (figures_text duration sent recv tail) in
    match_at-search_in client_re (client_line protocol duration sent recv tail) _ (
      seq-lit (seq spaces (seq (lit (codes "->")) (seq spaces body))) accept
        (codes "CLIENT METRICS") (32 ∷ (codes "->" ++ (32 ∷ text))) [] _
        (seq-many (seq (lit (codes "->")) (seq spaces body)) accept is_space (32 ∷ [])
          (codes "->" ++ (32 ∷ text)) [] _ (refl, tt) refl
          (seq-lit (seq spaces body) accept (codes "->") (32 ∷ text) [] _ (
            seq-many body accept is_space (32 ∷ []) text [] _ (refl, tt) (line_starts protocol _)
              (run-body protocol duration sent recv tail _ p
                (run-figures_from 1 duration sent recv tail [] f v w))))))

module _ (kit : Kit) where
  open kit use {fl}
  open fl use {F}

  abbrev pub read_duration :
      Text → ℕ → ℕ → ClientMetrics F → Result (Option F) → Result (ClientMetrics F)
  read_duration line sent recv metrics (raised e) = raised e
  read_duration line sent recv metrics (ok parsed) = ok (
      with_keys kit line metrics (record {
        duration_ms = rounded kit parsed;
        sent_bytes = some sent;
        received_bytes = some recv;
      }))

  -- The metrics after a line with such a duration and such bytes.
  abbrev pub read_as : Text → Text → ℕ → ℕ → ClientMetrics F → Result (ClientMetrics F)
  read_as line duration sent recv metrics =
      read_duration line sent recv metrics (parse_duration_to_ms kit duration)

  abbrev with_figures : Text → ClientMetrics F → Result (Figures F) → Result (ClientMetrics F)
  with_figures line metrics (raised e) = raised e
  with_figures line metrics (ok auth) = ok (with_keys kit line metrics auth)

  auth_figures : ℕ → ℕ → Option F → Figures F
  auth_figures sent recv parsed = record {
    duration_ms = rounded kit parsed;
    sent_bytes = some sent;
    received_bytes = some recv;
  }

  read_step :
      (line : Text) (metrics : ClientMetrics F) (sent recv : ℕ) (r : Result (Option F))
      → with_figures line metrics
          (elim r [ raised e ↦ raised e | ok parsed ↦ ok (auth_figures sent recv parsed) ])
        ≡ read_duration line sent recv metrics r
  unfolding auth_figures
  read_step line metrics sent recv (ok parsed) = refl
  read_step line metrics sent recv (raised e) = refl

  figures-read_as :
      (line duration : Text) (sent recv : ℕ) (metrics : ClientMetrics F)
      → with_figures line metrics
          (figures_of kit 1 ((3, show_nat recv) ∷ (2, show_nat sent) ∷ (1, duration) ∷ []))
        ≡ read_as line duration sent recv metrics
  unfolding figures_of capture auth_figures
  figures-read_as line duration sent recv metrics =
      let parsed = parse_duration_to_ms kit duration in
      read_step line metrics (digits_value 0 (show_nat sent)) (digits_value 0 (show_nat recv))
        parsed
      ∙ ap (λ n. read_duration line n (digits_value 0 (show_nat recv)) metrics parsed)
          (digits_value-show_nat sent)
      ∙ ap (λ n. read_duration line sent n metrics parsed) (digits_value-show_nat recv)

  -- A metric line of a client, with a `Protocol` part or without, is read as what it says: the duration
  -- that its text stands for and both byte counts replace what was known, and the named keys of the
  -- line are added. The duration and the protocol are texts that start with no space and have no
  -- comma; what follows the bytes is arbitrary.
  pub read_client_line-client_line :
      (protocol : Option Text) (duration : Text) (sent recv : ℕ) (tail : Text)
      (metrics : ClientMetrics F)
      → IsProtocol protocol
      → IsField duration
      → let line = client_line protocol duration (show_nat sent) (show_nat recv) tail in
        read_client_line kit line metrics ≡ read_as line duration sent recv metrics
  unfolding read_client_line
  read_client_line-client_line protocol duration sent recv tail metrics p f =
      rw
        (
          search-client_line protocol duration (show_nat sent) (show_nat recv) tail p f
              (show_nat-IsNumber sent) (show_nat-IsNumber recv),
          read_client_line,
        )
        (figures-read_as _ duration sent recv metrics)
