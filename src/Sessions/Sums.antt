-- ===== src/Sessions/Sums.antt =====
-- The bytes of a full session.
use zk_arche_compare.Base.{
  if◌then◌else◌, ℕ, ◌+◌, ◌≡◌, ap, Option, none, some, Text, codes, text_eq, Bool-cases, inl, inr,
  arith,
}
use zk_arche_compare.Floats.{Floats}
use zk_arche_compare.Sessions.{Figures, Setup, full_bytes, total_of, add_full_session_metrics}

abbrev pub or_zero : Option ℕ → ℕ
or_zero none = 0
or_zero (some n) = n

totals :
    (a b : Option ℕ) (sent received : ℕ)
    → total_of (full_bytes a (some sent)) (full_bytes b (some received))
      ≡ some (sent + received + (or_zero a + or_zero b))
unfolding total_of full_bytes
totals none none sent received = ap some (omega arith)
totals none (some b) sent received = ap some (omega arith)
totals (some a) none sent received = ap some (omega arith)
totals (some a) (some b) sent received = ap some (omega arith)

module _ (fl : Floats) (round4 : fl.F → fl.F) where
  -- Where an authentication was measured in both directions, the total of the row counts each byte
  -- once: those of the authentication, and for ZK-ARCHE those of the setup, as far as measured.
  pub add_full_session_metrics-total :
      (protocol : Text) (s : Setup fl.F) (m : Figures fl.F) (sent received : ℕ)
      → m.sent_bytes ≡ some sent
      → m.received_bytes ≡ some received
      → let extra = or_zero s.figures.sent_bytes + or_zero s.figures.received_bytes in
        (add_full_session_metrics fl round4 protocol s m).full_session_total_bytes
        ≡ some (sent + received + (if text_eq protocol (codes "zkarche") then extra else 0))
  unfolding add_full_session_metrics full_bytes total_of
  add_full_session_metrics-total protocol s m sent received es er =
      elim (Bool-cases (text_eq protocol (codes "zkarche"))) [
        | inl e ↦
            rw (e, es, er) (totals s.figures.sent_bytes s.figures.received_bytes sent received)
        | inr e ↦ rw (e, es, er) (ap some (omega arith))
      ]
