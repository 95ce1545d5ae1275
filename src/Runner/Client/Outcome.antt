-- ===== src/Runner/Client/Outcome.antt =====
-- What the result of a client run says about the run.
use zk_arche_compare.Base.{
  ℕ, ◌≡◌, refl, ◌↔◌, true, Option, none, some, Text, arith, ◌==◌, Bool-cases, inl, inr,
}
use mathlib.Core.Option
use zk_arche_compare.Floats.{Floats}
use zk_arche_compare.Parse.{MetricsLine, first_client_metrics}
use zk_arche_compare.World.{Completion, timed_out, completed}
use zk_arche_compare.Runner.Client.{client_result, judge}

module _ (fl : Floats) where
  open fl use {F}

  -- The process ended in time with status 0 and printed a client metric line.
  abbrev pub IsAuthenticated : Completion → Option (MetricsLine F) → Type 0
  IsAuthenticated timed_out m = ⊥
  IsAuthenticated (completed status stdout stderr) none = ⊥
  IsAuthenticated (completed status stdout stderr) (some m) = status ≡ 0

  -- The first client metric line of a run that ended in time.
  abbrev pub stdout_metrics : Completion → Option (MetricsLine F)
  stdout_metrics timed_out = none
  stdout_metrics (completed status stdout stderr) = first_client_metrics fl stdout

  judge-success_iff :
      (iteration client_id status : ℕ) (stdout stderr : Text) (elapsed : ℕ)
      (m : Option (MetricsLine F))
      → ((judge fl iteration client_id status stdout stderr elapsed m).success ≡ true)
        ↔ IsAuthenticated (completed status stdout stderr) m
  unfolding judge
  judge-success_iff iteration client_id status stdout stderr elapsed none = (λ h. cc, λ h. absurd h)
  judge-success_iff iteration client_id status stdout stderr elapsed (some m) = ground arith

  judge-figures :
      (iteration client_id status : ℕ) (stdout stderr : Text) (elapsed : ℕ)
      (m : Option (MetricsLine F))
      → let r = judge fl iteration client_id status stdout stderr elapsed m in
        (r.duration_ms ≡ Option.map (λ l. l.duration_ms) m)
        × (r.sent_bytes ≡ Option.map (λ l. l.sent_bytes) m)
        × (r.recv_bytes ≡ Option.map (λ l. l.recv_bytes) m)
        × (r.iteration ≡ iteration)
        × (r.client_id ≡ client_id)
  unfolding judge
  judge-figures iteration client_id status stdout stderr elapsed none =
      (refl, refl, refl, refl, refl)
  judge-figures iteration client_id status stdout stderr elapsed (some m) =
      elim (Bool-cases (status == 0)) [
        | inl zero_status ↦ rw zero_status (refl, refl, refl, refl, refl)
        | inr other ↦ rw other (refl, refl, refl, refl, refl)
      ]

  -- A run counts as a success exactly when the process ended in time with status 0 and printed a
  -- client metric line. The figures of the result are those of the first such line, also when the
  -- status was not 0, and they are absent when there is no such line or the run timed out. The
  -- iteration and client numbers are the caller's.
  pub client_result_lem :
      (iteration client_id : ℕ) (limit : Text) (elapsed : ℕ) (cp : Completion)
      → let r = client_result fl iteration client_id limit elapsed cp in
        (((r.success ≡ true) → IsAuthenticated cp (stdout_metrics cp))
          × (IsAuthenticated cp (stdout_metrics cp) → r.success ≡ true))
        × (r.duration_ms ≡ Option.map (λ l. l.duration_ms) (stdout_metrics cp))
        × (r.sent_bytes ≡ Option.map (λ l. l.sent_bytes) (stdout_metrics cp))
        × (r.recv_bytes ≡ Option.map (λ l. l.recv_bytes) (stdout_metrics cp))
        × (r.iteration ≡ iteration)
        × (r.client_id ≡ client_id)
  unfolding client_result
  client_result_lem iteration client_id limit elapsed timed_out =
      ((λ h. cc, λ h. absurd h), refl, refl, refl, refl, refl)
  client_result_lem iteration client_id limit elapsed (completed status stdout stderr) =
      let m = first_client_metrics fl stdout in
      let figures = judge-figures iteration client_id status stdout stderr elapsed m in
      (
        judge-success_iff iteration client_id status stdout stderr elapsed m,
        figures.0,
        figures.1,
        figures.2,
        figures.3,
        figures.4,
      )
