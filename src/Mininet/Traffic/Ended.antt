-- ===== src/Mininet/Traffic/Ended.antt =====
-- Each process of the background traffic is asked to end.
use zk_arche_compare.Base.{
  ℕ, ◌≡◌, Bool, true, false, ◌||◌, List, [], ◌∷◌, Result, ok, raised, All, ◌==◌, if◌then◌else◌,
  arith,
}
use zk_arche_compare.Mininet.Lab.{
  Act, terminated, polled, killed, Kit, Lab, continue, pure, perform, attempt, sleep, failed,
}
use zk_arche_compare.Mininet.Traffic.{
  terminate_one, kill_one, still_runs, for_all, stop_background_traffic,
}

-- `terminate` was called on the process.
unfoldable pub was_terminated : ℕ → List Act → Bool
was_terminated p [] = false
was_terminated p (a ∷ acts) = elim a [ terminated q ↦ p == q | _ ↦ false ] || was_terminated p acts

module _ (kit : Kit) where
  -- What was terminated stays so.
  abbrev pub Grows : (Lab → Lab) → Type 0
  Grows f =
      (p : ℕ) (lab : Lab) → was_terminated p lab.acts ≡ true → was_terminated p (f lab).acts ≡ true

  kill_rest :
      (r : Result (Unit {0})) (b : Bool) (p q : ℕ) (lab : Lab)
      → was_terminated p lab.acts ≡ true
      → was_terminated p
          (continue
            (continue r (λ _. pure b) lab).0
            (λ alive. if alive then attempt kit (killed q) else pure tt)
            (continue r (λ _. pure b) lab).1).1.acts
        ≡ true
  unfolding was_terminated attempt perform
  kill_rest (ok _) true p q lab h = h
  kill_rest (ok _) false p q lab h = h
  kill_rest (raised e) b p q lab h = h

  kill_one-Grows : (q : ℕ) → Grows (kill_one kit q)
  unfolding kill_one still_runs attempt perform was_terminated
  kill_one-Grows q p lab h =
      kill_rest (failed kit (kit.fails lab (polled q))) (kit.runs_on lab q) p q _ h

  terminate_one-Grows : (q : ℕ) → Grows (terminate_one kit q)
  unfolding terminate_one attempt perform was_terminated
  terminate_one-Grows q p lab h = rw h (ground arith)

  terminate_one-was_terminated :
      (p : ℕ) (lab : Lab) → was_terminated p (terminate_one kit p lab).acts ≡ true
  unfolding terminate_one attempt perform was_terminated
  terminate_one-was_terminated p lab = ground arith

  for_all-Grows :
      (f : ℕ → Lab → Lab) → ((q : ℕ) → Grows (f q)) → (procs : List ℕ) → Grows (for_all kit f procs)
  unfolding for_all
  for_all-Grows f g [] p lab h = h
  for_all-Grows f g (q ∷ procs) p lab h = for_all-Grows f g procs p (f q lab) (g q p lab h)

  pub terminated_after :
      (procs : List ℕ) (f : Lab → Lab)
      → Grows f
      → (lab : Lab) → All (λ p. was_terminated p lab.acts ≡ true) procs
      → All (λ p. was_terminated p (f lab).acts ≡ true) procs
  terminated_after [] f g lab h = tt
  terminated_after (p ∷ procs) f g lab (h, hs) = (g p lab h, terminated_after procs f g lab hs)

  terminated_each :
      (procs : List ℕ) (lab : Lab)
      → All (λ p. was_terminated p (for_all kit (terminate_one kit) procs lab).acts ≡ true) procs
  unfolding for_all
  terminated_each [] lab = tt
  terminated_each (p ∷ procs) lab = (
    for_all-Grows (terminate_one kit) terminate_one-Grows procs p (terminate_one kit p lab)
        (terminate_one-was_terminated p lab),
    terminated_each procs (terminate_one kit p lab),
  )

  sleep-Grows : (ns : ℕ) → Grows (sleep kit ns)
  unfolding sleep perform was_terminated
  sleep-Grows ns p lab h = h

  pub stop_background_traffic-terminates :
      (procs : List ℕ) (lab : Lab)
      → All (λ p. was_terminated p (stop_background_traffic kit procs lab).acts ≡ true) procs
  unfolding stop_background_traffic
  stop_background_traffic-terminates procs lab =
      terminated_after procs (for_all kit (kill_one kit) procs)
        (for_all-Grows (kill_one kit) kill_one-Grows procs) _
        (terminated_after procs (sleep kit 200_000_000) (sleep-Grows 200_000_000) _
          (terminated_each procs lab))
