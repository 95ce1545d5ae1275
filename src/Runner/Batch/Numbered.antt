-- ===== src/Runner/Batch/Numbered.antt =====
-- A sequential batch numbers its runs.
use native.Mathlib.Numerals.{add-one}
use zk_arche_compare.Base.{
  ℕ, zero, suc, ◌+◌, ◌≡◌, refl, List, [], map, Text, Result, ok, raised, os_error, range_from,
  replicate, Bool-cases, inl, inr, ◌||◌, not, ◌&&◌,
}
use zk_arche_compare.Floats.{Floats}
use zk_arche_compare.World.{FilePath, World, Io, Os, continue, Command, run_process}
use zk_arche_compare.World.Files.{mkdirs, blocked, exists, is_dir}
use zk_arche_compare.Runner.Client.{ClientResult, run_client_once}
use zk_arche_compare.Runner.Client.Outcome.{client_result_lem}
use zk_arche_compare.Runner.Batch.{sequential_loop, run_clients_sequential}

-- What holds of the value of a call, of which the only exception is an `OSError`.
abbrev pub OnReturn {ℓ} : {A : Type ℓ} → (A → Type 0) → Result A → Type 0
OnReturn P (ok a) = P a
OnReturn P (raised e) = e ≡ os_error

module _ {ℓ} {A B : Type ℓ} where
  OnReturn-continue :
      (P : A → Type 0) (Q : B → Type 0) (r : Result A) (f : A → Io B) (w : World)
      → OnReturn P r
      → ((a : A) → P a → OnReturn Q (f a w).0)
      → OnReturn Q (continue r f w).0
  OnReturn-continue P Q (ok a) f w h k = k a h
  OnReturn-continue P Q (raised e) f w h k = h

OnReturn-mkdirs : (p : FilePath) (w : World) → OnReturn (λ _. Unit {0}) (mkdirs p w).0
unfolding mkdirs
OnReturn-mkdirs p w = elim (Bool-cases (blocked w.files p || (exists p w && not (is_dir p w)))) [
  | inl bad ↦ rw bad refl
  | inr good ↦ rw good tt
]

module _ (fl : Floats) (os : Os) where
  open fl use {F}

  abbrev IsNumbered : ℕ → ℕ → ClientResult F → Type 0
  IsNumbered i client_id r = (r.iteration ≡ i) × (r.client_id ≡ client_id)

  OnReturn-run_process :
      (c : Command) (limit : ℕ) (w : World) → OnReturn (λ _. Unit {0}) (run_process os c limit w).0
  unfolding run_process
  OnReturn-run_process c limit w = elim (Bool-cases (os.launches w c)) [
    | inl e ↦ rw e tt
    | inr e ↦ rw e refl
  ]

  OnReturn-run_client_once :
      (binary : FilePath) (args : List Text) (workdir : FilePath) (timeout_s i client_id : ℕ)
      (env : List (Text × Text)) (w : World)
      → OnReturn
          (IsNumbered i client_id)
          (run_client_once fl os binary args workdir timeout_s i client_id env w).0
  unfolding run_client_once
  OnReturn-run_client_once binary args workdir timeout_s i client_id env w =
      OnReturn-continue (λ _. Unit {0}) (IsNumbered i client_id) (mkdirs workdir w).0 _
        (mkdirs workdir w).1 (OnReturn-mkdirs workdir w)
        λ u h.
          OnReturn-continue (λ _. Unit {0}) (IsNumbered i client_id) (run_process os _ _ _).0 _
            (run_process os _ _ _).1 (OnReturn-run_process _ _ _)
            λ cp k. let facts = client_result_lem fl i client_id _ _ _ in (facts.4, facts.5)

  abbrev pub AreNumbered : ℕ → ℕ → ℕ → List (ClientResult F) → Type 0
  AreNumbered client_id runs i out =
      (map (λ r. r.iteration) out ≡ range_from i runs)
      × (map (λ r. r.client_id) out ≡ replicate runs client_id)

  sequential_loop-AreNumbered :
      (binary : FilePath) (args : List Text) (workdir : FilePath) (timeout_s client_id runs i : ℕ)
      (w : World)
      → OnReturn
          (AreNumbered client_id runs i)
          (sequential_loop fl os binary args workdir timeout_s client_id runs i w).0
  unfolding sequential_loop
  sequential_loop-AreNumbered binary args workdir timeout_s client_id zero i w = (refl, refl)
  sequential_loop-AreNumbered binary args workdir timeout_s client_id (suc runs) i w =
      let first = run_client_once fl os binary args workdir timeout_s i client_id [] w in
      OnReturn-continue (IsNumbered i client_id) (AreNumbered client_id (suc runs) i) first.0 _
        first.1 (OnReturn-run_client_once binary args workdir timeout_s i client_id [] w)
        λ r hr.
          let rest =
            sequential_loop fl os binary args workdir timeout_s client_id runs (i + 1) first.1 in
          OnReturn-continue (AreNumbered client_id runs (i + 1))
            (AreNumbered client_id (suc runs) i) rest.0 _ rest.1
            (sequential_loop-AreNumbered binary args workdir timeout_s client_id runs (i + 1)
              first.1)
            λ out h. (cc (hr.0, h.0, add-one i), cc (hr.1, h.1))

  -- A sequential batch returns one result for each run, numbered 0, 1, ... in the order of the runs
  -- and all with the caller's client number; the only exception that can end it early is an `OSError`.
  pub run_clients_sequential-AreNumbered :
      (binary : FilePath) (args : List Text) (workdir : FilePath) (runs timeout_s client_id : ℕ)
      (w : World)
      → OnReturn
          (AreNumbered client_id runs 0)
          (run_clients_sequential fl os binary args workdir runs timeout_s client_id w).0
  unfolding run_clients_sequential
  run_clients_sequential-AreNumbered binary args workdir runs timeout_s client_id w =
      sequential_loop-AreNumbered binary args workdir timeout_s client_id runs 0 w
