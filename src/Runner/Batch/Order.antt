-- ===== src/Runner/Batch/Order.antt =====
-- The results of a parallel batch do not depend on the order of completion.
use zk_arche_compare.Base.{
  ℕ, zero, suc, ◌<◌, ◌≡◌, refl, ◌∙◌, true, false, Option, none, some, List, [], ◌∷◌, Text, Result,
  ok, Error, length, get_elem?, set, replicate, length-set, length-replicate, get_elem?-set,
  contains_nat, arith, ◌==◌, if◌then◌else◌,
}
use zk_arche_compare.Floats.{Floats}
use zk_arche_compare.World.{Os, World}
use zk_arche_compare.Runner.Client.{ClientResult}
use zk_arche_compare.Runner.Batch.{
  Schedule, Factory, settle, gather, task_outcome, run_clients_concurrent, pool_size,
}

pool_size-pos : (m : Option ℕ) (n : ℕ) → 0 < n → (pool_size m n == 0) ≡ false
unfolding pool_size
pool_size-pos none n h = grind arith
pool_size-pos (some zero) n h = grind arith
pool_size-pos (some (suc k)) n h = ground arith

module _ (fl : Floats) (show_error : Error → Text) where
  open fl use {F}

  length-gather :
      (outcome : ℕ → Result (ClientResult F)) (order : List ℕ)
      (results : List (Option (ClientResult F)))
      → length (gather fl show_error outcome order results) ≡ length results
  unfolding gather
  length-gather outcome [] results = refl
  length-gather outcome (i ∷ order) results =
      length-gather outcome order _
      ∙ length-set results i (some (settle fl show_error i (outcome i)))

  get_elem?-gather :
      (outcome : ℕ → Result (ClientResult F)) (order : List ℕ)
      (results : List (Option (ClientResult F))) (j : ℕ)
      → j < length results
      → get_elem? (gather fl show_error outcome order results) j ≡ (
          if contains_nat order j
          then some (some (settle fl show_error j (outcome j)))
          else get_elem? results j)
  unfolding gather
  get_elem?-gather outcome [] results j h = refl
  get_elem?-gather outcome (i ∷ order) results j h =
      let v = some (settle fl show_error i (outcome i)) in
      let room : j < length (set results i v) = omega (arith, length-set results i v) in
      ground (
        arith,
        get_elem?-gather outcome order (set results i v) j room,
        get_elem?-set results i j v h,
      )

  module _ (os : Os) where
    -- If every client's future completes, a batch of at least one client gives one result for each
    -- client, in the order of the clients whatever the order of completion: what the run returned,
    -- or the record of its exception.
    pub run_clients_concurrent_in_order :
        (factory : Factory) (n timeout_s : ℕ) (max_workers : Option ℕ) (s : Schedule) (w : World)
        → 0 < n
        → ((j : ℕ) → j < n → contains_nat s.order j ≡ true)
        → (results : List (Option (ClientResult F))) × (run_clients_concurrent fl show_error os
              factory n timeout_s max_workers s w
            ≡ (ok results, s.after))
          × (length results ≡ n)
          × ((j : ℕ)
              → j < n
              → get_elem? results j
                ≡ some (
                    some (
                      settle fl show_error j
                        (task_outcome fl show_error os factory timeout_s s j))))
    unfolding run_clients_concurrent
    run_clients_concurrent_in_order factory n timeout_s max_workers s w h all =
        let out = task_outcome fl show_error os factory timeout_s s in
        let empty : List (Option (ClientResult F)) = replicate n none in
        let size : length empty ≡ n = length-replicate n none in
        (
          gather fl show_error out s.order empty,
          rw (pool_size-pos max_workers n h, run_clients_concurrent),
          length-gather out s.order empty ∙ size,
          λ j hj. get_elem?-gather out s.order empty j (omega (arith, size)) ∙ rw (all j hj),
        )
