-- ===== src/Workloads/Tagged.antt =====
-- Test 1 gives one result for each client, tagged with its number.
use Prim.Native.Nat.{min}
use mathlib.Core.Path.{subst}
use zk_arche_compare.Base.{
  ℕ, suc, ◌<◌, ◌≡◌, Text, refl, ap, true, Option, none, some, List, [], ◌∷◌, map, ok, Error, length,
  get_elem?, contains_nat, range_from, replicate, arith,
}
use zk_arche_compare.Floats.{Floats}
use zk_arche_compare.World.{World, Os}
use zk_arche_compare.Runner.Client.{ClientResult}
use zk_arche_compare.Runner.Batch.{Schedule}
use zk_arche_compare.Runner.Batch.Order.{run_clients_concurrent_in_order}
use zk_arche_compare.Driver.{TestContext}
use zk_arche_compare.Workloads.{tag, client_factory, test1_workload}

module _ {F : Type 0} where
  -- `n` results, numbered from `i`, all of iteration 0.
  abbrev pub AreTagged : ℕ → ℕ → List (ClientResult F) → Type 0
  AreTagged i n out =
      (map (λ r. r.client_id) out ≡ range_from i n) × (map (λ r. r.iteration) out ≡ replicate n 0)

  tag-total :
      (i : ℕ) (results : List (Option (ClientResult F)))
      → ((j : ℕ)
          → j < length results
          → (r : ClientResult F) × (get_elem? results j ≡ some (some r)))
      → (out : List (ClientResult F)) × (tag i results ≡ ok out) × AreTagged i (length results) out
  unfolding tag
  tag-total i [] h = ([], refl, (refl, refl))
  tag-total i (none ∷ results) h = let (r, e) = h 0 (omega arith) in cc e
  tag-total i (some r ∷ results) h =
      let (out, e, (ids, iters)) =
        tag-total (suc i) results (λ j hj. h (suc j) (omega (arith, hj))) in
      rw (e, tag) (_, refl, (ap (λ l. i ∷ l) ids, ap (λ l. 0 ∷ l) iters))

module _ (fl : Floats) (os : Os) (show_error : Error → Text) where
  -- If every client's future completes, test 1 of at least one client returns one result for each
  -- client, with the client numbers 0, 1, ... in order and iteration 0, also when runs failed.
  pub test1_workload-AreTagged :
      (n : ℕ) (schedule : World → Schedule) (ctx : TestContext) (w : World)
      → 0 < n
      → ((j : ℕ) → j < n → contains_nat (schedule w).order j ≡ true)
      → (out : List (ClientResult fl.F)) × (test1_workload fl os show_error n schedule ctx w
          ≡ (ok out, (schedule w).after))
        × AreTagged 0 n out
  unfolding test1_workload
  test1_workload-AreTagged n schedule ctx w h all =
      let (results, run, size, each) =
        run_clients_concurrent_in_order fl show_error os (client_factory fl os show_error ctx) n 60
          (some (min n 64)) (schedule w) w h all in
      let (out, e, tagged) = tag-total 0 results (λ j hj. (_, each j (omega (arith, size)))) in
      rw (run, test1_workload)
        (out, ap (λ r. (r, (schedule w).after)) e, subst (λ k. AreTagged 0 k out) size tagged)
