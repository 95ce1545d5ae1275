-- ===== src/Mininet/Topology/Keeps.antt =====
-- Assigning the clients and building the network leaves the network down.
use zk_arche_compare.Base.{Text, List, ℕ, zero, suc, true, false, Bool, []}
use zk_arche_compare.World.{FilePath}
use zk_arche_compare.Mininet.Lab.{Kit, M}
use zk_arche_compare.Mininet.Lab.Keeps.{
  Keeps, Keeps-pure, Keeps-if, keeps, draw_uniform-Keeps, draw_index-Keeps,
}
use zk_arche_compare.Mininet.Profiles.{rand_range, weighted_random_device}
use zk_arche_compare.Mininet.Clients.{assign, assign_loop, make_assignments, Assignment}
use zk_arche_compare.Mininet.Topology.{
  draw_rounded, draw_choice, add_edge, edge_loop, add_background, add_background_at, unless, Joined,
  background_loop, build_multi_tier, build_network, NetworkArgs,
}

module _ (kit : Kit) where
  rand_range-Keeps : (r : kit.fl.F × kit.fl.F) → Keeps (rand_range kit r)
  unfolding rand_range
  rand_range-Keeps (lo, hi) = search (keeps, draw_uniform-Keeps)

  weighted_random_device-Keeps : (mix : Text) → Keeps (weighted_random_device kit mix)
  unfolding weighted_random_device
  weighted_random_device-Keeps mix = search (keeps, draw_index-Keeps)

  assign-Keeps : (dir : FilePath) (mix : Text) (g i : ℕ) → Keeps (assign kit dir mix g i)
  unfolding assign
  assign-Keeps dir mix g i = search (keeps, weighted_random_device-Keeps, rand_range-Keeps) depth 12

  assign_loop-Keeps :
      (dir : FilePath) (mix : Text) (g n i : ℕ) → Keeps (assign_loop kit dir mix g n i)
  unfolding assign_loop
  assign_loop-Keeps dir mix g zero i = search keeps
  assign_loop-Keeps dir mix g (suc n) i =
      search (keeps, assign-Keeps, assign_loop-Keeps dir mix g n (suc i)) depth 12

  draw_rounded-Keeps : (x y : kit.fl.F) → Keeps (draw_rounded kit x y)
  unfolding draw_rounded
  draw_rounded-Keeps x y = search (keeps, draw_uniform-Keeps)

  pub draw_choice-Keeps : {A : Type 0} (xs : List A) → Keeps (draw_choice kit xs)
  unfolding draw_choice
  draw_choice-Keeps xs = search (keeps, draw_index-Keeps)

  add_edge-Keeps : (gi : ℕ) → Keeps (add_edge kit gi)
  unfolding add_edge
  add_edge-Keeps gi = search (keeps, draw_rounded-Keeps, draw_choice-Keeps) depth 12

  edge_loop-Keeps : (n gi : ℕ) → Keeps (edge_loop kit n gi)
  unfolding edge_loop
  edge_loop-Keeps zero gi = search keeps
  edge_loop-Keeps (suc n) gi = search (keeps, add_edge-Keeps, edge_loop-Keeps n (suc gi)) depth 12

  add_background_at-Keeps : (edges : List Text) (i k : ℕ) → Keeps (add_background_at kit edges i k)
  unfolding add_background_at
  add_background_at-Keeps edges i zero = search keeps
  add_background_at-Keeps edges i (suc k) =
      search (keeps, draw_rounded-Keeps, draw_choice-Keeps) depth 14

  unless-Keeps : (b : Bool) (m : M (List (Joined kit.fl.F))) → Keeps m → Keeps (unless kit b m)
  unfolding unless
  unless-Keeps true m k = Keeps-pure []
  unless-Keeps false m k = k

  background_loop-Keeps : (edges : List Text) (n i : ℕ) → Keeps (background_loop kit edges n i)
  unfolding background_loop add_background
  background_loop-Keeps edges zero i = search keeps
  background_loop-Keeps edges (suc n) i =
      search (keeps, unless-Keeps, add_background_at-Keeps, background_loop-Keeps edges n (suc i))
        depth 8

  build_multi_tier-Keeps :
      (rows : List (Assignment kit.fl.F)) (args : NetworkArgs)
      → Keeps (build_multi_tier kit rows args)
  unfolding build_multi_tier
  build_multi_tier-Keeps rows args = search (keeps, edge_loop-Keeps, background_loop-Keeps) depth 14

  pub build_network-Keeps :
      (rows : List (Assignment kit.fl.F)) (args : NetworkArgs) → Keeps (build_network kit rows args)
  unfolding build_network
  build_network-Keeps rows args = search (keeps, build_multi_tier-Keeps, Keeps-if) depth 14

  pub make_assignments-Keeps :
      (n : ℕ) (dir : FilePath) (mix : Text) (gateways : ℕ)
      → Keeps (make_assignments kit n dir mix gateways)
  unfolding make_assignments
  make_assignments-Keeps n dir mix gateways = search (keeps, assign_loop-Keeps)
