-- ===== src/Mininet/Clients/Assigned.antt =====
-- The clients are numbered, and each has a gateway that there is.
use zk_arche_compare.Base.{
  ℕ, zero, suc, ◌+◌, ◌-◌, ◌%◌, ◌≤◌, ◌<◌, ◌≡◌, refl, ◌∙◌, sym, false, List, [], ◌∷◌, Text, map,
  length, Bool-cases, inl, inr, arith, text_eq, codes,
}
use mathlib.Core.Path.{subst}
use zk_arche_compare.World.{FilePath, Files}
use zk_arche_compare.World.Files.{mkdirs}
use zk_arche_compare.Mininet.Lab.{Kit, Lab, files, draw_index, draw_uniform}
use zk_arche_compare.Mininet.Lab.Returns.{
  Returns, Returns-continue, Yields, Yields-continue, Yields-then, IsRandom, get_elem?-some,
}
use zk_arche_compare.Mininet.Profiles.{
  DeviceProfile, weighted_random_device, rand_range, selected_device_profiles, device_profiles,
  heterogeneous_iot_profiles,
}
use zk_arche_compare.Mininet.Clients.{
  Assignment, assign, assign_loop, make_assignments, new_assignment, pi_name, address, gateway_for,
}
use zk_arche_compare.Mininet.Clients.Clear.{
  is_file, SameFiles, Open, mkdirs-Open, with_dirs-SameFiles, blocked-SameFiles, blocked-cons,
}

-- The largest gateway: `max(1, gateway_count)`
abbrev pub last_gateway : ℕ → ℕ
last_gateway zero = 1
last_gateway (suc n) = suc n

pub gateway_for_in_range : (i g : ℕ) → (1 ≤ gateway_for i g) × (gateway_for i g ≤ last_gateway g)
unfolding gateway_for
gateway_for_in_range i zero = (omega arith, omega arith)
gateway_for_in_range i (suc n) = (omega arith, omega (arith, mod-lt (i - 1) n))
  where
    mod-lt : (a n : ℕ) → a % suc n < suc n
    mod-lt a n = omega arith

module _ (kit : Kit) where
  open kit use {fl}
  open fl use {F}

  -- The client with the number i, behind a gateway from 1 to the last.
  pub record IsAssigned (gateways i : ℕ) (a : Assignment F) : Type 0 where
    pub numbered : a.client_index ≡ i
    pub named : a.client_host ≡ pi_name i
    pub addressed : a.client_ip ≡ address (i + 1)
    pub behind : (1 ≤ a.gateway_index) × (a.gateway_index ≤ last_gateway gateways)

  -- So many clients, numbered from i on.
  abbrev pub AreAssigned : ℕ → ℕ → ℕ → List (Assignment F) → Type 0
  AreAssigned gateways i zero [] = Unit
  AreAssigned gateways i zero (a ∷ rows) = ⊥
  AreAssigned gateways i (suc n) [] = ⊥
  AreAssigned gateways i (suc n) (a ∷ rows) =
      IsAssigned gateways i a × AreAssigned gateways (suc i) n rows

  -- No file is in the way of the directories of the clients.
  pub record IsClear (dir : FilePath) (fs : Files) : Type 0 where
    pub above : Open dir fs
    pub children : (i : ℕ) → is_file fs (pi_name i ∷ dir) ≡ false

  Clear-SameFiles :
      (dir : FilePath) (fs gs : Files) → SameFiles fs gs → IsClear dir fs → IsClear dir gs
  Clear-SameFiles dir fs gs same c = record {
    above = (same dir ∙ c.above.0, blocked-SameFiles fs gs same dir ∙ c.above.1);
    children = λ i. same (pi_name i ∷ dir) ∙ c.children i;
  }

  Open-child : (dir : FilePath) (fs : Files) (i : ℕ) → IsClear dir fs → Open (pi_name i ∷ dir) fs
  Open-child dir fs i c =
      (c.children i, rw (blocked-cons fs (pi_name i) dir, c.above.0, c.above.1) refl)

  some_device :
      (mix : Text) (lab : Lab)
      → IsRandom kit
      → kit.weighted lab (map (λ row. row.1.weight) (selected_device_profiles kit mix))
        < length (selected_device_profiles kit mix)
  unfolding selected_device_profiles device_profiles heterogeneous_iot_profiles
  some_device mix lab random = elim (Bool-cases (text_eq mix (codes "heterogeneous-iot"))) [
    | inl e ↦ rw e (random.weighted_in_range lab _ _)
    | inr e ↦ rw e (random.weighted_in_range lab _ _)
  ]

  weighted-Yields :
      IsRandom kit
      → (mix : Text) (lab : Lab)
      → Yields
          (λ d lab'. lab'.world.files ≡ lab.world.files)
          (weighted_random_device kit mix lab).0
          (weighted_random_device kit mix lab).1
  unfolding weighted_random_device draw_index
  weighted-Yields random mix lab =
      let (d, e) = get_elem?-some _ _ (some_device mix lab random) in rw e refl

  rand_range-Yields :
      (r : F × F) (lab : Lab)
      → Yields
          (λ x lab'. lab'.world.files ≡ lab.world.files)
          (rand_range kit r lab).0
          (rand_range kit r lab).1
  unfolding rand_range draw_uniform
  rand_range-Yields (lo, hi) lab = refl

  child-Yields :
      (dir : FilePath) (i : ℕ) (lab : Lab)
      → IsClear dir lab.world.files
      → Yields
          (λ u lab'. IsClear dir lab'.world.files)
          (files (mkdirs (pi_name i ∷ dir)) lab).0
          (files (mkdirs (pi_name i ∷ dir)) lab).1
  child-Yields dir i lab c =
      rw (mkdirs-Open (pi_name i ∷ dir) lab.world (Open-child dir lab.world.files i c)) (
        Clear-SameFiles dir lab.world.files _
          (with_dirs-SameFiles (pi_name i ∷ dir) lab.world.files) c)

  new_assignment-IsAssigned :
      (dir : FilePath) (gateways i : ℕ) (device : Text × DeviceProfile F) (x y z : F)
      → IsAssigned gateways i (new_assignment kit dir gateways i device x y z)
  unfolding new_assignment
  new_assignment-IsAssigned dir gateways i (t, p) x y z = record {
    numbered = refl;
    named = refl;
    addressed = refl;
    behind = gateway_for_in_range i gateways;
  }

  moved : (dir : FilePath) (fs gs : Files) → gs ≡ fs → IsClear dir fs → IsClear dir gs
  moved dir fs gs e c = subst (λ x. IsClear dir x) (sym e) c

  assign-Yields :
      IsRandom kit
      → (dir : FilePath) (mix : Text) (gateways i : ℕ) (lab : Lab) → IsClear dir lab.world.files
      → Yields
          (λ a lab'. IsAssigned gateways i a × IsClear dir lab'.world.files)
          (assign kit dir mix gateways i lab).0
          (assign kit dir mix gateways i lab).1
  unfolding assign
  assign-Yields random dir mix gateways i lab c =
      Yields-continue _ _ (weighted_random_device kit mix lab).0 _ _
        (weighted-Yields random mix lab)
        λ d e.
          Yields-continue _ _
            (files (mkdirs (pi_name i ∷ dir)) (weighted_random_device kit mix lab).1).0 _ _
            (child-Yields dir i _ (moved dir _ _ e c))
            λ u c'.
              Yields-continue _ _ (rand_range kit d.1.delay_ms_range _).0 _ _
                (rand_range-Yields d.1.delay_ms_range _)
                λ x e1.
                  Yields-continue _ _ (rand_range kit d.1.jitter_ms_range _).0 _ _
                    (rand_range-Yields d.1.jitter_ms_range _)
                    λ y e2.
                      Yields-continue _ _ (rand_range kit d.1.loss_percent_range _).0 _ _
                        (rand_range-Yields d.1.loss_percent_range _)
                        λ z e3. (
                          new_assignment-IsAssigned dir gateways i d x y z,
                          moved dir _ _ (e3 ∙ e2 ∙ e1) c',
                        )

  assign_loop-Yields :
      IsRandom kit
      → (dir : FilePath) (mix : Text) (gateways n i : ℕ) (lab : Lab) → IsClear dir lab.world.files
      → Returns (AreAssigned gateways i n) (assign_loop kit dir mix gateways n i lab).0
  unfolding assign_loop
  assign_loop-Yields random dir mix gateways zero i lab c = tt
  assign_loop-Yields random dir mix gateways (suc n) i lab c =
      Yields-then _ _ (assign kit dir mix gateways i lab).0 _ _
        (assign-Yields random dir mix gateways i lab c)
        λ a h.
          Returns-continue _ _
            (assign_loop kit dir mix gateways n (suc i) (assign kit dir mix gateways i lab).1).0 _ _
            (assign_loop-Yields random dir mix gateways n (suc i) _ h.1) λ rows hs. (h.0, hs)

  -- The clients are assigned: as many as were asked for, numbered from 1, with the host name and the
  -- address that belong to the number, each behind a gateway from 1 to the number of gateways, or 1 if
  -- that is 0. This holds where `random` picks an option that there is and no file is in the way of the
  -- directories.
  pub make_assignments-AreAssigned :
      IsRandom kit
      → (n : ℕ) (dir : FilePath) (mix : Text) (gateways : ℕ) (lab : Lab)
      → IsClear dir lab.world.files
      → Returns (AreAssigned gateways 1 n) (make_assignments kit n dir mix gateways lab).0
  unfolding make_assignments
  make_assignments-AreAssigned random n dir mix gateways lab c =
      rw (mkdirs-Open dir lab.world c.above) (
        assign_loop-Yields random dir mix gateways n 1 _
          (Clear-SameFiles dir lab.world.files _ (with_dirs-SameFiles dir lab.world.files) c))
