-- ===== src/Mininet/Topology/Wired.antt =====
-- The network of several tiers: every client is behind its gateway.
use zk_arche_compare.Base.{
  ℕ, zero, suc, ◌+◌, ◌-◌, ◌%◌, ◌≤◌, ◌<◌, ◌≡◌, refl, ap, ◌∙◌, sym, false, none, some, List, [], ◌∷◌,
  Text, Result, ok, raised, index_error, map, length, length-map, length-range_from, range_from,
  get_elem?, All, Bool-cases, inl, inr, arith, text_eq, codes, leb,
}
use mathlib.Core.Path.{subst}
use zk_arche_compare.Mininet.Lab.{Kit, Lab, draw_index, draw_uniform}
use zk_arche_compare.Mininet.Lab.Returns.{
  Returns, Returns-continue, Pairs, IsRandom, get_elem?-some,
}
use zk_arche_compare.Mininet.Clients.{Assignment, edge_name, address}
use zk_arche_compare.Mininet.Topology.{
  Joined, Net, NetworkArgs, edge_at, edge_round_robin, join_clients, join_client, link, draw_choice,
  draw_rounded, add_edge, edge_loop, add_background, add_background_at, background_host,
  background_loop, unless, names, multi_tier_network, build_multi_tier, build_network, with_mask,
}
use zk_arche_compare.Mininet.Clients.Assigned.{last_gateway, AreAssigned}

range-get :
    (i n k : ℕ) → k < n → get_elem? (map edge_name (range_from i n)) k ≡ some (edge_name (i + k))
range-get i zero k h = ground arith
range-get i (suc n) zero h = ap (λ j. some (edge_name j)) (omega arith)
range-get i (suc n) (suc k) h =
    range-get (suc i) n k (omega (arith, h)) ∙ ap (λ j. some (edge_name j)) (omega arith)

edge_at-range :
    (g gi : ℕ) → 1 ≤ gi → gi ≤ g → edge_at (map edge_name (range_from 1 g)) gi ≡ some (edge_name gi)
unfolding edge_at
edge_at-range g zero h k = ground arith
edge_at-range g (suc gi) h k =
    range-get 1 g gi (omega (arith, k)) ∙ ap (λ j. some (edge_name j)) (omega arith)

gateways_there : (g : ℕ) → 1 ≤ g → last_gateway g ≡ g
gateways_there zero h = ground arith
gateways_there (suc g) h = refl

edge_at-none : (i : ℕ) → edge_at [] i ≡ none
unfolding edge_at
edge_at-none zero = refl
edge_at-none (suc i) = refl

module _ (kit : Kit) where
  open kit use {fl}
  open fl use {F}

  -- The client's host, with a link to the edge switch of its gateway.
  pub record IsJoined (a : Assignment F) (j : Joined F) : Type 0 where
    pub named : j.name ≡ a.client_host
    pub from_host : j.link.node ≡ a.client_host
    pub to_edge : j.link.switch ≡ edge_name a.gateway_index

  -- A host for background traffic, with its address.
  abbrev pub IsBackground : Joined F → Type 0
  IsBackground j = (octet : ℕ) × (151 ≤ octet) × (octet ≤ 253) × (j.ip ≡ with_mask (address octet))

  pub record IsWired (gateways : ℕ) (rows : List (Assignment F)) (net : Net F) : Type 0 where
    pub edges : List (Joined F)
    pub clients : List (Joined F)
    pub background : List (Joined F)
    pub built : net ≡ multi_tier_network kit edges clients background
    pub edge_names : names kit edges ≡ map edge_name (range_from 1 gateways)
    pub joined : Pairs IsJoined rows clients
    pub addressed : All IsBackground background

  join_more :
      (a : Assignment F) (rows : List (Assignment F)) (j : Joined F) (r : Result (List (Joined F)))
      → IsJoined a j
      → Returns (Pairs IsJoined rows) r
      → Returns
          (Pairs IsJoined (a ∷ rows))
          (elim r [ raised e ↦ raised e | ok rest ↦ ok (j ∷ rest) ])
  join_more a rows j (ok rest) h hs = (h, hs)
  join_more a rows j (raised e) h hs = hs

  join_client-IsJoined :
      (a : Assignment F) → IsJoined a (join_client kit (edge_name a.gateway_index) a)
  unfolding join_client link
  join_client-IsJoined a = record { named = refl; from_host = refl; to_edge = refl }

  join_clients-IsJoined :
      (g : ℕ)
      → 1 ≤ g
      → (i n : ℕ) (rows : List (Assignment F)) → AreAssigned kit g i n rows
      → Returns (Pairs IsJoined rows) (join_clients kit (map edge_name (range_from 1 g)) rows)
  unfolding join_clients
  join_clients-IsJoined g h i zero [] k = tt
  join_clients-IsJoined g h i zero (a ∷ rows) k = absurd k
  join_clients-IsJoined g h i (suc n) [] k = absurd k
  join_clients-IsJoined g h i (suc n) (a ∷ rows) (k, ks) =
      rw
        (
          edge_at-range g a.gateway_index k.behind.0
              (omega (arith, k.behind.1, gateways_there g h)),
          join_clients,
        )
        (join_more a rows _ _ (join_client-IsJoined a)
          (join_clients-IsJoined g h (suc i) n rows ks))

  draw_choice-Returns :
      IsRandom kit
      → {A : Type 0} (x : A) (xs : List A) (lab : Lab)
      → Returns (λ a. Unit {0}) (draw_choice kit (x ∷ xs) lab).0
  unfolding draw_choice draw_index
  draw_choice-Returns random x xs lab =
      let (a, e) = get_elem?-some (x ∷ xs) _ (random.choice_in_range lab (length xs)) in rw e tt

  add_edge-Returns :
      IsRandom kit
      → (gi : ℕ) (lab : Lab) → Returns (λ j. j.name ≡ edge_name gi) (add_edge kit gi lab).0
  unfolding add_edge draw_rounded draw_uniform
  add_edge-Returns random gi lab =
      Returns-continue _ _ (draw_choice kit (50 ∷ 100 ∷ 250 ∷ 500 ∷ []) _).0 _ _
        (draw_choice-Returns random 50 (100 ∷ 250 ∷ 500 ∷ []) _) λ bw _. refl

  edge_loop-Returns :
      IsRandom kit
      → (n gi : ℕ) (lab : Lab)
      → Returns (λ js. names kit js ≡ map edge_name (range_from gi n)) (edge_loop kit n gi lab).0
  unfolding edge_loop
  edge_loop-Returns random zero gi lab = refl
  edge_loop-Returns random (suc n) gi lab =
      Returns-continue _ _ (add_edge kit gi lab).0 _ _ (add_edge-Returns random gi lab) λ j e.
        Returns-continue _ _ (edge_loop kit n (suc gi) (add_edge kit gi lab).1).0 _ _
          (edge_loop-Returns random n (suc gi) _) λ js es. rw (e, es) refl

  round_robin-Returns :
      (edges : List Text) (i : ℕ)
      → 1 ≤ length edges
      → Returns (λ t. Unit {0}) (edge_round_robin kit edges i)
  unfolding edge_round_robin
  round_robin-Returns [] i h = ground arith
  round_robin-Returns (x ∷ edges) i h =
      let (t, e) = get_elem?-some (x ∷ edges) ((i - 1) % length (x ∷ edges)) (omega arith) in
      rw e tt

  add_background_at-Returns :
      IsRandom kit
      → (edges : List Text) (i k : ℕ) (lab : Lab) → 1 ≤ length edges
      → Returns (λ j. j.ip ≡ with_mask (address (150 + i))) (add_background_at kit edges i k lab).0
  unfolding add_background_at draw_rounded draw_uniform background_host
  add_background_at-Returns random edges i zero lab h = refl
  add_background_at-Returns random edges i (suc k) lab h =
      Returns-continue _ _ (edge_round_robin kit edges i) _ _ (round_robin-Returns edges i h)
        λ attach _.
          Returns-continue _ _ (draw_choice kit (10 ∷ 25 ∷ 50 ∷ 100 ∷ []) lab).0 _ _
            (draw_choice-Returns random 10 (25 ∷ 50 ∷ 100 ∷ []) lab) λ bw _. refl

  background_loop-Returns :
      IsRandom kit
      → (edges : List Text) (n i : ℕ) (lab : Lab) → 1 ≤ length edges
      → 1 ≤ i
      → Returns (All IsBackground) (background_loop kit edges n i lab).0
  unfolding background_loop add_background unless
  background_loop-Returns random edges zero i lab h k = tt
  background_loop-Returns random edges (suc n) i lab h k = elim (Bool-cases (leb 254 (150 + i))) [
    | inl e ↦ rw e tt
    | inr e ↦ rw e (
        Returns-continue _ _ (add_background_at kit edges i (i % 4) lab).0 _ _
          (add_background_at-Returns random edges i (i % 4) lab h)
          λ j a.
            Returns-continue _ _
              (background_loop kit edges n (suc i) (add_background_at kit edges i (i % 4) lab).1).0
              _ _ (background_loop-Returns random edges n (suc i) _ h (omega (arith, k)))
              λ js as'. ((150 + i, ground arith, ground arith, a), as'))
  ]

  edges_there : (n : ℕ) → length (map edge_name (range_from 1 n)) ≡ n
  edges_there n = length-map edge_name (range_from 1 n) ∙ length-range_from 1 n

  build_multi_tier-IsWired :
      IsRandom kit
      → (n : ℕ) (rows : List (Assignment F)) (args : NetworkArgs) (lab : Lab)
      → AreAssigned kit args.gateway_count 1 n rows
      → 1 ≤ args.gateway_count
      → Returns (IsWired args.gateway_count rows) (build_multi_tier kit rows args lab).0
  unfolding build_multi_tier
  build_multi_tier-IsWired random n rows args lab k h =
      Returns-continue _ _ (edge_loop kit args.gateway_count 1 lab).0 _ _
        (edge_loop-Returns random args.gateway_count 1 lab)
        λ es e.
          Returns-continue _ _ (join_clients kit (names kit es) rows) _ _
            (subst (λ x. Returns (Pairs IsJoined rows) (join_clients kit x rows)) (sym e)
              (join_clients-IsJoined args.gateway_count h 1 n rows k))
            λ cs j.
              Returns-continue _ _ (background_loop kit (names kit es) args.background_hosts 1 _).0
                _ _
                (background_loop-Returns random (names kit es) args.background_hosts 1 _
                  (omega (arith, h, ap length e, edges_there args.gateway_count)) (omega arith))
                λ bg b. record {
                  edges = es;
                  clients = cs;
                  background = bg;
                  built = refl;
                  edge_names = e;
                  joined = j;
                  addressed = b;
                }

  -- With one gateway or more, the network of several tiers is built for assigned clients: its edge
  -- switches are edge1 to the last, every client's host is linked to the edge switch of its gateway,
  -- and each background host has an address from 10.0.0.151 to 10.0.0.253. It also returns the hosts
  -- of the clients in their order. This holds where `random` picks an option that there is.
  pub build_network-IsWired :
      IsRandom kit
      → (n : ℕ) (rows : List (Assignment F)) (args : NetworkArgs) (lab : Lab)
      → AreAssigned kit args.gateway_count 1 n rows
      → text_eq args.network_model (codes "simple") ≡ false
      → 1 ≤ args.gateway_count
      → Returns
          (λ r. IsWired args.gateway_count rows r.0 × (r.1 ≡ map (λ a. a.client_host) rows))
          (build_network kit rows args lab).0
  unfolding build_network
  build_network-IsWired random n rows args lab k model h = rw model (
      Returns-continue _ _ (build_multi_tier kit rows args lab).0 _ _
        (build_multi_tier-IsWired random n rows args lab k h) λ net w. (w, refl))

  -- With no gateway the network of several tiers cannot be built for a client: the run ends with an
  -- `IndexError`.
  pub build_network-no_gateway :
      (a : Assignment F) (rows : List (Assignment F)) (args : NetworkArgs) (lab : Lab)
      → text_eq args.network_model (codes "simple") ≡ false
      → args.gateway_count ≡ 0
      → (build_network kit (a ∷ rows) args lab).0 ≡ raised index_error
  unfolding build_network build_multi_tier edge_loop join_clients
  build_network-no_gateway a rows args lab model e =
      rw (model, e) (rw (edge_at-none a.gateway_index, join_clients) refl)
