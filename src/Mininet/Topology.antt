-- ===== src/Mininet/Topology.antt =====
-- experiments/mininet/mininet_tests_123.py: the network that is built of the
-- clients. It is a value: its hosts and switches with its links, in the order in
-- which they are added.
pub mod Keeps
pub mod Wired
use zk_arche_compare.Base.{
  ℕ, zero, suc, ◌+◌, ◌-◌, ◌%◌, Bool, true, false, Option, none, some, List, [], ◌∷◌, ◌++◌, Text,
  codes, text_eq, map, Result, ok, raised, index_error, zero_division, ◌==◌, leb, length, get_elem?,
  if◌then◌else◌,
}
use zk_arche_compare.Strings.{show_nat}
use zk_arche_compare.World.{FilePath}
use zk_arche_compare.World.Files.{mkdirs}
use zk_arche_compare.Sessions.{Figures, Setup}
use zk_arche_compare.Mininet.Lab.{
  Kit, M, pure, raise, lift, files, ◌>>=◌, ◌>>◌, draw_uniform, draw_index,
}
use zk_arche_compare.Mininet.Clients.{Assignment, pi_name, edge_name, address}
use zk_arche_compare.Mininet.Profiles.{
  DeviceProfile, weighted_random_device, rand_range, chosen, server_ip,
}

pub record Link (F : Type 0) : Type 0 where
  pub node : Text
  pub switch : Text
  pub bw : ℕ
  pub delay : Text
  pub jitter : Text
  pub loss : F

pub record Net (F : Type 0) : Type 0 where
  -- the names and addresses
  pub hosts : List (Text × Text)
  pub switches : List Text
  pub links : List (Link F)
  pub background_hosts : List Text

-- A host or a switch with the link that joins it to its switch.
pub record Joined (F : Type 0) : Type 0 where
  pub name : Text
  pub ip : Text
  pub link : Link F

pub record NetworkArgs : Type 0 where
  pub network_model : Text
  pub gateway_count : ℕ
  pub background_hosts : ℕ

-- `xs[i - 1]`, where the index -1 is the last element
unfoldable pub edge_at : List Text → ℕ → Option Text
edge_at edges zero = get_elem? edges (length edges - 1)
edge_at edges (suc i) = get_elem? edges i

unfoldable pub with_mask : Text → Text
with_mask ip = ip ++ codes "/24"

module _ (kit : Kit) where
  open kit use {fl, round_to, show_float, choice}
  open fl use {F, of_nat, ratio}

  unfoldable pub link : Text → Text → ℕ → Text → Text → F → Link F
  link node switch bw delay jitter loss = record {
    node = node;
    switch = switch;
    bw = bw;
    delay = delay;
    jitter = jitter;
    loss = loss;
  }

  -- `f"{x}ms"`
  unfoldable pub ms_text : F → Text
  ms_text x = show_float x ++ codes "ms"

  unfoldable pub join_client : Text → Assignment F → Joined F
  unfolding link ms_text with_mask
  join_client switch a = record {
    name = a.client_host;
    ip = with_mask a.client_ip;
    link =
        link a.client_host switch a.bw_mbps (ms_text a.network_delay_ms)
          (ms_text a.network_jitter_ms) a.packet_loss_percent;
  }

  -- `round(random.uniform(lo, hi), 3)`
  unfoldable pub draw_rounded : F → F → M F
  draw_rounded lo hi = do x ← draw_uniform kit lo hi; pure (round_to 3 x)

  -- `random.choice(options)`
  unfoldable pub draw_choice : {A : Type 0} → List A → M A
  draw_choice options = do
    i ← draw_index kit λ lab. choice lab (length options)
    lift (chosen kit (get_elem? options i))

  -- An edge switch and its uplink, which has no address.
  unfoldable pub add_edge : ℕ → M (Joined F)
  add_edge gi = do
    delay ← draw_rounded (of_nat 2) (of_nat 12)
    jitter ← draw_rounded (ratio 2 10) (of_nat 3)
    loss ← draw_rounded (of_nat 0) (ratio 6 10)
    bw ← draw_choice (50 ∷ 100 ∷ 250 ∷ 500 ∷ [])
    pure (record {
      name = edge_name gi;
      ip = [];
      link = link (edge_name gi) (codes "agg1") bw (ms_text delay) (ms_text jitter) loss;
    })

  unfoldable pub edge_loop : ℕ → ℕ → M (List (Joined F))
  edge_loop zero gi = pure []
  edge_loop (suc n) gi = do edge ← add_edge gi; rest ← edge_loop n (suc gi); pure (edge ∷ rest)

  -- Each client at the edge switch of its gateway.
  unfoldable pub join_clients : List Text → List (Assignment F) → Result (List (Joined F))
  unfolding edge_at join_client
  join_clients edges [] = ok []
  join_clients edges (a ∷ assignments) = elim (edge_at edges a.gateway_index) [
    | none ↦ raised index_error
    | some edge ↦ elim (join_clients edges assignments) [
      | raised e ↦ raised e
      | ok rest ↦ ok (join_client edge a ∷ rest)
    ]
  ]

  -- `edge_switches[(i - 1) % len(edge_switches)]`
  unfoldable pub edge_round_robin : List Text → ℕ → Result Text
  edge_round_robin [] i = raised zero_division
  edge_round_robin (e ∷ edges) i = chosen kit (get_elem? (e ∷ edges) ((i - 1) % length (e ∷ edges)))

  unfoldable pub bg_name : ℕ → Text
  unfolding show_nat
  bg_name i = codes "bg" ++ show_nat i

  unfoldable pub background_host : ℕ → Link F → Joined F
  unfolding bg_name address with_mask
  background_host i l = record { name = bg_name i; ip = with_mask (address (150 + i)); link = l }

  -- Every fourth host is at the core switch; the last argument is `i % 4`.
  unfoldable pub add_background_at : List Text → ℕ → ℕ → M (Joined F)
  add_background_at edges i zero = pure (
      background_host i
        (link (bg_name i) (codes "core1") 500 (codes "3ms") (codes "0.5ms") (ratio 1 10)))
  add_background_at edges i (suc k) = do
    attach ← lift (edge_round_robin edges i)
    bw ← draw_choice (10 ∷ 25 ∷ 50 ∷ 100 ∷ [])
    delay ← draw_rounded (of_nat 5) (of_nat 55)
    jitter ← draw_rounded (of_nat 1) (of_nat 12)
    loss ← draw_rounded (of_nat 0) (ratio 25 10)
    pure (background_host i (link (bg_name i) attach bw (ms_text delay) (ms_text jitter) loss))

  unfoldable pub add_background : List Text → ℕ → M (Joined F)
  add_background edges i = add_background_at edges i (i % 4)

  -- `if b: break`
  unfoldable pub unless : Bool → M (List (Joined F)) → M (List (Joined F))
  unless true m = pure []
  unless false m = m

  -- The loop ends early where the addresses do.
  unfoldable pub background_loop : List Text → ℕ → ℕ → M (List (Joined F))
  background_loop edges zero i = pure []
  background_loop edges (suc n) i =
      unless (leb 254 (150 + i))
        (do h ← add_background edges i; rest ← background_loop edges n (suc i); pure (h ∷ rest))

  abbrev pub names : List (Joined F) → List Text
  names js = map (λ j. j.name) js

  abbrev host_rows : List (Joined F) → List (Text × Text)
  host_rows js = map (λ j. (j.name, j.ip)) js

  abbrev link_rows : List (Joined F) → List (Link F)
  link_rows js = map (λ j. j.link) js

  unfoldable pub server_link : Text → Link F
  unfolding link
  server_link switch = link (codes "server") switch 1000 (codes "1ms") (codes "0.2ms") (of_nat 0)

  unfoldable pub server_host : Text × Text
  unfolding with_mask
  server_host = (codes "server", with_mask server_ip)

  unfoldable pub simple_network : List (Assignment F) → Net F
  unfolding join_client server_link server_host
  simple_network assignments =
      let clients = map (join_client (codes "s1")) assignments in
      record {
        hosts = server_host ∷ host_rows clients;
        switches = codes "s1" ∷ [];
        links = server_link (codes "s1") ∷ link_rows clients;
        background_hosts = [];
      }

  unfoldable pub multi_tier_network : List (Joined F) → List (Joined F) → List (Joined F) → Net F
  unfolding link server_link server_host
  multi_tier_network edges clients background = record {
    hosts = server_host ∷ (host_rows clients ++ host_rows background);
    switches = codes "core1" ∷ codes "agg1" ∷ names edges;
    links =
        link (codes "core1") (codes "agg1") 1000 (codes "2ms") (codes "0.3ms") (of_nat 0)
        ∷ server_link (codes "core1")
        ∷ (link_rows edges ++ link_rows clients ++ link_rows background);
    background_hosts = names background;
  }

  unfoldable pub build_multi_tier : List (Assignment F) → NetworkArgs → M (Net F)
  build_multi_tier assignments args = do
    edges ← edge_loop args.gateway_count 1
    clients ← lift (join_clients (names edges) assignments)
    background ← background_loop (names edges) args.background_hosts 1
    pure (multi_tier_network edges clients background)

  -- The clients that it returns are the hosts of the assignments, in their order.
  unfoldable pub build_network : List (Assignment F) → NetworkArgs → M (Net F × List Text)
  build_network assignments args = do
    net ←
        if text_eq args.network_model (codes "simple")
        then pure (simple_network assignments)
        else build_multi_tier assignments args
    pure (net, map (λ a. a.client_host) assignments)
