-- ===== src/Mininet/Clients.antt =====
-- experiments/mininet/mininet_tests_123.py: the clients with their devices, addresses and gateways.
pub mod Clear
pub mod Assigned
use zk_arche_compare.Base.{
  ℕ, zero, suc, ◌+◌, ◌-◌, ◌%◌, Bool, true, false, Option, none, some, List, [], ◌∷◌, ◌++◌, Text,
  codes, text_eq, map, Result, ok, raised, index_error, zero_division, ◌==◌, leb, length, get_elem?,
  if◌then◌else◌,
}
use zk_arche_compare.Strings.{show_nat}
use zk_arche_compare.World.{FilePath}
use zk_arche_compare.World.Files.{mkdirs}
use zk_arche_compare.Sessions.{Figures, Setup}
use zk_arche_compare.Mininet.Lab.{
  Kit, M, pure, raise, lift, files, ◌>>=◌, ◌>>◌, draw_uniform, draw_index,
}
use zk_arche_compare.Mininet.Profiles.{
  DeviceProfile, weighted_random_device, rand_range, chosen, server_ip,
}

-- The dictionary of a client. The keys that the enrolment adds are `none` before it.
pub record Assignment (F : Type 0) : Type 0 where
  pub client_index : ℕ
  pub client_host : Text
  pub client_ip : Text
  pub client_type : Text
  pub traffic_role : Text
  pub gateway_index : ℕ
  pub gateway_name : Text
  pub bw_mbps : ℕ
  pub network_delay_ms : F
  pub network_jitter_ms : F
  pub packet_loss_percent : F
  pub client_workdir : FilePath
  pub setup : Setup F
  pub server_setup : Figures F

unfoldable pub pi_name : ℕ → Text
unfolding show_nat
pi_name i = codes "pi" ++ show_nat i

unfoldable pub edge_name : ℕ → Text
unfolding show_nat
edge_name i = codes "edge" ++ show_nat i

-- `f"10.0.0.{octet}"`
unfoldable pub address : ℕ → Text
unfolding show_nat
address octet = codes "10.0.0." ++ show_nat octet

-- `((i - 1) % max(1, gateway_count)) + 1`
unfoldable pub gateway_for : ℕ → ℕ → ℕ
gateway_for i zero = 1
gateway_for i (suc n) = suc ((i - 1) % suc n)

abbrev role_or : Option Text → Text
role_or none = codes "auth_client"
role_or (some role) = role

module _ (kit : Kit) where
  open kit use {fl, round_to, show_float, choice}
  open fl use {F, of_nat, ratio}

  unfoldable pub not_enrolled : Figures F
  not_enrolled = record { duration_ms = none; sent_bytes = none; received_bytes = none }

  unfoldable pub new_assignment :
      FilePath → ℕ → ℕ → Text × DeviceProfile F → F → F → F → Assignment F
  unfolding pi_name address gateway_for edge_name not_enrolled
  new_assignment dir gateways i (dtype, profile) delay jitter loss = record {
    client_index = i;
    client_host = pi_name i;
    client_ip = address (i + 1);
    client_type = dtype;
    traffic_role = role_or profile.traffic_role;
    gateway_index = gateway_for i gateways;
    gateway_name = edge_name (gateway_for i gateways);
    bw_mbps = profile.bw_mbps;
    network_delay_ms = delay;
    network_jitter_ms = jitter;
    packet_loss_percent = loss;
    client_workdir = pi_name i ∷ dir;
    setup = record { figures = not_enrolled; wall_elapsed_ms = none };
    server_setup = not_enrolled;
  }

  -- One round of the loop.
  unfoldable pub assign : FilePath → Text → ℕ → ℕ → M (Assignment F)
  assign dir mix gateways i = do
    device ← weighted_random_device kit mix
    files (mkdirs (pi_name i ∷ dir))
    delay ← rand_range kit device.1.delay_ms_range
    jitter ← rand_range kit device.1.jitter_ms_range
    loss ← rand_range kit device.1.loss_percent_range
    pure (new_assignment dir gateways i device delay jitter loss)

  unfoldable pub assign_loop : FilePath → Text → ℕ → ℕ → ℕ → M (List (Assignment F))
  assign_loop dir mix gateways zero i = pure []
  assign_loop dir mix gateways (suc n) i = do
    a ← assign dir mix gateways i
    rest ← assign_loop dir mix gateways n (suc i)
    pure (a ∷ rest)

  unfoldable pub make_assignments : ℕ → FilePath → Text → ℕ → M (List (Assignment F))
  make_assignments num_clients dir mix gateways = do
    files (mkdirs dir)
    assign_loop dir mix gateways num_clients 1
