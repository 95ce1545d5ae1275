-- ===== src/Mininet/Profiles.antt =====
-- experiments/mininet/mininet_tests_123.py: the constants, the profiles of devices and of background
-- traffic, the protocols, and the draws from them.
use zk_arche_compare.Base.{
  ℕ, Bool, true, false, Option, none, some, List, [], ◌∷◌, Text, codes, text_eq, Result, ok, raised,
  index_error, key_error, map, get_elem?, if◌then◌else◌,
}
use zk_arche_compare.Mininet.Lab.{Kit, M, lift, pure, ◌>>=◌, draw_uniform, draw_index}

abbrev pub server_cpu : Text
server_cpu = codes "Intel Core i7-6770HQ @ 2.60GHz"

abbrev pub server_ip : Text
server_ip = codes "10.0.0.1"

abbrev pub pairing_token : Text
pairing_token = codes "mininet-pairing-token"

abbrev pub default_clients : ℕ
default_clients = 50

abbrev pub default_iterations : ℕ
default_iterations = 50

abbrev pub default_workdir : Text
default_workdir = codes "/tmp/zkcompare-mininet-tests123"

abbrev pub default_results_dir : Text
default_results_dir = codes "results/mininet"

-- `d.get(key)` of a dictionary that is a list in the order of its keys
unfoldable pub find {ℓ} : {A : Type ℓ} → Text → List (Text × A) → Option A
unfolding text_eq
find key [] = none
find key ((k, v) ∷ rows) = if text_eq key k then some v else find key rows

-- `d[key]`
abbrev pub found {ℓ} : {A : Type ℓ} → Option A → Result A
found none = raised key_error
found (some a) = ok a

pub record TrafficProfile : Type 0 where
  pub ping : ℕ
  pub tcp : ℕ
  pub udp : ℕ
  pub udp_rate : Text

abbrev traffic : ℕ → ℕ → ℕ → Text → TrafficProfile
traffic ping tcp udp rate = record { ping = ping; tcp = tcp; udp = udp; udp_rate = rate }

abbrev pub no_traffic : TrafficProfile
no_traffic = traffic 0 0 0 (codes "0M")

abbrev pub background_traffic_profiles : List (Text × TrafficProfile)
background_traffic_profiles =
    (codes "none", no_traffic)
    ∷ (codes "light", traffic 4 1 1 (codes "1M"))
    ∷ (codes "medium", traffic 8 2 2 (codes "3M"))
    ∷ (codes "heavy", traffic 12 4 4 (codes "8M"))
    ∷ (codes "burst", traffic 12 2 6 (codes "15M"))
    ∷ []

abbrev or_none : Option TrafficProfile → TrafficProfile
or_none none = no_traffic
or_none (some p) = p

-- `background_intensity_profile`: an unknown level is no traffic.
unfoldable pub background_intensity_profile : Text → TrafficProfile
unfolding find
background_intensity_profile level = or_none (find level background_traffic_profiles)

pub record ProtocolConfig : Type 0 where
  pub server_bin : Text
  pub client_bin : Text
  pub port : ℕ
  pub title : Text
  pub needs_certs : Bool
  pub needs_setup : Bool

abbrev pub protocol_table : List (Text × ProtocolConfig)
protocol_table =
    (
      codes "zkarche",
      record {
        server_bin = codes "zkarche_server";
        client_bin = codes "zkarche_client";
        port = 4000;
        title = codes "ZK-ARCHE";
        needs_certs = false;
        needs_setup = true;
      },
    )
    ∷ (
      codes "mtls",
      record {
        server_bin = codes "mtls_server";
        client_bin = codes "mtls_client";
        port = 7443;
        title = codes "mTLS";
        needs_certs = true;
        needs_setup = false;
      },
    )
    ∷ (
      codes "edhoc",
      record {
        server_bin = codes "edhoc_server";
        client_bin = codes "edhoc_client";
        port = 5688;
        title = codes "EDHOC-over-TCP";
        needs_certs = false;
        needs_setup = false;
      },
    )
    ∷ []

-- `PROTOCOLS[protocol]`
unfoldable pub config_of : Text → Result ProtocolConfig
unfolding find
config_of protocol = found (find protocol protocol_table)

pub record DeviceProfile (F : Type 0) : Type 0 where
  pub weight : F
  pub bw_mbps : ℕ
  pub delay_ms_range : F × F
  pub jitter_ms_range : F × F
  pub loss_percent_range : F × F
  -- the key is missing in the profiles of the Raspberry Pi mix
  pub traffic_role : Option Text

module _ (kit : Kit) where
  open kit use {fl, uniform, weighted, round_to}
  open fl use {F, of_nat, ratio}

  -- The loss is in tenths of a percent, the weight in hundredths.
  unfoldable pub profile : ℕ → ℕ → ℕ × ℕ → ℕ × ℕ → ℕ × ℕ → Option Text → DeviceProfile F
  profile weight bw delay jitter loss role = record {
    weight = ratio weight 100;
    bw_mbps = bw;
    delay_ms_range = (of_nat delay.0, of_nat delay.1);
    jitter_ms_range = (of_nat jitter.0, of_nat jitter.1);
    loss_percent_range = (ratio loss.0 10, ratio loss.1 10);
    traffic_role = role;
  }

  abbrev pub Profiles : Type 0
  Profiles = List (Text × DeviceProfile F)

  unfoldable pub device_profiles : Profiles
  unfolding profile
  device_profiles =
      (codes "Raspberry Pi 3B+", profile 34 100 (12, 45) (2, 8) (0, 15) none)
      ∷ (codes "Raspberry Pi 4", profile 33 100 (8, 32) (1, 6) (0, 10) none)
      ∷ (codes "Raspberry Pi 5", profile 33 100 (4, 22) (1, 4) (0, 6) none)
      ∷ []

  unfoldable pub heterogeneous_iot_profiles : Profiles
  unfolding profile
  heterogeneous_iot_profiles =
      (codes "ESP32 sensor", profile 24 10 (25, 95) (4, 18) (2, 30) (some (codes "telemetry")))
      ∷ (
        codes "Raspberry Pi 3B+",
        profile 22 100 (12, 45) (2, 8) (0, 15) (some (codes "edge_node")),
      )
      ∷ (codes "Raspberry Pi 4", profile 20 100 (8, 32) (1, 6) (0, 10) (some (codes "edge_node")))
      ∷ (codes "Smart camera", profile 14 25 (10, 40) (2, 12) (0, 20) (some (codes "video")))
      ∷ (codes "Smart meter", profile 12 5 (35, 120) (6, 25) (2, 40) (some (codes "low_rate")))
      ∷ (codes "Industrial gateway", profile 8 100 (5, 25) (1, 5) (0, 8) (some (codes "gateway")))
      ∷ []

  unfoldable pub selected_device_profiles : Text → Profiles
  unfolding device_profiles heterogeneous_iot_profiles text_eq
  selected_device_profiles mix =
      if text_eq mix (codes "heterogeneous-iot")
      then heterogeneous_iot_profiles
      else device_profiles

  -- An index outside the options cannot come from `random`; it would be an `IndexError`.
  abbrev pub chosen {ℓ} : {A : Type ℓ} → Option A → Result A
  chosen none = raised index_error
  chosen (some a) = ok a

  -- `weighted_random_device`, with the profile of the name that is drawn
  unfoldable pub weighted_random_device : Text → M (Text × DeviceProfile F)
  weighted_random_device mix = do
    i ←
        draw_index kit
          λ lab. weighted lab (map (λ row. row.1.weight) (selected_device_profiles mix))
    lift (chosen (get_elem? (selected_device_profiles mix) i))

  unfoldable pub rand_range : F × F → M F
  rand_range (lo, hi) = do x ← draw_uniform kit lo hi; pure (round_to 4 x)
