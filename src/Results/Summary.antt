-- ===== src/Results/Summary.antt =====
-- benchmarks/lib/results.py: the summary of a run.
use zk_arche_compare.Base.{
  ℕ, ◌+◌, Bool, ◌&&◌, Option, none, some, List, [], ◌∷◌, Text, codes, Result, ok, and_then, length,
  keep, keep_some, is_some, if◌then◌else◌,
}
use zk_arche_compare.Floats.{Floats, is_number}
use zk_arche_compare.Sampler.{ResourceSummary}
use zk_arche_compare.Runner.Client.{ClientResult}
use zk_arche_compare.Results.{
  LatencyStats, DevicePowerProfile, latency_stats, safe_mean, estimate_energy_per_auth_mj,
}

-- `EnergyResult` of benchmarks/lib/pmic.py
pub record EnergyResult (F : Type 0) : Type 0 where
  pub method : Text
  pub duration_s : F
  pub samples : ℕ
  pub mean_power_w : F
  pub peak_power_w : F
  pub energy_j : F
  pub energy_per_auth_mj : F
  pub note : Text

-- The `resources` of a summary. `modelled` and `measurement` are the keys that a live meter adds.
pub record ResourceBlock (F : Type 0) : Type 0 where
  pub usage : ResourceSummary F
  pub energy_per_auth_mj : F
  pub energy_method : Text
  pub device_profile : DevicePowerProfile F
  pub modelled : Option F
  pub measurement : Option (EnergyResult F)

pub record SummaryRecord (F : Type 0) : Type 0 where
  pub test : Text
  pub protocol : Text
  pub host : Text
  pub device : Text
  pub n : ℕ
  pub n_success : ℕ
  pub latency_ms : LatencyStats F
  pub sent_bytes_mean : F
  pub recv_bytes_mean : F
  pub total_bytes_mean : F
  pub resources : Option (ResourceBlock F)

module _ (fl : Floats) where
  open fl use {F, of_nat, nan}

  -- `r.success and r.duration_ms is not None`
  unfoldable pub is_successful : ClientResult F → Bool
  is_successful r = r.success && is_some r.duration_ms

  -- `[float(n) for n in ns]`
  unfoldable pub floats : List ℕ → Result (List F)
  floats [] = ok []
  floats (n ∷ ns) = and_then (fl.float_of_int n) λ x. and_then (floats ns) λ xs. ok (x ∷ xs)

  -- `s + r for s, r in zip(sent, recv)`
  unfoldable pub sums : List ℕ → List ℕ → List ℕ
  sums (s ∷ sent) (r ∷ recv) = (s + r) ∷ sums sent recv
  sums _ _ = []

  -- The mean of the numbers, NaN if there are none.
  unfoldable pub mean_of : List ℕ → Result F
  unfolding floats safe_mean
  mean_of ns = and_then (floats ns) (safe_mean fl)

  -- A meter's number replaces the model's, unless it is NaN.
  unfoldable pub resource_block :
      ResourceSummary F → ℕ → DevicePowerProfile F → Option (EnergyResult F) → ResourceBlock F
  unfolding estimate_energy_per_auth_mj is_number
  resource_block usage n profile energy = elim energy [
    | none ↦ by_model
    | some e ↦ if is_number fl e.energy_per_auth_mj then by_meter e else by_model
  ]
    where
      estimate : F
      estimate = estimate_energy_per_auth_mj fl usage n profile

      by_model : ResourceBlock F
      by_model = record {
        usage = usage;
        energy_per_auth_mj = estimate;
        energy_method = codes "static-model";
        device_profile = profile;
        modelled = none;
        measurement = none;
      }

      by_meter : EnergyResult F → ResourceBlock F
      by_meter e = record by_model {
        energy_per_auth_mj = e.energy_per_auth_mj;
        energy_method = e.method;
        modelled = some estimate;
        measurement = some e;
      }

  -- `summarise`, for the profile and the host name that are detected or given; the notes are left out.
  unfoldable pub summarise :
      Text
      → Text
      → Text
      → List (ClientResult F)
      → Option (ResourceSummary F)
      → Option (EnergyResult F)
      → DevicePowerProfile F
      → Result (SummaryRecord F)
  unfolding is_successful latency_stats mean_of sums resource_block
  summarise host test protocol results resources energy profile =
      and_then (latency_stats fl (keep_some (λ r. r.duration_ms) successful)) λ l.
        and_then (mean_of sent) λ sent_mean. and_then (mean_of recv) λ recv_mean.
          and_then (mean_of (sums sent recv))
            λ total_mean. ok (summary l sent_mean recv_mean total_mean)
    where
      successful : List (ClientResult F)
      successful = keep is_successful results

      sent : List ℕ
      sent = keep_some (λ r. r.sent_bytes) successful

      recv : List ℕ
      recv = keep_some (λ r. r.recv_bytes) successful

      summary : LatencyStats F → F → F → F → SummaryRecord F
      summary l sent_mean recv_mean total_mean = record {
        test = test;
        protocol = protocol;
        host = host;
        device = profile.name;
        n = length results;
        n_success = length successful;
        latency_ms = l;
        sent_bytes_mean = sent_mean;
        recv_bytes_mean = recv_mean;
        total_bytes_mean = total_mean;
        resources = elim resources [
          | none ↦ none
          | some u ↦ some (resource_block u (length successful) profile energy)
        ];
      }
