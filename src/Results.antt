-- ===== src/Results.antt =====
-- benchmarks/lib/results.py: the statistics of a run, its CSV rows and its summary.
pub mod Percentile
pub mod Summary
pub mod Total
use zk_arche_compare.Base.{
  ℕ, zero, suc, ◌+◌, ◌-◌, ◌*◌, ◌/◌, ◌%◌, Bool, true, false, ◌&&◌, Option, none, some, List, [], ◌∷◌,
  ◌++◌, map, Text, codes, Error, Result, ok, raised, index_error, statistics_error, and_then,
  length, get_elem?, keep, keep_some, ltb, leb, ◌==◌, is_some, if◌then◌else◌,
}
use zk_arche_compare.Floats.{Floats, is_number, min2, max2, min_from, max_from, sorted}
use zk_arche_compare.Strings.{show_nat}
use zk_arche_compare.Sampler.{ResourceSummary}
use zk_arche_compare.Runner.Client.{ClientResult}

-- `xs[i]`
abbrev pub index {ℓ} : {A : Type ℓ} → Option A → Result A
index none = raised index_error
index (some a) = ok a

pub record LatencyStats (F : Type 0) : Type 0 where
  pub mean : F
  pub median : F
  pub p95 : F
  pub p99 : F
  pub min : F
  pub max : F
  pub stdev : F

-- `DevicePowerProfile` of benchmarks/lib/config.py
pub record DevicePowerProfile (F : Type 0) : Type 0 where
  pub name : Text
  pub idle_w : F
  pub max_w : F
  pub cpu_cores : ℕ

module _ (fl : Floats) where
  open fl use {F, of_nat, ratio, add, sub, mul, div, le, nan}

  -- `s[f] + (s[c] - s[f]) * (k - f)`
  abbrev pub interpolate : Option F → Option F → F → Result F
  interpolate none hi t = raised index_error
  interpolate (some lo) none t = raised index_error
  interpolate (some lo) (some hi) t = ok (add lo (mul (sub hi lo) t))

  -- `k = (len(s) - 1) * (pct / 100.0)`
  unfoldable pub rank : ℕ → F → F
  rank n pct = mul (of_nat (n - 1)) (div pct (of_nat 100))

  -- The percentile of a sorted list of two values or more.
  unfoldable pub percentile_at : List F → F → Result F
  percentile_at s k =
      if fl.floor k == fl.ceil k
      then index (get_elem? s (fl.floor k))
      else interpolate (get_elem? s (fl.floor k)) (get_elem? s (fl.ceil k))
          (sub k (of_nat (fl.floor k)))

  unfoldable pub percentile : List F → F → Result F
  unfolding percentile_at rank sorted
  percentile [] pct = ok nan
  percentile (x ∷ []) pct = index (get_elem? (sorted fl (x ∷ [])) 0)
  percentile (x ∷ y ∷ ys) pct =
      percentile_at (sorted fl (x ∷ y ∷ ys)) (rank (length (sorted fl (x ∷ y ∷ ys))) pct)

  unfoldable pub safe_stdev : List F → Result F
  safe_stdev values = if ltb (length values) 2 then ok (of_nat 0) else fl.stdev values

  -- `statistics.fmean` is `fsum` over the length.
  unfoldable pub safe_mean : List F → Result F
  safe_mean [] = ok nan
  safe_mean (x ∷ xs) =
      and_then (fl.fsum (x ∷ xs)) λ total. ok (div total (of_nat (length (x ∷ xs))))

  -- `statistics.median`, of a list that is not empty
  unfoldable pub median : List F → Option F
  unfolding sorted
  median values =
      let s = sorted fl values in
      let i = length s / 2 in
      if length s % 2 == 1 then get_elem? s i else halfway (get_elem? s (i - 1)) (get_elem? s i)
    where
      halfway : Option F → Option F → Option F
      halfway (some a) (some b) = some (div (add a b) (of_nat 2))
      halfway _ _ = none

  no_latency : LatencyStats F
  no_latency = record {
    mean = nan;
    median = nan;
    p95 = nan;
    p99 = nan;
    min = nan;
    max = nan;
    stdev = of_nat 0;
  }

  -- A list that is not empty has a median.
  abbrev pub found_median : Option F → Result F
  found_median none = raised statistics_error
  found_median (some m) = ok m

  -- `LatencyStats.from_values`
  unfoldable pub latency_stats : List F → Result (LatencyStats F)
  unfolding no_latency percentile median safe_mean safe_stdev
  latency_stats [] = ok no_latency
  latency_stats (x ∷ xs) = and_then (safe_mean (x ∷ xs)) λ mean.
      and_then (found_median (median (x ∷ xs))) λ med.
        and_then (percentile (x ∷ xs) (of_nat 95)) λ p95.
          and_then (percentile (x ∷ xs) (of_nat 99)) λ p99. and_then (safe_stdev (x ∷ xs)) λ sd.
            ok (record {
              mean = mean;
              median = med;
              p95 = p95;
              p99 = p99;
              min = min_from fl x xs;
              max = max_from fl x xs;
              stdev = sd;
            })

  unfoldable pub iteration_row : ClientResult F → List Text
  unfolding show_nat
  iteration_row r =
      show_nat r.iteration
      ∷ show_nat r.client_id
      ∷ codes (if r.success then "1" else "0")
      ∷ elim r.duration_ms [ none ↦ [] | some d ↦ fl.show_six d ]
      ∷ elim r.sent_bytes [ none ↦ [] | some n ↦ show_nat n ]
      ∷ elim r.recv_bytes [ none ↦ [] | some n ↦ show_nat n ]
      ∷ fl.show_six (ratio r.elapsed_ns 1_000_000_000)
      ∷ []

  -- The rows of `write_iterations_csv`, the header first.
  unfoldable pub iteration_rows : List (ClientResult F) → List (List Text)
  unfolding iteration_row
  iteration_rows results =
      map codes (
        "iter" ∷ "client_id" ∷ "success" ∷ "duration_ms" ∷ "sent_bytes" ∷ "recv_bytes" ∷ "wall_s"
        ∷ [])
      ∷ map iteration_row results

  -- The average power of the linear model, `cpu_fraction` cut to 0 to 1.
  unfoldable pub average_power : DevicePowerProfile F → F → F
  unfolding min2 max2
  average_power profile cpu_pct = add profile.idle_w (
      mul (sub profile.max_w profile.idle_w)
        (max2 fl (of_nat 0) (min2 fl (of_nat 1) (div cpu_pct (of_nat 100)))))

  unfoldable pub estimate_energy_per_auth_mj : ResourceSummary F → ℕ → DevicePowerProfile F → F
  unfolding average_power
  estimate_energy_per_auth_mj r n profile =
      if n == 0
      then nan
      else if le r.duration_s (of_nat 0)
      then nan
      else mul (div (mul (average_power profile r.cpu_pct_normalised) r.duration_s) (of_nat n))
          (of_nat 1000)
