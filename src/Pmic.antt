-- ===== src/Pmic.antt =====
-- benchmarks/lib/pmic.py: the power readings of the Raspberry Pi 5, the linear model, and the
-- summary of the power samples.
pub mod Buses
use mathlib.Core.List.{reverse}
use zk_arche_compare.Base.{
  ℕ, zero, suc, ◌+◌, ◌-◌, Bool, true, false, ◌||◌, ◌&&◌, not, Option, none, some, List, [], ◌∷◌,
  Text, codes, text_eq, is_space, length, keep, count_if, leb, ◌==◌, if◌then◌else◌,
}
use zk_arche_compare.Floats.{Floats, is_number, min2, max2, max_from, sum_from}
use zk_arche_compare.Strings.{strip, rstrip, partition, splitlines}
use zk_arche_compare.World.{Completion, timed_out, completed}
use zk_arche_compare.Results.Summary.{EnergyResult}

-- `label[-1]` and `label[:-2]` of a reversed label with three characters or more and "_" before the last.
unfoldable pub split_label : Text → Option (ℕ × Text)
split_label (kind ∷ mark ∷ r ∷ rs) = if mark == b'_' then some (kind, reverse (r ∷ rs)) else none
split_label _ = none

-- `rstrip("AVavWw")`
unfoldable pub is_unit : ℕ → Bool
is_unit c = c == b'A' || c == b'V' || c == b'a' || c == b'v' || c == b'W' || c == b'w'

-- `_BUS_RAILS`
unfoldable pub is_bus : Text → Bool
is_bus rail = text_eq rail (codes "EXT5V") || text_eq rail (codes "BATT")

-- `VcgencmdPmicMeter.is_available`, where `vcgencmd` is on the path or not
unfoldable pub is_available : Bool → Completion → Bool
is_available found timed_out = false
is_available found (completed status stdout stderr) =
    found && status == 0 && leb 10 (count_if (λ c. c == 10) stdout)

-- The two dictionaries of a reading, in the order of insertion.
pub record Adc (F : Type 0) : Type 0 where
  pub currents : List (Text × F)
  pub voltages : List (Text × F)

module _ {F : Type 0} where
  -- `d[k] = v`
  unfoldable pub put : Text → F → List (Text × F) → List (Text × F)
  put k v [] = (k, v) ∷ []
  put k v ((j, u) ∷ d) = let rest = put k v d in if text_eq j k then (j, v) ∷ d else (j, u) ∷ rest

  -- `d.get(k)`
  unfoldable pub lookup : Text → List (Text × F) → Option F
  lookup k [] = none
  lookup k ((j, u) ∷ d) = let rest = lookup k d in if text_eq j k then some u else rest

  abbrev pub empty_adc : Adc F
  empty_adc = record { currents = []; voltages = [] }

  unfoldable pub store : ℕ → Text → F → Adc F → Adc F
  unfolding put
  store kind rail value adc =
      if kind == b'A'
      then record adc { currents = put rail value adc.currents }
      else if kind == b'V'
      then record adc { voltages = put rail value adc.voltages }
      else adc

module _ (fl : Floats) where
  open fl use {F, of_nat, ratio, add, sub, mul, div, lt, abs, nan, of_text}

  abbrev entry : Option (ℕ × Text) → Option F → Option (ℕ × Text × F)
  entry (some (kind, rail)) (some value) = some (kind, rail, value)
  entry _ _ = none

  -- The kind, the rail and the value of a line, `none` where the loop continues.
  unfoldable pub adc_line : Text → Option (ℕ × Text × F)
  unfolding strip rstrip partition split_label is_unit is_space
  adc_line raw_line =
      let (label_part, found, value_part) = partition b'=' (strip raw_line) in
      let (label, spaced, more) = partition 32 label_part in
      if found
      then entry (split_label (reverse label))
          (of_text (rstrip is_unit (rstrip is_space value_part)))
      else none

  unfoldable pub adc_step : Adc F → Text → Adc F
  unfolding store
  adc_step adc raw_line = elim (adc_line raw_line) [
    | none ↦ adc
    | some (kind, rail, value) ↦ store kind rail value adc
  ]

  unfoldable pub adc_read : Adc F → List Text → Adc F
  unfolding adc_step
  adc_read adc [] = adc
  adc_read adc (line ∷ lines) = adc_read (adc_step adc line) lines

  unfoldable pub plus_rail : List (Text × F) → Text → F → F → F
  unfolding lookup is_bus
  plus_rail voltages rail amps total = if is_bus rail then total else elim (lookup rail voltages) [
    | none ↦ total
    | some volts ↦ add total (abs (mul volts amps))
  ]

  unfoldable pub total_power : List (Text × F) → F → List (Text × F) → F
  unfolding plus_rail
  total_power voltages total [] = total
  total_power voltages total ((rail, amps) ∷ currents) =
      total_power voltages (plus_rail voltages rail amps total) currents

  unfoldable pub adc_power : List Text → F
  unfolding adc_read total_power
  adc_power lines =
      let adc = adc_read empty_adc lines in total_power adc.voltages (of_nat 0) adc.currents

  -- `VcgencmdPmicMeter.read_power_w`
  unfoldable pub pmic_power_w : Completion → F
  unfolding adc_power splitlines
  pmic_power_w timed_out = nan
  pmic_power_w (completed status stdout stderr) =
      if status == 0 then adc_power (splitlines stdout) else nan

  -- `StaticLinearMeter.read_power_w`; `none` is a provider that raises a `TypeError` or a `ValueError`.
  unfoldable pub static_power_w : F → F → Option F → F
  unfolding min2 max2
  static_power_w idle_w max_w fraction =
      let u : F = elim fraction [ none ↦ of_nat 0 | some x ↦ x ] in
      add idle_w (mul (sub max_w idle_w) (max2 fl (of_nat 0) (min2 fl (of_nat 1) u)))

  -- `PowerSampler._loop`: the readings that are kept.
  unfoldable pub power_samples : List F → List F
  unfolding is_number
  power_samples readings = keep (λ p. is_number fl p && lt (of_nat 0) p) readings

  -- `PowerSampler.summary` of a sampler that was started and stopped, at the two times given.
  unfoldable pub power_summary : Text → ℕ → ℕ → List F → ℕ → EnergyResult F
  power_summary method t0 t1 [] n_auths = record {
    method = method;
    duration_s = ratio (t1 - t0) 1_000_000_000;
    samples = 0;
    mean_power_w = nan;
    peak_power_w = nan;
    energy_j = nan;
    energy_per_auth_mj = nan;
    note = codes "no power samples captured";
  }
  power_summary method t0 t1 (p ∷ ps) n_auths =
      let duration = ratio (t1 - t0) 1_000_000_000 in
      let mean = div (sum_from fl (of_nat 0) (p ∷ ps)) (of_nat (length (p ∷ ps))) in
      let energy_j = mul mean duration in
      record {
        method = method;
        duration_s = duration;
        samples = length (p ∷ ps);
        mean_power_w = mean;
        peak_power_w = max_from fl p ps;
        energy_j = energy_j;
        energy_per_auth_mj =
            mul (div energy_j (of_nat (if n_auths == 0 then 1 else n_auths))) (of_nat 1000);
        note = [];
      }
