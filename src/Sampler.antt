-- ===== src/Sampler.antt =====
-- benchmarks/lib/sampler.py: the process sampler over `/proc`. Times are in nanoseconds.
pub mod Fields
pub mod Peak
use zk_arche_compare.Base.{
  ℕ, zero, suc, ◌+◌, ◌-◌, ◌*◌, Bool, true, false, Option, none, some, List, [], ◌∷◌, ◌++◌, Text,
  codes, length, drop, get_elem?, ltb, if◌then◌else◌,
}
use zk_arche_compare.Floats.{Floats, max_from, sum_from}
use zk_arche_compare.Strings.{rpartition, words, int_of, starts_with}

-- utime, stime and rss, which the kernel writes without a sign.
pub record Stat : Type 0 where
  pub utime : ℕ
  pub stime : ℕ
  pub rss_pages : ℕ

abbrev stat_of : Option ℕ → Option ℕ → Option ℕ → Option Stat
stat_of (some u) (some s) (some r) = some (record { utime = u; stime = s; rss_pages = r })
stat_of _ _ _ = none

-- `int(fields[i])`, with `none` for an `IndexError` or a `ValueError`
unfoldable pub int_field : List Text → ℕ → Option ℕ
unfolding int_of
int_field fields i = elim (get_elem? fields i) [ none ↦ none | some t ↦ int_of t ]

unfoldable pub stat_fields : List Text → Option Stat
unfolding int_field
stat_fields fields = stat_of (int_field fields 11) (int_field fields 12) (int_field fields 21)

-- `_read_stat` on the text of /proc/pid/stat, `none` where the process is gone. The fields start
-- two characters after the last ")".
unfoldable pub read_stat : Option Text → Option Stat
unfolding stat_fields rpartition words
read_stat none = none
read_stat (some text) =
    let (before, found, after) = rpartition b')' text in
    if found then stat_fields (words (drop 1 after)) else none

-- `_read_status_vmrss_kb` on the lines of /proc/pid/status. A line that names VmRSS has a number.
unfoldable pub vmrss_kb : List Text → Option ℕ
unfolding starts_with int_field words
vmrss_kb [] = none
vmrss_kb (line ∷ lines) =
    let rest = vmrss_kb lines in
    if starts_with line (codes "VmRSS:") then int_field (words line) 1 else rest

-- Ticks of the user and system time, and the wall clock.
pub record Ticks : Type 0 where
  pub user : ℕ
  pub system : ℕ
  pub wall : ℕ

pub record ProcSampler (F : Type 0) : Type 0 where
  pub peak_rss_bytes : ℕ
  pub cpu_pct_samples : List F
  pub first_ticks : Option Ticks
  pub last_ticks : Option Ticks

abbrev pub new_sampler : {F : Type 0} → ProcSampler F
new_sampler = record {
  peak_rss_bytes = 0;
  cpu_pct_samples = [];
  first_ticks = none;
  last_ticks = none;
}

-- The constants `_PAGE_SIZE`, `_CLK_TCK` and `_NCPU` of the machine.
pub record Machine : Type 0 where
  pub page_size : ℕ
  pub clk_tck : ℕ
  pub ncpu : ℕ

-- What one poll reads: the stat file, VmRSS, and the clock.
pub record Reading : Type 0 where
  pub stat : Option Stat
  pub kb : Option ℕ
  pub now : ℕ

pub record ResourceSummary (F : Type 0) : Type 0 where
  pub samples : ℕ
  pub duration_s : F
  pub peak_rss_bytes : ℕ
  pub mean_cpu_pct : F
  pub peak_cpu_pct : F
  pub cpu_pct_normalised : F

unfoldable pub rss_bytes : Machine → Option ℕ → Stat → ℕ
rss_bytes m (some kb) s = kb * 1024
rss_bytes m none s = s.rss_pages * m.page_size

module _ (fl : Floats) (m : Machine) where
  open fl use {F, of_nat, ratio, add, sub, mul, div, lt}

  unfoldable pub seconds : ℕ → F
  seconds ns = ratio ns 1_000_000_000

  -- Percent of one core between two polls.
  unfoldable pub cpu_pct : Ticks → Ticks → F
  unfolding seconds
  cpu_pct before now =
      mul
        (div
          (div (sub (of_nat (now.user + now.system)) (of_nat (before.user + before.system)))
            (of_nat m.clk_tck))
          (seconds (now.wall - before.wall)))
        (of_nat 100)

  unfoldable pub tick : ProcSampler F → Ticks → ProcSampler F
  unfolding cpu_pct
  tick s now = elim s.last_ticks [
    | none ↦ record s { first_ticks = some now; last_ticks = some now }
    | some before ↦ record s {
      cpu_pct_samples =
          if ltb before.wall now.wall
          then s.cpu_pct_samples ++ (cpu_pct before now ∷ [])
          else s.cpu_pct_samples;
      last_ticks = some now;
    }
  ]

  unfoldable pub raise_peak : ProcSampler F → ℕ → ProcSampler F
  raise_peak s rss = if ltb s.peak_rss_bytes rss then record s { peak_rss_bytes = rss } else s

  -- `_sample_once`. The first poll sets both ticks, so that one is set exactly if the other is.
  unfoldable pub sample_once : ProcSampler F → Reading → ProcSampler F
  unfolding tick raise_peak rss_bytes
  sample_once s r = elim r.stat [
    | none ↦ s
    | some st ↦
        tick (raise_peak s (rss_bytes m r.kb st))
          (record { user = st.utime; system = st.stime; wall = r.now })
  ]

  -- `_loop` over the polls until `stop`.
  unfoldable pub sample_all : ProcSampler F → List Reading → ProcSampler F
  unfolding sample_once
  sample_all s [] = s
  sample_all s (r ∷ rs) = sample_all (sample_once s r) rs

  unfoldable pub sampled_duration : Option Ticks → Option Ticks → F
  unfolding seconds
  sampled_duration (some t0) (some t1) =
      let d = seconds (t1.wall - t0.wall) in
      if lt d (ratio 1 1_000_000) then ratio 1 1_000_000 else d
  sampled_duration _ _ = of_nat 0

  abbrev mean_cpu : List F → F
  mean_cpu [] = of_nat 0
  mean_cpu (x ∷ xs) = div (sum_from fl (of_nat 0) (x ∷ xs)) (of_nat (length (x ∷ xs)))

  abbrev peak_cpu : List F → F
  peak_cpu [] = of_nat 0
  peak_cpu (x ∷ xs) = max_from fl x xs

  unfoldable pub summary : ProcSampler F → ResourceSummary F
  unfolding sampled_duration
  summary s = record {
    samples = length s.cpu_pct_samples;
    duration_s = sampled_duration s.first_ticks s.last_ticks;
    peak_rss_bytes = s.peak_rss_bytes;
    mean_cpu_pct = mean_cpu s.cpu_pct_samples;
    peak_cpu_pct = peak_cpu s.cpu_pct_samples;
    cpu_pct_normalised = div (mean_cpu s.cpu_pct_samples) (of_nat m.ncpu);
  }
