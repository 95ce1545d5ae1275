-- ===== src/Sampler/Peak.antt =====
-- The memory peak that the sampler reports.
use zk_arche_compare.Base.{
  ℕ, ◌≤◌, ◌≡◌, refl, ap, sym, Option, none, some, List, [], ◌∷◌, All, arith, keep_some, ltb,
  if◌then◌else◌, Option-cases, inl, inr, ◌⊎◌,
}
use mathlib.Core.Path.{subst}
use zk_arche_compare.Floats.{Floats}
use zk_arche_compare.Sampler.{
  Machine, Reading, ProcSampler, Stat, Ticks, rss_bytes, tick, raise_peak, sample_once, sample_all,
}

-- The memory that a poll sees, `none` where the process is gone.
abbrev pub rss_of : Machine → Reading → Option ℕ
rss_of m r = elim r.stat [ none ↦ none | some s ↦ some (rss_bytes m r.kb s) ]

abbrev pub Has : List ℕ → ℕ → Type 0
Has [] x = ⊥
Has (y ∷ ys) x = (y ≡ x) ⊎ Has ys x

-- `p` bounds the peak so far and the polls, and is one of them.
abbrev pub IsPeak : ℕ → ℕ → List ℕ → Type 0
IsPeak p p0 seen = All (λ x. x ≤ p) (p0 ∷ seen) × Has (p0 ∷ seen) p

IsPeak-raised :
    (p p0 x : ℕ) (seen : List ℕ)
    → IsPeak p (if ltb p0 x then x else p0) seen
    → IsPeak p p0 (x ∷ seen)
IsPeak-raised p p0 x seen ((le, all), has) = ((ground arith, (ground arith, all)), pick has)
  where
    pick : Has ((if ltb p0 x then x else p0) ∷ seen) p → Has (p0 ∷ x ∷ seen) p
    pick (inl e) = ground arith
    pick (inr h) = inr (inr h)

module _ (fl : Floats) (m : Machine) where
  tick-peak : (s : ProcSampler fl.F) (t : Ticks) → (tick fl m s t).peak_rss_bytes ≡ s.peak_rss_bytes
  unfolding tick
  tick-peak s t = ground arith

  raise_peak-peak :
      (s : ProcSampler fl.F) (x : ℕ)
      → (raise_peak fl m s x).peak_rss_bytes
        ≡ (if ltb s.peak_rss_bytes x then x else s.peak_rss_bytes)
  unfolding raise_peak
  raise_peak-peak s x = ground arith

  sample_once-gone : (s : ProcSampler fl.F) (r : Reading) → r.stat ≡ none → sample_once fl m s r ≡ s
  unfolding sample_once
  sample_once-gone s r e = rw e refl

  sample_once-peak :
      (s : ProcSampler fl.F) (r : Reading) (st : Stat)
      → r.stat ≡ some st
      → (sample_once fl m s r).peak_rss_bytes ≡ (
          if ltb s.peak_rss_bytes (rss_bytes m r.kb st)
          then rss_bytes m r.kb st
          else s.peak_rss_bytes)
  unfolding sample_once
  sample_once-peak s r st e =
      rw
        (
          e,
          tick-peak (raise_peak fl m s (rss_bytes m r.kb st))
              (record { user = st.utime; system = st.stime; wall = r.now }),
          raise_peak-peak s (rss_bytes m r.kb st),
        )
        refl

  -- After any polls, the peak is at least the memory of every poll that found the process and at
  -- least the peak before, and it is one of these.
  pub sample_all-IsPeak :
      (s : ProcSampler fl.F) (rs : List Reading)
      → IsPeak (sample_all fl m s rs).peak_rss_bytes s.peak_rss_bytes (keep_some (rss_of m) rs)
  unfolding sample_all
  sample_all-IsPeak s [] = ((omega arith, tt), inl refl)
  sample_all-IsPeak s (r ∷ rs) =
      let later = sample_all-IsPeak (sample_once fl m s r) rs in
      split r.stat (elim (Option-cases r.stat) [
        | inl e ↦ subst seen (sym e) (
            subst (λ q. IsPeak peak q (keep_some (rss_of m) rs))
              (ap (λ t. t.peak_rss_bytes) (sample_once-gone s r e)) later)
        | inr (st, e) ↦ subst seen (sym e) (
            IsPeak-raised peak s.peak_rss_bytes (rss_bytes m r.kb st) (keep_some (rss_of m) rs) (
              subst (λ q. IsPeak peak q (keep_some (rss_of m) rs)) (sample_once-peak s r st e)
                later))
      ])
    where
      peak : ℕ
      peak = (sample_all fl m (sample_once fl m s r) rs).peak_rss_bytes

      polled : Option Stat → List ℕ
      polled none = keep_some (rss_of m) rs
      polled (some t) = rss_bytes m r.kb t ∷ keep_some (rss_of m) rs

      seen : Option Stat → Type 0
      seen o = IsPeak peak s.peak_rss_bytes (polled o)

      split :
          (o : Option Stat)
          → seen o
          → IsPeak peak s.peak_rss_bytes
              (elim (elim o as (λ _. Option ℕ) [ none ↦ none | some t ↦ some (rss_bytes m r.kb t) ])
                as (λ _. List ℕ) [
                  | none ↦ keep_some (rss_of m) rs
                  | some y ↦ y ∷ keep_some (rss_of m) rs
                ])
      split none h = h
      split (some t) h = h
