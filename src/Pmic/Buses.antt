-- ===== src/Pmic/Buses.antt =====
-- Bus voltages are no loads: their lines do not count.
use zk_arche_compare.Base.{
  ℕ, ◌≡◌, refl, sym, ap, ◌∙◌, true, false, not, some, List, [], ◌∷◌, ◌++◌, Text, text_eq,
  text_eq_iff, keep, arith, Bool-cases, Option-cases, inl, inr, if◌then◌else◌,
}
use zk_arche_compare.Floats.{Floats}
use zk_arche_compare.Pmic.{
  Adc, put, lookup, is_bus, store, adc_line, adc_step, adc_read, plus_rail, total_power, adc_power,
  empty_adc,
}

same-bus : (j k : Text) → text_eq j k ≡ true → is_bus j ≡ is_bus k
same-bus j k h = ap is_bus ((text_eq_iff j k).0 h)

module _ {F : Type 0} where
  -- The entries of a dictionary that are no bus.
  abbrev loads : List (Text × F) → List (Text × F)
  loads = keep λ e. not (is_bus e.0)

  loads-load :
      (k : Text) (v : F) (d : List (Text × F))
      → is_bus k ≡ false
      → loads ((k, v) ∷ d) ≡ (k, v) ∷ loads d
  loads-load k v d h = rw h refl

  loads-put :
      (k : Text) (v : F) (d : List (Text × F))
      → loads (put k v d) ≡ (if is_bus k then loads d else put k v (loads d))
  unfolding put
  loads-put k v [] = elim (Bool-cases (is_bus k)) [ inl e ↦ rw e refl | inr e ↦ rw e refl ]
  loads-put k v ((j, u) ∷ d) = elim (Bool-cases (text_eq j k)) [
    | inl same ↦ ground (arith, same, same-bus j k same)
    | inr other ↦ ground (arith, other, loads-put k v d)
  ]

  lookup-loads :
      (k : Text) (d : List (Text × F)) → is_bus k ≡ false → lookup k (loads d) ≡ lookup k d
  unfolding lookup
  lookup-loads k [] h = refl
  lookup-loads k ((j, u) ∷ d) h = elim (Bool-cases (text_eq j k)) [
    | inl same ↦ ground (arith, same, same-bus j k same)
    | inr other ↦ ground (arith, other, lookup-loads k d h)
  ]

  -- Two readings with the same loads.
  abbrev SameLoads : Adc F → Adc F → Type 0
  SameLoads a b = (loads a.currents ≡ loads b.currents) × (loads a.voltages ≡ loads b.voltages)

  put-cong :
      (k : Text) (v : F) (d e : List (Text × F))
      → loads d ≡ loads e
      → loads (put k v d) ≡ loads (put k v e)
  put-cong k v d e h = rw (loads-put k v d, loads-put k v e, h) refl

  store-SameLoads :
      (kind : ℕ) (rail : Text) (value : F) (a b : Adc F)
      → SameLoads a b
      → SameLoads (store kind rail value a) (store kind rail value b)
  unfolding store
  store-SameLoads kind rail value a b (c, v) = (
    ground (arith, c, put-cong rail value a.currents b.currents c),
    ground (arith, v, put-cong rail value a.voltages b.voltages v),
  )

  put-bus : (k : Text) (v : F) (d : List (Text × F)) → is_bus k ≡ true → loads (put k v d) ≡ loads d
  put-bus k v d h = loads-put k v d ∙ rw h refl

  store-bus :
      (kind : ℕ) (rail : Text) (value : F) (a : Adc F)
      → is_bus rail ≡ true
      → SameLoads (store kind rail value a) a
  unfolding store
  store-bus kind rail value a h = (
    ground (arith, put-bus rail value a.currents h),
    ground (arith, put-bus rail value a.voltages h),
  )

module _ (fl : Floats) where
  open fl use {F}

  adc_step-SameLoads :
      (a b : Adc F) (line : Text)
      → SameLoads a b
      → SameLoads (adc_step fl a line) (adc_step fl b line)
  unfolding adc_step
  adc_step-SameLoads a b line h = elim (Option-cases (adc_line fl line)) [
    | inl e ↦ rw (e, adc_step) h
    | inr ((kind, rail, value), e) ↦ rw (e, adc_step) (store-SameLoads kind rail value a b h)
  ]

  adc_read-SameLoads :
      (a b : Adc F) (lines : List Text)
      → SameLoads a b
      → SameLoads (adc_read fl a lines) (adc_read fl b lines)
  unfolding adc_read
  adc_read-SameLoads a b [] h = h
  adc_read-SameLoads a b (line ∷ lines) h =
      adc_read-SameLoads (adc_step fl a line) (adc_step fl b line) lines
        (adc_step-SameLoads a b line h)

  adc_read-append :
      (a : Adc F) (xs ys : List Text) → adc_read fl a (xs ++ ys) ≡ adc_read fl (adc_read fl a xs) ys
  unfolding adc_read
  adc_read-append a [] ys = refl
  adc_read-append a (x ∷ xs) ys = adc_read-append (adc_step fl a x) xs ys

  plus_rail-loads :
      (vs : List (Text × F)) (rail : Text) (amps total : F)
      → is_bus rail ≡ false
      → plus_rail fl (loads vs) rail amps total ≡ plus_rail fl vs rail amps total
  unfolding plus_rail
  plus_rail-loads vs rail amps total h = rw (h, lookup-loads rail vs h) refl

  total_power-loads :
      (vs : List (Text × F)) (total : F) (cs : List (Text × F))
      → total_power fl vs total cs ≡ total_power fl (loads vs) total (loads cs)
  unfolding total_power
  total_power-loads vs total [] = refl
  total_power-loads vs total ((rail, amps) ∷ cs) = elim (Bool-cases (is_bus rail)) [
    | inl e ↦ rw (e, plus_rail) (total_power-loads vs total cs)
    | inr e ↦
        total_power-loads vs (plus_rail fl vs rail amps total) cs
        ∙ ap (λ t. total_power fl (loads vs) t (loads cs))
            (sym (plus_rail-loads vs rail amps total e))
        ∙ ap (total_power fl (loads vs) total) (sym (loads-load rail amps cs e))
  ]

  power-SameLoads :
      (a b : Adc F) (t : F)
      → SameLoads a b
      → total_power fl a.voltages t a.currents ≡ total_power fl b.voltages t b.currents
  power-SameLoads a b t (c, v) =
      total_power-loads a.voltages t a.currents
      ∙ ap (λ vs. total_power fl vs t (loads a.currents)) v
      ∙ ap (λ cs. total_power fl (loads b.voltages) t cs) c
      ∙ sym (total_power-loads b.voltages t b.currents)

  adc_step-bus :
      (a : Adc F) (line : Text) (kind : ℕ) (rail : Text) (value : F)
      → adc_line fl line ≡ some (kind, rail, value)
      → is_bus rail ≡ true
      → SameLoads (adc_step fl a line) a
  unfolding adc_step
  adc_step-bus a line kind rail value e h = rw (e, adc_step) (store-bus kind rail value a h)

  -- A line that gives the current or the voltage of a bus rail does not change the power that is
  -- read, wherever it stands in the output and whatever its value is.
  pub adc_power-bus :
      (before after : List Text) (line : Text) {kind : ℕ} {rail : Text} {value : F}
      → adc_line fl line ≡ some (kind, rail, value)
      → is_bus rail ≡ true
      → adc_power fl (before ++ (line ∷ after)) ≡ adc_power fl (before ++ after)
  unfolding adc_power adc_read
  adc_power-bus before after line {kind} {rail} {value} e h =
      let a = adc_read fl empty_adc before in
      rw (adc_read-append empty_adc before (line ∷ after), adc_read-append empty_adc before after)
        (power-SameLoads (adc_read fl (adc_step fl a line) after) (adc_read fl a after)
          (fl.of_nat 0)
          (adc_read-SameLoads (adc_step fl a line) a after
            (adc_step-bus a line kind rail value e h)))
