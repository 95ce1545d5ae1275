-- ===== src/Meters/Usable.antt =====
-- The meter that is chosen can be read.
use zk_arche_compare.Base.{
  ℕ, ◌≡◌, Bool, true, Option, none, some, ◌∷◌, codes, Result, Error, ok, raised, os_error,
  system_exit, ◌⊎◌,
}
use zk_arche_compare.World.{FilePath, World}
use zk_arche_compare.Meters.{
  Meter, static, pmic, hwmon, has_channel, detect_channel, is_ina, Decodes,
}

module _ (decodes : Decodes) (available : Bool) (w : World) where
  -- What the name file of an entry says of it.
  abbrev pub named_ina : FilePath → Result Bool
  named_ina d = is_ina (decodes (codes "name" ∷ d)) (w.files (codes "name" ∷ d))

  -- The PMIC answers; the sensor is an INA among the entries and has the files of its channel.
  abbrev pub IsUsable : Meter → Type 0
  IsUsable static = Unit
  IsUsable pmic = available ≡ true
  IsUsable (hwmon d ch) = (named_ina d ≡ ok true) × (has_channel d w ch ≡ true)

  -- An INA has no channel, or the name file of an entry cannot be decoded.
  abbrev pub IsStuck : Error → Type 0
  IsStuck e =
      ((d : FilePath) × (named_ina d ≡ ok true)
        × (detect_channel d w ≡ raised os_error)
        × (e ≡ os_error))
      ⊎ ((d : FilePath) × (named_ina d ≡ raised e))

  -- A meter that is usable, or why there is none.
  abbrev pub Chosen : Result Meter → Type 0
  Chosen (ok m) = IsUsable m
  Chosen (raised e) = (e ≡ system_exit) ⊎ IsStuck e

  abbrev Detected : Result (Option Meter) → Type 0
  Detected (ok none) = Unit
  Detected (ok (some m)) = IsUsable m
  Detected (raised e) = IsStuck e

  abbrev HasChannel : FilePath → Result ℕ → Type 0
  HasChannel d (ok ch) = has_channel d w ch ≡ true
  HasChannel d (raised e) = e ≡ os_error

  abbrev FoundIna : Result (Option FilePath) → Type 0
  FoundIna (ok none) = Unit
  FoundIna (ok (some d)) = named_ina d ≡ ok true
  FoundIna (raised e) = (d : FilePath) × (named_ina d ≡ raised e)
