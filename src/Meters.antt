-- ===== src/Meters.antt =====
-- benchmarks/lib/config.py: the device profile, the test sizes and the choice of a power meter, with
-- the detection of an INA sensor of benchmarks/lib/pmic.py. The sorted entries of /sys/class/hwmon are
-- an argument, empty where the directory is missing.
pub mod Usable
use zk_arche_compare.Base.{
  ℕ, Bool, true, false, ◌||◌, ◌&&◌, not, Option, none, some, List, [], ◌∷◌, ◌++◌, Text, codes,
  text_eq, is_space, Result, ok, raised, Error, os_error, system_exit, value_error, ◌==◌,
  if◌then◌else◌,
}
use zk_arche_compare.Floats.{Floats}
use zk_arche_compare.Strings.{strip, lstrip, rstrip, lower, contains, starts_with, int_of, show_nat}
use zk_arche_compare.World.{FilePath, World, Node, dir, file}
use zk_arche_compare.World.Files.{exists}
use zk_arche_compare.Results.{DevicePowerProfile}

-- `os.environ.get(name)`
unfoldable pub get_env : Text → List (Text × Text) → Option Text
unfolding text_eq
get_env name [] = none
get_env name ((k, v) ∷ env) = let rest = get_env name env in if text_eq k name then some v else rest

-- `_env_int`; the sizes have no sign.
unfoldable pub env_int : List (Text × Text) → Text → ℕ → Result ℕ
unfolding get_env int_of text_eq
env_int env name default = elim (get_env name env) [
  | none ↦ ok default
  | some v ↦
      if text_eq v []
      then ok default
      else elim (int_of v) [ none ↦ raised value_error | some n ↦ ok n ]
]

-- `os.environ.get(name, default).strip().lower()`
unfoldable pub env_word : List (Text × Text) → Text → Text → Text
unfolding get_env strip lower
env_word env name default = elim (get_env name env) [
  | none ↦ lower (strip default)
  | some v ↦ lower (strip v)
]

module _ (fl : Floats) where
  open fl use {F, of_nat, ratio}

  pi3bplus : DevicePowerProfile F
  pi3bplus = record {
    name = codes "Raspberry Pi 3B+";
    idle_w = of_nat 2;
    max_w = ratio 37 10;
    cpu_cores = 4;
  }

  pi4 : DevicePowerProfile F
  pi4 = record {
    name = codes "Raspberry Pi 4 (4GB)";
    idle_w = ratio 285 100;
    max_w = ratio 64 10;
    cpu_cores = 4;
  }

  pi5 : DevicePowerProfile F
  pi5 = record {
    name = codes "Raspberry Pi 5 (8GB)";
    idle_w = of_nat 3;
    max_w = of_nat 8;
    cpu_cores = 4;
  }

  -- `os.cpu_count() or 4` is the machine's.
  generic : ℕ → DevicePowerProfile F
  generic cores = record {
    name = codes "Generic Linux Host";
    idle_w = of_nat 10;
    max_w = of_nat 45;
    cpu_cores = cores;
  }

  -- `_DEVICE_PROFILES.get(name)`
  unfoldable pub device_profile : ℕ → Text → Option (DevicePowerProfile F)
  unfolding pi3bplus pi4 pi5 generic text_eq
  device_profile cores name =
      if text_eq name (codes "pi3bplus")
      then some pi3bplus
      else if text_eq name (codes "pi4")
      then some pi4
      else if text_eq name (codes "pi5")
      then some pi5
      else if text_eq name (codes "generic")
      then some (generic cores)
      else none

  -- The profile of a model's name.
  unfoldable pub model_profile : ℕ → Text → DevicePowerProfile F
  unfolding pi3bplus pi4 pi5 generic contains
  model_profile cores model =
      if contains (codes "raspberry pi 5") model
      then pi5
      else if contains (codes "raspberry pi 4") model
      then pi4
      else if contains (codes "raspberry pi 3") model && contains (codes "+") model
      then pi3bplus
      else generic cores

  -- The text of /proc/device-tree/model, as it is compared; it is empty where it cannot be read.
  unfoldable pub model_text : Option Node → Text
  unfolding lstrip rstrip strip lower
  model_text none = []
  model_text (some dir) = []
  model_text (some (file t)) = lower (strip (rstrip (λ c. c == 0) (lstrip (λ c. c == 0) t)))

  unfoldable pub detect_device : List (Text × Text) → ℕ → World → DevicePowerProfile F
  unfolding env_word device_profile model_profile model_text
  detect_device env cores w = elim (device_profile cores (env_word env (codes "ZKB_DEVICE") [])) [
    | some p ↦ p
    | none ↦
        model_profile cores
          (model_text (w.files (codes "model" ∷ codes "device-tree" ∷ codes "proc" ∷ [])))
  ]

-- The meter that was chosen; an INA sensor with its channel.
pub data Meter : Type 0 where
  static pmic : Meter
  hwmon : FilePath → ℕ → Meter

abbrev pub power_input : FilePath → ℕ → FilePath
power_input hwmon_dir ch = (codes "power" ++ show_nat ch ++ codes "_input") ∷ hwmon_dir

abbrev pub curr_input : FilePath → ℕ → FilePath
curr_input hwmon_dir ch = (codes "curr" ++ show_nat ch ++ codes "_input") ∷ hwmon_dir

abbrev pub in_input : FilePath → ℕ → FilePath
in_input hwmon_dir ch = (codes "in" ++ show_nat ch ++ codes "_input") ∷ hwmon_dir

unfoldable pub has_channel : FilePath → World → ℕ → Bool
has_channel hwmon_dir w ch =
    exists (power_input hwmon_dir ch) w
    || (exists (curr_input hwmon_dir ch) w && exists (in_input hwmon_dir ch) w)

-- `for ch in (1, 2, 3, 4)`; a `FileNotFoundError` is an `OSError`.
unfoldable pub first_channel : FilePath → World → List ℕ → Result ℕ
first_channel hwmon_dir w [] = raised os_error
first_channel hwmon_dir w (ch ∷ chs) =
    let rest = first_channel hwmon_dir w chs in if has_channel hwmon_dir w ch then ok ch else rest

unfoldable pub detect_channel : FilePath → World → Result ℕ
unfolding first_channel
detect_channel hwmon_dir w = first_channel hwmon_dir w (1 ∷ 2 ∷ 3 ∷ 4 ∷ [])

-- The name file of an entry, and whether its bytes are UTF-8: a `UnicodeDecodeError`, which is a
-- `ValueError`, is raised if they are not. A file that cannot be read is passed over.
unfoldable pub is_ina : Bool → Option Node → Result Bool
unfolding starts_with lower strip
is_ina decodes (some (file t)) =
    if decodes then ok (starts_with (lower (strip t)) (codes "ina2")) else raised value_error
is_ina decodes _ = ok false

abbrev pub first_ina : FilePath → Result Bool → Result (Option FilePath) → Result (Option FilePath)
first_ina entry (raised e) rest = raised e
first_ina entry (ok true) rest = ok (some entry)
first_ina entry (ok false) rest = rest

-- Which files are UTF-8.
abbrev pub Decodes : Type 0
Decodes = FilePath → Bool

-- The first entry whose name starts with "ina2".
unfoldable pub find_ina : Decodes → List FilePath → World → Result (Option FilePath)
find_ina decodes [] w = ok none
find_ina decodes (entry ∷ entries) w =
    let name_file = codes "name" ∷ entry in
    first_ina entry (is_ina (decodes name_file) (w.files name_file)) (find_ina decodes entries w)

abbrev pub sensor : FilePath → Result ℕ → Result (Option Meter)
sensor hwmon_dir (ok ch) = ok (some (hwmon hwmon_dir ch))
sensor hwmon_dir (raised e) = raised e

abbrev pub found_ina : Result (Option FilePath) → World → Result (Option Meter)
found_ina (raised e) w = raised e
found_ina (ok none) w = ok none
found_ina (ok (some hwmon_dir)) w = sensor hwmon_dir (detect_channel hwmon_dir w)

-- `HwmonInaMeter.autodetect`: the meter detects its channel when it is made.
unfoldable pub autodetect : Decodes → List FilePath → World → Result (Option Meter)
autodetect decodes entries w = found_ina (find_ina decodes entries w) w

abbrev pub forced_hwmon : Result (Option Meter) → Result Meter
forced_hwmon (ok none) = raised system_exit
forced_hwmon (ok (some m)) = ok m
forced_hwmon (raised e) = raised e

abbrev pub or_static : Result (Option Meter) → Result Meter
or_static (ok none) = ok static
or_static (ok (some m)) = ok m
or_static (raised e) = raised e

-- `make_power_meter`, with what `VcgencmdPmicMeter.is_available` says.
unfoldable pub make_power_meter :
    List (Text × Text) → Bool → Decodes → List FilePath → World → Result Meter
unfolding env_word text_eq
make_power_meter env available decodes entries w =
    let forced = env_word env (codes "ZKB_POWER_METER") (codes "auto") in
    if text_eq forced (codes "static")
    then ok static
    else if text_eq forced (codes "pmic")
    then (if available then ok pmic else raised system_exit)
    else if text_eq forced (codes "hwmon")
    then forced_hwmon (autodetect decodes entries w)
    else if available
    then ok pmic
    else or_static (autodetect decodes entries w)
