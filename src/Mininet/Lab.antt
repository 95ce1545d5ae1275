-- ===== src/Mininet/Lab.antt =====
-- experiments/mininet/mininet_tests_123.py: what the runner shares with the machine and the emulated
-- network. A lab is the file tree and the clock, the environment, and all that the runner has done, the
-- newest first. Mininet, the random numbers and the programs are the record Kit: each answer may
-- depend on all that has happened.
pub mod Keeps
pub mod Returns
use zk_arche_compare.Base.{
  ℕ, suc, ◌+◌, Bool, true, false, Option, none, some, List, [], ◌∷◌, Text, text_eq, Error, Failure,
  Result, ok, raised, length, if◌then◌else◌,
}
use zk_arche_compare.Floats.{Floats}
use zk_arche_compare.World.{FilePath, Files, World, Io, put_env}

pub data Act : Type 0 where
  -- `net.start()` and `net.stop()`
  started stopped : Act
  -- `host.cmd(command)`
  ran : Text → Text → Act
  -- `host.popen(command)`, under the number of the process
  opened : ℕ → Text → Text → Act
  -- `communicate`, `terminate`, `poll` and `kill` of a process
  communicated terminated polled killed : ℕ → Act
  -- a program on the machine itself, with its working directory
  ran_local : Text → Option FilePath → Act
  slept : ℕ → Act
  -- `random.seed(n)`, and a draw of a random number
  seeded : ℕ → Act
  drew : Act

pub record Lab : Type 0 where
  pub world : World
  pub environ : List (Text × Text)
  pub acts : List Act

pub record Kit : Type 1 where
  pub fl : Floats
  -- `round(x, n)`, `str(x)` and `f"{x:.4f}"`
  pub round_to : ℕ → fl.F → fl.F
  pub show_float : fl.F → Text
  -- `random.uniform`; the index that `random.choices` takes for the weights, and `random.choice` for
  -- a number of options; `random.randint`
  pub uniform : Lab → fl.F → fl.F → fl.F
  pub weighted : Lab → List fl.F → ℕ
  pub choice : Lab → ℕ → ℕ
  pub randint : Lab → ℕ → ℕ → ℕ
  -- how long an act takes in nanoseconds, the files that it leaves, and the exception that it raises
  pub takes : Lab → Act → ℕ
  pub leaves : Lab → Act → Files
  pub fails : Lab → Act → Option Failure
  -- the output of a command and of a process on a host
  pub answers : Lab → Text → Text → Text
  pub prints : Lab → ℕ → Text
  -- `p.poll() is None`
  pub runs_on : Lab → ℕ → Bool
  -- exit status and output of a program on the machine; the DER bytes that openssl makes of a
  -- certificate, `none` if it fails; `hashlib.sha256(der).hexdigest()`
  pub local_output : Lab → Text → Option FilePath → ℕ × Text
  pub der : Lab → FilePath → Option (List ℕ)
  pub sha256_hex : List ℕ → Text
  -- `str(path)`
  pub show_path : FilePath → Text

abbrev pub M {ℓ} : Type ℓ → Type ℓ
M A = Lab → Result A × Lab

module _ {ℓ} {A : Type ℓ} where
  abbrev pub pure : A → M A
  pure a lab = (ok a, lab)

  abbrev pub raise : Error → M A
  raise e lab = (raised e, lab)

  abbrev pub lift : Result A → M A
  lift r lab = (r, lab)

module _ {ℓ κ} {A : Type ℓ} {B : Type κ} where
  abbrev pub continue : Result A → (A → M B) → M B
  continue (ok a) f lab = f a lab
  continue (raised e) f lab = (raised e, lab)

  infixl 5 ◌>>=◌
  abbrev pub ◌>>=◌ : M A → (A → M B) → M B
  ◌>>=◌ m f lab = continue (m lab).0 f (m lab).1

infixl 5 ◌>>◌
abbrev pub ◌>>◌ {ℓ} : {B : Type ℓ} → M (Unit {0}) → M B → M B
m >> k = m >>= λ _. k

abbrev pub when : Bool → M (Unit {0}) → M (Unit {0})
when b m = if b then m else pure tt

-- `[f(x) for x in xs]`, for a call that may raise
abbrev pub each {ℓ κ} : {A : Type ℓ} {B : Type κ} → (A → M B) → List A → M (List B)
each f [] = pure []
each f (x ∷ xs) = do y ← f x; ys ← each f xs; pure (y ∷ ys)

-- `enumerate(xs, i)`
abbrev pub enumerate {ℓ} : {A : Type ℓ} → ℕ → List A → List (ℕ × A)
enumerate i [] = []
enumerate i (x ∷ xs) = (i, x) ∷ enumerate (suc i) xs

-- An action on the file tree.
abbrev pub files {ℓ} : {A : Type ℓ} → Io A → M A
files m lab = ((m lab.world).0, record lab { world = (m lab.world).1 })

-- `try: m  except Exception: pass`, for an `m` that makes calls of Mininet only: they raise no
-- `SystemExit`.
abbrev pub ignored : M (Unit {0}) → Lab → Lab
ignored m lab = (m lab).1

-- `time.perf_counter()`, in nanoseconds
abbrev pub perf_counter : M ℕ
perf_counter lab = (ok lab.world.clock, lab)

abbrev pub act : (Lab → Lab) → M (Unit {0})
act f lab = (ok tt, f lab)

-- `os.environ[k] = v`
unfoldable pub set_environ : Text → Text → Lab → Lab
set_environ k v lab = record lab { environ = put_env k v lab.environ }

module _ (kit : Kit) where
  -- What an act does, whether it raises or not.
  unfoldable pub perform : Act → Lab → Lab
  perform a lab = record lab {
    world = record lab.world {
      files = kit.leaves lab a;
      clock = lab.world.clock + kit.takes lab a;
    };
    acts = a ∷ lab.acts;
  }

  abbrev pub failed : Option Failure → Result (Unit {0})
  failed none = ok tt
  failed (some e) = raised e.0

  -- An act of Mininet, which may raise.
  unfoldable pub attempt : Act → M (Unit {0})
  attempt a lab = (failed (kit.fails lab a), perform a lab)

  -- `time.sleep`
  unfoldable pub sleep : ℕ → Lab → Lab
  sleep ns lab = perform (slept ns) lab

  -- `host.cmd(command)`
  unfoldable pub host_cmd : Text → Text → M Text
  host_cmd host command lab =
      continue (attempt (ran host command) lab).0 (λ _. pure (kit.answers lab host command))
        (attempt (ran host command) lab).1

  -- `host.popen(command, ...)`: a new process, numbered by what has been done before.
  unfoldable pub host_open : Text → Text → M ℕ
  host_open host command lab =
      let p = length lab.acts in
      continue (attempt (opened p host command) lab).0 (λ _. pure p)
        (attempt (opened p host command) lab).1

  abbrev drawn : Lab → Lab
  drawn lab = record lab { acts = drew ∷ lab.acts }

  -- `random.uniform(lo, hi)`
  unfoldable pub draw_uniform : kit.fl.F → kit.fl.F → M kit.fl.F
  draw_uniform lo hi lab = (ok (kit.uniform lab lo hi), drawn lab)

  -- The index of `random.choices` or `random.choice`, and the number of `random.randint`
  unfoldable pub draw_index : (Lab → ℕ) → M ℕ
  draw_index pick lab = (ok (pick lab), drawn lab)
