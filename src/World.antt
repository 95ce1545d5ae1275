-- ===== src/World.antt =====
-- What the harness shares with the operating system: the file tree, the monotonic clock in
-- nanoseconds, and the log of the calls that concern its server processes, the newest first.
-- A call returns a value or raises, and leaves a world either way.
pub mod Live
pub mod Files
pub mod Keeps
pub mod Ends
use zk_arche_compare.Base.{
  ℕ, ◌+◌, ◌*◌, Bool, true, false, Option, none, some, List, [], ◌∷◌, Text, text_eq, Error, Failure,
  Result, ok, raised, os_error, ◌&&◌, ◌||◌, if◌then◌else◌,
}

-- A path, its last component first: `p / name` is `name ∷ p`.
abbrev pub FilePath : Type 0
FilePath = List Text

pub data Node : Type 0 where
  dir : Node
  file : Text → Node

abbrev pub Files : Type 0
Files = FilePath → Option Node

pub data Event : Type 0 where
  -- `subprocess.Popen`
  spawned : ℕ → FilePath → List Text → Event
  -- SIGTERM to the process group
  terminated : ℕ → Event
  -- `poll` or `wait` saw the end of the process; it was gone at `killpg`; it was sent SIGKILL
  exited gone killed : ℕ → Event

pub record World : Type 0 where
  pub files : Files
  pub clock : ℕ
  pub log : List Event

-- One call of a program to its end.
pub record Command : Type 0 where
  pub binary : FilePath
  pub args : List Text
  pub cwd : FilePath
  pub env : List (Text × Text)

-- `subprocess.TimeoutExpired`, or the exit status with the decoded stdout and stderr.
pub data Completion : Type 0 where
  timed_out : Completion
  completed : ℕ → Text → Text → Completion

-- How an attempt to connect ends: a connection, an `OSError`, or another exception, which is no `SystemExit`.
pub data Dial : Type 0 where
  connected refused : Dial
  unable : Failure → Dial

-- The rest of the machine. Each answer may depend on all that has happened.
pub record Os : Type 0 where
  pub environ : List (Text × Text)
  -- the process id of the next process
  pub pid : World → ℕ
  -- how an attempt to connect to the host and port ends, and how long it takes
  pub dials : World → Text → ℕ → Dial
  pub dial_ns : World → ℕ
  -- how much longer than asked a sleep lasts
  pub oversleep_ns : World → ℕ
  -- `proc.poll() is not None`; `os.getpgid` finds the process; `proc.wait(timeout)` returns, and how
  -- long it takes to return or to time out
  pub polls : World → ℕ → Bool
  pub found : World → ℕ → Bool
  pub waits : World → ℕ → ℕ → Bool
  pub wait_ns : World → ℕ → ℕ → ℕ
  -- can the program be started at all: is it there, and may it be executed
  pub launches : World → Command → Bool
  -- a program that runs to its end or to the time limit: how it ends, how long it takes, and the
  -- files that it leaves
  pub completes : World → Command → ℕ → Completion
  pub run_ns : World → Command → ℕ → ℕ
  pub leaves : World → Command → Files

abbrev pub Io {ℓ} : Type ℓ → Type ℓ
Io A = World → Result A × World

module _ {ℓ} {A : Type ℓ} where
  abbrev pub pure : A → Io A
  pure a w = (ok a, w)

  abbrev pub raise : Error → Io A
  raise e w = (raised e, w)

  abbrev pub lift : Result A → Io A
  lift r w = (r, w)

module _ {ℓ κ} {A : Type ℓ} {B : Type κ} where
  abbrev pub continue : Result A → (A → Io B) → Io B
  continue (ok a) f w = f a w
  continue (raised e) f w = (raised e, w)

  infixl 5 ◌>>=◌
  abbrev pub ◌>>=◌ : Io A → (A → Io B) → Io B
  ◌>>=◌ m f w = continue (m w).0 f (m w).1

infixl 5 ◌>>◌
abbrev pub ◌>>◌ {ℓ} : {B : Type ℓ} → Io (Unit {0}) → Io B → Io B
m >> k = m >>= λ _. k

-- An action that does not raise is a function on worlds.
abbrev pub act : (World → World) → Io (Unit {0})
act f w = (ok tt, f w)

-- `try: m  finally: c`, for a `c` that does not raise.
abbrev pub finally {ℓ} : {A : Type ℓ} → Io A → (World → World) → Io A
finally m c w = ((m w).0, c (m w).1)

abbrev pub get_world : Io World
get_world w = (ok w, w)

abbrev pub emit : Event → World → World
emit e w = record w { log = e ∷ w.log }

abbrev pub advance : ℕ → World → World
advance ns w = record w { clock = w.clock + ns }

-- `time.monotonic()`
abbrev pub monotonic : Io ℕ
monotonic w = (ok w.clock, w)

-- `dict.update`, for environments
unfoldable pub put_env : Text → Text → List (Text × Text) → List (Text × Text)
put_env k v [] = (k, v) ∷ []
put_env k v ((j, u) ∷ env) =
    let rest = put_env k v env in if text_eq k j then (k, v) ∷ env else (j, u) ∷ rest

unfoldable pub update_env : List (Text × Text) → List (Text × Text) → List (Text × Text)
unfolding put_env
update_env env [] = env
update_env env ((k, v) ∷ more) = update_env (put_env k v env) more

module _ (os : Os) where
  -- `time.sleep`
  unfoldable pub sleep : ℕ → World → World
  sleep ns w = advance (ns + os.oversleep_ns w) w

  -- `subprocess.run` with a time limit; a program that cannot be started is an `OSError`.
  unfoldable pub run_process : Command → ℕ → Io Completion
  run_process c limit w =
      if os.launches w c
      then (
        ok (os.completes w c limit),
        record w { files = os.leaves w c; clock = w.clock + os.run_ns w c limit },
      )
      else (raised os_error, w)
