-- ===== src/Runner/Server.antt =====
-- benchmarks/lib/runner.py: ports, and the life of a server process.
pub mod Stopped
pub mod Port
use zk_arche_compare.Base.{
  ℕ, zero, suc, ◌+◌, ◌-◌, ◌*◌, ◌/◌, Bool, true, false, ◌||◌, Option, none, some, List, [], ◌∷◌,
  Text, codes, text_eq, Result, ok, raised, Error, timeout_error, runtime_error, value_error, ltb,
  if◌then◌else◌,
}
use zk_arche_compare.Strings.{rpartition, int_of}
use zk_arche_compare.World.{
  FilePath, World, Io, Os, Dial, connected, refused, unable, pure, raise, lift, ◌>>=◌, ◌>>◌,
  monotonic, emit, advance, sleep, spawned, terminated, exited, gone, killed,
}
use zk_arche_compare.World.Files.{parent, mkdirs, write_text}

abbrev port_number : Text → Option ℕ → Result (Text × ℕ)
port_number host none = raised value_error
port_number host (some port) = ok (if text_eq host [] then codes "127.0.0.1" else host, port)

-- Where there is no ":", the host is empty and the whole text is the port.
unfoldable pub parse_addr : Text → Result (Text × ℕ)
unfolding rpartition int_of
parse_addr addr = let (host, found, port) = rpartition b':' addr in port_number host (int_of port)

abbrev pub ms : ℕ
ms = 1_000_000

-- Servers may bind 0.0.0.0; clients dial 127.0.0.1.
unfoldable pub dial_host : Text → Text
unfolding text_eq codes
dial_host host =
    if text_eq host (codes "0.0.0.0") || text_eq host (codes "::") || text_eq host []
    then codes "127.0.0.1"
    else host

pub record ServerHandle : Type 0 where
  pub pid : ℕ
  pub addr : Text
  pub log_path : FilePath
  pub workdir : FilePath

module _ (os : Os) where
  -- One round of the loop after a refused connection: the attempt and the pause of 0.05 s.
  unfoldable pub dial_again : World → World
  unfolding sleep
  dial_again w = sleep os (50 * ms) (advance (os.dial_ns w) w)

  unfoldable pub dialled : World → World
  dialled w = advance (os.dial_ns w) w

  -- What follows an attempt: only an `OSError` is followed by more.
  abbrev pub after_dial : Dial → Result (Unit {0}) × World → Io (Unit {0})
  after_dial connected again w = (ok tt, dialled w)
  after_dial refused again w = again
  after_dial (unable e) again w = (raised e.0, dialled w)

  -- `while time.monotonic() < deadline`, with as much fuel as there can be rounds.
  unfoldable pub dial_loop : ℕ → Text → ℕ → ℕ → Io (Unit {0})
  dial_loop zero host port deadline w = (raised timeout_error, w)
  dial_loop (suc f) host port deadline w =
      let again = dial_loop f host port deadline (dial_again w) in
      if ltb w.clock deadline
      then after_dial (os.dials w host port) again w
      else (raised timeout_error, w)

  unfoldable pub wait_port_open : Text → ℕ → Io (Unit {0})
  unfolding dial_host
  wait_port_open addr timeout = do
    target ← lift (parse_addr addr)
    now ← monotonic
    dial_loop (timeout / (50 * ms) + 2) (dial_host target.0) target.1 (now + timeout)

  -- The end of `stop_server`: SIGKILL, unless the group is gone, and one second for the process.
  unfoldable pub kill_group : ℕ → World → World
  kill_group pid w =
      let w' = emit (if os.found w pid then killed pid else gone pid) w in
      advance (os.wait_ns w' pid (1000 * ms)) w'

  unfoldable pub wait_or_kill : ℕ → World → World
  unfolding kill_group
  wait_or_kill pid w =
      let w' = advance (os.wait_ns w pid (2000 * ms)) w in
      if os.waits w pid (2000 * ms) then emit (exited pid) w' else kill_group pid w'

  -- Nothing that `stop_server` calls raises beyond what it catches.
  unfoldable pub stop_server : ServerHandle → World → World
  unfolding wait_or_kill
  stop_server h w =
      if os.polls w h.pid
      then emit (exited h.pid) w
      else if os.found w h.pid
      then wait_or_kill h.pid (emit (terminated h.pid) w)
      else emit (gone h.pid) w

  unfoldable pub popen : FilePath → List Text → World → World
  popen binary args w = emit (spawned (os.pid w) binary args) w

  -- What the attempt leaves behind: the handle, or a stopped server and a pause.
  unfoldable pub after_wait : ServerHandle → ℕ → Result (Unit {0}) → Io (Option ServerHandle)
  unfolding stop_server sleep
  after_wait h pause_ns (ok u) w = (ok (some h), w)
  after_wait h pause_ns (raised e) w = (ok none, sleep os pause_ns (stop_server h w))

  -- `Popen`, the wait for the port, and what follows.
  unfoldable pub spawn_and_wait :
      FilePath → List Text → Text → FilePath → FilePath → ℕ → Io (Option ServerHandle)
  unfolding popen
  spawn_and_wait binary args addr workdir log_path pause_ns w =
      let w1 = popen binary args w in
      let h : ServerHandle = record {
        pid = os.pid w;
        addr = addr;
        log_path = log_path;
        workdir = workdir;
      } in
      let (r, w2) = wait_port_open addr (15_000 * ms) w1 in after_wait h pause_ns r w2

  -- One round of the loop of `start_server`; the log file is opened outside the `try`.
  unfoldable pub start_attempt :
      FilePath → List Text → Text → FilePath → FilePath → ℕ → Io (Option ServerHandle)
  unfolding write_text
  start_attempt binary args addr workdir log_path pause_ns = do
    write_text log_path []
    spawn_and_wait binary args addr workdir log_path pause_ns

  -- `for attempt in range(bind_retries)`: the attempts left, and the number of this one.
  unfoldable pub start_loop :
      FilePath → List Text → Text → FilePath → FilePath → ℕ → ℕ → ℕ → Io ServerHandle
  start_loop binary args addr workdir log_path retry_ns zero attempt w = (raised runtime_error, w)
  start_loop binary args addr workdir log_path retry_ns (suc left) attempt w =
      let (r, w') = start_attempt binary args addr workdir log_path (retry_ns * (attempt + 1)) w in
      elim r [
        | ok (some h) ↦ (ok h, w')
        | ok none ↦ start_loop binary args addr workdir log_path retry_ns left (attempt + 1) w'
        | raised e ↦ (raised e, w')
      ]

  unfoldable pub start_server :
      FilePath → List Text → Text → FilePath → FilePath → ℕ → ℕ → Io ServerHandle
  start_server binary args addr workdir log_path bind_retries retry_ns = do
    mkdirs workdir
    mkdirs (parent log_path)
    start_loop binary args addr workdir log_path retry_ns bind_retries 0

  -- The defaults of `start_server`: six attempts, pauses of 1 s, 2 s, ...
  abbrev pub start_server_default :
      FilePath → List Text → Text → FilePath → FilePath → Io ServerHandle
  start_server_default binary args addr workdir log_path =
      start_server binary args addr workdir log_path 6 (1000 * ms)
