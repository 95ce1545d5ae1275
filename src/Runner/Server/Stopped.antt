-- ===== src/Runner/Server/Stopped.antt =====
-- No server process is left behind.
use zk_arche_compare.Base.{
  ℕ, zero, suc, ◌+◌, ◌*◌, ◌≡◌, refl, ◌∙◌, ap, Option, none, some, List, [], ◌∷◌, Text, Result, ok,
  raised, arith, ltb, Bool-cases, inl, inr,
}
use zk_arche_compare.World.{
  World, Os, FilePath, continue, Event, spawned, lift, Io, Dial, connected, refused, unable,
}
use zk_arche_compare.World.Live.{live, erase, erase-head}
use zk_arche_compare.World.Files.{parent, mkdirs, write_text}
use zk_arche_compare.World.Keeps.{Keeps, Keeps-bind, log_of, mkdirs-Keeps-log, write_text-Keeps-log}
use zk_arche_compare.Runner.Server.{
  ServerHandle, parse_addr, dial_host, after_dial, dial_again, dialled, dial_loop, wait_port_open,
  kill_group, wait_or_kill, stop_server, after_wait, start_attempt, spawn_and_wait, start_loop,
  start_server,
}

module _ (os : Os) where
  log-after_dial :
      (d : Dial) (again : Result (Unit {0}) × World) (w : World)
      → again.1.log ≡ w.log
      → (after_dial os d again w).1.log ≡ w.log
  unfolding dialled
  log-after_dial connected again w h = refl
  log-after_dial refused again w h = h
  log-after_dial (unable e) again w h = refl

  log-dial_loop :
      (f : ℕ) (host : Text) (port deadline : ℕ) (w : World)
      → (dial_loop os f host port deadline w).1.log ≡ w.log
  unfolding dial_loop dial_again dialled
  log-dial_loop zero host port deadline w = refl
  log-dial_loop (suc f) host port deadline w =
      let again = dial_loop os f host port deadline (dial_again os w) in
      elim (Bool-cases (ltb w.clock deadline)) [
        | inl e ↦ rw e (
            log-after_dial (os.dials w host port) again w
              (log-dial_loop f host port deadline (dial_again os w)))
        | inr e ↦ rw e refl
      ]

  wait_port_open-Keeps-log :
      (addr : Text) (timeout : ℕ) → Keeps log_of (wait_port_open os addr timeout)
  unfolding wait_port_open
  wait_port_open-Keeps-log addr timeout =
      Keeps-bind log_of (lift (parse_addr addr)) _ (λ w. refl)
        λ target w. log-dial_loop _ (dial_host target.0) target.1 _ w

  -- After `stop_server` the process is seen to have ended, gone, or sent SIGKILL, exactly once.
  pub live-stop_server :
      (h : ServerHandle) (w : World) → live (stop_server os h w).log ≡ erase h.pid (live w.log)
  unfolding stop_server wait_or_kill kill_group
  live-stop_server h w = ground arith

  -- A server that did not open its port is stopped again.
  abbrev left_running : Result (Option ServerHandle) → List ℕ → List ℕ
  left_running (ok (some h)) ps = h.pid ∷ ps
  left_running (ok none) ps = ps
  left_running (raised e) ps = ps

  live-after_wait :
      (h : ServerHandle) (pause_ns : ℕ) (r : Result (Unit {0})) (w : World) (ps : List ℕ)
      → live w.log ≡ h.pid ∷ ps
      → let (r', w') = after_wait os h pause_ns r w in live w'.log ≡ left_running r' ps
  unfolding after_wait
  live-after_wait h pause_ns (ok u) w ps e = e
  live-after_wait h pause_ns (raised x) w ps e = live-stop_server h w ∙ rw e (erase-head h.pid ps)

  live-spawn_and_wait :
      (binary : FilePath) (args : List Text) (addr : Text) (workdir log_path : FilePath)
      (pause_ns : ℕ) (w : World)
      → let (r, w') = spawn_and_wait os binary args addr workdir log_path pause_ns w in
        live w'.log ≡ left_running r (live w.log)
  unfolding spawn_and_wait
  live-spawn_and_wait binary args addr workdir log_path pause_ns w =
      live-after_wait _ pause_ns _ _ (live w.log) (ap live (wait_port_open-Keeps-log addr _ _))

  live-continue :
      (r : Result (Unit {0})) (m : Io (Option ServerHandle)) (w : World) (ps : List ℕ)
      → live w.log ≡ ps
      → live (m w).1.log ≡ left_running (m w).0 (live w.log)
      → let (r', w') = continue r (λ _. m) w in live w'.log ≡ left_running r' ps
  live-continue (ok u) m w ps e h = rw (← e) h
  live-continue (raised x) m w ps e h = e

  live-start_attempt :
      (binary : FilePath) (args : List Text) (addr : Text) (workdir log_path : FilePath)
      (pause_ns : ℕ) (w : World)
      → let (r, w') = start_attempt os binary args addr workdir log_path pause_ns w in
        live w'.log ≡ left_running r (live w.log)
  unfolding start_attempt
  live-start_attempt binary args addr workdir log_path pause_ns w =
      live-continue (write_text log_path [] w).0 _ (write_text log_path [] w).1 (live w.log)
        (ap live (write_text-Keeps-log log_path [] w))
        (live-spawn_and_wait binary args addr workdir log_path pause_ns
          (write_text log_path [] w).1)

  abbrev pub serving : Result ServerHandle → List ℕ → List ℕ
  serving (ok h) ps = h.pid ∷ ps
  serving (raised e) ps = ps

  serving-continue :
      (r : Result (Unit {0})) (m : Io ServerHandle) (w : World) (ps : List ℕ)
      → live w.log ≡ ps
      → live (m w).1.log ≡ serving (m w).0 (live w.log)
      → let (r', w') = continue r (λ _. m) w in live w'.log ≡ serving r' ps
  serving-continue (ok u) m w ps e h = rw (← e) h
  serving-continue (raised x) m w ps e h = e

  live-start_loop :
      (binary : FilePath) (args : List Text) (addr : Text) (workdir log_path : FilePath)
      (retry_ns left attempt : ℕ) (w : World)
      → let (r, w') = start_loop os binary args addr workdir log_path retry_ns left attempt w in
        live w'.log ≡ serving r (live w.log)
  unfolding start_loop
  live-start_loop binary args addr workdir log_path retry_ns zero attempt w = refl
  live-start_loop binary args addr workdir log_path retry_ns (suc left) attempt w =
      let round = start_attempt os binary args addr workdir log_path (retry_ns * (attempt + 1)) w in
      ground (
        arith,
        live-start_attempt binary args addr workdir log_path (retry_ns * (attempt + 1)) w,
        live-start_loop binary args addr workdir log_path retry_ns left (attempt + 1) round.1,
      )

  -- Whatever the machine answers, a call of `start_server` that returns has added exactly the
  -- returned server to the processes that were started and not seen to end, and a call that raises
  -- has added none: each server of a failed attempt was stopped.
  pub live-start_server :
      (binary : FilePath) (args : List Text) (addr : Text) (workdir log_path : FilePath)
      (bind_retries retry_ns : ℕ) (w : World)
      → let (r, w') = start_server os binary args addr workdir log_path bind_retries retry_ns w in
        live w'.log ≡ serving r (live w.log)
  unfolding start_server
  live-start_server binary args addr workdir log_path bind_retries retry_ns w =
      let w1 = (mkdirs workdir w).1 in
      let loop = start_loop os binary args addr workdir log_path retry_ns bind_retries 0 in
      serving-continue (mkdirs workdir w).0 _ w1 (live w.log) (ap live (mkdirs-Keeps-log workdir w))
        (serving-continue (mkdirs (parent log_path) w1).0 loop _ (live w1.log)
          (ap live (mkdirs-Keeps-log (parent log_path) w1))
          (live-start_loop binary args addr workdir log_path retry_ns bind_retries 0 _))

-- How many processes were started.
abbrev pub spawns : List Event → ℕ
spawns [] = 0
spawns (spawned p b args ∷ log) = suc (spawns log)
spawns (_ ∷ log) = spawns log
