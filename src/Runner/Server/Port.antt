-- ===== src/Runner/Server/Port.antt =====
-- The wait for a server's port ends, and how.
use zk_arche_compare.Base.{
  Failure, ℕ, zero, suc, ◌+◌, ◌*◌, ◌/◌, ◌<◌, ◌≤◌, ◌≡◌, refl, Text, ok, raised, Result,
  timeout_error, arith, ◌⊎◌, ltb, Bool-cases, inl, inr, ltb→lt,
}
use zk_arche_compare.World.{World, Os, Dial, connected, refused, unable}
use zk_arche_compare.Runner.Server.{
  ms, parse_addr, dial_host, after_dial, dial_again, dialled, dial_loop, wait_port_open,
}

module _ (os : Os) where
  -- An attempt that begins before the deadline ends in this way, and the wait with it.
  abbrev pub EndsBy : Dial → Text → ℕ → ℕ → World → Type 0
  EndsBy d host port deadline w' =
      (v : World) × (os.dials v host port ≡ d) × (v.clock < deadline) × (w' ≡ dialled os v)

  -- Either an attempt gave a connection, or one raised an exception that is no `OSError`, or the
  -- deadline has passed and a `TimeoutError` is raised.
  abbrev pub Waited : Text → ℕ → ℕ → Result (Unit {0}) → World → Type 0
  Waited host port deadline (ok u) w' = EndsBy connected host port deadline w'
  Waited host port deadline (raised e) w' =
      ((e ≡ timeout_error) × (deadline ≤ w'.clock))
      ⊎ ((x : Failure) × (x.0 ≡ e) × EndsBy (unable x) host port deadline w')

  after_dial-Waited :
      (host : Text) (port deadline : ℕ) (w : World) (d : Dial) (again : Result (Unit {0}) × World)
      → os.dials w host port ≡ d
      → w.clock < deadline
      → Waited host port deadline again.0 again.1
      → Waited host port deadline (after_dial os d again w).0 (after_dial os d again w).1
  after_dial-Waited host port deadline w connected again e h k = (w, e, h, refl)
  after_dial-Waited host port deadline w refused again e h k = k
  after_dial-Waited host port deadline w (unable x) again e h k = inr (x, refl, (w, e, h, refl))

  clock-dial_again : (w : World) → w.clock + 50 * ms ≤ (dial_again os w).clock
  unfolding dial_again
  clock-dial_again w = omega arith

  dial_loop-Waited :
      (f : ℕ) (host : Text) (port deadline : ℕ) (w : World)
      → deadline ≤ w.clock + f * (50 * ms)
      → Waited host port deadline
          (dial_loop os f host port deadline w).0
          (dial_loop os f host port deadline w).1
  unfolding dial_loop
  dial_loop-Waited zero host port deadline w h = inl (refl, omega arith)
  dial_loop-Waited (suc f) host port deadline w h = elim (Bool-cases (ltb w.clock deadline)) [
    | inl early ↦ rw early (
        after_dial-Waited host port deadline w (os.dials w host port)
          (dial_loop os f host port deadline (dial_again os w)) refl (ltb→lt w.clock deadline early)
          (dial_loop-Waited f host port deadline (dial_again os w)
            (omega (arith, clock-dial_again w))))
    | inr late ↦ rw late (inl (refl, ground arith))
  ]

  -- For an address that `parse_addr` accepts, the wait ends: it returns after an attempt to connect
  -- that began before the deadline and succeeded, or it raises `TimeoutError` once the deadline has
  -- passed, or it raises what such an attempt raised, if that is no `OSError`. The loop never stops for
  -- want of rounds.
  pub wait_port_open-Waited :
      (addr : Text) (timeout : ℕ) (w : World) {host : Text} {port : ℕ}
      → parse_addr addr ≡ ok (host, port)
      → let (r, w') = wait_port_open os addr timeout w in
        Waited (dial_host host) port (w.clock + timeout) r w'
  unfolding wait_port_open
  wait_port_open-Waited addr timeout w {host} {port} h = rw h (
      dial_loop-Waited (timeout / (50 * ms) + 2) (dial_host host) port (w.clock + timeout) w
        (omega arith))
