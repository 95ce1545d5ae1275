-- ===== src/Mininet/Run/Ended.antt =====
-- The background traffic is ended with the tests.
use zk_arche_compare.Base.{ℕ, ◌≡◌, true, List, Text, codes, ◌++◌, Result, ok, raised, All}
use zk_arche_compare.World.{FilePath}
use zk_arche_compare.Mininet.Lab.{
  Kit, Lab, M, ran, perform, attempt, host_cmd, continue, pure, failed, stopped, ignored, ◌>>=◌,
}
use zk_arche_compare.Mininet.Profiles.{ProtocolConfig}
use zk_arche_compare.Mininet.Shell.{quote}
use zk_arche_compare.Mininet.Clients.{Assignment}
use zk_arche_compare.Mininet.Topology.{Net}
use zk_arche_compare.Mininet.Traffic.Ended.{
  was_terminated, Grows, terminated_after, stop_background_traffic-terminates,
}
use zk_arche_compare.Mininet.Run.{Args, clean_up, after_traffic, over_network, start_traffic}

module _ (kit : Kit) where
  command_rest :
      (r : Result (Unit {0})) (t : Text) (p : ℕ) (lab : Lab)
      → was_terminated p lab.acts ≡ true
      → was_terminated p
          (continue
            (continue r (λ _. pure t) lab).0
            (λ (out : Text). pure (tt {0}))
            (continue r (λ _. pure t) lab).1).1.acts
        ≡ true
  command_rest (ok u) t p lab h = h
  command_rest (raised e) t p lab h = h

  -- The rest of the clean-up: the server is stopped, then the network.
  abbrev stop_server_and_net : ProtocolConfig → Lab → Lab
  stop_server_and_net cfg lab = perform kit stopped (
      ignored
        (host_cmd kit (codes "server")
            (codes "pkill -f " ++ quote cfg.server_bin ++ codes " || true")
          >>= λ out. pure tt)
        lab)

  stop-Grows : (cfg : ProtocolConfig) → Grows kit (stop_server_and_net cfg)
  unfolding perform was_terminated host_cmd attempt
  stop-Grows cfg p lab h =
      let command =
        ran (codes "server") (codes "pkill -f " ++ quote cfg.server_bin ++ codes " || true") in
      command_rest (failed kit (kit.fails lab command)) _ p (perform kit command lab) h

  clean_up-terminates :
      (cfg : ProtocolConfig) (procs : List ℕ) (lab : Lab)
      → All (λ p. was_terminated p (clean_up kit cfg procs lab).acts ≡ true) procs
  unfolding clean_up
  clean_up-terminates cfg procs lab =
      terminated_after kit procs (stop_server_and_net cfg) (stop-Grows cfg) _
        (stop_background_traffic-terminates kit procs lab)

  after_traffic-terminates :
      (cfg : ProtocolConfig) (body : List ℕ → M ℕ) (r : Result (List ℕ)) (procs : List ℕ)
      (lab : Lab)
      → r ≡ ok procs
      → All (λ p. was_terminated p (after_traffic kit cfg body r lab).1.acts ≡ true) procs
  unfolding after_traffic
  after_traffic-terminates cfg body r procs lab e =
      rw e (clean_up-terminates cfg procs (body procs lab).1)

  -- Once the background traffic of a network has started, `terminate` is called on each of its
  -- processes before the run over the network ends, whether the tests return or raise.
  pub over_network-terminates :
      (cfg : ProtocolConfig) (protocol : Text) (bins : Text × Text) (args : Args) (dir : FilePath)
      (rows : List (Assignment kit.fl.F)) (net : Net kit.fl.F) (clients : List Text) (lab : Lab)
      (procs : List ℕ)
      → (start_traffic kit net.background_hosts args lab).0 ≡ ok procs
      → let after = (over_network kit cfg protocol bins args dir rows (net, clients) lab).1 in
        All (λ p. was_terminated p after.acts ≡ true) procs
  unfolding over_network
  over_network-terminates cfg protocol bins args dir rows net clients lab procs e =
      after_traffic-terminates cfg _ _ procs _ e
