-- ===== src/Mininet/Traffic.antt =====
-- experiments/mininet/mininet_tests_123.py: the processes that make background traffic, and their end.
pub mod Ended
pub mod Ports
pub mod Keeps
use zk_arche_compare.Base.{
  ℕ, zero, suc, ◌+◌, Bool, true, false, ◌||◌, Option, none, some, List, [], ◌∷◌, ◌++◌, Text, codes,
  text_eq, map, take, drop, range_from, if◌then◌else◌,
}
use zk_arche_compare.Strings.{show_nat}
use zk_arche_compare.Mininet.Lab.{
  Kit, Lab, M, pure, act, ◌>>=◌, ◌>>◌, each, enumerate, ignored, attempt, terminated, polled,
  killed, sleep, host_open, draw_index,
}
use zk_arche_compare.Mininet.Profiles.{TrafficProfile, background_intensity_profile, server_ip}
use zk_arche_compare.Mininet.Topology.{draw_choice}

-- `max(profile["tcp"] + profile["udp"], 1)`
unfoldable pub total_sinks : TrafficProfile → ℕ
total_sinks profile = elim (profile.tcp + profile.udp) [ zero ↦ 1 | suc n ↦ suc n ]

-- What an iperf server accepts, or a flow sends: `iperf -s` without `-u` accepts TCP only.
pub data Transport : Type 0 where
  over_tcp over_udp : Transport

abbrev udp_flag : Transport → Text
udp_flag over_tcp = []
udp_flag over_udp = codes " -u"

-- `iperf -s -p {port} >/tmp/bg_iperf_server_{port}.log 2>&1`
unfoldable pub sink_command : Transport × ℕ → Text
unfolding show_nat
sink_command (transport, port) =
    codes "iperf -s"
    ++ udp_flag transport
    ++ codes " -p "
    ++ show_nat port
    ++ codes " >/tmp/bg_iperf_server_"
    ++ show_nat port
    ++ codes ".log 2>&1"

unfoldable pub ping_command : Text → ℕ → Text → Text
unfolding show_nat
ping_command interval size host =
    codes "ping -i "
    ++ interval
    ++ codes " -s "
    ++ show_nat size
    ++ codes " "
    ++ server_ip
    ++ codes " >/tmp/"
    ++ host
    ++ codes "_bg_ping.log 2>&1"

unfoldable pub tcp_command : ℕ → Text → ℕ → Text
unfolding show_nat
tcp_command port host pause =
    codes "while true; do iperf -c "
    ++ server_ip
    ++ codes " -p "
    ++ show_nat port
    ++ codes " -t 5 >/tmp/"
    ++ host
    ++ codes "_bg_tcp.log 2>&1; sleep "
    ++ show_nat pause
    ++ codes "; done"

unfoldable pub udp_command : ℕ → Text → ℕ → Text → ℕ → Text
unfolding show_nat
udp_command port rate size host pause =
    codes "while true; do iperf -u -c "
    ++ server_ip
    ++ codes " -p "
    ++ show_nat port
    ++ codes " -b "
    ++ rate
    ++ codes " -l "
    ++ show_nat size
    ++ codes " -t 6 >/tmp/"
    ++ host
    ++ codes "_bg_udp.log 2>&1; sleep "
    ++ show_nat pause
    ++ codes "; done"

-- The sinks with their ports, and the flows: the hosts with the ports that they dial.
unfoldable pub sinks : TrafficProfile → List (Transport × ℕ)
unfolding total_sinks
sinks profile = map (λ port. (over_tcp, port)) (range_from 5201 (total_sinks profile))

unfoldable pub tcp_flows : TrafficProfile → List Text → List (ℕ × Text)
tcp_flows profile hosts = enumerate 5201 (take profile.tcp hosts)

unfoldable pub udp_flows : TrafficProfile → List Text → List (ℕ × Text)
udp_flows profile hosts = enumerate (5201 + profile.tcp) (take profile.udp (drop profile.tcp hosts))

module _ (kit : Kit) where
  open kit use {randint}

  unfoldable pub start_sink : Transport × ℕ → M ℕ
  start_sink sink = host_open kit (codes "server") (sink_command sink)

  unfoldable pub start_ping : Text → M ℕ
  start_ping host = do
    interval ← draw_choice kit (codes "0.1" ∷ codes "0.2" ∷ codes "0.5" ∷ codes "1.0" ∷ [])
    size ← draw_choice kit (32 ∷ 64 ∷ 128 ∷ 256 ∷ [])
    host_open kit host (ping_command interval size host)

  unfoldable pub start_tcp : ℕ × Text → M ℕ
  start_tcp (port, host) = do
    pause ← draw_index kit λ lab. randint lab 1 4
    host_open kit host (tcp_command port host pause)

  unfoldable pub start_udp : Text → ℕ × Text → M ℕ
  start_udp rate (port, host) = do
    size ← draw_choice kit (256 ∷ 512 ∷ 1024 ∷ 1200 ∷ [])
    pause ← draw_index kit λ lab. randint lab 1 3
    host_open kit host (udp_command port rate size host pause)

  unfoldable pub start_flows : TrafficProfile → List Text → M (List ℕ)
  start_flows profile hosts = do
    started ← each start_sink (sinks profile)
    act (sleep kit 200_000_000)
    pings ← each start_ping (take profile.ping hosts)
    tcps ← each start_tcp (tcp_flows profile hosts)
    udps ← each (start_udp profile.udp_rate) (udp_flows profile hosts)
    pure (started ++ pings ++ tcps ++ udps)

  -- The processes that it has started. `hosts` are the background hosts of the network.
  unfoldable pub start_background_traffic : List Text → Text → M (List ℕ)
  start_background_traffic [] level = pure []
  start_background_traffic (h ∷ hosts) level =
      if text_eq level (codes "none")
      then pure []
      else start_flows (background_intensity_profile level) (h ∷ hosts)

  -- `try: p.terminate()  except Exception: pass`
  unfoldable pub terminate_one : ℕ → Lab → Lab
  terminate_one p = ignored (attempt kit (terminated p))

  -- `p.poll() is None`
  unfoldable pub still_runs : ℕ → M Bool
  still_runs p lab = (attempt kit (polled p) >>= λ _. pure (kit.runs_on lab p)) lab

  unfoldable pub kill_one : ℕ → Lab → Lab
  kill_one p = ignored (still_runs p >>= λ alive. if alive then attempt kit (killed p) else pure tt)

  unfoldable pub for_all : (ℕ → Lab → Lab) → List ℕ → Lab → Lab
  for_all f [] lab = lab
  for_all f (p ∷ procs) lab = for_all f procs (f p lab)

  unfoldable pub stop_background_traffic : List ℕ → Lab → Lab
  stop_background_traffic procs lab =
      for_all kill_one procs (sleep kit 200_000_000 (for_all terminate_one procs lab))
