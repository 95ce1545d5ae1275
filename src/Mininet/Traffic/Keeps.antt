-- ===== src/Mininet/Traffic/Keeps.antt =====
-- The background traffic neither starts nor stops a network.
use zk_arche_compare.Base.{ℕ, refl, ◌∙◌, List, [], ◌∷◌, Text}
use zk_arche_compare.Mininet.Lab.{Kit, Lab, act, terminated, polled, killed}
use zk_arche_compare.Mininet.Lab.Keeps.{
  Keeps, Keeps-bind, Keeps-pure, Keeps-each, Keeps-if, keeps, running, attempt-Keeps, answer-Keeps,
  ignored-Keeps, sleep-Keeps, host_open-Keeps, draw_index-Keeps,
}
use zk_arche_compare.Mininet.Profiles.{TrafficProfile}
use zk_arche_compare.Mininet.Topology.Keeps.{draw_choice-Keeps}
use zk_arche_compare.Mininet.Traffic.{
  Transport, start_sink, start_ping, start_tcp, start_udp, start_flows, start_background_traffic,
  terminate_one, still_runs, kill_one, for_all, stop_background_traffic,
}

module _ (kit : Kit) where
  start_sink-Keeps : (sink : Transport × ℕ) → Keeps (start_sink kit sink)
  unfolding start_sink
  start_sink-Keeps sink = search (keeps, host_open-Keeps)

  start_ping-Keeps : (host : Text) → Keeps (start_ping kit host)
  unfolding start_ping
  start_ping-Keeps host = search (keeps, host_open-Keeps, draw_choice-Keeps) depth 12

  start_tcp-Keeps : (flow : ℕ × Text) → Keeps (start_tcp kit flow)
  unfolding start_tcp
  start_tcp-Keeps (port, host) = search (keeps, host_open-Keeps, draw_index-Keeps) depth 12

  start_udp-Keeps : (rate : Text) (flow : ℕ × Text) → Keeps (start_udp kit rate flow)
  unfolding start_udp
  start_udp-Keeps rate (port, host) =
      search (keeps, host_open-Keeps, draw_index-Keeps, draw_choice-Keeps) depth 12

  start_flows-Keeps : (p : TrafficProfile) (hosts : List Text) → Keeps (start_flows kit p hosts)
  unfolding start_flows
  start_flows-Keeps p hosts =
      search
        (
          keeps, Keeps-each, sleep-Keeps, start_sink-Keeps, start_ping-Keeps, start_tcp-Keeps,
          start_udp-Keeps,
        )
        depth 16

  pub start_background_traffic-Keeps :
      (hosts : List Text) (level : Text) → Keeps (start_background_traffic kit hosts level)
  unfolding start_background_traffic
  start_background_traffic-Keeps [] level = Keeps-pure []
  start_background_traffic-Keeps (h ∷ hosts) level =
      Keeps-if _ _ _ (Keeps-pure []) (start_flows-Keeps _ _)

  terminate_one-Keeps : (p : ℕ) → Keeps (act (terminate_one kit p))
  unfolding terminate_one running
  terminate_one-Keeps p = ignored-Keeps kit _ (attempt-Keeps kit (terminated p) λ acts. refl)

  still_runs-Keeps : (p : ℕ) → Keeps (still_runs kit p)
  unfolding still_runs running
  still_runs-Keeps p = answer-Keeps kit (polled p) (λ lab. kit.runs_on lab p) λ acts. refl

  kill_one-Keeps : (p : ℕ) → Keeps (act (kill_one kit p))
  unfolding kill_one running
  kill_one-Keeps p = ignored-Keeps kit _ (
      Keeps-bind _ _ (still_runs-Keeps p)
        λ alive. Keeps-if alive _ _ (attempt-Keeps kit (killed p) λ acts. refl) (Keeps-pure tt))

  for_all-Keeps :
      (f : ℕ → Lab → Lab)
      → ((p : ℕ) → Keeps (act (f p)))
      → (ps : List ℕ) → Keeps (act (for_all kit f ps))
  unfolding for_all Keeps
  for_all-Keeps f k [] lab = refl
  for_all-Keeps f k (p ∷ ps) lab = for_all-Keeps f k ps (f p lab) ∙ k p lab

  pub stop_background_traffic-Keeps : (ps : List ℕ) → Keeps (act (stop_background_traffic kit ps))
  unfolding stop_background_traffic Keeps
  stop_background_traffic-Keeps ps lab =
      for_all-Keeps (kill_one kit) kill_one-Keeps ps _
      ∙ sleep-Keeps kit 200_000_000 _
      ∙ for_all-Keeps (terminate_one kit) terminate_one-Keeps ps lab
