-- ===== src/Mininet/Traffic/Ports.antt =====
-- The sinks at the ports that the flows of the background traffic dial.
use zk_arche_compare.Base.{
  ℕ, zero, suc, ◌+◌, ◌≤◌, ◌<◌, ◌≡◌, refl, ap, ◌∙◌, Bool, true, false, ◌&&◌, ◌||◌, ◌==◌, map, List,
  [], ◌∷◌, Text, All, length, take, drop, range_from, contains_nat, ◌⊎◌, inl, inr, arith,
}
use zk_arche_compare.Mininet.Lab.{enumerate}
use zk_arche_compare.Mininet.Profiles.{TrafficProfile}
use zk_arche_compare.Mininet.Traffic.{
  Transport, over_tcp, over_udp, sinks, total_sinks, tcp_flows, udp_flows,
}

range-contains : (i n k : ℕ) → i ≤ k → k < i + n → contains_nat (range_from i n) k ≡ true
range-contains i zero k h h' = ground arith
range-contains i (suc n) k h h' = elim (le-cases i k h) [
  | inl e ↦ ground arith
  | inr l ↦ ground (arith, range-contains (suc i) n k l (omega (arith, h')))
]
  where
    le-cases : (i k : ℕ) → i ≤ k → (i ≡ k) ⊎ (suc i ≤ k)
    le-cases i k h = ground arith

length-take : (n : ℕ) (xs : List Text) → length (take n xs) ≤ n
length-take zero xs = omega arith
length-take (suc n) [] = omega arith
length-take (suc n) (x ∷ xs) = omega (arith, length-take n xs)

enumerate-ports :
    (base n i : ℕ) (xs : List Text)
    → base ≤ i
    → i + length xs ≤ base + n
    → All (λ f. contains_nat (range_from base n) f.0 ≡ true) (enumerate i xs)
enumerate-ports base n i [] h k = tt
enumerate-ports base n i (x ∷ xs) h k = (
  range-contains base n i h (omega (arith, k)),
  enumerate-ports base n (suc i) xs (omega (arith, h)) (omega (arith, k)),
)

sinks_enough : (p : TrafficProfile) → p.tcp + p.udp ≤ total_sinks p
unfolding total_sinks
sinks_enough p = at (p.tcp + p.udp)
  where
    at : (n : ℕ) → n ≤ (elim n as (λ _. ℕ) [ zero ↦ 1 | suc n ↦ suc n ])
    at zero = omega arith
    at (suc n) = omega arith

abbrev same_transport : Transport → Transport → Bool
same_transport over_tcp over_tcp = true
same_transport over_udp over_udp = true
same_transport _ _ = false

-- A sink for the transport at the port.
abbrev pub has_sink : Transport → ℕ → List (Transport × ℕ) → Bool
has_sink t port [] = false
has_sink t port ((u, p) ∷ rest) = (same_transport t u && p == port) || has_sink t port rest

has_sink-tcp :
    (ports : List ℕ) (port : ℕ)
    → has_sink over_tcp port (map (λ p. (over_tcp, p)) ports) ≡ contains_nat ports port
has_sink-tcp [] port = refl
has_sink-tcp (p ∷ ports) port = ap (λ b. p == port || b) (has_sink-tcp ports port)

has_sink-udp :
    (ports : List ℕ) (port : ℕ) → has_sink over_udp port (map (λ p. (over_tcp, p)) ports) ≡ false
has_sink-udp [] port = refl
has_sink-udp (p ∷ ports) port = has_sink-udp ports port

tcp_sinks_for :
    (ports : List ℕ) (flows : List (ℕ × Text))
    → All (λ f. contains_nat ports f.0 ≡ true) flows
    → All (λ f. has_sink over_tcp f.0 (map (λ p. (over_tcp, p)) ports) ≡ true) flows
tcp_sinks_for ports [] h = tt
tcp_sinks_for ports (f ∷ flows) (h, hs) = (has_sink-tcp ports f.0 ∙ h, tcp_sinks_for ports flows hs)

without_udp :
    (ports : List ℕ) (flows : List (ℕ × Text))
    → All (λ f. has_sink over_udp f.0 (map (λ p. (over_tcp, p)) ports) ≡ false) flows
without_udp ports [] = tt
without_udp ports (f ∷ flows) = (has_sink-udp ports f.0, without_udp ports flows)

-- Whatever the background hosts are, each TCP flow of a traffic profile dials a port at which a TCP
-- sink is started on the server. Each UDP flow dials the port of a TCP sink as well, and no sink for
-- UDP is started at its port.
pub flows-have_sinks :
    (p : TrafficProfile) (hosts : List Text)
    → All (λ f. has_sink over_tcp f.0 (sinks p) ≡ true) (tcp_flows p hosts)
      × All (λ f. has_sink over_tcp f.0 (sinks p) ≡ true) (udp_flows p hosts)
      × All (λ f. has_sink over_udp f.0 (sinks p) ≡ false) (udp_flows p hosts)
unfolding sinks tcp_flows udp_flows
flows-have_sinks p hosts = (
  tcp_sinks_for (range_from 5201 (total_sinks p)) (enumerate 5201 (take p.tcp hosts)) (
      enumerate-ports 5201 (total_sinks p) 5201 (take p.tcp hosts) (omega arith)
        (omega (arith, length-take p.tcp hosts, sinks_enough p))),
  tcp_sinks_for (range_from 5201 (total_sinks p))
      (enumerate (5201 + p.tcp) (take p.udp (drop p.tcp hosts)))
      (enumerate-ports 5201 (total_sinks p) (5201 + p.tcp) (take p.udp (drop p.tcp hosts))
        (omega arith) (omega (arith, length-take p.udp (drop p.tcp hosts), sinks_enough p))),
  without_udp (range_from 5201 (total_sinks p))
      (enumerate (5201 + p.tcp) (take p.udp (drop p.tcp hosts))),
)
