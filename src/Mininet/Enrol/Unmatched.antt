-- ===== src/Mininet/Enrol/Unmatched.antt =====
-- What the enrolment makes of the peers that the ZK-ARCHE server prints.
use mathlib.Core.List.{reverse, reverse_aux}
use zk_arche_compare.Base.{
  ℕ, ◌≡◌, refl, ap, ◌∙◌, Bool, true, false, none, some, List, [], ◌∷◌, ◌++◌, Text, codes, text_eq,
  text_eq_iff, All, Bool-cases, inl, inr, ◌==◌, ◌||◌, contains_nat, is_space, is_digit, IsDigits,
  arith,
}
use zk_arche_compare.Strings.{lstrip, rstrip, strip, partition, show_nat}
use zk_arche_compare.Strings.Integers.{IsNumber-IsDigits}
use zk_arche_compare.Strings.Numbers.{show_nat-IsNumber}
use zk_arche_compare.Sessions.{Figures, peer_ip}
use zk_arche_compare.Mininet.Lab.{Kit}
use zk_arche_compare.Mininet.ServerLog.{ServerRow}
use zk_arche_compare.Mininet.Clients.{Assignment, address}
use zk_arche_compare.Mininet.Enrol.{give_last, give_setups, kept_or}

-- A letter that no strip takes away.
contains-reverse_aux :
    (s acc : Text) (c : ℕ)
    → (contains_nat s c || contains_nat acc c) ≡ true
    → contains_nat (reverse_aux s acc) c ≡ true
contains-reverse_aux [] acc c h = h
contains-reverse_aux (x ∷ s) acc c h = contains-reverse_aux s (x ∷ acc) c (ground (arith, h))

contains-reverse : (s : Text) (c : ℕ) → contains_nat s c ≡ true → contains_nat (reverse s) c ≡ true
contains-reverse s c h = contains-reverse_aux s [] c (ground (arith, h))

contains-lstrip :
    (p : ℕ → Bool) (s : Text) (c : ℕ)
    → p c ≡ false
    → contains_nat s c ≡ true
    → contains_nat (lstrip p s) c ≡ true
unfolding lstrip
contains-lstrip p [] c k h = h
contains-lstrip p (x ∷ s) c k h = elim (Bool-cases (p x)) [
  | inl e ↦
      rw (e, lstrip)
        (contains-lstrip p s c k
          (elim (Bool-cases (x == c)) [ inl same ↦ ground arith | inr other ↦ ground arith ]))
  | inr e ↦ rw (e, lstrip) h
]

contains-rstrip :
    (p : ℕ → Bool) (s : Text) (c : ℕ)
    → p c ≡ false
    → contains_nat s c ≡ true
    → contains_nat (rstrip p s) c ≡ true
unfolding rstrip
contains-rstrip p s c k h =
    contains-reverse (lstrip p (reverse s)) c
      (contains-lstrip p (reverse s) c k (contains-reverse s c h))

contains-bare :
    (p : ℕ → Bool) (s : Text)
    → p b'S' ≡ false
    → contains_nat s b'S' ≡ true
    → contains_nat (rstrip p (lstrip p s)) b'S' ≡ true
contains-bare p s k h = contains-rstrip p (lstrip p s) b'S' k (contains-lstrip p s b'S' k h)

contains-strip : (s : Text) → contains_nat s b'S' ≡ true → contains_nat (strip s) b'S' ≡ true
unfolding strip is_space
contains-strip s h = contains-bare is_space s refl h

-- `Some(10.0.0.3:50412)`, as `{:?}` prints the address of a peer
abbrev pub option_text : Text → Text
option_text peer = codes "Some(" ++ peer ++ codes ")"

peer_ip-option_text : (peer : Text) → contains_nat (peer_ip (some (option_text peer))) b'S' ≡ true
unfolding peer_ip partition codes
peer_ip-option_text peer =
    contains-bare (λ c. c == 34) (strip (partition b':' (option_text peer)).0) refl
      (contains-strip (partition b':' (option_text peer)).0 refl)

digits_without : (s : Text) → IsDigits s → contains_nat s b'S' ≡ false
unfolding is_digit
digits_without [] h = refl
digits_without (c ∷ s) (d, h) = ground (arith, digits_without s h)

address_without : (n : ℕ) → contains_nat (address n) b'S' ≡ false
unfolding address codes
address_without n =
    digits_without (show_nat n) (IsNumber-IsDigits (show_nat n) (show_nat-IsNumber n))

never_equal :
    (x y : Text) → contains_nat x b'S' ≡ false → contains_nat y b'S' ≡ true → text_eq x y ≡ false
never_equal x y h k = elim (Bool-cases (text_eq x y)) [
  | inl e ↦ let same = (text_eq_iff x y).0 e in cc (e, h, k, same)
  | inr e ↦ e
]

module _ (kit : Kit) where
  open kit use {fl}
  open fl use {F}

  -- A row whose peer is printed as an option, and a client with an address of `make_assignments`.
  abbrev pub HasOptionPeer : ServerRow F → Type 0
  HasOptionPeer row = (peer : Text) × (row.server_peer ≡ some (option_text peer))

  abbrev pub HasAddress : Assignment F → Type 0
  HasAddress a = (n : ℕ) × (a.client_ip ≡ address n)

  give_last-none :
      (ip : Text) (figures : Figures F) (rows : List (Assignment F))
      → contains_nat ip b'S' ≡ true
      → All HasAddress rows
      → give_last kit ip figures rows ≡ none
  unfolding give_last
  give_last-none ip figures [] k h = refl
  give_last-none ip figures (a ∷ rows) k ((n, e), h) =
      rw
        (
          give_last-none ip figures rows k h,
          never_equal a.client_ip ip (ap (λ t. contains_nat t b'S') e ∙ address_without n) k,
        )
        refl

  -- Rows whose peers are printed as `Some(address:port)`, as the ZK-ARCHE server prints them, reach no
  -- client: where every client has an address `10.0.0.n`, each keeps the setup figures that it had.
  pub give_setups-option_peers :
      (rows : List (ServerRow F)) (assignments : List (Assignment F))
      → All HasOptionPeer rows
      → All HasAddress assignments
      → give_setups kit rows assignments ≡ assignments
  unfolding give_setups
  give_setups-option_peers [] assignments h k = refl
  give_setups-option_peers (row ∷ rows) assignments ((peer, e), h) k =
      let ip_lem = ap (λ p. contains_nat (peer_ip p) b'S') e ∙ peer_ip-option_text peer in
      ap (λ o. give_setups kit rows (kept_or kit o assignments))
        (give_last-none (peer_ip row.server_peer) row.auth assignments ip_lem k)
      ∙ give_setups-option_peers rows assignments h k
