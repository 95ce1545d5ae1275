-- ===== src/Mininet/Enrol/Setups.antt =====
-- Which client gets the figures of a row of the server: the one whose address the peer begins with.
use zk_arche_compare.Base.{
  ◌≡◌, refl, sym, ap, ◌∙◌, true, false, Option, none, some, List, [], ◌∷◌, Text, text_eq,
  text_eq_iff, map, All, Bool-cases, inl, inr, if◌then◌else◌,
}
use mathlib.Core.Path.{subst}
use zk_arche_compare.Sessions.{Figures, peer_ip}
use zk_arche_compare.Mininet.Lab.{Kit}
use zk_arche_compare.Mininet.ServerLog.{ServerRow}
use zk_arche_compare.Mininet.Clients.{Assignment}
use zk_arche_compare.Mininet.Enrol.{give_last, give_setups, kept_or}

module _ (kit : Kit) where
  open kit use {fl}
  open fl use {F}

  -- No two clients have the same address.
  abbrev pub AreDistinct : List (Assignment F) → Type 0
  AreDistinct [] = Unit
  AreDistinct (a ∷ rows) =
      All (λ b. text_eq a.client_ip b.client_ip ≡ false) rows × AreDistinct rows

  -- The client with such a figure of the server, if it has the address.
  abbrev pub given : Text → Figures F → Assignment F → Assignment F
  given ip figures a = if text_eq a.client_ip ip then record a { server_setup = figures } else a

  -- The figures of the last row whose peer has the address, or else those that were there.
  abbrev pub latest : Text → List (ServerRow F) → Figures F → Figures F
  latest ip [] old = old
  latest ip (row ∷ rows) old =
      latest ip rows (if text_eq ip (peer_ip row.server_peer) then row.auth else old)

  -- Nobody has the address, or one of the clients has it, whose address no distinct one shares.
  abbrev Placed : Text → Figures F → List (Assignment F) → Option (List (Assignment F)) → Type 0
  Placed ip figures rows none = map (given ip figures) rows ≡ rows
  Placed ip figures rows (some given_rows) =
      (given_rows ≡ map (given ip figures) rows)
      × ((x : Text) → All (λ b. text_eq x b.client_ip ≡ false) rows → text_eq x ip ≡ false)

  given_to :
      (ip : Text) (figures : Figures F) (a : Assignment F)
      → text_eq a.client_ip ip ≡ true
      → given ip figures a ≡ record a { server_setup = figures }
  given_to ip figures a e = rw e refl

  not_given :
      (ip : Text) (figures : Figures F) (a : Assignment F)
      → text_eq a.client_ip ip ≡ false
      → given ip figures a ≡ a
  not_given ip figures a e = rw e refl

  place :
      (ip : Text) (figures : Figures F) (a : Assignment F) (rows : List (Assignment F))
      (o : Option (List (Assignment F)))
      → All (λ b. text_eq a.client_ip b.client_ip ≡ false) rows
      → Placed ip figures rows o
      → Placed ip figures (a ∷ rows) (elim o [
        | some rest ↦ some (a ∷ rest)
        | none ↦
            if text_eq a.client_ip ip
            then some (record a { server_setup = figures } ∷ rows)
            else none
      ])
  place ip figures a rows (some rest) d (e, only) = (
    ap (λ t. a ∷ t) e
        ∙ ap (λ b. b ∷ map (given ip figures) rows)
            (sym (not_given ip figures a (only a.client_ip d))),
    λ x h. only x h.1,
  )
  place ip figures a rows none d e = elim (Bool-cases (text_eq a.client_ip ip)) [
    | inl k ↦ rw k (
      ap (λ t. record a { server_setup = figures } ∷ t) (sym e)
          ∙ ap (λ b. b ∷ map (given ip figures) rows) (sym (given_to ip figures a k)),
      λ x h. subst (λ y. text_eq x y ≡ false) ((text_eq_iff a.client_ip ip).0 k) h.0,
    )
    | inr k ↦
        rw k
          (ap (λ b. b ∷ map (given ip figures) rows) (not_given ip figures a k) ∙ ap (λ t. a ∷ t) e)
  ]

  give_last-Placed :
      (ip : Text) (figures : Figures F) (rows : List (Assignment F))
      → AreDistinct rows
      → Placed ip figures rows (give_last kit ip figures rows)
  unfolding give_last
  give_last-Placed ip figures [] d = refl
  give_last-Placed ip figures (a ∷ rows) (d, ds) =
      place ip figures a rows (give_last kit ip figures rows) d
        (give_last-Placed ip figures rows ds)

  kept_or-Placed :
      (ip : Text) (figures : Figures F) (rows : List (Assignment F))
      (o : Option (List (Assignment F)))
      → Placed ip figures rows o
      → kept_or kit o rows ≡ map (given ip figures) rows
  kept_or-Placed ip figures rows none e = sym e
  kept_or-Placed ip figures rows (some t) (e, only) = e

  given_ip :
      (ip : Text) (figures : Figures F) (a : Assignment F)
      → (given ip figures a).client_ip ≡ a.client_ip
  given_ip ip figures a = elim (Bool-cases (text_eq a.client_ip ip)) [
    | inl e ↦ rw e refl
    | inr e ↦ rw e refl
  ]

  given-distinct :
      (ip : Text) (figures : Figures F) (x : Text) (rows : List (Assignment F))
      → All (λ b. text_eq x b.client_ip ≡ false) rows
      → All (λ b. text_eq x b.client_ip ≡ false) (map (given ip figures) rows)
  given-distinct ip figures x [] h = tt
  given-distinct ip figures x (b ∷ rows) (h, hs) = (
    subst (λ y. text_eq x y ≡ false) (sym (given_ip ip figures b)) h,
    given-distinct ip figures x rows hs,
  )

  given-AreDistinct :
      (ip : Text) (figures : Figures F) (rows : List (Assignment F))
      → AreDistinct rows
      → AreDistinct (map (given ip figures) rows)
  given-AreDistinct ip figures [] d = tt
  given-AreDistinct ip figures (a ∷ rows) (d, ds) = (
    subst (λ y. All (λ b. text_eq y b.client_ip ≡ false) (map (given ip figures) rows))
        (sym (given_ip ip figures a)) (given-distinct ip figures a.client_ip rows d),
    given-AreDistinct ip figures rows ds,
  )

  -- Every client with the figures of its own address.
  abbrev pub with_latest : List (ServerRow F) → Assignment F → Assignment F
  with_latest rows a = record a { server_setup = latest a.client_ip rows a.server_setup }

  with_latest-given :
      (row : ServerRow F) (rows : List (ServerRow F)) (a : Assignment F)
      → with_latest rows (given (peer_ip row.server_peer) row.auth a) ≡ with_latest (row ∷ rows) a
  with_latest-given row rows a = elim (Bool-cases (text_eq a.client_ip (peer_ip row.server_peer))) [
    | inl e ↦ rw e refl
    | inr e ↦ rw e refl
  ]

  map-given :
      (row : ServerRow F) (rows : List (ServerRow F)) (assignments : List (Assignment F))
      → map (with_latest rows) (map (given (peer_ip row.server_peer) row.auth) assignments)
        ≡ map (with_latest (row ∷ rows)) assignments
  map-given row rows [] = refl
  map-given row rows (a ∷ assignments) =
      rw (with_latest-given row rows a)
        (ap (λ t. with_latest (row ∷ rows) a ∷ t) (map-given row rows assignments))

  map-none : (assignments : List (Assignment F)) → assignments ≡ map (with_latest []) assignments
  map-none [] = refl
  map-none (a ∷ assignments) = ap (λ t. a ∷ t) (map-none assignments)

  -- Where no two clients have the same address, the writes through the dictionary from addresses to
  -- clients amount to one map over the clients: each gets the figures of the last row of the server
  -- whose peer, cut at its first colon and stripped, is its address, and keeps what it had if there is
  -- no such row.
  pub give_setups-latest :
      (rows : List (ServerRow F)) (assignments : List (Assignment F))
      → AreDistinct assignments
      → give_setups kit rows assignments ≡ map (with_latest rows) assignments
  unfolding give_setups
  give_setups-latest [] assignments d = map-none assignments
  give_setups-latest (row ∷ rows) assignments d =
      let ip = peer_ip row.server_peer in
      let e =
        kept_or-Placed ip row.auth assignments (give_last kit ip row.auth assignments)
          (give_last-Placed ip row.auth assignments d) in
      ap (give_setups kit rows) e
      ∙ give_setups-latest rows (map (given ip row.auth) assignments)
          (given-AreDistinct ip row.auth assignments d)
      ∙ map-given row rows assignments
