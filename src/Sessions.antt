-- ===== src/Sessions.antt =====
-- experiments/mininet/mininet_tests_123.py: the figures of a full session, which for ZK-ARCHE are those
-- of the enrolment and of the authentication. `round4` is `round(x, 4)`.
pub mod Sums
use zk_arche_compare.Base.{
  ℕ, ◌+◌, Bool, true, false, Option, none, some, List, [], ◌∷◌, Text, codes, text_eq, map, ◌==◌,
  if◌then◌else◌,
}
use zk_arche_compare.Floats.{Floats}
use zk_arche_compare.Strings.{partition, strip, lstrip, rstrip}

-- One side of a connection: the duration and the bytes, each `None` where it was not measured.
pub record Figures (F : Type 0) : Type 0 where
  pub duration_ms : Option F
  pub sent_bytes : Option ℕ
  pub received_bytes : Option ℕ

-- The setup_ keys of an assignment.
pub record Setup (F : Type 0) : Type 0 where
  pub figures : Figures F
  pub wall_elapsed_ms : Option F

-- The columns that a row is given.
pub record SessionRow (F : Type 0) : Type 0 where
  pub setup : Setup F
  pub auth : Figures F
  pub full_session : Figures F
  pub full_session_total_bytes : Option ℕ

abbrev no_figures : {F : Type 0} → Figures F
no_figures = record { duration_ms = none; sent_bytes = none; received_bytes = none }

-- The sum where both are measured, else the figure of the authentication.
unfoldable pub full_bytes : Option ℕ → Option ℕ → Option ℕ
full_bytes (some setup) (some auth) = some (setup + auth)
full_bytes _ auth = auth

unfoldable pub total_of : Option ℕ → Option ℕ → Option ℕ
total_of (some sent) (some received) = some (sent + received)
total_of _ _ = none

-- `str(peer or "").split(":", 1)[0].strip().strip('"')`
unfoldable pub peer_ip : Option Text → Text
unfolding partition strip lstrip rstrip
peer_ip none = []
peer_ip (some peer) =
    let (ip, found, port) = partition b':' peer in
    rstrip (λ c. c == 34) (lstrip (λ c. c == 34) (strip ip))

module _ (fl : Floats) (round4 : fl.F → fl.F) where
  open fl use {F, of_nat, add}

  unfoldable pub full_duration : Option F → Option F → Option F
  full_duration (some setup) (some auth) = some (round4 (add setup auth))
  full_duration _ auth = auth

  unfoldable pub full_session_of : Figures F → Figures F → Figures F
  unfolding full_duration full_bytes
  full_session_of setup auth = record {
    duration_ms = full_duration setup.duration_ms auth.duration_ms;
    sent_bytes = full_bytes setup.sent_bytes auth.sent_bytes;
    received_bytes = full_bytes setup.received_bytes auth.received_bytes;
  }

  no_setup : Setup F
  no_setup = record {
    figures = record {
      duration_ms = some (of_nat 0);
      sent_bytes = some 0;
      received_bytes = some 0;
    };
    wall_elapsed_ms = some (of_nat 0);
  }

  row_of : Setup F → Figures F → SessionRow F
  unfolding full_session_of total_of
  row_of setup auth = record {
    setup = setup;
    auth = auth;
    full_session = full_session_of setup.figures auth;
    full_session_total_bytes =
        total_of (full_bytes setup.figures.sent_bytes auth.sent_bytes)
          (full_bytes setup.figures.received_bytes auth.received_bytes);
  }

  -- `add_full_session_metrics`: only ZK-ARCHE has a setup.
  unfoldable pub add_full_session_metrics : Text → Setup F → Figures F → SessionRow F
  unfolding no_setup row_of text_eq
  add_full_session_metrics protocol assignment metrics =
      row_of (if text_eq protocol (codes "zkarche") then assignment else no_setup) metrics

  -- `by_ip.get(ip)`: the last assignment with the address wins.
  unfoldable pub find_assignment : Text → List (Text × Figures F) → Option (Figures F)
  unfolding text_eq
  find_assignment ip [] = none
  find_assignment ip ((client_ip, setup) ∷ assignments) = elim (find_assignment ip assignments) [
    | some later ↦ some later
    | none ↦ if text_eq client_ip ip then some setup else none
  ]

  -- The columns that a server row is given: the setup, the full session and its total.
  abbrev pub ServerColumns : Type 0
  ServerColumns = Figures F × Figures F × Option ℕ

  abbrev server_columns : Figures F → Figures F → ServerColumns
  server_columns setup auth = (
    setup,
    full_session_of setup auth,
    total_of (full_bytes setup.sent_bytes auth.sent_bytes)
        (full_bytes setup.received_bytes auth.received_bytes),
  )

  -- `add_zkarche_server_full_session_fields` for one row.
  unfoldable pub add_server_fields :
      List (Text × Figures F) → Option Text → Figures F → ServerColumns
  unfolding find_assignment peer_ip full_session_of total_of
  add_server_fields assignments peer auth = elim (find_assignment (peer_ip peer) assignments) [
    | none ↦ server_columns no_figures auth
    | some setup ↦ server_columns setup auth
  ]
