-- ===== src/Mininet/Batch/Numbered.antt =====
-- One row for each client of a concurrent batch.
use zk_arche_compare.Base.{ℕ, suc, ◌+◌, ◌≡◌, refl, sym, List, [], ◌∷◌, Text, arith, length}
use mathlib.Core.Path.{subst}
use zk_arche_compare.Mininet.Lab.{Kit, Lab, attempt, communicated}
use zk_arche_compare.Mininet.Lab.Returns.{
  Returns, Returns-continue, Returns-weaken, Pairs, Returns-each, Quiet, host_open-Returns,
}
use zk_arche_compare.Mininet.Shell.{parse_rc_output, host_popen, wrapped_shell_cmd}
use zk_arche_compare.Mininet.Metrics.{parse_client_metrics}
use zk_arche_compare.Mininet.Clients.{Assignment}
use zk_arche_compare.Mininet.Rows.{AuthRow, base_row, status_of}
use zk_arche_compare.Mininet.Batch.{
  Run, Launched, auth_command, auth_row, launch, communicate, finish, execute_concurrent_batch,
}

module _ (kit : Kit) where
  open kit use {fl}
  open fl use {F}

  -- The row of the client in the given place, counted from 1, with the status that its exit status
  -- and its metrics call for.
  pub record IsRow (run : Run) (place : ℕ) (a : Assignment F) (r : AuthRow F) : Type 0 where
    pub numbered : (r.base.run_index ≡ place) × (r.base.iteration ≡ place)
    pub of_round : r.base.round_index ≡ run.round_index
    pub of_client : r.base.client_host ≡ a.client_host
    pub judged : r.status ≡ status_of kit r.return_code r.metrics

  abbrev pub AreRows : Run → ℕ → List (Assignment F) → List (AuthRow F) → Type 0
  AreRows run i [] [] = Unit
  AreRows run i [] (r ∷ rows) = ⊥
  AreRows run i (a ∷ assignments) [] = ⊥
  AreRows run i (a ∷ assignments) (r ∷ rows) =
      IsRow run (i + 1) a r × AreRows run (suc i) assignments rows

  abbrev AreLaunched : ℕ → List (Assignment F) → List (Launched F) → Type 0
  AreLaunched i [] [] = Unit
  AreLaunched i [] (l ∷ ls) = ⊥
  AreLaunched i (a ∷ assignments) [] = ⊥
  AreLaunched i (a ∷ assignments) (l ∷ ls) =
      ((l.position ≡ i) × (l.assignment ≡ a)) × AreLaunched (suc i) assignments ls

  -- Every output of a process can be read: it has no duration that is no number.
  abbrev pub Readable : Type 0
  Readable =
      (lab : Lab) (p : ℕ)
      → Returns (λ m. Unit {0}) (parse_client_metrics kit (parse_rc_output (kit.prints lab p)).1)

  -- The protocol has a command for every client.
  abbrev pub HasCommand : Text → Text → Type 0
  HasCommand protocol client_bin =
      (a : Assignment F) → Returns (λ cmd. Unit {0}) (auth_command kit protocol client_bin a)

  launch-AreLaunched :
      Quiet kit
      → (protocol client_bin : Text) (i : ℕ) (clients : List Text)
        (assignments : List (Assignment F)) (lab : Lab)
      → HasCommand protocol client_bin
      → length clients ≡ length assignments
      → Returns
          (AreLaunched i assignments)
          (launch kit protocol client_bin i clients assignments lab).0
  unfolding launch host_popen
  launch-AreLaunched quiet protocol client_bin i [] [] lab known e = tt
  launch-AreLaunched quiet protocol client_bin i [] (a ∷ assignments) lab known e = ground arith
  launch-AreLaunched quiet protocol client_bin i (c ∷ clients) [] lab known e = ground arith
  launch-AreLaunched quiet protocol client_bin i (c ∷ clients) (a ∷ assignments) lab known e =
      Returns-continue _ _ (auth_command kit protocol client_bin a) _ lab (known a) λ cmd _.
        Returns-continue _ _ (host_popen kit c cmd lab).0 _ _
          (host_open-Returns kit quiet c (wrapped_shell_cmd cmd) lab)
          λ p _.
            Returns-continue _ _
              (launch kit protocol client_bin (suc i) clients assignments
                (host_popen kit c cmd lab).1).0
              _ _
              (launch-AreLaunched quiet protocol client_bin (suc i) clients assignments _ known
                (omega (arith, e)))
              λ rest h. ((refl, refl), h)

  communicate-Returns :
      Quiet kit
      → (p : ℕ) (lab : Lab) → Returns (λ t. t ≡ kit.prints lab p) (communicate kit p lab).0
  unfolding communicate attempt
  communicate-Returns quiet p lab = rw (quiet lab (communicated p)) refl

  finish-IsRow :
      Quiet kit
      → Readable
      → (run : Run) (batch_start : ℕ) (l : Launched F) (lab : Lab)
      → Returns (IsRow run (l.position + 1) l.assignment) (finish kit run batch_start l lab).0
  unfolding finish auth_row base_row
  finish-IsRow quiet readable run batch_start l lab =
      Returns-continue _ _ (communicate kit l.process lab).0 _ _
        (communicate-Returns quiet l.process lab)
        λ output e.
          Returns-continue _ _ (parse_client_metrics kit (parse_rc_output output).1) _ _
            (subst (λ t. Returns (λ m. Unit {0}) (parse_client_metrics kit (parse_rc_output t).1))
              (sym e) (readable lab l.process))
            λ metrics _. record {
              numbered = (refl, refl);
              of_round = refl;
              of_client = refl;
              judged = refl;
            }

  rows-AreRows :
      (run : Run) (i : ℕ) (assignments : List (Assignment F)) (ls : List (Launched F))
      (rows : List (AuthRow F))
      → AreLaunched i assignments ls
      → Pairs (λ l r. IsRow run (l.position + 1) l.assignment r) ls rows
      → AreRows run i assignments rows
  rows-AreRows run i [] [] [] h k = tt
  rows-AreRows run i [] [] (r ∷ rows) h k = absurd k
  rows-AreRows run i [] (l ∷ ls) rows h k = absurd h
  rows-AreRows run i (a ∷ assignments) [] rows h k = absurd h
  rows-AreRows run i (a ∷ assignments) (l ∷ ls) [] h k = absurd k
  rows-AreRows run i (a ∷ assignments) (l ∷ ls) (r ∷ rows) ((p, e), h) (k, ks) = (
    subst (λ b. IsRow run (i + 1) b r) e (subst (λ j. IsRow run (j + 1) l.assignment r) p k),
    rows-AreRows run (suc i) assignments ls rows h ks,
  )

  -- A concurrent batch returns one row for each client, in the order of the clients: its run index and
  -- iteration are the client's place counted from 1, it names the round and the client's host, and its
  -- status is the one for its exit status and metrics. This holds where no act of Mininet raises, no
  -- output has a duration that is no number, the protocol has a command for each client, and each
  -- client has an assignment.
  pub execute_concurrent_batch-AreRows :
      Quiet kit
      → Readable
      → (run : Run) (client_bin : Text) (clients : List Text) (assignments : List (Assignment F))
        (lab : Lab)
      → HasCommand run.protocol client_bin
      → length clients ≡ length assignments
      → Returns
          (AreRows run 0 assignments)
          (execute_concurrent_batch kit run client_bin clients assignments lab).0
  unfolding execute_concurrent_batch
  execute_concurrent_batch-AreRows quiet readable run client_bin clients assignments lab known e =
      Returns-continue _ _ (launch kit run.protocol client_bin 0 clients assignments lab).0 _ _
        (launch-AreLaunched quiet run.protocol client_bin 0 clients assignments lab known e)
        λ ls h.
          Returns-weaken _ _ _ (λ rows k. rows-AreRows run 0 assignments ls rows h k)
            (Returns-each _ (finish kit run lab.world.clock)
              (finish-IsRow quiet readable run lab.world.clock) ls
              (launch kit run.protocol client_bin 0 clients assignments lab).1)
