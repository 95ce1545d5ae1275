-- ===== src/Protocols.antt =====
-- benchmarks/lib/protocols.py, with the paths and addresses of benchmarks/lib/config.py: the table
-- of the protocols, the mTLS certificates, and the enrolment of ZK-ARCHE clients.
pub mod Enrolled
use zk_arche_compare.Base.{
  ℕ, ◌+◌, ◌*◌, Bool, true, false, ◌||◌, ◌&&◌, not, Option, none, some, List, [], ◌∷◌, ◌++◌, Text,
  codes, text_eq, Result, ok, raised, Error, runtime_error, called_process_error, timeout_error,
  ◌==◌, if◌then◌else◌,
}
use zk_arche_compare.Floats.{Floats}
use zk_arche_compare.World.{
  FilePath, World, Io, Os, act, pure, raise, lift, ◌>>=◌, ◌>>◌, run_process, Command, Completion,
  timed_out, completed,
}
use zk_arche_compare.World.Files.{exists, rmtree}
use zk_arche_compare.Runner.Server.{ServerHandle, ms}
use zk_arche_compare.Runner.Client.{ClientResult, run_client_once}

-- The constants of benchmarks/lib/config.py that depend on the machine.
pub record Config : Type 0 where
  pub repo_root : FilePath
  pub zkarche_server : FilePath
  pub zkarche_client : FilePath
  pub edhoc_server : FilePath
  pub edhoc_client : FilePath
  pub mtls_server : FilePath
  pub mtls_client : FilePath
  pub zkarche_bind : Text
  pub edhoc_bind : Text
  pub mtls_bind : Text
  pub mtls_sni : Text

pub record Protocol : Type 0 where
  pub name : Text
  pub display : Text
  pub server_bin : FilePath
  pub client_bin : FilePath
  pub bind_addr : Text
  pub server_args : FilePath → Bool → List Text
  pub client_args : FilePath → List Text
  pub client_setup_args : Option (FilePath → List Text)
  pub requires_enroll : Bool

abbrev pub pairing_token : Text
pairing_token = codes "zkb-bench-token"

-- `str(path)`
unfoldable pub path_text : FilePath → Text
path_text [] = codes "/"
path_text (x ∷ []) = b'/' ∷ x
path_text (x ∷ y ∷ p) = path_text (y ∷ p) ++ (b'/' ∷ x)

module _ (config : Config) where
  unfoldable pub zk_server_args : FilePath → Bool → List Text
  zk_server_args workdir pairing =
      codes "--bind"
      ∷ config.zkarche_bind
      ∷ (if pairing then codes "--pairing" ∷ codes "--pairing-token" ∷ pairing_token ∷ [] else [])

  unfoldable pub zk_client_args : FilePath → List Text
  zk_client_args workdir = codes "--server" ∷ config.zkarche_bind ∷ []

  unfoldable pub zk_client_setup_args : FilePath → List Text
  zk_client_setup_args workdir =
      codes "--server"
      ∷ config.zkarche_bind
      ∷ codes "--setup"
      ∷ codes "--pairing-token"
      ∷ pairing_token
      ∷ []

  unfoldable pub edhoc_server_args : FilePath → Bool → List Text
  edhoc_server_args workdir pairing = config.edhoc_bind ∷ []

  unfoldable pub edhoc_client_args : FilePath → List Text
  edhoc_client_args workdir = config.edhoc_bind ∷ []

  unfoldable pub mtls_server_args : FilePath → Bool → List Text
  mtls_server_args workdir pairing = config.mtls_bind ∷ []

  unfoldable pub mtls_client_args : FilePath → List Text
  mtls_client_args workdir = config.mtls_bind ∷ config.mtls_sni ∷ []

  unfoldable pub protocols : List Protocol
  unfolding zk_server_args zk_client_args zk_client_setup_args edhoc_server_args edhoc_client_args
      mtls_server_args mtls_client_args
  protocols =
      record {
        name = codes "zkarche";
        display = codes "ZK-ARCHE";
        server_bin = config.zkarche_server;
        client_bin = config.zkarche_client;
        bind_addr = config.zkarche_bind;
        server_args = zk_server_args;
        client_args = zk_client_args;
        client_setup_args = some zk_client_setup_args;
        requires_enroll = true;
      }
      ∷ record {
        name = codes "edhoc";
        display = codes "EDHOC";
        server_bin = config.edhoc_server;
        client_bin = config.edhoc_client;
        bind_addr = config.edhoc_bind;
        server_args = edhoc_server_args;
        client_args = edhoc_client_args;
        client_setup_args = none;
        requires_enroll = false;
      }
      ∷ record {
        name = codes "mtls";
        display = codes "mTLS";
        server_bin = config.mtls_server;
        client_bin = config.mtls_client;
        bind_addr = config.mtls_bind;
        server_args = mtls_server_args;
        client_args = mtls_client_args;
        client_setup_args = none;
        requires_enroll = false;
      }
      ∷ []

  -- `PROTOCOLS.get(name)`; each key of the table is the name of its protocol.
  unfoldable pub find_protocol : Text → List Protocol → Option Protocol
  find_protocol name [] = none
  find_protocol name (p ∷ ps) =
      let rest = find_protocol name ps in if text_eq p.name name then some p else rest

  module _ (os : Os) where
    -- `check=True`: any exit status but 0 raises. There is no time limit, which the limit 0 stands for.
    abbrev checked : Completion → Result (Unit {0})
    checked timed_out = raised timeout_error
    checked (completed status stdout stderr) =
        if status == 0 then ok tt else raised called_process_error

    abbrev generate_certs : FilePath → FilePath → Io (Unit {0})
    generate_certs repo_root script = do
      cp ←
          run_process os
            (record {
              binary = codes "bash" ∷ [];
              args = path_text script ∷ [];
              cwd = repo_root;
              env = os.environ;
            })
            0
      lift (checked cp)

    unfoldable pub ensure_mtls_certs : FilePath → Io (Unit {0})
    unfolding exists
    ensure_mtls_certs repo_root w =
        let certs_dir = codes "certs" ∷ repo_root in
        let script = codes "gen_certs.sh" ∷ codes "scripts" ∷ repo_root in
        if exists (codes "server.crt" ∷ certs_dir) w && exists (codes "client.crt" ∷ certs_dir) w
        then (ok tt, w)
        else if not (exists script w)
        then (raised runtime_error, w)
        else generate_certs repo_root script w

    module _ (fl : Floats) where
      abbrev pub wipe : FilePath → Io (Unit {0})
      wipe p w = if exists p w then rmtree p w else (ok tt, w)

      -- The enrolment of one client, and whether it succeeded.
      unfoldable pub enroll_one : ServerHandle → Text → FilePath → Io Bool
      unfolding exists
      enroll_one server token wd = do
        wipe (codes "state" ∷ wd)
        result ←
            run_client_once fl os config.zkarche_client
              (codes "--server"
                ∷ server.addr
                ∷ codes "--setup"
                ∷ codes "--pairing-token"
                ∷ token
                ∷ [])
              wd 30 0 0 []
        λ w. (
          ok (
              result.success
              || exists (codes "device_root.bin" ∷ codes "client" ∷ codes "state" ∷ wd) w),
          w,
        )

      -- An enrolment that failed raises, or is only reported.
      abbrev pub insist : Bool → Io (Unit {0})
      insist b w = if b then (ok tt, w) else (raised runtime_error, w)

      -- The clients that are left, and how many have enrolled.
      unfoldable pub enroll_zkarche_clients : ServerHandle → List FilePath → Text → Bool → ℕ → Io ℕ
      unfolding enroll_one
      enroll_zkarche_clients server [] token fail_on_error done = pure done
      enroll_zkarche_clients server (wd ∷ wds) token fail_on_error done = do
        enrolled ← enroll_one server token wd
        insist (enrolled || not fail_on_error)
        enroll_zkarche_clients server wds token fail_on_error (if enrolled then done + 1 else done)

-- `reset_server_state`
unfoldable pub reset_server_state : FilePath → Io (Unit {0})
unfolding exists
reset_server_state repo_root w =
    let state = codes "server" ∷ codes "state" ∷ repo_root in
    if exists state w then rmtree state w else (ok tt, w)
