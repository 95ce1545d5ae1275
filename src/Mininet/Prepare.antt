-- ===== src/Mininet/Prepare.antt =====
-- experiments/mininet/mininet_tests_123.py: what is made ready before the tests: the programs, the
-- certificates and the allow-list of mTLS, and the server of a protocol.
use zk_arche_compare.Base.{
  ℕ, Bool, true, false, ◌&&◌, ◌||◌, not, Option, none, some, List, [], ◌∷◌, ◌++◌, Text, codes,
  text_eq, map, Result, ok, raised, value_error, os_error, runtime_error, called_process_error,
  ◌==◌, range_from, if◌then◌else◌,
}
use zk_arche_compare.Strings.{strip}
use zk_arche_compare.World.{FilePath, Files, World, Io}
use zk_arche_compare.World.Files.{
  exists, is_dir, under, rebase, mkdirs, write_text, parent, with_dirs,
}
use zk_arche_compare.Mininet.Lab.{
  Kit, M, pure, lift, files, act, when, ◌>>=◌, ◌>>◌, perform, ran_local, sleep, host_cmd,
}
use zk_arche_compare.Mininet.Profiles.{config_of, pairing_token}
use zk_arche_compare.Mininet.Shell.{quote, server_addr, in_dir}
use zk_arche_compare.Mininet.ServerLog.{server_log_path}
use zk_arche_compare.Mininet.Clients.{Assignment, pi_name}

-- `sep.join(xs)`
unfoldable pub joined_by : Text → List Text → Text
joined_by sep [] = []
joined_by sep (x ∷ []) = x
joined_by sep (x ∷ y ∷ xs) = x ++ sep ++ joined_by sep (y ∷ xs)

-- The target keeps what the source does not have; no path is a file on one side and a directory on
-- the other.
abbrev with_merge : FilePath → FilePath → Files → Files
with_merge from to fs q = elim (under to q) [
  | true ↦ elim (fs (rebase from to q)) [ some n ↦ some n | none ↦ fs q ]
  | false ↦ with_dirs to fs q
]

-- `shutil.copytree(from, to, dirs_exist_ok=True)`
unfoldable pub copytree_over : FilePath → FilePath → Io (Unit {0})
unfolding exists is_dir under rebase
copytree_over from to w =
    if not (is_dir from w) || (exists to w && not (is_dir to w))
    then (raised os_error, w)
    else (ok tt, record w { files = with_merge from to w.files })

-- `any(not (cert_dir / name).exists() for name in needed)`
unfoldable pub some_missing : List FilePath → World → Bool
unfolding exists
some_missing [] w = false
some_missing (p ∷ ps) w = not (exists p w) || some_missing ps w

unfoldable pub needed_certs : FilePath → List FilePath
needed_certs certs =
    map (λ name. name ∷ certs)
      (codes "ca.crt"
        ∷ codes "client.crt"
        ∷ codes "client.key"
        ∷ codes "server.crt"
        ∷ codes "server.key"
        ∷ [])

-- `protocol in names`
unfoldable pub member : Text → List Text → Bool
unfolding text_eq
member t [] = false
member t (x ∷ xs) = text_eq x t || member t xs

unfoldable pub allowlist_text : Text → Text
allowlist_text fp = codes "# Authorized mTLS client certificate fingerprints\n" ++ fp ++ codes "\n"

abbrev mtls_prefix : Text
mtls_prefix =
    codes "MTLS_MAX_ACTIVE_CONNECTIONS=128 "
    ++ codes "MTLS_ALLOWED_CLIENTS_FILE=certs/authorized_clients.txt "

-- The ids of the clients that EDHOC lets in.
unfoldable pub allowed_ids : ℕ → Text
unfolding joined_by pi_name
allowed_ids n = joined_by (codes ",") (map pi_name (range_from 1 n))

abbrev edhoc_prefix : Text
unfolding quote allowed_ids
edhoc_prefix =
    codes "EDHOC_MAX_ACTIVE_CONNECTIONS=128 "
    ++ codes "EDHOC_TIMEOUT_SECS=5 "
    ++ codes "EDHOC_ALLOWED_DEVICE_IDS="
    ++ quote (allowed_ids 500)
    ++ codes " "

-- The prefix and the arguments of the server program. The variable `server_env` of ZK-ARCHE is set
-- and not used.
unfoldable pub server_words : Text → Text → Result (Text × Text)
unfolding text_eq quote allowed_ids
server_words protocol bind =
    if text_eq protocol (codes "zkarche")
    then ok
        ([], codes "--bind " ++ bind ++ codes " --pairing --pairing-token " ++ quote pairing_token)
    else if text_eq protocol (codes "mtls")
    then ok (mtls_prefix, bind)
    else if text_eq protocol (codes "edhoc")
    then ok (edhoc_prefix, bind)
    else raised value_error

unfoldable pub server_command : Text → Text → Text → Text → Text → Text
unfolding in_dir quote server_log_path
server_command protocol dir prefix server_bin args = in_dir dir (
    prefix
    ++ quote server_bin
    ++ codes " "
    ++ args
    ++ codes " > "
    ++ server_log_path protocol
    ++ codes " 2>&1 &")

module _ (kit : Kit) where
  open kit use {fl, local_output, der, sha256_hex, show_path}
  open fl use {F}

  unfoldable pub local_result : Bool → ℕ × Text → Result Text
  unfolding strip
  local_result check (rc, output) =
      if check && not (rc == 0) then raised runtime_error else ok (strip output)

  -- The flag is `check`.
  unfoldable pub run_local : Bool → Text → Option FilePath → M Text
  run_local check cmd cwd lab =
      (local_result check (local_output lab cmd cwd), perform kit (ran_local cmd cwd) lab)

  abbrev digest : Option (List ℕ) → Result Text
  digest none = raised called_process_error
  digest (some bytes) = ok (sha256_hex bytes)

  -- The program `openssl` runs once.
  unfoldable pub cert_fingerprint_sha256_pem : FilePath → M Text
  cert_fingerprint_sha256_pem cert lab = (
    digest (der lab cert),
    perform kit
        (ran_local (codes "openssl x509 -in " ++ show_path cert ++ codes " -outform der") none) lab,
  )

  abbrev pub allowlist_path : FilePath → FilePath
  allowlist_path workdir = codes "authorized_clients.txt" ∷ codes "certs" ∷ codes "server" ∷ workdir

  unfoldable pub prepare_mtls_authorized_clients : FilePath → FilePath → M Text
  prepare_mtls_authorized_clients project_root workdir = do
    fp ← cert_fingerprint_sha256_pem (codes "client.crt" ∷ codes "certs" ∷ project_root)
    files (mkdirs (parent (allowlist_path workdir)))
    files (write_text (allowlist_path workdir) (allowlist_text fp))
    pure fp

  -- `if not p.exists(): raise FileNotFoundError`
  unfoldable pub require_file : FilePath → M (Unit {0})
  require_file p lab = if exists p lab.world then (ok tt, lab) else (raised os_error, lab)

  unfoldable pub find_bins : FilePath → List Text → M (List (Text × (Text × Text)))
  find_bins root [] = pure []
  find_bins root (protocol ∷ protocols) = do
    cfg ← lift (config_of protocol)
    require_file (cfg.server_bin ∷ codes "release" ∷ codes "target" ∷ root)
    require_file (cfg.client_bin ∷ codes "release" ∷ codes "target" ∷ root)
    rest ← find_bins root protocols
    pure (
        (
          protocol,
          (
            show_path (cfg.server_bin ∷ codes "release" ∷ codes "target" ∷ root),
            show_path (cfg.client_bin ∷ codes "release" ∷ codes "target" ∷ root),
          ),
        )
        ∷ rest)

  -- A directory that is missing holds none of the needed files.
  unfoldable pub ensure_certs : FilePath → List Text → M (Unit {0})
  ensure_certs root protocols lab =
      let certs = codes "certs" ∷ root in
      if member (codes "mtls") protocols
        && (not (exists certs lab.world) || some_missing (needed_certs certs) lab.world)
      then (run_local true (codes "bash scripts/gen_certs.sh") (some root) >>= λ out. pure tt) lab
      else (ok tt, lab)

  -- The root is a path that `resolve` has made absolute.
  unfoldable pub prepare_project : FilePath → List Text → M (List (Text × (Text × Text)))
  prepare_project root protocols = do
    require_file (codes "Cargo.toml" ∷ root)
    ensure_certs root protocols
    out ← run_local true (codes "cargo build --release --bins") (some root)
    find_bins root protocols

  unfoldable pub copy_to_clients : FilePath → List (Assignment F) → M (Unit {0})
  copy_to_clients src [] = pure tt
  copy_to_clients src (a ∷ assignments) = do
    files (copytree_over src (codes "certs" ∷ a.client_workdir))
    copy_to_clients src assignments

  unfoldable pub copy_certs : FilePath → FilePath → List (Assignment F) → M (Unit {0})
  copy_certs src server_dir assignments = do
    files (mkdirs server_dir)
    files (copytree_over src (codes "certs" ∷ server_dir))
    copy_to_clients src assignments

  unfoldable pub copy_certs_if_needed :
      FilePath → Text → FilePath → List (Assignment F) → M (Unit {0})
  copy_certs_if_needed root protocol workdir assignments = do
    cfg ← lift (config_of protocol)
    when cfg.needs_certs (copy_certs (codes "certs" ∷ root) (codes "server" ∷ workdir) assignments)

  unfoldable pub start_server : Text → Text → FilePath → M (Unit {0})
  start_server protocol server_bin workdir = do
    cfg ← lift (config_of protocol)
    files (mkdirs (codes "server" ∷ workdir))
    given ← lift (server_words protocol (server_addr cfg))
    output ←
        host_cmd kit (codes "server") (
          server_command protocol (show_path (codes "server" ∷ workdir)) given.0 server_bin given.1)
    act (sleep kit 1_000_000_000)
