-- ===== src/Mininet/Shell.antt =====
-- experiments/mininet/mininet_tests_123.py: the commands for the shells of the hosts, and the exit status
-- that a wrapped command prints.
pub mod Quoted
pub mod Status
use zk_arche_compare.Base.{
  ℕ, zero, suc, ◌-◌, Bool, true, false, ◌||◌, ◌&&◌, Option, none, some, List, [], ◌∷◌, ◌++◌, Text,
  codes, text_eq, is_digit, Result, ok, raised, value_error, ◌==◌, leb, length, drop, if◌then◌else◌,
}
use zk_arche_compare.Regex.{Re, lit, seq, group, many1, Captures, match_at, search_in, capture}
use zk_arche_compare.Strings.{strip, digits_value, show_nat}
use zk_arche_compare.Mininet.Lab.{Kit, M, pure, lift, ◌>>=◌, host_cmd, host_open}
use zk_arche_compare.Mininet.Profiles.{server_ip, ProtocolConfig, config_of}

-- The characters that `shlex.quote` leaves bare: `[\w@%+=:,./-]`, ASCII only.
unfoldable pub is_safe : ℕ → Bool
unfolding is_digit
is_safe c =
    is_digit c
    || (leb b'A' c && leb c b'Z')
    || (leb b'a' c && leb c b'z')
    || c == b'_'
    || c == b'@'
    || c == b'%'
    || c == b'+'
    || c == b'='
    || (leb b',' c && leb c b'/')
    || c == b':'

unfoldable pub all_safe : Text → Bool
unfolding is_safe
all_safe [] = true
all_safe (c ∷ s) = is_safe c && all_safe s

-- Each `'` becomes `'"'"'`; the closing quote stands at the end.
unfoldable pub quoted_end : Text → Text
quoted_end [] = 39 ∷ []
quoted_end (c ∷ s) =
    let rest = quoted_end s in if c == 39 then 39 ∷ 34 ∷ 39 ∷ 34 ∷ 39 ∷ rest else c ∷ rest

-- `shlex.quote`
unfoldable pub quote : Text → Text
unfolding all_safe quoted_end
quote [] = 39 ∷ 39 ∷ []
quote (c ∷ s) = if all_safe (c ∷ s) then c ∷ s else 39 ∷ quoted_end (c ∷ s)

unfoldable pub wrapped_shell_cmd : Text → Text
unfolding quote
wrapped_shell_cmd cmd =
    codes "bash -lc " ++ quote (codes "(" ++ cmd ++ codes ") 2>&1; rc=$?; echo __RC_${rc}__")

-- __RC_(\d+)__
abbrev pub rc_re : Re
rc_re = seq (lit (codes "__RC_")) (seq (group 1 (many1 is_digit)) (lit (codes "__")))

-- `re.sub(e, "", s)` for a pattern that matches no empty text; so many characters are still to be
-- left out.
unfoldable pub remove_from : Re → ℕ → Text → Text
unfolding match_at capture
remove_from e n [] = []
remove_from e (suc n) (c ∷ s) = remove_from e n s
remove_from e zero (c ∷ s) = elim (match_at (group 0 e) (c ∷ s)) [
  | none ↦ c ∷ remove_from e 0 s
  | some m ↦ remove_from e (length (drop 1 (capture 0 m))) s
]

unfoldable pub rc_of : Option Captures → ℕ
unfolding capture digits_value
rc_of none = 999
rc_of (some m) = digits_value 0 (capture 1 m)

unfoldable pub parse_rc_output : Text → ℕ × Text
unfolding search_in rc_of remove_from strip
parse_rc_output output = (rc_of (search_in rc_re output), strip (remove_from rc_re 0 output))

-- `f"{SERVER_IP}:{cfg['port']}"`
unfoldable pub server_addr : ProtocolConfig → Text
unfolding show_nat
server_addr cfg = server_ip ++ codes ":" ++ show_nat cfg.port

abbrev pub zkenv : Text
zkenv =
    codes "ZKARCHE_FAST_LOOKUP=${ZKARCHE_FAST_LOOKUP:-1} "
    ++ codes "ZKARCHE_BENCH_MODE=${ZKARCHE_BENCH_MODE:-1} "
    ++ codes "ZKARCHE_DEVICE_ONLY=${ZKARCHE_DEVICE_ONLY:-0} "

-- `cd {dir} && ` and the command
unfoldable pub in_dir : Text → Text → Text
unfolding quote
in_dir dir cmd = codes "cd " ++ quote dir ++ codes " && " ++ cmd

-- `{label}_DEVICE_ID={id} {label}_PAYLOAD={payload} {binary} {args}`
unfoldable pub with_device : Text → Text → Text → Text → Text → Text
unfolding quote
with_device label device_id payload client_bin args =
    label
    ++ codes "_DEVICE_ID="
    ++ quote device_id
    ++ codes " "
    ++ label
    ++ codes "_PAYLOAD="
    ++ quote payload
    ++ codes " "
    ++ quote client_bin
    ++ codes " "
    ++ args

-- The command of a client, whose directory is given as a text and by its last component.
unfoldable pub command_for : Text → Text → Text → Text → Text → Result Text
unfolding text_eq in_dir with_device quote
command_for protocol addr client_bin dir name =
    if text_eq protocol (codes "zkarche")
    then ok (in_dir dir (zkenv ++ quote client_bin ++ codes " --server " ++ addr))
    else if text_eq protocol (codes "mtls")
    then ok (
        in_dir dir (
          with_device (codes "MTLS") name (codes "mininet-industry-style-mtls-auth-check")
            client_bin (addr ++ codes " localhost")))
    else if text_eq protocol (codes "edhoc")
    then ok (
        in_dir dir (
          with_device (codes "EDHOC") name (codes "mininet-industry-style-edhoc-protected-request")
            client_bin addr))
    else raised value_error

unfoldable pub client_auth_cmd : Text → Text → Text → Text → Result Text
unfolding config_of command_for server_addr
client_auth_cmd protocol client_bin dir name = elim (config_of protocol) [
  | raised e ↦ raised e
  | ok cfg ↦ command_for protocol (server_addr cfg) client_bin dir name
]

module _ (kit : Kit) where
  unfoldable pub host_cmd_with_status : Text → Text → M (ℕ × Text)
  host_cmd_with_status host cmd = do
    output ← host_cmd kit host (wrapped_shell_cmd cmd)
    pure (parse_rc_output (strip output))

  unfoldable pub host_popen : Text → Text → M ℕ
  host_popen host cmd = host_open kit host (wrapped_shell_cmd cmd)
