-- ===== src/Tests/Machine.antt =====
-- A small machine: servers open their port at once or never, and each program prints one client
-- metric line and ends with status 0.
use zk_arche_compare.Base.{
  ℕ, ◌+◌, refl, Bool, true, false, none, some, [], ◌∷◌, Text, codes, length, Error, ok,
  if◌then◌else◌,
}
use zk_arche_compare.Results.{DevicePowerProfile}
use zk_arche_compare.Protocols.{Config}
use zk_arche_compare.World.Files.{path_eq}
use zk_arche_compare.World.{file, FilePath, dir, Files, World, Os, completed, connected, refused}
use zk_arche_compare.World.Files.Tree.{IsTree}
use zk_arche_compare.Runner.Batch.{Schedule, Factory}

abbrev pub metric_line : Text
metric_line = codes "CLIENT METRICS -> Duration: 2.5ms, Sent: 240 bytes, Received: 320 bytes"

abbrev machine : Bool → Os
machine opens = record {
  environ = [];
  pid = λ w. 100 + length w.log;
  dials = λ w host port. if opens then connected else refused;
  dial_ns = λ w. 1_000_000;
  oversleep_ns = λ w. 0;
  polls = λ w pid. false;
  found = λ w pid. true;
  waits = λ w pid limit. true;
  wait_ns = λ w pid limit. 5_000_000;
  launches = λ w c. true;
  completes = λ w c limit. completed 0 metric_line [];
  run_ns = λ w c limit. 3_000_000;
  leaves = λ w c. w.files;
}

abbrev pub open_machine : Os
open_machine = machine true

abbrev pub shut_machine : Os
shut_machine = machine false

-- Only the root directory.
abbrev pub bare : Files
bare [] = some dir
bare (x ∷ p) = none

pub bare-IsTree : IsTree bare
bare-IsTree = record { none_below = λ x p h. refl }

abbrev pub start : World
start = record { files = bare; clock = 0; log = [] }

abbrev pub server_bin : FilePath
server_bin = codes "server" ∷ []

abbrev pub work : FilePath
work = codes "work" ∷ []

abbrev pub addr : Text
addr = codes "0.0.0.0:4000"

abbrev pub factory : Factory
factory i = ok (codes "client" ∷ [], [], work)

-- Two clients, the second one the first to complete.
abbrev pub schedule : Schedule
schedule = record { starts = λ i. start; order = 1 ∷ 0 ∷ []; after = start }

abbrev pub show_error : Error → Text
show_error e = codes "error"

abbrev pub pi4 : DevicePowerProfile ℕ
pi4 = record { name = codes "Raspberry Pi 4 (4GB)"; idle_w = 2850; max_w = 6400; cpu_cores = 4 }

abbrev pub config : Config
config = record {
  repo_root = [];
  zkarche_server = server_bin;
  zkarche_client = server_bin;
  edhoc_server = server_bin;
  edhoc_client = server_bin;
  mtls_server = server_bin;
  mtls_client = server_bin;
  zkarche_bind = addr;
  edhoc_bind = addr;
  mtls_bind = addr;
  mtls_sni = codes "localhost";
}

abbrev pub installed : World
installed = record start {
  files = λ p. elim (path_eq p server_bin) [ true ↦ some (file []) | false ↦ start.files p ];
}
