-- ===== src/Tests/Workloads.antt =====
-- The workloads of the tests and a reading of the power sensors.
use zk_arche_compare.Base.{
  raised, os_error, if◌then◌else◌, ◌+◌, ℕ, ◌<◌, ◌≡◌, refl, true, false, none, some, List, [], ◌∷◌,
  ◌++◌, Text, codes, text_eq, ok, contains_nat, arith,
}
use zk_arche_compare.Floats.Thousandths.{thousandths}
use zk_arche_compare.Strings.{partition, int_of}
use zk_arche_compare.World.Live.{live}
use zk_arche_compare.Meters.{
  make_power_meter, autodetect, find_ina, is_ina, detect_channel, has_channel,
}
use zk_arche_compare.World.Files.{exists}
use zk_arche_compare.World.Files.{path_eq}
use zk_arche_compare.World.{FilePath, World, file}
use zk_arche_compare.Runner.Client.{ClientResult}
use zk_arche_compare.Protocols.{Protocol}
use zk_arche_compare.Driver.{TestContext}
use zk_arche_compare.Sessions.{Figures, Setup, add_full_session_metrics}
use zk_arche_compare.Sessions.Sums.{add_full_session_metrics-total}
use zk_arche_compare.Workloads.{test1_workload, run_test2}
use zk_arche_compare.Workloads.Clean.{run_test2-leaves_no_server}
use zk_arche_compare.Workloads.Tagged.{AreTagged, test1_workload-AreTagged}
use zk_arche_compare.Pmic.{adc_line, adc_power, is_bus}
use zk_arche_compare.Pmic.Buses.{adc_power-bus}
use zk_arche_compare.Tests.Machine.{
  open_machine, start, installed, config, pi4, server_bin, work, addr, schedule, show_error,
}

run_test2-leaves_no_server_example :
    live
      (run_test2 thousandths open_machine show_error config
        (codes "host")
        pi4
        (λ s. [])
        3
        (codes "zkarche")
        installed).1.log
    ≡ []
run_test2-leaves_no_server_example =
    run_test2-leaves_no_server thousandths open_machine show_error config (codes "host") pi4
      (λ s. []) 3 (codes "zkarche") installed

abbrev edhoc : Protocol
edhoc = record {
  name = codes "edhoc";
  display = codes "EDHOC";
  server_bin = server_bin;
  client_bin = server_bin;
  bind_addr = addr;
  server_args = λ d pairing. [];
  client_args = λ d. [];
  client_setup_args = none;
  requires_enroll = false;
}

abbrev context : TestContext
context = record {
  protocol = edhoc;
  server = record { pid = 100; addr = addr; log_path = []; workdir = work };
  server_workdir = work;
  client_workdirs = (codes "c_000" ∷ work) ∷ (codes "c_001" ∷ work) ∷ [];
}

both_done : (j : ℕ) → j < 2 → contains_nat (1 ∷ 0 ∷ []) j ≡ true
both_done j h = ground arith

test1_workload-AreTagged_example :
    (out : List (ClientResult ℕ)) × (test1_workload thousandths open_machine show_error 2
        (λ w. schedule)
        context
        start
      ≡ (ok out, start))
    × AreTagged 0 2 out
test1_workload-AreTagged_example =
    test1_workload-AreTagged thousandths open_machine show_error 2 (λ w. schedule) context start
      (ground arith) both_done

abbrev bus_line : Text
bus_line = codes " EXT5V_V volt(24)=4.960V"

bus_line_value : adc_line thousandths bus_line ≡ some (b'V', codes "EXT5V", 4960)
unfolding adc_line codes text_eq partition int_of
bus_line_value = refl

bus_line_rail : is_bus (codes "EXT5V") ≡ true
unfolding is_bus codes text_eq
bus_line_rail = refl

adc_power-bus_example :
    adc_power thousandths (
      (codes "3V3_SYS_A current(1)=0.500A" ∷ [])
      ++ (bus_line ∷ codes "3V3_SYS_V volt(9)=3.300V" ∷ []))
    ≡ adc_power thousandths
        ((codes "3V3_SYS_A current(1)=0.500A" ∷ []) ++ (codes "3V3_SYS_V volt(9)=3.300V" ∷ []))
adc_power-bus_example =
    adc_power-bus thousandths (codes "3V3_SYS_A current(1)=0.500A" ∷ [])
      (codes "3V3_SYS_V volt(9)=3.300V" ∷ []) bus_line bus_line_value bus_line_rail

-- An INA219 as the second entry, on channel 1.
abbrev entries : List FilePath
entries = (codes "hwmon0" ∷ []) ∷ (codes "hwmon1" ∷ []) ∷ []

abbrev wired : World
wired = record start {
  files = λ p.
      if path_eq p (codes "name" ∷ codes "hwmon1" ∷ [])
      then some (file (codes "ina219"))
      else if path_eq p (codes "power1_input" ∷ codes "hwmon1" ∷ [])
      then some (file (codes "5000000"))
      else start.files p;
}

-- Without a channel the automatic choice raises, and does not fall back to the static model.
abbrev unwired : World
unwired = record start {
  files = λ p.
      if path_eq p (codes "name" ∷ codes "hwmon1" ∷ [])
      then some (file (codes "ina219"))
      else start.files p;
}

no_channel_raises : make_power_meter [] false (λ p. true) entries unwired ≡ raised os_error
unfolding make_power_meter codes text_eq autodetect find_ina is_ina path_eq detect_channel
    has_channel exists
no_channel_raises = refl

abbrev enrolled : Setup ℕ
enrolled = record {
  figures = record { duration_ms = some 8000; sent_bytes = some 300; received_bytes = none };
  wall_elapsed_ms = some 9000;
}

abbrev authenticated : Figures ℕ
authenticated = record { duration_ms = some 2500; sent_bytes = some 240; received_bytes = some 320 }

add_full_session_metrics-total_example :
    (add_full_session_metrics thousandths
      (λ x. x)
      (codes "zkarche")
      enrolled
      authenticated).full_session_total_bytes
    ≡ some (240 + 320 + (if text_eq (codes "zkarche") (codes "zkarche") then 300 + 0 else 0))
add_full_session_metrics-total_example =
    add_full_session_metrics-total thousandths (λ x. x) (codes "zkarche") enrolled authenticated 240
      320 refl refl
