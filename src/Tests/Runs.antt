-- ===== src/Tests/Runs.antt =====
-- Runs of the servers, the clients and a whole test.
use zk_arche_compare.Base.{
  ℕ, ◌*◌, ◌<◌, ◌≡◌, refl, true, Option, none, some, List, [], ◌∷◌, codes, text_eq, ok, os_error,
  contains_nat, length, get_elem?, arith,
}
use zk_arche_compare.Floats.Thousandths.{thousandths}
use zk_arche_compare.World.{World, spawned}
use zk_arche_compare.World.Live.{live, erase}
use zk_arche_compare.World.Ends.{Ends}
use zk_arche_compare.Runner.Server.{
  ServerHandle, ms, start_server, stop_server, parse_addr, dial_host, wait_port_open,
}
use zk_arche_compare.Runner.Server.Stopped.{serving, live-start_server, live-stop_server}
use zk_arche_compare.Runner.Server.Port.{Waited, wait_port_open-Waited}
use zk_arche_compare.Runner.Workdirs.{stamp_workdirs}
use zk_arche_compare.Runner.Workdirs.Fresh.{AllFresh, stamp_workdirs-AllFresh}
use zk_arche_compare.Runner.Batch.{
  run_clients_concurrent, task_outcome, settle, run_clients_sequential,
}
use zk_arche_compare.Runner.Batch.Order.{run_clients_concurrent_in_order}
use zk_arche_compare.Runner.Batch.Numbered.{
  OnReturn, AreNumbered, run_clients_sequential-AreNumbered,
}
use zk_arche_compare.Runner.Client.{ClientResult}
use zk_arche_compare.Tests.Machine.{
  open_machine, shut_machine, bare-IsTree, start, server_bin, work, addr, factory, schedule,
  show_error,
}

live-start_server_example :
    let (r, w') =
      start_server shut_machine server_bin [] addr work (codes "log" ∷ work) 2 (1000 * ms) start in
    live w'.log ≡ serving shut_machine r []
live-start_server_example =
    live-start_server shut_machine server_bin [] addr work (codes "log" ∷ work) 2 (1000 * ms) start

abbrev handle : ServerHandle
handle = record { pid = 7; addr = addr; log_path = codes "log" ∷ work; workdir = work }

abbrev running : World
running = record start { log = spawned 7 server_bin [] ∷ [] }

live-stop_server_example : live (stop_server open_machine handle running).log ≡ erase 7 (7 ∷ [])
live-stop_server_example = live-stop_server open_machine handle running

addr_parts : parse_addr addr ≡ ok (codes "0.0.0.0", 4000)
unfolding parse_addr codes text_eq
addr_parts = refl

wait_port_open-Waited_example :
    let (r, w') = wait_port_open shut_machine addr (200 * ms) start in
    Waited shut_machine (dial_host (codes "0.0.0.0")) 4000 (200 * ms) r w'
wait_port_open-Waited_example = wait_port_open-Waited shut_machine addr (200 * ms) start addr_parts

stamp_workdirs-AllFresh_example :
    let (r, w') = stamp_workdirs none work 3 (codes "c") start in
    Ends os_error (AllFresh work (codes "c") 3) r w'
stamp_workdirs-AllFresh_example = stamp_workdirs-AllFresh work (codes "c") 3 start bare-IsTree

both_complete : (j : ℕ) → j < 2 → contains_nat (1 ∷ 0 ∷ []) j ≡ true
both_complete j h = ground arith

run_clients_concurrent_in_order_example :
    (results : List (Option (ClientResult ℕ))) × (run_clients_concurrent thousandths show_error
        open_machine factory 2 30 none schedule start
      ≡ (ok results, start))
    × (length results ≡ 2)
    × ((j : ℕ)
        → j < 2
        → get_elem? results j
          ≡ some (
              some (
                settle thousandths show_error j
                  (task_outcome thousandths show_error open_machine factory 30 schedule j))))
run_clients_concurrent_in_order_example =
    run_clients_concurrent_in_order thousandths show_error open_machine factory 2 30 none schedule
      start (ground arith) both_complete

run_clients_sequential-AreNumbered_example :
    OnReturn
      (AreNumbered thousandths open_machine 5 3 0)
      (run_clients_sequential thousandths open_machine server_bin [] work 3 30 5 start).0
run_clients_sequential-AreNumbered_example =
    run_clients_sequential-AreNumbered thousandths open_machine server_bin [] work 3 30 5 start
