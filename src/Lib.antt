-- ===== src/Lib.antt =====
-- The benchmark harness of the ZK-ARCHE comparison: the Python package under benchmarks/lib, which
-- starts the server of a protocol, runs its clients, reads the metric lines that they print, samples
-- the server and sums up the figures; and the Mininet experiment, which runs the same programs on the
-- hosts of an emulated network.
--
-- Shared parts:
--   Base         the names of the libraries, lists and texts over native numbers, exceptions as values
--   Floats       Python's float as a record of operations; IsIeee names the laws of IEEE 754 that a
--                theorem relies on. Thousandths is a concrete instance, Sorting is about `sorted`.
--   Regex        a backtracking matcher with the order of Python's `re`, for the one pattern in use
--   Strings      the methods of `str` in use
--   World        what the harness shares with the machine: a tree of files, a clock in nanoseconds and
--                a log of the events of server processes, the newest first. Io is a state monad with
--                exceptions. The record Os holds the answers of the machine, each of which may depend
--                on all that has happened. Live reads off a log the processes that were started and
--                not yet seen to end, gone or killed.
--
-- The program:
--   Parse        benchmarks/lib/parse.py: _METRICS_RE is metrics_re, parse_line, parse_stream and
--                first_client_metrics have their own names
--   Runner.Server    benchmarks/lib/runner.py: parse_addr, wait_port_open, start_server, stop_server
--   Runner.Client    the same file: run_client_once; client_result is what follows `subprocess.run`
--   Runner.Batch     the same file: run_clients_concurrent, for any schedule of its threads, and
--                run_clients_sequential
--   Runner.Workdirs  the same file: stamp_workdirs
--   Sampler      benchmarks/lib/sampler.py: _read_stat, _sample_once, _loop and summary
--   Results      benchmarks/lib/results.py: _percentile, LatencyStats.from_values (latency_stats),
--                estimate_energy_per_auth_mJ, the rows of write_iterations_csv; Results.Summary has
--                summarise
--   Protocols    benchmarks/lib/protocols.py: PROTOCOLS, ensure_mtls_certs, enroll_zkarche_clients
--   Driver       benchmarks/lib/driver.py: run_test without resource sampling, and require_binaries
--                of benchmarks/lib/config.py
--   Pmic         benchmarks/lib/pmic.py: VcgencmdPmicMeter.read_power_w (adc_power reads its lines),
--                StaticLinearMeter, and PowerSampler.summary (power_summary)
--   Meters       benchmarks/lib/config.py: detect_device, _env_int (env_int) and make_power_meter, with
--                HwmonInaMeter.autodetect and _detect_channel of benchmarks/lib/pmic.py
--   Workloads    benchmarks/tests: the workloads of test1_concurrent, test2_sequential, test3_highload
--   Plot         benchmarks/plot.py: load_csv (load_rows), on the rows that the csv module splits
--   Sessions     experiments/mininet/mininet_tests_123.py: add_full_session_metrics and, for one row,
--                add_zkarche_server_full_session_fields (add_server_fields)
--   Mininet      the rest of experiments/mininet/mininet_tests_123.py, under the names of the source:
--     Lab          the state of the runner: files, clock, environment and all acts so far, the newest
--                  first. M is a state monad with exceptions over it. The record Kit holds the answers
--                  of Mininet, of `random` and of the programs, each of which may depend on the lab.
--     Profiles     the constants and tables, and the draws from them
--     Shell        shlex.quote (quote), the commands of the clients, and parse_rc_output
--     Metrics, ServerLog   the metric lines of clients and servers
--     Clients      make_assignments
--     Topology     build_network, whose network is a value: hosts, switches and links
--     Traffic      start_background_traffic and stop_background_traffic
--     Prepare      prepare_project, the certificates, start_server
--     Enrol        prepare_zkarche_state
--     Rows, Csv    base_row and the other columns, write_csv
--     Batch        execute_concurrent_batch and execute_sequential
--     Trials       the three tests of a protocol (run_tests), with collect_server_metrics after each
--     Run          run_protocol_tests (over_network is its `try`, clean_up its `finally`), parse_args
--                  as the record Args, and main
-- Parse serves Runner.Client, whose results Results sums up; Driver composes Runner, Protocols and
-- Results, and takes the workload of a test as an argument, which Workloads gives.
--
-- Bounds: a wait for a port has timeout / 50 ms + 2 rounds of fuel, and each refused round lasts 50 ms
-- or more, so that the deadline passes first. `start_server` counts its attempts down. show_nat has
-- one digit of fuel more than the number. The log of the enrolment is read at most 20
-- times, as in the source (setup_rows). Times are whole nanoseconds.
--
-- Exceptions: an attempt to connect may raise any Exception, and only an OSError is followed by
-- another attempt; a client that cannot be started is an OSError; fsum, stdev and float may raise.
-- Mininet's calls raise no SystemExit, and neither do the factories and client runs of a batch.
--
-- Not modelled: printed progress; the text of exceptions; the contents of server logs beyond their
-- truncation; the `Popen` of a server that fails, since require_binaries has seen the programs; threads
-- beyond the order in which their work is done; the sampled form of run_test, the readings of an INA
-- sensor, the drawing of plots, print_batch_summary and the other printed lines of the Mininet
-- experiment, the three older Mininet scripts, the security experiments, and the Rust and C programs,
-- which are the processes that the harness measures.
pub mod Base
pub mod Floats
pub mod Regex
pub mod Strings
pub mod Parse
pub mod World
pub mod Runner
pub mod Sampler
pub mod Results
pub mod Pmic
pub mod Meters
pub mod Protocols
pub mod Driver
pub mod Workloads
pub mod Sessions
pub mod Plot
pub mod Mininet
pub mod Tests
