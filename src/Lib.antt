-- ===== src/Lib.antt =====
-- vSwarm-u runs serverless functions in the gem5 simulator. This library models the Python code of
-- the repository: the scripts that gem5 runs, the systems that they simulate, the check of their
-- logs, and the scripts that download and upload the artifacts of a release.
--
-- The parts and their files:
--
-- Base: lists, options, integers and texts. `Text` is a list of character codes; `ℤ` stands on the
--   native numbers. `digits` runs on n + 1 steps of fuel for a number n, which has at most n + 1
--   digits.
-- CommandLine: Python's argparse as the scripts use it, with the digits of `int` in ASCII; its child
--   Parser has the loop over the arguments; Options and Simulation have the options of the scripts of
--   simulation/wkdir-tmpl and what the scripts read of them, Release those of resources. What stands
--   behind a bare `--` is taken for positional arguments, and a value `--` is an empty list.
-- Control: what the scripts of simulation/wkdir-tmpl share: the command line (`Args`), the exit
--   events of gem5 (`ExitEvent`), and what the scripts ask of gem5 (`Action`). A script is a function
--   from a list of exit events to the actions that it asks for: `m5.simulate()` returns the next event
--   of the list, and a script whose list has run out is still waiting. Printed lines are actions too.
-- Control/RunSim: run_sim.tmpl.py, with `workitem`, `executeM5FailCode`, `simulate` and the main
--   block. The globals `inv_to_warm` and `inv_to_measure` are the record `Counters`; a handler returns
--   the counters, the actions and its Python result, where `None` is `none`. `prepare` and `evaluate`
--   are the halves of the main block. Its child Phases has the abstract phases of a measurement as a
--   step relation (`Step`, `Trace`), which do not mention the code, and shows the script to follow them.
-- Control/TwoMachine: run_sim_two_machine.tmpl.py, with the same names. Its child
--   Scripts has the scripts of the guests, its child Root the command line and `makeDualRoot`; its
--   children Refinement and Main set its loop and its main block beside the one-machine script.
-- Control/Generator, Control/VSwarm, Control/VSwarmArm, Control/ArmRun: vswarm_simple.tmpl.py,
--   vswarm_simple_arm.tmpl.py and run_sim.arm.tmpl.py. A Python generator is a step function on a
--   state type, which holds where it is suspended; `answers` and `effects` resume it a number of
--   times. `on_exit_event` is the table of the generators, and `dispatch` what they answer to a list of
--   events in any order. gem5 takes the answer `True` for the end of the simulation. Where a generator
--   of run_sim.arm.tmpl.py has ended, gem5's own handler answers, which is a parameter. `_build_kvm`,
--   which nothing calls, is left out.
-- Control/RunTest: test/run_sim_test.py. A call of a method that the system does not define is an
--   AttributeError unless the method is inherited from gem5's `System`, which is a parameter.
-- Campaign: one function from simulation/wkdir-tmpl/setup_function.tmpl.sh and sim_function.tmpl.sh to
--   its measurement: their command lines, the `m5` instructions of tools/client/main.go, and the guest
--   that runs both. The words that the shell makes of the unquoted name of the function are a
--   parameter (`expand`). That gem5 goes on behind the instruction that took the checkpoint is a hypothesis.
--   Its child Log sets the log of a measurement before the check; the lines of gem5 in it are a
--   parameter.
-- Analysis/Simulations: analysis/check_simulations.py, on the lines of the logs. Its child Lines
--   takes what the simulation scripts print from their actions (`printed`), and Agreement reads it.
-- Analysis/Stats: analysis/gem5_utils.py: `read_stats` over the lines of stats.txt, with the parser of
--   a line as a parameter, and `find_stats` with its pickled cache; times are numbers. Its child Group
--   has `find_stats_group`, and Order the order in which it looks simulations up.
-- Analysis/Results: of the same file, `parse_result`, `to_csv` with what Python's csv.writer writes,
--   and `to_pandas`, over what pandas makes of the columns, types and rows that it is given.
-- Analysis/Notebook: analysis/analyze_results.ipynb, up to its plot: the loop over the benchmarks, the
--   lambdas of the statistics, which can raise, and the table; what pandas makes of the rows, its
--   exceptions included, is a parameter.
-- Release: resources/artifacts.py and resources/upload_assets.py. `Files` is the folder of the
--   scripts as an association list; a move takes the content from one name to another and fails for a
--   missing name or target folder. The answers of the network (`get`, `post`), the releases of the
--   API, the guess of a MIME type, and what the unpacking of an archive has done to the files when the
--   wait for it stops are parameters. A post ends with a status, with the `RetryError` that the script
--   catches, or with another exception, which ends the script; a download is always answered. Its child
--   Artifacts/Manifest has the functions that work with release.json; its child Publish joins the two
--   scripts: the assets of a release are those that the upload has posted. Processes has their waits
--   for the programs that they start; what is read of an unpacked image assumes that `tar` has ended.
-- Platform: gem5utils/systems/simple/x86.py, gem5utils/systems/skylake/x86.py, and
--   gem5utils/systems/drive/x86.py, which has the text of the one before: the bridges, the Intel MP
--   table, the MADT and the e820 memory map that `initFS` fills. Sizes are in bytes; the subtractions
--   on sizes are those of the source where the memory has at least 1 MB and at most 3 GB, which the
--   theorems assume. `Platform/Views` reads the tables as the guest does.
-- Systems: gem5utils/systems/simple/system.py, skylake/system.py and drive/system.py beside it: the
--   CPUs and their event queues, the wiring of the caches, buses, interrupts and memory controllers as
--   a list of links between ports, and `_getInterleaveRanges`. `Systems/Routes` has the routes that
--   requests take over the links. `log_floor num num` is `int(log(num, 2))`; its fuel is the number
--   itself. How gem5 reads the interleaving bits of an address is a parameter. `Systems/Caches` and
--   the children Caches of the two systems have the files caches.py beside them, `Systems/Core` has
--   gem5utils/systems/skylake/core.py; a value that the source leaves to gem5 is `none`.
--
-- Not modelled: gem5 itself; the plots of analysis/gem5_utils.py and of its notebook; what the Go
-- program of tools/client sends and logs; the other shell scripts and the make files; of the functions
-- that start external programs (`compressParallel`, `split`, `decompressParallel`) only the arguments
-- and the wait.
pub mod Base
pub mod CommandLine
pub mod Control
pub mod Campaign
pub mod Analysis
pub mod Release
pub mod Platform
pub mod Systems
