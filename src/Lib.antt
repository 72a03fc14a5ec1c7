-- ===== src/Lib.antt =====
-- A verification library for astral-hwmon: a Linux hwmon driver for the 12VHPWR sensor of ASUS ROG
-- Astral cards, and astral-guard, the check that reads the driver's files and judges them.
--
-- How the parts interact. The driver finds a card on the PCI bus and one of the card's i2c adapters,
-- claims the sensor chip there, and serves twelve channels (six voltages, six currents) from a cached
-- block of 24 bytes. The hwmon core shows each channel as a file. The guard finds the chips in sysfs,
-- reads samples from the files, evaluates them against limits, reports, and exits with the worst level.
--
-- Which file models which part:
--   Driver/Regs, Driver/Regs/*      driver/astral_regs.c: astral_decode_frame, astral_read_frame,
--                                   astral_frame_plausible
--   Driver/Detect, Driver/Detect/*  driver/astral_detect.c: astral_card_present, astral_card_matches,
--                                   astral_is_sensor_adapter
--   Driver/Cache, Driver/Cache/*    driver/astral_hwmon.c: struct astral_data, astral_refresh_locked, astral_read
--   Driver/Labels                   driver/astral_hwmon.c: astral_read_string, astral_is_visible, astral_info
--   Driver/Probe, Driver/Probe/*    driver/astral_hwmon.c: astral_adapter_selected, astral_try_adapter, the walk
--   Driver/Lifecycle, and below     driver/astral_hwmon.c: astral_attach, astral_probe_once, astral_bus_notify,
--                                   astral_probe_worker, astral_init, astral_exit
--   Guard/Types                     guard/astral_guard.h and guard_severity
--   Guard/Tally                     guard/guard_eval.c: the loop over the samples of guard_eval
--   Guard/Eval, Guard/Eval/*        guard/guard_eval.c: guard_eval, its findings and its four rules
--   Guard/Sysfs, Guard/Sysfs/*      guard/guard_sysfs.c: guard_find_chips, guard_read_sample
--   Guard/Options, Guard/Options/*  guard/guard_main.c: the command line
--   Guard/Main, Guard/Main/*        guard/guard_main.c: main, from the search of the chips to the exit code
--   Guard/Report                    guard/guard_report.c: guard_report_text, guard_report_json
--   Driver/Examples, Driver/Lifecycle/Examples, Guard/Examples, Guard/Runs: concrete runs
--   Base, Base/*                    helpers: lists, the six pins, decimal text, strtol, the kernel's sscanf("%d")
--
-- State. `Driver.Cache.Data` is struct astral_data; each hwmon callback holds its lock throughout and is
-- one function from the state to the new state, the reply and whether the bus was used. The guard keeps
-- no state between runs: `Guard.Main.main` is a function to a `Run` (output, naps, exit code).
--
-- The lifecycle is a relation `Steps.Step` on `Lifecycle.State`: each section under astral_lock and each
-- call that may block is one step, and the init thread, the worker, arriving adapters and vanishing
-- clients interleave. A client may vanish at any time, also in the middle of an attach. The allocations,
-- the first read and the registration of astral_attach are one step with an outcome, since they take no
-- astral_lock and change nothing that the other threads look at.
--
-- Numbers. `jiffies` and `unsigned long` wrap at 2 ^ 64, a `long` saturates in strtol at 2 ^ 63, a u16
-- at 2 ^ 16. The guard's `int`s are numbers that are not negative, since every reading and every option
-- is accepted only in a range below 2 ^ 31: readings are at most 30000, so the largest sum is 180,000 and
-- the largest product that is compared 3,000,000. Buffers cut text as snprintf does, at their sizes. Fuel is
-- used only to print a number `n` in decimal, `n + 1` rounds of it, one for each digit.
--
-- Parameters: the outcome of a block read, the clock, what the PCI core finds, the file system (which
-- may differ from read to read), GUARD_VERSION, and what uninitialised memory holds.
--
-- Not modelled: the log messages of the driver, the window of astral_exit after the notifier is gone,
-- module parameters' registration, the sleeping itself, the Python mirror, the tests and the tools.
pub mod Base
pub mod Driver
pub mod Guard
