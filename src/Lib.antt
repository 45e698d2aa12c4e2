-- ===== src/Lib.antt =====
-- Climate node: the firmware of a node that measures temperature and humidity, computes the dew point
-- and drives a relay when the margin to it gets small, with a Modbus register map and a configuration
-- in flash memory.
--
-- The parts and their files, with paths from the repository's root:
-- Core/Types: the sample, the quality, the reset causes and the error codes (include/core/types.h,
--   include/core/errors.h, src/core/errors.c).
-- Core/Filter: `ma_init` and `ma_update` (src/core/filter.c). Window and History relate the ring buffer
--   to a sliding window of samples, Mean bounds its average.
-- Core/Dewpoint: `dewpoint_calc_cd` (src/core/dewpoint.c). Round is on the rounded division, Log on the
--   interpolated logarithm, Range and Laws on the whole calculation.
-- Core/Controller: the record and the entry points of src/core/controller.c; Step is `ctrl_update`, in
--   the parts between its early returns. Safety, Boot, Control, Faults, Lockout and Frame are proofs;
--   Recovery and Counting are on the way from a fault back to RUN.
-- Core/Diagnostics: `diag_record` and its counters (src/core/diagnostics.c).
-- Service/Modbus: the checksum, the parser and the builders of src/service/modbus.c. Crc and its children
--   are on the checksum, Build and Parse on the frames.
-- Service/ModbusRegs: the register map of src/service/modbus_regs.c.
-- Service/Storage: the configuration of src/service/storage.c; Persist loads and saves it, Flash is the
--   host's flash memory (src/platform/host/platform_host.c), Stub that of programs without one
--   (src/core/platform_stubs.c), Layout the bytes of the struct. The two flash functions are an interface,
--   which Flash, Stub and Bsp/Stm32/Flash fill.
-- Service/ModbusServer: the reception of src/service/modbus_server.c, with the byte source and the request
--   handler as parameters. Frames and Stream are on the bytes it polls, Chunks on the chunks it is called back
--   with.
-- Service/Logger: the log of src/service/logger.c. Queue relates its ring buffer to a queue, Calls is on
--   the calls and what they let a caller see, Abstract the quotient by that, Decimal and Fixed read back the numbers it prints.
-- App/Scheduler: the cooperative scheduler of src/app/scheduler.c. Once is one pass, Register the
--   registrations, Keep what tasks that keep a property do to it, Timetable a long run of evenly
--   spaced passes.
-- App/Node: the application object of src/app/app.c, which polls the sensor, runs the controller, drives
--   the relay and keeps the configuration. Relay, Config and Outage are proofs; Runs has all that the
--   programs do with the object, from either start.
-- App/Mcu: the program of src/app/main_mcu.c, on the interface `McuOps` of the platform's functions. Handler
--   answers a Modbus request, Loop has the tasks, the start and one round of the loop. Reply and Setting
--   are proofs on requests, Reception and Answer on their way from the UART to the reply; Tickets, Watchdog,
--   Invariant, Boot and Reach on the whole program.
-- App/Host: the program of src/app/main_host.c and the host's clock. Loop is `main`, Laws a proof.
-- Driver: the I2C bus (include/bsp/i2c.h, src/core/i2c_stubs.c) and the sensors of src/driver/sensor_sht31.c,
--   src/driver/mock_sensor.c and src/driver/stub_sensor.c.
-- Bsp/Registers: memory-mapped registers, as a parameter: a bus with a load and a store, where a load
--   changes the hardware's state too. Bsp/Uart is src/bsp/stm32f1/uart.c with
--   proofs on its reception and transmission, Bsp/Stm32 is
--   src/platform/stm32f1/platform_stm32f1.c and Bsp/Startup src/bsp/stm32f1/startup_stm32f103.c.
-- Platform: the relay output and the backup byte (src/platform/host/platform_host.c and
--   src/core/platform_stubs.c). Stub has the rest of the stubs.
-- Prelude: tests, lists, signed integers, words, bits and ring buffers that the parts share.
-- Tests: each theorem at concrete data.
--
-- A function that changes an object, the board or the flash memory returns it; a status is a value of
-- Core/Types' `Err`. `int32_t` is the integers with every operation wrapped to 32 bits (`i32`), unsigned
-- types are numbers with `% 2 ^ w` written out, and the theorems show where nothing wraps. Addresses of
-- objects are never null, so the guards against that are left out; pointers that the callers may leave
-- null (a configuration, a task array, a task's function, a sensor port, a payload) are options. Loops are
-- recursion on a list or a count. Six loops are on fuel, and theorems show that it is enough: the digits
-- of a number, with 10 for its at most ten digits; the flush of the log, with the number of queued
-- characters, since every round takes one; the two waits for a bit of the hardware, with one more than
-- the reads after which the hardware answers; and the two loops before `main`, with one more than the
-- words of the data and the zeros.
--
-- The table of logarithms is written by the build (tools/gen_dewpoint_lut.py), and is a parameter. The
-- theorems that depend on it assume `IsLnTable`: for 1 to 100 per cent its values lie from -4716 to 0
-- and do not fall. Tests/Table has the table and the proof that it does so.
--
-- What the theorems assume of the hardware is documented behaviour of the registers: `IsHeld` says that
-- the low bits of a register read as they were last written, whatever else is read or written, and
-- `SentWithin` and `ClearWithin` that a bit is set or cleared after some number of reads. `IsLaidOut` is
-- what the linker script says of the sections.
--
-- Interrupts of the microcontroller's program are steps between two rounds of its loop; one inside a
-- task is not modelled. The brown-out interrupt shuts down an object that the source declares and
-- defines nowhere, so it is a step of the controller alone. The clock's count and `platform_wfi` are
-- operations of `McuOps`; the empty `platform_poll` of the two programs and the host's watchdog
-- functions, which do nothing, are left out. A request's data is what the receive buffer held at the interrupt; the source keeps a pointer into
-- that buffer, which later bytes overwrite once they have gone round it. The host's console is the list of
-- the bytes sent to it. The build's table generator, the unit tests
-- and the documents are not modelled.
pub mod Prelude
pub mod Platform
pub mod Core
pub mod Service
pub mod App
pub mod Driver
pub mod Bsp
pub mod Tests
