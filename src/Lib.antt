-- ===== src/Lib.antt =====
-- data_commoms: verification of the single-header C libraries of this repository.
--
-- The repository holds independent headers, each a component that a program includes with its
-- `..._IMP` macro, and small programs that use them:
--   include/c_buffer.h     CBuffer.antt     circular byte buffer, also fed by DMA
--   include/timers.h       Timer.antt       software timers
--   include/parser.h       Flags.antt       flags of a command line
--   include/eth_comms.h    Comms.antt       UDP and TCP connections, and the clients of a server
--   include/file_parser.h  Params.antt      parameters in a text file
--                          Csv.antt         a table in a CSV file
--   src/main.c             Demo.antt        a program on the buffer and the timers, with three threads
--   src/comms_main.c       Comms/Demo.antt  a program on the connections
--   src/file_main.c        FileDemo.antt    a program on the parameters and the table
-- Base.antt and its children hold the shared names, lists, words of 64 bits and bit operations, and
-- Text.antt the functions of the C library on strings, written out from the standard.
--
-- How the code is read. A C struct is a record; a function that updates `*p` takes the old value and
-- returns the new one beside its result. Names are those of the source without their prefix:
-- CbWrite is CBuffer.write, MyTimerCycle is Timer.cycle; the field `data` is `buf`. Pointers
-- are taken to be valid and not to alias. A failed assertion is `none`. `size_t` has 64 bits, and
-- every addition and subtraction on it wraps (Base/Words.antt); `&` is the bit operation itself, and
-- Base/Bits.antt proves what it means for masks.
--
-- CBuffer. The record Cb has the fields of `cb_t`. CBuffer/Inv.antt states the invariant, and
-- CBuffer/Contents.antt reads the stored bytes off the storage. CBuffer/Queue.antt is the
-- specification: a queue that keeps the newest `size - 1` bytes. The loop of CbDmaSynStart runs on
-- fuel; every round drops a byte, so `size` rounds are enough. A list argument of `write` is the
-- `n` bytes that `item` points to. In `dma_th` BUFFER_SZ is the parameter `size`, and the random
-- bytes of a block are the argument.
--
-- Timer. MyTimerInit leaves the field `len` alone, as the code does. `uint32_t` counters wrap at
-- 2^32.
--
-- Flags. Flags.antt has the types, the registrations (FlagBool to FlagList) and `flag_name`;
-- Flags/Values.antt the cases of the `switch` in `flag_parse`, Flags/Parse.antt the rest of that
-- function: `round` is one turn of its `while`, `scan` the `for` over the flags. A union is a data
-- type with the member in use; a string is the list of its bytes, and a NUL written into an argument
-- cuts that list. The `while` runs on fuel, one more than there are arguments, which is enough since
-- every round takes one. What is printed on the way is a list of Shown. `float`, `double`, `strtof`
-- and `strtod` are the parameter FloatOps; no theorem supposes anything of it.
--
-- Flags/Print.antt is FlagPrintHelp and FlagPrintError as the texts that they print; a null pointer
-- that is printed with `%s` is `none`, and how `%.4f` and `%.8f` print is a parameter.
--
-- Comms. Comms.antt has the context, CommsDisconnect, CommsClose and CommsConnect; Comms/Send.antt
-- CommsSend, Comms/Init.antt the three starts, and Comms/Threads.antt one round of the accepter and of
-- the listener. What the system calls return is an argument (Calls, Accepted, Received, `sent`), and
-- the calls that a peer notices are listed as Action. Comms/Table.antt reads the table of a server as
-- a list of clients and says what each critical section does to it; the mutex makes any run of the
-- threads a sequence of these sections (Comms/Refine.antt). Results of `inet_addr` are numbers, ports
-- are in the order of the host, and the log and the sleeping are left out. The loops run over slots,
-- so that they need no fuel; the two `while` loops of the threads are given round by round, and
-- Comms/Session.antt goes on with that of a TCP client over any rounds. A `pthread_join` on a thread that
-- was never created, which C leaves undefined, is an argument like any other.
-- Comms/Log.antt has CommsLog, the settings of it, CommsPrintError, CommsExit and CommsPrintClients; the
-- static `verbosity` is an argument of them, and so are the place that _set_error keeps and what
-- inet_ntop gives. Comms/Demo.antt is src/comms_main.c: the choice, the start and one turn of its loop.
--
-- Params. Params.antt has the parameters and their registrations (ParamBool to ParamBin); a parameter
-- and the variable it refers to are one record, so variables do not overlap; `room` is what may be
-- written from the variable on, and a write past it is a fault. Params/Items.antt is
-- ParseListParam, Params/Line.antt the turn of the `for` of param_parse_txt for one parameter on one
-- line, Params/Parse.antt the rest of that function, and Params/Save.antt param_save_txt. The other
-- children prove what a written line reads back as: Text/Find.antt and Params/Keys.antt on names,
-- Params/Words.antt to Params/ReadBack.antt on values, Params/Scan.antt and Params/Load.antt on files. What goes
-- wrong in C (a null pointer, a write past the end, a loop that passes its end) is a value of the
-- result: `crashes`, `wild`, `fault`. A file is the list of its bytes, and the lines are those that
-- `fgets` cuts. `junk` is what stands in memory behind an array of two bytes that `strtoul` reads on
-- from. `float`, strtof and printf of it are the parameter FloatText; the theorems suppose of it only
-- what they name, for the numbers that are saved.
--
-- Params/Print.antt is ParamPrintError and ParamName.
--
-- Csv. Csv.antt has the table, InitCSV, AddRowCSV and GetCSVData, Csv/Parse.antt csv_new_headers and
-- param_parse_csv, Csv/Save.antt param_save_csv, ParamSave and ParamParse. The arrays of the table are
-- functions of the index, with the bound MAX_BIN written out where the code has or lacks a test. All
-- loops run over lists or counts, so that they need no fuel.
--
-- Demo. Demo.antt has what the threads of src/main.c share, the start of `main` and one turn of each
-- loop: dma_turn, timer_turn and read_turn. Demo/Runs.antt is the step relation: any order of the turns,
-- with what has arrived and what was read. A turn is taken whole, although the code has no lock: the
-- theorems on runs hold for turns one behind the other, and say nothing of a turn within another, where
-- `read` of the buffer is written by two threads. What now_ms gives and the random bytes are
-- arguments; the clock of `dma_th` and `timer_th` has 32 bits and wraps.
--
-- FileDemo. FileDemo.antt is `main` of src/file_main.c as one function into Run, which has a value for
-- `return -1` and one for what goes wrong. The other files and the memory are the record World, and the
-- numbers that stand in the source are the record Literals.
--
-- Not modelled: logger.h (a filter around vsprintf, whose arguments are undefined as the code stands),
-- the calls of CommsLog within the other functions, single printf of values, clocks, and the scheduling of
-- threads within a turn.
pub mod Base
pub mod CBuffer
pub mod Timer
pub mod Text
pub mod Flags
pub mod Comms
pub mod Params
pub mod Csv
pub mod Demo
pub mod FileDemo
