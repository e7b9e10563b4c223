-- ===== src/Lib.antt =====
-- A model of libgunwinder, a library that unwinds user stacks from snapshots, with theorems.
--
-- The program takes a snapshot of registers and stack bytes, finds the module of each address in
-- an interval array, decodes the frame description of the address into DWARF operations, and
-- evaluates these on the snapshot to get the registers of the caller.
--
-- Base holds what all modules share: tests, lists that native numbers index, the endings of a C
-- call (Ending), bits and 64-bit words. A call of the C code ends with a value, with its own
-- failure code, or with a fault: behaviour that C leaves undefined, or a recursion that does not
-- end within the depth given.
--   Interval   src/gu_interval_array.c and .h: the array (Build), the search (Lookup), the tag in
--              bit 63 of a payload (Payload), the order of the items (Order).
--   Snapshot   include/gunwinder/unwinder_types.h: flags and stop reasons (Flags); the register
--              access of src/gu_unwinder.c (Registers).
--   Event      src/gu_pid_ctx_event.c: the table of listeners (Queue).
--   Elf        src/gu_elf.c: executable ranges (Ranges) and both searches over them (Search).
--   Decode     src/gu_cfi_helper.c: LEB128 and fixed-width values (Leb, Bounds).
--   Cfi        src/gu_cfi_helper.c: rows of rules; Program the instructions of
--              init_calc_ctx_by_ins (Rows, Remember), Entry the set-up
--              of CIE and FDE (Extent), Ops the expression blocks, Parse the parse
--              at an address with its cache (Coherence, Sizes).
--   Expr       src/gu_unwinder.c: Evaluate is gu_dwarf_ops_eval, its fast path and gen_reg (Fast,
--              Reads, Steps, Ends, Depth).
--   Unwind     src/gu_stacktrace.c: frames, symbols and reads of the snapshot; Dwarf the loop of
--              gu_unwind and what follows it (Progress, Loop, Finish, Ends), Tail the frames found
--              by frame pointers (Chain, Reads, Length), Recorded gu_unwind_by_fp (Frames).
--   Context    src/gu_stacktrace.c: the modules that processes share, with the counters of their
--              users (Table, Count, Release, Load), their retirement (Sweep, Expiry, Lifetime) and the
--              schedule for reading mappings again (Reload).
--   Process    src/gu_stacktrace.c: the processes with their map contexts. Calls adds, replaces and
--              removes them (Life, Reach, Pids, Cleanup), Search finds the mapping of an address
--              (Live, Miss, Sound, Hits), Prepare is the start of gu_unwind (Ready); Users and
--              Sharing count the users of a module, Loads, Items, Pointers, Load, Clean and Timer
--              follow the references of a load.
--   Maps       src/gu_comm.c: the mappings of a process, adjacent pieces merged (Extent, Merge).
--   Tests      witnesses at concrete inputs.
--
-- A pointer into a buffer is the list of the bytes from there to the buffer's end. A word is a
-- natural number, with its wrap-around written out. Multi-byte reads are little-endian.
-- The instruction interpreter has a step for each byte, which is enough since every instruction
-- takes one; the search has a step for each item; the evaluator has the code's own limit of 4096
-- operations, and a depth for the calls of DW_OP_call_frame_cfa, of which two levels are enough
-- unless the frame address calls for itself. A walk has the code's own limits: 512 rounds over call
-- frame information, 127 frames by frame pointers, 127 recorded addresses.
--
-- A walk meets the mapped modules through the record Unwind.Modules: the mapping of an address,
-- the module behind it, the decoding of a frame. Its frames are a list in the order of the calls
-- of the callback. A search for a process that a failed reload has removed is a fault, a read through
-- NULL. A module of a context is known by its address and its build ID; the clock, the
-- timer's ticks, the module that libelf reads and the lines of /proc/<pid>/maps are arguments.
--
-- A store of processes holds the context, its processes and the events notified. Reading through
-- a pointer whose map context or module is gone is a fault. What the system answers to a call, the
-- mappings, the clock and the addresses of new memory, is a record among its arguments.
--
-- Parameters: qsort with its documented result, bsearch, the page size, the slots of the system's
-- struct pt_regs, the entries of elfutils, and the memory behind the payloads of the interval array.
-- Not modelled: the reading of the tables by libelf and elfutils; of src/gu_stacktrace.c the
-- symbol tables, debug files, the kernel's symbols, the parsing of /proc/<pid>/stat and the debug
-- mode; the return address of arm64; the rest of src/gu_comm.c, src/profile_debug.c, the tools,
-- the log output, and the copies of uthash and utlist.
pub mod Base
pub mod Interval
pub mod Snapshot
pub mod Event
pub mod Elf
pub mod Decode
pub mod Cfi
pub mod Expr
pub mod Unwind
pub mod Context
pub mod Maps
pub mod Process
mod Tests
