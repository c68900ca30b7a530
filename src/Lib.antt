-- ===== src/Lib.antt =====
-- TinyaML: a virtual machine with a scheduler for its own threads, an assembler, and containers.
--
-- The virtual machine (src/vm) runs programs, which are arrays of words, on threads. A thread has
-- stacks; the machine and the programs keep their strings in text segments; opcodes are looked up by
-- name and by code in a dictionary. All of these stand on three containers: dynamic arrays, stacks of
-- tokens of one size, and hash tables. Programs are stored and loaded by readers and writers of words
-- and strings. Paths are from the root of the repository.
--
-- - Dynarray: src/containers/dynarray.c (dynarray_set is `write`, dynarray_get is `read`).
-- - Gstack: src/containers/generic_stack.c (gpush, _gpop and _gpeek are `push`, `pop` and `peek`).
-- - Hashtab: include/hashtab.h; its Keys are the hash functions of src/compiler/opcode_dict.c.
-- - AbstractIo: src/compiler/abstract_io.c, by files and by buffers.
-- - TextSeg: src/vm/text_seg.c, on Dynarray, Hashtab and AbstractIo as the source has it;
--   its Environment is env_get and env_set.
-- - OpcodeDict: src/compiler/opcode_dict.c on Dynarray, Hashtab and AbstractIo; a stub is its address.
-- - Program: src/vm/program.c, the segments and labels (program_write_code is `write_code`).
-- - ProgramFile: program_serialize and program_unserialize of src/vm/program.c, on TextSeg, OpcodeDict and
--   Program; what loading a library or a required file does to the machine is a parameter.
-- - OpcodeChain: src/compiler/opcode_chain.c, a program as a chain of nodes, written into a Program by
--   `chain_serialize`, with the stubs of an OpcodeDict.
-- - Dlist: include/list.h, the doubly linked lists, on a store of nodes that lists and threads share.
-- - Threads: src/vm/thread.c, thread_set_state and mutexes, on Dlist; comp_prio of src/vm/vm.c.
-- - Objects: include/object.h, vm_collect and vm_uncollect of src/vm/vm.c: reference counts; its Free is
--   the `_free` of each kind of object, of src/vm/objects.c.
-- - Machine: the stacks of the current thread and raise_exception, of src/vm/vm.c. A stack is the list
--   of its tokens, the top first, as the theorems of Gstack have it.
-- - Ops: the opcodes. Its own functions convert between types (dynamic_cast and the pops that convert,
--   src/vm/vm.c); Stack and Control are of src/ops/bml_vm.c, Integers, Arith, Floats and Bits of
--   src/ops/arithbin.c and include/fastmath.h, Memory of src/ops/data.c, Arrays of
--   src/ops/containers.c. vm_op_add is `add`, vm_op_add_Int is `add_int`.
-- - Exec: vm_exec_cycle of src/vm/vm.c, one instruction of a thread.
-- - Scheduler: _sched_rr, vm_kill_thread and vm_schedule_cycle of src/vm/vm.c, with the collector.
-- - Prelude: tests, lists and outcomes that these share. Tests: runs, and theorems at concrete inputs.
--
-- A function that can fail returns a `Run`: a value, or the trap it stops at: a failed assertion, an
-- abort, an access outside a block, a null pointer. Memory that is allocated is there (`malloc` does
-- not fail), and freed memory is not tracked. Words are 64-bit numbers with their wrap-around written
-- out. What memory holds that `realloc` adds is a parameter.
--
-- Threads and opcodes take the C library, the processor's floating point and the addresses of literals
-- from a record `Host`, what an opcode's stub does and which method overrides it from parameters. An
-- opcode that throws goes on behind its call of raise_exception, as the source does. `Counted` says
-- that every object has as many references as the current thread and the places that `elsewhere`
-- counts hold; the opcodes keep it.
--
-- The addresses that `dlsym` finds and the C library's `atoi` and `atof` are parameters.
--
-- Loops are structural where the source counts. The loop of `gstack_deinit` runs on as much fuel as
-- the stack has tokens and one more, the loop of `hi_incr` on one more than the rows, and the loop of
-- `vm_set_foreach` on one more than the rows; the theorems on `deinit` and `foreach` show that this is
-- enough, since they give the result. The loop of
-- `dlist_insert_sorted` runs on any fuel that is at least the length of its list, and that of
-- `mutex_unlock` on one more than the pending threads. That of
-- `raise_exception` runs on one more than the frames. The search of
-- `lookup_label_by_offset` runs on one more than the labels. The loop of `file_read_string` counts the places of its buffer.
--
-- Not modelled: the compiler's walkers over syntax trees, the parser (the tinyap library), loading of
-- shared objects, the engines on POSIX threads, the debugger, and the extensions, with the
-- objects of their own; traces, which only print; the recovery by setjmp; the opcodes on
-- strings, maps, classes, threads and mutexes.
pub mod Ops
pub mod Prelude
pub mod Dynarray
pub mod Exec
pub mod Gstack
pub mod Hashtab
pub mod AbstractIo
pub mod TextSeg
pub mod Dlist
pub mod OpcodeDict
pub mod Program
pub mod OpcodeChain
pub mod ProgramFile
pub mod Machine
pub mod Objects
pub mod Threads
pub mod Scheduler
pub mod Tests
