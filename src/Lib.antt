-- ===== src/Lib.antt =====
-- A verification library for the cco compiler: its native x86-64 back end, the register allocator
-- included, and the hash map that compiled programs use.
--
-- The compiler (src/main.c) reads a program, lowers it to an intermediate representation and
-- either prints C or generates machine code. The native back end selects instructions
-- (src/backend/x86_64/x86_64_codegen.c), builds them with the helpers of x86_64_instr.c, encodes
-- each function with x86_64_encode.c and links the result.
--
-- Modelled here:
--
-- - `X86.Instr`: the registers, operands and instructions of src/backend/x86_64/x86_64_regalloc.h
--   and x86_64_instr.h. The doubly linked instruction list is a list.
-- - `X86.List`, `X86.Emit`, `X86.EmitSse`: the instruction list of x86_64_instr.c, its count beside
--   it, and every `x86_emit_` builder. `X86.Built` says which lists the builders make, and
--   `X86.Built.Seen` and `X86.Built.Calls` which instructions each call asks for.
-- - `X86.Peephole`, `X86.Optimize`: the pass `x86_instr_list_optimize`. A round of its inner loop
--   goes on behind the instruction it looks at, so the length of the list is fuel enough; the outer
--   loop runs at most four times, as in the code.
-- - `X86.Buffer`, `X86.Reloc`, `X86.Labels`: the byte buffer, the relocation list and the label map
--   of src/backend/x86_64/x86_64_encode.c, with their capacities. The loop that doubles a capacity
--   runs on fuel, the size that is asked for: each round adds at least one to a positive capacity.
-- - `X86.Encode`: `encode_single_instruction_internal` by cases of its switch (`Encode.Instr`,
--   `Encode.Sse`, `Encode.Single`), and `x86_encode_single_instruction` and the two passes of
--   `x86_encode_function` (`Encode.Function`). `Encode.Out` holds what a step works on: the buffer
--   and the relocation list, which may be null, and the running length, which the code counts apart
--   from the bytes. `pc` wraps at 2 ^ 64; a `size_t` that counts bytes in memory does not.
-- - `Runtime.Key`, `Runtime.Map`: the hash map of src/runtime/map_runtime.h, with the keys, their
--   hashes, open addressing, tombstones and the rehash. The array of buckets is a function of the
--   index. Each search runs on the capacity as fuel: a valid map has an empty bucket, and a search
--   visits every bucket within that many steps. A put on a null map returns null and is left out.
--
-- - `Regalloc`: the register allocator src/backend/x86_64/x86_64_regalloc.c, with the registers'
--   names, classes and pools (`Registers`, `Names`), the numbering and the backwards dataflow
--   (`Liveness`), the intervals and the whole of `regalloc_run` (`Intervals`), its linear scan
--   (`Scan`) and its result with the lookups (`Result`). What the scan writes into an interval
--   stands in the state under the interval's id. The dataflow runs on twice the number of blocks
--   times registers, and one, as fuel: a round that changes anything sets an entry. `qsort` is a
--   parameter: it returns the same entries in the order of the comparison. The positions of the
--   calls that an interval crosses, which only the dump and the code generator read, are left out.
-- - `Frame`: the stack frame of src/backend/x86_64/x86_64_target.c, which gives slots to the
--   parameters, the variables and the spilled registers of a function, and the lookups of their
--   offsets. Register names as text are left out.
-- - `Ir`: the intermediate representation of src/ir/ir.h and ir.c (`Types`, `Instr`), where a block
--   is known by its id and a double is its bit pattern; which registers an instruction reads and
--   defines, as the theorems about the passes say it (`Reads`); the edges of its graph (`Cfg`); the
--   verifier src/ir/ir_verify.c (`Check` for the cases of its switch, `Verify` for blocks, functions
--   and modules), whose errors are the formats of their details; and the dead code elimination of
--   src/ir/ir_opt.c (`Dce`), whose rounds run on the number of instructions as fuel. Pointers that
--   the code follows without a test, such as the type of a value, are not null.
--
-- Memory allocation is taken to succeed, and freeing has no effect in the model. Not modelled: the
-- front end, the C back end, the rest of the middle end, the code generator, the linker and the
-- driver.
pub mod Base
pub mod Frame
pub mod Ir
pub mod Regalloc
pub mod Runtime
pub mod X86
