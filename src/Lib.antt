-- ===== src/Lib.antt =====
-- A simulator of the RISC-V instruction set with tagged memory: the model of its core and what
-- is proved of it. Paths are from the root of the repository.
--
-- The parts and their files:
-- - Isa: instruction words (`insn_t` of riscv/decode.h), the constants and the opcode table of
--   riscv/encoding.h, and the high products of riscv/mulhi.h.
-- - Tags: how the tags of operands give the tag of a result (riscv/tagpolicy.h).
-- - Hart: the state of a hart and what `processor_t` does to it (riscv/processor.h,
--   riscv/processor.cc): register file, interrupts, status register, control registers, traps and
--   the return from them, timer, the decoder. Hart/Machine has the record of all that the code of
--   one hart reads and writes, and the monad of calls that return, throw a `trap_t`, or throw
--   `serialize_t`.
-- - Mmu: the port of a hart into memory (riscv/mmu.h, riscv/mmu.cc): page walk, TLB, translation,
--   loads and stores with tags.
-- - Insns: what the instructions do (riscv/insns, with the macros of riscv/decode.h), those of
--   floating point by the functions of SoftFloat as a parameter, each instruction a function
--   of the width, its word, its address and the machine, as riscv/insn_template.cc builds two of it.
-- - Exec: the instruction cache of riscv/mmu.h, the step of a hart (`processor_t::step` of
--   riscv/processor.cc), which fetches, decodes and runs instructions and catches what they throw,
--   and the table of the functions of the instructions.
-- - Cache: the simulator of caches (riscv/cachesim.h, riscv/cachesim.cc). The caches are in a store,
--   since several can have the same miss handler.
-- - TagStats: the counts of the tags in memory (riscv/tagstats.h). Cache/Traversal is the search for
--   all caches of riscv/memtracer.cc.
-- - Rocc: the interface of an accelerator (riscv/extension.cc, riscv/rocc.cc), and the dummy one
--   (dummy_rocc/dummy_rocc.cc), whose state is passed beside the machine.
-- - Sim: the turns of the harts (riscv/sim.cc), over an interface of what a hart does. Sim/System
--   fills it with the harts of Exec, which share memory and tags and send each other interrupts.
-- - Disasm: the table of the disassembler and the search in it (riscv/disasm.h,
--   spike_main/disasm.cc), with the arguments of an instruction as the tracker asks for them.
-- - Tracker: the graph of where values come from (riscv/tracker.h, riscv/tracker.cc), on an explicit
--   heap of nodes with counts of references. A hart calls it for each instruction, load and store.
-- - WatchLoc: the record of the last stores to one address (riscv/watchloc.h).
-- - Base: the names and lemmas that all share. Build: the switches of the build. Tests: runs at
--   concrete inputs.
--
-- A C function is a definition of the same name. A word of w bits is a number below 2 ^ w with the
-- wrap-around written out; a signed word is its pattern, the count of the references to a node of the
-- tracker included, so that a theorem on the counts bounds the number of calls. A search past the end
-- of the store of the decoder has no result. A pointer into the memory of the target
-- is the offset from its start. The loop of `take_interrupt` has eight rounds of fuel, one for each
-- interrupt, and stops since one is pending. The loop of `sim_t::step` has n
-- rounds for n steps, and each takes one step or more. The loop that halves the number of buckets
-- has 64, one for each bit, and stops at 0 at the latest. The loop of `walk` has three rounds, as
-- in the code. The loop of `processor_t::step` has n rounds for n instructions, or n + 1 in debug
-- mode, and a round runs one instruction or more unless something is thrown. The switch of a round has
-- a case for each entry of the instruction cache that is left. The fuel of an access to a cache is the
-- depth of its miss handlers, and the fuel of the search for caches is its rounds. The
-- loop that counts the bits of the size of a line has 64 rounds. The loop of `tracker_t::cleanup` has
-- three rounds for each counted reference and one: a round that drops a reference of a node puts its
-- two children on the queue at most, and only where it frees the node.
--
-- Not modelled: the host interface of package fesvr, whose tick is a parameter; `std::sort`,
-- which is a parameter of the decoder; the copy of SoftFloat that the floating-point instructions
-- call, whose functions are a parameter, `Softfloat`; `malloc` and the content of fresh memory, which
-- are parameters of the tracker; the commit log and the histogram; the text of the configuration of a
-- cache and its printed statistics; the console, the text of the disassembler and of the graph of the
-- tracker, the start-up code and the traces, which are input and output; the vector unit. What the functions behind the page of `libspike` do is not modelled, and that they are
-- called is. What a load from that page leaves in the tag is a
-- parameter, `garbage`.
pub mod Base
pub mod Build
pub mod Isa
pub mod Tags
pub mod WatchLoc
pub mod Hart
pub mod Mmu
pub mod Insns
pub mod Exec
pub mod Cache
pub mod TagStats
pub mod Tracker
pub mod Disasm
pub mod Rocc
pub mod Sim
pub mod Tests
