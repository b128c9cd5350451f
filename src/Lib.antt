-- ===== src/Lib.antt =====
-- The Why virtual machine, of wvm/src and wvm/include, with the instruction encoders of the
-- assembler and the object format that assembler and linker share (wasmc/src/wasm). Not modelled are
-- the servers and front ends of the machine, the parser of the assembly language, and most passes of
-- the assembler.
--
-- How the parts interact. The main loop (VM::tick) translates the program counter, fetches a word
-- and executes it. An instruction reads and writes registers and memory, and moves the program
-- counter; what it changes goes through the undo history, which keeps the changes of a tick as
-- entries. Loads and stores translate their addresses by the page tables. A failed translation, a
-- write to a read-only page, a privileged instruction outside its ring and the timer raise an
-- interrupt, which saves the program counter and the ring and jumps to a handler.
--
-- Which file models which part, by path from the repository's root:
--   Base: lists, tests and C++ integers as bit patterns.
--   Machine/Types, Machine/Reg: wvm/include/Defs.h, Why.h, Paging.h, Interrupts.h, Changes.h.
--   Machine/State: class VM of wvm/include/VM.h, and the state monad of its member functions.
--   Machine/Memory: getWord to setByte, get and set of wvm/src/VM.cpp. Memory/Bytes, Access,
--     RoundTrip and Bounds hold the proofs.
--   Machine/Paging: VM::translateAddress and wvm/src/Paging.cpp; the proofs are in Paging/Mapping.
--   Machine/History: wvm/src/Changes.cpp, and recordChange, bufferChange, finishChange, undo and
--     redo of class VM. The proofs are in History/Matches, History/Replay and
--     History/Redo; History/Blind has what the changes do not read.
--   Machine/Control: flags, conditions, jumps, rings and interrupts of wvm/src/VM.cpp, and
--     wvm/src/Interrupts.cpp. Control/Conditions relates flags and conditions.
--   Machine/Ensures, Machine/WellFormed: the invariant of the machine and its proofs.
--   Ops: wvm/src/Operations.cpp, a file for each kind of instruction; Ops/Alu has the integer
--     arithmetic of C++ (with Alu/Division), Ops/Decode the decoders and the assembler's encoders,
--     Ops/Execute the dispatch of execute, executeRType, executeIType and executeJType. Math/Division
--     is about divOp and modOp, System/Privileged about the instructions that need a ring, with
--     System/Protected for what the protection interrupt leaves alone.
--   Ops/WellFormed: the invariant for every instruction, up to execute.
--   Assembler: Assembler/Expression has the expressions of directives
--     (wasmc/src/wasm/Expression.cpp), with Values, Labels and Relocation for the proofs;
--     Assembler/Section the sections (wasmc/src/wasm/Section.cpp), with Combining and Alignment.
--   Linker: applyRelocation, tables and collisions (wasmc/src/wasm/Linker.cpp), with Patch and
--     Relocation.
--   Loading: VM::load and the offsets of VM::init (wvm/src/VM.cpp); Loading/RoundTrip and
--     Loading/Start have the memory and the machine after it.
--   Object: object files. Object/Text is their text (Assembler::stringify, and its readers).
--     Object/Words packs bytes into words (wasmc/include/util/Util.h),
--     Object/Symbols, Object/Relocations and Object/Debug write and read the parts of an object
--     (wasmc/src/wasm/Linker.cpp, BinaryParser.cpp, SymbolTable.cpp, Types.cpp), Object/Instruction
--     parses instruction words. Object/Parse is a whole object: the layout at the end of Linker::link
--     and BinaryParser::parse. Each has its proofs below it; Object/At says where words stand in an
--     object, and Object/Result has the outcomes of these functions.
--   Run: VM::tick, the breakpoints and the timer's thread; Run/Reaches has the runs of the machine.
--   Tests: a small machine, and the theorems at concrete values.
--
-- How state and operations correspond. A function `fooBar` of the source is `foo_bar`, and the
-- instruction `fooOp` is `foo_op`. A member function is an action of type `M A`: from a machine it
-- returns a value and the machine after it, or throws with the machine as it is then, or is
-- `undefined` where C++ leaves the behaviour undefined (an index past the end of the vector, a
-- division by zero, a shift by a negative count or by the width and more). Signed sums and
-- differences are taken to wrap, as two's complement does. A word is its bit pattern, a number below
-- 2 ^ 64. A register argument `Word &` is a register's number, so that source and destination may be
-- the same register. Registers and memory are functions on numbers; `allocated` is the length of the
-- vector. A list stands for the set of breakpoints, the stack of paging states and the undo stack.
--
-- The operating system is a parameter: `host` gives the answers to the system calls of ioOp in their
-- order, and `host_calls` keeps the calls. What is printed is kept in `printed`.
--
-- Fuel. The loops of ioOp run on their byte count, and that of msOp on its count; a round handles at
-- least one byte.
--
-- Left out of the functions that are modelled: the callbacks of the user interface, the log on stderr
-- and the jump stack that serves it, mutexes and the handshake between threads (each action runs by
-- itself), and the length of a sleep.
pub mod Assembler
pub mod Base
pub mod Linker
pub mod Loading
pub mod Machine
pub mod Object
pub mod Ops
pub mod Run
pub mod Tests
