-- ===== src/Lib.antt =====
-- The Mozak VM: models of its RISC-V runner and of the state tree of its block proposer, and their
-- properties.
--
-- The runner loads a program (elf.rs, code.rs), decodes its words (decode.rs), and executes it from
-- an initial state (state.rs) instruction by instruction (vm.rs) until an environment call halts it
-- (ecall.rs, poseidon2.rs). The rows that the main loop records are what the prover proves.
--
-- The block proposer (node) keeps the objects of the system in a sparse Merkle tree with a proof at
-- each node. The operations of a block change leaves and prove the branches above them; finalize then
-- makes the new objects the old ones of the next block. Proofs of one address are gathered and
-- reduced to one by the functions of block_proposer.rs.
--
-- Files, and the code of runner/src that they model:
--   Runner/Outcome      what Rust code comes to: a value, an `anyhow` error or a panic; and the
--                       settings of the build that the code reads
--   Runner/HashMap      the maps and sets of the `im` crate, as association lists
--   Runner/Instruction  instruction.rs: Args, Op, Instruction, DecodingError
--   Runner/Program      elf.rs and code.rs: Program, Code::get_instruction
--   Runner/Alu          vm.rs: mulh, div, rem, lb, lh and the others, and the closures of the shifts
--                       and comparisons
--   Runner/State        state.rs: State and its methods, one function for each, under its name
--   Runner/Utf8         the test of core::str::from_utf8
--   Runner/Poseidon2    poseidon2.rs: hash_n_to_m_no_pad and ecall_poseidon2
--   Runner/Ecall        ecall.rs: the environment calls, and `ecall`, which chooses among them
--   Runner/Vm           vm.rs: jalr, store, execute_instruction (`dispatch` is its `match inst.op`,
--                       `run_decoded` what follows the lookup) and step (`step_loop` is its loop)
--   Runner/Format       decode.rs: extract_immediate, the fields and the formats
--   Runner/Decode       decode.rs: decode_instruction, one function for each opcode with functions
--   Runner/Loader       code.rs: Code::from; elf.rs: Program::from and Data::from on maps of words
--   Runner/Elf          elf.rs: the checks of an ELF file, its segments, and the load functions
--   Runner/Execute      elf.rs: Program::create; code.rs: execute and execute_code_with_ro_memory
--   Runner/Tests        runs and examples on a small program
-- and of node/src:
--   Node/Outcome        a value or a panic
--   Node/Address        block_proposer.rs: Dir, Address (a u64), AddressPath, BranchAddress
--   Node/Reduce         block_proposer.rs: reduce_tree (`climb`, `consume`, `finish` are its loops and
--                       its end), reduce_tree_by_address_step, reduce_tree_by_address
--   Node/Circuits       the interface of recproofs/src/circuits/state_update.rs that the tree uses
--   Node/State          block_proposer/state.rs: the tree, AuxStateData::new, State::new
--   Node/State/Apply    state.rs: apply_operation and its helpers, one function for each
--   Node/State/Finalize state.rs: finalize and get_state
--   Node/Matches        block_proposer/matches.rs: ingest_events (`ingest` is its loop, on converted
--                       events) and ready_tx (`make_ready` is its loop)
--   Node/Tests          a small tree with circuits whose proofs are their public inputs
-- and for both:
--   Word, Prelude       32-bit words with their wrap-around; shared helpers
-- The other modules under these hold the lemmas of their parent; Decode/Riscv is the specification
-- of the decoder: RV32IM instructions, their encodings and their meaning.
--
-- Correspondence. A method that takes `self` and returns it takes a State and returns the new one;
-- a panic is a value of Outcome. `+` on machine integers is `add_checked`, which panics on overflow
-- in a build with overflow checks and wraps in any other; `wrapping_add` is modulo 2^32. `/` and `%`
-- panic by zero, and of signed words also for -2^31 by -1 (`checked_i32`, `checked_u32`). A fold of
-- `store_u8(...).unwrap()` over bytes is `store_bytes`. An instruction does not change the program,
-- so the record leaves it out.
--
-- In the tree, `Child` is Option<Box<SparseMerkleNode>>; a `&mut` argument is the value after the
-- call, beside the call's result. The matches on a child are functions of their own: apply_child,
-- finalize_child, get_child. An index, an `unwrap` or an `unreachable!` is a panic.
--
-- Fuel. `step` runs until the machine halts. The model's loop has fuel and returns `none` when it
-- runs out: one unit for each executed instruction and one to see the halt. A build with debug
-- assertions stops at the loop limit, so that fuel for the rounds up to the limit is enough.
--
-- create_branch_helper has fuel for each bit of the path, which is what it uses.
-- reduce_tree_by_address has fuel for each look at the length: two more than the bits of the
-- addresses are enough.
--
-- Parameters. The field, the permutation and the bytes of a digest are plonky2's (record Plonky);
-- `bit_range` is that of the bitfield crate. Where a property depends on them, it has the
-- documented behaviour as a hypothesis: digests are written as bytes (WritesBytes), and bit_range
-- selects bits msb to lsb (IsBitRange). The parser and the constants of the elf crate are
-- parameters (record ElfCrate); of the constants, a property has the flags of the ELF format (HasFlags)
-- as a hypothesis.
--
-- The circuits of a state update are an interface with two sets of laws. Sound: the hashes that a proof
-- exposes are those it was given, or those of its children joined. Complete: a leaf is proved at every
-- address below the field's -1, and with no address if it does not change; a branch is proved if its
-- children are proofs of its level with addresses that agree. The grouping of consecutive items is
-- itertools' (IsChunkBy). The circuits that accumulate events are an interface
-- too, whose law (Accumulates) is that an event is proved, and two proofs at one address are joined if
-- their events may stand together (Together): accumulate_delta/core.rs refuses a second write, for one.
--
-- Not modelled: logging, the printing of instruction counts, the tests, convert_event, the end (finalize)
-- of the matches, the transactions and blocks of node, the crates circuits, expr, recproofs, sdk, signatures and cli, and the examples.
pub mod Prelude
pub mod Word
pub mod Runner
pub mod Node
