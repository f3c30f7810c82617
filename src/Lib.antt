-- ===== src/Lib.antt =====
-- A development about the hardware of Libre-SOC, an out-of-order POWER core written in Python with
-- nmigen: the memory management unit, the divider, the interrupt controller, the arithmetic,
-- multiplication and division pipelines, the branch, trap, condition and special register units, the
-- load-store state machine, the instruction cache, the issuer, a shifter, a register file, the replacement of cache
-- ways and a bus converter.
--
-- How the code is read. nmigen is the language of the source: a combinatorial signal is a function of
-- the inputs and the registers, where the last assignment that applies wins and a signal that none
-- assigns is 0; a synchronous assignment is the register's content after the clock. A component is a
-- record of its registers, a function that gives the registers after a clock, and functions for its
-- outputs. A signal of w bits is a natural number below 2 ^ w, and one of one bit is a Boolean;
-- Common.Word has slices, concatenation, inversion and the wrap-around of an assignment.
--
-- The parts, and where they stand in the repository:
--   Common: tests, words and lists that the parts share.
--   Mmu: src/soc/experiment/mmu.py and its interfaces in src/soc/experiment/mem_types.py. Mmu.Types has
--     the registers (RegStage) and the interfaces, Mmu.Handlers a function for each handler of the
--     state machine, Mmu.Cycle the clock (`rin`, the value that MMU.elaborate assigns to the next
--     registers), Mmu.Outputs what the D-cache, the I-cache and the load-store unit see. The
--     load-store unit sends requests, the D-cache answers reads of memory.
--   Div: src/soc/fu/div/fsm.py. Div has the round (DivStateNext), Div.Fsm the stage with its handshake.
--     The widths of the round are parameters; the stage uses 64.
--   Xics: src/soc/interrupts/xics.py. Xics.Icp is the presentation half with the processor's priority,
--     Xics.Ics and Xics.Arbiter the source half that chooses among 16 sources; Xics.System connects
--     them as setup_peripherals of src/soc/simple/issuer.py does, with the register that the processor
--     sees the interrupt in.
--   Alu: src/soc/fu/alu with src/soc/fu/common_input_stage.py and src/soc/fu/common_output_stage.py:
--     Alu.InputStage, Alu.MainStage, Alu.OutputStage, and `alu`, the chain of src/soc/fu/alu/pipeline.py.
--   Mul: src/soc/fu/mul. Mul.Stages has the three stages of pre_stage.py, main_stage.py and
--     post_stage.py, and `multiply`, their chain; the input and output stages around them in
--     src/soc/fu/mul/pipeline.py are not chained here.
--   Branch: src/soc/fu/branch/main_stage.py, in Branch.Stage.
--   Bus: src/soc/bus/wb_downconvert.py, in Bus.Downconvert, for any widths of the two buses.
--   Divide: src/soc/fu/div around its core. Divide.Stages has setup_stage.py and output_stage.py, and
--     Divide.Pipeline joins them to the core of Div as pipeline.py does; Divide.Signed and
--     Divide.Numbers say what signed division is.
--   Trap: src/soc/fu/trap/main_stage.py. Trap.Msr has the copies and checks of the machine state
--     register, Trap.Stage every operation; a register is the function that gives its bits.
--   LoadStore: src/soc/fu/ldst/loadstore.py. LoadStore.Cycle has the requests of the port, the state
--     machine (`ldst_cycle`) and the outputs; LoadStore.System joins it to Mmu as
--     src/soc/fu/mmu/fsm.py does, which drives the same link for OP_MTSPR and OP_TLBIE. The D-cache, and nmutil's pulse on a new request, are inputs.
--   Shift: src/soc/experiment/alu_fsm.py, the sequential shifter, for any widths.
--   Cr and Spr: src/soc/fu/cr/main_stage.py and src/soc/fu/spr/main_stage.py, in Cr.Stage and Spr.Stage.
--   Regfile: src/soc/regfile/regfile.py, the register file with an enable for each register.
--   Icache: src/soc/experiment/icache.py with the memory of cache_ram.py and the replacement trees of
--     plru.py. Icache.Lookup has the address, the hit and the outputs, Icache.Cycle the clocked methods
--     of ICache (`icache_cycle`, composed as ICache.elaborate does), Icache.Reset the reset, and
--     Icache.Bus the cache with a memory that answers its requests in order and at any time.
--   Issuer: src/soc/simple/issuer.py, the machines that issue and execute instructions. Issuer.Issue has
--     the parts of issue_fsm, for each of its states, Issuer.Execute those of execute_fsm and
--     tb_dec_fsm, and Issuer.Cycle a clock of both machines joined as TestIssuerInternal.elaborate does
--     (`issue_cycle`). What they get from the fetch and predicate machines, the decoder, the core and
--     the debug unit is their input. Issuer.Fetch is fetch_fsm, with the decoder of prefixes as a
--     parameter, and Issuer.Fetched puts a memory behind the instruction fetch unit that it asks.
--   Cache: src/soc/experiment/plru.py, in Cache.Plru, the tree that the caches choose a way by.
--
-- Bounds. The state machines are run for a list of inputs, one for each clock, so that no fuel is
-- needed; the bounds in the theorems are counts of clocks: 134 for a table walk (at most 64 bits of
-- the address, at least five for a level, and the states between), 64 for a division, and five for an
-- interrupt to pass the five registers from a source into the processor's state. A line of the instruction
-- cache has eight rows; it has 16 lines of four ways and 64 translations, as in its source.
--
-- The replacement tree has any number of way bits; the theorem on the ways that are ever refilled is
-- about the two bits, four ways, that src/soc/experiment/dcache.py and icache.py use.
--
-- Parameters. nmutil and the openpower package are not in the repository. Byte reversal and the
-- mask generator (Mmu.Types.Nmutil), sign and zero extension (Alu.Types.Extend) and the assignment
-- of halves (Mul.Types.Eq32, with Mul.Product.IsEq32 as its documented behaviour) are arguments of
-- what uses them, as are the numbers of the bits of MSR and SRR1 (Trap.Types.Consts, with
-- Trap.Isa.IsIsa as their documented values) and of XER (Spr.Stage.XerBits). The decoder's
-- enumeration of operations is cut down to those that a stage tells apart, and one for the others;
-- the fields that it cuts from an instruction are fields of the operation.
--
-- Not modelled. The handshake of the pipelines (nmutil); the remaining units of src/soc/fu; in
-- src/soc/experiment the data cache and the log output of the instruction cache, the load-store port and the computation
-- units; the core in src/soc/simple, with the issuer's predicate machine; the
-- addressed register files, debug and bus modules; the scoreboard experiments; src/soc/minerva, a copy
-- of another project; and test benches.
pub mod Common
pub mod Mmu
pub mod Div
pub mod Xics
pub mod Alu
pub mod Mul
pub mod Branch
pub mod Bus
pub mod Cache
pub mod Divide
pub mod Trap
pub mod LoadStore
pub mod Shift
pub mod Cr
pub mod Spr
pub mod Regfile
pub mod Icache
pub mod Issuer
