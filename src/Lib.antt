-- ===== src/Lib.antt =====
-- A model of the back end of the contract compiler and of its debugging machine, with the theorems
-- that make them correct.
--
-- The program compiles a contract language to Bitcoin Script. The compiler evaluates constants and plans
-- ranges for loops it unrolls, plans how values move on the script's stack, and writes numbers, pushes and opcodes as
-- hexadecimal text; the debugger runs that script on a simulated stack machine. The parts below meet
-- in the text: what the planner and the codec emit, the decoder reads and the machine executes. The
-- debugger stops the machine at breakpoints, which are set on source lines and meet the machine's pcs
-- and branch traces in the debug information.
--
-- Files, and the code that each follows:
--   Range    src/compiler/range_plan.h and .cpp. Range/Plan has RangePlan::build as `build`, valueAt as
--            `value_at` and RangeExpansionBudget with `remaining` and `consume`; Range/Bounds, Values
--            and Budget have the proofs. uint64_t results keep their `% 2 ^ 64`.
--   Script   src/bytecode/script_codec.h. Script/Hex has the hexadecimal text, Script/Codec encodePush,
--            decodePushPrefix, decodePush and decodePushHex; Script/Decoder follows decode_instruction
--            of src/bytecode/script_decoder.cpp. Bytes describes the encodings on their own, as byte
--            strings; HexText, RoundTrip, Minimal, Strict, Sizes and Consumed have the proofs.
--   Vm       src/debugger/vm. Vm/Number and Vm/Stack follow stack_state.cpp; Vm/Ops, Numeric and Bytes
--            have the op_ functions of bvm_simulator.cpp that work on the main stack; Vm/Machine has
--            the machine's state, the control instructions and executeOpcode as `execute_opcode`;
--            Vm/Text the opcodes of src/bytecode/bytecode_opcodes.h as text. NumberText, Opcodes,
--            Blocks, Arms, ByteStrings and Division have the proofs.
--   Planner  src/bytecode/stack_permutation_planner.h and .cpp, and numberToScriptHex of
--            src/bytecode/bytecode_helper_fun.h. Planner/Step has a step's text and costs, Moves its
--            effect on the planner's own stacks, Plans whole plans, Copy the neighbours and the goal of
--            searchCopyAssignment. Depths, Stacks, Machine and Effects join each step to the machine;
--            Chains, Reach, Naturality and Assignment follow the search; Totals, Numbers and
--            Emission have the proofs on totals and on the text of numbers.
--   Peephole src/bytecode_peephole_pass.h, on the machine. Peephole/Text and Push have what the pass
--            reads off one text, Rules has tryRewriteTriple and tryRewritePair, Pass has runOnePass as
--            `run_one_pass`, its loop as `pass_loop`, the rounds of execute as `run_rounds` and its
--            rollback of a script that would be left empty as `commit`. Hex, Reads, Forms, Constants and Payloads join the texts to the
--            machine's instructions; Windows, Agreement and Producers say what windows do on the stack;
--            Context, Soundness, PairRules, Verify, Control, Equality, TripleWindows, TripleRules,
--            Decoded, Placeholders and Duplicates follow the rules, Decisions, Rounds and Suffix the pass over whole scripts.
--   Static   src/compiler/static_integer_evaluator.cpp. Static/Checked has checkedAdd to checkedModulo,
--            Static/Evaluator the literals and evaluateExpression; Exact, Quotients, Sound and Errors
--            have the proofs.
--   Debug    src/debugger/info/debug_info.h and .cpp, as far as source lines go, and src/debugger/breakpoint.
--            Debug/Maps has std::map and std::set as lists in order of their keys, Info the records and
--            the line index of buildLineToPC, Lookup the lookups by line, pc and branch trace, Updates
--            the operations that fill the information. Breakpoint has the kinds of breakpoints and when
--            they stop, Manager and Hits the operations of BreakpointManager; a conditional breakpoint is
--            a line breakpoint, as in the source. Index, Lines and Filled follow the line index, Origins
--            the choice of an origin; Mapping, Resolve, Validity, Invariant, Changes, Adding and Commands
--            the manager's invariant; Active, Stops, Hitting, Setting and Ignored what stops the machine.
--   Prelude  Boolean tests, lists, results and integers over the native numbers.
--
-- Stacks have their top first, where the program's vectors have it last. A byte is a number below 256,
-- text is a list of character codes, an int64_t is an integer with its bounds as hypotheses. An
-- exception is an `err`, by what it reports; message texts are left out. The loop of
-- serializeScriptNum runs on eight rounds of fuel, enough for a uint64_t, which the round trip of
-- script numbers shows; OP_NUM2BIN's loop runs on the length asked for, its own bound. Where C++
-- leaves signed overflow undefined (negating INT64_MIN, int64_t arithmetic), the model wraps to 64 bits.
--
-- The loop of runOnePass runs on as many rounds of fuel as there are instructions, of which each round
-- takes at least one; the rounds of the pass are bounded by its own constant, 16. An instruction is the
-- text that the pass sees. The machine refuses an OP_PUSHDATA without payload, which the codec and the
-- pass accept; the predicate `IsSolid` excludes it.
--
-- What the file system makes of a source file's name is a parameter, `canonical`, of which nothing is
-- assumed; only the empty name is left as it is without asking it. The ids of breakpoints and their hit
-- counts are size_t and wrap; the manager's invariant asks that the ids do not run out.
--
-- The signature check is the callback that the machine is configured with, a field of `Signatures`.
-- Another field, `foreign`, is what the machine does with a text that is no instruction of the model,
-- an opcode that is left out or a placeholder; nothing is assumed of it but that, where a theorem says
-- so, a placeholder of known size stands for the push of one element, which takes its place before
-- the script runs.
--
-- `execute_all` and `run_script` are runs through code as BVMSimulator::run makes them without stops:
-- one instruction after the other, until an OP_RETURN is executed, which finishes the program or
-- leaves for the code behind a call. A run is `going` at the end of the code or `stopped` at such an OP_RETURN.
-- `run_texts` is executeOpcode on each text in turn, for code without OP_RETURN, such as the planner's.
-- The pc stays where it is; the model reads it for the branch trace alone.
--
-- A chain of the copy search is any sequence of neighbours from the first state, so what is shown of
-- chains does not depend on the order in which the priority queue takes states, on costs or on the
-- cache; that the search finds a cheapest chain is not modelled.
--
-- Not modelled: the lexer, the parser, the syntax tree and what walks it, but for the nodes that the
-- static integer evaluator tells apart, scopes and symbol tables,
-- the interpreter, the shells, the debugger's protocols, files and printing, and the hash functions. Of
-- the debug information, scopes, variables and the remapping of pcs by rewrites are left out; of the
-- breakpoints, their descriptions.
-- Of the machine, the run loop's stepping, pauses and own list of breakpoints, the pc's way through the code, the call frames that debug
-- information opens, the shift and hash instructions, OP_PUSH_META and OP_PARTIAL_HASH are left out.
-- Of the planner, the rank tables of move-only plans are left out. Of the peephole pass, the vectors
-- that map old places to new ones for the typed script and the debug information, and the stage of
-- structured ifs with the rounds behind it, are left out.
pub mod Prelude
pub mod Range
pub mod Script
pub mod Vm
pub mod Planner
pub mod Peephole
pub mod Static
pub mod Debug
