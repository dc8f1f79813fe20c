-- ===== src/Lib.antt =====
-- watgo: a WebAssembly toolkit in Go. It reads the text and the binary format into one model of a
-- module, validates and prints modules, and runs them in an interpreter.
--
-- The parts that are modelled, and where:
--
-- - Wasmir: value types, type definitions and the part of a module that bodies name, of
--   wasmir/module.go. Names that only messages use are left out. Wasmir/Equality is Go's `==` on
--   value types, and Wasmir/Instr has the instructions, each kind with the immediates that it uses.
-- - Binary: internal/binaryformat/decode.go and encode.go. A `bytes.Reader` is the list of its
--   unread bytes and a decoder gives a value and the bytes after it, or an error; an encoder gives
--   the bytes it adds. Binary/Leb has `readULEB128`, `readSLEB128`, `writeULEB64`, `writeSLEB128`
--   and the readers of each width. Binary/Types has `decodeValueType`, `encodeValueType` and the
--   functions around them, Binary/Immediates the limits and `encodeMemArg`, Binary/Vectors what
--   all vectors share, Binary/Fields the field types and Binary/TypeDefs the type definitions, with
--   `encodeOneTypeDef` and `decodeOneTypeDef`; a decoder stops at the first error that is reported.
-- - Validate: internal/validate/validate.go. Validate/Values has `validatedValue` and the matching of
--   types (`matchesRefTypeInModule` and the functions around it), with `isTypeIndexSubtype` as an
--   argument. Validate/Operands has the two stacks of `bodyValidator.validate`, their tops first, and
--   `ensureCurrentFrameOperands`. Validate/Signatures has `applyFixedStackSig` with the signatures of
--   internal/instrdef/instruction_defs.go, by which the integer instructions go.
--   Validate/Instructions and Validate/Plain are the cases of its switch without control flow, but
--   for those that a signature keeps from being reached, and Validate/Control those of blocks, branches and returns. Validate/Body
--   is its loop. A check stops at its first diagnostic, where the source collects them all and
--   rejects the body in the end; what the source does after the first one is not modelled.
-- - Vm/Value: `Value`, `Reference`, `checkArgs`, `checkResults` and `runtimeTypeMatches` of
--   internal/vm/execute.go. Numbers are their bit patterns.
-- - Vm/State: `Memory`, `Table`, `Global`, the segments and the lookups of internal/vm/instance.go.
--   A pointer is a number into a store, so instances that share an object share its number, and one
--   instance may name an object twice. A slice is a pointer, a start and a size.
-- - Vm/Memories, Vm/Tables and Vm/Globals: the operations on each in internal/vm/instance.go
--   (`memoryStore` is `memory_store`, and so on). An operation gives the machine after it or an
--   error; the source returns its errors before its first write, so an error leaves no change.
-- - Vm/Operands and Vm/Control: the operand stack, calls' arguments, and the labels and branches of
--   internal/vm/execute.go. Both stacks grow at the end of their list, as the slices do.
-- - Vm/Integers: the i32 and i64 instructions of internal/vm/execute.go (`evalI32Binary` and the
--   like), defined once over the width.
-- - Vm/Evaluate and Vm/Execute: the cases of `executor.run` that go on with the next instruction.
--   An index into the constants of compiled code stands for the constant itself.
-- - Soundness: the validator and the interpreter together. Soundness/Outcome says that a result is a
--   value with a property or a trap, Soundness/Matching that an executor is as the validator's state
--   says, Soundness/Cases takes the instructions one by one, and Soundness/Straight has them all.
--
-- Common has the shared lists, results, integers, powers of two and bits; Common/Window is a window
-- of a slice, read and written. Tests has concrete machines, and each theorem at one of them.
--
-- Bounds: the loops of LEB128 run on the number of bytes that the width allows, which is the bound
-- of the source, and the writers on ten groups of seven bits, which hold any 64-bit number. Machine
-- integers are numbers below 2 ^ 32 or 2 ^ 64 with the wrap-around written out. Go's `int` has 64
-- bits. Allocation is taken to succeed.
--
-- Not modelled: the sections and the instruction stream of the binary format, the text format, the
-- printer, the checks of a whole module, and in both validator and interpreter calls, floats,
-- vectors, GC objects and exceptions, which are still to come; the command line and the host API,
-- which pass calls on.
pub mod Common
pub mod Wasmir
pub mod Binary
pub mod Validate
pub mod Vm
pub mod Soundness
pub mod Tests
