-- ===== src/Vm/Evaluate.antt =====
-- internal/vm/execute.go: the instructions of `executor.run` that work on the operand stack alone.
use watgo.Common.{ℕ, ◌%◌, ◌^◌, Bool, true, false, not}
use watgo.Common.{Result, ok, err, ◌>>=◌, ◌>>◌, guard, ◌==◌, ◌&&◌, if◌then◌else◌}
use watgo.Wasmir.{ValueType, is_ref}
use watgo.Wasmir.Instr.{Instr, Width, LoadOp, StoreOp}
use watgo.Wasmir.Equality.{same_value_type}
use watgo.Vm.Value.{Error, Value, RefKind, runtime_type_matches}
use watgo.Vm.Operands.{Stack, pop, pop_i32, pop_i64, push_i32, push_i64}
use watgo.Vm.Integers.{eval_i32_binary, eval_i32_unary, eval_i64_binary, eval_i64_unary}
use watgo.Vm.Integers.{eval_i64_compare, I32Op, bool_i32, extend_signed}

-- `memoryAccessSize`.
abbrev pub load_size : Width → LoadOp → ℕ
load_size Width.i32 LoadOp.full = 4
load_size Width.i64 LoadOp.full = 8
load_size _ LoadOp.load8_s = 1
load_size _ LoadOp.load8_u = 1
load_size _ LoadOp.load16_s = 2
load_size _ LoadOp.load16_u = 2
load_size _ LoadOp.load32_s = 4
load_size _ LoadOp.load32_u = 4

abbrev pub store_size : Width → StoreOp → ℕ
store_size Width.i32 StoreOp.full = 4
store_size Width.i64 StoreOp.full = 8
store_size _ StoreOp.store8 = 1
store_size _ StoreOp.store16 = 2
store_size _ StoreOp.store32 = 4

-- `extendI32Load` and `extendI64Load`, over the width.
unfoldable pub extend_load : ℕ → LoadOp → ℕ → ℕ
unfolding extend_signed
extend_load w LoadOp.full raw = raw % 2 ^ w
extend_load w LoadOp.load8_s raw = extend_signed w 8 raw
extend_load w LoadOp.load8_u raw = raw % 2 ^ 8
extend_load w LoadOp.load16_s raw = extend_signed w 16 raw
extend_load w LoadOp.load16_u raw = raw % 2 ^ 16
extend_load w LoadOp.load32_s raw = extend_signed w 32 raw
extend_load w LoadOp.load32_u raw = raw % 2 ^ 32

abbrev pub set_type : Value → ValueType → Value
set_type v t = record v { type = t }

-- `popI32` and `popI64`, and the pushes of their values.
abbrev pub pop_width : Width → Stack → Result Error (ℕ × Stack)
pop_width Width.i32 stack = pop_i32 stack
pop_width Width.i64 stack = pop_i64 stack

abbrev pub push_width : Width → Stack → ℕ → Stack
push_width Width.i32 stack n = push_i32 stack n
push_width Width.i64 stack n = push_i64 stack n

abbrev pub bits : Width → ℕ
bits Width.i32 = 32
bits Width.i64 = 64

-- `evalTypedSelect`, at the type that the compiled code's index leads to.
unfoldable pub eval_typed_select : Stack → ValueType → Result Error (Value × Stack)
eval_typed_select stack want = do
  (cond, below) ← pop_i32 stack
  (v2, under) ← pop below
  (v1, rest) ← pop under
  guard (runtime_type_matches v1.type want && runtime_type_matches v2.type want) Error.operand_type
  ok (if not (cond == 0) then set_type v1 want else set_type v2 want, rest)

unfoldable pub eval_select : Stack → Result Error (Value × Stack)
eval_select stack = do
  (cond, below) ← pop_i32 stack
  (v2, under) ← pop below
  (v1, rest) ← pop under
  guard (same_value_type v1.type v2.type) Error.operand_type
  ok (if not (cond == 0) then v1 else v2, rest)

is_null : RefKind → Bool
is_null RefKind.null = true
is_null _ = false

unfoldable pub ref_is_null : Stack → Result Error Stack
unfolding is_null
ref_is_null stack = do
  (v, rest) ← pop stack
  guard (is_ref v.type) Error.operand_type
  ok (push_i32 rest (bool_i32 (is_null v.ref.kind)))

-- The integer instructions, each over the operand stack alone.
unfoldable pub step_numeric : Instr → Stack → Result Error Stack
step_numeric (Instr.const Width.i32 n) stack = ok (push_i32 stack (n % 2 ^ 32))
step_numeric (Instr.const Width.i64 n) stack = ok (push_i64 stack n)
step_numeric (Instr.binary Width.i32 op) stack = do
  (n, rest) ← eval_i32_binary stack (I32Op.binary op)
  ok (push_i32 rest n)
step_numeric (Instr.binary Width.i64 op) stack = do
  (n, rest) ← eval_i64_binary stack op
  ok (push_i64 rest n)
step_numeric (Instr.compare Width.i32 op) stack = do
  (n, rest) ← eval_i32_binary stack (I32Op.compare op)
  ok (push_i32 rest n)
step_numeric (Instr.compare Width.i64 op) stack = do
  (n, rest) ← eval_i64_compare stack op
  ok (push_i32 rest n)
step_numeric (Instr.eqz Width.i32) stack = do
  (n, rest) ← pop_i32 stack
  ok (push_i32 rest (bool_i32 (n == 0)))
step_numeric (Instr.eqz Width.i64) stack = do
  (n, rest) ← pop_i64 stack
  ok (push_i32 rest (bool_i32 (n == 0)))
step_numeric (Instr.unary Width.i32 op) stack = do
  (n, rest) ← eval_i32_unary stack op
  ok (push_i32 rest n)
step_numeric (Instr.unary Width.i64 op) stack = do
  (n, rest) ← eval_i64_unary stack op
  ok (push_i64 rest n)
step_numeric Instr.i32_wrap_i64 stack = do
  (n, rest) ← pop_i64 stack
  ok (push_i32 rest (n % 2 ^ 32))
step_numeric Instr.i64_extend_i32_s stack = do
  (n, rest) ← pop_i32 stack
  ok (push_i64 rest (extend_signed 64 32 n))
step_numeric Instr.i64_extend_i32_u stack = do (n, rest) ← pop_i32 stack; ok (push_i64 rest n)
step_numeric _ stack = err Error.unsupported_instruction
