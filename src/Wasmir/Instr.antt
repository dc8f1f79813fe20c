-- ===== src/Wasmir/Instr.antt =====
-- wasmir/module.go: the instructions that work on integers, references, locals, globals, memories
-- and tables. Go tells them apart by `InstrKind`; the immediates of `Instruction` that a kind uses
-- are the arguments of its constructor.
use watgo.Common.{ℕ}
use watgo.Wasmir.{ValueType}

-- `InstrI32Add` and the like, less their width.
pub data BinaryOp : Type 0 where
  add sub mul div_s div_u rem_s rem_u and or xor shl shr_s shr_u rotl rotr : BinaryOp

pub data CompareOp : Type 0 where
  eq ne lt_s lt_u le_s le_u gt_s gt_u ge_s ge_u : CompareOp

pub data UnaryOp : Type 0 where
  clz ctz popcnt extend8_s extend16_s extend32_s : UnaryOp

pub data Width : Type 0 where
  i32 i64 : Width

-- The loads of one width: `InstrI32Load` or `InstrI64Load` is `full`.
pub data LoadOp : Type 0 where
  full load8_s load8_u load16_s load16_u load32_s load32_u : LoadOp

pub data StoreOp : Type 0 where
  full store8 store16 store32 : StoreOp

pub data Instr : Type 0 where
  nop drop select i32_wrap_i64 i64_extend_i32_s i64_extend_i32_u ref_is_null : Instr
  select_typed ref_null : ValueType → Instr
  local_get local_set local_tee global_get global_set : ℕ → Instr
  const : Width → ℕ → Instr
  binary : Width → BinaryOp → Instr
  compare : Width → CompareOp → Instr
  unary : Width → UnaryOp → Instr
  eqz : Width → Instr
  load : Width → LoadOp → ℕ → ℕ → Instr
  store : Width → StoreOp → ℕ → ℕ → Instr
  memory_size memory_grow memory_fill data_drop : ℕ → Instr
  memory_copy memory_init : ℕ → ℕ → Instr
  table_get table_set table_size table_grow table_fill elem_drop : ℕ → Instr
  table_copy table_init : ℕ → ℕ → Instr
