-- ===== src/Vm/Integers.antt =====
-- internal/vm/execute.go: integer instructions. An i32 or i64 is its bit pattern, a number below
-- 2 ^ 32 or 2 ^ 64; what the source writes once for each width is one definition over the width `w`.
pub mod Inverse
pub mod Division
pub mod Traps
pub mod Signs
pub mod Counts
use watgo.Common.{ℕ, zero, suc, ◌+◌, ◌-◌, ◌*◌, ◌/◌, ◌%◌, ◌^◌, bit_and, bit_or, bit_xor}
use watgo.Common.{Bool, true, false, ◌&&◌, not, List, Result, ok, err, ◌>>=◌}
use watgo.Common.{ltb, leb, ◌==◌, if◌then◌else◌}
use watgo.Common.Int.{ltb_signed, leb_signed, shift_right_signed}
pub use watgo.Wasmir.Instr.{BinaryOp, CompareOp, UnaryOp}
use watgo.Vm.Value.{Error}
use watgo.Vm.Operands.{Stack, pop_i32, pop_i64}

-- Go's `-x`, and the distance from 0 of the integer that a pattern stands for.
abbrev pub negate : ℕ → ℕ → ℕ
negate w x = (2 ^ w - x) % 2 ^ w

abbrev pub is_negative : ℕ → ℕ → Bool
is_negative w x = leb (2 ^ (w - 1)) x

abbrev pub magnitude : ℕ → ℕ → ℕ
magnitude w x = if is_negative w x then 2 ^ w - x else x

-- Go's `/` and `%` on signed integers: the quotient is cut towards 0, and the remainder has the
-- sign of the dividend.
abbrev same_sign : ℕ → ℕ → ℕ → Bool
same_sign w x y = if is_negative w x then is_negative w y else not (is_negative w y)

unfoldable pub quotient : ℕ → ℕ → ℕ → ℕ
quotient w x y =
    if same_sign w x y
    then magnitude w x / magnitude w y % 2 ^ w
    else negate w (magnitude w x / magnitude w y)

unfoldable pub remainder : ℕ → ℕ → ℕ → ℕ
remainder w x y =
    if is_negative w x
    then negate w (magnitude w x % magnitude w y)
    else magnitude w x % magnitude w y

-- `bits.RotateLeft32` and `bits.RotateLeft64`.
unfoldable pub rotate_left : ℕ → ℕ → ℕ → ℕ
rotate_left w x k = bit_or (x * 2 ^ k % 2 ^ w) (x / 2 ^ (w - k))

-- `& 31` and `& 63`.
abbrev pub shift_count : ℕ → ℕ → ℕ
shift_count w x = bit_and x (w - 1)

unfoldable pub eval_binary : ℕ → BinaryOp → ℕ → ℕ → Result Error ℕ
unfolding quotient remainder rotate_left
eval_binary w BinaryOp.add lhs rhs = ok ((lhs + rhs) % 2 ^ w)
eval_binary w BinaryOp.sub lhs rhs = ok ((lhs + (2 ^ w - rhs)) % 2 ^ w)
eval_binary w BinaryOp.mul lhs rhs = ok (lhs * rhs % 2 ^ w)
eval_binary w BinaryOp.div_s lhs rhs =
    if rhs == 0
    then err Error.divide_by_zero
    else if lhs == 2 ^ (w - 1) && (rhs == 2 ^ w - 1)
    then err Error.integer_overflow
    else ok (quotient w lhs rhs)
eval_binary w BinaryOp.div_u lhs rhs = if rhs == 0 then err Error.divide_by_zero else ok (lhs / rhs)
eval_binary w BinaryOp.rem_s lhs rhs =
    if rhs == 0 then err Error.divide_by_zero else ok (remainder w lhs rhs)
eval_binary w BinaryOp.rem_u lhs rhs = if rhs == 0 then err Error.divide_by_zero else ok (lhs % rhs)
eval_binary w BinaryOp.and lhs rhs = ok (bit_and lhs rhs)
eval_binary w BinaryOp.or lhs rhs = ok (bit_or lhs rhs)
eval_binary w BinaryOp.xor lhs rhs = ok (bit_xor lhs rhs)
eval_binary w BinaryOp.shl lhs rhs = ok (lhs * 2 ^ shift_count w rhs % 2 ^ w)
eval_binary w BinaryOp.shr_s lhs rhs = ok (shift_right_signed w lhs (shift_count w rhs))
eval_binary w BinaryOp.shr_u lhs rhs = ok (lhs / 2 ^ shift_count w rhs)
eval_binary w BinaryOp.rotl lhs rhs = ok (rotate_left w lhs (shift_count w rhs))
eval_binary w BinaryOp.rotr lhs rhs = ok (rotate_left w lhs ((w - shift_count w rhs) % w))

unfoldable pub eval_compare : ℕ → CompareOp → ℕ → ℕ → Bool
eval_compare w CompareOp.eq lhs rhs = lhs == rhs
eval_compare w CompareOp.ne lhs rhs = not (lhs == rhs)
eval_compare w CompareOp.lt_s lhs rhs = ltb_signed w lhs rhs
eval_compare w CompareOp.lt_u lhs rhs = ltb lhs rhs
eval_compare w CompareOp.le_s lhs rhs = leb_signed w lhs rhs
eval_compare w CompareOp.le_u lhs rhs = leb lhs rhs
eval_compare w CompareOp.gt_s lhs rhs = ltb_signed w rhs lhs
eval_compare w CompareOp.gt_u lhs rhs = ltb rhs lhs
eval_compare w CompareOp.ge_s lhs rhs = leb_signed w rhs lhs
eval_compare w CompareOp.ge_u lhs rhs = leb rhs lhs

-- `bits.LeadingZeros`, `bits.TrailingZeros` and `bits.OnesCount`, of a pattern of `w` bits.
unfoldable pub leading_zeros : ℕ → ℕ → ℕ
leading_zeros zero x = 0
leading_zeros (suc n) x = let rest = leading_zeros n x in if leb (2 ^ n) x then 0 else suc rest

unfoldable pub trailing_zeros : ℕ → ℕ → ℕ
trailing_zeros zero x = 0
trailing_zeros (suc n) x = let rest = trailing_zeros n (x / 2) in if x % 2 == 1 then 0 else suc rest

unfoldable pub ones_count : ℕ → ℕ → ℕ
ones_count zero x = 0
ones_count (suc n) x = x % 2 + ones_count n (x / 2)

-- The conversion through a narrower signed type, `int32(int8(v))` and the like.
unfoldable pub extend_signed : ℕ → ℕ → ℕ → ℕ
extend_signed w k x =
    if leb (2 ^ (k - 1)) (x % 2 ^ k) then x % 2 ^ k + (2 ^ w - 2 ^ k) else x % 2 ^ k

-- `extend32_s` is an instruction on i64 only.
unfoldable pub eval_unary : ℕ → UnaryOp → ℕ → Result Error ℕ
unfolding extend_signed
eval_unary w UnaryOp.clz x = ok (leading_zeros w x)
eval_unary w UnaryOp.ctz x = ok (trailing_zeros w x)
eval_unary w UnaryOp.popcnt x = ok (ones_count w x)
eval_unary w UnaryOp.extend8_s x = ok (extend_signed w 8 x)
eval_unary w UnaryOp.extend16_s x = ok (extend_signed w 16 x)
eval_unary w UnaryOp.extend32_s x =
    if w == 32 then err Error.unsupported_instruction else ok (extend_signed w 32 x)

abbrev pub bool_i32 : Bool → ℕ
bool_i32 true = 1
bool_i32 false = 0

-- `evalI32Binary` takes the comparisons too.
pub data I32Op : Type 0 where
  binary : BinaryOp → I32Op
  compare : CompareOp → I32Op

unfoldable pub i32_result : I32Op → ℕ → ℕ → Result Error ℕ
i32_result (I32Op.binary op) lhs rhs = eval_binary 32 op lhs rhs
i32_result (I32Op.compare op) lhs rhs = ok (bool_i32 (eval_compare 32 op lhs rhs))

unfoldable pub eval_i32_binary : Stack → I32Op → Result Error (ℕ × Stack)
eval_i32_binary stack op = do
  (rhs, below) ← pop_i32 stack
  (lhs, rest) ← pop_i32 below
  n ← i32_result op lhs rhs
  ok (n, rest)

unfoldable pub eval_i32_unary : Stack → UnaryOp → Result Error (ℕ × Stack)
eval_i32_unary stack op = do (v, rest) ← pop_i32 stack; n ← eval_unary 32 op v; ok (n, rest)

unfoldable pub eval_i64_binary : Stack → BinaryOp → Result Error (ℕ × Stack)
eval_i64_binary stack op = do
  (rhs, below) ← pop_i64 stack
  (lhs, rest) ← pop_i64 below
  n ← eval_binary 64 op lhs rhs
  ok (n, rest)

unfoldable pub eval_i64_unary : Stack → UnaryOp → Result Error (ℕ × Stack)
eval_i64_unary stack op = do (v, rest) ← pop_i64 stack; n ← eval_unary 64 op v; ok (n, rest)

unfoldable pub eval_i64_compare : Stack → CompareOp → Result Error (ℕ × Stack)
eval_i64_compare stack op = do
  (rhs, below) ← pop_i64 stack
  (lhs, rest) ← pop_i64 below
  ok (bool_i32 (eval_compare 64 op lhs rhs), rest)
