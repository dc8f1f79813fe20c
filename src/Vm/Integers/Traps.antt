-- ===== src/Vm/Integers/Traps.antt =====
-- When an integer instruction traps, and that a quotient and a remainder give back the dividend.
use watgo.Common.{ℕ, ◌-◌, ◌^◌, ◌≡◌, ◌⊎◌, ◌↔◌, arith}
use watgo.Common.{IsOk}
use watgo.Vm.Integers.{BinaryOp, eval_binary}

-- The operands on which the instruction set asks for a trap.
abbrev pub Traps : ℕ → BinaryOp → ℕ → ℕ → Type 0
Traps w BinaryOp.div_s lhs rhs = (rhs ≡ 0) ⊎ ((lhs ≡ 2 ^ (w - 1)) × (rhs ≡ 2 ^ w - 1))
Traps w BinaryOp.div_u lhs rhs = rhs ≡ 0
Traps w BinaryOp.rem_s lhs rhs = rhs ≡ 0
Traps w BinaryOp.rem_u lhs rhs = rhs ≡ 0
Traps w _ lhs rhs = ⊥

-- A binary instruction traps exactly on a zero divisor, and on the signed quotient of the least
-- integer by -1.
pub eval_binary-Traps :
    (w : ℕ) (op : BinaryOp) (lhs rhs : ℕ) → IsOk (eval_binary w op lhs rhs) ↔ (¬ Traps w op lhs rhs)
unfolding eval_binary
eval_binary-Traps w BinaryOp.div_s lhs rhs = ground arith
eval_binary-Traps w BinaryOp.div_u lhs rhs = ground arith
eval_binary-Traps w BinaryOp.rem_s lhs rhs = ground arith
eval_binary-Traps w BinaryOp.rem_u lhs rhs = ground arith
eval_binary-Traps w _ lhs rhs = ground arith
