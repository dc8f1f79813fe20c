-- ===== src/Tests/Operations.antt =====
-- The theorems on operands, control and integers at concrete frames and patterns.
use watgo.Common.{◌≡◌, ◌↔◌, inl, refl, arith}
use watgo.Common.{true, false, some, [], ◌∷◌, ok, IsOk}
use watgo.Common.Int.{signed}
use watgo.Wasmir.{value_type_i32}
use watgo.Vm.Value.{i32_value}
use watgo.Vm.Operands.{pop_args, pop_results}
use watgo.Vm.Operands.Calls.{pop_args-append}
use watgo.Vm.Control.{
  CodeLabel, RuntimeLabel, Frame, with_stack, with_labels, enter_label, exit_label, branch_to,
}
use watgo.Vm.Control.{runtime_label}
use watgo.Vm.Control.Labels.{exit_label-enter_label, branch_to-eq, left}
use watgo.Vm.Integers.{BinaryOp, CompareOp, eval_binary, eval_compare}
use watgo.Vm.Integers.Traps.{Traps, eval_binary-Traps}
use watgo.Vm.Integers.Signs.{LtInt, eval_compare-signed}

pop_args-append_example :
    (pop_args (i32_value 1 ∷ i32_value 2 ∷ []) (value_type_i32 ∷ [])
      ≡ ok (i32_value 2 ∷ [], i32_value 1 ∷ []))
    × (pop_results (i32_value 1 ∷ i32_value 2 ∷ []) (value_type_i32 ∷ [])
        ≡ ok (i32_value 2 ∷ [], i32_value 1 ∷ []))
pop_args-append_example =
    pop_args-append (i32_value 1 ∷ []) (value_type_i32 ∷ []) (i32_value 2 ∷ []) (inl refl, tt)

abbrev block : CodeLabel
block = record {
  param_arity = 1;
  result_arity = 1;
  branch_arity = 1;
  is_loop = false;
  catches = [];
}

abbrev function_label : RuntimeLabel
function_label = record {
  height = 0;
  result_arity = 0;
  branch_arity = 0;
  is_loop = false;
  catches = [];
}

abbrev frame : Frame
frame = record {
  code_labels = λ pc. some block;
  stack = i32_value 1 ∷ i32_value 2 ∷ [];
  labels = function_label ∷ [];
  pc = 10;
}

abbrev inside : Frame
inside = with_labels frame (function_label ∷ runtime_label block 1 ∷ [])

exit_label-enter_label_example :
    exit_label (with_stack inside (i32_value 1 ∷ i32_value 7 ∷ i32_value 8 ∷ []))
    ≡ ok (with_stack frame (i32_value 1 ∷ i32_value 8 ∷ []))
unfolding enter_label
exit_label-enter_label_example =
    exit_label-enter_label frame inside 10 block (i32_value 1 ∷ []) (i32_value 2 ∷ [])
      (i32_value 7 ∷ []) (i32_value 8 ∷ []) refl refl refl refl (omega arith) refl

branch_to-eq_example :
    branch_to (with_stack inside (i32_value 1 ∷ i32_value 7 ∷ i32_value 8 ∷ [])) 0 42
    ≡ ok record inside {
      stack = i32_value 1 ∷ i32_value 8 ∷ [];
      labels = function_label ∷ [];
      pc = 42;
    }
branch_to-eq_example =
    branch_to-eq (with_stack inside (i32_value 1 ∷ i32_value 7 ∷ i32_value 8 ∷ [])) 0 42
      (runtime_label block 1) (function_label ∷ []) [] (function_label ∷ []) (i32_value 1 ∷ [])
      (i32_value 7 ∷ []) (i32_value 8 ∷ []) refl refl (left refl) refl refl refl

eval_binary-Traps_example :
    IsOk (eval_binary 32 BinaryOp.div_s 2147483648 4294967295)
    ↔ (¬ Traps 32 BinaryOp.div_s 2147483648 4294967295)
eval_binary-Traps_example = eval_binary-Traps 32 BinaryOp.div_s 2147483648 4294967295

eval_compare-signed_example :
    ((eval_compare 32 CompareOp.lt_s 4294967295 1 ≡ true)
      ↔ LtInt (signed 32 4294967295) (signed 32 1))
    × ((eval_compare 32 CompareOp.gt_s 4294967295 1 ≡ true)
        ↔ LtInt (signed 32 1) (signed 32 4294967295))
    × ((eval_compare 32 CompareOp.le_s 4294967295 1 ≡ true)
        ↔ (¬ LtInt (signed 32 1) (signed 32 4294967295)))
    × ((eval_compare 32 CompareOp.ge_s 4294967295 1 ≡ true)
        ↔ (¬ LtInt (signed 32 4294967295) (signed 32 1)))
eval_compare-signed_example =
    eval_compare-signed 32 4294967295 1 (omega arith) (omega arith) (omega arith)
