-- ===== src/Validate/Plain.antt =====
-- internal/validate/validate.go: the checks of one instruction, as far as the control stack stays as
-- it is.
use watgo.Common.{Result, err, if◌then◌else◌}
use watgo.Wasmir.Instr.{Instr}
use watgo.Validate.Operands.{Diag, Context, State, Hints}
use watgo.Validate.Signatures.{stack_sig, apply_fixed_stack_sig}
use watgo.Validate.Instructions.{
  check_variable, check_table, check_parametric, check_load, check_store,
}
use watgo.Validate.Instructions.{check_memory, check_reference}

-- The instruction switch. Its cases for kinds that have a signature are never reached, and are left
-- out.
abbrev check_switch : Context → Hints → Instr → State → Result Diag State
check_switch ctx hint Instr.drop st = check_parametric ctx hint Instr.drop st
check_switch ctx hint Instr.select st = check_parametric ctx hint Instr.select st
check_switch ctx hint (Instr.select_typed t) st =
    check_parametric ctx hint (Instr.select_typed t) st
check_switch ctx hint (Instr.local_get index) st =
    check_variable ctx hint (Instr.local_get index) st
check_switch ctx hint (Instr.local_set index) st =
    check_variable ctx hint (Instr.local_set index) st
check_switch ctx hint (Instr.local_tee index) st =
    check_variable ctx hint (Instr.local_tee index) st
check_switch ctx hint (Instr.global_get index) st =
    check_variable ctx hint (Instr.global_get index) st
check_switch ctx hint (Instr.global_set index) st =
    check_variable ctx hint (Instr.global_set index) st
check_switch ctx hint (Instr.const w n) st = check_parametric ctx hint (Instr.const w n) st
check_switch ctx hint (Instr.ref_null t) st = check_reference ctx hint (Instr.ref_null t) st
check_switch ctx hint Instr.ref_is_null st = check_reference ctx hint Instr.ref_is_null st
check_switch ctx hint (Instr.load w op index offset) st =
    check_load ctx hint (Instr.load w op index offset) st
check_switch ctx hint (Instr.store w op index offset) st =
    check_store ctx hint (Instr.store w op index offset) st
check_switch ctx hint (Instr.memory_size index) st =
    check_memory ctx hint (Instr.memory_size index) st
check_switch ctx hint (Instr.memory_grow index) st =
    check_memory ctx hint (Instr.memory_grow index) st
check_switch ctx hint (Instr.memory_copy index source) st =
    check_memory ctx hint (Instr.memory_copy index source) st
check_switch ctx hint (Instr.memory_init index segment) st =
    check_memory ctx hint (Instr.memory_init index segment) st
check_switch ctx hint (Instr.memory_fill index) st =
    check_memory ctx hint (Instr.memory_fill index) st
check_switch ctx hint (Instr.data_drop segment) st =
    check_memory ctx hint (Instr.data_drop segment) st
check_switch ctx hint (Instr.table_get index) st = check_table ctx hint (Instr.table_get index) st
check_switch ctx hint (Instr.table_set index) st = check_table ctx hint (Instr.table_set index) st
check_switch ctx hint (Instr.table_copy index source) st =
    check_table ctx hint (Instr.table_copy index source) st
check_switch ctx hint (Instr.table_fill index) st = check_table ctx hint (Instr.table_fill index) st
check_switch ctx hint (Instr.table_init index segment) st =
    check_table ctx hint (Instr.table_init index segment) st
check_switch ctx hint (Instr.elem_drop segment) st =
    check_table ctx hint (Instr.elem_drop segment) st
check_switch ctx hint (Instr.table_grow index) st = check_table ctx hint (Instr.table_grow index) st
check_switch ctx hint (Instr.table_size index) st = check_table ctx hint (Instr.table_size index) st
check_switch ctx hint ins st = err Diag.unsupported_instruction

-- An instruction whose signature is in the catalog goes by it, and any other to the switch.
unfoldable pub check_plain : Context → Hints → Instr → State → Result Diag State
check_plain ctx hint ins st =
    if (stack_sig ins).enabled
    then apply_fixed_stack_sig ctx hint (stack_sig ins) st
    else check_switch ctx hint ins st
