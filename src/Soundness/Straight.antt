-- ===== src/Soundness/Straight.antt =====
-- internal/validate/validate.go and internal/vm/execute.go: any accepted instruction, and any accepted
-- sequence of instructions without control flow.
use watgo.Common.{◌≡◌, refl, List, [], ◌∷◌, Result, ok, ◌>>=◌, >>=-ok}
use watgo.Wasmir.Instr.{Instr}
use watgo.Validate.Operands.{State, Hints, Context, Diag}
use watgo.Validate.Plain.{check_plain}
use watgo.Vm.Value.{Error}
use watgo.Vm.Execute.{Executor, step_plain}
use watgo.Soundness.Outcome.{Sound, Sound-bind, Sound-ok}
use watgo.Soundness.Matching.{Matches, ends}
use watgo.Soundness.Cases.Numbers.{nop-Safe, const-Safe, binary-Safe, compare-Safe, unary-Safe}
use watgo.Soundness.Cases.Numbers.{eqz-Safe, wrap-Safe, extend_s-Safe, extend_u-Safe, drop-Safe}
use watgo.Soundness.Cases.Numbers.{select-Safe, select_typed-Safe, ref_null-Safe, ref_is_null-Safe}
use watgo.Soundness.Cases.Numbers.{local_get-Safe, local_set-Safe, local_tee-Safe}
use watgo.Soundness.Cases.Numbers.{global_get-Safe, global_set-Safe}
use watgo.Soundness.Cases.Memory.{load-Safe, store-Safe, memory_size-Safe, memory_grow-Safe}
use watgo.Soundness.Cases.Memory.{
  memory_copy-Safe, memory_fill-Safe, memory_init-Safe, data_drop-Safe,
}
use watgo.Soundness.Cases.Table.{table_get-Safe, table_set-Safe, table_size-Safe, table_grow-Safe}
use watgo.Soundness.Cases.Table.{table_fill-Safe, table_copy-Safe, table_init-Safe, elem_drop-Safe}

-- An instruction that the validator accepts in reachable code does not go wrong: on an executor that
-- matches the validator's state it traps, or it gives an executor that matches the state after the
-- check.
pub step_plain-Sound :
    (ins : Instr) (ctx : Context) (hint : Hints) (st st' : State) (x : Executor)
    → check_plain ctx hint ins st ≡ ok st'
    → Matches ctx st x
    → Sound (Matches ctx st') (step_plain ins x)
step_plain-Sound Instr.nop ctx hint st st' x h m = nop-Safe ctx hint st st' x m h
step_plain-Sound Instr.drop ctx hint st st' x h m = drop-Safe ctx hint st st' x m h
step_plain-Sound Instr.select ctx hint st st' x h m = select-Safe ctx hint st st' x m h
step_plain-Sound (Instr.select_typed t) ctx hint st st' x h m =
    select_typed-Safe ctx hint st st' x m t h
step_plain-Sound Instr.i32_wrap_i64 ctx hint st st' x h m = wrap-Safe ctx hint st st' x m h
step_plain-Sound Instr.i64_extend_i32_s ctx hint st st' x h m = extend_s-Safe ctx hint st st' x m h
step_plain-Sound Instr.i64_extend_i32_u ctx hint st st' x h m = extend_u-Safe ctx hint st st' x m h
step_plain-Sound Instr.ref_is_null ctx hint st st' x h m = ref_is_null-Safe ctx hint st st' x m h
step_plain-Sound (Instr.ref_null t) ctx hint st st' x h m = ref_null-Safe ctx hint st st' x m t h
step_plain-Sound (Instr.local_get i) ctx hint st st' x h m = local_get-Safe ctx hint st st' x m i h
step_plain-Sound (Instr.local_set i) ctx hint st st' x h m = local_set-Safe ctx hint st st' x m i h
step_plain-Sound (Instr.local_tee i) ctx hint st st' x h m = local_tee-Safe ctx hint st st' x m i h
step_plain-Sound (Instr.global_get i) ctx hint st st' x h m =
    global_get-Safe ctx hint st st' x m i h
step_plain-Sound (Instr.global_set i) ctx hint st st' x h m =
    global_set-Safe ctx hint st st' x m i h
step_plain-Sound (Instr.const w n) ctx hint st st' x h m = const-Safe ctx hint st st' x m w n h
step_plain-Sound (Instr.binary w op) ctx hint st st' x h m = binary-Safe ctx hint st st' x m w op h
step_plain-Sound (Instr.compare w op) ctx hint st st' x h m =
    compare-Safe ctx hint st st' x m w op h
step_plain-Sound (Instr.unary w op) ctx hint st st' x h m = unary-Safe ctx hint st st' x m w op h
step_plain-Sound (Instr.eqz w) ctx hint st st' x h m = eqz-Safe ctx hint st st' x m w h
step_plain-Sound (Instr.load w op i o) ctx hint st st' x h m =
    load-Safe ctx hint st st' x m w op i o h
step_plain-Sound (Instr.store w op i o) ctx hint st st' x h m =
    store-Safe ctx hint st st' x m w op i o h
step_plain-Sound (Instr.memory_size i) ctx hint st st' x h m =
    memory_size-Safe ctx hint st st' x m i h
step_plain-Sound (Instr.memory_grow i) ctx hint st st' x h m =
    memory_grow-Safe ctx hint st st' x m i h
step_plain-Sound (Instr.memory_fill i) ctx hint st st' x h m =
    memory_fill-Safe ctx hint st st' x m i h
step_plain-Sound (Instr.data_drop i) ctx hint st st' x h m = data_drop-Safe ctx hint st st' x m i h
step_plain-Sound (Instr.memory_copy i j) ctx hint st st' x h m =
    memory_copy-Safe ctx hint st st' x m i j h
step_plain-Sound (Instr.memory_init i j) ctx hint st st' x h m =
    memory_init-Safe ctx hint st st' x m i j h
step_plain-Sound (Instr.table_get i) ctx hint st st' x h m = table_get-Safe ctx hint st st' x m i h
step_plain-Sound (Instr.table_set i) ctx hint st st' x h m = table_set-Safe ctx hint st st' x m i h
step_plain-Sound (Instr.table_size i) ctx hint st st' x h m =
    table_size-Safe ctx hint st st' x m i h
step_plain-Sound (Instr.table_grow i) ctx hint st st' x h m =
    table_grow-Safe ctx hint st st' x m i h
step_plain-Sound (Instr.table_fill i) ctx hint st st' x h m =
    table_fill-Safe ctx hint st st' x m i h
step_plain-Sound (Instr.elem_drop i) ctx hint st st' x h m = elem_drop-Safe ctx hint st st' x m i h
step_plain-Sound (Instr.table_copy i j) ctx hint st st' x h m =
    table_copy-Safe ctx hint st st' x m i j h
step_plain-Sound (Instr.table_init i j) ctx hint st st' x h m =
    table_init-Safe ctx hint st st' x m i j h

-- The two loops over a body, `validateFunction`'s with the hints of each instruction.
unfoldable pub check_all : Context → List (Hints × Instr) → State → Result Diag State
check_all ctx [] st = ok st
check_all ctx ((hint, ins) ∷ body) st = check_plain ctx hint ins st >>= check_all ctx body

unfoldable pub run_all : List (Hints × Instr) → Executor → Result Error Executor
run_all [] x = ok x
run_all ((hint, ins) ∷ body) x = step_plain ins x >>= run_all body

-- A sequence of instructions without control flow that the validator accepts in reachable code runs
-- to its end or traps, on an executor that matches the validator's state, and at its end the executor
-- matches the state that the validator has derived: operands, locals, memories, tables and globals.
pub run_all-Sound :
    (body : List (Hints × Instr)) (ctx : Context) (st st' : State) (x : Executor)
    → check_all ctx body st ≡ ok st'
    → Matches ctx st x
    → Sound (Matches ctx st') (run_all body x)
unfolding check_all run_all
run_all-Sound [] ctx st st' x h m = ends st h (Sound-ok _ x refl m)
run_all-Sound ((hint, ins) ∷ body) ctx st st' x h m =
    let (next, first, rest) = >>=-ok (check_plain ctx hint ins st) _ h in
    Sound-bind (step_plain ins x) _ (step_plain-Sound ins ctx hint st next x first m)
      (λ y n. run_all-Sound body ctx next st' y rest n)
