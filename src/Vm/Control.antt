-- ===== src/Vm/Control.antt =====
-- internal/vm/execute.go: structured control. A frame keeps its operand stack, its labels and its
-- program counter; both stacks grow at the end of their list.
pub mod Labels
use watgo.Common.{ℕ, ◌+◌, ◌-◌, Bool, true, false, Option, none, some, List, [], ◌∷◌, ◌++◌}
use watgo.Common.{Result, ok, err, ◌>>=◌, ◌>>◌, guard, length, get_elem?, take, drop, ltb, leb, not}
use watgo.Common.{if◌then◌else◌, ◌==◌}
use watgo.Vm.Value.{Error, Value}
use watgo.Vm.State.{lookup}

-- `controlLabel`, what the compiler knows of a block; its catches are numbered.
pub record CodeLabel : Type 0 where
  pub param_arity : ℕ
  pub result_arity : ℕ
  pub branch_arity : ℕ
  pub is_loop : Bool
  pub catches : List ℕ

pub record RuntimeLabel : Type 0 where
  pub height : ℕ
  pub result_arity : ℕ
  pub branch_arity : ℕ
  pub is_loop : Bool
  pub catches : List ℕ

-- The fields of `executor` that control uses; `code_labels` is `fn.labels`.
pub record Frame : Type 0 where
  pub code_labels : ℕ → Option CodeLabel
  pub stack : List Value
  pub labels : List RuntimeLabel
  pub pc : ℕ

abbrev pub with_stack : Frame → List Value → Frame
with_stack e stack = record e { stack = stack }

abbrev pub with_labels : Frame → List RuntimeLabel → Frame
with_labels e labels = record e { labels = labels }

abbrev pub runtime_label : CodeLabel → ℕ → RuntimeLabel
runtime_label l height = record {
  height = height;
  result_arity = l.result_arity;
  branch_arity = l.branch_arity;
  is_loop = l.is_loop;
  catches = l.catches;
}

unfoldable pub normalize_label_values : List Value → ℕ → ℕ → Result Error (List Value)
normalize_label_values stack height arity = do
  guard (not (ltb (length stack) arity)) Error.stack_underflow
  guard (not (ltb (length stack - arity) height)) Error.label_underflow
  ok (take height stack ++ drop (length stack - arity) stack)

abbrev pub found_label : Option CodeLabel → Result Error CodeLabel
found_label none = err Error.label_index
found_label (some l) = ok l

unfoldable pub enter_label : Frame → ℕ → Result Error Frame
enter_label e pc = do
  l ← found_label (e.code_labels pc)
  guard (not (ltb (length e.stack) l.param_arity)) Error.label_underflow
  ok (with_labels e (e.labels ++ (runtime_label l (length e.stack - l.param_arity) ∷ [])))

unfoldable pub exit_label : Frame → Result Error Frame
exit_label e = do
  guard (not (leb (length e.labels) 1)) Error.label_underflow
  l ← lookup Error.label_underflow e.labels (length e.labels - 1)
  stack ← normalize_label_values e.stack l.height l.result_arity
  ok (with_labels (with_stack e stack) (take (length e.labels - 1) e.labels))

-- How many labels a branch to the one at `target_index` keeps.
unfoldable pub kept_labels : Bool → ℕ → ℕ
kept_labels is_loop target_index =
    if is_loop then target_index + 1 else if target_index == 0 then 1 else target_index

unfoldable pub branch_to_label_index : Frame → ℕ → ℕ → Result Error Frame
branch_to_label_index e target_index target_pc = do
  target ← lookup Error.label_target e.labels target_index
  stack ← normalize_label_values e.stack target.height target.branch_arity
  ok (record e {
    stack = stack;
    labels = take (kept_labels target.is_loop target_index) e.labels;
    pc = target_pc;
  })

unfoldable pub branch_to : Frame → ℕ → ℕ → Result Error Frame
branch_to e depth target_pc = do
  guard (ltb depth (length e.labels)) Error.label_index
  branch_to_label_index e (length e.labels - 1 - depth) target_pc
