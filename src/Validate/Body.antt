-- ===== src/Validate/Body.antt =====
-- internal/validate/validate.go: `bodyValidator.validate`, the state that it starts with and its loop.
use mathlib.Core.Path.{subst}
use watgo.Common.{ℕ, ◌≡◌, ap, ◌∙◌, arith, Bool, true, false, not, List, [], ◌∷◌, ◌++◌}
use watgo.Common.{◌+◌, ◌-◌, ◌&&◌, Result, ok, ◌>>=◌, >>=-ok, guard, length, drop}
use watgo.Common.{length-append, drop-length_append, replicate}
use watgo.Wasmir.{ValueType}
use watgo.Wasmir.Instr.{Instr}
use watgo.Validate.Values.{Checked, is_defaultable_value_type}
use watgo.Validate.Operands.{Diag, Context, State, Hints, ControlFrame, ControlKind}
use watgo.Validate.Plain.{check_plain}
use watgo.Validate.Control.{Control, check_control, check_else, check_frame_result, reslice, is_if}
use watgo.Validate.Control.{current_frame}
use watgo.Validate.Heights.{IsWellFormed}
use watgo.Validate.Discipline.{check_plain-IsWellFormed}
use watgo.Validate.Frames.{check_control-IsWellFormed}

-- An instruction of a body with its hints, and for one of structured control the cells that Go's
-- slice holds above the top when it comes.
pub data Step : Type 0 where
  plain : Hints → Instr → Step
  flow : Hints → List Checked → Control → Step

unfoldable pub check_step : Context → List ValueType → Step → State → Result Diag State
check_step ctx results (Step.plain hint ins) st = check_plain ctx hint ins st
check_step ctx results (Step.flow hint cells ins) st = check_control ctx hint results cells ins st

unfoldable pub check_body : Context → List ValueType → List Step → State → Result Diag State
check_body ctx results [] st = ok st
check_body ctx results (step ∷ steps) st =
    check_step ctx results step st >>= check_body ctx results steps

defaultable : List ValueType → List Bool
defaultable [] = []
defaultable (t ∷ ts) = is_defaultable_value_type t ∷ defaultable ts

-- The implicit outer block, whose label has the function's results.
unfoldable pub initial_state : List ValueType → List ValueType → List ValueType → State
unfolding defaultable
initial_state params locals results =
    let init = replicate (length params) true ++ defaultable locals in
    record {
      stack = [];
      control_stack =
          record {
            kind = ControlKind.block;
            entry_height = 0;
            param_types = [];
            result_types = results;
            local_init = init;
            saw_else = false;
            entered_unreachable = false;
            unreachable = false;
          }
          ∷ [];
      local_initialized = init;
    }

check_step-IsWellFormed :
    (step : Step) (ctx : Context) (results : List ValueType) (st st' : State)
    → IsWellFormed st
    → check_step ctx results step st ≡ ok st'
    → IsWellFormed st'
unfolding check_step
check_step-IsWellFormed (Step.plain hint ins) ctx results st st' w h =
    (check_plain-IsWellFormed ins ctx hint st st' w h).1
check_step-IsWellFormed (Step.flow hint cells ins) ctx results st st' w h =
    check_control-IsWellFormed ins ctx hint results cells st st' w h

check_steps-IsWellFormed :
    (steps : List Step) (ctx : Context) (results : List ValueType) (st st' : State)
    → IsWellFormed st
    → check_body ctx results steps st ≡ ok st'
    → IsWellFormed st'
unfolding check_body
check_steps-IsWellFormed [] ctx results st st' w h =
    let same : st ≡ st' = cc in subst IsWellFormed same w
check_steps-IsWellFormed (step ∷ steps) ctx results st st' w h =
    let (next, first, rest) = >>=-ok (check_step ctx results step st) _ h in
    let w' = check_step-IsWellFormed step ctx results st next w first in
    check_steps-IsWellFormed steps ctx results next st' w' rest

-- Whatever instructions of a function's body the validator has accepted, its frames' entry heights do
-- not fall from the outermost frame to the innermost, and the value stack stands at the innermost
-- one's or above, in unreachable code too.
pub check_body-IsWellFormed :
    (steps : List Step) (ctx : Context) (params locals results : List ValueType) (st : State)
    → check_body ctx results steps (initial_state params locals results) ≡ ok st
    → IsWellFormed st
unfolding initial_state
check_body-IsWellFormed steps ctx params locals results st h =
    check_steps-IsWellFormed steps ctx results (initial_state params locals results) st
      (omega arith, tt) h

check_frame_result-height :
    (ctx : Context) (frame : ControlFrame) (stack : List Checked) {u : Unit {0}}
    → frame.unreachable ≡ false
    → check_frame_result ctx frame stack ≡ ok u
    → length stack ≡ frame.entry_height + length frame.result_types
unfolding check_frame_result
check_frame_result-height ctx frame stack r h = ground (arith, r, h)

-- A slice that is cut to its own length is what it was.
reslice-length :
    (cells stack : List Checked) (n : ℕ) → length stack ≡ n → reslice cells n stack ≡ stack
reslice-length cells stack n h =
    let whole = length-append cells stack in
    let cut : length (cells ++ stack) - n ≡ length cells = omega (arith, h, whole) in
    ap (λ k. drop k (cells ++ stack)) cut ∙ drop-length_append cells stack

-- When control reaches the `else` of an `if` that has as many results as parameters, the checks of
-- the else branch start with the value stack that the then branch ends with, its results in the place
-- of the parameters.
pub check_else-stack :
    (ctx : Context) (cells : List Checked) (st st' : State) (frame : ControlFrame)
    (outer : List ControlFrame)
    → st.control_stack ≡ frame ∷ outer
    → frame.unreachable ≡ false
    → length frame.result_types ≡ length frame.param_types
    → check_else ctx cells st ≡ ok st'
    → st'.stack ≡ st.stack
unfolding check_else
check_else-stack ctx cells st st' frame outer frames reached arity h =
    let here : current_frame st ≡ ok (frame, outer) = ground (arith, frames) in
    let ((f, o), found, h₁) = >>=-ok (current_frame st) _ h in
    let (_, _, h₂) = >>=-ok (guard (is_if f.kind && not f.saw_else) _) _ h₁ in
    let (_, checked, e) = >>=-ok (check_frame_result ctx f st.stack) _ h₂ in
    let same : f ≡ frame = cc in
    let open_then : f.unreachable ≡ false =
      ap (λ (g : ControlFrame). g.unreachable) same ∙ reached in
    let height = check_frame_result-height ctx f st.stack open_then checked in
    let results = ap (λ (g : ControlFrame). length g.result_types) same in
    let params = ap (λ (g : ControlFrame). length g.param_types) same in
    let n = f.entry_height + length f.param_types in
    let full : length st.stack ≡ n = omega (arith, height, results, params, arity) in
    let stands : st'.stack ≡ reslice cells n st.stack = cc in
    stands ∙ reslice-length cells st.stack n full
