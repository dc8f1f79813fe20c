-- ===== src/Validate/Frames.antt =====
-- internal/validate/validate.go: the frame heights through the instructions that open, split, close
-- and leave control frames.
use mathlib.Core.Path.{subst}
use watgo.Common.{ℕ, suc, ◌+◌, ◌-◌, ◌≤◌, ◌≡◌, refl, ap, arith, Bool, true, ◌&&◌, not}
use watgo.Common.{List, [], ◌∷◌, ◌++◌, ok, >>=-ok, guard, length}
use watgo.Common.{length-append, length-drop}
use watgo.Wasmir.{ValueType, value_type_i32}
use watgo.Validate.Values.{Checked}
use watgo.Validate.Operands.{Context, State, Hints, ControlFrame, ControlKind, expect}
use watgo.Validate.Operands.{ensure_operands, unary_operand, has_type, expected}
use watgo.Validate.Control.{Control, BlockType, check_control, check_open, check_if, check_else}
use watgo.Validate.Control.{
  close_frame, check_end, check_branch_target, check_targets, check_frame_result,
}
use watgo.Validate.Control.{check_missing_else, mark_unreachable}
use watgo.Validate.Operands.{expect_all, values_of, top_first, onto}
use watgo.Validate.Control.{truncate, open_frame, control_signature, branch_target_types, is_if}
use watgo.Validate.Control.{first_depth, later_depths, reslice, current_frame, label_at}
use watgo.Validate.Heights.{IsWellFormed, Heights, Heights-entry, entry, entry-Heights}
use watgo.Validate.Heights.{ensure_operands-height, expect-length, unary_operand-height}

length-onto : (ts us : List ValueType) → length (onto ts us) ≡ length ts + length us
length-onto [] us = omega arith
length-onto (t ∷ ts) us = omega (arith, length-onto ts (t ∷ us))

length-values_of : (ts : List ValueType) → length (values_of ts) ≡ length ts
length-values_of [] = refl
length-values_of (t ∷ ts) = ap suc (length-values_of ts)

length-top_first : (ts : List ValueType) → length (top_first ts) ≡ length ts
unfolding top_first
length-top_first ts = omega (arith, length-onto ts [])

-- The stack with values of the types on top.
pub length-labelled :
    (ts : List ValueType) (rest : List Checked)
    → length (values_of (top_first ts) ++ rest) ≡ length ts + length rest
length-labelled ts rest = omega (
  arith,
  length-append (values_of (top_first ts)) rest,
  length-values_of (top_first ts),
  length-top_first ts,
)

length-expect_all :
    (ctx : Context) (ts : List ValueType) (stack rest : List Checked)
    → expect_all ctx ts stack ≡ ok rest
    → length stack ≡ length ts + length rest
unfolding expect_all
length-expect_all ctx [] stack rest h =
    let same : stack ≡ rest = cc in omega (arith, ap length same)
length-expect_all ctx (t ∷ ts) stack rest h =
    let ((v, below), e, h₁) = >>=-ok (expect (expected ctx t) stack) _ h in
    omega (arith, expect-length _ stack below v e, length-expect_all ctx ts below rest h₁)

length-truncate : (n : ℕ) (stack : List Checked) → n ≤ length stack → length (truncate n stack) ≡ n
length-truncate n stack h = omega (arith, h, length-drop (length stack - n) stack)

-- The operands of a label or a block, which leave the stack at the frame's entry or above.
block_operands :
    (ctx : Context) (st : State) (hint : Hints) (types : List ValueType) (stack rest : List Checked)
    → IsWellFormed st
    → ensure_operands st (length types) hint ≡ ok stack
    → expect_all ctx (top_first types) stack ≡ ok rest
    → entry st.control_stack ≤ length rest
block_operands ctx st hint types stack rest w ensured taken = omega (
  arith,
  ensure_operands-height st (length types) hint stack w ensured,
  length-expect_all ctx (top_first types) stack rest taken,
  length-top_first types,
)

open_frame-IsWellFormed :
    (kind : ControlKind) (st : State) (params results : List ValueType) (rest : List Checked)
    → IsWellFormed st
    → entry st.control_stack ≤ length rest
    → IsWellFormed (open_frame kind st params results rest)
open_frame-IsWellFormed kind st params results rest w le =
    let n = length-labelled params rest in
    let height : length (values_of (top_first params) ++ rest) - length params ≡ length rest =
      omega (arith, n) in
    (
      omega (arith, n),
      Heights-entry st.control_stack (length st.stack) _ w (omega (arith, height, le)),
    )

mark_unreachable-IsWellFormed :
    (st st' : State) → IsWellFormed st → mark_unreachable st ≡ ok st' → IsWellFormed st'
unfolding mark_unreachable
mark_unreachable-IsWellFormed st st' w h = go st.control_stack w h
  where
    go :
        (frames : List ControlFrame)
        → IsWellFormed (record st { control_stack = frames })
        → mark_unreachable (record st { control_stack = frames }) ≡ ok st'
        → IsWellFormed st'
    go [] w h = let same : record st { control_stack = [] } ≡ st' = cc in subst IsWellFormed same tt
    go (frame ∷ outer) (le, w) h =
        let end = record st {
          stack = truncate frame.entry_height st.stack;
          control_stack = record frame { unreachable = true } ∷ outer;
        } in
        let same : end ≡ st' = cc in
        let n = length-truncate frame.entry_height st.stack le in
        subst IsWellFormed same (omega (arith, n), w)

check_open-IsWellFormed :
    (ctx : Context) (kind : ControlKind) (type : BlockType) (st st' : State)
    → IsWellFormed st
    → check_open ctx kind type st ≡ ok st'
    → IsWellFormed st'
unfolding check_open
check_open-IsWellFormed ctx kind type st st' w h =
    let ((params, results), found, h₁) = >>=-ok (control_signature ctx.module_ type) _ h in
    let (stack, ensured, h₂) = >>=-ok (ensure_operands st (length params) _) _ h₁ in
    let (rest, taken, e) = >>=-ok (expect_all ctx (top_first params) stack) _ h₂ in
    let same : open_frame kind st params results rest ≡ st' = cc in
    let le = block_operands ctx st _ params stack rest w ensured taken in
    subst IsWellFormed same (open_frame-IsWellFormed kind st params results rest w le)

check_if-IsWellFormed :
    (ctx : Context) (type : BlockType) (st st' : State)
    → IsWellFormed st
    → check_if ctx type st ≡ ok st'
    → IsWellFormed st'
unfolding check_if
check_if-IsWellFormed ctx type st st' w h =
    let ((params, results), found, h₁) = >>=-ok (control_signature ctx.module_ type) _ h in
    let (stack, ensured, h₂) = >>=-ok (ensure_operands st (suc (length params)) _) _ h₁ in
    let ((cond, below), first, h₃) = >>=-ok (expect (has_type value_type_i32) stack) _ h₂ in
    let (rest, taken, e) = >>=-ok (expect_all ctx (top_first params) below) _ h₃ in
    let same : open_frame ControlKind.if_ st params results rest ≡ st' = cc in
    let le : entry st.control_stack ≤ length rest = omega (
      arith,
      ensure_operands-height st (suc (length params)) _ stack w ensured,
      expect-length _ stack below cond first,
      length-expect_all ctx (top_first params) below rest taken,
      length-top_first params,
    ) in
    subst IsWellFormed same (open_frame-IsWellFormed ControlKind.if_ st params results rest w le)

-- The innermost frame, when there is one.
current_frame-eq :
    (st : State) (frame : ControlFrame) (outer : List ControlFrame)
    → current_frame st ≡ ok (frame, outer)
    → st.control_stack ≡ frame ∷ outer
current_frame-eq st frame outer h = ground (arith, h)

close_frame-IsWellFormed :
    (ctx : Context) (last : Bool) (st st' : State) (frames : List ControlFrame)
    → frames ≡ st.control_stack
    → Heights frames (length st.stack)
    → close_frame ctx last st frames ≡ ok st'
    → IsWellFormed st'
unfolding close_frame
close_frame-IsWellFormed ctx last st st' [] none w h =
    let (_, _, e) = >>=-ok (guard last _) _ h in
    let same : st ≡ st' = cc in
    let unframed : IsWellFormed st = subst (λ fs. Heights fs (length st.stack)) none w in
    subst IsWellFormed same unframed
close_frame-IsWellFormed ctx last st st' (frame ∷ outer) frames (le, below) h =
    let (_, _, h₂) = >>=-ok (check_frame_result ctx frame st.stack) _ h in
    let (_, _, e) = >>=-ok (check_missing_else frame) _ h₂ in
    let n = length-labelled frame.result_types (truncate frame.entry_height st.stack) in
    let t = length-truncate frame.entry_height st.stack le in
    let end : State = record {
      stack = values_of (top_first frame.result_types) ++ truncate frame.entry_height st.stack;
      control_stack = outer;
      local_initialized = frame.local_init;
    } in
    let same : end ≡ st' = cc in
    let bound = entry-Heights outer frame.entry_height below in
    subst IsWellFormed same
      (Heights-entry outer frame.entry_height _ below (omega (arith, n, t, bound)))

check_end-IsWellFormed :
    (ctx : Context) (last : Bool) (st st' : State)
    → IsWellFormed st
    → check_end ctx last st ≡ ok st'
    → IsWellFormed st'
unfolding check_end
check_end-IsWellFormed ctx last st st' w h =
    close_frame-IsWellFormed ctx last st st' st.control_stack refl w h

check_else-IsWellFormed :
    (ctx : Context) (cells : List Checked) (st st' : State)
    → IsWellFormed st
    → check_else ctx cells st ≡ ok st'
    → IsWellFormed st'
unfolding check_else
check_else-IsWellFormed ctx cells st st' w h =
    let ((frame, outer), found, h₁) = >>=-ok (current_frame st) _ h in
    let (_, _, h₂) = >>=-ok (guard (is_if frame.kind && not frame.saw_else) _) _ h₁ in
    let (_, _, e) = >>=-ok (check_frame_result ctx frame st.stack) _ h₂ in
    let frames = current_frame-eq st frame outer found in
    let (le, below) = subst (λ fs. Heights fs (length st.stack)) frames w in
    let n = frame.entry_height + length frame.param_types in
    let end : State = record {
      stack = reslice cells n st.stack;
      control_stack =
          record frame { saw_else = true; unreachable = frame.entered_unreachable } ∷ outer;
      local_initialized = frame.local_init;
    } in
    let same : end ≡ st' = cc in
    let dropped = length-drop (length (cells ++ st.stack) - n) (cells ++ st.stack) in
    let whole = length-append cells st.stack in
    subst IsWellFormed same (omega (arith, le, dropped, whole), below)

check_branch_target-height :
    (ctx : Context) (st : State) (depth : ℕ) (types : List ValueType) (stack rest : List Checked)
    → IsWellFormed st
    → check_branch_target ctx st depth ≡ ok (types, stack, rest)
    → entry st.control_stack ≤ length rest
unfolding check_branch_target
check_branch_target-height ctx st depth types stack rest w h =
    let (target, found, h₁) = >>=-ok (label_at st depth) _ h in
    let (stack', ensured, h₂) =
      >>=-ok (ensure_operands st (length (branch_target_types target)) _) _ h₁ in
    let (rest', taken, e) =
      >>=-ok (expect_all ctx (top_first (branch_target_types target)) stack') _ h₂ in
    let same : rest' ≡ rest = cc in
    let le = block_operands ctx st _ (branch_target_types target) stack' rest' w ensured taken in
    subst (λ (r : List Checked). entry st.control_stack ≤ length r) same le

-- The state with another stack on the same frames.
restacked-IsWellFormed :
    (st : State) (stack : List Checked)
    → IsWellFormed st
    → entry st.control_stack ≤ length stack
    → IsWellFormed (record st { stack = stack })
restacked-IsWellFormed st stack w le =
    Heights-entry st.control_stack (length st.stack) (length stack) w le

-- An accepted instruction of structured control keeps the frames in order: their entry heights do not
-- fall from the outermost to the innermost, and the value stack stands at the innermost one's or
-- above, whatever the slice's array holds above its length.
pub check_control-IsWellFormed :
    (ins : Control) (ctx : Context) (hint : Hints) (results : List ValueType) (cells : List Checked)
    (st st' : State)
    → IsWellFormed st
    → check_control ctx hint results cells ins st ≡ ok st'
    → IsWellFormed st'
unfolding check_control
check_control-IsWellFormed (Control.block type) ctx hint results cells st st' w h =
    check_open-IsWellFormed ctx ControlKind.block type st st' w h
check_control-IsWellFormed (Control.loop type) ctx hint results cells st st' w h =
    check_open-IsWellFormed ctx ControlKind.loop type st st' w h
check_control-IsWellFormed (Control.if_ type) ctx hint results cells st st' w h =
    check_if-IsWellFormed ctx type st st' w h
check_control-IsWellFormed Control.else_ ctx hint results cells st st' w h =
    check_else-IsWellFormed ctx cells st st' w h
check_control-IsWellFormed (Control.end last) ctx hint results cells st st' w h =
    check_end-IsWellFormed ctx last st st' w h
check_control-IsWellFormed Control.unreachable ctx hint results cells st st' w h =
    mark_unreachable-IsWellFormed st st' w h
check_control-IsWellFormed Control.return ctx hint results cells st st' w h =
    let (stack, ensured, h₁) = >>=-ok (ensure_operands st (length results) _) _ h in
    let (rest, taken, e) = >>=-ok (expect_all ctx (top_first results) stack) _ h₁ in
    let high = ensure_operands-height st (length results) _ stack w ensured in
    mark_unreachable-IsWellFormed (record st { stack = stack }) st'
      (restacked-IsWellFormed st stack w (omega (arith, high))) e
check_control-IsWellFormed (Control.br depth) ctx hint results cells st st' w h =
    let (labelled, found, e) = >>=-ok (check_branch_target ctx st depth) _ h in
    mark_unreachable-IsWellFormed st st' w e
check_control-IsWellFormed (Control.br_if depth) ctx hint results cells st st' w h =
    let ((cond, below), taken, h₁) = >>=-ok (unary_operand st hint (has_type value_type_i32)) _ h in
    let high = unary_operand-height st hint below w _ cond taken in
    let under = record st { stack = below } in
    let w' = restacked-IsWellFormed st below w high in
    let ((types, stack, rest), found, e) = >>=-ok (check_branch_target ctx under depth) _ h₁ in
    let le = check_branch_target-height ctx under depth types stack rest w' found in
    let end = values_of (top_first types) ++ rest in
    let same : record st { stack = end } ≡ st' = cc in
    let n = length-labelled types rest in
    subst IsWellFormed same (restacked-IsWellFormed st end w (omega (arith, le, n)))
check_control-IsWellFormed (Control.br_table depths default) ctx hint results cells st st' w h =
    let ((cond, below), taken, h₁) = >>=-ok (unary_operand st hint (has_type value_type_i32)) _ h in
    let high = unary_operand-height st hint below w _ cond taken in
    let under = record st { stack = below } in
    let ((types, stack, rest), found, h₂) =
      >>=-ok (check_branch_target ctx under (first_depth depths default)) _ h₁ in
    let (_, _, e) =
      >>=-ok
        (check_targets ctx (record st { stack = stack }) (length types)
          (later_depths depths default))
        _ h₂ in
    mark_unreachable-IsWellFormed under st' (restacked-IsWellFormed st below w high) e
