-- ===== src/Soundness/Checks.antt =====
-- internal/validate/validate.go: what the accepted operands of an instruction say of the value stack,
-- in code that can be reached.
use watgo.Common.{ℕ, ◌≡◌, sym, ◌∙◌, arith, Bool, true, false, List, [], ◌∷◌, ok}
use watgo.Common.{>>=-ok, guard-eq-ok, guard}
use watgo.Validate.Values.{Checked}
use watgo.Validate.Operands.{State, Hints, Diag, expect, ensure_operands, ensure_frame_operands}
use watgo.Validate.Operands.{
  ControlFrame, ensure_in, unary_operand, binary_operands, ternary_operands,
}

abbrev pub FrameReachable : List ControlFrame → Type 0
FrameReachable [] = Unit
FrameReachable (frame ∷ outer) = frame.unreachable ≡ false

-- The innermost frame is not in unreachable code, so no operand is made up.
abbrev pub Reachable : State → Type 0
Reachable st = FrameReachable st.control_stack

ensure_frame_operands-eq :
    (stack out : List Checked) (frame : ControlFrame) (n : ℕ) (hint : Hints)
    → frame.unreachable ≡ false
    → ensure_frame_operands stack frame n hint ≡ ok out
    → out ≡ stack
unfolding ensure_frame_operands
ensure_frame_operands-eq stack out frame n hint r h = ground arith

ensure_in-eq :
    (frames : List ControlFrame) (stack : List Checked) (n : ℕ) (hint : Hints) (out : List Checked)
    → FrameReachable frames
    → ensure_in frames stack n hint ≡ ok out
    → out ≡ stack
unfolding ensure_in
ensure_in-eq [] stack n hint out r h = ground arith
ensure_in-eq (frame ∷ outer) stack n hint out r h =
    ensure_frame_operands-eq stack out frame n hint r h

pub ensure_operands-eq :
    (st : State) (n : ℕ) (hint : Hints) (out : List Checked)
    → Reachable st
    → ensure_operands st n hint ≡ ok out
    → out ≡ st.stack
unfolding ensure_operands
ensure_operands-eq st n hint out r h = ensure_in-eq st.control_stack st.stack n hint out r h

pub expect-eq :
    (test : Checked → Bool) (stack rest : List Checked) (c : Checked)
    → expect test stack ≡ ok (c, rest)
    → (stack ≡ c ∷ rest) × (test c ≡ true)
unfolding expect
expect-eq test [] rest c h = absurd cc
expect-eq test (got ∷ below) rest c h =
    let (_, passed, done) = >>=-ok (guard (test got) Diag.operand_type) _ h in
    let same : got ≡ c = cc in
    let below_same : below ≡ rest = cc in let p = guard-eq-ok (test got) _ passed in (cc, cc)

pub unary_operand-eq :
    (st : State) (hint : Hints) (test : Checked → Bool) (c : Checked) (rest : List Checked)
    → Reachable st
    → unary_operand st hint test ≡ ok (c, rest)
    → (st.stack ≡ c ∷ rest) × (test c ≡ true)
unfolding unary_operand
unary_operand-eq st hint test c rest r h =
    let (stack, ensured, e) = >>=-ok (ensure_operands st 1 hint) _ h in
    let (split, passed) = expect-eq test stack rest c e in
    (sym (ensure_operands-eq st 1 hint stack r ensured) ∙ split, passed)

pub binary_operands-eq :
    (st : State) (hint : Hints) (top second : Checked → Bool) (rest : List Checked)
    → Reachable st
    → binary_operands st hint top second ≡ ok rest
    → (c2 c1 : Checked) × (st.stack ≡ c2 ∷ c1 ∷ rest) × (top c2 ≡ true) × (second c1 ≡ true)
unfolding binary_operands
binary_operands-eq st hint top second rest r h =
    let (stack, ensured, h₁) = >>=-ok (ensure_operands st 2 hint) _ h in
    let ((c2, below), e₁, h₂) = >>=-ok (expect top stack) _ h₁ in
    let ((c1, rest'), e₂, h₃) = >>=-ok (expect second below) _ h₂ in
    let (s₁, p₁) = expect-eq top stack below c2 e₁ in
    let (s₂, p₂) = expect-eq second below rest' c1 e₂ in
    let same = ensure_operands-eq st 2 hint stack r ensured in
    let last : rest' ≡ rest = cc in (c2, c1, cc, p₁, p₂)

pub ternary_operands-eq :
    (st : State) (hint : Hints) (top second third : Checked → Bool) (rest : List Checked)
    → Reachable st
    → ternary_operands st hint top second third ≡ ok rest
    → (c3 c2 c1 : Checked) × (st.stack ≡ c3 ∷ c2 ∷ c1 ∷ rest)
      × (top c3 ≡ true)
      × (second c2 ≡ true)
      × (third c1 ≡ true)
unfolding ternary_operands
ternary_operands-eq st hint top second third rest r h =
    let (stack, ensured, h₁) = >>=-ok (ensure_operands st 3 hint) _ h in
    let ((c3, below), e₁, h₂) = >>=-ok (expect top stack) _ h₁ in
    let ((c2, under), e₂, h₃) = >>=-ok (expect second below) _ h₂ in
    let ((c1, rest'), e₃, h₄) = >>=-ok (expect third under) _ h₃ in
    let (s₁, p₁) = expect-eq top stack below c3 e₁ in
    let (s₂, p₂) = expect-eq second below under c2 e₂ in
    let (s₃, p₃) = expect-eq third under rest' c1 e₃ in
    let same = ensure_operands-eq st 3 hint stack r ensured in
    let last : rest' ≡ rest = cc in (c3, c2, c1, cc, p₁, p₂, p₃)
