-- ===== src/Validate/Heights.antt =====
-- internal/validate/validate.go: no instruction takes operands from below the entry of the frame that
-- it stands in.
use watgo.Common.{◌++◌}
use watgo.Common.{ℕ, suc, ◌+◌, ◌-◌, ◌≤◌, ◌≡◌, ap, ◌∙◌, arith, Bool}
use watgo.Common.{List, [], ◌∷◌, ok, >>=-ok, guard, length, take}
use watgo.Common.{length-append, length-take, length-drop, length-replicate, replicate}
use watgo.Validate.Values.{Checked, unknown_value}
use watgo.Validate.Operands.{Diag, State, Hints, ControlFrame, expect, ensure_in, ensure_operands}
use watgo.Validate.Operands.{ensure_frame_operands, pad_operands, unary_operand, binary_operands}
use watgo.Validate.Operands.{ternary_operands}

abbrev pub Heights : List ControlFrame → ℕ → Type 0
Heights [] n = Unit
Heights (frame ∷ outer) n = (frame.entry_height ≤ n) × Heights outer frame.entry_height

-- The frames' entry heights do not fall from the outermost frame to the innermost, and the stack
-- stands at the innermost one's or above.
abbrev pub IsWellFormed : State → Type 0
IsWellFormed st = Heights st.control_stack (length st.stack)

abbrev pub entry : List ControlFrame → ℕ
entry [] = 0
entry (frame ∷ outer) = frame.entry_height

pub Heights-entry :
    (frames : List ControlFrame) (n k : ℕ) → Heights frames n → entry frames ≤ k → Heights frames k
Heights-entry [] n k h le = tt
Heights-entry (frame ∷ outer) n k (l, h) le = (le, h)

pub entry-Heights : (frames : List ControlFrame) (n : ℕ) → Heights frames n → entry frames ≤ n
entry-Heights [] n h = omega arith
entry-Heights (frame ∷ outer) n (l, h) = l

length-pad_operands :
    (stack : List Checked) (available n : ℕ)
    → available ≤ length stack
    → length (pad_operands stack available n) ≡ length stack + (n - available)
length-pad_operands stack available n h =
    length-append (take available stack ++ replicate (n - available) unknown_value) _
    ∙ omega (
      arith,
      length-append (take available stack) (replicate (n - available) unknown_value),
      length-take available stack,
      length-drop available stack,
      length-replicate (n - available) unknown_value,
    )

ensure_frame_operands-height :
    (stack out : List Checked) (frame : ControlFrame) (n : ℕ) (hint : Hints)
    → frame.entry_height ≤ length stack
    → ensure_frame_operands stack frame n hint ≡ ok out
    → frame.entry_height + n ≤ length out
unfolding ensure_frame_operands
ensure_frame_operands-height stack out frame n hint l h =
    let available = length stack - frame.entry_height in
    ground (arith, length-pad_operands stack available n (omega arith))

ensure_in-height :
    (frames : List ControlFrame) (stack out : List Checked) (n : ℕ) (hint : Hints)
    → Heights frames (length stack)
    → ensure_in frames stack n hint ≡ ok out
    → entry frames + n ≤ length out
unfolding ensure_in
ensure_in-height [] stack out n hint l h = ground arith
ensure_in-height (frame ∷ outer) stack out n hint (l, k) h =
    ensure_frame_operands-height stack out frame n hint l h

pub ensure_operands-height :
    (st : State) (n : ℕ) (hint : Hints) (out : List Checked)
    → IsWellFormed st
    → ensure_operands st n hint ≡ ok out
    → entry st.control_stack + n ≤ length out
unfolding ensure_operands
ensure_operands-height st n hint out l h = ensure_in-height st.control_stack st.stack out n hint l h

pub expect-length :
    (test : Checked → Bool) (stack rest : List Checked) (c : Checked)
    → expect test stack ≡ ok (c, rest)
    → length stack ≡ suc (length rest)
unfolding expect
expect-length test [] rest c h = absurd cc
expect-length test (got ∷ below) rest c h =
    let (_, passed, done) = >>=-ok (guard (test got) Diag.operand_type) _ h in
    let same : below ≡ rest = cc in ap (λ (l : List Checked). suc (length l)) same

module _ (st : State) (hint : Hints) (rest : List Checked) (l : IsWellFormed st) where
  pub unary_operand-height :
      (test : Checked → Bool) (c : Checked)
      → unary_operand st hint test ≡ ok (c, rest)
      → entry st.control_stack ≤ length rest
  unfolding unary_operand
  unary_operand-height test c h =
      let (stack, ensured, e) = >>=-ok (ensure_operands st 1 hint) _ h in
      let enough = ensure_operands-height st 1 hint stack l ensured in
      let one = expect-length test stack rest c e in omega (arith, enough, one)

  pub binary_operands-height :
      (top second : Checked → Bool)
      → binary_operands st hint top second ≡ ok rest
      → entry st.control_stack ≤ length rest
  unfolding binary_operands
  binary_operands-height top second h =
      let (stack, ensured, h₁) = >>=-ok (ensure_operands st 2 hint) _ h in
      let ((c2, below), e₁, h₂) = >>=-ok (expect top stack) _ h₁ in
      let ((c1, last), e₂, h₃) = >>=-ok (expect second below) _ h₂ in
      let enough = ensure_operands-height st 2 hint stack l ensured in
      let one = expect-length top stack below c2 e₁ in
      let two = expect-length second below last c1 e₂ in
      let last_is : last ≡ rest = cc in
      let same : length last ≡ length rest = ap length last_is in
      omega (arith, enough, one, two, same)

  pub ternary_operands-height :
      (top second third : Checked → Bool)
      → ternary_operands st hint top second third ≡ ok rest
      → entry st.control_stack ≤ length rest
  unfolding ternary_operands
  ternary_operands-height top second third h =
      let (stack, ensured, h₁) = >>=-ok (ensure_operands st 3 hint) _ h in
      let ((c3, below), e₁, h₂) = >>=-ok (expect top stack) _ h₁ in
      let ((c2, under), e₂, h₃) = >>=-ok (expect second below) _ h₂ in
      let ((c1, last), e₃, h₄) = >>=-ok (expect third under) _ h₃ in
      let enough = ensure_operands-height st 3 hint stack l ensured in
      let one = expect-length top stack below c3 e₁ in
      let two = expect-length second below under c2 e₂ in
      let three = expect-length third under last c1 e₃ in
      let last_is : last ≡ rest = cc in
      let same : length last ≡ length rest = ap length last_is in
      omega (arith, enough, one, two, three, same)
