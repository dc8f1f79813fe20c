-- ===== src/Soundness/Numeric.antt =====
-- internal/vm/execute.go: the integer instructions on operands of the validator's types.
use watgo.Common.{ℕ, ◌≡◌, inl, refl, arith, Bool, true, false, ◌==◌}
use watgo.Common.{List, ◌∷◌, Result, ok, err, ◌>>=◌, ◌&&◌, if◌then◌else◌, ◌^◌, ◌-◌}
use watgo.Wasmir.{value_type_i32, value_type_i64, is_ref}
use watgo.Wasmir.Instr.{Instr, Width, BinaryOp, CompareOp, UnaryOp}
use watgo.Validate.Values.{Checked, known}
use watgo.Validate.Operands.{has_type, has_ref_type}
use watgo.Validate.Instructions.{width_type}
use watgo.Validate.Signatures.{unary_row}
use watgo.Vm.Value.{Error}
use watgo.Vm.Operands.{Stack, pop_i32, pop_i64, pop}
use watgo.Vm.Integers.{eval_binary, eval_unary, eval_i32_binary, eval_i64_binary}
use watgo.Vm.Integers.{eval_i32_unary, eval_i64_unary, eval_i64_compare, I32Op, i32_result}
use watgo.Vm.Integers.{quotient}
use watgo.Vm.Evaluate.{pop_width, push_width, step_numeric, bits, ref_is_null}
use watgo.Soundness.Outcome.{Sound, Sound-bind, Sound-ok, Sound-trap, if-Sound, Anything}
use watgo.Soundness.Stacks.{Typed, Below, push-Typed, pop-Sound, pop_i32-Sound, pop_i64-Sound}

pub pop_width-Sound :
    (w : Width) (stack : Stack) (c : Checked) (cs : List Checked)
    → has_type (width_type w) c ≡ true
    → Typed stack (c ∷ cs)
    → Sound (Below cs) (pop_width w stack)
pop_width-Sound Width.i32 stack c cs h typed = pop_i32-Sound stack c cs h typed
pop_width-Sound Width.i64 stack c cs h typed = pop_i64-Sound stack c cs h typed

pub push_width-Typed :
    (w : Width) (stack : Stack) (n : ℕ) (cs : List Checked)
    → Typed stack cs
    → Typed (push_width w stack n) (known (width_type w) ∷ cs)
push_width-Typed Width.i32 stack n cs typed = push-Typed stack _ cs value_type_i32 (inl refl) typed
push_width-Typed Width.i64 stack n cs typed = push-Typed stack _ cs value_type_i64 (inl refl) typed

-- A division traps, or gives a number, whatever the operands.
eval_binary-Sound : (w : ℕ) (op : BinaryOp) (x y : ℕ) → Sound Anything (eval_binary w op x y)
unfolding eval_binary
eval_binary-Sound w BinaryOp.div_s x y = by_zero (y == 0) (x == 2 ^ (w - 1) && (y == 2 ^ w - 1))
  where
    by_zero :
        (zero overflow : Bool)
        → Sound Anything (
            if zero
            then err Error.divide_by_zero
            else if overflow
            then err Error.integer_overflow
            else ok (quotient w x y))
    by_zero true overflow = Sound-trap _ _ refl refl
    by_zero false true = Sound-trap _ _ refl refl
    by_zero false false = Sound-ok _ _ refl tt
eval_binary-Sound w BinaryOp.div_u x y = if-Sound (y == 0) _ _ refl tt
eval_binary-Sound w BinaryOp.rem_s x y = if-Sound (y == 0) _ _ refl tt
eval_binary-Sound w BinaryOp.rem_u x y = if-Sound (y == 0) _ _ refl tt
eval_binary-Sound w BinaryOp.add x y = Sound-ok _ _ refl tt
eval_binary-Sound w BinaryOp.sub x y = Sound-ok _ _ refl tt
eval_binary-Sound w BinaryOp.mul x y = Sound-ok _ _ refl tt
eval_binary-Sound w BinaryOp.and x y = Sound-ok _ _ refl tt
eval_binary-Sound w BinaryOp.or x y = Sound-ok _ _ refl tt
eval_binary-Sound w BinaryOp.xor x y = Sound-ok _ _ refl tt
eval_binary-Sound w BinaryOp.shl x y = Sound-ok _ _ refl tt
eval_binary-Sound w BinaryOp.shr_s x y = Sound-ok _ _ refl tt
eval_binary-Sound w BinaryOp.shr_u x y = Sound-ok _ _ refl tt
eval_binary-Sound w BinaryOp.rotl x y = Sound-ok _ _ refl tt
eval_binary-Sound w BinaryOp.rotr x y = Sound-ok _ _ refl tt

i32_result-Sound : (op : I32Op) (x y : ℕ) → Sound Anything (i32_result op x y)
unfolding i32_result
i32_result-Sound (I32Op.binary op) x y = eval_binary-Sound 32 op x y
i32_result-Sound (I32Op.compare op) x y = Sound-ok _ _ refl tt

eval_unary-Sound :
    (w : Width) (op : UnaryOp) (x : ℕ)
    → (unary_row w op).enabled ≡ true
    → Sound Anything (eval_unary (bits w) op x)
unfolding eval_unary
eval_unary-Sound w UnaryOp.clz x h = Sound-ok _ _ refl tt
eval_unary-Sound w UnaryOp.ctz x h = Sound-ok _ _ refl tt
eval_unary-Sound w UnaryOp.popcnt x h = Sound-ok _ _ refl tt
eval_unary-Sound w UnaryOp.extend8_s x h = Sound-ok _ _ refl tt
eval_unary-Sound w UnaryOp.extend16_s x h = Sound-ok _ _ refl tt
eval_unary-Sound Width.i32 UnaryOp.extend32_s x h = absurd cc
eval_unary-Sound Width.i64 UnaryOp.extend32_s x h = Sound-ok _ _ refl tt

module _ (stack : Stack) (cs : List Checked) where
  -- The two operands of a binary instruction, and then its result.
  two_i32 :
      {B : Type 0} {Q : B → Type 0} (c2 c1 : Checked) (next : ℕ → ℕ × Stack → Result Error B)
      → has_type value_type_i32 c2 ≡ true
      → has_type value_type_i32 c1 ≡ true
      → Typed stack (c2 ∷ c1 ∷ cs)
      → ((y x : ℕ) (rest : Stack) → Typed rest cs → Sound Q (next y (x, rest)))
      → Sound Q (pop_i32 stack >>= λ (y, below). pop_i32 below >>= next y)
  two_i32 c2 c1 next h k typed f =
      Sound-bind (pop_i32 stack) _ (pop_i32-Sound stack c2 (c1 ∷ cs) h typed) (λ (y, below) t.
        Sound-bind (pop_i32 below) _ (pop_i32-Sound below c1 cs k t) (λ (x, rest) u. f y x rest u))

  two_i64 :
      {B : Type 0} {Q : B → Type 0} (c2 c1 : Checked) (next : ℕ → ℕ × Stack → Result Error B)
      → has_type value_type_i64 c2 ≡ true
      → has_type value_type_i64 c1 ≡ true
      → Typed stack (c2 ∷ c1 ∷ cs)
      → ((y x : ℕ) (rest : Stack) → Typed rest cs → Sound Q (next y (x, rest)))
      → Sound Q (pop_i64 stack >>= λ (y, below). pop_i64 below >>= next y)
  two_i64 c2 c1 next h k typed f =
      Sound-bind (pop_i64 stack) _ (pop_i64-Sound stack c2 (c1 ∷ cs) h typed) (λ (y, below) t.
        Sound-bind (pop_i64 below) _ (pop_i64-Sound below c1 cs k t) (λ (x, rest) u. f y x rest u))

  eval_i32_binary-Sound :
      (c2 c1 : Checked) (op : I32Op)
      → has_type value_type_i32 c2 ≡ true
      → has_type value_type_i32 c1 ≡ true
      → Typed stack (c2 ∷ c1 ∷ cs)
      → Sound (Below cs) (eval_i32_binary stack op)
  unfolding eval_i32_binary
  eval_i32_binary-Sound c2 c1 op h k typed = two_i32 c2 c1 _ h k typed (λ y x rest t.
      Sound-bind (i32_result op x y) _ (i32_result-Sound op x y) (λ n u. Sound-ok _ _ refl t))

  eval_i64_binary-Sound :
      (c2 c1 : Checked) (op : BinaryOp)
      → has_type value_type_i64 c2 ≡ true
      → has_type value_type_i64 c1 ≡ true
      → Typed stack (c2 ∷ c1 ∷ cs)
      → Sound (Below cs) (eval_i64_binary stack op)
  unfolding eval_i64_binary
  eval_i64_binary-Sound c2 c1 op h k typed = two_i64 c2 c1 _ h k typed (λ y x rest t.
      Sound-bind (eval_binary 64 op x y) _ (eval_binary-Sound 64 op x y)
        (λ n u. Sound-ok _ _ refl t))

  eval_i64_compare-Sound :
      (c2 c1 : Checked) (op : CompareOp)
      → has_type value_type_i64 c2 ≡ true
      → has_type value_type_i64 c1 ≡ true
      → Typed stack (c2 ∷ c1 ∷ cs)
      → Sound (Below cs) (eval_i64_compare stack op)
  unfolding eval_i64_compare
  eval_i64_compare-Sound c2 c1 op h k typed =
      two_i64 c2 c1 _ h k typed (λ y x rest t. Sound-ok _ _ refl t)

  pub binary-Sound :
      (w : Width) (op : BinaryOp) (c2 c1 : Checked)
      → has_type (width_type w) c2 ≡ true
      → has_type (width_type w) c1 ≡ true
      → Typed stack (c2 ∷ c1 ∷ cs)
      → Sound
          (λ out. Typed out (known (width_type w) ∷ cs))
          (step_numeric (Instr.binary w op) stack)
  unfolding step_numeric
  binary-Sound Width.i32 op c2 c1 h k typed =
      Sound-bind (eval_i32_binary stack (I32Op.binary op)) _
        (eval_i32_binary-Sound c2 c1 _ h k typed)
        (λ (n, rest) t. Sound-ok _ _ refl (push_width-Typed Width.i32 rest n cs t))
  binary-Sound Width.i64 op c2 c1 h k typed =
      Sound-bind (eval_i64_binary stack op) _ (eval_i64_binary-Sound c2 c1 op h k typed)
        (λ (n, rest) t. Sound-ok _ _ refl (push_width-Typed Width.i64 rest n cs t))

  pub compare-Sound :
      (w : Width) (op : CompareOp) (c2 c1 : Checked)
      → has_type (width_type w) c2 ≡ true
      → has_type (width_type w) c1 ≡ true
      → Typed stack (c2 ∷ c1 ∷ cs)
      → Sound
          (λ out. Typed out (known value_type_i32 ∷ cs))
          (step_numeric (Instr.compare w op) stack)
  unfolding step_numeric
  compare-Sound Width.i32 op c2 c1 h k typed =
      Sound-bind (eval_i32_binary stack (I32Op.compare op)) _
        (eval_i32_binary-Sound c2 c1 _ h k typed)
        (λ (n, rest) t. Sound-ok _ _ refl (push_width-Typed Width.i32 rest n cs t))
  compare-Sound Width.i64 op c2 c1 h k typed =
      Sound-bind (eval_i64_compare stack op) _ (eval_i64_compare-Sound c2 c1 op h k typed)
        (λ (n, rest) t. Sound-ok _ _ refl (push_width-Typed Width.i32 rest n cs t))

  eval_i32_unary-Sound :
      (op : UnaryOp) (c : Checked)
      → (unary_row Width.i32 op).enabled ≡ true
      → has_type value_type_i32 c ≡ true
      → Typed stack (c ∷ cs)
      → Sound (Below cs) (eval_i32_unary stack op)
  unfolding eval_i32_unary
  eval_i32_unary-Sound op c e h typed =
      Sound-bind (pop_i32 stack) _ (pop_i32-Sound stack c cs h typed) (λ (v, rest) t.
        Sound-bind (eval_unary 32 op v) _ (eval_unary-Sound Width.i32 op v e)
          (λ n u. Sound-ok _ _ refl t))

  eval_i64_unary-Sound :
      (op : UnaryOp) (c : Checked)
      → (unary_row Width.i64 op).enabled ≡ true
      → has_type value_type_i64 c ≡ true
      → Typed stack (c ∷ cs)
      → Sound (Below cs) (eval_i64_unary stack op)
  unfolding eval_i64_unary
  eval_i64_unary-Sound op c e h typed =
      Sound-bind (pop_i64 stack) _ (pop_i64-Sound stack c cs h typed) (λ (v, rest) t.
        Sound-bind (eval_unary 64 op v) _ (eval_unary-Sound Width.i64 op v e)
          (λ n u. Sound-ok _ _ refl t))

  pub unary-Sound :
      (w : Width) (op : UnaryOp) (c : Checked)
      → (unary_row w op).enabled ≡ true
      → has_type (width_type w) c ≡ true
      → Typed stack (c ∷ cs)
      → Sound (λ out. Typed out (known (width_type w) ∷ cs)) (step_numeric (Instr.unary w op) stack)
  unfolding step_numeric
  unary-Sound Width.i32 op c e h typed =
      Sound-bind (eval_i32_unary stack op) _ (eval_i32_unary-Sound op c e h typed)
        (λ (n, rest) t. Sound-ok _ _ refl (push_width-Typed Width.i32 rest n cs t))
  unary-Sound Width.i64 op c e h typed =
      Sound-bind (eval_i64_unary stack op) _ (eval_i64_unary-Sound op c e h typed)
        (λ (n, rest) t. Sound-ok _ _ refl (push_width-Typed Width.i64 rest n cs t))

  -- An instruction that pops one number and pushes another.
  pub convert-Sound :
      (from to : Width) (c : Checked) (f : ℕ → ℕ)
      → has_type (width_type from) c ≡ true
      → Typed stack (c ∷ cs)
      → Sound
          (λ out. Typed out (known (width_type to) ∷ cs))
          (pop_width from stack >>= λ (n, rest). ok (push_width to rest (f n)))
  convert-Sound from to c f h typed =
      Sound-bind (pop_width from stack) _ (pop_width-Sound from stack c cs h typed)
        (λ (n, rest) t. Sound-ok _ _ refl (push_width-Typed to rest (f n) cs t))

  pub ref_is_null-Sound :
      (c : Checked)
      → has_ref_type c ≡ true
      → Typed stack (c ∷ cs)
      → Sound (λ out. Typed out (known value_type_i32 ∷ cs)) (ref_is_null stack)
  unfolding ref_is_null has_ref_type
  ref_is_null-Sound c h typed =
      Sound-bind (pop stack) _ (pop-Sound stack c cs typed) (λ (v, rest) (k, t).
        let is : is_ref v.type ≡ true = ground (arith, k, h) in
        rw (is) (Sound-ok _ _ refl (push_width-Typed Width.i32 rest _ cs t)))
