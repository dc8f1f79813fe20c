-- ===== src/Soundness/Stacks.antt =====
-- The operand stack of internal/vm/execute.go against the stack of types of
-- internal/validate/validate.go.
use watgo.Common.{◌≡◌, refl, ap, arith, true, false, List, [], ◌∷◌, ok}
use watgo.Common.{guard}
use watgo.Wasmir.{ValueType, value_type_i32, value_type_i64, is_ref}
use watgo.Wasmir.Equality.{same_value_type, same_value_type-eq, same_value_type_self}
use watgo.Validate.Values.{Checked, known}
use watgo.Validate.Operands.{has_type}
use watgo.Vm.Value.{Error, Value, Fits}
use watgo.Vm.Operands.{Stack, push, pop, pop_want, pop_i32, pop_i64}
use watgo.Vm.Operands.Calls.{pop-push}
use watgo.Soundness.Outcome.{Sound, Sound-bind, Sound-ok}

-- A value that stands where the validator has seen a type, and not bottom.
abbrev pub Known : Value → Checked → Type 0
Known v c = (c.unknown ≡ false) × Fits v.type c.type

-- The pops of the operand stack give values of the validator's types, one after the other, and the
-- stack is empty after the last one.
abbrev pub Typed : Stack → List Checked → Type 0
Typed stack [] = stack ≡ []
Typed stack (c ∷ cs) =
    (v : Value) × (rest : Stack) × (pop stack ≡ ok (v, rest)) × Known v c × Typed rest cs

pub push-Typed :
    (stack : Stack) (v : Value) (cs : List Checked) (t : ValueType)
    → Fits v.type t
    → Typed stack cs
    → Typed (push stack v) (known t ∷ cs)
push-Typed stack v cs t f typed = (v, stack, pop-push stack v, (refl, f), typed)

abbrev pub Popped : Checked → List Checked → Value × Stack → Type 0
Popped c cs (v, rest) = Known v c × Typed rest cs

pub pop-Sound :
    (stack : Stack) (c : Checked) (cs : List Checked)
    → Typed stack (c ∷ cs)
    → Sound (Popped c cs) (pop stack)
pop-Sound stack c cs (v, rest, h, k, typed) = Sound-ok (pop stack) (v, rest) h (k, typed)

-- A value whose number type the validator has tested.
number-Known :
    (v : Value) (c : Checked) (want : ValueType)
    → is_ref want ≡ false
    → has_type want c ≡ true
    → Known v c
    → same_value_type v.type want ≡ true
unfolding has_type
number-Known v c want n h k =
    ground (arith, same_value_type-eq c.type want, same_value_type_self want)

abbrev pub Below : {A : Type 0} → List Checked → A × Stack → Type 0
Below cs (n, rest) = Typed rest cs

pop_want-Sound :
    (stack : Stack) (c : Checked) (cs : List Checked) (want : ValueType)
    → is_ref want ≡ false
    → has_type want c ≡ true
    → Typed stack (c ∷ cs)
    → Sound (Below cs) (pop_want stack want)
unfolding pop_want
pop_want-Sound stack c cs want n h (v, rest, e, k, typed) =
    let same = ap (λ b. guard b Error.operand_type) (number-Known v c want n h k) in
    Sound-ok _ (v, rest) (rw (e, same) refl) typed

pub pop_i32-Sound :
    (stack : Stack) (c : Checked) (cs : List Checked)
    → has_type value_type_i32 c ≡ true
    → Typed stack (c ∷ cs)
    → Sound (Below cs) (pop_i32 stack)
unfolding pop_i32
pop_i32-Sound stack c cs h typed =
    Sound-bind (pop_want stack value_type_i32) _ (pop_want-Sound stack c cs _ refl h typed)
      (λ (v, rest) t. Sound-ok _ (v.i32, rest) refl t)

pub pop_i64-Sound :
    (stack : Stack) (c : Checked) (cs : List Checked)
    → has_type value_type_i64 c ≡ true
    → Typed stack (c ∷ cs)
    → Sound (Below cs) (pop_i64 stack)
unfolding pop_i64
pop_i64-Sound stack c cs h typed =
    Sound-bind (pop_want stack value_type_i64) _ (pop_want-Sound stack c cs _ refl h typed)
      (λ (v, rest) t. Sound-ok _ (v.i64, rest) refl t)
