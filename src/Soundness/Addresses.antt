-- ===== src/Soundness/Addresses.antt =====
-- internal/vm/execute.go: the operands and results whose type follows an address type.
use watgo.Common.{ℕ, ◌≡◌, ◌⊎◌, inl, inr, refl, sym, ap, ◌∙◌, arith, true}
use watgo.Common.{List, ◌∷◌}
use watgo.Wasmir.{ValueType, value_type_i32, value_type_i64}
use watgo.Wasmir.Equality.{same_value_type}
use watgo.Validate.Values.{Checked, known, address_or_i32}
use watgo.Validate.Operands.{has_type}
use watgo.Vm.Operands.{Stack, pop_i32, pop_i64, pop_index, push_index}
use watgo.Soundness.Outcome.{Sound, Sound-ok}
use watgo.Soundness.Stacks.{Typed, Below, pop_i32-Sound, pop_i64-Sound, push-Typed}

abbrev pub IsAddressType : ValueType → Type 0
IsAddressType t = (t ≡ value_type_i32) ⊎ (t ≡ value_type_i64)

pub address_or_i32-IsAddressType : (t : ValueType) → IsAddressType (address_or_i32 t)
unfolding address_or_i32
address_or_i32-IsAddressType t = ground arith

pub pop_index-Sound :
    (stack : Stack) (c : Checked) (cs : List Checked) (t : ValueType)
    → IsAddressType t
    → has_type t c ≡ true
    → Typed stack (c ∷ cs)
    → Sound (Below cs) (pop_index stack t)
unfolding pop_index same_value_type pop_i32 pop_i64
pop_index-Sound stack c cs t (inl e) h typed =
    rw (e) (pop_i32-Sound stack c cs (ap (λ u. has_type u c) (sym e) ∙ h) typed)
pop_index-Sound stack c cs t (inr e) h typed =
    rw (e) (pop_i64-Sound stack c cs (ap (λ u. has_type u c) (sym e) ∙ h) typed)

pub push_index-Sound :
    (stack : Stack) (cs : List Checked) (t : ValueType) (value : ℕ)
    → IsAddressType t
    → Typed stack cs
    → Sound (λ out. Typed out (known t ∷ cs)) (push_index stack t value)
unfolding push_index same_value_type
push_index-Sound stack cs t value (inl e) typed =
    rw (e) (Sound-ok _ _ refl (push-Typed stack _ cs value_type_i32 (inl refl) typed))
push_index-Sound stack cs t value (inr e) typed =
    rw (e) (Sound-ok _ _ refl (push-Typed stack _ cs value_type_i64 (inl refl) typed))
