-- ===== src/Vm/Operands/Calls.antt =====
-- What pops give back after pushes.
use watgo.Common.{◌+◌, ◌-◌, ◌≡◌, refl, ap, ◌∙◌, arith, List, [], ◌∷◌, ◌++◌, some}
use watgo.Common.{
  not, ltb, guard, true, ok, length, length-append, get_elem?, get_elem?-append_right,
}
use watgo.Common.{take-length_append, drop-length_append}
use watgo.Wasmir.{ValueType}
use watgo.Vm.Value.{Error, Value, AllFit, AllFit-length, check_args_iff}
use watgo.Vm.Operands.{Stack, push, pop, pop_at, pop_args, pop_results}

-- A pop after a push gives the pushed value and the stack before it.
pub pop-push : (stack : Stack) (v : Value) → pop (push stack v) ≡ ok (v, stack)
unfolding pop push
pop-push stack v =
    let n = length-append stack (v ∷ []) in
    let top : length (stack ++ (v ∷ [])) - 1 ≡ length stack = omega arith in
    let here : length stack + 0 ≡ length stack = omega arith in
    let found : get_elem? (stack ++ (v ∷ [])) (length stack) ≡ some v =
      rw here at (get_elem?-append_right stack (v ∷ []) 0) in
    ap (pop_at (stack ++ (v ∷ []))) top ∙ ground (arith, found, take-length_append stack (v ∷ []))

-- From a stack that ends in arguments of the parameters' types, exactly those are popped, in
-- order, and results likewise.
pub pop_args-append :
    (stack : Stack) (params : List ValueType) (args : List Value)
    → AllFit params args
    → (pop_args (stack ++ args) params ≡ ok (args, stack))
      × (pop_results (stack ++ args) params ≡ ok (args, stack))
unfolding pop_args pop_results
pop_args-append stack params args f =
    let n = length-append stack args in
    let m = AllFit-length params args f in
    let base : length (stack ++ args) - length params ≡ length stack = omega arith in
    let (args_pass, results_pass) = check_args_iff params args in
    let enough : not (ltb (length (stack ++ args)) (length params)) ≡ true = ground (arith, n, m) in
    let pass = ap (λ b. guard b Error.stack_underflow) enough in
    let values = drop-length_append stack args in
    let below = take-length_append stack args in
    (
      rw (pass, base, values, below, args_pass.1 f) refl,
      rw (pass, base, values, below, results_pass.1 f) refl,
    )
