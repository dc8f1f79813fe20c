-- ===== src/Vm/Control/Labels.antt =====
-- What leaving a block or branching does to the operand stack and the labels.
use watgo.Common.{
  ℕ, ◌+◌, ◌-◌, ◌≤◌, ◌≡◌, refl, sym, false, ap, ◌∙◌, arith, List, [], ◌∷◌, ◌++◌, some,
}
use watgo.Common.{not, ltb, leb, guard, true, ok, length, length-append, take, get_elem?}
use watgo.Common.{get_elem?-append_right, take-length_append, drop-length_append, drop-past}
use mathlib.Core.List.{append_assoc}
use watgo.Vm.Value.{Error, Value}
use watgo.Vm.State.{lookup}
use watgo.Vm.Control.{CodeLabel, RuntimeLabel, Frame, with_stack, with_labels, runtime_label}
use watgo.Vm.Control.{normalize_label_values, found_label, enter_label, exit_label, kept_labels}
use watgo.Vm.Control.{branch_to_label_index, branch_to}

-- The values that a label keeps move down to its height; what the block left below them is gone.
pub normalize_label_values-append :
    (below middle top : List Value)
    → normalize_label_values (below ++ (middle ++ top)) (length below) (length top)
      ≡ ok (below ++ top)
unfolding normalize_label_values
normalize_label_values-append below middle top =
    let stack = below ++ (middle ++ top) in
    let n = length-append below (middle ++ top) in
    let m = length-append middle top in
    let base : length stack - length top ≡ length below + length middle = omega arith in
    let enough : not (ltb (length stack) (length top)) ≡ true = ground (arith, n, m) in
    let high : not (ltb (length below + length middle) (length below)) ≡ true = ground arith in
    let pass = ap (λ b. guard b Error.stack_underflow) enough in
    let pass' = ap (λ b. guard b Error.label_underflow) high in
    let values = drop-past below (middle ++ top) (length middle) ∙ drop-length_append middle top in
    rw (pass, base, pass', values, take-length_append below (middle ++ top)) refl

enter_label-eq :
    (e : Frame) (pc : ℕ) (l : CodeLabel) (below params : List Value)
    → e.code_labels pc ≡ some l
    → e.stack ≡ below ++ params
    → length params ≡ l.param_arity
    → enter_label e pc ≡ ok (with_labels e (e.labels ++ (runtime_label l (length below) ∷ [])))
unfolding enter_label
enter_label-eq e pc l below params h k a =
    let n = length-append below params in
    let base : length (below ++ params) - l.param_arity ≡ length below = omega arith in
    let enough : not (ltb (length (below ++ params)) l.param_arity) ≡ true = ground (arith, n) in
    let pass = ap (λ b. guard b Error.label_underflow) enough in
    let found = ap found_label h in rw (found, k, pass, base) refl

lookup-last :
    (labels : List RuntimeLabel) (l : RuntimeLabel)
    → lookup Error.label_underflow (labels ++ (l ∷ [])) (length labels) ≡ ok l
lookup-last labels l =
    let here : length labels + 0 ≡ length labels = omega arith in
    let found : get_elem? (labels ++ (l ∷ [])) (length labels) ≡ some l =
      rw here at (get_elem?-append_right labels (l ∷ []) 0) in
    ground (arith, found)

exit_label-eq :
    (e : Frame) (labels : List RuntimeLabel) (l : RuntimeLabel) (below middle results : List Value)
    → e.labels ≡ labels ++ (l ∷ [])
    → 1 ≤ length labels
    → e.stack ≡ below ++ (middle ++ results)
    → l.height ≡ length below
    → l.result_arity ≡ length results
    → exit_label e ≡ ok (with_labels (with_stack e (below ++ results)) labels)
unfolding exit_label
exit_label-eq e labels l below middle results h k st a b =
    let n = length-append labels (l ∷ []) in
    let last : length (labels ++ (l ∷ [])) - 1 ≡ length labels = omega arith in
    let inner : not (leb (length (labels ++ (l ∷ []))) 1) ≡ true = ground (arith, n) in
    let pass = ap (λ c. guard c Error.label_underflow) inner in
    let values : normalize_label_values (below ++ (middle ++ results)) l.height l.result_arity
        ≡ ok (below ++ results) =
      rw (a, b) (normalize_label_values-append below middle results) in
    rw (h, pass, last, lookup-last labels l, st, values, take-length_append labels (l ∷ [])) refl

-- A block that is entered with its parameters on the stack, and whose body leaves its results
-- above anything else, exits to the stack below the parameters with the results on it, and to the
-- labels and counter of its entry.
pub exit_label-enter_label :
    (e e' : Frame) (pc : ℕ) (l : CodeLabel) (below params middle results : List Value)
    → e.code_labels pc ≡ some l
    → e.stack ≡ below ++ params
    → length params ≡ l.param_arity
    → l.result_arity ≡ length results
    → 1 ≤ length e.labels
    → enter_label e pc ≡ ok e'
    → exit_label (with_stack e' (below ++ (middle ++ results)))
      ≡ ok (with_stack e (below ++ results))
exit_label-enter_label e e' pc l below params middle results h k a b c entered =
    let label = runtime_label l (length below) in
    let entry = enter_label-eq e pc l below params h k a in
    let same : e' ≡ with_labels e (e.labels ++ (label ∷ [])) = cc in
    let inside =
      with_stack (with_labels e (e.labels ++ (label ∷ []))) (below ++ (middle ++ results)) in
    rw same (exit_label-eq inside e.labels label below middle results refl c refl refl b)

-- The labels after a branch to `target`, which stands inside those of `outer`. A loop is entered
-- again, so its label stays. Any other block is left, and its label goes, but not the function's.
pub data Kept (target : RuntimeLabel) : List RuntimeLabel → List RuntimeLabel → Type 0 where
  again :
      {outer : List RuntimeLabel}
      → target.is_loop ≡ true
      → Kept target outer (outer ++ (target ∷ []))
  left :
      {l : RuntimeLabel} {outer : List RuntimeLabel}
      → target.is_loop ≡ false
      → Kept target (l ∷ outer) (l ∷ outer)
  function : target.is_loop ≡ false → Kept target [] (target ∷ [])

take-kept_labels :
    (target : RuntimeLabel) (outer inner kept : List RuntimeLabel)
    → Kept target outer kept
    → take (kept_labels target.is_loop (length outer)) (outer ++ (target ∷ inner)) ≡ kept
unfolding kept_labels
take-kept_labels target outer inner kept (again is) =
    let inside = outer ++ (target ∷ []) in
    let count : kept_labels target.is_loop (length outer) ≡ length inside =
      ap (λ b. kept_labels b (length outer)) is
      ∙ omega (arith, length-append outer (target ∷ [])) in
    let split = sym (append_assoc outer (target ∷ []) inner) in
    ap (λ n. take n (outer ++ (target ∷ inner))) count
    ∙ ap (take (length inside)) split
    ∙ take-length_append inside inner
take-kept_labels target (l ∷ outer) inner kept (left is) =
    let count : kept_labels target.is_loop (length (l ∷ outer)) ≡ length (l ∷ outer) =
      ap (λ b. kept_labels b (length (l ∷ outer))) is ∙ ground arith in
    ap (λ n. take n (l ∷ (outer ++ (target ∷ inner)))) count
    ∙ take-length_append (l ∷ outer) (target ∷ inner)
take-kept_labels target [] inner kept (function is) =
    ap (λ b. take (kept_labels b 0) (target ∷ inner)) is

lookup-target :
    (target : RuntimeLabel) (outer inner : List RuntimeLabel)
    → lookup Error.label_target (outer ++ (target ∷ inner)) (length outer) ≡ ok target
lookup-target target outer inner =
    let here : length outer + 0 ≡ length outer = omega arith in
    let found : get_elem? (outer ++ (target ∷ inner)) (length outer) ≡ some target =
      rw here at (get_elem?-append_right outer (target ∷ inner) 0) in
    ground (arith, found)

-- A branch to the label that has `depth` labels inside it keeps the values that the label takes, at
-- the label's height, and continues at the target. The labels inside it go; its own label stays when
-- it is a loop's or the function's, and goes when it is any other.
pub branch_to-eq :
    (e : Frame) (depth target_pc : ℕ) (target : RuntimeLabel) (outer inner kept : List RuntimeLabel)
    → (below middle top : List Value) → e.labels ≡ outer ++ (target ∷ inner)
    → length inner ≡ depth
    → Kept target outer kept
    → e.stack ≡ below ++ (middle ++ top)
    → target.height ≡ length below
    → target.branch_arity ≡ length top
    → branch_to e depth target_pc
      ≡ ok record e { stack = below ++ top; labels = kept; pc = target_pc }
unfolding branch_to branch_to_label_index
branch_to-eq e depth target_pc target outer inner kept below middle top h d k st a b =
    let n = length-append outer (target ∷ inner) in
    let inside : ltb depth (length (outer ++ (target ∷ inner))) ≡ true = ground (arith, n) in
    let pass = ap (λ c. guard c Error.label_index) inside in
    let index : length (outer ++ (target ∷ inner)) - 1 - depth ≡ length outer = omega (arith, n) in
    let values : normalize_label_values (below ++ (middle ++ top)) target.height target.branch_arity
        ≡ ok (below ++ top) =
      rw (a, b) (normalize_label_values-append below middle top) in
    let labels = take-kept_labels target outer inner kept k in
    rw (h, pass, index, lookup-target target outer inner, st, values, labels) refl
