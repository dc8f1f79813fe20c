-- ===== src/Soundness/Cases/Table.antt =====
-- internal/validate/validate.go and internal/vm/execute.go: instructions of the tables.
use watgo.Common.{ℕ, ◌≡◌, inr, refl, true, ◌∷◌, ok}
use watgo.Common.{>>=-ok, guard}
use watgo.Wasmir.{TableType, ValueType, is_ref}
use watgo.Wasmir.Instr.{Instr}
use watgo.Validate.Values.{known}
use watgo.Validate.Operands.{State, Hints, Context, unary_operand, binary_operands}
use watgo.Validate.Operands.{ternary_operands, expected}
use watgo.Validate.Plain.{check_plain}
use watgo.Validate.Instructions.{declared, init_elements}
use watgo.Vm.Operands.{pop, pop_i32, pop_table_index_operand, push_table_index_result}
use watgo.Vm.Operands.{pop_table_copy_size_operand}
use watgo.Vm.Tables.{
  table_get, table_set, table_size, table_grow, table_fill, table_copy, table_init,
}
use watgo.Vm.Tables.{elem_drop}
use watgo.Vm.Execute.{Executor, step_plain, grow_result}
use watgo.Soundness.Outcome.{Sound-bind, Sound-ok}
use watgo.Soundness.Stacks.{push-Typed, pop-Sound, pop_i32-Sound}
use watgo.Soundness.Machines.{HasTable}
use watgo.Soundness.Select.{expected-Fits}
use watgo.Soundness.Tables.{pop_table_index_operand-Sound, push_table_index_result-Sound}
use watgo.Soundness.Tables.{table_get-Sound, table_set-Sound, table_size-Sound, table_grow-Sound}
use watgo.Soundness.Tables.{table_fill-Sound, table_copy-Sound, table_init-Sound, elem_drop-Sound}
use watgo.Soundness.Tables.{pop_table_copy_size_operand-Sound}
use watgo.Soundness.Matching.{Matches, Safe, ends, restacked, rewritten, operand, operands}
use watgo.Soundness.Matching.{three_operands, declared-eq}

module _ (ctx : Context) (hint : Hints) (st st' : State) (x : Executor) (m : Matches ctx st x) where
  abbrev Holds : Instr → Type 0
  Holds = Safe ctx hint st st' x

  has_table :
      (i : ℕ) (t : TableType)
      → declared ctx.module_.tables i ≡ ok t
      → HasTable ctx.module_ x.machine i t.ref_type
  has_table i t h = m.machine.tables i t (declared-eq ctx.module_.tables i t h)

  references : (i : ℕ) (t : ValueType) → HasTable ctx.module_ x.machine i t → is_ref t ≡ true
  references i t (p, found, addr, ref, is) = is

  pub table_get-Safe : (i : ℕ) → Holds (Instr.table_get i)
  unfolding check_plain step_plain
  table_get-Safe i h =
      let (t, there, h₁) = >>=-ok (declared ctx.module_.tables i) _ h in
      let ((c, rest), taken, e) = >>=-ok (unary_operand st hint _) _ h₁ in
      let (typed, p) = operand m hint _ c rest taken in
      let has = has_table i t there in
      ends _ e (
        Sound-bind (pop_table_index_operand x.machine x.stack i) _
          (pop_table_index_operand-Sound ctx.module_ x.machine i _ has x.stack c rest p typed)
          (λ (k, below) u.
            Sound-bind (table_get x.machine i k) _
              (table_get-Sound ctx.module_ x.machine i _ has k m.machine)
              (λ v r. Sound-ok _ _ refl (
                restacked m _ _
                  (push-Typed below v rest t.ref_type (inr (r, references i _ has)) u)))))

  pub table_set-Safe : (i : ℕ) → Holds (Instr.table_set i)
  unfolding check_plain step_plain
  table_set-Safe i h =
      let (t, there, h₁) = >>=-ok (declared ctx.module_.tables i) _ h in
      let (rest, taken, e) = >>=-ok (binary_operands st hint _ _) _ h₁ in
      let (c2, c1, typed, p, q) = operands m hint _ _ rest taken in
      let has = has_table i t there in
      ends _ e (
        Sound-bind (pop x.stack) _ (pop-Sound x.stack c2 (c1 ∷ rest) typed) (λ (v, below) (k, u).
          Sound-bind (pop_table_index_operand x.machine below i) _
            (pop_table_index_operand-Sound ctx.module_ x.machine i _ has below c1 rest q u)
            (λ (at, under) w.
              Sound-bind (table_set x.machine i at v) _
                (table_set-Sound ctx.module_ x.machine i _ has at v
                  (expected-Fits ctx v c2 t.ref_type k p) m.machine)
                (λ s a. Sound-ok _ _ refl (rewritten m rest under s w a)))))

  pub table_size-Safe : (i : ℕ) → Holds (Instr.table_size i)
  unfolding check_plain step_plain
  table_size-Safe i h =
      let (t, there, e) = >>=-ok (declared ctx.module_.tables i) _ h in
      let has = has_table i t there in
      ends _ e (
        Sound-bind (table_size x.machine i) _ (table_size-Sound ctx.module_ x.machine i _ has)
          (λ size a.
            Sound-bind (push_table_index_result x.machine x.stack i size) _
              (push_table_index_result-Sound ctx.module_ x.machine i _ has x.stack st.stack size
                m.stack)
              (λ stack u. Sound-ok _ _ refl (restacked m _ stack u))))

  pub table_grow-Safe : (i : ℕ) → Holds (Instr.table_grow i)
  unfolding check_plain step_plain
  table_grow-Safe i h =
      let (t, there, h₁) = >>=-ok (declared ctx.module_.tables i) _ h in
      let (rest, taken, e) = >>=-ok (binary_operands st hint _ _) _ h₁ in
      let (c2, c1, typed, p, q) = operands m hint _ _ rest taken in
      let has = has_table i t there in
      ends _ e (
        Sound-bind (pop_table_index_operand x.machine x.stack i) _
          (pop_table_index_operand-Sound ctx.module_ x.machine i _ has x.stack c2 (c1 ∷ rest) p
            typed)
          (λ (delta, below) u.
            Sound-bind (pop below) _ (pop-Sound below c1 rest u) (λ (init, under) (k, v).
              Sound-bind (table_grow x.machine i init delta) _
                (table_grow-Sound ctx.module_ x.machine i _ has init delta
                  (expected-Fits ctx init c1 t.ref_type k q) m.machine)
                (λ (old, grown, s) (a, still).
                  Sound-bind (push_table_index_result s under i (grow_result old grown)) _
                    (push_table_index_result-Sound ctx.module_ s i _ still under rest _ v)
                    (λ stack w. Sound-ok _ _ refl (rewritten m _ stack s w a))))))

  pub table_fill-Safe : (i : ℕ) → Holds (Instr.table_fill i)
  unfolding check_plain step_plain
  table_fill-Safe i h =
      let (t, there, h₁) = >>=-ok (declared ctx.module_.tables i) _ h in
      let (rest, taken, e) = >>=-ok (ternary_operands st hint _ _ _) _ h₁ in
      let (c3, c2, c1, typed, p, q, r) = three_operands m hint _ _ _ rest taken in
      let has = has_table i t there in
      ends _ e (
        Sound-bind (pop_table_index_operand x.machine x.stack i) _
          (pop_table_index_operand-Sound ctx.module_ x.machine i _ has x.stack c3 (c2 ∷ c1 ∷ rest) p
            typed)
          (λ (size, below) u.
            Sound-bind (pop below) _ (pop-Sound below c2 (c1 ∷ rest) u) (λ (value, under) (k, v).
              Sound-bind (pop_table_index_operand x.machine under i) _
                (pop_table_index_operand-Sound ctx.module_ x.machine i _ has under c1 rest r v)
                (λ (dst, last) w.
                  Sound-bind (table_fill x.machine i dst size value) _
                    (table_fill-Sound ctx.module_ x.machine i _ has dst size value
                      (expected-Fits ctx value c2 t.ref_type k q) m.machine)
                    (λ s a. Sound-ok _ _ refl (rewritten m rest last s w a))))))

  pub table_copy-Safe : (i source : ℕ) → Holds (Instr.table_copy i source)
  unfolding check_plain step_plain
  table_copy-Safe i source h =
      let (t, there, h₁) = >>=-ok (declared ctx.module_.tables i) _ h in
      let (o, also, h₂) = >>=-ok (declared ctx.module_.tables source) _ h₁ in
      let (_, matched, h₃) = >>=-ok (guard (expected ctx t.ref_type (known o.ref_type)) _) _ h₂ in
      let (rest, taken, e) = >>=-ok (ternary_operands st hint _ _ _) _ h₃ in
      let (c3, c2, c1, typed, p, q, r) = three_operands m hint _ _ _ rest taken in
      let has = has_table i t there in
      let from = has_table source o also in
      ends _ e (
        Sound-bind (pop_table_copy_size_operand x.machine x.stack i source) _
          (pop_table_copy_size_operand-Sound ctx.module_ x.machine i source _ _ x.stack c3
            (c2 ∷ c1 ∷ rest) has from p typed)
          (λ (size, below) u.
            Sound-bind (pop_table_index_operand x.machine below source) _
              (pop_table_index_operand-Sound ctx.module_ x.machine source _ from below c2
                (c1 ∷ rest) q u)
              (λ (src, under) v.
                Sound-bind (pop_table_index_operand x.machine under i) _
                  (pop_table_index_operand-Sound ctx.module_ x.machine i _ has under c1 rest r v)
                  (λ (dst, last) w.
                    Sound-bind (table_copy x.machine i dst source src size) _
                      (table_copy-Sound ctx.module_ x.machine i dst source src size _ _ has from
                        m.machine)
                      (λ s a. Sound-ok _ _ refl (rewritten m rest last s w a))))))

  pub table_init-Safe : (i segment : ℕ) → Holds (Instr.table_init i segment)
  unfolding check_plain step_plain
  table_init-Safe i segment h =
      let (t, there, h₁) = >>=-ok (declared ctx.module_.tables i) _ h in
      let (o, also, h₂) = >>=-ok (declared ctx.module_.elements segment) _ h₁ in
      let (_, matched, h₃) = >>=-ok (init_elements ctx segment t.ref_type) _ h₂ in
      let (rest, taken, e) = >>=-ok (ternary_operands st hint _ _ _) _ h₃ in
      let (c3, c2, c1, typed, p, q, r) = three_operands m hint _ _ _ rest taken in
      let has = has_table i t there in
      let found = declared-eq ctx.module_.elements segment o also in
      ends _ e (
        Sound-bind (pop_i32 x.stack) _ (pop_i32-Sound x.stack c3 (c2 ∷ c1 ∷ rest) p typed)
          (λ (size, below) u.
            Sound-bind (pop_i32 below) _ (pop_i32-Sound below c2 (c1 ∷ rest) q u) (λ (src, under) v.
              Sound-bind (pop_table_index_operand x.machine under i) _
                (pop_table_index_operand-Sound ctx.module_ x.machine i _ has under c1 rest r v)
                (λ (dst, last) w.
                  Sound-bind (table_init x.machine i segment dst src size) _
                    (table_init-Sound ctx.module_ x.machine i segment dst src size _ o has found
                      m.machine)
                    (λ s a. Sound-ok _ _ refl (rewritten m rest last s w a))))))

  pub elem_drop-Safe : (segment : ℕ) → Holds (Instr.elem_drop segment)
  unfolding check_plain step_plain
  elem_drop-Safe segment h =
      let (o, also, e) = >>=-ok (declared ctx.module_.elements segment) _ h in
      ends st e (
        Sound-bind (elem_drop x.machine segment) _
          (elem_drop-Sound ctx.module_ x.machine segment o
            (declared-eq ctx.module_.elements segment o also) m.machine)
          (λ s a. Sound-ok _ _ refl (rewritten m st.stack x.stack s m.stack a)))
