-- ===== src/Soundness/Cases/Memory.antt =====
-- internal/validate/validate.go and internal/vm/execute.go: instructions of the memories.
use watgo.Common.{ℕ, ◌%◌, ◌^◌, ◌<◌, ◌≡◌, refl, arith, true, ◌∷◌, ok}
use watgo.Common.{>>=-ok, guard-eq-ok, guard}
use watgo.Wasmir.{Limits}
use watgo.Wasmir.Instr.{Instr, Width, LoadOp, StoreOp}
use watgo.Validate.Operands.{State, Hints, Context, unary_operand, binary_operands}
use watgo.Validate.Operands.{ternary_operands}
use watgo.Validate.Plain.{check_plain}
use watgo.Validate.Instructions.{declared, in_range, has_load, has_store}
use watgo.Vm.Operands.{pop_i32, pop_memory_address, pop_memory_index_operand}
use watgo.Vm.Operands.{push_memory_index_result}
use watgo.Vm.Memories.{
  memory_load, memory_store, memory_size, memory_grow, memory_copy, memory_fill,
}
use watgo.Vm.Memories.{memory_init, data_drop, supported_size}
use watgo.Vm.Evaluate.{load_size, store_size, pop_width}
use watgo.Vm.Execute.{Executor, step_plain, grow_result}
use watgo.Soundness.Outcome.{Sound-bind, Sound-ok}
use watgo.Soundness.Stacks.{pop_i32-Sound}
use watgo.Soundness.Machines.{HasMemory}
use watgo.Soundness.Memories.{pop_memory_address-Sound, pop_memory_index_operand-Sound}
use watgo.Soundness.Memories.{push_memory_index_result-Sound, memory_load-Sound, memory_store-Sound}
use watgo.Soundness.Memories.{memory_size-Sound, memory_grow-Sound, memory_copy-Sound}
use watgo.Soundness.Memories.{memory_fill-Sound, memory_init-Sound, data_drop-Sound}
use watgo.Soundness.Numeric.{pop_width-Sound, push_width-Typed}
use watgo.Soundness.Matching.{Matches, Safe, ends, restacked, rewritten, operand, operands}
use watgo.Soundness.Matching.{three_operands, declared-eq}

load_size-supported :
    (w : Width) (op : LoadOp) → has_load w op ≡ true → supported_size (load_size w op) ≡ true
unfolding supported_size
load_size-supported Width.i32 LoadOp.full h = refl
load_size-supported Width.i64 LoadOp.full h = refl
load_size-supported w LoadOp.load8_s h = refl
load_size-supported w LoadOp.load8_u h = refl
load_size-supported w LoadOp.load16_s h = refl
load_size-supported w LoadOp.load16_u h = refl
load_size-supported w LoadOp.load32_s h = refl
load_size-supported w LoadOp.load32_u h = refl

store_size-supported : (w : Width) (op : StoreOp) → supported_size (store_size w op) ≡ true
unfolding supported_size
store_size-supported Width.i32 StoreOp.full = refl
store_size-supported Width.i64 StoreOp.full = refl
store_size-supported w StoreOp.store8 = refl
store_size-supported w StoreOp.store16 = refl
store_size-supported w StoreOp.store32 = refl

module _ (ctx : Context) (hint : Hints) (st st' : State) (x : Executor) (m : Matches ctx st x) where
  abbrev Holds : Instr → Type 0
  Holds = Safe ctx hint st st' x

  has_memory :
      (i : ℕ) (l : Limits)
      → declared ctx.module_.memories i ≡ ok l
      → HasMemory ctx.module_ x.machine i
  has_memory i l h = m.machine.memories i l (declared-eq ctx.module_.memories i l h)

  pub load-Safe : (w : Width) (op : LoadOp) (i offset : ℕ) → Holds (Instr.load w op i offset)
  unfolding check_plain step_plain
  load-Safe w op i offset h =
      let (_, exists, h₁) = >>=-ok (guard (has_load w op) _) _ h in
      let (l, there, h₂) = >>=-ok (declared ctx.module_.memories i) _ h₁ in
      let ((c, rest), taken, e) = >>=-ok (unary_operand st hint _) _ h₂ in
      let (t, p) = operand m hint _ c rest taken in
      let has = has_memory i l there in
      ends _ e (
        Sound-bind (pop_memory_address x.machine x.stack i offset) _
          (pop_memory_address-Sound ctx.module_ x.machine i has x.stack c rest offset p t)
          (λ (address, below) u.
            Sound-bind (memory_load x.machine i address (load_size w op)) _
              (memory_load-Sound ctx.module_ x.machine i has address (load_size w op)
                (load_size-supported w op (guard-eq-ok _ _ exists)))
              (λ raw a. Sound-ok _ _ refl (restacked m _ _ (push_width-Typed w below _ rest u)))))

  pub store-Safe : (w : Width) (op : StoreOp) (i offset : ℕ) → Holds (Instr.store w op i offset)
  unfolding check_plain step_plain
  store-Safe w op i offset h =
      let (_, exists, h₁) = >>=-ok (guard (has_store w op) _) _ h in
      let (l, there, h₂) = >>=-ok (declared ctx.module_.memories i) _ h₁ in
      let (rest, taken, e) = >>=-ok (binary_operands st hint _ _) _ h₂ in
      let (c2, c1, t, p, q) = operands m hint _ _ rest taken in
      let has = has_memory i l there in
      ends _ e (
        Sound-bind (pop_width w x.stack) _ (pop_width-Sound w x.stack c2 (c1 ∷ rest) p t)
          (λ (value, below) u.
            Sound-bind (pop_memory_address x.machine below i offset) _
              (pop_memory_address-Sound ctx.module_ x.machine i has below c1 rest offset q u)
              (λ (address, under) v.
                Sound-bind (memory_store x.machine i address (store_size w op) value) _
                  (memory_store-Sound ctx.module_ x.machine i has address _ value m.machine
                    (store_size-supported w op))
                  (λ s a. Sound-ok _ _ refl (rewritten m rest under s v a)))))

  pub memory_size-Safe : (i : ℕ) → Holds (Instr.memory_size i)
  unfolding check_plain step_plain
  memory_size-Safe i h =
      let (l, there, e) = >>=-ok (declared ctx.module_.memories i) _ h in
      let has = has_memory i l there in
      ends _ e (
        Sound-bind (memory_size x.machine i) _ (memory_size-Sound ctx.module_ x.machine i has)
          (λ pages a.
            Sound-bind (push_memory_index_result x.machine x.stack i pages) _
              (push_memory_index_result-Sound ctx.module_ x.machine i has x.stack st.stack pages
                m.stack)
              (λ stack u. Sound-ok _ _ refl (restacked m _ stack u))))

  pub memory_grow-Safe : (i : ℕ) → Holds (Instr.memory_grow i)
  unfolding check_plain step_plain
  memory_grow-Safe i h =
      let (l, there, h₁) = >>=-ok (declared ctx.module_.memories i) _ h in
      let ((c, rest), taken, e) = >>=-ok (unary_operand st hint _) _ h₁ in
      let (t, p) = operand m hint _ c rest taken in
      let has = has_memory i l there in
      ends _ e (
        Sound-bind (pop_memory_index_operand x.machine x.stack i) _
          (pop_memory_index_operand-Sound ctx.module_ x.machine i has x.stack c rest p t)
          (λ (delta, below) u.
            Sound-bind (memory_grow x.machine i delta) _
              (memory_grow-Sound ctx.module_ x.machine i has delta m.machine)
              (λ (old, grown, s) (a, still).
                Sound-bind (push_memory_index_result s below i (grow_result old grown)) _
                  (push_memory_index_result-Sound ctx.module_ s i still below rest _ u)
                  (λ stack v. Sound-ok _ _ refl (rewritten m _ stack s v a)))))

  pub memory_copy-Safe : (i source : ℕ) → Holds (Instr.memory_copy i source)
  unfolding check_plain step_plain
  memory_copy-Safe i source h =
      let (l, there, h₁) = >>=-ok (declared ctx.module_.memories i) _ h in
      let (k, also, h₂) = >>=-ok (declared ctx.module_.memories source) _ h₁ in
      let (rest, taken, e) = >>=-ok (ternary_operands st hint _ _ _) _ h₂ in
      let (c3, c2, c1, t, p, q, r) = three_operands m hint _ _ _ rest taken in
      let has = has_memory i l there in
      let from = has_memory source k also in
      ends _ e (
        Sound-bind (pop_memory_index_operand x.machine x.stack i) _
          (pop_memory_index_operand-Sound ctx.module_ x.machine i has x.stack c3 (c2 ∷ c1 ∷ rest) p
            t)
          (λ (size, below) u.
            Sound-bind (pop_memory_index_operand x.machine below source) _
              (pop_memory_index_operand-Sound ctx.module_ x.machine source from below c2 (c1 ∷ rest)
                q u)
              (λ (src, under) v.
                Sound-bind (pop_memory_index_operand x.machine under i) _
                  (pop_memory_index_operand-Sound ctx.module_ x.machine i has under c1 rest r v)
                  (λ (dst, last) w.
                    Sound-bind (memory_copy x.machine i dst source src size) _
                      (memory_copy-Sound ctx.module_ x.machine i dst source src size has from
                        m.machine)
                      (λ s a. Sound-ok _ _ refl (rewritten m rest last s w a))))))

  pub memory_fill-Safe : (i : ℕ) → Holds (Instr.memory_fill i)
  unfolding check_plain step_plain
  memory_fill-Safe i h =
      let (l, there, h₁) = >>=-ok (declared ctx.module_.memories i) _ h in
      let (rest, taken, e) = >>=-ok (ternary_operands st hint _ _ _) _ h₁ in
      let (c3, c2, c1, t, p, q, r) = three_operands m hint _ _ _ rest taken in
      let has = has_memory i l there in
      ends _ e (
        Sound-bind (pop_memory_index_operand x.machine x.stack i) _
          (pop_memory_index_operand-Sound ctx.module_ x.machine i has x.stack c3 (c2 ∷ c1 ∷ rest) p
            t)
          (λ (size, below) u.
            Sound-bind (pop_i32 below) _ (pop_i32-Sound below c2 (c1 ∷ rest) q u)
              (λ (value, under) v.
                Sound-bind (pop_memory_index_operand x.machine under i) _
                  (pop_memory_index_operand-Sound ctx.module_ x.machine i has under c1 rest r v)
                  (λ (dst, last) w.
                    Sound-bind (memory_fill x.machine i dst size (value % 2 ^ 8)) _
                      (memory_fill-Sound ctx.module_ x.machine i has dst size _ m.machine)
                      (λ s a. Sound-ok _ _ refl (rewritten m rest last s w a))))))

  in_data :
      (segment : ℕ)
      → in_range segment ctx.module_.data_count ≡ ok tt
      → segment < ctx.module_.data_count
  in_data segment h = ground arith

  pub memory_init-Safe : (i segment : ℕ) → Holds (Instr.memory_init i segment)
  unfolding check_plain step_plain
  memory_init-Safe i segment h =
      let (l, there, h₁) = >>=-ok (declared ctx.module_.memories i) _ h in
      let (_, inside, h₂) = >>=-ok (in_range segment ctx.module_.data_count) _ h₁ in
      let (rest, taken, e) = >>=-ok (ternary_operands st hint _ _ _) _ h₂ in
      let (c3, c2, c1, t, p, q, r) = three_operands m hint _ _ _ rest taken in
      let has = has_memory i l there in
      ends _ e (
        Sound-bind (pop_i32 x.stack) _ (pop_i32-Sound x.stack c3 (c2 ∷ c1 ∷ rest) p t)
          (λ (size, below) u.
            Sound-bind (pop_i32 below) _ (pop_i32-Sound below c2 (c1 ∷ rest) q u) (λ (src, under) v.
              Sound-bind (pop_memory_index_operand x.machine under i) _
                (pop_memory_index_operand-Sound ctx.module_ x.machine i has under c1 rest r v)
                (λ (dst, last) w.
                  Sound-bind (memory_init x.machine i segment dst src size) _
                    (memory_init-Sound ctx.module_ x.machine i segment dst src size has
                      (in_data segment inside) m.machine)
                    (λ s a. Sound-ok _ _ refl (rewritten m rest last s w a))))))

  pub data_drop-Safe : (segment : ℕ) → Holds (Instr.data_drop segment)
  unfolding check_plain step_plain
  data_drop-Safe segment h =
      let (_, inside, e) = >>=-ok (in_range segment ctx.module_.data_count) _ h in
      ends st e (
        Sound-bind (data_drop x.machine segment) _
          (data_drop-Sound ctx.module_ x.machine segment (in_data segment inside) m.machine)
          (λ s a. Sound-ok _ _ refl (rewritten m st.stack x.stack s m.stack a)))
