-- ===== src/Soundness/Memories.antt =====
-- internal/vm/instance.go: the memory operations of an instance that agrees with its module can only
-- trap, and it agrees after them.
use watgo.Common.{ℕ, ◌≡◌, inl, inr, refl, ◌∙◌, arith, Bool, true, false, not}
use watgo.Common.{List, ◌∷◌, some, Result, ◌>>=◌, get_elem?, guard, ltb, length, ◌<◌}
use watgo.Common.{◌==◌, ◌/◌, ◌-◌, ◌&&◌, ◌||◌, ◌>>◌}
use watgo.Common.Window.{get_elem?-overwrite_one}
use watgo.Wasmir.{Module}
use watgo.Validate.Values.{Checked, known, memory_address_type, address_or_i32}
use watgo.Validate.Operands.{has_type}
use watgo.Vm.Value.{Error}
use watgo.Vm.State.{Machine, Segment, memory, memory_inst, check_segment, out_of_bounds}
use watgo.Vm.State.{data_segment, set_elem}
use watgo.Vm.State.Windows.{memory_inst-ok}
use watgo.Vm.Operands.{Stack}
use watgo.Vm.Operands.{pop_memory_index_operand, push_memory_index_result, memory_address}
use watgo.Vm.Operands.{pop_memory_address}
use watgo.Vm.Memories.{
  memory_load, memory_store, memory_size, memory_grow, memory_copy, memory_fill,
}
use watgo.Vm.Memories.{memory_init, data_drop, supported_size, can_grow, drop_segment}
use watgo.Vm.Memories.{max_uint64, page_size}
use watgo.Soundness.Outcome.{Sound, Sound-bind, Sound-ok, Sound-trap, is_trap}
use watgo.Soundness.Stacks.{Typed, Below}
use watgo.Soundness.Outcome.{if-Sound, either-Sound, Anything}
use watgo.Soundness.Addresses.{IsAddressType, pop_index-Sound, push_index-Sound}
use watgo.Soundness.Machines.{Agrees, HasMemory, set_memory-Agrees, set_memory-HasMemory}

memory_address_type-IsAddressType :
    (m : Module) (index : ℕ) → IsAddressType (memory_address_type m index)
unfolding memory_address_type address_or_i32
memory_address_type-IsAddressType m index = ground arith

memory_address-Sound : (base offset : ℕ) → Sound Anything (memory_address base offset)
unfolding memory_address
memory_address-Sound base offset = if-Sound (ltb (max_uint64 - offset) base) _ _ refl tt

module _ (m : Module) (s : Machine) (index : ℕ) (has : HasMemory m s index) where
  memory_inst-Sound :
      Sound (λ p. (s.memory_at p).address_type ≡ memory_address_type m index) (memory_inst s index)
  memory_inst-Sound = let (p, found, t) = has in Sound-ok _ p (memory_inst-ok s index p found) t

  pub memory-Sound : (address size : ℕ) → Sound Anything (memory s index address size)
  unfolding memory
  memory-Sound address size =
      Sound-bind (memory_inst s index) _ memory_inst-Sound
        (λ p t. if-Sound (out_of_bounds (length (s.memory_at p).bytes) address size) _ _ refl tt)

  pub pop_memory_index_operand-Sound :
      (stack : Stack) (c : Checked) (cs : List Checked)
      → has_type (memory_address_type m index) c ≡ true
      → Typed stack (c ∷ cs)
      → Sound (Below cs) (pop_memory_index_operand s stack index)
  unfolding pop_memory_index_operand
  pop_memory_index_operand-Sound stack c cs h typed =
      Sound-bind (memory_inst s index) _ memory_inst-Sound (λ p t.
        rw (t) (pop_index-Sound stack c cs _ (memory_address_type-IsAddressType m index) h typed))

  pub pop_memory_address-Sound :
      (stack : Stack) (c : Checked) (cs : List Checked) (offset : ℕ)
      → has_type (memory_address_type m index) c ≡ true
      → Typed stack (c ∷ cs)
      → Sound (Below cs) (pop_memory_address s stack index offset)
  unfolding pop_memory_address
  pop_memory_address-Sound stack c cs offset h typed =
      Sound-bind (pop_memory_index_operand s stack index) _
        (pop_memory_index_operand-Sound stack c cs h typed)
        (λ (base, rest) t.
          Sound-bind (memory_address base offset) _ (memory_address-Sound base offset)
            (λ address u. Sound-ok _ (address, rest) refl t))

  pub push_memory_index_result-Sound :
      (stack : Stack) (cs : List Checked) (value : ℕ)
      → Typed stack cs
      → Sound
          (λ out. Typed out (known (memory_address_type m index) ∷ cs))
          (push_memory_index_result s stack index value)
  unfolding push_memory_index_result
  push_memory_index_result-Sound stack cs value typed =
      Sound-bind (memory_inst s index) _ memory_inst-Sound (λ p t.
        rw (t)
          (push_index-Sound stack cs _ value (memory_address_type-IsAddressType m index) typed))

  pub memory_size-Sound : Sound Anything (memory_size s index)
  unfolding memory_size
  memory_size-Sound =
      Sound-bind (memory_inst s index) _ memory_inst-Sound (λ p t. Sound-ok _ _ refl tt)

  pub memory_load-Sound :
      (address size : ℕ)
      → supported_size size ≡ true
      → Sound Anything (memory_load s index address size)
  unfolding memory_load
  memory_load-Sound address size h =
      Sound-bind (memory s index address size) _ (memory-Sound address size)
        (λ w t. rw (h) (Sound-ok _ _ refl tt))

  pub memory_store-Sound :
      (address size value : ℕ)
      → Agrees m s
      → supported_size size ≡ true
      → Sound (Agrees m) (memory_store s index address size value)
  unfolding memory_store
  memory_store-Sound address size value a h =
      Sound-bind (memory s index address size) _ (memory-Sound address size)
        (λ w t. rw (h) (Sound-ok _ _ refl (set_memory-Agrees m s w.pointer _ a)))

  pub memory_fill-Sound :
      (address size value : ℕ)
      → Agrees m s
      → Sound (Agrees m) (memory_fill s index address size value)
  unfolding memory_fill
  memory_fill-Sound address size value a =
      Sound-bind (memory s index address size) _ (memory-Sound address size)
        (λ w t. Sound-ok _ _ refl (set_memory-Agrees m s w.pointer _ a))

  -- After a growth the index names the same memory, and its address type is the same.
  pub memory_grow-Sound :
      (delta : ℕ)
      → Agrees m s
      → Sound (λ (old, grown, s'). Agrees m s' × HasMemory m s' index) (memory_grow s index delta)
  unfolding memory_grow
  memory_grow-Sound delta a = Sound-bind (memory_inst s index) _ memory_inst-Sound (λ p t.
      either-Sound (can_grow (s.memory_at p) (length (s.memory_at p).bytes / page_size) delta) _ _
        (set_memory-Agrees m s p _ a, set_memory-HasMemory m s p _ index has) (a, has))

pub memory_copy-Sound :
    (m : Module) (s : Machine) (index dst source src size : ℕ)
    → HasMemory m s index
    → HasMemory m s source
    → Agrees m s
    → Sound (Agrees m) (memory_copy s index dst source src size)
unfolding memory_copy
memory_copy-Sound m s index dst source src size has from a =
    Sound-bind (memory s index dst size) _ (memory-Sound m s index has dst size) (λ w t.
      Sound-bind (memory s source src size) _ (memory-Sound m s source from src size)
        (λ v u. Sound-ok _ _ refl (set_memory-Agrees m s w.pointer _ a)))

guards-Sound : (b c : Bool) (e : Error) → is_trap e ≡ true → Sound Anything (guard b e >> guard c e)
guards-Sound true true e t = Sound-ok _ tt refl tt
guards-Sound true false e t = Sound-trap _ e refl t
guards-Sound false c e t = Sound-trap _ e refl t

pub check_segment-Sound :
    {A : Type 0} {B : Type 0} {Q : B → Type 0} (e : Error) (seg : Segment A) (offset size : ℕ)
    (next : Unit {0} → Result Error B)
    → is_trap e ≡ true
    → Sound Q (next tt)
    → Sound Q (check_segment e seg offset size >>= next)
unfolding check_segment
check_segment-Sound e seg offset size next t s =
    Sound-bind (check_segment e seg offset size) next
      (guards-Sound (not (seg.dropped && (not (offset == 0) || not (size == 0))))
        (not (out_of_bounds (length seg.init) offset size)) e t)
      (λ u v. s)

data_segment-Sound :
    (s : Machine) (index : ℕ) (seg : Segment ℕ)
    → get_elem? s.data_segments index ≡ some seg
    → Sound Anything (data_segment s index)
unfolding data_segment
data_segment-Sound s index seg h = Sound-ok _ seg (ground (arith, h)) tt

pub memory_init-Sound :
    (m : Module) (s : Machine) (index segment dst src size : ℕ)
    → HasMemory m s index
    → segment < m.data_count
    → Agrees m s
    → Sound (Agrees m) (memory_init s index segment dst src size)
unfolding memory_init
memory_init-Sound m s index segment dst src size has h a =
    let (seg, found) = a.data_segments segment h in
    Sound-bind (data_segment s segment) _ (data_segment-Sound s segment seg found) (λ d t.
      check_segment-Sound Error.data_bounds d src size _ refl (
        Sound-bind (memory s index dst size) _ (memory-Sound m s index has dst size)
          (λ w u. Sound-ok _ _ refl (set_memory-Agrees m s w.pointer _ a))))

-- A segment that is there is there after another one, or the same one, is replaced.
pub set_elem-some :
    {A : Type 0} (xs : List A) (i : ℕ) (a : A) (j : ℕ) (x : A)
    → get_elem? xs j ≡ some x
    → (y : A) × (get_elem? (set_elem xs i a) j ≡ some y)
set_elem-some xs i a j x h = elim (get_elem?-overwrite_one xs i a j) [
  | inl same ↦ (x, same ∙ h)
  | inr written ↦ (a, written.1)
]

pub data_drop-Sound :
    (m : Module) (s : Machine) (segment : ℕ)
    → segment < m.data_count
    → Agrees m s
    → Sound (Agrees m) (data_drop s segment)
unfolding data_drop
data_drop-Sound m s segment h a =
    let (seg, found) = a.data_segments segment h in
    Sound-bind (data_segment s segment) _ (data_segment-Sound s segment seg found) (λ d t.
      Sound-ok _ _ refl (record {
        memories = a.memories;
        tables = a.tables;
        globals = a.globals;
        data_segments = λ j k.
            let (e, there) = a.data_segments j k in
            set_elem-some s.data_segments segment (drop_segment d) j e there;
        elem_segments = a.elem_segments;
        elements = a.elements;
        segment_elements = a.segment_elements;
        global_values = a.global_values;
      }))
