-- ===== src/Soundness/Tables.antt =====
-- internal/vm/instance.go: the table operations of an instance that agrees with its module can only
-- trap, and it agrees after them. The same for globals.
use mathlib.Core.Path.{subst}
use watgo.Common.{ℕ, ◌≡◌, inl, inr, refl, sym, ap, ◌∙◌, arith, Bool, true, false}
use watgo.Common.{List, [], ◌∷◌, some, Result, ◌>>=◌, get_elem?, length}
use watgo.Common.{All, All-append, All-replicate, replicate, if◌then◌else◌}
use watgo.Common.Window.{get_elem?-overwrite_one, All-window, All-overwrite}
use watgo.Wasmir.{Module, ValueType, ElementType, is_ref}
use watgo.Wasmir.{value_type_i32, value_type_i64}
use watgo.Validate.Values.{Checked, known, table_address_type, address_or_i32}
use watgo.Validate.Operands.{has_type}
use watgo.Validate.Instructions.{copy_length_type}
use watgo.Vm.Value.{Error, Value, Fits, check_args, check_args_iff}
use watgo.Vm.State.{Machine, Segment, table, table_inst, out_of_bounds}
use watgo.Vm.State.{elem_segment, elems_of, set_elem}
use watgo.Vm.State.Windows.{table_inst-ok}
use watgo.Vm.Operands.{Stack, pop_table_index_operand, push_table_index_result}
use watgo.Vm.Operands.{pop_table_copy_size_operand, pop_i32, pop_i64}
use watgo.Vm.Memories.{drop_segment}
use watgo.Vm.Tables.{
  table_get, table_set, table_size, table_grow, table_fill, table_copy, table_init,
}
use watgo.Vm.Tables.{elem_drop, can_grow_table, first}
use watgo.Soundness.Outcome.{Sound, Sound-bind, Sound-ok, Sound-trap, if-Sound}
use watgo.Soundness.Outcome.{either-Sound, Anything}
use watgo.Soundness.Stacks.{Typed, Below, pop_i32-Sound, pop_i64-Sound}
use watgo.Soundness.Addresses.{IsAddressType}
use watgo.Soundness.Addresses.{pop_index-Sound, push_index-Sound}
use watgo.Soundness.Memories.{check_segment-Sound, set_elem-some}
use watgo.Soundness.Machines.{Agrees, HasTable, IsReference, set_table-Agrees}
use watgo.Soundness.Machines.{set_table-HasTable}

pub table_address_type-IsAddressType :
    (m : Module) (index : ℕ) → IsAddressType (table_address_type m index)
unfolding table_address_type address_or_i32
table_address_type-IsAddressType m index = ground arith

pub Fits-IsReference : (v : Value) (t : ValueType) → is_ref t ≡ true → Fits v.type t → IsReference v
Fits-IsReference v t r (inl e) = ap is_ref e ∙ r
Fits-IsReference v t r (inr (h, k)) = h

first-Sound : (elems : List Value) → All IsReference elems → Sound IsReference (first elems)
first-Sound [] a = Sound-trap _ Error.table_bounds refl refl
first-Sound (v ∷ vs) (r, a) = Sound-ok _ v refl r

module _ (m : Module) (s : Machine) (index : ℕ) (t : ValueType) (has : HasTable m s index t) where
  abbrev AtTable : ℕ → Type 0
  AtTable p =
      ((s.table_at p).address_type ≡ table_address_type m index)
      × ((s.table_at p).ref_type ≡ t)
      × (is_ref t ≡ true)

  table_inst-Sound : Sound AtTable (table_inst s index)
  table_inst-Sound =
      let (p, found, addr, ref, is) = has in
      Sound-ok _ p (table_inst-ok s index p found) (addr, ref, is)

  pub table-Sound : (i size : ℕ) → Sound Anything (table s index i size)
  unfolding table
  table-Sound i size =
      Sound-bind (table_inst s index) _ table_inst-Sound
        (λ p at. if-Sound (out_of_bounds (length (s.table_at p).elems) i size) _ _ refl tt)

  pub pop_table_index_operand-Sound :
      (stack : Stack) (c : Checked) (cs : List Checked)
      → has_type (table_address_type m index) c ≡ true
      → Typed stack (c ∷ cs)
      → Sound (Below cs) (pop_table_index_operand s stack index)
  unfolding pop_table_index_operand
  pop_table_index_operand-Sound stack c cs h typed =
      Sound-bind (table_inst s index) _ table_inst-Sound (λ p at.
        rw (at.0) (pop_index-Sound stack c cs _ (table_address_type-IsAddressType m index) h typed))

  pub push_table_index_result-Sound :
      (stack : Stack) (cs : List Checked) (value : ℕ)
      → Typed stack cs
      → Sound
          (λ out. Typed out (known (table_address_type m index) ∷ cs))
          (push_table_index_result s stack index value)
  unfolding push_table_index_result
  push_table_index_result-Sound stack cs value typed =
      Sound-bind (table_inst s index) _ table_inst-Sound (λ p at.
        rw (at.0)
          (push_index-Sound stack cs _ value (table_address_type-IsAddressType m index) typed))

  pub table_size-Sound : Sound Anything (table_size s index)
  unfolding table_size
  table_size-Sound =
      Sound-bind (table_inst s index) _ table_inst-Sound (λ p at. Sound-ok _ _ refl tt)

  pub table_get-Sound : (i : ℕ) → Agrees m s → Sound IsReference (table_get s index i)
  unfolding table_get
  table_get-Sound i a = Sound-bind (table s index i 1) _ (table-Sound i 1) (λ w u.
      first-Sound (elems_of s w)
        (All-window IsReference (s.table_at w.pointer).elems w.start w.size (a.elements w.pointer)))

  -- The test of the value that is written.
  checked :
      {B : Type 0} {Q : B → Type 0} (p : ℕ) (v : Value) (next : Unit {0} → Result Error B)
      → AtTable p
      → Fits v.type t
      → Sound Q (next tt)
      → Sound Q (check_args ((s.table_at p).ref_type ∷ []) (v ∷ []) >>= next)
  checked p v next at f q =
      Sound-bind (check_args ((s.table_at p).ref_type ∷ []) (v ∷ [])) next
        (Sound-ok {P = Anything} _ tt (rw (at.1) ((check_args_iff (t ∷ []) (v ∷ [])).0.1 (f, tt)))
          tt)
        (λ u w. q)

  pub table_set-Sound :
      (i : ℕ) (v : Value) → Fits v.type t → Agrees m s → Sound (Agrees m) (table_set s index i v)
  unfolding table_set
  table_set-Sound i v f a = Sound-bind (table_inst s index) _ table_inst-Sound (λ p at.
      checked p v _ at f (
        Sound-bind (table s index i 1) _ (table-Sound i 1) (λ w u. Sound-ok _ _ refl (
          set_table-Agrees m s w.pointer _ a (
            All-overwrite IsReference _ w.start (v ∷ []) (a.elements w.pointer)
              (Fits-IsReference v t at.2 f, tt))))))

  pub table_fill-Sound :
      (i size : ℕ) (v : Value)
      → Fits v.type t
      → Agrees m s
      → Sound (Agrees m) (table_fill s index i size v)
  unfolding table_fill
  table_fill-Sound i size v f a = Sound-bind (table_inst s index) _ table_inst-Sound (λ p at.
      checked p v _ at f (
        Sound-bind (table s index i size) _ (table-Sound i size) (λ w u. Sound-ok _ _ refl (
          set_table-Agrees m s w.pointer _ a (
            All-overwrite IsReference _ w.start _ (a.elements w.pointer)
              (All-replicate IsReference w.size v (Fits-IsReference v t at.2 f)))))))

  pub table_grow-Sound :
      (init : Value) (delta : ℕ)
      → Fits init.type t
      → Agrees m s
      → Sound
          (λ (old, grown, s'). Agrees m s' × HasTable m s' index t)
          (table_grow s index init delta)
  unfolding table_grow
  table_grow-Sound init delta f a = Sound-bind (table_inst s index) _ table_inst-Sound (λ p at.
      let refs =
        All-append IsReference _ (replicate delta init) (a.elements p)
          (All-replicate IsReference delta init (Fits-IsReference init t at.2 f)) in
      checked p init _ at f (
        either-Sound (can_grow_table (s.table_at p) (length (s.table_at p).elems) delta) _ _
          (set_table-Agrees m s p _ a refs, set_table-HasTable m s p _ index t has) (a, has)))

pub pop_table_copy_size_operand-Sound :
    (m : Module) (s : Machine) (index source : ℕ) (t u : ValueType) (stack : Stack) (c : Checked)
    (cs : List Checked)
    → HasTable m s index t
    → HasTable m s source u
    → has_type (copy_length_type (table_address_type m index) (table_address_type m source)) c
      ≡ true
    → Typed stack (c ∷ cs)
    → Sound (Below cs) (pop_table_copy_size_operand s stack index source)
unfolding pop_table_copy_size_operand copy_length_type
pop_table_copy_size_operand-Sound m s index source t u stack c cs has from h typed =
    Sound-bind (table_inst s index) _ (table_inst-Sound m s index t has) (λ p at.
      Sound-bind (table_inst s source) _ (table_inst-Sound m s source u from)
        (λ q on. rw (at.0, on.0) (by_width _ h)))
  where
    by_width :
        (wide : Bool)
        → has_type (if wide then value_type_i64 else value_type_i32) c ≡ true
        → Sound (Below cs) (if wide then pop_i64 stack else pop_i32 stack)
    by_width true k = pop_i64-Sound stack c cs k typed
    by_width false k = pop_i32-Sound stack c cs k typed

pub table_copy-Sound :
    (m : Module) (s : Machine) (index dst source src size : ℕ) (t u : ValueType)
    → HasTable m s index t
    → HasTable m s source u
    → Agrees m s
    → Sound (Agrees m) (table_copy s index dst source src size)
unfolding table_copy
table_copy-Sound m s index dst source src size t u has from a =
    Sound-bind (table s index dst size) _ (table-Sound m s index t has dst size) (λ w x.
      Sound-bind (table s source src size) _ (table-Sound m s source u from src size) (λ v y.
        Sound-ok _ _ refl (
          set_table-Agrees m s w.pointer _ a (
            All-overwrite IsReference _ w.start _ (a.elements w.pointer)
              (All-window IsReference _ v.start v.size (a.elements v.pointer))))))

elem_segment-Sound :
    (s : Machine) (index : ℕ) (seg : Segment Value)
    → get_elem? s.elem_segments index ≡ some seg
    → Sound (λ d. get_elem? s.elem_segments index ≡ some d) (elem_segment s index)
unfolding elem_segment
elem_segment-Sound s index seg h = Sound-ok _ seg (ground (arith, h)) h

pub table_init-Sound :
    (m : Module) (s : Machine) (index segment dst src size : ℕ) (t : ValueType) (e : ElementType)
    → HasTable m s index t
    → get_elem? m.elements segment ≡ some e
    → Agrees m s
    → Sound (Agrees m) (table_init s index segment dst src size)
unfolding table_init
table_init-Sound m s index segment dst src size t e has h a =
    let (seg, found) = a.elem_segments segment e h in
    Sound-bind (elem_segment s segment) _ (elem_segment-Sound s segment seg found) (λ d there.
      check_segment-Sound Error.elem_bounds d src size _ refl (
        Sound-bind (table s index dst size) _ (table-Sound m s index t has dst size) (λ w u.
          Sound-ok _ _ refl (
            set_table-Agrees m s w.pointer _ a (
              All-overwrite IsReference _ w.start _ (a.elements w.pointer)
                (All-window IsReference d.init src size (a.segment_elements segment d there)))))))

-- Dropping a segment leaves its references what they were.
drop-elements :
    (xs : List (Segment Value)) (i : ℕ) (d : Segment Value)
    → ((j : ℕ) (x : Segment Value) → get_elem? xs j ≡ some x → All IsReference x.init)
    → get_elem? xs i ≡ some d
    → (j : ℕ) (x : Segment Value) → get_elem? (set_elem xs i (drop_segment d)) j ≡ some x
    → All IsReference x.init
drop-elements xs i d a there j x h = elim (get_elem?-overwrite_one xs i (drop_segment d) j) [
  | inl same ↦ a j x (sym same ∙ h)
  | inr written ↦
      let same : drop_segment d ≡ x = cc in
      subst (λ (y : Segment Value). All IsReference y.init) same (a i d there)
]

pub elem_drop-Sound :
    (m : Module) (s : Machine) (segment : ℕ) (e : ElementType)
    → get_elem? m.elements segment ≡ some e
    → Agrees m s
    → Sound (Agrees m) (elem_drop s segment)
unfolding elem_drop
elem_drop-Sound m s segment e h a =
    let (seg, found) = a.elem_segments segment e h in
    Sound-bind (elem_segment s segment) _ (elem_segment-Sound s segment seg found) (λ d there.
      Sound-ok _ _ refl (record {
        memories = a.memories;
        tables = a.tables;
        globals = a.globals;
        data_segments = a.data_segments;
        elem_segments = λ j f k.
            let (old, was) = a.elem_segments j f k in
            set_elem-some s.elem_segments segment (drop_segment d) j old was;
        elements = a.elements;
        segment_elements = drop-elements s.elem_segments segment d a.segment_elements there;
        global_values = a.global_values;
      }))
