-- ===== src/Soundness/Machines.antt =====
-- internal/vm/instance.go: an instance that holds what the module declares, and the writes that keep
-- it so.
use watgo.Common.{ℕ, ◌<◌, ◌≡◌, ◌∙◌, arith, Bool, true, false, List}
use watgo.Common.{some, All, get_elem?, ◌==◌, if◌then◌else◌}
use watgo.Wasmir.{ValueType, Module, Limits, TableType, GlobalType, ElementType, is_ref}
use watgo.Validate.Values.{memory_address_type, table_address_type}
use watgo.Vm.Value.{Value, Fits}
use watgo.Vm.State.{Machine, Table, Segment, set_elems, set_memory, set_table}
use watgo.Vm.Globals.{set_global, with_value}

abbrev pub IsReference : Value → Type 0
IsReference v = is_ref v.type ≡ true

abbrev pub HasMemory : Module → Machine → ℕ → Type 0
HasMemory m s index =
    (p : ℕ) × (get_elem? s.memories index ≡ some p)
    × ((s.memory_at p).address_type ≡ memory_address_type m index)

abbrev pub HasTable : Module → Machine → ℕ → ValueType → Type 0
HasTable m s index ref_type =
    (p : ℕ) × (get_elem? s.tables index ≡ some p)
    × ((s.table_at p).address_type ≡ table_address_type m index)
    × ((s.table_at p).ref_type ≡ ref_type)
    × (is_ref ref_type ≡ true)

abbrev pub HasGlobal : Machine → ℕ → GlobalType → Type 0
HasGlobal s index g =
    (p : ℕ) × (get_elem? s.globals index ≡ some p)
    × ((s.global_at p).type ≡ g.type)
    × ((s.global_at p).mutable ≡ g.mutable)

-- Each memory, table, global and segment that the module declares is there, at its declared types;
-- the elements of every table and of every segment are references, and every global's value is of
-- its type.
pub record Agrees (m : Module) (s : Machine) : Type 0 where
  pub memories :
      (index : ℕ) (l : Limits) → get_elem? m.memories index ≡ some l → HasMemory m s index
  pub tables :
      (index : ℕ) (t : TableType)
      → get_elem? m.tables index ≡ some t
      → HasTable m s index t.ref_type
  pub globals :
      (index : ℕ) (g : GlobalType) → get_elem? m.globals index ≡ some g → HasGlobal s index g
  pub data_segments :
      (index : ℕ)
      → index < m.data_count
      → (d : Segment ℕ) × (get_elem? s.data_segments index ≡ some d)
  pub elem_segments :
      (index : ℕ) (e : ElementType)
      → get_elem? m.elements index ≡ some e
      → (d : Segment Value) × (get_elem? s.elem_segments index ≡ some d)
  pub elements : (p : ℕ) → All IsReference (s.table_at p).elems
  pub segment_elements :
      (index : ℕ) (d : Segment Value)
      → get_elem? s.elem_segments index ≡ some d
      → All IsReference d.init
  pub global_values : (p : ℕ) → Fits (s.global_at p).value.type (s.global_at p).type

put-address_type :
    (s : Machine) (p q : ℕ) (bytes : List ℕ)
    → ((set_memory s p bytes).memory_at q).address_type ≡ (s.memory_at q).address_type
put-address_type s p q bytes = ground arith

pub set_memory-HasMemory :
    (m : Module) (s : Machine) (p : ℕ) (bytes : List ℕ) (index : ℕ)
    → HasMemory m s index
    → HasMemory m (set_memory s p bytes) index
set_memory-HasMemory m s p bytes index (q, found, t) = (q, found, put-address_type s p q bytes ∙ t)

pub set_memory-Agrees :
    (m : Module) (s : Machine) (p : ℕ) (bytes : List ℕ)
    → Agrees m s
    → Agrees m (set_memory s p bytes)
set_memory-Agrees m s p bytes a = record {
  memories = λ index l h. set_memory-HasMemory m s p bytes index (a.memories index l h);
  tables = a.tables;
  globals = a.globals;
  data_segments = a.data_segments;
  elem_segments = a.elem_segments;
  elements = a.elements;
  segment_elements = a.segment_elements;
  global_values = a.global_values;
}

put-table :
    (s : Machine) (p q : ℕ) (elems : List Value)
    → let s' = set_table s p elems in
      ((s'.table_at q).address_type ≡ (s.table_at q).address_type)
      × ((s'.table_at q).ref_type ≡ (s.table_at q).ref_type)
put-table s p q elems = ground arith

if-elems :
    (b : Bool) (t u : Table)
    → All IsReference t.elems
    → All IsReference u.elems
    → All IsReference (if b then t else u).elems
if-elems true t u k l = k
if-elems false t u k l = l

put-elems :
    (s : Machine) (p q : ℕ) (elems : List Value)
    → All IsReference elems
    → All IsReference (s.table_at q).elems
    → All IsReference ((set_table s p elems).table_at q).elems
put-elems s p q elems a b = if-elems (q == p) (set_elems (s.table_at p) elems) (s.table_at q) a b

pub set_table-HasTable :
    (m : Module) (s : Machine) (p : ℕ) (elems : List Value) (index : ℕ) (t : ValueType)
    → HasTable m s index t
    → HasTable m (set_table s p elems) index t
set_table-HasTable m s p elems index t (q, found, addr, ref, is) =
    let (same_addr, same_ref) = put-table s p q elems in
    (q, found, same_addr ∙ addr, same_ref ∙ ref, is)

pub set_table-Agrees :
    (m : Module) (s : Machine) (p : ℕ) (elems : List Value)
    → Agrees m s
    → All IsReference elems
    → Agrees m (set_table s p elems)
set_table-Agrees m s p elems a refs = record {
  tables = λ index t h. set_table-HasTable m s p elems index t.ref_type (a.tables index t h);
  elements = λ q. put-elems s p q elems refs (a.elements q);
  memories = a.memories;
  globals = a.globals;
  data_segments = a.data_segments;
  elem_segments = a.elem_segments;
  segment_elements = a.segment_elements;
  global_values = a.global_values;
}

put-global :
    (s : Machine) (p q : ℕ) (v : Value)
    → let s' = set_global s p (with_value (s.global_at p) v) in
      ((s'.global_at q).type ≡ (s.global_at q).type)
      × ((s'.global_at q).mutable ≡ (s.global_at q).mutable)
put-global s p q v = ground arith

put-value :
    (s : Machine) (p q : ℕ) (v : Value)
    → let s' = set_global s p (with_value (s.global_at p) v) in
      Fits v.type (s.global_at p).type
      → Fits (s.global_at q).value.type (s.global_at q).type
      → Fits (s'.global_at q).value.type (s'.global_at q).type
put-value s p q v f g = ground arith

pub set_global-Agrees :
    (m : Module) (s : Machine) (p : ℕ) (v : Value)
    → Agrees m s
    → Fits v.type (s.global_at p).type
    → Agrees m (set_global s p (with_value (s.global_at p) v))
set_global-Agrees m s p v a f = record {
  globals = λ index g h.
      let (q, found, t, mut) = a.globals index g h in
      let (same_type, same_mutable) = put-global s p q v in
      (q, found, same_type ∙ t, same_mutable ∙ mut);
  global_values = λ q. put-value s p q v f (a.global_values q);
  memories = a.memories;
  tables = a.tables;
  data_segments = a.data_segments;
  elem_segments = a.elem_segments;
  elements = a.elements;
  segment_elements = a.segment_elements;
}
