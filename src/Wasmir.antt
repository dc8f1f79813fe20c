-- ===== src/Wasmir.antt =====
-- wasmir/module.go: value types, field types and limits of the semantic IR.
pub mod Equality
pub mod Instr
use watgo.Common.{ℕ, Bool, true, false, ◌&&◌, Option, List}

pub data ValueKind : Type 0 where
  invalid i32 i64 f32 f64 v128 ref : ValueKind

pub data HeapKind : Type 0 where
  invalid func extern none no_extern no_func exn no_exn any eq i31 array struct type_index :
      HeapKind

pub record HeapType : Type 0 where
  pub kind : HeapKind
  pub index : ℕ

pub record ValueType : Type 0 where
  pub kind : ValueKind
  pub nullable : Bool
  pub heap_type : HeapType

-- Go's zero value of a struct.
abbrev pub no_heap_type : HeapType
no_heap_type = record { kind = HeapKind.invalid; index = 0 }

abbrev pub number_type : ValueKind → ValueType
number_type k = record { kind = k; nullable = false; heap_type = no_heap_type }

abbrev pub value_type_i32 : ValueType
value_type_i32 = number_type ValueKind.i32

abbrev pub value_type_i64 : ValueType
value_type_i64 = number_type ValueKind.i64

abbrev pub value_type_f32 : ValueType
value_type_f32 = number_type ValueKind.f32

abbrev pub value_type_f64 : ValueType
value_type_f64 = number_type ValueKind.f64

abbrev pub value_type_v128 : ValueType
value_type_v128 = number_type ValueKind.v128

abbrev pub invalid_type : ValueType
invalid_type = number_type ValueKind.invalid

-- `RefTypeFunc(nullable)` to `RefTypeStruct(nullable)`: one function over the heap kind.
abbrev pub ref_type : HeapKind → Bool → ValueType
ref_type k nullable = record {
  kind = ValueKind.ref;
  nullable = nullable;
  heap_type = record { kind = k; index = 0 };
}

abbrev pub ref_type_indexed : ℕ → Bool → ValueType
ref_type_indexed i nullable = record {
  kind = ValueKind.ref;
  nullable = nullable;
  heap_type = record { kind = HeapKind.type_index; index = i };
}

abbrev is_ref_kind : ValueKind → Bool
is_ref_kind ValueKind.ref = true
is_ref_kind _ = false

abbrev is_index_kind : HeapKind → Bool
is_index_kind HeapKind.type_index = true
is_index_kind _ = false

abbrev pub is_ref : ValueType → Bool
is_ref vt = is_ref_kind vt.kind

abbrev pub uses_type_index : ValueType → Bool
uses_type_index vt = is_ref vt && is_index_kind vt.heap_type.kind

-- The part of `wasmir.Memory` and `wasmir.Table` that says how large the object may be.
pub record Limits : Type 0 where
  pub address_type : ValueType
  pub min : ℕ
  pub max : Option ℕ

pub data PackedType : Type 0 where
  none i8 i16 : PackedType

-- The names of types and fields are left out: they are for printing.
pub record FieldType : Type 0 where
  pub type : ValueType
  pub packed : PackedType
  pub mutable : Bool

pub data TypeDefKind : Type 0 where
  func struct array : TypeDefKind

pub record TypeDef : Type 0 where
  pub rec_group_size : ℕ
  pub sub_type : Bool
  pub final : Bool
  pub super_types : List ℕ
  pub kind : TypeDefKind
  pub params : List ValueType
  pub results : List ValueType
  pub fields : List FieldType
  pub elem_field : FieldType

-- A table: its reference type beside its limits.
pub record TableType : Type 0 where
  pub limits : Limits
  pub ref_type : ValueType

pub record GlobalType : Type 0 where
  pub type : ValueType
  pub mutable : Bool

-- An element segment, as far as its type goes.
pub record ElementType : Type 0 where
  pub ref_type : ValueType
  pub func_count : ℕ

-- The part of `wasmir.Module` that says what the instructions of a body may name. A data segment
-- counts, and nothing else of it.
pub record Module : Type 0 where
  pub types : List TypeDef
  pub memories : List Limits
  pub tables : List TableType
  pub globals : List GlobalType
  pub elements : List ElementType
  pub data_count : ℕ
