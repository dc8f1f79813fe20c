-- ===== src/Wasmir/Equality.antt =====
-- Go's `==` on the kinds and structs of wasmir/module.go.
use watgo.Common.{ℕ, ◌≡◌, Bool, true, false, ◌&&◌, ◌==◌, arith}
use watgo.Wasmir.{ValueKind, HeapKind, ValueType}

-- The numbers that `iota` gives the constants.
abbrev pub value_kind_code : ValueKind → ℕ
value_kind_code ValueKind.invalid = 0
value_kind_code ValueKind.i32 = 1
value_kind_code ValueKind.i64 = 2
value_kind_code ValueKind.f32 = 3
value_kind_code ValueKind.f64 = 4
value_kind_code ValueKind.v128 = 5
value_kind_code ValueKind.ref = 6

abbrev pub heap_kind_code : HeapKind → ℕ
heap_kind_code HeapKind.invalid = 0
heap_kind_code HeapKind.func = 1
heap_kind_code HeapKind.extern = 2
heap_kind_code HeapKind.none = 3
heap_kind_code HeapKind.no_extern = 4
heap_kind_code HeapKind.no_func = 5
heap_kind_code HeapKind.exn = 6
heap_kind_code HeapKind.no_exn = 7
heap_kind_code HeapKind.any = 8
heap_kind_code HeapKind.eq = 9
heap_kind_code HeapKind.i31 = 10
heap_kind_code HeapKind.array = 11
heap_kind_code HeapKind.struct = 12
heap_kind_code HeapKind.type_index = 13

abbrev same_bool : Bool → Bool → Bool
same_bool true b = b
same_bool false true = false
same_bool false false = true

unfoldable pub same_value_kind : ValueKind → ValueKind → Bool
same_value_kind a b = value_kind_code a == value_kind_code b

unfoldable pub same_heap_kind : HeapKind → HeapKind → Bool
same_heap_kind a b = heap_kind_code a == heap_kind_code b

unfoldable pub same_value_type : ValueType → ValueType → Bool
unfolding same_value_kind same_heap_kind
same_value_type a b =
    same_value_kind a.kind b.kind
    && same_bool a.nullable b.nullable
    && same_heap_kind a.heap_type.kind b.heap_type.kind
    && (a.heap_type.index == b.heap_type.index)

pub same_value_kind-eq : (a b : ValueKind) → same_value_kind a b ≡ true → a ≡ b
unfolding same_value_kind
same_value_kind-eq a b h = ground arith

pub same_heap_kind-eq : (a b : HeapKind) → same_heap_kind a b ≡ true → a ≡ b
unfolding same_heap_kind
same_heap_kind-eq a b h = ground arith

pub same_value_type-eq : (a b : ValueType) → same_value_type a b ≡ true → a ≡ b
unfolding same_value_type
same_value_type-eq a b h =
    ground
      (arith, same_value_kind-eq a.kind b.kind, same_heap_kind-eq a.heap_type.kind b.heap_type.kind)

pub same_value_type_self : (a : ValueType) → same_value_type a a ≡ true
unfolding same_value_type
same_value_type_self a = ground arith
