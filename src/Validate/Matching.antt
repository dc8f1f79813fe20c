-- ===== src/Validate/Matching.antt =====
-- internal/validate/validate.go: when one reference type may stand for another.
use watgo.Common.{ℕ, ◌≡◌, arith, Bool, true, false}
use watgo.Wasmir.{HeapKind, Module, TypeDefKind, ref_type, ref_type_indexed}
use watgo.Wasmir.Equality.{same_value_type, same_heap_kind}
use watgo.Wasmir.Equality.{same_value_kind}
use watgo.Validate.Values.{matches_ref_type, heap_type_matches, type_index_has_kind}

-- For every module: a null reference matches each struct type's index, and such an index matches the
-- abstract struct type, but a null reference does not match that type; and a function type's index
-- matches both `any` and `func`.
pub matches_ref_type-gaps :
    (m : Module) (sub : ℕ → ℕ → Bool) (s f : ℕ)
    → type_index_has_kind m s TypeDefKind.struct ≡ true
    → type_index_has_kind m f TypeDefKind.func ≡ true
    → (matches_ref_type m sub (ref_type HeapKind.none true) (ref_type_indexed s true) ≡ true)
      × (matches_ref_type m sub (ref_type_indexed s true) (ref_type HeapKind.struct true) ≡ true)
      × (matches_ref_type m sub (ref_type HeapKind.none true) (ref_type HeapKind.struct true)
          ≡ false)
      × (matches_ref_type m sub (ref_type_indexed f true) (ref_type HeapKind.any true) ≡ true)
      × (matches_ref_type m sub (ref_type_indexed f true) (ref_type HeapKind.func true) ≡ true)
unfolding matches_ref_type heap_type_matches same_value_type same_value_kind same_heap_kind
matches_ref_type-gaps m sub s f h k = ground (arith, h, k)
