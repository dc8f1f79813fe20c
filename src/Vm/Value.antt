-- ===== src/Vm/Value.antt =====
-- internal/vm/execute.go: run-time values and references, and the checks of their types.
use watgo.Common.{ℕ, Bool, true, ◌&&◌, List, [], ◌∷◌, Result, ok}
use watgo.Common.{suc, ap, ◌≡◌, ◌↔◌, ◌⊎◌, refl, arith, if◌then◌else◌, length, ◌==◌, guard, ◌>>◌}
use watgo.Wasmir.{ValueType, value_type_i32, is_ref}
use watgo.Wasmir.Equality.{same_value_type, same_value_type_self, same_value_type-eq}

-- One constructor for each message of the operations that are modelled.
pub data Error : Type 0 where
  argument_count argument_type result_count result_type : Error
  unsupported_address_type minimum_too_large table_limit : Error
  not_a_reference non_nullable_table global_immutable global_mutable : Error
  memory_index table_index global_index data_index elem_index : Error
  memory_bounds table_bounds data_bounds elem_bounds unsupported_size : Error
  address_overflow stack_underflow operand_type : Error
  divide_by_zero integer_overflow unsupported_instruction : Error
  label_index label_target label_underflow local_index : Error

pub data RefKind : Type 0 where
  null func extern exn i31 struct array : RefKind

-- A Go pointer (`funcInst`, `externValue`, `gc`) is a number that names its target.
pub record Reference : Type 0 where
  pub kind : RefKind
  pub func_index : ℕ
  pub func_inst : ℕ
  pub extern_id : ℕ
  pub extern_value : ℕ
  pub exn_id : ℕ
  pub i31 : ℕ
  pub gc : ℕ

-- The numeric payloads are the bit patterns, of 32 or 64 bits.
pub record Value : Type 0 where
  pub type : ValueType
  pub i32 : ℕ
  pub i64 : ℕ
  pub f32 : ℕ
  pub f64 : ℕ
  pub v128 : List ℕ
  pub ref : Reference

abbrev pub no_reference : Reference
no_reference = record {
  kind = RefKind.null;
  func_index = 0;
  func_inst = 0;
  extern_id = 0;
  extern_value = 0;
  exn_id = 0;
  i31 = 0;
  gc = 0;
}

-- `Value{Type: vt}`, every payload at Go's zero value.
abbrev pub zero_value : ValueType → Value
zero_value vt = record {
  type = vt;
  i32 = 0;
  i64 = 0;
  f32 = 0;
  f64 = 0;
  v128 = [];
  ref = no_reference;
}

abbrev pub i32_value : ℕ → Value
i32_value n = record (zero_value value_type_i32) { i32 = n }

unfoldable pub runtime_type_matches : ValueType → ValueType → Bool
runtime_type_matches got want = if same_value_type got want then true else is_ref got && is_ref want

-- The loop of `checkArgs` and `checkResults`, over lists of one length.
types_match : List ValueType → List Value → Bool
unfolding runtime_type_matches
types_match (want ∷ wants) (v ∷ vs) = runtime_type_matches v.type want && types_match wants vs
types_match _ _ = true

unfoldable pub check_args : List ValueType → List Value → Result Error (Unit {0})
unfolding types_match
check_args params args =
    guard (length args == length params) Error.argument_count
    >> guard (types_match params args) Error.argument_type

unfoldable pub check_results : List ValueType → List Value → Result Error (Unit {0})
unfolding types_match
check_results want got =
    guard (length got == length want) Error.result_count
    >> guard (types_match want got) Error.result_type

-- What both checks decide: one value for each type, and each of a type that may stand there.
abbrev pub Fits : ValueType → ValueType → Type 0
Fits got want = (got ≡ want) ⊎ ((is_ref got ≡ true) × (is_ref want ≡ true))

abbrev pub AllFit : List ValueType → List Value → Type 0
AllFit [] [] = Unit
AllFit (want ∷ wants) (v ∷ vs) = Fits v.type want × AllFit wants vs
AllFit _ _ = ⊥

runtime_type_matches_iff :
    (got want : ValueType) → (runtime_type_matches got want ≡ true) ↔ Fits got want
unfolding runtime_type_matches
runtime_type_matches_iff got want =
    ground (arith, same_value_type-eq got want, same_value_type_self want)

types_match-AllFit :
    (params : List ValueType) (args : List Value)
    → length args ≡ length params
    → (types_match params args ≡ true) ↔ AllFit params args
unfolding types_match
types_match-AllFit [] [] h = ground arith
types_match-AllFit [] (v ∷ vs) h = absurd (omega arith)
types_match-AllFit (p ∷ ps) [] h = absurd (omega arith)
types_match-AllFit (p ∷ ps) (v ∷ vs) h =
    let head = runtime_type_matches_iff v.type p in
    let tail = types_match-AllFit ps vs (omega arith) in ground (arith, head, tail)

pub AllFit-length :
    (params : List ValueType) (args : List Value) → AllFit params args → length args ≡ length params
AllFit-length [] [] h = refl
AllFit-length [] (v ∷ vs) h = absurd h
AllFit-length (p ∷ ps) [] h = absurd h
AllFit-length (p ∷ ps) (v ∷ vs) h = ap suc (AllFit-length ps vs h.1)

-- Arguments are accepted exactly when there is one of a fitting type for each parameter, and so
-- are results.
pub check_args_iff :
    (params : List ValueType) (args : List Value)
    → ((check_args params args ≡ ok tt) ↔ AllFit params args)
      × ((check_results params args ≡ ok tt) ↔ AllFit params args)
unfolding check_args check_results
check_args_iff params args =
    ground (arith, types_match-AllFit params args, AllFit-length params args)
