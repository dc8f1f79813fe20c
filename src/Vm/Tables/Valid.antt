-- ===== src/Vm/Tables/Valid.antt =====
-- Every operation on tables keeps each table valid: a size within its limits, and elements that
-- fit its type.
use watgo.Common.{ℕ, ◌≤◌, ◌≡◌, inl, inr, ◌∙◌, sym, arith, ◌==◌, ltb, guard, not}
use watgo.Common.{Bool, true, Bool-cases, some, List, [], ◌∷◌, ◌++◌, ok, >>=-ok, guard-eq-ok}
use watgo.Common.{
  length, get_elem?, replicate, length-replicate, length-append, All, All-append, All-replicate,
}
use watgo.Common.Window.{window, overwrite, length-overwrite, All-window, All-overwrite}
use watgo.Wasmir.{Limits, ValueType, is_ref}
use watgo.Vm.Value.{Value, Fits, check_args_iff, check_results}
use watgo.Vm.State.{Machine, Table, slice, set_table, set_elems, write_elems}
use watgo.Vm.Memories.{is_address_type}
use watgo.Vm.Tables.{table_grow, table_set, table_fill, table_copy, max_elements, initial_table}
use watgo.Vm.Tables.{max_table_elements, new_table, new_table_with, zero_table_value}
use watgo.Vm.Tables.Access.{FitsTable, table_fill-inv, table_set-table_fill}
use watgo.Vm.Tables.Bulk.{table_copy-inv}
use watgo.Vm.Tables.Grow.{RoomForElems, table_grow-cases}

abbrev pub FitsType : ValueType → Value → Type 0
FitsType ref_type v = Fits v.type ref_type

pub record IsValidTable (t : Table) : Type 0 where
  pub ref_typed : is_ref t.ref_type ≡ true
  pub bounded : RoomForElems t (length t.elems)
  pub all_fit : All (FitsType t.ref_type) t.elems

abbrev pub AllValidTables : Machine → Type 0
AllValidTables s = (p : ℕ) → IsValidTable (s.table_at p)

set_elems-IsValidTable :
    (t : Table) (elems : List Value)
    → IsValidTable t
    → RoomForElems t (length elems)
    → All (FitsType t.ref_type) elems
    → IsValidTable (set_elems t elems)
unfolding max_elements
set_elems-IsValidTable t elems v r a = record { ref_typed = v.ref_typed; bounded = r; all_fit = a }

set_table-AllValidTables :
    (s : Machine) (p : ℕ) (elems : List Value)
    → AllValidTables s
    → RoomForElems (s.table_at p) (length elems)
    → All (FitsType (s.table_at p).ref_type) elems
    → AllValidTables (set_table s p elems)
set_table-AllValidTables s p elems v r a q = elim (Bool-cases (q == p)) [
  | inl e ↦ rw e (set_elems-IsValidTable (s.table_at p) elems (v p) r a)
  | inr e ↦ rw e (v q)
]

write_elems-AllValidTables :
    (s : Machine) (p start size : ℕ) (elems : List Value)
    → AllValidTables s
    → All (FitsType (s.table_at p).ref_type) elems
    → AllValidTables (write_elems s (slice p start size) elems)
write_elems-AllValidTables s p start size elems v a =
    let t = s.table_at p in
    let n = length-overwrite t.elems start elems in
    set_table-AllValidTables s p (overwrite t.elems start elems) v (rw n ((v p).bounded))
      (All-overwrite (FitsType t.ref_type) t.elems start elems (v p).all_fit a)

-- A fill keeps every table valid.
pub table_fill-AllValidTables :
    (s : Machine) (index start size : ℕ) (value : Value) (s' : Machine)
    → AllValidTables s
    → table_fill s index start size value ≡ ok s'
    → AllValidTables s'
table_fill-AllValidTables s index start size value s' v h =
    let (p, b, f, e) = table_fill-inv s index start size value s' h in
    let a = All-replicate (FitsType (s.table_at p).ref_type) size value f in
    rw e (write_elems-AllValidTables s p start size (replicate size value) v a)

-- A `table.set` keeps every table valid.
pub table_set-AllValidTables :
    (s : Machine) (index i : ℕ) (value : Value) (s' : Machine)
    → AllValidTables s
    → table_set s index i value ≡ ok s'
    → AllValidTables s'
table_set-AllValidTables s index i value s' v h =
    table_fill-AllValidTables s index i 1 value s' v
      (sym (table_set-table_fill s index i value) ∙ h)

fits_other :
    (got src dst : ValueType) → is_ref src ≡ true → is_ref dst ≡ true → Fits got src → Fits got dst
fits_other got src dst h k (inl e) = inr (rw e h, k)
fits_other got src dst h k (inr (r, _)) = inr (r, k)

others_fit :
    (src dst : ValueType) (elems : List Value)
    → is_ref src ≡ true
    → is_ref dst ≡ true
    → All (FitsType src) elems
    → All (FitsType dst) elems
others_fit src dst [] h k a = tt
others_fit src dst (v ∷ vs) h k (f, a) =
    (fits_other v.type src dst h k f, others_fit src dst vs h k a)

-- A copy keeps every table valid.
pub table_copy-AllValidTables :
    (s : Machine) (dst_index dst src_index src size : ℕ) (s' : Machine)
    → AllValidTables s
    → table_copy s dst_index dst src_index src size ≡ ok s'
    → AllValidTables s'
table_copy-AllValidTables s dst_index dst src_index src size s' v h =
    let (p, q, b, b', e) = table_copy-inv s dst_index dst src_index src size s' h in
    let from = s.table_at q in
    let a = All-window (FitsType from.ref_type) from.elems src size (v q).all_fit in
    let elems = window from.elems src size in
    let a' =
      others_fit from.ref_type (s.table_at p).ref_type elems (v q).ref_typed (v p).ref_typed a in
    rw e (write_elems-AllValidTables s p dst size elems v a')

-- A grow by a value that fits, refused or not, keeps every table valid.
pub table_grow-AllValidTables :
    (s : Machine) (index p : ℕ) (init : Value) (delta old : ℕ) (grown : Bool) (s' : Machine)
    → AllValidTables s
    → get_elem? s.tables index ≡ some p
    → FitsTable s p init
    → table_grow s index init delta ≡ ok (old, grown, s')
    → AllValidTables s'
table_grow-AllValidTables s index p init delta old grown s' v hp f h =
    let t = s.table_at p in
    let elems = t.elems ++ replicate delta init in
    elim (table_grow-cases s index p init delta hp f) [
      | inl (room, e) ↦
          let same : s' ≡ set_table s p elems = cc in
          let n = length-append t.elems (replicate delta init) in
          let m = length-replicate delta init in
          let fits : RoomForElems t (length elems) = ground (arith, n, m, room) in
          let a =
            All-append (FitsType t.ref_type) t.elems (replicate delta init) (v p).all_fit
              (All-replicate (FitsType t.ref_type) delta init f) in
          rw same (set_table-AllValidTables s p elems v fits a)
      | inr (_, e) ↦ let same : s' ≡ s = cc in rw same v
    ]

-- A new table is valid when its minimum is not above its maximum.
pub new_table-IsValidTable :
    (m : Limits) (ref_type : ValueType) (t : Table)
    → new_table m ref_type ≡ ok t
    → m.min ≤ max_elements t
    → IsValidTable t
unfolding new_table new_table_with zero_table_value max_elements
new_table-IsValidTable m ref_type t h k =
    let (_, h₁, h₂) = >>=-ok (guard (is_address_type m.address_type) _) _ h in
    let (init, h₃, h₄) = >>=-ok (zero_table_value ref_type) _ h₂ in
    let (_, h₅, h₆) = >>=-ok (guard (is_ref ref_type) _) _ h₃ in
    let ref_typed = guard-eq-ok (is_ref ref_type) _ h₅ in
    let (_, h₇, h₈) = >>=-ok (guard (is_address_type m.address_type) _) _ h₄ in
    let (_, h₉, h₁₀) = >>=-ok (guard (not (ltb max_table_elements m.min)) _) _ h₈ in
    let small = guard-eq-ok (not (ltb max_table_elements m.min)) _ h₉ in
    let (_, h₁₁, h₁₂) = >>=-ok (check_results (ref_type ∷ []) (init ∷ [])) _ h₁₀ in
    let f = ((check_args_iff (ref_type ∷ []) (init ∷ [])).1.0 h₁₁).0 in
    let same : t ≡ initial_table m ref_type init = cc in
    let n = length-replicate m.min init in
    let room : RoomForElems (initial_table m ref_type init) (length (replicate m.min init)) =
      (ground (arith, small, n), rw n (rw same at k)) in
    rw same record {
      ref_typed = ref_typed;
      bounded = room;
      all_fit = All-replicate (FitsType ref_type) m.min init f;
    }
