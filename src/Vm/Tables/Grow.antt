-- ===== src/Vm/Tables/Grow.antt =====
-- `tableGrow` and the tables' invariant: when a table grows, what it holds then, and that every
-- element keeps fitting the table's type.
use watgo.Common.{ℕ, ◌+◌, ◌≤◌, ◌≡◌, ◌↔◌, ◌⊎◌, inl, inr, refl, arith}
use watgo.Common.{true, false, Bool-cases, some, ◌++◌, ok}
use watgo.Common.{length, get_elem?, replicate}
use watgo.Vm.Value.{Value}
use watgo.Vm.State.{Machine, Table, set_table}
use watgo.Vm.State.Windows.{table_inst-ok}
use watgo.Vm.Tables.{table_grow, can_grow_table, max_elements}
use watgo.Vm.Tables.{max_table_elements}
use watgo.Vm.Tables.Access.{FitsTable, check_one}

-- A size within the interpreter's limit and the table's own. The tests against 32 bits and against
-- the largest int never decide: the interpreter's limit is below both.
abbrev pub RoomForElems : Table → ℕ → Type 0
RoomForElems t size = (size ≤ max_table_elements) × (size ≤ max_elements t)

can_grow_table_iff :
    (t : Table) (size delta : ℕ)
    → (can_grow_table t size delta ≡ true) ↔ RoomForElems t (size + delta)
unfolding can_grow_table
can_grow_table_iff t size delta = ground arith

-- A grow by a value that fits succeeds: it gives the old size, and either there is room and the
-- table then holds its old elements and copies of the value after them, or nothing changes.
pub table_grow-cases :
    (s : Machine) (index p : ℕ) (init : Value) (delta : ℕ)
    → get_elem? s.tables index ≡ some p
    → FitsTable s p init
    → let t = s.table_at p in
      let size = length t.elems in
      (RoomForElems t (size + delta)
        × (table_grow s index init delta
            ≡ ok (size, true, set_table s p (t.elems ++ replicate delta init))))
      ⊎ ((¬ RoomForElems t (size + delta)) × (table_grow s index init delta ≡ ok (size, false, s)))
unfolding table_grow
table_grow-cases s index p init delta hp f =
    let t = s.table_at p in
    let size = length t.elems in
    let found = table_inst-ok s index p hp in
    let fits = (check_one s p init).1 f in
    elim (Bool-cases (can_grow_table t size delta)) [
      | inl h ↦ inl ((can_grow_table_iff t size delta).0 h, rw (found, fits, h) refl)
      | inr h ↦ inr (
        λ room. let yes = (can_grow_table_iff t size delta).1 room in cc,
        rw (found, fits, h) refl,
      )
    ]
