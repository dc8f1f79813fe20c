-- ===== src/Vm/State/Windows.antt =====
-- When `memory` and `table` grant a window, and what a write through it does to each object.
use watgo.Common.{ℕ, ◌+◌, ◌<◌, ◌≤◌, ◌≡◌, ◌≢◌, ◌⊎◌, arith}
use watgo.Common.{false, some, ok, length, get_elem?, List}
use watgo.Common.Window.{window, window-overwrite, get_elem?-overwrite_inside}
use watgo.Common.Window.{length-overwrite, get_elem?-overwrite_before, get_elem?-overwrite_after}
use watgo.Common.{◌↔◌}
use watgo.Vm.Value.{Value, Error}
use watgo.Vm.State.{Segment, check_segment}
use watgo.Vm.State.{Machine, Slice, slice, memory, table, memory_inst, table_inst}
use watgo.Vm.State.{write_bytes, write_elems}

-- The memory that `index` names is the one at `p`, and the window lies inside it.
abbrev pub InMemory : Machine → ℕ → ℕ → ℕ → ℕ → Type 0
InMemory s index address size p =
    (get_elem? s.memories index ≡ some p) × (address + size ≤ length (s.memory_at p).bytes)

abbrev pub InTable : Machine → ℕ → ℕ → ℕ → ℕ → Type 0
InTable s index elem_index size p =
    (get_elem? s.tables index ≡ some p) × (elem_index + size ≤ length (s.table_at p).elems)

pub memory_inst-ok :
    (s : Machine) (index p : ℕ) → get_elem? s.memories index ≡ some p → memory_inst s index ≡ ok p
unfolding memory_inst
memory_inst-ok s index p h = ground (arith, h)

pub table_inst-ok :
    (s : Machine) (index p : ℕ) → get_elem? s.tables index ≡ some p → table_inst s index ≡ ok p
unfolding table_inst
table_inst-ok s index p h = ground (arith, h)

pub table_inst-inv :
    (s : Machine) (index p : ℕ) → table_inst s index ≡ ok p → get_elem? s.tables index ≡ some p
unfolding table_inst
table_inst-inv s index p h = ground arith

pub memory-granted :
    (s : Machine) (index address size p : ℕ)
    → InMemory s index address size p
    → memory s index address size ≡ ok (slice p address size)
unfolding memory
memory-granted s index address size p (h, b) = ground (arith, h)

pub memory-InMemory :
    (s : Machine) (index address size : ℕ) (w : Slice)
    → memory s index address size ≡ ok w
    → InMemory s index address size w.pointer × (w ≡ slice w.pointer address size)
unfolding memory
memory-InMemory s index address size w h = ground arith

pub table-granted :
    (s : Machine) (index elem_index size p : ℕ)
    → InTable s index elem_index size p
    → table s index elem_index size ≡ ok (slice p elem_index size)
unfolding table
table-granted s index elem_index size p (h, b) = ground (arith, h)

pub table-InTable :
    (s : Machine) (index elem_index size : ℕ) (w : Slice)
    → table s index elem_index size ≡ ok w
    → InTable s index elem_index size w.pointer × (w ≡ slice w.pointer elem_index size)
unfolding table
table-InTable s index elem_index size w h = ground arith

-- A byte or element that a write through the window of `index` cannot reach: one of another
-- object, or one before or after the window.
abbrev pub Apart : List ℕ → ℕ → ℕ → ℕ → ℕ → ℕ → Type 0
Apart pointers index start size q i =
    (get_elem? pointers index ≢ some q) ⊎ ((i < start) ⊎ (start + size ≤ i))

pub write_bytes-Apart :
    (s : Machine) (index address size p : ℕ) (bytes : List ℕ) (q i : ℕ)
    → InMemory s index address size p
    → length bytes ≡ size
    → Apart s.memories index address size q i
    → let s' = write_bytes s (slice p address size) bytes in
      (get_elem? (s'.memory_at q).bytes i ≡ get_elem? (s.memory_at q).bytes i)
      × (length (s'.memory_at q).bytes ≡ length (s.memory_at q).bytes)
write_bytes-Apart s index address size p bytes q i b h o = ground (
  arith,
  get_elem?-overwrite_before (s.memory_at p).bytes address bytes i,
  get_elem?-overwrite_after (s.memory_at p).bytes address bytes i,
  length-overwrite (s.memory_at p).bytes address bytes,
)

pub write_bytes-inside :
    (s : Machine) (index address size p : ℕ) (bytes : List ℕ) (i : ℕ)
    → InMemory s index address size p
    → length bytes ≡ size
    → i < size
    → get_elem? ((write_bytes s (slice p address size) bytes).memory_at p).bytes (address + i)
      ≡ get_elem? bytes i
write_bytes-inside s index address size p bytes i b h k =
    ground (arith, get_elem?-overwrite_inside (s.memory_at p).bytes address bytes i)

pub write_bytes-InMemory :
    (s : Machine) (index address size p : ℕ) (bytes : List ℕ)
    → InMemory s index address size p
    → InMemory (write_bytes s (slice p address size) bytes) index address size p
write_bytes-InMemory s index address size p bytes b =
    ground (arith, length-overwrite (s.memory_at p).bytes address bytes)

pub window-write_bytes :
    (s : Machine) (index address size p : ℕ) (bytes : List ℕ)
    → InMemory s index address size p
    → length bytes ≡ size
    → window ((write_bytes s (slice p address size) bytes).memory_at p).bytes address size ≡ bytes
window-write_bytes s index address size p bytes b h =
    ground (arith, window-overwrite (s.memory_at p).bytes address bytes)

pub write_elems-Apart :
    (s : Machine) (index start size p : ℕ) (elems : List Value) (q i : ℕ)
    → InTable s index start size p
    → length elems ≡ size
    → Apart s.tables index start size q i
    → let s' = write_elems s (slice p start size) elems in
      (get_elem? (s'.table_at q).elems i ≡ get_elem? (s.table_at q).elems i)
      × (length (s'.table_at q).elems ≡ length (s.table_at q).elems)
write_elems-Apart s index start size p elems q i b h o = ground (
  arith,
  get_elem?-overwrite_before (s.table_at p).elems start elems i,
  get_elem?-overwrite_after (s.table_at p).elems start elems i,
  length-overwrite (s.table_at p).elems start elems,
)

pub write_elems-inside :
    (s : Machine) (index start size p : ℕ) (elems : List Value) (i : ℕ)
    → InTable s index start size p
    → length elems ≡ size
    → i < size
    → get_elem? ((write_elems s (slice p start size) elems).table_at p).elems (start + i)
      ≡ get_elem? elems i
write_elems-inside s index start size p elems i b h k =
    ground (arith, get_elem?-overwrite_inside (s.table_at p).elems start elems i)

pub write_elems-InTable :
    (s : Machine) (index start size p : ℕ) (elems : List Value)
    → InTable s index start size p
    → InTable (write_elems s (slice p start size) elems) index start size p
write_elems-InTable s index start size p elems b =
    ground (arith, length-overwrite (s.table_at p).elems start elems)

pub window-write_elems :
    (s : Machine) (index start size p : ℕ) (elems : List Value)
    → InTable s index start size p
    → length elems ≡ size
    → window ((write_elems s (slice p start size) elems).table_at p).elems start size ≡ elems
window-write_elems s index start size p elems b h =
    ground (arith, window-overwrite (s.table_at p).elems start elems)

-- The part of a segment that an `init` may copy: nothing but the empty part once it is dropped.
abbrev pub InSegment {ℓ} : {A : Type ℓ} → Segment A → ℕ → ℕ → Type 0
InSegment seg offset size =
    (offset + size ≤ length seg.init) × ((seg.dropped ≡ false) ⊎ ((offset ≡ 0) × (size ≡ 0)))

pub check_segment_iff {ℓ} :
    {A : Type ℓ} (e : Error) (seg : Segment A) (offset size : ℕ)
    → (check_segment e seg offset size ≡ ok tt) ↔ InSegment seg offset size
unfolding check_segment
check_segment_iff e seg offset size = ground arith
