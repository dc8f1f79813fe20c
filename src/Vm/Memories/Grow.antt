-- ===== src/Vm/Memories/Grow.antt =====
-- `memoryGrow` and `memorySize`: when a memory grows, and what it holds then.
use watgo.Common.{ℕ, ◌+◌, ◌-◌, ◌*◌, ◌/◌, ◌≤◌, ◌≡◌, ◌↔◌, ◌⊎◌, inl, inr, refl, arith}
use watgo.Common.{true, false, Bool-cases, some, List, ok}
use watgo.Common.{length, get_elem?, replicate, length-replicate, length-append}
use watgo.Common.{All-append, All-replicate, All, ◌++◌}
use watgo.Binary.Reader.{IsByte}
use watgo.Vm.State.{Machine, Memory, set_memory, set_data}
use watgo.Vm.State.Windows.{memory_inst-ok}
use watgo.Vm.Memories.{memory_grow, memory_size, can_grow, max_pages, page_size, max_int}

-- What every memory keeps: whole pages of bytes, no more of them than its limit.
pub record IsValid (mem : Memory) : Type 0 where
  pub pages : ℕ
  pub whole : length mem.bytes ≡ pages * page_size
  pub bounded : pages ≤ max_pages mem
  pub addressable : pages ≤ max_int / page_size
  pub all_bytes : All IsByte mem.bytes

-- The size that a growth by `delta` gives is within the memory's limit and the address space.
abbrev pub RoomFor : Memory → ℕ → Type 0
RoomFor mem pages = (pages ≤ max_pages mem) × (pages ≤ max_int / page_size)

can_grow_iff :
    (mem : Memory) (pages delta : ℕ)
    → (can_grow mem pages delta ≡ true) ↔ RoomFor mem (pages + delta)
unfolding can_grow
can_grow_iff mem pages delta = ground arith

-- The memory after its growth by `delta` pages: the old bytes, then zeros.
abbrev pub grown_memory : Memory → ℕ → Memory
grown_memory mem delta = set_data mem (mem.bytes ++ replicate (delta * page_size) 0)

grown_length :
    (mem : Memory) (delta : ℕ)
    → IsValid mem
    → (length mem.bytes / page_size + delta) * page_size - length mem.bytes ≡ delta * page_size
grown_length mem delta v = omega (arith, v.whole)

-- On a valid memory, a grow succeeds: it gives the old size in pages, and either there is room and
-- the memory then holds the old bytes and zeros after them, or there is none and nothing changes.
pub memory_grow-cases :
    (s : Machine) (index delta p : ℕ)
    → get_elem? s.memories index ≡ some p
    → IsValid (s.memory_at p)
    → let mem = s.memory_at p in
      let pages = length mem.bytes / page_size in
      (RoomFor mem (pages + delta)
        × (memory_grow s index delta
            ≡ ok (pages, true, set_memory s p (mem.bytes ++ replicate (delta * page_size) 0))))
      ⊎ ((¬ RoomFor mem (pages + delta)) × (memory_grow s index delta ≡ ok (pages, false, s)))
unfolding memory_grow
memory_grow-cases s index delta p hp v =
    let mem = s.memory_at p in
    let pages = length mem.bytes / page_size in
    let found = memory_inst-ok s index p hp in
    elim (Bool-cases (can_grow mem pages delta)) [
      | inl h ↦
          inl ((can_grow_iff mem pages delta).0 h, rw (found, h, grown_length mem delta v) refl)
      | inr h ↦
          inr (λ room. let yes = (can_grow_iff mem pages delta).1 room in cc, rw (found, h) refl)
    ]

pub grown_memory-IsValid :
    (mem : Memory) (delta : ℕ)
    → IsValid mem
    → RoomFor mem (length mem.bytes / page_size + delta)
    → IsValid (grown_memory mem delta)
unfolding max_pages
grown_memory-IsValid mem delta v (b, c) = record {
  pages = v.pages + delta;
  whole = ground (
    arith,
    v.whole,
    length-append mem.bytes (replicate (delta * page_size) 0),
    length-replicate {A = ℕ} (delta * page_size) 0,
  );
  bounded = omega (arith, v.whole);
  addressable = omega (arith, v.whole);
  all_bytes =
      All-append IsByte mem.bytes (replicate (delta * page_size) 0) v.all_bytes
        (All-replicate IsByte (delta * page_size) 0 (omega arith));
}

pages-grown :
    (mem : Memory) (delta : ℕ)
    → IsValid mem
    → length (grown_memory mem delta).bytes / page_size ≡ length mem.bytes / page_size + delta
pages-grown mem delta v = omega (
  arith,
  v.whole,
  length-append mem.bytes (replicate (delta * page_size) 0),
  length-replicate {A = ℕ} (delta * page_size) 0,
)

memory_size-set :
    (s : Machine) (index p : ℕ) (bytes : List ℕ)
    → get_elem? s.memories index ≡ some p
    → memory_size (set_memory s p bytes) index ≡ ok (length bytes / page_size)
unfolding memory_size
memory_size-set s index p bytes hp =
    rw (memory_inst-ok (set_memory s p bytes) index p hp) (ground arith)

memory_size-ok :
    (s : Machine) (index p : ℕ)
    → get_elem? s.memories index ≡ some p
    → memory_size s index ≡ ok (length (s.memory_at p).bytes / page_size)
unfolding memory_size
memory_size-ok s index p hp = rw (memory_inst-ok s index p hp) refl

-- The number of pages after a grow that succeeded is the old number and the pages asked for.
pub memory_size-memory_grow :
    (s : Machine) (index delta p old : ℕ) (s' : Machine)
    → get_elem? s.memories index ≡ some p
    → IsValid (s.memory_at p)
    → memory_grow s index delta ≡ ok (old, true, s')
    → (memory_size s index ≡ ok old) × (memory_size s' index ≡ ok (old + delta))
memory_size-memory_grow s index delta p old s' hp v h =
    let mem = s.memory_at p in
    elim (memory_grow-cases s index delta p hp v) [
      | inl (_, e) ↦
          let same_old : old ≡ length mem.bytes / page_size = cc in
          let same : s' ≡ set_memory s p (grown_memory mem delta).bytes = cc in
          (
            rw same_old (memory_size-ok s index p hp),
            rw (same, same_old, ← pages-grown mem delta v)
                (memory_size-set s index p (grown_memory mem delta).bytes hp),
          )
      | inr (_, e) ↦ absurd cc
    ]
