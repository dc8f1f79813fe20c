-- ===== src/Vm/Memories/Valid.antt =====
-- Every operation on memories keeps each memory valid: whole pages of bytes, within its limit.
use watgo.Common.{ℕ, ◌*◌, ◌/◌, ◌≤◌, ◌≡◌, inl, inr, arith, ltb, ◌==◌}
use watgo.Common.{Bool, Bool-cases, some, List, ok, >>=-ok}
use watgo.Common.{
  length, get_elem?, replicate, length-replicate, All, All-replicate, guard, guard-eq-ok, not,
}
use watgo.Common.Window.{window, overwrite, length-overwrite, All-window, All-overwrite}
use watgo.Binary.Reader.{IsByte}
use watgo.Wasmir.{Limits}
use watgo.Vm.State.{
  Machine, Memory, Segment, slice, data_segment, write_bytes, set_memory, set_data,
}
use watgo.Vm.Memories.{memory_store, memory_copy, memory_fill, memory_init, memory_grow, max_pages}
use watgo.Vm.Memories.{new_memory, is_address_type, initial_memory, page_size, max_int, to_le}
use watgo.Vm.Memories.Bytes.{to_le-All}
use watgo.Vm.Memories.Access.{memory_store-inv}
use watgo.Vm.Memories.Bulk.{memory_copy-inv, memory_fill-inv, memory_init-inv}
use watgo.Vm.Memories.Grow.{IsValid, memory_grow-cases, grown_memory-IsValid, grown_memory}

abbrev pub AllValid : Machine → Type 0
AllValid s = (p : ℕ) → IsValid (s.memory_at p)

set_data-IsValid :
    (mem : Memory) (bytes : List ℕ)
    → IsValid mem
    → length bytes ≡ length mem.bytes
    → All IsByte bytes
    → IsValid (set_data mem bytes)
unfolding max_pages
set_data-IsValid mem bytes v h a = record {
  pages = v.pages;
  whole = omega (arith, v.whole);
  bounded = v.bounded;
  addressable = v.addressable;
  all_bytes = a;
}

set_memory-AllValid :
    (s : Machine) (p : ℕ) (bytes : List ℕ)
    → AllValid s
    → IsValid (set_data (s.memory_at p) bytes)
    → AllValid (set_memory s p bytes)
set_memory-AllValid s p bytes v h q = elim (Bool-cases (q == p)) [
  | inl e ↦ rw e h
  | inr e ↦ rw e (v q)
]

write_bytes-AllValid :
    (s : Machine) (p start size : ℕ) (bytes : List ℕ)
    → AllValid s
    → All IsByte bytes
    → AllValid (write_bytes s (slice p start size) bytes)
write_bytes-AllValid s p start size bytes v a =
    let old = (s.memory_at p).bytes in
    set_memory-AllValid s p (overwrite old start bytes) v (
      set_data-IsValid (s.memory_at p) (overwrite old start bytes) (v p)
        (length-overwrite old start bytes) (All-overwrite IsByte old start bytes (v p).all_bytes a))

-- A store keeps every memory valid.
pub memory_store-AllValid :
    (s : Machine) (index address size value : ℕ) (s' : Machine)
    → AllValid s
    → memory_store s index address size value ≡ ok s'
    → AllValid s'
memory_store-AllValid s index address size value s' v h =
    let (p, b, c, e) = memory_store-inv s index address size value s' h in
    rw e (write_bytes-AllValid s p address size (to_le size value) v (to_le-All size value))

-- A copy keeps every memory valid.
pub memory_copy-AllValid :
    (s : Machine) (dst_index dst src_index src size : ℕ) (s' : Machine)
    → AllValid s
    → memory_copy s dst_index dst src_index src size ≡ ok s'
    → AllValid s'
memory_copy-AllValid s dst_index dst src_index src size s' v h =
    let (p, q, b, b', e) = memory_copy-inv s dst_index dst src_index src size s' h in
    let bytes = window (s.memory_at q).bytes src size in
    let a = All-window IsByte (s.memory_at q).bytes src size (v q).all_bytes in
    rw e (write_bytes-AllValid s p dst size bytes v a)

-- A fill with a byte keeps every memory valid.
pub memory_fill-AllValid :
    (s : Machine) (index address size value : ℕ) (s' : Machine)
    → AllValid s
    → IsByte value
    → memory_fill s index address size value ≡ ok s'
    → AllValid s'
memory_fill-AllValid s index address size value s' v k h =
    let (p, b, e) = memory_fill-inv s index address size value s' h in
    let a = All-replicate IsByte size value k in
    rw e (write_bytes-AllValid s p address size (replicate size value) v a)

-- An init from a segment of bytes keeps every memory valid.
pub memory_init-AllValid :
    (s : Machine) (index data_index dst src size : ℕ) (s' : Machine) (seg : Segment ℕ)
    → AllValid s
    → data_segment s data_index ≡ ok seg
    → All IsByte seg.init
    → memory_init s index data_index dst src size ≡ ok s'
    → AllValid s'
memory_init-AllValid s index data_index dst src size s' seg v hs k h =
    let (seg₁, p, h', c, b, e) = memory_init-inv s index data_index dst src size s' h in
    let same : seg₁ ≡ seg = cc in
    let a = All-window IsByte seg.init src size k in
    rw (e, same) (write_bytes-AllValid s p dst size (window seg.init src size) v a)

-- A grow, refused or not, keeps every memory valid.
pub memory_grow-AllValid :
    (s : Machine) (index delta p old : ℕ) (grown : Bool) (s' : Machine)
    → AllValid s
    → get_elem? s.memories index ≡ some p
    → memory_grow s index delta ≡ ok (old, grown, s')
    → AllValid s'
memory_grow-AllValid s index delta p old grown s' v hp h =
    let mem = s.memory_at p in
    elim (memory_grow-cases s index delta p hp (v p)) [
      | inl (room, e) ↦
          let same : s' ≡ set_memory s p (grown_memory mem delta).bytes = cc in
          rw same (
            set_memory-AllValid s p (grown_memory mem delta).bytes v
              (grown_memory-IsValid mem delta (v p) room))
      | inr (_, e) ↦ let same : s' ≡ s = cc in rw same v
    ]

-- A new memory is valid when its minimum is not above the limit that its type sets.
pub new_memory-IsValid :
    (m : Limits) (mem : Memory) → new_memory m ≡ ok mem → m.min ≤ max_pages mem → IsValid mem
unfolding new_memory max_pages
new_memory-IsValid m mem h k =
    let (_, h₁, h₂) = >>=-ok (guard (is_address_type m.address_type) _) _ h in
    let (_, h₃, h₄) = >>=-ok (guard (not (ltb (max_int / page_size) m.min)) _) _ h₂ in
    let small = guard-eq-ok (not (ltb (max_int / page_size) m.min)) _ h₃ in
    let same : mem ≡ initial_memory m = cc in
    rw same record {
      pages = m.min;
      whole = length-replicate {A = ℕ} (m.min * page_size) 0;
      bounded = rw same at k;
      addressable = ground (arith, small);
      all_bytes = All-replicate IsByte (m.min * page_size) 0 (omega arith);
    }
