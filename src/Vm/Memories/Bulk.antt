-- ===== src/Vm/Memories/Bulk.antt =====
-- `memoryCopy`, `memoryFill` and `memoryInit`: the bytes that each leaves in the window, also when
-- the windows overlap or are shared, and when each succeeds.
use watgo.Common.{ℕ, ◌+◌, ◌<◌, ◌≡◌, ◌↔◌, refl, ap, ◌∙◌}
use watgo.Common.{some, ok, IsOk, IsOk-eq-ok, >>=-ok}
use watgo.Common.{length, get_elem?, replicate, length-replicate, get_elem?-replicate}
use watgo.Common.Window.{window, length-window, get_elem?-window}
use watgo.Vm.State.{
  Machine, Segment, memory, check_segment, data_segment, slice, bytes_of, write_bytes,
}
use watgo.Vm.State.Windows.{Apart, InMemory, memory-granted, memory-InMemory, write_bytes-Apart}
use watgo.Vm.State.Windows.{write_bytes-inside, InSegment, check_segment_iff}
use watgo.Vm.Value.{Error}
use watgo.Vm.Memories.{memory_copy, memory_fill, memory_init}

abbrev copied : Machine → ℕ → ℕ → ℕ → ℕ → ℕ → Machine
copied s p dst q src size = write_bytes s (slice p dst size) (window (s.memory_at q).bytes src size)

pub memory_copy-inv :
    (s : Machine) (dst_index dst src_index src size : ℕ) (s' : Machine)
    → memory_copy s dst_index dst src_index src size ≡ ok s'
    → (p : ℕ) × (q : ℕ) × InMemory s dst_index dst size p
      × InMemory s src_index src size q
      × (s' ≡ copied s p dst q src size)
unfolding memory_copy
memory_copy-inv s dst_index dst src_index src size s' h =
    let (w, h₁, h₂) = >>=-ok (memory s dst_index dst size) _ h in
    let (v, h₃, h₄) = >>=-ok (memory s src_index src size) _ h₂ in
    let (b, e) = memory-InMemory s dst_index dst size w h₁ in
    let (b', e') = memory-InMemory s src_index src size v h₃ in
    let same : s' ≡ write_bytes s w (bytes_of s v) = cc in
    (
      w.pointer,
      v.pointer,
      b,
      b',
      same
          ∙ ap (λ x. write_bytes s x (bytes_of s v)) e
          ∙ ap (λ y. write_bytes s (slice w.pointer dst size) (bytes_of s y)) e',
    )

memory_copy-ok :
    (s : Machine) (dst_index dst src_index src size p q : ℕ)
    → InMemory s dst_index dst size p
    → InMemory s src_index src size q
    → memory_copy s dst_index dst src_index src size ≡ ok (copied s p dst q src size)
unfolding memory_copy
memory_copy-ok s dst_index dst src_index src size p q b b' =
    rw (memory-granted s dst_index dst size p b, memory-granted s src_index src size q b') refl

-- A copy succeeds exactly when both windows lie in their memories.
pub memory_copy_iff :
    (s : Machine) (dst_index dst src_index src size : ℕ)
    → IsOk (memory_copy s dst_index dst src_index src size)
      ↔ (((p : ℕ) × InMemory s dst_index dst size p) × ((q : ℕ) × InMemory s src_index src size q))
memory_copy_iff s dst_index dst src_index src size = (
  λ h.
      let (s', e) = IsOk-eq-ok (memory_copy s dst_index dst src_index src size) h in
      let (p, q, b, b', _) = memory_copy-inv s dst_index dst src_index src size s' e in
      ((p, b), (q, b')),
  λ ((p, b), (q, b')). rw (memory_copy-ok s dst_index dst src_index src size p q b b') tt,
)

-- A copy puts the bytes that the source window held before it into the destination window, also
-- when the two windows overlap in one memory.
pub memory_copy_bytes :
    (s : Machine) (dst_index dst src_index src size : ℕ) (s' : Machine) (p q i : ℕ)
    → memory_copy s dst_index dst src_index src size ≡ ok s'
    → get_elem? s.memories dst_index ≡ some p
    → get_elem? s.memories src_index ≡ some q
    → i < size
    → get_elem? (s'.memory_at p).bytes (dst + i) ≡ get_elem? (s.memory_at q).bytes (src + i)
memory_copy_bytes s dst_index dst src_index src size s' p q i h hp hq k =
    let (p₁, q₁, b, b', e) = memory_copy-inv s dst_index dst src_index src size s' h in
    let bytes = (s.memory_at q₁).bytes in
    let n = length-window bytes src size b'.1 in
    let same_p : p₁ ≡ p = cc in
    let same_q : q₁ ≡ q = cc in
    rw (e, ← same_p, ← same_q)
      (write_bytes-inside s dst_index dst size p₁ (window bytes src size) i b n k
        ∙ get_elem?-window bytes src size i k)

-- A copy changes no byte outside the destination window, and no memory's size.
pub memory_copy_frame :
    (s : Machine) (dst_index dst src_index src size : ℕ) (s' : Machine) (r i : ℕ)
    → memory_copy s dst_index dst src_index src size ≡ ok s'
    → Apart s.memories dst_index dst size r i
    → (get_elem? (s'.memory_at r).bytes i ≡ get_elem? (s.memory_at r).bytes i)
      × (length (s'.memory_at r).bytes ≡ length (s.memory_at r).bytes)
memory_copy_frame s dst_index dst src_index src size s' r i h o =
    let (p, q, b, b', e) = memory_copy-inv s dst_index dst src_index src size s' h in
    let n = length-window (s.memory_at q).bytes src size b'.1 in
    rw e
      (write_bytes-Apart s dst_index dst size p (window (s.memory_at q).bytes src size) r i b n o)

abbrev filled : Machine → ℕ → ℕ → ℕ → ℕ → Machine
filled s p address size value = write_bytes s (slice p address size) (replicate size value)

pub memory_fill-inv :
    (s : Machine) (index address size value : ℕ) (s' : Machine)
    → memory_fill s index address size value ≡ ok s'
    → (p : ℕ) × InMemory s index address size p × (s' ≡ filled s p address size value)
unfolding memory_fill
memory_fill-inv s index address size value s' h =
    let (w, h₁, h₂) = >>=-ok (memory s index address size) _ h in
    let (b, e) = memory-InMemory s index address size w h₁ in
    let same : s' ≡ write_bytes s w (replicate w.size value) = cc in
    (w.pointer, b, same ∙ ap (λ x. write_bytes s x (replicate x.size value)) e)

-- A fill leaves the value at each byte of its window.
pub memory_fill_bytes :
    (s : Machine) (index address size value : ℕ) (s' : Machine) (p i : ℕ)
    → memory_fill s index address size value ≡ ok s'
    → get_elem? s.memories index ≡ some p
    → i < size
    → get_elem? (s'.memory_at p).bytes (address + i) ≡ some value
memory_fill_bytes s index address size value s' p i h hp k =
    let (p₁, b, e) = memory_fill-inv s index address size value s' h in
    let same_p : p₁ ≡ p = cc in
    let n = length-replicate size value in
    rw (e, ← same_p)
      (write_bytes-inside s index address size p₁ (replicate size value) i b n k
        ∙ get_elem?-replicate size i value k)

-- A fill changes no byte outside its window, and no memory's size.
pub memory_fill_frame :
    (s : Machine) (index address size value : ℕ) (s' : Machine) (q i : ℕ)
    → memory_fill s index address size value ≡ ok s'
    → Apart s.memories index address size q i
    → (get_elem? (s'.memory_at q).bytes i ≡ get_elem? (s.memory_at q).bytes i)
      × (length (s'.memory_at q).bytes ≡ length (s.memory_at q).bytes)
memory_fill_frame s index address size value s' q i h o =
    let (p, b, e) = memory_fill-inv s index address size value s' h in
    let n = length-replicate size value in
    rw e (write_bytes-Apart s index address size p (replicate size value) q i b n o)

abbrev initialized : Machine → Segment ℕ → ℕ → ℕ → ℕ → ℕ → Machine
initialized s seg p dst src size = write_bytes s (slice p dst size) (window seg.init src size)

pub memory_init-inv :
    (s : Machine) (index data_index dst src size : ℕ) (s' : Machine)
    → memory_init s index data_index dst src size ≡ ok s'
    → (seg : Segment ℕ) × (p : ℕ) × (data_segment s data_index ≡ ok seg)
      × InSegment seg src size
      × InMemory s index dst size p
      × (s' ≡ initialized s seg p dst src size)
unfolding memory_init
memory_init-inv s index data_index dst src size s' h =
    let (seg, h₁, h₂) = >>=-ok (data_segment s data_index) _ h in
    let (_, h₃, h₄) = >>=-ok (check_segment Error.data_bounds seg src size) _ h₂ in
    let (w, h₅, h₆) = >>=-ok (memory s index dst size) _ h₄ in
    let (b, e) = memory-InMemory s index dst size w h₅ in
    let same : s' ≡ write_bytes s w (window seg.init src size) = cc in
    (
      seg,
      w.pointer,
      h₁,
      (check_segment_iff Error.data_bounds seg src size).0 h₃,
      b,
      same ∙ ap (λ x. write_bytes s x (window seg.init src size)) e,
    )

memory_init-ok :
    (s : Machine) (index data_index dst src size : ℕ) (seg : Segment ℕ) (p : ℕ)
    → data_segment s data_index ≡ ok seg
    → InSegment seg src size
    → InMemory s index dst size p
    → memory_init s index data_index dst src size ≡ ok (initialized s seg p dst src size)
unfolding memory_init
memory_init-ok s index data_index dst src size seg p h c b =
    let c' = (check_segment_iff Error.data_bounds seg src size).1 c in
    rw (h, c', memory-granted s index dst size p b) refl

-- An init succeeds exactly when the segment exists and has the bytes, is not dropped unless both
-- its offset and its size are zero, and the window lies in the memory.
pub memory_init_iff :
    (s : Machine) (index data_index dst src size : ℕ)
    → IsOk (memory_init s index data_index dst src size) ↔ (
        ((seg : Segment ℕ) × (data_segment s data_index ≡ ok seg) × InSegment seg src size)
        × ((p : ℕ) × InMemory s index dst size p))
memory_init_iff s index data_index dst src size = (
  λ h.
      let (s', e) = IsOk-eq-ok (memory_init s index data_index dst src size) h in
      let (seg, p, h', c, b, _) = memory_init-inv s index data_index dst src size s' e in
      ((seg, h', c), (p, b)),
  λ ((seg, h, c), (p, b)). rw (memory_init-ok s index data_index dst src size seg p h c b) tt,
)

-- An init puts the segment's bytes into its window.
pub memory_init_bytes :
    (s : Machine) (index data_index dst src size : ℕ) (s' : Machine) (seg : Segment ℕ) (p i : ℕ)
    → memory_init s index data_index dst src size ≡ ok s'
    → data_segment s data_index ≡ ok seg
    → get_elem? s.memories index ≡ some p
    → i < size
    → get_elem? (s'.memory_at p).bytes (dst + i) ≡ get_elem? seg.init (src + i)
memory_init_bytes s index data_index dst src size s' seg p i h hs hp k =
    let (seg₁, p₁, h', c, b, e) = memory_init-inv s index data_index dst src size s' h in
    let same_seg : seg₁ ≡ seg = cc in
    let same_p : p₁ ≡ p = cc in
    let n = length-window seg₁.init src size c.0 in
    rw (e, ← same_p, ← same_seg)
      (write_bytes-inside s index dst size p₁ (window seg₁.init src size) i b n k
        ∙ get_elem?-window seg₁.init src size i k)

-- An init changes no byte outside its window, and no memory's size.
pub memory_init_frame :
    (s : Machine) (index data_index dst src size : ℕ) (s' : Machine) (q i : ℕ)
    → memory_init s index data_index dst src size ≡ ok s'
    → Apart s.memories index dst size q i
    → (get_elem? (s'.memory_at q).bytes i ≡ get_elem? (s.memory_at q).bytes i)
      × (length (s'.memory_at q).bytes ≡ length (s.memory_at q).bytes)
memory_init_frame s index data_index dst src size s' q i h o =
    let (seg, p, h', c, b, e) = memory_init-inv s index data_index dst src size s' h in
    let n = length-window seg.init src size c.0 in
    rw e (write_bytes-Apart s index dst size p (window seg.init src size) q i b n o)
