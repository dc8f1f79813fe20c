-- ===== src/Vm/Memories/Access.antt =====
-- `memoryLoad` and `memoryStore`: what a load reads after a store, what a store leaves alone,
-- and when both succeed.
use watgo.Common.{ℕ, ◌%◌, ◌^◌, ◌≡◌, ◌↔◌, refl, ap, ◌∙◌}
use watgo.Common.{true, ok, IsOk, if-eq-ok, IsOk-eq-ok, length, get_elem?, >>=-ok}
use watgo.Vm.State.{Machine, memory, slice, write_bytes}
use watgo.Vm.State.Windows.{Apart, InMemory, memory-granted, memory-InMemory, write_bytes-Apart}
use watgo.Vm.State.Windows.{write_bytes-InMemory, window-write_bytes}
use watgo.Vm.Memories.{memory_load, memory_store, supported_size, to_le}
use watgo.Vm.Memories.Bytes.{from_le-to_le, length-to_le}

abbrev pub stored : Machine → ℕ → ℕ → ℕ → ℕ → Machine
stored s p address size value = write_bytes s (slice p address size) (to_le size value)

pub memory_store-ok :
    (s : Machine) (index address size value p : ℕ)
    → supported_size size ≡ true
    → InMemory s index address size p
    → memory_store s index address size value ≡ ok (stored s p address size value)
unfolding memory_store
memory_store-ok s index address size value p h b =
    rw (memory-granted s index address size p b, h) refl

pub memory_store-inv :
    (s : Machine) (index address size value : ℕ) (s' : Machine)
    → memory_store s index address size value ≡ ok s'
    → (p : ℕ) × InMemory s index address size p
      × (supported_size size ≡ true)
      × (s' ≡ stored s p address size value)
unfolding memory_store
memory_store-inv s index address size value s' h =
    let (w, h₁, h₂) = >>=-ok (memory s index address size) _ h in
    let (b, e) = memory-InMemory s index address size w h₁ in
    let (c, e₂) = if-eq-ok (supported_size size) _ _ h₂ in
    (w.pointer, b, c, e₂ ∙ ap (λ v. write_bytes s v (to_le size value)) e)

-- After a store, a load of the same bytes succeeds and reads the stored value's low bytes.
pub memory_load-store :
    (s : Machine) (index address size value : ℕ) (s' : Machine)
    → memory_store s index address size value ≡ ok s'
    → memory_load s' index address size ≡ ok (value % 256 ^ size)
unfolding memory_load
memory_load-store s index address size value s' h =
    let (p, b, c, e) = memory_store-inv s index address size value s' h in
    let n = length-to_le size value in
    let there = write_bytes-InMemory s index address size p (to_le size value) b in
    let back = window-write_bytes s index address size p (to_le size value) b n in
    rw (e, memory-granted (stored s p address size value) index address size p there, c, back)
      (ap ok (from_le-to_le size value))

-- A store succeeds exactly when its size is 1, 2, 4 or 8 and its bytes lie in the memory.
pub memory_store_iff :
    (s : Machine) (index address size value : ℕ)
    → IsOk (memory_store s index address size value)
      ↔ ((supported_size size ≡ true) × ((p : ℕ) × InMemory s index address size p))
memory_store_iff s index address size value = (
  λ h.
      let (s', e) = IsOk-eq-ok (memory_store s index address size value) h in
      let (p, b, c, _) = memory_store-inv s index address size value s' e in (c, (p, b)),
  λ (c, (p, b)). rw (memory_store-ok s index address size value p c b) tt,
)

-- A store changes no byte outside its window, in no memory, and no memory's size.
pub memory_store_frame :
    (s : Machine) (index address size value : ℕ) (s' : Machine) (q i : ℕ)
    → memory_store s index address size value ≡ ok s'
    → Apart s.memories index address size q i
    → (get_elem? (s'.memory_at q).bytes i ≡ get_elem? (s.memory_at q).bytes i)
      × (length (s'.memory_at q).bytes ≡ length (s.memory_at q).bytes)
memory_store_frame s index address size value s' q i h o =
    let (p, b, c, e) = memory_store-inv s index address size value s' h in
    rw e (
      write_bytes-Apart s index address size p (to_le size value) q i b (length-to_le size value) o)
