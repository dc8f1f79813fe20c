-- ===== src/Vm/Tables/Bulk.antt =====
-- `tableCopy` and `tableInit`: the elements that each leaves in the window, also when
-- the windows overlap or are shared, and when each succeeds.
use watgo.Common.{ℕ, ◌+◌, ◌<◌, ◌≡◌, ◌↔◌, refl, ap, ◌∙◌}
use watgo.Common.{some, ok, IsOk, IsOk-eq-ok, >>=-ok}
use watgo.Common.{length, get_elem?}
use watgo.Common.Window.{window, length-window, get_elem?-window}
use watgo.Vm.State.{
  Machine, Segment, table, check_segment, elem_segment, slice, elems_of, write_elems,
}
use watgo.Vm.State.Windows.{Apart, InTable, table-granted, table-InTable, write_elems-Apart}
use watgo.Vm.State.Windows.{write_elems-inside, InSegment, check_segment_iff}
use watgo.Vm.Value.{Error, Value}
use watgo.Vm.Tables.{table_copy, table_init}

abbrev copied_elems : Machine → ℕ → ℕ → ℕ → ℕ → ℕ → Machine
copied_elems s p dst q src size =
    write_elems s (slice p dst size) (window (s.table_at q).elems src size)

pub table_copy-inv :
    (s : Machine) (dst_index dst src_index src size : ℕ) (s' : Machine)
    → table_copy s dst_index dst src_index src size ≡ ok s'
    → (p : ℕ) × (q : ℕ) × InTable s dst_index dst size p
      × InTable s src_index src size q
      × (s' ≡ copied_elems s p dst q src size)
unfolding table_copy
table_copy-inv s dst_index dst src_index src size s' h =
    let (w, h₁, h₂) = >>=-ok (table s dst_index dst size) _ h in
    let (v, h₃, h₄) = >>=-ok (table s src_index src size) _ h₂ in
    let (b, e) = table-InTable s dst_index dst size w h₁ in
    let (b', e') = table-InTable s src_index src size v h₃ in
    let same : s' ≡ write_elems s w (elems_of s v) = cc in
    (
      w.pointer,
      v.pointer,
      b,
      b',
      same
          ∙ ap (λ x. write_elems s x (elems_of s v)) e
          ∙ ap (λ y. write_elems s (slice w.pointer dst size) (elems_of s y)) e',
    )

table_copy-ok :
    (s : Machine) (dst_index dst src_index src size p q : ℕ)
    → InTable s dst_index dst size p
    → InTable s src_index src size q
    → table_copy s dst_index dst src_index src size ≡ ok (copied_elems s p dst q src size)
unfolding table_copy
table_copy-ok s dst_index dst src_index src size p q b b' =
    rw (table-granted s dst_index dst size p b, table-granted s src_index src size q b') refl

-- A copy succeeds exactly when both windows lie in their tables.
pub table_copy_iff :
    (s : Machine) (dst_index dst src_index src size : ℕ)
    → IsOk (table_copy s dst_index dst src_index src size)
      ↔ (((p : ℕ) × InTable s dst_index dst size p) × ((q : ℕ) × InTable s src_index src size q))
table_copy_iff s dst_index dst src_index src size = (
  λ h.
      let (s', e) = IsOk-eq-ok (table_copy s dst_index dst src_index src size) h in
      let (p, q, b, b', _) = table_copy-inv s dst_index dst src_index src size s' e in
      ((p, b), (q, b')),
  λ ((p, b), (q, b')). rw (table_copy-ok s dst_index dst src_index src size p q b b') tt,
)

-- A copy puts the elements that the source window held before it into the destination window, also
-- when the two windows overlap in one table.
pub table_copy_elems :
    (s : Machine) (dst_index dst src_index src size : ℕ) (s' : Machine) (p q i : ℕ)
    → table_copy s dst_index dst src_index src size ≡ ok s'
    → get_elem? s.tables dst_index ≡ some p
    → get_elem? s.tables src_index ≡ some q
    → i < size
    → get_elem? (s'.table_at p).elems (dst + i) ≡ get_elem? (s.table_at q).elems (src + i)
table_copy_elems s dst_index dst src_index src size s' p q i h hp hq k =
    let (p₁, q₁, b, b', e) = table_copy-inv s dst_index dst src_index src size s' h in
    let elems = (s.table_at q₁).elems in
    let n = length-window elems src size b'.1 in
    let same_p : p₁ ≡ p = cc in
    let same_q : q₁ ≡ q = cc in
    rw (e, ← same_p, ← same_q)
      (write_elems-inside s dst_index dst size p₁ (window elems src size) i b n k
        ∙ get_elem?-window elems src size i k)

-- A copy changes no element outside the destination window, and no table's size.
pub table_copy_frame :
    (s : Machine) (dst_index dst src_index src size : ℕ) (s' : Machine) (r i : ℕ)
    → table_copy s dst_index dst src_index src size ≡ ok s'
    → Apart s.tables dst_index dst size r i
    → (get_elem? (s'.table_at r).elems i ≡ get_elem? (s.table_at r).elems i)
      × (length (s'.table_at r).elems ≡ length (s.table_at r).elems)
table_copy_frame s dst_index dst src_index src size s' r i h o =
    let (p, q, b, b', e) = table_copy-inv s dst_index dst src_index src size s' h in
    let n = length-window (s.table_at q).elems src size b'.1 in
    rw e (write_elems-Apart s dst_index dst size p (window (s.table_at q).elems src size) r i b n o)

abbrev initialized_elems : Machine → Segment Value → ℕ → ℕ → ℕ → ℕ → Machine
initialized_elems s seg p dst src size = write_elems s (slice p dst size) (window seg.init src size)

pub table_init-inv :
    (s : Machine) (index elem_index dst src size : ℕ) (s' : Machine)
    → table_init s index elem_index dst src size ≡ ok s'
    → (seg : Segment Value) × (p : ℕ) × (elem_segment s elem_index ≡ ok seg)
      × InSegment seg src size
      × InTable s index dst size p
      × (s' ≡ initialized_elems s seg p dst src size)
unfolding table_init
table_init-inv s index elem_index dst src size s' h =
    let (seg, h₁, h₂) = >>=-ok (elem_segment s elem_index) _ h in
    let (_, h₃, h₄) = >>=-ok (check_segment Error.elem_bounds seg src size) _ h₂ in
    let (w, h₅, h₆) = >>=-ok (table s index dst size) _ h₄ in
    let (b, e) = table-InTable s index dst size w h₅ in
    let same : s' ≡ write_elems s w (window seg.init src size) = cc in
    (
      seg,
      w.pointer,
      h₁,
      (check_segment_iff Error.elem_bounds seg src size).0 h₃,
      b,
      same ∙ ap (λ x. write_elems s x (window seg.init src size)) e,
    )

table_init-ok :
    (s : Machine) (index elem_index dst src size : ℕ) (seg : Segment Value) (p : ℕ)
    → elem_segment s elem_index ≡ ok seg
    → InSegment seg src size
    → InTable s index dst size p
    → table_init s index elem_index dst src size ≡ ok (initialized_elems s seg p dst src size)
unfolding table_init
table_init-ok s index elem_index dst src size seg p h c b =
    let c' = (check_segment_iff Error.elem_bounds seg src size).1 c in
    rw (h, c', table-granted s index dst size p b) refl

-- An init succeeds exactly when the segment exists and has the elements, is not dropped unless both
-- its offset and its size are zero, and the window lies in the table.
pub table_init_iff :
    (s : Machine) (index elem_index dst src size : ℕ)
    → IsOk (table_init s index elem_index dst src size) ↔ (
        ((seg : Segment Value) × (elem_segment s elem_index ≡ ok seg) × InSegment seg src size)
        × ((p : ℕ) × InTable s index dst size p))
table_init_iff s index elem_index dst src size = (
  λ h.
      let (s', e) = IsOk-eq-ok (table_init s index elem_index dst src size) h in
      let (seg, p, h', c, b, _) = table_init-inv s index elem_index dst src size s' e in
      ((seg, h', c), (p, b)),
  λ ((seg, h, c), (p, b)). rw (table_init-ok s index elem_index dst src size seg p h c b) tt,
)

-- An init puts the segment's elements into its window.
pub table_init_elems :
    (s : Machine) (index elem_index dst src size : ℕ) (s' : Machine) (seg : Segment Value) (p i : ℕ)
    → table_init s index elem_index dst src size ≡ ok s'
    → elem_segment s elem_index ≡ ok seg
    → get_elem? s.tables index ≡ some p
    → i < size
    → get_elem? (s'.table_at p).elems (dst + i) ≡ get_elem? seg.init (src + i)
table_init_elems s index elem_index dst src size s' seg p i h hs hp k =
    let (seg₁, p₁, h', c, b, e) = table_init-inv s index elem_index dst src size s' h in
    let same_seg : seg₁ ≡ seg = cc in
    let same_p : p₁ ≡ p = cc in
    let n = length-window seg₁.init src size c.0 in
    rw (e, ← same_p, ← same_seg)
      (write_elems-inside s index dst size p₁ (window seg₁.init src size) i b n k
        ∙ get_elem?-window seg₁.init src size i k)

-- An init changes no element outside its window, and no table's size.
pub table_init_frame :
    (s : Machine) (index elem_index dst src size : ℕ) (s' : Machine) (q i : ℕ)
    → table_init s index elem_index dst src size ≡ ok s'
    → Apart s.tables index dst size q i
    → (get_elem? (s'.table_at q).elems i ≡ get_elem? (s.table_at q).elems i)
      × (length (s'.table_at q).elems ≡ length (s.table_at q).elems)
table_init_frame s index elem_index dst src size s' q i h o =
    let (seg, p, h', c, b, e) = table_init-inv s index elem_index dst src size s' h in
    let n = length-window seg.init src size c.0 in
    rw e (write_elems-Apart s index dst size p (window seg.init src size) q i b n o)
