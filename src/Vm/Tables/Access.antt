-- ===== src/Vm/Tables/Access.antt =====
-- `tableGet`, `tableSet` and `tableFill`: what is read after a write, what a write leaves alone,
-- and when a write succeeds.
use watgo.Common.{ℕ, ◌+◌, ◌<◌, ◌≡◌, ◌↔◌, inl, inr, refl, ap, sym, ◌∙◌}
use watgo.Common.{some, [], ◌∷◌, Result-cases, ok, IsOk, IsOk-eq-ok, >>=-ok}
use watgo.Common.{length, get_elem?, replicate, length-replicate, get_elem?-replicate}
use watgo.Vm.Value.{Value, Fits, check_args, check_args_iff}
use watgo.Vm.State.{Machine, table, table_inst, slice, write_elems}
use watgo.Vm.State.Windows.{Apart, InTable, table-granted, table-InTable, write_elems-Apart}
use watgo.Vm.State.Windows.{write_elems-inside, write_elems-InTable, window-write_elems}
use watgo.Vm.State.Windows.{table_inst-ok, table_inst-inv}
use watgo.Vm.Tables.{table_get, table_set, table_fill}

-- The value may stand in the table at `p`.
abbrev pub FitsTable : Machine → ℕ → Value → Type 0
FitsTable s p value = Fits value.type (s.table_at p).ref_type

pub check_one :
    (s : Machine) (p : ℕ) (value : Value)
    → (check_args ((s.table_at p).ref_type ∷ []) (value ∷ []) ≡ ok tt) ↔ FitsTable s p value
check_one s p value =
    let checked = (check_args_iff ((s.table_at p).ref_type ∷ []) (value ∷ [])).0 in
    (λ h. (checked.0 h).0, λ f. checked.1 (f, tt))

abbrev pub filled_elems : Machine → ℕ → ℕ → ℕ → Value → Machine
filled_elems s p start size value = write_elems s (slice p start size) (replicate size value)

pub table_fill-inv :
    (s : Machine) (index start size : ℕ) (value : Value) (s' : Machine)
    → table_fill s index start size value ≡ ok s'
    → (p : ℕ) × InTable s index start size p
      × FitsTable s p value
      × (s' ≡ filled_elems s p start size value)
unfolding table_fill
table_fill-inv s index start size value s' h =
    let (p, h₁, h₂) = >>=-ok (table_inst s index) _ h in
    let (_, h₃, h₄) = >>=-ok (check_args ((s.table_at p).ref_type ∷ []) (value ∷ [])) _ h₂ in
    let (w, h₅, h₆) = >>=-ok (table s index start size) _ h₄ in
    let (b, e) = table-InTable s index start size w h₅ in
    let found = table_inst-inv s index p h₁ in
    let same_p : w.pointer ≡ p = cc in
    let same : s' ≡ write_elems s w (replicate w.size value) = cc in
    (
      p,
      rw same_p at b,
      (check_one s p value).0 h₃,
      rw same_p at (same ∙ ap (λ x. write_elems s x (replicate x.size value)) e),
    )

table_fill-ok :
    (s : Machine) (index start size p : ℕ) (value : Value)
    → InTable s index start size p
    → FitsTable s p value
    → table_fill s index start size value ≡ ok (filled_elems s p start size value)
unfolding table_fill
table_fill-ok s index start size p value b f =
    let fits = (check_one s p value).1 f in
    rw (table_inst-ok s index p b.0, fits, table-granted s index start size p b) refl

-- `table.set` writes one element as `table.fill` does.
pub table_set-table_fill :
    (s : Machine) (index i : ℕ) (value : Value)
    → table_set s index i value ≡ table_fill s index i 1 value
unfolding table_set table_fill
table_set-table_fill s index i value = elim (Result-cases (table s index i 1)) [
  | inl (w, h) ↦
      let (_, e) = table-InTable s index i 1 w h in let granted = h ∙ ap ok e in rw granted refl
  | inr (e, h) ↦ rw h refl
]

-- A fill succeeds exactly when the window lies in the table and the value fits its type.
pub table_fill_iff :
    (s : Machine) (index start size : ℕ) (value : Value)
    → IsOk (table_fill s index start size value)
      ↔ ((p : ℕ) × InTable s index start size p × FitsTable s p value)
table_fill_iff s index start size value = (
  λ h.
      let (s', e) = IsOk-eq-ok (table_fill s index start size value) h in
      let (p, b, f, _) = table_fill-inv s index start size value s' e in (p, b, f),
  λ (p, b, f). rw (table_fill-ok s index start size p value b f) tt,
)

-- A fill leaves the value at each element of its window.
pub table_fill_elems :
    (s : Machine) (index start size : ℕ) (value : Value) (s' : Machine) (p i : ℕ)
    → table_fill s index start size value ≡ ok s'
    → get_elem? s.tables index ≡ some p
    → i < size
    → get_elem? (s'.table_at p).elems (start + i) ≡ some value
table_fill_elems s index start size value s' p i h hp k =
    let (p₁, b, f, e) = table_fill-inv s index start size value s' h in
    let same_p : p₁ ≡ p = cc in
    let n = length-replicate size value in
    rw (e, ← same_p)
      (write_elems-inside s index start size p₁ (replicate size value) i b n k
        ∙ get_elem?-replicate size i value k)

-- A fill changes no element outside its window, and no table's size.
pub table_fill_frame :
    (s : Machine) (index start size : ℕ) (value : Value) (s' : Machine) (q i : ℕ)
    → table_fill s index start size value ≡ ok s'
    → Apart s.tables index start size q i
    → (get_elem? (s'.table_at q).elems i ≡ get_elem? (s.table_at q).elems i)
      × (length (s'.table_at q).elems ≡ length (s.table_at q).elems)
table_fill_frame s index start size value s' q i h o =
    let (p, b, f, e) = table_fill-inv s index start size value s' h in
    let n = length-replicate size value in
    rw e (write_elems-Apart s index start size p (replicate size value) q i b n o)

-- After a `table.set`, a `table.get` of the same element succeeds and gives the value set.
pub table_get-table_set :
    (s : Machine) (index i : ℕ) (value : Value) (s' : Machine)
    → table_set s index i value ≡ ok s'
    → table_get s' index i ≡ ok value
unfolding table_get
table_get-table_set s index i value s' h =
    let filled = sym (table_set-table_fill s index i value) ∙ h in
    let (p, b, f, e) = table_fill-inv s index i 1 value s' filled in
    let there = write_elems-InTable s index i 1 p (value ∷ []) b in
    let back = window-write_elems s index i 1 p (value ∷ []) b refl in
    rw (e, table-granted (filled_elems s p i 1 value) index i 1 p there, back) refl
