-- ===== src/Common/Window.antt =====
-- A window `s[start : start+size]` of a Go slice, read and written through.
use Prim.Native.Nat.{ℕ, zero, suc, ◌+◌, ◌≤◌, ◌<◌}
use mathlib.Core.Path.{◌≡◌, refl, ap}
use mathlib.Core.Logic.{◌⊎◌, inl, inr}
use mathlib.Core.Option.{some}
use mathlib.Core.List.{List, [], ◌∷◌}
use native.Mathlib.Omega.{arith}
use watgo.Common.Lists.{All, All-take, All-drop, length, get_elem?, take, drop}
use watgo.Common.Lists.{length-take, length-drop, get_elem?-take, get_elem?-drop}

module _ {ℓ} {A : Type ℓ} where
  unfoldable pub window : List A → ℕ → ℕ → List A
  window xs start size = take size (drop start xs)

  -- Writing `ys` over the window that begins at `start`; what would pass the end is lost.
  unfoldable pub overwrite : List A → ℕ → List A → List A
  overwrite [] start ys = []
  overwrite (x ∷ xs) start [] = x ∷ xs
  overwrite (x ∷ xs) zero (y ∷ ys) = y ∷ overwrite xs zero ys
  overwrite (x ∷ xs) (suc start) (y ∷ ys) = x ∷ overwrite xs start (y ∷ ys)

  pub length-window :
      (xs : List A) (start size : ℕ)
      → start + size ≤ length xs
      → length (window xs start size) ≡ size
  unfolding window
  length-window xs start size h =
      omega (arith, length-take size (drop start xs), length-drop start xs)

  pub get_elem?-window :
      (xs : List A) (start size i : ℕ)
      → i < size
      → get_elem? (window xs start size) i ≡ get_elem? xs (start + i)
  unfolding window
  get_elem?-window xs start size i h =
      rw (get_elem?-take size i (drop start xs) h) (get_elem?-drop start i xs)

  pub length-overwrite :
      (xs : List A) (start : ℕ) (ys : List A) → length (overwrite xs start ys) ≡ length xs
  unfolding overwrite
  length-overwrite [] start ys = refl
  length-overwrite (x ∷ xs) start [] = refl
  length-overwrite (x ∷ xs) zero (y ∷ ys) = ap suc (length-overwrite xs zero ys)
  length-overwrite (x ∷ xs) (suc start) (y ∷ ys) = ap suc (length-overwrite xs start (y ∷ ys))

  pub get_elem?-overwrite_before :
      (xs : List A) (start : ℕ) (ys : List A) (i : ℕ)
      → i < start
      → get_elem? (overwrite xs start ys) i ≡ get_elem? xs i
  unfolding overwrite
  get_elem?-overwrite_before [] start ys i h = refl
  get_elem?-overwrite_before (x ∷ xs) start [] i h = refl
  get_elem?-overwrite_before (x ∷ xs) zero (y ∷ ys) i h = absurd (omega arith)
  get_elem?-overwrite_before (x ∷ xs) (suc start) (y ∷ ys) zero h = refl
  get_elem?-overwrite_before (x ∷ xs) (suc start) (y ∷ ys) (suc i) h =
      get_elem?-overwrite_before xs start (y ∷ ys) i (omega arith)

  pub get_elem?-overwrite_after :
      (xs : List A) (start : ℕ) (ys : List A) (i : ℕ)
      → start + length ys ≤ i
      → get_elem? (overwrite xs start ys) i ≡ get_elem? xs i
  unfolding overwrite
  get_elem?-overwrite_after [] start ys i h = refl
  get_elem?-overwrite_after (x ∷ xs) start [] i h = refl
  get_elem?-overwrite_after (x ∷ xs) zero (y ∷ ys) zero h = absurd (omega arith)
  get_elem?-overwrite_after (x ∷ xs) zero (y ∷ ys) (suc i) h =
      get_elem?-overwrite_after xs zero ys i (omega arith)
  get_elem?-overwrite_after (x ∷ xs) (suc start) (y ∷ ys) zero h = absurd (omega arith)
  get_elem?-overwrite_after (x ∷ xs) (suc start) (y ∷ ys) (suc i) h =
      get_elem?-overwrite_after xs start (y ∷ ys) i (omega arith)

  pub get_elem?-overwrite_inside :
      (xs : List A) (start : ℕ) (ys : List A) (i : ℕ)
      → i < length ys
      → start + i < length xs
      → get_elem? (overwrite xs start ys) (start + i) ≡ get_elem? ys i
  unfolding overwrite
  get_elem?-overwrite_inside [] start ys i h k = absurd (omega arith)
  get_elem?-overwrite_inside (x ∷ xs) start [] i h k = absurd (omega arith)
  get_elem?-overwrite_inside (x ∷ xs) zero (y ∷ ys) zero h k = refl
  get_elem?-overwrite_inside (x ∷ xs) zero (y ∷ ys) (suc i) h k =
      ground (arith, get_elem?-overwrite_inside xs zero ys i)
  get_elem?-overwrite_inside (x ∷ xs) (suc start) (y ∷ ys) i h k =
      ground (arith, get_elem?-overwrite_inside xs start (y ∷ ys) i)

  -- Reading back the window that was written.
  pub window-overwrite :
      (xs : List A) (start : ℕ) (ys : List A)
      → start + length ys ≤ length xs
      → window (overwrite xs start ys) start (length ys) ≡ ys
  unfolding window overwrite
  window-overwrite [] zero [] h = refl
  window-overwrite [] (suc start) [] h = refl
  window-overwrite [] start (y ∷ ys) h = absurd (omega arith)
  window-overwrite (x ∷ xs) zero [] h = refl
  window-overwrite (x ∷ xs) (suc start) [] h = refl
  window-overwrite (x ∷ xs) zero (y ∷ ys) h =
      ap (λ t. y ∷ t) (window-overwrite xs zero ys (omega arith))
  window-overwrite (x ∷ xs) (suc start) (y ∷ ys) h =
      window-overwrite xs start (y ∷ ys) (omega arith)

  pub All-window {κ} :
      (P : A → Type κ) (xs : List A) (start size : ℕ) → All P xs → All P (window xs start size)
  unfolding window
  All-window P xs start size p = All-take P size (drop start xs) (All-drop P start xs p)

  pub All-overwrite {κ} :
      (P : A → Type κ) (xs : List A) (start : ℕ) (ys : List A)
      → All P xs
      → All P ys
      → All P (overwrite xs start ys)
  unfolding overwrite
  All-overwrite P [] start ys p q = tt
  All-overwrite P (x ∷ xs) start [] p q = p
  All-overwrite P (x ∷ xs) zero (y ∷ ys) (a, p) (b, q) = (b, All-overwrite P xs zero ys p q)
  All-overwrite P (x ∷ xs) (suc start) (y ∷ ys) (a, p) q =
      (a, All-overwrite P xs start (y ∷ ys) p q)

  pub overwrite-nothing : (xs : List A) (start : ℕ) → overwrite xs start [] ≡ xs
  unfolding overwrite
  overwrite-nothing [] start = refl
  overwrite-nothing (x ∷ xs) start = refl

  -- After one element is written, each is the old one or the one written.
  pub get_elem?-overwrite_one :
      (xs : List A) (i : ℕ) (a : A) (j : ℕ)
      → (get_elem? (overwrite xs i (a ∷ [])) j ≡ get_elem? xs j)
        ⊎ ((j ≡ i) × (get_elem? (overwrite xs i (a ∷ [])) j ≡ some a))
  unfolding overwrite
  get_elem?-overwrite_one [] i a j = inl refl
  get_elem?-overwrite_one (x ∷ xs) zero a zero = inr (refl, refl)
  get_elem?-overwrite_one (x ∷ xs) zero a (suc j) =
      inl (ap (λ l. get_elem? l j) (overwrite-nothing xs zero))
  get_elem?-overwrite_one (x ∷ xs) (suc i) a zero = inl refl
  get_elem?-overwrite_one (x ∷ xs) (suc i) a (suc j) = elim (get_elem?-overwrite_one xs i a j) [
    | inl same ↦ inl same
    | inr written ↦ inr (ap suc (written.0), written.1)
  ]
