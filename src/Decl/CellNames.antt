-- ===== src/Decl/CellNames.antt =====
-- The names of the cells of an array (src/utot-decl.cc).
use mathlib.Core.List.{append_cancel_left}
use uppaal_to_tchecker.Base.{
  ℕ, zero, suc, ◌+◌, ◌≤◌, Text, Bool, not, ◌&&◌, List, [], ◌∷◌, ◌++◌, length, All, In, In-append,
  inl, inr, if◌then◌else◌, ◌≡◌, ◌≢◌, refl, sym, ap, ◌∙◌, arith,
}
use uppaal_to_tchecker.Base.Integers.{
  ℤ, pos, ◌+ℤ◌, ltb_ℤ, eqb_ℤ, decimal, decimal-le, decimal-injective,
}
use uppaal_to_tchecker.Outcome.{Outcome, ok, require, assert, bind-ok, ok-injective}
use uppaal_to_tchecker.Utap.{Expr, Ty, Utap, array_type, is_empty, size, child}
use uppaal_to_tchecker.Expr.{Instance, compute_range_bounds, or_fault, int_max}
use uppaal_to_tchecker.Arrays.{extent}
use uppaal_to_tchecker.Decl.{indices, count_of}
use uppaal_to_tchecker.Decl.Cells.{Cell, collect_cells, cells}

abbrev Plain : Text → Type 0
Plain = All (λ c. c ≤ b'9')

no_mark : (d y e : Text) → Plain d → d ≢ y ++ b'_' ∷ e
no_mark [] [] e h q = absurd (ground arith)
no_mark [] (c ∷ y) e h q = absurd (ground arith)
no_mark (c ∷ d) [] e h q = absurd (ground (arith, h.0))
no_mark (c ∷ d) (b ∷ y) e h q =
    let rest : d ≡ y ++ b'_' ∷ e = ground arith in no_mark d y e h.1 rest

last_part : (x y d e : Text) → Plain d → Plain e → x ++ b'_' ∷ d ≡ y ++ b'_' ∷ e → (x ≡ y) × (d ≡ e)
last_part [] [] d e h k q = (refl, ground arith)
last_part [] (c ∷ y) d e h k q =
    let rest : d ≡ y ++ b'_' ∷ e = ground arith in absurd (no_mark d y e h rest)
last_part (c ∷ x) [] d e h k q =
    let rest : e ≡ x ++ b'_' ∷ d = ground arith in absurd (no_mark e x d k rest)
last_part (c ∷ x) (b ∷ y) d e h k q =
    let rest : x ++ b'_' ∷ d ≡ y ++ b'_' ∷ e = ground arith in
    let (r, t) = last_part x y d e h k rest in
    let head : c ≡ b = ground arith in (rw (head, r) refl, t)

indices-injective : (s t : List ℤ) → length s ≡ length t → indices s ≡ indices t → s ≡ t
indices-injective [] [] h q = refl
indices-injective [] (j ∷ t) h q = absurd (ground arith)
indices-injective (i ∷ s) [] h q = absurd (ground arith)
indices-injective (i ∷ s) (j ∷ t) h q =
    let (front, back) =
      last_part (indices s) (indices t) (decimal i) (decimal j) (decimal-le i) (decimal-le j) q in
    rw (decimal-injective i j back, indices-injective s t (ground arith) front) refl

abbrev depth : Ty → ℕ
depth (array_type t sz) = suc (depth t)
depth _ = 0

collect_cells-In :
    (items : ℤ → Expr → Outcome (List Cell)) (noinit : Bool) (init : Expr) (low : ℤ) (k n : ℕ)
    (xs : List Cell) (c : Cell)
    → collect_cells items noinit init low k n ≡ ok xs
    → In c xs
    → (i : ℤ) × (e : Expr) × (ys : List Cell) × (items i e ≡ ok ys) × In c ys
unfolding collect_cells
collect_cells-In items noinit init low k zero xs c q h = absurd (rw (← ok-injective [] xs q) at h)
collect_cells-In items noinit init low k (suc n) xs c q h =
    let (e, first, q1) = bind-ok (if noinit then ok init else or_fault (child init k)) _ xs q in
    let (ys, here, rest) = bind-ok (items (low +ℤ pos k) e) _ xs q1 in
    let (zs, later, both) = bind-ok (collect_cells items noinit init low (suc k) n) _ xs rest in
    elim (In-append c ys zs (rw (← ok-injective (ys ++ zs) xs both) at h)) [
      | inl i ↦ (low +ℤ pos k, e, ys, here, i)
      | inr j ↦ collect_cells-In items noinit init low (suc k) n zs c later j
    ]

-- Each cell has an index for each dimension.
length-cells :
    (u : Utap) (p : Instance) (f : ℕ) (t : Ty) (s : List ℤ) (init : Expr) (xs : List Cell)
    (c : Cell)
    → cells u p f t s init ≡ ok xs
    → In c xs
    → length c.0 ≡ depth t + length s
unfolding cells
length-cells u p f (array_type t sz) s init xs c q h =
    let (bounds, is_range, q1) =
      bind-ok (compute_range_bounds u p f (u.get_array_size (array_type t sz))) _ xs q in
    let (n, is_size, q2) = bind-ok (extent bounds) _ xs q1 in
    let (x, is_enough, q3) =
      bind-ok (require (not (ltb_ℤ (pos (size init)) n && not (is_empty init)))) _ xs q2 in
    let (y, no_overflow, q4) = bind-ok (assert (not (eqb_ℤ bounds.1 int_max))) _ xs q3 in
    let (i, e, ys, here, within) =
      collect_cells-In (λ i e. cells u p f t (i ∷ s) e) (is_empty init) init bounds.0 0 (count_of n)
        xs c q4 h in
    omega (arith, length-cells u p f t (i ∷ s) e ys c here within)
length-cells u p f t s init xs c q h = elim (rw (← ok-injective ((s, t, init) ∷ []) xs q) at h) [
  | inl e ↦ let same_length = ap (λ (d : Cell). length d.0) e in omega (arith, same_length)
  | inr e ↦ absurd e
]

-- No two cells of an array with different indices are declared under the same name.
pub cells-append-indices :
    (u : Utap) (p : Instance) (f : ℕ) (name : Text) (t : Ty) (init : Expr) (xs : List Cell)
    (c d : Cell)
    → cells u p f t [] init ≡ ok xs
    → In c xs
    → In d xs
    → name ++ indices c.0 ≡ name ++ indices d.0
    → c.0 ≡ d.0
cells-append-indices u p f name t init xs c d q hc hd e =
    indices-injective c.0 d.0
      (length-cells u p f t [] init xs c q hc ∙ sym (length-cells u p f t [] init xs d q hd))
      (append_cancel_left name (indices c.0) (indices d.0) e)
