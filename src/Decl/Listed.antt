-- ===== src/Decl/Listed.antt =====
-- The loops over the cells of an array (src/utot-decl.cc).
use uppaal_to_tchecker.Base.{
  ℕ, suc, Text, true, false, not, ◌&&◌, some, List, [], ◌∷◌, if◌then◌else◌, ◌≡◌, ◌⊎◌, inl, inr,
  refl, sym, ap, ◌∙◌, arith,
}
use uppaal_to_tchecker.Base.Integers.{ℤ, pos, negsuc, ◌+ℤ◌, ◌-ℤ◌, ◌≤ℤ◌, ltb_ℤ}
use uppaal_to_tchecker.Outcome.{Outcome, ok}
use uppaal_to_tchecker.Outcome.Passes.{run_all}
use uppaal_to_tchecker.Utap.{Expr, Ty, Utap, array_type, is_empty, size, child}
use uppaal_to_tchecker.Tchecker.{Outputter}
use uppaal_to_tchecker.Expr.{Instance, compute_range_bounds, or_fault, int_max, in_int, as_int}
use uppaal_to_tchecker.Arrays.{extent}
use uppaal_to_tchecker.Decl.{count_of, enumerate_array_elements}
use uppaal_to_tchecker.Decl.Ranges.{
  Runs, stop, round, count_of-none, count_of-suc, next, first, below_max,
}
use uppaal_to_tchecker.Decl.Cells.{
  Cell, collect_cells, cells, declare_at, enumerate_array_elements-run_all,
}

-- The initialiser of the cells of the index `i`: that of its position, if the array has any.
abbrev pub IsPart : Expr → ℤ → ℤ → Expr → Type 0
IsPart init low i e =
    ((is_empty init ≡ true) × (init ≡ e))
    ⊎ ((is_empty init ≡ false) × (k : ℕ) × (low +ℤ pos k ≡ i) × (child init k ≡ some e))

-- What the nested loops over the indices list: the first dimension is the outermost loop.
abbrev pub Listed : Utap → Instance → ℕ → Ty → List ℤ → Expr → List Cell → Type 0
Listed u p f (array_type t sz) s init xs =
    (low : ℤ) × (high : ℤ) × (compute_range_bounds u p f (u.get_array_size (array_type t sz))
      ≡ ok (low, high))
    × (in_int (high -ℤ low) ≡ true)
    × (in_int (high -ℤ low +ℤ pos 1) ≡ true)
    × (high +ℤ pos 1 ≤ℤ int_max)
    × ((is_empty init ≡ true) ⊎ (high -ℤ low +ℤ pos 1 ≤ℤ pos (size init)))
    × Runs (λ i ys. (e : Expr) × IsPart init low i e × Listed u p f t (i ∷ s) e ys) high low xs
Listed u p f t s init xs = (s, t, init) ∷ [] ≡ xs

same_position : (low : ℤ) (k j : ℕ) → low +ℤ pos k ≡ low +ℤ pos j → k ≡ j
unfolding ◌+ℤ◌
same_position (pos a) k j h = ground arith
same_position (negsuc a) k j h = ground arith

IsPart-ok :
    (init : Expr) (low i : ℤ) (e : Expr) (k : ℕ)
    → low +ℤ pos k ≡ i
    → IsPart init low i e
    → (if is_empty init then ok init else or_fault (child init k)) ≡ ok e
unfolding or_fault
IsPart-ok init low i e k at (inl (h, q)) = rw (h, q) refl
IsPart-ok init low i e k at (inr (h, j, at', q)) =
    rw (h, same_position low k j (at ∙ sym at'), q) refl

module _ (items : ℤ → Expr → Outcome (List Cell)) (listed : ℤ → Expr → List Cell → Type 0)
    (each : (i : ℤ) (e : Expr) (xs : List Cell) → listed i e xs → items i e ≡ ok xs) (init : Expr)
    (high low : ℤ) where
  collect_cells-Runs :
      (i : ℤ) (k : ℕ) (xs : List Cell)
      → low +ℤ pos k ≡ i
      → Runs (λ j ys. (e : Expr) × IsPart init low j e × listed j e ys) high i xs
      → collect_cells items (is_empty init) init low k (count_of (high -ℤ i +ℤ pos 1)) ≡ ok xs
  unfolding collect_cells
  collect_cells-Runs i k xs at (stop h) = rw (count_of-none high i h) refl
  collect_cells-Runs i k xs at (round {xs = ys} {ys = zs} h (e, part, here) later both) =
      let next_at : low +ℤ pos (suc k) ≡ i +ℤ pos 1 = sym (next low k) ∙ ap (λ j. j +ℤ pos 1) at in
      rw
        (
          count_of-suc high i h,
          IsPart-ok init low i e k at part,
          at,
          each i e ys here,
          collect_cells-Runs (i +ℤ pos 1) (suc k) zs next_at later,
          both,
        )
        refl

extent-in_int :
    (low high : ℤ)
    → in_int (high -ℤ low) ≡ true
    → in_int (high -ℤ low +ℤ pos 1) ≡ true
    → extent (low, high) ≡ ok (high -ℤ low +ℤ pos 1)
unfolding extent as_int
extent-in_int low high h k = rw (h, k) refl

is_enough :
    (init : Expr) (n : ℤ)
    → (is_empty init ≡ true) ⊎ (n ≤ℤ pos (size init))
    → (ltb_ℤ (pos (size init)) n && not (is_empty init)) ≡ false
is_enough init n (inl h) = ground arith
is_enough init n (inr h) = ground arith

cells-Listed :
    (u : Utap) (p : Instance) (f : ℕ) (t : Ty) (s : List ℤ) (init : Expr) (xs : List Cell)
    → Listed u p f t s init xs
    → cells u p f t s init ≡ ok xs
unfolding cells
cells-Listed u p f (array_type t sz) s init xs
      (low, high, range, fits, fits', bounded, many, runs) =
    rw
      (
        range,
        extent-in_int low high fits fits',
        is_enough init (high -ℤ low +ℤ pos 1) many,
        below_max high bounded,
      )
      (collect_cells-Runs (λ i e. cells u p f t (i ∷ s) e) (λ i e ys. Listed u p f t (i ∷ s) e ys)
        (λ i e ys h. cells-Listed u p f t (i ∷ s) e ys h) init high low low 0 xs (first low) runs)
cells-Listed u p f t s init xs h = ap ok h

-- The declaration of an array that is split is one declaration for each cell, one after the other. The
-- cells are those of nested loops, a loop for each dimension from the lower to the upper bound of its
-- indices, both included, the first dimension the outermost; a cell has the initialiser at its
-- position, and none if the array has none. The conditions: the bounds of each dimension have
-- values, the upper one below the largest int, the number of indices fits an int, and an array with
-- initialisers has one for each index.
pub enumerate_array_elements-Listed :
    (u : Utap) (p : Instance) (f : ℕ) (name : Text) (t : Ty) (s : List ℤ) (init : Expr)
    (xs : List Cell)
    → Listed u p f t s init xs
    → (o : Outputter)
    → enumerate_array_elements u p f name t s init o ≡ run_all (declare_at u p f name) xs o
enumerate_array_elements-Listed u p f name t s init xs h o =
    enumerate_array_elements-run_all u p f name t s init xs (cells-Listed u p f t s init xs h) o
