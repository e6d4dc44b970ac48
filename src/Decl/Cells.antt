-- ===== src/Decl/Cells.antt =====
-- The cells of an array that TChecker does not have (src/utot-decl.cc, doc/translation.md).
use uppaal_to_tchecker.Base.{
  ℕ, zero, suc, Text, Bool, not, ◌&&◌, List, [], ◌∷◌, ◌++◌, if◌then◌else◌, ◌≡◌, sym, ap, ◌∙◌,
}
use uppaal_to_tchecker.Base.Integers.{ℤ, pos, ◌+ℤ◌, ltb_ℤ, eqb_ℤ}
use uppaal_to_tchecker.Outcome.{
  Outcome, ok, ◌>>=◌, ◌>>◌, require, assert, bind-ok, bind-cong, ok-injective,
}
use uppaal_to_tchecker.Outcome.Passes.{run_all, run_all-one, run_all-append}
use uppaal_to_tchecker.Utap.{
  Expr, Ty, Utap, base, prefix, range, array_type, is_empty, size, child, kind,
}
use uppaal_to_tchecker.Tchecker.{Outputter}
use uppaal_to_tchecker.Expr.{Instance, compute_range_bounds, or_fault, int_max}
use uppaal_to_tchecker.Arrays.{extent}
use uppaal_to_tchecker.Decl.{count_of, indices, each_cell, declare_cell, enumerate_array_elements}

-- The indices of a cell, the last one in front, its type and its initialiser.
abbrev pub Cell : Type 0
Cell = List ℤ × Ty × Expr

-- The cells of each index from the k-th, in order.
unfoldable pub collect_cells :
    (ℤ → Expr → Outcome (List Cell)) → Bool → Expr → ℤ → ℕ → ℕ → Outcome (List Cell)
unfolding ◌+ℤ◌
collect_cells items noinit init low k zero = ok []
collect_cells items noinit init low k (suc n) = do
  e ← (if noinit then ok init else or_fault (child init k))
  xs ← items (low +ℤ pos k) e
  ys ← collect_cells items noinit init low (suc k) n
  ok (xs ++ ys)

-- The cells of a type under the indices `s`.
unfoldable pub cells : Utap → Instance → ℕ → Ty → List ℤ → Expr → Outcome (List Cell)
unfolding collect_cells compute_range_bounds extent
cells u p f (array_type t sz) s init = do
  bounds ← compute_range_bounds u p f (u.get_array_size (array_type t sz))
  n ← extent bounds
  require (not (ltb_ℤ (pos (size init)) n && not (is_empty init)))
  assert (not (eqb_ℤ bounds.1 int_max))
  collect_cells (λ i e. cells u p f t (i ∷ s) e) (is_empty init) init bounds.0 0 (count_of n)
cells u p f t s init = ok ((s, t, init) ∷ [])

abbrev pub declare_at : Utap → Instance → ℕ → Text → Cell → Outputter → Outcome Outputter
declare_at u p f name (s, t, e) o = declare_cell u p f (name ++ indices s) t (kind t) e o

module _ (step : Cell → Outputter → Outcome Outputter) (items : ℤ → Expr → Outcome (List Cell))
    (cell : ℤ → Expr → Outputter → Outcome Outputter)
    (one_pass : (i : ℤ) (e : Expr) (xs : List Cell)
      → items i e ≡ ok xs
      → (o : Outputter) → cell i e o ≡ run_all step xs o) where
  each_cell-run_all :
      (noinit : Bool) (init : Expr) (low : ℤ) (k n : ℕ) (xs : List Cell)
      → collect_cells items noinit init low k n ≡ ok xs
      → (o : Outputter) → each_cell cell noinit init low k n o ≡ run_all step xs o
  unfolding each_cell collect_cells run_all
  each_cell-run_all noinit init low k zero xs q o =
      ap (λ l. run_all step l o) (ok-injective [] xs q)
  each_cell-run_all noinit init low k (suc n) xs q o =
      let (e, first, q1) = bind-ok (if noinit then ok init else or_fault (child init k)) _ xs q in
      let (ys, here, rest) = bind-ok (items (low +ℤ pos k) e) _ xs q1 in
      let (zs, later, both) = bind-ok (collect_cells items noinit init low (suc k) n) _ xs rest in
      ap
        (λ m. m >>= λ e'.
          cell (low +ℤ pos k) e' o >>= λ o'. each_cell cell noinit init low (suc k) n o')
        first
      ∙ ap (λ m. m >>= each_cell cell noinit init low (suc k) n)
          (one_pass (low +ℤ pos k) e ys here o)
      ∙ bind-cong (run_all step ys o) (each_cell cell noinit init low (suc k) n) (run_all step zs)
          (λ r. each_cell-run_all noinit init low (suc k) n zs later r)
      ∙ sym (run_all-append step ys zs o)
      ∙ ap (λ l. run_all step l o) (ok-injective (ys ++ zs) xs both)

module _ (u : Utap) (p : Instance) (f : ℕ) (name : Text) where
  pub enumerate_array_elements-run_all :
      (t : Ty) (s : List ℤ) (init : Expr) (xs : List Cell)
      → cells u p f t s init ≡ ok xs
      → (o : Outputter)
      → enumerate_array_elements u p f name t s init o ≡ run_all (declare_at u p f name) xs o
  unfolding cells enumerate_array_elements
  enumerate_array_elements-run_all (array_type t sz) s init xs q o =
      let (bounds, is_range, q1) =
        bind-ok (compute_range_bounds u p f (u.get_array_size (array_type t sz))) _ xs q in
      let (n, is_size, q2) = bind-ok (extent bounds) _ xs q1 in
      let (x, is_enough, q3) =
        bind-ok (require (not (ltb_ℤ (pos (size init)) n && not (is_empty init)))) _ xs q2 in
      let (y, is_bounded, q4) = bind-ok (assert (not (eqb_ℤ bounds.1 int_max))) _ xs q3 in
      rw (is_range, is_size, is_enough, is_bounded)
        (each_cell-run_all (declare_at u p f name) (λ i e. cells u p f t (i ∷ s) e)
          (λ i e o'. enumerate_array_elements u p f name t (i ∷ s) e o')
          (λ i e ys k o'. enumerate_array_elements-run_all t (i ∷ s) e ys k o') (is_empty init) init
          bounds.0 0 (count_of n) xs q4 o)
  enumerate_array_elements-run_all (base k) s init xs q o =
      sym (run_all-one (declare_at u p f name) (s, base k, init) o)
      ∙ ap (λ l. run_all (declare_at u p f name) l o) (ok-injective ((s, base k, init) ∷ []) xs q)
  enumerate_array_elements-run_all (prefix k t) s init xs q o =
      sym (run_all-one (declare_at u p f name) (s, prefix k t, init) o)
      ∙ ap (λ l. run_all (declare_at u p f name) l o)
          (ok-injective ((s, prefix k t, init) ∷ []) xs q)
  enumerate_array_elements-run_all (range t a b) s init xs q o =
      sym (run_all-one (declare_at u p f name) (s, range t a b, init) o)
      ∙ ap (λ l. run_all (declare_at u p f name) l o)
          (ok-injective ((s, range t a b, init) ∷ []) xs q)
