-- ===== src/Expr/Halts.antt =====
-- The rank of constants and the end of evaluations (src/utot-expr.cc).
use uppaal_to_tchecker.Base.{ℕ, zero, suc, ◌≤◌, ◌<◌, Option, none, some, ◌≡◌, ◌≢◌, arith}
use uppaal_to_tchecker.Base.Integers.{ℤ, pos, negsuc}
use uppaal_to_tchecker.Outcome.{
  Outcome, ok, out_of_fuel, Settles, Settles-ne, Settles-ok, Settles-thrown, Settles-fault,
  settling,
}
use uppaal_to_tchecker.Utap.{
  Expr, Exprs, Unary, Binary, Ty, Utap, empty, identifier, unary, binary, inline_if, array, list,
  logical_and, logical_or, logical_not, unary_minus, child,
}
use uppaal_to_tchecker.Expr.{
  Instance, range_bounds, strip_labels, at_index, or_fault, constant_value, array_elements,
  eval_kind, eval_step, eval_integer_constant, as_int, apply_binary, bound, initialiser, shift_left,
  shift_right,
}

-- The constants of a model are ranked: whatever the evaluation of an expression evaluates next has a
-- lower rank. (UTAP declares a constant before it is used, so such a ranking exists.)
pub record Ranked (u : Utap) (p : Instance) (rank : Expr → ℕ) : Type 0 where
  pub unary_lt : (k : Unary) (a : Expr) → rank a < rank (unary k a)
  pub left_lt : (k : Binary) (a b : Expr) → rank a < rank (binary k a b)
  pub right_lt : (k : Binary) (a b : Expr) → rank b < rank (binary k a b)
  pub test_lt : (c a b : Expr) → rank c < rank (inline_if c a b)
  pub then_lt : (c a b : Expr) → rank a < rank (inline_if c a b)
  pub else_lt : (c a b : Expr) → rank b < rank (inline_if c a b)
  pub index_lt : (a i : Expr) → rank i < rank (array a i)
  pub low_lt :
      (a i : Expr)
      → rank (u.get_range (strip_labels (u.get_array_size (u.type_of a)))).0 < rank (array a i)
  pub high_lt :
      (a i : Expr)
      → rank (u.get_range (strip_labels (u.get_array_size (u.type_of a)))).1 < rank (array a i)
  pub element_lt :
      (a i es e : Expr) (n : ℤ)
      → array_elements u a ≡ ok es
      → at_index es n ≡ ok e
      → rank e < rank (array a i)
  pub item_lt :
      (es : Exprs) (n : ℕ) (e : Expr)
      → or_fault (child (list es) n) ≡ ok e
      → rank e < rank (list es)
  pub chosen_lt :
      (es : Exprs) (a e : Expr) (n : ℤ)
      → or_fault (child (list es) 0) ≡ ok a
      → at_index a n ≡ ok e
      → rank e < rank (list es)
  pub initial_lt :
      (s : ℕ) (e : Expr) → initialiser (u.variable s) ≡ some e → rank e < rank (identifier s)
  pub bound_lt : (s : ℕ) (e : Expr) → bound p s ≡ some e → rank e < rank (identifier s)

Settles-or_fault : (o : Option Expr) → Settles (or_fault o)
Settles-or_fault none = Settles-fault
Settles-or_fault (some e) = Settles-ok e

Settles-at_index : (e : Expr) (n : ℤ) → Settles (at_index e n)
unfolding at_index
Settles-at_index e (pos n) = Settles-or_fault (child e n)
Settles-at_index e (negsuc n) = Settles-fault

Settles-array_elements : (u : Utap) (a : Expr) → Settles (array_elements u a)
unfolding array_elements
Settles-array_elements u (identifier s) = search (settling, Settles-or_fault) depth 8
Settles-array_elements u _ = Settles-thrown

Settles-as_int : (z : ℤ) → Settles (as_int z)
unfolding as_int
Settles-as_int z = search settling

Settles-shift_left : (a b : ℤ) → Settles (shift_left a b)
unfolding shift_left
Settles-shift_left (pos a) (pos b) = search settling
Settles-shift_left (pos a) (negsuc b) = search settling
Settles-shift_left _ _ = search settling

Settles-shift_right : (a b : ℤ) → Settles (shift_right a b)
unfolding shift_right
Settles-shift_right (pos a) (pos b) = search settling
Settles-shift_right (negsuc a) (pos b) = search settling
Settles-shift_right _ _ = search settling

ruleset steps = (
  settling, Settles-or_fault, Settles-at_index, Settles-array_elements, Settles-as_int,
  Settles-shift_left, Settles-shift_right,
)

Settles-apply_binary : (k : Binary) (a b : ℤ) → Settles (apply_binary k a b)
unfolding apply_binary
Settles-apply_binary logical_and a b = search steps depth 8
Settles-apply_binary _ a b = search steps depth 8

module _ (u : Utap) (p : Instance) (rank : Expr → ℕ) (ranked : Ranked u p rank) (n : ℕ)
    (eval : Expr → Outcome ℤ) (ends : (e : Expr) → rank e < n → Settles (eval e)) where
  below : (a e : Expr) → rank a < rank e → rank e ≤ n → Settles (eval a)
  below a e h k = ends a (omega arith)

  Settles-range_bounds :
      (t : Ty)
      → rank (u.get_range (strip_labels t)).0 < n
      → rank (u.get_range (strip_labels t)).1 < n
      → Settles (range_bounds u eval t)
  unfolding range_bounds
  Settles-range_bounds t low high = search (steps, ends) depth 12

  Settles-constant_value :
      (s : ℕ) (o b : Option Expr)
      → rank (identifier s) ≤ n
      → initialiser (u.variable s) ≡ o
      → bound p s ≡ b
      → Settles (constant_value eval o b)
  Settles-constant_value s (some e) b h i q = below e (identifier s) (ranked.initial_lt s e i) h
  Settles-constant_value s none (some e) h i q = below e (identifier s) (ranked.bound_lt s e q) h
  Settles-constant_value s none none h i q = Settles-thrown

  element :
      (a i : Expr)
      → rank (array a i) ≤ n
      → (es e : Expr) (m : ℤ) → array_elements u a ≡ ok es
      → at_index es m ≡ ok e
      → Settles (eval e)
  element a i h es e m q r = below e (array a i) (ranked.element_lt a i es e m q r) h

  item :
      (es : Exprs)
      → rank (list es) ≤ n
      → (m : ℕ) (e : Expr) → or_fault (child (list es) m) ≡ ok e
      → Settles (eval e)
  item es h m e q = below e (list es) (ranked.item_lt es m e q) h

  chosen :
      (es : Exprs)
      → rank (list es) ≤ n
      → (a e : Expr) (m : ℤ) → or_fault (child (list es) 0) ≡ ok a
      → at_index a m ≡ ok e
      → Settles (eval e)
  chosen es h a e m q r = below e (list es) (ranked.chosen_lt es a e m q r) h

  Settles-eval_kind : (e : Expr) → rank e ≤ n → Settles (eval_kind u p eval e)
  unfolding eval_kind
  Settles-eval_kind (inline_if c a b) h =
      let x = below c _ (ranked.test_lt c a b) h in
      let y = below a _ (ranked.then_lt c a b) h in
      let z = below b _ (ranked.else_lt c a b) h in search (steps, x, y, z) depth 8
  Settles-eval_kind (array a i) h =
      let x = below i _ (ranked.index_lt a i) h in
      let r =
        Settles-range_bounds (u.get_array_size (u.type_of a)) (omega (arith, ranked.low_lt a i))
          (omega (arith, ranked.high_lt a i)) in
      search (steps, x, r, element a i h) depth 20
  Settles-eval_kind (list es) h = search (steps, item es h, chosen es h) depth 12
  Settles-eval_kind (identifier s) h = search (steps, Settles-constant_value) depth 8
  Settles-eval_kind (binary logical_and a b) h =
      let x = below a _ (ranked.left_lt logical_and a b) h in
      let y = below b _ (ranked.right_lt logical_and a b) h in search (steps, x, y) depth 8
  Settles-eval_kind (binary logical_or a b) h =
      let x = below a _ (ranked.left_lt logical_or a b) h in
      let y = below b _ (ranked.right_lt logical_or a b) h in search (steps, x, y) depth 8
  Settles-eval_kind (binary k a b) h =
      let x = below a _ (ranked.left_lt k a b) h in
      let y = below b _ (ranked.right_lt k a b) h in
      search (steps, x, y, Settles-apply_binary) depth 8
  Settles-eval_kind (unary logical_not a) h =
      let x = below a _ (ranked.unary_lt logical_not a) h in search (steps, x) depth 8
  Settles-eval_kind (unary unary_minus a) h =
      let x = below a _ (ranked.unary_lt unary_minus a) h in search (steps, x) depth 8
  Settles-eval_kind _ h = search steps depth 8

module _ (u : Utap) (p : Instance) (rank : Expr → ℕ) (ranked : Ranked u p rank) where
  Settles-eval : (f : ℕ) (e : Expr) → rank e < f → Settles (eval_integer_constant u p f e)
  unfolding eval_integer_constant eval_step
  Settles-eval zero e h = absurd (omega arith)
  Settles-eval (suc f) empty h = Settles-fault
  Settles-eval (suc f) e h =
      let k =
        Settles-eval_kind u p rank ranked f (eval_integer_constant u p f) (Settles-eval f) e
          (omega arith) in
      search (settling, k)

  -- With a ranking of the constants, more fuel than the rank of an expression is enough.
  pub eval_total : (f : ℕ) (e : Expr) → rank e < f → eval_integer_constant u p f e ≢ out_of_fuel
  eval_total f e h = Settles-ne (Settles-eval f e h)
