-- ===== src/Arrays.antt =====
-- Which arrays TChecker has: is_one_dim_array_type, are_all_equals_in_list (src/utot-decl.cc) and
-- is_one_dim_array_variable (src/utot-expr.cc).
pub mod Ends
use uppaal_to_tchecker.Base.{ℕ, Bool, true, false, Option, none, some, if◌then◌else◌}
use uppaal_to_tchecker.Base.Integers.{ℤ, pos, ◌+ℤ◌, ◌-ℤ◌, eqb_ℤ}
use uppaal_to_tchecker.Outcome.{Outcome, ok, fault, ◌>>=◌, ◌>>◌, require, assert}
use uppaal_to_tchecker.Utap.{
  Expr, Exprs, Ty, Kind, Utap, empty, identifier, nil, cons, prefix, is_empty, children, size, kind,
  sub, int, bool, clock, label, ref, range_of,
}
use uppaal_to_tchecker.Expr.{Instance, compute_range_bounds, or_fault, as_int}

-- `while (kind == REF || kind == LABEL) t = t[0]`
unfoldable pub strip_refs : Ty → Ty
strip_refs (prefix label t) = strip_refs t
strip_refs (prefix ref t) = strip_refs t
strip_refs t = t

abbrev is_base : Kind → Bool
is_base bool = true
is_base clock = true
is_base int = true
is_base range_of = true
is_base _ = false

-- is_one_dim_array_type: the answer, minsz, maxsz and basetype
unfoldable pub is_one_dim_array_type : Utap → Instance → ℕ → Ty → Outcome (Bool × (ℤ × ℤ) × Ty)
unfolding compute_range_bounds strip_refs
is_one_dim_array_type u p f t = do
  assert (u.is_array t)
  bounds ← compute_range_bounds u p f (u.get_array_size t)
  let t' = sub (strip_refs t)
  let basetype = strip_refs t'
  ok (
      if u.is_array t'
      then (false, bounds, basetype)
      else (is_base (kind basetype), bounds, basetype))

-- max - min + 1
unfoldable pub extent : ℤ × ℤ → Outcome ℤ
unfolding as_int ◌+ℤ◌ ◌-ℤ◌
extent (low, high) = do n ← as_int (high -ℤ low); as_int (n +ℤ pos 1)

-- The loop of are_all_equals_in_list.
unfoldable pub all_equal : Utap → Expr → Exprs → Bool
all_equal u val nil = true
all_equal u val (cons e es) = if u.equal val e then all_equal u val es else false

-- The expression that an identifier is replaced by.
unfoldable pub initial_list : Utap → Expr → Outcome Expr
initial_list u (identifier s) = do
  e ← or_fault (u.variable (u.get_symbol (identifier s)))
  require (if is_empty e then false else true)
  ok e
initial_list u e = ok e

unfoldable pub first_and_rest : Utap → Exprs → Outcome (Bool × Expr)
unfolding all_equal
first_and_rest u nil = fault
first_and_rest u (cons val es) = ok (all_equal u val es, val)

-- are_all_equals_in_list: the answer and val
unfoldable pub are_all_equals_in_list : Utap → Instance → ℕ → Expr → Outcome (Bool × Expr)
unfolding compute_range_bounds extent initial_list first_and_rest
are_all_equals_in_list u p f empty = ok (true, empty)
are_all_equals_in_list u p f expr = do
  assert (u.is_array (u.type_of expr))
  values ← initial_list u expr
  bounds ← compute_range_bounds u p f (u.get_array_size (u.type_of values))
  sz ← extent bounds
  require (eqb_ℤ (pos (size values)) sz)
  first_and_rest u (children values)

unfoldable pub variable_is_uniform : Utap → Instance → ℕ → Option Expr → Outcome Bool
unfolding are_all_equals_in_list
variable_is_uniform u p f none = ok true
variable_is_uniform u p f (some e) = do (same, val) ← are_all_equals_in_list u p f e; ok same

-- is_one_dim_array_variable: the answer, minsz and maxsz
unfoldable pub is_one_dim_array_variable : Utap → Instance → ℕ → Expr → Outcome (Bool × (ℤ × ℤ))
unfolding is_one_dim_array_type variable_is_uniform
is_one_dim_array_variable u p f e = do
  (one, bounds, basetype) ← is_one_dim_array_type u p f (u.type_of e)
  if one
      then (do same ← variable_is_uniform u p f (u.variable (u.get_symbol e)); ok (same, bounds))
      else ok (false, bounds)
