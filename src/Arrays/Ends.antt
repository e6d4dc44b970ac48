-- ===== src/Arrays/Ends.antt =====
-- The tests of arrays where evaluations end (src/utot-decl.cc, src/utot-expr.cc).
use uppaal_to_tchecker.Base.{Option, none, some}
use uppaal_to_tchecker.Base.Integers.{ℤ}
use uppaal_to_tchecker.Outcome.Ends.{Ends, ending, Ends-ok, Ends-fault}
use uppaal_to_tchecker.Utap.{Expr, Exprs, Ty, Utap, empty, identifier, nil, cons}
use uppaal_to_tchecker.Expr.{
  Instance, eval_integer_constant, compute_range_bounds, as_int, or_fault, range_bounds,
}
use uppaal_to_tchecker.Arrays.{
  is_one_dim_array_type, are_all_equals_in_list, variable_is_uniform, is_one_dim_array_variable,
  extent, initial_list, first_and_rest,
}

pub Ends-or_fault : {A : Type 0} (o : Option A) → Ends (λ g f. or_fault o)
Ends-or_fault none = Ends-fault
Ends-or_fault (some a) = Ends-ok a

pub Ends-as_int : (z : ℤ) → Ends (λ g f. as_int z)
unfolding as_int
Ends-as_int z = search ending

pub Ends-extent : (b : ℤ × ℤ) → Ends (λ g f. extent b)
unfolding extent
Ends-extent b = search (ending, Ends-as_int)

Ends-initial_list : (u : Utap) (e : Expr) → Ends (λ g f. initial_list u e)
unfolding initial_list
Ends-initial_list u (identifier s) = search (ending, Ends-or_fault) depth 8
Ends-initial_list u _ = search ending

Ends-first_and_rest : (u : Utap) (es : Exprs) → Ends (λ g f. first_and_rest u es)
unfolding first_and_rest
Ends-first_and_rest u nil = search ending
Ends-first_and_rest u (cons e es) = search ending

module _ (u : Utap) (p : Instance)
    (evals : (e : Expr) → Ends (λ g f. eval_integer_constant u p g e)) where
  pub compute_range_bounds-Ends : (t : Ty) → Ends (λ g f. compute_range_bounds u p g t)
  unfolding compute_range_bounds range_bounds
  compute_range_bounds-Ends t = search (ending, evals) depth 12

  pub is_one_dim_array_type-Ends : (t : Ty) → Ends (λ g f. is_one_dim_array_type u p g t)
  unfolding is_one_dim_array_type
  is_one_dim_array_type-Ends t = search (ending, compute_range_bounds-Ends) depth 8

  pub are_all_equals_in_list-Ends : (e : Expr) → Ends (λ g f. are_all_equals_in_list u p g e)
  unfolding are_all_equals_in_list
  are_all_equals_in_list-Ends empty = search ending
  are_all_equals_in_list-Ends e =
      search
        (ending, compute_range_bounds-Ends, Ends-extent, Ends-initial_list, Ends-first_and_rest)
        depth 12

  variable_is_uniform-Ends : (o : Option Expr) → Ends (λ g f. variable_is_uniform u p g o)
  unfolding variable_is_uniform
  variable_is_uniform-Ends none = search ending
  variable_is_uniform-Ends (some e) = search (ending, are_all_equals_in_list-Ends)

  pub is_one_dim_array_variable-Ends : (e : Expr) → Ends (λ g f. is_one_dim_array_variable u p g e)
  unfolding is_one_dim_array_variable
  is_one_dim_array_variable-Ends e =
      search (ending, is_one_dim_array_type-Ends, variable_is_uniform-Ends) depth 10
