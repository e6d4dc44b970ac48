-- ===== src/Decl/Ends.antt =====
-- Declarations where evaluations end (src/utot-decl.cc).
use uppaal_to_tchecker.Base.{ℕ, zero, suc, Text, Bool, Option, none, some, List, [], ◌∷◌}
use uppaal_to_tchecker.Base.Integers.{ℤ}
use uppaal_to_tchecker.Outcome.{Outcome}
use uppaal_to_tchecker.Outcome.Ends.{Ends, ending}
use uppaal_to_tchecker.Utap.{
  Expr, Ty, Kind, Utap, base, prefix, range, array_type, range_of, bool, const, channel, broadcast,
  urgent, clock, array_of,
}
use uppaal_to_tchecker.Prefix.{Prefix}
use uppaal_to_tchecker.Tchecker.{Outputter}
use uppaal_to_tchecker.Expr.{Instance, eval_integer_constant, compute_range_bounds}
use uppaal_to_tchecker.Arrays.Ends.{
  compute_range_bounds-Ends, is_one_dim_array_type-Ends, are_all_equals_in_list-Ends, Ends-or_fault,
  Ends-extent,
}
use uppaal_to_tchecker.Decl.{
  Variable, variable_bounds, default_value, output_integer_variable, each_cell, declare_cell,
  enumerate_array_elements, element_bounds, declare_one_dim_array, tchecker_array, declare_array,
  declare_variable, declare_all, translate_declarations,
}

-- A loop over cells ends where its rounds do.
each_cell-Ends :
    (cell : ℕ → ℕ → ℤ → Expr → Outputter → Outcome Outputter)
    → ((i : ℤ) (e : Expr) (o : Outputter) → Ends (λ g f. cell g f i e o))
    → (noinit : Bool) (init : Expr) (low : ℤ) (k n : ℕ) (o : Outputter)
    → Ends (λ g f. each_cell (cell g f) noinit init low k n o)
unfolding each_cell
each_cell-Ends cell rounds noinit init low k zero o = search ending
each_cell-Ends cell rounds noinit init low k (suc n) o =
    let rest = each_cell-Ends cell rounds noinit init low (suc k) n in
    search (ending, Ends-or_fault, rounds, rest) depth 10

Ends-default_value : (b : Option (ℤ × ℤ)) → Ends (λ g f. default_value b)
unfolding default_value
Ends-default_value none = search ending
Ends-default_value (some b) = search ending

module _ (u : Utap) (p : Instance)
    (evals : (e : Expr) → Ends (λ g f. eval_integer_constant u p g e)) where
  bounds-Ends : (t : Ty) → Ends (λ g f. compute_range_bounds u p g t)
  bounds-Ends = compute_range_bounds-Ends u p evals

  variable_bounds-Ends : (t : Ty) (k : Kind) → Ends (λ g f. variable_bounds u p g t k)
  unfolding variable_bounds
  variable_bounds-Ends t range_of = search (ending, bounds-Ends) depth 8
  variable_bounds-Ends t _ = search ending

  output_integer_variable-Ends :
      (name : Text) (t : Ty) (init : Expr) (o : Outputter)
      → Ends (λ g f. output_integer_variable u p g name t init o)
  unfolding output_integer_variable
  output_integer_variable-Ends name t init o =
      search (ending, evals, Ends-default_value, variable_bounds-Ends) depth 12

  declare_cell-Ends :
      (name : Text) (t : Ty) (k : Kind) (init : Expr) (o : Outputter)
      → Ends (λ g f. declare_cell u p g name t k init o)
  unfolding declare_cell
  declare_cell-Ends name t channel init o = search ending
  declare_cell-Ends name t broadcast init o = search ending
  declare_cell-Ends name t urgent init o = search ending
  declare_cell-Ends name t clock init o = search ending
  declare_cell-Ends name t _ init o = output_integer_variable-Ends name t init o

  enumerate_array_elements-Ends :
      (name : Text) (t : Ty) (s : List ℤ) (init : Expr) (o : Outputter)
      → Ends (λ g f. enumerate_array_elements u p g name t s init o)
  unfolding enumerate_array_elements
  enumerate_array_elements-Ends name (array_type t sz) s init o =
      let cells =
        each_cell-Ends (λ g f i e r. enumerate_array_elements u p g name t (i ∷ s) e r)
          (λ i e r. enumerate_array_elements-Ends name t (i ∷ s) e r) in
      search (ending, bounds-Ends, Ends-extent, cells) depth 14
  enumerate_array_elements-Ends name (base k) s init o = declare_cell-Ends _ (base k) k init o
  enumerate_array_elements-Ends name (prefix k t) s init o =
      declare_cell-Ends _ (prefix k t) k init o
  enumerate_array_elements-Ends name (range t a b) s init o =
      declare_cell-Ends _ (range t a b) range_of init o

  element_bounds-Ends : (t : Ty) → Ends (λ g f. element_bounds u p g t)
  unfolding element_bounds
  element_bounds-Ends t = search (ending, evals) depth 10

  declare_one_dim_array-Ends :
      (name : Text) (n : ℤ) (t : Ty) (init : Expr) (o : Outputter)
      → Ends (λ g f. declare_one_dim_array u p g name n t init o)
  unfolding declare_one_dim_array
  declare_one_dim_array-Ends name n t init o = search (ending, evals, element_bounds-Ends) depth 12

  declare_array-Ends :
      (name : Text) (t : Ty) (init : Expr) (o : Outputter)
      → Ends (λ g f. declare_array u p g name t init o)
  unfolding declare_array tchecker_array
  declare_array-Ends name t init o =
      let one = is_one_dim_array_type-Ends u p evals t in
      let alike = are_all_equals_in_list-Ends u p evals init in
      search
        (ending, one, alike, Ends-extent, declare_one_dim_array-Ends, enumerate_array_elements-Ends)
        depth 16

  declare_variable-Ends :
      (name : Text) (t : Ty) (k : Kind) (init : Expr) (o : Outputter)
      → Ends (λ g f. declare_variable u p g name t k init o)
  unfolding declare_variable
  declare_variable-Ends name t array_of init o = declare_array-Ends name t init o
  declare_variable-Ends name t const init o = output_integer_variable-Ends name t init o
  declare_variable-Ends name t bool init o = output_integer_variable-Ends name t init o
  declare_variable-Ends name t range_of init o = output_integer_variable-Ends name t init o
  declare_variable-Ends name t _ init o = search ending

  declare_all-Ends :
      (ctx : Prefix) (vs : List Variable) (o : Outputter) → Ends (λ g f. declare_all u p g ctx vs o)
  unfolding declare_all
  declare_all-Ends ctx [] o = search ending
  declare_all-Ends ctx (v ∷ vs) o =
      let rest = declare_all-Ends ctx vs in search (ending, declare_variable-Ends, rest) depth 8

pub translate_declarations-Ends :
    (u : Utap) (p : Instance)
    → ((e : Expr) → Ends (λ g f. eval_integer_constant u p g e))
    → (ctx : Prefix) (vs : List Variable) (o : Outputter)
    → Ends (λ g f. translate_declarations u p g ctx vs o)
unfolding translate_declarations
translate_declarations-Ends u (some m) evals ctx vs o = declare_all-Ends u (some m) evals ctx vs o
translate_declarations-Ends u none evals ctx [] o = search ending
translate_declarations-Ends u none evals ctx (v ∷ vs) o = declare_all-Ends u none evals ctx vs o
