-- ===== src/Translate/Values.antt =====
-- What expressions are worth at run time: Uppaal's, over the values of the model's variables, and
-- TChecker's, over the variables that the translation declares (src/utot-expr.cc).
use uppaal_to_tchecker.Base.{
  ◌≡◌, refl, ℕ, zero, suc, Text, true, false, Option, none, some, List, [], ◌∷◌, ◌++◌,
  if◌then◌else◌,
}
use uppaal_to_tchecker.Base.Integers.{ℤ, pos, ◌-ℤ◌}
use uppaal_to_tchecker.Outcome.{Outcome, ok, thrown, out_of_fuel, ◌>>=◌}
use uppaal_to_tchecker.Utap.{
  Symbol, Expr, Binary, constant, identifier, unary, binary, inline_if, array, logical_not,
  unary_minus, plus, minus, mult, div, modulo, logical_and, logical_or, lt, le, eq, neq, ge, gt,
}
use uppaal_to_tchecker.Expr.{Instance, bound, as_int, apply_binary, is_evaluated, truth, is_zero}
use uppaal_to_tchecker.Translate.{flat_text}
use uppaal_to_tchecker.Translate.Terms.{
  Operator, Term, Body, variable, numeral, cell, negation, opposite, group, single, applied, choice,
  add, subtract, times, over, remains, both, below, at_most, equals, differs, at_least, above,
}

-- The outcome of the second operand, as a truth value.
abbrev pub as_truth : Outcome ℤ → Outcome ℤ
as_truth m = m >>= λ y. ok (truth (if is_zero y then false else true))

-- The values of TChecker's variables and of the cells of its arrays, which start at 0.
pub record Store : Type 0 where
  pub variables : Text → Outcome ℤ
  pub cells : Text → ℤ → Outcome ℤ

abbrev pub kind_of : Operator → Binary
kind_of add = plus
kind_of subtract = minus
kind_of times = mult
kind_of over = div
kind_of remains = modulo
kind_of both = logical_and
kind_of below = lt
kind_of at_most = le
kind_of equals = eq
kind_of differs = neq
kind_of at_least = ge
kind_of above = gt

-- `both` does not evaluate its second operand after a first that is 0.
abbrev pub operate : Operator → Outcome ℤ → Outcome ℤ → Outcome ℤ
operate both m r = do x ← m; if is_zero x then ok (pos 0) else as_truth r
operate k m r = do x ← m; y ← r; apply_binary (kind_of k) x y

-- The index of a cell, where the array starts at `low`.
unfoldable pub shifted : ℤ → ℤ → Outcome ℤ
unfolding as_int ◌-ℤ◌
shifted (pos zero) i = ok i
shifted low i = as_int (i -ℤ low)

unfoldable mutual
  unfolding shifted apply_binary as_int ◌-ℤ◌

  pub value : Store → Term → Outcome ℤ
  value w (variable name) = w.variables name
  value w (numeral n) = ok n
  value w (cell name i low) = do x ← value w i; o ← shifted low x; w.cells name o
  value w (negation b) = do x ← value_body w b; ok (truth (is_zero x))
  value w (opposite b) = do x ← value_body w b; as_int (pos 0 -ℤ x)
  value w (group b) = value_body w b

  pub value_body : Store → Body → Outcome ℤ
  value_body w (single t) = value w t
  value_body w (applied k a b) = operate k (value w a) (value w b)
  value_body w (choice c a b) = do x ← value w c; if is_zero x then value w b else value w a

-- The values of Uppaal's variables: of a symbol, with the indices of an element.
abbrev pub State : Type 0
State = Symbol → List ℤ → Outcome ℤ

-- What stands for a symbol, or the symbol itself.
abbrev pub instead : {A : Type 0} → Option Expr → (Expr → A) → A → A
instead (some e) of_expression of_symbol = of_expression e
instead none of_expression of_symbol = of_symbol

-- The element that an expression names; the two arguments are for its parts.
unfoldable pub place_step :
    Instance
    → (Expr → Outcome (Symbol × List ℤ))
    → (Expr → Outcome ℤ)
    → Expr
    → Outcome (Symbol × List ℤ)
place_step p place meaning (identifier s) = instead (bound p s) place (ok (s, []))
place_step p place meaning (array a i) = do (s, is) ← place a; j ← meaning i; ok (s, is ++ (j ∷ []))
place_step p place meaning _ = thrown

unfoldable pub meaning_step :
    Instance → State → (Expr → Outcome (Symbol × List ℤ)) → (Expr → Outcome ℤ) → Expr → Outcome ℤ
unfolding apply_binary as_int ◌-ℤ◌
meaning_step p σ place meaning (unary logical_not a) = do x ← meaning a; ok (truth (is_zero x))
meaning_step p σ place meaning (unary unary_minus a) = do x ← meaning a; as_int (pos 0 -ℤ x)
meaning_step p σ place meaning (binary logical_and a b) = do
  x ← meaning a
  if is_zero x then ok (pos 0) else as_truth (meaning b)
meaning_step p σ place meaning (binary logical_or a b) = do
  x ← meaning a
  if is_zero x then as_truth (meaning b) else ok (pos 1)
meaning_step p σ place meaning (binary k a b) =
    if is_evaluated k then (do x ← meaning a; y ← meaning b; apply_binary k x y) else thrown
meaning_step p σ place meaning (inline_if c a b) = do
  x ← meaning c
  if is_zero x then meaning b else meaning a
meaning_step p σ place meaning (identifier s) = instead (bound p s) meaning (σ s [])
meaning_step p σ place meaning (constant n) = ok n
meaning_step p σ place meaning (array a i) = do
  (s, is) ← place a
  j ← meaning i
  σ s (is ++ (j ∷ []))
meaning_step p σ place meaning _ = thrown

-- The run-time value in Uppaal, where the parameters and the selections of the instance stand for
-- their expressions. The fuel is for those.
unfoldable mutual
  unfolding place_step meaning_step

  pub place : Instance → State → ℕ → Expr → Outcome (Symbol × List ℤ)
  place p σ zero e = out_of_fuel
  place p σ (suc n) e = place_step p (place p σ n) (meaning p σ n) e

  pub meaning : Instance → State → ℕ → Expr → Outcome ℤ
  meaning p σ zero e = out_of_fuel
  meaning p σ (suc n) e = meaning_step p σ (place p σ n) (meaning p σ n) e

-- The name of the variable that holds an element of a split array.
abbrev pub flat_name : Text → List ℤ → Text
flat_name name [] = name
flat_name name (i ∷ is) = flat_name (flat_text name i) is

pub flat_name-append :
    (name : Text) (is : List ℤ) (j : ℤ)
    → flat_name name (is ++ (j ∷ [])) ≡ flat_text (flat_name name is) j
flat_name-append name [] j = refl
flat_name-append name (i ∷ is) j = flat_name-append (flat_text name i) is j
