-- ===== src/Translate.antt =====
-- Expressions, assignments and events as TChecker text (src/utot-expr.cc).
pub mod Ends
pub mod Terms
pub mod Reader
pub mod Parts
pub mod RoundTrip
pub mod Values
pub mod Constants
pub mod Names
pub mod Places
pub mod Preserved
pub mod Correct
pub mod Refused
pub mod Statements
pub mod Restated
pub mod Assignments
pub mod Assigned
use uppaal_to_tchecker.Base.{
  ℕ, zero, suc, Text, codes, ◌&&◌, Option, none, some, ◌++◌, if◌then◌else◌,
}
use uppaal_to_tchecker.Base.Integers.{ℤ, pos, decimal, leb_ℤ}
use uppaal_to_tchecker.Outcome.{Outcome, ok, thrown, fault, out_of_fuel, ◌>>=◌, ◌>>◌, require}
use uppaal_to_tchecker.Utap.{
  Symbol, Expr, Unary, Binary, Utap, empty, constant, identifier, unary, binary, inline_if, array,
  sync_on, logical_not, unary_minus, post_increment, pre_increment, post_decrement, pre_decrement,
  plus, minus, mult, div, modulo, logical_and, logical_or, lt, le, eq, neq, ge, gt, assign,
  ass_plus, ass_minus, ass_div, ass_mod, ass_mult, comma,
}
use uppaal_to_tchecker.Prefix.{Prefix, add_prefix}
use uppaal_to_tchecker.Expr.{Instance, bound, eval_integer_constant, compute_range_bounds, is_zero}
use uppaal_to_tchecker.Arrays.{is_one_dim_array_variable}
use uppaal_to_tchecker.Tchecker.{do_nop}

-- The operator of the kinds that BINARY_OP lists.
abbrev pub binary_op : Binary → Option Text
binary_op plus = some (codes "+")
binary_op minus = some (codes "-")
binary_op mult = some (codes "*")
binary_op div = some (codes "/")
binary_op modulo = some (codes "%")
binary_op logical_and = some (codes "&&")
binary_op lt = some (codes "<")
binary_op le = some (codes "<=")
binary_op eq = some (codes "==")
binary_op neq = some (codes "!=")
binary_op ge = some (codes ">=")
binary_op gt = some (codes ">")
binary_op _ = none

-- s_binary_op
abbrev pub infix_text : Text → Text → Text → Text
infix_text op a b = codes "(" ++ (a ++ (codes " " ++ (op ++ (codes " " ++ (b ++ codes ")")))))

-- s_unary_op, the operator in front
abbrev pub prefix_text : Text → Text → Text
prefix_text op a = op ++ (codes "(" ++ (a ++ codes ")"))

abbrev pub or_text : Text → Text → Text
or_text a b = codes "!(!(" ++ (a ++ (codes ") && !(" ++ (b ++ codes "))")))

abbrev pub inline_if_text : Text → Text → Text → Text
inline_if_text c a b =
    codes "(if " ++ (c ++ (codes " then " ++ (a ++ (codes " else " ++ (b ++ codes ")")))))

-- A cell of an array that TChecker has: the index is shifted to start at 0.
abbrev pub cell_text : Text → Text → ℤ → Text
cell_text a i (pos zero) = a ++ (codes "[" ++ (i ++ codes "]"))
cell_text a i low = a ++ (codes "[" ++ (i ++ (codes "-" ++ (decimal low ++ codes "]"))))

-- A cell of an array that is split into variables.
abbrev pub flat_text : Text → ℤ → Text
flat_text a index = a ++ (codes "_" ++ decimal index)

-- The name of a symbol: local ones carry the prefix.
unfoldable pub symbol_text : Utap → Prefix → Symbol → Text
unfolding add_prefix
symbol_text u ctx s = if u.has_parent s then add_prefix ctx (u.symbol_name s) else u.symbol_name s

-- minsz <= index && index <= maxsz, or tr_err
abbrev pub within : ℤ × ℤ → ℤ → Outcome (Unit {0})
within (low, high) index = require (leb_ℤ low index && leb_ℤ index high)

-- What an identifier stands for, by its binding; `again` is the function itself.
abbrev pub replaced : (Expr → Outcome Text) → Option Expr → Text → Outcome Text
replaced again (some e) name = again e
replaced again none name = ok name

unfoldable pub event_kind :
    Utap → Instance → ℕ → Prefix → (Expr → Outcome Text) → Expr → Outcome Text
unfolding bound symbol_text eval_integer_constant compute_range_bounds
event_kind u p g ctx again (identifier s) = replaced again (bound p s) (symbol_text u ctx s)
event_kind u p g ctx again (array a i) = do
  index ← eval_integer_constant u p g i
  bounds ← compute_range_bounds u p g (u.get_array_size (u.type_of a))
  within bounds index
  name ← again a
  shown ← eval_integer_constant u p g i
  ok (flat_text name shown)
event_kind u p g ctx again (sync_on s e) = again e
event_kind u p g ctx again empty = fault
event_kind u p g ctx again _ = thrown

-- translate_event_expression; `g` is the fuel of the evaluations
unfoldable pub translate_event_expression : Utap → Instance → ℕ → Prefix → ℕ → Expr → Outcome Text
unfolding event_kind
translate_event_expression u p g ctx zero e = out_of_fuel
translate_event_expression u p g ctx (suc f) e =
    event_kind u p g ctx (translate_event_expression u p g ctx f) e

abbrev pub binary_case : (Expr → Outcome Text) → Option Text → Expr → Expr → Outcome Text
binary_case again none a b = thrown
binary_case again (some op) a b = do x ← again a; y ← again b; ok (infix_text op x y)

-- The switch of translate_expression; `again` is the function itself and `event` is
-- translate_event_expression.
unfoldable pub expression_kind :
    Utap
    → Instance
    → ℕ
    → Prefix
    → (Expr → Outcome Text)
    → (Expr → Outcome Text)
    → Expr
    → Outcome Text
unfolding bound symbol_text eval_integer_constant is_one_dim_array_variable
expression_kind u p g ctx again event (unary logical_not a) = do
  x ← again a
  ok (prefix_text (codes "!") x)
expression_kind u p g ctx again event (unary unary_minus a) = do
  x ← again a
  ok (prefix_text (codes "-") x)
expression_kind u p g ctx again event (binary logical_or a b) = do
  x ← again a
  y ← again b
  ok (or_text x y)
expression_kind u p g ctx again event (binary k a b) = binary_case again (binary_op k) a b
expression_kind u p g ctx again event (inline_if c a b) = do
  x ← again c
  y ← again a
  z ← again b
  ok (inline_if_text x y z)
expression_kind u p g ctx again event (identifier s) =
    replaced again (bound p s) (symbol_text u ctx s)
expression_kind u p g ctx again event (constant n) = ok (decimal n)
expression_kind u p g ctx again event (array a i) = do
  (one, bounds) ← is_one_dim_array_variable u p g a
  if one then (do x ← again a; y ← again i; ok (cell_text x y bounds.0)) else (do
    index ← eval_integer_constant u p g i
    within bounds index
    x ← again a
    ok (flat_text x index))
expression_kind u p g ctx again event (sync_on s e) = event (sync_on s e)
expression_kind u p g ctx again event empty = fault
expression_kind u p g ctx again event _ = thrown

-- translate_expression
unfoldable pub translate_expression : Utap → Instance → ℕ → Prefix → ℕ → Expr → Outcome Text
unfolding expression_kind translate_event_expression
translate_expression u p g ctx zero e = out_of_fuel
translate_expression u p g ctx (suc f) e =
    expression_kind u p g ctx (translate_expression u p g ctx f)
      (translate_event_expression u p g ctx f) e

-- The operator of the kinds that ASSIGN_OP lists.
abbrev pub assign_op : Binary → Option Text
assign_op ass_plus = some (codes "+")
assign_op ass_minus = some (codes "-")
assign_op ass_div = some (codes "/")
assign_op ass_mod = some (codes "%")
assign_op ass_mult = some (codes "*")
assign_op _ = none

abbrev pub increment_op : Unary → Option Text
increment_op post_increment = some (codes "+")
increment_op pre_increment = some (codes "+")
increment_op post_decrement = some (codes "-")
increment_op pre_decrement = some (codes "-")
increment_op _ = none

-- s_assign_binary_op; `expr` is translate_expression
abbrev pub assign_binary_op : (Expr → Outcome Text) → Option Text → Expr → Expr → Outcome Text
assign_binary_op expr none var arg = thrown
assign_binary_op expr (some op) var arg = do
  x ← expr var
  y ← expr var
  z ← expr arg
  ok (x ++ (codes "=" ++ (y ++ (op ++ z))))

-- translate_assignment: it recurs on the operands of a comma only. Kinds that are no assignment,
-- s_not_an_assignment, and those that are not supported throw.
unfoldable pub translate_assignment : Utap → Instance → ℕ → Prefix → ℕ → Expr → Outcome Text
unfolding translate_expression eval_integer_constant
translate_assignment u p g ctx f (binary assign a b) = do
  x ← translate_expression u p g ctx f a
  y ← translate_expression u p g ctx f b
  ok (x ++ (codes "=" ++ y))
translate_assignment u p g ctx f (binary comma a b) = do
  x ← translate_assignment u p g ctx f a
  y ← translate_assignment u p g ctx f b
  ok (x ++ (codes ";" ++ y))
translate_assignment u p g ctx f (binary k a b) =
    assign_binary_op (translate_expression u p g ctx f) (assign_op k) a b
translate_assignment u p g ctx f (unary k a) =
    assign_binary_op (translate_expression u p g ctx f) (increment_op k) a (constant (pos 1))
translate_assignment u p g ctx f (constant n) = do
  x ← eval_integer_constant u none g (constant n)
  if is_zero x then thrown else ok do_nop
translate_assignment u p g ctx f empty = fault
translate_assignment u p g ctx f _ = thrown
