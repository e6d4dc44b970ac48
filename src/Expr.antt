-- ===== src/Expr.antt =====
-- Constant expressions and the ranges of types: eval_integer_constant (src/utot-expr.cc) and
-- compute_range_bounds (src/utot-decl.cc).
pub mod Fuel
pub mod Halts
pub mod Ends
use Prim.Native.Nat
use uppaal_to_tchecker.Base.{
  ℕ, zero, suc, ◌+◌, ◌-◌, ◌*◌, ◌/◌, ◌%◌, ◌^◌, Bool, true, false, ◌&&◌, ◌||◌, Option, none, some,
  List, [], ◌∷◌, ltb, leb, ◌==◌, if◌then◌else◌,
}
use uppaal_to_tchecker.Base.Integers.{
  ℤ, pos, negsuc, pos_part, neg_part, ◌+ℤ◌, ◌-ℤ◌, ◌*ℤ◌, ltb_ℤ, leb_ℤ, eqb_ℤ,
}
use uppaal_to_tchecker.Outcome.{
  Outcome, ok, thrown, fault, out_of_fuel, ◌>>=◌, ◌>>◌, require, assert,
}
use uppaal_to_tchecker.Utap.{
  Symbol, Expr, Unary, Binary, Other, Ty, Kind, Utap, empty, constant, identifier, unary, binary,
  inline_if, array, list, sync_on, other, prefix, is_empty, child, kind, sub, logical_not,
  unary_minus, plus, minus, mult, div, modulo, bit_and, bit_or, bit_xor, bit_lshift, bit_rshift,
  logical_and, logical_or, lt, le, eq, neq, ge, gt, min, max, int, scalar, label, const,
}

abbrev pub int_min : ℤ
int_min = negsuc (2 ^ 31 - 1)

abbrev pub int_max : ℤ
int_max = pos (2 ^ 31 - 1)

abbrev pub in_int : ℤ → Bool
in_int z = leb_ℤ int_min z && leb_ℤ z int_max

-- The value of an int operation: an overflow is undefined.
unfoldable pub as_int : ℤ → Outcome ℤ
as_int z = if in_int z then ok z else fault

abbrev pub truth : Bool → ℤ
truth true = pos 1
truth false = pos 0

abbrev pub is_zero : ℤ → Bool
is_zero z = eqb_ℤ z (pos 0)

-- A quotient with its sign.
abbrev signed : Bool → ℕ → ℤ
signed true zero = pos 0
signed true (suc n) = negsuc n
signed false n = pos n

abbrev is_negative : ℤ → Bool
is_negative (pos n) = false
is_negative (negsuc n) = true

abbrev magnitude : ℤ → ℕ
magnitude z = pos_part z + neg_part z

abbrev differ : Bool → Bool → Bool
differ true b = if b then false else true
differ false b = b

-- a / b, towards zero
unfoldable pub quotient : ℤ → ℤ → ℤ
quotient a b = signed (differ (is_negative a) (is_negative b)) (magnitude a / magnitude b)

-- a % b, with the sign of a
unfoldable pub remainder : ℤ → ℤ → ℤ
remainder a b = signed (is_negative a) (magnitude a % magnitude b)

-- The bits of an int, and the int of 32 bits.
abbrev pub to_word : ℤ → ℕ
to_word (pos n) = n % 2 ^ 32
to_word (negsuc n) = 2 ^ 32 - 1 - n % 2 ^ 32

abbrev pub of_word : ℕ → ℤ
of_word w = if ltb w (2 ^ 31) then pos w else negsuc (2 ^ 32 - 1 - w)

-- a << b: undefined unless 0 ≤ a, 0 ≤ b < 32 and a * 2^b fits 32 bits
unfoldable pub shift_left : ℤ → ℤ → Outcome ℤ
shift_left (pos a) (pos b) =
    if ltb b 32 && ltb (a * 2 ^ b) (2 ^ 32) then ok (of_word (a * 2 ^ b)) else fault
shift_left _ _ = fault

-- a >> b: of a negative int, towards minus infinity
unfoldable pub shift_right : ℤ → ℤ → Outcome ℤ
shift_right (pos a) (pos b) = if ltb b 32 then ok (pos (a / 2 ^ b)) else fault
shift_right (negsuc a) (pos b) = if ltb b 32 then ok (negsuc (a / 2 ^ b)) else fault
shift_right _ _ = fault

-- The kinds of EVAL_BINARY that evaluate both operands, and MIN and MAX.
unfoldable pub apply_binary : Binary → ℤ → ℤ → Outcome ℤ
unfolding as_int quotient remainder shift_left shift_right ◌+ℤ◌ ◌-ℤ◌ ◌*ℤ◌
apply_binary plus a b = as_int (a +ℤ b)
apply_binary minus a b = as_int (a -ℤ b)
apply_binary mult a b = as_int (a *ℤ b)
apply_binary div a b = if is_zero b then fault else as_int (quotient a b)
apply_binary modulo a b =
    if is_zero b then fault else as_int (quotient a b) >>= λ _. ok (remainder a b)
apply_binary bit_and a b = ok (of_word (Nat.bit_and (to_word a) (to_word b)))
apply_binary bit_or a b = ok (of_word (Nat.bit_or (to_word a) (to_word b)))
apply_binary bit_xor a b = ok (of_word (Nat.bit_xor (to_word a) (to_word b)))
apply_binary bit_lshift a b = shift_left a b
apply_binary bit_rshift a b = shift_right a b
apply_binary lt a b = ok (truth (ltb_ℤ a b))
apply_binary le a b = ok (truth (leb_ℤ a b))
apply_binary eq a b = ok (truth (eqb_ℤ a b))
apply_binary neq a b = ok (truth (if eqb_ℤ a b then false else true))
apply_binary ge a b = ok (truth (leb_ℤ b a))
apply_binary gt a b = ok (truth (ltb_ℤ b a))
apply_binary min a b = ok (if ltb_ℤ a b then a else b)
apply_binary max a b = ok (if ltb_ℤ a b then b else a)
apply_binary _ a b = thrown

-- Whether the switch of eval_integer_constant has a case for the kind.
abbrev pub is_evaluated : Binary → Bool
is_evaluated plus = true
is_evaluated minus = true
is_evaluated mult = true
is_evaluated div = true
is_evaluated modulo = true
is_evaluated bit_and = true
is_evaluated bit_or = true
is_evaluated bit_xor = true
is_evaluated bit_lshift = true
is_evaluated bit_rshift = true
is_evaluated lt = true
is_evaluated le = true
is_evaluated eq = true
is_evaluated neq = true
is_evaluated ge = true
is_evaluated gt = true
is_evaluated min = true
is_evaluated max = true
is_evaluated _ = false

-- p->mapping: the parameters and the selections of an instance.
abbrev pub Mapping : Type 0
Mapping = List (Symbol × Expr)

unfoldable pub mapped : Symbol → Mapping → Option Expr
mapped s [] = none
mapped s ((t, e) ∷ m) = if t == s then some e else mapped s m

-- `p && p->mapping.find (s) != end`; `none` is a null instance
abbrev pub Instance : Type 0
Instance = Option Mapping

unfoldable pub bound : Instance → Symbol → Option Expr
unfolding mapped
bound none s = none
bound (some m) s = mapped s m

abbrev pub or_fault {ℓ} : {A : Type ℓ} → Option A → Outcome A
or_fault none = fault
or_fault (some a) = ok a

-- The loop of compute_range_bounds over LABEL and CONSTANT.
unfoldable pub strip_labels : Ty → Ty
strip_labels (prefix label t) = strip_labels t
strip_labels (prefix const t) = strip_labels t
strip_labels t = t

abbrev int_or_scalar : Kind → Bool
int_or_scalar int = true
int_or_scalar scalar = true
int_or_scalar _ = false

-- compute_range_bounds, over the evaluation of its two bounds
unfoldable pub range_bounds : Utap → (Expr → Outcome ℤ) → Ty → Outcome (ℤ × ℤ)
unfolding strip_labels
range_bounds u eval t = do
  let t' = strip_labels t
  assert (u.is_range t')
  assert (int_or_scalar (kind (sub t')))
  low ← eval (u.get_range t').0
  high ← eval (u.get_range t').1
  require (leb_ℤ low high)
  ok (low, high)

-- e[i] for an int i
unfoldable pub at_index : Expr → ℤ → Outcome Expr
at_index e (pos n) = or_fault (child e n)
at_index e (negsuc n) = fault

-- The case of IDENTIFIER.
abbrev pub initialiser : Option Expr → Option Expr
initialiser none = none
initialiser (some e) = if is_empty e then none else some e

abbrev pub constant_value : (Expr → Outcome ℤ) → Option Expr → Option Expr → Outcome ℤ
constant_value eval (some e) _ = eval e
constant_value eval none (some e) = eval e
constant_value eval none none = thrown

-- The array of the case of ARRAY: an identifier whose variable has an initialiser.
unfoldable pub array_elements : Utap → Expr → Outcome Expr
array_elements u (identifier s) = do
  e ← or_fault (u.variable s)
  require (if is_empty e then false else true)
  ok e
array_elements u _ = thrown

-- The type test at the head of eval_integer_constant.
unfoldable pub is_evaluable : Utap → Expr → Bool
is_evaluable u e =
    u.is_integer (u.type_of e) || u.is_boolean (u.type_of e) || u.is_scalar (u.type_of e)

-- The switch of eval_integer_constant; `eval` is the function itself.
unfoldable pub eval_kind : Utap → Instance → (Expr → Outcome ℤ) → Expr → Outcome ℤ
unfolding apply_binary range_bounds at_index array_elements bound as_int ◌-ℤ◌
eval_kind u p eval (binary logical_and a b) = do
  x ← eval a
  if is_zero x then ok (pos 0) else do y ← eval b; ok (truth (if is_zero y then false else true))
eval_kind u p eval (binary logical_or a b) = do
  x ← eval a
  if is_zero x then (do y ← eval b; ok (truth (if is_zero y then false else true))) else ok (pos 1)
eval_kind u p eval (binary k a b) =
    if is_evaluated k then (do x ← eval a; y ← eval b; apply_binary k x y) else thrown
eval_kind u p eval (unary logical_not a) = do x ← eval a; ok (truth (is_zero x))
eval_kind u p eval (unary unary_minus a) = do x ← eval a; as_int (pos 0 -ℤ x)
eval_kind u p eval (inline_if c a b) = do x ← eval c; if is_zero x then eval b else eval a
eval_kind u p eval (identifier s) = do
  require (u.is_constant (u.symbol_type s))
  constant_value eval (initialiser (u.variable s)) (bound p s)
eval_kind u p eval (constant n) = ok n
eval_kind u p eval (array a i) = do
  index ← eval i
  assert (u.is_array (u.type_of a))
  (low, high) ← range_bounds u eval (u.get_array_size (u.type_of a))
  require (leb_ℤ low index && leb_ℤ index high)
  elements ← array_elements u a
  offset ← as_int (index -ℤ low)
  element ← at_index elements offset
  eval element
eval_kind u p eval (list es) = do
  a ← or_fault (child (list es) 0)
  i ← or_fault (child (list es) 1)
  index ← eval i
  element ← at_index a index
  eval element
eval_kind u p eval empty = fault
eval_kind u p eval _ = thrown

-- The type test comes first; an empty expression has no type to ask for.
unfoldable pub eval_step : Utap → Instance → (Expr → Outcome ℤ) → Expr → Outcome ℤ
unfolding is_evaluable eval_kind
eval_step u p eval empty = fault
eval_step u p eval e = do require (is_evaluable u e); eval_kind u p eval e

-- eval_integer_constant. The recursion runs through initialisers and mappings, so it takes fuel, a
-- unit for each call on the stack.
unfoldable pub eval_integer_constant : Utap → Instance → ℕ → Expr → Outcome ℤ
unfolding eval_step
eval_integer_constant u p zero e = out_of_fuel
eval_integer_constant u p (suc f) e = eval_step u p (eval_integer_constant u p f) e

-- compute_range_bounds
unfoldable pub compute_range_bounds : Utap → Instance → ℕ → Ty → Outcome (ℤ × ℤ)
unfolding range_bounds eval_integer_constant
compute_range_bounds u p f t = range_bounds u (eval_integer_constant u p f) t
