-- ===== src/Decl.antt =====
-- Declarations of variables: src/utot-decl.cc.
pub mod Lines
pub mod Ranges
pub mod Listed
pub mod Bounds
pub mod Cells
pub mod Ends
pub mod CellNames
use mathlib.Core.List.{reverse}
use uppaal_to_tchecker.Base.{
  ℕ, zero, suc, ◌^◌, ◌-◌, Text, codes, Bool, true, false, not, ◌&&◌, ◌||◌, Option, none, some, List,
  [], ◌∷◌, ◌++◌, ltb, if◌then◌else◌,
}
use uppaal_to_tchecker.Base.Integers.{ℤ, pos, negsuc, decimal, ◌+ℤ◌, leb_ℤ, ltb_ℤ, eqb_ℤ}
use uppaal_to_tchecker.Outcome.{Outcome, ok, thrown, fault, ◌>>=◌, ◌>>◌, require, assert}
use uppaal_to_tchecker.Utap.{
  Symbol, Expr, Ty, Kind, Utap, base, range, prefix, array_type, is_empty, child, size, kind, sub,
  int, bool, clock, channel, label, const, ref, urgent, broadcast, range_of, array_of,
}
use uppaal_to_tchecker.Prefix.{Prefix, add_prefix}
use uppaal_to_tchecker.Tchecker.{Outputter, Line, comment, clock as clock_line, intvar, put}
use uppaal_to_tchecker.Expr.{
  Instance, eval_integer_constant, compute_range_bounds, or_fault, as_int, int_max,
}
use uppaal_to_tchecker.Arrays.{is_one_dim_array_type, are_all_equals_in_list, extent}

-- `while (kind == LABEL) type = type[0]`
unfoldable pub strip_label : Ty → Ty
strip_label (prefix label t) = strip_label t
strip_label t = t

-- min and max of s_output_integer_variable; of a constant they are set only after its value is known
unfoldable pub variable_bounds : Utap → Instance → ℕ → Ty → Kind → Outcome (Option (ℤ × ℤ))
unfolding compute_range_bounds
variable_bounds u p f t bool = ok (some (pos 0, pos 1))
variable_bounds u p f t range_of = do b ← compute_range_bounds u p f t; ok (some b)
variable_bounds u p f t const = ok none
variable_bounds u p f t _ = fault

-- The initial value of a variable with no initialiser; min and max of a constant would be read unset.
unfoldable pub default_value : Option (ℤ × ℤ) → Outcome ℤ
default_value none = fault
default_value (some (low, high)) =
    ok (if leb_ℤ low (pos 0) && leb_ℤ (pos 0) high then pos 0 else low)

abbrev pub bounds_or : ℤ → Option (ℤ × ℤ) → ℤ × ℤ
bounds_or init none = (init, init)
bounds_or init (some b) = b

-- s_output_integer_variable
unfoldable pub output_integer_variable :
    Utap → Instance → ℕ → Text → Ty → Expr → Outputter → Outcome Outputter
unfolding strip_label variable_bounds default_value eval_integer_constant put
output_integer_variable u p f vname type init o = do
  let t = strip_label type
  known ← variable_bounds u p f t (kind t)
  initval ← (if is_empty init then default_value known else eval_integer_constant u p f init)
  let b = bounds_or initval known
  require (leb_ℤ b.0 initval && leb_ℤ initval b.1)
  ok (put o (intvar b.0 b.1 initval vname (pos 1)))

-- `for (int i = min; i <= max; i++)` over the cells of an array, from the k-th; `cell` is the
-- recursive call on a cell's index and initialiser. The counter is tested for overflow by the caller.
unfoldable pub each_cell :
    (ℤ → Expr → Outputter → Outcome Outputter)
    → Bool
    → Expr
    → ℤ
    → ℕ
    → ℕ
    → Outputter
    → Outcome Outputter
unfolding ◌+ℤ◌
each_cell cell noinit init low k zero o = ok o
each_cell cell noinit init low k (suc n) o = do
  e ← (if noinit then ok init else or_fault (child init k))
  o' ← cell (low +ℤ pos k) e o
  each_cell cell noinit init low (suc k) n o'

abbrev pub count_of : ℤ → ℕ
count_of (pos n) = n
count_of (negsuc n) = 0

-- The indices of a cell, the last one in front.
abbrev pub indices : List ℤ → Text
indices [] = []
indices (i ∷ s) = indices s ++ (codes "_" ++ decimal i)

-- The declaration of one cell, by the kind of its type.
unfoldable pub declare_cell :
    Utap → Instance → ℕ → Text → Ty → Kind → Expr → Outputter → Outcome Outputter
unfolding output_integer_variable put
declare_cell u p f name t channel init o =
    ok (put o (comment (codes "event to synchronize: " ++ name)))
declare_cell u p f name t broadcast init o =
    ok (put o (comment (codes "event to synchronize: " ++ name)))
declare_cell u p f name t urgent init o =
    ok (put o (comment (codes "event to synchronize: " ++ name)))
declare_cell u p f name t clock init o = ok (put o (clock_line name (pos 1)))
declare_cell u p f name t k init o = output_integer_variable u p f name t init o

-- s_enumerate_array_elements_decl; `s` is the deque S, whose front is the last index. The loop's
-- counter must not overflow.
unfoldable pub enumerate_array_elements :
    Utap → Instance → ℕ → Text → Ty → List ℤ → Expr → Outputter → Outcome Outputter
unfolding compute_range_bounds extent each_cell declare_cell
enumerate_array_elements u p f name (array_type t sz) s init o = do
  let noinit = is_empty init
  bounds ← compute_range_bounds u p f (u.get_array_size (array_type t sz))
  n ← extent bounds
  require (not (ltb_ℤ (pos (size init)) n && not noinit))
  assert (not (eqb_ℤ bounds.1 int_max))
  each_cell (λ i e o'. enumerate_array_elements u p f name t (i ∷ s) e o') noinit init bounds.0 0
      (count_of n) o
enumerate_array_elements u p f name (base k) s init o =
    declare_cell u p f (name ++ indices s) (base k) k init o
enumerate_array_elements u p f name (prefix k t) s init o =
    declare_cell u p f (name ++ indices s) (prefix k t) k init o
enumerate_array_elements u p f name (range t a b) s init o =
    declare_cell u p f (name ++ indices s) (range t a b) range_of init o

-- min and max of s_declare_one_dim_array
unfoldable pub element_bounds : Utap → Instance → ℕ → Ty → Outcome (ℤ × ℤ)
unfolding eval_integer_constant
element_bounds u p f t =
    if u.is_boolean t
    then ok (pos 0, pos 1)
    else if u.is_range t
    then (do
      low ← eval_integer_constant u p f (u.get_range t).0
      high ← eval_integer_constant u p f (u.get_range t).1
      ok (low, high))
    else ok (negsuc (2 ^ 15 - 1), pos (2 ^ 15 - 1))

unfoldable pub default_element : ℤ × ℤ → ℤ
default_element (low, high) = if leb_ℤ (pos 0) low || leb_ℤ high (pos 0) then low else pos 0

-- s_declare_one_dim_array
unfoldable pub declare_one_dim_array :
    Utap → Instance → ℕ → Text → ℤ → Ty → Expr → Outputter → Outcome Outputter
unfolding element_bounds default_element eval_integer_constant put
declare_one_dim_array u p f vname size eltype init o = do
  b ← element_bounds u p f eltype
  ival ← (if is_empty init then ok (default_element b) else eval_integer_constant u p f init)
  require (leb_ℤ b.0 ival && leb_ℤ ival b.1)
  ok (put (put o (comment (codes "one dim array."))) (intvar b.0 b.1 ival vname size))

-- s_declare_one_dim_clock_array
unfoldable pub declare_one_dim_clock_array : Text → ℤ → Outputter → Outputter
unfolding put
declare_one_dim_clock_array vname size o =
    put (put o (comment (codes "one dim clock array."))) (clock_line vname size)

-- variable_t
pub record Variable : Type 0 where
  pub uid : Symbol
  pub expr : Expr

-- The tests of the case of ARRAY: an array of TChecker and its common initialiser, if it is one.
unfoldable pub tchecker_array :
    Utap → Instance → ℕ → Ty → Expr → Outcome (Bool × (ℤ × ℤ) × Ty × Expr)
unfolding is_one_dim_array_type are_all_equals_in_list
tchecker_array u p f t init = do
  (one, bounds, basetype) ← is_one_dim_array_type u p f t
  if one
      then (do (same, val) ← are_all_equals_in_list u p f init; ok (same, bounds, basetype, val))
      else ok (false, bounds, basetype, init)

unfoldable pub declare_array :
    Utap → Instance → ℕ → Text → Ty → Expr → Outputter → Outcome Outputter
unfolding tchecker_array extent declare_one_dim_clock_array declare_one_dim_array
    enumerate_array_elements
declare_array u p f vname t init o = do
  (whole, bounds, basetype, val) ← tchecker_array u p f t init
  if whole
      then (do
        sz ← extent bounds
        if u.is_clock (u.strip_array t)
            then ok (declare_one_dim_clock_array vname sz o)
            else declare_one_dim_array u p f vname sz basetype val o)
      else enumerate_array_elements u p f vname t [] init o

-- The switch of translate_declarations on the kind of a variable's type.
unfoldable pub declare_variable :
    Utap → Instance → ℕ → Text → Ty → Kind → Expr → Outputter → Outcome Outputter
unfolding output_integer_variable declare_array put
declare_variable u p f vname t const init o = output_integer_variable u p f vname t init o
declare_variable u p f vname t bool init o = output_integer_variable u p f vname t init o
declare_variable u p f vname t range_of init o = output_integer_variable u p f vname t init o
declare_variable u p f vname t channel init o =
    ok (put o (comment (codes "global event: " ++ vname)))
declare_variable u p f vname t broadcast init o =
    ok (put o (comment (codes "global event: " ++ vname)))
declare_variable u p f vname t urgent init o =
    ok (put o (comment (codes "global event: " ++ vname)))
declare_variable u p f vname t clock init o = ok (put o (clock_line vname (pos 1)))
declare_variable u p f vname t array_of init o = declare_array u p f vname t init o
declare_variable u p f vname t _ init o = thrown

-- The loop of translate_declarations.
unfoldable pub declare_all :
    Utap → Instance → ℕ → Prefix → List Variable → Outputter → Outcome Outputter
unfolding strip_label add_prefix declare_variable put
declare_all u p f ctx [] o = ok o
declare_all u p f ctx (v ∷ vs) o = do
  let t = strip_label (u.symbol_type v.uid)
  let name = u.symbol_name v.uid
  o' ←
      declare_variable u p f (add_prefix ctx name) t (kind t) v.expr
        (put o (comment (name ++ (codes ":" ++ u.to_string t))))
  declare_all u p f ctx vs o'

-- translate_declarations: with no instance the first variable, t(0), is skipped
unfoldable pub translate_declarations :
    Utap → Instance → ℕ → Prefix → List Variable → Outputter → Outcome Outputter
unfolding declare_all
translate_declarations u (some m) f ctx vs o = declare_all u (some m) f ctx vs o
translate_declarations u none f ctx [] o = fault
translate_declarations u none f ctx (v ∷ vs) o = declare_all u none f ctx vs o
