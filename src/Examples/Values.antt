-- ===== src/Examples/Values.antt =====
-- An expression on an array `a` of two cells, on a variable `x` and on a parameter that stands for
-- it (src/utot-expr.cc).
use mathlib.Core.Path.{subst}
use uppaal_to_tchecker.Base.{
  ℕ, zero, suc, Text, codes, same, Bool, true, false, none, some, List, [], ◌∷◌, ◌++◌, ◌==◌, ◌≡◌,
  inl, inr, Bool-cases, refl, sym, arith, if◌then◌else◌,
}
use uppaal_to_tchecker.Base.Integers.{ℤ, pos, leb_ℤ}
use uppaal_to_tchecker.Outcome.{Outcome, ok, ◌>>=◌, Ensures, Ensures-at, ensuring}
use uppaal_to_tchecker.Utap.{
  Symbol, Expr, Ty, Utap, base, range, array_type, constant, identifier, binary, array, logical_or,
  gt, eq, int, list, cons, nil,
}
use uppaal_to_tchecker.Expr.{Instance, bound, mapped, eval_integer_constant, compute_range_bounds}
use uppaal_to_tchecker.Arrays.{is_one_dim_array_variable}
use uppaal_to_tchecker.Translate.{symbol_text, flat_text}
use uppaal_to_tchecker.Translate.Parts.{IsName}
use uppaal_to_tchecker.Translate.Values.{
  State, Store, place, meaning, shifted, flat_name, flat_name-append,
}
use uppaal_to_tchecker.Translate.Constants.{
  Agree, Agree-out_of_fuel, Agree-thrown, HoldsConstants, ReadsConstants,
}
use uppaal_to_tchecker.Translate.Names.{IsChecked, IsPlain, is_computed}
use uppaal_to_tchecker.Translate.Places.{of_variable}
use uppaal_to_tchecker.Translate.Correct.{Represents}

abbrev two_cells : Ty
two_cells = array_type (base int) (range (base int) (constant (pos 0)) (constant (pos 1)))

abbrev type_of : Expr → Ty
type_of (identifier s) = if s == 0 then two_cells else base int
type_of (list es) = two_cells
type_of _ = base int

abbrev is_array : Ty → Bool
is_array (array_type t s) = true
is_array _ = false

abbrev symbol_of : Expr → Symbol
symbol_of (identifier s) = s
symbol_of _ = 0

abbrev name_of : Symbol → Text
name_of s = if s == 0 then codes "a" else if s == 1 then codes "x" else codes "k"

-- int a[2] = { 10, 10 }
abbrev initial : Expr
initial = list (cons (constant (pos 10)) (cons (constant (pos 10)) nil))

abbrev pub library : Utap
library = record {
  type_of = type_of;
  get_symbol = symbol_of;
  symbol_type = λ s. base int;
  symbol_name = name_of;
  has_parent = λ s. false;
  variable = λ s. if s == 0 then some initial else none;
  equal = λ a b. true;
  is_integer = λ t. true;
  is_boolean = λ t. false;
  is_scalar = λ t. false;
  is_constant = λ t. false;
  is_range = λ t. true;
  is_array = is_array;
  is_clock = λ t. false;
  is = λ t k. false;
  get_array_size = λ t. range (base int) (constant (pos 0)) (constant (pos 1));
  strip_array = λ t. t;
  to_string = λ t. [];
  show = λ e. [];
  get_range = λ t. (constant (pos 0), constant (pos 1));
}

-- The parameter `k` is `x`.
abbrev pub instance_of_k : Instance
instance_of_k = some ((2, identifier 1) ∷ [])

-- a[1] > 3 || k == 0
abbrev guard : Expr
guard =
    binary logical_or (binary gt (array (identifier 0) (constant (pos 1))) (constant (pos 3)))
      (binary eq (identifier 2) (constant (pos 0)))

abbrev guard_text : Text
guard_text = codes "!(!((a[1] > 3)) && !((x == 0)))"

-- a[1] is 20, and all others are 0.
abbrev values : Text → Outcome ℤ
values name = ok (if same name (codes "a_1") then pos 20 else pos 0)

abbrev pub store : Store
store = record { variables = values; cells = λ name i. values (flat_text name i) }

abbrev pub state : State
state s is = values (flat_name (symbol_text library (codes "P" ∷ []) s) is)

starts_at_0 :
    (g : ℕ) (t : Ty)
    → Ensures (λ r. r ≡ (pos 0, pos 1)) (compute_range_bounds library instance_of_k g t)
unfolding compute_range_bounds
starts_at_0 zero t = search ensuring
starts_at_0 (suc g) t = search ensuring

pub constants : HoldsConstants library instance_of_k state
unfolding eval_integer_constant
constants = record { of_symbol = on_symbol; of_element = λ f n a i r. absurd (never r.0) }
  where
    never : false ≡ true → ⊥
    never h = cc

    on_symbol :
        (f n : ℕ) (s : Symbol)
        → Agree
            (eval_integer_constant library instance_of_k f (identifier s))
            (meaning instance_of_k state n (identifier s))
    on_symbol zero n s = Agree-out_of_fuel _
    on_symbol (suc f) n s = Agree-thrown _

pub one_dim :
    (bounds : ℤ × ℤ)
    → is_one_dim_array_variable library instance_of_k 5 (identifier 0) ≡ ok (false, bounds)
    → ReadsConstants library (constant (pos 1)) × (leb_ℤ (pos 0) bounds.0 ≡ true)
one_dim bounds q =
    let (t, size) =
      Ensures-at (of_variable library instance_of_k 5 (identifier 0)) (false, bounds) q in
    let e =
      Ensures-at (starts_at_0 5 (library.get_array_size (type_of (identifier 0)))) bounds size in
    (tt, subst (λ r. leb_ℤ (pos 0) r.0 ≡ true) (sym e) refl)

pub checked : IsChecked library instance_of_k 5 (codes "P" ∷ [])
unfolding symbol_text same bound mapped
checked = record {
  named = on_name;
  of_mapped = on_mapped;
  of_bound = on_bound;
  of_element = λ a i bounds q. refl;
}
  where
    named_if : (b : Bool) (x y : Text) → IsName x → IsName y → IsName (if b then x else y)
    named_if true x y h k = h
    named_if false x y h k = k

    on_name : (s : Symbol) → IsName (symbol_text library (codes "P" ∷ []) s)
    on_name s =
        named_if (s == 0) (codes "a") _ (refl, tt, refl)
          (named_if (s == 1) (codes "x") (codes "k") (refl, tt, refl) (refl, tt, refl))

    on_mapped :
        (s : Symbol) (e : Expr) → bound instance_of_k s ≡ some e → IsPlain library instance_of_k 5 e
    on_mapped s e b = elim (Bool-cases (2 == s)) [
      | inl here ↦
          let q : identifier 1 ≡ e = ground arith in
          subst (λ d. IsPlain library instance_of_k 5 d) q tt
      | inr there ↦ absurd (ground arith)
    ]

    not_array : (s : Symbol) → (2 == s) ≡ true → is_array (type_of (identifier s)) ≡ true → ⊥
    not_array zero h q = cc
    not_array (suc s) h q = ground arith

    on_bound :
        (s : Symbol) (e : Expr)
        → bound instance_of_k s ≡ some e
        → is_array (type_of (identifier s)) ≡ true
        → (is_array (type_of e) ≡ true) × (is_computed e ≡ false)
    on_bound s e b q = elim (Bool-cases (2 == s)) [
      | inl here ↦ absurd (not_array s here q)
      | inr there ↦ absurd (ground arith)
    ]

pub represented : Represents library instance_of_k 5 (codes "P" ∷ []) state store
unfolding shifted
represented = record { of_variable = λ s is. refl; of_cell = on_cell }
  where
    on_cell :
        (n : ℕ) (a : Expr) (s : Symbol) (is : List ℤ) (bounds : ℤ × ℤ) (i : ℤ)
        → place instance_of_k state n a ≡ ok (s, is)
        → is_one_dim_array_variable library instance_of_k 5 a ≡ ok (true, bounds)
        → (shifted bounds.0 i
            >>= store.cells (flat_name (symbol_text library (codes "P" ∷ []) s) is))
          ≡ state s (is ++ (i ∷ []))
    on_cell n a s is bounds i q one =
        let size = Ensures-at (of_variable library instance_of_k 5 a) (true, bounds) one in
        let e = Ensures-at (starts_at_0 5 (library.get_array_size (type_of a))) bounds size.1 in
        let name = symbol_text library (codes "P" ∷ []) s in rw (e, flat_name-append name is i) refl
