-- ===== src/Utap.antt =====
-- What the translator reads of the UTAP library: expressions and types as it walks them, and the
-- library's own queries as parameters (class expression_t, type_t, symbol_t of utap).
use uppaal_to_tchecker.Base.{ℕ, zero, suc, Text, Bool, Option, none, some}
use uppaal_to_tchecker.Base.Integers.{ℤ}

-- A symbol_t is compared by the address of its data.
abbrev pub Symbol : Type 0
Symbol = ℕ

-- Constants::synchronisation_t
pub data Sync : Type 0 where
  sync_que sync_bang sync_csp : Sync

-- Kinds with one operand.
pub data Unary : Type 0 where
  logical_not unary_minus : Unary
  post_increment pre_increment post_decrement pre_decrement : Unary

-- Kinds with two operands.
pub data Binary : Type 0 where
  plus minus mult div modulo : Binary
  bit_and bit_or bit_xor bit_lshift bit_rshift : Binary
  logical_and logical_or : Binary
  lt le eq neq ge gt : Binary
  min max : Binary
  assign ass_plus ass_minus ass_div ass_mod ass_mult : Binary
  ass_and ass_or ass_xor ass_lshift ass_rshift : Binary
  comma : Binary

-- The kinds that the translator refuses; `unknown` stands for those that no case label names.
pub data Other : Type 0 where
  dot funcall unknown : Other

mutual
  pub data Expr : Type 0 where
    empty : Expr
    constant : ℤ → Expr
    identifier : Symbol → Expr
    unary : Unary → Expr → Expr
    binary : Binary → Expr → Expr → Expr
    inline_if : Expr → Expr → Expr → Expr
    array : Expr → Expr → Expr
    list : Exprs → Expr
    sync_on : Sync → Expr → Expr
    other : Other → Exprs → Expr

  pub data Exprs : Type 0 where
    nil : Exprs
    cons : Expr → Exprs → Exprs

-- e.empty ()
abbrev pub is_empty : Expr → Bool
is_empty empty = Bool.true
is_empty _ = Bool.false

abbrev pub nth : Exprs → ℕ → Option Expr
nth nil i = none
nth (cons e es) zero = some e
nth (cons e es) (suc i) = nth es i

abbrev pub count : Exprs → ℕ
count nil = 0
count (cons e es) = suc (count es)

abbrev pub children : Expr → Exprs
children (unary k a) = cons a nil
children (binary k a b) = cons a (cons b nil)
children (inline_if a b c) = cons a (cons b (cons c nil))
children (array a b) = cons a (cons b nil)
children (list es) = es
children (sync_on s a) = cons a nil
children (other k es) = es
children _ = nil

-- e[i]; `none` is a fault
abbrev pub child : Expr → ℕ → Option Expr
child e i = nth (children e) i

-- e.getSize ()
abbrev pub size : Expr → ℕ
size e = count (children e)

-- Kinds of types.
pub data Kind : Type 0 where
  int bool clock channel scalar label const ref urgent broadcast committed range_of array_of : Kind
  other_kind : Kind

pub data Ty : Type 0 where
  base : Kind → Ty
  prefix : Kind → Ty → Ty
  range : Ty → Expr → Expr → Ty
  array_type : Ty → Ty → Ty

-- t.getKind ()
abbrev pub kind : Ty → Kind
kind (base k) = k
kind (prefix k t) = k
kind (range t a b) = range_of
kind (array_type t s) = array_of

-- t[0]; a type with no child has itself, which the code never asks for
abbrev pub sub : Ty → Ty
sub (base k) = base k
sub (prefix k t) = t
sub (range t a b) = t
sub (array_type t s) = t

-- The queries of the library.
pub record Utap : Type 0 where
  pub type_of : Expr → Ty
  pub get_symbol : Expr → Symbol
  pub symbol_type : Symbol → Ty
  pub symbol_name : Symbol → Text
  pub has_parent : Symbol → Bool
  -- s.getData (): a null pointer, or the variable's initialiser, which may be empty
  pub variable : Symbol → Option Expr
  pub equal : Expr → Expr → Bool
  pub is_integer : Ty → Bool
  pub is_boolean : Ty → Bool
  pub is_scalar : Ty → Bool
  pub is_constant : Ty → Bool
  pub is_range : Ty → Bool
  pub is_array : Ty → Bool
  pub is_clock : Ty → Bool
  pub is : Ty → Kind → Bool
  pub get_array_size : Ty → Ty
  pub strip_array : Ty → Ty
  pub to_string : Ty → Text
  -- out << e
  pub show : Expr → Text
  pub get_range : Ty → Expr × Expr
