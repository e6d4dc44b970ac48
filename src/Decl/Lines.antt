-- ===== src/Decl/Lines.antt =====
-- Which lines a declaration can write (src/utot-decl.cc).
use uppaal_to_tchecker.Base.{
  ℕ, zero, suc, Text, Bool, ◌&&◌, none, some, List, [], ◌∷◌, ◌≡◌, All, All-append, arith,
}
use uppaal_to_tchecker.Base.Integers.{ℤ, ◌≤ℤ◌, leb_ℤ}
use uppaal_to_tchecker.Outcome.{
  Outcome, ok, require, Ensures, Ensures-at, Ensures-ok, require-true, ensuring,
}
use uppaal_to_tchecker.Utap.{
  Expr, Ty, Kind, Utap, base, range, prefix, array_type, channel, range_of, array_of,
}
use uppaal_to_tchecker.Prefix.{Prefix}
use uppaal_to_tchecker.Tchecker.{Outputter, Line, comment, clock as clock_line, intvar, put}
use uppaal_to_tchecker.Expr.{Instance}
use uppaal_to_tchecker.Decl.{
  Variable, output_integer_variable, each_cell, declare_cell, enumerate_array_elements,
  declare_one_dim_array, declare_one_dim_clock_array, declare_array, declare_variable, declare_all,
  translate_declarations,
}

-- The assertion of outputter::intvar.
abbrev pub IsBounded : Line → Type 0
IsBounded (intvar low high init id size) = (low ≤ℤ init) × (init ≤ℤ high)
IsBounded _ = Unit {0}

-- A property of outputs that a comment, a clock and a bounded variable keep.
pub record Admits (Kept : Outputter → Type 0) : Type 0 where
  pub of_comment : (o : Outputter) (t : Text) → Kept o → Kept (put o (comment t))
  pub of_clock : (o : Outputter) (id : Text) (size : ℤ) → Kept o → Kept (put o (clock_line id size))
  pub of_intvar :
      (o : Outputter) (low high init size : ℤ) (id : Text)
      → (low ≤ℤ init) × (init ≤ℤ high)
      → Kept o
      → Kept (put o (intvar low high init id size))

abbrev pub Holds : (Line → Type 0) → Outputter → Type 0
Holds P o = All P o.out

pub put-Holds : (P : Line → Type 0) (o : Outputter) (l : Line) → Holds P o → P l → Holds P (put o l)
unfolding put
put-Holds P o l h k = All-append P o.out (l ∷ []) h (k, tt)

module _ (Kept : Outputter → Type 0) (admits : Admits Kept) (u : Utap) (p : Instance) (f : ℕ) where
  put-comment : (o : Outputter) (t : Text) → Kept o → Kept (put o (comment t))
  put-comment = admits.of_comment

  put-clock : (o : Outputter) (id : Text) (size : ℤ) → Kept o → Kept (put o (clock_line id size))
  put-clock = admits.of_clock

  put-intvar :
      (o : Outputter) (low high init size : ℤ) (id : Text)
      → Kept o
      → (x : Unit {0}) → require (leb_ℤ low init && leb_ℤ init high) ≡ ok x
      → Kept (put o (intvar low high init id size))
  put-intvar o low high init size id h x q =
      let t = require-true (leb_ℤ low init && leb_ℤ init high) x q in
      admits.of_intvar o low high init size id (ground arith) h

  ruleset writes = (ensuring, put-comment, put-clock, put-intvar)

  output_integer_variable-Kept :
      (name : Text) (t : Ty) (init : Expr) (o : Outputter)
      → Kept o
      → Ensures Kept (output_integer_variable u p f name t init o)
  unfolding output_integer_variable
  output_integer_variable-Kept name t init o h = search writes depth 12

  declare_cell-Kept :
      (name : Text) (t : Ty) (k : Kind) (init : Expr) (o : Outputter)
      → Kept o
      → Ensures Kept (declare_cell u p f name t k init o)
  unfolding declare_cell
  declare_cell-Kept name t channel init o h = search writes
  declare_cell-Kept name t k init o h = search (writes, output_integer_variable-Kept)

  -- The loop over cells keeps what each cell keeps.
  each_cell-Kept :
      (cell : ℤ → Expr → Outputter → Outcome Outputter)
      → ((i : ℤ) (e : Expr) (o : Outputter) → Kept o → Ensures Kept (cell i e o))
      → (noinit : Bool) (init : Expr) (low : ℤ) (k n : ℕ) (o : Outputter) → Kept o
      → Ensures Kept (each_cell cell noinit init low k n o)
  unfolding each_cell
  each_cell-Kept cell keeps noinit init low k zero o h = Ensures-ok o h
  each_cell-Kept cell keeps noinit init low k (suc n) o h =
      let after = λ (i : ℤ) (e : Expr) (r r' : Outputter) (b : Kept r) (q : cell i e r ≡ ok r').
        Ensures-at (keeps i e r b) r' q in
      let rest = each_cell-Kept cell keeps noinit init low (suc k) n in
      search (ensuring, after, rest) depth 8

  enumerate-Kept :
      (name : Text) (t : Ty) (s : List ℤ) (init : Expr) (o : Outputter)
      → Kept o
      → Ensures Kept (enumerate_array_elements u p f name t s init o)
  unfolding enumerate_array_elements
  enumerate-Kept name (array_type t sz) s init o h =
      let cells =
        each_cell-Kept (λ i e r. enumerate_array_elements u p f name t (i ∷ s) e r)
          (λ i e r b. enumerate-Kept name t (i ∷ s) e r b) in
      search (ensuring, cells) depth 12
  enumerate-Kept name (base k) s init o h = declare_cell-Kept _ (base k) k init o h
  enumerate-Kept name (prefix k t) s init o h = declare_cell-Kept _ (prefix k t) k init o h
  enumerate-Kept name (range t a b) s init o h = declare_cell-Kept _ (range t a b) range_of init o h

  declare_one_dim_array-Kept :
      (name : Text) (size : ℤ) (t : Ty) (init : Expr) (o : Outputter)
      → Kept o
      → Ensures Kept (declare_one_dim_array u p f name size t init o)
  unfolding declare_one_dim_array
  declare_one_dim_array-Kept name size t init o h = search writes depth 12

  declare_one_dim_clock_array-Kept :
      (name : Text) (size : ℤ) (o : Outputter)
      → Kept o
      → Kept (declare_one_dim_clock_array name size o)
  unfolding declare_one_dim_clock_array
  declare_one_dim_clock_array-Kept name size o h = search writes

  ruleset arrays =
      (writes, enumerate-Kept, declare_one_dim_array-Kept, declare_one_dim_clock_array-Kept)

  declare_array-Kept :
      (name : Text) (t : Ty) (init : Expr) (o : Outputter)
      → Kept o
      → Ensures Kept (declare_array u p f name t init o)
  unfolding declare_array
  declare_array-Kept name t init o h = search arrays depth 12

  declare_variable-Kept :
      (name : Text) (t : Ty) (k : Kind) (init : Expr) (o : Outputter)
      → Kept o
      → Ensures Kept (declare_variable u p f name t k init o)
  unfolding declare_variable
  declare_variable-Kept name t array_of init o h = declare_array-Kept name t init o h
  declare_variable-Kept name t k init o h = search (writes, output_integer_variable-Kept)

  declared :
      (name : Text) (t : Ty) (k : Kind) (init : Expr) (o o' : Outputter)
      → Kept o
      → declare_variable u p f name t k init o ≡ ok o'
      → Kept o'
  declared name t k init o o' h e = Ensures-at (declare_variable-Kept name t k init o h) o' e

  declare_all-Kept :
      (ctx : Prefix) (vs : List Variable) (o : Outputter)
      → Kept o
      → Ensures Kept (declare_all u p f ctx vs o)
  unfolding declare_all
  declare_all-Kept ctx [] o h = Ensures-ok o h
  declare_all-Kept ctx (v ∷ vs) o h =
      let rest = declare_all-Kept ctx vs in search (writes, declared, rest) depth 10

-- A translation of declarations that succeeds keeps what comments, clocks and bounded variables keep.
pub translate_declarations-Kept :
    (Kept : Outputter → Type 0) (u : Utap) (p : Instance) (f : ℕ) (ctx : Prefix)
    (vs : List Variable) (o o' : Outputter)
    → Admits Kept
    → Kept o
    → translate_declarations u p f ctx vs o ≡ ok o'
    → Kept o'
unfolding translate_declarations
translate_declarations-Kept Kept u (some m) f ctx vs o o' a h e =
    Ensures-at (declare_all-Kept Kept a u (some m) f ctx vs o h) o' e
translate_declarations-Kept Kept u none f ctx [] o o' a h e = cc
translate_declarations-Kept Kept u none f ctx (v ∷ vs) o o' a h e =
    Ensures-at (declare_all-Kept Kept a u none f ctx vs o h) o' e

-- A property of all lines that those of declarations have.
pub record AdmitsLines (P : Line → Type 0) : Type 0 where
  pub of_comment : (t : Text) → P (comment t)
  pub of_clock : (id : Text) (size : ℤ) → P (clock_line id size)
  pub of_intvar :
      (low high init size : ℤ) (id : Text)
      → (low ≤ℤ init) × (init ≤ℤ high)
      → P (intvar low high init id size)

AdmitsLines-Admits : (P : Line → Type 0) → AdmitsLines P → Admits (Holds P)
AdmitsLines-Admits P a = record {
  of_comment = λ o t h. put-Holds P o (comment t) h (a.of_comment t);
  of_clock = λ o id size h. put-Holds P o (clock_line id size) h (a.of_clock id size);
  of_intvar = λ o low high init size id b h.
      put-Holds P o (intvar low high init id size) h (a.of_intvar low high init size id b);
}

-- A translation of declarations that succeeds writes only lines of a property that comments, clocks and
-- bounded variables have.
pub translate_declarations-Holds :
    (P : Line → Type 0) (u : Utap) (p : Instance) (f : ℕ) (ctx : Prefix) (vs : List Variable)
    (o o' : Outputter)
    → AdmitsLines P
    → Holds P o
    → translate_declarations u p f ctx vs o ≡ ok o'
    → Holds P o'
translate_declarations-Holds P u p f ctx vs o o' a h e =
    translate_declarations-Kept (Holds P) u p f ctx vs o o' (AdmitsLines-Admits P a) h e
