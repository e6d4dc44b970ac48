-- ===== src/Translate/Statements.antt =====
-- A reader of the statements that translate_assignment writes (src/utot-expr.cc).
use uppaal_to_tchecker.Base.{
  ℕ, zero, suc, ◌*◌, Text, codes, same, Bool, true, false, Option, none, some, List, [], ◌∷◌, ◌++◌,
  ◌==◌, if◌then◌else◌, length,
}
use uppaal_to_tchecker.Tchecker.{do_nop}
use uppaal_to_tchecker.Translate.Terms.{
  Operator, Term, variable, add, subtract, times, over, remains, operator_text, print,
}
use uppaal_to_tchecker.Translate.Reader.{Reader, ◌>>=◌, read_term}

-- `nop`, `target=value`, and `target=first+second` with an operator of ASSIGN_OP.
pub data Statement : Type 0 where
  nop : Statement
  set : Term → Term → Statement
  update : Term → Operator → Term → Term → Statement

unfoldable pub print_statement : Statement → Text
unfolding print
print_statement nop = do_nop
print_statement (set t a) = print t ++ (codes "=" ++ print a)
print_statement (update t k a b) =
    print t ++ (codes "=" ++ (print a ++ (operator_text k ++ print b)))

-- Statements that follow another one.
unfoldable pub print_more : List Statement → Text
unfolding print_statement
print_more [] = []
print_more (x ∷ xs) = codes ";" ++ (print_statement x ++ print_more xs)

-- The operator of a compound assignment, by its byte.
unfoldable pub arithmetic : ℕ → Option Operator
arithmetic c =
    if c == b'+'
    then some add
    else if c == b'-'
    then some subtract
    else if c == b'*'
    then some times
    else if c == b'/'
    then some over
    else if c == b'%'
    then some remains
    else none

abbrev pub nop_of : Term → Reader Statement
nop_of (variable name) r = if same name do_nop then some (nop, r) else none
nop_of _ r = none

-- The operators of ASSIGN_OP.
abbrev pub arithmetic_of : Operator → Bool
arithmetic_of add = true
arithmetic_of subtract = true
arithmetic_of times = true
arithmetic_of over = true
arithmetic_of remains = true
arithmetic_of _ = false

-- What follows the first operand; the readers are for the term after an operator, and for none.
abbrev pub second_of :
    Reader Term → Term → Term → Option Operator → Text → Text → Option (Statement × Text)
second_of term t a none r r' = some (set t a, r')
second_of term t a (some k) r r' = do (b, r) ← term r; some (update t k a b, r)

unfoldable pub after_value : Reader Term → Term → Term → Reader Statement
unfolding arithmetic
after_value term t a [] = some (set t a, [])
after_value term t a (c ∷ r) = second_of term t a (arithmetic c) r (c ∷ r)

unfoldable pub after_target : Reader Term → Term → Reader Statement
unfolding after_value same
after_target term t [] = nop_of t []
after_target term t (c ∷ r) =
    let assigned = (do (a, r) ← term r; after_value term t a r) in
    if c == b'=' then assigned else nop_of t (c ∷ r)

unfoldable pub read_statement : Reader Term → Reader Statement
unfolding after_target
read_statement term s = do (t, r) ← term s; after_target term t r

-- What follows a statement.
unfoldable pub after_statement :
    (Text → Option (List Statement)) → Statement → Text → Option (List Statement)
after_statement statements x [] = some (x ∷ [])
after_statement statements x (c ∷ r) =
    let others = (do xs ← statements r; some (x ∷ xs)) in if c == b';' then others else none

unfoldable pub read_statements : ℕ → Reader Term → Text → Option (List Statement)
unfolding read_statement after_statement
read_statements zero term s = none
read_statements (suc n) term s = do
  (x, r) ← read_statement term s
  after_statement (read_statements n term) x r

-- The statements that a text spells.
unfoldable pub read_assignment : Text → Option (List Statement)
unfolding read_term read_statements
read_assignment s = read_statements (suc (length s)) (read_term (suc (2 * length s))) s
