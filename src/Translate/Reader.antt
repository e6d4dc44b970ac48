-- ===== src/Translate/Reader.antt =====
-- A reader of the expressions that translate_expression writes (src/utot-expr.cc), by the grammar of
-- their terms.
use uppaal_to_tchecker.Base.{
  ℕ, zero, suc, Text, codes, same, Bool, not, ◌&&◌, ◌||◌, Option, none, some, [], ◌∷◌, ◌==◌, leb,
  if◌then◌else◌, length, ◌*◌,
}
use uppaal_to_tchecker.Base.Integers.{ℤ, pos, read, is_digit}
use uppaal_to_tchecker.Translate.Terms.{
  Operator, Term, Body, variable, numeral, cell, negation, opposite, group, single, applied, choice,
  add, subtract, times, over, remains, both, below, at_most, equals, differs, at_least, above,
  operator_text,
}

infixl 5 ◌>>=◌
abbrev pub ◌>>=◌ {ℓ κ} : {A : Type ℓ} {B : Type κ} → Option A → (A → Option B) → Option B
none >>= f = none
some a >>= f = f a

-- A reader gives what it read and the rest of the text.
abbrev pub Reader : Type 0 → Type 0
Reader A = Text → Option (A × Text)

-- Letters and `_`.
abbrev pub is_start : ℕ → Bool
is_start c = (leb b'a' c && leb c b'z') || (leb b'A' c && leb c b'Z') || c == b'_'

abbrev pub is_follow : ℕ → Bool
is_follow c = is_start c || is_digit c

abbrev pub is_visible : ℕ → Bool
is_visible c = not (c == b' ')

-- The longest start of the text that the test accepts, and the rest.
unfoldable pub span : (ℕ → Bool) → Text → Text × Text
span test [] = ([], [])
span test (c ∷ s) = let rest = span test s in if test c then (c ∷ rest.0, rest.1) else ([], c ∷ s)

unfoldable pub strip : Text → Text → Option Text
strip [] s = some s
strip (c ∷ p) [] = none
strip (c ∷ p) (d ∷ s) = let rest = strip p s in if c == d then rest else none

unfoldable pub read_integer : Reader ℤ
unfolding span
read_integer [] = none
read_integer (c ∷ s) =
    let (inner, after) = span is_digit s in
    let (digits, rest) = span is_digit (c ∷ s) in
    if c == b'-' then some (read (c ∷ inner), after) else some (read digits, rest)

unfoldable pub operator_of : Text → Option Operator
unfolding same
operator_of s =
    if same s (operator_text add)
    then some add
    else if same s (operator_text subtract)
    then some subtract
    else if same s (operator_text times)
    then some times
    else if same s (operator_text over)
    then some over
    else if same s (operator_text remains)
    then some remains
    else if same s (operator_text both)
    then some both
    else if same s (operator_text below)
    then some below
    else if same s (operator_text at_most)
    then some at_most
    else if same s (operator_text equals)
    then some equals
    else if same s (operator_text differs)
    then some differs
    else if same s (operator_text at_least)
    then some at_least
    else if same s (operator_text above)
    then some above
    else none

-- A body up to its closing parenthesis.
unfoldable pub bracketed : Reader Body → (Body → Term) → Reader Term
unfolding strip
bracketed body make s = do (b, r) ← body s; r ← strip (codes ")") r; some (make b, r)

-- What follows a minus sign.
unfoldable pub after_minus : Reader Body → Reader Term
unfolding bracketed
after_minus body [] = none
after_minus body (c ∷ s) =
    let number = (do (n, r) ← read_integer (b'-' ∷ c ∷ s); some (numeral n, r)) in
    if c == b'(' then bracketed body opposite s else number

-- The end of a cell whose index has been read.
unfoldable pub subscript : Text → Term → Reader Term
unfolding strip
subscript name i [] = none
subscript name i (c ∷ s) =
    let shifted = do (low, r) ← read_integer s; r ← strip (codes "]") r; some (cell name i low, r)
    in if c == b']' then some (cell name i (pos 0), s) else if c == b'-' then shifted else none

-- What follows a name.
unfoldable pub indexed : Reader Term → Text → Reader Term
unfolding subscript
indexed term name [] = some (variable name, [])
indexed term name (c ∷ s) =
    let subscripted = (do (i, r) ← term s; subscript name i r) in
    if c == b'[' then subscripted else some (variable name, c ∷ s)

unfoldable pub term_step : Reader Term → Reader Body → Reader Term
unfolding bracketed after_minus indexed span strip
term_step term body [] = none
term_step term body (c ∷ s) =
    let number = (do (n, r) ← read_integer (c ∷ s); some (numeral n, r)) in
    let not_body = (do r ← strip (codes "(") s; bracketed body negation r) in
    let (name, rest) = span is_follow (c ∷ s) in
    let named = indexed term name rest in
    if c == b'('
    then bracketed body group s
    else if c == b'!'
    then not_body
    else if c == b'-'
    then after_minus body s
    else if is_digit c
    then number
    else if is_start c
    then named
    else none

-- The operator and the second operand, where there are any.
unfoldable pub operand : Reader Term → Term → Reader Body
unfolding strip span operator_of
operand term a [] = some (single a, [])
operand term a (c ∷ s) =
    let (word, rest) = span is_visible s in
    let second = do
      k ← operator_of word
      r ← strip (codes " ") rest
      (b, r) ← term r
      some (applied k a b, r)
    in if c == b' ' then second else some (single a, c ∷ s)

unfoldable pub body_step : Reader Term → Reader Body
unfolding strip span operand same
body_step term s =
    let chosen = do
      r ← strip (codes "if ") s
      (c, r) ← term r
      r ← strip (codes " then ") r
      (a, r) ← term r
      r ← strip (codes " else ") r
      (b, r) ← term r
      some (choice c a b, r)
    in let other = (do (a, r) ← term s; operand term a r) in
      if same (span is_follow s).0 (codes "if") then chosen else other

-- The depth of the parentheses takes fuel.
unfoldable mutual
  unfolding term_step body_step

  pub read_term : ℕ → Reader Term
  read_term zero s = none
  read_term (suc f) s = term_step (read_term f) (read_body f) s

  pub read_body : ℕ → Reader Body
  read_body zero s = none
  read_body (suc f) s = body_step (read_term f) s

abbrev pub whole : Term × Text → Option Term
whole (t, []) = some t
whole (t, c ∷ s) = none

-- The term that a text spells.
unfoldable pub read_expression : Text → Option Term
unfolding read_term
read_expression s = read_term (suc (2 * length s)) s >>= whole
