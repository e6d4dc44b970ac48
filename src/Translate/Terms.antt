-- ===== src/Translate/Terms.antt =====
-- The part of TChecker's expressions that translate_expression writes (src/utot-expr.cc), as terms
-- with their text and their run-time value.
use uppaal_to_tchecker.Base.{zero, Text, codes, ◌++◌}
use uppaal_to_tchecker.Base.Integers.{ℤ, pos, decimal}

-- TChecker's operators with two operands.
pub data Operator : Type 0 where
  add subtract times over remains both below at_most equals differs at_least above : Operator

abbrev pub operator_text : Operator → Text
operator_text add = codes "+"
operator_text subtract = codes "-"
operator_text times = codes "*"
operator_text over = codes "/"
operator_text remains = codes "%"
operator_text both = codes "&&"
operator_text below = codes "<"
operator_text at_most = codes "<="
operator_text equals = codes "=="
operator_text differs = codes "!="
operator_text at_least = codes ">="
operator_text above = codes ">"

mutual
  -- A cell is given by its index and the index that the array starts at.
  pub data Term : Type 0 where
    variable : Text → Term
    numeral : ℤ → Term
    cell : Text → Term → ℤ → Term
    negation : Body → Term
    opposite : Body → Term
    group : Body → Term

  -- What stands between parentheses.
  pub data Body : Type 0 where
    single : Term → Body
    applied : Operator → Term → Term → Body
    choice : Term → Term → Term → Body

-- What follows the index of a cell.
abbrev pub shift_text : ℤ → Text
shift_text (pos zero) = codes "]"
shift_text low = codes "-" ++ (decimal low ++ codes "]")

unfoldable mutual
  pub print : Term → Text
  print (variable name) = name
  print (numeral n) = decimal n
  print (cell name i low) = name ++ (codes "[" ++ (print i ++ shift_text low))
  print (negation b) = codes "!(" ++ (print_body b ++ codes ")")
  print (opposite b) = codes "-(" ++ (print_body b ++ codes ")")
  print (group b) = codes "(" ++ (print_body b ++ codes ")")

  pub print_body : Body → Text
  print_body (single t) = print t
  print_body (applied k a b) = print a ++ (codes " " ++ (operator_text k ++ (codes " " ++ print b)))
  print_body (choice c a b) =
      codes "if " ++ (print c ++ (codes " then " ++ (print a ++ (codes " else " ++ print b))))
