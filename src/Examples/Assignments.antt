-- ===== src/Examples/Assignments.antt =====
-- Two assignments on the array and the variable of the example of values (src/utot-expr.cc).
use uppaal_to_tchecker.Base.{Text, codes}
use uppaal_to_tchecker.Base.Integers.{pos}
use uppaal_to_tchecker.Utap.{
  Expr, constant, identifier, binary, array, plus, assign, ass_minus, comma,
}

-- a[1] = x + 1, x -= k
abbrev two_assignments : Expr
two_assignments =
    binary comma
      (binary assign (array (identifier 0) (constant (pos 1)))
        (binary plus (identifier 1) (constant (pos 1))))
      (binary ass_minus (identifier 1) (identifier 2))

abbrev text : Text
text = codes "a[1]=(x + 1);x=x-x"
