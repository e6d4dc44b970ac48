-- ===== src/Decl/Bounds.antt =====
-- The bounds of integer variables, which outputter::intvar asserts (src/utot-decl.cc,
-- src/utot-tchecker.hh).
use uppaal_to_tchecker.Base.{ℕ, List, ◌≡◌}
use uppaal_to_tchecker.Outcome.{ok}
use uppaal_to_tchecker.Utap.{Utap}
use uppaal_to_tchecker.Prefix.{Prefix}
use uppaal_to_tchecker.Tchecker.{Outputter}
use uppaal_to_tchecker.Expr.{Instance}
use uppaal_to_tchecker.Decl.{Variable, translate_declarations}
use uppaal_to_tchecker.Decl.Lines.{IsBounded, AdmitsLines, Holds, translate_declarations-Holds}

IsBounded-AdmitsLines : AdmitsLines IsBounded
IsBounded-AdmitsLines = record {
  of_comment = λ t. tt;
  of_clock = λ id size. tt;
  of_intvar = λ low high init size id h. h;
}

-- A translation of declarations that succeeds writes no integer variable or array whose initial value
-- is out of its bounds, if there was none before.
pub translate_declarations-IsBounded :
    (u : Utap) (p : Instance) (f : ℕ) (ctx : Prefix) (vs : List Variable) (o o' : Outputter)
    → Holds IsBounded o
    → translate_declarations u p f ctx vs o ≡ ok o'
    → Holds IsBounded o'
translate_declarations-IsBounded u p f ctx vs o o' h e =
    translate_declarations-Holds IsBounded u p f ctx vs o o' IsBounded-AdmitsLines h e
