-- ===== src/Translate/Assigned.antt =====
-- The assignments that translate_assignment writes (src/utot-expr.cc).
use uppaal_to_tchecker.Outcome.{Outcome}
use uppaal_to_tchecker.Utap.{Expr, Utap}
use uppaal_to_tchecker.Prefix.{Prefix}
