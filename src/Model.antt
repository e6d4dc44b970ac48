-- ===== src/Model.antt =====
-- What the translator reads of a parsed model: state_t, edge_t, template_t, instance_t, iodecl_t and
-- declarations_t of utap, as src/utot-translate.cc uses them.
use uppaal_to_tchecker.Base.{ℕ, Text, List, [], ◌∷◌, ◌==◌, if◌then◌else◌}
use uppaal_to_tchecker.Utap.{Symbol, Expr}
use uppaal_to_tchecker.Expr.{Mapping}
use uppaal_to_tchecker.Decl.{Variable}

pub record State : Type 0 where
  pub uid : Symbol
  pub invariant : Expr

pub record Edge : Type 0 where
  pub src : Symbol
  pub dst : Symbol
  pub select : List Symbol
  pub guard : Expr
  pub sync : Expr
  pub assign : Expr
  pub actname : Text

pub record Template : Type 0 where
  pub variables : List Variable
  pub states : List State
  pub init : Symbol
  pub edges : List Edge

-- instance_t; `parameters` starts with the unbound ones
pub record Process : Type 0 where
  pub uid : Symbol
  pub parameters : List Symbol
  pub mapping : Mapping
  pub unbound : ℕ
  pub templ : Template

pub record IoDecl : Type 0 where
  pub instance_name : Text
  pub csp : List Expr

-- The globals and the processes of a TimedAutomataSystem.
pub record System : Type 0 where
  pub variables : List Variable
  pub iodecl : List IoDecl
  pub processes : List Process

-- mapping[s] = e
unfoldable pub assign_symbol : Symbol → Expr → Mapping → Mapping
assign_symbol s e [] = (s, e) ∷ []
assign_symbol s e ((t, x) ∷ m) = if t == s then (s, e) ∷ m else (t, x) ∷ assign_symbol s e m

-- `for (kv : mapping) p.mapping[kv.first] = kv.second`
unfoldable pub assign_all : Mapping → Mapping → Mapping
unfolding assign_symbol
assign_all [] m = m
assign_all ((s, e) ∷ mapping) m = assign_all mapping (assign_symbol s e m)
