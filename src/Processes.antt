-- ===== src/Processes.antt =====
-- Processes and the whole model (src/utot-translate.cc).
pub mod Tables
pub mod Written
pub mod Asserted
pub mod Instances
pub mod Scope
pub mod Declared
pub mod Ends
pub mod Names
pub mod Distinct
pub mod Recorded
pub mod Covered
pub mod Visited
use mathlib.Core.List.{reverse}
use uppaal_to_tchecker.Base.{
  ℕ, zero, suc, ◌+◌, Text, codes, Bool, true, false, ◌&&◌, Option, none, some, List, [], ◌∷◌, ◌++◌,
  ◌==◌, if◌then◌else◌, length,
}
use uppaal_to_tchecker.Base.Integers.{ℤ, decimal}
use uppaal_to_tchecker.Base.Maps.{Dict, TextSet, find, emplace, update, assign, insert}
use uppaal_to_tchecker.Outcome.{Outcome, ok, thrown, fault, ◌>>=◌, ◌>>◌, assert}
use uppaal_to_tchecker.Utap.{Symbol, Expr, Ty, Kind, Utap, constant, is_empty, committed, urgent}
use uppaal_to_tchecker.Prefix.{Prefix, string_of}
use uppaal_to_tchecker.Tchecker.{
  Attributes, Outputter, system, process, comment, location, blank, put, location_initial,
  location_invariant, location_committed, location_urgent,
}
use uppaal_to_tchecker.Expr.{Instance, Mapping}
use uppaal_to_tchecker.Translate.{translate_expression}
use uppaal_to_tchecker.Decl.{translate_declarations}
use uppaal_to_tchecker.Model.{
  State, Edge, Template, Process, IoDecl, System, assign_symbol, assign_all,
}
use uppaal_to_tchecker.Edges.{Emission, each_value, enumeration, translate_edges}
use uppaal_to_tchecker.Sync.{GlobalEvents, generate_sync_vectors}

-- if (test) attr[key] = ""
abbrev pub mark : Bool → Text → Attributes → Attributes
mark test key attr = if test then assign key [] attr else attr

unfoldable pub invariant_attribute : Utap → Mapping → ℕ → ℕ → Prefix → Expr → Outcome Attributes
unfolding translate_expression assign
invariant_attribute u m g f ctx e =
    if is_empty e
    then ok []
    else (do t ← translate_expression u (some m) g ctx f e; ok (assign location_invariant t []))

-- the attributes of a location
unfoldable pub state_attributes :
    Utap → Mapping → ℕ → ℕ → Prefix → Symbol → State → Outcome Attributes
unfolding invariant_attribute assign
state_attributes u m g f ctx init s = do
  attr ← invariant_attribute u m g f ctx s.invariant
  ok (
      mark (s.uid == init) location_initial (
        mark (u.is (u.symbol_type s.uid) urgent) location_urgent
          (mark (u.is (u.symbol_type s.uid) committed) location_committed attr)))

-- s_translate_states
unfoldable pub translate_states :
    Utap → Mapping → ℕ → ℕ → Prefix → Symbol → List State → Outputter → Outcome Outputter
unfolding state_attributes put string_of
translate_states u m g f ctx init [] o = ok o
translate_states u m g f ctx init (s ∷ ss) o = do
  attr ← state_attributes u m g f ctx init s
  translate_states u m g f ctx init ss (put o (location (string_of ctx) (u.symbol_name s.uid) attr))

-- The tables of events and the writer, which the processes share.
pub record Progress : Type 0 where
  pub events : GlobalEvents
  pub tckout : Outputter

abbrev pub instantiation : ℕ → Prefix → Outputter → Outputter
instantiation zero ctx o = o
instantiation (suc n) ctx o = put o (comment (codes "instantiation as " ++ string_of ctx))

-- s_translate_process of an instance whose parameters all have a value
unfoldable pub translate_instance :
    Utap → ℕ → ℕ → Process → Prefix → Mapping → Progress → Outcome Progress
unfolding put string_of assign_all translate_declarations translate_states translate_edges
translate_instance u g f p ctx mapping st = do
  assert (length mapping == length p.parameters)
  let m = assign_all mapping p.mapping
  o ←
      translate_declarations u (some m) g ctx p.templ.variables
        (put (instantiation p.unbound ctx st.tckout) (process (string_of ctx)))
  o' ← translate_states u m g f ctx p.templ.init p.templ.states o
  em ←
      translate_edges u g f ctx p.templ.edges m
        (record { local_events = []; events = st.events; tckout = o' })
  ok (record { events = em.events; tckout = put em.tckout blank })

-- s_assignment_to_string
unfoldable pub assignment_to_string : Utap → Symbol → ℤ → Text
unfolding decimal
assignment_to_string u s value = u.symbol_name s ++ (codes "_" ++ decimal value)

unfoldable pub parameter : ℕ → List Symbol → Outcome Symbol
parameter n [] = fault
parameter zero (s ∷ ss) = ok s
parameter (suc n) (s ∷ ss) = parameter n ss

-- s_translate_process_rec, over the number of parameters that have no value yet
unfoldable pub translate_process_rec :
    Utap → ℕ → ℕ → Process → ℕ → Prefix → Mapping → Progress → Outcome Progress
unfolding translate_instance parameter enumeration each_value assignment_to_string assign_symbol
translate_process_rec u g f p zero ctx mapping st = translate_instance u g f p ctx mapping st
translate_process_rec u g f p (suc n) ctx mapping st = do
  s ← parameter n p.parameters
  (low, count) ← enumeration u (some p.mapping) g s
  each_value
      (λ i st'.
        translate_process_rec u g f p n (ctx ++ assignment_to_string u s i ∷ [])
          (assign_symbol s (constant i) mapping) st')
      low 0 count st

-- s_translate_process
unfoldable pub translate_process : Utap → ℕ → ℕ → Process → Progress → Outcome Progress
unfolding translate_process_rec put
translate_process u g f p st =
    let name = u.symbol_name p.uid in
    let st' : Progress = record st {
      tckout = put st.tckout (comment (codes "compilation of process " ++ name));
    } in
    translate_process_rec u g f p p.unbound (name ∷ []) p.mapping st'

unfoldable pub translate_processes : Utap → ℕ → ℕ → List Process → Progress → Outcome Progress
unfolding translate_process
translate_processes u g f [] st = ok st
translate_processes u g f (p ∷ ps) st = do
  st' ← translate_process u g f p st
  translate_processes u g f ps st'

-- The loop of s_register_iodecl over the events of a section.
unfoldable pub io_events : Utap → ℕ → ℕ → List Expr → TextSet → Outcome TextSet
unfolding translate_expression insert
io_events u g f [] set = ok set
io_events u g f (e ∷ es) set = do
  ev ← translate_expression u none g [] f e
  io_events u g f es (insert ev set)

abbrev pub set_at : Option TextSet → TextSet
set_at none = []
set_at (some s) = s

abbrev pub has_csp : IoDecl → Bool
has_csp d = elim d.csp [ [] ↦ false | _ ∷ _ ↦ true ]

-- s_register_iodecl
unfoldable pub register_iodecl : Utap → ℕ → ℕ → List IoDecl → Dict TextSet → Outcome (Dict TextSet)
unfolding io_events find emplace update
register_iodecl u g f [] allowed = ok allowed
register_iodecl u g f (d ∷ ds) allowed =
    let added = emplace d.instance_name [] allowed in
    let rest = do
      set ← io_events u g f d.csp (set_at (find d.instance_name added))
      register_iodecl u g f ds (update d.instance_name set added)
    in let skip = register_iodecl u g f ds allowed in if has_csp d then rest else skip

abbrev pub no_events : GlobalEvents
no_events = record {
  emitters = [];
  receivers = [];
  csp = [];
  allowed_csp = [];
  labels = [];
  brodcasts = [];
}

abbrev pub note_iodecl : List IoDecl → Outputter → Outputter
note_iodecl [] o = put o (comment (codes "no iodecl"))
note_iodecl (d ∷ ds) o = o

-- The part of translate_model before the synchronisation vectors.
unfoldable pub translate_parts : Utap → ℕ → ℕ → Text → System → Outputter → Outcome Progress
unfolding put translate_declarations register_iodecl translate_processes
translate_parts u g f sysname s o = do
  o' ← translate_declarations u none g [] s.variables (put o (system sysname))
  allowed ← register_iodecl u g f s.iodecl []
  let noted = note_iodecl s.iodecl o'
  translate_processes u g f s.processes
      (record { events = record no_events { allowed_csp = allowed }; tckout = noted })

-- translate_model; `g` is the fuel of evaluations and `f` that of translations
unfoldable pub translate_model : Utap → ℕ → ℕ → Text → System → Outputter → Outcome Outputter
unfolding translate_parts generate_sync_vectors
translate_model u g f sysname s o = do
  st ← translate_parts u g f sysname s o
  ok (generate_sync_vectors st.tckout st.events)
