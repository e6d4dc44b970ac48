-- ===== src/Processes/Ends.antt =====
-- The translation of models whose constants have a rank (src/utot-translate.cc).
use uppaal_to_tchecker.Base.{ℕ, zero, suc, Text, some, none, List, [], ◌∷◌, ◌++◌, All, ◌≢◌}
use uppaal_to_tchecker.Base.Maps.{Dict, TextSet}
use uppaal_to_tchecker.Outcome.{out_of_fuel}
use uppaal_to_tchecker.Outcome.Ends.{Ends, Ends-at, ending}
use uppaal_to_tchecker.Utap.{Symbol, Expr, Utap, constant}
use uppaal_to_tchecker.Prefix.{Prefix}
use uppaal_to_tchecker.Tchecker.{Outputter}
use uppaal_to_tchecker.Expr.{Mapping}
use uppaal_to_tchecker.Expr.Ends.{
  IsRanked, IsUnder, Below-none, IsUnder-Below, assign_symbol-IsUnder, assign_all-IsUnder,
  eval-Ends,
}
use uppaal_to_tchecker.Translate.{translate_expression}
use uppaal_to_tchecker.Translate.Ends.{translate_expression-Ends}
use uppaal_to_tchecker.Decl.{Variable, translate_declarations}
use uppaal_to_tchecker.Decl.Ends.{translate_declarations-Ends}
use uppaal_to_tchecker.Model.{State, Process, IoDecl, System, assign_symbol, assign_all}
use uppaal_to_tchecker.Edges.Ends.{each_value-Ends, enumeration-Ends, translate_edges-Ends}
use uppaal_to_tchecker.Processes.{
  Progress, invariant_attribute, state_attributes, translate_states, translate_instance, parameter,
  assignment_to_string, translate_process_rec, translate_process, translate_processes, io_events,
  register_iodecl, translate_parts, translate_model,
}

Ends-parameter : (n : ℕ) (ss : List Symbol) → Ends (λ g f. parameter n ss)
unfolding parameter
Ends-parameter n [] = search ending
Ends-parameter zero (s ∷ ss) = search ending
Ends-parameter (suc n) (s ∷ ss) = Ends-parameter n ss

-- The constants of the model are ranked, and so are the values of the parameters of its processes.
pub record IsRankedModel (u : Utap) (rank : Expr → ℕ) (s : System) : Type 0 where
  pub constants : IsRanked u rank
  pub parameters : All (λ (p : Process). IsUnder rank p.mapping) s.processes

module _ (u : Utap) (rank : Expr → ℕ) (h : IsRanked u rank) where
  expressions :
      (m : Mapping)
      → IsUnder rank m
      → (c : Prefix) (e : Expr) → Ends (λ g f. translate_expression u (some m) g c f e)
  expressions m k c e = translate_expression-Ends u (some m) rank h (IsUnder-Below rank m k) c e

  invariant_attribute-Ends :
      (m : Mapping)
      → IsUnder rank m
      → (ctx : Prefix) (e : Expr) → Ends (λ g f. invariant_attribute u m g f ctx e)
  unfolding invariant_attribute
  invariant_attribute-Ends m k ctx e = let x = expressions m k in search (ending, x) depth 8

  state_attributes-Ends :
      (m : Mapping)
      → IsUnder rank m
      → (ctx : Prefix) (init : Symbol) (s : State)
      → Ends (λ g f. state_attributes u m g f ctx init s)
  unfolding state_attributes
  state_attributes-Ends m k ctx init s =
      let x = invariant_attribute-Ends m k in search (ending, x) depth 8

  translate_states-Ends :
      (m : Mapping)
      → IsUnder rank m
      → (ctx : Prefix) (init : Symbol) (ss : List State) (o : Outputter)
      → Ends (λ g f. translate_states u m g f ctx init ss o)
  unfolding translate_states
  translate_states-Ends m k ctx init [] o = search ending
  translate_states-Ends m k ctx init (s ∷ ss) o =
      let first = state_attributes-Ends m k ctx init s in
      let rest = translate_states-Ends m k ctx init ss in search (ending, first, rest) depth 8

  declarations :
      (m : Mapping)
      → IsUnder rank m
      → (ctx : Prefix) (vs : List Variable) (o : Outputter)
      → Ends (λ g f. translate_declarations u (some m) g ctx vs o)
  declarations m k =
      translate_declarations-Ends u (some m) (eval-Ends u rank h (some m) (IsUnder-Below rank m k))

  translate_instance-Ends :
      (p : Process)
      → IsUnder rank p.mapping
      → (ctx : Prefix) (mapping : Mapping) → IsUnder rank mapping
      → (st : Progress) → Ends (λ g f. translate_instance u g f p ctx mapping st)
  unfolding translate_instance
  translate_instance-Ends p k ctx mapping k' st =
      let both = assign_all-IsUnder rank mapping p.mapping k' k in
      let m = assign_all mapping p.mapping in
      let x = declarations m both in
      let y = translate_states-Ends m both in
      let z = translate_edges-Ends u rank h ctx p.templ.edges m both in
      search (ending, x, y, z) depth 14

  translate_process_rec-Ends :
      (p : Process)
      → IsUnder rank p.mapping
      → (n : ℕ) (ctx : Prefix) (m : Mapping) → IsUnder rank m
      → (st : Progress) → Ends (λ g f. translate_process_rec u g f p n ctx m st)
  unfolding translate_process_rec
  translate_process_rec-Ends p k zero ctx m k' st = translate_instance-Ends p k ctx m k' st
  translate_process_rec-Ends p k (suc n) ctx m k' st =
      let range = enumeration-Ends u rank h (some p.mapping) (IsUnder-Below rank p.mapping k) in
      let rounds = λ (s : Symbol).
        each_value-Ends
          (λ g f i r.
            translate_process_rec u g f p n (ctx ++ assignment_to_string u s i ∷ [])
              (assign_symbol s (constant i) m) r)
          (λ i r.
            translate_process_rec-Ends p k n (ctx ++ assignment_to_string u s i ∷ [])
              (assign_symbol s (constant i) m)
              (assign_symbol-IsUnder rank s (constant i) m (h.constant_lt s i) k') r) in
      search (ending, Ends-parameter, range, rounds) depth 10

  translate_process-Ends :
      (p : Process)
      → IsUnder rank p.mapping
      → (st : Progress) → Ends (λ g f. translate_process u g f p st)
  unfolding translate_process
  translate_process-Ends p k st = translate_process_rec-Ends p k p.unbound _ p.mapping k _

  translate_processes-Ends :
      (ps : List Process)
      → All (λ (p : Process). IsUnder rank p.mapping) ps
      → (st : Progress) → Ends (λ g f. translate_processes u g f ps st)
  unfolding translate_processes
  translate_processes-Ends [] k st = search ending
  translate_processes-Ends (p ∷ ps) k st =
      let first = translate_process-Ends p k.0 in
      let rest = translate_processes-Ends ps k.1 in search (ending, first, rest) depth 8

  sections : (c : Prefix) (e : Expr) → Ends (λ g f. translate_expression u none g c f e)
  sections c e = translate_expression-Ends u none rank h (Below-none rank) c e

  io_events-Ends : (es : List Expr) (set : TextSet) → Ends (λ g f. io_events u g f es set)
  unfolding io_events
  io_events-Ends [] set = search ending
  io_events-Ends (e ∷ es) set =
      let rest = io_events-Ends es in search (ending, sections, rest) depth 8

  register_iodecl-Ends :
      (ds : List IoDecl) (allowed : Dict TextSet) → Ends (λ g f. register_iodecl u g f ds allowed)
  unfolding register_iodecl
  register_iodecl-Ends [] allowed = search ending
  register_iodecl-Ends (d ∷ ds) allowed =
      let rest = register_iodecl-Ends ds in search (ending, io_events-Ends, rest) depth 10

pub translate_model-Ends :
    (u : Utap) (rank : Expr → ℕ) (s : System)
    → IsRankedModel u rank s
    → (name : Text) (o : Outputter) → Ends (λ g f. translate_model u g f name s o)
unfolding translate_model translate_parts
translate_model-Ends u rank s h name o =
    let x =
      translate_declarations-Ends u none (eval-Ends u rank h.constants none (Below-none rank)) in
    let y = register_iodecl-Ends u rank h.constants in
    let z = translate_processes-Ends u rank h.constants s.processes h.parameters in
    search (ending, x, y, z) depth 12

-- The translation of a model whose constants and parameters are ranked ends: with enough fuel it has a
-- result, an error or a fault.
pub translate_model-ends :
    (u : Utap) (rank : Expr → ℕ) (s : System) (name : Text) (o : Outputter)
    → IsRankedModel u rank s
    → (k : ℕ) × (translate_model u k k name s o ≢ out_of_fuel)
translate_model-ends u rank s name o h = Ends-at (translate_model-Ends u rank s h name o)
