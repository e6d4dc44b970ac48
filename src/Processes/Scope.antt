-- ===== src/Processes/Scope.antt =====
-- The translation of the processes declares the processes and events that it uses
-- (src/utot-translate.cc).
use uppaal_to_tchecker.Base.{
  ℕ, zero, suc, Text, true, false, some, none, List, [], ◌∷◌, ◌++◌, ◌≡◌, length, ◌==◌, In,
}
use uppaal_to_tchecker.Base.Maps.{Dict, TextSet, find, contains}
use uppaal_to_tchecker.Outcome.{assert, Ensures, ensures, Ensures-ok, Ensures-bind, Ensures-then}
use uppaal_to_tchecker.Utap.{Symbol, Utap, Sync, sync_bang, sync_que, sync_csp, constant}
use uppaal_to_tchecker.Prefix.{Prefix, string_of}
use uppaal_to_tchecker.Tchecker.{Line, Outputter, system, process, location, blank, put}
use uppaal_to_tchecker.Tchecker.Scope.{IsScoped, IsSound, put-IsSound, put-comment-IsSound, put-In}
use uppaal_to_tchecker.Expr.{Instance, Mapping}
use uppaal_to_tchecker.Decl.{Variable, translate_declarations}
use uppaal_to_tchecker.Decl.Lines.{Admits, translate_declarations-Kept}
use uppaal_to_tchecker.Model.{State, Process, IoDecl, System, assign_symbol, assign_all}
use uppaal_to_tchecker.Sync.{GlobalEvents}
use uppaal_to_tchecker.Edges.{enumeration, translate_edges}
use uppaal_to_tchecker.Edges.Recorded.{recorded}
use uppaal_to_tchecker.Edges.Entries.{each_value-Keeps}
use uppaal_to_tchecker.Edges.Scope.{translate_edges-Sound}
use uppaal_to_tchecker.Processes.{
  Progress, instantiation, state_attributes, translate_states, translate_instance, parameter,
  assignment_to_string, translate_process_rec, translate_process, translate_processes, no_events,
  note_iodecl, register_iodecl, translate_parts,
}

IsSound-Admits : (base : List Line) (ev : GlobalEvents) → Admits (IsSound base ev)
IsSound-Admits base ev = record {
  of_comment = λ o t h. put-IsSound base ev o h _ tt;
  of_clock = λ o id size h. put-IsSound base ev o h _ tt;
  of_intvar = λ o low high init size id b h. put-IsSound base ev o h _ tt;
}

-- An output in scope is one over its own lines.
rebased :
    (base : List Line) (ev : GlobalEvents) (o : Outputter) → IsSound base ev o → IsSound o.out ev o
rebased base ev o h = record {
  scoped = h.scoped;
  kept = λ l i. i;
  labelled = h.labelled;
  entered = h.entered;
  tau = h.tau;
}

forgotten :
    (base : List Line) (ev : GlobalEvents) (o : Outputter) → IsSound base ev o → IsSound [] ev o
forgotten base ev o h = record {
  scoped = h.scoped;
  kept = λ l i. absurd i;
  labelled = h.labelled;
  entered = h.entered;
  tau = h.tau;
}

all_declared :
    (base : List Line) (ev : GlobalEvents) (u : Utap) (p : Instance) (g : ℕ) (ctx : Prefix)
    (vs : List Variable) (o : Outputter)
    → IsSound base ev o
    → Ensures (IsSound base ev) (translate_declarations u p g ctx vs o)
all_declared base ev u p g ctx vs o h = ensures λ o' e.
    translate_declarations-Kept (IsSound base ev) u p g ctx vs o o' (IsSound-Admits base ev) h e

instantiation-IsSound :
    (base : List Line) (ev : GlobalEvents) (n : ℕ) (ctx : Prefix) (o : Outputter)
    → IsSound base ev o
    → IsSound base ev (instantiation n ctx o)
instantiation-IsSound base ev zero ctx o h = h
instantiation-IsSound base ev (suc n) ctx o h = put-comment-IsSound base ev o h _

abbrev pub InScope : Progress → Type 0
InScope st = IsSound [] st.events st.tckout

no_entry :
    (allowed : Dict TextSet) (d : Sync) (s p : Text)
    → recorded d s p (record no_events { allowed_csp = allowed }) ≡ true
    → ⊥
unfolding find
no_entry allowed sync_bang s p c = cc
no_entry allowed sync_que s p c = cc
no_entry allowed sync_csp s p c = cc

module _ (u : Utap) (g f : ℕ) where
  translate_states-IsSound :
      (base : List Line) (ev : GlobalEvents) (m : Mapping) (ctx : Prefix) (init : Symbol)
      (ss : List State) (o : Outputter)
      → In (process (string_of ctx)) base
      → IsSound base ev o
      → Ensures (IsSound base ev) (translate_states u m g f ctx init ss o)
  unfolding translate_states
  translate_states-IsSound base ev m ctx init [] o i h = Ensures-ok o h
  translate_states-IsSound base ev m ctx init (s ∷ ss) o i h =
      Ensures-bind (state_attributes u m g f ctx init s) _ λ attr q.
        translate_states-IsSound base ev m ctx init ss _ i (
          put-IsSound base ev o h (location (string_of ctx) (u.symbol_name s.uid) attr)
            (h.kept (process (string_of ctx)) i))

  translate_instance-InScope :
      (p : Process) (ctx : Prefix) (mapping : Mapping) (st : Progress)
      → InScope st
      → Ensures InScope (translate_instance u g f p ctx mapping st)
  unfolding translate_instance
  translate_instance-InScope p ctx mapping st h =
      let m = assign_all mapping p.mapping in
      let ev = st.events in
      let o1 = instantiation p.unbound ctx st.tckout in
      let o2 = put o1 (process (string_of ctx)) in
      let h1 = instantiation-IsSound [] ev p.unbound ctx st.tckout h in
      let h2 = rebased [] ev o2 (put-IsSound [] ev o1 h1 (process (string_of ctx)) tt) in
      let i = put-In o1 (process (string_of ctx)) in
      Ensures-bind (assert (length mapping == length p.parameters)) _ λ x _.
        Ensures-then (translate_declarations u (some m) g ctx p.templ.variables o2) _
          (all_declared o2.out ev u (some m) g ctx p.templ.variables o2 h2)
          λ o3 h3.
            Ensures-then (translate_states u m g f ctx p.templ.init p.templ.states o3) _
              (translate_states-IsSound o2.out ev m ctx p.templ.init p.templ.states o3 i h3)
              λ o4 h4.
                Ensures-then
                  (translate_edges u g f ctx p.templ.edges m
                    (record { local_events = []; events = ev; tckout = o4 }))
                  _
                  (translate_edges-Sound o2.out u g f ctx i p.templ.edges m
                    (record { local_events = []; events = ev; tckout = o4 }) h4)
                  λ em h5. Ensures-ok _ (
                    forgotten o2.out em.events (put em.tckout blank)
                      (put-IsSound o2.out em.events em.tckout h5 blank tt))

  translate_process_rec-InScope :
      (p : Process) (n : ℕ) (ctx : Prefix) (mapping : Mapping) (st : Progress)
      → InScope st
      → Ensures InScope (translate_process_rec u g f p n ctx mapping st)
  unfolding translate_process_rec
  translate_process_rec-InScope p zero ctx mapping st h =
      translate_instance-InScope p ctx mapping st h
  translate_process_rec-InScope p (suc n) ctx mapping st h =
      Ensures-bind (parameter n p.parameters) _ λ s _.
        Ensures-bind (enumeration u (some p.mapping) g s) _ λ (low, count) _.
          each_value-Keeps InScope _
            (λ i r b.
              translate_process_rec-InScope p n (ctx ++ assignment_to_string u s i ∷ [])
                (assign_symbol s (constant i) mapping) r b)
            low 0 count st h

  translate_process-InScope :
      (p : Process) (st : Progress) → InScope st → Ensures InScope (translate_process u g f p st)
  unfolding translate_process
  translate_process-InScope p st h =
      translate_process_rec-InScope p p.unbound _ p.mapping _
        (put-comment-IsSound [] st.events st.tckout h _)

  translate_processes-InScope :
      (ps : List Process) (st : Progress)
      → InScope st
      → Ensures InScope (translate_processes u g f ps st)
  unfolding translate_processes
  translate_processes-InScope [] st h = Ensures-ok st h
  translate_processes-InScope (p ∷ ps) st h =
      Ensures-then (translate_process u g f p st) _ (translate_process-InScope p st h)
        λ r b. translate_processes-InScope ps r b

  note_iodecl-IsSound :
      (ev : GlobalEvents) (ds : List IoDecl) (o : Outputter)
      → IsSound [] ev o
      → IsSound [] ev (note_iodecl ds o)
  note_iodecl-IsSound ev [] o h = put-comment-IsSound [] ev o h _
  note_iodecl-IsSound ev (d ∷ ds) o h = h

  pub translate_parts-InScope :
      (name : Text) (s : System) (o : Outputter)
      → IsScoped [] o.out
      → o.tau_generated ≡ false
      → Ensures InScope (translate_parts u g f name s o)
  unfolding translate_parts contains
  translate_parts-InScope name s o scoped fresh =
      let start : IsSound [] no_events o = record {
        scoped = scoped;
        kept = λ l i. absurd i;
        labelled = λ t c. cc;
        entered = λ d s p c. absurd (no_entry [] d s p c);
        tau = λ t. cc;
      } in
      let titled = put-IsSound [] no_events o start (system name) tt in
      Ensures-then (translate_declarations u none g [] s.variables (put o (system name))) _
        (all_declared [] no_events u none g [] s.variables (put o (system name)) titled)
        λ o1 h1. Ensures-bind (register_iodecl u g f s.iodecl []) _ λ allowed _.
          let h2 = note_iodecl-IsSound no_events s.iodecl o1 h1 in
          translate_processes-InScope s.processes _ (record {
            scoped = h2.scoped;
            kept = λ l i. absurd i;
            labelled = λ t c. cc;
            entered = λ d s p c. absurd (no_entry allowed d s p c);
            tau = h2.tau;
          })
