-- ===== src/Processes/Tables.antt =====
-- The tables of events and the lines that translate_model has before it writes vectors
-- (src/utot-translate.cc).
use uppaal_to_tchecker.Base.{ℕ, zero, suc, Text, codes, some, List, [], ◌∷◌, ◌++◌, ◌≡◌}
use uppaal_to_tchecker.Base.Maps.{Dict, TextSet}
use uppaal_to_tchecker.Outcome.{
  ok, Ensures, Ensures-at, Ensures-ok, Ensures-bind, Ensures-then, ensures, ensuring,
}
use uppaal_to_tchecker.Utap.{Symbol, Utap, constant}
use uppaal_to_tchecker.Prefix.{Prefix, string_of}
use uppaal_to_tchecker.Tchecker.{Line, Outputter, comment, process, location, system, blank, put}
use uppaal_to_tchecker.Expr.{Instance, Mapping}
use uppaal_to_tchecker.Decl.{Variable, translate_declarations}
use uppaal_to_tchecker.Decl.Lines.{Holds, put-Holds, translate_declarations-Holds}
use uppaal_to_tchecker.Model.{State, Process, IoDecl, System, assign_symbol}
use uppaal_to_tchecker.Sync.{GlobalEvents}
use uppaal_to_tchecker.Sync.Meaning.{IsTable}
use uppaal_to_tchecker.Edges.{Emission, enumeration, translate_edges}
use uppaal_to_tchecker.Edges.Tables.{Writes, IsFresh, translate_edges-Fresh}
use uppaal_to_tchecker.Processes.{
  Progress, instantiation, state_attributes, translate_states, translate_instance, parameter,
  assignment_to_string, translate_process_rec, translate_process, translate_processes, no_events,
  note_iodecl, translate_parts,
}
use uppaal_to_tchecker.Edges.Entries.{each_value-Keeps}

module _ (P : Line → Type 0) (w : Writes P) where
  abbrev pub Clean : Progress → Type 0
  Clean st = IsFresh P st.events st.tckout

  all_declared :
      (u : Utap) (p : Instance) (g : ℕ) (ctx : Prefix) (vs : List Variable) (o : Outputter)
      → Holds P o
      → Ensures (Holds P) (translate_declarations u p g ctx vs o)
  all_declared u p g ctx vs o h =
      ensures (λ o' e. translate_declarations-Holds P u p g ctx vs o o' w.of_declaration h e)

  instantiation-Holds :
      (n : ℕ) (ctx : Prefix) (o : Outputter) → Holds P o → Holds P (instantiation n ctx o)
  instantiation-Holds zero ctx o h = h
  instantiation-Holds (suc n) ctx o h = put-Holds P o (comment _) h (w.of_declaration.of_comment _)

  module _ (u : Utap) (g f : ℕ) where
    translate_states-Holds :
        (m : Mapping) (ctx : Prefix) (init : Symbol) (ss : List State) (o : Outputter)
        → Holds P o
        → Ensures (Holds P) (translate_states u m g f ctx init ss o)
    unfolding translate_states
    translate_states-Holds m ctx init [] o h = Ensures-ok o h
    translate_states-Holds m ctx init (s ∷ ss) o h =
        Ensures-bind (state_attributes u m g f ctx init s) _ (λ attr q.
          translate_states-Holds m ctx init ss _ (
            put-Holds P o (location (string_of ctx) (u.symbol_name s.uid) attr) h
              (w.of_location _ _ _)))

    opened :
        (p : Process) (ctx : Prefix) (o : Outputter)
        → Holds P o
        → Holds P (put (instantiation p.unbound ctx o) (process (string_of ctx)))
    opened p ctx o h =
        put-Holds P (instantiation p.unbound ctx o) (process (string_of ctx))
          (instantiation-Holds p.unbound ctx o h) (w.of_process _)

    declared :
        (p : Instance) (ctx : Prefix) (vs : List Variable) (o o' : Outputter)
        → Holds P o
        → translate_declarations u p g ctx vs o ≡ ok o'
        → Holds P o'
    declared p ctx vs o o' h e = Ensures-at (all_declared u p g ctx vs o h) o' e

    stated :
        (m : Mapping) (ctx : Prefix) (init : Symbol) (ss : List State) (o o' : Outputter)
        → Holds P o
        → translate_states u m g f ctx init ss o ≡ ok o'
        → Holds P o'
    stated m ctx init ss o o' h e = Ensures-at (translate_states-Holds m ctx init ss o h) o' e

    edged :
        (p : Process) (ctx : Prefix) (m : Mapping) (ev : GlobalEvents) (o : Outputter)
        (em : Emission)
        → IsTable ev
        → Holds P o
        → translate_edges u g f ctx p.templ.edges m
            (record { local_events = []; events = ev; tckout = o })
          ≡ ok em
        → Clean (record { events = em.events; tckout = put em.tckout blank })
    edged p ctx m ev o em t h e =
        let k =
          Ensures-at
            (translate_edges-Fresh P w u g f ctx p.templ.edges m
              (record { local_events = []; events = ev; tckout = o })
              (record { table = t; unsynced = h }))
            em e in
        record { table = k.table; unsynced = put-Holds P em.tckout blank k.unsynced w.of_blank }

    translate_instance-Clean :
        (p : Process) (ctx : Prefix) (mapping : Mapping) (st : Progress)
        → Clean st
        → Ensures Clean (translate_instance u g f p ctx mapping st)
    unfolding translate_instance
    translate_instance-Clean p ctx mapping st h =
        let (t, n) : IsTable st.events × Holds P st.tckout = (h.table, h.unsynced) in
        search (ensuring, opened, declared, stated, edged) depth 14

    translate_process_rec-Clean :
        (p : Process) (n : ℕ) (ctx : Prefix) (mapping : Mapping) (st : Progress)
        → Clean st
        → Ensures Clean (translate_process_rec u g f p n ctx mapping st)
    unfolding translate_process_rec
    translate_process_rec-Clean p zero ctx mapping st h =
        translate_instance-Clean p ctx mapping st h
    translate_process_rec-Clean p (suc n) ctx mapping st h =
        Ensures-bind (parameter n p.parameters) _ (λ s _.
          Ensures-bind (enumeration u (some p.mapping) g s) _ (λ (low, count) _.
            each_value-Keeps Clean _
              (λ i r b.
                translate_process_rec-Clean p n (ctx ++ assignment_to_string u s i ∷ [])
                  (assign_symbol s (constant i) mapping) r b)
              low 0 count st h))

    translate_process-Clean :
        (p : Process) (st : Progress) → Clean st → Ensures Clean (translate_process u g f p st)
    unfolding translate_process
    translate_process-Clean p st h =
        let name = u.symbol_name p.uid in
        let noted : Progress = record st {
          tckout = put st.tckout (comment (codes "compilation of process " ++ name));
        } in
        translate_process_rec-Clean p p.unbound (name ∷ []) p.mapping noted (record {
          table = h.table;
          unsynced =
              put-Holds P st.tckout (comment (codes "compilation of process " ++ name)) h.unsynced
                (w.of_declaration.of_comment _);
        })

    translate_processes-Clean :
        (ps : List Process) (st : Progress)
        → Clean st
        → Ensures Clean (translate_processes u g f ps st)
    unfolding translate_processes
    translate_processes-Clean [] st h = Ensures-ok st h
    translate_processes-Clean (p ∷ ps) st h =
        Ensures-then (translate_process u g f p st) _ (translate_process-Clean p st h)
          (λ r b. translate_processes-Clean ps r b)

    note_iodecl-Holds : (ds : List IoDecl) (o : Outputter) → Holds P o → Holds P (note_iodecl ds o)
    note_iodecl-Holds [] o h = put-Holds P o (comment _) h (w.of_declaration.of_comment _)
    note_iodecl-Holds (d ∷ ds) o h = h

    started :
        (ps : List Process) (allowed : Dict TextSet) (o : Outputter)
        → Holds P o
        → Ensures Clean (
            translate_processes u g f ps
              (record { events = record no_events { allowed_csp = allowed }; tckout = o }))
    started ps allowed o h =
        translate_processes-Clean ps
          (record { events = record no_events { allowed_csp = allowed }; tckout = o })
          (record { table = record { emitters = tt; receivers = tt; csp = tt }; unsynced = h })

    titled : (name : Text) (o : Outputter) → Holds P o → Holds P (put o (system name))
    titled name o h = put-Holds P o (system name) h (w.of_system name)

    pub translate_parts-Clean :
        (name : Text) (s : System) (o : Outputter)
        → Holds P o
        → Ensures Clean (translate_parts u g f name s o)
    unfolding translate_parts
    translate_parts-Clean name s o h =
        search (ensuring, titled, declared, note_iodecl-Holds, started) depth 10
