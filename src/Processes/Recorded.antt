-- ===== src/Processes/Recorded.antt =====
-- The labels of the edges of all processes in the tables of events (src/utot-translate.cc).
use uppaal_to_tchecker.Base.{
  ℕ, zero, suc, Text, true, some, List, [], ◌∷◌, ◌++◌, if◌then◌else◌, ◌≡◌, sym, ◌∙◌, In, inl, inr,
}
use uppaal_to_tchecker.Outcome.{
  ok, Ensures, ensures, Ensures-at, Ensures-ok, Ensures-bind, Ensures-then, ensuring,
}
use uppaal_to_tchecker.Outcome.Passes.{Kept, run_all-visits}
use uppaal_to_tchecker.Utap.{Sync, Expr, Utap, constant, sync_on}
use uppaal_to_tchecker.Prefix.{Prefix, string_of}
use uppaal_to_tchecker.Tchecker.{Outputter}
use uppaal_to_tchecker.Expr.{Mapping}
use uppaal_to_tchecker.Translate.{translate_expression}
use uppaal_to_tchecker.Model.{Edge, Process, System, assign_symbol, assign_all}
use uppaal_to_tchecker.Sync.{GlobalEvents}
use uppaal_to_tchecker.Edges.{Emission, enumeration, translate_edges}
use uppaal_to_tchecker.Edges.Entries.{each_value-Keeps}
use uppaal_to_tchecker.Edges.Recorded.{recorded}
use uppaal_to_tchecker.Edges.Kept.{translate_edges-Keeps}
use uppaal_to_tchecker.Edges.Selections.{choices}
use uppaal_to_tchecker.Edges.Chosen.{translate_edges-Labelled}
use uppaal_to_tchecker.Processes.{
  Progress, translate_instance, parameter, assignment_to_string, translate_process_rec,
  translate_process, translate_processes, translate_parts,
}
use uppaal_to_tchecker.Processes.Instances.{instances, translate_at, translate_process_rec-run_all}

-- Whatever the tables of events say before, they say after.
abbrev Grows : Progress → Progress → Type 0
Grows a b =
    (d : Sync) (c p : Text) → recorded d c p a.events ≡ true → recorded d c p b.events ≡ true

Grows-trans : (a b c : Progress) → Grows a b → Grows b c → Grows a c
Grows-trans a b c h k d s p r = k d s p (h d s p r)

-- A label of an edge of an instance of a process of the model, with values for the selections.
pub record Occurrence (u : Utap) (g : ℕ) (s : System) : Type 0 where
  pub process : Process
  pub is_process : In process s.processes
  pub instances_of : List (Prefix × Mapping)
  pub are_instances :
      instances u g process process.unbound (u.symbol_name process.uid ∷ []) process.mapping
      ≡ ok instances_of
  pub ctx : Prefix
  pub mapping : Mapping
  pub is_instance : In (ctx, mapping) instances_of
  pub edge : Edge
  pub is_edge : In edge process.templ.edges
  pub choices_of : List Mapping
  pub are_choices : choices u g edge.select (assign_all mapping process.mapping) ≡ ok choices_of
  pub chosen : Mapping
  pub is_choice : In chosen choices_of

module _ (u : Utap) (g f : ℕ) where
  edges-Grows :
      (p : Process) (ctx : Prefix) (m : Mapping) (st : Progress) (o : Outputter) (em : Emission)
      → translate_edges u g f ctx p.templ.edges m
          (record { local_events = []; events = st.events; tckout = o })
        ≡ ok em
      → (o' : Outputter) → Grows st (record { events = em.events; tckout = o' })
  edges-Grows p ctx m st o em q o' =
      Ensures-at
        (translate_edges-Keeps u g f ctx p.templ.edges m
          (record { local_events = []; events = st.events; tckout = o }))
        em q

  translate_instance-Grows :
      (p : Process) (ctx : Prefix) (m : Mapping) (st : Progress)
      → Ensures (Grows st) (translate_instance u g f p ctx m st)
  unfolding translate_instance
  translate_instance-Grows p ctx m st = search (ensuring, edges-Grows) depth 12

  translate_process_rec-Grows :
      (p : Process) (n : ℕ) (ctx : Prefix) (m : Mapping) (st : Progress)
      → Ensures (Grows st) (translate_process_rec u g f p n ctx m st)
  unfolding translate_process_rec
  translate_process_rec-Grows p zero ctx m st = translate_instance-Grows p ctx m st
  translate_process_rec-Grows p (suc n) ctx m st = Ensures-bind (parameter n p.parameters) _ (λ s _.
      Ensures-bind (enumeration u (some p.mapping) g s) _ (λ (low, count) _.
        each_value-Keeps (Grows st) _
          (λ i r b. ensures λ r' q. Grows-trans st r r' b (
            Ensures-at
              (translate_process_rec-Grows p n (ctx ++ assignment_to_string u s i ∷ [])
                (assign_symbol s (constant i) m) r)
              r' q))
          low 0 count st (λ d c p h. h)))

  translate_process-Grows :
      (p : Process) (st : Progress) → Ensures (Grows st) (translate_process u g f p st)
  unfolding translate_process
  translate_process-Grows p st =
      translate_process_rec-Grows p p.unbound (u.symbol_name p.uid ∷ []) p.mapping _

  translate_processes-Grows :
      (ps : List Process) (st : Progress) → Ensures (Grows st) (translate_processes u g f ps st)
  unfolding translate_processes
  translate_processes-Grows [] st = Ensures-ok st (λ d c p h. h)
  translate_processes-Grows (p ∷ ps) st =
      Ensures-then (translate_process u g f p st) _ (translate_process-Grows p st) λ r h.
        ensures λ r' q. Grows-trans st r r' h (Ensures-at (translate_processes-Grows ps r) r' q)

  translate_at-Kept : (p : Process) → Kept (translate_at u g f p) Grows
  translate_at-Kept p = record {
    at_start = λ st d c p h. h;
    in_turn = Grows-trans;
    by_step = λ (ctx, m) st. translate_instance-Grows p ctx m st;
  }

  -- The process stands under the channel's name, with the values chosen.
  abbrev pub Entered : Prefix → Mapping → Sync → Expr → Progress → Type 0
  Entered ctx m d x st =
      (c : Text) × (translate_expression u (some m) g
          (if u.has_parent (u.get_symbol (sync_on d x)) then ctx else []) f (sync_on d x)
        ≡ ok c)
      × (recorded d c (string_of ctx) st.events ≡ true)

  Entered-Grows :
      (ctx : Prefix) (m : Mapping) (d : Sync) (x : Expr) (st st' : Progress)
      → Entered ctx m d x st
      → Grows st st'
      → Entered ctx m d x st'
  Entered-Grows ctx m d x st st' (c, q, r) h = (c, q, h d c (string_of ctx) r)

  module _ (s : System) (o : Occurrence u g s) (d : Sync) (x : Expr)
      (is_label : o.edge.sync ≡ sync_on d x) where
    abbrev EnteredHere : Progress → Type 0
    EnteredHere = Entered o.ctx o.chosen d x

    edges-Entered :
        (ev : GlobalEvents) (out : Outputter) (em : Emission)
        → translate_edges u g f o.ctx o.process.templ.edges
            (assign_all o.mapping o.process.mapping)
            (record { local_events = []; events = ev; tckout = out })
          ≡ ok em
        → (out' : Outputter) → EnteredHere (record { events = em.events; tckout = out' })
    edges-Entered ev out em q out' =
        translate_edges-Labelled u g f o.ctx o.process.templ.edges o.edge
          (assign_all o.mapping o.process.mapping) o.chosen o.choices_of
          (record { local_events = []; events = ev; tckout = out }) em d x o.is_edge o.are_choices
          o.is_choice is_label q

    instance-Entered :
        (st : Progress)
        → Ensures EnteredHere (translate_instance u g f o.process o.ctx o.mapping st)
    unfolding translate_instance
    instance-Entered st = search (ensuring, edges-Entered) depth 12

    process-Entered : (st : Progress) → Ensures EnteredHere (translate_process u g f o.process st)
    unfolding translate_process
    process-Entered st = ensures λ r q.
        let pass =
          sym (
            translate_process_rec-run_all u g f o.process o.process.unbound
              (u.symbol_name o.process.uid ∷ []) o.process.mapping o.instances_of o.are_instances _)
          ∙ q in
        let (st1, st2, here, grows) =
          run_all-visits (translate_at u g f o.process) Grows (translate_at-Kept o.process)
            o.instances_of _ r (o.ctx, o.mapping) o.is_instance pass in
        Entered-Grows o.ctx o.chosen d x st2 r (Ensures-at (instance-Entered st1) st2 here) grows

    processes-Entered :
        (ps : List Process) (st : Progress)
        → In o.process ps
        → Ensures EnteredHere (translate_processes u g f ps st)
    unfolding translate_processes
    processes-Entered [] st i = absurd i
    processes-Entered (p ∷ ps) st (inl here) = rw (← here) (
        Ensures-then (translate_process u g f o.process st) _ (process-Entered st) λ r h.
          ensures λ r' q.
            Entered-Grows o.ctx o.chosen d x r r' h
              (Ensures-at (translate_processes-Grows ps r) r' q))
    processes-Entered (p ∷ ps) st (inr later) =
        Ensures-bind (translate_process u g f p st) _ (λ r _. processes-Entered ps r later)

    pub translate_parts-Entered :
        (name : Text) (out : Outputter) → Ensures EnteredHere (translate_parts u g f name s out)
    unfolding translate_parts
    translate_parts-Entered name out =
        let all = λ (st : Progress). processes-Entered s.processes st o.is_process in
        search (ensuring, all) depth 8
