-- ===== src/Processes/Visited.antt =====
-- What a translation of a model that succeeds went through, and what it refuses
-- (src/utot-translate.cc).
use uppaal_to_tchecker.Base.{
  ℕ, Text, codes, same, ◌||◌, false, some, List, [], ◌∷◌, ◌≡◌, ◌≢◌, ◌⊎◌, sym, ◌∙◌, In, inl, inr,
}
use uppaal_to_tchecker.Outcome.{
  Outcome, ok, ◌>>=◌, Ensures, ensures, Ensures-at, Ensures-bind, Ensures-then, bind-ok, ensuring,
  assert,
}
use uppaal_to_tchecker.Outcome.Passes.{Kept, run_all-visits}
use uppaal_to_tchecker.Utap.{Utap}
use uppaal_to_tchecker.Prefix.{Prefix}
use uppaal_to_tchecker.Tchecker.{Outputter}
use uppaal_to_tchecker.Expr.{Mapping}
use uppaal_to_tchecker.Translate.{translate_expression, translate_assignment}
use uppaal_to_tchecker.Translate.Refused.{
  Refused, is_assignment, translate_expression-refuses, translate_assignment-refuses,
}
use uppaal_to_tchecker.Model.{Edge, Process, System, assign_all}
use uppaal_to_tchecker.Edges.{
  Emission, translate_edge, translate_edge_with_select, translate_edges, edge_event, with_comment,
}
use uppaal_to_tchecker.Edges.Selections.{choices, translate_edge_with_select-run_all}
use uppaal_to_tchecker.Processes.{
  Progress, translate_instance, translate_process, translate_processes, translate_parts,
  translate_model,
}
use uppaal_to_tchecker.Processes.Instances.{translate_at, translate_process_rec-run_all}
use uppaal_to_tchecker.Processes.Recorded.{Occurrence}

-- The relation that says nothing.
abbrev Any : {S : Type 0} → S → S → Type 0
Any a b = Unit {0}

Any-Kept : {A S : Type 0} (step : A → S → Outcome S) → Kept step Any
Any-Kept step = record {
  at_start = λ s. tt;
  in_turn = λ a b c h k. tt;
  by_step = λ x s. ensures λ r q. tt;
}

-- The translation of the edge, for the choice of its selections, returned.
pub data IsTranslated (u : Utap) (g f : ℕ) (ctx : Prefix) (e : Edge) (m : Mapping) : Type 0 where
  returned :
      (em em' : Emission) → translate_edge u g f ctx e m em ≡ ok em' → IsTranslated u g f ctx e m

module _ (u : Utap) (g f : ℕ) where
  edges-IsTranslated :
      (ctx : Prefix) (es : List Edge) (e : Edge) (m m' : Mapping) (ms : List Mapping)
      (em : Emission)
      → In e es
      → choices u g e.select m ≡ ok ms
      → In m' ms
      → Ensures (λ r. IsTranslated u g f ctx e m') (translate_edges u g f ctx es m em)
  unfolding translate_edges
  edges-IsTranslated ctx [] e m m' ms em i c j = absurd i
  edges-IsTranslated ctx (b ∷ es) e m m' ms em (inl here) c j = rw (← here) (
      Ensures-bind (translate_edge_with_select u g f ctx e e.select m em) _ λ r q.
        let pass = sym (translate_edge_with_select-run_all u g f ctx e e.select m ms c em) ∙ q in
        let (em1, em2, done, any) =
          run_all-visits (translate_edge u g f ctx e) Any (Any-Kept _) ms em r m' j pass in
        ensures λ r' q'. returned em1 em2 done)
  edges-IsTranslated ctx (b ∷ es) e m m' ms em (inr later) c j =
      Ensures-bind (translate_edge_with_select u g f ctx b b.select m em) _
        λ r q. edges-IsTranslated ctx es e m m' ms r later c j

  module _ (s : System) (o : Occurrence u g s) where
    abbrev Done : Progress → Type 0
    Done st = IsTranslated u g f o.ctx o.edge o.chosen

    edges-ran :
        (em : Emission)
        → Ensures
            (λ r. IsTranslated u g f o.ctx o.edge o.chosen)
            (translate_edges u g f o.ctx o.process.templ.edges
              (assign_all o.mapping o.process.mapping)
              em)
    edges-ran em =
        edges-IsTranslated o.ctx o.process.templ.edges o.edge
          (assign_all o.mapping o.process.mapping) o.chosen o.choices_of em o.is_edge o.are_choices
          o.is_choice

    edges-in_turn :
        (em : Emission) (k : Emission → Outcome Progress)
        → Ensures Done (
            translate_edges u g f o.ctx o.process.templ.edges
              (assign_all o.mapping o.process.mapping)
              em
            >>= k)
    edges-in_turn em k = Ensures-then _ k (edges-ran em) λ r h. ensures λ r' q. h

    instance-Done :
        (st : Progress) → Ensures Done (translate_instance u g f o.process o.ctx o.mapping st)
    unfolding translate_instance
    instance-Done st = search (ensuring, edges-in_turn) depth 12

    process-Done : (st : Progress) → Ensures Done (translate_process u g f o.process st)
    unfolding translate_process
    process-Done st = ensures λ r q.
        let pass =
          sym (
            translate_process_rec-run_all u g f o.process o.process.unbound
              (u.symbol_name o.process.uid ∷ []) o.process.mapping o.instances_of o.are_instances _)
          ∙ q in
        let (st1, st2, done, any) =
          run_all-visits (translate_at u g f o.process) Any (Any-Kept _) o.instances_of _ r
            (o.ctx, o.mapping) o.is_instance pass in
        Ensures-at (instance-Done st1) st2 done

    processes-Done :
        (ps : List Process) (st : Progress)
        → In o.process ps
        → Ensures Done (translate_processes u g f ps st)
    unfolding translate_processes
    processes-Done [] st i = absurd i
    processes-Done (p ∷ ps) st (inl here) = rw (← here) (
        Ensures-then (translate_process u g f o.process st) _ (process-Done st)
          λ r h. ensures λ r' q. h)
    processes-Done (p ∷ ps) st (inr later) =
        Ensures-bind (translate_process u g f p st) _ (λ r _. processes-Done ps r later)

    pub translate_parts-IsTranslated :
        (name : Text) (out : Outputter) → Ensures Done (translate_parts u g f name s out)
    unfolding translate_parts
    translate_parts-IsTranslated name out =
        let all = λ (st : Progress). processes-Done s.processes st o.is_process in
        search (ensuring, all) depth 8

-- A guard or an action of an edge that has no translation.
abbrev pub IsUntranslatable : Mapping → Edge → Type 0
IsUntranslatable m e = Refused (some m) e.guard ⊎ (is_assignment e.assign ≡ false)

translate_edge-refuses :
    (u : Utap) (g f : ℕ) (ctx : Prefix) (e : Edge) (m : Mapping) (em em' : Emission)
    → IsUntranslatable m e
    → translate_edge u g f ctx e m em ≢ ok em'
unfolding translate_edge
translate_edge-refuses u g f ctx e m em em' h q =
    let (r, labelled, q1) =
      bind-ok (edge_event u m g f ctx e.sync (with_comment u m e.select em)) _ em' q in
    let (x, known, q1') =
      bind-ok (assert (same e.actname (codes "SKIP") || same e.actname [])) _ em' q1 in
    let (guard, guarded, q2) =
      bind-ok (translate_expression u (some m) g ctx f e.guard) _ em' q1' in
    let (action, acts, q3) = bind-ok (translate_assignment u (some m) g ctx f e.assign) _ em' q2 in
    elim h [
      | inl refused ↦ translate_expression-refuses u (some m) g ctx f e.guard guard refused guarded
      | inr other ↦ translate_assignment-refuses u (some m) g ctx f e.assign action other acts
    ]

-- A model in which some edge, in some instance and for some choice of its selections, has an action
-- that is no sequence of assignments, or has in its guard, outside the indices of arrays, an operator
-- that TChecker does not have, is not translated. What a parameter stands for counts as a part of
-- the guard.
pub translate_model-refuses :
    (u : Utap) (g f : ℕ) (name : Text) (s : System) (o o' : Outputter) (e : Occurrence u g s)
    → IsUntranslatable e.chosen e.edge
    → translate_model u g f name s o ≢ ok o'
unfolding translate_model
translate_model-refuses u g f name s o o' e h q =
    let (st, parts, rest) = bind-ok (translate_parts u g f name s o) _ o' q in
    refuse (Ensures-at (translate_parts-IsTranslated u g f s e name o) st parts)
  where
    refuse : IsTranslated u g f e.ctx e.edge e.chosen → ⊥
    refuse (returned em em' done) = translate_edge-refuses u g f e.ctx e.edge e.chosen em em' h done
