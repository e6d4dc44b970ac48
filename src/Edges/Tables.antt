-- ===== src/Edges/Tables.antt =====
-- The tables of events and the lines that the translation of edges leaves (src/utot-translate.cc).
use uppaal_to_tchecker.Base.{
  ℕ, Text, same, Bool, true, false, not, ◌&&◌, some, Bool-cases, inl, inr, codes, All-append, List,
  [], ◌∷◌, ◌++◌, ◌≡◌,
}
use uppaal_to_tchecker.Base.Maps.{contains}
use uppaal_to_tchecker.Outcome.{
  ok, Ensures, Ensures-at, Ensures-ok, Ensures-bind, Ensures-then, Ensures-if, ensuring,
}
use uppaal_to_tchecker.Utap.{Symbol, Sync, Expr, Utap, constant, is_empty}
use uppaal_to_tchecker.Prefix.{Prefix}
use uppaal_to_tchecker.Tchecker.{
  Attributes, Line, Outputter, system, process, event, comment, location, edge, blank, put_edge,
  tau_event,
}
use uppaal_to_tchecker.Expr.{Mapping}
use uppaal_to_tchecker.Decl.Lines.{AdmitsLines, Holds, put-Holds}
use uppaal_to_tchecker.Model.{Edge, assign_symbol}
use uppaal_to_tchecker.Sync.{GlobalEvents}
use uppaal_to_tchecker.Sync.Meaning.{IsTable}
use uppaal_to_tchecker.Edges.{
  Emission, enumeration, record_event, declare_local, declare_label, build_edge_label, with_comment,
  edge_event, translate_edge, translate_edge_with_select, translate_edges,
}
use uppaal_to_tchecker.Edges.Entries.{record_event-IsTable, each_value-Keeps}

-- A property of lines that every line but a vector has, if a bounded variable does.
pub record Writes (P : Line → Type 0) : Type 0 where
  pub of_declaration : AdmitsLines P
  pub of_system : (t : Text) → P (system t)
  pub of_process : (t : Text) → P (process t)
  pub of_event : (t : Text) → P (event t)
  pub of_location : (p t : Text) (a : Attributes) → P (location p t a)
  pub of_edge : (p s t e : Text) (a : Attributes) → P (edge p s t e a)
  pub of_blank : P blank

-- Well-formed tables, and lines that have the property.
pub record IsFresh (P : Line → Type 0) (events : GlobalEvents) (o : Outputter) : Type 0 where
  pub table : IsTable events
  pub unsynced : Holds P o

module _ (P : Line → Type 0) (w : Writes P) where
  put_edge-Holds :
      (o : Outputter) (p s t e : Text) (a : Attributes) → Holds P o → Holds P (put_edge o p s t e a)
  unfolding put_edge
  put_edge-Holds o p s t e a h =
      let declared : Outputter = record {
        out =
            o.out
            ++ comment (codes "global event for Uppaal unlabelled edges") ∷ event tau_event ∷ [];
        tau_generated = true;
      } in
      elim (Bool-cases (same e tau_event && not o.tau_generated)) [
        | inl first ↦ rw first (
            put-Holds P declared (edge p s t e a)
              (All-append P o.out
                (comment (codes "global event for Uppaal unlabelled edges") ∷ event tau_event ∷ [])
                h (w.of_declaration.of_comment _, (w.of_event _, tt)))
              (w.of_edge p s t e a))
        | inr later ↦ rw later (put-Holds P o (edge p s t e a) h (w.of_edge p s t e a))
      ]

  abbrev Fresh : Emission → Type 0
  Fresh em = IsFresh P em.events em.tckout

  declare_local-Fresh :
      (l : Bool) (ev : Text) (em : Emission) → Fresh em → Fresh (declare_local l ev em)
  unfolding declare_local
  declare_local-Fresh false ev em h = h
  declare_local-Fresh true ev em h = elim (Bool-cases (contains ev em.local_events)) [
    | inl known ↦ rw known h
    | inr new ↦ rw new (record {
      table = h.table;
      unsynced = put-Holds P em.tckout (event ev) h.unsynced (w.of_event ev);
    })
  ]

  declare_label-Fresh :
      (c : Bool) (s ev : Text) (em : Emission) → Fresh em → Fresh (declare_label c s ev em)
  unfolding declare_label
  declare_label-Fresh c s ev em h = elim (Bool-cases (contains ev em.events.labels)) [
    | inl known ↦ rw known h
    | inr new ↦ rw new (record {
      table = record {
        emitters = h.table.emitters;
        receivers = h.table.receivers;
        csp = h.table.csp;
      };
      unsynced = put-Holds P em.tckout (event ev) h.unsynced (w.of_event ev);
    })
  ]

  abbrev FreshEvent : Text × Emission → Type 0
  FreshEvent (ev, em) = Fresh em

  record_event-Fresh :
      (d : Sync) (s p : Text) (em : Emission)
      → Fresh em
      → Fresh (record em { events = record_event d s p em.events })
  record_event-Fresh d s p em h = record {
    table = record_event-IsTable d s p em.events h.table;
    unsynced = h.unsynced;
  }

  module _ (u : Utap) (g f : ℕ) (ctx : Prefix) where
    build_edge_label-Fresh :
        (m : Mapping) (e : Expr) (em : Emission)
        → Fresh em
        → Ensures FreshEvent (build_edge_label u m g f ctx e em)
    unfolding build_edge_label
    build_edge_label-Fresh m e em h =
        search (ensuring, declare_local-Fresh, declare_label-Fresh, record_event-Fresh) depth 10

    edge_event-Fresh :
        (m : Mapping) (e : Expr) (em : Emission)
        → Fresh em
        → Ensures FreshEvent (edge_event u m g f ctx e em)
    unfolding edge_event
    edge_event-Fresh m e em h =
        Ensures-if (is_empty e) _ _ (Ensures-ok (tau_event, em) h) (build_edge_label-Fresh m e em h)

    with_comment-Fresh :
        (m : Mapping) (ss : List Symbol) (em : Emission) → Fresh em → Fresh (with_comment u m ss em)
    with_comment-Fresh m [] em h = h
    with_comment-Fresh m (s ∷ ss) em h = record {
      table = h.table;
      unsynced = put-Holds P em.tckout (comment _) h.unsynced (w.of_declaration.of_comment _);
    }

    after_event :
        (m : Mapping) (e : Expr) (em : Emission) (r : Text × Emission)
        → Fresh em
        → edge_event u m g f ctx e em ≡ ok r
        → Fresh r.1
    after_event m e em r h q = Ensures-at (edge_event-Fresh m e em h) r q

    put_edge-Fresh :
        (em : Emission) (p s t e : Text) (a : Attributes)
        → Fresh em
        → Fresh (record em { tckout = put_edge em.tckout p s t e a })
    put_edge-Fresh em p s t e a h = record {
      table = h.table;
      unsynced = put_edge-Holds em.tckout p s t e a h.unsynced;
    }

    translate_edge-Fresh :
        (e : Edge) (m : Mapping) (em : Emission)
        → Fresh em
        → Ensures Fresh (translate_edge u g f ctx e m em)
    unfolding translate_edge
    translate_edge-Fresh e m em h =
        search (ensuring, with_comment-Fresh, after_event, put_edge-Fresh) depth 12

  module _ (u : Utap) (g f : ℕ) (ctx : Prefix) where
    translate_edge_with_select-Fresh :
        (e : Edge) (ss : List Symbol) (m : Mapping) (em : Emission)
        → Fresh em
        → Ensures Fresh (translate_edge_with_select u g f ctx e ss m em)
    unfolding translate_edge_with_select
    translate_edge_with_select-Fresh e [] m em h = translate_edge-Fresh u g f ctx e m em h
    translate_edge_with_select-Fresh e (s ∷ ss) m em h =
        Ensures-bind (enumeration u (some m) g s) _ (λ (low, n) q.
          each_value-Keeps Fresh _
            (λ i r b. translate_edge_with_select-Fresh e ss (assign_symbol s (constant i) m) r b)
            low 0 n em h)

    pub translate_edges-Fresh :
        (es : List Edge) (m : Mapping) (em : Emission)
        → Fresh em
        → Ensures Fresh (translate_edges u g f ctx es m em)
    unfolding translate_edges
    translate_edges-Fresh [] m em h = Ensures-ok em h
    translate_edges-Fresh (e ∷ es) m em h =
        Ensures-then (translate_edge_with_select u g f ctx e e.select m em) _
          (translate_edge_with_select-Fresh e e.select m em h)
          (λ r b. translate_edges-Fresh es m r b)
