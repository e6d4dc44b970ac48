-- ===== src/Edges/Scope.antt =====
-- The events of the edges are declared before the edges (src/utot-translate.cc).
use mathlib.Core.Path.{subst, sym}
use uppaal_to_tchecker.Base.{
  ℕ, Text, codes, same, same_iff, same_refl, Bool, true, false, not, ◌&&◌, ◌||◌, if◌then◌else◌,
  some, List, [], ◌∷◌, ◌++◌, ◌≡◌, ◌⊎◌, refl, ap, ◌∙◌, In, In-append_left, In-append_right,
  Bool-cases, inl, inr, arith,
}
use uppaal_to_tchecker.Base.Maps.{TextSet, contains, contains-place_text}
use uppaal_to_tchecker.Outcome.{assert, Ensures, Ensures-ok, Ensures-bind, Ensures-if, Ensures-then}
use uppaal_to_tchecker.Utap.{
  Symbol, Expr, Utap, Sync, constant, is_empty, sync_bang, sync_que, sync_csp,
}
use uppaal_to_tchecker.Prefix.{Prefix, string_of}
use uppaal_to_tchecker.Tchecker.{
  Attributes, Line, Outputter, comment, event, process, edge, put, put_edge, tau_event,
}
use uppaal_to_tchecker.Tchecker.Scope.{
  IsScoped-append, IsSound, put-IsSound, put-comment-IsSound, put-In,
}
use uppaal_to_tchecker.Expr.{Mapping}
use uppaal_to_tchecker.Translate.{translate_expression, translate_assignment}
use uppaal_to_tchecker.Model.{Edge, assign_symbol}
use uppaal_to_tchecker.Sync.{GlobalEvents}
use uppaal_to_tchecker.Edges.{
  Emission, enumeration, record_event, declare_local, declare_label, build_edge_label, with_comment,
  edge_event, translate_edge, translate_edge_with_select, translate_edges, get_sync, directed,
  is_broadcast,
}
use uppaal_to_tchecker.Edges.Recorded.{recorded, same_sync, recorded-record}
use uppaal_to_tchecker.Edges.Entries.{each_value-Keeps}

module _ (base : List Line) where
  abbrev pub Sound : Emission → Type 0
  Sound em = IsSound base em.events em.tckout

  declare_local-Sound :
      (l : Bool) (ev : Text) (em : Emission) → Sound em → Sound (declare_local l ev em)
  unfolding declare_local
  declare_local-Sound false ev em h = h
  declare_local-Sound true ev em h = elim (Bool-cases (contains ev em.local_events)) [
    | inl known ↦ rw known h
    | inr new ↦ rw new (put-IsSound base em.events em.tckout h (event ev) tt)
  ]

  unlabelled :
      (d : Sync) (s p : Text) (ev : GlobalEvents) (labels brodcasts : TextSet)
      → recorded d s p (record ev { labels = labels; brodcasts = brodcasts }) ≡ true
      → recorded d s p ev ≡ true
  unlabelled sync_bang s p ev l b c = c
  unlabelled sync_que s p ev l b c = c
  unlabelled sync_csp s p ev l b c = c

  -- The event is declared, by this label or by an earlier one.
  declare_label-Sound :
      (c : Bool) (s ev : Text) (em : Emission)
      → Sound em
      → Sound (declare_label c s ev em) × In (event ev) (declare_label c s ev em).tckout.out
  unfolding declare_label
  declare_label-Sound c s ev em h = elim (Bool-cases (contains ev em.events.labels)) [
    | inl known ↦ rw known (h, h.labelled ev known)
    | inr new ↦
        let k = put-IsSound base em.events em.tckout h (event ev) tt in
        rw new (
          record {
            scoped = k.scoped;
            kept = k.kept;
            labelled = λ t i. elim (Bool-cases (same ev t)) [
              | inl here ↦
                  subst (λ t. In (event t) (put em.tckout (event ev)).out) ((same_iff ev t).0 here)
                    (put-In em.tckout (event ev))
              | inr there ↦
                  k.labelled t (let q = contains-place_text ev t em.events.labels in ground arith)
            ];
            entered = λ d r p c. k.entered d r p (unlabelled d r p em.events _ _ c);
            tau = k.tau;
          },
          put-In em.tckout (event ev),
        )
  ]

  record_event-labels :
      (d : Sync) (s p : Text) (ev : GlobalEvents) → (record_event d s p ev).labels ≡ ev.labels
  unfolding record_event
  record_event-labels sync_bang s p ev = refl
  record_event-labels sync_que s p ev = refl
  record_event-labels sync_csp s p ev = refl

  directed_same : (d e : Sync) (s : Text) → same_sync d e ≡ true → directed d s ≡ directed e s
  directed_same sync_bang sync_bang s q = refl
  directed_same sync_que sync_que s q = refl
  directed_same sync_csp sync_csp s q = refl
  directed_same sync_bang sync_que s q = cc
  directed_same sync_bang sync_csp s q = cc
  directed_same sync_que sync_bang s q = cc
  directed_same sync_que sync_csp s q = cc
  directed_same sync_csp sync_bang s q = cc
  directed_same sync_csp sync_que s q = cc

  record_event-Sound :
      (d : Sync) (s p : Text) (em : Emission)
      → Sound em
      → In (process p) em.tckout.out
      → In (event (directed d s)) em.tckout.out
      → Sound (record em { events = record_event d s p em.events })
  record_event-Sound d s p em h i j = record {
    scoped = h.scoped;
    kept = h.kept;
    labelled = λ t c. h.labelled t (rw (record_event-labels d s p em.events) at c);
    entered = λ e k q c. elim (Bool-cases (same_sync d e && (same s k && same p q))) [
      | inl new ↦
          let here : same_sync d e ≡ true = ground arith in
          let same_label : s ≡ k = (same_iff s k).0 (ground arith) in
          let same_process : p ≡ q = (same_iff p q).0 (ground arith) in
          (
            subst (λ x. In (process x) em.tckout.out) same_process i,
            subst (λ x. In (event x) em.tckout.out)
                (directed_same d e s here ∙ ap (directed e) same_label) j,
          )
      | inr old ↦ h.entered e k q (rw (recorded-record d e s p k q em.events, old) at c)
    ];
    tau = h.tau;
  }

  -- The event of an edge is `tau`, or declared.
  abbrev Declared : Text × Emission → Type 0
  Declared (ev, em) = Sound em × ((ev ≡ tau_event) ⊎ In (event ev) em.tckout.out)

  module _ (u : Utap) (g f : ℕ) (ctx : Prefix) (here : In (process (string_of ctx)) base) where
    build_edge_label-Declared :
        (m : Mapping) (e : Expr) (em : Emission)
        → Sound em
        → Ensures Declared (build_edge_label u m g f ctx e em)
    unfolding build_edge_label
    build_edge_label-Declared m e em h =
        let local = u.has_parent (u.get_symbol e) in
        Ensures-bind (translate_expression u (some m) g (if local then ctx else []) f e) _ λ s q.
          Ensures-bind (get_sync e) _ λ d q'.
            let cast = is_broadcast u (u.symbol_type (u.get_symbol e)) in
            let em1 = declare_local local s em in
            let (k, i) =
              declare_label-Sound cast s (directed d s) em1 (declare_local-Sound local s em h) in
            Ensures-ok _ (
              record_event-Sound d s (string_of ctx) (declare_label cast s (directed d s) em1) k
                  (k.kept (process (string_of ctx)) here) i,
              inr i,
            )

    edge_event-Declared :
        (m : Mapping) (e : Expr) (em : Emission)
        → Sound em
        → Ensures Declared (edge_event u m g f ctx e em)
    unfolding edge_event
    edge_event-Declared m e em h =
        Ensures-if (is_empty e) _ _ (Ensures-ok (tau_event, em) (h, inl refl))
          (build_edge_label-Declared m e em h)

    with_comment-Sound :
        (m : Mapping) (ss : List Symbol) (em : Emission) → Sound em → Sound (with_comment u m ss em)
    with_comment-Sound m [] em h = h
    with_comment-Sound m (s ∷ ss) em h = put-comment-IsSound base em.events em.tckout h _

-- An edge of a declared process whose event is `tau` or declared.
put_edge-IsSound :
    (base : List Line) (ev : GlobalEvents) (o : Outputter) (p s t e : Text) (a : Attributes)
    → IsSound base ev o
    → In (process p) base
    → (e ≡ tau_event) ⊎ In (event e) o.out
    → IsSound base ev (put_edge o p s t e a)
unfolding put_edge
put_edge-IsSound base ev o p s t e a h i d =
    elim (Bool-cases (same e tau_event && not o.tau_generated)) [
      | inl first ↦
          let is_tau : same e tau_event ≡ true = ground arith in
          rw first (
            put-IsSound base ev declared sound (edge p s t e a) (
              sound.kept (process p) i,
              subst (λ t. In (event t) declared.out) (sym ((same_iff e tau_event).0 is_tau)) last,
            ))
      | inr later ↦
          rw later (put-IsSound base ev o h (edge p s t e a) (h.kept (process p) i, known later))
    ]
  where
    note : Line
    note = comment (codes "global event for Uppaal unlabelled edges")

    declared : Outputter
    declared = record { out = o.out ++ note ∷ event tau_event ∷ []; tau_generated = true }

    more : (l : Line) → In l o.out → In l declared.out
    more l k = In-append_left l o.out (note ∷ event tau_event ∷ []) k

    last : In (event tau_event) declared.out
    last = In-append_right (event tau_event) o.out (note ∷ event tau_event ∷ []) (inr (inl refl))

    sound : IsSound base ev declared
    sound = record {
      scoped = IsScoped-append [] o.out (note ∷ event tau_event ∷ []) h.scoped (tt, (tt, tt));
      kept = λ l k. more l (h.kept l k);
      labelled = λ t c. more (event t) (h.labelled t c);
      entered = λ d s p c.
          let (k, j) = h.entered d s p c in (more (process p) k, more (event (directed d s)) j);
      tau = λ q. last;
    }

    known : (same e tau_event && not o.tau_generated) ≡ false → In (event e) o.out
    known later = elim d [
      | inr k ↦ k
      | inl q ↦
          let generated : o.tau_generated ≡ true = ground (arith, q, same_refl tau_event) in
          subst (λ t. In (event t) o.out) (sym q) (h.tau generated)
    ]

module _ (base : List Line) (u : Utap) (g f : ℕ) (ctx : Prefix)
    (i : In (process (string_of ctx)) base) where
  translate_edge-Sound :
      (e : Edge) (m : Mapping) (em : Emission)
      → Sound base em
      → Ensures (Sound base) (translate_edge u g f ctx e m em)
  unfolding translate_edge
  translate_edge-Sound e m em h =
      let noted = with_comment-Sound base u g f ctx i m e.select em h in
      Ensures-then (edge_event u m g f ctx e.sync (with_comment u m e.select em)) _
        (edge_event-Declared base u g f ctx i m e.sync (with_comment u m e.select em) noted)
        λ (ev, em2) (k, d).
          Ensures-bind (assert (same e.actname (codes "SKIP") || same e.actname [])) _ λ _ _.
            Ensures-bind (translate_expression u (some m) g ctx f e.guard) _ λ guard _.
              Ensures-bind (translate_assignment u (some m) g ctx f e.assign) _ λ action _.
                Ensures-ok _ (put_edge-IsSound base em2.events em2.tckout _ _ _ _ _ k i d)

  translate_edge_with_select-Sound :
      (e : Edge) (ss : List Symbol) (m : Mapping) (em : Emission)
      → Sound base em
      → Ensures (Sound base) (translate_edge_with_select u g f ctx e ss m em)
  unfolding translate_edge_with_select
  translate_edge_with_select-Sound e [] m em h = translate_edge-Sound e m em h
  translate_edge_with_select-Sound e (s ∷ ss) m em h =
      Ensures-bind (enumeration u (some m) g s) _ λ (low, n) q.
        each_value-Keeps (Sound base) _
          (λ i r b. translate_edge_with_select-Sound e ss (assign_symbol s (constant i) m) r b) low
          0 n em h

  pub translate_edges-Sound :
      (es : List Edge) (m : Mapping) (em : Emission)
      → Sound base em
      → Ensures (Sound base) (translate_edges u g f ctx es m em)
  unfolding translate_edges
  translate_edges-Sound [] m em h = Ensures-ok em h
  translate_edges-Sound (e ∷ es) m em h =
      Ensures-then (translate_edge_with_select u g f ctx e e.select m em) _
        (translate_edge_with_select-Sound e e.select m em h) λ r b. translate_edges-Sound es m r b
