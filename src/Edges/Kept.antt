-- ===== src/Edges/Kept.antt =====
-- The tables of events while the edges of a process are translated (src/utot-translate.cc).
use uppaal_to_tchecker.Base.{ℕ, Text, some, inl, inr, List, [], ◌∷◌, ◌≡◌, refl, ap, ◌∙◌, In}
use uppaal_to_tchecker.Outcome.{
  ok, Ensures, ensures, Ensures-at, Ensures-ok, Ensures-bind, Ensures-then, Ensures-if, ensuring,
}
use uppaal_to_tchecker.Utap.{Symbol, Sync, Expr, Utap, constant, sync_on, is_empty}
use uppaal_to_tchecker.Prefix.{Prefix, string_of}
use uppaal_to_tchecker.Tchecker.{Outputter, tau_event}
use uppaal_to_tchecker.Expr.{Mapping}
use uppaal_to_tchecker.Model.{Edge, assign_symbol}
use uppaal_to_tchecker.Edges.{
  Emission, get_sync, enumeration, build_edge_label, with_comment, edge_event, translate_edge,
  translate_edge_with_select, translate_edges,
}
use uppaal_to_tchecker.Edges.Entries.{each_value-Keeps}
use uppaal_to_tchecker.Edges.Recorded.{recorded, Keeps, Labelled, build_edge_label-Label}

pub Keeps-trans : (a b c : Emission) → Keeps a b → Keeps b c → Keeps a c
Keeps-trans a b c h k e i q r = k e i q (h e i q r)

module _ (u : Utap) (g f : ℕ) (ctx : Prefix) where
  abbrev After : Emission → Text × Emission → Type 0
  After em (ev, em') = Keeps em em'

  build_edge_label-Keeps :
      (m : Mapping) (e : Expr) (em : Emission)
      → Ensures (After em) (build_edge_label u m g f ctx e em)
  unfolding build_edge_label get_sync
  build_edge_label-Keeps m (sync_on d x) em =
      ensures
        (λ (ev, em') q. (Ensures-at (build_edge_label-Label u g f ctx m d x em) (ev, em') q).0)
  build_edge_label-Keeps m e em = search ensuring depth 8

  edge_event-Keeps :
      (m : Mapping) (e : Expr) (em : Emission) → Ensures (After em) (edge_event u m g f ctx e em)
  unfolding edge_event
  edge_event-Keeps m e em =
      Ensures-if (is_empty e) _ _ (Ensures-ok (tau_event, em) (λ d k q h. h))
        (build_edge_label-Keeps m e em)

  with_comment-events :
      (m : Mapping) (ss : List Symbol) (em : Emission) → (with_comment u m ss em).events ≡ em.events
  with_comment-events m [] em = refl
  with_comment-events m (s ∷ ss) em = refl

  commented-Keeps :
      (m : Mapping) (ss : List Symbol) (em em' : Emission)
      → Keeps (with_comment u m ss em) em'
      → Keeps em em'
  commented-Keeps m ss em em' h e k q r =
      h e k q (ap (λ ev. recorded e k q ev) (with_comment-events m ss em) ∙ r)

  after_event :
      (m : Mapping) (ss : List Symbol) (e : Expr) (em : Emission) (r : Text × Emission)
      → edge_event u m g f ctx e (with_comment u m ss em) ≡ ok r
      → Keeps em r.1
  after_event m ss e em r q =
      commented-Keeps m ss em r.1 (Ensures-at (edge_event-Keeps m e (with_comment u m ss em)) r q)

  written :
      (em em' : Emission) (o : Outputter) → Keeps em em' → Keeps em (record em' { tckout = o })
  written em em' o h e k q r = h e k q r

  pub translate_edge-Keeps :
      (e : Edge) (m : Mapping) (em : Emission)
      → Ensures (Keeps em) (translate_edge u g f ctx e m em)
  unfolding translate_edge
  translate_edge-Keeps e m em = search (ensuring, after_event, written) depth 10

  translate_edge_with_select-Keeps :
      (e : Edge) (ss : List Symbol) (m : Mapping) (em : Emission)
      → Ensures (Keeps em) (translate_edge_with_select u g f ctx e ss m em)
  unfolding translate_edge_with_select
  translate_edge_with_select-Keeps e [] m em = translate_edge-Keeps e m em
  translate_edge_with_select-Keeps e (s ∷ ss) m em =
      Ensures-bind (enumeration u (some m) g s) _ (λ (low, n) q.
        each_value-Keeps (Keeps em) _
          (λ i r b. ensures (λ r' q'. Keeps-trans em r r' b (
            Ensures-at (translate_edge_with_select-Keeps e ss (assign_symbol s (constant i) m) r) r'
              q')))
          low 0 n em (λ d k q h. h))

  pub translate_edges-Keeps :
      (es : List Edge) (m : Mapping) (em : Emission)
      → Ensures (Keeps em) (translate_edges u g f ctx es m em)
  unfolding translate_edges
  translate_edges-Keeps [] m em = Ensures-ok em (λ d k q h. h)
  translate_edges-Keeps (e ∷ es) m em =
      Ensures-then (translate_edge_with_select u g f ctx e e.select m em) _
        (translate_edge_with_select-Keeps e e.select m em)
        (λ r b.
          ensures (λ r' q. Keeps-trans em r r' b (Ensures-at (translate_edges-Keeps es m r) r' q)))

  -- An edge with a label and no selection records its process.
  pub translate_edge-Labelled :
      (e : Edge) (m : Mapping) (em : Emission) (d : Sync) (x : Expr)
      → e.sync ≡ sync_on d x
      → Ensures (Labelled u m g f ctx (sync_on d x) d) (translate_edge u g f ctx e m em)
  unfolding translate_edge edge_event
  translate_edge-Labelled e m em d x is_label = rw is_label (
      let done =
        λ (r : Text × Emission)
            (q : build_edge_label u m g f ctx (sync_on d x) (with_comment u m e.select em) ≡ ok r).
          (Ensures-at (build_edge_label-Label u g f ctx m d x (with_comment u m e.select em)) r
            q).1 in
      search (ensuring, done) depth 10)

  with_select-Labelled :
      (e : Edge) (ss : List Symbol) (m : Mapping) (em : Emission) (d : Sync) (x : Expr)
      → ss ≡ []
      → e.sync ≡ sync_on d x
      → Ensures
          (Labelled u m g f ctx (sync_on d x) d)
          (translate_edge_with_select u g f ctx e ss m em)
  unfolding translate_edge_with_select
  with_select-Labelled e [] m em d x plain is_label = translate_edge-Labelled e m em d x is_label
  with_select-Labelled e (s ∷ ss) m em d x plain is_label = cc

  pub Labelled-Keeps :
      (m : Mapping) (x : Expr) (d : Sync) (em em' : Emission)
      → Labelled u m g f ctx x d em
      → Keeps em em'
      → Labelled u m g f ctx x d em'
  Labelled-Keeps m x d em em' (s, q, h) k = (s, q, k d s (string_of ctx) h)

  translate_edges-Labelled :
      (es : List Edge) (m : Mapping) (em : Emission) (e : Edge) (d : Sync) (x : Expr)
      → In e es
      → e.select ≡ []
      → e.sync ≡ sync_on d x
      → Ensures (Labelled u m g f ctx (sync_on d x) d) (translate_edges u g f ctx es m em)
  unfolding translate_edges
  translate_edges-Labelled [] m em e d x i plain is_label = absurd i
  translate_edges-Labelled (b ∷ es) m em e d x (inl here) plain is_label = rw (← here) (
      Ensures-then (translate_edge_with_select u g f ctx e e.select m em) _
        (with_select-Labelled e e.select m em d x plain is_label)
        (λ r l. ensures (λ r' q.
          Labelled-Keeps m (sync_on d x) d r r' l
            (Ensures-at (translate_edges-Keeps es m r) r' q))))
  translate_edges-Labelled (b ∷ es) m em e d x (inr later) plain is_label =
      Ensures-bind (translate_edge_with_select u g f ctx b b.select m em) _
        (λ r _. translate_edges-Labelled es m r e d x later plain is_label)

-- When the edges of a process are translated, the label of each edge with no selection is recorded: its
-- process stands under the channel's name in the table of the label's direction, whatever edges follow.
pub translate_edges-recorded :
    (u : Utap) (g f : ℕ) (ctx : Prefix) (es : List Edge) (m : Mapping) (em em' : Emission)
    (e : Edge) (d : Sync) (x : Expr)
    → In e es
    → e.select ≡ []
    → e.sync ≡ sync_on d x
    → translate_edges u g f ctx es m em ≡ ok em'
    → Labelled u m g f ctx (sync_on d x) d em'
translate_edges-recorded u g f ctx es m em em' e d x i plain is_label q =
    Ensures-at (translate_edges-Labelled u g f ctx es m em e d x i plain is_label) em' q
