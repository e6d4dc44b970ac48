-- ===== src/Edges/Chosen.antt =====
-- The labels of edges with selections (src/utot-translate.cc).
use uppaal_to_tchecker.Base.{ℕ, List, [], ◌∷◌, ◌≡◌, sym, ◌∙◌, In, inl, inr}
use uppaal_to_tchecker.Outcome.{ok, Ensures-at, bind-ok}
use uppaal_to_tchecker.Outcome.Passes.{Kept, run_all-visits}
use uppaal_to_tchecker.Utap.{Sync, Expr, Utap, sync_on}
use uppaal_to_tchecker.Prefix.{Prefix}
use uppaal_to_tchecker.Expr.{Mapping}
use uppaal_to_tchecker.Model.{Edge}
use uppaal_to_tchecker.Edges.{Emission, translate_edge, translate_edge_with_select, translate_edges}
use uppaal_to_tchecker.Edges.Recorded.{Keeps, Labelled}
use uppaal_to_tchecker.Edges.Kept.{
  Keeps-trans, translate_edge-Keeps, translate_edges-Keeps, translate_edge-Labelled, Labelled-Keeps,
}
use uppaal_to_tchecker.Edges.Selections.{choices, translate_edge_with_select-run_all}

module _ (u : Utap) (g f : ℕ) (ctx : Prefix) where
  translate_edge-Kept : (e : Edge) → Kept (translate_edge u g f ctx e) Keeps
  translate_edge-Kept e = record {
    at_start = λ em d k q h. h;
    in_turn = Keeps-trans;
    by_step = translate_edge-Keeps u g f ctx e;
  }

  with_select-Labelled :
      (e : Edge) (m m' : Mapping) (ms : List Mapping) (em em' : Emission) (d : Sync) (x : Expr)
      → choices u g e.select m ≡ ok ms
      → In m' ms
      → e.sync ≡ sync_on d x
      → translate_edge_with_select u g f ctx e e.select m em ≡ ok em'
      → Labelled u m' g f ctx (sync_on d x) d em'
  with_select-Labelled e m m' ms em em' d x chosen i is_label q =
      let pass = sym (translate_edge_with_select-run_all u g f ctx e e.select m ms chosen em) ∙ q in
      let (em1, em2, here, keeps) =
        run_all-visits (translate_edge u g f ctx e) Keeps (translate_edge-Kept e) ms em em' m' i
          pass in
      Labelled-Keeps u g f ctx m' (sync_on d x) d em2 em'
        (Ensures-at (translate_edge-Labelled u g f ctx e m' em1 d x is_label) em2 here) keeps

  -- When the edges of a process are translated, the label of each edge is recorded for each choice of
  -- values of its selections, if those can be enumerated: the process stands under the channel's name
  -- in the table of the label's direction.
  pub translate_edges-Labelled :
      (es : List Edge) (e : Edge) (m m' : Mapping) (ms : List Mapping) (em em' : Emission)
      (d : Sync) (x : Expr)
      → In e es
      → choices u g e.select m ≡ ok ms
      → In m' ms
      → e.sync ≡ sync_on d x
      → translate_edges u g f ctx es m em ≡ ok em'
      → Labelled u m' g f ctx (sync_on d x) d em'
  unfolding translate_edges
  translate_edges-Labelled [] e m m' ms em em' d x i c j is_label q = absurd i
  translate_edges-Labelled (b ∷ es) e m m' ms em em' d x (inl here) c j is_label q =
      let (em1, first, rest) =
        bind-ok (translate_edge_with_select u g f ctx b b.select m em) _ em' q in
      Labelled-Keeps u g f ctx m' (sync_on d x) d em1 em'
        (with_select-Labelled e m m' ms em em1 d x c j is_label (rw (← here) at first))
        (Ensures-at (translate_edges-Keeps u g f ctx es m em1) em' rest)
  translate_edges-Labelled (b ∷ es) e m m' ms em em' d x (inr later) c j is_label q =
      let (em1, first, rest) =
        bind-ok (translate_edge_with_select u g f ctx b b.select m em) _ em' q in
      translate_edges-Labelled es e m m' ms em1 em' d x later c j is_label rest
