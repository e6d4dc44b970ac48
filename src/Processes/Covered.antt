-- ===== src/Processes/Covered.antt =====
-- The vectors that hold the labels of the edges of a model (src/utot-translate.cc,
-- doc/translation.md).
use mathlib.Core.Path.{subst}
use uppaal_to_tchecker.Base.{
  ℕ, Text, Bool, true, false, Option, none, some, [], ◌≡◌, ◌⊎◌, inl, inr, refl, sym, ap, ◌∙◌, In,
  if◌then◌else◌,
}
use uppaal_to_tchecker.Base.Maps.{TextSet, find, contains}
use uppaal_to_tchecker.Outcome.{ok, Ensures-at, bind-ok, ok-injective}
use uppaal_to_tchecker.Utap.{Sync, Expr, Utap, sync_on, sync_bang, sync_que}
use uppaal_to_tchecker.Prefix.{Prefix, string_of}
use uppaal_to_tchecker.Tchecker.{Vector, Outputter}
use uppaal_to_tchecker.Expr.{Mapping}
use uppaal_to_tchecker.Translate.{translate_expression}
use uppaal_to_tchecker.Decl.Lines.{Holds}
use uppaal_to_tchecker.Model.{System}
use uppaal_to_tchecker.Sync.{generate_sync_vectors, emit_event, recv_event}
use uppaal_to_tchecker.Sync.Lines.{vectors}
use uppaal_to_tchecker.Sync.Written.{NoStuck, SelfReceiver}
use uppaal_to_tchecker.Sync.Covered.{Held, emission_covered, reception_covered}
use uppaal_to_tchecker.Edges.Recorded.{entered, table}
use uppaal_to_tchecker.Processes.{Progress, translate_parts, translate_model}
use uppaal_to_tchecker.Processes.Tables.{Clean, translate_parts-Clean}
use uppaal_to_tchecker.Processes.Written.{NoVector, NoVector-Writes, vectors-NoVector}
use uppaal_to_tchecker.Processes.Recorded.{Occurrence, translate_parts-Entered}

-- A vector of the output in which the process takes part with the event.
abbrev pub TakesPart : Outputter → Text → Text → Type 0
TakesPart o p event =
    (v : Vector) × (weak : Bool) × In v (vectors o.out) × (find p v ≡ some (event, weak))

-- The name of the channel of a label, as it is written.
abbrev pub IsChannel : Utap → ℕ → ℕ → Prefix → Mapping → Sync → Expr → Text → Type 0
IsChannel u g f ctx m d x c =
    translate_expression u (some m) g
      (if u.has_parent (u.get_symbol (sync_on d x)) then ctx else []) f (sync_on d x)
    ≡ ok c

entered_set :
    (p : Text) (o : Option TextSet)
    → entered p o ≡ true
    → (set : TextSet) × (o ≡ some set) × (contains p set ≡ true)
entered_set p none h = cc
entered_set p (some set) h = (set, refl, h)

module _ (u : Utap) (g f : ℕ) (name : Text) (s : System) (o o' : Outputter) (st : Progress)
    (clean : Holds NoVector o) (parts : translate_parts u g f name s o ≡ ok st)
    (no_stuck : NoStuck st.events) (done : translate_model u g f name s o ≡ ok o') where
  output : generate_sync_vectors st.tckout st.events ≡ o'
  unfolding translate_model
  output =
      let (st', parts', last) = bind-ok (translate_parts u g f name s o) _ o' done in
      ap (λ (r : Progress). generate_sync_vectors r.tckout r.events)
        (sym (ok-injective st' st (sym parts' ∙ parts)))
      ∙ ok-injective _ o' last

  TakesPart-Held :
      (p event : Text) (weak : Bool) → Held st.tckout st.events p event weak → TakesPart o' p event
  TakesPart-Held p event weak h = (h.by, weak, rw (← output) h.is_written, h.takes_part)

  tables : Clean NoVector NoVector-Writes st
  tables = Ensures-at (translate_parts-Clean NoVector NoVector-Writes u g f name s o clean) st parts

  -- The process of a label stands under its channel in the table of its direction.
  among :
      (e : Occurrence u g s) (d : Sync) (x : Expr) (c : Text)
      → e.edge.sync ≡ sync_on d x
      → IsChannel u g f e.ctx e.chosen d x c
      → (set : TextSet) × (find c (table d st.events) ≡ some set)
        × (contains (string_of e.ctx) set ≡ true)
  among e d x c is_label is_channel =
      let (c', is_channel', r) =
        Ensures-at (translate_parts-Entered u g f s e d x is_label name o) st parts in
      let same_channel = ok-injective c' c (sym is_channel' ∙ is_channel) in
      entered_set (string_of e.ctx) (find c (table d st.events))
        (subst (λ k. entered (string_of e.ctx) (find k (table d st.events)) ≡ true) same_channel r)

  -- A translation that succeeds, of a model with no process called Stuck, from a writer with no
  -- vectors: for each edge that emits on a channel that is no broadcast, in each instance and for each
  -- choice of its selections, some vector of the output has the instance take part with the emission.
  pub translate_model-emits :
      (e : Occurrence u g s) (x : Expr) (c : Text)
      → e.edge.sync ≡ sync_on sync_bang x
      → IsChannel u g f e.ctx e.chosen sync_bang x c
      → contains c st.events.brodcasts ≡ false
      → TakesPart o' (string_of e.ctx) (emit_event c)
  translate_model-emits e x c is_label is_channel no_cast =
      let (set, there, c_in) = among e sync_bang x c is_label is_channel in
      TakesPart-Held (string_of e.ctx) (emit_event c) false (
        emission_covered st.tckout st.events c (string_of e.ctx) set tables.table
          (vectors-NoVector st.tckout.out tables.unsynced) no_stuck there c_in no_cast)

  -- A translation that succeeds, of a model with no process called Stuck, from a writer with no
  -- vectors: for each edge that receives, in each instance and for each choice of its selections, some
  -- vector of the output has the instance take part with the reception, unless the instance is the only
  -- emitter of the channel and another one receives on it too.
  pub translate_model-receives :
      (e : Occurrence u g s) (x : Expr) (c : Text)
      → e.edge.sync ≡ sync_on sync_que x
      → IsChannel u g f e.ctx e.chosen sync_que x c
      → TakesPart o' (string_of e.ctx) (recv_event c) ⊎ SelfReceiver st.events c (string_of e.ctx)
  translate_model-receives e x c is_label is_channel =
      let (set, there, c_in) = among e sync_que x c is_label is_channel in
      elim (reception_covered st.tckout st.events c (string_of e.ctx) set tables.table
        (vectors-NoVector st.tckout.out tables.unsynced) no_stuck there c_in) [
          | inl (weak, h) ↦ inl (TakesPart-Held (string_of e.ctx) (recv_event c) weak h)
          | inr self ↦ inr self
        ]
