-- ===== src/Edges.antt =====
-- Edges and the events on them (src/utot-translate.cc).
pub mod Entries
pub mod Tables
pub mod Recorded
pub mod Scope
pub mod Kept
pub mod Ends
pub mod Rounds
pub mod Selections
pub mod Chosen
use uppaal_to_tchecker.Base.{
  ℕ, zero, suc, Text, codes, same, Bool, true, false, not, ◌&&◌, ◌||◌, Option, none, some, List, [],
  ◌∷◌, ◌++◌, if◌then◌else◌,
}
use uppaal_to_tchecker.Base.Integers.{ℤ, pos, ◌+ℤ◌, ◌-ℤ◌, leb_ℤ, eqb_ℤ}
use uppaal_to_tchecker.Base.Maps.{Dict, TextSet, find, emplace, update, assign, contains, insert}
use uppaal_to_tchecker.Outcome.{Outcome, ok, thrown, fault, ◌>>=◌, ◌>>◌, require, assert}
use uppaal_to_tchecker.Utap.{
  Symbol, Sync, Expr, Ty, Kind, Utap, sync_que, sync_bang, sync_csp, constant, sync_on, base,
  prefix, range, array_type, is_empty, broadcast,
}
use uppaal_to_tchecker.Prefix.{Prefix, string_of}
use uppaal_to_tchecker.Tchecker.{
  Attributes, Outputter, comment, event, put, put_edge, tau_event, do_nop, edge_do, edge_provided,
}
use uppaal_to_tchecker.Expr.{Instance, Mapping, mapped, eval_integer_constant, int_max}
use uppaal_to_tchecker.Translate.{translate_expression, translate_assignment}
use uppaal_to_tchecker.Decl.{count_of}
use uppaal_to_tchecker.Model.{Edge, Process, assign_symbol}
use uppaal_to_tchecker.Sync.{GlobalEvents, emit_event, recv_event, csp_event}

-- What the translation of the edges of a process writes to.
pub record Emission : Type 0 where
  pub local_events : TextSet
  pub events : GlobalEvents
  pub tckout : Outputter

-- s_is_broadcast
unfoldable pub is_broadcast : Utap → Ty → Bool
is_broadcast u (base k) = u.is (base k) broadcast
is_broadcast u (prefix k t) =
    let inner = is_broadcast u t in
    if u.is_array (prefix k t) then inner else u.is (prefix k t) broadcast
is_broadcast u (range t a b) =
    let inner = is_broadcast u t in
    if u.is_array (range t a b) then inner else u.is (range t a b) broadcast
is_broadcast u (array_type t s) =
    let inner = is_broadcast u t in
    if u.is_array (array_type t s) then inner else u.is (array_type t s) broadcast

-- event.getSync ()
unfoldable pub get_sync : Expr → Outcome Sync
get_sync (sync_on s e) = ok s
get_sync _ = fault

-- The event of a direction.
abbrev pub directed : Sync → Text → Text
directed sync_bang s = emit_event s
directed sync_que s = recv_event s
directed sync_csp s = csp_event s

-- Enters a process under a channel: eventmap->emplace, find and insert.
unfoldable pub enter : Text → Text → Option TextSet → Dict TextSet → Dict TextSet
unfolding emplace update insert
enter s p none table = emplace s (insert p []) table
enter s p (some set) table = update s (insert p set) table

unfoldable pub add_process : Text → Text → Dict TextSet → Dict TextSet
unfolding enter find
add_process s p table = enter s p (find s table) table

-- The table of a direction.
unfoldable pub record_event : Sync → Text → Text → GlobalEvents → GlobalEvents
unfolding add_process
record_event sync_bang s p ev = record ev { emitters = add_process s p ev.emitters }
record_event sync_que s p ev = record ev { receivers = add_process s p ev.receivers }
record_event sync_csp s p ev = record ev { csp = add_process s p ev.csp }

-- A channel of the template: its event is declared once for a process.
unfoldable pub declare_local : Bool → Text → Emission → Emission
unfolding contains insert put
declare_local false ev em = em
declare_local true ev em =
    if contains ev em.local_events
    then em
    else record em { tckout = put em.tckout (event ev); local_events = insert ev em.local_events }

-- The event of the label, declared when it is met first, with the broadcast mark of its channel.
unfoldable pub declare_label : Bool → Text → Text → Emission → Emission
unfolding contains insert put
declare_label is_cast s ev em = if contains ev em.events.labels then em else record em {
  tckout = put em.tckout (event ev);
  events = record em.events {
    labels = insert ev em.events.labels;
    brodcasts = if is_cast then insert s em.events.brodcasts else em.events.brodcasts;
  };
}

-- s_build_edge_label
unfoldable pub build_edge_label :
    Utap → Mapping → ℕ → ℕ → Prefix → Expr → Emission → Outcome (Text × Emission)
unfolding translate_expression declare_local get_sync declare_label is_broadcast record_event
    string_of
build_edge_label u m g f ctx e em = do
  let local = u.has_parent (u.get_symbol e)
  s ← translate_expression u (some m) g (if local then ctx else []) f e
  let em1 = declare_local local s em
  sync ← get_sync e
  let ev = directed sync s
  let em2 = declare_label (is_broadcast u (u.symbol_type (u.get_symbol e))) s ev em1
  ok (ev, record em2 { events = record_event sync s (string_of ctx) em2.events })

-- ` name = value` for each selection
unfoldable pub selections : Utap → Mapping → List Symbol → Text
unfolding mapped
selections u m [] = []
selections u m (s ∷ ss) =
    codes " "
    ++ (u.symbol_name s
        ++ (codes " = "
            ++ ((elim (mapped s m) [ none ↦ [] | some e ↦ u.show e ]) ++ selections u m ss)))

abbrev pub with_comment : Utap → Mapping → List Symbol → Emission → Emission
with_comment u m [] em = em
with_comment u m (s ∷ ss) em = record em {
  tckout = put em.tckout (comment (codes "edge with selection:" ++ selections u m (s ∷ ss)));
}

-- The event of an edge: `tau` with no synchronisation.
unfoldable pub edge_event :
    Utap → Mapping → ℕ → ℕ → Prefix → Expr → Emission → Outcome (Text × Emission)
unfolding build_edge_label
edge_event u m g f ctx e em =
    if is_empty e then ok (tau_event, em) else build_edge_label u m g f ctx e em

-- The attributes of an edge; a guard `1` and an action `nop` are left out.
unfoldable pub edge_attributes : Text → Text → Attributes
unfolding assign
edge_attributes guard action =
    let attr : Attributes = if same guard (codes "1") then [] else assign edge_provided guard [] in
    if same action do_nop then attr else assign edge_do action attr

-- s_translate_edge
unfoldable pub translate_edge : Utap → ℕ → ℕ → Prefix → Edge → Mapping → Emission → Outcome Emission
unfolding edge_event translate_expression translate_assignment edge_attributes put_edge string_of
    selections put
translate_edge u g f ctx e m em = do
  let em1 = with_comment u m e.select em
  (ev, em2) ← edge_event u m g f ctx e.sync em1
  assert (same e.actname (codes "SKIP") || same e.actname [])
  guard ← translate_expression u (some m) g ctx f e.guard
  action ← translate_assignment u (some m) g ctx f e.assign
  ok (record em2 {
    tckout =
        put_edge em2.tckout (string_of ctx) (u.symbol_name e.src) (u.symbol_name e.dst) ev
          (edge_attributes guard action);
  })

-- `for (int i = low; i <= high; i++)`, n rounds from the k-th
unfoldable pub each_value {ℓ} : {S : Type ℓ} → (ℤ → S → Outcome S) → ℤ → ℕ → ℕ → S → Outcome S
unfolding ◌+ℤ◌
each_value body low k zero s = ok s
each_value body low k (suc n) s = do s' ← body (low +ℤ pos k) s; each_value body low (suc k) n s'

-- The bounds that an enumeration runs over: those of a range; the loop's counter must not overflow.
unfoldable pub enumeration : Utap → Instance → ℕ → Symbol → Outcome (ℤ × ℕ)
unfolding eval_integer_constant ◌+ℤ◌ ◌-ℤ◌
enumeration u p g s = do
  require (u.is_range (u.symbol_type s))
  low ← eval_integer_constant u p g (u.get_range (u.symbol_type s)).0
  high ← eval_integer_constant u p g (u.get_range (u.symbol_type s)).1
  assert (not (leb_ℤ low high && eqb_ℤ high int_max))
  ok (low, count_of (high -ℤ low +ℤ pos 1))

-- s_translate_edge_with_select, over the selections that are left
unfoldable pub translate_edge_with_select :
    Utap → ℕ → ℕ → Prefix → Edge → List Symbol → Mapping → Emission → Outcome Emission
unfolding translate_edge enumeration each_value assign_symbol
translate_edge_with_select u g f ctx e [] m em = translate_edge u g f ctx e m em
translate_edge_with_select u g f ctx e (s ∷ ss) m em = do
  (low, n) ← enumeration u (some m) g s
  each_value
      (λ i em'. translate_edge_with_select u g f ctx e ss (assign_symbol s (constant i) m) em') low
      0 n em

-- s_translate_edges
unfoldable pub translate_edges :
    Utap → ℕ → ℕ → Prefix → List Edge → Mapping → Emission → Outcome Emission
unfolding translate_edge_with_select
translate_edges u g f ctx [] m em = ok em
translate_edges u g f ctx (e ∷ es) m em = do
  em' ← translate_edge_with_select u g f ctx e e.select m em
  translate_edges u g f ctx es m em'
