-- ===== src/Examples/Sync.antt =====
-- Tables of events of small models and the vectors they give (src/utot-translate.cc).
use uppaal_to_tchecker.Base.{
  ◌≤◌, Text, codes, same, same_iff, true, false, none, some, [], ◌∷◌, ◌&&◌, ◌||◌, ◌⊎◌,
  if◌then◌else◌, length, ◌≡◌, ◌↔◌, refl, arith, In, inl,
}
use uppaal_to_tchecker.Base.Maps.{find, has, contains}
use uppaal_to_tchecker.Tchecker.{Outputter, Vector, sync}
use uppaal_to_tchecker.Tchecker.Render.{render}
use uppaal_to_tchecker.Tchecker.Reading.{IsWritable, read_vector, read_vector-render}
use uppaal_to_tchecker.Sync.{GlobalEvents, recv_event, emit_event, generate_sync_vectors}
use uppaal_to_tchecker.Sync.Plan.{Request, vector_of, pair_vector, broadcast_vector, plan}
use uppaal_to_tchecker.Sync.Lines.{lines, generate_sync_vectors-lines, vectors}
use uppaal_to_tchecker.Sync.Meaning.{IsTable, Expected}
use uppaal_to_tchecker.Sync.Written.{
  written_iff, NoStuck, written_two, SelfReceiver, NeverReceives, SelfReceiver-forgotten,
}
use uppaal_to_tchecker.Sync.Covered.{Held, Received, emission_covered, reception_covered}
use uppaal_to_tchecker.Utap.{sync_bang}
use uppaal_to_tchecker.Edges.{record_event}
use uppaal_to_tchecker.Edges.Recorded.{recorded, same_sync, recorded-record_event}
use uppaal_to_tchecker.Processes.{no_events}
use uppaal_to_tchecker.Sync.Shapes.{find-broadcast_vector}

abbrev p : Text
p = codes "P"

abbrev q : Text
q = codes "Q"

abbrev a : Text
a = codes "a"

abbrev fresh : Outputter
fresh = record { out = []; tau_generated = false }

-- P emits on `a`; P and Q receive on it.
abbrev self_events : GlobalEvents
self_events = record {
  emitters = (a, p ∷ []) ∷ [];
  receivers = (a, p ∷ q ∷ []) ∷ [];
  csp = [];
  allowed_csp = [];
  labels = [];
  brodcasts = [];
}

self_table : IsTable self_events
unfolding has
self_table = record { emitters = (refl, tt); receivers = (refl, tt); csp = tt }

self_vectors : vectors (generate_sync_vectors fresh self_events).out ≡ pair_vector a p q ∷ []
unfolding generate_sync_vectors same
self_vectors = refl

written_iff_example :
    In (pair_vector a p q) (vectors (generate_sync_vectors fresh self_events).out)
    ↔ ((r : Request) × Expected self_events r × (pair_vector a p q ≡ vector_of r))
written_iff_example = written_iff fresh self_events (pair_vector a p q) self_table refl

generate_sync_vectors-lines_example :
    (generate_sync_vectors fresh self_events).out ≡ lines true (plan self_events)
generate_sync_vectors-lines_example =
    generate_sync_vectors-lines fresh self_events self_table.emitters

self_stuck : NoStuck self_events
unfolding find contains same
self_stuck = record {
  emitters = λ s ps h. ground arith;
  receivers = λ s ps h. ground arith;
  csp = λ s ps h. ground arith;
}

self_written : In (pair_vector a p q) (vectors (generate_sync_vectors fresh self_events).out)
self_written = rw self_vectors (inl refl)

written_two_example : 2 ≤ length (pair_vector a p q)
written_two_example =
    written_two fresh self_events (pair_vector a p q) self_table refl self_stuck self_written

self_receiver : SelfReceiver self_events a p
unfolding find contains same
self_receiver = record {
  emitters_of = p ∷ [];
  receivers_of = p ∷ q ∷ [];
  other = q;
  emits = refl;
  only = λ r h. ground (arith, same_iff p r);
  p_emits = refl;
  receives = refl;
  other_receives = refl;
  differs = λ e. ground (arith, e);
}

SelfReceiver-forgotten_example : NeverReceives p a (pair_vector a p q)
SelfReceiver-forgotten_example =
    SelfReceiver-forgotten fresh self_events a p (pair_vector a p q) self_table refl self_stuck refl
      self_receiver self_written

emission_covered_example : Held fresh self_events p (emit_event a) false
unfolding find contains same
emission_covered_example =
    emission_covered fresh self_events a p (p ∷ []) self_table refl self_stuck refl refl refl

reception_covered_example : Received fresh self_events p a ⊎ SelfReceiver self_events a p
unfolding find contains same
reception_covered_example =
    reception_covered fresh self_events a p (p ∷ q ∷ []) self_table refl self_stuck refl refl

find-broadcast_vector_example : find q (broadcast_vector a p (p ∷ q ∷ [])) ≡ (
    if same p q
    then some (emit_event a, false)
    else if contains q (p ∷ q ∷ [])
    then some (recv_event a, true)
    else none)
find-broadcast_vector_example = find-broadcast_vector a p q (p ∷ q ∷ [])

recorded-record_event_example :
    (recorded sync_bang a p (record_event sync_bang a p no_events) ≡ (
      (same_sync sync_bang sync_bang && (same a a && same p p))
      || recorded sync_bang a p no_events))
    × ((record_event sync_bang a p no_events).labels ≡ no_events.labels)
    × ((record_event sync_bang a p no_events).brodcasts ≡ no_events.brodcasts)
    × ((record_event sync_bang a p no_events).allowed_csp ≡ no_events.allowed_csp)
recorded-record_event_example = recorded-record_event sync_bang sync_bang a p a p no_events

-- E emits, and R may receive.
abbrev weak_pair : Vector
weak_pair = (codes "E", (codes "a_emit", false)) ∷ (codes "R", (codes "a_recv", true)) ∷ []

weak_pair-IsWritable : IsWritable weak_pair
weak_pair-IsWritable = (
  ((refl, tt), (refl, (refl, (refl, (refl, (refl, (refl, tt))))))),
  (((refl, tt), (refl, (refl, (refl, (refl, (refl, (refl, tt))))))), tt),
)

read_vector-render_example : read_vector (render (sync weak_pair)) ≡ some weak_pair
read_vector-render_example = read_vector-render weak_pair weak_pair-IsWritable
