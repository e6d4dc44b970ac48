-- ===== src/Sync/Refines.antt =====
-- The nested loops of s_generate_sync_vectors and the plan (src/utot-translate.cc).
use uppaal_to_tchecker.Base.{
  Text, ◌≤◌, same, Bool, true, false, not, ◌&&◌, ◌||◌, Option, none, some, List, [], ◌∷◌, ◌++◌, leb,
  length, if◌then◌else◌, gather, ◌≡◌, refl, sym, ap, ◌∙◌, arith, Bool-cases, inl, inr,
}
use uppaal_to_tchecker.Base.Maps.{
  Dict, TextSet, find, has, emplace, erase, contains, length-emplace,
}
use uppaal_to_tchecker.Tchecker.{Vector}
use uppaal_to_tchecker.Sync.{
  Writer, emit_event, recv_event, add_receivers, generate_blocked_event, generate_emit_recv,
  generate_emit_broadcast, block_all, emit_to_all, pair_emitters, broadcast_emitters, serve_channel,
  emitter_step,
}
use uppaal_to_tchecker.Sync.Plan.{
  Request, block, perform, perform_all, broadcast_vector, has_partner, some_partner, pair_request,
  pairs, casts, blocks, channel_requests, channel, meet, is_served,
}

pub perform_all-append :
    (w : Writer) (rs qs : List Request)
    → perform_all w (rs ++ qs) ≡ perform_all (perform_all w rs) qs
unfolding perform_all
perform_all-append w [] qs = refl
perform_all-append w (r ∷ rs) qs = perform_all-append (perform w r) rs qs

pub generate_blocked_event-block :
    (w : Writer) (s p : Text) (trevent : Text → Text)
    → generate_blocked_event w s p trevent ≡ perform w (block p (trevent s))
unfolding generate_blocked_event perform
generate_blocked_event-block w s p trevent = refl

pub block_all-blocks :
    (w : Writer) (s : Text) (ps : TextSet) (trevent : Text → Text)
    → block_all w s ps trevent ≡ perform_all w (blocks trevent (s, ps))
unfolding block_all perform_all perform generate_blocked_event
block_all-blocks w s [] trevent = refl
block_all-blocks w s (p ∷ ps) trevent =
    block_all-blocks (generate_blocked_event w s p trevent) s ps trevent

generate_emit_recv-pair :
    (w : Writer) (s pe pr : Text)
    → let r = generate_emit_recv w.tckout s pe pr in
      (record w { tckout = r.0 } ≡ perform_all w (pair_request s pe pr)) × (r.1 ≡ not (same pe pr))
unfolding generate_emit_recv perform_all perform
generate_emit_recv-pair w s pe pr = ground arith

emit_to_all-pairs :
    (w : Writer) (s pe : Text) (rs : TextSet) (norecv : Bool)
    → let r = emit_to_all w.tckout s pe rs norecv in
      (record w { tckout = r.0 } ≡ perform_all w (gather (pair_request s pe) rs))
      × (r.1 ≡ (norecv && not (has_partner pe rs)))
unfolding emit_to_all perform_all
emit_to_all-pairs w s pe [] norecv = (refl, ground arith)
emit_to_all-pairs w s pe (pr ∷ rs) norecv =
    let r = generate_emit_recv w.tckout s pe pr in
    let w' : Writer = record w { tckout = r.0 } in
    let one = generate_emit_recv-pair w s pe pr in
    let ih = emit_to_all-pairs w' s pe rs (if r.1 then false else norecv) in
    (
      ih.0
          ∙ ap (λ u. perform_all u (gather (pair_request s pe) rs)) one.0
          ∙ sym (perform_all-append w (pair_request s pe pr) (gather (pair_request s pe) rs)),
      ih.1 ∙ ground (arith, one.1),
    )

has_partner-pair_request :
    (s pe : Text) (rs : TextSet) → has_partner pe rs ≡ false → gather (pair_request s pe) rs ≡ []
has_partner-pair_request s pe [] h = refl
has_partner-pair_request s pe (pr ∷ rs) h = elim (Bool-cases (same pe pr)) [
  | inl e ↦ rw e (has_partner-pair_request s pe rs (ground arith))
  | inr n ↦ absurd (ground arith)
]

-- An emitter of a channel that is not a broadcast is paired with the others, or blocked.
pair_emitter-pairs :
    (w : Writer) (s pe : Text) (rs : TextSet)
    → let r = emit_to_all w.tckout s pe rs true in
      let w' : Writer = record w { tckout = r.0 } in
      ((if r.1 then generate_blocked_event w' s pe emit_event else w')
        ≡ perform_all w (pairs s rs pe))
      × (r.1 ≡ not (has_partner pe rs))
unfolding perform_all
pair_emitter-pairs w s pe rs =
    let r = emit_to_all w.tckout s pe rs true in
    let w' : Writer = record w { tckout = r.0 } in
    let all = emit_to_all-pairs w s pe rs true in
    elim (Bool-cases (has_partner pe rs)) [
      | inl met ↦
          let served : r.1 ≡ false = ground (arith, all.1) in
          (rw (served, met) all.0, ground (arith, served))
      | inr alone ↦
          let stuck : r.1 ≡ true = ground (arith, all.1) in
          let same_writer : w' ≡ w =
            all.0 ∙ ap (perform_all w) (has_partner-pair_request s pe rs alone) in
          (
            rw (stuck, alone)
                (generate_blocked_event-block w' s pe emit_event
                  ∙ ap (λ u. perform u (block pe (emit_event s))) same_writer),
            ground (arith, stuck),
          )
    ]

pair_emitters-plan :
    (w : Writer) (s : Text) (es rs : TextSet) (clear : Bool)
    → let r = pair_emitters w s es rs clear in
      (r.0 ≡ perform_all w (gather (pairs s rs) es)) × (r.1 ≡ (clear || some_partner es rs))
unfolding pair_emitters perform_all
pair_emitters-plan w s [] rs clear = (refl, ground arith)
pair_emitters-plan w s (pe ∷ es) rs clear =
    let r = emit_to_all w.tckout s pe rs true in
    let w' : Writer = record w { tckout = r.0 } in
    let one = pair_emitter-pairs w s pe rs in
    let u = if r.1 then generate_blocked_event w' s pe emit_event else w' in
    let ih = pair_emitters-plan u s es rs (if r.1 then clear else true) in
    (
      ih.0
          ∙ ap (λ v. perform_all v (gather (pairs s rs) es)) one.0
          ∙ sym (perform_all-append w (pairs s rs pe) (gather (pairs s rs) es)),
      ih.1 ∙ ground (arith, one.1),
    )

-- A broadcast vector never shrinks, and grows past the emitter as soon as there is a partner.
add_receivers-grow :
    (s pe : Text) (rs : TextSet) (v : Vector) → length v ≤ length (add_receivers s pe rs v)
unfolding add_receivers
add_receivers-grow s pe [] v = omega arith
add_receivers-grow s pe (pr ∷ rs) v = elim (Bool-cases (same pe pr)) [
  | inl e ↦ rw e (add_receivers-grow s pe rs v)
  | inr n ↦ rw n (
      ground (
        arith,
        add_receivers-grow s pe rs (emplace pr (recv_event s, true) v),
        length-emplace pr (recv_event s, true) v,
      ))
]

has-single : (pe pr : Text) (x : Text × Bool) → has pr ((pe, x) ∷ []) ≡ same pe pr
unfolding has
has-single pe pr x = ground arith

pub broadcast_vector-has_partner :
    (s pe : Text) (rs : TextSet) → leb 2 (length (broadcast_vector s pe rs)) ≡ has_partner pe rs
unfolding add_receivers emplace
broadcast_vector-has_partner s pe [] = refl
broadcast_vector-has_partner s pe (pr ∷ rs) = elim (Bool-cases (same pe pr)) [
  | inl e ↦ rw e (broadcast_vector-has_partner s pe rs)
  | inr n ↦ rw n (
      ground (
        arith,
        add_receivers-grow s pe rs
            (emplace pr (recv_event s, true) ((pe, (emit_event s, false)) ∷ [])),
        length-emplace {V = Text × Bool} pr (recv_event s, true) ((pe, (emit_event s, false)) ∷ []),
        has-single pe pr (emit_event s, false),
      ))
]

generate_emit_broadcast-casts :
    (w : Writer) (s pe : Text) (rs : TextSet)
    → let r = generate_emit_broadcast w.tckout s pe rs in
      (record w { tckout = r.0 } ≡ perform_all w (casts s rs pe)) × (r.1 ≡ has_partner pe rs)
unfolding generate_emit_broadcast perform_all perform
generate_emit_broadcast-casts w s pe rs = ground (arith, broadcast_vector-has_partner s pe rs)

pub broadcast_emitters-plan :
    (w : Writer) (s : Text) (es rs : TextSet) (clear : Bool)
    → let r = broadcast_emitters w s es rs clear in
      (r.0 ≡ perform_all w (gather (casts s rs) es)) × (r.1 ≡ (clear || some_partner es rs))
unfolding broadcast_emitters perform_all
broadcast_emitters-plan w s [] rs clear = (refl, ground arith)
broadcast_emitters-plan w s (pe ∷ es) rs clear =
    let r = generate_emit_broadcast w.tckout s pe rs in
    let w' : Writer = record w { tckout = r.0 } in
    let one = generate_emit_broadcast-casts w s pe rs in
    let ih = broadcast_emitters-plan w' s es rs (if r.1 then true else clear) in
    (
      ih.0
          ∙ ap (λ v. perform_all v (gather (casts s rs) es)) one.0
          ∙ sym (perform_all-append w (casts s rs pe) (gather (casts s rs) es)),
      ih.1 ∙ ground (arith, one.1),
    )

serve_channel-requests :
    (b : TextSet) (w : Writer) (rs : Dict TextSet) (s : Text) (es : TextSet) (o : Option TextSet)
    → serve_channel b w rs s es o
      ≡ (perform_all w (channel_requests b s es o), if meet es o then erase s rs else rs)
unfolding serve_channel perform_all
serve_channel-requests b w rs s es none = elim (Bool-cases (contains s b)) [
  | inl e ↦ rw e
  | inr e ↦ rw e (ap (λ u. (u, rs)) (block_all-blocks w s es emit_event))
]
serve_channel-requests b w rs s es (some procs) =
    let cast = broadcast_emitters-plan w s es procs false in
    let pair = pair_emitters-plan w s es procs false in
    elim (Bool-cases (contains s b)) [
      | inl e ↦ rw e (rw (cast.0, cast.1))
      | inr e ↦ rw e (rw (pair.0, pair.1))
    ]

-- The body of the loop over the emitters, with what it does to the receivers.
pub emitter_step-plan :
    (b : TextSet) (w : Writer) (rs : Dict TextSet) (kv : Text × TextSet)
    → emitter_step b (w, rs) kv
      ≡ (perform_all w (channel b rs kv), if is_served rs kv then erase kv.0 rs else rs)
unfolding emitter_step channel is_served
emitter_step-plan b w rs (s, es) = serve_channel-requests b w rs s es (find s rs)
