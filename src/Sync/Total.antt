-- ===== src/Sync/Total.antt =====
-- The whole of s_generate_sync_vectors and the plan (src/utot-translate.cc).
use uppaal_to_tchecker.Base.{
  Text, same, same_iff, true, false, Option, none, some, [], ◌∷◌, ◌++◌, if◌then◌else◌, gather, ◌≡◌,
  refl, sym, ap, ◌∙◌, arith, Bool-cases, inl, inr,
}
use uppaal_to_tchecker.Base.Maps.{Dict, TextSet, find, has, erase, Distinct, find-erase}
use uppaal_to_tchecker.Tchecker.{Vector, Outputter}
use uppaal_to_tchecker.Sync.{
  GlobalEvents, Writer, block_all, join_csp, recv_event, csp_event, emitter_loop, receiver_loop,
  csp_loop, strong_sync_vector, generate_strong_sync, generate_sync_vectors,
}
use uppaal_to_tchecker.Sync.Plan.{
  perform, perform_all, blocks, channel, is_served, remaining, csp_block_for, csp_join, csp_block,
  csp_vector, csp_requests, plan,
}
use uppaal_to_tchecker.Sync.Refines.{
  perform_all-append, block_all-blocks, emitter_step-plan, generate_blocked_event-block,
}

-- What a channel asks for does not depend on the receivers of another channel.
channel-erase :
    (b : TextSet) (rs : Dict TextSet) (k : Text) (es : Dict TextSet)
    → has k es ≡ false
    → gather (channel b (erase k rs)) es ≡ gather (channel b rs) es
unfolding channel has
channel-erase b rs k [] h = refl
channel-erase b rs k ((s, e) ∷ es) h = elim (Bool-cases (same s k)) [
  | inl eq ↦ absurd (ground arith)
  | inr ne ↦
      let other : same k s ≡ false = ground (arith, same_iff k s, same_iff s k) in
      let kept : find s (erase k rs) ≡ find s rs = rw find-erase (rw other) in
      rw (kept, channel-erase b rs k es (ground arith))
]

emitter_loop-plan :
    (b : TextSet) (w : Writer) (rs es : Dict TextSet)
    → Distinct es
    → emitter_loop b (w, rs) es ≡ (perform_all w (gather (channel b rs) es), remaining rs es)
unfolding emitter_loop perform_all remaining
emitter_loop-plan b w rs [] d = refl
emitter_loop-plan b w rs (kv ∷ es) d =
    let rs' = if is_served rs kv then erase kv.0 rs else rs in
    let tail_same : gather (channel b rs') es ≡ gather (channel b rs) es =
      elim (Bool-cases (is_served rs kv)) [
        | inl e ↦ rw e (channel-erase b rs kv.0 es d.0)
        | inr e ↦ rw e
      ] in
    rw (emitter_step-plan b w rs kv) (
      emitter_loop-plan b (perform_all w (channel b rs kv)) rs' es d.1
      ∙ ap (λ u. (u, remaining rs' es))
          (ap (perform_all (perform_all w (channel b rs kv))) tail_same
            ∙ sym (perform_all-append w (channel b rs kv) (gather (channel b rs) es))))

receiver_loop-plan :
    (w : Writer) (rs : Dict TextSet)
    → receiver_loop w rs ≡ perform_all w (gather (blocks recv_event) rs)
unfolding receiver_loop perform_all
receiver_loop-plan w [] = refl
receiver_loop-plan w ((s, procs) ∷ rs) =
    receiver_loop-plan (block_all w s procs recv_event) rs
    ∙ ap (λ u. perform_all u (gather (blocks recv_event) rs))
        (block_all-blocks w s procs recv_event)
    ∙ sym (perform_all-append w (blocks recv_event (s, procs)) (gather (blocks recv_event) rs))

join_csp-plan :
    (w : Writer) (s p : Text) (o : Option TextSet) (v : Vector)
    → join_csp w s p o v ≡ (perform_all w (csp_block_for s p o), csp_join s p o v)
unfolding join_csp perform_all
join_csp-plan w s p none v = ap (λ u. (u, v)) (generate_blocked_event-block w s p csp_event)
join_csp-plan w s p (some set) v = refl

strong_sync_vector-plan :
    (w : Writer) (s : Text) (ps : TextSet) (allowed : Dict TextSet) (v : Vector)
    → strong_sync_vector w s ps allowed v
      ≡ (perform_all w (gather (csp_block allowed s) ps), csp_vector allowed s ps v)
unfolding strong_sync_vector perform_all
strong_sync_vector-plan w s [] allowed v = refl
strong_sync_vector-plan w s (p ∷ ps) allowed v =
    let o = find p allowed in
    rw (join_csp-plan w s p o v) (
      strong_sync_vector-plan (perform_all w (csp_block_for s p o)) s ps allowed (csp_join s p o v)
      ∙ ap (λ u. (u, csp_vector allowed s ps (csp_join s p o v)))
          (sym (perform_all-append w (csp_block_for s p o) (gather (csp_block allowed s) ps))))

generate_strong_sync-plan :
    (w : Writer) (s : Text) (ps : TextSet) (allowed : Dict TextSet)
    → generate_strong_sync w s ps allowed ≡ perform_all w (csp_requests allowed (s, ps))
unfolding generate_strong_sync perform_all perform
generate_strong_sync-plan w s ps allowed =
    rw (strong_sync_vector-plan w s ps allowed [])
      (rw (perform_all-append w (gather (csp_block allowed s) ps)) (ground arith))

csp_loop-plan :
    (w : Writer) (allowed csp : Dict TextSet)
    → csp_loop w allowed csp ≡ perform_all w (gather (csp_requests allowed) csp)
unfolding csp_loop perform_all
csp_loop-plan w allowed [] = refl
csp_loop-plan w allowed ((s, procs) ∷ csp) =
    csp_loop-plan (generate_strong_sync w s procs allowed) allowed csp
    ∙ ap (λ u. perform_all u (gather (csp_requests allowed) csp))
        (generate_strong_sync-plan w s procs allowed)
    ∙ sym
        (perform_all-append w (csp_requests allowed (s, procs)) (gather (csp_requests allowed) csp))

-- With each channel listed once among the emitters, the loops write exactly what the plan asks for,
-- in its order.
pub generate_sync_vectors-plan :
    (o : Outputter) (ev : GlobalEvents)
    → Distinct ev.emitters
    → generate_sync_vectors o ev
      ≡ (perform_all (record { tckout = o; add_stuck_process = true }) (plan ev)).tckout
unfolding generate_sync_vectors plan
generate_sync_vectors-plan o ev d =
    let start : Writer = record { tckout = o; add_stuck_process = true } in
    let blocked = gather (blocks recv_event) (remaining ev.receivers ev.emitters) in
    let csp = gather (csp_requests ev.allowed_csp) ev.csp in
    let paired = gather (channel ev.brodcasts ev.receivers) ev.emitters in
    let r = emitter_loop ev.brodcasts (start, ev.receivers) ev.emitters in
    ap (λ (w : Writer). w.tckout)
      (csp_loop-plan (receiver_loop r.0 r.1) ev.allowed_csp ev.csp
        ∙ ap (λ (u : Writer × Dict TextSet). perform_all (receiver_loop u.0 u.1) csp)
            (emitter_loop-plan ev.brodcasts start ev.receivers ev.emitters d)
        ∙ ap (λ u. perform_all u csp)
            (receiver_loop-plan (perform_all start paired) (remaining ev.receivers ev.emitters))
        ∙ sym (perform_all-append (perform_all start paired) blocked csp)
        ∙ sym (perform_all-append start paired (blocked ++ csp)))
