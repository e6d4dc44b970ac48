-- ===== src/Sync/Complete.antt =====
-- From the expected requests to the plan (src/utot-translate.cc).
use uppaal_to_tchecker.Base.{
  ◌≤◌, Text, ne-same, true, false, Option, none, some, List, [], ◌∷◌, ◌++◌, leb, length,
  if◌then◌else◌, gather, ◌≡◌, ◌≢◌, refl, ap, ◌∙◌, arith, inl, In, In-append_left, In-append_right,
  In-gather,
}
use uppaal_to_tchecker.Base.Maps.{TextSet, find, contains, Distinct, find-In, contains-In}
use uppaal_to_tchecker.Sync.{GlobalEvents, emit_event, recv_event, csp_event}
use uppaal_to_tchecker.Sync.Plan.{
  Request, synchronise, block, pair_vector, broadcast_vector, pair_request, pairs, casts, blocks,
  channel_requests, channel, remaining, csp_block, csp_vector, csp_requests, plan,
}
use uppaal_to_tchecker.Sync.Meaning.{
  IsTable, Alone, NoMeeting, has_partner_of, Alone-has_partner, NoMeeting-some_partner, Expected,
  paired, cast, emitter_blocked, receiver_blocked, csp_blocked, csp_joined,
}
use uppaal_to_tchecker.Sync.Remaining.{kept, find-remaining}

blocks-In :
    (f : Text → Text) (s p : Text) (ps : TextSet)
    → contains p ps ≡ true
    → In (block p (f s)) (blocks f (s, ps))
blocks-In f s p ps c =
    In-gather (λ q. block q (f s) ∷ []) ps p (block p (f s)) (contains-In p ps c) (inl refl)

module _ (ev : GlobalEvents) where
  abbrev paired_requests : List Request
  paired_requests = gather (channel ev.brodcasts ev.receivers) ev.emitters

  abbrev blocked_requests : List Request
  blocked_requests = gather (blocks recv_event) (remaining ev.receivers ev.emitters)

  abbrev csp_part : List Request
  csp_part = gather (csp_requests ev.allowed_csp) ev.csp

  In-paired : (r : Request) → In r paired_requests → In r (plan ev)
  unfolding plan
  In-paired r h = In-append_left r paired_requests (blocked_requests ++ csp_part) h

  In-blocked : (r : Request) → In r blocked_requests → In r (plan ev)
  unfolding plan
  In-blocked r h =
      In-append_right r paired_requests (blocked_requests ++ csp_part)
        (In-append_left r blocked_requests csp_part h)

  In-csp : (r : Request) → In r csp_part → In r (plan ev)
  unfolding plan
  In-csp r h =
      In-append_right r paired_requests (blocked_requests ++ csp_part)
        (In-append_right r blocked_requests csp_part h)

  -- Through the entry of a channel.
  through :
      (r : Request) (s : Text) (es : TextSet) (o : Option TextSet)
      → find s ev.emitters ≡ some es
      → find s ev.receivers ≡ o
      → In r (channel_requests ev.brodcasts s es o)
      → In r (plan ev)
  unfolding channel
  through r s es o fe fr h = In-paired r (
      In-gather (channel ev.brodcasts ev.receivers) ev.emitters (s, es) r
        (find-In s es ev.emitters fe) (rw fr h))

  paired-In :
      (s : Text) (es rs : TextSet) (pe pr : Text)
      → find s ev.emitters ≡ some es
      → find s ev.receivers ≡ some rs
      → contains s ev.brodcasts ≡ false
      → contains pe es ≡ true
      → contains pr rs ≡ true
      → pe ≢ pr
      → In (synchronise (pair_vector s pe pr)) (plan ev)
  paired-In s es rs pe pr fe fr nb ce cr n =
      let r = synchronise (pair_vector s pe pr) in
      let one : In r (pair_request s pe pr) = rw (ne-same pe pr n) (inl refl) in
      let mine : In r (pairs s rs pe) =
        rw (has_partner_of pe pr rs cr n)
          (In-gather (pair_request s pe) rs pr r (contains-In pr rs cr) one) in
      through r s es (some rs) fe fr
        (rw nb (In-gather (pairs s rs) es pe r (contains-In pe es ce) mine))

  cast-In :
      (s : Text) (es rs : TextSet) (pe pr : Text)
      → find s ev.emitters ≡ some es
      → find s ev.receivers ≡ some rs
      → contains s ev.brodcasts ≡ true
      → contains pe es ≡ true
      → contains pr rs ≡ true
      → pe ≢ pr
      → In (synchronise (broadcast_vector s pe rs)) (plan ev)
  cast-In s es rs pe pr fe fr b ce cr n =
      let r = synchronise (broadcast_vector s pe rs) in
      let mine : In r (casts s rs pe) = rw (has_partner_of pe pr rs cr n) (inl refl) in
      through r s es (some rs) fe fr
        (rw b (In-gather (casts s rs) es pe r (contains-In pe es ce) mine))

  emitter_blocked-In :
      (s : Text) (es : TextSet) (pe : Text) (o : Option TextSet)
      → find s ev.emitters ≡ some es
      → contains s ev.brodcasts ≡ false
      → contains pe es ≡ true
      → find s ev.receivers ≡ o
      → ((rs : TextSet) → o ≡ some rs → Alone pe rs)
      → In (block pe (emit_event s)) (plan ev)
  emitter_blocked-In s es pe none fe nb ce fr alone =
      through (block pe (emit_event s)) s es none fe fr (rw nb (blocks-In emit_event s pe es ce))
  emitter_blocked-In s es pe (some rs) fe nb ce fr alone =
      let r = block pe (emit_event s) in
      let mine : In r (pairs s rs pe) = rw (Alone-has_partner pe rs (alone rs refl)) (inl refl) in
      through r s es (some rs) fe fr
        (rw nb (In-gather (pairs s rs) es pe r (contains-In pe es ce) mine))

  kept-NoMeeting :
      (e : Option TextSet) (rs : TextSet)
      → ((es : TextSet) → e ≡ some es → NoMeeting es rs)
      → kept e (some rs) ≡ some rs
  kept-NoMeeting none rs h = refl
  kept-NoMeeting (some es) rs h = rw (NoMeeting-some_partner es rs (h es refl))

  receiver_blocked-In :
      (s : Text) (rs : TextSet) (pr : Text)
      → Distinct ev.emitters
      → find s ev.receivers ≡ some rs
      → contains pr rs ≡ true
      → ((es : TextSet) → find s ev.emitters ≡ some es → NoMeeting es rs)
      → In (block pr (recv_event s)) (plan ev)
  receiver_blocked-In s rs pr d fr cr h =
      let left = remaining ev.receivers ev.emitters in
      let found : find s left ≡ some rs =
        find-remaining s ev.receivers ev.emitters d
        ∙ ap (kept (find s ev.emitters)) fr
        ∙ kept-NoMeeting (find s ev.emitters) rs h in
      In-blocked (block pr (recv_event s)) (
        In-gather (blocks recv_event) left (s, rs) (block pr (recv_event s))
          (find-In s rs left found) (blocks-In recv_event s pr rs cr))

  csp_blocked-In :
      (s : Text) (ps : TextSet) (p : Text)
      → find s ev.csp ≡ some ps
      → contains p ps ≡ true
      → find p ev.allowed_csp ≡ none
      → In (block p (csp_event s)) (plan ev)
  csp_blocked-In s ps p fc c fa =
      let r = block p (csp_event s) in
      let v = csp_vector ev.allowed_csp s ps [] in
      let mine : In r (csp_block ev.allowed_csp s p) = rw fa (inl refl) in
      In-csp r (
        In-gather (csp_requests ev.allowed_csp) ev.csp (s, ps) r (find-In s ps ev.csp fc)
          (In-append_left r (gather (csp_block ev.allowed_csp s) ps)
            (if leb 2 (length v) then synchronise v ∷ [] else [])
            (In-gather (csp_block ev.allowed_csp s) ps p r (contains-In p ps c) mine)))

  csp_joined-In :
      (s : Text) (ps : TextSet)
      → find s ev.csp ≡ some ps
      → 2 ≤ length (csp_vector ev.allowed_csp s ps [])
      → In (synchronise (csp_vector ev.allowed_csp s ps [])) (plan ev)
  csp_joined-In s ps fc two =
      let v = csp_vector ev.allowed_csp s ps [] in
      let enough : leb 2 (length v) ≡ true = ground arith in
      let mine : In (synchronise v) (if leb 2 (length v) then synchronise v ∷ [] else []) =
        rw enough (inl refl) in
      In-csp (synchronise v) (
        In-gather (csp_requests ev.allowed_csp) ev.csp (s, ps) (synchronise v)
          (find-In s ps ev.csp fc)
          (In-append_right (synchronise v) (gather (csp_block ev.allowed_csp s) ps)
            (if leb 2 (length v) then synchronise v ∷ [] else []) mine))

-- Every request that the tables of events ask for is performed.
pub Expected-plan : (ev : GlobalEvents) (r : Request) → IsTable ev → Expected ev r → In r (plan ev)
Expected-plan ev r t (paired s es rs pe pr fe fr nb ce cr n q) =
    rw q (paired-In ev s es rs pe pr fe fr nb ce cr n)
Expected-plan ev r t (cast s es rs pe pr fe fr b ce cr n q) =
    rw q (cast-In ev s es rs pe pr fe fr b ce cr n)
Expected-plan ev r t (emitter_blocked s es pe fe nb ce alone q) =
    rw q (emitter_blocked-In ev s es pe (find s ev.receivers) fe nb ce refl alone)
Expected-plan ev r t (receiver_blocked s rs pr fr cr h q) =
    rw q (receiver_blocked-In ev s rs pr t.emitters fr cr h)
Expected-plan ev r t (csp_blocked s ps p fc c fa q) = rw q (csp_blocked-In ev s ps p fc c fa)
Expected-plan ev r t (csp_joined s ps fc two q) = rw q (csp_joined-In ev s ps fc two)
