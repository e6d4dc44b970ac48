-- ===== src/Sync/Sound.antt =====
-- From the plan to the expected requests (src/utot-translate.cc).
use uppaal_to_tchecker.Base.{
  Text, same, same-ne, true, false, Option, none, some, [], ◌∷◌, ◌++◌, leb, length, if◌then◌else◌,
  gather, ◌≡◌, ◌≢◌, refl, ap, ◌∙◌, sym, arith, Bool-cases, inl, inr, In, In-append, gather-In,
}
use uppaal_to_tchecker.Base.Maps.{TextSet, find, contains, In-find, In-contains}
use uppaal_to_tchecker.Sync.{GlobalEvents, emit_event, recv_event, csp_event}
use uppaal_to_tchecker.Sync.Plan.{
  Request, synchronise, block, pair_vector, broadcast_vector, has_partner, some_partner,
  pair_request, pairs, casts, blocks, channel_requests, channel, remaining, csp_block_for,
  csp_block, csp_vector, csp_requests, plan,
}
use uppaal_to_tchecker.Sync.Meaning.{
  IsTable, has_partner-Alone, partner, some_partner-NoMeeting, Expected, paired, cast,
  emitter_blocked, receiver_blocked, csp_blocked, csp_joined,
}
use uppaal_to_tchecker.Sync.Remaining.{kept, remaining-Distinct, find-remaining}

-- The members of a singleton.
In-one : {A : Type 0} (a b : A) → In a (b ∷ []) → a ≡ b
In-one a b (inl e) = e
In-one a b (inr h) = absurd h

In-blocks :
    (r : Request) (f : Text → Text) (s : Text) (ps : TextSet)
    → In r (blocks f (s, ps))
    → (p : Text) × (contains p ps ≡ true) × (r ≡ block p (f s))
In-blocks r f s ps h =
    let (p, i, k) = gather-In (λ p. block p (f s) ∷ []) ps r h in
    (p, In-contains p ps i, In-one r (block p (f s)) k)

In-pair_request :
    (r : Request) (s pe pr : Text)
    → In r (pair_request s pe pr)
    → (pe ≢ pr) × (r ≡ synchronise (pair_vector s pe pr))
In-pair_request r s pe pr h = elim (Bool-cases (same pe pr)) [
  | inl e ↦ absurd (rw e at h)
  | inr n ↦ (same-ne pe pr n, In-one r (synchronise (pair_vector s pe pr)) (rw n at h))
]

-- What is kept of a channel's receivers is all of them, and its emitters do not meet them.
kept-some :
    (e o : Option TextSet) (rs : TextSet)
    → kept e o ≡ some rs
    → (o ≡ some rs) × ((es : TextSet) → e ≡ some es → some_partner es rs ≡ false)
kept-some none o rs h = (h, λ es q. cc)
kept-some (some e) none rs h = absurd (ground arith)
kept-some (some e) (some o) rs h = elim (Bool-cases (some_partner e o)) [
  | inl m ↦ absurd (ground arith)
  | inr m ↦
      let p : o ≡ rs = ground arith in (ap some p, λ es q. let w : e ≡ es = cc in rw (← w, ← p) m)
]

module _ (ev : GlobalEvents) (r : Request) where
  pairs-Expected :
      (s pe : Text) (es rs : TextSet)
      → find s ev.emitters ≡ some es
      → find s ev.receivers ≡ some rs
      → contains s ev.brodcasts ≡ false
      → contains pe es ≡ true
      → In r (pairs s rs pe)
      → Expected ev r
  pairs-Expected s pe es rs fe fr nb ce h = elim (Bool-cases (has_partner pe rs)) [
    | inl met ↦
        let (pr, i, k) = gather-In (pair_request s pe) rs r (rw met at h) in
        let (n, q) = In-pair_request r s pe pr k in
        paired s es rs pe pr fe fr nb ce (In-contains pr rs i) n q
    | inr alone ↦
        emitter_blocked s es pe fe nb ce
          (λ rs' fr'. let e : rs ≡ rs' = cc in rw (← e) (has_partner-Alone pe rs alone))
          (In-one r (block pe (emit_event s)) (rw alone at h))
  ]

  casts-Expected :
      (s pe : Text) (es rs : TextSet)
      → find s ev.emitters ≡ some es
      → find s ev.receivers ≡ some rs
      → contains s ev.brodcasts ≡ true
      → contains pe es ≡ true
      → In r (casts s rs pe)
      → Expected ev r
  casts-Expected s pe es rs fe fr b ce h = elim (Bool-cases (has_partner pe rs)) [
    | inl met ↦
        let (pr, c, n) = partner pe rs met in
        cast s es rs pe pr fe fr b ce c n
          (In-one r (synchronise (broadcast_vector s pe rs)) (rw met at h))
    | inr alone ↦ absurd (rw alone at h)
  ]

  channel-Expected :
      (s : Text) (es : TextSet) (o : Option TextSet)
      → find s ev.emitters ≡ some es
      → find s ev.receivers ≡ o
      → In r (channel_requests ev.brodcasts s es o)
      → Expected ev r
  channel-Expected s es none fe fr h = elim (Bool-cases (contains s ev.brodcasts)) [
    | inl b ↦ absurd (rw b at h)
    | inr nb ↦
        let (pe, c, q) = In-blocks r emit_event s es (rw nb at h) in
        emitter_blocked s es pe fe nb c (λ rs p. cc) q
  ]
  channel-Expected s es (some rs) fe fr h = elim (Bool-cases (contains s ev.brodcasts)) [
    | inl b ↦
        let (pe, i, k) = gather-In (casts s rs) es r (rw b at h) in
        casts-Expected s pe es rs fe fr b (In-contains pe es i) k
    | inr nb ↦
        let (pe, i, k) = gather-In (pairs s rs) es r (rw nb at h) in
        pairs-Expected s pe es rs fe fr nb (In-contains pe es i) k
  ]

  csp_block-Expected :
      (s p : Text) (ps : TextSet) (o : Option TextSet)
      → find s ev.csp ≡ some ps
      → contains p ps ≡ true
      → find p ev.allowed_csp ≡ o
      → In r (csp_block_for s p o)
      → Expected ev r
  csp_block-Expected s p ps none fc c fa h =
      csp_blocked s ps p fc c fa (In-one r (block p (csp_event s)) h)
  csp_block-Expected s p ps (some set) fc c fa h = absurd h

  csp-Expected :
      (s : Text) (ps : TextSet)
      → find s ev.csp ≡ some ps
      → In r (csp_requests ev.allowed_csp (s, ps))
      → Expected ev r
  csp-Expected s ps fc h =
      let v = csp_vector ev.allowed_csp s ps [] in
      elim (In-append r (gather (csp_block ev.allowed_csp s) ps)
        (if leb 2 (length v) then synchronise v ∷ [] else []) h) [
          | inl left ↦
              let (p, i, k) = gather-In (csp_block ev.allowed_csp s) ps r left in
              csp_block-Expected s p ps (find p ev.allowed_csp) fc (In-contains p ps i) refl k
          | inr right ↦ elim (Bool-cases (leb 2 (length v))) [
            | inl two ↦
                csp_joined s ps fc (ground arith) (In-one r (synchronise v) (rw two at right))
            | inr few ↦ absurd (rw few at right)
          ]
        ]

  receivers-Expected :
      (s : Text) (rs : TextSet)
      → IsTable ev
      → In (s, rs) (remaining ev.receivers ev.emitters)
      → In r (blocks recv_event (s, rs))
      → Expected ev r
  receivers-Expected s rs t i h =
      let left = remaining ev.receivers ev.emitters in
      let found : find s left ≡ some rs =
        In-find s rs left (remaining-Distinct ev.receivers ev.emitters t.receivers) i in
      let both = sym (find-remaining s ev.receivers ev.emitters t.emitters) ∙ found in
      let (pr, c, q) = In-blocks r recv_event s rs h in
      let there = kept-some (find s ev.emitters) (find s ev.receivers) rs both in
      receiver_blocked s rs pr there.0 c (λ es fe. some_partner-NoMeeting es rs (there.1 es fe)) q

-- Every request that the loops perform is one that the tables of events ask for.
pub plan-Expected : (ev : GlobalEvents) (r : Request) → IsTable ev → In r (plan ev) → Expected ev r
unfolding plan channel
plan-Expected ev r t h =
    let paired = gather (channel ev.brodcasts ev.receivers) ev.emitters in
    let left = remaining ev.receivers ev.emitters in
    let blocked = gather (blocks recv_event) left in
    let csp = gather (csp_requests ev.allowed_csp) ev.csp in
    elim (In-append r paired (blocked ++ csp) h) [
      | inl a ↦
          let ((s, es), i, k) = gather-In (channel ev.brodcasts ev.receivers) ev.emitters r a in
          channel-Expected ev r s es (find s ev.receivers) (In-find s es ev.emitters t.emitters i)
            refl k
      | inr b ↦ elim (In-append r blocked csp b) [
        | inl c ↦
            let ((s, rs), i, k) = gather-In (blocks recv_event) left r c in
            receivers-Expected ev r s rs t i k
        | inr d ↦
            let ((s, ps), i, k) = gather-In (csp_requests ev.allowed_csp) ev.csp r d in
            csp-Expected ev r s ps (In-find s ps ev.csp t.csp i) k
      ]
    ]
