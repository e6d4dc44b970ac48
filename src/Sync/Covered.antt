-- ===== src/Sync/Covered.antt =====
-- The vectors that hold each recorded event (src/utot-translate.cc, doc/translation.md).
use uppaal_to_tchecker.Base.{
  Text, same_iff, same_refl, ne-same, Bool, true, false, some, [], ◌∷◌, ◌≡◌, ◌≢◌, refl, sym, ◌∙◌,
  arith, Bool-cases, Option-cases, ◌⊎◌, inl, inr, In,
}
use uppaal_to_tchecker.Base.Maps.{TextSet, find, contains}
use uppaal_to_tchecker.Tchecker.{Vector, Outputter}
use uppaal_to_tchecker.Sync.{
  GlobalEvents, emit_event, recv_event, stuck_process, generate_sync_vectors,
}
use uppaal_to_tchecker.Sync.Plan.{
  Request, synchronise, block, vector_of, pair_vector, broadcast_vector, has_partner, some_partner,
}
use uppaal_to_tchecker.Sync.Lines.{vectors}
use uppaal_to_tchecker.Sync.Meaning.{
  IsTable, Alone, NoMeeting, has_partner-Alone, partner, some_partner-NoMeeting, Expected, paired,
  cast, emitter_blocked, receiver_blocked,
}
use uppaal_to_tchecker.Sync.Shapes.{find-pair_vector, find-block, find-broadcast_vector}
use uppaal_to_tchecker.Sync.Written.{written_iff, NoStuck, not_stuck, SelfReceiver}

-- Some vector that is written has the process take part with the event.
pub record Held (o : Outputter) (ev : GlobalEvents) (p event : Text) (weak : Bool) : Type 0 where
  pub by : Vector
  pub is_written : In by (vectors (generate_sync_vectors o ev).out)
  pub takes_part : find p by ≡ some (event, weak)

meeting :
    (es rs : TextSet)
    → some_partner es rs ≡ true
    → (pe pr : Text) × (contains pe es ≡ true) × (contains pr rs ≡ true) × (pe ≢ pr)
unfolding contains
meeting [] rs h = absurd (ground arith)
meeting (e ∷ es) rs h = elim (Bool-cases (has_partner e rs)) [
  | inl there ↦ let (pr, c, n) = partner e rs there in (e, pr, ground (arith, same_refl e), c, n)
  | inr not_there ↦
      let (pe, pr, c, d, n) = meeting es rs (ground arith) in (pe, pr, ground arith, d, n)
]

module _ (o : Outputter) (ev : GlobalEvents) (t : IsTable ev) (fresh : vectors o.out ≡ [])
    (k : NoStuck ev) where
  held :
      (p event : Text) (weak : Bool) (r : Request)
      → Expected ev r
      → find p (vector_of r) ≡ some (event, weak)
      → Held o ev p event weak
  held p event weak r x q = record {
    by = vector_of r;
    is_written = (written_iff o ev (vector_of r) t fresh).1 (r, x, refl);
    takes_part = q;
  }

  Held-pair :
      (s pe pr : Text)
      → pe ≢ pr
      → Expected ev (synchronise (pair_vector s pe pr))
      → Held o ev pe (emit_event s) false × Held o ev pr (recv_event s) false
  Held-pair s pe pr n x = (
    held pe (emit_event s) false _ x
        (ground (arith, find-pair_vector s pe pr pe n, same_iff pr pe, same_refl pe)),
    held pr (recv_event s) false _ x (ground (arith, find-pair_vector s pe pr pr n, same_refl pr)),
  )

  Held-block :
      (p event : Text) → p ≢ stuck_process → Expected ev (block p event) → Held o ev p event false
  Held-block p event n x = held p event false _ x (
      ground (arith, find-block p event p n, ne-same stuck_process p (λ e. n (sym e)), same_refl p))

  Held-cast :
      (s pe pr : Text) (rs : TextSet)
      → contains pr rs ≡ true
      → pe ≢ pr
      → Expected ev (synchronise (broadcast_vector s pe rs))
      → Held o ev pr (recv_event s) true
  Held-cast s pe pr rs c n x =
      held pr (recv_event s) true _ x
        (ground (arith, find-broadcast_vector s pe pr rs, ne-same pe pr n))

-- From a writer with no vectors, each key once in the tables and no process called Stuck: on a channel
-- that is not a broadcast, every recorded emission takes part in a vector.
pub emission_covered :
    (o : Outputter) (ev : GlobalEvents) (s pe : Text) (es : TextSet)
    → IsTable ev
    → vectors o.out ≡ []
    → NoStuck ev
    → find s ev.emitters ≡ some es
    → contains pe es ≡ true
    → contains s ev.brodcasts ≡ false
    → Held o ev pe (emit_event s) false
emission_covered o ev s pe es t fresh k fe ce nb =
    let alone_blocked = λ (alone : (rs : TextSet) → find s ev.receivers ≡ some rs → Alone pe rs).
      Held-block o ev t fresh k pe (emit_event s) (not_stuck pe es ce (k.emitters s es fe))
        (emitter_blocked s es pe fe nb ce alone refl) in
    elim (Option-cases (find s ev.receivers)) [
      | inl none_there ↦ alone_blocked (λ rs fr. cc)
      | inr (rs, fr) ↦ elim (Bool-cases (has_partner pe rs)) [
        | inl there ↦
            let (pr, c, n) = partner pe rs there in
            (Held-pair o ev t fresh k s pe pr n (paired s es rs pe pr fe fr nb ce c n refl)).0
        | inr not_there ↦
            alone_blocked
              (λ rs' fr'. let q : rs ≡ rs' = cc in rw (← q) (has_partner-Alone pe rs not_there))
      ]
    ]

abbrev pub Received : Outputter → GlobalEvents → Text → Text → Type 0
Received o ev pr s = (weak : Bool) × Held o ev pr (recv_event s) weak

module _ (o : Outputter) (ev : GlobalEvents) (t : IsTable ev) (fresh : vectors o.out ≡ [])
    (k : NoStuck ev) (s pr : Text) (rs : TextSet) (fr : find s ev.receivers ≡ some rs)
    (cr : contains pr rs ≡ true) where
  Received-from :
      (pe : Text) (es : TextSet)
      → find s ev.emitters ≡ some es
      → contains pe es ≡ true
      → pe ≢ pr
      → Received o ev pr s
  Received-from pe es fe ce n = elim (Bool-cases (contains s ev.brodcasts)) [
    | inl b ↦
        (true, Held-cast o ev t fresh k s pe pr rs cr n (cast s es rs pe pr fe fr b ce cr n refl))
    | inr nb ↦
        (false, (Held-pair o ev t fresh k s pe pr n (paired s es rs pe pr fe fr nb ce cr n refl)).1)
  ]

  Received-alone :
      ((es : TextSet) → find s ev.emitters ≡ some es → NoMeeting es rs) → Received o ev pr s
  Received-alone alone = (
    false,
    Held-block o ev t fresh k pr (recv_event s) (not_stuck pr rs cr (k.receivers s rs fr))
        (receiver_blocked s rs pr fr cr alone refl),
  )

-- From a writer with no vectors, each key once in the tables and no process called Stuck: every recorded
-- reception takes part in a vector, unless the process is the only emitter of the channel and another
-- process receives it too.
pub reception_covered :
    (o : Outputter) (ev : GlobalEvents) (s pr : Text) (rs : TextSet)
    → IsTable ev
    → vectors o.out ≡ []
    → NoStuck ev
    → find s ev.receivers ≡ some rs
    → contains pr rs ≡ true
    → Received o ev pr s ⊎ SelfReceiver ev s pr
reception_covered o ev s pr rs t fresh k fr cr =
    let alone = Received-alone o ev t fresh k s pr rs fr cr in
    elim (Option-cases (find s ev.emitters)) [
      | inl none_there ↦ inl (alone (λ es fe. cc))
      | inr (es, fe) ↦ elim (Bool-cases (some_partner es rs)) [
        | inr apart ↦ inl (
            alone
              (λ es' fe'. let q : es ≡ es' = cc in rw (← q) (some_partner-NoMeeting es rs apart)))
        | inl met ↦ elim (Bool-cases (has_partner pr es)) [
          | inl there ↦
              let (pe, c, n) = partner pr es there in
              inl (Received-from o ev t fresh k s pr rs fr cr pe es fe c (λ e. n (sym e)))
          | inr sole ↦
              let (pe, other, c, d, n) = meeting es rs met in
              let is_pr = has_partner-Alone pr es sole in
              let same_one = is_pr pe c in
              inr (record {
                emitters_of = es;
                receivers_of = rs;
                other = other;
                emits = fe;
                only = λ r c'. sym (is_pr r c');
                p_emits = rw same_one c;
                receives = fr;
                other_receives = d;
                differs = λ e. n (sym same_one ∙ e);
              })
        ]
      ]
    ]
