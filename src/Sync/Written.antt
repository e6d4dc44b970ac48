-- ===== src/Sync/Written.antt =====
-- The vectors that s_generate_sync_vectors writes (src/utot-translate.cc, doc/translation.md).
use uppaal_to_tchecker.Base.{
  ◌≤◌, Text, same, same_iff, Bool, true, false, Option, some, [], ◌++◌, map, length, ◌≡◌, ◌≢◌, ◌↔◌,
  ap, ◌∙◌, sym, arith, Bool-cases, inl, inr, In, In-map, map-In,
}
use uppaal_to_tchecker.Base.Maps.{TextSet, find, contains}
use uppaal_to_tchecker.Tchecker.{Vector, Outputter}
use uppaal_to_tchecker.Sync.{
  GlobalEvents, emit_event, recv_event, csp_event, stuck_process, no_sync_event,
  generate_sync_vectors,
}
use uppaal_to_tchecker.Sync.Plan.{Request, block, vector_of, pair_vector, broadcast_vector, plan}
use uppaal_to_tchecker.Sync.Lines.{vectors, vectors-generate_sync_vectors}
use uppaal_to_tchecker.Sync.Refines.{broadcast_vector-has_partner}
use uppaal_to_tchecker.Sync.Meaning.{
  IsTable, NoMeeting, has_partner_of, Expected, paired, cast, emitter_blocked, receiver_blocked,
  csp_blocked, csp_joined,
}
use uppaal_to_tchecker.Sync.Sound.{plan-Expected}
use uppaal_to_tchecker.Sync.Complete.{Expected-plan}
use uppaal_to_tchecker.Sync.Shapes.{
  recv_event-injective, emit-ne-recv, no_sync-ne-recv, double_length, find-pair_vector, find-block,
  find-broadcast_vector,
}

written-plan :
    (o : Outputter) (ev : GlobalEvents)
    → IsTable ev
    → vectors o.out ≡ []
    → vectors (generate_sync_vectors o ev).out ≡ map vector_of (plan ev)
written-plan o ev t fresh =
    vectors-generate_sync_vectors o ev t.emitters ∙ ap (λ vs. vs ++ map vector_of (plan ev)) fresh

-- From a writer with no vectors so far and each key once in the tables, the vectors written are exactly those that the tables of
-- events ask for: a vector is written if and only if some rule of `Expected` asks for it.
pub written_iff :
    (o : Outputter) (ev : GlobalEvents) (v : Vector)
    → IsTable ev
    → vectors o.out ≡ []
    → In v (vectors (generate_sync_vectors o ev).out)
      ↔ ((r : Request) × Expected ev r × (v ≡ vector_of r))
written_iff o ev v t fresh = (
  (λ h.
      let (r, i, e) = map-In vector_of (plan ev) v (rw (written-plan o ev t fresh) at h) in
      (r, plan-Expected ev r t i, e)),
  (λ (r, x, e).
      rw (written-plan o ev t fresh, e) (In-map vector_of (plan ev) r (Expected-plan ev r t x))),
)

-- No process of the model is called Stuck.
pub record NoStuck (ev : GlobalEvents) : Type 0 where
  pub emitters :
      (s : Text) (ps : TextSet) → find s ev.emitters ≡ some ps → contains stuck_process ps ≡ false
  pub receivers :
      (s : Text) (ps : TextSet) → find s ev.receivers ≡ some ps → contains stuck_process ps ≡ false
  pub csp : (s : Text) (ps : TextSet) → find s ev.csp ≡ some ps → contains stuck_process ps ≡ false

pub not_stuck :
    (p : Text) (ps : TextSet)
    → contains p ps ≡ true
    → contains stuck_process ps ≡ false
    → p ≢ stuck_process
not_stuck p ps c n e = cc (ap (λ q. contains q ps) e)

block_length : (p ev : Text) → p ≢ stuck_process → 2 ≤ length (vector_of (block p ev))
block_length p ev n =
    ground (arith, double_length p stuck_process (ev, false) (no_sync_event, false) n)

pub Expected-length :
    (ev : GlobalEvents) (r : Request) → NoStuck ev → Expected ev r → 2 ≤ length (vector_of r)
Expected-length ev r k (paired s es rs pe pr fe fr nb ce cr n q) =
    rw q (ground (arith, double_length pe pr (emit_event s, false) (recv_event s, false) n))
Expected-length ev r k (cast s es rs pe pr fe fr b ce cr n q) =
    rw q (ground (arith, broadcast_vector-has_partner s pe rs, has_partner_of pe pr rs cr n))
Expected-length ev r k (emitter_blocked s es pe fe nb ce alone q) =
    rw q (block_length pe (emit_event s) (not_stuck pe es ce (k.emitters s es fe)))
Expected-length ev r k (receiver_blocked s rs pr fr cr h q) =
    rw q (block_length pr (recv_event s) (not_stuck pr rs cr (k.receivers s rs fr)))
Expected-length ev r k (csp_blocked s ps p fc c fa q) =
    rw q (block_length p (csp_event s) (not_stuck p ps c (k.csp s ps fc)))
Expected-length ev r k (csp_joined s ps fc two q) = rw q two

-- From a writer with no vectors, each key once in the tables and no process called Stuck: every vector
-- that is written names at least two processes, which is what `outputter::sync` asserts.
pub written_two :
    (o : Outputter) (ev : GlobalEvents) (v : Vector)
    → IsTable ev
    → vectors o.out ≡ []
    → NoStuck ev
    → In v (vectors (generate_sync_vectors o ev).out)
    → 2 ≤ length v
written_two o ev v t fresh k h =
    let (r, x, e) = (written_iff o ev v t fresh).0 h in rw e (Expected-length ev r k x)

-- A process that takes part in no vector by an event of its own.
abbrev pub NeverReceives : Text → Text → Vector → Type 0
NeverReceives p s v = (weak : Bool) → find p v ≢ some (recv_event s, weak)

-- A channel on which `p` is the only emitter, and which both `p` and another process receive.
pub record SelfReceiver (ev : GlobalEvents) (s p : Text) : Type 0 where
  pub emitters_of : TextSet
  pub receivers_of : TextSet
  pub other : Text
  pub emits : find s ev.emitters ≡ some emitters_of
  pub only : (q : Text) → contains q emitters_of ≡ true → q ≡ p
  pub p_emits : contains p emitters_of ≡ true
  pub receives : find s ev.receivers ≡ some receivers_of
  pub other_receives : contains other receivers_of ≡ true
  pub differs : p ≢ other

no_csp : (s : Text) (ps : TextSet) → ¬ (find s [] ≡ some ps)
unfolding find
no_csp s ps h = cc

same_event :
    (a b : Text) (m n : Bool) → ◌≡◌ {A = Option (Text × Bool)} (some (a, m)) (some (b, n)) → a ≡ b
same_event a b m n h = ground arith

module _ (ev : GlobalEvents) (s p : Text) (self : SelfReceiver ev s p) where
  -- Whoever emits on the channel is `p`.
  sole :
      (s' pe : Text) (es : TextSet)
      → find s' ev.emitters ≡ some es
      → contains pe es ≡ true
      → recv_event s' ≡ recv_event s
      → pe ≡ p
  sole s' pe es fe ce h =
      let there : find s' ev.emitters ≡ some self.emitters_of =
        rw (recv_event-injective s' s h) self.emits in
      let q : es ≡ self.emitters_of = cc in self.only pe (rw (← q) ce)

  paired_Never :
      (s' pe pr : Text) (es : TextSet)
      → find s' ev.emitters ≡ some es
      → contains pe es ≡ true
      → pe ≢ pr
      → NeverReceives p s (pair_vector s' pe pr)
  paired_Never s' pe pr es fe ce d weak h =
      let shown = sym (find-pair_vector s' pe pr p d) ∙ h in
      elim (Bool-cases (same pr p)) [
        | inl e ↦
            let q = same_event (recv_event s') (recv_event s) false weak (rw e at shown) in
            d (sole s' pe es fe ce q ∙ sym ((same_iff pr p).0 e))
        | inr m ↦ elim (Bool-cases (same pe p)) [
          | inl e ↦
              emit-ne-recv s' s
                (same_event (emit_event s') (recv_event s) false weak (rw (m, e) at shown))
          | inr l ↦ absurd (ground arith)
        ]
      ]

  cast_Never :
      (s' pe : Text) (es rs : TextSet)
      → find s' ev.emitters ≡ some es
      → contains pe es ≡ true
      → NeverReceives p s (broadcast_vector s' pe rs)
  cast_Never s' pe es rs fe ce weak h =
      let shown = sym (find-broadcast_vector s' pe p rs) ∙ h in
      elim (Bool-cases (same pe p)) [
        | inl e ↦
            emit-ne-recv s' s (same_event (emit_event s') (recv_event s) false weak (rw e at shown))
        | inr m ↦ elim (Bool-cases (contains p rs)) [
          | inl c ↦
              let q = same_event (recv_event s') (recv_event s) true weak (rw (m, c) at shown) in
              absurd (ground (arith, same_iff pe p, sole s' pe es fe ce q))
          | inr l ↦ absurd (ground arith)
        ]
      ]

  -- A vector that blocks an event blocks no reception of `p` on the channel.
  block_Never :
      (q ev' : Text)
      → q ≢ stuck_process
      → (q ≡ p → ev' ≢ recv_event s)
      → NeverReceives p s (vector_of (block q ev'))
  block_Never q ev' d other weak h =
      let shown = sym (find-block q ev' p d) ∙ h in
      elim (Bool-cases (same stuck_process p)) [
        | inl e ↦
            no_sync-ne-recv s (same_event no_sync_event (recv_event s) false weak (rw e at shown))
        | inr m ↦ elim (Bool-cases (same q p)) [
          | inl e ↦
              other ((same_iff q p).0 e)
                (same_event ev' (recv_event s) false weak (rw (m, e) at shown))
          | inr l ↦ absurd (ground arith)
        ]
      ]

  received_Never :
      (s' pr : Text) (rs : TextSet)
      → find s' ev.receivers ≡ some rs
      → ((es : TextSet) → find s' ev.emitters ≡ some es → NoMeeting es rs)
      → recv_event s' ≢ recv_event s
  received_Never s' pr rs fr alone h =
      let e = recv_event-injective s' s h in
      let there : find s' ev.receivers ≡ some self.receivers_of = rw e self.receives in
      let q : rs ≡ self.receivers_of = cc in
      let c : contains self.other rs ≡ true = rw q self.other_receives in
      self.differs (alone self.emitters_of (rw e self.emits) p self.p_emits self.other c)

  Expected-Never :
      (r : Request) → NoStuck ev → ev.csp ≡ [] → Expected ev r → NeverReceives p s (vector_of r)
  Expected-Never r k none_csp (paired s' es rs pe pr fe fr nb ce cr d q) =
      rw q (paired_Never s' pe pr es fe ce d)
  Expected-Never r k none_csp (cast s' es rs pe pr fe fr b ce cr d q) =
      rw q (cast_Never s' pe es rs fe ce)
  Expected-Never r k none_csp (emitter_blocked s' es pe fe nb ce alone q) = rw q (
      block_Never pe (emit_event s') (not_stuck pe es ce (k.emitters s' es fe))
        (λ _. emit-ne-recv s' s))
  Expected-Never r k none_csp (receiver_blocked s' rs pr fr cr h q) = rw q (
      block_Never pr (recv_event s') (not_stuck pr rs cr (k.receivers s' rs fr))
        (λ _. received_Never s' pr rs fr h))
  Expected-Never r k none_csp (csp_blocked s' ps q' fc c fa q) =
      absurd (no_csp s' ps (rw none_csp at fc))
  Expected-Never r k none_csp (csp_joined s' ps fc two q) =
      absurd (no_csp s' ps (rw none_csp at fc))

-- From a writer with no vectors, each key once in the tables, no CSP label and no process called Stuck:
-- where a process is the only emitter of a channel that it and another process receive, no vector
-- written has it take part with its reception.
pub SelfReceiver-forgotten :
    (o : Outputter) (ev : GlobalEvents) (s p : Text) (v : Vector)
    → IsTable ev
    → vectors o.out ≡ []
    → NoStuck ev
    → ev.csp ≡ []
    → SelfReceiver ev s p
    → In v (vectors (generate_sync_vectors o ev).out)
    → NeverReceives p s v
SelfReceiver-forgotten o ev s p v t fresh k none_csp self h =
    let (r, x, e) = (written_iff o ev v t fresh).0 h in
    rw e (Expected-Never ev s p self r k none_csp x)
