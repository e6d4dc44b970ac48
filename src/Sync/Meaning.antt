-- ===== src/Sync/Meaning.antt =====
-- Which vectors a model gets, said of the tables of events without any loop
-- (src/utot-translate.cc, doc/translation.md).
use uppaal_to_tchecker.Base.{
  ◌≤◌, Text, same, same_iff, same_refl, same-ne, true, false, none, some, [], ◌∷◌, length, ◌≡◌, ◌≢◌,
  refl, arith, Bool-cases, inl, inr,
}
use uppaal_to_tchecker.Base.Maps.{TextSet, find, contains, Distinct}
use uppaal_to_tchecker.Sync.{GlobalEvents, emit_event, recv_event, csp_event}
use uppaal_to_tchecker.Sync.Plan.{
  Request, synchronise, block, pair_vector, broadcast_vector, has_partner, some_partner, csp_vector,
}

-- Each key of a table stands once.
pub record IsTable (ev : GlobalEvents) : Type 0 where
  pub emitters : Distinct ev.emitters
  pub receivers : Distinct ev.receivers
  pub csp : Distinct ev.csp

-- Every process of `rs` is `pe`.
abbrev pub Alone : Text → TextSet → Type 0
Alone pe rs = (pr : Text) → contains pr rs ≡ true → pe ≡ pr

pub has_partner_of :
    (pe pr : Text) (rs : TextSet) → contains pr rs ≡ true → pe ≢ pr → has_partner pe rs ≡ true
unfolding contains
has_partner_of pe pr [] c n = cc
has_partner_of pe pr (q ∷ rs) c n =
    ground (arith, has_partner_of pe pr rs, same_iff pe q, same_iff q pr)

pub has_partner-Alone : (pe : Text) (rs : TextSet) → has_partner pe rs ≡ false → Alone pe rs
has_partner-Alone pe rs h pr c = elim (Bool-cases (same pe pr)) [
  | inl e ↦ (same_iff pe pr).0 e
  | inr n ↦ cc (has_partner_of pe pr rs c (same-ne pe pr n))
]

pub partner :
    (pe : Text) (rs : TextSet)
    → has_partner pe rs ≡ true
    → (pr : Text) × (contains pr rs ≡ true) × (pe ≢ pr)
unfolding contains
partner pe [] h = absurd (ground arith)
partner pe (q ∷ rs) h = elim (Bool-cases (same pe q)) [
  | inl e ↦ let (pr, c, n) = partner pe rs (ground arith) in (pr, ground arith, n)
  | inr n ↦ (q, ground (arith, same_refl q), same-ne pe q n)
]

pub Alone-has_partner : (pe : Text) (rs : TextSet) → Alone pe rs → has_partner pe rs ≡ false
Alone-has_partner pe rs alone = elim (Bool-cases (has_partner pe rs)) [
  | inl e ↦ let (pr, c, n) = partner pe rs e in absurd (n (alone pr c))
  | inr e ↦ e
]

-- No two distinct processes meet: every emitter is every receiver.
abbrev pub NoMeeting : TextSet → TextSet → Type 0
NoMeeting es rs = (pe : Text) → contains pe es ≡ true → Alone pe rs

pub some_partner-NoMeeting : (es rs : TextSet) → some_partner es rs ≡ false → NoMeeting es rs
unfolding contains
some_partner-NoMeeting [] rs h pe c = cc
some_partner-NoMeeting (q ∷ es) rs h pe c = elim (Bool-cases (same q pe)) [
  | inl e ↦ rw (← (same_iff q pe).0 e) (has_partner-Alone q rs (ground arith))
  | inr n ↦ some_partner-NoMeeting es rs (ground arith) pe (ground arith)
]

pub NoMeeting-some_partner : (es rs : TextSet) → NoMeeting es rs → some_partner es rs ≡ false
unfolding contains
NoMeeting-some_partner [] rs h = refl
NoMeeting-some_partner (q ∷ es) rs h = ground (
  arith,
  Alone-has_partner q rs (h q (ground (arith, same_refl q))),
  NoMeeting-some_partner es rs (λ pe c. h pe (ground arith)),
)

-- What the tables of events ask for: one rule for each kind of vector.
pub data Expected (ev : GlobalEvents) (r : Request) : Type 0 where
  -- An emitter and another process that receives on the same channel.
  paired :
      (s : Text) (es rs : TextSet) (pe pr : Text)
      → find s ev.emitters ≡ some es
      → find s ev.receivers ≡ some rs
      → contains s ev.brodcasts ≡ false
      → contains pe es ≡ true
      → contains pr rs ≡ true
      → pe ≢ pr
      → r ≡ synchronise (pair_vector s pe pr)
      → Expected ev r
  -- An emitter on a broadcast channel that another process receives on.
  cast :
      (s : Text) (es rs : TextSet) (pe pr : Text)
      → find s ev.emitters ≡ some es
      → find s ev.receivers ≡ some rs
      → contains s ev.brodcasts ≡ true
      → contains pe es ≡ true
      → contains pr rs ≡ true
      → pe ≢ pr
      → r ≡ synchronise (broadcast_vector s pe rs)
      → Expected ev r
  -- An emitter on a channel that no other process receives on.
  emitter_blocked :
      (s : Text) (es : TextSet) (pe : Text)
      → find s ev.emitters ≡ some es
      → contains s ev.brodcasts ≡ false
      → contains pe es ≡ true
      → ((rs : TextSet) → find s ev.receivers ≡ some rs → Alone pe rs)
      → r ≡ block pe (emit_event s)
      → Expected ev r
  -- A receiver on a channel on which no two distinct processes meet.
  receiver_blocked :
      (s : Text) (rs : TextSet) (pr : Text)
      → find s ev.receivers ≡ some rs
      → contains pr rs ≡ true
      → ((es : TextSet) → find s ev.emitters ≡ some es → NoMeeting es rs)
      → r ≡ block pr (recv_event s)
      → Expected ev r
  -- A process with a CSP label and no IO section.
  csp_blocked :
      (s : Text) (ps : TextSet) (p : Text)
      → find s ev.csp ≡ some ps
      → contains p ps ≡ true
      → find p ev.allowed_csp ≡ none
      → r ≡ block p (csp_event s)
      → Expected ev r
  -- At least two processes whose IO sections name the label.
  csp_joined :
      (s : Text) (ps : TextSet)
      → find s ev.csp ≡ some ps
      → 2 ≤ length (csp_vector ev.allowed_csp s ps [])
      → r ≡ synchronise (csp_vector ev.allowed_csp s ps [])
      → Expected ev r
