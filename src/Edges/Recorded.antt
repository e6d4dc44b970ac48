-- ===== src/Edges/Recorded.antt =====
-- What the labels of edges leave in the tables of events (src/utot-translate.cc).
use uppaal_to_tchecker.Base.{
  ℕ, Text, same, same_iff, same_refl, Bool, true, false, ◌&&◌, ◌||◌, Option, none, some, Bool-cases,
  Option-cases, inl, inr, [], if◌then◌else◌, ◌≡◌, refl, ap, ◌∙◌, arith,
}
use uppaal_to_tchecker.Base.Maps.{
  Dict, TextSet, find, find-emplace, find-update, has-eq-find, find-none, contains, insert,
  contains-insert,
}
use uppaal_to_tchecker.Outcome.{ok, Ensures, ensuring}
use uppaal_to_tchecker.Utap.{Sync, Expr, Utap, sync_que, sync_bang, sync_csp, sync_on}
use uppaal_to_tchecker.Prefix.{Prefix, string_of}
use uppaal_to_tchecker.Expr.{Mapping}
use uppaal_to_tchecker.Translate.{translate_expression}
use uppaal_to_tchecker.Sync.{GlobalEvents}
use uppaal_to_tchecker.Edges.{
  Emission, get_sync, enter, add_process, directed, record_event, declare_local, declare_label,
  build_edge_label,
}

abbrev pub entered : Text → Option TextSet → Bool
entered p none = false
entered p (some set) = contains p set

abbrev pub table : Sync → GlobalEvents → Dict TextSet
table sync_bang ev = ev.emitters
table sync_que ev = ev.receivers
table sync_csp ev = ev.csp

-- The process stands under the channel in the table of the direction.
abbrev pub recorded : Sync → Text → Text → GlobalEvents → Bool
recorded d s p ev = entered p (find s (table d ev))

abbrev pub same_sync : Sync → Sync → Bool
same_sync sync_bang sync_bang = true
same_sync sync_que sync_que = true
same_sync sync_csp sync_csp = true
same_sync _ _ = false

entered-add_process :
    (s p k q : Text) (t : Dict TextSet)
    → entered q (find k (add_process s p t)) ≡ ((same s k && same p q) || entered q (find k t))
unfolding add_process enter contains insert
entered-add_process s p k q t = elim (Option-cases (find s t)) [
  | inl absent ↦ rw absent (
      ground (
        arith,
        find-emplace s k (insert p []) t,
        find-none s t absent,
        same_iff s k,
        ap (λ j. find j t) {x = s} {y = k},
      ))
  | inr (set, there) ↦ rw there (
      ground (
        arith,
        find-update s k (insert p set) t,
        has-eq-find s t,
        contains-insert p q set,
        same_iff s k,
      ))
]

pub recorded-record :
    (d e : Sync) (s p k q : Text) (ev : GlobalEvents)
    → recorded e k q (record_event d s p ev)
      ≡ ((same_sync d e && (same s k && same p q)) || recorded e k q ev)
unfolding record_event
recorded-record sync_bang sync_bang s p k q ev = entered-add_process s p k q ev.emitters
recorded-record sync_que sync_que s p k q ev = entered-add_process s p k q ev.receivers
recorded-record sync_csp sync_csp s p k q ev = entered-add_process s p k q ev.csp
recorded-record sync_bang sync_que s p k q ev = refl
recorded-record sync_bang sync_csp s p k q ev = refl
recorded-record sync_que sync_bang s p k q ev = refl
recorded-record sync_que sync_csp s p k q ev = refl
recorded-record sync_csp sync_bang s p k q ev = refl
recorded-record sync_csp sync_que s p k q ev = refl

-- Recording adds one process under one channel in the table of one direction; it adds none elsewhere,
-- and leaves the labels, the broadcast channels and the labels of IO sections as they are.
pub recorded-record_event :
    (d e : Sync) (s p k q : Text) (ev : GlobalEvents)
    → (recorded e k q (record_event d s p ev)
        ≡ ((same_sync d e && (same s k && same p q)) || recorded e k q ev))
      × ((record_event d s p ev).labels ≡ ev.labels)
      × ((record_event d s p ev).brodcasts ≡ ev.brodcasts)
      × ((record_event d s p ev).allowed_csp ≡ ev.allowed_csp)
unfolding record_event
recorded-record_event d e s p k q ev =
    let (l, b, c) = others d in (recorded-record d e s p k q ev, l, b, c)
  where
    others :
        (d : Sync)
        → ((record_event d s p ev).labels ≡ ev.labels)
          × ((record_event d s p ev).brodcasts ≡ ev.brodcasts)
          × ((record_event d s p ev).allowed_csp ≡ ev.allowed_csp)
    others sync_bang = (refl, refl, refl)
    others sync_que = (refl, refl, refl)
    others sync_csp = (refl, refl, refl)

same_sync_refl : (d : Sync) → same_sync d d ≡ true
same_sync_refl sync_bang = refl
same_sync_refl sync_que = refl
same_sync_refl sync_csp = refl

record_event-recorded :
    (d : Sync) (s p : Text) (ev : GlobalEvents) → recorded d s p (record_event d s p ev) ≡ true
record_event-recorded d s p ev =
    rw (recorded-record d d s p s p ev, same_sync_refl d, same_refl s, same_refl p) refl

declare_local-events :
    (l : Bool) (ev : Text) (em : Emission) → (declare_local l ev em).events ≡ em.events
unfolding declare_local
declare_local-events false ev em = refl
declare_local-events true ev em = elim (Bool-cases (contains ev em.local_events)) [
  | inl known ↦ rw known refl
  | inr new ↦ rw new refl
]

declare_label-recorded :
    (c : Bool) (s ev : Text) (em : Emission) (e : Sync) (k q : Text)
    → recorded e k q (declare_label c s ev em).events ≡ recorded e k q em.events
unfolding declare_label
declare_label-recorded c s ev em sync_bang k q = ground arith
declare_label-recorded c s ev em sync_que k q = ground arith
declare_label-recorded c s ev em sync_csp k q = ground arith

-- Whatever the tables of `em` say, those of `em'` say.
abbrev pub Keeps : Emission → Emission → Type 0
Keeps em em' =
    (e : Sync) (k q : Text) → recorded e k q em.events ≡ true → recorded e k q em'.events ≡ true

-- A label is recorded: the process under the name of the channel, in the table of the direction.
abbrev pub Labelled : Utap → Mapping → ℕ → ℕ → Prefix → Expr → Sync → Emission → Type 0
Labelled u m g f ctx e d em =
    (s : Text) × (translate_expression u (some m) g
        (if u.has_parent (u.get_symbol e) then ctx else []) f e
      ≡ ok s)
    × (recorded d s (string_of ctx) em.events ≡ true)

module _ (u : Utap) (g f : ℕ) (ctx : Prefix) where
  module _ (m : Mapping) (d : Sync) (x : Expr) (em : Emission) where
    abbrev pub Label : Text × Emission → Type 0
    Label (ev, em') = Keeps em em' × Labelled u m g f ctx (sync_on d x) d em'

    labelled :
        (l c : Bool) (s : Text)
        → translate_expression u
            (some m)
            g
            (if u.has_parent (u.get_symbol (sync_on d x)) then ctx else [])
            f
            (sync_on d x)
          ≡ ok s
        → Label (
          directed d s,
          record (declare_label c s (directed d s) (declare_local l s em)) {
            events =
                record_event d s
                  (string_of ctx)
                  (declare_label c s (directed d s) (declare_local l s em)).events;
          },
        )
    labelled l c s q =
        let em1 = declare_local l s em in
        let em2 = declare_label c s (directed d s) em1 in
        (
          (λ e k r h.
              let before : recorded e k r em1.events ≡ true =
                ap (λ ev. recorded e k r ev) (declare_local-events l s em) ∙ h in
              let h2 = declare_label-recorded c s (directed d s) em1 e k r ∙ before in
              ground (arith, recorded-record d e s (string_of ctx) k r em2.events, h2)),
          (s, q, record_event-recorded d s (string_of ctx) em2.events),
        )

    pub build_edge_label-Label : Ensures Label (build_edge_label u m g f ctx (sync_on d x) em)
    unfolding build_edge_label get_sync
    build_edge_label-Label = search (ensuring, labelled) depth 8
