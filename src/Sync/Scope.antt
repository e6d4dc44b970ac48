-- ===== src/Sync/Scope.antt =====
-- The vectors use declared processes and events (src/utot-translate.cc).
use mathlib.Core.Path.{subst, sym}
use uppaal_to_tchecker.Base.{
  Text, same, same_refl, less, arith, Bool, true, false, some, none, List, [], ◌∷◌, ◌++◌, ◌≡◌, refl,
  All, In, In-append_left, In-append_right, Bool-cases, inl, inr, if◌then◌else◌, Option,
}
use uppaal_to_tchecker.Base.Maps.{Dict, TextSet, find, emplace, place, contains, has}
use uppaal_to_tchecker.Tchecker.{Line, process, event, sync, Vector}
use uppaal_to_tchecker.Tchecker.Scope.{IsScoped, IsScoped-append}
use uppaal_to_tchecker.Utap.{Sync, sync_bang, sync_que, sync_csp}
use uppaal_to_tchecker.Edges.{directed}
use uppaal_to_tchecker.Edges.Recorded.{recorded}
use uppaal_to_tchecker.Sync.{
  GlobalEvents, emit_event, recv_event, stuck_process, no_sync_event, add_receivers,
}
use uppaal_to_tchecker.Sync.Plan.{Request, synchronise, block, vector_of, csp_vector, csp_join}
use uppaal_to_tchecker.Sync.Lines.{stuck_lines, lines}
use uppaal_to_tchecker.Sync.Meaning.{
  Expected, paired, cast, emitter_blocked, receiver_blocked, csp_blocked, csp_joined,
}

-- The process and the event of an element are declared.
abbrev pub Known : List Line → Text × (Text × Bool) → Type 0
Known seen x = In (process x.0) seen × In (event x.1.0) seen

-- The processes and the events of the tables are declared.
abbrev pub AllKnown : List Line → GlobalEvents → Type 0
AllKnown seen ev =
    (d : Sync) (s p : Text)
    → recorded d s p ev ≡ true
    → In (process p) seen × In (event (directed d s)) seen

module _ (seen : List Line) where
  place-Known :
      (k : Text) (x : Text × Bool) (v : Vector)
      → Known seen (k, x)
      → All (Known seen) v
      → All (Known seen) (place k x v)
  unfolding place
  place-Known k x [] i h = (i, tt)
  place-Known k x ((j, y) ∷ v) i h = elim (Bool-cases (less k j)) [
    | inl e ↦ rw e (i, h)
    | inr e ↦ rw e (h.0, place-Known k x v i h.1)
  ]

  emplace-Known :
      (k : Text) (x : Text × Bool) (v : Vector)
      → Known seen (k, x)
      → All (Known seen) v
      → All (Known seen) (emplace k x v)
  unfolding emplace
  emplace-Known k x v i h = elim (Bool-cases (has k v)) [
    | inl e ↦ rw e h
    | inr e ↦ rw e (place-Known k x v i h)
  ]

  receivers-Known :
      (s pe : Text) (rs : TextSet) (v : Vector)
      → ((pr : Text) → contains pr rs ≡ true → Known seen (pr, (recv_event s, true)))
      → All (Known seen) v
      → All (Known seen) (add_receivers s pe rs v)
  unfolding add_receivers contains
  receivers-Known s pe [] v k h = h
  receivers-Known s pe (pr ∷ rs) v k h =
      receivers-Known s pe rs _ (λ q c. k q (ground (arith, c))) (kept (same pe pr))
    where
      kept : (b : Bool) → All (Known seen) (if b then v else emplace pr (recv_event s, true) v)
      kept true = h
      kept false = emplace-Known pr (recv_event s, true) v (k pr (ground (arith, same_refl pr))) h

  csp_vector-Known :
      (allowed : Dict TextSet) (s : Text) (ps : TextSet) (v : Vector)
      → ((p : Text) → contains p ps ≡ true → Known seen (p, (s, false)))
      → All (Known seen) v
      → All (Known seen) (csp_vector allowed s ps v)
  unfolding contains
  csp_vector-Known allowed s [] v k h = h
  csp_vector-Known allowed s (p ∷ ps) v k h =
      csp_vector-Known allowed s ps _ (λ q c. k q (ground (arith, c))) (joined (find p allowed))
    where
      joined : (o : Option TextSet) → All (Known seen) (csp_join s p o v)
      joined none = h
      joined (some set) = elim (Bool-cases (contains s set)) [
        | inl e ↦ rw e (emplace-Known p (s, false) v (k p (ground (arith, same_refl p))) h)
        | inr e ↦ rw e h
      ]

  -- A request for processes and events that are declared.
  abbrev pub IsKnown : Request → Type 0
  IsKnown (synchronise v) = All (Known seen) v
  IsKnown (block p ev) = Known seen (p, (ev, false))

  pub Expected-IsKnown :
      (ev : GlobalEvents) (r : Request) → AllKnown seen ev → Expected ev r → IsKnown r
  Expected-IsKnown ev r k (paired s es rs pe pr q q' b c c' n e) = subst IsKnown (sym e) (
      emplace-Known pr (recv_event s, false) _ (k sync_que s pr (rw q' c'))
        (emplace-Known pe (emit_event s, false) [] (k sync_bang s pe (rw q c)) tt))
  Expected-IsKnown ev r k (cast s es rs pe pr q q' b c c' n e) = subst IsKnown (sym e) (
      receivers-Known s pe rs _ (λ p i. k sync_que s p (rw q' i))
        (emplace-Known pe (emit_event s, false) [] (k sync_bang s pe (rw q c)) tt))
  Expected-IsKnown ev r k (emitter_blocked s es pe q b c n e) =
      subst IsKnown (sym e) (k sync_bang s pe (rw q c))
  Expected-IsKnown ev r k (receiver_blocked s rs pr q c n e) =
      subst IsKnown (sym e) (k sync_que s pr (rw q c))
  Expected-IsKnown ev r k (csp_blocked s ps p q c n e) =
      subst IsKnown (sym e) (k sync_csp s p (rw q c))
  Expected-IsKnown ev r k (csp_joined s ps q l e) =
      subst IsKnown (sym e)
        (csp_vector-Known ev.allowed_csp s ps [] (λ p i. k sync_csp s p (rw q i)) tt)

-- More lines are seen.
module _ (seen ls : List Line) where
  grown : (x : Text × (Text × Bool)) → Known seen x → Known (seen ++ ls) x
  grown x k = (In-append_left _ seen ls k.0, In-append_left _ seen ls k.1)

  all_grown : (v : Vector) → All (Known seen) v → All (Known (seen ++ ls)) v
  all_grown [] h = tt
  all_grown (x ∷ v) h = (grown x h.0, all_grown v h.1)

  requests_grown : (rs : List Request) → All (IsKnown seen) rs → All (IsKnown (seen ++ ls)) rs
  requests_grown [] h = tt
  requests_grown (synchronise v ∷ rs) h = (all_grown v h.0, requests_grown rs h.1)
  requests_grown (block p ev ∷ rs) h = (grown (p, (ev, false)) h.0, requests_grown rs h.1)

abbrev stuck : Text × (Text × Bool)
stuck = (stuck_process, (no_sync_event, false))

-- Vectors after the lines `seen`, where the process Stuck has been declared.
blocked_lines :
    (seen : List Line) (rs : List Request)
    → All (IsKnown seen) rs
    → Known seen stuck
    → IsScoped seen (lines false rs)
blocked_lines seen [] h k = tt
blocked_lines seen (synchronise v ∷ rs) h k =
    let one = sync v ∷ [] in
    (h.0, blocked_lines (seen ++ one) rs (requests_grown seen one rs h.1) (grown seen one stuck k))
blocked_lines seen (block p ev ∷ rs) h k =
    let one = sync (vector_of (block p ev)) ∷ [] in
    (
      emplace-Known seen stuck_process (no_sync_event, false) _ k
          (emplace-Known seen p (ev, false) [] h.0 tt),
      blocked_lines (seen ++ one) rs (requests_grown seen one rs h.1) (grown seen one stuck k),
    )

declared_before : (seen : List Line) (l x : Line) → In x ((seen ++ (x ∷ [])) ++ (l ∷ []))
declared_before seen l x =
    In-append_left x (seen ++ (x ∷ [])) (l ∷ []) (In-append_right x seen (x ∷ []) (inl refl))

stuck_lines-IsScoped : (seen : List Line) → IsScoped seen stuck_lines
stuck_lines-IsScoped seen = (
  tt,
  (
    tt,
    (tt, (declared_before (seen ++ (_ ∷ [])) (event no_sync_event) (process stuck_process), tt)),
  ),
)

-- Vectors after the lines `seen`, with the declaration of Stuck before the first one that needs it.
pub lines-IsScoped :
    (seen : List Line) (rs : List Request) → All (IsKnown seen) rs → IsScoped seen (lines true rs)
lines-IsScoped seen [] h = tt
lines-IsScoped seen (synchronise v ∷ rs) h =
    let one = sync v ∷ [] in (h.0, lines-IsScoped (seen ++ one) rs (requests_grown seen one rs h.1))
lines-IsScoped seen (block p ev ∷ rs) h =
    let known : Known (seen ++ stuck_lines) stuck = (
      In-append_right (process stuck_process) seen stuck_lines (inr (inl refl)),
      In-append_right (event no_sync_event) seen stuck_lines (inr (inr (inl refl))),
    ) in
    IsScoped-append seen stuck_lines (sync (vector_of (block p ev)) ∷ lines false rs)
      (stuck_lines-IsScoped seen)
      (blocked_lines (seen ++ stuck_lines) (block p ev ∷ rs)
        (requests_grown seen stuck_lines (block p ev ∷ rs) h) known)

-- The requests that declared tables expect are for what is declared.
pub requests-IsKnown :
    (seen : List Line) (ev : GlobalEvents) (rs : List Request)
    → AllKnown seen ev
    → ((r : Request) → In r rs → Expected ev r)
    → All (IsKnown seen) rs
requests-IsKnown seen ev [] k h = tt
requests-IsKnown seen ev (r ∷ rs) k h = (
  Expected-IsKnown seen ev r k (h r (inl refl)),
  requests-IsKnown seen ev rs k (λ r i. h r (inr i)),
)
