-- ===== src/Sync/Lines.antt =====
-- The lines that the plan comes to: where the process Stuck is declared, and which vectors there are
-- (src/utot-translate.cc).
use uppaal_to_tchecker.Base.{
  Text, codes, Bool, true, false, List, [], ◌∷◌, ◌++◌, gather, map, ◌≡◌, refl, ap, sym, ◌∙◌,
  append_assoc, append-nil,
}
use uppaal_to_tchecker.Base.Maps.{Distinct}
use uppaal_to_tchecker.Tchecker.{
  Vector, Line, Outputter, process, event, comment, location, sync, location_initial,
}
use uppaal_to_tchecker.Sync.{
  GlobalEvents, Writer, stuck_process, no_sync_event, generate_blocked_event, generate_sync_vectors,
}
use uppaal_to_tchecker.Sync.Plan.{
  Request, synchronise, block, vector_of, perform, perform_all, plan,
}
use uppaal_to_tchecker.Sync.Total.{generate_sync_vectors-plan}

-- The declaration of the process Stuck.
abbrev pub stuck_lines : List Line
stuck_lines =
    comment (codes "dummy process used to block emitted/received events that aren't synchronized.")
    ∷ process stuck_process
    ∷ event no_sync_event
    ∷ location stuck_process (codes "sink") ((location_initial, []) ∷ [])
    ∷ []

-- The lines for a list of requests; the flag says that Stuck has still to be declared.
abbrev pub lines : Bool → List Request → List Line
lines flag [] = []
lines flag (synchronise v ∷ rs) = sync v ∷ lines flag rs
lines true (block p ev ∷ rs) = stuck_lines ++ sync (vector_of (block p ev)) ∷ lines false rs
lines false (block p ev ∷ rs) = sync (vector_of (block p ev)) ∷ lines false rs

block-lines :
    (o : Outputter) (flag : Bool) (p ev : Text) (rs : List Request)
    → (generate_blocked_event
          (record { tckout = o; add_stuck_process = flag })
          ev
          p
          (λ e. e)).tckout.out
        ++ lines false rs
      ≡ o.out ++ lines flag (block p ev ∷ rs)
unfolding generate_blocked_event
block-lines o true p ev rs = simp append_assoc
block-lines o false p ev rs = simp append_assoc

perform_all-lines :
    (w : Writer) (rs : List Request)
    → (perform_all w rs).tckout.out ≡ w.tckout.out ++ lines w.add_stuck_process rs
unfolding perform_all perform generate_blocked_event
perform_all-lines w [] = rw append-nil
perform_all-lines w (synchronise v ∷ rs) =
    perform_all-lines (perform w (synchronise v)) rs ∙ rw append_assoc
perform_all-lines w (block p ev ∷ rs) =
    perform_all-lines (perform w (block p ev)) rs ∙ block-lines w.tckout w.add_stuck_process p ev rs

-- With each channel once among the emitters, s_generate_sync_vectors adds the plan's vectors in
-- order, with one declaration of the process Stuck just before the first vector that blocks an event,
-- and none if there is no such vector.
pub generate_sync_vectors-lines :
    (o : Outputter) (ev : GlobalEvents)
    → Distinct ev.emitters
    → (generate_sync_vectors o ev).out ≡ o.out ++ lines true (plan ev)
generate_sync_vectors-lines o ev d =
    rw (generate_sync_vectors-plan o ev d)
      (perform_all-lines (record { tckout = o; add_stuck_process = true }) (plan ev))

abbrev pub vectors_of : Line → List Vector
vectors_of (sync v) = v ∷ []
vectors_of _ = []

-- The synchronisation vectors among some lines.
abbrev pub vectors : List Line → List Vector
vectors = gather vectors_of

pub vectors-append : (xs ys : List Line) → vectors (xs ++ ys) ≡ vectors xs ++ vectors ys
vectors-append [] ys = refl
vectors-append (x ∷ xs) ys =
    ap (λ v. vectors_of x ++ v) (vectors-append xs ys)
    ∙ sym (append_assoc (vectors_of x) (vectors xs) (vectors ys))

vectors-lines : (flag : Bool) (rs : List Request) → vectors (lines flag rs) ≡ map vector_of rs
vectors-lines flag [] = refl
vectors-lines flag (synchronise v ∷ rs) = ap (λ vs. v ∷ vs) (vectors-lines flag rs)
vectors-lines true (block p ev ∷ rs) =
    ap (λ vs. vector_of (block p ev) ∷ vs) (vectors-lines false rs)
vectors-lines false (block p ev ∷ rs) =
    ap (λ vs. vector_of (block p ev) ∷ vs) (vectors-lines false rs)

-- The vectors written are those of the plan, in order.
pub vectors-generate_sync_vectors :
    (o : Outputter) (ev : GlobalEvents)
    → Distinct ev.emitters
    → vectors (generate_sync_vectors o ev).out ≡ vectors o.out ++ map vector_of (plan ev)
vectors-generate_sync_vectors o ev d =
    ap vectors (generate_sync_vectors-lines o ev d)
    ∙ vectors-append o.out (lines true (plan ev))
    ∙ ap (λ vs. vectors o.out ++ vs) (vectors-lines true (plan ev))
