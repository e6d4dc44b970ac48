-- ===== src/Tchecker/Scope.antt =====
-- The processes and events that a line uses are declared by the lines before it
-- (src/utot-tchecker.hh).
use uppaal_to_tchecker.Base.{
  Text, true, List, [], ◌∷◌, ◌++◌, append_assoc, append-nil, ◌≡◌, refl, All, In, In-append_left,
  In-append_right, inl,
}
use mathlib.Core.Path.{subst, sym}
use uppaal_to_tchecker.Base.Maps.{contains}
use uppaal_to_tchecker.Tchecker.{
  Line, process, event, comment, location, edge, sync, Outputter, put, tau_event,
}
use uppaal_to_tchecker.Sync.{GlobalEvents}
use uppaal_to_tchecker.Utap.{Sync}
use uppaal_to_tchecker.Edges.{directed}
use uppaal_to_tchecker.Edges.Recorded.{recorded}

-- A location is of a declared process; an edge and each element of a vector are of one too, and their
-- events are declared.
abbrev pub Uses : List Line → Line → Type 0
Uses seen (location p id attr) = In (process p) seen
Uses seen (edge p src tgt e attr) = In (process p) seen × In (event e) seen
Uses seen (sync v) = All (λ x. In (process x.0) seen × In (event x.1.0) seen) v
Uses seen _ = Unit {0}

-- Lines that come after the lines `seen`.
abbrev pub IsScoped : List Line → List Line → Type 0
IsScoped seen [] = Unit {0}
IsScoped seen (l ∷ ls) = Uses seen l × IsScoped (seen ++ (l ∷ [])) ls

pub IsScoped-append :
    (seen xs ys : List Line)
    → IsScoped seen xs
    → IsScoped (seen ++ xs) ys
    → IsScoped seen (xs ++ ys)
IsScoped-append seen [] ys h k = subst (λ ls. IsScoped ls ys) (append-nil seen) k
IsScoped-append seen (x ∷ xs) ys h k = (
  h.0,
  IsScoped-append (seen ++ (x ∷ [])) xs ys h.1
      (subst (λ ls. IsScoped ls ys) (sym (append_assoc seen (x ∷ []) xs)) k),
)

-- An output in scope, with the lines of `base`, with the events of the labels, with the processes and
-- the events of the tables, and with `tau` if that is noted.
pub record IsSound (base : List Line) (ev : GlobalEvents) (o : Outputter) : Type 0 where
  pub scoped : IsScoped [] o.out
  pub kept : (l : Line) → In l base → In l o.out
  pub labelled : (t : Text) → contains t ev.labels ≡ true → In (event t) o.out
  pub entered :
      (d : Sync) (s p : Text)
      → recorded d s p ev ≡ true
      → In (process p) o.out × In (event (directed d s)) o.out
  pub tau : o.tau_generated ≡ true → In (event tau_event) o.out

module _ (base : List Line) (ev : GlobalEvents) (o : Outputter) (h : IsSound base ev o) where
  pub put-IsSound : (l : Line) → Uses o.out l → IsSound base ev (put o l)
  unfolding put
  put-IsSound l k =
      let more = λ (x : Line) (i : In x o.out). In-append_left x o.out (l ∷ []) i in
      record {
        scoped = IsScoped-append [] o.out (l ∷ []) h.scoped (k, tt);
        kept = λ x i. more x (h.kept x i);
        labelled = λ t c. more (event t) (h.labelled t c);
        entered = λ d s p c.
            let (i, j) = h.entered d s p c in (more (process p) i, more (event (directed d s)) j);
        tau = λ t. more (event tau_event) (h.tau t);
      }

  pub put-comment-IsSound : (t : Text) → IsSound base ev (put o (comment t))
  put-comment-IsSound t = put-IsSound (comment t) tt

-- The line that was put is there.
pub put-In : (o : Outputter) (l : Line) → In l (put o l).out
unfolding put
put-In o l = In-append_right l o.out (l ∷ []) (inl refl)

pub put-kept : (o : Outputter) (l x : Line) → In x o.out → In x (put o l).out
unfolding put
put-kept o l x i = In-append_left x o.out (l ∷ []) i
