-- ===== src/Processes/Written.antt =====
-- The vectors of the whole output (src/utot-translate.cc).
use uppaal_to_tchecker.Base.{ℕ, Text, List, [], ◌∷◌, ◌≡◌, refl, ◌↔◌, In, arith, All}
use uppaal_to_tchecker.Outcome.{Outcome, ok, thrown, fault, out_of_fuel, ◌>>=◌, Ensures-at}
use uppaal_to_tchecker.Utap.{Utap}
use uppaal_to_tchecker.Tchecker.{
  Line, clock, intvar, event, edge, sync, Outputter, Vector, comment, process, location, system,
  blank,
}
use uppaal_to_tchecker.Decl.Lines.{Holds}
use uppaal_to_tchecker.Model.{System}
use uppaal_to_tchecker.Sync.{generate_sync_vectors}
use uppaal_to_tchecker.Sync.Plan.{Request, vector_of}
use uppaal_to_tchecker.Sync.Meaning.{Expected}
use uppaal_to_tchecker.Sync.Lines.{vectors}
use uppaal_to_tchecker.Sync.Written.{written_iff}
use uppaal_to_tchecker.Edges.Tables.{Writes}
use uppaal_to_tchecker.Processes.{Progress, translate_parts, translate_model}
use uppaal_to_tchecker.Processes.Tables.{translate_parts-Clean}

abbrev pub NoVector : Line → Type 0
NoVector (sync v) = ⊥
NoVector _ = Unit {0}

pub vectors-NoVector : (ls : List Line) → All NoVector ls → vectors ls ≡ []
vectors-NoVector [] h = refl
vectors-NoVector (sync v ∷ ls) h = absurd h.0
vectors-NoVector (system t ∷ ls) h = vectors-NoVector ls h.1
vectors-NoVector (process t ∷ ls) h = vectors-NoVector ls h.1
vectors-NoVector (event t ∷ ls) h = vectors-NoVector ls h.1
vectors-NoVector (comment t ∷ ls) h = vectors-NoVector ls h.1
vectors-NoVector (clock t n ∷ ls) h = vectors-NoVector ls h.1
vectors-NoVector (intvar a b c t n ∷ ls) h = vectors-NoVector ls h.1
vectors-NoVector (location p t a ∷ ls) h = vectors-NoVector ls h.1
vectors-NoVector (edge p s t e a ∷ ls) h = vectors-NoVector ls h.1
vectors-NoVector (blank ∷ ls) h = vectors-NoVector ls h.1

pub NoVector-Writes : Writes NoVector
NoVector-Writes = record {
  of_declaration = record {
    of_comment = λ t. tt;
    of_clock = λ id size. tt;
    of_intvar = λ low high init size id b. tt;
  };
  of_system = λ t. tt;
  of_process = λ t. tt;
  of_event = λ t. tt;
  of_location = λ p t a. tt;
  of_edge = λ p s t e a. tt;
  of_blank = tt;
}

-- A translation that succeeds, from a writer with no vectors: the vectors of the output are exactly
-- those that the tables of events, as the translation of the declarations, processes and edges leaves
-- them, ask for.
pub translate_model-written :
    (u : Utap) (g f : ℕ) (name : Text) (s : System) (o o' : Outputter)
    → Holds NoVector o
    → translate_model u g f name s o ≡ ok o'
    → (st : Progress) × (translate_parts u g f name s o ≡ ok st)
      × ((v : Vector)
          → In v (vectors o'.out) ↔ ((r : Request) × Expected st.events r × (v ≡ vector_of r)))
unfolding translate_model
translate_model-written u g f name s o o' h e = ended (translate_parts u g f name s o) refl e
  where
    ended :
        (parts : Outcome Progress)
        → translate_parts u g f name s o ≡ parts
        → (parts >>= λ st. ok (generate_sync_vectors st.tckout st.events)) ≡ ok o'
        → (st : Progress) × (translate_parts u g f name s o ≡ ok st)
          × ((v : Vector)
              → In v (vectors o'.out) ↔ ((r : Request) × Expected st.events r × (v ≡ vector_of r)))
    ended (ok st) q e =
        let clean =
          Ensures-at (translate_parts-Clean NoVector NoVector-Writes u g f name s o h) st q in
        let out : generate_sync_vectors st.tckout st.events ≡ o' = cc in
        (
          st,
          q,
          λ v. rw (← out) (
              written_iff st.tckout st.events v clean.table
                (vectors-NoVector st.tckout.out clean.unsynced)),
        )
    ended thrown q e = absurd (ground arith)
    ended fault q e = absurd (ground arith)
    ended out_of_fuel q e = absurd (ground arith)
