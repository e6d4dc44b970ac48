-- ===== src/Processes/Asserted.antt =====
-- The assertions of the writer (src/utot-tchecker.hh) over the whole output (src/utot-translate.cc).
use uppaal_to_tchecker.Base.{
  ℕ, ◌≤◌, Text, Bool, true, false, List, [], ◌∷◌, length, All, All-append, ◌≡◌, refl, sym, ap, ◌∙◌,
  In, inl, inr,
}
use uppaal_to_tchecker.Base.Integers.{◌≤ℤ◌}
use uppaal_to_tchecker.Outcome.{ok, bind-ok, ok-injective, Ensures-at}
use uppaal_to_tchecker.Utap.{Utap}
use uppaal_to_tchecker.Tchecker.{Line, Outputter, intvar, sync}
use uppaal_to_tchecker.Decl.Lines.{Holds}
use uppaal_to_tchecker.Model.{System}
use uppaal_to_tchecker.Sync.{generate_sync_vectors}
use uppaal_to_tchecker.Sync.Plan.{Request, synchronise, block, vector_of, plan}
use uppaal_to_tchecker.Sync.Lines.{lines, generate_sync_vectors-lines}
use uppaal_to_tchecker.Sync.Sound.{plan-Expected}
use uppaal_to_tchecker.Sync.Written.{NoStuck, Expected-length}
use uppaal_to_tchecker.Edges.Tables.{Writes}
use uppaal_to_tchecker.Processes.{Progress, translate_parts, translate_model}
use uppaal_to_tchecker.Processes.Tables.{translate_parts-Clean}

-- What the method that writes the line asserts.
abbrev pub IsAsserted : Line → Type 0
IsAsserted (intvar low high init id size) = (low ≤ℤ init) × (init ≤ℤ high)
IsAsserted (sync v) = 2 ≤ length v
IsAsserted _ = Unit {0}

IsAsserted-Writes : Writes IsAsserted
IsAsserted-Writes = record {
  of_declaration = record {
    of_comment = λ t. tt;
    of_clock = λ id size. tt;
    of_intvar = λ low high init size id b. b;
  };
  of_system = λ t. tt;
  of_process = λ t. tt;
  of_event = λ t. tt;
  of_location = λ p t a. tt;
  of_edge = λ p s t e a. tt;
  of_blank = tt;
}

lines-IsAsserted :
    (flag : Bool) (rs : List Request)
    → ((r : Request) → In r rs → 2 ≤ length (vector_of r))
    → All IsAsserted (lines flag rs)
lines-IsAsserted flag [] h = tt
lines-IsAsserted flag (synchronise v ∷ rs) h =
    (h (synchronise v) (inl refl), lines-IsAsserted flag rs (λ r i. h r (inr i)))
lines-IsAsserted true (block p ev ∷ rs) h = (
  tt,
  (tt, (tt, (tt, (h (block p ev) (inl refl), lines-IsAsserted false rs (λ r i. h r (inr i)))))),
)
lines-IsAsserted false (block p ev ∷ rs) h =
    (h (block p ev) (inl refl), lines-IsAsserted false rs (λ r i. h r (inr i)))

-- A translation that succeeds, of a model with no process called Stuck: every line satisfies what its method
-- of the writer asserts, if those before did: each integer variable starts within its bounds, and each
-- vector names two processes.
pub translate_model-IsAsserted :
    (u : Utap) (g f : ℕ) (name : Text) (s : System) (o o' : Outputter) (st : Progress)
    → Holds IsAsserted o
    → translate_parts u g f name s o ≡ ok st
    → NoStuck st.events
    → translate_model u g f name s o ≡ ok o'
    → Holds IsAsserted o'
unfolding translate_model
translate_model-IsAsserted u g f name s o o' st h parts no_stuck e =
    let clean =
      Ensures-at (translate_parts-Clean IsAsserted IsAsserted-Writes u g f name s o h) st parts in
    let (st', parts', last) = bind-ok (translate_parts u g f name s o) _ o' e in
    let same_parts = ok-injective st' st (sym parts' ∙ parts) in
    let out : generate_sync_vectors st.tckout st.events ≡ o' =
      ap (λ (r : Progress). generate_sync_vectors r.tckout r.events) (sym same_parts)
      ∙ ok-injective _ o' last in
    let vectors =
      lines-IsAsserted true (plan st.events)
        (λ r i. Expected-length st.events r no_stuck (plan-Expected st.events r clean.table i)) in
    rw (← out, generate_sync_vectors-lines st.tckout st.events clean.table.emitters)
      (All-append IsAsserted st.tckout.out (lines true (plan st.events)) clean.unsynced vectors)
