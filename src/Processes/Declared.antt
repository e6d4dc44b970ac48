-- ===== src/Processes/Declared.antt =====
-- The output declares the processes and events that it uses (src/utot-translate.cc).
use mathlib.Core.Path.{subst, sym}
use uppaal_to_tchecker.Base.{ℕ, Text, true, false, List, [], ◌∷◌, ◌≡◌, All}
use uppaal_to_tchecker.Outcome.{ok, Ensures-at, bind-ok, ok-injective}
use uppaal_to_tchecker.Utap.{Utap}
use uppaal_to_tchecker.Tchecker.{Line, Outputter}
use uppaal_to_tchecker.Tchecker.Scope.{IsScoped, IsScoped-append}
use uppaal_to_tchecker.Model.{System}
use uppaal_to_tchecker.Edges.Tables.{Writes}
use uppaal_to_tchecker.Sync.Plan.{plan}
use uppaal_to_tchecker.Sync.Sound.{plan-Expected}
use uppaal_to_tchecker.Sync.Lines.{lines, generate_sync_vectors-lines}
use uppaal_to_tchecker.Sync.Scope.{lines-IsScoped, requests-IsKnown}
use uppaal_to_tchecker.Processes.Tables.{translate_parts-Clean}
use uppaal_to_tchecker.Processes.{translate_parts, translate_model}
use uppaal_to_tchecker.Processes.Scope.{translate_parts-InScope}

-- Well-formed tables, whatever the lines are.
anything-Writes : Writes (λ l. Unit {0})
anything-Writes = record {
  of_declaration = record {
    of_comment = λ t. tt;
    of_clock = λ id size. tt;
    of_intvar = λ low high init size id b. tt;
  };
  of_system = λ t. tt;
  of_process = λ t. tt;
  of_event = λ t. tt;
  of_location = λ p t a. tt;
  of_edge = λ p s t e a. tt;
  of_blank = tt;
}

anything : (ls : List Line) → All (λ l. Unit {0}) ls
anything [] = tt
anything (l ∷ ls) = (tt, anything ls)

-- From lines that declare what they use and a writer that has not noted the event tau as declared, a
-- translation that succeeds writes lines that declare what they use: the process
-- of a location, of an edge and of each element of a vector, and the event of an edge and of each
-- element of a vector, are declared by the lines before it.
pub translate_model-IsScoped :
    (u : Utap) (g f : ℕ) (name : Text) (s : System) (o o' : Outputter)
    → IsScoped [] o.out
    → o.tau_generated ≡ false
    → translate_model u g f name s o ≡ ok o'
    → IsScoped [] o'.out
unfolding translate_model
translate_model-IsScoped u g f name s o o' scoped fresh e =
    let (st, q, out) = bind-ok (translate_parts u g f name s o) _ o' e in
    let sound = Ensures-at (translate_parts-InScope u g f name s o scoped fresh) st q in
    let clean =
      Ensures-at
        (translate_parts-Clean (λ l. Unit {0}) anything-Writes u g f name s o (anything o.out)) st
        q in
    let known =
      requests-IsKnown st.tckout.out st.events (plan st.events) sound.entered
        (λ r i. plan-Expected st.events r clean.table i) in
    let all_scoped =
      IsScoped-append [] st.tckout.out (lines true (plan st.events)) sound.scoped
        (lines-IsScoped st.tckout.out (plan st.events) known) in
    let written = generate_sync_vectors-lines st.tckout st.events clean.table.emitters in
    subst (λ (o : Outputter). IsScoped [] o.out) (ok-injective _ _ out)
      (subst (λ ls. IsScoped [] ls) (sym written) all_scoped)
