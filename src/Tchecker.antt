-- ===== src/Tchecker.antt =====
-- The writer of TChecker declarations: class outputter of src/utot-tchecker.hh. Its stream is the
-- list of the lines written so far; Tchecker/Render.antt prints a line as the methods do.
pub mod Render
pub mod Scope
pub mod Reading
use uppaal_to_tchecker.Base.{
  Text, codes, same, Bool, true, false, ◌&&◌, not, List, [], ◌∷◌, ◌++◌, if◌then◌else◌,
}
use uppaal_to_tchecker.Base.Maps.{Dict}
use uppaal_to_tchecker.Base.Integers.{ℤ}

-- attributes_t
abbrev pub Attributes : Type 0
Attributes = Dict Text

-- A synchronisation vector: process, event, and whether the synchronisation is weak.
abbrev pub Vector : Type 0
Vector = Dict (Text × Bool)

abbrev pub tau_event : Text
tau_event = codes "tau"

abbrev pub do_nop : Text
do_nop = codes "nop"

abbrev pub location_initial : Text
location_initial = codes "initial"

abbrev pub location_invariant : Text
location_invariant = codes "invariant"

abbrev pub location_committed : Text
location_committed = codes "committed"

abbrev pub location_urgent : Text
location_urgent = codes "urgent"

abbrev pub edge_do : Text
edge_do = codes "do"

abbrev pub edge_provided : Text
edge_provided = codes "provided"

pub data Line : Type 0 where
  system process event comment : Text → Line
  clock : Text → ℤ → Line
  intvar : ℤ → ℤ → ℤ → Text → ℤ → Line
  location : Text → Text → Attributes → Line
  edge : Text → Text → Text → Text → Attributes → Line
  sync : Vector → Line
  blank : Line

pub record Outputter : Type 0 where
  pub out : List Line
  pub tau_generated : Bool

-- out_ << line
unfoldable pub put : Outputter → Line → Outputter
put o l = record o { out = o.out ++ l ∷ [] }

-- edge: the first edge on `tau` declares the event.
unfoldable pub put_edge : Outputter → Text → Text → Text → Text → Attributes → Outputter
unfolding put
put_edge o p src tgt e attr =
    let declared : Outputter = record {
      out =
          o.out
          ++ comment (codes "global event for Uppaal unlabelled edges") ∷ event tau_event ∷ [];
      tau_generated = true;
    } in
    put (if same e tau_event && not o.tau_generated then declared else o) (edge p src tgt e attr)
