-- ===== src/Processes/Distinct.antt =====
-- The names of all the instances of a process (src/utot-translate.cc, doc/translation.md).
use uppaal_to_tchecker.Base.{
  ℕ, zero, suc, Text, some, List, [], ◌∷◌, ◌++◌, length, append_assoc, append-nil, ◌≡◌, refl, sym,
  ap, ◌∙◌, In, inl, inr,
}
use uppaal_to_tchecker.Base.Integers.{ℤ}
use uppaal_to_tchecker.Outcome.{Outcome, ok, ◌>>=◌, bind-ok, ok-injective}
use uppaal_to_tchecker.Utap.{Symbol, Utap, constant}
use uppaal_to_tchecker.Prefix.{Prefix, string_of}
use uppaal_to_tchecker.Expr.{Mapping}
use uppaal_to_tchecker.Model.{Process, assign_symbol}
use uppaal_to_tchecker.Edges.{enumeration}
use uppaal_to_tchecker.Edges.Rounds.{collect-In}
use uppaal_to_tchecker.Processes.{parameter, assignment_to_string}
use uppaal_to_tchecker.Processes.Instances.{instances}
use uppaal_to_tchecker.Processes.Names.{values, string_of-values-injective}

-- The parameters that have no value, in the order in which they get one.
unfoldable pub unbound_parameters : ℕ → List Symbol → Outcome (List Symbol)
unbound_parameters zero ps = ok []
unbound_parameters (suc n) ps = do s ← parameter n ps; ss ← unbound_parameters n ps; ok (s ∷ ss)

unbound_parameters-suc :
    (n : ℕ) (ps : List Symbol) (s : Symbol) (ss : List Symbol)
    → parameter n ps ≡ ok s
    → unbound_parameters n ps ≡ ok ss
    → unbound_parameters (suc n) ps ≡ ok (s ∷ ss)
unfolding unbound_parameters
unbound_parameters-suc n ps s ss h k = rw (h, k) refl

-- `m` where each parameter has its value.
abbrev assign_each : List Symbol → List ℤ → Mapping → Mapping
assign_each [] is m = m
assign_each (s ∷ ss) [] m = m
assign_each (s ∷ ss) (i ∷ is) m = assign_each ss is (assign_symbol s (constant i) m)

-- The prefix is `ctx`, and the mapping `m`, with a value for each parameter of `given`.
record Placed (u : Utap) (n : ℕ) (ps : List Symbol) (ctx : Prefix) (m : Mapping)
    (found : Prefix × Mapping) : Type 0 where
  given : List Symbol
  chosen : List ℤ
  are_unbound : unbound_parameters n ps ≡ ok given
  as_many : length chosen ≡ length given
  extends : found.0 ≡ ctx ++ values u given chosen
  assigned : found.1 ≡ assign_each given chosen m

module _ (u : Utap) (g : ℕ) (p : Process) where
  instances-Placed :
      (n : ℕ) (ctx : Prefix) (m : Mapping) (xs : List (Prefix × Mapping)) (x : Prefix × Mapping)
      → instances u g p n ctx m ≡ ok xs
      → In x xs
      → Placed u n p.parameters ctx m x
  unfolding instances unbound_parameters
  instances-Placed zero ctx m xs x q h = elim (rw (← ok-injective ((ctx, m) ∷ []) xs q) at h) [
    | inl e ↦ record {
      given = [];
      chosen = [];
      are_unbound = refl;
      as_many = refl;
      extends = ap (λ y. y.0) e ∙ sym (append-nil ctx);
      assigned = ap (λ y. y.1) e;
    }
    | inr e ↦ absurd e
  ]
  instances-Placed (suc n) ctx m xs x q h =
      let (s, is_there, q1) = bind-ok (parameter n p.parameters) _ xs q in
      let (r, range, q2) = bind-ok (enumeration u (some p.mapping) g s) _ xs q1 in
      let (i, ys, here, within) =
        collect-In
          (λ i.
            instances u g p n (ctx ++ assignment_to_string u s i ∷ [])
              (assign_symbol s (constant i) m))
          r.0 0 r.1 xs x q2 h in
      let placed =
        instances-Placed n (ctx ++ assignment_to_string u s i ∷ []) (assign_symbol s (constant i) m)
          ys x here within in
      record {
        given = s ∷ placed.given;
        chosen = i ∷ placed.chosen;
        are_unbound =
            unbound_parameters-suc n p.parameters s placed.given is_there placed.are_unbound;
        as_many = ap suc placed.as_many;
        extends =
            placed.extends
            ∙ append_assoc ctx (assignment_to_string u s i ∷ [])
                (values u placed.given placed.chosen);
        assigned = placed.assigned;
      }

-- Two instances of a process that get the same name are one: they have the same values for all
-- parameters.
pub instances-string_of :
    (u : Utap) (g : ℕ) (p : Process) (n : ℕ) (name : Text) (m : Mapping)
    (xs : List (Prefix × Mapping)) (x y : Prefix × Mapping)
    → instances u g p n (name ∷ []) m ≡ ok xs
    → In x xs
    → In y xs
    → string_of x.0 ≡ string_of y.0
    → x ≡ y
instances-string_of u g p n name m xs x y q hx hy e =
    let a = instances-Placed u g p n (name ∷ []) m xs x q hx in
    let b = instances-Placed u g p n (name ∷ []) m xs y q hy in
    let same_given = ok-injective a.given b.given (sym a.are_unbound ∙ b.are_unbound) in
    let extends_b : y.0 ≡ name ∷ values u a.given b.chosen = rw same_given b.extends in
    let names : string_of (name ∷ values u a.given a.chosen)
        ≡ string_of (name ∷ values u a.given b.chosen) =
      sym (ap string_of a.extends) ∙ e ∙ ap string_of extends_b in
    let chosen_same =
      string_of-values-injective u name a.given a.chosen b.chosen a.as_many
        (rw same_given b.as_many) names in
    let prefixes : x.0 ≡ y.0 =
      a.extends ∙ ap (λ is. name ∷ values u a.given is) chosen_same ∙ sym extends_b in
    let assigned_b : y.1 ≡ assign_each a.given b.chosen m = rw same_given b.assigned in
    let mappings : x.1 ≡ y.1 =
      a.assigned ∙ ap (λ is. assign_each a.given is m) chosen_same ∙ sym assigned_b in
    ap (λ c. (c, x.1)) prefixes ∙ ap (λ d. (y.0, d)) mappings
