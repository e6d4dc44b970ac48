-- ===== src/Sync/Remaining.antt =====
-- The receivers that the loop over the emitters leaves in the table (src/utot-translate.cc).
use uppaal_to_tchecker.Base.{
  Text, same, same_iff, Option, none, some, [], ◌∷◌, if◌then◌else◌, ◌≡◌, refl, ◌∙◌, arith,
  Bool-cases, inl, inr,
}
use uppaal_to_tchecker.Base.Maps.{
  Dict, TextSet, find, has-eq-find, erase, erase-Distinct, Distinct, find-erase,
}
use uppaal_to_tchecker.Sync.Plan.{meet, is_served, remaining}

pub remaining-Distinct : (rs es : Dict TextSet) → Distinct rs → Distinct (remaining rs es)
unfolding remaining
remaining-Distinct rs [] d = d
remaining-Distinct rs (kv ∷ es) d = elim (Bool-cases (is_served rs kv)) [
  | inl e ↦ rw e (remaining-Distinct (erase kv.0 rs) es (erase-Distinct kv.0 rs d))
  | inr e ↦ rw e (remaining-Distinct rs es d)
]

-- The receivers of a channel are kept unless its emitters meet them.
abbrev pub kept : Option TextSet → Option TextSet → Option TextSet
kept none o = o
kept (some es) o = if meet es o then none else o

find-step :
    (s k : Text) (rs : Dict TextSet) (e : TextSet)
    → find s (if is_served rs (k, e) then erase k rs else rs)
      ≡ (if same k s then kept (some e) (find s rs) else find s rs)
unfolding is_served
find-step s k rs e = ground (arith, find-erase k s rs, same_iff k s)

pub find-remaining :
    (s : Text) (rs es : Dict TextSet)
    → Distinct es
    → find s (remaining rs es) ≡ kept (find s es) (find s rs)
unfolding remaining find
find-remaining s rs [] d = refl
find-remaining s rs ((k, e) ∷ es) d =
    let rs' = if is_served rs (k, e) then erase k rs else rs in
    find-remaining s rs' es d.1 ∙ ground (arith, find-step s k rs e, has-eq-find k es, same_iff k s)
