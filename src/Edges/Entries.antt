-- ===== src/Edges/Entries.antt =====
-- Entering a label in the tables of events, and loops over values (src/utot-translate.cc).
use uppaal_to_tchecker.Base.{ℕ, zero, suc, Text, Option, none, some, []}
use uppaal_to_tchecker.Base.Integers.{ℤ}
use uppaal_to_tchecker.Base.Maps.{
  Dict, TextSet, find, Distinct, emplace-Distinct, update-Distinct, insert,
}
use uppaal_to_tchecker.Outcome.{Outcome, Ensures, Ensures-ok, Ensures-then}
use uppaal_to_tchecker.Utap.{Sync, sync_que, sync_bang, sync_csp}
use uppaal_to_tchecker.Sync.{GlobalEvents}
use uppaal_to_tchecker.Sync.Meaning.{IsTable}
use uppaal_to_tchecker.Edges.{enter, add_process, record_event, each_value}

add_process-Distinct : (s p : Text) (t : Dict TextSet) → Distinct t → Distinct (add_process s p t)
unfolding add_process
add_process-Distinct s p t d = entered (find s t)
  where
    entered : (o : Option TextSet) → Distinct (enter s p o t)
    entered none = unfold enter in emplace-Distinct s (insert p []) t d
    entered (some set) = unfold enter in update-Distinct s (insert p set) t d

pub record_event-IsTable :
    (d : Sync) (s p : Text) (ev : GlobalEvents) → IsTable ev → IsTable (record_event d s p ev)
unfolding record_event
record_event-IsTable sync_bang s p ev t = record {
  emitters = add_process-Distinct s p ev.emitters t.emitters;
  receivers = t.receivers;
  csp = t.csp;
}
record_event-IsTable sync_que s p ev t = record {
  emitters = t.emitters;
  receivers = add_process-Distinct s p ev.receivers t.receivers;
  csp = t.csp;
}
record_event-IsTable sync_csp s p ev t = record {
  emitters = t.emitters;
  receivers = t.receivers;
  csp = add_process-Distinct s p ev.csp t.csp;
}

-- A loop over values keeps what each round keeps.
pub each_value-Keeps {ℓ κ} :
    {S : Type ℓ} (P : S → Type κ) (body : ℤ → S → Outcome S)
    → ((i : ℤ) (s : S) → P s → Ensures P (body i s))
    → (low : ℤ) (k n : ℕ) (s : S) → P s
    → Ensures P (each_value body low k n s)
unfolding each_value
each_value-Keeps P body keeps low k zero s h = Ensures-ok s h
each_value-Keeps P body keeps low k (suc n) s h =
    Ensures-then (body _ s) _ (keeps _ s h) (λ r b. each_value-Keeps P body keeps low (suc k) n r b)
