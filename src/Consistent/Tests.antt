-- ===== src/Consistent/Tests.antt =====
-- Runs and instances of the model of a consistent state. Values are numbers.
use squidlet.Base.{
  ℕ, ◌≡◌, List, [], ◌∷◌, Option, none, some, String, lookup, Bool, true, false, ok, ◌>>=◌, ◌==◌,
}
use squidlet.Consistent.{Partial, ConsistentState, write, write_job_cb, handle_write_error}
use squidlet.Consistent.Failures.{at_rest, income_all, merge_all, failed_write}

abbrev lamp : ConsistentState ℕ
lamp = record {
  local_state = ("on", 0) ∷ ("level", 5) ∷ [];
  actual_remote_state = none;
  params_list_to_save = none;
  next_write_partial_state = none;
  current = none;
  write_queued = false;
  sent = [];
}

abbrev same : Option ℕ → Option ℕ → Bool
same (some a) (some b) = a == b
same none none = true
same a b = false

abbrev turn_on : Partial ℕ
turn_on = ("on", some 1) ∷ []

abbrev dimmed : List (Partial ℕ)
dimmed = (("level", some 3) ∷ ("on", some 0) ∷ []) ∷ []

failed_write_example :
    (during : ConsistentState ℕ) × ((write turn_on (at_rest lamp) >>= λ queued.
    write_job_cb same queued)
      ≡ ok during)
    × ((after : ConsistentState ℕ) × (handle_write_error (income_all dimmed during) ≡ ok after)
        × ((k : String)
            → lookup k after.local_state ≡ lookup k (merge_all dimmed lamp.local_state)))
failed_write_example = failed_write same turn_on dimmed lamp
