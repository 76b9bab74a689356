-- ===== src/State/Tests.antt =====
-- Runs and instances of the model of the states.
use squidlet.Base.{List, [], ◌∷◌, none, some, ◌&&◌, is_some, String, lookup, ◌≡◌, refl}
use squidlet.Consistent.{Partial, among}
use squidlet.State.{
  State, Primitive, number, is_equal, get_state, update_state, generate_changed_params,
}
use squidlet.State.Updates.{Updated, is_told, get_state-update_state}

abbrev lamp : State
lamp = record {
  state = ("1", ("lamp", ("on", number 1) ∷ ("dim", number 5) ∷ []) ∷ []) ∷ [];
  emitted = [];
}

abbrev change : Partial Primitive
change = ("on", some (number 1)) ∷ ("dim", none) ∷ []

dim_told : generate_changed_params (get_state "1" "lamp" lamp) (some change) ≡ "dim" ∷ []
unfolding is_equal generate_changed_params get_state lookup
dim_told = refl

get_state-update_state_example :
    (ps : List String) × Updated "1" "lamp" change ps lamp
      (update_state "1" "lamp" (some change) lamp)
    × ((k : String)
        → among k ps ≡ (is_told (get_state "1" "lamp" lamp) change k && is_some (lookup k change)))
get_state-update_state_example = get_state-update_state "1" "lamp" change lamp
