-- ===== src/Events/Emitter/Tests.antt =====
-- Concrete emitters for the theorems on system/lib/IndexedEventEmitter.ts.
use squidlet.Base.{
  ℕ, ◌≡◌, ◌≢◌, refl, List, [], ◌∷◌, Option, none, some, String, ◌==◌, if◌then◌else◌, ok, map, inl,
  lookup, insert, arith,
}
use squidlet.Events.Handler.{deliver}
use squidlet.Events.Emitter.{
  quiet, Emitter, Listener, init, add_listener, once, emit, get_listeners, target,
  remove_listener_unnamed, handler_at, remove_listener, no_handler,
}
use squidlet.Events.Emitter.Invariant.{IsCoherent, init-IsCoherent}
use squidlet.Events.Emitter.Emission.{outcome}
use squidlet.Events.Emitter.Histories.{
  Call, adds, onces, history, step, step-IsCoherent, history-IsCoherent, emit-get_listeners,
}
use squidlet.Events.Emitter.Reentry.{emit-remove_listener}
use squidlet.Events.Emitter.Unnamed.{emit-remove_listener_unnamed}

-- The handler 3 throws.
abbrev throws_at_three : ℕ → Option String
throws_at_three n = if n == 3 then some "three" else none

abbrev calls : List (Call ℕ)
calls = adds "b" 3 ∷ onces "a" 2 ∷ adds "a" 1 ∷ []

abbrev sample : Emitter ℕ
sample = step (adds "b" 3) (step (onces "a" 2) (step (adds "a" 1) init))

sample-IsCoherent : IsCoherent sample
sample-IsCoherent =
    step-IsCoherent (adds "b" 3) _
      (step-IsCoherent (onces "a" 2) _ (step-IsCoherent (adds "a" 1) _ init-IsCoherent))

history-IsCoherent_example : IsCoherent (history calls)
history-IsCoherent_example = history-IsCoherent calls

emit-get_listeners_example :
    (ls : List (Listener ℕ)) × (get_listeners "a" (history calls) ≡ ok ls)
    × (outcome (emit quiet throws_at_three "a" (history calls))
        ≡ deliver throws_at_three (map target ls))
emit-get_listeners_example = emit-get_listeners throws_at_three "a" calls

emit-remove_listener_unnamed_example :
    (handler_at (remove_listener_unnamed 2 sample).handlers 2 ≡ none)
    × (lookup "b" (remove_listener_unnamed 2 sample).indexes ≡ some (2 ∷ []))
    × ((emit quiet throws_at_three "b" (remove_listener_unnamed 2 sample)).error ≢ none)
unfolding step add_listener once init lookup insert
emit-remove_listener_unnamed_example =
    emit-remove_listener_unnamed throws_at_three 2 "b" (2 ∷ []) sample sample-IsCoherent refl
      (inl refl) (omega arith)

-- Three handlers of one event, of which the first removes the second.
abbrev three : Emitter ℕ
three = step (adds "a" 6) (step (adds "a" 5) (step (adds "a" 4) init))

abbrev first_removes : ℕ → Emitter ℕ → Emitter ℕ
first_removes n e = if n == 4 then remove_listener 1 "a" e else e

emit-remove_listener_example :
    outcome (emit first_removes throws_at_three "a" three) ≡ (4 ∷ [], some no_handler)
unfolding step add_listener init lookup insert
emit-remove_listener_example =
    emit-remove_listener first_removes throws_at_three "a" 0 1 (2 ∷ []) 4 three refl refl refl refl
