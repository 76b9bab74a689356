-- ===== src/Events/Handler.antt =====
-- Event handlers, system/lib/IndexedEvents.ts and IndexedEventEmitter.ts. A handler is a value of a
-- type `H`; what calling it does to the rest of the program is the log of calls. `run h` is the
-- error that calling `h` throws, if it does.
use squidlet.Base.{List, [], ◌∷◌, Option, none, some, String, ℕ}

-- The function that `once` registers removes itself by the index that it captured, then calls `h`.
pub data Handler (H : Type 0) : Type 0 where
  plain : H → Handler H
  wrapper : H → ℕ → Handler H

module _ {H : Type 0} where
  abbrev pub target : Handler H → H
  target (plain h) = h
  target (wrapper h w) = h

  abbrev pub call_and : Option String → H → List H × Option String → List H × Option String
  call_and (some err) h rest = (h ∷ [], some err)
  call_and none h rest = (h ∷ rest.0, rest.1)

  -- Which functions of a list are called, and the error that ends the calls.
  abbrev pub deliver : (H → Option String) → List H → List H × Option String
  deliver run [] = ([], none)
  deliver run (h ∷ hs) = call_and (run h) h (deliver run hs)
