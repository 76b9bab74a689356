-- ===== src/Timers.antt =====
-- The timers of the language, `setTimeout` and `clearTimeout`, as the parts that keep one timer for
-- each id use them: a handle is a number, and an armed timer knows the id that it was armed for.
pub mod Without
pub mod Coherent
pub mod Pair
use squidlet.Base.{
  ℕ, suc, List, [], ◌∷◌, Option, none, some, String, ◌==◌, Bool, false, not, if◌then◌else◌,
}

pub record Timers : Type 0 where
  pub armed : List (ℕ × String)
  pub next : ℕ

abbrev pub no_timers : Timers
no_timers = record { armed = []; next = 0 }

-- A time that is undefined or 0 is not used.
abbrev pub is_used : Option ℕ → Bool
is_used none = false
is_used (some n) = not (n == 0)

abbrev pub without : ℕ → List (ℕ × String) → List (ℕ × String)
without h [] = []
without h (t ∷ ts) = if t.0 == h then without h ts else t ∷ without h ts

-- `setTimeout`; the handle is `ts.next`.
abbrev pub arm : String → Timers → Timers
arm id ts = record { armed = (ts.next, id) ∷ ts.armed; next = suc ts.next }

-- `if (handle) clearTimeout(handle)`.
abbrev pub disarm : Option ℕ → Timers → Timers
disarm none ts = ts
disarm (some h) ts = record ts { armed = without h ts.armed }

-- The id of the timer that fires.
abbrev pub armed_for : ℕ → List (ℕ × String) → Option String
armed_for h [] = none
armed_for h (t ∷ ts) = if t.0 == h then some t.1 else armed_for h ts
