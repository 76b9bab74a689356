-- ===== src/Output/Deferred.antt =====
-- What becomes of a value that was deferred.
use squidlet.Base.{
  ℕ, ◌≡◌, refl, sym, ap, subst, ◌∙◌, [], ◌∷◌, ◌++◌, Option, none, some, String, Bool, true, false,
  not, is_some, length, get_elem?, ◌||◌, some_or,
}
use squidlet.Timers.{armed_for}
use squidlet.Timers.Pair.{held-first}
use squidlet.Promised.{new_promised}
use squidlet.Digital.{invert_if_need}
use squidlet.Output.{
  defer, BinaryOutputProps, Waiting, caller, deferred_promise, BinaryOutput, block_id,
  is_in_progress, tell, set_deferred_value, do_write, start_deferred, has_deferred,
  handle_success_writing, write, after_write, answer, fire, io_value, differ, settle_promise,
}
use squidlet.Output.Writing.{Inv, no_id, apart}
use squidlet.Output.Runs.{answered-Idle}

-- What is called when the pin has taken a write, in a state where a value is deferred that it does
-- not have.
abbrev pub CarriesOn : Bool → ℕ → BinaryOutput → BinaryOutput → Type 0
CarriesOn level n o o' =
    (o'.written ≡ io_value level o.inverted ∷ o.written)
    × (o'.emitted ≡ level ∷ o.emitted)
    × (o'.in_flight ≡ deferred_promise (some n) ∷ [])
    × (o'.writing ≡ true)
    × (o'.last_deferred_value ≡ none)
    × (o'.deferred_write_promise ≡ none)

do_write_new :
    (level : Bool) (who : Waiting) (o : BinaryOutput)
    → differ o.current_io_value (io_value level o.inverted) ≡ true
    → do_write level who o ≡ record o {
      current_io_value = io_value level o.inverted;
      emitted = level ∷ o.emitted;
      writing = true;
      in_flight = o.in_flight ++ who ∷ [];
      written = io_value level o.inverted ∷ o.written;
    }
unfolding do_write
do_write_new level who o e = rw e

-- A pull-up output in the mode `defer`, with no time of blocking, at rest, and with nothing deferred.
abbrev pub no_block : BinaryOutputProps → BinaryOutputProps
no_block p = record p { block_time = none; block_mode = defer }

abbrev pub at_rest : BinaryOutput → BinaryOutput
at_rest o = record o {
  writing = false;
  deferred_write_promise = none;
  last_deferred_value = none;
  block_timeout = none;
  in_flight = [];
}

module _ (p : BinaryOutputProps) (level : Bool) (o : BinaryOutput) where
  abbrev pub asked_twice : BinaryOutput
  asked_twice = write (no_block p) level (write (no_block p) level (at_rest o))

  abbrev pub first_taken : BinaryOutput
  first_taken = answer (no_block p) none 0 asked_twice

  abbrev pub other_asked : BinaryOutput
  other_asked = write (no_block p) (not level) first_taken

  abbrev pub other_taken : BinaryOutput
  other_taken = answer (no_block p) none 0 other_asked

stale_levels :
    (p : BinaryOutputProps) (level inverted current : Bool) (o : BinaryOutput)
    → let s = record o { inverted = inverted; current_io_value = current } in
      ((first_taken p level s).deferred_write_promise ≡ some (length o.promises))
      × ((first_taken p level s).writing ≡ false)
      × ((first_taken p level s).promises ≡ o.promises ++ new_promised ∷ [])
      × ((other_taken p level s).promises ≡ o.promises ++ new_promised ∷ [])
      × ((other_taken p level s).written
          ≡ io_value level inverted
            ∷ io_value (not level) inverted
            ∷ io_value level inverted
            ∷ o.written)
unfolding write answer set_deferred_value do_write after_write handle_success_writing tell
    start_deferred invert_if_need
stale_levels p true true true o = (refl, refl, refl, refl, refl)
stale_levels p true true false o = (refl, refl, refl, refl, refl)
stale_levels p true false true o = (refl, refl, refl, refl, refl)
stale_levels p true false false o = (refl, refl, refl, refl, refl)
stale_levels p false true true o = (refl, refl, refl, refl, refl)
stale_levels p false true false o = (refl, refl, refl, refl, refl)
stale_levels p false false true o = (refl, refl, refl, refl, refl)
stale_levels p false false false o = (refl, refl, refl, refl, refl)

-- In the mode `defer` with no time of blocking, at rest: a level is written, asked for again while it
-- is being written, and taken by the pin. The second request is then kept, its promise, the one
-- that was made last, pending, though nothing is being written. A later request for the other level
-- is written, and when the pin has taken it, the level of the stale request is written over it, its
-- promise still pending.
pub stale_request :
    (p : BinaryOutputProps) (level : Bool) (o : BinaryOutput)
    → ((first_taken p level o).deferred_write_promise ≡ some (length o.promises))
      × ((first_taken p level o).writing ≡ false)
      × ((first_taken p level o).promises ≡ o.promises ++ new_promised ∷ [])
      × ((other_taken p level o).promises ≡ o.promises ++ new_promised ∷ [])
      × ((other_taken p level o).written
          ≡ io_value level o.inverted
            ∷ io_value (not level) o.inverted
            ∷ io_value level o.inverted
            ∷ o.written)
stale_request p level o = stale_levels p level o.inverted o.current_io_value o

written-tell :
    (err : Option String) (who : Waiting) (o : BinaryOutput) → (tell err who o).written ≡ o.written
unfolding tell
written-tell err caller o = refl
written-tell err (deferred_promise n) o = refl

not_eq_swap : (a b : Bool) → differ a b ≡ true → differ b a ≡ true
not_eq_swap true true e = e
not_eq_swap true false e = refl
not_eq_swap false true e = refl
not_eq_swap false false e = e

next_written :
    (p : BinaryOutputProps) (n : ℕ) (level : Bool) (o : BinaryOutput)
    → p.block_mode ≡ defer
    → o.in_flight ≡ []
    → o.last_deferred_value ≡ some level
    → o.deferred_write_promise ≡ some n
    → differ (io_value level o.inverted) o.current_io_value ≡ true
    → CarriesOn level n o (handle_success_writing p o)
unfolding handle_success_writing start_deferred
next_written p n level o mode empty last promise new =
    let due : has_deferred p o ≡ true = rw (last, mode) new in
    let starts : handle_success_writing p o ≡ start_deferred o = rw due in
    let cleared = record o { last_deferred_value = none; deferred_write_promise = none } in
    let writes : start_deferred o ≡ do_write level (deferred_promise (some n)) cleared =
      ap (λ x. do_write (some_or false x) (deferred_promise o.deferred_write_promise) cleared) last
      ∙ ap (λ y. do_write level (deferred_promise y) cleared) promise in
    subst (CarriesOn level n o)
      (sym (
        starts
        ∙ writes
        ∙ do_write_new level (deferred_promise (some n)) cleared
            (not_eq_swap (io_value level o.inverted) o.current_io_value new)))
      (refl, refl, ap (λ l. l ++ deferred_promise (some n) ∷ []) empty, refl, refl, refl)

told :
    (p : BinaryOutputProps) (n : ℕ) (level : Bool) (who : Waiting) (o : BinaryOutput)
    → p.block_mode ≡ defer
    → o.in_flight ≡ []
    → o.last_deferred_value ≡ some level
    → o.deferred_write_promise ≡ some n
    → differ (io_value level o.inverted) o.current_io_value ≡ true
    → CarriesOn level n o (handle_success_writing p (tell none who o))
unfolding tell
told p n level caller o = next_written p n level (record o { returned = none ∷ o.returned })
told p n level (deferred_promise m) o =
    next_written p n level (record o { promises = settle_promise none m o.promises })

-- Where the object keeps what holds of it, in the mode `defer`, with a value deferred that is not the
-- level of the pin: when the pin has taken the write before, the value is written at once and emitted,
-- its promise waits for that write alone, and nothing more is deferred.
pub answer-deferred :
    (p : BinaryOutputProps) (i n : ℕ) (who : Waiting) (level : Bool) (o : BinaryOutput)
    → Inv p o
    → get_elem? o.in_flight i ≡ some who
    → p.block_mode ≡ defer
    → o.last_deferred_value ≡ some level
    → o.deferred_write_promise ≡ some n
    → differ (io_value level o.inverted) o.current_io_value ≡ true
    → CarriesOn level n o (answer p none i o)
unfolding answer after_write
answer-deferred p i n who level o v e mode last promise new =
    let (one, idle) = answered-Idle p i who o v e in
    rw (e, answer) (told p n level who _ mode idle.inv.flying last promise new)

abbrev kept_request : Bool → BinaryOutput → BinaryOutput
kept_request level o = record o {
  last_deferred_value = some level;
  deferred_write_promise = some (length o.promises);
  promises = o.promises ++ new_promised ∷ [];
}

or_true : (b : Bool) → (b || true) ≡ true
or_true true = refl
or_true false = refl

or_false : (b : Bool) → (b || false) ≡ b
or_false true = refl
or_false false = refl

write_blocked :
    (p : BinaryOutputProps) (h : ℕ) (level : Bool) (o : BinaryOutput)
    → p.block_mode ≡ defer
    → o.block_timeout ≡ some h
    → o.deferred_write_promise ≡ none
    → write p level o ≡ kept_request level o
unfolding write set_deferred_value
write_blocked p h level o mode blocked nobody =
    let busy : is_in_progress o ≡ true = rw blocked (or_true o.writing) in
    let asks : write p level o ≡ set_deferred_value level o = rw (busy, mode) in
    let none_yet : is_some o.deferred_write_promise ≡ false = rw nobody in asks ∙ rw none_yet

fired_kept :
    (h : ℕ) (o : BinaryOutput)
    → armed_for h o.timers.armed ≡ some block_id
    → (is_in_progress (fire h o) ≡ o.writing)
      × ((fire h o).last_deferred_value ≡ o.last_deferred_value)
      × ((fire h o).deferred_write_promise ≡ o.deferred_write_promise)
      × ((fire h o).promises ≡ o.promises)
      × ((fire h o).written ≡ o.written)
unfolding fire
fired_kept h o e = rw (e, fire) (or_false o.writing, refl, refl, refl, refl)

-- In the mode `defer`, with no promise of a deferred value: a write asked for while the object is
-- blocked is kept with a new promise; when the timer of the block fires the object is no longer
-- blocked, and the value is still kept and not written, the promise not settled.
pub fire-write :
    (p : BinaryOutputProps) (h : ℕ) (level : Bool) (o : BinaryOutput)
    → Inv p o
    → p.block_mode ≡ defer
    → o.block_timeout ≡ some h
    → o.deferred_write_promise ≡ none
    → let o' = fire h (write p level o) in
      (is_in_progress o' ≡ o.writing)
      × (o'.last_deferred_value ≡ some level)
      × (o'.deferred_write_promise ≡ some (length o.promises))
      × (o'.promises ≡ o.promises ++ new_promised ∷ [])
      × (o'.written ≡ o.written)
fire-write p h level o v mode blocked nobody =
    let kept = write_blocked p h level o mode blocked nobody in
    subst
      (λ w.
        (is_in_progress (fire h w) ≡ o.writing)
        × ((fire h w).last_deferred_value ≡ some level)
        × ((fire h w).deferred_write_promise ≡ some (length o.promises))
        × ((fire h w).promises ≡ o.promises ++ new_promised ∷ [])
        × ((fire h w).written ≡ o.written))
      (sym kept)
      (fired_kept h _
        (held-first block_id no_id apart o.block_timeout none o.timers h v.timers blocked))
