-- ===== src/Output/Tests.antt =====
-- Runs and instances of the model of an output pin.
use squidlet.Base.{some, none, List, [], ◌∷◌, ◌++◌, ◌≡◌, refl, true, false, length}
use squidlet.Promised.{new_promised}
use squidlet.Digital.{of_bool, invert_if_need, is_digital_pin_inverted, resolve_level}
use squidlet.Output.{
  defer, BinaryOutputProps, BinaryOutput, caller, Event, wrote, answered, init, run, write, answer,
  fire, io_value, is_in_progress, go_on, end_write, handle_success_writing, tell, do_write,
  start_blocking,
}
use squidlet.Output.Writing.{init-Inv}
use squidlet.Output.Runs.{output_run-Inv}
use squidlet.Output.Deferred.{
  CarriesOn, first_taken, other_taken, stale_request, answer-deferred, fire-write,
}

abbrev props : BinaryOutputProps
props = record {
  block_time = some 100;
  block_mode = defer;
  invert = none;
  invert_on_open_drain = some true;
  open_drain = none;
  initial = of_bool false;
}

abbrev start : BinaryOutput
start = init props

-- A write, another one while the pin works on it, and the answer to the first.
abbrev two_writes : List Event
two_writes = wrote true ∷ wrote false ∷ []

abbrev taken_one : List Event
taken_one = wrote true ∷ answered none 0 ∷ []

two_writes_run :
    (run props
      (wrote true ∷ wrote false ∷ answered none 0 ∷ answered none 0 ∷ wrote true ∷ [])
      start).written
    ≡ false ∷ true ∷ []
unfolding run init invert_if_need is_digital_pin_inverted resolve_level
two_writes_run = refl

stale_request_example :
    ((first_taken props true start).deferred_write_promise ≡ some (length start.promises))
    × ((first_taken props true start).writing ≡ false)
    × ((first_taken props true start).promises ≡ start.promises ++ new_promised ∷ [])
    × ((other_taken props true start).promises ≡ start.promises ++ new_promised ∷ [])
    × ((other_taken props true start).written
        ≡ io_value true start.inverted
          ∷ io_value false start.inverted
          ∷ io_value true start.inverted
          ∷ start.written)
stale_request_example = stale_request props true start

answer-deferred_example :
    CarriesOn false 0
      (run props two_writes start)
      (answer props none 0 (run props two_writes start))
unfolding run init invert_if_need is_digital_pin_inverted resolve_level
answer-deferred_example =
    answer-deferred props 0 0 caller false (run props two_writes start)
      (output_run-Inv props two_writes start (init-Inv props)) refl refl refl refl refl

fire-write_example :
    let o = run props taken_one start in
    let o' = fire 0 (write props false o) in
    (is_in_progress o' ≡ o.writing)
    × (o'.last_deferred_value ≡ some false)
    × (o'.deferred_write_promise ≡ some (length o.promises))
    × (o'.promises ≡ o.promises ++ new_promised ∷ [])
    × (o'.written ≡ o.written)
unfolding run init invert_if_need is_digital_pin_inverted resolve_level
fire-write_example =
    fire-write props 0 false (run props taken_one start)
      (output_run-Inv props taken_one start (init-Inv props)) refl refl refl

-- A write that is asked for between the end of the one before and what its caller does behind `await`
-- starts, and the object is then blocked while it writes.
abbrev between : BinaryOutput
between =
    go_on props caller
      (write props false (end_write (record (write props true start) { in_flight = [] })))

blocked_while_writing : (between.writing ≡ true) × (between.block_timeout ≡ some 0)
unfolding write init invert_if_need is_digital_pin_inverted resolve_level handle_success_writing
    tell do_write start_blocking
blocked_while_writing = (refl, refl)
