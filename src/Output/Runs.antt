-- ===== src/Output/Runs.antt =====
-- Each call keeps the invariant of the writes.
use squidlet.Base.{
  ℕ, zero, suc, ◌≡◌, refl, ap, subst, ◌∙◌, List, [], ◌∷◌, Option, none, some, String, Bool, true,
  false, ◌||◌, if◌then◌else◌, is_some, get_elem?, remove_at, Bool-cases, Option-cases, inl, inr,
}
use squidlet.Timers.{disarm, armed_for}
use squidlet.Timers.Coherent.{Coherent}
use squidlet.Timers.Pair.{two, disarm-first, fired-first, fired-second, fired_known}
use squidlet.Output.{
  BlockMode, refuse, defer, BinaryOutputProps, Waiting, caller, BinaryOutput, is_defer, block_id,
  is_blocked, is_in_progress, set_deferred_value, poll, write, answer, fire, Event, wrote, answered,
  fired, polled, step, run, differ,
}
use squidlet.Output.Levels.{polled-Shown}
use squidlet.Output.Writing.{Flying, no_id, apart, Inv, Idle, do_write-Inv, after_write-Inv}

module _ (p : BinaryOutputProps) where
  -- A write that the pin answers is the only one, and when it is answered nothing is in progress.
  pub answered-Idle :
      (i : ℕ) (who : Waiting) (o : BinaryOutput)
      → Inv p o
      → get_elem? o.in_flight i ≡ some who
      → (o.in_flight ≡ who ∷ [])
        × Idle p (record o { in_flight = remove_at o.in_flight i; writing = false })
  answered-Idle i who o v e =
      let (one, none_left) = alone o.writing i o.in_flight v.flying e in
      (
        one,
        record {
          inv = record {
            timers = v.timers;
            flying = none_left;
            free = λ q. cc;
            refused = v.refused;
            shown = v.shown;
          };
          quiet = refl;
          unblocked = v.free (busy o.writing i o.in_flight v.flying e);
        },
      )
    where
      alone :
          (b : Bool) (i : ℕ) (ws : List Waiting)
          → Flying b ws
          → get_elem? ws i ≡ some who
          → (ws ≡ who ∷ []) × (remove_at ws i ≡ [])
      alone false i ws f e = absurd (cc (rw f at e))
      alone true zero ws (w, f) e = (f ∙ ap (λ x. x ∷ []) (cc (rw f at e)), rw f)
      alone true (suc i) ws (w, f) e = absurd (cc (rw f at e))

      busy :
          (b : Bool) (i : ℕ) (ws : List Waiting)
          → Flying b ws
          → get_elem? ws i ≡ some who
          → b ≡ true
      busy true i ws f e = refl
      busy false i ws f e = absurd (cc (rw f at e))

  answer-Inv : (err : Option String) (i : ℕ) (o : BinaryOutput) → Inv p o → Inv p (answer p err i o)
  unfolding answer
  answer-Inv err i o v = elim (Option-cases (get_elem? o.in_flight i)) [
    | inl e ↦ rw (e, answer) v
    | inr (who, e) ↦
        rw (e, answer)
          (after_write-Inv p err who (record o { in_flight = remove_at o.in_flight i })
            (answered-Idle i who o v e).1)
  ]

  set_deferred_value-Inv :
      (level : Bool) (o : BinaryOutput)
      → p.block_mode ≡ defer
      → Inv p o
      → Inv p (set_deferred_value level o)
  unfolding set_deferred_value
  set_deferred_value-Inv level o mode v = elim (Bool-cases (is_some o.deferred_write_promise)) [
    | inl e ↦ rw e (record {
      timers = v.timers;
      flying = v.flying;
      free = v.free;
      refused = λ q. absurd (cc (mode, q));
      shown = v.shown;
    })
    | inr e ↦ rw e (record {
      timers = v.timers;
      flying = v.flying;
      free = v.free;
      refused = λ q. absurd (cc (mode, q));
      shown = v.shown;
    })
  ]

  write-Inv : (level : Bool) (o : BinaryOutput) → Inv p o → Inv p (write p level o)
  unfolding write
  write-Inv level o v = elim (Bool-cases (is_in_progress o)) [
    | inl busy ↦ rw busy (by_mode p.block_mode refl)
    | inr idle ↦ rw idle (
        do_write-Inv p level caller o (record {
          inv = v;
          quiet = not_first o.writing (is_blocked o) idle;
          unblocked = not_second o.writing o.block_timeout idle;
        }))
  ]
    where
      by_mode :
          (m : BlockMode)
          → p.block_mode ≡ m
          → Inv p (
              if is_defer m
              then set_deferred_value level o
              else record o { returned = none ∷ o.returned })
      by_mode refuse e = record {
        timers = v.timers;
        flying = v.flying;
        free = v.free;
        refused = v.refused;
        shown = v.shown;
      }
      by_mode defer e = set_deferred_value-Inv level o e v

      not_first : (a b : Bool) → (a || b) ≡ false → a ≡ false
      not_first true b e = cc
      not_first false b e = refl

      not_second : (a : Bool) (b : Option ℕ) → (a || is_some b) ≡ false → b ≡ none
      not_second true b e = cc
      not_second false none e = refl
      not_second false (some n) e = cc

  fire-Inv : (h : ℕ) (o : BinaryOutput) → Inv p o → Inv p (fire h o)
  unfolding fire
  fire-Inv h o v = elim (Option-cases (armed_for h o.timers.armed)) [
    | inl e ↦ rw (e, fire) v
    | inr (id, e) ↦
        elim (fired_known block_id no_id apart o.block_timeout none o.timers h id v.timers e) [
          | inl same ↦
              let held =
                fired-first block_id no_id apart o.block_timeout none o.timers h v.timers
                  (rw same at e) in
              rw (e, fire)
                (record {
                  timers =
                      subst (λ x. Coherent (two block_id no_id none none) (disarm x o.timers)) held
                        (disarm-first block_id no_id apart o.block_timeout none o.timers v.timers);
                  flying = v.flying;
                  free = λ q. refl;
                  refused = v.refused;
                  shown = v.shown;
                })
          | inr same ↦ absurd (
              cc (
                fired-second block_id no_id apart o.block_timeout none o.timers h v.timers
                  (rw same at e)))
        ]
  ]

  poll-Inv : (io : Bool) (o : BinaryOutput) → Inv p o → Inv p (poll io o)
  unfolding poll
  poll-Inv io o v = elim (Bool-cases (differ o.current_io_value io)) [
    | inl e ↦
        let shown = polled-Shown io o v.shown in
        rw e (record {
          timers = v.timers;
          flying = v.flying;
          free = v.free;
          refused = v.refused;
          shown = rw e at shown;
        })
    | inr e ↦ rw e v
  ]

  step-Inv : (e : Event) (o : BinaryOutput) → Inv p o → Inv p (step p e o)
  unfolding step
  step-Inv (wrote level) o v = write-Inv level o v
  step-Inv (answered err i) o v = answer-Inv err i o v
  step-Inv (fired h) o v = fire-Inv h o v
  step-Inv (polled io) o v = poll-Inv io o v

  pub output_run-Inv : (es : List Event) (o : BinaryOutput) → Inv p o → Inv p (run p es o)
  unfolding run
  output_run-Inv [] o v = v
  output_run-Inv (e ∷ es) o v = output_run-Inv es (step p e o) (step-Inv e o v)
