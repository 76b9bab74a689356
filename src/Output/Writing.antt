-- ===== src/Output/Writing.antt =====
-- One write at a time.
use squidlet.Base.{
  ◌≡◌, refl, ap, subst, List, [], ◌∷◌, ◌++◌, Option, none, some, String, str_eq, Bool, true, false,
  Bool-cases, inl, inr,
}
use squidlet.Timers.{is_used}
use squidlet.Timers.Coherent.{Coherent}
use squidlet.Timers.Pair.{two, no_timers-two, arm-first, disarm-first}
use squidlet.Output.{
  refuse, BinaryOutputProps, Waiting, caller, deferred_promise, BinaryOutput, block_id, cancel,
  tell, do_write, start_deferred, init, start_blocking, has_deferred, handle_success_writing,
  handle_error, after_write, io_value, differ,
}
use squidlet.Output.Levels.{Shown, take_level-Shown}

-- The pin has one write to answer while the object is writing, and none while it is not.
abbrev pub Flying : Bool → List Waiting → Type 0
Flying true ws = (who : Waiting) × (ws ≡ who ∷ [])
Flying false ws = ws ≡ []

abbrev pub no_id : String
no_id = ""

pub apart : str_eq block_id no_id ≡ false
apart = refl

pub record Inv (p : BinaryOutputProps) (o : BinaryOutput) : Type 0 where
  pub timers : Coherent (two block_id no_id o.block_timeout none) o.timers
  pub flying : Flying o.writing o.in_flight
  pub free : o.writing ≡ true → o.block_timeout ≡ none
  pub refused :
      p.block_mode ≡ refuse → (o.last_deferred_value ≡ none) × (o.deferred_write_promise ≡ none)
  pub shown : Shown o

-- Nothing is in progress.
pub record Idle (p : BinaryOutputProps) (o : BinaryOutput) : Type 0 where
  pub inv : Inv p o
  pub quiet : o.writing ≡ false
  pub unblocked : o.block_timeout ≡ none

module _ (p : BinaryOutputProps) where
  pub init-Inv : Inv p (init p)
  unfolding init
  init-Inv = record {
    timers = no_timers-two block_id no_id apart;
    flying = refl;
    free = λ e. refl;
    refused = λ e. (refl, refl);
    shown = tt;
  }

  pub do_write-Inv :
      (level : Bool) (who : Waiting) (o : BinaryOutput) → Idle p o → Inv p (do_write level who o)
  unfolding do_write
  do_write-Inv level who o i =
      let none_flies : o.in_flight ≡ [] = subst (λ b. Flying b o.in_flight) i.quiet i.inv.flying in
      let shown = take_level-Shown level o i.inv.shown in
      elim (Bool-cases (differ o.current_io_value (io_value level o.inverted))) [
        | inl new ↦ rw new (record {
          timers = i.inv.timers;
          flying = (who, ap (λ l. l ++ who ∷ []) none_flies);
          free = λ e. i.unblocked;
          refused = i.inv.refused;
          shown = rw new at shown;
        })
        | inr old ↦ rw old (record {
          timers = i.inv.timers;
          flying = (who, ap (λ l. l ++ who ∷ []) none_flies);
          free = λ e. i.unblocked;
          refused = i.inv.refused;
          shown = rw old at shown;
        })
      ]

  start_blocking-Inv : (o : BinaryOutput) → Idle p o → Inv p (start_blocking p o)
  unfolding start_blocking
  start_blocking-Inv o i = elim (Bool-cases (is_used p.block_time)) [
    | inl used ↦ rw used (record {
      timers =
          arm-first block_id no_id apart none o.timers
            (subst (λ x. Coherent (two block_id no_id x none) o.timers) i.unblocked i.inv.timers);
      flying = i.inv.flying;
      free = λ e. absurd (cc (i.quiet, e));
      refused = i.inv.refused;
      shown = i.inv.shown;
    })
    | inr unused ↦ rw unused i.inv
  ]

  start_deferred-Inv : (o : BinaryOutput) → Idle p o → Inv p (start_deferred o)
  unfolding start_deferred
  start_deferred-Inv o i =
      do_write-Inv _ _ (record o { last_deferred_value = none; deferred_write_promise = none })
        (record {
          inv = record {
            timers = i.inv.timers;
            flying = i.inv.flying;
            free = i.inv.free;
            refused = λ e. (refl, refl);
            shown = i.inv.shown;
          };
          quiet = i.quiet;
          unblocked = i.unblocked;
        })

  handle_success_writing-Inv : (o : BinaryOutput) → Idle p o → Inv p (handle_success_writing p o)
  unfolding handle_success_writing
  handle_success_writing-Inv o i = elim (Bool-cases (has_deferred p o)) [
    | inl e ↦ rw e (start_deferred-Inv o i)
    | inr e ↦ rw e (start_blocking-Inv o i)
  ]

  handle_error-Inv : (err : String) (o : BinaryOutput) → Idle p o → Inv p (handle_error p err o)
  unfolding handle_error cancel
  handle_error-Inv err o i = start_blocking-Inv _ (record {
    inv = record {
      timers = disarm-first block_id no_id apart o.block_timeout none o.timers i.inv.timers;
      flying = subst (λ b. Flying b o.in_flight) i.quiet i.inv.flying;
      free = λ e. refl;
      refused = λ e. (refl, refl);
      shown = i.inv.shown;
    };
    quiet = refl;
    unblocked = refl;
  })

  tell-Inv :
      (err : Option String) (who : Waiting) (o : BinaryOutput) → Inv p o → Inv p (tell err who o)
  unfolding tell
  tell-Inv err caller o v = record {
    timers = v.timers;
    flying = v.flying;
    free = v.free;
    refused = v.refused;
    shown = v.shown;
  }
  tell-Inv err (deferred_promise n) o v = record {
    timers = v.timers;
    flying = v.flying;
    free = v.free;
    refused = v.refused;
    shown = v.shown;
  }

  tell-Idle :
      (err : Option String) (who : Waiting) (o : BinaryOutput) → Idle p o → Idle p (tell err who o)
  unfolding tell
  tell-Idle err caller o i = record {
    inv = tell-Inv err caller o i.inv;
    quiet = i.quiet;
    unblocked = i.unblocked;
  }
  tell-Idle err (deferred_promise n) o i = record {
    inv = tell-Inv err (deferred_promise n) o i.inv;
    quiet = i.quiet;
    unblocked = i.unblocked;
  }

  pub after_write-Inv :
      (err : Option String) (who : Waiting) (o : BinaryOutput)
      → Idle p (record o { writing = false })
      → Inv p (after_write p err who o)
  unfolding after_write
  after_write-Inv none who o i = handle_success_writing-Inv _ (tell-Idle none who _ i)
  after_write-Inv (some err) who o i = tell-Inv (some err) who _ (handle_error-Inv err _ i)
