-- ===== src/BinaryInput/Levels.antt =====
-- What the handlers of `onChange` are given, and the one timer.
use squidlet.Base.{
  ℕ, ◌≡◌, refl, sym, ap, subst, ◌∙◌, List, [], ◌∷◌, Option, none, some, String, str_eq, Bool, true,
  false, not, Bool-cases, Option-cases, inl, inr,
}
use squidlet.Timers.{disarm, armed_for, is_used}
use squidlet.Timers.Coherent.{Coherent}
use squidlet.Timers.Pair.{
  two, no_timers-two, arm-first, disarm-first, fired-first, fired-second, fired_known,
}
use squidlet.Output.{io_value, differ}
use squidlet.Output.Levels.{Alternating, io_value-not, eq_of_differ}
use squidlet.BinaryInput.{
  BinaryInputProps, BinaryInput, block_id, is_blocked, is_new, poll, cancel, fire, init,
  handle_change, Event, changed, polled, fired, cancelled, step, run,
}

abbrev pub no_id : String
no_id = ""

apart : str_eq block_id no_id ≡ false
apart = refl

-- Before the first level nothing was emitted; then the levels emitted go from one to the other, and
-- the last is the level that is kept.
abbrev pub Shown : Option Bool → Bool → List Bool → Type 0
Shown none inverted ls = ls ≡ []
Shown (some level) inverted ls =
    (rest : List Bool) × (ls ≡ io_value level inverted ∷ rest)
    × Alternating (io_value level inverted) ls

pub record Inv (b : BinaryInput) : Type 0 where
  pub timers : Coherent (two block_id no_id b.block_timeout none) b.timers
  pub shown : Shown b.last_io_level b.inverted b.emitted

pub init-Inv : (p : BinaryInputProps) → Inv (init p)
unfolding init
init-Inv p = record { timers = no_timers-two block_id no_id apart; shown = refl }

new_level-Shown :
    (last : Option Bool) (level inverted : Bool) (ls : List Bool)
    → is_new level last ≡ true
    → Shown last inverted ls
    → Shown (some level) inverted (io_value level inverted ∷ ls)
new_level-Shown none level inverted ls new s = (ls, refl, (refl, rw s tt))
new_level-Shown (some last) level inverted ls new (rest, e, alt) = (
  ls,
  refl,
  (
    refl,
    subst (λ b. Alternating b ls)
        (ap (λ b. io_value b inverted) (swapped level last new) ∙ io_value-not level inverted) alt,
  ),
)
  where
    swapped : (a b : Bool) → differ a b ≡ true → b ≡ not a
    swapped true true e = cc
    swapped true false e = refl
    swapped false true e = refl
    swapped false false e = cc

poll-Inv : (level : Bool) (b : BinaryInput) → Inv b → Inv (poll level b)
unfolding poll
poll-Inv level b v = elim (Bool-cases (is_new level b.last_io_level)) [
  | inl new ↦ rw new (record {
    timers = v.timers;
    shown = new_level-Shown b.last_io_level level b.inverted b.emitted new v.shown;
  })
  | inr old ↦ rw old v
]

handle_change-Inv :
    (p : BinaryInputProps) (level : Bool) (b : BinaryInput) → Inv b → Inv (handle_change p level b)
unfolding handle_change
handle_change-Inv p level b v = elim (Option-cases b.block_timeout) [
  | inr (h, blocked) ↦ let e : is_blocked b ≡ true = rw blocked in rw e v
  | inl free ↦
      let e : is_blocked b ≡ false = rw free in
      elim (Bool-cases (is_new level b.last_io_level)) [
        | inr old ↦ rw (e, old) v
        | inl new ↦
            let shown = new_level-Shown b.last_io_level level b.inverted b.emitted new v.shown in
            elim (Bool-cases (is_used p.block_time)) [
              | inl used ↦
                  rw (e, new, used)
                    (record {
                      timers = arm-first block_id no_id apart none b.timers (
                          subst (λ x. Coherent (two block_id no_id x none) b.timers) free v.timers);
                      shown = shown;
                    })
              | inr unused ↦ rw (e, new, unused) (record { timers = v.timers; shown = shown })
            ]
      ]
]

cancel-Inv : (b : BinaryInput) → Inv b → Inv (cancel b)
unfolding cancel
cancel-Inv b v = record {
  timers = disarm-first block_id no_id apart b.block_timeout none b.timers v.timers;
  shown = v.shown;
}

fire-Inv : (h : ℕ) (b : BinaryInput) → Inv b → Inv (fire h b)
unfolding fire
fire-Inv h b v = elim (Option-cases (armed_for h b.timers.armed)) [
  | inl e ↦ rw (e, fire) v
  | inr (id, e) ↦
      elim (fired_known block_id no_id apart b.block_timeout none b.timers h id v.timers e) [
        | inl same ↦
            let held =
              fired-first block_id no_id apart b.block_timeout none b.timers h v.timers
                (rw same at e) in
            rw (e, fire)
              (record {
                timers =
                    subst (λ x. Coherent (two block_id no_id none none) (disarm x b.timers)) held
                      (disarm-first block_id no_id apart b.block_timeout none b.timers v.timers);
                shown = v.shown;
              })
        | inr same ↦ absurd (
            cc (
              fired-second block_id no_id apart b.block_timeout none b.timers h v.timers
                (rw same at e)))
      ]
]

step-Inv : (p : BinaryInputProps) (e : Event) (b : BinaryInput) → Inv b → Inv (step p e b)
unfolding step
step-Inv p (changed level) b v = handle_change-Inv p level b v
step-Inv p (polled level) b v = poll-Inv level b v
step-Inv p (fired h) b v = fire-Inv h b v
step-Inv p cancelled b v = cancel-Inv b v

pub run-Inv : (p : BinaryInputProps) (es : List Event) (b : BinaryInput) → Inv b → Inv (run p es b)
unfolding run
run-Inv p [] b v = v
run-Inv p (e ∷ es) b v = run-Inv p es (step p e b) (step-Inv p e b v)

poll_shown : (level : Bool) (b : BinaryInput) → (poll level b).last_io_level ≡ some level
unfolding poll
poll_shown level b = elim (Bool-cases (is_new level b.last_io_level)) [
  | inl new ↦ rw new
  | inr old ↦ rw old (same b.last_io_level old)
]
  where
    same : (last : Option Bool) → is_new level last ≡ false → last ≡ some level
    same none e = cc
    same (some last) e = ap some (sym (eq_of_differ level last e))

poll-inverted : (level : Bool) (b : BinaryInput) → (poll level b).inverted ≡ b.inverted
unfolding poll
poll-inverted level b = elim (Bool-cases (is_new level b.last_io_level)) [
  | inl new ↦ rw new
  | inr old ↦ rw old
]

-- Whatever changes came before, were seen, or were lost while the object was blocked: after `poll` the
-- last level that was emitted is the one that the pin has, inverted where the pin is, and the levels
-- emitted go from one to the other at each emission.
pub poll-run :
    (p : BinaryInputProps) (es : List Event) (level : Bool)
    → let b = poll level (run p es (init p)) in
      (rest : List Bool) × (b.emitted ≡ io_value level b.inverted ∷ rest)
      × Alternating (io_value level b.inverted) b.emitted
poll-run p es level =
    let b = run p es (init p) in
    let v = poll-Inv level b (run-Inv p es (init p) (init-Inv p)) in
    subst (λ l. Shown l (poll level b).inverted (poll level b).emitted) (poll_shown level b) v.shown
