-- ===== src/Output/Levels.antt =====
-- The levels that the handlers of `onChange` are given.
use squidlet.Base.{
  ◌≡◌, refl, sym, ap, subst, ◌∙◌, List, [], ◌∷◌, Bool, true, false, not, Bool-cases, inl, inr,
}
use squidlet.Output.{BinaryOutput, io_value, differ, take_level}
use squidlet.Digital.{invert_if_need}

-- A list of levels, the newest first, that goes from one level to the other at each place, and whose
-- newest is `level`.
abbrev pub Alternating : Bool → List Bool → Type 0
Alternating level [] = Unit
Alternating level (l ∷ ls) = (l ≡ level) × Alternating (not level) ls

pub io_value_twice : (level inverted : Bool) → io_value (io_value level inverted) inverted ≡ level
unfolding invert_if_need
io_value_twice true true = refl
io_value_twice true false = refl
io_value_twice false true = refl
io_value_twice false false = refl

pub io_value-not :
    (level inverted : Bool) → io_value (not level) inverted ≡ not (io_value level inverted)
unfolding invert_if_need
io_value-not true true = refl
io_value-not true false = refl
io_value-not false true = refl
io_value-not false false = refl

not_twice : (b : Bool) → not (not b) ≡ b
not_twice true = refl
not_twice false = refl

pub eq_of_differ : (a b : Bool) → differ a b ≡ false → a ≡ b
eq_of_differ true true e = refl
eq_of_differ true false e = cc
eq_of_differ false true e = cc
eq_of_differ false false e = refl

pub not_of_differ : (a b : Bool) → differ a b ≡ true → a ≡ not b
not_of_differ true true e = cc
not_of_differ true false e = refl
not_of_differ false true e = refl
not_of_differ false false e = cc

-- The level that stands at the pin, as the owner sees it, was the last to be emitted.
abbrev pub Shown : BinaryOutput → Type 0
Shown o = Alternating (io_value o.current_io_value o.inverted) o.emitted

pub take_level-Shown :
    (level : Bool) (o : BinaryOutput)
    → Shown o
    → Shown (take_level level (io_value level o.inverted) o)
take_level-Shown level o s =
    elim (Bool-cases (differ o.current_io_value (io_value level o.inverted))) [
      | inl new ↦ rw new (
        sym (io_value_twice level o.inverted),
        subst (λ b. Alternating b o.emitted)
            (ap (λ b. io_value b o.inverted) (not_of_differ _ _ new)
              ∙ io_value-not (io_value level o.inverted) o.inverted)
            s,
      )
      | inr old ↦ rw old s
    ]

pub polled-Shown :
    (io : Bool) (o : BinaryOutput) → Shown o → Shown (take_level (io_value io o.inverted) io o)
polled-Shown io o s =
    subst (λ b. Shown (take_level (io_value io o.inverted) b o)) (io_value_twice io o.inverted)
      (take_level-Shown (io_value io o.inverted) o s)
