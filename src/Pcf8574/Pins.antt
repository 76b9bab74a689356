-- ===== src/Pcf8574/Pins.antt =====
-- What a state that is written does to each pin.
use squidlet.Base.{
  ℕ, zero, suc, ◌+◌, ◌≤◌, ◌<◌, ◌%◌, ◌≡◌, ◌≢◌, refl, ap, subst, ◌∙◌, [], ◌∷◌, Option, Bool, true,
  false, ◌||◌, ◌==◌, ==_iff, if◌then◌else◌, Bool-cases, inl, inr, arith, Result, ok,
}
use squidlet.Binary.Bits.{with_bit}
use squidlet.Binary.Bits.Laws.{
  is_set, is_set-with_bit, pow2, with_bit-lt, update_bit_in_byte_ok, get_bit_from_byte_ok,
}
use squidlet.Digital.{PinDirection}
use squidlet.Pcf8574.{
  Pcf8574, is_output, is_input, copy_output, raise_input, prepare_from, write_state, prepare_to_ic,
  write_to_ic, has_input_pins, includes_input, write_whole,
}

-- The byte after a round that writes `value` where `chosen`.
abbrev after_round : Bool → Bool → ℕ → ℕ → ℕ
after_round chosen value pin prepared = if chosen then with_bit prepared pin value else prepared

-- The byte behind the rounds from `pin` on: of the pins that they pass, those that are chosen have
-- the value given, all others are as before, and a byte stays a byte.
pub record Prepared (chosen value : ℕ → Bool) (left pin prepared : ℕ) (result : Result ℕ)
    : Type 0 where
  pub byte : ℕ
  pub returned : result ≡ ok byte
  pub small : prepared < pow2 8 → byte < pow2 8
  pub before : (q : ℕ) → q < pin → is_set byte q ≡ is_set prepared q
  pub passed :
      (q : ℕ)
      → pin ≤ q
      → q < pin + left
      → is_set byte q ≡ (if chosen q then value q else is_set prepared q)

is_set-after_round :
    (chosen value : Bool) (pin prepared q : ℕ)
    → pin ≢ q
    → is_set (after_round chosen value pin prepared) q ≡ is_set prepared q
is_set-after_round true value pin prepared q ne =
    let other : (pin == q) ≡ false = ground arith in is_set-with_bit prepared pin q value ∙ rw other
is_set-after_round false value pin prepared q ne = refl

is_set-after_round_self :
    (chosen value : Bool) (pin prepared : ℕ)
    → is_set (after_round chosen value pin prepared) pin
      ≡ (if chosen then value else is_set prepared pin)
is_set-after_round_self true value pin prepared =
    let own : (pin == pin) ≡ true = ground arith in is_set-with_bit prepared pin pin value ∙ rw own
is_set-after_round_self false value pin prepared = refl

after_round-lt :
    (chosen value : Bool) (pin prepared : ℕ)
    → pin < 8
    → prepared < pow2 8
    → after_round chosen value pin prepared < pow2 8
after_round-lt true value pin prepared h b = with_bit-lt prepared pin 8 value h b
after_round-lt false value pin prepared h b = b

module _ (chosen value : ℕ → Bool) (round : ℕ → ℕ → Result ℕ)
    (works : (pin prepared : ℕ)
      → pin < 8
      → round pin prepared ≡ ok (after_round (chosen pin) (value pin) pin prepared)) where
  prepare_from-Prepared :
      (left pin prepared : ℕ)
      → pin + left ≤ 8
      → Prepared chosen value left pin prepared (prepare_from round left pin prepared)
  unfolding prepare_from
  prepare_from-Prepared zero pin prepared h = record {
    byte = prepared;
    returned = refl;
    small = λ b. b;
    before = λ q lt. refl;
    passed = λ q le lt. absurd (omega arith);
  }
  prepare_from-Prepared (suc left) pin prepared h =
      let next = after_round (chosen pin) (value pin) pin prepared in
      let r = prepare_from-Prepared left (suc pin) next (omega arith) in
      record {
        byte = r.byte;
        returned = rw (works pin prepared (omega arith)) r.returned;
        small = λ b. r.small (after_round-lt (chosen pin) (value pin) pin prepared (omega arith) b);
        before = λ q lt.
            r.before q (omega arith)
            ∙ is_set-after_round (chosen pin) (value pin) pin prepared q (λ e. omega (arith, e));
        passed = λ q le lt. elim (Bool-cases (pin == q)) [
          | inl same ↦
              let here : pin ≡ q = (==_iff pin q).0 same in
              subst (λ k. is_set r.byte k ≡ (if chosen k then value k else is_set prepared k)) here
                (r.before pin (omega arith)
                  ∙ is_set-after_round_self (chosen pin) (value pin) pin prepared)
          | inr other ↦
              let ne : pin ≢ q = λ e. cc (other, (==_iff pin q).1 e) in
              r.passed q (further pin q le ne) (omega arith)
              ∙ ap (λ b. if chosen q then value q else b)
                  (is_set-after_round (chosen pin) (value pin) pin prepared q ne)
        ];
      }
    where
      further : (a b : ℕ) → a ≤ b → a ≢ b → suc a ≤ b
      further a b le ne = ground arith

copy_output_works :
    (directions : ℕ → Option PinDirection) (new_state pin prepared : ℕ)
    → pin < 8
    → copy_output directions new_state pin prepared
      ≡ ok (after_round (is_output (directions pin)) (is_set new_state pin) pin prepared)
unfolding copy_output
copy_output_works directions new_state pin prepared h =
    elim (Bool-cases (is_output (directions pin))) [
      | inl out ↦
          rw (out, get_bit_from_byte_ok new_state pin h)
            (update_bit_in_byte_ok prepared pin (is_set new_state pin) h)
      | inr kept ↦ rw kept
    ]

raise_input_works :
    (directions : ℕ → Option PinDirection) (pin prepared : ℕ)
    → pin < 8
    → raise_input directions pin prepared
      ≡ ok (after_round (is_input (directions pin)) true pin prepared)
unfolding raise_input
raise_input_works directions pin prepared h = elim (Bool-cases (is_input (directions pin))) [
  | inl is_in ↦ rw is_in (update_bit_in_byte_ok prepared pin true h)
  | inr kept ↦ rw kept
]

-- `writeState` of any number, where the state is a byte, gives no error: the byte that becomes the
-- state in the step of the set up, and is passed on to be written after it, has the bits of the number
-- at the outputs and those of the state at all other pins.
pub write_state_outputs :
    (new_state : ℕ) (e : Pcf8574)
    → e.current_state < 256
    → (byte : ℕ) × (write_state new_state e
        ≡ ok (
            if e.setup_step
            then record e { current_state = byte }
            else record e { asked = write_whole byte ∷ e.asked }))
      × (byte < 256)
      × ((q : ℕ)
          → q < 8
          → is_set byte q
            ≡ (if is_output (e.directions q) then is_set new_state q else is_set e.current_state q))
unfolding write_state
write_state_outputs new_state e b =
    let r =
      prepare_from-Prepared (λ pin. is_output (e.directions pin)) (is_set new_state)
        (copy_output e.directions new_state) (copy_output_works e.directions new_state) 8 0
        e.current_state (omega arith) in
    (
      r.byte,
      rw r.returned (choose e.setup_step r.byte e),
      r.small b,
      λ q h. r.passed q (omega arith) (omega arith),
    )
  where
    choose :
        (step : Bool) (byte : ℕ) (e : Pcf8574)
        → (if step
            then ok (record e { current_state = byte })
            else ok (record e { asked = write_whole byte ∷ e.asked }))
          ≡ ok (
              if step
              then record e { current_state = byte }
              else record e { asked = write_whole byte ∷ e.asked })
    choose true byte e = refl
    choose false byte e = refl

no_input :
    (directions : ℕ → Option PinDirection) (pin q : ℕ)
    → includes_input directions pin ≡ false
    → q < pin
    → is_input (directions q) ≡ false
unfolding includes_input
no_input directions zero q e h = absurd (omega arith)
no_input directions (suc pin) q e h =
    let (others, own) = both_false (includes_input directions pin) (is_input (directions pin)) e in
    elim (Bool-cases (pin == q)) [
      | inl same ↦ subst (λ k. is_input (directions k) ≡ false) ((==_iff pin q).0 same) own
      | inr other ↦ no_input directions pin q others (below other)
    ]
  where
    below : (pin == q) ≡ false → q < pin
    below other = ground arith

    both_false : (a b : Bool) → (a || b) ≡ false → (a ≡ false) × (b ≡ false)
    both_false true b e = cc
    both_false false b e = (refl, e)

prepare_to_ic_inputs :
    (new_state : ℕ) (e : Pcf8574)
    → new_state < 256
    → (byte : ℕ) × (prepare_to_ic new_state e ≡ ok byte)
      × (byte < 256)
      × ((q : ℕ)
          → q < 8
          → is_set byte q ≡ (if is_input (e.directions q) then true else is_set new_state q))
unfolding prepare_to_ic has_input_pins
prepare_to_ic_inputs new_state e b = elim (Bool-cases (has_input_pins e)) [
  | inl some_in ↦
      let r =
        prepare_from-Prepared (λ pin. is_input (e.directions pin)) (λ pin. true)
          (raise_input e.directions) (raise_input_works e.directions) 8 0 new_state (omega arith) in
      (r.byte, rw some_in r.returned, r.small b, λ q h. r.passed q (omega arith) (omega arith))
  | inr none_in ↦ (new_state, rw none_in, b, λ q h. rw (no_input e.directions 8 q none_in h))
]

-- A state that is written to the expander, where it is a byte, gives no error and sends one byte: it
-- is high at every input, as the expander needs, and has the bit of the state at every other pin.
pub write_to_ic_inputs :
    (new_state : ℕ) (e : Pcf8574)
    → new_state < 256
    → (byte : ℕ) × (write_to_ic new_state e ≡ ok (record e { sent = (byte ∷ []) ∷ e.sent }))
      × (byte < 256)
      × ((q : ℕ)
          → q < 8
          → is_set byte q ≡ (if is_input (e.directions q) then true else is_set new_state q))
unfolding write_to_ic
write_to_ic_inputs new_state e b =
    let (byte, returned, small, bits) = prepare_to_ic_inputs new_state e b in
    let same : byte % 256 ≡ byte = omega arith in (byte, rw (returned, same), small, bits)
