-- ===== src/Click/Blocks.antt =====
-- The end of the time that a button is blocked.
use squidlet.Base.{ℕ, ◌≡◌, refl, ap, ◌∙◌, ◌∷◌, some, Bool, true, false}
use squidlet.Timers.{disarm}
use squidlet.Timers.Pair.{held-second}
use squidlet.Digital.{invert_if_need}
use squidlet.Click.{
  BinaryClickProps, BinaryClick, down, change, release_id, block_id, is_blocked, start_down_state,
  block_expired, fire, handle_change,
}
use squidlet.Click.Cycles.{Inv, apart, fire_block}

emitted-start_down_state :
    (p : BinaryClickProps) (c : BinaryClick)
    → (start_down_state p c).emitted ≡ down ∷ change true ∷ c.emitted
unfolding start_down_state
emitted-start_down_state p c = refl

press_taken :
    (p : BinaryClickProps) (level : Bool) (c : BinaryClick)
    → is_blocked c ≡ false
    → c.key_down ≡ false
    → invert_if_need (some level) (some c.inverted) ≡ true
    → (handle_change p level c).emitted ≡ down ∷ change true ∷ c.emitted
unfolding handle_change
press_taken p level c free was high = rw (free, high, was) (emitted-start_down_state p c)

module _ (h : ℕ) (c : BinaryClick) where
  abbrev unblocked : BinaryClick
  unblocked = block_expired (record c { timers = disarm (some h) c.timers })

  idle_block : is_blocked unblocked ≡ false
  unfolding block_expired
  idle_block = refl

  was_up : c.key_down ≡ false → unblocked.key_down ≡ false
  unfolding block_expired
  was_up was = was

  same_pin :
      (level : Bool)
      → invert_if_need (some level) (some c.inverted) ≡ true
      → invert_if_need (some level) (some unblocked.inverted) ≡ true
  unfolding block_expired
  same_pin level high = high

  same_log : unblocked.emitted ≡ c.emitted
  unfolding block_expired
  same_log = refl

still :
    (p : BinaryClickProps) (h : ℕ) (level : Bool) (c : BinaryClick)
    → c.block_timeout ≡ some h
    → handle_change p level c ≡ c
unfolding handle_change
still p h level c e = rw e

-- Where the object is blocked, the timer of the block is armed, and when it fires the object is no
-- longer blocked, the key is up and the next high level is taken for a press.
pub blocked-fire :
    (p : BinaryClickProps) (h : ℕ) (level : Bool) (c : BinaryClick) (n : ℕ)
    → Inv n c
    → c.block_timeout ≡ some h
    → invert_if_need (some level) (some c.inverted) ≡ true
    → (is_blocked (fire h c) ≡ false)
      × ((fire h c).key_down ≡ false)
      × ((handle_change p level (fire h c)).emitted ≡ down ∷ change true ∷ c.emitted)
      × (handle_change p level c ≡ c)
blocked-fire p h level c n v e high =
    let f = fire_block h c (
      held-second release_id block_id apart c.release_timeout c.block_timeout c.timers h v.timers
        e) in
    let was = v.blocked_up h e in
    rw f (
      idle_block h c,
      was_up h c was,
      press_taken p level (unblocked h c) (idle_block h c) (was_up h c was)
            (same_pin h c level high)
          ∙ ap (λ es. down ∷ change true ∷ es) (same_log h c),
      still p h level c e,
    )
