-- ===== src/Digital/Edges.antt =====
-- An inverted pin is listened to at the inverted edge, system/lib/digitalHelpers.ts.
use squidlet.Base.{◌≡◌, Option, none, some, Bool, not, ◌&&◌, ◌||◌, arith, Bool-cases, inl, inr}
use squidlet.Digital.{EdgeString, rising, falling, both, resolve_edge, invert_if_need, truthy}

-- Whether a change of the level is one that the edge stands for.
abbrev pub fires : EdgeString → Bool → Bool → Bool
fires rising old new = not old && new
fires falling old new = old && not new
fires both old new = (not old && new) || (old && not new)

abbrev pub wanted : Option EdgeString → EdgeString
wanted none = both
wanted (some e) = e

-- For each edge that is asked for, or none, inverted or not: a change of the level of the pin fires
-- the edge that `resolveEdge` gives just if the change of the level that `invertIfNeed` shows fires
-- the edge that was asked for.
pub fires-resolve_edge :
    (edge : Option EdgeString) (inverted : Option Bool) (old new : Bool)
    → fires (resolve_edge edge inverted) old new
      ≡ fires
          (wanted edge)
          (invert_if_need (some old) inverted)
          (invert_if_need (some new) inverted)
unfolding resolve_edge invert_if_need
fires-resolve_edge none inverted old new = elim (Bool-cases (truthy inverted)) [
  | inl on ↦ elim (Bool-cases old) [
    | inl o ↦ elim (Bool-cases new) [ inl n ↦ rw (on, o, n) | inr n ↦ rw (on, o, n) ]
    | inr o ↦ elim (Bool-cases new) [ inl n ↦ rw (on, o, n) | inr n ↦ rw (on, o, n) ]
  ]
  | inr off ↦ rw off
]
fires-resolve_edge (some e) inverted old new = ground arith
