-- ===== src/RemoteCall/Arguments.antt =====
-- The arguments of a call, from one side to the other.
use squidlet.Base.{
  ℕ, suc, ◌<◌, ◌≡◌, refl, ◌∙◌, List, [], ◌∷◌, some, true, false, arith, ◌==◌, ==_iff, Bool-cases,
  inl, inr,
}
use squidlet.Binary.Bits.{same_text}
use squidlet.RemoteCall.{
  Arg, function, text, value, Given, fake_call_back, given_text, given_value, RemoteCall,
  is_call_back_mark, call_back_of, prepare_args_to_send, prepare_args_to_call, register_call_back,
}

pub same_text_self : (t : List ℕ) → same_text t t ≡ true
same_text_self [] = refl
same_text_self (c ∷ cs) =
    let same : (c == c) ≡ true = (==_iff c c).1 refl in rw same (same_text_self cs)

-- What the other side is given for the arguments: a fake callback whose id finds the callback, and
-- texts and values as they are.
abbrev pub Matched : {C V : Type 0} → List (List ℕ × C) → List (Arg C V) → List (Given V) → Type 0
Matched cbs [] [] = Unit
Matched cbs (function cb ∷ args) (fake_call_back id ∷ gs) =
    (call_back_of id cbs ≡ some cb) × Matched cbs args gs
Matched cbs (text t ∷ args) (given_text t' ∷ gs) = (t' ≡ t) × Matched cbs args gs
Matched cbs (value v ∷ args) (given_value v' ∷ gs) = (v' ≡ v) × Matched cbs args gs
Matched cbs _ _ = ⊥

-- No text among the arguments looks like the mark of a callback.
abbrev pub Unmarked : {C V : Type 0} → List (Arg C V) → Type 0
Unmarked [] = Unit
Unmarked (function cb ∷ args) = Unmarked args
Unmarked (text t ∷ args) = (is_call_back_mark t ≡ false) × Unmarked args
Unmarked (value v ∷ args) = Unmarked args

module _ {C V : Type 0} (generate : ℕ → List ℕ)
    (uniq : (a b : ℕ) → same_text (generate a) (generate b) ≡ true → a ≡ b) where
  abbrev after : List (Arg C V) → RemoteCall C V → RemoteCall C V
  after args r = (prepare_args_to_send generate args r).0

  -- Callbacks that are registered later do not hide one that was registered before.
  call_back_kept :
      (args : List (Arg C V)) (r : RemoteCall C V) (k : ℕ)
      → k < r.ids
      → call_back_of (generate k) (after args r).call_backs ≡ call_back_of (generate k) r.call_backs
  unfolding prepare_args_to_send
  call_back_kept [] r k h = refl
  call_back_kept (function cb ∷ args) r k h =
      let other : same_text (generate r.ids) (generate k) ≡ false =
        elim (Bool-cases (same_text (generate r.ids) (generate k))) [
          | inl e ↦ absurd (omega (arith, uniq r.ids k e))
          | inr e ↦ e
        ] in
      call_back_kept args (register_call_back generate cb r).0 k (later r k h) ∙ rw other
    where
      later : (r : RemoteCall C V) (k : ℕ) → k < r.ids → k < suc r.ids
      later r k h = omega arith
  call_back_kept (text t ∷ args) r k h = call_back_kept args r k h
  call_back_kept (value v ∷ args) r k h = call_back_kept args r k h

  -- For arguments of which no text looks like the mark of a callback, where the ids are unique: the
  -- other side is given each text and value as it is, and for each function a fake callback whose id
  -- finds that function on this side.
  pub prepare_args_to_call-send :
      (args : List (Arg C V)) (r : RemoteCall C V)
      → Unmarked args
      → Matched
          (after args r).call_backs
          args
          (prepare_args_to_call (prepare_args_to_send generate args r).1)
  unfolding prepare_args_to_send prepare_args_to_call
  prepare_args_to_call-send [] r u = tt
  prepare_args_to_call-send (function cb ∷ args) r u =
      let own : same_text (generate r.ids) (generate r.ids) ≡ true =
        same_text_self (generate r.ids) in
      (
        call_back_kept args (register_call_back generate cb r).0 r.ids (omega arith) ∙ rw own,
        prepare_args_to_call-send args (register_call_back generate cb r).0 u,
      )
  prepare_args_to_call-send (text t ∷ args) r u =
      rw u.0 (refl, prepare_args_to_call-send args r u.1)
  prepare_args_to_call-send (value v ∷ args) r u = (refl, prepare_args_to_call-send args r u)
