-- ===== src/Events/Indexed/Laws.antt =====
-- `emit` of system/lib/IndexedEvents.ts against one pass over the handlers that stood there at the
-- call, although wrappers remove themselves from the array while it is walked.
use squidlet.Base.{
  ℕ, zero, suc, ◌+◌, ◌≡◌, refl, sym, ap, List, [], ◌∷◌, ◌++◌, append_assoc, Option, none, some,
  String, length, length-append, get_elem?, get_elem?-middle, set, set-middle, ap₂, inl, inr, subst,
  append-nil, arith, Option-cases, ◌∙◌,
}
use squidlet.Events.Handler.{Handler, plain, wrapper, target, deliver}
use squidlet.Events.Indexed.{
  Events, Emitted, call_handler, remove_listener, emit_from, emit, call_then, after_call,
}

abbrev pub unless_thrown {ℓ} : {A : Type ℓ} → Option String → A → A → A
unless_thrown (some err) x y = x
unless_thrown none x y = y

unless_thrown_both {ℓ κ} :
    {A : Type ℓ} (P : A → Type κ) (r : Option String) (x y : A)
    → P x
    → P y
    → P (unless_thrown r x y)
unless_thrown_both P none x y p q = q
unless_thrown_both P (some err) x y p q = p

module _ {H : Type 0} where
  -- A wrapper stands at the index that it captured.
  abbrev pub Own : ℕ → Handler H → Type 0
  Own n (plain h) = Unit
  Own n (wrapper h w) = w ≡ n

  abbrev pub SelfWrapped : ℕ → List (Option (Handler H)) → Type 0
  SelfWrapped n [] = Unit
  SelfWrapped n (none ∷ hs) = SelfWrapped (suc n) hs
  SelfWrapped n (some h ∷ hs) = Own n h × SelfWrapped (suc n) hs

  -- The handlers in the order of registration, without the holes.
  abbrev pub listening : List (Option (Handler H)) → List H
  listening [] = []
  listening (none ∷ hs) = listening hs
  listening (some h ∷ hs) = target h ∷ listening hs

  abbrev pub kept : Handler H → Option (Handler H)
  kept (plain h) = some (plain h)
  kept (wrapper h w) = none

  -- What is left in the array: each wrapper that was called is gone.
  abbrev pub left_over : (H → Option String) → List (Option (Handler H)) → List (Option (Handler H))
  left_over run [] = []
  left_over run (none ∷ hs) = none ∷ left_over run hs
  left_over run (some h ∷ hs) = kept h ∷ unless_thrown (run (target h)) hs (left_over run hs)

  abbrev at_list : List (Option (Handler H)) → Events H
  at_list hs = record { handlers = hs }

  call-middle :
      (n : ℕ) (pre hs all : List (Option (Handler H))) (h : Handler H)
      → length pre ≡ n
      → all ≡ pre ++ some h ∷ hs
      → Own n h
      → call_handler h (at_list all) ≡ at_list (pre ++ kept h ∷ hs)
  unfolding call_handler
  call-middle n pre hs all (plain h) len e own = ap at_list e
  call-middle n pre hs all (wrapper h w) len e own =
      let at : w ≡ length pre = own ∙ sym len in
      let got : get_elem? all w ≡ some (some (wrapper h w)) =
        ap₂ get_elem? e at ∙ get_elem?-middle pre hs (some (wrapper h w)) in
      let freed : set all w none ≡ pre ++ none ∷ hs =
        ap₂ (λ xs i. set xs i none) e at ∙ set-middle pre hs (some (wrapper h w)) none in
      rw (got, remove_listener) (ap at_list freed)

  abbrev pub pass :
      (H → Option String) → List (Option (Handler H)) → List (Option (Handler H)) → Emitted H
  pass run pre hs = record {
    events = at_list (pre ++ left_over run hs);
    calls = (deliver run (listening hs)).0;
    error = (deliver run (listening hs)).1;
  }

  -- One more handler of the array is behind the loop.
  pass-snoc :
      (run : H → Option String) (pre hs : List (Option (Handler H))) (x : Option (Handler H))
      → pass run (pre ++ x ∷ []) hs ≡ record {
        events = at_list (pre ++ x ∷ left_over run hs);
        calls = (deliver run (listening hs)).0;
        error = (deliver run (listening hs)).1;
      }
  pass-snoc run pre hs x = simp append_assoc

  emit_from_lem :
      (run : H → Option String) (n : ℕ) (pre all hs : List (Option (Handler H)))
      → length pre ≡ n
      → all ≡ pre ++ hs
      → SelfWrapped n hs
      → emit_from run (length hs) n (at_list all) ≡ pass run pre hs
  unfolding emit_from
  emit_from_lem run n pre all [] len e own = rw (append-nil, e) (rw append-nil)
  emit_from_lem run n pre all (none ∷ hs) len e own =
      let got : get_elem? all n ≡ some none = rw (e, ← len) (get_elem?-middle pre hs none) in
      let ih =
        emit_from_lem run (suc n) (pre ++ none ∷ []) all hs
          (omega (arith, length-append pre (none ∷ []))) (rw (e, append_assoc)) own in
      rw (got, emit_from) (ih ∙ pass-snoc run pre hs none)
  emit_from_lem run n pre all (some h ∷ hs) len e own =
      let got : get_elem? all n ≡ some (some h) =
        rw (e, ← len) (get_elem?-middle pre hs (some h)) in
      let called = call-middle n pre hs all h len e own.0 in
      let ih =
        emit_from_lem run (suc n) (pre ++ kept h ∷ []) (pre ++ kept h ∷ hs) hs
          (omega (arith, length-append pre (kept h ∷ []))) (rw append_assoc) own.1 in
      elim (Option-cases (run (target h))) [
        | inl fine ↦
            rw (got, emit_from, call_then, fine, called, ih)
              (ap (after_call (target h)) (pass-snoc run pre hs (kept h)))
        | inr (err, bad) ↦ rw (got, emit_from, call_then, bad, called)
      ]

  -- `emit` calls exactly the handlers that stood in the array at the call, in the order of their
  -- registration and up to the first that throws, whose error it throws; it leaves the array as it
  -- was, without the `once` wrappers among those that were called.
  pub emit_lem :
      (run : H → Option String) (e : Events H)
      → SelfWrapped 0 e.handlers
      → emit run e ≡ pass run [] e.handlers
  unfolding emit
  emit_lem run e own = emit_from_lem run 0 [] e.handlers e.handlers refl refl own

  pub SelfWrapped-append :
      (n : ℕ) (hs : List (Option (Handler H))) (h : Handler H)
      → SelfWrapped n hs
      → Own (n + length hs) h
      → SelfWrapped n (hs ++ some h ∷ [])
  SelfWrapped-append n [] h own o = (subst (λ k. Own k h) (omega arith) o, tt)
  SelfWrapped-append n (none ∷ hs) h own o =
      SelfWrapped-append (suc n) hs h own (subst (λ k. Own k h) (omega arith) o)
  SelfWrapped-append n (some x ∷ hs) h own o =
      (own.0, SelfWrapped-append (suc n) hs h own.1 (subst (λ k. Own k h) (omega arith) o))

  pub SelfWrapped-set :
      (n i : ℕ) (hs : List (Option (Handler H))) → SelfWrapped n hs → SelfWrapped n (set hs i none)
  SelfWrapped-set n i [] own = tt
  SelfWrapped-set n zero (none ∷ hs) own = own
  SelfWrapped-set n zero (some h ∷ hs) own = own.1
  SelfWrapped-set n (suc i) (none ∷ hs) own = SelfWrapped-set (suc n) i hs own
  SelfWrapped-set n (suc i) (some h ∷ hs) own = (own.0, SelfWrapped-set (suc n) i hs own.1)

  pub SelfWrapped-left_over :
      (run : H → Option String) (n : ℕ) (hs : List (Option (Handler H)))
      → SelfWrapped n hs
      → SelfWrapped n (left_over run hs)
  SelfWrapped-left_over run n [] own = tt
  SelfWrapped-left_over run n (none ∷ hs) own = SelfWrapped-left_over run (suc n) hs own
  SelfWrapped-left_over run n (some (plain h) ∷ hs) own = (
    tt,
    unless_thrown_both (SelfWrapped (suc n)) (run h) hs _ own.1
        (SelfWrapped-left_over run (suc n) hs own.1),
  )
  SelfWrapped-left_over run n (some (wrapper h w) ∷ hs) own =
      unless_thrown_both (SelfWrapped (suc n)) (run h) hs _ own.1
        (SelfWrapped-left_over run (suc n) hs own.1)

  slot-quiet :
      (run : H → Option String) (rounds i : ℕ) (e : Events H) (o : Option (Option (Handler H)))
      → get_elem? e.handlers i ≡ o
      → ((h : H) → run h ≡ none)
      → ((e' : Events H) → (emit_from run rounds (suc i) e').error ≡ none)
      → (emit_from run (suc rounds) i e).error ≡ none
  unfolding emit_from
  slot-quiet run rounds i e none there quiet rest = rw (there, emit_from) (rest e)
  slot-quiet run rounds i e (some none) there quiet rest = rw (there, emit_from) (rest e)
  slot-quiet run rounds i e (some (some h)) there quiet rest =
      rw (there, emit_from, call_then, quiet (target h)) (rest (call_handler h e))

  emit_from-quiet :
      (run : H → Option String) (rounds i : ℕ) (e : Events H)
      → ((h : H) → run h ≡ none)
      → (emit_from run rounds i e).error ≡ none
  unfolding emit_from
  emit_from-quiet run zero i e quiet = refl
  emit_from-quiet run (suc rounds) i e quiet =
      slot-quiet run rounds i e (get_elem? e.handlers i) refl quiet
        (λ e'. emit_from-quiet run rounds (suc i) e' quiet)

  -- Nothing is thrown if no handler throws.
  pub emit-quiet :
      (run : H → Option String) (e : Events H)
      → ((h : H) → run h ≡ none)
      → (emit run e).error ≡ none
  unfolding emit
  emit-quiet run e quiet = emit_from-quiet run (length e.handlers) 0 e quiet
