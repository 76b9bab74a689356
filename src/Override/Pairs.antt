-- ===== src/Override/Pairs.antt =====
-- A callback waits just where a promise for its end was made, system/lib/QueueOverride.ts.
use squidlet.Base.{
  ℕ, ◌≡◌, refl, sym, ap, ◌∙◌, List, [], ◌∷◌, Option, none, some, String, true, str_eq, is_some,
  lookup, insert, delete, Dict, lookup-insert, lookup-delete, get_elem?, Bool-cases, Option-cases,
  inl, inr,
}
use squidlet.Timers.{armed_for}
use squidlet.Promised.{Outcome, pending, fulfilled, failed}
use squidlet.Override.{
  Item, QueueOverride, init, add, add_to, put_finish, stop, stop_item, handle_cb_success,
  success_item, next_step, start_waiting, handle_cb_error, error_item, settle, settled, caught,
  handle_job_timeout, timeout_item, fire, follow, follow_as,
}

pub data Call (C : Type 0) : Type 0 where
  adds : C → String → Call C
  stops : String → Call C
  settles : ℕ → Option String → Call C
  fires : ℕ → Call C
  follows : ℕ → Call C

module _ {C : Type 0} where
  abbrev pub Paired : Dict (Item C) → Type 0
  Paired m =
      (id : String) (it : Item C)
      → lookup id m ≡ some it
      → is_some it.queued_cb ≡ is_some it.finish_promised

  insert-Paired :
      (id : String) (it : Item C) (m : Dict (Item C))
      → is_some it.queued_cb ≡ is_some it.finish_promised
      → Paired m
      → Paired (insert id it m)
  insert-Paired id it m e p k a f = elim (Bool-cases (str_eq id k)) [
    | inl same ↦
        let eq : it ≡ a = cc (rw (lookup-insert id k it m, same) at f) in
        ap (λ x. is_some x.queued_cb) (sym eq) ∙ e ∙ ap (λ x. is_some x.finish_promised) eq
    | inr other ↦ p k a (rw (lookup-insert id k it m, other) at f)
  ]

  delete-Paired : (id : String) (m : Dict (Item C)) → Paired m → Paired (delete id m)
  delete-Paired id m p k a f = elim (Bool-cases (str_eq id k)) [
    | inl same ↦ absurd (cc (rw (lookup-delete id k m, same) at f))
    | inr other ↦ p k a (rw (lookup-delete id k m, other) at f)
  ]

  put_finish-Paired :
      (cb : C) (id : String) (it : Item C) (f : Option ℕ) (q : QueueOverride C)
      → it.finish_promised ≡ f
      → Paired q.items
      → Paired (put_finish cb id it f q).0.items
  put_finish-Paired cb id it none q e p = insert-Paired id _ q.items refl p
  put_finish-Paired cb id it (some f) q e p = insert-Paired id _ q.items (sym (ap is_some e)) p

  add_to-Paired :
      (cb : C) (id : String) (o : Option (Item C)) (q : QueueOverride C)
      → Paired q.items
      → Paired (add_to cb id o q).0.items
  add_to-Paired cb id none q p = insert-Paired id _ q.items refl p
  add_to-Paired cb id (some it) q p = put_finish-Paired cb id it it.finish_promised q refl p

  stop_item-Paired :
      (id : String) (o : Option (Item C)) (q : QueueOverride C)
      → Paired q.items
      → Paired (stop_item id o q).items
  stop_item-Paired id none q p = p
  stop_item-Paired id (some it) q p = delete-Paired id q.items p

  error_item-Paired :
      (err id : String) (o : Option (Item C)) (q : QueueOverride C)
      → Paired q.items
      → Paired (error_item err id o q).items
  error_item-Paired err id none q p = p
  error_item-Paired err id (some it) q p = delete-Paired id q.items p

  timeout_item-Paired :
      (id : String) (o : Option (Item C)) (q : QueueOverride C)
      → Paired q.items
      → Paired (timeout_item id o q).items
  timeout_item-Paired id none q p = p
  timeout_item-Paired id (some it) q p = delete-Paired id q.items p

  start_waiting-lem :
      (id : String) (cb : C) (f : Option ℕ) (q : QueueOverride C)
      → true ≡ is_some f
      → Paired q.items
      → ((start_waiting id (some cb) f q).1 ≡ none)
        × Paired (start_waiting id (some cb) f q).0.items
  start_waiting-lem id cb none q e p = cc
  start_waiting-lem id cb (some f) q e p = (refl, insert-Paired id _ q.items refl p)

  next_step-lem :
      (id : String) (it : Item C) (o : Option C) (q : QueueOverride C)
      → is_some o ≡ is_some it.finish_promised
      → Paired q.items
      → ((next_step id it o q).1 ≡ none) × Paired (next_step id it o q).0.items
  next_step-lem id it none q e p = (refl, delete-Paired id q.items p)
  next_step-lem id it (some cb) q e p = start_waiting-lem id cb it.finish_promised q e p

  success_item-lem :
      (id : String) (o : Option (Item C)) (q : QueueOverride C)
      → lookup id q.items ≡ o
      → Paired q.items
      → ((success_item id o q).1 ≡ none) × Paired (success_item id o q).0.items
  success_item-lem id none q e p = (refl, p)
  success_item-lem id (some it) q e p = next_step-lem id it it.queued_cb _ (p id it e) p

  -- Nothing is thrown when a callback ends without an error.
  pub handle_cb_success-lem :
      (id : String) (q : QueueOverride C)
      → Paired q.items
      → ((handle_cb_success id q).1 ≡ none) × Paired (handle_cb_success id q).0.items
  unfolding handle_cb_success
  handle_cb_success-lem id q p = success_item-lem id (lookup id q.items) q refl p

  caught-Paired :
      (id : String) (r : QueueOverride C × Option String)
      → r.1 ≡ none
      → Paired r.0.items
      → Paired (caught id r).items
  caught-Paired id (q, none) e p = p
  caught-Paired id (q, some err) e p = cc

  settled-Paired :
      (id : String) (err : Option String) (q : QueueOverride C)
      → Paired q.items
      → Paired (settled id err q).items
  unfolding handle_cb_error
  settled-Paired id none q p =
      let (fine, kept) = handle_cb_success-lem id q p in
      caught-Paired id (handle_cb_success id q) fine kept
  settled-Paired id (some err) q p = error_item-Paired err id (lookup id q.items) q p

  settle-Paired :
      (i : ℕ) (err : Option String) (q : QueueOverride C)
      → Paired q.items
      → Paired (settle i err q).items
  unfolding settle
  settle-Paired i err q p = elim (Option-cases (get_elem? q.in_flight i)) [
    | inl none_there ↦ rw (none_there, settle) p
    | inr (f, there) ↦ rw (there, settle) (settled-Paired f.0 err _ p)
  ]

  fire-Paired : (h : ℕ) (q : QueueOverride C) → Paired q.items → Paired (fire h q).items
  unfolding fire handle_job_timeout
  fire-Paired h q p = elim (Option-cases (armed_for h q.timers.armed)) [
    | inl idle ↦ rw (idle, fire) p
    | inr (id, there) ↦ rw (there, fire) (timeout_item-Paired id (lookup id q.items) _ p)
  ]

  as_outcome :
      (o : Outcome Unit) (f : ℕ) (q : QueueOverride C)
      → Paired q.items
      → Paired (follow_as o f q).items
  as_outcome pending f q p = p
  as_outcome (fulfilled a) f q p = p
  as_outcome (failed err) f q p = p

  followed : (i : ℕ) (q : QueueOverride C) → Paired q.items → Paired (follow i q).items
  unfolding follow
  followed i q p = elim (Option-cases (get_elem? q.followers i)) [
    | inl none_there ↦ rw (none_there, follow) p
    | inr (l, there) ↦ elim (Option-cases (get_elem? q.promises l.0)) [
      | inl missing ↦ rw (there, follow, missing) p
      | inr (m, found) ↦ rw (there, follow, found) (as_outcome m.outcome l.1 q p)
    ]
  ]

  pub step : Call C → QueueOverride C → QueueOverride C
  step (adds cb id) q = (add cb id q).0
  step (stops id) q = stop id q
  step (settles i err) q = settle i err q
  step (fires h) q = fire h q
  step (follows i) q = follow i q

  -- The calls stand newest first.
  pub history : List (Call C) → QueueOverride C
  history [] = init
  history (c ∷ cs) = step c (history cs)

  step-Paired : (c : Call C) (q : QueueOverride C) → Paired q.items → Paired (step c q).items
  unfolding step add stop
  step-Paired (adds cb id) q p = add_to-Paired cb id (lookup id q.items) q p
  step-Paired (stops id) q p = stop_item-Paired id (lookup id q.items) q p
  step-Paired (settles i err) q p = settle-Paired i err q p
  step-Paired (fires h) q p = fire-Paired h q p
  step-Paired (follows i) q p = followed i q p

  history-Paired : (cs : List (Call C)) → Paired (history cs).items
  unfolding history lookup
  history-Paired [] = λ id it e. cc
  history-Paired (c ∷ cs) = step-Paired c (history cs) (history-Paired cs)

  -- After any history of calls, ends of callbacks, timeouts and promises that settle on a new object:
  -- an item has a callback that waits just if it has the promise for the end of that callback, and
  -- the end of a callback without an error throws none of the errors of the queue itself.
  pub history-pairs :
      (cs : List (Call C))
      → Paired (history cs).items × ((id : String) → (handle_cb_success id (history cs)).1 ≡ none)
  history-pairs cs =
      (history-Paired cs, λ id. (handle_cb_success-lem id (history cs) (history-Paired cs)).0)
