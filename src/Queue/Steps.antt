-- ===== src/Queue/Steps.antt =====
-- Each method of system/lib/Queue.ts keeps the invariant, and the errors that it checks for itself
-- when a job ends are never thrown.
use squidlet.Base.{
  ℕ, ◌≡◌, refl, ◌∙◌, [], ◌∷◌, append_assoc, Option, none, some, option_list, String, false,
  get_elem?, Distinct, Distinct-snoc, Bool-cases, Option-cases, inl, inr, str_eq, eq_refl, Result,
  ok,
}
use squidlet.Queue.{
  Job, Queue, ids, clear_timeout, new_job, finalize_current_job, in_queue, has_id, emit_end,
  handle_cb_finished, settle, fire, cancel_job, cancel_current, add, add_resolved, push_job,
  resolve_job_id,
}
use squidlet.Queue.Ids.{Distinct-remove_queued, Distinct-update_queued, absent_anywhere, ids-snoc}
use squidlet.Queue.Ends.{waiting_of, Armed-cleared, Armed-fired, settled_alive, alive_marked}
use squidlet.Queue.Invariant.{
  Inv, IsSettled, all_ids, live, start_next_job_if_need-Inv, live-remove_at_canceled,
}

module _ {C : Type 0} where
  -- A result that is a queue in good order.
  abbrev pub Good : Result (Queue C) → Type 0
  Good r = (q : Queue C) × (r ≡ ok q) × Inv q × IsSettled q

  push_job-Inv :
      (cb : C) (id : String) (q : Queue C)
      → has_id id q.current_job ≡ false
      → in_queue id q.queue ≡ false
      → Inv q
      → Inv (push_job cb id q)
  unfolding push_job
  push_job-Inv cb id q h e v = record {
    distinct =
        rw (← append_assoc (option_list q.current_job) q.queue (new_job cb id q ∷ []), ids-snoc)
          (Distinct-snoc (all_ids q) id v.distinct (absent_anywhere q.current_job id q.queue h e));
    running = v.running;
    armed = v.armed;
  }

  add_resolved-Inv :
      (cb : C) (id : String) (q : Queue C)
      → Inv q
      → Inv (add_resolved cb id q) × (IsSettled q → IsSettled (add_resolved cb id q))
  unfolding add_resolved
  add_resolved-Inv cb id q v = elim (Bool-cases (has_id id q.current_job)) [
    | inl current ↦ rw current (v, λ s. s)
    | inr other ↦ elim (Bool-cases (in_queue id q.queue)) [
      | inl waiting ↦
          rw (other, waiting)
            (
              record {
                distinct = Distinct-update_queued q.current_job id cb q.queue v.distinct;
                running = v.running;
                armed = v.armed;
              },
              λ s e. rw (s e),
            )
      | inr new ↦
          let (w, t) = start_next_job_if_need-Inv _ (push_job-Inv cb id q other new v) in
          rw (other, new) (w, λ _. t)
    ]
  ]

  -- `add` keeps the invariant, also when a listener calls it while a job is ending.
  pub add-Inv :
      (cb : C) (id : Option String) (q : Queue C)
      → Inv q
      → Inv (add cb id q).0 × (IsSettled q → IsSettled (add cb id q).0)
  unfolding add
  add-Inv cb (some id) q v = add_resolved-Inv cb id q v
  add-Inv cb none q v =
      add_resolved-Inv cb _ (resolve_job_id none q).0
        (record { distinct = v.distinct; running = v.running; armed = v.armed })

module _ {C : Type 0} (on_end : Option String → String → Queue C → Queue C)
    (keeps : (err : Option String) (id : String) (q : Queue C)
      → Inv q
      → Inv (on_end err id q)) where
  -- A queue whose current job is over.
  record Over (q : Queue C) : Type 0 where
    waiting : Distinct (ids q.queue)
    none_alive : live q.in_flight ≡ []
    cleared : clear_timeout q.running_timeout q.timers ≡ []

  ended_lem :
      (err : Option String) (id : String) (q : Queue C)
      → Over q
      → Inv (emit_end on_end err id (finalize_current_job q))
  unfolding emit_end finalize_current_job
  ended_lem err id q o =
      keeps err id _
        (record { distinct = o.waiting; running = o.none_alive; armed = (refl, o.cleared) })

  handle_cb_finished-Good :
      (err : Option String) (j : Job C) (q : Queue C)
      → q.current_job ≡ some j
      → Over q
      → Good (handle_cb_finished on_end err j q)
  unfolding handle_cb_finished
  handle_cb_finished-Good err j q e o =
      let (v, s) = start_next_job_if_need-Inv _ (ended_lem err j.id q o) in
      (_, rw (e, eq_refl j.id), v, s)

  -- Whenever a callback settles, with or without an error, the queue goes on in good order.
  pub settle-Good :
      (i : ℕ) (err : Option String) (q : Queue C)
      → Inv q
      → IsSettled q
      → Good (settle on_end i err q)
  unfolding settle
  settle-Good i err q v s = elim (Option-cases (get_elem? q.in_flight i)) [
    | inl nothing ↦ (q, rw (nothing, settle), v, s)
    | inr (f, e) ↦ elim (Bool-cases f.canceled) [
      | inl off ↦
          rw (e, settle, off)
            (
              _,
              refl,
              record {
                distinct = v.distinct;
                running = live-remove_at_canceled q.in_flight i f e off ∙ v.running;
                armed = v.armed;
              },
              s,
            )
      | inr on ↦
          let (now, idle) = settled_alive q.current_job q.in_flight i f v.running e on in
          rw (e, settle, on)
            (handle_cb_finished-Good err f.job _ now (record {
              waiting = waiting_of q.current_job q.queue v.distinct;
              none_alive = idle;
              cleared = Armed-cleared q.current_job q.running_timeout q.timers v.armed;
            }))
    ]
  ]

  -- The same when a timer fires.
  pub fire-Good : (i : ℕ) (q : Queue C) → Inv q → IsSettled q → Good (fire on_end i q)
  unfolding fire
  fire-Good i q v s = elim (Option-cases (get_elem? q.timers i)) [
    | inl nothing ↦ (q, rw (nothing, fire), v, s)
    | inr (t, e) ↦
        let (now, over) = Armed-fired q.current_job q.running_timeout q.timers i t v.armed e in
        rw (e, fire)
          (handle_cb_finished-Good _ t.job _ now (record {
            waiting = waiting_of q.current_job q.queue v.distinct;
            none_alive = alive_marked q.current_job t.job q.in_flight now v.running;
            cleared = over;
          }))
  ]

  cancel_current-Inv :
      (id : String) (c : Option (Job C)) (q : Queue C)
      → q.current_job ≡ c
      → Inv q
      → Inv (cancel_current on_end id c q)
  cancel_current-Inv id none q e v = v
  cancel_current-Inv id (some j) q e v = elim (Bool-cases (str_eq j.id id)) [
    | inl hit ↦ rw hit (
        ended_lem none id _ (record {
          waiting = waiting_of q.current_job q.queue v.distinct;
          none_alive = alive_marked q.current_job j q.in_flight e v.running;
          cleared = Armed-cleared q.current_job q.running_timeout q.timers v.armed;
        }))
    | inr miss ↦ rw miss v
  ]

  pub cancel_job-Inv :
      (id : String) (q : Queue C)
      → Inv q
      → Inv (cancel_job on_end id q) × IsSettled (cancel_job on_end id q)
  unfolding cancel_job
  cancel_job-Inv id q v =
      let w = cancel_current-Inv id q.current_job q refl v in
      start_next_job_if_need-Inv _ (record {
        distinct = Distinct-remove_queued _ id _ w.distinct;
        running = w.running;
        armed = w.armed;
      })
