-- ===== src/Queue/Fifo.antt =====
-- What system/lib/Queue.ts promises its callers, as a list: the running job, then those that wait.
use squidlet.Base.{
  ℕ, ◌≡◌, refl, ap, ◌∙◌, List, [], ◌∷◌, ◌++◌, map, Option, none, some, option_list, String, true,
  false, if◌then◌else◌, Bool-cases, inl, inr, str_eq, eq_refl, ok, get_elem?, remove_at, All, ◌≢◌,
  eq_iff,
}
use squidlet.Queue.{
  Job, Flight, Queue, start_next_job_if_need, start_next, start_job, finalize_current_job,
  remove_job, update_cb, in_queue, has_id, add_resolved, push_job, new_job, handle_cb_finished,
  cancel_job, cancel_current, emit_end, started, settle, fire, mark, timeout_exceeded, Timer, ids,
}
use squidlet.Queue.Invariant.{Inv, IsSettled}
use squidlet.Queue.Ends.{settled_alive, Armed-fired}

module _ {C : Type 0} where
  abbrev pub jobs : Queue C → List (Job C)
  jobs q = option_list q.current_job ++ q.queue

  abbrev pub pair : Job C → String × C
  pair j = (j.id, j.cb)

  -- The abstract queue.
  abbrev pub view : Queue C → List (String × C)
  view q = map pair (jobs q)

  -- A waiting callback is replaced where it stands, a new one goes to the end.
  abbrev pub put_waiting : String → C → List (String × C) → List (String × C)
  put_waiting id cb [] = (id, cb) ∷ []
  put_waiting id cb ((k, c) ∷ xs) =
      if str_eq k id then (k, cb) ∷ xs else (k, c) ∷ put_waiting id cb xs

  -- A callback for the running id is refused.
  abbrev pub put : String → C → List (String × C) → List (String × C)
  put id cb [] = (id, cb) ∷ []
  put id cb ((k, c) ∷ xs) = (k, c) ∷ (if str_eq k id then xs else put_waiting id cb xs)

  abbrev pub drop_id : String → List (String × C) → List (String × C)
  drop_id id [] = []
  drop_id id ((k, c) ∷ xs) = if str_eq k id then xs else (k, c) ∷ drop_id id xs

  abbrev pub rest : List (String × C) → List (String × C)
  rest [] = []
  rest (x ∷ xs) = xs

  start_next-jobs :
      (c : Option (Job C)) (js : List (Job C)) (q : Queue C)
      → q.current_job ≡ c
      → q.queue ≡ js
      → jobs (start_next c js q) ≡ option_list c ++ js
  unfolding start_job
  start_next-jobs (some c) js q e f = rw (e, f)
  start_next-jobs none [] q e f = rw (e, f)
  start_next-jobs none (j ∷ js) q e f = refl

  -- Starting the next job moves nothing in the list.
  start-jobs : (q : Queue C) → jobs (start_next_job_if_need q) ≡ jobs q
  unfolding start_next_job_if_need
  start-jobs q = start_next-jobs q.current_job q.queue q refl refl

  update_cb-put_waiting :
      (id : String) (cb : C) (js : List (Job C))
      → in_queue id js ≡ true
      → map pair (update_cb id cb js) ≡ put_waiting id cb (map pair js)
  update_cb-put_waiting id cb [] e = cc
  update_cb-put_waiting id cb (j ∷ js) e = elim (Bool-cases (str_eq j.id id)) [
    | inl hit ↦ rw hit
    | inr miss ↦ rw miss (ap (λ xs. pair j ∷ xs) (update_cb-put_waiting id cb js (rw miss at e)))
  ]

  append-put_waiting :
      (j : Job C) (js : List (Job C))
      → in_queue j.id js ≡ false
      → map pair (js ++ j ∷ []) ≡ put_waiting j.id j.cb (map pair js)
  append-put_waiting j [] e = refl
  append-put_waiting j (k ∷ js) e = elim (Bool-cases (str_eq k.id j.id)) [
    | inl hit ↦ absurd (cc (rw hit at e))
    | inr miss ↦ rw miss (ap (λ xs. pair k ∷ xs) (append-put_waiting j js (rw miss at e)))
  ]

  remove_job-drop_id :
      (id : String) (js : List (Job C)) → map pair (remove_job id js) ≡ drop_id id (map pair js)
  unfolding remove_job
  remove_job-drop_id id [] = refl
  remove_job-drop_id id (j ∷ js) = elim (Bool-cases (str_eq j.id id)) [
    | inl hit ↦ rw hit
    | inr miss ↦ rw miss (ap (λ xs. pair j ∷ xs) (remove_job-drop_id id js))
  ]

  put_running :
      (c : Option (Job C)) (js : List (Job C)) (id : String) (cb : C)
      → has_id id c ≡ true
      → map pair (option_list c ++ js) ≡ put id cb (map pair (option_list c ++ js))
  put_running none js id cb e = cc
  put_running (some j) js id cb e = rw e

  put_queued :
      (c : Option (Job C)) (js : List (Job C)) (id : String) (cb : C)
      → (c ≡ none → js ≡ [])
      → has_id id c ≡ false
      → in_queue id js ≡ true
      → map pair (option_list c ++ update_cb id cb js) ≡ put id cb (map pair (option_list c ++ js))
  put_queued none js id cb s e i = absurd (cc (rw (s refl) at i))
  put_queued (some j) js id cb s e i =
      rw e (ap (λ xs. pair j ∷ xs) (update_cb-put_waiting id cb js i))

  put_new :
      (c : Option (Job C)) (js : List (Job C)) (j : Job C)
      → (c ≡ none → js ≡ [])
      → has_id j.id c ≡ false
      → in_queue j.id js ≡ false
      → map pair (option_list c ++ (js ++ j ∷ [])) ≡ put j.id j.cb (map pair (option_list c ++ js))
  put_new none js j s e i = rw (s refl)
  put_new (some k) js j s e i = rw e (ap (λ xs. pair k ∷ xs) (append-put_waiting j js i))

  add_resolved-view :
      (cb : C) (id : String) (q : Queue C)
      → IsSettled q
      → view (add_resolved cb id q) ≡ put id cb (view q)
  unfolding add_resolved push_job
  add_resolved-view cb id q s = elim (Bool-cases (has_id id q.current_job)) [
    | inl runs ↦ rw runs (put_running q.current_job q.queue id cb runs)
    | inr other ↦ elim (Bool-cases (in_queue id q.queue)) [
      | inl waits ↦ rw (other, waits) (put_queued q.current_job q.queue id cb s other waits)
      | inr new ↦
          rw (other, new)
            (ap (map pair) (start-jobs _)
              ∙ put_new q.current_job q.queue (new_job cb id q) s other new)
    ]
  ]

  -- The callback was started: it is current, nothing waits, it is in flight, and its timer is armed.
  abbrev pub Starts : String → C → Queue C → Queue C → Type 0
  Starts id cb q q' =
      (j : Job C) × (pair j ≡ (id, cb))
      × (q'.current_job ≡ some j)
      × (q'.queue ≡ [])
      × (q'.in_flight ≡ record { job = j; canceled = false } ∷ q.in_flight)
      × ((h : ℕ) × (q'.running_timeout ≡ some h)
          × (q'.timers ≡ record { handle = h; job = j } ∷ q.timers))
      × (q'.log ≡ started id ∷ q.log)

  -- Nothing was started or ended.
  abbrev pub Waits : Queue C → Queue C → Type 0
  Waits q q' =
      (q'.current_job ≡ q.current_job)
      × (q'.in_flight ≡ q.in_flight)
      × (q'.timers ≡ q.timers)
      × (q'.log ≡ q.log)

  add_resolved-Starts :
      (cb : C) (id : String) (q : Queue C)
      → IsSettled q
      → q.current_job ≡ none
      → Starts id cb q (add_resolved cb id q)
  unfolding add_resolved push_job start_next_job_if_need start_job
  add_resolved-Starts cb id q s idle =
      let alone : q.queue ≡ [] = s idle in
      rw (idle, alone) (_, refl, refl, refl, refl, (_, refl, refl), refl)

  add_resolved-Waits :
      (cb : C) (id : String) (c : Job C) (q : Queue C)
      → q.current_job ≡ some c
      → Waits q (add_resolved cb id q)
  unfolding add_resolved push_job start_next_job_if_need
  add_resolved-Waits cb id c q busy = elim (Bool-cases (has_id id q.current_job)) [
    | inl runs ↦ rw runs (refl, refl, refl, refl)
    | inr other ↦ elim (Bool-cases (in_queue id q.queue)) [
      | inl waits ↦ rw (other, waits) (refl, refl, refl, refl)
      | inr new ↦ rw (other, new, busy) (refl, refl, refl, refl)
    ]
  ]

  -- In a queue where no job waits while none runs: `add` refuses a callback for the id that runs,
  -- replaces the callback that waits under the id, or else puts the callback at the end of the list;
  -- if nothing runs the callback is started, its timer armed and its start told, and otherwise nothing
  -- is started or told.
  pub add_resolved-put :
      (cb : C) (id : String) (q : Queue C)
      → IsSettled q
      → (view (add_resolved cb id q) ≡ put id cb (view q))
        × (q.current_job ≡ none → Starts id cb q (add_resolved cb id q))
        × ((c : Job C) → q.current_job ≡ some c → Waits q (add_resolved cb id q))
  add_resolved-put cb id q s = (
    add_resolved-view cb id q s,
    add_resolved-Starts cb id q s,
    λ c. add_resolved-Waits cb id c q,
  )

  -- Listeners of `endJob` that leave the queue alone.
  abbrev pub quiet : Option String → String → Queue C → Queue C
  quiet err id q = q

  handle_cb_finished-rest :
      (err : Option String) (j : Job C) (q : Queue C)
      → q.current_job ≡ some j
      → (q' : Queue C) × (handle_cb_finished quiet err j q ≡ ok q') × (view q' ≡ map pair q.queue)
  unfolding handle_cb_finished emit_end finalize_current_job
  handle_cb_finished-rest err j q e = (
    start_next_job_if_need (emit_end quiet err j.id (finalize_current_job q)),
    rw (e, eq_refl j.id),
    ap (map pair) (start-jobs _),
  )

  tail_of_current :
      (c : Option (Job C)) (j : Job C) (js : List (Job C))
      → c ≡ some j
      → map pair js ≡ rest (map pair (option_list c ++ js))
  tail_of_current c j js e = rw e

  -- In a queue that keeps the invariant, with listeners of `endJob` that leave it alone: when a
  -- callback that was not canceled settles, with or without an error, no error is thrown, the running
  -- job leaves the head of the list, and the others keep their order.
  pub settle-rest :
      (i : ℕ) (err : Option String) (f : Flight C) (q : Queue C)
      → Inv q
      → get_elem? q.in_flight i ≡ some f
      → f.canceled ≡ false
      → (q' : Queue C) × (settle quiet i err q ≡ ok q') × (view q' ≡ rest (view q))
  unfolding settle
  settle-rest i err f q v e on =
      let now = (settled_alive q.current_job q.in_flight i f v.running e on).0 in
      let (q', done, same) =
        handle_cb_finished-rest err f.job (record q { in_flight = remove_at q.in_flight i }) now in
      (q', rw (e, settle, on) done, same ∙ tail_of_current q.current_job f.job q.queue now)

  abbrev fired : ℕ → Timer C → Queue C → Queue C
  fired i t q = record q { timers = remove_at q.timers i; in_flight = mark t.job.uid q.in_flight }

  -- In a queue that keeps the invariant, with listeners of `endJob` that leave it alone: when a timer
  -- fires, no error is thrown, the running job leaves the head of the list, and the others keep their
  -- order.
  pub fire-rest :
      (i : ℕ) (t : Timer C) (q : Queue C)
      → Inv q
      → get_elem? q.timers i ≡ some t
      → (q' : Queue C) × (fire quiet i q ≡ ok q') × (view q' ≡ rest (view q))
  unfolding fire
  fire-rest i t q v e =
      let now = (Armed-fired q.current_job q.running_timeout q.timers i t v.armed e).0 in
      let (q', done, same) =
        handle_cb_finished-rest (some timeout_exceeded) t.job (fired i t q) now in
      (q', rw (e, fire) done, same ∙ tail_of_current q.current_job t.job q.queue now)

  remove_job_absent :
      (id : String) (js : List (Job C)) → All (λ x. x ≢ id) (ids js) → remove_job id js ≡ js
  unfolding remove_job
  remove_job_absent id [] h = refl
  remove_job_absent id (j ∷ js) h = elim (Bool-cases (str_eq j.id id)) [
    | inl hit ↦ absurd (h.0 ((eq_iff j.id id).0 hit))
    | inr miss ↦ rw miss (ap (λ xs. j ∷ xs) (remove_job_absent id js h.1))
  ]

  canceled_jobs :
      (id : String) (c : Option (Job C)) (q : Queue C)
      → q.current_job ≡ c
      → Inv q
      → map pair (
          jobs (record (cancel_current quiet id c q) {
            queue = remove_job id (cancel_current quiet id c q).queue;
          }))
        ≡ drop_id id (map pair (option_list c ++ q.queue))
  unfolding emit_end finalize_current_job
  canceled_jobs id none q e v = rw e (remove_job-drop_id id q.queue)
  canceled_jobs id (some j) q e v = elim (Bool-cases (str_eq j.id id)) [
    | inl hit ↦
        let here : j.id ≡ id = (eq_iff j.id id).0 hit in
        let others : All (λ x. x ≢ id) (ids q.queue) = rw (← here) ((rw e at v.distinct).0) in
        rw hit (ap (map pair) (remove_job_absent id q.queue others))
    | inr miss ↦ rw (miss, e) (ap (λ xs. pair j ∷ xs) (remove_job-drop_id id q.queue))
  ]

  -- In a queue that keeps the invariant, with listeners of `endJob` that leave it alone: `cancelJob`
  -- takes the job with the id out of the list, running or waiting, and nothing else.
  pub cancel_job-drop_id :
      (id : String) (q : Queue C) → Inv q → view (cancel_job quiet id q) ≡ drop_id id (view q)
  unfolding cancel_job
  cancel_job-drop_id id q v = ap (map pair) (start-jobs _) ∙ canceled_jobs id q.current_job q refl v
