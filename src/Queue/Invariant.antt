-- ===== src/Queue/Invariant.antt =====
-- What holds of a queue between any two calls, system/lib/Queue.ts.
use squidlet.Base.{
  ℕ, zero, suc, ◌≡◌, refl, ap, ◌∙◌, List, [], ◌∷◌, ◌++◌, Option, none, some, option_list, String,
  true, false, if◌then◌else◌, ◌==◌, length, get_elem?, remove_at, arith, In, Distinct, Bool-cases,
  inl, inr,
}
use squidlet.Queue.{
  Job, Flight, Timer, Queue, ids, mark, start_next_job_if_need, start_next, start_job, init,
}

module _ {C : Type 0} where
  -- The callbacks in flight whose end still counts.
  abbrev pub live : List (Flight C) → List (Job C)
  live [] = []
  live (f ∷ fs) = if f.canceled then live fs else f.job ∷ live fs

  -- One timer runs while a job is current, it is that job's, and its handle is kept.
  abbrev pub Armed : Option (Job C) → Option ℕ → List (Timer C) → Type 0
  Armed none r ts = (r ≡ none) × (ts ≡ [])
  Armed (some j) r ts = (h : ℕ) × (r ≡ some h) × (ts ≡ record { handle = h; job = j } ∷ [])

  abbrev pub all_ids : Queue C → List String
  all_ids q = ids (option_list q.current_job ++ q.queue)

  pub record Inv (q : Queue C) : Type 0 where
    pub distinct : Distinct (all_ids q)
    pub running : live q.in_flight ≡ option_list q.current_job
    pub armed : Armed q.current_job q.running_timeout q.timers

  -- The queue never idles with a job waiting.
  abbrev pub IsSettled : Queue C → Type 0
  IsSettled q = q.current_job ≡ none → q.queue ≡ []

  pub init-Inv : Inv (init {C = C})
  unfolding init
  init-Inv = record { distinct = tt; running = refl; armed = (refl, refl) }

  start_next_lem :
      (c : Option (Job C)) (js : List (Job C)) (q : Queue C)
      → q.current_job ≡ c
      → q.queue ≡ js
      → Inv q
      → Inv (start_next c js q) × IsSettled (start_next c js q)
  unfolding start_job
  start_next_lem (some c) js q ec ej v = (v, λ e. cc)
  start_next_lem none [] q ec ej v = (v, λ _. ej)
  start_next_lem none (j ∷ js) q ec ej v =
      let idle = rw ec at v.armed in
      (
        record {
          distinct = rw (ec, ej) at v.distinct;
          running = ap (λ xs. j ∷ xs) (v.running ∙ ap option_list ec);
          armed = (q.next, refl, ap (λ ts. record { handle = q.next; job = j } ∷ ts) idle.1);
        },
        λ e. cc,
      )

  -- The last thing that each method does.
  pub start_next_job_if_need-Inv :
      (q : Queue C) → Inv q → Inv (start_next_job_if_need q) × IsSettled (start_next_job_if_need q)
  unfolding start_next_job_if_need
  start_next_job_if_need-Inv q v = start_next_lem q.current_job q.queue q refl refl v

  abbrev without_uid : ℕ → List (Job C) → List (Job C)
  without_uid u [] = []
  without_uid u (j ∷ js) = if j.uid == u then without_uid u js else j ∷ without_uid u js

  live-mark : (u : ℕ) (fs : List (Flight C)) → live (mark u fs) ≡ without_uid u (live fs)
  live-mark u [] = refl
  live-mark u (f ∷ fs) = ground (arith, live-mark u fs)

  pub live-mark_current :
      (j : Job C) (fs : List (Flight C)) → live fs ≡ j ∷ [] → live (mark j.uid fs) ≡ []
  live-mark_current j fs e = rw (live-mark j.uid fs, e) (ground arith)

  pub live-remove_at_canceled :
      (fs : List (Flight C)) (i : ℕ) (f : Flight C)
      → get_elem? fs i ≡ some f
      → f.canceled ≡ true
      → live (remove_at fs i) ≡ live fs
  live-remove_at_canceled [] i f e c = cc
  live-remove_at_canceled (x ∷ fs) zero f e c = ground arith
  live-remove_at_canceled (x ∷ fs) (suc i) f e c =
      ground (arith, live-remove_at_canceled fs i f e c)

  -- A callback that counts is one of those alive, and one fewer is alive without it.
  pub live-remove_at :
      (fs : List (Flight C)) (i : ℕ) (f : Flight C)
      → get_elem? fs i ≡ some f
      → f.canceled ≡ false
      → In f.job (live fs) × (length (live fs) ≡ suc (length (live (remove_at fs i))))
  live-remove_at [] i f e c = cc
  live-remove_at (x ∷ fs) zero f e c = let same : x ≡ f = cc in rw (same, c) (inl refl, refl)
  live-remove_at (x ∷ fs) (suc i) f e c =
      let (alive, fewer) = live-remove_at fs i f e c in
      elim (Bool-cases x.canceled) [
        | inl off ↦ rw off (alive, fewer)
        | inr on ↦ rw on (inr alive, ap suc fewer)
      ]
