-- ===== src/Sender/Joined.antt =====
-- Calls of `send` for an id that is in process join its request.
use squidlet.Base.{
  ℕ, ◌≡◌, refl, ◌∙◌, List, [], ◌∷◌, none, some, String, eq_refl, lookup, lookup-insert, Bool, true,
  false, if◌then◌else◌, ◌==◌,
}
use squidlet.Sender.{SenderRequest, Sender, new_request, start, start_new_request, send}

module _ {C P : Type 0} (same : C → C → Bool) (now : ℕ) (id : String) where
  -- Calls of `send` for the id, in order, while the request is in process.
  pub send_all : List (C × P) → Sender C P → Sender C P
  send_all [] s = s
  send_all (c ∷ cs) s = send_all cs (send same now id c.0 c.1 s)

  abbrev pub last_params : P → List (C × P) → P
  last_params p [] = p
  last_params p (c ∷ cs) = last_params c.1 cs

  -- There is a request for the id with this callback and these parameters, and these were started.
  abbrev pub Running : C → P → List String → Sender C P → Type 0
  Running cb params ids s =
      (r : SenderRequest C P) × (lookup id s.requests ≡ some r)
      × (r.send_cb ≡ cb)
      × (r.send_params ≡ params)
      × (s.started ≡ ids)

  join-Running :
      (cb cb' : C) (params params' : P) (ids : List String) (s : Sender C P)
      → Running cb params ids s
      → Running cb params' ids (send same now id cb' params' s)
  unfolding send
  join-Running cb cb' params params' ids s (r, there, own, old, count) = rw there (
    record r { send_params = params' },
    lookup-insert id id (record r { send_params = params' }) s.requests ∙ rw (eq_refl id),
    own,
    refl,
    count,
  )

  send_all-Running :
      (cb : C) (params : P) (ids : List String) (cs : List (C × P)) (s : Sender C P)
      → Running cb params ids s
      → Running cb (last_params params cs) ids (send_all cs s)
  unfolding send_all
  send_all-Running cb params ids [] s h = h
  send_all-Running cb params ids (c ∷ cs) s h =
      send_all-Running cb c.1 ids cs (send same now id c.0 c.1 s)
        (join-Running cb c.0 params c.1 ids s h)

  start-params :
      (r : SenderRequest C P)
      → ((start now r).send_cb ≡ r.send_cb) × ((start now r).send_params ≡ r.send_params)
  unfolding start
  start-params r = by_test (r.started_time_stamp == 0)
    where
      by_test :
          (b : Bool)
          → ((if b then record r { started_time_stamp = now } else r).send_cb ≡ r.send_cb)
            × ((if b then record r { started_time_stamp = now } else r).send_params ≡ r.send_params)
      by_test true = (refl, refl)
      by_test false = (refl, refl)

  first-Running :
      (cb : C) (params : P) (s : Sender C P)
      → lookup id s.requests ≡ none
      → Running cb params (id ∷ s.started) (send same now id cb params s)
  unfolding send start_new_request new_request
  first-Running cb params s free =
      let r = start now (new_request s.timeout_sec s.resend_timeout_sec cb params) in
      let (own, with_params) =
        start-params (new_request s.timeout_sec s.resend_timeout_sec cb params) in
      rw free (r, lookup-insert id id r s.requests ∙ rw (eq_refl id), own, with_params, refl)

  -- For an id that has no request: the first call of `send` starts one, and any calls after it, before
  -- that request ends, start none; the request keeps the callback of the first call and has the
  -- parameters of the last.
  pub send_all-send :
      (cb : C) (params : P) (cs : List (C × P)) (s : Sender C P)
      → lookup id s.requests ≡ none
      → Running cb
          (last_params params cs)
          (id ∷ s.started)
          (send_all cs (send same now id cb params s))
  send_all-send cb params cs s free =
      send_all-Running cb params (id ∷ s.started) cs (send same now id cb params s)
        (first-Running cb params s free)
