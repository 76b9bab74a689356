-- ===== src/Queue/Ids.antt =====
-- The ids of the waiting jobs under the walks of system/lib/Queue.ts.
use squidlet.Base.{
  ◌≡◌, refl, ap, ◌≢◌, List, [], ◌∷◌, ◌++◌, Option, none, some, option_list, String, false, All,
  Distinct, Bool-cases, inl, inr, str_eq, eq_iff,
}
use squidlet.Queue.{Job, ids, remove_job, update_cb, in_queue, has_id}

module _ {C : Type 0} where
  ids-append : (js ks : List (Job C)) → ids (js ++ ks) ≡ ids js ++ ids ks
  ids-append [] ks = refl
  ids-append (j ∷ js) ks = ap (λ xs. j.id ∷ xs) (ids-append js ks)

  pub ids-update_cb : (id : String) (cb : C) (js : List (Job C)) → ids (update_cb id cb js) ≡ ids js
  ids-update_cb id cb [] = refl
  ids-update_cb id cb (j ∷ js) = elim (Bool-cases (str_eq j.id id)) [
    | inl hit ↦ rw hit
    | inr miss ↦ rw miss (ap (λ xs. j.id ∷ xs) (ids-update_cb id cb js))
  ]

  All-remove_job {κ} :
      (P : String → Type κ) (id : String) (js : List (Job C))
      → All P (ids js)
      → All P (ids (remove_job id js))
  unfolding remove_job
  All-remove_job P id [] h = tt
  All-remove_job P id (j ∷ js) h = elim (Bool-cases (str_eq j.id id)) [
    | inl hit ↦ rw hit h.1
    | inr miss ↦ rw miss (h.0, All-remove_job P id js h.1)
  ]

  Distinct-remove_job :
      (id : String) (js : List (Job C)) → Distinct (ids js) → Distinct (ids (remove_job id js))
  unfolding remove_job
  Distinct-remove_job id [] d = tt
  Distinct-remove_job id (j ∷ js) d = elim (Bool-cases (str_eq j.id id)) [
    | inl hit ↦ rw hit d.1
    | inr miss ↦ rw miss (All-remove_job (λ x. x ≢ j.id) id js d.0, Distinct-remove_job id js d.1)
  ]

  -- The same beneath a current job.
  pub Distinct-remove_queued :
      (c : Option (Job C)) (id : String) (js : List (Job C))
      → Distinct (ids (option_list c ++ js))
      → Distinct (ids (option_list c ++ remove_job id js))
  Distinct-remove_queued none id js d = Distinct-remove_job id js d
  Distinct-remove_queued (some j) id js d =
      (All-remove_job (λ x. x ≢ j.id) id js d.0, Distinct-remove_job id js d.1)

  pub Distinct-update_queued :
      (c : Option (Job C)) (id : String) (cb : C) (js : List (Job C))
      → Distinct (ids (option_list c ++ js))
      → Distinct (ids (option_list c ++ update_cb id cb js))
  Distinct-update_queued c id cb js d =
      rw
        (
          ids-append (option_list c) (update_cb id cb js),
          ids-update_cb id cb js,
          ← ids-append (option_list c) js,
        )
        d

  absent : (id : String) (js : List (Job C)) → in_queue id js ≡ false → All (λ x. x ≢ id) (ids js)
  absent id [] e = tt
  absent id (j ∷ js) e = elim (Bool-cases (str_eq j.id id)) [
    | inl hit ↦ absurd (cc (rw hit at e))
    | inr miss ↦ ((λ q. cc ((eq_iff j.id id).1 q)), absent id js (rw miss at e))
  ]

  pub absent_anywhere :
      (c : Option (Job C)) (id : String) (js : List (Job C))
      → has_id id c ≡ false
      → in_queue id js ≡ false
      → All (λ x. x ≢ id) (ids (option_list c ++ js))
  absent_anywhere none id js h e = absent id js e
  absent_anywhere (some j) id js h e = ((λ q. cc ((eq_iff j.id id).1 q)), absent id js e)

  pub ids-snoc : (js : List (Job C)) (j : Job C) → ids (js ++ j ∷ []) ≡ ids js ++ j.id ∷ []
  ids-snoc js j = ids-append js (j ∷ [])
