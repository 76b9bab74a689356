-- ===== src/Consistent/Failures.antt =====
-- A write that fails leaves the state as if it had not been asked for.
use squidlet.Base.{
  ◌≡◌, refl, sym, ap, ◌∙◌, List, [], ◌∷◌, ◌++◌, Option, none, some, some_or, String, Dict, lookup,
  keys, Bool, true, false, not, ◌&&◌, is_some, if◌then◌else◌, ok, ◌>>=◌,
}
use squidlet.Consistent.{
  Partial, ConsistentState, writing, among, apart_from, merge, whole, pick, undefined_of,
  generate_safe_new_state, set_income_state, start_new_write_job, write, write_job_cb,
  collect_data_to_save, changed_of, send_filled, restore_of, restore_previous_state,
  handle_write_error, ended,
}
use squidlet.Consistent.Merges.{
  over, first_of, wrap, among-apart_from, among-keys, lookup-merge, lookup-append, lookup-whole,
  lookup-pick, lookup-undefined_of,
}

module _ {V : Type 0} where
  -- A write of these parameters is in progress, and the remote state is the one given: the local state
  -- has the same at all other keys.
  pub record Saving (names : List String) (remote : Dict V) (s : ConsistentState V) : Type 0 where
    pub at_work : s.current ≡ some writing
    pub to_save : s.params_list_to_save ≡ some names
    pub kept_remote : s.actual_remote_state ≡ some remote
    pub agrees : (k : String) → among k names ≡ false → lookup k s.local_state ≡ lookup k remote

  -- The value of a key after a safe state was put over the local one.
  safe_value :
      (names : List String) (part : Partial V) (now : Dict V) (k : String)
      → lookup k (merge (pick part (apart_from names (keys part)) ++ whole now) now)
        ≡ (if among k names then lookup k now else over (lookup k part) (lookup k now))
  safe_value names part now k =
      lookup-merge k (pick part (apart_from names (keys part)) ++ whole now) now
      ∙ ap (λ x. over x (lookup k now))
          (lookup-append k (pick part (apart_from names (keys part))) (whole now)
            ∙ ap (λ x. first_of x (lookup k (whole now)))
                (lookup-pick k part (apart_from names (keys part))
                  ∙ ap (λ b. if b then some (some_or none (lookup k part)) else none)
                      (among-apart_from names (keys part) k
                        ∙ ap (λ b. not (among k names) && b) (among-keys k part)))
            ∙ ap
                (λ y.
                  first_of
                    (if not (among k names) && is_some (lookup k part)
                      then some (some_or none (lookup k part))
                      else none)
                    y)
                (lookup-whole k now))
      ∙ by_cases (among k names) (lookup k part) (lookup k now)
    where
      by_cases :
          (b : Bool) (x : Option (Option V)) (y : Option V)
          → over (first_of (if not b && is_some x then some (some_or none x) else none) (wrap y)) y
            ≡ (if b then y else over x y)
      by_cases true x none = refl
      by_cases true x (some y) = refl
      by_cases false none none = refl
      by_cases false none (some y) = refl
      by_cases false (some x) y = refl

  income-Saving :
      (names : List String) (remote : Dict V) (part : Partial V) (s : ConsistentState V)
      → Saving names remote s
      → Saving names (merge part remote) (set_income_state part s)
  unfolding set_income_state generate_safe_new_state
  income-Saving names remote part s v =
      rw (v.at_work, v.to_save, v.kept_remote)
        (record {
          at_work = refl;
          to_save = refl;
          kept_remote = refl;
          agrees = λ k apart.
              safe_value names part s.local_state k
              ∙ rw apart
                  (ap (over (lookup k part)) (v.agrees k apart) ∙ sym (lookup-merge k part remote));
        })

  -- Incomes, in order, while the write is in progress; and what they make of a remote state.
  pub income_all : List (Partial V) → ConsistentState V → ConsistentState V
  income_all [] s = s
  income_all (part ∷ parts) s = income_all parts (set_income_state part s)

  pub merge_all : List (Partial V) → Dict V → Dict V
  merge_all [] d = d
  merge_all (part ∷ parts) d = merge_all parts (merge part d)

  income_all-Saving :
      (names : List String) (parts : List (Partial V)) (remote : Dict V) (s : ConsistentState V)
      → Saving names remote s
      → Saving names (merge_all parts remote) (income_all parts s)
  unfolding income_all merge_all
  income_all-Saving names [] remote s v = v
  income_all-Saving names (part ∷ parts) remote s v =
      income_all-Saving names parts (merge part remote) (set_income_state part s)
        (income-Saving names remote part s v)

  restored_value :
      (names : List String) (remote now : Dict V) (k : String)
      → (among k names ≡ false → lookup k now ≡ lookup k remote)
      → lookup k (merge (restore_of remote names) now) ≡ lookup k remote
  restored_value names remote now k agrees =
      lookup-merge k (restore_of remote names) now
      ∙ ap (λ x. over x (lookup k now))
          (lookup-append k (undefined_of (apart_from (keys remote) names)) (whole remote)
            ∙ ap (λ x. first_of x (lookup k (whole remote)))
                (lookup-undefined_of k (apart_from (keys remote) names)
                  ∙ ap (λ b. if b then some none else none)
                      (among-apart_from (keys remote) names k
                        ∙ ap (λ b. not b && among k names) (among-keys k remote)))
            ∙ ap
                (λ y.
                  first_of
                    (if not (is_some (lookup k remote)) && among k names then some none else none)
                    y)
                (lookup-whole k remote))
      ∙ by_cases (among k names) (lookup k remote) (lookup k now) agrees
    where
      by_cases :
          (b : Bool) (x y : Option V)
          → (b ≡ false → y ≡ x)
          → over (first_of (if not (is_some x) && b then some none else none) (wrap x)) y ≡ x
      by_cases b (some v) y same = refl
      by_cases true none y same = refl
      by_cases false none y same = same refl

  restore_previous_state-Saving :
      (names : List String) (remote : Dict V) (s : ConsistentState V)
      → Saving names remote s
      → restore_previous_state s ≡ ok (restore_of remote names)
  unfolding restore_previous_state
  restore_previous_state-Saving names remote s v =
      rw (v.kept_remote, restore_previous_state, v.to_save)

  handle_write_error-Saving :
      (names : List String) (remote : Dict V) (s : ConsistentState V)
      → Saving names remote s
      → (s' : ConsistentState V) × (handle_write_error s ≡ ok s')
        × ((k : String) → lookup k s'.local_state ≡ lookup k remote)
  unfolding handle_write_error
  handle_write_error-Saving names remote s v =
      let restored = record s { local_state = merge (restore_of remote names) s.local_state } in
      (
        record (ended restored) { next_write_partial_state = none },
        rw (restore_previous_state-Saving names remote s v, handle_write_error),
        λ k. restored_value names remote s.local_state k (v.agrees k),
      )

  -- The state when the job of a write has been started at rest.
  abbrev pub started :
      (Option V → Option V → Bool) → Partial V → ConsistentState V → ConsistentState V
  started same part s =
      let now = merge part s.local_state in
      send_filled (changed_of same now s.local_state (keys part)) (record s {
        local_state = now;
        actual_remote_state = some s.local_state;
        params_list_to_save = some (keys part);
        current = some writing;
        write_queued = false;
      })

  -- Nothing is being read or written, and no write is queued.
  abbrev pub at_rest : ConsistentState V → ConsistentState V
  at_rest s = record s {
    actual_remote_state = none;
    params_list_to_save = none;
    next_write_partial_state = none;
    current = none;
    write_queued = false;
  }

  starts :
      (same : Option V → Option V → Bool) (part : Partial V) (s : ConsistentState V)
      → (write part (at_rest s) >>= λ queued. write_job_cb same queued)
        ≡ ok (started same part (at_rest s))
  unfolding write start_new_write_job write_job_cb collect_data_to_save
  starts same part s = refl

  started-Saving :
      (same : Option V → Option V → Bool) (part : Partial V) (s : ConsistentState V)
      → Saving (keys part) s.local_state (started same part (at_rest s))
  started-Saving same part s =
      sent_any (changed_of same (merge part s.local_state) s.local_state (keys part))
    where
      other_keys :
          (k : String)
          → among k (keys part) ≡ false
          → lookup k (merge part s.local_state) ≡ lookup k s.local_state
      other_keys k apart =
          lookup-merge k part s.local_state
          ∙ absent (lookup k part) (sym (among-keys k part) ∙ apart)
        where
          absent :
              (x : Option (Option V))
              → is_some x ≡ false
              → over x (lookup k s.local_state) ≡ lookup k s.local_state
          absent none e = refl
          absent (some v) e = cc

      sent_any :
          (filled : Partial V)
          → Saving (keys part) s.local_state (
              send_filled filled (record s {
                local_state = merge part s.local_state;
                actual_remote_state = some s.local_state;
                params_list_to_save = some (keys part);
                next_write_partial_state = none;
                current = some writing;
                write_queued = false;
              }))
      sent_any [] = record {
        at_work = refl;
        to_save = refl;
        kept_remote = refl;
        agrees = other_keys;
      }
      sent_any (e ∷ filled) = record {
        at_work = refl;
        to_save = refl;
        kept_remote = refl;
        agrees = other_keys;
      }

  -- From rest, for any data to write and any states that come in while the write is in progress: the
  -- write starts, and when the setter fails, every key has what it would have had if only those states
  -- had come in.
  pub failed_write :
      (same : Option V → Option V → Bool) (part : Partial V) (parts : List (Partial V))
      (s : ConsistentState V)
      → (during : ConsistentState V) × ((write part (at_rest s) >>= λ queued.
            write_job_cb same queued)
          ≡ ok during)
        × ((after : ConsistentState V) × (handle_write_error (income_all parts during) ≡ ok after)
            × ((k : String)
                → lookup k after.local_state ≡ lookup k (merge_all parts s.local_state)))
  failed_write same part parts s = (
    started same part (at_rest s),
    starts same part s,
    handle_write_error-Saving (keys part) (merge_all parts s.local_state)
        (income_all parts (started same part (at_rest s)))
        (income_all-Saving (keys part) parts s.local_state (started same part (at_rest s))
          (started-Saving same part s)),
  )
