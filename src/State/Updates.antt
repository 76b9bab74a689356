-- ===== src/State/Updates.antt =====
-- What the states are after an update.
use squidlet.Base.{
  List, [], ◌∷◌, Option, none, some, some_or, String, str_eq, eq_iff, eq_refl, Dict, lookup, insert,
  keys, lookup-insert, Bool, true, false, not, ◌&&◌, is_some, if◌then◌else◌, Bool-cases, inl, inr,
  ◌≡◌, refl, sym, ap, ◌∙◌, ◌≢◌, ==_iff,
}
use squidlet.Consistent.{Partial, merge, among}
use squidlet.Consistent.Merges.{over, lookup-merge, among-keys}
use squidlet.State.{
  State, Change, Primitive, null, boolean, number, string, iff, same_primitive, is_equal, named,
  get_state, param, differing, generate_changed_params, told, put_state, update_with, update_state,
}

iff_sound : (a b : Bool) → iff a b ≡ true → a ≡ b
iff_sound true true e = refl
iff_sound true false e = cc
iff_sound false true e = cc
iff_sound false false e = refl

same_primitive_sound : (a b : Primitive) → same_primitive a b ≡ true → a ≡ b
same_primitive_sound null null e = refl
same_primitive_sound null (boolean b) e = cc
same_primitive_sound null (number n) e = cc
same_primitive_sound null (string t) e = cc
same_primitive_sound (boolean a) null e = cc
same_primitive_sound (boolean a) (boolean b) e = ap boolean (iff_sound a b e)
same_primitive_sound (boolean a) (number n) e = cc
same_primitive_sound (boolean a) (string t) e = cc
same_primitive_sound (number m) null e = cc
same_primitive_sound (number m) (boolean b) e = cc
same_primitive_sound (number m) (number n) e = ap number ((==_iff m n).0 e)
same_primitive_sound (number m) (string t) e = cc
same_primitive_sound (string t) null e = cc
same_primitive_sound (string t) (boolean b) e = cc
same_primitive_sound (string t) (number n) e = cc
same_primitive_sound (string t) (string u) e = ap string ((eq_iff t u).0 e)

sound : (a b : Option Primitive) → is_equal a b ≡ true → a ≡ b
unfolding is_equal
sound none none e = refl
sound none (some b) e = cc
sound (some a) none e = cc
sound (some a) (some b) e = ap some (same_primitive_sound a b e)

among-differing :
    (part : Partial Primitive) (old : Dict Primitive) (ks : List String) (k : String)
    → among k (differing part old ks) ≡ (not (is_equal (param k part) (lookup k old)) && among k ks)
among-differing part old [] k = none_among (is_equal (param k part) (lookup k old))
  where
    none_among : (b : Bool) → false ≡ (not b && false)
    none_among true = refl
    none_among false = refl
among-differing part old (name ∷ ks) k =
    let ih = among-differing part old ks k in
    elim (Bool-cases (is_equal (param name part) (lookup name old))) [
      | inl unchanged ↦ elim (Bool-cases (str_eq name k)) [
        | inl here ↦
            let also : is_equal (param k part) (lookup k old) ≡ true =
              ap (λ x. is_equal (param x part) (lookup x old)) (sym ((eq_iff name k).0 here))
              ∙ unchanged in
            rw (unchanged, ih, also)
        | inr other ↦ rw (unchanged, other) ih
      ]
      | inr changed ↦ elim (Bool-cases (str_eq name k)) [
        | inl here ↦
            let also : is_equal (param k part) (lookup k old) ≡ false =
              ap (λ x. is_equal (param x part) (lookup x old)) (sym ((eq_iff name k).0 here))
              ∙ changed in
            rw (changed, here, also)
        | inr other ↦ rw (changed, other) ih
      ]
    ]

-- Whether the change of a key is told: a key of the first update of a state always is.
abbrev pub is_told : Option (Dict Primitive) → Partial Primitive → String → Bool
is_told none part k = true
is_told (some old) part k = not (is_equal (param k part) (lookup k old))

among-changed :
    (old : Option (Dict Primitive)) (part : Partial Primitive) (k : String)
    → among k (generate_changed_params old (some part))
      ≡ (is_told old part k && is_some (lookup k part))
unfolding generate_changed_params
among-changed none part k = among-keys k part
among-changed (some old) part k =
    among-differing part old (keys part) k
    ∙ ap (λ b. not (is_equal (param k part) (lookup k old)) && b) (among-keys k part)

abbrev pub is_at : String → String → String → String → Bool
is_at category state_name c n = str_eq category c && str_eq state_name n

named-some_or :
    (n : String) (o : Option (Dict (Dict Primitive))) → lookup n (some_or [] o) ≡ named n o
unfolding lookup
named-some_or n none = refl
named-some_or n (some d) = refl

get_state-put_state :
    (category state_name c n : String) (new : Dict Primitive) (changes : List Change) (s : State)
    → get_state c n (record s { state = put_state category state_name new s; emitted = changes })
      ≡ (if is_at category state_name c n then some new else get_state c n s)
unfolding get_state
get_state-put_state category state_name c n new changes s =
    let inner = insert state_name new (some_or [] (lookup category s.state)) in
    ap (named n) (lookup-insert category c inner s.state) ∙ elim (Bool-cases (str_eq category c)) [
      | inl here ↦
          let kept : lookup n (some_or [] (lookup category s.state)) ≡ get_state c n s =
            named-some_or n (lookup category s.state)
            ∙ ap (λ x. named n (lookup x s.state)) ((eq_iff category c).0 here) in
          rw here (
            lookup-insert state_name n new (some_or [] (lookup category s.state))
            ∙ ap (λ o. if str_eq state_name n then some new else o) kept)
      | inr other ↦ rw other refl
    ]

own_state :
    (category state_name : String) (new : Dict Primitive) (changes : List Change) (s : State)
    → get_state category state_name
        (record s { state = put_state category state_name new s; emitted = changes })
      ≡ some new
own_state category state_name new changes s =
    let here : is_at category state_name category state_name ≡ true =
      rw (eq_refl category, eq_refl state_name) refl in
    get_state-put_state category state_name category state_name new changes s ∙ rw here refl

abbrev pub values : String → String → State → Dict Primitive
values category state_name s = some_or [] (get_state category state_name s)

unchanged_key :
    (old : Dict Primitive) (part : Partial Primitive) (k : String)
    (given : Option (Option Primitive))
    → lookup k part ≡ given
    → generate_changed_params (some old) (some part) ≡ []
    → lookup k old ≡ over given (lookup k old)
unchanged_key old part k none at e = refl
unchanged_key old part k (some v) at e =
    let told_not : false
        ≡ (not (is_equal (param k part) (lookup k old)) && is_some (lookup k part)) =
      ap (among k) (sym e) ∙ among-changed (some old) part k in
    elim (Bool-cases (is_equal (param k part) (lookup k old))) [
      | inl alike ↦ sym (sound (param k part) (lookup k old) alike) ∙ ap (some_or none) at
      | inr differ ↦
          let shown : (not (is_equal (param k part) (lookup k old)) && is_some (lookup k part))
              ≡ true =
            rw (differ, at) refl in
          absurd (cc (told_not, shown))
    ]

unchanged :
    (old : Option (Dict Primitive)) (part : Partial Primitive) (k : String)
    → generate_changed_params old (some part) ≡ []
    → lookup k (some_or [] old) ≡ over (lookup k part) (lookup k (some_or [] old))
unfolding generate_changed_params lookup
unchanged none [] k e = refl
unchanged none (p ∷ part) k e = absurd (cc e)
unchanged (some old) part k e = unchanged_key old part k (lookup k part) refl e

-- What an update leaves, the changed parameters being `ps`.
abbrev pub Updated : String → String → Partial Primitive → List String → State → State → Type 0
Updated category state_name part ps s s' =
    ((k : String)
      → lookup k (values category state_name s')
        ≡ over (lookup k part) (lookup k (values category state_name s)))
    × ((c n : String) → is_at category state_name c n ≡ false → get_state c n s' ≡ get_state c n s)
    × (ps ≡ [] → s' ≡ s)
    × (ps ≢ []
        → s'.emitted
          ≡ record { category = category; state_name = state_name; changed_params = ps }
            ∷ s.emitted)

update_with-Updated :
    (category state_name : String) (part : Partial Primitive) (s : State) (ps : List String)
    → generate_changed_params (get_state category state_name s) (some part) ≡ ps
    → Updated category state_name part ps s
        (update_with ps category state_name (some part) (get_state category state_name s) s)
update_with-Updated category state_name part s [] e = (
  λ k. unchanged (get_state category state_name s) part k e,
  λ c n other. refl,
  λ q. refl,
  λ ne. absurd (ne refl),
)
update_with-Updated category state_name part s (p ∷ ps) e =
    let new = merge part (values category state_name s) in
    let changes = told (p ∷ ps) category state_name s.emitted in
    (
      λ k.
          ap (λ o. lookup k (some_or [] o)) (own_state category state_name new changes s)
          ∙ lookup-merge k part (values category state_name s),
      λ c n other. get_state-put_state category state_name c n new changes s ∙ rw other refl,
      λ q. cc,
      λ ne. refl,
    )

-- For any update of a state by its category and name: each key has the value it was given, a key that
-- was given undefined has none, the other keys and the other states are as they were; one event is
-- emitted, or nothing is changed where no key is told; told are just the given keys that differ, or all
-- of them if the state is new.
pub get_state-update_state :
    (category state_name : String) (part : Partial Primitive) (s : State)
    → (ps : List String) × Updated category state_name part ps s
        (update_state category state_name (some part) s)
      × ((k : String)
          → among k ps
            ≡ (is_told (get_state category state_name s) part k && is_some (lookup k part)))
unfolding update_state
get_state-update_state category state_name part s =
    let old = get_state category state_name s in
    let ps = generate_changed_params old (some part) in
    (ps, update_with-Updated category state_name part s ps refl, λ k. among-changed old part k)
