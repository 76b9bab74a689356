-- ===== src/Validate/Required.antt =====
-- When `validateRequiredProps` has nothing to say, system/lib/validate.ts.
use squidlet.Base.{
  ◌≡◌, ◌↔◌, refl, [], ◌∷◌, none, some, Bool, true, false, Dict, All, Bool-cases, inl, inr,
}
use squidlet.Validate.{is_missing, required_loop, validate_required_props}

module _ {ℓ} {V : Type ℓ} where
  -- Each name that is required has a value.
  abbrev pub Filled : Dict V → Dict Bool → Type 0
  Filled props schema = All (λ e. e.1 ≡ true → is_missing props e.0 ≡ false) schema

  required_loop-Filled :
      (props : Dict V) (schema : Dict Bool)
      → (required_loop props schema ≡ none) ↔ Filled props schema
  unfolding required_loop
  required_loop-Filled props [] = (λ e. tt, λ f. refl)
  required_loop-Filled props ((name, true) ∷ schema) = elim (Bool-cases (is_missing props name)) [
    | inl gone ↦ (λ e. cc (rw gone at e), λ f. cc (gone, f.0 refl))
    | inr there ↦
        let (to, from) = required_loop-Filled props schema in
        (λ e. (λ q. there, to (rw there at e)), λ f. rw there (from f.1))
  ]
  required_loop-Filled props ((name, false) ∷ schema) =
      let (to, from) = required_loop-Filled props schema in (λ e. (λ q. cc, to e), λ f. from f.1)

  -- `validateRequiredProps` says nothing just if each prop that the schema requires has a value.
  pub validate_required_props-Filled :
      (props : Dict V) (schema : Dict Bool)
      → (validate_required_props props (some schema) ≡ none) ↔ Filled props schema
  unfolding validate_required_props
  validate_required_props-Filled props schema = required_loop-Filled props schema
