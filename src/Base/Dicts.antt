-- ===== src/Base/Dicts.antt =====
-- A JavaScript object used as a dictionary, `{[index: string]: V}`: an association list in the
-- order of insertion. A number used as a key stands as its text.
use Prim.Native.String.{String}
use mathlib.Core.Path.{◌≡◌, refl}
use mathlib.Core.Option.{Option, none, some}
use mathlib.Core.List.{List, [], ◌∷◌, map}
use native.Mathlib.Omega.{arith}
use text.Mathlib.Text.{◌==◌ as str_eq}
use text.Mathlib.TextEquality.{eq_iff}
use squidlet.Base.Tests.{if◌then◌else◌}

abbrev pub Dict {ℓ} : Type ℓ → Type ℓ
Dict V = List (String × V)

module _ {ℓ} {V : Type ℓ} where
  abbrev pub keys : Dict V → List String
  keys = map λ e. e.0

  -- `delete m[key]`.
  unfoldable pub delete : String → Dict V → Dict V
  delete key [] = []
  delete key (e ∷ m) = if str_eq e.0 key then delete key m else e ∷ delete key m

  -- `m[key]`; a missing key gives undefined.
  unfoldable pub lookup : String → Dict V → Option V
  lookup key [] = none
  lookup key (e ∷ m) = if str_eq e.0 key then some e.1 else lookup key m

  pub lookup-delete :
      (gone key : String) (m : Dict V)
      → lookup key (delete gone m) ≡ (if str_eq gone key then none else lookup key m)
  unfolding lookup delete
  lookup-delete gone key [] = ground arith
  lookup-delete gone key (e ∷ m) =
      let ih = lookup-delete gone key m in
      ground (arith, ih, eq_iff gone key, eq_iff e.0 gone, eq_iff e.0 key)

  -- `m[key] = v`, which keeps the place of a key that is there.
  unfoldable pub insert : String → V → Dict V → Dict V
  insert key v [] = (key, v) ∷ []
  insert key v (e ∷ m) = if str_eq e.0 key then (key, v) ∷ m else e ∷ insert key v m

  pub lookup-insert :
      (new key : String) (v : V) (m : Dict V)
      → lookup key (insert new v m) ≡ (if str_eq new key then some v else lookup key m)
  unfolding lookup insert
  lookup-insert new key v [] = refl
  lookup-insert new key v (e ∷ m) =
      let ih = lookup-insert new key v m in
      ground (arith, ih, eq_iff new key, eq_iff e.0 new, eq_iff e.0 key)
