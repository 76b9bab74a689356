-- ===== src/Events/Emitter/Changes.antt =====
-- Adding and removing a listener keeps indexes and handlers in agreement.
use squidlet.Base.{
  ℕ, refl, sym, ap, subst, ◌≢◌, List, [], ◌∷◌, ◌++◌, Option, none, some, some_or, String, length,
  if◌then◌else◌, All, All-append, All-both, All-mono, All-lookup, In, Distinct, Distinct-snoc,
  Bool-cases, inl, inr, str_eq, eq_iff, get_elem?-append_self,
}
use squidlet.Events.Emitter.{Listener, clear_handler, clear_all}
use squidlet.Events.Emitter.Coherent.{
  Coherent, Own, Owned, Apart, erase, erase_ne, erase-Distinct, All-erase, Owned-append, Owned-set,
  Owned-ne-length,
}

-- `f` with another value at one name.
abbrev pub at_name : String → List ℕ → (String → List ℕ) → String → List ℕ
at_name ev is f ev' = if str_eq ev ev' then is else f ev'

at_name-cases {ℓ} :
    (P : String → List ℕ → Type ℓ) (ev : String) (is : List ℕ) (f : String → List ℕ)
    → P ev is
    → ((ev' : String) → ev ≢ ev' → P ev' (f ev'))
    → (ev' : String) → P ev' (at_name ev is f ev')
at_name-cases P ev is f here there ev' = elim (Bool-cases (str_eq ev ev')) [
  | inl same ↦ rw same (subst (λ k. P k is) ((eq_iff ev ev').0 same) here)
  | inr other ↦ rw other (there ev' (λ e. cc ((eq_iff ev ev').1 e)))
]

Apart-symm : (is js : List ℕ) → Apart is js → Apart js is
Apart-symm [] js a = tt
Apart-symm (i ∷ is) js a = (
  All-mono _ _ js (λ j h e. h.0 (sym e)) a,
  Apart-symm is js
      (All-mono (λ j. All (λ x. x ≢ j) (i ∷ is)) (λ j. All (λ x. x ≢ j) is) js (λ j h. h.1) a),
)

-- Two lists that stand at one changed name and any other are apart if the new list is.
Apart-at :
    (ev : String) (is : List ℕ) (f : String → List ℕ)
    → ((a b : String) → a ≢ b → Apart (f a) (f b))
    → ((b : String) → ev ≢ b → Apart is (f b))
    → (a b : String) → a ≢ b
    → Apart (at_name ev is f a) (at_name ev is f b)
Apart-at ev is f old new a b =
    at_name-cases (λ a xs. a ≢ b → Apart xs (at_name ev is f b)) ev is f (here b)
      (λ a' ne. there a' ne b) a
  where
    here : (b : String) → ev ≢ b → Apart is (at_name ev is f b)
    here =
        at_name-cases (λ b ys. ev ≢ b → Apart is ys) ev is f (λ ne. absurd (ne refl))
          (λ b' ne _. new b' ne)

    there : (a : String) → ev ≢ a → (b : String) → a ≢ b → Apart (f a) (at_name ev is f b)
    there a ne =
        at_name-cases (λ b ys. a ≢ b → Apart (f a) ys) ev is f (λ _. Apart-symm is (f a) (new a ne))
          (λ b' _ ne'. old a b' ne')

module _ {H : Type 0} (f : String → List ℕ) (hs : List (Option (Listener H))) (c : Coherent f hs)
    (ev : String) where
  pub Coherent-append :
      (x : Listener H)
      → Own (length hs) ev x
      → Coherent (at_name ev (f ev ++ length hs ∷ []) f) (hs ++ some x ∷ [])
  Coherent-append x own = record {
    owned =
        at_name-cases (λ k. All (Owned k (hs ++ some x ∷ []))) ev _ f
          (All-append _ (f ev) _ (kept ev)
            (((x, ap (some_or none) (get_elem?-append_self hs (some x)), own), tt)))
          (λ ev' _. kept ev');
    distinct =
        at_name-cases (λ k. Distinct) ev _ f
          (Distinct-snoc (f ev) (length hs) (c.distinct ev) (fresh ev)) (λ ev' _. c.distinct ev');
    apart = Apart-at ev _ f c.apart (λ b ne. apart_new b ne);
  }
    where
      kept : (k : String) → All (Owned k (hs ++ some x ∷ [])) (f k)
      kept k =
          All-mono (Owned k hs) (Owned k (hs ++ some x ∷ [])) (f k) (Owned-append k hs x)
            (c.owned k)

      fresh : (k : String) → All (λ i. i ≢ length hs) (f k)
      fresh k = All-mono (Owned k hs) (λ i. i ≢ length hs) (f k) (Owned-ne-length k hs) (c.owned k)

      apart_new : (b : String) → ev ≢ b → Apart (f ev ++ length hs ∷ []) (f b)
      apart_new b ne =
          All-both (λ j. All (λ i. i ≢ j) (f ev)) (λ j. j ≢ length hs)
            (λ j. All (λ i. i ≢ j) (f ev ++ length hs ∷ [])) (f b)
            (λ j p q. All-append (λ i. i ≢ j) (f ev) (length hs ∷ []) p ((λ e. q (sym e)), tt))
            (c.apart ev b ne) (fresh b)

  pub Coherent-erase :
      (i : ℕ) → In i (f ev) → Coherent (at_name ev (erase i (f ev)) f) (clear_handler i hs)
  Coherent-erase i listed = record {
    owned =
        at_name-cases (λ k. All (Owned k (clear_handler i hs))) ev _ f
          (All-both (λ j. j ≢ i) (Owned ev hs) _ (erase i (f ev)) (λ j. Owned-set ev hs i j)
            (erase_ne i (f ev) (c.distinct ev)) (All-erase (Owned ev hs) i (f ev) (c.owned ev)))
          (λ b ne.
            All-both (λ j. j ≢ i) (Owned b hs) _ (f b) (λ j. Owned-set b hs i j) (others b ne)
              (c.owned b));
    distinct =
        at_name-cases (λ k. Distinct) ev _ f (erase-Distinct i (f ev) (c.distinct ev))
          (λ b _. c.distinct b);
    apart = Apart-at ev _ f c.apart (λ b ne.
        All-mono (λ j. All (λ x. x ≢ j) (f ev)) _ (f b) (λ j. All-erase (λ x. x ≢ j) i (f ev))
          (c.apart ev b ne));
  }
    where
      others : (b : String) → ev ≢ b → All (λ j. j ≢ i) (f b)
      others b ne =
          All-mono (λ j. All (λ x. x ≢ j) (f ev)) (λ j. j ≢ i) (f b)
            (λ j h e. All-lookup (λ x. x ≢ j) (f ev) i h listed (sym e)) (c.apart ev b ne)

  Owned-clear_all :
      (b : String) (is : List ℕ) (hs' : List (Option (Listener H)))
      → Apart is (f b)
      → All (Owned b hs') (f b)
      → All (Owned b (clear_all is hs')) (f b)
  Owned-clear_all b [] hs' a o = o
  Owned-clear_all b (i ∷ is) hs' a o =
      Owned-clear_all b is (clear_handler i hs')
        (All-mono (λ j. All (λ x. x ≢ j) (i ∷ is)) _ (f b) (λ j h. h.1) a)
        (All-both (λ j. All (λ x. x ≢ j) (i ∷ is)) (Owned b hs') _ (f b)
          (λ j h. Owned-set b hs' i j (λ e. h.0 (sym e))) a o)

  pub Coherent-clear_all : Coherent (at_name ev [] f) (clear_all (f ev) hs)
  Coherent-clear_all = record {
    owned =
        at_name-cases (λ k. All (Owned k (clear_all (f ev) hs))) ev [] f tt
          (λ b ne. Owned-clear_all b (f ev) hs (c.apart ev b ne) (c.owned b));
    distinct = at_name-cases (λ k. Distinct) ev [] f tt (λ b _. c.distinct b);
    apart = Apart-at ev [] f c.apart (λ b _. Apart-symm (f b) [] tt);
  }
