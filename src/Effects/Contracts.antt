-- ===== src/Effects/Contracts.antt =====
-- Contracts of methods: no panic, an error only where a condition fails, and a property of the rest.
use llmsh.Base.{true, Outcome, ok, err, panicked, exhausted, is_calm, ◌≡◌, refl, ◌∙◌, Error}
use mathlib.Core.Path.{subst}
use llmsh.Effects.{Method, ◌>>=◌, proceed}

module _ {S A : Type 0} where
  abbrev pub Holds : Type 0 → (A → S → Type 0) → Outcome A → S → Type 0
  Holds works post (ok a) s = post a s
  Holds works post (err e) s = ¬ works
  Holds works post panicked s = ⊥
  Holds works post exhausted s = ⊥

  -- The method, called in state `s`, does not panic, returns an error only if not `works`, and what it
  -- returns has the property `post`, with the new state.
  abbrev pub Keeps : Type 0 → (A → S → Type 0) → Method S A → S → Type 0
  Keeps works post m s = Holds works post (m s).0 (m s).1

  -- A method that never panics, and succeeds where it works.
  pub Keeps-calm :
      (works : Type 0) (post : A → S → Type 0) (m : Method S A) (s : S)
      → is_calm (m s).0 ≡ true
      → ((e : Error) → (m s).0 ≡ err e → ¬ works)
      → ((a : A) → post a (m s).1)
      → Keeps works post m s
  Keeps-calm works post m s calm fails k = Holds-calm (m s).0 calm fails
    where
      Holds-calm :
          (r : Outcome A)
          → is_calm r ≡ true
          → ((e : Error) → r ≡ err e → ¬ works)
          → Holds works post r (m s).1
      Holds-calm (ok a) calm fails = k a
      Holds-calm (err e) calm fails = fails e refl
      Holds-calm panicked calm fails = cc
      Holds-calm exhausted calm fails = cc

  pub Keeps-ok :
      (works : Type 0) (post : A → S → Type 0) (m : Method S A) (s : S) {a : A} {s1 : S}
      → Keeps works post m s
      → m s ≡ (ok a, s1)
      → post a s1
  Keeps-ok works post m s k e = subst (λ (r : Outcome A × S). Holds works post r.0 r.1) e k

  pub is_calm-Keeps :
      (works : Type 0) (post : A → S → Type 0) (m : Method S A) (s : S)
      → Keeps works post m s
      → is_calm (m s).0 ≡ true
  is_calm-Keeps works post m s k = is_calm-Holds (m s).0 k
    where
      is_calm-Holds : (r : Outcome A) → Holds works post r (m s).1 → is_calm r ≡ true
      is_calm-Holds (ok a) k = refl
      is_calm-Holds (err e) k = refl
      is_calm-Holds panicked k = absurd k
      is_calm-Holds exhausted k = absurd k

  pub Keeps-works :
      (works : Type 0) (post : A → S → Type 0) (m : Method S A) (s : S)
      → Keeps works post m s
      → works
      → (a : A) × (s1 : S) × (m s ≡ (ok a, s1)) × post a s1
  Keeps-works works post m s k w = Holds-works (m s) k
    where
      Holds-works :
          (r : Outcome A × S)
          → Holds works post r.0 r.1
          → (a : A) × (s1 : S) × (r ≡ (ok a, s1)) × post a s1
      Holds-works (ok a, s1) k = (a, s1, refl, k)
      Holds-works (err e, s1) k = absurd (k w)
      Holds-works (panicked, s1) k = absurd k
      Holds-works (exhausted, s1) k = absurd k

  pub Keeps-weaken :
      (works : Type 0) (post post' : A → S → Type 0) (m : Method S A) (s : S)
      → Keeps works post m s
      → ((a : A) (s1 : S) → post a s1 → post' a s1)
      → Keeps works post' m s
  Keeps-weaken works post post' m s h k = Holds-weaken (m s).0 (m s).1 h
    where
      Holds-weaken : (r : Outcome A) (s1 : S) → Holds works post r s1 → Holds works post' r s1
      Holds-weaken (ok a) s1 h = k a s1 h
      Holds-weaken (err e) s1 h = h
      Holds-weaken panicked s1 h = h
      Holds-weaken exhausted s1 h = h

module _ {S A B : Type 0} where
  pub Keeps-bind :
      (works : Type 0) (mid : A → S → Type 0) (post : B → S → Type 0) (m : Method S A)
      (f : A → Method S B) (s : S)
      → Keeps works mid m s
      → ((a : A) (s1 : S) → mid a s1 → Keeps works post (f a) s1)
      → Keeps works post (m >>= f) s
  Keeps-bind works mid post m f s h k = Holds-proceed (m s).0 (m s).1 h
    where
      Holds-proceed :
          (r : Outcome A) (s1 : S)
          → Holds works mid r s1
          → Holds works post (proceed r f s1).0 (proceed r f s1).1
      Holds-proceed (ok a) s1 h = k a s1 h
      Holds-proceed (err e) s1 h = h
      Holds-proceed panicked s1 h = h
      Holds-proceed exhausted s1 h = h

-- How a method changes the state, whatever it comes to.
module _ {S : Type 0} (R : S → S → Type 0) where
  abbrev pub Goes : {A : Type 0} → Method S A → Type 0
  Goes m = (s : S) → R s (m s).1

  -- What follows may go by what the method returned.
  pub goes-after :
      {A B : Type 0} (m : Method S A) (f : A → Method S B) (s : S)
      → R s (m s).1
      → ((a : A) (s1 : S) → m s ≡ (ok a, s1) → R s (f a s1).1)
      → R s ((m >>= f) s).1
  goes-after {A} {B} m f s first rest = goes-proceed (m s) refl first
    where
      goes-proceed : (r : Outcome A × S) → m s ≡ r → R s r.1 → R s (proceed r.0 f r.1).1
      goes-proceed (ok a, s1) is first = rest a s1 is
      goes-proceed (err x, s1) is first = first
      goes-proceed (panicked, s1) is first = first
      goes-proceed (exhausted, s1) is first = first

  pub Goes-bind :
      {A B : Type 0} (m : Method S A) (f : A → Method S B)
      → ((s s1 s2 : S) → R s s1 → R s1 s2 → R s s2)
      → Goes m
      → ((a : A) → Goes (f a))
      → Goes (m >>= f)
  Goes-bind m f trans first rest s =
      goes-after m f s (first s)
        (λ a s1 is. trans s s1 (f a s1).1 (subst (λ r. R s r.1) is (first s)) (rest a s1))

-- A view of the state that a method leaves as it is.
module _ {S V : Type 0} (view : S → V) where
  abbrev pub Same : S → S → Type 0
  Same s s' = view s' ≡ view s

  abbrev pub Leaves : {A : Type 0} → Method S A → Type 0
  Leaves m = Goes Same m

  pub Leaves-bind :
      {A B : Type 0} (m : Method S A) (f : A → Method S B)
      → Leaves m
      → ((a : A) → Leaves (f a))
      → Leaves (m >>= f)
  Leaves-bind m f same rest = Goes-bind Same m f (λ s s1 s2 a b. b ∙ a) same rest
