-- ===== src/Effects.antt =====
-- Methods over a state, which may fail: what a method did before it failed stays done.
pub mod Contracts
use llmsh.Base.{
  ℕ, Bool, List, [], ◌∷◌, ◌++◌, Error, Outcome, ok, err, panicked, exhausted, ◌≡◌, ◌≢◌, refl,
}

abbrev pub Method : Type 0 → Type 0 → Type 0
Method S A = S → Outcome A × S

module _ {S A B : Type 0} where
  abbrev pub proceed : Outcome A → (A → Method S B) → Method S B
  proceed (ok a) f s = f a s
  proceed (err e) f s = (err e, s)
  proceed panicked f s = (panicked, s)
  proceed exhausted f s = (exhausted, s)

  -- The operator `?`, too.
  infixl 5 ◌>>=◌ ◌>>◌
  abbrev pub ◌>>=◌ : Method S A → (A → Method S B) → Method S B
  ◌>>=◌ m f s = let (r, s') = m s in proceed r f s'

  abbrev pub ◌>>◌ : Method S A → Method S B → Method S B
  m >> n = m >>= λ _. n

module _ {S A : Type 0} where
  abbrev pub pure : A → Method S A
  pure a s = (ok a, s)

  abbrev pub raise : Error → Method S A
  raise e s = (err e, s)

  abbrev pub panic : Method S A
  panic s = (panicked, s)

module _ {S A B : Type 0} where
  -- Inversion of a method that returned a value.
  pub bind-ok :
      (m : Method S A) (f : A → Method S B) (s : S) {b : B} {s' : S}
      → (m >>= f) s ≡ (ok b, s')
      → (a : A) × (s1 : S) × (m s ≡ (ok a, s1)) × (f a s1 ≡ (ok b, s'))
  bind-ok m f s h = proceed-ok (m s) f h
    where
      proceed-ok :
          (r : Outcome A × S) (f : A → Method S B) {b : B} {s' : S}
          → proceed r.0 f r.1 ≡ (ok b, s')
          → (a : A) × (s1 : S) × (r ≡ (ok a, s1)) × (f a s1 ≡ (ok b, s'))
      proceed-ok (ok a, s1) f h = (a, s1, refl, h)
      proceed-ok (err e, s1) f h = cc
      proceed-ok (panicked, s1) f h = cc
      proceed-ok (exhausted, s1) f h = cc

  -- A method that did not return a value is the last that acts.
  pub bind-stop :
      (m : Method S A) (f : A → Method S B) (s : S)
      → ((a : A) → (m s).0 ≢ ok a)
      → ((m >>= f) s).1 ≡ (m s).1
  bind-stop m f s h = proceed-stop (m s).0 (m s).1 h
    where
      proceed-stop : (r : Outcome A) (s1 : S) → ((a : A) → r ≢ ok a) → (proceed r f s1).1 ≡ s1
      proceed-stop (ok a) s1 h = absurd (h a refl)
      proceed-stop (err e) s1 h = refl
      proceed-stop panicked s1 h = refl
      proceed-stop exhausted s1 h = refl
