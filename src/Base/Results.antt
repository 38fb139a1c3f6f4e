-- ===== src/Base/Results.antt =====
-- What a call comes to: a value, an error value (`Err` in Rust), a panic, or fuel that ran out.
-- util.rs: the error type.
use mathlib.Core.Path.{◌≡◌, refl}
use mathlib.Core.Bool.{Bool, true, false}
use mathlib.Core.Option.{Option, none, some}
use mathlib.Core.List.{◌++◌}
use llmsh.Base.Tests.{Bytes, codes}

pub data Error : Type 0 where
  failed : Bytes → Error
  hermit_failed : Bytes → Error
  hermit_busy : Error
  hermit_dead : Error
  illegal_state : Bytes → Error

-- `impl Display for Error`, and `Debug`, which prints the same.
unfoldable pub display : Error → Bytes
display (failed msg) = msg
display hermit_busy = codes "hermitd is Busy"
display hermit_dead = codes "hermitd is unresponsive. Please check if you have hermitd started"
display (hermit_failed msg) = codes "hermitd failed with error: " ++ msg
display (illegal_state msg) = codes "Illegal State Exception: " ++ msg

pub data Outcome {ℓ} (A : Type ℓ) : Type ℓ where
  ok : A → Outcome A
  err : Error → Outcome A
  panicked : Outcome A
  exhausted : Outcome A

infixl 5 ◌>>=◌
abbrev pub ◌>>=◌ {ℓ κ} : {A : Type ℓ} {B : Type κ} → Outcome A → (A → Outcome B) → Outcome B
ok a >>= f = f a
err e >>= f = err e
panicked >>= f = panicked
exhausted >>= f = exhausted

-- `.unwrap()`, and indexing by a key or a position.
abbrev pub unwrap {ℓ} : {A : Type ℓ} → Option A → Outcome A
unwrap none = panicked
unwrap (some a) = ok a

-- What returned a value in the end did so at first: the intermediate value.
pub returned-first {ℓ κ} :
    {A : Type ℓ} {B : Type κ} {b : B} (first : Outcome A) (rest : A → Outcome B)
    → (first >>= rest) ≡ ok b
    → (a : A) × (first ≡ ok a) × (rest a ≡ ok b)
returned-first panicked rest h = cc
returned-first exhausted rest h = cc
returned-first (err e) rest h = cc
returned-first (ok a) rest h = (a, refl, h)

pub ok-injective {ℓ} : {A : Type ℓ} {a b : A} → ok a ≡ ok b → a ≡ b
ok-injective h = cc

pub panicked-ne-ok {ℓ} : {A : Type ℓ} {a : A} → panicked ≡ ok a → ⊥
panicked-ne-ok e = cc

-- Neither a panic nor a loop without end.
abbrev pub is_calm {ℓ} : {A : Type ℓ} → Outcome A → Bool
is_calm (ok a) = true
is_calm (err e) = true
is_calm panicked = false
is_calm exhausted = false
