-- ===== src/Main/Following.antt =====
-- llmsh/src/main.rs: what is known of a step of `main` that was passed.
use llmsh.Base.{
  Bool, true, false, ◌==◌, Outcome, ok, err, panicked, exhausted, ◌≡◌, ◌≢◌, refl, arith, codes,
  display, ◌++◌,
}
use llmsh.Text.{Text}
use llmsh.Effects.{Method}
use llmsh.Outside.{Outside, History, Answer, answer, failure}
use llmsh.Main.{
  Progress, returned, exited, replaced, crashed, running, Process, follow, ◌>>=◌, expect, expected,
  expect_answer, exit_with, settle, settled,
}

-- An end that no failure leads to.
abbrev pub is_good : {A : Type 0} → Progress A → Bool
is_good (returned a) = true
is_good (exited code) = code == 0
is_good replaced = true
is_good crashed = false
is_good running = false

module _ (o : Outside) {A B : Type 0} (f : A → Process B) (h h' : History) (r : Progress B) where
  pub exit_with-bad : (text : Text) → is_good r ≡ true → (exit_with o text >>= f) h ≢ (r, h')
  exit_with-bad text good e = ground arith

  expect-then :
      (msg : Text) (m : Outcome A)
      → is_good r ≡ true
      → (expect o msg m >>= f) h ≡ (r, h')
      → (a : A) × (m ≡ ok a) × (f a h ≡ (r, h'))
  expect-then msg (ok a) good e = (a, refl, e)
  expect-then msg (err x) good e =
      absurd (exit_with-bad (msg ++ codes ": " ++ display x ++ codes "\r\n") good e)
  expect-then msg panicked good e = ground arith
  expect-then msg exhausted good e = ground arith

  pub expect_answer-then :
      (msg : Text) (m : Answer A)
      → is_good r ≡ true
      → (expect_answer o msg m >>= f) h ≡ (r, h')
      → (a : A) × (m ≡ answer a) × (f a h ≡ (r, h'))
  unfolding expect_answer
  expect_answer-then msg (answer a) good e = (a, refl, e)
  expect_answer-then msg (failure x) good e =
      absurd (exit_with-bad (msg ++ codes ": " ++ x ++ codes "\r\n") good e)

  settle-then :
      (m : Outcome A)
      → is_good r ≡ true
      → follow (settle m h).0 f (settle m h).1 ≡ (r, h')
      → (a : A) × (m ≡ ok a) × (f a h ≡ (r, h'))
  settle-then (ok a) good e = (a, refl, e)
  settle-then (err x) good e = ground arith
  settle-then panicked good e = ground arith
  settle-then exhausted good e = ground arith

module _ (o : Outside) {A B : Type 0} (m : Method History A) (f : A → Process B) (h h' : History)
    (r : Progress B) where
  -- A good end behind `expect!` means that the call in it returned a value.
  pub expected-then :
      (msg : Text)
      → is_good r ≡ true
      → (expected o msg m >>= f) h ≡ (r, h')
      → (a : A) × (h1 : History) × (m h ≡ (ok a, h1)) × (f a h1 ≡ (r, h'))
  unfolding expected
  expected-then msg good e =
      let (a, got, rest) = expect-then o f (m h).1 h' r msg (m h).0 good e in
      (a, (m h).1, λ i. (got i, (m h).1), rest)

  pub settled-then :
      is_good r ≡ true
      → (settled m >>= f) h ≡ (r, h')
      → (a : A) × (h1 : History) × (m h ≡ (ok a, h1)) × (f a h1 ≡ (r, h'))
  unfolding settled
  settled-then good e =
      let (a, got, rest) = settle-then o f (m h).1 h' r (m h).0 good e in
      (a, (m h).1, λ i. (got i, (m h).1), rest)
