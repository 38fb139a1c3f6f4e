-- ===== src/Util.antt =====
-- llmsh/src/util.rs: `fix_newlines`; the error type and the macros are in Base/Results.antt.
use mathlib.Core.Path.{ap₂}
use llmsh.Base.{
  ℕ, Bool, true, false, [], ◌∷◌, ◌++◌, Bytes, ◌≡◌, refl, sym, ap, ◌∙◌, arith, ◌==◌, if◌then◌else◌,
  append_assoc, ◌&&◌, Bool-cases, inl, inr,
}

-- `b'\n'` and `b'\r'`
abbrev pub newline : ℕ
newline = 10

abbrev pub carriage_return : ℕ
carriage_return = 13

unfoldable pub fix_newline : ℕ → Bytes
fix_newline c = if c == newline then carriage_return ∷ newline ∷ [] else c ∷ []

unfoldable pub fix_newlines : Bytes → Bytes
unfolding fix_newline
fix_newlines [] = []
fix_newlines (c ∷ input) = fix_newline c ++ fix_newlines input

-- What a reader of the fixed bytes does: a carriage return before a newline is dropped.
unfoldable pub unfix : Bytes → Bytes
unfix [] = []
unfix (c ∷ []) = c ∷ []
unfix (c ∷ d ∷ rest) =
    if c == carriage_return && d == newline then unfix (d ∷ rest) else c ∷ unfix (d ∷ rest)

-- Output in pieces is fixed as output at once.
pub fix_newlines-append :
    (xs ys : Bytes) → fix_newlines (xs ++ ys) ≡ fix_newlines xs ++ fix_newlines ys
unfolding fix_newlines
fix_newlines-append [] ys = refl
fix_newlines-append (c ∷ xs) ys =
    rw (fix_newlines-append xs ys)
      (sym (append_assoc (fix_newline c) (fix_newlines xs) (fix_newlines ys)))

fix_newlines_cons : (c : ℕ) (xs : Bytes) → fix_newlines (c ∷ xs) ≡ fix_newline c ++ fix_newlines xs
unfolding fix_newlines
fix_newlines_cons c xs = refl

and-false : (b : Bool) → (b && false) ≡ false
and-false true = refl
and-false false = refl

-- Fixed bytes never begin with a newline, so what stands before them stays.
unfix_cons : (c : ℕ) (xs : Bytes) → unfix (c ∷ fix_newlines xs) ≡ c ∷ unfix (fix_newlines xs)
unfolding unfix fix_newlines
unfix_cons c [] = refl
unfix_cons c (d ∷ xs) = elim (Bool-cases (d == newline)) [
  | inl h ↦ rw h (ground arith)
  | inr h ↦ rw h (rw (h, and-false (c == carriage_return)))
]

unfix-newline :
    (xs : Bytes)
    → unfix (carriage_return ∷ newline ∷ fix_newlines xs) ≡ unfix (newline ∷ fix_newlines xs)
unfolding unfix
unfix-newline xs = refl

-- Dropping each carriage return before a newline gives back what was fixed, also where it held
-- carriage returns, so the fixed bytes determine it.
pub unfix-fix_newlines : (xs : Bytes) → unfix (fix_newlines xs) ≡ xs
unfolding fix_newline
unfix-fix_newlines [] = unfold unfix fix_newlines in refl
unfix-fix_newlines (c ∷ xs) = elim (Bool-cases (c == newline)) [
  | inl h ↦
      let e : newline ≡ c = ground arith in
      rw (fix_newlines_cons c xs, fix_newline, h)
        (unfix-newline xs ∙ unfix_cons newline xs ∙ ap₂ ◌∷◌ e (unfix-fix_newlines xs))
  | inr h ↦
      rw (fix_newlines_cons c xs, fix_newline, h)
        (unfix_cons c xs ∙ ap (λ t. c ∷ t) (unfix-fix_newlines xs))
]
