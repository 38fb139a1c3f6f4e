-- ===== src/Shell/Numerals.antt =====
-- What shell.rs reads as the number of a command: the texts that `parse::<usize>` takes, and the empty one.
use llmsh.Base.{
  ℕ, ◌+◌, ◌-◌, ◌*◌, ◌≤◌, [], ◌∷◌, some, Bool-cases, inl, inr, ◌⊎◌, All, leb, ◌==◌, arith, ◌≡◌, refl,
  ap,
}
use llmsh.Text.{Text, within}
use llmsh.Outside.{Outside}
use llmsh.Shell.Strings.{usize_max, parse_digits, parse_usize}
use llmsh.Shell.Hermit.{selection_of}

abbrev IsDigit : ℕ → Type 0
IsDigit c = (b'0' ≤ c) × (c ≤ b'9')

-- The digits' value behind a number.
abbrev value_from : ℕ → Text → ℕ
value_from n [] = n
value_from n (c ∷ cs) = value_from (n * 10 + (c - b'0')) cs

abbrev IsDecimal : Text → ℕ → Type 0
IsDecimal [] n = ⊥
IsDecimal (c ∷ cs) n = All IsDigit (c ∷ cs) × (value_from 0 (c ∷ cs) ≡ n)

-- An empty text is the number 0; else the text is its decimal digits, perhaps behind a `+`.
abbrev pub IsNumber : Text → ℕ → Type 0
IsNumber text n =
    ((text ≡ []) × (n ≡ 0))
    ⊎ IsDecimal text n
    ⊎ ((digits : Text) × (text ≡ b'+' ∷ digits) × IsDecimal digits n)

parse_digits-some :
    (n : ℕ) (cs : Text) (i : ℕ)
    → parse_digits n cs ≡ some i
    → All IsDigit cs × (value_from n cs ≡ i)
unfolding parse_digits
parse_digits-some n [] i e = (tt, cc)
parse_digits-some n (c ∷ cs) i e = elim (Bool-cases (within b'0' b'9' c)) [
  | inr no_digit ↦ let e' = rw no_digit at e in cc
  | inl digit ↦ elim (Bool-cases (leb (n * 10 + (c - b'0')) usize_max)) [
    | inr large ↦ let e' = rw (digit, large) at e in cc
    | inl small ↦
        let (all, same) = parse_digits-some (n * 10 + (c - b'0')) cs i (rw (digit, small) at e) in
        let bounds : IsDigit c = ground arith in ((bounds, all), same)
  ]
]

-- A number that was read is the one that is written there.
pub selection_of-some :
    (o : Outside) (text : Text) (i : ℕ) → selection_of o text ≡ some i → IsNumber text i
unfolding selection_of parse_usize
selection_of-some o [] i e = inl (refl, cc)
selection_of-some o (c ∷ []) i e = inr (inl (parse_digits-some 0 (c ∷ []) i e))
selection_of-some o (c ∷ d ∷ cs) i e = elim (Bool-cases (c == b'+')) [
  | inl plus ↦
      let is : c ≡ b'+' = ground arith in
      inr (inr (d ∷ cs, ap (λ x. x ∷ d ∷ cs) is, parse_digits-some 0 (d ∷ cs) i (rw plus at e)))
  | inr other ↦ inr (inl (parse_digits-some 0 (c ∷ d ∷ cs) i (rw other at e)))
]
