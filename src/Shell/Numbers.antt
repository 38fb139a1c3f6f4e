-- ===== src/Shell/Numbers.antt =====
-- The numbers that the offer of commands shows, as the user types them.
use llmsh.Base.{
  ℕ, zero, suc, ◌+◌, ◌-◌, ◌*◌, ◌/◌, ◌%◌, ◌≤◌, ◌<◌, [], ◌∷◌, true, false, some, ◌==◌, ltb, leb,
  Bool-cases, inl, inr, arith, ◌≡◌, refl, ◌∙◌, ap,
}
use llmsh.Text.{Text, within}
use llmsh.Outside.{Outside}
use llmsh.Shell.Strings.{usize_max, parse_digits, parse_usize, decimal_from, decimal}
use llmsh.Shell.Hermit.{selection_of}

parse_digits_cons :
    (n d : ℕ) (out : Text)
    → d < 10
    → n * 10 + d ≤ usize_max
    → parse_digits n ((b'0' + d) ∷ out) ≡ parse_digits (n * 10 + d) out
unfolding parse_digits
parse_digits_cons n d out digit le =
    let is : b'0' + d - b'0' ≡ d = omega arith in
    let in_range : within b'0' b'9' (b'0' + d) ≡ true = ground arith in
    let small : leb (n * 10 + d) usize_max ≡ true = ground arith in
    rw (is) (rw (in_range, small) refl)

parse_digits-decimal_from :
    (fuel n : ℕ) (out : Text)
    → n < fuel
    → n ≤ usize_max
    → parse_digits 0 (decimal_from fuel n out) ≡ parse_digits n out
unfolding decimal_from
parse_digits-decimal_from zero n out lt le = absurd (omega arith)
parse_digits-decimal_from (suc fuel) n out lt le = elim (Bool-cases (ltb n 10)) [
  | inl one_digit ↦
      let is_small : n < 10 = ground arith in
      let same : 0 * 10 + n % 10 ≡ n = omega arith in
      rw one_digit (
        parse_digits_cons 0 (n % 10) out (omega arith) (omega arith)
        ∙ ap (λ k. parse_digits k out) same)
  | inr more ↦
      let is_large : 10 ≤ n = ground arith in
      let same : n / 10 * 10 + n % 10 ≡ n = omega arith in
      rw more (
        parse_digits-decimal_from fuel (n / 10) ((b'0' + n % 10) ∷ out) (omega arith) (omega arith)
        ∙ parse_digits_cons (n / 10) (n % 10) out (omega arith) (omega arith)
        ∙ ap (λ k. parse_digits k out) same)
]

-- A list that begins with a digit.
abbrev BeginsWithDigit : Text → Type 0
BeginsWithDigit cs = (d : ℕ) × (rest : Text) × (d < 10) × (cs ≡ (b'0' + d) ∷ rest)

decimal_from-digit :
    (fuel n : ℕ) (out : Text) → n < fuel → BeginsWithDigit (decimal_from fuel n out)
unfolding decimal_from
decimal_from-digit zero n out lt = absurd (omega arith)
decimal_from-digit (suc fuel) n out lt = elim (Bool-cases (ltb n 10)) [
  | inl one_digit ↦ rw one_digit (n % 10, out, omega arith, refl)
  | inr more ↦
      let is_large : 10 ≤ n = ground arith in
      rw more (decimal_from-digit fuel (n / 10) ((b'0' + n % 10) ∷ out) (omega arith))
]

parse_usize_digit : (cs : Text) → BeginsWithDigit cs → parse_usize cs ≡ parse_digits 0 cs
unfolding parse_usize
parse_usize_digit [] (d, rest, lt, e) = cc
parse_usize_digit (c ∷ []) (d, rest, lt, e) = refl
parse_usize_digit (c ∷ c' ∷ cs) (d, rest, lt, e) =
    let is : c ≡ b'0' + d = cc in
    let no_sign : (c == b'+') ≡ false = ground arith in rw no_sign refl

selection_of_lem :
    (o : Outside) (cs : Text) → BeginsWithDigit cs → selection_of o cs ≡ parse_usize cs
unfolding selection_of
selection_of_lem o [] (d, rest, lt, e) = cc
selection_of_lem o (c ∷ cs) begins = refl

-- The number that stands before a command in the offer selects that command when it is typed, up to the
-- bound of `usize`.
pub selection_of-decimal :
    (o : Outside) (i : ℕ) → i ≤ usize_max → selection_of o (decimal i) ≡ some i
unfolding decimal
selection_of-decimal o i le =
    let begins = decimal_from-digit (suc i) i [] (omega arith) in
    selection_of_lem o (decimal_from (suc i) i []) begins
    ∙ parse_usize_digit (decimal_from (suc i) i []) begins
    ∙ parse_digits-decimal_from (suc i) i [] (omega arith) le
    ∙ (unfold parse_digits in refl)
