-- ===== src/Ansi/Bells.antt =====
-- What is left of a text by `strip_ansi_escape_sequences`: all of a plain text, and no bell.
use llmsh.Base.{
  ℕ, zero, suc, [], ◌∷◌, ◌++◌, ◌-◌, Bool, true, false, none, take, All, ◌≡◌, ◌≢◌, ◌==◌, refl, sym,
  ap, Bool-cases, Option-cases, inl, inr, arith, if◌then◌else◌, bytes_eq, eq_of_bytes_eq,
}
use mathlib.Core.Path.{subst}
use llmsh.Text.{Text}
use llmsh.Ansi.{esc, bell, match_length, is_allowed, replace_from, strip_ansi_escape_sequences}

abbrev pub IsPlain : ℕ → Type 0
IsPlain c = (c ≢ esc) × (c ≢ bell)

abbrev pub IsSilent : ℕ → Type 0
IsSilent c = c ≢ bell

All-++ : (xs ys : Text) → All IsSilent xs → All IsSilent ys → All IsSilent (xs ++ ys)
All-++ [] ys a b = b
All-++ (x ∷ xs) ys (h, a) b = (h, All-++ xs ys a b)

module _ (is_decimal : ℕ → Bool) where
  match_length-plain : (c : ℕ) (cs : Text) → IsPlain c → match_length is_decimal (c ∷ cs) ≡ none
  unfolding match_length
  match_length-plain c cs (no_esc, no_bell) =
      let e : (c == esc) ≡ false = ground arith in
      let b : (c == bell) ≡ false = ground arith in rw (e, b) refl

  match_length-bell : (c : ℕ) (cs : Text) → match_length is_decimal (c ∷ cs) ≡ none → c ≢ bell
  unfolding match_length
  match_length-bell c cs e is = let f = rw is at e in cc

  replace_from-plain : (text : Text) → All IsPlain text → replace_from is_decimal 0 text ≡ text
  unfolding replace_from
  replace_from-plain [] plain = refl
  replace_from-plain (c ∷ cs) (p, plain) =
      rw (replace_from, match_length-plain c cs p) (ap (λ t. c ∷ t) (replace_from-plain cs plain))

  is_allowed-IsSilent : (cap : Text) → is_allowed is_decimal cap ≡ true → All IsSilent cap
  unfolding is_allowed
  is_allowed-IsSilent cap h = elim (Bool-cases (bytes_eq cap (esc ∷ b'[' ∷ b'D' ∷ []))) [
    | inl left ↦
        subst (All IsSilent) (sym (eq_of_bytes_eq cap _ left))
          ((λ e. omega (arith, e)), ((λ e. omega (arith, e)), ((λ e. omega (arith, e)), tt)))
    | inr not_left ↦
        let right : bytes_eq cap (esc ∷ b'[' ∷ b'C' ∷ []) ≡ true = rw not_left at h in
        subst (All IsSilent) (sym (eq_of_bytes_eq cap _ right))
          ((λ e. omega (arith, e)), ((λ e. omega (arith, e)), ((λ e. omega (arith, e)), tt)))
  ]

  kept-IsSilent : (cap : Text) → All IsSilent (if is_allowed is_decimal cap then cap else [])
  kept-IsSilent cap = elim (Bool-cases (is_allowed is_decimal cap)) [
    | inl kept ↦ rw kept (is_allowed-IsSilent cap kept)
    | inr gone ↦ rw gone tt
  ]

  replace_from-IsSilent :
      (skip : ℕ) (text : Text) → All IsSilent (replace_from is_decimal skip text)
  unfolding replace_from
  replace_from-IsSilent skip [] = tt
  replace_from-IsSilent (suc skip) (c ∷ cs) = replace_from-IsSilent skip cs
  replace_from-IsSilent zero (c ∷ cs) = elim (Option-cases (match_length is_decimal (c ∷ cs))) [
    | inl nothing ↦
        rw (replace_from, nothing) (match_length-bell c cs nothing, replace_from-IsSilent 0 cs)
    | inr (n, some_match) ↦
        rw (replace_from, some_match)
          (All-++ _ (replace_from is_decimal (n - 1) cs) (kept-IsSilent (take n (c ∷ cs)))
            (replace_from-IsSilent (n - 1) cs))
  ]

  -- No bell is left in any text.
  pub strip-IsSilent : (text : Text) → All IsSilent (strip_ansi_escape_sequences is_decimal text)
  unfolding strip_ansi_escape_sequences
  strip-IsSilent text = replace_from-IsSilent 0 text

  -- Text without ESC and BEL is not changed.
  pub strip-plain :
      (text : Text) → All IsPlain text → strip_ansi_escape_sequences is_decimal text ≡ text
  unfolding strip_ansi_escape_sequences
  strip-plain text plain = replace_from-plain text plain
