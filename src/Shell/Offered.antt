-- ===== src/Shell/Offered.antt =====
-- What the user sees before each command of hermitd's answer, and what typing it does.
use llmsh.Base.{
  ℕ, zero, suc, ◌+◌, ◌%◌, ◌/◌, ◌≤◌, List, [], ◌∷◌, ◌++◌, false, some, All, ok, codes, get_elem?,
  ltb, Bool-cases, inl, inr, ◌⊎◌, arith, ◌≡◌, refl, sym, ap, ◌∙◌, append_assoc, append-nil,
}
use mathlib.Core.List.{reverse, reverse_aux, reverse-reverse}
use llmsh.Text.{Text, into_bytes}
use llmsh.Util.{fix_newlines}
use llmsh.Outside.{Outside, History, answer, line, write_stdout, flush_stdout, read_line}
use llmsh.Messages.{map_err}
use llmsh.Shell.Strings.{
  usize_max, is_whitespace, trim, trim_start, decimal_from, decimal, choices_from,
}
use llmsh.Shell.Hermit.{
  hermitd_resp_header, hermit_print, write_out, flush_out, on_selection, select,
  handle_hermit_selection,
}
use llmsh.Shell.Numbers.{selection_of-decimal}

-- The line for a command.
abbrev pub entry : ℕ → Text → Text
entry n command = codes "[" ++ decimal n ++ codes "] `" ++ command ++ codes "`"

-- At the start of a line.
abbrev pub StartsLine : Text → Type 0
StartsLine before = (before ≡ []) ⊎ ((above : Text) × (before ≡ above ++ codes "\n"))

StartsLine-below :
    (above before : Text) → StartsLine before → StartsLine (above ++ codes "\n" ++ before)
StartsLine-below above before (inl e) =
    inr (above, ap (λ t. above ++ codes "\n" ++ t) e ∙ simp (append-nil))
StartsLine-below above before (inr (more, e)) =
    inr (above ++ codes "\n" ++ more, rw e (simp (append_assoc)))

entry-line :
    (n : ℕ) (command rest : Text)
    → codes "[" ++ decimal n ++ codes "] `" ++ command ++ codes "`\n" ++ rest
      ≡ entry n command ++ (codes "\n" ++ rest)
entry-line n command rest = simp (append_assoc)

-- Each command stands on a line of its own behind its number.
choices_from-entry :
    (k : ℕ) (commands : List Text) (i : ℕ) (command : Text)
    → get_elem? commands i ≡ some command
    → (before after : Text) × (choices_from k commands ≡ before ++ entry (k + i) command ++ after)
      × StartsLine before
unfolding choices_from
choices_from-entry k [] i command e = cc
choices_from-entry k (s ∷ []) zero command e =
    let is : s ≡ command = cc in
    let first : k ≡ k + 0 = omega arith in
    (
      [],
      [],
      ap (λ t. entry k t) is
          ∙ ap (λ n. entry n command) first
          ∙ sym (append-nil (entry (k + 0) command)),
      inl refl,
    )
choices_from-entry k (s ∷ []) (suc i) command e = cc
choices_from-entry k (s ∷ t ∷ r) zero command e =
    let is : s ≡ command = cc in
    let first : k ≡ k + 0 = omega arith in
    let rest = choices_from (k + 1) (t ∷ r) in
    (
      [],
      codes "\n" ++ rest,
      ap (λ s. codes "[" ++ decimal k ++ codes "] `" ++ s ++ codes "`\n" ++ rest) is
          ∙ entry-line k command rest
          ∙ ap (λ n. entry n command ++ (codes "\n" ++ rest)) first,
      inl refl,
    )
choices_from-entry k (s ∷ t ∷ r) (suc i) command e =
    let (before, after, is, starts) = choices_from-entry (k + 1) (t ∷ r) i command e in
    let same : k + 1 + i ≡ k + suc i = omega arith in
    (
      entry k s ++ codes "\n" ++ before,
      after,
      ap (λ u. codes "[" ++ decimal k ++ codes "] `" ++ s ++ codes "`\n" ++ u)
            (is ∙ ap (λ n. before ++ entry n command ++ after) same)
          ∙ entry-line k s (before ++ entry (k + suc i) command ++ after)
          ∙ simp (append_assoc),
      StartsLine-below (entry k s) before starts,
    )

-- A decimal digit, which is no white space.
abbrev IsDigit : ℕ → Type 0
IsDigit c = (b'0' ≤ c) × (c ≤ b'9')

IsDigit-visible : (c : ℕ) → IsDigit c → is_whitespace c ≡ false
IsDigit-visible c (lo, hi) = ground arith

decimal_from-digits :
    (fuel n : ℕ) (out : Text) → All IsDigit out → All IsDigit (decimal_from fuel n out)
unfolding decimal_from
decimal_from-digits zero n out digits = digits
decimal_from-digits (suc fuel) n out digits =
    let next : IsDigit (b'0' + n % 10) = (omega arith, omega arith) in
    elim (Bool-cases (ltb n 10)) [
      | inl last ↦ rw last (next, digits)
      | inr more ↦
          rw more (decimal_from-digits fuel (n / 10) ((b'0' + n % 10) ∷ out) (next, digits))
    ]

trim_start-digits : (text : Text) → All IsDigit text → trim_start text ≡ text
unfolding trim_start
trim_start-digits [] digits = refl
trim_start-digits (c ∷ cs) (digit, digits) = rw (IsDigit-visible c digit) refl

All-reverse :
    (text back : Text) → All IsDigit text → All IsDigit back → All IsDigit (reverse_aux text back)
All-reverse [] back digits before = before
All-reverse (c ∷ cs) back (digit, digits) before = All-reverse cs (c ∷ back) digits (digit, before)

trim-decimal : (n : ℕ) → trim (decimal n) ≡ decimal n
unfolding trim decimal
trim-decimal n =
    let digits = decimal_from-digits (suc n) n [] tt in
    ap (λ t. reverse (trim_start (reverse t)))
      (trim_start-digits (decimal_from (suc n) n []) digits)
    ∙ ap reverse (
        trim_start-digits (reverse (decimal_from (suc n) n []))
          (All-reverse (decimal_from (suc n) n []) [] digits tt))
    ∙ reverse-reverse (decimal_from (suc n) n [])

abbrev intro : Text
intro = codes "To run a suggested command from hermitd, type one of the following: "

offer-entry :
    (commands : List Text) (i : ℕ) (command : Text)
    → get_elem? commands i ≡ some command
    → (above below : Text) × (hermitd_resp_header
          ++ (codes "To run a suggested command from hermitd, type one of the following: \n"
              ++ choices_from 0 commands)
          ++ codes "\n"
        ≡ above ++ codes "\n" ++ entry i command ++ below)
offer-entry commands i command e =
    let (before, after, is, starts) = choices_from-entry 0 commands i command e in
    let same : 0 + i ≡ i = omega arith in
    let listed : choices_from 0 commands ≡ before ++ entry i command ++ after =
      is ∙ ap (λ n. before ++ entry n command ++ after) same in
    elim starts [
      | inl none_before ↦ (
        hermitd_resp_header ++ intro,
        after ++ codes "\n",
        rw (listed, none_before) (simp (append_assoc)),
      )
      | inr (above, is_above) ↦ (
        hermitd_resp_header ++ (intro ++ codes "\n") ++ above,
        after ++ codes "\n",
        rw (listed, is_above) (simp (append_assoc)),
      )
    ]

module _ (o : Outside) where
  on_selection-decimal :
      (commands : List Text) (i : ℕ) (command : Text) (h : History)
      → i ≤ usize_max
      → get_elem? commands i ≡ some command
      → on_selection o commands (line (decimal i)) h ≡ (ok (some command), h)
  unfolding on_selection select
  on_selection-decimal commands i command h le e =
      rw (trim-decimal i, selection_of-decimal o i le, select, e) refl

  -- Where messages can be printed, and for a number up to the bound of `usize`: the user sees each command
  -- that hermitd answered on a line that begins with its number between brackets, and when the line that
  -- is read next is this number, the dialogue comes to this command, and nothing else is done.
  pub handle_hermit_selection-offers :
      (commands : List Text) (i : ℕ) (command : Text) (h : History)
      → i ≤ usize_max
      → get_elem? commands i ≡ some command
      → ((h : History) → o.on_write h ≡ answer tt)
      → ((h : History) → o.on_read_line h ≡ answer (line (decimal i)))
      → (above below : Text) × (handle_hermit_selection o commands h ≡ (
        ok (some command),
        read_line
            ∷ flush_stdout
            ∷ write_stdout
                (fix_newlines (into_bytes (above ++ codes "\n" ++ entry i command ++ below)))
            ∷ h,
      ))
  unfolding handle_hermit_selection hermit_print write_out flush_out map_err
  handle_hermit_selection-offers [] i command h le e prints typed = cc
  handle_hermit_selection-offers (c ∷ cs) i command h le e prints typed =
      let (above, below, is) = offer-entry (c ∷ cs) i command e in
      let shown =
        write_stdout
          (fix_newlines (into_bytes (above ++ codes "\n" ++ entry i command ++ below))) in
      (
        above,
        below,
        rw
            (
              is,
              prints (shown ∷ h),
              prints (flush_stdout ∷ shown ∷ h),
              typed (read_line ∷ flush_stdout ∷ shown ∷ h),
            )
            (on_selection-decimal (c ∷ cs) i command (read_line ∷ flush_stdout ∷ shown ∷ h) le e),
      )
