-- ===== src/Shell/Selections.antt =====
-- What the user's selection comes to: a command of hermitd's reply, or none.
use llmsh.Base.{
  ℕ, List, Option, none, some, ok, ◌≡◌, refl, sym, ap, get_elem?, Option-cases, inl, inr,
  ok-injective, codes, ◌∙◌,
}
use llmsh.Text.{Text}
use llmsh.Effects.{Method, ◌>>=◌, pure, bind-ok}
use llmsh.Outside.{Outside, History, Signal, line, ctrl_d, ctrl_c}
use llmsh.Shell.Strings.{trim}
use llmsh.Shell.Numerals.{IsNumber, selection_of-some}
use llmsh.Shell.Hermit.{hermit_print, invalid_selection, select, selection_of, on_selection}

after-none :
    (m : Method History (Unit {0})) (h h' : History) {s : Option Text}
    → (m >>= λ _. pure none) h ≡ (ok s, h')
    → none ≡ s
after-none m h h' e =
    let (_, _, _, at_end) = bind-ok m (λ _. pure none) h e in ok-injective (ap (λ r. r.0) at_end)

none-ne-some : {a : Text} → none ≡ some a → ⊥
none-ne-some e = cc

module _ (o : Outside) where
  invalid-none : (h h' : History) {s : Option Text} → invalid_selection o h ≡ (ok s, h') → none ≡ s
  unfolding invalid_selection
  invalid-none h h' e = after-none (hermit_print o (codes "Please input a valid selection")) h h' e

  select-some :
      (commands : List Text) (n : Option ℕ) (h h' : History) (command : Text)
      → select o commands n h ≡ (ok (some command), h')
      → (i : ℕ) × (n ≡ some i) × (get_elem? commands i ≡ some command) × (h' ≡ h)
  unfolding select
  select-some commands none h h' command e = absurd (none-ne-some (invalid-none h h' e))
  select-some commands (some i) h h' command e = elim (Option-cases (get_elem? commands i)) [
    | inl g ↦ absurd (none-ne-some (invalid-none h h' (rw (select, g) at e)))
    | inr (c, g) ↦
        let e' : (ok (some c), h) ≡ (ok (some command), h') = rw (select, g) at e in
        let same : some c ≡ some command = ok-injective (ap (λ r. r.0) e') in
        (i, refl, g ∙ same, sym (ap (λ r. r.1) e'))
  ]

  -- A command comes back only if a line was typed that is, without the white space around it, empty or
  -- decimal digits, perhaps behind a `+`; then it is the command with that number, or with the number 0
  -- for an empty line, counted from 0; and nothing is printed.
  pub on_selection-some :
      (commands : List Text) (signal : Signal) (h h' : History) (command : Text)
      → on_selection o commands signal h ≡ (ok (some command), h')
      → (text : Text) × (i : ℕ) × (signal ≡ line text)
        × IsNumber (trim text) i
        × (get_elem? commands i ≡ some command)
        × (h' ≡ h)
  unfolding on_selection
  on_selection-some commands (line text) h h' command e =
      let (i, is, g, same) = select-some commands (selection_of o (trim text)) h h' command e in
      (text, i, refl, selection_of-some o (trim text) i is, g, same)
  on_selection-some commands ctrl_d h h' command e = cc
  on_selection-some commands ctrl_c h h' command e = cc
