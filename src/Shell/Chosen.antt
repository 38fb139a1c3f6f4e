-- ===== src/Shell/Chosen.antt =====
-- llmsh/src/shell.rs, `handle_hermit`: where the text comes from that the dialogue sends to the shell.
use llmsh.Base.{
  ℕ, List, [], ◌∷◌, ◌++◌, Option, none, some, Bytes, codes, ok, ◌≡◌, sym, ap, ◌∙◌, get_elem?, refl,
  inl, inr, ◌⊎◌, ok-injective,
}
use llmsh.Text.{Text}
use mathlib.Core.Path.{subst}
use llmsh.Effects.{◌>>=◌, pure, bind-ok}
use llmsh.Outside.{Outside, History, answer, Signal, read_line, line, ctrl_d, ctrl_c}
use llmsh.Messages.{generate_command, map_err}
use llmsh.Messages.Protocol.{map_err-ok}
use llmsh.Shell.Strings.{trim, choices_from}
use llmsh.Shell.Numerals.{IsNumber}
use llmsh.Shell.Selections.{on_selection-some}
use llmsh.Shell.Hermit.{
  hermit_print, handle_hermit_prompt, on_selection, handle_hermit_selection, handle_hermit_with,
  handle_hermit, accepted_line, pty_input,
}

module _ (o : Outside) where
  -- The user typed a line, hermitd answered it with commands, and the user typed the number of this one.
  pub record IsChosen (session_id : ℕ) (h : History) (command : Text) : Type 0 where
    pub prompt : Text
    pub asked : o.on_read_line (read_line ∷ h) ≡ answer (line prompt)
    pub response : Text
    pub commands : List Text
    pub replied : (generate_command o session_id prompt (read_line ∷ h)).0 ≡ ok (response, commands)
    pub choosing : History
    pub text : Text
    pub typed : o.on_read_line (read_line ∷ choosing) ≡ answer (line text)
    pub number : ℕ
    pub is_number : IsNumber (trim text) number
    pub numbered : get_elem? commands number ≡ some command

  -- What a dialogue types for the user: a carriage return, or a chosen command between two.
  abbrev pub Entered : ℕ → History → Text → Type 0
  Entered session_id h typed =
      (typed ≡ codes "\r")
      ⊎ ((command : Text) × IsChosen session_id h command
          × (typed ≡ codes "\r" ++ command ++ codes "\r"))

  accepted_line-some :
      (signal : Signal) (prompt : Text)
      → accepted_line o signal ≡ some prompt
      → signal ≡ line prompt
  unfolding accepted_line
  accepted_line-some (line text) prompt e = cc
  accepted_line-some ctrl_d prompt e = cc
  accepted_line-some ctrl_c prompt e = cc

  abbrev unknown_error : Bytes
  unknown_error = codes "Unknown error during handling hermitd prompt"

  handle_hermit_prompt-some :
      (h h' : History) (prompt : Text)
      → handle_hermit_prompt o h ≡ (ok (some prompt), h')
      → (o.on_read_line (read_line ∷ h) ≡ answer (line prompt)) × (h' ≡ read_line ∷ h)
  unfolding handle_hermit_prompt
  handle_hermit_prompt-some h h' prompt e =
      let (signal, h1, reading, e1) =
        bind-ok (map_err (o.on_read_line (read_line ∷ h)) unknown_error)
          (λ s. pure (accepted_line o s)) (read_line ∷ h) e in
      let (is, same) = map_err-ok _ unknown_error _ reading in
      (
        is
            ∙ ap (λ s. answer s)
                (accepted_line-some signal prompt (ok-injective (ap (λ r. r.0) e1))),
        sym (ap (λ r. r.1) e1) ∙ same,
      )

  abbrev offer : List Text → Text
  offer commands =
      codes "To run a suggested command from hermitd, type one of the following: \n"
      ++ choices_from 0 commands

  handle_hermit_selection-some :
      (commands : List Text) (h h' : History) (command : Text)
      → handle_hermit_selection o commands h ≡ (ok (some command), h')
      → (h1 : History) × (text : Text) × (i : ℕ) × (o.on_read_line (read_line ∷ h1)
          ≡ answer (line text))
        × IsNumber (trim text) i
        × (get_elem? commands i ≡ some command)
  unfolding handle_hermit_selection
  handle_hermit_selection-some [] h h' command e = cc
  handle_hermit_selection-some (c ∷ cs) h h' command e =
      let (_, h1, _, e1) =
        bind-ok (hermit_print o (offer (c ∷ cs)))
          (λ _ h1.
            (map_err (o.on_read_line (read_line ∷ h1)) unknown_error >>= on_selection o (c ∷ cs))
              (read_line ∷ h1))
          h e in
      let (signal, h2, reading, e2) =
        bind-ok (map_err (o.on_read_line (read_line ∷ h1)) unknown_error) (on_selection o (c ∷ cs))
          (read_line ∷ h1) e1 in
      let (is, _) = map_err-ok _ unknown_error _ reading in
      let (text, i, is_line, number, numbered, _) =
        on_selection-some o (c ∷ cs) signal h2 h' command e2 in
      (h1, text, i, is ∙ ap (λ s. answer s) is_line, number, numbered)

  Entered-selection :
      (session_id : ℕ) (h h3 h4 : History) (prompt response : Text) (commands : List Text)
      (selection : Option Text)
      → o.on_read_line (read_line ∷ h) ≡ answer (line prompt)
      → (generate_command o session_id prompt (read_line ∷ h)).0 ≡ ok (response, commands)
      → handle_hermit_selection o commands h3 ≡ (ok selection, h4)
      → Entered session_id h (pty_input o selection)
  unfolding pty_input
  Entered-selection session_id h h3 h4 prompt response commands none asked replied e = inl refl
  Entered-selection session_id h h3 h4 prompt response commands (some command) asked replied e =
      let (h5, text, i, typed, number, numbered) =
        handle_hermit_selection-some commands h3 h4 command e in
      inr (
        command,
        record {
          prompt = prompt;
          asked = asked;
          response = response;
          commands = commands;
          replied = replied;
          choosing = h5;
          text = text;
          typed = typed;
          number = i;
          is_number = number;
          numbered = numbered;
        },
        refl,
      )

  Entered-handle_hermit_with :
      (session_id : ℕ) (h h1 h' : History) (prompt : Option Text) (typed : Text)
      → handle_hermit_prompt o h ≡ (ok prompt, h1)
      → handle_hermit_with o session_id prompt h1 ≡ (ok typed, h')
      → Entered session_id h typed
  unfolding handle_hermit_with
  Entered-handle_hermit_with session_id h h1 h' none typed asking e =
      inl (sym (ok-injective (ap (λ r. r.0) e)) ∙ (unfold pty_input in refl))
  Entered-handle_hermit_with session_id h h1 h' (some prompt) typed asking e =
      let (asked, same) = handle_hermit_prompt-some h h1 prompt asking in
      let (reply, h2, generating, e1) = bind-ok (generate_command o session_id prompt) _ h1 e in
      let (_, h3, _, e2) = bind-ok (hermit_print o reply.0) _ h2 e1 in
      let (selection, h4, choosing, e3) = bind-ok (handle_hermit_selection o reply.1) _ h3 e2 in
      subst (Entered session_id h) (ok-injective (ap (λ r. r.0) e3)) (
        Entered-selection session_id h h3 h4 prompt reply.0 reply.1 selection asked
          (ap (λ h. (generate_command o session_id prompt h).0) (sym same)
            ∙ ap (λ r. r.0) generating)
          choosing)

  -- A dialogue that returned sends a carriage return, or a command that the user chose, between two.
  pub Entered-handle_hermit :
      (session_id : ℕ) (h h' : History) (typed : Text)
      → handle_hermit o session_id h ≡ (ok typed, h')
      → Entered session_id h typed
  unfolding handle_hermit
  Entered-handle_hermit session_id h h' typed e =
      let (prompt, h1, asking, e1) =
        bind-ok (handle_hermit_prompt o) (handle_hermit_with o session_id) h e in
      Entered-handle_hermit_with session_id h h1 h' prompt typed asking e1
