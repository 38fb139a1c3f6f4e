-- ===== src/Shell/Footprints.antt =====
-- llmsh/src/shell.rs: the effects that the dialogue adds to the history, whatever the outside answers.
use llmsh.Base.{
  ℕ, List, [], ◌∷◌, ◌++◌, Option, none, some, Bytes, refl, get_elem?, Option-cases, inl, inr, codes,
}
use llmsh.Text.{Text}
use llmsh.Effects.{Method, ◌>>=◌, pure}
use llmsh.Effects.Contracts.{Goes}
use llmsh.Outside.{
  Outside, History, Effect, Answer, write_stdout, flush_stdout, read_line, Signal, line, ctrl_d,
  ctrl_c,
}
use llmsh.Messages.{map_err, generate_command}
use llmsh.Messages.Footprints.{
  Adds, Adds-nothing, Adds-then, Adds-bind, Adds-map_err, AllowsMessages, Adds-generate_command,
}
use llmsh.Shell.Strings.{trim, choices_from}
use llmsh.Shell.Hermit.{
  write_out, flush_out, hermit_print, handle_hermit_prompt, invalid_selection, select, selection_of,
  on_selection, handle_hermit_selection, handle_hermit_with, handle_hermit, accepted_line,
  pty_input,
}

-- A property of effects that a dialogue in this session has.
pub record AllowsDialogue (o : Outside) (P : Effect → Type 0) (session_id : ℕ) : Type 0 where
  pub messages : AllowsMessages o P session_id
  pub writes : (bytes : Bytes) → P (write_stdout bytes)
  pub flushes : P flush_stdout
  pub lines : P read_line

module _ (o : Outside) (P : Effect → Type 0) (session_id : ℕ)
    (talks : AllowsDialogue o P session_id) where
  pub Adds-effect :
      {A : Type 0} (e : Effect) (a : Answer A) (msg : Text)
      → P e
      → (h : History) → Adds P h (map_err a msg (e ∷ h)).1
  Adds-effect e a msg p h =
      Adds-then P h (e ∷ h) (map_err a msg (e ∷ h)).1 (e ∷ [], (p, tt), refl)
        (Adds-map_err P a msg (e ∷ h))

  pub Adds-write_out : (bytes : Bytes) → Goes (Adds P) (write_out o bytes)
  unfolding write_out
  Adds-write_out bytes h =
      Adds-effect (write_stdout bytes) (o.on_write (write_stdout bytes ∷ h))
        (codes "Failed to write to stdout") (talks.writes bytes) h

  pub Adds-flush_out : Goes (Adds P) (flush_out o)
  unfolding flush_out
  Adds-flush_out h =
      Adds-effect flush_stdout (o.on_write (flush_stdout ∷ h)) (codes "Failed to flush stdout")
        talks.flushes h

  Adds-hermit_print : (message : Text) → Goes (Adds P) (hermit_print o message)
  unfolding hermit_print
  Adds-hermit_print message =
      Adds-bind P (write_out o _) (λ _. flush_out o) (Adds-write_out _) (λ _. Adds-flush_out)

  abbrev unknown_error : Bytes
  unknown_error = codes "Unknown error during handling hermitd prompt"

  Adds-reading :
      {A : Type 0} (f : Signal → Method History A)
      → ((signal : Signal) → Goes (Adds P) (f signal))
      → (h : History)
      → Adds P h ((map_err (o.on_read_line (read_line ∷ h)) unknown_error >>= f) (read_line ∷ h)).1
  Adds-reading f adds h =
      let answered = o.on_read_line (read_line ∷ h) in
      Adds-then P h (read_line ∷ h) _ (read_line ∷ [], (talks.lines, tt), refl)
        (Adds-bind P (map_err answered unknown_error) f (Adds-map_err P answered unknown_error) adds
          (read_line ∷ h))

  Adds-handle_hermit_prompt : Goes (Adds P) (handle_hermit_prompt o)
  unfolding handle_hermit_prompt
  Adds-handle_hermit_prompt =
      Adds-reading (λ s. pure (accepted_line o s)) (λ _ h1. Adds-nothing P h1)

  Adds-invalid_selection : Goes (Adds P) (invalid_selection o)
  unfolding invalid_selection
  Adds-invalid_selection =
      Adds-bind P (hermit_print o (codes "Please input a valid selection")) (λ _. pure none)
        (Adds-hermit_print (codes "Please input a valid selection")) (λ _ h1. Adds-nothing P h1)

  Adds-select : (commands : List Text) (n : Option ℕ) → Goes (Adds P) (select o commands n)
  unfolding select
  Adds-select commands none h = Adds-invalid_selection h
  Adds-select commands (some n) h = elim (Option-cases (get_elem? commands n)) [
    | inl e ↦ rw (select, e) (Adds-invalid_selection h)
    | inr (c, e) ↦ rw (select, e) (Adds-nothing P h)
  ]

  Adds-on_selection :
      (commands : List Text) (signal : Signal) → Goes (Adds P) (on_selection o commands signal)
  unfolding on_selection
  Adds-on_selection commands (line text) h = Adds-select commands (selection_of o (trim text)) h
  Adds-on_selection commands ctrl_d h = Adds-nothing P h
  Adds-on_selection commands ctrl_c h = Adds-nothing P h

  abbrev offer : List Text → Text
  offer commands =
      codes "To run a suggested command from hermitd, type one of the following: \n"
      ++ choices_from 0 commands

  Adds-handle_hermit_selection :
      (commands : List Text) → Goes (Adds P) (handle_hermit_selection o commands)
  unfolding handle_hermit_selection
  Adds-handle_hermit_selection [] h = Adds-nothing P h
  Adds-handle_hermit_selection (c ∷ cs) h =
      Adds-bind P (hermit_print o (offer (c ∷ cs)))
        (λ _ h1.
          (map_err (o.on_read_line (read_line ∷ h1)) unknown_error >>= on_selection o (c ∷ cs))
            (read_line ∷ h1))
        (Adds-hermit_print (offer (c ∷ cs)))
        (λ _. Adds-reading (on_selection o (c ∷ cs)) (Adds-on_selection (c ∷ cs))) h

  Adds-handle_hermit_with :
      (prompt : Option Text) → Goes (Adds P) (handle_hermit_with o session_id prompt)
  unfolding handle_hermit_with
  Adds-handle_hermit_with none h = Adds-nothing P h
  Adds-handle_hermit_with (some prompt) h =
      Adds-bind P (generate_command o session_id prompt) _
        (Adds-generate_command o P session_id talks.messages prompt)
        (λ reply. Adds-bind P (hermit_print o reply.0) _ (Adds-hermit_print reply.0) (λ _.
          Adds-bind P (handle_hermit_selection o reply.1) (λ s. pure (pty_input o s))
            (Adds-handle_hermit_selection reply.1) (λ _ h1. Adds-nothing P h1)))
        h

  pub Adds-handle_hermit : Goes (Adds P) (handle_hermit o session_id)
  unfolding handle_hermit
  Adds-handle_hermit =
      Adds-bind P (handle_hermit_prompt o) (handle_hermit_with o session_id)
        Adds-handle_hermit_prompt Adds-handle_hermit_with
