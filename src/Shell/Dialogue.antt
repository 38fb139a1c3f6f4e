-- ===== src/Shell/Dialogue.antt =====
-- llmsh/src/shell.rs, `handle_hermit`: the contract of the dialogue with the user and hermitd.
use llmsh.Base.{
  ℕ, List, [], ◌∷◌, ◌++◌, Option, none, some, Bytes, ok, codes, get_elem?, ◌≡◌, Option-cases, inl,
  inr,
}
use llmsh.Text.{Text, into_bytes}
use llmsh.Util.{fix_newlines}
use llmsh.Effects.{◌>>=◌, pure}
use llmsh.Effects.Contracts.{Keeps, Keeps-bind, Keeps-calm}
use llmsh.Outside.{Outside, History, answer, Signal, read_line, line, ctrl_d, ctrl_c}
use llmsh.Messages.{generate_command, map_err}
use llmsh.Messages.Calm.{calm-generate_command}
use llmsh.Shell.Coupling.{IsWorking, Free, Keeps-map_err}
use llmsh.Shell.Strings.{trim, choices_from}
use llmsh.Shell.Hermit.{
  hermitd_resp_header, hermit_print, write_out, flush_out, write_parent, handle_hermit_prompt,
  invalid_selection, select, selection_of, on_selection, handle_hermit_selection,
  handle_hermit_with, handle_hermit, accepted_line, pty_input,
}

-- Besides, there is something to read, and hermitd generates commands.
pub record IsInteractive (o : Outside) : Type 0 where
  pub works : IsWorking o
  pub stdin : (h : History) → (bytes : Bytes) × (o.on_read_stdin h ≡ answer bytes)
  pub lines : (h : History) → (signal : Signal) × (o.on_read_line h ≡ answer signal)
  pub generates :
      (session_id : ℕ) (prompt : Text) (h : History)
      → (reply : Text × List Text) × ((generate_command o session_id prompt h).0 ≡ ok reply)

module _ (o : Outside) where
  Keeps-printed : (bytes : Bytes) (h : History) → Keeps (IsInteractive o) Free (write_out o bytes) h
  unfolding write_out
  Keeps-printed bytes h = Keeps-map_err _ _ _ _ (λ w. (tt, w.works.writes _))

  Keeps-flushed : (h : History) → Keeps (IsInteractive o) Free (flush_out o) h
  unfolding flush_out
  Keeps-flushed h = Keeps-map_err _ _ _ _ (λ w. (tt, w.works.writes _))

  pub Keeps-write_parent :
      (bytes : Bytes) (h : History) → Keeps (IsInteractive o) Free (write_parent o bytes) h
  unfolding write_parent
  Keeps-write_parent bytes h = Keeps-map_err _ _ _ _ (λ w. (tt, w.works.writes _))

  Keeps-hermit_print :
      (message : Text) (h : History) → Keeps (IsInteractive o) Free (hermit_print o message) h
  unfolding hermit_print
  Keeps-hermit_print message h =
      Keeps-bind _ Free _
        (write_out o (fix_newlines (into_bytes (hermitd_resp_header ++ message ++ codes "\n"))))
        (λ _. flush_out o) h (Keeps-printed _ h) (λ _ h1 _. Keeps-flushed h1)

  abbrev unknown_error : Bytes
  unknown_error = codes "Unknown error during handling hermitd prompt"

  Keeps-line :
      (h : History)
      → Keeps
          (IsInteractive o)
          Free
          (map_err (o.on_read_line (read_line ∷ h)) unknown_error)
          (read_line ∷ h)
  Keeps-line h = Keeps-map_err (IsInteractive o) _ _ _ (λ w. w.lines _)

  Keeps-handle_hermit_prompt :
      (h : History) → Keeps (IsInteractive o) Free (handle_hermit_prompt o) h
  unfolding handle_hermit_prompt
  Keeps-handle_hermit_prompt h =
      Keeps-bind _ Free Free (map_err (o.on_read_line (read_line ∷ h)) unknown_error)
        (λ s. pure (accepted_line o s)) (read_line ∷ h) (Keeps-line h) (λ _ _ _. tt)

  Keeps-invalid : (h : History) → Keeps (IsInteractive o) Free (invalid_selection o) h
  unfolding invalid_selection
  Keeps-invalid h =
      Keeps-bind (IsInteractive o) Free Free
        (hermit_print o (codes "Please input a valid selection")) (λ _. pure none) h
        (Keeps-hermit_print (codes "Please input a valid selection") h) (λ _ _ _. tt)

  Keeps-select :
      (commands : List Text) (n : Option ℕ) (h : History)
      → Keeps (IsInteractive o) Free (select o commands n) h
  unfolding select
  Keeps-select commands none h = Keeps-invalid h
  Keeps-select commands (some n) h = elim (Option-cases (get_elem? commands n)) [
    | inl e ↦ rw (select, e) (Keeps-invalid h)
    | inr (c, e) ↦ rw (select, e) tt
  ]

  Keeps-on_selection :
      (commands : List Text) (signal : Signal) (h : History)
      → Keeps (IsInteractive o) Free (on_selection o commands signal) h
  unfolding on_selection
  Keeps-on_selection commands (line text) h = Keeps-select commands (selection_of o (trim text)) h
  Keeps-on_selection commands ctrl_d h = tt
  Keeps-on_selection commands ctrl_c h = tt

  abbrev offer : List Text → Text
  offer commands =
      codes "To run a suggested command from hermitd, type one of the following: \n"
      ++ choices_from 0 commands

  Keeps-handle_hermit_selection :
      (commands : List Text) (h : History)
      → Keeps (IsInteractive o) Free (handle_hermit_selection o commands) h
  unfolding handle_hermit_selection
  Keeps-handle_hermit_selection [] h = tt
  Keeps-handle_hermit_selection (c ∷ cs) h =
      Keeps-bind _ Free Free (hermit_print o (offer (c ∷ cs)))
        (λ _ h1.
          (map_err (o.on_read_line (read_line ∷ h1)) unknown_error >>= on_selection o (c ∷ cs))
            (read_line ∷ h1))
        h (Keeps-hermit_print (offer (c ∷ cs)) h)
        (λ _ h1 _.
          Keeps-bind _ Free Free (map_err (o.on_read_line (read_line ∷ h1)) unknown_error)
            (on_selection o (c ∷ cs)) (read_line ∷ h1) (Keeps-line h1)
            (λ signal h2 _. Keeps-on_selection (c ∷ cs) signal h2))

  Keeps-generate_command :
      (session_id : ℕ) (prompt : Text) (h : History)
      → Keeps (IsInteractive o) Free (generate_command o session_id prompt) h
  Keeps-generate_command session_id prompt h =
      Keeps-calm (IsInteractive o) Free (generate_command o session_id prompt) h
        (calm-generate_command o session_id prompt h)
        (λ e failed w. let g = (w.generates session_id prompt h).1 in cc) (λ a. tt)

  Keeps-handle_hermit_with :
      (session_id : ℕ) (prompt : Option Text) (h : History)
      → Keeps (IsInteractive o) Free (handle_hermit_with o session_id prompt) h
  unfolding handle_hermit_with
  Keeps-handle_hermit_with session_id none h = tt
  Keeps-handle_hermit_with session_id (some prompt) h =
      Keeps-bind _ Free Free (generate_command o session_id prompt)
        (λ reply. hermit_print o reply.0 >>= λ _.
          handle_hermit_selection o reply.1 >>= λ s. pure (pty_input o s))
        h (Keeps-generate_command session_id prompt h)
        (λ reply h1 _.
          Keeps-bind _ Free Free (hermit_print o reply.0)
            (λ _. handle_hermit_selection o reply.1 >>= λ s. pure (pty_input o s)) h1
            (Keeps-hermit_print reply.0 h1)
            (λ _ h2 _.
              Keeps-bind _ Free Free (handle_hermit_selection o reply.1) (λ s. pure (pty_input o s))
                h2 (Keeps-handle_hermit_selection reply.1 h2) (λ _ _ _. tt)))

  pub Keeps-handle_hermit :
      (session_id : ℕ) (h : History) → Keeps (IsInteractive o) Free (handle_hermit o session_id) h
  unfolding handle_hermit
  Keeps-handle_hermit session_id h =
      Keeps-bind _ Free _ (handle_hermit_prompt o) (handle_hermit_with o session_id) h
        (Keeps-handle_hermit_prompt h)
        (λ prompt h1 _. Keeps-handle_hermit_with session_id prompt h1)
