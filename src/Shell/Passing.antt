-- ===== src/Shell/Passing.antt =====
-- llmsh/src/shell.rs, `handle_input` and `handle_output`: what reaches the shell.
use llmsh.Base.{ℕ, ◌∷◌, ◌++◌, Bytes, ok, ◌≡◌, ◌⊎◌, inl, inr, refl, sym, ap, ◌∙◌, Bool-cases}
use llmsh.Text.{Text, into_bytes}
use llmsh.Effects.{◌>>◌, pure, bind-ok}
use llmsh.Outside.{Outside, History, answer, read_stdin, write_pty}
use llmsh.Messages.Protocol.{map_err-ok}
use llmsh.Shell.Input
use llmsh.Shell.Input.{
  ShellInputState, undetermined, hermit_input, shell_prompt, idle, contains_colon,
  handle_undetermined, finish_hermit_inputs, handle_shell_prompt,
}
use llmsh.Shell.Hermit.{write_parent, handle_hermit}
use llmsh.Shell.Proxy.{
  ShellProxy, with_history, with_input, hermit_action, handle_input_action, handle_input_actions,
  on_input, handle_input,
}
use llmsh.Shell.Quiet.{to_shell, IsQuiet-handle_hermit}
use llmsh.Shell.Chosen.{Entered, Entered-handle_hermit}
use llmsh.Shell.Showing.{with_history-ok}
use llmsh.Shell.Colons.{Opens, Opens-colon, Opens-none, Opens-not}

-- The state after bytes that went to the shell.
abbrev pub passed_in : ShellInputState → ShellInputState
passed_in idle = idle
passed_in _ = shell_prompt

module _ (o : Outside) where
  -- The bytes themselves are what is written, and all that happens.
  abbrev pub IsPassed : Bytes → ShellProxy → ShellProxy → Type 0
  IsPassed bytes p p' = p' ≡ record p {
    history = write_pty bytes ∷ read_stdin ∷ p.history;
    input_parser = passed_in p.input_parser;
  }

  -- The shell is sent what the dialogue comes to, and none of the bytes.
  pub record IsDialogue (p p' : ShellProxy) : Type 0 where
    pub typed : Text
    pub entered : Entered o p.session_id (read_stdin ∷ p.history) typed
    pub sent_to_shell : to_shell p'.history ≡ to_shell p.history ++ into_bytes typed
    pub at_prompt : p'.input_parser ≡ shell_prompt
    pub others :
        (p'.session_id ≡ p.session_id)
        × (p'.output_parser ≡ p.output_parser)
        × (p'.output_aggregation ≡ p.output_aggregation)

  write_parent-ok :
      (bytes : Bytes) (h h' : History)
      → write_parent o bytes h ≡ (ok tt, h')
      → h' ≡ write_pty bytes ∷ h
  unfolding write_parent
  write_parent-ok bytes h h' e = (map_err-ok _ _ _ e).1

  passed :
      (bytes : Bytes) (p p' : ShellProxy)
      → (with_history (write_parent o bytes) >> pure tt) p ≡ (ok tt, p')
      → p' ≡ record p { history = write_pty bytes ∷ p.history }
  passed bytes p p' e =
      let (_, p1, writing, e1) = bind-ok (with_history (write_parent o bytes)) (λ _. pure tt) p e in
      let (h, w, is) = with_history-ok (write_parent o bytes) p p1 writing in
      sym (ap (λ r. r.1) e1)
      ∙ sym is
      ∙ ap (λ h. record p { history = h }) (write_parent-ok bytes p.history h w)

  finish_hermit_inputs-ok :
      (s s' : ShellInputState) → finish_hermit_inputs s ≡ (ok tt, s') → s' ≡ shell_prompt
  unfolding finish_hermit_inputs
  finish_hermit_inputs-ok hermit_input s' e = sym (ap (λ r. r.1) e)
  finish_hermit_inputs-ok undetermined s' e = cc
  finish_hermit_inputs-ok shell_prompt s' e = cc
  finish_hermit_inputs-ok idle s' e = cc

  finished :
      (p p' : ShellProxy)
      → with_input finish_hermit_inputs p ≡ (ok tt, p')
      → p' ≡ record p { input_parser = shell_prompt }
  finished p p' e =
      let is : record p { input_parser = (finish_hermit_inputs p.input_parser).1 } ≡ p' =
        ap (λ r. r.1) e in
      let done =
        finish_hermit_inputs-ok p.input_parser _
          (λ i. ((e i).0, (finish_hermit_inputs p.input_parser).1)) in
      sym is ∙ ap (λ s. record p { input_parser = s }) done

  IsDialogue-hermit_action :
      (p p' : ShellProxy)
      → (hermit_action o >> pure tt)
          (record p { history = read_stdin ∷ p.history; input_parser = hermit_input })
        ≡ (ok tt, p')
      → IsDialogue p p'
  unfolding hermit_action
  IsDialogue-hermit_action p p' e =
      let p0 = record p { history = read_stdin ∷ p.history; input_parser = hermit_input } in
      let (_, p4, acting, e4) = bind-ok (hermit_action o) (λ _. pure tt) p0 e in
      let (typed, p1, talking, e1) =
        bind-ok (with_history (handle_hermit o p.session_id)) _ p0 acting in
      let (_, p2, finishing, e2) = bind-ok (with_input finish_hermit_inputs) _ p1 e1 in
      let (h1, talked, is1) = with_history-ok (handle_hermit o p.session_id) p0 p1 talking in
      let (h3, wrote, is3) = with_history-ok (write_parent o (into_bytes typed)) p2 p4 e2 in
      let entered = Entered-handle_hermit o p.session_id (read_stdin ∷ p.history) h1 typed talked in
      let at_p2 : p2 ≡ record p0 { history = h1; input_parser = shell_prompt } =
        finished p1 p2 finishing
        ∙ ap (λ (p : ShellProxy). record p { input_parser = shell_prompt }) (sym is1) in
      let h3_is = write_parent-ok (into_bytes typed) p2.history h3 wrote in
      let at_p' : p'
          ≡ record p0 { history = write_pty (into_bytes typed) ∷ h1; input_parser = shell_prompt } =
        sym (ap (λ r. r.1) e4)
        ∙ sym is3
        ∙ ap (λ (h : History). record p2 { history = h }) h3_is
        ∙ ap (λ (p : ShellProxy). record p { history = write_pty (into_bytes typed) ∷ p.history })
            at_p2 in
      record {
        typed = typed;
        entered = entered;
        sent_to_shell =
            ap (λ p. to_shell p.history) at_p'
            ∙ ap (λ b. b ++ into_bytes typed)
                (sym (ap (λ r. to_shell r.1) talked) ∙ IsQuiet-handle_hermit o p.session_id _);
        at_prompt = ap (λ p. p.input_parser) at_p';
        others = (
          ap (λ p. p.session_id) at_p',
          ap (λ p. p.output_parser) at_p',
          ap (λ p. p.output_aggregation) at_p',
        );
      }

  Passes :
      (c : ℕ) (cs : Bytes) (s : ShellInputState) (p p' : ShellProxy)
      → p.input_parser ≡ s
      → on_input o (answer (c ∷ cs)) (record p { history = read_stdin ∷ p.history }) ≡ (ok tt, p')
      → ((¬ Opens (c ∷ cs) p.input_parser)
          × (p' ≡ record p {
            history = write_pty (c ∷ cs) ∷ read_stdin ∷ p.history;
            input_parser = passed_in s;
          }))
        ⊎ (Opens (c ∷ cs) p.input_parser × IsDialogue p p')
  unfolding on_input Input.handle_input handle_input_actions handle_input_action handle_undetermined
      handle_shell_prompt
  Passes c cs idle p p' is e =
      let e' = rw (with_input, is) at e in
      inl (Opens-not (c ∷ cs) p.input_parser is (λ h. h), passed (c ∷ cs) _ p' e')
  Passes c cs shell_prompt p p' is e =
      let e' = rw (with_input, is) at e in
      inl (Opens-not (c ∷ cs) p.input_parser is (λ h. h), passed (c ∷ cs) _ p' e')
  Passes c cs hermit_input p p' is e = let e' = rw (with_input, is) at e in cc
  Passes c cs undetermined p p' is e = elim (Bool-cases (contains_colon (c ∷ cs))) [
    | inl colon ↦
        let e' = rw (with_input, is, colon) at e in
        inr (Opens-colon (c ∷ cs) p.input_parser is colon, IsDialogue-hermit_action p p' e')
    | inr none_there ↦
        let e' = rw (with_input, is, none_there) at e in
        inl (Opens-none (c ∷ cs) p.input_parser is none_there, passed (c ∷ cs) _ p' e')
  ]

  -- When bytes were read and `handle_input` returned: if they open no dialogue, which they do where the
  -- machine is undetermined and one of them is a colon, not only the first, the shell was sent these
  -- bytes, nothing else was called besides the read, and only the input's machine may have changed, to
  -- the shell's prompt; if they do, the shell was sent nothing but what the dialogue came to, a carriage
  -- return or a command that the user chose from hermitd's answer, between two, and the machine is at
  -- the shell's prompt.
  pub handle_input-Passes :
      (p p' : ShellProxy) (c : ℕ) (cs : Bytes)
      → o.on_read_stdin (read_stdin ∷ p.history) ≡ answer (c ∷ cs)
      → handle_input o p ≡ (ok tt, p')
      → ((¬ Opens (c ∷ cs) p.input_parser) × IsPassed (c ∷ cs) p p')
        ⊎ (Opens (c ∷ cs) p.input_parser × IsDialogue p p')
  unfolding handle_input
  handle_input-Passes p p' c cs read e = Passes c cs p.input_parser p p' refl (rw read at e)
