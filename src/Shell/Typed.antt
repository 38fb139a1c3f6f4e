-- ===== src/Shell/Typed.antt =====
-- llmsh/src/shell.rs, `handle_input`, and the two state machines.
use llmsh.Base.{
  ℕ, [], ◌∷◌, Bool, true, Bytes, ok, is_calm, ◌≡◌, ◌≢◌, refl, sym, ap, ◌∙◌, Bool-cases, inl, inr,
}
use mathlib.Core.Path.{subst}
use llmsh.Text.{into_bytes}
use llmsh.Effects.{Method, ◌>>◌, pure}
use llmsh.Effects.Contracts.{Keeps, Keeps-bind, Keeps-weaken, is_calm-Keeps, Keeps-works}
use llmsh.Outside.{Outside, Answer, answer, failure, read_stdin}
use llmsh.Shell.Input
use llmsh.Shell.Input.{
  ShellInputState, undetermined, hermit_input, shell_prompt, idle, at_prompt, contains_colon,
  handle_undetermined, finish_hermit_inputs, ShellInputActions, pty, hermit, pass_through,
}
use llmsh.Shell.Bash.{BashParser}
use llmsh.Shell.Flags.{in_input}
use llmsh.Shell.Hermit.{write_parent, handle_hermit}
use llmsh.Shell.Coupling.{After, Keeps-with_history}
use llmsh.Shell.Dialogue.{IsInteractive, Keeps-write_parent, Keeps-handle_hermit}
use llmsh.Shell.Proxy.{
  ShellProxy, with_history, with_input, hermit_action, handle_input_action, handle_input_actions,
  on_input, handle_input,
}
use llmsh.Shell.Output.{IsBash, IsCoupled}

-- All but the state of the input's machine, which is `s`.
abbrev Typing : BashParser → Bytes → ShellInputState → ShellProxy → Type 0
Typing q bytes s p = (p.input_parser ≡ s) × (p.output_parser ≡ q) × (p.output_aggregation ≡ bytes)

module _ (o : Outside) where
  Keeps-pty :
      (q : BashParser) (agg : Bytes) (s : ShellInputState) (bytes : Bytes) (p : ShellProxy)
      → Typing q agg s p
      → Keeps (IsInteractive o) (λ _. Typing q agg s) (with_history (write_parent o bytes)) p
  Keeps-pty q agg s bytes p is =
      Keeps-with_history _ (Typing q agg s) (write_parent o bytes) p
        (Keeps-write_parent o bytes p.history) (λ h. is)

  Keeps-finish_hermit :
      (works : Type 0) (q : BashParser) (agg : Bytes) (p : ShellProxy)
      → Typing q agg hermit_input p
      → Keeps works (λ _. Typing q agg shell_prompt) (with_input finish_hermit_inputs) p
  unfolding finish_hermit_inputs
  Keeps-finish_hermit works q agg p (is, same, kept) = rw (with_input, is) (refl, same, kept)

  Keeps-hermit_action :
      (q : BashParser) (agg : Bytes) (p : ShellProxy)
      → Typing q agg hermit_input p
      → Keeps (IsInteractive o) (λ _. Typing q agg shell_prompt) (hermit_action o) p
  unfolding hermit_action
  Keeps-hermit_action q agg p is =
      Keeps-bind _ (λ _. Typing q agg hermit_input) _ (with_history (handle_hermit o p.session_id))
        _ p
        (Keeps-with_history _ (Typing q agg hermit_input) (handle_hermit o p.session_id) p
          (Keeps-handle_hermit o p.session_id p.history) (λ h. is))
        (λ bytes p1 now.
          Keeps-bind _ (λ _. Typing q agg shell_prompt) _ (with_input finish_hermit_inputs) _ p1
            (Keeps-finish_hermit _ q agg p1 now)
            (λ _ p2 then_q. Keeps-pty q agg shell_prompt (into_bytes bytes) p2 then_q))

  -- At the prompt as before, and not in the middle of a dialogue.
  abbrev Kept : BashParser → Bytes → Bool → Unit {0} → ShellProxy → Type 0
  Kept q agg b _ p =
      (s : ShellInputState) × Typing q agg s p × (at_prompt s ≡ b) × (s ≢ hermit_input)

  Keeps-one :
      (q : BashParser) (agg : Bytes) (b : Bool) (s : ShellInputState)
      (m : Method ShellProxy (Unit {0})) (p : ShellProxy)
      → at_prompt s ≡ b
      → s ≢ hermit_input
      → Keeps (IsInteractive o) (λ _. Typing q agg s) m p
      → Keeps (IsInteractive o) (Kept q agg b) (m >> pure tt) p
  Keeps-one q agg b s m p prompt at_rest k =
      Keeps-bind _ (λ _. Typing q agg s) (Kept q agg b) m (λ _. pure tt) p k
        (λ _ p1 now. (s, now, prompt, at_rest))

  Keeps-typed :
      (q : BashParser) (agg : Bytes) (b : Bool) (c : ℕ) (cs : Bytes) (s : ShellInputState)
      (p : ShellProxy)
      → Typing q agg s p
      → at_prompt s ≡ b
      → s ≢ hermit_input
      → Keeps (IsInteractive o) (Kept q agg b) (on_input o (answer (c ∷ cs))) p
  unfolding on_input Input.handle_input handle_input_actions handle_input_action handle_undetermined
  Keeps-typed q agg b c cs idle p (is, same, kept) prompt at_rest =
      rw (with_input, is)
        (Keeps-one q agg b idle (with_history (write_parent o (c ∷ cs)))
          (record p { input_parser = idle }) prompt at_rest
          (Keeps-pty q agg idle (c ∷ cs) _ (refl, same, kept)))
  Keeps-typed q agg b c cs shell_prompt p (is, same, kept) prompt at_rest =
      rw (with_input, is)
        (Keeps-one q agg b shell_prompt (with_history (write_parent o (c ∷ cs)))
          (record p { input_parser = shell_prompt }) prompt at_rest
          (Keeps-pty q agg shell_prompt (c ∷ cs) _ (refl, same, kept)))
  Keeps-typed q agg b c cs hermit_input p is prompt at_rest = absurd (at_rest refl)
  Keeps-typed q agg b c cs undetermined p (is, same, kept) prompt at_rest =
      elim (Bool-cases (contains_colon (c ∷ cs))) [
        | inl colon ↦
            rw (with_input, is, colon)
              (Keeps-one q agg b shell_prompt (hermit_action o)
                (record p { input_parser = hermit_input }) prompt (λ e. cc)
                (Keeps-hermit_action q agg _ (refl, same, kept)))
        | inr none_there ↦
            rw (with_input, is, none_there)
              (Keeps-one q agg b shell_prompt (with_history (write_parent o (c ∷ cs)))
                (record p { input_parser = shell_prompt }) prompt (λ e. cc)
                (Keeps-pty q agg shell_prompt (c ∷ cs) _ (refl, same, kept)))
      ]

  module _ (m n : Bytes) where
    Keeps-on_input :
        (read : Answer Bytes) (p : ShellProxy)
        → IsCoupled m n p
        → (IsInteractive o → (bytes : Bytes) × (read ≡ answer bytes))
        → Keeps (IsInteractive o) (λ _. IsCoupled m n) (on_input o read) p
    unfolding on_input
    Keeps-on_input (answer []) p is readable = is
    Keeps-on_input (answer (c ∷ cs)) p (bash, ((is, same), clear)) readable =
        let q = p.output_parser in
        let b = in_input q.state in
        Keeps-weaken _ (Kept q p.output_aggregation b) (λ _. IsCoupled m n)
          (on_input o (answer (c ∷ cs))) p
          (Keeps-typed q p.output_aggregation b c cs p.input_parser p (refl, refl, refl) is.prompt
            is.at_rest)
          (λ _ p1 (s, (is1, same1, kept1), prompt, at_rest).
            subst (λ t. IsBash m n t × After t (in_input t.state) p1) (sym same1)
              (
                bash,
                (
                  (
                    record {
                      prompt = ap at_prompt is1 ∙ prompt;
                      at_rest = λ e. at_rest (sym is1 ∙ e);
                    },
                    same1,
                  ),
                  λ e. kept1 ∙ clear e,
                ),
              ))
    Keeps-on_input (failure e) p is readable = λ w. let r = (readable w).1 in cc

    pub handle_input-IsCoupled :
        (p : ShellProxy)
        → IsCoupled m n p
        → Keeps (IsInteractive o) (λ _. IsCoupled m n) (handle_input o) p
    unfolding handle_input
    handle_input-IsCoupled p (bash, ((is, same), clear)) =
        Keeps-on_input (o.on_read_stdin (read_stdin ∷ p.history))
          (record p { history = read_stdin ∷ p.history })
          (bash, ((record { prompt = is.prompt; at_rest = is.at_rest }, refl), clear))
          (λ w. w.stdin (read_stdin ∷ p.history))

    -- `handle_input` on a coupled proxy does not panic, whatever the outside does: the `panic!` of the
    -- input's state machine is not reached.
    pub handle_input-calm : (p : ShellProxy) → IsCoupled m n p → is_calm (handle_input o p).0 ≡ true
    handle_input-calm p is =
        is_calm-Keeps _ (λ _. IsCoupled m n) (handle_input o) p (handle_input-IsCoupled p is)

    -- Where the terminal, the line editor, the shell and hermitd work, `handle_input` on a coupled proxy
    -- returns, and the proxy is coupled again.
    pub handle_input-works :
        (p : ShellProxy)
        → IsCoupled m n p
        → IsInteractive o
        → (p' : ShellProxy) × (handle_input o p ≡ (ok tt, p')) × IsCoupled m n p'
    handle_input-works p is works =
        let (_, p', returned, is') =
          Keeps-works (IsInteractive o) (λ _. IsCoupled m n) (handle_input o) p
            (handle_input-IsCoupled p is) works in
        (p', returned, is')
